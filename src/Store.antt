-- ===== src/Store.antt =====
-- internal/dbstore: the operations that the administration calls on the database.
pub mod Tables
pub mod VirtualKeys
pub mod Creation
pub mod Exclusive
pub mod Steps
pub mod KeySteps
pub mod BudgetSteps
pub mod Invariant
pub mod Release
pub mod Credentials
pub mod Secrets
