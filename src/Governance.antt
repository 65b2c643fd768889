-- ===== src/Governance.antt =====
-- internal/governance: budgets, usage records, virtual keys and the hooks that consult them.
pub mod Budget
pub mod Settle
pub mod Usage
pub mod KeyCache
pub mod Admission
pub mod Billing
