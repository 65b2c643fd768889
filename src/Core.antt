-- ===== src/Core.antt =====
-- internal/core: the types that the other parts share.
pub mod Errors
pub mod Models
pub mod Capabilities
pub mod VirtualKey
pub mod KeyFormat
pub mod Credential
pub mod Context
pub mod Hooks
pub mod Money
