-- ===== src/Dataplane.antt =====
-- internal/providerplane and internal/dataplane: the credentials, and the choice among them.
pub mod Plane
pub mod Selection
pub mod Transport
pub mod Clients
pub mod Headers
