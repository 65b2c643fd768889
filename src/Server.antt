-- ===== src/Server.antt =====
-- internal/server: how a request runs through the parts.
pub mod Answer
pub mod Chat
pub mod Handler
pub mod Bodies
pub mod Phases
pub mod Serving
pub mod Charges
pub mod Endings
pub mod Kept
pub mod Streams
pub mod Outcomes
