-- ===== src/Metrics.antt =====
-- internal/metrics-engine: the events of requests, from the context of a request to the analytical store.
pub mod Stages
pub mod Events
pub mod Buffer
pub mod Engine
pub mod Recording
pub mod Conservation
pub mod Queries
pub mod Timeline
pub mod Bodies
pub mod Buckets
pub mod Guards
