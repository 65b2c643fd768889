-- ===== src/Catalog.antt =====
-- internal/modelcatalog: the models and the prices that a request is billed at.
pub mod Prices
pub mod Models
pub mod Feed
