-- ===== src/Pricing.antt =====
-- internal/core/pricing.go.
pub mod Fields
pub mod Complete
pub mod Merge
pub mod Float
pub mod Tier
pub mod Rates
pub mod UnitRates
pub mod Usage
pub mod Tokens
pub mod TokenPrices
pub mod Cost
