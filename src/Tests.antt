-- ===== src/Tests.antt =====
-- Concrete inputs at which the theorems with conditions hold, by the component that they are about.
mod Prices
mod Budgets
mod History
mod Policies
mod Keys
mod Samples
mod Store
mod Events
mod Serving
mod Networks
mod Secrets
mod Catalogs
mod Feeds
mod Jobs
mod Requests
mod Routes
