-- ===== src/Governance/Budget/Cache.antt =====
-- internal/governance/budget.go: the counters of a budget over requests and over syncs of the cache.
use text.Mathlib.TextEquality.{eq_iff}
use diffractllm.Base.{
  ℕ, ◌+◌, ◌≤◌, ◌<◌, ◌≡◌, true, false, Option, none, some, String, List, [], ◌∷◌, ℤ, pos, ◌≤ℤ◌, ◌<ℤ◌,
  ◌+ℤ◌, max_int64, IsInt64, if◌then◌else◌, lookup, lookup-insert, ◌==?◌, string_eq, arith,
  Option-cases,
}
use diffractllm.Governance.Budget.{
  BudgetConfig, Budget, check_budget_usage, record_usage, BudgetCache, upsert_budget,
  upsert_budgets, delete_inactive, is_active_id, load_budgets,
}

-- A budget that is exhausted stays so over further requests, while the counter does not overflow.
pub record_usage-exhausted :
    (b : Budget) (spend : ℤ)
    → pos 0 ≤ℤ spend
    → IsInt64 (b.window_cost +ℤ spend)
    → check_budget_usage b ≡ false
    → check_budget_usage (record_usage spend b) ≡ false
unfolding check_budget_usage record_usage
record_usage-exhausted b spend h fits e = ground arith

-- A charge that takes the counter of an exhausted budget past the largest int64 leaves the counter negative, and
-- the budget, whose limit is positive, admits requests again.
pub record_usage-overflow :
    (b : Budget) (cfg : BudgetConfig) (cost spend : ℕ)
    → b.config ≡ some cfg
    → b.window_cost ≡ pos cost
    → pos 0 <ℤ cfg.budget_limit
    → cost ≤ max_int64
    → spend ≤ max_int64
    → max_int64 < cost + spend
    → check_budget_usage b ≡ false
    → ((record_usage (pos spend) b).window_cost <ℤ pos 0)
      × (check_budget_usage (record_usage (pos spend) b) ≡ true)
unfolding check_budget_usage record_usage
record_usage-overflow b cfg cost spend c w l hc hs h exhausted =
    (ground (arith, w, hc, hs, h), ground (arith, c, w, l, hc, hs, h))

seeded : BudgetConfig → Budget
seeded budget = record {
  config = some budget;
  window_cost = budget.total_spend;
  window_reqs = budget.request_count;
  last_flushed = budget.total_spend;
  last_reqs = budget.request_count;
}

-- The entry that a sync leaves for a row: new counters only where there was no entry.
abbrev refreshed : BudgetConfig → Option Budget → Budget
refreshed budget none = seeded budget
refreshed budget (some actual) = record actual { config = some budget }

lookup-upsert_budget :
    (budget : BudgetConfig) (k : String) (bc : BudgetCache)
    → lookup k (upsert_budget budget bc)
      ≡ (if budget.id ==? k then some (refreshed budget (lookup budget.id bc)) else lookup k bc)
unfolding upsert_budget seeded
lookup-upsert_budget budget k bc =
    ground (arith, Option-cases (lookup budget.id bc), lookup-insert budget.id k (seeded budget) bc)

-- The configuration that a list of rows leaves in an entry: that of the last row with its id.
abbrev pub last_config : String → List BudgetConfig → Option BudgetConfig → Option BudgetConfig
last_config k [] c = c
last_config k (b ∷ bs) c = last_config k bs (if b.id ==? k then some b else c)

lookup-upsert_budgets :
    (bs : List BudgetConfig) (k : String) (bc : BudgetCache) (a : Budget)
    → lookup k bc ≡ some a
    → lookup k (upsert_budgets bs bc) ≡ some (record a { config = last_config k bs a.config })
unfolding upsert_budgets
lookup-upsert_budgets [] k bc a h = h
lookup-upsert_budgets (b ∷ bs) k bc a h =
    lookup-upsert_budgets bs k (upsert_budget b bc)
      (record a { config = if b.id ==? k then some b else a.config })
      (ground (arith, lookup-upsert_budget b k bc, eq_iff b.id k))

lookup-delete_inactive :
    (bs : List BudgetConfig) (k : String) (bc : BudgetCache)
    → lookup k (delete_inactive bs bc) ≡ (if is_active_id bs k then lookup k bc else none)
unfolding lookup delete_inactive
lookup-delete_inactive bs k [] = ground arith
lookup-delete_inactive bs k ((j, b) ∷ bc) =
    ground (arith, lookup-delete_inactive bs k bc, eq_iff j k)

-- A sync removes the budgets that have no row. One that was cached and has a row keeps its counters,
-- and takes the configuration of its last row.
pub lookup-load_budgets :
    (bs : List BudgetConfig) (k : String) (bc : BudgetCache) (a : Budget)
    → lookup k bc ≡ some a
    → lookup k (load_budgets bs bc)
      ≡ (if is_active_id bs k then some (record a { config = last_config k bs a.config }) else none)
unfolding load_budgets
lookup-load_budgets bs k bc a h =
    rw (lookup-delete_inactive bs k (upsert_budgets bs bc), lookup-upsert_budgets bs k bc a h)
