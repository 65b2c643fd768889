-- ===== src/Governance/Settle.antt =====
-- internal/governance/governance.go, `flushBudgetUsage` and `trackBudgetWindow`, and the writes of
-- internal/dbstore/budget.go that they make. A write fails where the database does: which ones do is
-- an argument. The order of `Range` is that of the list.
pub mod Interleaving
pub mod Laws
use diffractllm.Base.{
  ℕ, suc, Bool, true, false, ◌&&◌, Option, none, some, String, [], ◌∷◌, ℤ, pos, eqb_ℤ, add64, neg64,
  if◌then◌else◌, Map, lookup, insert, string_eq,
}
use diffractllm.Governance.Budget.{BudgetConfig, Budget, BudgetCache, budget_reset_target}

-- The columns of `budgets` that the workers write.
pub record BudgetRow : Type 0 where
  pub total_cost : ℤ
  pub request_count : ℤ
  pub last_budget_refresh_at : ℤ

abbrev pub BudgetRows : Type 0
BudgetRows = Map String BudgetRow

-- `UPDATE … WHERE id = ?`: no row, no change, and no error.
unfoldable pub update_columns : String → (BudgetRow → BudgetRow) → BudgetRows → BudgetRows
unfolding lookup insert
update_columns id change db = elim (lookup id db) [
  | none ↦ db
  | some row ↦ insert id (change row) db
]

-- `none` is an error of the database.
unfoldable pub flush_budget_usage_row : Bool → String → ℤ → ℤ → BudgetRows → Option BudgetRows
unfolding update_columns
flush_budget_usage_row fails id total_cost total_requests db =
    if fails
    then none
    else some (
        update_columns id
          (λ row. record row { total_cost = total_cost; request_count = total_requests }) db)

unfoldable pub reset_budget_window_row : Bool → String → ℤ → BudgetRows → Option BudgetRows
unfolding update_columns
reset_budget_window_row fails id reset_time db =
    if fails
    then none
    else some (
        update_columns id
          (λ row. record row {
            total_cost = pos 0;
            request_count = pos 0;
            last_budget_refresh_at = reset_time;
          })
          db)

-- `b.LastFlushed.Store(cost)` and `b.LastReqs.Store(reqs)`.
unfoldable pub mark_flushed : ℤ → ℤ → Budget → Budget
mark_flushed cost reqs b = record b { last_flushed = cost; last_reqs = reqs }

unfoldable pub is_clean : Budget → Bool
is_clean b = eqb_ℤ b.window_cost b.last_flushed && eqb_ℤ b.window_reqs b.last_reqs

-- The body of the `Range` of `flushBudgetUsage`, and whether it counts as flushed.
unfoldable pub flush_entry : (String → Bool) → Budget → BudgetRows → Budget × BudgetRows × Bool
unfolding flush_budget_usage_row mark_flushed is_clean
flush_entry fails b db = elim b.config [
  | none ↦ (b, db, false)
  | some cfg ↦
      if is_clean b
      then (b, db, false)
      else elim (flush_budget_usage_row (fails cfg.id) cfg.id b.window_cost b.window_reqs db) [
        | none ↦ (b, db, false)
        | some db' ↦ (mark_flushed b.window_cost b.window_reqs b, db', true)
      ]
]

unfoldable pub rolled_config : ℤ → BudgetConfig → BudgetConfig
rolled_config target cfg = record cfg {
  last_budget_refresh_at = target;
  total_spend = pos 0;
  request_count = pos 0;
}

-- `b.Config.Store(&newCfg)`
unfoldable pub store_config : BudgetConfig → Budget → Budget
store_config cfg b = record b { config = some cfg }

-- What the old window had is taken off the counters, and nothing of the new one is flushed yet.
unfoldable pub close_window : ℤ → ℤ → Budget → Budget
close_window cost reqs b = record b {
  window_cost = add64 b.window_cost (neg64 cost);
  window_reqs = add64 b.window_reqs (neg64 reqs);
  last_flushed = pos 0;
  last_reqs = pos 0;
}

-- The body of the `Range` of `trackBudgetWindow`, and whether it counts as rolled.
unfoldable pub roll_entry :
    (String → Bool) → (String → Bool) → ℤ → Budget → BudgetRows → Budget × BudgetRows × Bool
unfolding flush_budget_usage_row reset_budget_window_row rolled_config store_config close_window
roll_entry flush_fails reset_fails now b db = elim b.config [
  | none ↦ (b, db, false)
  | some cfg ↦ elim (budget_reset_target (some cfg) now) [
    | none ↦ (b, db, false)
    | some target ↦
        elim (flush_budget_usage_row (flush_fails cfg.id) cfg.id b.window_cost b.window_reqs db) [
          | none ↦ (b, db, false)
          | some flushed ↦
              elim (reset_budget_window_row (reset_fails cfg.id) cfg.id target flushed) [
                | none ↦ (b, flushed, false)
                | some reset ↦ (
                  close_window b.window_cost b.window_reqs
                      (store_config (rolled_config target cfg) b),
                  reset,
                  true,
                )
              ]
        ]
  ]
]

-- `Range` with a body that may replace the entry and write rows; the number counts its successes.
unfoldable pub range :
    (Budget → BudgetRows → Budget × BudgetRows × Bool)
    → BudgetCache
    → BudgetRows
    → BudgetCache × BudgetRows × ℕ
range body [] db = ([], db, 0)
range body ((k, b) ∷ bc) db =
    let (b', db', counted) = body b db in
    let (bc', db'', n) = range body bc db' in ((k, b') ∷ bc', db'', if counted then suc n else n)

unfoldable pub flush_budget_usage :
    (String → Bool) → BudgetCache → BudgetRows → BudgetCache × BudgetRows × ℕ
unfolding range flush_entry
flush_budget_usage fails = range (flush_entry fails)

unfoldable pub track_budget_window :
    (String → Bool) → (String → Bool) → ℤ → BudgetCache → BudgetRows → BudgetCache × BudgetRows × ℕ
unfolding range roll_entry
track_budget_window flush_fails reset_fails now = range (roll_entry flush_fails reset_fails now)
