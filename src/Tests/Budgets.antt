-- ===== src/Tests/Budgets.antt =====
-- internal/governance/budget.go and governance.go at concrete budgets.
use diffractllm.Tests.Samples.{config}
use diffractllm.Base.{
  ◌<ℤ◌, neg64, ◌≡◌, refl, Bool, true, false, some, String, [], ◌∷◌, pos, arith, add64, string_eq,
  max_int64, ◌-ℤ◌,
}
use diffractllm.Governance.Budget.{Budget, budget_reset_target, check_budget_usage, record_usage}
use diffractllm.Governance.Budget.Window.{IsWindowStart, budget_reset_target-IsWindowStart}
use diffractllm.Governance.Budget.Cache.{record_usage-overflow}
use diffractllm.Governance.Settle.{
  BudgetRows, flush_entry, roll_entry, rolled_config, store_config, close_window,
}
use diffractllm.Governance.Settle.Interleaving.{
  idle, Machine, Reach, here, next, request, roll_load, roll_write, roll_close, roll_store,
  roll_subtract, IsBalanced, Reach-IsBalanced,
}

abbrev spent : Budget
spent = record {
  config = some config;
  window_cost = pos 500;
  window_reqs = pos 3;
  last_flushed = pos 7;
  last_reqs = pos 1;
}

abbrev rows : BudgetRows
rows =
    ("b1", record { total_cost = pos 7; request_count = pos 1; last_budget_refresh_at = pos 1_000 })
    ∷ []

abbrev never : String → Bool
never id = false

abbrev always : String → Bool
always id = true

target : budget_reset_target (some config) (pos 1_250) ≡ some (pos 1_200)
unfolding budget_reset_target
target = refl

budget_reset_target-IsWindowStart_example :
    IsWindowStart (pos 1_000) (pos 100) (pos 1_250) (pos 1_200)
unfolding ◌-ℤ◌
budget_reset_target-IsWindowStart_example =
    budget_reset_target-IsWindowStart config (pos 1_250) (pos 1_200) (omega arith) target

spent_up : check_budget_usage spent ≡ false
unfolding check_budget_usage
spent_up = refl

record_usage-overflow_example :
    ((record_usage (pos max_int64) spent).window_cost <ℤ pos 0)
    × (check_budget_usage (record_usage (pos max_int64) spent) ≡ true)
unfolding check_budget_usage
record_usage-overflow_example =
    record_usage-overflow spent config 500 max_int64 refl refl (omega arith) (omega arith)
      (omega arith) (omega arith) refl

unflushed : (flush_entry always spent rows).2 ≡ false
unfolding flush_entry
unflushed = refl

unrolled : (roll_entry never always (pos 1_250) spent rows).2 ≡ false
unfolding roll_entry budget_reset_target
unrolled = refl

abbrev before : Machine
before = record {
  budget = spent;
  stage = idle;
  row_cost = pos 7;
  closed = pos 0;
  charged = pos 500;
}

-- A request of 10 comes between the load of the counters and their subtraction.
abbrev after : Machine
after = record {
  budget = record {
    config = some (rolled_config (pos 1_200) config);
    window_cost = pos 10;
    window_reqs = pos 1;
    last_flushed = pos 0;
    last_reqs = pos 0;
  };
  stage = idle;
  row_cost = pos 0;
  closed = pos 500;
  charged = pos 510;
}

roll : Reach before after
unfolding record_usage store_config close_window budget_reset_target add64 neg64
roll =
    next
      (next
        (next
          (next
            (next (next here (roll_load config (pos 1_250) (pos 1_200) refl refl refl))
              (request (pos 10)))
            (roll_write config (pos 1_200) (pos 500) (pos 3) refl))
          (roll_close config (pos 1_200) (pos 500) (pos 3) refl))
        (roll_store config (pos 1_200) (pos 500) (pos 3) refl))
      (roll_subtract (pos 500) (pos 3) refl)

Reach-IsBalanced_example : IsBalanced after
unfolding add64
Reach-IsBalanced_example = Reach-IsBalanced roll refl
