-- ===== src/Governance/Settle/Interleaving.antt =====
-- internal/governance/governance.go and budget.go: one budget between the requests that charge it, the
-- sync of its configuration and the two jobs of the settle goroutine. A step loads the counters,
-- writes the database once, stores the configuration or updates the counters; requests and syncs come
-- between any two steps of a job. A sync here finds the row of the budget: one that has none is evicted by
-- `LoadBudgets`, which stands in Governance/Budget.
use diffractllm.Base.{
  add64-zero, add64-add64-zero, ◌≡◌, sym, ap, ◌∙◌, some, ℤ, pos, add64, neg64, add64_assoc,
  add64_comm, add64-neg64, arith,
}
use diffractllm.Governance.Budget.{BudgetConfig, Budget, record_usage, budget_reset_target}
use diffractllm.Governance.Settle.{mark_flushed, store_config, rolled_config, close_window}

-- Where the settle goroutine stands, with what it has loaded.
pub data Stage : Type 0 where
  idle : Stage
  -- `flushBudgetUsage` has loaded the counters; it has written the row
  flush_loaded flush_written : ℤ → ℤ → Stage
  -- `trackBudgetWindow` has loaded configuration, target and counters; it has written the final total
  roll_loaded roll_flushed : BudgetConfig → ℤ → ℤ → ℤ → Stage
  -- it has reset the row; it has stored the new configuration
  roll_reset : BudgetConfig → ℤ → ℤ → ℤ → Stage
  roll_stored : ℤ → ℤ → Stage

pub record Machine : Type 0 where
  pub budget : Budget
  pub stage : Stage
  -- what the row of the budget holds
  pub row_cost : ℤ
  -- the sum of the windows that were closed in the database
  pub closed : ℤ
  -- the sum of all charges
  pub charged : ℤ

pub data Step (m : Machine) : Machine → Type 0 where
  -- `RecordUsage`, by any request
  request :
      (spend : ℤ)
      → Step m (record m { budget = record_usage spend m.budget; charged = add64 m.charged spend })
  -- `LoadBudgets` stores a fresh configuration
  sync : (cfg : BudgetConfig) → Step m (record m { budget = store_config cfg m.budget })
  flush_load :
      m.stage ≡ idle
      → Step m (record m { stage = flush_loaded m.budget.window_cost m.budget.window_reqs })
  flush_write :
      (cost reqs : ℤ)
      → m.stage ≡ flush_loaded cost reqs
      → Step m (record m { stage = flush_written cost reqs; row_cost = cost })
  flush_fail :
      (cost reqs : ℤ) → m.stage ≡ flush_loaded cost reqs → Step m (record m { stage = idle })
  flush_mark :
      (cost reqs : ℤ)
      → m.stage ≡ flush_written cost reqs
      → Step m (record m { stage = idle; budget = mark_flushed cost reqs m.budget })
  roll_load :
      (cfg : BudgetConfig) (now target : ℤ)
      → m.stage ≡ idle
      → m.budget.config ≡ some cfg
      → budget_reset_target (some cfg) now ≡ some target
      → Step m
          (record m { stage = roll_loaded cfg target m.budget.window_cost m.budget.window_reqs })
  roll_write :
      (cfg : BudgetConfig) (target cost reqs : ℤ)
      → m.stage ≡ roll_loaded cfg target cost reqs
      → Step m (record m { stage = roll_flushed cfg target cost reqs; row_cost = cost })
  roll_write_fail :
      (cfg : BudgetConfig) (target cost reqs : ℤ)
      → m.stage ≡ roll_loaded cfg target cost reqs
      → Step m (record m { stage = idle })
  roll_close :
      (cfg : BudgetConfig) (target cost reqs : ℤ)
      → m.stage ≡ roll_flushed cfg target cost reqs
      → Step m (record m {
        stage = roll_reset cfg target cost reqs;
        row_cost = pos 0;
        closed = add64 m.closed cost;
      })
  roll_close_fail :
      (cfg : BudgetConfig) (target cost reqs : ℤ)
      → m.stage ≡ roll_flushed cfg target cost reqs
      → Step m (record m { stage = idle })
  roll_store :
      (cfg : BudgetConfig) (target cost reqs : ℤ)
      → m.stage ≡ roll_reset cfg target cost reqs
      → Step m (record m {
        stage = roll_stored cost reqs;
        budget = store_config (rolled_config target cfg) m.budget;
      })
  roll_subtract :
      (cost reqs : ℤ)
      → m.stage ≡ roll_stored cost reqs
      → Step m (record m { stage = idle; budget = close_window cost reqs m.budget })

pub data Reach (m : Machine) : Machine → Type 0 where
  here : Reach m m
  next : {n o : Machine} → Reach m n → Step n o → Reach m o

-- What the counter still holds of a window that is closed already.
abbrev pub carried : Stage → ℤ
carried (roll_reset cfg target cost reqs) = cost
carried (roll_stored cost reqs) = cost
carried _ = pos 0

-- Every charge is in a closed window or in the counter, once.
abbrev pub IsBalanced : Machine → Type 0
IsBalanced m = add64 m.charged (carried m.stage) ≡ add64 m.closed m.budget.window_cost

swap_last : (a b c : ℤ) → add64 (add64 a b) c ≡ add64 (add64 a c) b
swap_last a b c = add64_assoc a b c ∙ ap (add64 a) (add64_comm b c) ∙ sym (add64_assoc a c b)

Step-IsBalanced : {m n : Machine} → Step m n → IsBalanced m → IsBalanced n
unfolding record_usage mark_flushed store_config close_window
Step-IsBalanced {m} (request spend) h =
    swap_last m.charged spend (carried m.stage)
    ∙ ap (λ x. add64 x spend) h
    ∙ add64_assoc m.closed m.budget.window_cost spend
Step-IsBalanced (sync cfg) h = h
Step-IsBalanced (flush_load e) h = ground arith
Step-IsBalanced (flush_write cost reqs e) h = ground arith
Step-IsBalanced (flush_fail cost reqs e) h = ground arith
Step-IsBalanced (flush_mark cost reqs e) h = ground arith
Step-IsBalanced (roll_load cfg now target e c t) h = ground arith
Step-IsBalanced (roll_write cfg target cost reqs e) h = ground arith
Step-IsBalanced (roll_write_fail cfg target cost reqs e) h = ground arith
Step-IsBalanced {m} (roll_close cfg target cost reqs e) h =
    sym (add64-add64-zero m.charged cost)
    ∙ ap (λ x. add64 x cost) (before ∙ h)
    ∙ swap_last m.closed m.budget.window_cost cost
  where
    before : add64 m.charged (pos 0) ≡ add64 m.charged (carried m.stage)
    before = ground arith
Step-IsBalanced (roll_close_fail cfg target cost reqs e) h = ground arith
Step-IsBalanced (roll_store cfg target cost reqs e) h = ground arith
Step-IsBalanced {m} (roll_subtract cost reqs e) h =
    add64-zero m.charged
    ∙ sym (add64-neg64 m.charged cost)
    ∙ ap (λ x. add64 x (neg64 cost)) (before ∙ h)
    ∙ add64_assoc m.closed m.budget.window_cost (neg64 cost)
  where
    before : add64 m.charged cost ≡ add64 m.charged (carried m.stage)
    before = ground arith

-- Whatever requests and syncs come between the steps of the settle goroutine, and whichever of its
-- writes fail: the charges so far are the closed windows together with the counter (modulo 2^64),
-- where a window that is being closed counts once. No charge is lost or counted twice.
pub Reach-IsBalanced : {m n : Machine} → Reach m n → IsBalanced m → IsBalanced n
Reach-IsBalanced here h = h
Reach-IsBalanced (next r s) h = Step-IsBalanced s (Reach-IsBalanced r h)
