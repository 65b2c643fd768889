-- ===== src/Governance/Settle/Laws.antt =====
-- internal/governance/governance.go: what one turn of the settle loops leaves in the cache and the rows.
use diffractllm.Base.{
  ◌≡◌, Bool, true, false, some, String, ℤ, pos, lookup, lookup-insert, beq_refl, string_eq,
  if◌then◌else◌, ◌==?◌, add64-neg64_self, arith,
}
use diffractllm.Governance.Budget.{BudgetConfig, Budget, budget_reset_target}
use diffractllm.Governance.Settle.{
  BudgetRow, BudgetRows, update_columns, flush_entry, roll_entry, rolled_config, is_clean,
}

lookup-update_columns :
    (id k : String) (change : BudgetRow → BudgetRow) (db : BudgetRows) (row : BudgetRow)
    → lookup id db ≡ some row
    → lookup k (update_columns id change db) ≡ (if id ==? k then some (change row) else lookup k db)
unfolding update_columns
lookup-update_columns id k change db row h = ground (arith, lookup-insert id k (change row) db)

-- A dirty budget whose row is there and whose write succeeds is written to its row, marked clean and
-- counted; its counters, its configuration and the other rows stay.
pub flush_entry_lem :
    (fails : String → Bool) (b : Budget) (db : BudgetRows) (cfg : BudgetConfig) (row : BudgetRow)
    → b.config ≡ some cfg
    → is_clean b ≡ false
    → fails cfg.id ≡ false
    → lookup cfg.id db ≡ some row
    → let (b', db', counted) = flush_entry fails b db in
      (counted ≡ true)
      × (b' ≡ record b { last_flushed = b.window_cost; last_reqs = b.window_reqs })
      × ((k : String)
          → lookup k db' ≡ (
              if cfg.id ==? k
              then some (record row { total_cost = b.window_cost; request_count = b.window_reqs })
              else lookup k db))
unfolding flush_entry
flush_entry_lem fails b db cfg row c dirty ok h = (
  ground arith,
  ground arith,
  λ k.
      let written =
        lookup-update_columns cfg.id k
          (λ r. record r { total_cost = b.window_cost; request_count = b.window_reqs }) db row h in
      ground (arith, written),
)

-- A turn that does not count as a flush (the write fails, the budget is clean or has no
-- configuration) changes neither the budget nor the rows.
pub flush_entry-unchanged :
    (fails : String → Bool) (b : Budget) (db : BudgetRows)
    → (flush_entry fails b db).2 ≡ false
    → flush_entry fails b db ≡ (b, db, false)
unfolding flush_entry
flush_entry-unchanged fails b db h = ground arith

-- A roll that succeeds starts the window at the target: the row and the configuration have it, with
-- nothing spent, and the counters are at 0; the other rows stay. Here the window is over, the writes
-- succeed, the row is there, and no request comes between.
pub roll_entry_lem :
    (flush_fails reset_fails : String → Bool) (now target : ℤ) (b : Budget) (db : BudgetRows)
    (cfg : BudgetConfig) (row : BudgetRow)
    → b.config ≡ some cfg
    → budget_reset_target (some cfg) now ≡ some target
    → flush_fails cfg.id ≡ false
    → reset_fails cfg.id ≡ false
    → lookup cfg.id db ≡ some row
    → let (b', db', counted) = roll_entry flush_fails reset_fails now b db in
      (counted ≡ true)
      × (b' ≡ record {
        config = some (rolled_config target cfg);
        window_cost = pos 0;
        window_reqs = pos 0;
        last_flushed = pos 0;
        last_reqs = pos 0;
      })
      × ((k : String)
          → lookup k db' ≡ (
              if cfg.id ==? k
              then some (record {
                total_cost = pos 0;
                request_count = pos 0;
                last_budget_refresh_at = target;
              })
              else lookup k db))
unfolding roll_entry
roll_entry_lem flush_fails reset_fails now target b db cfg row c t ok ok' h =
    let flushed : BudgetRow = record row {
      total_cost = b.window_cost;
      request_count = b.window_reqs;
    } in
    let db' =
      update_columns cfg.id
        (λ r. record r { total_cost = b.window_cost; request_count = b.window_reqs }) db in
    let first = λ (k : String).
      lookup-update_columns cfg.id k
        (λ r. record r { total_cost = b.window_cost; request_count = b.window_reqs }) db row h in
    let second = λ (k : String).
      lookup-update_columns cfg.id k
        (λ r. record r {
          total_cost = pos 0;
          request_count = pos 0;
          last_budget_refresh_at = target;
        })
        db' flushed (ground (arith, first cfg.id, beq_refl cfg.id)) in
    (
      ground arith,
      ground (arith, add64-neg64_self b.window_cost, add64-neg64_self b.window_reqs),
      λ k. ground (arith, first k, second k),
    )

-- A turn that does not count as a roll (one of the two writes fails, or the window is not over) keeps
-- the budget as it is, so that the next turn tries again with everything spent.
pub roll_entry-failed :
    (flush_fails reset_fails : String → Bool) (now : ℤ) (b : Budget) (db : BudgetRows)
    → (roll_entry flush_fails reset_fails now b db).2 ≡ false
    → (roll_entry flush_fails reset_fails now b db).0 ≡ b
unfolding roll_entry
roll_entry-failed flush_fails reset_fails now b db h = ground arith
