-- ===== src/Tests/History.antt =====
-- internal/governance/usage.go and `flushUsageHistory` at concrete records.
use diffractllm.Base.{ℕ, ◌≡◌, String, [], ◌∷◌, List, ℤ, pos, true, arith}
use diffractllm.Governance.Usage.{
  UsageRecord, UsageBuffer, flush_usage_history, UsageState, UsageEvent, appended, drained,
  finished, usage_run,
}
use diffractllm.Governance.Usage.Laws.{total, usage_run-total, flush_usage_history-failed}

abbrev used : ℤ → UsageRecord
used cost = record {
  client_id = "c1";
  budget_id = "b1";
  backend = "openai";
  model_id = "m1";
  model_name = "gpt-4o";
  input_tokens = pos 10;
  output_tokens = pos 5;
  response_bytes = pos 100;
  response_status = pos 200;
  cost = cost;
  requested_at = pos 1;
}

-- A buffer of two, that is full.
abbrev full : UsageBuffer
full = record { records = used (pos 1) ∷ used (pos 2) ∷ []; max_capacity = 2; dropped = pos 0 }

abbrev start : UsageState
start = record { buffer = full; rows = []; in_flight = [] }

abbrev new_id : ℕ → String
new_id n = "u1"

-- A failed flush, during which one record arrives; the buffer is full when two come back.
abbrev events : List UsageEvent
events =
    appended (used (pos 3)) ∷ drained ∷ appended (used (pos 4)) ∷ finished new_id (pos 9) true ∷ []

usage_run-total_example : total 0 (usage_run start events) ≡ total 2 start
usage_run-total_example = usage_run-total events 0 start

flush_usage_history-failed_example :
    ((flush_usage_history new_id (pos 9) true (full, [])).0 ≡ full)
    × ((flush_usage_history new_id (pos 9) true (full, [])).1 ≡ [])
flush_usage_history-failed_example = flush_usage_history-failed new_id (pos 9) full [] (omega arith)
