-- ===== src/Governance/Usage.antt =====
-- internal/governance/usage.go, `flushUsageHistory` of governance.go, and `BulkInsertUsageHistory` of
-- internal/dbstore/usage.go. The lock makes each method one step.
pub mod Laws
use diffractllm.Base.{
  ℕ, suc, ◌≡◌, Bool, true, false, Option, none, some, String, List, [], ◌∷◌, ◌++◌, ℤ, pos, negsuc,
  ◌+◌, leb, length, add64, if◌then◌else◌,
}

pub record UsageRecord : Type 0 where
  pub client_id : String
  pub budget_id : String
  pub backend : String
  pub model_id : String
  pub model_name : String
  pub input_tokens : ℤ
  pub output_tokens : ℤ
  pub response_bytes : ℤ
  pub response_status : ℤ
  pub cost : ℤ
  pub requested_at : ℤ

abbrev pub default_usage_buffer_capacity : ℕ
default_usage_buffer_capacity = 100_000

pub record UsageBuffer : Type 0 where
  pub records : List UsageRecord
  pub max_capacity : ℕ
  pub dropped : ℤ

unfoldable pub new_usage_buffer : ℤ → UsageBuffer
new_usage_buffer (pos (suc n)) = record { records = []; max_capacity = suc n; dropped = pos 0 }
new_usage_buffer _ = record {
  records = [];
  max_capacity = default_usage_buffer_capacity;
  dropped = pos 0;
}

unfoldable pub append : UsageRecord → UsageBuffer → UsageBuffer
append r ub =
    if leb ub.max_capacity (length ub.records)
    then record ub { dropped = add64 ub.dropped (pos 1) }
    else record ub { records = ub.records ++ r ∷ [] }

unfoldable pub drain : UsageBuffer → List UsageRecord × UsageBuffer
drain ub = (ub.records, record ub { records = [] })

unfoldable pub append_all : List UsageRecord → UsageBuffer → UsageBuffer
unfolding append
append_all [] ub = ub
append_all (r ∷ rs) ub = append_all rs (append r ub)

pub record StoreUsageRecord : Type 0 where
  pub id : String
  pub client_id : String
  pub budget_id : String
  pub backend : String
  pub model_id : String
  pub model_name : String
  pub input_tokens : ℤ
  pub output_tokens : ℤ
  pub total_tokens : ℤ
  pub response_status : ℤ
  pub response_bytes : ℤ
  pub cost : ℤ
  pub request_at : ℤ
  pub flushed_at : ℤ

-- The identifiers come from the package uuid, and the instant from the clock: `new_id` gives the
-- identifier of the record at an index.
unfoldable pub store_record : String → ℤ → UsageRecord → StoreUsageRecord
store_record id flushed_at r = record {
  id = id;
  client_id = r.client_id;
  budget_id = r.budget_id;
  backend = r.backend;
  model_id = r.model_id;
  model_name = r.model_name;
  input_tokens = r.input_tokens;
  output_tokens = r.output_tokens;
  total_tokens = add64 r.input_tokens r.output_tokens;
  response_status = r.response_status;
  response_bytes = r.response_bytes;
  cost = r.cost;
  request_at = r.requested_at;
  flushed_at = flushed_at;
}

unfoldable pub store_records : (ℕ → String) → ℤ → ℕ → List UsageRecord → List StoreUsageRecord
unfolding store_record
store_records new_id flushed_at index [] = []
store_records new_id flushed_at index (r ∷ rs) =
    store_record (new_id index) flushed_at r ∷ store_records new_id flushed_at (index + 1) rs

-- The rows are inserted all or, where the database fails, none.
unfoldable pub bulk_insert_usage_history :
    Bool → List StoreUsageRecord → List StoreUsageRecord → Option (List StoreUsageRecord)
bulk_insert_usage_history fails [] rows = some rows
bulk_insert_usage_history fails (r ∷ rs) rows = if fails then none else some (rows ++ r ∷ rs)

-- What follows `Drain`: the records that were drained are stored, or appended again.
unfoldable pub finish_flush :
    (ℕ → String)
    → ℤ
    → Bool
    → List UsageRecord
    → UsageBuffer × List StoreUsageRecord
    → UsageBuffer × List StoreUsageRecord × Option ℕ
unfolding store_records bulk_insert_usage_history append_all
finish_flush new_id now fails records (ub, rows) =
    elim (bulk_insert_usage_history fails (store_records new_id now 0 records) rows) [
      | none ↦ (append_all records ub, rows, none)
      | some rows' ↦ (ub, rows', some (length records))
    ]

-- `if len(records) == 0 { return 0, nil }`
unfoldable pub flush_drained :
    (ℕ → String)
    → ℤ
    → Bool
    → List UsageRecord
    → UsageBuffer × List StoreUsageRecord
    → UsageBuffer × List StoreUsageRecord × Option ℕ
unfolding finish_flush
flush_drained new_id now fails [] (ub, rows) = (ub, rows, some 0)
flush_drained new_id now fails (r ∷ rs) (ub, rows) =
    finish_flush new_id now fails (r ∷ rs) (ub, rows)

-- The buffer, the rows, and the number written; `none` is the error of the insert.
unfoldable pub flush_usage_history :
    (ℕ → String)
    → ℤ
    → Bool
    → UsageBuffer × List StoreUsageRecord
    → UsageBuffer × List StoreUsageRecord × Option ℕ
unfolding drain flush_drained
flush_usage_history new_id now fails (ub, rows) =
    let (records, ub') = drain ub in flush_drained new_id now fails records (ub', rows)

-- The buffer, the rows, and the batch between `Drain` and the end of a flush.
pub record UsageState : Type 0 where
  pub buffer : UsageBuffer
  pub rows : List StoreUsageRecord
  pub in_flight : List UsageRecord

-- `Append` by a request; the two halves of the worker's flush.
pub data UsageEvent : Type 0 where
  appended : UsageRecord → UsageEvent
  drained : UsageEvent
  finished : (ℕ → String) → ℤ → Bool → UsageEvent

-- One worker drains, so a second `Drain` waits for the first flush to end.
unfoldable pub usage_step : UsageState → UsageEvent → UsageState
unfolding append drain finish_flush
usage_step s (appended r) = record s { buffer = append r s.buffer }
usage_step s drained = elim s.in_flight [
  | [] ↦ let (records, ub) = drain s.buffer in record s { buffer = ub; in_flight = records }
  | r ∷ rs ↦ s
]
usage_step s (finished new_id now fails) =
    let (ub, rows, _) = finish_flush new_id now fails s.in_flight (s.buffer, s.rows) in
    record { buffer = ub; rows = rows; in_flight = [] }

unfoldable pub usage_run : UsageState → List UsageEvent → UsageState
unfolding usage_step
usage_run s [] = s
usage_run s (e ∷ es) = usage_run (usage_step s e) es
