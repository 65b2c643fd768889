-- ===== src/Metrics/Engine.antt =====
-- internal/metrics-engine/metrics-engine.go: the engine over the buffer. `pool` collects what was given back
-- to the pool of events, `rows` what the store wrote.

use diffractllm.Base.{
  ℕ, suc, ◌/◌, Bool, true, false, ◌&&◌, Option, none, some, List, [], ◌∷◌, ◌++◌, ℤ, pos, add64, leb,
  ltb, length, if◌then◌else◌,
}
use diffractllm.Metrics.Buffer.{EventsBuffer, append_event, drain_events, new_events_buffer}

abbrev pub max_write_attempts : ℕ
max_write_attempts = 3

pub record MetricsEngine (E : Type 0) : Type 0 where
  pub buffer : EventsBuffer E
  pub retry : List E
  pub attempts : ℕ
  pub lost : ℤ
  pub pool : List E
  pub rows : List E

pub record FlushDetail : Type 0 where
  pub dropped : ℤ
  pub lost : ℤ
  pub written : Option ℕ
  pub retrying : Option ℕ
  pub failed : Bool

module _ {E : Type 0} where
  unfoldable pub new_metrics_engine : ℤ → MetricsEngine E
  unfolding new_events_buffer
  new_metrics_engine capacity = record {
    buffer = new_events_buffer capacity;
    retry = [];
    attempts = 0;
    lost = pos 0;
    pool = [];
    rows = [];
  }

  unfoldable pub release_all : List E → MetricsEngine E → MetricsEngine E
  release_all events m = record m { pool = m.pool ++ events }

  -- `AddEvent`, once the event is filled: a full buffer gives it back to the pool. The second result is
  -- whether a flush is triggered, where the workers run.
  unfoldable pub add_event : Bool → E → MetricsEngine E → MetricsEngine E × Bool
  unfolding append_event release_all
  add_event workers e m =
      let (b, kept) = append_event e m.buffer in
      if kept
      then (record m { buffer = b }, workers && leb (b.max_capacity / 2) (length b.events))
      else (release_all (e ∷ []) (record m { buffer = b }), false)

  -- The first half of `flush`: what is to be written.
  unfoldable pub collect : MetricsEngine E → List E × MetricsEngine E
  unfolding drain_events
  collect m =
      let (drained, b) = drain_events m.buffer in
      (m.retry ++ drained, record m { buffer = b; retry = [] })

  -- The second half, where there is something to write: `fails` is the answer of the store.
  unfoldable pub settle_write :
      Bool → List E → FlushDetail → MetricsEngine E → FlushDetail × MetricsEngine E
  unfolding release_all add64
  settle_write true events detail m =
      if ltb (suc m.attempts) max_write_attempts
      then (
        record detail { retrying = some (length events); failed = true },
        record m { attempts = suc m.attempts; retry = events },
      )
      else let lost = add64 m.lost (pos (length events)) in
        (
          record detail { lost = lost; failed = true },
          release_all events (record m { attempts = 0; lost = lost }),
        )
  settle_write false events detail m = (
    record detail { written = some (length events) },
    release_all events (record m { attempts = 0; rows = m.rows ++ events }),
  )

  abbrev new_detail : MetricsEngine E → FlushDetail
  new_detail m = record {
    dropped = m.buffer.dropped;
    lost = m.lost;
    written = none;
    retrying = none;
    failed = false;
  }

  unfoldable pub write_events : Bool → List E → MetricsEngine E → FlushDetail × MetricsEngine E
  unfolding settle_write
  write_events fails [] m = (record (new_detail m) { written = some 0 }, m)
  write_events fails (e ∷ es) m = settle_write fails (e ∷ es) (new_detail m) m

  unfoldable pub flush_events : Bool → MetricsEngine E → FlushDetail × MetricsEngine E
  unfolding collect write_events
  flush_events fails m = let (events, m') = collect m in write_events fails events m'

-- Requests add events while the one worker writes what it collected.
pub record MetricsState (E : Type 0) : Type 0 where
  pub engine : MetricsEngine E
  pub in_flight : Option (List E)

pub data MetricsAction (E : Type 0) : Type 0 where
  added : Bool → E → MetricsAction E
  collected : MetricsAction E
  settled : Bool → MetricsAction E

module _ {E : Type 0} where
  unfoldable pub metrics_step : MetricsState E → MetricsAction E → MetricsState E
  unfolding add_event collect write_events
  metrics_step s (added workers e) = record s { engine = (add_event workers e s.engine).0 }
  metrics_step s collected = elim s.in_flight [
    | some events ↦ s
    | none ↦ let (events, m) = collect s.engine in record { engine = m; in_flight = some events }
  ]
  metrics_step s (settled fails) = elim s.in_flight [
    | none ↦ s
    | some events ↦ record { engine = (write_events fails events s.engine).1; in_flight = none }
  ]

  unfoldable pub metrics_run : MetricsState E → List (MetricsAction E) → MetricsState E
  unfolding metrics_step
  metrics_run s [] = s
  metrics_run s (a ∷ actions) = metrics_run (metrics_step s a) actions
