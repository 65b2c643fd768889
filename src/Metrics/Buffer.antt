-- ===== src/Metrics/Buffer.antt =====
-- internal/metrics-engine/EventsBuffer.go. The lock makes each method one step.
use diffractllm.Base.{
  ℕ, suc, Bool, true, false, List, [], ◌∷◌, ◌++◌, ℤ, pos, add64, leb, length, if◌then◌else◌,
}

abbrev pub default_events_buffer_capacity : ℕ
default_events_buffer_capacity = 5_000

pub record EventsBuffer (E : Type 0) : Type 0 where
  pub events : List E
  pub max_capacity : ℕ
  pub dropped : ℤ

module _ {E : Type 0} where
  unfoldable pub new_events_buffer : ℤ → EventsBuffer E
  new_events_buffer (pos (suc n)) = record { events = []; max_capacity = suc n; dropped = pos 0 }
  new_events_buffer _ = record {
    events = [];
    max_capacity = default_events_buffer_capacity;
    dropped = pos 0;
  }

  unfoldable pub append_event : E → EventsBuffer E → EventsBuffer E × Bool
  unfolding add64
  append_event e b =
      if leb b.max_capacity (length b.events)
      then (record b { dropped = add64 b.dropped (pos 1) }, false)
      else (record b { events = b.events ++ e ∷ [] }, true)

  unfoldable pub drain_events : EventsBuffer E → List E × EventsBuffer E
  drain_events b = (b.events, record b { events = [] })
