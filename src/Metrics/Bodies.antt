-- ===== src/Metrics/Bodies.antt =====
-- internal/metrics-engine/metrics-engine.go: which bodies of a request are captured, and how much of them.
use diffractllm.Base.{
  ◌≢◌, String, ◌⊎◌, ℕ, ◌*◌, ◌≤◌, ◌≡◌, Bool, true, false, ◌||◌, Option, none, some, is_set, List, [],
  length, take, ltb, if◌then◌else◌,
}
use diffractllm.Metrics.Events.{
  EventResult, completed, client_abort, Exchange, Event, Payload, payload_ready, payload_truncated,
  CaptureConfig, clip,
}

-- A result that is a failure: not a completed request, nor one that the client left.
abbrev pub IsFailure : EventResult → Type 0
IsFailure completed = ⊥
IsFailure client_abort = ⊥
IsFailure _ = Unit {0}

-- A result whose bodies the mode asks for.
abbrev pub IsAsked : String → EventResult → Type 0
IsAsked mode result = (mode ≡ "full") ⊎ ((mode ≡ "errors_only") × IsFailure result)

abbrev failure : EventResult → Bool
failure completed = false
failure client_abort = false
failure _ = true

-- A body that was captured of `body`: nil for an empty one, and else its beginning, of at most `limit` bytes, which
-- is the whole of one within the limit.
abbrev pub IsClipped : List ℕ → ℕ → Option (List ℕ) → Type 0
IsClipped body limit none = body ≡ []
IsClipped body limit (some kept) = (body ≢ []) × (kept ≡ take limit body) × (length kept ≤ limit)

-- What the event of a request holds of its bodies: nothing, where the mode does not ask for this result or both
-- bodies are empty; else both, clipped, with the state saying whether one was cut.
pub data IsCaptured {F : Type 0} (cfg : CaptureConfig) (x : Exchange) (e e' : Event F)
    : Type 0 where
  skipped :
      (IsAsked cfg.payload_mode e.outcome.result → ⊥)
        ⊎ ((x.body_bytes ≡ []) × (x.response_body ≡ []))
      → e' ≡ e
      → IsCaptured cfg x e e'
  kept :
      (payload : Payload)
      → IsAsked cfg.payload_mode e.outcome.result
      → IsClipped x.body_bytes (cfg.payload_max_kb * 1_024) payload.client_request
      → IsClipped x.response_body (cfg.payload_max_kb * 1_024) payload.client_response
      → e' ≡ record e {
        payload = some payload;
        payload_state =
            if ltb (cfg.payload_max_kb * 1_024) (length x.body_bytes)
              || ltb (cfg.payload_max_kb * 1_024) (length x.response_body)
            then payload_truncated
            else payload_ready;
      }
      → IsCaptured cfg x e e'

module _ {F : Type 0} (cfg : CaptureConfig) (x : Exchange) (e : Event F) where
  abbrev limit : ℕ
  limit = cfg.payload_max_kb * 1_024

  abbrev bodies : Payload
  bodies = record {
    client_request = (clip x.body_bytes limit).0;
    client_response = (clip x.response_body limit).0;
  }

  abbrev some_body : Bool
  some_body = is_set (clip x.body_bytes limit).0 || is_set (clip x.response_body limit).0
