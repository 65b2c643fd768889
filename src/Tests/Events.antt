-- ===== src/Tests/Events.antt =====
-- Events of requests, their bodies and stages, and the buckets of a query.
use diffractllm.Metrics.Stages.{stages}
use diffractllm.Metrics.Timeline.{IsChain, last_end, stages-IsChain}
use diffractllm.Base.{
  Bool, ◌≡◌, refl, true, false, ℕ, ◌+◌, ◌*◌, ◌<◌, ◌==◌, List, [], ◌∷◌, none, some, pos, ok, ℤ,
  arith, Result,
}
use diffractllm.Core.Errors.{new_upstream_error}
use diffractllm.Tests.Requests.{arrived}
use diffractllm.Metrics.Buckets.{bucket_index-bounds}
use diffractllm.Metrics.Conservation.{IsAccounted, metrics_run-IsAccounted, count_offered}
use diffractllm.Metrics.Engine.{
  MetricsEngine, MetricsAction, MetricsState, added, collected, settled, metrics_run,
  new_metrics_engine,
}
use diffractllm.Metrics.Events.{
  payload_ready, Event, Exchange, CaptureConfig, capture_payload, fill,
}
use diffractllm.Metrics.Queries.{
  QueryConfig, QueryError, bucket_for, bucket_index, bucket_start, day,
}
use diffractllm.Metrics.Recording.{record_event}

abbrev idle : MetricsState ℕ
idle = record { engine = new_metrics_engine (pos 2); in_flight = none }

-- Three events for a buffer of two; the first write is refused, the second is not.
abbrev actions : List (MetricsAction ℕ)
actions =
    added true 1
    ∷ added true 2
    ∷ added true 3
    ∷ collected
    ∷ settled true
    ∷ added true 4
    ∷ collected
    ∷ settled false
    ∷ []

idle-IsAccounted : IsAccounted (λ e. e == 2) 0 idle
unfolding new_metrics_engine
idle-IsAccounted = record {
  conserved = refl;
  written = omega arith;
  idle = λ busy. refl;
  tries = omega arith;
  first_try = λ first. refl;
  bounded = omega arith;
}

metrics_run-IsAccounted_example :
    IsAccounted (λ e. e == 2) (0 + count_offered (λ e. e == 2) actions) (metrics_run idle actions)
metrics_run-IsAccounted_example =
    metrics_run-IsAccounted (λ e. e == 2) actions 0 idle idle-IsAccounted

-- Three of the four events are written in their order, and one was dropped.
written_rows : (metrics_run idle actions).engine.rows ≡ 1 ∷ 2 ∷ 4 ∷ []
unfolding metrics_run new_metrics_engine
written_rows = refl

abbrev marks : List ℤ
marks = pos 3_000 ∷ pos 0 ∷ pos 9_500 ∷ pos 0 ∷ pos 0 ∷ pos 0 ∷ pos 0 ∷ []

bucket_index-bounds_example :
    let (start, n) = bucket_start (pos 5_000) (pos (3 * day)) (bucket_for (pos day)) in
    (i : ℕ) × (m : ℕ) × (bucket_index start (bucket_for (pos day)) (pos day) ≡ pos i)
    × (n ≡ pos m)
    × (i < m)
bucket_index-bounds_example =
    bucket_index-bounds (pos day) 5_000 (3 * day) day (omega arith) (omega arith) (omega arith)

abbrev limits : QueryConfig
limits = record { max_page = pos 100; max_window = pos (31 * day) }

abbrev page_query : ℤ → ℤ → ℤ → ℤ → Result QueryError ℤ
page_query from to offset limit = ok limit

-- A request whose upstream failed.
abbrev pub failed_exchange : Exchange
failed_exchange = record {
  request_id = "r1";
  endpoint = "/v1/chat/completions";
  body_bytes = 123 ∷ 125 ∷ [];
  upstream_status = pos 502;
  upstream_attempts = pos 1;
  ttfb = pos 0;
  request_completed = false;
  response_body = 123 ∷ 125 ∷ [];
  error = some (new_upstream_error 502 "bad gateway");
  stream_chunks = pos 0;
  stream_finish_reason = "";
  stream_aborted = false;
  marks = marks;
}

abbrev failed_event : Event ℕ
failed_event = fill (λ c. pos c) "e1" (pos 20_000) arrived failed_exchange

abbrev errors_only : CaptureConfig
errors_only = record { payload_mode = "errors_only"; payload_max_kb = 1 }

-- Both bodies are kept whole.
failed_payload :
    (capture_payload errors_only failed_exchange failed_event).payload_state ≡ payload_ready
unfolding capture_payload fill new_upstream_error
failed_payload = refl

abbrev recorded : MetricsEngine (Event ℕ) × Bool
recorded =
    record_event errors_only (λ c. pos c) true true "e1" (pos 20_000) arrived failed_exchange
      (new_metrics_engine (pos 2))

-- The event of the failed request is buffered with its bodies, and half a buffer triggers a flush.
recorded_once :
    recorded.0.buffer.events ≡ capture_payload errors_only failed_exchange failed_event ∷ []
unfolding record_event new_metrics_engine
recorded_once = refl

triggers : recorded.1 ≡ true
unfolding record_event new_metrics_engine
triggers = refl

stages-IsChain_example :
    IsChain (pos 0) (stages marks (pos 20_000))
    × (last_end (pos 0) (stages marks (pos 20_000)) ≡ pos 20)
stages-IsChain_example = stages-IsChain marks (pos 20_000) refl (omega arith)
