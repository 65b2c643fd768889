-- ===== src/Metrics/Events.antt =====
-- internal/metrics-engine/events.go, event-pool.go and `capturePayload` of metrics-engine.go: what an event
-- records of a request. The identifier and the instant come from outside.
use text.Mathlib.Text.{◌==◌}
use mathlib.Core.Option.{map}
use diffractllm.Base.{
  get_elem?, ◌&&◌, or_default, ℕ, ◌*◌, Bool, true, false, ◌||◌, not, String, Option, none, some,
  is_set, List, [], ◌∷◌, ℤ, pos, length, take, ltb, ltb_ℤ, if◌then◌else◌,
}
use diffractllm.Core.Context.{Context}
use diffractllm.Core.Errors.{DiffractError, ErrorCategory, ErrorCode, is_client, is_provider}
use diffractllm.Core.Models.{RequestKind}
use diffractllm.Core.VirtualKey.{VkMode}
use diffractllm.Pricing.Usage.{Usage}
use diffractllm.Metrics.Stages.{Stage, stages, microseconds}

pub data EventResult : Type 0 where
  completed rejected upstream_failed gateway_failed client_abort : EventResult

pub data PayloadState : Type 0 where
  payload_none payload_ready payload_truncated payload_dropped : PayloadState

-- The bodies that the gateway fills; the others stay nil.
pub record Payload : Type 0 where
  pub client_request : Option (List ℕ)
  pub client_response : Option (List ℕ)

-- The fields of the context that a request sets after it was admitted.
pub record Exchange : Type 0 where
  pub request_id : String
  pub endpoint : String
  pub body_bytes : List ℕ
  pub upstream_status : ℤ
  pub upstream_attempts : ℤ
  pub ttfb : ℤ
  pub request_completed : Bool
  pub response_body : List ℕ
  pub error : Option DiffractError
  pub stream_chunks : ℤ
  pub stream_finish_reason : String
  pub stream_aborted : Bool
  pub marks : List ℤ

pub record Governance : Type 0 where
  pub client_id : String
  pub virtual_key_id : String
  pub budget_id : String

pub record EventOutcome : Type 0 where
  pub result : EventResult
  pub http_status : ℤ
  pub upstream_http_status : ℤ
  pub error_code : Option ErrorCode
  pub error_category : Option ErrorCategory
  pub error_message : String

pub record Timing : Type 0 where
  pub start : ℤ
  pub total_us : ℤ
  pub ttfb_us : ℤ
  pub ttft_us : ℤ
  pub stages : List Stage

pub record Routing : Type 0 where
  pub mode : Option VkMode
  pub credential_id : String
  pub credential_name : String
  pub attempt_count : ℤ

pub record Llm (F : Type 0) : Type 0 where
  pub requested_model : String
  pub provider : String
  pub model : String
  pub upstream_model : String
  pub stream : Bool
  pub finish_reason : String
  pub usage : Option (Usage F)

pub record Event (F : Type 0) : Type 0 where
  pub id : String
  pub request_id : String
  pub request_kind : RequestKind
  pub request_endpoint : String
  pub cost_nano_usd : ℤ
  pub governance : Governance
  pub outcome : EventOutcome
  pub timing : Timing
  pub routing : Option Routing
  pub llm : Llm F
  pub payload_state : PayloadState
  pub payload : Option Payload

unfoldable pub classify : Exchange → EventResult
unfolding is_client is_provider
classify x = if x.stream_aborted then client_abort else elim x.error [
  | none ↦ if x.request_completed then completed else gateway_failed
  | some e ↦
      if is_client e.category
      then rejected
      else if is_provider e.category
      then upstream_failed
      else gateway_failed
]

-- `rctx.Marks[core.StageFirstToken]`
abbrev first_token_mark : List ℤ → ℤ
first_token_mark marks = or_default (get_elem? marks 6) (pos 0)

-- `total` is the time since the start of the request.
unfoldable pub fill : {F W : Type 0} → (F → ℤ) → String → ℤ → Context F W → Exchange → Event F
unfolding classify stages
fill nano id total rctx x = record {
  id = id;
  request_id = x.request_id;
  request_kind = rctx.request_kind;
  request_endpoint = x.endpoint;
  cost_nano_usd = nano rctx.cost;
  governance = record {
    client_id = rctx.client_id;
    virtual_key_id = rctx.virtual_key_id;
    budget_id = rctx.budget_ref;
  };
  outcome = record {
    result = classify x;
    http_status = rctx.response_status;
    upstream_http_status = x.upstream_status;
    error_code = map (λ e. e.code) x.error;
    error_category = map (λ e. e.category) x.error;
    error_message = elim x.error [ none ↦ "" | some e ↦ e.detail ];
  };
  timing = record {
    start = rctx.started_at;
    total_us = microseconds total;
    ttfb_us = microseconds x.ttfb;
    ttft_us = microseconds (first_token_mark x.marks);
    stages = stages x.marks total;
  };
  routing = elim rctx.selected_credential [
    | none ↦ none
    | some cred ↦ some (record {
      mode = map (λ vk. vk.mode) rctx.virtual_key_policy;
      credential_id = cred.id;
      credential_name = cred.name;
      attempt_count = x.upstream_attempts;
    })
  ];
  llm = record {
    requested_model = rctx.requested_model;
    provider = rctx.model_key.provider;
    model = rctx.model_key.model_name;
    upstream_model = rctx.upstream_model;
    stream =
        ltb_ℤ (pos 0) x.stream_chunks || x.stream_aborted || not (x.stream_finish_reason == "");
    finish_reason = x.stream_finish_reason;
    usage = rctx.usage;
  };
  payload_state = payload_none;
  payload = none;
}

-- The body, or its first `limit` bytes, and whether it was cut. A negative limit does not pass the check of
-- the configuration.
unfoldable pub clip : List ℕ → ℕ → Option (List ℕ) × Bool
clip [] limit = (none, false)
clip (b ∷ bs) limit =
    if ltb limit (length (b ∷ bs))
    then (some (take limit (b ∷ bs)), true)
    else (some (b ∷ bs), false)

pub record CaptureConfig : Type 0 where
  pub payload_mode : String
  pub payload_max_kb : ℕ

-- Whether the mode asks for the bodies of a request with this result.
unfoldable pub captures : String → EventResult → Bool
captures mode result =
    mode == "full"
    || mode == "errors_only" && elim result [ completed ↦ false | client_abort ↦ false | _ ↦ true ]

unfoldable pub capture_payload : {F : Type 0} → CaptureConfig → Exchange → Event F → Event F
unfolding captures clip
capture_payload cfg x e =
    let limit = cfg.payload_max_kb * 1_024 in
    let (req, req_cut) = clip x.body_bytes limit in
    let (res, res_cut) = clip x.response_body limit in
    if captures cfg.payload_mode e.outcome.result && (is_set req || is_set res)
    then record e {
      payload = some (record { client_request = req; client_response = res });
      payload_state = if req_cut || res_cut then payload_truncated else payload_ready;
    }
    else e
