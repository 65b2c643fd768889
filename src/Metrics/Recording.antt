-- ===== src/Metrics/Recording.antt =====
-- internal/metrics-engine/metrics-engine.go: `AddEvent`, from the context of a request to the buffer, with
-- internal/metrics-engine/hook.go, the hook that calls it.
use diffractllm.Base.{Option, some, none, Bool, false, String, ℤ, if◌then◌else◌}
use diffractllm.Core.Context.{Context}
use diffractllm.Core.Hooks.{Hook, HookEngine, new_hook_engine, add_post_call_hook}
use diffractllm.Core.Money.{FloatMoney}
use diffractllm.Governance.Admission.{ModelLookup}
use diffractllm.Governance.Billing.{Shared, added, register_hooks}
use diffractllm.Metrics.Engine.{MetricsEngine, add_event}
use diffractllm.Metrics.Events.{CaptureConfig, Event, Exchange, capture_payload, fill}

-- `started` is whether the start of the request is set. The second result is whether a flush is triggered.
unfoldable pub record_event :
    {F W : Type 0}
    → CaptureConfig
    → (F → ℤ)
    → Bool
    → Bool
    → String
    → ℤ
    → Context F W
    → Exchange
    → MetricsEngine (Event F)
    → MetricsEngine (Event F) × Bool
unfolding capture_payload fill add_event
record_event cfg nano workers started id total rctx x m =
    if started
    then add_event workers (capture_payload cfg x (fill nano id total rctx x)) m
    else (m, false)

-- What the hook needs beside the context: the settings of the engine, and the part of the request that the
-- context of the hooks leaves out.
pub record Metering (F W : Type 0) : Type 0 where
  pub config : CaptureConfig
  pub nano : F → ℤ
  pub workers : Bool
  pub started : Bool
  pub id : String
  pub total : ℤ
  pub exchange : Context F W → Exchange

module _ {F W : Type 0} where
  -- `EventHook`
  unfoldable pub event_hook : Metering F W → Hook (Shared F W)
  event_hook mt = record {
    name = "metrics_event";
    execute = λ s. (
      record s {
        metrics =
            (record_event mt.config mt.nano mt.workers mt.started mt.id mt.total s.rctx
              (mt.exchange s.rctx) s.metrics).0;
      },
      none,
    );
  }

  -- The hooks of the gateway: those of the governance, and that of the metrics where they are enabled.
  unfoldable pub gateway_hooks :
      FloatMoney F → Option ModelLookup → Option (Metering F W) → HookEngine (Shared F W)
  unfolding register_hooks event_hook
  gateway_hooks fm catalog none = register_hooks fm catalog new_hook_engine
  gateway_hooks fm catalog (some mt) =
      let he = register_hooks fm catalog new_hook_engine in
      added he (add_post_call_hook (event_hook mt) he)
