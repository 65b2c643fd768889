-- ===== src/Server/Phases.antt =====
-- internal/gateway/gateway.go: the hooks that are registered, phase by phase, with and without metrics.
use diffractllm.Base.{ℕ, ◌≤◌, ◌≡◌, refl, Option, none, some, [], ◌∷◌, ℤ, length, arith}
use diffractllm.Core.Hooks.{
  HookEngine, HookLog, new_hook_engine, add_hook, add_pre_call_hook, add_post_provider_hook,
  add_post_call_hook, run_pre_call_hooks,
}
use diffractllm.Core.Money.{FloatMoney}
use diffractllm.Governance.Admission.{ModelLookup}
use diffractllm.Governance.Billing.{Shared, register_hooks, record_hook}
use diffractllm.Metrics.Recording.{Metering, event_hook, gateway_hooks}

module _ {F W : Type 0} (fm : FloatMoney F) (catalog : Option ModelLookup) where
  pub run_pre_call_hooks-gateway_hooks :
      (metering : Option (Metering F W)) (elapsed : ℕ → ℤ) (s : Shared F W) (log : HookLog)
      → run_pre_call_hooks elapsed (gateway_hooks fm catalog metering) s log
        ≡ run_pre_call_hooks elapsed (register_hooks fm catalog new_hook_engine) s log
  unfolding gateway_hooks add_post_call_hook add_hook register_hooks add_pre_call_hook
      add_post_provider_hook new_hook_engine run_pre_call_hooks
  run_pre_call_hooks-gateway_hooks none elapsed s log = refl
  run_pre_call_hooks-gateway_hooks (some mt) elapsed s log = refl

  module _ (he : HookEngine (Shared F W)) (metering : Option (Metering F W))
      (hooks : he ≡ gateway_hooks fm catalog metering) where
    gateway_phases :
        (metering : Option (Metering F W))
        → (length (gateway_hooks fm catalog metering).pre_call_hooks ≤ 5)
          × ((gateway_hooks fm catalog metering).pre_provider_hooks ≡ [])
          × ((gateway_hooks fm catalog metering).post_provider_hooks ≡ record_hook fm ∷ [])
          × ((gateway_hooks fm catalog metering).post_call_hooks
              ≡ elim metering [ none ↦ [] | some mt ↦ event_hook mt ∷ [] ])
    unfolding gateway_hooks add_post_call_hook add_hook register_hooks add_pre_call_hook
        add_post_provider_hook new_hook_engine
    gateway_phases none = (omega arith, refl, refl, refl)
    gateway_phases (some mt) = (omega arith, refl, refl, refl)

    pub few_pre_call : length he.pre_call_hooks ≤ 5
    few_pre_call = rw hooks (gateway_phases metering).0

    pub no_pre_provider : he.pre_provider_hooks ≡ []
    no_pre_provider = rw hooks (gateway_phases metering).1

    pub one_post_provider : he.post_provider_hooks ≡ record_hook fm ∷ []
    one_post_provider = rw hooks (gateway_phases metering).2

    pub post_call_events :
        he.post_call_hooks ≡ elim metering [ none ↦ [] | some mt ↦ event_hook mt ∷ [] ]
    post_call_events = rw hooks (gateway_phases metering).3
