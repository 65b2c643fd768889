-- ===== src/Governance/Billing.antt =====
-- internal/governance/hook_budget_usage_record.go and hooks.go: what is recorded of a request, and the
-- hooks of the package with the state that they share.
pub mod Laws
use Prim.Native.Char.{code}
use text.Mathlib.Text.{◌==◌}
use diffractllm.Base.{
  ℕ, Bool, true, false, not, ◌&&◌, ◌||◌, String, Option, none, some, List, [], ◌∷◌, ◌++◌, ℤ, ltb_ℤ,
  if◌then◌else◌, Result, ok, err, lookup, insert, string_eq,
}
use diffractllm.Base.{◌==◌ as nat_equal}
use diffractllm.Core.Errors.{
  DiffractError, new_auth_failed, new_missing_parameter, new_forbidden, new_invalid_parameter,
  new_invalid_budget, new_budget_exceeded,
}
use diffractllm.Core.Models.{CatalogKey, trim_space, parse_model_string, kind_model_type}
use diffractllm.Core.Capabilities.{unknown}
use diffractllm.Core.VirtualKey.{
  ProviderConfig, VirtualKey, provider_config, is_model_allowed, is_model_key_allowed,
}
use diffractllm.Core.KeyFormat.{bytes_of, validate_key_signature}
use diffractllm.Core.Context.{Context}
use diffractllm.Core.Hooks.{
  Hook, HookEngine, new_hook_engine, add_pre_call_hook, add_post_provider_hook,
}
use diffractllm.Core.Money.{FloatMoney, to_nano_usd}
use diffractllm.Governance.KeyCache.{VirtualKeyMap, lookup_vkey}
use diffractllm.Governance.Budget.{
  Budget, BudgetCache, lookup_budget, check_budget_usage, record_usage,
}
use diffractllm.Governance.Usage.{UsageRecord, UsageBuffer, append}
use diffractllm.Governance.Admission.{ModelLookup, execute_model_access, execute_budget}
use diffractllm.Metrics.Engine.{MetricsEngine}
use diffractllm.Metrics.Events.{Event}

-- `LookupBudget` and `RecordUsage` on the entry that it found.
unfoldable pub charge_budget : String → ℤ → BudgetCache → BudgetCache
unfolding lookup_budget insert
charge_budget budget_ref nano cache = elim (lookup_budget cache budget_ref) [
  | none ↦ cache
  | some budget ↦ insert budget_ref (record_usage nano budget) cache
]

module _ {F W : Type 0} where
  unfoldable pub execute_record :
      FloatMoney F → Context F W → BudgetCache × UsageBuffer → BudgetCache × UsageBuffer
  unfolding charge_budget
  execute_record fm rctx (cache, buffer) = elim rctx.usage [
    | none ↦ (cache, buffer)
    | some usage ↦
        let nano = to_nano_usd fm rctx.cost in
        (
          charge_budget rctx.budget_ref nano cache,
          append
              (record {
                client_id = rctx.client_id;
                budget_id = rctx.budget_ref;
                backend = rctx.model_key.provider;
                model_id = rctx.upstream_model;
                model_name = rctx.model_key.model_name;
                input_tokens = usage.input_tokens;
                output_tokens = usage.output_tokens;
                response_bytes = rctx.response_bytes;
                response_status = rctx.response_status;
                cost = nano;
                requested_at = rctx.started_at;
              })
              buffer,
        )
  ]

-- The errors of the three calls are dropped: a hook that does not fit is not there.
abbrev pub added {ℓ} : {A : Type ℓ} → A → Result DiffractError A → A
added he (ok he') = he'
added he (err e) = he

-- What the hooks of one request share: its context, the budgets, the buffer of usage records, and the metrics
-- engine with its events.
pub record Shared (F W : Type 0) : Type 0 where
  pub rctx : Context F W
  pub budgets : BudgetCache
  pub buffer : UsageBuffer
  pub metrics : MetricsEngine (Event F)

module _ {F W : Type 0} where
  unfoldable pub model_access_hook : Option ModelLookup → Hook (Shared F W)
  model_access_hook catalog = record {
    name = "model-access";
    execute = λ s. elim (execute_model_access catalog s.rctx) [
      | err e ↦ (s, some e)
      | ok rctx' ↦ (record s { rctx = rctx' }, none)
    ];
  }

  unfoldable pub budget_hook : Hook (Shared F W)
  budget_hook = record { name = "budget"; execute = λ s. (s, execute_budget s.budgets s.rctx) }

  unfoldable pub record_hook : FloatMoney F → Hook (Shared F W)
  record_hook fm = record {
    name = "record_usage";
    execute = λ s.
        let (budgets', buffer') = execute_record fm s.rctx (s.budgets, s.buffer) in
        (record s { budgets = budgets'; buffer = buffer' }, none);
  }

  unfoldable pub register_hooks :
      FloatMoney F → Option ModelLookup → HookEngine (Shared F W) → HookEngine (Shared F W)
  register_hooks fm catalog he0 =
      let he1 = added he0 (add_pre_call_hook (model_access_hook catalog) he0) in
      let he2 = added he1 (add_pre_call_hook budget_hook he1) in
      added he2 (add_post_provider_hook (record_hook fm) he2)
