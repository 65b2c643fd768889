-- ===== src/Tests/Requests.antt =====
-- internal/governance and internal/core/hooks.go at one concrete request.
use diffractllm.Metrics.Engine.{new_metrics_engine}
use diffractllm.Governance.Billing.{model_access_hook, budget_hook}
use diffractllm.Governance.Admission.{
  is_expired, execute_model_access, access_explicit, catalog_ready, in_catalog, execute_budget,
}
use diffractllm.Governance.KeyCache.{lookup_vkey}
use diffractllm.Base.{add64}
use diffractllm.Core.VirtualKey.{provider_config, is_model_allowed}
use diffractllm.Core.Hooks.{add_post_provider_hook, add_pre_call_hook}
use diffractllm.Core.Models.{parse_model_string, kind_model_type}
use diffractllm.Core.KeyFormat.{
  validate_key_signature, bytes_of, all_base62, base62_encode, checksum_ieee,
}
use diffractllm.Base.{
  ◌↔◌, ℕ, ◌*◌, ◌≡◌, refl, [], ◌∷◌, String, some, none, Option, true, false, pos, ℤ, if◌then◌else◌,
  ◌==◌, leb, max_int64, arith, ok, string_eq,
}
use text.Mathlib.Text.{◌==◌ as same_text}
use diffractllm.Core.Capabilities.{chat}
use diffractllm.Core.Models.{trim_space, chat_request}
use diffractllm.Core.Context.{Context}
use diffractllm.Core.Errors.{new_forbidden}
use diffractllm.Core.Hooks.{
  hook_ok, Hook, HookEngine, HookLog, empty_phase, new_hook_engine, run_pre_call_hooks, reset,
}
use diffractllm.Core.Money.{FloatMoney, MoneyLaws}
use diffractllm.Governance.Budget.{Budget, check_budget_usage}
use diffractllm.Governance.Admission.{extract_key, validate_vkey_auth, ModelLookup}
use diffractllm.Governance.Admission.Laws.{Authenticated, validate_vkey_auth-Authenticated}
use diffractllm.Governance.Billing.{Shared, register_hooks}
use diffractllm.Governance.Billing.Laws.{Admitted, run_pre_call_hooks-Admitted}
use diffractllm.Tests.Samples.{virtual_key, key_text, config, request}

-- Whole dollars.
abbrev pub dollars : FloatMoney ℕ
dollars = record {
  is_nan = λ v. false;
  not_positive = λ v. v == 0;
  times_nano = λ v. v * 1_000_000_000;
  round = λ v. v;
  is_inf = λ v. false;
  at_max = λ v. leb max_int64 v;
  truncate = λ v. pos v;
}

dollars_laws : MoneyLaws dollars
dollars_laws = record {
  truncate-scaled = λ v nan positive fits. (v * 1_000_000_000, ground arith, refl);
}

abbrev headers : String → String
headers name = if same_text name "Authorization" then "Bearer dk-6unQzRgcCeMrLX9IxK4H6e" else ""

abbrev pub arrived : Context ℕ ℕ
arrived = record {
  header = headers;
  request_kind = chat_request;
  model_key = record { provider = ""; model_name = ""; model_type = chat };
  client_id = "";
  budget_ref = "";
  virtual_key_id = "";
  virtual_key_policy = none;
  auth_frozen = false;
  requested_model = "openai/gpt-4o";
  selected_credential = none;
  upstream_model = "";
  response_status = pos 0;
  response_bytes = pos 0;
  usage = some request;
  cost = 7;
  started_at = pos 1;
}

abbrev bound : Context ℕ ℕ
bound = record arrived {
  client_id = "c1";
  virtual_key_id = "vk1";
  virtual_key_policy = some virtual_key;
  budget_ref = "b1";
  auth_frozen = true;
}

authenticates : validate_vkey_auth (pos 10) (some ((key_text, virtual_key) ∷ [])) arrived ≡ ok bound
unfolding validate_vkey_auth extract_key trim_space validate_key_signature bytes_of all_base62
    base62_encode checksum_ieee lookup_vkey is_expired
authenticates = refl

validate_vkey_auth-Authenticated_example :
    (validate_vkey_auth (pos 10) (some ((key_text, virtual_key) ∷ [])) arrived ≡ ok bound)
    ↔ Authenticated (pos 10) (some ((key_text, virtual_key) ∷ [])) arrived bound
validate_vkey_auth-Authenticated_example =
    validate_vkey_auth-Authenticated (pos 10) (some ((key_text, virtual_key) ∷ [])) arrived bound

-- A budget that is not exhausted.
abbrev budget : Budget
budget = record {
  config = some config;
  window_cost = pos 20;
  window_reqs = pos 3;
  last_flushed = pos 7;
  last_reqs = pos 1;
}

abbrev pub shared : Shared ℕ ℕ
shared = record {
  rctx = bound;
  budgets = ("b1", budget) ∷ [];
  buffer = record { records = []; max_capacity = 2; dropped = pos 0 };
  metrics = new_metrics_engine (pos 4);
}

abbrev pub catalog : Option ModelLookup
catalog = some (record { ready = true; has_model = λ provider model. same_text model "gpt-4o" })

abbrev admitted : Shared ℕ ℕ
admitted = record shared {
  rctx = record bound {
    model_key = record { provider = "openai"; model_name = "gpt-4o"; model_type = chat };
  };
}

abbrev pub old_log : HookLog
old_log = record {
  pre_call = empty_phase;
  pre_provider = empty_phase;
  post_provider = empty_phase;
  post_call = empty_phase;
}

abbrev pub elapsed : ℕ → ℤ
elapsed i = pos 5

abbrev gate : Hook (Shared ℕ ℕ)
gate = record { name = "gate"; execute = λ s. (s, some (new_forbidden "closed")) }

abbrev watch : Hook (Shared ℕ ℕ)
watch = record { name = "watch"; execute = λ s. (record s { budgets = [] }, none) }

abbrev engine : HookEngine (Shared ℕ ℕ)
engine = record {
  pre_call_hooks = watch ∷ gate ∷ watch ∷ [];
  pre_provider_hooks = [];
  post_provider_hooks = gate ∷ watch ∷ [];
  post_call_hooks = [];
}

abbrev final_log : HookLog
final_log = record old_log {
  pre_call = record {
    results =
        (record { name = "model-access"; status = hook_ok; duration = pos 5; error = "" })
        ∷ (record { name = "budget"; status = hook_ok; duration = pos 5; error = "" })
        ∷ [];
    total = pos 10;
  };
}

lets_through :
    run_pre_call_hooks elapsed
      (register_hooks dollars catalog new_hook_engine)
      shared
      (reset old_log)
    ≡ some (admitted, final_log, none)
unfolding run_pre_call_hooks register_hooks add_post_provider_hook add_pre_call_hook new_hook_engine
    reset model_access_hook execute_model_access trim_space parse_model_string access_explicit
    provider_config is_model_allowed catalog_ready in_catalog budget_hook execute_budget
    check_budget_usage kind_model_type add64
lets_through = refl

run_pre_call_hooks-Admitted_example : Admitted shared admitted
run_pre_call_hooks-Admitted_example =
    run_pre_call_hooks-Admitted elapsed dollars catalog shared admitted old_log final_log
      lets_through
