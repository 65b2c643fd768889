-- ===== src/Governance/Admission.antt =====
-- internal/governance/governance_authentication.go, hook_model_access_auth.go and hook_budget_auth.go:
-- what a request passes before a provider sees it. A function that answers an error has changed nothing.
pub mod Laws
use Prim.Native.Char.{code}
use text.Mathlib.Text.{◌==◌}
use diffractllm.Base.{
  ℕ, Bool, true, false, not, ◌&&◌, ◌||◌, String, Option, none, some, List, [], ◌∷◌, ◌++◌, ℤ, ltb_ℤ,
  if◌then◌else◌, Result, ok, err, lookup, insert, string_eq,
}
use diffractllm.Base.{◌==◌ as nat_equal}
use diffractllm.Core.Errors.{
  DiffractError, new_auth_failed, new_missing_parameter, new_forbidden, new_invalid_parameter,
  new_invalid_budget, new_budget_exceeded,
}
use diffractllm.Core.Models.{CatalogKey, trim_space, parse_model_string, kind_model_type}
use diffractllm.Core.Capabilities.{unknown}
use diffractllm.Core.VirtualKey.{
  ProviderConfig, VirtualKey, provider_config, is_model_allowed, is_model_key_allowed,
}
use diffractllm.Core.KeyFormat.{bytes_of, validate_key_signature}
use diffractllm.Core.Context.{Context}
use diffractllm.Core.Hooks.{
  Hook, HookEngine, new_hook_engine, add_pre_call_hook, add_post_provider_hook,
}
use diffractllm.Core.Money.{FloatMoney, to_nano_usd}
use diffractllm.Governance.KeyCache.{VirtualKeyMap, lookup_vkey}
use diffractllm.Governance.Budget.{
  Budget, BudgetCache, lookup_budget, check_budget_usage, record_usage,
}
use diffractllm.Governance.Usage.{UsageRecord, UsageBuffer, append}

-- `strings.CutPrefix`
unfoldable pub cut_prefix : String → String → Option String
cut_prefix s String.[] = some s
cut_prefix String.[] (String.◌∷◌ d p) = none
cut_prefix (String.◌∷◌ c s) (String.◌∷◌ d p) =
    let rest = cut_prefix s p in if nat_equal (code c) (code d) then rest else none

unfoldable pub extract_key : (String → String) → String
unfolding cut_prefix
extract_key header =
    if not (trim_space (header "x-diffract-key") == "")
    then trim_space (header "x-diffract-key")
    else elim (cut_prefix (header "Authorization") "Bearer ") [
      | some after ↦ trim_space after
      | none ↦
          if not (trim_space (header "x-api-key") == "")
          then trim_space (header "x-api-key")
          else if not (trim_space (header "x-goog-api-key") == "")
          then trim_space (header "x-goog-api-key")
          else ""
    ]

-- `ExpiresAt != nil && time.Now().After(*ExpiresAt)`
unfoldable pub is_expired : ℤ → Option ℤ → Bool
is_expired now none = false
is_expired now (some expires_at) = ltb_ℤ expires_at now

module _ {F W : Type 0} where
  unfoldable pub validate_vkey_auth :
      ℤ → Option (VirtualKeyMap W) → Context F W → Result DiffractError (Context F W)
  validate_vkey_auth now virtual rctx =
      let key = extract_key rctx.header in
      if key == ""
      then err (new_auth_failed "missing api key")
      else if not (validate_key_signature (bytes_of key))
      then err (new_auth_failed "Invalid DiffractLLM API key format")
      else elim (lookup_vkey virtual key) [
        | none ↦ err (new_auth_failed "DiffractLLM API key not recognised")
        | some vk ↦
            if not vk.is_active || is_expired now vk.expires_at
            then err (new_auth_failed "Invalid DiffractLLM API key")
            else ok (record rctx {
              client_id = vk.client_id;
              virtual_key_id = vk.id;
              virtual_key_policy = some vk;
              budget_ref = vk.budget_id;
              auth_frozen = true;
            })
      ]

-- The interface that the model catalog fills.
pub record ModelLookup : Type 0 where
  pub ready : Bool
  pub has_model : String → String → Bool

unfoldable pub catalog_ready : Option ModelLookup → Bool
catalog_ready none = false
catalog_ready (some catalog) = catalog.ready

-- Only asked where the catalog is ready, so not nil.
unfoldable pub in_catalog : Option ModelLookup → String → String → Bool
in_catalog none provider model = false
in_catalog (some catalog) provider model = catalog.has_model provider model

unfoldable pub model_in_catalog :
    {W : Type 0} → Option ModelLookup → List (ProviderConfig W) → String → Bool
unfolding in_catalog
model_in_catalog catalog [] model_name = false
model_in_catalog catalog (config ∷ configs) model_name =
    is_model_allowed config
        (record { provider = config.provider; model_name = model_name; model_type = unknown })
      && in_catalog catalog config.provider model_name
    || model_in_catalog catalog configs model_name

module _ {F W : Type 0} where
  -- The request names its provider.
  unfoldable pub access_explicit :
      Option ModelLookup
      → VirtualKey W
      → String
      → String
      → Context F W
      → Result DiffractError (Context F W)
  access_explicit catalog vk provider_name model_name rctx =
      elim (provider_config vk.provider_configs provider_name) [
        | none ↦ err (new_forbidden "provider is not permitted for this key")
        | some config ↦
            let requested_key : CatalogKey = record {
              provider = config.provider;
              model_name = model_name;
              model_type = kind_model_type rctx.request_kind;
            } in
            if not (is_model_allowed config requested_key)
            then err (new_forbidden "requested provider/model is not permitted")
            else if catalog_ready catalog && not (in_catalog catalog config.provider model_name)
            then err (new_invalid_parameter "model")
            else ok (record rctx { model_key = requested_key })
      ]

  -- It does not.
  unfoldable pub access_any :
      Option ModelLookup → VirtualKey W → String → Context F W → Result DiffractError (Context F W)
  access_any catalog vk requested rctx =
      let requested_key : CatalogKey = record {
        provider = "";
        model_name = requested;
        model_type = kind_model_type rctx.request_kind;
      } in
      if is_model_key_allowed vk.provider_configs requested_key
      then if catalog_ready catalog && not (model_in_catalog catalog vk.provider_configs requested)
        then err (new_invalid_parameter "model")
        else ok (record rctx { model_key = requested_key })
      else err (new_forbidden "requested model is not permitted")

  unfoldable pub execute_model_access :
      Option ModelLookup → Context F W → Result DiffractError (Context F W)
  execute_model_access catalog rctx = elim rctx.virtual_key_policy [
    | none ↦ err (new_auth_failed "virtual key policy is missing")
    | some vk ↦
        let requested = trim_space rctx.requested_model in
        let (provider_name, model_name) = parse_model_string requested in
        if requested == ""
        then err (new_missing_parameter "model")
        else if not (provider_name == "")
        then access_explicit catalog vk provider_name model_name rctx
        else access_any catalog vk requested rctx
  ]

  unfoldable pub execute_budget : BudgetCache → Context F W → Option DiffractError
  unfolding lookup_budget
  execute_budget cache rctx =
      if rctx.budget_ref == ""
      then some (new_invalid_budget "budget reference not set on virtual key")
      else elim (lookup_budget cache rctx.budget_ref) [
        | none ↦ some (new_invalid_budget rctx.budget_ref)
        | some budget ↦
            if not (check_budget_usage budget)
            then some (new_budget_exceeded "Budget exceeded for the DiffractLLM API key used")
            else none
      ]
