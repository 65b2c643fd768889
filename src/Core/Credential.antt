-- ===== src/Core/Credential.antt =====
-- internal/core/credential.go and azure-credential.go: what a stored credential may serve.
use text.Mathlib.Text.{◌==◌}
use diffractllm.Base.{
  Bool, true, false, not, ◌&&◌, ◌||◌, String, Option, none, some, List, [], ◌∷◌, ℤ, Result, ok, err,
  ◌>>◌, fail_if, if◌then◌else◌, ltb_ℤ, Map, lookup, string_eq,
}
use diffractllm.Core.Models.{is_known_provider}
use diffractllm.Core.VirtualKey.{has, is_nil}

pub record AzureSettings : Type 0 where
  pub auth_mode : String
  pub tenant_id : String
  pub client_id : String
  pub client_secret : String
  pub scopes : List String

pub data CredentialError : Type 0 where
  key_mode_settings principal_settings secret_not_taken tenant_not_taken : CredentialError
  unknown_auth_mode azure_settings_on : String → CredentialError
  no_deployment protocol_route no_api_version : CredentialError
  unknown_protocol unknown_route : String → CredentialError
  no_provider no_endpoint no_allowed_model empty_allowed_model no_azure_settings : CredentialError
  not_supported : String → CredentialError
  bad_alias : String → CredentialError → CredentialError

unfoldable pub validate_azure : AzureSettings → Result CredentialError (Unit {0})
validate_azure azure =
    if azure.auth_mode == "azure_api_key"
    then fail_if
        (not (azure.tenant_id == "")
          || not (azure.client_id == "")
          || not (azure.client_secret == ""))
        key_mode_settings
    else if azure.auth_mode == "azure_service_principal"
    then fail_if (azure.tenant_id == "" || azure.client_id == "" || azure.client_secret == "")
        principal_settings
    else if azure.auth_mode == "azure_default_credential"
    then fail_if (not (azure.client_secret == "")) secret_not_taken
      >> fail_if (not (azure.tenant_id == "")) tenant_not_taken
    else err (unknown_auth_mode azure.auth_mode)

pub record Alias : Type 0 where
  pub model_id : String
  pub model_name : String
  pub endpoint_protocol : String
  pub route_style : String
  pub api_version : String

unfoldable pub validate_alias : Alias → Result CredentialError (Unit {0})
validate_alias a = do
  fail_if (a.model_id == "") no_deployment
  fail_if (not (has ("" ∷ "openai" ∷ "anthropic" ∷ []) a.endpoint_protocol))
      (unknown_protocol a.endpoint_protocol)
  fail_if (not (has ("" ∷ "v1" ∷ "deployment" ∷ []) a.route_style)) (unknown_route a.route_style)
  fail_if (a.route_style == "deployment" && a.endpoint_protocol == "anthropic") protocol_route
  fail_if (a.route_style == "deployment" && a.api_version == "") no_api_version

pub record Credential : Type 0 where
  pub id : String
  pub provider : String
  pub name : String
  pub api_key : String
  pub enabled : Bool
  pub expiry_at : Option ℤ
  pub allowed_models : List String
  pub blocked_models : List String
  pub endpoint : String
  pub aliases : Map String Alias
  -- the block `azure` of the settings
  pub settings : Option AzureSettings

-- The receivers of the next three are not nil: the callers range over stored credentials.
unfoldable pub check_model : Credential → String → Bool
unfolding has
check_model cred model =
    if model == ""
    then false
    else if has cred.blocked_models "*" || has cred.blocked_models model
    then false
    else has cred.allowed_models "*" || has cred.allowed_models model

unfoldable pub check_validity : ℤ → Credential → Bool
check_validity now cred =
    cred.enabled && elim cred.expiry_at [ none ↦ true | some expiry ↦ ltb_ℤ now expiry ]

unfoldable pub check_model_alias : Credential → String → Alias
unfolding lookup
check_model_alias cred model = elim (lookup model cred.aliases) [
  | some alias ↦ alias
  | none ↦ record {
    model_id = model;
    model_name = "";
    endpoint_protocol = "";
    route_style = "";
    api_version = "";
  }
]

-- The loop over the aliases, in the order of the list.
unfoldable pub validate_aliases : Map String Alias → Result CredentialError (Unit {0})
unfolding validate_alias
validate_aliases [] = ok tt
validate_aliases ((model, alias) ∷ aliases) =
    let rest = validate_aliases aliases in
    elim (validate_alias alias) [ ok done ↦ rest | err e ↦ err (bad_alias model e) ]

unfoldable pub validate_settings : String → Option AzureSettings → Result CredentialError (Unit {0})
unfolding validate_azure
validate_settings provider none = ok tt
validate_settings provider (some azure) =
    fail_if (not (provider == "azure")) (azure_settings_on provider) >> validate_azure azure

abbrev pub is_missing {ℓ} : {A : Type ℓ} → Option A → Bool
is_missing none = true
is_missing (some a) = false

unfoldable pub validate_credential : Credential → Result CredentialError (Unit {0})
unfolding validate_aliases validate_settings is_known_provider has
validate_credential cred = do
  fail_if (cred.provider == "") no_provider
  fail_if (not (is_known_provider cred.provider)) (not_supported cred.provider)
  fail_if (cred.endpoint == "") no_endpoint
  fail_if (is_nil cred.allowed_models) no_allowed_model
  fail_if (has cred.allowed_models "") empty_allowed_model
  validate_aliases cred.aliases
  fail_if (cred.provider == "azure" && is_missing cred.settings) no_azure_settings
  validate_settings cred.provider cred.settings
