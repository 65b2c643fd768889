-- ===== src/Store/Credentials.antt =====
-- internal/dbstore/credentials.go and utils.go: the rows of credentials, sealed and opened, and their update.
use text.Mathlib.Text.{◌==◌}
use diffractllm.Base.{
  ◌≡◌, true, ok, err, Bool, ◌&&◌, ◌||◌, String, Option, none, some, is_set, or_default, List, [], ℤ,
  Map, string_eq, if◌then◌else◌,
}
use diffractllm.Core.Credential.{validate_credential, Alias, AzureSettings, Credential}
use diffractllm.Store.Tables.{Cipher}

-- The row, with the name of its provider.
pub record StoreCredential : Type 0 where
  pub id : String
  pub provider_id : String
  pub provider_name : String
  pub name : String
  pub api_key : Option String
  pub enabled : Bool
  pub expiry_at : Option ℤ
  pub allowed_models : List String
  pub blocked_models : List String
  pub endpoint : String
  pub aliases : Map String Alias
  pub azure_auth_mode : Option String
  pub azure_tenant_id : Option String
  pub azure_client_id : Option String
  pub azure_client_secret : Option String
  pub azure_scopes : List String

unfoldable pub opt_key : String → Option String
opt_key k = if k == "" then none else some k

unfoldable pub deref : Option String → String
deref none = ""
deref (some s) = s

unfoldable pub seal_secret : Cipher → Option String → Option (Option String)
seal_secret c none = some none
seal_secret c (some plain) = elim (c.encrypt_key plain) [
  | none ↦ none
  | some sealed ↦ some (some sealed)
]

unfoldable pub open_secret : Cipher → Option String → Option (Option String)
open_secret c none = some none
open_secret c (some sealed) = elim (c.decrypt_key sealed) [
  | none ↦ none
  | some plain ↦ some (some plain)
]

-- `BeforeSave`
unfoldable pub seal_credential : Cipher → StoreCredential → Option StoreCredential
unfolding seal_secret
seal_credential c row = elim (seal_secret c row.api_key) [
  | none ↦ none
  | some api_key ↦ elim (seal_secret c row.azure_client_secret) [
    | none ↦ none
    | some secret ↦ some (record row { api_key = api_key; azure_client_secret = secret })
  ]
]

-- `AfterFind`, without the mask.
unfoldable pub open_credential : Cipher → StoreCredential → Option StoreCredential
unfolding open_secret
open_credential c row = elim (open_secret c row.api_key) [
  | none ↦ none
  | some api_key ↦ elim (open_secret c row.azure_client_secret) [
    | none ↦ none
    | some secret ↦ some (record row { api_key = api_key; azure_client_secret = secret })
  ]
]

abbrev pub secret_mask : String
secret_mask = "*********"

abbrev pub masked : Option String → Option String
masked none = none
masked (some s) = some secret_mask

-- `AfterFind`, with the mask.
unfoldable pub mask_credential : StoreCredential → StoreCredential
mask_credential row = record row {
  api_key = masked row.api_key;
  azure_client_secret = masked row.azure_client_secret;
}

unfoldable pub credential_to_core : StoreCredential → Credential
unfolding deref
credential_to_core row = record {
  id = row.id;
  provider = row.provider_name;
  name = row.name;
  api_key = deref row.api_key;
  enabled = row.enabled;
  expiry_at = row.expiry_at;
  allowed_models = row.allowed_models;
  blocked_models = row.blocked_models;
  endpoint = row.endpoint;
  aliases = row.aliases;
  settings =
      if row.provider_name == "azure" && is_set row.azure_auth_mode
      then some (record {
        auth_mode = deref row.azure_auth_mode;
        tenant_id = deref row.azure_tenant_id;
        client_id = deref row.azure_client_id;
        client_secret = deref row.azure_client_secret;
        scopes = row.azure_scopes;
      })
      else none;
}

unfoldable pub apply_azure_settings : Credential → StoreCredential → StoreCredential
unfolding opt_key
apply_azure_settings cred row = elim cred.settings [
  | none ↦ row
  | some azure ↦ record row {
    azure_auth_mode = opt_key azure.auth_mode;
    azure_tenant_id = opt_key azure.tenant_id;
    azure_client_id = opt_key azure.client_id;
    azure_client_secret = opt_key azure.client_secret;
    azure_scopes = azure.scopes;
  }
]

-- The identifier is generated, and the provider's row has the provider's name.
unfoldable pub new_store_credential : String → String → Credential → StoreCredential
unfolding apply_azure_settings opt_key
new_store_credential id provider_id cred = apply_azure_settings cred (record {
  id = id;
  provider_id = provider_id;
  provider_name = cred.provider;
  name = cred.name;
  api_key = opt_key cred.api_key;
  enabled = cred.enabled;
  expiry_at = cred.expiry_at;
  allowed_models = cred.allowed_models;
  blocked_models = cred.blocked_models;
  endpoint = cred.endpoint;
  aliases = cred.aliases;
  azure_auth_mode = none;
  azure_tenant_id = none;
  azure_client_id = none;
  azure_client_secret = none;
  azure_scopes = [];
})

-- What gorm's `Create` stores of a row: a field of value zero whose tag names a default, as `enabled` does, is
-- stored with the default.
abbrev pub FillsDefaults : (StoreCredential → StoreCredential) → Type 0
FillsDefaults create = (row : StoreCredential) → create row ≡ record row { enabled = true }

-- `CreateCredential`, up to the row that is stored: `create` is gorm's `Create`.
unfoldable pub create_credential :
    (StoreCredential → StoreCredential)
    → Cipher
    → String
    → String
    → Credential
    → Option StoreCredential
unfolding new_store_credential seal_credential
create_credential create c id provider_id cred = elim (validate_credential cred) [
  | err e ↦ none
  | ok u ↦ elim (seal_credential c (new_store_credential id provider_id cred)) [
    | none ↦ none
    | some sealed ↦ some (create sealed)
  ]
]

pub record UpdateCredentialRequest : Type 0 where
  pub name : Option String
  pub api_key : Option String
  pub enabled : Option Bool
  pub expiry_at : Option ℤ
  pub allowed_models : Option (List String)
  pub blocked_models : Option (List String)
  pub endpoint : Option String
  pub aliases : Option (Map String Alias)
  pub settings : Option AzureSettings

-- A secret that is empty or the mask is not taken.
abbrev pub is_hidden : String → Bool
is_hidden s = s == "" || s == secret_mask

unfoldable pub apply_api_key : Option String → String → String
apply_api_key none old = old
apply_api_key (some key) old = if is_hidden key then old else key

unfoldable pub apply_settings : Option AzureSettings → Option AzureSettings → Option AzureSettings
apply_settings none old = old
apply_settings (some azure) none = some azure
apply_settings (some azure) (some old) = some (
    if is_hidden azure.client_secret
    then record azure { client_secret = old.client_secret }
    else azure)

unfoldable pub apply_to : UpdateCredentialRequest → Credential → Credential
unfolding apply_api_key apply_settings
apply_to r cred = record cred {
  name = or_default r.name cred.name;
  enabled = or_default r.enabled cred.enabled;
  expiry_at = elim r.expiry_at [ none ↦ cred.expiry_at | some t ↦ some t ];
  allowed_models = or_default r.allowed_models cred.allowed_models;
  blocked_models = or_default r.blocked_models cred.blocked_models;
  endpoint = or_default r.endpoint cred.endpoint;
  aliases = or_default r.aliases cred.aliases;
  api_key = apply_api_key r.api_key cred.api_key;
  settings = apply_settings r.settings cred.settings;
}
