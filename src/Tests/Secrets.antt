-- ===== src/Tests/Secrets.antt =====
-- A credential of azure that is stored, read back and updated.
use diffractllm.Base.{false, ◌≡◌, refl, sym, true, [], ◌∷◌, none, some}
use diffractllm.Core.Credential.{AzureSettings, Credential, validate_credential}
use diffractllm.Store.Tables.{Cipher, Opens}
use diffractllm.Store.Credentials.{
  StoreCredential, seal_credential, open_credential, credential_to_core, new_store_credential,
  UpdateCredentialRequest, apply_to, opt_key,
}
use diffractllm.Store.Credentials.{create_credential, apply_api_key, apply_settings}
use diffractllm.Store.Secrets.{credential_to_core-create_credential}

abbrev plain : Cipher
plain = record { encrypt_key = λ s. some s; decrypt_key = λ s. some s }

plain-Opens : Opens plain
plain-Opens text sealed h = sym h

abbrev principal : AzureSettings
principal = record {
  auth_mode = "azure_service_principal";
  tenant_id = "t1";
  client_id = "app";
  client_secret = "secret";
  scopes = [];
}

abbrev azure_credential : Credential
azure_credential = record {
  id = "c1";
  provider = "azure";
  name = "east";
  api_key = "";
  enabled = true;
  expiry_at = none;
  allowed_models = "gpt-4o" ∷ [];
  blocked_models = [];
  endpoint = "https://example.openai.azure.com";
  aliases = [];
  settings = some principal;
}

abbrev filled : StoreCredential → StoreCredential
filled row = record row { enabled = true }

-- The credential is created as disabled.
abbrev disabled : Credential
disabled = record azure_credential { enabled = false }

credential_to_core-create_credential_example :
    (opened : StoreCredential) × (open_credential plain
        (filled (new_store_credential "c2" "p1" disabled))
      ≡ some opened)
    × (credential_to_core opened ≡ record disabled { id = "c2"; enabled = true })
unfolding create_credential validate_credential seal_credential new_store_credential opt_key
credential_to_core-create_credential_example =
    credential_to_core-create_credential filled plain "c2" "p1" disabled
      (filled (new_store_credential "c2" "p1" disabled)) plain-Opens (λ row. refl) refl

abbrev shown_again : UpdateCredentialRequest
shown_again = record {
  name = some "west";
  api_key = some "*********";
  enabled = none;
  expiry_at = none;
  allowed_models = none;
  blocked_models = none;
  endpoint = none;
  aliases = none;
  settings = some (record principal { client_secret = "*********" });
}

kept_key : (apply_to shown_again azure_credential).api_key ≡ ""
unfolding apply_to apply_api_key
kept_key = refl

kept_secret : (apply_to shown_again azure_credential).settings ≡ some principal
unfolding apply_to apply_settings
kept_secret = refl
