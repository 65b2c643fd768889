-- ===== src/Store/Secrets.antt =====
-- internal/dbstore/credentials.go: a credential that is stored comes back as it was, but for one field.
use text.Mathlib.Text.{◌==◌}
use text.Mathlib.TextEquality.{eq_iff}
use diffractllm.Base.{
  ap, ◌∙◌, Result-cases, ◌&&◌, subst, ◌≡◌, refl, sym, true, false, Bool-cases, Option-cases, inl,
  inr, String, Option, none, some, is_set, ok, >>=-eq-ok, fail_if-eq-ok, arith, not,
}
use diffractllm.Core.Credential.{
  no_azure_settings, is_missing, validate_aliases, empty_allowed_model, no_allowed_model,
  no_endpoint, not_supported, no_provider, AzureSettings, Credential, validate_credential,
  validate_settings, validate_azure, azure_settings_on,
}
use diffractllm.Core.Models.{is_known_provider}
use diffractllm.Core.VirtualKey.{has, is_nil}
use diffractllm.Store.Tables.{Cipher, Opens}
use diffractllm.Store.Credentials.{
  FillsDefaults, create_credential, StoreCredential, opt_key, deref, seal_secret, open_secret,
  seal_credential, open_credential, credential_to_core, apply_azure_settings, new_store_credential,
}

deref-opt_key : (k : String) → deref (opt_key k) ≡ k
unfolding deref opt_key
deref-opt_key k = elim (Bool-cases (k == "")) [
  | inl empty ↦ rw empty (sym ((eq_iff k "").0 empty))
  | inr text ↦ rw text refl
]

open_secret-seal_secret :
    (c : Cipher) (o s : Option String)
    → Opens c
    → seal_secret c o ≡ some s
    → open_secret c s ≡ some o
unfolding seal_secret open_secret
open_secret-seal_secret c none s opens h = ground (arith, h)
open_secret-seal_secret c (some plain) s opens h = elim (Option-cases (c.encrypt_key plain)) [
  | inl fails ↦ absurd (ground (arith, h, fails))
  | inr (sealed, made) ↦ ground (arith, h, made, opens plain sealed made)
]

open_credential-seal_credential :
    (c : Cipher) (row sealed : StoreCredential)
    → Opens c
    → seal_credential c row ≡ some sealed
    → open_credential c sealed ≡ some row
unfolding seal_credential open_credential
open_credential-seal_credential c row sealed opens h =
    elim (Option-cases (seal_secret c row.api_key)) [
      | inl fails ↦ absurd (ground (arith, h, fails))
      | inr (key, made) ↦ elim (Option-cases (seal_secret c row.azure_client_secret)) [
        | inl fails ↦ absurd (ground (arith, h, made, fails))
        | inr (secret, made') ↦ ground (
          arith,
          h,
          made,
          made',
          open_secret-seal_secret c row.api_key key opens made,
          open_secret-seal_secret c row.azure_client_secret secret opens made',
        )
      ]
    ]

mode_given :
    (azure : AzureSettings) (u : Unit {0})
    → validate_azure azure ≡ ok u
    → (azure.auth_mode == "") ≡ false
unfolding validate_azure
mode_given azure u valid = elim (Bool-cases (azure.auth_mode == "")) [
  | inl empty ↦
      let same : azure.auth_mode ≡ "" = (eq_iff azure.auth_mode "").0 empty in
      let refused : validate_azure (record azure { auth_mode = "" }) ≡ ok u =
        subst (λ m. validate_azure (record azure { auth_mode = m }) ≡ ok u) same valid in
      absurd (ground (arith, refused))
  | inr given ↦ given
]

-- Settings that pass the validation are those of azure, with a mode.
validate_settings-azure :
    (provider : String) (azure : AzureSettings) (u : Unit {0})
    → validate_settings provider (some azure) ≡ ok u
    → ((provider == "azure") ≡ true) × ((azure.auth_mode == "") ≡ false)
unfolding validate_settings
validate_settings-azure provider azure u h =
    let (named, valid) =
      fail_if-eq-ok (not (provider == "azure")) (azure_settings_on provider) _ h in
    (ground (arith, named), mode_given azure u valid)

validate_credential-settings :
    (cred : Credential) (u : Unit {0})
    → validate_credential cred ≡ ok u
    → (v : Unit {0}) × (validate_settings cred.provider cred.settings ≡ ok v)
unfolding validate_credential
validate_credential-settings cred u h =
    let (_, r1) = fail_if-eq-ok (cred.provider == "") no_provider _ h in
    let (_, r2) =
      fail_if-eq-ok (not (is_known_provider cred.provider)) (not_supported cred.provider) _ r1 in
    let (_, r3) = fail_if-eq-ok (cred.endpoint == "") no_endpoint _ r2 in
    let (_, r4) = fail_if-eq-ok (is_nil cred.allowed_models) no_allowed_model _ r3 in
    let (_, r5) = fail_if-eq-ok (has cred.allowed_models "") empty_allowed_model _ r4 in
    let (done, _, r6) = >>=-eq-ok (validate_aliases cred.aliases) _ r5 in
    let (_, r7) =
      fail_if-eq-ok (cred.provider == "azure" && is_missing cred.settings) no_azure_settings _ r6 in
    (u, r7)

-- A row without the settings of azure gives none back, and one with them gives them back.
settings_back :
    (id provider_id : String) (cred : Credential) (v : Unit {0})
    → validate_settings cred.provider cred.settings ≡ ok v
    → credential_to_core (new_store_credential id provider_id cred) ≡ record cred { id = id }
unfolding credential_to_core new_store_credential apply_azure_settings
settings_back id provider_id cred v h = elim (Option-cases cred.settings) [
  | inl without ↦ ground (arith, without, deref-opt_key cred.api_key)
  | inr (azure, held) ↦
      let (named, given) =
        validate_settings-azure cred.provider azure v
          (subst (λ o. validate_settings cred.provider o ≡ ok v) held h) in
      let set : is_set (opt_key azure.auth_mode) ≡ true = rw (opt_key, given) refl in
      ground (
        arith,
        held,
        named,
        set,
        deref-opt_key cred.api_key,
        deref-opt_key azure.auth_mode,
        deref-opt_key azure.tenant_id,
        deref-opt_key azure.client_id,
        deref-opt_key azure.client_secret,
      )
]

enabled_row :
    (id provider_id : String) (cred : Credential)
    → new_store_credential id provider_id (record cred { enabled = true })
      ≡ record (new_store_credential id provider_id cred) { enabled = true }
unfolding new_store_credential apply_azure_settings
enabled_row id provider_id cred = elim (Option-cases cred.settings) [
  | inl without ↦ ground (arith, without)
  | inr (azure, held) ↦ ground (arith, held)
]

seal_credential-enabled :
    (c : Cipher) (row sealed : StoreCredential)
    → seal_credential c row ≡ some sealed
    → seal_credential c (record row { enabled = true }) ≡ some (record sealed { enabled = true })
unfolding seal_credential
seal_credential-enabled c row sealed h = elim (Option-cases (seal_secret c row.api_key)) [
  | inl fails ↦ absurd (ground (arith, h, fails))
  | inr (key, made) ↦ elim (Option-cases (seal_secret c row.azure_client_secret)) [
    | inl fails ↦ absurd (ground (arith, h, made, fails))
    | inr (secret, made') ↦ ground (arith, h, made, made')
  ]
]

created :
    (create : StoreCredential → StoreCredential) (c : Cipher) (id provider_id : String)
    (cred : Credential) (stored : StoreCredential)
    → create_credential create c id provider_id cred ≡ some stored
    → (u : Unit {0}) × (sealed : StoreCredential) × (validate_credential cred ≡ ok u)
      × (seal_credential c (new_store_credential id provider_id cred) ≡ some sealed)
      × (stored ≡ create sealed)
unfolding create_credential
created create c id provider_id cred stored h = elim (Result-cases (validate_credential cred)) [
  | inl (e, bad) ↦ absurd (ground (arith, h, bad))
  | inr (u, good) ↦
      elim (Option-cases (seal_credential c (new_store_credential id provider_id cred))) [
        | inl fails ↦ absurd (ground (arith, h, good, fails))
        | inr (sealed, seals) ↦ (u, sealed, good, seals, ground (arith, h, good, seals))
      ]
]

-- A credential that is created is read back from its row as it was, under the identifier of the row, but for one
-- field: it is enabled, even where it was created as disabled. What the cipher seals can be opened again,
-- and gorm's `Create` stores the default of the tag in place of a zero.
pub credential_to_core-create_credential :
    (create : StoreCredential → StoreCredential) (c : Cipher) (id provider_id : String)
    (cred : Credential) (stored : StoreCredential)
    → Opens c
    → FillsDefaults create
    → create_credential create c id provider_id cred ≡ some stored
    → (opened : StoreCredential) × (open_credential c stored ≡ some opened)
      × (credential_to_core opened ≡ record cred { id = id; enabled = true })
credential_to_core-create_credential create c id provider_id cred stored opens fills h =
    let (u, sealed, valid, seals, stores) = created create c id provider_id cred stored h in
    let (v, settings) = validate_credential-settings cred u valid in
    let row = new_store_credential id provider_id (record cred { enabled = true }) in
    let seals' : seal_credential c row ≡ some stored =
      ap (seal_credential c) (enabled_row id provider_id cred)
      ∙ seal_credential-enabled c (new_store_credential id provider_id cred) sealed seals
      ∙ ap {B = Option StoreCredential} some (sym (stores ∙ fills sealed)) in
    (
      row,
      open_credential-seal_credential c row stored opens seals',
      settings_back id provider_id (record cred { enabled = true }) v settings,
    )
