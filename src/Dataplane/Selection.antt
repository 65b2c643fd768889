-- ===== src/Dataplane/Selection.antt =====
-- internal/dataplane/dataplane.go: the credential that serves a request. The state of the engine is the
-- cursors of its round robin. `source` is the interface `CredentialSource`, which the provider plane
-- fills; `random` is what `rand.Float64()` gave.
pub mod RoundRobin
pub mod Viable
pub mod Routing
pub mod Blocked
use text.Mathlib.Text.{◌==◌}
use text.Mathlib.TextEquality.{eq_iff}
use diffractllm.Base.{
  ℕ, ◌+◌, ◌%◌, ◌^◌, ◌≡◌, ◌↔◌, ap, sym, ◌∙◌, Bool, true, false, not, ◌&&◌, ◌||◌, String, Option,
  none, some, List, [], ◌∷◌, get_elem?, length, or_default, if◌then◌else◌, Result, ok, err, Map,
  lookup, insert, Eq, ◌==?◌, string_eq, is_set, arith,
}
use diffractllm.Core.Errors.{
  DiffractError, new_auth_failed, new_missing_parameter, new_forbidden, new_no_healthy_backends,
}
use diffractllm.Core.Capabilities.{
  ModelType, model_type_string, parse_model_type, parse_model_type-model_type_string,
}
use diffractllm.Core.Models.{CatalogKey}
use diffractllm.Core.VirtualKey.{ProviderConfig, VirtualKey, LbKind, provider_config, is_nil}
use diffractllm.Core.Credential.{Credential}
use diffractllm.Core.Context.{Context}

-- Go's `==` on keys compares the three fields.
abbrev pub same_key : CatalogKey → CatalogKey → Bool
same_key a b =
    a.provider == b.provider
    && a.model_name == b.model_name
    && model_type_string a.model_type == model_type_string b.model_type

model_type_string-injective : (s t : ModelType) → model_type_string s ≡ model_type_string t → s ≡ t
model_type_string-injective s t h =
    sym (parse_model_type-model_type_string s)
    ∙ ap parse_model_type h
    ∙ parse_model_type-model_type_string t

pub same_key_iff : (a b : CatalogKey) → (same_key a b ≡ true) ↔ (a ≡ b)
same_key_iff a b = ground (
  arith,
  eq_iff a.provider b.provider,
  eq_iff a.model_name b.model_name,
  eq_iff (model_type_string a.model_type) (model_type_string b.model_type),
  model_type_string-injective a.model_type b.model_type,
)

instance abbrev pub catalog_key_eq : Eq CatalogKey
catalog_key_eq = record { beq = same_key; beq_iff = same_key_iff }

abbrev pub Cursors : Type 0
Cursors = Map CatalogKey ℕ

-- `roundRobin.Pick`. A cursor is a `uint64`.
unfoldable pub pick : CatalogKey → List Credential → Cursors → Option Credential × Cursors
unfolding lookup insert
pick key [] cursors = (none, cursors)
pick key (cred ∷ []) cursors = (some cred, cursors)
pick key (cred ∷ other ∷ creds) cursors =
    let all = cred ∷ other ∷ creds in
    let temp = (or_default (lookup key cursors) 0 + 1) % 2 ^ 64 in
    (get_elem? all (temp % length all), insert key temp cursors)

-- The `float64` arithmetic of `pickProvider`.
pub record Wheel (W T : Type 0) : Type 0 where
  pub zero : T
  -- float64(weight)
  pub of_weight : W → T
  pub add : T → T → T
  pub sub : T → T → T
  pub mul : T → T → T
  -- v < 0
  pub is_negative : T → Bool

abbrev pub Viable : Type 0
Viable = Map String (List Credential)

module _ {W T : Type 0} (wheel : Wheel W T) where
  unfoldable pub total_viable : Viable → T → List (ProviderConfig W) → T
  unfolding lookup
  total_viable viable total [] = total
  total_viable viable total (cfg ∷ cfgs) =
      total_viable viable
        (if is_set (lookup cfg.provider viable)
          then wheel.add total (wheel.of_weight cfg.weight)
          else total)
        cfgs

  -- The second loop; an empty name is no provider.
  unfoldable pub spin : Viable → T → String → List (ProviderConfig W) → String
  unfolding lookup
  spin viable target last [] = last
  spin viable target last (cfg ∷ cfgs) =
      let target' = wheel.sub target (wheel.of_weight cfg.weight) in
      let later = spin viable target' cfg.provider cfgs in
      let skipped = spin viable target last cfgs in
      if not (is_set (lookup cfg.provider viable))
      then skipped
      else if wheel.is_negative target'
      then cfg.provider
      else later

  unfoldable pub pick_provider : T → Viable → List (ProviderConfig W) → String
  unfolding total_viable spin
  pick_provider random viable cfgs =
      spin viable (wheel.mul random (total_viable viable wheel.zero cfgs)) "" cfgs

unfoldable pub viable_providers :
    {W : Type 0}
    → (CatalogKey → List Credential)
    → CatalogKey
    → List (ProviderConfig W)
    → Viable
    → Viable
unfolding insert
viable_providers source key [] viable = viable
viable_providers source key (cfg ∷ cfgs) viable =
    let creds = source (record key { provider = cfg.provider }) in
    viable_providers source key cfgs
      (if is_nil creds then viable else insert cfg.provider creds viable)

-- Every kind of load balancer falls back to the round robin, the only selector there is.
module _ {F W : Type 0} where
  unfoldable pub commit : CatalogKey → Credential → Context F W → Context F W
  commit key cred rctx = record rctx { model_key = key; selected_credential = some cred }

  unfoldable pub pick_and_commit :
      CatalogKey
      → List Credential
      → Cursors
      → Context F W
      → Cursors × Result DiffractError (Credential × Context F W)
  unfolding commit
  pick_and_commit key creds cursors rctx =
      let (chosen, cursors') = pick key creds cursors in
      elim chosen [
        | none ↦ (cursors', err (new_no_healthy_backends key.model_name))
        | some cred ↦ (cursors', ok (cred, commit key cred rctx))
      ]

  unfoldable pub resolve_explicit :
      (CatalogKey → List Credential)
      → Cursors
      → Context F W
      → CatalogKey
      → VirtualKey W
      → Cursors × Result DiffractError (Credential × Context F W)
  unfolding pick_and_commit
  resolve_explicit source cursors rctx key vk =
      let creds = source key in
      if not (is_set (provider_config vk.provider_configs key.provider))
      then (cursors, err (new_forbidden "provider is not permitted for this key"))
      else if is_nil creds
      then (cursors, err (new_no_healthy_backends key.model_name))
      else pick_and_commit key creds cursors rctx

  unfoldable pub resolve_weighted :
      {T : Type 0}
      → Wheel W T
      → T
      → (CatalogKey → List Credential)
      → Cursors
      → Context F W
      → CatalogKey
      → VirtualKey W
      → Cursors × Result DiffractError (Credential × Context F W)
  unfolding pick_and_commit
  resolve_weighted wheel random source cursors rctx key vk =
      let viable = viable_providers source key vk.provider_configs [] in
      let provider = pick_provider wheel random viable vk.provider_configs in
      if is_nil viable
      then (cursors, err (new_no_healthy_backends key.model_name))
      else if provider == ""
      then (cursors, err (new_no_healthy_backends key.model_name))
      else pick_and_commit (record key { provider = provider })
          (or_default (lookup provider viable) []) cursors rctx

  -- The context is not nil here.
  unfoldable pub resolve :
      {T : Type 0}
      → Wheel W T
      → T
      → (CatalogKey → List Credential)
      → Cursors
      → Context F W
      → Cursors × Result DiffractError (Credential × Context F W)
  resolve wheel random source cursors rctx =
      let missing = new_auth_failed "virtual key policy missing" in
      if rctx.virtual_key_id == "" then (cursors, err missing) else elim rctx.virtual_key_policy [
        | none ↦ (cursors, err missing)
        | some vk ↦
            if is_nil vk.provider_configs
            then (cursors, err (new_auth_failed "virtual key policy provider configs are missing"))
            else if rctx.model_key.model_name == ""
            then (cursors, err (new_missing_parameter "model"))
            else if not (rctx.model_key.provider == "")
            then resolve_explicit source cursors rctx rctx.model_key vk
            else resolve_weighted wheel random source cursors rctx rctx.model_key vk
      ]
