-- ===== src/Governance/Admission/Laws.antt =====
-- internal/governance: what is known of a request that was let through.
use text.Mathlib.Text.{◌==◌}
use text.Mathlib.TextEquality.{eq_iff}
use diffractllm.Base.{
  ◌↔◌, subst, refl, none, ◌≤ℤ◌, lookup, string_eq, Option-cases, ◌≡◌, ap, ◌∙◌, true, false, String,
  Option, some, List, [], ◌∷◌, ℤ, ok, arith, Bool-cases, inl, inr,
}
use diffractllm.Core.Models.{CatalogKey, trim_space, parse_model_string, kind_model_type}
use diffractllm.Core.VirtualKey.{
  ProviderConfig, VirtualKey, provider_config, is_model_allowed, is_model_key_allowed,
}
use diffractllm.Core.KeyFormat.{bytes_of, validate_key_signature}
use diffractllm.Core.Context.{Context}
use diffractllm.Governance.KeyCache.{VirtualKeyMap, lookup_vkey}
use diffractllm.Governance.Admission.{
  extract_key, is_expired, validate_vkey_auth, ModelLookup, access_explicit, access_any,
  execute_model_access,
}

provider_config-own :
    {W : Type 0} (cfgs : List (ProviderConfig W)) (provider : String) (cfg : ProviderConfig W)
    → provider_config cfgs provider ≡ some cfg
    → cfg.provider ≡ provider
unfolding provider_config
provider_config-own [] provider cfg h = cc
provider_config-own (c ∷ cfgs) provider cfg h =
    ground (arith, provider_config-own cfgs provider cfg, eq_iff c.provider provider)

named_key :
    {W : Type 0} (vk : VirtualKey W) (config : ProviderConfig W) (provider : String)
    (asked : CatalogKey)
    → asked.provider ≡ provider
    → provider_config vk.provider_configs provider ≡ some config
    → (provider == "") ≡ false
    → is_model_allowed config asked ≡ true
    → is_model_key_allowed vk.provider_configs asked ≡ true
unfolding is_model_key_allowed
named_key vk config provider asked own found n may = ground arith

-- An expiry time that is not before now, where there is one.
abbrev pub IsCurrent : ℤ → Option ℤ → Type 0
IsCurrent now none = Unit {0}
IsCurrent now (some expires_at) = now ≤ℤ expires_at

is_expired-IsCurrent :
    (now : ℤ) (expires : Option ℤ) → is_expired now expires ≡ false → IsCurrent now expires
unfolding is_expired
is_expired-IsCurrent now none h = tt
is_expired-IsCurrent now (some t) h = ground (arith, h)

IsCurrent-is_expired :
    (now : ℤ) (expires : Option ℤ) → IsCurrent now expires → is_expired now expires ≡ false
unfolding is_expired
IsCurrent-is_expired now none h = refl
IsCurrent-is_expired now (some t) h = ground (arith, h)

-- The empty text is no key.
signed_given : (key : String) → validate_key_signature (bytes_of key) ≡ true → (key == "") ≡ false
unfolding validate_key_signature bytes_of
signed_given key signed = elim (Bool-cases (key == "")) [
  | inl empty ↦
      let blank : validate_key_signature (bytes_of "") ≡ true =
        subst (λ k. validate_key_signature (bytes_of k) ≡ true) ((eq_iff key "").0 empty) signed in
      absurd (ground (arith, blank))
  | inr given ↦ given
]

known_key :
    {W : Type 0} (virtual : Option (VirtualKeyMap W)) (key : String) (vk : VirtualKey W)
    → lookup_vkey virtual key ≡ some vk
    → (cache : VirtualKeyMap W) × (virtual ≡ some cache) × (lookup key cache ≡ some vk)
unfolding lookup_vkey
known_key none key vk h = cc
known_key (some cache) key vk h = (cache, refl, h)

module _ {F W : Type 0} where
  -- A request that authenticates.
  pub record Authenticated (now : ℤ) (virtual : Option (VirtualKeyMap W)) (rctx rctx' : Context F W)
      : Type 0 where
    pub vk : VirtualKey W
    pub signed : validate_key_signature (bytes_of (extract_key rctx.header)) ≡ true
    pub cache : VirtualKeyMap W
    pub loaded : virtual ≡ some cache
    pub known : lookup (extract_key rctx.header) cache ≡ some vk
    pub active : vk.is_active ≡ true
    pub current : IsCurrent now vk.expires_at
    pub bound : rctx' ≡ record rctx {
      client_id = vk.client_id;
      virtual_key_id = vk.id;
      virtual_key_policy = some vk;
      budget_ref = vk.budget_id;
      auth_frozen = true;
    }

  pub validated-Authenticated :
      (now : ℤ) (virtual : Option (VirtualKeyMap W)) (rctx rctx' : Context F W)
      → validate_vkey_auth now virtual rctx ≡ ok rctx'
      → Authenticated now virtual rctx rctx'
  unfolding validate_vkey_auth
  validated-Authenticated now virtual rctx rctx' h =
      elim (Option-cases (lookup_vkey virtual (extract_key rctx.header))) [
        | inl missing ↦ absurd (ground arith)
        | inr (vk, found) ↦
            let (cache, loaded, known) = known_key virtual (extract_key rctx.header) vk found in
            record {
              vk = vk;
              signed = ground arith;
              cache = cache;
              loaded = loaded;
              known = known;
              active = ground arith;
              current = is_expired-IsCurrent now vk.expires_at (ground arith);
              bound = ground arith;
            }
      ]

  authenticates :
      (now : ℤ) (virtual : Option (VirtualKeyMap W)) (rctx rctx' : Context F W)
      → Authenticated now virtual rctx rctx'
      → validate_vkey_auth now virtual rctx ≡ ok rctx'
  unfolding validate_vkey_auth lookup_vkey
  authenticates now virtual rctx rctx' a =
      rw (a.loaded, a.known, a.bound)
        (ground (
          arith,
          signed_given (extract_key rctx.header) a.signed,
          a.signed,
          a.active,
          IsCurrent-is_expired now a.vk.expires_at a.current,
        ))

  -- A request authenticates exactly when its key has a valid signature and stands in a cache that was loaded, for a
  -- virtual key that is active and whose expiry time, if it has one, is not before now. It then takes
  -- client, budget and policy from that virtual key and from nothing else.
  pub validate_vkey_auth-Authenticated :
      (now : ℤ) (virtual : Option (VirtualKeyMap W)) (rctx rctx' : Context F W)
      → (validate_vkey_auth now virtual rctx ≡ ok rctx') ↔ Authenticated now virtual rctx rctx'
  validate_vkey_auth-Authenticated now virtual rctx rctx' =
      (validated-Authenticated now virtual rctx rctx', authenticates now virtual rctx rctx')

  -- A request whose model may be used.
  pub record Permitted (rctx rctx' : Context F W) : Type 0 where
    pub vk : VirtualKey W
    pub policy : rctx.virtual_key_policy ≡ some vk
    pub allowed : is_model_key_allowed vk.provider_configs rctx'.model_key ≡ true
    pub kind : rctx'.model_key.model_type ≡ kind_model_type rctx.request_kind
    pub rest : rctx' ≡ record rctx { model_key = rctx'.model_key }

  access_explicit-Permitted :
      (catalog : Option ModelLookup) (vk : VirtualKey W) (provider model : String)
      (rctx rctx' : Context F W)
      → rctx.virtual_key_policy ≡ some vk
      → (provider == "") ≡ false
      → access_explicit catalog vk provider model rctx ≡ ok rctx'
      → Permitted rctx rctx'
  unfolding access_explicit
  access_explicit-Permitted catalog vk provider model rctx rctx' p n h =
      elim (Option-cases (provider_config vk.provider_configs provider)) [
        | inl missing ↦ absurd (ground arith)
        | inr (config, found) ↦
            let own = provider_config-own vk.provider_configs provider config found in
            let asked : CatalogKey = record {
              provider = config.provider;
              model_name = model;
              model_type = kind_model_type rctx.request_kind;
            } in
            let bound : rctx' ≡ record rctx { model_key = asked } = ground arith in
            let may : is_model_allowed config asked ≡ true = ground arith in
            record {
              vk = vk;
              policy = p;
              allowed =
                  ap (λ r. is_model_key_allowed vk.provider_configs r.model_key) bound
                  ∙ named_key vk config provider asked own found n may;
              kind = ap (λ r. r.model_key.model_type) bound;
              rest = ground (arith, bound);
            }
      ]

  access_any-Permitted :
      (catalog : Option ModelLookup) (vk : VirtualKey W) (requested : String)
      (rctx rctx' : Context F W)
      → rctx.virtual_key_policy ≡ some vk
      → access_any catalog vk requested rctx ≡ ok rctx'
      → Permitted rctx rctx'
  unfolding access_any
  access_any-Permitted catalog vk requested rctx rctx' p h = record {
    vk = vk;
    policy = p;
    allowed = ground arith;
    kind = ground arith;
    rest = ground arith;
  }

  -- A request that passes the check of model access has a policy, and the policy allows the model that
  -- the request is now bound to; nothing else of the request changes.
  pub execute_model_access-Permitted :
      (catalog : Option ModelLookup) (rctx rctx' : Context F W)
      → execute_model_access catalog rctx ≡ ok rctx'
      → Permitted rctx rctx'
  unfolding execute_model_access
  execute_model_access-Permitted catalog rctx rctx' h =
      elim (Option-cases rctx.virtual_key_policy) [
        | inl missing ↦ absurd (ground arith)
        | inr (vk, policy) ↦
            let requested = trim_space rctx.requested_model in
            elim (Bool-cases ((parse_model_string requested).0 == "")) [
              | inl unnamed ↦
                  access_any-Permitted catalog vk requested rctx rctx' policy (ground arith)
              | inr named ↦
                  access_explicit-Permitted catalog vk (parse_model_string requested).0
                    (parse_model_string requested).1 rctx rctx' policy named (ground arith)
            ]
      ]
