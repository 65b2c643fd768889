-- ===== src/Core/VirtualKey/Access.antt =====
-- internal/core/virtualkey.go: a compiled policy admits what the stored configurations permit.
use text.Mathlib.Text.{◌==◌}
use text.Mathlib.TextEquality.{eq_iff}
use diffractllm.Base.{
  >>=-eq-ok, ◌≡◌, refl, ap, sym, ◌∙◌, Bool, true, false, ◌||◌, String, List, [], ◌∷◌, ok, arith,
  none, some, Bool-cases, inl, inr, if◌then◌else◌,
}
use diffractllm.Core.Models.{CatalogKey, trim_space}
use diffractllm.Core.VirtualKey.{
  VkMode, Weights, ProviderConfig, has, is_model_allowed, compile_config, compile_loop,
  compile_provider_configs, any_allows, provider_config, is_model_key_allowed,
}
use diffractllm.Core.VirtualKey.Compile.{permits, compile_config-Compiled, compile_config-permits}

-- Some stored configuration permits the model to the provider that the key names.
abbrev pub some_permits : {W : Type 0} → List (ProviderConfig W) → CatalogKey → Bool
some_permits [] key = false
some_permits (stored ∷ rest) key = permits stored key || some_permits rest key

-- Some stored configuration permits the model to its own provider.
abbrev pub some_permits_own : {W : Type 0} → List (ProviderConfig W) → CatalogKey → Bool
some_permits_own [] key = false
some_permits_own (stored ∷ rest) key =
    permits stored (record key { provider = trim_space stored.provider })
    || some_permits_own rest key

-- What `is_model_key_allowed` does with a key that names a provider.
abbrev named_allows : {W : Type 0} → List (ProviderConfig W) → CatalogKey → Bool
named_allows cfgs key = elim (provider_config cfgs key.provider) [
  | none ↦ false
  | some cfg ↦ is_model_allowed cfg key
]

module _ {W : Type 0} (wt : Weights W) (mode : VkMode) where
  -- One turn of the loop, where it succeeds.
  record Turn (seen : List String) (stored : ProviderConfig W) (rest out : List (ProviderConfig W))
      : Type 0 where
    config : ProviderConfig W
    configs : List (ProviderConfig W)
    this : compile_config wt mode seen stored ≡ ok config
    others : compile_loop wt mode (config.provider ∷ seen) rest ≡ ok configs
    both : out ≡ config ∷ configs

  compile_loop-Turn :
      (seen : List String) (stored : ProviderConfig W) (rest : List (ProviderConfig W))
      {out : List (ProviderConfig W)}
      → compile_loop wt mode seen (stored ∷ rest) ≡ ok out
      → Turn seen stored rest out
  unfolding compile_loop
  compile_loop-Turn seen stored rest h =
      let (config, this, rest_ok) = >>=-eq-ok (compile_config wt mode seen stored) _ h in
      let (configs, others, both) =
        >>=-eq-ok (compile_loop wt mode (config.provider ∷ seen) rest) _ rest_ok in
      record {
        config = config;
        configs = configs;
        this = this;
        others = others;
        both = ground arith;
      }

  not_permitted :
      (seen : List String) (stored : ProviderConfig W) (key : CatalogKey)
      → has seen (trim_space stored.provider) ≡ false
      → has seen key.provider ≡ true
      → permits stored key ≡ false
  not_permitted seen stored key fresh s =
      ground (arith, eq_iff key.provider (trim_space stored.provider))

  has-later :
      (p : String) (seen : List String) (q : String) → has seen q ≡ true → has (p ∷ seen) q ≡ true
  unfolding has
  has-later p seen q s = ground (arith, s)

  has-first :
      (p : String) (seen : List String) (q : String) → (p == q) ≡ true → has (p ∷ seen) q ≡ true
  unfolding has
  has-first p seen q s = ground (arith, s)

  named_allows-first :
      (cfg : ProviderConfig W) (cfgs : List (ProviderConfig W)) (key : CatalogKey)
      → (cfg.provider == key.provider) ≡ true
      → named_allows (cfg ∷ cfgs) key ≡ is_model_allowed cfg key
  unfolding provider_config
  named_allows-first cfg cfgs key same = rw (named_allows, same) refl

  named_allows-later :
      (cfg : ProviderConfig W) (cfgs : List (ProviderConfig W)) (key : CatalogKey)
      → (cfg.provider == key.provider) ≡ false
      → named_allows (cfg ∷ cfgs) key ≡ named_allows cfgs key
  unfolding provider_config
  named_allows-later cfg cfgs key other = rw (named_allows, other) refl

  or_some : {a b : Bool} → a ≡ false → b ≡ (a || b)
  or_some h = ground arith

  or_none : {a b : Bool} → b ≡ false → a ≡ (a || b)
  or_none h = ground arith

  other_provider :
      (stored : ProviderConfig W) (key : CatalogKey)
      → (trim_space stored.provider == key.provider) ≡ false
      → permits stored key ≡ false
  other_provider stored key other = ground (
    arith,
    eq_iff key.provider (trim_space stored.provider),
    eq_iff (trim_space stored.provider) key.provider,
  )

  -- A provider that was seen does not come again.
  some_permits-seen :
      (seen : List String) (stored : List (ProviderConfig W)) {out : List (ProviderConfig W)}
      (key : CatalogKey)
      → compile_loop wt mode seen stored ≡ ok out
      → has seen key.provider ≡ true
      → some_permits stored key ≡ false
  some_permits-seen seen [] key h s = refl
  some_permits-seen seen (stored ∷ rest) key h s =
      let t = compile_loop-Turn seen stored rest h in
      let c = compile_config-Compiled wt mode seen stored t.this in
      let now = not_permitted seen stored key c.fresh s in
      let later =
        some_permits-seen (t.config.provider ∷ seen) rest key t.others
          (has-later t.config.provider seen key.provider s) in
      ground (arith, now, later)

  any_allows-permits :
      (seen : List String) (stored : List (ProviderConfig W)) {out : List (ProviderConfig W)}
      (key : CatalogKey)
      → compile_loop wt mode seen stored ≡ ok out
      → any_allows out key ≡ some_permits_own stored key
  unfolding any_allows compile_loop
  any_allows-permits seen [] {out} key h = ground arith
  any_allows-permits seen (stored ∷ rest) {out} key h =
      let t = compile_loop-Turn seen stored rest h in
      let c = compile_config-Compiled wt mode seen stored t.this in
      let own = record key { provider = t.config.provider } in
      let now = compile_config-permits wt mode seen stored own t.this in
      let later = any_allows-permits (t.config.provider ∷ seen) rest key t.others in
      ap (λ o. any_allows o key) t.both
      ∙ ap (λ b. b || any_allows t.configs key) now
      ∙ ap (λ b. permits stored own || b) later
      ∙ ap (λ p. permits stored (record key { provider = p }) || some_permits_own rest key)
          c.provider_kept

  named_allows-permits :
      (seen : List String) (stored : List (ProviderConfig W)) {out : List (ProviderConfig W)}
      (key : CatalogKey)
      → compile_loop wt mode seen stored ≡ ok out
      → named_allows out key ≡ some_permits stored key
  unfolding provider_config compile_loop
  named_allows-permits seen [] {out} key h = ground arith
  named_allows-permits seen (stored ∷ rest) {out} key h =
      let t = compile_loop-Turn seen stored rest h in
      let c = compile_config-Compiled wt mode seen stored t.this in
      let now = compile_config-permits wt mode seen stored key t.this in
      let later = named_allows-permits (t.config.provider ∷ seen) rest key t.others in
      ap (λ o. named_allows o key) t.both ∙ elim (Bool-cases (t.config.provider == key.provider)) [
        | inl same ↦
            let gone =
              some_permits-seen (t.config.provider ∷ seen) rest key t.others
                (has-first t.config.provider seen key.provider same) in
            named_allows-first t.config t.configs key same ∙ now ∙ or_none gone
        | inr other ↦
            let none_here =
              other_provider stored key
                (ap (λ p. p == key.provider) (sym c.provider_kept) ∙ other) in
            named_allows-later t.config t.configs key other ∙ later ∙ or_some none_here
      ]

  -- A policy that compiles admits exactly what the stored configurations permit: for a key that names a
  -- provider, some configuration permits the model to it; for a key that names none, some configuration
  -- permits the model to its own provider.
  pub compile_provider_configs-permits :
      (configs : List (ProviderConfig W)) {runtime : List (ProviderConfig W)} (key : CatalogKey)
      → compile_provider_configs wt mode configs ≡ ok runtime
      → is_model_key_allowed runtime key
        ≡ (if key.provider == "" then some_permits_own configs key else some_permits configs key)
  unfolding compile_provider_configs is_model_key_allowed
  compile_provider_configs-permits configs {runtime} key h =
      let looped : compile_loop wt mode [] configs ≡ ok runtime = ground arith in
      let own = any_allows-permits [] configs key looped in
      let named = named_allows-permits [] configs key looped in
      elim (Bool-cases (key.provider == "")) [ inl any ↦ rw any own | inr one ↦ rw one named ]
