-- ===== src/Core/VirtualKey/Compile.antt =====
-- internal/core/virtualkey.go: what `CompileProviderConfigs` makes of the stored lists.
use text.Mathlib.Text.{◌==◌}
use text.Mathlib.TextEquality.{eq_iff}
use diffractllm.Base.{
  ◌≡◌, refl, ap, ◌∙◌, Bool, true, false, not, ◌&&◌, ◌||◌, String, List, [], ◌∷◌, ◌++◌, map, ok,
  fail_if-eq-ok, if◌then◌else◌, arith, Bool-cases, inl, inr,
}
use diffractllm.Core.Models.{CatalogKey, trim_space}
use diffractllm.Core.VirtualKey.{
  VkMode, Weights, ProviderConfig, has, is_model_allowed, compile_blocked, compile_allowed,
  compile_config, is_direct, is_nil, empty_blocked, blocks_all, empty_model,
}

abbrev pub trimmed : List String → List String
trimmed = map trim_space

or_assoc : (a b c : Bool) → ((a || b) || c) ≡ (a || (b || c))
or_assoc true b c = refl
or_assoc false b c = refl

-- Adding a model to a set, as both loops do.
has-add :
    (xs : List String) (x m : String)
    → has (if has xs x then xs else xs ++ x ∷ []) m ≡ (has xs m || x == m)
unfolding has
has-add xs x m = elim (Bool-cases (has xs x)) [
  | inl old ↦ rw old (member xs old)
  | inr new ↦ rw new (at_end xs)
]
  where
    member : (ys : List String) → has ys x ≡ true → has ys m ≡ (has ys m || x == m)
    member [] h = cc
    member (y ∷ ys) h = ground (arith, member ys, eq_iff y x, eq_iff x m, eq_iff y m)

    at_end : (ys : List String) → has (ys ++ x ∷ []) m ≡ (has ys m || x == m)
    at_end [] = ground arith
    at_end (y ∷ ys) = ground (arith, at_end ys)

compile_blocked-has :
    (provider : String) (done raws : List String) {out : List String} (m : String)
    → compile_blocked provider done raws ≡ ok out
    → has out m ≡ (has done m || has (trimmed raws) m)
unfolding compile_blocked has
compile_blocked-has provider done [] m h = ground arith
compile_blocked-has provider done (raw ∷ rest) m h =
    let model = trim_space raw in
    let (_, passed) = fail_if-eq-ok (model == "") (empty_blocked provider) _ h in
    let (_, rest_ok) = fail_if-eq-ok (model == "*") (blocks_all provider) _ passed in
    compile_blocked-has provider (if has done model then done else done ++ model ∷ []) rest m
      rest_ok
    ∙ ap (λ b. b || has (trimmed rest) m) (has-add done model m)
    ∙ or_assoc (has done m) (model == m) (has (trimmed rest) m)

compile_allowed-has :
    (provider : String) (all : Bool) (done raws : List String) {out : Bool × List String}
    (m : String)
    → compile_allowed provider all done raws ≡ ok out
    → (has out.1 m ≡ (has done m || has (trimmed raws) m))
      × (out.0 ≡ (all || has (trimmed raws) "*"))
unfolding compile_allowed has
compile_allowed-has provider all done [] m h = (ground arith, ground arith)
compile_allowed-has provider all done (raw ∷ rest) m h =
    let model = trim_space raw in
    let (_, rest_ok) = fail_if-eq-ok (model == "") (empty_model provider) _ h in
    let (members, every) =
      compile_allowed-has provider (all || model == "*")
        (if has done model then done else done ++ model ∷ []) rest m rest_ok in
    (
      members
          ∙ ap (λ b. b || has (trimmed rest) m) (has-add done model m)
          ∙ or_assoc (has done m) (model == m) (has (trimmed rest) m),
      every ∙ or_assoc all (model == "*") (has (trimmed rest) "*"),
    )

-- Who may use a model, by the lists as they were stored: the provider is the one named, the model is
-- named, it is not among the blocked ones, and it or "*" is among the allowed ones, all trimmed.
abbrev pub permits : {W : Type 0} → ProviderConfig W → CatalogKey → Bool
permits stored key =
    key.provider == trim_space stored.provider
    && not (key.model_name == "")
    && not (has (trimmed stored.blocked_models) key.model_name)
    && (has (trimmed stored.allowed_models) "*"
        || has (trimmed stored.allowed_models) key.model_name)

module _ {W : Type 0} (wt : Weights W) (mode : VkMode) (providers : List String)
    (stored : ProviderConfig W) where
  -- What a compilation that succeeds has gone through.
  pub record Compiled (config : ProviderConfig W) : Type 0 where
    pub named : (trim_space stored.provider == "") ≡ false
    pub fresh : has providers (trim_space stored.provider) ≡ false
    pub provider_kept : config.provider ≡ trim_space stored.provider
    pub blocked_ok :
        compile_blocked (trim_space stored.provider) [] stored.blocked_models
        ≡ ok config.runtime_blocked_models
    pub allowed_ok :
        compile_allowed (trim_space stored.provider) false [] stored.allowed_models
        ≡ ok (config.allow_all, config.runtime_allowed_models)
    pub weighed : (not (is_direct mode) && wt.out_of_range stored.weight) ≡ false
    pub some_model : is_nil config.runtime_allowed_models ≡ false

  pub compile_config-Compiled :
      {config : ProviderConfig W}
      → compile_config wt mode providers stored ≡ ok config
      → Compiled config
  unfolding compile_config
  compile_config-Compiled {config} h = record {
    named = ground arith;
    fresh = ground arith;
    provider_kept = ground arith;
    blocked_ok = ground arith;
    allowed_ok = ground arith;
    weighed = ground arith;
    some_model = ground arith;
  }

  -- What a compiled configuration admits is what the stored one permits.
  pub compile_config-permits :
      {config : ProviderConfig W} (key : CatalogKey)
      → compile_config wt mode providers stored ≡ ok config
      → is_model_allowed config key ≡ permits stored key
  unfolding is_model_allowed
  compile_config-permits {config} key h =
      let c = compile_config-Compiled h in
      let provider = trim_space stored.provider in
      let blocked =
        compile_blocked-has provider [] stored.blocked_models key.model_name c.blocked_ok in
      let (allowed, every) =
        compile_allowed-has provider false [] stored.allowed_models key.model_name c.allowed_ok in
      ground (arith, c.provider_kept, blocked, allowed, every)
