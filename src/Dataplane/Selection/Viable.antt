-- ===== src/Dataplane/Selection/Viable.antt =====
-- internal/dataplane/dataplane.go: the providers that are viable, and the one that is picked.
use text.Mathlib.Text.{◌==◌}
use text.Mathlib.TextEquality.{eq_iff}
use diffractllm.Base.{
  ℕ, ◌≡◌, refl, Bool, true, false, String, some, List, [], ◌∷◌, get_elem?, if◌then◌else◌, lookup,
  insert, lookup-insert, string_eq, is_set, arith, inl, inr, ◌⊎◌,
}
use diffractllm.Core.Models.{CatalogKey}
use diffractllm.Core.VirtualKey.{ProviderConfig, provider_config, is_nil}
use diffractllm.Core.Credential.{Credential}
use diffractllm.Dataplane.Selection.{
  Cursors, pick, Wheel, Viable, total_viable, spin, pick_provider, viable_providers,
}

-- The credential stands in the list.
abbrev pub IsIn : Credential → List Credential → Type 0
IsIn cred creds = (i : ℕ) × (get_elem? creds i ≡ some cred)

pub pick-IsIn :
    (key : CatalogKey) (creds : List Credential) (cursors : Cursors) (cred : Credential)
    → (pick key creds cursors).0 ≡ some cred
    → IsIn cred creds
unfolding pick
pick-IsIn key [] cursors cred h = cc
pick-IsIn key (c ∷ []) cursors cred h = (0, h)
pick-IsIn key (c ∷ d ∷ creds) cursors cred h = (_, h)

spin-viable :
    {W T : Type 0} (wheel : Wheel W T) (viable : Viable) (target : T) (last : String)
    (cfgs : List (ProviderConfig W))
    → (spin wheel viable target last cfgs ≡ last)
      ⊎ (is_set (lookup (spin wheel viable target last cfgs) viable) ≡ true)
unfolding spin
spin-viable wheel viable target last [] = inl refl
spin-viable wheel viable target last (cfg ∷ cfgs) =
    let target' = wheel.sub target (wheel.of_weight cfg.weight) in
    ground (
      arith,
      spin-viable wheel viable target' cfg.provider cfgs,
      spin-viable wheel viable target last cfgs,
    )

module _ (source : CatalogKey → List Credential) (key : CatalogKey) where
  -- What the map of viable providers holds.
  abbrev pub IsSourced : Viable → Type 0
  IsSourced viable =
      (p : String) (creds : List Credential)
      → lookup p viable ≡ some creds
      → creds ≡ source (record key { provider = p })

  insert-IsSourced :
      (q : String) (viable : Viable)
      → IsSourced viable
      → IsSourced (insert q (source (record key { provider = q })) viable)
  insert-IsSourced q viable h p creds found = ground (
    arith,
    lookup-insert q p (source (record key { provider = q })) viable,
    eq_iff q p,
    h p creds,
    found,
  )

  if-IsSourced :
      (b : Bool) (v w : Viable) → IsSourced v → IsSourced w → IsSourced (if b then v else w)
  if-IsSourced true v w hv hw = hv
  if-IsSourced false v w hv hw = hw

  pub viable_providers-IsSourced :
      {W : Type 0} (cfgs : List (ProviderConfig W)) (viable : Viable)
      → IsSourced viable
      → IsSourced (viable_providers source key cfgs viable)
  unfolding viable_providers
  viable_providers-IsSourced [] viable h = h
  viable_providers-IsSourced (cfg ∷ cfgs) viable h =
      let creds = source (record key { provider = cfg.provider }) in
      let next = if is_nil creds then viable else insert cfg.provider creds viable in
      viable_providers-IsSourced cfgs next (
        if-IsSourced (is_nil creds) viable (insert cfg.provider creds viable) h
          (insert-IsSourced cfg.provider viable h))

  viable_providers-config :
      {W : Type 0} (cfgs : List (ProviderConfig W)) (viable : Viable) (p : String)
      → is_set (lookup p (viable_providers source key cfgs viable)) ≡ true
      → (is_set (lookup p viable) ≡ true) ⊎ (is_set (provider_config cfgs p) ≡ true)
  unfolding viable_providers provider_config
  viable_providers-config [] viable p h = inl h
  viable_providers-config (cfg ∷ cfgs) viable p h =
      let creds = source (record key { provider = cfg.provider }) in
      let next = if is_nil creds then viable else insert cfg.provider creds viable in
      let later = viable_providers-config cfgs next p h in
      ground (arith, later, lookup-insert cfg.provider p creds viable)

  pub nothing-IsSourced : IsSourced []
  unfolding lookup
  nothing-IsSourced p creds found = cc

  pub viable_providers-fresh :
      {W : Type 0} (cfgs : List (ProviderConfig W)) (p : String)
      → is_set (lookup p (viable_providers source key cfgs [])) ≡ true
      → is_set (provider_config cfgs p) ≡ true
  unfolding lookup
  viable_providers-fresh cfgs p h = elim (viable_providers-config cfgs [] p h) [
    | inl old ↦ absurd (ground arith)
    | inr configured ↦ configured
  ]

pub pick_provider-viable :
    {W T : Type 0} (wheel : Wheel W T) (random : T) (viable : Viable)
    (cfgs : List (ProviderConfig W))
    → (pick_provider wheel random viable cfgs == "") ≡ false
    → is_set (lookup (pick_provider wheel random viable cfgs) viable) ≡ true
unfolding pick_provider
pick_provider-viable wheel random viable cfgs h =
    elim (spin-viable wheel viable (wheel.mul random (total_viable wheel viable wheel.zero cfgs)) ""
      cfgs) [
        | inl nothing ↦
            let same = (eq_iff (pick_provider wheel random viable cfgs) "").1 nothing in cc
        | inr yes_viable ↦ yes_viable
      ]
