-- ===== src/Catalog/Prices/Scopes.antt =====
-- internal/modelcatalog/modelcatalog.go: what loading the custom prices leaves for a model.
use text.Mathlib.Text.{◌==◌}
use text.Mathlib.TextEquality.{eq_iff}
use diffractllm.Base.{
  Bool-cases, ◌≡◌, refl, ap, ◌∙◌, Bool, true, false, ◌&&◌, String, Option, none, some, List, [],
  ◌∷◌, or_default, if◌then◌else◌, Map, lookup, insert, lookup-insert, string_eq, arith, ◌==?◌,
  Option-cases, inl, inr,
}
use diffractllm.Core.Models.{CatalogKey}
use diffractllm.Dataplane.Selection.{catalog_key_eq}
use diffractllm.Catalog.Prices.{
  CustomPricing, CustomScopePricing, custom_key, place, no_scope, add_custom,
}

abbrev pub is_text : String → Option String → Bool
is_text s none = false
is_text s (some t) = t == s

-- One step of the three equations of `Loaded`.
if_and :
    {A : Type 0} (a b : Bool) (x y : A)
    → (if a then (if b then x else y) else y) ≡ (if a && b then x else y)
if_and true b x y = refl
if_and false b x y = refl

module _ {F : Type 0} where
  -- The last of the rows for a key that a test takes.
  abbrev pub last_where :
      (CustomPricing F → Bool)
      → List (CustomPricing F)
      → Option (CustomPricing F)
      → Option (CustomPricing F)
  last_where test [] found = found
  last_where test (cp ∷ rows) found = last_where test rows (if test cp then some cp else found)

  abbrev pub is_for : CatalogKey → CustomPricing F → Bool
  is_for ck cp = custom_key cp ==? ck

  abbrev pub for_key : String → CustomPricing F → Bool
  for_key id cp = cp.scope_type == "virtualkey" && is_text id cp.scope_virtual_key_id

  abbrev pub for_provider : String → CustomPricing F → Bool
  for_provider p cp = cp.scope_type == "provider" && is_text p cp.scope_provider

  abbrev pub for_all : CustomPricing F → Bool
  for_all cp = cp.scope_type == "global"

  lookup-place_key :
      (cp : CustomPricing F) (scoped : CustomScopePricing F) (id : String)
      → lookup id (place cp scoped).virtual_key
        ≡ (if for_key id cp then some cp else lookup id scoped.virtual_key)
  unfolding place
  lookup-place_key cp scoped id = elim (Bool-cases (cp.scope_type == "global")) [
    | inl g ↦ let e = (eq_iff cp.scope_type "global").0 g in simp (e) refl
    | inr g ↦ elim (Bool-cases (cp.scope_type == "provider")) [
      | inl p ↦
          let e = (eq_iff cp.scope_type "provider").0 p in
          elim (Option-cases cp.scope_provider) [
            | inl n ↦ simp (e, n) refl
            | inr (q, n) ↦ simp (e, n) refl
          ]
      | inr p ↦ elim (Bool-cases (cp.scope_type == "virtualkey")) [
        | inl v ↦ elim (Option-cases cp.scope_virtual_key_id) [
          | inl n ↦ simp (g, p, v, n) refl
          | inr (j, n) ↦ simp (g, p, v, n) (lookup-insert j id cp scoped.virtual_key)
        ]
        | inr v ↦ simp (g, p, v) refl
      ]
    ]
  ]

  lookup-place_provider :
      (cp : CustomPricing F) (scoped : CustomScopePricing F) (name : String)
      → lookup name (place cp scoped).provider
        ≡ (if for_provider name cp then some cp else lookup name scoped.provider)
  unfolding place
  lookup-place_provider cp scoped name = elim (Bool-cases (cp.scope_type == "global")) [
    | inl g ↦ let e = (eq_iff cp.scope_type "global").0 g in simp (e) refl
    | inr g ↦ elim (Bool-cases (cp.scope_type == "provider")) [
      | inl p ↦ elim (Option-cases cp.scope_provider) [
        | inl n ↦ simp (g, p, n) refl
        | inr (q, n) ↦ simp (g, p, n) (lookup-insert q name cp scoped.provider)
      ]
      | inr p ↦ elim (Bool-cases (cp.scope_type == "virtualkey")) [
        | inl v ↦ elim (Option-cases cp.scope_virtual_key_id) [
          | inl n ↦ simp (g, p, v, n) refl
          | inr (j, n) ↦ simp (g, p, v, n) refl
        ]
        | inr v ↦ simp (g, p, v) refl
      ]
    ]
  ]

  place-global :
      (cp : CustomPricing F) (scoped : CustomScopePricing F)
      → (place cp scoped).global ≡ (if for_all cp then some cp else scoped.global)
  unfolding place
  place-global cp scoped = elim (Bool-cases (cp.scope_type == "global")) [
    | inl g ↦ simp (g) refl
    | inr g ↦ elim (Option-cases cp.scope_provider) [
      | inl n ↦ elim (Option-cases cp.scope_virtual_key_id) [
        | inl m ↦ ground arith
        | inr (j, m) ↦ ground arith
      ]
      | inr (q, n) ↦ elim (Option-cases cp.scope_virtual_key_id) [
        | inl m ↦ ground arith
        | inr (j, m) ↦ ground arith
      ]
    ]
  ]

  -- What is loaded for a key.
  abbrev pub scoped_at : CatalogKey → Map CatalogKey (CustomScopePricing F) → CustomScopePricing F
  scoped_at ck temp = or_default (lookup ck temp) no_scope

  scoped_at-insert :
      (ck ck' : CatalogKey) (s : CustomScopePricing F)
      (temp : Map CatalogKey (CustomScopePricing F))
      → scoped_at ck (insert ck' s temp) ≡ (if ck' ==? ck then s else scoped_at ck temp)
  scoped_at-insert ck ck' s temp = ground (arith, lookup-insert ck' ck s temp)

  abbrev with_row :
      CustomPricing F
      → Map CatalogKey (CustomScopePricing F)
      → Map CatalogKey (CustomScopePricing F)
  with_row cp temp = insert (custom_key cp) (place cp (scoped_at (custom_key cp) temp)) temp

  if_unused :
      (b : Bool) (x x' y : CustomScopePricing F)
      → b ≡ false
      → (if b then x else y) ≡ (if b then x' else y)
  if_unused b x x' y h = rw h refl

  -- A row changes what is loaded for its own key only.
  scoped_at-with_row :
      (ck : CatalogKey) (cp : CustomPricing F) (temp : Map CatalogKey (CustomScopePricing F))
      → scoped_at ck (with_row cp temp)
        ≡ (if is_for ck cp then place cp (scoped_at ck temp) else scoped_at ck temp)
  scoped_at-with_row ck cp temp = elim (Bool-cases (custom_key cp ==? ck)) [
    | inl same ↦
        let e = (catalog_key_eq.beq_iff (custom_key cp) ck).0 same in
        scoped_at-insert ck (custom_key cp) (place cp (scoped_at (custom_key cp) temp)) temp
        ∙ ap (λ k. if custom_key cp ==? ck then place cp (scoped_at k temp) else scoped_at ck temp)
            e
    | inr apart ↦
        scoped_at-insert ck (custom_key cp) (place cp (scoped_at (custom_key cp) temp)) temp
        ∙ if_unused (custom_key cp ==? ck) (place cp (scoped_at (custom_key cp) temp))
            (place cp (scoped_at ck temp)) (scoped_at ck temp) apart
  ]

  if_lookup_key :
      (id : String) (b : Bool) (cp : CustomPricing F) (s : CustomScopePricing F)
      → lookup id (if b then place cp s else s).virtual_key ≡ (
          if b
          then (if for_key id cp then some cp else lookup id s.virtual_key)
          else lookup id s.virtual_key)
  if_lookup_key id true cp s = lookup-place_key cp s id
  if_lookup_key id false cp s = refl

  if_lookup_provider :
      (name : String) (b : Bool) (cp : CustomPricing F) (s : CustomScopePricing F)
      → lookup name (if b then place cp s else s).provider ≡ (
          if b
          then (if for_provider name cp then some cp else lookup name s.provider)
          else lookup name s.provider)
  if_lookup_provider name true cp s = lookup-place_provider cp s name
  if_lookup_provider name false cp s = refl

  if_global :
      (b : Bool) (cp : CustomPricing F) (s : CustomScopePricing F)
      → (if b then place cp s else s).global
        ≡ (if b then (if for_all cp then some cp else s.global) else s.global)
  if_global true cp s = place-global cp s
  if_global false cp s = refl

  -- Loading reads off, for each scope, the last row that has it.
  pub record Loaded (ck : CatalogKey) (rows : List (CustomPricing F))
      (before after : CustomScopePricing F) : Type 0 where
    pub keys :
        (id : String)
        → lookup id after.virtual_key
          ≡ last_where (λ cp. is_for ck cp && for_key id cp) rows (lookup id before.virtual_key)
    pub providers :
        (name : String)
        → lookup name after.provider
          ≡ last_where
              (λ cp. is_for ck cp && for_provider name cp)
              rows
              (lookup name before.provider)
    pub everywhere : after.global ≡ last_where (λ cp. is_for ck cp && for_all cp) rows before.global

  pub add_custom-Loaded :
      (ck : CatalogKey) (rows : List (CustomPricing F))
      (temp : Map CatalogKey (CustomScopePricing F))
      → Loaded ck rows (scoped_at ck temp) (scoped_at ck (add_custom rows temp))
  unfolding add_custom
  add_custom-Loaded ck [] temp = record {
    keys = λ id. refl;
    providers = λ name. refl;
    everywhere = refl;
  }
  add_custom-Loaded ck (cp ∷ rows) temp =
      let later = add_custom-Loaded ck rows (with_row cp temp) in
      let row = scoped_at-with_row ck cp temp in
      let old = scoped_at ck temp in
      record {
        keys = λ id.
            later.keys id
            ∙ ap (last_where (λ c. is_for ck c && for_key id c) rows) (
                ap (λ s. lookup id s.virtual_key) row
                ∙ if_lookup_key id (is_for ck cp) cp old
                ∙ if_and (is_for ck cp) (for_key id cp) (some cp) (lookup id old.virtual_key));
        providers = λ name.
            later.providers name
            ∙ ap (last_where (λ c. is_for ck c && for_provider name c) rows) (
                ap (λ s. lookup name s.provider) row
                ∙ if_lookup_provider name (is_for ck cp) cp old
                ∙ if_and (is_for ck cp) (for_provider name cp) (some cp)
                    (lookup name old.provider));
        everywhere =
            later.everywhere
            ∙ ap (last_where (λ c. is_for ck c && for_all c) rows) (
                ap (λ s. s.global) row
                ∙ if_global (is_for ck cp) cp old
                ∙ if_and (is_for ck cp) (for_all cp) (some cp) old.global);
      }
