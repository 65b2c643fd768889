-- ===== src/Pricing/Merge.antt =====
-- internal/core/pricing.go: `Pricing` and `MergePricing`.
use diffractllm.Base.{
  ℕ, zero, suc, ◌≡◌, refl, inl, inr, Option, none, some, List, [], ◌∷◌, arith, ◌==◌, if◌then◌else◌,
  ◌<|>◌, <|>_assoc, get_elem?, Option-cases, fun_ext,
}
use diffractllm.Pricing.Fields.{PriceField, pricing_field_pairs, index}
use diffractllm.Pricing.Complete.{get_elem?-index, index-injective}

-- Every field is a `*float64`; `none` is nil.
abbrev pub Pricing : Type 0 → Type 0
Pricing F = PriceField → Option F

module _ {F : Type 0} where
  -- `*field.dst = field.src`
  set_field : Pricing F → PriceField → Option F → Pricing F
  set_field p f v g = if index g == index f then v else p g

  merge_field : Pricing F → Pricing F → PriceField → Pricing F
  merge_field merged override f = elim (override f) [
    | none ↦ merged
    | some v ↦ set_field merged f (some v)
  ]

  -- The loop over the pairs of pointers.
  merge_fields : List PriceField → Pricing F → Pricing F → Pricing F
  merge_fields [] merged override = merged
  merge_fields (f ∷ fs) merged override = merge_fields fs (merge_field merged override f) override

  unfoldable pub merge_pricing : Pricing F → Pricing F → Pricing F
  unfolding merge_fields merge_field set_field pricing_field_pairs index
  merge_pricing base override = merge_fields pricing_field_pairs base override

  -- One turn of the loop decides its own field, and leaves the others.
  merge_field_lem :
      (m o : Pricing F) (f g : PriceField)
      → merge_field m o f g ≡ (if index g == index f then o g <|> m g else m g)
  unfolding merge_field set_field
  merge_field_lem m o f g = ground (arith, index-injective g f)

  merge_fields-unset :
      (fs : List PriceField) (m o : Pricing F) (g : PriceField)
      → o g ≡ none
      → merge_fields fs m o g ≡ m g
  unfolding merge_fields
  merge_fields-unset [] m o g h = refl
  merge_fields-unset (f ∷ fs) m o g h =
      ground (arith, merge_field_lem m o f g, merge_fields-unset fs (merge_field m o f) o g h)

  merge_fields-done :
      (fs : List PriceField) (m o : Pricing F) (g : PriceField) (v : F)
      → o g ≡ some v
      → m g ≡ some v
      → merge_fields fs m o g ≡ some v
  unfolding merge_fields
  merge_fields-done [] m o g v h k = k
  merge_fields-done (f ∷ fs) m o g v h k =
      ground (arith, merge_field_lem m o f g, merge_fields-done fs (merge_field m o f) o g v h)

  merge_fields-set :
      (fs : List PriceField) (i : ℕ) (m o : Pricing F) (g : PriceField) (v : F)
      → get_elem? fs i ≡ some g
      → o g ≡ some v
      → merge_fields fs m o g ≡ some v
  unfolding merge_fields
  merge_fields-set [] i m o g v e h = cc
  merge_fields-set (f ∷ fs) zero m o g v e h =
      ground (arith, merge_field_lem m o f g, merge_fields-done fs (merge_field m o f) o g v h)
  merge_fields-set (f ∷ fs) (suc i) m o g v e h =
      merge_fields-set fs i (merge_field m o f) o g v e h

  -- Every field of the merged price is the override's where it is set, and the base's elsewhere.
  pub merge_pricing_lem :
      (base override : Pricing F) (g : PriceField)
      → merge_pricing base override g ≡ (override g <|> base g)
  unfolding merge_pricing
  merge_pricing_lem base override g = elim (Option-cases (override g)) [
    | inl e ↦ rw e (merge_fields-unset pricing_field_pairs base override g e)
    | inr (v, e) ↦
        rw e
          (merge_fields-set pricing_field_pairs (index g) base override g v (get_elem?-index g) e)
  ]

  -- Overrides are applied one after another or merged first: the price is the same.
  pub merge_pricing_assoc :
      (base first second : Pricing F)
      → merge_pricing (merge_pricing base first) second
        ≡ merge_pricing base (merge_pricing first second)
  merge_pricing_assoc base first second = fun_ext λ g. simp (merge_pricing_lem, <|>_assoc)
