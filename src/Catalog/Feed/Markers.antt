-- ===== src/Catalog/Feed/Markers.antt =====
-- The markers at the head of a key of the feed (internal/modelcatalog/pricing-source.go).
use diffractllm.Base.{
  ◌≡◌, refl, ap, Bool, true, false, String, List, [], ◌∷◌, ◌++◌, length, is_set, Map, lookup,
  insert, delete, Bool-cases, Option-cases, inl, inr, arith, ok, ◌+◌, string_eq,
}
use diffractllm.Catalog.Feed.{marker, walk}

length-delete_missing :
    (k : String) (values : Map String String)
    → is_set (lookup k values) ≡ false
    → length (delete k values) ≡ length values
unfolding lookup delete
length-delete_missing k [] missing = refl
length-delete_missing k ((j, v) ∷ values) missing = ground (arith, length-delete_missing k values)

module _ (values' : Map String String) (consumed' : Bool) where
  -- A walk that succeeds takes parts from the head, and each of them gives one selector more: a selector is never
  -- replaced by a later one, and the rest of the parts stays as it was.
  pub walk-IsSplit :
      (parts rest : List String) (values : Map String String) (consumed : Bool)
      → walk parts values consumed ≡ ok (rest, values', consumed')
      → (heads : List String) × (parts ≡ heads ++ rest)
        × (length values' ≡ length values + length heads)
  unfolding walk insert
  walk-IsSplit [] rest values consumed h = ([], cc, ground arith)
  walk-IsSplit (head ∷ []) rest values consumed h = ([], cc, ground arith)
  walk-IsSplit (head ∷ next ∷ parts) rest values consumed h =
      elim (Option-cases (marker (head ∷ next ∷ parts))) [
        | inl ends ↦ let done = rw (walk, ends) at h in ([], cc, ground arith)
        | inr ((name, value, duplicate), found) ↦ elim (Bool-cases (is_set (lookup name values))) [
          | inl twice ↦ let refused = rw (walk, found, twice) at h in absurd (cc)
          | inr fresh ↦
              let on = rw (walk, found, fresh) at h in
              let heads = walk-IsSplit (next ∷ parts) rest (insert name value values) true on in
              (
                head ∷ heads.0,
                ap (λ ps. head ∷ ps) heads.1,
                omega (arith, heads.2, length-delete_missing name values fresh),
              )
        ]
      ]
