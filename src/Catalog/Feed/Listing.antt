-- ===== src/Catalog/Feed/Listing.antt =====
-- The models and the prices that the rows of a feed are listed as (internal/modelcatalog/pricing-source.go).
use diffractllm.Base.{
  ◌∙◌, subst, ap, ◌≡◌, refl, true, false, List, [], ◌∷◌, length, is_set, if◌then◌else◌, Map, lookup,
  insert, lookup-insert, Bool-cases, inl, inr, ◌==?◌, map,
}
use diffractllm.Core.Models.{CatalogKey}
use diffractllm.Dataplane.Selection.{catalog_key_eq}
use diffractllm.Catalog.Models.{ModelMetadata, metadata_key}
use diffractllm.Catalog.Feed.{SourceSchema, row_key, row_metadata, row_variant, build_from, build}

-- The models that are listed under a key.
unfoldable pub with_key : CatalogKey → List ModelMetadata → List ModelMetadata
with_key key [] = []
with_key key (md ∷ models) =
    let rest = with_key key models in if metadata_key md ==? key then md ∷ rest else rest

module _ {F : Type 0} where
  -- The model of the first row with a key, and of no other.
  unfoldable pub first_entry : CatalogKey → List (SourceSchema F) → List ModelMetadata
  first_entry key [] = []
  first_entry key (row ∷ rows) =
      let rest = first_entry key rows in if row_key row ==? key then row_metadata row ∷ [] else rest

  build_from-listed :
      (key : CatalogKey) (rows : List (SourceSchema F)) (seen : Map CatalogKey (Unit {0}))
      → with_key key (build_from rows seen).0
        ≡ (if is_set (lookup key seen) then [] else first_entry key rows)
  unfolding with_key first_entry build_from row_metadata
  build_from-listed key [] seen = elim (Bool-cases (is_set (lookup key seen))) [
    | inl known ↦ rw known refl
    | inr fresh ↦ rw fresh refl
  ]
  build_from-listed key (row ∷ rows) seen = elim (Bool-cases (is_set (lookup (row_key row) seen))) [
    | inl known ↦ elim (Bool-cases (row_key row ==? key)) [
      | inl same ↦
          let again : is_set (lookup key seen) ≡ true =
            subst (λ j. is_set (lookup j seen) ≡ true)
              ((catalog_key_eq.beq_iff (row_key row) key).0 same) known in
          rw known (rw again (build_from-listed key rows seen ∙ rw again refl))
      | inr other ↦ rw known (rw other (build_from-listed key rows seen))
    ]
    | inr fresh ↦
        let listed = build_from-listed key rows (insert (row_key row) tt seen) in
        let marked = lookup-insert (row_key row) key tt seen in
        elim (Bool-cases (row_key row ==? key)) [
          | inl same ↦
              let free : is_set (lookup key seen) ≡ false =
                subst (λ j. is_set (lookup j seen) ≡ false)
                  ((catalog_key_eq.beq_iff (row_key row) key).0 same) fresh in
              rw fresh (
                rw same (
                  rw free
                    (ap (λ models. row_metadata row ∷ models) (listed ∙ rw marked (rw same refl)))))
          | inr other ↦ rw fresh (rw other (listed ∙ rw marked (rw other refl)))
        ]
  ]

  build_from-variants :
      (rows : List (SourceSchema F)) (seen : Map CatalogKey (Unit {0}))
      → (build_from rows seen).1 ≡ map row_variant rows
  unfolding build_from
  build_from-variants [] seen = refl
  build_from-variants (row ∷ rows) seen =
      ap (λ prices. row_variant row ∷ prices) (build_from-variants rows _)

  -- A key that some row of the feed has is listed as one model, that of its first row; a key that no row has is not
  -- listed. Each row has its price, in order, and the total is the number of models.
  pub build_lem :
      (key : CatalogKey) (rows : List (SourceSchema F))
      → (with_key key (build rows).0.0 ≡ first_entry key rows)
        × ((build rows).0.1 ≡ map row_variant rows)
        × ((build rows).1 ≡ length (build rows).0.0)
  unfolding build lookup
  build_lem key rows = (build_from-listed key rows [], build_from-variants rows [], refl)
