-- ===== src/Catalog/Prices/Choice.antt =====
-- internal/modelcatalog/modelcatalog.go: which custom price changes a base price.
use diffractllm.Base.{
  ◌≡◌, refl, ap, sym, ◌∙◌, ◌&&◌, String, Option, none, some, List, [], Map, lookup, string_eq,
  arith, ◌<|>◌, Option-cases, inl, inr,
}
use diffractllm.Pricing.Fields.{PriceField}
use diffractllm.Pricing.Merge.{Pricing, merge_pricing, merge_pricing_lem}
use diffractllm.Core.Models.{CatalogKey, custom_pricing_key}
use diffractllm.Dataplane.Selection.{catalog_key_eq}
use diffractllm.Catalog.Prices.{
  CustomPricing, CustomScopePricing, BasePricingSnapshot, PricingVariant, find, add_custom,
  load_custom_pricing, resolve_scoped, resolve_price,
}
use diffractllm.Catalog.Prices.Scopes.{
  last_where, is_for, for_key, for_provider, for_all, scoped_at, add_custom-Loaded,
}

module _ {F : Type 0} where
  -- The custom price that applies, by the rows: the last one for the virtual key, or else the last one for
  -- the provider, or else the last one for all.
  abbrev pub applicable :
      List (CustomPricing F) → CatalogKey → String → String → Option (CustomPricing F)
  applicable rows ck virtual_key_id provider =
      last_where (λ cp. is_for ck cp && for_key virtual_key_id cp) rows none
      <|> last_where (λ cp. is_for ck cp && for_provider provider cp) rows none
      <|> last_where (λ cp. is_for ck cp && for_all cp) rows none

  -- A field of a custom price, where one applies.
  abbrev pub custom_field : Option (CustomPricing F) → PriceField → Option F
  custom_field none g = none
  custom_field (some cp) g = cp.pricing g

  resolve_scoped_lem :
      (s : CustomScopePricing F) (id provider : String)
      → resolve_scoped s id provider
        ≡ (lookup id s.virtual_key <|> lookup provider s.provider <|> s.global)
  unfolding resolve_scoped
  resolve_scoped_lem s id provider =
      ground
        (arith, Option-cases (lookup id s.virtual_key), Option-cases (lookup provider s.provider))

  resolve_scoped-applicable :
      (rows : List (CustomPricing F)) (ck : CatalogKey) (id provider : String)
      → resolve_scoped (scoped_at ck (load_custom_pricing rows)) id provider
        ≡ applicable rows ck id provider
  unfolding load_custom_pricing lookup
  resolve_scoped-applicable rows ck id provider =
      let l = add_custom-Loaded ck rows [] in
      resolve_scoped_lem (scoped_at ck (add_custom rows [])) id provider
      ∙ ap
          (λ o.
            o
            <|> lookup provider (scoped_at ck (add_custom rows [])).provider
            <|> (scoped_at ck (add_custom rows [])).global)
          (l.keys id)
      ∙ ap
          (λ o.
            last_where (λ cp. is_for ck cp && for_key id cp) rows none
            <|> o
            <|> (scoped_at ck (add_custom rows [])).global)
          (l.providers provider)
      ∙ ap
          (λ o.
            last_where (λ cp. is_for ck cp && for_key id cp) rows none
            <|> last_where (λ cp. is_for ck cp && for_provider provider cp) rows none
            <|> o)
          l.everywhere

  module _ (base : BasePricingSnapshot F) (custom : Map CatalogKey (CustomScopePricing F))
      (id : String) (key : CatalogKey) (selector_key : String) (bp : PricingVariant F)
      (found : find base key selector_key ≡ some bp) where
    abbrev chosen_price : Option (CustomPricing F)
    chosen_price = resolve_scoped (scoped_at (custom_pricing_key key) custom) id key.provider

    -- With the custom prices of a key or without any: the fields of the price that applies come first.
    resolve_price-scoped :
        (p : Pricing F) × (resolve_price (some base) (some custom) id key selector_key ≡ some p)
        × ((g : PriceField)
            → p g ≡ (
                custom_field
                  (resolve_scoped (scoped_at (custom_pricing_key key) custom) id key.provider)
                  g
                <|> bp.pricing g))
    unfolding resolve_price resolve_scoped lookup
    resolve_price-scoped = elim (Option-cases (lookup (custom_pricing_key key) custom)) [
      | inl e ↦
          let chosen : chosen_price ≡ none = rw e refl in
          (bp.pricing, ground arith, λ g. ap (λ o. custom_field o g <|> bp.pricing g) (sym chosen))
      | inr (scoped, e) ↦ elim (Option-cases (resolve_scoped scoped id key.provider)) [
        | inl n ↦
            let chosen : chosen_price ≡ none = rw e n in
            (
              bp.pricing,
              ground arith,
              λ g. ap (λ o. custom_field o g <|> bp.pricing g) (sym chosen),
            )
        | inr (cp, n) ↦
            let chosen : chosen_price ≡ some cp = rw e n in
            (
              merge_pricing bp.pricing cp.pricing,
              ground arith,
              λ g.
                  merge_pricing_lem bp.pricing cp.pricing g
                  ∙ ap (λ o. custom_field o g <|> bp.pricing g) (sym chosen),
            )
      ]
    ]

  -- A model that has a base price is billed at a price; every field of it is that of the custom price that
  -- applies, where it sets the field, and that of the base price elsewhere. Among the rows for the model,
  -- the last for the virtual key applies, or else the last for the provider, or else the last global one.
  pub resolve_price-applicable :
      (base : BasePricingSnapshot F) (rows : List (CustomPricing F)) (id : String)
      (key : CatalogKey) (selector_key : String) (bp : PricingVariant F)
      → find base key selector_key ≡ some bp
      → (p : Pricing F) × (resolve_price
            (some base)
            (some (load_custom_pricing rows))
            id
            key
            selector_key
          ≡ some p)
        × ((g : PriceField)
            → p g ≡ (
                custom_field (applicable rows (custom_pricing_key key) id key.provider) g
                <|> bp.pricing g))
  resolve_price-applicable base rows id key selector_key bp found =
      let (p, eq, fields) =
        resolve_price-scoped base (load_custom_pricing rows) id key selector_key bp found in
      (
        p,
        eq,
        λ g.
            fields g
            ∙ ap (λ o. custom_field o g <|> bp.pricing g)
                (resolve_scoped-applicable rows (custom_pricing_key key) id key.provider),
      )
