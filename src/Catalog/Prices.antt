-- ===== src/Catalog/Prices.antt =====
-- internal/modelcatalog/modelcatalog.go, with the price records of internal/core/pricing.go and the
-- selectors of internal/core/catalog.go: the base prices, the custom prices by scope, and their choice.
-- A snapshot that was never stored is `none`.
pub mod Scopes
pub mod Choice
use text.Mathlib.Text.{◌==◌}
use diffractllm.Base.{
  ℕ, Bool, true, false, not, ◌&&◌, String, Option, none, some, List, [], ◌∷◌, ◌++◌, length, ltb,
  or_default, if◌then◌else◌, Map, lookup, insert, delete, string_eq,
}
use diffractllm.Pricing.Merge.{Pricing, merge_pricing}
use diffractllm.Core.Capabilities.{ModelType}
use diffractllm.Core.Models.{CatalogKey, custom_pricing_key}
use diffractllm.Dataplane.Selection.{catalog_key_eq}

abbrev pub empty_selector_key : String
empty_selector_key = "{}"

pub record PricingVariant (F : Type 0) : Type 0 where
  pub raw_key : String
  -- the key of the `SelectorSet`
  pub selectors : String
  pub provider : String
  pub model_type : ModelType
  pub model_name : String
  pub pricing : Pricing F

unfoldable pub canonical_key : String → String
canonical_key key = if key == "" then empty_selector_key else key

unfoldable pub is_empty_selector : String → Bool
unfolding canonical_key
is_empty_selector key = canonical_key key == empty_selector_key

-- A scope is a string: one that is none of the three names has no effect.
pub record CustomPricing (F : Type 0) : Type 0 where
  pub name : String
  pub model_name : String
  pub model_type : ModelType
  pub pricing : Pricing F
  pub scope_type : String
  pub scope_virtual_key_id : Option String
  pub scope_provider : Option String

pub record CustomScopePricing (F : Type 0) : Type 0 where
  pub global : Option (CustomPricing F)
  pub provider : Map String (CustomPricing F)
  pub virtual_key : Map String (CustomPricing F)

pub record BasePricingSnapshot (F : Type 0) : Type 0 where
  pub base : Map CatalogKey (PricingVariant F)
  pub variants : Map CatalogKey (List (PricingVariant F))

module _ {F : Type 0} where
  unfoldable pub catalog_key : PricingVariant F → CatalogKey
  catalog_key v = record {
    provider = v.provider;
    model_name = v.model_name;
    model_type = v.model_type;
  }

  -- `!seen || (variant.Selectors.IsEmpty() && !existing.Selectors.IsEmpty())`
  unfoldable pub preferred : Option (PricingVariant F) → PricingVariant F → PricingVariant F
  unfolding is_empty_selector
  preferred none variant = variant
  preferred (some existing) variant =
      if is_empty_selector variant.selectors && not (is_empty_selector existing.selectors)
      then variant
      else existing

  unfoldable pub add_variants :
      List (PricingVariant F) → BasePricingSnapshot F → BasePricingSnapshot F
  unfolding catalog_key preferred
  add_variants [] snapshot = snapshot
  add_variants (variant ∷ rows) snapshot =
      let key = catalog_key variant in
      add_variants rows (record {
        base = insert key (preferred (lookup key snapshot.base) variant) snapshot.base;
        variants =
            insert key (or_default (lookup key snapshot.variants) [] ++ variant ∷ [])
              snapshot.variants;
      })

  -- The second loop: a key with a single variant needs no list.
  unfoldable pub drop_single :
      Map CatalogKey (List (PricingVariant F)) → Map CatalogKey (List (PricingVariant F))
  drop_single [] = []
  drop_single ((key, bucket) ∷ variants) =
      let rest = drop_single variants in
      if ltb (length bucket) 2 then rest else (key, bucket) ∷ rest

  unfoldable pub new_base_pricing_snapshot : List (PricingVariant F) → BasePricingSnapshot F
  unfolding add_variants drop_single
  new_base_pricing_snapshot rows =
      let snapshot = add_variants rows (record { base = []; variants = [] }) in
      record snapshot { variants = drop_single snapshot.variants }

  unfoldable pub find_selector : String → List (PricingVariant F) → Option (PricingVariant F)
  unfolding canonical_key
  find_selector selector_key [] = none
  find_selector selector_key (variant ∷ bucket) =
      if canonical_key variant.selectors == selector_key
      then some variant
      else find_selector selector_key bucket

  unfoldable pub find : BasePricingSnapshot F → CatalogKey → String → Option (PricingVariant F)
  unfolding find_selector
  find s key selector_key =
      elim (find_selector selector_key (or_default (lookup key s.variants) [])) [
        | some variant ↦ some variant
        | none ↦ lookup key s.base
      ]

  unfoldable pub custom_key : CustomPricing F → CatalogKey
  custom_key cp = record { provider = ""; model_name = cp.model_name; model_type = cp.model_type }

  -- The `switch` of `loadCustomPricing`.
  unfoldable pub place : CustomPricing F → CustomScopePricing F → CustomScopePricing F
  place cp scoped =
      if cp.scope_type == "global"
      then record scoped { global = some cp }
      else if cp.scope_type == "provider"
      then elim cp.scope_provider [
        | none ↦ scoped
        | some p ↦ record scoped { provider = insert p cp scoped.provider }
      ]
      else if cp.scope_type == "virtualkey"
      then elim cp.scope_virtual_key_id [
        | none ↦ scoped
        | some id ↦ record scoped { virtual_key = insert id cp scoped.virtual_key }
      ]
      else scoped

  abbrev pub no_scope : CustomScopePricing F
  no_scope = record { global = none; provider = []; virtual_key = [] }

  unfoldable pub add_custom :
      List (CustomPricing F)
      → Map CatalogKey (CustomScopePricing F)
      → Map CatalogKey (CustomScopePricing F)
  unfolding custom_key
  add_custom [] temp = temp
  add_custom (cp ∷ rows) temp =
      let ck = custom_key cp in
      add_custom rows (insert ck (place cp (or_default (lookup ck temp) no_scope)) temp)

  -- The rows replace what was loaded before.
  unfoldable pub load_custom_pricing :
      List (CustomPricing F) → Map CatalogKey (CustomScopePricing F)
  load_custom_pricing rows = add_custom rows []

  -- The custom price that applies.
  unfoldable pub resolve_scoped : CustomScopePricing F → String → String → Option (CustomPricing F)
  resolve_scoped scoped virtual_key_id provider = elim (lookup virtual_key_id scoped.virtual_key) [
    | some cp ↦ some cp
    | none ↦ elim (lookup provider scoped.provider) [ some cp ↦ some cp | none ↦ scoped.global ]
  ]

  unfoldable pub resolve_price :
      Option (BasePricingSnapshot F)
      → Option (Map CatalogKey (CustomScopePricing F))
      → String
      → CatalogKey
      → String
      → Option (Pricing F)
  resolve_price none custom virtual_key_id key selector_key = none
  resolve_price (some base) custom virtual_key_id key selector_key =
      elim (find base key selector_key) [
        | none ↦ none
        | some bp ↦ elim custom [
          | none ↦ some bp.pricing
          | some prices ↦ elim (lookup (custom_pricing_key key) prices) [
            | none ↦ some bp.pricing
            | some scoped ↦ elim (resolve_scoped scoped virtual_key_id key.provider) [
              | none ↦ some bp.pricing
              | some cp ↦ some (merge_pricing bp.pricing cp.pricing)
            ]
          ]
        ]
      ]
