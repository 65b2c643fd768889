-- ===== src/Catalog/Models.antt =====
-- internal/modelcatalog/modelcatalog.go, with the metadata of internal/core/catalog.go: the snapshot of
-- the models, its two indexes, and the questions that admission asks. A load takes what the database
-- lists, after `ToCore`; the set of capabilities is a bit set.
pub mod Indexes
use text.Mathlib.Text.{◌==◌}
use diffractllm.Base.{
  ℕ, Bool, true, false, not, ◌&&◌, ◌||◌, String, Option, none, some, List, [], ◌∷◌, length, ltb, ℤ,
  or_default, is_set, if◌then◌else◌, Map, lookup, insert, string_eq, Result, ok, err,
}
use diffractllm.Pricing.Merge.{Pricing}
use diffractllm.Core.Capabilities.{ModelType}
use diffractllm.Core.Models.{CatalogKey}
use diffractllm.Dataplane.Selection.{catalog_key_eq}
use diffractllm.Governance.Admission.{ModelLookup}
use diffractllm.Catalog.Prices.{
  PricingVariant, CustomScopePricing, BasePricingSnapshot, new_base_pricing_snapshot, find,
  empty_selector_key,
}

pub record ModelLimits : Type 0 where
  pub context_window : ℤ
  pub max_input_tokens : ℤ
  pub max_output_tokens : ℤ
  pub long_context_threshold : ℤ

pub record ModelMetadata : Type 0 where
  pub id : String
  pub provider : String
  pub model_type : ModelType
  pub model_name : String
  pub base_model : String
  pub capability : ℕ
  pub limits : ModelLimits
  pub source_raw_key : String

-- `ModelMetadata.CatalogKey`
abbrev pub metadata_key : ModelMetadata → CatalogKey
metadata_key md = record {
  provider = md.provider;
  model_name = md.model_name;
  model_type = md.model_type;
}

-- The names of a provider are a map to the empty struct.
pub record ModelSnapshot : Type 0 where
  pub entries : List ModelMetadata
  pub metadata : Map CatalogKey ModelMetadata
  pub by_provider : Map String (Map String (Unit {0}))

unfoldable pub index_metadata :
    List ModelMetadata → Map CatalogKey ModelMetadata → Map CatalogKey ModelMetadata
unfolding insert
index_metadata [] metadata = metadata
index_metadata (md ∷ models) metadata = index_metadata models (insert (metadata_key md) md metadata)

unfoldable pub add_name :
    ModelMetadata → Map String (Map String (Unit {0})) → Map String (Map String (Unit {0}))
unfolding insert lookup
add_name md by_provider =
    let names = or_default (lookup md.provider by_provider) [] in
    insert md.provider (insert md.model_name tt names) by_provider

unfoldable pub index_names :
    List ModelMetadata → Map String (Map String (Unit {0})) → Map String (Map String (Unit {0}))
unfolding add_name
index_names [] by_provider = by_provider
index_names (md ∷ models) by_provider = index_names models (add_name md by_provider)

unfoldable pub new_model_snapshot : List ModelMetadata → ModelSnapshot
unfolding index_metadata index_names
new_model_snapshot models = record {
  entries = models;
  metadata = index_metadata models [];
  by_provider = index_names models [];
}

unfoldable pub lookup_metadata : Option ModelSnapshot → CatalogKey → Option ModelMetadata
unfolding lookup
lookup_metadata none key = none
lookup_metadata (some snap) key = lookup key snap.metadata

unfoldable pub has_model : Option ModelSnapshot → String → String → Bool
unfolding lookup
has_model none provider model_name = false
has_model (some snap) provider model_name = elim (lookup provider snap.by_provider) [
  | none ↦ false
  | some names ↦ is_set (lookup model_name names)
]

unfoldable pub provider_names : String → List ModelMetadata → List String
provider_names provider [] = []
provider_names provider (md ∷ entries) =
    let out = provider_names provider entries in
    if md.provider == provider then md.model_name ∷ out else out

unfoldable pub models_for_provider : Option ModelSnapshot → String → List String
unfolding provider_names
models_for_provider none provider = []
models_for_provider (some snap) provider = provider_names provider snap.entries

unfoldable pub select_entries : String → List ModelMetadata → List ModelMetadata
select_entries provider [] = []
select_entries provider (md ∷ entries) =
    let out = select_entries provider entries in
    if provider == "" || md.provider == provider then md ∷ out else out

-- `ModelCatalog.Models`
unfoldable pub list_models : Option ModelSnapshot → String → List ModelMetadata
unfolding select_entries
list_models none provider = []
list_models (some snap) provider = select_entries provider snap.entries

unfoldable pub model_count : Option ModelSnapshot → String → ℕ
unfolding lookup
model_count none provider = 0
model_count (some snap) provider = length (or_default (lookup provider snap.by_provider) [])

-- The three published snapshots.
pub record ModelCatalog (F : Type 0) : Type 0 where
  pub models : Option ModelSnapshot
  pub base_pricing : Option (BasePricingSnapshot F)
  pub custom_pricing : Option (Map CatalogKey (CustomScopePricing F))

module _ {F E : Type 0} where
  unfoldable pub load_models :
      Result E (List ModelMetadata) → ModelCatalog F → ModelCatalog F × Option E
  unfolding new_model_snapshot
  load_models (err e) c = (c, some e)
  load_models (ok models) c = (record c { models = some (new_model_snapshot models) }, none)

  unfoldable pub load_base_pricing :
      Result E (List (PricingVariant F)) → ModelCatalog F → ModelCatalog F × Option E
  unfolding new_base_pricing_snapshot
  load_base_pricing (err e) c = (c, some e)
  load_base_pricing (ok variants) c =
      (record c { base_pricing = some (new_base_pricing_snapshot variants) }, none)

module _ {F : Type 0} where
  unfoldable pub is_ready : ModelCatalog F → Bool
  is_ready c =
      elim c.models [ none ↦ false | some snap ↦ ltb 0 (length snap.entries) ]
      && elim c.base_pricing [ none ↦ false | some base ↦ ltb 0 (length base.base) ]

  unfoldable pub base_price : ModelCatalog F → CatalogKey → Option (Pricing F)
  unfolding find
  base_price c key = elim c.base_pricing [
    | none ↦ none
    | some snap ↦ elim (find snap key empty_selector_key) [
      | none ↦ none
      | some variant ↦ some variant.pricing
    ]
  ]

  -- What the catalog gives to the hook that checks the access to models.
  unfoldable pub model_lookup : ModelCatalog F → ModelLookup
  unfolding is_ready has_model
  model_lookup c = record { ready = is_ready c; has_model = has_model c.models }

-- `NewModelCatalog`
abbrev pub new_model_catalog : {F : Type 0} → ModelCatalog F
new_model_catalog = record { models = none; base_pricing = none; custom_pricing = none }

-- The loads of models and of base prices, in the order in which they take effect.
pub data CatalogLoad (F E : Type 0) : Type 0 where
  models_listed : Result E (List ModelMetadata) → CatalogLoad F E
  prices_listed : Result E (List (PricingVariant F)) → CatalogLoad F E

unfoldable pub catalog_run :
    {F E : Type 0} → ModelCatalog F → List (CatalogLoad F E) → ModelCatalog F
unfolding load_models load_base_pricing
catalog_run c [] = c
catalog_run c (models_listed rows ∷ loads) = catalog_run (load_models rows c).0 loads
catalog_run c (prices_listed rows ∷ loads) = catalog_run (load_base_pricing rows c).0 loads
