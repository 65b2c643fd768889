-- ===== src/Catalog/Models/Indexes.antt =====
-- internal/modelcatalog/modelcatalog.go: the indexes of a snapshot agree with its entries.
use text.Mathlib.Text.{◌==◌}
use text.Mathlib.TextEquality.{eq_iff}
use diffractllm.Base.{
  ◌≡◌, refl, Bool, ◌&&◌, ◌||◌, String, Option, some, List, [], ◌∷◌, is_set, or_default, Map, lookup,
  insert, lookup-insert, string_eq, arith, ok, err,
}
use diffractllm.Core.VirtualKey.{has}
use diffractllm.Catalog.Models.{
  models_listed, prices_listed, load_base_pricing, new_model_catalog, CatalogLoad, ModelSnapshot,
  catalog_run, ModelMetadata, ModelCatalog, add_name, index_names, provider_names, has_model,
  models_for_provider, load_models, new_model_snapshot,
}

unfoldable named : Map String (Map String (Unit {0})) → String → String → Bool
unfolding lookup
named by_provider p n = is_set (lookup n (or_default (lookup p by_provider) []))

named-add_name :
    (md : ModelMetadata) (m : Map String (Map String (Unit {0}))) (p n : String)
    → named (add_name md m) p n ≡ (md.provider == p && md.model_name == n || named m p n)
unfolding named add_name
named-add_name md m p n =
    let names = or_default (lookup md.provider m) [] in
    ground (
      arith,
      lookup-insert md.provider p (insert md.model_name tt names) m,
      lookup-insert md.model_name n tt names,
      eq_iff md.provider p,
    )

named-index_names :
    (models : List ModelMetadata) (m : Map String (Map String (Unit {0}))) (p n : String)
    → named (index_names models m) p n ≡ (has (provider_names p models) n || named m p n)
unfolding index_names provider_names has
named-index_names [] m p n = refl
named-index_names (md ∷ models) m p n =
    ground (arith, named-index_names models (add_name md m) p n, named-add_name md m p n)

-- The names of a provider that the index has are those that the entries have.
abbrev IsIndexed : Option ModelSnapshot → Type 0
IsIndexed snap =
    (provider model_name : String)
    → has_model snap provider model_name ≡ has (models_for_provider snap provider) model_name

new_model_snapshot-IsIndexed :
    (models : List ModelMetadata) → IsIndexed (some (new_model_snapshot models))
unfolding has_model models_for_provider new_model_snapshot named
new_model_snapshot-IsIndexed models p n = ground (arith, named-index_names models [] p n)

catalog_run-IsIndexed :
    {F E : Type 0} (loads : List (CatalogLoad F E)) (c : ModelCatalog F)
    → IsIndexed c.models
    → IsIndexed (catalog_run c loads).models
unfolding catalog_run load_models load_base_pricing
catalog_run-IsIndexed [] c h = h
catalog_run-IsIndexed (models_listed (err e) ∷ loads) c h = catalog_run-IsIndexed loads c h
catalog_run-IsIndexed (models_listed (ok models) ∷ loads) c h =
    catalog_run-IsIndexed loads _ (new_model_snapshot-IsIndexed models)
catalog_run-IsIndexed (prices_listed (err e) ∷ loads) c h = catalog_run-IsIndexed loads c h
catalog_run-IsIndexed (prices_listed (ok rows) ∷ loads) c h = catalog_run-IsIndexed loads _ h

-- After any sequence of loads of models and base prices, some of which fail, the catalog has a model of
-- a provider exactly where the list of the provider's models names it.
pub has_model-models_for_provider :
    {F E : Type 0} (loads : List (CatalogLoad F E)) (provider model_name : String)
    → has_model (catalog_run new_model_catalog loads).models provider model_name
      ≡ has (models_for_provider (catalog_run new_model_catalog loads).models provider) model_name
unfolding has has_model models_for_provider
has_model-models_for_provider loads = catalog_run-IsIndexed loads new_model_catalog (λ p n. refl)
