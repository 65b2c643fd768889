-- ===== src/Tests/Catalogs.antt =====
-- The model catalog at concrete loads.
use diffractllm.Core.VirtualKey.{has}
use diffractllm.Catalog.Models.{has_model, models_for_provider}
use diffractllm.Catalog.Models.Indexes.{has_model-models_for_provider}
use diffractllm.Base.{◌≡◌, refl, String, ℕ, false, [], ◌∷◌, pos, ok, err, List}
use diffractllm.Core.Capabilities.{chat}
use diffractllm.Catalog.Models.{
  ModelMetadata, CatalogLoad, models_listed, prices_listed, catalog_run, new_model_catalog,
  has_model, model_count, is_ready,
}

abbrev model : String → String → ModelMetadata
model provider name = record {
  id = "";
  provider = provider;
  model_type = chat;
  model_name = name;
  base_model = "";
  capability = 0;
  limits = record {
    context_window = pos 0;
    max_input_tokens = pos 0;
    max_output_tokens = pos 0;
    long_context_threshold = pos 0;
  };
  source_raw_key = "";
}

-- A load, a load that fails, and one that replaces the first.
abbrev loads : List (CatalogLoad ℕ String)
loads =
    models_listed (ok (model "azure" "old" ∷ []))
    ∷ models_listed (err "locked")
    ∷ models_listed
        (ok (model "openai" "gpt-4o" ∷ model "azure" "gpt-4o" ∷ model "openai" "o1" ∷ []))
    ∷ prices_listed (err "locked")
    ∷ []

counted : model_count (catalog_run new_model_catalog loads).models "openai" ≡ 2
unfolding model_count catalog_run
counted = refl

replaced : has_model (catalog_run new_model_catalog loads).models "azure" "old" ≡ false
unfolding has_model catalog_run
replaced = refl

unpriced : is_ready (catalog_run new_model_catalog loads) ≡ false
unfolding is_ready catalog_run
unpriced = refl

has_model-models_for_provider_example :
    has_model (catalog_run new_model_catalog loads).models "openai" "o1"
    ≡ has (models_for_provider (catalog_run new_model_catalog loads).models "openai") "o1"
has_model-models_for_provider_example = has_model-models_for_provider loads "openai" "o1"
