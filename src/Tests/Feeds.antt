-- ===== src/Tests/Feeds.antt =====
-- The feed of internal/modelcatalog/pricing-source.go at concrete rows.
use diffractllm.Base.{
  lookup, insert, delete, ◌+◌, length, ◌++◌, ℕ, map, ◌≡◌, refl, String, List, [], ◌∷◌, ok, err, pos,
  true, false, Map,
}
use diffractllm.Core.Capabilities.{model_type_string}
use diffractllm.Core.Capabilities.{ModelType, chat, image_generation}
use diffractllm.Catalog.Models.{ModelLimits}
use diffractllm.Catalog.Feed.{
  row_variant, duplicate_size, control_row, SourceSchema, walk, parse_row, model_parser, build,
  row_key,
}
use diffractllm.Catalog.Feed.Listing.{build_lem, with_key, first_entry}
use diffractllm.Catalog.Feed.Markers.{walk-IsSplit}
use diffractllm.Tests.Prices.{price}

abbrev no_limits : ModelLimits
no_limits = record {
  context_window = pos 0;
  max_input_tokens = pos 0;
  max_output_tokens = pos 0;
  long_context_threshold = pos 0;
}

abbrev row : ModelType → String → SourceSchema ℕ
row model_type model_name = record {
  diffract_model_type = model_type;
  diffract_provider = "azure";
  diffract_selector_set = "{}";
  diffract_capabilities = 5;
  diffract_model_name = model_name;
  diffract_raw_key = "";
  provider = "azure_text";
  base_model = "";
  limits = no_limits;
  pricing = price;
}

abbrev joined : Map String String → String
joined values = "selectors"

-- The provider, a size and a number of steps come before the name of the model.
image_key :
    parse_row joined "azure_text/1024-x-max/50-steps/azure/flux" (row image_generation "")
    ≡ ok (record (row image_generation "flux") {
      diffract_raw_key = "azure_text/1024-x-max/50-steps/azure/flux";
      diffract_selector_set = "selectors";
    })
unfolding parse_row
image_key = refl

chat_key :
    parse_row joined "azure/hd/512-x-512/gpt" (row chat "")
    ≡ ok (record (row chat "hd/512-x-512/gpt") { diffract_raw_key = "azure/hd/512-x-512/gpt" })
unfolding parse_row
chat_key = refl

size_twice : parse_row joined "1-x-1/2-x-2/flux" (row image_generation "") ≡ err duplicate_size
unfolding parse_row
size_twice = refl

control_rows :
    (model_parser joined
      (("sample_spec", err control_row) ∷ ("gpt", ok (row chat "")) ∷ [])
      (0, 0)).0
    ≡ (2, 1)
unfolding model_parser
control_rows = refl

abbrev quality_parts : List String
quality_parts = "hd" ∷ "1024-x-1024" ∷ "flux" ∷ []

abbrev quality_values : Map String String
quality_values = ("size", "1024x1024") ∷ ("quality", "hd") ∷ []

walk-IsSplit_example :
    (heads : List String) × (quality_parts ≡ heads ++ ("flux" ∷ []))
    × (length quality_values ≡ length {A = String × String} [] + length heads)
unfolding walk
walk-IsSplit_example = walk-IsSplit quality_values true quality_parts ("flux" ∷ []) [] false refl

abbrev feed_rows : List (SourceSchema ℕ)
feed_rows = row chat "gpt" ∷ row image_generation "flux" ∷ row chat "gpt" ∷ []

two_models : (build feed_rows).1 ≡ 2
unfolding build model_type_string lookup insert delete
two_models = refl

build_lem_example :
    (with_key (row_key (row chat "gpt")) (build feed_rows).0.0
      ≡ first_entry (row_key (row chat "gpt")) feed_rows)
    × ((build feed_rows).0.1 ≡ map row_variant feed_rows)
    × ((build feed_rows).1 ≡ length (build feed_rows).0.0)
build_lem_example = build_lem (row_key (row chat "gpt")) feed_rows
