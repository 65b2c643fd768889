-- ===== src/Catalog/Feed.antt =====
-- internal/modelcatalog/pricing-source.go, with `NewSelectorSet` of internal/core/catalog.go: what a feed of
-- models and prices is turned into. An entry is a key with the row that the decoder of the source made
-- of it, or the error it returned; the tokens around the entries, at which a broken text fails, are left out.
pub mod Listing
pub mod Markers
use Prim.Native.Char.{Char, code}
use text.Mathlib.Text.{◌==◌}
use diffractllm.Base.{
  ℕ, ◌+◌, Bool, true, false, not, ◌&&◌, ◌||◌, String, Option, none, some, List, [], ◌∷◌, ◌++◌,
  length, leb, ltb, or_default, is_set, if◌then◌else◌, Map, lookup, insert, string_eq, Result, ok,
  err, ◌>>=◌, ◌>>◌, fail_if,
}
use diffractllm.Base.{◌==◌ as nat_equal}
use diffractllm.Pricing.Merge.{Pricing}
use diffractllm.Core.Capabilities.{ModelType, image_generation}
use diffractllm.Core.Models.{CatalogKey, trim_space}
use diffractllm.Dataplane.Selection.{catalog_key_eq}
use diffractllm.Catalog.Prices.{PricingVariant, empty_selector_key}
use diffractllm.Catalog.Models.{ModelLimits, ModelMetadata}

-- The fields `diffract_` are those that the decoder and the parser fill in; `limits` holds the four numbers of
-- tokens. The flags and the costs of a search, which the decoder turns into capabilities and prices, are left
-- out.
pub record SourceSchema (F : Type 0) : Type 0 where
  pub diffract_model_type : ModelType
  pub diffract_provider : String
  pub diffract_selector_set : String
  pub diffract_capabilities : ℕ
  pub diffract_model_name : String
  pub diffract_raw_key : String
  pub provider : String
  pub base_model : String
  pub limits : ModelLimits
  pub pricing : Pricing F

pub data FeedError : Type 0 where
  control_row failed_parsing duplicate_size duplicate_steps duplicate_quality : FeedError
  empty_model_name selector_required : FeedError

-- `strings.Split` at one character.
unfoldable pub split : ℕ → String → List String
split sep String.[] = String.[] ∷ []
split sep (String.◌∷◌ c s) = elim (split sep s) [
  | [] ↦ []
  | w ∷ ws ↦ if nat_equal (code c) sep then String.[] ∷ w ∷ ws else String.◌∷◌ c w ∷ ws
]

unfoldable append : String → String → String
append String.[] t = t
append (String.◌∷◌ c s) t = String.◌∷◌ c (append s t)

-- `strings.Join`
unfoldable pub join : String → List String → String
unfolding append
join sep [] = String.[]
join sep (w ∷ []) = w
join sep (w ∷ v ∷ ws) = append w (append sep (join sep (v ∷ ws)))

unfoldable all_digits : String → Bool
all_digits String.[] = true
all_digits (String.◌∷◌ c s) = leb 48 (code c) && leb (code c) 57 && all_digits s

-- `\d+|max`
unfoldable is_amount : String → Bool
unfolding all_digits
is_amount w = w == "max" || not (w == "") && all_digits w

-- What `sizeMarker` matches, with its two groups joined.
unfoldable size_marker : String → Option String
unfolding split append is_amount
size_marker head = elim (split 45 head) [
  | [] ↦ none
  | a ∷ [] ↦ none
  | a ∷ x ∷ [] ↦ none
  | a ∷ x ∷ b ∷ [] ↦
      if is_amount a && x == "x" && is_amount b then some (append a (append "x" b)) else none
  | a ∷ x ∷ b ∷ c ∷ ws ↦ none
]

unfoldable steps_marker : String → Option String
unfolding split is_amount
steps_marker head = elim (split 45 head) [
  | [] ↦ none
  | a ∷ [] ↦ none
  | a ∷ x ∷ [] ↦ if is_amount a && x == "steps" then some a else none
  | a ∷ x ∷ b ∷ ws ↦ none
]

unfoldable is_quality : String → Bool
is_quality w =
    w == "low" || w == "medium" || w == "high" || w == "standard" || w == "hd" || w == "auto"

unfoldable is_quality_marker : List String → Bool
unfolding is_quality size_marker
is_quality_marker [] = false
is_quality_marker (a ∷ []) = false
is_quality_marker (a ∷ b ∷ []) = false
is_quality_marker (a ∷ b ∷ c ∷ ws) = is_quality a && is_set (size_marker b)

-- The selector that the first part is, with its value and the error for a second one.
unfoldable pub marker : List String → Option (String × String × FeedError)
unfolding size_marker steps_marker is_quality_marker
marker [] = none
marker (head ∷ rest) = elim (size_marker head) [
  | some size ↦ some ("size", size, duplicate_size)
  | none ↦ elim (steps_marker head) [
    | some steps ↦ some ("steps", steps, duplicate_steps)
    | none ↦
        if is_quality_marker (head ∷ rest) then some ("quality", head, duplicate_quality) else none
  ]
]

-- The loop `walk`: what is left of the parts, the selectors, and `consumed`.
unfoldable pub walk :
    List String
    → Map String String
    → Bool
    → Result FeedError (List String × Map String String × Bool)
unfolding marker insert lookup
walk [] values consumed = ok ([], values, consumed)
walk (head ∷ []) values consumed = ok (head ∷ [], values, consumed)
walk (head ∷ next ∷ rest) values consumed = elim (marker (head ∷ next ∷ rest)) [
  | none ↦ ok (head ∷ next ∷ rest, values, consumed)
  | some (name, value, duplicate) ↦
      let on = walk (next ∷ rest) (insert name value values) true in
      if is_set (lookup name values) then err duplicate else on
]

-- The white space selectors of `NewSelectorSet`; `encode` is `json.Marshal`.
unfoldable any_blank : Map String String → Bool
unfolding trim_space
any_blank [] = false
any_blank ((name, value) ∷ values) =
    trim_space name == "" || trim_space value == "" || any_blank values

unfoldable new_selector_set :
    (Map String String → String) → Map String String → Result FeedError String
unfolding any_blank
new_selector_set encode [] = ok empty_selector_key
new_selector_set encode (selector ∷ values) =
    fail_if (any_blank (selector ∷ values)) selector_required >> ok (encode (selector ∷ values))

unfoldable without_head : (String → Bool) → List String → List String
without_head goes [] = []
without_head goes (w ∷ []) = w ∷ []
without_head goes (w ∷ v ∷ ws) = if goes w then v ∷ ws else w ∷ v ∷ ws

module _ {F : Type 0} (encode : Map String String → String) where
  unfoldable pub walk_row :
      SourceSchema F → List String → Result FeedError (List String × Map String String × Bool)
  unfolding walk
  walk_row schema parts = elim schema.diffract_model_type [
    | image_generation ↦ walk parts [] false
    | _ ↦ ok (parts, [], false)
  ]

  -- The parts of an iteration of `modelParser` for a row that was decoded.
  unfoldable pub parse_row : String → SourceSchema F → Result FeedError (SourceSchema F)
  unfolding split without_head walk_row join new_selector_set
  parse_row raw_key schema =
      let own : String → Bool =
        λ head. head == schema.provider || head == schema.diffract_provider in
      walk_row schema (without_head own (split 47 raw_key)) >>= λ walked.
      let parts = walked.0 in
      let values = walked.1 in
      let consumed = walked.2 in
      let name =
        join "/" (without_head (λ head. consumed && head == schema.diffract_provider) parts) in
      fail_if (name == "") empty_model_name
      >> (new_selector_set encode values >>= λ selectors. ok (record schema {
        diffract_raw_key = raw_key;
        diffract_selector_set = selectors;
        diffract_model_name = name;
      }))

  -- The counters `TotalSourceCount` and `TotalUnknown` stay when the parser fails.
  unfoldable pub model_parser :
      List (String × Result FeedError (SourceSchema F))
      → ℕ × ℕ
      → (ℕ × ℕ) × Result FeedError (List (SourceSchema F))
  unfolding parse_row
  model_parser [] totals = (totals, ok [])
  model_parser ((raw_key, ok schema) ∷ entries) totals =
      let later = model_parser entries (1 + totals.0, totals.1) in
      elim (parse_row raw_key schema) [
        | err e ↦ ((1 + totals.0, totals.1), err e)
        | ok row ↦ (later.0, later.1 >>= λ rows. ok (row ∷ rows))
      ]
  model_parser ((raw_key, err control_row) ∷ entries) totals =
      model_parser entries (1 + totals.0, 1 + totals.1)
  model_parser ((raw_key, err e) ∷ entries) totals = ((1 + totals.0, totals.1), err failed_parsing)

module _ {F : Type 0} where
  abbrev pub row_key : SourceSchema F → CatalogKey
  row_key row = record {
    provider = row.diffract_provider;
    model_name = row.diffract_model_name;
    model_type = row.diffract_model_type;
  }

  -- A model has no identifier before it is stored.
  unfoldable pub row_metadata : SourceSchema F → ModelMetadata
  row_metadata row = record {
    id = "";
    provider = row.diffract_provider;
    model_type = row.diffract_model_type;
    model_name = row.diffract_model_name;
    base_model = row.base_model;
    capability = row.diffract_capabilities;
    limits = row.limits;
    source_raw_key = row.diffract_raw_key;
  }

  unfoldable pub row_variant : SourceSchema F → PricingVariant F
  row_variant row = record {
    raw_key = row.diffract_raw_key;
    selectors = row.diffract_selector_set;
    provider = row.diffract_provider;
    model_type = row.diffract_model_type;
    model_name = row.diffract_model_name;
    pricing = row.pricing;
  }

  unfoldable pub build_from :
      List (SourceSchema F)
      → Map CatalogKey (Unit {0})
      → List ModelMetadata × List (PricingVariant F)
  unfolding row_metadata row_variant lookup insert
  build_from [] seen = ([], [])
  build_from (row ∷ rows) seen =
      let exists = is_set (lookup (row_key row) seen) in
      let rest = build_from rows (if exists then seen else insert (row_key row) tt seen) in
      (if exists then rest.0 else row_metadata row ∷ rest.0, row_variant row ∷ rest.1)

  -- `ModelsCatalog`, `PricingCatalog` and `TotalModels`
  unfoldable pub build : List (SourceSchema F) → (List ModelMetadata × List (PricingVariant F)) × ℕ
  unfolding build_from
  build rows = let made = build_from rows [] in (made, length made.0)
