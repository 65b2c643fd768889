-- ===== src/Pricing/Complete.antt =====
-- The list of `pricingFieldPairs` (internal/core/pricing.go) has every field of `Pricing`, each once.
use diffractllm.Base.{◌≡◌, refl, sym, ap, ◌∙◌, some, get_elem?}
use mathlib.Core.Option.{some-injective}
use diffractllm.Pricing.Fields.{PriceField, input_cost_per_token, pricing_field_pairs, index}

pub get_elem?-index : (f : PriceField) → get_elem? pricing_field_pairs (index f) ≡ some f
unfolding pricing_field_pairs index
get_elem?-index input_cost_per_token = refl
get_elem?-index _ = refl

pub index-injective : (f g : PriceField) → index f ≡ index g → f ≡ g
index-injective f g e =
    some-injective f g
      (sym (get_elem?-index f) ∙ ap (get_elem? pricing_field_pairs) e ∙ get_elem?-index g)
