-- ===== src/Tests/Prices.antt =====
-- internal/core/pricing.go at concrete prices and quantities.
use diffractllm.Pricing.Cost.{Charge, cost_lines}
use diffractllm.Pricing.TokenPrices.{
  IsInputField, IsOutputField, IsCacheReadField, IsCacheWriteField, IsTokenLine,
  cost_lines-IsPriced,
}
use diffractllm.Tests.Samples.{request}
use diffractllm.Base.{
  ◌∷◌, List, ℕ, ◌+◌, ◌*◌, ◌≡◌, refl, true, none, some, pos, ltb, ◌==◌, pos_part, arith, ◌<|>◌,
}
use diffractllm.Pricing.Fields.{PriceField, input_cost_per_token}
use diffractllm.Pricing.Fields
use diffractllm.Pricing.Merge.{Pricing, merge_pricing, merge_pricing_lem}
use diffractllm.Pricing.Float.{Float64, FloatLaws}
use diffractllm.Pricing.Tier.{flex}
use diffractllm.Pricing.Rates.{cache_read_rate}
use diffractllm.Pricing.Cost.{
  calculate_cost, cost_breakdown, sum_costs, calculate_cost-cost_breakdown, uncached_input,
}
use diffractllm.Pricing.Tokens.{cached_billed_twice}

-- Amounts that are whole and not negative, in which float64 is exact.
abbrev pub whole : Float64 ℕ
whole = record {
  zero = 0;
  add = λ x y. x + y;
  mul = λ x y. x * y;
  of_int64 = pos_part;
  is_zero = λ x. x == 0;
  exceeds = λ x n. ltb n x;
}

whole_laws : FloatLaws whole
whole_laws = record {
  is_zero-zero = refl;
  add-zero = λ x z h. ground arith;
  mul-zero = λ x z h. times_zero x z (ground arith);
  zero-mul = λ z x h. zero_times x z (ground arith);
}
  where
    times_zero : (x z : ℕ) → z ≡ 0 → (x * z == 0) ≡ true
    times_zero x z h = rw h (ground arith)

    zero_times : (x z : ℕ) → z ≡ 0 → (z * x == 0) ≡ true
    zero_times x z h = rw h (ground arith)

abbrev no_price : Pricing ℕ
no_price f = none

-- The plain prices, and a flex price for cached and for long requests.
abbrev pub price : Pricing ℕ
price Fields.input_cost_per_token = some 3
price Fields.output_cost_per_token = some 15
price Fields.input_cost_per_token_flex = some 2
price Fields.input_cost_per_token_above_272k_tokens_flex = some 0
price Fields.input_cost_per_token_batches_above_272k_tokens = some 0
price Fields.cache_read_input_token_cost_flex = some 1
price Fields.output_cost_per_reasoning_token = some 20
price _ = none

merge_pricing_lem_example :
    merge_pricing no_price price input_cost_per_token
    ≡ (price input_cost_per_token <|> no_price input_cost_per_token)
merge_pricing_lem_example = merge_pricing_lem no_price price input_cost_per_token

calculate_cost-cost_breakdown_example :
    calculate_cost whole price request ≡ sum_costs whole 0 (cost_breakdown whole price request)
calculate_cost-cost_breakdown_example = calculate_cost-cost_breakdown whole whole_laws price request

-- A price that differs above the bands only.
abbrev banded : Pricing ℕ
banded Fields.input_cost_per_token_above_128k_tokens = some 9
banded Fields.input_cost_per_token = some 3
banded Fields.input_cost_per_token_flex = some 2
banded _ = none

cached_billed_twice_example :
    (cache_read_rate whole price (pos 100) flex ≡ 1)
    × (uncached_input price request
        ≡ uncached_input price (record request { cached_input_tokens = pos 0 }))
cached_billed_twice_example = cached_billed_twice whole price request 1 refl refl refl (omega arith)

cost_lines-IsPriced_example :
    (input : Charge ℕ) × (output : Charge ℕ) × (read : Charge ℕ) × (write : Charge ℕ) × (rest : List
      (Charge ℕ))
    × (cost_lines whole price request ≡ input ∷ output ∷ read ∷ write ∷ rest)
    × IsTokenLine whole whole_laws price (IsInputField request.tier) "input" input
    × IsTokenLine whole whole_laws price (IsOutputField request.tier) "output" output
    × IsTokenLine whole whole_laws price (IsCacheReadField request.tier) "input_cache_read" read
    × IsTokenLine whole whole_laws price (IsCacheWriteField request.tier) "input_cache_write" write
cost_lines-IsPriced_example = cost_lines-IsPriced whole whole_laws price request
