-- ===== src/Pricing/Rates.antt =====
-- internal/core/pricing.go: the price of a token, by request size and service tier. An early return is
-- a value of `Option`, and `<|>` takes the first one.
use diffractllm.Base.{
  Option, none, some, List, [], ◌∷◌, ℤ, Bool, if◌then◌else◌, when, or_default, ◌<|>◌,
}
use diffractllm.Pricing.Fields.{
  cache_creation_input_token_cost, cache_creation_input_token_cost_above_1hr,
  cache_creation_input_token_cost_above_1hr_above_200k_tokens,
  cache_creation_input_token_cost_above_1hr_fast, cache_creation_input_token_cost_above_200k_tokens,
  cache_creation_input_token_cost_above_272k_tokens,
  cache_creation_input_token_cost_above_272k_tokens_flex, cache_creation_input_token_cost_batches,
  cache_creation_input_token_cost_batches_1h,
  cache_creation_input_token_cost_batches_above_272k_tokens, cache_creation_input_token_cost_fast,
  cache_creation_input_token_cost_flex, cache_creation_input_token_cost_flex_above_272k_tokens,
  cache_creation_input_token_cost_priority, cache_read_input_token_cost,
  cache_read_input_token_cost_above_200k_tokens,
  cache_read_input_token_cost_above_200k_tokens_priority,
  cache_read_input_token_cost_above_272k_tokens, cache_read_input_token_cost_above_272k_tokens_flex,
  cache_read_input_token_cost_above_272k_tokens_priority,
  cache_read_input_token_cost_above_512k_tokens, cache_read_input_token_cost_batches,
  cache_read_input_token_cost_batches_above_272k_tokens, cache_read_input_token_cost_fast,
  cache_read_input_token_cost_flex, cache_read_input_token_cost_flex_above_272k_tokens,
  cache_read_input_token_cost_priority, input_cost_per_token,
  input_cost_per_token_above_128k_tokens, input_cost_per_token_above_200k_tokens,
  input_cost_per_token_above_200k_tokens_priority, input_cost_per_token_above_256k_tokens,
  input_cost_per_token_above_272k_tokens, input_cost_per_token_above_272k_tokens_flex,
  input_cost_per_token_above_272k_tokens_priority, input_cost_per_token_above_512k_tokens,
  input_cost_per_token_batches, input_cost_per_token_batches_above_272k_tokens,
  input_cost_per_token_cache_hit, input_cost_per_token_fast, input_cost_per_token_flex,
  input_cost_per_token_flex_above_272k_tokens, input_cost_per_token_priority, output_cost_per_token,
  output_cost_per_token_above_128k_tokens, output_cost_per_token_above_200k_tokens,
  output_cost_per_token_above_200k_tokens_priority, output_cost_per_token_above_256k_tokens,
  output_cost_per_token_above_272k_tokens, output_cost_per_token_above_272k_tokens_flex,
  output_cost_per_token_above_272k_tokens_priority, output_cost_per_token_above_512k_tokens,
  output_cost_per_token_batches, output_cost_per_token_batches_above_272k_tokens,
  output_cost_per_token_fast, output_cost_per_token_flex,
  output_cost_per_token_flex_above_272k_tokens, output_cost_per_token_priority,
}
use diffractllm.Pricing.Float.{Float64}
use diffractllm.Pricing.Merge.{Pricing}
use diffractllm.Pricing.Tier.{
  ServiceTier, flex, batch, fast, band_above_128k, band_above_200k, band_above_256k,
  band_above_272k, band_above_512k, above, is_priority, is_fast, is_batch,
}

module _ {F : Type 0} (fl : Float64 F) where
  -- The first candidate that is not nil, or 0.
  unfoldable pub rate : List (Option F) → F
  rate [] = fl.zero
  rate (candidate ∷ candidates) = or_default candidate (rate candidates)

  -- `if v := rate(…); v != 0 { return v }`
  abbrev pub nonzero : F → Option F
  nonzero v = if fl.is_zero v then none else some v

  unfoldable pub input_tier_rate : Pricing F → ℤ → ServiceTier → Option F
  unfolding rate
  input_tier_rate p n fast = p input_cost_per_token_fast
  input_tier_rate p n flex =
      when (above n band_above_272k) (
        nonzero (
          rate (
            p input_cost_per_token_above_272k_tokens_flex
            ∷ p input_cost_per_token_flex_above_272k_tokens
            ∷ [])))
      <|> p input_cost_per_token_flex
  input_tier_rate p n batch =
      when (above n band_above_272k) (p input_cost_per_token_batches_above_272k_tokens)
      <|> p input_cost_per_token_batches
  input_tier_rate p n _ = none

  unfoldable pub input_rate : Pricing F → ℤ → ServiceTier → F
  unfolding rate input_tier_rate
  input_rate p n tier =
      or_default
        (input_tier_rate p n tier
          <|> when (above n band_above_512k) (p input_cost_per_token_above_512k_tokens)
          <|> when (above n band_above_272k) (
              when (is_priority tier) (p input_cost_per_token_above_272k_tokens_priority)
              <|> p input_cost_per_token_above_272k_tokens)
          <|> when (above n band_above_256k) (p input_cost_per_token_above_256k_tokens)
          <|> when (above n band_above_200k) (
              when (is_priority tier) (p input_cost_per_token_above_200k_tokens_priority)
              <|> p input_cost_per_token_above_200k_tokens)
          <|> when (above n band_above_128k) (p input_cost_per_token_above_128k_tokens)
          <|> when (is_priority tier) (p input_cost_per_token_priority))
        (rate (p input_cost_per_token ∷ []))

  unfoldable pub output_tier_rate : Pricing F → ℤ → ServiceTier → Option F
  unfolding rate
  output_tier_rate p n fast = p output_cost_per_token_fast
  output_tier_rate p n flex =
      when (above n band_above_272k) (
        nonzero (
          rate (
            p output_cost_per_token_above_272k_tokens_flex
            ∷ p output_cost_per_token_flex_above_272k_tokens
            ∷ [])))
      <|> p output_cost_per_token_flex
  output_tier_rate p n batch =
      when (above n band_above_272k) (p output_cost_per_token_batches_above_272k_tokens)
      <|> p output_cost_per_token_batches
  output_tier_rate p n _ = none

  unfoldable pub output_rate : Pricing F → ℤ → ServiceTier → F
  unfolding rate output_tier_rate
  output_rate p n tier =
      or_default
        (output_tier_rate p n tier
          <|> when (above n band_above_512k) (p output_cost_per_token_above_512k_tokens)
          <|> when (above n band_above_272k) (
              when (is_priority tier) (p output_cost_per_token_above_272k_tokens_priority)
              <|> p output_cost_per_token_above_272k_tokens)
          <|> when (above n band_above_256k) (p output_cost_per_token_above_256k_tokens)
          <|> when (above n band_above_200k) (
              when (is_priority tier) (p output_cost_per_token_above_200k_tokens_priority)
              <|> p output_cost_per_token_above_200k_tokens)
          <|> when (above n band_above_128k) (p output_cost_per_token_above_128k_tokens)
          <|> when (is_priority tier) (p output_cost_per_token_priority))
        (rate (p output_cost_per_token ∷ []))

  unfoldable pub cache_read_tier_rate : Pricing F → ℤ → ServiceTier → Option F
  unfolding rate
  cache_read_tier_rate p n fast = p cache_read_input_token_cost_fast
  cache_read_tier_rate p n flex =
      when (above n band_above_272k) (
        nonzero (
          rate (
            p cache_read_input_token_cost_above_272k_tokens_flex
            ∷ p cache_read_input_token_cost_flex_above_272k_tokens
            ∷ [])))
      <|> p cache_read_input_token_cost_flex
  cache_read_tier_rate p n batch =
      when (above n band_above_272k) (p cache_read_input_token_cost_batches_above_272k_tokens)
      <|> p cache_read_input_token_cost_batches
  cache_read_tier_rate p n _ = none

  unfoldable pub cache_read_rate : Pricing F → ℤ → ServiceTier → F
  unfolding rate cache_read_tier_rate
  cache_read_rate p n tier =
      or_default
        (cache_read_tier_rate p n tier
          <|> when (above n band_above_512k) (p cache_read_input_token_cost_above_512k_tokens)
          <|> when (above n band_above_272k) (
              when (is_priority tier) (p cache_read_input_token_cost_above_272k_tokens_priority)
              <|> p cache_read_input_token_cost_above_272k_tokens)
          <|> when (above n band_above_200k) (
              when (is_priority tier) (p cache_read_input_token_cost_above_200k_tokens_priority)
              <|> p cache_read_input_token_cost_above_200k_tokens)
          <|> when (is_priority tier) (p cache_read_input_token_cost_priority))
        (rate (p cache_read_input_token_cost ∷ p input_cost_per_token_cache_hit ∷ []))

  -- The branch under `if longTTL`.
  unfoldable pub long_ttl_rate : Pricing F → ℤ → ServiceTier → Option F
  long_ttl_rate p n tier =
      when (is_fast tier) (p cache_creation_input_token_cost_above_1hr_fast)
      <|> when (is_batch tier) (p cache_creation_input_token_cost_batches_1h)
      <|> when (above n band_above_200k)
          (p cache_creation_input_token_cost_above_1hr_above_200k_tokens)
      <|> p cache_creation_input_token_cost_above_1hr

  unfoldable pub cache_creation_tier_rate : Pricing F → ℤ → ServiceTier → Option F
  unfolding rate
  cache_creation_tier_rate p n fast = p cache_creation_input_token_cost_fast
  cache_creation_tier_rate p n flex =
      when (above n band_above_272k) (
        nonzero (
          rate (
            p cache_creation_input_token_cost_above_272k_tokens_flex
            ∷ p cache_creation_input_token_cost_flex_above_272k_tokens
            ∷ [])))
      <|> p cache_creation_input_token_cost_flex
  cache_creation_tier_rate p n batch =
      when (above n band_above_272k) (p cache_creation_input_token_cost_batches_above_272k_tokens)
      <|> p cache_creation_input_token_cost_batches
  cache_creation_tier_rate p n _ = none

  unfoldable pub cache_creation_rate : Pricing F → ℤ → ServiceTier → Bool → F
  unfolding rate long_ttl_rate cache_creation_tier_rate
  cache_creation_rate p n tier long_ttl =
      or_default
        (when long_ttl (long_ttl_rate p n tier)
          <|> cache_creation_tier_rate p n tier
          <|> when (above n band_above_272k) (p cache_creation_input_token_cost_above_272k_tokens)
          <|> when (above n band_above_200k) (p cache_creation_input_token_cost_above_200k_tokens)
          <|> when (is_priority tier) (p cache_creation_input_token_cost_priority))
        (rate (p cache_creation_input_token_cost ∷ []))
