-- ===== src/Pricing/Tokens.antt =====
-- internal/core/pricing.go: which tokens of a request `costLines` bills at the plain rate.
use diffractllm.Base.{
  ℕ, ◌+◌, ◌-◌, ◌≤◌, ◌≡◌, none, some, pos, Bool, true, false, ap, ◌∙◌, ◌≤ℤ◌, max_int64, is_set, ◌||◌,
  if◌then◌else◌, sub64, sub_ℕ, arith,
}
use diffractllm.Pricing.Fields.{
  cache_read_input_token_cost, input_cost_per_token_cache_hit, input_cost_per_audio_token,
  input_cost_per_audio_token_priority, input_cost_per_image_token, output_cost_per_reasoning_token,
  output_cost_per_audio_token, output_cost_per_image_token, cache_read_input_token_cost_flex,
}
use diffractllm.Pricing.Float.{Float64}
use diffractllm.Pricing.Merge.{Pricing}
use diffractllm.Pricing.Usage.{Usage}
use diffractllm.Pricing.Tier.{flex, band_above_272k}
use diffractllm.Pricing.Rates.{cache_read_rate}
use diffractllm.Pricing.Cost.{floor_zero, less_if, uncached_input, plain_output}

-- Tokens of a kind that the price bills apart.
abbrev pub apart : Bool → ℕ → ℕ
apart b n = if b then n else 0

-- One `if b { n -= m }`, at a difference.
less_if_lem :
    (b : Bool) (i k m : ℕ)
    → i ≤ max_int64
    → k + m ≤ max_int64
    → less_if b (sub_ℕ i k) (pos m) ≡ sub_ℕ i (k + apart b m)
unfolding sub64
less_if_lem true i k m hi hk = ground arith
less_if_lem false i k m hi hk = ground arith

floor_zero_lem : (i k : ℕ) → floor_zero (sub_ℕ i k) ≡ pos (i - k)
floor_zero_lem i k = ground arith

apart-le : (b : Bool) (n : ℕ) → apart b n ≤ n
apart-le true n = omega arith
apart-le false n = omega arith

remainder_lem :
    (b c d : Bool) (i k l m : ℕ)
    → i ≤ max_int64
    → k + l + m ≤ max_int64
    → floor_zero (less_if d (less_if c (less_if b (pos i) (pos k)) (pos l)) (pos m))
      ≡ pos (i - (apart b k + apart c l + apart d m))
remainder_lem b c d i k l m hi h =
    ap (λ n. floor_zero (less_if d (less_if c (less_if b n (pos k)) (pos l)) (pos m))) whole
    ∙ ap (λ n. floor_zero (less_if d (less_if c n (pos l)) (pos m)))
        (less_if_lem b i 0 k hi (omega arith))
    ∙ ap (λ n. floor_zero (less_if d n (pos m)))
        (less_if_lem c i (0 + apart b k) l hi (omega (arith, apart-le b k)))
    ∙ ap floor_zero (
        less_if_lem d i (0 + apart b k + apart c l) m hi
          (omega (arith, apart-le b k, apart-le c l)))
    ∙ floor_zero_lem i (0 + apart b k + apart c l + apart d m)
    ∙ ap (λ n. pos (i - n)) (omega arith)
  where
    whole : pos i ≡ sub_ℕ i 0
    whole = ground arith

module _ {F : Type 0} (p : Pricing F) (u : Usage F) where
  -- The tokens billed at the input rate are the input less the cached, audio and image tokens that the
  -- price bills apart, and 0 where those are more. The counts are at least 0, and no sum overflows.
  pub uncached_input_lem :
      (input cached audio image : ℕ)
      → u.input_tokens ≡ pos input
      → u.cached_input_tokens ≡ pos cached
      → u.input_audio_tokens ≡ pos audio
      → u.input_image_tokens ≡ pos image
      → input ≤ max_int64
      → cached + audio + image ≤ max_int64
      → uncached_input p u
        ≡ pos (
            input
            - (apart
                  (is_set (p cache_read_input_token_cost)
                    || is_set (p input_cost_per_token_cache_hit))
                  cached
                + apart
                    (is_set (p input_cost_per_audio_token)
                      || is_set (p input_cost_per_audio_token_priority))
                    audio
                + apart (is_set (p input_cost_per_image_token)) image))
  unfolding uncached_input
  uncached_input_lem input cached audio image hi hc ha hm bi bs =
      simp (hi, hc, ha, hm) (remainder_lem _ _ _ input cached audio image bi bs)

  -- The tokens billed at the output rate are the output less the reasoning, audio and image tokens that
  -- the price bills apart, and 0 where those are more. The counts are at least 0, and no sum overflows.
  pub plain_output_lem :
      (output reasoning audio image : ℕ)
      → u.output_tokens ≡ pos output
      → u.reasoning_tokens ≡ pos reasoning
      → u.output_audio_tokens ≡ pos audio
      → u.output_image_tokens ≡ pos image
      → output ≤ max_int64
      → reasoning + audio + image ≤ max_int64
      → plain_output p u
        ≡ pos (
            output
            - (apart (is_set (p output_cost_per_reasoning_token)) reasoning
                + apart (is_set (p output_cost_per_audio_token)) audio
                + apart (is_set (p output_cost_per_image_token)) image))
  unfolding plain_output
  plain_output_lem output reasoning audio image ho hr ha hm bo bs =
      simp (ho, hr, ha, hm) (remainder_lem _ _ _ output reasoning audio image bo bs)

module _ {F : Type 0} (fl : Float64 F) (p : Pricing F) (u : Usage F) where
  -- Where a price has a cache price for the flex tier and none for the standard tier, a flex request of
  -- up to 272,000 input tokens pays for its cached tokens at that price, and the tokens that it pays
  -- for at the input rate are as many as if none had been cached.
  pub cached_billed_twice :
      (r : F)
      → p cache_read_input_token_cost ≡ none
      → p input_cost_per_token_cache_hit ≡ none
      → p cache_read_input_token_cost_flex ≡ some r
      → u.input_tokens ≤ℤ band_above_272k
      → (cache_read_rate fl p u.input_tokens flex ≡ r)
        × (uncached_input p u ≡ uncached_input p (record u { cached_input_tokens = pos 0 }))
  unfolding cache_read_rate uncached_input
  cached_billed_twice r base hit h n = (ground arith, simp (base, hit))
