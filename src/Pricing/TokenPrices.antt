-- ===== src/Pricing/TokenPrices.antt =====
-- internal/core/pricing.go: from which fields the tokens of a request are priced, by kind and by service tier.
use diffractllm.Base.{
  String, ◌≡◌, refl, Option, none, some, List, [], ◌∷◌, ℤ, Bool, true, false, ◌⊎◌, inl, inr, All,
  when, or_default, ◌<|>◌, arith,
}
use diffractllm.Pricing.Fields.{PriceField}
use diffractllm.Pricing.Fields
use diffractllm.Pricing.Float.{Float64, FloatLaws}
use diffractllm.Pricing.Merge.{Pricing}
use diffractllm.Pricing.Tier.{ServiceTier, standard, priority, flex, batch, fast}
use diffractllm.Pricing.Usage.{Usage}
use diffractllm.Pricing.Cost.{Charge, cost_lines}
use diffractllm.Pricing.Rates.{
  rate, nonzero, input_tier_rate, input_rate, output_tier_rate, output_rate, cache_read_tier_rate,
  cache_read_rate, cache_creation_tier_rate, cache_creation_rate, long_ttl_rate,
}

-- The fields that price the input tokens of a request in a tier: those without a tier, and those of the tier itself.
abbrev pub IsInputField : ServiceTier → PriceField → Type 0
IsInputField t Fields.input_cost_per_token = Unit {0}
IsInputField t Fields.input_cost_per_token_above_128k_tokens = Unit {0}
IsInputField t Fields.input_cost_per_token_above_200k_tokens = Unit {0}
IsInputField t Fields.input_cost_per_token_above_256k_tokens = Unit {0}
IsInputField t Fields.input_cost_per_token_above_272k_tokens = Unit {0}
IsInputField t Fields.input_cost_per_token_above_512k_tokens = Unit {0}
IsInputField priority Fields.input_cost_per_token_priority = Unit {0}
IsInputField priority Fields.input_cost_per_token_above_200k_tokens_priority = Unit {0}
IsInputField priority Fields.input_cost_per_token_above_272k_tokens_priority = Unit {0}
IsInputField flex Fields.input_cost_per_token_flex = Unit {0}
IsInputField flex Fields.input_cost_per_token_above_272k_tokens_flex = Unit {0}
IsInputField flex Fields.input_cost_per_token_flex_above_272k_tokens = Unit {0}
IsInputField batch Fields.input_cost_per_token_batches = Unit {0}
IsInputField batch Fields.input_cost_per_token_batches_above_272k_tokens = Unit {0}
IsInputField fast Fields.input_cost_per_token_fast = Unit {0}
IsInputField _ _ = ⊥

-- The same for its output tokens,
abbrev pub IsOutputField : ServiceTier → PriceField → Type 0
IsOutputField t Fields.output_cost_per_token = Unit {0}
IsOutputField t Fields.output_cost_per_token_above_128k_tokens = Unit {0}
IsOutputField t Fields.output_cost_per_token_above_200k_tokens = Unit {0}
IsOutputField t Fields.output_cost_per_token_above_256k_tokens = Unit {0}
IsOutputField t Fields.output_cost_per_token_above_272k_tokens = Unit {0}
IsOutputField t Fields.output_cost_per_token_above_512k_tokens = Unit {0}
IsOutputField priority Fields.output_cost_per_token_priority = Unit {0}
IsOutputField priority Fields.output_cost_per_token_above_200k_tokens_priority = Unit {0}
IsOutputField priority Fields.output_cost_per_token_above_272k_tokens_priority = Unit {0}
IsOutputField flex Fields.output_cost_per_token_flex = Unit {0}
IsOutputField flex Fields.output_cost_per_token_above_272k_tokens_flex = Unit {0}
IsOutputField flex Fields.output_cost_per_token_flex_above_272k_tokens = Unit {0}
IsOutputField batch Fields.output_cost_per_token_batches = Unit {0}
IsOutputField batch Fields.output_cost_per_token_batches_above_272k_tokens = Unit {0}
IsOutputField fast Fields.output_cost_per_token_fast = Unit {0}
IsOutputField _ _ = ⊥

-- for the input tokens that were read from a cache,
abbrev pub IsCacheReadField : ServiceTier → PriceField → Type 0
IsCacheReadField t Fields.cache_read_input_token_cost = Unit {0}
IsCacheReadField t Fields.cache_read_input_token_cost_above_200k_tokens = Unit {0}
IsCacheReadField t Fields.cache_read_input_token_cost_above_272k_tokens = Unit {0}
IsCacheReadField t Fields.cache_read_input_token_cost_above_512k_tokens = Unit {0}
IsCacheReadField t Fields.input_cost_per_token_cache_hit = Unit {0}
IsCacheReadField priority Fields.cache_read_input_token_cost_priority = Unit {0}
IsCacheReadField priority Fields.cache_read_input_token_cost_above_200k_tokens_priority = Unit {0}
IsCacheReadField priority Fields.cache_read_input_token_cost_above_272k_tokens_priority = Unit {0}
IsCacheReadField flex Fields.cache_read_input_token_cost_flex = Unit {0}
IsCacheReadField flex Fields.cache_read_input_token_cost_above_272k_tokens_flex = Unit {0}
IsCacheReadField flex Fields.cache_read_input_token_cost_flex_above_272k_tokens = Unit {0}
IsCacheReadField batch Fields.cache_read_input_token_cost_batches = Unit {0}
IsCacheReadField batch Fields.cache_read_input_token_cost_batches_above_272k_tokens = Unit {0}
IsCacheReadField fast Fields.cache_read_input_token_cost_fast = Unit {0}
IsCacheReadField _ _ = ⊥

-- and for those that were written to one.
abbrev pub IsCacheWriteField : ServiceTier → PriceField → Type 0
IsCacheWriteField t Fields.cache_creation_input_token_cost = Unit {0}
IsCacheWriteField t Fields.cache_creation_input_token_cost_above_200k_tokens = Unit {0}
IsCacheWriteField t Fields.cache_creation_input_token_cost_above_272k_tokens = Unit {0}
IsCacheWriteField t Fields.cache_creation_input_token_cost_above_1hr = Unit {0}
IsCacheWriteField t Fields.cache_creation_input_token_cost_above_1hr_above_200k_tokens = Unit {0}
IsCacheWriteField priority Fields.cache_creation_input_token_cost_priority = Unit {0}
IsCacheWriteField flex Fields.cache_creation_input_token_cost_flex = Unit {0}
IsCacheWriteField flex Fields.cache_creation_input_token_cost_above_272k_tokens_flex = Unit {0}
IsCacheWriteField flex Fields.cache_creation_input_token_cost_flex_above_272k_tokens = Unit {0}
IsCacheWriteField batch Fields.cache_creation_input_token_cost_batches = Unit {0}
IsCacheWriteField batch Fields.cache_creation_input_token_cost_batches_above_272k_tokens = Unit {0}
IsCacheWriteField batch Fields.cache_creation_input_token_cost_batches_1h = Unit {0}
IsCacheWriteField fast Fields.cache_creation_input_token_cost_fast = Unit {0}
IsCacheWriteField fast Fields.cache_creation_input_token_cost_above_1hr_fast = Unit {0}
IsCacheWriteField _ _ = ⊥

-- What is returned, if anything is, stands in a field of the family.
abbrev IsListed : {F : Type 0} → (PriceField → Type 0) → Pricing F → Option F → Type 0
IsListed {F} Fam p o = (r : F) → o ≡ some r → (f : PriceField) × Fam f × (p f ≡ some r)

-- A rate is 0, or stands in a field of the family.
abbrev pub IsPriced : {F : Type 0} → Float64 F → (PriceField → Type 0) → Pricing F → F → Type 0
IsPriced fl Fam p r = (r ≡ fl.zero) ⊎ ((f : PriceField) × Fam f × (p f ≡ some r))

module _ {F : Type 0} (fl : Float64 F) (laws : FloatLaws fl) (p : Pricing F)
    (Fam : PriceField → Type 0) where
  IsListed-field : (f : PriceField) → Fam f → IsListed Fam p (p f)
  IsListed-field f of_family r e = (f, of_family, e)

  IsListed-none : IsListed Fam p none
  IsListed-none r e = cc

  IsListed-or : (a b : Option F) → IsListed Fam p a → IsListed Fam p b → IsListed Fam p (a <|> b)
  IsListed-or none b ha hb = hb
  IsListed-or (some x) b ha hb = ha

  IsListed-when : (b : Bool) (o : Option F) → IsListed Fam p o → IsListed Fam p (when b o)
  IsListed-when true o h = h
  IsListed-when false o h = IsListed-none

  IsListed-nonzero : (v : F) → IsPriced fl Fam p v → IsListed Fam p (nonzero fl v)
  IsListed-nonzero v (inr h) r e = (h.0, h.1, ground (arith, h.2))
  IsListed-nonzero v (inl h) r e = absurd (ground (arith, laws.is_zero-zero))

  IsPriced-or :
      (o : Option F) (d : F)
      → IsListed Fam p o
      → IsPriced fl Fam p d
      → IsPriced fl Fam p (or_default o d)
  IsPriced-or none d ho hd = hd
  IsPriced-or (some x) d ho hd = inr (ho x refl)

  IsPriced-rate : (os : List (Option F)) → All (IsListed Fam p) os → IsPriced fl Fam p (rate fl os)
  unfolding rate
  IsPriced-rate [] h = inl refl
  IsPriced-rate (o ∷ os) h = IsPriced-or o (rate fl os) h.0 (IsPriced-rate os h.1)

  ruleset listed = (
    IsListed-field, IsListed-none, IsListed-or, IsListed-when, IsListed-nonzero, IsPriced-or,
    IsPriced-rate,
  )

module _ {F : Type 0} (fl : Float64 F) (laws : FloatLaws fl) (p : Pricing F) where
  input_rate-IsPriced :
      (n : ℤ) (t : ServiceTier) → IsPriced fl (IsInputField t) p (input_rate fl p n t)
  unfolding input_rate input_tier_rate
  input_rate-IsPriced n standard = search (listed, laws) depth 30
  input_rate-IsPriced n priority = search (listed, laws) depth 30
  input_rate-IsPriced n flex = search (listed, laws) depth 30
  input_rate-IsPriced n batch = search (listed, laws) depth 30
  input_rate-IsPriced n fast = search (listed, laws) depth 30

  output_rate-IsPriced :
      (n : ℤ) (t : ServiceTier) → IsPriced fl (IsOutputField t) p (output_rate fl p n t)
  unfolding output_rate output_tier_rate
  output_rate-IsPriced n standard = search (listed, laws) depth 30
  output_rate-IsPriced n priority = search (listed, laws) depth 30
  output_rate-IsPriced n flex = search (listed, laws) depth 30
  output_rate-IsPriced n batch = search (listed, laws) depth 30
  output_rate-IsPriced n fast = search (listed, laws) depth 30

  cache_read_rate-IsPriced :
      (n : ℤ) (t : ServiceTier) → IsPriced fl (IsCacheReadField t) p (cache_read_rate fl p n t)
  unfolding cache_read_rate cache_read_tier_rate
  cache_read_rate-IsPriced n standard = search (listed, laws) depth 30
  cache_read_rate-IsPriced n priority = search (listed, laws) depth 30
  cache_read_rate-IsPriced n flex = search (listed, laws) depth 30
  cache_read_rate-IsPriced n batch = search (listed, laws) depth 30
  cache_read_rate-IsPriced n fast = search (listed, laws) depth 30

  cache_creation_rate-IsPriced :
      (n : ℤ) (t : ServiceTier) (long_ttl : Bool)
      → IsPriced fl (IsCacheWriteField t) p (cache_creation_rate fl p n t long_ttl)
  unfolding cache_creation_rate cache_creation_tier_rate long_ttl_rate
  cache_creation_rate-IsPriced n standard long_ttl = search (listed, laws) depth 30
  cache_creation_rate-IsPriced n priority long_ttl = search (listed, laws) depth 30
  cache_creation_rate-IsPriced n flex long_ttl = search (listed, laws) depth 30
  cache_creation_rate-IsPriced n batch long_ttl = search (listed, laws) depth 30
  cache_creation_rate-IsPriced n fast long_ttl = search (listed, laws) depth 30

  -- A line of the bill for tokens of a kind, with its price.
  abbrev pub IsTokenLine : (PriceField → Type 0) → String → Charge F → Type 0
  IsTokenLine Fam item line =
      (line.item ≡ item) × (line.unit ≡ "token") × IsPriced fl Fam p line.unit_cost

  -- The bill starts with the lines for the tokens of the input, of the output, read from a cache and written to one.
  -- The price of each is 0 or stands in a field for just that kind of token, which belongs to no tier or to
  -- the tier of the request: no request pays the price of another kind or of another tier. 0 is zero.
  pub cost_lines-IsPriced :
      (u : Usage F)
      → (input : Charge F) × (output : Charge F) × (read : Charge F) × (write : Charge F)
        × (rest : List (Charge F)) × (cost_lines fl p u ≡ input ∷ output ∷ read ∷ write ∷ rest)
        × IsTokenLine (IsInputField u.tier) "input" input
        × IsTokenLine (IsOutputField u.tier) "output" output
        × IsTokenLine (IsCacheReadField u.tier) "input_cache_read" read
        × IsTokenLine (IsCacheWriteField u.tier) "input_cache_write" write
  unfolding cost_lines
  cost_lines-IsPriced u = (
    _,
    _,
    _,
    _,
    _,
    refl,
    (refl, refl, input_rate-IsPriced u.input_tokens u.tier),
    (refl, refl, output_rate-IsPriced u.input_tokens u.tier),
    (refl, refl, cache_read_rate-IsPriced u.input_tokens u.tier),
    (refl, refl, cache_creation_rate-IsPriced u.input_tokens u.tier u.cache_long_ttl),
  )
