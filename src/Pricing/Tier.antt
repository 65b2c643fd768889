-- ===== src/Pricing/Tier.antt =====
-- internal/core/pricing.go: `ServiceTier`, its names, and the bands of request size.
use diffractllm.Base.{◌≡◌, refl, Bool, true, false, String, ◌||◌, ℤ, pos, ltb_ℤ, if◌then◌else◌}
use text.Mathlib.Text.{◌==◌}

pub data ServiceTier : Type 0 where
  standard priority flex batch fast : ServiceTier

abbrev pub band_above_128k : ℤ
band_above_128k = pos 128_000

abbrev pub band_above_200k : ℤ
band_above_200k = pos 200_000

abbrev pub band_above_256k : ℤ
band_above_256k = pos 256_000

abbrev pub band_above_272k : ℤ
band_above_272k = pos 272_000

abbrev pub band_above_512k : ℤ
band_above_512k = pos 512_000

-- `n > band`
abbrev pub above : ℤ → ℤ → Bool
above n band = ltb_ℤ band n

-- `tier == TierPriority`
abbrev pub is_priority : ServiceTier → Bool
is_priority priority = true
is_priority _ = false

-- `tier == TierFast`
abbrev pub is_fast : ServiceTier → Bool
is_fast fast = true
is_fast _ = false

-- `tier == TierBatch`
abbrev pub is_batch : ServiceTier → Bool
is_batch batch = true
is_batch _ = false

unfoldable pub tier_string : ServiceTier → String
tier_string priority = "priority"
tier_string flex = "flex"
tier_string batch = "batch"
tier_string fast = "fast"
tier_string standard = "standard"

unfoldable pub parse_service_tier : String → ServiceTier
parse_service_tier value =
    if value == "priority"
    then priority
    else if value == "flex"
    then flex
    else if value == "batch" || value == "batches"
    then batch
    else if value == "fast"
    then fast
    else standard

-- Every tier is read back from its name.
pub parse_service_tier-tier_string : (t : ServiceTier) → parse_service_tier (tier_string t) ≡ t
unfolding parse_service_tier tier_string
parse_service_tier-tier_string standard = refl
parse_service_tier-tier_string _ = refl
