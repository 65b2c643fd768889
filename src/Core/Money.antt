-- ===== src/Core/Money.antt =====
-- internal/core/money.go: amounts in billionths of a dollar.
use diffractllm.Base.{
  Bool-cases, inl, inr, ℕ, ◌≤◌, ◌≡◌, Bool, false, ℤ, pos, ◌||◌, if◌then◌else◌, max_int64, arith,
}

-- What `ToNanoUSD` does with a `float64`.
pub record FloatMoney (F : Type 0) : Type 0 where
  -- math.IsNaN(v)
  pub is_nan : F → Bool
  -- v <= 0
  pub not_positive : F → Bool
  -- v * NanoUSD
  pub times_nano : F → F
  -- math.Round(v)
  pub round : F → F
  -- math.IsInf(v, 0)
  pub is_inf : F → Bool
  -- v >= maxNanoUSD
  pub at_max : F → Bool
  -- int64(v), of a value that fits
  pub truncate : F → ℤ

-- A positive amount that is no NaN, scaled and rounded, is a whole number from 0 on; where it is below
-- the largest int64, its conversion is that number.
pub record MoneyLaws {F : Type 0} (fm : FloatMoney F) : Type 0 where
  pub truncate-scaled :
      (v : F)
      → fm.is_nan v ≡ false
      → fm.not_positive v ≡ false
      → fm.at_max (fm.round (fm.times_nano v)) ≡ false
      → (n : ℕ) × (n ≤ max_int64) × (fm.truncate (fm.round (fm.times_nano v)) ≡ pos n)

module _ {F : Type 0} (fm : FloatMoney F) where
  unfoldable pub to_nano_usd : F → ℤ
  to_nano_usd usd =
      if fm.is_nan usd || fm.not_positive usd
      then pos 0
      else let nano = fm.round (fm.times_nano usd) in
        if fm.is_inf nano || fm.at_max nano then pos max_int64 else fm.truncate nano

  module _ (laws : MoneyLaws fm) where
    -- Whatever the amount, NaN and infinities included, the result is an int64 from 0 on.
    pub to_nano_usd-bounds : (usd : F) → (n : ℕ) × (n ≤ max_int64) × (to_nano_usd usd ≡ pos n)
    unfolding to_nano_usd
    to_nano_usd-bounds usd =
        let nano = fm.round (fm.times_nano usd) in
        elim (Bool-cases (fm.is_nan usd || fm.not_positive usd)) [
          | inl bad ↦ (0, omega arith, ground arith)
          | inr good ↦ elim (Bool-cases (fm.is_inf nano || fm.at_max nano)) [
            | inl over ↦ (max_int64, omega arith, ground arith)
            | inr fits ↦
                let (n, le, eq) =
                  laws.truncate-scaled usd (ground arith) (ground arith) (ground arith) in
                (n, le, ground (arith, eq))
          ]
        ]
