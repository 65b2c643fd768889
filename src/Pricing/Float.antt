-- ===== src/Pricing/Float.antt =====
-- Go's `float64`, as far as internal/core/pricing.go and money.go use it: a type with its operations.
-- What the theorems assume of it is in `FloatLaws`: the laws of finite values, the two zeros being one.
use diffractllm.Base.{ℕ, ◌≡◌, Bool, true, ℤ}

pub record Float64 (F : Type 0) : Type 0 where
  pub zero : F
  pub add : F → F → F
  pub mul : F → F → F
  -- float64(n) of an int64
  pub of_int64 : ℤ → F
  -- v == 0
  pub is_zero : F → Bool
  -- v > n for a constant n
  pub exceeds : F → ℕ → Bool

pub record FloatLaws {F : Type 0} (fl : Float64 F) : Type 0 where
  pub is_zero-zero : fl.is_zero fl.zero ≡ true
  pub add-zero : (x z : F) → fl.is_zero z ≡ true → fl.add x z ≡ x
  pub mul-zero : (x z : F) → fl.is_zero z ≡ true → fl.is_zero (fl.mul x z) ≡ true
  pub zero-mul : (z x : F) → fl.is_zero z ≡ true → fl.is_zero (fl.mul z x) ≡ true
