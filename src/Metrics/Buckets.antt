-- ===== src/Metrics/Buckets.antt =====
-- internal/metrics-engine/metrics-engine.go and duckdb-reads.go: the buckets of a range of time.
use native.Mathlib.Omega.{div_any}
use native.Mathlib.Nat.{div-lt_iff_lt-mul}
use diffractllm.Base.{
  suc, ◌∙◌, ◌-ℤ◌, ◌+ℤ◌, ◌-◌, ℕ, ◌*◌, ◌/◌, ◌+◌, ◌≤◌, ◌<◌, ◌≡◌, refl, ℤ, pos, arith, max_int64, sub64,
  add64, sub64-eq, add64-eq,
}
use diffractllm.Governance.Budget.{time_sub}
use diffractllm.Metrics.Queries.{bucket_for, day, bucket_start, bucket_index}

-- Every bucket is a whole number of microseconds.
bucket_for-micros : (r : ℤ) → (us : ℕ) × (1 ≤ us) × (bucket_for r ≡ us * 1_000)
unfolding bucket_for
bucket_for-micros r = (bucket_for r / 1_000, ground arith, ground arith)

bucket_for-le : (r : ℤ) → bucket_for r ≤ 30 * day
unfolding bucket_for
bucket_for-le r = ground arith

-- A range below twelve years has less than 144 whole buckets.
pub bucket_for-few : (n : ℕ) → n < 4_320 * day → n / bucket_for (pos n) < 144
unfolding bucket_for
bucket_for-few n lt = ground arith

pos-ℤ-pos : (a b : ℕ) → b ≤ a → pos a -ℤ pos b ≡ pos (a - b)
unfolding ◌-ℤ◌
pos-ℤ-pos a b le = ground arith

time_sub-pos : (t s : ℕ) → s ≤ t → t ≤ max_int64 → time_sub (pos t) (pos s) ≡ pos (t - s)
unfolding time_sub
time_sub-pos t s le small = rw (pos-ℤ-pos t s le) (ground arith)

sub64-pos : (a b : ℕ) → b ≤ a → a ≤ max_int64 → sub64 (pos a) (pos b) ≡ pos (a - b)
sub64-pos a b le small =
    sub64-eq (pos a) (pos b) (rw (pos-ℤ-pos a b le) (omega arith, omega arith)) ∙ pos-ℤ-pos a b le

add64-pos : (a b : ℕ) → a + b ≤ max_int64 → add64 (pos a) (pos b) ≡ pos (a + b)
unfolding ◌+ℤ◌
add64-pos a b small =
    let exact : pos a +ℤ pos b ≡ pos (a + b) = ground arith in
    add64-eq (pos a) (pos b) (rw exact (omega arith, omega arith)) ∙ exact

-- A microsecond below `n` buckets lies in one of them.
index-lt :
    (x t s b : ℕ)
    → 1 ≤ b
    → s ≤ x / 1_000
    → x < t
    → (x / 1_000 - s) / b < (t - s * 1_000 + b * 1_000 - 1) / (b * 1_000)
index-lt x t s b some_b le lt =
    let q = (x / 1_000 - s) / b in
    let n = t - s * 1_000 + b * 1_000 - 1 in
    let below : q * b ≤ x / 1_000 - s = omega (arith, div_any (x / 1_000 - s) b) in
    let over : ¬ (n < suc q * (b * 1_000)) = omega (arith, below) in
    let not_lt : ¬ (n / (b * 1_000) < suc q) =
      λ h. over ((div-lt_iff_lt-mul {k = b * 1_000} {x = n} {y = suc q} (omega arith)).0 h) in
    omega (arith, not_lt)

floor-le : (f x b : ℕ) → f ≤ x → f / 1_000 / b * b ≤ x / 1_000
floor-le f x b le = omega (arith, div_any (f / 1_000) b)

-- The two results and the index, for a bucket of `b` microseconds.
module _ (b f t x : ℕ) (some_b : 1 ≤ b) (le : f ≤ x) (lt : x < t)
    (small : t + b * 1_000 ≤ max_int64) where
  abbrev first_us : ℕ
  first_us = f / 1_000 / b * b

  whole : b * 1_000 / 1_000 ≡ b
  whole = omega arith

  first_us-le : first_us * 1_000 ≤ t
  first_us-le = omega (arith, floor-le f x b le)

  bucket_start-eq :
      bucket_start (pos f) (pos t) (b * 1_000)
      ≡ (pos (first_us * 1_000), pos ((t - first_us * 1_000 + b * 1_000 - 1) / (b * 1_000)))
  unfolding bucket_start
  bucket_start-eq =
      rw
        (
          whole,
          time_sub-pos t (first_us * 1_000) first_us-le (omega arith),
          add64-pos (t - first_us * 1_000) (b * 1_000) (omega (arith, small)),
          sub64-pos (t - first_us * 1_000 + b * 1_000) 1 (omega arith) (omega (arith, small)),
        )
        refl

  bucket_index-eq :
      bucket_index (pos (first_us * 1_000)) (b * 1_000) (pos x) ≡ pos ((x / 1_000 - first_us) / b)
  unfolding bucket_index
  bucket_index-eq =
      let exact : first_us * 1_000 / 1_000 ≡ first_us = omega arith in
      rw (whole, exact, sub64-pos (x / 1_000) first_us (floor-le f x b le) (omega arith)) refl

-- Each event of a range of time falls into one of the buckets that a query makes room for, so that the write
-- to `Points` is within bounds. The instants lie between 1970 and 2262.
pub bucket_index-bounds :
    (r : ℤ) (from to at : ℕ)
    → from ≤ at
    → at < to
    → to + 30 * day ≤ max_int64
    → let (start, n) = bucket_start (pos from) (pos to) (bucket_for r) in
      (i : ℕ) × (m : ℕ) × (bucket_index start (bucket_for r) (pos at) ≡ pos i)
      × (n ≡ pos m)
      × (i < m)
bucket_index-bounds r from to at le lt small =
    let (b, some_b, eq) = bucket_for-micros r in
    let fits : to + b * 1_000 ≤ max_int64 = omega (arith, eq, bucket_for-le r) in
    rw (eq, bucket_start-eq b from to at some_b le lt fits)
      (
        (at / 1_000 - first_us b from to at some_b le lt fits) / b,
        (to - first_us b from to at some_b le lt fits * 1_000 + b * 1_000 - 1) / (b * 1_000),
        bucket_index-eq b from to at some_b le lt fits,
        refl,
        index-lt at to (first_us b from to at some_b le lt fits) b some_b (floor-le from at b le)
            lt,
      )
