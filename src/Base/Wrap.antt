-- ===== src/Base/Wrap.antt =====
-- Addition of `int64` is that of the integers modulo 2^64.
use diffractllm.Base.Int64.{ℤ, pos, negsuc, ◌+ℤ◌, ◌-ℤ◌, signed64, wrap64, add64, neg64}
use Prim.Native.Nat.{ℕ, ◌+◌, ◌-◌, ◌%◌, ◌<◌}
use mathlib.Core.Path.{◌≡◌, refl, ap, ◌∙◌, sym}
use native.Mathlib.Omega.{arith}

abbrev word : ℕ
word = 18446744073709551616

residue : ℤ → ℕ
residue (pos n) = n % word
residue (negsuc n) = word - 1 - n % word

residue-lt : (a : ℤ) → residue a < word
unfolding residue
residue-lt (pos n) = omega arith
residue-lt (negsuc n) = omega arith

wrap64-signed64 : (a : ℤ) → wrap64 a ≡ signed64 (residue a)
unfolding wrap64 residue
wrap64-signed64 (pos n) = refl
wrap64-signed64 (negsuc n) = refl

residue-signed64 : (r : ℕ) → r < word → residue (signed64 r) ≡ r
unfolding residue
residue-signed64 r h = ground arith

residue-add : (a b : ℤ) → residue (a +ℤ b) ≡ (residue a + residue b) % word
unfolding residue ◌+ℤ◌
residue-add (pos n) (pos m) = ground arith
residue-add (pos n) (negsuc m) = ground arith
residue-add (negsuc n) (pos m) = ground arith
residue-add (negsuc n) (negsuc m) = ground arith

residue-neg : (a : ℤ) → residue (pos 0 -ℤ a) ≡ (word - residue a) % word
unfolding residue ◌-ℤ◌
residue-neg (pos n) = ground arith
residue-neg (negsuc n) = ground arith

add64-signed64 : (a b : ℤ) → add64 a b ≡ signed64 ((residue a + residue b) % word)
unfolding add64
add64-signed64 a b = wrap64-signed64 (a +ℤ b) ∙ ap signed64 (residue-add a b)

add64-residue : (a b : ℤ) → residue (add64 a b) ≡ (residue a + residue b) % word
add64-residue a b = rw (add64-signed64 a b) (residue-signed64 _ (omega arith))

neg64-residue : (a : ℤ) → residue (neg64 a) ≡ (word - residue a) % word
unfolding neg64
neg64-residue a =
    rw (wrap64-signed64 (pos 0 -ℤ a), residue-neg a) (residue-signed64 _ (omega arith))

pub add64_assoc : (a b c : ℤ) → add64 (add64 a b) c ≡ add64 a (add64 b c)
add64_assoc a b c =
    add64-signed64 (add64 a b) c
    ∙ ap signed64 (omega (arith, add64-residue a b, add64-residue b c))
    ∙ sym (add64-signed64 a (add64 b c))

pub add64_comm : (a b : ℤ) → add64 a b ≡ add64 b a
add64_comm a b = add64-signed64 a b ∙ ap signed64 (omega arith) ∙ sym (add64-signed64 b a)

-- A value that was added and taken back leaves what an int64 held.
pub add64-neg64 : (a b : ℤ) → add64 (add64 a b) (neg64 b) ≡ wrap64 a
add64-neg64 a b =
    add64-signed64 (add64 a b) (neg64 b)
    ∙ ap signed64 (omega (arith, add64-residue a b, neg64-residue b, residue-lt a, residue-lt b))
    ∙ sym (wrap64-signed64 a)

pub add64-neg64_self : (a : ℤ) → add64 a (neg64 a) ≡ pos 0
add64-neg64_self a = add64-signed64 a (neg64 a) ∙ ap signed64 cancelled
  where
    cancelled : (residue a + residue (neg64 a)) % word ≡ 0
    cancelled = omega (arith, neg64-residue a, residue-lt a)

pub add64-zero : (a : ℤ) → add64 a (pos 0) ≡ wrap64 a
add64-zero a = add64-signed64 a (pos 0) ∙ ap signed64 same ∙ sym (wrap64-signed64 a)
  where
    same : (residue a + residue (pos 0)) % word ≡ residue a
    same = unfold residue in omega (arith, residue-lt a)

-- Adding 0 on the way changes nothing.
pub add64-add64-zero : (a b : ℤ) → add64 (add64 a (pos 0)) b ≡ add64 a b
unfolding residue
add64-add64-zero a b =
    add64-signed64 (add64 a (pos 0)) b ∙ ap signed64 same ∙ sym (add64-signed64 a b)
  where
    same : (residue (add64 a (pos 0)) + residue b) % word ≡ (residue a + residue b) % word
    same = omega (arith, add64-residue a (pos 0))

-- One more, counted on either side.
pub add64-pos_suc : (n : ℕ) (d : ℤ) → add64 (pos n) (add64 d (pos 1)) ≡ add64 (pos (n + 1)) d
add64-pos_suc n d =
    add64-signed64 (pos n) (add64 d (pos 1))
    ∙ ap signed64 same
    ∙ sym (add64-signed64 (pos (n + 1)) d)
  where
    same :
        (residue (pos n) + residue (add64 d (pos 1))) % word
        ≡ (residue (pos (n + 1)) + residue d) % word
    same = unfold residue in omega (arith, add64-residue d (pos 1), residue-lt d)
