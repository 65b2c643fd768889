-- ===== src/Core/KeyFormat/Laws.antt =====
-- internal/core/virtualkey-format.go: a key that was generated validates.
use diffractllm.Base.{
  ℕ, zero, suc, ◌+◌, ◌%◌, ◌/◌, ◌≡◌, refl, sym, ap, ◌∙◌, true, String, some, List, [], ◌∷◌, ◌++◌,
  length, take, length-append, arith,
}
use diffractllm.Core.KeyFormat.{
  dk_prefix, dk_payload_len, dk_checksum_len, dk_checksum_mod, base62_char, base62_digits,
  reverse_onto, base62_encode, checksum_ieee, set_bytes, GeneratedKey, generate_virtual_key,
  is_base62_char, all_base62, drop, same_bytes, validate_key_signature,
}

length-base62_digits : (n k : ℕ) → length (base62_digits k n) ≡ k
unfolding base62_digits
length-base62_digits n zero = refl
length-base62_digits n (suc k) = ap suc (length-base62_digits (n / 62) k)

length-reverse_onto : (xs acc : List ℕ) → length (reverse_onto xs acc) ≡ length xs + length acc
unfolding reverse_onto
length-reverse_onto [] acc = omega arith
length-reverse_onto (x ∷ xs) acc = omega (arith, length-reverse_onto xs (x ∷ acc))

length-base62_encode : (n k : ℕ) → length (base62_encode n k) ≡ k
unfolding base62_encode
length-base62_encode n k =
    omega (arith, length-reverse_onto (base62_digits k n) [], length-base62_digits n k)

base62_char-is_base62_char : (n : ℕ) → is_base62_char (base62_char (n % 62)) ≡ true
unfolding is_base62_char base62_char
base62_char-is_base62_char n = ground arith

all_base62-base62_digits : (n k : ℕ) → all_base62 (base62_digits k n) ≡ true
unfolding all_base62 base62_digits
all_base62-base62_digits n zero = refl
all_base62-base62_digits n (suc k) =
    ground (arith, base62_char-is_base62_char n, all_base62-base62_digits (n / 62) k)

all_base62-reverse_onto :
    (xs acc : List ℕ)
    → all_base62 xs ≡ true
    → all_base62 acc ≡ true
    → all_base62 (reverse_onto xs acc) ≡ true
unfolding all_base62 reverse_onto
all_base62-reverse_onto [] acc h k = k
all_base62-reverse_onto (x ∷ xs) acc h k =
    all_base62-reverse_onto xs (x ∷ acc) (ground (arith, h)) (ground (arith, h, k))

all_base62-base62_encode : (n k : ℕ) → all_base62 (base62_encode n k) ≡ true
unfolding base62_encode
all_base62-base62_encode n k =
    all_base62-reverse_onto (base62_digits k n) [] (all_base62-base62_digits n k)
      (unfold all_base62 in refl)

all_base62-append :
    (xs ys : List ℕ) → all_base62 xs ≡ true → all_base62 ys ≡ true → all_base62 (xs ++ ys) ≡ true
unfolding all_base62
all_base62-append [] ys h k = k
all_base62-append (x ∷ xs) ys h k = ground (arith, h, all_base62-append xs ys (ground (arith, h)) k)

take-append : (n : ℕ) (xs ys : List ℕ) → length xs ≡ n → take n (xs ++ ys) ≡ xs
take-append zero [] ys h = refl
take-append zero (x ∷ xs) ys h = absurd (omega arith)
take-append (suc n) [] ys h = absurd (omega arith)
take-append (suc n) (x ∷ xs) ys h = ap (λ l. x ∷ l) (take-append n xs ys (omega arith))

drop-append : (n : ℕ) (xs ys : List ℕ) → length xs ≡ n → drop n (xs ++ ys) ≡ ys
unfolding drop
drop-append zero [] ys h = refl
drop-append zero (x ∷ xs) ys h = absurd (omega arith)
drop-append (suc n) [] ys h = absurd (omega arith)
drop-append (suc n) (x ∷ xs) ys h = drop-append n xs ys (omega arith)

same_bytes_refl : (xs : List ℕ) → same_bytes xs xs ≡ true
unfolding same_bytes
same_bytes_refl [] = refl
same_bytes_refl (x ∷ xs) = ground (arith, same_bytes_refl xs)

validate_key_signature_lem :
    (payload sum : List ℕ)
    → length payload ≡ dk_payload_len
    → length sum ≡ dk_checksum_len
    → all_base62 payload ≡ true
    → all_base62 sum ≡ true
    → sum ≡ base62_encode (checksum_ieee (dk_prefix ++ payload) % dk_checksum_mod) dk_checksum_len
    → validate_key_signature (dk_prefix ++ payload ++ sum) ≡ true
unfolding validate_key_signature
validate_key_signature_lem payload sum lp ls cp cs e =
    let whole : length (payload ++ sum) ≡ 22 = omega (arith, length-append payload sum) in
    let chars = all_base62-append payload sum cp cs in
    let part = take-append 18 payload sum lp in
    let rest = drop-append 18 payload sum lp in
    rw (whole, chars, part, rest) (ap (same_bytes sum) (sym e) ∙ same_bytes_refl sum)

-- Every key that is generated, from whatever random bytes, is accepted by the signature check.
pub validate_key_signature-generate_virtual_key :
    (sha256_hex : List ℕ → String) (raw : List ℕ) (key : GeneratedKey)
    → generate_virtual_key sha256_hex (some raw) ≡ some key
    → validate_key_signature key.apikey ≡ true
unfolding generate_virtual_key
validate_key_signature-generate_virtual_key sha256_hex raw key h =
    let payload = base62_encode (set_bytes 0 raw) dk_payload_len in
    let sum =
      base62_encode (checksum_ieee (dk_prefix ++ payload) % dk_checksum_mod) dk_checksum_len in
    let made : key.apikey ≡ dk_prefix ++ payload ++ sum = ground arith in
    ap validate_key_signature made
    ∙ validate_key_signature_lem payload sum (length-base62_encode (set_bytes 0 raw) dk_payload_len)
        (length-base62_encode (checksum_ieee (dk_prefix ++ payload) % dk_checksum_mod)
          dk_checksum_len)
        (all_base62-base62_encode (set_bytes 0 raw) dk_payload_len)
        (all_base62-base62_encode (checksum_ieee (dk_prefix ++ payload) % dk_checksum_mod)
          dk_checksum_len)
        refl
