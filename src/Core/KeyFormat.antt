-- ===== src/Core/KeyFormat.antt =====
-- internal/core/virtualkey-format.go: the text of a virtual key, as bytes, and the functions of Go's
-- `hash/crc32` and of the conversion to bytes that it uses.
pub mod Laws
use Prim.Native.Char.{Char, code}
use diffractllm.Base.{
  ℕ, zero, suc, ◌+◌, ◌-◌, ◌*◌, ◌/◌, ◌%◌, ◌^◌, Bool, true, false, not, ◌&&◌, ◌||◌, String, Option,
  none, some, List, [], ◌∷◌, ◌++◌, leb, ltb, ◌==◌, if◌then◌else◌, length, take,
}

-- The bytes of a code point in UTF-8.
unfoldable pub utf8 : ℕ → List ℕ
utf8 c =
    if ltb c 128
    then c ∷ []
    else if ltb c 2_048
    then (192 + c / 64) ∷ (128 + c % 64) ∷ []
    else if ltb c 65_536
    then (224 + c / 4_096) ∷ (128 + c / 64 % 64) ∷ (128 + c % 64) ∷ []
    else (240 + c / 262_144) ∷ (128 + c / 4_096 % 64) ∷ (128 + c / 64 % 64) ∷ (128 + c % 64) ∷ []

-- A Go string is its bytes.
unfoldable pub bytes_of : String → List ℕ
unfolding utf8
bytes_of String.[] = []
bytes_of (String.◌∷◌ c s) = utf8 (code c) ++ bytes_of s

-- `"dk-"`
abbrev pub dk_prefix : List ℕ
dk_prefix = 100 ∷ 107 ∷ 45 ∷ []

abbrev pub dk_total_len : ℕ
dk_total_len = 25

abbrev pub dk_payload_len : ℕ
dk_payload_len = 18

abbrev pub dk_checksum_len : ℕ
dk_checksum_len = 4

abbrev pub dk_checksum_mod : ℕ
dk_checksum_mod = 62 * 62 * 62 * 62

-- The byte of `base62Chars` at an index below 62: the digits, the capitals, the small letters.
unfoldable pub base62_char : ℕ → ℕ
base62_char d = if ltb d 10 then 48 + d else if ltb d 36 then 55 + d else 61 + d

-- The loop of `base62Encode`, the least significant digit first.
unfoldable pub base62_digits : ℕ → ℕ → List ℕ
unfolding base62_char
base62_digits zero n = []
base62_digits (suc length) n = base62_char (n % 62) ∷ base62_digits length (n / 62)

-- The swaps of the second loop.
unfoldable pub reverse_onto : List ℕ → List ℕ → List ℕ
reverse_onto [] acc = acc
reverse_onto (x ∷ xs) acc = reverse_onto xs (x ∷ acc)

unfoldable pub base62_encode : ℕ → ℕ → List ℕ
unfolding base62_digits reverse_onto
base62_encode n length = reverse_onto (base62_digits length n) []

-- `a ^ b` on words of `width` bits.
unfoldable pub xor_bits : ℕ → ℕ → ℕ → ℕ
xor_bits zero a b = 0
xor_bits (suc width) a b = (if a % 2 == b % 2 then 0 else 1) + 2 * xor_bits width (a / 2) (b / 2)

unfoldable pub crc32_shift : ℕ → ℕ → ℕ
unfolding xor_bits
crc32_shift zero crc = crc
crc32_shift (suc n) crc =
    let next = if crc % 2 == 1 then xor_bits 32 (crc / 2) 3_988_292_384 else crc / 2 in
    crc32_shift n next

unfoldable pub crc32_update : ℕ → List ℕ → ℕ
unfolding crc32_shift
crc32_update crc [] = crc
crc32_update crc (byte ∷ bytes) = crc32_update (crc32_shift 8 (xor_bits 32 crc byte)) bytes

-- `crc32.ChecksumIEEE`
unfoldable pub checksum_ieee : List ℕ → ℕ
unfolding crc32_update
checksum_ieee bytes = xor_bits 32 (crc32_update 4_294_967_295 bytes) 4_294_967_295

-- `n.SetBytes(raw)`, big-endian.
unfoldable pub set_bytes : ℕ → List ℕ → ℕ
set_bytes n [] = n
set_bytes n (byte ∷ bytes) = set_bytes (n * 256 + byte) bytes

pub record GeneratedKey : Type 0 where
  pub apikey : List ℕ
  pub hash : String
  pub prefix : List ℕ

-- `raw` is what `rand.Reader` gave, `none` where it failed; `sha256_hex` is the hash of the package
-- crypto/sha256, in hex.
unfoldable pub generate_virtual_key : (List ℕ → String) → Option (List ℕ) → Option GeneratedKey
unfolding set_bytes
generate_virtual_key sha256_hex none = none
generate_virtual_key sha256_hex (some raw) =
    let prefix_part = dk_prefix ++ base62_encode (set_bytes 0 raw) dk_payload_len in
    let checksum = base62_encode (checksum_ieee prefix_part % dk_checksum_mod) dk_checksum_len in
    let apikey = prefix_part ++ checksum in
    some (record { apikey = apikey; hash = sha256_hex apikey; prefix = take 11 apikey })

unfoldable pub is_base62_char : ℕ → Bool
is_base62_char c = leb 48 c && leb c 57 || leb 65 c && leb c 90 || leb 97 c && leb c 122

-- The loop of `ValidateKeySignature`.
unfoldable pub all_base62 : List ℕ → Bool
unfolding is_base62_char
all_base62 [] = true
all_base62 (c ∷ cs) = if not (is_base62_char c) then false else all_base62 cs

unfoldable pub drop : ℕ → List ℕ → List ℕ
drop zero xs = xs
drop (suc n) [] = []
drop (suc n) (x ∷ xs) = drop n xs

unfoldable pub same_bytes : List ℕ → List ℕ → Bool
same_bytes [] [] = true
same_bytes (x ∷ xs) (y ∷ ys) = x == y && same_bytes xs ys
same_bytes _ _ = false

unfoldable pub validate_key_signature : List ℕ → Bool
unfolding drop same_bytes
validate_key_signature api_key =
    if not (length api_key == dk_total_len)
    then false
    else if not (same_bytes (take (length dk_prefix) api_key) dk_prefix)
    then false
    else if not (all_base62 (drop (length dk_prefix) api_key))
    then false
    else let payload = take (length dk_prefix + dk_payload_len) api_key in
      let checksum = checksum_ieee payload % dk_checksum_mod in
      same_bytes (drop (length dk_prefix + dk_payload_len) api_key)
        (base62_encode checksum dk_checksum_len)
