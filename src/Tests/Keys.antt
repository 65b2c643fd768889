-- ===== src/Tests/Keys.antt =====
-- internal/core/virtualkey-format.go and internal/governance/virtualkey.go at concrete keys.
use diffractllm.Tests.Samples.{key_text, virtual_key}
use diffractllm.Base.{ℕ, ◌≡◌, refl, List, [], ◌∷◌, String, some, Option, true}
use diffractllm.Core.KeyFormat.{
  generate_virtual_key, GeneratedKey, base62_encode, validate_key_signature, checksum_ieee,
}
use diffractllm.Core.KeyFormat.Laws.{validate_key_signature-generate_virtual_key}
use diffractllm.Governance.KeyCache.{VirtualKeyMap, lookup_vkey, delete_virtual_key_by_id}

abbrev raw : List ℕ
raw = 1 ∷ 2 ∷ 3 ∷ 4 ∷ 5 ∷ 6 ∷ 7 ∷ 8 ∷ 9 ∷ 10 ∷ 11 ∷ 12 ∷ 13 ∷ 14 ∷ []

abbrev generated : GeneratedKey
generated = record {
  apikey =
      100 ∷ 107 ∷ 45 ∷ 54 ∷ 117 ∷ 110 ∷ 81 ∷ 122 ∷ 82 ∷ 103 ∷ 99 ∷ 67 ∷ 101 ∷ 77 ∷ 114 ∷ 76 ∷ 88
      ∷ 57 ∷ 73 ∷ 120 ∷ 75 ∷ 52 ∷ 72 ∷ 54 ∷ 101 ∷ [];
  hash = "digest";
  prefix = 100 ∷ 107 ∷ 45 ∷ 54 ∷ 117 ∷ 110 ∷ 81 ∷ 122 ∷ 82 ∷ 103 ∷ 99 ∷ [];
}

abbrev digest : List ℕ → String
digest key = "digest"

made : generate_virtual_key digest (some raw) ≡ some generated
unfolding generate_virtual_key checksum_ieee base62_encode
made = refl

validate_key_signature-generate_virtual_key_example : validate_key_signature generated.apikey ≡ true
validate_key_signature-generate_virtual_key_example =
    validate_key_signature-generate_virtual_key digest raw generated made

abbrev cached : Option (VirtualKeyMap ℕ)
cached = some ((key_text, virtual_key) ∷ ("k2", record virtual_key { id = "vk2"; key = "k2" }) ∷ [])

still_found :
    lookup_vkey (delete_virtual_key_by_id "vk1" cached).0 "k2"
    ≡ some (record virtual_key { id = "vk2"; key = "k2" })
unfolding lookup_vkey delete_virtual_key_by_id
still_found = refl
