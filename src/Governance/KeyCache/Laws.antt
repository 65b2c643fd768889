-- ===== src/Governance/KeyCache/Laws.antt =====
-- internal/governance/virtualkey.go: what a request finds after a load, and after a key was revoked.
use text.Mathlib.Text.{◌==◌}
use text.Mathlib.TextEquality.{eq_iff}
use diffractllm.Base.{
  insert, ◌≡◌, refl, ap, ◌∙◌, true, false, String, Option, none, some, List, [], ◌∷◌, if◌then◌else◌,
  lookup, lookup-insert, lookup-delete, ◌==?◌, string_eq, All, arith, Option-cases, inl, inr,
}
use diffractllm.Core.VirtualKey.{VirtualKey}
use diffractllm.Governance.KeyCache.{
  VirtualKeyMap, lookup_vkey, add_virtual_keys, load_virtual_keys, clone, find_key_by_id,
  delete_virtual_key_by_id,
}

module _ {W : Type 0} where
  -- The last of the keys with that text.
  abbrev pub last_key : String → List (VirtualKey W) → Option (VirtualKey W) → Option (VirtualKey W)
  last_key key [] found = found
  last_key key (vk ∷ vks) found = last_key key vks (if vk.key ==? key then some vk else found)

  lookup-add_virtual_keys :
      (vdata : List (VirtualKey W)) (key : String) (temp : VirtualKeyMap W)
      → lookup key (add_virtual_keys vdata temp) ≡ last_key key vdata (lookup key temp)
  unfolding add_virtual_keys
  lookup-add_virtual_keys [] key temp = refl
  lookup-add_virtual_keys (vk ∷ vks) key temp =
      lookup-add_virtual_keys vks key (insert vk.key vk temp)
      ∙ ap (last_key key vks) (lookup-insert vk.key key vk temp)

  -- After a load, whatever was cached before, a key is found exactly where the database has it: the last
  -- row with its text.
  pub lookup_vkey-load_virtual_keys :
      (vdata : List (VirtualKey W)) (virtual : Option (VirtualKeyMap W)) (key : String)
      → lookup_vkey (load_virtual_keys vdata virtual) key ≡ last_key key vdata none
  unfolding lookup_vkey load_virtual_keys lookup
  lookup_vkey-load_virtual_keys vdata virtual key = lookup-add_virtual_keys vdata key []

  -- Every entry with the id stands under one key.
  abbrev pub IsOnlyId : String → String → VirtualKeyMap W → Type 0
  IsOnlyId id key m = All (λ kv. (kv.1.id == id) ≡ true → kv.0 ≡ key) m

  lookup-IsOnlyId :
      (id k0 key : String) (m : VirtualKeyMap W) (vk : VirtualKey W)
      → IsOnlyId id k0 m
      → lookup key m ≡ some vk
      → (vk.id == id) ≡ true
      → key ≡ k0
  unfolding lookup
  lookup-IsOnlyId id k0 key [] vk h f e = cc
  lookup-IsOnlyId id k0 key ((k, v) ∷ m) vk h f e =
      ground (arith, lookup-IsOnlyId id k0 key m vk, eq_iff k key)

  find_key_by_id-IsOnlyId :
      (id k0 key : String) (m : VirtualKeyMap W)
      → IsOnlyId id k0 m
      → find_key_by_id id m ≡ some key
      → key ≡ k0
  unfolding find_key_by_id
  find_key_by_id-IsOnlyId id k0 key [] h f = cc
  find_key_by_id-IsOnlyId id k0 key ((k, v) ∷ m) h f =
      ground (arith, find_key_by_id-IsOnlyId id k0 key m)

  find_key_by_id-none :
      (id key : String) (m : VirtualKeyMap W) (vk : VirtualKey W)
      → find_key_by_id id m ≡ none
      → lookup key m ≡ some vk
      → (vk.id == id) ≡ false
  unfolding find_key_by_id lookup
  find_key_by_id-none id key [] vk h f = cc
  find_key_by_id-none id key ((k, v) ∷ m) vk h f =
      ground (arith, find_key_by_id-none id key m vk, eq_iff k key)

  -- A virtual key that was deleted by its id is not found any more, under any text: no key that is still
  -- found has the id, where the cache held it under one text.
  pub lookup_vkey-delete_virtual_key_by_id :
      (id k0 key : String) (virtual : Option (VirtualKeyMap W)) (vk : VirtualKey W)
      → IsOnlyId id k0 (clone virtual)
      → lookup_vkey (delete_virtual_key_by_id id virtual).0 key ≡ some vk
      → (vk.id == id) ≡ false
  unfolding lookup_vkey delete_virtual_key_by_id clone
  lookup_vkey-delete_virtual_key_by_id id k0 key none vk only f = cc
  lookup_vkey-delete_virtual_key_by_id id k0 key (some m) vk only f =
      elim (Option-cases (find_key_by_id id m)) [
        | inl e ↦ ground (arith, find_key_by_id-none id key m vk)
        | inr (k, e) ↦ ground (
          arith,
          lookup-delete k key m,
          lookup-IsOnlyId id k0 key m vk,
          find_key_by_id-IsOnlyId id k0 k m only e,
          eq_iff k key,
        )
      ]
