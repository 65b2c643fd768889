-- ===== src/Governance/KeyCache.antt =====
-- internal/governance/virtualkey.go: the cache of virtual keys. A snapshot is replaced as a whole, under
-- the lock; `none` is the snapshot of a cache that has not loaded.
pub mod Laws
use text.Mathlib.Text.{◌==◌}
use diffractllm.Base.{
  Bool, true, false, String, Option, none, some, List, [], ◌∷◌, if◌then◌else◌, Map, lookup, insert,
  delete, string_eq, is_set,
}
use diffractllm.Core.VirtualKey.{VirtualKey}

abbrev pub VirtualKeyMap : Type 0 → Type 0
VirtualKeyMap W = Map String (VirtualKey W)

module _ {W : Type 0} where
  unfoldable pub loaded : Option (VirtualKeyMap W) → Bool
  loaded virtual = is_set virtual

  unfoldable pub lookup_vkey : Option (VirtualKeyMap W) → String → Option (VirtualKey W)
  unfolding lookup
  lookup_vkey none key = none
  lookup_vkey (some v) key = lookup key v

  unfoldable pub add_virtual_keys : List (VirtualKey W) → VirtualKeyMap W → VirtualKeyMap W
  unfolding insert
  add_virtual_keys [] temp = temp
  add_virtual_keys (vkey ∷ vdata) temp = add_virtual_keys vdata (insert vkey.key vkey temp)

  -- The whole snapshot is new: what it held before does not matter.
  unfoldable pub load_virtual_keys :
      List (VirtualKey W) → Option (VirtualKeyMap W) → Option (VirtualKeyMap W)
  unfolding add_virtual_keys
  load_virtual_keys vdata virtual = some (add_virtual_keys vdata [])

  unfoldable pub clone : Option (VirtualKeyMap W) → VirtualKeyMap W
  clone none = []
  clone (some old) = old

  unfoldable pub upsert_virtual_key :
      Option (VirtualKey W) → Option (VirtualKeyMap W) → Option (VirtualKeyMap W)
  unfolding clone insert
  upsert_virtual_key none virtual = virtual
  upsert_virtual_key (some key) virtual = some (insert key.key key (clone virtual))

  -- The loop: the first entry with the id goes, and the loop ends.
  unfoldable pub find_key_by_id : String → VirtualKeyMap W → Option String
  find_key_by_id id [] = none
  find_key_by_id id ((key, entry) ∷ next) =
      if entry.id == id then some key else find_key_by_id id next

  unfoldable pub delete_virtual_key_by_id :
      String → Option (VirtualKeyMap W) → Option (VirtualKeyMap W) × Bool
  unfolding clone find_key_by_id delete
  delete_virtual_key_by_id id virtual = elim (find_key_by_id id (clone virtual)) [
    | none ↦ (virtual, false)
    | some key ↦ (some (delete key (clone virtual)), true)
  ]
