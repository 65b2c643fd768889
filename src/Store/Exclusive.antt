-- ===== src/Store/Exclusive.antt =====
-- internal/dbstore/virtualkeys.go: which budget each active key holds, and what a statement changes of it.
use text.Mathlib.Text.{◌==◌}
use diffractllm.Base.{
  ◌≡◌, refl, Bool, ◌&&◌, String, Option, none, some, is_set, lookup, lookup-insert, string_eq,
  if◌then◌else◌, arith, Option-cases, inl, inr,
}
use diffractllm.Store.Tables.{StoreVirtualKey, StoreBudget, Tables}
use diffractllm.Store.VirtualKeys.{set_status, set_active_column}

abbrev status_in : Option StoreBudget → Option String
status_in none = none
status_in (some b) = some b.status

module _ {W : Type 0} where
  abbrev held_by : Option (StoreVirtualKey W) → Option String
  held_by none = none
  held_by (some key) = if key.is_active then some key.budget_id else none

  -- The budget that the key with an identifier holds.
  unfoldable pub claim : Tables W → String → Option String
  unfolding lookup
  claim t i = held_by (lookup i t.virtual_keys)

  unfoldable pub status_of : Tables W → String → Option String
  unfolding lookup
  status_of t b = status_in (lookup b t.budgets)

  -- No budget is held twice, and a budget that is held is marked as bound, where it has a row.
  pub record IsExclusive (t : Tables W) : Type 0 where
    pub keyed :
        (i : String) (key : StoreVirtualKey W) → lookup i t.virtual_keys ≡ some key → key.id ≡ i
    pub single : (i j b : String) → claim t i ≡ some b → claim t j ≡ some b → i ≡ j
    pub marked : (i b s : String) → claim t i ≡ some b → status_of t b ≡ some s → s ≡ "bound"

  pub virtual_keys-set_status :
      (b s : String) (t : Tables W) → (set_status b s t).virtual_keys ≡ t.virtual_keys
  unfolding set_status
  virtual_keys-set_status b s t = ground arith

  pub claim-set_status :
      (b s : String) (t : Tables W) (j : String) → claim (set_status b s t) j ≡ claim t j
  unfolding claim
  claim-set_status b s t j = rw (virtual_keys-set_status b s t) refl

  pub budgets-set_active_column :
      (i : String) (active : Bool) (t : Tables W)
      → (set_active_column i active t).budgets ≡ t.budgets
  unfolding set_active_column
  budgets-set_active_column i active t = ground arith

  pub status_of-set_active_column :
      (i : String) (active : Bool) (t : Tables W) (b : String)
      → status_of (set_active_column i active t) b ≡ status_of t b
  unfolding status_of
  status_of-set_active_column i active t b = rw (budgets-set_active_column i active t) refl

  pub status_of-set_status :
      (b s : String) (t : Tables W) (d : String)
      → status_of (set_status b s t) d
        ≡ (if b == d && is_set (lookup b t.budgets) then some s else status_of t d)
  unfolding status_of set_status
  status_of-set_status b s t d = elim (Option-cases (lookup b t.budgets)) [
    | inl missing ↦ rw (missing, set_status) (ground arith)
    | inr (row, found) ↦
        rw (found, set_status)
          (ground (arith, lookup-insert b d (record row { status = s }) t.budgets))
  ]

  pub claim-set_active_column :
      (i : String) (active : Bool) (t : Tables W) (key : StoreVirtualKey W)
      → lookup i t.virtual_keys ≡ some key
      → (j : String)
      → claim (set_active_column i active t) j
        ≡ (if i == j then (if active then some key.budget_id else none) else claim t j)
  unfolding claim set_active_column
  claim-set_active_column i active t key found j =
      rw (found, set_active_column)
        (ground (arith, lookup-insert i j (record key { is_active = active }) t.virtual_keys))
