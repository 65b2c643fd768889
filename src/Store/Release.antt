-- ===== src/Store/Release.antt =====
-- internal/dbstore/virtualkeys.go: deleting a key that was revoked releases a budget that another key holds.
use text.Mathlib.Text.{◌==◌}
use text.Mathlib.TextEquality.{eq_iff}
use diffractllm.Base.{
  ◌≡◌, refl, ◌∙◌, true, false, String, some, is_set, lookup, delete, lookup-insert, lookup-delete,
  string_eq, arith, ok, ap, inl, inr, Option-cases,
}
use diffractllm.Store.Tables.{
  StoreVirtualKey, StoreBudget, Tables, Cipher, no_faults, transaction, first_key, before_save,
}
use diffractllm.Store.VirtualKeys.{set_status, save_key, delete_body, delete_virtual_key}
use diffractllm.Store.Creation.{create_body, hash_taken}
use diffractllm.Store.Exclusive.{
  claim, status_of, claim-set_status, status_of-set_status, virtual_keys-set_status,
}

module _ {W : Type 0} (c : Cipher) (t : Tables W) (i j b : String) where
  -- The tables without the key, its budget released.
  abbrev released : Tables W
  released = set_status b "released" (record t { virtual_keys = delete i t.virtual_keys })

  delete_virtual_key-eq :
      (old : StoreVirtualKey W)
      → first_key c false i t ≡ ok old
      → old.budget_id ≡ b
      → (delete_virtual_key c no_faults i t).0 ≡ released
  unfolding delete_virtual_key delete_body
  delete_virtual_key-eq old found held =
      rw (delete_virtual_key, transaction, delete_body, found) (rw held refl)

  claim-released : (i == j) ≡ false → claim t j ≡ some b → claim released j ≡ some b
  unfolding claim
  claim-released apart held =
      claim-set_status b "released" (record t { virtual_keys = delete i t.virtual_keys }) j
      ∙ ground (arith, lookup-delete i j t.virtual_keys)

  released-status :
      (budget : StoreBudget)
      → lookup b t.budgets ≡ some budget
      → status_of released b ≡ some "released"
  released-status budget row =
      status_of-set_status b "released" (record t { virtual_keys = delete i t.virtual_keys }) b
      ∙ ground (arith, row, eq_iff b b)

  released-row :
      status_of released b ≡ some "released"
      → (row : StoreBudget) × (lookup b released.budgets ≡ some row)
        × ((row.status == "bound") ≡ false)
  unfolding status_of
  released-row h = elim (Option-cases (lookup b released.budgets)) [
    | inl missing ↦ absurd (ground arith)
    | inr (row, found) ↦
        let status : row.status ≡ "released" = ground arith in
        (row, found, ap (λ (x : String). x == "bound") status)
  ]

  released-keys : released.virtual_keys ≡ delete i t.virtual_keys
  released-keys =
      virtual_keys-set_status b "released" (record t { virtual_keys = delete i t.virtual_keys })

  create_released-eq :
      (key : StoreVirtualKey W) (budget : StoreBudget) (sealed : String)
      → lookup b released.budgets ≡ some budget
      → (budget.status == "bound") ≡ false
      → key.budget_id ≡ b
      → c.encrypt_key key.api_key ≡ some sealed
      → is_set (lookup key.id released.virtual_keys) ≡ false
      → hash_taken key.key_hash released.virtual_keys ≡ false
      → (transaction (create_body c no_faults key) released).0
        ≡ save_key (record key { api_key = sealed }) (set_status b "bound" released)
  unfolding create_body before_save
  create_released-eq key budget sealed row free asks seals fresh unused =
      ground (arith, asks, row, free, seals, fresh, unused)

  -- A key that was revoked is deleted while another key, `j`, holds its budget: the budget is released
  -- nevertheless, and a new key for it is created. Two active keys hold one budget then.
  pub delete_virtual_key-doubles :
      (old key : StoreVirtualKey W) (budget : StoreBudget) (sealed : String)
      → first_key c false i t ≡ ok old
      → old.budget_id ≡ b
      → (i == j) ≡ false
      → claim t j ≡ some b
      → lookup b t.budgets ≡ some budget
      → key.budget_id ≡ b
      → key.is_active ≡ true
      → (key.id == j) ≡ false
      → c.encrypt_key key.api_key ≡ some sealed
      → is_set (lookup key.id t.virtual_keys) ≡ false
      → hash_taken key.key_hash (delete i t.virtual_keys) ≡ false
      → let t1 = (delete_virtual_key c no_faults i t).0 in
        let t2 = (transaction (create_body c no_faults key) t1).0 in
        (claim t2 j ≡ some b) × (claim t2 key.id ≡ some b)
  unfolding claim
  delete_virtual_key-doubles old key budget sealed found held apart holds row asks active other
        seals fresh unused =
      let (row', at, free) = released-row (released-status budget row) in
      let fresh' : is_set (lookup key.id released.virtual_keys) ≡ false =
        ground (arith, released-keys, lookup-delete i key.id t.virtual_keys, fresh) in
      let unused' : hash_taken key.key_hash released.virtual_keys ≡ false =
        rw released-keys unused in
      let saved : StoreVirtualKey W = record key { api_key = sealed } in
      let bound = set_status b "bound" released in
      let keys = virtual_keys-set_status b "bound" released in
      let before = claim-released apart holds in
      rw
        (
          delete_virtual_key-eq old found held,
          create_released-eq key row' sealed at free asks seals fresh' unused',
        )
        (
          ground (arith, before, keys, lookup-insert key.id j saved bound.virtual_keys),
          ground (
            arith,
            keys,
            lookup-insert key.id key.id saved bound.virtual_keys,
            eq_iff key.id key.id,
          ),
        )
