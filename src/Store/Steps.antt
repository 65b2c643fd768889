-- ===== src/Store/Steps.antt =====
-- internal/dbstore/virtualkeys.go: every operation keeps budgets held once, where revoking and deleting
-- are for active keys.
use text.Mathlib.Text.{◌==◌}
use text.Mathlib.TextEquality.{eq_iff}
use diffractllm.Base.{
  ◌⊎◌, ◌∙◌, [], ◌∷◌, ◌≡◌, refl, sym, ap, subst, Bool, true, false, ◌&&◌, ◌||◌, not, String, none,
  some, is_set, Map, lookup, lookup-insert, string_eq, if◌then◌else◌, arith, Bool-cases,
  Option-cases, inl, inr, ltb, ok, >>=-eq-ok, ◌≢◌,
}
use diffractllm.Store.Tables.{
  StoreVirtualKey, Tables, Cipher, Faults, first_key, after_find, before_save,
}
use diffractllm.Store.VirtualKeys.{
  set_status, set_active_column, count_bound, write_active, set_active_body, revoke_body,
}
use diffractllm.Store.Exclusive.{
  claim, status_of, IsExclusive, claim-set_status, claim-set_active_column, status_of-set_status,
  status_of-set_active_column, virtual_keys-set_status, budgets-set_active_column,
}

module _ {W : Type 0} (t t' : Tables W) (i b : String) (stored : Bool) (exclusive : IsExclusive t)
    (keyed' : (j : String) (key : StoreVirtualKey W)
      → lookup j t'.virtual_keys ≡ some key
      → key.id ≡ j)
    (has_row : stored ≡ is_set (status_of t b)) where
  -- A key takes a budget that no other key holds.
  pub bind-IsExclusive :
      ((j : String) → claim t' j ≡ (if i == j then some b else claim t j))
      → ((d : String) → status_of t' d ≡ (if b == d && stored then some "bound" else status_of t d))
      → ((j : String) → claim t j ≡ some b → i ≡ j)
      → IsExclusive t'
  bind-IsExclusive claims statuses free = record {
    keyed = keyed';
    single = λ j k d hj hk. ground (
      arith,
      claims j,
      claims k,
      eq_iff i j,
      eq_iff i k,
      free j,
      free k,
      exclusive.single j k d,
      hj,
      hk,
    );
    marked = λ j d s hj hs. ground (
      arith,
      claims j,
      statuses d,
      eq_iff i j,
      eq_iff b d,
      has_row,
      exclusive.marked j d s,
      hj,
      hs,
    );
  }

  -- A key gives the budget back that it held.
  pub release-IsExclusive :
      ((j : String) → claim t' j ≡ (if i == j then none else claim t j))
      → ((d : String)
          → status_of t' d ≡ (if b == d && stored then some "released" else status_of t d))
      → claim t i ≡ some b
      → IsExclusive t'
  release-IsExclusive claims statuses held = record {
    keyed = keyed';
    single = λ j k d hj hk.
        ground (arith, claims j, claims k, eq_iff i j, eq_iff i k, exclusive.single j k d, hj, hk);
    marked = λ j d s hj hs. ground (
      arith,
      claims j,
      statuses d,
      eq_iff i j,
      eq_iff b d,
      exclusive.single i j b,
      exclusive.marked j d s,
      hj,
      hs,
    );
  }

module _ {W : Type 0} (t t' : Tables W) (exclusive : IsExclusive t) where
  -- No claim and no status changes, or a status of a budget that no key holds.
  pub keep-IsExclusive :
      ((j : String) (key : StoreVirtualKey W) → lookup j t'.virtual_keys ≡ some key → key.id ≡ j)
      → ((j : String) → claim t' j ≡ claim t j)
      → ((j b s : String) → claim t j ≡ some b → status_of t' b ≡ some s → status_of t b ≡ some s)
      → IsExclusive t'
  keep-IsExclusive keyed' claims statuses = record {
    keyed = keyed';
    single = λ j k d hj hk. exclusive.single j k d (sym (claims j) ∙ hj) (sym (claims k) ∙ hk);
    marked = λ j d s hj hs.
        let held = sym (claims j) ∙ hj in exclusive.marked j d s held (statuses j d s held hs);
  }

module _ {W : Type 0} (c : Cipher) where
  pub first_key-stored :
      (fails : Bool) (id : String) (t : Tables W) (key : StoreVirtualKey W)
      → first_key c fails id t ≡ ok key
      → (row : StoreVirtualKey W) × (lookup id t.virtual_keys ≡ some row)
        × (key ≡ record row { api_key = key.api_key })
  unfolding first_key after_find
  first_key-stored fails id t key h = elim (Option-cases (lookup id t.virtual_keys)) [
    | inl missing ↦ absurd (ground arith)
    | inr (row, found) ↦ (row, found, ground arith)
  ]

module _ {W : Type 0} where
  pub keyed-set_active_column :
      (id : String) (active : Bool) (t : Tables W)
      → IsExclusive t
      → (j : String) (key : StoreVirtualKey W)
      → lookup j (set_active_column id active t).virtual_keys ≡ some key
      → key.id ≡ j
  unfolding set_active_column lookup
  keyed-set_active_column id active t ex j key h = elim (Option-cases (lookup id t.virtual_keys)) [
    | inl missing ↦ ex.keyed j key (rw (missing, set_active_column) at h)
    | inr (row, found) ↦
        let h' = rw (found, set_active_column) at h in
        ground (
          arith,
          h',
          lookup-insert id j (record row { is_active = active }) t.virtual_keys,
          eq_iff id j,
          ex.keyed j key,
          ex.keyed id row,
          found,
        )
  ]

  pub write_active-eq :
      (faults : Faults) (key : StoreVirtualKey W) (id : String) (active : Bool) (s : String)
      (t t' : Tables W)
      → write_active faults key id active s t ≡ ok t'
      → t' ≡ set_status key.budget_id s (set_active_column id active t)
  unfolding write_active
  write_active-eq faults key id active s t t' h = ground arith

  count_bound-free :
      (b id j : String) (keys : Map String (StoreVirtualKey W)) (key : StoreVirtualKey W)
      → ltb 0 (count_bound b id keys) ≡ false
      → lookup j keys ≡ some key
      → key.is_active ≡ true
      → key.budget_id ≡ b
      → id ≡ j
  unfolding count_bound lookup
  count_bound-free b id j [] key h found active held = cc
  count_bound-free b id j ((k, row) ∷ keys) key h found active held =
      ground
        (arith, count_bound-free b id j keys key, eq_iff k id, eq_iff k j, eq_iff row.budget_id b)

  -- The statements of `SetVirtualKeyActive`, `RevokeVirtualKey` as they change the claims.
  claim-write :
      (t : Tables W) (id b s : String) (active : Bool) (row : StoreVirtualKey W)
      → lookup id t.virtual_keys ≡ some row
      → (j : String)
      → claim (set_status b s (set_active_column id active t)) j
        ≡ (if id == j then (if active then some row.budget_id else none) else claim t j)
  claim-write t id b s active row found j =
      claim-set_status b s (set_active_column id active t) j
      ∙ claim-set_active_column id active t row found j

  status_of-write :
      (t : Tables W) (id b s : String) (active : Bool) (d : String)
      → status_of (set_status b s (set_active_column id active t)) d
        ≡ (if b == d && is_set (lookup b t.budgets) then some s else status_of t d)
  status_of-write t id b s active d =
      status_of-set_status b s (set_active_column id active t) d
      ∙ (rw (status_of-set_active_column id active t d, budgets-set_active_column id active t) refl)

  pub is_set-status_of :
      (t : Tables W) (b : String) → is_set (lookup b t.budgets) ≡ is_set (status_of t b)
  unfolding status_of
  is_set-status_of t b = ground arith

  pub claim-active :
      (t : Tables W) (id : String) (row : StoreVirtualKey W)
      → lookup id t.virtual_keys ≡ some row
      → claim t id ≡ (if row.is_active then some row.budget_id else none)
  unfolding claim
  claim-active t id row found = rw found refl

  activate-IsExclusive :
      (t : Tables W) (id : String) (row : StoreVirtualKey W)
      → IsExclusive t
      → lookup id t.virtual_keys ≡ some row
      → ltb 0 (count_bound row.budget_id id t.virtual_keys) ≡ false
      → IsExclusive (set_status row.budget_id "bound" (set_active_column id true t))
  unfolding claim
  activate-IsExclusive t id row ex found none_bound =
      let t' = set_status row.budget_id "bound" (set_active_column id true t) in
      bind-IsExclusive t t' id row.budget_id (is_set (lookup row.budget_id t.budgets)) ex
        (λ j key h. keyed-set_active_column id true t ex j key (
          subst (λ keys. lookup j keys ≡ some key)
            (virtual_keys-set_status row.budget_id "bound" (set_active_column id true t)) h))
        (is_set-status_of t row.budget_id) (claim-write t id row.budget_id "bound" true row found)
        (status_of-write t id row.budget_id "bound" true)
        (λ j held. elim (Option-cases (lookup j t.virtual_keys)) [
          | inl missing ↦ absurd (ground arith)
          | inr (key, at) ↦
              count_bound-free row.budget_id id j t.virtual_keys key none_bound at (ground arith)
                (ground arith)
        ])

  deactivate-IsExclusive :
      (t : Tables W) (id : String) (row : StoreVirtualKey W)
      → IsExclusive t
      → lookup id t.virtual_keys ≡ some row
      → row.is_active ≡ true
      → IsExclusive (set_status row.budget_id "released" (set_active_column id false t))
  deactivate-IsExclusive t id row ex found active =
      let t' = set_status row.budget_id "released" (set_active_column id false t) in
      release-IsExclusive t t' id row.budget_id (is_set (lookup row.budget_id t.budgets)) ex
        (λ j key h. keyed-set_active_column id false t ex j key (
          subst (λ keys. lookup j keys ≡ some key)
            (virtual_keys-set_status row.budget_id "released" (set_active_column id false t)) h))
        (is_set-status_of t row.budget_id)
        (claim-write t id row.budget_id "released" false row found)
        (status_of-write t id row.budget_id "released" false)
        (claim-active t id row found ∙ (rw active refl))

  module _ (c : Cipher) (faults : Faults) (t : Tables W) (ex : IsExclusive t) (id : String) where
    set_active-IsExclusive :
        (row : StoreVirtualKey W) (active : Bool)
        → lookup id t.virtual_keys ≡ some row
        → row.is_active ≡ not active
        → active && ltb 0 (count_bound row.budget_id id t.virtual_keys) ≡ false
        → IsExclusive (
            set_status row.budget_id
              (if active then "bound" else "released")
              (set_active_column id active t))
    set_active-IsExclusive row true found state free = activate-IsExclusive t id row ex found free
    set_active-IsExclusive row false found state free =
        deactivate-IsExclusive t id row ex found state

    -- What `SetVirtualKeyActive` does once the key is found and its state differs.
    set_active-eq :
        (active : Bool) (key : StoreVirtualKey W) (t' : Tables W) (u : Unit {0})
        → first_key c faults.find id t ≡ ok key
        → set_active_body c faults id active t ≡ ok (t', u)
        → (t' ≡ t)
          ⊎ ((key.is_active ≡ not active)
              × (active && ltb 0 (count_bound key.budget_id id t.virtual_keys) ≡ false)
              × (t'
                  ≡ set_status key.budget_id
                      (if active then "bound" else "released")
                      (set_active_column id active t)))
    unfolding set_active_body write_active
    set_active-eq active key t' u first h =
        elim (Bool-cases (key.is_active && active || not key.is_active && not active)) [
          | inl same ↦ inl (ground arith)
          | inr differs ↦ inr (ground arith, ground arith, ground arith)
        ]

    pub set_active_body-IsExclusive :
        (active : Bool) (t' : Tables W) (u : Unit {0})
        → set_active_body c faults id active t ≡ ok (t', u)
        → IsExclusive t'
    unfolding set_active_body
    set_active_body-IsExclusive active t' u h =
        let (key, first, rest) = >>=-eq-ok (first_key c faults.find id t) _ h in
        let (row, found, same) = first_key-stored c faults.find id t key first in
        let budget : key.budget_id ≡ row.budget_id = ap (λ k. k.budget_id) same in
        let was : key.is_active ≡ row.is_active = ap (λ k. k.is_active) same in
        elim (set_active-eq active key t' u first h) [
          | inl kept ↦ rw kept ex
          | inr (state, free, eq) ↦
              rw (eq, budget)
                (set_active-IsExclusive row active found (sym was ∙ state) (rw (← budget) free))
        ]

    pub revoke_body-IsExclusive :
        (t' : Tables W) (u : Unit {0})
        → claim t id ≢ none
        → revoke_body c faults id t ≡ ok (t', u)
        → IsExclusive t'
    unfolding revoke_body
    revoke_body-IsExclusive t' u holds h =
        let (key, first, rest) = >>=-eq-ok (first_key c faults.find id t) _ h in
        let (row, found, same) = first_key-stored c faults.find id t key first in
        let (sealed, by, rest') = >>=-eq-ok (before_save c key) _ rest in
        let (t'', wrote, done) =
          >>=-eq-ok (write_active faults key id false "released" t) _ rest' in
        let eq : t' ≡ set_status key.budget_id "released" (set_active_column id false t) =
          ground (arith, write_active-eq faults key id false "released" t t'' wrote) in
        let active : row.is_active ≡ true = ground (arith, claim-active t id row found) in
        let budget : key.budget_id ≡ row.budget_id = ap (λ k. k.budget_id) same in
        rw (eq, budget) (deactivate-IsExclusive t id row ex found active)
