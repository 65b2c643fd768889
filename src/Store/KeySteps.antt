-- ===== src/Store/KeySteps.antt =====
-- internal/dbstore/virtualkeys.go: creation, rotation, routing and deletion keep budgets held once.
use text.Mathlib.Text.{◌==◌}
use text.Mathlib.TextEquality.{eq_iff}
use diffractllm.Base.{
  List, ◌≡◌, refl, ap, subst, ◌∙◌, Bool, true, false, ◌||◌, String, none, some, is_set, lookup,
  delete, lookup-insert, lookup-delete, string_eq, if◌then◌else◌, arith, Option-cases, inl, inr, ok,
  >>=-eq-ok, fail_if-eq-ok, ◌≢◌,
}
use diffractllm.Core.VirtualKey.{ProviderConfig, Weights, compile_provider_configs, is_direct}
use diffractllm.Store.Tables.{
  budget_already_bound, budget_not_found, database_error, bad_load_balancer, bad_mode,
  StoreVirtualKey, StoreBudget, Tables, Cipher, Faults, first_key, before_save,
}
use diffractllm.Store.VirtualKeys.{
  whole_weight, parse_lb_kind, or_bad_configs, parse_vk_mode, or_err, set_status, save_key,
  delete_body, rotate_body, UpdateRoutingRequest, apply_routing, routing_body,
}
use diffractllm.Store.Creation.{hash_taken, create_body}
use diffractllm.Store.Exclusive.{
  claim, status_of, IsExclusive, claim-set_status, status_of-set_status, virtual_keys-set_status,
}
use diffractllm.Store.Steps.{
  bind-IsExclusive, release-IsExclusive, keep-IsExclusive, first_key-stored, claim-active,
  is_set-status_of,
}

module _ {W : Type 0} where
  -- The row of a key is written again, with its budget and its state.
  save_key-IsExclusive :
      (t : Tables W) (id : String) (row saved : StoreVirtualKey W)
      → IsExclusive t
      → lookup id t.virtual_keys ≡ some row
      → saved.id ≡ id
      → saved.budget_id ≡ row.budget_id
      → saved.is_active ≡ row.is_active
      → IsExclusive (save_key saved t)
  unfolding claim status_of
  save_key-IsExclusive t id row saved ex found ids budget active =
      keep-IsExclusive t (save_key saved t) ex
        (λ j key h. ground (
          arith,
          lookup-insert saved.id j saved t.virtual_keys,
          eq_iff saved.id j,
          ex.keyed j key,
          h,
        ))
        (λ j. ground (arith, lookup-insert saved.id j saved t.virtual_keys, eq_iff saved.id j))
        (λ j b s held h. h)

  claim-delete :
      (t : Tables W) (id : String) (j : String)
      → claim (record t { virtual_keys = delete id t.virtual_keys }) j
        ≡ (if id == j then none else claim t j)
  unfolding claim
  claim-delete t id j = ground (arith, lookup-delete id j t.virtual_keys)

  delete_key-IsExclusive :
      (t : Tables W) (id : String) (row : StoreVirtualKey W)
      → IsExclusive t
      → lookup id t.virtual_keys ≡ some row
      → row.is_active ≡ true
      → IsExclusive (
          set_status row.budget_id "released"
            (record t { virtual_keys = delete id t.virtual_keys }))
  unfolding status_of
  delete_key-IsExclusive t id row ex found active =
      let rest : Tables W = record t { virtual_keys = delete id t.virtual_keys } in
      let t' = set_status row.budget_id "released" rest in
      release-IsExclusive t t' id row.budget_id (is_set (lookup row.budget_id t.budgets)) ex
        (λ j key h.
          let h' : lookup j (delete id t.virtual_keys) ≡ some key =
            subst (λ keys. lookup j keys ≡ some key)
              (virtual_keys-set_status row.budget_id "released" rest) h in
          ground (arith, h', lookup-delete id j t.virtual_keys, ex.keyed j key))
        (is_set-status_of t row.budget_id)
        (λ j. claim-set_status row.budget_id "released" rest j ∙ claim-delete t id j)
        (λ d. status_of-set_status row.budget_id "released" rest d)
        (claim-active t id row found ∙ (rw active refl))

  before_save-kept :
      (c : Cipher) (key saved : StoreVirtualKey W)
      → before_save c key ≡ ok saved
      → (saved.id ≡ key.id) × (saved.budget_id ≡ key.budget_id) × (saved.is_active ≡ key.is_active)
  unfolding before_save
  before_save-kept c key saved h = ground arith

  weighted-kept :
      (b : Bool) (key : StoreVirtualKey W) (cfgs : List (ProviderConfig W))
      → let chosen : StoreVirtualKey W =
          if b then record key { provider_configs = cfgs } else key in
        (chosen.id ≡ key.id)
        × (chosen.budget_id ≡ key.budget_id)
        × (chosen.is_active ≡ key.is_active)
  weighted-kept true key cfgs = (refl, refl, refl)
  weighted-kept false key cfgs = (refl, refl, refl)

  module _ (c : Cipher) (faults : Faults) (t : Tables W) (ex : IsExclusive t) (id : String) where
    pub delete_body-IsExclusive :
        (t' : Tables W) (u : Unit {0})
        → claim t id ≢ none
        → delete_body c faults id t ≡ ok (t', u)
        → IsExclusive t'
    unfolding delete_body
    delete_body-IsExclusive t' u holds h =
        let (key, first, rest) = >>=-eq-ok (first_key c faults.find id t) _ h in
        let (row, found, same) = first_key-stored c faults.find id t key first in
        let budget : key.budget_id ≡ row.budget_id = ap (λ k. k.budget_id) same in
        let active : row.is_active ≡ true = ground (arith, claim-active t id row found) in
        let eq : t'
            ≡ set_status key.budget_id "released"
                (record t { virtual_keys = delete id t.virtual_keys }) =
          ground arith in
        rw (eq, budget) (delete_key-IsExclusive t id row ex found active)

    pub rotate_body-IsExclusive :
        (generated : String × String × String) (t' : Tables W) (u : Unit {0})
        → rotate_body c faults generated id t ≡ ok (t', u)
        → IsExclusive t'
    unfolding rotate_body before_save
    rotate_body-IsExclusive (api_key, hash, prefix) t' u h =
        let (key, first, rest) = >>=-eq-ok (first_key c faults.find id t) _ h in
        let (row, found, same) = first_key-stored c faults.find id t key first in
        elim (Option-cases (c.encrypt_key api_key)) [
          | inl failed ↦ absurd (ground arith)
          | inr (sealed, sealed_by) ↦
              let saved : StoreVirtualKey W = record key {
                api_key = sealed;
                key_hash = hash;
                display_prefix = prefix;
              } in
              let eq : t' ≡ save_key saved t = ground arith in
              rw eq (
                save_key-IsExclusive t id row saved ex found
                  (ap (λ k. k.id) same ∙ ex.keyed id row found) (ap (λ k. k.budget_id) same)
                  (ap (λ k. k.is_active) same))
        ]

    pub routing_body-IsExclusive :
        (wt : Weights W) (request : UpdateRoutingRequest W) (t' : Tables W) (u : Unit {0})
        → routing_body c wt faults id request t ≡ ok (t', u)
        → IsExclusive t'
    unfolding routing_body before_save apply_routing
    routing_body-IsExclusive wt request t' u h =
        let (stored, first, rest) = >>=-eq-ok (first_key c faults.find id t) _ h in
        let (row, found, same) = first_key-stored c faults.find id t stored first in
        let (mode, parsed, rest1) =
          >>=-eq-ok (or_err bad_mode (parse_vk_mode (apply_routing request stored).mode)) _ rest in
        let (cfgs, compiled, rest2) =
          >>=-eq-ok
            (or_bad_configs
              (compile_provider_configs wt mode (apply_routing request stored).provider_configs))
            _ rest1 in
        let (lb, known, rest3) =
          >>=-eq-ok
            (or_err bad_load_balancer (parse_lb_kind (apply_routing request stored).load_balancer))
            _ rest2 in
        let (saved, sealed, rest4) = >>=-eq-ok (before_save c _) _ rest3 in
        let (free, rest5) = fail_if-eq-ok faults.write_key database_error _ rest4 in
        let eq : t' ≡ save_key saved t = ground arith in
        let (ids, budget, active) = before_save-kept c _ saved sealed in
        let wt_one = whole_weight wt.one (apply_routing request stored).provider_configs in
        let (ids', budget', active') =
          weighted-kept (is_direct mode) (apply_routing request stored) wt_one in
        rw eq (
          save_key-IsExclusive t id row saved ex found
            (ids ∙ ids' ∙ ap (λ k. k.id) same ∙ ex.keyed id row found)
            (budget ∙ budget' ∙ ap (λ k. k.budget_id) same)
            (active ∙ active' ∙ ap (λ k. k.is_active) same))

  insert_key-IsExclusive :
      (t : Tables W) (key : StoreVirtualKey W) (b : String) (budget : StoreBudget)
      → IsExclusive t
      → key.budget_id ≡ b
      → key.is_active ≡ true
      → is_set (lookup key.id t.virtual_keys) ≡ false
      → lookup b t.budgets ≡ some budget
      → (budget.status == "bound") ≡ false
      → IsExclusive (save_key key (set_status b "bound" t))
  unfolding claim status_of
  insert_key-IsExclusive t key b budget ex held active fresh row free =
      let t' = save_key key (set_status b "bound" t) in
      let keys = virtual_keys-set_status b "bound" t in
      bind-IsExclusive t t' key.id b (is_set (lookup b t.budgets)) ex
        (λ j k h. ground (
          arith,
          keys,
          lookup-insert key.id j key (set_status b "bound" t).virtual_keys,
          eq_iff key.id j,
          ex.keyed j k,
          h,
        ))
        (is_set-status_of t b)
        (λ j. ground (
          arith,
          keys,
          lookup-insert key.id j key (set_status b "bound" t).virtual_keys,
          eq_iff key.id j,
        ))
        (λ d. status_of-set_status b "bound" t d)
        (λ j h.
          absurd (ground (arith, ex.marked j b budget.status h, eq_iff budget.status "bound")))

  pub create_body-IsExclusive :
      (c : Cipher) (faults : Faults) (key : StoreVirtualKey W) (t t' : Tables W) (b : StoreBudget)
      → IsExclusive t
      → key.is_active ≡ true
      → create_body c faults key t ≡ ok (t', b)
      → IsExclusive t'
  unfolding create_body before_save
  create_body-IsExclusive c faults key t t' b ex active h =
      let (found, rest) = fail_if-eq-ok faults.find budget_not_found _ h in
      let (budget, row, rest1) =
        >>=-eq-ok (or_err budget_not_found (lookup key.budget_id t.budgets)) _ rest in
      let (free, rest2) = fail_if-eq-ok (budget.status == "bound") budget_already_bound _ rest1 in
      let (writes, rest3) = fail_if-eq-ok faults.write_budget database_error _ rest2 in
      let (saved, sealed, rest4) = >>=-eq-ok (before_save c key) _ rest3 in
      let (fresh, rest5) =
        fail_if-eq-ok
          (faults.write_key
            || is_set (lookup key.id t.virtual_keys)
            || hash_taken key.key_hash t.virtual_keys)
          database_error _ rest4 in
      let (ids, held, state) = before_save-kept c key saved sealed in
      let eq : t' ≡ save_key saved (set_status key.budget_id "bound" t) = ground arith in
      rw eq (
        insert_key-IsExclusive t saved key.budget_id budget ex held (state ∙ active)
          (ground (arith, fresh, ids)) (ground (arith, row)) free)
