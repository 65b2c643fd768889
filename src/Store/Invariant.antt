-- ===== src/Store/Invariant.antt =====
-- internal/dbstore: no sequence of operations binds one budget to two active keys, where revoking and
-- deleting are for active keys.
use diffractllm.Base.{
  ap, sym, >>=-eq-ok, ◌≡◌, ◌≢◌, Bool, true, String, Option, none, some, ℤ, Result, ok, err,
  Result-cases, inl, inr,
}
use diffractllm.Core.VirtualKey.{compile_provider_configs, Weights}
use diffractllm.Store.Tables.{
  key_not_generated, load_balancer_required, mode_required, StoreVirtualKey, Tables, Cipher,
  StoreError, Faults, transaction,
}
use diffractllm.Store.VirtualKeys.{
  or_bad_configs, or_err, set_virtual_key_active, set_active_body, revoke_virtual_key, revoke_body,
  delete_virtual_key, delete_body, rotate_virtual_key, rotate_body, UpdateRoutingRequest,
  update_virtual_key_routing, routing_body,
}
use diffractllm.Store.Creation.{
  VirtualKeyRequest, create_virtual_key_tx, creation_arguments, new_virtual_key, create_body,
  BudgetRequest, create_budget, update_budget, update_budget_enforce, delete_budget,
}
use diffractllm.Store.Exclusive.{claim, IsExclusive}
use diffractllm.Store.Steps.{set_active_body-IsExclusive, revoke_body-IsExclusive}
use diffractllm.Store.KeySteps.{
  delete_body-IsExclusive, rotate_body-IsExclusive, routing_body-IsExclusive,
  create_body-IsExclusive,
}
use diffractllm.Store.BudgetSteps.{
  update_budget-IsExclusive, update_budget_enforce-IsExclusive, delete_budget-IsExclusive,
  create_budget-IsExclusive,
}

module _ {W : Type 0} (c : Cipher) (wt : Weights W) where
  -- One operation, whatever the database refuses. The identifier of a new budget is not in use.
  pub data StoreStep (t t' : Tables W) : Type 0 where
    activity_set :
        (faults : Faults) (id : String) (active : Bool)
        → t' ≡ (set_virtual_key_active c faults id active t).0
        → StoreStep t t'
    revoked :
        (faults : Faults) (id : String)
        → claim t id ≢ none
        → t' ≡ (revoke_virtual_key c faults id t).0
        → StoreStep t t'
    deleted :
        (faults : Faults) (id : String)
        → claim t id ≢ none
        → t' ≡ (delete_virtual_key c faults id t).0
        → StoreStep t t'
    rotated :
        (faults : Faults) (generated : Option (String × String × String)) (id : String)
        → t' ≡ (rotate_virtual_key c faults generated id t).0
        → StoreStep t t'
    rerouted :
        (faults : Faults) (id : String) (request : UpdateRoutingRequest W)
        → t' ≡ (update_virtual_key_routing c wt faults id request t).0
        → StoreStep t t'
    created :
        (faults : Faults) (id : String) (generated : Option (String × String × String))
        (payload : VirtualKeyRequest W)
        → t' ≡ (create_virtual_key_tx c faults wt id generated payload t).0
        → StoreStep t t'
    budget_created :
        (duration_ok : String → Bool) (fails : Bool) (id : String) (now : ℤ) (b : BudgetRequest)
        → ((j : String) → claim t j ≢ some id)
        → t' ≡ (create_budget duration_ok fails id now b t).0
        → StoreStep t t'
    budget_updated :
        (duration_ok : String → Bool) (faults : Faults) (id : String) (b : BudgetRequest)
        → t' ≡ (update_budget duration_ok faults id b t).0
        → StoreStep t t'
    enforce_updated :
        (fails : Bool) (id : String) (enforce : Bool)
        → t' ≡ (update_budget_enforce fails id enforce t).0
        → StoreStep t t'
    budget_deleted :
        (faults : Faults) (id : String) → t' ≡ (delete_budget faults id t).0 → StoreStep t t'

  pub data StoreReach (t : Tables W) : Tables W → Type 0 where
    here : StoreReach t t
    next : {u v : Tables W} → StoreReach t u → StoreStep u v → StoreReach t v

  transaction-IsExclusive :
      {A : Type 0} (body : Tables W → Result StoreError (Tables W × A)) (t : Tables W)
      → IsExclusive t
      → ((t' : Tables W) (a : A) → body t ≡ ok (t', a) → IsExclusive t')
      → IsExclusive (transaction body t).0
  transaction-IsExclusive body t ex keeps = elim (Result-cases (body t)) [
    | inl (e, bad) ↦ rw (bad, transaction) ex
    | inr ((t', a), good) ↦ rw (good, transaction) (keeps t' a good)
  ]

  creation_arguments-active :
      (generated : Option (String × String × String)) (payload : VirtualKeyRequest W)
      (key : String → StoreVirtualKey W) (id : String)
      → creation_arguments wt generated payload ≡ ok key
      → (key id).is_active ≡ true
  unfolding creation_arguments new_virtual_key
  creation_arguments-active generated payload key id h =
      let (mode, m, rest) = >>=-eq-ok (or_err mode_required payload.mode) _ h in
      let (lb, l, rest1) = >>=-eq-ok (or_err load_balancer_required payload.load_balancer) _ rest in
      let (cfgs, compiled, rest2) =
        >>=-eq-ok (or_bad_configs (compile_provider_configs wt mode payload.provider_configs)) _
          rest1 in
      let (made, g, rest3) = >>=-eq-ok (or_err key_not_generated generated) _ rest2 in
      sym (ap (λ r. elim r [ err e ↦ true | ok make ↦ (make id).is_active ]) rest3)

  StoreStep-IsExclusive : {t t' : Tables W} → StoreStep t t' → IsExclusive t → IsExclusive t'
  unfolding set_virtual_key_active revoke_virtual_key delete_virtual_key rotate_virtual_key
      update_virtual_key_routing create_virtual_key_tx
  StoreStep-IsExclusive {t} (activity_set faults id active e) ex = rw e (
      transaction-IsExclusive (set_active_body c faults id active) t ex
        (set_active_body-IsExclusive c faults t ex id active))
  StoreStep-IsExclusive {t} (revoked faults id held e) ex = rw e (
      transaction-IsExclusive (revoke_body c faults id) t ex
        (λ t' u. revoke_body-IsExclusive c faults t ex id t' u held))
  StoreStep-IsExclusive {t} (deleted faults id held e) ex = rw e (
      transaction-IsExclusive (delete_body c faults id) t ex
        (λ t' u. delete_body-IsExclusive c faults t ex id t' u held))
  StoreStep-IsExclusive {t} (rotated faults none id e) ex = rw e ex
  StoreStep-IsExclusive {t} (rotated faults (some generated) id e) ex = rw e (
      transaction-IsExclusive (rotate_body c faults generated id) t ex
        (rotate_body-IsExclusive c faults t ex id generated))
  StoreStep-IsExclusive {t} (rerouted faults id request e) ex = rw e (
      transaction-IsExclusive (routing_body c wt faults id request) t ex
        (routing_body-IsExclusive c faults t ex id wt request))
  StoreStep-IsExclusive {t} (created faults id generated payload e) ex =
      elim (Result-cases (creation_arguments wt generated payload)) [
        | inl (refused, bad) ↦ rw (e, create_virtual_key_tx, bad) ex
        | inr (key, good) ↦
            rw (e, create_virtual_key_tx, good)
              (transaction-IsExclusive (create_body c faults (key id)) t ex (λ t' b.
                create_body-IsExclusive c faults (key id) t t' b ex
                  (creation_arguments-active generated payload key id good)))
      ]
  StoreStep-IsExclusive {t} (budget_created duration_ok fails id now b fresh e) ex =
      rw e (create_budget-IsExclusive duration_ok fails id now b t ex fresh)
  StoreStep-IsExclusive {t} (budget_updated duration_ok faults id b e) ex =
      rw e (update_budget-IsExclusive duration_ok faults id b t ex)
  StoreStep-IsExclusive {t} (enforce_updated fails id enforce e) ex =
      rw e (update_budget_enforce-IsExclusive fails id enforce t ex)
  StoreStep-IsExclusive {t} (budget_deleted faults id e) ex =
      rw e (delete_budget-IsExclusive faults id t ex)

  -- Whatever the administration does to keys and budgets, in any order and with any statement refused: as
  -- long as only active keys are revoked or deleted, no two active keys hold one budget, and a budget
  -- that an active key holds is marked as bound, where it has a row.
  pub StoreReach-IsExclusive : {t t' : Tables W} → IsExclusive t → StoreReach t t' → IsExclusive t'
  StoreReach-IsExclusive ex here = ex
  StoreReach-IsExclusive ex (next r step) = StoreStep-IsExclusive step (StoreReach-IsExclusive ex r)
