-- ===== src/Store/Creation.antt =====
-- internal/dbstore/virtualkeys.go and budget.go: the creation of virtual keys and budgets, and the other
-- operations on budgets. Identifiers, generated keys and instants are arguments.
use text.Mathlib.Text.{◌==◌}
use diffractllm.Base.{
  Bool, true, false, not, ◌&&◌, ◌||◌, String, Option, none, some, List, [], ◌∷◌, ℤ, pos, leb_ℤ,
  eqb_ℤ, Map, lookup, insert, delete, string_eq, is_set, or_default, Result, ok, err, ◌>>=◌, ◌>>◌,
  fail_if, if◌then◌else◌,
}
use diffractllm.Core.VirtualKey.{
  VkMode, LbKind, Weights, ProviderConfig, compile_provider_configs, is_direct,
}
use diffractllm.Store.Tables.{
  StoreVirtualKey, StoreBudget, Tables, Cipher, StoreError, budget_not_found, budget_already_bound,
  mode_required, load_balancer_required, key_not_generated, database_error, Faults, transaction,
  first_key, before_save,
}
use diffractllm.Store.VirtualKeys.{
  vk_mode_string, lb_kind_string, or_err, or_bad_configs, set_status, save_key, whole_weight,
}

pub record VirtualKeyRequest (W : Type 0) : Type 0 where
  pub client_id : String
  pub budget_id : String
  pub expires_at : Option ℤ
  pub mode : Option VkMode
  pub load_balancer : Option LbKind
  pub provider_configs : List (ProviderConfig W)

-- The virtual key that is inserted, before it is sealed.
unfoldable pub new_virtual_key :
    {W : Type 0}
    → String
    → String × String × String
    → VkMode
    → LbKind
    → List (ProviderConfig W)
    → VirtualKeyRequest W
    → StoreVirtualKey W
unfolding vk_mode_string lb_kind_string
new_virtual_key id (api_key, hash, prefix) mode lb cfgs payload = record {
  id = id;
  key_hash = hash;
  api_key = api_key;
  display_prefix = prefix;
  client_id = payload.client_id;
  budget_id = payload.budget_id;
  mode = vk_mode_string mode;
  provider_configs = cfgs;
  load_balancer = lb_kind_string lb;
  is_active = true;
  expires_at = payload.expires_at;
}

-- What is checked before the transaction, and the row that it will insert.
unfoldable pub creation_arguments :
    {W : Type 0}
    → Weights W
    → Option (String × String × String)
    → VirtualKeyRequest W
    → Result StoreError (String → StoreVirtualKey W)
unfolding new_virtual_key whole_weight
creation_arguments wt generated payload = do
  mode ← or_err mode_required payload.mode
  lb ← or_err load_balancer_required payload.load_balancer
  cfgs ← or_bad_configs (compile_provider_configs wt mode payload.provider_configs)
  key ← or_err key_not_generated generated
  ok (λ id.
      new_virtual_key id key mode lb
        (if is_direct mode
          then whole_weight wt.one payload.provider_configs
          else payload.provider_configs)
        payload)

module _ {W : Type 0} where
  -- The hash of a key is unique in its table.
  unfoldable pub hash_taken : String → Map String (StoreVirtualKey W) → Bool
  hash_taken hash [] = false
  hash_taken hash ((j, key) ∷ keys) = key.key_hash == hash || hash_taken hash keys

  module _ (c : Cipher) (faults : Faults) where
    -- The body of the transaction of `CreateVirtualKeyTx`. The identifier of the budget that was found
    -- is the one that was asked for.
    unfoldable pub create_body :
        StoreVirtualKey W → Tables W → Result StoreError (Tables W × StoreBudget)
    unfolding lookup set_status before_save hash_taken
    create_body key t = do
      fail_if faults.find budget_not_found
      budget ← or_err budget_not_found (lookup key.budget_id t.budgets)
      fail_if (budget.status == "bound") budget_already_bound
      fail_if faults.write_budget database_error
      sealed ← before_save c key
      fail_if
          (faults.write_key
            || is_set (lookup key.id t.virtual_keys)
            || hash_taken key.key_hash t.virtual_keys)
          database_error
      ok (save_key sealed (set_status key.budget_id "bound" t), record budget { status = "bound" })

    -- The row is read back, and returned with the plain key.
    unfoldable pub create_virtual_key_tx :
        Weights W
        → String
        → Option (String × String × String)
        → VirtualKeyRequest W
        → Tables W
        → Tables W × Result StoreError (StoreVirtualKey W × StoreBudget × String)
    unfolding create_body creation_arguments first_key
    create_virtual_key_tx wt id generated payload t =
        elim (creation_arguments wt generated payload) [
          | err e ↦ (t, err e)
          | ok key ↦
              let (t', r) = transaction (create_body (key id)) t in
              (
                t',
                do
                  budget ← r
                  row ← first_key c faults.reload id t'
                  ok (row, budget, (key id).api_key),
              )
        ]

-- The body of a request to create or update a budget; a nil or zero field is `none`.
pub record BudgetRequest : Type 0 where
  pub name : String
  pub budget_limit : ℤ
  pub budget_unit : String
  pub budget_duration : String
  pub enforce : Option Bool
  pub last_budget_refresh_at : Option ℤ

pub data BudgetError : Type 0 where
  limit_not_positive duration_required invalid_duration : BudgetError
  no_budget bound_to_active_key statement_failed : BudgetError

abbrev same_bool : Bool → Bool → Bool
same_bool true b = b
same_bool false b = not b

-- `GetBudget`; every failure reads as "not found".
unfoldable pub get_budget : {W : Type 0} → Bool → String → Tables W → Option StoreBudget
unfolding lookup
get_budget fails id t = if fails then none else lookup id t.budgets

-- `duration_ok` is whether `ParseDuration` accepts the duration.
module _ (duration_ok : String → Bool) where
  unfoldable pub new_budget : String → ℤ → BudgetRequest → Result BudgetError StoreBudget
  new_budget id now b = do
    fail_if (leb_ℤ b.budget_limit (pos 0)) limit_not_positive
    fail_if (b.budget_duration == "") duration_required
    fail_if (not (duration_ok b.budget_duration)) invalid_duration
    ok (record {
      id = id;
      name = b.name;
      budget_limit = b.budget_limit;
      budget_unit = if b.budget_unit == "" then "nanodollars" else b.budget_unit;
      budget_duration = b.budget_duration;
      enforce = or_default b.enforce true;
      total_cost = pos 0;
      request_count = pos 0;
      status = "unbound";
      last_budget_refresh_at = or_default b.last_budget_refresh_at now;
    })

  -- `fails` covers the constraints on names too.
  unfoldable pub create_budget :
      {W : Type 0}
      → Bool
      → String
      → ℤ
      → BudgetRequest
      → Tables W
      → Tables W × Result BudgetError StoreBudget
  unfolding new_budget lookup insert
  create_budget fails id now b t = elim (new_budget id now b) [
    | err e ↦ (t, err e)
    | ok row ↦
        if fails || is_set (lookup id t.budgets)
        then (t, err statement_failed)
        else (record t { budgets = insert id row t.budgets }, ok row)
  ]

  -- The fields of `updates` that are set; a limit of 0 and an empty duration leave the field alone.
  unfoldable pub update_fields : BudgetRequest → StoreBudget → Result BudgetError StoreBudget
  update_fields b row = do
    fail_if
        (not (b.budget_duration == "")
          && not (row.budget_duration == b.budget_duration)
          && not (duration_ok b.budget_duration))
        invalid_duration
    ok (record row {
      budget_limit = if eqb_ℤ b.budget_limit (pos 0) then row.budget_limit else b.budget_limit;
      budget_duration = if b.budget_duration == "" then row.budget_duration else b.budget_duration;
      enforce = or_default b.enforce row.enforce;
    })

  -- `len(updates) != 0`
  unfoldable pub has_updates : BudgetRequest → StoreBudget → Bool
  has_updates b row =
      not (eqb_ℤ b.budget_limit (pos 0)) && not (eqb_ℤ row.budget_limit b.budget_limit)
      || not (b.budget_duration == "") && not (row.budget_duration == b.budget_duration)
      || elim b.enforce [ none ↦ false | some enforce ↦ not (same_bool row.enforce enforce) ]

  unfoldable pub update_budget :
      {W : Type 0}
      → Faults
      → String
      → BudgetRequest
      → Tables W
      → Tables W × Result BudgetError StoreBudget
  unfolding update_fields has_updates get_budget insert
  update_budget faults id b t = elim (get_budget faults.find id t) [
    | none ↦ (t, err no_budget)
    | some row ↦ elim (update_fields b row) [
      | err e ↦ (t, err e)
      | ok row' ↦
          if not (has_updates b row)
          then (t, ok row)
          else if faults.write_budget
          then (t, err statement_failed)
          else (
            record t { budgets = insert id row' t.budgets },
            if faults.reload then err no_budget else ok row',
          )
    ]
  ]

module _ {W : Type 0} where
  unfoldable pub update_budget_enforce :
      Bool → String → Bool → Tables W → Tables W × Result BudgetError (Unit {0})
  unfolding lookup insert
  update_budget_enforce fails id enforce t =
      if fails then (t, err statement_failed) else elim (lookup id t.budgets) [
        | none ↦ (t, err no_budget)
        | some row ↦
            (record t { budgets = insert id (record row { enforce = enforce }) t.budgets }, ok tt)
      ]

  unfoldable pub delete_budget :
      Faults → String → Tables W → Tables W × Result BudgetError (Unit {0})
  unfolding get_budget delete
  delete_budget faults id t = elim (get_budget faults.find id t) [
    | none ↦ (t, err no_budget)
    | some row ↦
        if row.status == "bound"
        then (t, err bound_to_active_key)
        else if faults.write_budget
        then (t, err statement_failed)
        else (record t { budgets = delete id t.budgets }, ok tt)
  ]
