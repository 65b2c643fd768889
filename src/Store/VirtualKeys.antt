-- ===== src/Store/VirtualKeys.antt =====
-- internal/dbstore/virtualkeys.go: the life of a virtual key and of the budget that is bound to it.
use text.Mathlib.Text.{◌==◌}
use diffractllm.Base.{
  ◌||◌, ℕ, ◌+◌, ltb, Bool, false, not, ◌&&◌, String, Option, none, some, List, [], ◌∷◌, Map, lookup,
  insert, delete, string_eq, Result, ok, err, ◌>>=◌, ◌>>◌, fail_if, if◌then◌else◌,
}
use diffractllm.Core.VirtualKey.{
  VkMode, direct, weighted, LbKind, round_robin, least_connection, latency_based, Weights,
  ProviderConfig, VirtualKey, compile_provider_configs, is_direct,
}
use diffractllm.Store.Tables.{
  StoreVirtualKey, Tables, Cipher, StoreError, budget_already_bound, key_is_revoked,
  key_not_generated, bad_mode, bad_load_balancer, bad_provider_configs, database_error, Faults,
  transaction, first_key, before_save,
}

unfoldable pub vk_mode_string : VkMode → String
vk_mode_string direct = "direct"
vk_mode_string weighted = "weighted"

unfoldable pub parse_vk_mode : String → Option VkMode
parse_vk_mode value =
    if value == "direct" then some direct else if value == "weighted" then some weighted else none

unfoldable pub lb_kind_string : LbKind → String
lb_kind_string round_robin = "round_robin"
lb_kind_string least_connection = "least_connection"
lb_kind_string latency_based = "latency_based"

unfoldable pub parse_lb_kind : String → Option LbKind
parse_lb_kind value =
    if value == "round_robin"
    then some round_robin
    else if value == "least_connection"
    then some least_connection
    else if value == "latency_based"
    then some latency_based
    else none

abbrev pub or_err : {A : Type 0} → StoreError → Option A → Result StoreError A
or_err e none = err e
or_err e (some a) = ok a

abbrev pub or_bad_configs : {E A : Type 0} → Result E A → Result StoreError A
or_bad_configs (err e) = err bad_provider_configs
or_bad_configs (ok a) = ok a

module _ {W : Type 0} where
  -- The rows that `budget_id = ? AND is_active = ? AND id <> ?` selects.
  unfoldable pub count_bound : String → String → Map String (StoreVirtualKey W) → ℕ
  count_bound budget_id id [] = 0
  count_bound budget_id id ((j, key) ∷ keys) =
      (if key.budget_id == budget_id && key.is_active && not (j == id) then 1 else 0)
      + count_bound budget_id id keys

  -- `UPDATE budgets SET status = ? WHERE id = ?`: no row, no change, and no error.
  unfoldable pub set_status : String → String → Tables W → Tables W
  unfolding lookup insert
  set_status budget_id status t = elim (lookup budget_id t.budgets) [
    | none ↦ t
    | some b ↦ record t { budgets = insert budget_id (record b { status = status }) t.budgets }
  ]

  -- `tx.Model(&key).Update("is_active", active)`
  unfoldable pub set_active_column : String → Bool → Tables W → Tables W
  unfolding lookup insert
  set_active_column id active t = elim (lookup id t.virtual_keys) [
    | none ↦ t
    | some row ↦ record t {
      virtual_keys = insert id (record row { is_active = active }) t.virtual_keys;
    }
  ]

  abbrev pub save_key : StoreVirtualKey W → Tables W → Tables W
  save_key row t = record t { virtual_keys = insert row.id row t.virtual_keys }

  -- The budget's status goes with the key.
  unfoldable pub write_active :
      Faults → StoreVirtualKey W → String → Bool → String → Tables W → Result StoreError (Tables W)
  unfolding set_active_column set_status
  write_active faults key id active status t = do
    fail_if faults.write_key database_error
    fail_if faults.write_budget database_error
    ok (set_status key.budget_id status (set_active_column id active t))

  module _ (c : Cipher) (faults : Faults) where
    -- The body of the transaction of `SetVirtualKeyActive`.
    unfoldable pub set_active_body :
        String → Bool → Tables W → Result StoreError (Tables W × Unit {0})
    unfolding first_key count_bound write_active before_save
    set_active_body id active t = do
      key ← first_key c faults.find id t
      if key.is_active && active || not key.is_active && not active then ok (t, tt) else do
        fail_if (active && faults.count) database_error
        fail_if (active && ltb 0 (count_bound key.budget_id id t.virtual_keys)) budget_already_bound
        sealed ← before_save c key
        t' ← write_active faults key id active (if active then "bound" else "released") t
        ok (t', tt)

    unfoldable pub set_virtual_key_active :
        String → Bool → Tables W → Tables W × Result StoreError (StoreVirtualKey W)
    unfolding set_active_body
    set_virtual_key_active id active t =
        let (t', r) = transaction (set_active_body id active) t in
        (t', r >>= λ done. first_key c faults.reload id t')

    unfoldable pub revoke_body : String → Tables W → Result StoreError (Tables W × Unit {0})
    unfolding first_key write_active before_save
    revoke_body id t = do
      key ← first_key c faults.find id t
      sealed ← before_save c key
      t' ← write_active faults key id false "released" t
      ok (t', tt)

    unfoldable pub revoke_virtual_key : String → Tables W → Tables W × Result StoreError (Unit {0})
    unfolding revoke_body
    revoke_virtual_key id t = transaction (revoke_body id) t

    unfoldable pub delete_body : String → Tables W → Result StoreError (Tables W × Unit {0})
    unfolding first_key set_status delete
    delete_body id t = do
      key ← first_key c faults.find id t
      fail_if faults.write_key database_error
      fail_if faults.write_budget database_error
      ok (
        set_status key.budget_id "released" (record t { virtual_keys = delete id t.virtual_keys }),
        tt,
      )

    unfoldable pub delete_virtual_key : String → Tables W → Tables W × Result StoreError (Unit {0})
    unfolding delete_body
    delete_virtual_key id t = transaction (delete_body id) t

    -- `generated` is what `GenerateVirtualKey` returned: the key, its hash and its prefix.
    unfoldable pub rotate_body :
        String × String × String → String → Tables W → Result StoreError (Tables W × Unit {0})
    unfolding first_key before_save
    rotate_body (api_key, hash, prefix) id t = do
      key ← first_key c faults.find id t
      fail_if (not key.is_active) key_is_revoked
      sealed ←
          before_save c (record key { api_key = api_key; key_hash = hash; display_prefix = prefix })
      fail_if faults.write_key database_error
      ok (save_key sealed t, tt)

    unfoldable pub rotate_virtual_key :
        Option (String × String × String)
        → String
        → Tables W
        → Tables W × Result StoreError (StoreVirtualKey W × String)
    unfolding rotate_body
    rotate_virtual_key none id t = (t, err key_not_generated)
    rotate_virtual_key (some generated) id t =
        let (t', r) = transaction (rotate_body generated id) t in
        (t', do done ← r; row ← first_key c faults.reload id t'; ok (row, generated.0))

-- `configs[0].Weight = 1`; the list is not empty once it has compiled.
unfoldable pub whole_weight : {W : Type 0} → W → List (ProviderConfig W) → List (ProviderConfig W)
whole_weight one [] = []
whole_weight one (cfg ∷ cfgs) = record cfg { weight = one } ∷ cfgs

-- A nil field of the request is `none`.
pub record UpdateRoutingRequest (W : Type 0) : Type 0 where
  pub mode : Option VkMode
  pub provider_configs : Option (List (ProviderConfig W))
  pub load_balancer : Option LbKind

module _ {W : Type 0} where
  unfoldable pub apply_routing : UpdateRoutingRequest W → StoreVirtualKey W → StoreVirtualKey W
  unfolding vk_mode_string lb_kind_string
  apply_routing request key = record key {
    mode = elim request.mode [ none ↦ key.mode | some mode ↦ vk_mode_string mode ];
    provider_configs = elim request.provider_configs [
      | none ↦ key.provider_configs
      | some cfgs ↦ cfgs
    ];
    load_balancer = elim request.load_balancer [
      | none ↦ key.load_balancer
      | some lb ↦ lb_kind_string lb
    ];
  }

  -- `ToCore`
  unfoldable pub to_core : Weights W → StoreVirtualKey W → Result StoreError (VirtualKey W)
  unfolding parse_vk_mode parse_lb_kind
  to_core wt key = do
    mode ← or_err bad_mode (parse_vk_mode key.mode)
    lb ← or_err bad_load_balancer (parse_lb_kind key.load_balancer)
    cfgs ← or_bad_configs (compile_provider_configs wt mode key.provider_configs)
    ok (record {
      id = key.id;
      key = key.api_key;
      client_id = key.client_id;
      budget_id = key.budget_id;
      is_active = key.is_active;
      expires_at = key.expires_at;
      mode = mode;
      load_balancer = lb;
      provider_configs = cfgs;
    })

  module _ (c : Cipher) (wt : Weights W) (faults : Faults) where
    unfoldable pub routing_body :
        String → UpdateRoutingRequest W → Tables W → Result StoreError (Tables W × Unit {0})
    unfolding first_key apply_routing parse_vk_mode parse_lb_kind whole_weight before_save
    routing_body id request t = do
      stored ← first_key c faults.find id t
      let key = apply_routing request stored
      mode ← or_err bad_mode (parse_vk_mode key.mode)
      cfgs ← or_bad_configs (compile_provider_configs wt mode key.provider_configs)
      lb ← or_err bad_load_balancer (parse_lb_kind key.load_balancer)
      sealed ← before_save c (
          if is_direct mode
          then record key { provider_configs = whole_weight wt.one key.provider_configs }
          else key)
      fail_if faults.write_key database_error
      ok (save_key sealed t, tt)

    unfoldable pub update_virtual_key_routing :
        String
        → UpdateRoutingRequest W
        → Tables W
        → Tables W × Result StoreError (StoreVirtualKey W)
    unfolding routing_body
    update_virtual_key_routing id request t =
        let (t', r) = transaction (routing_body id request) t in
        (t', r >>= λ done. first_key c faults.reload id t')
