-- ===== src/Tests/Store.antt =====
-- The virtual keys and budgets of the database, from empty tables on.
use diffractllm.Base.{
  delete, arith, ◌==◌, not, ltb, lookup, ◌+◌, ◌≡◌, refl, String, none, some, true, false, [], ◌∷◌,
  ℕ, pos, Bool,
}
use diffractllm.Core.VirtualKey.{Weights, direct, round_robin, ProviderConfig}
use diffractllm.Store.Tables.{
  transaction, first_key, StoreVirtualKey, StoreBudget, Tables, Cipher, no_faults,
}
use diffractllm.Store.VirtualKeys.{delete_virtual_key}
use diffractllm.Store.Creation.{
  create_body, hash_taken, VirtualKeyRequest, BudgetRequest, create_budget, create_virtual_key_tx,
}
use diffractllm.Store.Exclusive.{claim, IsExclusive}
use diffractllm.Store.Invariant.{
  here, next, budget_created, created, deleted, StoreReach-IsExclusive,
}
use diffractllm.Store.Release.{delete_virtual_key-doubles}
use diffractllm.Tests.Samples.{virtual_key}

abbrev empty : Tables ℕ
empty = record { virtual_keys = []; budgets = [] }

-- A cipher that does nothing.
abbrev plain : Cipher
plain = record { encrypt_key = λ s. some s; decrypt_key = λ s. some s }

empty-IsExclusive : IsExclusive empty
unfolding claim
empty-IsExclusive = record {
  keyed = λ i key h. ground arith;
  single = λ i j b h h'. ground arith;
  marked = λ i b s h h'. ground arith;
}

abbrev weights : Weights ℕ
weights = record {
  zero = 0;
  one = 10;
  add = λ a b. a + b;
  out_of_range = λ w. ltb 10 w;
  far_from_one = λ w. not (w == 10);
}

abbrev budget_request : BudgetRequest
budget_request = record {
  name = "team";
  budget_limit = pos 500;
  budget_unit = "";
  budget_duration = "24h";
  enforce = none;
  last_budget_refresh_at = none;
}

abbrev key_request : VirtualKeyRequest ℕ
key_request = record {
  client_id = "c1";
  budget_id = "b1";
  expires_at = none;
  mode = some direct;
  load_balancer = some round_robin;
  provider_configs = virtual_key.provider_configs;
}

abbrev with_budget : Tables ℕ
with_budget = (create_budget (λ d. true) false "b1" (pos 1_000) budget_request empty).0

abbrev with_key : Tables ℕ
with_key =
    (create_virtual_key_tx plain no_faults weights "k1" (some ("dk-1", "hash1", "dk-1")) key_request
      with_budget).0

with_key-claim : claim with_key "k1" ≡ some "b1"
unfolding claim create_virtual_key_tx create_budget
    diffractllm.Core.VirtualKey.compile_provider_configs diffractllm.Core.VirtualKey.compile_config
    diffractllm.Core.Models.trim_space diffractllm.Core.VirtualKey.has
    diffractllm.Core.VirtualKey.compile_blocked diffractllm.Core.VirtualKey.compile_allowed
with_key-claim = refl

StoreReach-IsExclusive_example : IsExclusive (delete_virtual_key plain no_faults "k1" with_key).0
unfolding claim
StoreReach-IsExclusive_example = StoreReach-IsExclusive plain weights empty-IsExclusive (
    next
      (next
        (next here (
          budget_created (λ d. true) false "b1" (pos 1_000) budget_request (λ j h. ground arith)
            refl))
        (created no_faults "k1" (some ("dk-1", "hash1", "dk-1")) key_request refl))
      (deleted no_faults "k1" (λ h. ground (arith, with_key-claim)) refl))

-- A revoked key of the budget that the other one holds.
abbrev row : String → Bool → StoreVirtualKey ℕ
row id active = record {
  id = id;
  key_hash = id;
  api_key = id;
  display_prefix = "dk";
  client_id = "c1";
  budget_id = "b1";
  mode = "direct";
  provider_configs = [];
  load_balancer = "round_robin";
  is_active = active;
  expires_at = none;
}

abbrev bound_budget : StoreBudget
bound_budget = record {
  id = "b1";
  name = "team";
  budget_limit = pos 500;
  budget_unit = "nanodollars";
  budget_duration = "24h";
  enforce = true;
  total_cost = pos 0;
  request_count = pos 0;
  status = "bound";
  last_budget_refresh_at = pos 1_000;
}

abbrev shared : Tables ℕ
shared = record {
  virtual_keys = ("k1", row "k1" false) ∷ ("k2", row "k2" true) ∷ [];
  budgets = ("b1", bound_budget) ∷ [];
}

delete_virtual_key-doubles_example :
    let t1 = (delete_virtual_key plain no_faults "k1" shared).0 in
    let t2 = (transaction (create_body plain no_faults (row "k3" true)) t1).0 in
    (claim t2 "k2" ≡ some "b1") × (claim t2 "k3" ≡ some "b1")
unfolding claim first_key lookup hash_taken delete
delete_virtual_key-doubles_example =
    delete_virtual_key-doubles plain shared "k1" "k2" "b1" (row "k1" false) (row "k3" true)
      bound_budget "k3" refl refl refl refl refl refl refl refl refl refl refl
