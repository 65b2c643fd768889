-- ===== src/Core/VirtualKey.antt =====
-- internal/core/virtualkey.go and the load balancers of dataplane.go: the policy of a virtual key.
pub mod Compile
pub mod Access
use text.Mathlib.Text.{◌==◌}
use diffractllm.Base.{
  ℕ, suc, Bool, true, false, not, ◌&&◌, ◌||◌, String, Option, none, some, List, [], ◌∷◌, ◌++◌, ℤ,
  Result, ok, err, ◌>>=◌, ◌>>◌, fail_if, if◌then◌else◌, length,
}
use diffractllm.Base.{◌==◌ as nat_equal}
use diffractllm.Core.Models.{CatalogKey, trim_space}

pub data VkMode : Type 0 where
  direct weighted : VkMode

pub data LbKind : Type 0 where
  round_robin least_connection latency_based : LbKind

unfoldable pub lb_implemented : LbKind → Bool
lb_implemented round_robin = true
lb_implemented _ = false

-- `float32` weights, and the `float64` that adds them up.
pub record Weights (W : Type 0) : Type 0 where
  pub zero : W
  pub one : W
  pub add : W → W → W
  -- `w < 0 || w > 1 || IsNaN(w) || IsInf(w)`
  pub out_of_range : W → Bool
  -- `math.Abs(total - 1.0) > 1e-6`
  pub far_from_one : W → Bool

-- A set of the runtime, `map[string]struct{}`, is the list of its members.
pub record ProviderConfig (W : Type 0) : Type 0 where
  pub provider : String
  pub allowed_models : List String
  pub blocked_models : List String
  pub weight : W
  pub runtime_allowed_models : List String
  pub runtime_blocked_models : List String
  pub allow_all : Bool

unfoldable pub has : List String → String → Bool
has [] m = false
has (x ∷ xs) m = x == m || has xs m

-- The receiver is not nil here; a nil receiver is `none` at the callers.
unfoldable pub is_model_allowed : {W : Type 0} → ProviderConfig W → CatalogKey → Bool
unfolding has
is_model_allowed config key =
    if not (key.provider == config.provider) || key.model_name == ""
    then false
    else if has config.runtime_blocked_models key.model_name
    then false
    else config.allow_all || has config.runtime_allowed_models key.model_name

pub data CompileError : Type 0 where
  no_configs not_one_config empty_provider weights_sum : CompileError
  duplicate_provider bad_weight empty_blocked blocks_all empty_model no_models :
      String → CompileError

-- The loop over the blocked models, behind those that were compiled already.
unfoldable pub compile_blocked :
    String → List String → List String → Result CompileError (List String)
unfolding has
compile_blocked provider done [] = ok done
compile_blocked provider done (raw ∷ rest) =
    let model = trim_space raw in
    do
      fail_if (model == "") (empty_blocked provider)
      fail_if (model == "*") (blocks_all provider)
      compile_blocked provider (if has done model then done else done ++ model ∷ []) rest

unfoldable pub compile_allowed :
    String → Bool → List String → List String → Result CompileError (Bool × List String)
unfolding has
compile_allowed provider all done [] = ok (all, done)
compile_allowed provider all done (raw ∷ rest) =
    let model = trim_space raw in
    do
      fail_if (model == "") (empty_model provider)
      compile_allowed provider (all || model == "*")
          (if has done model then done else done ++ model ∷ []) rest

abbrev pub is_direct : VkMode → Bool
is_direct direct = true
is_direct weighted = false

abbrev pub is_nil {ℓ} : {A : Type ℓ} → List A → Bool
is_nil [] = true
is_nil _ = false

module _ {W : Type 0} (wt : Weights W) where
  -- The body of the loop, with the providers that came before.
  unfoldable pub compile_config :
      VkMode → List String → ProviderConfig W → Result CompileError (ProviderConfig W)
  compile_config mode providers stored =
      let provider = trim_space stored.provider in
      do
        fail_if (provider == "") empty_provider
        fail_if (has providers provider) (duplicate_provider provider)
        fail_if (not (is_direct mode) && wt.out_of_range stored.weight) (bad_weight provider)
        blocked ← compile_blocked provider [] stored.blocked_models
        allowed ← compile_allowed provider false [] stored.allowed_models
        fail_if (is_nil allowed.1) (no_models provider)
        ok (record {
          provider = provider;
          allowed_models = allowed.1;
          blocked_models = blocked;
          weight = if is_direct mode then wt.one else stored.weight;
          runtime_allowed_models = allowed.1;
          runtime_blocked_models = blocked;
          allow_all = allowed.0;
        })

  unfoldable pub compile_loop :
      VkMode → List String → List (ProviderConfig W) → Result CompileError (List (ProviderConfig W))
  compile_loop mode providers [] = ok []
  compile_loop mode providers (stored ∷ rest) = do
    config ← compile_config mode providers stored
    configs ← compile_loop mode (config.provider ∷ providers) rest
    ok (config ∷ configs)

  unfoldable pub total_weight : W → List (ProviderConfig W) → W
  total_weight total [] = total
  total_weight total (stored ∷ rest) = total_weight (wt.add total stored.weight) rest

  unfoldable pub compile_provider_configs :
      VkMode → List (ProviderConfig W) → Result CompileError (List (ProviderConfig W))
  unfolding compile_loop total_weight
  compile_provider_configs mode configs = do
    fail_if (is_nil configs) no_configs
    fail_if (is_direct mode && not (nat_equal (length configs) 1)) not_one_config
    runtime ← compile_loop mode [] configs
    fail_if (not (is_direct mode) && wt.far_from_one (total_weight wt.zero configs)) weights_sum
    ok runtime

pub record VirtualKey (W : Type 0) : Type 0 where
  pub id : String
  pub key : String
  pub client_id : String
  pub budget_id : String
  pub is_active : Bool
  pub expires_at : Option ℤ
  pub mode : VkMode
  pub load_balancer : LbKind
  pub provider_configs : List (ProviderConfig W)

pub data ValidateError : Type 0 where
  not_implemented : LbKind → ValidateError
  no_provider_configs : ValidateError

unfoldable pub validate : {W : Type 0} → VirtualKey W → Result ValidateError (Unit {0})
unfolding lb_implemented
validate vk = do
  fail_if (not (lb_implemented vk.load_balancer)) (not_implemented vk.load_balancer)
  fail_if (is_nil vk.provider_configs) no_provider_configs
  ok tt

unfoldable pub provider_config :
    {W : Type 0} → List (ProviderConfig W) → String → Option (ProviderConfig W)
provider_config [] provider = none
provider_config (cfg ∷ cfgs) provider =
    if cfg.provider == provider then some cfg else provider_config cfgs provider

-- The loop of `IsModelKeyAllowed` over the providers of the key.
unfoldable pub any_allows : {W : Type 0} → List (ProviderConfig W) → CatalogKey → Bool
unfolding is_model_allowed
any_allows [] key = false
any_allows (cfg ∷ cfgs) key =
    is_model_allowed cfg (record key { provider = cfg.provider }) || any_allows cfgs key

unfoldable pub is_model_key_allowed : {W : Type 0} → List (ProviderConfig W) → CatalogKey → Bool
unfolding provider_config any_allows is_model_allowed
is_model_key_allowed cfgs key =
    if key.provider == "" then any_allows cfgs key else elim (provider_config cfgs key.provider) [
      | none ↦ false
      | some cfg ↦ is_model_allowed cfg key
    ]
