-- ===== src/Core/Hooks.antt =====
-- internal/core/hooks.go: the hooks of a request, in four phases. An array of `maxHooks` slots with the
-- count of those in use is the list of those in use; a write past the last slot panics, which is `none`.
-- How long the hook at an index takes is an argument.
pub mod Laws
use diffractllm.Base.{
  ℕ, suc, ◌+◌, Bool, true, false, String, Option, none, some, List, [], ◌∷◌, ◌++◌, ℤ, pos, leb,
  length, add64, if◌then◌else◌, Result, ok, err,
}
use diffractllm.Core.Errors.{DiffractError, new_internal_error}

-- What a hook does to the state that it shares with the others, and the error it answers, if any.
pub record Hook (S : Type 0) : Type 0 where
  pub name : String
  pub execute : S → S × Option DiffractError

pub data HookStatus : Type 0 where
  hook_ok hook_rejected hook_failed : HookStatus

abbrev pub max_hooks : ℕ
max_hooks = 5

pub record HookResult : Type 0 where
  pub name : String
  pub status : HookStatus
  pub duration : ℤ
  pub error : String

-- One phase of a `HookLog`.
pub record PhaseLog : Type 0 where
  pub results : List HookResult
  pub total : ℤ

abbrev pub empty_phase : PhaseLog
empty_phase = record { results = []; total = pos 0 }

pub record HookLog : Type 0 where
  pub pre_call : PhaseLog
  pub pre_provider : PhaseLog
  pub post_provider : PhaseLog
  pub post_call : PhaseLog

unfoldable pub reset : HookLog → HookLog
reset log = record {
  pre_call = empty_phase;
  pre_provider = empty_phase;
  post_provider = empty_phase;
  post_call = empty_phase;
}

pub record HookEngine (S : Type 0) : Type 0 where
  pub pre_call_hooks : List (Hook S)
  pub pre_provider_hooks : List (Hook S)
  pub post_provider_hooks : List (Hook S)
  pub post_call_hooks : List (Hook S)

-- The error's text where there is one.
unfoldable pub logged : HookStatus → String → ℤ → Option DiffractError → HookResult
logged status name elapsed none = record {
  name = name;
  status = hook_ok;
  duration = elapsed;
  error = "";
}
logged status name elapsed (some e) = record {
  name = name;
  status = status;
  duration = elapsed;
  error = e.detail;
}

-- The result goes to the first free slot.
unfoldable pub log_result : HookResult → PhaseLog → Option PhaseLog
log_result result log =
    if leb max_hooks (length log.results)
    then none
    else some
        (record { results = log.results ++ result ∷ []; total = add64 log.total result.duration })

module _ {S : Type 0} where
  unfoldable pub new_hook_engine : HookEngine S
  new_hook_engine = record {
    pre_call_hooks = [];
    pre_provider_hooks = [];
    post_provider_hooks = [];
    post_call_hooks = [];
  }

  unfoldable pub registered : HookEngine S → ℕ
  registered he =
      length he.pre_call_hooks
      + length he.pre_provider_hooks
      + length he.post_provider_hooks
      + length he.post_call_hooks

  -- The guard and the assignment that the four `Add…Hook` share.
  unfoldable pub add_hook : Hook S → List (Hook S) → Result DiffractError (List (Hook S))
  add_hook hook hooks =
      if leb max_hooks (length hooks)
      then err (new_internal_error "hook limit reached")
      else ok (hooks ++ hook ∷ [])

  unfoldable pub add_pre_call_hook : Hook S → HookEngine S → Result DiffractError (HookEngine S)
  unfolding add_hook
  add_pre_call_hook hook he = elim (add_hook hook he.pre_call_hooks) [
    | err e ↦ err e
    | ok hooks ↦ ok (record he { pre_call_hooks = hooks })
  ]

  unfoldable pub add_pre_provider_hook : Hook S → HookEngine S → Result DiffractError (HookEngine S)
  unfolding add_hook
  add_pre_provider_hook hook he = elim (add_hook hook he.pre_provider_hooks) [
    | err e ↦ err e
    | ok hooks ↦ ok (record he { pre_provider_hooks = hooks })
  ]

  unfoldable pub add_post_provider_hook :
      Hook S → HookEngine S → Result DiffractError (HookEngine S)
  unfolding add_hook
  add_post_provider_hook hook he = elim (add_hook hook he.post_provider_hooks) [
    | err e ↦ err e
    | ok hooks ↦ ok (record he { post_provider_hooks = hooks })
  ]

  unfoldable pub add_post_call_hook : Hook S → HookEngine S → Result DiffractError (HookEngine S)
  unfolding add_hook
  add_post_call_hook hook he = elim (add_hook hook he.post_call_hooks) [
    | err e ↦ err e
    | ok hooks ↦ ok (record he { post_call_hooks = hooks })
  ]

  -- The loop of the two phases before the provider: the first error ends it.
  unfoldable pub run_pre_hooks :
      (ℕ → ℤ) → ℕ → List (Hook S) → S → PhaseLog → Option (S × PhaseLog × Option DiffractError)
  unfolding log_result logged
  run_pre_hooks elapsed i [] s log = some (s, log, none)
  run_pre_hooks elapsed i (hook ∷ hooks) s log =
      let (s', hook_err) = hook.execute s in
      elim (log_result (logged hook_rejected hook.name (elapsed i) hook_err) log) [
        | none ↦ none
        | some log' ↦ elim hook_err [
          | some e ↦ some (s', log', some e)
          | none ↦ run_pre_hooks elapsed (suc i) hooks s' log'
        ]
      ]

  -- The loop of the two phases after it: an error is logged, and the next hook runs.
  unfoldable pub run_post_hooks : (ℕ → ℤ) → ℕ → List (Hook S) → S → PhaseLog → Option (S × PhaseLog)
  unfolding log_result logged
  run_post_hooks elapsed i [] s log = some (s, log)
  run_post_hooks elapsed i (hook ∷ hooks) s log =
      let (s', hook_err) = hook.execute s in
      elim (log_result (logged hook_failed hook.name (elapsed i) hook_err) log) [
        | none ↦ none
        | some log' ↦ run_post_hooks elapsed (suc i) hooks s' log'
      ]

  unfoldable pub run_pre_call_hooks :
      (ℕ → ℤ) → HookEngine S → S → HookLog → Option (S × HookLog × Option DiffractError)
  unfolding run_pre_hooks
  run_pre_call_hooks elapsed he s log =
      elim (run_pre_hooks elapsed 0 he.pre_call_hooks s log.pre_call) [
        | none ↦ none
        | some (s', phase, e) ↦ some (s', record log { pre_call = phase }, e)
      ]

  unfoldable pub run_pre_provider_hooks :
      (ℕ → ℤ) → HookEngine S → S → HookLog → Option (S × HookLog × Option DiffractError)
  unfolding run_pre_hooks
  run_pre_provider_hooks elapsed he s log =
      elim (run_pre_hooks elapsed 0 he.pre_provider_hooks s log.pre_provider) [
        | none ↦ none
        | some (s', phase, e) ↦ some (s', record log { pre_provider = phase }, e)
      ]

  unfoldable pub run_post_provider_hooks :
      (ℕ → ℤ) → HookEngine S → S → HookLog → Option (S × HookLog)
  unfolding run_post_hooks
  run_post_provider_hooks elapsed he s log =
      elim (run_post_hooks elapsed 0 he.post_provider_hooks s log.post_provider) [
        | none ↦ none
        | some (s', phase) ↦ some (s', record log { post_provider = phase })
      ]

  unfoldable pub run_post_call_hooks : (ℕ → ℤ) → HookEngine S → S → HookLog → Option (S × HookLog)
  unfolding run_post_hooks
  run_post_call_hooks elapsed he s log =
      elim (run_post_hooks elapsed 0 he.post_call_hooks s log.post_call) [
        | none ↦ none
        | some (s', phase) ↦ some (s', record log { post_call = phase })
      ]
