-- ===== src/Core/Hooks/Laws.antt =====
-- internal/core/hooks.go: which hooks run, and what the log holds of them.
use diffractllm.Base.{
  inl, inr, add64, Option-cases, ℕ, suc, ◌+◌, ◌≤◌, ◌≡◌, refl, ap, sym, ◌∙◌, String, Option, none,
  some, List, [], ◌∷◌, ◌++◌, ℤ, length, length-append, arith,
}
use mathlib.Core.List.{append_assoc, append-nil}
use diffractllm.Core.Errors.{DiffractError}
use diffractllm.Core.Hooks.{
  Hook, HookEngine, HookResult, PhaseLog, HookLog, HookStatus, max_hooks, logged, log_result,
  run_pre_hooks, run_post_hooks, hook_failed, hook_rejected, reset, run_pre_call_hooks,
  run_post_provider_hooks, empty_phase,
}

abbrev pub result_names : List HookResult → List String
result_names [] = []
result_names (r ∷ rs) = r.name ∷ result_names rs

result_names-append :
    (rs ts : List HookResult) → result_names (rs ++ ts) ≡ result_names rs ++ result_names ts
result_names-append [] ts = refl
result_names-append (r ∷ rs) ts = ap (λ l. r.name ∷ l) (result_names-append rs ts)

logged-name :
    (status : HookStatus) (name : String) (elapsed : ℤ) (e : Option DiffractError)
    → (logged status name elapsed e).name ≡ name
unfolding logged
logged-name status name elapsed none = refl
logged-name status name elapsed (some e) = refl

log_result-room :
    (r : HookResult) (log : PhaseLog)
    → suc (length log.results) ≤ max_hooks
    → (log' : PhaseLog) × (log_result r log ≡ some log')
      × (log'.results ≡ log.results ++ r ∷ [])
      × (length log'.results ≡ suc (length log.results))
unfolding log_result
log_result-room r log h = (
  record { results = log.results ++ r ∷ []; total = add64 log.total r.duration },
  ground arith,
  refl,
  omega (arith, length-append log.results (r ∷ [])),
)

module _ {S : Type 0} where
  -- The state after every hook has run, one after another.
  abbrev pub run_all : List (Hook S) → S → S
  run_all [] s = s
  run_all (hook ∷ hooks) s = run_all hooks (hook.execute s).0

  -- The hooks up to the first that answers an error, that one included; the state after them; the error.
  abbrev pub run_until_error : List (Hook S) → S → List String × S × Option DiffractError
  run_until_error [] s = ([], s, none)
  run_until_error (hook ∷ hooks) s = elim (hook.execute s).1 [
    | some e ↦ (hook.name ∷ [], (hook.execute s).0, some e)
    | none ↦
        let (names, s', e) = run_until_error hooks (hook.execute s).0 in (hook.name ∷ names, s', e)
  ]

  abbrev pub hook_names : List (Hook S) → List String
  hook_names [] = []
  hook_names (hook ∷ hooks) = hook.name ∷ hook_names hooks

  module _ (elapsed : ℕ → ℤ) (i : ℕ) (hook : Hook S) (hooks : List (Hook S)) (s : S)
      (log log' : PhaseLog) where
    run_pre_hooks-passed :
        log_result (logged hook_rejected hook.name (elapsed i) (hook.execute s).1) log ≡ some log'
        → (hook.execute s).1 ≡ none
        → run_pre_hooks elapsed i (hook ∷ hooks) s log
          ≡ run_pre_hooks elapsed (suc i) hooks (hook.execute s).0 log'
    unfolding run_pre_hooks
    run_pre_hooks-passed room passed = ground arith

    run_pre_hooks-failed :
        (e : DiffractError)
        → log_result (logged hook_rejected hook.name (elapsed i) (hook.execute s).1) log ≡ some log'
        → (hook.execute s).1 ≡ some e
        → run_pre_hooks elapsed i (hook ∷ hooks) s log ≡ some ((hook.execute s).0, log', some e)
    unfolding run_pre_hooks
    run_pre_hooks-failed e room failed = ground arith

    run_post_hooks-step :
        log_result (logged hook_failed hook.name (elapsed i) (hook.execute s).1) log ≡ some log'
        → run_post_hooks elapsed i (hook ∷ hooks) s log
          ≡ run_post_hooks elapsed (suc i) hooks (hook.execute s).0 log'
    unfolding run_post_hooks
    run_post_hooks-step room = ground arith

    run_until_error-passed :
        (hook.execute s).1 ≡ none
        → let (names, s', e) = run_until_error hooks (hook.execute s).0 in
          run_until_error (hook ∷ hooks) s ≡ (hook.name ∷ names, s', e)
    run_until_error-passed passed = ground arith

    run_until_error-failed :
        (e : DiffractError)
        → (hook.execute s).1 ≡ some e
        → run_until_error (hook ∷ hooks) s ≡ (hook.name ∷ [], (hook.execute s).0, some e)
    run_until_error-failed e failed = ground arith

  names_later :
      (status : HookStatus) (elapsed : ℕ → ℤ) (i : ℕ) (hook : Hook S) (s : S) (log log' : PhaseLog)
      → log'.results ≡ log.results ++ logged status hook.name (elapsed i) (hook.execute s).1 ∷ []
      → result_names log'.results ≡ result_names log.results ++ hook.name ∷ []
  names_later status elapsed i hook s log log' results =
      let result = logged status hook.name (elapsed i) (hook.execute s).1 in
      ap result_names results
      ∙ result_names-append log.results (result ∷ [])
      ∙ ap (λ n. result_names log.results ++ n ∷ [])
          (logged-name status hook.name (elapsed i) (hook.execute s).1)

  -- What a run of the hooks before the provider leaves.
  record PreRun (hooks : List (Hook S)) (s : S) (log : PhaseLog)
      (out : Option (S × PhaseLog × Option DiffractError)) : Type 0 where
    log' : PhaseLog
    ran : out ≡ some ((run_until_error hooks s).1, log', (run_until_error hooks s).2)
    names : result_names log'.results ≡ result_names log.results ++ (run_until_error hooks s).0

  run_pre_hooks-PreRun :
      (elapsed : ℕ → ℤ) (i : ℕ) (hooks : List (Hook S)) (s : S) (log : PhaseLog)
      → length log.results + length hooks ≤ max_hooks
      → PreRun hooks s log (run_pre_hooks elapsed i hooks s log)
  unfolding run_pre_hooks
  run_pre_hooks-PreRun elapsed i [] s log h = record {
    log' = log;
    ran = refl;
    names = sym (append-nil (result_names log.results));
  }
  run_pre_hooks-PreRun elapsed i (hook ∷ hooks) s log h =
      let result = logged hook_rejected hook.name (elapsed i) (hook.execute s).1 in
      let (log', room, results, len) = log_result-room result log (omega arith) in
      let rest = run_pre_hooks-PreRun elapsed (suc i) hooks (hook.execute s).0 log' (omega arith) in
      let named = names_later hook_rejected elapsed i hook s log log' results in
      elim (Option-cases (hook.execute s).1) [
        | inl passed ↦
            let spec = run_until_error-passed elapsed i hook hooks s log log' passed in
            record {
              log' = rest.log';
              ran =
                  rw spec
                    (run_pre_hooks-passed elapsed i hook hooks s log log' room passed ∙ rest.ran);
              names = rw spec (
                  rest.names
                  ∙ ap (λ l. l ++ (run_until_error hooks (hook.execute s).0).0) named
                  ∙ append_assoc (result_names log.results) (hook.name ∷ [])
                      (run_until_error hooks (hook.execute s).0).0);
            }
        | inr (e, failed) ↦
            let spec = run_until_error-failed elapsed i hook hooks s log log' e failed in
            record {
              log' = log';
              ran = rw spec (run_pre_hooks-failed elapsed i hook hooks s log log' e room failed);
              names = rw spec named;
            }
      ]

  -- What a run of the hooks after it leaves.
  record PostRun (hooks : List (Hook S)) (s : S) (log : PhaseLog) (out : Option (S × PhaseLog))
      : Type 0 where
    log' : PhaseLog
    ran : out ≡ some (run_all hooks s, log')
    names : result_names log'.results ≡ result_names log.results ++ hook_names hooks

  run_post_hooks-PostRun :
      (elapsed : ℕ → ℤ) (i : ℕ) (hooks : List (Hook S)) (s : S) (log : PhaseLog)
      → length log.results + length hooks ≤ max_hooks
      → PostRun hooks s log (run_post_hooks elapsed i hooks s log)
  unfolding run_post_hooks
  run_post_hooks-PostRun elapsed i [] s log h = record {
    log' = log;
    ran = refl;
    names = sym (append-nil (result_names log.results));
  }
  run_post_hooks-PostRun elapsed i (hook ∷ hooks) s log h =
      let result = logged hook_failed hook.name (elapsed i) (hook.execute s).1 in
      let (log', room, results, len) = log_result-room result log (omega arith) in
      let rest =
        run_post_hooks-PostRun elapsed (suc i) hooks (hook.execute s).0 log' (omega arith) in
      record {
        log' = rest.log';
        ran = run_post_hooks-step elapsed i hook hooks s log log' room ∙ rest.ran;
        names =
            rest.names
            ∙ ap (λ l. l ++ hook_names hooks)
                (names_later hook_failed elapsed i hook s log log' results)
            ∙ append_assoc (result_names log.results) (hook.name ∷ []) (hook_names hooks);
      }

  -- A run on a log that was reset never writes past the log: before the provider it runs the hooks up to
  -- the first error, answers that error, and logs exactly the hooks that ran; a phase has at most five
  -- hooks.
  pub run_pre_call_hooks_lem :
      (elapsed : ℕ → ℤ) (he : HookEngine S) (s : S) (log : HookLog)
      → length he.pre_call_hooks ≤ max_hooks
      → (phase : PhaseLog) × (run_pre_call_hooks elapsed he s (reset log)
          ≡ some (
            (run_until_error he.pre_call_hooks s).1,
            record (reset log) { pre_call = phase },
            (run_until_error he.pre_call_hooks s).2,
          ))
        × (result_names phase.results ≡ (run_until_error he.pre_call_hooks s).0)
  unfolding run_pre_call_hooks reset
  run_pre_call_hooks_lem elapsed he s log h =
      let run = run_pre_hooks-PreRun elapsed 0 he.pre_call_hooks s empty_phase (omega arith) in
      (run.log', ground (arith, run.ran), run.names)

  -- On a log that was reset, every hook after the provider runs, whatever the others answer, and all are
  -- logged; a phase has at most five hooks.
  pub run_post_provider_hooks_lem :
      (elapsed : ℕ → ℤ) (he : HookEngine S) (s : S) (log : HookLog)
      → length he.post_provider_hooks ≤ max_hooks
      → (phase : PhaseLog) × (run_post_provider_hooks elapsed he s (reset log)
          ≡ some (run_all he.post_provider_hooks s, record (reset log) { post_provider = phase }))
        × (result_names phase.results ≡ hook_names he.post_provider_hooks)
  unfolding run_post_provider_hooks reset
  run_post_provider_hooks_lem elapsed he s log h =
      let run =
        run_post_hooks-PostRun elapsed 0 he.post_provider_hooks s empty_phase (omega arith) in
      (run.log', ground (arith, run.ran), run.names)
