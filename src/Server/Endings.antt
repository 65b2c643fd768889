-- ===== src/Server/Endings.antt =====
-- internal/server/handlers.go: every request ends, with an answer.
use diffractllm.Base.{
  ◌&&◌, ◌∙◌, [], ◌∷◌, true, false, not, fail_if, ◌≡◌, refl, ap, sym, subst, ◌⊎◌, inl, inr, Option,
  none, some, Bool-cases, Result, ok, err, ◌>>=◌, arith,
}
use diffractllm.Catalog.Prices.{resolve_price, empty_selector_key}
use diffractllm.Core.Context.{Context}
use diffractllm.Core.Credential.{Credential}
use diffractllm.Core.Errors.{
  new_unpriced_model, new_invalid_request_body, DiffractError, new_internal_error,
}
use diffractllm.Server.Chat.{chat_completion, Upstream}
use diffractllm.Governance.Billing.{execute_record}
use diffractllm.Core.Hooks.{
  HookResult, PhaseLog, HookLog, empty_phase, reset, run_pre_call_hooks, run_pre_provider_hooks,
  run_post_provider_hooks, run_post_call_hooks, run_post_hooks, run_pre_hooks, log_result, logged,
  hook_failed,
}
use diffractllm.Core.Hooks.Laws.{run_pre_call_hooks_lem}
use diffractllm.Core.Money.{FloatMoney}
use diffractllm.Dataplane.Selection.{resolve, Cursors}
use diffractllm.Governance.Admission.{validate_vkey_auth, ModelLookup}
use diffractllm.Governance.Billing.{Shared, record_hook}
use diffractllm.Metrics.Recording.{Metering, event_hook, gateway_hooks}
use diffractllm.Server.Outcomes.{IsUntouched, write_err-IsEndedBy, chat_completion-IsEndedBy}
use diffractllm.Server.Phases.{few_pre_call, no_pre_provider, one_post_provider, post_call_events}
use diffractllm.Server.Streams.{Cause, failed_with, IsEndedBy}
use diffractllm.Pricing.Merge.{Pricing}
use diffractllm.Server.Answer.{Answer, write_err}
use diffractllm.Server.Charges.{finish-eq, finish_provider-eq}
use diffractllm.Server.Handler.{
  registered_provider, read_body, or_error, Gateway, Incoming, Progress, Halt, returned, panicked,
  Served, answered, at_context, or_halt, picked, run_phase, is_chat, prepare, finish,
  finish_provider, call_provider, generic_request_handler, admit_request, route_request,
}

module _ {F W : Type 0} where
  -- No hook has run after the provider.
  abbrev IsFresh : Progress F W → Type 0
  IsFresh p = (p.log.post_provider ≡ empty_phase) × (p.log.post_call ≡ empty_phase)

  -- How a request ended: after the call of a provider, for some cause, or without one, with an error.
  abbrev pub IsAnswered : Served F W → Type 0
  IsAnswered served =
      ((cred : Credential) × (c : Cause) × (served.called ≡ some cred) × IsEndedBy c served.answer)
      ⊎ ((e : DiffractError) × (served.called ≡ none) × IsEndedBy (failed_with e) served.answer)

  abbrev IsFreshRoute : Credential × Progress F W → Type 0
  IsFreshRoute route = IsFresh route.1

  abbrev IsFreshCall : Credential × Pricing F × Progress F W → Type 0
  IsFreshCall route = IsFresh route.2

  -- No panic, a fresh log at an early return, and `P` of the value.
  abbrev IsFine : {A : Type 0} → (A → Type 0) → Result (Halt F W) A → Type 0
  IsFine P (err panicked) = ⊥
  IsFine P (err (returned e p)) = IsFresh p
  IsFine P (ok a) = P a

  IsFine->>= :
      {A B : Type 0} (P : A → Type 0) (Q : B → Type 0) (call : Result (Halt F W) A)
      (then_do : A → Result (Halt F W) B)
      → IsFine P call
      → ((a : A) → P a → IsFine Q (then_do a))
      → IsFine Q (call >>= then_do)
  IsFine->>= P Q (err panicked) then_do fine next = fine
  IsFine->>= P Q (err (returned e p)) then_do fine next = fine
  IsFine->>= P Q (ok a) then_do fine next = next a fine

  or_halt-IsFine :
      {A B : Type 0} (Q : B → Type 0) (p : Progress F W) (call : Result DiffractError A)
      (then_do : A → Result (Halt F W) B)
      → IsFresh p
      → ((a : A) → IsFine Q (then_do a))
      → IsFine Q (or_halt p call >>= then_do)
  or_halt-IsFine Q p (err e) then_do fresh next = fresh
  or_halt-IsFine Q p (ok a) then_do fresh next = next a

  picked-IsFine :
      (p : Progress F W) (out : Cursors × Result DiffractError (Credential × Context F W))
      → IsFresh p
      → IsFine IsFreshRoute (picked p out)
  picked-IsFine p (cursors, err e) fresh = fresh
  picked-IsFine p (cursors, ok (cred, rctx)) fresh = fresh

  run_phase-IsFine :
      (cursors : Cursors) (s : Shared F W) (log : HookLog) (e : Option DiffractError)
      → (log.post_provider ≡ empty_phase) × (log.post_call ≡ empty_phase)
      → IsFine IsFresh (run_phase cursors (some (s, log, e)))
  run_phase-IsFine cursors s log none fresh = fresh
  run_phase-IsFine cursors s log (some e) fresh = fresh

first_slot :
    (result : HookResult) (log : PhaseLog)
    → log ≡ empty_phase
    → (log' : PhaseLog) × (log_result result log ≡ some log')
unfolding log_result
first_slot result log fresh =
    subst (λ l. (log' : PhaseLog) × (log_result result l ≡ some log')) (sym fresh) (_, refl)

module _ {F W T : Type 0} (gw : Gateway F W T) (r : Incoming F W T) (fm : FloatMoney F)
    (catalog : Option ModelLookup) (metering : Option (Metering F W))
    (hooks : gw.hooks ≡ gateway_hooks fm catalog metering) where
  pre_call-IsFine :
      (s : Shared F W) (cursors : Cursors) (log : HookLog)
      → IsFine IsFresh (run_phase cursors (run_pre_call_hooks r.elapsed gw.hooks s (reset log)))
  unfolding reset
  pre_call-IsFine s cursors log =
      let (phase, ran, names) =
        run_pre_call_hooks_lem r.elapsed gw.hooks s log
          (few_pre_call fm catalog gw.hooks metering hooks) in
      rw ran (run_phase-IsFine cursors _ _ _ (refl, refl))

  pre_provider-IsFine :
      (p : Progress F W)
      → IsFresh p
      → IsFine IsFresh
          (run_phase p.cursors (run_pre_provider_hooks r.elapsed gw.hooks p.shared p.log))
  unfolding run_pre_provider_hooks run_pre_hooks
  pre_provider-IsFine p fresh = rw (no_pre_provider fm catalog gw.hooks metering hooks) fresh

  admit_request-IsFine :
      (p : Progress F W) (log : HookLog) → p.log ≡ reset log → IsFine IsFresh (admit_request gw r p)
  unfolding admit_request reset
  admit_request-IsFine p log start =
      let fresh : IsFresh p = (ap (λ l. l.post_provider) start, ap (λ l. l.post_call) start) in
      or_halt-IsFine IsFresh p (validate_vkey_auth r.now gw.keys p.shared.rctx) _ fresh (λ rctx.
        or_halt-IsFine IsFresh (at_context rctx p) (read_body gw.max_body_size r.body) _ fresh
          (λ body.
            or_halt-IsFine IsFresh (at_context rctx p)
              (or_error (new_invalid_request_body "parsing request") (r.parse body)) _ fresh
              (λ model.
                subst
                  (λ l. IsFine IsFresh (
                    run_phase p.cursors (
                      run_pre_call_hooks r.elapsed gw.hooks
                        (at_context (record rctx { requested_model = model }) p).shared l)))
                  (sym start)
                  (pre_call-IsFine (at_context (record rctx { requested_model = model }) p).shared
                    p.cursors log))))

  route_request-IsFine : (p : Progress F W) → IsFresh p → IsFine IsFreshCall (route_request gw r p)
  unfolding route_request
  route_request-IsFine p fresh =
      let out = resolve gw.wheel r.random gw.source p.cursors p.shared.rctx in
      IsFine->>= {A = Credential × Progress F W} IsFreshRoute IsFreshCall (picked p out) _
        (picked-IsFine p out fresh)
        (λ route kept.
          let key = route.1.shared.rctx.model_key in
          or_halt-IsFine IsFreshCall route.1
            (or_error (new_unpriced_model key.model_name) (
              resolve_price gw.base_pricing gw.custom_pricing route.1.shared.rctx.virtual_key_id key
                empty_selector_key))
            _ kept
            (λ pricing.
              or_halt-IsFine IsFreshCall route.1
                (fail_if (not (registered_provider gw.providers key.provider))
                  (new_internal_error "provider is not registered"))
                _ kept (λ u. kept)))

  prepare-IsFine :
      (p : Progress F W) (log : HookLog) → p.log ≡ reset log → IsFine IsFreshCall (prepare gw r p)
  unfolding prepare
  prepare-IsFine p log start =
      IsFine->>= IsFresh IsFreshCall (admit_request gw r p) _ (admit_request-IsFine p log start)
        (λ admitted fresh.
          IsFine->>= IsFreshCall IsFreshCall (route_request gw r admitted) _
            (route_request-IsFine admitted fresh)
            (λ route kept.
              IsFine->>= IsFresh IsFreshCall
                (run_phase route.2.cursors
                  (run_pre_provider_hooks r.elapsed gw.hooks route.2.shared route.2.log))
                _ (pre_provider-IsFine route.2 kept) (λ ready done. done)))

  events-some :
      (m : Option (Metering F W)) (called : Option Credential) (a : Answer F) (p : Progress F W)
      → gw.hooks.post_call_hooks ≡ elim m [ none ↦ [] | some mt ↦ event_hook mt ∷ [] ]
      → p.log.post_call ≡ empty_phase
      → (served : Served F W) × (finish gw r called a p ≡ some served)
  unfolding finish run_post_call_hooks run_post_hooks event_hook
  events-some none called a p only fresh = rw only (_, refl)
  events-some (some mt) called a p only fresh =
      let result = logged hook_failed "metrics_event" (r.elapsed 0) none in
      let (phase, room) = first_slot result p.log.post_call fresh in
      let s = record p.shared { rctx = answered a p.shared.rctx } in
      let ended : Served F W = record {
        progress = record p {
          shared = ((event_hook mt).execute s).0;
          log = record p.log { post_call = phase };
        };
        answer = a;
        called = called;
      } in
      (ended, ground (arith, only, room))

  finish-some :
      (called : Option Credential) (a : Answer F) (p : Progress F W)
      → IsFresh p
      → (served : Served F W) × (finish gw r called a p ≡ some served)
  finish-some called a p fresh =
      events-some metering called a p (post_call_events fm catalog gw.hooks metering hooks) fresh.1

  finish_provider-some :
      (called : Option Credential) (a : Answer F) (p : Progress F W)
      → IsFresh p
      → (served : Served F W) × (finish_provider gw r called a p ≡ some served)
  unfolding finish_provider run_post_provider_hooks run_post_hooks record_hook
  finish_provider-some called a p fresh =
      let s = record p.shared { rctx = answered a p.shared.rctx } in
      let charged = execute_record fm s.rctx (s.budgets, s.buffer) in
      let result = logged hook_failed "record_usage" (r.elapsed 0) none in
      let (phase, room) = first_slot result p.log.post_provider fresh.0 in
      let after : Progress F W = record p {
        shared = record s { budgets = charged.0; buffer = charged.1 };
        log = record p.log { post_provider = phase };
      } in
      let (served, ends) =
        events-some metering called a after (post_call_events fm catalog gw.hooks metering hooks)
          fresh.1 in
      (served, ground (arith, one_post_provider fm catalog gw.hooks metering hooks, room, ends))

  -- A request that ends without a call, with the answer to an error.
  error_answer :
      (e : DiffractError) (a : Answer F) (served : Served F W)
      → IsUntouched a
      → served.called ≡ none
      → served.answer ≡ write_err (r.error_size e) e a
      → IsAnswered served
  error_answer e a served u uncalled same = inr (
    e,
    uncalled,
    subst (IsEndedBy (failed_with e)) (sym same) (write_err-IsEndedBy gw r (r.error_size e) e a u),
  )

  finish_provider-answers :
      (e : DiffractError) (a : Answer F) (p : Progress F W)
      → IsUntouched a
      → IsFresh p
      → (served : Served F W) × (finish_provider gw r none (write_err (r.error_size e) e a) p
          ≡ some served)
        × IsAnswered served
  finish_provider-answers e a p u fresh =
      let failed = write_err (r.error_size e) e a in
      let (served, ends) = finish_provider-some none failed p fresh in
      let (called, same, rest) =
        finish_provider-eq gw r fm catalog metering hooks none failed p served ends in
      (served, ends, error_answer e a served u called same)

  -- Without a flusher, what the adapter would deliver does not matter.
  deaf_answer :
      (pricing : Pricing F) (upstream : Upstream F) (a : Answer F)
      → (r.streaming && not r.flusher) ≡ true
      → let e = new_internal_error "client does not support streaming" in
        chat_completion gw.pricer pricing r.streaming r.flusher r.error_size upstream a
        ≡ write_err (r.error_size e) e a
  unfolding chat_completion
  deaf_answer pricing upstream a deaf =
      let streams : r.streaming ≡ true = ground (arith, deaf) in
      let mute : r.flusher ≡ false = ground (arith, deaf) in rw (streams, mute) refl

  call_provider-answers :
      (a : Answer F) (cred : Credential) (pricing : Pricing F) (p : Progress F W)
      → IsUntouched a
      → IsFresh p
      → (served : Served F W) × (call_provider gw r a cred pricing p ≡ some served)
        × IsAnswered served
  unfolding call_provider
  call_provider-answers a cred pricing p u fresh =
      let (upstream_model, upstream) = r.call cred p.shared.rctx in
      let answer =
        chat_completion gw.pricer pricing r.streaming r.flusher r.error_size upstream a in
      let called_at = at_context (record p.shared.rctx { upstream_model = upstream_model }) p in
      elim (Bool-cases (is_chat p.shared.rctx.request_kind)) [
        | inl chat ↦ elim (Bool-cases (r.streaming && not r.flusher)) [
          | inl deaf ↦
              let e = new_internal_error "client does not support streaming" in
              let (served, ends, answers) = finish_provider-answers e a p u fresh in
              rw (chat, deaf)
                (
                  served,
                  ap (λ x. finish_provider gw r none x p) (deaf_answer pricing upstream a deaf)
                      ∙ ends,
                  answers,
                )
          | inr can_stream ↦
              let (served, ends) = finish_provider-some (some cred) answer called_at fresh in
              let (called, same, rest) =
                finish_provider-eq gw r fm catalog metering hooks (some cred) answer called_at
                  served ends in
              let (c, ended) =
                chat_completion-IsEndedBy gw r pricing r.streaming r.flusher upstream a u in
              rw (chat, can_stream)
                (served, ends, inl (cred, c, called, subst (IsEndedBy c) (sym same) ended))
        ]
        | inr other ↦
            rw other
              (finish_provider-answers (new_internal_error "unknown request kind") a p u fresh)
      ]

  -- Every request comes to an end without a panic of the hook log, and is answered. Either a provider was called
  -- for it, and its answer is complete, left by the client, or an error, with the status and the marks
  -- that go with it; or none was called, and its answer is an error with the status of that error. The
  -- hooks are those of the gateway, with or without metrics, and the log and the answer were reset.
  pub generic_request_handler-answers :
      (p : Progress F W) (log : HookLog) (a : Answer F)
      → p.log ≡ reset log
      → IsUntouched a
      → (served : Served F W) × (generic_request_handler gw r a p ≡ some served) × IsAnswered served
  unfolding generic_request_handler
  generic_request_handler-answers p log a start u =
      by_end (prepare gw r p) refl (prepare-IsFine p log start)
    where
      by_end :
          (out : Result (Halt F W) (Credential × Pricing F × Progress F W))
          → prepare gw r p ≡ out
          → IsFine IsFreshCall out
          → (served : Served F W) × (generic_request_handler gw r a p ≡ some served)
            × IsAnswered served
      by_end (err panicked) came fine = absurd fine
      by_end (err (returned e p')) came fine =
          let failed = write_err (r.error_size e) e a in
          let (served, ends) = finish-some none failed p' fine in
          let (called, same, rest) =
            finish-eq gw r fm catalog metering hooks none failed p' served ends in
          rw (generic_request_handler, came) (served, ends, error_answer e a served u called same)
      by_end (ok (cred, pricing, p')) came fine =
          rw (generic_request_handler, came) (call_provider-answers a cred pricing p' u fine)
