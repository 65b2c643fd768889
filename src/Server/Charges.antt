-- ===== src/Server/Charges.antt =====
-- internal/server/handlers.go: how a request ends, and what it is charged.
use diffractllm.Base.{
  ◌&&◌, not, false, ◌≡◌, Option, none, some, Option-cases, [], ◌∷◌, inl, inr, arith,
}
use diffractllm.Core.Context.{Context}
use diffractllm.Core.Credential.{Credential}
use diffractllm.Core.Hooks.{
  hook_failed, run_post_provider_hooks, run_post_call_hooks, run_post_hooks, log_result, logged,
}
use diffractllm.Core.Money.{FloatMoney}
use diffractllm.Governance.Admission.{ModelLookup}
use diffractllm.Governance.Billing.{record_hook, execute_record}
use diffractllm.Metrics.Recording.{Metering, event_hook, gateway_hooks}
use diffractllm.Server.Phases.{one_post_provider, post_call_events}
use diffractllm.Governance.Budget.{BudgetCache}
use diffractllm.Governance.Usage.{UsageBuffer}
use diffractllm.Pricing.Merge.{Pricing}
use diffractllm.Server.Answer.{Answer}
use diffractllm.Server.Chat.{chat_completion}
use diffractllm.Server.Handler.{
  Gateway, Incoming, Progress, Served, answered, finish, finish_provider,
}
use diffractllm.Server.Serving.{IsAdmittedAs, IsRoutedTo}

module _ {F W T : Type 0} (gw : Gateway F W T) (r : Incoming F W T) (fm : FloatMoney F)
    (catalog : Option ModelLookup) (metering : Option (Metering F W))
    (hooks : gw.hooks ≡ gateway_hooks fm catalog metering) where
  abbrev records : Progress F W → BudgetCache × UsageBuffer
  records p = (p.shared.budgets, p.shared.buffer)

  events-eq :
      (m : Option (Metering F W)) (called : Option Credential) (a : Answer F) (p : Progress F W)
      (served : Served F W)
      → gw.hooks.post_call_hooks ≡ elim m [ none ↦ [] | some mt ↦ event_hook mt ∷ [] ]
      → finish gw r called a p ≡ some served
      → (served.called ≡ called) × (served.answer ≡ a) × (records served.progress ≡ records p)
  unfolding finish run_post_call_hooks run_post_hooks event_hook
  events-eq none called a p served only h = ground (arith, h, only)
  events-eq (some mt) called a p served only h =
      let result = logged hook_failed "metrics_event" (r.elapsed 0) none in
      elim (Option-cases (log_result result p.log.post_call)) [
        | inl full ↦ absurd (ground (arith, h, only, full))
        | inr (phase, room) ↦ ground (arith, h, only, room)
      ]

  pub finish-eq :
      (called : Option Credential) (a : Answer F) (p : Progress F W) (served : Served F W)
      → finish gw r called a p ≡ some served
      → (served.called ≡ called) × (served.answer ≡ a) × (records served.progress ≡ records p)
  finish-eq called a p served =
      events-eq metering called a p served (post_call_events fm catalog gw.hooks metering hooks)

  pub finish_provider-eq :
      (called : Option Credential) (a : Answer F) (p : Progress F W) (served : Served F W)
      → finish_provider gw r called a p ≡ some served
      → (served.called ≡ called)
        × (served.answer ≡ a)
        × (records served.progress ≡ execute_record fm (answered a p.shared.rctx) (records p))
  unfolding finish_provider run_post_provider_hooks run_post_hooks record_hook
  finish_provider-eq called a p served h =
      let s = record p.shared { rctx = answered a p.shared.rctx } in
      let charged = execute_record fm s.rctx (s.budgets, s.buffer) in
      let record_only = one_post_provider fm catalog gw.hooks metering hooks in
      let result = logged hook_failed "record_usage" (r.elapsed 0) none in
      elim (Option-cases (log_result result p.log.post_provider)) [
        | inl full ↦ absurd (ground (arith, h, record_only, full))
        | inr (phase, room) ↦
            let after : Progress F W = record p {
              shared = record s { budgets = charged.0; buffer = charged.1 };
              log = record p.log { post_provider = phase };
            } in
            let ends : finish gw r called a after ≡ some served =
              ground (arith, h, record_only, room) in
            let (same_called, same_answer, same_records) = finish-eq called a after served ends in
            (same_called, same_answer, same_records)
      ]

  -- The answer to what the adapter delivers for the context of a routed request.
  abbrev pub answer_of : Answer F → Pricing F → Credential → Context F W → Answer F
  answer_of a pricing cred rctx =
      chat_completion gw.pricer pricing r.streaming r.flusher r.error_size (r.call cred rctx).1 a

  -- The context that is charged: that of the routed request, with the answer and the name of the model that
  -- the provider was asked for.
  abbrev pub charged_context : Answer F → Credential → Context F W → Context F W
  charged_context answer cred rctx =
      answered answer (record rctx { upstream_model = (r.call cred rctx).0 })

  -- A request for which a provider was called.
  pub record IsServed (p : Progress F W) (a : Answer F) (served : Served F W) (cred : Credential)
      : Type 0 where
    pub pricing : Pricing F
    pub admitted : Progress F W
    pub admission : IsAdmittedAs gw r fm catalog metering p admitted
    pub routed : Progress F W
    pub route : IsRoutedTo gw r fm catalog metering admitted routed cred pricing
    pub budget : routed.shared.rctx.budget_ref ≡ admission.authenticated.vk.budget_id
    pub can_stream : (r.streaming && not r.flusher) ≡ false
    pub answer : served.answer ≡ answer_of a pricing cred routed.shared.rctx
    pub charge :
        records served.progress
        ≡ execute_record fm (charged_context served.answer cred routed.shared.rctx) (records p)
