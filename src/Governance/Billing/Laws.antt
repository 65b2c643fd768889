-- ===== src/Governance/Billing/Laws.antt =====
-- internal/governance/hooks.go and hook_budget_usage_record.go: the hooks together, and what a charge does.
use diffractllm.Base.{
  subst, Result-cases, ◌≡◌, ap, sym, ◌∙◌, ℕ, true, String, Option, none, some, [], ◌∷◌, ℤ, arith,
  if◌then◌else◌, Option-cases, inl, inr, ◌==?◌, lookup-insert, string_eq,
}
use diffractllm.Core.Context.{Context}
use diffractllm.Core.Hooks.{
  add_hook, add_post_provider_hook, add_pre_call_hook, HookLog, new_hook_engine, run_pre_call_hooks,
  reset,
}
use diffractllm.Core.Hooks.Laws.{run_pre_call_hooks_lem, run_until_error}
use diffractllm.Core.Money.{FloatMoney}
use diffractllm.Governance.Budget.{
  Budget, BudgetCache, lookup_budget, check_budget_usage, record_usage,
}
use diffractllm.Governance.Admission.{ModelLookup, execute_model_access, execute_budget}
use diffractllm.Governance.Admission.Laws.{Permitted, execute_model_access-Permitted}
use diffractllm.Governance.Billing.{
  charge_budget, Shared, model_access_hook, budget_hook, register_hooks,
}

lookup_budget-charge_budget :
    (budget_ref key : String) (nano : ℤ) (cache : BudgetCache) (budget : Budget)
    → lookup_budget cache budget_ref ≡ some budget
    → lookup_budget (charge_budget budget_ref nano cache) key
      ≡ (if budget_ref ==? key then some (record_usage nano budget) else lookup_budget cache key)
unfolding lookup_budget charge_budget
lookup_budget-charge_budget budget_ref key nano cache budget h =
    ground (arith, lookup-insert budget_ref key (record_usage nano budget) cache)

module _ {F W : Type 0} where
  -- What is known of a request that passed the two hooks.
  pub record Admitted (s s' : Shared F W) : Type 0 where
    pub permitted : Permitted s.rctx s'.rctx
    pub budget : Budget
    pub found : lookup_budget s.budgets s.rctx.budget_ref ≡ some budget
    pub in_budget : check_budget_usage budget ≡ true
    pub budgets_kept : s'.budgets ≡ s.budgets
    pub buffer_kept : s'.buffer ≡ s.buffer

  execute_budget-ok :
      (cache : BudgetCache) (rctx : Context F W)
      → execute_budget cache rctx ≡ none
      → (budget : Budget) × (lookup_budget cache rctx.budget_ref ≡ some budget)
        × (check_budget_usage budget ≡ true)
  unfolding execute_budget
  execute_budget-ok cache rctx h = elim (Option-cases (lookup_budget cache rctx.budget_ref)) [
    | inl missing ↦ absurd (ground arith)
    | inr (budget, found) ↦ (budget, found, ground arith)
  ]

  -- The two hooks, one after the other.
  run_until_error-Admitted :
      (catalog : Option ModelLookup) (s s' : Shared F W)
      → (run_until_error (model_access_hook catalog ∷ budget_hook ∷ []) s).1 ≡ s'
      → (run_until_error (model_access_hook catalog ∷ budget_hook ∷ []) s).2 ≡ none
      → Admitted s s'
  unfolding model_access_hook budget_hook
  run_until_error-Admitted catalog s s' state passed =
      elim (Result-cases (execute_model_access catalog s.rctx)) [
        | inl (e, fails) ↦ absurd (ground arith)
        | inr (rctx', allows) ↦
            let permitted = execute_model_access-Permitted catalog s.rctx rctx' allows in
            let after : s' ≡ record s { rctx = rctx' } = ground arith in
            let (budget, found, in_budget) = execute_budget-ok s.budgets rctx' (ground arith) in
            record {
              permitted = subst (λ t. Permitted s.rctx t.rctx) (sym after) permitted;
              budget = budget;
              found = ap (λ r. lookup_budget s.budgets r.budget_ref) (sym permitted.rest) ∙ found;
              in_budget = in_budget;
              budgets_kept = ap (λ t. t.budgets) after;
              buffer_kept = ap (λ t. t.buffer) after;
            }
      ]

  -- A request that the pre-call hooks of a fresh engine let through, on a log that was reset, may use the
  -- model that it is bound to, and its budget is there and not exhausted; the hooks change neither
  -- budgets nor usage records.
  pub run_pre_call_hooks-Admitted :
      (elapsed : ℕ → ℤ) (fm : FloatMoney F) (catalog : Option ModelLookup) (s s' : Shared F W)
      (log log' : HookLog)
      → run_pre_call_hooks elapsed (register_hooks fm catalog new_hook_engine) s (reset log)
        ≡ some (s', log', none)
      → Admitted s s'
  unfolding register_hooks add_pre_call_hook add_post_provider_hook add_hook new_hook_engine
  run_pre_call_hooks-Admitted elapsed fm catalog s s' log log' h =
      let he = register_hooks fm catalog new_hook_engine in
      let (phase, ran, names) = run_pre_call_hooks_lem elapsed he s log (omega arith) in
      let same = sym ran ∙ h in
      run_until_error-Admitted catalog s s' (ground (arith, same)) (ground (arith, same))
