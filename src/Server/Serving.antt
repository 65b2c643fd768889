-- ===== src/Server/Serving.antt =====
-- internal/server/handlers.go: what holds of a request for which a provider was called.
use diffractllm.Base.{
  String, ℕ, ◌≡◌, refl, ap, sym, ◌∙◌, subst, Option, none, some, List, Bool, true, false, Result,
  ok, err, >>=-eq-ok, arith, not, fail_if,
}
use diffractllm.Catalog.Prices.{resolve_price, empty_selector_key}
use diffractllm.Core.Context.{Context}
use diffractllm.Core.Credential.{Credential}
use diffractllm.Core.Errors.{
  DiffractError, new_internal_error, new_invalid_request_body, new_unpriced_model,
}
use diffractllm.Core.Hooks.{HookLog, reset, run_pre_call_hooks}
use diffractllm.Core.Money.{FloatMoney}
use diffractllm.Dataplane.Selection.{Cursors, resolve}
use diffractllm.Dataplane.Selection.Routing.{Routed, resolve-Routed}
use diffractllm.Governance.Admission.{ModelLookup, validate_vkey_auth}
use diffractllm.Governance.Admission.Laws.{Authenticated, validated-Authenticated}
use diffractllm.Governance.Billing.{Shared}
use diffractllm.Governance.Billing.Laws.{Admitted, run_pre_call_hooks-Admitted}
use diffractllm.Metrics.Recording.{Metering, gateway_hooks}
use diffractllm.Server.Phases.{run_pre_call_hooks-gateway_hooks}
use diffractllm.Pricing.Merge.{Pricing}
use diffractllm.Server.Handler.{
  admit_request, route_request, Gateway, Incoming, Progress, Halt, at_context, or_halt, or_error,
  run_phase, picked, read_body, registered_provider,
}

module _ {F W T : Type 0} (gw : Gateway F W T) (r : Incoming F W T) (fm : FloatMoney F)
    (catalog : Option ModelLookup) (metering : Option (Metering F W)) where
  -- The key was authenticated, the body was read and parsed, and the hooks admitted the request.
  pub record IsAdmittedAs (p p' : Progress F W) : Type 0 where
    pub key_context : Context F W
    pub authenticated : Authenticated r.now gw.keys p.shared.rctx key_context
    pub body : List ℕ
    pub read : read_body gw.max_body_size r.body ≡ ok body
    pub model : String
    pub parsed : r.parse body ≡ some model
    pub admission :
        Admitted (at_context (record key_context { requested_model = model }) p).shared p'.shared

  -- The request was routed to an offered credential, and the model has a price and an adapter there.
  pub record IsRoutedTo (p p' : Progress F W) (cred : Credential) (pricing : Pricing F)
      : Type 0 where
    pub routed_context : Context F W
    pub routing : Routed gw.source p.shared.rctx cred routed_context
    pub priced :
        resolve_price gw.base_pricing gw.custom_pricing routed_context.virtual_key_id
          routed_context.model_key empty_selector_key
        ≡ some pricing
    pub adapter : registered_provider gw.providers routed_context.model_key.provider ≡ true
    pub kept : p'.shared ≡ record p.shared { rctx = routed_context }

  or_halt-eq-ok :
      {A : Type 0} (p : Progress F W) (call : Result DiffractError A) {a : A}
      → or_halt p call ≡ ok a
      → call ≡ ok a
  or_halt-eq-ok p (err e) h = cc
  or_halt-eq-ok p (ok a) h = ground (arith, h)

  or_error-eq-ok :
      {A : Type 0} (e : DiffractError) (o : Option A) {a : A} → or_error e o ≡ ok a → o ≡ some a
  or_error-eq-ok e none h = cc
  or_error-eq-ok e (some a) h = ground (arith, h)

  pub run_phase-eq-ok :
      (cursors : Cursors) (out : Option (Shared F W × HookLog × Option DiffractError))
      {p : Progress F W}
      → run_phase cursors out ≡ ok p
      → out ≡ some (p.shared, p.log, none)
  run_phase-eq-ok cursors none h = cc
  run_phase-eq-ok cursors (some (s, log, some e)) h = cc
  run_phase-eq-ok cursors (some (s, log, none)) h = ground (arith, h)

  pub picked-eq-ok :
      (p : Progress F W) (out : Cursors × Result DiffractError (Credential × Context F W))
      {route : Credential × Progress F W}
      → picked p out ≡ ok route
      → out ≡ (route.1.cursors, ok (route.0, route.1.shared.rctx))
  picked-eq-ok p (cursors, err e) h = cc
  picked-eq-ok p (cursors, ok (cred, rctx)) h = ground (arith, h)

  pub ok_injective : {A : Type 0} {a b : A} → Path (Result (Halt F W) A) (ok a) (ok b) → a ≡ b
  ok_injective {A} {a} h = ap (λ out. elim out [ err e ↦ a | ok x ↦ x ]) h

  picked_kept :
      (p : Progress F W) (out : Cursors × Result DiffractError (Credential × Context F W))
      {route : Credential × Progress F W}
      → picked p out ≡ ok route
      → route.1.shared ≡ record p.shared { rctx = route.1.shared.rctx }
  picked_kept p (cursors, err e) h = cc
  picked_kept p (cursors, ok (cred, rctx)) {route} h =
      let same : at_context rctx (record p { cursors = cursors }) ≡ route.1 =
        ap (λ t. t.1) (ok_injective h) in
      subst (λ q. q.shared ≡ record p.shared { rctx = q.shared.rctx }) same refl

  registered_eq :
      (b : Bool) (e : DiffractError) {u : Unit {0}} → fail_if (not b) e ≡ ok u → b ≡ true
  registered_eq true e h = refl
  registered_eq false e h = cc

  pub admit_request-IsAdmittedAs :
      gw.hooks ≡ gateway_hooks fm catalog metering
      → (p p' : Progress F W) (log : HookLog) → p.log ≡ reset log
      → admit_request gw r p ≡ ok p'
      → IsAdmittedAs p p'
  unfolding admit_request
  admit_request-IsAdmittedAs hooks p p' log fresh h =
      let (rctx, auth, rest) =
        >>=-eq-ok (or_halt p (validate_vkey_auth r.now gw.keys p.shared.rctx)) _ h in
      let (body, read, rest1) =
        >>=-eq-ok (or_halt (at_context rctx p) (read_body gw.max_body_size r.body)) _ rest in
      let (model, parsed, ran) =
        >>=-eq-ok
          (or_halt (at_context rctx p)
            (or_error (new_invalid_request_body "parsing request") (r.parse body)))
          _ rest1 in
      let start = (at_context (record rctx { requested_model = model }) p).shared in
      record {
        key_context = rctx;
        authenticated =
            validated-Authenticated r.now gw.keys p.shared.rctx rctx (or_halt-eq-ok p _ auth);
        body = body;
        read = or_halt-eq-ok _ _ read;
        model = model;
        parsed = or_error-eq-ok _ (r.parse body) (or_halt-eq-ok _ _ parsed);
        admission = run_pre_call_hooks-Admitted r.elapsed fm catalog start p'.shared log p'.log (
            sym (run_pre_call_hooks-gateway_hooks fm catalog metering r.elapsed start (reset log))
            ∙ ap (λ he. run_pre_call_hooks r.elapsed he start (reset log)) (sym hooks)
            ∙ ap (λ l. run_pre_call_hooks r.elapsed gw.hooks start l) (sym fresh)
            ∙ run_phase-eq-ok p.cursors (run_pre_call_hooks r.elapsed gw.hooks start p.log) ran);
      }

  pub route_request-IsRoutedTo :
      (p p' : Progress F W) (cred : Credential) (pricing : Pricing F)
      → route_request gw r p ≡ ok (cred, pricing, p')
      → IsRoutedTo p p' cred pricing
  unfolding route_request
  route_request-IsRoutedTo p p' cred pricing h =
      let (route, routed, rest) =
        >>=-eq-ok (picked p (resolve gw.wheel r.random gw.source p.cursors p.shared.rctx)) _ h in
      let rctx = route.1.shared.rctx in
      let (price, priced, rest1) =
        >>=-eq-ok
          (or_halt route.1 (
            or_error (new_unpriced_model rctx.model_key.model_name) (
              resolve_price gw.base_pricing gw.custom_pricing rctx.virtual_key_id rctx.model_key
                empty_selector_key)))
          _ rest in
      let (u, adapter, last) =
        >>=-eq-ok
          (or_halt route.1 (
            fail_if (not (registered_provider gw.providers rctx.model_key.provider))
              (new_internal_error "provider is not registered")))
          _ rest1 in
      let came : Path (Credential × Pricing F × Progress F W) (route.0, price, route.1)
          (cred, pricing, p') =
        ok_injective last in
      let to_cred : route.0 ≡ cred = ap (λ t. t.0) came in
      let at_price : price ≡ pricing = ap (λ t. t.1) came in
      record {
        routed_context = rctx;
        routing =
            subst (λ c. Routed gw.source p.shared.rctx c rctx) to_cred
              (resolve-Routed gw.wheel r.random gw.source p.cursors route.1.cursors p.shared.rctx
                rctx route.0 (picked-eq-ok p _ routed));
        priced =
            or_error-eq-ok _ _ (or_halt-eq-ok _ _ priced)
            ∙ ap {B = Option (Pricing F)} some at_price;
        adapter =
            registered_eq _ (new_internal_error "provider is not registered")
              (or_halt-eq-ok _ _ adapter);
        kept = ap (λ t. t.2.shared) (sym came) ∙ picked_kept p _ routed;
      }
