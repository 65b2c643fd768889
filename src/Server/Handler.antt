-- ===== src/Server/Handler.antt =====
-- internal/server/handlers.go: `readBody` and `GenericRequestHandler`. The JSON of the client, the adapter of a
-- provider and the clock are arguments; a panic of a hook log is `none`.
use diffractllm.Base.{
  ◌==◌, ◌==?◌, not, ◌||◌, ℕ, ◌*◌, Bool, true, false, ◌&&◌, String, Option, none, some, List, [],
  ◌∷◌, ℤ, pos, Map, string_eq, length, take, leb, ltb, ltb_ℤ, if◌then◌else◌, Result, ok, err, ◌>>=◌,
  ◌>>◌, fail_if,
}
use diffractllm.Catalog.Prices.{
  empty_selector_key, BasePricingSnapshot, CustomScopePricing, resolve_price,
}
use diffractllm.Core.Context.{Context}
use diffractllm.Core.Credential.{Credential}
use diffractllm.Core.Errors.{
  DiffractError, new_internal_error, new_invalid_request_body, new_payload_too_large,
  new_unpriced_model,
}
use diffractllm.Core.Hooks.{
  HookEngine, HookLog, run_pre_call_hooks, run_pre_provider_hooks, run_post_provider_hooks,
  run_post_call_hooks,
}
use diffractllm.Core.Models.{CatalogKey, RequestKind, chat_request}
use diffractllm.Dataplane.Selection.{Cursors, Wheel, resolve}
use diffractllm.Governance.Admission.{validate_vkey_auth}
use diffractllm.Governance.Billing.{Shared}
use diffractllm.Governance.KeyCache.{VirtualKeyMap}
use diffractllm.Pricing.Merge.{Pricing}
use diffractllm.Server.Answer.{Answer, Pricer, write_err}
use diffractllm.Server.Chat.{Upstream, chat_completion}

-- An optional value, with the error in its place.
abbrev pub or_error : {A : Type 0} → DiffractError → Option A → Result DiffractError A
or_error e none = err e
or_error e (some a) = ok a

-- The body as far as the client sends it: whether reading fails in place of its end, and then whether the
-- failure comes along with the last byte or at the next read.
pub record Body : Type 0 where
  pub content_length : ℤ
  pub bytes : List ℕ
  pub read_fails : Bool
  pub fails_early : Bool

-- Whether the failure is met while the limited body is read.
unfoldable pub fails_within : ℕ → Body → Bool
fails_within max_body body =
    body.read_fails
    && (ltb (length body.bytes) max_body
        || body.fails_early && length body.bytes == max_body && ltb 0 max_body)

-- What is read is limited, and one byte more is probed for. The error of the probe is dropped.
unfoldable pub read_body : ℕ → Body → Result DiffractError (List ℕ)
unfolding fails_within
read_body max_body_size body =
    let max_body = max_body_size * 1_024 in
    let buf = take max_body body.bytes in
    do
      fail_if (ltb_ℤ (pos max_body) body.content_length) new_payload_too_large
      fail_if (fails_within max_body body) (new_invalid_request_body "reading body")
      fail_if (leb max_body (length buf) && ltb max_body (length body.bytes)) new_payload_too_large
      ok buf

-- The parts that the server holds.
pub record Gateway (F W T : Type 0) : Type 0 where
  pub max_body_size : ℕ
  pub keys : Option (VirtualKeyMap W)
  pub hooks : HookEngine (Shared F W)
  pub wheel : Wheel W T
  pub source : CatalogKey → List Credential
  pub base_pricing : Option (BasePricingSnapshot F)
  pub custom_pricing : Option (Map CatalogKey (CustomScopePricing F))
  -- the registered adapters
  pub providers : List String
  pub pricer : Pricer F

-- What comes from outside during a request.
pub record Incoming (F W T : Type 0) : Type 0 where
  pub now : ℤ
  pub elapsed : ℕ → ℤ
  pub random : T
  pub body : Body
  -- `sonic.Unmarshal`: the model that the body names; `desc.ToDiffract` puts it into the context
  pub parse : List ℕ → Option String
  pub streaming : Bool
  pub flusher : Bool
  -- how long the JSON of an error is
  pub error_size : DiffractError → ℤ
  -- the adapter's call: the name that the provider was asked for, and what it delivers
  pub call : Credential → Context F W → String × Upstream F

-- What a request carries along, and the engine's cursors.
pub record Progress (F W : Type 0) : Type 0 where
  pub shared : Shared F W
  pub log : HookLog
  pub cursors : Cursors

-- An early return.
pub data Halt (F W : Type 0) : Type 0 where
  returned : DiffractError → Progress F W → Halt F W
  panicked : Halt F W

-- The end of a request: the answer, and the credential with which a provider was called.
pub record Served (F W : Type 0) : Type 0 where
  pub progress : Progress F W
  pub answer : Answer F
  pub called : Option Credential

module _ {F W : Type 0} where
  abbrev pub at_context : Context F W → Progress F W → Progress F W
  at_context rctx p = record p { shared = record p.shared { rctx = rctx } }

  abbrev pub or_halt : {A : Type 0} → Progress F W → Result DiffractError A → Result (Halt F W) A
  or_halt p (err e) = err (returned e p)
  or_halt p (ok a) = ok a

  -- A phase of hooks, with the cursors kept.
  abbrev pub run_phase :
      Cursors
      → Option (Shared F W × HookLog × Option DiffractError)
      → Result (Halt F W) (Progress F W)
  run_phase cursors none = err panicked
  run_phase cursors (some (s, log, some e)) =
      err (returned e (record { shared = s; log = log; cursors = cursors }))
  run_phase cursors (some (s, log, none)) = ok (record { shared = s; log = log; cursors = cursors })

  abbrev pub picked :
      Progress F W
      → Cursors × Result DiffractError (Credential × Context F W)
      → Result (Halt F W) (Credential × Progress F W)
  picked p (cursors, err e) = err (returned e (record p { cursors = cursors }))
  picked p (cursors, ok (cred, rctx)) = ok (cred, at_context rctx (record p { cursors = cursors }))

  -- The fields of the answer that hooks read.
  abbrev pub answered : Answer F → Context F W → Context F W
  answered a rctx = record rctx {
    response_status = a.response_status;
    response_bytes = a.response_bytes;
    usage = a.usage;
    cost = a.cost;
  }

abbrev pub is_chat : RequestKind → Bool
is_chat chat_request = true
is_chat _ = false

abbrev pub registered_provider : List String → String → Bool
registered_provider [] name = false
registered_provider (p ∷ ps) name = p ==? name || registered_provider ps name

module _ {F W T : Type 0} (gw : Gateway F W T) (r : Incoming F W T) where
  -- Authentication, the body, its conversion, and the hooks before the call.
  unfoldable pub admit_request : Progress F W → Result (Halt F W) (Progress F W)
  unfolding read_body
  admit_request p = do
    rctx ← or_halt p (validate_vkey_auth r.now gw.keys p.shared.rctx)
    body ← or_halt (at_context rctx p) (read_body gw.max_body_size r.body)
    model ←
        or_halt (at_context rctx p)
          (or_error (new_invalid_request_body "parsing request") (r.parse body))
    run_phase p.cursors (
        run_pre_call_hooks r.elapsed gw.hooks
          (at_context (record rctx { requested_model = model }) p).shared p.log)

  -- The credential, the price, and whether an adapter is registered.
  unfoldable pub route_request :
      Progress F W → Result (Halt F W) (Credential × Pricing F × Progress F W)
  route_request p = do
    route ← picked p (resolve gw.wheel r.random gw.source p.cursors p.shared.rctx)
    pricing ← or_halt route.1 (
        or_error (new_unpriced_model route.1.shared.rctx.model_key.model_name) (
          resolve_price gw.base_pricing gw.custom_pricing route.1.shared.rctx.virtual_key_id
            route.1.shared.rctx.model_key empty_selector_key))
    or_halt route.1 (
        fail_if (not (registered_provider gw.providers route.1.shared.rctx.model_key.provider))
          (new_internal_error "provider is not registered"))
    ok (route.0, pricing, route.1)

  -- Up to the call of the provider.
  unfoldable pub prepare : Progress F W → Result (Halt F W) (Credential × Pricing F × Progress F W)
  unfolding admit_request route_request
  prepare p = do
    admitted ← admit_request p
    route ← route_request admitted
    ready ←
        run_phase route.2.cursors
          (run_pre_provider_hooks r.elapsed gw.hooks route.2.shared route.2.log)
    ok (route.0, route.1, ready)

  -- The deferred hooks at the end of every request.
  unfoldable pub finish : Option Credential → Answer F → Progress F W → Option (Served F W)
  finish called a p =
      elim (run_post_call_hooks r.elapsed gw.hooks
        (record p.shared { rctx = answered a p.shared.rctx }) p.log) [
          | none ↦ none
          | some (s, log) ↦ some (record {
            progress = record p { shared = s; log = log };
            answer = a;
            called = called;
          })
        ]

  -- The hooks after the provider are deferred before its call.
  unfoldable pub finish_provider : Option Credential → Answer F → Progress F W → Option (Served F W)
  unfolding finish
  finish_provider called a p =
      elim (run_post_provider_hooks r.elapsed gw.hooks
        (record p.shared { rctx = answered a p.shared.rctx }) p.log) [
          | none ↦ none
          | some (s, log) ↦ finish called a (record p { shared = s; log = log })
        ]

  -- A stream needs a writer that flushes: without one, no provider is called.
  unfoldable pub call_provider :
      Answer F → Credential → Pricing F → Progress F W → Option (Served F W)
  unfolding finish_provider chat_completion write_err
  call_provider a cred pricing p =
      let (upstream_model, upstream) = r.call cred p.shared.rctx in
      let e = new_internal_error "unknown request kind" in
      let answer =
        chat_completion gw.pricer pricing r.streaming r.flusher r.error_size upstream a in
      if is_chat p.shared.rctx.request_kind
      then if r.streaming && not r.flusher
        then finish_provider none answer p
        else finish_provider (some cred) answer
            (at_context (record p.shared.rctx { upstream_model = upstream_model }) p)
      else finish_provider none (write_err (r.error_size e) e a) p

  -- `a` is the answer of a context that was reset.
  unfoldable pub generic_request_handler : Answer F → Progress F W → Option (Served F W)
  unfolding prepare finish call_provider write_err
  generic_request_handler a p = elim (prepare p) [
    | err panicked ↦ none
    | err (returned e p') ↦ finish none (write_err (r.error_size e) e a) p'
    | ok (cred, pricing, p') ↦ call_provider a cred pricing p'
  ]
