-- ===== src/Tests/Routes.antt =====
-- internal/providerplane, internal/dataplane and internal/modelcatalog at concrete credentials and prices.
use text.Mathlib.Text.{◌==◌}
use diffractllm.Base.{
  insert, lookup, if◌then◌else◌, ℕ, ◌+◌, ◌*◌, ◌-◌, ◌≤◌, ◌<◌, ◌≡◌, ◌≢◌, refl, List, [], ◌∷◌, String,
  some, none, Option, true, false, pos, All, arith, ok, get_elem?, ltb, ◌<|>◌, pos_part,
}
use diffractllm.Core.Capabilities.{model_type_string, chat}
use diffractllm.Core.Models.{CatalogKey, chat_request, custom_pricing_key}
use diffractllm.Core.Context.{Context}
use diffractllm.Core.Credential.{Credential}
use diffractllm.Core.VirtualKey.{is_model_allowed, ProviderConfig}
use diffractllm.Dataplane.Plane.{
  PlaneOp, upserted, removed, build_cred_snapshot, candidates, plane_run,
}
use diffractllm.Dataplane.Plane.Laws.{IsServing, candidates-IsServing}
use diffractllm.Dataplane.Selection.{
  pick, pick_provider, viable_providers, Wheel, resolve, resolve_weighted,
}
use diffractllm.Dataplane.Selection.RoundRobin.{picks, picks-all}
use diffractllm.Dataplane.Selection.Routing.{Routed, resolve-Routed}
use diffractllm.Dataplane.Selection.Blocked.{resolve_weighted-blocked}
use diffractllm.Dataplane.Transport.{
  compare_config, RetryConfig, Reply, answered, serve_http, ReadError, response_too_large, read,
  new_limited_body,
}
use diffractllm.Dataplane.Transport.Retries.{IsTried, serve_http-Served}
use diffractllm.Dataplane.Transport.Body.{reads, reads-limit}
use diffractllm.Pricing.Fields.{PriceField, output_cost_per_token}
use diffractllm.Pricing.Fields
use diffractllm.Pricing.Merge.{Pricing}
use diffractllm.Catalog.Prices.{
  PricingVariant, CustomPricing, new_base_pricing_snapshot, find, load_custom_pricing,
  resolve_price,
}
use diffractllm.Catalog.Prices.Choice.{applicable, custom_field, resolve_price-applicable}
use diffractllm.Tests.Samples.{virtual_key, request}

abbrev pub credential : String → String → Credential
credential id provider = record {
  id = id;
  provider = provider;
  name = id;
  api_key = "k";
  enabled = true;
  expiry_at = none;
  allowed_models = "gpt-4o" ∷ [];
  blocked_models = [];
  endpoint = "https://x";
  aliases = [];
  settings = none;
}

abbrev pub wanted : CatalogKey
wanted = record { provider = "openai"; model_name = "gpt-4o"; model_type = chat }

abbrev operations : List PlaneOp
operations = upserted (credential "c3" "openai") ∷ removed "openai" "c1" ∷ []

candidates-IsServing_example : All (IsServing (pos 10) wanted) (
    candidates
      (pos 10)
      (plane_run (some (build_cred_snapshot (credential "c1" "openai" ∷ []))) operations)
      wanted)
candidates-IsServing_example =
    candidates-IsServing (credential "c1" "openai" ∷ []) operations (pos 10) wanted

abbrev three : List Credential
three = credential "c1" "openai" ∷ credential "c2" "openai" ∷ credential "c3" "openai" ∷ []

picks-all_example :
    (j : ℕ) × (j < 3)
    × (get_elem? (picks 3 wanted three ((wanted, 7) ∷ [])) j
        ≡ some (some (credential "c2" "openai")))
unfolding lookup model_type_string
picks-all_example =
    picks-all wanted three ((wanted, 7) ∷ []) 1 (omega arith) (omega arith) (omega arith)

-- Weights in tenths, and a wheel that stops at once.
abbrev pub wheel : Wheel ℕ ℕ
wheel = record {
  zero = 0;
  of_weight = λ w. w;
  add = λ x y. x + y;
  sub = λ x y. x - y;
  mul = λ x y. x * y;
  is_negative = λ x. ltb x 1;
}

abbrev pub only_openai : CatalogKey → List Credential
only_openai key = three

abbrev routing : Context ℕ ℕ
routing = record {
  header = λ name. "";
  request_kind = chat_request;
  model_key = record wanted { provider = "" };
  client_id = "c1";
  budget_ref = "b1";
  virtual_key_id = "vk1";
  virtual_key_policy = some virtual_key;
  auth_frozen = true;
  requested_model = "gpt-4o";
  selected_credential = none;
  upstream_model = "";
  response_status = pos 0;
  response_bytes = pos 0;
  usage = some request;
  cost = 7;
  started_at = pos 1;
}

abbrev routed : Context ℕ ℕ
routed = record routing {
  model_key = wanted;
  selected_credential = some (credential "c2" "openai");
}

resolves :
    resolve wheel 0 only_openai [] routing
    ≡ ((wanted, 1) ∷ [], ok (credential "c2" "openai", routed))
unfolding resolve resolve_weighted viable_providers pick_provider pick
resolves = refl

resolve-Routed_example : Routed only_openai routing (credential "c2" "openai") routed
resolve-Routed_example =
    resolve-Routed wheel 0 only_openai [] ((wanted, 1) ∷ []) routing routed
      (credential "c2" "openai") resolves

-- The model is allowed at openai and blocked at azure, where the only credential is.
abbrev openai_config : ProviderConfig ℕ
openai_config = record {
  provider = "openai";
  allowed_models = "gpt-4o" ∷ [];
  blocked_models = [];
  weight = 5;
  runtime_allowed_models = "gpt-4o" ∷ [];
  runtime_blocked_models = [];
  allow_all = false;
}

abbrev azure_config : ProviderConfig ℕ
azure_config = record {
  provider = "azure";
  allowed_models = "*" ∷ [];
  blocked_models = "gpt-4o" ∷ [];
  weight = 5;
  runtime_allowed_models = "*" ∷ [];
  runtime_blocked_models = "gpt-4o" ∷ [];
  allow_all = true;
}

abbrev azure_only : CatalogKey → List Credential
azure_only key = if key.provider == "azure" then credential "a1" "azure" ∷ [] else []

resolve_weighted-blocked_example :
    resolve_weighted wheel 0 azure_only [] routing
      (record wanted { provider = "" })
      (record virtual_key { provider_configs = openai_config ∷ azure_config ∷ [] })
    ≡ (
      [],
      ok (
        credential "a1" "azure",
        record routing {
          model_key = record wanted { provider = "azure" };
          selected_credential = some (credential "a1" "azure");
        },
      ),
    )
unfolding is_model_allowed
resolve_weighted-blocked_example =
    resolve_weighted-blocked wheel 0 azure_only [] routing
      (record virtual_key { provider_configs = openai_config ∷ azure_config ∷ [] }) openai_config
      azure_config (credential "a1" "azure") (record wanted { provider = "" }) refl refl refl refl
      refl refl refl

abbrev retries : RetryConfig
retries = record {
  default_max_retries = pos 0;
  default_retry_backoff = pos 250;
  max_retries = some (pos 2);
  retry_backoff = none;
  retry_ambiguous_status = none;
}

abbrev replies : ℕ → Reply
replies attempt = if ltb attempt 3 then answered 429 none else answered 200 none

serve_http-Served_example :
    IsTried true false replies 3 (serve_http retries true replies (λ attempt. true))
unfolding compare_config
serve_http-Served_example =
    serve_http-Served retries true replies (λ attempt. true) 2 refl (omega arith)

-- A body that fills every buffer.
abbrev endless : ℕ → ℕ → ℕ × Option ReadError
endless i size = (size, none)

reads-limit_example :
    let (total, last) = reads endless (4 ∷ 4 ∷ []) 0 (pos_part (new_limited_body (pos 10))) in
    let (r, left) = read (endless 2) 4 last in
    (total + r.0 ≤ 11) × (r.1 ≢ some response_too_large → total + r.0 ≤ 10)
reads-limit_example = reads-limit endless (4 ∷ 4 ∷ []) 10 4 2 (λ k size. omega arith) (omega arith)

abbrev listed : Pricing ℕ
listed Fields.input_cost_per_token = some 3
listed Fields.output_cost_per_token = some 15
listed _ = none

abbrev discount : Pricing ℕ
discount Fields.output_cost_per_token = some 12
discount _ = none

abbrev pub variant : PricingVariant ℕ
variant = record {
  raw_key = "gpt-4o";
  selectors = "";
  provider = "openai";
  model_type = chat;
  model_name = "gpt-4o";
  pricing = listed;
}

abbrev custom : CustomPricing ℕ
custom = record {
  name = "deal";
  model_name = "gpt-4o";
  model_type = chat;
  pricing = discount;
  scope_type = "virtualkey";
  scope_virtual_key_id = some "vk1";
  scope_provider = none;
}

has_price : find (new_base_pricing_snapshot (variant ∷ [])) wanted "{}" ≡ some variant
unfolding find new_base_pricing_snapshot lookup insert model_type_string
has_price = refl

resolve_price-applicable_example :
    (p : Pricing ℕ) × (resolve_price
        (some (new_base_pricing_snapshot (variant ∷ [])))
        (some (load_custom_pricing (custom ∷ [])))
        "vk1"
        wanted
        "{}"
      ≡ some p)
    × ((g : PriceField)
        → p g ≡ (
            custom_field (applicable (custom ∷ []) (custom_pricing_key wanted) "vk1" "openai") g
            <|> listed g))
resolve_price-applicable_example =
    resolve_price-applicable (new_base_pricing_snapshot (variant ∷ [])) (custom ∷ []) "vk1" wanted
      "{}" variant has_price
