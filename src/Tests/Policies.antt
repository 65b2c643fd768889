-- ===== src/Tests/Policies.antt =====
-- internal/core/virtualkey.go and modelcatalog.go at concrete keys.
use diffractllm.Base.{ℕ, ◌≡◌, refl, [], ◌∷◌, List, ok, false, true, if◌then◌else◌, ◌+◌, ◌==◌, not}
use text.Mathlib.Text.{◌==◌ as same_text}
use diffractllm.Core.Capabilities.{chat}
use diffractllm.Core.Models.{trim_space, CatalogKey}
use diffractllm.Core.VirtualKey.{
  compile_allowed, compile_blocked, has, compile_config, weighted, Weights, ProviderConfig,
  compile_provider_configs, is_model_key_allowed,
}
use diffractllm.Core.VirtualKey.Access.{
  some_permits, some_permits_own, compile_provider_configs-permits,
}

-- Weights in tenths.
abbrev tenths : Weights ℕ
tenths = record {
  zero = 0;
  one = 10;
  add = λ x y. x + y;
  out_of_range = λ x. false;
  far_from_one = λ x. not (x == 10);
}

abbrev stored : List (ProviderConfig ℕ)
stored =
    (record {
      provider = " openai";
      allowed_models = "*" ∷ [];
      blocked_models = "o1 " ∷ [];
      weight = 7;
      runtime_allowed_models = [];
      runtime_blocked_models = [];
      allow_all = false;
    })
    ∷ (record {
      provider = "azure";
      allowed_models = "gpt-4o" ∷ [];
      blocked_models = [];
      weight = 3;
      runtime_allowed_models = [];
      runtime_blocked_models = [];
      allow_all = false;
    })
    ∷ []

abbrev runtime : List (ProviderConfig ℕ)
runtime =
    (record {
      provider = "openai";
      allowed_models = "*" ∷ [];
      blocked_models = "o1" ∷ [];
      weight = 7;
      runtime_allowed_models = "*" ∷ [];
      runtime_blocked_models = "o1" ∷ [];
      allow_all = true;
    })
    ∷ (record {
      provider = "azure";
      allowed_models = "gpt-4o" ∷ [];
      blocked_models = [];
      weight = 3;
      runtime_allowed_models = "gpt-4o" ∷ [];
      runtime_blocked_models = [];
      allow_all = false;
    })
    ∷ []

compiled : compile_provider_configs tenths weighted stored ≡ ok runtime
unfolding compile_provider_configs compile_config trim_space has compile_blocked compile_allowed
compiled = refl

abbrev asked : CatalogKey
asked = record { provider = "openai"; model_name = "gpt-4o"; model_type = chat }

compile_provider_configs-permits_example :
    is_model_key_allowed runtime asked
    ≡ (if same_text "openai" "" then some_permits_own stored asked else some_permits stored asked)
compile_provider_configs-permits_example =
    compile_provider_configs-permits tenths weighted stored asked compiled
