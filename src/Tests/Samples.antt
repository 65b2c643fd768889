-- ===== src/Tests/Samples.antt =====
-- A virtual key, a budget and the usage of a request, for the tests.
use diffractllm.Base.{ℕ, [], ◌∷◌, String, some, true, false, pos}
use diffractllm.Core.VirtualKey.{VirtualKey, direct, round_robin}
use diffractllm.Governance.Budget.{BudgetConfig}
use diffractllm.Pricing.Usage.{Usage}
use diffractllm.Pricing.Tier.{flex}

abbrev pub key_text : String
key_text = "dk-6unQzRgcCeMrLX9IxK4H6e"

abbrev pub virtual_key : VirtualKey ℕ
virtual_key = record {
  id = "vk1";
  key = key_text;
  client_id = "c1";
  budget_id = "b1";
  is_active = true;
  expires_at = some (pos 9_000);
  mode = direct;
  load_balancer = round_robin;
  provider_configs =
      (record {
        provider = "openai";
        allowed_models = "*" ∷ [];
        blocked_models = [];
        weight = 10;
        runtime_allowed_models = "*" ∷ [];
        runtime_blocked_models = [];
        allow_all = true;
      })
      ∷ [];
}

-- A window of 100, last refreshed at 1,000, with a limit of 500.
abbrev pub config : BudgetConfig
config = record {
  id = "b1";
  name = "team";
  budget_limit = pos 500;
  budget_unit = "usd";
  budget_duration = "100ns";
  last_budget_refresh_at = pos 1_000;
  enforce = some true;
  total_spend = pos 7;
  request_count = pos 1;
  status = "active";
  created_at = pos 0;
  updated_at = pos 0;
  budget_parse_duration = pos 100;
}

abbrev pub request : Usage ℕ
request = record {
  tier = flex;
  cache_long_ttl = false;
  search_context_size = "";
  video_resolution = "";
  video_has_audio = false;
  video_from_video = false;
  image_quality = "";
  input_tokens = pos 100;
  output_tokens = pos 50;
  total_tokens = pos 150;
  reasoning_tokens = pos 20;
  citation_tokens = pos 0;
  cached_input_tokens = pos 40;
  cache_creation_tokens = pos 0;
  accepted_prediction_tokens = pos 0;
  rejected_prediction_tokens = pos 0;
  input_audio_tokens = pos 0;
  output_audio_tokens = pos 0;
  cached_audio_tokens = pos 0;
  cache_creation_audio_tokens = pos 0;
  input_audio_seconds = 0;
  input_characters = pos 0;
  output_characters = pos 0;
  input_images = pos 0;
  output_images = pos 0;
  input_image_tokens = pos 0;
  output_image_tokens = pos 0;
  generated_pixels = pos 0;
  output_pixels = pos 0;
  input_video_seconds = 0;
  output_video_seconds = 0;
  output_video_tokens = pos 0;
  output_videos = pos 0;
  input_seconds = 0;
  output_seconds = 0;
  queries = pos 0;
  search_queries = pos 0;
  requests = pos 1;
  input_requests = pos 0;
  pages = pos 0;
  ocr_credits = pos 0;
  annotation_pages = pos 0;
  code_sessions = pos 0;
  input_dbus = pos 0;
  output_dbus = pos 0;
  units = pos 0;
}
