-- ===== src/Pricing/Usage.antt =====
-- internal/core/pricing.go: the quantities of a request.
use diffractllm.Base.{Bool, String, ℤ}
use diffractllm.Pricing.Tier.{ServiceTier}

pub record Usage (F : Type 0) : Type 0 where
  pub tier : ServiceTier
  pub cache_long_ttl : Bool
  pub search_context_size : String
  pub video_resolution : String
  pub video_has_audio : Bool
  pub video_from_video : Bool
  pub image_quality : String
  pub input_tokens : ℤ
  pub output_tokens : ℤ
  pub total_tokens : ℤ
  pub reasoning_tokens : ℤ
  pub citation_tokens : ℤ
  pub cached_input_tokens : ℤ
  pub cache_creation_tokens : ℤ
  pub accepted_prediction_tokens : ℤ
  pub rejected_prediction_tokens : ℤ
  pub input_audio_tokens : ℤ
  pub output_audio_tokens : ℤ
  pub cached_audio_tokens : ℤ
  pub cache_creation_audio_tokens : ℤ
  pub input_audio_seconds : F
  pub input_characters : ℤ
  pub output_characters : ℤ
  pub input_images : ℤ
  pub output_images : ℤ
  pub input_image_tokens : ℤ
  pub output_image_tokens : ℤ
  pub generated_pixels : ℤ
  pub output_pixels : ℤ
  pub input_video_seconds : F
  pub output_video_seconds : F
  pub output_video_tokens : ℤ
  pub output_videos : ℤ
  pub input_seconds : F
  pub output_seconds : F
  pub queries : ℤ
  pub search_queries : ℤ
  pub requests : ℤ
  pub input_requests : ℤ
  pub pages : ℤ
  pub ocr_credits : ℤ
  pub annotation_pages : ℤ
  pub code_sessions : ℤ
  pub input_dbus : ℤ
  pub output_dbus : ℤ
  pub units : ℤ
