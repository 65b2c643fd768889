-- ===== src/Pricing/UnitRates.antt =====
-- internal/core/pricing.go: the prices of audio, characters, images, video and searches.
use diffractllm.Base.{
  Option, none, [], ◌∷◌, ℤ, pos, Bool, if◌then◌else◌, when, or_default, ◌<|>◌, String,
}
use text.Mathlib.Text.{◌==◌}
use diffractllm.Pricing.Fields.{
  input_cost_per_audio_per_second, input_cost_per_audio_per_second_above_128k_tokens,
  input_cost_per_audio_token, input_cost_per_audio_token_priority, input_cost_per_character,
  input_cost_per_character_above_128k_tokens, input_cost_per_image,
  input_cost_per_image_above_128k_tokens, input_cost_per_video_per_second,
  input_cost_per_video_per_second_above_128k_tokens,
  input_cost_per_video_per_second_above_15s_interval,
  input_cost_per_video_per_second_above_8s_interval, output_cost_per_character,
  output_cost_per_character_above_128k_tokens, output_cost_per_image,
  output_cost_per_image_above_1024_and_1024_pixels,
  output_cost_per_image_above_2048_and_2048_pixels, output_cost_per_image_above_2048_pixels,
  output_cost_per_image_above_4096_and_4096_pixels, output_cost_per_image_above_4096_pixels,
  output_cost_per_image_auto_quality, output_cost_per_image_high_quality,
  output_cost_per_image_low_quality, output_cost_per_image_medium_quality,
  output_cost_per_second_1080p, output_cost_per_video, output_cost_per_video_1080p_6s,
  output_cost_per_video_768p_10s, output_cost_per_video_768p_6s, output_cost_per_video_per_second,
  output_cost_per_video_per_second_1080p, output_cost_per_video_per_second_1080p_audio,
  output_cost_per_video_per_second_1080p_video_in, output_cost_per_video_per_second_360p,
  output_cost_per_video_per_second_360p_audio, output_cost_per_video_per_second_480p,
  output_cost_per_video_per_second_480p_video_in, output_cost_per_video_per_second_4k,
  output_cost_per_video_per_second_4k_audio, output_cost_per_video_per_second_4k_video_in,
  output_cost_per_video_per_second_540p, output_cost_per_video_per_second_540p_audio,
  output_cost_per_video_per_second_720p, output_cost_per_video_per_second_720p_audio,
  output_cost_per_video_per_second_720p_video_in, output_cost_per_video_per_second_pro,
  output_cost_per_video_per_second_pro_audio, output_cost_per_video_per_second_standard,
  output_cost_per_video_per_second_standard_audio, search_context_cost_per_query_high,
  search_context_cost_per_query_low, search_context_cost_per_query_medium,
}
use diffractllm.Pricing.Float.{Float64}
use diffractllm.Pricing.Merge.{Pricing}
use diffractllm.Pricing.Tier.{ServiceTier, band_above_128k, above, is_priority}
use diffractllm.Pricing.Rates.{rate, nonzero}

-- 1024 * 1024, 2048 * 2048 and 4096 * 4096.
abbrev pub pixels_above_1024 : ℤ
pixels_above_1024 = pos 1_048_576

abbrev pub pixels_above_2048 : ℤ
pixels_above_2048 = pos 4_194_304

abbrev pub pixels_above_4096 : ℤ
pixels_above_4096 = pos 16_777_216

module _ {F : Type 0} (fl : Float64 F) (p : Pricing F) where
  unfoldable pub audio_input_token_rate : ServiceTier → F
  audio_input_token_rate tier =
      or_default (when (is_priority tier) (p input_cost_per_audio_token_priority))
        (rate fl (p input_cost_per_audio_token ∷ []))

  unfoldable pub audio_second_rate : ℤ → F
  audio_second_rate n =
      or_default
        (when (above n band_above_128k) (p input_cost_per_audio_per_second_above_128k_tokens))
        (rate fl (p input_cost_per_audio_per_second ∷ []))

  unfoldable pub input_character_rate : ℤ → F
  input_character_rate n =
      or_default (when (above n band_above_128k) (p input_cost_per_character_above_128k_tokens))
        (rate fl (p input_cost_per_character ∷ []))

  unfoldable pub output_character_rate : ℤ → F
  output_character_rate n =
      or_default (when (above n band_above_128k) (p output_cost_per_character_above_128k_tokens))
        (rate fl (p output_cost_per_character ∷ []))

  unfoldable pub input_image_rate : ℤ → F
  input_image_rate n =
      or_default (when (above n band_above_128k) (p input_cost_per_image_above_128k_tokens))
        (rate fl (p input_cost_per_image ∷ []))

  unfoldable pub input_video_second_rate : ℤ → F
  input_video_second_rate n =
      or_default
        (when (above n band_above_128k) (p input_cost_per_video_per_second_above_128k_tokens))
        (rate fl (p input_cost_per_video_per_second ∷ []))

  -- The `switch` on the resolution: what it returns, if it does.
  unfoldable pub video_resolution_rate : String → Bool → Bool → Option F
  video_resolution_rate resolution has_audio from_video =
      if resolution == "360p"
      then when has_audio (p output_cost_per_video_per_second_360p_audio)
        <|> p output_cost_per_video_per_second_360p
      else if resolution == "480p"
      then when from_video (p output_cost_per_video_per_second_480p_video_in)
        <|> p output_cost_per_video_per_second_480p
      else if resolution == "540p"
      then when has_audio (p output_cost_per_video_per_second_540p_audio)
        <|> p output_cost_per_video_per_second_540p
      else if resolution == "720p"
      then when has_audio (p output_cost_per_video_per_second_720p_audio)
        <|> when from_video (p output_cost_per_video_per_second_720p_video_in)
        <|> p output_cost_per_video_per_second_720p
      else if resolution == "1080p"
      then when has_audio (p output_cost_per_video_per_second_1080p_audio)
        <|> when from_video (p output_cost_per_video_per_second_1080p_video_in)
        <|> nonzero fl (
            rate fl
              (p output_cost_per_video_per_second_1080p ∷ p output_cost_per_second_1080p ∷ []))
      else if resolution == "4k"
      then when has_audio (p output_cost_per_video_per_second_4k_audio)
        <|> when from_video (p output_cost_per_video_per_second_4k_video_in)
        <|> p output_cost_per_video_per_second_4k
      else if resolution == "pro"
      then when has_audio (p output_cost_per_video_per_second_pro_audio)
        <|> p output_cost_per_video_per_second_pro
      else if resolution == "standard"
      then when has_audio (p output_cost_per_video_per_second_standard_audio)
        <|> p output_cost_per_video_per_second_standard
      else none

  unfoldable pub output_video_second_rate : String → Bool → Bool → F
  unfolding video_resolution_rate
  output_video_second_rate resolution has_audio from_video =
      or_default (video_resolution_rate resolution has_audio from_video)
        (rate fl (p output_cost_per_video_per_second ∷ []))

  -- The `switch` on the quality: what it returns, if it does.
  unfoldable pub image_quality_rate : String → Option F
  image_quality_rate quality =
      if quality == "low"
      then p output_cost_per_image_low_quality
      else if quality == "medium"
      then p output_cost_per_image_medium_quality
      else if quality == "high"
      then p output_cost_per_image_high_quality
      else if quality == "auto"
      then p output_cost_per_image_auto_quality
      else none

  unfoldable pub output_image_rate : String → ℤ → F
  unfolding image_quality_rate
  output_image_rate quality pixels =
      or_default
        (image_quality_rate quality
          <|> when (above pixels pixels_above_4096) (
              nonzero fl (
                rate fl (
                  p output_cost_per_image_above_4096_and_4096_pixels
                  ∷ p output_cost_per_image_above_4096_pixels
                  ∷ [])))
          <|> when (above pixels pixels_above_2048) (
              nonzero fl (
                rate fl (
                  p output_cost_per_image_above_2048_and_2048_pixels
                  ∷ p output_cost_per_image_above_2048_pixels
                  ∷ [])))
          <|> when (above pixels pixels_above_1024)
              (p output_cost_per_image_above_1024_and_1024_pixels))
        (rate fl (p output_cost_per_image ∷ []))

  unfoldable pub input_video_second_rate_for_clip : F → ℤ → F
  unfolding input_video_second_rate
  input_video_second_rate_for_clip seconds n =
      or_default
        (when (fl.exceeds seconds 15) (p input_cost_per_video_per_second_above_15s_interval)
          <|> when (fl.exceeds seconds 8) (p input_cost_per_video_per_second_above_8s_interval))
        (input_video_second_rate n)

  unfoldable pub output_video_rate : String → F → F
  output_video_rate resolution seconds =
      or_default
        (if resolution == "768p"
          then when (fl.exceeds seconds 6) (p output_cost_per_video_768p_10s)
            <|> p output_cost_per_video_768p_6s
          else if resolution == "1080p"
          then p output_cost_per_video_1080p_6s
          else none)
        (rate fl (p output_cost_per_video ∷ []))

  unfoldable pub search_query_rate : String → F
  search_query_rate context_size =
      or_default
        (if context_size == "low"
          then p search_context_cost_per_query_low
          else if context_size == "high"
          then p search_context_cost_per_query_high
          else if context_size == "medium"
          then p search_context_cost_per_query_medium
          else none)
        (rate fl (
          p search_context_cost_per_query_medium
          ∷ p search_context_cost_per_query_high
          ∷ p search_context_cost_per_query_low
          ∷ []))
