-- ===== src/Pricing/Fields.antt =====
-- internal/core/pricing.go: the fields of `Pricing`, all of the one type `*float64`, under their JSON
-- names, and the list of `pricingFieldPairs` in the order of the source.
use diffractllm.Base.{ℕ, List, [], ◌∷◌}

pub data PriceField : Type 0 where
  input_cost_per_token output_cost_per_token input_cost_per_token_priority : PriceField
  output_cost_per_token_priority input_cost_per_token_flex output_cost_per_token_flex : PriceField
  input_cost_per_token_batches output_cost_per_token_batches input_cost_per_token_fast : PriceField
  output_cost_per_token_fast input_cost_per_token_above_128k_tokens : PriceField
  output_cost_per_token_above_128k_tokens input_cost_per_token_above_200k_tokens : PriceField
  output_cost_per_token_above_200k_tokens input_cost_per_token_above_256k_tokens : PriceField
  output_cost_per_token_above_256k_tokens input_cost_per_token_above_272k_tokens : PriceField
  output_cost_per_token_above_272k_tokens input_cost_per_token_above_512k_tokens : PriceField
  output_cost_per_token_above_512k_tokens : PriceField
  input_cost_per_token_above_200k_tokens_priority : PriceField
  output_cost_per_token_above_200k_tokens_priority : PriceField
  input_cost_per_token_above_272k_tokens_priority : PriceField
  output_cost_per_token_above_272k_tokens_priority : PriceField
  input_cost_per_token_above_272k_tokens_flex : PriceField
  output_cost_per_token_above_272k_tokens_flex : PriceField
  input_cost_per_token_flex_above_272k_tokens : PriceField
  output_cost_per_token_flex_above_272k_tokens : PriceField
  input_cost_per_token_batches_above_272k_tokens : PriceField
  output_cost_per_token_batches_above_272k_tokens cache_read_input_token_cost : PriceField
  cache_read_input_token_cost_priority cache_read_input_token_cost_flex : PriceField
  cache_read_input_token_cost_batches cache_read_input_token_cost_fast : PriceField
  cache_read_input_token_cost_above_200k_tokens : PriceField
  cache_read_input_token_cost_above_272k_tokens : PriceField
  cache_read_input_token_cost_above_512k_tokens : PriceField
  cache_read_input_token_cost_above_200k_tokens_priority : PriceField
  cache_read_input_token_cost_above_272k_tokens_priority : PriceField
  cache_read_input_token_cost_above_272k_tokens_flex : PriceField
  cache_read_input_token_cost_flex_above_272k_tokens : PriceField
  cache_read_input_token_cost_batches_above_272k_tokens input_cost_per_token_cache_hit : PriceField
  cache_creation_input_token_cost cache_creation_input_token_cost_priority : PriceField
  cache_creation_input_token_cost_flex cache_creation_input_token_cost_batches : PriceField
  cache_creation_input_token_cost_fast : PriceField
  cache_creation_input_token_cost_above_200k_tokens : PriceField
  cache_creation_input_token_cost_above_272k_tokens : PriceField
  cache_creation_input_token_cost_above_272k_tokens_flex : PriceField
  cache_creation_input_token_cost_flex_above_272k_tokens : PriceField
  cache_creation_input_token_cost_batches_above_272k_tokens : PriceField
  cache_creation_input_token_cost_above_1hr : PriceField
  cache_creation_input_token_cost_above_1hr_above_200k_tokens : PriceField
  cache_creation_input_token_cost_above_1hr_fast : PriceField
  cache_creation_input_token_cost_batches_1h output_cost_per_reasoning_token : PriceField
  citation_cost_per_token input_cost_per_audio_token output_cost_per_audio_token : PriceField
  input_cost_per_audio_token_priority cache_read_input_audio_token_cost : PriceField
  cache_creation_input_audio_token_cost input_cost_per_audio_per_second : PriceField
  input_cost_per_audio_per_second_above_128k_tokens input_cost_per_character : PriceField
  output_cost_per_character input_cost_per_character_above_128k_tokens : PriceField
  output_cost_per_character_above_128k_tokens input_cost_per_image : PriceField
  output_cost_per_image input_cost_per_image_above_128k_tokens : PriceField
  input_cost_per_image_token output_cost_per_image_token input_cost_per_pixel : PriceField
  output_cost_per_pixel output_cost_per_image_low_quality : PriceField
  output_cost_per_image_medium_quality output_cost_per_image_high_quality : PriceField
  output_cost_per_image_auto_quality output_cost_per_image_above_1024_and_1024_pixels : PriceField
  output_cost_per_image_above_2048_and_2048_pixels : PriceField
  output_cost_per_image_above_4096_and_4096_pixels : PriceField
  output_cost_per_image_above_2048_pixels output_cost_per_image_above_4096_pixels : PriceField
  input_cost_per_video_per_second input_cost_per_video_per_second_above_128k_tokens : PriceField
  output_cost_per_video_per_second output_cost_per_video_token output_cost_per_video : PriceField
  input_cost_per_second output_cost_per_second : PriceField
  input_cost_per_video_per_second_above_8s_interval : PriceField
  input_cost_per_video_per_second_above_15s_interval : PriceField
  output_cost_per_video_per_second_360p output_cost_per_video_per_second_360p_audio : PriceField
  output_cost_per_video_per_second_480p output_cost_per_video_per_second_480p_video_in : PriceField
  output_cost_per_video_per_second_540p output_cost_per_video_per_second_540p_audio : PriceField
  output_cost_per_video_per_second_720p output_cost_per_video_per_second_720p_audio : PriceField
  output_cost_per_video_per_second_720p_video_in : PriceField
  output_cost_per_video_per_second_1080p output_cost_per_video_per_second_1080p_audio : PriceField
  output_cost_per_video_per_second_1080p_video_in output_cost_per_video_per_second_4k : PriceField
  output_cost_per_video_per_second_4k_audio : PriceField
  output_cost_per_video_per_second_4k_video_in output_cost_per_video_per_second_pro : PriceField
  output_cost_per_video_per_second_pro_audio output_cost_per_video_per_second_standard : PriceField
  output_cost_per_video_per_second_standard_audio output_cost_per_second_1080p : PriceField
  output_cost_per_video_768p_6s output_cost_per_video_768p_10s : PriceField
  output_cost_per_video_1080p_6s input_cost_per_query : PriceField
  search_context_cost_per_query_low search_context_cost_per_query_medium : PriceField
  search_context_cost_per_query_high cost_per_request input_cost_per_request : PriceField
  ocr_cost_per_page ocr_cost_per_credit annotation_cost_per_page : PriceField
  code_interpreter_cost_per_session input_dbu_cost_per_token output_dbu_cost_per_token : PriceField
  output_cost_per_unit : PriceField

unfoldable pub pricing_field_pairs : List PriceField
pricing_field_pairs =
    input_cost_per_token ∷ output_cost_per_token ∷ input_cost_per_token_priority
    ∷ output_cost_per_token_priority ∷ input_cost_per_token_flex ∷ output_cost_per_token_flex
    ∷ input_cost_per_token_batches ∷ output_cost_per_token_batches ∷ input_cost_per_token_fast
    ∷ output_cost_per_token_fast ∷ input_cost_per_token_above_128k_tokens
    ∷ output_cost_per_token_above_128k_tokens ∷ input_cost_per_token_above_200k_tokens
    ∷ output_cost_per_token_above_200k_tokens ∷ input_cost_per_token_above_256k_tokens
    ∷ output_cost_per_token_above_256k_tokens ∷ input_cost_per_token_above_272k_tokens
    ∷ output_cost_per_token_above_272k_tokens ∷ input_cost_per_token_above_512k_tokens
    ∷ output_cost_per_token_above_512k_tokens ∷ input_cost_per_token_above_200k_tokens_priority
    ∷ output_cost_per_token_above_200k_tokens_priority
    ∷ input_cost_per_token_above_272k_tokens_priority
    ∷ output_cost_per_token_above_272k_tokens_priority ∷ input_cost_per_token_above_272k_tokens_flex
    ∷ output_cost_per_token_above_272k_tokens_flex ∷ input_cost_per_token_flex_above_272k_tokens
    ∷ output_cost_per_token_flex_above_272k_tokens ∷ input_cost_per_token_batches_above_272k_tokens
    ∷ output_cost_per_token_batches_above_272k_tokens ∷ cache_read_input_token_cost
    ∷ cache_read_input_token_cost_priority ∷ cache_read_input_token_cost_flex
    ∷ cache_read_input_token_cost_batches ∷ cache_read_input_token_cost_fast
    ∷ cache_read_input_token_cost_above_200k_tokens ∷ cache_read_input_token_cost_above_272k_tokens
    ∷ cache_read_input_token_cost_above_512k_tokens
    ∷ cache_read_input_token_cost_above_200k_tokens_priority
    ∷ cache_read_input_token_cost_above_272k_tokens_priority
    ∷ cache_read_input_token_cost_above_272k_tokens_flex
    ∷ cache_read_input_token_cost_flex_above_272k_tokens
    ∷ cache_read_input_token_cost_batches_above_272k_tokens ∷ input_cost_per_token_cache_hit
    ∷ cache_creation_input_token_cost ∷ cache_creation_input_token_cost_priority
    ∷ cache_creation_input_token_cost_flex ∷ cache_creation_input_token_cost_batches
    ∷ cache_creation_input_token_cost_fast ∷ cache_creation_input_token_cost_above_200k_tokens
    ∷ cache_creation_input_token_cost_above_272k_tokens
    ∷ cache_creation_input_token_cost_above_272k_tokens_flex
    ∷ cache_creation_input_token_cost_flex_above_272k_tokens
    ∷ cache_creation_input_token_cost_batches_above_272k_tokens
    ∷ cache_creation_input_token_cost_above_1hr
    ∷ cache_creation_input_token_cost_above_1hr_above_200k_tokens
    ∷ cache_creation_input_token_cost_above_1hr_fast ∷ cache_creation_input_token_cost_batches_1h
    ∷ output_cost_per_reasoning_token ∷ citation_cost_per_token ∷ input_cost_per_audio_token
    ∷ output_cost_per_audio_token ∷ input_cost_per_audio_token_priority
    ∷ cache_read_input_audio_token_cost ∷ cache_creation_input_audio_token_cost
    ∷ input_cost_per_audio_per_second ∷ input_cost_per_audio_per_second_above_128k_tokens
    ∷ input_cost_per_character ∷ output_cost_per_character
    ∷ input_cost_per_character_above_128k_tokens ∷ output_cost_per_character_above_128k_tokens
    ∷ input_cost_per_image ∷ output_cost_per_image ∷ input_cost_per_image_above_128k_tokens
    ∷ input_cost_per_image_token ∷ output_cost_per_image_token ∷ input_cost_per_pixel
    ∷ output_cost_per_pixel ∷ output_cost_per_image_low_quality
    ∷ output_cost_per_image_medium_quality ∷ output_cost_per_image_high_quality
    ∷ output_cost_per_image_auto_quality ∷ output_cost_per_image_above_1024_and_1024_pixels
    ∷ output_cost_per_image_above_2048_and_2048_pixels
    ∷ output_cost_per_image_above_4096_and_4096_pixels ∷ output_cost_per_image_above_2048_pixels
    ∷ output_cost_per_image_above_4096_pixels ∷ input_cost_per_video_per_second
    ∷ input_cost_per_video_per_second_above_128k_tokens
    ∷ input_cost_per_video_per_second_above_8s_interval
    ∷ input_cost_per_video_per_second_above_15s_interval ∷ output_cost_per_video_per_second
    ∷ output_cost_per_video_per_second_360p ∷ output_cost_per_video_per_second_360p_audio
    ∷ output_cost_per_video_per_second_480p ∷ output_cost_per_video_per_second_480p_video_in
    ∷ output_cost_per_video_per_second_540p ∷ output_cost_per_video_per_second_540p_audio
    ∷ output_cost_per_video_per_second_720p ∷ output_cost_per_video_per_second_720p_audio
    ∷ output_cost_per_video_per_second_720p_video_in ∷ output_cost_per_video_per_second_1080p
    ∷ output_cost_per_video_per_second_1080p_audio ∷ output_cost_per_video_per_second_1080p_video_in
    ∷ output_cost_per_video_per_second_4k ∷ output_cost_per_video_per_second_4k_audio
    ∷ output_cost_per_video_per_second_4k_video_in ∷ output_cost_per_video_per_second_pro
    ∷ output_cost_per_video_per_second_pro_audio ∷ output_cost_per_video_per_second_standard
    ∷ output_cost_per_video_per_second_standard_audio ∷ output_cost_per_second_1080p
    ∷ output_cost_per_video_token ∷ output_cost_per_video ∷ output_cost_per_video_768p_6s
    ∷ output_cost_per_video_768p_10s ∷ output_cost_per_video_1080p_6s ∷ input_cost_per_second
    ∷ output_cost_per_second ∷ input_cost_per_query ∷ search_context_cost_per_query_low
    ∷ search_context_cost_per_query_medium ∷ search_context_cost_per_query_high ∷ cost_per_request
    ∷ input_cost_per_request ∷ ocr_cost_per_page ∷ ocr_cost_per_credit ∷ annotation_cost_per_page
    ∷ code_interpreter_cost_per_session ∷ input_dbu_cost_per_token ∷ output_dbu_cost_per_token
    ∷ output_cost_per_unit ∷ []

-- The place of a field in that list.
unfoldable pub index : PriceField → ℕ
index input_cost_per_token = 0
index output_cost_per_token = 1
index input_cost_per_token_priority = 2
index output_cost_per_token_priority = 3
index input_cost_per_token_flex = 4
index output_cost_per_token_flex = 5
index input_cost_per_token_batches = 6
index output_cost_per_token_batches = 7
index input_cost_per_token_fast = 8
index output_cost_per_token_fast = 9
index input_cost_per_token_above_128k_tokens = 10
index output_cost_per_token_above_128k_tokens = 11
index input_cost_per_token_above_200k_tokens = 12
index output_cost_per_token_above_200k_tokens = 13
index input_cost_per_token_above_256k_tokens = 14
index output_cost_per_token_above_256k_tokens = 15
index input_cost_per_token_above_272k_tokens = 16
index output_cost_per_token_above_272k_tokens = 17
index input_cost_per_token_above_512k_tokens = 18
index output_cost_per_token_above_512k_tokens = 19
index input_cost_per_token_above_200k_tokens_priority = 20
index output_cost_per_token_above_200k_tokens_priority = 21
index input_cost_per_token_above_272k_tokens_priority = 22
index output_cost_per_token_above_272k_tokens_priority = 23
index input_cost_per_token_above_272k_tokens_flex = 24
index output_cost_per_token_above_272k_tokens_flex = 25
index input_cost_per_token_flex_above_272k_tokens = 26
index output_cost_per_token_flex_above_272k_tokens = 27
index input_cost_per_token_batches_above_272k_tokens = 28
index output_cost_per_token_batches_above_272k_tokens = 29
index cache_read_input_token_cost = 30
index cache_read_input_token_cost_priority = 31
index cache_read_input_token_cost_flex = 32
index cache_read_input_token_cost_batches = 33
index cache_read_input_token_cost_fast = 34
index cache_read_input_token_cost_above_200k_tokens = 35
index cache_read_input_token_cost_above_272k_tokens = 36
index cache_read_input_token_cost_above_512k_tokens = 37
index cache_read_input_token_cost_above_200k_tokens_priority = 38
index cache_read_input_token_cost_above_272k_tokens_priority = 39
index cache_read_input_token_cost_above_272k_tokens_flex = 40
index cache_read_input_token_cost_flex_above_272k_tokens = 41
index cache_read_input_token_cost_batches_above_272k_tokens = 42
index input_cost_per_token_cache_hit = 43
index cache_creation_input_token_cost = 44
index cache_creation_input_token_cost_priority = 45
index cache_creation_input_token_cost_flex = 46
index cache_creation_input_token_cost_batches = 47
index cache_creation_input_token_cost_fast = 48
index cache_creation_input_token_cost_above_200k_tokens = 49
index cache_creation_input_token_cost_above_272k_tokens = 50
index cache_creation_input_token_cost_above_272k_tokens_flex = 51
index cache_creation_input_token_cost_flex_above_272k_tokens = 52
index cache_creation_input_token_cost_batches_above_272k_tokens = 53
index cache_creation_input_token_cost_above_1hr = 54
index cache_creation_input_token_cost_above_1hr_above_200k_tokens = 55
index cache_creation_input_token_cost_above_1hr_fast = 56
index cache_creation_input_token_cost_batches_1h = 57
index output_cost_per_reasoning_token = 58
index citation_cost_per_token = 59
index input_cost_per_audio_token = 60
index output_cost_per_audio_token = 61
index input_cost_per_audio_token_priority = 62
index cache_read_input_audio_token_cost = 63
index cache_creation_input_audio_token_cost = 64
index input_cost_per_audio_per_second = 65
index input_cost_per_audio_per_second_above_128k_tokens = 66
index input_cost_per_character = 67
index output_cost_per_character = 68
index input_cost_per_character_above_128k_tokens = 69
index output_cost_per_character_above_128k_tokens = 70
index input_cost_per_image = 71
index output_cost_per_image = 72
index input_cost_per_image_above_128k_tokens = 73
index input_cost_per_image_token = 74
index output_cost_per_image_token = 75
index input_cost_per_pixel = 76
index output_cost_per_pixel = 77
index output_cost_per_image_low_quality = 78
index output_cost_per_image_medium_quality = 79
index output_cost_per_image_high_quality = 80
index output_cost_per_image_auto_quality = 81
index output_cost_per_image_above_1024_and_1024_pixels = 82
index output_cost_per_image_above_2048_and_2048_pixels = 83
index output_cost_per_image_above_4096_and_4096_pixels = 84
index output_cost_per_image_above_2048_pixels = 85
index output_cost_per_image_above_4096_pixels = 86
index input_cost_per_video_per_second = 87
index input_cost_per_video_per_second_above_128k_tokens = 88
index input_cost_per_video_per_second_above_8s_interval = 89
index input_cost_per_video_per_second_above_15s_interval = 90
index output_cost_per_video_per_second = 91
index output_cost_per_video_per_second_360p = 92
index output_cost_per_video_per_second_360p_audio = 93
index output_cost_per_video_per_second_480p = 94
index output_cost_per_video_per_second_480p_video_in = 95
index output_cost_per_video_per_second_540p = 96
index output_cost_per_video_per_second_540p_audio = 97
index output_cost_per_video_per_second_720p = 98
index output_cost_per_video_per_second_720p_audio = 99
index output_cost_per_video_per_second_720p_video_in = 100
index output_cost_per_video_per_second_1080p = 101
index output_cost_per_video_per_second_1080p_audio = 102
index output_cost_per_video_per_second_1080p_video_in = 103
index output_cost_per_video_per_second_4k = 104
index output_cost_per_video_per_second_4k_audio = 105
index output_cost_per_video_per_second_4k_video_in = 106
index output_cost_per_video_per_second_pro = 107
index output_cost_per_video_per_second_pro_audio = 108
index output_cost_per_video_per_second_standard = 109
index output_cost_per_video_per_second_standard_audio = 110
index output_cost_per_second_1080p = 111
index output_cost_per_video_token = 112
index output_cost_per_video = 113
index output_cost_per_video_768p_6s = 114
index output_cost_per_video_768p_10s = 115
index output_cost_per_video_1080p_6s = 116
index input_cost_per_second = 117
index output_cost_per_second = 118
index input_cost_per_query = 119
index search_context_cost_per_query_low = 120
index search_context_cost_per_query_medium = 121
index search_context_cost_per_query_high = 122
index cost_per_request = 123
index input_cost_per_request = 124
index ocr_cost_per_page = 125
index ocr_cost_per_credit = 126
index annotation_cost_per_page = 127
index code_interpreter_cost_per_session = 128
index input_dbu_cost_per_token = 129
index output_dbu_cost_per_token = 130
index output_cost_per_unit = 131
