-- ===== src/Core/Capabilities.antt =====
-- internal/core/capability.go: model types and their names.
use text.Mathlib.Text.{◌==◌}
use diffractllm.Base.{ℕ, ◌≡◌, refl, String, if◌then◌else◌}

pub data ModelType : Type 0 where
  unknown chat completion responses embedding image_generation audio_transcription : ModelType
  audio_speech moderation rerank search_model video_generation image_edit realtime ocr : ModelType
  vector_store model_3d : ModelType

-- The value of the constant, by `iota`.
unfoldable pub model_type_code : ModelType → ℕ
model_type_code unknown = 0
model_type_code chat = 1
model_type_code completion = 2
model_type_code responses = 3
model_type_code embedding = 4
model_type_code image_generation = 5
model_type_code audio_transcription = 6
model_type_code audio_speech = 7
model_type_code moderation = 8
model_type_code rerank = 9
model_type_code search_model = 10
model_type_code video_generation = 11
model_type_code image_edit = 12
model_type_code realtime = 13
model_type_code ocr = 14
model_type_code vector_store = 15
model_type_code model_3d = 16

unfoldable pub model_type_string : ModelType → String
model_type_string chat = "chat"
model_type_string completion = "completion"
model_type_string responses = "responses"
model_type_string embedding = "embedding"
model_type_string image_generation = "image_generation"
model_type_string audio_transcription = "audio_transcription"
model_type_string audio_speech = "audio_speech"
model_type_string moderation = "moderation"
model_type_string rerank = "rerank"
model_type_string search_model = "search"
model_type_string video_generation = "video_generation"
model_type_string image_edit = "image_edit"
model_type_string realtime = "realtime"
model_type_string ocr = "ocr"
model_type_string vector_store = "vector_store"
model_type_string model_3d = "3d"
model_type_string unknown = "unknown"

unfoldable pub parse_model_type : String → ModelType
parse_model_type mode =
    if mode == "chat"
    then chat
    else if mode == "completion"
    then completion
    else if mode == "responses"
    then responses
    else if mode == "embedding"
    then embedding
    else if mode == "image_generation"
    then image_generation
    else if mode == "audio_transcription"
    then audio_transcription
    else if mode == "audio_speech"
    then audio_speech
    else if mode == "moderation"
    then moderation
    else if mode == "rerank"
    then rerank
    else if mode == "search"
    then search_model
    else if mode == "video_generation"
    then video_generation
    else if mode == "image_edit"
    then image_edit
    else if mode == "realtime"
    then realtime
    else if mode == "ocr"
    then ocr
    else if mode == "vector_store"
    then vector_store
    else if mode == "3d"
    then model_3d
    else unknown

-- Every model type is read back from its name.
pub parse_model_type-model_type_string :
    (t : ModelType) → parse_model_type (model_type_string t) ≡ t
unfolding parse_model_type model_type_string
parse_model_type-model_type_string chat = refl
parse_model_type-model_type_string _ = refl
