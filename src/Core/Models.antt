-- ===== src/Core/Models.antt =====
-- internal/core/catalog.go, provider.go and kind-types.go: the names of models, and the text functions
-- of Go's `strings` that they use.
use Prim.Native.Char.{code}
use text.Mathlib.Text.{◌==◌}
use diffractllm.Base.{ℕ, Bool, ◌&&◌, ◌||◌, not, String, Option, none, some, leb, if◌then◌else◌}
use diffractllm.Base.{◌==◌ as nat_equal}
use diffractllm.Core.Capabilities.{
  ModelType, unknown, chat, completion, responses, embedding, image_generation, audio_transcription,
  audio_speech, moderation, image_edit,
}

-- `unicode.IsSpace`
unfoldable pub is_space : ℕ → Bool
is_space c =
    leb 9 c && leb c 13
    || nat_equal c 32
    || nat_equal c 133
    || nat_equal c 160
    || nat_equal c 5760
    || leb 8192 c && leb c 8202
    || nat_equal c 8232
    || nat_equal c 8233
    || nat_equal c 8239
    || nat_equal c 8287
    || nat_equal c 12288

unfoldable pub trim_left : String → String
unfolding is_space
trim_left String.[] = String.[]
trim_left (String.◌∷◌ c s) =
    let rest = trim_left s in if is_space (code c) then rest else String.◌∷◌ c s

-- White space at the end goes; what is left of `s` is not empty unless all of it is white space.
unfoldable pub trim_right : String → String
unfolding is_space
trim_right String.[] = String.[]
trim_right (String.◌∷◌ c s) = elim (trim_right s) [
  | String.[] ↦ if is_space (code c) then String.[] else String.◌∷◌ c String.[]
  | String.◌∷◌ d r ↦ String.◌∷◌ c (String.◌∷◌ d r)
]

-- `strings.TrimSpace`
unfoldable pub trim_space : String → String
unfolding trim_left trim_right
trim_space s = trim_right (trim_left s)

-- `strings.Cut(s, "/")`; `none` is `found == false`.
unfoldable pub cut_slash : String → Option (String × String)
cut_slash String.[] = none
cut_slash (String.◌∷◌ c s) =
    if nat_equal (code c) 47 then some (String.[], s) else elim (cut_slash s) [
      | none ↦ none
      | some (before, after) ↦ some (String.◌∷◌ c before, after)
    ]

unfoldable pub is_known_provider : String → Bool
is_known_provider name =
    name == "openai"
    || name == "anthropic"
    || name == "azure"
    || name == "cohere"
    || name == "ollama"
    || name == "custom"

-- The provider, "" where the text names none, and the model.
unfoldable pub parse_model_string : String → String × String
unfolding trim_space cut_slash is_known_provider
parse_model_string text =
    let model = trim_space text in
    elim (cut_slash model) [
      | none ↦ ("", model)
      | some (provider, name) ↦
          if not (provider == "") && not (name == "") && is_known_provider provider
          then (provider, name)
          else ("", model)
    ]

pub record CatalogKey : Type 0 where
  pub provider : String
  pub model_name : String
  pub model_type : ModelType

unfoldable pub route_key : CatalogKey → CatalogKey
route_key c = record c { model_type = unknown }

unfoldable pub custom_pricing_key : CatalogKey → CatalogKey
custom_pricing_key c = record c { provider = "" }

pub data RequestKind : Type 0 where
  chat_request completion_request responses_request embedding_request image_gen_request :
      RequestKind
  image_edit_request speech_request transcription_request moderation_request : RequestKind
  models_request : RequestKind

unfoldable pub kind_model_type : RequestKind → ModelType
kind_model_type chat_request = chat
kind_model_type completion_request = completion
kind_model_type responses_request = responses
kind_model_type embedding_request = embedding
kind_model_type image_gen_request = image_generation
kind_model_type image_edit_request = image_edit
kind_model_type speech_request = audio_speech
kind_model_type transcription_request = audio_transcription
kind_model_type moderation_request = moderation
kind_model_type models_request = unknown
