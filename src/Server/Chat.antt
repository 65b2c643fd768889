-- ===== src/Server/Chat.antt =====
-- internal/server/chat.go: the answer to a chat completion. What the provider's adapter delivers is an argument:
-- an error, an answer, or the chunks of a stream with what happened to the client meanwhile.
use diffractllm.Base.{
  ◌+◌, ◌%◌, Bool, true, false, String, Option, none, some, List, [], ◌∷◌, ℤ, pos, leb_ℤ, or_default,
  if◌then◌else◌,
}
use diffractllm.Core.Errors.{DiffractError, new_internal_error}
use diffractllm.Pricing.Merge.{Pricing}
use diffractllm.Pricing.Usage.{Usage}
use diffractllm.Server.Answer.{Answer, Pricer, price, sent, write_err}

pub data Chunk (F : Type 0) : Type 0 where
  nil_chunk : Chunk F
  failed_chunk : DiffractError → Chunk F
  delta_chunk : Option (Usage F) → Option String → Chunk F

-- A chunk that was received: whether the client was gone by then, whether the write to it fails, and how
-- many bytes were written.
pub record Received (F : Type 0) : Type 0 where
  pub chunk : Chunk F
  pub client_gone : Bool
  pub write_fails : Bool
  pub size : ℤ

-- What happens after the last chunk.
pub record StreamEnd : Type 0 where
  pub client_gone : Bool
  pub write_fails : Bool
  pub size : ℤ

pub data Upstream (F : Type 0) : Type 0 where
  upstream_failed : DiffractError → Upstream F
  upstream_answered : Option (Usage F) → ℤ → Upstream F
  upstream_streamed : List (Received F) → StreamEnd → Upstream F

abbrev pub status_client_closed : ℤ
status_client_closed = pos 499

module _ {F : Type 0} where
  -- A later usage replaces one with no more output tokens.
  unfoldable pub keep_usage : Option (Usage F) → Usage F → Usage F
  keep_usage none usage = usage
  keep_usage (some old) usage = if leb_ℤ old.output_tokens usage.output_tokens then usage else old

  -- What the loop takes from a chunk before it is written.
  unfoldable pub take_chunk : Option (Usage F) → Option String → Answer F → Answer F
  unfolding keep_usage
  take_chunk usage finish a = record a {
    usage = elim usage [ none ↦ a.usage | some u ↦ some (keep_usage a.usage u) ];
    stream_finish_reason = or_default finish a.stream_finish_reason;
    stream_chunks = (a.stream_chunks + 1) % 4_294_967_296;
  }

  -- The three ways in which a stream ends.
  abbrev pub aborted : Answer F → Answer F
  aborted a = record a { stream_aborted = true; response_status = status_client_closed }

  abbrev pub broken : ℤ → DiffractError → Answer F → Answer F
  broken size e a = record (sent size a) { error = some e; response_status = pos e.status_code }

  abbrev pub completed : ℤ → Answer F → Answer F
  completed size a = record (sent size a) { request_completed = true }

  module _ (pr : Pricer F) (pricing : Pricing F) where
    -- The client is gone, or a write to it failed: the rest of the stream is awaited.
    unfoldable pub abort_stream : Answer F → Answer F
    unfolding price
    abort_stream a = price pr pricing (aborted a)

    unfoldable pub fail_stream : ℤ → DiffractError → Answer F → Answer F
    unfolding price sent
    fail_stream size e a = price pr pricing (broken size e a)

    unfoldable pub end_stream : StreamEnd → Answer F → Answer F
    unfolding abort_stream sent
    end_stream end a =
        if end.client_gone
        then abort_stream a
        else if end.write_fails
        then abort_stream (sent end.size a)
        else price pr pricing (completed end.size a)

    unfoldable pub stream_loop : List (Received F) → StreamEnd → Answer F → Answer F
    unfolding end_stream abort_stream fail_stream take_chunk sent
    stream_loop [] end a = end_stream end a
    stream_loop (r ∷ rs) end a = if r.client_gone then abort_stream a else elim r.chunk [
      | nil_chunk ↦ stream_loop rs end a
      | failed_chunk e ↦ fail_stream r.size e a
      | delta_chunk usage finish ↦
          let a' = sent r.size (take_chunk usage finish a) in
          let rest = stream_loop rs end a' in if r.write_fails then abort_stream a' else rest
    ]

    -- `flusher` is whether the writer of the answer can stream, `size` the length of an error's JSON.
    unfoldable pub chat_completion :
        Bool → Bool → (DiffractError → ℤ) → Upstream F → Answer F → Answer F
    unfolding stream_loop write_err price sent
    chat_completion true false size upstream a =
        let e = new_internal_error "client does not support streaming" in write_err (size e) e a
    chat_completion streaming flusher size (upstream_failed e) a = write_err (size e) e a
    chat_completion streaming flusher size (upstream_answered usage n) a =
        record (sent n
          (record (price pr pricing (record a { usage = usage })) { response_status = pos 200 })) {
            request_completed = true;
          }
    chat_completion streaming flusher size (upstream_streamed rs end) a =
        stream_loop rs end (record a { response_status = pos 200 })
