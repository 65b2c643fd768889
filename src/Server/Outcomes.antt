-- ===== src/Server/Outcomes.antt =====
-- internal/server/chat.go and utils.go: for what cause the answer to a chat completion ends.
use diffractllm.Base.{◌∙◌, List, Bool, true, false, ◌≡◌, refl, ap, Option, none, ℤ, pos}
use diffractllm.Core.Errors.{DiffractError, new_internal_error}
use diffractllm.Server.Chat.{
  chat_completion, Upstream, upstream_failed, upstream_answered, upstream_streamed, Received,
  StreamEnd,
}
use diffractllm.Pricing.Usage.{Usage}
use diffractllm.Server.Streams.{
  Cause, passed_on, failed_with, cause, IsEndedBy, price-eq, stream_loop-IsEnded,
}
use diffractllm.Pricing.Merge.{Pricing}
use diffractllm.Server.Answer.{Answer, write_err, sent}
use diffractllm.Server.Handler.{Gateway, Incoming}

-- The answer of a context that was reset.
pub record IsUntouched {F : Type 0} (a : Answer F) : Type 0 where
  pub fine : a.error ≡ none
  pub there : a.stream_aborted ≡ false
  pub going : a.request_completed ≡ false
  pub unused : a.usage ≡ none

module _ {F W T : Type 0} (gw : Gateway F W T) (r : Incoming F W T) where
  pub write_err-IsEndedBy :
      (size : ℤ) (e : DiffractError) (a : Answer F)
      → IsUntouched a
      → IsEndedBy (failed_with e) (write_err size e a)
  unfolding write_err sent
  write_err-IsEndedBy size e a u = (refl, refl, u.there, u.going)

  answered-IsEndedBy :
      (pricing : Pricing F) (usage : Option (Usage F)) (n : ℤ) (a : Answer F)
      → IsUntouched a
      → IsEndedBy passed_on
          (chat_completion gw.pricer pricing false false r.error_size (upstream_answered usage n) a)
  unfolding chat_completion sent
  answered-IsEndedBy pricing usage n a u =
      let same = price-eq gw.pricer pricing (record a { usage = usage }) in
      (refl, ap (λ x. x.error) same ∙ u.fine, ap (λ x. x.stream_aborted) same ∙ u.there, refl)

  streamed-IsEndedBy :
      (pricing : Pricing F) (rs : List (Received F)) (end : StreamEnd) (a : Answer F)
      → IsUntouched a
      → IsEndedBy
          (cause rs end)
          (chat_completion gw.pricer pricing true true r.error_size (upstream_streamed rs end) a)
  unfolding chat_completion
  streamed-IsEndedBy pricing rs end a u =
      (stream_loop-IsEnded gw.pricer pricing rs end (record a { response_status = pos 200 })
        (record { status = refl; fine = u.fine; there = u.there; going = u.going }) u.unused).ended

  pub chat_completion-IsEndedBy :
      (pricing : Pricing F) (streaming flusher : Bool) (upstream : Upstream F) (a : Answer F)
      → IsUntouched a
      → (c : Cause) × IsEndedBy c
          (chat_completion gw.pricer pricing streaming flusher r.error_size upstream a)
  unfolding chat_completion sent
  chat_completion-IsEndedBy pricing true false upstream a u =
      let e = new_internal_error "client does not support streaming" in
      (failed_with e, write_err-IsEndedBy (r.error_size e) e a u)
  chat_completion-IsEndedBy pricing true true (upstream_failed e) a u =
      (failed_with e, write_err-IsEndedBy (r.error_size e) e a u)
  chat_completion-IsEndedBy pricing false flusher (upstream_failed e) a u =
      (failed_with e, write_err-IsEndedBy (r.error_size e) e a u)
  chat_completion-IsEndedBy pricing true true (upstream_answered usage n) a u =
      (passed_on, answered-IsEndedBy pricing usage n a u)
  chat_completion-IsEndedBy pricing false flusher (upstream_answered usage n) a u =
      (passed_on, answered-IsEndedBy pricing usage n a u)
  chat_completion-IsEndedBy pricing true true (upstream_streamed rs end) a u =
      (cause rs end, streamed-IsEndedBy pricing rs end a u)
  chat_completion-IsEndedBy pricing false flusher (upstream_streamed rs end) a u =
      (cause rs end, streamed-IsEndedBy pricing rs end a u)
