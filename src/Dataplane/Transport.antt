-- ===== src/Dataplane/Transport.antt =====
-- internal/dataplane/transport.go: the retries of a request to a provider, and the bound on its answer.
-- What `http.Client.Do` gives at an attempt, and whether a pause ends before the request does, are
-- arguments, and so is whether the request can be built. The headers and the clients stand in modules of
-- their own.
pub mod Retries
pub mod Body
use diffractllm.Base.{
  ℕ, suc, zero, ◌+◌, ◌*◌, ◌-◌, ◌^◌, Bool, true, false, not, ◌&&◌, ◌||◌, Option, none, some, List,
  [], ◌∷◌, ℤ, pos, negsuc, leb, ltb, ltb_ℤ, leb_ℤ, pos_part, neg_part, sub_ℕ, wrap64, add64,
  if◌then◌else◌, ◌==◌, Result, ok, err,
}
use diffractllm.Core.Errors.{
  DiffractError, new_internal_error, new_upstream_timeout, new_upstream_error,
  new_upstream_unavailable,
}

-- `override != nil && *override > 0`, at the type `int` or `time.Duration`.
unfoldable pub compare_config : ℤ → Option ℤ → ℤ
compare_config base none = base
compare_config base (some override) = if ltb_ℤ (pos 0) override then override else base

unfoldable pub retry_safe : ℕ → Bool
retry_safe status = status == 408 || status == 429

unfoldable pub retry_ambiguous : ℕ → Bool
retry_ambiguous status = status == 502 || status == 503 || status == 504

unfoldable pub retryable : ℕ → Bool → Bool
unfolding retry_safe retry_ambiguous
retryable status allow_ambiguous = retry_safe status || allow_ambiguous && retry_ambiguous status

-- The product with a count, as an int64.
unfoldable pub scale64 : ℤ → ℕ → ℤ
unfolding wrap64
scale64 d k = wrap64 (sub_ℕ (pos_part d * k) (neg_part d * k))

-- `secs` is what `strconv.Atoi` makes of the header, where it is there and a number.
unfoldable pub retry_after : Option ℤ → ℤ → ℕ → ℤ
unfolding scale64
retry_after none base attempt = scale64 base (2 ^ (attempt - 1))
retry_after (some secs) base attempt =
    if ltb_ℤ (pos 0) secs then scale64 secs 1_000_000_000 else scale64 base (2 ^ (attempt - 1))

-- The retry settings of the configuration and of the provider.
pub record RetryConfig : Type 0 where
  pub default_max_retries : ℤ
  pub default_retry_backoff : ℤ
  pub max_retries : Option ℤ
  pub retry_backoff : Option ℤ
  pub retry_ambiguous_status : Option Bool

unfoldable pub max_attempts : RetryConfig → ℤ
unfolding compare_config add64
max_attempts cfg = add64 (pos 1) (compare_config cfg.default_max_retries cfg.max_retries)

abbrev pub is_on : Option Bool → Bool
is_on (some true) = true
is_on _ = false

-- `failed ctx_done` is an error of `Do`, and whether the request's context is over by then.
pub data Reply : Type 0 where
  failed : Bool → Reply
  answered : ℕ → Option ℤ → Reply

-- `nothing` is a nil result with a nil error.
pub data Outcome : Type 0 where
  delivered : ℕ → ℕ → Outcome
  rejected : DiffractError → Outcome
  nothing : Outcome

-- The outcome, with the pauses that were taken, and the number of requests that were sent.
pub record Trace : Type 0 where
  pub outcome : Outcome
  pub waits : List ℤ
  pub sent : ℕ

abbrev pub ended : Outcome → Trace
ended outcome = record { outcome = outcome; waits = []; sent = 1 }

-- The request cannot be built: nothing is sent at this attempt.
abbrev pub unsent : Trace
unsent = record { outcome = rejected (new_internal_error "building request"); waits = []; sent = 0 }

abbrev pub after_wait : ℤ → Trace → Trace
after_wait wait t = record t { waits = wait ∷ t.waits; sent = suc t.sent }

-- The body of the loop: `left` more attempts may be made after this one, which come to `next`.
module _ (backoff : ℤ) (allow_ambiguous : Bool) (reply : ℕ → Reply) (slept : ℕ → Bool) where
  unfoldable pub serve_reply : ℕ → ℕ → Trace → Reply → Trace
  serve_reply left attempt next (failed ctx_done) =
      if ctx_done
      then ended (rejected (new_upstream_timeout ""))
      else if not (left == 0) && slept attempt
      then after_wait backoff next
      else ended (rejected (new_upstream_unavailable ""))
  serve_reply left attempt next (answered status header) =
      if retryable status allow_ambiguous && not (left == 0)
      then if slept attempt
        then after_wait (retry_after header backoff attempt) next
        else ended (rejected (new_upstream_error status ""))
      else ended (delivered status attempt)

  -- `built` is whether `http.NewRequestWithContext` takes the method and the URL, the same at every attempt.
  unfoldable pub serve_loop : Bool → ℕ → ℕ → Trace
  unfolding serve_reply
  serve_loop built zero attempt = record { outcome = nothing; waits = []; sent = 0 }
  serve_loop built (suc left) attempt =
      let next = serve_loop built left (suc attempt) in
      if built then serve_reply left attempt next (reply attempt) else unsent

-- `ServeHTTP`, for a provider that has a client.
unfoldable pub serve_http : RetryConfig → Bool → (ℕ → Reply) → (ℕ → Bool) → Trace
unfolding serve_loop max_attempts compare_config
serve_http cfg built reply slept =
    serve_loop (compare_config cfg.default_retry_backoff cfg.retry_backoff)
      (is_on cfg.retry_ambiguous_status) reply slept built (pos_part (max_attempts cfg)) 1

-- `limitedBody`: how many bytes may still be read.
unfoldable pub new_limited_body : ℤ → ℤ
unfolding add64
new_limited_body limit = add64 limit (pos 1)

-- What a read of the inner body into a buffer of a size gives: a number of bytes up to the size, and the
-- error, if any.
pub data ReadError : Type 0 where
  response_too_large : ReadError
  end_of_file : ReadError
  broken : ReadError

-- `want` is `len(p)`; `inner` reads at most the size that it is given.
unfoldable pub read : (ℕ → ℕ × Option ReadError) → ℕ → ℕ → (ℕ × Option ReadError) × ℕ
read inner want remaining =
    if leb remaining 0
    then ((0, some response_too_large), remaining)
    else let size = if ltb remaining want then remaining else want in
      let (n, e) = inner size in
      let left = remaining - n in ((n, if leb left 0 then some response_too_large else e), left)
