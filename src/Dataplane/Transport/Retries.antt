-- ===== src/Dataplane/Transport/Retries.antt =====
-- internal/dataplane/transport.go: how often a request is sent, and which answer is handed on.
use diffractllm.Base.{
  add64, ℕ, zero, suc, ◌+◌, ◌≤◌, ◌<◌, ◌≡◌, ◌≢◌, refl, ap, ◌∙◌, Bool, true, false, not, ◌&&◌, Option,
  [], ℤ, pos, length, max_int64, arith, Bool-cases, inl, inr, ◌==◌, pos_part,
}
use diffractllm.Core.Errors.{
  new_internal_error, new_upstream_error, new_upstream_unavailable, new_upstream_timeout,
  DiffractError,
}
use diffractllm.Dataplane.Transport.{
  serve_reply, retry_after, compare_config, retryable, RetryConfig, max_attempts, is_on, Reply,
  failed, answered, delivered, rejected, nothing, Trace, ended, after_wait, serve_loop, serve_http,
}

-- A trace of attempts from `first` on, of which at most `left` are allowed.
pub record Served (allow_ambiguous : Bool) (reply : ℕ → Reply) (first left : ℕ) (t : Trace)
    : Type 0 where
  pub tried : 1 ≤ t.sent
  pub bounded : t.sent ≤ left
  pub paused : suc (length t.waits) ≡ t.sent
  pub decided : t.outcome ≢ nothing
  pub handed_on :
      (status attempt : ℕ)
      → t.outcome ≡ delivered status attempt
      → (suc attempt ≡ first + t.sent)
        × ((header : Option ℤ) × (reply attempt ≡ answered status header))
        × (retryable status allow_ambiguous ≡ true → t.sent ≡ left)

module _ (backoff : ℤ) (allow_ambiguous : Bool) (reply : ℕ → Reply) (slept : ℕ → Bool) where
  rejected-Served :
      (first left : ℕ) (e : DiffractError)
      → Served allow_ambiguous reply first (suc left) (ended (rejected e))
  rejected-Served first left e = record {
    tried = omega arith;
    bounded = omega arith;
    paused = refl;
    decided = λ h. cc;
    handed_on = λ status attempt h. cc;
  }

  delivered-Served :
      (first left status : ℕ) (header : Option ℤ)
      → reply first ≡ answered status header
      → (retryable status allow_ambiguous ≡ true → left ≡ 0)
      → Served allow_ambiguous reply first (suc left) (ended (delivered status first))
  delivered-Served first left status header e last = record {
    tried = omega arith;
    bounded = omega arith;
    paused = refl;
    decided = λ h. cc;
    handed_on = λ s a h.
        let same_status : status ≡ s = ground arith in
        let same_attempt : first ≡ a = ground arith in
        (
          omega (arith, same_attempt),
          (header, ground (arith, same_attempt, same_status)),
          λ r. omega (arith, last (ap (λ k. retryable k allow_ambiguous) same_status ∙ r)),
        );
  }

  after_wait-Served :
      (first left : ℕ) (wait : ℤ) (t : Trace)
      → Served allow_ambiguous reply (suc first) left t
      → Served allow_ambiguous reply first (suc left) (after_wait wait t)
  after_wait-Served first left wait t s = record {
    tried = omega (arith, s.tried);
    bounded = omega (arith, s.bounded);
    paused = ap suc s.paused;
    decided = s.decided;
    handed_on = λ status attempt h.
        let (index, got, last) = s.handed_on status attempt h in
        (omega (arith, index), got, λ r. ap suc (last r));
  }

  serve_reply-Served :
      (left first : ℕ) (next : Trace) (r : Reply)
      → reply first ≡ r
      → ((left == 0) ≡ false → Served allow_ambiguous reply (suc first) left next)
      → Served allow_ambiguous reply first
          (suc left)
          (serve_reply backoff allow_ambiguous reply slept left first next r)
  unfolding serve_reply
  serve_reply-Served left first next (failed true) e later =
      rejected-Served first left (new_upstream_timeout "")
  serve_reply-Served left first next (failed false) e later =
      elim (Bool-cases (not (left == 0) && slept first)) [
        | inl again ↦ rw again (after_wait-Served first left backoff next (later (ground arith)))
        | inr done ↦ rw done (rejected-Served first left (new_upstream_unavailable ""))
      ]
  serve_reply-Served left first next (answered status header) e later =
      elim (Bool-cases (retryable status allow_ambiguous && not (left == 0))) [
        | inl again ↦ elim (Bool-cases (slept first)) [
          | inl woke ↦
              rw (again, woke)
                (after_wait-Served first left (retry_after header backoff first) next
                  (later (ground arith)))
          | inr aborted ↦
              rw (again, aborted) (rejected-Served first left (new_upstream_error status ""))
        ]
        | inr done ↦ rw done (delivered-Served first left status header e (λ r. ground arith))
      ]

  serve_loop-Served :
      (left first : ℕ)
      → Served allow_ambiguous reply first
          (suc left)
          (serve_loop backoff allow_ambiguous reply slept true (suc left) first)
  unfolding serve_loop
  serve_loop-Served zero first =
      serve_reply-Served zero first (record { outcome = nothing; waits = []; sent = 0 })
        (reply first) refl (λ h. absurd (ground arith))
  serve_loop-Served (suc left) first =
      serve_reply-Served (suc left) first
        (serve_loop backoff allow_ambiguous reply slept true (suc left) (suc first)) (reply first)
        refl (λ h. serve_loop-Served left (suc first))

-- What is known of a request that could be built, and of one that could not.
abbrev pub IsTried : Bool → Bool → (ℕ → Reply) → ℕ → Trace → Type 0
IsTried true allow_ambiguous reply attempts t = Served allow_ambiguous reply 1 attempts t
IsTried false allow_ambiguous reply attempts t =
    (t.outcome ≡ rejected (new_internal_error "building request")) × (t.sent ≡ 0) × (t.waits ≡ [])

unbuilt-unsent :
    (backoff : ℤ) (allow_ambiguous : Bool) (reply : ℕ → Reply) (slept : ℕ → Bool) (left first : ℕ)
    → IsTried false allow_ambiguous reply
        (suc left)
        (serve_loop backoff allow_ambiguous reply slept false (suc left) first)
unfolding serve_loop
unbuilt-unsent backoff allow_ambiguous reply slept left first = (refl, refl, refl)

attempts_lem : (n : ℕ) → n < max_int64 → pos_part (add64 (pos 1) (pos n)) ≡ suc n
unfolding add64
attempts_lem n small = ground arith

-- A request that can be built, to a provider that allows `n` retries, is sent at least once and at most `n + 1`
-- times, with a pause before every attempt but the first, and always ends in an answer or an error. An
-- answer that is handed on is the one the last request got; one that could be retried is handed on only
-- when no attempt is left. A request that cannot be built is not sent, and ends in an internal error.
pub serve_http-Served :
    (cfg : RetryConfig) (built : Bool) (reply : ℕ → Reply) (slept : ℕ → Bool) (n : ℕ)
    → compare_config cfg.default_max_retries cfg.max_retries ≡ pos n
    → n < max_int64
    → IsTried built
        (is_on cfg.retry_ambiguous_status)
        reply
        (suc n)
        (serve_http cfg built reply slept)
unfolding serve_http max_attempts
serve_http-Served cfg true reply slept n retries small =
    let attempts : pos_part (add64 (pos 1) (pos n)) ≡ suc n = attempts_lem n small in
    rw (retries, attempts)
      (serve_loop-Served (compare_config cfg.default_retry_backoff cfg.retry_backoff)
        (is_on cfg.retry_ambiguous_status) reply slept n 1)
serve_http-Served cfg false reply slept n retries small =
    let attempts : pos_part (add64 (pos 1) (pos n)) ≡ suc n = attempts_lem n small in
    rw (retries, attempts)
      (unbuilt-unsent (compare_config cfg.default_retry_backoff cfg.retry_backoff)
        (is_on cfg.retry_ambiguous_status) reply slept n 1)
