-- ===== src/Server/Streams.antt =====
-- internal/server/chat.go: how a stream ends, and what it costs.
use mathlib.Core.List.{append_assoc, append-nil}
use diffractllm.Base.{
  ◌++◌, ap, ◌∙◌, if◌then◌else◌, sym, subst, ◌≡◌, refl, true, false, String, Option, none, some,
  List, [], ◌∷◌, ℤ, pos, arith, Bool-cases, Option-cases, inl, inr,
}
use diffractllm.Core.Errors.{DiffractError}
use diffractllm.Pricing.Merge.{Pricing}
use diffractllm.Pricing.Usage.{Usage}
use diffractllm.Server.Answer.{Answer, Pricer, price, price_of, sent}
use diffractllm.Server.Kept.{offered, offered-append, IsKept, take_chunk-IsKept}
use diffractllm.Server.Chat.{
  broken, aborted, completed, Chunk, nil_chunk, failed_chunk, delta_chunk, Received, StreamEnd,
  take_chunk, abort_stream, fail_stream, end_stream, stream_loop, status_client_closed,
}

data ChunkView {F : Type 0} (c : Chunk F) : Type 0 where
  nothing : c ≡ nil_chunk → ChunkView c
  failed : (e : DiffractError) → c ≡ failed_chunk e → ChunkView c
  delta :
      (usage : Option (Usage F)) (finish : Option String)
      → c ≡ delta_chunk usage finish
      → ChunkView c

Chunk-cases : {F : Type 0} (c : Chunk F) → ChunkView c
Chunk-cases nil_chunk = nothing refl
Chunk-cases (failed_chunk e) = failed e refl
Chunk-cases (delta_chunk usage finish) = delta usage finish refl

-- An answer whose stream is under way.
pub record IsOpen {F : Type 0} (a : Answer F) : Type 0 where
  pub status : a.response_status ≡ pos 200
  pub fine : a.error ≡ none
  pub there : a.stream_aborted ≡ false
  pub going : a.request_completed ≡ false

-- Why an answer ends.
pub data Cause : Type 0 where
  passed_on client_left write_failed : Cause
  failed_with : DiffractError → Cause

-- An answer that ended for a cause: its status, its error and its marks.
abbrev pub IsEndedBy : {F : Type 0} → Cause → Answer F → Type 0
IsEndedBy passed_on a =
    (a.response_status ≡ pos 200)
    × (a.error ≡ none)
    × (a.stream_aborted ≡ false)
    × (a.request_completed ≡ true)
IsEndedBy (failed_with e) a =
    (a.response_status ≡ pos e.status_code)
    × (a.error ≡ some e)
    × (a.stream_aborted ≡ false)
    × (a.request_completed ≡ false)
IsEndedBy _ a =
    (a.response_status ≡ status_client_closed)
    × (a.error ≡ none)
    × (a.stream_aborted ≡ true)
    × (a.request_completed ≡ false)

module _ {F : Type 0} where
  -- The first event that ends a stream.
  unfoldable pub cause : List (Received F) → StreamEnd → Cause
  cause [] end =
      if end.client_gone then client_left else if end.write_fails then write_failed else passed_on
  cause (r ∷ rs) end =
      let later = cause rs end in
      if r.client_gone then client_left else elim r.chunk [
        | nil_chunk ↦ later
        | failed_chunk e ↦ failed_with e
        | delta_chunk usage finish ↦ if r.write_fails then write_failed else later
      ]

  -- The usages of the chunks up to that event, that of a chunk whose write failed included.
  unfoldable pub usages : List (Received F) → List (Usage F)
  usages [] = []
  usages (r ∷ rs) =
      let later = usages rs in
      if r.client_gone then [] else elim r.chunk [
        | nil_chunk ↦ later
        | failed_chunk e ↦ []
        | delta_chunk usage finish ↦ offered usage (if r.write_fails then [] else later)
      ]

module _ {F : Type 0} (pr : Pricer F) (pricing : Pricing F) where
  -- The cost of what was kept; that of before where nothing was.
  abbrev pub paid : F → Option (Usage F) → F
  paid before none = before
  paid before (some usage) = price_of pr pricing usage

  -- An answer that ended for a cause, with the usages that were seen.
  pub record IsDone (c : Cause) (seen : List (Usage F)) (before : F) (a : Answer F) : Type 0 where
    pub ended : IsEndedBy c a
    pub kept : IsKept seen a.usage
    pub cost : a.cost ≡ paid before a.usage

  recosted-IsEndedBy :
      (c : Cause) (a : Answer F) (cost : F) → IsEndedBy c a → IsEndedBy c (record a { cost = cost })
  recosted-IsEndedBy passed_on a cost h = h
  recosted-IsEndedBy client_left a cost h = h
  recosted-IsEndedBy write_failed a cost h = h
  recosted-IsEndedBy (failed_with e) a cost h = h

  -- What `price` leaves alone.
  pub price-eq : (a : Answer F) → price pr pricing a ≡ record a { cost = paid a.cost a.usage }
  unfolding price
  price-eq a = elim (Option-cases a.usage) [
    | inl without ↦ ground (arith, without)
    | inr (usage, found) ↦ ground (arith, found)
  ]

  pub price-IsDone :
      (c : Cause) (seen : List (Usage F)) (a : Answer F)
      → IsEndedBy c a
      → IsKept seen a.usage
      → IsDone c seen a.cost (price pr pricing a)
  price-IsDone c seen a ended kept = subst (IsDone c seen a.cost) (sym (price-eq a)) (record {
    ended = recosted-IsEndedBy c a (paid a.cost a.usage) ended;
    kept = kept;
    cost = refl;
  })

  end_stream-IsDone :
      (end : StreamEnd) (a : Answer F) (seen : List (Usage F))
      → IsOpen a
      → IsKept seen a.usage
      → IsDone (cause {F = F} [] end) seen a.cost (end_stream pr pricing end a)
  unfolding end_stream abort_stream sent cause
  end_stream-IsDone end a seen o kept = elim (Bool-cases end.client_gone) [
    | inl gone ↦
        rw gone (price-IsDone client_left seen (aborted a) (refl, o.fine, refl, o.going) kept)
    | inr there ↦ elim (Bool-cases end.write_fails) [
      | inl fails ↦
          rw (there, fails)
            (price-IsDone write_failed seen (aborted (sent end.size a))
              (refl, o.fine, refl, o.going) kept)
      | inr good ↦
          rw (there, good)
            (price-IsDone passed_on seen (completed end.size a) (o.status, o.fine, o.there, refl)
              kept)
    ]
  ]

  abbrev passed : ℤ → Option (Usage F) → Option String → Answer F → Answer F
  passed size usage finish a = sent size (take_chunk usage finish a)

  passed-IsOpen :
      (size : ℤ) (usage : Option (Usage F)) (finish : Option String) (a : Answer F)
      → IsOpen a
      → IsOpen (passed size usage finish a)
  unfolding sent take_chunk
  passed-IsOpen size usage finish a o = record {
    status = o.status;
    fine = o.fine;
    there = o.there;
    going = o.going;
  }

  stream_loop-IsDone :
      (rs : List (Received F)) (end : StreamEnd) (a : Answer F) (seen : List (Usage F))
      → IsOpen a
      → IsKept seen a.usage
      → IsDone (cause rs end) (seen ++ usages rs) a.cost (stream_loop pr pricing rs end a)
  unfolding stream_loop abort_stream fail_stream take_chunk sent cause usages
  stream_loop-IsDone [] end a seen o kept =
      subst (λ us. IsDone (cause {F = F} [] end) us a.cost (end_stream pr pricing end a))
        (sym (append-nil seen)) (end_stream-IsDone end a seen o kept)
  stream_loop-IsDone (r ∷ rs) end a seen o kept = elim (Bool-cases r.client_gone) [
    | inl gone ↦
        rw (gone, append-nil seen)
          (price-IsDone client_left seen (aborted a) (refl, o.fine, refl, o.going) kept)
    | inr there ↦ elim (Chunk-cases r.chunk) [
      | nothing is ↦ rw (there, is) (stream_loop-IsDone rs end a seen o kept)
      | failed e is ↦
          rw (there, is, append-nil seen)
            (price-IsDone (failed_with e) seen (broken r.size e a) (refl, refl, o.there, o.going)
              kept)
      | delta usage finish is ↦
          let a' = passed r.size usage finish a in
          let o' = passed-IsOpen r.size usage finish a o in
          let kept' : IsKept (seen ++ offered usage []) a'.usage =
            take_chunk-IsKept seen usage finish a kept in
          elim (Bool-cases r.write_fails) [
            | inl fails ↦
                rw (there, is, fails)
                  (price-IsDone write_failed (seen ++ offered usage []) (aborted a')
                    (refl, o'.fine, refl, o'.going) kept')
            | inr good ↦
                let all : seen ++ offered usage (usages rs)
                    ≡ (seen ++ offered usage []) ++ usages rs =
                  ap (λ us. seen ++ us) (offered-append usage (usages rs))
                  ∙ sym (append_assoc seen (offered usage []) (usages rs)) in
                rw (there, is, good, all)
                  (stream_loop-IsDone rs end a' (seen ++ offered usage []) o' kept')
          ]
    ]
  ]

  -- A stream that starts without a usage ends by the first of: a chunk that finds the client gone, a write that
  -- fails, an error of the provider, the end of the chunks. The status, the error and the marks of its
  -- answer are those of that cause. Of the usages of the chunks up to there, the last one with the most
  -- output tokens is kept, and the answer costs what that usage costs.
  pub stream_loop-IsEnded :
      (rs : List (Received F)) (end : StreamEnd) (a : Answer F)
      → IsOpen a
      → a.usage ≡ none
      → IsDone (cause rs end) (usages rs) a.cost (stream_loop pr pricing rs end a)
  stream_loop-IsEnded rs end a o fresh =
      stream_loop-IsDone rs end a [] o (subst (IsKept []) (sym fresh) refl)
