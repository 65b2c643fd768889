-- ===== src/Server/Bodies.antt =====
-- internal/server/handlers.go: what is read of a body.
use diffractllm.Base.{
  take-all, ◌⊎◌, false, subst, sym, ℕ, suc, zero, ◌*◌, ◌≤◌, ◌≡◌, refl, ap, Bool-cases, inl, inr,
  List, [], ◌∷◌, pos, ◌≤ℤ◌, length, take, leb, ltb, ltb_ℤ, ok, arith, fail_if-eq-ok, ◌&&◌,
}
use diffractllm.Core.Errors.{new_payload_too_large, new_invalid_request_body}
use diffractllm.Server.Handler.{Body, fails_within, read_body}

length-take_long : (n : ℕ) (xs : List ℕ) → n ≤ length xs → length (take n xs) ≡ n
length-take_long zero xs le = refl
length-take_long (suc n) [] le = absurd (omega arith)
length-take_long (suc n) (x ∷ xs) le = ap suc (length-take_long n xs (omega arith))

-- A body that is read is all that the client sent, and within the limit, whatever length was declared. Where reading
-- failed in place of the end of the body, as many bytes were read as the limit allows: only there is the
-- failure overlooked.
pub read_body-whole :
    (kb : ℕ) (body : Body) (read : List ℕ)
    → read_body kb body ≡ ok read
    → (read ≡ body.bytes)
      × (length body.bytes ≤ kb * 1_024)
      × (body.content_length ≤ℤ pos (kb * 1_024))
      × ((body.read_fails ≡ false) ⊎ (length read ≡ kb * 1_024))
unfolding read_body fails_within
read_body-whole kb body read h =
    let max = kb * 1_024 in
    let (declared, rest) =
      fail_if-eq-ok (ltb_ℤ (pos max) body.content_length) new_payload_too_large _ h in
    let (reads, rest') =
      fail_if-eq-ok (fails_within max body) (new_invalid_request_body "reading body") _ rest in
    let (probed, kept) =
      fail_if-eq-ok (leb max (length (take max body.bytes)) && ltb max (length body.bytes))
        new_payload_too_large _ rest' in
    elim (Bool-cases (ltb max (length body.bytes))) [
      | inl long ↦
          absurd
            (ground (arith, probed, long, length-take_long max body.bytes (ground (arith, long))))
      | inr fits ↦
          let whole : read ≡ body.bytes =
            ground (arith, kept, take-all max body.bytes (ground (arith, fits))) in
          let limited : length body.bytes ≤ max = ground (arith, fits) in
          let read_all : (body.read_fails ≡ false) ⊎ (length body.bytes ≡ max) =
            ground (arith, reads, limited) in
          (
            whole,
            limited,
            ground (arith, declared),
            subst (λ b. (body.read_fails ≡ false) ⊎ (length b ≡ max)) (sym whole) read_all,
          )
    ]
