-- ===== src/Dataplane/Transport/Body.antt =====
-- internal/dataplane/transport.go: the bound on the bytes of an answer.
use diffractllm.Base.{
  ℕ, suc, ◌+◌, ◌≤◌, ◌<◌, ◌≡◌, ◌≢◌, Option, some, List, [], ◌∷◌, pos, pos_part, max_int64, arith,
  if◌then◌else◌, leb, ltb, Bool-cases, inl, inr,
}
use diffractllm.Dataplane.Transport.{ReadError, response_too_large, read, new_limited_body}

-- Reads into buffers of the given sizes, one after another: the bytes handed on in all, and what may
-- still be read. The inner body is asked once for each, `i` times before the first.
abbrev pub reads : (ℕ → ℕ → ℕ × Option ReadError) → List ℕ → ℕ → ℕ → ℕ × ℕ
reads inner [] i remaining = (0, remaining)
reads inner (want ∷ wants) i remaining =
    let (r, left) = read (inner i) want remaining in
    let (total, last) = reads inner wants (suc i) left in (r.0 + total, last)

-- A reader hands on no more than it was given room for.
abbrev pub IsReader : (ℕ → ℕ × Option ReadError) → Type 0
IsReader inner = (size : ℕ) → (inner size).0 ≤ size

abbrev size_of : ℕ → ℕ → ℕ
size_of want remaining = if ltb remaining want then remaining else want

size_of-le : (want remaining : ℕ) → size_of want remaining ≤ remaining
size_of-le want remaining = ground arith

read-left :
    (inner : ℕ → ℕ × Option ReadError) (want remaining : ℕ)
    → IsReader inner
    → let (r, left) = read inner want remaining in r.0 + left ≡ remaining
unfolding read
read-left inner want remaining h = elim (Bool-cases (leb remaining 0)) [
  | inl empty ↦ rw empty (omega arith)
  | inr room ↦ rw room (omega (arith, h (size_of want remaining), size_of-le want remaining))
]

read-ok :
    (inner : ℕ → ℕ × Option ReadError) (want remaining : ℕ)
    → (read inner want remaining).0.1 ≢ some response_too_large
    → 1 ≤ (read inner want remaining).1
unfolding read
read-ok inner want remaining h = ground arith

reads-left :
    (inner : ℕ → ℕ → ℕ × Option ReadError) (wants : List ℕ) (i remaining : ℕ)
    → ((j : ℕ) → IsReader (inner j))
    → let (total, last) = reads inner wants i remaining in total + last ≡ remaining
reads-left inner [] i remaining h = omega arith
reads-left inner (want ∷ wants) i remaining h =
    let left = (read (inner i) want remaining).1 in
    omega (arith, read-left (inner i) want remaining (h i), reads-left inner wants (suc i) left h)

start_lem : (limit : ℕ) → limit < max_int64 → pos_part (new_limited_body (pos limit)) ≡ limit + 1
unfolding new_limited_body
start_lem limit small = ground arith

-- However an answer is read, a body limited to `limit` bytes hands on at most one byte more, and at most
-- `limit` bytes where the last read did not report that the answer is too large.
pub reads-limit :
    (inner : ℕ → ℕ → ℕ × Option ReadError) (wants : List ℕ) (limit want j : ℕ)
    → ((k : ℕ) → IsReader (inner k))
    → limit < max_int64
    → let (total, last) = reads inner wants 0 (pos_part (new_limited_body (pos limit))) in
      let (r, left) = read (inner j) want last in
      (total + r.0 ≤ limit + 1) × (r.1 ≢ some response_too_large → total + r.0 ≤ limit)
reads-limit inner wants limit want j h small =
    let start : pos_part (new_limited_body (pos limit)) ≡ limit + 1 = start_lem limit small in
    let room = pos_part (new_limited_body (pos limit)) in
    let rest = (reads inner wants 0 room).1 in
    let before = reads-left inner wants 0 room h in
    let now = read-left (inner j) want rest (h j) in
    (
      omega (arith, start, before, now),
      λ fine. omega (arith, start, before, now, read-ok (inner j) want rest fine),
    )
