-- ===== src/Dataplane/Selection/RoundRobin.antt =====
-- internal/dataplane/dataplane.go: the round robin of one key.
use native.Mathlib.Nat.{add-mul-mod_self_left, mod-lt, mod-eq_of_lt, mod-add-div}
use diffractllm.Base.{
  ◌*◌, ◌/◌, Bool-cases, leb, ℕ, zero, suc, ◌+◌, ◌-◌, ◌%◌, ◌^◌, ◌<◌, ◌≤◌, ◌≡◌, refl, ap, ◌∙◌, Option,
  some, List, [], ◌∷◌, get_elem?, length, or_default, lookup, lookup-insert, beq_refl, arith, inl,
  inr,
}
use diffractllm.Core.Models.{CatalogKey}
use diffractllm.Core.Credential.{Credential}
use diffractllm.Dataplane.Selection.{Cursors, catalog_key_eq, pick}

-- The value of the cursor of a key.
abbrev pub cursor : CatalogKey → Cursors → ℕ
cursor key cursors = or_default (lookup key cursors) 0

-- A number of picks for one key, one after another, and the last cursors.
abbrev pub picks : ℕ → CatalogKey → List Credential → Cursors → List (Option Credential)
picks zero key creds cursors = []
picks (suc n) key creds cursors =
    (pick key creds cursors).0 ∷ picks n key creds (pick key creds cursors).1

cursor-pick :
    (key : CatalogKey) (creds : List Credential) (cursors : Cursors)
    → 2 ≤ length creds
    → cursor key (pick key creds cursors).1 ≡ (cursor key cursors + 1) % 2 ^ 64
unfolding pick
cursor-pick key [] cursors h = absurd (omega arith)
cursor-pick key (c ∷ []) cursors h = absurd (omega arith)
cursor-pick key (c ∷ d ∷ creds) cursors h =
    let temp = (cursor key cursors + 1) % 2 ^ 64 in
    ground (arith, lookup-insert key key temp cursors, beq_refl key)

pick-get_elem? :
    (key : CatalogKey) (creds : List Credential) (cursors : Cursors)
    → 2 ≤ length creds
    → (pick key creds cursors).0
      ≡ get_elem? creds ((cursor key cursors + 1) % 2 ^ 64 % length creds)
unfolding pick
pick-get_elem? key [] cursors h = absurd (omega arith)
pick-get_elem? key (c ∷ []) cursors h = absurd (omega arith)
pick-get_elem? key (c ∷ d ∷ creds) cursors h = refl

-- Where a cursor does not overflow, the picks go round the list.
picks-get_elem? :
    (n j : ℕ) (key : CatalogKey) (creds : List Credential) (cursors : Cursors)
    → 2 ≤ length creds
    → j < n
    → cursor key cursors + n < 2 ^ 64
    → get_elem? (picks n key creds cursors) j
      ≡ some (get_elem? creds ((cursor key cursors + suc j) % length creds))
picks-get_elem? zero j key creds cursors two lt fits = absurd (omega arith)
picks-get_elem? (suc n) zero key creds cursors two lt fits =
    ap some (pick-get_elem? key creds cursors two)
    ∙ ap (λ k. some (get_elem? creds (k % length creds)))
        (mod-eq_of_lt {n = cursor key cursors + 1} {m = 2 ^ 64} (omega arith))
picks-get_elem? (suc n) (suc j) key creds cursors two lt fits =
    let moved : cursor key (pick key creds cursors).1 ≡ cursor key cursors + 1 =
      cursor-pick key creds cursors two
      ∙ mod-eq_of_lt {n = cursor key cursors + 1} {m = 2 ^ 64} (omega arith) in
    picks-get_elem? n j key creds (pick key creds cursors).1 two (omega arith)
      (omega (arith, moved))
    ∙ ap (λ k. some (get_elem? creds (k % length creds))) (omega (arith, moved))

mod-turn : (n i q m : ℕ) → i < n → m ≡ i + n * q → m % n ≡ i
mod-turn n i q m lt e =
    ap (λ k. k % n) e ∙ add-mul-mod_self_left i n q ∙ mod-eq_of_lt {n = i} {m = n} lt

mod-turn_over : (n i q m : ℕ) → i < n → m ≡ i + n * 1 + n * q → m % n ≡ i
mod-turn_over n i q m lt e =
    ap (λ k. k % n) e ∙ add-mul-mod_self_left (i + n * 1) n q ∙ mod-turn n i 1 (i + n * 1) lt refl

-- The pick that has the index `i`.
turn : (c n i : ℕ) → 0 < n → i < n → (j : ℕ) × (j < n) × ((c + suc j) % n ≡ i)
turn c n i pos lt =
    let r = (c + 1) % n in
    let q = (c + 1) / n in
    let parts = mod-add-div (c + 1) n in
    let small = mod-lt (c + 1) {m = n} pos in
    elim (Bool-cases (leb r i)) [
      | inl le ↦
          let r_le : r ≤ i = ground arith in
          (i - r, omega arith, mod-turn n i q (c + suc (i - r)) lt (omega (arith, parts)))
      | inr gt ↦
          let lt_r : i < r = ground arith in
          (
            i + n - r,
            omega (arith, small),
            mod-turn_over n i q (c + suc (i + n - r)) lt (omega (arith, parts, small)),
          )
    ]

-- In as many consecutive picks as there are credentials, each credential is picked: where there are at
-- least two and the cursor of the key, a uint64, does not overflow meanwhile.
pub picks-all :
    (key : CatalogKey) (creds : List Credential) (cursors : Cursors) (i : ℕ)
    → 2 ≤ length creds
    → i < length creds
    → cursor key cursors + length creds < 2 ^ 64
    → (j : ℕ) × (j < length creds)
      × (get_elem? (picks (length creds) key creds cursors) j ≡ some (get_elem? creds i))
picks-all key creds cursors i two lt fits =
    let (j, early, same) = turn (cursor key cursors) (length creds) i (omega arith) lt in
    (
      j,
      early,
      picks-get_elem? (length creds) j key creds cursors two early fits
          ∙ ap (λ k. some (get_elem? creds k)) same,
    )
