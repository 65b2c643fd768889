-- ===== src/Metrics/Timeline.antt =====
-- internal/metrics-engine/event-pool.go: the stages of a request follow each other without a gap.
use diffractllm.Base.{
  ◌∙◌, eq_of_parts, ◌&&◌, subst, sym, ◌≡◌, refl, ap, Bool, true, false, String, List, [], ◌∷◌, ℤ,
  pos, eqb_ℤ, ltb_ℤ, ◌≤ℤ◌, arith, Bool-cases, inl, inr, if◌then◌else◌,
}
use diffractllm.Metrics.Stages.{Stage, stage_names, stages, stages_from, span, microseconds}

-- Each stage starts where the one before it ended.
abbrev pub IsChain : ℤ → List Stage → Type 0
IsChain us [] = Unit {0}
IsChain us (stage ∷ rest) = (stage.start_us ≡ us) × IsChain stage.end_us rest

abbrev pub last_end : ℤ → List Stage → ℤ
last_end us [] = us
last_end us (stage ∷ rest) = last_end stage.end_us rest

-- The last mark that was set, after `prev`.
abbrev pub last_mark : List String → List ℤ → ℤ → ℤ
last_mark (name ∷ names) (end ∷ marks) prev =
    let rest = last_mark names marks end in
    let skipped = last_mark names marks prev in if eqb_ℤ end (pos 0) then skipped else rest
last_mark names marks prev = prev

abbrev pub is_marked : List String → List ℤ → Bool → Bool
is_marked (name ∷ names) (end ∷ marks) any =
    let rest = is_marked names marks any in if eqb_ℤ end (pos 0) then rest else true
is_marked names marks any = any

last_mark-unset :
    (name : String) (names : List String) (end : ℤ) (marks : List ℤ) (prev : ℤ)
    → eqb_ℤ end (pos 0) ≡ true
    → last_mark (name ∷ names) (end ∷ marks) prev ≡ last_mark names marks prev
last_mark-unset name names end marks prev unset = rw unset refl

last_mark-marked :
    (name : String) (names : List String) (end : ℤ) (marks : List ℤ) (prev : ℤ)
    → eqb_ℤ end (pos 0) ≡ false
    → last_mark (name ∷ names) (end ∷ marks) prev ≡ last_mark names marks end
last_mark-marked name names end marks prev marked = rw marked refl

is_marked-unset :
    (name : String) (names : List String) (end : ℤ) (marks : List ℤ)
    → eqb_ℤ end (pos 0) ≡ true
    → is_marked (name ∷ names) (end ∷ marks) false ≡ is_marked names marks false
is_marked-unset name names end marks unset = rw unset refl

response-IsChain :
    (any : Bool) (prev total : ℤ)
    → IsChain
        (microseconds prev)
        (if any && ltb_ℤ prev total then span "response" prev total ∷ [] else [])
unfolding span
response-IsChain any prev total = elim (Bool-cases (any && ltb_ℤ prev total)) [
  | inl last ↦ rw last (refl, tt)
  | inr done ↦ rw done tt
]

stages_from-IsChain :
    (names : List String) (marks : List ℤ) (prev total : ℤ) (any : Bool)
    → IsChain (microseconds prev) (stages_from names marks prev total any)
unfolding stages_from span
stages_from-IsChain [] marks prev total any = response-IsChain any prev total
stages_from-IsChain (name ∷ names) [] prev total any = response-IsChain any prev total
stages_from-IsChain (name ∷ names) (end ∷ marks) prev total any =
    elim (Bool-cases (eqb_ℤ end (pos 0))) [
      | inl unset ↦ rw unset (stages_from-IsChain names marks prev total any)
      | inr marked ↦ rw marked (refl, stages_from-IsChain names marks end total true)
    ]

response-last_end :
    (prev total : ℤ)
    → prev ≤ℤ total
    → last_end
        (microseconds prev)
        (if true && ltb_ℤ prev total then span "response" prev total ∷ [] else [])
      ≡ microseconds total
unfolding span
response-last_end prev total le = elim (Bool-cases (ltb_ℤ prev total)) [
  | inl last ↦ rw last refl
  | inr done ↦ rw done (ap microseconds (eq_of_parts prev total (ground arith)))
]

stages_from-last_end :
    (names : List String) (marks : List ℤ) (prev total : ℤ)
    → last_mark names marks prev ≤ℤ total
    → last_end (microseconds prev) (stages_from names marks prev total true) ≡ microseconds total
unfolding stages_from span
stages_from-last_end [] marks prev total le = response-last_end prev total le
stages_from-last_end (name ∷ names) [] prev total le = response-last_end prev total le
stages_from-last_end (name ∷ names) (end ∷ marks) prev total le =
    elim (Bool-cases (eqb_ℤ end (pos 0))) [
      | inl unset ↦ rw unset (
          stages_from-last_end names marks prev total
            (subst (λ m. m ≤ℤ total) (last_mark-unset name names end marks prev unset) le))
      | inr marked ↦ rw marked (
          stages_from-last_end names marks end total
            (subst (λ m. m ≤ℤ total) (last_mark-marked name names end marks prev marked) le))
    ]

stages_from-covers :
    (names : List String) (marks : List ℤ) (prev total : ℤ)
    → is_marked names marks false ≡ true
    → last_mark names marks prev ≤ℤ total
    → last_end (microseconds prev) (stages_from names marks prev total false) ≡ microseconds total
unfolding stages_from span
stages_from-covers [] marks prev total any le = ground arith
stages_from-covers (name ∷ names) [] prev total any le = ground arith
stages_from-covers (name ∷ names) (end ∷ marks) prev total any le =
    elim (Bool-cases (eqb_ℤ end (pos 0))) [
      | inl unset ↦ rw unset (
          stages_from-covers names marks prev total
            (sym (is_marked-unset name names end marks unset) ∙ any)
            (subst (λ m. m ≤ℤ total) (last_mark-unset name names end marks prev unset) le))
      | inr marked ↦ rw marked (
          stages_from-last_end names marks end total
            (subst (λ m. m ≤ℤ total) (last_mark-marked name names end marks prev marked) le))
    ]

-- The stages of a request start at 0, follow each other without a gap, and end with the total time, where a mark is
-- set and the last one does not lie behind the total time.
pub stages-IsChain :
    (marks : List ℤ) (total : ℤ)
    → is_marked stage_names marks false ≡ true
    → last_mark stage_names marks (pos 0) ≤ℤ total
    → IsChain (pos 0) (stages marks total)
      × (last_end (pos 0) (stages marks total) ≡ microseconds total)
unfolding stages
stages-IsChain marks total marked le = (
  stages_from-IsChain stage_names marks (pos 0) total false,
  stages_from-covers stage_names marks (pos 0) total marked le,
)
