-- ===== src/Metrics/Stages.antt =====
-- internal/metrics-engine/event-pool.go: the stages of a request, from the marks that its handler set.
use diffractllm.Base.{
  ℕ, suc, ◌/◌, String, Bool, true, false, List, [], ◌∷◌, ℤ, pos, negsuc, sub_ℕ, sub64, eqb_ℤ, ltb_ℤ,
  if◌then◌else◌, ◌&&◌,
}

-- `x / d` of Go, which rounds toward zero.
abbrev pub quot : ℤ → ℕ → ℤ
quot (pos n) d = pos (n / d)
quot (negsuc n) d = sub_ℕ 0 (suc n / d)

-- `Duration.Microseconds`
abbrev pub microseconds : ℤ → ℤ
microseconds d = quot d 1_000

pub record Stage : Type 0 where
  pub name : String
  pub start_us : ℤ
  pub end_us : ℤ
  pub duration_us : ℤ

abbrev pub stage_names : List String
stage_names =
    "auth" ∷ "read_body" ∷ "parse" ∷ "admission" ∷ "routing" ∷ "upstream" ∷ "first_token" ∷ []

unfoldable pub span : String → ℤ → ℤ → Stage
unfolding sub64
span name start end = record {
  name = name;
  start_us = microseconds start;
  end_us = microseconds end;
  duration_us = microseconds (sub64 end start);
}

-- The loop over the marks, with the end of the stage before; what is left of the response comes last.
unfoldable pub stages_from : List String → List ℤ → ℤ → ℤ → Bool → List Stage
unfolding span
stages_from (name ∷ names) (end ∷ marks) prev total any =
    let skipped = stages_from names marks prev total any in
    let rest = stages_from names marks end total true in
    if eqb_ℤ end (pos 0) then skipped else span name prev end ∷ rest
stages_from names marks prev total any =
    if any && ltb_ℤ prev total then span "response" prev total ∷ [] else []

unfoldable pub stages : List ℤ → ℤ → List Stage
unfolding stages_from
stages marks total = stages_from stage_names marks (pos 0) total false
