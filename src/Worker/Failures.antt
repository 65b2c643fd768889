-- ===== src/Worker/Failures.antt =====
-- internal/worker/worker.go: what the statistics of a job say of its runs.
use diffractllm.Base.{
  Option-cases, not, ℕ, ◌≡◌, refl, Bool, true, false, ◌++◌, String, some, List, [], ◌∷◌, ℤ, pos,
  add64, wrap64, inl, inr, ◌<◌, ◌+◌, suc, subst, sym, is_set, All, length, arith,
}
use diffractllm.Worker.{Job, Execution, recovered, exec, exec_all, mark_done, mark_running}

increment : (k : ℕ) → k < 9223372036854775807 → add64 (pos k) (pos 1) ≡ pos (suc k)
unfolding add64 wrap64
increment k h = ground arith

module _ {D : Type 0} (panic_text : String → String) where
  -- A run that returned no error and did not panic.
  abbrev pub succeeds : Execution D → Bool
  succeeds x = not (is_set (recovered panic_text x.outcome).1)

  exec_all-++ :
      (xs ys : List (Execution D)) (j : Job D)
      → exec_all panic_text (xs ++ ys) j ≡ exec_all panic_text ys (exec_all panic_text xs j)
  unfolding exec_all
  exec_all-++ [] ys j = refl
  exec_all-++ (x ∷ xs) ys j = exec_all-++ xs ys (exec panic_text x j).0

  -- The statistics after a success at `start` and `k` failures since.
  abbrev HasStreak : ℤ → ℕ → Job D → Type 0
  HasStreak start k j =
      (j.stats.consecutive_failures ≡ pos k)
      × ((j.stats.last_success_at ≡ some start) × (j.stats.running ≡ false))

  exec-success :
      (x : Execution D) (j : Job D)
      → succeeds x ≡ true
      → HasStreak x.start 0 (exec panic_text x j).0
  unfolding exec mark_done
  exec-success x j h = elim (Option-cases (recovered panic_text x.outcome).1) [
    | inl fine ↦ rw fine (refl, (refl, refl))
    | inr (e, bad) ↦ absurd (ground arith)
  ]

  exec-failure :
      (x : Execution D) (j : Job D) (start : ℤ) (k : ℕ)
      → succeeds x ≡ false
      → k < 9223372036854775807
      → HasStreak start k j
      → HasStreak start (suc k) (exec panic_text x j).0
  unfolding exec mark_done mark_running
  exec-failure x j start k h small (failures, (success, idle)) =
      elim (Option-cases (recovered panic_text x.outcome).1) [
        | inl fine ↦ absurd (ground arith)
        | inr (e, bad) ↦ rw (bad, failures) (increment k small, (success, refl))
      ]

  exec_all-failures :
      (xs : List (Execution D)) (j : Job D) (start : ℤ) (k : ℕ)
      → All (λ x. succeeds x ≡ false) xs
      → k + length xs < 9223372036854775808
      → HasStreak start k j
      → HasStreak start (k + length xs) (exec_all panic_text xs j)
  unfolding exec_all
  exec_all-failures [] j start k failing small h = subst (λ n. HasStreak start n j) (omega arith) h
  exec_all-failures (x ∷ xs) j start k (fails, failing) small h =
      subst (λ n. HasStreak start n (exec_all panic_text xs (exec panic_text x j).0)) (omega arith)
        (exec_all-failures xs (exec panic_text x j).0 start (suc k) failing (omega arith)
          (exec-failure x j start k fails (omega arith) h))

  -- Whatever a job has run before: after a run that succeeds and fewer than 2 ^ 63 runs that fail, by an
  -- error or a panic, its statistics count these failures, name the start of the run that succeeded and
  -- do not show the job as running.
  pub exec_all-HasStreak :
      (before fails : List (Execution D)) (x : Execution D) (j : Job D)
      → succeeds x ≡ true
      → All (λ y. succeeds y ≡ false) fails
      → length fails < 9223372036854775808
      → HasStreak x.start (length fails) (exec_all panic_text (before ++ x ∷ fails) j)
  unfolding exec_all exec
  exec_all-HasStreak before fails x j good bad small =
      let j' = (exec panic_text x (exec_all panic_text before j)).0 in
      let counted =
        exec_all-failures fails j' x.start 0 bad (omega arith)
          (exec-success x (exec_all panic_text before j) good) in
      subst (HasStreak x.start (length fails)) (sym (exec_all-++ before (x ∷ fails) j))
        (subst (λ n. HasStreak x.start n (exec_all panic_text fails j')) (omega arith) counted)
