-- ===== src/Tests/Jobs.antt =====
-- A job that runs, succeeds, panics and fails.
use diffractllm.Base.{
  ◌≡◌, refl, String, ℕ, true, false, [], ◌∷◌, pos, List, none, some, ◌++◌, arith,
}
use diffractllm.Worker.{Job, Execution, returned, panicked, exec_all, add_to_group, duplicate_job}
use diffractllm.Worker.Failures.{exec_all-HasStreak}

abbrev job : Job ℕ
job = record {
  name = "flush";
  interval = pos 60;
  has_run = true;
  stats = record {
    name = "";
    interval = pos 0;
    running = false;
    last_run_at = none;
    last_success_at = none;
    last_duration = pos 0;
    last_error = "";
    consecutive_failures = pos 0;
    last_detail = none;
  };
}

abbrev panic_text : String → String
panic_text p = "panic"

abbrev fails : List (Execution ℕ)
fails =
    (record { start = pos 120; took = pos 1; outcome = panicked "nil map" })
    ∷ (record { start = pos 180; took = pos 1; outcome = returned none (some "locked") })
    ∷ []

abbrev succeeds_at : Execution ℕ
succeeds_at = record { start = pos 60; took = pos 2; outcome = returned (some 3) none }

twice : (add_to_group false (some job ∷ some job ∷ []) []).1 ≡ some (duplicate_job "flush")
unfolding add_to_group
twice = refl

exec_all-HasStreak_example :
    ((exec_all panic_text (fails ++ succeeds_at ∷ fails) job).stats.consecutive_failures ≡ pos 2)
    × (((exec_all panic_text (fails ++ succeeds_at ∷ fails) job).stats.last_success_at
          ≡ some (pos 60))
        × ((exec_all panic_text (fails ++ succeeds_at ∷ fails) job).stats.running ≡ false))
exec_all-HasStreak_example =
    exec_all-HasStreak panic_text fails fails succeeds_at job refl (refl, (refl, tt)) (omega arith)
