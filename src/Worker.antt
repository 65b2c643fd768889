-- ===== src/Worker.antt =====
-- internal/worker/worker.go: the statistics of a job over its runs, and the jobs of a group. A run is
-- what the clock and `Run` give: when it starts, how long it takes, and whether it returns or panics.
-- The goroutines, tickers and channels that start the runs are left out; `D` is the detail of a run.
pub mod Failures
use text.Mathlib.Text.{◌==◌}
use diffractllm.Base.{
  Bool, true, false, not, ◌++◌, String, Option, none, some, List, [], ◌∷◌, ℤ, pos, ltb_ℤ, add64,
  is_set, if◌then◌else◌, Map, lookup, insert, string_eq,
}

pub record JobStats (D : Type 0) : Type 0 where
  pub name : String
  pub interval : ℤ
  pub running : Bool
  pub last_run_at : Option ℤ
  pub last_success_at : Option ℤ
  pub last_duration : ℤ
  pub last_error : String
  pub consecutive_failures : ℤ
  pub last_detail : Option D

-- `Run` that returns a detail and an error, or panics with a value, here its text.
pub data RunOutcome (D : Type 0) : Type 0 where
  returned : Option D → Option String → RunOutcome D
  panicked : String → RunOutcome D

pub record Job (D : Type 0) : Type 0 where
  pub name : String
  pub interval : ℤ
  pub has_run : Bool
  pub stats : JobStats D

pub data JobError : Type 0 where
  nil_job needs_a_name : JobError
  no_run : String → JobError
  needs_a_positive_interval : String → JobError
  add_after_start : JobError
  duplicate_job : String → JobError

pub record Execution (D : Type 0) : Type 0 where
  pub start : ℤ
  pub took : ℤ
  pub outcome : RunOutcome D

module _ {D : Type 0} where
  unfoldable pub mark_running : ℤ → Job D → Job D
  mark_running start j = record j {
    stats = record j.stats {
      name = j.name;
      interval = j.interval;
      running = true;
      last_run_at = some start;
    };
  }

  unfoldable pub mark_done : ℤ → Option D → Option String → ℤ → Job D → Job D
  mark_done start detail none took j = record j {
    stats = record j.stats {
      running = false;
      last_duration = took;
      last_detail = detail;
      last_success_at = some start;
      last_error = "";
      consecutive_failures = pos 0;
    };
  }
  mark_done start detail (some message) took j = record j {
    stats = record j.stats {
      running = false;
      last_duration = took;
      last_detail = detail;
      last_error = message;
      consecutive_failures = add64 j.stats.consecutive_failures (pos 1);
    };
  }

  -- The detail and the error after the deferred `recover`, whose message starts with "panic: ".
  abbrev pub recovered : (String → String) → RunOutcome D → Option D × Option String
  recovered panic_text (returned detail e) = (detail, e)
  recovered panic_text (panicked p) = (none, some (panic_text p))

  unfoldable pub exec : (String → String) → Execution D → Job D → Job D × Option String
  unfolding mark_running mark_done
  exec panic_text x j =
      let (detail, e) = recovered panic_text x.outcome in
      (mark_done x.start detail e x.took (mark_running x.start j), e)

  -- The runs that the loop of the job makes, in their order.
  unfoldable pub exec_all : (String → String) → List (Execution D) → Job D → Job D
  unfolding exec
  exec_all panic_text [] j = j
  exec_all panic_text (x ∷ xs) j = exec_all panic_text xs (exec panic_text x j).0

  unfoldable pub validate_job : Option (Job D) → Option JobError
  validate_job none = some nil_job
  validate_job (some j) =
      if j.name == ""
      then some needs_a_name
      else if not j.has_run
      then some (no_run j.name)
      else if not (ltb_ℤ (pos 0) j.interval)
      then some (needs_a_positive_interval j.name)
      else none

  -- `Group.Add` of one job that is valid; the trigger of the job is left out.
  unfoldable pub add_job : Job D → Map String (Job D) → Map String (Job D) × Option JobError
  unfolding lookup insert
  add_job j jobs = if is_set (lookup j.name jobs) then (jobs, some (duplicate_job j.name)) else (
    insert j.name (record j { stats = record j.stats { name = j.name; interval = j.interval } })
        jobs,
    none,
  )

  unfoldable pub add_jobs :
      List (Option (Job D)) → Map String (Job D) → Map String (Job D) × Option JobError
  unfolding validate_job add_job
  add_jobs [] jobs = (jobs, none)
  add_jobs (none ∷ rest) jobs = (jobs, some nil_job)
  add_jobs (some j ∷ rest) jobs = elim (validate_job (some j)) [
    | some e ↦ (jobs, some e)
    | none ↦
        let (jobs', e) = add_job j jobs in
        let later = add_jobs rest jobs' in elim e [ some e' ↦ (jobs', some e') | none ↦ later ]
  ]

  -- `Group.Add`
  unfoldable pub add_to_group :
      Bool → List (Option (Job D)) → Map String (Job D) → Map String (Job D) × Option JobError
  unfolding add_jobs
  add_to_group started new jobs =
      if started then (jobs, some add_after_start) else add_jobs new jobs
