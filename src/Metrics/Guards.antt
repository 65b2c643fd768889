-- ===== src/Metrics/Guards.antt =====
-- internal/metrics-engine/metrics-engine.go: which queries the store sees.
use text.Mathlib.Text.{◌==◌}
use diffractllm.Base.{
  negsuc, fail_if-eq-ok, ◌>>=◌, ℕ, ◌*◌, ◌/◌, ◌<◌, ◌≡◌, false, ◌||◌, String, ℤ, pos, pos_part, ◌≤ℤ◌,
  ◌<ℤ◌, ltb_ℤ, arith, Bool-cases, inl, inr, Result, ok, >>=-eq-ok,
}
use diffractllm.Governance.Budget.{time_sub}
use diffractllm.Metrics.Buckets.{bucket_for-few}
use diffractllm.Metrics.Queries.{
  bad_page, id_required, QueryError, QueryConfig, min_range, day, check_range, bucket_for,
  get_request_logs_by_time, get_budget_spend_by_time,
}

-- A range that passes: from an hour to the widest window.
abbrev pub IsRange : QueryConfig → ℤ → ℤ → Type 0
IsRange cfg from to = (min_range ≤ℤ time_sub to from) × (time_sub to from ≤ℤ cfg.max_window)

check_range-IsRange :
    (cfg : QueryConfig) (from to : ℤ) (u : Unit {0})
    → check_range cfg from to ≡ ok u
    → IsRange cfg from to
unfolding check_range
check_range-IsRange cfg from to u h = elim (Bool-cases (ltb_ℤ (time_sub to from) min_range)) [
  | inl short ↦ absurd (ground (arith, h, short))
  | inr enough ↦ elim (Bool-cases (ltb_ℤ cfg.max_window (time_sub to from))) [
    | inl long ↦ absurd (ground (arith, h, enough, long))
    | inr fits ↦ (ground (arith, enough), ground (arith, fits))
  ]
]

few_buckets :
    (d window : ℤ)
    → min_range ≤ℤ d
    → d ≤ℤ window
    → window <ℤ pos (4_320 * day)
    → pos_part d / bucket_for d < 144
few_buckets (pos n) window hour fits narrow = bucket_for-few n (omega arith)
few_buckets (negsuc n) window hour fits narrow = absurd (omega arith)

-- What an answered query shows, where each query is put to the store as it came.
module _ {A : Type 0} (cfg : QueryConfig) (from to : ℤ) (a : A) where
  check_range-eq-ok :
      {r : Result QueryError A}
      → (check_range cfg from to >>= λ u. r) ≡ ok a
      → IsRange cfg from to × (r ≡ ok a)
  check_range-eq-ok {r} h =
      let (u, range, rest) = >>=-eq-ok (check_range cfg from to) (λ u. r) h in
      (check_range-IsRange cfg from to u range, rest)

  -- A page of request logs that is answered was asked of the store within its limits: a range of an hour up
  -- to the widest window, no negative offset, and from 1 up to the largest page.
  pub get_request_logs_by_time-guarded :
      (query : ℤ → ℤ → ℤ → ℤ → Result QueryError A) (offset limit : ℤ)
      → get_request_logs_by_time cfg query from to offset limit ≡ ok a
      → IsRange cfg from to
        × (pos 0 ≤ℤ offset)
        × (pos 1 ≤ℤ limit)
        × (limit ≤ℤ cfg.max_page)
        × (query from to offset limit ≡ ok a)
  unfolding get_request_logs_by_time
  get_request_logs_by_time-guarded query offset limit h =
      let (range, rest) = check_range-eq-ok h in
      let (page, asked) =
        fail_if-eq-ok (ltb_ℤ offset (pos 0) || ltb_ℤ limit (pos 1) || ltb_ℤ cfg.max_page limit)
          bad_page _ rest in
      (range, ground (arith, page), ground (arith, page), ground (arith, page), asked)

  -- The spend of a budget that is answered was asked for a budget that is named, over a range of an hour up to the
  -- widest window; where that window is below twelve years, the range has less than 144 whole buckets.
  pub get_budget_spend_by_time-guarded :
      (query : String → ℤ → ℤ → ℕ → Result QueryError A) (budget_id : String)
      → get_budget_spend_by_time cfg query budget_id from to ≡ ok a
      → ((budget_id == "") ≡ false)
        × IsRange cfg from to
        × (query budget_id from to (bucket_for (time_sub to from)) ≡ ok a)
        × (cfg.max_window <ℤ pos (4_320 * day)
            → pos_part (time_sub to from) / bucket_for (time_sub to from) < 144)
  unfolding get_budget_spend_by_time
  get_budget_spend_by_time-guarded query budget_id h =
      let (named, rest) = fail_if-eq-ok (budget_id == "") id_required _ h in
      let (range, asked) = check_range-eq-ok rest in
      (
        named,
        range,
        asked,
        λ narrow. few_buckets (time_sub to from) cfg.max_window range.0 range.1 narrow,
      )
