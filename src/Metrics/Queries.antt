-- ===== src/Metrics/Queries.antt =====
-- internal/metrics-engine/metrics-engine.go and `bucketStart` of duckdb-reads.go: what a query must satisfy
-- before the store sees it, and the buckets of a range of time. The store is an argument.
use text.Mathlib.Text.{◌==◌}
use diffractllm.Base.{
  ℕ, suc, ◌*◌, ◌/◌, ◌||◌, String, ℤ, pos, negsuc, sub_ℕ, sub64, add64, ltb_ℤ, leb_ℤ, if◌then◌else◌,
  Result, ok, ◌>>◌, fail_if,
}
use diffractllm.Governance.Budget.{time_sub}
use diffractllm.Metrics.Stages.{quot}

pub data QueryError : Type 0 where
  range_too_short range_too_long bad_page id_required bad_limit : QueryError

pub record QueryConfig : Type 0 where
  pub max_page : ℤ
  pub max_window : ℤ

abbrev pub min_range : ℤ
min_range = pos 3_600_000_000_000

abbrev pub day : ℕ
day = 86_400_000_000_000

abbrev pub minute : ℕ
minute = 60_000_000_000

abbrev pub max_top_limit : ℤ
max_top_limit = pos 50

unfoldable pub check_range : QueryConfig → ℤ → ℤ → Result QueryError (Unit {0})
unfolding time_sub
check_range cfg from to = do
  fail_if (ltb_ℤ (time_sub to from) min_range) range_too_short
  fail_if (ltb_ℤ cfg.max_window (time_sub to from)) range_too_long
  ok tt

unfoldable pub bucket_for : ℤ → ℕ
bucket_for r =
    if leb_ℤ (pos (365 * day)) r
    then 30 * day
    else if leb_ℤ (pos (90 * day)) r
    then 7 * day
    else if leb_ℤ (pos (30 * day)) r
    then 3 * day
    else if leb_ℤ (pos (7 * day)) r
    then day
    else if leb_ℤ (pos (3 * day)) r
    then 480 * minute
    else if leb_ℤ (pos day) r
    then 60 * minute
    else if leb_ℤ (pos (120 * minute)) r
    then 10 * minute
    else minute

-- The store's query, behind its guards.
module _ {A : Type 0} (cfg : QueryConfig) where
  unfoldable pub get_overview_tiles : (ℤ → ℤ → Result QueryError A) → ℤ → ℤ → Result QueryError A
  unfolding check_range
  get_overview_tiles query from to = do check_range cfg from to; query from to

  unfoldable pub get_request_summary_by_time :
      (ℤ → ℤ → ℕ → Result QueryError A) → ℤ → ℤ → Result QueryError A
  unfolding check_range bucket_for
  get_request_summary_by_time query from to = do
    check_range cfg from to
    query from to (bucket_for (time_sub to from))

  unfoldable pub get_request_logs_by_time :
      (ℤ → ℤ → ℤ → ℤ → Result QueryError A) → ℤ → ℤ → ℤ → ℤ → Result QueryError A
  unfolding check_range
  get_request_logs_by_time query from to offset limit = do
    check_range cfg from to
    fail_if (ltb_ℤ offset (pos 0) || ltb_ℤ limit (pos 1) || ltb_ℤ cfg.max_page limit) bad_page
    query from to offset limit

  -- `GetRequestDetailByID` and `GetPayloadByID`
  unfoldable pub get_by_id : (String → Result QueryError A) → String → Result QueryError A
  get_by_id query id = do fail_if (id == "") id_required; query id

  unfoldable pub get_top_virtual_keys :
      (ℤ → ℤ → ℤ → Result QueryError A) → ℤ → ℤ → ℤ → Result QueryError A
  unfolding check_range
  get_top_virtual_keys query from to limit = do
    check_range cfg from to
    fail_if (ltb_ℤ limit (pos 1) || ltb_ℤ max_top_limit limit) bad_limit
    query from to limit

  unfoldable pub get_budget_spend_by_time :
      (String → ℤ → ℤ → ℕ → Result QueryError A) → String → ℤ → ℤ → Result QueryError A
  unfolding check_range bucket_for
  get_budget_spend_by_time query budget_id from to = do
    fail_if (budget_id == "") id_required
    check_range cfg from to
    query budget_id from to (bucket_for (time_sub to from))

-- `Time.UnixMicro`, which rounds down.
abbrev pub unix_micro : ℤ → ℤ
unix_micro (pos n) = pos (n / 1_000)
unix_micro (negsuc n) = negsuc (n / 1_000)

abbrev scale : ℤ → ℕ → ℤ
scale (pos n) k = pos (n * k)
scale (negsuc n) k = sub_ℕ 0 (suc n * k)

-- The start of the first bucket, and how many buckets there are.
unfoldable pub bucket_start : ℤ → ℤ → ℕ → ℤ × ℤ
unfolding time_sub add64 sub64
bucket_start from to bucket =
    let b = bucket / 1_000 in
    let start = scale (scale (quot (unix_micro from) b) b) 1_000 in
    (start, quot (sub64 (add64 (time_sub to start) (pos bucket)) (pos 1)) bucket)

-- `(epoch_us(started_at) - $1) // $2`, which indexes `Points`.
unfoldable pub bucket_index : ℤ → ℕ → ℤ → ℤ
unfolding sub64
bucket_index start bucket at = quot (sub64 (unix_micro at) (unix_micro start)) (bucket / 1_000)
