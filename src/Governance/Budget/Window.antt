-- ===== src/Governance/Budget/Window.antt =====
-- internal/governance/budget.go: when a budget's window rolls, and to what instant.
use native.Mathlib.Nat.{le-div_iff_mul-le, div-mul-le_self, lt-div-mul-add}
use diffractllm.Base.{
  ℕ, ◌+◌, ◌*◌, ◌/◌, ◌≤◌, ◌<◌, ◌≡◌, some, ℤ, pos, ◌≤ℤ◌, ◌<ℤ◌, ◌+ℤ◌, ◌-ℤ◌, pos_part, neg_part,
  max_int64, arith, int_laws,
}
use diffractllm.Governance.Budget.{BudgetConfig, time_sub, budget_reset_target}

-- The target is a whole number of windows after the last refresh, at least one, and starts the window
-- that `now` lies in, where the time elapsed fits a duration.
pub record IsWindowStart (last d now target : ℤ) : Type 0 where
  pub windows : ℕ
  pub some_passed : 0 < windows
  pub whole : target ≡ last +ℤ pos (windows * pos_part d)
  pub started : target ≤ℤ now
  pub not_over : now -ℤ target <ℤ d

quotient_bounds : (e d : ℕ) → 0 < d → d ≤ e → (0 < e / d) × (e / d * d ≤ e) × (e < e / d * d + d)
quotient_bounds e d h le = (
  (le-div_iff_mul-le {k = d} {x = 1} {y = e} h).1 (omega arith),
  div-mul-le_self e d,
  lt-div-mul-add h,
)

time_sub-exact :
    (now last : ℤ)
    → pos_part (now -ℤ last) ≤ max_int64
    → 0 < pos_part (time_sub now last)
    → (pos_part (time_sub now last) ≡ pos_part (now -ℤ last)) × (neg_part (now -ℤ last) ≡ 0)
unfolding time_sub
time_sub-exact now last fits h = (ground arith, ground arith)

-- What a target says of the branch that gave it.
target_branch :
    (cfg : BudgetConfig) (now target : ℤ)
    → budget_reset_target (some cfg) now ≡ some target
    → let elapsed = time_sub now cfg.last_budget_refresh_at in
      let d = pos_part cfg.budget_parse_duration in
      (0 < d)
      × (neg_part cfg.budget_parse_duration ≡ 0)
      × (d ≤ pos_part elapsed)
      × (target ≡ cfg.last_budget_refresh_at +ℤ pos (pos_part elapsed / d * d))
unfolding budget_reset_target
target_branch cfg now target e = (ground arith, ground arith, ground arith, ground arith)

-- A target that is found starts the window that `now` lies in: it is a whole number of windows after the
-- last refresh, at least one, is not after `now`, and less than a window before it. The time elapsed
-- fits a duration.
pub budget_reset_target-IsWindowStart :
    (cfg : BudgetConfig) (now target : ℤ)
    → pos_part (now -ℤ cfg.last_budget_refresh_at) ≤ max_int64
    → budget_reset_target (some cfg) now ≡ some target
    → IsWindowStart cfg.last_budget_refresh_at cfg.budget_parse_duration now target
budget_reset_target-IsWindowStart cfg now target fits e =
    let last = cfg.last_budget_refresh_at in
    let d = pos_part cfg.budget_parse_duration in
    let elapsed = pos_part (time_sub now last) in
    let (d_pos, d_sign, le, eq) = target_branch cfg now target e in
    let (some_passed, low, high) = quotient_bounds elapsed d d_pos le in
    let exact = time_sub-exact now last fits (omega arith) in
    record {
      windows = elapsed / d;
      some_passed = some_passed;
      whole = eq;
      started = rw eq (omega (int_laws, exact));
      not_over = rw eq (omega (int_laws, exact));
    }
