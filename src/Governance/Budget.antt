-- ===== src/Governance/Budget.antt =====
-- internal/governance/budget.go and internal/core/budget.go. Instants and durations are nanoseconds;
-- an instant is an unbounded integer, and `Sub` saturates as `time.Time.Sub` does.
pub mod Window
pub mod Cache
use diffractllm.Base.{
  ℕ, ◌/◌, ◌*◌, Bool, true, false, Option, none, some, String, List, [], ◌∷◌, ℤ, pos, ltb_ℤ, leb_ℤ,
  eqb_ℤ, ◌+◌, ◌==?◌, ◌||◌, pos_part, neg_part, ◌-ℤ◌, ◌+ℤ◌, add64, max_int64, negsuc, ltb,
  if◌then◌else◌, Map, lookup, insert, delete, string_eq,
}

pub record BudgetConfig : Type 0 where
  pub id : String
  pub name : String
  pub budget_limit : ℤ
  pub budget_unit : String
  pub budget_duration : String
  pub last_budget_refresh_at : ℤ
  pub enforce : Option Bool
  pub total_spend : ℤ
  pub request_count : ℤ
  pub status : String
  pub created_at : ℤ
  pub updated_at : ℤ
  pub budget_parse_duration : ℤ

pub record Budget : Type 0 where
  pub config : Option BudgetConfig
  pub window_cost : ℤ
  pub window_reqs : ℤ
  pub last_flushed : ℤ
  pub last_reqs : ℤ

-- `bc.Enforce != nil && !*bc.Enforce`
abbrev pub enforcement_off : Option Bool → Bool
enforcement_off (some false) = true
enforcement_off _ = false

unfoldable pub check_budget_usage : Budget → Bool
check_budget_usage b = elim b.config [
  | none ↦ true
  | some bc ↦
      if eqb_ℤ bc.budget_limit (pos 0)
      then true
      else if enforcement_off bc.enforce
      then true
      else ltb_ℤ b.window_cost bc.budget_limit
]

-- `t.Sub(u)`
unfoldable pub time_sub : ℤ → ℤ → ℤ
unfolding ◌-ℤ◌
time_sub t u =
    let exact = t -ℤ u in
    if ltb max_int64 (pos_part exact)
    then pos max_int64
    else if ltb (max_int64 + 1) (neg_part exact)
    then negsuc max_int64
    else exact

-- `time.Since` reads the clock: it is the argument `now`.
unfoldable pub check_budget_window : ℤ → Budget → Bool
unfolding time_sub
check_budget_window now b = elim b.config [
  | none ↦ false
  | some bc ↦
      if leb_ℤ bc.budget_parse_duration (pos 0)
      then false
      else leb_ℤ bc.budget_parse_duration (time_sub now bc.last_budget_refresh_at)
]

unfoldable pub record_usage : ℤ → Budget → Budget
unfolding add64
record_usage spend b = record b {
  window_cost = add64 b.window_cost spend;
  window_reqs = add64 b.window_reqs (pos 1);
}

-- The start of the window that `now` lies in, once the window of the configuration is over. Both
-- operands of the division are positive there.
unfoldable pub reset_target : BudgetConfig → ℤ → Option ℤ
unfolding time_sub ◌+ℤ◌
reset_target cfg now =
    let elapsed = time_sub now cfg.last_budget_refresh_at in
    if leb_ℤ cfg.budget_parse_duration (pos 0)
    then none
    else if ltb_ℤ elapsed cfg.budget_parse_duration
    then none
    else let windows = pos_part elapsed / pos_part cfg.budget_parse_duration in
      some (cfg.last_budget_refresh_at +ℤ pos (windows * pos_part cfg.budget_parse_duration))

unfoldable pub budget_reset_target : Option BudgetConfig → ℤ → Option ℤ
unfolding reset_target
budget_reset_target none now = none
budget_reset_target (some cfg) now = reset_target cfg now

abbrev pub BudgetCache : Type 0
BudgetCache = Map String Budget

unfoldable pub lookup_budget : BudgetCache → String → Option Budget
unfolding lookup
lookup_budget bc budget_id = lookup budget_id bc

-- `LoadOrStore` of a seeded entry; an entry that is there keeps its counters.
unfoldable pub upsert_budget : BudgetConfig → BudgetCache → BudgetCache
unfolding lookup insert
upsert_budget budget bc = elim (lookup budget.id bc) [
  | none ↦
      insert budget.id
        (record {
          config = some budget;
          window_cost = budget.total_spend;
          window_reqs = budget.request_count;
          last_flushed = budget.total_spend;
          last_reqs = budget.request_count;
        })
        bc
  | some actual ↦ insert budget.id (record actual { config = some budget }) bc
]

unfoldable pub delete_budget : String → BudgetCache → BudgetCache
unfolding delete
delete_budget budget_id bc = delete budget_id bc

unfoldable pub upsert_budgets : List BudgetConfig → BudgetCache → BudgetCache
unfolding upsert_budget
upsert_budgets [] bc = bc
upsert_budgets (b ∷ bs) bc = upsert_budgets bs (upsert_budget b bc)

-- The set of active ids, `tempactiveIDs`.
unfoldable pub is_active_id : List BudgetConfig → String → Bool
is_active_id [] k = false
is_active_id (b ∷ bs) k = b.id ==? k || is_active_id bs k

unfoldable pub delete_inactive : List BudgetConfig → BudgetCache → BudgetCache
unfolding is_active_id
delete_inactive active [] = []
delete_inactive active ((k, b) ∷ bc) =
    let rest = delete_inactive active bc in if is_active_id active k then (k, b) ∷ rest else rest

unfoldable pub load_budgets : List BudgetConfig → BudgetCache → BudgetCache
unfolding upsert_budgets delete_inactive
load_budgets budgets bc = delete_inactive budgets (upsert_budgets budgets bc)
