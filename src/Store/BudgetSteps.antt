-- ===== src/Store/BudgetSteps.antt =====
-- internal/dbstore/budget.go: the operations on budgets leave what the keys hold.
use text.Mathlib.TextEquality.{eq_iff}
use diffractllm.Base.{
  ◌≡◌, refl, Bool, true, false, String, some, lookup, insert, delete, lookup-insert, lookup-delete,
  string_eq, if◌then◌else◌, arith, Option-cases, inl, inr, ok, Result-cases, ◌≢◌, ℤ,
}
use diffractllm.Store.Tables.{StoreBudget, Tables, Faults}
use diffractllm.Store.Creation.{
  get_budget, BudgetRequest, create_budget, new_budget, update_budget, update_fields,
  update_budget_enforce, delete_budget,
}
use diffractllm.Store.Exclusive.{claim, status_of, IsExclusive}
use diffractllm.Store.Steps.{keep-IsExclusive}

update_fields-status :
    (duration_ok : String → Bool) (b : BudgetRequest) (row row' : StoreBudget)
    → update_fields duration_ok b row ≡ ok row'
    → row'.status ≡ row.status
unfolding update_fields
update_fields-status duration_ok b row row' h = ground arith

module _ {W : Type 0} where
  get_budget-stored :
      (fails : Bool) (id : String) (t : Tables W) (row : StoreBudget)
      → get_budget fails id t ≡ some row
      → lookup id t.budgets ≡ some row
  unfolding get_budget
  get_budget-stored fails id t row h = ground arith

  -- A budget is written again with its status.
  save_budget-IsExclusive :
      (t : Tables W) (id : String) (row row' : StoreBudget)
      → IsExclusive t
      → lookup id t.budgets ≡ some row
      → row'.status ≡ row.status
      → IsExclusive (record t { budgets = insert id row' t.budgets })
  unfolding claim status_of
  save_budget-IsExclusive t id row row' ex found same =
      keep-IsExclusive t (record t { budgets = insert id row' t.budgets }) ex ex.keyed (λ j. refl)
        (λ j b s held h. ground (arith, lookup-insert id b row' t.budgets, eq_iff id b, h))

  either-IsExclusive :
      {A : Type 0} (b : Bool) (p q : Tables W × A)
      → IsExclusive p.0
      → IsExclusive q.0
      → IsExclusive (if b then p else q).0
  either-IsExclusive true p q hp hq = hp
  either-IsExclusive false p q hp hq = hq

  pub update_budget-IsExclusive :
      (duration_ok : String → Bool) (faults : Faults) (id : String) (b : BudgetRequest)
      (t : Tables W)
      → IsExclusive t
      → IsExclusive (update_budget duration_ok faults id b t).0
  unfolding update_budget
  update_budget-IsExclusive duration_ok faults id b t ex =
      elim (Option-cases (get_budget faults.find id t)) [
        | inl missing ↦ rw (missing, update_budget) ex
        | inr (row, found) ↦ elim (Result-cases (update_fields duration_ok b row)) [
          | inl (e, bad) ↦ rw (found, update_budget, bad) ex
          | inr (row', good) ↦
              rw (found, update_budget, good)
                (search (
                  either-IsExclusive,
                  save_budget-IsExclusive t id row row' ex
                      (get_budget-stored faults.find id t row found)
                      (update_fields-status duration_ok b row row' good),
                ))
        ]
      ]

  pub update_budget_enforce-IsExclusive :
      (fails : Bool) (id : String) (enforce : Bool) (t : Tables W)
      → IsExclusive t
      → IsExclusive (update_budget_enforce fails id enforce t).0
  unfolding update_budget_enforce
  update_budget_enforce-IsExclusive true id enforce t ex = ex
  update_budget_enforce-IsExclusive false id enforce t ex =
      elim (Option-cases (lookup id t.budgets)) [
        | inl missing ↦ rw missing ex
        | inr (row, found) ↦
            rw found
              (save_budget-IsExclusive t id row (record row { enforce = enforce }) ex found refl)
      ]

  remove_budget-IsExclusive :
      (t : Tables W) (id : String)
      → IsExclusive t
      → IsExclusive (record t { budgets = delete id t.budgets })
  unfolding claim status_of
  remove_budget-IsExclusive t id ex =
      keep-IsExclusive t (record t { budgets = delete id t.budgets }) ex ex.keyed (λ j. refl)
        (λ j b s held h. ground (arith, lookup-delete id b t.budgets, h))

  pub delete_budget-IsExclusive :
      (faults : Faults) (id : String) (t : Tables W)
      → IsExclusive t
      → IsExclusive (delete_budget faults id t).0
  unfolding delete_budget
  delete_budget-IsExclusive faults id t ex = elim (Option-cases (get_budget faults.find id t)) [
    | inl missing ↦ rw (missing, delete_budget) ex
    | inr (row, found) ↦
        rw (found, delete_budget) (search (either-IsExclusive, remove_budget-IsExclusive t id ex))
  ]

  pub create_budget-IsExclusive :
      (duration_ok : String → Bool) (fails : Bool) (id : String) (now : ℤ) (b : BudgetRequest)
      (t : Tables W)
      → IsExclusive t
      → ((j : String) → claim t j ≢ some id)
      → IsExclusive (create_budget duration_ok fails id now b t).0
  unfolding create_budget claim status_of
  create_budget-IsExclusive duration_ok fails id now b t ex unclaimed =
      elim (Result-cases (new_budget duration_ok id now b)) [
        | inl (e, bad) ↦ rw (bad, create_budget) ex
        | inr (row, good) ↦
            let added =
              keep-IsExclusive t (record t { budgets = insert id row t.budgets }) ex ex.keyed
                (λ j. refl)
                (λ j b' s held h.
                  ground (
                    arith,
                    lookup-insert id b' row t.budgets,
                    eq_iff id b',
                    unclaimed j,
                    held,
                    h,
                  )) in
            rw (good, create_budget) (search (either-IsExclusive, added))
      ]
