-- ===== src/Finance/Budget/Amounts.antt =====
-- The amount of a budget that has been changed.
use cashcove.Base.{
  ℕ, ◌≡◌, ◌<◌, ◌≤◌, refl, ap, ◌∙◌, inl, inr, true, false, none, some, List, [], ◌∷◌, Bool-cases,
  >>=-eq-some, arith, All,
}
use cashcove.Base.Text.{Text}
use cashcove.Calendar.{Date, date_eq, date_leb, ordinal}
use cashcove.Finance.Periods.{BudgetPeriod, period_start}
use cashcove.Finance.Budget.{Budget, BudgetAmount, latest_amount, amount_at}
use cashcove.Finance.Budget.Changing.{
  Household, BudgetUpdate, or_else, period_eq, amount_now, change_budget, set_amount, new_amount,
}

-- Each amount starts before those after it, as they are read.
unfoldable pub InOrder : List BudgetAmount → Type 0
InOrder [] = Unit
InOrder (row ∷ rows) =
    All (λ (later : BudgetAmount). ordinal row.starts_on < ordinal later.starts_on) rows
    × InOrder rows

latest-later :
    (start : Date) (amount : ℕ) (rows : List BudgetAmount)
    → All (λ (later : BudgetAmount). ordinal start < ordinal later.starts_on) rows
    → latest_amount start amount rows ≡ amount
unfolding latest_amount
latest-later start amount [] h = refl
latest-later start amount (row ∷ rows) h =
    let after : date_leb row.starts_on start ≡ false = let k = h.0 in ground arith in
    rw after (latest-later start amount rows h.1)

set_amount-latest :
    (start : Date) (amount : ℕ) (rows : List BudgetAmount) (before : ℕ)
    → InOrder rows
    → latest_amount start before (set_amount start amount rows) ≡ amount
unfolding latest_amount set_amount InOrder
set_amount-latest start amount [] before h =
    let begun : date_leb start start ≡ true = ground arith in rw begun refl
set_amount-latest start amount (row ∷ rows) before h =
    elim (Bool-cases (date_eq row.starts_on start)) [
      | inl same ↦
          let it : ordinal row.starts_on ≡ ordinal start = ground arith in
          let begun : date_leb row.starts_on start ≡ true = ground arith in
          rw (same, latest_amount, begun) (latest-later start amount rows (rw it at h.0))
      | inr other ↦ rw other (set_amount-latest start amount rows _ h.1)
    ]

set_amount-earlier :
    (start day : Date) (amount : ℕ) (rows : List BudgetAmount) (before : ℕ)
    → ordinal day < ordinal start
    → latest_amount day before (set_amount start amount rows) ≡ latest_amount day before rows
unfolding latest_amount set_amount
set_amount-earlier start day amount [] before h =
    let later : date_leb start day ≡ false = ground arith in rw later refl
set_amount-earlier start day amount (row ∷ rows) before h =
    elim (Bool-cases (date_eq row.starts_on start)) [
      | inl same ↦
          let later : date_leb row.starts_on day ≡ false = ground arith in
          rw (same, latest_amount, later) refl
      | inr other ↦ rw other (set_amount-earlier start day amount rows _ h)
    ]

-- The first amount applies on the day already.
abbrev pub HasBegun : List BudgetAmount → Date → Type 0
HasBegun [] day = ⊥
HasBegun (first ∷ rows) day = ordinal first.starts_on ≤ ordinal day

-- The budget with other amounts.
abbrev with_amounts : Budget → List BudgetAmount → Budget
with_amounts budget rows = record budget { amounts = rows }

amount_at-set_amount :
    (budget : Budget) (start : Date) (amount : ℕ) (rows : List BudgetAmount)
    → InOrder rows
    → amount_at (with_amounts budget (set_amount start amount rows)) start ≡ some amount
unfolding amount_at set_amount
amount_at-set_amount budget start amount [] h = ap some (set_amount-latest start amount [] amount h)
amount_at-set_amount budget start amount (row ∷ rows) h =
    elim (Bool-cases (date_eq row.starts_on start)) [
      | inl same ↦
          rw (set_amount, same)
            (ap some
              (rw (set_amount, same) at (set_amount-latest start amount (row ∷ rows) amount h)))
      | inr other ↦
          rw (set_amount, other)
            (ap some (
              rw (set_amount, other) at (set_amount-latest start amount (row ∷ rows) row.amount h)))
    ]

amount_at-earlier :
    (budget : Budget) (start day : Date) (amount : ℕ) (rows : List BudgetAmount)
    → ordinal day < ordinal start
    → HasBegun rows day
    → amount_at (with_amounts budget (set_amount start amount rows)) day
      ≡ amount_at (with_amounts budget rows) day
unfolding amount_at set_amount
amount_at-earlier budget start day amount [] h begun = absurd begun
amount_at-earlier budget start day amount (row ∷ rows) h begun =
    let other : date_eq row.starts_on start ≡ false = ground arith in
    rw (set_amount, other)
      (ap some
        (rw (set_amount, other) at (set_amount-earlier start day amount (row ∷ rows) row.amount h)))

same_amounts :
    (budget : Budget) (name : Text) (starts_on day : Date)
    → amount_at (record budget { name = name; starts_on = starts_on }) day ≡ amount_at budget day
unfolding amount_at
same_amounts budget name starts_on day = refl

period_eq_refl : (p : BudgetPeriod) → period_eq p p ≡ true
period_eq_refl BudgetPeriod.weekly = refl
period_eq_refl BudgetPeriod.biweekly = refl
period_eq_refl BudgetPeriod.monthly = refl
period_eq_refl BudgetPeriod.yearly = refl

-- A new amount, where how often the budget repeats stays, applies to the period that the person is
-- in, as the budget's periods are from then on, and to no earlier day that an amount applied to:
-- where the amounts are in the order of their days.
pub change_budget-amount_at :
    (household : Household) (budget changed : Budget) (body : BudgetUpdate) (amount : ℕ)
    (now : Date)
    → InOrder budget.amounts
    → body.amount ≡ some amount
    → body.period ≡ none
    → change_budget household budget body now ≡ some changed
    → (start : Date) × (period_start changed.period changed.starts_on (or_else body.today now)
        ≡ some start)
      × (amount_at changed start ≡ some amount)
      × ((day : Date)
          → ordinal day < ordinal start
          → HasBegun budget.amounts day
          → amount_at changed day ≡ amount_at budget day)
unfolding change_budget amount_now new_amount
change_budget-amount_at household budget changed body amount now order some_amount no_period h =
    let repeats : Budget = record budget {
      name = or_else body.name budget.name;
      starts_on = or_else body.starts_on budget.starts_on;
    } in
    let (start, starts, e) =
      >>=-eq-some (period_start repeats.period repeats.starts_on (or_else body.today now)) _
        (rw (some_amount, no_period, period_eq_refl budget.period) at h) in
    let same : with_amounts repeats (set_amount start amount budget.amounts) ≡ changed = cc e in
    rw (← same) (
      start,
      starts,
      amount_at-set_amount repeats start amount budget.amounts order,
      λ day earlier begun.
          amount_at-earlier repeats start day amount budget.amounts earlier begun
          ∙ same_amounts budget _ _ day,
    )
