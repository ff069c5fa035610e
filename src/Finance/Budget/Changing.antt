-- ===== src/Finance/Budget/Changing.antt =====
-- Adding and changing a budget (backend/app/finance/budget.py). It returns `none` where Python
-- raises: where a date is out of range, or a budget has no amount. A row that is
-- added stands last among the amounts, which are otherwise in the order of their days.
use cashcove.Base.{ℕ, Bool, true, false, Option, none, some, List, [], ◌∷◌, if◌then◌else◌, ◌>>=◌}
use cashcove.Base.Text.{Text}
use cashcove.Calendar.{Date, date_eq}
use cashcove.Finance.Periods.{
  BudgetPeriod, weekly, biweekly, monthly, yearly, period_start, default_start,
}
use cashcove.Finance.Budget.{Budget, BudgetAmount, amount_at}

pub record Household : Type 0 where
  pub currency : Text
  pub week_starts_on : ℕ
  pub first_month : ℕ

unfoldable pub start_for : Household → BudgetPeriod → Date → Option Date
start_for household period today =
    default_start period today household.week_starts_on household.first_month

pub record BudgetCreate : Type 0 where
  pub name : Text
  pub period : BudgetPeriod
  pub amount : ℕ
  pub starts_on : Option Date
  pub today : Option Date

pub record BudgetUpdate : Type 0 where
  pub name : Option Text
  pub period : Option BudgetPeriod
  pub amount : Option ℕ
  pub starts_on : Option Date
  pub today : Option Date

abbrev pub or_else {ℓ} : {A : Type ℓ} → Option A → A → A
or_else none a = a
or_else (some b) a = b

abbrev pub period_eq : BudgetPeriod → BudgetPeriod → Bool
period_eq weekly weekly = true
period_eq biweekly biweekly = true
period_eq monthly monthly = true
period_eq yearly yearly = true
period_eq _ _ = false

-- `create_budget`; `now` is the day on the server.
unfoldable pub create_budget : Household → BudgetCreate → ℕ → Date → Option Budget
create_budget household body id now = do
  starts_on ← elim body.starts_on as (λ o. Option Date) [
    | some day ↦ some day
    | none ↦ start_for household body.period (or_else body.today now)
  ]
  some (record {
    id = id;
    name = body.name;
    period = body.period;
    starts_on = starts_on;
    amounts = record { starts_on = starts_on; amount = body.amount } ∷ [];
  })

-- The first row of the day gets the amount; where there is none, a row is added at the end.
unfoldable pub set_amount : Date → ℕ → List BudgetAmount → List BudgetAmount
set_amount start amount [] = record { starts_on = start; amount = amount } ∷ []
set_amount start amount (row ∷ rows) =
    let rest = set_amount start amount rows in
    if date_eq row.starts_on start then record row { amount = amount } ∷ rows else row ∷ rest

-- The one amount that is left starts on the budget's first day.
unfoldable pub start_amounts_over : Budget → ℕ → Option Budget
start_amounts_over budget amount = elim budget.amounts [
  | [] ↦ none
  | keep ∷ others ↦ some (record budget {
    amounts = record keep { starts_on = budget.starts_on; amount = amount } ∷ [];
  })
]

-- The branch of `change_budget` that starts the amounts over.
unfoldable pub start_over :
    Household → Budget → BudgetPeriod → Option Date → Date → ℕ → Option Budget
start_over household budget period starts_on today amount = do
  first ← elim starts_on as (λ o. Option Date) [
    | some day ↦ some day
    | none ↦ start_for household period today
  ]
  start_amounts_over (record budget { period = period; starts_on = first }) amount

unfoldable pub new_amount : Budget → Option ℕ → Date → Option Budget
new_amount budget none today = some budget
new_amount budget (some amount) today = do
  start ← period_start budget.period budget.starts_on today
  some (record budget { amounts = set_amount start amount budget.amounts })

-- The amount that the budget has, or is to have.
unfoldable pub amount_now : Budget → Option ℕ → Date → Option ℕ
amount_now budget (some amount) today = some amount
amount_now budget none today = do
  start ← period_start budget.period budget.starts_on today
  amount_at budget start

unfoldable pub change_budget : Household → Budget → BudgetUpdate → Date → Option Budget
change_budget household budget body now = do
  let today = or_else body.today now
  let named = record budget { name = or_else body.name budget.name }
  amount ← amount_now named body.amount today
  let period = or_else body.period budget.period
  let repeats = record named { starts_on = or_else body.starts_on budget.starts_on }
  let again = new_amount repeats body.amount today
  let anew = start_over household named period body.starts_on today amount
  if period_eq period budget.period then again else anew
