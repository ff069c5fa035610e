-- ===== src/Finance/Periods.antt =====
-- The periods that a budget repeats in (backend/app/finance/periods.py). What raises an exception,
-- because a date would lie outside the years 1 to 9999, returns `none`.
pub mod Starts
pub mod Partition
pub mod Total
mod Examples
use cashcove.Base.{
  ℕ, zero, suc, ◌+◌, ◌-◌, ◌*◌, ◌%◌, Option, none, some, List, [], ◌∷◌, ltb, leb, ◌==◌,
  if◌then◌else◌, ◌>>=◌, length, ℤ, pos, negsuc, ◌+ℤ◌, ◌-ℤ◌, neg_ℤ,
}
use cashcove.Base.Division.{floor_div, times}
use cashcove.Calendar.{
  Date, date, month_index, ordinal, days_between, date_leb, add_days, weekday, shifted,
}

pub data BudgetPeriod : Type 0 where
  weekly biweekly monthly yearly : BudgetPeriod

abbrev pub max_periods : ℕ
max_periods = 60

-- The two tables `_DAYS` and `_MONTHS`: each period is in one of them.
pub data Span : Type 0 where
  days : ℕ → Span
  months : ℕ → Span

abbrev pub span : BudgetPeriod → Span
span weekly = days 7
span biweekly = days 14
span monthly = months 1
span yearly = months 12

-- `shift_months`
abbrev pub shift_months : Date → ℤ → Option Date
shift_months = shifted

unfoldable pub months_between : Date → Date → ℤ
months_between start end = pos (month_index end) -ℤ pos (month_index start)

unfoldable pub start_of : Span → Date → Date → Option Date
start_of (days length) anchor day =
    add_days anchor (times (floor_div (days_between day anchor) length) length)
start_of (months step) anchor day =
    let index = times (floor_div (months_between anchor day) step) step in
    shift_months anchor index >>= λ start.
    if date_leb start day then some start else shift_months anchor (index -ℤ pos step)

unfoldable pub period_start : BudgetPeriod → Date → Date → Option Date
period_start period anchor day = start_of (span period) anchor day

pub next_of : Span → Date → Date → Option Date
next_of (days length) anchor start = add_days start (pos length)
next_of (months step) anchor start =
    shift_months anchor (times (floor_div (months_between anchor start) step +ℤ pos 1) step)

pub next_start : BudgetPeriod → Date → Date → Option Date
next_start period anchor start = next_of (span period) anchor start

pub previous_start : BudgetPeriod → Date → Date → Option Date
previous_start period anchor start = do
  before ← add_days start (negsuc 0)
  period_start period anchor before

pub period_end : BudgetPeriod → Date → Date → Option Date
period_end period anchor start = do next ← next_start period anchor start; add_days next (negsuc 0)

-- The loop of `starts_back`, with `rounds` rounds left, on the list in reverse: its last start, and
-- the later ones.
back : BudgetPeriod → Date → ℕ → ℕ → Date → List Date → Option (List Date)
back period anchor count zero start later = some (start ∷ later)
back period anchor count (suc rounds) start later =
    if leb count (length (start ∷ later)) then some (start ∷ later) else (do
      earlier ← previous_start period anchor start
      back period anchor count rounds earlier (start ∷ later))

pub starts_back : BudgetPeriod → Date → Date → ℕ → Option (List Date)
unfolding back
starts_back period anchor start count = back period anchor count (max_periods - 1) start []

first_of : Span → BudgetPeriod → Date → ℕ → ℕ → Option Date
first_of (days length) period today week_starts_on first_month =
    add_days today (neg_ℤ (pos ((weekday today + 7 - week_starts_on) % 7)))
first_of (months step) monthly today week_starts_on first_month =
    some (date today.year today.month 1)
first_of (months step) period today week_starts_on first_month =
    let year = if leb first_month today.month then today.year else today.year - 1 in
    if year == 0 then none else some (date year first_month 1)

-- `default_start`; `week_starts_on` is from 0 to 6, and `first_month` from 1 to 12.
pub default_start : BudgetPeriod → Date → ℕ → ℕ → Option Date
unfolding first_of
default_start period today week_starts_on first_month =
    first_of (span period) period today week_starts_on first_month
