-- ===== src/Finance/Subscriptions.antt =====
-- When recurring payments are due (backend/app/finance/subscriptions.py). The `while` loops take
-- fuel, and a call returns `raises` where Python raises because a date lies outside the years 1 to
-- 9999, and `stuck` if the fuel ran out, which the theorems exclude.
pub mod Schedule
pub mod Advance
pub mod Coming
pub mod Due
mod Examples
use cashcove.Base.{
  ℕ, zero, suc, ◌+◌, ◌-◌, ◌*◌, ◌/◌, Bool, true, false, ◌&&◌, ◌||◌, Option, none, some, List, [],
  ◌∷◌, ltb, leb, if◌then◌else◌, ◌>>=◌, select, ℤ, pos, negsuc, pos_part, ◌+ℤ◌, ◌-ℤ◌, is_some,
}
use cashcove.Base.Division.{floor_div}
use cashcove.Calendar.{Date, ordinal, date_leb, date_ltb, date_min, days_between, add_days, shifted}
use cashcove.Finance.Periods.{Span, days, months}
use cashcove.Finance.Store.{
  PaymentFrequency, weekly, biweekly, monthly, bimonthly, quarterly, semiannual, annual,
  Subscription,
}

-- The tables `_DAYS` and `_MONTHS`: each frequency is in one of them.
abbrev pub span : PaymentFrequency → Span
span weekly = days 7
span biweekly = days 14
span monthly = months 1
span bimonthly = months 2
span quarterly = months 3
span semiannual = months 6
span annual = months 12

-- `_EARLY`
abbrev pub early : PaymentFrequency → ℕ
early weekly = 3
early biweekly = 7
early monthly = 15
early bimonthly = 30
early quarterly = 45
early semiannual = 91
early annual = 182

abbrev pub upcoming_payments : ℕ
upcoming_payments = 6

pub data Outcome {ℓ} (A : Type ℓ) : Type ℓ where
  ok : A → Outcome A
  raises : Outcome A
  stuck : Outcome A

abbrev pub or_raise {ℓ} : {A : Type ℓ} → Option A → Outcome A
or_raise none = raises
or_raise (some a) = ok a

-- `_add_months`
abbrev pub add_months : Date → ℤ → Option Date
add_months = shifted

unfoldable pub after_span : Span → Date → ℕ → Option Date
after_span (days n) due cycles = add_days due (pos (n * cycles))
after_span (months n) due cycles = add_months due (pos (n * cycles))

-- `_due_after`
unfoldable pub due_after : Date → PaymentFrequency → ℕ → Option Date
unfolding after_span
due_after due frequency cycles = after_span (span frequency) due cycles

-- The number of days that at most separate two payments.
abbrev pub longest : Span → ℕ
longest (days n) = n
longest (months n) = 31 * n

-- `while _due_after(due, frequency, cycles) < limit: cycles += 1`, which both `due_dates` (up to
-- its first day) and `advance_due_date` (up to the day after `settled`) run.
unfoldable pub count_before : ℕ → Date → PaymentFrequency → ℕ → ℕ → Outcome ℕ
count_before zero due frequency limit cycles = stuck
count_before (suc fuel) due frequency limit cycles = elim (due_after due frequency cycles) [
  | none ↦ raises
  | some day ↦ elim (ltb (ordinal day) limit) [
    | true ↦ count_before fuel due frequency limit (cycles + 1)
    | false ↦ ok cycles
  ]
]

abbrev cons_to : Date → Outcome (List Date) → Outcome (List Date)
cons_to day (ok rest) = ok (day ∷ rest)
cons_to day raises = raises
cons_to day stuck = stuck

-- `while (day := _due_after(due, frequency, cycles)) <= last: days.append(day); cycles += 1`
unfoldable pub collect : ℕ → Date → PaymentFrequency → Date → ℕ → Outcome (List Date)
collect zero due frequency last cycles = stuck
collect (suc fuel) due frequency last cycles = elim (due_after due frequency cycles) [
  | none ↦ raises
  | some day ↦ elim (date_leb day last) [
    | true ↦ cons_to day (collect fuel due frequency last (cycles + 1))
    | false ↦ ok []
  ]
]

-- `max(0, (first - due).days // longest - 1)`
unfoldable pub first_guess : Span → Date → Date → ℕ
first_guess sp due first = pos_part (floor_div (days_between first due) (longest sp) -ℤ pos 1)

-- `last`, or the day before the end if that is earlier.
unfoldable pub until_end : Date → Option Date → Option Date
until_end last none = some last
until_end last (some ends_on) = do day ← add_days ends_on (negsuc 0); some (date_min last day)

unfoldable pub dates_from : Date → PaymentFrequency → Date → Date → Outcome (List Date)
unfolding count_before collect
dates_from due frequency first last =
    elim (count_before (ordinal first + 1) due frequency (ordinal first)
      (first_guess (span frequency) due first)) [
        | ok cycles ↦ collect (ordinal last + 1) due frequency last cycles
        | raises ↦ raises
        | stuck ↦ stuck
      ]

unfoldable pub due_dates : Subscription → Date → Date → Outcome (List Date)
due_dates subscription first last = elim (until_end last subscription.ends_on) [
  | none ↦ raises
  | some last' ↦ dates_from subscription.next_due_date subscription.frequency first last'
]

-- `[_due_after(first, frequency, cycles) for cycles in range(...)]`, the rounds left first.
due_range : ℕ → ℕ → Date → PaymentFrequency → Option (List Date)
due_range zero cycles first frequency = some []
due_range (suc left) cycles first frequency = do
  day ← due_after first frequency cycles
  rest ← due_range left (cycles + 1) first frequency
  some (day ∷ rest)

pub upcoming_dates : Subscription → Option (List Date)
unfolding due_range
upcoming_dates subscription = do
  year ← add_months subscription.next_due_date (pos 12)
  last ← until_end year subscription.ends_on
  coming ← due_range upcoming_payments 0 subscription.next_due_date subscription.frequency
  some (select (λ day. date_leb day last) coming)

unfoldable pub is_stopped : Subscription → Date → Bool
is_stopped subscription today =
    is_some subscription.cancelled_on
    || elim subscription.ends_on [ none ↦ false | some ends_on ↦ date_leb ends_on today ]

-- How far on `cycles` moves the due date: not at all at 0, where `next_due_date` is left alone.
abbrev moved : Subscription → ℕ → Outcome Subscription
moved subscription zero = ok subscription
moved subscription (suc cycles) =
    elim (due_after subscription.next_due_date subscription.frequency (suc cycles)) [
      | none ↦ raises
      | some day ↦ ok (record subscription { next_due_date = day })
    ]

-- The new state of the subscription. `<= settled` is `< settled + 1` in days.
pub advance_due_date : Subscription → Date → Outcome Subscription
unfolding count_before
advance_due_date subscription paid_on =
    elim (add_days paid_on (pos (early subscription.frequency))) [
      | none ↦ raises
      | some settled ↦
          elim (count_before (ordinal settled + 2) subscription.next_due_date subscription.frequency
            (ordinal settled + 1) 0) [
              | ok cycles ↦ moved subscription cycles
              | raises ↦ raises
              | stuck ↦ stuck
            ]
    ]
