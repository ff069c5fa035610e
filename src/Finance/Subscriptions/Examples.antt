-- ===== src/Finance/Subscriptions/Examples.antt =====
-- The results on due dates at concrete inputs: a bill due on the 31st of each month.
use cashcove.Base.{◌≡◌, refl, some, none, ◌+ℤ◌, arith, true, false, []}
use cashcove.Calendar.{date, is_leap, month_length, days_in_month, month_index, ordinal, shifted}
use cashcove.Calendar.Months.{IsValid}
use cashcove.Finance.Store.{monthly, bill, Subscription}
use cashcove.Finance.Subscriptions.{after_span, due_after, dates_from, advance_due_date}
use cashcove.Finance.Subscriptions.Due.{ListsDue, dates_from-ListsDue}
use cashcove.Finance.Subscriptions.Advance.{Settles, advance_due_date-Settles}

abbrev rent : Subscription
rent = record {
  id = 1;
  name = [];
  kind = bill;
  payee = [];
  amount = 90_000;
  amount_varies = false;
  frequency = monthly;
  account_id = 1;
  next_due_date = date 2024 1 31;
  category_id = none;
  notes = none;
  active = true;
  ends_on = none;
  cancelled_on = none;
}

january_31-IsValid : IsValid (date 2024 1 31)
unfolding days_in_month month_length is_leap
january_31-IsValid = record { year_in = omega arith; month_in = omega arith; day_in = omega arith }

second_payment : due_after (date 2024 1 31) monthly 1 ≡ some (date 2024 2 29)
unfolding due_after after_span shifted days_in_month month_length is_leap month_index ◌+ℤ◌
second_payment = refl

third_payment : due_after (date 2024 1 31) monthly 2 ≡ some (date 2024 3 31)
unfolding due_after after_span shifted days_in_month month_length is_leap month_index ◌+ℤ◌
third_payment = refl

advance_due_date-Settles_example :
    Settles rent (ordinal (date 2024 2 20)) (advance_due_date rent (date 2024 2 20))
advance_due_date-Settles_example = advance_due_date-Settles rent (date 2024 2 20) january_31-IsValid

dates_from-ListsDue_example :
    ListsDue
      (date 2024 1 31)
      monthly
      (date 2024 2 10)
      (date 2024 5 10)
      (dates_from (date 2024 1 31) monthly (date 2024 2 10) (date 2024 5 10))
dates_from-ListsDue_example =
    dates_from-ListsDue (date 2024 1 31) monthly (date 2024 2 10) (date 2024 5 10)
      january_31-IsValid
