-- ===== src/Finance/Recurring/Change/Examples.antt =====
-- The results on setting up and changing recurring payments at concrete inputs: a bill due on the
-- 31st of each month. Payees are compared as they are.
use cashcove.Base.{◌≡◌, refl, true, false, none, some, [], ◌∷◌, arith, ◌+ℤ◌, ◌-ℤ◌}
use cashcove.Base.Division.{floor_div}
use cashcove.Base.Text.{Text}
use cashcove.Calendar.{
  Date, date, is_leap, month_length, days_in_month, month_index, ordinal, shifted, index_start,
  year_start, month_offset, days_between,
}
use cashcove.Calendar.Months.{IsValid}
use cashcove.Finance.Store.{monthly, bill, Subscription, Db}
use cashcove.Finance.Subscriptions.{
  due_dates, dates_from, count_before, collect, due_after, first_guess, is_stopped, after_span,
  until_end,
}
use cashcove.Finance.Recurring.{
  ok, fails, ◌>>=◌, unless, found_or, index_error, Create, new_row, find_recurring, open_account,
  find_category, seed_payee, stored, next_due, cancel_recurring,
}
use cashcove.Finance.Recurring.Change.{
  ensure_untracked, backfill_subscription, create_recurring, reactivate_recurring,
}
use cashcove.Finance.Recurring.Change.Tracked.{IsTrackedOnce}
use cashcove.Finance.Recurring.Change.Reachable.{here, next, created, cancelled}
use cashcove.Finance.Recurring.Change.Once.{Reaches-IsTrackedOnce}
use cashcove.Finance.Recurring.Change.Resumed.{
  IsNextDue, reactivate_recurring-next, reactivate_recurring-index_error,
}

abbrev as_is : Text → Text
as_is text = text

abbrev body : Create
body = record {
  name = 82 ∷ [];
  amount = 90_000;
  amount_varies = false;
  frequency = monthly;
  account_id = 5;
  next_due_date = date 2024 1 31;
  ends_on = none;
  category_id = none;
  notes = none;
  payee = none;
  seed_transaction_id = none;
}

abbrev rent : Subscription
rent = new_row bill body 1 (82 ∷ [])

abbrev empty : Db
empty = record {
  accounts = record { id = 5; is_closed = false } ∷ [];
  categories = [];
  subscriptions = [];
  transactions = [];
}

abbrev one_bill : Db
one_bill = record empty { subscriptions = rent ∷ [] }

abbrev ended : Subscription
ended = record rent { cancelled_on = some (date 2024 2 10); ends_on = some (date 2024 2 10) }

abbrev one_ended : Db
one_ended = record empty { subscriptions = ended ∷ [] }

sets_up : create_recurring as_is as_is empty bill body 1 ≡ ok (rent, one_bill)
unfolding create_recurring open_account find_category seed_payee ensure_untracked
    backfill_subscription ◌>>=◌ found_or unless new_row
sets_up = refl

cancels :
    cancel_recurring one_bill bill 1 (some (date 2024 2 10)) none (date 2024 2 11)
    ≡ ok (ended, one_ended)
unfolding cancel_recurring find_recurring stored is_stopped ◌>>=◌ found_or unless new_row
cancels = refl

Reaches-IsTrackedOnce_example : IsTrackedOnce as_is one_ended.subscriptions
Reaches-IsTrackedOnce_example =
    Reaches-IsTrackedOnce as_is as_is (λ text. refl) empty one_ended tt
      (next (next here (created bill body 1 rent tt sets_up))
        (cancelled bill 1 (some (date 2024 2 10)) none (date 2024 2 11) ended cancels))

ended-IsValid : IsValid (date 2024 1 31)
unfolding days_in_month month_length is_leap
ended-IsValid = record { year_in = omega arith; month_in = omega arith; day_in = omega arith }

abbrev resumed : Subscription
resumed = record rent { next_due_date = date 2024 2 29 }

found : find_recurring one_ended bill 1 ≡ ok ended
unfolding find_recurring ◌>>=◌ found_or unless new_row
found = refl

resumes :
    reactivate_recurring as_is as_is one_ended bill 1 none (some (date 2024 2 12)) (date 2024 2 12)
    ≡ ok (resumed, record empty { subscriptions = resumed ∷ [] })
unfolding reactivate_recurring find_recurring next_due stored is_stopped due_dates dates_from
    count_before collect due_after first_guess after_span until_end ◌>>=◌ found_or unless new_row
    ordinal month_index index_start year_start month_offset shifted days_in_month month_length
    is_leap days_between floor_div ◌+ℤ◌ ◌-ℤ◌
resumes = refl

reactivate_recurring-next_example :
    (resumed.active ≡ true)
    × ((day : Date) → is_stopped resumed day ≡ false)
    × IsNextDue (date 2024 1 31) monthly (date 2024 2 12) (date 2024 2 29)
unfolding new_row
reactivate_recurring-next_example =
    reactivate_recurring-next as_is as_is one_ended (record empty { subscriptions = resumed ∷ [] })
      bill 1 (some (date 2024 2 12)) (date 2024 2 12) ended resumed found ended-IsValid resumes

abbrev far_off : Subscription
far_off = record ended { next_due_date = date 2027 1 31 }

far_off-IsValid : IsValid (date 2027 1 31)
unfolding days_in_month month_length is_leap
far_off-IsValid = record { year_in = omega arith; month_in = omega arith; day_in = omega arith }

reactivate_recurring-index_error_example :
    reactivate_recurring as_is as_is
      (record empty { subscriptions = far_off ∷ [] })
      bill
      1
      none
      (some (date 2024 2 12))
      (date 2024 2 12)
    ≡ fails index_error
unfolding find_recurring is_stopped ◌>>=◌ found_or unless new_row ordinal month_index index_start
    year_start month_offset shifted days_in_month month_length is_leap ◌+ℤ◌
reactivate_recurring-index_error_example =
    reactivate_recurring-index_error as_is as_is (record empty { subscriptions = far_off ∷ [] })
      bill 1 (date 2024 2 12) (date 2024 2 12) (date 2025 3 12) far_off
      (record { id = 5; is_closed = false }) refl far_off-IsValid refl refl refl refl (omega arith)
      (omega arith)
