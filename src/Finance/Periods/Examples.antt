-- ===== src/Finance/Periods/Examples.antt =====
-- The results on periods at concrete inputs: months counted from the 31st.
use cashcove.Base.{ℕ, ◌≤◌, ◌<◌, ◌≡◌, refl, some, arith, ◌+ℤ◌, ◌-ℤ◌}
use cashcove.Base.Division.{floor_div, times}
use cashcove.Calendar.{
  Date, date, is_leap, month_length, days_in_month, year_start, month_offset, month_index,
  index_start, ordinal, shifted,
}
use cashcove.Calendar.Months.{IsValid}
use cashcove.Finance.Periods.{monthly, start_of, period_start, months_between, next_of, next_start}
use cashcove.Finance.Periods.Partition.{period_start_holds}
use cashcove.Finance.Periods.Total.{period_start_total}

abbrev anchor : Date
anchor = date 2024 1 31

anchor-IsValid : IsValid anchor
unfolding days_in_month month_length is_leap
anchor-IsValid = record { year_in = omega arith; month_in = omega arith; day_in = omega arith }

march-IsValid : (d : ℕ) → 1 ≤ d → d ≤ 31 → IsValid (date 2024 3 d)
unfolding days_in_month month_length is_leap
march-IsValid d a b = record { year_in = omega arith; month_in = omega arith; day_in = omega arith }

starts : period_start monthly anchor (date 2024 3 5) ≡ some (date 2024 2 29)
unfolding period_start start_of months_between floor_div times shifted days_in_month month_length
    is_leap year_start month_offset month_index index_start ordinal ◌+ℤ◌ ◌-ℤ◌
starts = refl

starts_later : period_start monthly anchor (date 2024 3 30) ≡ some (date 2024 2 29)
unfolding period_start start_of months_between floor_div times shifted days_in_month month_length
    is_leap year_start month_offset month_index index_start ordinal ◌+ℤ◌ ◌-ℤ◌
starts_later = refl

ends : next_start monthly anchor (date 2024 2 29) ≡ some (date 2024 3 31)
unfolding next_start next_of months_between floor_div times shifted days_in_month month_length
    is_leap month_index ◌+ℤ◌ ◌-ℤ◌
ends = refl

period_start_holds_example :
    (ordinal (date 2024 2 29) ≤ ordinal (date 2024 3 5))
    × (ordinal (date 2024 3 5) < ordinal (date 2024 3 31))
period_start_holds_example =
    period_start_holds monthly anchor (date 2024 3 5) (date 2024 2 29) (date 2024 3 31)
      anchor-IsValid (march-IsValid 5 (omega arith) (omega arith)) starts ends

period_start_total_example :
    (s n : Date) × (period_start monthly anchor (date 2024 3 5) ≡ some s)
    × (next_start monthly anchor s ≡ some n)
period_start_total_example =
    period_start_total monthly anchor (date 2024 3 5) anchor-IsValid
      (march-IsValid 5 (omega arith) (omega arith)) (omega arith, omega arith)
