-- ===== src/Calendar/Examples.antt =====
-- The results on dates at concrete inputs.
use cashcove.Base.{◌≡◌, arith, pos, negsuc, ◌+ℤ◌}
use cashcove.Calendar.{
  date, is_leap, month_length, days_in_month, ordinal, of_ordinal, add_days, shifted, month_index,
}
use cashcove.Calendar.Months.{IsValid}
use cashcove.Calendar.Days.{ordinal-of_ordinal, Lands, add_days-Lands, ShiftsTo, shifted-ShiftsTo}

january_31-IsValid : IsValid (date 2024 1 31)
unfolding days_in_month month_length is_leap
january_31-IsValid = record { year_in = omega arith; month_in = omega arith; day_in = omega arith }

ordinal-of_ordinal_example : IsValid (of_ordinal 738_886) × (ordinal (of_ordinal 738_886) ≡ 738_886)
ordinal-of_ordinal_example = ordinal-of_ordinal 738_886 (omega arith) (omega arith)

add_days-Lands_example :
    Lands (pos (ordinal (date 2024 3 1)) +ℤ negsuc 0) (add_days (date 2024 3 1) (negsuc 0))
add_days-Lands_example = add_days-Lands (date 2024 3 1) (negsuc 0)

shifted-ShiftsTo_example :
    ShiftsTo
      (date 2024 1 31)
      (pos (month_index (date 2024 1 31)) +ℤ pos 1)
      (shifted (date 2024 1 31) (pos 1))
shifted-ShiftsTo_example = shifted-ShiftsTo (date 2024 1 31) (pos 1) january_31-IsValid
