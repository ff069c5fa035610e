-- ===== src/Calendar.antt =====
-- The days of Python's `datetime` and `calendar`, as far as the program uses them. A date is a
-- year, a month and a day; its ordinal counts the days from 0001-01-01, which is 1. Months are
-- counted through by `month_index`, in which January of year y is 12 * y. What raises an
-- exception outside the years 1 to 9999 (`ValueError`, `OverflowError`) returns `none`.
pub mod Months
pub mod Days
mod Examples
use cashcove.Base.{
  ℕ, zero, suc, ◌+◌, ◌-◌, ◌*◌, ◌/◌, ◌%◌, min, Bool, true, false, not, ◌&&◌, ◌||◌, Option, none,
  some, ltb, leb, ◌==◌, if◌then◌else◌, ℤ, pos, negsuc, pos_part, ◌+ℤ◌, ◌-ℤ◌, ltb_ℤ,
}

pub record Date : Type 0 where
  pub year : ℕ
  pub month : ℕ
  pub day : ℕ

-- `dt.date(y, m, d)`, of a day that there is.
abbrev pub date : (y m d : ℕ) → Date
date y m d = record { day = d; month = m; year = y }

unfoldable pub is_leap : ℕ → Bool
is_leap y = y % 4 == 0 && (not (y % 100 == 0) || y % 400 == 0)

-- The days of a month, from 1 to 12, in a leap year or another.
unfoldable pub month_length : Bool → ℕ → ℕ
month_length leap m =
    if m == 2
    then (if leap then 29 else 28)
    else if m == 4 || (m == 6 || (m == 9 || m == 11))
    then 30
    else 31

-- `calendar.monthrange(year, month)[1]`
unfoldable pub days_in_month : ℕ → ℕ → ℕ
days_in_month y m = month_length (is_leap y) m

-- The days before the first of a year, and before the first of its month m + 1.
unfoldable pub year_start : ℕ → ℕ
year_start y = let p = y - 1 in p * 365 + p / 4 - p / 100 + p / 400

unfoldable pub month_offset : Bool → ℕ → ℕ
month_offset leap zero = 0
month_offset leap (suc m) = month_offset leap m + month_length leap (suc m)

unfoldable pub month_index : Date → ℕ
month_index d = d.year * 12 + (d.month - 1)

-- The days before the month with index i, and the days in it.
unfoldable pub index_start : ℕ → ℕ
index_start i = year_start (i / 12) + month_offset (is_leap (i / 12)) (i % 12)

unfoldable pub index_length : ℕ → ℕ
index_length i = days_in_month (i / 12) (i % 12 + 1)

-- `d.toordinal()`. Dates compare and subtract as their ordinals do.
unfoldable pub ordinal : Date → ℕ
ordinal d = index_start (month_index d) + d.day

abbrev pub date_leb : Date → Date → Bool
date_leb a b = leb (ordinal a) (ordinal b)

abbrev pub date_ltb : Date → Date → Bool
date_ltb a b = ltb (ordinal a) (ordinal b)

abbrev pub date_eq : Date → Date → Bool
date_eq a b = ordinal a == ordinal b

abbrev pub date_max : Date → Date → Date
date_max a b = if date_ltb a b then b else a

abbrev pub date_min : Date → Date → Date
date_min a b = if date_ltb b a then b else a

-- `(a - b).days`
unfoldable pub days_between : Date → Date → ℤ
days_between a b = pos (ordinal a) -ℤ pos (ordinal b)

abbrev pub first_index : ℕ
first_index = 12

abbrev pub end_index : ℕ
end_index = 120_000

abbrev pub last_ordinal : ℕ
last_ordinal = 3_652_059

-- The month that holds the day with ordinal n, by bisection.
bisect : ℕ → ℕ → ℕ → ℕ → ℕ
bisect zero n lo hi = lo
bisect (suc fuel) n lo hi =
    let mid = (lo + hi) / 2 in
    let upper = bisect fuel n mid hi in
    let lower = bisect fuel n lo mid in
    if leb hi (lo + 1) then lo else if ltb (index_start mid) n then upper else lower

-- `dt.date.fromordinal(n)`, for n from 1 to the last day of 9999.
pub of_ordinal : ℕ → Date
of_ordinal n =
    let i = bisect 17 n first_index end_index in date (i / 12) (i % 12 + 1) (n - index_start i)

-- `d + dt.timedelta(days=n)`
pub add_days : Date → ℤ → Option Date
add_days d n =
    let total = pos (ordinal d) +ℤ n in
    if ltb_ℤ total (pos 1) || ltb_ℤ (pos last_ordinal) total
    then none
    else some (of_ordinal (pos_part total))

-- `d.weekday()`: Monday is 0.
pub weekday : Date → ℕ
weekday d = (ordinal d + 6) % 7

-- `_add_months` of backend/app/finance/subscriptions.py and `shift_months` of
-- backend/app/finance/periods.py are this one computation: the month `months` later, and the same
-- day of it, or its last.
unfoldable pub shifted : Date → ℤ → Option Date
shifted d months =
    let index = pos (month_index d) +ℤ months in
    let n = pos_part index in
    if ltb_ℤ index (pos first_index) || not (ltb_ℤ index (pos end_index))
    then none
    else some (date (n / 12) (n % 12 + 1) (min d.day (days_in_month (n / 12) (n % 12 + 1))))
