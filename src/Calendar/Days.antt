-- ===== src/Calendar/Days.antt =====
-- Counting days: `of_ordinal` undoes `ordinal`, and what shifting by days and by months returns.
use cashcove.Base.{
  ℕ, zero, suc, ◌+◌, ◌-◌, ◌*◌, ◌/◌, ◌%◌, ◌^◌, ◌≤◌, ◌<◌, min, ◌≡◌, refl, ap, false, not, ◌||◌,
  Option, none, some, ◌⊎◌, inl, inr, ltb, leb, Bool-cases, if◌then◌else◌, arith, ℤ, pos, negsuc,
  pos_part, ◌+ℤ◌, ◌≤ℤ◌, ltb_ℤ,
}
use cashcove.Calendar.{
  Date, date, days_in_month, month_index, index_start, index_length, ordinal, bisect, of_ordinal,
  add_days, shifted, first_index, end_index, last_ordinal,
}
use cashcove.Calendar.Months.{IsValid, index_start-suc, index_length_bounds, index_start_ends}

-- The month that holds the n-th day.
abbrev Holds : ℕ → ℕ → Type 0
Holds n i = (first_index ≤ i) × (i < end_index) × (index_start i < n) × (n ≤ index_start (suc i))

bisect-Holds :
    (fuel n lo hi : ℕ)
    → first_index ≤ lo
    → hi ≤ end_index
    → lo < hi
    → hi ≤ lo + 2 ^ fuel
    → index_start lo < n
    → n ≤ index_start hi
    → Holds n (bisect fuel n lo hi)
unfolding bisect
bisect-Holds zero n lo hi a b c d e f =
    let same : hi ≡ suc lo = omega arith in (a, omega arith, e, rw same at f)
bisect-Holds (suc fuel) n lo hi a b c d e f = elim (Bool-cases (leb hi (lo + 1))) [
  | inl last ↦ let same : hi ≡ suc lo = ground arith in rw last (a, omega arith, e, rw same at f)
  | inr more ↦ elim (Bool-cases (ltb (index_start ((lo + hi) / 2)) n)) [
    | inl up ↦
        rw (more, up)
          (bisect-Holds fuel n ((lo + hi) / 2) hi (ground arith) b (ground arith) (half_left more)
            (ground arith) f)
    | inr down ↦
        rw (more, down)
          (bisect-Holds fuel n lo ((lo + hi) / 2) a (ground arith) (ground arith) (half_right more)
            e (ground arith))
  ]
]
  where
    pow : 2 ^ suc fuel ≡ 2 * 2 ^ fuel
    pow = grind arith

    half_left : leb hi (lo + 1) ≡ false → hi ≤ (lo + hi) / 2 + 2 ^ fuel
    half_left more = omega (arith, pow)

    half_right : leb hi (lo + 1) ≡ false → (lo + hi) / 2 ≤ lo + 2 ^ fuel
    half_right more = omega (arith, pow)

abbrev IsOrdinal : ℕ → Type 0
IsOrdinal n = (1 ≤ n) × (n ≤ last_ordinal)

found-Holds : (n : ℕ) → IsOrdinal n → Holds n (bisect 17 n first_index end_index)
found-Holds n h =
    bisect-Holds 17 n first_index end_index (omega arith) (omega arith) (omega arith) (omega arith)
      (omega (arith, index_start_ends)) (omega (arith, index_start_ends))

module _ (n i : ℕ) (h : Holds n i) where
  abbrev found : Date
  found = date (i / 12) (i % 12 + 1) (n - index_start i)

  found-index : month_index found ≡ i
  unfolding month_index
  found-index = omega arith

  found-ordinal : ordinal found ≡ n
  unfolding ordinal
  found-ordinal = rw found-index (omega arith)

  found-IsValid : IsValid found
  found-IsValid = record {
    year_in = omega arith;
    month_in = omega arith;
    day_in = (omega arith, unfold index_length in omega (arith, index_start-suc i h.0));
  }

-- Every ordinal from 1 to that of 9999-12-31 has a valid date, whose ordinal it is.
pub ordinal-of_ordinal :
    (n : ℕ) → 1 ≤ n → n ≤ last_ordinal → IsValid (of_ordinal n) × (ordinal (of_ordinal n) ≡ n)
unfolding of_ordinal
ordinal-of_ordinal n a b =
    let h = found-Holds n (a, b) in (found-IsValid n _ h, found-ordinal n _ h)

-- Adding days returns the valid date that many days on, and raises just where there is none.
abbrev pub Lands : ℤ → Option Date → Type 0
Lands total none = (total ≤ℤ pos 0) ⊎ (pos (last_ordinal + 1) ≤ℤ total)
Lands total (some d) = IsValid d × (pos (ordinal d) ≡ total)

pub add_days-Lands : (d : Date) (n : ℤ) → Lands (pos (ordinal d) +ℤ n) (add_days d n)
unfolding add_days
add_days-Lands d n = lands (pos (ordinal d) +ℤ n)
  where
    lands :
        (total : ℤ)
        → Lands total (
            if ltb_ℤ total (pos 1) || ltb_ℤ (pos last_ordinal) total
            then none
            else some (of_ordinal (pos_part total)))
    lands (pos t) = ground (arith, ordinal-of_ordinal t)
    lands (negsuc t) = ground arith

-- What a shift by months returns: the same day of the month with the index, or its last day.
abbrev pub ShiftsTo : Date → ℤ → Option Date → Type 0
ShiftsTo d index none = (index ≤ℤ pos (first_index - 1)) ⊎ (pos end_index ≤ℤ index)
ShiftsTo d index (some u) =
    IsValid u × (pos (month_index u) ≡ index) × (u.day ≡ min d.day (days_in_month u.year u.month))

length_bounds : (n : ℕ) → 28 ≤ days_in_month (n / 12) (n % 12 + 1)
length_bounds n = unfold index_length in ((index_length_bounds n).0)

shifted_to :
    (d : Date)
    → IsValid d
    → (n : ℕ) → first_index ≤ n
    → n < end_index
    → ShiftsTo d
        (pos n)
        (some (date (n / 12) (n % 12 + 1) (min d.day (days_in_month (n / 12) (n % 12 + 1)))))
unfolding month_index
shifted_to d v n a b = (
  record {
    year_in = omega arith;
    month_in = omega arith;
    day_in = omega (arith, v.day_in, length_bounds n);
  },
  ap pos (omega arith),
  refl,
)

-- Moving a valid date by months, forward or back, gives a valid date in the month that many months
-- on, with the same day or, where that month is shorter, its last day; it raises only where the month
-- lies outside the years 1 to 9999.
pub shifted-ShiftsTo :
    (d : Date) (months : ℤ)
    → IsValid d
    → ShiftsTo d (pos (month_index d) +ℤ months) (shifted d months)
unfolding shifted
shifted-ShiftsTo d months v = to (pos (month_index d) +ℤ months)
  where
    to :
        (index : ℤ)
        → ShiftsTo d index (
            if ltb_ℤ index (pos first_index) || not (ltb_ℤ index (pos end_index))
            then none
            else some (
                date
                  (pos_part index / 12)
                  (pos_part index % 12 + 1)
                  (min d.day (days_in_month (pos_part index / 12) (pos_part index % 12 + 1)))))
    to (pos n) = ground (arith, shifted_to d v n)
    to (negsuc n) = ground arith

-- What adding days returns depends on the sum alone.
pub add_days_same :
    (a b : Date) (m n : ℤ)
    → pos (ordinal a) +ℤ m ≡ pos (ordinal b) +ℤ n
    → add_days a m ≡ add_days b n
unfolding add_days
add_days_same a b m n e = rw e refl
