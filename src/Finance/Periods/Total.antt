-- ===== src/Finance/Periods/Total.antt =====
-- The period of a day of the years 3 to 9998 exists, and so does the next one.
use native.Mathlib.Decide.{dec_lt}
use cashcove.Base.{
  ℕ, suc, ◌+◌, ◌≤◌, ◌<◌, ◌≡◌, refl, ◌∙◌, none, some, Bool-cases, Option-cases, inl, inr, arith, ℤ,
  pos, ◌+ℤ◌, ◌-ℤ◌, ◌≤ℤ◌, +ℤ_parts, -ℤ_parts,
}
use cashcove.Base.Division.{
  floor_div, times, times-add_one, times-sub_one, floor_div_bounds, pos-eq_parts,
}
use cashcove.Calendar.{
  Date, month_index, days_between, ordinal, date_leb, add_days, shifted, first_index, end_index,
  last_ordinal,
}
use cashcove.Calendar.Months.{
  IsValid, ordinal_range, month_index-ordinal, month_index_parts, day-le-index_length,
  index_start_mono, index_start-suc, year_edges,
}
use cashcove.Calendar.Days.{Lands, add_days-Lands, ShiftsTo, shifted-ShiftsTo}
use cashcove.Finance.Periods.{
  BudgetPeriod, weekly, biweekly, monthly, yearly, Span, days, months, span, months_between,
  start_of, period_start, next_start,
}
use cashcove.Finance.Periods.Starts.{
  nth_start, IsSpan, span-IsSpan, place, size, nth_start-place, next_of-nth,
}
use cashcove.Finance.Periods.Partition.{start_of-IsIn}

-- The places that are dates.
abbrev InRange : Span → ℤ → Type 0
InRange (days n) z = (pos 1 ≤ℤ z) × (z ≤ℤ pos last_ordinal)
InRange (months n) z = (pos first_index ≤ℤ z) × (z +ℤ pos 1 ≤ℤ pos end_index)

nth_start_total :
    (sp : Span) (anchor : Date) (k : ℤ)
    → IsValid anchor
    → InRange sp (pos (place sp anchor) +ℤ times k (size sp))
    → (s : Date) × (nth_start sp anchor k ≡ some s)
unfolding nth_start
nth_start_total (days n) anchor k v r = elim (Option-cases (add_days anchor (times k n))) [
  | inl e ↦ absurd (out (rw e at (add_days-Lands anchor (times k n))))
  | inr found ↦ found
]
  where
    out : Lands (pos (ordinal anchor) +ℤ times k n) none → ⊥
    out h = omega arith
nth_start_total (months n) anchor k v r = elim (Option-cases (shifted anchor (times k n))) [
  | inl e ↦ absurd (out (rw e at (shifted-ShiftsTo anchor (times k n) v)))
  | inr found ↦ found
]
  where
    out : ShiftsTo anchor (pos (month_index anchor) +ℤ times k n) none → ⊥
    out h = omega (arith, +ℤ_parts (pos (month_index anchor) +ℤ times k n) (pos 1))

abbrev pub IsMiddle : Date → Type 0
IsMiddle d = (3 ≤ d.year) × (d.year ≤ 9998)

-- Far enough from both ends for two periods.
abbrev HasRoom : Span → Date → Type 0
HasRoom (days n) d = (n ≤ 14) × ((20 ≤ ordinal d) × (ordinal d + 20 ≤ last_ordinal))
HasRoom (months n) d = (n ≤ 12) × ((36 ≤ month_index d) × (month_index d + 12 < end_index))

middle-index :
    (d : Date) → IsValid d → IsMiddle d → (36 ≤ month_index d) × (month_index d + 12 < end_index)
middle-index d v m = let parts = month_index_parts d v in omega arith

middle-ordinal :
    (d : Date) → IsValid d → IsMiddle d → (20 ≤ ordinal d) × (ordinal d + 20 ≤ last_ordinal)
middle-ordinal d v m =
    let i = middle-index d v m in
    unfold ordinal in
    omega (
      arith,
      v.day_in,
      day-le-index_length d v,
      index_start-suc (month_index d) (omega arith),
      index_start_mono 36 (month_index d) (omega arith) i.0,
      index_start_mono (suc (month_index d)) 119_988 (omega arith) (omega arith),
      year_edges,
    )

room : (period : BudgetPeriod) (d : Date) → IsValid d → IsMiddle d → HasRoom (span period) d
room weekly d v m = (omega arith, middle-ordinal d v m)
room biweekly d v m = (omega arith, middle-ordinal d v m)
room monthly d v m = (omega arith, middle-index d v m)
room yearly d v m = (omega arith, middle-index d v m)

module _ (anchor day : Date) (v : IsValid anchor) (w : IsValid day) (n : ℕ) (h : 0 < n) where
  abbrev Found : Span → Type 0
  Found sp = (s : Date) × (start_of sp anchor day ≡ some s)

  total_days : HasRoom (days n) day → Found (days n)
  unfolding start_of nth_start days_between
  total_days r =
      let z : ℤ = pos (ordinal day) -ℤ pos (ordinal anchor) in
      nth_start_total (days n) anchor (floor_div z n) v (
        omega (
          arith,
          floor_div_bounds z n h,
          +ℤ_parts (pos (ordinal anchor)) (times (floor_div z n) n),
          +ℤ_parts z (pos 1),
          -ℤ_parts (pos (ordinal day)) (pos (ordinal anchor)),
          +ℤ_parts (times (floor_div z n) n) (pos n),
        ),
        omega (
          arith,
          floor_div_bounds z n h,
          +ℤ_parts (pos (ordinal anchor)) (times (floor_div z n) n),
          -ℤ_parts (pos (ordinal day)) (pos (ordinal anchor)),
        ),
      )

  abbrev quotient : ℤ
  quotient = floor_div (pos (month_index day) -ℤ pos (month_index anchor)) n

  first_total :
      HasRoom (months n) day → (s : Date) × (nth_start (months n) anchor quotient ≡ some s)
  first_total r =
      let z : ℤ = pos (month_index day) -ℤ pos (month_index anchor) in
      nth_start_total (months n) anchor quotient v (
        omega (
          arith,
          floor_div_bounds z n h,
          +ℤ_parts (pos (month_index anchor)) (times quotient n),
          +ℤ_parts z (pos 1),
          -ℤ_parts (pos (month_index day)) (pos (month_index anchor)),
          +ℤ_parts (times quotient n) (pos n),
        ),
        omega (
          arith,
          floor_div_bounds z n h,
          +ℤ_parts (pos (month_index anchor)) (times quotient n),
          -ℤ_parts (pos (month_index day)) (pos (month_index anchor)),
          +ℤ_parts (pos (month_index anchor) +ℤ times quotient n) (pos 1),
        ),
      )

  second_total :
      HasRoom (months n) day
      → (s : Date) × (nth_start (months n) anchor (quotient -ℤ pos 1) ≡ some s)
  second_total r =
      let z : ℤ = pos (month_index day) -ℤ pos (month_index anchor) in
      nth_start_total (months n) anchor (quotient -ℤ pos 1) v (
        rw times-sub_one (
          omega (
            arith,
            floor_div_bounds z n h,
            +ℤ_parts (pos (month_index anchor)) (times quotient n -ℤ pos n),
            -ℤ_parts (times quotient n) (pos n),
            +ℤ_parts z (pos 1),
            -ℤ_parts (pos (month_index day)) (pos (month_index anchor)),
            +ℤ_parts (times quotient n) (pos n),
          ),
          omega (
            arith,
            floor_div_bounds z n h,
            +ℤ_parts (pos (month_index anchor)) (times quotient n -ℤ pos n),
            -ℤ_parts (times quotient n) (pos n),
            -ℤ_parts (pos (month_index day)) (pos (month_index anchor)),
            +ℤ_parts (pos (month_index anchor) +ℤ (times quotient n -ℤ pos n)) (pos 1),
          ),
        ))

  total_months : HasRoom (months n) day → Found (months n)
  unfolding start_of nth_start months_between
  total_months r =
      let (first, e) = first_total r in
      let (second, e') = second_total r in
      elim (Bool-cases (date_leb first day)) [
        | inl le ↦ (first, rw e (rw le refl))
        | inr gt ↦ (second, rw e (rw gt (rw (← times-sub_one) e')))
      ]

start_of_total :
    (sp : Span) (anchor day : Date)
    → IsSpan sp
    → IsValid anchor
    → IsValid day
    → HasRoom sp day
    → (s : Date) × (start_of sp anchor day ≡ some s)
start_of_total (days n) anchor day h v w r = total_days anchor day v w n h r
start_of_total (months n) anchor day h v w r = total_months anchor day v w n h r

place-le :
    (sp : Span) (s day : Date)
    → IsValid s
    → IsValid day
    → ordinal s ≤ ordinal day
    → (place sp s ≤ place sp day)
place-le (days n) s day v w h = h
place-le (months n) s day v w h = elim (dec_lt (month_index day) (month_index s)) [
  | yes lt ↦ absurd (omega (arith, month_index-ordinal day s w v lt))
  | no ge ↦ omega arith
]

next-InRange :
    (sp : Span) (anchor day s : Date) (k : ℤ)
    → IsValid s
    → HasRoom sp day
    → place sp s ≤ place sp day
    → pos (place sp s) ≡ pos (place sp anchor) +ℤ times k (size sp)
    → InRange sp (pos (place sp anchor) +ℤ times (k +ℤ pos 1) (size sp))
next-InRange (days n) anchor day s k v r le e = rw times-add_one (
  omega (
    arith,
    pos-eq_parts (ordinal s) _ e,
    ordinal_range s v,
    +ℤ_parts (pos (ordinal anchor)) (times k n),
    +ℤ_parts (pos (ordinal anchor)) (times k n +ℤ pos n),
    +ℤ_parts (times k n) (pos n),
  ),
  omega (
    arith,
    pos-eq_parts (ordinal s) _ e,
    +ℤ_parts (pos (ordinal anchor)) (times k n),
    +ℤ_parts (pos (ordinal anchor)) (times k n +ℤ pos n),
    +ℤ_parts (times k n) (pos n),
  ),
)
next-InRange (months n) anchor day s k v r le e = rw times-add_one (
  omega (
    arith,
    pos-eq_parts (month_index s) _ e,
    (month_index_parts s v).2,
    +ℤ_parts (pos (month_index anchor)) (times k n),
    +ℤ_parts (pos (month_index anchor)) (times k n +ℤ pos n),
    +ℤ_parts (times k n) (pos n),
  ),
  omega (
    arith,
    pos-eq_parts (month_index s) _ e,
    +ℤ_parts (pos (month_index anchor)) (times k n),
    +ℤ_parts (pos (month_index anchor)) (times k n +ℤ pos n),
    +ℤ_parts (times k n) (pos n),
    +ℤ_parts (pos (month_index anchor) +ℤ (times k n +ℤ pos n)) (pos 1),
  ),
)

-- For a day of the years 3 to 9998, and any anchor, the day's period has a start and so has the
-- next one; neither raises.
pub period_start_total :
    (period : BudgetPeriod) (anchor day : Date)
    → IsValid anchor
    → IsValid day
    → IsMiddle day
    → (s n : Date) × (period_start period anchor day ≡ some s)
      × (next_start period anchor s ≡ some n)
unfolding period_start next_start
period_start_total period anchor day v w m =
    let sp = span period in
    let h = span-IsSpan period in
    let r = room period day w m in
    let (s, e) = start_of_total sp anchor day h v w r in
    let here = start_of-IsIn sp anchor day s h v w e in
    let (vs, at) = nth_start-place sp anchor here.number s v here.starts in
    let (n, e') =
      nth_start_total sp anchor (here.number +ℤ pos 1) v
        (next-InRange sp anchor day s here.number vs r (place-le sp s day vs w here.begun) at) in
    (s, n, e, next_of-nth sp anchor here.number s h v here.starts ∙ e')
