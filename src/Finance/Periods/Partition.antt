-- ===== src/Finance/Periods/Partition.antt =====
-- Every day is in exactly one period.
use cashcove.Base.{
  ℕ, ◌≤◌, ◌<◌, ◌≡◌, sym, ◌∙◌, true, ◌⊎◌, some, >>=-eq-some, Bool-cases, inl, inr, arith, ℤ, pos,
  ◌+ℤ◌, ◌-ℤ◌, ◌≤ℤ◌, +ℤ_parts, -ℤ_parts, int_laws,
}
use cashcove.Base.Division.{
  floor_div, times, times-sub_one, times_mono, floor_div_bounds, pos-eq_parts, ℤ-cases,
}
use cashcove.Calendar.{Date, month_index, ordinal, days_between, date_leb, shifted}
use cashcove.Calendar.Months.{IsValid, month_index-ordinal}
use cashcove.Finance.Periods.{
  BudgetPeriod, Span, days, months, span, months_between, start_of, period_start, next_start,
}
use cashcove.Finance.Periods.Starts.{
  nth_start, IsSpan, span-IsSpan, nth_start-place, nth_start_mono, next_of-nth,
}

-- The period with number k is the one that the day is in: it starts on `s`, on or before the day,
-- and every later one, if its start is a date, starts after it.
pub record IsIn (sp : Span) (anchor day s : Date) : Type 0 where
  pub number : ℤ
  pub starts : nth_start sp anchor number ≡ some s
  pub begun : ordinal s ≤ ordinal day
  pub before_later :
      (j : ℤ) (t : Date)
      → number +ℤ pos 1 ≤ℤ j
      → nth_start sp anchor j ≡ some t
      → ordinal day < ordinal t

module _ (anchor day : Date) (v : IsValid anchor) (w : IsValid day) (n : ℕ) (h : 0 < n) where
  days-IsIn : (s : Date) → start_of (days n) anchor day ≡ some s → IsIn (days n) anchor day s
  unfolding start_of nth_start days_between
  days-IsIn s e =
      let q : ℤ = floor_div (pos (ordinal day) -ℤ pos (ordinal anchor)) n in
      let bounds = floor_div_bounds (pos (ordinal day) -ℤ pos (ordinal anchor)) n h in
      let here = nth_start-place (days n) anchor q s v e in
      record {
        number = q;
        starts = e;
        begun = omega (
          arith,
          bounds,
          pos-eq_parts (ordinal s) _ here.1,
          +ℤ_parts (pos (ordinal anchor)) (times q n),
          -ℤ_parts (pos (ordinal day)) (pos (ordinal anchor)),
        );
        before_later = λ j t lt e'.
            let there = nth_start-place (days n) anchor j t v e' in
            omega (
              arith,
              bounds,
              pos-eq_parts (ordinal t) _ there.1,
              times_mono q j n lt,
              +ℤ_parts (pos (ordinal anchor)) (times j n),
              +ℤ_parts (times q n) (pos n),
              +ℤ_parts (pos (ordinal day) -ℤ pos (ordinal anchor)) (pos 1),
              -ℤ_parts (pos (ordinal day)) (pos (ordinal anchor)),
            );
      }

  -- The first candidate of a period of months.
  abbrev quotient : ℤ
  quotient = floor_div (pos (month_index day) -ℤ pos (month_index anchor)) n

  months-le :
      (s : Date)
      → nth_start (months n) anchor quotient ≡ some s
      → date_leb s day ≡ true
      → IsIn (months n) anchor day s
  months-le s e le = record {
    number = quotient;
    starts = e;
    begun = ground arith;
    before_later = λ j t lt e'.
        let there = nth_start-place (months n) anchor j t v e' in
        month_index-ordinal day t w there.0 (
          omega (
            arith,
            floor_div_bounds (pos (month_index day) -ℤ pos (month_index anchor)) n h,
            pos-eq_parts (month_index t) _ there.1,
            times_mono quotient j n lt,
            +ℤ_parts (pos (month_index anchor)) (times j n),
            +ℤ_parts (times quotient n) (pos n),
            +ℤ_parts (pos (month_index day) -ℤ pos (month_index anchor)) (pos 1),
            -ℤ_parts (pos (month_index day)) (pos (month_index anchor)),
          ));
  }

  months-gt :
      (s first : Date)
      → nth_start (months n) anchor quotient ≡ some first
      → ordinal day < ordinal first
      → nth_start (months n) anchor (quotient -ℤ pos 1) ≡ some s
      → IsIn (months n) anchor day s
  months-gt s first e gt e' = record {
    number = quotient -ℤ pos 1;
    starts = e';
    begun =
        let here = nth_start-place (months n) anchor (quotient -ℤ pos 1) s v e' in
        let earlier : ordinal s < ordinal day = month_index-ordinal s day here.0 w (
          omega (
            arith,
            floor_div_bounds (pos (month_index day) -ℤ pos (month_index anchor)) n h,
            pos-eq_parts (month_index s) _ (rw times-sub_one at (here.1)),
            +ℤ_parts (pos (month_index anchor)) (times quotient n -ℤ pos n),
            -ℤ_parts (times quotient n) (pos n),
            -ℤ_parts (pos (month_index day)) (pos (month_index anchor)),
          )) in
        omega arith;
    before_later = λ j t lt e''. elim (ℤ-cases quotient j) [
      | inl later ↦
          let after = nth_start_mono (months n) anchor quotient j first t h v e e'' later in
          omega arith
      | inr (inl earlier) ↦ absurd (omega int_laws)
      | inr (inr same) ↦ let gt' : first ≡ t = cc (e, e'', same) in rw (← gt') gt
    ];
  }

  months-IsIn : (s : Date) → start_of (months n) anchor day ≡ some s → IsIn (months n) anchor day s
  unfolding start_of nth_start months_between
  months-IsIn s e =
      let (first, found, rest) = >>=-eq-some (shifted anchor (times quotient n)) _ e in
      elim (Bool-cases (date_leb first day)) [
        | inl le ↦
            let same : first ≡ s = cc (rw le at rest) in
            months-le s (rw same at found) (rw same at le)
        | inr gt ↦ months-gt s first found (ground arith) (rw times-sub_one (rw gt at rest))
      ]

pub start_of-IsIn :
    (sp : Span) (anchor day s : Date)
    → IsSpan sp
    → IsValid anchor
    → IsValid day
    → start_of sp anchor day ≡ some s
    → IsIn sp anchor day s
start_of-IsIn (days n) anchor day s h v w e = days-IsIn anchor day v w n h s e
start_of-IsIn (months n) anchor day s h v w e = months-IsIn anchor day v w n h s e

-- The period that a day is in starts on or before the day, and the next one starts after it.
pub period_start_holds :
    (period : BudgetPeriod) (anchor day s n : Date)
    → IsValid anchor
    → IsValid day
    → period_start period anchor day ≡ some s
    → next_start period anchor s ≡ some n
    → (ordinal s ≤ ordinal day) × (ordinal day < ordinal n)
unfolding period_start next_start
period_start_holds period anchor day s n v w e e' =
    let here = start_of-IsIn (span period) anchor day s (span-IsSpan period) v w e in
    (
      here.begun,
      here.before_later (here.number +ℤ pos 1) n (omega arith) (
          sym (next_of-nth (span period) anchor here.number s (span-IsSpan period) v here.starts)
          ∙ e'),
    )

-- Two days of one period have one start.
module _ (sp : Span) (anchor : Date) (h : IsSpan sp) (v : IsValid anchor) where
  starts_le :
      (j k : ℤ) (s t : Date)
      → nth_start sp anchor j ≡ some s
      → nth_start sp anchor k ≡ some t
      → (j +ℤ pos 1 ≤ℤ k) ⊎ (j ≡ k)
      → ordinal s ≤ ordinal t
  starts_le j k s t e e' (inl lt) =
      let q = nth_start_mono sp anchor j k s t h v e e' lt in omega arith
  starts_le j k s t e e' (inr same) = let q : s ≡ t = cc (e, e', same) in rw q (omega arith)

  IsIn-same :
      (day other s t n : Date)
      → (a : IsIn sp anchor day s) → IsIn sp anchor other t
      → nth_start sp anchor (a.number +ℤ pos 1) ≡ some n
      → ordinal s ≤ ordinal other
      → ordinal other < ordinal n
      → t ≡ s
  IsIn-same day other s t n a b e lo hi = elim (ℤ-cases a.number b.number) [
    | inl lt ↦ absurd (elim (ℤ-cases (a.number +ℤ pos 1) b.number) [
      | inl far ↦ omega (arith, b.begun, starts_le _ _ n t e b.starts (inl far))
      | inr (inl back) ↦ omega int_laws
      | inr (inr next) ↦ omega (arith, b.begun, starts_le _ _ n t e b.starts (inr next))
    ])
    | inr (inl gt) ↦ absurd (omega (arith, b.before_later a.number s gt a.starts))
    | inr (inr same) ↦ cc (a.starts, b.starts, same)
  ]

-- Any day from the start of a period to the day before the next one is in that period, and in no
-- other: its period starts on the same day.
pub period_start_unique :
    (period : BudgetPeriod) (anchor day other s n t : Date)
    → IsValid anchor
    → IsValid day
    → IsValid other
    → period_start period anchor day ≡ some s
    → next_start period anchor s ≡ some n
    → ordinal s ≤ ordinal other
    → ordinal other < ordinal n
    → period_start period anchor other ≡ some t
    → t ≡ s
unfolding period_start next_start
period_start_unique period anchor day other s n t v w w' e e' lo hi e'' =
    let a = start_of-IsIn (span period) anchor day s (span-IsSpan period) v w e in
    let b = start_of-IsIn (span period) anchor other t (span-IsSpan period) v w' e'' in
    IsIn-same (span period) anchor (span-IsSpan period) v day other s t n a b
      (sym (next_of-nth (span period) anchor a.number s (span-IsSpan period) v a.starts) ∙ e') lo hi
