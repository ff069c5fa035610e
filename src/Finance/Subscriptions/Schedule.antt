-- ===== src/Finance/Subscriptions/Schedule.antt =====
-- The due dates as a sequence: each is a date of the schedule, and they increase.
use cashcove.Base.{
  ℕ, ◌+◌, ◌*◌, ◌≤◌, ◌<◌, ◌≡◌, refl, ◌∙◌, sym, ap, Option, some, none, arith, pos, ◌+ℤ◌, +ℤ_parts,
  eq_of_parts,
}
use cashcove.Base.Division.{times, times_parts, pos-eq_parts}
use cashcove.Calendar.{Date, month_index, index_length, days_in_month, ordinal, add_days, shifted}
use cashcove.Calendar.Months.{
  IsValid, month_index_parts, index_start_steps, ordinal_range, ordinal_inj, month_index-day_inj,
  day-le-index_length,
}
use cashcove.Calendar.Days.{Lands, add_days-Lands, ShiftsTo, shifted-ShiftsTo}
use cashcove.Finance.Periods.{Span, days, months}
use cashcove.Finance.Periods.Starts.{nth_start, IsSpan, nth_start-place, nth_start_mono}
use cashcove.Finance.Store.{
  PaymentFrequency, weekly, biweekly, monthly, bimonthly, quarterly, semiannual, annual,
}
use cashcove.Finance.Subscriptions.{span, longest, after_span, due_after}

pub span-IsSpan : (frequency : PaymentFrequency) → IsSpan (span frequency)
span-IsSpan weekly = omega arith
span-IsSpan biweekly = omega arith
span-IsSpan monthly = omega arith
span-IsSpan bimonthly = omega arith
span-IsSpan quarterly = omega arith
span-IsSpan semiannual = omega arith
span-IsSpan annual = omega arith

times-pos : (c n : ℕ) → times (pos c) n ≡ pos (n * c)
times-pos c n = eq_of_parts _ _ (omega (arith, times_parts (pos c) n))

after-nth :
    (sp : Span) (due : Date) (cycles : ℕ) → after_span sp due cycles ≡ nth_start sp due (pos cycles)
unfolding after_span nth_start
after-nth (days n) due cycles = rw times-pos refl
after-nth (months n) due cycles = rw times-pos refl

-- The due date after `cycles` payments is the start with that number of the periods counted from
-- the first due date.
pub due_after-nth :
    (due : Date) (frequency : PaymentFrequency) (cycles : ℕ)
    → due_after due frequency cycles ≡ nth_start (span frequency) due (pos cycles)
unfolding due_after
due_after-nth due frequency cycles = after-nth (span frequency) due cycles

-- How far the schedule has come by then: at least a day for each payment, and at most the longest
-- time between two.
abbrev pub Spread : Span → Date → ℕ → Date → Type 0
Spread sp due cycles day =
    IsValid day × (cycles < ordinal day) × (ordinal day ≤ ordinal due + longest sp * cycles)

pub le-mul : (n c : ℕ) → 0 < n → c ≤ n * c
le-mul n c h = grind arith

after-Spread :
    (sp : Span) (due day : Date) (cycles : ℕ)
    → IsSpan sp
    → IsValid due
    → after_span sp due cycles ≡ some day
    → Spread sp due cycles day
unfolding after_span
after-Spread (days n) due day cycles h v e =
    let (valid, at) =
      nth_start-place (days n) due (pos cycles) day v (sym (after-nth (days n) due cycles) ∙ e) in
    let parts = pos-eq_parts (ordinal day) _ (rw times-pos at at) in
    (
      valid,
      omega (
        arith,
        parts,
        le-mul n cycles h,
        +ℤ_parts (pos (ordinal due)) (pos (n * cycles)),
        day_pos,
      ),
      omega (arith, parts, +ℤ_parts (pos (ordinal due)) (pos (n * cycles))),
    )
  where
    day_pos : 1 ≤ ordinal due
    day_pos = unfold ordinal in omega (arith, v.day_in)
after-Spread (months n) due day cycles h v e =
    let (valid, at, clamped) = rw e at (shifted-ShiftsTo due (pos (n * cycles)) v) in
    let parts = pos-eq_parts (month_index day) _ at in
    let index : month_index day ≡ month_index due + n * cycles =
      omega (arith, parts, +ℤ_parts (pos (month_index due)) (pos (n * cycles))) in
    let steps = index_start_steps (month_index due) (n * cycles) ((month_index_parts due v).2) in
    unfold ordinal in
    rw index
      (valid, omega (arith, steps, le-mul n cycles h, valid.day_in), omega (arith, steps, clamped))

pub due_after-Spread :
    (due day : Date) (frequency : PaymentFrequency) (cycles : ℕ)
    → IsValid due
    → due_after due frequency cycles ≡ some day
    → Spread (span frequency) due cycles day
unfolding due_after
due_after-Spread due day frequency cycles v e =
    after-Spread (span frequency) due day cycles (span-IsSpan frequency) v e

-- A later payment is due on a later day.
pub due_after_mono :
    (due a b : Date) (frequency : PaymentFrequency) (j k : ℕ)
    → IsValid due
    → due_after due frequency j ≡ some a
    → due_after due frequency k ≡ some b
    → j < k
    → ordinal a < ordinal b
due_after_mono due a b frequency j k v ea eb lt =
    nth_start_mono (span frequency) due (pos j) (pos k) a b (span-IsSpan frequency) v
      (sym (due_after-nth due frequency j) ∙ ea) (sym (due_after-nth due frequency k) ∙ eb)
      (omega (arith, +ℤ_parts (pos j) (pos 1)))

zeroth_days :
    (due : Date) (o : Option Date)
    → IsValid due
    → Lands (pos (ordinal due) +ℤ pos 0) o
    → o ≡ some due
zeroth_days due none v h =
    absurd (omega (arith, ordinal_range due v, +ℤ_parts (pos (ordinal due)) (pos 0)))
zeroth_days due (some d) v h = ap some (
    ordinal_inj d due h.0 v
      (omega (arith, pos-eq_parts (ordinal d) _ h.1, +ℤ_parts (pos (ordinal due)) (pos 0))))

zeroth_months :
    (due : Date) (o : Option Date)
    → IsValid due
    → ShiftsTo due (pos (month_index due) +ℤ pos 0) o
    → o ≡ some due
zeroth_months due none v h =
    let parts = month_index_parts due v in
    absurd (omega (arith, parts, +ℤ_parts (pos (month_index due)) (pos 0)))
zeroth_months due (some d) v (valid, at, clamped) =
    let same : month_index d ≡ month_index due =
      omega (arith, pos-eq_parts (month_index d) _ at, +ℤ_parts (pos (month_index due)) (pos 0)) in
    let pd = month_index_parts d valid in
    let whole : index_length (month_index d) ≡ days_in_month d.year d.month =
      unfold index_length in rw (pd.0, pd.1) refl in
    let fits : due.day ≤ days_in_month d.year d.month =
      rw (← whole, same) (day-le-index_length due v) in
    ap some (month_index-day_inj d due valid v same (omega arith))

zeroth : (sp : Span) (due : Date) → IsValid due → after_span sp due 0 ≡ some due
unfolding after_span
zeroth (days n) due v =
    let none_more : n * 0 ≡ 0 = omega arith in
    rw none_more (zeroth_days due (add_days due (pos 0)) v (add_days-Lands due (pos 0)))
zeroth (months n) due v =
    let none_more : n * 0 ≡ 0 = omega arith in
    rw none_more (zeroth_months due (shifted due (pos 0)) v (shifted-ShiftsTo due (pos 0) v))

-- The payment with number 0 is the one counted from.
pub due_after_zero :
    (due : Date) (frequency : PaymentFrequency) → IsValid due → due_after due frequency 0 ≡ some due
unfolding due_after
due_after_zero due frequency v = zeroth (span frequency) due v
