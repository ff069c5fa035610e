-- ===== src/Finance/Periods/Starts.antt =====
-- The starts of the periods counted from an anchor: the k-th one, for every integer k.
use cashcove.Base.{
  ℕ, ◌<◌, ◌≡◌, refl, Option, some, arith, ℤ, pos, ◌+ℤ◌, ◌-ℤ◌, ◌≤ℤ◌, +ℤ_parts, -ℤ_parts, eq_of_parts,
}
use cashcove.Base.Division.{
  floor_div, times, times-add_one, times_mono, floor_div-times, pos-eq_parts,
}
use cashcove.Calendar.{Date, month_index, ordinal, add_days, shifted}
use cashcove.Calendar.Months.{IsValid, month_index-ordinal}
use cashcove.Calendar.Days.{add_days-Lands, add_days_same, shifted-ShiftsTo}
use cashcove.Finance.Periods.{
  BudgetPeriod, weekly, biweekly, monthly, yearly, Span, days, months, span, months_between,
  next_of,
}

unfoldable pub nth_start : Span → Date → ℤ → Option Date
nth_start (days n) anchor k = add_days anchor (times k n)
nth_start (months n) anchor k = shifted anchor (times k n)

abbrev pub IsSpan : Span → Type 0
IsSpan (days n) = 0 < n
IsSpan (months n) = 0 < n

pub span-IsSpan : (period : BudgetPeriod) → IsSpan (span period)
span-IsSpan weekly = omega arith
span-IsSpan biweekly = omega arith
span-IsSpan monthly = omega arith
span-IsSpan yearly = omega arith

-- Where a date stands, in days or in months, as the span counts.
abbrev pub place : Span → Date → ℕ
place (days n) d = ordinal d
place (months n) d = month_index d

abbrev pub size : Span → ℕ
size (days n) = n
size (months n) = n

-- The k-th start is a valid date, k times the span from the anchor.
pub nth_start-place :
    (sp : Span) (anchor : Date) (k : ℤ) (s : Date)
    → IsValid anchor
    → nth_start sp anchor k ≡ some s
    → IsValid s × (pos (place sp s) ≡ pos (place sp anchor) +ℤ times k (size sp))
unfolding nth_start
nth_start-place (days n) anchor k s v e = rw e at (add_days-Lands anchor (times k n))
nth_start-place (months n) anchor k s v e =
    let (valid, index, _) = rw e at (shifted-ShiftsTo anchor (times k n) v) in (valid, index)

place-lt :
    (sp : Span) (a b : Date)
    → IsValid a
    → IsValid b
    → place sp a < place sp b
    → ordinal a < ordinal b
place-lt (days n) a b va vb h = h
place-lt (months n) a b va vb h = month_index-ordinal a b va vb h

size-pos : (sp : Span) → IsSpan sp → 0 < size sp
size-pos (days n) h = h
size-pos (months n) h = h

-- Two places at J and K from one origin, K at least n past J.
offset_lt :
    (origin s t n : ℕ) (J K : ℤ)
    → 0 < n
    → pos s ≡ pos origin +ℤ J
    → pos t ≡ pos origin +ℤ K
    → J +ℤ pos n ≤ℤ K
    → s < t
offset_lt origin s t n J K h p q le = omega (
  arith,
  pos-eq_parts s _ p,
  pos-eq_parts t _ q,
  +ℤ_parts (pos origin) J,
  +ℤ_parts (pos origin) K,
  +ℤ_parts J (pos n),
)

-- A later start is a later day.
pub nth_start_mono :
    (sp : Span) (anchor : Date) (j k : ℤ) (s t : Date)
    → IsSpan sp
    → IsValid anchor
    → nth_start sp anchor j ≡ some s
    → nth_start sp anchor k ≡ some t
    → j +ℤ pos 1 ≤ℤ k
    → ordinal s < ordinal t
nth_start_mono sp anchor j k s t h v es et lt =
    let ps = nth_start-place sp anchor j s v es in
    let pt = nth_start-place sp anchor k t v et in
    place-lt sp s t ps.0 pt.0 (
      offset_lt (place sp anchor) (place sp s) (place sp t) (size sp) (times j (size sp))
        (times k (size sp)) (size-pos sp h) ps.1 pt.1 (times_mono j k (size sp) lt))

months_from :
    (origin s n : ℕ) (k : ℤ)
    → 0 < n
    → pos s ≡ pos origin +ℤ times k n
    → floor_div (pos s -ℤ pos origin) n ≡ k
months_from origin s n k h e =
    let same : pos s -ℤ pos origin ≡ times k n = eq_of_parts _ _ (
      omega (
        arith,
        pos-eq_parts s _ e,
        +ℤ_parts (pos origin) (times k n),
        -ℤ_parts (pos s) (pos origin),
      )) in
    rw same (floor_div-times k n h)

-- The start after the k-th one is the next.
pub next_of-nth :
    (sp : Span) (anchor : Date) (k : ℤ) (s : Date)
    → IsSpan sp
    → IsValid anchor
    → nth_start sp anchor k ≡ some s
    → next_of sp anchor s ≡ nth_start sp anchor (k +ℤ pos 1)
unfolding nth_start next_of months_between
next_of-nth (days n) anchor k s h v e =
    let (_, place) = nth_start-place (days n) anchor k s v e in
    add_days_same s anchor (pos n) (times (k +ℤ pos 1) n) (
      rw (times-add_one k n) (
        eq_of_parts _ _ (
          omega (
            arith,
            pos-eq_parts (ordinal s) _ place,
            +ℤ_parts (pos (ordinal anchor)) (times k n),
            +ℤ_parts (pos (ordinal s)) (pos n),
            +ℤ_parts (times k n) (pos n),
            +ℤ_parts (pos (ordinal anchor)) (times k n +ℤ pos n),
          ))))
next_of-nth (months n) anchor k s h v e =
    let (_, place) = nth_start-place (months n) anchor k s v e in
    rw (months_from (month_index anchor) (month_index s) n k h place) refl
