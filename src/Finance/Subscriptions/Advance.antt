-- ===== src/Finance/Subscriptions/Advance.antt =====
-- Where the loop over the due dates stops, and where a payment moves the next due date to.
use cashcove.Base.{
  ℕ, zero, suc, ◌+◌, ◌≤◌, ◌<◌, ◌≡◌, refl, ap, ◌⊎◌, Bool, true, false, Option, none, some,
  Bool-cases, inl, inr, ltb, arith, pos, ◌+ℤ◌, +ℤ_parts,
}
use cashcove.Base.Division.{pos-eq_parts}
use cashcove.Calendar.{Date, ordinal, add_days}
use cashcove.Calendar.Months.{IsValid}
use cashcove.Calendar.Days.{Lands, add_days-Lands}
use cashcove.Finance.Store.{PaymentFrequency, weekly, Subscription}
use cashcove.Finance.Subscriptions.{
  Outcome, ok, raises, stuck, early, due_after, count_before, moved, advance_due_date,
}
use cashcove.Finance.Subscriptions.Schedule.{due_after-Spread, due_after_mono, due_after_zero}

-- The payment with this number is due before the limit, or on it or after it.
abbrev pub IsBefore : Date → PaymentFrequency → ℕ → ℕ → Type 0
IsBefore due frequency limit j =
    (day : Date) × (due_after due frequency j ≡ some day) × (ordinal day < limit)

abbrev pub IsFrom : Date → PaymentFrequency → ℕ → ℕ → Type 0
IsFrom due frequency limit j =
    (day : Date) × (due_after due frequency j ≡ some day) × (limit ≤ ordinal day)

-- What the loop from `start` finds: the first payment that is due on the limit or after it, or a
-- payment whose date is out of range; it never runs out of fuel.
abbrev pub Finds : Date → PaymentFrequency → ℕ → ℕ → Outcome ℕ → Type 0
Finds due frequency limit start (ok c) =
    (start ≤ c)
    × IsFrom due frequency limit c
    × ((j : ℕ) → start ≤ j → j < c → IsBefore due frequency limit j)
Finds due frequency limit start raises = (c : ℕ) × (due_after due frequency c ≡ none)
Finds due frequency limit start stuck = ⊥

module _ (due : Date) (frequency : PaymentFrequency) (limit : ℕ) (v : IsValid due) where
  from_next :
      (start : ℕ) (r : Outcome ℕ)
      → IsBefore due frequency limit start
      → Finds due frequency limit (start + 1) r
      → Finds due frequency limit start r
  from_next start (ok c) b (le, found, all) = (
    omega arith,
    found,
    λ j lo hi. elim (Bool-cases (ltb start j)) [
      | inl e ↦ all j (ground arith) hi
      | inr e ↦ let same : start ≡ j = ground arith in rw (← same) b
    ],
  )
  from_next start raises b r = r
  from_next start stuck b r = r

  -- One round of the loop, given what the rest of it finds.
  tested :
      (start : ℕ) (day : Date) (rest : Outcome ℕ) (b : Bool)
      → due_after due frequency start ≡ some day
      → ltb (ordinal day) limit ≡ b
      → (IsBefore due frequency limit start → Finds due frequency limit (start + 1) rest)
      → Finds due frequency limit start (elim b [ true ↦ rest | false ↦ ok start ])
  tested start day rest true e t ih =
      let b : IsBefore due frequency limit start = (day, e, ground arith) in
      from_next start rest b (ih b)
  tested start day rest false e t ih =
      (omega arith, (day, e, ground arith), λ j a b. absurd (omega arith))

  round :
      (start : ℕ) (rest : Outcome ℕ) (o : Option Date)
      → due_after due frequency start ≡ o
      → (IsBefore due frequency limit start → Finds due frequency limit (start + 1) rest)
      → Finds due frequency limit start (elim o [
        | none ↦ raises
        | some day ↦ elim (ltb (ordinal day) limit) [ true ↦ rest | false ↦ ok start ]
      ])
  round start rest none e ih = (start, e)
  round start rest (some day) e ih = tested start day rest (ltb (ordinal day) limit) e refl ih

  pub count_before-Finds :
      (fuel start : ℕ)
      → start ≤ limit
      → limit < start + fuel
      → Finds due frequency limit start (count_before fuel due frequency limit start)
  unfolding count_before
  count_before-Finds zero start lo hi = absurd (omega arith)
  count_before-Finds (suc fuel) start lo hi =
      round start (count_before fuel due frequency limit (start + 1))
        (due_after due frequency start) refl
        (λ b.
          count_before-Finds fuel (start + 1)
            (omega (arith, due_after-Spread due b.0 frequency start v b.1, b.2)) (omega arith))

  -- There is one such payment only.
  pub Finds-unique :
      (start c j : ℕ)
      → Finds due frequency limit start (ok c)
      → start ≤ j
      → IsBefore due frequency limit j ⊎ IsFrom due frequency limit j
      → (j < c → IsBefore due frequency limit j) × (c ≤ j → IsFrom due frequency limit j)
  Finds-unique start c j (le, (day, e, ge), all) lo h = (λ lt. all j lo lt, λ ge'. from h ge')
    where
      from :
          IsBefore due frequency limit j ⊎ IsFrom due frequency limit j
          → c ≤ j
          → IsFrom due frequency limit j
      from (inr f) le' = f
      from (inl (d, e', lt)) le' = elim (Bool-cases (ltb c j)) [
        | inl after ↦
            absurd (omega (arith, due_after_mono due day d frequency c j v e e' (ground arith)))
        | inr same ↦
            let q : c ≡ j = ground arith in
            let q' : day ≡ d = cc (e, e', q) in absurd (omega (arith, ap ordinal q'))
      ]

-- How a payment made on the day with ordinal `paid` leaves the subscription: its next due date is
-- the first one of its old schedule that is later than the payment by more than what counts as
-- early, and nothing else of it changes. Where that raises, a date of the schedule or the last day
-- settled is out of range.
abbrev pub Settles : Subscription → ℕ → Outcome Subscription → Type 0
Settles s paid (ok s') =
    (c : ℕ) × (due_after s.next_due_date s.frequency c ≡ some s'.next_due_date)
    × (paid + early s.frequency < ordinal s'.next_due_date)
    × ((j : ℕ) → j < c → IsBefore s.next_due_date s.frequency (paid + early s.frequency + 1) j)
    × (s' ≡ record s { next_due_date = s'.next_due_date })
Settles s paid raises =
    ((c : ℕ) × (due_after s.next_due_date s.frequency c ≡ none))
    ⊎ (3_652_059 < paid + early s.frequency)
Settles s paid stuck = ⊥

stepped :
    (s : Subscription) (paid c : ℕ) (o : Option Date)
    → due_after s.next_due_date s.frequency (suc c) ≡ o
    → Finds s.next_due_date s.frequency (paid + early s.frequency + 1) 0 (ok (suc c))
    → Settles s paid (elim o [ none ↦ raises | some day ↦ ok (record s { next_due_date = day }) ])
stepped s paid c none e f = inl (suc c, e)
stepped s paid c (some day) e (le, (found, e', ge), all) =
    let same : found ≡ day = cc in
    (suc c, e, rw (← same) (omega arith), λ j lt. all j (omega arith) lt, refl)

moved-Settles :
    (s : Subscription) (paid : ℕ) (r : Outcome ℕ)
    → due_after s.next_due_date s.frequency 0 ≡ some s.next_due_date
    → Finds s.next_due_date s.frequency (paid + early s.frequency + 1) 0 r
    → Settles s paid (elim r [ ok cycles ↦ moved s cycles | raises ↦ raises | stuck ↦ stuck ])
moved-Settles s paid (ok zero) z (le, (day, e, ge), all) =
    let same : day ≡ s.next_due_date = cc in
    (0, z, rw (← same) (omega arith), λ j lt. all j (omega arith) lt, refl)
moved-Settles s paid (ok (suc c)) z f =
    stepped s paid c (due_after s.next_due_date s.frequency (suc c)) refl f
moved-Settles s paid raises z f = inl f
moved-Settles s paid stuck z f = f

early-pos : (frequency : PaymentFrequency) → 1 ≤ early frequency
early-pos weekly = omega arith
early-pos _ = omega arith

settled-Settles :
    (s : Subscription) (paid : ℕ) (o : Option Date)
    → IsValid s.next_due_date
    → Lands (pos paid +ℤ pos (early s.frequency)) o
    → Settles s paid (elim o [
      | none ↦ raises
      | some settled ↦
          elim (count_before
            (ordinal settled + 2)
            s.next_due_date
            s.frequency
            (ordinal settled + 1)
            0) [ ok cycles ↦ moved s cycles | raises ↦ raises | stuck ↦ stuck ]
    ])
settled-Settles s paid none v h =
    inr (omega (arith, early-pos s.frequency, +ℤ_parts (pos paid) (pos (early s.frequency))))
settled-Settles s paid (some settled) v (valid, at) =
    let same : ordinal settled ≡ paid + early s.frequency =
      omega (
        arith,
        pos-eq_parts (ordinal settled) _ at,
        +ℤ_parts (pos paid) (pos (early s.frequency)),
      ) in
    rw same (
      moved-Settles s paid _ (due_after_zero s.next_due_date s.frequency v) (
        count_before-Finds s.next_due_date s.frequency (paid + early s.frequency + 1) v
          (paid + early s.frequency + 2) 0 (omega arith) (omega arith)))

-- A payment moves the next due date past every date it settles, to the first later one of the same
-- schedule, counted from the date it had, and changes nothing else; the loop always ends.
pub advance_due_date-Settles :
    (s : Subscription) (paid_on : Date)
    → IsValid s.next_due_date
    → Settles s (ordinal paid_on) (advance_due_date s paid_on)
unfolding advance_due_date
advance_due_date-Settles s paid_on v =
    settled-Settles s (ordinal paid_on) (add_days paid_on (pos (early s.frequency))) v
      (add_days-Lands paid_on (pos (early s.frequency)))

-- Nothing of a subscription changes but when it is next due.
unfoldable pub OnlyDue : Subscription → Outcome Subscription → Type 0
OnlyDue s (ok s') = s' ≡ record s { next_due_date = s'.next_due_date }
OnlyDue s raises = Unit
OnlyDue s stuck = Unit

moved-OnlyDue : (s : Subscription) (cycles : ℕ) → OnlyDue s (moved s cycles)
unfolding OnlyDue
moved-OnlyDue s zero = refl
moved-OnlyDue s (suc cycles) =
    elim (due_after s.next_due_date s.frequency (suc cycles))
      as (λ o.
        OnlyDue s (elim o [ none ↦ raises | some day ↦ ok (record s { next_due_date = day }) ])) [
          | none ↦ tt
          | some day ↦ refl
        ]

counted-OnlyDue :
    (s : Subscription) (counted : Outcome ℕ)
    → OnlyDue s (elim counted [ ok cycles ↦ moved s cycles | raises ↦ raises | stuck ↦ stuck ])
unfolding OnlyDue
counted-OnlyDue s (ok cycles) = moved-OnlyDue s cycles
counted-OnlyDue s raises = tt
counted-OnlyDue s stuck = tt

settled-OnlyDue :
    (s : Subscription) (o : Option Date)
    → OnlyDue s (elim o [
      | none ↦ raises
      | some settled ↦
          elim (count_before
            (ordinal settled + 2)
            s.next_due_date
            s.frequency
            (ordinal settled + 1)
            0) [ ok cycles ↦ moved s cycles | raises ↦ raises | stuck ↦ stuck ]
    ])
unfolding OnlyDue
settled-OnlyDue s none = tt
settled-OnlyDue s (some settled) = counted-OnlyDue s _

-- Moving the due date on, whether it raises or not, changes nothing else of a subscription.
pub advance_due_date-OnlyDue :
    (s : Subscription) (paid_on : Date) → OnlyDue s (advance_due_date s paid_on)
unfolding advance_due_date
advance_due_date-OnlyDue s paid_on = settled-OnlyDue s (add_days paid_on (pos (early s.frequency)))
