-- ===== src/Finance/Subscriptions/Due.antt =====
-- Which days `due_dates` lists.
use cashcove.Base.{
  ℕ, suc, ◌+◌, ◌*◌, ◌≤◌, ◌<◌, ◌≡◌, refl, ap, inl, inr, false, some, none, List, [], ◌∷◌, All, Any,
  ltb, leb, Bool-cases, arith,
}
use cashcove.Calendar.{Date, ordinal}
use cashcove.Calendar.Months.{IsValid}
use cashcove.Finance.Store.{PaymentFrequency}
use cashcove.Finance.Subscriptions.{
  Outcome, ok, raises, stuck, span, longest, due_after, count_before, collect, first_guess,
  dates_from,
}
use cashcove.Finance.Subscriptions.Schedule.{
  le-mul, span-IsSpan, due_after-Spread, due_after_mono, due_after_zero,
}
use cashcove.Finance.Subscriptions.Advance.{Finds, IsBefore, count_before-Finds}
use cashcove.Finance.Subscriptions.Coming.{
  IsRising, Lists, collect-Lists, longest-pos, first_guess-bound,
}

-- The days from `first` to `last` on which payments are due: each day listed is one of them, and
-- each of them is listed, in order. Where that raises, a date of the schedule is out of range.
abbrev pub ListsDue : Date → PaymentFrequency → Date → Date → Outcome (List Date) → Type 0
ListsDue due frequency first last (ok ds) =
    All
      (λ d.
        (c : ℕ) × (due_after due frequency c ≡ some d)
        × (ordinal first ≤ ordinal d)
        × (ordinal d ≤ ordinal last))
      ds
    × ((j : ℕ) (day : Date)
        → due_after due frequency j ≡ some day
        → ordinal first ≤ ordinal day
        → ordinal day ≤ ordinal last
        → Any (λ d. d ≡ day) ds)
    × IsRising ds
ListsDue due frequency first last raises = (c : ℕ) × (due_after due frequency c ≡ none)
ListsDue due frequency first last stuck = ⊥

le-scaled : (n a b : ℕ) → a ≤ b → n * a ≤ n * b
le-scaled n a b h = grind arith

module _ (due : Date) (frequency : PaymentFrequency) (first last : Date) (v : IsValid due) where
  abbrev start : ℕ
  start = first_guess (span frequency) due first

  -- No payment before the one found is due on the first day or later.
  none_before :
      (c j : ℕ) (day : Date)
      → ((j : ℕ) → start ≤ j → j < c → IsBefore due frequency (ordinal first) j)
      → due_after due frequency j ≡ some day
      → j < c
      → ordinal day < ordinal first
  none_before c j day all e lt = elim (Bool-cases (leb start j)) [
    | inl le ↦
        let (d, e', before) = all j (ground arith) lt in
        let same : d ≡ day = cc (e, e') in omega (arith, before, ap ordinal same)
    | inr gt ↦
        let j' : j < start = ground arith in
        let spread = due_after-Spread due day frequency j v e in
        elim (first_guess-bound (span frequency) due first (span-IsSpan frequency)) [
          | inl zero' ↦ absurd (omega arith)
          | inr bound ↦ omega (
            arith,
            spread.2,
            bound,
            le-scaled (longest (span frequency)) j start (omega arith),
            longest-pos (span frequency) (span-IsSpan frequency),
          )
        ]
  ]

  from_first :
      (c : ℕ) (day : Date) (ds : List Date)
      → due_after due frequency c ≡ some day
      → ordinal first ≤ ordinal day
      → All
          (λ d.
            (k : ℕ) × (c ≤ k) × (due_after due frequency k ≡ some d) × (ordinal d ≤ ordinal last))
          ds
      → All
          (λ d.
            (k : ℕ) × (due_after due frequency k ≡ some d)
            × (ordinal first ≤ ordinal d)
            × (ordinal d ≤ ordinal last))
          ds
  from_first c day [] e ge h = tt
  from_first c day (d ∷ ds) e ge ((k, le, e', by), h) =
      ((k, e', later, by), from_first c day ds e ge h)
    where
      later : ordinal first ≤ ordinal d
      later = elim (Bool-cases (ltb c k)) [
        | inl after ↦
            omega (arith, ge, due_after_mono due day d frequency c k v e e' (ground arith))
        | inr same ↦
            let q : c ≡ k = ground arith in
            let r : day ≡ d = cc (q, e, e') in omega (arith, ge, ap ordinal r)
      ]

  collected-ListsDue :
      (c : ℕ) (r : Outcome (List Date))
      → Finds due frequency (ordinal first) start (ok c)
      → Lists due frequency last c r
      → ListsDue due frequency first last r
  collected-ListsDue c (ok ds) (le, (day, e, ge), all) (sound, complete, rising) = (
    from_first c day ds e ge sound,
    λ j d e' from by. elim (Bool-cases (leb c j)) [
      | inl after ↦ complete j d (ground arith) e' by
      | inr before ↦ absurd (omega (arith, none_before c j d all e' (ground arith), from))
    ],
    rising,
  )
  collected-ListsDue c raises f h = h
  collected-ListsDue c stuck f h = h

  found-ListsDue :
      (r : Outcome ℕ)
      → Finds due frequency (ordinal first) start r
      → ListsDue due frequency first last (elim r [
        | ok cycles ↦ collect (ordinal last + 1) due frequency last cycles
        | raises ↦ raises
        | stuck ↦ stuck
      ])
  found-ListsDue (ok c) f =
      collected-ListsDue c _ f
        (collect-Lists due frequency last v (ordinal last + 1) c (omega arith) (omega arith))
  found-ListsDue raises f = f
  found-ListsDue stuck f = f

  start-le : start ≤ ordinal first
  start-le = elim (first_guess-bound (span frequency) due first (span-IsSpan frequency)) [
    | inl zero' ↦ omega arith
    | inr bound ↦ omega (
      arith,
      bound,
      le-mul (longest (span frequency)) start
          (longest-pos (span frequency) (span-IsSpan frequency)),
    )
  ]

  -- The two loops list every day from the first to the last on which the schedule has a payment,
  -- in order, and no other day: the estimate that the first loop starts from skips none, and both loops end.
  pub dates_from-ListsDue : ListsDue due frequency first last (dates_from due frequency first last)
  unfolding dates_from
  dates_from-ListsDue =
      found-ListsDue (count_before (ordinal first + 1) due frequency (ordinal first) start) (
        count_before-Finds due frequency (ordinal first) v (ordinal first + 1) start start-le
          (omega arith))

-- Where the first payment is due after the last day, nothing is listed.
pub dates_from-past :
    (due : Date) (frequency : PaymentFrequency) (first last : Date)
    → IsValid due
    → ordinal first ≤ ordinal last
    → ordinal last < ordinal due
    → dates_from due frequency first last ≡ ok []
unfolding dates_from count_before collect
dates_from-past due frequency first last v le lt =
    let fuel : ordinal first + 1 ≡ suc (ordinal first) = omega arith in
    let fuel' : ordinal last + 1 ≡ suc (ordinal last) = omega arith in
    let late : ltb (ordinal due) (ordinal first) ≡ false = ground arith in
    let late' : leb (ordinal due) (ordinal last) ≡ false = ground arith in
    let at_zero : first_guess (span frequency) due first ≡ 0 =
      elim (first_guess-bound (span frequency) due first (span-IsSpan frequency)) [
        | inl e ↦ e
        | inr bound ↦ absurd (omega (arith, bound))
      ] in
    let zeroth = due_after_zero due frequency v in
    let counted : count_before (ordinal first + 1) due frequency (ordinal first) 0 ≡ ok 0 =
      rw (fuel, count_before, zeroth, late) refl in
    let collected : collect (ordinal last + 1) due frequency last 0 ≡ ok [] =
      rw (fuel', collect, zeroth, late') refl in
    rw (dates_from, at_zero, counted) collected
