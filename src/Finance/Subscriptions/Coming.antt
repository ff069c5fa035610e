-- ===== src/Finance/Subscriptions/Coming.antt =====
-- The two loops of `due_dates`: what the second one collects, and where the first one starts.
use cashcove.Base.{
  ℕ, zero, suc, ◌+◌, ◌*◌, ◌≤◌, ◌<◌, ◌≡◌, refl, ap, ◌⊎◌, inl, inr, Bool, true, false, Option, none,
  some, List, [], ◌∷◌, All, Any, ltb, Bool-cases, arith, ℤ, pos, negsuc, pos_part, ◌-ℤ◌, -ℤ_parts,
  ◌≤ℤ◌,
}
use cashcove.Base.Division.{floor_div, times, times_parts, floor_div_bounds}
use cashcove.Calendar.{Date, ordinal, date_leb, days_between}
use cashcove.Calendar.Months.{IsValid}
use cashcove.Finance.Periods.{Span, days, months}
use cashcove.Finance.Periods.Starts.{IsSpan}
use cashcove.Finance.Store.{PaymentFrequency}
use cashcove.Finance.Subscriptions.{
  Outcome, ok, raises, stuck, longest, cons_to, due_after, collect, first_guess,
}
use cashcove.Finance.Subscriptions.Schedule.{due_after-Spread, due_after_mono}

-- Each day comes after the ones before it.
abbrev pub IsRising : List Date → Type 0
IsRising [] = Unit
IsRising (d ∷ ds) = All (λ e. ordinal d < ordinal e) ds × IsRising ds

-- The days from the payment `start` on that are due by `last`: all of them are on the schedule,
-- none of the schedule is left out, and they come in order.
abbrev pub Lists : Date → PaymentFrequency → Date → ℕ → Outcome (List Date) → Type 0
Lists due frequency last start (ok ds) =
    All
      (λ d.
        (c : ℕ) × (start ≤ c) × (due_after due frequency c ≡ some d) × (ordinal d ≤ ordinal last))
      ds
    × ((j : ℕ) (day : Date)
        → start ≤ j
        → due_after due frequency j ≡ some day
        → ordinal day ≤ ordinal last
        → Any (λ d. d ≡ day) ds)
    × IsRising ds
Lists due frequency last start raises = (c : ℕ) × (due_after due frequency c ≡ none)
Lists due frequency last start stuck = ⊥

module _ (due : Date) (frequency : PaymentFrequency) (last : Date) (v : IsValid due) where
  weaken :
      (start : ℕ) (ds : List Date)
      → All
          (λ d.
            (c : ℕ) × (start + 1 ≤ c)
            × (due_after due frequency c ≡ some d)
            × (ordinal d ≤ ordinal last))
          ds
      → All
          (λ d.
            (c : ℕ) × (start ≤ c)
            × (due_after due frequency c ≡ some d)
            × (ordinal d ≤ ordinal last))
          ds
  weaken start [] h = tt
  weaken start (d ∷ ds) ((c, le, e, by), h) = ((c, omega arith, e, by), weaken start ds h)

  above :
      (start : ℕ) (day : Date) (ds : List Date)
      → due_after due frequency start ≡ some day
      → All
          (λ d.
            (c : ℕ) × (start + 1 ≤ c)
            × (due_after due frequency c ≡ some d)
            × (ordinal d ≤ ordinal last))
          ds
      → All (λ d. ordinal day < ordinal d) ds
  above start day [] e h = tt
  above start day (d ∷ ds) e ((c, le, e', by), h) =
      (due_after_mono due day d frequency start c v e e' (omega arith), above start day ds e h)

  added :
      (start : ℕ) (day : Date) (rest : Outcome (List Date))
      → due_after due frequency start ≡ some day
      → ordinal day ≤ ordinal last
      → Lists due frequency last (start + 1) rest
      → Lists due frequency last start (cons_to day rest)
  added start day (ok ds) e by (sound, complete, rising) = (
    ((start, omega arith, e, by), weaken start ds sound),
    λ j d le e' by'. elim (Bool-cases (ltb start j)) [
      | inl after ↦ inr (complete j d (ground arith) e' by')
      | inr same ↦ let q : start ≡ j = ground arith in inl (cc (q, e, e'))
    ],
    (above start day ds e sound, rising),
  )
  added start day raises e by h = h
  added start day stuck e by h = h

  stopped :
      (start : ℕ) (day : Date)
      → due_after due frequency start ≡ some day
      → ordinal last < ordinal day
      → Lists due frequency last start (ok [])
  stopped start day e past = (
    tt,
    (λ j d le e' by. elim (Bool-cases (ltb start j)) [
      | inl after ↦
          absurd (omega (arith, due_after_mono due day d frequency start j v e e' (ground arith)))
      | inr same ↦
          let q : start ≡ j = ground arith in
          let r : day ≡ d = cc (q, e, e') in absurd (omega (arith, ap ordinal r))
    ]),
    tt,
  )

  chosen :
      (start : ℕ) (day : Date) (rest : Outcome (List Date)) (b : Bool)
      → due_after due frequency start ≡ some day
      → date_leb day last ≡ b
      → (ordinal day ≤ ordinal last → Lists due frequency last (start + 1) rest)
      → Lists due frequency last start (elim b [ true ↦ cons_to day rest | false ↦ ok [] ])
  chosen start day rest true e t ih =
      let by : ordinal day ≤ ordinal last = ground arith in added start day rest e by (ih by)
  chosen start day rest false e t ih = stopped start day e (ground arith)

  round :
      (start : ℕ) (rest : Outcome (List Date)) (o : Option Date)
      → due_after due frequency start ≡ o
      → ((day : Date)
          → due_after due frequency start ≡ some day
          → ordinal day ≤ ordinal last
          → Lists due frequency last (start + 1) rest)
      → Lists due frequency last start (elim o [
        | none ↦ raises
        | some day ↦ elim (date_leb day last) [ true ↦ cons_to day rest | false ↦ ok [] ]
      ])
  round start rest none e ih = (start, e)
  round start rest (some day) e ih = chosen start day rest (date_leb day last) e refl (ih day e)

  pub collect-Lists :
      (fuel start : ℕ)
      → 1 ≤ fuel
      → ordinal last < start + fuel
      → Lists due frequency last start (collect fuel due frequency last start)
  unfolding collect
  collect-Lists zero start some_left hi = absurd (omega arith)
  collect-Lists (suc fuel) start some_left hi =
      round start (collect fuel due frequency last (start + 1)) (due_after due frequency start) refl
        (λ day e by.
          let spread = due_after-Spread due day frequency start v e in
          collect-Lists fuel (start + 1) (omega (arith, spread.1)) (omega arith))

pub longest-pos : (sp : Span) → IsSpan sp → 0 < longest sp
longest-pos (days n) h = h
longest-pos (months n) h = omega arith

guess_at :
    (z : ℤ) (n due first : ℕ)
    → times z n ≤ℤ pos first -ℤ pos due
    → (pos_part (z -ℤ pos 1) ≡ 0) ⊎ (due + n * pos_part (z -ℤ pos 1) + n ≤ first)
guess_at (pos zero) n due first h = inl (unfold ◌-ℤ◌ in ground arith)
guess_at (pos (suc g)) n due first h =
    let g' : pos_part (pos (suc g) -ℤ pos 1) ≡ g = unfold ◌-ℤ◌ in ground arith in
    rw g' (
      inr (
        let m : suc g * n ≡ n * g + n = grind arith in
        omega (arith, m, times_parts (pos (suc g)) n, -ℤ_parts (pos first) (pos due))))
guess_at (negsuc z) n due first h = inl (unfold ◌-ℤ◌ in ground arith)

-- The loop starts with the first payment, or with one that is due before the first day listed by
-- the longest time between two payments.
pub first_guess-bound :
    (sp : Span) (due first : Date)
    → IsSpan sp
    → (first_guess sp due first ≡ 0)
      ⊎ (ordinal due + longest sp * first_guess sp due first + longest sp ≤ ordinal first)
unfolding first_guess days_between
first_guess-bound sp due first h =
    guess_at (floor_div (days_between first due) (longest sp)) (longest sp) (ordinal due)
      (ordinal first)
      ((floor_div_bounds (days_between first due) (longest sp) (longest-pos sp h)).0)
