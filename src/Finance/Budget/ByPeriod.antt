-- ===== src/Finance/Budget/ByPeriod.antt =====
-- Each period of a budget's history has what counted on its own days (`history` of
-- backend/app/finance/budget.py).
use cashcove.Base.{
  +ℤ-assoc, +ℤ_zero, zero_+ℤ, ◌≡◌, ◌<◌, refl, ap, sym, ◌∙◌, inl, inr, Bool, true, false, not, ◌&&◌,
  List, [], ◌∷◌, ◌++◌, if◌then◌else◌, Bool-cases, arith, map, length, select, ℤ, pos, ◌+ℤ◌, All,
}
use mathlib.Core.List.{append_assoc, append-nil}
use cashcove.Calendar.{Date, date_leb}
use cashcove.Finance.Budget.{BudgetKind, income, spending}
use cashcove.Finance.Budget.Flows.{
  Flow, sum, total, PeriodTotal, bisect_right, credited, index_before, history_totals, history,
}
use cashcove.Finance.Budget.Totals.{given_to, total-cons, total_nothing, history-adds_up}

-- The days of a period: from its start to the day before the next one's; the last is open-ended.
abbrev pub is_in_period : Date → List Date → Flow → Bool
is_in_period start [] f = date_leb start f.day
is_in_period start (next ∷ starts) f = date_leb start f.day && not (date_leb next f.day)

-- What came in and what was spent by the flows that pass a test, as the row of a period.
abbrev pub row_of : Date → (Flow → Bool) → List Flow → PeriodTotal
row_of start p entries = record {
  start = start;
  income = total income (select p entries);
  spent = total spending (select p entries);
}

-- What came in and what was spent on the days of each period, period by period.
unfoldable pub by_period : List Date → List Flow → List PeriodTotal
by_period [] entries = []
by_period (start ∷ starts) entries =
    row_of start (is_in_period start starts) entries ∷ by_period starts entries

-- The starts are in order.
abbrev pub AreOrdered : List Date → Type 0
AreOrdered [] = Unit
AreOrdered (start ∷ starts) = All (λ s. date_leb start s ≡ true) starts × AreOrdered starts

-- A day that is not before the first of the starts.
abbrev pub IsCovered : List Date → Flow → Type 0
IsCovered [] f = ⊥
IsCovered (start ∷ starts) f = date_leb start f.day ≡ true

total-last :
    (kind : BudgetKind) (p : Flow → Bool) (entries : List Flow) (f : Flow)
    → total kind (select p (entries ++ (f ∷ [])))
      ≡ total kind (select p entries) +ℤ (if p f then given_to kind f.kind f.value else pos 0)
total-last kind p [] f = elim (Bool-cases (p f)) [
  | inl e ↦
      rw (e, total-cons kind f [], total_nothing kind)
        (+ℤ_zero (given_to kind f.kind f.value) ∙ sym (zero_+ℤ (given_to kind f.kind f.value)))
  | inr e ↦ rw e (sym (+ℤ_zero (total kind [])))
]
total-last kind p (g ∷ entries) f =
    let given = given_to kind g.kind g.value in
    let more = if p f then given_to kind f.kind f.value else pos 0 in
    elim (Bool-cases (p g)) [
      | inl e ↦
          rw
            (
              e,
              total-cons kind g (select p entries),
              total-cons kind g (select p (entries ++ (f ∷ []))),
            )
            (ap (λ x. given +ℤ x) (total-last kind p entries f)
              ∙ sym (+ℤ-assoc given (total kind (select p entries)) more))
      | inr e ↦ rw e (total-last kind p entries f)
    ]

-- The row of a period after one more flow on its days, and after one on other days.
credited-row :
    (start : Date) (p : Flow → Bool) (entries : List Flow) (f : Flow) (rows : List PeriodTotal)
    → p f ≡ true
    → credited f.kind f.value 0 (row_of start p entries ∷ rows)
      ≡ row_of start p (entries ++ (f ∷ [])) ∷ rows
unfolding credited
credited-row start p entries f rows h =
    rw (total-last income p entries f, total-last spending p entries f, h)
      (with_kind f.kind f.value (total income (select p entries))
        (total spending (select p entries)))
  where
    with_kind :
        (kind : BudgetKind) (value got spent : ℤ)
        → credited kind value 0 (record { start = start; income = got; spent = spent } ∷ rows)
          ≡ record {
            start = start;
            income = got +ℤ given_to income kind value;
            spent = spent +ℤ given_to spending kind value;
          }
            ∷ rows
    with_kind income value got spent = rw (+ℤ_zero spent) refl
    with_kind spending value got spent = rw (+ℤ_zero got) refl

other_row :
    (start : Date) (p : Flow → Bool) (entries : List Flow) (f : Flow)
    → p f ≡ false
    → row_of start p entries ≡ row_of start p (entries ++ (f ∷ []))
other_row start p entries f h =
    rw
      (
        total-last income p entries f,
        total-last spending p entries f,
        h,
        +ℤ_zero (total income (select p entries)),
        +ℤ_zero (total spending (select p entries)),
      )
      refl

-- A flow before the start of every period changes none.
by_period-before :
    (starts : List Date) (entries : List Flow) (f : Flow)
    → All (λ s. date_leb s f.day ≡ false) starts
    → by_period starts entries ≡ by_period starts (entries ++ (f ∷ []))
unfolding by_period
by_period-before [] entries f h = refl
by_period-before (start ∷ starts) entries f h = λ i.
    other_row start (is_in_period start starts) entries f (not_yet start starts f h.0) i
    ∷ by_period-before starts entries f h.1 i
  where
    not_yet :
        (start : Date) (starts : List Date) (f : Flow)
        → date_leb start f.day ≡ false
        → is_in_period start starts f ≡ false
    not_yet start [] f h = h
    not_yet start (next ∷ starts) f h = rw h refl

later_starts :
    (next : Date) (starts : List Date) (f : Flow)
    → date_leb next f.day ≡ false
    → All (λ s. date_leb next s ≡ true) starts
    → All (λ s. date_leb s f.day ≡ false) starts
later_starts next [] f h k = tt
later_starts next (s ∷ starts) f h k = (ground (arith, k.0), later_starts next starts f h k.1)

-- The loop of `history` adds a flow to the period that its day is in.
credited-by_period :
    (start : Date) (starts : List Date) (entries : List Flow) (f : Flow)
    → AreOrdered (start ∷ starts)
    → date_leb start f.day ≡ true
    → credited f.kind f.value
        (index_before (bisect_right (start ∷ starts) f.day) (length (start ∷ starts)))
        (by_period (start ∷ starts) entries)
      ≡ by_period (start ∷ starts) (entries ++ (f ∷ []))
unfolding by_period bisect_right credited
credited-by_period start [] entries f ordered covered =
    rw covered (credited-row start (is_in_period start []) entries f [] covered)
credited-by_period start (next ∷ starts) entries f ordered covered =
    elim (Bool-cases (date_leb next f.day)) [
      | inl reached ↦
          let later = credited-by_period next starts entries f ordered.1 reached in
          let rest = rw reached at later in
          let miss : is_in_period start (next ∷ starts) f ≡ false = rw (covered, reached) refl in
          rw (covered, reached)
            (λ i. other_row start (is_in_period start (next ∷ starts)) entries f miss i ∷ rest i)
      | inr before ↦
          let hit : is_in_period start (next ∷ starts) f ≡ true = rw (covered, before) refl in
          rw (covered, before)
            (credited-row start (is_in_period start (next ∷ starts)) entries f
                (by_period (next ∷ starts) entries) hit
              ∙ ap
                  (λ rows.
                    row_of start (is_in_period start (next ∷ starts)) (entries ++ (f ∷ [])) ∷ rows)
                  (by_period-before (next ∷ starts) entries f
                    (before, later_starts next starts f before ordered.1.0)))
    ]

history_totals-by_period :
    (starts : List Date) (entries done : List Flow)
    → AreOrdered starts
    → All (IsCovered starts) entries
    → history_totals starts entries (by_period starts done) ≡ by_period starts (done ++ entries)
unfolding history_totals
history_totals-by_period starts [] done ordered covered =
    ap (by_period starts) (sym (append-nil done))
history_totals-by_period [] (f ∷ entries) done ordered covered = absurd (covered.0)
history_totals-by_period (start ∷ starts) (f ∷ entries) done ordered covered =
    ap (history_totals (start ∷ starts) entries)
      (credited-by_period start starts done f ordered covered.0)
    ∙ history_totals-by_period (start ∷ starts) entries (done ++ (f ∷ [])) ordered covered.1
    ∙ ap (by_period (start ∷ starts)) (append_assoc done (f ∷ []) entries)

by_period-nil :
    (starts : List Date)
    → map (λ start. record { start = start; income = pos 0; spent = pos 0 }) starts
      ≡ by_period starts []
unfolding by_period
by_period-nil [] = refl
by_period-nil (start ∷ starts) =
    rw (total_nothing income, total_nothing spending)
      (λ i. record { start = start; income = pos 0; spent = pos 0 } ∷ by_period-nil starts i)

-- The history of a budget has a row for each of its periods, in order, with what came in and what
-- was spent on the days from the period's start up to the next one's, the last period being
-- open-ended; and the rows add up to all that came in and all that was spent, so that no day is
-- left out and none counts twice. It holds where there is a period, the starts are in order and
-- nothing is dated before the first of them.
pub history-by_period :
    (starts : List Date) (entries : List Flow)
    → 0 < length starts
    → AreOrdered starts
    → All (IsCovered starts) entries
    → (history starts entries ≡ by_period starts entries)
      × (sum (map (λ p. p.income) (history starts entries)) ≡ total income entries)
      × (sum (map (λ p. p.spent) (history starts entries)) ≡ total spending entries)
unfolding history
history-by_period starts entries some_start ordered covered = (
  ap (history_totals starts entries) (by_period-nil starts)
      ∙ history_totals-by_period starts entries [] ordered covered,
  (history-adds_up starts entries some_start).0,
  (history-adds_up starts entries some_start).1,
)
