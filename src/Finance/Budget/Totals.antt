-- ===== src/Finance/Budget/Totals.antt =====
-- What counted, added up over periods and over sources, comes to what counted.
use cashcove.Base.{
  +ℤ-assoc, +ℤ-comm, +ℤ_zero, zero_+ℤ, ℕ, zero, suc, ◌≡◌, ◌<◌, ◌≤◌, refl, ap, sym, ◌∙◌, inl, inr,
  List, [], ◌∷◌, ◌==◌, if◌then◌else◌, Bool-cases, arith, map, length, ℤ, pos, ◌+ℤ◌,
}
use cashcove.Calendar.{Date, date_leb}
use cashcove.Finance.Budget.{BudgetKind, income, spending, kind_eq}
use cashcove.Finance.Budget.Flows.{
  Flow, sum, total, LinkTotal, added, per_link, PeriodTotal, bisect_right, credited, index_before,
  history_totals, history,
}

-- A value added to one part of a sum is added to the sum.
moved_in : (a v b : ℤ) → (a +ℤ v) +ℤ b ≡ (a +ℤ b) +ℤ v
moved_in a v b = +ℤ-assoc a v b ∙ ap (λ x. a +ℤ x) (+ℤ-comm v b) ∙ sym (+ℤ-assoc a b v)

added-sum :
    (f : Flow) (rows : List LinkTotal)
    → sum (map (λ r. r.amount) (added f rows)) ≡ sum (map (λ r. r.amount) rows) +ℤ f.value
unfolding added sum
added-sum f [] = +ℤ-comm f.value (pos 0)
added-sum f (row ∷ rows) = elim (Bool-cases (row.link_id == f.link_id)) [
  | inl same ↦ rw same (moved_in row.amount f.value (sum (map (λ r. r.amount) rows)))
  | inr other ↦ rw other (
      ap (λ x. row.amount +ℤ x) (added-sum f rows)
      ∙ sym (+ℤ-assoc row.amount (sum (map (λ r. r.amount) rows)) f.value))
]

per_link-sum :
    (totals : List LinkTotal) (entries : List Flow)
    → sum (map (λ r. r.amount) (per_link totals entries))
      ≡ sum (map (λ r. r.amount) totals) +ℤ sum (map (λ f. f.value) entries)
unfolding per_link sum
per_link-sum totals [] = sym (+ℤ_zero _)
per_link-sum totals (f ∷ entries) =
    per_link-sum (added f totals) entries
    ∙ ap (λ x. x +ℤ sum (map (λ f. f.value) entries)) (added-sum f totals)
    ∙ +ℤ-assoc (sum (map (λ r. r.amount) totals)) f.value (sum (map (λ f. f.value) entries))

-- What a period has of a kind.
abbrev pub part : BudgetKind → PeriodTotal → ℤ
part income row = row.income
part spending row = row.spent

abbrev pub given_to : BudgetKind → BudgetKind → ℤ → ℤ
given_to kind other value = if kind_eq other kind then value else pos 0

credited-sum :
    (kind other : BudgetKind) (value : ℤ) (i : ℕ) (rows : List PeriodTotal)
    → i < length rows
    → sum (map (part kind) (credited other value i rows))
      ≡ sum (map (part kind) rows) +ℤ given_to kind other value
unfolding credited sum
credited-sum kind other value i [] h = absurd (omega (arith, h))
credited-sum income income value zero (row ∷ rows) h =
    moved_in row.income value (sum (map (part income) rows))
credited-sum income spending value zero (row ∷ rows) h = sym (+ℤ_zero _)
credited-sum spending income value zero (row ∷ rows) h = sym (+ℤ_zero _)
credited-sum spending spending value zero (row ∷ rows) h =
    moved_in row.spent value (sum (map (part spending) rows))
credited-sum kind other value (suc i) (row ∷ rows) h =
    ap (λ x. part kind row +ℤ x) (credited-sum kind other value i rows (omega (arith, h)))
    ∙ sym (+ℤ-assoc (part kind row) (sum (map (part kind) rows)) (given_to kind other value))

length-credited :
    (kind : BudgetKind) (value : ℤ) (i : ℕ) (rows : List PeriodTotal)
    → length (credited kind value i rows) ≡ length rows
unfolding credited
length-credited kind value i [] = refl
length-credited kind value zero (row ∷ rows) = refl
length-credited kind value (suc i) (row ∷ rows) = ap suc (length-credited kind value i rows)

bisect_right-le : (starts : List Date) (day : Date) → bisect_right starts day ≤ length starts
unfolding bisect_right
bisect_right-le [] day = omega arith
bisect_right-le (start ∷ starts) day = elim (Bool-cases (date_leb start day)) [
  | inl e ↦ rw e (omega (arith, bisect_right-le starts day))
  | inr e ↦ rw e (omega arith)
]

index_before-lt : (i size : ℕ) → i ≤ size → 0 < size → index_before i size < size
index_before-lt zero size h k = omega (arith, h, k)
index_before-lt (suc i) size h k = omega (arith, h)

pub total-cons :
    (kind : BudgetKind) (f : Flow) (entries : List Flow)
    → total kind (f ∷ entries) ≡ given_to kind f.kind f.value +ℤ total kind entries
unfolding total sum
total-cons kind f entries = elim (Bool-cases (kind_eq f.kind kind)) [
  | inl e ↦ rw e refl
  | inr e ↦ rw e (sym (zero_+ℤ _))
]

pub total_nothing : (kind : BudgetKind) → total kind [] ≡ pos 0
unfolding total sum
total_nothing kind = refl

abbrev empty : Date → PeriodTotal
empty start = record { start = start; income = pos 0; spent = pos 0 }

sum-empty :
    (kind : BudgetKind) (starts : List Date) → sum (map (part kind) (map empty starts)) ≡ pos 0
unfolding sum
sum-empty kind [] = refl
sum-empty income (start ∷ starts) = zero_+ℤ _ ∙ sum-empty income starts
sum-empty spending (start ∷ starts) = zero_+ℤ _ ∙ sum-empty spending starts

length-empty : (starts : List Date) → length (map empty starts) ≡ length starts
length-empty [] = refl
length-empty (start ∷ starts) = ap suc (length-empty starts)

history_totals-sum :
    (kind : BudgetKind) (starts : List Date) (entries : List Flow) (totals : List PeriodTotal)
    → 0 < length starts
    → length totals ≡ length starts
    → sum (map (part kind) (history_totals starts entries totals))
      ≡ sum (map (part kind) totals) +ℤ total kind entries
unfolding history_totals
history_totals-sum kind starts [] totals h e =
    sym (+ℤ_zero (sum (map (part kind) totals)))
    ∙ ap (λ x. sum (map (part kind) totals) +ℤ x) (sym (total_nothing kind))
history_totals-sum kind starts (f ∷ entries) totals h e =
    let i = index_before (bisect_right starts f.day) (length starts) in
    let lt =
      index_before-lt (bisect_right starts f.day) (length starts) (bisect_right-le starts f.day)
        h in
    history_totals-sum kind starts entries (credited f.kind f.value i totals) h
      (length-credited f.kind f.value i totals ∙ e)
    ∙ ap (λ x. x +ℤ total kind entries) (credited-sum kind f.kind f.value i totals (rw e lt))
    ∙ +ℤ-assoc (sum (map (part kind) totals)) (given_to kind f.kind f.value) (total kind entries)
    ∙ ap (λ x. sum (map (part kind) totals) +ℤ x) (sym (total-cons kind f entries))

-- The sources of a budget, its links to single transactions included, add up to everything that
-- counted (`_per_link`).
pub per_link-adds_up :
    (entries : List Flow)
    → sum (map (λ r. r.amount) (per_link [] entries)) ≡ sum (map (λ f. f.value) entries)
unfolding sum
per_link-adds_up entries = per_link-sum [] entries ∙ zero_+ℤ _

whole :
    (kind : BudgetKind) (starts : List Date) (entries : List Flow)
    → 0 < length starts
    → sum (map (part kind) (history starts entries)) ≡ total kind entries
unfolding history
whole kind starts entries h =
    history_totals-sum kind starts entries (map empty starts) h (length-empty starts)
    ∙ ap (λ x. x +ℤ total kind entries) (sum-empty kind starts)
    ∙ zero_+ℤ (total kind entries)

-- The periods of a budget's history add up to what counted over all of them, both what came in and
-- what was spent: no day is left out and none counts twice, where there is a period.
pub history-adds_up :
    (starts : List Date) (entries : List Flow)
    → 0 < length starts
    → (sum (map (λ p. p.income) (history starts entries)) ≡ total income entries)
      × (sum (map (λ p. p.spent) (history starts entries)) ≡ total spending entries)
history-adds_up starts entries h = (whole income starts entries h, whole spending starts entries h)
