-- ===== src/Finance/Budget/Flows.antt =====
-- What counted over some days, added up (`Flows`, `_days`, `_categories`, `_per_link`, `period_view`
-- and `history` of
-- backend/app/finance/budget.py). Values are in cents of the
-- household's currency, as they are converted; the days of a period are what it is measured by.
use cashcove.Base.{
  zero, ℕ, suc, ◌+◌, ◌-◌, ◌*◌, ◌/◌, Bool, ◌&&◌, Option, none, some, List, [], ◌∷◌, map, ◌==◌,
  if◌then◌else◌, ltb, min, opt_eq, select, length, ℤ, pos, pos_part, ◌+ℤ◌, ◌-ℤ◌, ltb_ℤ,
}
use cashcove.Calendar.{Date, ordinal, date_leb, date_eq, days_between, date_min}
use cashcove.Finance.Periods.{period_start}
use cashcove.Finance.Budget.{BudgetKind, income, spending, kind_eq, Budget}

pub record Flow : Type 0 where
  pub day : Date
  pub kind : BudgetKind
  pub category_id : Option ℕ
  pub link_id : ℕ
  pub value : ℤ
  pub count : ℕ

-- `sum`
unfoldable pub sum : List ℤ → ℤ
sum [] = pos 0
sum (x ∷ xs) = x +ℤ sum xs

-- `Flows.total`
unfoldable pub total : BudgetKind → List Flow → ℤ
total kind entries = sum (map (λ f. f.value) (select (λ f. kind_eq f.kind kind) entries))

-- A link with what it counted; `_per_link` returns a dict of them.
pub record LinkTotal : Type 0 where
  pub link_id : ℕ
  pub amount : ℤ
  pub count : ℕ

unfoldable pub added : Flow → List LinkTotal → List LinkTotal
added f [] = record { link_id = f.link_id; amount = f.value; count = f.count } ∷ []
added f (row ∷ rows) =
    let rest = added f rows in
    if row.link_id == f.link_id
    then record row { amount = row.amount +ℤ f.value; count = row.count + f.count } ∷ rows
    else row ∷ rest

-- The loop of `_per_link`, with the totals so far.
unfoldable pub per_link : List LinkTotal → List Flow → List LinkTotal
per_link totals [] = totals
per_link totals (f ∷ entries) = per_link (added f totals) entries

-- The category totals of `_categories`, before those that are not positive are dropped.
pub record CategoryTotal : Type 0 where
  pub category_id : Option ℕ
  pub amount : ℤ
  pub count : ℕ

unfoldable pub added_category : Flow → List CategoryTotal → List CategoryTotal
added_category f [] = record { category_id = f.category_id; amount = f.value; count = f.count } ∷ []
added_category f (row ∷ rows) =
    let rest = added_category f rows in
    if opt_eq row.category_id f.category_id
    then record row { amount = row.amount +ℤ f.value; count = row.count + f.count } ∷ rows
    else row ∷ rest

unfoldable pub category_totals : List CategoryTotal → List Flow → List CategoryTotal
category_totals totals [] = totals
category_totals totals (f ∷ entries) =
    category_totals (if kind_eq f.kind spending then added_category f totals else totals) entries

-- `sorted(..., key=lambda total: -total.amount)`, which keeps the order of equal ones.
unfoldable pub insert_larger : CategoryTotal → List CategoryTotal → List CategoryTotal
insert_larger c [] = c ∷ []
insert_larger c (d ∷ rest) =
    let later = insert_larger c rest in if ltb_ℤ c.amount d.amount then d ∷ later else c ∷ d ∷ rest

unfoldable pub largest_first : List CategoryTotal → List CategoryTotal
largest_first [] = []
largest_first (c ∷ rest) = insert_larger c (largest_first rest)

-- `_categories`
unfoldable pub categories : List Flow → List CategoryTotal
categories entries =
    largest_first (select (λ c. ltb_ℤ (pos 0) c.amount) (category_totals [] entries))

-- A period with its income and its spending.
pub record PeriodTotal : Type 0 where
  pub start : Date
  pub income : ℤ
  pub spent : ℤ

-- `bisect_right(starts, day)`, for starts in order.
unfoldable pub bisect_right : List Date → Date → ℕ
bisect_right [] day = 0
bisect_right (start ∷ starts) day =
    let rest = bisect_right starts day in if date_leb start day then suc rest else 0

-- Adds a value to the total at an index.
unfoldable pub credited : BudgetKind → ℤ → ℕ → List PeriodTotal → List PeriodTotal
credited kind value i [] = []
credited kind value zero (row ∷ rows) =
    (elim kind [
      | income ↦ record row { income = row.income +ℤ value }
      | spending ↦ record row { spent = row.spent +ℤ value }
    ])
    ∷ rows
credited kind value (suc i) (row ∷ rows) = row ∷ credited kind value i rows

-- The index `bisect_right(...) - 1`, where -1 is the last.
abbrev pub index_before : ℕ → ℕ → ℕ
index_before zero size = size - 1
index_before (suc i) size = i

-- The loop of `history` over the flows.
unfoldable pub history_totals : List Date → List Flow → List PeriodTotal → List PeriodTotal
history_totals starts [] totals = totals
history_totals starts (f ∷ entries) totals =
    history_totals starts entries
      (credited f.kind f.value (index_before (bisect_right starts f.day) (length starts)) totals)

-- The totals of `history`, in the order of the periods.
unfoldable pub history : List Date → List Flow → List PeriodTotal
history starts entries =
    history_totals starts entries
      (map (λ start. record { start = start; income = pos 0; spent = pos 0 }) starts)

-- `_rounded(a / b)` in cents, half up, of what is not negative.
unfoldable pub rounded : ℕ → ℕ → ℕ
rounded a b = (2 * a + b) / (2 * b)

-- `max(0, min((today - start).days + 1, length))`
unfoldable pub days_gone : Date → Date → ℕ → ℕ
days_gone start today length = min (pos_part (days_between today start +ℤ pos 1)) length

-- The figures of a period in `period_view`.
pub record Figures : Type 0 where
  pub current : Bool
  pub days : ℕ
  pub days_gone : ℕ
  pub left : ℤ
  pub saved : ℤ
  pub expected : Option ℕ
  pub projected : Option ℕ

unfoldable pub figures : (amount : ℕ) (money_in spent : ℤ) (start end now today : Date) → Figures
figures amount money_in spent start end now today =
    let size = ordinal end - ordinal start + 1 in
    let gone = days_gone start today size in
    let current = date_eq start now in
    let pace = current && ltb 0 gone in
    record {
      current = current;
      days = size;
      days_gone = gone;
      left = pos amount -ℤ spent;
      saved = money_in -ℤ spent;
      expected = if pace then some (rounded (amount * gone) size) else none;
      projected = if pace then some (rounded (pos_part spent * size) gone) else none;
    }

-- The start of the earliest period worth looking at (`_floor`), from the earliest transaction.
unfoldable pub floor : Budget → Option Date → Option Date
floor budget earliest =
    period_start budget.period budget.starts_on
      (elim earliest [ none ↦ budget.starts_on | some day ↦ date_min day budget.starts_on ])
