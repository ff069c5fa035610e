-- ===== src/Imports/Matching.antt =====
-- Which rows of a file an account already has (backend/app/imports/matching.py). `key` is
-- `text_key`. The transactions of the account are given in the order of SORT_ORDERS["date"], all of
-- the household's in that of SORT_ORDERS["-date"]; the database gives at most one with an ID.
-- Objects that the code changes in place are returned as they are left.
pub mod Names
pub mod Review
pub mod Once
pub mod Fates
use cashcove.Base.{
  ℕ, ◌+◌, Bool, true, false, not, ◌&&◌, ◌||◌, Option, none, some, List, [], ◌∷◌, ◌++◌, map, ltb,
  leb, ◌==◌, if◌then◌else◌, is_some, is_none, opt_eq, find, select, any_b, ℤ, pos, negsuc, eq_ℤ,
  abs_ℤ,
}
use cashcove.Base.Text.{Text, text_eq}
use cashcove.Calendar.{Date, date, date_eq, date_leb, date_min, date_max, add_days, days_between}
use cashcove.Finance.Store.{Transaction, TransactionSource}
use cashcove.Finance.Text.{is_nil}
use cashcove.Imports.Rows.{
  or_empty, FileRow, in_the_file_twice, Reviewed, RowStatus, new, duplicate, possible_duplicate,
  invalid,
}

-- `WINDOW.days`
abbrev pub window : ℕ
window = 3

abbrev pub is_file : TransactionSource → Bool
is_file TransactionSource.file = true
is_file TransactionSource.manual = false
is_file TransactionSource.plaid = false

-- `original_description or payee`
abbrev pub described_text : Transaction → Text
described_text t =
    let original = or_empty t.original_description in if is_nil original then t.payee else original

abbrev pub same_text : Option Text → Text → Bool
same_text none b = false
same_text (some a) b = text_eq a b

-- `row.date or dt.date.min`, `row.amount or Decimal(0)`
abbrev pub day_of : FileRow → Date
day_of row = elim row.date [ none ↦ date 1 1 1 | some day ↦ day ]

abbrev pub amount_of : FileRow → ℤ
amount_of row = elim row.amount [ none ↦ pos 0 | some a ↦ a ]

-- `abs((a - b).days)`
unfoldable pub apart : Date → Date → ℕ
apart a b = abs_ℤ (days_between a b)

-- The transactions already matched, by their ids.
abbrev pub is_used : List ℕ → Transaction → Bool
is_used used t = any_b (λ id. id == t.id) used

-- `_Existing.take`: the transaction, unless it is matched already.
unfoldable pub take : Option Transaction → List ℕ → Option Transaction × List ℕ
take none used = (none, used)
take (some t) used = if is_used used t then (none, used) else (some t, t.id ∷ used)

module _ (key : Text → Text) where
  unfoldable pub described : Transaction → Text
  described t = key (described_text t)

  -- `_content(a) == _content(b)`
  unfoldable pub same_content : FileRow → FileRow → Bool
  same_content a b =
      date_eq (day_of a) (day_of b)
      && (eq_ℤ (amount_of a) (amount_of b) && text_eq (key a.description) (key b.description))

  -- The first row with an ID, of those that `_same_ids` has seen.
  unfoldable pub seen_at : List (Text × FileRow) → Text → Option FileRow
  seen_at [] id = none
  seen_at ((i, row) ∷ seen) id =
      let rest = seen_at seen id in if text_eq i id then some row else rest

  -- One row in `_same_ids`: the row as it is left, whether it is a repeat, and the rows seen.
  unfoldable pub check_id : List (Text × FileRow) → FileRow → FileRow × Bool × List (Text × FileRow)
  check_id seen row = elim row.external_id [
    | none ↦ (row, false, seen)
    | some id ↦ elim (seen_at seen id) [
      | none ↦ (row, false, (id, row) ∷ seen)
      | some earlier ↦
          if same_content earlier row
          then (row, true, seen)
          else (record row { external_id = none }, false, seen)
    ]
  ]

  -- `_same_ids` of the readable rows: the rows, and the lines of the repeats.
  unfoldable pub same_ids : List (Text × FileRow) → List FileRow → List FileRow × List ℕ
  same_ids seen [] = ([], [])
  same_ids seen (row ∷ rows) =
      let checked = check_id seen row in
      let rest = same_ids checked.2 rows in
      let skipped = same_ids seen rows in
      if is_some row.problem
      then (row ∷ skipped.0, skipped.1)
      else (checked.0 ∷ rest.0, if checked.1 then row.line ∷ rest.1 else rest.1)

  -- `same_id`: what is found, what is used, and the row.
  unfoldable pub same_id :
      List Transaction → List ℕ → FileRow → (Option Transaction × List ℕ) × FileRow
  same_id account used row = elim row.external_id [
    | none ↦ ((none, used), row)
    | some id ↦
        if is_nil id
        then ((none, used), row)
        else elim (find (λ (t : Transaction). same_text t.external_id id) account) [
          | none ↦ ((none, used), row)
          | some t ↦
              if eq_ℤ t.amount (amount_of row) && leb (apart t.on (day_of row)) window
              then (take (some t) used, row)
              else ((none, used), record row { external_id = none })
        ]
  ]

  -- `by_content`
  unfoldable pub has_content : FileRow → Transaction → Bool
  has_content row t =
      date_eq t.on (day_of row)
      && (eq_ℤ t.amount (amount_of row)
          && (text_eq (described t) (key row.description)
              || text_eq (key t.payee) (key row.description)))

  unfoldable pub same : List Transaction → List ℕ → FileRow → Option Transaction × List ℕ
  same existing used row =
      take (find (λ t. not (is_used used t)) (select (has_content row) existing)) used

  unfoldable pub same_payee : Text → Transaction → Bool
  same_payee payee t = text_eq (key payee) (described t) || text_eq (key payee) (key t.payee)

  -- A candidate of `near`.
  unfoldable pub is_near : List ℕ → FileRow → Text → Transaction → Bool
  is_near used row payee t =
      eq_ℤ t.amount (amount_of row)
      && (not (is_used used t)
          && leb (apart t.on (day_of row))
              (if not (is_file t.source) || same_payee payee t then window else 0))

  -- Whether the second comes before the first in the order of `near`.
  unfoldable pub is_nearer : FileRow → Text → Transaction → Transaction → Bool
  is_nearer row payee t u =
      let far = apart t.on (day_of row) in
      let near = apart u.on (day_of row) in
      if same_payee payee u && not (same_payee payee t)
      then true
      else if same_payee payee t && not (same_payee payee u)
      then false
      else if ltb near far
      then true
      else if ltb far near
      then false
      else is_file t.source && not (is_file u.source)

  -- The first of a stable sort.
  unfoldable pub nearest : FileRow → Text → List Transaction → Option Transaction
  nearest row payee [] = none
  nearest row payee (t ∷ ts) = elim (nearest row payee ts) [
    | none ↦ some t
    | some u ↦ if is_nearer row payee t u then some u else some t
  ]

  unfoldable pub near : List Transaction → List ℕ → FileRow → Text → Option Transaction × List ℕ
  near existing used row payee =
      take (nearest row payee (select (is_near used row payee) existing)) used
