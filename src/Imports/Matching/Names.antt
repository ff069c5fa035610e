-- ===== src/Imports/Matching/Names.antt =====
-- Payees and categories for new transactions, from what the household chose before (`Namer` of
-- backend/app/imports/matching.py). The household's categories for the names in files and banks are
-- the parameter `file_category`; `cut` is `[:160]`, and `unknown` is UNKNOWN_PAYEE.
use cashcove.Base.{
  ℕ, Bool, false, not, ◌&&◌, ◌||◌, Option, none, some, List, if◌then◌else◌, is_some, find, any_b,
}
use cashcove.Base.Text.{Text, text_eq}
use cashcove.Finance.Store.{Transaction}
use cashcove.Finance.Text.{is_nil}
use cashcove.Imports.Rows.{or_empty, FileRow}

module _ (key : Text → Text) (file_category : Option Text → Option ℕ) (recent : List Transaction)
    (cut : Text → Text) (unknown : Text) where
  -- `by_description.get(text_key(description))`, where only the descriptions of the rows that
  -- have one were looked up.
  unfoldable pub known : List FileRow → Text → Option Transaction
  known fresh description =
      let latest =
        find
          (λ (t : Transaction). elim t.original_description [
            | none ↦ false
            | some text ↦ text_eq (key text) (key description)
          ])
          recent in
      if any_b
        (λ (row : FileRow).
          not (is_nil row.description) && text_eq (key row.description) (key description))
        fresh
      then latest
      else none

  -- A key in `payees`.
  unfoldable pub is_payee : List FileRow → Text → Bool
  is_payee fresh wanted =
      any_b
        (λ (row : FileRow).
          not (is_nil row.description)
          && (text_eq (key row.description) wanted || (elim (known fresh row.description) [
            | none ↦ false
            | some t ↦ text_eq (key t.payee) wanted
          ])))
        fresh

  -- `by_payee.get(text_key(payee))`
  unfoldable pub last_category : List FileRow → Text → Option ℕ
  last_category fresh payee =
      let latest : Option ℕ =
        elim (find (λ (t : Transaction). is_some t.category_id && text_eq (key t.payee) (key payee))
          recent) [ none ↦ none | some t ↦ t.category_id ] in
      if is_payee fresh (key payee) then latest else none

  abbrev first_given : Option ℕ → Option ℕ → Option ℕ
  first_given none b = b
  first_given (some a) b = some a

  -- The name of a row that no transaction is known for; `cut` is `[:160]`.
  unfoldable pub own_name : FileRow → Text
  own_name row = cut (
      if not (is_nil row.description)
      then row.description
      else if not (is_nil (or_empty row.memo))
      then or_empty row.memo
      else unknown)

  -- The end of `Namer.name`.
  unfoldable pub with_category : List FileRow → FileRow → Text → Text × Option ℕ
  with_category fresh row payee =
      (payee, first_given (file_category row.category) (last_category fresh payee))

  -- `Namer.name`
  unfoldable pub name : List FileRow → FileRow → Text × Option ℕ
  name fresh row = elim (known fresh row.description) [
    | none ↦ with_category fresh row (own_name row)
    | some t ↦
        if is_some t.category_id then (t.payee, t.category_id) else with_category fresh row t.payee
  ]
