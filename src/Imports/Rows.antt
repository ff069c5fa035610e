-- ===== src/Imports/Rows.antt =====
-- The rows of a statement file (backend/app/imports/files.py), whichever format it is in.
use cashcove.Base.{
  ℕ, Bool, not, ◌&&◌, Option, none, some, [], ◌∷◌, ◌++◌, if◌then◌else◌, ℤ, pos, eq_ℤ, neg_ℤ,
}
use cashcove.Base.Text.{Text}
use cashcove.Calendar.{Date}
use cashcove.Finance.Store.{Transaction}
use cashcove.Finance.Text.{is_nil}

-- Why a row can't be imported, with the text that the message quotes.
pub data Problem : Type 0 where
  no_date : Problem
  not_a_date : Text → Problem
  no_amount : Problem
  not_an_amount : Text → Problem
  zero_amount : Problem
  in_the_file_twice : Problem

pub record FileRow : Type 0 where
  pub line : ℕ
  pub date : Option Date
  pub amount : Option ℤ
  pub description : Text
  pub memo : Option Text
  pub category : Option Text
  pub external_id : Option Text
  pub balance : Option ℤ
  pub problem : Option Problem

-- `FileRow(line=...)`
unfoldable pub new_row : ℕ → FileRow
new_row line = record {
  line = line;
  date = none;
  amount = none;
  description = [];
  memo = none;
  category = none;
  external_id = none;
  balance = none;
  problem = none;
}

-- ` · ` between two texts, which is left out where one of them is empty.
unfoldable pub join_notes : Text → Text → Text
join_notes [] check = check
join_notes (c ∷ memo) [] = c ∷ memo
join_notes (c ∷ memo) (k ∷ check) = (c ∷ memo) ++ (b' ' ∷ 183 ∷ b' ' ∷ k ∷ check)

-- `text or ""`
abbrev pub or_empty : Option Text → Text
or_empty none = []
or_empty (some text) = text

-- The end of `payee_and_notes`.
unfoldable pub or_memo : Text → Text → Text → Text × Text
or_memo [] memo check = (memo, join_notes [] check)
or_memo (c ∷ payee) memo check = (c ∷ payee, join_notes memo check)

unfoldable pub payee_and_notes : Text → Text → Text → Bool → Text × Text
payee_and_notes payee memo check memo_first =
    if memo_first && not (is_nil memo) then or_memo memo payee check else or_memo payee memo check

-- `settle`; the texts are cut to 40 characters only in the message.
unfoldable pub settle : FileRow → Text → Text → Option ℤ → Bool → FileRow
settle row written text amount flip = elim row.date [
  | none ↦ record row { problem = some (if is_nil written then no_date else not_a_date written) }
  | some day ↦ elim amount [
    | none ↦ record row { problem = some (if is_nil text then no_amount else not_an_amount text) }
    | some a ↦
        if eq_ℤ a (pos 0)
        then record row { problem = some zero_amount }
        else record row { amount = some (if flip then neg_ℤ a else a) }
  ]
]

pub data RowStatus : Type 0 where
  new duplicate possible_duplicate invalid : RowStatus

-- A row of the file, and what importing it would do.
pub record Reviewed : Type 0 where
  pub row : FileRow
  pub status : RowStatus
  pub payee : Option Text
  pub category_id : Option ℕ
  pub match : Option Transaction
