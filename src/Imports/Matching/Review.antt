-- ===== src/Imports/Matching/Review.antt =====
-- Each row's fate (`_matched` and `review` of backend/app/imports/matching.py).
use cashcove.Base.{
  ℕ, ◌-◌, Bool, not, ◌&&◌, Option, none, some, List, [], ◌∷◌, map, ◌==◌, if◌then◌else◌, is_some,
  is_none, select, any_b, pos, negsuc,
}
use cashcove.Base.Text.{Text}
use cashcove.Calendar.{Date, date_leb, date_min, date_max, add_days}
use cashcove.Finance.Store.{Transaction}
use cashcove.Imports.Rows.{
  FileRow, in_the_file_twice, Reviewed, new, duplicate, possible_duplicate, invalid,
}
use cashcove.Imports.Matching.{window, same_ids, same_id, same, near}
use cashcove.Imports.Matching.Names.{name}

-- Dictionaries from a line to a transaction.
abbrev pub Found : Type 0
Found = List (ℕ × Transaction)

unfoldable pub found_at : Found → ℕ → Option Transaction
found_at [] line = none
found_at ((l, t) ∷ found) line =
    let rest = found_at found line in if l == line then some t else rest

-- What the loops of `_matched` carry: what is found, and what is used.
abbrev pub noted : ℕ → Option Transaction × List ℕ → Found → Found × List ℕ
noted line (none, used) found = (found, used)
noted line (some t, used) found = ((line, t) ∷ found, used)

unfoldable pub readable_days : List FileRow → List Date
readable_days [] = []
readable_days (row ∷ rows) = elim row.date [
  | none ↦ readable_days rows
  | some day ↦ if is_none row.problem then day ∷ readable_days rows else readable_days rows
]

unfoldable pub earliest : Date → List Date → Date
earliest day [] = day
earliest day (d ∷ days) = earliest (date_min day d) days

unfoldable pub latest : Date → List Date → Date
latest day [] = day
latest day (d ∷ days) = latest (date_max day d) days

-- The transactions of the account: those from around the file's days, and all of them. Three days
-- before the first day or after the last one of the calendar Python raises: `none`.
unfoldable pub around :
    List Transaction → Option ℕ → List FileRow → Option (List Transaction × List Transaction)
around transactions none rows = some ([], [])
around transactions (some account) rows = elim (readable_days rows) [
  | [] ↦ some ([], [])
  | day ∷ days ↦ elim (add_days (earliest day days) (negsuc (window - 1))) [
    | none ↦ none
    | some first ↦ elim (add_days (latest day days) (pos window)) [
      | none ↦ none
      | some last ↦
          let own = select (λ (t : Transaction). t.account_id == account) transactions in
          some (select (λ (t : Transaction). date_leb first t.on && date_leb t.on last) own, own)
    ]
  ]
]

module _ (key : Text → Text) (file_category : Option Text → Option ℕ) (recent : List Transaction)
    (cut : Text → Text) (unknown : Text) where
  -- The loops of `_matched`; `fresh` tells the rows that they go over.
  unfoldable pub match_ids :
      List Transaction
      → (FileRow → Bool)
      → List FileRow
      → Found
      → List ℕ
      → List FileRow × Found × List ℕ
  match_ids account fresh [] found used = ([], found, used)
  match_ids account fresh (row ∷ rows) found used =
      let tried = if fresh row then same_id key account used row else ((none, used), row) in
      let now = noted row.line tried.0 found in
      let rest = match_ids account fresh rows now.0 now.1 in (tried.1 ∷ rest.0, rest.1, rest.2)

  unfoldable pub match_same :
      List Transaction → (FileRow → Bool) → Found → List FileRow → Found → List ℕ → Found × List ℕ
  match_same existing fresh matches [] found used = (found, used)
  match_same existing fresh matches (row ∷ rows) found used =
      let tried =
        if fresh row && is_none (found_at matches row.line)
        then same key existing used row
        else (none, used) in
      let now = noted row.line tried found in match_same existing fresh matches rows now.0 now.1

  unfoldable pub match_near :
      List Transaction
      → (FileRow → Bool)
      → Found
      → List FileRow
      → List FileRow
      → Found
      → List ℕ
      → Found × List ℕ
  match_near existing fresh matches all [] found used = (found, used)
  match_near existing fresh matches all (row ∷ rows) found used =
      let tried =
        if fresh row && (is_none (found_at matches row.line) && is_none (found_at found row.line))
        then near key existing used row (name key file_category recent cut unknown all row).0
        else (none, used) in
      let now = noted row.line tried found in match_near existing fresh matches all rows now.0 now.1

  -- `_matched`: the rows as they are left, the matches, and the possible ones.
  unfoldable pub matched :
      List Transaction
      → List Transaction
      → (FileRow → Bool)
      → List FileRow
      → List FileRow × Found × Found
  matched existing account fresh rows =
      let by_id = match_ids account fresh rows [] [] in
      let by_content = match_same existing fresh by_id.1 by_id.0 [] by_id.2 in
      (
        by_id.0,
        by_id.1,
        (match_near existing fresh by_id.1 (select fresh rows) by_id.0 by_content.0 by_content.1).0,
      )

  -- What `review` says of a row.
  unfoldable pub fate : List ℕ → List FileRow → Found → Found → FileRow → Reviewed
  fate repeats all matches possible row =
      let plain : Reviewed = record {
        row = row;
        status = invalid;
        payee = none;
        category_id = none;
        match = none;
      } in
      let named = name key file_category recent cut unknown all row in
      if is_some row.problem
      then plain
      else if any_b (λ line. line == row.line) repeats
      then record plain {
        row = record row { problem = some in_the_file_twice };
        status = duplicate;
      }
      else elim (found_at matches row.line) [
        | some t ↦ record plain { status = duplicate; match = some t }
        | none ↦ record plain {
          status = if is_some (found_at possible row.line) then possible_duplicate else new;
          payee = some named.0;
          category_id = named.1;
          match = found_at possible row.line;
        }
      ]

  -- `review` of the rows, given the transactions around them and those of the account.
  unfoldable pub review_among : List Transaction → List Transaction → List FileRow → List Reviewed
  review_among existing account rows =
      let checked = same_ids key [] rows in
      let fresh = λ (row : FileRow).
        is_none row.problem && not (any_b (λ line. line == row.line) checked.1) in
      let done = matched existing account fresh checked.0 in
      map (fate checked.1 (select fresh checked.0) done.1 done.2) done.0

  -- `review` of rows for an account, where there is one.
  unfoldable pub review : List Transaction → Option ℕ → List FileRow → Option (List Reviewed)
  review transactions account rows = elim (around transactions account rows) [
    | none ↦ none
    | some (existing, own) ↦ some (review_among existing own rows)
  ]
