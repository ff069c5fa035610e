-- ===== src/Imports/Matching/Fates.antt =====
-- Every row of the file has a fate, in the order of the file.
use mathlib.Core.Path.{subst}
use cashcove.Base.{
  ℕ, Bool, true, false, Option, none, some, List, [], ◌∷◌, map, if◌then◌else◌, is_some, ◌≡◌, refl,
  ◌∙◌, inl, inr, arith, Option-cases, ℤ,
}
use cashcove.Base.Text.{Text}
use cashcove.Calendar.{Date}
use cashcove.Finance.Store.{Transaction}
use cashcove.Imports.Rows.{
  FileRow, Reviewed, RowStatus, new, duplicate, possible_duplicate, invalid,
}
use cashcove.Imports.Matching.{check_id, same_ids, same_id}
use cashcove.Imports.Matching.Review.{
  Found, noted, match_ids, matched, fate, review_among, review, around,
}

abbrev pub is_invalid : RowStatus → Bool
is_invalid invalid = true
is_invalid new = false
is_invalid duplicate = false
is_invalid possible_duplicate = false

-- What the file says of a row, and whether it can't be read.
abbrev pub Contents : Type 0
Contents = ℕ × Option Date × Option ℤ × Text × Bool

unfoldable pub contents : FileRow → Bool → Contents
contents row unreadable = (row.line, row.date, row.amount, row.description, unreadable)

abbrev pub of_row : FileRow → Contents
of_row row = contents row (is_some row.problem)

abbrev pub of_fate : Reviewed → Contents
of_fate item = contents item.row (is_invalid item.status)

none-ne-some {ℓ} : {A : Type ℓ} {a : A} → none ≡ some a → ⊥
none-ne-some e = cc

some_inj {ℓ} : {A : Type ℓ} {a b : A} → some a ≡ some b → a ≡ b
some_inj e = cc

either-of_row :
    (b : Bool) (x y : List FileRow × List ℕ) (l : List Contents)
    → map of_row x.0 ≡ l
    → map of_row y.0 ≡ l
    → map of_row (if b then x else y).0 ≡ l
either-of_row true x y l h k = h
either-of_row false x y l h k = k

module _ (key : Text → Text) where
  check_id-of_row :
      (seen : List (Text × FileRow)) (row : FileRow) → of_row (check_id key seen row).0 ≡ of_row row
  unfolding check_id contents
  check_id-of_row seen row = ground arith

  same_ids-of_row :
      (seen : List (Text × FileRow)) (rows : List FileRow)
      → map of_row (same_ids key seen rows).0 ≡ map of_row rows
  unfolding same_ids
  same_ids-of_row seen [] = refl
  same_ids-of_row seen (row ∷ rows) =
      let after = same_ids-of_row (check_id key seen row).2 rows in
      let skipped = same_ids-of_row seen rows in
      either-of_row (is_some row.problem) _ _ (of_row row ∷ map of_row rows)
        (λ i. of_row row ∷ skipped i) (λ i. check_id-of_row seen row i ∷ after i)

  same_id-of_row :
      (account : List Transaction) (used : List ℕ) (row : FileRow)
      → of_row (same_id key account used row).1 ≡ of_row row
  unfolding same_id contents
  same_id-of_row account used row = ground arith

module _ (key : Text → Text) (file_category : Option Text → Option ℕ) (recent : List Transaction)
    (cut : Text → Text) (unknown : Text) where
  match_ids-of_row :
      (account : List Transaction) (fresh : FileRow → Bool) (rows : List FileRow) (found : Found)
      (used : List ℕ)
      → map of_row (match_ids key file_category recent cut unknown account fresh rows found used).0
        ≡ map of_row rows
  unfolding match_ids
  match_ids-of_row account fresh [] found used = refl
  match_ids-of_row account fresh (row ∷ rows) found used =
      let tried = if fresh row then same_id key account used row else ((none, used), row) in
      let now = noted row.line tried.0 found in
      let rest = match_ids-of_row account fresh rows now.0 now.1 in
      let own = either (fresh row) account used row in λ i. own i ∷ rest i
    where
      either :
          (b : Bool) (account : List Transaction) (used : List ℕ) (row : FileRow)
          → of_row (if b then same_id key account used row else ((none, used), row)).1 ≡ of_row row
      either true account used row = same_id-of_row key account used row
      either false account used row = refl

  fate-of_row :
      (repeats : List ℕ) (all : List FileRow) (matches possible : Found) (row : FileRow)
      → of_fate (fate key file_category recent cut unknown repeats all matches possible row)
        ≡ of_row row
  unfolding fate contents
  fate-of_row repeats all matches possible row = ground arith

  map-fate-of_row :
      (repeats : List ℕ) (all : List FileRow) (matches possible : Found) (rows : List FileRow)
      → map of_fate
          (map (fate key file_category recent cut unknown repeats all matches possible) rows)
        ≡ map of_row rows
  map-fate-of_row repeats all matches possible [] = refl
  map-fate-of_row repeats all matches possible (row ∷ rows) = λ i.
      fate-of_row repeats all matches possible row i
      ∷ map-fate-of_row repeats all matches possible rows i

  review_among-of_row :
      (existing account : List Transaction) (rows : List FileRow)
      → map of_fate (review_among key file_category recent cut unknown existing account rows)
        ≡ map of_row rows
  unfolding review_among matched
  review_among-of_row existing account rows =
      map-fate-of_row _ _ _ _ _
      ∙ match_ids-of_row account _ (same_ids key [] rows).0 [] []
      ∙ same_ids-of_row key [] rows

  -- The review of a file has one item for each of its rows, in their order, with the row's line,
  -- date, amount and description; exactly the rows that can't be read are invalid.
  pub review-of_row :
      (transactions : List Transaction) (account : Option ℕ) (rows : List FileRow)
      (items : List Reviewed)
      → review key file_category recent cut unknown transactions account rows ≡ some items
      → map of_fate items ≡ map of_row rows
  unfolding review
  review-of_row transactions account rows items h =
      elim (Option-cases (around transactions account rows)) [
        | inl e ↦ absurd (none-ne-some (rw (e, review) at h))
        | inr ((existing, own), e) ↦
            subst (λ l. map of_fate l ≡ map of_row rows) (some_inj (rw (e, review) at h))
              (review_among-of_row existing own rows)
      ]
