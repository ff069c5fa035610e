-- ===== src/Imports/Matching/Once.antt =====
-- Each transaction of the account is matched by one row of the file at most.
use mathlib.Core.Path.{subst}
use mathlib.Core.List.{append-nil}
use cashcove.Base.{
  ℕ, Bool, true, false, ◌&&◌, Option, none, some, List, [], ◌∷◌, ◌++◌, map, ◌==◌, if◌then◌else◌,
  is_none, any_b, leb, eq_ℤ, find, select, ◌≡◌, refl, ap, ◌∙◌, ◌⊎◌, inl, inr, Bool-cases,
  Option-cases,
}
use cashcove.Base.Text.{Text}
use cashcove.Finance.Store.{Transaction}
use cashcove.Finance.Text.{is_nil}
use cashcove.Imports.Rows.{FileRow}
use cashcove.Imports.Matching.{
  is_used, take, same_text, amount_of, day_of, apart, window, same_id, same, near,
}
use cashcove.Imports.Matching.Names.{name}
use cashcove.Imports.Matching.Review.{
  Found, found_at, noted, match_ids, match_same, match_near, matched,
}

-- No number twice.
abbrev pub AllOnce : List ℕ → Type 0
AllOnce [] = Unit
AllOnce (x ∷ xs) = (any_b (λ y. y == x) xs ≡ false) × AllOnce xs

unfoldable pub ids : Found → List ℕ
ids found = map (λ p. p.1.id) found

-- What is used is what was found, before what was used at first.
record Keeps (base used : List ℕ) (found : Found) : Type 0 where
  tracked : used ≡ ids found ++ base
  once : AllOnce used

-- An answer of `take`, or none.
abbrev Takes : List ℕ → Option Transaction × List ℕ → Type 0
Takes used answer =
    (answer ≡ (none, used))
    ⊎ ((t : Transaction) × (is_used used t ≡ false) × (answer ≡ (some t, t.id ∷ used)))

take-Takes : (o : Option Transaction) (used : List ℕ) → Takes used (take o used)
unfolding take
take-Takes none used = inl refl
take-Takes (some t) used = elim (Bool-cases (is_used used t)) [
  | inl e ↦ rw e (inl refl)
  | inr e ↦ rw e (inr (t, e, refl))
]

noted-Keeps :
    (base used : List ℕ) (found : Found) (line : ℕ) (answer : Option Transaction × List ℕ)
    → Takes used answer
    → Keeps base used found
    → Keeps base (noted line answer found).1 (noted line answer found).0
unfolding ids
noted-Keeps base used found line answer (inl e) h = rw e h
noted-Keeps base used found line answer (inr (t, free, e)) h =
    rw e (record { tracked = ap (λ l. t.id ∷ l) h.tracked; once = (free, h.once) })

module _ (key : Text → Text) where
  same_id-Takes :
      (account : List Transaction) (used : List ℕ) (row : FileRow)
      → Takes used (same_id key account used row).0
  unfolding same_id
  same_id-Takes account used row = elim (Option-cases row.external_id) [
    | inl e ↦ rw (e, same_id) (inl refl)
    | inr (id, e) ↦
        rw (e, same_id)
          (elim (Bool-cases (is_nil id)) [
            | inl h ↦ rw h (inl refl)
            | inr h ↦
                rw h
                  (elim (Option-cases
                    (find (λ (t : Transaction). same_text t.external_id id) account)) [
                      | inl f ↦ rw f (inl refl)
                      | inr (t, f) ↦
                          rw f
                            (elim (Bool-cases (
                              eq_ℤ t.amount (amount_of row)
                              && leb (apart t.on (day_of row)) window)) [
                                | inl k ↦ rw k (take-Takes (some t) used)
                                | inr k ↦ rw k (inl refl)
                              ])
                    ])
          ])
  ]

  same-Takes :
      (existing : List Transaction) (used : List ℕ) (row : FileRow)
      → Takes used (same key existing used row)
  unfolding same
  same-Takes existing used row = take-Takes _ used

  near-Takes :
      (existing : List Transaction) (used : List ℕ) (row : FileRow) (payee : Text)
      → Takes used (near key existing used row payee)
  unfolding near
  near-Takes existing used row payee = take-Takes _ used

tried-Takes :
    (b : Bool) (used : List ℕ) (answer : Option Transaction × List ℕ)
    → Takes used answer
    → Takes used (if b then answer else (none, used))
tried-Takes true used answer h = h
tried-Takes false used answer h = inl refl

module _ (key : Text → Text) (file_category : Option Text → Option ℕ) (recent : List Transaction)
    (cut : Text → Text) (unknown : Text) where
  match_ids-Keeps :
      (account : List Transaction) (fresh : FileRow → Bool) (rows : List FileRow) (found : Found)
      (base used : List ℕ)
      → Keeps base used found
      → Keeps base
          (match_ids key file_category recent cut unknown account fresh rows found used).2
          (match_ids key file_category recent cut unknown account fresh rows found used).1
  unfolding match_ids
  match_ids-Keeps account fresh [] found base used h = h
  match_ids-Keeps account fresh (row ∷ rows) found base used h =
      let tried = if fresh row then same_id key account used row else ((none, used), row) in
      let now = noted row.line tried.0 found in
      match_ids-Keeps account fresh rows now.0 base now.1
        (noted-Keeps base used found row.line tried.0 (either (fresh row) account used row) h)
    where
      either :
          (b : Bool) (account : List Transaction) (used : List ℕ) (row : FileRow)
          → Takes used (if b then same_id key account used row else ((none, used), row)).0
      either true account used row = same_id-Takes key account used row
      either false account used row = inl refl

  match_same-Keeps :
      (existing : List Transaction) (fresh : FileRow → Bool) (matches : Found) (rows : List FileRow)
      (found : Found) (base used : List ℕ)
      → Keeps base used found
      → Keeps base
          (match_same key file_category recent cut unknown existing fresh matches rows found used).1
          (match_same key file_category recent cut unknown existing fresh matches rows found used).0
  unfolding match_same
  match_same-Keeps existing fresh matches [] found base used h = h
  match_same-Keeps existing fresh matches (row ∷ rows) found base used h =
      let test = fresh row && is_none (found_at matches row.line) in
      let answer = same key existing used row in
      let now = noted row.line (if test then answer else (none, used)) found in
      match_same-Keeps existing fresh matches rows now.0 base now.1 (
        noted-Keeps base used found row.line _
          (tried-Takes test used answer (same-Takes key existing used row)) h)

  match_near-Keeps :
      (existing : List Transaction) (fresh : FileRow → Bool) (matches : Found)
      (all rows : List FileRow) (found : Found) (base used : List ℕ)
      → Keeps base used found
      → Keeps base
          (match_near key file_category recent cut unknown existing fresh matches all rows found
            used).1
          (match_near key file_category recent cut unknown existing fresh matches all rows found
            used).0
  unfolding match_near
  match_near-Keeps existing fresh matches all [] found base used h = h
  match_near-Keeps existing fresh matches all (row ∷ rows) found base used h =
      let test =
        fresh row && (is_none (found_at matches row.line) && is_none (found_at found row.line)) in
      let answer =
        near key existing used row (name key file_category recent cut unknown all row).0 in
      let now = noted row.line (if test then answer else (none, used)) found in
      match_near-Keeps existing fresh matches all rows now.0 base now.1 (
        noted-Keeps base used found row.line _
          (tried-Takes test used answer (
            near-Takes key existing used row (name key file_category recent cut unknown all row).0))
          h)

  -- Of the transactions that the rows of a file are matched to, as the same ones by their IDs or as
  -- ones that they possibly repeat, none is matched to two rows: a file with two equal rows
  -- matches two transactions, not one of them twice.
  pub matched-AllOnce :
      (existing account : List Transaction) (fresh : FileRow → Bool) (rows : List FileRow)
      → AllOnce (
          ids (matched key file_category recent cut unknown existing account fresh rows).2
          ++ ids (matched key file_category recent cut unknown existing account fresh rows).1)
  unfolding matched
  matched-AllOnce existing account fresh rows =
      let by_id = match_ids key file_category recent cut unknown account fresh rows [] [] in
      let first =
        match_ids-Keeps account fresh rows [] [] []
          (unfold ids in record { tracked = refl; once = tt }) in
      let second =
        match_same-Keeps existing fresh by_id.1 by_id.0 [] by_id.2 by_id.2
          (unfold ids in record { tracked = refl; once = first.once }) in
      let by_content =
        match_same key file_category recent cut unknown existing fresh by_id.1 by_id.0 [] by_id.2 in
      let third =
        match_near-Keeps existing fresh by_id.1 (select fresh rows) by_id.0 by_content.0 by_id.2
          by_content.1 second in
      subst AllOnce
        (third.tracked
          ∙ ap
              (λ l.
                ids
                  (match_near key file_category recent cut unknown existing fresh by_id.1
                    (select fresh rows) by_id.0 by_content.0 by_content.1).0
                ++ l)
              (first.tracked ∙ append-nil (ids by_id.1)))
        third.once
