-- ===== src/Imports/Filing/Effects.antt =====
-- What importing a file and undoing an import do to the standing of each account.
use cashcove.Base.{
  ℕ, Bool, true, false, not, ◌&&◌, List, ◌==◌, if◌then◌else◌, select, any_b, ℤ, pos, ◌+ℤ◌, ◌-ℤ◌,
  eq_ℤ, neg_ℤ, pos_part, neg_part, -ℤ_parts, +ℤ_parts, eq_of_parts, ◌≡◌, refl, sym, ap, ◌∙◌, arith,
  Bool-cases, inl, inr, zero_+ℤ, and_true, and_false,
}
use cashcove.Finance.Store.{Transaction}
use cashcove.Finance.Ledger.{LedgerAccount, is_linked, move_balance, sum_of}
use cashcove.Finance.Ledger.Balance.{standing, sum_of-select, sum_of-none, neg_parts}
use cashcove.Imports.Filing.{FileImport, is_of, put_back, moved_by}

-- An account's id, whether it is linked, and its standing.
abbrev pub Profile : Type 0
Profile = ℕ × Bool × ℤ

unfoldable pub profile : List Transaction → LedgerAccount → Profile
profile transactions a = (a.id, is_linked a, standing transactions a)

-- A change to the standing of one account, unless it is linked.
unfoldable pub shift : ℕ → ℤ → Profile → Profile
shift account change (id, linked, s) =
    (id, linked, if id == account && not linked then s +ℤ change else s)

move_balance_linked :
    (a : LedgerAccount) (change : ℤ) (now : ℕ) → is_linked a ≡ true → move_balance a change now ≡ a
unfolding move_balance
move_balance_linked a change now h = rw h refl

-- The balance after a change that may be nothing.
plus_zero : (b d : ℤ) → eq_ℤ d (pos 0) ≡ true → b ≡ b +ℤ d
plus_zero b d h =
    let nothing : pos_part d ≡ neg_part d = ground arith in
    eq_of_parts b (b +ℤ d) (omega (arith, nothing, +ℤ_parts b d))

pub profile_kept :
    (ts : List Transaction) (a : LedgerAccount)
    → is_linked a ≡ false
    → profile ts a ≡ (a.id, false, a.balance -ℤ sum_of a.id ts)
unfolding profile standing
profile_kept ts a h = rw h refl

pub profile_linked :
    (ts : List Transaction) (a : LedgerAccount)
    → is_linked a ≡ true
    → profile ts a ≡ (a.id, true, a.balance)
unfolding profile standing
profile_linked ts a h = rw h refl

pub moved_by_kept :
    (ts : List Transaction) (a : LedgerAccount) (change : ℤ) (now : ℕ)
    → is_linked a ≡ false
    → profile ts (moved_by change now a) ≡ (a.id, false, (a.balance +ℤ change) -ℤ sum_of a.id ts)
unfolding moved_by
moved_by_kept ts a change now h = elim (Bool-cases (eq_ℤ change (pos 0))) [
  | inl e ↦ rw e (
      profile_kept ts a h
      ∙ ap (λ (b : ℤ). (a.id, false, b -ℤ sum_of a.id ts)) (plus_zero a.balance change e))
  | inr e ↦
      rw e
        (profile_kept ts (record a { balance = a.balance +ℤ change; balance_updated_at = now }) h)
]

move_balance_kept :
    (ts : List Transaction) (a : LedgerAccount) (change : ℤ) (now : ℕ)
    → is_linked a ≡ false
    → profile ts (move_balance a change now)
      ≡ (a.id, false, (a.balance +ℤ change) -ℤ sum_of a.id ts)
move_balance_kept ts a change now h =
    same_move a change now h
      (λ b. profile ts b ≡ (a.id, false, (a.balance +ℤ change) -ℤ sum_of a.id ts))
      (moved_by_kept ts a change now h)
  where
    same_move :
        (a : LedgerAccount) (change : ℤ) (now : ℕ)
        → is_linked a ≡ false
        → (P : LedgerAccount → Type 0) → P (moved_by change now a)
        → P (move_balance a change now)
    same_move a change now h P p = unfold move_balance moved_by in rw h p

pub shift_kept :
    (account : ℕ) (change : ℤ) (id : ℕ) (s : ℤ)
    → shift account change (id, false, s) ≡ (id, false, if id == account then s +ℤ change else s)
unfolding shift
shift_kept account change id s = rw and_true refl

pub shift_linked :
    (account : ℕ) (change : ℤ) (id : ℕ) (s : ℤ) → shift account change (id, true, s) ≡ (id, true, s)
unfolding shift
shift_linked account change id s = rw and_false refl

-- The rows of an import and the others.
kept_sum :
    (ts : List Transaction) (account import_id : ℕ)
    → sum_of account ts
      ≡ sum_of account (select (is_of import_id) ts)
        +ℤ sum_of account (select (λ t. not (is_of import_id t)) ts)
kept_sum ts account import_id = sum_of-select account (is_of import_id) ts

back :
    (b total rows change rest : ℤ)
    → (b +ℤ ((total -ℤ rows) -ℤ change)) -ℤ rest ≡ (b -ℤ (rows +ℤ rest)) +ℤ (total -ℤ change)
back b total rows change rest = eq_of_parts _ _ (
    omega (
      arith,
      -ℤ_parts total rows,
      -ℤ_parts (total -ℤ rows) change,
      +ℤ_parts b ((total -ℤ rows) -ℤ change),
      -ℤ_parts (b +ℤ ((total -ℤ rows) -ℤ change)) rest,
      +ℤ_parts rows rest,
      -ℤ_parts b (rows +ℤ rest),
      -ℤ_parts total change,
      +ℤ_parts (b -ℤ (rows +ℤ rest)) (total -ℤ change),
    ))

other_back : (b rows rest : ℤ) → (b +ℤ neg_ℤ rows) -ℤ rest ≡ b -ℤ (rows +ℤ rest)
other_back b rows rest = eq_of_parts _ _ (
    omega (
      arith,
      neg_parts rows,
      +ℤ_parts b (neg_ℤ rows),
      -ℤ_parts (b +ℤ neg_ℤ rows) rest,
      +ℤ_parts rows rest,
      -ℤ_parts b (rows +ℤ rest),
    ))

module _ (entry : FileImport) (ts : List Transaction) (now : ℕ) where
  abbrev rows : List Transaction
  rows = select (is_of entry.id) ts

  abbrev rest : List Transaction
  rest = select (λ t. not (is_of entry.id t)) ts

  abbrev Restores : LedgerAccount → Type 0
  Restores a =
      profile rest (put_back entry rows now a)
      ≡ shift entry.account_id (entry.total -ℤ entry.balance_change) (profile ts a)

  put_back_linked : (a : LedgerAccount) → is_linked a ≡ true → put_back entry rows now a ≡ a
  unfolding put_back
  put_back_linked a h =
      let stays = λ (change : ℤ). move_balance_linked a change now h in
      elim (Bool-cases (a.id == entry.account_id)) [
        | inl own ↦ rw own (stays _)
        | inr other ↦ elim (Bool-cases (any_b (λ (t : Transaction). t.account_id == a.id) rows)) [
          | inl some_rows ↦ rw (other, some_rows) (stays _)
          | inr no_rows ↦ rw (other, no_rows) refl
        ]
      ]

  linked-Restores : (a : LedgerAccount) → is_linked a ≡ true → Restores a
  linked-Restores a h =
      rw (put_back_linked a h, profile_linked rest a h, profile_linked ts a h)
        (sym (shift_linked entry.account_id (entry.total -ℤ entry.balance_change) a.id a.balance))

  kept-Restores : (a : LedgerAccount) → is_linked a ≡ false → Restores a
  unfolding put_back
  kept-Restores a h =
      rw
        (
          profile_kept ts a h,
          shift_kept entry.account_id (entry.total -ℤ entry.balance_change) a.id
              (a.balance -ℤ sum_of a.id ts),
          kept_sum ts a.id entry.id,
        )
        (elim (Bool-cases (a.id == entry.account_id)) [
          | inl own ↦
              rw own (
                move_balance_kept rest a _ now h
                ∙ ap (λ (x : ℤ). (a.id, false, x)) (back _ _ _ _ _))
          | inr other ↦ elim (Bool-cases (any_b (λ (t : Transaction). t.account_id == a.id) rows)) [
            | inl some_rows ↦
                rw (other, some_rows)
                  (move_balance_kept rest a _ now h
                    ∙ ap (λ (x : ℤ). (a.id, false, x)) (other_back _ _ _))
            | inr no_rows ↦
                rw (other, no_rows, sum_of-none a.id rows no_rows, zero_+ℤ) (profile_kept rest a h)
          ]
        ])

  pub put_back-profile : (a : LedgerAccount) → Restores a
  put_back-profile a = elim (Bool-cases (is_linked a)) [
    | inl h ↦ linked-Restores a h
    | inr h ↦ kept-Restores a h
  ]
