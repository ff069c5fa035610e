-- ===== src/Finance/Ledger/Balance.antt =====
-- The balance of an account that the household keeps follows its transactions.
use cashcove.Base.{
  All, All-map, or_true, ◌+◌, pos_part, neg_part, -ℤ_parts, +ℤ_parts, ℕ, ◌≡◌, refl, ap, sym, ◌∙◌,
  inl, inr, Bool, true, false, not, ◌&&◌, ◌||◌, List, [], ◌∷◌, map, ◌==◌, if◌then◌else◌, Bool-cases,
  arith, select, any_b, any_b-select, and_false, and_true, All, ℤ, pos, ◌+ℤ◌, ◌-ℤ◌, eq_ℤ, neg_ℤ,
  eq_of_parts, +ℤ_parts, -ℤ_parts, +ℤ-assoc, +ℤ-comm, zero_+ℤ,
}
use cashcove.Finance.Store.{Transaction}
use cashcove.Finance.Budget.Flows.{sum}
use cashcove.Finance.Ledger.{
  LedgerAccount, Ledger, is_linked, move_balance, sum_of, is_among, taken_out, remove,
  delete_transactions,
}

-- What an account that the household keeps has besides its transactions; the balance that the bank
-- reports of another one.
unfoldable pub standing : List Transaction → LedgerAccount → ℤ
standing transactions a = if is_linked a then a.balance else a.balance -ℤ sum_of a.id transactions

pub sum_of-select :
    (account : ℕ) (q : Transaction → Bool) (ts : List Transaction)
    → sum_of account ts
      ≡ sum_of account (select q ts) +ℤ sum_of account (select (λ t. not (q t)) ts)
unfolding sum_of sum
sum_of-select account q [] = sym (zero_+ℤ (pos 0))
sum_of-select account q (t ∷ ts) = elim (Bool-cases (t.account_id == account)) [
  | inr other ↦ elim (Bool-cases (q t)) [
    | inl e ↦ rw (e, other) (sum_of-select account q ts)
    | inr e ↦ rw (e, other) (sum_of-select account q ts)
  ]
  | inl mine ↦ elim (Bool-cases (q t)) [
    | inl e ↦
        rw (e, mine)
          (ap (λ x. t.amount +ℤ x) (sum_of-select account q ts) ∙ sym (+ℤ-assoc t.amount _ _))
    | inr e ↦
        rw (e, mine)
          (ap (λ x. t.amount +ℤ x) (sum_of-select account q ts)
            ∙ sym (+ℤ-assoc t.amount _ _)
            ∙ ap (λ x. x +ℤ sum_of account (select (λ u. not (q u)) ts))
                (+ℤ-comm t.amount (sum_of account (select q ts)))
            ∙ +ℤ-assoc _ _ _)
  ]
]

pub sum_of-none :
    (account : ℕ) (ts : List Transaction)
    → any_b (λ t. t.account_id == account) ts ≡ false
    → sum_of account ts ≡ pos 0
unfolding sum_of sum
sum_of-none account [] h = refl
sum_of-none account (t ∷ ts) h = elim (Bool-cases (t.account_id == account)) [
  | inl mine ↦ let k = rw mine at h in absurd (ground (arith, k))
  | inr other ↦ rw other (sum_of-none account ts (rw other at h))
]

pub neg_parts : (a : ℤ) → pos_part (neg_ℤ a) + pos_part a ≡ neg_part (neg_ℤ a) + neg_part a
neg_parts a = ground arith

-- `n` is what takes `s` back.
moved_back :
    (b n s r : ℤ)
    → pos_part n + pos_part s ≡ neg_part n + neg_part s
    → (b +ℤ n) -ℤ r ≡ b -ℤ (s +ℤ r)
moved_back b n s r h =
    eq_of_parts ((b +ℤ n) -ℤ r) (b -ℤ (s +ℤ r))
      (omega (arith, h, +ℤ_parts b n, -ℤ_parts (b +ℤ n) r, +ℤ_parts s r, -ℤ_parts b (s +ℤ r)))

zero_back :
    (b n s r : ℤ)
    → pos_part n + pos_part s ≡ neg_part n + neg_part s
    → eq_ℤ n (pos 0) ≡ true
    → b -ℤ r ≡ b -ℤ (s +ℤ r)
zero_back b n s r h k =
    let none_at_all : pos_part n ≡ neg_part n = ground arith in
    eq_of_parts (b -ℤ r) (b -ℤ (s +ℤ r))
      (omega (arith, h, none_at_all, -ℤ_parts b r, +ℤ_parts s r, -ℤ_parts b (s +ℤ r)))

taken_out-standing :
    (items rest : List Transaction) (now : ℕ) (a : LedgerAccount)
    → is_linked a ≡ false
    → (taken_out items now a).balance -ℤ sum_of a.id rest
      ≡ a.balance -ℤ (sum_of a.id items +ℤ sum_of a.id rest)
unfolding taken_out move_balance
taken_out-standing items rest now a kept =
    elim (Bool-cases (any_b (λ t. t.account_id == a.id) items)) [
      | inr untouched ↦ rw (untouched, sum_of-none a.id items untouched, zero_+ℤ) refl
      | inl touched ↦ elim (Bool-cases (eq_ℤ (neg_ℤ (sum_of a.id items)) (pos 0))) [
        | inl nothing ↦
            rw (touched, kept, nothing)
              (zero_back a.balance _ (sum_of a.id items) (sum_of a.id rest)
                (neg_parts (sum_of a.id items)) nothing)
        | inr change ↦
            rw (touched, kept, change)
              (moved_back a.balance _ (sum_of a.id items) (sum_of a.id rest)
                (neg_parts (sum_of a.id items)))
      ]
    ]

linked-kept :
    (items : List Transaction) (now : ℕ) (a : LedgerAccount)
    → is_linked a ≡ true
    → taken_out items now a ≡ a
unfolding taken_out move_balance
linked-kept items now a bank = elim (Bool-cases (any_b (λ t. t.account_id == a.id) items)) [
  | inl touched ↦ rw (touched, bank) refl
  | inr untouched ↦ rw untouched refl
]

-- The ids that a request names, and the rows that it deletes.
abbrev named : List ℕ → Transaction → Bool
named ids t = any_b (λ id. id == t.id) ids

named-same : (ids : List ℕ) (t u : Transaction) → (u.id == t.id) ≡ true → named ids u ≡ named ids t
named-same ids t u h = let same : u.id ≡ t.id = ground arith in rw same refl

or_itself : (b c : Bool) → (b || b && c) ≡ b
or_itself true c = refl
or_itself false c = refl

among_named :
    (ids : List ℕ) (ts : List Transaction) (t : Transaction)
    → any_b (λ u. named ids u && u.id == t.id) ts ≡ (named ids t && any_b (λ u. u.id == t.id) ts)
among_named ids [] t = rw (and_false (named ids t)) refl
among_named ids (u ∷ ts) t = elim (Bool-cases (u.id == t.id)) [
  | inl same ↦
      rw (same, and_true, named-same ids t u same, among_named ids ts t, and_true)
        (or_itself (named ids t) _)
  | inr other ↦ rw (other, and_false, among_named ids ts t) refl
]

All-there : (ts : List Transaction) → All (λ t. any_b (λ u. u.id == t.id) ts ≡ true) ts
All-there [] = tt
All-there (t ∷ ts) =
    let itself : (t.id == t.id) ≡ true = ground arith in
    (
      rw itself refl,
      All-map (λ v. any_b (λ u. u.id == v.id) ts ≡ true)
          (λ v. (t.id == v.id || any_b (λ u. u.id == v.id) ts) ≡ true) ts
          (λ v there. rw (there, or_true) refl) (All-there ts),
    )

rest-named :
    (ids : List ℕ) (ts l : List Transaction)
    → All (λ t. any_b (λ u. u.id == t.id) ts ≡ true) l
    → select (λ t. not (is_among (select (named ids) ts) t)) l ≡ select (λ t. not (named ids t)) l
rest-named ids ts [] there = refl
rest-named ids ts (t ∷ l) there =
    let among : is_among (select (named ids) ts) t ≡ named ids t =
      any_b-select (λ u. u.id == t.id) (named ids) ts
      ∙ among_named ids ts t
      ∙ rw (there.0, and_true) refl in
    elim (Bool-cases (named ids t)) [
      | inl e ↦ rw (among, e) (rest-named ids ts l there.1)
      | inr e ↦ rw (among, e) (ap (λ r. t ∷ r) (rest-named ids ts l there.1))
    ]

taken_out_same :
    (items : List Transaction) (now : ℕ) (a : LedgerAccount)
    → (is_linked (taken_out items now a) ≡ is_linked a) × ((taken_out items now a).id ≡ a.id)
unfolding taken_out move_balance
taken_out_same items now a = elim (Bool-cases (any_b (λ t. t.account_id == a.id) items)) [
  | inr untouched ↦ rw untouched (refl, refl)
  | inl touched ↦ elim (Bool-cases (is_linked a || eq_ℤ (neg_ℤ (sum_of a.id items)) (pos 0))) [
    | inl stays ↦ rw (touched, stays) (refl, refl)
    | inr moves ↦ rw (touched, moves) (refl, refl)
  ]
]

map_each :
    (f h : LedgerAccount → ℤ) (g : LedgerAccount → LedgerAccount) (l : List LedgerAccount)
    → ((a : LedgerAccount) → f (g a) ≡ h a)
    → map f (map g l) ≡ map h l
map_each f h g [] e = refl
map_each f h g (a ∷ l) e = rw (e a, map_each f h g l e) refl

same_standing :
    (ids : List ℕ) (now : ℕ) (ts : List Transaction) (a : LedgerAccount)
    → standing
        (select (λ t. not (is_among (select (named ids) ts) t)) ts)
        (taken_out (select (named ids) ts) now a)
      ≡ standing ts a
unfolding standing
same_standing ids now ts a = elim (Bool-cases (is_linked a)) [
  | inl bank ↦ rw (linked-kept (select (named ids) ts) now a bank, standing, bank) refl
  | inr kept ↦
      let items = select (named ids) ts in
      let rest = select (λ t. not (is_among items t)) ts in
      let (source, id) = taken_out_same items now a in
      rw (standing, source, kept, id)
        (taken_out-standing items rest now a kept
          ∙ ap (λ r. a.balance -ℤ (sum_of a.id items +ℤ sum_of a.id r))
              (rest-named ids ts ts (All-there ts))
          ∙ ap (λ x. a.balance -ℤ x) (sym (sum_of-select a.id (named ids) ts)))
]

-- Deleting transactions leaves what each account has besides its transactions as it was: the
-- balance of an account that the household keeps moves back by what they come to, and a linked
-- one's stays.
pub delete_transactions-standing :
    (ledger : Ledger) (ids : List ℕ) (now : ℕ)
    → map
        (standing (delete_transactions ledger ids now).1.db.transactions)
        (delete_transactions ledger ids now).1.accounts
      ≡ map (standing ledger.db.transactions) ledger.accounts
unfolding delete_transactions remove
delete_transactions-standing ledger ids now =
    map_each _ (standing ledger.db.transactions) _ ledger.accounts
      (same_standing ids now ledger.db.transactions)
