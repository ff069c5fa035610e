-- ===== src/Imports/Filing/Sums.antt =====
-- What the transactions that an import adds come to, and the account that it finds.
use mathlib.Core.Path.{subst}
use cashcove.Base.{
  ℕ, Bool, true, false, Option, none, some, List, [], ◌∷◌, ◌++◌, map, ◌==◌, if◌then◌else◌, find,
  any_b, ℤ, pos, ◌+ℤ◌, ◌≡◌, refl, sym, ap, ◌∙◌, arith, Bool-cases, inl, inr, All, zero_+ℤ, +ℤ-assoc,
}
use cashcove.Calendar.{Date}
use cashcove.Finance.Store.{Transaction, Subscription}
use cashcove.Finance.Subscriptions.{Outcome}
use cashcove.Finance.Recurring.{Reply, ok, >>=-eq-ok}
use cashcove.Finance.Automations.{Engine}
use cashcove.Finance.Automations.RuleBook.{RuleBook, Sorted, sort, sorting, link_to, categorize_as}
use cashcove.Finance.Budget.Flows.{sum}
use cashcove.Finance.Ledger.{LedgerAccount, AreDistinct, sum_of, or_fails}
use cashcove.Imports.Rows.{Reviewed}
use cashcove.Imports.Filing.{Added, filed, add_rows, total_of, amount_or_zero}

-- The account and the amount of a transaction.
abbrev Same : Transaction → Transaction → Type 0
Same t u = (u.account_id ≡ t.account_id) × (u.amount ≡ t.amount)

link_to-Same :
    (given : Option ℕ) (t : Transaction) (subscriptions : List Subscription) (r : Sorted)
    → link_to given t subscriptions ≡ Outcome.ok r
    → Same t r.transaction
unfolding link_to
link_to-Same none t subscriptions r h = ground arith
link_to-Same (some id) t subscriptions r h = ground arith

categorize_as-Same :
    (category : Option ℕ) (keep : Bool) (r : Sorted)
    → Same r.transaction (categorize_as category keep r).transaction
unfolding categorize_as
categorize_as-Same category keep r = ground arith

sorted-Same :
    (category : Option ℕ) (keep : Bool) (t : Transaction) (o : Outcome Sorted) (r : Sorted)
    → ((x : Sorted) → o ≡ Outcome.ok x → Same t x.transaction)
    → (elim o as (λ o. Outcome Sorted) [
      | Outcome.ok x ↦ Outcome.ok (categorize_as category keep x)
      | Outcome.raises ↦ Outcome.raises
      | Outcome.stuck ↦ Outcome.stuck
    ])
      ≡ Outcome.ok r
    → Same t r.transaction
sorted-Same category keep t (Outcome.ok x) r f h =
    ground (arith, f x refl, categorize_as-Same category keep x)
sorted-Same category keep t Outcome.raises r f h = cc
sorted-Same category keep t Outcome.stuck r f h = cc

pub or_fails-eq-ok : (o : Outcome Sorted) (r : Sorted) → or_fails o ≡ ok r → o ≡ Outcome.ok r
unfolding or_fails
or_fails-eq-ok (Outcome.ok x) r h = cc
or_fails-eq-ok Outcome.raises r h = cc
or_fails-eq-ok Outcome.stuck r h = cc

sum_of-cons :
    (id : ℕ) (t : Transaction) (ts : List Transaction)
    → sum_of id (t ∷ ts) ≡ (if t.account_id == id then t.amount +ℤ sum_of id ts else sum_of id ts)
unfolding sum_of sum
sum_of-cons id t ts = elim (Bool-cases (t.account_id == id)) [
  | inl e ↦ rw e refl
  | inr e ↦ rw e refl
]

pub sum_of-append :
    (id : ℕ) (ts us : List Transaction) → sum_of id (ts ++ us) ≡ sum_of id ts +ℤ sum_of id us
sum_of-append id [] us = unfold sum_of sum in sym (zero_+ℤ (sum_of id us))
sum_of-append id (t ∷ ts) us =
    rw (sum_of-cons id t (ts ++ us), sum_of-cons id t ts, sum_of-append id ts us)
      (elim (Bool-cases (t.account_id == id)) [
        | inl e ↦ rw e (sym (+ℤ-assoc t.amount (sum_of id ts) (sum_of id us)))
        | inr e ↦ rw e refl
      ])

pub ok_inj {ℓ} : {A : Type ℓ} {a b : A} → Reply.ok a ≡ ok b → a ≡ b
ok_inj h = cc

row_sum :
    (m account id : ℕ) (x a rest tot : ℤ)
    → m ≡ account
    → x ≡ a
    → rest ≡ (if account == id then tot else pos 0)
    → (if m == id then x +ℤ rest else rest) ≡ (if account == id then a +ℤ tot else pos 0)
row_sum m account id x a rest tot p q r =
    rw (p, q, r) (elim (Bool-cases (account == id)) [ inl h ↦ rw h refl | inr h ↦ rw h refl ])

added_row :
    (account record_id row_id now : ℕ) (day : Date) (item : Reviewed) (items : List Reviewed)
    (t : Transaction) (ts : List Transaction) (id : ℕ)
    → Same (filed account record_id row_id now day item) t
    → sum_of id ts ≡ (if account == id then total_of items else pos 0)
    → sum_of id (t ∷ ts) ≡ (if account == id then total_of (item ∷ items) else pos 0)
unfolding total_of sum filed
added_row account record_id row_id now day item items t ts id same after =
    sum_of-cons id t ts
    ∙ row_sum t.account_id account id t.amount (amount_or_zero item.row.amount) (sum_of id ts)
        (total_of items) same.0 same.1 after

no_rows : (b : Bool) → pos 0 ≡ (if b then pos 0 else pos 0)
no_rows true = refl
no_rows false = refl

module _ (e : Engine) where
  sort-Same :
      (book : RuleBook) (keep : Bool) (t : Transaction) (subscriptions : List Subscription)
      (r : Sorted)
      → sort e book keep t subscriptions ≡ Outcome.ok r
      → Same t r.transaction
  unfolding sort
  sort-Same book keep t subscriptions r h =
      let given = sorting e book subscriptions t in
      sorted-Same given.category_id keep t (link_to given.subscription t subscriptions) r
        (link_to-Same given.subscription t subscriptions) h

  -- The rows that are added come to the total, all in the one account.
  pub add_rows-sum :
      (book : RuleBook) (account record_id : ℕ) (id_of : ℕ → ℕ) (now : ℕ) (items : List Reviewed)
      (subscriptions : List Subscription) (added : Added)
      → add_rows e book account record_id id_of now items subscriptions ≡ ok added
      → (id : ℕ) → sum_of id added.transactions ≡ (if account == id then total_of items else pos 0)
  unfolding add_rows
  add_rows-sum book account record_id id_of now [] subscriptions added h id =
      subst
        (λ (a : Added). sum_of id a.transactions ≡ (if account == id then total_of [] else pos 0))
        (ok_inj h) (unfold sum_of total_of sum in no_rows (account == id))
  add_rows-sum book account record_id id_of now (item ∷ items) subscriptions added h id =
      let (day, _, h1) = >>=-eq-ok _ _ h in
      let (first, sorts, h2) = >>=-eq-ok _ _ h1 in
      let (more, adds, h3) = >>=-eq-ok _ _ h2 in
      let same =
        sort-Same book false (filed account record_id (id_of item.row.line) now day item)
          subscriptions first (or_fails-eq-ok _ first sorts) in
      let after =
        add_rows-sum book account record_id id_of now items first.subscriptions more adds id in
      subst
        (λ (a : Added).
          sum_of id a.transactions ≡ (if account == id then total_of (item ∷ items) else pos 0))
        (ok_inj h3)
        (added_row account record_id (id_of item.row.line) now day item items first.transaction
          more.transactions id same after)

-- The account that is found is the only one with its id.
pub found_id :
    (id : ℕ) (accounts : List LedgerAccount) (account : LedgerAccount)
    → find (λ (a : LedgerAccount). a.id == id) accounts ≡ some account
    → account.id ≡ id
found_id id [] account h = cc
found_id id (a ∷ accounts) account h = ground (arith, found_id id accounts account)

abbrev pub Only : LedgerAccount → LedgerAccount → Type 0
Only account a = (a.id == account.id) ≡ true → a ≡ account

none-Only :
    (id : ℕ) (accounts : List LedgerAccount) (account : LedgerAccount)
    → account.id ≡ id
    → any_b (λ (b : LedgerAccount). b.id == id) accounts ≡ false
    → All (Only account) accounts
none-Only id [] account same h = tt
none-Only id (a ∷ accounts) account same h =
    (λ e. absurd (ground arith), none-Only id accounts account same (ground arith))

pub found-Only :
    (id : ℕ) (accounts : List LedgerAccount) (account : LedgerAccount)
    → AreDistinct accounts
    → find (λ (a : LedgerAccount). a.id == id) accounts ≡ some account
    → All (Only account) accounts
found-Only id [] account h found = tt
found-Only id (a ∷ accounts) account h found = elim (Bool-cases (a.id == id)) [
  | inl e ↦
      let same : a ≡ account = ground arith in
      (
        λ e'. same,
        none-Only a.id accounts account (ap (λ (b : LedgerAccount). b.id) (sym same)) h.0,
      )
  | inr e ↦
      let own = found_id id accounts account (rw e at found) in
      (λ e'. absurd (ground arith), found-Only id accounts account h.1 (rw e at found))
]

pub map-All :
    {B : Type 0} (f g : LedgerAccount → B) (l : List LedgerAccount)
    → All (λ a. f a ≡ g a) l
    → map f l ≡ map g l
map-All f g [] h = refl
map-All f g (a ∷ l) h = rw (h.0, map-All f g l h.1) refl
