-- ===== src/Imports/Filing/Undone.antt =====
-- Undoing an import, whatever was done between the two.
use mathlib.Core.Path.{subst}
use cashcove.Base.{
  ℕ, true, false, not, ◌&&◌, Option, some, List, [], ◌∷◌, ◌++◌, map, ◌==◌, if◌then◌else◌, select,
  find, ℤ, pos, ◌+ℤ◌, ◌-ℤ◌, -ℤ_parts, +ℤ_parts, eq_of_parts, ◌≡◌, refl, sym, ap, ◌∙◌, arith,
  Bool-cases, inl, inr, All, length, zero_+ℤ,
}
use cashcove.Finance.Store.{Transaction}
use cashcove.Finance.Recurring.{ok, ◌>>=◌, found_or, >>=-eq-ok, unless-eq-ok, found_or-eq-ok}
use cashcove.Finance.Automations.{Engine}
use cashcove.Finance.Automations.RuleBook.{load}
use cashcove.Finance.Ledger.{
  LedgerAccount, AreDistinct, is_linked, sum_of, importable_account, chosen_account, open_for_more,
  with_account,
}
use cashcove.Imports.Rows.{Reviewed}
use cashcove.Imports.Filing.{
  FileImport, Files, ImportCreate, BalanceChoice, take_file, move, keep, total_of, balance_change,
  import_file, undo, is_of, put_back, moved_by, chosen_rows,
}
use cashcove.Imports.Filing.Effects.{
  Profile, profile, shift, put_back-profile, profile_kept, profile_linked, moved_by_kept,
  shift_kept, shift_linked,
}
use cashcove.Imports.Filing.Sums.{add_rows-sum, sum_of-append, Only, found-Only, ok_inj}

-- The accounts with their standing.
unfoldable pub profiles : Files → List Profile
profiles files = map (profile files.ledger.db.transactions) files.ledger.accounts

balance_change_linked :
    (account : LedgerAccount) (choice : BalanceChoice) (total : ℤ) (closing : Option ℤ) (change : ℤ)
    → balance_change account choice total closing ≡ ok change
    → is_linked account ≡ true
    → change ≡ pos 0
unfolding balance_change
balance_change_linked account keep total closing change h linked = sym (ok_inj h)
balance_change_linked account move total closing change h linked =
    let (u, e, _) = >>=-eq-ok _ _ h in let no_bank = unless-eq-ok _ _ u e in cc (no_bank, linked)
balance_change_linked account take_file total closing change h linked =
    let (u, e, _) = >>=-eq-ok _ _ h in let no_bank = unless-eq-ok _ _ u e in cc (no_bank, linked)

pub importable_account-find :
    (accounts : List LedgerAccount) (id : ℕ) (account : LedgerAccount)
    → importable_account accounts id ≡ ok account
    → find (λ (a : LedgerAccount). a.id == id) accounts ≡ some account
unfolding importable_account chosen_account open_for_more
importable_account-find accounts id account h =
    let (found, is_found, h1) = >>=-eq-ok _ _ h in
    let (_, _, h2) = >>=-eq-ok _ _ h1 in found_or-eq-ok _ _ found is_found ∙ ap some (ok_inj h2)

moved_by_id : (change : ℤ) (now : ℕ) (a : LedgerAccount) → (moved_by change now a).id ≡ a.id
unfolding moved_by
moved_by_id change now a = ground arith

moved_by_zero : (now : ℕ) (a : LedgerAccount) → moved_by (pos 0) now a ≡ a
unfolding moved_by
moved_by_zero now a = refl

more : (b change total old : ℤ) → (b +ℤ change) -ℤ (total +ℤ old) ≡ (b -ℤ old) +ℤ (change -ℤ total)
more b change total old = eq_of_parts _ _ (
    omega (
      arith,
      +ℤ_parts b change,
      +ℤ_parts total old,
      -ℤ_parts (b +ℤ change) (total +ℤ old),
      -ℤ_parts b old,
      -ℤ_parts change total,
      +ℤ_parts (b -ℤ old) (change -ℤ total),
    ))

-- One account, as an import of `total` into `account` moves its balance by `change`.
module _ (account : LedgerAccount) (change total : ℤ) (now : ℕ) (ts added : List Transaction)
    (sums : (id : ℕ) → sum_of id added ≡ (if account.id == id then total else pos 0))
    (bank : is_linked account ≡ true → change ≡ pos 0) where
  own-profile :
      profile (added ++ ts) (moved_by change now account)
      ≡ shift account.id (change -ℤ total) (profile ts account)
  own-profile = elim (Bool-cases (is_linked account)) [
    | inl h ↦
        rw
          (
            bank h,
            moved_by_zero now account,
            profile_linked (added ++ ts) account h,
            profile_linked ts account h,
          )
          (sym (shift_linked account.id _ account.id account.balance))
    | inr h ↦
        let itself : (account.id == account.id) ≡ true = ground arith in
        let sum_is = sums account.id ∙ rw itself refl in
        rw
          (
            profile_kept ts account h,
            shift_kept account.id (change -ℤ total) account.id
                (account.balance -ℤ sum_of account.id ts),
            itself,
          )
          (moved_by_kept (added ++ ts) account change now h
            ∙ rw (sum_of-append account.id added ts, sum_is)
                (ap (λ (x : ℤ). (account.id, false, x))
                  (more account.balance change total (sum_of account.id ts))))
  ]

  other-profile :
      (a : LedgerAccount)
      → (a.id == account.id) ≡ false
      → profile (added ++ ts) a ≡ shift account.id (change -ℤ total) (profile ts a)
  other-profile a other =
      let nothing : sum_of a.id added ≡ pos 0 =
        sums a.id ∙ (rw (differ account.id a.id other) refl) in
      elim (Bool-cases (is_linked a)) [
        | inl h ↦
            rw (profile_linked (added ++ ts) a h, profile_linked ts a h)
              (sym (shift_linked account.id _ a.id a.balance))
        | inr h ↦
            rw
              (
                profile_kept (added ++ ts) a h,
                profile_kept ts a h,
                shift_kept account.id (change -ℤ total) a.id (a.balance -ℤ sum_of a.id ts),
                other,
                sum_of-append a.id added ts,
                nothing,
                zero_+ℤ,
              )
              refl
      ]
    where
      differ : (m n : ℕ) → (n == m) ≡ false → (m == n) ≡ false
      differ m n h = ground arith

  row-profile :
      (a : LedgerAccount)
      → Only account a
      → profile
          (added ++ ts)
          (if a.id == (moved_by change now account).id then moved_by change now account else a)
        ≡ shift account.id (change -ℤ total) (profile ts a)
  row-profile a only =
      rw (ap (λ (n : ℕ). a.id == n) (moved_by_id change now account))
        (elim (Bool-cases (a.id == account.id)) [
          | inl e ↦ rw e (
              own-profile
              ∙ ap (λ b. shift account.id (change -ℤ total) (profile ts b)) (sym (only e)))
          | inr e ↦ rw e (other-profile a e)
        ])

  written-profiles :
      (accounts : List LedgerAccount)
      → All (Only account) accounts
      → map (profile (added ++ ts)) (with_account (moved_by change now account) accounts)
        ≡ map (shift account.id (change -ℤ total)) (map (profile ts) accounts)
  unfolding with_account
  written-profiles [] only = refl
  written-profiles (a ∷ accounts) only =
      λ i. row-profile a only.0 i ∷ written-profiles accounts only.1 i

import_file-profiles :
    (e : Engine) (files : Files) (body : ImportCreate) (reviewed : List Reviewed)
    (closing : Option ℤ) (id : ℕ) (id_of : ℕ → ℕ) (now : ℕ) (entry : FileImport) (sorted : ℕ)
    (imported : Files)
    → AreDistinct files.ledger.accounts
    → import_file e files body reviewed closing id id_of now ≡ ok (entry, sorted, imported)
    → profiles imported
      ≡ map (shift entry.account_id (entry.balance_change -ℤ entry.total)) (profiles files)
unfolding import_file profiles
import_file-profiles e files body reviewed closing id id_of now entry sorted imported distinct h =
    let (account, finds, h1) = >>=-eq-ok _ _ h in
    let (_, _, h2) = >>=-eq-ok _ _ h1 in
    let (change, changes, h3) = >>=-eq-ok _ _ h2 in
    let (added, adds, h4) = >>=-eq-ok _ _ h3 in
    let ledger = files.ledger in
    let chosen = chosen_rows body.lines reviewed in
    subst
      (λ (r : FileImport × ℕ × Files).
        profiles r.2
        ≡ map (shift r.0.account_id (r.0.balance_change -ℤ r.0.total)) (profiles files))
      (ok_inj h4)
      (written-profiles account change (total_of chosen) now ledger.db.transactions
        added.transactions
        (add_rows-sum e (load e ledger.automations ledger.db.subscriptions) account.id id id_of now
          chosen ledger.db.subscriptions added adds)
        (balance_change_linked account body.balance (total_of chosen) closing change changes)
        ledger.accounts
        (found-Only body.account_id ledger.accounts account distinct
          (importable_account-find ledger.accounts body.account_id account finds)))

map-put_back :
    (entry : FileImport) (ts : List Transaction) (now : ℕ) (accounts : List LedgerAccount)
    → map
        (profile (select (λ t. not (is_of entry.id t)) ts))
        (map (put_back entry (select (is_of entry.id) ts) now) accounts)
      ≡ map
          (shift entry.account_id (entry.total -ℤ entry.balance_change))
          (map (profile ts) accounts)
map-put_back entry ts now [] = refl
map-put_back entry ts now (a ∷ accounts) =
    λ i. put_back-profile entry ts now a i ∷ map-put_back entry ts now accounts i

cancels : (s total change : ℤ) → (s +ℤ (change -ℤ total)) +ℤ (total -ℤ change) ≡ s
cancels s total change = eq_of_parts _ _ (
    omega (
      arith,
      -ℤ_parts change total,
      -ℤ_parts total change,
      +ℤ_parts s (change -ℤ total),
      +ℤ_parts (s +ℤ (change -ℤ total)) (total -ℤ change),
    ))

shift-shift :
    (account : ℕ) (total change : ℤ) (p : Profile)
    → shift account (total -ℤ change) (shift account (change -ℤ total) p) ≡ p
unfolding shift
shift-shift account total change (id, linked, s) = elim (Bool-cases (id == account && not linked)) [
  | inl h ↦ rw h (λ i. (id, linked, cancels s total change i))
  | inr h ↦ rw h refl
]

map-shift-shift :
    (account : ℕ) (total change : ℤ) (ps : List Profile)
    → map (shift account (total -ℤ change)) (map (shift account (change -ℤ total)) ps) ≡ ps
map-shift-shift account total change [] = refl
map-shift-shift account total change (p ∷ ps) =
    λ i. shift-shift account total change p i ∷ map-shift-shift account total change ps i

-- What `undo` leaves, for an import that is in the table.
abbrev pub without : Files → FileImport → ℕ → Files
without files entry now = record {
  ledger = record files.ledger {
    accounts =
        map (put_back entry (select (is_of entry.id) files.ledger.db.transactions) now)
          files.ledger.accounts;
    db = record files.ledger.db {
      transactions = select (λ t. not (is_of entry.id t)) files.ledger.db.transactions;
    };
  };
  imports = select (λ (f : FileImport). not (f.id == entry.id)) files.imports;
}

undo-without :
    (files : Files) (id now : ℕ) (entry : FileImport)
    → find (λ (f : FileImport). f.id == id) files.imports ≡ some entry
    → undo files id now
      ≡ ok (length (select (is_of entry.id) files.ledger.db.transactions), without files entry now)
unfolding undo found_or ◌>>=◌
undo-without files id now entry h = rw (h, found_or) refl

-- Undoing an import succeeds as long as its entry is there, and then every account has the standing
-- that it had before the import: what the household keeps in its balance besides its transactions,
-- and the balance of a linked one. This holds whatever was done between the two, as long as it
-- left the standing of the accounts as the import had made it: transactions of the import may have
-- been deleted, changed or moved since. Accounts have one id each.
pub undo-import_file :
    (e : Engine) (files : Files) (body : ImportCreate) (reviewed : List Reviewed)
    (closing : Option ℤ) (id : ℕ) (id_of : ℕ → ℕ) (now : ℕ) (entry : FileImport) (sorted : ℕ)
    (imported later : Files) (then_now : ℕ)
    → AreDistinct files.ledger.accounts
    → import_file e files body reviewed closing id id_of now ≡ ok (entry, sorted, imported)
    → find (λ (f : FileImport). f.id == entry.id) later.imports ≡ some entry
    → profiles later ≡ profiles imported
    → (deleted : ℕ) × (undone : Files) × (undo later entry.id then_now ≡ ok (deleted, undone))
      × (profiles undone ≡ profiles files)
undo-import_file e files body reviewed closing id id_of now entry sorted imported later then_now
      distinct h found same =
    (
      length (select (is_of entry.id) later.ledger.db.transactions),
      without later entry then_now,
      undo-without later entry.id then_now entry found,
      unfold profiles in
          map-put_back entry later.ledger.db.transactions then_now later.ledger.accounts
          ∙ ap (map (shift entry.account_id (entry.total -ℤ entry.balance_change))) (
              same
              ∙ import_file-profiles e files body reviewed closing id id_of now entry sorted
                  imported distinct h)
          ∙ map-shift-shift entry.account_id entry.total entry.balance_change (profiles files),
    )
