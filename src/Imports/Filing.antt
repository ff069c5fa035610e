-- ===== src/Imports/Filing.antt =====
-- Importing the rows of a file that people chose, and undoing it (`import_file`, `undo` and
-- `_balance_change` of backend/app/imports/service.py). `reviewed` is what `review` makes of the
-- rows, and `id_of` gives each new row of the table its id, by the line. Saved formats are left out.
-- An account that a transaction or an import refers to is there, and each row has one id.
pub mod Effects
pub mod Sums
pub mod Undone
use cashcove.Base.{
  ℕ, ◌+◌, ◌-◌, Bool, true, false, not, ◌&&◌, ◌||◌, Option, none, some, List, [], ◌∷◌, ◌++◌, map,
  ◌==◌, if◌then◌else◌, is_some, is_none, opt_eq, length, select, find, any_b, ℤ, pos, ◌+ℤ◌, ◌-ℤ◌,
  eq_ℤ, neg_ℤ,
}
use cashcove.Base.Text.{Text}
use cashcove.Calendar.{Date, date_min, date_max}
use cashcove.Finance.Store.{Transaction, TransactionSource, Subscription}
use cashcove.Finance.Recurring.{
  Reply, ok, fails, not_found, nothing_to_import, bank_balance, no_closing_balance, value_error,
  ◌>>=◌, unless, found_or,
}
use cashcove.Finance.Automations.{Engine}
use cashcove.Finance.Automations.RuleBook.{RuleBook, Sorted, load, sort}
use cashcove.Finance.Ledger.{
  LedgerAccount, Ledger, is_linked, importable_account, move_balance, with_account, sum_of,
  or_fails,
}
use cashcove.Finance.Budget.Flows.{sum}
use cashcove.Imports.Rows.{
  or_empty, Reviewed, FileRow, RowStatus, new, duplicate, possible_duplicate, invalid,
}

pub data BalanceChoice : Type 0 where
  take_file move keep : BalanceChoice

pub record FileImport : Type 0 where
  pub id : ℕ
  pub account_id : ℕ
  pub added : ℕ
  pub skipped : ℕ
  pub total : ℤ
  pub balance_change : ℤ
  pub first_date : Option Date
  pub last_date : Option Date
  pub created_at : ℕ

pub record Files : Type 0 where
  pub ledger : Ledger
  pub imports : List FileImport

pub record ImportCreate : Type 0 where
  pub account_id : ℕ
  pub lines : List ℕ
  pub balance : BalanceChoice

-- `status in IMPORTABLE`
abbrev pub is_importable : RowStatus → Bool
is_importable new = true
is_importable possible_duplicate = true
is_importable duplicate = false
is_importable invalid = false

unfoldable pub chosen_rows : List ℕ → List Reviewed → List Reviewed
chosen_rows lines reviewed =
    select
      (λ (item : Reviewed).
        any_b (λ line. line == item.row.line) lines && is_importable item.status)
      reviewed

abbrev pub amount_or_zero : Option ℤ → ℤ
amount_or_zero none = pos 0
amount_or_zero (some a) = a

unfoldable pub total_of : List Reviewed → ℤ
total_of items = sum (map (λ (item : Reviewed). amount_or_zero item.row.amount) items)

unfoldable pub balance_change : LedgerAccount → BalanceChoice → ℤ → Option ℤ → Reply ℤ
balance_change account keep total closing = ok (pos 0)
balance_change account move total closing = do _ ← unless (is_linked account) bank_balance; ok total
balance_change account take_file total closing = do
  _ ← unless (is_linked account) bank_balance
  balance ← found_or closing no_closing_balance
  ok (balance -ℤ account.balance)

-- The earliest and the latest of the days, where there is one.
first_day : List (Option Date) → Option Date
first_day [] = none
first_day (day ∷ days) = elim day [
  | none ↦ first_day days
  | some d ↦ elim (first_day days) [ none ↦ some d | some e ↦ some (date_min d e) ]
]

last_day : List (Option Date) → Option Date
last_day [] = none
last_day (day ∷ days) = elim day [
  | none ↦ last_day days
  | some d ↦ elim (last_day days) [ none ↦ some d | some e ↦ some (date_max d e) ]
]

-- `text or None`
abbrev pub unless_empty : Text → Option Text
unless_empty [] = none
unless_empty (c ∷ text) = some (c ∷ text)

-- The new row of a table for a row of the file with a date.
unfoldable pub filed : ℕ → ℕ → ℕ → ℕ → Date → Reviewed → Transaction
filed account record_id id now day item = record {
  id = id;
  account_id = account;
  on = day;
  amount = amount_or_zero item.row.amount;
  created_at = now;
  payee = or_empty item.payee;
  original_description = unless_empty item.row.description;
  category_id = item.category_id;
  category_chosen = false;
  subscription_id = none;
  notes = item.row.memo;
  source = TransactionSource.file;
  external_id = item.row.external_id;
  import_id = some record_id;
}

-- What the loop over the chosen rows leaves: how many were sorted, the rows and the payments.
pub record Added : Type 0 where
  pub sorted : ℕ
  pub transactions : List Transaction
  pub subscriptions : List Subscription

-- `if change:`
unfoldable pub moved_by : ℤ → ℕ → LedgerAccount → LedgerAccount
moved_by change now account =
    if eq_ℤ change (pos 0)
    then account
    else record account { balance = account.balance +ℤ change; balance_updated_at = now }

module _ (e : Engine) where
  -- The loop over the chosen rows, each of which has a date.
  unfoldable pub add_rows :
      RuleBook → ℕ → ℕ → (ℕ → ℕ) → ℕ → List Reviewed → List Subscription → Reply Added
  add_rows book account record_id id_of now [] subscriptions =
      ok (record { sorted = 0; transactions = []; subscriptions = subscriptions })
  add_rows book account record_id id_of now (item ∷ items) subscriptions = do
    day ← found_or item.row.date value_error
    first ← or_fails (
        sort e book false (filed account record_id (id_of item.row.line) now day item)
          subscriptions)
    rest ← add_rows book account record_id id_of now items first.subscriptions
    ok (record {
      sorted = if first.changed then rest.sorted + 1 else rest.sorted;
      transactions = first.transaction ∷ rest.transactions;
      subscriptions = rest.subscriptions;
    })

  -- The import, how many of its transactions were sorted, and the files.
  unfoldable pub import_file :
      Files
      → ImportCreate
      → List Reviewed
      → Option ℤ
      → ℕ
      → (ℕ → ℕ)
      → ℕ
      → Reply (FileImport × ℕ × Files)
  unfolding first_day last_day
  import_file files body reviewed closing id id_of now = do
    let ledger = files.ledger
    account ← importable_account ledger.accounts body.account_id
    let chosen = chosen_rows body.lines reviewed
    _ ← unless (length chosen == 0) nothing_to_import
    change ← balance_change account body.balance (total_of chosen) closing
    let days = map (λ (item : Reviewed). item.row.date) chosen
    let entry : FileImport = record {
      id = id;
      account_id = account.id;
      added = length chosen;
      skipped = length reviewed - length chosen;
      total = total_of chosen;
      balance_change = change;
      first_date = first_day days;
      last_date = last_day days;
      created_at = now;
    }
    added ←
        add_rows (load e ledger.automations ledger.db.subscriptions) account.id id id_of now chosen
          ledger.db.subscriptions
    ok (
      entry,
      added.sorted,
      record files {
        ledger = record ledger {
          accounts = with_account (moved_by change now account) ledger.accounts;
          db = record ledger.db {
            subscriptions = added.subscriptions;
            transactions = added.transactions ++ ledger.db.transactions;
          };
        };
        imports = entry ∷ files.imports;
      },
    )

abbrev pub is_of : ℕ → Transaction → Bool
is_of id t = opt_eq t.import_id (some id)

-- What `undo` does to the balance of an account, given the rows of the import.
unfoldable pub put_back : FileImport → List Transaction → ℕ → LedgerAccount → LedgerAccount
put_back entry rows now account =
    if account.id == entry.account_id
    then move_balance account ((entry.total -ℤ sum_of account.id rows) -ℤ entry.balance_change) now
    else if any_b (λ (t : Transaction). t.account_id == account.id) rows
    then move_balance account (neg_ℤ (sum_of account.id rows)) now
    else account

unfoldable pub undo : Files → ℕ → ℕ → Reply (ℕ × Files)
undo files id now = do
  entry ← found_or (find (λ (f : FileImport). f.id == id) files.imports) not_found
  let rows = select (is_of entry.id) files.ledger.db.transactions
  ok (
    length rows,
    record {
      ledger = record files.ledger {
        accounts = map (put_back entry rows now) files.ledger.accounts;
        db = record files.ledger.db {
          transactions = select (λ t. not (is_of entry.id t)) files.ledger.db.transactions;
        };
      };
      imports = select (λ (f : FileImport). not (f.id == entry.id)) files.imports;
    },
  )
