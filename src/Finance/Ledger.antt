-- ===== src/Finance/Ledger.antt =====
-- Accounts, and the transactions that people add and delete (backend/app/finance/accounts.py,
-- `categorize` of backend/app/finance/transactions.py, and the routes of
-- backend/app/api/transactions.py that add and delete). `now` is the time on the server.
pub mod Balance
mod Examples
use cashcove.Base.{
  ℕ, Bool, true, false, not, ◌||◌, Option, none, some, List, [], ◌∷◌, map, ◌==◌, if◌then◌else◌,
  is_some, length, select, find, any_b, ◌≡◌, ℤ, pos, ◌+ℤ◌, ◌-ℤ◌, eq_ℤ, neg_ℤ,
}
use cashcove.Base.Text.{Text}
use cashcove.Calendar.{Date}
use cashcove.Finance.Store.{Transaction, TransactionSource, Subscription, Db}
use cashcove.Finance.Subscriptions.{Outcome}
use cashcove.Finance.Recurring.{
  Reply, ok, fails, not_found, unknown_account, closed_account, linked_account, value_error,
  unfinished, ◌>>=◌, unless, found_or, find_category,
}
use cashcove.Finance.Automations.{Engine, Automation}
use cashcove.Finance.Automations.RuleBook.{Sorted, load, sort}
use cashcove.Finance.Budget.Flows.{sum}

pub data AccountSource : Type 0 where
  manual plaid : AccountSource

pub record LedgerAccount : Type 0 where
  pub id : ℕ
  pub source : AccountSource
  pub balance : ℤ
  pub balance_updated_at : ℕ
  pub closed_at : Option ℕ

-- Ids are unique.
abbrev pub AreDistinct : List LedgerAccount → Type 0
AreDistinct [] = Unit
AreDistinct (a ∷ accounts) =
    (any_b (λ (b : LedgerAccount). b.id == a.id) accounts ≡ false) × AreDistinct accounts

pub record Ledger : Type 0 where
  pub accounts : List LedgerAccount
  pub db : Db
  pub automations : List Automation

abbrev pub is_linked : LedgerAccount → Bool
is_linked account = elim account.source [
  | AccountSource.manual ↦ false
  | AccountSource.plaid ↦ true
]

unfoldable pub get_account : List LedgerAccount → ℕ → Reply LedgerAccount
get_account accounts id = found_or (find (λ a. a.id == id) accounts) not_found

unfoldable pub chosen_account : List LedgerAccount → ℕ → Reply LedgerAccount
chosen_account accounts id = found_or (find (λ a. a.id == id) accounts) unknown_account

-- `_open`
unfoldable pub open_for_more : LedgerAccount → Reply LedgerAccount
open_for_more account = do _ ← unless (is_some account.closed_at) closed_account; ok account

unfoldable pub writable_account : List LedgerAccount → ℕ → Reply LedgerAccount
writable_account accounts id = do
  account ← chosen_account accounts id
  _ ← unless (is_linked account) linked_account
  open_for_more account

unfoldable pub importable_account : List LedgerAccount → ℕ → Reply LedgerAccount
importable_account accounts id = do account ← chosen_account accounts id; open_for_more account

unfoldable pub move_balance : LedgerAccount → ℤ → ℕ → LedgerAccount
move_balance account change now =
    if is_linked account || eq_ℤ change (pos 0)
    then account
    else record account { balance = account.balance +ℤ change; balance_updated_at = now }

-- The row of an account written over its old one.
unfoldable pub with_account : LedgerAccount → List LedgerAccount → List LedgerAccount
with_account account rows = map (λ row. if row.id == account.id then account else row) rows

pub record TransactionCreate : Type 0 where
  pub account_id : ℕ
  pub date : Date
  pub amount : ℤ
  pub payee : Text
  pub category_id : Option ℕ
  pub notes : Option Text

unfoldable pub added_by_hand : TransactionCreate → ℕ → ℕ → Transaction
added_by_hand body id now = record {
  id = id;
  account_id = body.account_id;
  on = body.date;
  amount = body.amount;
  created_at = now;
  payee = body.payee;
  original_description = none;
  notes = body.notes;
  source = TransactionSource.manual;
  external_id = none;
  import_id = none;
  category_id = body.category_id;
  category_chosen = is_some body.category_id;
  subscription_id = none;
}

unfoldable pub or_fails : Outcome Sorted → Reply Sorted
or_fails (Outcome.ok r) = ok r
or_fails Outcome.raises = fails value_error
or_fails Outcome.stuck = fails unfinished

-- What all of an account's transactions of the list come to.
unfoldable pub sum_of : ℕ → List Transaction → ℤ
sum_of account transactions =
    sum (map (λ t. t.amount) (select (λ t. t.account_id == account) transactions))

abbrev pub is_among : List Transaction → Transaction → Bool
is_among items t = any_b (λ item. item.id == t.id) items

-- `_remove` moves each account that has one of the transactions, back by what they come to.
unfoldable pub taken_out : List Transaction → ℕ → LedgerAccount → LedgerAccount
taken_out items now account =
    if any_b (λ t. t.account_id == account.id) items
    then move_balance account (neg_ℤ (sum_of account.id items)) now
    else account

-- How many it removes, and the ledger. The transactions are rows of the table.
unfoldable pub remove : Ledger → List Transaction → ℕ → ℕ × Ledger
remove ledger items now = (
  length items,
  record ledger {
    accounts = map (taken_out items now) ledger.accounts;
    db = record ledger.db {
      transactions = select (λ t. not (is_among items t)) ledger.db.transactions;
    };
  },
)

-- `delete_transactions`
unfoldable pub delete_transactions : Ledger → List ℕ → ℕ → ℕ × Ledger
delete_transactions ledger ids now =
    remove ledger (select (λ t. any_b (λ id. id == t.id) ids) ledger.db.transactions) now

-- `delete_transaction`
pub delete_transaction : Ledger → ℕ → ℕ → Reply (ℕ × Ledger)
delete_transaction ledger id now = do
  t ← found_or (find (λ t. t.id == id) ledger.db.transactions) not_found
  ok (remove ledger (t ∷ []) now)

pub categorize : Db → List ℕ → Option ℕ → Reply (ℕ × Db)
categorize db ids category_id = do
  category ← find_category db category_id
  let changed = select (λ (t : Transaction). any_b (λ id. id == t.id) ids) db.transactions
  ok (
    length changed,
    record db {
      transactions =
          map
            (λ t.
              if any_b (λ id. id == t.id) ids
              then record t { category_id = category; category_chosen = is_some category }
              else t)
            db.transactions;
    },
  )

module _ (e : Engine) where
  unfoldable pub create_transaction :
      Ledger → TransactionCreate → ℕ → ℕ → Reply (Transaction × Ledger)
  create_transaction ledger body id now = do
    account ← writable_account ledger.accounts body.account_id
    category ← find_category ledger.db body.category_id
    sorted ← or_fails (
        sort e (load e ledger.automations ledger.db.subscriptions) false (added_by_hand body id now)
          ledger.db.subscriptions)
    ok (
      sorted.transaction,
      record ledger {
        accounts = with_account (move_balance account body.amount now) ledger.accounts;
        db = record ledger.db {
          subscriptions = sorted.subscriptions;
          transactions = sorted.transaction ∷ ledger.db.transactions;
        };
      },
    )
