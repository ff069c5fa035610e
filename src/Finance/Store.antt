-- ===== src/Finance/Store.antt =====
-- The tables that sorting and recurring payments share (backend/app/models: transaction.py,
-- subscription.py, account.py), with the columns that they read or write. Ids are only compared,
-- so numbers stand for them; an amount is in cents, negative for money out.
use cashcove.Base.{ℕ, Bool, Option, List, ℤ}
use cashcove.Base.Text.{Text}
use cashcove.Calendar.{Date}

pub data TransactionSource : Type 0 where
  manual plaid file : TransactionSource

pub record Transaction : Type 0 where
  pub id : ℕ
  pub account_id : ℕ
  pub on : Date
  pub amount : ℤ
  pub created_at : ℕ
  pub payee : Text
  pub original_description : Option Text
  pub category_id : Option ℕ
  pub category_chosen : Bool
  pub subscription_id : Option ℕ
  pub notes : Option Text
  pub source : TransactionSource
  pub external_id : Option Text
  pub import_id : Option ℕ

pub data PaymentFrequency : Type 0 where
  weekly biweekly monthly bimonthly quarterly semiannual annual : PaymentFrequency

pub data RecurringKind : Type 0 where
  subscription bill : RecurringKind

pub record Subscription : Type 0 where
  pub id : ℕ
  pub name : Text
  pub kind : RecurringKind
  pub payee : Text
  pub amount : ℕ
  pub amount_varies : Bool
  pub frequency : PaymentFrequency
  pub account_id : ℕ
  pub next_due_date : Date
  pub category_id : Option ℕ
  pub notes : Option Text
  pub active : Bool
  pub ends_on : Option Date
  pub cancelled_on : Option Date

pub record Account : Type 0 where
  pub id : ℕ
  pub is_closed : Bool

pub record Db : Type 0 where
  pub accounts : List Account
  pub categories : List ℕ
  pub subscriptions : List Subscription
  pub transactions : List Transaction
