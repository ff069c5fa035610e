-- ===== src/Imports/Preview.antt =====
-- The rows of a preview (`_effect` and `_row_out` of backend/app/imports/service.py), for a file
-- whose account is known.
pub mod Shown
pub mod Imported
use cashcove.Base.{
  ℕ, Bool, false, not, ◌&&◌, Option, none, some, List, [], ◌∷◌, map, if◌then◌else◌, is_none, ℤ,
}
use cashcove.Base.Text.{Text}
use cashcove.Calendar.{Date}
use cashcove.Finance.Store.{Transaction, TransactionSource, Subscription}
use cashcove.Finance.Automations.{Engine}
use cashcove.Finance.Automations.RuleBook.{RuleBook, or_first, sorting, load}
use cashcove.Finance.Ledger.{Ledger}
use cashcove.Imports.Rows.{or_empty, Problem, Reviewed, RowStatus}
use cashcove.Imports.Filing.{is_importable, unless_empty}

pub record AutomationEffect : Type 0 where
  pub category_id : Option ℕ
  pub subscription_id : Option ℕ

pub record PreviewRow : Type 0 where
  pub line : ℕ
  pub date : Option Date
  pub amount : Option ℤ
  pub payee : Option Text
  pub description : Option Text
  pub memo : Option Text
  pub category_id : Option ℕ
  pub status : RowStatus
  pub problem : Option Problem
  pub match : Option Transaction
  pub automation : Option AutomationEffect

-- The transaction that `_effect` makes, whose other columns are not set.
unfoldable pub unsaved : ℕ → Date → ℤ → Reviewed → Transaction
unsaved account day amount item = record {
  id = 0;
  account_id = account;
  on = day;
  amount = amount;
  created_at = 0;
  payee = or_empty item.payee;
  original_description = unless_empty item.row.description;
  category_id = none;
  category_chosen = false;
  subscription_id = none;
  notes = none;
  source = TransactionSource.manual;
  external_id = none;
  import_id = none;
}

unfoldable pub row_out : Reviewed → Option AutomationEffect → PreviewRow
row_out item effect = record {
  line = item.row.line;
  date = item.row.date;
  amount = item.row.amount;
  payee = item.payee;
  description = unless_empty item.row.description;
  memo = item.row.memo;
  category_id = elim effect [
    | none ↦ item.category_id
    | some given ↦ or_first given.category_id item.category_id
  ];
  status = item.status;
  problem = item.row.problem;
  match = item.match;
  automation = effect;
}

module _ (e : Engine) where
  -- The end of `_effect`, for a row with an amount and a date.
  unfoldable pub effect_of :
      RuleBook → List Subscription → ℕ → Reviewed → ℤ → Date → Option AutomationEffect
  effect_of book subscriptions account item amount day =
      let given = sorting e book subscriptions (unsaved account day amount item) in
      if not (is_importable item.status)
      then none
      else if is_none given.category_id && is_none given.subscription
      then none
      else some (record { category_id = given.category_id; subscription_id = given.subscription })

  unfoldable pub effect : RuleBook → List Subscription → ℕ → Reviewed → Option AutomationEffect
  effect book subscriptions account item = elim item.row.amount [
    | none ↦ none
    | some amount ↦ elim item.row.date [
      | none ↦ none
      | some day ↦ effect_of book subscriptions account item amount day
    ]
  ]

  -- The rows of `preview`.
  unfoldable pub preview_rows : Ledger → ℕ → List Reviewed → List PreviewRow
  preview_rows ledger account reviewed =
      let book = load e ledger.automations ledger.db.subscriptions in
      map (λ item. row_out item (effect book ledger.db.subscriptions account item)) reviewed
