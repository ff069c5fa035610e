-- ===== src/Finance/Ledger/Examples.antt =====
-- Deleting at a concrete input: one of two payments from an account that the household keeps.
use cashcove.Base.{◌≡◌, refl, none, false, [], ◌∷◌, map, pos, negsuc, ◌+ℤ◌}
use cashcove.Calendar.{date}
use cashcove.Finance.Store.{Transaction, TransactionSource}
use cashcove.Finance.Budget.Flows.{sum}
use cashcove.Finance.Ledger.{
  AccountSource, LedgerAccount, Ledger, move_balance, sum_of, taken_out, remove,
  delete_transactions,
}
use cashcove.Finance.Ledger.Balance.{standing, delete_transactions-standing}

abbrev lunch : Transaction
lunch = record {
  id = 1;
  account_id = 5;
  on = date 2024 1 30;
  amount = negsuc 1498;
  created_at = 20;
  payee = [];
  original_description = none;
  notes = none;
  source = TransactionSource.manual;
  external_id = none;
  import_id = none;
  category_id = none;
  category_chosen = false;
  subscription_id = none;
}

abbrev wallet : LedgerAccount
wallet = record {
  id = 5;
  source = AccountSource.manual;
  balance = pos 3_000;
  balance_updated_at = 20;
  closed_at = none;
}

abbrev ledger : Ledger
ledger = record {
  accounts = wallet ∷ [];
  db = record {
    accounts = [];
    categories = [];
    subscriptions = [];
    transactions = lunch ∷ record lunch { id = 2; amount = negsuc 499 } ∷ [];
  };
  automations = [];
}

delete_test :
    (delete_transactions ledger (1 ∷ []) 30).1.accounts
    ≡ record wallet { balance = pos 4_499; balance_updated_at = 30 } ∷ []
unfolding delete_transactions remove taken_out move_balance sum_of sum ◌+ℤ◌
delete_test = refl

delete_transactions-standing_example :
    map
      (standing (delete_transactions ledger (1 ∷ []) 30).1.db.transactions)
      (delete_transactions ledger (1 ∷ []) 30).1.accounts
    ≡ map (standing ledger.db.transactions) ledger.accounts
delete_transactions-standing_example = delete_transactions-standing ledger (1 ∷ []) 30
