-- ===== src/Imports/Examples.antt =====
-- Importing files at concrete inputs: a purchase from a file, in an account kept by hand.
use cashcove.Base.{
  Option, ◌++◌, map, ℕ, Bool, true, false, none, some, List, [], ◌∷◌, ◌≡◌, refl, pos, negsuc, ◌+ℤ◌,
  ◌-ℤ◌,
}
use cashcove.Base.Text.{Text}
use cashcove.Calendar.{date, ordinal, index_start, year_start, month_index, month_offset}
use cashcove.Finance.Store.{Transaction, TransactionSource}
use cashcove.Finance.Recurring.{ok, found_or, unless, ◌>>=◌}
use cashcove.Finance.Ledger.{
  AccountSource, LedgerAccount, importable_account, chosen_account, open_for_more, with_account,
  or_fails, sum_of,
}
use cashcove.Finance.Ledger.Balance.{standing}
use cashcove.Imports.Filing.Effects.{profile}
use cashcove.Finance.Budget.Flows.{sum}
use cashcove.Finance.Text.{text_key, join, split_from}
use cashcove.Finance.Automations.{
  AutomationMatch, AutomationDirection, AutomationScope, comparison, payee_keys, by_key,
  by_key_from, set_default, alternatives, covers,
}
use cashcove.Imports.Preview.{preview_rows}
use cashcove.Imports.Preview.Shown.{shown, had}
use cashcove.Imports.Preview.Imported.{chosen_previews, import_file-preview_rows}
use cashcove.Finance.Automations.Sample.{plain}
use cashcove.Finance.Automations.RuleBook.{
  rule_of, tracking, insert, normalized_payee, strip_start, strip_end, load, ordered, rule_book,
  sort, sorting, pick, pick_from, own_get, link_to, categorize_as,
}
use cashcove.Imports.Rows.{Reviewed, FileRow, new}
use cashcove.Imports.Filing.{
  FileImport, Files, ImportCreate, move, import_file, undo, chosen_rows, balance_change, total_of,
  add_rows, filed, moved_by,
}
use cashcove.Imports.Matching.{same_id, same, has_content, take, described}
use cashcove.Imports.Matching.Review.{
  matched, match_ids, match_same, match_near, found_at, review, around,
}
use cashcove.Imports.Matching.Once.{AllOnce, ids, matched-AllOnce}
use cashcove.Imports.Matching.Fates.{of_fate, of_row, review-of_row}
use cashcove.Imports.Filing.Undone.{profiles, undo-import_file}

abbrev purse : LedgerAccount
purse = record {
  id = 5;
  source = AccountSource.manual;
  balance = pos 9_000;
  balance_updated_at = 20;
  closed_at = none;
}

abbrev files : Files
files = record {
  ledger = record {
    accounts = purse ∷ [];
    db = record { accounts = []; categories = []; subscriptions = []; transactions = [] };
    automations = [];
  };
  imports = [];
}

abbrev bought : Reviewed
bought = record {
  row = record {
    line = 1;
    date = some (date 2024 1 30);
    amount = some (negsuc 1_998);
    description = [];
    memo = none;
    category = none;
    external_id = none;
    balance = none;
    problem = none;
  };
  status = new;
  payee = some (107 ∷ []);
  category_id = none;
  match = none;
}

abbrev body : ImportCreate
body = record { account_id = 5; lines = 1 ∷ []; balance = move }

abbrev entry : FileImport
entry = record {
  id = 8;
  account_id = 5;
  added = 1;
  skipped = 0;
  total = negsuc 1_998;
  balance_change = negsuc 1_998;
  first_date = some (date 2024 1 30);
  last_date = some (date 2024 1 30);
  created_at = 100;
}

abbrev row : Transaction
row = record {
  id = 1;
  account_id = 5;
  on = date 2024 1 30;
  amount = negsuc 1_998;
  created_at = 100;
  payee = 107 ∷ [];
  original_description = none;
  category_id = none;
  category_chosen = false;
  subscription_id = none;
  notes = none;
  source = TransactionSource.file;
  external_id = none;
  import_id = some 8;
}

abbrev imported : Files
imported = record {
  ledger = record {
    accounts = record purse { balance = pos 7_001; balance_updated_at = 100 } ∷ [];
    db = record { accounts = []; categories = []; subscriptions = []; transactions = row ∷ [] };
    automations = [];
  };
  imports = entry ∷ [];
}

import_test :
    import_file plain files body (bought ∷ []) none 8 (λ line. line) 100 ≡ ok (entry, 0, imported)
unfolding import_file importable_account chosen_account open_for_more found_or unless chosen_rows
    balance_change total_of sum load ordered rule_book sort sorting pick pick_from own_get link_to
    categorize_as or_fails with_account moved_by add_rows filed ◌>>=◌ ◌+ℤ◌
import_test = refl

-- The purchase was deleted in between, which moved the balance back.
abbrev later : Files
later = record imported {
  ledger = record imported.ledger {
    accounts = record purse { balance = pos 9_000; balance_updated_at = 100 } ∷ [];
    db = record { accounts = []; categories = []; subscriptions = []; transactions = [] };
  };
}

later_test : profiles later ≡ profiles imported
unfolding profiles profile standing sum_of sum ◌+ℤ◌ ◌-ℤ◌
later_test = refl

undo-import_file_example :
    (deleted : ℕ) × (undone : Files) × (undo later 8 200 ≡ ok (deleted, undone))
    × (profiles undone ≡ profiles files)
undo-import_file_example =
    undo-import_file plain files body (bought ∷ []) none 8 (λ line. line) 100 entry 0 imported later
      200 (refl, tt) import_test refl later_test

-- Two equal coffees of a file, and two in the account.
abbrev coffee : ℕ → FileRow
coffee line = record {
  line = line;
  date = some (date 2024 1 30);
  amount = some (negsuc 449);
  description = 99 ∷ [];
  memo = none;
  category = none;
  external_id = none;
  balance = none;
  problem = none;
}

abbrev drunk : ℕ → Transaction
drunk id = record row { id = id; amount = negsuc 449; payee = 99 ∷ []; import_id = none }

abbrev no_category : Option Text → Option ℕ
no_category text = none

abbrev as_it_is : Text → Text
as_it_is text = text

abbrev coffees : List FileRow
coffees = coffee 1 ∷ coffee 2 ∷ []

abbrev drinks : List Transaction
drinks = drunk 31 ∷ drunk 32 ∷ []

abbrev all_rows : FileRow → Bool
all_rows r = true

matched-AllOnce_example : AllOnce (
    ids (matched as_it_is no_category drinks as_it_is [] drinks drinks all_rows coffees).2
    ++ ids (matched as_it_is no_category drinks as_it_is [] drinks drinks all_rows coffees).1)
matched-AllOnce_example =
    matched-AllOnce as_it_is no_category drinks as_it_is [] drinks drinks all_rows coffees

-- Both are found.
matched_test :
    ids (matched as_it_is no_category drinks as_it_is [] drinks drinks all_rows coffees).2
    ≡ 32 ∷ 31 ∷ []
unfolding matched match_ids match_same match_near same_id same has_content take found_at ids
    described ordinal index_start year_start month_index month_offset
matched_test = refl

reviewed_test :
    (items : List Reviewed) × (review as_it_is no_category [] as_it_is [] [] none coffees
      ≡ some items)
unfolding review around
reviewed_test = (_, refl)

review-of_row_example : map of_fate reviewed_test.0 ≡ map of_row coffees
review-of_row_example =
    review-of_row as_it_is no_category [] as_it_is [] [] none coffees reviewed_test.0
      reviewed_test.1

-- With an automation that gives the purchase a category.
abbrev automated : Files
automated = record files {
  ledger = record files.ledger {
    automations =
        record {
          id = 1;
          created_at = 10;
          name = 107 ∷ [];
          payees = (107 ∷ []) ∷ [];
          match = AutomationMatch.contains;
          min_amount = none;
          max_amount = none;
          direction = AutomationDirection.any_way;
          account_id = none;
          category_id = some 9;
          subscription_id = none;
          apply_to = AutomationScope.all_of_them;
          active = true;
        }
        ∷ [];
  };
}

automated_test :
    (after : Files) × (import_file plain automated body (bought ∷ []) none 8 (λ line. line) 100
      ≡ ok (entry, 1, after))
unfolding import_file importable_account chosen_account open_for_more found_or unless chosen_rows
    balance_change total_of sum load ordered rule_book sort sorting pick pick_from own_get link_to
    categorize_as or_fails with_account moved_by add_rows filed ◌>>=◌ ◌+ℤ◌ rule_of tracking insert
    comparison payee_keys by_key by_key_from set_default alternatives text_key join split_from
    normalized_payee strip_start strip_end covers
automated_test = (_, refl)

import_file-preview_rows_example :
    (added : List Transaction) × (automated_test.0.ledger.db.transactions ≡ added ++ [])
    × (map had added
        ≡ map shown
            (chosen_previews (1 ∷ []) (preview_rows plain automated.ledger 5 (bought ∷ []))))
import_file-preview_rows_example =
    import_file-preview_rows plain automated body (bought ∷ []) none 8 (λ line. line) 100 entry 1
      automated_test.0 (λ h. refl, tt) automated_test.1
