-- ===== src/Finance/Budget/Examples.antt =====
-- The results on budgets at concrete inputs: a monthly budget that counts an account's spending, and
-- one payment from it.
use cashcove.Base.{
  All, ◌<◌, ◌+◌, ◌≡◌, refl, false, none, some, List, [], ◌∷◌, arith, ◌+ℤ◌, ◌-ℤ◌, inl, inr, map,
  negsuc, pos, if◌then◌else◌, ◌==◌,
}
use cashcove.Calendar.{
  Date, date, ordinal, is_leap, month_length, month_index, shifted, index_start, year_start,
  month_offset, days_in_month,
}
use cashcove.Finance.Store.{Transaction, TransactionSource}
use cashcove.Finance.Periods.{BudgetPeriod, period_start, start_of, months_between}
use cashcove.Base.Division.{floor_div, times}
use cashcove.Finance.Automations.Sample.{plain}
use cashcove.Finance.Budget.{
  income, spending, Budget, BudgetLink, Tables, Hit, amount_at, counts_as, counted, hits, joined,
  hit_by, source_hits, first_hit, within, taken_off, not_a_transfer,
}
use cashcove.Finance.Budget.Linking.{
  all_exist, only_ids, linked_to, without_exclusions, counts_otherwise, link_transactions,
  unlink_transaction, new_link,
}
use cashcove.Finance.Budget.Counts.{IsOneThing}
use cashcove.Finance.Budget.Links.{unlink_transaction-counts_as}
use cashcove.Finance.Budget.Linked.{link_transactions-counts_as}
use cashcove.Finance.Budget.Flows.{Flow, sum, total, history}
use cashcove.Finance.Budget.ByPeriod.{AreOrdered, IsCovered, by_period, history-by_period}
use cashcove.Finance.Budget.Changing.{
  Household, BudgetUpdate, change_budget, amount_now, new_amount, set_amount,
}
use cashcove.Finance.Budget.Amounts.{InOrder, HasBegun, change_budget-amount_at}

abbrev payment : Transaction
payment = record {
  id = 1;
  account_id = 5;
  on = date 2024 1 30;
  amount = negsuc 1498;
  created_at = 20;
  payee = [];
  original_description = none;
  notes = none;
  source = TransactionSource.manual;
  external_id = none;
  import_id = none;
  category_id = none;
  category_chosen = false;
  subscription_id = none;
}

abbrev monthly_budget : Budget
monthly_budget = record {
  id = 7;
  name = [];
  period = BudgetPeriod.monthly;
  starts_on = date 2024 1 1;
  amounts = record { starts_on = date 2024 1 1; amount = 50_000 } ∷ [];
}

abbrev account_link : BudgetLink
account_link = record {
  id = 11;
  budget_id = 7;
  kind = spending;
  transaction_id = none;
  account_id = some 5;
  category_id = none;
  subscription_id = none;
  automation_id = none;
}

abbrev tables : Tables
tables = record {
  db = record { accounts = []; categories = []; subscriptions = []; transactions = payment ∷ [] };
  transfers = [];
  automations = [];
  budgets = monthly_budget ∷ [];
  links = account_link ∷ [];
  exclusions = [];
}

account_link-IsOneThing : IsOneThing account_link
account_link-IsOneThing = record {
  no_account = λ h. cc h;
  no_category = λ h. refl;
  no_subscription = λ h. refl;
  no_automation = λ h. refl;
}

-- The account still counts it, which is remembered as not wanted.
abbrev taken : Tables
taken = record tables { exclusions = record { budget_id = 7; transaction_id = 1 } ∷ [] }

unlink_test : unlink_transaction plain tables monthly_budget 1 ≡ inr taken
unfolding unlink_transaction all_exist only_ids counted counts_as hits joined hit_by source_hits
    first_hit within taken_off not_a_transfer
unlink_test = refl

unlink_transaction-counts_as_example :
    counts_as plain taken monthly_budget false payment
    ≡ (if payment.id == 1 then none else counts_as plain tables monthly_budget false payment)
unlink_transaction-counts_as_example =
    unlink_transaction-counts_as plain tables taken monthly_budget 1 payment
      (account_link-IsOneThing, tt) (inl refl) unlink_test

-- Put back as income, it gets a link of its own.
abbrev put_back : Tables
put_back = record tables { links = account_link ∷ new_link 101 7 income 1 ∷ [] }

link_test :
    link_transactions plain (λ id. id + 100) taken monthly_budget (1 ∷ []) income
    ≡ inr (1, put_back)
unfolding link_transactions linked_to without_exclusions counts_otherwise all_exist only_ids counted
    counts_as hits joined hit_by source_hits first_hit within taken_off not_a_transfer
link_test = refl

link_transactions-counts_as_example :
    (h : Hit) × (counts_as plain put_back monthly_budget false payment ≡ some h) × (h.kind ≡ income)
link_transactions-counts_as_example =
    link_transactions-counts_as plain (λ id. id + 100) taken put_back monthly_budget (1 ∷ []) income
      1 payment (account_link-IsOneThing, tt) (λ same. refl, tt) refl link_test

abbrev flows : List Flow
flows =
    record {
      day = date 2024 1 30;
      kind = spending;
      category_id = none;
      link_id = 11;
      value = pos 1499;
      count = 1;
    }
    ∷ record {
      day = date 2024 2 2;
      kind = income;
      category_id = none;
      link_id = 12;
      value = pos 900;
      count = 2;
    }
    ∷ []

abbrev two_months : List Date
two_months = date 2024 1 1 ∷ date 2024 2 1 ∷ []

two_months-AreOrdered : AreOrdered two_months
unfolding ordinal index_start year_start month_index month_offset month_length is_leap
two_months-AreOrdered = ((refl, tt), (tt, tt))

flows-AreCovered : All (IsCovered two_months) flows
unfolding ordinal index_start year_start month_index month_offset month_length is_leap
flows-AreCovered = (refl, (refl, tt))

history-by_period_example :
    (history two_months flows ≡ by_period two_months flows)
    × (sum (map (λ p. p.income) (history two_months flows)) ≡ total income flows)
    × (sum (map (λ p. p.spent) (history two_months flows)) ≡ total spending flows)
history-by_period_example =
    history-by_period two_months flows (omega arith) two_months-AreOrdered flows-AreCovered

abbrev household : Household
household = record { currency = []; week_starts_on = 0; first_month = 1 }

abbrev raise_amount : BudgetUpdate
raise_amount = record {
  name = none;
  period = none;
  amount = some 60_000;
  starts_on = none;
  today = some (date 2024 3 15);
}

abbrev raised : Budget
raised = record monthly_budget {
  amounts =
      record { starts_on = date 2024 1 1; amount = 50_000 }
      ∷ record { starts_on = date 2024 3 1; amount = 60_000 }
      ∷ [];
}

change_test : change_budget household monthly_budget raise_amount (date 2024 3 15) ≡ some raised
unfolding change_budget amount_now new_amount set_amount period_start start_of months_between
    floor_div times shifted days_in_month month_length is_leap month_index index_start year_start
    month_offset ordinal ◌+ℤ◌ ◌-ℤ◌
change_test = refl

amounts-InOrder : InOrder monthly_budget.amounts
unfolding InOrder
amounts-InOrder = (tt, tt)

change_budget-amount_at_example :
    (start : Date) × (period_start BudgetPeriod.monthly (date 2024 1 1) (date 2024 3 15)
      ≡ some start)
    × (amount_at raised start ≡ some 60_000)
    × ((day : Date)
        → ordinal day < ordinal start
        → HasBegun monthly_budget.amounts day
        → amount_at raised day ≡ amount_at monthly_budget day)
change_budget-amount_at_example =
    change_budget-amount_at household monthly_budget raised raise_amount 60_000 (date 2024 3 15)
      amounts-InOrder refl refl change_test
