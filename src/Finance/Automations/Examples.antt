-- ===== src/Finance/Automations/Examples.antt =====
-- The results on automations at concrete inputs: one that looks for "net" gives payments a category
-- and links them to a monthly subscription.
use cashcove.Base.{
  ◌≡◌, refl, true, false, none, some, [], ◌∷◌, arith, inl, map, select, if◌then◌else◌, ◌&&◌, not,
  is_some, negsuc,
}
use cashcove.Base.Text.{Text}
use cashcove.Calendar.{date, is_leap, month_length, days_in_month}
use cashcove.Calendar.Months.{IsValid}
use cashcove.Finance.Store.{monthly, Transaction, TransactionSource, Subscription, subscription}
use cashcove.Finance.Subscriptions.{ok}
use cashcove.Finance.Text.{text_key, join, split_from}
use cashcove.Finance.Automations.{
  AutomationScope, AutomationMatch, AutomationDirection, Automation, looks_of, matching, covers,
  like_pattern, by_key, by_key_from, set_default, payee_keys, comparison, alternatives,
}
use cashcove.Finance.Automations.Alike.{AreReadAlike}
use cashcove.Finance.Automations.Patterns.{has, like-like_pattern}
use cashcove.Finance.Automations.RuleBook.{
  or_first, RuleBook, Sorted, rule_of, rule_book, load, pick, own_get, normalized_payee, sort,
  sorting, pick_from, link_to, categorize_as, tracking, ordered, insert, strip_start, strip_end,
}
use cashcove.Finance.Automations.Covering.{LooksForText, covers-matching}
use cashcove.Finance.Automations.Oldest.{first_given, pick-first_given}
use cashcove.Finance.Automations.Sorting.{Sorts, sort-Sorts}
use cashcove.Finance.Automations.Again.{sort-sort}
use cashcove.Finance.Automations.Agreement.{give_category-pick}
use cashcove.Finance.Automations.Existing.{wins, claimed, give_category}
use cashcove.Finance.Automations.Sample.{plain, plain-IsDocumented}

abbrev net : Text
net = b'n' ∷ b'e' ∷ b't' ∷ []

-- `"Net% 1"`
abbrev net_payee : Text
net_payee = b'N' ∷ b'e' ∷ b't' ∷ b'%' ∷ b' ' ∷ b'1' ∷ []

abbrev streaming : Subscription
streaming = record {
  id = 3;
  name = net;
  kind = subscription;
  payee = net;
  amount = 1499;
  amount_varies = false;
  frequency = monthly;
  account_id = 5;
  next_due_date = date 2024 1 31;
  category_id = none;
  notes = none;
  active = true;
  ends_on = none;
  cancelled_on = none;
}

abbrev sorter : Automation
sorter = record {
  id = 1;
  created_at = 10;
  name = net;
  payees = net ∷ [];
  match = AutomationMatch.contains;
  min_amount = none;
  max_amount = none;
  direction = AutomationDirection.any_way;
  account_id = none;
  category_id = some 9;
  subscription_id = some 3;
  apply_to = AutomationScope.all_of_them;
  active = true;
}

abbrev payment : Transaction
payment = record {
  id = 1;
  account_id = 5;
  on = date 2024 1 30;
  amount = negsuc 1498;
  created_at = 20;
  payee = net_payee;
  original_description = none;
  notes = none;
  source = TransactionSource.manual;
  external_id = none;
  import_id = none;
  category_id = none;
  category_chosen = false;
  subscription_id = none;
}

abbrev book : RuleBook
book = load plain (sorter ∷ []) (streaming ∷ [])

like-like_pattern_example :
    plain.like net_payee (like_pattern (b'%' ∷ []) false)
    ≡ (if false then false else has (b'%' ∷ []) net_payee)
like-like_pattern_example = like-like_pattern plain plain-IsDocumented (b'%' ∷ []) net_payee false

sorter-LooksForText : LooksForText plain sorter
unfolding text_key join split_from
sorter-LooksForText = (omega arith, (refl, tt))

payment-AreReadAlike : AreReadAlike plain payment
payment-AreReadAlike = ((refl, (refl, (refl, (refl, (refl, (refl, (refl, tt))))))), tt)

covers-matching_example :
    covers plain (rule_of plain (streaming ∷ []) sorter) payment
    ≡ matching plain (looks_of sorter) payment
covers-matching_example =
    covers-matching plain plain-IsDocumented (streaming ∷ []) sorter payment sorter-LooksForText
      payment-AreReadAlike

pick-first_given_example : pick plain book payment ≡ (
  first_given plain (λ r. r.category_id) book.rules payment,
  (if true
      then or_first
          (first_given plain (λ r. r.subscription) book.rules payment)
          (own_get book.own payment.account_id (normalized_payee plain payment.payee))
      else none),
)
pick-first_given_example = pick-first_given plain book payment

streaming-IsValid : IsValid (date 2024 1 31)
unfolding days_in_month month_length is_leap
streaming-IsValid = record { year_in = omega arith; month_in = omega arith; day_in = omega arith }

sort-Sorts_example :
    Sorts plain book false payment (streaming ∷ []) (sort plain book false payment (streaming ∷ []))
sort-Sorts_example = sort-Sorts plain book false payment (streaming ∷ []) (streaming-IsValid, tt)

-- With the link left out, it gets only the category.
abbrev categorizing : RuleBook
categorizing = load plain (record sorter { subscription_id = none } ∷ []) (streaming ∷ [])

abbrev sorted_payment : Sorted
sorted_payment = record {
  changed = true;
  transaction = record payment { category_id = some 9 };
  subscriptions = streaming ∷ [];
}

sort_test : sort plain categorizing false payment (streaming ∷ []) ≡ ok sorted_payment
unfolding sort sorting pick pick_from covers link_to categorize_as load rule_book rule_of tracking
    ordered insert comparison payee_keys by_key by_key_from set_default alternatives text_key join
    split_from own_get normalized_payee strip_start strip_end
sort_test = refl

sort-sort_example :
    sort plain categorizing false sorted_payment.transaction sorted_payment.subscriptions
    ≡ ok (record sorted_payment { changed = false })
sort-sort_example =
    sort-sort plain categorizing false payment (streaming ∷ []) sorted_payment
      (streaming-IsValid, tt) sort_test

give_category-pick_example :
    (give_category plain
      (matching plain (looks_of sorter))
      (wins (sorter ∷ []) sorter)
      9
      (λ t. true)
      (payment ∷ [])).rows
    ≡ map
        (λ t.
          if matching plain (looks_of sorter) t
            && not
                (claimed plain (select (λ o. is_some o.category_id) (wins (sorter ∷ []) sorter)) t)
            && not t.category_chosen
          then record t {
            category_id = (pick plain (load plain (sorter ∷ []) (streaming ∷ [])) t).0;
          }
          else t)
        (payment ∷ [])
give_category-pick_example =
    give_category-pick plain (sorter ∷ []) (streaming ∷ []) sorter 9 (payment ∷ [])
      plain-IsDocumented (sorter-LooksForText, tt) (inl refl) (λ same. refl, tt) refl refl
      (payment-AreReadAlike, tt)
