-- ===== src/Finance/Automations/RuleBook.antt =====
-- The rules loaded for a request, and sorting a transaction with them (`RuleBook` of
-- backend/app/finance/automations.py, `normalized_payee` of backend/app/finance/subscriptions.py).
-- A rule and the table of own payees hold subscriptions, whose ids stand for them here; their rows
-- are in the table, where sorting moves the next due date.
use cashcove.Base.{
  ℕ, Bool, true, false, not, ◌&&◌, ◌||◌, Option, none, some, List, [], ◌∷◌, map, ◌==◌,
  if◌then◌else◌, ltb, pos, ltb_ℤ, opt_eq, is_some, find, select,
}
use cashcove.Base.Text.{Text, text_eq}
use cashcove.Calendar.{Date}
use cashcove.Finance.Text.{is_nil}
use cashcove.Finance.Store.{Transaction, Subscription}
use cashcove.Finance.Subscriptions.{Outcome, ok, raises, stuck, advance_due_date}
use cashcove.Finance.Recurring.{stored}
use cashcove.Finance.Automations.{Engine, Automation, Rule, comparison, payee_keys, covers}

-- `a or b`
abbrev pub or_first : Option ℕ → Option ℕ → Option ℕ
or_first none b = b
or_first (some a) b = some a

-- `text.strip()`
unfoldable pub strip_start : (ℕ → Bool) → Text → Text
strip_start p [] = []
strip_start p (c ∷ text) = let rest = strip_start p text in if p c then rest else c ∷ text

unfoldable pub strip_end : (ℕ → Bool) → Text → Text
strip_end p [] = []
strip_end p (c ∷ text) = let rest = strip_end p text in if p c && is_nil rest then [] else c ∷ rest

-- Made before, or with the smaller id in the same moment.
abbrev pub made_before : Automation → Automation → Bool
made_before a b = ltb a.created_at b.created_at || (a.created_at == b.created_at && ltb a.id b.id)

unfoldable pub insert : Automation → List Automation → List Automation
insert a [] = a ∷ []
insert a (b ∷ rest) =
    let later = insert a rest in if made_before b a then b ∷ later else a ∷ b ∷ rest

-- `ORDER BY created_at, id`
unfoldable pub ordered : List Automation → List Automation
ordered [] = []
ordered (a ∷ rest) = insert a (ordered rest)

-- `_tracking` of the subscription with this id.
unfoldable pub tracking : List Subscription → Option ℕ → Option ℕ
tracking subscriptions none = none
tracking subscriptions (some id) = elim (find (λ s. s.id == id) subscriptions) [
  | none ↦ none
  | some s ↦ if s.active then some s.id else none
]

-- A key of `_own`, and its subscription.
pub record OwnPayee : Type 0 where
  pub account_id : ℕ
  pub payee : Text
  pub subscription : ℕ

pub record RuleBook : Type 0 where
  pub rules : List Rule
  pub own : List OwnPayee

pub record Sorting : Type 0 where
  pub category_id : Option ℕ
  pub subscription : Option ℕ

-- What sorting returns, and what it leaves.
pub record Sorted : Type 0 where
  pub changed : Bool
  pub transaction : Transaction
  pub subscriptions : List Subscription

-- `dict.get`, where the last item with a key is the one that the dict kept.
unfoldable pub own_get : List OwnPayee → ℕ → Text → Option ℕ
own_get [] account payee = none
own_get (item ∷ items) account payee = or_first (own_get items account payee) (
    if item.account_id == account && text_eq item.payee payee then some item.subscription else none)

unfoldable pub category_of : List Subscription → ℕ → Option ℕ
category_of subscriptions id = elim (find (λ s. s.id == id) subscriptions) [
  | none ↦ none
  | some s ↦ s.category_id
]

-- `advance_due_date` of the row with this id.
unfoldable pub advance_row : List Subscription → ℕ → Date → Outcome (List Subscription)
advance_row subscriptions id on = elim (find (λ s. s.id == id) subscriptions) [
  | none ↦ ok subscriptions
  | some s ↦ elim (advance_due_date s on) [
    | ok s' ↦ ok (stored s' subscriptions)
    | raises ↦ raises
    | stuck ↦ stuck
  ]
]

unfoldable pub link_to : Option ℕ → Transaction → List Subscription → Outcome Sorted
link_to none t subscriptions =
    ok (record { changed = false; transaction = t; subscriptions = subscriptions })
link_to (some id) t subscriptions =
    if opt_eq t.subscription_id (some id)
    then ok (record { changed = false; transaction = t; subscriptions = subscriptions })
    else elim (advance_row subscriptions id t.on) [
      | ok after ↦ ok (record {
        changed = true;
        transaction = record t { subscription_id = some id };
        subscriptions = after;
      })
      | raises ↦ raises
      | stuck ↦ stuck
    ]

unfoldable pub categorize_as : Option ℕ → Bool → Sorted → Sorted
categorize_as category_id keep_category r =
    if is_some category_id
      && not (keep_category || r.transaction.category_chosen)
      && not (opt_eq r.transaction.category_id category_id)
    then record r {
      changed = true;
      transaction = record r.transaction { category_id = category_id };
    }
    else r

module _ (e : Engine) where
  unfoldable pub normalized_payee : Text → Text
  normalized_payee payee = e.lower (strip_end e.is_space (strip_start e.is_space payee))

  unfoldable pub rule_of : List Subscription → Automation → Rule
  rule_of subscriptions automation = record {
    compare = comparison e (payee_keys e automation.payees) automation.match;
    direction = automation.direction;
    account_id = automation.account_id;
    min_amount = automation.min_amount;
    max_amount = automation.max_amount;
    category_id = automation.category_id;
    subscription = tracking subscriptions automation.subscription_id;
  }

  -- `RuleBook(automations, subscriptions)`
  unfoldable pub rule_book : List Automation → List Subscription → RuleBook
  rule_book automations subscriptions = record {
    rules = map (rule_of subscriptions) automations;
    own =
        map
          (λ s. record {
            account_id = s.account_id;
            payee = normalized_payee s.payee;
            subscription = s.id;
          })
          (select (λ s. s.active) subscriptions);
  }

  unfoldable pub load : List Automation → List Subscription → RuleBook
  load automations subscriptions =
      rule_book (ordered (select (λ a. a.active) automations)) subscriptions

  -- The loop of `_pick`, with the category and the subscription so far.
  unfoldable pub pick_from : List Rule → Transaction → Option ℕ → Option ℕ → Option ℕ × Option ℕ
  pick_from [] t category_id subscription = (category_id, subscription)
  pick_from (rule ∷ rules) t category_id subscription =
      let payment = ltb_ℤ t.amount (pos 0) in
      let found = covers e rule t in
      pick_from rules t (if found then or_first category_id rule.category_id else category_id)
        (if found && payment then or_first subscription rule.subscription else subscription)

  unfoldable pub pick : RuleBook → Transaction → Option ℕ × Option ℕ
  pick book t =
      let found = pick_from book.rules t none none in
      let own = own_get book.own t.account_id (normalized_payee t.payee) in
      (found.0, or_first found.1 (if ltb_ℤ t.amount (pos 0) then own else none))

  unfoldable pub sorting : RuleBook → List Subscription → Transaction → Sorting
  sorting book subscriptions t =
      let picked = pick book t in
      record {
        category_id =
            or_first picked.0
              (elim picked.1 [ none ↦ none | some id ↦ category_of subscriptions id ]);
        subscription = picked.1;
      }

  unfoldable pub sort : RuleBook → Bool → Transaction → List Subscription → Outcome Sorted
  sort book keep_category t subscriptions =
      let given = sorting book subscriptions t in
      elim (link_to given.subscription t subscriptions) [
        | ok r ↦ ok (categorize_as given.category_id keep_category r)
        | raises ↦ raises
        | stuck ↦ stuck
      ]
