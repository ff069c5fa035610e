-- ===== src/Finance/Automations/Existing.antt =====
-- Sorting the transactions that are there already (`apply_to_existing` of
-- backend/app/finance/automations.py).
use cashcove.Base.{
  ℕ, Bool, not, ◌&&◌, true, Option, none, some, List, [], ◌∷◌, ◌++◌, map, ◌==◌, if◌then◌else◌, pos,
  ltb_ℤ, opt_eq, is_some, select, any_b, length,
}
use cashcove.Base.Text.{Text}
use cashcove.Calendar.{Date, date_max}
use cashcove.Finance.Store.{Transaction, Subscription}
use cashcove.Finance.Subscriptions.{Outcome, ok, raises, stuck}
use cashcove.Finance.Automations.{matching_keys, Engine, Automation, looks_of, matching}
use cashcove.Finance.Automations.RuleBook.{made_before, ordered, tracking, category_of, advance_row}

-- `_wins`
unfoldable pub wins : List Automation → Automation → List Automation
wins automations automation =
    ordered (select (λ other. other.active && made_before other automation) automations)

-- The `UPDATE ... RETURNING id` of the rows that pass a test.
pub record Updated : Type 0 where
  pub changed : List ℕ
  pub rows : List Transaction

unfoldable pub update_where :
    (Transaction → Bool) → (Transaction → Transaction) → List Transaction → Updated
update_where test change rows = record {
  changed = map (λ t. t.id) (select test rows);
  rows = map (λ t. if test t then change t else t) rows;
}

-- `set.update`
unfoldable pub added_to : List ℕ → List ℕ → List ℕ
added_to ids more = ids ++ select (λ id. not (any_b (λ i. i == id) ids)) more

-- `max(date)`
unfoldable pub latest_on : List Transaction → Option Date
latest_on [] = none
latest_on (t ∷ rest) = elim (latest_on rest) [
  | none ↦ some t.on
  | some day ↦ some (date_max t.on day)
]

pub record Linked : Type 0 where
  pub changed : List ℕ
  pub transactions : List Transaction
  pub subscriptions : List Subscription

module _ (e : Engine) where
  -- Whether an automation of the list claims the transaction: `_claimed` is the negation.
  unfoldable pub claimed : List Automation → Transaction → Bool
  claimed automations t = any_b (λ other. matching e (looks_of other) t) automations

  -- The rows that `_give_category` changes.
  unfoldable pub gets_category :
      (Transaction → Bool) → List Automation → ℕ → (Transaction → Bool) → Transaction → Bool
  gets_category where_ older category_id extra t =
      where_ t
      && extra t
      && not (claimed (select (λ other. is_some other.category_id) older) t)
      && not t.category_chosen
      && not (opt_eq t.category_id (some category_id))

  unfoldable pub give_category :
      (Transaction → Bool) → List Automation → ℕ → (Transaction → Bool) → List Transaction → Updated
  give_category where_ older category_id extra rows =
      update_where (gets_category where_ older category_id extra)
        (λ t. record t { category_id = some category_id }) rows

  abbrev pub is_payment : Transaction → Bool
  is_payment t = ltb_ℤ t.amount (pos 0)

  -- The older automations that link a subscription that is being tracked.
  abbrev pub linking : List Subscription → List Automation → List Automation
  linking subscriptions older =
      select (λ other. is_some (tracking subscriptions other.subscription_id)) older

  unfoldable pub gets_linked :
      (Transaction → Bool) → List Automation → List Subscription → ℕ → Transaction → Bool
  gets_linked where_ older subscriptions id t =
      where_ t
      && is_payment t
      && not (claimed (linking subscriptions older) t)
      && not (opt_eq t.subscription_id (some id))

  -- `_link_subscription`
  unfoldable pub link_subscription :
      Automation
      → ℕ
      → (Transaction → Bool)
      → List Automation
      → List Transaction
      → List Subscription
      → Outcome Linked
  link_subscription automation id where_ older rows subscriptions =
      let linked =
        update_where (gets_linked where_ older subscriptions id)
          (λ t. record t { subscription_id = some id }) rows in
      let after : Updated = elim automation.category_id [
        | some c ↦ linked
        | none ↦ elim (category_of subscriptions id) [
          | none ↦ linked
          | some category ↦
              let given = give_category where_ older category is_payment linked.rows in
              record { changed = added_to linked.changed given.changed; rows = given.rows }
        ]
      ] in
      let paid =
        select (λ t. where_ t && is_payment t && opt_eq t.subscription_id (some id)) after.rows in
      elim (latest_on paid) [
        | none ↦ ok (record {
          changed = after.changed;
          transactions = after.rows;
          subscriptions = subscriptions;
        })
        | some day ↦ elim (advance_row subscriptions id day) [
          | ok advanced ↦ ok (record {
            changed = after.changed;
            transactions = after.rows;
            subscriptions = advanced;
          })
          | raises ↦ raises
          | stuck ↦ stuck
        ]
      ]

  -- `apply_to_existing`, with `keys` where it sorts only those of some of the texts.
  pub apply_to_existing :
      Automation
      → Option (List Text)
      → List Automation
      → List Transaction
      → List Subscription
      → Outcome (ℕ × List Transaction × List Subscription)
  apply_to_existing automation keys automations rows subscriptions =
      let where_ : Transaction → Bool = elim keys [
        | none ↦ matching e (looks_of automation)
        | some wanted ↦ matching_keys e (looks_of automation) wanted
      ] in
      let older = wins automations automation in
      let given : Updated = elim automation.category_id [
        | none ↦ record { changed = []; rows = rows }
        | some category ↦ give_category where_ older category (λ t. true) rows
      ] in
      elim (tracking subscriptions automation.subscription_id) [
        | none ↦ ok (length given.changed, given.rows, subscriptions)
        | some id ↦ elim (link_subscription automation id where_ older given.rows subscriptions) [
          | ok linked ↦ ok (
            length (added_to given.changed linked.changed),
            linked.transactions,
            linked.subscriptions,
          )
          | raises ↦ raises
          | stuck ↦ stuck
        ]
      ]
