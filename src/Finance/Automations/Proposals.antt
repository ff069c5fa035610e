-- ===== src/Finance/Automations/Proposals.antt =====
-- What an automation would do before it exists, and adding one (`match_count`, `overlaps` and
-- `new_automation` of backend/app/finance/automations.py).
use cashcove.Base.{
  ℕ, Bool, true, false, not, ◌&&◌, ◌||◌, ◌⊎◌, inl, inr, Option, none, some, List, [], ◌∷◌, ◌==◌,
  if◌then◌else◌, is_some, is_none, find, select, length,
}
use cashcove.Base.Text.{Text}
use cashcove.Finance.Store.{Transaction, Db}
use cashcove.Finance.Automations.{
  Engine, Automation, AutomationMatch, AutomationScope, AutomationDirection, Looks, looks_of,
  matching, distinct_payees,
}
use cashcove.Finance.Automations.RuleBook.{ordered}

pub record Overlap : Type 0 where
  pub automation : Automation
  pub count : ℕ

pub record AutomationCreate : Type 0 where
  pub name : Text
  pub payees : List Text
  pub match : AutomationMatch
  pub direction : AutomationDirection
  pub account_id : Option ℕ
  pub min_amount : Option ℕ
  pub max_amount : Option ℕ
  pub category_id : Option ℕ
  pub subscription_id : Option ℕ
  pub apply_to : AutomationScope

pub data Refusal : Type 0 where
  no_such_account no_such_category no_such_subscription : Refusal

-- `check_choices`: why it fails, if it does.
unfoldable pub check_choices : Db → Option ℕ → Option ℕ → Option ℕ → Option Refusal
check_choices db account_id category_id subscription_id =
    if elim account_id [
      | none ↦ false
      | some id ↦ is_none (find (λ account. account.id == id) db.accounts)
    ]
    then some no_such_account
    else if elim category_id [
      | none ↦ false
      | some id ↦ is_none (find (λ category. category == id) db.categories)
    ]
    then some no_such_category
    else if elim subscription_id [
      | none ↦ false
      | some id ↦ is_none (find (λ s. s.id == id) db.subscriptions)
    ]
    then some no_such_subscription
    else none

module _ (e : Engine) where
  unfoldable pub match_count : Looks → List Transaction → ℕ
  match_count looks rows = length (select (matching e looks) rows)

  -- The loop of `overlaps` over the other automations.
  unfoldable pub overlaps_of :
      Looks → Bool → Bool → List Automation → List Transaction → List Overlap
  overlaps_of looks category subscription [] rows = []
  overlaps_of looks category subscription (other ∷ others) rows =
      let found = overlaps_of looks category subscription others rows in
      let count = length (select (λ t. matching e looks t && matching e (looks_of other) t) rows) in
      if not
        ((category && is_some other.category_id) || (subscription && is_some other.subscription_id))
      then found
      else if count == 0
      then found
      else record { automation = other; count = count } ∷ found

  pub overlaps : Looks → Bool → Bool → Option ℕ → List Automation → List Transaction → List Overlap
  overlaps looks category subscription except_id automations rows =
      let others =
        select (λ a. a.active && elim except_id [ none ↦ true | some id ↦ not (a.id == id) ])
          automations in
      overlaps_of looks category subscription (ordered others) rows

  -- The row that `new_automation` adds, where the choices exist.
  pub new_automation : Db → AutomationCreate → ℕ → ℕ → Refusal ⊎ Automation
  new_automation db body id now =
      elim (check_choices db body.account_id body.category_id body.subscription_id) [
        | some why ↦ inl why
        | none ↦ inr (record {
          id = id;
          created_at = now;
          name = body.name;
          payees = distinct_payees e body.payees;
          match = body.match;
          min_amount = body.min_amount;
          max_amount = body.max_amount;
          direction = body.direction;
          account_id = body.account_id;
          category_id = body.category_id;
          subscription_id = body.subscription_id;
          apply_to = body.apply_to;
          active = true;
        })
      ]
