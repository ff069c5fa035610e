-- ===== src/Finance/Budget.antt =====
-- What counts toward a budget, and what a period of it came to (backend/app/finance/budget.py, the
-- tables of backend/app/models/budget.py). Amounts are in cents, and ids are numbers.
pub mod Flows
pub mod Linking
pub mod Changing
pub mod Amounts
pub mod Counts
pub mod Links
pub mod Adding
pub mod NewLinks
pub mod Found
pub mod Linked
pub mod Totals
pub mod ByPeriod
mod Examples
use cashcove.Base.{
  ℕ, Bool, true, false, not, ◌&&◌, ◌||◌, Option, none, some, List, [], ◌∷◌, ◌++◌, map, ◌==◌,
  if◌then◌else◌, ltb, leb, pos, ltb_ℤ, opt_eq, is_none, is_some, select, any_b,
}
use cashcove.Base.Text.{Text}
use cashcove.Calendar.{Date, date_leb, date_eq}
use cashcove.Finance.Periods.{BudgetPeriod, period_start}
use cashcove.Finance.Store.{Transaction, Db}
use cashcove.Finance.Automations.{Engine, Automation, AutomationScope, matching, looks_of}

pub data BudgetKind : Type 0 where
  income spending : BudgetKind

pub record BudgetAmount : Type 0 where
  pub starts_on : Date
  pub amount : ℕ

pub record Budget : Type 0 where
  pub id : ℕ
  pub name : Text
  pub period : BudgetPeriod
  pub starts_on : Date
  pub amounts : List BudgetAmount

pub record BudgetLink : Type 0 where
  pub id : ℕ
  pub budget_id : ℕ
  pub kind : BudgetKind
  pub transaction_id : Option ℕ
  pub account_id : Option ℕ
  pub category_id : Option ℕ
  pub subscription_id : Option ℕ
  pub automation_id : Option ℕ

pub record BudgetExclusion : Type 0 where
  pub budget_id : ℕ
  pub transaction_id : ℕ

-- The tables that budgets read. `transfers` are the ids of `transfer_categories()`.
pub record Tables : Type 0 where
  pub db : Db
  pub transfers : List ℕ
  pub automations : List Automation
  pub budgets : List Budget
  pub links : List BudgetLink
  pub exclusions : List BudgetExclusion

abbrev pub kind_eq : BudgetKind → BudgetKind → Bool
kind_eq income income = true
kind_eq income spending = false
kind_eq spending income = false
kind_eq spending spending = true

-- The loop of `amount_at`, with the amount so far.
unfoldable pub latest_amount : Date → ℕ → List BudgetAmount → ℕ
latest_amount start amount [] = amount
latest_amount start amount (row ∷ rows) =
    latest_amount start (if date_leb row.starts_on start then row.amount else amount) rows

-- `budget.amounts[0]` raises where there is none.
unfoldable pub amount_at : Budget → Date → Option ℕ
amount_at budget start = elim budget.amounts [
  | [] ↦ none
  | first ∷ rows ↦ some (latest_amount start first.amount (first ∷ rows))
]

-- Equality of two columns in a query, where null is equal to nothing.
abbrev pub sql_eq : Option ℕ → Option ℕ → Bool
sql_eq none b = false
sql_eq (some a) none = false
sql_eq (some a) (some b) = a == b

-- A row of the union of what counts toward a budget.
pub record Hit : Type 0 where
  pub transaction_id : ℕ
  pub kind : BudgetKind
  pub link_id : ℕ
  pub priority : ℕ

abbrev pub explicit : ℕ
explicit = 1

abbrev pub by_automation : ℕ
by_automation = 2

abbrev pub by_subscription : ℕ
by_subscription = 3

abbrev pub by_category : ℕ
by_category = 4

abbrev pub by_account : ℕ
by_account = 5

unfoldable pub not_a_transfer : List ℕ → Transaction → Bool
not_a_transfer transfers t = elim t.category_id [
  | none ↦ true
  | some category ↦ not (any_b (λ id. id == category) transfers)
]

unfoldable pub hit_by : Transaction → ℕ → BudgetLink → Hit
hit_by t priority link = record {
  transaction_id = t.id;
  kind = link.kind;
  link_id = link.id;
  priority = priority;
}

-- The hits of the links that join a transaction.
unfoldable pub joined : Transaction → ℕ → (BudgetLink → Bool) → List BudgetLink → List Hit
joined t priority on links = map (hit_by t priority) (select on links)

-- `ORDER BY` the priority, then the link.
abbrev pub comes_before : Hit → Hit → Bool
comes_before a b =
    ltb a.priority b.priority || (a.priority == b.priority && ltb a.link_id b.link_id)

-- The row that `DISTINCT ON` keeps of one transaction's.
unfoldable pub first_hit : List Hit → Option Hit
first_hit [] = none
first_hit (hit ∷ hits) = elim (first_hit hits) [
  | none ↦ some hit
  | some other ↦ if comes_before other hit then some other else some hit
]

-- Whether the days and the ids that `_counted` is limited to have the transaction.
pub record Limits : Type 0 where
  pub first : Option Date
  pub last : Option Date
  pub ids : Option (List ℕ)

unfoldable pub within : Limits → Transaction → Bool
within limits t =
    elim limits.first [ none ↦ true | some day ↦ date_leb day t.on ]
    && elim limits.last [ none ↦ true | some day ↦ date_leb t.on day ]
    && elim limits.ids [ none ↦ true | some ids ↦ any_b (λ id. id == t.id) ids ]

unfoldable pub taken_off : Tables → Budget → Transaction → Bool
taken_off tables budget t =
    any_b (λ x. x.budget_id == budget.id && x.transaction_id == t.id) tables.exclusions

module _ (e : Engine) where
  -- Whether an automation counts the transaction, `apply_to` included.
  unfoldable pub automation_counts : Automation → Transaction → Bool
  automation_counts a t = a.active && matching e (looks_of a) t && elim a.apply_to [
    | AutomationScope.all_of_them ↦ true
    | AutomationScope.future ↦ leb a.created_at t.created_at
  ]

  abbrev pub joins_explicit : ℕ → Transaction → BudgetLink → Bool
  joins_explicit budget t link = link.budget_id == budget && sql_eq link.transaction_id (some t.id)

  abbrev pub joins_automation : ℕ → List Automation → Transaction → BudgetLink → Bool
  joins_automation budget automations t link =
      link.budget_id == budget
      && any_b (λ a. sql_eq link.automation_id (some a.id) && automation_counts a t) automations

  abbrev pub joins_subscription : ℕ → Transaction → BudgetLink → Bool
  joins_subscription budget t link =
      link.budget_id == budget
      && sql_eq link.subscription_id t.subscription_id
      && ltb_ℤ t.amount (pos 0)

  abbrev pub joins_category : ℕ → Transaction → BudgetLink → Bool
  joins_category budget t link = link.budget_id == budget && sql_eq link.category_id t.category_id

  abbrev pub joins_account : ℕ → List ℕ → Transaction → BudgetLink → Bool
  joins_account budget transfers t link =
      link.budget_id == budget
      && sql_eq link.account_id (some t.account_id)
      && elim link.kind [ spending ↦ ltb_ℤ t.amount (pos 0) | income ↦ ltb_ℤ (pos 0) t.amount ]
      && not_a_transfer transfers t

  -- The hits by anything but a link of the transaction's own.
  unfoldable pub source_hits : Tables → Budget → List BudgetLink → Transaction → List Hit
  source_hits tables budget links t =
      joined t by_automation (joins_automation budget.id tables.automations t) links
      ++ joined t by_subscription (joins_subscription budget.id t) links
      ++ joined t by_category (joins_category budget.id t) links
      ++ joined t by_account (joins_account budget.id tables.transfers t) links

  -- The rows of one transaction in the union that `_counted` builds.
  unfoldable pub hits : Tables → Budget → Transaction → List Hit
  hits tables budget t =
      joined t explicit (joins_explicit budget.id t) tables.links
      ++ source_hits tables budget tables.links t

  -- What a transaction counts as, if it does; with `removed`, what it would if it were not off.
  unfoldable pub counts_as : Tables → Budget → Bool → Transaction → Option Hit
  counts_as tables budget removed t =
      let found = first_hit (hits tables budget t) in
      let off = taken_off tables budget t in
      if removed then (if off then found else none) else if off then none else found

  -- `_counted`
  unfoldable pub counted : Tables → Budget → Limits → Bool → List Transaction → List Hit
  counted tables budget limits removed [] = []
  counted tables budget limits removed (t ∷ rows) =
      let rest = counted tables budget limits removed rows in
      if within limits t
      then elim (counts_as tables budget removed t) [ none ↦ rest | some hit ↦ hit ∷ rest ]
      else rest
