-- ===== src/Finance/Budget/Linking.antt =====
-- Linking things to a budget and taking them off (the second half of
-- backend/app/finance/budget.py). Each returns the tables as it leaves them, or why it fails.
-- `new_id` gives the id of a new link by what it links.
use cashcove.Base.{
  ◌+◌, is_some, ℕ, Bool, true, false, not, ◌&&◌, ◌||◌, ◌⊎◌, inl, inr, Option, none, some, List, [],
  ◌∷◌, ◌++◌, map, ◌==◌, if◌then◌else◌, is_none, select, any_b, all_b, find, length,
}
use cashcove.Finance.Automations.{Engine}
use cashcove.Finance.Budget.{
  spending, BudgetKind, kind_eq, Budget, BudgetLink, BudgetExclusion, Tables, Hit, Limits, sql_eq,
  counted,
}

pub data Refused : Type 0 where
  unknown_transaction unknown_account unknown_category unknown_subscription : Refused
  unknown_automation already_counted not_found duplicate_budget unknown_budget : Refused

abbrev pub is_one_of : List ℕ → ℕ → Bool
is_one_of ids id = any_b (λ i. i == id) ids

-- `_existing(db, ids) == set(ids)`
unfoldable pub all_exist : Tables → List ℕ → Bool
all_exist tables ids = all_b (λ id. any_b (λ t. t.id == id) tables.db.transactions) ids

unfoldable pub only_ids : List ℕ → Limits
only_ids ids = record { first = none; last = none; ids = some ids }

-- Whether it is a link of this budget to one of the transactions.
abbrev pub is_own_link : ℕ → List ℕ → BudgetLink → Bool
is_own_link budget ids link =
    link.budget_id == budget
    && elim link.transaction_id [ none ↦ false | some id ↦ is_one_of ids id ]

abbrev pub own_link_to : ℕ → ℕ → BudgetLink → Bool
own_link_to budget id link = link.budget_id == budget && sql_eq link.transaction_id (some id)

abbrev pub new_link : ℕ → ℕ → BudgetKind → ℕ → BudgetLink
new_link link_id budget kind id = record {
  id = link_id;
  budget_id = budget;
  kind = kind;
  transaction_id = some id;
  account_id = none;
  category_id = none;
  subscription_id = none;
  automation_id = none;
}

-- `counting.get(transaction_id) != kind`
unfoldable pub counts_otherwise : List Hit → BudgetKind → ℕ → Bool
counts_otherwise counting kind id = elim (find (λ hit. hit.transaction_id == id) counting) [
  | none ↦ true
  | some hit ↦ not (kind_eq hit.kind kind)
]

-- The links after the loop of `link_transactions` over the wanted transactions.
unfoldable pub linked_to :
    (ℕ → ℕ) → ℕ → BudgetKind → List Hit → List BudgetLink → List ℕ → List BudgetLink
linked_to new_id budget kind counting links wanted =
    map (λ link. if is_own_link budget wanted link then record link { kind = kind } else link) links
    ++ map (λ id. new_link (new_id id) budget kind id)
        (select
          (λ id. not (any_b (own_link_to budget id) links) && counts_otherwise counting kind id)
          wanted)

unfoldable pub without_exclusions : ℕ → List ℕ → List BudgetExclusion → List BudgetExclusion
without_exclusions budget ids exclusions =
    select (λ x. not (x.budget_id == budget && is_one_of ids x.transaction_id)) exclusions

-- What a source of a budget is to be.
pub record BudgetSourceIn : Type 0 where
  pub kind : BudgetKind
  pub account_id : Option ℕ
  pub category_id : Option ℕ
  pub subscription_id : Option ℕ
  pub automation_id : Option ℕ

-- The constraints of the table that a source can break: nothing is linked to a budget twice, an
-- account as one kind.
unfoldable pub is_repeated : BudgetLink → BudgetLink → Bool
is_repeated link other =
    other.budget_id == link.budget_id
    && ((sql_eq other.account_id link.account_id && kind_eq other.kind link.kind)
        || sql_eq other.category_id link.category_id
        || sql_eq other.subscription_id link.subscription_id
        || sql_eq other.automation_id link.automation_id)

abbrev pub one_if_some : Option ℕ → ℕ
one_if_some none = 0
one_if_some (some id) = 1

-- The checks of the table: a link is to one thing, and a subscription counts as spending.
unfoldable pub breaks_check : BudgetLink → Bool
breaks_check link =
    not (
      one_if_some link.transaction_id
        + one_if_some link.account_id
        + one_if_some link.category_id
        + one_if_some link.subscription_id
        + one_if_some link.automation_id
      == 1)
    || (is_some link.subscription_id && not (kind_eq link.kind spending))

-- `_exists`: whether the check fails.
abbrev pub is_gone : (ℕ → Bool) → Option ℕ → Bool
is_gone exists none = false
is_gone exists (some id) = not (exists id)

unfoldable pub add_source : Tables → Budget → BudgetSourceIn → ℕ → Refused ⊎ Tables
add_source tables budget body link_id =
    let link : BudgetLink = record {
      id = link_id;
      budget_id = budget.id;
      kind = body.kind;
      transaction_id = none;
      account_id = body.account_id;
      category_id = body.category_id;
      subscription_id = body.subscription_id;
      automation_id = body.automation_id;
    } in
    if is_gone (λ id. any_b (λ a. a.id == id) tables.db.accounts) body.account_id
    then inl unknown_account
    else if is_gone (is_one_of tables.db.categories) body.category_id
    then inl unknown_category
    else if is_gone (λ id. any_b (λ s. s.id == id) tables.db.subscriptions) body.subscription_id
    then inl unknown_subscription
    else if is_gone (λ id. any_b (λ a. a.id == id) tables.automations) body.automation_id
    then inl unknown_automation
    else if breaks_check link || any_b (is_repeated link) tables.links
    then inl already_counted
    else inr (record tables { links = tables.links ++ (link ∷ []) })

unfoldable pub remove_source : Tables → Budget → ℕ → Refused ⊎ Tables
remove_source tables budget link_id =
    let asked : BudgetLink → Bool =
      λ link. link.id == link_id && link.budget_id == budget.id && is_none link.transaction_id in
    if any_b asked tables.links
    then inr (record tables { links = select (λ link. not (asked link)) tables.links })
    else inl not_found

-- A budget that an automation counts toward, and as what.
pub record AutomationCount : Type 0 where
  pub budget_id : ℕ
  pub kind : BudgetKind

unfoldable pub has_repeats : List AutomationCount → Bool
has_repeats [] = false
has_repeats (item ∷ counts) =
    any_b (λ other. other.budget_id == item.budget_id) counts || has_repeats counts

abbrev pub wanted_kind : List AutomationCount → ℕ → Option AutomationCount
wanted_kind counts budget = find (λ item. item.budget_id == budget) counts

-- The first loop of `set_automation_counts`: the links of the automation that stay, as wanted.
unfoldable pub kept_counts : ℕ → List AutomationCount → List BudgetLink → List BudgetLink
kept_counts automation counts [] = []
kept_counts automation counts (link ∷ links) =
    let rest = kept_counts automation counts links in
    if sql_eq link.automation_id (some automation)
    then elim (wanted_kind counts link.budget_id) [
      | none ↦ rest
      | some item ↦ record link { kind = item.kind } ∷ rest
    ]
    else link ∷ rest

unfoldable pub set_automation_counts :
    (ℕ → ℕ) → Tables → ℕ → List AutomationCount → Refused ⊎ Tables
set_automation_counts new_id tables automation counts =
    if has_repeats counts
    then inl duplicate_budget
    else if not (all_b (λ item. any_b (λ b. b.id == item.budget_id) tables.budgets) counts)
    then inl unknown_budget
    else inr (record tables {
      links =
          kept_counts automation counts tables.links
          ++ map
              (λ item. record {
                id = new_id item.budget_id;
                budget_id = item.budget_id;
                kind = item.kind;
                transaction_id = none;
                account_id = none;
                category_id = none;
                subscription_id = none;
                automation_id = some automation;
              })
              (select
                (λ item. not (
                  any_b
                    (λ link.
                      sql_eq link.automation_id (some automation)
                      && link.budget_id == item.budget_id)
                    tables.links))
                counts);
    })

module _ (e : Engine) where
  -- How many are linked, and the tables. The ids are a set, each once.
  unfoldable pub link_transactions :
      (ℕ → ℕ) → Tables → Budget → List ℕ → BudgetKind → Refused ⊎ (ℕ × Tables)
  link_transactions new_id tables budget wanted kind =
      let back = record tables {
        exclusions = without_exclusions budget.id wanted tables.exclusions;
      } in
      let counting = counted e back budget (only_ids wanted) false tables.db.transactions in
      if all_exist tables wanted
      then inr (
        length wanted,
        record back { links = linked_to new_id budget.id kind counting tables.links wanted },
      )
      else inl unknown_transaction

  unfoldable pub unlink_transaction : Tables → Budget → ℕ → Refused ⊎ Tables
  unlink_transaction tables budget id =
      let unlinked = record tables {
        links = select (λ link. not (own_link_to budget.id id link)) tables.links;
      } in
      let counting = counted e unlinked budget (only_ids (id ∷ [])) false tables.db.transactions in
      if all_exist tables (id ∷ [])
      then elim counting [
        | [] ↦ inr unlinked
        | hit ∷ more ↦ inr (record unlinked {
          exclusions = record { budget_id = budget.id; transaction_id = id } ∷ tables.exclusions;
        })
      ]
      else inl unknown_transaction
