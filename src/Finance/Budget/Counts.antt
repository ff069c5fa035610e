-- ===== src/Finance/Budget/Counts.antt =====
-- What counts toward a budget: the hit that counts, and which links it depends on.
use cashcove.Base.{
  and_false, ℕ, ◌≡◌, refl, ap, inl, inr, Bool, true, false, not, ◌&&◌, none, List, [], ◌∷◌,
  Bool-cases, Option-cases, any_b, All, Any, select, is_some,
}
use cashcove.Finance.Store.{Transaction}
use cashcove.Finance.Automations.{Engine, Automation}
use cashcove.Finance.Budget.{
  Budget, BudgetLink, Tables, Limits, hit_by, joined, within, joins_automation, joins_subscription,
  joins_category, joins_account, source_hits, counts_as, counted, by_automation, by_subscription,
  by_category, by_account, automation_counts,
}

-- A link to a transaction is to nothing else, as the table makes sure.
pub record IsOneThing (link : BudgetLink) : Type 0 where
  pub no_account : is_some link.transaction_id ≡ true → link.account_id ≡ none
  pub no_category : is_some link.transaction_id ≡ true → link.category_id ≡ none
  pub no_subscription : is_some link.transaction_id ≡ true → link.subscription_id ≡ none
  pub no_automation : is_some link.transaction_id ≡ true → link.automation_id ≡ none

-- The links that are not to a single transaction.
abbrev pub sources : List BudgetLink → List BudgetLink
sources links = select (λ link. not (is_some link.transaction_id)) links

-- A test that fails on the links to a transaction.
OnlySources : (BudgetLink → Bool) → BudgetLink → Type 0
OnlySources on link = is_some link.transaction_id ≡ true → on link ≡ false

joined-sources :
    (t : Transaction) (priority : ℕ) (on : BudgetLink → Bool) (links : List BudgetLink)
    → ((link : BudgetLink) → IsOneThing link → OnlySources on link)
    → All IsOneThing links
    → joined t priority on links ≡ joined t priority on (sources links)
unfolding joined OnlySources
joined-sources t priority on [] only one = refl
joined-sources t priority on (link ∷ links) only one =
    elim (Bool-cases (is_some link.transaction_id)) [
      | inl own ↦ rw (own, only link one.0 own) (joined-sources t priority on links only one.1)
      | inr source ↦ elim (Bool-cases (on link)) [
        | inl e ↦
            rw (source, e)
              (ap (λ l. hit_by t priority link ∷ l) (joined-sources t priority on links only one.1))
        | inr e ↦ rw (source, e) (joined-sources t priority on links only one.1)
      ]
    ]

never : (p : Automation → Bool) (l : List Automation) → any_b (λ a. false && p a) l ≡ false
never p [] = refl
never p (a ∷ l) = never p l

pub source_hits-sources :
    (e : Engine) (tables : Tables) (budget : Budget) (links : List BudgetLink) (t : Transaction)
    → All IsOneThing links
    → source_hits e tables budget links t ≡ source_hits e tables budget (sources links) t
unfolding source_hits OnlySources
source_hits-sources e tables budget links t one =
    rw
      (
        joined-sources t by_automation (joins_automation e budget.id tables.automations t) links
            (λ link o own.
              rw (o.no_automation own)
                (rw (never (λ a. automation_counts e a t) tables.automations, and_false) refl))
            one,
        joined-sources t by_subscription (joins_subscription e budget.id t) links
            (λ link o own. rw (o.no_subscription own) (rw and_false refl)) one,
        joined-sources t by_category (joins_category e budget.id t) links
            (λ link o own. rw (o.no_category own) (rw and_false refl)) one,
        joined-sources t by_account (joins_account e budget.id tables.transfers t) links
            (λ link o own. rw (o.no_account own) (rw and_false refl)) one,
      )
      refl

select-select :
    (p q : BudgetLink → Bool) (links : List BudgetLink)
    → All (λ l. p l ≡ true → q l ≡ true) links
    → select p (select q links) ≡ select p links
select-select p q [] h = refl
select-select p q (l ∷ links) h = elim (Bool-cases (q l)) [
  | inl e ↦ elim (Bool-cases (p l)) [
    | inl k ↦ rw (e, k) (ap (λ r. l ∷ r) (select-select p q links h.1))
    | inr k ↦ rw (e, k) (select-select p q links h.1)
  ]
  | inr e ↦ elim (Bool-cases (p l)) [
    | inl k ↦ cc (h.0 k, e)
    | inr k ↦ rw (e, k) (select-select p q links h.1)
  ]
]

every : (P : BudgetLink → Type 0) (links : List BudgetLink) → ((l : BudgetLink) → P l) → All P links
every P [] f = tt
every P (l ∷ links) f = (f l, every P links f)

pub select-implied :
    (p q : BudgetLink → Bool) (links : List BudgetLink)
    → ((l : BudgetLink) → p l ≡ true → q l ≡ true)
    → select p (select q links) ≡ select p links
select-implied p q links f = select-select p q links (every _ links f)

nothing_left :
    (e : Engine) (tables : Tables) (budget : Budget) (limits : Limits) (u : Transaction)
    (rows : List Transaction)
    → counted e tables budget limits false (u ∷ rows) ≡ []
    → counted e tables budget limits false rows ≡ []
unfolding counted
nothing_left e tables budget limits u rows h = elim (Bool-cases (within limits u)) [
  | inr outside ↦ rw outside at h
  | inl inside ↦ elim (Option-cases (counts_as e tables budget false u)) [
    | inl nothing ↦ rw (inside, nothing) at h
    | inr (hit, counts) ↦ cc (rw (inside, counts) at h)
  ]
]

-- A transaction that counts is among those counted.
pub counted_nothing :
    (e : Engine) (tables : Tables) (budget : Budget) (limits : Limits) (rows : List Transaction)
    (t : Transaction)
    → Any (λ u. u ≡ t) rows
    → within limits t ≡ true
    → counted e tables budget limits false rows ≡ []
    → counts_as e tables budget false t ≡ none
unfolding counted
counted_nothing e tables budget limits [] t here inside h = absurd here
counted_nothing e tables budget limits (u ∷ rows) t (inl same) inside h =
    elim (Option-cases (counts_as e tables budget false t)) [
      | inl nothing ↦ nothing
      | inr (hit, counts) ↦ cc (rw (same, inside, counts) at h)
    ]
counted_nothing e tables budget limits (u ∷ rows) t (inr here) inside h =
    counted_nothing e tables budget limits rows t here inside
      (nothing_left e tables budget limits u rows h)
