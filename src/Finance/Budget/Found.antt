-- ===== src/Finance/Budget/Found.antt =====
-- Finding a transaction among those that count.
use cashcove.Base.{
  ℕ, ◌≡◌, refl, inl, inr, Bool, true, false, not, ◌&&◌, ◌||◌, some, List, [], ◌∷◌, ◌==◌, Bool-cases,
  Option-cases, arith, any_b, All, and_false, find,
}
use cashcove.Finance.Store.{Transaction}
use cashcove.Finance.Automations.{Engine}
use cashcove.Finance.Budget.{
  BudgetKind, income, spending, kind_eq, Budget, BudgetLink, BudgetExclusion, Tables, Hit, Limits,
  hit_by, joined, within, taken_off, joins_explicit, joins_automation, joins_subscription,
  joins_category, joins_account, by_automation, by_subscription, by_category, by_account,
  source_hits, hits, counts_as, counted, explicit,
}
use cashcove.Finance.Budget.Linking.{is_one_of, without_exclusions}
use cashcove.Finance.Budget.Adding.{All-append, first_hit-All}

pub neither_one : (a b : Bool) → (a || not a && b) ≡ false → b ≡ false
neither_one a b h = ground arith

pub kind_eq→eq : (a b : BudgetKind) → not (kind_eq a b) ≡ false → a ≡ b
kind_eq→eq income income h = refl
kind_eq→eq income spending h = cc
kind_eq→eq spending income h = cc
kind_eq→eq spending spending h = refl

pub still_off :
    (budget : ℕ) (wanted : List ℕ) (t : Transaction) (exclusions : List BudgetExclusion)
    → is_one_of wanted t.id ≡ true
    → any_b
        (λ x. x.budget_id == budget && x.transaction_id == t.id)
        (without_exclusions budget wanted exclusions)
      ≡ false
unfolding without_exclusions
still_off budget wanted t [] among = refl
still_off budget wanted t (x ∷ exclusions) among =
    elim (Bool-cases (x.budget_id == budget && is_one_of wanted x.transaction_id)) [
      | inl dropped ↦ rw dropped (still_off budget wanted t exclusions among)
      | inr kept ↦ elim (Bool-cases (x.transaction_id == t.id)) [
        | inl same ↦
            let it : x.transaction_id ≡ t.id = ground arith in
            let elsewhere : (x.budget_id == budget) ≡ false =
              let k = rw (it, among) at kept in ground arith in
            rw (kept, elsewhere) (still_off budget wanted t exclusions among)
        | inr other ↦ rw (kept, other, and_false) (still_off budget wanted t exclusions among)
      ]
    ]

joined-id :
    (t : Transaction) (priority : ℕ) (on : BudgetLink → Bool) (links : List BudgetLink)
    → All (λ (h : Hit). h.transaction_id ≡ t.id) (joined t priority on links)
unfolding joined hit_by
joined-id t priority on [] = tt
joined-id t priority on (l ∷ links) = elim (Bool-cases (on l)) [
  | inl e ↦ rw e (refl, joined-id t priority on links)
  | inr e ↦ rw e (joined-id t priority on links)
]

hits-id :
    (e : Engine) (tables : Tables) (budget : Budget) (t : Transaction)
    → All (λ (h : Hit). h.transaction_id ≡ t.id) (hits e tables budget t)
unfolding hits source_hits
hits-id e tables budget t =
    let ids : (priority : ℕ) (on : BudgetLink → Bool)
        → All (λ (h : Hit). h.transaction_id ≡ t.id) (joined t priority on tables.links) =
      λ priority on. joined-id t priority on tables.links in
    All-append (λ (h : Hit). h.transaction_id ≡ t.id) _ _
      (ids explicit (joins_explicit e budget.id t))
      (All-append (λ (h : Hit). h.transaction_id ≡ t.id) _ _
        (All-append (λ (h : Hit). h.transaction_id ≡ t.id) _ _
          (All-append (λ (h : Hit). h.transaction_id ≡ t.id) _ _
            (ids by_automation (joins_automation e budget.id tables.automations t))
            (ids by_subscription (joins_subscription e budget.id t)))
          (ids by_category (joins_category e budget.id t)))
        (ids by_account (joins_account e budget.id tables.transfers t)))

counts_as-id :
    (e : Engine) (tables : Tables) (budget : Budget) (t : Transaction) (h : Hit)
    → counts_as e tables budget false t ≡ some h
    → h.transaction_id ≡ t.id
unfolding counts_as
counts_as-id e tables budget t h counts = elim (Bool-cases (taken_off tables budget t)) [
  | inl off ↦ cc (rw off at counts)
  | inr on ↦
      first_hit-All (λ h. h.transaction_id ≡ t.id) (hits e tables budget t) h
        (hits-id e tables budget t) (rw on at counts)
]

-- A transaction's row among those counted is what it counts as.
pub find-counted :
    (e : Engine) (tables : Tables) (budget : Budget) (limits : Limits) (rows : List Transaction)
    (t : Transaction) (h : Hit)
    → All (λ (u : Transaction). u.id ≡ t.id → u ≡ t) rows
    → find (λ hit. hit.transaction_id == t.id) (counted e tables budget limits false rows) ≡ some h
    → counts_as e tables budget false t ≡ some h
unfolding counted
find-counted e tables budget limits [] t h key found = cc
find-counted e tables budget limits (u ∷ rows) t h key found = elim (Bool-cases (within limits u)) [
  | inr outside ↦ find-counted e tables budget limits rows t h key.1 (rw outside at found)
  | inl inside ↦ elim (Option-cases (counts_as e tables budget false u)) [
    | inl nothing ↦
        find-counted e tables budget limits rows t h key.1 (rw (inside, nothing) at found)
    | inr (o, counts) ↦ elim (Bool-cases (o.transaction_id == t.id)) [
      | inl hit ↦
          let it : o ≡ h = cc (rw (inside, counts, hit) at found) in
          let id = counts_as-id e tables budget u o counts in
          let same : u ≡ t = key.0 (ground (arith, id, hit)) in rw (← same, ← it) counts
      | inr miss ↦
          find-counted e tables budget limits rows t h key.1 (rw (inside, counts, miss) at found)
    ]
  ]
]
