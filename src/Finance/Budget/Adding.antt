-- ===== src/Finance/Budget/Adding.antt =====
-- What counting transactions toward a budget changes.
use cashcove.Base.{
  ℕ, ◌≡◌, ◌<◌, refl, inl, inr, ◌⊎◌, Bool, true, false, some, List, [], ◌∷◌, ◌++◌, Bool-cases,
  Option-cases, arith, any_b, map, All, All-map, select,
}
use cashcove.Finance.Store.{Transaction}
use cashcove.Finance.Automations.{Engine}
use cashcove.Finance.Budget.{
  BudgetKind, Budget, BudgetLink, Tables, Hit, hit_by, joined, first_hit, comes_before,
  joins_explicit, joins_automation, joins_subscription, joins_category, joins_account, source_hits,
  hits, explicit, by_automation, by_subscription, by_category, by_account,
}

pub All-append :
    {A : Type 0} (P : A → Type 0) (xs ys : List A) → All P xs → All P ys → All P (xs ++ ys)
All-append P [] ys h k = k
All-append P (x ∷ xs) ys h k = (h.0, All-append P xs ys h.1 k)

pub first_hit-All :
    (P : Hit → Type 0) (found : List Hit) (h : Hit) → All P found → first_hit found ≡ some h → P h
unfolding first_hit
first_hit-All P [] h all e = cc
first_hit-All P (x ∷ xs) h all e = elim (Option-cases (first_hit xs)) [
  | inl nothing ↦ let same : x ≡ h = cc (rw nothing at e) in rw (← same) all.0
  | inr (o, found) ↦ elim (Bool-cases (comes_before o x)) [
    | inl first ↦
        let same : o ≡ h = cc (rw (found, first) at e) in
        rw (← same) (first_hit-All P xs o all.1 found)
    | inr later ↦ let same : x ≡ h = cc (rw (found, later) at e) in rw (← same) all.0
  ]
]

-- A hit of a link to the transaction itself, of this kind.
abbrev pub IsExplicit : BudgetKind → Hit → Type 0
IsExplicit kind h = (h.priority ≡ 1) × (h.kind ≡ kind)

earlier :
    (kind : BudgetKind) (x o : Hit)
    → IsExplicit kind x
    → comes_before o x ≡ true
    → IsExplicit kind o ⊎ (1 < o.priority)
    → o.kind ≡ kind
earlier kind x o own first (inl e) = e.1
earlier kind x o own first (inr e) = let p = own.0 in absurd (ground (arith, p, first, e))

-- The first of a list that starts with such a hit, has more of them and then other hits, is one.
first_hit-explicit :
    (kind : BudgetKind) (x : Hit) (xs ys : List Hit)
    → IsExplicit kind x
    → All (IsExplicit kind) xs
    → All (λ h. 1 < h.priority) ys
    → (h : Hit) × (first_hit (x ∷ (xs ++ ys)) ≡ some h) × (h.kind ≡ kind)
unfolding first_hit
first_hit-explicit kind x xs ys own more others = elim (Option-cases (first_hit (xs ++ ys))) [
  | inl nothing ↦ (x, rw (first_hit, nothing) refl, own.1)
  | inr (o, found) ↦
      let sort_of : IsExplicit kind o ⊎ (1 < o.priority) =
        first_hit-All (λ h. IsExplicit kind h ⊎ (1 < h.priority)) (xs ++ ys) o
          (All-append _ xs ys (All-map (IsExplicit kind) _ xs (λ h e. inl e) more)
            (All-map (λ h. 1 < h.priority) _ ys (λ h e. inr e) others))
          found in
      elim (Bool-cases (comes_before o x)) [
        | inr later ↦ (x, rw (first_hit, found, later) refl, own.1)
        | inl first ↦ (o, rw (first_hit, found, first) refl, earlier kind x o own first sort_of)
      ]
]

joined-explicit :
    (kind : BudgetKind) (t : Transaction) (links : List BudgetLink)
    → All (λ l. l.kind ≡ kind) links
    → All (IsExplicit kind) (map (hit_by t explicit) links)
unfolding hit_by
joined-explicit kind t [] h = tt
joined-explicit kind t (l ∷ links) h = ((refl, h.0), joined-explicit kind t links h.1)

joined-after :
    (t : Transaction) (priority : ℕ) (on : BudgetLink → Bool) (links : List BudgetLink)
    → 1 < priority
    → All (λ h. 1 < h.priority) (joined t priority on links)
unfolding joined hit_by
joined-after t priority on [] h = tt
joined-after t priority on (l ∷ links) h = elim (Bool-cases (on l)) [
  | inl e ↦ rw e (h, joined-after t priority on links h)
  | inr e ↦ rw e (joined-after t priority on links h)
]

source_hits-after :
    (e : Engine) (tables : Tables) (budget : Budget) (links : List BudgetLink) (t : Transaction)
    → All (λ h. 1 < h.priority) (source_hits e tables budget links t)
unfolding source_hits
source_hits-after e tables budget links t =
    let after : (priority : ℕ) (on : BudgetLink → Bool)
        → 1 < priority
        → All (λ h. 1 < h.priority) (joined t priority on links) =
      λ priority on. joined-after t priority on links in
    All-append (λ h. 1 < h.priority) _ _
      (All-append (λ h. 1 < h.priority) _ _
        (All-append (λ h. 1 < h.priority) _ _
          (after by_automation (joins_automation e budget.id tables.automations t) (omega arith))
          (after by_subscription (joins_subscription e budget.id t) (omega arith)))
        (after by_category (joins_category e budget.id t) (omega arith)))
      (after by_account (joins_account e budget.id tables.transfers t) (omega arith))

selected-some :
    (p : BudgetLink → Bool) (links : List BudgetLink)
    → any_b p links ≡ true
    → (l : BudgetLink) × (rest : List BudgetLink) × (select p links ≡ l ∷ rest)
selected-some p [] h = cc
selected-some p (l ∷ links) h = elim (Bool-cases (p l)) [
  | inl e ↦ (l, select p links, rw e refl)
  | inr e ↦ rw e (selected-some p links (rw e at h))
]

pub selected-nothing :
    (p : BudgetLink → Bool) (links : List BudgetLink) → any_b p links ≡ false → select p links ≡ []
selected-nothing p [] h = refl
selected-nothing p (l ∷ links) h = elim (Bool-cases (p l)) [
  | inl e ↦ cc (rw e at h)
  | inr e ↦ rw e (selected-nothing p links (rw e at h))
]

-- Where a link to the transaction is there, and those that are have one kind, it counts as that.
pub explicit_counts :
    (e : Engine) (tables : Tables) (budget : Budget) (kind : BudgetKind) (t : Transaction)
    → any_b (joins_explicit e budget.id t) tables.links ≡ true
    → All (λ l. l.kind ≡ kind) (select (joins_explicit e budget.id t) tables.links)
    → (h : Hit) × (first_hit (hits e tables budget t) ≡ some h) × (h.kind ≡ kind)
unfolding hits joined
explicit_counts e tables budget kind t some_link kinds =
    let (l, rest, chosen) = selected-some (joins_explicit e budget.id t) tables.links some_link in
    let explicit_hits = joined-explicit kind t (l ∷ rest) (rw chosen at kinds) in
    rw chosen (
      first_hit-explicit kind (hit_by t explicit l) (map (hit_by t explicit) rest)
        (source_hits e tables budget tables.links t) (explicit_hits.0) (explicit_hits.1)
        (source_hits-after e tables budget tables.links t))
