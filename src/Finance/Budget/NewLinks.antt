-- ===== src/Finance/Budget/NewLinks.antt =====
-- The links after a request has given some their kind and added others.
use cashcove.Base.{
  ℕ, ◌≡◌, refl, ap, ◌∙◌, inl, inr, Bool, true, false, ◌&&◌, ◌||◌, none, List, [], ◌∷◌, ◌++◌, ◌==◌,
  if◌then◌else◌, Bool-cases, Option-cases, arith, any_b, map, All, select, and_false,
}
use cashcove.Finance.Store.{Transaction}
use cashcove.Finance.Automations.{Engine}
use cashcove.Finance.Budget.{BudgetKind, BudgetLink, joins_explicit}
use cashcove.Finance.Budget.Linking.{is_one_of, is_own_link, new_link}
use cashcove.Finance.Budget.Counts.{IsOneThing, sources}

pub any_b-append :
    (p : BudgetLink → Bool) (xs ys : List BudgetLink)
    → any_b p (xs ++ ys) ≡ (any_b p xs || any_b p ys)
any_b-append p [] ys = refl
any_b-append p (x ∷ xs) ys = rw (any_b-append p xs ys) (ground arith)

pub select-All :
    (P : BudgetLink → Type 0) (p : BudgetLink → Bool) (xs ys : List BudgetLink)
    → All P (select p xs)
    → All P (select p ys)
    → All P (select p (xs ++ ys))
select-All P p [] ys h k = k
select-All P p (x ∷ xs) ys h k = elim (Bool-cases (p x)) [
  | inl e ↦ let h' = rw e at h in rw e (h'.0, select-All P p xs ys h'.1 k)
  | inr e ↦ rw e (select-All P p xs ys (rw e at h) k)
]

module _ (e : Engine) (budget : ℕ) (wanted : List ℕ) (kind : BudgetKind) where
  abbrev pub rekinded : BudgetLink → BudgetLink
  rekinded link = if is_own_link budget wanted link then record link { kind = kind } else link

  -- Giving links their kind changes neither what they join nor which are sources.
  pub joins-rekinded :
      (t : Transaction) (links : List BudgetLink)
      → any_b (joins_explicit e budget t) (map rekinded links)
        ≡ any_b (joins_explicit e budget t) links
  joins-rekinded t [] = refl
  joins-rekinded t (l ∷ links) = elim (Bool-cases (is_own_link budget wanted l)) [
    | inl own ↦ rw (own, joins-rekinded t links) refl
    | inr other ↦ rw (other, joins-rekinded t links) refl
  ]

  own_link :
      (t : Transaction) (l : BudgetLink)
      → is_one_of wanted t.id ≡ true
      → joins_explicit e budget t l ≡ true
      → is_own_link budget wanted l ≡ true
  own_link t l among h = elim (Option-cases l.transaction_id) [
    | inl nothing ↦ absurd (let k = rw (nothing, and_false) at h in cc k)
    | inr (i, owns) ↦
        let k = rw owns at h in
        let mine : (l.budget_id == budget) ≡ true = ground arith in
        let same : i ≡ t.id = ground arith in rw (owns, same, mine, among) refl
  ]

  pub kinds-rekinded :
      (t : Transaction) (links : List BudgetLink)
      → is_one_of wanted t.id ≡ true
      → All (λ l. l.kind ≡ kind) (select (joins_explicit e budget t) (map rekinded links))
  kinds-rekinded t [] among = tt
  kinds-rekinded t (l ∷ links) among = elim (Bool-cases (joins_explicit e budget t l)) [
    | inl joins ↦
        let own = own_link t l among joins in rw (own, joins) (refl, kinds-rekinded t links among)
    | inr other ↦ elim (Bool-cases (is_own_link budget wanted l)) [
      | inl own ↦ rw (own, other) (kinds-rekinded t links among)
      | inr strange ↦ rw (strange, other) (kinds-rekinded t links among)
    ]
  ]

  pub sources-rekinded : (links : List BudgetLink) → sources (map rekinded links) ≡ sources links
  sources-rekinded [] = refl
  sources-rekinded (l ∷ links) = elim (Option-cases l.transaction_id) [
    | inl nothing ↦
        let other : is_own_link budget wanted l ≡ false = rw (nothing, and_false) refl in
        rw (other, nothing)
          (ap (λ r. record l { transaction_id = none } ∷ r) (sources-rekinded links))
    | inr (i, owns) ↦ elim (Bool-cases (is_own_link budget wanted l)) [
      | inl own ↦ rw (own, owns) (sources-rekinded links)
      | inr other ↦ rw (other, owns) (sources-rekinded links)
    ]
  ]

  pub rekinded-IsOneThing :
      (links : List BudgetLink) → All IsOneThing links → All IsOneThing (map rekinded links)
  rekinded-IsOneThing [] one = tt
  rekinded-IsOneThing (l ∷ links) one = elim (Bool-cases (is_own_link budget wanted l)) [
    | inl own ↦ rw own (
      record {
        no_account = one.0.no_account;
        no_category = one.0.no_category;
        no_subscription = one.0.no_subscription;
        no_automation = one.0.no_automation;
      },
      rekinded-IsOneThing links one.1,
    )
    | inr other ↦ rw other (one.0, rekinded-IsOneThing links one.1)
  ]

  module _ (new_id : ℕ → ℕ) (p : ℕ → Bool) where
    abbrev pub created : List ℕ → List BudgetLink
    created ids = map (λ id. new_link (new_id id) budget kind id) (select p ids)

    pub joins-created :
        (t : Transaction) (ids : List ℕ)
        → any_b (joins_explicit e budget t) (created ids) ≡ (p t.id && is_one_of ids t.id)
    joins-created t [] = rw (and_false (p t.id)) refl
    joins-created t (id ∷ ids) = elim (Bool-cases (id == t.id)) [
      | inl same ↦
          let it : id ≡ t.id = ground arith in
          let mine : (budget == budget) ≡ true = ground arith in
          let itself : (t.id == t.id) ≡ true = ground arith in
          elim (Bool-cases (p t.id)) [
            | inl adds ↦ rw (it, adds, mine, itself) refl
            | inr no_link ↦ rw (it, no_link) (joins-created t ids ∙ rw no_link refl)
          ]
      | inr other ↦ elim (Bool-cases (p id)) [
        | inl adds ↦ rw (adds, other, and_false) (joins-created t ids)
        | inr no_link ↦ rw (no_link, other) (joins-created t ids)
      ]
    ]

    pub kinds-created :
        (on : BudgetLink → Bool) (ids : List ℕ) → All (λ l. l.kind ≡ kind) (select on (created ids))
    kinds-created on [] = tt
    kinds-created on (id ∷ ids) = elim (Bool-cases (p id)) [
      | inr no_link ↦ rw no_link (kinds-created on ids)
      | inl adds ↦ elim (Bool-cases (on (new_link (new_id id) budget kind id))) [
        | inl joins ↦ rw (adds, joins) (refl, kinds-created on ids)
        | inr other ↦ rw (adds, other) (kinds-created on ids)
      ]
    ]

    pub sources-created : (ids : List ℕ) → sources (created ids) ≡ []
    sources-created [] = refl
    sources-created (id ∷ ids) = elim (Bool-cases (p id)) [
      | inr no_link ↦ rw no_link (sources-created ids)
      | inl adds ↦ rw adds (sources-created ids)
    ]

    pub created-IsOneThing : (ids : List ℕ) → All IsOneThing (created ids)
    created-IsOneThing [] = tt
    created-IsOneThing (id ∷ ids) = elim (Bool-cases (p id)) [
      | inr no_link ↦ rw no_link (created-IsOneThing ids)
      | inl adds ↦ rw adds (
        record {
          no_account = λ h. refl;
          no_category = λ h. refl;
          no_subscription = λ h. refl;
          no_automation = λ h. refl;
        },
        created-IsOneThing ids,
      )
    ]
