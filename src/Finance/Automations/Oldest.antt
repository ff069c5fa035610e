-- ===== src/Finance/Automations/Oldest.antt =====
-- The oldest automation that covers a transaction wins.
use cashcove.Base.{
  Option-cases, ℕ, ◌≡◌, refl, inl, inr, true, false, ◌&&◌, Option, none, some, List, [], ◌∷◌,
  if◌then◌else◌, Bool-cases, find, is_some, ltb_ℤ, pos,
}
use cashcove.Finance.Store.{Transaction}
use cashcove.Finance.Automations.{Engine, Rule, covers}
use cashcove.Finance.Automations.RuleBook.{
  RuleBook, own_get, normalized_payee, or_first, pick_from, pick,
}

-- What the first rule that covers a transaction, of those that give it this, gives it.
unfoldable pub first_given : Engine → (Rule → Option ℕ) → List Rule → Transaction → Option ℕ
first_given e gives rules t = elim (find (λ rule. covers e rule t && is_some (gives rule)) rules) [
  | none ↦ none
  | some rule ↦ gives rule
]

module _ (e : Engine) where
  first_given-found :
      (gives : Rule → Option ℕ) (rule : Rule) (rules : List Rule) (t : Transaction)
      → covers e rule t ≡ true
      → first_given e gives (rule ∷ rules) t ≡ or_first (gives rule) (first_given e gives rules t)
  unfolding first_given
  first_given-found gives rule rules t h = elim (Option-cases (gives rule)) [
    | inl nothing ↦ rw (first_given, h, nothing) refl
    | inr (x, given) ↦ rw (first_given, h, given) given
  ]

  first_given-missed :
      (gives : Rule → Option ℕ) (rule : Rule) (rules : List Rule) (t : Transaction)
      → covers e rule t ≡ false
      → first_given e gives (rule ∷ rules) t ≡ first_given e gives rules t
  unfolding first_given
  first_given-missed gives rule rules t h = rw (first_given, h) refl

  or_first_assoc : (a b c : Option ℕ) → or_first (or_first a b) c ≡ or_first a (or_first b c)
  or_first_assoc none b c = refl
  or_first_assoc (some a) b c = refl

  or_first-none : (a : Option ℕ) → or_first a none ≡ a
  or_first-none none = refl
  or_first-none (some a) = refl

  nothing_given : (gives : Rule → Option ℕ) (t : Transaction) → first_given e gives [] t ≡ none
  unfolding first_given
  nothing_given gives t = refl

  pick_from-first_given :
      (rules : List Rule) (t : Transaction) (category_id subscription : Option ℕ)
      → pick_from e rules t category_id subscription ≡ (
        or_first category_id (first_given e (λ r. r.category_id) rules t),
        or_first subscription
            (if ltb_ℤ t.amount (pos 0) then first_given e (λ r. r.subscription) rules t else none),
      )
  unfolding pick_from
  pick_from-first_given [] t category_id subscription = elim (Bool-cases (ltb_ℤ t.amount (pos 0))) [
    | inl payment ↦ rw (nothing_given, nothing_given, payment, or_first-none, or_first-none) refl
    | inr income ↦ rw (nothing_given, income, or_first-none, or_first-none) refl
  ]
  pick_from-first_given (rule ∷ rules) t category_id subscription =
      elim (Bool-cases (covers e rule t)) [
        | inr missed ↦
            rw
              (
                missed,
                pick_from-first_given rules t,
                first_given-missed (λ r. r.category_id) rule rules t missed,
                first_given-missed (λ r. r.subscription) rule rules t missed,
              )
              refl
        | inl found ↦ elim (Bool-cases (ltb_ℤ t.amount (pos 0))) [
          | inl payment ↦
              rw
                (
                  found,
                  pick_from-first_given rules t,
                  first_given-found (λ r. r.category_id) rule rules t found,
                  first_given-found (λ r. r.subscription) rule rules t found,
                  payment,
                  or_first_assoc,
                  or_first_assoc,
                )
                refl
          | inr income ↦
              rw
                (
                  found,
                  pick_from-first_given rules t,
                  first_given-found (λ r. r.category_id) rule rules t found,
                  income,
                  or_first_assoc,
                )
                refl
        ]
      ]

  -- A transaction gets the category of the first rule that covers it and gives one. A payment gets
  -- the subscription of the first that covers it and gives one, and where none does, the one whose
  -- own account and payee it has; money in gets none.
  pub pick-first_given :
      (book : RuleBook) (t : Transaction)
      → pick e book t ≡ (
        first_given e (λ r. r.category_id) book.rules t,
        (if ltb_ℤ t.amount (pos 0)
            then or_first
                (first_given e (λ r. r.subscription) book.rules t)
                (own_get book.own t.account_id (normalized_payee e t.payee))
            else none),
      )
  unfolding pick
  pick-first_given book t = elim (Bool-cases (ltb_ℤ t.amount (pos 0))) [
    | inl payment ↦ rw (pick_from-first_given book.rules t none none, payment) refl
    | inr income ↦ rw (pick_from-first_given book.rules t none none, income) refl
  ]
