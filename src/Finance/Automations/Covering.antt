-- ===== src/Finance/Automations/Covering.antt =====
-- A rule and a query find the same transactions.
use cashcove.Base.{
  or_false, abs_ℤ, ℕ, ◌≡◌, refl, sym, ◌∙◌, ◌<◌, inl, inr, Bool, true, false, not, ◌&&◌, ◌||◌,
  Option, none, some, List, [], ◌∷◌, ◌==◌, if◌then◌else◌, Bool-cases, arith, any_b, map, All,
  length, ℤ, ltb,
}
use cashcove.Base.Text.{Text, text_eq}
use cashcove.Finance.Text.{is_nil, text_key, column_key}
use cashcove.Finance.Store.{Transaction, Subscription}
use cashcove.Finance.Automations.{
  Engine, Automation, AutomationMatch, AutomationDirection, set_default, by_key_from, by_key,
  payee_keys, text_matches, comparison, covers, matching, matching_keys, looks_of, like_pattern,
  goes, goes_against, at_least, at_most,
}
use cashcove.Finance.Automations.RuleBook.{rule_of}
use cashcove.Finance.Automations.Alike.{
  IsReadAlike, IsDescribedAlike, AreReadAlike, column_key-text_key,
}
use cashcove.Finance.Automations.Patterns.{
  begins, has, IsDocumented, like-like_pattern, any_b-cong, search-pattern_of,
}

-- It looks for something, and nothing that it looks for is empty, as compared.
abbrev pub LooksForText : Engine → Automation → Type 0
LooksForText e a =
    (0 < length a.payees)
    × All (λ payee. is_nil (text_key e.is_space e.lower payee) ≡ false) a.payees

-- The keys that a `dict` has are not empty.
HaveText : List (Text × Text) → Type 0
HaveText items = All (λ item. is_nil item.0 ≡ false) items

set_default-HaveText :
    (key value : Text) (items : List (Text × Text))
    → is_nil key ≡ false
    → HaveText items
    → HaveText (set_default key value items)
unfolding set_default HaveText
set_default-HaveText key value [] k h = (k, tt)
set_default-HaveText key value (item ∷ items) k h = elim (Bool-cases (text_eq item.0 key)) [
  | inl same ↦ rw same h
  | inr other ↦ rw other (h.0, set_default-HaveText key value items k h.1)
]

by_key_from-HaveText :
    (e : Engine) (items : List (Text × Text)) (payees : List Text)
    → All (λ payee. is_nil (text_key e.is_space e.lower payee) ≡ false) payees
    → HaveText items
    → HaveText (by_key_from e items payees)
unfolding by_key_from
by_key_from-HaveText e items [] all h = h
by_key_from-HaveText e items (payee ∷ payees) all h =
    by_key_from-HaveText e (set_default (text_key e.is_space e.lower payee) payee items) payees
      all.1 (set_default-HaveText (text_key e.is_space e.lower payee) payee items all.0 h)

-- A `dict` keeps its first item.
by_key_from-first :
    (e : Engine) (item : Text × Text) (items : List (Text × Text)) (payees : List Text)
    → (rest : List (Text × Text)) × (by_key_from e (item ∷ items) payees ≡ item ∷ rest)
unfolding by_key_from set_default
by_key_from-first e item items [] = (items, refl)
by_key_from-first e item items (payee ∷ payees) =
    elim (Bool-cases (text_eq item.0 (text_key e.is_space e.lower payee))) [
      | inl same ↦ rw same (by_key_from-first e item items payees)
      | inr other ↦ rw other (
          by_key_from-first e item (set_default (text_key e.is_space e.lower payee) payee items)
            payees)
    ]

begins_nothing : (key : Text) → is_nil key ≡ false → begins key [] ≡ false
begins_nothing [] h = cc
begins_nothing (c ∷ key) h = refl

text_eq_nothing : (key : Text) → is_nil key ≡ false → text_eq [] key ≡ false
text_eq_nothing [] h = cc
text_eq_nothing (c ∷ key) h = refl

any_b-none :
    (test : Text → Bool) (items : List (Text × Text))
    → ((key : Text) → is_nil key ≡ false → test key ≡ false)
    → HaveText items
    → any_b test (map (λ item. item.0) items) ≡ false
unfolding HaveText
any_b-none test [] fails h = refl
any_b-none test (item ∷ items) fails h = rw (fails item.0 h.0, any_b-none test items fails h.1) refl

-- A function that returns early is a conjunction.
early_returns :
    (account way least most found : Bool)
    → (if account then false else if way then false else if least || most then false else found)
      ≡ (found && not account && not way && not least && not most)
early_returns account way least most found = ground arith

goes-goes_against : (d : AutomationDirection) (x : ℤ) → goes d x ≡ not (goes_against d x)
goes-goes_against AutomationDirection.any_way x = refl
goes-goes_against AutomationDirection.money_in x = ground arith
goes-goes_against AutomationDirection.money_out x = ground arith

at_least-not :
    (bound : Option ℕ) (x : ℕ)
    → at_least bound x ≡ not (elim bound [ none ↦ false | some least ↦ ltb x least ])
at_least-not none x = refl
at_least-not (some least) x = ground arith

at_most-not :
    (bound : Option ℕ) (x : ℕ)
    → at_most bound x ≡ not (elim bound [ none ↦ false | some most ↦ ltb most x ])
at_most-not none x = refl
at_most-not (some most) x = ground arith

account_not :
    (account : Option ℕ) (id : ℕ)
    → elim account [ none ↦ true | some a ↦ id == a ]
      ≡ not (elim account [ none ↦ false | some a ↦ not (id == a) ])
account_not none id = refl
account_not (some a) id = ground arith

module _ (e : Engine) (laws : IsDocumented e) where
  text_matches-comparison :
      (match : AutomationMatch) (key : Text) (keys : List Text) (text : Text)
      → text_matches e match (key ∷ keys) text ≡ comparison e (key ∷ keys) match text
  unfolding text_matches comparison
  text_matches-comparison AutomationMatch.exact key keys text = refl
  text_matches-comparison AutomationMatch.starts_with key keys text =
      any_b-cong (λ k. e.like text (like_pattern k true)) (λ k. begins k text) (key ∷ keys)
        (λ k. like-like_pattern e laws k text true)
      ∙ sym (search-pattern_of e laws key keys text true)
  text_matches-comparison AutomationMatch.contains key keys text =
      any_b-cong (λ k. e.like text (like_pattern k false)) (λ k. has k text) (key ∷ keys)
        (λ k. like-like_pattern e laws k text false)
      ∙ sym (search-pattern_of e laws key keys text false)

  text_matches_nothing :
      (match : AutomationMatch) (items : List (Text × Text))
      → HaveText items
      → text_matches e match (map (λ item. item.0) items) [] ≡ false
  unfolding text_matches
  text_matches_nothing AutomationMatch.exact items h =
      any_b-none (text_eq []) items text_eq_nothing h
  text_matches_nothing AutomationMatch.starts_with items h =
      any_b-none (λ k. e.like [] (like_pattern k true)) items
        (λ k full. like-like_pattern e laws k [] true ∙ begins_nothing k full) h
  text_matches_nothing AutomationMatch.contains items h =
      any_b-none (λ k. e.like [] (like_pattern k false)) items
        (λ k full. like-like_pattern e laws k [] false ∙ begins_nothing k full) h

  compares_alike :
      (match : AutomationMatch) (payees : List Text) (text : Text)
      → 0 < length payees
      → text_matches e match (payee_keys e payees) text
        ≡ comparison e (payee_keys e payees) match text
  unfolding payee_keys by_key by_key_from set_default
  compares_alike match [] text some_payee = absurd (ground arith)
  compares_alike match (payee ∷ payees) text some_payee =
      let item : Text × Text = (text_key e.is_space e.lower payee, payee) in
      let (rest, same) = by_key_from-first e item [] payees in
      rw same (text_matches-comparison match item.0 (map (λ i. i.0) rest) text)

  -- What both ways look at, with no description read as an empty one.
  described_alike :
      (a : Automation) (payee : Text) (described : Option Text)
      → LooksForText e a
      → IsReadAlike e payee
      → IsDescribedAlike e described
      → any_b (text_matches e a.match (payee_keys e a.payees)) (
          column_key e.db_is_space e.db_lower payee
          ∷ elim described [ none ↦ [] | some d ↦ column_key e.db_is_space e.db_lower d ]
          ∷ [])
        ≡ comparison e (payee_keys e a.payees) a.match (text_key e.is_space e.lower payee)
          || elim described [
            | none ↦ false
            | some d ↦ comparison e (payee_keys e a.payees) a.match (text_key e.is_space e.lower d)
          ]
  unfolding payee_keys by_key HaveText
  described_alike a payee none looks alike also =
      rw
        (
          column_key-text_key e payee laws.space_is alike,
          compares_alike a.match a.payees (text_key e.is_space e.lower payee) looks.0,
          text_matches_nothing a.match (by_key e a.payees)
              (by_key_from-HaveText e [] a.payees looks.1 tt),
        )
        refl
  described_alike a payee (some d) looks alike also =
      rw
        (
          column_key-text_key e payee laws.space_is alike,
          column_key-text_key e d laws.space_is also,
          compares_alike a.match a.payees (text_key e.is_space e.lower payee) looks.0,
          compares_alike a.match a.payees (text_key e.is_space e.lower d) looks.0,
          or_false,
        )
        refl

  -- An automation that looks for something covers the same transactions whether Python asks, as it
  -- sorts one that arrives (`_Rule.covers`), or the database does, as a query (`matching`): where
  -- none of the texts that it looks for is empty as compared, Python and the database read the
  -- payee and the description alike (letter case and whitespace), and `LIKE`, `re.escape` and
  -- searches for a group are as documented.
  pub covers-matching :
      (subscriptions : List Subscription) (a : Automation) (t : Transaction)
      → LooksForText e a
      → AreReadAlike e t
      → covers e (rule_of e subscriptions a) t ≡ matching e (looks_of a) t
  unfolding covers matching matching_keys looks_of rule_of
  covers-matching subscriptions a t looks alike =
      rw
        (
          described_alike a t.payee t.original_description looks alike.0 alike.1,
          goes-goes_against a.direction t.amount,
          at_least-not a.min_amount (abs_ℤ t.amount),
          at_most-not a.max_amount (abs_ℤ t.amount),
          account_not a.account_id t.account_id,
        )
        (early_returns _ _ _ _ _)
