-- ===== src/Finance/Automations/Agreement.antt =====
-- Sorting what is there already, with one statement, gives what sorting one at a time does.
use cashcove.Base.{
  not, map, if◌then◌else◌, opt_eq, Any, ℕ, ◌≡◌, refl, ap, sym, ◌∙◌, inl, inr, Bool, true, false,
  ◌&&◌, Option, none, some, List, [], ◌∷◌, Bool-cases, Option-cases, arith, find, is_some, map,
  select, any_b, any_b-select, All, All-select,
}
use cashcove.Finance.Store.{Transaction, Subscription}
use cashcove.Finance.Automations.{Engine, Automation, matching, looks_of}
use cashcove.Finance.Automations.Covering.{LooksForText, covers-matching}
use cashcove.Finance.Automations.Patterns.{IsDocumented}
use cashcove.Finance.Automations.Alike.{AreReadAlike}
use cashcove.Finance.Automations.RuleBook.{
  pick, made_before, rule_of, rule_book, load, ordered, pick,
}
use cashcove.Finance.Automations.Order.{
  ordered-InOrder, ordered-any_b, ordered-All, find-none, find-holds, find-oldest, any_b_fails,
}
use cashcove.Finance.Automations.Sorting.{opt_eq→eq}
use cashcove.Finance.Automations.Existing.{give_category, update_where}
use cashcove.Finance.Automations.Oldest.{first_given, pick-first_given}
use cashcove.Finance.Automations.Existing.{
  gets_category, give_category, update_where, wins, claimed,
}

-- An active automation that covers the transaction and gives it a category.
abbrev pub gives_category : Engine → Transaction → Automation → Bool
gives_category e t a = matching e (looks_of a) t && is_some a.category_id

-- Where automations have different ids, two made in the same moment with one id are one.
abbrev pub IsKey : List Automation → Automation → Type 0
IsKey automations a = All (λ b. b.id ≡ a.id → b ≡ a) automations

module _ (e : Engine) (laws : IsDocumented e) (t : Transaction) (alike : AreReadAlike e t) where
  -- The first rule that covers it and gives a category is the first such automation's.
  first_given-find :
      (subscriptions : List Subscription) (l : List Automation)
      → All (LooksForText e) l
      → first_given e (λ r. r.category_id) (map (rule_of e subscriptions) l) t
        ≡ elim (find (gives_category e t) l) [ none ↦ none | some a ↦ a.category_id ]
  unfolding first_given rule_of
  first_given-find subscriptions [] looks = refl
  first_given-find subscriptions (a ∷ l) looks =
      let same = covers-matching e laws subscriptions a t looks.0 alike in
      elim (Bool-cases (gives_category e t a)) [
        | inl gives ↦ rw (first_given, same, gives) refl
        | inr idle ↦ rw (first_given, same, idle) (first_given-find subscriptions l looks.1)
      ]

  pick-load-find :
      (automations : List Automation) (subscriptions : List Subscription)
      → All (LooksForText e) automations
      → (pick e (load e automations subscriptions) t).0
        ≡ elim (find (gives_category e t) (ordered (select (λ a. a.active) automations))) [
          | none ↦ none
          | some a ↦ a.category_id
        ]
  unfolding load rule_book
  pick-load-find automations subscriptions looks =
      ap (λ (picked : Option ℕ × Option ℕ). picked.0)
        (pick-first_given e (load e automations subscriptions) t)
      ∙ first_given-find subscriptions (ordered (select (λ a. a.active) automations)) (
          ordered-All (LooksForText e) (select (λ a. a.active) automations)
            (All-select (LooksForText e) (λ a. a.active) automations looks))

  claimed-wins :
      (automations : List Automation) (a : Automation)
      → claimed e (select (λ other. is_some other.category_id) (wins automations a)) t
        ≡ any_b
            (λ o.
              (o.active && made_before o a) && (is_some o.category_id && matching e (looks_of o) t))
            automations
  unfolding claimed wins
  claimed-wins automations a =
      any_b-select (λ o. matching e (looks_of o) t) (λ o. is_some o.category_id)
        (wins automations a)
      ∙ ordered-any_b (λ o. is_some o.category_id && matching e (looks_of o) t)
          (select (λ o. o.active && made_before o a) automations)
      ∙ any_b-select (λ o. is_some o.category_id && matching e (looks_of o) t)
          (λ o. o.active && made_before o a) automations

-- What a claim of an older automation is, for one of the table.
abbrev claims : Engine → Transaction → Automation → Automation → Bool
claims e t a b =
    (b.active && made_before b a) && (is_some b.category_id && matching e (looks_of b) t)

abbrev IsOnly : Automation → Automation → Type 0
IsOnly a b = b.id ≡ a.id → b ≡ a

not_before :
    (is_active before gives found : Bool)
    → ((is_active && before) && (gives && found)) ≡ false
    → is_active ≡ true
    → (found && gives) ≡ true
    → before ≡ false
not_before is_active before gives found h k l = ground arith

not_after :
    (is_active gives after : Bool)
    → (is_active && (gives && after)) ≡ false
    → is_active ≡ true
    → gives ≡ true
    → after ≡ false
not_after is_active gives after h k l = ground arith

same_place : (a b : Automation) → made_before a b ≡ false → made_before b a ≡ false → a.id ≡ b.id
same_place a b h k = ground arith

cons_eq : {t u : Transaction} {l k : List Transaction} → t ≡ u → l ≡ k → (t ∷ l) ≡ (u ∷ k)
cons_eq h k = rw (h, k) refl

already_given :
    (found taken chosen already : Bool) (t u : Transaction)
    → (already ≡ true → t ≡ u)
    → (if found && true && not taken && not chosen && not already then u else t)
      ≡ (if found && not taken && not chosen then u else t)
already_given false taken chosen already t u h = refl
already_given true true chosen already t u h = refl
already_given true false true already t u h = refl
already_given true false false true t u h = h refl
already_given true false false false t u h = refl

zipped :
    (P Q : Automation → Type 0) (l : List Automation) → All P l → All Q l → All (λ x. P x × Q x) l
zipped P Q [] h k = tt
zipped P Q (x ∷ l) h k = ((h.0, k.0), zipped P Q l h.1 k.1)

none_passes :
    (q : Automation → Bool) (l : List Automation) → any_b q l ≡ false → All (λ x. q x ≡ false) l
none_passes q [] h = tt
none_passes q (x ∷ l) h = (ground arith, none_passes q l (ground arith))

passes_none :
    (q : Automation → Bool) (a : Automation) (l : List Automation)
    → Any (λ x. x ≡ a) l
    → any_b q l ≡ false
    → q a ≡ false
passes_none q a [] here h = absurd here
passes_none q a (x ∷ l) (inl same) h = rw (← same) (ground arith)
passes_none q a (x ∷ l) (inr here) h = passes_none q a l here (ground arith)

selected : (q : Automation → Bool) (l : List Automation) → All (λ x. q x ≡ true) (select q l)
selected q [] = tt
selected q (x ∷ l) = elim (Bool-cases (q x)) [
  | inl e ↦ rw e (e, selected q l)
  | inr e ↦ rw e (selected q l)
]

module _ (e : Engine) (laws : IsDocumented e) (t : Transaction) (alike : AreReadAlike e t) where
  -- Where no older automation claims the transaction, the one that covers it is the first.
  first-is :
      (automations : List Automation) (a : Automation)
      → Any (λ b. b ≡ a) automations
      → IsKey automations a
      → a.active ≡ true
      → gives_category e t a ≡ true
      → claimed e (select (λ other. is_some other.category_id) (wins automations a)) t ≡ false
      → find (gives_category e t) (ordered (select (λ b. b.active) automations)) ≡ some a
  first-is automations a here key active gives free =
      let active_ones = select (λ b. b.active) automations in
      let l = ordered active_ones in
      let p = gives_category e t in
      elim (Option-cases (find p l)) [
        | inl nothing ↦
            let never : any_b (λ b. b.active && p b) automations ≡ false =
              sym (any_b-select p (λ b. b.active) automations)
              ∙ sym (ordered-any_b p active_ones)
              ∙ find-none p l nothing in
            let idle = passes_none (λ b. b.active && p b) a automations here never in
            absurd (ground (arith, idle, active, gives))
        | inr (x, found) ↦
            let unclaimed =
              none_passes (claims e t a) automations
                (sym (claimed-wins e laws t alike automations a) ∙ free) in
            let (((key_x, free_x), active_x), gives_x) =
              find-holds p (λ b. (IsOnly a b × (claims e t a b ≡ false)) × (b.active ≡ true)) l x
                found
                (ordered-All (λ b. (IsOnly a b × (claims e t a b ≡ false)) × (b.active ≡ true))
                  active_ones
                  (zipped (λ b. IsOnly a b × (claims e t a b ≡ false)) (λ b. b.active ≡ true)
                    active_ones
                    (All-select _ (λ b. b.active) automations
                      (zipped (IsOnly a) (λ b. claims e t a b ≡ false) automations key unclaimed))
                    (selected (λ b. b.active) automations))) in
            let older =
              passes_none (λ b. b.active && (p b && made_before b x)) a automations here
                (sym (any_b-select (λ b. p b && made_before b x) (λ b. b.active) automations)
                  ∙ sym (ordered-any_b (λ b. p b && made_before b x) active_ones)
                  ∙ any_b_fails p x l (find-oldest p l x (ordered-InOrder active_ones) found)) in
            found
            ∙ ap some (
                key_x (
                  same_place x a
                    (not_before x.active (made_before x a) (is_some x.category_id)
                      (matching e (looks_of x) t) free_x active_x gives_x)
                    (not_after a.active (p a) (made_before a x) older active gives)))
      ]

  -- A category is taken from one automation as a single statement, or from all as they are loaded.
  same_row :
      (automations : List Automation) (subscriptions : List Subscription) (a : Automation)
      (category : ℕ)
      → All (LooksForText e) automations
      → Any (λ b. b ≡ a) automations
      → IsKey automations a
      → a.active ≡ true
      → a.category_id ≡ some category
      → (if gets_category e (matching e (looks_of a)) (wins automations a) category (λ u. true) t
          then record t { category_id = some category }
          else t)
        ≡ (if matching e (looks_of a) t
              && not (claimed e (select (λ o. is_some o.category_id) (wins automations a)) t)
              && not t.category_chosen
            then record t { category_id = (pick e (load e automations subscriptions) t).0 }
            else t)
  unfolding gets_category
  same_row automations subscriptions a category looks here key active gives =
      let free = claimed e (select (λ o. is_some o.category_id) (wins automations a)) t in
      elim (Bool-cases (matching e (looks_of a) t)) [
        | inr missed ↦ rw (gets_category, missed) refl
        | inl found ↦ elim (Bool-cases free) [
          | inl taken ↦ rw (gets_category, found, taken) refl
          | inr untaken ↦
              let first = first-is automations a here key active (rw (found, gives) refl) untaken in
              let picked : (pick e (load e automations subscriptions) t).0 ≡ some category =
                pick-load-find e laws t alike automations subscriptions looks ∙ rw first gives in
              rw picked (
                already_given (matching e (looks_of a) t) free t.category_chosen
                  (opt_eq t.category_id (some category)) t
                  (record t { category_id = some category })
                  (λ h.
                    ap (λ o. record t { category_id = o })
                      (opt_eq→eq t.category_id (some category) h)))
        ]
      ]

-- Sorting the transactions that are there already with one automation, as one statement
-- (`_give_category`), gives each the category that it would get as it arrives, when every active
-- automation is loaded (`RuleBook`): where the automation covers it, no older one that gives a
-- category claims it and nobody chose its category. The rest stay as they are. It holds where the
-- automation is an active one of the table, under its own id, each looks for some text, Python and
-- the database read the payees and the descriptions of the transactions alike (letter case and
-- whitespace), and `LIKE`, `re.escape` and searches for a group are as documented.
pub give_category-pick :
    (e : Engine) (automations : List Automation) (subscriptions : List Subscription)
    (a : Automation) (category : ℕ) (rows : List Transaction)
    → IsDocumented e
    → All (LooksForText e) automations
    → Any (λ b. b ≡ a) automations
    → IsKey automations a
    → a.active ≡ true
    → a.category_id ≡ some category
    → All (AreReadAlike e) rows
    → (give_category e
        (matching e (looks_of a))
        (wins automations a)
        category
        (λ t. true)
        rows).rows
      ≡ map
          (λ t.
            if matching e (looks_of a) t
              && not (claimed e (select (λ o. is_some o.category_id) (wins automations a)) t)
              && not t.category_chosen
            then record t { category_id = (pick e (load e automations subscriptions) t).0 }
            else t)
          rows
unfolding give_category update_where
give_category-pick e automations subscriptions a category [] laws looks here key active gives
      alike =
    refl
give_category-pick e automations subscriptions a category (t ∷ rows) laws looks here key active
      gives alike =
    cons_eq
      (same_row e laws t alike.0 automations subscriptions a category looks here key active gives)
      (give_category-pick e automations subscriptions a category rows laws looks here key active
        gives alike.1)
