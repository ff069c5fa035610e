-- ===== src/Finance/Automations/Sorting.antt =====
-- What sorting a transaction changes, and that sorting it again changes nothing.
use cashcove.Base.{
  or_false, or_true, All, ◌≢◌, ℕ, ◌≡◌, refl, ap, sym, ◌∙◌, inl, inr, Bool, true, false, not, ◌||◌,
  Option, none, some, List, [], ◌∷◌, ◌==◌, if◌then◌else◌, Bool-cases, Option-cases, arith, find,
  is_some, opt_eq,
}
use cashcove.Calendar.{Date}
use cashcove.Calendar.Months.{IsValid}
use cashcove.Finance.Store.{Transaction, Subscription}
use cashcove.Finance.Subscriptions.{Outcome, ok, raises, stuck, advance_due_date}
use cashcove.Finance.Subscriptions.Advance.{
  OnlyDue, advance_due_date-OnlyDue, advance_due_date-Settles,
}
use cashcove.Finance.Recurring.Change.Stopped.{find-stored}
use cashcove.Finance.Recurring.{stored}
use cashcove.Finance.Automations.{Engine}
use cashcove.Finance.Automations.RuleBook.{
  RuleBook, Sorted, or_first, category_of, advance_row, link_to, categorize_as, sorting, sort,
}

-- Only the category and the subscription are the rules' to give.
abbrev pub given : Transaction → Option ℕ → Option ℕ → Transaction
given t category_id subscription_id = record t {
  category_id = category_id;
  subscription_id = subscription_id;
}

pub opt_eq→eq : (a b : Option ℕ) → opt_eq a b ≡ true → a ≡ b
opt_eq→eq none none h = refl
opt_eq→eq none (some b) h = cc
opt_eq→eq (some a) none h = cc
opt_eq→eq (some a) (some b) h = ground arith

pub opt_eq_refl : (a : Option ℕ) → opt_eq a a ≡ true
opt_eq_refl none = refl
opt_eq_refl (some a) = ground arith

find-All :
    (p : Subscription → Bool) (P : Subscription → Type 0) (rows : List Subscription)
    (s : Subscription)
    → find p rows ≡ some s
    → All P rows
    → P s
find-All p P [] s h all = cc
find-All p P (r ∷ rows) s h all = elim (Bool-cases (p r)) [
  | inl hit ↦ let same : r ≡ s = cc (rw hit at h) in rw (← same) all.0
  | inr miss ↦ find-All p P rows s (rw miss at h) all.1
]

runs : (s : Subscription) (on : Date) → IsValid s.next_due_date → advance_due_date s on ≢ stuck
runs s on v e = let h = advance_due_date-Settles s on v in rw e at h

find-id :
    (id : ℕ) (rows : List Subscription) (s : Subscription)
    → find (λ r. r.id == id) rows ≡ some s
    → s.id ≡ id
find-id id [] s h = cc
find-id id (r ∷ rows) s h = elim (Bool-cases (r.id == id)) [
  | inl hit ↦ let same : r ≡ s = cc (rw hit at h) in rw (← same) (ground arith)
  | inr miss ↦ find-id id rows s (rw miss at h)
]

find-stored_other :
    (i : ℕ) (t : Subscription) (rows : List Subscription)
    → (t.id == i) ≡ false
    → find (λ r. r.id == i) (stored t rows) ≡ find (λ r. r.id == i) rows
unfolding stored
find-stored_other i t [] h = refl
find-stored_other i t (r ∷ rows) h = elim (Bool-cases (r.id == t.id)) [
  | inl hit ↦
      let other : (r.id == i) ≡ false = ground arith in
      rw (hit, h, other) (find-stored_other i t rows h)
  | inr miss ↦ rw (miss, find-stored_other i t rows h) refl
]

category_of-stored_same :
    (id : ℕ) (rows : List Subscription) (s s' : Subscription)
    → find (λ r. r.id == id) rows ≡ some s
    → s' ≡ record s { next_due_date = s'.next_due_date }
    → category_of (stored s' rows) id ≡ category_of rows id
unfolding category_of
category_of-stored_same id rows s s' found due =
    let kept : s'.id ≡ s.id = ap (λ (u : Subscription). u.id) due in
    rw (category_of, find-stored id s s' rows found kept, found)
      (ap (λ (u : Subscription). u.category_id) due)

category_of-stored :
    (i id : ℕ) (rows : List Subscription) (s s' : Subscription)
    → find (λ r. r.id == id) rows ≡ some s
    → s' ≡ record s { next_due_date = s'.next_due_date }
    → category_of (stored s' rows) i ≡ category_of rows i
unfolding category_of
category_of-stored i id rows s s' found due = elim (Bool-cases (s'.id == i)) [
  | inr other ↦ rw (category_of, find-stored_other i s' rows other) refl
  | inl hit ↦
      let kept : s'.id ≡ s.id = ap (λ (u : Subscription). u.id) due in
      let same : i ≡ id = let at = find-id id rows s found in ground arith in
      rw same (category_of-stored_same id rows s s' found due)
]

-- What linking leaves.
unfoldable pub Links : Option ℕ → Transaction → List Subscription → Outcome Sorted → Type 0
Links subscription t subscriptions (ok r) =
    (r.transaction ≡ given t t.category_id (or_first subscription t.subscription_id))
    × (r.changed ≡ not (opt_eq t.subscription_id (or_first subscription t.subscription_id)))
    × ((i : ℕ) → category_of r.subscriptions i ≡ category_of subscriptions i)
Links subscription t subscriptions raises =
    (is_some subscription ≡ true) × (opt_eq t.subscription_id subscription ≡ false)
Links subscription t subscriptions stuck = ⊥

pub advanced-Links :
    (id : ℕ) (t : Transaction) (subscriptions : List Subscription) (s : Subscription)
    (o : Outcome Subscription)
    → find (λ r. r.id == id) subscriptions ≡ some s
    → opt_eq t.subscription_id (some id) ≡ false
    → OnlyDue s o
    → o ≢ stuck
    → Links
        (some id)
        t
        subscriptions
        (elim (elim o as (λ o. Outcome (List Subscription)) [
          | ok s' ↦ ok (stored s' subscriptions)
          | raises ↦ raises
          | stuck ↦ stuck
        ]) [
          | ok after ↦ ok (record {
            changed = true;
            transaction = record t { subscription_id = some id };
            subscriptions = after;
          })
          | raises ↦ raises
          | stuck ↦ stuck
        ])
unfolding Links OnlyDue
advanced-Links id t subscriptions s (ok s') found new due runs =
    (refl, rw new refl, λ i. category_of-stored i id subscriptions s s' found due)
advanced-Links id t subscriptions s raises found new due runs = (refl, new)
advanced-Links id t subscriptions s stuck found new due runs = absurd (runs refl)

link_to-Links :
    (subscription : Option ℕ) (t : Transaction) (subscriptions : List Subscription)
    → All (λ (s : Subscription). IsValid s.next_due_date) subscriptions
    → Links subscription t subscriptions (link_to subscription t subscriptions)
unfolding Links link_to advance_row
link_to-Links none t subscriptions valid =
    (refl, rw (opt_eq_refl t.subscription_id) refl, λ i. refl)
link_to-Links (some id) t subscriptions valid =
    elim (Bool-cases (opt_eq t.subscription_id (some id))) [
      | inl already ↦
          let same : t.subscription_id ≡ some id = opt_eq→eq t.subscription_id (some id) already in
          rw already (ap (λ o. given t t.category_id o) same, rw already refl, λ i. refl)
      | inr new ↦ elim (Option-cases (find (λ s. s.id == id) subscriptions)) [
        | inl gone ↦ rw (new, gone) (refl, rw new refl, λ i. refl)
        | inr (s, found) ↦
            rw (new, found)
              (advanced-Links id t subscriptions s (advance_due_date s t.on) found new
                (advance_due_date-OnlyDue s t.on)
                (runs s t.on (
                  find-All _ (λ (r : Subscription). IsValid r.next_due_date) subscriptions s found
                    valid)))
      ]
    ]

categorize_as-given :
    (category_id : Option ℕ) (keep : Bool) (r : Sorted)
    → (((categorize_as category_id keep r).transaction
          ≡ given r.transaction
              (if keep || r.transaction.category_chosen
                then r.transaction.category_id
                else or_first category_id r.transaction.category_id)
              r.transaction.subscription_id)
        × ((categorize_as category_id keep r).subscriptions ≡ r.subscriptions))
      × ((categorize_as category_id keep r).changed ≡ (
          r.changed
          || not (
              opt_eq r.transaction.category_id
                (categorize_as category_id keep r).transaction.category_id)))
unfolding categorize_as
categorize_as-given none keep r = elim (Bool-cases (keep || r.transaction.category_chosen)) [
  | inl kept ↦ rw (kept, opt_eq_refl, or_false) ((refl, refl), refl)
  | inr free ↦ rw (free, opt_eq_refl, or_false) ((refl, refl), refl)
]
categorize_as-given (some c) keep r = elim (Bool-cases (keep || r.transaction.category_chosen)) [
  | inl kept ↦ rw (kept, opt_eq_refl, or_false) ((refl, refl), refl)
  | inr free ↦ elim (Bool-cases (opt_eq r.transaction.category_id (some c))) [
    | inl already ↦
        rw (free, already, opt_eq_refl, or_false)
          (
            (
              ap (λ o. given r.transaction o r.transaction.subscription_id)
                  (opt_eq→eq r.transaction.category_id (some c) already),
              refl,
            ),
            refl,
          )
    | inr new ↦ rw (free, new, new, or_true) ((refl, refl), refl)
  ]
]

-- What sorting leaves: the transaction with what the rules give it, where a category that someone
-- chose or that is to be kept stays, and whether it differs.
unfoldable pub Sorts :
    Engine → RuleBook → Bool → Transaction → List Subscription → Outcome Sorted → Type 0
Sorts e book keep t subscriptions (ok r) =
    (r.transaction
      ≡ given t
          (if keep || t.category_chosen
            then t.category_id
            else or_first (sorting e book subscriptions t).category_id t.category_id)
          (or_first (sorting e book subscriptions t).subscription t.subscription_id))
    × (r.changed ≡ (
        not (opt_eq t.subscription_id r.transaction.subscription_id)
        || not (opt_eq t.category_id r.transaction.category_id)))
    × ((i : ℕ) → category_of r.subscriptions i ≡ category_of subscriptions i)
Sorts e book keep t subscriptions raises =
    (is_some (sorting e book subscriptions t).subscription ≡ true)
    × (opt_eq t.subscription_id (sorting e book subscriptions t).subscription ≡ false)
Sorts e book keep t subscriptions stuck = ⊥

pub linked-Sorts :
    (e : Engine) (book : RuleBook) (keep : Bool) (t : Transaction)
    (subscriptions : List Subscription) (o : Outcome Sorted)
    → Links (sorting e book subscriptions t).subscription t subscriptions o
    → Sorts e book keep t subscriptions (elim o as (λ o. Outcome Sorted) [
      | ok r ↦ ok (categorize_as (sorting e book subscriptions t).category_id keep r)
      | raises ↦ raises
      | stuck ↦ stuck
    ])
unfolding Links Sorts
linked-Sorts e book keep t subscriptions (ok r) (row, changed, kept) =
    let category = (sorting e book subscriptions t).category_id in
    let linked : Sorted = record {
      changed = r.changed;
      transaction =
          given t t.category_id
            (or_first (sorting e book subscriptions t).subscription t.subscription_id);
      subscriptions = r.subscriptions;
    } in
    let same : r ≡ linked =
      ap
        (λ (u : Transaction). record {
          changed = r.changed;
          transaction = u;
          subscriptions = r.subscriptions;
        })
        row in
    let (left, differs) = categorize_as-given category keep linked in
    let link = ap (λ (u : Transaction). u.subscription_id) left.0 in
    rw same (
      left.0,
      differs
          ∙ ap
              (λ c.
                c
                || not (
                    opt_eq t.category_id
                      (categorize_as category keep linked).transaction.category_id))
              (changed ∙ sym (ap (λ o. not (opt_eq t.subscription_id o)) link)),
      λ i. ap (λ subs. category_of subs i) left.1 ∙ kept i,
    )
linked-Sorts e book keep t subscriptions raises h = h
linked-Sorts e book keep t subscriptions stuck h = absurd h

-- A transaction is left with what the rules give it and otherwise as it was: a category that
-- someone chose, or that is to be kept, stays, nothing is ever taken away, and the answer says
-- whether the transaction differs from before. It raises only as it links a payment anew, and
-- always ends, where every subscription's next due date is a real day.
pub sort-Sorts :
    (e : Engine) (book : RuleBook) (keep : Bool) (t : Transaction)
    (subscriptions : List Subscription)
    → All (λ (s : Subscription). IsValid s.next_due_date) subscriptions
    → Sorts e book keep t subscriptions (sort e book keep t subscriptions)
unfolding sort
sort-Sorts e book keep t subscriptions valid =
    linked-Sorts e book keep t subscriptions
      (link_to (sorting e book subscriptions t).subscription t subscriptions)
      (link_to-Links (sorting e book subscriptions t).subscription t subscriptions valid)
