-- ===== src/Finance/Automations/Again.antt =====
-- Sorting a transaction that has been sorted.
use cashcove.Base.{
  All, ℕ, ◌≡◌, refl, inl, inr, Bool, false, ◌||◌, Option, none, some, List, [], ◌∷◌, if◌then◌else◌,
  Bool-cases,
}
use cashcove.Calendar.Months.{IsValid}
use cashcove.Finance.Store.{Transaction, Subscription}
use cashcove.Finance.Subscriptions.{Outcome, ok, raises, stuck}
use cashcove.Finance.Automations.{Engine, Rule, covers}
use cashcove.Finance.Automations.RuleBook.{
  pick_from, pick, RuleBook, Sorted, or_first, category_of, link_to, categorize_as, pick_from, pick,
  sorting, sort,
}
use cashcove.Finance.Automations.Sorting.{given, opt_eq_refl, Sorts, sort-Sorts}

pick_from-given :
    (e : Engine) (book : List Rule) (t : Transaction) (c s category_id subscription : Option ℕ)
    → pick_from e book (given t c s) category_id subscription
      ≡ pick_from e book t category_id subscription
unfolding pick_from covers
pick_from-given e [] t c s category_id subscription = refl
pick_from-given e (rule ∷ rules) t c s category_id subscription = pick_from-given e rules t c s _ _

pick-given :
    (e : Engine) (book : RuleBook) (t : Transaction) (c s : Option ℕ)
    → pick e book (given t c s) ≡ pick e book t
unfolding pick
pick-given e book t c s = rw (pick_from-given e book.rules t c s none none) refl

pub given_category-kept :
    (subscriptions after : List Subscription) (o : Option ℕ)
    → ((i : ℕ) → category_of after i ≡ category_of subscriptions i)
    → elim o as (λ o. Option ℕ) [ none ↦ none | some id ↦ category_of after id ]
      ≡ elim o [ none ↦ none | some id ↦ category_of subscriptions id ]
given_category-kept subscriptions after none kept = refl
given_category-kept subscriptions after (some id) kept = kept id

-- What the rules give depends neither on what a transaction has nor on when subscriptions are due.
sorting-given :
    (e : Engine) (book : RuleBook) (t : Transaction) (c s : Option ℕ)
    (subscriptions after : List Subscription)
    → ((i : ℕ) → category_of after i ≡ category_of subscriptions i)
    → sorting e book after (given t c s) ≡ sorting e book subscriptions t
unfolding sorting
sorting-given e book t c s subscriptions after kept =
    rw
      (
        sorting,
        pick-given e book t c s,
        given_category-kept subscriptions after (pick e book t).1 kept,
      )
      refl

link_to_again :
    (subscription c : Option ℕ) (t : Transaction) (subscriptions : List Subscription)
    → link_to subscription (given t c (or_first subscription t.subscription_id)) subscriptions
      ≡ ok (record {
        changed = false;
        transaction = given t c (or_first subscription t.subscription_id);
        subscriptions = subscriptions;
      })
unfolding link_to
link_to_again none c t subscriptions = refl
link_to_again (some id) c t subscriptions = rw (opt_eq_refl (some id)) refl

categorize_as_again :
    (category s : Option ℕ) (keep : Bool) (t : Transaction) (subscriptions : List Subscription)
    → categorize_as category keep (record {
      changed = false;
      transaction =
          given t
            (if keep || t.category_chosen then t.category_id else or_first category t.category_id)
            s;
      subscriptions = subscriptions;
    })
      ≡ record {
        changed = false;
        transaction =
            given t
              (if keep || t.category_chosen then t.category_id else or_first category t.category_id)
              s;
        subscriptions = subscriptions;
      }
unfolding categorize_as
categorize_as_again none s keep t subscriptions = refl
categorize_as_again (some category) s keep t subscriptions =
    elim (Bool-cases (keep || t.category_chosen)) [
      | inl kept ↦ rw kept refl
      | inr free ↦ rw (free, opt_eq_refl (some category)) refl
    ]

sort_again :
    (e : Engine) (book : RuleBook) (keep : Bool) (t u : Transaction)
    (subscriptions after : List Subscription)
    → u
      ≡ given t
          (if keep || t.category_chosen
            then t.category_id
            else or_first (sorting e book subscriptions t).category_id t.category_id)
          (or_first (sorting e book subscriptions t).subscription t.subscription_id)
    → ((i : ℕ) → category_of after i ≡ category_of subscriptions i)
    → sort e book keep u after
      ≡ ok (record { changed = false; transaction = u; subscriptions = after })
unfolding sort
sort_again e book keep t u subscriptions after row kept =
    let given_t = sorting e book subscriptions t in
    rw
      (
        row,
        sort,
        sorting-given e book t _ _ subscriptions after kept,
        link_to_again given_t.subscription,
        row,
        sorting-given e book t _ _ subscriptions after kept,
        categorize_as_again given_t.category_id _ keep t after,
      )
      refl

again :
    (e : Engine) (book : RuleBook) (keep : Bool) (t : Transaction)
    (subscriptions : List Subscription) (o : Outcome Sorted) (r : Sorted)
    → Sorts e book keep t subscriptions o
    → o ≡ ok r
    → sort e book keep r.transaction r.subscriptions ≡ ok (record r { changed = false })
unfolding Sorts
again e book keep t subscriptions (ok q) r (row, changed, kept) h =
    let same : q ≡ r = cc h in
    rw (← same) (sort_again e book keep t q.transaction subscriptions q.subscriptions row kept)
again e book keep t subscriptions raises r h e' = cc e'
again e book keep t subscriptions stuck r h e' = absurd h

-- Sorting a transaction again, with the same rules, changes nothing more: neither the transaction
-- nor any subscription, and the answer is that nothing changed.
pub sort-sort :
    (e : Engine) (book : RuleBook) (keep : Bool) (t : Transaction)
    (subscriptions : List Subscription) (r : Sorted)
    → All (λ (s : Subscription). IsValid s.next_due_date) subscriptions
    → sort e book keep t subscriptions ≡ ok r
    → sort e book keep r.transaction r.subscriptions ≡ ok (record r { changed = false })
sort-sort e book keep t subscriptions r valid h =
    again e book keep t subscriptions (sort e book keep t subscriptions) r
      (sort-Sorts e book keep t subscriptions valid) h
