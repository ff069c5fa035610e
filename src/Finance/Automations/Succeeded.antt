-- ===== src/Finance/Automations/Succeeded.antt =====
-- What a sorting leaves that does not raise.
use mathlib.Core.Path.{subst}
use cashcove.Base.{
  ℕ, true, false, Option, none, some, List, ◌==◌, find, ◌≡◌, refl, ap, Bool-cases, Option-cases,
  inl, inr, opt_eq,
}
use cashcove.Finance.Store.{Transaction, Subscription}
use cashcove.Finance.Subscriptions.{Outcome, ok, raises, stuck, advance_due_date}
use cashcove.Finance.Subscriptions.Advance.{OnlyDue, advance_due_date-OnlyDue}
use cashcove.Finance.Recurring.{stored}
use cashcove.Finance.Automations.{Engine}
use cashcove.Finance.Automations.RuleBook.{
  RuleBook, Sorted, advance_row, link_to, categorize_as, sorting, sort,
}
use cashcove.Finance.Automations.Sorting.{
  given, opt_eq→eq, opt_eq_refl, Links, advanced-Links, linked-Sorts, Sorts,
}

-- Linking that succeeds, whatever the due dates.
sorted_inj : {a b : Sorted} → Outcome.ok a ≡ ok b → a ≡ b
sorted_inj h = cc

advanced-Linked :
    (id : ℕ) (t : Transaction) (subscriptions : List Subscription) (s : Subscription)
    (o : Outcome Subscription) (r : Sorted)
    → find (λ r. r.id == id) subscriptions ≡ some s
    → opt_eq t.subscription_id (some id) ≡ false
    → OnlyDue s o
    → (elim (elim o as (λ o. Outcome (List Subscription)) [
      | ok s' ↦ ok (stored s' subscriptions)
      | raises ↦ raises
      | stuck ↦ stuck
    ])
        as (λ o. Outcome Sorted) [
          | ok after ↦ ok (record {
            changed = true;
            transaction = record t { subscription_id = some id };
            subscriptions = after;
          })
          | raises ↦ raises
          | stuck ↦ stuck
        ])
      ≡ ok r
    → Links (some id) t subscriptions (ok r)
advanced-Linked id t subscriptions s (ok s') r found new due h =
    subst (λ q. Links (some id) t subscriptions (ok q)) (sorted_inj h)
      (advanced-Links id t subscriptions s (ok s') found new due (λ e. cc e))
advanced-Linked id t subscriptions s raises r found new due h = cc h
advanced-Linked id t subscriptions s stuck r found new due h = cc h

link_to-Linked :
    (subscription : Option ℕ) (t : Transaction) (subscriptions : List Subscription) (r : Sorted)
    → link_to subscription t subscriptions ≡ ok r
    → Links subscription t subscriptions (ok r)
unfolding link_to advance_row
link_to-Linked none t subscriptions r h =
    subst (λ q. Links none t subscriptions (ok q)) (sorted_inj h)
      (unfold Links in (refl, rw (opt_eq_refl t.subscription_id) refl, λ i. refl))
link_to-Linked (some id) t subscriptions r h =
    elim (Bool-cases (opt_eq t.subscription_id (some id))) [
      | inl already ↦
          let same : t.subscription_id ≡ some id = opt_eq→eq t.subscription_id (some id) already in
          subst (λ q. Links (some id) t subscriptions (ok q)) (sorted_inj (rw already at h))
            (unfold Links in (ap (λ o. given t t.category_id o) same, rw already refl, λ i. refl))
      | inr new ↦ elim (Option-cases (find (λ s. s.id == id) subscriptions)) [
        | inl gone ↦
            subst (λ q. Links (some id) t subscriptions (ok q)) (sorted_inj (rw (new, gone) at h))
              (unfold Links in (refl, rw new refl, λ i. refl))
        | inr (s, found) ↦
            advanced-Linked id t subscriptions s (advance_due_date s t.on) r found new
              (advance_due_date-OnlyDue s t.on) (rw (new, found) at h)
      ]
    ]

linked-Sorted :
    (e : Engine) (book : RuleBook) (t : Transaction) (subscriptions : List Subscription)
    (o : Outcome Sorted) (r : Sorted)
    → ((q : Sorted)
        → o ≡ ok q
        → Links (sorting e book subscriptions t).subscription t subscriptions (ok q))
    → (elim o as (λ o. Outcome Sorted) [
      | ok q ↦ ok (categorize_as (sorting e book subscriptions t).category_id false q)
      | raises ↦ raises
      | stuck ↦ stuck
    ])
      ≡ ok r
    → Sorts e book false t subscriptions (ok r)
linked-Sorted e book t subscriptions (ok q) r links h =
    subst (λ p. Sorts e book false t subscriptions (ok p)) (sorted_inj h)
      (linked-Sorts e book false t subscriptions (ok q) (links q refl))
linked-Sorted e book t subscriptions raises r links h = cc h
linked-Sorted e book t subscriptions stuck r links h = cc h

-- Sorting that succeeds leaves what the rules give, whatever the due dates are.
pub sort-Sorted :
    (e : Engine) (book : RuleBook) (t : Transaction) (subscriptions : List Subscription)
    (r : Sorted)
    → sort e book false t subscriptions ≡ ok r
    → Sorts e book false t subscriptions (ok r)
unfolding sort
sort-Sorted e book t subscriptions r h =
    linked-Sorted e book t subscriptions
      (link_to (sorting e book subscriptions t).subscription t subscriptions) r
      (link_to-Linked (sorting e book subscriptions t).subscription t subscriptions) h
