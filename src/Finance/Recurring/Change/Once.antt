-- ===== src/Finance/Recurring/Change/Once.antt =====
-- Every request keeps the table of subscriptions free of a payee that is tracked twice.
use cashcove.Base.{
  ℕ, ◌≡◌, refl, ap, inl, inr, true, false, not, ◌||◌, Option, none, some, List, [], ◌∷◌, ◌==◌, All,
  find, if◌then◌else◌, Bool-cases, Option-cases, arith,
}
use cashcove.Base.Text.{Text, text_eq, text_eq→eq}
use cashcove.Calendar.{Date}
use cashcove.Finance.Store.{RecurringKind, Subscription, Db}
use cashcove.Finance.Recurring.{
  duplicate_rule, ok, >>=-eq-ok, unless-eq-ok, ok-carry, or_else, Create, Changes, seeded, new_row,
  seed_payee, set_fields, cancel_recurring,
}
use cashcove.Finance.Recurring.Change.{
  ensure_untracked, create_recurring, applied, change_recurring, reactivate_recurring,
}
use cashcove.Finance.Recurring.Change.Tracked.{
  find-none, IsTrackedOnce, FromOthers, append-IsTrackedOnce, stored-IsTrackedOnce,
  found-FromOthers,
}
use cashcove.Finance.Recurring.Change.Reachable.{
  Step, created, changed, cancelled, reactivated, Reaches, here, next, find_recurring-found,
  untracked-apart, untracked-FromOthers,
}

-- The account and the payee of a seed are those asked for, or are written into the changes.
seed_payee-plain :
    (db : Db) (account_id : ℕ) (payee : Text) (sid : Option ℕ) (seed : ℕ × Text)
    → seed_payee db account_id payee sid ≡ ok seed
    → sid ≡ none
    → (account_id, payee) ≡ seed
unfolding seed_payee
seed_payee-plain db account_id payee none seed h e = cc h
seed_payee-plain db account_id payee (some id) seed h e = cc e

module _ (normalized matched : Text → Text) where
  applied-fields :
      (db : Db) (s : Subscription) (changes : Changes) (seed : ℕ × Text)
      → seed_payee db
          (or_else changes.account_id s.account_id)
          (or_else changes.payee s.payee)
          changes.seed_transaction_id
        ≡ ok seed
      → ((applied normalized matched db s (seeded changes seed) seed.0 seed.1).0.id ≡ s.id)
        × ((applied normalized matched db s (seeded changes seed) seed.0 seed.1).0.account_id
            ≡ seed.0)
        × ((applied normalized matched db s (seeded changes seed) seed.0 seed.1).0.payee ≡ seed.1)
  unfolding applied set_fields
  applied-fields db s changes seed h = elim (Option-cases changes.seed_transaction_id) [
    | inl e ↦
        let same = seed_payee-plain db _ _ _ seed h e in
        rw e (ground (arith, ap (λ p. p.0) same, ap (λ p. p.1) same))
    | inr (sid, e) ↦ rw e (ground arith)
  ]

  module _ (agree : (t : Text) → matched t ≡ normalized t) where
    -- What the row written over an old one must be for the table to stay in order.
    same-FromOthers :
        (s t : Subscription) (rows : List Subscription)
        → t.id ≡ s.id
        → t.account_id ≡ s.account_id
        → normalized t.payee ≡ normalized s.payee
        → All (FromOthers normalized s) rows
        → All (FromOthers normalized t) rows
    same-FromOthers s t [] i a p h = tt
    same-FromOthers s t (u ∷ rows) i a p h = (rw (i, a, p) h.0, same-FromOthers s t rows i a p h.1)

    created-Once :
        (db db' : Db) (kind : RecurringKind) (body : Create) (id : ℕ) (s : Subscription)
        → IsTrackedOnce normalized db.subscriptions
        → All (λ t. (t.id == id) ≡ false) db.subscriptions
        → create_recurring normalized matched db kind body id ≡ ok (s, db')
        → IsTrackedOnce normalized db'.subscriptions
    unfolding create_recurring ensure_untracked new_row
    created-Once db db' kind body id s once fresh h =
        let (a, _, h1) = >>=-eq-ok _ _ h in
        let (c, _, h2) = >>=-eq-ok _ _ h1 in
        let (seed, _, h3) = >>=-eq-ok _ _ h2 in
        let (u, free, h4) = >>=-eq-ok _ _ h3 in
        let test = unless-eq-ok _ _ u free in
        ok-carry (λ r. IsTrackedOnce normalized r.1.subscriptions) h4
          (append-IsTrackedOnce normalized (new_row kind body id seed.1) db.subscriptions once (
            untracked-apart normalized matched agree db.subscriptions (new_row kind body id seed.1)
              (find-none _ db.subscriptions test) fresh))

    -- Of a row that moves to another account or payee, every other row is apart if none of them
    -- tracks those; of one that does not move, because it was before.
    moved-FromOthers :
        (db : Db) (id : ℕ) (s t : Subscription) (seed : ℕ × Text) (u : Unit)
        → IsTrackedOnce normalized db.subscriptions
        → find (λ r. r.id == id) db.subscriptions ≡ some s
        → t.id ≡ s.id
        → t.account_id ≡ seed.0
        → t.payee ≡ seed.1
        → (if not (seed.0 == s.account_id) || not (text_eq (normalized seed.1) (normalized s.payee))
            then ensure_untracked normalized matched db seed.0 seed.1 (some s.id)
            else ok tt)
          ≡ ok u
        → All (FromOthers normalized t) db.subscriptions
    unfolding ensure_untracked
    moved-FromOthers db id s t seed u once found i a p h =
        elim (Bool-cases (
          not (seed.0 == s.account_id) || not (text_eq (normalized seed.1) (normalized s.payee)))) [
            | inl e ↦ untracked-FromOthers normalized matched agree db.subscriptions t (
                rw (i, a, p)
                  (find-none _ db.subscriptions (unless-eq-ok _ duplicate_rule u (rw e at h))))
            | inr e ↦
                same-FromOthers s t db.subscriptions i (ground arith)
                  (rw p (text_eq→eq _ _ (ground arith)))
                  (found-FromOthers normalized id s db.subscriptions once found)
          ]

    changed-Once :
        (db db' : Db) (kind : RecurringKind) (id : ℕ) (changes : Changes) (s' : Subscription)
        → IsTrackedOnce normalized db.subscriptions
        → change_recurring normalized matched db kind id changes ≡ ok (s', db')
        → IsTrackedOnce normalized db'.subscriptions
    unfolding change_recurring
    changed-Once db db' kind id changes s' once h =
        let (s, found, h1) = >>=-eq-ok _ _ h in
        let (_, _, h2) = >>=-eq-ok _ _ h1 in
        let (seed, chosen, h3) = >>=-eq-ok _ _ h2 in
        let (_, _, h4) = >>=-eq-ok _ _ h3 in
        let (_, _, h5) = >>=-eq-ok _ _ h4 in
        let (u, free, h6) = >>=-eq-ok _ _ h5 in
        let same = applied-fields db s changes seed chosen in
        ok-carry (λ r. IsTrackedOnce normalized r.1.subscriptions) h6
          (unfold applied in
            stored-IsTrackedOnce normalized
              (applied normalized matched db s (seeded changes seed) seed.0 seed.1).0
              db.subscriptions once
              (moved-FromOthers db id s
                (applied normalized matched db s (seeded changes seed) seed.0 seed.1).0 seed u once
                (find_recurring-found db kind id s found) same.0 same.1 same.2 free))

    cancelled-Once :
        (db db' : Db) (kind : RecurringKind) (id : ℕ) (cancelled_on ends_on : Option Date)
        (now : Date) (s' : Subscription)
        → IsTrackedOnce normalized db.subscriptions
        → cancel_recurring db kind id cancelled_on ends_on now ≡ ok (s', db')
        → IsTrackedOnce normalized db'.subscriptions
    unfolding cancel_recurring
    cancelled-Once db db' kind id cancelled_on ends_on now s' once h =
        let (s, found, h1) = >>=-eq-ok _ _ h in
        let (_, _, h2) = >>=-eq-ok _ _ h1 in
        let c = or_else cancelled_on now in
        let t : Subscription = record s {
          cancelled_on = some c;
          ends_on = some (or_else ends_on c);
        } in
        ok-carry (λ r. IsTrackedOnce normalized r.1.subscriptions) h2
          (stored-IsTrackedOnce normalized t db.subscriptions once (
            same-FromOthers s t db.subscriptions refl refl refl (
              found-FromOthers normalized id s db.subscriptions once
                (find_recurring-found db kind id s found))))

    reactivated-Once :
        (db db' : Db) (kind : RecurringKind) (id : ℕ) (next_due_date today : Option Date)
        (now : Date) (s' : Subscription)
        → IsTrackedOnce normalized db.subscriptions
        → reactivate_recurring normalized matched db kind id next_due_date today now ≡ ok (s', db')
        → IsTrackedOnce normalized db'.subscriptions
    unfolding reactivate_recurring
    reactivated-Once db db' kind id next_due_date today now s' once h =
        let (s, found, h1) = >>=-eq-ok _ _ h in
        let (_, _, h2) = >>=-eq-ok _ _ h1 in
        let (_, _, h3) = >>=-eq-ok _ _ h2 in
        let (_, _, h4) = >>=-eq-ok _ _ h3 in
        let (day, _, h5) = >>=-eq-ok _ _ h4 in
        let t : Subscription = record s {
          cancelled_on = none;
          ends_on = none;
          active = true;
          next_due_date = day;
        } in
        ok-carry (λ r. IsTrackedOnce normalized r.1.subscriptions) h5
          (stored-IsTrackedOnce normalized t db.subscriptions once (
            same-FromOthers s t db.subscriptions refl refl refl (
              found-FromOthers normalized id s db.subscriptions once
                (find_recurring-found db kind id s found))))

    Step-Once :
        (db db' : Db)
        → IsTrackedOnce normalized db.subscriptions
        → Step normalized matched db db'
        → IsTrackedOnce normalized db'.subscriptions
    Step-Once db db' once (created kind body id s fresh h) =
        created-Once db db' kind body id s once fresh h
    Step-Once db db' once (changed kind id changes s h) =
        changed-Once db db' kind id changes s once h
    Step-Once db db' once (cancelled kind id c e now s h) =
        cancelled-Once db db' kind id c e now s once h
    Step-Once db db' once (reactivated kind id n t now s h) =
        reactivated-Once db db' kind id n t now s once h

    -- From tables in which no two subscriptions or bills track the same payee from the same
    -- account, no series of requests that set up, change, cancel or reactivate them leads to tables
    -- in which two do, where Python and the database read payees alike.
    pub Reaches-IsTrackedOnce :
        (start db : Db)
        → IsTrackedOnce normalized start.subscriptions
        → Reaches normalized matched start db
        → IsTrackedOnce normalized db.subscriptions
    Reaches-IsTrackedOnce start db once here = once
    Reaches-IsTrackedOnce start db once (next before step) =
        Step-Once _ db (Reaches-IsTrackedOnce start _ once before) step
