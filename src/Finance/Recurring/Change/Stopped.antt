-- ===== src/Finance/Recurring/Change/Stopped.antt =====
-- Cancelling, and picking up again what was cancelled or has ended.
use cashcove.Base.{
  ℕ, ◌≡◌, refl, ap, inl, inr, false, not, Option, some, List, [], ◌∷◌, ◌==◌, find, Bool-cases,
  arith,
}
use cashcove.Calendar.{Date}
use cashcove.Finance.Store.{RecurringKind, Subscription, Db}
use cashcove.Finance.Subscriptions.{is_stopped}
use cashcove.Finance.Recurring.{
  ok, fails, already_stopped, ◌>>=◌, >>=-eq-ok, unless, unless-eq-ok, found_or, ok-carry, or_else,
  kind_eq, not_found, find_recurring, stored, cancel_recurring,
}
use cashcove.Finance.Recurring.Change.Reachable.{find_recurring-found}

pub find-stored :
    (id : ℕ) (s t : Subscription) (rows : List Subscription)
    → find (λ r. r.id == id) rows ≡ some s
    → t.id ≡ s.id
    → find (λ r. r.id == id) (stored t rows) ≡ some t
unfolding stored
find-stored id s t [] h e = cc
find-stored id s t (r ∷ rows) h e = elim (Bool-cases (r.id == id)) [
  | inl hit ↦
      let same : r ≡ s = cc (rw hit at h) in
      let i : r.id ≡ t.id = cc (e, ap (λ (u : Subscription). u.id) same) in ground arith
  | inr miss ↦ ground (arith, find-stored id s t rows (rw miss at h) e)
]

find_recurring-kind :
    (db : Db) (kind : RecurringKind) (id : ℕ) (s : Subscription)
    → find_recurring db kind id ≡ ok s
    → not (kind_eq s.kind kind) ≡ false
unfolding find_recurring
find_recurring-kind db kind id s h =
    let (row, a, b) = >>=-eq-ok _ _ h in
    let (u, c, d) = >>=-eq-ok _ _ b in
    ok-carry (λ (r : Subscription). not (kind_eq r.kind kind) ≡ false) d
      (unless-eq-ok _ not_found u c)

-- A row that is written over the one found is found in its place.
find_recurring-stored :
    (db : Db) (kind : RecurringKind) (id : ℕ) (s t : Subscription)
    → find_recurring db kind id ≡ ok s
    → t.id ≡ s.id
    → t.kind ≡ s.kind
    → find_recurring (record db { subscriptions = stored t db.subscriptions }) kind id ≡ ok t
unfolding find_recurring ◌>>=◌ found_or unless
find_recurring-stored db kind id s t h i k =
    rw
      (
        find-stored id s t db.subscriptions (find_recurring-found db kind id s h) i,
        k,
        find_recurring-kind db kind id s h,
      )
      refl

-- What has been cancelled cannot be cancelled again, whatever the dates.
pub cancel_recurring-again :
    (db db' : Db) (kind : RecurringKind) (id : ℕ)
    (cancelled_on ends_on again_on ends_again : Option Date) (now later : Date) (s' : Subscription)
    → cancel_recurring db kind id cancelled_on ends_on now ≡ ok (s', db')
    → cancel_recurring db' kind id again_on ends_again later ≡ fails already_stopped
unfolding cancel_recurring
cancel_recurring-again db db' kind id cancelled_on ends_on again_on ends_again now later s' h =
    let (s, found, h1) = >>=-eq-ok _ _ h in
    let (_, _, h2) = >>=-eq-ok _ _ h1 in
    let c = or_else cancelled_on now in
    let t : Subscription = record s { cancelled_on = some c; ends_on = some (or_else ends_on c) } in
    ok-carry (λ r. cancel_recurring r.1 kind id again_on ends_again later ≡ fails already_stopped)
      h2
      (rw (find_recurring-stored db kind id s t found refl refl)
        (unfold ◌>>=◌ unless is_stopped in refl))
