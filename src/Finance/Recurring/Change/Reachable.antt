-- ===== src/Finance/Recurring/Change/Reachable.antt =====
-- The operations on recurring payments as steps of the tables, and what holds in every table that
-- they lead to.
use cashcove.Base.{
  ℕ, ◌≡◌, ap, ◌∙◌, inl, inr, true, false, not, Option, none, some, List, [], ◌∷◌, ◌==◌, All, find,
  Bool-cases, arith,
}
use cashcove.Base.Text.{Text}
use cashcove.Calendar.{Date}
use cashcove.Finance.Store.{RecurringKind, Subscription, Db}
use cashcove.Finance.Recurring.{
  ok, ◌>>=◌, >>=-eq-ok, unless, found_or, found_or-eq-ok, Create, Changes, not_found, kind_eq,
  find_recurring, cancel_recurring,
}
use cashcove.Finance.Recurring.Change.{
  tracks, create_recurring, change_recurring, reactivate_recurring,
}
use cashcove.Finance.Recurring.Change.Tracked.{apart, FromOthers}

pub find_recurring-found :
    (db : Db) (kind : RecurringKind) (id : ℕ) (s : Subscription)
    → find_recurring db kind id ≡ ok s
    → find (λ t. t.id == id) db.subscriptions ≡ some s
unfolding find_recurring
find_recurring-found db kind id s h =
    let (row, a, b) =
      >>=-eq-ok (found_or (find (λ t. t.id == id) db.subscriptions) not_found)
        (λ r. unless (not (kind_eq r.kind kind)) not_found >>= λ u. ok r) h in
    let (u, c, d) = >>=-eq-ok (unless (not (kind_eq row.kind kind)) not_found) (λ u. ok row) b in
    let same : row ≡ s = cc d in found_or-eq-ok _ not_found row a ∙ ap some same

module _ (normalized matched : Text → Text) where
  -- One request that succeeds. A new row has an id that no row has.
  pub data Step : Db → Db → Type 0 where
    created :
        {db db' : Db} (kind : RecurringKind) (body : Create) (id : ℕ) (s : Subscription)
        → All (λ t. (t.id == id) ≡ false) db.subscriptions
        → create_recurring normalized matched db kind body id ≡ ok (s, db')
        → Step db db'
    changed :
        {db db' : Db} (kind : RecurringKind) (id : ℕ) (changes : Changes) (s : Subscription)
        → change_recurring normalized matched db kind id changes ≡ ok (s, db')
        → Step db db'
    cancelled :
        {db db' : Db} (kind : RecurringKind) (id : ℕ) (cancelled_on ends_on : Option Date)
        (now : Date) (s : Subscription)
        → cancel_recurring db kind id cancelled_on ends_on now ≡ ok (s, db')
        → Step db db'
    reactivated :
        {db db' : Db} (kind : RecurringKind) (id : ℕ) (next_due_date today : Option Date)
        (now : Date) (s : Subscription)
        → reactivate_recurring normalized matched db kind id next_due_date today now ≡ ok (s, db')
        → Step db db'

  pub data Reaches (start : Db) : Db → Type 0 where
    here : Reaches start start
    next : {db db' : Db} → Reaches start db → Step db db' → Reaches start db'

  module _ (agree : (t : Text) → matched t ≡ normalized t) where
    pub untracked-apart :
        (rows : List Subscription) (s : Subscription)
        → All (λ t. tracks normalized matched s.account_id s.payee none t ≡ false) rows
        → All (λ t. (t.id == s.id) ≡ false) rows
        → All (λ t. apart normalized t s ≡ true) rows
    unfolding tracks
    untracked-apart [] s h k = tt
    untracked-apart (t ∷ rows) s h k =
        (ground (arith, agree t.payee), untracked-apart rows s h.1 k.1)

    pub untracked-FromOthers :
        (rows : List Subscription) (s : Subscription)
        → All (λ t. tracks normalized matched s.account_id s.payee (some s.id) t ≡ false) rows
        → All (FromOthers normalized s) rows
    unfolding tracks
    untracked-FromOthers [] s h = tt
    untracked-FromOthers (t ∷ rows) s h = (
      elim (Bool-cases (t.id == s.id)) [
        | inl e ↦ inl e
        | inr e ↦ inr (ground (arith, agree t.payee))
      ],
      untracked-FromOthers rows s h.1,
    )
