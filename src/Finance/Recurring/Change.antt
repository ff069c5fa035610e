-- ===== src/Finance/Recurring/Change.antt =====
-- The operations on recurring payments that match payees (backend/app/finance/subscriptions.py).
pub mod Tracked
pub mod Reachable
pub mod Once
pub mod Stopped
pub mod Resumed
mod Examples
use cashcove.Base.{
  ℕ, Bool, true, false, not, ◌&&◌, ◌||◌, Option, none, some, List, [], ◌∷◌, ◌++◌, map, ◌==◌,
  if◌then◌else◌, opt_eq, is_some, length, select, find, pos, ltb_ℤ,
}
use cashcove.Base.Text.{Text, text_eq}
use cashcove.Calendar.{Date}
use cashcove.Finance.Store.{Transaction, RecurringKind, Subscription, Db}
use cashcove.Finance.Subscriptions.{is_stopped}
use cashcove.Finance.Recurring.{
  closed_account, duplicate_rule, not_stopped, no_row, Reply, ok, ◌>>=◌, unless, found_or, or_else,
  Create, Changes, find_recurring, open_account, find_category, seed_payee, seeded, new_row,
  set_fields, keep_end, stored, link, next_due,
}

module _ (normalized matched : Text → Text) where
  -- `payee_is`
  pub payee_is : Text → Transaction → Bool
  payee_is payee t = text_eq (matched t.payee) (normalized payee)

  -- The payments that a subscription's account and payee catch.
  pub catches : Subscription → Transaction → Bool
  catches s t = t.account_id == s.account_id && (ltb_ℤ t.amount (pos 0) && payee_is s.payee t)

  pub backfill_subscription : List Transaction → Subscription → ℕ × List Transaction
  backfill_subscription rows s =
      (length (select (catches s) rows), map (λ t. if catches s t then link s t else t) rows)

  pub detach_matching : List Transaction → Subscription → List Transaction
  detach_matching rows s =
      map
        (λ t.
          if opt_eq t.subscription_id (some s.id)
            && (t.account_id == s.account_id && payee_is s.payee t)
          then record t { subscription_id = none }
          else t)
        rows

  -- Whether the row tracks the payee from the account already.
  pub tracks : ℕ → Text → Option ℕ → Subscription → Bool
  tracks account_id payee except s =
      s.account_id == account_id
      && (text_eq (matched s.payee) (normalized payee)
          && elim except [ none ↦ true | some id ↦ not (s.id == id) ])

  pub ensure_untracked : Db → ℕ → Text → Option ℕ → Reply {0} Unit
  ensure_untracked db account_id payee except =
      unless (is_some (find (tracks account_id payee except) db.subscriptions)) duplicate_rule

  -- The new row comes with the id that is drawn for it.
  pub create_recurring : Db → RecurringKind → Create → ℕ → Reply (Subscription × Db)
  create_recurring db kind body id = do
    _ ← open_account db body.account_id
    _ ← find_category db body.category_id
    seed ← seed_payee db body.account_id (or_else body.payee body.name) body.seed_transaction_id
    _ ← ensure_untracked db body.account_id seed.1 none
    let s = new_row kind body id seed.1
    ok (
      s,
      record db {
        subscriptions = db.subscriptions ++ s ∷ [];
        transactions = (backfill_subscription db.transactions s).1;
      },
    )

  -- What a change comes to once its checks are passed: `account_id` and `payee` are the ones to
  -- track from then on.
  pub applied : Db → Subscription → Changes → ℕ → Text → Subscription × Db
  applied db s changes account_id payee =
      let matcher_changed =
        not (account_id == s.account_id) || not (text_eq (normalized payee) (normalized s.payee)) in
      let resumed = or_else changes.active false && not s.active in
      let detached =
        if matcher_changed then detach_matching db.transactions s else db.transactions in
      let set = set_fields s changes in
      let s' =
        if matcher_changed then record set { account_id = account_id; payee = payee } else set in
      let sorted : List Transaction = elim changes.category_id [
        | none ↦ detached
        | some c ↦
            map
              (λ t.
                if opt_eq t.subscription_id (some s.id) then record t { category_id = c } else t)
              detached
      ] in
      (
        s',
        record db {
          subscriptions = stored s' db.subscriptions;
          transactions =
              if s'.active && (matcher_changed || resumed)
              then (backfill_subscription sorted s').1
              else sorted;
        },
      )

  pub change_recurring : Db → RecurringKind → ℕ → Changes → Reply (Subscription × Db)
  change_recurring db kind id changes = do
    s ← find_recurring db kind id
    _ ← keep_end s changes
    seed ←
        seed_payee db (or_else changes.account_id s.account_id) (or_else changes.payee s.payee)
          changes.seed_transaction_id
    _ ← open_account db seed.0
    _ ← elim changes.category_id [ none ↦ ok none | some c ↦ find_category db c ]
    _ ←
        if not (seed.0 == s.account_id) || not (text_eq (normalized seed.1) (normalized s.payee))
        then ensure_untracked db seed.0 seed.1 (some s.id)
        else ok tt
    ok (applied db s (seeded changes seed) seed.0 seed.1)

  pub reactivate_recurring :
      Db → RecurringKind → ℕ → Option Date → Option Date → Date → Reply (Subscription × Db)
  reactivate_recurring db kind id next_due_date today now = do
    s ← find_recurring db kind id
    let day = or_else today now
    _ ← unless (not (is_stopped s day)) not_stopped
    account ← found_or (find (λ a. a.id == s.account_id) db.accounts) no_row
    _ ← unless account.is_closed closed_account
    let picked = record s { cancelled_on = none; ends_on = none; active = true }
    next ← next_due picked next_due_date day
    let s' = record picked { next_due_date = next }
    ok (
      s',
      record db {
        subscriptions = stored s' db.subscriptions;
        transactions =
            if not s.active then (backfill_subscription db.transactions s').1 else db.transactions;
      },
    )
