-- ===== src/Finance/Recurring/Change/Resumed.antt =====
-- The date that a recurring payment is picked up again with.
use cashcove.Base.{
  ℕ, ◌≤◌, ◌<◌, ◌≡◌, refl, sym, ◌∙◌, ap, inl, inr, true, false, Option, none, some, List, [], ◌∷◌,
  ◌==◌, All, Any, find, Bool-cases, arith, pos,
}
use cashcove.Base.Text.{Text}
use cashcove.Calendar.{Date, ordinal, date_leb}
use cashcove.Calendar.Months.{IsValid}
use cashcove.Finance.Store.{RecurringKind, PaymentFrequency, Subscription, Account, Db}
use cashcove.Finance.Subscriptions.{
  Outcome, raises, stuck, add_months, due_after, until_end, dates_from, due_dates, is_stopped,
}
use cashcove.Finance.Subscriptions.Coming.{IsRising}
use cashcove.Finance.Subscriptions.Due.{ListsDue, dates_from-ListsDue, dates_from-past}
use cashcove.Finance.Recurring.{
  ok, fails, index_error, ◌>>=◌, >>=-eq-ok, unless, found_or, ok-carry, or_else, find_recurring,
  first_due, next_due,
}
use cashcove.Finance.Recurring.Change.{reactivate_recurring}

-- The first date of the schedule that is not before today.
abbrev pub IsNextDue : Date → PaymentFrequency → Date → Date → Type 0
IsNextDue due frequency today day =
    ((c : ℕ) × (due_after due frequency c ≡ some day))
    × (ordinal today ≤ ordinal day)
    × ((j : ℕ) (other : Date)
        → due_after due frequency j ≡ some other
        → ordinal today ≤ ordinal other
        → ordinal day ≤ ordinal other)

head-le :
    (day other : Date) (rest : List Date)
    → IsRising (day ∷ rest)
    → Any (λ d. d ≡ other) (day ∷ rest)
    → ordinal day ≤ ordinal other
head-le day other rest (lower, rising) (inl e) = omega (arith, ap ordinal e)
head-le day other rest (lower, rising) (inr later) = below rest lower later
  where
    below :
        (rest : List Date)
        → All (λ e. ordinal day < ordinal e) rest
        → Any (λ d. d ≡ other) rest
        → ordinal day ≤ ordinal other
    below [] h k = absurd k
    below (d ∷ rest) h (inl e) = omega (arith, h.0, ap ordinal e)
    below (d ∷ rest) h (inr k) = below rest h.1 k

first_listed :
    (due : Date) (frequency : PaymentFrequency) (today last day : Date) (o : Outcome (List Date))
    → ListsDue due frequency today last o
    → first_due o ≡ ok day
    → IsNextDue due frequency today day
first_listed due frequency today last day (Outcome.ok []) h e = cc
first_listed due frequency today last day (Outcome.ok (d ∷ rest))
      (((c, at, ge, le), sound), complete, rising) e =
    ok-carry (IsNextDue due frequency today) e (
      (c, at),
      ge,
      λ j other at' ge'. elim (Bool-cases (date_leb other last)) [
        | inl within ↦ head-le d other rest rising (complete j other at' ge' (ground arith))
        | inr past ↦ ground arith
      ],
    )
first_listed due frequency today last day raises h e = cc
first_listed due frequency today last day stuck h e = cc

IsNextDue-until :
    (s : Subscription) (today last day : Date) (o : Option Date)
    → IsValid s.next_due_date
    → first_due
        (elim o [ none ↦ raises | some last' ↦ dates_from s.next_due_date s.frequency today last' ])
      ≡ ok day
    → IsNextDue s.next_due_date s.frequency today day
IsNextDue-until s today last day none v e = cc
IsNextDue-until s today last day (some last') v e =
    first_listed s.next_due_date s.frequency today last' day _
      (dates_from-ListsDue s.next_due_date s.frequency today last' v) e

next_due-IsNextDue :
    (s : Subscription) (today day : Date)
    → IsValid s.next_due_date
    → next_due s none today ≡ ok day
    → IsNextDue s.next_due_date s.frequency today day
unfolding next_due due_dates
next_due-IsNextDue s today day v h =
    let (last, _, h1) = >>=-eq-ok _ _ h in
    IsNextDue-until s today last day (until_end last s.ends_on) v h1

module _ (normalized matched : Text → Text) where
  -- Picking up what was stopped, with no date given, leaves it active, with no end and not
  -- cancelled, and due on the first date of its old schedule that is not before today.
  pub reactivate_recurring-next :
      (db db' : Db) (kind : RecurringKind) (id : ℕ) (today : Option Date) (now : Date)
      (s s' : Subscription)
      → find_recurring db kind id ≡ ok s
      → IsValid s.next_due_date
      → reactivate_recurring normalized matched db kind id none today now ≡ ok (s', db')
      → (s'.active ≡ true)
        × ((day : Date) → is_stopped s' day ≡ false)
        × IsNextDue s.next_due_date s.frequency (or_else today now) s'.next_due_date
  unfolding reactivate_recurring is_stopped
  reactivate_recurring-next db db' kind id today now s s' found v h =
      let (row, found', h1) = >>=-eq-ok _ _ h in
      let (_, _, h2) = >>=-eq-ok _ _ h1 in
      let (_, _, h3) = >>=-eq-ok _ _ h2 in
      let (_, _, h4) = >>=-eq-ok _ _ h3 in
      let (day, due, h5) = >>=-eq-ok _ _ h4 in
      let picked : Subscription = record row {
        cancelled_on = none;
        ends_on = none;
        active = true;
      } in
      ok-carry
        (λ (r : Subscription).
          IsValid r.next_due_date
          → (s'.active ≡ true)
            × ((day : Date) → is_stopped s' day ≡ false)
            × IsNextDue r.next_due_date r.frequency (or_else today now) s'.next_due_date)
        (sym found' ∙ found)
        (λ v'.
          ok-carry
            (λ r.
              (r.0.active ≡ true)
              × ((day : Date) → is_stopped r.0 day ≡ false)
              × IsNextDue row.next_due_date row.frequency (or_else today now) r.0.next_due_date)
            h5 (refl, (λ d. refl), next_due-IsNextDue picked (or_else today now) day v' due))
        v

  -- What was stopped and is next due more than 13 months from today cannot be picked up without a
  -- date: the list whose first day is taken is empty, which raises `IndexError`.
  pub reactivate_recurring-index_error :
      (db : Db) (kind : RecurringKind) (id : ℕ) (today : Date) (now last : Date) (s : Subscription)
      (account : Account)
      → find_recurring db kind id ≡ ok s
      → IsValid s.next_due_date
      → is_stopped s today ≡ true
      → find (λ a. a.id == s.account_id) db.accounts ≡ some account
      → account.is_closed ≡ false
      → add_months today (pos 13) ≡ some last
      → ordinal today ≤ ordinal last
      → ordinal last < ordinal s.next_due_date
      → reactivate_recurring normalized matched db kind id none (some today) now ≡ fails index_error
  unfolding reactivate_recurring ◌>>=◌ unless found_or next_due due_dates until_end
  reactivate_recurring-index_error db kind id today now last s account found v stopped at is_open
        year later far =
      let picked : Subscription = record s { cancelled_on = none; ends_on = none; active = true } in
      let empty : due_dates picked today last ≡ Outcome.ok [] =
        dates_from-past s.next_due_date s.frequency today last v later far in
      rw (found, stopped, at, is_open, year, ◌>>=◌, found_or, empty) refl
