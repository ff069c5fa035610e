-- ===== src/Alerts/Worker.antt =====
-- The checks that raise alerts (backend/app/alerts/worker.py). `AlertState` is only used for low
-- balances, so its key is the id of the account. The budgets are those that `list_budgets` gives, with
-- the figures of their current period; `today` is the day of `now`.
pub mod Runs
pub mod Episodes
use cashcove.Base.{
  ℕ, suc, ◌+◌, ◌*◌, Bool, true, false, not, ◌&&◌, ◌||◌, Option, none, some, List, [], ◌∷◌, ◌++◌,
  map, ◌==◌, if◌then◌else◌, is_none, find, select, any_b, ℤ, pos, negsuc, neg_ℤ, ltb_ℤ, leb_ℤ,
}
use cashcove.Calendar.{Date, date_leb, date_ltb, add_days}
use cashcove.Finance.Store.{Transaction, Subscription, RecurringKind, subscription, bill}
use cashcove.Finance.Ledger.{LedgerAccount}
use cashcove.Plaid.Connection.{Connection, ConnectionStatus}
use cashcove.Alerts.Channels.{ChannelSettings}
use cashcove.Alerts.Delivery.{
  subscription_due, bill_due, low_balance, budget_threshold, sync_failure, EventKey, AlertChannel,
  balance_event, subscription_event, bill_event, budget_event, sync_event, transaction_event,
  AlertPreferences, Outbox, Answer, Notice, deliver_alert, retry_pending_large_transactions,
}

pub record AlertState : Type 0 where
  pub account_id : ℕ
  pub active : Bool
  pub episode : ℕ

unfoldable pub state_of : List AlertState → ℕ → Option AlertState
state_of states id = find (λ s. s.account_id == id) states

unfoldable pub put_state : AlertState → List AlertState → List AlertState
put_state state [] = state ∷ []
put_state state (s ∷ states) =
    if s.account_id == state.account_id then state ∷ states else s ∷ put_state state states

-- The state of an account, new if it has none.
unfoldable pub state_or_new : Option AlertState → ℕ → AlertState
state_or_new none id = record { account_id = id; active = false; episode = 0 }
state_or_new (some state) id = state

unfoldable pub is_low : ℤ → Bool → LedgerAccount → Bool
is_low threshold enabled account =
    enabled && (is_none account.closed_at && ltb_ℤ account.balance threshold)

-- The state after an account was looked at.
unfoldable pub crossed : Bool → AlertState → AlertState
crossed low state =
    if not low
    then record state { active = false }
    else if state.active
    then state
    else record state { active = true; episode = state.episode + 1 }

unfoldable pub low_notice : AlertState → Notice
low_notice state = record {
  alert_type = low_balance;
  event_key = balance_event state.account_id state.episode;
  subject_id = none;
}

-- The states of accounts that are gone.
unfoldable pub retired : List LedgerAccount → AlertState → AlertState
retired accounts state =
    if any_b (λ a. a.id == state.account_id) accounts
    then state
    else record state { active = false }

-- The loop over the accounts: the notices and the states.
unfoldable pub look_at :
    ℤ → Bool → List LedgerAccount → List AlertState → List Notice × List AlertState
look_at threshold enabled [] states = ([], states)
look_at threshold enabled (account ∷ accounts) states =
    let low = is_low threshold enabled account in
    let state = crossed low (state_or_new (state_of states account.id) account.id) in
    let rest = look_at threshold enabled accounts (put_state state states) in
    (if low then low_notice state ∷ rest.0 else rest.0, rest.1)

unfoldable pub low_balance_notices :
    List LedgerAccount → ℤ → Bool → List AlertState → List Notice × List AlertState
low_balance_notices accounts threshold enabled states =
    look_at threshold enabled accounts (map (retired accounts) states)

unfoldable pub is_kind : RecurringKind → RecurringKind → Bool
is_kind subscription subscription = true
is_kind bill bill = true
is_kind _ _ = false

-- `ends_on` is none or later than the day.
abbrev pub goes_on : Option Date → Date → Bool
goes_on none day = true
goes_on (some end) day = date_ltb day end

-- A payment to remind of.
unfoldable pub is_due : RecurringKind → Date → Date → Subscription → Bool
is_due kind today latest payment =
    is_kind payment.kind kind
    && (payment.active
        && (date_leb today payment.next_due_date
            && (date_leb payment.next_due_date latest
                && goes_on payment.ends_on payment.next_due_date)))

due_notice : RecurringKind → Subscription → Notice
due_notice subscription payment = record {
  alert_type = subscription_due;
  event_key = subscription_event payment.id payment.next_due_date;
  subject_id = none;
}
due_notice bill payment = record {
  alert_type = bill_due;
  event_key = bill_event payment.id payment.next_due_date;
  subject_id = none;
}

-- One round of the loop over the kinds. Past the last day of the calendar Python raises: `none`.
unfoldable pub due_notices :
    RecurringKind → Bool → ℕ → Date → List Subscription → Option (List Notice)
unfolding due_notice
due_notices kind enabled days today payments =
    if not enabled then some [] else elim (add_days today (pos days)) [
      | none ↦ none
      | some latest ↦ some (map (due_notice kind) (select (is_due kind today latest) payments))
    ]

unfoldable pub recurring_notices :
    Date → AlertPreferences → List Subscription → Option (List Notice)
recurring_notices today p payments =
    elim (due_notices subscription p.subscription_due_enabled p.subscription_due_days_before today
      payments) [
        | none ↦ none
        | some first ↦
            elim (due_notices bill p.bill_due_enabled p.bill_due_days_before today payments) [
              | none ↦ none
              | some second ↦ some (first ++ second)
            ]
      ]

-- A budget with its current period.
pub record CurrentBudget : Type 0 where
  pub id : ℕ
  pub start : Date
  pub amount : ℤ
  pub spent : ℤ

times : ℤ → ℕ → ℤ
times (pos a) n = pos (a * n)
times (negsuc a) n = neg_ℤ (pos (suc a * n))

unfoldable pub is_past_threshold : ℕ → CurrentBudget → Bool
unfolding times
is_past_threshold percent budget =
    not
      (leb_ℤ budget.amount (pos 0) || ltb_ℤ (times budget.spent 100) (times budget.amount percent))

budget_notice : CurrentBudget → Notice
budget_notice budget = record {
  alert_type = budget_threshold;
  event_key = budget_event budget.id budget.start;
  subject_id = none;
}

unfoldable pub budget_notices : AlertPreferences → List CurrentBudget → List Notice
unfolding budget_notice
budget_notices p budgets =
    if not p.budget_threshold_enabled
    then []
    else map budget_notice (select (is_past_threshold p.budget_threshold_percent) budgets)

abbrev pub is_healthy : ConnectionStatus → Bool
is_healthy ConnectionStatus.healthy = true
is_healthy ConnectionStatus.login_required = false
is_healthy ConnectionStatus.error = false

-- A connection has its id beside it.
sync_notice : ℕ × Connection → Notice
sync_notice (id, connection) = record {
  alert_type = sync_failure;
  event_key = sync_event id connection.last_attempt_at;
  subject_id = none;
}

unfoldable pub sync_notices : List (ℕ × Connection) → List Notice
unfolding sync_notice
sync_notices connections = map sync_notice (select (λ c. not (is_healthy c.1.status)) connections)

-- What a run reads.
pub record Household : Type 0 where
  pub preferences : AlertPreferences
  pub channels : ChannelSettings
  pub accounts : List LedgerAccount
  pub subscriptions : List Subscription
  pub budgets : List CurrentBudget
  pub connections : List (ℕ × Connection)
  pub transactions : List Transaction

module _ (answer : EventKey → AlertChannel → ℕ → Answer) where
  -- The loop that delivers the notices, each at the moment `now` of its event.
  unfoldable pub deliver_all :
      AlertPreferences → ChannelSettings → List Notice → (EventKey → ℕ) → Outbox → ℕ × Outbox
  deliver_all preferences channels [] now out = (0, out)
  deliver_all preferences channels (notice ∷ notices) now out =
      let first = deliver_alert answer preferences channels notice (now notice.event_key) out in
      let rest = deliver_all preferences channels notices now first.1 in
      (if first.0 then rest.0 + 1 else rest.0, rest.1)

  -- The notices of a run, in order.
  unfoldable pub notices_of :
      Household → Date → List AlertState → Option (List Notice × List AlertState)
  notices_of h today states =
      let p = h.preferences in
      let low =
        low_balance_notices h.accounts p.low_balance_threshold p.low_balance_enabled states in
      elim (recurring_notices today p h.subscriptions) [
        | none ↦ none
        | some due ↦ some (
          low.0
              ++ (due
                  ++ (budget_notices p h.budgets
                      ++ (if p.sync_failure_enabled then sync_notices h.connections else []))),
          low.1,
        )
      ]

  unfoldable pub run_alert_checks :
      Household
      → Date
      → (EventKey → ℕ)
      → List AlertState
      → Outbox
      → Option (ℕ × List AlertState × Outbox)
  run_alert_checks h today now states out = elim (notices_of h today states) [
    | none ↦ none
    | some (notices, after) ↦
        let sent = deliver_all h.preferences h.channels notices now out in
        some (
          sent.0,
          after,
          retry_pending_large_transactions answer h.preferences h.channels
              (map (λ (a : LedgerAccount). a.id) h.accounts) h.transactions
              (λ id. now (transaction_event id)) sent.1,
        )
  ]
