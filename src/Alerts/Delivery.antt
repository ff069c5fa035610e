-- ===== src/Alerts/Delivery.antt =====
-- Delivering alerts (`_deliver_channel`, `deliver_alert` and the functions about large transactions
-- of backend/app/alerts/service.py, `retry_pending_large_transactions` of worker.py). A moment is a
-- number of microseconds. The key of an event is data in place of the text that the code builds
-- of the same parts; the texts of titles and messages are left out. What becomes of a message that
-- is sent is the parameter `answer`, of the event, the channel and the moment; `messages` logs what
-- was sent, the newest first.

pub mod Table
pub mod History
use cashcove.Base.{
  ℕ, ◌+◌, ◌*◌, Bool, true, false, not, ◌&&◌, ◌||◌, Option, none, some, List, [], ◌∷◌, ◌++◌, ltb,
  leb, ◌==◌, if◌then◌else◌, is_some, is_none, opt_eq, find, select, any_b, ℤ, abs_ℤ,
}
use cashcove.Calendar.{Date}
use cashcove.Finance.Store.{Transaction}
use cashcove.Alerts.Channels.{ChannelSettings}

pub data AlertType : Type 0 where
  subscription_due bill_due low_balance large_transaction budget_threshold sync_failure : AlertType

pub data AlertChannel : Type 0 where
  discord email : AlertChannel

pub data EventKey : Type 0 where
  -- An account and the episode.
  balance_event : ℕ → ℕ → EventKey
  subscription_event : ℕ → Date → EventKey
  bill_event : ℕ → Date → EventKey
  budget_event : ℕ → Date → EventKey
  sync_event : ℕ → Option ℕ → EventKey
  transaction_event : ℕ → EventKey

abbrev pub same_day : Date → Date → Bool
same_day a b = a.year == b.year && (a.month == b.month && a.day == b.day)

unfoldable pub event_eq : EventKey → EventKey → Bool
event_eq (balance_event a n) (balance_event b m) = a == b && n == m
event_eq (subscription_event a n) (subscription_event b m) = a == b && same_day n m
event_eq (bill_event a n) (bill_event b m) = a == b && same_day n m
event_eq (budget_event a n) (budget_event b m) = a == b && same_day n m
event_eq (sync_event a n) (sync_event b m) = a == b && opt_eq n m
event_eq (transaction_event a) (transaction_event b) = a == b
event_eq _ _ = false

unfoldable pub channel_eq : AlertChannel → AlertChannel → Bool
channel_eq discord discord = true
channel_eq email email = true
channel_eq _ _ = false

abbrev pub is_large : AlertType → Bool
is_large large_transaction = true
is_large _ = false

pub record AlertPreferences : Type 0 where
  pub subscription_due_enabled : Bool
  pub subscription_due_days_before : ℕ
  pub bill_due_enabled : Bool
  pub bill_due_days_before : ℕ
  pub low_balance_enabled : Bool
  pub low_balance_threshold : ℤ
  pub large_transaction_enabled : Bool
  pub large_transaction_threshold : ℕ
  pub budget_threshold_enabled : Bool
  pub budget_threshold_percent : ℕ
  pub sync_failure_enabled : Bool

-- `getattr(preferences, ENABLED_PREFERENCE[alert_type])`
unfoldable pub is_enabled : AlertPreferences → AlertType → Bool
is_enabled p subscription_due = p.subscription_due_enabled
is_enabled p bill_due = p.bill_due_enabled
is_enabled p low_balance = p.low_balance_enabled
is_enabled p large_transaction = p.large_transaction_enabled
is_enabled p budget_threshold = p.budget_threshold_enabled
is_enabled p sync_failure = p.sync_failure_enabled

pub record AlertDelivery : Type 0 where
  pub event_key : EventKey
  pub alert_type : AlertType
  pub channel : AlertChannel
  pub subject_id : Option ℕ
  pub attempts : ℕ
  pub last_attempt_at : Option ℕ
  pub sent_at : Option ℕ
  pub last_error : Option ℕ

pub record Message : Type 0 where
  pub event_key : EventKey
  pub channel : AlertChannel
  -- The time of the attempt, as the check that makes it records it.
  pub at : ℕ
  -- Whether the channel took it.
  pub taken : Bool

pub record Outbox : Type 0 where
  pub deliveries : List AlertDelivery
  pub messages : List Message

-- When the message had been sent, or the name of the error.
pub data Answer : Type 0 where
  sent : ℕ → Answer
  error : ℕ → Answer

pub record Notice : Type 0 where
  pub alert_type : AlertType
  pub event_key : EventKey
  pub subject_id : Option ℕ

abbrev pub retry_after : ℕ
retry_after = 5 * 60 * 1_000_000

abbrev pub is_for : EventKey → AlertChannel → AlertDelivery → Bool
is_for key channel row = event_eq row.event_key key && channel_eq row.channel channel

unfoldable pub saved : List AlertDelivery → EventKey → AlertChannel → Option AlertDelivery
saved rows key channel = find (is_for key channel) rows

-- The row written over the one of its event and channel, or added.
unfoldable pub put : AlertDelivery → List AlertDelivery → List AlertDelivery
put row [] = row ∷ []
put row (r ∷ rows) = if is_for row.event_key row.channel r then row ∷ rows else r ∷ put row rows

unfoldable pub new_delivery : Notice → AlertChannel → AlertDelivery
new_delivery notice channel = record {
  event_key = notice.event_key;
  alert_type = notice.alert_type;
  channel = channel;
  subject_id = notice.subject_id;
  attempts = 0;
  last_attempt_at = none;
  sent_at = none;
  last_error = none;
}

-- `now - row.last_attempt_at < RETRY_AFTER`
abbrev pub too_soon : Option ℕ → ℕ → Bool
too_soon none now = false
too_soon (some last) now = ltb now (last + retry_after)

-- The `try` of `_deliver_channel`: the row after the answer.
unfoldable pub answered : Answer → AlertDelivery → AlertDelivery
answered (sent at) row = record row { sent_at = some at; last_error = none }
answered (error name) row = record row { last_error = some name }

abbrev pub is_sent : Answer → Bool
is_sent (sent at) = true
is_sent (error name) = false

module _ (answer : EventKey → AlertChannel → ℕ → Answer) where
  -- One attempt by a row that is due.
  unfoldable pub attempt : AlertDelivery → ℕ → Outbox → Bool × Outbox
  attempt row now out =
      let reply = answer row.event_key row.channel now in
      (
        is_sent reply,
        record {
          deliveries =
              put
                (answered reply
                  (record row { attempts = row.attempts + 1; last_attempt_at = some now }))
                out.deliveries;
          messages =
              (record {
                event_key = row.event_key;
                channel = row.channel;
                at = now;
                taken = is_sent reply;
              })
              ∷ out.messages;
        },
      )

  -- What is done with the row of the event and the channel.
  unfoldable pub deliver_row :
      Notice → AlertChannel → ℕ → Outbox → Option AlertDelivery → Bool × Outbox
  deliver_row notice channel now out none = attempt (new_delivery notice channel) now out
  deliver_row notice channel now out (some row) =
      if is_some row.sent_at
      then (true, out)
      else if too_soon row.last_attempt_at now
      then (false, out)
      else attempt row now out

  -- `_deliver_channel`
  unfoldable pub deliver_channel : Notice → AlertChannel → Bool → ℕ → Outbox → Bool × Outbox
  deliver_channel notice channel configured now out =
      if configured
      then deliver_row notice channel now out (saved out.deliveries notice.event_key channel)
      else (false, out)

  unfoldable pub deliver_alert :
      AlertPreferences → ChannelSettings → Notice → ℕ → Outbox → Bool × Outbox
  deliver_alert preferences channels notice now out =
      let first = deliver_channel notice discord (is_some channels.discord_url) now out in
      let second = deliver_channel notice email (is_some channels.smtp) now first.1 in
      if is_enabled preferences notice.alert_type
      then (first.0 || second.0, second.1)
      else (false, out)

-- `_large_transaction_alert`; `accounts` are the ids of the accounts.
unfoldable pub large_transaction_alert : AlertPreferences → List ℕ → Transaction → Option Notice
large_transaction_alert preferences accounts t =
    if not preferences.large_transaction_enabled
      || leb (abs_ℤ t.amount) preferences.large_transaction_threshold
      || not (any_b (λ id. id == t.account_id) accounts)
    then none
    else some (record {
      alert_type = large_transaction;
      event_key = transaction_event t.id;
      subject_id = some t.id;
    })

-- Queues an alert for a channel: how many were added, and the rows.
unfoldable pub queue_channel :
    Notice → AlertChannel → Bool → ℕ × List AlertDelivery → ℕ × List AlertDelivery
queue_channel notice channel configured (queued, rows) =
    if configured && is_none (saved rows notice.event_key channel)
    then (queued + 1, new_delivery notice channel ∷ rows)
    else (queued, rows)

unfoldable pub queue_alert :
    ChannelSettings → Option Notice → ℕ × List AlertDelivery → ℕ × List AlertDelivery
queue_alert channels none state = state
queue_alert channels (some notice) state =
    queue_channel notice email (is_some channels.smtp)
      (queue_channel notice discord (is_some channels.discord_url) state)

-- The loop over the transactions.
unfoldable pub queue_all :
    AlertPreferences
    → ChannelSettings
    → List ℕ
    → List Transaction
    → ℕ × List AlertDelivery
    → ℕ × List AlertDelivery
queue_all preferences channels accounts [] state = state
queue_all preferences channels accounts (t ∷ transactions) state =
    queue_all preferences channels accounts transactions
      (queue_alert channels (large_transaction_alert preferences accounts t) state)

unfoldable pub enqueue_large_transactions :
    AlertPreferences → ChannelSettings → List ℕ → List Transaction → Outbox → ℕ × Outbox
enqueue_large_transactions preferences channels accounts transactions out =
    let result = queue_all preferences channels accounts transactions (0, out.deliveries) in
    if preferences.large_transaction_enabled
    then (result.0, record out { deliveries = result.1 })
    else (0, out)

-- The ids of the transactions with an alert that waits, each once.
distinct : List ℕ → List ℕ
distinct [] = []
distinct (x ∷ xs) = x ∷ select (λ y. not (y == x)) (distinct xs)

subjects : List AlertDelivery → List ℕ
subjects [] = []
subjects (row ∷ rows) = elim row.subject_id [ none ↦ subjects rows | some id ↦ id ∷ subjects rows ]

unfoldable pub pending_transactions : List AlertDelivery → List ℕ
unfolding distinct subjects
pending_transactions rows =
    distinct (subjects (select (λ row. is_large row.alert_type && is_none row.sent_at) rows))

module _ (answer : EventKey → AlertChannel → ℕ → Answer) (preferences : AlertPreferences)
    (channels : ChannelSettings) (accounts : List ℕ) (transactions : List Transaction) where
  unfoldable pub deliver_large_transaction : Transaction → ℕ → Outbox → Bool × Outbox
  deliver_large_transaction t now out = elim (large_transaction_alert preferences accounts t) [
    | none ↦ (false, out)
    | some notice ↦ deliver_alert answer preferences channels notice now out
  ]

  -- `db.get(Transaction, id)`, then its alert if it is still there.
  unfoldable pub retry_one : ℕ → ℕ → Outbox → Outbox
  retry_one id now out = elim (find (λ (t : Transaction). t.id == id) transactions) [
    | none ↦ out
    | some t ↦ (deliver_large_transaction t now out).1
  ]

  -- The loop of `retry_pending_large_transactions`; a delivery of the event is at `now` of its id.
  unfoldable pub retry_all : List ℕ → (ℕ → ℕ) → Outbox → Outbox
  retry_all [] now out = out
  retry_all (id ∷ ids) now out = retry_all ids now (retry_one id (now id) out)

  unfoldable pub retry_pending_large_transactions : (ℕ → ℕ) → Outbox → Outbox
  retry_pending_large_transactions now out = retry_all (pending_transactions out.deliveries) now out
