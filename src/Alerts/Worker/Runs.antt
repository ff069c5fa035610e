-- ===== src/Alerts/Worker/Runs.antt =====
-- The rows of the deliveries and the messages that were sent, over any sequence of the operations
-- that queue and deliver alerts.
use mathlib.Core.Path.{subst, sym}
use cashcove.Base.{
  ℕ, Bool, true, false, ◌&&◌, Option, none, some, List, [], ◌∷◌, if◌then◌else◌, find, is_none,
  is_some, map, ◌==◌, ◌≡◌, refl, arith, Bool-cases, Option-cases, inl, inr,
}
use cashcove.Calendar.{Date}
use cashcove.Finance.Store.{Transaction}
use cashcove.Finance.Ledger.{LedgerAccount}
use cashcove.Alerts.Channels.{ChannelSettings}
use cashcove.Alerts.Delivery.{
  EventKey, AlertChannel, transaction_event, AlertDelivery, is_for, saved, Outbox, Answer, Notice,
  new_delivery, AlertPreferences, email, discord, large_transaction_alert, queue_channel,
  queue_alert, queue_all, enqueue_large_transactions, deliver_large_transaction, retry_one,
  retry_all, pending_transactions, retry_pending_large_transactions,
}
use cashcove.Alerts.Delivery.Table.{is_for-key}
use cashcove.Alerts.Delivery.History.{
  IsHistory, IsRecorded, entries, new_delivery-IsHistory, deliver_alert-IsRecorded,
}
use cashcove.Alerts.Worker.{AlertState, Household, deliver_all, notices_of, run_alert_checks}

-- The rows of a table, with messages that they do not change.
abbrev AreRecorded : List AlertDelivery → Outbox → Type 0
AreRecorded rows out = IsRecorded (record out { deliveries = rows })

saved-new :
    (notice : Notice) (channel : AlertChannel) (rows : List AlertDelivery) (key : EventKey)
    (other : AlertChannel)
    → saved (new_delivery notice channel ∷ rows) key other ≡ (
        if is_for key other (new_delivery notice channel)
        then some (new_delivery notice channel)
        else saved rows key other)
unfolding saved
saved-new notice channel rows key other = refl

is_none→eq : (o : Option AlertDelivery) → is_none o ≡ true → o ≡ none
is_none→eq none h = refl
is_none→eq (some row) h = cc

new-AreRecorded :
    (notice : Notice) (channel : AlertChannel) (rows : List AlertDelivery) (out : Outbox)
    → is_none (saved rows notice.event_key channel) ≡ true
    → AreRecorded rows out
    → AreRecorded (new_delivery notice channel ∷ rows) out
new-AreRecorded notice channel rows out free h key other =
    rw (saved-new notice channel rows key other)
      (elim (Bool-cases (is_for key other (new_delivery notice channel))) [
        | inr e ↦ rw e (h key other)
        | inl e ↦
            let same = is_for-key (new_delivery notice channel) key other e in
            rw e (
              new_delivery-IsHistory notice channel (entries key other out.messages) (
                subst (λ r. IsHistory r (entries key other out.messages))
                  (is_none→eq (saved rows key other)
                    (was_free notice channel rows key other same free))
                  (h key other)))
      ])
  where
    was_free :
        (notice : Notice) (channel : AlertChannel) (rows : List AlertDelivery) (key : EventKey)
        (other : AlertChannel)
        → ((new_delivery notice channel).event_key ≡ key)
          × ((new_delivery notice channel).channel ≡ other)
        → is_none (saved rows notice.event_key channel) ≡ true
        → is_none (saved rows key other) ≡ true
    was_free notice channel rows key other same free =
        unfold new_delivery in cc (same.0, same.1, free)

queue_channel-AreRecorded :
    (notice : Notice) (channel : AlertChannel) (configured : Bool) (state : ℕ × List AlertDelivery)
    (out : Outbox)
    → AreRecorded state.1 out
    → AreRecorded (queue_channel notice channel configured state).1 out
unfolding queue_channel
queue_channel-AreRecorded notice channel configured (queued, rows) out h key other =
    elim (Bool-cases (configured && is_none (saved rows notice.event_key channel))) [
      | inr e ↦ rw e (h key other)
      | inl e ↦ rw e (new-AreRecorded notice channel rows out (ground arith) h key other)
    ]

queue_alert-AreRecorded :
    (channels : ChannelSettings) (alert : Option Notice) (state : ℕ × List AlertDelivery)
    (out : Outbox)
    → AreRecorded state.1 out
    → AreRecorded (queue_alert channels alert state).1 out
unfolding queue_alert
queue_alert-AreRecorded channels none state out h = h
queue_alert-AreRecorded channels (some notice) state out h =
    queue_channel-AreRecorded notice email (is_some channels.smtp) _ out
      (queue_channel-AreRecorded notice discord (is_some channels.discord_url) state out h)

queue_all-AreRecorded :
    (p : AlertPreferences) (channels : ChannelSettings) (accounts : List ℕ)
    (transactions : List Transaction) (state : ℕ × List AlertDelivery) (out : Outbox)
    → AreRecorded state.1 out
    → AreRecorded (queue_all p channels accounts transactions state).1 out
unfolding queue_all
queue_all-AreRecorded p channels accounts [] state out h = h
queue_all-AreRecorded p channels accounts (t ∷ transactions) state out h =
    queue_all-AreRecorded p channels accounts transactions
      (queue_alert channels (large_transaction_alert p accounts t) state) out
      (queue_alert-AreRecorded channels (large_transaction_alert p accounts t) state out h)

either-IsRecorded :
    (b : Bool) (x y : ℕ × Outbox)
    → IsRecorded x.1
    → IsRecorded y.1
    → IsRecorded (if b then x else y).1
either-IsRecorded true x y h k = h
either-IsRecorded false x y h k = k

enqueue-IsRecorded :
    (p : AlertPreferences) (channels : ChannelSettings) (accounts : List ℕ)
    (transactions : List Transaction) (out : Outbox)
    → IsRecorded out
    → IsRecorded (enqueue_large_transactions p channels accounts transactions out).1
unfolding enqueue_large_transactions
enqueue-IsRecorded p channels accounts transactions out h =
    either-IsRecorded p.large_transaction_enabled _ (0, out)
      (queue_all-AreRecorded p channels accounts transactions (0, out.deliveries) out h) h

none-ne-some {ℓ} : {A : Type ℓ} {a : A} → none ≡ some a → ⊥
none-ne-some e = cc

some_inj {ℓ} : {A : Type ℓ} {a b : A} → some a ≡ some b → a ≡ b
some_inj e = cc

module _ (answer : EventKey → AlertChannel → ℕ → Answer) where
  deliver_large-IsRecorded :
      (p : AlertPreferences) (channels : ChannelSettings) (accounts : List ℕ)
      (transactions : List Transaction) (t : Transaction) (now : ℕ) (out : Outbox)
      → IsRecorded out
      → IsRecorded (deliver_large_transaction answer p channels accounts transactions t now out).1
  unfolding deliver_large_transaction
  deliver_large-IsRecorded p channels accounts transactions t now out h =
      elim (Option-cases (large_transaction_alert p accounts t)) [
        | inl a ↦ rw (a, deliver_large_transaction) h
        | inr (notice, a) ↦
            rw (a, deliver_large_transaction)
              (deliver_alert-IsRecorded answer p channels notice now out h)
      ]

  retry_one-IsRecorded :
      (p : AlertPreferences) (channels : ChannelSettings) (accounts : List ℕ)
      (transactions : List Transaction) (id now : ℕ) (out : Outbox)
      → IsRecorded out
      → IsRecorded (retry_one answer p channels accounts transactions id now out)
  unfolding retry_one
  retry_one-IsRecorded p channels accounts transactions id now out h =
      elim (Option-cases (find (λ (t : Transaction). t.id == id) transactions)) [
        | inl e ↦ rw (e, retry_one) h
        | inr (t, e) ↦
            rw (e, retry_one)
              (deliver_large-IsRecorded p channels accounts transactions t now out h)
      ]

  retry_all-IsRecorded :
      (p : AlertPreferences) (channels : ChannelSettings) (accounts : List ℕ)
      (transactions : List Transaction) (ids : List ℕ) (now : ℕ → ℕ) (out : Outbox)
      → IsRecorded out
      → IsRecorded (retry_all answer p channels accounts transactions ids now out)
  unfolding retry_all
  retry_all-IsRecorded p channels accounts transactions [] now out h = h
  retry_all-IsRecorded p channels accounts transactions (id ∷ ids) now out h =
      retry_all-IsRecorded p channels accounts transactions ids now
        (retry_one answer p channels accounts transactions id (now id) out)
        (retry_one-IsRecorded p channels accounts transactions id (now id) out h)

  deliver_all-IsRecorded :
      (p : AlertPreferences) (channels : ChannelSettings) (notices : List Notice)
      (now : EventKey → ℕ) (out : Outbox)
      → IsRecorded out
      → IsRecorded (deliver_all answer p channels notices now out).1
  unfolding deliver_all
  deliver_all-IsRecorded p channels [] now out h = h
  deliver_all-IsRecorded p channels (notice ∷ notices) now out h =
      deliver_all-IsRecorded p channels notices now _
        (deliver_alert-IsRecorded answer p channels notice (now notice.event_key) out h)

  run_alert_checks-IsRecorded :
      (h : Household) (today : Date) (now : EventKey → ℕ) (states : List AlertState) (out : Outbox)
      (result : ℕ × List AlertState × Outbox)
      → run_alert_checks answer h today now states out ≡ some result
      → IsRecorded out
      → IsRecorded result.2
  unfolding run_alert_checks retry_pending_large_transactions
  run_alert_checks-IsRecorded h today now states out result ran kept =
      elim (Option-cases (notices_of answer h today states)) [
        | inl e ↦ absurd (none-ne-some (rw (e, run_alert_checks) at ran))
        | inr ((notices, after), e) ↦
            let sent = deliver_all answer h.preferences h.channels notices now out in
            subst (λ (r : ℕ × List AlertState × Outbox). IsRecorded r.2)
              (some_inj (rw (e, run_alert_checks) at ran))
              (retry_all-IsRecorded h.preferences h.channels
                (map (λ (a : LedgerAccount). a.id) h.accounts) h.transactions
                (pending_transactions sent.1.deliveries) (λ id. now (transaction_event id)) sent.1
                (deliver_all-IsRecorded h.preferences h.channels notices now out kept))
      ]

-- The outboxes that queueing and runs lead to, at any times and with any data.
pub data Reaches (answer : EventKey → AlertChannel → ℕ → Answer) : Outbox → Type 0 where
  starts : {out : Outbox} → out ≡ record { deliveries = []; messages = [] } → Reaches answer out
  queues :
      {out out' : Outbox} (p : AlertPreferences) (channels : ChannelSettings) (accounts : List ℕ)
      (transactions : List Transaction) (queued : ℕ)
      → Reaches answer out
      → enqueue_large_transactions p channels accounts transactions out ≡ (queued, out')
      → Reaches answer out'
  runs :
      {out out' : Outbox} (h : Household) (today : Date) (now : EventKey → ℕ)
      (states after : List AlertState) (delivered : ℕ)
      → Reaches answer out
      → run_alert_checks answer h today now states out ≡ some (delivered, after, out')
      → Reaches answer out'

empty-IsHistory : (out : Outbox) → out ≡ record { deliveries = []; messages = [] } → IsRecorded out
unfolding saved entries
empty-IsHistory out e =
    subst (λ (o : Outbox). IsRecorded o) (sym e)
      (λ key channel. record { counted = refl; latest = refl; delivered = refl; spaced = tt })

-- However often alerts are queued and checked, and whatever the channels answer: the row of an
-- event and a channel counts the messages sent for it, has the time of the last one and is marked
-- as sent exactly if one was taken; there is no message after one that was taken, and between the
-- recorded times of two are at least five minutes.
pub Reaches-IsHistory :
    (answer : EventKey → AlertChannel → ℕ → Answer) {out : Outbox}
    → Reaches answer out
    → (key : EventKey) (channel : AlertChannel)
    → IsHistory (saved out.deliveries key channel) (entries key channel out.messages)
Reaches-IsHistory answer (starts {out} e) key channel = empty-IsHistory out e key channel
Reaches-IsHistory answer (queues {out} p channels accounts transactions queued before e) key
      channel =
    subst (λ (r : ℕ × Outbox). IsRecorded r.1) e
      (enqueue-IsRecorded p channels accounts transactions out (Reaches-IsHistory answer before))
      key channel
Reaches-IsHistory answer (runs {out} {out'} h today now states after delivered before e) key
      channel =
    run_alert_checks-IsRecorded answer h today now states out (delivered, after, out') e
      (Reaches-IsHistory answer before) key channel
