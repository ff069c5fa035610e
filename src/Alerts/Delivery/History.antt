-- ===== src/Alerts/Delivery/History.antt =====
-- What the rows of the deliveries tell about the messages that were sent.
use cashcove.Base.{
  ℕ, ◌+◌, ◌≤◌, Bool, true, false, ◌&&◌, Option, none, some, List, [], ◌∷◌, select, any_b, length,
  is_some, ◌≡◌, refl, arith, Bool-cases, inl, inr,
}
use mathlib.Core.Path.{subst}
use cashcove.Alerts.Channels.{ChannelSettings}
use cashcove.Alerts.Delivery.{
  EventKey, event_eq, AlertChannel, channel_eq, AlertDelivery, is_for, saved, Message, Outbox,
  Answer, sent, error, Notice, retry_after, new_delivery, too_soon, answered, is_sent, attempt,
  deliver_row, deliver_channel, deliver_alert, AlertPreferences, is_enabled, discord, email,
}
use cashcove.Alerts.Delivery.Table.{saved-put, saved_self, event_eq→eq, channel_eq→eq}

-- The messages of an event through a channel, the newest first.
unfoldable pub entries : EventKey → AlertChannel → List Message → List Message
entries key channel messages =
    select (λ m. event_eq m.event_key key && channel_eq m.channel channel) messages

abbrev pub newest : List Message → Option ℕ
newest [] = none
newest (m ∷ rest) = some m.at

abbrev pub attempts_of : Option AlertDelivery → ℕ
attempts_of none = 0
attempts_of (some row) = row.attempts

abbrev pub last_of : Option AlertDelivery → Option ℕ
last_of none = none
last_of (some row) = row.last_attempt_at

abbrev pub was_sent : Option AlertDelivery → Bool
was_sent none = false
was_sent (some row) = is_some row.sent_at

abbrev pub IsAfter : Option ℕ → ℕ → Type 0
IsAfter none at = Unit
IsAfter (some last) at = last + retry_after ≤ at

-- Nothing follows a message that was taken, and each other is five minutes after the one before.
abbrev pub AreSpaced : List Message → Type 0
AreSpaced [] = Unit
AreSpaced (m ∷ rest) =
    (any_b (λ (p : Message). p.taken) rest ≡ false) × IsAfter (newest rest) m.at × AreSpaced rest

-- A row, or the lack of one, tells what was sent.
pub record IsHistory (row : Option AlertDelivery) (messages : List Message) : Type 0 where
  pub counted : attempts_of row ≡ length messages
  pub latest : last_of row ≡ newest messages
  pub delivered : was_sent row ≡ any_b (λ (m : Message). m.taken) messages
  pub spaced : AreSpaced messages

abbrev pub IsRecorded : Outbox → Type 0
IsRecorded out =
    (key : EventKey) (channel : AlertChannel)
    → IsHistory (saved out.deliveries key channel) (entries key channel out.messages)

pub new_delivery-IsHistory :
    (notice : Notice) (channel : AlertChannel) (messages : List Message)
    → IsHistory none messages
    → IsHistory (some (new_delivery notice channel)) messages
unfolding new_delivery
new_delivery-IsHistory notice channel messages h = record {
  counted = h.counted;
  latest = h.latest;
  delivered = h.delivered;
  spaced = h.spaced;
}

IsAfter-due : (last : Option ℕ) (now : ℕ) → too_soon last now ≡ false → IsAfter last now
IsAfter-due none now h = tt
IsAfter-due (some last) now h = ground arith

-- An attempt that is due, in the history of its event and channel.
answered-IsHistory :
    (reply : Answer) (row : AlertDelivery) (now : ℕ) (key : EventKey) (channel : AlertChannel)
    (messages : List Message)
    → IsHistory (some row) messages
    → is_some row.sent_at ≡ false
    → too_soon row.last_attempt_at now ≡ false
    → IsHistory
        (some
          (answered reply (record row { attempts = row.attempts + 1; last_attempt_at = some now })))
        (record { event_key = key; channel = channel; at = now; taken = is_sent reply } ∷ messages)
unfolding answered
answered-IsHistory (sent at) row now key channel messages h waits due = record {
  counted = omega (arith, h.counted);
  latest = refl;
  delivered = refl;
  spaced = (cc (h.delivered), rw (← h.latest) (IsAfter-due row.last_attempt_at now due), h.spaced);
}
answered-IsHistory (error name) row now key channel messages h waits due = record {
  counted = omega (arith, h.counted);
  latest = refl;
  delivered = cc (h.delivered);
  spaced = (cc (h.delivered), rw (← h.latest) (IsAfter-due row.last_attempt_at now due), h.spaced);
}

is_for-answered :
    (reply : Answer) (row : AlertDelivery) (key : EventKey) (channel : AlertChannel)
    → is_for key channel (answered reply row) ≡ is_for key channel row
unfolding answered
is_for-answered (sent at) row key channel = refl
is_for-answered (error name) row key channel = refl

entries-same :
    (key key' : EventKey) (channel channel' : AlertChannel) (messages : List Message)
    → (event_eq key key' && channel_eq channel channel') ≡ true
    → entries key channel messages ≡ entries key' channel' messages
entries-same key key' channel channel' messages e =
    ground (arith, event_eq→eq key key', channel_eq→eq channel channel')

module _ (answer : EventKey → AlertChannel → ℕ → Answer) where
  attempt-IsRecorded :
      (row : AlertDelivery) (now : ℕ) (out : Outbox)
      → IsRecorded out
      → IsHistory (some row) (entries row.event_key row.channel out.messages)
      → is_some row.sent_at ≡ false
      → too_soon row.last_attempt_at now ≡ false
      → IsRecorded (attempt answer row now out).1
  unfolding attempt entries
  attempt-IsRecorded row now out h own waits due key channel =
      let reply = answer row.event_key row.channel now in
      let after =
        answered reply (record row { attempts = row.attempts + 1; last_attempt_at = some now }) in
      elim (Bool-cases (event_eq row.event_key key && channel_eq row.channel channel)) [
        | inl e ↦
            rw
              (
                saved-put after out.deliveries key channel,
                is_for-answered reply
                    (record row { attempts = row.attempts + 1; last_attempt_at = some now }) key
                    channel,
                e,
              )
              (answered-IsHistory reply row now row.event_key row.channel
                (entries key channel out.messages)
                (subst (λ l. IsHistory (some row) l)
                  (entries-same row.event_key key row.channel channel out.messages e) own)
                waits due)
        | inr e ↦
            rw
              (
                saved-put after out.deliveries key channel,
                is_for-answered reply
                    (record row { attempts = row.attempts + 1; last_attempt_at = some now }) key
                    channel,
                e,
              )
              (h key channel)
      ]

  deliver_row-IsRecorded :
      (notice : Notice) (channel : AlertChannel) (now : ℕ) (out : Outbox)
      (found : Option AlertDelivery)
      → saved out.deliveries notice.event_key channel ≡ found
      → IsRecorded out
      → IsRecorded (deliver_row answer notice channel now out found).1
  unfolding deliver_row new_delivery
  deliver_row-IsRecorded notice channel now out none e h =
      attempt-IsRecorded (new_delivery notice channel) now out h
        (new_delivery-IsHistory notice channel (entries notice.event_key channel out.messages) (
          subst (λ r. IsHistory r (entries notice.event_key channel out.messages)) e
            (h notice.event_key channel)))
        refl refl
  deliver_row-IsRecorded notice channel now out (some row) e h =
      let own =
        subst (λ r. IsHistory r (entries row.event_key row.channel out.messages))
          (saved_self out.deliveries notice.event_key channel row e)
          (h row.event_key row.channel) in
      elim (Bool-cases (is_some row.sent_at)) [
        | inl s ↦ rw s h
        | inr s ↦ elim (Bool-cases (too_soon row.last_attempt_at now)) [
          | inl t ↦ rw (s, t) h
          | inr t ↦ rw (s, t) (attempt-IsRecorded row now out h own s t)
        ]
      ]

  deliver_channel-IsRecorded :
      (notice : Notice) (channel : AlertChannel) (configured : Bool) (now : ℕ) (out : Outbox)
      → IsRecorded out
      → IsRecorded (deliver_channel answer notice channel configured now out).1
  unfolding deliver_channel
  deliver_channel-IsRecorded notice channel true now out h =
      deliver_row-IsRecorded notice channel now out (saved out.deliveries notice.event_key channel)
        refl h
  deliver_channel-IsRecorded notice channel false now out h = h

  pub deliver_alert-IsRecorded :
      (preferences : AlertPreferences) (channels : ChannelSettings) (notice : Notice) (now : ℕ)
      (out : Outbox)
      → IsRecorded out
      → IsRecorded (deliver_alert answer preferences channels notice now out).1
  unfolding deliver_alert
  deliver_alert-IsRecorded preferences channels notice now out h =
      elim (Bool-cases (is_enabled preferences notice.alert_type)) [
        | inl e ↦ rw e (
            deliver_channel-IsRecorded notice email (is_some channels.smtp) now _
              (deliver_channel-IsRecorded notice discord (is_some channels.discord_url) now out h))
        | inr e ↦ rw e h
      ]
