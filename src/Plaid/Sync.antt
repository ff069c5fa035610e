-- ===== src/Plaid/Sync.antt =====
-- The state of a sync (`claim`, `_history`, `_finish` and `release` of backend/app/plaid/sync.py).
-- A connection's past syncs are listed the latest first, by when they started and then by id.
pub mod Lease
mod Examples
use cashcove.Base.{
  ℕ, zero, suc, ◌+◌, ◌*◌, Bool, true, false, ◌||◌, ◌&&◌, Option, none, some, List, [], ◌∷◌, ltb,
  leb, ◌==◌, if◌then◌else◌, is_none,
}
use cashcove.Plaid.Connection.{
  ConnectionStatus, healthy, HistoryStatus, pending, recent, complete, SyncTrigger, Code,
  other_code, Message, own, PlaidError, diagnose, Connection, minute,
}

abbrev pub lease : ℕ
lease = 10 * minute

abbrev pub kept_syncs : ℕ
kept_syncs = 20

-- `sync_started_at < now - LEASE` is written without the subtraction.
abbrev is_free : ℕ → Option ℕ → Bool
is_free now none = true
is_free now (some started) = ltb (started + lease) now

-- Whether the row was changed, and the row.
pub claim : Connection → ℕ → Bool × Connection
claim c now =
    if is_free now c.sync_started_at
    then (true, record c { sync_started_at = some now })
    else (false, c)

pub release : Connection → Connection
release c = record c { sync_started_at = none }

-- The answers in `_HISTORY`, and any other.
pub data HistoryReply : Type 0 where
  not_ready initial_update_complete historical_update_complete unknown : HistoryReply

pub known : HistoryReply → Option HistoryStatus
known not_ready = some pending
known initial_update_complete = some recent
known historical_update_complete = some complete
known unknown = none

-- `_HISTORY_ORDER.index`
pub order : HistoryStatus → ℕ
order pending = 0
order recent = 1
order complete = 2

least : HistoryStatus → List HistoryReply → HistoryStatus
least best [] = best
least best (reply ∷ replies) = elim (known reply) [
  | none ↦ least best replies
  | some status ↦
      if ltb (order status) (order best) then least status replies else least best replies
]

-- `_history`
pub history : List HistoryReply → HistoryStatus → HistoryStatus
unfolding known least
history [] current = current
history (reply ∷ replies) current = elim (known reply) [
  | none ↦ history replies current
  | some status ↦ least status replies
]

pub record Counts : Type 0 where
  pub added : ℕ
  pub updated : ℕ
  pub removed : ℕ

pub record ConnectionSync : Type 0 where
  pub id : ℕ
  pub trigger : SyncTrigger
  pub started_at : ℕ
  pub finished_at : ℕ
  pub succeeded : Bool
  pub counts : Counts
  pub error_code : Option Code
  pub error_message : Option Message

-- Whether the first comes before the second in the list.
abbrev is_later : ConnectionSync → ConnectionSync → Bool
is_later a b = ltb b.started_at a.started_at || (a.started_at == b.started_at && ltb a.id b.id)

insert_sync : ConnectionSync → List ConnectionSync → List ConnectionSync
insert_sync s [] = s ∷ []
insert_sync s (t ∷ rest) =
    let below = insert_sync s rest in if is_later s t then s ∷ t ∷ rest else t ∷ below

keep : ℕ → List ConnectionSync → List ConnectionSync
keep zero syncs = []
keep (suc n) [] = []
keep (suc n) (s ∷ syncs) = s ∷ keep n syncs

-- `code[:64]` and `message[:500]`, which the listed ones are shorter than; `cut` cuts a text to a
-- number of characters.
abbrev cut_code : (ℕ → ℕ → ℕ) → Code → Code
cut_code cut (other_code text) = other_code (cut 64 text)
cut_code cut code = code

abbrev cut_message : (ℕ → ℕ → ℕ) → Message → Message
cut_message cut (own text) = own (cut 500 text)
cut_message cut message = message

abbrev pub attempted : (ℕ → ℕ → ℕ) → Connection → Option PlaidError → ℕ → Connection
attempted cut c none now = record c {
  last_attempt_at = some now;
  sync_started_at = none;
  status = healthy;
  error_code = none;
  error_message = none;
  last_synced_at = some now;
}
attempted cut c (some e) now = record c {
  last_attempt_at = some now;
  sync_started_at = none;
  status = (diagnose e).0;
  error_code = some (cut_code cut e.code);
  error_message = some (cut_message cut (diagnose e).1);
}

-- `_finish`; `id` is drawn for the new row.
pub finish :
    (ℕ → ℕ → ℕ)
    → Connection
    → List ConnectionSync
    → ℕ
    → SyncTrigger
    → ℕ
    → Counts
    → Option PlaidError
    → ℕ
    → Connection × List ConnectionSync
unfolding insert_sync keep
finish cut c syncs id trigger started counts e now =
    let after = attempted cut c e now in
    (
      after,
      keep kept_syncs (
          insert_sync
            (record {
              id = id;
              trigger = trigger;
              started_at = started;
              finished_at = now;
              succeeded = is_none e;
              counts = counts;
              error_code = after.error_code;
              error_message = after.error_message;
            })
            syncs),
    )
