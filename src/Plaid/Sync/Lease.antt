-- ===== src/Plaid/Sync/Lease.antt =====
-- One sync of a connection at a time, when the next one is, and how far its history has come.
use cashcove.Base.{
  ℕ, ◌+◌, ◌≤◌, ◌<◌, ◌≡◌, refl, ap, ◌↔◌, inl, inr, ◌⊎◌, Bool, true, false, Option, none, some, List,
  [], ◌∷◌, All, Any, ltb, Bool-cases, Option-cases, arith,
}
use cashcove.Plaid.Connection.{
  HistoryStatus, SyncTrigger, Code, Message, PlaidError, diagnose, login_message, is_unavailable,
  Connection, SyncPreferences, import_interval, next_sync, bank_data_unavailable,
}
use cashcove.Plaid.Sync.{
  lease, claim, release, HistoryReply, known, order, least, history, Counts, ConnectionSync, finish,
}

-- After a claim that succeeds, another one succeeds just when more than ten minutes have passed, and
-- one that fails changes nothing; once the first is released, another one succeeds at any time.
pub claim-claim-lease :
    (c : Connection) (now later : ℕ)
    → (claim c now).0 ≡ true
    → (((claim (claim c now).1 later).0 ≡ true) ↔ (now + lease < later))
      × (later ≤ now + lease → (claim (claim c now).1 later).1 ≡ (claim c now).1)
      × ((claim (release (claim c now).1) later).0 ≡ true)
unfolding claim release
claim-claim-lease c now later h = ground arith

login_is_available :
    (code : Code) (m : Message) → login_message code ≡ some m → is_unavailable code ≡ false
unfolding login_message is_unavailable
login_is_available bank_data_unavailable m h = cc h
login_is_available _ m h = refl

-- A sync that fails with an error which only the person who signs in to the bank can fix stops the
-- schedule for that connection, whatever the preferences and however much time passes.
pub next_sync-finish :
    (cut : ℕ → ℕ → ℕ) (c : Connection) (syncs : List ConnectionSync) (id : ℕ)
    (trigger : SyncTrigger) (started : ℕ) (counts : Counts) (e : PlaidError) (m : Message)
    (now later : ℕ) (preferences : SyncPreferences) (has_accounts : Bool)
    → login_message e.code ≡ some m
    → next_sync
        (finish cut c syncs id trigger started counts (some e) now).0
        preferences
        has_accounts
        later
      ≡ none
unfolding next_sync finish diagnose
next_sync-finish cut c syncs id trigger started counts e m now later preferences has_accounts h =
    rw (h, login_is_available e.code m h) (ground arith)

-- However a sync ends, the schedule leaves at least two minutes before the connection's next one.
pub finish-next_sync :
    (cut : ℕ → ℕ → ℕ) (c : Connection) (syncs : List ConnectionSync) (id : ℕ)
    (trigger next_trigger : SyncTrigger) (started : ℕ) (counts : Counts) (e : Option PlaidError)
    (now later at : ℕ) (preferences : SyncPreferences) (has_accounts : Bool)
    → 1 ≤ preferences.interval_hours
    → next_sync
        (finish cut c syncs id trigger started counts e now).0
        preferences
        has_accounts
        later
      ≡ some (at, next_trigger)
    → now + import_interval ≤ at
unfolding next_sync finish
finish-next_sync cut c syncs id trigger next_trigger started counts none now later at preferences
      has_accounts h k =
    ground arith
finish-next_sync cut c syncs id trigger next_trigger started counts (some e) now later at
      preferences has_accounts h k =
    ground arith

-- At most as complete as the reply says, where it says anything.
abbrev pub IsAtMost : HistoryStatus → HistoryReply → Type 0
IsAtMost h reply = (status : HistoryStatus) → known reply ≡ some status → order h ≤ order status

-- One of a status and of what the replies say, and at most as complete as each of them.
IsLeast : HistoryStatus → List HistoryReply → HistoryStatus → Type 0
IsLeast best replies h =
    ((h ≡ best) ⊎ Any (λ r. known r ≡ some h) replies)
    × (order h ≤ order best)
    × All (IsAtMost h) replies

passed :
    (best h : HistoryStatus) (r : HistoryReply) (replies : List HistoryReply)
    → IsAtMost best r
    → IsLeast best replies h
    → IsLeast best (r ∷ replies) h
unfolding IsLeast
passed best h r replies a (from, low, all) = (
  elim from [ inl same ↦ inl same | inr later ↦ inr (inr later) ],
  low,
  ((λ status k. omega (arith, a status k, low)), all),
)

taken :
    (best status h : HistoryStatus) (r : HistoryReply) (replies : List HistoryReply)
    → known r ≡ some status
    → order status < order best
    → IsLeast status replies h
    → IsLeast best (r ∷ replies) h
unfolding IsLeast
taken best status h r replies e lt (from, low, all) = (
  inr (elim from [ inl same ↦ inl (cc (e, same)) | inr later ↦ inr later ]),
  omega (arith, low, lt),
  ((λ other k. let same : other ≡ status = cc (e, k) in omega (arith, low, ap order same)), all),
)

least-IsLeast :
    (best : HistoryStatus) (replies : List HistoryReply) → IsLeast best replies (least best replies)
unfolding least
least-IsLeast best [] = unfold IsLeast in (inl refl, omega arith, tt)
least-IsLeast best (r ∷ replies) = elim (Option-cases (known r)) [
  | inl e ↦
      rw (least, e)
        (passed best (least best replies) r replies (λ status k. cc (e, k))
          (least-IsLeast best replies))
  | inr (status, e) ↦ elim (Bool-cases (ltb (order status) (order best))) [
    | inl lt ↦
        rw (least, e, lt)
          (taken best status (least status replies) r replies e (ground arith)
            (least-IsLeast status replies))
    | inr ge ↦
        rw (least, e, ge)
          (passed best (least best replies) r replies
            (λ other k.
              let same : other ≡ status = cc (e, k) in
              omega (arith, le_of (order status) (order best) ge, ap order same))
            (least-IsLeast best replies))
  ]
]
  where
    le_of : (a b : ℕ) → ltb a b ≡ false → b ≤ a
    le_of a b h = ground arith

-- What one account's reply says, or the status as it was where no reply says anything; and no
-- account's reply says less.
pub IsHistory : List HistoryReply → HistoryStatus → HistoryStatus → Type 0
IsHistory replies current h =
    (Any (λ r. known r ≡ some h) replies ⊎ (All (λ r. known r ≡ none) replies × (h ≡ current)))
    × All (IsAtMost h) replies

none_said :
    (r : HistoryReply) (replies : List HistoryReply) (current h : HistoryStatus)
    → known r ≡ none
    → IsHistory replies current h
    → IsHistory (r ∷ replies) current h
unfolding IsHistory
none_said r replies current h e (from, all) = (
  elim from [ inl said ↦ inl (inr said) | inr (none_of, same) ↦ inr ((e, none_of), same) ],
  ((λ status k. cc (e, k)), all),
)

some_said :
    (r : HistoryReply) (replies : List HistoryReply) (current status h : HistoryStatus)
    → known r ≡ some status
    → IsLeast status replies h
    → IsHistory (r ∷ replies) current h
unfolding IsLeast IsHistory
some_said r replies current status h e (from, low, all) = (
  inl (elim from [ inl same ↦ inl (cc (e, same)) | inr later ↦ inr later ]),
  ((λ other k. let same : other ≡ status = cc (e, k) in omega (arith, low, ap order same)), all),
)

-- The history recorded for a connection is what one account's reply says, and no account's reply
-- says less; where no reply says anything, it stays as it was.
pub history-IsHistory :
    (replies : List HistoryReply) (current : HistoryStatus)
    → IsHistory replies current (history replies current)
unfolding history
history-IsHistory [] current = unfold IsHistory in (inr (tt, refl), tt)
history-IsHistory (r ∷ replies) current = elim (Option-cases (known r)) [
  | inl e ↦
      rw (history, e)
        (none_said r replies current (history replies current) e
          (history-IsHistory replies current))
  | inr (status, e) ↦
      rw (history, e)
        (some_said r replies current status (least status replies) e (least-IsLeast status replies))
]
