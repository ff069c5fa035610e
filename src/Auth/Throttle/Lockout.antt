-- ===== src/Auth/Throttle/Lockout.antt =====
-- What a run of failures comes to, and how long anybody can be made to wait.
use cashcove.Base.{
  ℕ, suc, ◌+◌, ◌-◌, ◌≤◌, ◌≡◌, Option, none, some, List, [], ◌∷◌, length, ltb, if◌then◌else◌, arith,
}
use cashcove.Auth.Throttle.{
  Key, Limit, LoginThrottle, Throttles, longest_lock, forget_after, longer_wait, locked_from,
  seconds_locked, lock_time, current_row, failed, unless_forgotten, record_failure,
}
use cashcove.Auth.Throttle.Delay.{lock_time-le}

-- Failures of one key, one after the other.
pub failures_at : Throttles → Key → Limit → List ℕ → Throttles
failures_at db name limit [] = db
failures_at db name limit (now ∷ later) =
    failures_at (record_failure db name limit now) name limit later

-- Each moment comes at most an hour after the one before.
abbrev pub IsRun : ℕ → List ℕ → Type 0
IsRun before [] = Unit
IsRun before (now ∷ later) = (before ≤ now) × (now ≤ before + forget_after) × IsRun now later

abbrev pub last_of : ℕ → List ℕ → ℕ
last_of before [] = before
last_of before (now ∷ later) = last_of now later

-- What `record_failure` writes for the key after `n` failures, the last of them at `now`.
abbrev pub Counted : Limit → ℕ → ℕ → Option LoginThrottle → Type 0
Counted limit n now none = ⊥
Counted limit n now (some row) =
    (row.failures ≡ n)
    × (row.last_failure_at ≡ now)
    × (row.locked_until ≡ (
        if ltb limit.free_attempts n
        then some (now + lock_time (n - limit.free_attempts))
        else none))

Counted-next :
    (limit : Limit) (n before now : ℕ) (o : Option LoginThrottle)
    → before ≤ now
    → now ≤ before + forget_after
    → Counted limit n before o
    → Counted limit (n + 1) now (some (failed limit now (current_row now o)))
unfolding failed current_row
Counted-next limit n before now none h k c = absurd c
Counted-next limit n before now (some row) h k c = ground arith

Counted-first :
    (limit : Limit) (now : ℕ) → Counted limit 1 now (some (failed limit now (current_row now none)))
unfolding failed current_row
Counted-first limit now = ground arith

record_failure_self :
    (db : Throttles) (name : Key) (limit : Limit) (now : ℕ)
    → record_failure db name limit now name ≡ some (failed limit now (current_row now (db name)))
unfolding record_failure
record_failure_self db name limit now = ground arith

run-Counted :
    (limit : Limit) (db : Throttles) (name : Key) (n before : ℕ) (later : List ℕ)
    → IsRun before later
    → Counted limit n before (db name)
    → Counted limit (n + length later) (last_of before later) (failures_at db name limit later name)
unfolding failures_at
run-Counted limit db name n before [] r c = let e : n + 0 ≡ n = omega arith in rw e c
run-Counted limit db name n before (now ∷ later) r c =
    let e : n + suc (length later) ≡ n + 1 + length later = omega arith in
    rw e (
      run-Counted limit (record_failure db name limit now) name (n + 1) now later r.2 (
        rw (record_failure_self db name limit now)
          (Counted-next limit n before now (db name) r.0 r.1 c)))

-- After failures of an unknown key that follow one another within an hour each, the row counts all
-- of them, and is locked from the last one exactly when they exceed the free attempts, for the time
-- that goes with the number over.
pub failures_at-Counted :
    (limit : Limit) (db : Throttles) (name : Key) (first : ℕ) (later : List ℕ)
    → db name ≡ none
    → IsRun first later
    → Counted limit
        (1 + length later)
        (last_of first later)
        (failures_at db name limit (first ∷ later) name)
unfolding failures_at
failures_at-Counted limit db name first later new r =
    run-Counted limit (record_failure db name limit first) name 1 first later r
      (rw (record_failure_self db name limit first) (rw new (Counted-first limit first)))

-- No lock ends more than 15 minutes after `now`.
abbrev LockOk : ℕ → Option ℕ → Type 0
LockOk now none = Unit
LockOk now (some until) = until ≤ now + longest_lock

abbrev RowOk : ℕ → Option LoginThrottle → Type 0
RowOk now none = Unit
RowOk now (some row) = LockOk now row.locked_until

abbrev pub IsBounded : ℕ → Throttles → Type 0
IsBounded now db = (key : Key) → RowOk now (db key)

LockOk-later : (before now : ℕ) (o : Option ℕ) → before ≤ now → LockOk before o → LockOk now o
LockOk-later before now none h k = tt
LockOk-later before now (some until) h k = omega arith

failed_ok :
    (limit : Limit) (before now : ℕ) (o : Option LoginThrottle)
    → before ≤ now
    → RowOk before o
    → RowOk now (some (failed limit now (current_row now o)))
unfolding failed current_row
failed_ok limit before now none h k = ground (arith, lock_time-le (0 + 1 - limit.free_attempts))
failed_ok limit before now (some row) h k = ground (
  arith,
  lock_time-le (0 + 1 - limit.free_attempts),
  lock_time-le (row.failures + 1 - limit.free_attempts),
  LockOk-later before now row.locked_until,
)

kept_ok :
    (before now : ℕ) (o : Option LoginThrottle)
    → before ≤ now
    → RowOk before o
    → RowOk now (unless_forgotten now o)
unfolding unless_forgotten
kept_ok before now none h k = tt
kept_ok before now (some row) h k = ground (arith, LockOk-later before now row.locked_until h k)

-- Recording a failure keeps every lock within 15 minutes of the present, whatever the key's limit.
pub record_failure-IsBounded :
    (db : Throttles) (name : Key) (limit : Limit) (before now : ℕ)
    → before ≤ now
    → IsBounded before db
    → IsBounded now (record_failure db name limit now)
unfolding record_failure
record_failure-IsBounded db name limit before now h b key =
    ground (
      arith,
      failed_ok limit before now (db name) h (b name),
      kept_ok before now (db key) h (b key),
    )

longer_wait-le :
    (now remaining : ℕ) (o : Option LoginThrottle)
    → remaining ≤ 901
    → RowOk now o
    → longer_wait now remaining o ≤ 901
longer_wait-le now remaining none h k = h
longer_wait-le now remaining (some row) h k = ground arith

locked_from-le :
    (db : Throttles) (now remaining : ℕ) (names : List Key)
    → IsBounded now db
    → remaining ≤ 901
    → locked_from db now remaining names ≤ 901
unfolding locked_from
locked_from-le db now remaining [] b h = h
locked_from-le db now remaining (name ∷ names) b h =
    locked_from-le db now (longer_wait now remaining (db name)) names b
      (longer_wait-le now remaining (db name) h (b name))

-- Nobody is asked to wait more than 15 minutes and a second, whichever keys are asked about.
pub seconds_locked-le :
    (db : Throttles) (names : List Key) (now : ℕ)
    → IsBounded now db
    → seconds_locked db names now ≤ 901
unfolding seconds_locked
seconds_locked-le db names now b = locked_from-le db now 0 names b (omega arith)
