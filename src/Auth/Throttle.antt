-- ===== src/Auth/Throttle.antt =====
-- Guessing protection (backend/app/auth/throttle.py). A key is a text that is only compared, so a
-- number stands for it; a moment is a number of microseconds. The table of counters is a function
-- from keys to rows: every query of this module is by primary key, or deletes row by row.
pub mod Delay
pub mod Lockout
pub mod Forget
mod Examples
use cashcove.Base.{
  ℕ, ◌+◌, ◌-◌, ◌*◌, ◌/◌, ◌^◌, min, max, Bool, true, ◌&&◌, Option, none, some, List, [], ◌∷◌, ltb,
  leb, ◌==◌, if◌then◌else◌,
}

abbrev pub Key : Type 0
Key = ℕ

-- The prefix of a limit only goes into its keys.
pub record Limit : Type 0 where
  pub free_attempts : ℕ

abbrev pub email : Limit
email = record { free_attempts = 5 }

abbrev pub address : Limit
address = record { free_attempts = 20 }

abbrev pub setup : Limit
setup = record { free_attempts = 10 }

abbrev pub second : ℕ
second = 1_000_000

abbrev pub first_lock : ℕ
first_lock = 30 * second

abbrev pub longest_lock : ℕ
longest_lock = 15 * 60 * second

abbrev pub forget_after : ℕ
forget_after = 60 * 60 * second

pub record LoginThrottle : Type 0 where
  pub failures : ℕ
  pub last_failure_at : ℕ
  pub locked_until : Option ℕ

abbrev pub Throttles : Type 0
Throttles = Key → Option LoginThrottle

-- One round of the loop of `seconds_locked`, on the row that `db.get` found.
abbrev longer_wait : ℕ → ℕ → Option LoginThrottle → ℕ
longer_wait now remaining none = remaining
longer_wait now remaining (some row) = elim row.locked_until [
  | none ↦ remaining
  | some until ↦ if ltb now until then max remaining ((until - now) / second + 1) else remaining
]

locked_from : Throttles → ℕ → ℕ → List Key → ℕ
locked_from db now remaining [] = remaining
locked_from db now remaining (name ∷ names) =
    locked_from db now (longer_wait now remaining (db name)) names

unfoldable pub seconds_locked : Throttles → List Key → ℕ → ℕ
unfolding locked_from
seconds_locked db names now = locked_from db now 0 names

-- `min(FIRST_LOCK * 2 ** min(over - 1, 10), LONGEST_LOCK)`, where `over` is positive.
pub lock_time : ℕ → ℕ
lock_time over = min (first_lock * 2 ^ min (over - 1) 10) longest_lock

-- The row that a failure is counted on: a new one, or the old one, started again if it is stale.
pub current_row : ℕ → Option LoginThrottle → LoginThrottle
current_row now none = record { failures = 0; last_failure_at = now; locked_until = none }
current_row now (some row) =
    if ltb (row.last_failure_at + forget_after) now
    then record row { failures = 0; locked_until = none }
    else row

pub failed : Limit → ℕ → LoginThrottle → LoginThrottle
failed limit now row = record {
  failures = row.failures + 1;
  last_failure_at = now;
  locked_until =
      if ltb limit.free_attempts (row.failures + 1)
      then some (now + lock_time (row.failures + 1 - limit.free_attempts))
      else row.locked_until;
}

-- The condition of the `delete`, but for the key. `last <= now - FORGET_AFTER` is written without
-- the subtraction.
pub is_forgotten : ℕ → LoginThrottle → Bool
is_forgotten now row =
    leb (row.last_failure_at + forget_after) now
    && elim row.locked_until [ none ↦ true | some until ↦ leb until now ]

pub unless_forgotten : ℕ → Option LoginThrottle → Option LoginThrottle
unless_forgotten now none = none
unless_forgotten now (some row) = if is_forgotten now row then none else some row

pub record_failure : Throttles → Key → Limit → ℕ → Throttles
record_failure db name limit now key =
    if key == name
    then some (failed limit now (current_row now (db name)))
    else unless_forgotten now (db key)

pub clear : Throttles → Key → Throttles
clear db name key = if key == name then none else db key
