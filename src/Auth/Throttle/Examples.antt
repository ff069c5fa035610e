-- ===== src/Auth/Throttle/Examples.antt =====
-- The results on guessing protection at concrete inputs.
use cashcove.Base.{ℕ, ◌+◌, ◌*◌, ◌≤◌, ◌≡◌, min, refl, none, some, List, [], ◌∷◌, length, arith}
use cashcove.Auth.Throttle.{Throttles, email, second, first_lock, longest_lock, lock_time}
use cashcove.Auth.Throttle.Delay.{lock_time_doubles}
use cashcove.Auth.Throttle.Lockout.{failures_at, last_of, Counted, failures_at-Counted, IsBounded}

abbrev no_rows : Throttles
no_rows key = none

-- One key locked for 10 seconds from the start.
abbrev one_locked : Throttles
one_locked key =
    some (record { failures = 6; last_failure_at = 0; locked_until = some (10 * second) })

abbrev five_more : List ℕ
five_more = second ∷ 2 * second ∷ 3 * second ∷ 4 * second ∷ 5 * second ∷ []

lock_time_doubles_example :
    (lock_time 1 ≡ first_lock)
    × (lock_time (5 + 1) ≡ min (2 * lock_time 5) longest_lock)
    × (first_lock ≤ lock_time 5)
    × (lock_time 5 ≤ longest_lock)
lock_time_doubles_example = lock_time_doubles 5 (omega arith)

failures_at-Counted_example :
    Counted email
      (1 + length five_more)
      (last_of 0 five_more)
      (failures_at no_rows 7 email (0 ∷ five_more) 7)
failures_at-Counted_example = failures_at-Counted email no_rows 7 0 five_more refl (
  omega arith,
  omega arith,
  (
    omega arith,
    omega arith,
    (omega arith, omega arith, (omega arith, omega arith, (omega arith, omega arith, tt))),
  ),
)

locked-IsBounded : IsBounded 0 one_locked
locked-IsBounded key = omega arith
