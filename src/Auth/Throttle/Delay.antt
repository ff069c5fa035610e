-- ===== src/Auth/Throttle/Delay.antt =====
-- How long a failure locks a key (`record_failure` of backend/app/auth/throttle.py).
use cashcove.Base.{ℕ, zero, suc, ◌+◌, ◌-◌, ◌*◌, ◌^◌, ◌≤◌, min, ◌≡◌, refl, arith}
use cashcove.Auth.Throttle.{first_lock, longest_lock, lock_time}

-- Past the exponent 5 the doubled delay exceeds the longest one, at the cap of 10 too.
pow-ge : (n : ℕ) → 32 ≤ 2 ^ min (n + 5) 10
pow-ge zero = omega arith
pow-ge (suc zero) = omega arith
pow-ge (suc (suc zero)) = omega arith
pow-ge (suc (suc (suc zero))) = omega arith
pow-ge (suc (suc (suc (suc zero)))) = omega arith
pow-ge (suc (suc (suc (suc (suc n))))) =
    let e : min (suc (suc (suc (suc (suc n)))) + 5) 10 ≡ 10 = omega arith in rw e (omega arith)

pow-pos : (n : ℕ) → 1 ≤ 2 ^ n
pow-pos zero = omega arith
pow-pos (suc n) = grind (arith, pow-pos n)

pub lock_time-le : (over : ℕ) → lock_time over ≤ longest_lock
unfolding lock_time
lock_time-le over = omega arith

pub lock_time-ge : (over : ℕ) → first_lock ≤ lock_time over
unfolding lock_time
lock_time-ge over = omega (arith, pow-pos (min (over - 1) 10))

-- From the sixth failure over the limit on, the delay is the longest.
lock_time_far : (e : ℕ) → lock_time (e + 6) ≡ longest_lock
unfolding lock_time
lock_time_far e = let p : e + 6 - 1 ≡ e + 5 = omega arith in rw p (omega (arith, pow-ge e))

doubles : (e : ℕ) → lock_time (suc (suc e)) ≡ min (2 * lock_time (suc e)) longest_lock
unfolding lock_time
doubles zero = refl
doubles (suc zero) = refl
doubles (suc (suc zero)) = refl
doubles (suc (suc (suc zero))) = refl
doubles (suc (suc (suc (suc zero)))) = refl
doubles (suc (suc (suc (suc (suc e))))) =
    let p : suc (suc (suc (suc (suc (suc (suc e)))))) ≡ suc e + 6 = omega arith in
    let q : suc (suc (suc (suc (suc (suc e))))) ≡ e + 6 = omega arith in
    rw (p, q, lock_time_far (suc e), lock_time_far e) (omega arith)

-- A key's first lock is 30 seconds long, each further failure doubles the lock up to 15 minutes,
-- and every lock is between the two.
pub lock_time_doubles :
    (over : ℕ)
    → 1 ≤ over
    → (lock_time 1 ≡ first_lock)
      × (lock_time (over + 1) ≡ min (2 * lock_time over) longest_lock)
      × (first_lock ≤ lock_time over)
      × (lock_time over ≤ longest_lock)
unfolding lock_time
lock_time_doubles zero h = absurd (omega arith)
lock_time_doubles (suc e) h =
    let p : suc e + 1 ≡ suc (suc e) = omega arith in
    (refl, rw p (doubles e), lock_time-ge (suc e), lock_time-le (suc e))
