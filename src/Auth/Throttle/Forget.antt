-- ===== src/Auth/Throttle/Forget.antt =====
-- The rows that `record_failure` deletes in passing are not missed.
use cashcove.Base.{ℕ, ◌≤◌, ◌<◌, ◌≡◌, ◌≢◌, refl, Option, none, some, [], ◌∷◌, arith}
use cashcove.Auth.Throttle.{
  Key, Limit, LoginThrottle, Throttles, longer_wait, seconds_locked, current_row, failed,
  is_forgotten, unless_forgotten, record_failure,
}

wait_kept :
    (now later : ℕ) (o : Option LoginThrottle)
    → now ≤ later
    → longer_wait later 0 (unless_forgotten now o) ≡ longer_wait later 0 o
unfolding unless_forgotten is_forgotten
wait_kept now later none h = refl
wait_kept now later (some row) h = ground arith

count_kept :
    (limit : Limit) (now later : ℕ) (o : Option LoginThrottle)
    → now < later
    → failed limit later (current_row later (unless_forgotten now o))
      ≡ failed limit later (current_row later o)
unfolding unless_forgotten is_forgotten failed current_row
count_kept limit now later none h = refl
count_kept limit now later (some row) h = ground arith

record_failure_other :
    (db : Throttles) (name key : Key) (limit : Limit) (now : ℕ)
    → key ≢ name
    → record_failure db name limit now key ≡ unless_forgotten now (db key)
unfolding record_failure
record_failure_other db name key limit now h = ground arith

record_failure_row :
    (db : Throttles) (key : Key) (limit : Limit) (now : ℕ)
    → record_failure db key limit now key ≡ some (failed limit now (current_row now (db key)))
unfolding record_failure
record_failure_row db key limit now = ground arith

-- A failure of one key leaves every other key as it was for whoever asks later: how long it is
-- locked, and the row that its own next failure writes, are the same as with no row deleted.
pub record_failure_unseen :
    (db : Throttles) (name key : Key) (limit own : Limit) (now later : ℕ)
    → key ≢ name
    → now < later
    → (seconds_locked (record_failure db name limit now) (key ∷ []) later
        ≡ seconds_locked db (key ∷ []) later)
      × (record_failure (record_failure db name limit now) key own later key
          ≡ record_failure db key own later key)
unfolding seconds_locked
record_failure_unseen db name key limit own now later ne h = (
  rw (record_failure_other db name key limit now ne) (wait_kept now later (db key) (omega arith)),
  rw (
    record_failure_row (record_failure db name limit now) key own later,
    record_failure_row db key own later,
    record_failure_other db name key limit now ne,
    count_kept own now later (db key) h,
  ),
)
