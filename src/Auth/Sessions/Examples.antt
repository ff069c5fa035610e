-- ===== src/Auth/Sessions/Examples.antt =====
-- The results on sessions at concrete inputs. The hash of a token is the token and 1 more.
use cashcove.Base.{ℕ, ◌+◌, ◌*◌, ◌<◌, ◌≡◌, refl, true, false, none, some, List, [], ◌∷◌, arith}
use cashcove.Auth.Sessions.{
  UserSession, Db, Fresh, hour, idle_deadline, purge_expired, new_session, start, load,
}
use cashcove.Auth.Sessions.Live.{load-purge_expired, load-start}
use cashcove.Auth.Sessions.KeepAlive.{requests, last_of, requests-live}

abbrev hash_token : ℕ → ℕ
hash_token token = token + 1

abbrev laptop : UserSession
laptop = record {
  id = 1;
  user_id = 7;
  token_hash = 101;
  csrf_token = 5;
  remember = false;
  created_at = 0;
  last_seen_at = 0;
  expires_at = 12 * hour;
  verified_at = 0;
  ip_address = none;
  user_agent = none;
}

-- It ended an hour in.
abbrev phone : UserSession
phone = record laptop { id = 2; token_hash = 201; expires_at = hour }

abbrev db : Db
db = record {
  sessions = phone ∷ laptop ∷ [];
  is_active = λ user. true;
  last_sign_in_at = λ user. none;
}

abbrev fresh : Fresh
fresh = record { id = 3; token = 300; csrf_token = 6; ip_address = none; user_agent = none }

-- Ten minutes each.
abbrev three_requests : List ℕ
three_requests = 600_000_000 ∷ 1_200_000_000 ∷ 1_800_000_000 ∷ []

load-purge_expired_example : load hash_token (purge_expired db 7 0) (some 100) 60 ≡ some laptop
unfolding load idle_deadline
load-purge_expired_example = load-purge_expired hash_token db 7 100 0 60 laptop (omega arith) refl

load-start_example :
    load hash_token
      (start hash_token db fresh 7 true 0).2
      (some (start hash_token db fresh 7 true 0).1.value)
      (13 * hour)
    ≡ some (start hash_token db fresh 7 true 0).0
unfolding start idle_deadline new_session
load-start_example =
    load-start hash_token db fresh 7 true 0 (13 * hour) refl refl (omega arith) (omega arith)

requests-live_example : last_of 0 three_requests < idle_deadline (requests laptop three_requests)
requests-live_example = requests-live laptop three_requests (omega arith) (
  omega arith,
  omega arith,
  omega arith,
  (omega arith, omega arith, omega arith, (omega arith, omega arith, omega arith, tt)),
)
