-- ===== src/Auth/Sessions.antt =====
-- Server-side sessions (backend/app/auth/sessions.py). Ids, tokens and hashes are texts or bytes
-- that are only compared, so numbers stand for them; a moment is a number of microseconds. SHA-256
-- is the parameter `hash_token`; new ids and tokens, and what the request says of the browser, are
-- arguments. A token is `none` where the cookie is missing or empty.
pub mod Live
pub mod KeepAlive
mod Examples
use cashcove.Base.{
  ℕ, ◌+◌, ◌*◌, min, Bool, true, not, ◌&&◌, ◌||◌, Option, none, some, List, [], ◌∷◌, ◌++◌, ltb, leb,
  ◌==◌, if◌then◌else◌, length, select, find,
}

pub record Lifetime : Type 0 where
  pub idle : ℕ
  pub absolute : ℕ

abbrev pub hour : ℕ
hour = 60 * 60 * 1_000_000

abbrev pub standard : Lifetime
standard = record { idle = hour; absolute = 12 * hour }

abbrev pub remembered : Lifetime
remembered = record { idle = 14 * 24 * hour; absolute = 30 * 24 * hour }

abbrev pub touch_interval : ℕ
touch_interval = 60 * 1_000_000

-- The columns of `user_sessions`.
pub record UserSession : Type 0 where
  pub id : ℕ
  pub user_id : ℕ
  pub token_hash : ℕ
  pub csrf_token : ℕ
  pub remember : Bool
  pub created_at : ℕ
  pub last_seen_at : ℕ
  pub expires_at : ℕ
  pub verified_at : ℕ
  pub ip_address : Option ℕ
  pub user_agent : Option ℕ

-- The table of sessions, and the columns of `users` that this module reads and writes.
pub record Db : Type 0 where
  pub sessions : List UserSession
  pub is_active : ℕ → Bool
  pub last_sign_in_at : ℕ → Option ℕ

abbrev pub lifetime : UserSession → Lifetime
lifetime session = if session.remember then remembered else standard

pub idle_deadline : UserSession → ℕ
idle_deadline session = min (session.last_seen_at + (lifetime session).idle) session.expires_at

-- The condition of the `delete` in `purge_expired`, but for the user. `last_seen_at <= now - d` is
-- written without the subtraction.
pub is_stale : ℕ → UserSession → Bool
is_stale now session =
    leb session.expires_at now
    || (leb (session.last_seen_at + remembered.idle) now
        || (not session.remember && leb (session.last_seen_at + standard.idle) now))

pub purge_expired : Db → ℕ → ℕ → Db
purge_expired db user now = record db {
  sessions = select (λ s. not (s.user_id == user && is_stale now s)) db.sessions;
}

-- What `start` draws at random, and reads off the request.
pub record Fresh : Type 0 where
  pub id : ℕ
  pub token : ℕ
  pub csrf_token : ℕ
  pub ip_address : Option ℕ
  pub user_agent : Option ℕ

-- The cookie that `set_cookie` sends: its value, and how long the browser keeps it.
pub record Cookie : Type 0 where
  pub value : ℕ
  pub max_age : Option ℕ

module _ (hash_token : ℕ → ℕ) where
  pub new_session : Fresh → ℕ → Bool → ℕ → UserSession
  new_session fresh user remember now = record {
    id = fresh.id;
    user_id = user;
    token_hash = hash_token fresh.token;
    csrf_token = fresh.csrf_token;
    remember = remember;
    created_at = now;
    last_seen_at = now;
    expires_at = now + (if remember then remembered else standard).absolute;
    verified_at = now;
    ip_address = fresh.ip_address;
    user_agent = fresh.user_agent;
  }

  -- The new row is flushed before the old ones are purged.
  pub start : Db → Fresh → ℕ → Bool → ℕ → UserSession × Cookie × Db
  start db fresh user remember now =
      let session = new_session fresh user remember now in
      let policy = if remember then remembered else standard in
      (
        session,
        record { value = fresh.token; max_age = if remember then some policy.absolute else none },
        purge_expired
            (record db {
              sessions = db.sessions ++ session ∷ [];
              last_sign_in_at = λ u. if u == user then some now else db.last_sign_in_at u;
            })
            user now,
      )

  pub load : Db → Option ℕ → ℕ → Option UserSession
  load db none now = none
  load db (some token) now = elim (find (λ s. s.token_hash == hash_token token) db.sessions) [
    | none ↦ none
    | some s ↦ if not (db.is_active s.user_id) || leb (idle_deadline s) now then none else some s
  ]

  -- `end`.
  pub end_session : Db → Option ℕ → Db
  end_session db none = db
  end_session db (some token) = record db {
    sessions = select (λ s. not (s.token_hash == hash_token token)) db.sessions;
  }

pub touch : UserSession → ℕ → UserSession
touch session now =
    if leb (session.last_seen_at + touch_interval) now
    then record session { last_seen_at = now }
    else session

abbrev is_kept : Option UserSession → UserSession → Bool
is_kept none s = Bool.false
is_kept (some keep) s = s.id == keep.id

-- The number of sessions ended, and the table without them.
pub end_all : Db → ℕ → Option UserSession → ℕ × Db
end_all db user keep =
    let ended = λ (s : UserSession). s.user_id == user && not (is_kept keep s) in
    (
      length (select ended db.sessions),
      record db { sessions = select (λ s. not (ended s)) db.sessions },
    )
