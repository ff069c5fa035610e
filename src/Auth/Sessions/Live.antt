-- ===== src/Auth/Sessions/Live.antt =====
-- Which sessions are live, and that signing in, signing out and purging agree about it.
use cashcove.Base.{
  ℕ, ◌+◌, ◌≤◌, ◌<◌, ◌≡◌, refl, inl, inr, Bool, true, not, ◌&&◌, none, some, List, [], ◌∷◌, ◌++◌,
  leb, ◌==◌, All, length, select, find, Bool-cases, arith,
}
use cashcove.Auth.Sessions.{
  UserSession, Db, Fresh, idle_deadline, is_stale, purge_expired, new_session, start, load,
  end_session, end_all,
}

-- The three tests of the purge together say that the session's deadline has passed.
is_stale-eq : (now : ℕ) (s : UserSession) → is_stale now s ≡ leb (idle_deadline s) now
unfolding is_stale idle_deadline
is_stale-eq now s = ground arith

find-select :
    (p q : UserSession → Bool) (s : UserSession) (xs : List UserSession)
    → find p xs ≡ some s
    → q s ≡ true
    → find p (select q xs) ≡ some s
find-select p q s [] h k = cc
find-select p q s (x ∷ xs) h k = ground (arith, find-select p q s xs)

find-append :
    (p : UserSession → Bool) (s : UserSession) (xs : List UserSession)
    → find p xs ≡ none
    → p s ≡ true
    → find p (xs ++ s ∷ []) ≡ some s
find-append p s [] h k = rw k
find-append p s (x ∷ xs) h k = ground (arith, find-append p s xs)

find-select-not :
    (p : UserSession → Bool) (xs : List UserSession) → find p (select (λ s. not (p s)) xs) ≡ none
find-select-not p [] = refl
find-select-not p (x ∷ xs) = ground (arith, find-select-not p xs)

module _ (hash_token : ℕ → ℕ) where
  load-found :
      (db : Db) (token now : ℕ) (s : UserSession)
      → load hash_token db (some token) now ≡ some s
      → (find (λ s. s.token_hash == hash_token token) db.sessions ≡ some s)
        × (db.is_active s.user_id ≡ true)
        × (now < idle_deadline s)
  unfolding load
  load-found db token now s h = ground arith

  found-load :
      (db : Db) (token now : ℕ) (s : UserSession)
      → find (λ s. s.token_hash == hash_token token) db.sessions ≡ some s
      → db.is_active s.user_id ≡ true
      → now < idle_deadline s
      → load hash_token db (some token) now ≡ some s
  unfolding load
  found-load db token now s f a h = rw (f, load) (ground arith)

  -- Purging anyone's sessions signs nobody out: what a cookie loads later, it still loads.
  pub load-purge_expired :
      (db : Db) (user token now later : ℕ) (s : UserSession)
      → now ≤ later
      → load hash_token db (some token) later ≡ some s
      → load hash_token (purge_expired db user now) (some token) later ≡ some s
  unfolding purge_expired
  load-purge_expired db user token now later s h l =
      let found = load-found db token later s l in
      found-load (purge_expired db user now) token later s
        (find-select (λ s. s.token_hash == hash_token token)
          (λ s. not (s.user_id == user && is_stale now s)) s db.sessions found.0
          (rw (is_stale-eq now s) (ground arith)))
        found.1 found.2

  -- The cookie of a sign-in with a token that no session has yet loads that session, from the
  -- moment of the sign-in until its deadline, if the user is active.
  pub load-start :
      (db : Db) (fresh : Fresh) (user : ℕ) (remember : Bool) (now later : ℕ)
      → find (λ s. s.token_hash == hash_token fresh.token) db.sessions ≡ none
      → db.is_active user ≡ true
      → now ≤ later
      → later < idle_deadline (start hash_token db fresh user remember now).0
      → load hash_token
          (start hash_token db fresh user remember now).2
          (some (start hash_token db fresh user remember now).1.value)
          later
        ≡ some (start hash_token db fresh user remember now).0
  unfolding start purge_expired
  load-start db fresh user remember now later new active h live =
      load-purge_expired _ user fresh.token now later
        (new_session hash_token fresh user remember now) h
        (found-load
          (record db {
            sessions = db.sessions ++ new_session hash_token fresh user remember now ∷ [];
            last_sign_in_at = (start hash_token db fresh user remember now).2.last_sign_in_at;
          })
          fresh.token later (new_session hash_token fresh user remember now)
          (find-append (λ s. s.token_hash == hash_token fresh.token)
            (new_session hash_token fresh user remember now) db.sessions new
            (unfold new_session in ground arith))
          (unfold new_session in active) live)

  -- A cookie that was signed out loads nothing, at any time.
  pub load-end_session :
      (db : Db) (token now : ℕ)
      → load hash_token (end_session hash_token db (some token)) (some token) now ≡ none
  unfolding load end_session
  load-end_session db token now =
      rw (find-select-not (λ s. s.token_hash == hash_token token) db.sessions, load) refl

purged_live :
    (user now : ℕ) (xs : List UserSession)
    → All
        (λ s. s.user_id ≡ user → now < idle_deadline s)
        (select (λ s. not (s.user_id == user && leb (idle_deadline s) now)) xs)
purged_live user now [] = tt
purged_live user now (x ∷ xs) = elim (Bool-cases (x.user_id == user && leb (idle_deadline x) now)) [
  | inl e ↦ rw e (purged_live user now xs)
  | inr e ↦ rw e (λ h. ground arith, purged_live user now xs)
]

-- After a purge every session left to the user is before its deadline.
pub purge_expired-live :
    (db : Db) (user now : ℕ)
    → All (λ s. s.user_id ≡ user → now < idle_deadline s) (purge_expired db user now).sessions
unfolding purge_expired
purge_expired-live db user now = simp is_stale-eq (purged_live user now db.sessions)

counted :
    (p : UserSession → Bool) (xs : List UserSession)
    → length (select p xs) + length (select (λ s. not (p s)) xs) ≡ length xs
counted p [] = omega arith
counted p (x ∷ xs) = ground (arith, counted p xs)

rest_kept :
    (user : ℕ) (keep : UserSession) (xs : List UserSession)
    → All
        (λ s. s.user_id ≡ user → s.id ≡ keep.id)
        (select (λ s. not (s.user_id == user && not (s.id == keep.id))) xs)
rest_kept user keep [] = tt
rest_kept user keep (x ∷ xs) = elim (Bool-cases (x.user_id == user && not (x.id == keep.id))) [
  | inl e ↦ rw e (rest_kept user keep xs)
  | inr e ↦ rw e (λ h. ground arith, rest_kept user keep xs)
]

-- Signing a user out everywhere but here ends all of the user's sessions other than the one kept,
-- and the number returned is the number of sessions that are gone.
pub end_all-keeps :
    (db : Db) (user : ℕ) (keep : UserSession)
    → All (λ s. s.user_id ≡ user → s.id ≡ keep.id) (end_all db user (some keep)).1.sessions
      × ((end_all db user (some keep)).0 + length (end_all db user (some keep)).1.sessions
          ≡ length db.sessions)
unfolding end_all
end_all-keeps db user keep = (
  rest_kept user keep db.sessions,
  counted (λ s. s.user_id == user && not (s.id == keep.id)) db.sessions,
)
