-- ===== src/Auth/Sessions/KeepAlive.antt =====
-- How long a session lives under a series of requests.
use cashcove.Base.{ℕ, ◌+◌, ◌≤◌, ◌<◌, ◌≡◌, refl, List, [], ◌∷◌, leb, if◌then◌else◌, arith}
use cashcove.Auth.Sessions.{UserSession, touch_interval, lifetime, idle_deadline, touch}

-- What a request does to a live session, and that it does nothing to one whose deadline has passed.
pub request : UserSession → ℕ → UserSession
request s now = if leb (idle_deadline s) now then s else touch s now

pub requests : UserSession → List ℕ → UserSession
requests s [] = s
requests s (now ∷ later) = requests (request s now) later

-- Each request comes after the one before, by less than the idle time less a minute, and before the
-- session's end.
abbrev pub IsSteady : UserSession → ℕ → List ℕ → Type 0
IsSteady s before [] = Unit
IsSteady s before (now ∷ later) =
    (before ≤ now)
    × (now + touch_interval ≤ before + (lifetime s).idle)
    × (now < s.expires_at)
    × IsSteady s now later

abbrev pub last_of : ℕ → List ℕ → ℕ
last_of before [] = before
last_of before (now ∷ later) = last_of now later

-- Seen at most a minute before `now`, and not ended.
record IsFresh (s : UserSession) (now : ℕ) : Type 0 where
  seen : now < s.last_seen_at + touch_interval
  before_end : now < s.expires_at

-- The request leaves alone what the deadline depends on, but for when the session was seen.
record Same (s t : UserSession) : Type 0 where
  remember : t.remember ≡ s.remember
  expires_at : t.expires_at ≡ s.expires_at

request-Same : (s : UserSession) (now : ℕ) → Same s (request s now)
unfolding request touch
request-Same s now = ground arith

fresh-deadline :
    (s : UserSession) (before now : ℕ)
    → IsFresh s before
    → now + touch_interval ≤ before + (lifetime s).idle
    → now < s.expires_at
    → now < idle_deadline s
unfolding idle_deadline
fresh-deadline s before now f h e = ground arith

request-IsFresh :
    (s : UserSession) (before now : ℕ)
    → IsFresh s before
    → now + touch_interval ≤ before + (lifetime s).idle
    → now < s.expires_at
    → IsFresh (request s now) now
unfolding request touch
request-IsFresh s before now f h e = ground (arith, fresh-deadline s before now f h e)

IsSteady-next :
    (s t : UserSession) (before : ℕ) (later : List ℕ)
    → Same s t
    → IsSteady s before later
    → IsSteady t before later
IsSteady-next s t before [] e h = tt
IsSteady-next s t before (now ∷ later) e h =
    (h.0, rw e.remember h.1, rw e.expires_at h.2, IsSteady-next s t now later e h.3)

requests-IsFresh :
    (s : UserSession) (before : ℕ) (later : List ℕ)
    → IsFresh s before
    → IsSteady s before later
    → IsFresh (requests s later) (last_of before later)
unfolding requests
requests-IsFresh s before [] f h = f
requests-IsFresh s before (now ∷ later) f h =
    requests-IsFresh (request s now) now later (request-IsFresh s before now f h.1 h.2)
      (IsSteady-next s (request s now) now later (request-Same s now) h.3)

idle_positive : (s : UserSession) → touch_interval ≤ (lifetime s).idle
idle_positive s = ground arith

-- A session seen just now stays live through any requests that follow one another by less than its
-- idle time less a minute, until it ends.
pub requests-live :
    (s : UserSession) (later : List ℕ)
    → s.last_seen_at < s.expires_at
    → IsSteady s s.last_seen_at later
    → last_of s.last_seen_at later < idle_deadline (requests s later)
requests-live s later h steady =
    fresh-deadline (requests s later) _ _
      (requests-IsFresh s s.last_seen_at later (record { seen = omega arith; before_end = h })
        steady)
      (omega (arith, idle_positive (requests s later)))
      (requests-IsFresh s s.last_seen_at later (record { seen = omega arith; before_end = h })
        steady).before_end

requests-expires_at :
    (s : UserSession) (later : List ℕ) → (requests s later).expires_at ≡ s.expires_at
unfolding requests
requests-expires_at s [] = refl
requests-expires_at s (now ∷ later) =
    rw (requests-expires_at (request s now) later) ((request-Same s now).expires_at)

-- No series of requests, however close together, moves a session's deadline past the end that it
-- was started with.
pub requests-deadline :
    (s : UserSession) (later : List ℕ) → idle_deadline (requests s later) ≤ s.expires_at
unfolding idle_deadline
requests-deadline s later = omega (arith, requests-expires_at s later)
