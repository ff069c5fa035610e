-- ===== src/Auth/Challenges.antt =====
-- Single-use state between the steps of a sign-in (backend/app/auth/challenges.py). Tokens, hashes
-- and the data are only stored and compared, so numbers stand for them; SHA-256 is the parameter
-- `hash_token`. A moment is a number of microseconds.
pub mod SingleUse
mod Examples
use cashcove.Base.{
  ℕ, ◌+◌, ◌*◌, Bool, not, ◌&&◌, Option, none, some, List, [], ◌∷◌, ltb, leb, ◌==◌, if◌then◌else◌,
  opt_eq, select, find,
}

pub data Purpose : Type 0 where
  two_factor passkey_sign_in passkey_two_factor passkey_verify passkey_register totp_setup : Purpose
  -- `PURPOSE` of backend/app/auth/setup.py.
  setup : Purpose

-- The texts of the purposes differ.
pub purpose_number : Purpose → ℕ
purpose_number two_factor = 0
purpose_number passkey_sign_in = 1
purpose_number passkey_two_factor = 2
purpose_number passkey_verify = 3
purpose_number passkey_register = 4
purpose_number totp_setup = 5
purpose_number setup = 6

abbrev pub passkey_lifetime : ℕ
passkey_lifetime = 5 * 60 * 1_000_000

pub record AuthChallenge : Type 0 where
  pub token_hash : ℕ
  pub purpose : Purpose
  pub user_id : Option ℕ
  pub content : ℕ
  pub attempts : ℕ
  pub created_at : ℕ
  pub expires_at : ℕ

pub record Claimed : Type 0 where
  pub user_id : Option ℕ
  pub content : ℕ

abbrev pub Challenges : Type 0
Challenges = List AuthChallenge

-- What `one_or_none` makes of the rows of a result: it raises on more than one.
pub data Fetched {ℓ} (A : Type ℓ) : Type ℓ where
  nothing : Fetched A
  one : A → Fetched A
  several : Fetched A

pub one_or_none {ℓ} : {A : Type ℓ} → List A → Fetched A
one_or_none [] = nothing
one_or_none (x ∷ []) = one x
one_or_none (x ∷ y ∷ rest) = several

abbrev pub claimed_of : Fetched AuthChallenge → Fetched Claimed
claimed_of nothing = nothing
claimed_of (one row) = one (record { user_id = row.user_id; content = row.content })
claimed_of several = several

module _ (hash_token : ℕ → ℕ) where
  pub create : Challenges → ℕ → Purpose → ℕ → ℕ → Option ℕ → ℕ → AuthChallenge × Challenges
  create db token purpose lifetime now user content =
      let challenge : AuthChallenge = record {
        token_hash = hash_token token;
        purpose = purpose;
        user_id = user;
        content = content;
        attempts = 0;
        created_at = now;
        expires_at = now + lifetime;
      } in
      (challenge, challenge ∷ db)

  -- The condition that `find` and `claim` share.
  pub answers : ℕ → Purpose → ℕ → AuthChallenge → Bool
  answers token purpose now row =
      row.token_hash == hash_token token
      && (purpose_number row.purpose == purpose_number purpose && ltb now row.expires_at)

  -- `find`; the token is `none` where the cookie is missing or empty.
  pub find_challenge : Challenges → Option ℕ → Purpose → ℕ → Option AuthChallenge
  find_challenge db none purpose now = none
  find_challenge db (some token) purpose now = find (answers token purpose now) db

  -- The rows that the `delete` returns, and the table without them.
  pub claim : Challenges → ℕ → Purpose → ℕ → Fetched Claimed × Challenges
  claim db token purpose now = (
    claimed_of (one_or_none (select (answers token purpose now) db)),
    select (λ row. not (answers token purpose now row)) db,
  )

pub clear : Challenges → Purpose → ℕ → Challenges
clear db purpose user =
    select
      (λ row.
        not
          (purpose_number row.purpose == purpose_number purpose && opt_eq row.user_id (some user)))
      db

pub purge_expired : Challenges → ℕ → Challenges
purge_expired db now = select (λ row. not (leb row.expires_at now)) db
