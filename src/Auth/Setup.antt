-- ===== src/Auth/Setup.antt =====
-- The code that the first administrator signs up with (backend/app/auth/setup.py). It is a row of
-- the table of challenges. Codes are compared by their hash only, so any function serves as
-- `hash_code`, also the one that Auth/Totp models.
pub mod Codes
mod Examples
use cashcove.Base.{
  ℕ, ◌+◌, ◌*◌, Bool, not, ◌&&◌, none, List, [], ◌∷◌, ltb, ◌==◌, length, select, any_b,
}
use cashcove.Base.Text.{Text}
use cashcove.Auth.Challenges.{AuthChallenge, Challenges, setup, purpose_number}

abbrev pub lifetime : ℕ
lifetime = 30 * 24 * 60 * 60 * 1_000_000

-- `setup_required`, on the ids of the users.
pub setup_required : List ℕ → Bool
setup_required users = length users == 0

abbrev is_setup : AuthChallenge → Bool
is_setup row = purpose_number row.purpose == purpose_number setup

module _ (hash_code : Text → ℕ) where
  pub issued : Text → ℕ → AuthChallenge
  issued code now = record {
    token_hash = hash_code code;
    purpose = setup;
    user_id = none;
    content = 0;
    attempts = 0;
    created_at = now;
    expires_at = now + lifetime;
  }

  -- The code is drawn at random.
  pub issue_code : Challenges → Text → ℕ → Challenges
  issue_code db code now = issued code now ∷ select (λ row. not (is_setup row)) db

  pub matches : Text → ℕ → AuthChallenge → Bool
  matches code now row =
      is_setup row && (row.token_hash == hash_code code && ltb now row.expires_at)

  pub code_is_valid : Challenges → Text → ℕ → Bool
  code_is_valid db code now = any_b (matches code now) db

  -- Whether it was claimed, and the table without the rows deleted.
  pub claim_code : Challenges → Text → ℕ → Bool × Challenges
  claim_code db code now =
      (length (select (matches code now) db) == 1, select (λ row. not (matches code now row)) db)
