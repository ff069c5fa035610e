-- ===== src/Auth/Totp.antt =====
-- Authenticator codes and recovery codes (`matching_step` of backend/app/auth/totp.py, and
-- `check_totp`, `_claim_totp_step`, `use_recovery_code`, `replace_recovery_codes` and
-- `turn_off_two_factor` of backend/app/auth/service.py). A text is the list of its code points.
-- The tables of Python's `str.isspace` and `str.isdigit`, pyotp's codes and the decryption of the
-- key are parameters. A time step is a natural number, as it is after the first 30 seconds of 1970.
pub mod Steps
pub mod OneTime
pub mod Recovery
mod Examples
use mathlib.Core.List.{reverse}
use cashcove.Base.Text.{Text, text_eq, is_ascii}
use cashcove.Base.{
  ℕ, ◌+◌, ◌-◌, Bool, true, false, not, ◌&&◌, ◌||◌, Option, none, some, List, [], ◌∷◌, ◌++◌, map,
  ltb, leb, ◌==◌, if◌then◌else◌, opt_eq, is_none, length, select, all_b,
}

pub data Result {ℓ} (A : Type ℓ) : Type ℓ where
  ok : A → Result A
  -- `TypeError`, from `hmac.compare_digest`.
  type_error : Result A
  -- `ApiError(409, "totp_unavailable")`.
  totp_unavailable : Result A

-- `hmac.compare_digest` takes texts in ASCII only.
pub compare_digest : Text → Text → Result Bool
compare_digest a b = if is_ascii a && is_ascii b then ok (text_eq a b) else type_error

-- `last_step is not None and step <= last_step`
pub is_used : Option ℕ → ℕ → Bool
is_used none step = false
is_used (some last) step = leb step last

module _ (is_space is_digit : ℕ → Bool) where
  strip_start : Text → Text
  strip_start [] = []
  strip_start (c ∷ text) = let rest = strip_start text in if is_space c then rest else c ∷ text

  -- `code.strip().replace(" ", "")`
  pub tidy : Text → Text
  unfolding strip_start
  tidy code = select (λ c. not (c == b' ')) (reverse (strip_start (reverse (strip_start code))))

  pub is_code : Text → Bool
  is_code code = length code == 6 && all_b is_digit code

  module _ (otp : ℕ → ℕ → Text) where
    -- The loop over the steps.
    pub first_match : ℕ → Text → Option ℕ → List ℕ → Result (Option ℕ)
    first_match secret code last [] = ok none
    first_match secret code last (step ∷ steps) =
        let rest = first_match secret code last steps in
        if is_used last step then rest else elim (compare_digest (otp secret step) code) [
          | ok same ↦ if same then ok (some step) else rest
          | type_error ↦ type_error
          | totp_unavailable ↦ totp_unavailable
        ]

    pub matching_step : ℕ → Text → ℕ → Option ℕ → Result (Option ℕ)
    matching_step secret text current last =
        let code = tidy text in
        if is_code code
        then first_match secret code last ((current - 1) ∷ current ∷ (current + 1) ∷ [])
        else ok none

-- The columns of `users` for two-step sign-in; the key is encrypted.
pub record User : Type 0 where
  pub totp_secret : Option ℕ
  pub totp_last_step : Option ℕ

-- The `update` of `_claim_totp_step`, on the stored last step: whether it changed the row, and the
-- column after it.
pub claim_totp_step : Option ℕ → ℕ → Bool × Option ℕ
claim_totp_step none step = (true, some step)
claim_totp_step (some last) step = if ltb last step then (true, some step) else (false, some last)

module _ (is_space is_digit : ℕ → Bool) (otp : ℕ → ℕ → Text) (decrypt : ℕ → Option ℕ) where
  abbrev claim_match : Option ℕ → Result (Option ℕ) → Result Bool × Option ℕ
  claim_match stored (ok none) = (ok false, stored)
  claim_match stored (ok (some step)) =
      (ok (claim_totp_step stored step).0, (claim_totp_step stored step).1)
  claim_match stored type_error = (type_error, stored)
  claim_match stored totp_unavailable = (totp_unavailable, stored)

  -- `user` is the person as this request read them; `stored` is their last step in the table by
  -- then, which another request may have changed. The result comes with the column after it.
  pub check_totp : User → Option ℕ → Text → ℕ → Result Bool × Option ℕ
  check_totp user stored code current = elim user.totp_secret [
    | none ↦ (ok false, stored)
    | some secret ↦ elim (decrypt secret) [
      | none ↦ (totp_unavailable, stored)
      | some key ↦
          claim_match stored
            (matching_step is_space is_digit otp key code current user.totp_last_step)
    ]
  ]

-- The columns of `recovery_codes`.
pub record RecoveryCode : Type 0 where
  pub user_id : ℕ
  pub code_hash : ℕ
  pub used_at : Option ℕ

module _ (lower : ℕ → Text) (is_alnum : ℕ → Bool) (sha256 : Text → ℕ) where
  lower_text : Text → Text
  lower_text [] = []
  lower_text (c ∷ text) = lower c ++ lower_text text

  -- `normalize_code` and `hash_code` of backend/app/auth/tokens.py.
  pub normalize_code : Text → Text
  unfolding lower_text
  normalize_code code = select is_alnum (lower_text code)

  pub hash_code : Text → ℕ
  hash_code code = sha256 (normalize_code code)

  -- The rows that the `update` of `use_recovery_code` changes.
  pub is_unused : ℕ → Text → RecoveryCode → Bool
  is_unused user code row =
      row.user_id == user && (row.code_hash == hash_code code && is_none row.used_at)

  pub use_recovery_code : List RecoveryCode → ℕ → Text → ℕ → Bool × List RecoveryCode
  use_recovery_code db user code now = (
    length (select (is_unused user code) db) == 1,
    map (λ row. if is_unused user code row then record row { used_at = some now } else row) db,
  )

  -- The new codes are drawn at random.
  pub replace_recovery_codes : List RecoveryCode → ℕ → List Text → List RecoveryCode
  replace_recovery_codes db user codes =
      select (λ row. not (row.user_id == user)) db
      ++ map (λ code. record { user_id = user; code_hash = hash_code code; used_at = none }) codes

pub turn_off_two_factor : List RecoveryCode → ℕ → User → User × List RecoveryCode
turn_off_two_factor db user row = (
  record row { totp_secret = none; totp_last_step = none },
  select (λ code. not (code.user_id == user)) db,
)
