-- ===== src/Auth/Totp/OneTime.antt =====
-- Authenticator codes that have been used do not work again.
use cashcove.Base.Text.{Text}
use cashcove.Base.{
  ℕ, ◌≡◌, refl, inl, inr, Bool, true, false, Option, none, some, ltb, Bool-cases, arith,
}
use cashcove.Auth.Totp.{
  Result, ok, type_error, totp_unavailable, matching_step, User, claim_totp_step, claim_match,
  check_totp,
}
use cashcove.Auth.Totp.Steps.{IsAfter}

-- How a check ends: with a step later than the one stored, which is then stored; or with the stored
-- one left as it was.
abbrev pub Advances : Option ℕ → Result Bool × Option ℕ → Type 0
Advances stored (ok true, after) = (step : ℕ) × (after ≡ some step) × IsAfter stored step
Advances stored (ok false, after) = after ≡ stored
Advances stored (type_error, after) = after ≡ stored
Advances stored (totp_unavailable, after) = after ≡ stored

module _ (is_space is_digit : ℕ → Bool) (otp : ℕ → ℕ → Text) (decrypt : ℕ → Option ℕ) where
  claim-Advances :
      (stored : Option ℕ) (step : ℕ)
      → Advances stored (ok (claim_totp_step stored step).0, (claim_totp_step stored step).1)
  unfolding claim_totp_step
  claim-Advances none step = (step, refl, tt)
  claim-Advances (some last) step = elim (Bool-cases (ltb last step)) [
    | inl e ↦ rw e (step, refl, ground arith)
    | inr e ↦ rw e refl
  ]

  match-Advances :
      (stored : Option ℕ) (found : Result (Option ℕ))
      → Advances stored (claim_match is_space is_digit otp decrypt stored found)
  match-Advances stored (ok none) = refl
  match-Advances stored (ok (some step)) = claim-Advances stored step
  match-Advances stored type_error = refl
  match-Advances stored totp_unavailable = refl

  decrypted-Advances :
      (user : User) (stored : Option ℕ) (code : Text) (current : ℕ) (key : Option ℕ)
      → Advances stored (elim key [
        | none ↦ (totp_unavailable, stored)
        | some key ↦
            claim_match is_space is_digit otp decrypt stored
              (matching_step is_space is_digit otp key code current user.totp_last_step)
      ])
  decrypted-Advances user stored code current none = refl
  decrypted-Advances user stored code current (some key) = match-Advances stored _

  secret-Advances :
      (user : User) (stored : Option ℕ) (code : Text) (current : ℕ) (secret : Option ℕ)
      → Advances stored (elim secret [
        | none ↦ (ok false, stored)
        | some secret ↦ elim (decrypt secret) [
          | none ↦ (totp_unavailable, stored)
          | some key ↦
              claim_match is_space is_digit otp decrypt stored
                (matching_step is_space is_digit otp key code current user.totp_last_step)
        ]
      ])
  secret-Advances user stored code current none = refl
  secret-Advances user stored code current (some secret) =
      decrypted-Advances user stored code current (decrypt secret)

  -- Whatever a request believes the last step to be, a code that it accepts moves the stored last
  -- step on to a later one, so that no step is accepted twice; every other outcome leaves the stored
  -- step as it was.
  pub check_totp-Advances :
      (user : User) (stored : Option ℕ) (code : Text) (current : ℕ)
      → Advances stored (check_totp is_space is_digit otp decrypt user stored code current)
  unfolding check_totp
  check_totp-Advances user stored code current =
      secret-Advances user stored code current user.totp_secret
