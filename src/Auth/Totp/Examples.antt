-- ===== src/Auth/Totp/Examples.antt =====
-- The results on codes at concrete inputs: digits are those of ASCII and of Arabic, and the code of
-- a step is six times the digit of its last decimal place.
use cashcove.Base.Text.{Text, is_ascii}
use cashcove.Base.{
  ℕ, ◌+◌, ◌*◌, ◌%◌, ◌≡◌, refl, Bool, true, false, if◌then◌else◌, arith, ◌&&◌, ◌||◌, none, some,
  List, [], ◌∷◌, leb, ◌==◌,
}
use cashcove.Auth.Totp.{
  type_error, tidy, is_code, matching_step, User, check_totp, RecoveryCode, strip_start,
  normalize_code, hash_code, is_unused, use_recovery_code, lower_text,
}
use cashcove.Auth.Totp.Steps.{matching_step-raises}
use cashcove.Auth.Totp.OneTime.{Advances, check_totp-Advances}
use cashcove.Auth.Totp.Recovery.{FoldsAscii, use_recovery_code_once}

abbrev is_space : ℕ → Bool
is_space c = c == b' '

abbrev is_digit : ℕ → Bool
is_digit c = (leb 48 c && leb c 57) || (leb 1632 c && leb c 1641)

abbrev otp : ℕ → ℕ → Text
otp secret step = let c = 48 + step % 10 in c ∷ c ∷ c ∷ c ∷ c ∷ c ∷ []

abbrev six_ones : Text
six_ones = 49 ∷ 49 ∷ 49 ∷ b' ' ∷ 49 ∷ 49 ∷ 49 ∷ []

abbrev six_arabic : Text
six_arabic = 1633 ∷ 1633 ∷ 1633 ∷ 1633 ∷ 1633 ∷ 1633 ∷ []

matching_step-raises_example : matching_step is_space is_digit otp 3 six_arabic 20 none ≡ type_error
unfolding tidy is_code strip_start is_ascii
matching_step-raises_example =
    matching_step-raises is_space is_digit otp 3 none six_arabic 20 refl refl tt

abbrev person : User
person = record { totp_secret = some 3; totp_last_step = none }

check_totp-Advances_example :
    Advances
      (some 20)
      (check_totp is_space is_digit otp (λ secret. some secret) person (some 20) six_ones 20)
check_totp-Advances_example =
    check_totp-Advances is_space is_digit otp (λ secret. some secret) person (some 20) six_ones 20

abbrev lower : ℕ → Text
lower c = (if leb b'A' c && leb c b'Z' then c + 32 else c) ∷ []

abbrev is_alnum : ℕ → Bool
is_alnum c = (leb b'0' c && leb c b'9') || (leb b'A' c && leb c b'Z') || (leb b'a' c && leb c b'z')

lower-FoldsAscii : FoldsAscii lower is_alnum
lower-FoldsAscii = record {
  lower_capital = λ c from to.
      let capital : (leb b'A' c && leb c b'Z') ≡ true = ground arith in rw capital refl;
  lower_small =
      λ c from to. let small : (leb b'A' c && leb c b'Z') ≡ false = ground arith in rw small refl;
  lower_space = refl;
  lower_dash = refl;
  space_alnum = refl;
  dash_alnum = refl;
}

abbrev sha256 : Text → ℕ
sha256 [] = 0
sha256 (c ∷ text) = c + 2 * sha256 text

-- `k7-m2`, and the same code as `K7 m2`.
abbrev printed_code : Text
printed_code = b'k' ∷ b'7' ∷ b'-' ∷ b'm' ∷ b'2' ∷ []

abbrev typed_code : Text
typed_code = b'K' ∷ b'7' ∷ b' ' ∷ b'm' ∷ b'2' ∷ []

abbrev codes : List RecoveryCode
codes =
    record { user_id = 7; code_hash = sha256 (b'k' ∷ b'7' ∷ b'm' ∷ b'2' ∷ []); used_at = none } ∷ []

recovery_test : (use_recovery_code lower is_alnum sha256 codes 7 printed_code 1).0 ≡ true
unfolding use_recovery_code is_unused hash_code normalize_code lower_text
recovery_test = refl

use_recovery_code_once_example :
    (use_recovery_code lower is_alnum sha256
      (use_recovery_code lower is_alnum sha256 codes 7 printed_code 1).1
      7
      typed_code
      2).0
    ≡ false
use_recovery_code_once_example =
    use_recovery_code_once lower is_alnum lower-FoldsAscii sha256 codes 7 printed_code typed_code 1
      2 refl
