-- ===== src/Auth/Totp/Recovery.antt =====
-- Recovery codes that have been tried do not work again, however they are typed.
use mathlib.Core.List.{map}
use cashcove.Base.Text.{Text}
use cashcove.Base.{
  ℕ, ◌+◌, ◌-◌, ◌≤◌, ◌≡◌, refl, ap, sym, ◌∙◌, inl, inr, Bool, true, false, not, ◌&&◌, ◌||◌, some,
  List, [], ◌∷◌, ◌++◌, leb, ◌==◌, if◌then◌else◌, select, Bool-cases, arith,
}
use cashcove.Auth.Totp.{
  RecoveryCode, lower_text, normalize_code, hash_code, is_unused, use_recovery_code,
}

abbrev pub is_mark : ℕ → Bool
is_mark c = c == b' ' || c == b'-'

abbrev capital : ℕ → ℕ
capital c = if leb b'a' c && leb c b'z' then c - 32 else c

-- A code as it would be printed: ASCII letters as capitals, with no spaces and no dashes.
abbrev pub printed : Text → Text
printed code = map capital (select (λ c. not (is_mark c)) code)

-- What Python documents of `str.lower` and `str.isalnum`, for ASCII letters, spaces and dashes.
pub record FoldsAscii (lower : ℕ → Text) (is_alnum : ℕ → Bool) : Type 0 where
  pub lower_capital : (c : ℕ) → b'A' ≤ c → c ≤ b'Z' → lower c ≡ (c + 32) ∷ []
  pub lower_small : (c : ℕ) → b'a' ≤ c → c ≤ b'z' → lower c ≡ c ∷ []
  pub lower_space : lower b' ' ≡ b' ' ∷ []
  pub lower_dash : lower b'-' ≡ b'-' ∷ []
  pub space_alnum : is_alnum b' ' ≡ false
  pub dash_alnum : is_alnum b'-' ≡ false

select-append : (p : ℕ → Bool) (a b : Text) → select p (a ++ b) ≡ select p a ++ select p b
select-append p [] b = refl
select-append p (c ∷ a) b = elim (Bool-cases (p c)) [
  | inl e ↦ rw e (ap (λ l. c ∷ l) (select-append p a b))
  | inr e ↦ rw e (select-append p a b)
]

module _ (lower : ℕ → Text) (is_alnum : ℕ → Bool) (laws : FoldsAscii lower is_alnum) where
  lower-capital : (c : ℕ) → lower (capital c) ≡ lower c
  lower-capital c = elim (Bool-cases (leb b'a' c && leb c b'z')) [
    | inl small ↦
        let from : b'a' ≤ c = ground arith in
        let to : c ≤ b'z' = ground arith in
        rw
          (
            small,
            laws.lower_small c from to,
            laws.lower_capital (c - 32) (omega (arith, from)) (omega (arith, to)),
          )
          (ap (λ n. n ∷ []) (omega (arith, from)))
    | inr other ↦ rw other refl
  ]

  mark-dropped : (c : ℕ) → is_mark c ≡ true → select is_alnum (lower c) ≡ []
  mark-dropped c h = elim (Bool-cases (c == b' ')) [
    | inl e ↦
        let same : c ≡ b' ' = ground arith in rw (same, laws.lower_space, laws.space_alnum) refl
    | inr e ↦ let same : c ≡ b'-' = ground arith in rw (same, laws.lower_dash, laws.dash_alnum) refl
  ]

  module _ (sha256 : Text → ℕ) where
    normalize_code-cons :
        (c : ℕ) (code : Text)
        → normalize_code lower is_alnum sha256 (c ∷ code)
          ≡ select is_alnum (lower c) ++ normalize_code lower is_alnum sha256 code
    unfolding normalize_code lower_text
    normalize_code-cons c code = select-append is_alnum (lower c) _

    normalize_code-printed :
        (code : Text)
        → normalize_code lower is_alnum sha256 (printed code)
          ≡ normalize_code lower is_alnum sha256 code
    normalize_code-printed [] = refl
    normalize_code-printed (c ∷ code) = elim (Bool-cases (is_mark c)) [
      | inl e ↦ rw (e, normalize_code-cons c code, mark-dropped c e) (normalize_code-printed code)
      | inr e ↦
          rw
            (
              e,
              normalize_code-cons (capital c) (printed code),
              normalize_code-cons c code,
              lower-capital c,
              normalize_code-printed code,
            )
            refl
    ]

    abbrev mark : ℕ → Text → ℕ → RecoveryCode → RecoveryCode
    mark user code now row =
        if is_unused lower is_alnum sha256 user code row
        then record row { used_at = some now }
        else row

    marked_used :
        (user : ℕ) (code again : Text) (now : ℕ) (row : RecoveryCode)
        → normalize_code lower is_alnum sha256 again ≡ normalize_code lower is_alnum sha256 code
        → is_unused lower is_alnum sha256 user again (mark user code now row) ≡ false
    unfolding is_unused hash_code
    marked_used user code again now row e = rw e (ground arith)

    none_left :
        (db : List RecoveryCode) (user : ℕ) (code again : Text) (now : ℕ)
        → normalize_code lower is_alnum sha256 again ≡ normalize_code lower is_alnum sha256 code
        → select (is_unused lower is_alnum sha256 user again) (map (mark user code now) db) ≡ []
    none_left [] user code again now e = refl
    none_left (row ∷ db) user code again now e =
        rw (marked_used user code again now row e) (none_left db user code again now e)

    -- A recovery code is refused after it has been tried once, also where it is typed with other
    -- spaces and dashes, or with ASCII letters in the other case: where `lower` and `isalnum` are
    -- as documented for these.
    pub use_recovery_code_once :
        (db : List RecoveryCode) (user : ℕ) (code again : Text) (now later : ℕ)
        → printed again ≡ printed code
        → (use_recovery_code lower is_alnum sha256
            (use_recovery_code lower is_alnum sha256 db user code now).1
            user
            again
            later).0
          ≡ false
    unfolding use_recovery_code
    use_recovery_code_once db user code again now later same =
        rw
          (none_left db user code again now (
            sym (normalize_code-printed again)
            ∙ ap (normalize_code lower is_alnum sha256) same
            ∙ normalize_code-printed code))
          refl
