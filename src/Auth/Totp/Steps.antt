-- ===== src/Auth/Totp/Steps.antt =====
-- Which step `matching_step` finds.
use cashcove.Base.Text.{Text, text_eq, is_ascii, text_eq→eq, text_eq_refl}
use cashcove.Base.{
  ℕ, ◌+◌, ◌-◌, ◌<◌, ◌≡◌, refl, ap, ◌⊎◌, inl, inr, Bool, true, false, ◌&&◌, Option, none, some, List,
  [], ◌∷◌, leb, Any, All, Bool-cases, arith,
}
use cashcove.Auth.Totp.{
  Text, ok, type_error, text_eq, is_ascii, compare_digest, tidy, is_code, is_used, first_match,
  matching_step,
}

-- The step comes after the last one used.
abbrev pub IsAfter : Option ℕ → ℕ → Type 0
IsAfter none step = Unit
IsAfter (some last) step = last < step

IsAfter-cases :
    (last : Option ℕ) (step : ℕ)
    → (IsAfter last step × (is_used last step ≡ false))
      ⊎ ((is_used last step ≡ true) × ¬ IsAfter last step)
unfolding is_used
IsAfter-cases none step = inl (tt, refl)
IsAfter-cases (some l) step = elim (Bool-cases (leb step l)) [
  | inl e ↦ inr (e, λ h. absurd (ground arith))
  | inr e ↦ inl (ground arith, e)
]

module _ (is_space is_digit : ℕ → Bool) (otp : ℕ → ℕ → Text) (secret : ℕ) (last : Option ℕ) where
  -- A step that may be used, and whose code is the one given.
  abbrev pub Answers : Text → ℕ → Type 0
  Answers code step = IsAfter last step × (otp secret step ≡ code)

  first_match_sound :
      (code : Text) (steps : List ℕ) (step : ℕ)
      → first_match is_space is_digit otp secret code last steps ≡ ok (some step)
      → Any (λ s. s ≡ step) steps × Answers code step
  unfolding first_match compare_digest
  first_match_sound code [] step h = cc
  first_match_sound code (s ∷ steps) step h = elim (IsAfter-cases last s) [
    | inr used ↦
        let rest = first_match_sound code steps step (rw used.0 at h) in (inr rest.0, rest.1)
    | inl fresh ↦ elim (Bool-cases (is_ascii (otp secret s) && is_ascii code)) [
      | inr e ↦ cc (rw (fresh.1, e) at h)
      | inl e ↦ elim (Bool-cases (text_eq (otp secret s) code)) [
        | inl same ↦
            let found : s ≡ step = cc (rw (fresh.1, e, same) at h) in
            (inl found, rw (← found) (fresh.0, text_eq→eq _ _ same))
        | inr differ ↦
            let rest = first_match_sound code steps step (rw (fresh.1, e, differ) at h) in
            (inr rest.0, rest.1)
      ]
    ]
  ]

  first_match-none :
      (code : Text) (steps : List ℕ)
      → first_match is_space is_digit otp secret code last steps ≡ ok none
      → All (λ s. ¬ Answers code s) steps
  unfolding first_match compare_digest
  first_match-none code [] h = tt
  first_match-none code (s ∷ steps) h = elim (IsAfter-cases last s) [
    | inr used ↦ (λ a. used.1 a.0, first_match-none code steps (rw used.0 at h))
    | inl fresh ↦ elim (Bool-cases (is_ascii (otp secret s) && is_ascii code)) [
      | inr e ↦ cc (rw (fresh.1, e) at h)
      | inl e ↦ elim (Bool-cases (text_eq (otp secret s) code)) [
        | inl same ↦ cc (rw (fresh.1, e, same) at h)
        | inr differ ↦ (
          λ a. cc (differ, ap (text_eq (otp secret s)) a.1, text_eq_refl (otp secret s)),
          first_match-none code steps (rw (fresh.1, e, differ) at h),
        )
      ]
    ]
  ]

  abbrev pub candidates : ℕ → List ℕ
  candidates current = (current - 1) ∷ current ∷ (current + 1) ∷ []

  -- A step that is found is the current one or one next to it, comes after the last one used, and
  -- has the code given, once spaces are taken out of that.
  pub matching_step_sound :
      (text : Text) (current step : ℕ)
      → matching_step is_space is_digit otp secret text current last ≡ ok (some step)
      → Any (λ s. s ≡ step) (candidates current) × Answers (tidy is_space is_digit text) step
  unfolding matching_step
  matching_step_sound text current step h =
      elim (Bool-cases (is_code is_space is_digit (tidy is_space is_digit text))) [
        | inl e ↦
            first_match_sound (tidy is_space is_digit text) (candidates current) step (rw e at h)
        | inr e ↦ cc (rw e at h)
      ]

  -- When a text of six digits matches no step, none of the three steps would have done.
  pub matching_step-none :
      (text : Text) (current : ℕ)
      → is_code is_space is_digit (tidy is_space is_digit text) ≡ true
      → matching_step is_space is_digit otp secret text current last ≡ ok none
      → All (λ s. ¬ Answers (tidy is_space is_digit text) s) (candidates current)
  unfolding matching_step
  matching_step-none text current e h =
      first_match-none (tidy is_space is_digit text) (candidates current) (rw e at h)

  raises-first :
      (code : Text) (steps : List ℕ)
      → is_ascii code ≡ false
      → Any (λ s. IsAfter last s) steps
      → first_match is_space is_digit otp secret code last steps ≡ type_error
  unfolding first_match compare_digest
  raises-first code [] h k = absurd k
  raises-first code (s ∷ steps) h k = elim (IsAfter-cases last s) [
    | inl fresh ↦ rw fresh.1 (ground arith)
    | inr used ↦
        rw used.0 (elim k [ inl a ↦ absurd (used.1 a) | inr a ↦ raises-first code steps h a ])
  ]

  -- Six digits of another script than ASCII pass for a code, and raise `TypeError`, unless even the
  -- next step has been used.
  pub matching_step-raises :
      (text : Text) (current : ℕ)
      → is_code is_space is_digit (tidy is_space is_digit text) ≡ true
      → is_ascii (tidy is_space is_digit text) ≡ false
      → IsAfter last (current + 1)
      → matching_step is_space is_digit otp secret text current last ≡ type_error
  unfolding matching_step
  matching_step-raises text current e h a =
      rw e (raises-first (tidy is_space is_digit text) (candidates current) h (inr (inr (inl a))))
