-- ===== src/Auth/Setup/Codes.antt =====
-- Only the latest setup code works, for thirty days, and once.
use cashcove.Base.{
  ℕ, ◌+◌, ◌≤◌, ◌<◌, ◌≡◌, refl, inl, inr, Bool, true, false, not, [], ◌∷◌, ◌==◌, select, any_b,
  Bool-cases, arith,
}
use cashcove.Base.Text.{Text}
use cashcove.Auth.Challenges.{AuthChallenge, Challenges}
use cashcove.Auth.Setup.{lifetime, is_setup, issued, issue_code, matches, code_is_valid, claim_code}

module _ (hash_code : Text → ℕ) where
  -- With the rows of earlier codes gone, none matches.
  others_out :
      (db : Challenges) (code : Text) (now : ℕ)
      → select (matches hash_code code now) (select (λ row. not (is_setup row)) db) ≡ []
  unfolding matches
  others_out [] code now = refl
  others_out (row ∷ db) code now = elim (Bool-cases (is_setup row)) [
    | inl e ↦ rw e (others_out db code now)
    | inr e ↦ rw (e, e) (others_out db code now)
  ]

  any_select : (p : AuthChallenge → Bool) (db : Challenges) → select p db ≡ [] → any_b p db ≡ false
  any_select p [] h = refl
  any_select p (row ∷ db) h = elim (Bool-cases (p row)) [
    | inl e ↦ cc (rw e at h)
    | inr e ↦ rw e (any_select p db (rw e at h))
  ]

  none_left :
      (p q : AuthChallenge → Bool) (db : Challenges)
      → ((row : AuthChallenge) → q row ≡ true → p row ≡ true)
      → select q (select (λ row. not (p row)) db) ≡ []
  none_left p q [] h = refl
  none_left p q (row ∷ db) h = elim (Bool-cases (p row)) [
    | inl e ↦ rw e (none_left p q db h)
    | inr e ↦ elim (Bool-cases (q row)) [
      | inl k ↦ cc (h row k)
      | inr k ↦ rw (e, k) (none_left p q db h)
    ]
  ]

  matches-earlier :
      (code : Text) (now later : ℕ) (row : AuthChallenge)
      → now ≤ later
      → matches hash_code code later row ≡ true
      → matches hash_code code now row ≡ true
  unfolding matches
  matches-earlier code now later row h k = ground arith

  issued-matches :
      (code : Text) (now later : ℕ)
      → later < now + lifetime
      → matches hash_code code later (issued hash_code code now) ≡ true
  unfolding matches issued
  issued-matches code now later h = ground arith

  issued_differs :
      (code other : Text) (now later : ℕ)
      → (hash_code code == hash_code other) ≡ false
      → matches hash_code other later (issued hash_code code now) ≡ false
  unfolding matches issued
  issued_differs code other now later h = ground arith

  -- A fresh setup code can be claimed for thirty days, and then not again; a code with another hash,
  -- like one issued before, is not valid any more.
  pub issue_code-claim :
      (db : Challenges) (code other : Text) (now later again : ℕ)
      → later < now + lifetime
      → later ≤ again
      → ((claim_code hash_code (issue_code hash_code db code now) code later).0 ≡ true)
        × ((claim_code hash_code
              (claim_code hash_code (issue_code hash_code db code now) code later).1
              code
              again).0
            ≡ false)
        × ((hash_code code == hash_code other) ≡ false
            → code_is_valid hash_code (issue_code hash_code db code now) other later ≡ false)
  unfolding claim_code code_is_valid
  issue_code-claim db code other now later again h k = (
    unfold issue_code in rw (issued-matches code now later h, others_out db code later) refl,
    rw
        (none_left (matches hash_code code later) (matches hash_code code again) _
          (λ row e. matches-earlier code later again row k e))
        refl,
    λ differ.
        unfold issue_code in
        rw (issued_differs code other now later differ)
          (any_select (matches hash_code other later) _ (others_out db other later)),
  )
