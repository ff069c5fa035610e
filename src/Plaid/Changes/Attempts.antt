-- ===== src/Plaid/Changes/Attempts.antt =====
-- How often the pages are read, and which reading counts.
use cashcove.Base.{ℕ, zero, suc, ◌-◌, ◌≤◌, ◌≡◌, refl, inl, inr, true, Bool-cases, arith}
use cashcove.Plaid.Changes.{
  Answer, Reading, done, fails, unfinished, is_mutated, page_attempts, read_pages, again, attempts,
  read_changes,
}

-- A failure because the changes moved while they were read.
abbrev pub IsMutation : Reading → Type 0
IsMutation (fails e) = is_mutated e.code ≡ true
IsMutation (done changes) = ⊥
IsMutation unfinished = ⊥

module _ (answer : ℕ → ℕ → Answer) (bound cursor : ℕ) where
  -- So many attempts in a row failed that way, between two numbers of requests made.
  abbrev pub Moved : ℕ → ℕ → ℕ → Type 0
  Moved zero requests after = requests ≡ after
  Moved (suc n) requests after =
      IsMutation (read_pages answer bound cursor requests).0
      × Moved n (read_pages answer bound cursor requests).1 after

  -- The result is that of one attempt, made after `n` that failed because the changes moved; it can
  -- be such a failure itself only when no attempt was left.
  abbrev pub IsAttempt : ℕ → ℕ → Reading × ℕ → Type 0
  IsAttempt left requests result =
      (n before : ℕ) × (n ≤ left)
      × Moved n requests before
      × (read_pages answer bound cursor before ≡ result)
      × (IsMutation result.0 → n ≡ left)

  round :
      (left requests : ℕ) (r rest : Reading × ℕ)
      → read_pages answer bound cursor requests ≡ r
      → IsAttempt left r.1 rest
      → IsAttempt (suc left) requests (again r rest)
  round left requests (done changes, after) rest e ih =
      (zero, requests, omega arith, refl, e, λ m. absurd m)
  round left requests (unfinished, after) rest e ih =
      (zero, requests, omega arith, refl, e, λ m. absurd m)
  round left requests (fails error, after) rest e (n, before, le, moved, same, last) =
      elim (Bool-cases (is_mutated error.code)) [
        | inl m ↦
            rw m (suc n, before, omega arith, rw e (m, moved), same, λ k. omega (arith, last k))
        | inr m ↦ rw m (zero, requests, omega arith, refl, e, λ k. cc (k, m))
      ]

  attempts-IsAttempt :
      (left requests : ℕ) → IsAttempt left requests (attempts answer bound left cursor requests)
  unfolding attempts
  attempts-IsAttempt zero requests = (zero, requests, omega arith, refl, refl, λ m. refl)
  attempts-IsAttempt (suc left) requests =
      round left requests (read_pages answer bound cursor requests) _ refl
        (attempts-IsAttempt left (read_pages answer bound cursor requests).1)

  -- What reading an account's changes comes to is what one attempt from the same cursor comes to,
  -- whose pages alone count: the first that does not fail because the changes moved while they were
  -- read, or else the third.
  pub read_changes-IsAttempt :
      (requests : ℕ)
      → IsAttempt (page_attempts - 1) requests (read_changes answer bound cursor requests)
  unfolding read_changes
  read_changes-IsAttempt requests = attempts-IsAttempt (page_attempts - 1) requests
