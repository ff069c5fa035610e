-- ===== src/Auth/Challenges/SingleUse.antt =====
-- A challenge is used up by the first claim, and only by the right token, purpose and time.
use cashcove.Base.{
  ℕ, ◌+◌, ◌≤◌, ◌<◌, ◌≡◌, refl, ap, Bool, true, false, not, Option, none, some, [], ◌∷◌, leb, ◌==◌,
  select, find, All, arith, Bool-cases, inl, inr,
}
use cashcove.Auth.Challenges.{
  Purpose, AuthChallenge, Challenges, nothing, one, one_or_none, claimed_of, create, answers,
  find_challenge, claim, purge_expired,
}

select-select-not :
    (p q : AuthChallenge → Bool) (xs : Challenges)
    → ((x : AuthChallenge) → q x ≡ true → p x ≡ true)
    → select q (select (λ x. not (p x)) xs) ≡ []
select-select-not p q [] h = refl
select-select-not p q (x ∷ xs) h = elim (Bool-cases (p x)) [
  | inl e ↦ rw e (select-select-not p q xs h)
  | inr e ↦ elim (Bool-cases (q x)) [
    | inl k ↦ cc (h x k)
    | inr k ↦ rw (e, k) (select-select-not p q xs h)
  ]
]

select-none : (q : AuthChallenge → Bool) (xs : Challenges) → find q xs ≡ none → select q xs ≡ []
select-none q [] h = refl
select-none q (x ∷ xs) h = ground (arith, select-none q xs)

find-select :
    (p q : AuthChallenge → Bool) (xs : Challenges)
    → ((x : AuthChallenge) → q x ≡ true → p x ≡ true)
    → find q (select p xs) ≡ find q xs
find-select p q [] h = refl
find-select p q (x ∷ xs) h = ground (arith, h x, find-select p q xs h)

select-weaken :
    (p q : AuthChallenge → Bool) (xs : Challenges)
    → ((x : AuthChallenge) → q x ≡ true → p x ≡ true)
    → select q (select p xs) ≡ select q xs
select-weaken p q [] h = refl
select-weaken p q (x ∷ xs) h = elim (Bool-cases (p x)) [
  | inl e ↦ elim (Bool-cases (q x)) [
    | inl k ↦ rw (e, k) (ap (λ l. x ∷ l) (select-weaken p q xs h))
    | inr k ↦ rw (e, k) (select-weaken p q xs h)
  ]
  | inr e ↦ elim (Bool-cases (q x)) [
    | inl k ↦ cc (h x k)
    | inr k ↦ rw (e, k) (select-weaken p q xs h)
  ]
]

module _ (hash_token : ℕ → ℕ) where
  answers-earlier :
      (token : ℕ) (purpose : Purpose) (now later : ℕ) (row : AuthChallenge)
      → now ≤ later
      → answers hash_token token purpose later row ≡ true
      → answers hash_token token purpose now row ≡ true
  unfolding answers
  answers-earlier token purpose now later row h k = ground arith

  -- Of two claims of one challenge, whatever the first one got, the second gets nothing.
  pub claim-claim :
      (db : Challenges) (token : ℕ) (purpose : Purpose) (now later : ℕ)
      → now ≤ later
      → (claim hash_token (claim hash_token db token purpose now).1 token purpose later).0 ≡ nothing
  unfolding claim one_or_none
  claim-claim db token purpose now later h =
      rw
        (select-select-not (answers hash_token token purpose now)
          (answers hash_token token purpose later) db
          (λ x k. answers-earlier token purpose now later x h k))
        refl

  fresh-select :
      (db : Challenges) (token : ℕ) (purpose : Purpose) (now : ℕ)
      → All (λ row. (row.token_hash == hash_token token) ≡ false) db
      → select (answers hash_token token purpose now) db ≡ []
  unfolding answers
  fresh-select [] token purpose now h = refl
  fresh-select (x ∷ db) token purpose now h = rw h.0 (fresh-select db token purpose now h.1)

  created_answers :
      (db : Challenges) (token : ℕ) (purpose : Purpose) (lifetime now later : ℕ) (user : Option ℕ)
      (content : ℕ)
      → later < now + lifetime
      → answers hash_token token purpose later
          (create hash_token db token purpose lifetime now user content).0
        ≡ true
  unfolding create answers
  created_answers db token purpose lifetime now later user content h = ground arith

  -- A challenge made with a token that no other one has is handed over, with the user and the data
  -- that it was made with, to a claim with that token and purpose before it expires.
  claim-create :
      (db : Challenges) (token : ℕ) (purpose : Purpose) (lifetime now later : ℕ) (user : Option ℕ)
      (content : ℕ)
      → All (λ row. (row.token_hash == hash_token token) ≡ false) db
      → later < now + lifetime
      → (claim hash_token
          (create hash_token db token purpose lifetime now user content).1
          token
          purpose
          later).0
        ≡ one (record { user_id = user; content = content })
  unfolding claim create one_or_none
  claim-create db token purpose lifetime now later user content new h =
      rw
        (
          created_answers db token purpose lifetime now later user content h,
          fresh-select db token purpose later new,
        )
        refl

  -- What does not answer to a claim (another token or purpose, or expired) is left in the table, so
  -- that a claim which gets nothing changes nothing.
  untouched :
      (db : Challenges) (p : AuthChallenge → Bool)
      → select p db ≡ []
      → select (λ row. not (p row)) db ≡ db
  untouched [] p h = refl
  untouched (x ∷ db) p h = elim (Bool-cases (p x)) [
    | inl e ↦ cc (rw e at h)
    | inr e ↦ rw e (ap (λ l. x ∷ l) (untouched db p (rw e at h)))
  ]

  nothing-select : (rows : Challenges) → claimed_of (one_or_none rows) ≡ nothing → rows ≡ []
  unfolding one_or_none
  nothing-select [] h = refl
  nothing-select (x ∷ []) h = cc
  nothing-select (x ∷ y ∷ rest) h = cc

  -- A claim that gets nothing leaves the table as it was.
  pub claim-nothing :
      (db : Challenges) (token : ℕ) (purpose : Purpose) (now : ℕ)
      → (claim hash_token db token purpose now).0 ≡ nothing
      → (claim hash_token db token purpose now).1 ≡ db
  unfolding claim
  claim-nothing db token purpose now h =
      untouched db (answers hash_token token purpose now) (nothing-select _ h)

  still_valid :
      (token : ℕ) (purpose : Purpose) (now later : ℕ) (row : AuthChallenge)
      → now ≤ later
      → answers hash_token token purpose later row ≡ true
      → not (leb row.expires_at now) ≡ true
  unfolding answers
  still_valid token purpose now later row h k = ground arith

  -- Purging what has expired changes no later search and no later claim.
  pub purge_expired-unseen :
      (db : Challenges) (token : ℕ) (purpose : Purpose) (now later : ℕ)
      → now ≤ later
      → (find_challenge hash_token (purge_expired db now) (some token) purpose later
          ≡ find_challenge hash_token db (some token) purpose later)
        × ((claim hash_token (purge_expired db now) token purpose later).0
            ≡ (claim hash_token db token purpose later).0)
  unfolding purge_expired find_challenge claim
  purge_expired-unseen db token purpose now later h = (
    find-select _ _ db (λ x k. still_valid token purpose now later x h k),
    ap (λ rows. claimed_of (one_or_none rows))
        (select-weaken _ _ db (λ x k. still_valid token purpose now later x h k)),
  )
