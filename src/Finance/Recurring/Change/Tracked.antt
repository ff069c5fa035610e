-- ===== src/Finance/Recurring/Change/Tracked.antt =====
-- A payee is tracked once from an account: the table of subscriptions keeps this through every
-- operation.
use cashcove.Base.{
  ℕ, ◌≡◌, refl, ap, ◌⊎◌, inl, inr, Bool, true, false, not, ◌&&◌, some, List, [], ◌∷◌, ◌++◌, ◌==◌,
  All, find, is_some, Bool-cases, arith,
}
use cashcove.Base.Text.{Text, text_eq}
use cashcove.Finance.Store.{Subscription}
use cashcove.Finance.Recurring.{stored}

text_eq-sym : (a b : Text) → text_eq a b ≡ text_eq b a
text_eq-sym [] [] = refl
text_eq-sym [] (y ∷ b) = refl
text_eq-sym (x ∷ a) [] = refl
text_eq-sym (x ∷ a) (y ∷ b) = ground (arith, text_eq-sym a b)

pub find-none :
    (p : Subscription → Bool) (rows : List Subscription)
    → is_some (find p rows) ≡ false
    → All (λ s. p s ≡ false) rows
find-none p [] h = tt
find-none p (s ∷ rows) h = elim (Bool-cases (p s)) [
  | inl e ↦ cc (rw e at h)
  | inr e ↦ (e, find-none p rows (rw e at h))
]

pub find-All :
    (P : Subscription → Type 0) (p : Subscription → Bool) (rows : List Subscription)
    (s : Subscription)
    → All P rows
    → find p rows ≡ some s
    → P s × (p s ≡ true)
find-All P p [] s h e = cc
find-All P p (t ∷ rows) s h e = elim (Bool-cases (p t)) [
  | inl hit ↦ let same : t ≡ s = cc (rw hit at e) in rw (← same) (h.0, hit)
  | inr miss ↦ find-All P p rows s h.1 (rw miss at e)
]

module _ (normalized : Text → Text) where
  -- Different rows, and not for the same payee from the same account.
  abbrev pub apart : Subscription → Subscription → Bool
  apart s t =
      not (s.id == t.id)
      && not (s.account_id == t.account_id && text_eq (normalized s.payee) (normalized t.payee))

  abbrev pub IsTrackedOnce : List Subscription → Type 0
  IsTrackedOnce [] = Unit
  IsTrackedOnce (s ∷ rows) = All (λ t. apart s t ≡ true) rows × IsTrackedOnce rows

  apart-sym : (s t : Subscription) → apart s t ≡ true → apart t s ≡ true
  apart-sym s t h = ground (arith, text_eq-sym (normalized s.payee) (normalized t.payee))

  -- The row with this id, or one apart from it.
  abbrev pub FromOthers : Subscription → Subscription → Type 0
  FromOthers s t = ((t.id == s.id) ≡ true) ⊎ (apart t s ≡ true)

  All-append :
      (s : Subscription) (P : Subscription → Type 0) (rows : List Subscription)
      → All P rows
      → P s
      → All P (rows ++ s ∷ [])
  All-append s P [] h p = (p, tt)
  All-append s P (t ∷ rows) h p = (h.0, All-append s P rows h.1 p)

  pub append-IsTrackedOnce :
      (s : Subscription) (rows : List Subscription)
      → IsTrackedOnce rows
      → All (λ t. apart t s ≡ true) rows
      → IsTrackedOnce (rows ++ s ∷ [])
  append-IsTrackedOnce s [] h a = (tt, tt)
  append-IsTrackedOnce s (t ∷ rows) h a =
      (All-append s (λ u. apart t u ≡ true) rows h.0 a.0, append-IsTrackedOnce s rows h.1 a.1)

  -- The rows after the one replaced have other ids, and stay.
  stored_rest :
      (s t : Subscription) (rows : List Subscription)
      → (t.id == s.id) ≡ true
      → All (λ u. apart t u ≡ true) rows
      → All (FromOthers s) rows
      → All (λ u. apart s u ≡ true) (stored s rows) × (stored s rows ≡ rows)
  unfolding stored
  stored_rest s t [] e h a = (tt, refl)
  stored_rest s t (u ∷ rows) e h a =
      let rest = stored_rest s t rows e h.1 a.1 in
      let other : (u.id == s.id) ≡ false = ground arith in
      let far : apart u s ≡ true = elim a.0 [ inl same ↦ cc (same, other) | inr far ↦ far ] in
      rw other ((apart-sym u s far, rest.0), ap (λ l. u ∷ l) rest.1)

  stored_before :
      (s t : Subscription) (rows : List Subscription)
      → apart t s ≡ true
      → All (λ u. apart t u ≡ true) rows
      → All (λ u. apart t u ≡ true) (stored s rows)
  unfolding stored
  stored_before s t [] far h = tt
  stored_before s t (u ∷ rows) far h = elim (Bool-cases (u.id == s.id)) [
    | inl e ↦ rw e (far, stored_before s t rows far h.1)
    | inr e ↦ rw e (h.0, stored_before s t rows far h.1)
  ]

  pub stored-IsTrackedOnce :
      (s : Subscription) (rows : List Subscription)
      → IsTrackedOnce rows
      → All (FromOthers s) rows
      → IsTrackedOnce (stored s rows)
  unfolding stored
  stored-IsTrackedOnce s [] h a = tt
  stored-IsTrackedOnce s (t ∷ rows) h a = elim (Bool-cases (t.id == s.id)) [
    | inl e ↦ let rest = stored_rest s t rows e h.0 a.1 in rw e (rest.0, rw rest.1 h.1)
    | inr e ↦
        let far : apart t s ≡ true = elim a.0 [ inl same ↦ cc (same, e) | inr far ↦ far ] in
        rw e (stored_before s t rows far h.0, stored-IsTrackedOnce s rows h.1 a.1)
  ]

  -- Of a row in the table, every other one is apart.
  pub found-FromOthers :
      (id : ℕ) (s : Subscription) (rows : List Subscription)
      → IsTrackedOnce rows
      → find (λ t. t.id == id) rows ≡ some s
      → All (FromOthers s) rows
  found-FromOthers id s [] h e = tt
  found-FromOthers id s (t ∷ rows) h e = elim (Bool-cases (t.id == id)) [
    | inl hit ↦
        let same : t ≡ s = cc (rw hit at e) in
        (inl (ground (arith, ap (λ u. u.id) same)), others t s rows same h.0)
    | inr miss ↦ (
      inr (find-All (λ u. apart t u ≡ true) (λ u. u.id == id) rows s h.0 (rw miss at e)).0,
      found-FromOthers id s rows h.1 (rw miss at e),
    )
  ]
    where
      others :
          (t s : Subscription) (rows : List Subscription)
          → t ≡ s
          → All (λ u. apart t u ≡ true) rows
          → All (FromOthers s) rows
      others t s [] same h = tt
      others t s (u ∷ rows) same h =
          (inr (rw (← same) (apart-sym t u h.0)), others t s rows same h.1)
