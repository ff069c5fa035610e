-- ===== src/Alerts/Worker/Episodes.antt =====
-- Low balances: one event for each time that a balance falls below the threshold.
use mathlib.Core.Path.{subst}
use cashcove.Base.{
  ℕ, ◌+◌, Bool, true, false, not, ◌&&◌, Option, none, some, List, [], ◌∷◌, if◌then◌else◌, any_b,
  map, select, ◌==◌, ==_iff, ◌≡◌, refl, ap, ◌∙◌, arith, or_false, or_true, Bool-cases, Option-cases,
  inl, inr, ℤ, All,
}
use cashcove.Finance.Ledger.{LedgerAccount, AreDistinct}
use cashcove.Alerts.Delivery.{Notice, low_balance, balance_event}
use cashcove.Alerts.Worker.{
  AlertState, state_of, put_state, state_or_new, is_low, crossed, low_notice, retired, look_at,
  low_balance_notices,
}

-- What one check reads.
pub record Check : Type 0 where
  pub accounts : List LedgerAccount
  pub threshold : ℤ
  pub enabled : Bool

-- The states after the checks, the latest first.
unfoldable pub states_after : List Check → List AlertState
states_after [] = []
states_after (c ∷ before) =
    (low_balance_notices c.accounts c.threshold c.enabled (states_after before)).1

-- Whether the check finds the account, open and with a low balance.
unfoldable pub finds_low : Check → ℕ → Bool
finds_low c id =
    any_b (λ (a : LedgerAccount). a.id == id && is_low c.threshold c.enabled a) c.accounts

abbrev pub was_low : List Check → ℕ → Bool
was_low [] id = false
was_low (c ∷ before) id = finds_low c id

-- How often a check found the account low that was not low at the check before.
unfoldable pub falls : List Check → ℕ → ℕ
falls [] id = 0
falls (c ∷ before) id =
    if finds_low c id && not (was_low before id) then falls before id + 1 else falls before id

state_of-put_state :
    (state : AlertState) (states : List AlertState) (id : ℕ)
    → state_of (put_state state states) id
      ≡ (if state.account_id == id then some state else state_of states id)
unfolding state_of put_state
state_of-put_state state [] id = refl
state_of-put_state state (s ∷ states) id = elim (Bool-cases (s.account_id == state.account_id)) [
  | inl e ↦ rw e (ground arith)
  | inr e ↦ elim (Bool-cases (s.account_id == id)) [
    | inl f ↦ rw (e, f) (ground arith)
    | inr f ↦ rw (e, f) (state_of-put_state state states id)
  ]
]

-- What the state of an account tells: whether it was low, and the number of its episode.
unfoldable pub facts : Option AlertState → Bool × ℕ
facts none = (false, 0)
facts (some s) = (s.active, s.episode)

abbrev state_facts : List AlertState → ℕ → Bool × ℕ
state_facts states id = facts (state_of states id)

-- What a check makes of the facts.
unfoldable pub next_facts : Bool → Bool × ℕ → Bool × ℕ
next_facts low (active, episode) = (low, if low && not active then episode + 1 else episode)

has_id : ℕ → List LedgerAccount → Bool
has_id id accounts = any_b (λ (a : LedgerAccount). a.id == id) accounts

state_of-id :
    (states : List AlertState) (id : ℕ) (s : AlertState)
    → state_of states id ≡ some s
    → s.account_id ≡ id
unfolding state_of
state_of-id [] id s h = cc
state_of-id (t ∷ states) id s h = ground (arith, state_of-id states id s)

retired_id :
    (accounts : List LedgerAccount) (s : AlertState)
    → (retired accounts s).account_id ≡ s.account_id
unfolding retired
retired_id accounts s = ground arith

state_of-retired :
    (accounts : List LedgerAccount) (states : List AlertState) (id : ℕ)
    → state_of (map (retired accounts) states) id
      ≡ (elim (state_of states id) [ none ↦ none | some s ↦ some (retired accounts s) ])
unfolding state_of
state_of-retired accounts [] id = refl
state_of-retired accounts (s ∷ states) id =
    rw (ap (λ (n : ℕ). n == id) (retired_id accounts s)) (elim (Bool-cases (s.account_id == id)) [
      | inl e ↦ rw e refl
      | inr e ↦ rw e (state_of-retired accounts states id)
    ])

facts-retired :
    (accounts : List LedgerAccount) (s : AlertState)
    → facts (some (retired accounts s))
      ≡ (if has_id s.account_id accounts then facts (some s) else (false, s.episode))
unfolding retired facts has_id
facts-retired accounts s = ground arith

state_facts-retired :
    (accounts : List LedgerAccount) (states : List AlertState) (id : ℕ)
    → state_facts (map (retired accounts) states) id
      ≡ (if has_id id accounts then state_facts states id else (false, (state_facts states id).1))
state_facts-retired accounts states id =
    rw (state_of-retired accounts states id) (elim (Option-cases (state_of states id)) [
      | inl e ↦ rw e (unfold facts in (ground arith))
      | inr (s, e) ↦
          rw e (rw (facts-retired accounts s, state_of-id states id s e) (unfold facts in refl))
    ])

crossed_id : (low : Bool) (s : AlertState) → (crossed low s).account_id ≡ s.account_id
unfolding crossed
crossed_id low s = ground arith

state_or_new-id :
    (states : List AlertState) (id : ℕ) → (state_or_new (state_of states id) id).account_id ≡ id
unfolding state_or_new
state_or_new-id states id = elim (Option-cases (state_of states id)) [
  | inl e ↦ rw e refl
  | inr (s, e) ↦ rw e (state_of-id states id s e)
]

facts-crossed :
    (low : Bool) (o : Option AlertState) (id : ℕ)
    → facts (some (crossed low (state_or_new o id))) ≡ next_facts low (facts o)
unfolding crossed facts next_facts state_or_new
facts-crossed low none id = ground arith
facts-crossed low (some s) id = ground arith

-- One account looked at.
abbrev looked : Bool → List AlertState → ℕ → List AlertState
looked low states id = put_state (crossed low (state_or_new (state_of states id) id)) states

state_facts-looked :
    (low : Bool) (states : List AlertState) (own id : ℕ)
    → state_facts (looked low states own) id
      ≡ (if own == id then next_facts low (state_facts states own) else state_facts states id)
state_facts-looked low states own id =
    rw
      (
        state_of-put_state (crossed low (state_or_new (state_of states own) own)) states id,
        ap (λ (n : ℕ). n == id)
            (crossed_id low (state_or_new (state_of states own) own) ∙ state_or_new-id states own),
      )
      (elim (Bool-cases (own == id)) [
        | inl e ↦ rw e (facts-crossed low (state_of states own) own)
        | inr e ↦ rw e refl
      ])

-- No account of the list has the id, so none is found by it and another property.
has_id-none :
    (q : LedgerAccount → Bool) (accounts : List LedgerAccount) (id : ℕ)
    → has_id id accounts ≡ false
    → any_b (λ a. a.id == id && q a) accounts ≡ false
unfolding has_id
has_id-none q [] id h = refl
has_id-none q (a ∷ accounts) id h = ground (arith, has_id-none q accounts id)

abbrev low_among : ℤ → Bool → ℕ → List LedgerAccount → Bool
low_among threshold enabled id accounts =
    any_b (λ (a : LedgerAccount). a.id == id && is_low threshold enabled a) accounts

state_facts-look_at :
    (threshold : ℤ) (enabled : Bool) (accounts : List LedgerAccount) (states : List AlertState)
    (id : ℕ)
    → AreDistinct accounts
    → state_facts (look_at threshold enabled accounts states).1 id ≡ (
        if has_id id accounts
        then next_facts (low_among threshold enabled id accounts) (state_facts states id)
        else state_facts states id)
unfolding look_at has_id
state_facts-look_at threshold enabled [] states id h = refl
state_facts-look_at threshold enabled (a ∷ accounts) states id h =
    let low = is_low threshold enabled a in
    let rest = state_facts-look_at threshold enabled accounts (looked low states a.id) id h.1 in
    let here = state_facts-looked low states a.id id in
    elim (Bool-cases (a.id == id)) [
      | inl e ↦
          let same = (==_iff a.id id).0 e in
          let gone =
            subst (λ n. any_b (λ (b : LedgerAccount). b.id == n) accounts ≡ false) same h.0 in
          rest
          ∙ rw
              (
                gone,
                here,
                e,
                has_id-none (λ b. is_low threshold enabled b) accounts id gone,
                or_false low,
              )
              (ap (λ n. next_facts low (state_facts states n)) same)
      | inr e ↦ rest ∙ rw (here, e) refl
    ]

state_facts-low_balance_notices :
    (threshold : ℤ) (enabled : Bool) (accounts : List LedgerAccount) (states : List AlertState)
    (id : ℕ)
    → AreDistinct accounts
    → state_facts (low_balance_notices accounts threshold enabled states).1 id
      ≡ next_facts (low_among threshold enabled id accounts) (state_facts states id)
unfolding low_balance_notices next_facts
state_facts-low_balance_notices threshold enabled accounts states id h =
    state_facts-look_at threshold enabled accounts (map (retired accounts) states) id h
    ∙ rw (state_facts-retired accounts states id) (elim (Bool-cases (has_id id accounts)) [
      | inl e ↦ rw e refl
      | inr e ↦ rw (e, has_id-none (λ b. is_low threshold enabled b) accounts id e) refl
    ])

abbrev AllDistinct : List Check → Type 0
AllDistinct checks = All (λ (c : Check). AreDistinct c.accounts) checks

state_facts-states_after :
    (checks : List Check) (id : ℕ)
    → AllDistinct checks
    → state_facts (states_after checks) id ≡ (was_low checks id, falls checks id)
unfolding states_after falls finds_low
state_facts-states_after [] id h = unfold facts state_of in refl
state_facts-states_after (c ∷ before) id h =
    state_facts-low_balance_notices c.threshold c.enabled c.accounts (states_after before) id h.0
    ∙ rw (state_facts-states_after before id h.1) (unfold next_facts in refl)

-- The event of an account's episode.
unfoldable pub fall_notice : ℕ → ℕ → Notice
fall_notice id episode = record {
  alert_type = low_balance;
  event_key = balance_event id episode;
  subject_id = none;
}

map-select {ℓ} :
    {B : Type ℓ} (f g : LedgerAccount → B) (p : LedgerAccount → Bool) (xs : List LedgerAccount)
    → All (λ a. p a ≡ true → f a ≡ g a) xs
    → map f (select p xs) ≡ map g (select p xs)
map-select f g p [] h = refl
map-select f g p (x ∷ xs) h = elim (Bool-cases (p x)) [
  | inl e ↦ rw (e, h.0 e, map-select f g p xs h.1) refl
  | inr e ↦ rw e (map-select f g p xs h.1)
]

-- The accounts after the first have other ids.
others :
    {P : LedgerAccount → Type 0} (id : ℕ) (accounts : List LedgerAccount)
    → has_id id accounts ≡ false
    → ((a : LedgerAccount) → (a.id == id) ≡ false → P a)
    → All P accounts
unfolding has_id
others id [] h f = tt
others id (a ∷ accounts) h f = (f a (ground arith), others id accounts (ground arith) f)

crossed_notice :
    (id : ℕ) (states : List AlertState)
    → low_notice (crossed true (state_or_new (state_of states id) id))
      ≡ fall_notice id (next_facts true (state_facts states id)).1
unfolding low_notice fall_notice facts
crossed_notice id states =
    let state = state_or_new (state_of states id) id in
    let same = crossed_id true state ∙ state_or_new-id states id in
    let number = ap (λ (p : Bool × ℕ). p.1) (facts-crossed true (state_of states id) id) in
    λ i. record {
      alert_type = low_balance;
      event_key = balance_event (same i) (number i);
      subject_id = none;
    }

-- The event of the next episode of an account, if it is one.
abbrev told : List AlertState → LedgerAccount → Notice
told states a = fall_notice a.id (next_facts true (state_facts states a.id)).1

-- Looking at an account does not change what is told of those after it.
told-looked :
    (low : Bool) (own : ℕ) (states : List AlertState) (a : LedgerAccount)
    → (a.id == own) ≡ false
    → told (looked low states own) a ≡ told states a
told-looked low own states a h = rw (state_facts-looked low states own a.id, differ own a.id h) refl
  where
    differ : (m n : ℕ) → (n == m) ≡ false → (m == n) ≡ false
    differ m n h = ground arith

look_at-notices :
    (threshold : ℤ) (enabled : Bool) (accounts : List LedgerAccount) (states : List AlertState)
    → AreDistinct accounts
    → (look_at threshold enabled accounts states).0
      ≡ map (told states) (select (is_low threshold enabled) accounts)
unfolding look_at has_id
look_at-notices threshold enabled [] states h = refl
look_at-notices threshold enabled (a ∷ accounts) states h =
    let low = is_low threshold enabled a in
    let rest =
      look_at-notices threshold enabled accounts (looked low states a.id) h.1
      ∙ map-select (told (looked low states a.id)) (told states) (is_low threshold enabled) accounts
          (others a.id accounts h.0 (λ b differs low_b. told-looked low a.id states b differs)) in
    elim (Bool-cases (is_low threshold enabled a)) [
      | inl e ↦ rw e (let after = rw e at rest in λ i. crossed_notice a.id states i ∷ after i)
      | inr e ↦ rw e (rw e at rest)
    ]

-- A property of every account that is told for a test, from the tests that find the account.
All-found :
    {P : LedgerAccount → Type 0} (xs zs : List LedgerAccount)
    → ((q : LedgerAccount → Bool) → any_b q xs ≡ true → any_b q zs ≡ true)
    → ((a : LedgerAccount) → ((q : LedgerAccount → Bool) → q a ≡ true → any_b q zs ≡ true) → P a)
    → All P xs
All-found [] zs h f = tt
All-found (x ∷ xs) zs h f =
    (f x (λ q e. h q (rw e refl)), All-found xs zs (λ q e. h q (rw e (or_true (q x)))) f)

told-retired :
    (accounts : List LedgerAccount) (states : List AlertState) (a : LedgerAccount)
    → has_id a.id accounts ≡ true
    → told (map (retired accounts) states) a ≡ told states a
told-retired accounts states a h = rw (state_facts-retired accounts states a.id, h) refl

told-falls :
    (c : Check) (before : List Check) (a : LedgerAccount)
    → AllDistinct (c ∷ before)
    → finds_low c a.id ≡ true
    → told (states_after before) a ≡ fall_notice a.id (falls (c ∷ before) a.id)
unfolding falls next_facts
told-falls c before a h low = rw (state_facts-states_after before a.id h.1, low) refl

-- A check of the balances, after any checks before it, notifies of exactly the open accounts whose
-- balance is below the threshold while the alert is on, in order. The event of each is the number
-- of times that a check found it low which the check before had not, so an account that stays low
-- keeps its event and one that falls again has a new one; for checks that list each account once.
pub low_balance_notices-falls :
    (c : Check) (before : List Check)
    → AllDistinct (c ∷ before)
    → (low_balance_notices c.accounts c.threshold c.enabled (states_after before)).0
      ≡ map
          (λ (a : LedgerAccount). fall_notice a.id (falls (c ∷ before) a.id))
          (select (is_low c.threshold c.enabled) c.accounts)
unfolding low_balance_notices
low_balance_notices-falls c before h =
    look_at-notices c.threshold c.enabled c.accounts
      (map (retired c.accounts) (states_after before)) h.0
    ∙ map-select (told (map (retired c.accounts) (states_after before)))
        (λ a. fall_notice a.id (falls (c ∷ before) a.id)) (is_low c.threshold c.enabled) c.accounts
        (All-found c.accounts c.accounts (λ q e. e)
          (λ a found low.
            told-retired c.accounts (states_after before) a
              (unfold has_id in found (λ b. b.id == a.id) (ground arith))
            ∙ told-falls c before a h (
                unfold finds_low in
                found (λ b. b.id == a.id && is_low c.threshold c.enabled b)
                  (rw low (ground arith)))))
