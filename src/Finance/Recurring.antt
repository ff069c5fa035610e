-- ===== src/Finance/Recurring.antt =====
-- Setting up and changing subscriptions and bills (the second half of
-- backend/app/finance/subscriptions.py, `find_category` of backend/app/finance/categories.py, and
-- the bodies of backend/app/schemas/subscriptions.py). A function returns the tables as it leaves
-- them. A request that fails commits nothing, so a failure comes without tables. The payee as
-- Python compares it (`normalized_payee`) and as the database does (`lower(trim(...))`) are
-- parameters.
pub mod Change
use cashcove.Base.{
  ℕ, ◌≡◌, refl, Bool, true, false, not, ◌&&◌, ◌||◌, Option, none, some, List, [], ◌∷◌, ◌++◌, map,
  ◌==◌, if◌then◌else◌, opt_eq, is_some, is_none, length, select, find, ℤ, pos, ltb_ℤ,
}
use cashcove.Base.Text.{Text, text_eq}
use cashcove.Calendar.{Date, date_max}
use cashcove.Finance.Store.{
  Transaction, PaymentFrequency, RecurringKind, subscription, bill, Subscription, Account, Db,
}
use cashcove.Finance.Subscriptions.{
  Outcome, raises, stuck, add_months, due_dates, advance_due_date, is_stopped,
}

-- The codes of the `ApiError`s, and the exceptions of Python itself.
pub data Failure : Type 0 where
  not_found unknown_account closed_account linked_account unknown_category duplicate_rule : Failure
  transaction_not_found not_payment account_mismatch : Failure
  nothing_to_import bank_balance no_closing_balance : Failure
  cancelled_needs_end already_stopped not_stopped : Failure
  -- `[0]` of an empty list; a date outside the years 1 to 9999; a loop out of fuel.
  index_error value_error unfinished : Failure
  -- `NoResultFound`.
  no_row : Failure

pub data Reply {ℓ} (X : Type ℓ) : Type ℓ where
  fails : Failure → Reply X
  ok : X → Reply X

infixl 5 ◌>>=◌
unfoldable pub ◌>>=◌ {ℓ κ} : {X : Type ℓ} {Y : Type κ} → Reply X → (X → Reply Y) → Reply Y
fails why >>= k = fails why
ok x >>= k = k x

-- Fails unless the test holds.
unfoldable pub unless : Bool → Failure → Reply {0} Unit
unless true e = fails e
unless false e = ok tt

unfoldable pub found_or {ℓ} : {A : Type ℓ} → Option A → Failure → Reply A
found_or none e = fails e
found_or (some a) e = ok a

abbrev pub or_else {ℓ} : {A : Type ℓ} → Option A → A → A
or_else none a = a
or_else (some b) a = b

abbrev pub kind_eq : RecurringKind → RecurringKind → Bool
kind_eq subscription subscription = true
kind_eq subscription bill = false
kind_eq bill subscription = false
kind_eq bill bill = true

pub record Create : Type 0 where
  pub name : Text
  pub amount : ℕ
  pub amount_varies : Bool
  pub frequency : PaymentFrequency
  pub account_id : ℕ
  pub next_due_date : Date
  pub ends_on : Option Date
  pub category_id : Option ℕ
  pub notes : Option Text
  pub payee : Option Text
  pub seed_transaction_id : Option ℕ

-- What a change mentions. Where null clears a field, `some none` is that null; elsewhere null does
-- as little as saying nothing, and both are `none`.
pub record Changes : Type 0 where
  pub name : Option Text
  pub amount : Option ℕ
  pub amount_varies : Option Bool
  pub frequency : Option PaymentFrequency
  pub account_id : Option ℕ
  pub next_due_date : Option Date
  pub ends_on : Option (Option Date)
  pub category_id : Option (Option ℕ)
  pub notes : Option (Option Text)
  pub payee : Option Text
  pub active : Option Bool
  pub seed_transaction_id : Option ℕ

pub find_recurring : Db → RecurringKind → ℕ → Reply Subscription
find_recurring db kind id = do
  row ← found_or (find (λ s. s.id == id) db.subscriptions) not_found
  _ ← unless (not (kind_eq row.kind kind)) not_found
  ok row

pub open_account : Db → ℕ → Reply Account
open_account db id = do
  account ← found_or (find (λ a. a.id == id) db.accounts) unknown_account
  _ ← unless account.is_closed closed_account
  ok account

pub find_category : Db → Option ℕ → Reply (Option ℕ)
find_category db none = ok none
find_category db (some id) = do
  category ← found_or (find (λ c. c == id) db.categories) unknown_category
  ok (some category)

-- The account and the payee to track.
pub seed_payee : Db → ℕ → Text → Option ℕ → Reply (ℕ × Text)
seed_payee db account_id payee none = ok (account_id, payee)
seed_payee db account_id payee (some id) = do
  transaction ← found_or (find (λ t. t.id == id) db.transactions) transaction_not_found
  _ ← unless (not (ltb_ℤ transaction.amount (pos 0))) not_payment
  _ ← unless (not (transaction.account_id == account_id)) account_mismatch
  ok (account_id, transaction.payee)

-- The changes with the account and the payee of a seed written into them.
abbrev pub seeded : Changes → ℕ × Text → Changes
seeded changes seed =
    if is_some changes.seed_transaction_id
    then record changes { account_id = some seed.0; payee = some seed.1 }
    else changes

-- The row that `create_recurring` adds.
unfoldable pub new_row : RecurringKind → Create → ℕ → Text → Subscription
new_row kind body id payee = record {
  id = id;
  name = body.name;
  kind = kind;
  payee = payee;
  amount = body.amount;
  amount_varies = body.amount_varies;
  frequency = body.frequency;
  account_id = body.account_id;
  next_due_date = body.next_due_date;
  category_id = body.category_id;
  notes = body.notes;
  active = true;
  ends_on = body.ends_on;
  cancelled_on = none;
}

pub set_fields : Subscription → Changes → Subscription
set_fields s changes = record s {
  name = or_else changes.name s.name;
  amount = or_else changes.amount s.amount;
  amount_varies = or_else changes.amount_varies s.amount_varies;
  frequency = or_else changes.frequency s.frequency;
  account_id = or_else changes.account_id s.account_id;
  next_due_date = or_else changes.next_due_date s.next_due_date;
  ends_on = or_else changes.ends_on s.ends_on;
  category_id = or_else changes.category_id s.category_id;
  notes = or_else changes.notes s.notes;
  payee = or_else changes.payee s.payee;
  active = or_else changes.active s.active;
}

pub keep_end : Subscription → Changes → Reply {0} Unit
keep_end s changes =
    unless
      (is_some s.cancelled_on && elim changes.ends_on [ none ↦ false | some day ↦ is_none day ])
      cancelled_needs_end

-- The row of a subscription written over its old one.
unfoldable pub stored : Subscription → List Subscription → List Subscription
stored s rows = map (λ row. if row.id == s.id then s else row) rows

-- What linking does to one payment.
pub link : Subscription → Transaction → Transaction
link s t = record t {
  subscription_id = some s.id;
  category_id = elim s.category_id [ none ↦ t.category_id | some c ↦ some c ];
}

abbrev changed_by : Subscription → Transaction → Bool
changed_by s t =
    not (opt_eq t.subscription_id (some s.id))
    || (is_some s.category_id && not (opt_eq t.category_id s.category_id))

abbrev latest : Date → List Transaction → Date
latest day [] = day
latest day (t ∷ rest) = latest (date_max day t.on) rest

-- How many changed, the payments, and the subscription.
pub link_payments : Subscription → List Transaction → Outcome Subscription × ℕ × List Transaction
link_payments s [] = (Outcome.ok s, 0, [])
link_payments s (t ∷ rest) = (
  advance_due_date s (latest t.on rest),
  length (select (changed_by s) (t ∷ rest)),
  map (link s) (t ∷ rest),
)

pub unlink_payment : List Transaction → ℕ → ℕ → List Transaction
unlink_payment rows subscription_id id =
    map
      (λ t.
        if t.id == id && opt_eq t.subscription_id (some subscription_id)
        then record t { subscription_id = none }
        else t)
      rows

abbrev first_due : Outcome (List Date) → Reply Date
first_due (Outcome.ok []) = fails index_error
first_due (Outcome.ok (day ∷ rest)) = ok day
first_due raises = fails value_error
first_due stuck = fails unfinished

-- `cancelled_on` and `ends_on` of the body; `now` is the day on the server.
pub cancel_recurring :
    Db → RecurringKind → ℕ → Option Date → Option Date → Date → Reply (Subscription × Db)
cancel_recurring db kind id cancelled_on ends_on now = do
  s ← find_recurring db kind id
  let day = or_else cancelled_on now
  _ ← unless (is_stopped s day) already_stopped
  let cancelled = record s { cancelled_on = some day; ends_on = some (or_else ends_on day) }
  ok (cancelled, record db { subscriptions = stored cancelled db.subscriptions })

-- `body.next_due_date or due_dates(...)[0]`
pub next_due : Subscription → Option Date → Date → Reply Date
next_due s (some day) today = ok day
next_due s none today = do
  last ← found_or (add_months today (pos 13)) value_error
  first_due (due_dates s today last)

-- A chain that succeeds has a first step that does, and then the rest of it does.
pub >>=-eq-ok {ℓ κ} :
    {X : Type ℓ} {Y : Type κ} {y : Y} (r : Reply X) (k : X → Reply Y)
    → (r >>= k) ≡ ok y
    → (x : X) × (r ≡ ok x) × (k x ≡ ok y)
unfolding ◌>>=◌
>>=-eq-ok (fails why) k h = cc
>>=-eq-ok (ok x) k h = (x, refl, h)

pub unless-eq-ok : (test : Bool) (e : Failure) (u : Unit) → unless test e ≡ ok u → test ≡ false
unfolding unless
unless-eq-ok true e u h = cc
unless-eq-ok false e u h = refl

pub found_or-eq-ok {ℓ} :
    {A : Type ℓ} (o : Option A) (e : Failure) (a : A) → found_or o e ≡ ok a → o ≡ some a
unfolding found_or
found_or-eq-ok none e a h = cc
found_or-eq-ok (some b) e a h = cc

pub ok-carry {ℓ κ} : {A : Type ℓ} (P : A → Type κ) {a b : A} → ok a ≡ ok b → P a → P b
ok-carry P {a} {b} h p = let e : a ≡ b = cc h in rw (← e) p
