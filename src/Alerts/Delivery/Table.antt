-- ===== src/Alerts/Delivery/Table.antt =====
-- Looking up the row of an event and a channel in the table of deliveries.
use cashcove.Base.{
  ℕ, true, false, Option, none, some, List, [], ◌∷◌, if◌then◌else◌, ◌≡◌, refl, arith, Bool-cases,
  inl, inr, opt_eq,
}
use cashcove.Alerts.Delivery.{
  EventKey, event_eq, AlertChannel, channel_eq, AlertDelivery, is_for, saved, put, sync_event,
}

opt_eq→eq : (a b : Option ℕ) → opt_eq a b ≡ true → a ≡ b
opt_eq→eq none none h = refl
opt_eq→eq none (some b) h = cc
opt_eq→eq (some a) none h = cc
opt_eq→eq (some a) (some b) h = ground arith

opt_eq_refl : (a : Option ℕ) → opt_eq a a ≡ true
opt_eq_refl none = refl
opt_eq_refl (some a) = ground arith

pub event_eq→eq : (a b : EventKey) → event_eq a b ≡ true → a ≡ b
unfolding event_eq
event_eq→eq (sync_event a n) (sync_event b m) h = ground (arith, opt_eq→eq n m)
event_eq→eq _ _ h = ground arith

pub event_eq_refl : (a : EventKey) → event_eq a a ≡ true
unfolding event_eq
event_eq_refl (sync_event a n) = ground (arith, opt_eq_refl n)
event_eq_refl _ = ground arith

pub channel_eq→eq : (a b : AlertChannel) → channel_eq a b ≡ true → a ≡ b
unfolding channel_eq
channel_eq→eq _ _ h = ground arith

pub channel_eq_refl : (a : AlertChannel) → channel_eq a a ≡ true
unfolding channel_eq
channel_eq_refl _ = ground arith

-- Two rows of one event and channel answer every lookup alike.
is_for-same :
    (row r : AlertDelivery) (key : EventKey) (channel : AlertChannel)
    → is_for row.event_key row.channel r ≡ true
    → is_for key channel r ≡ is_for key channel row
is_for-same row r key channel h =
    ground (arith, event_eq→eq r.event_key row.event_key, channel_eq→eq r.channel row.channel)

is_for-not :
    (row r : AlertDelivery) (key : EventKey) (channel : AlertChannel)
    → is_for row.event_key row.channel r ≡ false
    → is_for key channel r ≡ true
    → is_for key channel row ≡ false
is_for-not row r key channel e h = ground (
  arith,
  event_eq→eq r.event_key key,
  event_eq→eq row.event_key key,
  channel_eq→eq r.channel channel,
  channel_eq→eq row.channel channel,
  event_eq_refl r.event_key,
  channel_eq_refl r.channel,
)

pub saved-put :
    (row : AlertDelivery) (rows : List AlertDelivery) (key : EventKey) (channel : AlertChannel)
    → saved (put row rows) key channel
      ≡ (if is_for key channel row then some row else saved rows key channel)
unfolding saved put
saved-put row [] key channel = refl
saved-put row (r ∷ rows) key channel = elim (Bool-cases (is_for row.event_key row.channel r)) [
  | inl e ↦ rw (e, is_for-same row r key channel e) (ground arith)
  | inr e ↦
      let rest = saved-put row rows key channel in
      elim (Bool-cases (is_for key channel r)) [
        | inl found ↦ rw (e, found, is_for-not row r key channel e found) refl
        | inr other ↦ rw (e, other, rest) refl
      ]
]

pub saved-is_for :
    (rows : List AlertDelivery) (key : EventKey) (channel : AlertChannel) (row : AlertDelivery)
    → saved rows key channel ≡ some row
    → (row.event_key ≡ key) × (row.channel ≡ channel)
unfolding saved
saved-is_for [] key channel row h = cc
saved-is_for (r ∷ rows) key channel row h = ground (
  arith,
  event_eq→eq r.event_key key,
  channel_eq→eq r.channel channel,
  saved-is_for rows key channel row,
)

pub saved_self :
    (rows : List AlertDelivery) (key : EventKey) (channel : AlertChannel) (row : AlertDelivery)
    → saved rows key channel ≡ some row
    → saved rows row.event_key row.channel ≡ some row
saved_self rows key channel row h =
    let own = saved-is_for rows key channel row h in cc (own.0, own.1, h)

pub is_for-key :
    (row : AlertDelivery) (key : EventKey) (channel : AlertChannel)
    → is_for key channel row ≡ true
    → (row.event_key ≡ key) × (row.channel ≡ channel)
is_for-key row key channel h =
    ground (arith, event_eq→eq row.event_key key, channel_eq→eq row.channel channel)
