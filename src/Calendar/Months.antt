-- ===== src/Calendar/Months.antt =====
-- The months follow one another without gaps, and valid dates are ordered by month, then by day.
use native.Mathlib.Nat.{le_refl}
use native.Mathlib.Decide.{le_ind}
use cashcove.Base.{
  ℕ, zero, suc, ◌+◌, ◌*◌, ◌/◌, ◌%◌, ◌≤◌, ◌<◌, ◌≡◌, refl, sym, ap, ◌∙◌, ◌⊎◌, inl, inr, arith,
}
use cashcove.Calendar.{
  Date, is_leap, month_length, days_in_month, year_start, month_offset, month_index, index_start,
  index_length, ordinal, first_index, end_index, last_ordinal,
}

pub record IsValid (d : Date) : Type 0 where
  pub year_in : (1 ≤ d.year) × (d.year ≤ 9999)
  pub month_in : (1 ≤ d.month) × (d.month ≤ 12)
  pub day_in : (1 ≤ d.day) × (d.day ≤ days_in_month d.year d.month)

-- The leap rule of `is_leap` agrees with the closed formula of `year_start`.
year_start-suc : (y : ℕ) → 1 ≤ y → year_start (suc y) ≡ year_start y + month_offset (is_leap y) 12
unfolding year_start is_leap month_offset month_length
year_start-suc y h = ground arith

length_at : (i : ℕ) → index_length i ≡ month_length (is_leap (i / 12)) (suc (i % 12))
unfolding index_length days_in_month
length_at i = let e : i % 12 + 1 ≡ suc (i % 12) = omega arith in rw e refl

index_start-suc_in : (i : ℕ) → i % 12 < 11 → index_start (suc i) ≡ index_start i + index_length i
index_start-suc_in i h =
    let y : suc i / 12 ≡ i / 12 = omega arith in
    let m : suc i % 12 ≡ suc (i % 12) = omega arith in
    rw length_at (unfold index_start month_offset in rw (y, m) (omega arith))

index_start-suc_over :
    (i : ℕ) → first_index ≤ i → i % 12 ≡ 11 → index_start (suc i) ≡ index_start i + index_length i
index_start-suc_over i b h =
    let y : suc i / 12 ≡ suc (i / 12) = omega arith in
    let m : suc i % 12 ≡ 0 = omega arith in
    rw length_at (
      unfold index_start month_offset in
      rw (y, m, h, year_start-suc (i / 12) (omega arith)) (omega arith))

pub index_start-suc :
    (i : ℕ) → first_index ≤ i → index_start (suc i) ≡ index_start i + index_length i
index_start-suc i b = elim split [
  | inl h ↦ index_start-suc_in i h
  | inr h ↦ index_start-suc_over i b h
]
  where
    split : (i % 12 < 11) ⊎ (i % 12 ≡ 11)
    split = omega arith

pub index_length_bounds : (i : ℕ) → (28 ≤ index_length i) × (index_length i ≤ 31)
unfolding index_length days_in_month month_length
index_length_bounds i = ground arith

pub index_start_mono : (i j : ℕ) → first_index ≤ i → i ≤ j → index_start i ≤ index_start j
index_start_mono i j b h =
    le_ind (λ k. index_start i ≤ index_start k) (le_refl _)
      (λ k le ih. omega (arith, index_start-suc k (omega arith))) j h

-- A month is 28 to 31 days long, so k months are between 28 * k and 31 * k days.
pub index_start_steps :
    (i k : ℕ)
    → first_index ≤ i
    → (index_start i + 28 * k ≤ index_start (i + k))
      × (index_start (i + k) ≤ index_start i + 31 * k)
index_start_steps i zero b = let e : i + 0 ≡ i = omega arith in rw e (omega arith, omega arith)
index_start_steps i (suc k) b =
    let e : i + suc k ≡ suc (i + k) = omega arith in
    let ih = index_start_steps i k b in
    let next = index_start-suc (i + k) (omega arith) in
    let one = index_length_bounds (i + k) in rw e (omega arith, omega arith)

pub index_start_ends : (index_start first_index ≡ 0) × (index_start end_index ≡ last_ordinal)
unfolding index_start year_start month_offset month_length is_leap
index_start_ends = (refl, refl)

pub year_edges : (index_start 36 ≡ 730) × (index_start 119_988 + 365 ≡ last_ordinal)
unfolding index_start year_start month_offset month_length is_leap
year_edges = (refl, refl)

-- The index of a valid date's month gives its year and its month back.
pub month_index_parts :
    (d : Date)
    → IsValid d
    → (month_index d / 12 ≡ d.year)
      × (month_index d % 12 + 1 ≡ d.month)
      × (first_index ≤ month_index d)
      × (month_index d < end_index)
unfolding month_index
month_index_parts d v = omega arith

pub day-le-index_length : (d : Date) → IsValid d → d.day ≤ index_length (month_index d)
unfolding index_length
day-le-index_length d v = let parts = month_index_parts d v in rw (parts.0, parts.1) (v.day_in.1)

-- Valid dates run from 0001-01-01 to 9999-12-31.
pub ordinal_range : (d : Date) → IsValid d → (1 ≤ ordinal d) × (ordinal d ≤ last_ordinal)
unfolding ordinal
ordinal_range d v =
    let parts = month_index_parts d v in
    omega (
      arith,
      v.day_in,
      day-le-index_length d v,
      index_start-suc (month_index d) parts.2,
      index_start_mono (suc (month_index d)) end_index (omega arith) parts.3,
      index_start_ends,
    )

-- A date of an earlier month comes first.
pub month_index-ordinal :
    (a b : Date) → IsValid a → IsValid b → month_index a < month_index b → ordinal a < ordinal b
unfolding ordinal
month_index-ordinal a b va vb h =
    let parts = month_index_parts a va in
    omega (
      arith,
      va.day_in,
      vb.day_in,
      day-le-index_length a va,
      index_start-suc (month_index a) parts.2,
      index_start_mono (suc (month_index a)) (month_index b) (omega arith) h,
    )

date_eq_of_parts : (a b : Date) → a.year ≡ b.year → a.month ≡ b.month → a.day ≡ b.day → a ≡ b
date_eq_of_parts a b y m d = ground arith

-- Two valid dates of one month with one day of it are one date.
pub month_index-day_inj :
    (a b : Date) → IsValid a → IsValid b → month_index a ≡ month_index b → a.day ≡ b.day → a ≡ b
month_index-day_inj a b va vb e d =
    let pa = month_index_parts a va in
    let pb = month_index_parts b vb in
    date_eq_of_parts a b (sym pa.0 ∙ ap (λ i. i / 12) e ∙ pb.0)
      (sym pa.1 ∙ ap (λ i. i % 12 + 1) e ∙ pb.1) d

-- Two valid dates with one ordinal are one date.
pub ordinal_inj : (a b : Date) → IsValid a → IsValid b → ordinal a ≡ ordinal b → a ≡ b
ordinal_inj a b va vb e = elim split [
  | inl lt ↦ absurd (omega (arith, month_index-ordinal a b va vb lt))
  | inr (inl gt) ↦ absurd (omega (arith, month_index-ordinal b a vb va gt))
  | inr (inr same) ↦ month_index-day_inj a b va vb same (days same)
]
  where
    split :
        (month_index a < month_index b)
        ⊎ ((month_index b < month_index a) ⊎ (month_index a ≡ month_index b))
    split = omega arith

    days : month_index a ≡ month_index b → a.day ≡ b.day
    days same = unfold ordinal in omega (arith, e, ap index_start same)
