-- ===== src/Base/Division.antt =====
-- Multiples of a positive number, and division that rounds down.
use Prim.Native.Nat.{ℕ, ◌+◌, ◌*◌, ◌/◌, ◌≤◌, ◌<◌}
use mathlib.Core.Path.{◌≡◌, sym, ap}
use mathlib.Core.Logic.{◌⊎◌, inl, inr}
use native.Mathlib.Omega.{arith}
use cashcove.Base.Int.{
  ℤ, pos, negsuc, pos_part, neg_part, sub_ℕ, ◌+ℤ◌, ◌-ℤ◌, ◌≤ℤ◌, +ℤ_parts, -ℤ_parts, eq_of_parts,
}

-- `a // n`
unfoldable pub floor_div : ℤ → ℕ → ℤ
floor_div (pos a) n = pos (a / n)
floor_div (negsuc a) n = negsuc (a / n)

-- `a * n`
unfoldable pub times : ℤ → ℕ → ℤ
times a n = sub_ℕ (pos_part a * n) (neg_part a * n)

pub times_parts :
    (a : ℤ) (n : ℕ) → pos_part (times a n) + neg_part a * n ≡ neg_part (times a n) + pos_part a * n
unfolding times
times_parts a n = ground arith

div_bounds : (a n : ℕ) → 0 < n → (a / n * n ≤ a) × (a < a / n * n + n)
div_bounds a n h = (grind arith, grind arith)

pub floor_div_bounds :
    (a : ℤ) (n : ℕ)
    → 0 < n
    → (times (floor_div a n) n ≤ℤ a) × (a +ℤ pos 1 ≤ℤ times (floor_div a n) n +ℤ pos n)
unfolding floor_div
floor_div_bounds (pos a) n h = omega (
  arith,
  times_parts (pos (a / n)) n,
  div_bounds a n h,
  +ℤ_parts (pos a) (pos 1),
  +ℤ_parts (times (pos (a / n)) n) (pos n),
)
floor_div_bounds (negsuc a) n h = omega (
  arith,
  times_parts (negsuc (a / n)) n,
  div_bounds a n h,
  +ℤ_parts (negsuc a) (pos 1),
  +ℤ_parts (times (negsuc (a / n)) n) (pos n),
)

pub times-add_one : (k : ℤ) (n : ℕ) → times (k +ℤ pos 1) n ≡ times k n +ℤ pos n
times-add_one k n = eq_of_parts _ _ (
    omega (
      arith,
      times_parts (k +ℤ pos 1) n,
      times_parts k n,
      +ℤ_parts (times k n) (pos n),
      ap (λ (t : ℕ). t * n) (+ℤ_parts k (pos 1)),
    ))

pub times-sub_one : (k : ℤ) (n : ℕ) → times (k -ℤ pos 1) n ≡ times k n -ℤ pos n
times-sub_one k n = eq_of_parts _ _ (
    omega (
      arith,
      times_parts (k -ℤ pos 1) n,
      times_parts k n,
      -ℤ_parts (times k n) (pos n),
      ap (λ (t : ℕ). t * n) (-ℤ_parts k (pos 1)),
    ))

le-times : (a b n : ℕ) → a ≤ b → a * n ≤ b * n
le-times a b n h = grind arith

pub times_mono : (j k : ℤ) (n : ℕ) → j +ℤ pos 1 ≤ℤ k → times j n +ℤ pos n ≤ℤ times k n
times_mono j k n h = omega (
  arith,
  times_parts j n,
  times_parts k n,
  +ℤ_parts (times j n) (pos n),
  ap (λ (t : ℕ). t * n) (+ℤ_parts j (pos 1)),
  le-times (pos_part (j +ℤ pos 1) + neg_part k) (pos_part k + neg_part (j +ℤ pos 1)) n h,
)

-- Of two integers one is the smaller, by at least one, or they are equal.
pub ℤ-cases : (a b : ℤ) → (a +ℤ pos 1 ≤ℤ b) ⊎ ((b +ℤ pos 1 ≤ℤ a) ⊎ (a ≡ b))
ℤ-cases a b = elim parts [
  | inl h ↦ inl (omega (arith, +ℤ_parts a (pos 1)))
  | inr (inl h) ↦ inr (inl (omega (arith, +ℤ_parts b (pos 1))))
  | inr (inr h) ↦ inr (inr (eq_of_parts a b h))
]
  where
    parts :
        (pos_part a + neg_part b < pos_part b + neg_part a)
        ⊎ ((pos_part b + neg_part a < pos_part a + neg_part b)
            ⊎ (pos_part a + neg_part b ≡ pos_part b + neg_part a))
    parts = omega arith

pub floor_div-times : (k : ℤ) (n : ℕ) → 0 < n → floor_div (times k n) n ≡ k
floor_div-times k n h =
    let b = floor_div_bounds (times k n) n h in
    elim (ℤ-cases (floor_div (times k n) n) k) [
      | inl lt ↦ absurd (
          omega
            (arith, times_mono (floor_div (times k n) n) k n lt, b, +ℤ_parts (times k n) (pos 1)))
      | inr (inl gt) ↦ absurd (
          omega
            (arith, times_mono k (floor_div (times k n) n) n gt, b, +ℤ_parts (times k n) (pos n)))
      | inr (inr e) ↦ e
    ]

-- A natural number that is a sum of integers, in the form that `omega` reads.
pub pos-eq_parts : (n : ℕ) (z : ℤ) → pos n ≡ z → (pos_part z ≡ n) × (neg_part z ≡ 0)
pos-eq_parts n z e = (ap pos_part (sym e), ap neg_part (sym e))
