-- ===== src/Anchoring/Split.antt =====
-- `_split_point` of src/waxseal/domain/anchoring.py, and powers of two.

use native.Mathlib.Nat.{pow-succ'}
use waxseal.Base.{
  ltb, inl, inr, ap, ◌≤◌, Bool-cases, ◌≡◌, ℕ, ◌*◌, ltb→lt, ◌+◌, suc, arith, zero, ◌^◌, ◌∙◌, ◌<◌,
  refl,
}
use waxseal.Anchoring.{split_loop, split_point}

-- The fuel `n` is enough: the loop ends by its own test.
split_loop_bounds :
    (fuel k n : ℕ)
    → 1 ≤ k
    → k < n
    → n ≤ k + fuel
    → (1 ≤ split_loop fuel k n) × (split_loop fuel k n < n) × (n ≤ split_loop fuel k n * 2)
unfolding split_loop
split_loop_bounds zero k n h1 h2 h3 = absurd (omega arith)
split_loop_bounds (suc fuel) k n h1 h2 h3 = elim (Bool-cases (ltb (k * 2) n)) [
  | inl more ↦
      let small = ltb→lt (k * 2) n more in
      rw more (split_loop_bounds fuel (k * 2) n (omega arith) small (omega arith))
  | inr last ↦ rw last (h1, h2, ground (arith, last))
]

split_loop_power : (fuel j n : ℕ) → (i : ℕ) × (split_loop fuel (2 ^ j) n ≡ 2 ^ i)
unfolding split_loop
split_loop_power zero j n = (j, refl)
split_loop_power (suc fuel) j n = elim (Bool-cases (ltb (2 ^ j * 2) n)) [
  | inl more ↦
      let (i, e) = split_loop_power fuel (suc j) n in
      (i, rw more (ap (λ t. split_loop fuel t n) (omega (arith, pow-succ' 2 j)) ∙ e))
  | inr last ↦ (j, rw last)
]

-- The split point of a size of two or more is a power of two below it and at least half of it,
-- hence the largest.
pub split_point_lem :
    (n : ℕ)
    → 2 ≤ n
    → (i : ℕ) × (split_point n ≡ 2 ^ i)
      × (1 ≤ split_point n)
      × (split_point n < n)
      × (n ≤ split_point n * 2)
unfolding split_point
split_point_lem n h =
    let (i, e) = split_loop_power n 0 n in
    let (low, below, high) = split_loop_bounds n 1 n (omega arith) (omega arith) (omega arith) in
    (i, e, low, below, high)

pub power_positive : (i : ℕ) → 1 ≤ 2 ^ i
power_positive zero = omega arith
power_positive (suc i) = omega (arith, pow-succ' 2 i, power_positive i)

pub power_next : (i : ℕ) → 2 ^ (i + 1) ≡ 2 ^ i * 2
power_next i =
    let e : i + 1 ≡ suc i = omega arith in ap (λ t. 2 ^ t) e ∙ omega (arith, pow-succ' 2 i)

-- Powers of two that both lie in the upper half of a range are one.
pub powers_apart : (i j : ℕ) → i < j → 2 ^ i * 2 ≤ 2 ^ j
powers_apart i zero h = absurd (omega arith)
powers_apart i (suc j) h = elim (Bool-cases (ltb i j)) [
  | inl below ↦ omega (arith, pow-succ' 2 j, powers_apart i j (ltb→lt i j below))
  | inr not_below ↦
      let e : i ≡ j = ground (arith, h, not_below) in
      omega (arith, pow-succ' 2 j, ap (λ t. 2 ^ t) e)
]

pub split_point_unique : (n i : ℕ) → 2 ^ i < n → n ≤ 2 ^ i * 2 → split_point n ≡ 2 ^ i
split_point_unique n i low high =
    let (j, e, h1, h2, h3) = split_point_lem n (omega (arith, low, power_positive i)) in
    elim (Bool-cases (ltb i j)) [
      | inl below ↦ absurd (omega (arith, e, powers_apart i j (ltb→lt i j below)))
      | inr up ↦ elim (Bool-cases (ltb j i)) [
        | inl above ↦ absurd (omega (arith, e, powers_apart j i (ltb→lt j i above)))
        | inr down ↦ e ∙ ap (λ t. 2 ^ t) (ground (arith, up, down))
      ]
    ]

pub powers_le : (i j : ℕ) → i ≤ j → 2 ^ i ≤ 2 ^ j
powers_le i j h = elim (Bool-cases (ltb i j)) [
  | inl below ↦ omega (arith, powers_apart i j (ltb→lt i j below))
  | inr up ↦ let e : i ≡ j = ground (arith, h, up) in omega (arith, ap (λ t. 2 ^ t) e)
]
