-- ===== src/Anchoring/Proofs/Climb.antt =====
-- The loop of `verify_membership` in src/waxseal/domain/anchoring.py, one step at a time, on
-- numbers that are split at a power of two.

use native.Mathlib.Nat.{mul_assoc, add-mul, mul_left_comm, pow-succ'}
use waxseal.Base.{
  arith, suc, ◌^◌, zero, ◌/◌, ◌∷◌, Bytes, ◌∙◌, ap, true, ◌+◌, List, ◌*◌, ◌≡◌, ◌<◌, false, ℕ, ◌≤◌,
  refl, ◌==◌,
}
use waxseal.Anchoring.{pair_hash}
use waxseal.Anchoring.Proofs.{climb, halve_to_odd, is_odd}
use waxseal.Anchoring.Split.{power_positive}
use waxseal.Digest.{Hashes}

-- A number with one more binary digit `d` between `a` and what is below.
pub digit : (a d j m : ℕ) → (a * 2 + d) * 2 ^ j + m ≡ a * 2 ^ suc j + (d * 2 ^ j + m)
digit a d j m =
    let e : 2 ^ suc j ≡ 2 * 2 ^ j = pow-succ' 2 j in
    omega (arith, ap (λ (t : ℕ). a * t) e, mul_assoc a 2 (2 ^ j), add-mul (a * 2) d (2 ^ j))

pub odd_shift : (o j : ℕ) → o * 2 ^ suc j ≡ (o * 2 ^ j) * 2
odd_shift o j =
    let e : 2 ^ suc j ≡ 2 * 2 ^ j = pow-succ' 2 j in
    omega (arith, ap (λ (t : ℕ). o * t) e, mul_left_comm o 2 (2 ^ j))

pub odd_large : (b j : ℕ) → 2 ^ j ≤ (b * 2 + 1) * 2 ^ j
odd_large b j = omega (arith, add-mul (b * 2) 1 (2 ^ j))

pub odd_positive : (b j : ℕ) → 1 ≤ (b * 2 + 1) * 2 ^ j
odd_positive b j = omega (arith, odd_large b j, power_positive j)

pub is_odd-true : (b : ℕ) → is_odd (b * 2 + 1) ≡ true
unfolding is_odd
is_odd-true b = ground arith

pub is_odd-false : (b : ℕ) → is_odd (b * 2) ≡ false
unfolding is_odd
is_odd-false b = ground arith

pub half_odd : (b : ℕ) → (b * 2 + 1) / 2 ≡ b
half_odd b = omega arith

pub half_even : (b : ℕ) → (b * 2) / 2 ≡ b
half_even b = omega arith

pub halve_stop : (fuel b sn : ℕ) → halve_to_odd fuel (b * 2 + 1) sn ≡ (b * 2 + 1, sn)
unfolding halve_to_odd
halve_stop zero b sn = refl
halve_stop (suc fuel) b sn = rw (is_odd-true b)

halve_step : (fuel x : ℕ) → 1 ≤ x → halve_to_odd (suc fuel) (x * 2) (x * 2) ≡ halve_to_odd fuel x x
unfolding halve_to_odd
halve_step fuel x h =
    let nonzero : (x * 2 == 0) ≡ false = ground (arith, h) in
    rw (is_odd-false x, nonzero, half_even x)

-- An odd multiple of a power of two loses exactly that power.
pub halve_to_odd_lem :
    (fuel b j : ℕ)
    → j ≤ fuel
    → halve_to_odd fuel ((b * 2 + 1) * 2 ^ j) ((b * 2 + 1) * 2 ^ j) ≡ (b * 2 + 1, b * 2 + 1)
halve_to_odd_lem fuel b zero h =
    let e : (b * 2 + 1) * 2 ^ 0 ≡ b * 2 + 1 = omega arith in
    ap (λ x. halve_to_odd fuel x x) e ∙ halve_stop fuel b (b * 2 + 1)
halve_to_odd_lem zero b (suc j) h = absurd (omega arith)
halve_to_odd_lem (suc fuel) b (suc j) h =
    ap (λ x. halve_to_odd (suc fuel) x x) (odd_shift (b * 2 + 1) j)
    ∙ halve_step fuel ((b * 2 + 1) * 2 ^ j) (odd_positive b j)
    ∙ halve_to_odd_lem fuel b j (omega arith)

pub exponent_le : (j : ℕ) → j ≤ 2 ^ j
exponent_le zero = omega arith
exponent_le (suc j) = omega (arith, pow-succ' 2 j, exponent_le j, power_positive j)

module _ (hs : Hashes) where
  -- A sibling on the left: the node is the right half.
  pub climb-left :
      (node sibling : Bytes) (a sn : ℕ) (rest : List Bytes)
      → 1 ≤ sn
      → climb hs node (a * 2 + 1) sn (sibling ∷ rest)
        ≡ climb hs (pair_hash hs sibling node) a (sn / 2) rest
  climb-left node sibling a sn rest h =
      let nonzero : (sn == 0) ≡ false = ground (arith, h) in
      unfold climb in rw (nonzero, is_odd-true a, half_odd a)

  -- A sibling on the right: the node is the left half.
  pub climb-right :
      (node sibling : Bytes) (a sn : ℕ) (rest : List Bytes)
      → a * 2 < sn
      → climb hs node (a * 2) sn (sibling ∷ rest)
        ≡ climb hs (pair_hash hs node sibling) a (sn / 2) rest
  climb-right node sibling a sn rest h =
      let nonzero : (sn == 0) ≡ false = ground (arith, h) in
      let inside : (a * 2 == sn) ≡ false = ground (arith, h) in
      unfold climb in rw (nonzero, is_odd-false a, inside, half_even a)

  -- At the right edge of the tree the levels without a sibling are skipped.
  pub climb-edge :
      (node sibling : Bytes) (b j : ℕ) (rest : List Bytes)
      → climb hs node ((b * 2 + 1) * 2 ^ j) ((b * 2 + 1) * 2 ^ j) (sibling ∷ rest)
        ≡ climb hs (pair_hash hs sibling node) b b rest
  climb-edge node sibling b zero rest =
      let e : (b * 2 + 1) * 2 ^ 0 ≡ b * 2 + 1 = omega arith in
      ap (λ x. climb hs node x x (sibling ∷ rest)) e
      ∙ climb-left node sibling b (b * 2 + 1) rest (omega arith)
      ∙ ap (λ x. climb hs (pair_hash hs sibling node) b x rest) (half_odd b)
  climb-edge node sibling b (suc j) rest =
      let x = (b * 2 + 1) * 2 ^ j in
      let nonzero : (x * 2 == 0) ≡ false = ground (arith, odd_positive b j) in
      let same : (x * 2 == x * 2) ≡ true = ground arith in
      let enough : j ≤ x * 2 = omega (arith, exponent_le j, odd_large b j) in
      ap (λ x. climb hs node x x (sibling ∷ rest)) (odd_shift (b * 2 + 1) j)
      ∙ (unfold climb in
          rw (
            nonzero,
            is_odd-false x,
            same,
            half_even x,
            halve_to_odd_lem (x * 2) b j enough,
            half_odd b,
          ))
