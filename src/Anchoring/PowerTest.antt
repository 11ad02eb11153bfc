-- ===== src/Anchoring/PowerTest.antt =====
-- The test `old_size & (old_size - 1) == 0` of `verify_consistency`, for a power of two.
use Prim.Native.Nat.{bit_and, min, digits, bit_and-bitwise}
use native.Mathlib.Nat.{pow-succ'}
use waxseal.Base.{
  ℕ, arith, ◌≤◌, refl, ◌%◌, ap, ◌-◌, ◌^◌, inl, ◌∙◌, ◌*◌, ◌/◌, zero, ◌==◌, ap₂, ◌+◌, inr, suc,
  Bool-cases, ◌≡◌,
}
use waxseal.Anchoring.Split.{power_positive}

-- Numbers are read digit by digit; any fuel from the first number on gives the same answer.
digits_fuel : (f g a b : ℕ) → a ≤ f → a ≤ g → digits (λ _. 0) min f a b ≡ digits (λ _. 0) min g a b
digits_fuel zero zero zero b hf hg = refl
digits_fuel zero (suc g) zero b hf hg = refl
digits_fuel (suc f) zero zero b hf hg = refl
digits_fuel (suc f) (suc g) zero b hf hg = refl
digits_fuel zero g (suc a) b hf hg = absurd (omega arith)
digits_fuel (suc f) zero (suc a) b hf hg = absurd (omega arith)
digits_fuel (suc f) (suc g) (suc a) b hf hg =
    omega (arith, digits_fuel f g (suc a / 2) (b / 2) (omega arith) (omega arith))

and_digit : (a b : ℕ) → bit_and a b ≡ bit_and (a / 2) (b / 2) * 2 + min (a % 2) (b % 2)
and_digit zero b = omega (arith, bit_and-bitwise 0 b, bit_and-bitwise 0 (b / 2))
and_digit (suc a) b = omega (
  arith,
  bit_and-bitwise (suc a) b,
  bit_and-bitwise (suc a / 2) (b / 2),
  digits_fuel a (suc a / 2) (suc a / 2) (b / 2) (omega arith) (omega arith),
)

and_self : (f a : ℕ) → a ≤ f → bit_and a a ≡ a
and_self zero zero h = refl
and_self zero (suc a) h = absurd (omega arith)
and_self (suc f) zero h = refl
and_self (suc f) (suc a) h =
    omega (arith, and_digit (suc a) (suc a), and_self f (suc a / 2) (omega arith))

pub and_of_power : (j : ℕ) → bit_and (2 ^ j) (2 ^ j - 1) ≡ 0
and_of_power zero = refl
and_of_power (suc j) =
    let x = 2 ^ j in
    let half : 2 ^ suc j / 2 ≡ x = omega (arith, pow-succ' 2 j) in
    let below : (2 ^ suc j - 1) / 2 ≡ x - 1 = omega (arith, pow-succ' 2 j, power_positive j) in
    and_digit (2 ^ suc j) (2 ^ suc j - 1)
    ∙ omega (arith, ap₂ bit_and half below, and_of_power j, pow-succ' 2 j, power_positive j)

-- A number with no bit in common with the one before it is a power of two.
power_of_and_fuel : (f m : ℕ) → m ≤ f → 1 ≤ m → bit_and m (m - 1) ≡ 0 → (j : ℕ) × (m ≡ 2 ^ j)
power_of_and_fuel zero m hf h e = absurd (omega arith)
power_of_and_fuel (suc f) m hf h e = elim (Bool-cases (m % 2 == 0)) [
  | inl even ↦
      let twice : m % 2 ≡ 0 = ground (arith, even) in
      let below : (m - 1) / 2 ≡ m / 2 - 1 = omega arith in
      let (j, p) =
        power_of_and_fuel f (m / 2) (omega arith) (omega arith)
          (omega (arith, e, and_digit m (m - 1), ap (bit_and (m / 2)) below)) in
      (suc j, omega (arith, p, pow-succ' 2 j))
  | inr odd ↦
      let one_more : m % 2 ≡ 1 = ground (arith, odd) in
      let below : (m - 1) / 2 ≡ m / 2 = omega arith in
      (
        0,
        omega (
          arith,
          e,
          and_digit m (m - 1),
          ap (bit_and (m / 2)) below,
          and_self (m / 2) (m / 2) (omega arith),
        ),
      )
]

pub power_of_and : (m : ℕ) → 1 ≤ m → bit_and m (m - 1) ≡ 0 → (j : ℕ) × (m ≡ 2 ^ j)
power_of_and m h e = power_of_and_fuel m m (omega arith) h e
