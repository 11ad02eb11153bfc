-- ===== src/Bytes/Decimal.antt =====
-- `str(n)` for a Python `int`: a minus sign and the decimal digits, the highest first.
use mathlib.Core.List.{foldl, foldl-append}
-- The fuel is more than the number of digits, which `show_nat` ensures.
use waxseal.Base.{
  ◌*◌, ◌≤◌, ◌/◌, sym, ◌∷◌, ◌<◌, ◌++◌, ◌∙◌, ◌≡◌, zero, inr, ◌==◌, All, ap, ◌%◌, refl, suc, ◌+◌, ltb,
  ℕ, inl, Bool-cases, arith, Text, All-append, if◌then◌else◌, [], ◌-◌,
}
use waxseal.Base.Int.{negsuc, sub_ℕ, pos, ℤ}

show_from : ℕ → ℕ → Text
show_from zero n = []
show_from (suc fuel) n =
    let higher = show_from fuel (n / 10) in
    if ltb n 10 then (b'0' + n) ∷ [] else higher ++ (b'0' + n % 10) ∷ []

unfoldable pub show_nat : ℕ → Text
unfolding show_from
show_nat n = show_from (suc n) n

unfoldable pub show_int : ℤ → Text
unfolding show_nat
show_int (pos n) = show_nat n
show_int (negsuc n) = b'-' ∷ show_nat (suc n)

abbrev push_digit : ℕ → ℕ → ℕ
push_digit acc d = acc * 10 + (d - b'0')

pub read_nat : Text → ℕ
read_nat = foldl push_digit 0

pub read_int : Text → ℤ
unfolding read_nat
read_int [] = pos 0
read_int (c ∷ s) = if c == b'-' then sub_ℕ 0 (read_nat s) else pos (read_nat (c ∷ s))

abbrev pub IsDigits : Text → Type 0
IsDigits = All (λ c. (b'0' ≤ c) × (c ≤ b'9'))

show_from-IsDigits : (fuel n : ℕ) → IsDigits (show_from fuel n)
unfolding show_from
show_from-IsDigits zero n = tt
show_from-IsDigits (suc fuel) n = elim (Bool-cases (ltb n 10)) [
  | inl small ↦ rw small ((ground arith, ground arith), tt)
  | inr large ↦ rw large (
      All-append (λ c. (b'0' ≤ c) × (c ≤ b'9')) (show_from fuel (n / 10)) ((b'0' + n % 10) ∷ [])
        (show_from-IsDigits fuel (n / 10)) ((omega arith, omega arith), tt))
]

pub show_nat-IsDigits : (n : ℕ) → IsDigits (show_nat n)
unfolding show_nat
show_nat-IsDigits n = show_from-IsDigits (suc n) n

read-show_from : (fuel n : ℕ) → n < fuel → read_nat (show_from fuel n) ≡ n
unfolding read_nat show_from
read-show_from zero n h = elim h [ ]
read-show_from (suc fuel) n h = elim (Bool-cases (ltb n 10)) [
  | inl small ↦ rw small (omega arith)
  | inr large ↦ rw large (
      foldl-append _ _ (show_from fuel (n / 10)) _
      ∙ omega (arith, read-show_from fuel (n / 10) (ground arith)))
]

pub read-show_nat : (n : ℕ) → read_nat (show_nat n) ≡ n
unfolding show_nat
read-show_nat n = read-show_from (suc n) n (omega arith)

read_int-digits : (s : Text) → IsDigits s → read_int s ≡ pos (read_nat s)
unfolding read_int
read_int-digits [] h = refl
read_int-digits (c ∷ s) h = ground arith

pub read-show_int : (i : ℤ) → read_int (show_int i) ≡ i
unfolding show_int
read-show_int (pos n) =
    read_int-digits (show_nat n) (show_nat-IsDigits n) ∙ ap pos (read-show_nat n)
read-show_int (negsuc n) = unfold read_int in rw (read-show_nat (suc n)) (ground arith)

-- Two integers that print alike are equal.
pub show_int_inj : (i j : ℤ) → show_int i ≡ show_int j → i ≡ j
show_int_inj i j e = sym (read-show_int i) ∙ ap read_int e ∙ read-show_int j

show_int_tests :
    (show_int (pos 0) ≡ b'0' ∷ [])
    × (show_int (pos 1207) ≡ b'1' ∷ b'2' ∷ b'0' ∷ b'7' ∷ [])
    × (show_int (negsuc 9) ≡ b'-' ∷ b'1' ∷ b'0' ∷ [])
unfolding show_int
show_int_tests = (refl, refl, refl)
