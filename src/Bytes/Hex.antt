-- ===== src/Bytes/Hex.antt =====
-- `bytes.hex()`, and `bytes.fromhex`, which skips ASCII white space between the bytes, takes
-- digits of either case and raises `ValueError` for any other text.
use waxseal.Base.{
  ◌<◌, Option, [], refl, Result, ◌||◌, some, length, Bool, ◌==◌, ◌-◌, inr, ◌+◌, codes, none, ◌%◌,
  Bool-cases, ◌>>=◌, ◌∙◌, raise, raise-OnlyValueError, ok-OnlyValueError, ◌∷◌, if◌then◌else◌, ℕ,
  IsBytes, ok_inj, inl, ap, Bytes, arith, ok, OnlyValueError, Text, value_error, leb, ◌*◌, ◌/◌, ltb,
  ◌≡◌, >>=-OnlyValueError, ◌&&◌, sym, false,
}

unfoldable pub hex_digit : ℕ → ℕ
hex_digit n = if ltb n 10 then b'0' + n else b'a' + (n - 10)

unfoldable pub hex : Bytes → Text
unfolding hex_digit
hex [] = []
hex (b ∷ bs) = hex_digit (b / 16) ∷ hex_digit (b % 16) ∷ hex bs

unfoldable pub hex_value : ℕ → Option ℕ
hex_value c =
    if leb b'0' c && leb c b'9'
    then some (c - b'0')
    else if leb b'a' c && leb c b'f'
    then some (c - b'a' + 10)
    else if leb b'A' c && leb c b'F'
    then some (c - b'A' + 10)
    else none

unfoldable pub is_space : ℕ → Bool
is_space c = c == 32 || (leb 9 c && leb c 13)

unfoldable pub hex_pair : Option ℕ → Option ℕ → Result Bytes → Result Bytes
hex_pair (some high) (some low) rest = do bs ← rest; ok ((high * 16 + low) ∷ bs)
hex_pair _ _ rest = raise value_error

unfoldable pub from_hex : Text → Result Bytes
from_hex [] = ok []
from_hex (c ∷ []) = if is_space c then ok [] else raise value_error
from_hex (c ∷ d ∷ s) =
    let skipped = from_hex (d ∷ s) in
    let rest = from_hex s in
    if is_space c then skipped else hex_pair (hex_value c) (hex_value d) rest

hex_value-hex_digit : (n : ℕ) → n < 16 → hex_value (hex_digit n) ≡ some n
unfolding hex_value hex_digit
hex_value-hex_digit n h = ground arith

hex_digit_visible : (n : ℕ) → is_space (hex_digit n) ≡ false
unfolding is_space hex_digit
hex_digit_visible n = ground arith

from_hex-byte :
    (b : ℕ) (s : Text)
    → b < 256
    → from_hex (hex_digit (b / 16) ∷ hex_digit (b % 16) ∷ s) ≡ (from_hex s >>= λ bs. ok (b ∷ bs))
unfolding from_hex hex_pair
from_hex-byte b s h =
    let e : b / 16 * 16 + b % 16 ≡ b = omega arith in
    rw (hex_digit_visible (b / 16)) (
      rw (hex_value-hex_digit (b / 16) (omega arith), hex_value-hex_digit (b % 16) (omega arith))
        (rw e refl))

-- Decoding what `hex` printed gives the bytes back.
pub from_hex-hex : (bs : Bytes) → IsBytes bs → from_hex (hex bs) ≡ ok bs
unfolding hex
from_hex-hex [] h = unfold from_hex in refl
from_hex-hex (b ∷ bs) h = from_hex-byte b (hex bs) h.0 ∙ rw (from_hex-hex bs h.1)

-- Two byte strings with the same hexadecimal print are equal.
pub hex_inj : (a b : Bytes) → IsBytes a → IsBytes b → hex a ≡ hex b → a ≡ b
hex_inj a b ha hb e = ok_inj (sym (from_hex-hex a ha) ∙ ap from_hex e ∙ from_hex-hex b hb)

pub length-hex : (bs : Bytes) → length (hex bs) ≡ 2 * length bs
unfolding hex
length-hex [] = omega arith
length-hex (b ∷ bs) = omega (arith, length-hex bs)

from_hex_tests :
    (from_hex (codes "0aFf") ≡ ok (10 ∷ 255 ∷ []))
    × (from_hex (codes " 0a\tff ") ≡ ok (10 ∷ 255 ∷ []))
    × (from_hex (codes "0 a") ≡ raise value_error)
    × (from_hex (codes "0aF") ≡ raise value_error)
unfolding from_hex hex_pair hex_value is_space
from_hex_tests = (refl, refl, refl, refl)

hex_pair-OnlyValueError :
    (a b : Option ℕ) (rest : Result Bytes)
    → OnlyValueError rest
    → OnlyValueError (hex_pair a b rest)
unfolding hex_pair
hex_pair-OnlyValueError none b rest h = raise-OnlyValueError _
hex_pair-OnlyValueError (some x) none rest h = raise-OnlyValueError _
hex_pair-OnlyValueError (some x) (some y) rest h =
    >>=-OnlyValueError rest _ h (λ _. ok-OnlyValueError _)

-- The only error of `bytes.fromhex` on a text.
pub from_hex-OnlyValueError : (s : Text) → OnlyValueError (from_hex s)
unfolding from_hex
from_hex-OnlyValueError [] = ok-OnlyValueError _
from_hex-OnlyValueError (c ∷ []) = elim (Bool-cases (is_space c)) [
  | inl space ↦ rw space (ok-OnlyValueError _)
  | inr visible ↦ rw visible (raise-OnlyValueError _)
]
from_hex-OnlyValueError (c ∷ d ∷ s) = elim (Bool-cases (is_space c)) [
  | inl space ↦ rw space (from_hex-OnlyValueError (d ∷ s))
  | inr visible ↦ rw visible (hex_pair-OnlyValueError _ _ _ (from_hex-OnlyValueError s))
]
