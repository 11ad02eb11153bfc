-- ===== src/Bytes/Ascii.antt =====
-- `text.encode("ascii")`, and `hmac.compare_digest` of two texts.
use waxseal.Base.{
  IsBytes, ◌≡◌, inr, ◌/◌, type_error, ℕ, Bool-cases, text_eq, true, Text, ltb, Result, ◌∷◌,
  if◌then◌else◌, ◌>>=◌, ◌%◌, refl, ok, [], Bool, ◌<◌, raise, unicode_encode_error, inl, Bytes,
  Exception, ◌&&◌, arith, Result-cases,
}
use waxseal.Bytes.Hex.{hex_digit, hex}

-- `text.encode("ascii")`
unfoldable pub encode_ascii : Text → Result Bytes
encode_ascii [] = ok []
encode_ascii (c ∷ s) =
    let rest = encode_ascii s in
    if ltb c 128 then (rest >>= λ bs. ok (c ∷ bs)) else raise unicode_encode_error

unfoldable pub is_ascii : Text → Bool
is_ascii [] = true
is_ascii (c ∷ s) = ltb c 128 && is_ascii s

-- `hmac.compare_digest` of two texts, which raises `TypeError` unless both are ASCII
unfoldable pub compare_digest : Text → Text → Result Bool
compare_digest a b = if is_ascii a && is_ascii b then ok (text_eq a b) else raise type_error

-- The only error of the encoder.
pub encode_ascii-raise :
    (s : Text) {e : Exception} → encode_ascii s ≡ raise e → e ≡ unicode_encode_error
unfolding encode_ascii
encode_ascii-raise [] h = cc
encode_ascii-raise (c ∷ s) {e} h = elim (Bool-cases (ltb c 128)) [
  | inl low ↦ elim (Result-cases (encode_ascii s)) [
    | inl (bs, hb) ↦ absurd (cc (rw (low, hb) at h))
    | inr (x, hx) ↦ cc (rw (low, hx) at h, encode_ascii-raise s hx)
  ]
  | inr high ↦ cc (rw high at h)
]

hex_digit_ascii : (n : ℕ) → n < 16 → ltb (hex_digit n) 128 ≡ true
unfolding hex_digit
hex_digit_ascii n h = ground arith

-- Hexadecimal digits are ASCII.
pub is_ascii-hex : (bs : Bytes) → IsBytes bs → is_ascii (hex bs) ≡ true
unfolding is_ascii hex
is_ascii-hex [] h = refl
is_ascii-hex (b ∷ bs) (hb, hbs) =
    rw (hex_digit_ascii (b / 16) (omega arith), hex_digit_ascii (b % 16) (omega arith))
      (is_ascii-hex bs hbs)
