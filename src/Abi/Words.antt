-- ===== src/Abi/Words.antt =====
-- The words of src/waxseal/domain/abi.py: unsigned integers and dynamic bytes.
use waxseal.Base.{
  zero, ◌^◌, ==_iff, Bytes, suc, refl, inl, ◌==◌, [], ap₂, ◌/◌, ◌+◌, List, length, ℕ, ◌%◌, ◌↔◌, ◌⊎◌,
  ap, take-append, true, ◌*◌, raise, leb→le, value_error, ◌∷◌, ◌≤◌, ◌<◌, ◌≡◌, All, length-append,
  drop-append, ◌∙◌, arith, false, ok, Bool-cases, ◌++◌, inr,
}
use waxseal.Abi.{bad_width, encode_uint, decode_uint, zero_bytes, words, decode_words}
use waxseal.Anchoring.Split.{powers_le}
use waxseal.Base.Int.{pos, ℤ, ltb_ℤ, leb_ℤ, negsuc, pos_part}
use waxseal.Bytes.Word.{unpack-big_endian, length-big_endian, big_endian}

pub length-zero_bytes : (n : ℕ) → length (zero_bytes n) ≡ n
unfolding zero_bytes
length-zero_bytes zero = refl
length-zero_bytes (suc n) = ap suc (length-zero_bytes n)

-- A legal width is not above 256 bits, which are the 32 bytes of a word.
width_le : (bits : ℕ) → bad_width bits ≡ false → bits ≤ 256
unfolding bad_width
width_le bits h = ground (arith, h)

power_mono : (a b : ℕ) → a ≤ b → 2 ^ a ≤ 2 ^ b
power_mono a b h = powers_le a b h

encode_uint_legal :
    (value : ℤ) (bits : ℕ)
    → bad_width bits ≡ false
    → ((n : ℕ) × (value ≡ pos n)
        × (n < 2 ^ bits)
        × (encode_uint value bits ≡ ok (big_endian 32 n))
        × (length (big_endian 32 n) ≡ 32)
        × (decode_uint (big_endian 32 n) ≡ ok n))
      ⊎ (((n : ℕ) → value ≡ pos n → 2 ^ bits ≤ n) × (encode_uint value bits ≡ raise value_error))
unfolding encode_uint decode_uint
encode_uint_legal (negsuc m) bits legal = inr (λ n e. cc, rw (legal, below m) refl)
  where
    below : (m : ℕ) → ltb_ℤ (negsuc m) (pos 0) ≡ true
    below m = ground arith
encode_uint_legal (pos n) bits legal =
    let up : ltb_ℤ (pos n) (pos 0) ≡ false = ground arith in
    elim (Bool-cases (leb_ℤ (pos (2 ^ bits)) (pos n))) [
      | inl large ↦ inr (
        λ m e. omega (arith, ap pos_part e, leb→le (2 ^ bits + 0) (n + 0) large),
        rw (legal, up, large) refl,
      )
      | inr small ↦
          let fits : n < 2 ^ bits = ground (arith, small) in
          let word : length (big_endian 32 n) ≡ 32 = length-big_endian 32 n in
          inl (
            n,
            refl,
            fits,
            rw (legal, up, small) refl,
            word,
            rw word (
                ap ok (
                  unpack-big_endian 32 n
                    (omega (arith, fits, power_mono bits 256 (width_le bits legal))))),
          )
    ]

-- What `encode_uint` says of a width: a multiple of 8 from 8 to 256.
bad_width_iff : (bits : ℕ) → (bad_width bits ≡ false) ↔ ((8 ≤ bits) × (bits ≤ 256) × (bits % 8 ≡ 0))
unfolding bad_width
bad_width_iff bits =
    let same = ==_iff (bits % 8) 0 in
    (
      (λ h. (ground (arith, h), ground (arith, h), same.0 (ground (arith, h)))),
      λ (low, high, whole). rw (same.1 whole) (ground (arith, low, high)),
    )

-- `encode_uint` has a word exactly for a width that is a multiple of 8 from 8 to 256 and an integer
-- that fits it, and `decode_uint` reads the integer back. In every other case, of a width that is
-- not one or of an integer that does not fit, `encode_uint` raises `ValueError`.
pub encode_uint_iff :
    (value : ℤ) (bits : ℕ)
    → ((n : ℕ) × (value ≡ pos n)
        × ((8 ≤ bits) × (bits ≤ 256) × (bits % 8 ≡ 0))
        × (n < 2 ^ bits)
        × (encode_uint value bits ≡ ok (big_endian 32 n))
        × (length (big_endian 32 n) ≡ 32)
        × (decode_uint (big_endian 32 n) ≡ ok n))
      ⊎ ((¬ ((8 ≤ bits) × (bits ≤ 256) × (bits % 8 ≡ 0)) ⊎ ((n : ℕ) → value ≡ pos n → 2 ^ bits ≤ n))
          × (encode_uint value bits ≡ raise value_error))
unfolding encode_uint
encode_uint_iff value bits = elim (Bool-cases (bad_width bits)) [
  | inl bad ↦ inr (inl (λ wide. absurd (cc ((bad_width_iff bits).1 wide, bad))), rw bad refl)
  | inr legal ↦ elim (encode_uint_legal value bits legal) [
    | inl (n, same, fits, made, size, read) ↦
        inl (n, same, (bad_width_iff bits).0 legal, fits, made, size, read)
    | inr (large, raised) ↦ inr (inr large, raised)
  ]
]

-- Bytes that are words, joined.
pub join_words : List Bytes → Bytes
join_words [] = []
join_words (w ∷ ws) = w ++ join_words ws

words-join_words :
    (ws : List Bytes)
    → All (λ w. length w ≡ 32) ws
    → (words (length ws) (join_words ws) ≡ ws) × (length (join_words ws) ≡ length ws * 32)
unfolding words join_words
words-join_words [] sizes = (refl, omega arith)
words-join_words (w ∷ ws) (size, sizes) =
    let (same, whole) = words-join_words ws sizes in
    (
      ap₂ (λ x xs. x ∷ xs) (take-append 32 w (join_words ws) size)
          (ap (words (length ws)) (drop-append 32 w (join_words ws) size) ∙ same),
      omega (arith, length-append w (join_words ws), size, whole),
    )

-- `decode_words` gives the words back that were joined, however many there are.
pub decode_words-join_words :
    (ws : List Bytes) → All (λ w. length w ≡ 32) ws → decode_words (join_words ws) ≡ ok ws
unfolding decode_words
decode_words-join_words ws sizes =
    let (same, whole) = words-join_words ws sizes in
    let even : (length (join_words ws) % 32 == 0) ≡ true =
      (==_iff (length (join_words ws) % 32) 0).1 (omega (arith, whole)) in
    let count : length (join_words ws) / 32 ≡ length ws = omega (arith, whole) in
    rw (even, count) (ap ok same)
