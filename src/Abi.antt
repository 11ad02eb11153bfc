-- ===== src/Abi.antt =====
-- src/waxseal/domain/abi.py: calldata as a selector, a head of 32-byte words and a tail. An
-- `AbiError` is a `ValueError`. Python's type tests have no counterpart: a value here has its type.
pub mod Words
pub mod Placed
pub mod Call
use waxseal.Base.{
  ◌%◌, text_eq, [], Option, Bool, ◌==◌, ◌/◌, ◌||◌, ◌∷◌, List, drop, ltb, Bytes, take, ◌>>=◌, ◌+◌,
  ◌++◌, zero, if◌then◌else◌, not, ◌-◌, ℕ, ◌*◌, raise_if, Result, none, ◌>>◌, ◌&&◌, length,
  value_error, suc, some, Text, ok, ◌^◌, raise,
}
use waxseal.Base.Int.{pos, ltb_ℤ, leb_ℤ, pos_part, ℤ}
use waxseal.Bytes.Hex.{hex, from_hex}
use waxseal.Bytes.Utf8.{encode}
use waxseal.Bytes.Word.{unpack, big_endian}

-- An argument of a call: one word, or the tail bytes of a `Dynamic`.
pub data Arg : Type 0 where
  static : Bytes → Arg
  dynamic : Bytes → Arg

-- `bytes | str`
pub data HexOrBytes : Type 0 where
  raw_bytes : Bytes → HexOrBytes
  hex_text : Text → HexOrBytes

-- `b"\x00" * n`
unfoldable pub zero_bytes : ℕ → Bytes
zero_bytes zero = []
zero_bytes (suc n) = 0 ∷ zero_bytes n

-- `data[i : i + n]`
unfoldable pub slice : Bytes → ℕ → ℕ → Bytes
slice buffer i n = take n (drop i buffer)

-- `bits < 8 or bits > 256 or bits % 8`
unfoldable pub bad_width : ℕ → Bool
bad_width bits = ltb bits 8 || (ltb 256 bits || not (bits % 8 == 0))

-- `encode_uint(value, bits=bits)`
unfoldable pub encode_uint : ℤ → ℕ → Result Bytes
unfolding bad_width
encode_uint value bits = do
  raise_if (bad_width bits) value_error
  raise_if (ltb_ℤ value (pos 0)) value_error
  raise_if (leb_ℤ (pos (2 ^ bits)) value) value_error
  ok (big_endian 32 (pos_part value))

unfoldable pub encode_bool : Bool → Bytes
encode_bool value = big_endian 32 (if value then 1 else 0)

-- `value.startswith("0x")`, with what follows
unfoldable pub after_0x : Text → Option Text
after_0x (a ∷ b ∷ rest) = if (a == b'0') && (b == b'x') then some rest else none
after_0x _ = none

unfoldable pub encode_address : Text → Result Bytes
unfolding after_0x
encode_address value = digits (after_0x value)
  where
    digits : Option Text → Result Bytes
    digits none = raise value_error
    digits (some rest) = do
      raise_if (not (length value == 42)) value_error
      raw ← from_hex rest
      ok (zero_bytes 12 ++ raw)

-- `value[2:] if value.startswith("0x") else value`
unfoldable pub without_0x : Text → Text
unfolding after_0x
without_0x value = elim (after_0x value) [ none ↦ value | some rest ↦ rest ]

unfoldable pub check_word : Bytes → Result Bytes
check_word raw = raise_if (not (length raw == 32)) value_error >> ok raw

unfoldable pub encode_bytes32 : HexOrBytes → Result Bytes
unfolding check_word without_0x
encode_bytes32 (raw_bytes value) = check_word value
encode_bytes32 (hex_text value) = from_hex (without_0x value) >>= check_word

unfoldable pub pad_right : Bytes → Bytes
pad_right raw =
    let remainder = length raw % 32 in
    if remainder == 0 then raw else raw ++ zero_bytes (32 - remainder)

-- The tail bytes of dynamic `bytes`.
unfoldable pub encode_bytes : Bytes → Result Bytes
unfolding encode_uint pad_right
encode_bytes value = do size ← encode_uint (pos (length value)) 256; ok (size ++ pad_right value)

unfoldable pub encode_string : Text → Result Bytes
unfolding encode_bytes
encode_string value = encode value >>= encode_bytes

-- `b"".join(encode_bytes32(value) for value in values)`
unfoldable pub join_bytes32 : List HexOrBytes → Result Bytes
unfolding encode_bytes32
join_bytes32 [] = ok []
join_bytes32 (value ∷ values) = do
  word ← encode_bytes32 value
  body ← join_bytes32 values
  ok (word ++ body)

unfoldable pub encode_bytes32_array : List HexOrBytes → Result Bytes
unfolding encode_uint join_bytes32
encode_bytes32_array values = do
  body ← join_bytes32 values
  size ← encode_uint (pos (length values)) 256
  ok (size ++ body)

-- The loop of `encode_call`: the heads and the tails, each joined.
unfoldable pub encode_args : ℕ → List Arg → Result (Bytes × Bytes)
unfolding encode_uint
encode_args offset [] = ok ([], [])
encode_args offset (dynamic tail ∷ args) = do
  head ← encode_uint (pos offset) 256
  (heads, tails) ← encode_args (offset + length tail) args
  ok (head ++ heads, tail ++ tails)
encode_args offset (static word ∷ args) = do
  raise_if (not (length word == 32)) value_error
  (heads, tails) ← encode_args offset args
  ok (word ++ heads, tails)

unfoldable pub encode_call : Bytes → List Arg → Result Bytes
unfolding encode_args
encode_call selector args = do
  raise_if (not (length selector == 4)) value_error
  (heads, tails) ← encode_args (32 * length args) args
  ok (selector ++ (heads ++ tails))

unfoldable pub decode_uint : Bytes → Result ℕ
decode_uint word = raise_if (not (length word == 32)) value_error >> ok (unpack word)

unfoldable pub decode_bool : Bytes → Result Bool
unfolding decode_uint
decode_bool word = do raw ← decode_uint word; raise_if (ltb 1 raw) value_error; ok (raw == 1)

unfoldable pub decode_address : Bytes → Result Text
unfolding check_word
decode_address word = do
  raw ← check_word word
  raise_if (not (text_eq (take 12 raw) (zero_bytes 12))) value_error
  ok (b'0' ∷ b'x' ∷ hex (drop 12 raw))

unfoldable pub decode_bytes32 : Bytes → Result Text
unfolding check_word
decode_bytes32 word = do raw ← check_word word; ok (hex raw)

unfoldable pub decode_bytes : Bytes → ℕ → Result Bytes
unfolding decode_uint slice
decode_bytes buffer index = do
  let start = index * 32
  raise_if (ltb (length buffer) (start + 32)) value_error
  offset ← decode_uint (slice buffer start 32)
  raise_if (not (offset % 32 == 0) || ltb (length buffer) (offset + 32)) value_error
  size ← decode_uint (slice buffer offset 32)
  raise_if (ltb (length buffer) (offset + 32 + size)) value_error
  ok (slice buffer (offset + 32) size)

-- The words of `data`, from its first one on; `n` of them.
unfoldable pub words : ℕ → Bytes → List Bytes
words zero buffer = []
words (suc n) buffer = take 32 buffer ∷ words n (drop 32 buffer)

unfoldable pub decode_words : Bytes → Result (List Bytes)
unfolding words
decode_words buffer =
    raise_if (not (length buffer % 32 == 0)) value_error >> ok (words (length buffer / 32) buffer)
