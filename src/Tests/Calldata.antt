-- ===== src/Tests/Calldata.antt =====
-- The theorems on words and calldata, at an input.
use waxseal.Base.{
  ◌⊎◌, raise, [], ◌^◌, ◌∷◌, ◌≡◌, ◌<◌, ◌≤◌, List, Result, ◌%◌, take, refl, length, Bytes, codes, ℕ,
  ok, drop, value_error, text_eq,
}
use waxseal.Abi.{
  encode_uint, decode_address, pad_right, encode_call, decode_uint, encode_bytes32_array,
  encode_bytes, slice, decode_bytes32, encode_bytes32, encode_bool, encode_address, after_0x,
  static, decode_bool, join_bytes32, encode_string, check_word, dynamic, without_0x, decode_bytes,
  zero_bytes, bad_width, encode_args, Arg,
}
use waxseal.Abi.Call.{decode_bytes-encode_call}
use waxseal.Abi.Placed.{Aligned}
use waxseal.Abi.Words.{encode_uint_iff}
use waxseal.Base.Int.{pos}
use waxseal.Bytes.Hex.{from_hex, hex_value, hex, is_space, hex_pair}
use waxseal.Bytes.Word.{unpack, big_endian}

-- Opens what calldata computes with.
unfoldable calling : ℕ
unfolding zero_bytes slice bad_width encode_uint encode_bool after_0x encode_address without_0x
    check_word encode_bytes32 pad_right encode_bytes encode_string join_bytes32 encode_bytes32_array
    encode_args encode_call decode_uint decode_bool decode_address decode_bytes32 decode_bytes
    big_endian unpack from_hex hex_pair hex_value is_space hex text_eq Aligned
calling = 0

encode_uint_iff_example :
    ((n : ℕ) × (pos 300 ≡ pos n)
      × ((8 ≤ 64) × (64 ≤ 256) × (64 % 8 ≡ 0))
      × (n < 2 ^ 64)
      × (encode_uint (pos 300) 64 ≡ ok (big_endian 32 n))
      × (length (big_endian 32 n) ≡ 32)
      × (decode_uint (big_endian 32 n) ≡ ok n))
    ⊎ ((¬ ((8 ≤ 64) × (64 ≤ 256) × (64 % 8 ≡ 0)) ⊎ ((n : ℕ) → pos 300 ≡ pos n → 2 ^ 64 ≤ n))
        × (encode_uint (pos 300) 64 ≡ raise value_error))
encode_uint_iff_example = encode_uint_iff (pos 300) 64

abbrev bytes_of : Result Bytes → Bytes
bytes_of (ok b) = b
bytes_of (raise _) = []

first_tail : Bytes
unfolding calling
first_tail = bytes_of (encode_bytes (codes "a string of more than thirty-two bytes"))

second_tail : Bytes
unfolding calling
second_tail = bytes_of (encode_bytes (codes "two"))

second_tail_lem : encode_bytes (codes "two") ≡ ok second_tail
unfolding calling second_tail
second_tail_lem = refl

one_word : Bytes
unfolding calling
one_word = big_endian 32 5

abbrev three_args : List Arg
three_args = dynamic first_tail ∷ static one_word ∷ dynamic second_tail ∷ []

abbrev selector : Bytes
selector = 13 ∷ 13 ∷ 83 ∷ 210 ∷ []

call : Bytes
unfolding calling first_tail second_tail one_word
call = bytes_of (encode_call selector three_args)

call_lem : encode_call selector three_args ≡ ok call
unfolding calling first_tail second_tail one_word call
call_lem = refl

three_args-Aligned : Aligned three_args
unfolding calling first_tail second_tail
three_args-Aligned = (refl, (refl, tt))

decode_bytes-encode_call_example :
    (take 4 call ≡ selector) × (decode_bytes (drop 4 call) 2 ≡ ok (codes "two"))
decode_bytes-encode_call_example =
    decode_bytes-encode_call selector three_args 2 (codes "two") second_tail call_lem
      three_args-Aligned refl second_tail_lem

-- White space in the digits of an address passes the test of its length and gives a short word.
short_address :
    encode_address (codes "0x  00000000000000000000000000000000000000") ≡ ok (zero_bytes 31)
unfolding calling
short_address = refl
