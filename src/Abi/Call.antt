-- ===== src/Abi/Call.antt =====
-- `encode_call` of src/waxseal/domain/abi.py against `decode_bytes`, which follows a head to its
-- tail.

use mathlib.Core.List.{append_assoc}
use waxseal.Base.{
  get_elem?, length, ◌++◌, Bytes, length-append, ◌≡◌, take, ==_iff, inl, some, take-append, ◌%◌,
  inr, false, ◌+◌, >>=-eq-ok, ok_inj, ◌==◌, true, drop-append, ℕ, ◌∙◌, ap, List, drop, ok, ltb, ◌*◌,
  sym, ◌≤◌, refl, arith, Bool-cases,
}
use waxseal.Abi.{
  encode_call, slice, decode_uint, encode_args, encode_bytes, Arg, dynamic, decode_bytes,
}
use waxseal.Abi.Placed.{
  slice-middle, Aligned, length-encode_args, encode_bytes-parts, encode_args-Placed,
}

-- `decode_bytes` where the two words and the bytes are in place.
decode_bytes-parts :
    (buffer : Bytes) (index offset : ℕ) (head word value : Bytes)
    → slice buffer (index * 32) 32 ≡ head
    → decode_uint head ≡ ok offset
    → slice buffer offset 32 ≡ word
    → decode_uint word ≡ ok (length value)
    → slice buffer (offset + 32) (length value) ≡ value
    → index * 32 + 32 ≤ length buffer
    → offset % 32 ≡ 0
    → offset + 32 + length value ≤ length buffer
    → decode_bytes buffer index ≡ ok value
unfolding decode_bytes
decode_bytes-parts buffer index offset head word value s1 d1 s2 d2 s3 fits aligned inside =
    let first : ltb (length buffer) (index * 32 + 32) ≡ false = ground (arith, fits) in
    let whole : offset % 32 == 0 ≡ true = ground (arith, aligned) in
    let second : ltb (length buffer) (offset + 32) ≡ false = ground (arith, inside) in
    let third : ltb (length buffer) (offset + 32 + length value) ≡ false = ground (arith, inside) in
    rw (first, s1, d1, whole, second, s2, d2, third, s3) refl

decode_bytes-encode_args :
    (args : List Arg) (index : ℕ) (value tail : Bytes) {heads tails : Bytes}
    → Aligned args
    → get_elem? args index ≡ some (dynamic tail)
    → encode_bytes value ≡ ok tail
    → encode_args (32 * length args) args ≡ ok (heads, tails)
    → decode_bytes (heads ++ tails) index ≡ ok value
decode_bytes-encode_args args index value tail {heads} {tails} aligned found encoded looped =
    let p = encode_args-Placed (32 * length args) index tail args found aligned looped in
    let (word, pad, tail_eq, word_size, word_read, _) = encode_bytes-parts value encoded in
    let offset = 32 * length args + length p.before in
    let size = length-encode_args (32 * length args) args looped in
    let by_head : heads ++ tails ≡ p.heads_before ++ (p.head ++ (p.heads_after ++ tails)) =
      ap (λ t. t ++ tails) p.heads_lem
      ∙ append_assoc p.heads_before _ tails
      ∙ ap (λ t. p.heads_before ++ t) (append_assoc p.head p.heads_after tails) in
    let by_word : heads ++ tails ≡ (heads ++ p.before) ++ (word ++ (value ++ (pad ++ p.after))) =
      ap (λ t. heads ++ t)
        (p.tails_lem
          ∙ ap (λ t. p.before ++ t)
              (ap (λ t. t ++ p.after) tail_eq
                ∙ append_assoc word _ p.after
                ∙ ap (λ t. word ++ t) (append_assoc value pad p.after)))
      ∙ sym (append_assoc heads p.before _) in
    let by_value : heads ++ tails ≡ ((heads ++ p.before) ++ word) ++ (value ++ (pad ++ p.after)) =
      by_word ∙ sym (append_assoc (heads ++ p.before) word _) in
    let start : length (heads ++ p.before) ≡ offset =
      omega (arith, length-append heads p.before, size) in
    let body : length ((heads ++ p.before) ++ word) ≡ offset + 32 =
      omega (arith, length-append (heads ++ p.before) word, start, word_size) in
    decode_bytes-parts (heads ++ tails) index offset p.head word value
      (ap (λ b. slice b (index * 32) 32) by_head
        ∙ slice-middle p.heads_before p.head _ (index * 32) 32 p.at p.size)
      p.read
      (ap (λ b. slice b offset 32) by_word
        ∙ slice-middle (heads ++ p.before) word _ offset 32 start word_size)
      word_read
      (ap (λ b. slice b (offset + 32) (length value)) by_value
        ∙ slice-middle ((heads ++ p.before) ++ word) value _ (offset + 32) (length value) body refl)
      (omega (
        arith,
        ap length by_head,
        length-append p.heads_before (p.head ++ (p.heads_after ++ tails)),
        length-append p.head (p.heads_after ++ tails),
        p.at,
        p.size,
      ))
      (omega (arith, p.aligned))
      (omega (
        arith,
        ap length by_value,
        length-append ((heads ++ p.before) ++ word) (value ++ (pad ++ p.after)),
        length-append value (pad ++ p.after),
        body,
      ))

-- For every dynamic argument that is `encode_bytes` of some bytes, following its head in the
-- arguments of the call gives the bytes back, where the tails of the call are whole words.
pub decode_bytes-encode_call :
    (selector : Bytes) (args : List Arg) (index : ℕ) (value tail : Bytes) {call : Bytes}
    → encode_call selector args ≡ ok call
    → Aligned args
    → get_elem? args index ≡ some (dynamic tail)
    → encode_bytes value ≡ ok tail
    → (take 4 call ≡ selector) × (decode_bytes (drop 4 call) index ≡ ok value)
unfolding encode_call
decode_bytes-encode_call selector args index value tail {call} h aligned found encoded =
    elim (Bool-cases (length selector == 4)) [
      | inr short ↦ cc (rw short at h)
      | inl fits ↦
          let ((heads, tails), looped, made) =
            >>=-eq-ok (encode_args (32 * length args) args) _ (rw fits at h) in
          let four = (==_iff (length selector) 4).0 fits in
          let parts : selector ++ (heads ++ tails) ≡ call = ok_inj made in
          (
            ap (take 4) (sym parts) ∙ take-append 4 selector (heads ++ tails) four,
            ap (λ b. decode_bytes b index)
                  (ap (drop 4) (sym parts) ∙ drop-append 4 selector (heads ++ tails) four)
                ∙ decode_bytes-encode_args args index value tail aligned found encoded looped,
          )
    ]
