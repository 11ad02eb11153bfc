-- ===== src/Bytes/Utf8.antt =====
-- `str.encode("utf-8")` and `bytes.decode("utf-8")`, both strict: a surrogate has no encoding, and
-- an overlong or cut sequence does not decode. Code points end at 0x10FFFF.
use mathlib.Core.Option
use waxseal.Base.{
  ltb, some, ◌||◌, ◌>>=◌, ◌∷◌, sym, leb, ◌⊎◌, ◌-◌, some_inj, ok_inj, zero, Result, ok, subst, Text,
  arith, ◌*◌, ◌≤◌, refl, Bool-cases, ◌≡◌, ◌&&◌, inl, >>=-eq-ok, Bool, ◌%◌, ℕ, ◌/◌, ◌<◌, none, Bytes,
  inr, codes, suc, raise, ◌∙◌, ◌+◌, Option, [], ok-ne-raise, ◌++◌, if◌then◌else◌,
  unicode_encode_error,
}

encode_point : ℕ → Result Bytes
encode_point c =
    if ltb c 0x80
    then ok (c ∷ [])
    else if ltb c 0x800
    then ok ((0xC0 + c / 64) ∷ (0x80 + c % 64) ∷ [])
    else if leb 0xD800 c && leb c 0xDFFF
    then raise unicode_encode_error
    else if ltb c 0x10000
    then ok ((0xE0 + c / 4096) ∷ (0x80 + c / 64 % 64) ∷ (0x80 + c % 64) ∷ [])
    else if ltb c 0x110000
    then ok
        ((0xF0 + c / 262144) ∷ (0x80 + c / 4096 % 64) ∷ (0x80 + c / 64 % 64) ∷ (0x80 + c % 64) ∷ [])
    else raise unicode_encode_error

unfoldable pub encode : Text → Result Bytes
unfolding encode_point
encode [] = ok []
encode (c ∷ s) = do b ← encode_point c; bs ← encode s; ok (b ++ bs)

-- What the decoder holds between two bytes: `continuation k low acc` waits for `k` more continuation bytes
-- of a code point that has the high bits `acc` and must be at least `low`.
pub data Pending : Type 0 where
  at_start : Pending
  continuation : ℕ → ℕ → ℕ → Pending

pub data Decoded : Type 0 where
  emit : ℕ → Decoded
  wait : Pending → Decoded
  invalid : Decoded

first_byte : ℕ → Decoded
first_byte b =
    if ltb b 0x80
    then emit b
    else if ltb b 0xC0
    then invalid
    else if ltb b 0xE0
    then wait (continuation 0 0x80 (b - 0xC0))
    else if ltb b 0xF0
    then wait (continuation 1 0x800 (b - 0xE0))
    else if ltb b 0xF8
    then wait (continuation 2 0x10000 (b - 0xF0))
    else invalid

is_point : ℕ → ℕ → Bool
is_point low c = leb low c && ltb c 0x110000 && (ltb c 0xD800 || ltb 0xDFFF c)

next_byte : Pending → ℕ → Decoded
unfolding first_byte is_point
next_byte at_start b = first_byte b
next_byte (continuation zero low acc) b =
    let c = acc * 64 + (b - 0x80) in
    if leb 0x80 b && ltb b 0xC0 && is_point low c then emit c else invalid
next_byte (continuation (suc k) low acc) b =
    if leb 0x80 b && ltb b 0xC0 then wait (continuation k low (acc * 64 + (b - 0x80))) else invalid

decode_next : Decoded → (Pending → Option Text) → Option Text
decode_next (emit c) rest = Option.map (λ s. c ∷ s) (rest at_start)
decode_next (wait p) rest = rest p
decode_next invalid rest = none

decode_from : Bytes → Pending → Option Text
unfolding decode_next
decode_from [] at_start = some []
decode_from [] (continuation k low acc) = none
decode_from (b ∷ bs) p = decode_next (next_byte p b) (λ q. decode_from bs q)

unfoldable pub decode : Bytes → Option Text
unfolding decode_from next_byte
decode bs = decode_from bs at_start

-- Reading the last byte of a code point: `acc` holds the bits above it.
emit_last :
    (low acc d c : ℕ)
    → d < 64
    → acc * 64 + d ≡ c
    → low ≤ c
    → c < 0x110000
    → (c < 0xD800) ⊎ (0xDFFF < c)
    → next_byte (continuation 0 low acc) (0x80 + d) ≡ emit c
unfolding next_byte
emit_last low acc d c h e l u s = ground arith

-- Reading a byte in the middle.
wait_more :
    (k low acc d : ℕ)
    → d < 64
    → next_byte (continuation (suc k) low acc) (0x80 + d) ≡ wait (continuation k low (acc * 64 + d))
unfolding next_byte
wait_more k low acc d h = ground arith

first_of_one : (c : ℕ) → c < 0x80 → next_byte at_start c ≡ emit c
unfolding next_byte
first_of_one c h = ground arith

first_of_two : (d : ℕ) → d < 32 → next_byte at_start (0xC0 + d) ≡ wait (continuation 0 0x80 d)
unfolding next_byte
first_of_two d h = ground arith

first_of_three : (d : ℕ) → d < 16 → next_byte at_start (0xE0 + d) ≡ wait (continuation 1 0x800 d)
unfolding next_byte
first_of_three d h = ground arith

first_of_four : (d : ℕ) → d < 8 → next_byte at_start (0xF0 + d) ≡ wait (continuation 2 0x10000 d)
unfolding next_byte
first_of_four d h = ground arith

-- What is read after the bytes of `c`.
abbrev Reads : ℕ → Bytes → Type 0
Reads c b =
    (bs : Bytes)
    → decode_from (b ++ bs) at_start ≡ Option.map (λ s. c ∷ s) (decode_from bs at_start)

Reads-one : (c : ℕ) → c < 0x80 → Reads c (c ∷ [])
unfolding decode_from
Reads-one c h bs = rw (first_of_one c h)

Reads-two : (c : ℕ) → 0x80 ≤ c → c < 0x800 → Reads c ((0xC0 + c / 64) ∷ (0x80 + c % 64) ∷ [])
unfolding decode_from
Reads-two c l h bs = rw (
  first_of_two (c / 64) (omega arith),
  emit_last 0x80 (c / 64) (c % 64) c (omega arith) (omega arith) l (omega arith) (omega arith),
)

Reads-three :
    (c : ℕ)
    → 0x800 ≤ c
    → c < 0x10000
    → (c < 0xD800) ⊎ (0xDFFF < c)
    → Reads c ((0xE0 + c / 4096) ∷ (0x80 + c / 64 % 64) ∷ (0x80 + c % 64) ∷ [])
unfolding decode_from
Reads-three c l h s bs =
    let e : c / 4096 * 64 + c / 64 % 64 ≡ c / 64 = omega arith in
    rw (
      first_of_three (c / 4096) (omega arith),
      wait_more 0 0x800 (c / 4096) (c / 64 % 64) (omega arith),
      e,
      emit_last 0x800 (c / 64) (c % 64) c (omega arith) (omega arith) l (omega arith) s,
    )

Reads-four :
    (c : ℕ)
    → 0x10000 ≤ c
    → c < 0x110000
    → Reads c
        ((0xF0 + c / 262144) ∷ (0x80 + c / 4096 % 64) ∷ (0x80 + c / 64 % 64) ∷ (0x80 + c % 64) ∷ [])
unfolding decode_from
Reads-four c l h bs =
    let e : c / 262144 * 64 + c / 4096 % 64 ≡ c / 4096 = omega arith in
    let f : c / 4096 * 64 + c / 64 % 64 ≡ c / 64 = omega arith in
    rw (
      first_of_four (c / 262144) (omega arith),
      wait_more 1 0x10000 (c / 262144) (c / 4096 % 64) (omega arith),
      e,
      wait_more 0 0x10000 (c / 4096) (c / 64 % 64) (omega arith),
      f,
      emit_last 0x10000 (c / 64) (c % 64) c (omega arith) (omega arith) l h (omega arith),
    )

-- The bytes of one code point are read back as that code point.
encode_point-Reads : (c : ℕ) {b : Bytes} → encode_point c ≡ ok b → Reads c b
unfolding encode_point
encode_point-Reads c h = elim (Bool-cases (ltb c 0x80)) [
  | inl p ↦ subst (Reads c) (ok_inj (rw p at h)) (Reads-one c (ground arith))
  | inr p ↦ elim (Bool-cases (ltb c 0x800)) [
    | inl q ↦ subst (Reads c) (ok_inj (rw (p, q) at h)) (Reads-two c (ground arith) (ground arith))
    | inr q ↦ elim (Bool-cases (leb 0xD800 c && leb c 0xDFFF)) [
      | inl r ↦ absurd (ok-ne-raise (rw (p, q, r) at h))
      | inr r ↦ elim (Bool-cases (ltb c 0x10000)) [
        | inl t ↦
            subst (Reads c) (ok_inj (rw (p, q, r, t) at h))
              (Reads-three c (ground arith) (ground arith) (ground arith))
        | inr t ↦ elim (Bool-cases (ltb c 0x110000)) [
          | inl u ↦
              subst (Reads c) (ok_inj (rw (p, q, r, t, u) at h))
                (Reads-four c (ground arith) (ground arith))
          | inr u ↦ absurd (ok-ne-raise (rw (p, q, r, t, u) at h))
        ]
      ]
    ]
  ]
]

-- Decoding what `encode` wrote gives the text back.
pub decode-encode : (s : Text) {b : Bytes} → encode s ≡ ok b → decode b ≡ some s
unfolding encode decode
decode-encode [] h = rw (← ok_inj h)
decode-encode (c ∷ s) {b} h =
    let (x, hx, r) = >>=-eq-ok (encode_point c) _ h in
    let (xs, hxs, e) = >>=-eq-ok (encode s) _ r in
    subst (λ t. decode_from t at_start ≡ some (c ∷ s)) (ok_inj e)
      (encode_point-Reads c hx xs ∙ rw (decode-encode s hxs))

-- Two texts with one encoding are equal.
pub encode_inj : (s t : Text) {b : Bytes} → encode s ≡ ok b → encode t ≡ ok b → s ≡ t
encode_inj s t {b} hs ht = some_inj (sym (decode-encode s hs) ∙ decode-encode t ht)

utf8_tests :
    (encode (codes "aé€") ≡ ok (0x61 ∷ 0xC3 ∷ 0xA9 ∷ 0xE2 ∷ 0x82 ∷ 0xAC ∷ []))
    × (encode (0x1F600 ∷ []) ≡ ok (0xF0 ∷ 0x9F ∷ 0x98 ∷ 0x80 ∷ []))
    × (encode (b'a' ∷ 0xD800 ∷ []) ≡ raise unicode_encode_error)
    × (decode (0xC0 ∷ 0x80 ∷ []) ≡ none)
    × (decode (0xED ∷ 0xA0 ∷ 0x80 ∷ []) ≡ none)
unfolding encode decode
utf8_tests = (refl, refl, refl, refl, refl)
