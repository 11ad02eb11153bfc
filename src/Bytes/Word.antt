-- ===== src/Bytes/Word.antt =====
-- `struct.pack(">Q", n)`, which raises `struct.error` at 2 ** 64, and `struct.unpack_from`.
use native.Mathlib.Nat.{pow-succ'}
use mathlib.Core.List.{foldl, foldl-append, append_assoc}
use waxseal.Base.{
  struct_error, ok_inj, ◌∷◌, >>=-eq-ok, ◌%◌, ◌<◌, raise, ◌+◌, ltb, ◌≡◌, ◌++◌, append_inj,
  All-append, ok, suc, Result, IsBytes, Bool-cases, ◌^◌, ap, refl, Bytes, ◌∙◌, subst, length-append,
  ok-ne-raise, ℕ, inr, ◌/◌, if◌then◌else◌, arith, length, sym, ◌*◌, ltb→lt, zero, ◌>>=◌, [], inl,
}

-- The `w` low bytes of `n`, the highest first.
unfoldable pub big_endian : ℕ → ℕ → Bytes
big_endian zero n = []
big_endian (suc w) n = big_endian w (n / 256) ++ (n % 256) ∷ []

abbrev push_byte : ℕ → ℕ → ℕ
push_byte acc b = acc * 256 + b

unfoldable pub unpack : Bytes → ℕ
unpack = foldl push_byte 0

abbrev pub u64_limit : ℕ
u64_limit = 2 ^ 64

unfoldable pub pack_u64 : ℕ → Result Bytes
pack_u64 n = if ltb n u64_limit then ok (big_endian 8 n) else raise struct_error

pub length-big_endian : (w n : ℕ) → length (big_endian w n) ≡ w
unfolding big_endian
length-big_endian zero n = refl
length-big_endian (suc w) n =
    omega (
      arith,
      length-append (big_endian w (n / 256)) ((n % 256) ∷ []),
      length-big_endian w (n / 256),
    )

pub big_endian-IsBytes : (w n : ℕ) → IsBytes (big_endian w n)
unfolding big_endian
big_endian-IsBytes zero n = tt
big_endian-IsBytes (suc w) n =
    All-append (λ b. b < 256) (big_endian w (n / 256)) ((n % 256) ∷ [])
      (big_endian-IsBytes w (n / 256)) (omega arith, tt)

quotient-lt : (w n : ℕ) → n < 256 ^ suc w → n / 256 < 256 ^ w
quotient-lt w n h = omega (arith, pow-succ' 256 w)

pub unpack-big_endian : (w n : ℕ) → n < 256 ^ w → unpack (big_endian w n) ≡ n
unfolding unpack big_endian
unpack-big_endian zero n h = omega arith
unpack-big_endian (suc w) n h =
    foldl-append _ _ (big_endian w (n / 256)) _
    ∙ omega (arith, unpack-big_endian w (n / 256) (quotient-lt w n h))

pub unpack-pack_u64 : (n : ℕ) {b : Bytes} → pack_u64 n ≡ ok b → unpack b ≡ n
unfolding pack_u64
unpack-pack_u64 n {b} h = elim (Bool-cases (ltb n u64_limit)) [
  | inl fits ↦
      let e : big_endian 8 n ≡ b = ok_inj (rw fits at h) in
      sym (ap unpack e) ∙ unpack-big_endian 8 n (ltb→lt n u64_limit fits)
  | inr large ↦ absurd (ok-ne-raise (rw large at h))
]

-- `struct.pack(">Q", len(enc)) + enc`
unfoldable pub length_prefixed : Bytes → Result Bytes
length_prefixed enc = do size ← pack_u64 (length enc); ok (size ++ enc)

pub length-pack_u64 : (n : ℕ) {b : Bytes} → pack_u64 n ≡ ok b → length b ≡ 8
unfolding pack_u64
length-pack_u64 n {b} h = elim (Bool-cases (ltb n u64_limit)) [
  | inl fits ↦ subst (λ t. length t ≡ 8) (ok_inj (rw fits at h)) (length-big_endian 8 n)
  | inr large ↦ absurd (ok-ne-raise (rw large at h))
]

-- Length-prefixed blocks are read off the front of a byte string in one way.
pub length_prefixed_inj :
    (a b : Bytes) {x y u v : Bytes}
    → length_prefixed a ≡ ok x
    → length_prefixed b ≡ ok y
    → x ++ u ≡ y ++ v
    → (a ≡ b) × (u ≡ v)
unfolding length_prefixed
length_prefixed_inj a b {x} {y} {u} {v} hx hy e =
    let (m, hm, ex) = >>=-eq-ok (pack_u64 (length a)) _ hx in
    let (n, hn, ey) = >>=-eq-ok (pack_u64 (length b)) _ hy in
    let whole : m ++ (a ++ u) ≡ n ++ (b ++ v) =
      sym (append_assoc m a u)
      ∙ ap (λ t. t ++ u) (ok_inj ex)
      ∙ e
      ∙ sym (ap (λ t. t ++ v) (ok_inj ey))
      ∙ append_assoc n b v in
    let (sizes, rest) =
      append_inj m n (length-pack_u64 (length a) hm ∙ sym (length-pack_u64 (length b) hn)) whole in
    let lengths : length a ≡ length b =
      sym (unpack-pack_u64 (length a) hm) ∙ ap unpack sizes ∙ unpack-pack_u64 (length b) hn in
    append_inj a b lengths rest
