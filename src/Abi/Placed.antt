-- ===== src/Abi/Placed.antt =====
-- Where the loop of `encode_call` in src/waxseal/domain/abi.py puts the head and the tail of a
-- dynamic argument.
use mathlib.Core.List.{append-nil, append_assoc}
use waxseal.Base.{
  ◌-◌, length-append, ◌≡◌, ℕ, suc, Bool-cases, List, ok, Bytes, sym, ◌+◌, ok-ne-raise, refl, ap,
  get_elem?, >>=-eq-ok, length, ◌++◌, ◌==◌, ==_iff, zero, ◌∙◌, ◌*◌, ok_inj, ◌∷◌, take, some,
  take-append, ◌%◌, [], drop-append, inl, arith, inr,
}
use waxseal.Abi.{
  encode_args, encode_uint, slice, zero_bytes, pad_right, encode_bytes, Arg, static, decode_uint,
  dynamic,
}
use waxseal.Abi.Words.{length-zero_bytes, encode_uint_iff}
use waxseal.Base.Int.{pos, pos_part}
use waxseal.Bytes.Word.{big_endian}

-- Tails are whole words.
unfoldable pub Aligned : List Arg → Type 0
Aligned [] = Unit
Aligned (static _ ∷ args) = Aligned args
Aligned (dynamic tail ∷ args) = (length tail % 32 ≡ 0) × Aligned args

-- A slice of three parts that is the middle one.
pub slice-middle :
    (a b c : Bytes) (i n : ℕ) → length a ≡ i → length b ≡ n → slice (a ++ (b ++ c)) i n ≡ b
unfolding slice
slice-middle a b c i n la lb = ap (take n) (drop-append i a (b ++ c) la) ∙ take-append n b c lb

encode_uint-word :
    (n : ℕ) {word : Bytes}
    → encode_uint (pos n) 256 ≡ ok word
    → (length word ≡ 32) × (decode_uint word ≡ ok n)
encode_uint-word n {word} h = elim (encode_uint_iff (pos n) 256) [
  | inl (m, same, _, _, made, size, read) ↦
      let eq : big_endian 32 m ≡ word = ok_inj (sym made ∙ h) in
      (
        ap length (sym eq) ∙ size,
        ap decode_uint (sym eq) ∙ read ∙ ap (λ z. ok (pos_part z)) (sym same),
      )
  | inr (_, raised) ↦ absurd (ok-ne-raise (sym raised ∙ h))
]

pad_right-append :
    (raw : Bytes) → (pad : Bytes) × (pad_right raw ≡ raw ++ pad) × (length (raw ++ pad) % 32 ≡ 0)
unfolding pad_right
pad_right-append raw = elim (Bool-cases (length raw % 32 == 0)) [
  | inl whole ↦ (
    [],
    rw whole (sym (append-nil raw)),
    omega (arith, length-append raw [], (==_iff (length raw % 32) 0).0 whole),
  )
  | inr apart ↦ (
    zero_bytes (32 - length raw % 32),
    rw apart refl,
    omega (
      arith,
      length-append raw (zero_bytes (32 - length raw % 32)),
      length-zero_bytes (32 - length raw % 32),
    ),
  )
]

-- The tail bytes of `encode_bytes`: a word with the length, the bytes and their padding.
pub encode_bytes-parts :
    (value : Bytes) {tail : Bytes}
    → encode_bytes value ≡ ok tail
    → (word : Bytes) × (pad : Bytes) × (tail ≡ word ++ (value ++ pad))
      × (length word ≡ 32)
      × (decode_uint word ≡ ok (length value))
      × (length tail % 32 ≡ 0)
unfolding encode_bytes
encode_bytes-parts value h =
    let (word, sized, made) = >>=-eq-ok (encode_uint (pos (length value)) 256) _ h in
    let (size, read) = encode_uint-word (length value) sized in
    let (pad, padded, whole) = pad_right-append value in
    let parts = sym (ok_inj made) ∙ ap (λ t. word ++ t) padded in
    (
      word,
      pad,
      parts,
      size,
      read,
      omega (arith, ap length parts, length-append word (value ++ pad), size, whole),
    )

-- Where the head and the tail of a dynamic argument stand, in the output of the loop.
pub record Placed (offset i : ℕ) (tail heads tails : Bytes) : Type 0 where
  pub heads_before : Bytes
  pub head : Bytes
  pub heads_after : Bytes
  pub before : Bytes
  pub after : Bytes
  pub heads_lem : heads ≡ heads_before ++ (head ++ heads_after)
  pub tails_lem : tails ≡ before ++ (tail ++ after)
  pub at : length heads_before ≡ i * 32
  pub size : length head ≡ 32
  pub read : decode_uint head ≡ ok (offset + length before)
  pub aligned : length before % 32 ≡ 0

encode_args-dynamic :
    (offset : ℕ) (tail : Bytes) (args : List Arg) {heads tails : Bytes}
    → encode_args offset (dynamic tail ∷ args) ≡ ok (heads, tails)
    → (head : Bytes) × (hs : Bytes) × (ts : Bytes) × (encode_uint (pos offset) 256 ≡ ok head)
      × (encode_args (offset + length tail) args ≡ ok (hs, ts))
      × (heads ≡ head ++ hs)
      × (tails ≡ tail ++ ts)
unfolding encode_args
encode_args-dynamic offset tail args h =
    let (head, first, h1) = >>=-eq-ok (encode_uint (pos offset) 256) _ h in
    let ((hs, ts), rest, h2) = >>=-eq-ok (encode_args (offset + length tail) args) _ h1 in
    (
      head,
      hs,
      ts,
      first,
      rest,
      ap (λ (p : Bytes × Bytes). p.0) (sym (ok_inj h2)),
      ap (λ (p : Bytes × Bytes). p.1) (sym (ok_inj h2)),
    )

encode_args-static :
    (offset : ℕ) (word : Bytes) (args : List Arg) {heads tails : Bytes}
    → encode_args offset (static word ∷ args) ≡ ok (heads, tails)
    → (hs : Bytes) × (length word ≡ 32)
      × (encode_args offset args ≡ ok (hs, tails))
      × (heads ≡ word ++ hs)
unfolding encode_args
encode_args-static offset word args h = elim (Bool-cases (length word == 32)) [
  | inr short ↦ cc (rw short at h)
  | inl fits ↦
      let ((hs, ts), rest, h2) = >>=-eq-ok (encode_args offset args) _ (rw fits at h) in
      (
        hs,
        (==_iff (length word) 32).0 fits,
        rest ∙ ap (λ (p : Bytes × Bytes). ok (hs, p.1)) (ok_inj h2),
        ap (λ (p : Bytes × Bytes). p.0) (sym (ok_inj h2)),
      )
]

encode_args-nil : (offset : ℕ) → encode_args offset [] ≡ ok ([], [])
unfolding encode_args
encode_args-nil offset = refl

pub length-encode_args :
    (offset : ℕ) (args : List Arg) {heads tails : Bytes}
    → encode_args offset args ≡ ok (heads, tails)
    → length heads ≡ length args * 32
length-encode_args offset [] h =
    omega
      (arith, ap (λ (p : Bytes × Bytes). length p.0) (ok_inj (sym (encode_args-nil offset) ∙ h)))
length-encode_args offset (static word ∷ args) h =
    let (hs, size, rest, parts) = encode_args-static offset word args h in
    omega (arith, ap length parts, length-append word hs, size, length-encode_args offset args rest)
length-encode_args offset (dynamic tail ∷ args) h =
    let (head, hs, ts, first, rest, parts, _) = encode_args-dynamic offset tail args h in
    omega (
      arith,
      ap length parts,
      length-append head hs,
      (encode_uint-word offset first).0,
      length-encode_args (offset + length tail) args rest,
    )

pub encode_args-Placed :
    (offset i : ℕ) (tail : Bytes) (args : List Arg) {heads tails : Bytes}
    → get_elem? args i ≡ some (dynamic tail)
    → Aligned args
    → encode_args offset args ≡ ok (heads, tails)
    → Placed offset i tail heads tails
unfolding Aligned
encode_args-Placed offset i tail [] e whole h = cc
encode_args-Placed offset zero tail (static word ∷ args) e whole h = cc
encode_args-Placed offset zero tail (dynamic first ∷ args) e whole h =
    let (head, hs, ts, made, _, heads_eq, tails_eq) = encode_args-dynamic offset first args h in
    let (size, read) = encode_uint-word offset made in
    let same : first ≡ tail = cc in
    record {
      heads_before = [];
      head = head;
      heads_after = hs;
      before = [];
      after = ts;
      heads_lem = heads_eq;
      tails_lem = tails_eq ∙ ap (λ t. t ++ ts) same;
      at = omega arith;
      size = size;
      read = read ∙ ap ok (omega arith);
      aligned = omega arith;
    }
encode_args-Placed offset (suc i) tail (static word ∷ args) e whole h =
    let (hs, size, rest, heads_eq) = encode_args-static offset word args h in
    let p = encode_args-Placed offset i tail args e whole rest in
    record {
      heads_before = word ++ p.heads_before;
      head = p.head;
      heads_after = p.heads_after;
      before = p.before;
      after = p.after;
      heads_lem =
          heads_eq ∙ ap (λ t. word ++ t) p.heads_lem ∙ sym (append_assoc word p.heads_before _);
      tails_lem = p.tails_lem;
      at = omega (arith, length-append word p.heads_before, size, p.at);
      size = p.size;
      read = p.read;
      aligned = p.aligned;
    }
encode_args-Placed offset (suc i) tail (dynamic first ∷ args) e (even, whole) h =
    let (head, hs, ts, made, rest, heads_eq, tails_eq) = encode_args-dynamic offset first args h in
    let p = encode_args-Placed (offset + length first) i tail args e whole rest in
    record {
      heads_before = head ++ p.heads_before;
      head = p.head;
      heads_after = p.heads_after;
      before = first ++ p.before;
      after = p.after;
      heads_lem =
          heads_eq ∙ ap (λ t. head ++ t) p.heads_lem ∙ sym (append_assoc head p.heads_before _);
      tails_lem = tails_eq ∙ ap (λ t. first ++ t) p.tails_lem ∙ sym (append_assoc first p.before _);
      at = omega (arith, length-append head p.heads_before, (encode_uint-word offset made).0, p.at);
      size = p.size;
      read = p.read ∙ ap ok (omega (arith, length-append first p.before));
      aligned = omega (arith, length-append first p.before, even, p.aligned);
    }
