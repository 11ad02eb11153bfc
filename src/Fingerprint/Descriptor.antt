-- ===== src/Fingerprint/Descriptor.antt =====
-- `decode_descriptor` of src/waxseal/domain/registry.py against `descriptor_frame`, and
-- fingerprints against the fields that they are of.

use mathlib.Core.List.{append_assoc, append-nil}
use waxseal.Base.{
  take-append, and_then, drop, arith, ◌∷◌, some, zero, Option, none, ok, ◌∙◌, ap, drop-append, sym,
  >>=-eq-ok, suc, List, Bytes, length, ok_inj, length-append, ◌≡◌, [], ◌==◌, take, ◌⊎◌, Text, ltb,
  ◌++◌, inr, inl, refl, if◌then◌else◌, false, ℕ,
}
use waxseal.Bytes.Utf8.{decode-encode, encode, decode}
use waxseal.Bytes.Word.{length-pack_u64, pack_u64, unpack-pack_u64, length_prefixed, unpack}
use waxseal.Digest.{CollisionIn, Hashes, hexdigest_agree}
use waxseal.Fingerprint.{
  descriptor_prefix, components, algorithm, descriptor_frame, fingerprint_for, lp_component,
  lp_components,
}
use waxseal.Hashing.{encoding}

-- `raw.startswith(prefix)`, with what follows the prefix
strip_prefix : Bytes → Bytes → Option Bytes
strip_prefix [] raw = some raw
strip_prefix (p ∷ ps) [] = none
strip_prefix (p ∷ ps) (b ∷ bs) = if p == b then strip_prefix ps bs else none

-- `raw[pos : pos + size]` and what follows, or `none` where `len(raw) < pos + size`; `raw` is here
-- what is left from `pos`.
read_block : ℕ → Bytes → Option (Bytes × Bytes)
read_block size raw = if ltb (length raw) size then none else some (take size raw, drop size raw)

-- `struct.unpack_from(">Q", raw, pos)`, with the test before it
read_u64 : Bytes → Option (ℕ × Bytes)
unfolding read_block
read_u64 raw = and_then (read_block 8 raw) (λ (size, rest). some (unpack size, rest))

-- `for _ in range(count)`
decode_components : ℕ → Bytes → Option (List Text × Bytes)
unfolding read_block read_u64
decode_components zero raw = some ([], raw)
decode_components (suc count) raw = and_then (read_u64 raw) λ (size, r).
    and_then (read_block size r) λ (block, rest). and_then (decode block) λ component.
      and_then (decode_components count rest) λ (others, end). some (component ∷ others, end)

-- `if pos != len(raw): return None`
at_end : List Text × Bytes → Option (List Text)
at_end (cs, []) = some cs
at_end (cs, b ∷ bs) = none

unfoldable pub decode_descriptor : Bytes → Option (List Text)
unfolding strip_prefix decode_components at_end
decode_descriptor raw =
    and_then (strip_prefix descriptor_prefix raw)
      λ r. and_then (read_u64 r) λ (count, body). and_then (decode_components count body) at_end

read_block-append :
    (n : ℕ) (xs ys : Bytes) → length xs ≡ n → read_block n (xs ++ ys) ≡ some (xs, ys)
unfolding read_block
read_block-append n xs ys h =
    let fits : ltb (length (xs ++ ys)) n ≡ false = ground (arith, length-append xs ys, h) in
    rw (fits, take-append n xs ys h, drop-append n xs ys h)

read_u64-pack_u64 :
    (n : ℕ) {b : Bytes} (rest : Bytes) → pack_u64 n ≡ ok b → read_u64 (b ++ rest) ≡ some (n, rest)
unfolding read_u64
read_u64-pack_u64 n {b} rest h =
    rw (read_block-append 8 b rest (length-pack_u64 n h), unpack-pack_u64 n h)

decode_components-lp_components :
    (cs : List Text) {b : Bytes} (rest : Bytes)
    → lp_components cs ≡ ok b
    → decode_components (length cs) (b ++ rest) ≡ some (cs, rest)
unfolding lp_components length_prefixed decode_components
decode_components-lp_components [] rest h = rw (← ok_inj h)
decode_components-lp_components (c ∷ cs) {b} rest h =
    let (x, hx, r) = >>=-eq-ok (lp_component c) _ h in
    let (xs, hxs, e) = >>=-eq-ok (lp_components cs) _ r in
    let (enc, henc, l) = >>=-eq-ok (encode c) _ hx in
    let (size, hsize, d) = >>=-eq-ok (pack_u64 (length enc)) _ l in
    let bytes : b ++ rest ≡ size ++ (enc ++ (xs ++ rest)) =
      ap (λ t. t ++ rest) (sym (ok_inj e))
      ∙ append_assoc x xs rest
      ∙ ap (λ t. t ++ (xs ++ rest)) (sym (ok_inj d))
      ∙ append_assoc size enc (xs ++ rest) in
    rw bytes (
      rw (
        read_u64-pack_u64 (length enc) (enc ++ (xs ++ rest)) hsize,
        read_block-append (length enc) enc (xs ++ rest) refl,
        decode-encode c henc,
        decode_components-lp_components cs rest hxs,
      ))

-- Decoding the descriptor of a schema gives the algorithm, the encoding and the fields back.
pub decode_descriptor-descriptor_frame :
    (fields : List Text) {b : Bytes}
    → descriptor_frame fields ≡ ok b
    → decode_descriptor b ≡ some (algorithm ∷ encoding ∷ fields)
unfolding descriptor_frame decode_descriptor
decode_descriptor-descriptor_frame fields {b} h =
    let (count, hcount, r) = >>=-eq-ok (pack_u64 (length (components fields))) _ h in
    let (body, hbody, e) = >>=-eq-ok (lp_components (components fields)) _ r in
    let bytes : b ≡ descriptor_prefix ++ (count ++ (body ++ [])) = sym (ok_inj e) ∙ rw append-nil in
    rw bytes (
      rw (
        read_u64-pack_u64 (length (components fields)) (body ++ []) hcount,
        decode_components-lp_components (components fields) [] hbody,
      ))

fields_inj : {a b c d : Text} {xs ys : List Text} → some (a ∷ c ∷ xs) ≡ some (b ∷ d ∷ ys) → xs ≡ ys
fields_inj h = cc

-- Two field lists with one fingerprint are the same list, or their descriptors, which are
-- different, have one SHA-256 digest.
pub fingerprint_for_inj :
    (hs : Hashes) (xs ys : List Text) {fp : Text}
    → fingerprint_for hs xs ≡ ok fp
    → fingerprint_for hs ys ≡ ok fp
    → (xs ≡ ys) ⊎ CollisionIn hs (λ m. (descriptor_frame xs ≡ ok m) ⊎ (descriptor_frame ys ≡ ok m))
unfolding fingerprint_for
fingerprint_for_inj hs xs ys hx hy =
    let (a, ha, ea) = >>=-eq-ok (descriptor_frame xs) _ hx in
    let (b, hb, eb) = >>=-eq-ok (descriptor_frame ys) _ hy in
    elim (hexdigest_agree hs _ a b (inl ha) (inr hb) (ok_inj ea ∙ sym (ok_inj eb))) [
      | inl same ↦ inl (
          fields_inj (
            sym (decode_descriptor-descriptor_frame xs (ha ∙ ap ok same))
            ∙ decode_descriptor-descriptor_frame ys hb))
      | inr c ↦ inr c
    ]
