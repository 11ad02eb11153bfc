-- ===== src/Hashing/Injective.antt =====
-- The encoding of src/waxseal/domain/hashing.py and the digests of headers, as maps from their
-- inputs.
use mathlib.Core.List.{append_assoc}
use waxseal.Base.{
  Result, ok, raise, ℕ, Text, Bytes, ok_inj, ◌⊎◌, inl, >>=-eq-ok, inr, arith, ◌∷◌,
  unicode_encode_error, ap, [], append_inj, length, ◌≡◌, refl, sym, ◌++◌, List, ap₂, ◌∙◌,
}
use waxseal.Bytes.Decimal.{show_int, show_int_inj}
use waxseal.Bytes.Utf8.{encode_inj, encode}
use waxseal.Bytes.Word.{pack_u64, length_prefixed_inj}
use waxseal.Digest.{CollisionIn, Hashes, hexdigest_agree}
use waxseal.Hashing.{
  Field, null, compute_entry_hash, lp_all, header_frame, frame_prefix, lp, text, relabel, tagged,
  frame,
}
use waxseal.Header.{EntryHeader}

pub relabel-eq-ok : (r : Result Bytes) {b : Bytes} → relabel r ≡ ok b → r ≡ ok b
relabel-eq-ok (ok a) h = h
relabel-eq-ok (raise unicode_encode_error) h = cc
relabel-eq-ok (raise _) h = cc

tagged_text :
    (s : Text) {b : Bytes} → tagged (text s) ≡ ok b → (e : Bytes) × (encode s ≡ ok e) × (b ≡ 1 ∷ e)
unfolding tagged
tagged_text s h =
    let (e, he, hb) = >>=-eq-ok (relabel (encode s)) _ h in
    (e, relabel-eq-ok (encode s) he, sym (ok_inj hb))

tagged_null : {b : Bytes} → tagged null ≡ ok b → b ≡ 0 ∷ []
unfolding tagged
tagged_null h = sym (ok_inj h)

-- A null and a text never have the same tagged bytes, and neither do two different texts.
tagged_inj : (x y : Field) {b : Bytes} → tagged x ≡ ok b → tagged y ≡ ok b → x ≡ y
tagged_inj null null hx hy = refl
tagged_inj null (text t) hx hy = let (e, he, hb) = tagged_text t hy in cc (tagged_null hx, hb)
tagged_inj (text s) null hx hy = let (e, he, hb) = tagged_text s hx in cc (tagged_null hy, hb)
tagged_inj (text s) (text t) hx hy =
    let (e, he, hb) = tagged_text s hx in
    let (d, hd, hc) = tagged_text t hy in
    let same : e ≡ d = cc (hb, hc) in ap text (encode_inj s t (he ∙ ap ok same) hd)

-- Encoded fields are read off the front of a byte string in one way.
pub lp_inj :
    (x y : Field) {a b u v : Bytes}
    → lp x ≡ ok a
    → lp y ≡ ok b
    → a ++ u ≡ b ++ v
    → (x ≡ y) × (u ≡ v)
unfolding lp
lp_inj x y hx hy e =
    let (m, hm, ha) = >>=-eq-ok (tagged x) _ hx in
    let (n, hn, hb) = >>=-eq-ok (tagged y) _ hy in
    let (same, rest) = length_prefixed_inj m n ha hb e in
    (tagged_inj x y (hm ∙ ap ok same) hn, rest)

lp_all_inj :
    (xs ys : List Field) {a b u v : Bytes}
    → length xs ≡ length ys
    → lp_all xs ≡ ok a
    → lp_all ys ≡ ok b
    → a ++ u ≡ b ++ v
    → (xs ≡ ys) × (u ≡ v)
unfolding lp_all
lp_all_inj [] [] l hx hy e = (refl, cc (ok_inj hx, ok_inj hy))
lp_all_inj [] (y ∷ ys) l hx hy e = absurd (omega arith)
lp_all_inj (x ∷ xs) [] l hx hy e = absurd (omega arith)
lp_all_inj (x ∷ xs) (y ∷ ys) {u = u} {v = v} l hx hy e =
    let (m, hm, rx) = >>=-eq-ok (lp x) _ hx in
    let (ms, hms, ea) = >>=-eq-ok (lp_all xs) _ rx in
    let (n, hn, ry) = >>=-eq-ok (lp y) _ hy in
    let (ns, hns, eb) = >>=-eq-ok (lp_all ys) _ ry in
    let whole : m ++ (ms ++ u) ≡ n ++ (ns ++ v) =
      sym (append_assoc m ms u)
      ∙ ap (λ t. t ++ u) (ok_inj ea)
      ∙ e
      ∙ sym (ap (λ t. t ++ v) (ok_inj eb))
      ∙ append_assoc n ns v in
    let (same, rest) = lp_inj x y hm hn whole in
    let (others, left) = lp_all_inj xs ys (omega arith) hms hns rest in (ap₂ ◌∷◌ same others, left)

-- One frame comes from one list of fields, whatever follows it.
pub frame_inj :
    (prefix : Bytes) (count : ℕ) (xs ys : List Field) {b : Bytes}
    → length xs ≡ length ys
    → frame prefix count xs ≡ ok b
    → frame prefix count ys ≡ ok b
    → xs ≡ ys
unfolding frame
frame_inj prefix count xs ys l hx hy =
    let (m, hm, rx) = >>=-eq-ok (pack_u64 count) _ hx in
    let (a, ha, ea) = >>=-eq-ok (lp_all xs) _ rx in
    let (n, hn, ry) = >>=-eq-ok (pack_u64 count) _ hy in
    let (b, hb, eb) = >>=-eq-ok (lp_all ys) _ ry in
    let sizes : m ≡ n = ok_inj (sym hm ∙ hn) in
    let whole : prefix ++ (m ++ a) ≡ prefix ++ (n ++ b) = ok_inj ea ∙ sym (ok_inj eb) in
    let tails : m ++ a ≡ n ++ b = (append_inj prefix prefix refl whole).1 in
    let bodies : a ≡ b = (append_inj m n (ap length sizes) tails).1 in
    (lp_all_inj xs ys {u = []} {v = []} l ha hb (ap (λ t. t ++ []) bodies)).0

-- Two headers with one frame are the same header: no two field tuples encode alike.
pub header_frame_inj :
    (g h : EntryHeader) {b : Bytes} → header_frame g ≡ ok b → header_frame h ≡ ok b → g ≡ h
unfolding header_frame
header_frame_inj g h eg eh =
    let same = frame_inj frame_prefix 6 _ _ refl eg eh in
    let seqs : show_int g.seq ≡ show_int h.seq = cc same in
    let ts : g.ts ≡ h.ts = cc same in
    let hash_version : g.hash_version ≡ h.hash_version = cc same in
    let payload_type : g.payload_type ≡ h.payload_type = cc same in
    let payload_hash : g.payload_hash ≡ h.payload_hash = cc same in
    let prev_hash : g.prev_hash ≡ h.prev_hash = cc same in
    λ i. record {
      seq = show_int_inj g.seq h.seq seqs i;
      ts = ts i;
      hash_version = hash_version i;
      payload_type = payload_type i;
      payload_hash = payload_hash i;
      prev_hash = prev_hash i;
    }

module _ (hs : Hashes) (M : Bytes → Type 0) where
  -- Two headers with one entry hash are the same header, or their frames collide.
  pub compute_entry_hash_inj :
      (g h : EntryHeader) {d : Text}
      → ((m : Bytes) → header_frame g ≡ ok m → M m)
      → ((m : Bytes) → header_frame h ≡ ok m → M m)
      → compute_entry_hash hs header_frame g ≡ ok d
      → compute_entry_hash hs header_frame h ≡ ok d
      → (g ≡ h) ⊎ CollisionIn hs M
  unfolding compute_entry_hash
  compute_entry_hash_inj g h cg ch eg eh =
      let (a, ha, ea) = >>=-eq-ok (header_frame g) _ eg in
      let (b, hb, eb) = >>=-eq-ok (header_frame h) _ eh in
      elim (hexdigest_agree hs M a b (cg a ha) (ch b hb) (ok_inj ea ∙ sym (ok_inj eb))) [
        | inl same ↦ inl (header_frame_inj g h (ha ∙ ap ok same) hb)
        | inr c ↦ inr c
      ]
