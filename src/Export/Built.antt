-- ===== src/Export/Built.antt =====
-- `build_proof_bundle` of src/waxseal/domain/export.py over a chain that verifies, against
-- `verify_proof_bundle`.
use waxseal.Base.{
  suc, arith, false, IsBytes, text_eq_refl, length-map, ◌&&◌, length, sym, none, ◌||◌, >>=-eq-ok,
  ◌∷◌, Bytes, ◌==◌, ==_iff, inr, ◌≡◌, zero, ◌<◌, Bool-cases, some, Text, ok_inj, ◌+◌, inl, [], true,
  ok, List, leb, refl, ap, map, ℕ, ◌/◌, ◌∙◌, get_elem?, ltb, ◌%◌, not,
}
use waxseal.Anchoring.{batch_root, tree_hash, map_result}
use waxseal.Anchoring.Proofs.{verify_membership}
use waxseal.Anchoring.Proofs.Complete.{verify_membership-membership_proof}
use waxseal.Anchoring.Tree.{tree_hash-IsBytes, length-tree_at}
use waxseal.Base.Int.{leb_ℤ, ltb_ℤ, ℤ, negsuc, pos_part, pos}
use waxseal.Bytes.Hex.{hex, from_hex-hex, hex_digit, from_hex, length-hex}
use waxseal.Digest.{hexdigest, Hashes}
use waxseal.Export.{
  bundle_membership, build_proof_bundle, is_hex64, ProofBundle, verify_proof_bundle, entry_at,
  bundle_content, bundle_by_encoder,
}
use waxseal.Handoff.{all_lower_hex, is_lower_hex}
use waxseal.Hashing.{compute_entry_hash}
use waxseal.Header.{genesis_prev_hash, Entry}
use waxseal.Registry.{VersionRegistry, Encoder, encoder_for}
use waxseal.Verify.{VerifyResult, verify_chain}
use waxseal.Verify.History.{cons-ne-nil}
use waxseal.Verify.Intact.{
  Intact, payload_agrees, unknown_seqs, verify_chain_ok_iff, reproduced, unrecognised,
}
use waxseal.Verify.Rows.{PayloadMatches}

digit_lower : (n : ℕ) → n < 16 → is_lower_hex (hex_digit n) ≡ true
unfolding is_lower_hex hex_digit
digit_lower n h = elim (Bool-cases (ltb n 10)) [
  | inl low ↦ rw low (ground (arith, low))
  | inr high ↦ rw high (ground (arith, high, h))
]

hex_lower : (bs : Bytes) → IsBytes bs → all_lower_hex (hex bs) ≡ true
unfolding all_lower_hex hex
hex_lower [] bytes = refl
hex_lower (b ∷ bs) (small, bytes) =
    rw
      (
        digit_lower (b / 16) (omega (arith, small)),
        digit_lower (b % 16) (omega arith),
        hex_lower bs bytes,
      )
      refl

hex_of_32 : (bs : Bytes) → IsBytes bs → length bs ≡ 32 → is_hex64 (hex bs) ≡ true
unfolding is_hex64
hex_of_32 bs bytes size =
    let whole : (length (hex bs) == 64) ≡ true =
      (==_iff (length (hex bs)) 64).1 (omega (arith, length-hex bs, size)) in
    rw (whole, hex_lower bs bytes) refl

hashes_of : List Entry → List Text
hashes_of es = map (λ (e : Entry). e.entry_hash) es

module _ (hs : Hashes) (registry : VersionRegistry) where
  -- What a row of a chain that verifies is like, with nothing unverifiable.
  record Sound (es : List Entry) (place k : ℕ) : Type 0 where
    e : Entry
    encoder : Encoder
    stored_at : entry_at es k ≡ ok e
    hash_at : get_elem? (hashes_of es) k ≡ some e.entry_hash
    at : e.header.seq ≡ pos place
    found : encoder_for registry e.header.hash_version ≡ ok (some encoder)
    hash : compute_entry_hash hs encoder e.header ≡ ok e.entry_hash
    payload : PayloadMatches hs e.payload e.header.payload_hash

  row-Sound :
      (n : ℕ) (prev : Text) (es : List Entry) (k : ℕ)
      → Intact hs registry n prev es
      → unknown_seqs hs registry es ≡ []
      → k < length es
      → Sound es (n + k) k
  unfolding entry_at hashes_of
  row-Sound n prev [] k whole known h = absurd (omega (arith, h))
  row-Sound n prev (e ∷ es) k (unrecognised at linked found, whole) known h =
      absurd (cons-ne-nil hs (rw found at known))
  row-Sound n prev (e ∷ es) zero (reproduced encoder at linked found hash payload, whole) known h =
      record {
        e = e;
        encoder = encoder;
        stored_at = refl;
        hash_at = refl;
        at = at ∙ ap pos (omega arith);
        found = found;
        hash = hash;
        payload = payload;
      }
  row-Sound n prev (e ∷ es) (suc k) (reproduced encoder at linked found hash payload, whole) known
        h =
      let r = row-Sound (suc n) e.entry_hash es k whole (rw found at known) (omega (arith, h)) in
      record {
        e = r.e;
        encoder = r.encoder;
        stored_at = r.stored_at;
        hash_at = r.hash_at;
        at = r.at ∙ ap pos (omega arith);
        found = r.found;
        hash = r.hash;
        payload = r.payload;
      }

  computed_digest :
      (encoder : Encoder) (e : Entry)
      → compute_entry_hash hs encoder e.header ≡ ok e.entry_hash
      → (m : Bytes) × (e.entry_hash ≡ hex (hs.sha256 m))
  unfolding compute_entry_hash hexdigest
  computed_digest encoder e h =
      let (bytes, _, digest) = >>=-eq-ok (encoder e.header) _ h in (bytes, sym (ok_inj digest))

  decoded_hashes :
      (n : ℕ) (prev : Text) (es : List Entry)
      → Intact hs registry n prev es
      → unknown_seqs hs registry es ≡ []
      → (leaves : List Bytes) × (map_result from_hex (hashes_of es) ≡ ok leaves)
  unfolding map_result hashes_of
  decoded_hashes n prev [] whole known = ([], refl)
  decoded_hashes n prev (e ∷ es) (unrecognised at linked found, whole) known =
      absurd (cons-ne-nil hs (rw found at known))
  decoded_hashes n prev (e ∷ es) (reproduced encoder at linked found hash payload, whole) known =
      let (m, text_m) = computed_digest encoder e hash in
      let read : from_hex e.entry_hash ≡ ok (hs.sha256 m) =
        ap from_hex text_m ∙ from_hex-hex (hs.sha256 m) (hs.sha256-IsBytes m) in
      let (leaves, rest) = decoded_hashes (suc n) e.entry_hash es whole (rw found at known) in
      (hs.sha256 m ∷ leaves, rw (read, rest) refl)

  root_of_leaves :
      (hashes : List Text) (leaves : List Bytes)
      → map_result from_hex hashes ≡ ok leaves
      → batch_root hs hashes ≡ ok (hex (tree_hash hs leaves))
  unfolding batch_root
  root_of_leaves hashes leaves h = rw h refl

  -- The checks of a bundle, one by one.
  verify_proof_bundle-passes :
      (b : ProofBundle) (n size : ℕ) (encoder : Encoder)
      → b.header.seq ≡ pos n
      → b.batch_size ≡ pos size
      → n < size
      → is_hex64 b.entry_hash ≡ true
      → is_hex64 b.root ≡ true
      → encoder_for registry b.header.hash_version ≡ ok (some encoder)
      → compute_entry_hash hs encoder b.header ≡ ok b.entry_hash
      → PayloadMatches hs b.payload b.header.payload_hash
      → verify_membership hs b.entry_hash b.header.seq b.batch_size b.proof b.root ≡ ok true
      → verify_proof_bundle hs b registry
        ≡ ok (record { is_valid = true; reason = none; is_unverifiable = false })
  unfolding verify_proof_bundle bundle_by_encoder bundle_content bundle_membership
  verify_proof_bundle-passes b n size encoder at sizes below entry_hex root_hex found hash payload
        proven =
      let inside : (ltb_ℤ b.batch_size (pos 1)
            || not (leb_ℤ (pos 0) b.header.seq && ltb_ℤ b.header.seq b.batch_size))
          ≡ false =
        range b.header.seq b.batch_size at sizes in
      rw
        (
          inside,
          entry_hex,
          root_hex,
          found,
          hash,
          text_eq_refl b.entry_hash,
          payload_agrees hs b.payload b.header.payload_hash payload,
          proven,
        )
        refl
    where
      range :
          (z s : ℤ)
          → z ≡ pos n
          → s ≡ pos size
          → (ltb_ℤ s (pos 1) || not (leb_ℤ (pos 0) z && ltb_ℤ z s)) ≡ false
      range (pos m) (pos t) e f = ground (arith, ap pos_part e, ap pos_part f, below)
      range (negsuc m) s e f = cc
      range (pos m) (negsuc t) e f = cc

  -- Over a chain that `verify_chain` passes with nothing unverifiable, `build_proof_bundle` has a
  -- bundle for every position of the chain, and `verify_proof_bundle` passes it, recomputed and not
  -- unverifiable.
  pub verify_proof_bundle-build_proof_bundle :
      (entries : List Entry) (n : ℕ) {c : VerifyResult}
      → verify_chain hs registry entries ≡ ok c
      → c.is_ok ≡ true
      → c.unverifiable ≡ []
      → n < length entries
      → (b : ProofBundle) × (build_proof_bundle hs entries (pos n) ≡ ok b)
        × (verify_proof_bundle hs b registry
            ≡ ok (record { is_valid = true; reason = none; is_unverifiable = false }))
  unfolding build_proof_bundle hashes_of
  verify_proof_bundle-build_proof_bundle entries n {c} chain good full below =
      let iff = verify_chain_ok_iff hs registry entries in
      let whole = iff.0 c chain good in
      let known : unknown_seqs hs registry entries ≡ [] =
        ap (λ (t : VerifyResult). t.unverifiable) (ok_inj (sym (iff.1 whole) ∙ chain)) ∙ full in
      let row = row-Sound 0 genesis_prev_hash entries n whole known below in
      let (leaves, decoded) = decoded_hashes 0 genesis_prev_hash entries whole known in
      let rooted = root_of_leaves (hashes_of entries) leaves decoded in
      let (proof, proven, accepted) =
        verify_membership-membership_proof hs (hashes_of entries) n row.hash_at rooted in
      let (m, text_m) = computed_digest row.encoder row.e row.hash in
      let place : row.e.header.seq ≡ pos n = row.at ∙ ap pos (omega arith) in
      let size : length (hashes_of entries) ≡ length entries =
        length-map (λ (e : Entry). e.entry_hash) entries in
      let top = hex (tree_hash hs leaves) in
      let b : ProofBundle = record {
        header = row.e.header;
        entry_hash = row.e.entry_hash;
        payload = row.e.payload;
        batch_size = pos (length (hashes_of entries));
        proof = proof;
        root = top;
      } in
      let up : leb 0 (n + 0) ≡ true = ground arith in
      let inside : ltb (n + 0) (length entries + 0) ≡ true = ground (arith, below) in
      (
        b,
        rw (up, inside, row.stored_at, proven, rooted) refl,
        verify_proof_bundle-passes b n (length (hashes_of entries)) row.encoder place refl
            (omega (arith, below, size))
            (ap is_hex64 text_m
              ∙ hex_of_32 (hs.sha256 m) (hs.sha256-IsBytes m) (hs.length-sha256 m))
            (hex_of_32 (tree_hash hs leaves) (tree_hash-IsBytes hs leaves)
              (unfold tree_hash in length-tree_at hs (length leaves) leaves))
            row.found row.hash row.payload
            (ap
                (λ z.
                  verify_membership hs row.e.entry_hash z (pos (length (hashes_of entries))) proof
                    top)
                place
              ∙ accepted),
      )
