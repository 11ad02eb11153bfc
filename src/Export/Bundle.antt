-- ===== src/Export/Bundle.antt =====
-- What a bundle of src/waxseal/domain/export.py that passes commits to.
use waxseal.Base.{
  some, ◌≡◌, ◌&&◌, Bool-cases, Bool, Bytes, refl, not, sym, ◌⊎◌, ◌||◌, >>=-eq-ok, text_eq_iff,
  if◌then◌else◌, inl, false, text_eq, Result, lp_encoding_error, raise, Option, ok_inj, none, arith,
  ap, Text, ok, true, ok-ne-raise, inr, ℕ, ◌∙◌,
}
use waxseal.Anchoring.Proofs.{verify_membership}
use waxseal.Anchoring.Proofs.Sound.{HashedInProof, accepted_agree}
use waxseal.Base.Int.{negsuc, ltb_ℤ, leb_ℤ, ℤ, pos}
use waxseal.Bytes.Hex.{from_hex-hex, hex, from_hex}
use waxseal.Digest.{Hashes, hexdigest, widen, CollisionIn}
use waxseal.Export.{
  bundle_content, BundleResult, is_hex64, bad_bundle, bundle_by_encoder, ProofBundle, BundleReason,
  bundle_membership, verify_proof_bundle, membership_not_proven,
}
use waxseal.Hashing.{header_frame, compute_entry_hash}
use waxseal.Header.{Entry}
use waxseal.Registry.{encoder_for, Reachable, VersionRegistry, Encoder}
use waxseal.Registry.Append.{encoder_for-header_frame}
use waxseal.Verify.{payload_differs}
use waxseal.Verify.History.{SameRow, HashedInRow, same_row}
use waxseal.Verify.Rows.{payload_differs-false, PayloadMatches}

-- The row that a bundle carries.
abbrev pub bundle_entry : ProofBundle → Entry
bundle_entry b = record { header = b.header; entry_hash = b.entry_hash; payload = b.payload }

module _ (hs : Hashes) where
  bundle_membership-valid :
      (b : ProofBundle) (u : Bool) {r : BundleResult}
      → bundle_membership hs b u ≡ ok r
      → r.is_valid ≡ true
      → (verify_membership hs b.entry_hash b.header.seq b.batch_size b.proof b.root ≡ ok true)
        × (r.is_unverifiable ≡ u)
  unfolding bundle_membership
  bundle_membership-valid b u {r} h good =
      let (proven, checked, h1) =
        >>=-eq-ok (verify_membership hs b.entry_hash b.header.seq b.batch_size b.proof b.root) _
          h in
      go proven checked (ok_inj h1)
    where
      go :
          (proven : Bool)
          → verify_membership hs b.entry_hash b.header.seq b.batch_size b.proof b.root ≡ ok proven
          → (if not proven
              then bad_bundle membership_not_proven u
              else record { is_valid = true; reason = none; is_unverifiable = u })
            ≡ r
          → (verify_membership hs b.entry_hash b.header.seq b.batch_size b.proof b.root ≡ ok true)
            × (r.is_unverifiable ≡ u)
      go true checked e = (checked, ap (λ (r : BundleResult). r.is_unverifiable) (sym e))
      go false checked e =
          let differ : false ≡ true = ap (λ (r : BundleResult). r.is_valid) e ∙ good in cc

  bad_bundle-valid :
      (reason : BundleReason) (u : Bool) {r : BundleResult}
      → ok (bad_bundle reason u) ≡ ok r
      → r.is_valid ≡ true
      → ⊥
  bad_bundle-valid reason u h good =
      let differ : false ≡ true = ap (λ (r : BundleResult). r.is_valid) (ok_inj h) ∙ good in cc

  -- What a pass with a recomputed hash has shown.
  bundle_content-valid :
      (b : ProofBundle) (computed : Result Text) {r : BundleResult}
      → bundle_content hs b computed ≡ ok r
      → r.is_valid ≡ true
      → (computed ≡ ok b.entry_hash)
        × PayloadMatches hs b.payload b.header.payload_hash
        × (verify_membership hs b.entry_hash b.header.seq b.batch_size b.proof b.root ≡ ok true)
  unfolding bundle_content
  bundle_content-valid b (raise lp_encoding_error) h good = absurd (bad_bundle-valid _ _ h good)
  bundle_content-valid b (raise _) h good = absurd (ok-ne-raise h)
  bundle_content-valid b (ok digest) h good = elim (Bool-cases (text_eq digest b.entry_hash)) [
    | inr differ ↦ absurd (bad_bundle-valid _ _ (rw differ at h) good)
    | inl same ↦ elim (Bool-cases (payload_differs hs b.payload b.header.payload_hash)) [
      | inl differs ↦ absurd (bad_bundle-valid _ _ (rw (same, differs) at h) good)
      | inr agrees ↦ (
        ap ok ((text_eq_iff digest b.entry_hash).0 same),
        payload_differs-false hs b.payload b.header.payload_hash agrees,
        (bundle_membership-valid b false (rw (same, agrees) at h) good).0,
      )
    ]
  ]

  -- A pass that is not unverifiable: the row was recomputed with this build's frame, its position
  -- is in the batch, and its entry hash is in the tree of the root.
  verify_proof_bundle-valid :
      (b : ProofBundle) (registry : VersionRegistry) {r : BundleResult}
      → Reachable hs registry
      → verify_proof_bundle hs b registry ≡ ok r
      → r.is_valid ≡ true
      → r.is_unverifiable ≡ false
      → (n : ℕ) × (b.header.seq ≡ pos n)
        × (compute_entry_hash hs header_frame b.header ≡ ok b.entry_hash)
        × PayloadMatches hs b.payload b.header.payload_hash
        × (verify_membership hs b.entry_hash b.header.seq b.batch_size b.proof b.root ≡ ok true)
  unfolding verify_proof_bundle
  verify_proof_bundle-valid b registry {r} reach h good known =
      elim (Bool-cases (
        ltb_ℤ b.batch_size (pos 1)
        || not (leb_ℤ (pos 0) b.header.seq && ltb_ℤ b.header.seq b.batch_size))) [
          | inl outside ↦ absurd (bad_bundle-valid _ _ (rw outside at h) good)
          | inr inside ↦ elim (Bool-cases (not (is_hex64 b.entry_hash) || not (is_hex64 b.root))) [
            | inl garbled ↦ absurd (bad_bundle-valid _ _ (rw (inside, garbled) at h) good)
            | inr fine ↦
                let (found, looked, h1) =
                  >>=-eq-ok (encoder_for registry b.header.hash_version) _
                    (rw (inside, fine) at h) in
                let (hash, payload, member) = by found looked h1 in
                let (n, at) = position b.header.seq b.batch_size inside in
                (n, at, hash, payload, member)
          ]
        ]
    where
      position :
          (z size : ℤ)
          → (ltb_ℤ size (pos 1) || not (leb_ℤ (pos 0) z && ltb_ℤ z size)) ≡ false
          → (n : ℕ) × (z ≡ pos n)
      position (pos n) size e = (n, refl)
      position (negsuc n) size e = absurd (ground (arith, e))

      by :
          (found : Option Encoder)
          → encoder_for registry b.header.hash_version ≡ ok found
          → bundle_by_encoder hs b found ≡ ok r
          → (compute_entry_hash hs header_frame b.header ≡ ok b.entry_hash)
            × PayloadMatches hs b.payload b.header.payload_hash
            × (verify_membership hs b.entry_hash b.header.seq b.batch_size b.proof b.root ≡ ok true)
      by none looked h =
          let differ : false ≡ true = sym known ∙ (bundle_membership-valid b true h good).1 in cc
      by (some encoder) looked h =
          let (hash, payload, member) =
            bundle_content-valid b (compute_entry_hash hs encoder b.header) h good in
          (
            rw (encoder_for-header_frame hs b.header.hash_version reach looked) at hash,
            payload,
            member,
          )

  -- An entry hash that was computed is determined by the bytes that it stands for.
  computed_hash :
      (b : ProofBundle)
      → compute_entry_hash hs header_frame b.header ≡ ok b.entry_hash
      → (d : Bytes) × (b.entry_hash ≡ hex d) × (from_hex b.entry_hash ≡ ok d)
  unfolding compute_entry_hash hexdigest
  computed_hash b h =
      let (bytes, _, digest) = >>=-eq-ok (header_frame b.header) _ h in
      let same = sym (ok_inj digest) in
      (
        hs.sha256 bytes,
        same,
        ap from_hex same ∙ from_hex-hex (hs.sha256 bytes) (hs.sha256-IsBytes bytes),
      )

  -- The byte strings that the check of a bundle hashes.
  unfoldable pub HashedInBundle : ProofBundle → Bytes → Type 0
  HashedInBundle b m =
      HashedInRow (bundle_entry b) m
      ⊎ HashedInProof hs b.entry_hash b.header.seq b.batch_size b.proof m

  -- Two bundles for one position that pass against one root of a batch of one size, neither of them
  -- unverifiable, carry the same header, the same entry hash and, where both have it, the same
  -- payload, or two different byte strings among those that are hashed for the two bundles, which
  -- are their header frames, their payloads and the nodes of their proofs, have one SHA-256 digest.
  pub verify_proof_bundle_binds :
      (b c : ProofBundle) (registry : VersionRegistry) {r s : BundleResult}
      → Reachable hs registry
      → b.header.seq ≡ c.header.seq
      → b.batch_size ≡ c.batch_size
      → b.root ≡ c.root
      → verify_proof_bundle hs b registry ≡ ok r
      → r.is_valid ≡ true
      → r.is_unverifiable ≡ false
      → verify_proof_bundle hs c registry ≡ ok s
      → s.is_valid ≡ true
      → s.is_unverifiable ≡ false
      → SameRow (bundle_entry b) (bundle_entry c)
        ⊎ CollisionIn hs (λ m. HashedInBundle b m ⊎ HashedInBundle c m)
  unfolding HashedInBundle
  verify_proof_bundle_binds b c registry reach seqs sizes roots hb gb kb hc gc kc =
      let (n, at_n, hash_b, payload_b, in_b) =
        verify_proof_bundle-valid b registry reach hb gb kb in
      let (m, at_m, hash_c, payload_c, in_c) =
        verify_proof_bundle-valid c registry reach hc gc kc in
      let (d, text_d, read_d) = computed_hash b hash_b in
      let (e, text_e, read_e) = computed_hash c hash_c in
      let in_b' : verify_membership hs b.entry_hash c.header.seq c.batch_size b.proof c.root
          ≡ ok true =
        rw (seqs, sizes, roots) at in_b in
      let reads_b : (m : Bytes)
          → HashedInProof hs b.entry_hash c.header.seq c.batch_size b.proof m
          → HashedInProof hs b.entry_hash b.header.seq b.batch_size b.proof m =
        λ m h. rw (seqs, sizes) h in
      elim (accepted_agree hs b.entry_hash c.entry_hash c.root c.header.seq c.batch_size b.proof
        c.proof in_b' in_c) [
          | inr found ↦ inr (
              widen
                (λ m h. elim h [
                  | inl mine ↦ inl (inr (reads_b m mine))
                  | inr other ↦ inr (inr other)
                ])
                found)
          | inl agree ↦
              let same : d ≡ e = ok_inj (sym read_d ∙ agree ∙ read_e) in
              elim (same_row hs _ (bundle_entry b) (bundle_entry c) (λ m h. inl (inl h))
                (λ m h. inr (inl h))
                (record { at = at_n; linked = refl; hash = hash_b; payload = payload_b })
                (record { at = at_m; linked = refl; hash = hash_c; payload = payload_c })
                (text_d ∙ ap hex same ∙ sym text_e)) [
                  | inl (row, _, _) ↦ inl row
                  | inr found ↦ inr found
                ]
        ]
