-- ===== src/Bond/Digest.antt =====
-- The digest of src/waxseal/domain/bond.py that a writer signs, and equivocation proofs.
use waxseal.Base.{
  >>=-eq-ok, Text, ok_inj, ◌++◌, length, refl, subst, ◌||◌, ap, Bytes, ok, inl, text_eq_cases,
  Bool-cases, ◌⊎◌, sym, inr, text_eq_iff, IsBytes, ◌≡◌, ◌≢◌, append_inj, none, ◌∙◌,
}
use waxseal.Base.Int.{eq_ℤ, eq_ℤ_iff}
use waxseal.Bond.{
  EquivocationProof, signing_frame, equivocation_digests, ledger_checkpoint_sig_prefix, is_empty,
  checkpoint_signing_digest, trail_id_for, validate_equivocation,
}
use waxseal.Bytes.Hex.{hex, hex_inj}
use waxseal.Bytes.Utf8.{encode_inj, encode}
use waxseal.Bytes.Word.{pack_u64}
use waxseal.Checkpoint.{Checkpoint, checkpoint_frame, IsCheckpoint}
use waxseal.Checkpoint.Frame.{checkpoint_frame_inj}
use waxseal.Digest.{CollisionIn, Hashes, digest_agree}
use waxseal.Hashing.{relabel, text, lp}
use waxseal.Hashing.Injective.{lp_inj, relabel-eq-ok}

-- What a proof that validates says.
diverges :
    (p : EquivocationProof)
    → validate_equivocation p ≡ none
    → (p.checkpoint_a.seq ≡ p.checkpoint_b.seq) × (p.checkpoint_a ≢ p.checkpoint_b)
unfolding validate_equivocation
diverges p valid = elim (Bool-cases (is_empty p.signature_a || is_empty p.signature_b)) [
  | inl missing ↦ cc (rw missing at valid)
  | inr signed ↦ elim (Bool-cases (eq_ℤ p.checkpoint_a.seq p.checkpoint_b.seq)) [
    | inr other ↦ cc (rw (signed, other) at valid)
    | inl here ↦ (
      (eq_ℤ_iff p.checkpoint_a.seq p.checkpoint_b.seq).0 here,
      λ same.
          let hashes =
            (text_eq_iff p.checkpoint_a.entry_hash p.checkpoint_b.entry_hash).1
              (ap (λ c. c.entry_hash) same) in
          let roots =
            (text_eq_iff p.checkpoint_a.root p.checkpoint_b.root).1 (ap (λ c. c.root) same) in
          cc (rw (signed, here, hashes, roots) at valid),
    )
  ]
]

-- The byte strings that `checkpoint_signing_digest` hashes: the chain id, and the frame.
unfoldable pub HashedToSign : Hashes → Text → Checkpoint → Bytes → Type 0
HashedToSign hs g c m = (relabel (encode g) ≡ ok m) ⊎ (signing_frame hs g c ≡ ok m)

module _ (hs : Hashes) where
  trail_id_for-IsBytes : (g : Text) {t : Bytes} → trail_id_for hs g ≡ ok t → IsBytes t
  unfolding trail_id_for
  trail_id_for-IsBytes g h =
      let (a, _, e) = >>=-eq-ok (relabel (encode g)) _ h in
      subst IsBytes (ok_inj e) (hs.sha256-IsBytes a)

  -- The parts of a frame that was built.
  Parts : Text → Checkpoint → Bytes → Type 0
  Parts g c frame_bytes =
      (size : Bytes) × (trail : Bytes) × (field : Bytes) × (body : Bytes) × (pack_u64 2 ≡ ok size)
      × (trail_id_for hs g ≡ ok trail)
      × (lp (text (hex trail)) ≡ ok field)
      × (checkpoint_frame c ≡ ok body)
      × (frame_bytes ≡ ledger_checkpoint_sig_prefix ++ (size ++ (field ++ body)))

  signing_frame-Parts :
      (g : Text) (c : Checkpoint) {b : Bytes} → signing_frame hs g c ≡ ok b → Parts g c b
  unfolding signing_frame Parts
  signing_frame-Parts g c h =
      let (size, h1, r1) = >>=-eq-ok (pack_u64 2) _ h in
      let (trail, h2, r2) = >>=-eq-ok (trail_id_for hs g) _ r1 in
      let (field, h3, r3) = >>=-eq-ok (lp (text (hex trail))) _ r2 in
      let (body, h4, r4) = >>=-eq-ok (checkpoint_frame c) _ r3 in
      (size, trail, field, body, h1, h2, h3, h4, sym (ok_inj r4))

module _ (hs : Hashes) (M : Bytes → Type 0) where
  trail_id_for_inj :
      (g h : Text) {t : Bytes}
      → ((m : Bytes) → relabel (encode g) ≡ ok m → M m)
      → ((m : Bytes) → relabel (encode h) ≡ ok m → M m)
      → trail_id_for hs g ≡ ok t
      → trail_id_for hs h ≡ ok t
      → (g ≡ h) ⊎ CollisionIn hs M
  unfolding trail_id_for
  trail_id_for_inj g h cg ch hg hh =
      let (a, ha, ea) = >>=-eq-ok (relabel (encode g)) _ hg in
      let (b, hb, eb) = >>=-eq-ok (relabel (encode h)) _ hh in
      elim (digest_agree hs M a b (cg a ha) (ch b hb) (ok_inj ea ∙ sym (ok_inj eb))) [
        | inl same ↦ inl (
            encode_inj g h (relabel-eq-ok (encode g) ha ∙ ap ok same) (relabel-eq-ok (encode h) hb))
        | inr c ↦ inr c
      ]

  signing_frame_inj :
      (g h : Text) (c d : Checkpoint) {b : Bytes}
      → ((m : Bytes) → relabel (encode g) ≡ ok m → M m)
      → ((m : Bytes) → relabel (encode h) ≡ ok m → M m)
      → IsCheckpoint c
      → IsCheckpoint d
      → signing_frame hs g c ≡ ok b
      → signing_frame hs h d ≡ ok b
      → ((g ≡ h) × (c ≡ d)) ⊎ CollisionIn hs M
  unfolding Parts
  signing_frame_inj g h c d cg ch ic id hg hh =
      let (s, t, f, u, hs1, ht, hf, hu, ew) = signing_frame-Parts hs g c hg in
      let (s', t', f', u', hs2, ht', hf', hu', ew') = signing_frame-Parts hs h d hh in
      let sizes : s ≡ s' = ok_inj (sym hs1 ∙ hs2) in
      let tails =
        (append_inj ledger_checkpoint_sig_prefix ledger_checkpoint_sig_prefix refl
          (sym ew ∙ ew')).1 in
      let rests : f ++ u ≡ f' ++ u' = (append_inj s s' (ap length sizes) tails).1 in
      let (fields, bodies) = lp_inj (text (hex t)) (text (hex t')) hf hf' rests in
      let trails : t ≡ t' =
        hex_inj t t' (trail_id_for-IsBytes hs g ht) (trail_id_for-IsBytes hs h ht') (cc fields) in
      elim (trail_id_for_inj g h cg ch (ht ∙ ap ok trails) ht') [
        | inl same ↦ inl (same, checkpoint_frame_inj c d ic id (hu ∙ ap ok bodies) hu')
        | inr found ↦ inr found
      ]

module _ (hs : Hashes) where
  -- Two signing digests that agree are those of one trail and one checkpoint, or two different byte
  -- strings among the chain ids and the frames that are hashed for the two have one SHA-256 digest.
  pub checkpoint_signing_digest_inj :
      (g h : Text) (c d : Checkpoint) {digest : Bytes}
      → IsCheckpoint c
      → IsCheckpoint d
      → checkpoint_signing_digest hs g c ≡ ok digest
      → checkpoint_signing_digest hs h d ≡ ok digest
      → ((g ≡ h) × (c ≡ d)) ⊎ CollisionIn hs (λ m. HashedToSign hs g c m ⊎ HashedToSign hs h d m)
  unfolding checkpoint_signing_digest HashedToSign
  checkpoint_signing_digest_inj g h c d ic id hg hh =
      let (a, ha, ea) = >>=-eq-ok (signing_frame hs g c) _ hg in
      let (b, hb, eb) = >>=-eq-ok (signing_frame hs h d) _ hh in
      elim (digest_agree hs _ a b (inl (inr ha)) (inr (inr hb)) (ok_inj ea ∙ sym (ok_inj eb))) [
        | inl same ↦
            signing_frame_inj hs _ g h c d (λ m e. inl (inl e)) (λ m e. inr (inl e)) ic id
              (ha ∙ ap ok same) hb
        | inr found ↦ inr found
      ]

  -- An equivocation proof that validates is about one position with two different contents, and
  -- the digests that its two signatures are over differ, or two different byte strings that are
  -- hashed for these digests have one SHA-256 digest.
  pub validate_equivocation-diverges :
      (p : EquivocationProof) {a b : Bytes}
      → IsCheckpoint p.checkpoint_a
      → IsCheckpoint p.checkpoint_b
      → validate_equivocation p ≡ none
      → equivocation_digests hs p ≡ ok (a, b)
      → (p.checkpoint_a.seq ≡ p.checkpoint_b.seq)
        × (p.checkpoint_a ≢ p.checkpoint_b)
        × ((a ≢ b)
            ⊎ CollisionIn hs (λ m.
              HashedToSign hs p.chain_id p.checkpoint_a m
              ⊎ HashedToSign hs p.chain_id p.checkpoint_b m))
  unfolding equivocation_digests
  validate_equivocation-diverges p {a} {b} ia ib valid digests =
      let (seqs, apart) = diverges p valid in
      let (a', ha, ra) =
        >>=-eq-ok (checkpoint_signing_digest hs p.chain_id p.checkpoint_a) _ digests in
      let (b', hb, rb) = >>=-eq-ok (checkpoint_signing_digest hs p.chain_id p.checkpoint_b) _ ra in
      (
        seqs,
        apart,
        elim (text_eq_cases a b) [
          | inr differ ↦ inl differ
          | inl same ↦
              let one : a' ≡ b' =
                ap (λ t. t.0) (ok_inj rb) ∙ same ∙ sym (ap (λ t. t.1) (ok_inj rb)) in
              elim (checkpoint_signing_digest_inj p.chain_id p.chain_id p.checkpoint_a
                p.checkpoint_b ia ib (ha ∙ ap ok one) hb) [
                  | inl (_, equal) ↦ absurd (apart equal)
                  | inr found ↦ inr found
                ]
        ],
      )
