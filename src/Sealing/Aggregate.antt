-- ===== src/Sealing/Aggregate.antt =====
-- `verify_aggregate` and `verify_anchored_aggregate` of src/waxseal/domain/sealing.py: the
-- aggregate against the state of the sidecar, and against a commitment anchored outside of it.
use waxseal.Base.{
  ap, raise, ◌>>=◌, text_eq_iff, inl, false, [], unicode_encode_error, Option, value_error, ◌⊎◌,
  not, Bytes, ok, List, text_eq, length, true, ◌&&◌, some, inr, ◌∙◌, ok_inj, Result, ◌≡◌, refl,
  ◌||◌, text_eq_refl, ◌∷◌, none, Bool-cases, Bool, drop, >>=-eq-ok, Text, arith, sym,
  lp_encoding_error,
}
use waxseal.Base.Int.{ltb_ℤ, pos_part, leb_ℤ, ℤ, pos}
use waxseal.Bytes.Ascii.{compare_digest, is_ascii, is_ascii-hex}
use waxseal.Bytes.Decimal.{show_int}
use waxseal.Bytes.Hex.{from_hex-hex, from_hex}
use waxseal.Digest.{Hashes, hexdigest, CollisionIn, hexdigest_agree}
use waxseal.Hashing.{text, frame}
use waxseal.Hashing.Injective.{frame_inj}
use waxseal.Sealing.{
  agg_commit_frame_prefix, aggregate_commit, agg_genesis, Attestation, has_agg_scheme,
  run_aggregate,
}

pub data AggReason : Type 0 where
  malformed_aggregate aggregate_epoch_mismatch aggregate_mismatch : AggReason
  malformed_anchored_aggregate anchored_aggregate_epoch_mismatch : AggReason
  anchored_aggregate_mismatch : AggReason

-- `any(att.scheme == FS_HMAC_AGG_SCHEME for att in atts)`
unfoldable pub any_agg : List Attestation → Bool
any_agg [] = false
any_agg (att ∷ atts) = has_agg_scheme att || any_agg atts

-- `except ValueError: return reason` around `bytes.fromhex`; an `LpEncodingError` and a
-- `UnicodeEncodeError` are a `ValueError`.
unfoldable pub on_value_error {ℓ} :
    {A : Type ℓ}
    → AggReason
    → (A → Result (Option AggReason))
    → Result A
    → Result (Option AggReason)
on_value_error reason next (raise value_error) = ok (some reason)
on_value_error reason next (raise lp_encoding_error) = ok (some reason)
on_value_error reason next (raise unicode_encode_error) = ok (some reason)
on_value_error reason next (raise e) = raise e
on_value_error reason next (ok a) = next a

-- `if c: return reason`, and what follows
abbrev return_if : Bool → AggReason → Result (Option AggReason) → Result (Option AggReason)
return_if true reason rest = ok (some reason)
return_if false reason rest = rest

unfoldable out_of_range : ℤ → ℤ → Bool
out_of_range agg_start epoch = not (leb_ℤ (pos 0) agg_start && leb_ℤ agg_start epoch)

-- A check that ended without a reason has passed every guard.
return_if-none :
    (c : Bool) (reason : AggReason) (rest : Result (Option AggReason))
    → return_if c reason rest ≡ ok none
    → (c ≡ false) × (rest ≡ ok none)
return_if-none true reason rest h = cc
return_if-none false reason rest h = (refl, h)

on_value_error-none {ℓ} :
    {A : Type ℓ} (reason : AggReason) (next : A → Result (Option AggReason)) (m : Result A)
    → on_value_error reason next m ≡ ok none
    → (a : A) × (m ≡ ok a) × (next a ≡ ok none)
unfolding on_value_error
on_value_error-none reason next (raise value_error) h = cc
on_value_error-none reason next (raise lp_encoding_error) h = cc
on_value_error-none reason next (raise unicode_encode_error) h = cc
on_value_error-none reason next (raise _) h = cc
on_value_error-none reason next (ok a) h = (a, refl, h)

compare_digest_refl : (s : Text) → is_ascii s ≡ true → compare_digest s s ≡ ok true
unfolding compare_digest
compare_digest_refl s h = rw (h, text_eq_refl s)

compare_digest-true : (a b : Text) → compare_digest a b ≡ ok true → a ≡ b
unfolding compare_digest
compare_digest-true a b h = elim (Bool-cases (is_ascii a && is_ascii b)) [
  | inl ascii ↦ (text_eq_iff a b).0 (ok_inj (rw ascii at h))
  | inr odd ↦ cc (rw odd at h)
]

-- The byte string that a commitment to one of two aggregates at an epoch is a digest of.
unfoldable pub CommitFrame : ℤ → Text → Text → Bytes → Type 0
CommitFrame epoch agg anchored m =
    (frame agg_commit_frame_prefix 2 (text (show_int epoch) ∷ text agg ∷ []) ≡ ok m)
    ⊎ (frame agg_commit_frame_prefix 2 (text (show_int epoch) ∷ text anchored ∷ []) ≡ ok m)

module _ (hs : Hashes) where
  unfoldable pub verify_aggregate :
      List Attestation → Bytes → ℤ → ℤ → Text → Result (Option AggReason)
  unfolding out_of_range
  verify_aggregate atts initial_key agg_start epoch agg =
      return_if (out_of_range agg_start epoch) malformed_aggregate (
        return_if (ltb_ℤ (pos (length atts)) epoch) aggregate_epoch_mismatch (
          on_value_error malformed_aggregate
            (λ _. return_if (any_agg (drop (pos_part epoch) atts)) aggregate_epoch_mismatch (
              on_value_error malformed_aggregate
                (λ running. return_if (not (text_eq running agg)) aggregate_mismatch (ok none))
                (run_aggregate hs 0 initial_key agg_genesis agg_start epoch atts)))
            (from_hex agg)))

  unfoldable pub verify_anchored_aggregate :
      List Attestation → Bytes → ℤ → ℤ → Text → Result (Option AggReason)
  unfolding out_of_range
  verify_anchored_aggregate atts initial_key agg_start anchored_epoch anchored_commit =
      return_if (out_of_range agg_start anchored_epoch) malformed_anchored_aggregate (
        on_value_error malformed_anchored_aggregate
          (λ _.
            return_if (ltb_ℤ (pos (length atts)) anchored_epoch) anchored_aggregate_epoch_mismatch (
              on_value_error malformed_anchored_aggregate
                (λ running. do
                  commit ← aggregate_commit hs anchored_epoch running
                  same ← compare_digest commit anchored_commit
                  return_if (not same) anchored_aggregate_mismatch (ok none))
                (run_aggregate hs 0 initial_key agg_genesis agg_start anchored_epoch atts)))
          (from_hex anchored_commit))

  -- What a check of the sidecar's own aggregate has found when it passes.
  verify_aggregate-none :
      (atts : List Attestation) (key : Bytes) (agg_start epoch : ℤ) (agg : Text)
      → verify_aggregate atts key agg_start epoch agg ≡ ok none
      → (out_of_range agg_start epoch ≡ false)
        × (ltb_ℤ (pos (length atts)) epoch ≡ false)
        × (run_aggregate hs 0 key agg_genesis agg_start epoch atts ≡ ok agg)
  unfolding verify_aggregate
  verify_aggregate-none atts key agg_start epoch agg passes =
      let (in_range, h1) = return_if-none _ _ _ passes in
      let (short, h2) = return_if-none _ _ _ h1 in
      let (_, _, h3) = on_value_error-none _ _ _ h2 in
      let (_, h4) = return_if-none _ _ _ h3 in
      let (running, ran, h5) = on_value_error-none _ _ _ h4 in
      let (same, _) = return_if-none (not (text_eq running agg)) aggregate_mismatch (ok none) h5 in
      (in_range, short, ran ∙ ap ok ((text_eq_iff running agg).0 (ground (arith, same))))

  -- A commitment is the hexadecimal print of a digest.
  aggregate_commit-digest :
      (epoch : ℤ) (agg commit : Text)
      → aggregate_commit hs epoch agg ≡ ok commit
      → (bytes : Bytes) × (frame agg_commit_frame_prefix 2 (text (show_int epoch) ∷ text agg ∷ [])
          ≡ ok bytes)
        × (hexdigest hs bytes ≡ commit)
  unfolding aggregate_commit
  aggregate_commit-digest epoch agg commit made =
      let (_, _, h1) = >>=-eq-ok (from_hex agg) _ made in
      let (bytes, framed, h2) = >>=-eq-ok (frame agg_commit_frame_prefix 2 _) _ h1 in
      (bytes, framed, ok_inj h2)

  -- A sidecar whose aggregate passes at an epoch also passes against the commitment that was made
  -- of that aggregate at that epoch.
  pub verify_anchored_aggregate-aggregate_commit :
      (atts : List Attestation) (initial_key : Bytes) (agg_start epoch : ℤ) (agg commit : Text)
      → verify_aggregate atts initial_key agg_start epoch agg ≡ ok none
      → aggregate_commit hs epoch agg ≡ ok commit
      → verify_anchored_aggregate atts initial_key agg_start epoch commit ≡ ok none
  unfolding verify_anchored_aggregate on_value_error
  verify_anchored_aggregate-aggregate_commit atts key agg_start epoch agg commit passes made =
      let (in_range, short, ran) = verify_aggregate-none atts key agg_start epoch agg passes in
      let (bytes, _, digest) = aggregate_commit-digest epoch agg commit made in
      let decoded : from_hex commit ≡ ok (hs.sha256 bytes) =
        unfold hexdigest in ap from_hex (sym digest) ∙ from_hex-hex _ (hs.sha256-IsBytes bytes) in
      let ascii : is_ascii commit ≡ true =
        unfold hexdigest in ap is_ascii (sym digest) ∙ is_ascii-hex _ (hs.sha256-IsBytes bytes) in
      rw (in_range, decoded, short, ran, made, compare_digest_refl commit ascii)

  -- A sidecar whose aggregate passes at an epoch, and which also passes against the commitment to
  -- an aggregate that was anchored for that epoch, holds the anchored aggregate, or the commitment
  -- frames of the two aggregates are different and have one SHA-256 digest.
  pub anchored_aggregate_binds :
      (atts : List Attestation) (initial_key : Bytes) (agg_start epoch : ℤ)
      (agg anchored commit : Text)
      → verify_aggregate atts initial_key agg_start epoch agg ≡ ok none
      → aggregate_commit hs epoch anchored ≡ ok commit
      → verify_anchored_aggregate atts initial_key agg_start epoch commit ≡ ok none
      → (agg ≡ anchored) ⊎ CollisionIn hs (CommitFrame epoch agg anchored)
  unfolding verify_anchored_aggregate CommitFrame
  anchored_aggregate_binds atts key agg_start epoch agg anchored commit passes made anchor_passes =
      let (_, _, ran) = verify_aggregate-none atts key agg_start epoch agg passes in
      let (bytes, framed, digest) = aggregate_commit-digest epoch anchored commit made in
      let (_, h1) =
        return_if-none (out_of_range agg_start epoch) malformed_anchored_aggregate _
          anchor_passes in
      let (_, _, h2) = on_value_error-none _ _ _ h1 in
      let (_, h3) =
        return_if-none (ltb_ℤ (pos (length atts)) epoch) anchored_aggregate_epoch_mismatch _ h2 in
      let (running, ran', h4) = on_value_error-none _ _ _ h3 in
      let (commit', made', h5) = >>=-eq-ok (aggregate_commit hs epoch running) _ h4 in
      let (same, compared, h6) = >>=-eq-ok (compare_digest commit' commit) _ h5 in
      let (equal, _) = return_if-none (not same) anchored_aggregate_mismatch (ok none) h6 in
      let commits : commit' ≡ commit =
        compare_digest-true commit' commit (compared ∙ ap ok (ground (arith, equal))) in
      let (bytes', framed', digest') = aggregate_commit-digest epoch running commit' made' in
      let held : agg ≡ running = ok_inj (sym ran ∙ ran') in
      let mine : frame agg_commit_frame_prefix 2 (text (show_int epoch) ∷ text agg ∷ [])
          ≡ ok bytes' =
        ap (λ t. frame agg_commit_frame_prefix 2 (text (show_int epoch) ∷ text t ∷ [])) held
        ∙ framed' in
      elim (hexdigest_agree hs (CommitFrame epoch agg anchored) bytes' bytes (inl mine) (inr framed)
        (digest' ∙ commits ∙ sym digest)) [
          | inl one ↦
              inl (cc (frame_inj agg_commit_frame_prefix 2 _ _ refl (mine ∙ ap ok one) framed))
          | inr c ↦ inr c
        ]
