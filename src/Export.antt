-- ===== src/Export.antt =====
-- src/waxseal/domain/export.py: one entry with a membership proof against a root over its batch.
-- The JSON text of a bundle is not modelled.
pub mod Bundle
pub mod Built
use waxseal.Base.{
  Result, ◌>>◌, map, suc, zero, ok, ◌>>=◌, List, Option, ◌==◌, Text, text_eq, false, none, some,
  Bool, raise, ℕ, Bytes, ◌&&◌, ◌∷◌, if◌then◌else◌, [], raise_if, length, index_error, true, ◌||◌,
  not, lp_encoding_error,
}
use waxseal.Anchoring.{batch_root}
use waxseal.Anchoring.Proofs.{verify_membership, membership_proof}
use waxseal.Base.Int.{leb_ℤ, ltb_ℤ, ℤ, pos, pos_part}
use waxseal.Digest.{Hashes}
use waxseal.Handoff.{all_lower_hex}
use waxseal.Hashing.{compute_entry_hash}
use waxseal.Header.{Entry, EntryHeader}
use waxseal.Registry.{VersionRegistry, Encoder, encoder_for}
use waxseal.Verify.{payload_differs}

pub record ProofBundle : Type 0 where
  pub header : EntryHeader
  pub entry_hash : Text
  pub payload : Option Bytes
  pub batch_size : ℤ
  pub proof : List Text
  pub root : Text

pub data BundleReason : Type 0 where
  malformed_bundle bundle_entry_hash_mismatch bundle_payload_hash_mismatch : BundleReason
  membership_not_proven : BundleReason

pub record BundleResult : Type 0 where
  pub is_valid : Bool
  pub reason : Option BundleReason
  pub is_unverifiable : Bool

abbrev pub bad_bundle : BundleReason → Bool → BundleResult
bad_bundle reason is_unverifiable = record {
  is_valid = false;
  reason = some reason;
  is_unverifiable = is_unverifiable;
}

-- `_is_sha256_hex`
unfoldable pub is_hex64 : Text → Bool
is_hex64 value = (length value == 64) && all_lower_hex value

-- `entries[seq]`, in the batch
unfoldable pub entry_at : List Entry → ℕ → Result Entry
entry_at [] n = raise index_error
entry_at (e ∷ es) zero = ok e
entry_at (e ∷ es) (suc n) = entry_at es n

module _ (hs : Hashes) where
  unfoldable pub build_proof_bundle : List Entry → ℤ → Result ProofBundle
  unfolding entry_at
  build_proof_bundle entries seq =
      let hashes = map (λ (e : Entry). e.entry_hash) entries in
      raise_if (not (leb_ℤ (pos 0) seq && ltb_ℤ seq (pos (length entries)))) index_error >> (do
        e ← entry_at entries (pos_part seq)
        proof ← membership_proof hs hashes seq
        top ← batch_root hs hashes
        ok (record {
          header = e.header;
          entry_hash = e.entry_hash;
          payload = e.payload;
          batch_size = pos (length hashes);
          proof = proof;
          root = top;
        }))

  -- The membership check and the result after it.
  unfoldable pub bundle_membership : ProofBundle → Bool → Result BundleResult
  bundle_membership b is_unverifiable = do
    proven ← verify_membership hs b.entry_hash b.header.seq b.batch_size b.proof b.root
    ok (
        if not proven
        then bad_bundle membership_not_proven is_unverifiable
        else record { is_valid = true; reason = none; is_unverifiable = is_unverifiable })

  -- The tests of a recomputed hash; `except LpEncodingError` is the first clause.
  unfoldable pub bundle_content : ProofBundle → Result Text → Result BundleResult
  unfolding bundle_membership
  bundle_content b (raise lp_encoding_error) = ok (bad_bundle bundle_entry_hash_mismatch false)
  bundle_content b (raise e) = raise e
  bundle_content b (ok digest) =
      if not (text_eq digest b.entry_hash)
      then ok (bad_bundle bundle_entry_hash_mismatch false)
      else if payload_differs hs b.payload b.header.payload_hash
      then ok (bad_bundle bundle_payload_hash_mismatch false)
      else bundle_membership b false

  -- The branch on `registry.recomputable(...)`, which says whether there is an encoder.
  unfoldable pub bundle_by_encoder : ProofBundle → Option Encoder → Result BundleResult
  unfolding bundle_content
  bundle_by_encoder b none = bundle_membership b true
  bundle_by_encoder b (some encoder) = bundle_content b (compute_entry_hash hs encoder b.header)

  unfoldable pub verify_proof_bundle : ProofBundle → VersionRegistry → Result BundleResult
  unfolding bundle_by_encoder is_hex64
  verify_proof_bundle b registry =
      let seq = b.header.seq in
      if ltb_ℤ b.batch_size (pos 1) || not (leb_ℤ (pos 0) seq && ltb_ℤ seq b.batch_size)
      then ok (bad_bundle malformed_bundle false)
      else if not (is_hex64 b.entry_hash) || not (is_hex64 b.root)
      then ok (bad_bundle malformed_bundle false)
      else encoder_for registry b.header.hash_version >>= bundle_by_encoder b
