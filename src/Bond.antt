-- ===== src/Bond.antt =====
-- src/waxseal/domain/bond.py: what a ledger's bond signs, the proofs that forfeit it, and the
-- verdict of its status.
pub mod Digest
pub mod Extension
pub mod Status
use waxseal.Base.{
  Text, some, ◌||◌, ◌++◌, text_eq, Bytes, ◌&&◌, none, codes, true, [], false, Option, List, Bool,
  not, ok, ◌>>=◌, ◌∷◌, Result, if◌then◌else◌,
}
use waxseal.Anchoring.Proofs.{verify_consistency, verify_membership}
use waxseal.Base.Int.{leb_ℤ, pos, eq_ℤ, ℤ, ◌+ℤ◌, ltb_ℤ}
use waxseal.Bytes.Hex.{hex}
use waxseal.Bytes.Utf8.{encode}
use waxseal.Bytes.Word.{pack_u64}
use waxseal.Checkpoint.{checkpoint_frame, Checkpoint}
use waxseal.Digest.{Hashes}
use waxseal.Hashing.{relabel, lp, text}

abbrev pub ledger_checkpoint_sig_prefix : Bytes
ledger_checkpoint_sig_prefix = codes "waxseal-ledger-checkpoint-sig-v1\n"

pub data EquivocationReason : Type 0 where
  equivocation_missing_signature equivocation_seq_mismatch : EquivocationReason
  equivocation_not_divergent : EquivocationReason

pub data NonExtensionReason : Type 0 where
  non_extension_missing_signature non_extension_seq_not_advancing : NonExtensionReason
  non_extension_leaf_index_differs non_extension_leaf_outside_older_tree : NonExtensionReason
  non_extension_leaves_agree : NonExtensionReason

pub record EquivocationProof : Type 0 where
  pub chain_id : Text
  pub checkpoint_a : Checkpoint
  pub signature_a : Bytes
  pub checkpoint_b : Checkpoint
  pub signature_b : Bytes

pub record NonExtensionChallenge : Type 0 where
  pub chain_id : Text
  pub older : Checkpoint
  pub newer : Checkpoint
  pub proof : List Text

pub record DivergentLeaf : Type 0 where
  pub index : ℤ
  pub entry_hash : Text
  pub proof : List Text

pub record NonExtensionProof : Type 0 where
  pub chain_id : Text
  pub older : Checkpoint
  pub newer : Checkpoint
  pub older_signature : Bytes
  pub newer_signature : Bytes
  pub in_older : DivergentLeaf
  pub in_newer : DivergentLeaf

-- `not signature`
unfoldable pub is_empty : Bytes → Bool
is_empty [] = true
is_empty (_ ∷ _) = false

-- `EquivocationProof.validate`
unfoldable pub validate_equivocation : EquivocationProof → Option EquivocationReason
validate_equivocation p =
    if is_empty p.signature_a || is_empty p.signature_b
    then some equivocation_missing_signature
    else if not (eq_ℤ p.checkpoint_a.seq p.checkpoint_b.seq)
    then some equivocation_seq_mismatch
    else if text_eq p.checkpoint_a.entry_hash p.checkpoint_b.entry_hash
        && text_eq p.checkpoint_a.root p.checkpoint_b.root
    then some equivocation_not_divergent
    else none

-- `NonExtensionChallenge.validate`
unfoldable pub validate_challenge : NonExtensionChallenge → Option NonExtensionReason
validate_challenge p =
    if leb_ℤ p.newer.seq p.older.seq then some non_extension_seq_not_advancing else none

-- `NonExtensionProof.validate`
unfoldable pub validate_non_extension : NonExtensionProof → Option NonExtensionReason
validate_non_extension p =
    if is_empty p.older_signature || is_empty p.newer_signature
    then some non_extension_missing_signature
    else if leb_ℤ p.newer.seq p.older.seq
    then some non_extension_seq_not_advancing
    else if not (eq_ℤ p.in_older.index p.in_newer.index)
    then some non_extension_leaf_index_differs
    else if ltb_ℤ p.older.seq p.in_older.index
    then some non_extension_leaf_outside_older_tree
    else if text_eq p.in_older.entry_hash p.in_newer.entry_hash
    then some non_extension_leaves_agree
    else none

module _ (hs : Hashes) where
  unfoldable pub trail_id_for : Text → Result Bytes
  trail_id_for chain_id = do encoded ← relabel (encode chain_id); ok (hs.sha256 encoded)

  unfoldable pub signing_frame : Text → Checkpoint → Result Bytes
  unfolding trail_id_for
  signing_frame chain_id checkpoint = do
    size ← pack_u64 2
    trail ← trail_id_for chain_id
    field ← lp (text (hex trail))
    body ← checkpoint_frame checkpoint
    ok (ledger_checkpoint_sig_prefix ++ (size ++ (field ++ body)))

  unfoldable pub checkpoint_signing_digest : Text → Checkpoint → Result Bytes
  checkpoint_signing_digest chain_id checkpoint = do
    bytes ← signing_frame chain_id checkpoint
    ok (hs.sha256 bytes)

  -- `EquivocationProof.digests`
  unfoldable pub equivocation_digests : EquivocationProof → Result (Bytes × Bytes)
  equivocation_digests p = do
    a ← checkpoint_signing_digest p.chain_id p.checkpoint_a
    b ← checkpoint_signing_digest p.chain_id p.checkpoint_b
    ok (a, b)

  -- `NonExtensionProof.digests`
  unfoldable pub non_extension_digests : NonExtensionProof → Result (Bytes × Bytes)
  non_extension_digests p = do
    a ← checkpoint_signing_digest p.chain_id p.older
    b ← checkpoint_signing_digest p.chain_id p.newer
    ok (a, b)

  unfoldable pub extension_holds : NonExtensionChallenge → Result Bool
  extension_holds p =
      verify_consistency hs p.older.root (p.older.seq +ℤ pos 1) p.newer.root (p.newer.seq +ℤ pos 1)
        p.proof

  -- `verify_membership(...)` of a leaf in the tree of a checkpoint
  unfoldable pub leaf_in : DivergentLeaf → Checkpoint → Result Bool
  leaf_in leaf c =
      verify_membership hs leaf.entry_hash leaf.index (c.seq +ℤ pos 1) leaf.proof c.root

  unfoldable pub divergence_holds : NonExtensionProof → Result Bool
  unfolding leaf_in
  divergence_holds p = do
    in_older ← leaf_in p.in_older p.older
    if in_older then leaf_in p.in_newer p.newer else ok false
