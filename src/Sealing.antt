-- ===== src/Sealing.antt =====
-- src/waxseal/domain/sealing.py: forward-secure seals and the running aggregate over them.
-- A seal's key for entry `n + 1` is the hash of its key for entry `n`, and the key is then thrown
-- away. `Attestation.key_id` is data that no function here reads.
pub mod Walk
pub mod Aggregate
use waxseal.Base.{
  [], type_error, ok, true, false, raise, Text, text_eq, Bool, ◌||◌, none, ℕ, List, Option, Bytes,
  some, ◌+◌, unicode_encode_error, ◌++◌, Result, codes, suc, not, ◌>>=◌, ◌∷◌, ◌&&◌, if◌then◌else◌,
}
use waxseal.Base.Int.{leb_ℤ, ℤ, pos, eq_ℤ}
use waxseal.Bytes.Ascii.{encode_ascii, compare_digest}
use waxseal.Bytes.Decimal.{show_int}
use waxseal.Bytes.Hex.{from_hex, hex}
use waxseal.Digest.{hexdigest, Hashes}
use waxseal.Hashing.{text, frame, lp}
use waxseal.Header.{genesis_prev_hash}

abbrev pub fs_hmac_scheme : Text
fs_hmac_scheme = codes "fs-hmac-sha256-v1"

abbrev pub fs_hmac_agg_scheme : Text
fs_hmac_agg_scheme = codes "fs-hmac-agg-sha256-v1"

abbrev pub seal_frame_prefix : Bytes
seal_frame_prefix = codes "waxseal-seal-v1\n"

abbrev pub agg_frame_prefix : Bytes
agg_frame_prefix = codes "waxseal-agg-v1\n"

abbrev pub agg_commit_frame_prefix : Bytes
agg_commit_frame_prefix = codes "waxseal-aggcommit-v1\n"

-- AGG_GENESIS, which is written as GENESIS_PREV_HASH is
abbrev pub agg_genesis : Text
agg_genesis = genesis_prev_hash

pub record Attestation : Type 0 where
  pub seq : ℤ
  pub entry_hash : Text
  pub scheme : Text
  pub value : Text
  pub key_id : Option Text

pub data SealReason : Type 0 where
  seal_sequence_mismatch malformed_attestation seal_mismatch : SealReason

pub record AttestResult : Type 0 where
  pub is_ok : Bool
  pub checked : ℕ
  pub broken_seq : Option ℤ
  pub reason : Option SealReason
  pub unverifiable : List ℤ

-- What the body of the loop finds out about one attestation.
pub data Seal : Type 0 where
  rejected : SealReason → Seal
  foreign : Seal
  sealed : Seal

-- `att.scheme in (FS_HMAC_SCHEME, FS_HMAC_AGG_SCHEME)`
unfoldable pub has_fs_scheme : Attestation → Bool
has_fs_scheme att = text_eq att.scheme fs_hmac_scheme || text_eq att.scheme fs_hmac_agg_scheme

unfoldable pub has_agg_scheme : Attestation → Bool
has_agg_scheme att = text_eq att.scheme fs_hmac_agg_scheme

-- `except (UnicodeEncodeError, TypeError)` and the test `if not matches`
unfoldable pub seal_outcome : Result Bool → Result Seal
seal_outcome (raise unicode_encode_error) = ok (rejected malformed_attestation)
seal_outcome (raise type_error) = ok (rejected malformed_attestation)
seal_outcome (raise e) = raise e
seal_outcome (ok true) = ok sealed
seal_outcome (ok false) = ok (rejected seal_mismatch)

-- What the loop does with an attestation; `rest` is the loop from the next one on.
unfoldable pub after_seal :
    Seal → ℤ → ℕ → List ℤ → (ℕ → List ℤ → Result AttestResult) → Result AttestResult
after_seal (rejected reason) seq checked unverifiable rest = ok (record {
  is_ok = false;
  checked = checked;
  broken_seq = some seq;
  reason = some reason;
  unverifiable = unverifiable;
})
after_seal foreign seq checked unverifiable rest = rest checked (unverifiable ++ seq ∷ [])
after_seal sealed seq checked unverifiable rest = rest (checked + 1) unverifiable

module _ (hs : Hashes) where
  unfoldable pub evolve_key : Bytes → Bytes
  evolve_key key = hs.sha256 key

  unfoldable pub seal_entry : Bytes → Text → Result Text
  seal_entry epoch_key entry_hash = do
    message ← encode_ascii entry_hash
    ok (hex (hs.hmac_sha256 epoch_key (seal_frame_prefix ++ message)))

  unfoldable pub check_seal : ℕ → Bytes → Attestation → Result Seal
  unfolding seal_outcome
  check_seal position key att =
      if not (eq_ℤ att.seq (pos position))
      then ok (rejected seal_sequence_mismatch)
      else if has_fs_scheme att
      then seal_outcome
          (seal_entry key att.entry_hash >>= λ expected. compare_digest expected att.value)
      else ok foreign

  unfoldable pub seal_walk : ℕ → Bytes → ℕ → List ℤ → List Attestation → Result AttestResult
  seal_walk position key checked unverifiable [] = ok (record {
    is_ok = true;
    checked = checked;
    broken_seq = none;
    reason = none;
    unverifiable = unverifiable;
  })
  seal_walk position key checked unverifiable (att ∷ atts) = check_seal position key att >>= λ seal.
      after_seal seal att.seq checked unverifiable (λ checked' unverifiable'.
        seal_walk (suc position) (evolve_key key) checked' unverifiable' atts)

  unfoldable pub verify_seals : List Attestation → Bytes → Result AttestResult
  verify_seals attestations initial_key = seal_walk 0 initial_key 0 [] attestations

  unfoldable pub aggregate_step : Bytes → Text → Text → Result Text
  aggregate_step epoch_key prev_agg value = do
    prev ← from_hex prev_agg
    field ← lp (text value)
    ok (hex (hs.hmac_sha256 epoch_key (agg_frame_prefix ++ (prev ++ field))))

  -- The loop that `verify_aggregate` and `verify_anchored_aggregate` both run: `position` counts
  -- up, and the loop ends at `epoch`.
  unfoldable pub run_aggregate : ℕ → Bytes → Text → ℤ → ℤ → List Attestation → Result Text
  run_aggregate position key running agg_start epoch [] = ok running
  run_aggregate position key running agg_start epoch (att ∷ atts) =
      let next =
        λ (r : Text). run_aggregate (suc position) (evolve_key key) r agg_start epoch atts in
      if leb_ℤ epoch (pos position)
      then ok running
      else if leb_ℤ agg_start (pos position) && has_agg_scheme att
      then (aggregate_step key running att.value >>= next)
      else next running

  unfoldable pub aggregate_commit : ℤ → Text → Result Text
  aggregate_commit epoch agg = do
    _ ← from_hex agg
    bytes ← frame agg_commit_frame_prefix 2 (text (show_int epoch) ∷ text agg ∷ [])
    ok (hexdigest hs bytes)
