-- ===== src/Verify.antt =====
-- src/waxseal/domain/verify.py: one walk over the entries, which reports the first break.
pub mod Rows
pub mod Intact
pub mod Report
pub mod Monotone
pub mod History
use waxseal.Base.{
  Text, Bool, List, ◌++◌, some, suc, false, Result, [], ◌>>=◌, Option, ℕ, ok, text_eq,
  if◌then◌else◌, true, raise, lp_encoding_error, not, none, ◌∷◌, Bytes, ◌+◌,
}
use waxseal.Base.Int.{ℤ, eq_ℤ, pos}
use waxseal.Digest.{Hashes}
use waxseal.Hashing.{compute_payload_hash, compute_entry_hash}
use waxseal.Header.{Entry, genesis_prev_hash}
use waxseal.Registry.{VersionRegistry, Encoder, encoder_for}

pub data Reason : Type 0 where
  seq_gap prev_hash_mismatch entry_hash_mismatch payload_hash_mismatch : Reason

pub record VerifyResult : Type 0 where
  pub is_ok : Bool
  pub checked : ℕ
  pub broken_seq : Option ℤ
  pub reason : Option Reason
  pub unverifiable : List ℤ
  pub dropped_writes : Option ℕ
  pub drops_source : Option Text

-- What the body of the loop finds out about one row: a break, a row that it cannot recompute, or a
-- row that it has checked.
pub data Row : Type 0 where
  breaks : Reason → Row
  unknown : Row
  matches : Row

-- `broken(seq, reason)`
abbrev pub broken_at : ℤ → Reason → ℕ → List ℤ → VerifyResult
broken_at seq reason checked unverifiable = record {
  is_ok = false;
  checked = checked;
  broken_seq = some seq;
  reason = some reason;
  unverifiable = unverifiable;
  dropped_writes = none;
  drops_source = none;
}

abbrev pub passed : ℕ → List ℤ → VerifyResult
passed checked unverifiable = record {
  is_ok = true;
  checked = checked;
  broken_seq = none;
  reason = none;
  unverifiable = unverifiable;
  dropped_writes = none;
  drops_source = none;
}

module _ (hs : Hashes) where
  -- `entry.payload is not None and compute_payload_hash(entry.payload) != header.payload_hash`
  unfoldable pub payload_differs : Option Bytes → Text → Bool
  payload_differs none expected = false
  payload_differs (some payload) expected = not (text_eq (compute_payload_hash hs payload) expected)

  -- The tests after the entry hash was computed; `except LpEncodingError` is the first clause.
  unfoldable pub check_hashes : Result Text → Entry → Result Row
  unfolding payload_differs
  check_hashes (raise lp_encoding_error) e = ok (breaks entry_hash_mismatch)
  check_hashes (raise other) e = raise other
  check_hashes (ok recomputed) e = ok (
      if not (text_eq recomputed e.entry_hash)
      then breaks entry_hash_mismatch
      else if payload_differs e.payload e.header.payload_hash
      then breaks payload_hash_mismatch
      else matches)

  -- The branch on `registry.recomputable(header.hash_version)`.
  unfoldable pub check_content : Option Encoder → Entry → Result Row
  unfolding check_hashes
  check_content none e = ok unknown
  check_content (some encoder) e = check_hashes (compute_entry_hash hs encoder e.header) e

  unfoldable pub check_row : VersionRegistry → ℕ → Text → Entry → Result Row
  unfolding check_content
  check_row registry expected_seq expected_prev e =
      if not (eq_ℤ e.header.seq (pos expected_seq))
      then ok (breaks seq_gap)
      else if not (text_eq e.header.prev_hash expected_prev)
      then ok (breaks prev_hash_mismatch)
      else encoder_for registry e.header.hash_version >>= λ encoder. check_content encoder e

  -- What the loop does with a row; `rest` is the loop from the next entry on.
  unfoldable pub after_row :
      Row → ℤ → ℕ → List ℤ → (ℕ → List ℤ → Result VerifyResult) → Result VerifyResult
  after_row (breaks reason) seq checked unverifiable rest =
      ok (broken_at seq reason checked unverifiable)
  after_row unknown seq checked unverifiable rest = rest checked (unverifiable ++ seq ∷ [])
  after_row matches seq checked unverifiable rest = rest (checked + 1) unverifiable

  unfoldable pub walk : VersionRegistry → ℕ → Text → ℕ → List ℤ → List Entry → Result VerifyResult
  unfolding check_row after_row
  walk registry expected_seq expected_prev checked unverifiable [] =
      ok (passed checked unverifiable)
  walk registry expected_seq expected_prev checked unverifiable (e ∷ es) =
      check_row registry expected_seq expected_prev e >>= λ row.
      after_row row e.header.seq checked unverifiable (λ checked' unverifiable'.
        walk registry (suc expected_seq) e.entry_hash checked' unverifiable' es)

  unfoldable pub verify_chain : VersionRegistry → List Entry → Result VerifyResult
  unfolding walk
  verify_chain registry entries = walk registry 0 genesis_prev_hash 0 [] entries
