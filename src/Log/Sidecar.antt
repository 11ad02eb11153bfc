-- ===== src/Log/Sidecar.antt =====
-- `verify_sidecar` of src/waxseal/log/_attestation.py. What an attestor reads from its files is an
-- argument, with what it raises; a verifier of signatures is a function.
pub mod Covered
use waxseal.Base.{
  Bytes, ◌∷◌, none, ltb, Result, [], List, type_error, raise, codes, ◌++◌, true, ok, ℕ, some,
  value_error, Text, ◌+◌, not, unicode_encode_error, ◌>>=◌, length, false, Bool, if◌then◌else◌,
  key_error, Option, text_eq, lp_encoding_error,
}
use waxseal.Base.Int.{ℤ, pos}
use waxseal.Bytes.Ascii.{encode_ascii}
use waxseal.Bytes.Hex.{from_hex}
use waxseal.Digest.{Hashes}
use waxseal.Hashing.{frame, compute_entry_hash}
use waxseal.Header.{Entry}
use waxseal.Registry.{encoder_for, Encoder, VersionRegistry}
use waxseal.Sealing.{
  Attestation, malformed_attestation, verify_seals, SealReason, seal_frame_prefix, AttestResult,
}
use waxseal.Sealing.Aggregate.{AggReason, verify_aggregate, any_agg}

pub record Attestor : Type 0 where
  pub attestations : Result (List Attestation)
  pub check_continuity : Option (Bytes → ℕ → Result (Option Text))
  pub read_aggregate : Option (Result (Option (ℤ × ℤ × Text)))

pub record Verifier : Type 0 where
  pub algorithm : Text
  pub accepts : Bytes → Bytes → Bool

-- `continuity` is a reason of the attestor; `sealing` and `aggregate` are those of the seals and of
-- the accumulator.
pub data SidecarReason : Type 0 where
  attest_trail_mismatch attestation_gap malformed_keyfile signature_invalid : SidecarReason
  malformed_aggregate aggregate_missing : SidecarReason
  continuity : Text → SidecarReason
  sealing : SealReason → SidecarReason
  aggregate : AggReason → SidecarReason

-- `AttestResult`
pub record SidecarResult : Type 0 where
  pub passes : Bool
  pub checked : ℕ
  pub broken_seq : Option ℤ
  pub reason : Option SidecarReason
  pub unverifiable : List ℤ

abbrev pub refusal : SidecarReason → Option ℤ → ℕ → List ℤ → SidecarResult
refusal reason broken_seq checked unverifiable = record {
  passes = false;
  checked = checked;
  broken_seq = broken_seq;
  reason = some reason;
  unverifiable = unverifiable;
}

-- `except (ValueError, KeyError, TypeError)`
unfoldable pub caught {ℓ} : {A : Type ℓ} → Result A → Result (Option A)
caught (raise value_error) = ok none
caught (raise lp_encoding_error) = ok none
caught (raise unicode_encode_error) = ok none
caught (raise key_error) = ok none
caught (raise type_error) = ok none
caught (raise e) = raise e
caught (ok a) = ok (some a)

-- The frame and the signature of an attestation; `except (ValueError, UnicodeEncodeError)`
unfoldable pub signed_parts : Attestation → Result (Option (Bytes × Bytes))
unfolding caught
signed_parts att = caught (do
  message ← encode_ascii att.entry_hash
  signature ← from_hex att.value
  ok (seal_frame_prefix ++ message, signature))

-- The result of `verify_seals`, with its reason among those of the sidecar.
unfoldable pub of_seals : AttestResult → SidecarResult
of_seals r = record {
  passes = r.is_ok;
  checked = r.checked;
  broken_seq = r.broken_seq;
  reason = as_sealing r.reason;
  unverifiable = r.unverifiable;
}
  where
    as_sealing : Option SealReason → Option SidecarReason
    as_sealing none = none
    as_sealing (some r) = some (sealing r)

unfoldable pub signature_walk : Verifier → ℕ → List ℤ → List Attestation → Result SidecarResult
unfolding signed_parts
signature_walk verifier checked unverifiable [] = ok (record {
  passes = true;
  checked = checked;
  broken_seq = none;
  reason = none;
  unverifiable = unverifiable;
})
signature_walk verifier checked unverifiable (att ∷ atts) =
    let skipped = signature_walk verifier checked (unverifiable ++ att.seq ∷ []) atts in
    let counted = signature_walk verifier (checked + 1) unverifiable atts in
    let scheme = codes "sig-" ++ (verifier.algorithm ++ codes "-v1") in
    if not (text_eq att.scheme scheme)
    then skipped
    else (signed_parts att >>= λ parts. judged parts counted)
  where
    judged : Option (Bytes × Bytes) → Result SidecarResult → Result SidecarResult
    judged none counted =
        ok (refusal (sealing malformed_attestation) (some att.seq) checked unverifiable)
    judged (some (frame, signature)) counted =
        if verifier.accepts frame signature
        then counted
        else ok (refusal signature_invalid (some att.seq) checked unverifiable)

-- `attestor.check_continuity(...)`, where there is a key; `none` is a keyfile that was mangled.
unfoldable pub continuity_of :
    Option Bytes → Option (Bytes → ℕ → Result (Option Text)) → ℕ → Result (Option (Option Text))
unfolding caught
continuity_of none check count = ok (some none)
continuity_of (some key) none count = ok (some none)
continuity_of (some key) (some check) count = caught (check key count)

unfoldable pub after_continuity : Option (Option Text) → Result SidecarResult → Result SidecarResult
after_continuity none rest = ok (refusal malformed_keyfile none 0 [])
after_continuity (some (some reason)) rest = ok (refusal (continuity reason) none 0 [])
after_continuity (some none) rest = rest

unfoldable pub after_mismatch :
    Option ℤ → List Attestation → List Entry → Result SidecarResult → Result SidecarResult
after_mismatch (some seq) atts entries rest = ok (refusal attest_trail_mismatch (some seq) 0 [])
after_mismatch none atts entries rest =
    if ltb (length atts) (length entries)
    then ok (refusal attestation_gap (some (pos (length atts))) 0 [])
    else rest

unfoldable pub aggregate_found : AttestResult → Option AggReason → SidecarResult
unfolding of_seals
aggregate_found r none = of_seals r
aggregate_found r (some reason) = refusal (aggregate reason) none r.checked r.unverifiable

module _ (hs : Hashes) where
  unfoldable pub expected_hash : VersionRegistry → Entry → Result Text
  expected_hash registry e = encoder_for registry e.header.hash_version >>= recomputed
    where
      recomputed : Option Encoder → Result Text
      recomputed none = ok e.entry_hash
      recomputed (some encoder) = compute_entry_hash hs encoder e.header

  -- The loop over the attestations: the sequence number of the first one that is not about the
  -- entry at its place.
  unfoldable pub trail_mismatch :
      VersionRegistry → List Attestation → List Entry → Result (Option ℤ)
  unfolding expected_hash
  trail_mismatch registry [] entries = ok none
  trail_mismatch registry (att ∷ atts) [] = ok (some att.seq)
  trail_mismatch registry (att ∷ atts) (e ∷ es) =
      let rest = trail_mismatch registry atts es in
      expected_hash registry e >>= λ expected.
      if not (text_eq att.entry_hash expected) then ok (some att.seq) else rest

  -- What was read of the accumulator, on seals that are intact.
  unfoldable pub gate_of :
      List Attestation
      → Bytes
      → AttestResult
      → Option (Option (ℤ × ℤ × Text))
      → Result SidecarResult
  unfolding of_seals aggregate_found
  gate_of atts key r none = ok (refusal malformed_aggregate none r.checked r.unverifiable)
  gate_of atts key r (some none) =
      ok (
        if any_agg atts
        then refusal aggregate_missing none r.checked r.unverifiable
        else of_seals r)
  gate_of atts key r (some (some (agg_start, epoch, agg))) = do
    reason ← verify_aggregate hs atts key agg_start epoch agg
    ok (aggregate_found r reason)

  unfoldable pub aggregate_gate :
      List Attestation
      → Bytes
      → AttestResult
      → Option (Result (Option (ℤ × ℤ × Text)))
      → Result SidecarResult
  unfolding caught of_seals gate_of
  aggregate_gate atts key r none = ok (of_seals r)
  aggregate_gate atts key r (some read) = caught read >>= gate_of atts key r

  -- The checks by a verifier of signatures, or else by the initial key.
  unfoldable pub check_values :
      List Attestation → Attestor → Option Bytes → Option Verifier → Result SidecarResult
  unfolding signature_walk aggregate_gate
  check_values atts attestor initial_key (some verifier) = signature_walk verifier 0 [] atts
  check_values atts attestor none none = raise value_error
  check_values atts attestor (some key) none = do
    r ← verify_seals hs atts key
    if not r.is_ok then ok (of_seals r) else aggregate_gate atts key r attestor.read_aggregate

  unfoldable pub check_sidecar :
      Option (List Attestation)
      → Attestor
      → List Entry
      → VersionRegistry
      → Option Bytes
      → Option Verifier
      → Result SidecarResult
  unfolding trail_mismatch after_mismatch continuity_of after_continuity check_values
  check_sidecar none attestor entries registry initial_key verifier =
      ok (refusal (sealing malformed_attestation) none 0 [])
  check_sidecar (some atts) attestor entries registry initial_key verifier =
      trail_mismatch registry atts entries >>= λ mismatch. after_mismatch mismatch atts entries (
        continuity_of initial_key attestor.check_continuity (length atts) >>= λ reason.
        after_continuity reason (check_values atts attestor initial_key verifier))

  unfoldable pub verify_sidecar :
      Attestor
      → List Entry
      → VersionRegistry
      → Option Bytes
      → Option Verifier
      → Result SidecarResult
  unfolding caught check_sidecar
  verify_sidecar attestor entries registry initial_key verifier = do
    atts ← caught attestor.attestations
    check_sidecar atts attestor entries registry initial_key verifier
