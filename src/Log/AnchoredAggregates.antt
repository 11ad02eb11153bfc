-- ===== src/Log/AnchoredAggregates.antt =====
-- `verify_anchored_aggregates` of src/waxseal/log/_anchoring.py. The anchor records and the
-- attestations that adapters read are arguments, with what reading them raises.
pub mod Bound
use waxseal.Base.{
  ◌+◌, Option, ok, Bool, ◌∷◌, some, none, Text, ◌>>=◌, ◌++◌, true, ℕ, false, [], List, Bytes,
  Result,
}
use waxseal.Base.Int.{ℤ, pos}
use waxseal.Checkpoint.{Checkpoint}
use waxseal.Digest.{Hashes}
use waxseal.Log.Sidecar.{caught}
use waxseal.Sealing.{Attestation}
use waxseal.Sealing.Aggregate.{verify_anchored_aggregate, AggReason}

-- `AnchorSidecar`: the checkpoints of the records, and the versions that could not be read.
pub record AnchorSidecar : Type 0 where
  pub records : List Checkpoint
  pub unreadable_versions : List Text

pub data AnchoredReason : Type 0 where
  malformed_anchor no_anchors_recorded unreadable_record_version : AnchoredReason
  anchored : AggReason → AnchoredReason

-- `AttestResult`
pub record AnchoredResult : Type 0 where
  pub passes : Bool
  pub checked : ℕ
  pub broken_seq : Option ℤ
  pub reason : Option AnchoredReason
  pub unverifiable : List ℤ

abbrev pub finished : Option AnchoredReason → ℕ → List ℤ → AnchoredResult
finished reason checked unverifiable = record {
  passes = true;
  checked = checked;
  broken_seq = none;
  reason = reason;
  unverifiable = unverifiable;
}

-- What a checkpoint is bound to, if it is.
unfoldable pub binding_of : Checkpoint → Option (ℤ × Text)
binding_of cp = both cp.agg_commit cp.agg_epoch
  where
    both : Option Text → Option ℤ → Option (ℤ × Text)
    both (some commit) (some epoch) = some (epoch, commit)
    both none (some _) = none
    both (some _) none = none
    both none none = none

-- `"unreadable_record_version" if sidecar.unreadable_versions else None`
unfoldable pub version_reason : List Text → Option AnchoredReason
version_reason [] = none
version_reason (_ ∷ _) = some unreadable_record_version

-- What a check of a record has found, and the rest of the loop.
unfoldable pub after_check :
    Option AggReason → ℤ → ℕ → List ℤ → Result AnchoredResult → Result AnchoredResult
after_check none seq checked unverifiable rest = rest
after_check (some reason) seq checked unverifiable rest = ok (record {
  passes = false;
  checked = checked;
  broken_seq = some seq;
  reason = some (anchored reason);
  unverifiable = unverifiable;
})

-- `agg_start`, by the state that was read, if there is a reader
unfoldable pub start_of : Option (Result (Option (ℤ × ℤ × Text))) → Result ℤ
start_of none = ok (pos 0)
start_of (some read) = read >>= λ state. ok (first state)
  where
    first : Option (ℤ × ℤ × Text) → ℤ
    first none = pos 0
    first (some (agg_start, _, _)) = agg_start

module _ (hs : Hashes) where
  -- The loop over the records.
  unfoldable pub record_walk :
      List Attestation
      → Bytes
      → ℤ
      → Option AnchoredReason
      → ℕ
      → List ℤ
      → List Checkpoint
      → Result AnchoredResult
  unfolding after_check
  record_walk atts key agg_start last checked unverifiable [] =
      ok (finished last checked unverifiable)
  record_walk atts key agg_start last checked unverifiable (cp ∷ cps) =
      let skipped = record_walk atts key agg_start last checked (unverifiable ++ cp.seq ∷ []) cps in
      let counted = record_walk atts key agg_start last (checked + 1) unverifiable cps in
      bound (binding_of cp) skipped counted
    where
      bound :
          Option (ℤ × Text) → Result AnchoredResult → Result AnchoredResult → Result AnchoredResult
      bound none skipped counted = skipped
      bound (some (epoch, commit)) skipped counted =
          verify_anchored_aggregate hs atts key agg_start epoch commit >>= λ reason.
          after_check reason cp.seq checked unverifiable counted

  -- The records, with the versions that could not be read.
  unfoldable pub check_records :
      List Checkpoint → List Text → Result (List Attestation) → Bytes → ℤ → Result AnchoredResult
  unfolding record_walk version_reason
  check_records [] [] attestations key agg_start = ok (finished (some no_anchors_recorded) 0 [])
  check_records [] (v ∷ vs) attestations key agg_start =
      attestations >>= λ atts. record_walk atts key agg_start (version_reason (v ∷ vs)) 0 [] []
  check_records (cp ∷ cps) versions attestations key agg_start = attestations >>= λ atts.
      record_walk atts key agg_start (version_reason versions) 0 [] (cp ∷ cps)

  -- The checks of a sidecar that was read; `none` is one that was malformed.
  unfoldable pub check_anchored :
      Option AnchorSidecar → Result (List Attestation) → Bytes → ℤ → Result AnchoredResult
  unfolding check_records
  check_anchored none attestations key agg_start = ok (record {
    passes = false;
    checked = 0;
    broken_seq = none;
    reason = some malformed_anchor;
    unverifiable = [];
  })
  check_anchored (some sidecar) attestations key agg_start =
      check_records sidecar.records sidecar.unreadable_versions attestations key agg_start

  unfoldable pub verify_anchored_aggregates :
      Option (Result (Option (ℤ × ℤ × Text)))
      → Result AnchorSidecar
      → Result (List Attestation)
      → Bytes
      → Result AnchoredResult
  unfolding start_of caught check_anchored
  verify_anchored_aggregates read_aggregate records attestations key = do
    agg_start ← start_of read_aggregate
    sidecar ← caught records
    check_anchored sidecar attestations key agg_start
