-- ===== src/Tests/Sidecars.antt =====
-- The theorems on the sidecars of a trail, at an input.
use waxseal.Base.{
  ◌≡◌, codes, length, [], ok, Result, Option, true, ◌∷◌, ◌+◌, ◌⊎◌, Bytes, All, List, text_eq, none,
  refl, ℕ, some, map, Text,
}
use waxseal.Base.Dict.{lookup, contains}
use waxseal.Base.Int.{pos, ℤ}
use waxseal.Handoff.{json_text, is_lower_hex, Json, all_lower_hex, is_sha256_hex}
use waxseal.Header.{Entry}
use waxseal.Log.{entry_hashes}
use waxseal.Log.AnchoredAggregates.{
  AnchorSidecar, start_of, version_reason, after_check, check_records, AnchoredResult, binding_of,
  verify_anchored_aggregates, check_anchored, record_walk,
}
use waxseal.Log.AnchoredAggregates.Bound.{
  verify_anchored_aggregates-AllAnchored, unbound_seqs, AllAnchored,
}
use waxseal.Log.Sidecar.{
  signature_walk, SidecarResult, after_continuity, Attestor, trail_mismatch, after_mismatch,
  of_seals, caught, check_values, verify_sidecar, aggregate_found, gate_of, check_sidecar,
  signed_parts, continuity_of, expected_hash, aggregate_gate,
}
use waxseal.Log.Sidecar.Covered.{verify_sidecar-verify_chain}
use waxseal.Receipts.{
  unreadable, readable, ReceiptRecord, receipt_frame_fields, ReceiptSidecar, reconcile_receipts,
}
use waxseal.Receipts.Line.{
  ReceiptFrameRegistry, knows_frame, build_receipt_record, parse_receipt_line,
}
use waxseal.Receipts.Reference.{
  reconciled, verdict_of, reconcile_receipts-reconciled, fault, fault_at, first_fault, IsPlaced,
  standing_of,
}
use waxseal.Receipts.Stored.{parse_receipt_line-build_receipt_record}
use waxseal.Receipts.Totals.{records_of, versions_of, latest_from, frames_of}
use waxseal.Sealing.{fs_hmac_scheme, seal_entry, Attestation, evolve_key}
use waxseal.Sealing.Walk.{AllGenuine}
use waxseal.Tests.Chains.{entry_one, registry, entry_two, log}
use waxseal.Tests.Seals.{sealing, log_aggregate, text_of, key, log_commit, sealed_log}
use waxseal.Tests.Toy.{running, toy}
use waxseal.Verdict.{broken}
use waxseal.Verify.{verify_chain, passed}

-- Opens what the checks of the sidecars compute with.
unfoldable reading : ℕ
unfolding sealing running caught signed_parts of_seals signature_walk expected_hash trail_mismatch
    gate_of aggregate_gate check_values continuity_of after_continuity after_mismatch check_sidecar
    verify_sidecar aggregate_found binding_of version_reason after_check start_of record_walk
    check_records check_anchored verify_anchored_aggregates entry_hashes
reading = 0

abbrev seal_of : ℕ → Bytes → Entry → Attestation
seal_of n k e = record {
  seq = pos n;
  entry_hash = e.entry_hash;
  scheme = fs_hmac_scheme;
  value = text_of (seal_entry toy k e.entry_hash);
  key_id = none;
}

seals : List Attestation
unfolding reading entry_one entry_two text_of
seals = seal_of 0 key entry_one ∷ seal_of 1 (evolve_key toy key) entry_two ∷ []

abbrev attestor : Attestor
attestor = record {
  attestations = ok seals;
  check_continuity = some (λ k n. ok none);
  read_aggregate = some (ok none);
}

abbrev two_checked : SidecarResult
two_checked = record {
  passes = true;
  checked = 2;
  broken_seq = none;
  reason = none;
  unverifiable = [];
}

attestor_lem : verify_sidecar toy attestor log registry (some key) none ≡ ok two_checked
unfolding reading seals entry_one entry_two registry text_of
attestor_lem = refl

log_verifies : verify_chain toy registry log ≡ ok (passed 2 [])
unfolding reading entry_one entry_two registry
log_verifies = refl

verify_sidecar-verify_chain_example :
    (atts : List Attestation) × (attestor.attestations ≡ ok atts)
    × (map (λ (att : Attestation). att.entry_hash) atts ≡ entry_hashes log)
    × AllGenuine toy 0 key atts
    × ((check : Bytes → ℕ → Result (Option Text))
        → attestor.check_continuity ≡ some check
        → check key (length atts) ≡ ok none)
    × (2 + 0 ≡ length log)
verify_sidecar-verify_chain_example =
    verify_sidecar-verify_chain toy registry log attestor key {c = passed 2 []} {r = two_checked}
      log_verifies refl attestor_lem refl

-- A checkpoint that is bound to the accumulator of two attestations, and one that is not.
abbrev two_records : AnchorSidecar
two_records = record {
  records =
      record {
        seq = pos 1;
        entry_hash = codes "cd";
        root = [];
        agg_commit = some log_commit;
        agg_epoch = some (pos 2);
      }
      ∷ record { seq = pos 1; entry_hash = []; root = []; agg_commit = none; agg_epoch = none }
      ∷ [];
  unreadable_versions = [];
}

abbrev one_anchored : AnchoredResult
one_anchored = record {
  passes = true;
  checked = 1;
  broken_seq = none;
  reason = none;
  unverifiable = pos 1 ∷ [];
}

records_lem :
    verify_anchored_aggregates toy none (ok two_records) (ok sealed_log) key ≡ ok one_anchored
unfolding reading sealed_log log_commit log_aggregate text_of
records_lem = refl

verify_anchored_aggregates-AllAnchored_example :
    (agg_start : ℤ) × (sidecar : AnchorSidecar) × (start_of none ≡ ok agg_start)
    × (ok two_records ≡ ok sidecar)
    × ((sidecar.records ≡ [])
        ⊎ ((atts : List Attestation) × (ok sealed_log ≡ ok atts)
            × AllAnchored toy atts key agg_start sidecar.records))
    × (pos 1 ∷ [] ≡ unbound_seqs sidecar.records)
    × (1 + 1 ≡ length sidecar.records)
verify_anchored_aggregates-AllAnchored_example =
    verify_anchored_aggregates-AllAnchored toy none (ok two_records) (ok sealed_log) key
      {r = one_anchored} records_lem refl

abbrev receipt_at : ℕ → ℕ → Text → ReceiptRecord
receipt_at line_no seq entry_hash = record {
  line_no = line_no;
  seq = pos seq;
  entry_hash = entry_hash;
  receipt_seq = pos 0;
  receipt_head = [];
  source = codes "demo";
  ts = [];
  receipt_frame_fingerprint = [];
}

-- The second record contradicts the trail; the third is not judged, and is counted.
abbrev receipts : ReceiptSidecar
receipts = record {
  present = true;
  lines =
      readable (receipt_at 1 1 (codes "bb"))
      ∷ unreadable 2 (codes "9")
      ∷ readable (receipt_at 3 0 (codes "cc"))
      ∷ readable (receipt_at 4 7 (codes "dd"))
      ∷ [];
}

abbrev two_hashes : List Text
two_hashes = codes "aa" ∷ codes "bb" ∷ []

receipts-IsPlaced : All IsPlaced receipts.lines
unfolding IsPlaced
receipts-IsPlaced = ((1, refl), (tt, ((0, refl), ((7, refl), tt))))

reconcile_receipts-reconciled_example :
    reconcile_receipts two_hashes receipts
    ≡ ok (reconciled true (first_fault two_hashes receipts.lines) receipts.lines)
reconcile_receipts-reconciled_example =
    reconcile_receipts-reconciled two_hashes receipts receipts-IsPlaced

contradicted :
    ((reconciled true (first_fault two_hashes receipts.lines) receipts.lines).verdict ≡ broken)
    × ((reconciled true (first_fault two_hashes receipts.lines) receipts.lines).broken_line
        ≡ some 3)
    × ((reconciled true (first_fault two_hashes receipts.lines) receipts.lines).checked ≡ 3)
unfolding reconciled first_fault fault fault_at verdict_of standing_of versions_of frames_of
    records_of latest_from text_eq
contradicted = (refl, refl, refl)

abbrev digits : Text
digits = codes "0a0a0a0a0a0a0a0a0a0a0a0a0a0a0a0a0a0a0a0a0a0a0a0a0a0a0a0a0a0a0a0a"

abbrev frames : ReceiptFrameRegistry
frames = (digits, receipt_frame_fields) ∷ []

abbrev show_text : Json → Text
show_text (json_text t) = t
show_text _ = []

digits_lem : is_sha256_hex digits ≡ true
unfolding is_sha256_hex all_lower_hex is_lower_hex
digits_lem = refl

frames_lem : knows_frame frames digits ≡ true
unfolding knows_frame contains lookup text_eq
frames_lem = refl

abbrev acknowledged : ReceiptRecord
acknowledged = record (receipt_at 1 1 digits) {
  receipt_head = digits;
  receipt_frame_fingerprint = digits;
}

parse_receipt_line-build_receipt_record_example :
    parse_receipt_line toy show_text 1 frames (some (build_receipt_record acknowledged))
    ≡ ok (readable acknowledged)
parse_receipt_line-build_receipt_record_example =
    parse_receipt_line-build_receipt_record toy show_text frames 1 1 0 digits digits (codes "demo")
      [] digits digits_lem digits_lem digits_lem frames_lem (λ t. refl)
