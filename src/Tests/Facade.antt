-- ===== src/Tests/Facade.antt =====
-- The theorems on an audit log, at a log of two calls with a foreign entry in between.
use waxseal.Base.{
  Bytes, raise, ℕ, codes, ◌++◌, none, ◌==◌, value_error, Exception, ◌∷◌, ◌⊎◌, raise_if, refl,
  Option, some, true, [], ◌+◌, length, ◌≡◌, false, Text, ok,
}
use waxseal.Anchoring.{
  carry, tree_hash, split_loop, split_point, tree_at, root_of_peaks, root, leaf_hash, push_all,
  from_hashes, fold_peaks, batch_root, map_result, pair_hash, push, empty_tree,
}
use waxseal.Backend.{MemoryBackend, build_entry, append, empty}
use waxseal.Base.Int.{pos, ℤ}
use waxseal.Bytes.Hex.{is_space, from_hex, hex_value, hex_pair}
use waxseal.Checkpoint.{
  root_or, verify_checkpoint, half_bound, Checkpoint, new_checkpoint, last_item, checkpoint_for,
}
use waxseal.Header.{Entry}
use waxseal.Log.{
  AuditLog, is_rejected_type, new_audit_log, bad_cadence, tip_differs, sealed_or_failed,
  entry_hashes, labelled, commit_to, note_appended, Wiring, fields, merkle_root_for, anchor_bound,
  anchor_to, aggregate_binding, other, is_due, raw, anchor, publish, count_anchor_failure, rebuilt,
  keep_tree, canonical_payload,
}
use waxseal.Log.Account.{
  try_append-Offer, opened, called, shared, verify_checkpoint-anchor, Running, verify-Running,
}
use waxseal.Log.Calls.{
  attest_noted, payload_bytes, append_entry, anchor_if_due, verify, measured, append_bytes,
  try_append, after_store, account, attest,
}
use waxseal.Log.Records.{records, Offer}
use waxseal.Tests.Chains.{blank_entry, returned, registry-Reachable, registry}
use waxseal.Tests.Toy.{toy, running}
use waxseal.Verify.{passed}

-- The state of the collaborators counts their calls; the attestor fails at its second one.
abbrev wiring : Wiring ℕ Text
wiring = record {
  registry = registry;
  redactor = none;
  canonical_json = λ dict. ok dict;
  attestor = some (λ seq entry_hash w. (raise_if (w == 1) value_error, w + 1));
  read_aggregate = none;
  anchor_sink = some (λ cp w. (ok tt, w + 10));
  anchor_every = some (pos 4);
  drop_recorder = none;
  count_drops = none;
}

-- Opens what an audit log computes with.
unfoldable handling : ℕ
unfolding running from_hex hex_pair hex_value is_space split_point split_loop map_result leaf_hash
    pair_hash tree_at tree_hash batch_root carry push push_all from_hashes fold_peaks root_of_peaks
    root half_bound new_checkpoint last_item root_or checkpoint_for entry_hashes is_rejected_type
    bad_cadence is_due tip_differs labelled sealed_or_failed keep_tree count_anchor_failure rebuilt
    merkle_root_for commit_to note_appended publish anchor_bound new_audit_log canonical_payload
    aggregate_binding anchor_to anchor payload_bytes attest attest_noted after_store anchor_if_due
    append_bytes append_entry account try_append measured verify
handling = 0

abbrev demo_type : Text
demo_type = codes "application/vnd.demo"

abbrev blank_log : AuditLog ℕ
blank_log = record {
  backend = [];
  merkle = empty_tree;
  dropped = 0;
  attest_failures = 0;
  anchor_failures = 0;
  world = 0;
}

opened-Running : Running toy wiring blank_log 0 0
unfolding handling
opened-Running = opened [] 0 empty refl

first_call : AuditLog ℕ
unfolding handling
first_call = (try_append toy wiring (codes "2026-01-01") (raw (codes "one")) demo_type blank_log).1

first_call-Running : Running toy wiring first_call 1 0
unfolding first_call
first_call-Running = called (codes "2026-01-01") demo_type (raw (codes "one")) opened-Running

shared_pair : Entry × MemoryBackend
unfolding handling first_call
shared_pair =
    returned (blank_entry, [])
      (append (build_entry toy (codes "2026-01-02") demo_type (codes "two")) first_call.backend)

abbrev shared_log : AuditLog ℕ
shared_log = record first_call { backend = shared_pair.1 }

shared_log-Running : Running toy wiring shared_log 1 1
unfolding handling first_call shared_pair
shared_log-Running =
    shared (codes "2026-01-02") demo_type (codes "two") shared_pair.0 shared_pair.1
      first_call-Running refl

try_append-Offer_example :
    let after =
      try_append toy wiring (codes "2026-01-03") (fields (codes "{}")) demo_type shared_log in
    Offer
      (codes "2026-01-03")
      demo_type
      (payload_bytes toy wiring (fields (codes "{}")) demo_type)
      (records shared_log.backend)
      shared_log.dropped
      after.0
      (records after.1.backend)
      after.1.dropped
    × (after.0 ≡ false
        → (x : Exception) × ((payload_bytes toy wiring (fields (codes "{}")) demo_type ≡ raise x)
            ⊎ ((bytes : Bytes) × (payload_bytes toy wiring (fields (codes "{}")) demo_type
                  ≡ ok bytes)
                × (append (build_entry toy (codes "2026-01-03") demo_type bytes) shared_log.backend
                    ≡ raise x))))
try_append-Offer_example =
    try_append-Offer toy wiring (codes "2026-01-03") demo_type (fields (codes "{}"))
      registry-Reachable shared_log-Running

verify-Running_example :
    ((losses : ℕ) × (source : Text) × (verify toy wiring true shared_log
        ≡ ok (record (passed (length shared_log.backend) []) {
          dropped_writes = some losses;
          drops_source = some source;
        }))
      × (((wiring.count_drops ≡ none) × (losses ≡ shared_log.dropped) × (source ≡ codes "process"))
          ⊎ ((count : ℕ → ℕ) × (wiring.count_drops ≡ some count)
              × (losses ≡ count shared_log.world)
              × (source ≡ codes "sidecar"))))
    × (length shared_log.backend + shared_log.dropped ≡ 2)
verify-Running_example = verify-Running toy wiring registry-Reachable shared_log-Running

abbrev no_checkpoint : Checkpoint
no_checkpoint = record {
  seq = pos 0;
  entry_hash = [];
  root = [];
  agg_commit = none;
  agg_epoch = none;
}

published : Checkpoint
unfolding handling first_call shared_pair
published = returned no_checkpoint (anchor toy wiring shared_log).0

published_lem : (anchor toy wiring shared_log).0 ≡ ok published
unfolding handling first_call shared_pair published
published_lem = refl

verify_checkpoint-anchor_example :
    ((agg : Option Text) × (epoch : Option ℤ) × (aggregate_binding toy wiring shared_log.world
        ≡ ok (agg, epoch))
      × (checkpoint_for toy (entry_hashes shared_log.backend) agg epoch none ≡ ok published))
    × (verify_checkpoint toy (entry_hashes shared_log.backend ++ codes "ff" ∷ []) published
        ≡ ok none)
verify_checkpoint-anchor_example =
    verify_checkpoint-anchor toy wiring (codes "ff" ∷ []) registry-Reachable shared_log-Running
      published_lem

-- The second attestation fails and the entry is kept; a value that is no payload is dropped.
outcomes :
    ((try_append toy wiring (codes "2026-01-03") (raw []) demo_type shared_log).0 ≡ true)
    × ((try_append toy wiring (codes "2026-01-03") (raw []) demo_type shared_log).1.attest_failures
        ≡ 1)
    × ((try_append toy wiring (codes "2026-01-03") other demo_type shared_log).0 ≡ false)
    × ((try_append toy wiring
          (codes "2026-01-03")
          (raw [])
          (codes "text/json")
          shared_log).1.dropped
        ≡ 1)
unfolding handling first_call shared_pair
outcomes = (refl, refl, refl, refl)

-- A trail whose stored entry hash is not hexadecimal: the entry is stored and counted as lost.
abbrev mangled : AuditLog ℕ
mangled = record blank_log { backend = record blank_entry { entry_hash = codes "zz" } ∷ [] }

stored_and_lost :
    ((try_append toy wiring (codes "2026-01-03") (raw []) demo_type mangled).0 ≡ false)
    × ((try_append toy wiring (codes "2026-01-03") (raw []) demo_type mangled).1.dropped ≡ 1)
    × (length (try_append toy wiring (codes "2026-01-03") (raw []) demo_type mangled).1.backend ≡ 2)
unfolding handling
stored_and_lost = (refl, refl, refl)
