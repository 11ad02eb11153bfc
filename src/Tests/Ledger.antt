-- ===== src/Tests/Ledger.antt =====
-- The theorems on bonds, tickets, segments and bindings, at an input.
use waxseal.Base.{
  ◌↔◌, ◌∷◌, Option, ◌≡◌, Text, [], Bytes, List, ok, ℕ, false, ◌≢◌, codes, refl, ◌>>=◌, Result, true,
  some, ◌⊎◌, raise, none,
}
use waxseal.Base.Int.{pos, ℤ}
use waxseal.Bond.{
  EquivocationProof, trail_id_for, equivocation_digests, validate_equivocation,
  checkpoint_signing_digest, signing_frame, is_empty,
}
use waxseal.Bond.Digest.{
  checkpoint_signing_digest_inj, validate_equivocation-diverges, HashedToSign,
}
use waxseal.Checkpoint.{
  IsCheckpoint, frame_of, Checkpoint, half_bound, show_epoch, checkpoint_frame,
}
use waxseal.Digest.{CollisionIn}
use waxseal.Handoff.{
  to_payload, from_payload, binding_holds, is_sha256_hex, check_seq, head_matches, new_binding,
  json_null, all_lower_hex, is_lower_hex, get_member, check_head, HandoffBinding,
}
use waxseal.Handoff.Binding.{IsBinding, from_payload-to_payload}
use waxseal.Header.{genesis_prev_hash}
use waxseal.Segments.{
  has_slash, check_binding, segment_states, after_chain, after_finding, binding_finding,
  SegmentRead, verify_segments, SegmentsResult, after_last_slash, join_states, is_rotation,
  check_predecessor, mem_text, present, rotation_payload_type, own_state, standing_verdict,
}
use waxseal.Segments.Clean.{AllClean}
use waxseal.Segments.Together.{verify_segments-AllClean}
use waxseal.Separation.{SeparationTopology}
use waxseal.Tests.Toy.{toy, running}
use waxseal.Tickets.{any_negative, mem}
use waxseal.Verdict.{join, intact}
use waxseal.Verify.{VerifyResult}

-- Opens what bonds and bindings compute with.
unfoldable lending : ℕ
unfolding running half_bound show_epoch frame_of checkpoint_frame is_empty validate_equivocation
    trail_id_for signing_frame checkpoint_signing_digest equivocation_digests IsCheckpoint mem
    any_negative is_lower_hex all_lower_hex is_sha256_hex check_head check_seq new_binding
    get_member from_payload to_payload IsBinding standing_verdict present has_slash after_last_slash
    is_rotation check_predecessor head_matches binding_holds check_binding binding_finding own_state
    mem_text after_finding after_chain segment_states join_states verify_segments join
lending = 0

abbrev first_claim : Checkpoint
first_claim = record {
  seq = pos 4;
  entry_hash = codes "aa";
  root = codes "bb";
  agg_commit = none;
  agg_epoch = none;
}

abbrev second_claim : Checkpoint
second_claim = record first_claim { root = codes "cc" }

abbrev both_signed : EquivocationProof
both_signed = record {
  chain_id = codes "trail";
  checkpoint_a = first_claim;
  signature_a = 1 ∷ [];
  checkpoint_b = second_claim;
  signature_b = 2 ∷ [];
}

bytes_of : Result Bytes → Bytes
bytes_of (ok b) = b
bytes_of (raise _) = []

first_digest : Bytes
unfolding lending bytes_of
first_digest = bytes_of (checkpoint_signing_digest toy (codes "trail") first_claim)

second_digest : Bytes
unfolding lending bytes_of
second_digest = bytes_of (checkpoint_signing_digest toy (codes "trail") second_claim)

first_digest_lem : checkpoint_signing_digest toy (codes "trail") first_claim ≡ ok first_digest
unfolding lending first_digest
first_digest_lem = refl

both_new : IsCheckpoint first_claim × IsCheckpoint second_claim
unfolding lending
both_new = (refl, refl)

both_valid :
    (validate_equivocation both_signed ≡ none)
    × (equivocation_digests toy both_signed ≡ ok (first_digest, second_digest))
unfolding lending first_digest second_digest
both_valid = (refl, refl)

checkpoint_signing_digest_inj_example :
    ((codes "trail" ≡ codes "trail") × (first_claim ≡ first_claim))
    ⊎ CollisionIn toy (λ m.
      HashedToSign toy (codes "trail") first_claim m
      ⊎ HashedToSign toy (codes "trail") first_claim m)
checkpoint_signing_digest_inj_example =
    checkpoint_signing_digest_inj toy (codes "trail") (codes "trail") first_claim first_claim
      both_new.0 both_new.0 first_digest_lem first_digest_lem

validate_equivocation-diverges_example :
    (pos 4 ≡ pos 4)
    × (first_claim ≢ second_claim)
    × ((first_digest ≢ second_digest)
        ⊎ CollisionIn toy (λ m.
          HashedToSign toy both_signed.chain_id both_signed.checkpoint_a m
          ⊎ HashedToSign toy both_signed.chain_id both_signed.checkpoint_b m))
validate_equivocation-diverges_example =
    validate_equivocation-diverges toy both_signed both_new.0 both_new.1 both_valid.0 both_valid.1

abbrev topology : SeparationTopology
topology = record {
  seal_escrow = true;
  anchor_sinks = pos 2;
  witness = false;
  pin_separate = true;
  ledger = none;
}

abbrev handed : HandoffBinding
handed = record { chain_id = codes "origin"; seq = pos 9; head_hash = genesis_prev_hash }

handed-IsBinding : IsBinding handed
unfolding lending
handed-IsBinding = ((λ e. cc e), refl, refl)

from_payload-to_payload_example : from_payload (to_payload handed) ≡ ok handed
from_payload-to_payload_example = from_payload-to_payload handed handed-IsBinding

handed_read : from_payload (to_payload handed) ≡ ok handed
unfolding lending
handed_read = refl

abbrev clean_chain : VerifyResult
clean_chain = record {
  is_ok = true;
  checked = 1;
  broken_seq = none;
  reason = none;
  unverifiable = [];
  dropped_writes = none;
  drops_source = none;
}

-- Two segments, of which the second binds the head of the first.
abbrev two_segments : List SegmentRead
two_segments =
    (record {
      identity = codes "s.00000";
      chain = some clean_chain;
      entry_hashes = genesis_prev_hash ∷ [];
      genesis_payload_type = none;
      genesis_payload = json_null;
    })
    ∷ (record {
      identity = codes "s.00001";
      chain = some clean_chain;
      entry_hashes = [];
      genesis_payload_type = some rotation_payload_type;
      genesis_payload =
          to_payload (record {
            chain_id = codes "slug/s.00000";
            seq = pos 0;
            head_hash = genesis_prev_hash;
          });
    })
    ∷ []

two_segments_pass : (verify_segments two_segments >>= λ r. ok r.verdict) ≡ ok intact
unfolding lending
two_segments_pass = refl

verify_segments-AllClean_example :
    (r : SegmentsResult) × (verify_segments two_segments ≡ ok r)
    × ((r.verdict ≡ intact) ↔ AllClean two_segments 0 two_segments)
verify_segments-AllClean_example = verify_segments-AllClean two_segments

abbrev anchor_records : List (ℤ × Option Text)
anchor_records = (pos 3, none) ∷ (pos 7, some (codes "ab")) ∷ []
