-- ===== src/Tests/Seals.antt =====
-- The theorems on seals and their aggregate, at an input.
use waxseal.Base.{
  ◌≡◌, ◌+◌, ℕ, Bytes, [], raise, none, length, Result, refl, ok, ◌↔◌, some, codes, Text, true, ◌∷◌,
  ◌⊎◌, List,
}
use waxseal.Base.Int.{pos}
use waxseal.Bytes.Ascii.{compare_digest, is_ascii, encode_ascii}
use waxseal.Bytes.Hex.{hex_value, is_space, from_hex, hex_pair}
use waxseal.Digest.{CollisionIn}
use waxseal.Sealing.{
  Attestation, agg_genesis, AttestResult, after_seal, check_seal, seal_walk, evolve_key,
  has_fs_scheme, aggregate_step, verify_seals, aggregate_commit, run_aggregate, seal_outcome,
  seal_entry, has_agg_scheme, fs_hmac_agg_scheme,
}
use waxseal.Sealing.Aggregate.{
  verify_anchored_aggregate-aggregate_commit, anchored_aggregate_binds, verify_anchored_aggregate,
  CommitFrame, any_agg, verify_aggregate, on_value_error,
}
use waxseal.Sealing.Walk.{AllGenuine, verify_seals-AllGenuine}
use waxseal.Tests.Toy.{running, toy}

-- Opens what the seals compute with.
unfoldable pub sealing : ℕ
unfolding running from_hex hex_pair hex_value is_space encode_ascii is_ascii compare_digest
    has_fs_scheme has_agg_scheme seal_outcome after_seal evolve_key seal_entry check_seal seal_walk
    verify_seals aggregate_step run_aggregate aggregate_commit any_agg on_value_error
    verify_aggregate verify_anchored_aggregate
sealing = 0

unfoldable pub text_of : Result Text → Text
text_of (ok t) = t
text_of (raise _) = []

abbrev pub key : Bytes
key = 7 ∷ []

-- A seal that this program makes and one of a scheme that it does not know.
unfoldable pub sealed_log : List Attestation
unfolding sealing text_of
sealed_log =
    (record {
      seq = pos 0;
      entry_hash = codes "ab";
      scheme = fs_hmac_agg_scheme;
      value = text_of (seal_entry toy key (codes "ab"));
      key_id = none;
    })
    ∷ (record {
      seq = pos 1;
      entry_hash = codes "cd";
      scheme = codes "signed";
      value = codes "?";
      key_id = some (codes "k");
    })
    ∷ []

verify_seals_accepts :
    verify_seals toy sealed_log key
    ≡ ok (record {
      is_ok = true;
      checked = 1;
      broken_seq = none;
      reason = none;
      unverifiable = pos 1 ∷ [];
    })
unfolding sealing sealed_log
verify_seals_accepts = refl

verify_seals-AllGenuine_example :
    (r : AttestResult) × (verify_seals toy sealed_log key ≡ ok r)
    × ((r.is_ok ≡ true) ↔ AllGenuine toy 0 key sealed_log)
    × ((r.is_ok ≡ true) → r.checked + length r.unverifiable ≡ length sealed_log)
verify_seals-AllGenuine_example = verify_seals-AllGenuine toy sealed_log key

unfoldable pub log_aggregate : Text
unfolding sealing sealed_log text_of
log_aggregate = text_of (run_aggregate toy 0 key agg_genesis (pos 0) (pos 2) sealed_log)

unfoldable pub log_commit : Text
unfolding sealing log_aggregate text_of
log_commit = text_of (aggregate_commit toy (pos 2) log_aggregate)

aggregate_passes : verify_aggregate toy sealed_log key (pos 0) (pos 2) log_aggregate ≡ ok none
unfolding sealing log_aggregate sealed_log
aggregate_passes = refl

log_commit_lem : aggregate_commit toy (pos 2) log_aggregate ≡ ok log_commit
unfolding sealing log_commit log_aggregate
log_commit_lem = refl

anchor_passes : verify_anchored_aggregate toy sealed_log key (pos 0) (pos 2) log_commit ≡ ok none
unfolding sealing log_commit log_aggregate sealed_log
anchor_passes = refl

verify_anchored_aggregate-aggregate_commit_example :
    verify_anchored_aggregate toy sealed_log key (pos 0) (pos 2) log_commit ≡ ok none
verify_anchored_aggregate-aggregate_commit_example =
    verify_anchored_aggregate-aggregate_commit toy sealed_log key (pos 0) (pos 2) log_aggregate
      log_commit aggregate_passes log_commit_lem

anchored_aggregate_binds_example :
    (log_aggregate ≡ log_aggregate)
    ⊎ CollisionIn toy (CommitFrame (pos 2) log_aggregate log_aggregate)
anchored_aggregate_binds_example =
    anchored_aggregate_binds toy sealed_log key (pos 0) (pos 2) log_aggregate log_aggregate
      log_commit aggregate_passes log_commit_lem anchor_passes
