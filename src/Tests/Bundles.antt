-- ===== src/Tests/Bundles.antt =====
-- The theorems on proof bundles, at an input.
use waxseal.Base.{ok, ◌≡◌, [], false, ◌⊎◌, arith, some, codes, none, ℕ, refl, true}
use waxseal.Base.Int.{pos}
use waxseal.Digest.{CollisionIn}
use waxseal.Export.{
  build_proof_bundle, BundleResult, entry_at, bundle_content, bundle_by_encoder, is_hex64,
  bundle_payload_hash_mismatch, bundle_membership, ProofBundle, bad_bundle, verify_proof_bundle,
}
use waxseal.Export.Built.{verify_proof_bundle-build_proof_bundle}
use waxseal.Export.Bundle.{HashedInBundle, verify_proof_bundle_binds, bundle_entry}
use waxseal.Handoff.{is_lower_hex, all_lower_hex}
use waxseal.Tests.Chains.{
  returned, entry_one, registry-Reachable, registry, log, entry_two, blank_entry,
}
use waxseal.Tests.Toy.{toy, running}
use waxseal.Tests.Trees.{growing}
use waxseal.Verify.{verify_chain, passed}
use waxseal.Verify.History.{SameRow}

-- Opens what a bundle computes with.
unfoldable bundling : ℕ
unfolding running growing entry_at build_proof_bundle is_hex64 all_lower_hex is_lower_hex
    bundle_membership bundle_content bundle_by_encoder verify_proof_bundle
bundling = 0

log_verifies : verify_chain toy registry log ≡ ok (passed 2 [])
unfolding bundling entry_one entry_two registry
log_verifies = refl

verify_proof_bundle-build_proof_bundle_example :
    (b : ProofBundle) × (build_proof_bundle toy log (pos 1) ≡ ok b)
    × (verify_proof_bundle toy b registry
        ≡ ok (record { is_valid = true; reason = none; is_unverifiable = false }))
verify_proof_bundle-build_proof_bundle_example =
    verify_proof_bundle-build_proof_bundle toy registry log 1 {c = passed 2 []} log_verifies refl
      refl (omega arith)

abbrev blank_bundle : ProofBundle
blank_bundle = record {
  header = blank_entry.header;
  entry_hash = [];
  payload = none;
  batch_size = pos 0;
  proof = [];
  root = [];
}

bundle : ProofBundle
unfolding bundling entry_one entry_two
bundle = returned blank_bundle (build_proof_bundle toy log (pos 1))

-- The same bundle without its payload.
abbrev bare_bundle : ProofBundle
bare_bundle = record bundle { payload = none }

abbrev accepted : BundleResult
accepted = record { is_valid = true; reason = none; is_unverifiable = false }

bundle_lem : verify_proof_bundle toy bundle registry ≡ ok accepted
unfolding bundling entry_one entry_two registry bundle
bundle_lem = refl

bare_bundle_lem : verify_proof_bundle toy bare_bundle registry ≡ ok accepted
unfolding bundling entry_one entry_two registry bundle
bare_bundle_lem = refl

verify_proof_bundle_binds_example :
    SameRow (bundle_entry bundle) (bundle_entry bare_bundle)
    ⊎ CollisionIn toy (λ m. HashedInBundle toy bundle m ⊎ HashedInBundle toy bare_bundle m)
verify_proof_bundle_binds_example =
    verify_proof_bundle_binds toy bundle bare_bundle registry {r = accepted} {s = accepted}
      registry-Reachable refl refl refl bundle_lem refl refl bare_bundle_lem refl refl

-- Another payload under the header of the bundle is refused.
forged :
    verify_proof_bundle toy (record bundle { payload = some (codes "forged") }) registry
    ≡ ok (bad_bundle bundle_payload_hash_mismatch false)
unfolding bundling entry_one entry_two registry bundle
forged = refl
