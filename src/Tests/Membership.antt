-- ===== src/Tests/Membership.antt =====
-- The theorems on membership and consistency proofs, non-extension proofs and witnesses, at an input.
use waxseal.Base.{
  true, ok, [], suc, codes, List, drop, ◌++◌, ℕ, length, arith, Text, All, refl, raise, ◌⊎◌, take,
  none, Result, ◌≢◌, ◌∷◌, ◌≡◌,
}
use waxseal.Anchoring.{batch_root, map_result}
use waxseal.Anchoring.Proofs.{
  verify_membership, consistency_proof, verify_consistency, membership_proof,
}
use waxseal.Anchoring.Proofs.AppendOnly.{HashedToExtend, verify_consistency-batch_root}
use waxseal.Anchoring.Proofs.Complete.{verify_membership-membership_proof}
use waxseal.Anchoring.Proofs.Consistent.{verify_consistency-consistency_proof}
use waxseal.Anchoring.Proofs.Sound.{verify_membership-batch_root, HashedInProof}
use waxseal.Base.Int.{pos, ◌+ℤ◌}
use waxseal.Bond.{divergence_holds, NonExtensionProof, is_empty, validate_non_extension, leaf_in}
use waxseal.Bond.Extension.{HashedForLeaf, divergence_holds-checkpoint_for}
use waxseal.Bytes.Hex.{from_hex}
use waxseal.Checkpoint.{Checkpoint, checkpoint_for}
use waxseal.Checkpoint.Agreement.{HashedUpTo}
use waxseal.Digest.{CollisionIn}
use waxseal.Tests.Toy.{toy}
use waxseal.Tests.Trees.{text_of, three_root, three_root_lem, three, growing}
use waxseal.Witnessing.{
  check_witnessed_agree, check_witnessed, consistent, witness_walk, coverage, WitnessVerdict,
  WitnessObservation, after_checkpoint,
}

verify_membership-membership_proof_example :
    (proof : List Text) × (membership_proof toy three (pos 2) ≡ ok proof)
    × (verify_membership toy (codes "02") (pos 2) (pos 3) proof three_root ≡ ok true)
verify_membership-membership_proof_example =
    verify_membership-membership_proof toy three 2 refl three_root_lem

abbrev siblings_of : Result (List Text) → List Text
siblings_of (ok path) = path
siblings_of (raise _) = []

unfoldable three_path : List Text
unfolding growing
three_path = siblings_of (membership_proof toy three (pos 0))

three_path_lem :
    verify_membership toy (codes "00FF") (pos 0) (pos 3) three_path three_root ≡ ok true
unfolding growing three_root three_path
three_path_lem = refl

verify_membership-batch_root_example :
    (honest : List Text) × (membership_proof toy three (pos 0) ≡ ok honest)
    × ((from_hex (codes "00FF") ≡ from_hex (codes "00ff"))
        ⊎ CollisionIn toy (λ m.
          HashedInProof toy (codes "00FF") (pos 0) (pos 3) three_path m
          ⊎ HashedInProof toy (codes "00ff") (pos 0) (pos 3) honest m))
verify_membership-batch_root_example =
    verify_membership-batch_root toy three 0 (codes "00FF") three_path refl three_root_lem
      three_path_lem

abbrev four : List Text
four = three ++ codes "03" ∷ []

unfoldable four_root : Text
unfolding growing
four_root = text_of (batch_root toy four)

unfoldable four_path : List Text
unfolding growing
four_path = siblings_of (membership_proof toy four (pos 0))

verify_consistency-consistency_proof_example :
    (proof : List Text) × (consistency_proof toy four (pos 3) ≡ ok proof)
    × (verify_consistency toy three_root (pos 3) four_root (pos 4) proof ≡ ok true)
unfolding four_root growing
verify_consistency-consistency_proof_example =
    verify_consistency-consistency_proof toy four 3 (omega arith) (omega arith) three_root_lem refl

unfoldable grown_path : List Text
unfolding growing
grown_path = siblings_of (consistency_proof toy four (pos 3))

grown_path_lem : verify_consistency toy three_root (pos 3) four_root (pos 4) grown_path ≡ ok true
unfolding growing three_root four_root grown_path
grown_path_lem = refl

verify_consistency-batch_root_example :
    (map_result from_hex three ≡ map_result from_hex (take 3 four))
    ⊎ CollisionIn toy (HashedToExtend toy three four grown_path)
unfolding four_root growing
verify_consistency-batch_root_example =
    verify_consistency-batch_root toy three four grown_path three_root_lem refl grown_path_lem

-- An old root that is no digest: the first 20 bytes of a leaf's hash pass as the root of one entry,
-- and the 12 bytes left stand in the proof, before the sibling.
unfoldable one_root : Text → Text
unfolding growing
one_root entry_hash = text_of (batch_root toy (entry_hash ∷ []))

short_root_passes :
    verify_consistency toy
      (take 40 (one_root (codes "00ff")))
      (pos 1)
      (text_of (batch_root toy (take 2 three)))
      (pos 2)
      ((drop 40 (one_root (codes "00ff")) ++ one_root (codes "01")) ∷ [])
    ≡ ok true
unfolding growing one_root
short_root_passes = refl

abbrev checkpoint_of : ℕ → Text → Text → Checkpoint
checkpoint_of seq entry_hash top = record {
  seq = pos seq;
  entry_hash = entry_hash;
  root = top;
  agg_commit = none;
  agg_epoch = none;
}

-- One entry hash in two spellings, against a writer that has only appended.
abbrev two_spellings : NonExtensionProof
two_spellings = record {
  chain_id = codes "demo";
  older = checkpoint_of 2 (codes "02") three_root;
  newer = checkpoint_of 3 (codes "03") four_root;
  older_signature = 1 ∷ [];
  newer_signature = 1 ∷ [];
  in_older = record { index = pos 0; entry_hash = codes "00ff"; proof = three_path };
  in_newer = record { index = pos 0; entry_hash = codes "00FF"; proof = four_path };
}

older_lem : checkpoint_for toy three none none none ≡ ok two_spellings.older
unfolding growing three_root
older_lem = refl

newer_lem : checkpoint_for toy four none none none ≡ ok two_spellings.newer
unfolding growing four_root
newer_lem = refl

valid_lem : validate_non_extension two_spellings ≡ none
unfolding growing validate_non_extension is_empty
valid_lem = refl

holds_lem : divergence_holds toy two_spellings ≡ ok true
unfolding growing three_root four_root three_path four_path divergence_holds leaf_in ◌+ℤ◌
holds_lem = refl

divergence_holds-checkpoint_for_example :
    (codes "00ff" ≢ codes "00FF")
    × ((from_hex (codes "00ff") ≡ from_hex (codes "00FF"))
        ⊎ CollisionIn toy (λ m.
          HashedForLeaf toy three two_spellings.in_older m
          ⊎ HashedForLeaf toy four two_spellings.in_newer m))
divergence_holds-checkpoint_for_example =
    divergence_holds-checkpoint_for toy two_spellings three (codes "03" ∷ []) none none none none
      older_lem newer_lem valid_lem holds_lem

abbrev seen : WitnessObservation
seen = record { checkpoints = two_spellings.older ∷ []; unreadable = 0 }

abbrev one_confirmed : WitnessVerdict
one_confirmed = record {
  name = codes "w";
  status = consistent;
  checked = 1;
  reason = none;
  broken_seq = none;
  unreadable = 0;
}

three_confirmed : check_witnessed toy three seen (codes "w") ≡ ok one_confirmed
unfolding growing three_root check_witnessed witness_walk after_checkpoint coverage
three_confirmed = refl

four_confirmed : check_witnessed toy four seen (codes "w") ≡ ok one_confirmed
unfolding growing three_root check_witnessed witness_walk after_checkpoint coverage
four_confirmed = refl

check_witnessed_agree_example :
    All
      (λ cp.
        ((n : ℕ) × (cp.seq ≡ pos n)
          × (map_result from_hex (take (suc n) three) ≡ map_result from_hex (take (suc n) four)))
        ⊎ CollisionIn toy (λ m. HashedUpTo toy cp three m ⊎ HashedUpTo toy cp four m))
      seen.checkpoints
    × (one_confirmed.checked ≡ length seen.checkpoints)
    × (one_confirmed.checked ≡ length seen.checkpoints)
check_witnessed_agree_example =
    check_witnessed_agree toy three four seen (codes "w") {r = one_confirmed} {s = one_confirmed}
      three_confirmed refl four_confirmed refl
