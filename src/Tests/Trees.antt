-- ===== src/Tests/Trees.antt =====
-- The theorems on Merkle trees and checkpoints, at an input.
use waxseal.Base.{
  ℕ, [], some, codes, false, ok, true, raise, ◌≤◌, length, none, refl, take, Result, Bool, List,
  ◌>>=◌, Text, ◌⊎◌, suc, ◌∷◌, ◌≡◌, ◌++◌,
}
use waxseal.Anchoring.{
  tree_at, root_of_peaks, pair_hash, map_result, leaf_hash, push, batch_root, root, tree_hash,
  split_loop, split_point, carry, push_all, from_hashes, fold_peaks,
}
use waxseal.Anchoring.Peaks.{root-from_hashes}
use waxseal.Anchoring.Proofs.{
  consistency_at, verify_membership, audit_at, drop_ones, reaches_both, audit_path,
  false_on_value_error, climb, check_path, consistency_proof, is_odd, in_batch, verify_consistency,
  halve_to_odd, climb_both, check_consistency, membership_proof, reaches_root,
}
use waxseal.Anchoring.Proofs.Total.{verifiers_answer}
use waxseal.Anchoring.Tree.{batch_root_inj, HashedInBatch}
use waxseal.Base.Int.{pos}
use waxseal.Bytes.Hex.{hex_value, is_space, hex_pair, from_hex}
use waxseal.Checkpoint.{
  IsCheckpoint, last_item, checkpoint_frame, half_bound, item_at, verify_checkpoint, new_checkpoint,
  checkpoint_for, show_epoch, root_or, Checkpoint, root_reason, frame_of,
}
use waxseal.Checkpoint.Agreement.{HashedUpTo, verify_checkpoint_commits}
use waxseal.Digest.{CollisionIn}
use waxseal.Pinning.{pin_reason, check_pin, renamed}
use waxseal.Pinning.Rollback.{check_pin-checkpoint_for}
use waxseal.Tests.Toy.{running, toy}

-- Opens what trees and checkpoints compute with.
unfoldable pub growing : ℕ
unfolding running from_hex hex_pair hex_value is_space split_point split_loop map_result leaf_hash
    pair_hash tree_at tree_hash batch_root carry push push_all from_hashes fold_peaks root_of_peaks
    root audit_at audit_path membership_proof climb halve_to_odd is_odd reaches_root
    false_on_value_error verify_membership consistency_at consistency_proof drop_ones climb_both
    reaches_both check_path check_consistency verify_consistency half_bound new_checkpoint
    show_epoch frame_of checkpoint_frame last_item item_at root_reason root_or checkpoint_for
    verify_checkpoint in_batch IsCheckpoint pin_reason renamed check_pin
growing = 0

abbrev pub three : List Text
three = codes "00ff" ∷ codes "01" ∷ codes "02" ∷ []

abbrev pub text_of : Result Text → Text
text_of (ok t) = t
text_of (raise _) = []

unfoldable pub three_root : Text
unfolding growing
three_root = text_of (batch_root toy three)

pub three_root_lem : batch_root toy three ≡ ok three_root
unfolding growing three_root
three_root_lem = refl

batch_root_inj_example :
    (map_result from_hex three ≡ map_result from_hex three)
    ⊎ CollisionIn toy (λ m. HashedInBatch toy three m ⊎ HashedInBatch toy three m)
batch_root_inj_example = batch_root_inj toy three three refl three_root_lem three_root_lem

root-from_hashes_example : (from_hashes toy three >>= root toy) ≡ batch_root toy three
root-from_hashes_example = root-from_hashes toy three

-- Both proofs of a batch of three check, and a membership proof at another index does not.
proofs_run :
    ((membership_proof toy three (pos 1) >>= λ proof.
    verify_membership toy (codes "01") (pos 1) (pos 3) proof three_root)
      ≡ ok true)
    × ((membership_proof toy three (pos 1) >>= λ proof.
          verify_membership toy (codes "01") (pos 0) (pos 3) proof three_root)
        ≡ ok false)
    × ((batch_root toy (take 2 three) >>= λ old. consistency_proof toy three (pos 2) >>= λ proof.
          verify_consistency toy old (pos 2) three_root (pos 3) proof)
        ≡ ok true)
unfolding growing three_root
proofs_run = (refl, refl, refl)

abbrev bound : Checkpoint
bound = record {
  seq = pos 2;
  entry_hash = codes "02";
  root = three_root;
  agg_commit = some (codes "ab");
  agg_epoch = some (pos 3);
}

checkpoint_of_three : checkpoint_for toy three (some (codes "ab")) (some (pos 3)) none ≡ ok bound
unfolding growing three_root
checkpoint_of_three = refl

three_passes : verify_checkpoint toy three bound ≡ ok none
unfolding growing three_root
three_passes = refl

grown_passes : verify_checkpoint toy (three ++ codes "03" ∷ []) bound ≡ ok none
unfolding growing three_root
grown_passes = refl

verify_checkpoint_commits_example :
    ((n : ℕ) × (bound.seq ≡ pos n)
      × (map_result from_hex (take (suc n) three)
          ≡ map_result from_hex (take (suc n) (three ++ codes "03" ∷ []))))
    ⊎ CollisionIn toy
        (λ m. HashedUpTo toy bound three m ⊎ HashedUpTo toy bound (three ++ codes "03" ∷ []) m)
verify_checkpoint_commits_example =
    verify_checkpoint_commits toy three (three ++ codes "03" ∷ []) bound three_passes grown_passes

grown_pin_passes : check_pin toy (three ++ codes "03" ∷ []) bound ≡ ok none
unfolding growing three_root
grown_pin_passes = refl

check_pin-checkpoint_for_example :
    (n : ℕ) × (bound.seq ≡ pos n)
    × (suc n ≤ length (three ++ codes "03" ∷ []))
    × ((map_result from_hex (take (suc n) three)
          ≡ map_result from_hex (take (suc n) (three ++ codes "03" ∷ [])))
        ⊎ CollisionIn toy
            (λ m. HashedUpTo toy bound three m ⊎ HashedUpTo toy bound (three ++ codes "03" ∷ []) m))
check_pin-checkpoint_for_example =
    check_pin-checkpoint_for toy three (three ++ codes "03" ∷ []) (some (codes "ab")) (some (pos 3))
      checkpoint_of_three grown_pin_passes

verifiers_answer_example :
    ((b : Bool) × (verify_membership toy (codes "zz") (pos 1) (pos 3) (codes "0" ∷ []) (codes "01")
        ≡ ok b))
    × ((b : Bool) × (verify_consistency toy
            (codes "zz")
            (pos 1)
            (codes "01")
            (pos 3)
            (codes "0" ∷ [])
          ≡ ok b))
verifiers_answer_example =
    verifiers_answer toy (codes "zz") (codes "zz") (codes "01") (pos 1) (pos 3) (pos 1) (pos 3)
      (codes "0" ∷ [])
