-- ===== src/Witnessing.antt =====
-- src/waxseal/domain/witnessing.py: the local trail against every checkpoint that a witness holds.
use waxseal.Base.{
  Text, ok_inj, >>=-eq-ok, arith, sym, ◌+◌, Result, some, ◌≡◌, [], zero, ok, refl, ◌∙◌, All, take,
  suc, length, ◌>>=◌, Option, none, List, ap, ◌⊎◌, ◌∷◌, ℕ,
}
use waxseal.Anchoring.{map_result}
use waxseal.Base.Int.{pos, ℤ}
use waxseal.Bytes.Hex.{from_hex}
use waxseal.Checkpoint.{verify_checkpoint, Checkpoint, CheckpointReason}
use waxseal.Checkpoint.Agreement.{verify_checkpoint_commits, HashedUpTo}
use waxseal.Digest.{CollisionIn, Hashes}

pub data WitnessStatus : Type 0 where
  consistent inconsistent witness_unreachable : WitnessStatus

pub data WitnessReason : Type 0 where
  no_checkpoints_witnessed : WitnessReason
  disagrees : CheckpointReason → WitnessReason
  not_asked : Text → WitnessReason

pub record WitnessObservation : Type 0 where
  pub checkpoints : List Checkpoint
  pub unreadable : ℕ

pub record WitnessVerdict : Type 0 where
  pub name : Text
  pub status : WitnessStatus
  pub checked : ℕ
  pub reason : Option WitnessReason
  pub broken_seq : Option ℤ
  pub unreadable : ℕ

unfoldable pub unreachable_witness : Text → Text → WitnessVerdict
unreachable_witness name reason = record {
  name = name;
  status = witness_unreachable;
  checked = 0;
  reason = some (not_asked reason);
  broken_seq = none;
  unreadable = 0;
}

-- `None if checked else "no_checkpoints_witnessed"`
unfoldable pub coverage : ℕ → Option WitnessReason
coverage zero = some no_checkpoints_witnessed
coverage (suc _) = none

module _ (hs : Hashes) (entry_hashes : List Text) (unreadable : ℕ) (name : Text) where
  -- What a checkpoint was found to be, and the rest of the loop.
  unfoldable pub after_checkpoint :
      Option CheckpointReason → ℤ → ℕ → Result WitnessVerdict → Result WitnessVerdict
  after_checkpoint none seq checked rest = rest
  after_checkpoint (some reason) seq checked rest = ok (record {
    name = name;
    status = inconsistent;
    checked = checked;
    reason = some (disagrees reason);
    broken_seq = some seq;
    unreadable = unreadable;
  })

  -- The loop over the checkpoints, and the result after it.
  unfoldable pub witness_walk : ℕ → List Checkpoint → Result WitnessVerdict
  unfolding after_checkpoint coverage
  witness_walk checked [] = ok (record {
    name = name;
    status = consistent;
    checked = checked;
    reason = coverage checked;
    broken_seq = none;
    unreadable = unreadable;
  })
  witness_walk checked (cp ∷ cps) =
      let rest = witness_walk (checked + 1) cps in
      verify_checkpoint hs entry_hashes cp >>= λ reason. after_checkpoint reason cp.seq checked rest

  witness_walk-consistent :
      (checked : ℕ) (cps : List Checkpoint) {r : WitnessVerdict}
      → witness_walk checked cps ≡ ok r
      → r.status ≡ consistent
      → All (λ cp. verify_checkpoint hs entry_hashes cp ≡ ok none) cps
        × (r.checked ≡ checked + length cps)
  unfolding witness_walk
  witness_walk-consistent checked [] h good =
      (tt, ap (λ (r : WitnessVerdict). r.checked) (sym (ok_inj h)) ∙ omega arith)
  witness_walk-consistent checked (cp ∷ cps) {r} h good =
      let (reason, looked, h1) = >>=-eq-ok (verify_checkpoint hs entry_hashes cp) _ h in
      let (quiet, h2) = passes reason _ h1 in
      let (later, count) = witness_walk-consistent (checked + 1) cps h2 good in
      ((looked ∙ ap ok quiet, later), count ∙ omega arith)
    where
      passes :
          (o : Option CheckpointReason) (rest : Result WitnessVerdict)
          → after_checkpoint o cp.seq checked rest ≡ ok r
          → (o ≡ none) × (rest ≡ ok r)
      passes none rest e = (refl, e)
      passes (some reason) rest e =
          let differ : inconsistent ≡ consistent =
            ap (λ (r : WitnessVerdict). r.status) (ok_inj e) ∙ good in
          cc

module _ (hs : Hashes) where
  unfoldable pub check_witnessed : List Text → WitnessObservation → Text → Result WitnessVerdict
  unfolding witness_walk
  check_witnessed entry_hashes observation name =
      witness_walk hs entry_hashes observation.unreadable name 0 observation.checkpoints

  -- Both trails have one history up to a checkpoint, or what is hashed for its roots collides.
  AgreeUpTo : List Text → List Text → Checkpoint → Type 0
  AgreeUpTo xs ys cp =
      ((n : ℕ) × (cp.seq ≡ pos n)
        × (map_result from_hex (take (suc n) xs) ≡ map_result from_hex (take (suc n) ys)))
      ⊎ CollisionIn hs (λ m. HashedUpTo hs cp xs m ⊎ HashedUpTo hs cp ys m)

  agree :
      (xs ys : List Text) (cps : List Checkpoint)
      → All (λ cp. verify_checkpoint hs xs cp ≡ ok none) cps
      → All (λ cp. verify_checkpoint hs ys cp ≡ ok none) cps
      → All (AgreeUpTo xs ys) cps
  unfolding AgreeUpTo
  agree xs ys [] hx hy = tt
  agree xs ys (cp ∷ cps) (hx, later_x) (hy, later_y) =
      (verify_checkpoint_commits hs xs ys cp hx hy, agree xs ys cps later_x later_y)

  -- For each checkpoint of a witness, two trails that are both consistent with what the witness
  -- holds have the same entry hashes, as bytes, up to that checkpoint, or two different byte strings
  -- that are hashed for the roots of the two trails up to it have one SHA-256 digest; each verdict
  -- counts every checkpoint.
  pub check_witnessed_agree :
      (xs ys : List Text) (observation : WitnessObservation) (name : Text) {r s : WitnessVerdict}
      → check_witnessed xs observation name ≡ ok r
      → r.status ≡ consistent
      → check_witnessed ys observation name ≡ ok s
      → s.status ≡ consistent
      → All
          (λ cp.
            ((n : ℕ) × (cp.seq ≡ pos n)
              × (map_result from_hex (take (suc n) xs) ≡ map_result from_hex (take (suc n) ys)))
            ⊎ CollisionIn hs (λ m. HashedUpTo hs cp xs m ⊎ HashedUpTo hs cp ys m))
          observation.checkpoints
        × (r.checked ≡ length observation.checkpoints)
        × (s.checked ≡ length observation.checkpoints)
  unfolding check_witnessed AgreeUpTo
  check_witnessed_agree xs ys observation name hx gx hy gy =
      let (all_x, count_x) = witness_walk-consistent hs xs observation.unreadable name 0 _ hx gx in
      let (all_y, count_y) = witness_walk-consistent hs ys observation.unreadable name 0 _ hy gy in
      (
        agree xs ys observation.checkpoints all_x all_y,
        count_x ∙ omega arith,
        count_y ∙ omega arith,
      )
