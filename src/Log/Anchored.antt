-- ===== src/Log/Anchored.antt =====
-- `AuditLog.anchor` of src/waxseal/log/facade.py, on a log whose tree has seen a prefix of its
-- trail.
use waxseal.Base.{
  ◌++◌, subst, ◌∙◌, ◌>>=◌, refl, Text, [], none, some, ◌∷◌, >>=-eq-ok, List, Option, Result, raise,
  ◌≡◌, sym, ok,
}
use waxseal.Anchoring.{batch_root}
use waxseal.Base.Int.{ℤ}
use waxseal.Checkpoint.{verify_checkpoint, checkpoint_for, root_or, Checkpoint}
use waxseal.Checkpoint.Agreement.{verify_checkpoint-checkpoint_for}
use waxseal.Digest.{Hashes}
use waxseal.Log.{
  anchor, aggregate_binding, merkle_root_for, entry_hashes, anchor_bound, publish, AuditLog, Wiring,
  anchor_to,
}
use waxseal.Log.Sync.{Synced, merkle_root_for-Synced}

-- The root that is passed in is the one that would be computed.
checkpoint_for-root :
    (hs : Hashes) (hashes : List Text) (agg : Option Text) (epoch : Option ℤ) {top : Text}
    → batch_root hs hashes ≡ ok top
    → checkpoint_for hs hashes agg epoch (some top) ≡ checkpoint_for hs hashes agg epoch none
unfolding checkpoint_for root_or
checkpoint_for-root hs [] agg epoch h = refl
checkpoint_for-root hs (x ∷ xs) agg epoch h = rw h refl

module _ {W : Type 0} (hs : Hashes) where
  -- The trail and the counts of a log stay, and its tree has seen a prefix of the trail.
  unfoldable pub Kept : AuditLog W → AuditLog W → Type 0
  Kept log after =
      (after.backend ≡ log.backend)
      × (after.dropped ≡ log.dropped)
      × (after.attest_failures ≡ log.attest_failures)
      × Synced hs after.merkle (entry_hashes log.backend)

  publish-Kept :
      (sink : Checkpoint → W → Result (Unit {0}) × W) (r : Result Checkpoint) (log : AuditLog W)
      → Synced hs log.merkle (entry_hashes log.backend)
      → Kept log (publish hs sink r log).1
  unfolding Kept publish
  publish-Kept sink (raise e) log s = (refl, refl, refl, s)
  publish-Kept sink (ok cp) log s = (refl, refl, refl, s)

  publish-ok :
      (sink : Checkpoint → W → Result (Unit {0}) × W) (r : Result Checkpoint) (log : AuditLog W)
      {cp : Checkpoint}
      → (publish hs sink r log).0 ≡ ok cp
      → r ≡ ok cp
  unfolding publish
  publish-ok sink (raise e) log h = h
  publish-ok sink (ok made) log h = let (_, _, same) = >>=-eq-ok (sink made log.world).0 _ h in same

  anchor_bound-Kept :
      (sink : Checkpoint → W → Result (Unit {0}) × W) (hashes : List Text)
      (binding : Result (Option Text × Option ℤ)) (log : AuditLog W)
      → hashes ≡ entry_hashes log.backend
      → Synced hs log.merkle (entry_hashes log.backend)
      → Kept log (anchor_bound hs sink hashes binding log).1
  unfolding anchor_bound Kept
  anchor_bound-Kept sink hashes (raise e) log at s = (refl, refl, refl, s)
  anchor_bound-Kept sink hashes (ok (agg, epoch)) log at s =
      let (top, tree) = merkle_root_for hs hashes log.merkle in
      let synced =
        (merkle_root_for-Synced hs hashes log.merkle (subst (Synced hs log.merkle) (sym at) s)).1 in
      publish-Kept sink (top >>= λ r. checkpoint_for hs hashes agg epoch (some r))
        (record log { merkle = tree }) (subst (Synced hs tree) at synced)

  -- The checkpoint that was published.
  anchor_bound-ok :
      (sink : Checkpoint → W → Result (Unit {0}) × W) (hashes : List Text)
      (binding : Result (Option Text × Option ℤ)) (log : AuditLog W) {cp : Checkpoint}
      → Synced hs log.merkle hashes
      → (anchor_bound hs sink hashes binding log).0 ≡ ok cp
      → (agg : Option Text) × (epoch : Option ℤ) × (binding ≡ ok (agg, epoch))
        × (checkpoint_for hs hashes agg epoch none ≡ ok cp)
  unfolding anchor_bound
  anchor_bound-ok sink hashes (raise e) log s h = cc
  anchor_bound-ok sink hashes (ok (agg, epoch)) log s h =
      let made = publish-ok sink _ _ h in
      let (top, root_lem, built) = >>=-eq-ok (merkle_root_for hs hashes log.merkle).0 _ made in
      let whole = sym (merkle_root_for-Synced hs hashes log.merkle s).0 ∙ root_lem in
      (agg, epoch, refl, sym (checkpoint_for-root hs hashes agg epoch whole) ∙ built)

module _ {W D : Type 0} (hs : Hashes) (wiring : Wiring W D) where
  pub anchor-Kept :
      (log : AuditLog W)
      → Synced hs log.merkle (entry_hashes log.backend)
      → Kept hs log (anchor hs wiring log).1
  unfolding anchor Kept
  anchor-Kept log s = go wiring.anchor_sink (entry_hashes log.backend) refl
    where
      go :
          (sink : Option (Checkpoint → W → Result (Unit {0}) × W)) (hashes : List Text)
          → hashes ≡ entry_hashes log.backend
          → Kept hs log (anchor_to hs wiring sink hashes log).1
      go none hashes at = (refl, refl, refl, s)
      go (some sink) [] at = (refl, refl, refl, s)
      go (some sink) (x ∷ xs) at =
          anchor_bound-Kept hs sink (x ∷ xs) (aggregate_binding hs wiring log.world) log at s

  pub anchor-verify_checkpoint :
      (log : AuditLog W) (later : List Text) {cp : Checkpoint}
      → Synced hs log.merkle (entry_hashes log.backend)
      → (anchor hs wiring log).0 ≡ ok cp
      → ((agg : Option Text) × (epoch : Option ℤ) × (aggregate_binding hs wiring log.world
            ≡ ok (agg, epoch))
          × (checkpoint_for hs (entry_hashes log.backend) agg epoch none ≡ ok cp))
        × (verify_checkpoint hs (entry_hashes log.backend ++ later) cp ≡ ok none)
  unfolding anchor anchor_to
  anchor-verify_checkpoint log later {cp = cp} s h =
      let (agg, epoch, bound, made) = go wiring.anchor_sink (entry_hashes log.backend) s h in
      (
        (agg, epoch, bound, made),
        verify_checkpoint-checkpoint_for hs (entry_hashes log.backend) later agg epoch made,
      )
    where
      go :
          (sink : Option (Checkpoint → W → Result (Unit {0}) × W)) (hashes : List Text)
          → Synced hs log.merkle hashes
          → (anchor_to hs wiring sink hashes log).0 ≡ ok cp
          → (agg : Option Text) × (epoch : Option ℤ) × (aggregate_binding hs wiring log.world
              ≡ ok (agg, epoch))
            × (checkpoint_for hs hashes agg epoch none ≡ ok cp)
      go none hashes s h = cc
      go (some sink) [] s h = cc
      go (some sink) (x ∷ xs) s h =
          anchor_bound-ok hs sink (x ∷ xs) (aggregate_binding hs wiring log.world) log s h
