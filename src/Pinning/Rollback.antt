-- ===== src/Pinning/Rollback.antt =====
-- The checks of src/waxseal/domain/_pinning_checks.py against the trails and records that they are
-- given.

use mathlib.Core.List.{append-nil}
use waxseal.Base.{
  inr, ◌∷◌, ◌≡◌, ◌↔◌, none, ◌≢◌, Text, false, ℕ, ◌∙◌, >>=-eq-ok, is_some, &&-eq-true, sym, some, ok,
  true, Bool-cases, ◌&&◌, subst, length, Bool, ok_inj, if◌then◌else◌, refl, List, [], ap, take, ◌⊎◌,
  ◌≤◌, inl, suc, Option,
}
use waxseal.Anchoring.{map_result}
use waxseal.Base.Int.{leb_ℤ, pos_part, pos, ℤ}
use waxseal.Bytes.Hex.{from_hex}
use waxseal.Checkpoint.{CheckpointReason, verify_checkpoint, Checkpoint, checkpoint_for}
use waxseal.Checkpoint.Agreement.{
  verify_checkpoint-checkpoint_for, HashedUpTo, verify_checkpoint-none, verify_checkpoint_commits,
}
use waxseal.Digest.{Hashes, CollisionIn}
use waxseal.Pinning.{
  check_pin, anchor_binding_unreadable, anchor_policy_downgrade_found, renamed,
  anchor_policy_downgrade, any_binding,
}

renamed-none : (r : Option CheckpointReason) → renamed r ≡ none → r ≡ none
unfolding renamed
renamed-none none h = refl
renamed-none (some reason) h = cc

-- A record that binds an aggregate at the pinned position or after it.
unfoldable pub HasBinding : ℤ → List (ℤ × Option Text) → Type 0
HasBinding pinned_seq [] = ⊥
HasBinding pinned_seq ((seq, agg) ∷ records) =
    ((leb_ℤ pinned_seq seq ≡ true) × (agg ≢ none)) ⊎ HasBinding pinned_seq records

is_some_iff : (agg : Option Text) → (is_some agg ≡ true) ↔ (agg ≢ none)
is_some_iff none = ((λ h. cc h), λ h. absurd (h refl))
is_some_iff (some t) = ((λ _ e. cc e), λ _. refl)

any_binding_iff :
    (pinned_seq : ℤ) (records : List (ℤ × Option Text))
    → (any_binding pinned_seq records ≡ true) ↔ HasBinding pinned_seq records
unfolding any_binding HasBinding
any_binding_iff pinned_seq [] = ((λ h. cc h), λ h. absurd h)
any_binding_iff pinned_seq ((seq, agg) ∷ records) =
    let there = is_some_iff agg in
    let later = any_binding_iff pinned_seq records in
    elim (Bool-cases (leb_ℤ pinned_seq seq && is_some agg)) [
      | inl here ↦
          let (low, present) = &&-eq-true (leb_ℤ pinned_seq seq) (is_some agg) here in
          ((λ _. inl (low, there.0 present)), λ _. rw here)
      | inr not_here ↦ (
        (λ h. inr (later.0 (rw not_here at h))),
        λ b. elim b [
          | inl (low, present) ↦ absurd (cc (rw (low, there.1 present) at not_here))
          | inr further ↦ rw not_here (later.1 further)
        ],
      )
    ]

-- No downgrade is reported exactly if a record at the pinned position or after it binds an
-- aggregate; without one the finding is the downgrade, or that the records could not all be read.
pub anchor_policy_downgrade_iff :
    (pinned_seq : ℤ) (records : List (ℤ × Option Text)) (any_unreadable : Bool)
    → ((anchor_policy_downgrade pinned_seq records any_unreadable ≡ none)
        ↔ HasBinding pinned_seq records)
      × (¬ HasBinding pinned_seq records
          → anchor_policy_downgrade pinned_seq records any_unreadable
            ≡ some (
                if any_unreadable
                then anchor_binding_unreadable
                else anchor_policy_downgrade_found))
unfolding anchor_policy_downgrade
anchor_policy_downgrade_iff pinned_seq records any_unreadable =
    let (found, made) = any_binding_iff pinned_seq records in
    elim (Bool-cases (any_binding pinned_seq records)) [
      | inl binds ↦ (((λ _. found binds), λ _. rw binds), λ absent. absurd (absent (found binds)))
      | inr free ↦ (
        (
          (λ h. absurd (some_reason any_unreadable (rw free at h))),
          λ b. absurd (cc (sym free ∙ made b)),
        ),
        λ _. rw free (one_of any_unreadable),
      )
    ]
  where
    some_reason :
        (b : Bool)
        → (if b then some anchor_binding_unreadable else some anchor_policy_downgrade_found) ≡ none
        → ⊥
    some_reason true h = cc h
    some_reason false h = cc h

    one_of :
        (b : Bool)
        → (if b then some anchor_binding_unreadable else some anchor_policy_downgrade_found)
          ≡ some (if b then anchor_binding_unreadable else anchor_policy_downgrade_found)
    one_of true = refl
    one_of false = refl

module _ (hs : Hashes) where
  -- A trail that passes against a pin that was made of an earlier one reaches the pinned position
  -- and has, up to it, the entry hashes of the earlier one, as bytes, or two different byte strings
  -- that are hashed for the roots of the two trails up to the pin have one SHA-256 digest.
  pub check_pin-checkpoint_for :
      (pinned served : List Text) (agg_commit : Option Text) (agg_epoch : Option ℤ)
      {pin : Checkpoint}
      → checkpoint_for hs pinned agg_commit agg_epoch none ≡ ok pin
      → check_pin hs served pin ≡ ok none
      → (n : ℕ) × (pin.seq ≡ pos n)
        × (suc n ≤ length served)
        × ((map_result from_hex (take (suc n) pinned) ≡ map_result from_hex (take (suc n) served))
            ⊎ CollisionIn hs (λ m. HashedUpTo hs pin pinned m ⊎ HashedUpTo hs pin served m))
  unfolding check_pin
  check_pin-checkpoint_for pinned served agg_commit agg_epoch {pin} made passes =
      let (reason, checked, named) = >>=-eq-ok (verify_checkpoint hs served pin) _ passes in
      let clear = renamed-none reason (ok_inj named) in
      let now : verify_checkpoint hs served pin ≡ ok none = checked ∙ ap ok clear in
      let before : verify_checkpoint hs pinned pin ≡ ok none =
        ap (λ xs. verify_checkpoint hs xs pin) (sym (append-nil pinned))
        ∙ verify_checkpoint-checkpoint_for hs pinned [] agg_commit agg_epoch made in
      let (m, place, long, _, _) = verify_checkpoint-none hs served pin now in
      (m, place, long, history (verify_checkpoint_commits hs pinned served pin before now) place)
    where
      history :
          {m : ℕ}
          → ((n : ℕ) × (pin.seq ≡ pos n)
              × (map_result from_hex (take (suc n) pinned)
                  ≡ map_result from_hex (take (suc n) served)))
            ⊎ CollisionIn hs (λ m. HashedUpTo hs pin pinned m ⊎ HashedUpTo hs pin served m)
          → pin.seq ≡ pos m
          → (map_result from_hex (take (suc m) pinned) ≡ map_result from_hex (take (suc m) served))
            ⊎ CollisionIn hs (λ m. HashedUpTo hs pin pinned m ⊎ HashedUpTo hs pin served m)
      history (inr found) place = inr found
      history (inl (n, at_n, leaves)) place =
          let same = ap pos_part (sym at_n ∙ place) in
          inl (
            subst
              (λ k.
                map_result from_hex (take (suc k) pinned)
                ≡ map_result from_hex (take (suc k) served))
              same leaves)
