-- ===== src/Pinning.antt =====
-- src/waxseal/domain/_pinning_checks.py and pinning.py: what a verifier remembers of a trail, and
-- the checks against it. The age of the newest anchor is in Staleness. The JSON of a stored pin is not
-- modelled.
pub mod Rollback
pub mod Staleness
use waxseal.Base.{
  List, none, ◌>>=◌, if◌then◌else◌, ◌∷◌, is_some, some, not, Result, false, true, ◌||◌, text_eq,
  ◌&&◌, Option, ok, [], Bool, Text,
}
use waxseal.Base.Int.{leb_ℤ, ℤ}
use waxseal.Checkpoint.{
  anchor_beyond_head, anchor_root_mismatch, malformed_checkpoint, CheckpointReason,
  verify_checkpoint, anchor_entry_hash_mismatch, Checkpoint,
}
use waxseal.Digest.{Hashes}
use waxseal.Separation.{SeparationTopology}

pub data PinReason : Type 0 where
  malformed_pin pin_beyond_head pin_mismatch pin_target_mismatch : PinReason

pub data PolicyReason : Type 0 where
  anchor_binding_unreadable anchor_policy_downgrade_found : PolicyReason

pub record PinState : Type 0 where
  pub target : Text
  pub chain_id : Option Text
  pub checkpoint : Checkpoint
  pub pinned_ts : Text
  pub declared_topology : Option SeparationTopology
  pub max_anchor_age_s : Option ℤ
  pub expect_anchor_binding : Bool

-- _REASONS, which has every reason of `verify_checkpoint`
unfoldable pub pin_reason : CheckpointReason → PinReason
pin_reason malformed_checkpoint = malformed_pin
pin_reason anchor_beyond_head = pin_beyond_head
pin_reason anchor_entry_hash_mismatch = pin_mismatch
pin_reason anchor_root_mismatch = pin_mismatch

unfoldable pub renamed : Option CheckpointReason → Option PinReason
unfolding pin_reason
renamed none = none
renamed (some reason) = some (pin_reason reason)

-- `==` on two values of `str | None`
unfoldable pub option_text_eq : Option Text → Option Text → Bool
option_text_eq none none = true
option_text_eq none (some t) = false
option_text_eq (some s) none = false
option_text_eq (some s) (some t) = text_eq s t

unfoldable pub check_pin_target : PinState → Text → Option Text → Option PinReason
unfolding option_text_eq
check_pin_target state target chain_id =
    if not (text_eq state.target target) || not (option_text_eq state.chain_id chain_id)
    then some pin_target_mismatch
    else none

-- `any(seq >= pinned_seq and agg is not None for seq, agg in records)`
unfoldable pub any_binding : ℤ → List (ℤ × Option Text) → Bool
any_binding pinned_seq [] = false
any_binding pinned_seq ((seq, agg) ∷ records) =
    (leb_ℤ pinned_seq seq && is_some agg) || any_binding pinned_seq records

unfoldable pub anchor_policy_downgrade : ℤ → List (ℤ × Option Text) → Bool → Option PolicyReason
anchor_policy_downgrade pinned_seq records any_unreadable =
    if any_binding pinned_seq records
    then none
    else if any_unreadable
    then some anchor_binding_unreadable
    else some anchor_policy_downgrade_found

module _ (hs : Hashes) where
  unfoldable pub check_pin : List Text → Checkpoint → Result (Option PinReason)
  unfolding renamed
  check_pin entry_hashes pin = do
    reason ← verify_checkpoint hs entry_hashes pin
    ok (renamed reason)
