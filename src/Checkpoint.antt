-- ===== src/Checkpoint.antt =====
-- src/waxseal/domain/checkpoint.py: what a trail anchors outside of itself.
pub mod Frame
pub mod Agreement
use waxseal.Base.{
  index_error, length, take, Result, text_eq, true, if◌then◌else◌, List, zero, Option, ◌>>◌,
  raise_if, ◌∷◌, raise, ◌≡◌, value_error, none, some, not, [], Bytes, ◌>>=◌, Text, codes, Bool,
  false, suc, ok, ℕ,
}
use waxseal.Anchoring.{batch_root}
use waxseal.Base.Int.{leb_ℤ, pos, ltb_ℤ, pos_part, ℤ}
use waxseal.Bytes.Decimal.{show_int}
use waxseal.Digest.{Hashes}
use waxseal.Hashing.{text, frame}

abbrev pub checkpoint_frame_prefix_bare : Bytes
checkpoint_frame_prefix_bare = codes "waxseal-checkpoint-v1\n"

abbrev pub checkpoint_frame_prefix_agg_bound : Bytes
checkpoint_frame_prefix_agg_bound = codes "waxseal-checkpoint-v2\n"

pub record Checkpoint : Type 0 where
  pub seq : ℤ
  pub entry_hash : Text
  pub root : Text
  pub agg_commit : Option Text
  pub agg_epoch : Option ℤ

pub data CheckpointReason : Type 0 where
  malformed_checkpoint anchor_beyond_head : CheckpointReason
  anchor_entry_hash_mismatch anchor_root_mismatch : CheckpointReason

-- `(self.agg_commit is None) != (self.agg_epoch is None)`
unfoldable pub half_bound : Option Text → Option ℤ → Bool
half_bound none none = false
half_bound (some _) (some _) = false
half_bound none (some _) = true
half_bound (some _) none = true

-- `Checkpoint(...)` with its `__post_init__`
unfoldable pub new_checkpoint : ℤ → Text → Text → Option Text → Option ℤ → Result Checkpoint
unfolding half_bound
new_checkpoint seq entry_hash root agg_commit agg_epoch =
    raise_if (half_bound agg_commit agg_epoch) value_error
    >> ok (record {
      seq = seq;
      entry_hash = entry_hash;
      root = root;
      agg_commit = agg_commit;
      agg_epoch = agg_epoch;
    })

-- A checkpoint that the constructor made.
unfoldable pub IsCheckpoint : Checkpoint → Type 0
unfolding half_bound
IsCheckpoint c = half_bound c.agg_commit c.agg_epoch ≡ false

-- `str(checkpoint.agg_epoch)`
unfoldable pub show_epoch : Option ℤ → Text
show_epoch none = codes "None"
show_epoch (some n) = show_int n

unfoldable pub frame_of : Option Text → Checkpoint → Result Bytes
unfolding show_epoch
frame_of none c =
    frame checkpoint_frame_prefix_bare 3
      (text (show_int c.seq) ∷ text c.entry_hash ∷ text c.root ∷ [])
frame_of (some agg_commit) c = frame checkpoint_frame_prefix_agg_bound 5 (
    text (show_int c.seq)
    ∷ text c.entry_hash
    ∷ text c.root
    ∷ text (show_epoch c.agg_epoch)
    ∷ text agg_commit
    ∷ [])

unfoldable pub checkpoint_frame : Checkpoint → Result Bytes
checkpoint_frame c = frame_of c.agg_commit c

-- `entry_hashes[-1]`
unfoldable pub last_item : List Text → Result Text
last_item [] = raise index_error
last_item (x ∷ []) = ok x
last_item (x ∷ y ∷ xs) = last_item (y ∷ xs)

-- `xs[i]` for `i` from 0 up
unfoldable pub item_at : List Text → ℕ → Result Text
item_at [] i = raise index_error
item_at (x ∷ xs) zero = ok x
item_at (x ∷ xs) (suc i) = item_at xs i

-- `except ValueError: return "anchor_root_mismatch"`, and the comparison after it
unfoldable pub root_reason : Result Text → Text → Result (Option CheckpointReason)
root_reason (raise value_error) expected = ok (some anchor_root_mismatch)
root_reason (raise e) expected = raise e
root_reason (ok root) expected =
    ok (if not (text_eq root expected) then some anchor_root_mismatch else none)

module _ (hs : Hashes) where
  unfoldable pub root_or : Option Text → List Text → Result Text
  root_or none entry_hashes = batch_root hs entry_hashes
  root_or (some root) entry_hashes = ok root

  unfoldable pub checkpoint_for :
      List Text → Option Text → Option ℤ → Option Text → Result Checkpoint
  unfolding root_or
  checkpoint_for [] agg_commit agg_epoch root = raise value_error
  checkpoint_for (x ∷ xs) agg_commit agg_epoch root = do
    last ← last_item (x ∷ xs)
    computed ← root_or root (x ∷ xs)
    new_checkpoint (pos (length xs)) last computed agg_commit agg_epoch

  unfoldable pub verify_checkpoint : List Text → Checkpoint → Result (Option CheckpointReason)
  unfolding root_reason
  verify_checkpoint entry_hashes c =
      let at_seq = λ (found : Text).
        if not (text_eq found c.entry_hash)
        then ok (some anchor_entry_hash_mismatch)
        else root_reason (batch_root hs (take (suc (pos_part c.seq)) entry_hashes)) c.root in
      if ltb_ℤ c.seq (pos 0)
      then ok (some malformed_checkpoint)
      else if leb_ℤ (pos (length entry_hashes)) c.seq
      then ok (some anchor_beyond_head)
      else item_at entry_hashes (pos_part c.seq) >>= at_seq
