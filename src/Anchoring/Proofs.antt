-- ===== src/Anchoring/Proofs.antt =====
-- Membership and consistency proofs (RFC 9162) of src/waxseal/domain/anchoring.py and their
-- verifiers.
pub mod Total
pub mod Nodes
pub mod Rounds
pub mod Climb
pub mod Full
pub mod Both
pub mod Below
pub mod Edge
pub mod Paths
pub mod Consistent
pub mod Turns
pub mod Runs
pub mod Extends
pub mod AppendOnly
pub mod Whole
pub mod Complete
pub mod Sound
use Prim.Native.Nat.{bit_and}
use waxseal.Base.{
  ltb, ◌==◌, value_error, Option, text_eq, take, Bytes, index_error, leb, map, List, raise_if, [],
  ◌%◌, Text, ◌/◌, if◌then◌else◌, ◌∷◌, ℕ, ◌-◌, raise, ok, ◌||◌, true, ◌>>=◌, not, zero, ◌&&◌, Bool,
  ◌>>◌, suc, none, some, drop, Result, false, ◌++◌, length,
}
use waxseal.Anchoring.{pair_hash, root, tree_hash, map_result, split_point, leaf_hash}
use waxseal.Base.Int.{ℤ, pos, ltb_ℤ, leb_ℤ, pos_part}
use waxseal.Bytes.Hex.{hex, from_hex}
use waxseal.Digest.{Hashes}

unfoldable pub is_odd : ℕ → Bool
is_odd n = n % 2 == 1

-- Both numbers of a loop halved until the first is odd or zero. A loop that tests first begins
-- with the test; one that tests last halves once before it. `fn` itself is enough fuel.
unfoldable pub halve_to_odd : ℕ → ℕ → ℕ → ℕ × ℕ
halve_to_odd zero fn sn = (fn, sn)
halve_to_odd (suc fuel) fn sn =
    let next = halve_to_odd fuel (fn / 2) (sn / 2) in
    if is_odd fn || fn == 0 then (fn, sn) else next

-- `while fn & 1: fn >>= 1; sn >>= 1`
unfoldable pub drop_ones : ℕ → ℕ → ℕ → ℕ × ℕ
drop_ones zero fn sn = (fn, sn)
drop_ones (suc fuel) fn sn =
    let next = drop_ones fuel (fn / 2) (sn / 2) in if is_odd fn then next else (fn, sn)

-- `0 <= index < len(entry_hashes)`
unfoldable pub in_batch : ℤ → List Text → Bool
in_batch index entry_hashes = leb_ℤ (pos 0) index && ltb_ℤ index (pos (length entry_hashes))

-- `sn == 0 and node.hex() == root`
unfoldable pub reaches_root : Option (Bytes × ℕ) → Text → Bool
reaches_root none root = false
reaches_root (some (node, sn)) root = (sn == 0) && text_eq (hex node) root

-- `except ValueError: return False`
unfoldable pub false_on_value_error : Result Bool → Result Bool
false_on_value_error (raise value_error) = ok false
false_on_value_error answer = answer

unfoldable pub reaches_both : Option (Bytes × Bytes × ℕ) → Bytes → Bytes → Bool
reaches_both none old_hash new_hash = false
reaches_both (some (fr, sr, sn)) old_hash new_hash =
    text_eq fr old_hash && (text_eq sr new_hash && (sn == 0))

module _ (hs : Hashes) where
  -- `_audit_path` on fuel; the leaves are never empty.
  unfoldable pub audit_at : ℕ → ℕ → List Bytes → List Bytes
  audit_at zero m leaves = []
  audit_at (suc fuel) m leaves =
      let k = split_point (length leaves) in
      let left = audit_at fuel m (take k leaves) in
      let right = audit_at fuel (m - k) (drop k leaves) in
      if length leaves == 1
      then []
      else if ltb m k
      then left ++ tree_hash hs (drop k leaves) ∷ []
      else right ++ tree_hash hs (take k leaves) ∷ []

  unfoldable pub audit_path : ℕ → List Bytes → List Bytes
  audit_path m leaves = audit_at (length leaves) m leaves

  unfoldable pub membership_proof : List Text → ℤ → Result (List Text)
  unfolding in_batch
  membership_proof entry_hashes index =
      raise_if (not (in_batch index entry_hashes)) index_error >> (do
        leaves ← map_result from_hex entry_hashes
        ok (map hex (audit_path (pos_part index) leaves)))

  -- `_consistency_subproof` on fuel.
  unfoldable pub consistency_at : ℕ → ℕ → List Bytes → Bool → List Bytes
  consistency_at zero m leaves complete = if complete then [] else tree_hash hs leaves ∷ []
  consistency_at (suc fuel) m leaves complete =
      let k = split_point (length leaves) in
      let left = consistency_at fuel m (take k leaves) complete in
      let right = consistency_at fuel (m - k) (drop k leaves) false in
      if m == length leaves
      then (if complete then [] else tree_hash hs leaves ∷ [])
      else if leb m k
      then left ++ tree_hash hs (drop k leaves) ∷ []
      else right ++ tree_hash hs (take k leaves) ∷ []

  unfoldable pub consistency_proof : List Text → ℤ → Result (List Text)
  consistency_proof entry_hashes old_size =
      raise_if (not (leb_ℤ (pos 1) old_size && leb_ℤ old_size (pos (length entry_hashes))))
        index_error
      >> (do
        leaves ← map_result from_hex entry_hashes
        ok (map hex (consistency_at (length leaves) (pos_part old_size) leaves true)))

  -- The loop of `verify_membership`: the node and the two numbers after all the siblings, or none
  -- where it returns `False`.
  unfoldable pub climb : Bytes → ℕ → ℕ → List Bytes → Option (Bytes × ℕ)
  climb node fn sn [] = some (node, sn)
  climb node fn sn (sibling ∷ siblings) =
      let (fn', sn') = halve_to_odd fn (fn / 2) (sn / 2) in
      let from_left = climb (pair_hash hs sibling node) (fn / 2) (sn / 2) siblings in
      let from_edge = climb (pair_hash hs sibling node) (fn' / 2) (sn' / 2) siblings in
      let from_right = climb (pair_hash hs node sibling) (fn / 2) (sn / 2) siblings in
      if sn == 0
      then none
      else if is_odd fn
      then from_left
      else if fn == sn
      then from_edge
      else from_right

  unfoldable pub verify_membership : Text → ℤ → ℤ → List Text → Text → Result Bool
  verify_membership entry_hash index batch_size proof root =
      if ltb_ℤ index (pos 0) || (ltb_ℤ batch_size (pos 1) || leb_ℤ batch_size index)
      then ok false
      else false_on_value_error (do
        leaf ← from_hex entry_hash
        siblings ← map_result from_hex proof
        ok (
            reaches_root
              (climb (leaf_hash hs leaf) (pos_part index) (pos_part batch_size - 1) siblings) root))

  -- The loop of `verify_consistency`: both hashes and the second number at its end, or none where
  -- it returns `False`.
  unfoldable pub climb_both : Bytes → Bytes → ℕ → ℕ → List Bytes → Option (Bytes × Bytes × ℕ)
  climb_both fr sr fn sn [] = some (fr, sr, sn)
  climb_both fr sr fn sn (sibling ∷ siblings) =
      let (fn', sn') = halve_to_odd fn fn sn in
      let from_left =
        climb_both (pair_hash hs sibling fr) (pair_hash hs sibling sr) (fn' / 2) (sn' / 2)
          siblings in
      let from_right = climb_both fr (pair_hash hs sr sibling) (fn / 2) (sn / 2) siblings in
      if sn == 0 then none else if is_odd fn || fn == sn then from_left else from_right

  -- From `path[0]` on; `path` is not empty.
  unfoldable pub check_path : ℕ → ℕ → Bytes → Bytes → List Bytes → Bool
  unfolding reaches_both
  check_path old_size new_size old_hash new_hash [] = false
  check_path old_size new_size old_hash new_hash (first ∷ siblings) =
      let (fn, sn) = drop_ones old_size (old_size - 1) (new_size - 1) in
      reaches_both (climb_both first first fn sn siblings) old_hash new_hash

  -- The checks after the three `bytes.fromhex`.
  unfoldable pub check_consistency : ℕ → ℕ → Bytes → Bytes → List Bytes → Bool
  unfolding check_path
  check_consistency old_size new_size old_hash new_hash path =
      if old_size == new_size
      then is_empty path && text_eq old_hash new_hash
      else if is_empty path
      then false
      else if bit_and old_size (old_size - 1) == 0
      then check_path old_size new_size old_hash new_hash (old_hash ∷ path)
      else check_path old_size new_size old_hash new_hash path
    where
      is_empty : List Bytes → Bool
      is_empty [] = true
      is_empty (_ ∷ _) = false

  unfoldable pub verify_consistency : Text → ℤ → Text → ℤ → List Text → Result Bool
  verify_consistency old_root old_size new_root new_size proof =
      if ltb_ℤ old_size (pos 1) || ltb_ℤ new_size old_size
      then ok false
      else false_on_value_error (do
        old_hash ← from_hex old_root
        new_hash ← from_hex new_root
        path ← map_result from_hex proof
        ok (check_consistency (pos_part old_size) (pos_part new_size) old_hash new_hash path))
