-- ===== src/Anchoring.antt =====
-- src/waxseal/domain/anchoring.py: Merkle trees over batches of entry hashes, their proofs, and
-- the accumulator that carries a root from one entry to the next. A tree is cut at the largest
-- power of two below its size; `tree_at` and the loops on bits run on fuel that a number of leaves
-- or an index gives.
pub mod Split
pub mod PowerTest
pub mod Tree
pub mod Peaks
pub mod Proofs
use waxseal.Base.{
  drop, ℕ, some, Option, if◌then◌else◌, [], zero, List, ok, Text, length, ◌∷◌, ◌==◌, take, none,
  ◌>>=◌, ltb, ◌*◌, suc, index_error, ◌++◌, Bytes, Result, raise, ◌+◌,
}
use waxseal.Bytes.Hex.{hex, from_hex}
use waxseal.Digest.{Hashes, hexdigest}

-- The `while k * 2 < n` of `_split_point`.
unfoldable pub split_loop : ℕ → ℕ → ℕ → ℕ
split_loop zero k n = k
split_loop (suc fuel) k n =
    let next = split_loop fuel (k * 2) n in if ltb (k * 2) n then next else k

unfoldable pub split_point : ℕ → ℕ
split_point n = split_loop n 1 n

-- `[f(x) for x in xs]` for an `f` that may raise.
unfoldable pub map_result {ℓ κ} :
    {A : Type ℓ} {B : Type κ} → (A → Result B) → List A → Result (List B)
map_result f [] = ok []
map_result f (x ∷ xs) = do y ← f x; ys ← map_result f xs; ok (y ∷ ys)

-- `self._peaks`, the last peak first, `self._size` and `self._last_leaf`.
pub record IncrementalMerkle : Type 0 where
  pub peaks : List (ℕ × Bytes)
  pub size : ℕ
  pub last_leaf : Option Text

abbrev pub empty_tree : IncrementalMerkle
empty_tree = record { peaks = []; size = 0; last_leaf = none }

module _ (hs : Hashes) where
  unfoldable pub leaf_hash : Bytes → Bytes
  leaf_hash leaf = hs.sha256 (0 ∷ leaf)

  unfoldable pub pair_hash : Bytes → Bytes → Bytes
  pair_hash left right = hs.sha256 (1 ∷ (left ++ right))

  -- `_tree_hash` on fuel; with too little of it the answer is that of the empty list.
  unfoldable pub tree_at : ℕ → List Bytes → Bytes
  tree_at zero [] = hs.sha256 []
  tree_at zero (leaf ∷ []) = leaf_hash leaf
  tree_at zero (leaf ∷ other ∷ leaves) = hs.sha256 []
  tree_at (suc fuel) [] = hs.sha256 []
  tree_at (suc fuel) (leaf ∷ []) = leaf_hash leaf
  tree_at (suc fuel) (leaf ∷ other ∷ leaves) =
      let all = leaf ∷ other ∷ leaves in
      let k = split_point (length all) in
      pair_hash (tree_at fuel (take k all)) (tree_at fuel (drop k all))

  unfoldable pub tree_hash : List Bytes → Bytes
  tree_hash leaves = tree_at (length leaves) leaves

  unfoldable pub batch_root : List Text → Result Text
  batch_root entry_hashes = do
    leaves ← map_result from_hex entry_hashes
    ok (hex (tree_hash leaves))

  -- The `while` loop of `push`, and the `append` after it.
  unfoldable pub carry : ℕ → Bytes → List (ℕ × Bytes) → List (ℕ × Bytes)
  carry height node [] = (height, node) ∷ []
  carry height node ((h, left) ∷ rest) =
      let merged = carry (height + 1) (pair_hash left node) rest in
      if h == height then merged else (height, node) ∷ (h, left) ∷ rest

  -- The new state of `push`, after `bytes.fromhex`.
  abbrev pub pushed : Text → Bytes → IncrementalMerkle → IncrementalMerkle
  pushed entry_hash leaf tree = record {
    peaks = carry 0 (leaf_hash leaf) tree.peaks;
    size = tree.size + 1;
    last_leaf = some entry_hash;
  }

  unfoldable pub push : Text → IncrementalMerkle → Result IncrementalMerkle
  push entry_hash tree = do leaf ← from_hex entry_hash; ok (pushed entry_hash leaf tree)

  unfoldable pub push_all : List Text → IncrementalMerkle → Result IncrementalMerkle
  push_all [] tree = ok tree
  push_all (entry_hash ∷ rest) tree = do next ← push entry_hash tree; push_all rest next

  unfoldable pub from_hashes : List Text → Result IncrementalMerkle
  from_hashes entry_hashes = push_all entry_hashes empty_tree

  -- `for left in reversed(hashes[:-1])`
  unfoldable pub fold_peaks : Bytes → List (ℕ × Bytes) → Bytes
  fold_peaks acc [] = acc
  fold_peaks acc ((_, left) ∷ rest) = fold_peaks (pair_hash left acc) rest

  -- `hashes[-1]` raises `IndexError` on a tree that has a size and no peaks, which `push` never
  -- makes.
  unfoldable pub root_of_peaks : List (ℕ × Bytes) → Result Text
  root_of_peaks [] = raise index_error
  root_of_peaks ((_, digest) ∷ rest) = ok (hex (fold_peaks digest rest))

  unfoldable pub root : IncrementalMerkle → Result Text
  root tree = if tree.size == 0 then ok (hexdigest hs []) else root_of_peaks tree.peaks
