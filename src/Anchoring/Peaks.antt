-- ===== src/Anchoring/Peaks.antt =====
-- `IncrementalMerkle` of src/waxseal/domain/anchoring.py against `batch_root`.

use mathlib.Core.List.{append_assoc, append-nil}
use native.Mathlib.Nat.{pow-succ'}
use waxseal.Base.{
  ◌==◌, Result-cases, sym, List, length-append, length, ◌++◌, ok, arith, ◌∙◌, Result, raise,
  Bool-cases, Text, inr, subst, suc, drop, inl, ◌≤◌, ◌^◌, ℕ, take, ◌∷◌, Bytes, ==_iff, refl, ◌+◌,
  [], ap₂, take-append, ap, ◌>>=◌, drop-append, ◌≡◌,
}
use waxseal.Anchoring.{
  tree_hash, leaf_hash, root_of_peaks, map_result, IncrementalMerkle, push_all, root, pair_hash,
  from_hashes, empty_tree, batch_root, split_point, pushed, carry, push, fold_peaks, tree_at,
}
use waxseal.Anchoring.Split.{power_positive, split_point_unique, power_next, powers_le}
use waxseal.Anchoring.Tree.{tree_hash_lem}
use waxseal.Bytes.Hex.{hex, from_hex}
use waxseal.Digest.{hexdigest, Hashes}

-- The last peak is lower than the next one.
Above : ℕ → List (ℕ × Bytes) → Type 0
Above bound [] = Unit
Above bound ((h, _) ∷ _) = bound ≤ h

module _ (hs : Hashes) where
  -- Each peak is the hash of a block of `2 ^ height` leaves; the blocks, from the first peak to
  -- the last, are the leaves, and their heights fall.
  Covers : List (ℕ × Bytes) → List Bytes → Type 0
  Covers [] leaves = leaves ≡ []
  Covers ((h, digest) ∷ rest) leaves =
      (before : List Bytes) × (block : List Bytes) × (leaves ≡ before ++ block)
      × (length block ≡ 2 ^ h)
      × (digest ≡ tree_hash hs block)
      × Above (suc h) rest
      × Covers rest before

  -- The hash of a full block followed by a block that is not larger.
  tree_hash-append :
      (h : ℕ) (a b : List Bytes)
      → length a ≡ 2 ^ h
      → 1 ≤ length b
      → length b ≤ 2 ^ h
      → tree_hash hs (a ++ b) ≡ pair_hash hs (tree_hash hs a) (tree_hash hs b)
  tree_hash-append h a b la low high =
      let cut : split_point (length (a ++ b)) ≡ 2 ^ h =
        split_point_unique (length (a ++ b)) h (omega (arith, length-append a b))
          (omega (arith, length-append a b)) in
      tree_hash_lem hs (a ++ b) (omega (arith, length-append a b, power_positive h))
      ∙ ap₂ (λ l r. pair_hash hs (tree_hash hs l) (tree_hash hs r))
          (ap (λ k. take k (a ++ b)) cut ∙ take-append (2 ^ h) a b la)
          (ap (λ k. drop k (a ++ b)) cut ∙ drop-append (2 ^ h) a b la)

  carry-Covers :
      (height : ℕ) (ps : List (ℕ × Bytes)) (leaves block : List Bytes) (node : Bytes)
      → Covers ps leaves
      → Above height ps
      → length block ≡ 2 ^ height
      → node ≡ tree_hash hs block
      → Covers (carry hs height node ps) (leaves ++ block)
  unfolding carry Covers Above
  carry-Covers height [] leaves block node covers above l e =
      (leaves, block, refl, l, e, tt, covers)
  carry-Covers height ((h, left) ∷ rest) leaves block node
        (before, own, parts, own_length, own_hash, higher, covers) above l e =
      elim (Bool-cases (h == height)) [
        | inr apart ↦ rw apart (
          leaves,
          block,
          refl,
          l,
          e,
          ground (arith, above, apart),
          (before, own, parts, own_length, own_hash, higher, covers),
        )
        | inl equal ↦
            let same : h ≡ height = (==_iff h height).0 equal in
            let own_length' : length own ≡ 2 ^ height = own_length ∙ ap (λ t. 2 ^ t) same in
            let merged =
              carry-Covers (height + 1) rest before (own ++ block) (pair_hash hs left node) covers
                (subst (λ t. Above t rest) (omega (arith, same)) higher)
                (omega (arith, length-append own block, own_length', l, power_next height))
                (ap₂ (pair_hash hs) own_hash e
                  ∙ sym (
                      tree_hash-append height own block own_length'
                        (omega (arith, l, power_positive height)) (omega (arith, l)))) in
            rw equal (
              subst (Covers (carry hs (height + 1) (pair_hash hs left node) rest))
                (sym (append_assoc before own block) ∙ ap (λ t. t ++ block) (sym parts)) merged)
      ]

  fold_peaks-Covers :
      (rest : List (ℕ × Bytes)) (leaves block : List Bytes) (acc : Bytes) (h : ℕ)
      → Covers rest leaves
      → Above h rest
      → length block ≤ 2 ^ h
      → 1 ≤ length block
      → acc ≡ tree_hash hs block
      → fold_peaks hs acc rest ≡ tree_hash hs (leaves ++ block)
  unfolding fold_peaks Covers Above
  fold_peaks-Covers [] leaves block acc h covers above l low e =
      e ∙ ap (λ t. tree_hash hs (t ++ block)) (sym covers)
  fold_peaks-Covers ((g, left) ∷ rest) leaves block acc h
        (before, own, parts, own_length, own_hash, higher, covers) above l low e =
      let small : length block ≤ 2 ^ g = omega (arith, l, powers_le h g above) in
      fold_peaks-Covers rest before (own ++ block) (pair_hash hs left acc) (suc g) covers higher
        (omega (arith, length-append own block, pow-succ' 2 g))
        (omega (arith, length-append own block))
        (ap₂ (pair_hash hs) own_hash e ∙ sym (tree_hash-append g own block own_length low small))
      ∙ ap (tree_hash hs) (sym (append_assoc before own block) ∙ ap (λ t. t ++ block) (sym parts))

  -- A tree that holds `leaves`.
  Holds : IncrementalMerkle → List Bytes → Type 0
  Holds tree leaves = Covers tree.peaks leaves × (tree.size ≡ length leaves)

  zero-length : {A : Type 0} (xs : List A) → length xs ≡ 0 → xs ≡ []
  zero-length [] h = refl
  zero-length (x ∷ xs) h = absurd (omega arith)

  root-Holds :
      (tree : IncrementalMerkle) (leaves : List Bytes)
      → Holds tree leaves
      → root hs tree ≡ ok (hex (tree_hash hs leaves))
  unfolding root root_of_peaks Holds Covers
  root-Holds tree leaves (covers, size) = elim (Bool-cases (tree.size == 0)) [
    | inl none_yet ↦
        let empty : leaves ≡ [] = zero-length leaves (ground (arith, size, none_yet)) in
        rw (none_yet, empty) (unfold tree_hash in unfold tree_at in unfold hexdigest in refl)
    | inr some_yet ↦ rw some_yet (of_peaks tree.peaks covers (ground (arith, size, some_yet)))
  ]
    where
      of_peaks :
          (ps : List (ℕ × Bytes))
          → Covers ps leaves
          → 1 ≤ length leaves
          → root_of_peaks hs ps ≡ ok (hex (tree_hash hs leaves))
      of_peaks [] c l = absurd (omega (arith, l, ap length c))
      of_peaks ((h, digest) ∷ rest) (before, own, parts, own_length, own_hash, higher, c) l =
          ap (λ t. ok (hex t))
            (fold_peaks-Covers rest before own digest (suc h) c higher
                (omega (arith, own_length, pow-succ' 2 h))
                (omega (arith, own_length, power_positive h)) own_hash
              ∙ ap (tree_hash hs) (sym parts))

  Above-zero : (ps : List (ℕ × Bytes)) → Above 0 ps
  unfolding Above
  Above-zero [] = tt
  Above-zero ((h, _) ∷ _) = omega arith

  pub leaf_hash-tree_hash : (leaf : Bytes) → leaf_hash hs leaf ≡ tree_hash hs (leaf ∷ [])
  unfolding tree_hash tree_at
  leaf_hash-tree_hash leaf = refl

  regroup :
      (leaves : List Bytes) (leaf : Bytes) (decoded : Result (List Bytes))
      → (decoded >>= λ ys. ok (hex (tree_hash hs ((leaves ++ leaf ∷ []) ++ ys))))
        ≡ (decoded >>= (λ ys. ok (leaf ∷ ys)) >>= λ ys. ok (hex (tree_hash hs (leaves ++ ys))))
  regroup leaves leaf (raise e) = refl
  regroup leaves leaf (ok ys) =
      ap (λ t. ok (hex (tree_hash hs t))) (append_assoc leaves (leaf ∷ []) ys)

  push_all-Holds :
      (xs : List Text) (tree : IncrementalMerkle) (leaves : List Bytes)
      → Holds tree leaves
      → (push_all hs xs tree >>= root hs)
        ≡ (map_result from_hex xs >>= λ ys. ok (hex (tree_hash hs (leaves ++ ys))))
  unfolding push_all map_result push Holds
  push_all-Holds [] tree leaves holds =
      root-Holds tree leaves holds ∙ ap (λ t. ok (hex (tree_hash hs t))) (sym (append-nil leaves))
  push_all-Holds (x ∷ xs) tree leaves (covers, size) = elim (Result-cases (from_hex x)) [
    | inr (e, he) ↦ rw he
    | inl (leaf, he) ↦ rw he (
        push_all-Holds xs (pushed hs x leaf tree) (leaves ++ leaf ∷ []) (
          carry-Covers 0 tree.peaks leaves (leaf ∷ []) (leaf_hash hs leaf) covers
              (Above-zero tree.peaks) refl (leaf_hash-tree_hash leaf),
          omega (arith, size, length-append leaves (leaf ∷ [])),
        )
        ∙ regroup leaves leaf (map_result from_hex xs))
  ]

  -- Pushing the entry hashes of a batch one by one and then taking the root gives the root of the
  -- batch, or the same error where one of them is not hexadecimal.
  pub root-from_hashes :
      (entry_hashes : List Text)
      → (from_hashes hs entry_hashes >>= root hs) ≡ batch_root hs entry_hashes
  unfolding from_hashes batch_root Holds Covers
  root-from_hashes entry_hashes = push_all-Holds entry_hashes empty_tree [] (refl, refl)
