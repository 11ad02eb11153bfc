-- ===== src/Anchoring/Proofs/Paths.antt =====
-- The two forms of a consistency proof in src/waxseal/domain/anchoring.py: with the old root and
-- without it.

use Prim.Native.Nat.{bit_and}
use waxseal.Base.{
  arith, ◌-◌, ◌∙◌, ap, ◌≢◌, if◌then◌else◌, All, ◌<◌, leb, suc, length-take, Bool, sym, ◌==◌, ◌^◌,
  [], length, refl, ltb→lt, false, ==_iff, ◌≡◌, ◌∷◌, List, ◌≤◌, ltb, ◌++◌, zero, All-append, take,
  true, inr, Bytes, inl, drop, ℕ, ◌*◌, Bool-cases,
}
use waxseal.Anchoring.{split_point, tree_hash}
use waxseal.Anchoring.PowerTest.{power_of_and, and_of_power}
use waxseal.Anchoring.Proofs.{
  check_consistency, consistency_at, check_path, reaches_both, drop_ones,
}
use waxseal.Anchoring.Proofs.Both.{take-take, take_all, from_first}
use waxseal.Anchoring.Split.{split_point_lem, powers_apart, power_positive, powers_le}
use waxseal.Digest.{Hashes}

module _ (hs : Hashes) where
  -- For a power of two the verifier itself puts the old root before the path.
  consistency_at-power :
      (f j m : ℕ) (leaves : List Bytes)
      → m ≡ 2 ^ j
      → m ≤ length leaves
      → length leaves ≤ f
      → consistency_at hs f m leaves false
        ≡ tree_hash hs (take m leaves) ∷ consistency_at hs f m leaves true
  unfolding consistency_at
  consistency_at-power zero j m leaves power h hf = absurd (omega (arith, power_positive j))
  consistency_at-power (suc f) j m leaves power h hf = elim (Bool-cases (m == length leaves)) [
    | inl all ↦
        rw all (ap (λ xs. tree_hash hs xs ∷ []) (sym (take_all m leaves (ground (arith, all)))))
    | inr part ↦
        let inside : m < length leaves = ground (arith, part, h) in
        let (i, cut, positive, below, half) =
          split_point_lem (length leaves) (omega (arith, inside, power, power_positive j)) in
        let k = split_point (length leaves) in
        let fits : m ≤ k = power_fits i j (length leaves) cut half inside power in
        let left : leb m k ≡ true = ground (arith, fits) in
        rw (part, left)
          (ap (λ p. p ++ tree_hash hs (drop k leaves) ∷ [])
            (consistency_at-power f j m (take k leaves) power
                (omega (arith, length-take k leaves, fits, below))
                (omega (arith, length-take k leaves, hf, below))
              ∙ ap (λ xs. tree_hash hs xs ∷ consistency_at hs f m (take k leaves) true)
                  (take-take m k leaves fits)))
  ]
    where
      power_fits :
          (i j n : ℕ)
          → split_point n ≡ 2 ^ i
          → n ≤ split_point n * 2
          → m < n
          → m ≡ 2 ^ j
          → m ≤ split_point n
      power_fits i j n cut half inside power = elim (Bool-cases (ltb i j)) [
        | inl above ↦
            absurd (omega (arith, cut, half, inside, power, powers_apart i j (ltb→lt i j above)))
        | inr up ↦ omega (arith, cut, power, powers_le j i (ground (arith, up)))
      ]

  -- For any other number the path is whole.
  consistency_at-whole :
      (f m : ℕ) (leaves : List Bytes)
      → ((j : ℕ) → m ≢ 2 ^ j)
      → 1 ≤ m
      → m < length leaves
      → length leaves ≤ f
      → consistency_at hs f m leaves false ≡ consistency_at hs f m leaves true
  unfolding consistency_at
  consistency_at-whole zero m leaves other low h hf = absurd (omega arith)
  consistency_at-whole (suc f) m leaves other low h hf =
      let k = split_point (length leaves) in
      let part : (m == length leaves) ≡ false = ground (arith, h) in
      elim (Bool-cases (leb m k)) [
        | inr right ↦ rw (part, right)
        | inl left ↦
            let (i, cut, positive, below, half) =
              split_point_lem (length leaves) (omega (arith, h, low)) in
            let apart : m ≢ k = λ e. other i (e ∙ cut) in
            let fits : m < k = ground (arith, left, apart) in
            rw (part, left)
              (ap (λ p. p ++ tree_hash hs (drop k leaves) ∷ [])
                (consistency_at-whole f m (take k leaves) other low
                  (omega (arith, length-take k leaves, fits, below))
                  (omega (arith, length-take k leaves, hf, below))))
      ]

  -- What holds of every tree's hash holds of a proof's elements.
  pub consistency_at-All :
      (P : Bytes → Type 0) (f m : ℕ) (leaves : List Bytes) (complete : Bool)
      → ((xs : List Bytes) → P (tree_hash hs xs))
      → All P (consistency_at hs f m leaves complete)
  unfolding consistency_at
  consistency_at-All P zero m leaves true h = tt
  consistency_at-All P zero m leaves false h = (h leaves, tt)
  consistency_at-All P (suc f) m leaves complete h =
      let k = split_point (length leaves) in
      elim (Bool-cases (m == length leaves)) [
        | inl all ↦ rw all (at_end complete)
        | inr part ↦ elim (Bool-cases (leb m k)) [
          | inl left ↦
              rw (part, left)
                (All-append P _ _ (consistency_at-All P f m (take k leaves) complete h) (h _, tt))
          | inr right ↦
              rw (part, right)
                (All-append P _ _ (consistency_at-All P f (m - k) (drop k leaves) false h)
                  (h _, tt))
        ]
      ]
    where
      at_end : (c : Bool) → All P (if c then [] else tree_hash hs leaves ∷ [])
      at_end true = tt
      at_end false = (h leaves, tt)

  -- A proof for fewer leaves than there are is not empty.
  consistency_at-cons :
      (f m : ℕ) (leaves : List Bytes)
      → m < length leaves
      → length leaves ≤ f
      → (p : Bytes) × (ps : List Bytes) × (consistency_at hs f m leaves true ≡ p ∷ ps)
  unfolding consistency_at
  consistency_at-cons zero m leaves h hf = absurd (omega arith)
  consistency_at-cons (suc f) m leaves h hf =
      let k = split_point (length leaves) in
      let part : (m == length leaves) ≡ false = ground (arith, h) in
      elim (Bool-cases (leb m k)) [
        | inl left ↦
            let (p, ps, e) =
              ends (consistency_at hs f m (take k leaves) true) (tree_hash hs (drop k leaves)) in
            (p, ps, rw (part, left) e)
        | inr right ↦
            let (p, ps, e) =
              ends (consistency_at hs f (m - k) (drop k leaves) false)
                (tree_hash hs (take k leaves)) in
            (p, ps, rw (part, right) e)
      ]
    where
      ends :
          (xs : List Bytes) (y : Bytes) → (p : Bytes) × (ps : List Bytes) × (xs ++ y ∷ [] ≡ p ∷ ps)
      ends [] y = (y, [], refl)
      ends (x ∷ xs) y = (x, xs ++ y ∷ [], refl)

  pub check_path-from_first :
      (m n : ℕ) (old new : Bytes) (path : List Bytes)
      → check_path hs m n old new path
        ≡ reaches_both (from_first hs (drop_ones m (m - 1) (n - 1)) path) old new
  unfolding check_path reaches_both
  check_path-from_first m n old new [] = refl
  check_path-from_first m n old new (p ∷ ps) = refl

  -- The verifier's path is the proof that does not know the old root.
  pub check_consistency-path :
      (m : ℕ) (leaves : List Bytes) (new : Bytes)
      → 1 ≤ m
      → m < length leaves
      → check_consistency hs m
          (length leaves)
          (tree_hash hs (take m leaves))
          new
          (consistency_at hs (length leaves) m leaves true)
        ≡ check_path hs m
            (length leaves)
            (tree_hash hs (take m leaves))
            new
            (consistency_at hs (length leaves) m leaves false)
  unfolding check_consistency
  check_consistency-path m leaves new low h =
      let n = length leaves in
      let old = tree_hash hs (take m leaves) in
      let (p, ps, e) = consistency_at-cons n m leaves h (omega arith) in
      let differ : (m == n) ≡ false = ground (arith, h) in
      elim (Bool-cases (bit_and m (m - 1) == 0)) [
        | inl power ↦
            let (j, is_power) = power_of_and m low ((==_iff (bit_and m (m - 1)) 0).0 power) in
            rw (e, differ, power)
              (ap (λ q. check_path hs m n old new (old ∷ q)) (sym e)
                ∙ ap (check_path hs m n old new) (
                    sym (
                      consistency_at-power n j m leaves is_power (omega (arith, h)) (omega arith))))
        | inr other ↦
            let no_power : (j : ℕ) → m ≢ 2 ^ j = λ j e'. cc (
              sym other
              ∙ (==_iff (bit_and m (m - 1)) 0).1
                  (ap (λ x. bit_and x (x - 1)) e' ∙ and_of_power j)) in
            rw (e, differ, other)
              (ap (check_path hs m n old new)
                (sym e ∙ sym (consistency_at-whole n m leaves no_power low h (omega arith))))
      ]
