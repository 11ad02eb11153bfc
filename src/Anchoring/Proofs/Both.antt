-- ===== src/Anchoring/Proofs/Both.antt =====
-- The loop of `verify_consistency` in src/waxseal/domain/anchoring.py, one step at a time, and the
-- steps of the proofs that it reads.
use mathlib.Core.List.{append_assoc}
use waxseal.Base.{
  suc, ◌∷◌, zero, ◌||◌, ◌/◌, ◌∙◌, ◌++◌, false, length-take, length, ◌≡◌, leb, Bytes, sym, Bool, ℕ,
  ◌^◌, ◌<◌, true, [], List, Option, ap₂, ◌≤◌, arith, take, ◌-◌, ◌==◌, refl, drop, ◌*◌, none, ◌+◌,
  ap,
}
use waxseal.Anchoring.{pair_hash, split_point, tree_hash}
use waxseal.Anchoring.Proofs.{is_odd, consistency_at, climb_both}
use waxseal.Anchoring.Proofs.Climb.{
  halve_to_odd_lem, halve_stop, half_odd, half_even, is_odd-true, is_odd-false, odd_large,
  exponent_le, odd_positive,
}
use waxseal.Anchoring.Proofs.Full.{tree_split}
use waxseal.Anchoring.Split.{split_point_unique, power_positive}
use waxseal.Digest.{Hashes}

pub take-take : {A : Type 0} (k m : ℕ) (xs : List A) → k ≤ m → take k (take m xs) ≡ take k xs
take-take zero m xs h = refl
take-take (suc k) zero xs h = absurd (omega arith)
take-take (suc k) (suc m) [] h = refl
take-take (suc k) (suc m) (x ∷ xs) h = ap (λ t. x ∷ t) (take-take k m xs (omega arith))

take-nil : {A : Type 0} (n : ℕ) → take {A = A} n [] ≡ []
take-nil zero = refl
take-nil (suc n) = refl

drop-take : {A : Type 0} (k m : ℕ) (xs : List A) → drop k (take m xs) ≡ take (m - k) (drop k xs)
drop-take zero m xs = let e : m ≡ m - 0 = omega arith in ap (λ n. take n xs) e
drop-take (suc k) zero xs =
    let e : zero ≡ zero - suc k = omega arith in ap (λ n. take n (drop (suc k) xs)) e
drop-take (suc k) (suc m) [] = sym (take-nil (suc m - suc k))
drop-take (suc k) (suc m) (x ∷ xs) =
    let e : m - k ≡ suc m - suc k = omega arith in drop-take k m xs ∙ ap (λ n. take n (drop k xs)) e

pub take_all : {A : Type 0} (m : ℕ) (xs : List A) → length xs ≤ m → take m xs ≡ xs
take_all zero [] h = refl
take_all zero (x ∷ xs) h = absurd (omega arith)
take_all (suc m) [] h = refl
take_all (suc m) (x ∷ xs) h = ap (λ t. x ∷ t) (take_all m xs (omega arith))

module _ (hs : Hashes) where
  -- The sibling on the left of both nodes, on an odd number.
  pub climb_both-left :
      (fr sr sibling : Bytes) (a sn : ℕ) (rest : List Bytes)
      → 1 ≤ sn
      → climb_both hs fr sr (a * 2 + 1) sn (sibling ∷ rest)
        ≡ climb_both hs (pair_hash hs sibling fr) (pair_hash hs sibling sr) a (sn / 2) rest
  unfolding climb_both
  climb_both-left fr sr sibling a sn rest h =
      let nonzero : (sn == 0) ≡ false = ground (arith, h) in
      rw (nonzero, is_odd-true a, halve_stop (a * 2 + 1) a sn, half_odd a)

  -- The sibling on the right of the new node.
  pub climb_both-right :
      (fr sr sibling : Bytes) (a sn : ℕ) (rest : List Bytes)
      → a * 2 < sn
      → climb_both hs fr sr (a * 2) sn (sibling ∷ rest)
        ≡ climb_both hs fr (pair_hash hs sr sibling) a (sn / 2) rest
  unfolding climb_both
  climb_both-right fr sr sibling a sn rest h =
      let nonzero : (sn == 0) ≡ false = ground (arith, h) in
      let inside : (a * 2 == sn) ≡ false = ground (arith, h) in
      rw (nonzero, is_odd-false a, inside, half_even a)

  -- At the right edge the levels without a sibling are skipped.
  pub climb_both-edge :
      (fr sr sibling : Bytes) (b j : ℕ) (rest : List Bytes)
      → climb_both hs fr sr ((b * 2 + 1) * 2 ^ j) ((b * 2 + 1) * 2 ^ j) (sibling ∷ rest)
        ≡ climb_both hs (pair_hash hs sibling fr) (pair_hash hs sibling sr) b b rest
  unfolding climb_both
  climb_both-edge fr sr sibling b j rest =
      let x = (b * 2 + 1) * 2 ^ j in
      let nonzero : (x == 0) ≡ false = ground (arith, odd_positive b j) in
      let same : (is_odd x || x == x) ≡ true = either (is_odd x) in
      let enough : j ≤ x = omega (arith, exponent_le j, odd_large b j) in
      rw (nonzero, same, halve_to_odd_lem x b j enough, half_odd b)
    where
      either : (c : Bool) → (c || ((b * 2 + 1) * 2 ^ j) == ((b * 2 + 1) * 2 ^ j)) ≡ true
      either true = refl
      either false = ground arith

  pub consistency_at-end :
      (f m : ℕ) (leaves : List Bytes)
      → m ≡ length leaves
      → consistency_at hs (suc f) m leaves false ≡ tree_hash hs leaves ∷ []
  unfolding consistency_at
  consistency_at-end f m leaves e =
      let at_end : (m == length leaves) ≡ true = ground (arith, e) in rw at_end

  pub consistency_at-left :
      (f m k : ℕ) (leaves rest : List Bytes) (complete : Bool)
      → split_point (length leaves) ≡ k
      → m < length leaves
      → m ≤ k
      → consistency_at hs (suc f) m leaves complete ++ rest
        ≡ consistency_at hs f m (take k leaves) complete ++ (tree_hash hs (drop k leaves) ∷ rest)
  unfolding consistency_at
  consistency_at-left f m k leaves rest complete e h below =
      let inside : (m == length leaves) ≡ false = ground (arith, h) in
      let at_k : leb m k ≡ true = ground (arith, below) in
      let left : leb m (split_point (length leaves)) ≡ true = ap (leb m) e ∙ at_k in
      rw (inside, left, e)
        (append_assoc (consistency_at hs f m (take k leaves) complete)
          (tree_hash hs (drop k leaves) ∷ []) rest)

  pub consistency_at-right :
      (f m k : ℕ) (leaves rest : List Bytes) (complete : Bool)
      → split_point (length leaves) ≡ k
      → m < length leaves
      → k < m
      → consistency_at hs (suc f) m leaves complete ++ rest
        ≡ consistency_at hs f (m - k) (drop k leaves) false ++ (tree_hash hs (take k leaves) ∷ rest)
  unfolding consistency_at
  consistency_at-right f m k leaves rest complete e h above =
      let inside : (m == length leaves) ≡ false = ground (arith, h) in
      let at_k : leb m k ≡ false = ground (arith, above) in
      let right : leb m (split_point (length leaves)) ≡ false = ap (leb m) e ∙ at_k in
      rw (inside, right, e)
        (append_assoc (consistency_at hs f (m - k) (drop k leaves) false)
          (tree_hash hs (take k leaves) ∷ []) rest)

  -- A part of the leaves that ends in the right half.
  pub tree_take :
      (m h : ℕ) (leaves : List Bytes)
      → 2 ^ h < m
      → m ≤ 2 ^ h * 2
      → m ≤ length leaves
      → tree_hash hs (take m leaves)
        ≡ pair_hash hs
            (tree_hash hs (take (2 ^ h) leaves))
            (tree_hash hs (take (m - 2 ^ h) (drop (2 ^ h) leaves)))
  tree_take m h leaves low high fits =
      let k = 2 ^ h in
      let size : length (take m leaves) ≡ m = omega (arith, length-take m leaves, fits) in
      tree_split hs (take m leaves) k (ap split_point size ∙ split_point_unique m h low high)
        (omega (arith, size, low, power_positive h))
      ∙ ap₂ (λ xs ys. pair_hash hs (tree_hash hs xs) (tree_hash hs ys))
          (take-take k m leaves (omega (arith, low))) (drop-take k m leaves)

  -- The loop from `path[0]` on.
  abbrev pub from_first : ℕ × ℕ → List Bytes → Option (Bytes × Bytes × ℕ)
  from_first (fn, sn) [] = none
  from_first (fn, sn) (first ∷ siblings) = climb_both hs first first fn sn siblings
