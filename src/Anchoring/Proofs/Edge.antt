-- ===== src/Anchoring/Proofs/Edge.antt =====
-- The loop of `verify_consistency` in src/waxseal/domain/anchoring.py at the right edge of the tree.
use native.Mathlib.Nat.{mul_assoc, add-mul}
use waxseal.Base.{
  drop, Bytes, ◌∙◌, List, ◌^◌, inl, suc, length-take, length, ◌<◌, take, ap, zero, Bool-cases, ap₂,
  sym, ◌-◌, ◌/◌, leb, arith, inr, ◌≡◌, false, ◌*◌, ◌+◌, length-drop, ℕ, ◌++◌, ◌∷◌, ◌≤◌,
}
use waxseal.Anchoring.{split_point, tree_hash}
use waxseal.Anchoring.Proofs.{consistency_at, drop_ones, climb_both}
use waxseal.Anchoring.Proofs.Below.{both_nodes, reading, both_full}
use waxseal.Anchoring.Proofs.Both.{
  consistency_at-right, take-take, consistency_at-left, climb_both-right, climb_both-edge,
  from_first, tree_take,
}
use waxseal.Anchoring.Proofs.Climb.{digit, half_odd, is_odd-false}
use waxseal.Anchoring.Proofs.Full.{pow_add, tree_split}
use waxseal.Anchoring.Proofs.Whole.{exponent_below}
use waxseal.Anchoring.Split.{power_positive, split_point_lem}
use waxseal.Digest.{Hashes}

module _ (hs : Hashes) where
  -- The old leaves end in the left half, which is full.
  edge_left :
      (f h fuel b m : ℕ) (leaves rest : List Bytes)
      → split_point (length leaves) ≡ 2 ^ h
      → 2 ^ h < length leaves
      → length leaves ≤ 2 ^ h * 2
      → length leaves ≤ suc f
      → 1 ≤ m
      → m ≤ 2 ^ h
      → m ≤ fuel
      → reading hs
          (suc f)
          fuel
          m
          (b * 2 ^ suc h + (m - 1))
          (b * 2 ^ suc h + (length leaves - 1))
          leaves
          rest
        ≡ both_nodes hs m b b leaves rest
  edge_left f h fuel b m leaves rest cut cut_below half hf low fits enough =
      let k = 2 ^ h in
      let left = take k leaves in
      let right = drop k leaves in
      let left_length : length left ≡ k = omega (arith, length-take k leaves, cut_below) in
      let r = length leaves - 1 - k in
      let fn : b * 2 ^ suc h + (m - 1) ≡ (b * 2) * k + (m - 1) =
        omega (arith, digit b 0 h (m - 1), add-mul (b * 2) 0 k) in
      let sn : b * 2 ^ suc h + (length leaves - 1) ≡ (b * 2 + 1) * k + r =
        omega (arith, digit b 1 h r, cut_below) in
      ap₂ (λ x y. reading hs (suc f) fuel m x y leaves rest) fn sn
      ∙ ap (from_first hs (drop_ones fuel ((b * 2) * k + (m - 1)) ((b * 2 + 1) * k + r)))
          (consistency_at-left hs f m k leaves rest false cut (omega (arith, fits, cut_below)) fits)
      ∙ both_full hs h f fuel m (b * 2) (b * 2 + 1) r left (tree_hash hs right ∷ rest) left_length
          (omega (arith, left_length, hf, cut_below)) low fits enough (λ _. is_odd-false b)
          (omega arith) (omega (arith, half, cut_below))
      ∙ climb_both-right hs (tree_hash hs (take m left)) (tree_hash hs left) (tree_hash hs right) b
          (b * 2 + 1) rest (omega arith)
      ∙ ap₂ (λ xs sr. climb_both hs (tree_hash hs xs) sr b ((b * 2 + 1) / 2) rest)
          (take-take m k leaves fits)
          (sym (tree_split hs leaves k cut (omega (arith, low, fits, cut_below))))
      ∙ ap (λ x. both_nodes hs m b x leaves rest) (half_odd b)

  -- The old leaves end in the right half, which has been read up to its own edge.
  edge_right :
      (f h fuel b m t : ℕ) (leaves rest : List Bytes)
      → split_point (length leaves) ≡ 2 ^ h
      → 2 ^ h < length leaves
      → length leaves ≤ 2 ^ h * 2
      → 2 ^ h < m
      → m < length leaves
      → reading hs f fuel
          (m - 2 ^ h)
          ((b * 2 + 1) * 2 ^ h + (m - 2 ^ h - 1))
          ((b * 2 + 1) * 2 ^ h + (length (drop (2 ^ h) leaves) - 1))
          (drop (2 ^ h) leaves)
          (tree_hash hs (take (2 ^ h) leaves) ∷ rest)
        ≡ both_nodes hs
            (m - 2 ^ h)
            ((b * 2 + 1) * 2 ^ t)
            ((b * 2 + 1) * 2 ^ t)
            (drop (2 ^ h) leaves)
            (tree_hash hs (take (2 ^ h) leaves) ∷ rest)
      → reading hs
          (suc f)
          fuel
          m
          (b * 2 ^ suc h + (m - 1))
          (b * 2 ^ suc h + (length leaves - 1))
          leaves
          rest
        ≡ both_nodes hs m b b leaves rest
  edge_right f h fuel b m t leaves rest cut cut_below half up below inner =
      let k = 2 ^ h in
      let left = take k leaves in
      let right = drop k leaves in
      let fn : b * 2 ^ suc h + (m - 1) ≡ (b * 2 + 1) * k + (m - k - 1) =
        omega (arith, digit b 1 h (m - k - 1), up) in
      let sn : b * 2 ^ suc h + (length leaves - 1) ≡ (b * 2 + 1) * k + (length right - 1) =
        omega (arith, digit b 1 h (length right - 1), length-drop k leaves, cut_below) in
      ap₂ (λ x y. reading hs (suc f) fuel m x y leaves rest) fn sn
      ∙ ap
          (from_first hs
            (drop_ones fuel ((b * 2 + 1) * k + (m - k - 1)) ((b * 2 + 1) * k + (length right - 1))))
          (consistency_at-right hs f m k leaves rest false cut below up)
      ∙ inner
      ∙ climb_both-edge hs (tree_hash hs (take (m - k) right)) (tree_hash hs right)
          (tree_hash hs left) b t rest
      ∙ ap₂ (λ fr sr. climb_both hs fr sr b b rest)
          (sym (tree_take hs m h leaves up (omega (arith, below, half)) (omega (arith, below))))
          (sym (tree_split hs leaves k cut (omega (arith, up, below, power_positive h))))

  -- A subtree at the right edge that has new leaves: the loop reads the whole of its proof.
  pub both_edge :
      (f H fuel a m : ℕ) (leaves rest : List Bytes)
      → 1 ≤ m
      → m < length leaves
      → length leaves ≤ 2 ^ H
      → length leaves ≤ f
      → m ≤ fuel
      → (t : ℕ) × (from_first hs
            (drop_ones fuel (a * 2 ^ H + (m - 1)) (a * 2 ^ H + (length leaves - 1)))
            (consistency_at hs f m leaves false ++ rest)
          ≡ climb_both hs
              (tree_hash hs (take m leaves))
              (tree_hash hs leaves)
              (a * 2 ^ t)
              (a * 2 ^ t)
              rest)
  both_edge zero H fuel a m leaves rest low below hH hf enough = absurd (omega arith)
  both_edge (suc f) H fuel a m leaves rest low below hH hf enough =
      let n = length leaves in
      let (h, cut, positive, below_n, upper) = split_point_lem n (omega arith) in
      let k = 2 ^ h in
      let cut_below : k < n = omega (arith, cut, below_n) in
      let half : n ≤ k * 2 = omega (arith, cut, upper) in
      let deep = exponent_below hs h H n cut_below hH in
      let t = H - suc h in
      let b = a * 2 ^ t in
      let high : a * 2 ^ H ≡ b * 2 ^ suc h =
        ap (λ (x : ℕ). a * 2 ^ x) (omega (arith, deep))
        ∙ ap (λ (x : ℕ). a * x) (pow_add t (suc h))
        ∙ sym (mul_assoc a (2 ^ t) (2 ^ suc h)) in
      (
        t,
        ap (λ x. reading hs (suc f) fuel m (x + (m - 1)) (x + (n - 1)) leaves rest) high
            ∙ elim (Bool-cases (leb m k)) [
              | inl small ↦
                  edge_left f h fuel b m leaves rest cut cut_below half hf low
                    (ground (arith, small)) enough
              | inr large ↦
                  let up : k < m = ground (arith, large) in
                  let size : length (drop k leaves) ≡ n - k = length-drop k leaves in
                  let (t', inner) =
                    both_edge f h fuel (b * 2 + 1) (m - k) (drop k leaves)
                      (tree_hash hs (take k leaves) ∷ rest) (omega (arith, up))
                      (omega (arith, size, below, up)) (omega (arith, size, half))
                      (omega (arith, size, hf, cut, positive)) (omega (arith, enough)) in
                  edge_right f h fuel b m t' leaves rest cut cut_below half up below inner
            ],
      )
