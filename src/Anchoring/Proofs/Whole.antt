-- ===== src/Anchoring/Proofs/Whole.antt =====
-- The loop of `verify_membership` in src/waxseal/domain/anchoring.py on the proof of a leaf of a whole
-- tree.
use mathlib.Core.List.{append-nil}
use native.Mathlib.Nat.{mul_assoc, add-mul}
use waxseal.Base.{
  ◌∷◌, suc, length, ap₂, sym, Bool-cases, inl, inr, ◌≡◌, zero, [], some_inj, get_elem?, ◌-◌, ltb,
  ltb→lt, ◌<◌, ℕ, ◌++◌, some, take, length-drop, List, length-take, arith, ◌+◌, ◌*◌, ◌^◌, ap, ◌∙◌,
  Bytes, drop, ◌≤◌,
}
use waxseal.Anchoring.{leaf_hash, tree_hash, split_point}
use waxseal.Anchoring.Peaks.{leaf_hash-tree_hash}
use waxseal.Anchoring.Proofs.{audit_path, climb, audit_at}
use waxseal.Anchoring.Proofs.Climb.{half_odd, climb-right, exponent_le, climb-edge, digit}
use waxseal.Anchoring.Proofs.Full.{
  tree_split, audit_at-one, get_elem?-drop, audit_at-left, get_elem?-take, audit_at-right, pow_add,
  climb_full,
}
use waxseal.Anchoring.Split.{power_positive, split_point_lem, powers_le}
use waxseal.Digest.{Hashes}

module _ (hs : Hashes) where
  -- The exponent of a split is below the one that bounds the size.
  pub exponent_below : (h H n : ℕ) → 2 ^ h < n → n ≤ 2 ^ H → suc h ≤ H
  exponent_below h H n low high = elim (Bool-cases (ltb h H)) [
    | inl below ↦ ltb→lt h H below
    | inr not_below ↦ absurd (omega (arith, low, high, powers_le H h (ground (arith, not_below))))
  ]

  -- The cut of a subtree at its split point.
  Cut : ℕ → List Bytes → Type 0
  Cut h leaves =
      (split_point (length leaves) ≡ 2 ^ h) × (2 ^ h < length leaves) × (length leaves ≤ 2 ^ h * 2)

  climb_node_left :
      (f h b m : ℕ) (leaves : List Bytes) (leaf : Bytes) (rest : List Bytes)
      → Cut h leaves
      → length leaves ≤ suc f
      → m < 2 ^ h
      → get_elem? leaves m ≡ some leaf
      → climb hs
          (leaf_hash hs leaf)
          (b * 2 ^ suc h + m)
          (b * 2 ^ suc h + (length leaves - 1))
          (audit_at hs (suc f) m leaves ++ rest)
        ≡ climb hs (tree_hash hs leaves) b b rest
  unfolding Cut
  climb_node_left f h b m leaves leaf rest (cut, below_n, half) hf small e =
      let k = 2 ^ h in
      let positive = power_positive h in
      let many : 2 ≤ length leaves = omega (arith, below_n, positive) in
      let left = take k leaves in
      let sibling = tree_hash hs (drop k leaves) in
      let left_length : length left ≡ k = omega (arith, length-take k leaves, below_n) in
      let r = length leaves - 1 - k in
      let fn : b * 2 ^ suc h + m ≡ (b * 2) * k + m =
        omega (arith, digit b 0 h m, add-mul (b * 2) 0 k) in
      let sn : b * 2 ^ suc h + (length leaves - 1) ≡ (b * 2 + 1) * k + r =
        omega (arith, digit b 1 h r, below_n) in
      ap₂ (λ x y. climb hs (leaf_hash hs leaf) x y (audit_at hs (suc f) m leaves ++ rest)) fn sn
      ∙ ap (climb hs (leaf_hash hs leaf) ((b * 2) * k + m) ((b * 2 + 1) * k + r))
          (audit_at-left hs f m k leaves rest cut many small)
      ∙ climb_full hs h f m (b * 2) (b * 2 + 1) r left leaf (sibling ∷ rest) left_length
          (omega (arith, left_length, hf, below_n)) small (omega arith)
          (omega (arith, half, below_n)) (get_elem?-take k m leaves small ∙ e)
      ∙ climb-right hs (tree_hash hs left) sibling b (b * 2 + 1) rest (omega arith)
      ∙ ap₂ (λ node sn. climb hs node b sn rest) (sym (tree_split hs leaves k cut many))
          (half_odd b)

  climb_node_right :
      (f h b m t : ℕ) (leaves : List Bytes) (leaf : Bytes) (rest : List Bytes)
      → Cut h leaves
      → 2 ^ h ≤ m
      → climb hs
          (leaf_hash hs leaf)
          ((b * 2 + 1) * 2 ^ h + (m - 2 ^ h))
          ((b * 2 + 1) * 2 ^ h + (length (drop (2 ^ h) leaves) - 1))
          (audit_at hs f (m - 2 ^ h) (drop (2 ^ h) leaves)
            ++ (tree_hash hs (take (2 ^ h) leaves) ∷ rest))
        ≡ climb hs
            (tree_hash hs (drop (2 ^ h) leaves))
            ((b * 2 + 1) * 2 ^ t)
            ((b * 2 + 1) * 2 ^ t)
            (tree_hash hs (take (2 ^ h) leaves) ∷ rest)
      → climb hs
          (leaf_hash hs leaf)
          (b * 2 ^ suc h + m)
          (b * 2 ^ suc h + (length leaves - 1))
          (audit_at hs (suc f) m leaves ++ rest)
        ≡ climb hs (tree_hash hs leaves) b b rest
  unfolding Cut
  climb_node_right f h b m t leaves leaf rest (cut, below_n, half) up inner =
      let k = 2 ^ h in
      let many : 2 ≤ length leaves = omega (arith, below_n, power_positive h) in
      let right = drop k leaves in
      let sibling = tree_hash hs (take k leaves) in
      let fn : b * 2 ^ suc h + m ≡ (b * 2 + 1) * k + (m - k) =
        omega (arith, digit b 1 h (m - k), up) in
      let sn : b * 2 ^ suc h + (length leaves - 1) ≡ (b * 2 + 1) * k + (length right - 1) =
        omega (arith, digit b 1 h (length right - 1), below_n, length-drop k leaves) in
      ap₂ (λ x y. climb hs (leaf_hash hs leaf) x y (audit_at hs (suc f) m leaves ++ rest)) fn sn
      ∙ ap
          (climb hs (leaf_hash hs leaf) ((b * 2 + 1) * k + (m - k))
            ((b * 2 + 1) * k + (length right - 1)))
          (audit_at-right hs f m k leaves rest cut many up)
      ∙ inner
      ∙ climb-edge hs (tree_hash hs right) sibling b t rest
      ∙ ap (λ node. climb hs node b b rest) (sym (tree_split hs leaves k cut many))

  -- A subtree that starts at a multiple of a power of two, no larger than that power: the loop
  -- reads the path of a leaf and ends at the right edge, on a number that keeps the high digits.
  climb_tree :
      (f H a m : ℕ) (leaves : List Bytes) (leaf : Bytes) (rest : List Bytes)
      → m < length leaves
      → length leaves ≤ 2 ^ H
      → length leaves ≤ f
      → get_elem? leaves m ≡ some leaf
      → (t : ℕ) × (climb hs
            (leaf_hash hs leaf)
            (a * 2 ^ H + m)
            (a * 2 ^ H + (length leaves - 1))
            (audit_at hs f m leaves ++ rest)
          ≡ climb hs (tree_hash hs leaves) (a * 2 ^ t) (a * 2 ^ t) rest)
  climb_tree f H a m [] leaf rest hm hH hf e = absurd (omega arith)
  climb_tree zero H a m (x ∷ leaves) leaf rest hm hH hf e = absurd (omega arith)
  climb_tree (suc f) H a zero (x ∷ []) leaf rest hm hH hf e = (
    H,
    let same : a * 2 ^ H + 0 ≡ a * 2 ^ H = omega arith in
        ap₂ (λ fn sn. climb hs (leaf_hash hs leaf) fn sn (audit_at hs (suc f) 0 (x ∷ []) ++ rest))
          same same
        ∙ ap₂ (λ node path. climb hs node (a * 2 ^ H) (a * 2 ^ H) (path ++ rest))
            (ap (leaf_hash hs) (sym (some_inj e)) ∙ leaf_hash-tree_hash hs x)
            (audit_at-one hs (suc f) 0 x),
  )
  climb_tree (suc f) H a (suc m) (x ∷ []) leaf rest hm hH hf e = absurd (omega arith)
  climb_tree (suc f) H a m (x ∷ y ∷ more) leaf rest hm hH hf e =
      let leaves = x ∷ y ∷ more in
      let (h, cut, positive, below_n, half) = split_point_lem (length leaves) (omega arith) in
      let k = 2 ^ h in
      let deep = exponent_below h H (length leaves) (omega (arith, cut, below_n)) hH in
      let t = H - suc h in
      let b = a * 2 ^ t in
      let high : a * 2 ^ H ≡ b * 2 ^ suc h =
        ap (λ (x : ℕ). a * 2 ^ x) (omega (arith, deep))
        ∙ ap (λ (x : ℕ). a * x) (pow_add t (suc h))
        ∙ sym (mul_assoc a (2 ^ t) (2 ^ suc h)) in
      let node : Cut h leaves =
        unfold Cut in (cut, omega (arith, cut, below_n), omega (arith, cut, half)) in
      let start = λ (path : List Bytes).
        ap₂ (λ x y. climb hs (leaf_hash hs leaf) x y path) (ap (λ (x : ℕ). x + m) high)
          (ap (λ (x : ℕ). x + (length leaves - 1)) high) in
      (
        t,
        start _ ∙ elim (Bool-cases (ltb m k)) [
          | inl below ↦ climb_node_left f h b m leaves leaf rest node hf (ltb→lt m k below) e
          | inr not_below ↦
              let up : k ≤ m = ground (arith, not_below) in
              let at_m : k + (m - k) ≡ m = omega (arith, up) in
              let (t', inner) =
                climb_tree f h (b * 2 + 1) (m - k) (drop k leaves) leaf
                  (tree_hash hs (take k leaves) ∷ rest)
                  (omega (arith, length-drop k leaves, hm, up, cut, below_n))
                  (omega (arith, length-drop k leaves, cut, half))
                  (omega (arith, length-drop k leaves, hf, cut, positive))
                  (get_elem?-drop k (m - k) leaves ∙ ap (get_elem? leaves) at_m ∙ e) in
              climb_node_right f h b m t' leaves leaf rest node up inner
        ],
      )

  -- The path of a leaf of a whole batch leads the loop to the root, with nothing left.
  pub climb-audit_path :
      (m : ℕ) (leaves : List Bytes) (leaf : Bytes)
      → m < length leaves
      → get_elem? leaves m ≡ some leaf
      → climb hs (leaf_hash hs leaf) m (length leaves - 1) (audit_path hs m leaves)
        ≡ some (tree_hash hs leaves, 0)
  unfolding audit_path
  climb-audit_path m leaves leaf hm e =
      let n = length leaves in
      let (t, run) = climb_tree n n 0 m leaves leaf [] hm (exponent_le n) (omega arith) e in
      let start : climb hs (leaf_hash hs leaf) m (n - 1) (audit_at hs n m leaves)
          ≡ climb hs (leaf_hash hs leaf) (0 * 2 ^ n + m) (0 * 2 ^ n + (n - 1))
              (audit_at hs n m leaves ++ []) =
        ap₂ (λ x y. climb hs (leaf_hash hs leaf) x y (audit_at hs n m leaves)) (omega arith)
          (omega arith)
        ∙ ap (climb hs (leaf_hash hs leaf) (0 * 2 ^ n + m) (0 * 2 ^ n + (n - 1)))
            (sym (append-nil (audit_at hs n m leaves))) in
      start ∙ run ∙ (unfold climb in ap (λ (z : ℕ). some (tree_hash hs leaves, z)) (omega arith))
