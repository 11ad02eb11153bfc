-- ===== src/Anchoring/Proofs/Below.antt =====
-- The loop of `verify_consistency` in src/waxseal/domain/anchoring.py below a full subtree.
use native.Mathlib.Nat.{mul_left_comm, pow-succ', add-mul}
use waxseal.Base.{
  Bytes, length-take, ◌∷◌, Option, ◌==◌, inl, false, ◌-◌, suc, zero, leb, Bool-cases, ◌++◌, take,
  inr, List, ◌∙◌, length, ◌*◌, sym, ◌≤◌, ◌/◌, ◌≡◌, ap₂, length-drop, arith, ap, ◌<◌, drop, ℕ, ◌^◌,
  ◌+◌,
}
use waxseal.Anchoring.{tree_hash, split_point}
use waxseal.Anchoring.Proofs.{climb_both, is_odd, consistency_at, drop_ones}
use waxseal.Anchoring.Proofs.Both.{
  tree_take, take_all, from_first, climb_both-left, take-take, consistency_at-right,
  consistency_at-left, climb_both-right, consistency_at-end,
}
use waxseal.Anchoring.Proofs.Climb.{half_odd, is_odd-false, is_odd-true, exponent_le, digit}
use waxseal.Anchoring.Proofs.Full.{low_digit, tree_split, half_digit}
use waxseal.Anchoring.Split.{split_point_unique, power_positive}
use waxseal.Digest.{Hashes}

-- The last index of a full subtree at an even position loses the subtree's levels, and no more.
drop_ones_full :
    (j fuel a b r : ℕ)
    → j ≤ fuel
    → is_odd a ≡ false
    → r < 2 ^ j
    → drop_ones fuel (a * 2 ^ j + (2 ^ j - 1)) (b * 2 ^ j + r) ≡ (a, b)
unfolding drop_ones
drop_ones_full zero zero a b r h even low = ap₂ (λ x y. (x, y)) (omega arith) (omega (arith, low))
drop_ones_full zero (suc fuel) a b r h even low =
    let first : a * 2 ^ 0 + (2 ^ 0 - 1) ≡ a = omega arith in
    let second : b * 2 ^ 0 + r ≡ b = omega (arith, low) in
    ap₂ (drop_ones (suc fuel)) first second ∙ rw even
drop_ones_full (suc j) zero a b r h even low = absurd (omega arith)
drop_ones_full (suc j) (suc fuel) a b r h even low =
    let x = a * 2 ^ j + (2 ^ j - 1) in
    let first : a * 2 ^ suc j + (2 ^ suc j - 1) ≡ x * 2 + 1 = omega (
      arith,
      ap (λ (t : ℕ). a * t) (pow-succ' 2 j),
      mul_left_comm a 2 (2 ^ j),
      pow-succ' 2 j,
      power_positive j,
    ) in
    let second : (b * 2 ^ suc j + r) / 2 ≡ b * 2 ^ j + r / 2 =
      omega (arith, ap (λ (t : ℕ). b * t) (pow-succ' 2 j), mul_left_comm b 2 (2 ^ j)) in
    ap (λ t. drop_ones (suc fuel) t (b * 2 ^ suc j + r)) first
    ∙ rw (is_odd-true x, half_odd x, second)
        (drop_ones_full j fuel a b (r / 2) (omega arith) even (omega (arith, low, pow-succ' 2 j)))

module _ (hs : Hashes) where
  -- A full subtree that is all old: its hash is the first element.
  both_whole :
      (j f fuel m a b r : ℕ) (leaves rest : List Bytes)
      → length leaves ≡ 2 ^ j
      → m ≡ 2 ^ j
      → m ≤ fuel
      → is_odd a ≡ false
      → r < 2 ^ j
      → from_first hs
          (drop_ones fuel (a * 2 ^ j + (m - 1)) (b * 2 ^ j + r))
          (consistency_at hs (suc f) m leaves false ++ rest)
        ≡ climb_both hs (tree_hash hs (take m leaves)) (tree_hash hs leaves) a b rest
  both_whole j f fuel m a b r leaves rest l all enough even hr =
      let deep : j ≤ fuel = omega (arith, exponent_le j, all, enough) in
      let last : a * 2 ^ j + (m - 1) ≡ a * 2 ^ j + (2 ^ j - 1) = omega (arith, all) in
      ap₂ (λ x path. from_first hs (drop_ones fuel x (b * 2 ^ j + r)) (path ++ rest)) last
        (consistency_at-end hs f m leaves (all ∙ sym l))
      ∙ ap (λ p. from_first hs p (tree_hash hs leaves ∷ rest))
          (drop_ones_full j fuel a b r deep even hr)
      ∙ ap (λ xs. climb_both hs (tree_hash hs xs) (tree_hash hs leaves) a b rest)
          (sym (take_all m leaves (omega (arith, all, l))))

  -- The loop over the proof of a part of a subtree, and what follows it.
  abbrev pub reading : (f fuel m x y : ℕ) → List Bytes → List Bytes → Option (Bytes × Bytes × ℕ)
  reading f fuel m x y leaves rest =
      from_first hs (drop_ones fuel x y) (consistency_at hs f m leaves false ++ rest)

  -- Both nodes of a part and of a whole subtree.
  abbrev pub both_nodes : (m fn sn : ℕ) → List Bytes → List Bytes → Option (Bytes × Bytes × ℕ)
  both_nodes m fn sn leaves rest =
      climb_both hs (tree_hash hs (take m leaves)) (tree_hash hs leaves) fn sn rest

  full_left :
      (j f fuel m a b d q : ℕ) (leaves rest : List Bytes)
      → split_point (length leaves) ≡ 2 ^ j
      → 2 ≤ length leaves
      → d ≤ 1
      → a < b
      → m ≤ 2 ^ j
      → m < length leaves
      → reading f fuel m
          ((a * 2) * 2 ^ j + (m - 1))
          ((b * 2 + d) * 2 ^ j + q)
          (take (2 ^ j) leaves)
          (tree_hash hs (drop (2 ^ j) leaves) ∷ rest)
        ≡ both_nodes m
            (a * 2)
            (b * 2 + d)
            (take (2 ^ j) leaves)
            (tree_hash hs (drop (2 ^ j) leaves) ∷ rest)
      → reading (suc f) fuel m (a * 2 ^ suc j + (m - 1)) ((b * 2 + d) * 2 ^ j + q) leaves rest
        ≡ both_nodes m a b leaves rest
  full_left j f fuel m a b d q leaves rest cut many digit_small ha small inside inner =
      let k = 2 ^ j in
      let left = take k leaves in
      let fn : a * 2 ^ suc j + (m - 1) ≡ (a * 2) * k + (m - 1) =
        omega (arith, digit a 0 j (m - 1), add-mul (a * 2) 0 k) in
      ap (λ x. reading (suc f) fuel m x ((b * 2 + d) * k + q) leaves rest) fn
      ∙ ap (from_first hs (drop_ones fuel ((a * 2) * k + (m - 1)) ((b * 2 + d) * k + q)))
          (consistency_at-left hs f m k leaves rest false cut inside small)
      ∙ inner
      ∙ climb_both-right hs (tree_hash hs (take m left)) (tree_hash hs left)
          (tree_hash hs (drop k leaves)) a (b * 2 + d) rest (omega (arith, ha))
      ∙ ap₂ (λ xs sr. climb_both hs (tree_hash hs xs) sr a ((b * 2 + d) / 2) rest)
          (take-take m k leaves small) (sym (tree_split hs leaves k cut many))
      ∙ ap (λ n. both_nodes m a n leaves rest) (half_digit b d digit_small)

  full_right :
      (j f fuel m a b d q : ℕ) (leaves rest : List Bytes)
      → split_point (length leaves) ≡ 2 ^ j
      → 2 ≤ length leaves
      → d ≤ 1
      → a < b
      → 2 ^ j < m
      → m ≤ 2 ^ j * 2
      → m < length leaves
      → reading f fuel
          (m - 2 ^ j)
          ((a * 2 + 1) * 2 ^ j + (m - 2 ^ j - 1))
          ((b * 2 + d) * 2 ^ j + q)
          (drop (2 ^ j) leaves)
          (tree_hash hs (take (2 ^ j) leaves) ∷ rest)
        ≡ both_nodes
            (m - 2 ^ j)
            (a * 2 + 1)
            (b * 2 + d)
            (drop (2 ^ j) leaves)
            (tree_hash hs (take (2 ^ j) leaves) ∷ rest)
      → reading (suc f) fuel m (a * 2 ^ suc j + (m - 1)) ((b * 2 + d) * 2 ^ j + q) leaves rest
        ≡ both_nodes m a b leaves rest
  full_right j f fuel m a b d q leaves rest cut many digit_small ha large high inside inner =
      let k = 2 ^ j in
      let right = drop k leaves in
      let fn : a * 2 ^ suc j + (m - 1) ≡ (a * 2 + 1) * k + (m - k - 1) =
        omega (arith, digit a 1 j (m - k - 1), large) in
      ap (λ x. reading (suc f) fuel m x ((b * 2 + d) * k + q) leaves rest) fn
      ∙ ap (from_first hs (drop_ones fuel ((a * 2 + 1) * k + (m - k - 1)) ((b * 2 + d) * k + q)))
          (consistency_at-right hs f m k leaves rest false cut inside large)
      ∙ inner
      ∙ climb_both-left hs (tree_hash hs (take (m - k) right)) (tree_hash hs right)
          (tree_hash hs (take k leaves)) a (b * 2 + d) rest (omega (arith, ha))
      ∙ ap₂ (λ fr sr. climb_both hs fr sr a ((b * 2 + d) / 2) rest)
          (sym (tree_take hs m j leaves large high (omega (arith, inside))))
          (sym (tree_split hs leaves k cut many))
      ∙ ap (λ n. both_nodes m a n leaves rest) (half_digit b d digit_small)

  -- Below a full subtree on the left of the right edge the loop reads its part of the proof.
  pub both_full :
      (j f fuel m a b r : ℕ) (leaves rest : List Bytes)
      → length leaves ≡ 2 ^ j
      → length leaves ≤ f
      → 1 ≤ m
      → m ≤ 2 ^ j
      → m ≤ fuel
      → (m ≡ 2 ^ j → is_odd a ≡ false)
      → a < b
      → r < 2 ^ j
      → reading f fuel m (a * 2 ^ j + (m - 1)) (b * 2 ^ j + r) leaves rest
        ≡ both_nodes m a b leaves rest
  both_full j zero fuel m a b r leaves rest l hf low high enough even ha hr =
      absurd (omega (arith, l, power_positive j))
  both_full zero (suc f) fuel m a b r leaves rest l hf low high enough even ha hr =
      let all : m ≡ 2 ^ 0 = omega (arith, low, high) in
      both_whole 0 f fuel m a b r leaves rest l all enough (even all) hr
  both_full (suc j) (suc f) fuel m a b r leaves rest l hf low high enough even ha hr =
      let k = 2 ^ j in
      let size : length leaves ≡ k * 2 = omega (arith, l, pow-succ' 2 j) in
      let positive = power_positive j in
      let cut : split_point (length leaves) ≡ k =
        split_point_unique (length leaves) j (omega (arith, size, positive))
          (omega (arith, size)) in
      let many : 2 ≤ length leaves = omega (arith, size, positive) in
      let left_length : length (take k leaves) ≡ k = omega (arith, length-take k leaves, size) in
      let right_length : length (drop k leaves) ≡ k = omega (arith, length-drop k leaves, size) in
      let shorter : k ≤ f = omega (arith, hf, size, positive) in
      let (d, q, parts, digit_small, q_small) = low_digit j r hr in
      let sn : b * 2 ^ suc j + r ≡ (b * 2 + d) * k + q =
        ap (λ t. b * 2 ^ suc j + t) parts ∙ sym (digit b d j q) in
      let start = ap (λ y. reading (suc f) fuel m (a * 2 ^ suc j + (m - 1)) y leaves rest) sn in
      elim (Bool-cases (m == length leaves)) [
        | inl all ↦
            let e : m ≡ 2 ^ suc j = ground (arith, all, l) in
            both_whole (suc j) f fuel m a b r leaves rest l e enough (even e) hr
        | inr part ↦
            let inside : m < length leaves = ground (arith, part, high, l) in
            start ∙ elim (Bool-cases (leb m k)) [
              | inl below ↦
                  let small : m ≤ k = ground (arith, below) in
                  full_left j f fuel m a b d q leaves rest cut many digit_small ha small inside (
                    both_full j f fuel m (a * 2) (b * 2 + d) q (take k leaves)
                      (tree_hash hs (drop k leaves) ∷ rest) left_length
                      (omega (arith, left_length, shorter)) low small enough (λ _. is_odd-false a)
                      (omega (arith, ha)) q_small)
              | inr above ↦
                  let large : k < m = ground (arith, above) in
                  full_right j f fuel m a b d q leaves rest cut many digit_small ha large
                    (omega (arith, inside, size)) inside
                    (both_full j f fuel (m - k) (a * 2 + 1) (b * 2 + d) q (drop k leaves)
                      (tree_hash hs (take k leaves) ∷ rest) right_length
                      (omega (arith, right_length, shorter)) (omega (arith, large))
                      (omega (arith, inside, size)) (omega (arith, enough))
                      (λ full. absurd (omega (arith, full, inside, size, large)))
                      (omega (arith, ha)) q_small)
            ]
      ]
