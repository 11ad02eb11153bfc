-- ===== src/Anchoring/Proofs/Full.antt =====
-- The loop of `verify_membership` in src/waxseal/domain/anchoring.py below a full subtree.

use mathlib.Core.List.{append_assoc}
use native.Mathlib.Nat.{mul_assoc, add-mul, pow-succ'}
use waxseal.Base.{
  arith, some_inj, ◌*◌, take, ◌∙◌, some, ◌≤◌, inl, inr, ◌/◌, ◌≡◌, ◌+◌, ℕ, ap₂, ltb→lt, ◌-◌, ◌==◌,
  ltb, length, ap, ◌∷◌, sym, true, drop, get_elem?, refl, List, ◌^◌, false, Bool-cases, Bytes, suc,
  ◌<◌, length-drop, zero, ◌++◌, [], length-take, lt→ltb,
}
use waxseal.Anchoring.{tree_hash, split_point, leaf_hash, pair_hash}
use waxseal.Anchoring.Peaks.{leaf_hash-tree_hash}
use waxseal.Anchoring.Proofs.{audit_at, climb}
use waxseal.Anchoring.Proofs.Climb.{digit, climb-left, climb-right}
use waxseal.Anchoring.Split.{power_positive, split_point_unique}
use waxseal.Anchoring.Tree.{tree_hash_lem}
use waxseal.Digest.{Hashes}

pub get_elem?-take :
    {A : Type 0} (k m : ℕ) (xs : List A) → m < k → get_elem? (take k xs) m ≡ get_elem? xs m
get_elem?-take zero m xs h = absurd (omega arith)
get_elem?-take (suc k) m [] h = refl
get_elem?-take (suc k) zero (x ∷ xs) h = refl
get_elem?-take (suc k) (suc m) (x ∷ xs) h = get_elem?-take k m xs (omega arith)

pub get_elem?-drop :
    {A : Type 0} (k m : ℕ) (xs : List A) → get_elem? (drop k xs) m ≡ get_elem? xs (k + m)
get_elem?-drop zero m xs = ap (get_elem? xs) (omega arith)
get_elem?-drop (suc k) m [] = refl
get_elem?-drop (suc k) m (x ∷ xs) =
    let e : suc (k + m) ≡ suc k + m = omega arith in
    get_elem?-drop k m xs ∙ ap (get_elem? (x ∷ xs)) e

pub pow_add : (t s : ℕ) → 2 ^ (t + s) ≡ 2 ^ t * 2 ^ s
pow_add zero s = let e : 0 + s ≡ s = omega arith in ap (λ (x : ℕ). 2 ^ x) e ∙ omega arith
pow_add (suc t) s =
    let e : suc t + s ≡ suc (t + s) = omega arith in
    ap (λ (x : ℕ). 2 ^ x) e
    ∙ omega (
      arith,
      pow-succ' 2 (t + s),
      pow-succ' 2 t,
      pow_add t s,
      mul_assoc 2 (2 ^ t) (2 ^ s),
      ap (λ (x : ℕ). x * 2 ^ s) (pow-succ' 2 t),
    )

-- The digit of `r` at `2 ^ j`, and what is below it.
pub low_digit :
    (j r : ℕ) → r < 2 ^ suc j → (d : ℕ) × (q : ℕ) × (r ≡ d * 2 ^ j + q) × (d ≤ 1) × (q < 2 ^ j)
low_digit j r h = elim (Bool-cases (ltb r (2 ^ j))) [
  | inl low ↦ (0, r, omega arith, omega arith, ltb→lt r (2 ^ j) low)
  | inr high ↦
      let up : 2 ^ j ≤ r = ground (arith, high) in
      (1, r - 2 ^ j, omega arith, omega arith, omega (arith, pow-succ' 2 j))
]

pub half_digit : (b d : ℕ) → d ≤ 1 → (b * 2 + d) / 2 ≡ b
half_digit b d h = omega arith

module _ (hs : Hashes) where
  pub tree_split :
      (leaves : List Bytes) (k : ℕ)
      → split_point (length leaves) ≡ k
      → 2 ≤ length leaves
      → tree_hash hs leaves
        ≡ pair_hash hs (tree_hash hs (take k leaves)) (tree_hash hs (drop k leaves))
  tree_split leaves k e h =
      tree_hash_lem hs leaves h
      ∙ ap (λ k. pair_hash hs (tree_hash hs (take k leaves)) (tree_hash hs (drop k leaves))) e

  pub audit_at-left :
      (f m k : ℕ) (leaves rest : List Bytes)
      → split_point (length leaves) ≡ k
      → 2 ≤ length leaves
      → m < k
      → audit_at hs (suc f) m leaves ++ rest
        ≡ audit_at hs f m (take k leaves) ++ (tree_hash hs (drop k leaves) ∷ rest)
  unfolding audit_at
  audit_at-left f m k leaves rest e h below =
      let many : (length leaves == 1) ≡ false = ground (arith, h) in
      let left : ltb m (split_point (length leaves)) ≡ true =
        lt→ltb m _ (omega (arith, e, below)) in
      rw (many, left, e)
        (append_assoc (audit_at hs f m (take k leaves)) (tree_hash hs (drop k leaves) ∷ []) rest)

  pub audit_at-right :
      (f m k : ℕ) (leaves rest : List Bytes)
      → split_point (length leaves) ≡ k
      → 2 ≤ length leaves
      → k ≤ m
      → audit_at hs (suc f) m leaves ++ rest
        ≡ audit_at hs f (m - k) (drop k leaves) ++ (tree_hash hs (take k leaves) ∷ rest)
  unfolding audit_at
  audit_at-right f m k leaves rest e h above =
      let many : (length leaves == 1) ≡ false = ground (arith, h) in
      let at_k : ltb m k ≡ false = ground (arith, above) in
      let right : ltb m (split_point (length leaves)) ≡ false = ap (ltb m) e ∙ at_k in
      rw (many, right, e)
        (append_assoc (audit_at hs f (m - k) (drop k leaves)) (tree_hash hs (take k leaves) ∷ [])
          rest)

  pub audit_at-one : (f m : ℕ) (x : Bytes) → audit_at hs f m (x ∷ []) ≡ []
  unfolding audit_at
  audit_at-one zero m x = refl
  audit_at-one (suc f) m x = refl

  -- Below a full subtree the loop reads one sibling for each level.
  pub climb_full :
      (j f m a b r : ℕ) (leaves : List Bytes) (leaf : Bytes) (rest : List Bytes)
      → length leaves ≡ 2 ^ j
      → length leaves ≤ f
      → m < 2 ^ j
      → a < b
      → r < 2 ^ j
      → get_elem? leaves m ≡ some leaf
      → climb hs
          (leaf_hash hs leaf)
          (a * 2 ^ j + m)
          (b * 2 ^ j + r)
          (audit_at hs f m leaves ++ rest)
        ≡ climb hs (tree_hash hs leaves) a b rest
  climb_full zero f m a b r [] leaf rest l hf hm ha hr e = absurd (omega arith)
  climb_full zero f m a b r (x ∷ y ∷ leaves) leaf rest l hf hm ha hr e = absurd (omega arith)
  climb_full zero f zero a b r (x ∷ []) leaf rest l hf hm ha hr e =
      let first : a * 2 ^ 0 + 0 ≡ a = omega arith in
      let second : b * 2 ^ 0 + r ≡ b = omega (arith, hr) in
      ap₂ (λ fn sn. climb hs (leaf_hash hs leaf) fn sn (audit_at hs f 0 (x ∷ []) ++ rest)) first
        second
      ∙ ap₂ (λ node path. climb hs node a b (path ++ rest))
          (ap (leaf_hash hs) (sym (some_inj e)) ∙ leaf_hash-tree_hash hs x) (audit_at-one f 0 x)
  climb_full zero f (suc m) a b r (x ∷ []) leaf rest l hf hm ha hr e = absurd (omega arith)
  climb_full (suc j) zero m a b r leaves leaf rest l hf hm ha hr e =
      absurd (omega (arith, l, hf, power_positive (suc j)))
  climb_full (suc j) (suc f) m a b r leaves leaf rest l hf hm ha hr e =
      let double : 2 ^ suc j ≡ 2 * 2 ^ j = pow-succ' 2 j in
      let positive = power_positive j in
      let k = 2 ^ j in
      let many : 2 ≤ length leaves = omega (arith, l, double, positive) in
      let cut : split_point (length leaves) ≡ k =
        split_point_unique (length leaves) j (omega (arith, l, double, positive))
          (omega (arith, l, double)) in
      let left = take k leaves in
      let right = drop k leaves in
      let left_length : length left ≡ k = omega (arith, length-take k leaves, l, double) in
      let right_length : length right ≡ k = omega (arith, length-drop k leaves, l, double) in
      let (d, q, parts, digit_small, q_small) = low_digit j r hr in
      let sn : b * 2 ^ suc j + r ≡ (b * 2 + d) * 2 ^ j + q =
        ap (λ t. b * 2 ^ suc j + t) parts ∙ sym (digit b d j q) in
      let whole = sym (tree_split leaves k cut many) in
      elim (Bool-cases (ltb m k)) [
        | inl below ↦
            let small = ltb→lt m k below in
            let fn : a * 2 ^ suc j + m ≡ (a * 2) * 2 ^ j + m =
              omega (arith, digit a 0 j m, add-mul (a * 2) 0 k) in
            ap₂ (λ x y. climb hs (leaf_hash hs leaf) x y (audit_at hs (suc f) m leaves ++ rest)) fn
              sn
            ∙ ap (climb hs (leaf_hash hs leaf) ((a * 2) * k + m) ((b * 2 + d) * k + q))
                (audit_at-left f m k leaves rest cut many small)
            ∙ climb_full j f m (a * 2) (b * 2 + d) q left leaf (tree_hash hs right ∷ rest)
                left_length (omega (arith, left_length, hf, l, double, positive)) small
                (omega (arith, ha)) q_small (get_elem?-take k m leaves small ∙ e)
            ∙ climb-right hs (tree_hash hs left) (tree_hash hs right) a (b * 2 + d) rest
                (omega (arith, ha))
            ∙ ap₂ (λ node sn. climb hs node a sn rest) whole (half_digit b d digit_small)
        | inr not_below ↦
            let up : k ≤ m = ground (arith, not_below) in
            let at_m : k + (m - k) ≡ m = omega (arith, up) in
            let fn : a * 2 ^ suc j + m ≡ (a * 2 + 1) * 2 ^ j + (m - k) =
              omega (arith, digit a 1 j (m - k), at_m) in
            ap₂ (λ x y. climb hs (leaf_hash hs leaf) x y (audit_at hs (suc f) m leaves ++ rest)) fn
              sn
            ∙ ap (climb hs (leaf_hash hs leaf) ((a * 2 + 1) * k + (m - k)) ((b * 2 + d) * k + q))
                (audit_at-right f m k leaves rest cut many up)
            ∙ climb_full j f (m - k) (a * 2 + 1) (b * 2 + d) q right leaf (tree_hash hs left ∷ rest)
                right_length (omega (arith, right_length, hf, l, double, positive))
                (omega (arith, hm, double, up)) (omega (arith, ha)) q_small
                (get_elem?-drop k (m - k) leaves ∙ ap (get_elem? leaves) at_m ∙ e)
            ∙ climb-left hs (tree_hash hs right) (tree_hash hs left) a (b * 2 + d) rest
                (omega (arith, ha))
            ∙ ap₂ (λ node sn. climb hs node a sn rest) whole (half_digit b d digit_small)
      ]
