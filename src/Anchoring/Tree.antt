-- ===== src/Anchoring/Tree.antt =====
-- `_tree_hash` of src/waxseal/domain/anchoring.py, its fuel, and the roots of two batches.
use waxseal.Base.{
  ◌≤◌, Text, arith, ap₂, ◌<◌, >>=-eq-ok, ok, ok_inj, Result, ap, ◌≡◌, drop, ◌∷◌, refl, ℕ, subst,
  length, append_inj, length-drop, [], ◌++◌, ◌⊎◌, ◌∙◌, take-append-drop, suc, List, ◌-◌, sym,
  IsBytes, inr, inl, length-take, Bytes, zero, take,
}
use waxseal.Anchoring.{
  map_result, batch_root, pair_hash, tree_hash, leaf_hash, tree_at, split_point,
}
use waxseal.Anchoring.Split.{split_point_lem}
use waxseal.Bytes.Hex.{hex_inj, from_hex}
use waxseal.Digest.{digest_agree, CollisionIn, Hashes}

length-take-le : {A : Type 0} (k : ℕ) (xs : List A) → k ≤ length xs → length (take k xs) ≡ k
length-take-le k xs h = omega (arith, length-take k xs)

-- Both halves of a batch of two or more are smaller than it and not empty.
halves :
    {A : Type 0} (xs : List A)
    → 2 ≤ length xs
    → (length (take (split_point (length xs)) xs) ≡ split_point (length xs))
      × (length (drop (split_point (length xs)) xs) ≡ length xs - split_point (length xs))
      × (1 ≤ split_point (length xs))
      × (split_point (length xs) < length xs)
halves xs h =
    let (_, _, low, below, _) = split_point_lem (length xs) h in
    (length-take-le _ xs (omega arith), length-drop _ xs, low, below)

pub length-map_result :
    {A B : Type 0} (f : A → Result B) (xs : List A) {ys : List B}
    → map_result f xs ≡ ok ys
    → length ys ≡ length xs
unfolding map_result
length-map_result f [] h = ap length (sym (ok_inj h))
length-map_result f (x ∷ xs) h =
    let (y, hy, h1) = >>=-eq-ok (f x) _ h in
    let (ys, hys, h2) = >>=-eq-ok (map_result f xs) _ h1 in
    ap length (sym (ok_inj h2)) ∙ omega (arith, length-map_result f xs hys)

module _ (hs : Hashes) where
  -- Any fuel that is at least the number of leaves gives the same hash.
  tree_at-fuel :
      (f g : ℕ) (xs : List Bytes)
      → length xs ≤ f
      → length xs ≤ g
      → tree_at hs f xs ≡ tree_at hs g xs
  unfolding tree_at
  tree_at-fuel zero zero xs hf hg = refl
  tree_at-fuel zero (suc g) [] hf hg = refl
  tree_at-fuel zero (suc g) (x ∷ xs) hf hg = absurd (omega arith)
  tree_at-fuel (suc f) zero [] hf hg = refl
  tree_at-fuel (suc f) zero (x ∷ xs) hf hg = absurd (omega arith)
  tree_at-fuel (suc f) (suc g) [] hf hg = refl
  tree_at-fuel (suc f) (suc g) (x ∷ []) hf hg = refl
  tree_at-fuel (suc f) (suc g) (x ∷ y ∷ xs) hf hg =
      let (l, r, low, below) = halves (x ∷ y ∷ xs) (omega arith) in
      ap₂ (pair_hash hs)
        (tree_at-fuel f g (take (split_point (length (x ∷ y ∷ xs))) (x ∷ y ∷ xs)) (omega arith)
          (omega arith))
        (tree_at-fuel f g (drop (split_point (length (x ∷ y ∷ xs))) (x ∷ y ∷ xs)) (omega arith)
          (omega arith))

  tree_at_node :
      (f n : ℕ) (xs : List Bytes)
      → length xs ≡ n
      → 2 ≤ n
      → tree_at hs (suc f) xs
        ≡ pair_hash hs
            (tree_at hs f (take (split_point n) xs))
            (tree_at hs f (drop (split_point n) xs))
  unfolding tree_at
  tree_at_node f n [] l h = absurd (omega arith)
  tree_at_node f n (x ∷ []) l h = absurd (omega arith)
  tree_at_node f n (x ∷ y ∷ xs) l h =
      ap
        (λ m.
          pair_hash hs (tree_at hs f (take (split_point m) (x ∷ y ∷ xs)))
            (tree_at hs f (drop (split_point m) (x ∷ y ∷ xs))))
        l

  -- The equation of `_tree_hash` for two leaves or more: the fuel is enough.
  pub tree_hash_lem :
      (xs : List Bytes)
      → 2 ≤ length xs
      → tree_hash hs xs
        ≡ pair_hash hs
            (tree_hash hs (take (split_point (length xs)) xs))
            (tree_hash hs (drop (split_point (length xs)) xs))
  unfolding tree_hash
  tree_hash_lem xs h =
      let k = split_point (length xs) in
      let (l, r, low, below) = halves xs h in
      tree_at-fuel (length xs) (suc (length xs)) xs (omega arith) (omega arith)
      ∙ tree_at_node (length xs) (length xs) xs refl h
      ∙ ap₂ (pair_hash hs)
          (tree_at-fuel (length xs) (length (take k xs)) (take k xs) (omega arith) (omega arith))
          (tree_at-fuel (length xs) (length (drop k xs)) (drop k xs) (omega arith) (omega arith))

  pub length-tree_at : (f : ℕ) (xs : List Bytes) → length (tree_at hs f xs) ≡ 32
  unfolding tree_at leaf_hash pair_hash
  length-tree_at zero [] = hs.length-sha256 _
  length-tree_at zero (x ∷ []) = hs.length-sha256 _
  length-tree_at zero (x ∷ y ∷ xs) = hs.length-sha256 _
  length-tree_at (suc f) [] = hs.length-sha256 _
  length-tree_at (suc f) (x ∷ []) = hs.length-sha256 _
  length-tree_at (suc f) (x ∷ y ∷ xs) = hs.length-sha256 _

  pub tree_hash-IsBytes : (xs : List Bytes) → IsBytes (tree_hash hs xs)
  unfolding tree_hash tree_at leaf_hash pair_hash
  tree_hash-IsBytes [] = hs.sha256-IsBytes _
  tree_hash-IsBytes (x ∷ []) = hs.sha256-IsBytes _
  tree_hash-IsBytes (x ∷ y ∷ xs) = hs.sha256-IsBytes _

  -- The byte strings that `tree_at` hashes.
  unfoldable pub HashedAt : ℕ → List Bytes → Bytes → Type 0
  HashedAt zero [] m = m ≡ []
  HashedAt zero (leaf ∷ []) m = m ≡ 0 ∷ leaf
  HashedAt zero (leaf ∷ other ∷ leaves) m = m ≡ []
  HashedAt (suc fuel) [] m = m ≡ []
  HashedAt (suc fuel) (leaf ∷ []) m = m ≡ 0 ∷ leaf
  HashedAt (suc fuel) (leaf ∷ other ∷ leaves) m =
      let all = leaf ∷ other ∷ leaves in
      let k = split_point (length all) in
      (m ≡ 1 ∷ (tree_at hs fuel (take k all) ++ tree_at hs fuel (drop k all)))
      ⊎ (HashedAt fuel (take k all) m ⊎ HashedAt fuel (drop k all) m)

  -- The byte strings that `merkle_root` hashes for a batch.
  unfoldable pub HashedInBatch : List Text → Bytes → Type 0
  HashedInBatch entry_hashes m =
      (leaves : List Bytes) × (map_result from_hex entry_hashes ≡ ok leaves)
      × HashedAt (length leaves) leaves m

  HashedAt-node :
      (f n : ℕ) (xs : List Bytes)
      → length xs ≡ n
      → 2 ≤ n
      → (m : Bytes)
      → (m ≡ 1 ∷ (tree_at hs f (take (split_point n) xs) ++ tree_at hs f (drop (split_point n) xs)))
        ⊎ (HashedAt f (take (split_point n) xs) m ⊎ HashedAt f (drop (split_point n) xs) m)
      → HashedAt (suc f) xs m
  unfolding HashedAt
  HashedAt-node f n [] l h m at = absurd (omega arith)
  HashedAt-node f n (x ∷ []) l h m at = absurd (omega arith)
  HashedAt-node f n (x ∷ y ∷ xs) l h m at =
      subst
        (λ n.
          (m
            ≡ 1
              ∷ (tree_at hs f (take (split_point n) (x ∷ y ∷ xs))
                  ++ tree_at hs f (drop (split_point n) (x ∷ y ∷ xs))))
          ⊎ (HashedAt f (take (split_point n) (x ∷ y ∷ xs)) m
              ⊎ HashedAt f (drop (split_point n) (x ∷ y ∷ xs)) m))
        (sym l) at

module _ (hs : Hashes) (M : Bytes → Type 0) where
  -- A node's hash determines the hashes of its halves, which are 32 bytes each.
  pub pair_hash_agree :
      (a b c d : Bytes)
      → M (1 ∷ (a ++ b))
      → M (1 ∷ (c ++ d))
      → length a ≡ length c
      → pair_hash hs a b ≡ pair_hash hs c d
      → ((a ≡ c) × (b ≡ d)) ⊎ CollisionIn hs M
  unfolding pair_hash
  pair_hash_agree a b c d ma mc l e =
      elim (digest_agree hs M (1 ∷ (a ++ b)) (1 ∷ (c ++ d)) ma mc e) [
        | inl same ↦ inl (append_inj a c l (cc same))
        | inr found ↦ inr found
      ]

  pub leaf_hash_agree :
      (a b : Bytes)
      → M (0 ∷ a)
      → M (0 ∷ b)
      → leaf_hash hs a ≡ leaf_hash hs b
      → (a ≡ b) ⊎ CollisionIn hs M
  unfolding leaf_hash
  leaf_hash_agree a b ma mb e = elim (digest_agree hs M (0 ∷ a) (0 ∷ b) ma mb e) [
    | inl same ↦ inl (cc same)
    | inr found ↦ inr found
  ]

  join_halves :
      {xs ys : List Bytes} (k : ℕ)
      → (take k xs ≡ take k ys) ⊎ CollisionIn hs M
      → (drop k xs ≡ drop k ys) ⊎ CollisionIn hs M
      → (xs ≡ ys) ⊎ CollisionIn hs M
  join_halves k (inr c) r = inr c
  join_halves k (inl l) (inr c) = inr c
  join_halves {xs} {ys} k (inl l) (inl r) =
      inl (sym (take-append-drop k xs) ∙ ap₂ ◌++◌ l r ∙ take-append-drop k ys)

  -- Trees of one size with one root have the same leaves, or two of the byte strings that they
  -- hash collide.
  pub tree_at_inj :
      (f : ℕ) (xs ys : List Bytes)
      → ((m : Bytes) → HashedAt hs f xs m → M m)
      → ((m : Bytes) → HashedAt hs f ys m → M m)
      → length xs ≤ f
      → length xs ≡ length ys
      → tree_at hs f xs ≡ tree_at hs f ys
      → (xs ≡ ys) ⊎ CollisionIn hs M
  tree_at_inj f [] [] cx cy hf l e = inl refl
  tree_at_inj f [] (y ∷ ys) cx cy hf l e = absurd (omega arith)
  tree_at_inj f (x ∷ xs) [] cx cy hf l e = absurd (omega arith)
  tree_at_inj f (x ∷ []) (y ∷ z ∷ ys) cx cy hf l e = absurd (omega arith)
  tree_at_inj f (x ∷ w ∷ xs) (y ∷ []) cx cy hf l e = absurd (omega arith)
  tree_at_inj zero (x ∷ []) (y ∷ []) cx cy hf l e = absurd (omega arith)
  tree_at_inj zero (x ∷ w ∷ xs) (y ∷ z ∷ ys) cx cy hf l e = absurd (omega arith)
  tree_at_inj (suc f) (x ∷ []) (y ∷ []) cx cy hf l e =
      elim (leaf_hash_agree x y (cx (0 ∷ x) (unfold HashedAt in refl))
        (cy (0 ∷ y) (unfold HashedAt in refl)) (unfold tree_at in e)) [
          | inl same ↦ inl (ap (λ t. t ∷ []) same)
          | inr c ↦ inr c
        ]
  tree_at_inj (suc f) (x ∷ w ∷ xs) (y ∷ z ∷ ys) cx cy hf l e =
      let left = x ∷ w ∷ xs in
      let right = y ∷ z ∷ ys in
      let k = split_point (length left) in
      let (lt, ld, low, below) = halves left (omega arith) in
      let rt' : length (take k right) ≡ k = length-take-le k right (omega arith) in
      let nodes =
        sym (tree_at_node hs f (length left) left refl (omega arith))
        ∙ e
        ∙ tree_at_node hs f (length left) right (sym l) (omega arith) in
      let in_left = HashedAt-node hs f (length left) left refl (omega arith) in
      let in_right = HashedAt-node hs f (length left) right (sym l) (omega arith) in
      elim (pair_hash_agree _ _ _ _ (cx _ (in_left _ (inl refl))) (cy _ (in_right _ (inl refl)))
        (length-tree_at hs f _ ∙ sym (length-tree_at hs f _)) nodes) [
          | inl (el, er) ↦
              join_halves k
                (tree_at_inj f (take k left) (take k right) (λ m h. cx m (in_left m (inr (inl h))))
                  (λ m h. cy m (in_right m (inr (inl h)))) (omega arith) (lt ∙ sym rt') el)
                (tree_at_inj f (drop k left) (drop k right) (λ m h. cx m (in_left m (inr (inr h))))
                  (λ m h. cy m (in_right m (inr (inr h)))) (omega arith)
                  (omega (arith, length-drop k left, length-drop k right)) er)
          | inr c ↦ inr c
        ]

module _ (hs : Hashes) where
  -- Two batches of one size whose roots agree decode to the same leaves, or two different byte
  -- strings that are hashed for the two roots have one SHA-256 digest.
  pub batch_root_inj :
      (xs ys : List Text) {r : Text}
      → length xs ≡ length ys
      → batch_root hs xs ≡ ok r
      → batch_root hs ys ≡ ok r
      → (map_result from_hex xs ≡ map_result from_hex ys)
        ⊎ CollisionIn hs (λ m. HashedInBatch hs xs m ⊎ HashedInBatch hs ys m)
  unfolding batch_root tree_hash HashedInBatch
  batch_root_inj xs ys l ex ey =
      let (as', hx, rx) = >>=-eq-ok (map_result from_hex xs) _ ex in
      let (bs, hy, ry) = >>=-eq-ok (map_result from_hex ys) _ ey in
      let counts : length as' ≡ length bs =
        length-map_result from_hex xs hx ∙ l ∙ sym (length-map_result from_hex ys hy) in
      let roots : tree_hash hs as' ≡ tree_hash hs bs =
        hex_inj _ _ (tree_hash-IsBytes hs as') (tree_hash-IsBytes hs bs)
          (ok_inj rx ∙ sym (ok_inj ry)) in
      let trees = roots ∙ ap (λ n. tree_at hs n bs) (sym counts) in
      elim (tree_at_inj hs _ (length as') as' bs (λ m h. inl (as', hx, h))
        (λ m h. inr (bs, hy, subst (λ n. HashedAt hs n bs m) counts h)) (omega arith) counts
        trees) [ inl same ↦ inl (hx ∙ ap ok same ∙ sym hy) | inr c ↦ inr c ]
