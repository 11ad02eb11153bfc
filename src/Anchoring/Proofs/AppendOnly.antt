-- ===== src/Anchoring/Proofs/AppendOnly.antt =====
-- `verify_consistency` of src/waxseal/domain/anchoring.py on the roots of two batches.
use waxseal.Base.{
  ◌≡◌, sym, ap, Bytes, ◌∙◌, List, length-take, inl, inr, ◌++◌, Text, ◌⊎◌, ap₂, ok_inj, length,
  arith, ◌||◌, drop, Bool-cases, take, ℕ, ◌≤◌, ok, >>=-eq-ok, true,
}
use waxseal.Anchoring.{batch_root, map_result, tree_hash}
use waxseal.Anchoring.Proofs.{check_consistency, verify_consistency}
use waxseal.Anchoring.Proofs.Consistent.{map_result-take}
use waxseal.Anchoring.Proofs.Extends.{HashedInCheck, trees_agree, HashedByOwn}
use waxseal.Anchoring.Proofs.Sound.{false_on_value_error-true}
use waxseal.Anchoring.Tree.{tree_hash-IsBytes, length-map_result, HashedInBatch, batch_root_inj}
use waxseal.Base.Int.{ltb_ℤ, pos}
use waxseal.Bytes.Hex.{from_hex, hex, from_hex-hex}
use waxseal.Digest.{Hashes, widen, CollisionIn}

module _ (hs : Hashes) where
  -- What an accepted proof has shown of two roots.
  Checked : ℕ → ℕ → Text → Text → List Text → Type 0
  Checked m n old_root new_root proof =
      (old : Bytes) × (new : Bytes) × (path : List Bytes) × (1 ≤ m)
      × (m ≤ n)
      × (from_hex old_root ≡ ok old)
      × (from_hex new_root ≡ ok new)
      × (check_consistency hs m n old new path ≡ true)
      × (map_result from_hex proof ≡ ok path)

  verify_consistency-true :
      (m n : ℕ) (old_root new_root : Text) (proof : List Text)
      → verify_consistency hs old_root (pos m) new_root (pos n) proof ≡ ok true
      → Checked m n old_root new_root proof
  unfolding verify_consistency Checked
  verify_consistency-true m n old_root new_root proof h =
      elim (Bool-cases (ltb_ℤ (pos m) (pos 1) || ltb_ℤ (pos n) (pos m))) [
        | inl refused ↦ cc (rw refused at h)
        | inr fine ↦
            let run = false_on_value_error-true hs _ (rw fine at h) in
            let (old, old_lem, h1) = >>=-eq-ok (from_hex old_root) _ run in
            let (new, new_lem, h2) = >>=-eq-ok (from_hex new_root) _ h1 in
            let (path, path_lem, h3) = >>=-eq-ok (map_result from_hex proof) _ h2 in
            (
              old,
              new,
              path,
              ground (arith, fine),
              ground (arith, fine),
              old_lem,
              new_lem,
              ok_inj h3,
              path_lem,
            )
      ]

  batch_root-ok :
      (entry_hashes : List Text) {root : Text}
      → batch_root hs entry_hashes ≡ ok root
      → (leaves : List Bytes) × (map_result from_hex entry_hashes ≡ ok leaves)
        × (hex (tree_hash hs leaves) ≡ root)
        × (from_hex root ≡ ok (tree_hash hs leaves))
  unfolding batch_root
  batch_root-ok entry_hashes h =
      let (leaves, decoded, top) = >>=-eq-ok (map_result from_hex entry_hashes) _ h in
      (
        leaves,
        decoded,
        ok_inj top,
        ap from_hex (sym (ok_inj top))
            ∙ from_hex-hex (tree_hash hs leaves) (tree_hash-IsBytes hs leaves),
      )

  batch_root-leaves :
      (entry_hashes : List Text) {leaves : List Bytes}
      → map_result from_hex entry_hashes ≡ ok leaves
      → batch_root hs entry_hashes ≡ ok (hex (tree_hash hs leaves))
  unfolding batch_root
  batch_root-leaves entry_hashes decoded = rw decoded

  -- The byte strings that are hashed to check a consistency proof between two batches, to check the
  -- proof that the new batch has itself, to check the one that the old batch has when it is
  -- continued with the rest of the new one, and for the two roots that are compared.
  unfoldable pub HashedToExtend : List Text → List Text → List Text → Bytes → Type 0
  HashedToExtend old new proof m =
      (xs : List Bytes) × (ys : List Bytes) × (map_result from_hex old ≡ ok xs)
      × (map_result from_hex new ≡ ok ys)
      × (((path : List Bytes) × (map_result from_hex proof ≡ ok path)
            × HashedInCheck hs (length xs) (length ys) (tree_hash hs xs) path m)
          ⊎ (HashedByOwn hs (length xs) ys m
              ⊎ (HashedByOwn hs (length xs) (xs ++ drop (length xs) ys) m
                  ⊎ (HashedInBatch hs old m ⊎ HashedInBatch hs (take (length old) new) m))))

  -- A proof that `verify_consistency` accepts between the roots of two batches, at their sizes,
  -- shows that the old batch is the beginning of the new one: both decode to the same bytes, or
  -- two different byte strings have one SHA-256 digest, both among those that are hashed to check
  -- the proof that was given, the new batch's own proof and that of the old batch continued with
  -- the rest of the new one, and for the roots of the old batch and of the new one's beginning.
  -- Nothing is asked of the proof, nor of the length of its elements.
  pub verify_consistency-batch_root :
      (old new : List Text) (proof : List Text) {old_root new_root : Text}
      → batch_root hs old ≡ ok old_root
      → batch_root hs new ≡ ok new_root
      → verify_consistency hs old_root (pos (length old)) new_root (pos (length new)) proof
        ≡ ok true
      → (map_result from_hex old ≡ map_result from_hex (take (length old) new))
        ⊎ CollisionIn hs (HashedToExtend old new proof)
  unfolding Checked HashedToExtend
  verify_consistency-batch_root old new proof {old_root} {new_root} old_eq new_eq accepted =
      let (xs, hx, rx, fx) = batch_root-ok old old_eq in
      let (ys, hy, ry, fy) = batch_root-ok new new_eq in
      let (a, b, path, low, h, fa, fb, passed, decoded) =
        verify_consistency-true (length old) (length new) old_root new_root proof accepted in
      let sx = length-map_result from_hex old hx in
      let sy = length-map_result from_hex new hy in
      let checked : check_consistency hs (length xs) (length ys) (tree_hash hs xs) (tree_hash hs ys)
            path
          ≡ true =
        ap₂ (λ m n. check_consistency hs m n (tree_hash hs xs) (tree_hash hs ys) path) sx sy
        ∙ ap₂ (λ x y. check_consistency hs (length old) (length new) x y path)
            (ok_inj (sym fx ∙ fa)) (ok_inj (sym fy ∙ fb))
        ∙ passed in
      let part : map_result from_hex (take (length old) new) ≡ ok (take (length xs) ys) =
        map_result-take hs from_hex (length old) new hy ∙ ap (λ m. ok (take m ys)) (sym sx) in
      let size : length old ≡ length (take (length old) new) =
        omega (arith, length-take (length old) new, h) in
      elim (trees_agree hs (HashedToExtend old new proof) xs ys path
        (λ m k. (xs, ys, hx, hy, inl (path, decoded, k))) (λ m k. (xs, ys, hx, hy, inr (inl k)))
        (λ m k. (xs, ys, hx, hy, inr (inr (inl k)))) (omega (arith, sx, low))
        (omega (arith, sx, sy, h)) checked) [
          | inr found ↦ inr found
          | inl trees ↦
              elim (batch_root_inj hs old (take (length old) new) size old_eq (
                batch_root-leaves (take (length old) new) part
                ∙ ap (λ t. ok (hex t)) (sym trees)
                ∙ ap ok rx)) [
                  | inl same ↦ inl same
                  | inr found ↦ inr (widen (λ m k. (xs, ys, hx, hy, inr (inr (inr k)))) found)
                ]
        ]
