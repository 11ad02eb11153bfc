-- ===== src/Anchoring/Proofs/Complete.antt =====
-- Membership proofs of src/waxseal/domain/anchoring.py as their verifier reads them.
use waxseal.Base.{
  some_inj, suc, ap, some, true, arith, get_elem?, refl, ◌∷◌, leb, Bool-cases, IsBytes, Result,
  zero, All-append, ℕ, Bytes, Text, sym, map, All, [], ◌==◌, ◌-◌, ◌<◌, ◌≡◌, ◌∙◌, ok_inj, inr,
  length, take, ◌+◌, false, List, >>=-eq-ok, inl, text_eq_iff, drop, ok, ltb,
}
use waxseal.Anchoring.{map_result, leaf_hash, tree_hash, root, batch_root, split_point}
use waxseal.Anchoring.Proofs.{
  climb, verify_membership, in_batch, false_on_value_error, membership_proof, audit_path,
  reaches_root, audit_at,
}
use waxseal.Anchoring.Proofs.Whole.{climb-audit_path}
use waxseal.Anchoring.Tree.{length-map_result, tree_hash-IsBytes}
use waxseal.Base.Int.{pos}
use waxseal.Bytes.Hex.{from_hex-hex, from_hex, hex}
use waxseal.Digest.{Hashes}

module _ (hs : Hashes) where
  audit_at-IsBytes : (f m : ℕ) (leaves : List Bytes) → All IsBytes (audit_at hs f m leaves)
  unfolding audit_at
  audit_at-IsBytes zero m leaves = tt
  audit_at-IsBytes (suc f) m leaves = elim (Bool-cases (length leaves == 1)) [
    | inl one ↦ rw one tt
    | inr many ↦ elim (Bool-cases (ltb m (split_point (length leaves)))) [
      | inl left ↦
          rw (many, left)
            (All-append IsBytes _ _
              (audit_at-IsBytes f m (take (split_point (length leaves)) leaves))
              (tree_hash-IsBytes hs _, tt))
      | inr right ↦
          rw (many, right)
            (All-append IsBytes _ _
              (audit_at-IsBytes f (m - split_point (length leaves))
                (drop (split_point (length leaves)) leaves))
              (tree_hash-IsBytes hs _, tt))
    ]
  ]

  pub map_result-hex : (bs : List Bytes) → All IsBytes bs → map_result from_hex (map hex bs) ≡ ok bs
  unfolding map_result
  map_result-hex [] h = refl
  map_result-hex (b ∷ bs) (hb, hbs) = rw (from_hex-hex b hb, map_result-hex bs hbs)

  get_elem?-map_result :
      {A B : Type 0} (f : A → Result B) (xs : List A) (m : ℕ) {x : A} {ys : List B}
      → map_result f xs ≡ ok ys
      → get_elem? xs m ≡ some x
      → (y : B) × (f x ≡ ok y) × (get_elem? ys m ≡ some y)
  unfolding map_result
  get_elem?-map_result f [] m h e = cc
  get_elem?-map_result f (z ∷ xs) zero h e =
      let (y, hy, h1) = >>=-eq-ok (f z) _ h in
      let (ys, hys, h2) = >>=-eq-ok (map_result f xs) _ h1 in
      (y, ap f (sym (some_inj e)) ∙ hy, ap (λ l. get_elem? l 0) (sym (ok_inj h2)))
  get_elem?-map_result f (z ∷ xs) (suc m) h e =
      let (y, hy, h1) = >>=-eq-ok (f z) _ h in
      let (ys, hys, h2) = >>=-eq-ok (map_result f xs) _ h1 in
      let (w, fw, at_m) = get_elem?-map_result f xs m hys e in
      (w, fw, ap (λ l. get_elem? l (suc m)) (sym (ok_inj h2)) ∙ at_m)

  get_elem?-lt :
      {A : Type 0} (xs : List A) (m : ℕ) {x : A} → get_elem? xs m ≡ some x → m < length xs
  get_elem?-lt [] m e = cc
  get_elem?-lt (y ∷ xs) zero e = omega arith
  get_elem?-lt (y ∷ xs) (suc m) e = omega (arith, get_elem?-lt xs m e)

  -- A run of the verifier on texts that decode.
  verify_membership-run :
      (entry_hash root : Text) (n size : ℕ) (leaf : Bytes) (proof : List Text)
      (siblings : List Bytes)
      → n < size
      → from_hex entry_hash ≡ ok leaf
      → map_result from_hex proof ≡ ok siblings
      → verify_membership hs entry_hash (pos n) (pos size) proof root
        ≡ ok (reaches_root (climb hs (leaf_hash hs leaf) n (size - 1) siblings) root)
  unfolding verify_membership false_on_value_error
  verify_membership-run entry_hash root n size leaf proof siblings h decoded read =
      let up : ltb (n + 0) 0 ≡ false = ground arith in
      let some_size : ltb (size + 0) 1 ≡ false = ground (arith, h) in
      let inside : leb (size + 0) (n + 0) ≡ false = ground (arith, h) in
      rw (up, some_size, inside, decoded, read)

  -- For every entry of a batch there is a proof, and `verify_membership` accepts it against the
  -- batch's root, whatever the size of the batch.
  pub verify_membership-membership_proof :
      (entry_hashes : List Text) (n : ℕ) {entry_hash root : Text}
      → get_elem? entry_hashes n ≡ some entry_hash
      → batch_root hs entry_hashes ≡ ok root
      → (proof : List Text) × (membership_proof hs entry_hashes (pos n) ≡ ok proof)
        × (verify_membership hs entry_hash (pos n) (pos (length entry_hashes)) proof root ≡ ok true)
  unfolding membership_proof in_batch batch_root reaches_root
  verify_membership-membership_proof entry_hashes n {entry_hash} {root} found rooted =
      let (leaves, decoded, root_lem) = >>=-eq-ok (map_result from_hex entry_hashes) _ rooted in
      let (leaf, leaf_lem, at_n) = get_elem?-map_result from_hex entry_hashes n decoded found in
      let sizes = length-map_result from_hex entry_hashes decoded in
      let h = get_elem?-lt entry_hashes n found in
      let path = audit_path hs n leaves in
      let up : leb 0 (n + 0) ≡ true = ground arith in
      let inside : ltb (n + 0) (length entry_hashes + 0) ≡ true = ground (arith, h) in
      let path_bytes : All IsBytes path =
        unfold audit_path in audit_at-IsBytes (length leaves) n leaves in
      let reached : climb hs (leaf_hash hs leaf) n (length entry_hashes - 1) path
          ≡ some (tree_hash hs leaves, 0) =
        ap (λ s. climb hs (leaf_hash hs leaf) n (s - 1) path) (sym sizes)
        ∙ climb-audit_path hs n leaves leaf (omega (arith, sizes, h)) at_n in
      (
        map hex path,
        rw (up, inside, decoded),
        verify_membership-run entry_hash root n (length entry_hashes) leaf (map hex path) path h
              leaf_lem (map_result-hex path path_bytes)
            ∙ ap (λ o. ok (reaches_root o root)) reached
            ∙ ap ok ((text_eq_iff (hex (tree_hash hs leaves)) root).1 (ok_inj root_lem)),
      )
