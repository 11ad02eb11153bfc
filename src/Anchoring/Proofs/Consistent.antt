-- ===== src/Anchoring/Proofs/Consistent.antt =====
-- Consistency proofs of src/waxseal/domain/anchoring.py as their verifier reads them.
use mathlib.Core.List.{append-nil}
use waxseal.Base.{
  IsBytes, length, ◌-◌, ok, ◌≡◌, suc, arith, some, ok_inj, All, ◌≤◌, ap, [], Text, text_eq_refl,
  inr, ltb, ap₂, Result, ℕ, ◌∙◌, sym, Bytes, leb, refl, zero, false, inl, take, >>=-eq-ok, ◌+◌, ◌<◌,
  List, Bool-cases, map, ◌∷◌, true, ◌^◌, ◌==◌, ◌*◌,
}
use waxseal.Anchoring.{batch_root, map_result, tree_hash}
use waxseal.Anchoring.Proofs.{
  consistency_at, check_consistency, drop_ones, climb_both, false_on_value_error, consistency_proof,
  verify_consistency, reaches_both,
}
use waxseal.Anchoring.Proofs.Both.{take_all, from_first}
use waxseal.Anchoring.Proofs.Climb.{exponent_le}
use waxseal.Anchoring.Proofs.Complete.{map_result-hex}
use waxseal.Anchoring.Proofs.Edge.{both_edge}
use waxseal.Anchoring.Proofs.Paths.{
  check_consistency-path, check_path-from_first, consistency_at-All,
}
use waxseal.Anchoring.Tree.{tree_hash-IsBytes, length-map_result}
use waxseal.Base.Int.{pos}
use waxseal.Bytes.Hex.{from_hex-hex, from_hex, hex}
use waxseal.Digest.{Hashes}

module _ (hs : Hashes) where
  reaches_both_self : (x y : Bytes) (sn : ℕ) → sn ≡ 0 → reaches_both (some (x, y, sn)) x y ≡ true
  unfolding reaches_both
  reaches_both_self x y sn e = rw (text_eq_refl x, text_eq_refl y, e)

  -- The path that does not know the old root leads the loop to both roots, with nothing left.
  pub honest_run :
      (m : ℕ) (leaves : List Bytes)
      → 1 ≤ m
      → m < length leaves
      → from_first hs
          (drop_ones m (m - 1) (length leaves - 1))
          (consistency_at hs (length leaves) m leaves false)
        ≡ some (tree_hash hs (take m leaves), tree_hash hs leaves, 0)
  honest_run m leaves low h =
      let n = length leaves in
      let path = consistency_at hs n m leaves false in
      let (t, run) =
        both_edge hs n n m 0 m leaves [] low h (exponent_le n) (omega arith) (omega arith) in
      let first : m - 1 ≡ 0 * 2 ^ n + (m - 1) = omega arith in
      let second : n - 1 ≡ 0 * 2 ^ n + (n - 1) = omega arith in
      ap₂ (λ x y. from_first hs (drop_ones m x y) path) first second
      ∙ ap (from_first hs (drop_ones m (0 * 2 ^ n + (m - 1)) (0 * 2 ^ n + (n - 1))))
          (sym (append-nil path))
      ∙ run
      ∙ (unfold climb_both in
          ap (λ (z : ℕ). some (tree_hash hs (take m leaves), tree_hash hs leaves, z)) (omega arith))

  check_consistency-consistency_at :
      (m : ℕ) (leaves : List Bytes)
      → 1 ≤ m
      → m < length leaves
      → check_consistency hs m
          (length leaves)
          (tree_hash hs (take m leaves))
          (tree_hash hs leaves)
          (consistency_at hs (length leaves) m leaves true)
        ≡ true
  check_consistency-consistency_at m leaves low h =
      let old = tree_hash hs (take m leaves) in
      let new = tree_hash hs leaves in
      check_consistency-path hs m leaves new low h
      ∙ check_path-from_first hs m (length leaves) old new
          (consistency_at hs (length leaves) m leaves false)
      ∙ ap (λ o. reaches_both o old new) (honest_run m leaves low h)
      ∙ reaches_both_self old new 0 refl

  pub map_result-take :
      {A B : Type 0} (f : A → Result B) (n : ℕ) (xs : List A) {ys : List B}
      → map_result f xs ≡ ok ys
      → map_result f (take n xs) ≡ ok (take n ys)
  unfolding map_result
  map_result-take f zero xs h = refl
  map_result-take f (suc n) [] h = ap (λ ys. ok (take (suc n) ys)) (ok_inj h)
  map_result-take f (suc n) (x ∷ xs) h =
      let (y, hy, h1) = >>=-eq-ok (f x) _ h in
      let (ys, hys, h2) = >>=-eq-ok (map_result f xs) _ h1 in
      rw (hy, map_result-take f n xs hys) (ap (λ l. ok (take (suc n) l)) (ok_inj h2))

  -- A run of the verifier on roots and a path that decode.
  verify_consistency-run :
      (m n : ℕ) (old new : Bytes) (path : List Bytes)
      → 1 ≤ m
      → m ≤ n
      → IsBytes old
      → IsBytes new
      → All IsBytes path
      → verify_consistency hs (hex old) (pos m) (hex new) (pos n) (map hex path)
        ≡ ok (check_consistency hs m n old new path)
  unfolding verify_consistency false_on_value_error
  verify_consistency-run m n old new path low h old_bytes new_bytes path_bytes =
      let positive : ltb (m + 0) 1 ≡ false = ground (arith, low) in
      let grows : ltb (n + 0) (m + 0) ≡ false = ground (arith, h) in
      rw (
        positive,
        grows,
        from_hex-hex old old_bytes,
        from_hex-hex new new_bytes,
        map_result-hex hs path path_bytes,
      )

  whole_batch :
      (leaves : List Bytes)
      → check_consistency hs
          (length leaves)
          (length leaves)
          (tree_hash hs leaves)
          (tree_hash hs leaves)
          []
        ≡ true
  unfolding check_consistency
  whole_batch leaves =
      let same : (length leaves == length leaves) ≡ true = ground arith in
      rw (same, text_eq_refl (tree_hash hs leaves))

  consistency_at-all :
      (f m : ℕ) (leaves : List Bytes) → m ≡ length leaves → consistency_at hs f m leaves true ≡ []
  unfolding consistency_at
  consistency_at-all zero m leaves e = refl
  consistency_at-all (suc f) m leaves e =
      let all : (m == length leaves) ≡ true = ground (arith, e) in rw all

  check_consistency-passes :
      (m : ℕ) (leaves : List Bytes)
      → 1 ≤ m
      → m ≤ length leaves
      → check_consistency hs m
          (length leaves)
          (tree_hash hs (take m leaves))
          (tree_hash hs leaves)
          (consistency_at hs (length leaves) m leaves true)
        ≡ true
  check_consistency-passes m leaves low h = elim (Bool-cases (m == length leaves)) [
    | inr part ↦ check_consistency-consistency_at m leaves low (ground (arith, part, h))
    | inl all ↦
        let e : m ≡ length leaves = ground (arith, all) in
        ap
          (λ x.
            check_consistency hs x (length leaves) (tree_hash hs (take m leaves))
              (tree_hash hs leaves) (consistency_at hs (length leaves) m leaves true))
          e
        ∙ ap₂
            (λ xs p.
              check_consistency hs (length leaves) (length leaves) (tree_hash hs xs)
                (tree_hash hs leaves) p)
            (take_all m leaves (omega (arith, e))) (consistency_at-all (length leaves) m leaves e)
        ∙ whole_batch leaves
  ]

  -- Of every batch, each part that begins it and is not empty has a proof, and
  -- `verify_consistency` accepts it against the roots of both, whatever their sizes.
  pub verify_consistency-consistency_proof :
      (entry_hashes : List Text) (m : ℕ) {old_root new_root : Text}
      → 1 ≤ m
      → m ≤ length entry_hashes
      → batch_root hs (take m entry_hashes) ≡ ok old_root
      → batch_root hs entry_hashes ≡ ok new_root
      → (proof : List Text) × (consistency_proof hs entry_hashes (pos m) ≡ ok proof)
        × (verify_consistency hs old_root (pos m) new_root (pos (length entry_hashes)) proof
            ≡ ok true)
  unfolding consistency_proof batch_root
  verify_consistency-consistency_proof entry_hashes m {old_root} {new_root} low h old_eq new_eq =
      let (leaves, decoded, new_lem) = >>=-eq-ok (map_result from_hex entry_hashes) _ new_eq in
      let (part, old_decoded, old_lem) =
        >>=-eq-ok (map_result from_hex (take m entry_hashes)) _ old_eq in
      let sizes = length-map_result from_hex entry_hashes decoded in
      let parts : part ≡ take m leaves =
        ok_inj (sym old_decoded ∙ map_result-take from_hex m entry_hashes decoded) in
      let old : hex (tree_hash hs (take m leaves)) ≡ old_root =
        ap (λ xs. hex (tree_hash hs xs)) (sym parts) ∙ ok_inj old_lem in
      let path = consistency_at hs (length leaves) m leaves true in
      let up : leb 1 (m + 0) ≡ true = ground (arith, low) in
      let inside : leb (m + 0) (length entry_hashes + 0) ≡ true = ground (arith, h) in
      (
        map hex path,
        rw (up, inside, decoded),
        ap₂ (λ x y. verify_consistency hs x (pos m) y (pos (length entry_hashes)) (map hex path))
              (sym old) (sym (ok_inj new_lem))
            ∙ verify_consistency-run m (length entry_hashes) (tree_hash hs (take m leaves))
                (tree_hash hs leaves) path low h (tree_hash-IsBytes hs _) (tree_hash-IsBytes hs _)
                (consistency_at-All hs IsBytes (length leaves) m leaves true (tree_hash-IsBytes hs))
            ∙ ap
                (λ n. ok (
                  check_consistency hs m n (tree_hash hs (take m leaves)) (tree_hash hs leaves)
                    path))
                (sym sizes)
            ∙ ap ok (check_consistency-passes m leaves low (omega (arith, sizes, h))),
      )
