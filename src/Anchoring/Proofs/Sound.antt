-- ===== src/Anchoring/Proofs/Sound.antt =====
-- What two accepted membership proofs of src/waxseal/domain/anchoring.py say of each other.
use waxseal.Base.{
  text_eq_iff, ◌≡◌, List, Option, Bytes, ◌⊎◌, true, ==_iff, raise, Result, length, ℕ, sym, none,
  refl, ap, get_elem?, ok, ok_inj, Text, ◌∙◌, Bool-cases, &&-eq-true, ◌==◌, Bool, value_error, inr,
  ◌∷◌, ◌||◌, ◌-◌, text_eq, >>=-eq-ok, inl, some,
}
use waxseal.Anchoring.{root, leaf_hash, batch_root, map_result}
use waxseal.Anchoring.Proofs.{
  membership_proof, reaches_root, climb, false_on_value_error, verify_membership,
}
use waxseal.Anchoring.Proofs.Complete.{verify_membership-membership_proof}
use waxseal.Anchoring.Proofs.Rounds.{climb-IsBytes, leaf_hash-digest, climb_inj, HashedInClimb}
use waxseal.Anchoring.Tree.{leaf_hash_agree}
use waxseal.Base.Int.{ltb_ℤ, pos_part, pos, ℤ, leb_ℤ}
use waxseal.Bytes.Hex.{hex_inj, hex, from_hex}
use waxseal.Digest.{Hashes, CollisionIn}

module _ (hs : Hashes) where
  -- What an accepted proof has shown.
  Accepted : Text → ℤ → ℤ → List Text → Text → Type 0
  Accepted entry_hash index size proof root =
      (leaf : Bytes) × (siblings : List Bytes) × (node : Bytes) × (from_hex entry_hash ≡ ok leaf)
      × (map_result from_hex proof ≡ ok siblings)
      × (climb hs (leaf_hash hs leaf) (pos_part index) (pos_part size - 1) siblings
          ≡ some (node, 0))
      × (hex node ≡ root)

  reaches_root-true :
      (o : Option (Bytes × ℕ)) (root : Text)
      → reaches_root o root ≡ true
      → (node : Bytes) × (o ≡ some (node, 0)) × (hex node ≡ root)
  unfolding reaches_root
  reaches_root-true none root h = cc
  reaches_root-true (some (node, sn)) root h =
      let (top, same) = &&-eq-true (sn == 0) (text_eq (hex node) root) h in
      (
        node,
        ap (λ (z : ℕ). some (node, z)) ((==_iff sn 0).0 top),
        (text_eq_iff (hex node) root).0 same,
      )

  pub false_on_value_error-true : (r : Result Bool) → false_on_value_error r ≡ ok true → r ≡ ok true
  unfolding false_on_value_error
  false_on_value_error-true (ok b) h = h
  false_on_value_error-true (raise value_error) h = cc
  false_on_value_error-true (raise _) h = cc

  verify_membership-true :
      (entry_hash root : Text) (index size : ℤ) (proof : List Text)
      → verify_membership hs entry_hash index size proof root ≡ ok true
      → Accepted entry_hash index size proof root
  unfolding verify_membership Accepted
  verify_membership-true entry_hash root index size proof h =
      elim (Bool-cases (ltb_ℤ index (pos 0) || (ltb_ℤ size (pos 1) || leb_ℤ size index))) [
        | inl refused ↦ cc (rw refused at h)
        | inr fine ↦
            let run = false_on_value_error-true _ (rw fine at h) in
            let (leaf, decoded, h1) = >>=-eq-ok (from_hex entry_hash) _ run in
            let (siblings, path_lem, h2) = >>=-eq-ok (map_result from_hex proof) _ h1 in
            let (node, reached, same) = reaches_root-true _ root (ok_inj h2) in
            (leaf, siblings, node, decoded, path_lem, reached, same)
      ]

  -- The byte strings that `verify_membership` hashes: the leaf, and the nodes of the loop.
  unfoldable pub HashedInProof : Text → ℤ → ℤ → List Text → Bytes → Type 0
  HashedInProof entry_hash index size proof m =
      (leaf : Bytes) × (siblings : List Bytes) × (from_hex entry_hash ≡ ok leaf)
      × (map_result from_hex proof ≡ ok siblings)
      × ((m ≡ 0 ∷ leaf)
          ⊎ HashedInClimb hs (leaf_hash hs leaf) (pos_part index) (pos_part size - 1) siblings m)

  -- Two accepted proofs for one index, size and root are about the same leaf, or two different byte
  -- strings that are hashed when the two are checked have one digest.
  pub accepted_agree :
      (x y root : Text) (index size : ℤ) (proof other : List Text)
      → verify_membership hs x index size proof root ≡ ok true
      → verify_membership hs y index size other root ≡ ok true
      → (from_hex x ≡ from_hex y)
        ⊎ CollisionIn hs
            (λ m. HashedInProof x index size proof m ⊎ HashedInProof y index size other m)
  unfolding Accepted HashedInProof
  accepted_agree x y top index size proof other hx hy =
      let (a, p, u, da, pa, ra, ua) = verify_membership-true x top index size proof hx in
      let (b, q, v, db, pb, rb, vb) = verify_membership-true y top index size other hy in
      let fn = pos_part index in
      let sn = pos_part size - 1 in
      let tops : u ≡ v =
        hex_inj u v (climb-IsBytes hs fn sn _ u p (leaf_hash-digest hs a).1 ra)
          (climb-IsBytes hs fn sn _ v q (leaf_hash-digest hs b).1 rb) (ua ∙ sym vb) in
      elim (climb_inj hs _ fn sn (leaf_hash hs a) (leaf_hash hs b) v p q
        (λ m h. inl (a, p, da, pa, inr h)) (λ m h. inr (b, q, db, pb, inr h))
        (leaf_hash-digest hs a).0 (leaf_hash-digest hs b).0 (ra ∙ ap (λ r. some (r, 0)) tops) rb) [
          | inl same ↦
              elim (leaf_hash_agree hs _ a b (inl (a, p, da, pa, inl refl))
                (inr (b, q, db, pb, inl refl)) same) [
                  | inl leaves ↦ inl (da ∙ ap ok leaves ∙ sym db)
                  | inr found ↦ inr found
                ]
          | inr found ↦ inr found
        ]

  -- An accepted proof against the root of a batch is about the entry at its index: the batch has a
  -- `membership_proof` for that entry, and the text that was given decodes to the bytes of the
  -- entry, or two different byte strings that `verify_membership` hashes for the proof that was
  -- given and for that one have one SHA-256 digest.
  pub verify_membership-batch_root :
      (entry_hashes : List Text) (n : ℕ) (x : Text) (proof : List Text) {entry_hash root : Text}
      → get_elem? entry_hashes n ≡ some entry_hash
      → batch_root hs entry_hashes ≡ ok root
      → verify_membership hs x (pos n) (pos (length entry_hashes)) proof root ≡ ok true
      → (honest : List Text) × (membership_proof hs entry_hashes (pos n) ≡ ok honest)
        × ((from_hex x ≡ from_hex entry_hash)
            ⊎ CollisionIn hs (λ m.
              HashedInProof x (pos n) (pos (length entry_hashes)) proof m
              ⊎ HashedInProof entry_hash (pos n) (pos (length entry_hashes)) honest m))
  verify_membership-batch_root entry_hashes n x proof {entry_hash} {root} found rooted accepted =
      let (honest, made, passes) =
        verify_membership-membership_proof hs entry_hashes n found rooted in
      (
        honest,
        made,
        accepted_agree x entry_hash root (pos n) (pos (length entry_hashes)) proof honest accepted
            passes,
      )
