-- ===== src/Anchoring/Proofs/Runs.antt =====
-- What two runs of the loop of `verify_consistency` in src/waxseal/domain/anchoring.py on one list of
-- turns have in common.
use waxseal.Base.{
  length, [], List, inl, inr, ap, ◌≡◌, ◌⊎◌, Bool, ◌∷◌, true, ◌∙◌, refl, false, sym, Bytes,
}
use waxseal.Anchoring.{pair_hash}
use waxseal.Anchoring.Proofs.Nodes.{pair_left, pair_both, pair_right}
use waxseal.Anchoring.Proofs.Turns.{
  old_of, length-pair_hash, HashedOld, HashedNew, new_of, AllDigests, Siblings, Agree,
}
use waxseal.Anchoring.Tree.{pair_hash_agree}
use waxseal.Digest.{Hashes, CollisionIn}

module _ (hs : Hashes) (M : Bytes → Type 0) where
  -- Runs that reach one new root start from one new node and read the same siblings on the left.
  pub new_of_inj :
      (ts : List Bool) (v w : Siblings ts) (a b : Bytes)
      → ((m : Bytes) → HashedNew hs ts v a m → M m)
      → ((m : Bytes) → HashedNew hs ts w b m → M m)
      → length a ≡ 32
      → length b ≡ 32
      → new_of hs ts v a ≡ new_of hs ts w b
      → ((a ≡ b) × Agree ts v w) ⊎ CollisionIn hs M
  unfolding new_of HashedNew
  new_of_inj [] v w a b cv cw la lb e = inl (e, tt)
  new_of_inj (true ∷ ts) (s, v) (t, w) a b cv cw la lb e =
      elim (new_of_inj ts v w (pair_hash hs s a) (pair_hash hs t b) (λ m h. cv m (inr h))
        (λ m h. cw m (inr h)) (length-pair_hash hs s a) (length-pair_hash hs t b) e) [
          | inr found ↦ inr found
          | inl (same, agree) ↦
              elim (pair_both hs M s a t b (cv _ (inl refl)) (cw _ (inl refl)) la lb same) [
                | inr found ↦ inr found
                | inl (siblings, nodes) ↦ inl (nodes, (siblings, agree))
              ]
        ]
  new_of_inj (false ∷ ts) (s, v) (t, w) a b cv cw la lb e =
      elim (new_of_inj ts v w (pair_hash hs a s) (pair_hash hs b t) (λ m h. cv m (inr h))
        (λ m h. cw m (inr h)) (length-pair_hash hs a s) (length-pair_hash hs b t) e) [
          | inr found ↦ inr found
          | inl (same, agree) ↦
              elim (pair_left hs M a s b t (cv _ (inl refl)) (cw _ (inl refl)) la lb same) [
                | inr found ↦ inr found
                | inl nodes ↦ inl (nodes, agree)
              ]
        ]

  -- Runs that reach one old root start from one old node.
  old_of_inj :
      (ts : List Bool) (v w : Siblings ts) (a b : Bytes)
      → ((m : Bytes) → HashedOld hs ts v a m → M m)
      → ((m : Bytes) → HashedOld hs ts w b m → M m)
      → length a ≡ 32
      → length b ≡ 32
      → old_of hs ts v a ≡ old_of hs ts w b
      → (a ≡ b) ⊎ CollisionIn hs M
  unfolding old_of HashedOld
  old_of_inj [] v w a b cv cw la lb e = inl e
  old_of_inj (true ∷ ts) (s, v) (t, w) a b cv cw la lb e =
      elim (old_of_inj ts v w (pair_hash hs s a) (pair_hash hs t b) (λ m h. cv m (inr h))
        (λ m h. cw m (inr h)) (length-pair_hash hs s a) (length-pair_hash hs t b) e) [
          | inr found ↦ inr found
          | inl same ↦ pair_right hs M s a t b (cv _ (inl refl)) (cw _ (inl refl)) la lb same
        ]
  old_of_inj (false ∷ ts) (s, v) (t, w) a b cv cw la lb e = old_of_inj ts v w a b cv cw la lb e

  -- The first element of a path is a digest, although the verifier does not ask for its length:
  -- one run has the siblings of an honest run, and reaches the old root that another one reaches.
  pub first-digest :
      (ts : List Bool) (v w u : Siblings ts) (p r : Bytes)
      → ((m : Bytes) → HashedOld hs ts v p m → M m)
      → ((m : Bytes) → HashedOld hs ts u r m → M m)
      → Agree ts v w
      → AllDigests ts w
      → AllDigests ts u
      → length r ≡ 32
      → old_of hs ts v p ≡ old_of hs ts u r
      → (length p ≡ 32) ⊎ CollisionIn hs M
  unfolding old_of HashedOld
  first-digest [] v w u p r cv cu agree dw du lr e = inl (ap length e ∙ lr)
  first-digest (true ∷ ts) (s, v) (t, w) (x, u) p r cv cu (same, agree) (lt, dw) (lx, du) lr e =
      elim (old_of_inj ts v u (pair_hash hs s p) (pair_hash hs x r) (λ m h. cv m (inr h))
        (λ m h. cu m (inr h)) (length-pair_hash hs s p) (length-pair_hash hs x r) e) [
          | inr found ↦ inr found
          | inl nodes ↦
              elim (pair_hash_agree hs M s p x r (cv _ (inl refl)) (cu _ (inl refl))
                (ap length same ∙ lt ∙ sym lx) nodes) [
                  | inr found ↦ inr found
                  | inl (_, parts) ↦ inl (ap length parts ∙ lr)
                ]
        ]
  first-digest (false ∷ ts) (s, v) (t, w) (x, u) p r cv cu agree (_, dw) (_, du) lr e =
      first-digest ts v w u p r cv cu agree dw du lr e
