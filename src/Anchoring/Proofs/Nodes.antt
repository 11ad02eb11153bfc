-- ===== src/Anchoring/Proofs/Nodes.antt =====
-- The nodes of the trees of src/waxseal/domain/anchoring.py that two runs of a verifier hash.
use waxseal.Base.{
  sym, Bytes, ◌≡◌, ap, arith, length, ◌∷◌, length-append, inl, inr, ◌⊎◌, ◌++◌, ◌∙◌, append_inj,
}
use waxseal.Anchoring.{pair_hash}
use waxseal.Anchoring.Tree.{pair_hash_agree}
use waxseal.Digest.{digest_agree, Hashes, CollisionIn}

-- Nodes of one length, with whatever sibling on their left.
append_suffix_inj : (s a t b : Bytes) → length a ≡ length b → s ++ a ≡ t ++ b → (s ≡ t) × (a ≡ b)
append_suffix_inj s a t b l e =
    let sizes : length s ≡ length t =
      omega (arith, ap length e, length-append s a, length-append t b, l) in
    append_inj s t sizes e

module _ (hs : Hashes) (M : Bytes → Type 0) where
  -- Both parts of a node, where its right halves have one length.
  pub pair_both :
      (s a t b : Bytes)
      → M (1 ∷ (s ++ a))
      → M (1 ∷ (t ++ b))
      → length a ≡ 32
      → length b ≡ 32
      → pair_hash hs s a ≡ pair_hash hs t b
      → ((s ≡ t) × (a ≡ b)) ⊎ CollisionIn hs M
  unfolding pair_hash
  pair_both s a t b ma mb la lb e = elim (digest_agree hs M (1 ∷ (s ++ a)) (1 ∷ (t ++ b)) ma mb e) [
    | inl same ↦ inl (append_suffix_inj s a t b (la ∙ sym lb) (cc same))
    | inr found ↦ inr found
  ]

  pub pair_right :
      (s a t b : Bytes)
      → M (1 ∷ (s ++ a))
      → M (1 ∷ (t ++ b))
      → length a ≡ 32
      → length b ≡ 32
      → pair_hash hs s a ≡ pair_hash hs t b
      → (a ≡ b) ⊎ CollisionIn hs M
  pair_right s a t b ma mb la lb e = elim (pair_both s a t b ma mb la lb e) [
    | inl (_, same) ↦ inl same
    | inr found ↦ inr found
  ]

  pub pair_left :
      (a s b t : Bytes)
      → M (1 ∷ (a ++ s))
      → M (1 ∷ (b ++ t))
      → length a ≡ 32
      → length b ≡ 32
      → pair_hash hs a s ≡ pair_hash hs b t
      → (a ≡ b) ⊎ CollisionIn hs M
  pair_left a s b t ma mb la lb e = elim (pair_hash_agree hs M a s b t ma mb (la ∙ sym lb) e) [
    | inl (same, _) ↦ inl same
    | inr found ↦ inr found
  ]
