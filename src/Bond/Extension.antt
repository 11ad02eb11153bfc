-- ===== src/Bond/Extension.antt =====
-- `NonExtensionProof` of src/waxseal/domain/bond.py, against a writer whose newer checkpoint covers
-- the entries of the older one and more.
use waxseal.Base.{
  zero, ◌∙◌, get_elem?, ◌++◌, ok_inj, arith, inr, some, ◌≢◌, value_error, refl, false, ◌∷◌, Bytes,
  ok, ◌≡◌, sym, text_eq_iff, Option, text_eq, ◌||◌, ap, none, Bool-cases, >>=-eq-ok, ◌<◌, List, ℕ,
  suc, subst, raise_if, length, Text, true, ◌⊎◌, [], inl,
}
use waxseal.Anchoring.{root, batch_root}
use waxseal.Anchoring.Proofs.{membership_proof, verify_membership}
use waxseal.Anchoring.Proofs.Sound.{HashedInProof, verify_membership-batch_root}
use waxseal.Base.Int.{◌+ℤ◌, suc-+ℤ, eq_ℤ, pos, ℤ, leb_ℤ, eq_ℤ_iff, ltb_ℤ, negsuc}
use waxseal.Bond.{
  leaf_in, divergence_holds, is_empty, validate_non_extension, DivergentLeaf, NonExtensionProof,
}
use waxseal.Bytes.Hex.{from_hex}
use waxseal.Checkpoint.{half_bound, root_or, new_checkpoint, last_item, checkpoint_for, Checkpoint}
use waxseal.Digest.{widen, Hashes, CollisionIn}

get_elem?-append :
    (xs ys : List Text) (n : ℕ)
    → n < length xs
    → (x : Text) × (get_elem? xs n ≡ some x) × (get_elem? (xs ++ ys) n ≡ some x)
get_elem?-append [] ys n h = absurd (omega (arith, h))
get_elem?-append (x ∷ xs) ys zero h = (x, refl, refl)
get_elem?-append (x ∷ xs) ys (suc n) h = get_elem?-append xs ys n (omega (arith, h))

-- What the tests of `validate` have ruled out.
validate_non_extension-none :
    (p : NonExtensionProof)
    → validate_non_extension p ≡ none
    → (p.in_older.index ≡ p.in_newer.index) × (p.in_older.entry_hash ≢ p.in_newer.entry_hash)
unfolding validate_non_extension
validate_non_extension-none p h =
    elim (Bool-cases (is_empty p.older_signature || is_empty p.newer_signature)) [
      | inl bare ↦ cc (rw bare at h)
      | inr signed ↦ elim (Bool-cases (leb_ℤ p.newer.seq p.older.seq)) [
        | inl back ↦ cc (rw (signed, back) at h)
        | inr on ↦ elim (Bool-cases (eq_ℤ p.in_older.index p.in_newer.index)) [
          | inr apart ↦ cc (rw (signed, on, apart) at h)
          | inl same ↦ elim (Bool-cases (ltb_ℤ p.older.seq p.in_older.index)) [
            | inl outside ↦ cc (rw (signed, on, same, outside) at h)
            | inr within ↦ elim (Bool-cases (text_eq p.in_older.entry_hash p.in_newer.entry_hash)) [
              | inl agree ↦ cc (rw (signed, on, same, within, agree) at h)
              | inr differ ↦ (
                (eq_ℤ_iff p.in_older.index p.in_newer.index).0 same,
                λ e. cc (sym differ ∙ (text_eq_iff _ _).1 e),
              )
            ]
          ]
        ]
      ]
    ]

-- An index that the range tests of `verify_membership` let through.
in_range :
    (index : ℤ) (size : ℕ)
    → (ltb_ℤ index (pos 0) || (ltb_ℤ (pos size) (pos 1) || leb_ℤ (pos size) index)) ≡ false
    → (n : ℕ) × (index ≡ pos n) × (n < size)
in_range (pos n) size h = (n, refl, ground (arith, h))
in_range (negsuc n) size h = absurd (ground (arith, h))

module _ (hs : Hashes) where
  checkpoint_for-ok :
      (xs : List Text) (agg : Option Text) (epoch : Option ℤ) {c : Checkpoint}
      → checkpoint_for hs xs agg epoch none ≡ ok c
      → (c.seq +ℤ pos 1 ≡ pos (length xs)) × (batch_root hs xs ≡ ok c.root)
  unfolding checkpoint_for root_or new_checkpoint
  checkpoint_for-ok [] agg epoch h = cc
  checkpoint_for-ok (x ∷ xs) agg epoch h =
      let (last, _, h1) = >>=-eq-ok (last_item (x ∷ xs)) _ h in
      let (top, rooted, h2) = >>=-eq-ok (batch_root hs (x ∷ xs)) _ h1 in
      let (_, _, h3) = >>=-eq-ok (raise_if (half_bound agg epoch) value_error) _ h2 in
      let made = ok_inj h3 in
      (ap (λ c. c.seq +ℤ pos 1) (sym made) ∙ suc-+ℤ (length xs), rooted ∙ ap (λ c. ok c.root) made)

  verify_membership-in_range :
      (entry_hash root : Text) (index : ℤ) (size : ℕ) (proof : List Text)
      → verify_membership hs entry_hash index (pos size) proof root ≡ ok true
      → (n : ℕ) × (index ≡ pos n) × (n < size)
  unfolding verify_membership
  verify_membership-in_range entry_hash root index size proof h =
      elim (Bool-cases
        (ltb_ℤ index (pos 0) || (ltb_ℤ (pos size) (pos 1) || leb_ℤ (pos size) index))) [
          | inl refused ↦ cc (rw refused at h)
          | inr fine ↦ in_range index size fine
        ]

  divergence_holds-true :
      (p : NonExtensionProof)
      → divergence_holds hs p ≡ ok true
      → (leaf_in hs p.in_older p.older ≡ ok true) × (leaf_in hs p.in_newer p.newer ≡ ok true)
  unfolding divergence_holds
  divergence_holds-true p h =
      let (found, older, h1) = >>=-eq-ok (leaf_in hs p.in_older p.older) _ h in
      elim (Bool-cases found) [
        | inl held ↦ (older ∙ ap ok held, rw held at h1)
        | inr fails ↦ cc (rw fails at h1)
      ]

  -- The byte strings that `verify_membership` hashes for a leaf of a proof, and for the proof that
  -- `membership_proof` makes for the entry at its index.
  unfoldable pub HashedForLeaf : List Text → DivergentLeaf → Bytes → Type 0
  HashedForLeaf entry_hashes leaf m =
      HashedInProof hs leaf.entry_hash leaf.index (pos (length entry_hashes)) leaf.proof m
      ⊎ ((n : ℕ) × (entry_hash : Text) × (honest : List Text) × (leaf.index ≡ pos n)
          × (get_elem? entry_hashes n ≡ some entry_hash)
          × (membership_proof hs entry_hashes (pos n) ≡ ok honest)
          × HashedInProof hs entry_hash (pos n) (pos (length entry_hashes)) honest m)

  -- A leaf that checks against the root of a batch stands for the entry at its index.
  leaf-batch_root :
      (entry_hashes : List Text) (leaf : DivergentLeaf) (n : ℕ) {entry_hash root : Text}
      → leaf.index ≡ pos n
      → get_elem? entry_hashes n ≡ some entry_hash
      → batch_root hs entry_hashes ≡ ok root
      → verify_membership hs leaf.entry_hash leaf.index (pos (length entry_hashes)) leaf.proof root
        ≡ ok true
      → (from_hex leaf.entry_hash ≡ from_hex entry_hash)
        ⊎ CollisionIn hs (HashedForLeaf entry_hashes leaf)
  unfolding HashedForLeaf
  leaf-batch_root entry_hashes leaf n {entry_hash} at_n found rooted held =
      let (honest, made, answer) =
        verify_membership-batch_root hs entry_hashes n leaf.entry_hash leaf.proof found rooted
          (rw at_n at held) in
      elim answer [
        | inl same ↦ inl same
        | inr collision ↦ inr (
            widen
              (λ m h. elim h [
                | inl given ↦ inl (
                    subst
                      (λ z.
                        HashedInProof hs leaf.entry_hash z (pos (length entry_hashes)) leaf.proof m)
                      (sym at_n) given)
                | inr other ↦ inr (n, entry_hash, honest, at_n, found, made, other)
              ])
              collision)
      ]

  -- A non-extension proof that is admissible and whose two leaves check, against a writer whose
  -- newer checkpoint covers the entries of the older one and then more: its two entry hashes are
  -- different texts for the same bytes, or two different byte strings that `verify_membership`
  -- hashes for its two leaves, and for the writer's own proofs at their index, have one SHA-256
  -- digest.
  pub divergence_holds-checkpoint_for :
      (p : NonExtensionProof) (entry_hashes later : List Text) (agg agg' : Option Text)
      (epoch epoch' : Option ℤ)
      → checkpoint_for hs entry_hashes agg epoch none ≡ ok p.older
      → checkpoint_for hs (entry_hashes ++ later) agg' epoch' none ≡ ok p.newer
      → validate_non_extension p ≡ none
      → divergence_holds hs p ≡ ok true
      → (p.in_older.entry_hash ≢ p.in_newer.entry_hash)
        × ((from_hex p.in_older.entry_hash ≡ from_hex p.in_newer.entry_hash)
            ⊎ CollisionIn hs (λ m.
              HashedForLeaf entry_hashes p.in_older m
              ⊎ HashedForLeaf (entry_hashes ++ later) p.in_newer m))
  unfolding leaf_in
  divergence_holds-checkpoint_for p entry_hashes later agg agg' epoch epoch' older newer valid
        holds =
      let (old_size, old_root) = checkpoint_for-ok entry_hashes agg epoch older in
      let (new_size, new_root) = checkpoint_for-ok (entry_hashes ++ later) agg' epoch' newer in
      let (one_index, differ) = validate_non_extension-none p valid in
      let (in_old, in_new) = divergence_holds-true p holds in
      let in_old' : verify_membership hs p.in_older.entry_hash p.in_older.index
            (pos (length entry_hashes)) p.in_older.proof p.older.root
          ≡ ok true =
        rw old_size at in_old in
      let (n, at_n, below) =
        verify_membership-in_range p.in_older.entry_hash p.older.root p.in_older.index
          (length entry_hashes) p.in_older.proof in_old' in
      let (x, was, still) = get_elem?-append entry_hashes later n below in
      (
        differ,
        elim (leaf-batch_root entry_hashes p.in_older n at_n was old_root in_old') [
          | inr found ↦ inr (widen (λ m h. inl h) found)
          | inl old_leaf ↦
              elim (leaf-batch_root (entry_hashes ++ later) p.in_newer n (sym one_index ∙ at_n)
                still new_root (rw new_size at in_new)) [
                  | inr found ↦ inr (widen (λ m h. inr h) found)
                  | inl new_leaf ↦ inl (old_leaf ∙ sym new_leaf)
                ]
        ],
      )
