-- ===== src/Anchoring/Proofs/Rounds.antt =====
-- The rounds of the loop of `verify_membership` in src/waxseal/domain/anchoring.py, and what two runs
-- of it on one index and size have in common.
use waxseal.Base.{
  some_inj, subst, ◌∙◌, [], Bytes, refl, some, inl, ℕ, ◌∷◌, inr, ap, ◌⊎◌, ==_iff, true, Bool,
  Bool-cases, false, none, ◌/◌, sym, length, ◌==◌, ◌≢◌, ◌++◌, IsBytes, if◌then◌else◌, ◌≡◌, List,
}
use waxseal.Anchoring.{pair_hash, leaf_hash}
use waxseal.Anchoring.Proofs.{climb, halve_to_odd, is_odd}
use waxseal.Anchoring.Proofs.Nodes.{pair_left, pair_right}
use waxseal.Digest.{CollisionIn, Hashes}

module _ (hs : Hashes) where
  pub leaf_hash-digest : (a : Bytes) → (length (leaf_hash hs a) ≡ 32) × IsBytes (leaf_hash hs a)
  unfolding leaf_hash
  leaf_hash-digest a = (hs.length-sha256 _, hs.sha256-IsBytes _)

  -- A node with the sibling on its left or on its right.
  abbrev combine : Bool → Bytes → Bytes → Bytes
  combine true sibling node = pair_hash hs sibling node
  combine false sibling node = pair_hash hs node sibling

  combine-digest :
      (left : Bool) (s a : Bytes) → (length (combine left s a) ≡ 32) × IsBytes (combine left s a)
  unfolding pair_hash
  combine-digest true s a = (hs.length-sha256 _, hs.sha256-IsBytes _)
  combine-digest false s a = (hs.length-sha256 _, hs.sha256-IsBytes _)

  -- The byte string that is hashed for it.
  abbrev message : Bool → Bytes → Bytes → Bytes
  message true sibling node = 1 ∷ (sibling ++ node)
  message false sibling node = 1 ∷ (node ++ sibling)

  -- The byte strings that the loop of `verify_membership` hashes, round by round.
  unfoldable pub HashedInClimb : Bytes → ℕ → ℕ → List Bytes → Bytes → Type 0
  HashedInClimb node fn sn [] m = ⊥
  HashedInClimb node fn sn (sibling ∷ siblings) m =
      let (fn', sn') = halve_to_odd fn (fn / 2) (sn / 2) in
      let from_left = HashedInClimb (pair_hash hs sibling node) (fn / 2) (sn / 2) siblings m in
      let from_edge = HashedInClimb (pair_hash hs sibling node) (fn' / 2) (sn' / 2) siblings m in
      let from_right = HashedInClimb (pair_hash hs node sibling) (fn / 2) (sn / 2) siblings m in
      if sn == 0
      then ⊥
      else if is_odd fn
      then (m ≡ 1 ∷ (sibling ++ node)) ⊎ from_left
      else if fn == sn
      then (m ≡ 1 ∷ (sibling ++ node)) ⊎ from_edge
      else ((m ≡ 1 ∷ (node ++ sibling)) ⊎ from_right)

  -- The two numbers alone decide what a round of the loop does.
  data Round (fn sn : ℕ) : Type 0 where
    over :
        ((node sibling : Bytes) (rest : List Bytes) → climb hs node fn sn (sibling ∷ rest) ≡ none)
        → Round fn sn
    goes_on :
        (left : Bool) (fn' sn' : ℕ)
        → sn ≢ 0
        → ((node sibling : Bytes) (rest : List Bytes)
            → climb hs node fn sn (sibling ∷ rest)
              ≡ climb hs (combine left sibling node) fn' sn' rest)
        → ((node sibling : Bytes) (rest : List Bytes) (m : Bytes)
            → (m ≡ message left sibling node)
              ⊎ HashedInClimb (combine left sibling node) fn' sn' rest m
            → HashedInClimb node fn sn (sibling ∷ rest) m)
        → Round fn sn

  climb-Round : (fn sn : ℕ) → Round fn sn
  unfolding climb HashedInClimb
  climb-Round fn sn = elim (Bool-cases (sn == 0)) [
    | inl last ↦ over (λ node sibling rest. rw last)
    | inr more ↦
        let left_over : sn ≢ 0 = λ e. cc (sym more ∙ (==_iff sn 0).1 e) in
        elim (Bool-cases (is_odd fn)) [
          | inl odd ↦
              goes_on true (fn / 2) (sn / 2) left_over (λ node sibling rest. rw (more, odd))
                (λ node sibling rest m h. rw (more, odd) h)
          | inr even ↦ elim (Bool-cases (fn == sn)) [
            | inl edge ↦
                goes_on true ((halve_to_odd fn (fn / 2) (sn / 2)).0 / 2)
                  ((halve_to_odd fn (fn / 2) (sn / 2)).1 / 2) left_over
                  (λ node sibling rest. rw (more, even, edge))
                  (λ node sibling rest m h. rw (more, even, edge) h)
            | inr inside ↦
                goes_on false (fn / 2) (sn / 2) left_over
                  (λ node sibling rest. rw (more, even, inside))
                  (λ node sibling rest m h. rw (more, even, inside) h)
          ]
        ]
  ]

  -- What a run with nothing left to read returns.
  climb-stop :
      (fn sn : ℕ) (node top : Bytes)
      → climb hs node fn sn [] ≡ some (top, 0)
      → (node ≡ top) × (sn ≡ 0)
  unfolding climb
  climb-stop fn sn node top e =
      let both : (node, sn) ≡ (top, 0) = some_inj e in
      (ap (λ (p : Bytes × ℕ). p.0) both, ap (λ (p : Bytes × ℕ). p.1) both)

  pub climb-IsBytes :
      (fn sn : ℕ) (node top : Bytes) (path : List Bytes)
      → IsBytes node
      → climb hs node fn sn path ≡ some (top, 0)
      → IsBytes top
  climb-IsBytes fn sn node top [] bytes e = subst IsBytes (climb-stop fn sn node top e).0 bytes
  climb-IsBytes fn sn node top (s ∷ path) bytes e = elim (climb-Round fn sn) [
    | over stops ↦ cc (sym (stops node s path) ∙ e)
    | goes_on left fn' sn' _ step _ ↦
        climb-IsBytes fn' sn' (combine left s node) top path (combine-digest left s node).1
          (sym (step node s path) ∙ e)
  ]

module _ (hs : Hashes) (M : Bytes → Type 0) where
  combine_inj :
      (left : Bool) (s a t b : Bytes)
      → M (message hs left s a)
      → M (message hs left t b)
      → length a ≡ 32
      → length b ≡ 32
      → combine hs left s a ≡ combine hs left t b
      → (a ≡ b) ⊎ CollisionIn hs M
  combine_inj true s a t b ma mb la lb e = pair_right hs M s a t b ma mb la lb e
  combine_inj false s a t b ma mb la lb e = pair_left hs M a s b t ma mb la lb e

  -- Two runs on one index and size that reach one top started from one node.
  pub climb_inj :
      (fn sn : ℕ) (a b top : Bytes) (path other : List Bytes)
      → ((m : Bytes) → HashedInClimb hs a fn sn path m → M m)
      → ((m : Bytes) → HashedInClimb hs b fn sn other m → M m)
      → length a ≡ 32
      → length b ≡ 32
      → climb hs a fn sn path ≡ some (top, 0)
      → climb hs b fn sn other ≡ some (top, 0)
      → (a ≡ b) ⊎ CollisionIn hs M
  climb_inj fn sn a b top [] [] ca cb la lb ea eb =
      inl ((climb-stop hs fn sn a top ea).0 ∙ sym (climb-stop hs fn sn b top eb).0)
  climb_inj fn sn a b top [] (t ∷ other) ca cb la lb ea eb = elim (climb-Round hs fn sn) [
    | over stops ↦ cc (sym (stops b t other) ∙ eb)
    | goes_on _ _ _ more _ _ ↦ absurd (more (climb-stop hs fn sn a top ea).1)
  ]
  climb_inj fn sn a b top (s ∷ path) [] ca cb la lb ea eb = elim (climb-Round hs fn sn) [
    | over stops ↦ cc (sym (stops a s path) ∙ ea)
    | goes_on _ _ _ more _ _ ↦ absurd (more (climb-stop hs fn sn b top eb).1)
  ]
  climb_inj fn sn a b top (s ∷ path) (t ∷ other) ca cb la lb ea eb = elim (climb-Round hs fn sn) [
    | over stops ↦ cc (sym (stops a s path) ∙ ea)
    | goes_on left fn' sn' more step reads ↦
        elim (climb_inj fn' sn' (combine hs left s a) (combine hs left t b) top path other
          (λ m h. ca m (reads a s path m (inr h))) (λ m h. cb m (reads b t other m (inr h)))
          (combine-digest hs left s a).0 (combine-digest hs left t b).0 (sym (step a s path) ∙ ea)
          (sym (step b t other) ∙ eb)) [
            | inl same ↦
                combine_inj left s a t b (ca _ (reads a s path _ (inl refl)))
                  (cb _ (reads b t other _ (inl refl))) la lb same
            | inr found ↦ inr found
          ]
  ]
