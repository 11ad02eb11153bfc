-- ===== src/Anchoring/Proofs/Turns.antt =====
-- The loop of `verify_consistency` in src/waxseal/domain/anchoring.py as a list of turns, which the
-- two numbers decide, and what two runs on one list of turns have in common.
use waxseal.Base.{
  Bool-cases, if◌then◌else◌, Bytes, refl, ◌++◌, some, inr, Bool, some_inj, inl, none, ap, [], ℕ,
  true, length, ◌==◌, ◌≡◌, ap₂, List, false, ◌∙◌, sym, ◌∷◌, ◌/◌, All, ◌||◌, ==_iff, ◌⊎◌, ◌≢◌,
}
use waxseal.Anchoring.{pair_hash}
use waxseal.Anchoring.Proofs.{halve_to_odd, climb_both, is_odd}
use waxseal.Digest.{Hashes}

-- The sibling stands on the left of both nodes.
turn : ℕ → ℕ → Bool
turn fn sn = is_odd fn || fn == sn

next : ℕ → ℕ → ℕ × ℕ
unfolding turn
next fn sn =
    let both = halve_to_odd fn fn sn in
    if turn fn sn then (both.0 / 2, both.1 / 2) else (fn / 2, sn / 2)

-- The turns of a run that ends where the second number is 0.
pub Turns : ℕ → ℕ → List Bool → Type 0
unfolding turn next
Turns fn sn [] = sn ≡ 0
Turns fn sn (t ∷ ts) = (sn ≢ 0) × (t ≡ turn fn sn) × Turns (next fn sn).0 (next fn sn).1 ts

pub Turns-unique : (fn sn : ℕ) (ts us : List Bool) → Turns fn sn ts → Turns fn sn us → ts ≡ us
unfolding Turns
Turns-unique fn sn [] [] h k = refl
Turns-unique fn sn [] (u ∷ us) h (more, _, _) = absurd (more h)
Turns-unique fn sn (t ∷ ts) [] (more, _, _) k = absurd (more k)
Turns-unique fn sn (t ∷ ts) (u ∷ us) (_, e, h) (_, e', k) =
    ap₂ (λ x xs. x ∷ xs) (e ∙ sym e') (Turns-unique (next fn sn).0 (next fn sn).1 ts us h k)

-- A sibling for each turn.
abbrev pub Siblings : List Bool → Type 0
Siblings [] = Unit {0}
Siblings (t ∷ ts) = Bytes × Siblings ts

abbrev pub AllDigests : (ts : List Bool) → Siblings ts → Type 0
AllDigests [] w = Unit {0}
AllDigests (t ∷ ts) (s, w) = (length s ≡ 32) × AllDigests ts w

-- The siblings on the left are the same.
abbrev pub Agree : (ts : List Bool) → Siblings ts → Siblings ts → Type 0
Agree [] v w = Unit {0}
Agree (true ∷ ts) (s, v) (t, w) = (s ≡ t) × Agree ts v w
Agree (false ∷ ts) (s, v) (t, w) = Agree ts v w

module _ (hs : Hashes) where
  -- The old node and the new node after the turns.
  unfoldable pub old_of : (ts : List Bool) → Siblings ts → Bytes → Bytes
  old_of [] w node = node
  old_of (true ∷ ts) (s, w) node = old_of ts w (pair_hash hs s node)
  old_of (false ∷ ts) (s, w) node = old_of ts w node

  unfoldable pub new_of : (ts : List Bool) → Siblings ts → Bytes → Bytes
  new_of [] w node = node
  new_of (true ∷ ts) (s, w) node = new_of ts w (pair_hash hs s node)
  new_of (false ∷ ts) (s, w) node = new_of ts w (pair_hash hs node s)

  pub length-pair_hash : (a b : Bytes) → length (pair_hash hs a b) ≡ 32
  unfolding pair_hash
  length-pair_hash a b = hs.length-sha256 _

  pub old_of-Agree :
      (ts : List Bool) (v w : Siblings ts) (node : Bytes)
      → Agree ts v w
      → old_of ts v node ≡ old_of ts w node
  unfolding old_of
  old_of-Agree [] v w node h = refl
  old_of-Agree (true ∷ ts) (s, v) (t, w) node (same, h) =
      ap (λ x. old_of ts v (pair_hash hs x node)) same ∙ old_of-Agree ts v w (pair_hash hs t node) h
  old_of-Agree (false ∷ ts) (s, v) (t, w) node h = old_of-Agree ts v w node h

  -- The byte strings that are hashed for the old node, and for the new one, in the turns.
  unfoldable pub HashedOld : (ts : List Bool) → Siblings ts → Bytes → Bytes → Type 0
  HashedOld [] w node m = ⊥
  HashedOld (true ∷ ts) (s, w) node m =
      (m ≡ 1 ∷ (s ++ node)) ⊎ HashedOld ts w (pair_hash hs s node) m
  HashedOld (false ∷ ts) (s, w) node m = HashedOld ts w node m

  unfoldable pub HashedNew : (ts : List Bool) → Siblings ts → Bytes → Bytes → Type 0
  HashedNew [] w node m = ⊥
  HashedNew (true ∷ ts) (s, w) node m =
      (m ≡ 1 ∷ (s ++ node)) ⊎ HashedNew ts w (pair_hash hs s node) m
  HashedNew (false ∷ ts) (s, w) node m =
      (m ≡ 1 ∷ (node ++ s)) ⊎ HashedNew ts w (pair_hash hs node s) m

  -- The byte strings that the loop of `verify_consistency` hashes.
  unfoldable pub HashedInBoth : Bytes → Bytes → ℕ → ℕ → List Bytes → Bytes → Type 0
  HashedInBoth fr sr fn sn [] m = ⊥
  HashedInBoth fr sr fn sn (s ∷ siblings) m =
      let (fn', sn') = halve_to_odd fn fn sn in
      let from_left =
        HashedInBoth (pair_hash hs s fr) (pair_hash hs s sr) (fn' / 2) (sn' / 2) siblings m in
      let from_right = HashedInBoth fr (pair_hash hs sr s) (fn / 2) (sn / 2) siblings m in
      if sn == 0
      then ⊥
      else if is_odd fn || fn == sn
      then (m ≡ 1 ∷ (s ++ fr)) ⊎ ((m ≡ 1 ∷ (s ++ sr)) ⊎ from_left)
      else ((m ≡ 1 ∷ (sr ++ s)) ⊎ from_right)

  reads_left :
      (fr sr s : Bytes) (fn sn : ℕ) (rest : List Bytes) (m : Bytes)
      → (sn == 0) ≡ false
      → turn fn sn ≡ true
      → (m ≡ 1 ∷ (s ++ fr))
        ⊎ ((m ≡ 1 ∷ (s ++ sr))
            ⊎ HashedInBoth
                (pair_hash hs s fr)
                (pair_hash hs s sr)
                (next fn sn).0
                (next fn sn).1
                rest
                m)
      → HashedInBoth fr sr fn sn (s ∷ rest) m
  unfolding HashedInBoth turn next
  reads_left fr sr s fn sn rest m more left h = rw (more, left) (rw left at h)

  reads_right :
      (fr sr s : Bytes) (fn sn : ℕ) (rest : List Bytes) (m : Bytes)
      → (sn == 0) ≡ false
      → turn fn sn ≡ false
      → (m ≡ 1 ∷ (sr ++ s))
        ⊎ HashedInBoth fr (pair_hash hs sr s) (next fn sn).0 (next fn sn).1 rest m
      → HashedInBoth fr sr fn sn (s ∷ rest) m
  unfolding HashedInBoth turn next
  reads_right fr sr s fn sn rest m more right h = rw (more, right) (rw right at h)

  -- A run that ends with the second number at 0, as turns.
  unfoldable pub Turned : (fn sn : ℕ) → List Bytes → (fr sr F T : Bytes) → Type 0
  Turned fn sn path fr sr F T =
      (ts : List Bool) × (w : Siblings ts) × Turns fn sn ts
      × (old_of ts w fr ≡ F)
      × (new_of ts w sr ≡ T)
      × (All (λ s. length s ≡ 32) path → AllDigests ts w)
      × ((m : Bytes) → HashedOld ts w fr m ⊎ HashedNew ts w sr m → HashedInBoth fr sr fn sn path m)

  climb_both-next :
      (fr sr s : Bytes) (fn sn : ℕ) (rest : List Bytes)
      → climb_both hs fr sr fn sn (s ∷ rest) ≡ (
          if sn == 0
          then none
          else if turn fn sn
          then climb_both hs
              (pair_hash hs s fr)
              (pair_hash hs s sr)
              (next fn sn).0
              (next fn sn).1
              rest
          else climb_both hs fr (pair_hash hs sr s) (next fn sn).0 (next fn sn).1 rest)
  unfolding climb_both turn next
  climb_both-next fr sr s fn sn rest = elim (Bool-cases (is_odd fn || fn == sn)) [
    | inl left ↦ rw left
    | inr right ↦ rw right
  ]

  on_left :
      (fr sr s : Bytes) (fn sn : ℕ) (rest : List Bytes)
      → (sn == 0) ≡ false
      → turn fn sn ≡ true
      → climb_both hs fr sr fn sn (s ∷ rest)
        ≡ climb_both hs (pair_hash hs s fr) (pair_hash hs s sr) (next fn sn).0 (next fn sn).1 rest
  on_left fr sr s fn sn rest more left = climb_both-next fr sr s fn sn rest ∙ rw (more, left)

  on_right :
      (fr sr s : Bytes) (fn sn : ℕ) (rest : List Bytes)
      → (sn == 0) ≡ false
      → turn fn sn ≡ false
      → climb_both hs fr sr fn sn (s ∷ rest)
        ≡ climb_both hs fr (pair_hash hs sr s) (next fn sn).0 (next fn sn).1 rest
  on_right fr sr s fn sn rest more right = climb_both-next fr sr s fn sn rest ∙ rw (more, right)

  pub climb_both-Turned :
      (fn sn : ℕ) (path : List Bytes) (fr sr F T : Bytes)
      → climb_both hs fr sr fn sn path ≡ some (F, T, 0)
      → Turned fn sn path fr sr F T
  unfolding Turned climb_both Turns old_of new_of HashedOld HashedNew HashedInBoth
  climb_both-Turned fn sn [] fr sr F T e =
      let both : (fr, sr, sn) ≡ (F, T, 0) = some_inj e in
      (
        [],
        tt,
        ap (λ (p : Bytes × Bytes × ℕ). p.2) both,
        ap (λ (p : Bytes × Bytes × ℕ). p.0) both,
        ap (λ (p : Bytes × Bytes × ℕ). p.1) both,
        λ _. tt,
        λ m h. elim h [ inl x ↦ x | inr x ↦ x ],
      )
  climb_both-Turned fn sn (s ∷ path) fr sr F T e = elim (Bool-cases (sn == 0)) [
    | inl last ↦ cc (rw last at (sym (climb_both-next fr sr s fn sn path) ∙ e))
    | inr more ↦
        let left_over : sn ≢ 0 = λ z. cc (sym more ∙ (==_iff sn 0).1 z) in
        elim (Bool-cases (turn fn sn)) [
          | inl left ↦
              let (ts, w, h, o, n, d, c) =
                climb_both-Turned (next fn sn).0 (next fn sn).1 path (pair_hash hs s fr)
                  (pair_hash hs s sr) F T (sym (on_left fr sr s fn sn path more left) ∙ e) in
              (
                true ∷ ts,
                (s, w),
                (left_over, sym left, h),
                o,
                n,
                λ (a, b). (a, d b),
                λ m h. reads_left fr sr s fn sn path m more left (elim h [
                  | inl (inl e) ↦ inl e
                  | inl (inr x) ↦ inr (inr (c m (inl x)))
                  | inr (inl e) ↦ inr (inl e)
                  | inr (inr y) ↦ inr (inr (c m (inr y)))
                ]),
              )
          | inr right ↦
              let (ts, w, h, o, n, d, c) =
                climb_both-Turned (next fn sn).0 (next fn sn).1 path fr (pair_hash hs sr s) F T
                  (sym (on_right fr sr s fn sn path more right) ∙ e) in
              (
                false ∷ ts,
                (s, w),
                (left_over, sym right, h),
                o,
                n,
                λ (a, b). (a, d b),
                λ m h. reads_right fr sr s fn sn path m more right (elim h [
                  | inl x ↦ inr (c m (inl x))
                  | inr (inl e) ↦ inl e
                  | inr (inr y) ↦ inr (c m (inr y))
                ]),
              )
        ]
  ]
