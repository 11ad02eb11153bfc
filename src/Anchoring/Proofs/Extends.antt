-- ===== src/Anchoring/Proofs/Extends.antt =====
-- What an accepted consistency proof of src/waxseal/domain/anchoring.py says of two batches.

use Prim.Native.Nat.{bit_and}
use waxseal.Base.{
  sym, Bytes, ℕ, drop, ap, text_eq_iff, ◌==◌, some, subst, ◌≤◌, ◌∷◌, length, ◌∙◌, true, Bool-cases,
  ◌&&◌, ◌-◌, length-drop, none, [], All, ◌<◌, text_eq, Bool, arith, List, inr, ◌≡◌, &&-eq-true, inl,
  Option, ◌++◌, ◌⊎◌, length-append, take-append, if◌then◌else◌, ==_iff, false, take, refl,
}
use waxseal.Anchoring.{tree_hash, pair_hash}
use waxseal.Anchoring.Proofs.{
  check_path, reaches_both, drop_ones, check_consistency, consistency_at, climb_both,
}
use waxseal.Anchoring.Proofs.Both.{from_first, take_all}
use waxseal.Anchoring.Proofs.Consistent.{honest_run}
use waxseal.Anchoring.Proofs.Nodes.{pair_left}
use waxseal.Anchoring.Proofs.Paths.{consistency_at-All, check_path-from_first}
use waxseal.Anchoring.Proofs.Runs.{first-digest, new_of_inj}
use waxseal.Anchoring.Proofs.Turns.{
  Turns, HashedNew, new_of, Siblings, Turned, HashedOld, length-pair_hash, climb_both-Turned,
  HashedInBoth, old_of, old_of-Agree, Turns-unique, AllDigests,
}
use waxseal.Anchoring.Tree.{length-tree_at}
use waxseal.Digest.{Hashes, CollisionIn}

module _ (hs : Hashes) where
  -- An honest run on a list of turns, from one node to two roots.
  HonestRun : (q A T : Bytes) → (Bytes → Type 0) → List Bool → Type 0
  HonestRun q A T N ts =
      (w : Siblings ts) × AllDigests ts w
      × (old_of hs ts w q ≡ A)
      × (new_of hs ts w q ≡ T)
      × ((m : Bytes) → HashedOld hs ts w q m ⊎ HashedNew hs ts w q m → N m)

  honest_on :
      (fn sn : ℕ) (q : Bytes) (qs : List Bytes) (A T : Bytes) (ts : List Bool)
      → Turns fn sn ts
      → All (λ s. length s ≡ 32) qs
      → climb_both hs q q fn sn qs ≡ some (A, T, 0)
      → HonestRun q A T (HashedInBoth hs q q fn sn qs) ts
  unfolding Turned HonestRun
  honest_on fn sn q qs A T ts turns digests e =
      let (us, w, h, o, n, d, c) = climb_both-Turned hs fn sn qs q q A T e in
      let run : HonestRun q A T (HashedInBoth hs q q fn sn qs) us = (w, d digests, o, n, c) in
      subst (HonestRun q A T (HashedInBoth hs q q fn sn qs)) (Turns-unique fn sn us ts h turns) run

  -- The byte strings that a run on a whole path hashes.
  unfoldable pub HashedFrom : ℕ × ℕ → List Bytes → Bytes → Type 0
  HashedFrom (fn, sn) [] m = ⊥
  HashedFrom (fn, sn) (first ∷ siblings) m = HashedInBoth hs first first fn sn siblings m

  -- The byte strings that `verify_consistency` hashes for a path, after its three decodings.
  unfoldable pub HashedInCheck : ℕ → ℕ → Bytes → List Bytes → Bytes → Type 0
  HashedInCheck old_size new_size old_hash [] m = ⊥
  HashedInCheck old_size new_size old_hash (p ∷ ps) m =
      let numbers = drop_ones old_size (old_size - 1) (new_size - 1) in
      if old_size == new_size
      then ⊥
      else if bit_and old_size (old_size - 1) == 0
      then HashedFrom numbers (old_hash ∷ p ∷ ps) m
      else HashedFrom numbers (p ∷ ps) m

  -- The byte strings that a check of the tree's own path hashes.
  unfoldable pub HashedByOwn : ℕ → List Bytes → Bytes → Type 0
  HashedByOwn old_size leaves =
      HashedFrom (drop_ones old_size (old_size - 1) (length leaves - 1))
        (consistency_at hs (length leaves) old_size leaves false)

  reaches_both-true :
      (o : Option (Bytes × Bytes × ℕ)) (old new : Bytes)
      → reaches_both o old new ≡ true
      → o ≡ some (old, new, 0)
  unfolding reaches_both
  reaches_both-true none old new h = cc
  reaches_both-true (some (fr, sr, sn)) old new h =
      let (e, h1) = &&-eq-true (text_eq fr old) (text_eq sr new && (sn == 0)) h in
      let (e', h2) = &&-eq-true (text_eq sr new) (sn == 0) h1 in
      let same = (text_eq_iff fr old).0 e in
      let same' = (text_eq_iff sr new).0 e' in let last = (==_iff sn 0).0 h2 in cc

  -- A path that the checks accept, on sizes that differ.
  check_consistency-true :
      (m n : ℕ) (old new : Bytes) (path : List Bytes)
      → m < n
      → check_consistency hs m n old new path ≡ true
      → (whole : List Bytes) × (from_first hs (drop_ones m (m - 1) (n - 1)) whole
          ≡ some (old, new, 0))
        × ((w : Bytes)
            → HashedFrom (drop_ones m (m - 1) (n - 1)) whole w
            → HashedInCheck m n old path w)
  unfolding check_consistency HashedInCheck
  check_consistency-true m n old new [] h e =
      let differ : (m == n) ≡ false = ground (arith, h) in cc (rw differ at e)
  check_consistency-true m n old new (p ∷ ps) h e =
      let differ : (m == n) ≡ false = ground (arith, h) in
      let passed = λ (whole : List Bytes) (k : check_path hs m n old new whole ≡ true).
        reaches_both-true (from_first hs (drop_ones m (m - 1) (n - 1)) whole) old new
          (sym (check_path-from_first hs m n old new whole) ∙ k) in
      elim (Bool-cases (bit_and m (m - 1) == 0)) [
        | inl power ↦ (
          old ∷ p ∷ ps,
          passed (old ∷ p ∷ ps) (rw (differ, power) at e),
          λ w h. rw (differ, power) h,
        )
        | inr other ↦
            (p ∷ ps, passed (p ∷ ps) (rw (differ, other) at e), λ w h. rw (differ, other) h)
      ]

  check_consistency-same :
      (n : ℕ) (old new : Bytes) (path : List Bytes)
      → check_consistency hs n n old new path ≡ true
      → old ≡ new
  unfolding check_consistency
  check_consistency-same n old new [] e =
      let same : (n == n) ≡ true = ground arith in (text_eq_iff old new).0 (rw same at e)
  check_consistency-same n old new (p ∷ ps) e =
      let same : (n == n) ≡ true = ground arith in cc (rw same at e)

  length-tree_hash : (xs : List Bytes) → length (tree_hash hs xs) ≡ 32
  unfolding tree_hash
  length-tree_hash xs = length-tree_at hs (length xs) xs

module _ (hs : Hashes) (M : Bytes → Type 0) where
  -- Three runs on one list of turns, each from one node: one of them ends like the second in the
  -- new root, and like the third in the old root; the other two are honest.
  same_old :
      (ts : List Bool) (v w u : Siblings ts) (p q r : Bytes)
      → ((m : Bytes) → HashedNew hs ts v p m → M m)
      → ((m : Bytes) → HashedOld hs ts v p m → M m)
      → ((m : Bytes) → HashedNew hs ts w q m → M m)
      → ((m : Bytes) → HashedOld hs ts u r m → M m)
      → AllDigests ts w
      → AllDigests ts u
      → length q ≡ 32
      → length r ≡ 32
      → new_of hs ts v p ≡ new_of hs ts w q
      → old_of hs ts v p ≡ old_of hs ts u r
      → (old_of hs ts v p ≡ old_of hs ts w q) ⊎ CollisionIn hs M
  unfolding old_of new_of HashedOld HashedNew
  same_old [] v w u p q r cn co cw cu dw du lq lr new old = inl new
  same_old (true ∷ ts) (s, v) (t, w) (x, u) p q r cn co cw cu (lt, dw) (lx, du) lq lr new old =
      elim (new_of_inj hs M ts v w (pair_hash hs s p) (pair_hash hs t q) (λ m h. cn m (inr h))
        (λ m h. cw m (inr h)) (length-pair_hash hs s p) (length-pair_hash hs t q) new) [
          | inr found ↦ inr found
          | inl (nodes, agree) ↦
              inl (old_of-Agree hs ts v w (pair_hash hs s p) agree ∙ ap (old_of hs ts w) nodes)
        ]
  same_old (false ∷ ts) (s, v) (t, w) (x, u) p q r cn co cw cu (lt, dw) (lx, du) lq lr new old =
      elim (new_of_inj hs M ts v w (pair_hash hs p s) (pair_hash hs q t) (λ m h. cn m (inr h))
        (λ m h. cw m (inr h)) (length-pair_hash hs p s) (length-pair_hash hs q t) new) [
          | inr found ↦ inr found
          | inl (nodes, agree) ↦ elim (first-digest hs M ts v w u p r co cu agree dw du lr old) [
            | inr found ↦ inr found
            | inl lp ↦
                elim (pair_left hs M p s q t (cn _ (inl refl)) (cw _ (inl refl)) lp lq nodes) [
                  | inr found ↦ inr found
                  | inl same ↦ inl (old_of-Agree hs ts v w p agree ∙ ap (old_of hs ts w) same)
                ]
          ]
        ]

  -- The loop on an accepted path and on two honest ones.
  runs_agree :
      (fn sn : ℕ) (p q r : Bytes) (ps qs rs : List Bytes) (X Y A Z : Bytes)
      → ((m : Bytes) → HashedInBoth hs p p fn sn ps m → M m)
      → ((m : Bytes) → HashedInBoth hs q q fn sn qs m → M m)
      → ((m : Bytes) → HashedInBoth hs r r fn sn rs m → M m)
      → All (λ s. length s ≡ 32) (q ∷ qs)
      → All (λ s. length s ≡ 32) (r ∷ rs)
      → climb_both hs p p fn sn ps ≡ some (X, Y, 0)
      → climb_both hs q q fn sn qs ≡ some (A, Y, 0)
      → climb_both hs r r fn sn rs ≡ some (X, Z, 0)
      → (X ≡ A) ⊎ CollisionIn hs M
  unfolding Turned HonestRun
  runs_agree fn sn p q r ps qs rs X Y A Z cp cq cr (lq, dq) (lr, dr) ep eq er =
      let (ts, v, turns, ov, nv, _, cv) = climb_both-Turned hs fn sn ps p p X Y ep in
      let (w, dw, ow, nw, cw) = honest_on hs fn sn q qs A Y ts turns dq eq in
      let (u, du, ou, _, cu) = honest_on hs fn sn r rs X Z ts turns dr er in
      elim (same_old ts v w u p q r (λ m h. cp m (cv m (inr h))) (λ m h. cp m (cv m (inl h)))
        (λ m h. cq m (cw m (inr h))) (λ m h. cr m (cu m (inl h))) dw du lq lr (nv ∙ sym nw)
        (ov ∙ sym ou)) [ inr found ↦ inr found | inl same ↦ inl (sym ov ∙ same ∙ ow) ]

  paths_agree :
      (numbers : ℕ × ℕ) (path honest other : List Bytes) (X Y A Z : Bytes)
      → ((m : Bytes) → HashedFrom hs numbers path m → M m)
      → ((m : Bytes) → HashedFrom hs numbers honest m → M m)
      → ((m : Bytes) → HashedFrom hs numbers other m → M m)
      → All (λ s. length s ≡ 32) honest
      → All (λ s. length s ≡ 32) other
      → from_first hs numbers path ≡ some (X, Y, 0)
      → from_first hs numbers honest ≡ some (A, Y, 0)
      → from_first hs numbers other ≡ some (X, Z, 0)
      → (X ≡ A) ⊎ CollisionIn hs M
  unfolding HashedFrom
  paths_agree (fn, sn) [] honest other X Y A Z cp cq cr dq dr ep eq er = cc
  paths_agree (fn, sn) (p ∷ ps) [] other X Y A Z cp cq cr dq dr ep eq er = cc
  paths_agree (fn, sn) (p ∷ ps) (q ∷ qs) [] X Y A Z cp cq cr dq dr ep eq er = cc
  paths_agree (fn, sn) (p ∷ ps) (q ∷ qs) (r ∷ rs) X Y A Z cp cq cr dq dr ep eq er =
      runs_agree fn sn p q r ps qs rs X Y A Z cp cq cr dq dr ep eq er

  -- What an accepted path says of the two trees. The path of the new tree, and that of the old one
  -- continued with the rest of the new one, are the tree's own.
  pub trees_agree :
      (xs ys path : List Bytes)
      → ((m : Bytes) → HashedInCheck hs (length xs) (length ys) (tree_hash hs xs) path m → M m)
      → ((m : Bytes) → HashedByOwn hs (length xs) ys m → M m)
      → ((m : Bytes) → HashedByOwn hs (length xs) (xs ++ drop (length xs) ys) m → M m)
      → 1 ≤ length xs
      → length xs ≤ length ys
      → check_consistency hs (length xs) (length ys) (tree_hash hs xs) (tree_hash hs ys) path ≡ true
      → (tree_hash hs xs ≡ tree_hash hs (take (length xs) ys)) ⊎ CollisionIn hs M
  unfolding HashedByOwn
  trees_agree xs ys path cp cq cr low h e = elim (Bool-cases (length xs == length ys)) [
    | inl all ↦
        let sizes : length xs ≡ length ys = ground (arith, all) in
        inl (
          check_consistency-same hs (length ys) (tree_hash hs xs) (tree_hash hs ys) path (
            ap (λ m. check_consistency hs m (length ys) (tree_hash hs xs) (tree_hash hs ys) path)
              (sym sizes)
            ∙ e)
          ∙ ap (tree_hash hs) (sym (take_all (length xs) ys (omega (arith, sizes)))))
    | inr part ↦
        let m = length xs in
        let n = length ys in
        let inside : m < n = ground (arith, part, h) in
        let zs = xs ++ drop m ys in
        let size : length zs ≡ n =
          omega (arith, length-append xs (drop m ys), length-drop m ys, h) in
        let (whole, run, reads) =
          check_consistency-true hs m n (tree_hash hs xs) (tree_hash hs ys) path inside e in
        let other : from_first hs (drop_ones m (m - 1) (n - 1))
              (consistency_at hs (length zs) m zs false)
            ≡ some (tree_hash hs xs, tree_hash hs zs, 0) =
          ap
            (λ k.
              from_first hs (drop_ones m (m - 1) (k - 1))
                (consistency_at hs (length zs) m zs false))
            (sym size)
          ∙ honest_run hs m zs low (omega (arith, size, inside))
          ∙ ap (λ l. some (tree_hash hs l, tree_hash hs zs, 0))
              (take-append m xs (drop m ys) refl) in
        paths_agree (drop_ones m (m - 1) (n - 1)) whole (consistency_at hs n m ys false)
          (consistency_at hs (length zs) m zs false) (tree_hash hs xs) (tree_hash hs ys)
          (tree_hash hs (take m ys)) (tree_hash hs zs) (λ w k. cp w (reads w k)) cq
          (λ w k. cr w (
            subst
              (λ k.
                HashedFrom hs (drop_ones m (m - 1) (k - 1))
                  (consistency_at hs (length zs) m zs false) w)
              (sym size) k))
          (consistency_at-All hs (λ s. length s ≡ 32) n m ys false (length-tree_hash hs))
          (consistency_at-All hs (λ s. length s ≡ 32) (length zs) m zs false (length-tree_hash hs))
          run (honest_run hs m ys low inside) other
  ]
