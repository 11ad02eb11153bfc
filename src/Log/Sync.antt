-- ===== src/Log/Sync.antt =====
-- The tree that an `AuditLog` keeps, against the entry hashes of its trail.
use waxseal.Base.{
  inr, false, arith, ◌∙◌, Bool-cases, length-append, true, take, refl, ◌==◌, if◌then◌else◌,
  Result-cases, ◌≡◌, ◌+◌, inl, >>=-eq-ok, ◌≤◌, List, ◌++◌, suc, ap, ◌>>=◌, ok_inj, [], ==_iff, ok,
  zero, sym, ℕ, length, Bool, Text, ◌∷◌,
}
use waxseal.Anchoring.{IncrementalMerkle, push_all, empty_tree, root, push, batch_root, from_hashes}
use waxseal.Anchoring.Peaks.{root-from_hashes}
use waxseal.Bytes.Hex.{from_hex}
use waxseal.Digest.{Hashes}
use waxseal.Log.{merkle_root_for, rebuilt, tip_differs}

-- The first `n` of a list that was extended.
pub take-extended : (xs ys : List Text) (n : ℕ) → n ≤ length xs → take n (xs ++ ys) ≡ take n xs
take-extended xs ys zero h = refl
take-extended [] ys (suc n) h = absurd (omega (arith, h))
take-extended (x ∷ xs) ys (suc n) h = ap (λ l. x ∷ l) (take-extended xs ys n (omega (arith, h)))

pub take-all : (xs : List Text) → take (length xs) xs ≡ xs
take-all [] = refl
take-all (x ∷ xs) = ap (λ l. x ∷ l) (take-all xs)

module _ (hs : Hashes) where
  push_all-append :
      (xs ys : List Text) (tree : IncrementalMerkle)
      → push_all hs (xs ++ ys) tree ≡ (push_all hs xs tree >>= push_all hs ys)
  unfolding push_all
  push_all-append [] ys tree = refl
  push_all-append (x ∷ xs) ys tree = elim (Result-cases (push hs x tree)) [
    | inr (e, h) ↦ rw h
    | inl (next, h) ↦ rw h (push_all-append xs ys next)
  ]

  size-push_all :
      (xs : List Text) (tree : IncrementalMerkle) {grown : IncrementalMerkle}
      → push_all hs xs tree ≡ ok grown
      → grown.size ≡ tree.size + length xs
  unfolding push_all push
  size-push_all [] tree h = omega (arith, ap (λ (t : IncrementalMerkle). t.size) (ok_inj h))
  size-push_all (x ∷ xs) tree h =
      let (next, pushed_x, rest) = >>=-eq-ok (push hs x tree) _ h in
      let (leaf, _, made) = >>=-eq-ok (from_hex x) _ pushed_x in
      omega
        (arith, size-push_all xs next rest, ap (λ (t : IncrementalMerkle). t.size) (ok_inj made))

  -- A tree that was grown from a prefix of the entry hashes.
  unfoldable pub Synced : IncrementalMerkle → List Text → Type 0
  Synced tree hashes =
      (tree.size ≤ length hashes) × (from_hashes hs (take tree.size hashes) ≡ ok tree)

  pub from_hashes-Synced :
      (hashes : List Text) {tree : IncrementalMerkle}
      → from_hashes hs hashes ≡ ok tree
      → Synced tree hashes
  unfolding Synced from_hashes
  from_hashes-Synced hashes {tree} h =
      let size : tree.size ≡ length hashes = omega (arith, size-push_all hashes empty_tree h) in
      (
        omega (arith, size),
        ap (from_hashes hs) (ap (λ n. take n hashes) size ∙ take-all hashes) ∙ h,
      )

  pub empty_tree-Synced : (hashes : List Text) → Synced empty_tree hashes
  unfolding Synced from_hashes push_all
  empty_tree-Synced hashes = (omega arith, refl)

  pub Synced-extended :
      (tree : IncrementalMerkle) (xs ys : List Text) → Synced tree xs → Synced tree (xs ++ ys)
  unfolding Synced
  Synced-extended tree xs ys (fits, grown) =
      (omega (arith, fits, length-append xs ys), rw (take-extended xs ys tree.size fits) grown)

  -- A tree over all the entry hashes.
  Synced-whole :
      (tree : IncrementalMerkle) (hashes : List Text)
      → Synced tree hashes
      → tree.size ≡ length hashes
      → from_hashes hs hashes ≡ ok tree
  unfolding Synced
  Synced-whole tree hashes (_, grown) size =
      ap (from_hashes hs) (sym (ap (λ n. take n hashes) size ∙ take-all hashes)) ∙ grown

  pub push-Synced :
      (tree : IncrementalMerkle) (hashes : List Text) (x : Text) {next : IncrementalMerkle}
      → Synced tree hashes
      → tree.size ≡ length hashes
      → push hs x tree ≡ ok next
      → Synced next (hashes ++ x ∷ [])
  unfolding from_hashes push_all
  push-Synced tree hashes x {next = next} synced size h =
      from_hashes-Synced (hashes ++ x ∷ []) (grow (Synced-whole tree hashes synced size))
    where
      grow : from_hashes hs hashes ≡ ok tree → from_hashes hs (hashes ++ x ∷ []) ≡ ok next
      grow whole = push_all-append hashes (x ∷ []) empty_tree ∙ rw (whole, h)

  -- Whatever prefix the tree has seen, the root is that of all the entry hashes, or the error where
  -- one of them is not hexadecimal; the tree that is kept has seen a prefix again.
  pub merkle_root_for-Synced :
      (hashes : List Text) (tree : IncrementalMerkle)
      → Synced tree hashes
      → ((merkle_root_for hs hashes tree).0 ≡ batch_root hs hashes)
        × Synced (merkle_root_for hs hashes tree).1 hashes
  unfolding merkle_root_for rebuilt
  merkle_root_for-Synced hashes tree synced = elim (Bool-cases (tree.size == length hashes)) [
    | inr shorter ↦ rw shorter (again (tree.size == 0))
    | inl whole ↦ elim (Bool-cases (tip_differs tree.last_leaf hashes)) [
      | inl differs ↦ rw (whole, differs) (again true)
      | inr same ↦
          rw (whole, same)
            (
              ap (λ r. r >>= root hs)
                    (sym (
                      Synced-whole tree hashes synced ((==_iff tree.size (length hashes)).0 whole)))
                  ∙ root-from_hashes hs hashes,
              synced,
            )
    ]
  ]
    where
      again :
          (keep : Bool)
          → ((rebuilt hs keep tree (from_hashes hs hashes)).0 ≡ batch_root hs hashes)
            × Synced (rebuilt hs keep tree (from_hashes hs hashes)).1 hashes
      again keep = elim (Result-cases (from_hashes hs hashes)) [
        | inr (e, h) ↦ rw h (ap (λ r. r >>= root hs) (sym h) ∙ root-from_hashes hs hashes, synced)
        | inl (fresh, h) ↦ rw h (
          ap (λ r. r >>= root hs) (sym h) ∙ root-from_hashes hs hashes,
          kept keep fresh (from_hashes-Synced hashes h),
        )
      ]
        where
          kept :
              (keep : Bool) (fresh : IncrementalMerkle)
              → Synced fresh hashes
              → Synced (if keep then fresh else tree) hashes
          kept true fresh s = s
          kept false fresh s = synced
