-- ===== src/Checkpoint/Agreement.antt =====
-- `checkpoint_for` and `verify_checkpoint` of src/waxseal/domain/checkpoint.py: a checkpoint
-- against the trails that it is compared with.
use waxseal.Base.{
  ◌≡◌, Result, ◌∷◌, inl, ◌∙◌, ok, take-append, text_eq_iff, [], text_eq, ℕ, subst, Option,
  >>=-eq-ok, length, Text, some, List, true, raise_if, Bool-cases, length-take, sym, arith, ◌⊎◌,
  Bytes, refl, inr, suc, ◌≤◌, value_error, ap, ◌++◌, ok_inj, not, length-append, raise, false,
  if◌then◌else◌, none, text_eq_refl, take,
}
use waxseal.Anchoring.{batch_root, map_result, root}
use waxseal.Anchoring.Tree.{HashedInBatch, batch_root_inj}
use waxseal.Base.Int.{ltb_ℤ, pos_part, ℤ, leb_ℤ, negsuc, pos}
use waxseal.Bytes.Hex.{from_hex}
use waxseal.Checkpoint.{
  anchor_entry_hash_mismatch, verify_checkpoint, Checkpoint, checkpoint_for, new_checkpoint,
  CheckpointReason, half_bound, root_or, item_at, root_reason, last_item,
}
use waxseal.Digest.{Hashes, CollisionIn}

item_at-last_item :
    (x : Text) (xs ys : List Text) {last : Text}
    → last_item (x ∷ xs) ≡ ok last
    → item_at ((x ∷ xs) ++ ys) (length xs) ≡ ok last
unfolding item_at last_item
item_at-last_item x [] ys h = h
item_at-last_item x (y ∷ xs) ys h = item_at-last_item y xs ys h

root_reason-none :
    (computed : Result Text) (expected : Text)
    → root_reason computed expected ≡ ok none
    → computed ≡ ok expected
unfolding root_reason
root_reason-none (raise value_error) expected h = cc
root_reason-none (raise _) expected h = cc
root_reason-none (ok root) expected h = elim (Bool-cases (text_eq root expected)) [
  | inl same ↦ ap ok ((text_eq_iff root expected).0 same)
  | inr differ ↦ cc (rw differ at h)
]

-- The comparison of the entry hash passes only to the comparison of the root.
same_hash :
    (found expected : Text) {rest : Result (Option CheckpointReason)}
    → (if not (text_eq found expected) then ok (some anchor_entry_hash_mismatch) else rest)
      ≡ ok none
    → (found ≡ expected) × (rest ≡ ok none)
same_hash found expected h = elim (Bool-cases (text_eq found expected)) [
  | inl same ↦ ((text_eq_iff found expected).0 same, rw same at h)
  | inr differ ↦ cc (rw differ at h)
]

non_negative : (z : ℤ) → ltb_ℤ z (pos 0) ≡ false → z ≡ pos (pos_part z)
non_negative (pos n) h = refl
non_negative (negsuc n) h = cc (negative n, h)
  where
    negative : (n : ℕ) → ltb_ℤ (negsuc n) (pos 0) ≡ true
    negative n = ground arith

module _ (hs : Hashes) where
  -- The pass of `verify_checkpoint`: the trail reaches the sequence number, has the entry hash
  -- there, and its prefix up to it has the root.
  pub verify_checkpoint-none :
      (entry_hashes : List Text) (c : Checkpoint)
      → verify_checkpoint hs entry_hashes c ≡ ok none
      → (n : ℕ) × (c.seq ≡ pos n)
        × (suc n ≤ length entry_hashes)
        × (item_at entry_hashes n ≡ ok c.entry_hash)
        × (batch_root hs (take (suc n) entry_hashes) ≡ ok c.root)
  unfolding verify_checkpoint
  verify_checkpoint-none entry_hashes c h = elim (Bool-cases (ltb_ℤ c.seq (pos 0))) [
    | inl below ↦ cc (rw below at h)
    | inr up ↦ elim (Bool-cases (leb_ℤ (pos (length entry_hashes)) c.seq)) [
      | inl beyond ↦ cc (rw (up, beyond) at h)
      | inr within ↦
          let place = non_negative c.seq up in
          let (found, at_seq, h1) =
            >>=-eq-ok (item_at entry_hashes (pos_part c.seq)) _ (rw (up, within) at h) in
          let (same, h2) = same_hash found c.entry_hash h1 in
          (
            pos_part c.seq,
            place,
            below_length c.seq (length entry_hashes) up within,
            at_seq ∙ ap ok same,
            root_reason-none _ c.root h2,
          )
    ]
  ]
    where
      below_length :
          (z : ℤ) (n : ℕ) → ltb_ℤ z (pos 0) ≡ false → leb_ℤ (pos n) z ≡ false → suc (pos_part z) ≤ n
      below_length z n up within = ground (arith, up, within)

  verify_checkpoint-passes :
      (entry_hashes : List Text) (c : Checkpoint) (n : ℕ)
      → c.seq ≡ pos n
      → suc n ≤ length entry_hashes
      → item_at entry_hashes n ≡ ok c.entry_hash
      → batch_root hs (take (suc n) entry_hashes) ≡ ok c.root
      → verify_checkpoint hs entry_hashes c ≡ ok none
  unfolding verify_checkpoint root_reason
  verify_checkpoint-passes entry_hashes c n place long at_seq rooted =
      let up : ltb_ℤ c.seq (pos 0) ≡ false = ap (λ z. ltb_ℤ z (pos 0)) place ∙ ground arith in
      let within : leb_ℤ (pos (length entry_hashes)) c.seq ≡ false =
        ap (leb_ℤ (pos (length entry_hashes))) place ∙ ground (arith, long) in
      let number : pos_part c.seq ≡ n = ap pos_part place in
      rw (up, within, number, at_seq, text_eq_refl c.entry_hash, rooted, text_eq_refl c.root)

  -- The byte strings that `verify_checkpoint` hashes for the root of a trail up to a checkpoint.
  unfoldable pub HashedUpTo : Checkpoint → List Text → Bytes → Type 0
  HashedUpTo c entry_hashes = HashedInBatch hs (take (suc (pos_part c.seq)) entry_hashes)

  -- Two trails that both pass against one checkpoint decode to the same entry hashes up to it, or
  -- two different byte strings that are hashed for the roots of the two trails up to it have one
  -- SHA-256 digest.
  pub verify_checkpoint_commits :
      (xs ys : List Text) (c : Checkpoint)
      → verify_checkpoint hs xs c ≡ ok none
      → verify_checkpoint hs ys c ≡ ok none
      → ((n : ℕ) × (c.seq ≡ pos n)
          × (map_result from_hex (take (suc n) xs) ≡ map_result from_hex (take (suc n) ys)))
        ⊎ CollisionIn hs (λ m. HashedUpTo c xs m ⊎ HashedUpTo c ys m)
  unfolding HashedUpTo
  verify_checkpoint_commits xs ys c hx hy =
      let (n, en, lx, _, rx) = verify_checkpoint-none xs c hx in
      let (m, em, ly, _, ry) = verify_checkpoint-none ys c hy in
      let same : m ≡ n = ap pos_part (sym em ∙ en) in
      let ry' : batch_root hs (take (suc n) ys) ≡ ok c.root =
        subst (λ t. batch_root hs (take (suc t) ys) ≡ ok c.root) same ry in
      elim (batch_root_inj hs (take (suc n) xs) (take (suc n) ys)
        (omega (arith, lx, ly, same, length-take (suc n) xs, length-take (suc n) ys)) rx ry') [
          | inl leaves ↦ inl (n, en, leaves)
          | inr found ↦
              let place : n ≡ pos_part c.seq = ap pos_part (sym en) in
              inr (
                subst
                  (λ k. CollisionIn hs (λ m.
                    HashedInBatch hs (take (suc k) xs) m ⊎ HashedInBatch hs (take (suc k) ys) m))
                  place found)
        ]

  -- A trail passes against the checkpoint that was made of it, however far it has grown since.
  pub verify_checkpoint-checkpoint_for :
      (entry_hashes later : List Text) (agg_commit : Option Text) (agg_epoch : Option ℤ)
      {c : Checkpoint}
      → checkpoint_for hs entry_hashes agg_commit agg_epoch none ≡ ok c
      → verify_checkpoint hs (entry_hashes ++ later) c ≡ ok none
  unfolding checkpoint_for new_checkpoint root_or
  verify_checkpoint-checkpoint_for [] later agg_commit agg_epoch h = cc
  verify_checkpoint-checkpoint_for (x ∷ xs) later agg_commit agg_epoch {c} h =
      let (last, hl, h1) = >>=-eq-ok (last_item (x ∷ xs)) _ h in
      let (root, hr, h2) = >>=-eq-ok (batch_root hs (x ∷ xs)) _ h1 in
      let (_, _, h3) = >>=-eq-ok (raise_if (half_bound agg_commit agg_epoch) value_error) _ h2 in
      let made = ok_inj h3 in
      verify_checkpoint-passes ((x ∷ xs) ++ later) c (length xs) (sym (ap (λ t. t.seq) made))
        (omega (arith, length-append (x ∷ xs) later))
        (item_at-last_item x xs later hl ∙ ap (λ t. ok t.entry_hash) made)
        (ap (batch_root hs) (take-append (suc (length xs)) (x ∷ xs) later refl)
          ∙ hr
          ∙ ap (λ t. ok t.root) made)
