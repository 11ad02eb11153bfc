-- ===== src/Checkpoint/Frame.antt =====
-- The two frame formats of src/waxseal/domain/checkpoint.py.
use waxseal.Base.{
  inl, inr, ◌≢◌, text_eq, ok, true, List, ◌≡◌, some, ◌++◌, Bytes, Option-cases, sym, ◌∙◌,
  append_inj, ap, Option, none, ℕ, ok_inj, false, Text, >>=-eq-ok, refl,
}
use waxseal.Base.Int.{ℤ}
use waxseal.Bytes.Decimal.{show_int_inj}
use waxseal.Bytes.Word.{pack_u64}
use waxseal.Checkpoint.{
  IsCheckpoint, checkpoint_frame_prefix_bare, checkpoint_frame_prefix_agg_bound, Checkpoint,
  frame_of, half_bound, checkpoint_frame, show_epoch,
}
use waxseal.Hashing.{lp_all, frame, Field}
use waxseal.Hashing.Injective.{frame_inj}

frame_starts :
    (prefix : Bytes) (count : ℕ) (xs : List Field) {b : Bytes}
    → frame prefix count xs ≡ ok b
    → (rest : Bytes) × (b ≡ prefix ++ rest)
unfolding frame
frame_starts prefix count xs h =
    let (size, _, h1) = >>=-eq-ok (pack_u64 count) _ h in
    let (body, _, h2) = >>=-eq-ok (lp_all xs) _ h1 in (size ++ body, sym (ok_inj h2))

prefixes_differ :
    (u v : Bytes) → checkpoint_frame_prefix_bare ++ u ≢ checkpoint_frame_prefix_agg_bound ++ v
unfolding text_eq
prefixes_differ u v e =
    let prefixes =
      (append_inj checkpoint_frame_prefix_bare checkpoint_frame_prefix_agg_bound refl e).0 in
    let tests : true ≡ false = ap (λ t. text_eq t checkpoint_frame_prefix_bare) prefixes in cc tests

bare_apart :
    (c : Checkpoint) (commit : Text) (d : Checkpoint) {b : Bytes}
    → frame_of none c ≡ ok b
    → frame_of (some commit) d ≡ ok b
    → ⊥
unfolding frame_of
bare_apart c commit d hc hd =
    let (u, eu) = frame_starts checkpoint_frame_prefix_bare 3 _ hc in
    let (v, ev) = frame_starts checkpoint_frame_prefix_agg_bound 5 _ hd in
    prefixes_differ u v (sym eu ∙ ev)

bare_inj :
    (c d : Checkpoint) {b : Bytes}
    → frame_of none c ≡ ok b
    → frame_of none d ≡ ok b
    → (c.seq ≡ d.seq) × (c.entry_hash ≡ d.entry_hash) × (c.root ≡ d.root)
unfolding frame_of
bare_inj c d hc hd =
    let same = frame_inj checkpoint_frame_prefix_bare 3 _ _ refl hc hd in
    (show_int_inj c.seq d.seq (cc same), cc same, cc same)

bound_inj :
    (c d : Checkpoint) (m n : Text) {b : Bytes}
    → frame_of (some m) c ≡ ok b
    → frame_of (some n) d ≡ ok b
    → (c.seq ≡ d.seq)
      × (c.entry_hash ≡ d.entry_hash)
      × (c.root ≡ d.root)
      × (show_epoch c.agg_epoch ≡ show_epoch d.agg_epoch)
      × (m ≡ n)
unfolding frame_of
bound_inj c d m n hc hd =
    let same = frame_inj checkpoint_frame_prefix_agg_bound 5 _ _ refl hc hd in
    (show_int_inj c.seq d.seq (cc same), cc same, cc same, cc same, cc same)

epoch_inj :
    (m n : Text) (a b : Option ℤ)
    → half_bound (some m) a ≡ false
    → half_bound (some n) b ≡ false
    → show_epoch a ≡ show_epoch b
    → a ≡ b
unfolding half_bound show_epoch
epoch_inj m n none b ha hb e = cc
epoch_inj m n (some a) none ha hb e = cc
epoch_inj m n (some a) (some b) ha hb e = ap some (show_int_inj a b e)

no_epoch : (a : Option ℤ) → half_bound none a ≡ false → a ≡ none
unfolding half_bound
no_epoch none h = refl
no_epoch (some a) h = cc

build :
    (c d : Checkpoint)
    → c.seq ≡ d.seq
    → c.entry_hash ≡ d.entry_hash
    → c.root ≡ d.root
    → c.agg_commit ≡ d.agg_commit
    → c.agg_epoch ≡ d.agg_epoch
    → c ≡ d
build c d seqs hashes roots commits epochs = λ i. record {
  seq = seqs i;
  entry_hash = hashes i;
  root = roots i;
  agg_commit = commits i;
  agg_epoch = epochs i;
}

-- Two checkpoints with one frame are the same checkpoint, whether or not they bind an aggregate.
pub checkpoint_frame_inj :
    (c d : Checkpoint) {b : Bytes}
    → IsCheckpoint c
    → IsCheckpoint d
    → checkpoint_frame c ≡ ok b
    → checkpoint_frame d ≡ ok b
    → c ≡ d
unfolding checkpoint_frame IsCheckpoint
checkpoint_frame_inj c d ic id hc hd =
    let at_c = λ (o : Option Text) (e : c.agg_commit ≡ o). ap (λ t. frame_of t c) (sym e) ∙ hc in
    let at_d = λ (o : Option Text) (e : d.agg_commit ≡ o). ap (λ t. frame_of t d) (sym e) ∙ hd in
    elim (Option-cases c.agg_commit) [
      | inl nc ↦ elim (Option-cases d.agg_commit) [
        | inl nd ↦
            let (seqs, hashes, roots) = bare_inj c d (at_c _ nc) (at_d _ nd) in
            build c d seqs hashes roots (nc ∙ sym nd)
              (no_epoch c.agg_epoch (rw nc at ic) ∙ sym (no_epoch d.agg_epoch (rw nd at id)))
        | inr (n, sd) ↦ absurd (bare_apart c n d (at_c _ nc) (at_d _ sd))
      ]
      | inr (m, sc) ↦ elim (Option-cases d.agg_commit) [
        | inl nd ↦ absurd (bare_apart d m c (at_d _ nd) (at_c _ sc))
        | inr (n, sd) ↦
            let (seqs, hashes, roots, epochs, commits) =
              bound_inj c d m n (at_c _ sc) (at_d _ sd) in
            build c d seqs hashes roots (sc ∙ ap some commits ∙ sym sd)
              (epoch_inj m n c.agg_epoch d.agg_epoch (rw sc at ic) (rw sd at id) epochs)
      ]
    ]
