-- ===== src/Backend/Verified.antt =====
-- The backend of src/waxseal/adapters/memory.py, filled by appends, against `verify_chain`.

use native.Mathlib.Nat.{add-zero, zero-add}
use waxseal.Base.{
  not, text_eq_refl, length, suc, raise_if, ap₂, Text, Bytes, List, ◌+◌, arith, ◌∷◌, ◌∙◌, [],
  >>=-eq-ok, ◌≡◌, subst, ok_inj, ℕ, sym, is_some, ap, append-eq-nil, ◌++◌, refl, value_error, some,
  ok,
}
use waxseal.Backend.{
  last_entry, build_next, appended, Appended, Builder, empty, MemoryBackend, build_entry, append,
}
use waxseal.Base.Int.{pos, suc-+ℤ}
use waxseal.Digest.{Hashes}
use waxseal.Fingerprint.{fingerprint}
use waxseal.Hashing.{compute_entry_hash, header_frame}
use waxseal.Header.{Entry, genesis_prev_hash}
use waxseal.Registry.{encoder_for, VersionRegistry, Reachable}
use waxseal.Registry.Append.{encoder_for_exact}
use waxseal.Verify.{verify_chain, passed}
use waxseal.Verify.Intact.{
  unrecognised, RowPasses, reproduced, Intact, known_rows, unknown_seq, verify_chain_ok_iff,
  unknown_seqs,
}
use waxseal.Verify.Monotone.{count_rows}
use waxseal.Verify.Report.{head_after}

module _ (hs : Hashes) (registry : VersionRegistry) where
  Intact-snoc :
      (n : ℕ) (prev : Text) (es : List Entry) (e : Entry)
      → Intact hs registry n prev es
      → RowPasses hs registry (n + length es) (head_after prev es) e
      → Intact hs registry n prev (es ++ e ∷ [])
  Intact-snoc n prev [] e h p = (rw add-zero at p, tt)
  Intact-snoc n prev (x ∷ es) e h p = (
    h.0,
    Intact-snoc (suc n) x.entry_hash es e h.1
        (subst (λ k. RowPasses hs registry k (head_after x.entry_hash es) e) (omega arith) p),
  )

  pub RowPasses-at :
      {n : ℕ} {prev : Text} {e : Entry} → RowPasses hs registry n prev e → e.header.seq ≡ pos n
  RowPasses-at (unrecognised at linked found) = at
  RowPasses-at (reproduced encoder at linked found hash payload) = at

  -- What the next row is built from is its position and the hash that it has to link to.
  build_next-Intact :
      (build : Builder) (n : ℕ) (prev : Text) (e : Entry) (es : List Entry)
      → Intact hs registry n prev (e ∷ es)
      → build_next build (last_entry (e ∷ es))
        ≡ build (pos (n + suc (length es))) (head_after prev (e ∷ es))
  unfolding build_next last_entry
  build_next-Intact build n prev e [] h =
      rw (RowPasses-at h.0, suc-+ℤ n) (ap (λ k. build (pos k) e.entry_hash) (omega arith))
  build_next-Intact build n prev e (f ∷ es) h =
      build_next-Intact build (suc n) e.entry_hash f es h.1
      ∙ ap (λ k. build (pos k) (head_after e.entry_hash (f ∷ es))) (omega arith)

  pub build_next-backend :
      (build : Builder) (es : MemoryBackend)
      → Intact hs registry 0 genesis_prev_hash es
      → build_next build (last_entry es) ≡ build (pos (length es)) (head_after genesis_prev_hash es)
  build_next-backend build [] h = unfold build_next last_entry in refl
  build_next-backend build (e ∷ es) h =
      build_next-Intact build 0 genesis_prev_hash e es h
      ∙ ap (λ k. build (pos k) (head_after genesis_prev_hash (e ∷ es))) (omega arith)

  -- A built entry passes at the place that it was built for.
  pub build_entry-RowPasses :
      (ts payload_type : Text) (payload : Bytes) (n : ℕ) (prev : Text) {e : Entry}
      → Reachable hs registry
      → build_entry hs ts payload_type payload (pos n) prev ≡ ok e
      → RowPasses hs registry n prev e
        × (encoder_for registry e.header.hash_version ≡ ok (some header_frame))
  unfolding build_entry
  build_entry-RowPasses ts payload_type payload n prev reach h =
      let (own, fp, r) = >>=-eq-ok (fingerprint hs) _ h in
      let (d, hash, built) = >>=-eq-ok (compute_entry_hash hs header_frame _) _ r in
      let found = encoder_for_exact hs own own fp reach ∙ rw (text_eq_refl own) in
      subst
        (λ e.
          RowPasses hs registry n prev e
          × (encoder_for registry e.header.hash_version ≡ ok (some header_frame)))
        (ok_inj built) (reproduced header_frame refl refl found hash refl, found)

  known-snoc :
      (es : List Entry) (e : Entry)
      → encoder_for registry e.header.hash_version ≡ ok (some header_frame)
      → unknown_seqs hs registry es ≡ []
      → unknown_seqs hs registry (es ++ e ∷ []) ≡ []
  known-snoc [] e found h = rw found
  known-snoc (x ∷ es) e found h =
      let (now, later) =
        append-eq-nil (unknown_seq hs (encoder_for registry x.header.hash_version) x.header.seq) _
          h in
      rw now (known-snoc es e found later)

  pub Appended-Intact :
      {es : MemoryBackend}
      → Reachable hs registry
      → Appended hs es
      → Intact hs registry 0 genesis_prev_hash es × (unknown_seqs hs registry es ≡ [])
  unfolding append
  Appended-Intact reach empty = (tt, refl)
  Appended-Intact reach (appended {es = es} ts payload_type payload e earlier h) =
      let (whole, known) = Appended-Intact reach earlier in
      let (f, built, r) =
        >>=-eq-ok (build_next (build_entry hs ts payload_type payload) (last_entry es)) _ h in
      let (_, _, stored) = >>=-eq-ok (raise_if (not (is_some f.payload)) value_error) _ r in
      let (passes, found) =
        build_entry-RowPasses ts payload_type payload (length es) (head_after genesis_prev_hash es)
          reach
          (sym (build_next-backend (build_entry hs ts payload_type payload) es whole) ∙ built) in
      subst (λ fs. Intact hs registry 0 genesis_prev_hash fs × (unknown_seqs hs registry fs ≡ []))
        (ap (λ t. t.1) (ok_inj stored))
        (
          Intact-snoc 0 genesis_prev_hash es f whole (rw zero-add passes),
          known-snoc es f found known,
        )

-- Whatever an audit log appends to an empty backend, the stored chain verifies under every registry
-- of the program: each row is checked, and none is unverifiable.
pub verify_chain-Appended :
    (hs : Hashes) (registry : VersionRegistry) {es : MemoryBackend}
    → Reachable hs registry
    → Appended hs es
    → verify_chain hs registry es ≡ ok (passed (length es) [])
verify_chain-Appended hs registry {es} reach log =
    let (whole, known) = Appended-Intact hs registry reach log in
    let counted : known_rows hs registry es ≡ length es =
      omega (arith, count_rows hs registry 0 genesis_prev_hash es whole, ap length known) in
    (verify_chain_ok_iff hs registry es).1 whole ∙ ap₂ (λ k v. ok (passed k v)) counted known
