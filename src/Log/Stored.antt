-- ===== src/Log/Stored.antt =====
-- An entry that a backend has stored for an `AuditLog`, and the tree after it: `note_appended` in
-- src/waxseal/log/facade.py.
use waxseal.Base.{
  inr, refl, >>=-eq-ok, [], suc, value_error, Bool-cases, not, Text, ◌++◌, ok_inj, sym, ◌∷◌, ap,
  ◌≡◌, is_some, inl, All, subst, ok, List, ◌∙◌, raise_if, Bytes, length,
}
use waxseal.Anchoring.{IncrementalMerkle, empty_tree, pushed, push_all, push, from_hashes}
use waxseal.Backend.{
  appended, MemoryBackend, build_entry, last_entry, empty, Appended, build_next, append,
}
use waxseal.Backend.Verified.{
  RowPasses-at, build_entry-RowPasses, build_next-backend, Appended-Intact,
}
use waxseal.Base.Int.{eq_ℤ_iff, ℤ, eq_ℤ, pos_part, pos}
use waxseal.Bytes.Hex.{from_hex, from_hex-hex, hex}
use waxseal.Digest.{hexdigest, Hashes}
use waxseal.Fingerprint.{fingerprint}
use waxseal.Hashing.{compute_entry_hash, header_frame}
use waxseal.Header.{genesis_prev_hash, Entry}
use waxseal.Log.{note_appended, AuditLog, entry_hashes, keep_tree}
use waxseal.Log.Sync.{from_hashes-Synced, push-Synced, Synced}
use waxseal.Registry.{VersionRegistry, Reachable}
use waxseal.Verify.Report.{head_after}

-- An entry hash that `bytes.fromhex` reads.
pub Decodes : Text → Type 0
Decodes t = (leaf : Bytes) × (from_hex t ≡ ok leaf)

All-Decodes-append :
    (es : List Entry) (e : Entry)
    → All Decodes (entry_hashes es)
    → Decodes e.entry_hash
    → All Decodes (entry_hashes (es ++ e ∷ []))
unfolding entry_hashes
All-Decodes-append [] e h d = (d, tt)
All-Decodes-append (x ∷ es) e h d = (h.0, All-Decodes-append es e h.1 d)

pub entry_hashes-append :
    (es : List Entry) (e : Entry)
    → entry_hashes (es ++ e ∷ []) ≡ entry_hashes es ++ e.entry_hash ∷ []
unfolding entry_hashes
entry_hashes-append [] e = refl
entry_hashes-append (x ∷ es) e = ap (λ l. x.entry_hash ∷ l) (entry_hashes-append es e)

length-entry_hashes : (es : List Entry) → length (entry_hashes es) ≡ length es
unfolding entry_hashes
length-entry_hashes [] = refl
length-entry_hashes (x ∷ es) = ap suc (length-entry_hashes es)

module _ (hs : Hashes) where
  push_all-Decodes :
      (xs : List Text) (tree : IncrementalMerkle)
      → All Decodes xs
      → (grown : IncrementalMerkle) × (push_all hs xs tree ≡ ok grown)
  unfolding push_all push Decodes
  push_all-Decodes [] tree h = (tree, refl)
  push_all-Decodes (x ∷ xs) tree ((leaf, read), rest) =
      let (grown, more) = push_all-Decodes xs (pushed hs x leaf tree) rest in (grown, rw read more)

  build_entry-Decodes :
      (ts payload_type : Text) (payload : Bytes) (seq : ℤ) (prev : Text) {e : Entry}
      → build_entry hs ts payload_type payload seq prev ≡ ok e
      → Decodes e.entry_hash
  unfolding build_entry Decodes compute_entry_hash hexdigest
  build_entry-Decodes ts payload_type payload seq prev h =
      let (own, _, r) = >>=-eq-ok (fingerprint hs) _ h in
      let (d, hash, built) = >>=-eq-ok (compute_entry_hash hs header_frame _) _ r in
      let (bytes, _, digest) = >>=-eq-ok (header_frame _) _ hash in
      let read : d ≡ hex (hs.sha256 bytes) = sym (ok_inj digest) in
      (
        hs.sha256 bytes,
        ap from_hex (ap (λ (e : Entry). e.entry_hash) (sym (ok_inj built)) ∙ read)
            ∙ from_hex-hex (hs.sha256 bytes) (hs.sha256-IsBytes bytes),
      )

  -- What an append to a backend that appends have filled has stored.
  pub append-Appended :
      (registry : VersionRegistry) (ts payload_type : Text) (payload : Bytes)
      {es fs : MemoryBackend} {e : Entry}
      → Reachable hs registry
      → Appended hs es
      → append (build_entry hs ts payload_type payload) es ≡ ok (e, fs)
      → (fs ≡ es ++ e ∷ []) × (e.header.seq ≡ pos (length es)) × Decodes e.entry_hash
  unfolding append
  append-Appended registry ts payload_type payload {es} {fs} {e} reach log h =
      let whole = (Appended-Intact hs registry reach log).0 in
      let (f, built, r) =
        >>=-eq-ok (build_next (build_entry hs ts payload_type payload) (last_entry es)) _ h in
      let (_, _, stored) = >>=-eq-ok (raise_if (not (is_some f.payload)) value_error) _ r in
      let made =
        sym (build_next-backend hs registry (build_entry hs ts payload_type payload) es whole)
        ∙ built in
      let (passes, _) =
        build_entry-RowPasses hs registry ts payload_type payload (length es)
          (head_after genesis_prev_hash es) reach made in
      let same : f ≡ e = ap (λ (t : Entry × MemoryBackend). t.0) (ok_inj stored) in
      (
        ap (λ (t : Entry × MemoryBackend). t.1) (sym (ok_inj stored)) ∙ ap (λ e. es ++ e ∷ []) same,
        ap (λ (e : Entry). e.header.seq) (sym same) ∙ RowPasses-at hs registry passes,
        subst (λ (e : Entry). Decodes e.entry_hash) same
            (build_entry-Decodes ts payload_type payload _ _ made),
      )

  Appended-Decodes :
      (registry : VersionRegistry) {es : MemoryBackend}
      → Reachable hs registry
      → Appended hs es
      → All Decodes (entry_hashes es)
  unfolding entry_hashes
  Appended-Decodes registry reach empty = tt
  Appended-Decodes registry reach (appended {es = es} ts payload_type payload e earlier h) =
      let (grown, _, reads) = append-Appended registry ts payload_type payload reach earlier h in
      subst (λ fs. All Decodes (entry_hashes fs)) (sym grown)
        (All-Decodes-append es e (Appended-Decodes registry reach earlier) reads)

  -- The tree after an append: it has seen the whole trail, or the entry and a prefix before it.
  pub note_appended-Synced :
      {W : Type 0} (registry : VersionRegistry) (ts payload_type : Text) (payload : Bytes)
      (log : AuditLog W) {fs : MemoryBackend} {e : Entry}
      → Reachable hs registry
      → Appended hs log.backend
      → Synced hs log.merkle (entry_hashes log.backend)
      → append (build_entry hs ts payload_type payload) log.backend ≡ ok (e, fs)
      → (tree : IncrementalMerkle) × (note_appended hs e (record log { backend = fs })
          ≡ (ok tt, record log { backend = fs; merkle = tree }))
        × Synced hs tree (entry_hashes fs)
  unfolding note_appended keep_tree from_hashes push Decodes
  note_appended-Synced registry ts payload_type payload log {fs} {e} reach earlier s h =
      let (grown, at, (leaf, read)) =
        append-Appended registry ts payload_type payload reach earlier h in
      let hashes : entry_hashes fs ≡ entry_hashes log.backend ++ e.entry_hash ∷ [] =
        ap entry_hashes grown ∙ entry_hashes-append log.backend e in
      elim (Bool-cases (eq_ℤ (pos log.merkle.size) e.header.seq)) [
        | inl next ↦
            let same : pos log.merkle.size ≡ pos (length log.backend) =
              (eq_ℤ_iff (pos log.merkle.size) e.header.seq).0 next ∙ at in
            let size : log.merkle.size ≡ length (entry_hashes log.backend) =
              ap pos_part same ∙ sym (length-entry_hashes log.backend) in
            let pushes : push hs e.entry_hash log.merkle
                ≡ ok (pushed hs e.entry_hash leaf log.merkle) =
              rw read refl in
            (
              pushed hs e.entry_hash leaf log.merkle,
              rw (next, read) refl,
              subst (Synced hs (pushed hs e.entry_hash leaf log.merkle)) (sym hashes)
                  (push-Synced hs log.merkle (entry_hashes log.backend) e.entry_hash s size pushes),
            )
        | inr apart ↦
            let (tree, rebuilds) =
              push_all-Decodes (entry_hashes fs) empty_tree
                (Appended-Decodes registry reach (appended ts payload_type payload e earlier h)) in
            (tree, rw (apart, rebuilds) refl, from_hashes-Synced hs (entry_hashes fs) rebuilds)
      ]
