-- ===== src/Verify/Intact.antt =====
-- `verify_chain` of src/waxseal/domain/verify.py against a specification by the rows.

use mathlib.Core.List.{append_assoc, append-nil}
use native.Mathlib.Nat.{add_assoc, add-zero, zero-add}
use mathlib.Core.Bool.{false≢true}
use waxseal.Base.{
  ap, List, ℕ, text_eq_iff, [], false, ◌≢◌, ap₂, suc, ◌+◌, Option, refl, ◌∷◌, ◌≡◌, true, ◌∙◌, ◌++◌,
  Bytes, >>=-eq-ok, ok_inj, text_eq_refl, some, none, Text, ok, Result,
}
use waxseal.Base.Int.{eq_ℤ_iff, pos, ℤ}
use waxseal.Digest.{Hashes}
use waxseal.Hashing.{compute_entry_hash}
use waxseal.Header.{Entry, genesis_prev_hash}
use waxseal.Registry.{Encoder, encoder_for, VersionRegistry}
use waxseal.Verify.{
  Row, passed, verify_chain, breaks, VerifyResult, unknown, Reason, payload_differs, after_row,
  matches, walk, check_row,
}
use waxseal.Verify.Rows.{
  unlinked, unencodable, check_row-RowOutcome, same_hashes, recomputed, PayloadMatches, misplaced,
  not_recomputable, other_hash, RowOutcome, HashOutcome, other_payload,
}

module _ (hs : Hashes) where
  -- A row passes: it is at its position, linked, and either unrecognised or recomputed with the same
  -- hashes.
  pub data RowPasses (registry : VersionRegistry) (n : ℕ) (prev : Text) (e : Entry) : Type 0 where
    unrecognised :
        e.header.seq ≡ pos n
        → e.header.prev_hash ≡ prev
        → encoder_for registry e.header.hash_version ≡ ok none
        → RowPasses registry n prev e
    reproduced :
        (encoder : Encoder)
        → e.header.seq ≡ pos n
        → e.header.prev_hash ≡ prev
        → encoder_for registry e.header.hash_version ≡ ok (some encoder)
        → compute_entry_hash hs encoder e.header ≡ ok e.entry_hash
        → PayloadMatches hs e.payload e.header.payload_hash
        → RowPasses registry n prev e

  -- The loop body's answer on a row that passes.
  abbrev pub passing_row :
      {registry : VersionRegistry} {n : ℕ} {prev : Text} {e : Entry}
      → RowPasses registry n prev e
      → Row
  passing_row (unrecognised at linked found) = unknown
  passing_row (reproduced encoder at linked found hash payload) = matches

  pub payload_agrees :
      (o : Option Bytes) (expected : Text)
      → PayloadMatches hs o expected
      → payload_differs hs o expected ≡ false
  unfolding payload_differs
  payload_agrees none expected m = refl
  payload_agrees (some p) expected m = rw ((text_eq_iff _ expected).1 m)

  pub check_row-passes :
      (registry : VersionRegistry) (n : ℕ) (prev : Text) (e : Entry)
      (p : RowPasses registry n prev e)
      → check_row hs registry n prev e ≡ ok (passing_row p)
  unfolding check_row
  check_row-passes registry n prev e (unrecognised at linked found) =
      rw ((eq_ℤ_iff _ (pos n)).1 at, (text_eq_iff _ prev).1 linked, found)
  check_row-passes registry n prev e (reproduced encoder at linked found hash payload) = rw (
    (eq_ℤ_iff _ (pos n)).1 at,
    (text_eq_iff _ prev).1 linked,
    found,
    hash,
    text_eq_refl e.entry_hash,
    payload_agrees e.payload e.header.payload_hash payload,
  )

  HashOutcome-RowPasses :
      (registry : VersionRegistry) (n : ℕ) (prev : Text) (e : Entry) {row : Row} (encoder : Encoder)
      → ((why : Reason) → row ≢ breaks why)
      → e.header.seq ≡ pos n
      → e.header.prev_hash ≡ prev
      → encoder_for registry e.header.hash_version ≡ ok (some encoder)
      → HashOutcome hs (compute_entry_hash hs encoder e.header) e row
      → RowPasses registry n prev e
  HashOutcome-RowPasses registry n prev e encoder goes_on at linked found (unencodable c r) =
      absurd (goes_on _ r)
  HashOutcome-RowPasses registry n prev e encoder goes_on at linked found (other_hash d c ne r) =
      absurd (goes_on _ r)
  HashOutcome-RowPasses registry n prev e encoder goes_on at linked found (other_payload c p r) =
      absurd (goes_on _ r)
  HashOutcome-RowPasses registry n prev e encoder goes_on at linked found (same_hashes c p r) =
      reproduced encoder at linked found c p

  RowOutcome-RowPasses :
      (registry : VersionRegistry) (n : ℕ) (prev : Text) (e : Entry) {row : Row}
      → ((why : Reason) → row ≢ breaks why)
      → RowOutcome hs registry n prev e row
      → RowPasses registry n prev e
  RowOutcome-RowPasses registry n prev e goes_on (misplaced ne r) = absurd (goes_on _ r)
  RowOutcome-RowPasses registry n prev e goes_on (unlinked at ne r) = absurd (goes_on _ r)
  RowOutcome-RowPasses registry n prev e goes_on (not_recomputable at linked found r) =
      RowPasses.unrecognised at linked found
  RowOutcome-RowPasses registry n prev e goes_on (recomputed encoder at linked found o) =
      HashOutcome-RowPasses registry n prev e encoder goes_on at linked found o

  -- A row that the loop goes on from has passed.
  pub check_row-RowPasses :
      (registry : VersionRegistry) (n : ℕ) (prev : Text) (e : Entry) {row : Row}
      → check_row hs registry n prev e ≡ ok row
      → ((why : Reason) → row ≢ breaks why)
      → RowPasses registry n prev e
  check_row-RowPasses registry n prev e h goes_on =
      RowOutcome-RowPasses registry n prev e goes_on (check_row-RowOutcome hs registry n prev e h)

  -- Every row passes, each after the one before it.
  abbrev pub Intact : VersionRegistry → ℕ → Text → List Entry → Type 0
  Intact registry n prev [] = Unit
  Intact registry n prev (e ∷ es) =
      RowPasses registry n prev e × Intact registry (suc n) e.entry_hash es

  -- The rows that the registry has no encoder for, and the number of those that it has one for.
  abbrev pub unknown_seq : Result (Option Encoder) → ℤ → List ℤ
  unknown_seq (ok none) seq = seq ∷ []
  unknown_seq _ seq = []

  abbrev pub known_count : Result (Option Encoder) → ℕ
  known_count (ok (some _)) = 1
  known_count _ = 0

  abbrev pub unknown_seqs : VersionRegistry → List Entry → List ℤ
  unknown_seqs registry [] = []
  unknown_seqs registry (e ∷ es) =
      unknown_seq (encoder_for registry e.header.hash_version) e.header.seq
      ++ unknown_seqs registry es

  abbrev pub known_rows : VersionRegistry → List Entry → ℕ
  known_rows registry [] = 0
  known_rows registry (e ∷ es) =
      known_count (encoder_for registry e.header.hash_version) + known_rows registry es

  pub after_row-passes :
      (registry : VersionRegistry) (n : ℕ) (prev : Text) (e : Entry)
      (p : RowPasses registry n prev e) (c : ℕ) (u : List ℤ)
      (rest : ℕ → List ℤ → Result VerifyResult)
      → after_row hs (passing_row p) e.header.seq c u rest
        ≡ rest
            (c + known_count (encoder_for registry e.header.hash_version))
            (u ++ unknown_seq (encoder_for registry e.header.hash_version) e.header.seq)
  unfolding after_row
  after_row-passes registry n prev e (unrecognised at linked found) c u rest =
      rw found (rw add-zero)
  after_row-passes registry n prev e (reproduced encoder at linked found hash payload) c u rest =
      rw found (rw append-nil)

  -- On a chain whose rows all pass, the walk reports exactly the rows that it could not recompute.
  walk-Intact :
      (registry : VersionRegistry) (n : ℕ) (prev : Text) (c : ℕ) (u : List ℤ) (es : List Entry)
      → Intact registry n prev es
      → walk hs registry n prev c u es
        ≡ ok (passed (c + known_rows registry es) (u ++ unknown_seqs registry es))
  unfolding walk
  walk-Intact registry n prev c u [] h = rw (add-zero, append-nil)
  walk-Intact registry n prev c u (e ∷ es) (p, h) = rw (check_row-passes registry n prev e p) (
      after_row-passes registry n prev e p c u _
      ∙ walk-Intact registry (suc n) e.entry_hash _ _ es h
      ∙ ap₂ (λ k v. ok (passed k v)) (add_assoc c _ _) (append_assoc u _ _))

  -- What follows from going on after a row.
  after_row-ok :
      (row : Row) (seq : ℤ) (c : ℕ) (u : List ℤ) (rest : ℕ → List ℤ → Result VerifyResult)
      {r : VerifyResult}
      → after_row hs row seq c u rest ≡ ok r
      → r.is_ok ≡ true
      → ((why : Reason) → row ≢ breaks why) × ((d : ℕ) × (v : List ℤ) × (rest d v ≡ ok r))
  unfolding after_row
  after_row-ok (breaks why) seq c u rest h good =
      absurd (false≢true (ap (λ (t : VerifyResult). t.is_ok) (ok_inj h) ∙ good))
  after_row-ok unknown seq c u rest h good = (λ why e. cc, (_, _, h))
  after_row-ok matches seq c u rest h good = (λ why e. cc, (_, _, h))

  walk-ok-Intact :
      (registry : VersionRegistry) (n : ℕ) (prev : Text) (c : ℕ) (u : List ℤ) (es : List Entry)
      {r : VerifyResult}
      → walk hs registry n prev c u es ≡ ok r
      → r.is_ok ≡ true
      → Intact registry n prev es
  unfolding walk
  walk-ok-Intact registry n prev c u [] h good = tt
  walk-ok-Intact registry n prev c u (e ∷ es) h good =
      let (row, found, rest) = >>=-eq-ok (check_row hs registry n prev e) _ h in
      let (goes_on, more) = after_row-ok row e.header.seq c u _ rest good in
      (
        check_row-RowPasses registry n prev e found goes_on,
        walk-ok-Intact registry (suc n) e.entry_hash more.0 more.1 es more.2 good,
      )

  -- `verify_chain` answers ok exactly where every row passes: it stands at its position, links to the
  -- row before and, where the registry has an encoder for its fingerprint, has the entry hash of its
  -- header and the payload hash of its payload. It then reports exactly the rows with no encoder as
  -- unverifiable, in order, and counts all the others as checked.
  pub verify_chain_ok_iff :
      (registry : VersionRegistry) (es : List Entry)
      → ((r : VerifyResult)
          → verify_chain hs registry es ≡ ok r
          → r.is_ok ≡ true
          → Intact registry 0 genesis_prev_hash es)
        × (Intact registry 0 genesis_prev_hash es
            → verify_chain hs registry es
              ≡ ok (passed (known_rows registry es) (unknown_seqs registry es)))
  unfolding verify_chain
  verify_chain_ok_iff registry es = (
    λ r h good. walk-ok-Intact registry 0 genesis_prev_hash 0 [] es h good,
    λ h. walk-Intact registry 0 genesis_prev_hash 0 [] es h ∙ rw zero-add,
  )
