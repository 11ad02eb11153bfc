-- ===== src/Verify/Rows.antt =====
-- The outcome of one row of src/waxseal/domain/verify.py as a relation, and the loop body
-- `check_row` as its decision.

use mathlib.Core.Bool.{false≢true}
use waxseal.Base.{
  Bool-cases, ◌∙◌, inl, inr, arith, ℕ, ◌≢◌, Result, Bytes, ok-ne-raise, ok, lp_encoding_error,
  ok_inj, ap, ◌≡◌, >>=-eq-ok, refl, text_eq, sym, false, some, Text, text_eq_cases,
  text_eq-eq-false, true, Option, raise, none, text_eq_iff,
}
use waxseal.Base.Int.{eq_ℤ, eq_ℤ_iff, pos}
use waxseal.Digest.{Hashes}
use waxseal.Hashing.{compute_entry_hash, compute_payload_hash}
use waxseal.Header.{Entry}
use waxseal.Registry.{Encoder, encoder_for, VersionRegistry}
use waxseal.Verify.{
  payload_differs, seq_gap, check_hashes, Row, matches, check_row, breaks, prev_hash_mismatch,
  payload_hash_mismatch, check_content, entry_hash_mismatch, unknown,
}

module _ (hs : Hashes) where
  abbrev pub PayloadMatches : Option Bytes → Text → Type 0
  PayloadMatches none expected = Unit
  PayloadMatches (some payload) expected = compute_payload_hash hs payload ≡ expected

  -- What a recomputed row turns out to be, given the hash of its header.
  pub data HashOutcome (computed : Result Text) (e : Entry) (row : Row) : Type 0 where
    unencodable :
        computed ≡ raise lp_encoding_error
        → row ≡ breaks entry_hash_mismatch
        → HashOutcome computed e row
    other_hash :
        (d : Text)
        → computed ≡ ok d
        → d ≢ e.entry_hash
        → row ≡ breaks entry_hash_mismatch
        → HashOutcome computed e row
    other_payload :
        computed ≡ ok e.entry_hash
        → ¬ PayloadMatches e.payload e.header.payload_hash
        → row ≡ breaks payload_hash_mismatch
        → HashOutcome computed e row
    same_hashes :
        computed ≡ ok e.entry_hash
        → PayloadMatches e.payload e.header.payload_hash
        → row ≡ matches
        → HashOutcome computed e row

  -- What the row at position `n` after the hash `prev` turns out to be. The tests come in this
  -- order: position, link, fingerprint, entry hash, payload hash.
  pub data RowOutcome (registry : VersionRegistry) (n : ℕ) (prev : Text) (e : Entry) (row : Row)
      : Type 0 where
    misplaced : e.header.seq ≢ pos n → row ≡ breaks seq_gap → RowOutcome registry n prev e row
    unlinked :
        e.header.seq ≡ pos n
        → e.header.prev_hash ≢ prev
        → row ≡ breaks prev_hash_mismatch
        → RowOutcome registry n prev e row
    not_recomputable :
        e.header.seq ≡ pos n
        → e.header.prev_hash ≡ prev
        → encoder_for registry e.header.hash_version ≡ ok none
        → row ≡ unknown
        → RowOutcome registry n prev e row
    recomputed :
        (encoder : Encoder)
        → e.header.seq ≡ pos n
        → e.header.prev_hash ≡ prev
        → encoder_for registry e.header.hash_version ≡ ok (some encoder)
        → HashOutcome (compute_entry_hash hs encoder e.header) e row
        → RowOutcome registry n prev e row

  pub payload_differs-false :
      (o : Option Bytes) (expected : Text)
      → payload_differs hs o expected ≡ false
      → PayloadMatches o expected
  unfolding payload_differs
  payload_differs-false none expected h = tt
  payload_differs-false (some p) expected h = (text_eq_iff _ expected).0 (ground (arith, h))

  payload_differs-true :
      (o : Option Bytes) (expected : Text)
      → payload_differs hs o expected ≡ true
      → ¬ PayloadMatches o expected
  unfolding payload_differs
  payload_differs-true none expected h m = cc
  payload_differs-true (some p) expected h m =
      ground (arith, h, (text_eq_iff (compute_payload_hash hs p) expected).1 m)

  check_hashes-HashOutcome :
      (computed : Result Text) (e : Entry) {row : Row}
      → check_hashes hs computed e ≡ ok row
      → HashOutcome computed e row
  unfolding check_hashes
  check_hashes-HashOutcome (raise lp_encoding_error) e h = unencodable refl (sym (ok_inj h))
  check_hashes-HashOutcome (raise _) e h = absurd (ok-ne-raise h)
  check_hashes-HashOutcome (ok d) e h = elim (text_eq_cases d e.entry_hash) [
    | inr differ ↦
        other_hash d refl differ (sym (ok_inj (rw (text_eq-eq-false d e.entry_hash differ) at h)))
    | inl same ↦
        let hit : text_eq d e.entry_hash ≡ true = (text_eq_iff d e.entry_hash).1 same in
        elim (Bool-cases (payload_differs hs e.payload e.header.payload_hash)) [
          | inl differs ↦
              other_payload (ap ok same)
                (payload_differs-true e.payload e.header.payload_hash differs)
                (sym (ok_inj (rw (hit, differs) at h)))
          | inr agrees ↦
              same_hashes (ap ok same)
                (payload_differs-false e.payload e.header.payload_hash agrees)
                (sym (ok_inj (rw (hit, agrees) at h)))
        ]
  ]

  check_content-RowOutcome :
      (registry : VersionRegistry) (n : ℕ) (prev : Text) (e : Entry) (o : Option Encoder)
      {row : Row}
      → e.header.seq ≡ pos n
      → e.header.prev_hash ≡ prev
      → encoder_for registry e.header.hash_version ≡ ok o
      → check_content hs o e ≡ ok row
      → RowOutcome registry n prev e row
  unfolding check_content
  check_content-RowOutcome registry n prev e none at linked found h =
      not_recomputable at linked found (sym (ok_inj h))
  check_content-RowOutcome registry n prev e (some encoder) at linked found h =
      recomputed encoder at linked found (check_hashes-HashOutcome _ e h)

  -- Whatever the loop body returns for a row is the row's outcome.
  pub check_row-RowOutcome :
      (registry : VersionRegistry) (n : ℕ) (prev : Text) (e : Entry) {row : Row}
      → check_row hs registry n prev e ≡ ok row
      → RowOutcome registry n prev e row
  unfolding check_row
  check_row-RowOutcome registry n prev e h = elim (Bool-cases (eq_ℤ e.header.seq (pos n))) [
    | inr gap ↦
        misplaced (λ p. false≢true (sym gap ∙ (eq_ℤ_iff _ (pos n)).1 p))
          (sym (ok_inj (rw gap at h)))
    | inl placed ↦ elim (text_eq_cases e.header.prev_hash prev) [
      | inr differ ↦
          unlinked ((eq_ℤ_iff _ (pos n)).0 placed) differ
            (sym (ok_inj (rw (placed, text_eq-eq-false _ prev differ) at h)))
      | inl linked ↦
          let (o, found, content) =
            >>=-eq-ok (encoder_for registry e.header.hash_version) _
              (rw (placed, (text_eq_iff _ prev).1 linked) at h) in
          check_content-RowOutcome registry n prev e o ((eq_ℤ_iff _ (pos n)).0 placed) linked found
            content
    ]
  ]
