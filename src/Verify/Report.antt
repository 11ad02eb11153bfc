-- ===== src/Verify/Report.antt =====
-- What a failing `verify_chain` of src/waxseal/domain/verify.py reports.

use mathlib.Core.List.{append_assoc, append-nil}
use native.Mathlib.Nat.{add_assoc, add-zero}
use mathlib.Core.Bool.{false≢true}
use waxseal.Base.{
  ℕ, Text, false, ap₂, ◌++◌, length, ◌+◌, ap, List, ◌∷◌, sym, [], refl, ◌∙◌, ◌≢◌, ok_inj, suc, ◌≡◌,
  ok, arith, >>=-eq-ok, Result, subst,
}
use waxseal.Base.Int.{ℤ}
use waxseal.Digest.{Hashes}
use waxseal.Header.{Entry, genesis_prev_hash}
use waxseal.Registry.{encoder_for, VersionRegistry}
use waxseal.Verify.{
  VerifyResult, breaks, matches, Reason, after_row, unknown, verify_chain, broken_at, walk, Row,
  check_row,
}
use waxseal.Verify.Intact.{
  after_row-passes, unknown_seqs, known_count, unknown_seq, known_rows, Intact, check_row-RowPasses,
  RowPasses, passing_row, check_row-passes,
}
use waxseal.Verify.Rows.{RowOutcome, check_row-RowOutcome}

-- The entry hash that the next row has to link to.
abbrev pub head_after : Text → List Entry → Text
head_after prev [] = prev
head_after prev (e ∷ es) = head_after e.entry_hash es

module _ (hs : Hashes) where
  -- A result reports the first break of a chain: every row before it passes, the row itself breaks
  -- for the reported reason, and the counts are those of the rows before it.
  pub record FirstBreak (registry : VersionRegistry) (n : ℕ) (prev : Text) (c : ℕ) (u : List ℤ)
      (es : List Entry) (r : VerifyResult) : Type 0 where
    pub before : List Entry
    pub row : Entry
    pub after : List Entry
    pub why : Reason
    pub split : es ≡ before ++ row ∷ after
    pub before_intact : Intact hs registry n prev before
    pub row_breaks :
        RowOutcome hs registry (n + length before) (head_after prev before) row (breaks why)
    pub reported :
        r
        ≡ broken_at row.header.seq why
            (c + known_rows hs registry before)
            (u ++ unknown_seqs hs registry before)

  here-FirstBreak :
      (registry : VersionRegistry) (n : ℕ) (prev : Text) (c : ℕ) (u : List ℤ) (e : Entry)
      (es : List Entry) (why : Reason) {r : VerifyResult}
      → check_row hs registry n prev e ≡ ok (breaks why)
      → r ≡ broken_at e.header.seq why c u
      → FirstBreak registry n prev c u (e ∷ es) r
  here-FirstBreak registry n prev c u e es why h reported = record {
    before = [];
    row = e;
    after = es;
    why = why;
    split = refl;
    before_intact = tt;
    row_breaks = rw add-zero (check_row-RowOutcome hs registry n prev e h);
    reported = rw (add-zero, append-nil) reported;
  }

  later-FirstBreak :
      (registry : VersionRegistry) (n : ℕ) (prev : Text) (c : ℕ) (u : List ℤ) (e : Entry)
      (es : List Entry) {r : VerifyResult}
      → RowPasses hs registry n prev e
      → FirstBreak registry
          (suc n)
          e.entry_hash
          (c + known_count hs (encoder_for registry e.header.hash_version))
          (u ++ unknown_seq hs (encoder_for registry e.header.hash_version) e.header.seq)
          es
          r
      → FirstBreak registry n prev c u (e ∷ es) r
  later-FirstBreak registry n prev c u e es p f = record {
    before = e ∷ f.before;
    row = f.row;
    after = f.after;
    why = f.why;
    split = ap (λ t. e ∷ t) f.split;
    before_intact = (p, f.before_intact);
    row_breaks =
        subst
          (λ k. RowOutcome hs registry k (head_after e.entry_hash f.before) f.row (breaks f.why))
          (omega arith) f.row_breaks;
    reported =
        f.reported ∙ ap₂ (broken_at f.row.header.seq f.why) (add_assoc c _ _) (append_assoc u _ _);
  }

  -- Where the row did not break, `rest` is what the walk goes on with.
  module _ (registry : VersionRegistry) (n : ℕ) (prev : Text) (c : ℕ) (u : List ℤ) (e : Entry)
      (es : List Entry) (r : VerifyResult) (rest : ℕ → List ℤ → Result VerifyResult)
      (later : (c' : ℕ) (u' : List ℤ)
        → rest c' u' ≡ ok r
        → FirstBreak registry (suc n) e.entry_hash c' u' es r) where
    go_on :
        (row : Row)
        → ((why : Reason) → row ≢ breaks why)
        → check_row hs registry n prev e ≡ ok row
        → after_row hs row e.header.seq c u rest ≡ ok r
        → FirstBreak registry n prev c u (e ∷ es) r
    go_on row goes_on found h =
        let p = check_row-RowPasses hs registry n prev e found goes_on in
        let same : passing_row hs p ≡ row =
          ok_inj (sym (check_row-passes hs registry n prev e p) ∙ found) in
        later-FirstBreak registry n prev c u e es p (
          later _ _ (
            sym (after_row-passes hs registry n prev e p c u rest)
            ∙ ap (λ t. after_row hs t e.header.seq c u rest) same
            ∙ h))

    on_row :
        (row : Row)
        → check_row hs registry n prev e ≡ ok row
        → after_row hs row e.header.seq c u rest ≡ ok r
        → FirstBreak registry n prev c u (e ∷ es) r
    unfolding after_row
    on_row (breaks why) found h =
        here-FirstBreak registry n prev c u e es why found (sym (ok_inj h))
    on_row unknown found h = go_on unknown (λ why x. cc) found h
    on_row matches found h = go_on matches (λ why x. cc) found h

  walk-FirstBreak :
      (registry : VersionRegistry) (n : ℕ) (prev : Text) (c : ℕ) (u : List ℤ) (es : List Entry)
      {r : VerifyResult}
      → walk hs registry n prev c u es ≡ ok r
      → r.is_ok ≡ false
      → FirstBreak registry n prev c u es r
  unfolding walk
  walk-FirstBreak registry n prev c u [] h bad =
      absurd (false≢true (sym bad ∙ sym (ap (λ (t : VerifyResult). t.is_ok) (ok_inj h))))
  walk-FirstBreak registry n prev c u (e ∷ es) {r} h bad =
      let (row, found, rest) = >>=-eq-ok (check_row hs registry n prev e) _ h in
      on_row registry n prev c u e es r _
        (λ c' u' k. walk-FirstBreak registry (suc n) e.entry_hash c' u' es k bad) row found rest

  -- A `verify_chain` that fails reports the first break: the rows before it all pass, the row itself
  -- is out of position, unlinked or has another hash, as the reason says, its sequence number is
  -- reported, and the counts are those of the rows before it.
  pub verify_chain-FirstBreak :
      (registry : VersionRegistry) (es : List Entry) {r : VerifyResult}
      → verify_chain hs registry es ≡ ok r
      → r.is_ok ≡ false
      → FirstBreak registry 0 genesis_prev_hash 0 [] es r
  unfolding verify_chain
  verify_chain-FirstBreak registry es h bad =
      walk-FirstBreak registry 0 genesis_prev_hash 0 [] es h bad
