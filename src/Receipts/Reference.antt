-- ===== src/Receipts/Reference.antt =====
-- `reconcile_receipts` of src/waxseal/domain/receipts.py, by the first fault in file order and the
-- counts over all the lines.
use waxseal.Base.{
  ◌∙◌, suc, get_elem?, arith, inl, or_else, ◌<◌, ◌⊎◌, length, List, inr, ℕ, ap, leb, none, text_eq,
  Option, ◌∷◌, ◌≡◌, Text, Result, ◌+◌, Bool-cases, sym, ok, zero, refl, [], All, true, ◌≤◌, some,
  Bool, ◌>>=◌, false, if◌then◌else◌,
}
use waxseal.Base.Int.{pos, ℤ, pos_part}
use waxseal.Checkpoint.{item_at}
use waxseal.Receipts.{
  Counts, malformed_receipt_record, ReceiptLine, judge_line, ReceiptReconciliation, ReceiptReason,
  is_broken, ReceiptRecord, Standing, ReceiptSidecar, receipt_beyond_head, reconciliation,
  unrecognized_receipt_frame_fingerprint, judge_record, unrecognized, unreadable, judge_lines,
  python_item, clean, broken_by, readable, malformed, unreadable_record_version, unverified,
  receipt_mismatch, reconcile_receipts, nothing_counted, count_line,
}
use waxseal.Receipts.Totals.{
  counts_eq, count_line-counts_from, counts_from, versions_of, counts_from-nil, latest_from,
  records_of, frames_of,
}
use waxseal.Verdict.{Verdict, broken, unverifiable, intact}

abbrev pub Fault : Type 0
Fault = ReceiptReason × Option ℤ × ℕ

-- The entry hash at the place of a receipt is another one, or there is none.
unfoldable pub fault_at : Option Text → ReceiptRecord → Option Fault
fault_at none r = some (receipt_beyond_head, some r.seq, r.line_no)
fault_at (some found) r =
    if text_eq found r.entry_hash then none else some (receipt_mismatch, some r.seq, r.line_no)

unfoldable pub fault : List Text → ReceiptLine → Option Fault
unfolding fault_at
fault hashes (readable r) = fault_at (get_elem? hashes (pos_part r.seq)) r
fault hashes (malformed line_no) = some (malformed_receipt_record, none, line_no)
fault hashes _ = none

unfoldable pub first_fault : List Text → List ReceiptLine → Option Fault
unfolding fault
first_fault hashes [] = none
first_fault hashes (line ∷ lines) = or_else (fault hashes line) (first_fault hashes lines)

-- A finding by its fault.
unfoldable pub standing_of : Option Fault → Standing
standing_of none = clean
standing_of (some (reason, seq, line_no)) = broken_by reason seq line_no

-- The sequence number of a record that was parsed is not negative.
unfoldable pub IsPlaced : ReceiptLine → Type 0
IsPlaced (readable r) = (n : ℕ) × (r.seq ≡ pos n)
IsPlaced (malformed _) = Unit
IsPlaced (unreadable _ _) = Unit
IsPlaced (unrecognized _ _) = Unit

-- After a fault only the counts move.
judge_lines-broken :
    (hashes : List Text) (reason : ReceiptReason) (seq : Option ℤ) (line_no : ℕ) (c : Counts)
    (lines : List ReceiptLine)
    → judge_lines hashes (broken_by reason seq line_no) c lines
      ≡ ok (broken_by reason seq line_no, counts_from c lines)
unfolding judge_lines judge_line judge_record is_broken
judge_lines-broken hashes reason seq line_no c [] =
    ap (λ d. ok (broken_by reason seq line_no, d)) (sym (counts_from-nil c))
judge_lines-broken hashes reason seq line_no c (readable r ∷ lines) =
    judge_lines-broken hashes reason seq line_no (count_line c (readable r)) lines
    ∙ ap (λ d. ok (broken_by reason seq line_no, d)) (count_line-counts_from c (readable r) lines)
judge_lines-broken hashes reason seq line_no c (malformed n ∷ lines) =
    judge_lines-broken hashes reason seq line_no (count_line c (malformed n)) lines
    ∙ ap (λ d. ok (broken_by reason seq line_no, d)) (count_line-counts_from c (malformed n) lines)
judge_lines-broken hashes reason seq line_no c (unreadable n v ∷ lines) =
    judge_lines-broken hashes reason seq line_no (count_line c (unreadable n v)) lines
    ∙ ap (λ d. ok (broken_by reason seq line_no, d))
        (count_line-counts_from c (unreadable n v) lines)
judge_lines-broken hashes reason seq line_no c (unrecognized n v ∷ lines) =
    judge_lines-broken hashes reason seq line_no (count_line c (unrecognized n v)) lines
    ∙ ap (λ d. ok (broken_by reason seq line_no, d))
        (count_line-counts_from c (unrecognized n v) lines)

item_at-get_elem? :
    (xs : List Text) (n : ℕ)
    → ((x : Text) × (n < length xs) × (get_elem? xs n ≡ some x) × (item_at xs n ≡ ok x))
      ⊎ ((length xs ≤ n) × (get_elem? xs n ≡ none))
unfolding item_at
item_at-get_elem? [] n = inr (omega arith, refl)
item_at-get_elem? (x ∷ xs) zero = inl (x, omega arith, refl, refl)
item_at-get_elem? (x ∷ xs) (suc n) = elim (item_at-get_elem? xs n) [
  | inl (y, below, at, same) ↦ inl (y, omega (arith, below), at, same)
  | inr (beyond, at) ↦ inr (omega (arith, beyond), at)
]

-- A line where nothing was wrong before.
judge_line-clean :
    (hashes : List Text) (line : ReceiptLine)
    → IsPlaced line
    → judge_line hashes clean line ≡ ok (standing_of (fault hashes line))
unfolding judge_line judge_record is_broken fault standing_of IsPlaced python_item
judge_line-clean hashes (malformed _) placed = refl
judge_line-clean hashes (unreadable _ _) placed = refl
judge_line-clean hashes (unrecognized _ _) placed = refl
judge_line-clean hashes (readable r) (n, at) = elim (item_at-get_elem? hashes n) [
  | inr (beyond, absent) ↦
      let past : leb (length hashes + 0) (n + 0) ≡ true = ground (arith, beyond) in
      rw (at, past, absent) refl
  | inl (found, below, present, item) ↦
      let inside : leb (length hashes + 0) (n + 0) ≡ false = ground (arith, below) in
      elim (Bool-cases (text_eq found r.entry_hash)) [
        | inl same ↦ rw (at, inside, item, present, same) refl
        | inr differ ↦ rw (at, inside, item, present, differ) refl
      ]
]

-- From a state without a finding, the loop ends with the first fault and all the counts.
judge_lines-clean :
    (hashes : List Text) (c : Counts) (lines : List ReceiptLine)
    → All IsPlaced lines
    → judge_lines hashes clean c lines
      ≡ ok (standing_of (first_fault hashes lines), counts_from c lines)
unfolding judge_lines first_fault standing_of
judge_lines-clean hashes c [] placed = ap (λ d. ok (clean, d)) (sym (counts_from-nil c))
judge_lines-clean hashes c (line ∷ lines) (here, later) =
    ap (λ (r : Result Standing). r >>= λ next. judge_lines hashes next (count_line c line) lines)
      (judge_line-clean hashes line here)
    ∙ go (fault hashes line) (judge_lines-clean hashes (count_line c line) lines later)
  where
    go :
        (o : Option Fault)
        → judge_lines hashes clean (count_line c line) lines
          ≡ ok (standing_of (first_fault hashes lines), counts_from (count_line c line) lines)
        → judge_lines hashes (standing_of o) (count_line c line) lines
          ≡ ok (standing_of (or_else o (first_fault hashes lines)), counts_from c (line ∷ lines))
    go none rest =
        rest
        ∙ ap (λ d. ok (standing_of (first_fault hashes lines), d))
            (count_line-counts_from c line lines)
    go (some (reason, seq, line_no)) rest =
        judge_lines-broken hashes reason seq line_no (count_line c line) lines
        ∙ ap (λ d. ok (broken_by reason seq line_no, d)) (count_line-counts_from c line lines)

-- The verdict and the reason that the first fault and the lines which cannot be judged call for.
unfoldable pub verdict_of : Option Fault → List Text → List Text → Verdict × Option ReceiptReason
verdict_of (some (reason, _, _)) versions frames = (broken, some reason)
verdict_of none (_ ∷ _) frames = (unverifiable, some unreadable_record_version)
verdict_of none [] (_ ∷ _) = (unverifiable, some unrecognized_receipt_frame_fingerprint)
verdict_of none [] [] = (intact, none)

-- The answer by the whole file.
unfoldable pub reconciled : Bool → Option Fault → List ReceiptLine → ReceiptReconciliation
unfolding verdict_of standing_of versions_of frames_of records_of latest_from
reconciled present first lines =
    let (verdict, reason) = verdict_of first (versions_of lines) (frames_of lines) in
    record {
      verdict = verdict;
      reason = reason;
      checked = length (records_of lines);
      broken_seq = (standing_of first).broken_seq;
      broken_line = (standing_of first).broken_line;
      present = present;
      latest_seq = latest_from none (records_of lines);
      unreadable_versions = versions_of lines;
      unrecognized_receipt_fingerprints = frames_of lines;
    }

unverified-verdict_of :
    (first : Option Fault) (c : Counts)
    → unverified (standing_of first).verdict (standing_of first).reason c
      ≡ verdict_of first c.unreadable c.unrecognized
unfolding unverified verdict_of standing_of
unverified-verdict_of (some _) c = refl
unverified-verdict_of none c = go c.unreadable c.unrecognized
  where
    go :
        (us ws : List Text)
        → unverified intact none (record c { unreadable = us; unrecognized = ws })
          ≡ verdict_of none us ws
    go (_ ∷ _) ws = refl
    go [] (_ ∷ _) = refl
    go [] [] = refl

counts_from-nothing :
    (lines : List ReceiptLine)
    → Path Counts (counts_from nothing_counted lines) (record {
      checked = length (records_of lines);
      latest_seq = latest_from none (records_of lines);
      unreadable = versions_of lines;
      unrecognized = frames_of lines;
    })
unfolding counts_from
counts_from-nothing lines = counts_eq (omega arith) refl refl refl

-- `reconcile_receipts` returns on every sidecar whose records stand at a place from 0 on, and it
-- answers by the whole file: broken by the first fault in file order, or else unverifiable where a
-- line could not be judged, or else intact; with the count of the records, the largest of
-- their places, and every version and frame that was not known.
pub reconcile_receipts-reconciled :
    (hashes : List Text) (sidecar : ReceiptSidecar)
    → All IsPlaced sidecar.lines
    → reconcile_receipts hashes sidecar
      ≡ ok (reconciled sidecar.present (first_fault hashes sidecar.lines) sidecar.lines)
unfolding reconcile_receipts reconciliation reconciled
reconcile_receipts-reconciled hashes sidecar placed =
    let first = first_fault hashes sidecar.lines in
    ap (λ (r : Result (Standing × Counts)). r >>= λ f. ok (reconciliation sidecar.present f))
      (judge_lines-clean hashes nothing_counted sidecar.lines placed)
    ∙ ap (λ c. ok (reconciliation sidecar.present (standing_of first, c)))
        (counts_from-nothing sidecar.lines)
    ∙ ap
        (λ (v : Verdict × Option ReceiptReason). ok (record {
          verdict = v.0;
          reason = v.1;
          checked = length (records_of sidecar.lines);
          broken_seq = (standing_of first).broken_seq;
          broken_line = (standing_of first).broken_line;
          present = sidecar.present;
          latest_seq = latest_from none (records_of sidecar.lines);
          unreadable_versions = versions_of sidecar.lines;
          unrecognized_receipt_fingerprints = frames_of sidecar.lines;
        }))
        (unverified-verdict_of first _)
