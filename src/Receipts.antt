-- ===== src/Receipts.antt =====
-- src/waxseal/domain/receipts.py and receipt_fingerprint.py, and `ReceiptFrameRegistry` of
-- src/waxseal/domain/registry.py. A line is what `json.loads` returns for it, with each key of an
-- object once; the message of a malformed line is left out, and `str(...)` of a value is an
-- argument.
pub mod Line
pub mod Totals
pub mod Reference
pub mod Parsed
pub mod Stored
use waxseal.Base.{
  length, some, false, index_error, List, ◌++◌, [], text_eq, ◌+◌, Result, none, ◌-◌, Bytes, raise,
  ◌>>=◌, Text, Option, codes, ◌∷◌, ℕ, true, if◌then◌else◌, not, ltb, ok, Bool,
}
use waxseal.Base.Int.{ltb_ℤ, leb_ℤ, pos, negsuc, ℤ}
use waxseal.Checkpoint.{item_at}
use waxseal.Fingerprint.{fingerprint}
use waxseal.Verdict.{Verdict, broken, intact, unverifiable}

abbrev pub receipt_descriptor_prefix : Bytes
receipt_descriptor_prefix = codes "waxseal-receipt-descriptor-v1\n"

-- RECEIPT_FRAME_FIELDS
abbrev pub receipt_frame_fields : List Text
receipt_frame_fields = codes "receipt_seq" ∷ codes "prev_receipt_head" ∷ codes "entry_hash" ∷ []

abbrev pub receipt_record_version : ℤ
receipt_record_version = pos 1

pub record ReceiptRecord : Type 0 where
  pub line_no : ℕ
  pub seq : ℤ
  pub entry_hash : Text
  pub receipt_seq : ℤ
  pub receipt_head : Text
  pub source : Text
  pub ts : Text
  pub receipt_frame_fingerprint : Text

pub data ReceiptLine : Type 0 where
  readable : ReceiptRecord → ReceiptLine
  malformed : ℕ → ReceiptLine
  unreadable unrecognized : ℕ → Text → ReceiptLine

pub data ReceiptReason : Type 0 where
  receipt_mismatch receipt_beyond_head malformed_receipt_record : ReceiptReason
  unreadable_record_version unrecognized_receipt_frame_fingerprint : ReceiptReason

pub record ReceiptSidecar : Type 0 where
  pub present : Bool
  pub lines : List ReceiptLine

pub record ReceiptReconciliation : Type 0 where
  pub verdict : Verdict
  pub reason : Option ReceiptReason
  pub checked : ℕ
  pub broken_seq : Option ℤ
  pub broken_line : Option ℕ
  pub present : Bool
  pub latest_seq : Option ℤ
  pub unreadable_versions : List Text
  pub unrecognized_receipt_fingerprints : List Text

-- `verdict`, `reason`, `broken_seq` and `broken_line` of the loop
pub record Standing : Type 0 where
  pub verdict : Verdict
  pub reason : Option ReceiptReason
  pub broken_seq : Option ℤ
  pub broken_line : Option ℕ

-- `checked`, `latest_seq`, `unreadable` and `unrecognized` of the loop
pub record Counts : Type 0 where
  pub checked : ℕ
  pub latest_seq : Option ℤ
  pub unreadable : List Text
  pub unrecognized : List Text

abbrev pub clean : Standing
clean = record { verdict = intact; reason = none; broken_seq = none; broken_line = none }

abbrev pub nothing_counted : Counts
nothing_counted = record { checked = 0; latest_seq = none; unreadable = []; unrecognized = [] }

unfoldable pub is_broken : Verdict → Bool
is_broken intact = false
is_broken unverifiable = false
is_broken broken = true

-- `entry_hashes[seq]`, which counts from the end for a negative `seq`
unfoldable pub python_item : List Text → ℤ → Result Text
python_item hashes (pos n) = item_at hashes n
python_item hashes (negsuc n) =
    if ltb n (length hashes) then item_at hashes (length hashes - 1 - n) else raise index_error

-- `entry.seq if latest_seq is None else max(latest_seq, entry.seq)`
unfoldable pub later_seq : Option ℤ → ℤ → ℤ
later_seq none seq = seq
later_seq (some latest) seq = if ltb_ℤ latest seq then seq else latest

abbrev pub broken_by : ReceiptReason → Option ℤ → ℕ → Standing
broken_by reason seq line_no = record {
  verdict = broken;
  reason = some reason;
  broken_seq = seq;
  broken_line = some line_no;
}

unfoldable pub judge_record : List Text → Standing → ReceiptRecord → Result Standing
unfolding is_broken python_item
judge_record hashes s r =
    if is_broken s.verdict
    then ok s
    else if leb_ℤ (pos (length hashes)) r.seq
    then ok (broken_by receipt_beyond_head (some r.seq) r.line_no)
    else (python_item hashes r.seq >>= λ found. ok (
        if not (text_eq found r.entry_hash)
        then broken_by receipt_mismatch (some r.seq) r.line_no
        else s))

-- What a line does to the finding.
unfoldable pub judge_line : List Text → Standing → ReceiptLine → Result Standing
unfolding judge_record is_broken
judge_line hashes s (readable r) = judge_record hashes s r
judge_line hashes s (malformed line_no) = ok (
    if is_broken s.verdict then s else record s {
      verdict = broken;
      reason = some malformed_receipt_record;
      broken_line = some line_no;
    })
judge_line hashes s (unreadable _ _) = ok s
judge_line hashes s (unrecognized _ _) = ok s

-- What a line does to the counts.
unfoldable pub count_line : Counts → ReceiptLine → Counts
unfolding later_seq
count_line c (readable r) = record c {
  checked = c.checked + 1;
  latest_seq = some (later_seq c.latest_seq r.seq);
}
count_line c (malformed _) = c
count_line c (unreadable _ version) = record c { unreadable = c.unreadable ++ version ∷ [] }
count_line c (unrecognized _ fingerprint) = record c {
  unrecognized = c.unrecognized ++ fingerprint ∷ [];
}

-- The `for` loop.
unfoldable pub judge_lines :
    List Text → Standing → Counts → List ReceiptLine → Result (Standing × Counts)
unfolding judge_line count_line
judge_lines hashes s c [] = ok (s, c)
judge_lines hashes s c (line ∷ lines) =
    judge_line hashes s line >>= λ next. judge_lines hashes next (count_line c line) lines

-- `if verdict is Verdict.OK: ...`
unfoldable pub unverified : Verdict → Option ReceiptReason → Counts → Verdict × Option ReceiptReason
unverified broken reason c = (broken, reason)
unverified unverifiable reason c = (unverifiable, reason)
unverified intact reason c = by c.unreadable c.unrecognized
  where
    by : List Text → List Text → Verdict × Option ReceiptReason
    by (_ ∷ _) fingerprints = (unverifiable, some unreadable_record_version)
    by [] (_ ∷ _) = (unverifiable, some unrecognized_receipt_frame_fingerprint)
    by [] [] = (intact, reason)

unfoldable pub reconciliation : Bool → Standing × Counts → ReceiptReconciliation
unfolding unverified
reconciliation present (s, c) =
    let (verdict, reason) = unverified s.verdict s.reason c in
    record {
      verdict = verdict;
      reason = reason;
      checked = c.checked;
      broken_seq = s.broken_seq;
      broken_line = s.broken_line;
      present = present;
      latest_seq = c.latest_seq;
      unreadable_versions = c.unreadable;
      unrecognized_receipt_fingerprints = c.unrecognized;
    }

unfoldable pub reconcile_receipts : List Text → ReceiptSidecar → Result ReceiptReconciliation
unfolding judge_lines reconciliation
reconcile_receipts hashes sidecar = do
  found ← judge_lines hashes clean nothing_counted sidecar.lines
  ok (reconciliation sidecar.present found)
