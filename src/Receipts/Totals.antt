-- ===== src/Receipts/Totals.antt =====
-- What `reconcile_receipts` of src/waxseal/domain/receipts.py counts over all the lines.
use mathlib.Core.List.{append_assoc, append-nil}
use waxseal.Base.{
  Text, [], inl, false, ℕ, inr, refl, ◌≡◌, ap, some, none, Option, length, ◌∷◌, ◌+◌, Bool-cases,
  ◌++◌, List, true, arith, if◌then◌else◌,
}
use waxseal.Base.Int.{ℤ, ltb_ℤ, leb_ℤ}
use waxseal.Receipts.{
  malformed, ReceiptRecord, ReceiptLine, Counts, unrecognized, later_seq, unreadable, readable,
  count_line,
}

unfoldable pub records_of : List ReceiptLine → List ReceiptRecord
records_of [] = []
records_of (readable r ∷ lines) = r ∷ records_of lines
records_of (_ ∷ lines) = records_of lines

unfoldable pub versions_of : List ReceiptLine → List Text
versions_of [] = []
versions_of (unreadable _ version ∷ lines) = version ∷ versions_of lines
versions_of (_ ∷ lines) = versions_of lines

unfoldable pub frames_of : List ReceiptLine → List Text
frames_of [] = []
frames_of (unrecognized _ fingerprint ∷ lines) = fingerprint ∷ frames_of lines
frames_of (_ ∷ lines) = frames_of lines

-- The larger of two numbers.
unfoldable pub larger : ℤ → ℤ → ℤ
larger a b = if leb_ℤ b a then a else b

later_seq-larger : (a b : ℤ) → later_seq (some a) b ≡ larger a b
unfolding later_seq larger
later_seq-larger a b = elim (Bool-cases (ltb_ℤ a b)) [
  | inl below ↦ let other : leb_ℤ b a ≡ false = ground (arith, below) in rw (below, other) refl
  | inr above ↦ let other : leb_ℤ b a ≡ true = ground (arith, above) in rw (above, other) refl
]

-- The largest sequence number, from one that was seen before.
unfoldable pub latest_from : Option ℤ → List ReceiptRecord → Option ℤ
latest_from latest [] = latest
latest_from none (r ∷ rs) = latest_from (some r.seq) rs
latest_from (some latest) (r ∷ rs) = latest_from (some (larger latest r.seq)) rs

latest_from-later_seq :
    (latest : Option ℤ) (r : ReceiptRecord) (rs : List ReceiptRecord)
    → latest_from (some (later_seq latest r.seq)) rs ≡ latest_from latest (r ∷ rs)
unfolding latest_from later_seq
latest_from-later_seq none r rs = refl
latest_from-later_seq (some latest) r rs =
    ap (λ z. latest_from (some z) rs) (later_seq-larger latest r.seq)

unfoldable pub counts_from : Counts → List ReceiptLine → Counts
unfolding records_of versions_of frames_of latest_from
counts_from c lines = record {
  checked = c.checked + length (records_of lines);
  latest_seq = latest_from c.latest_seq (records_of lines);
  unreadable = c.unreadable ++ versions_of lines;
  unrecognized = c.unrecognized ++ frames_of lines;
}

pub counts_eq :
    {n m : ℕ} {a b : Option ℤ} {us vs ws xs : List Text}
    → n ≡ m
    → a ≡ b
    → us ≡ vs
    → ws ≡ xs
    → Path Counts
        (record { checked = n; latest_seq = a; unreadable = us; unrecognized = ws })
        (record { checked = m; latest_seq = b; unreadable = vs; unrecognized = xs })
counts_eq h i j k = cc

pub count_line-counts_from :
    (c : Counts) (line : ReceiptLine) (lines : List ReceiptLine)
    → counts_from (count_line c line) lines ≡ counts_from c (line ∷ lines)
unfolding count_line counts_from
count_line-counts_from c (readable r) lines =
    counts_eq (omega arith) (latest_from-later_seq c.latest_seq r (records_of lines)) refl refl
count_line-counts_from c (malformed _) lines = refl
count_line-counts_from c (unreadable _ version) lines =
    counts_eq refl refl (append_assoc c.unreadable (version ∷ []) (versions_of lines)) refl
count_line-counts_from c (unrecognized _ fingerprint) lines =
    counts_eq refl refl refl (append_assoc c.unrecognized (fingerprint ∷ []) (frames_of lines))

pub counts_from-nil : (c : Counts) → counts_from c [] ≡ c
unfolding counts_from
counts_from-nil c =
    counts_eq (omega arith) refl (append-nil c.unreadable) (append-nil c.unrecognized)
