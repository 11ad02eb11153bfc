-- ===== src/Receipts/Parsed.antt =====
-- `parse_receipt_line` of src/waxseal/domain/receipts.py: the records that it returns.
use waxseal.Base.{
  inr, ok_inj, some_inj, ℕ, subst, true, arith, codes, none, sym, Option, Bool-cases, some, ok, ◌≡◌,
  >>=-eq-ok, refl, Text, inl,
}
use waxseal.Base.Int.{ℤ, ltb_ℤ, negsuc, eq_ℤ, pos}
use waxseal.Bytes.Decimal.{show_int}
use waxseal.Digest.{Hashes}
use waxseal.Handoff.{
  json_object, json_list, Json, json_float, json_int, json_null, json_text, json_bool, Members,
}
use waxseal.Receipts.{malformed, unreadable, receipt_record_version, ReceiptLine}
use waxseal.Receipts.Line.{
  ReceiptFrameRegistry, versioned_line, parse_receipt_line, knows_frame, index_of, version_of,
  declared, find_member, hex64_of, record_line, framed_line,
}
use waxseal.Receipts.Reference.{IsPlaced}

IsIndex : Option ℤ → Type 0
IsIndex o = (z : ℤ) → o ≡ some z → (n : ℕ) × (z ≡ pos n)

index_of-IsIndex : (o : Option Json) → IsIndex (index_of o)
unfolding index_of IsIndex
index_of-IsIndex (some (json_int (pos n))) z h = elim (Bool-cases (ltb_ℤ (pos n) (pos 0))) [
  | inl below ↦ cc (rw below at h)
  | inr up ↦ (n, sym (some_inj (rw up at h)))
]
index_of-IsIndex (some (json_int (negsuc n))) z h = cc (rw (below n) at h)
  where
    below : (n : ℕ) → ltb_ℤ (negsuc n) (pos 0) ≡ true
    below n = ground arith
index_of-IsIndex none z h = cc
index_of-IsIndex (some json_null) z h = cc
index_of-IsIndex (some (json_bool _)) z h = cc
index_of-IsIndex (some (json_float _)) z h = cc
index_of-IsIndex (some (json_text _)) z h = cc
index_of-IsIndex (some (json_list _)) z h = cc
index_of-IsIndex (some (json_object _)) z h = cc

module _ (hs : Hashes) (str : Json → Text) where
  record_line-IsPlaced :
      (line_no : ℕ) (fp : Text) (obj : Members) (seq : Option ℤ) (entry_hash : Option Text)
      (receipt_seq : Option ℤ) (head : Option Text)
      → IsIndex seq
      → IsPlaced (record_line hs str line_no fp obj seq entry_hash receipt_seq head)
  unfolding record_line IsPlaced IsIndex
  record_line-IsPlaced line_no fp obj none entry_hash receipt_seq head h = tt
  record_line-IsPlaced line_no fp obj (some seq) none receipt_seq head h = tt
  record_line-IsPlaced line_no fp obj (some seq) (some e) none head h = tt
  record_line-IsPlaced line_no fp obj (some seq) (some e) (some r) none h = tt
  record_line-IsPlaced line_no fp obj (some seq) (some e) (some r) (some head) h = h seq refl

  framed_line-IsPlaced :
      (line_no : ℕ) (registry : ReceiptFrameRegistry) (obj : Members) (fp : Option Text)
      → IsPlaced (framed_line hs str line_no registry obj fp)
  unfolding framed_line IsPlaced
  framed_line-IsPlaced line_no registry obj none = tt
  framed_line-IsPlaced line_no registry obj (some fp) =
      elim (Bool-cases (knows_frame registry fp)) [
        | inr foreign ↦ rw foreign tt
        | inl known ↦ rw known (
            record_line-IsPlaced line_no fp obj (index_of (find_member (codes "seq") obj))
              (hex64_of (find_member (codes "entry_hash") obj))
              (index_of (find_member (codes "receipt_seq") obj))
              (hex64_of (find_member (codes "receipt_head") obj))
              (index_of-IsIndex (find_member (codes "seq") obj)))
      ]

  malformed-IsPlaced :
      (line_no : ℕ) {line : ReceiptLine} → ok (malformed line_no) ≡ ok line → IsPlaced line
  unfolding IsPlaced
  malformed-IsPlaced line_no h = subst IsPlaced (ok_inj h) tt

  unreadable-IsPlaced :
      (line_no : ℕ) (v : Text) {line : ReceiptLine}
      → ok (unreadable line_no v) ≡ ok line
      → IsPlaced line
  unfolding IsPlaced
  unreadable-IsPlaced line_no v h = subst IsPlaced (ok_inj h) tt

  versioned_line-IsPlaced :
      (line_no : ℕ) (registry : ReceiptFrameRegistry) (obj : Members) (version : Option ℤ)
      {line : ReceiptLine}
      → versioned_line hs str line_no registry obj version ≡ ok line
      → IsPlaced line
  unfolding versioned_line
  versioned_line-IsPlaced line_no registry obj none h = malformed-IsPlaced line_no h
  versioned_line-IsPlaced line_no registry obj (some version) h =
      elim (Bool-cases (eq_ℤ version receipt_record_version)) [
        | inr newer ↦ unreadable-IsPlaced line_no (show_int version) (rw newer at h)
        | inl current ↦
            let (fp, _, made) =
              >>=-eq-ok (declared hs (find_member (codes "receipt_frame_fingerprint") obj)) _
                (rw current at h) in
            subst IsPlaced (ok_inj made) (framed_line-IsPlaced line_no registry obj fp)
      ]

  -- A record that was parsed from a line stands at a place from 0 on.
  pub parse_receipt_line-IsPlaced :
      (line_no : ℕ) (registry : ReceiptFrameRegistry) (value : Option Json) {line : ReceiptLine}
      → parse_receipt_line hs str line_no registry value ≡ ok line
      → IsPlaced line
  unfolding parse_receipt_line
  parse_receipt_line-IsPlaced line_no registry (some (json_object obj)) h =
      versioned_line-IsPlaced line_no registry obj (version_of (find_member (codes "v") obj)) h
  parse_receipt_line-IsPlaced line_no registry none h = malformed-IsPlaced line_no h
  parse_receipt_line-IsPlaced line_no registry (some json_null) h = malformed-IsPlaced line_no h
  parse_receipt_line-IsPlaced line_no registry (some (json_bool _)) h = malformed-IsPlaced line_no h
  parse_receipt_line-IsPlaced line_no registry (some (json_int _)) h = malformed-IsPlaced line_no h
  parse_receipt_line-IsPlaced line_no registry (some (json_float _)) h =
      malformed-IsPlaced line_no h
  parse_receipt_line-IsPlaced line_no registry (some (json_text _)) h = malformed-IsPlaced line_no h
  parse_receipt_line-IsPlaced line_no registry (some (json_list _)) h = malformed-IsPlaced line_no h
