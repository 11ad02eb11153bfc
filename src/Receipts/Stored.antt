-- ===== src/Receipts/Stored.antt =====
-- `build_receipt_record` of src/waxseal/domain/receipts.py against `parse_receipt_line`.
use waxseal.Base.{◌+◌, Text, ℕ, false, ◌≡◌, ok, arith, ltb, refl, text_eq, some, true}
use waxseal.Base.Int.{pos}
use waxseal.Digest.{Hashes}
use waxseal.Handoff.{Json, json_text, is_sha256_hex}
use waxseal.Receipts.{ReceiptRecord, readable}
use waxseal.Receipts.Line.{
  parse_receipt_line, find_member, declared, framed_line, ReceiptFrameRegistry, versioned_line,
  shown, index_of, record_line, version_of, build_receipt_record, hex64_of, knows_frame,
}

module _ (hs : Hashes) (str : Json → Text) where
  -- A record that was built for an acknowledgment is read back as it was, where both places count
  -- from 0, both hashes and the identity of its frame are 64 lower-case hexadecimal digits, the
  -- reader knows that frame, and `str` of a text is the text.
  pub parse_receipt_line-build_receipt_record :
      (registry : ReceiptFrameRegistry) (line_no n m : ℕ)
      (entry_hash receipt_head source ts fp : Text)
      → is_sha256_hex entry_hash ≡ true
      → is_sha256_hex receipt_head ≡ true
      → is_sha256_hex fp ≡ true
      → knows_frame registry fp ≡ true
      → ((t : Text) → str (json_text t) ≡ t)
      → let r : ReceiptRecord = record {
        line_no = line_no;
        seq = pos n;
        entry_hash = entry_hash;
        receipt_seq = pos m;
        receipt_head = receipt_head;
        source = source;
        ts = ts;
        receipt_frame_fingerprint = fp;
      } in
        parse_receipt_line hs str line_no registry (some (build_receipt_record r)) ≡ ok (readable r)
  unfolding parse_receipt_line versioned_line framed_line declared build_receipt_record text_eq
      record_line index_of hex64_of version_of shown find_member
  parse_receipt_line-build_receipt_record registry line_no n m entry_hash receipt_head source ts fp
        hash head frame known text_lem =
      let up : ltb (n + 0) 0 ≡ false = ground arith in
      let up' : ltb (m + 0) 0 ≡ false = ground arith in
      rw (frame, known, up, up', hash, head, text_lem source, text_lem ts) refl
