-- ===== src/Receipts/Line.antt =====
-- `parse_receipt_line` of src/waxseal/domain/receipts.py, the receipt frames of
-- src/waxseal/domain/receipt_fingerprint.py and `ReceiptFrameRegistry` of
-- src/waxseal/domain/registry.py.
use waxseal.Base.{
  codes, ◌++◌, Bool, length, text_eq, ◌>>=◌, not, [], if◌then◌else◌, Result, Option, ℕ, none, ok,
  some, List, ◌∷◌, Text,
}
use waxseal.Base.Dict.{setdefault, lookup, Dict, contains}
use waxseal.Base.Int.{pos, ltb_ℤ, ℤ, eq_ℤ}
use waxseal.Bytes.Decimal.{show_int}
use waxseal.Bytes.Word.{pack_u64}
use waxseal.Digest.{Hashes, hexdigest}
use waxseal.Fingerprint.{lp_components, algorithm}
use waxseal.Handoff.{
  Json, json_text, Members, json_int, member, json_null, json_object, no_members, is_sha256_hex,
}
use waxseal.Hashing.{encoding}
use waxseal.Receipts.{
  ReceiptLine, receipt_record_version, readable, unrecognized, receipt_frame_fields, malformed,
  unreadable, ReceiptRecord, receipt_descriptor_prefix,
}
use waxseal.Registry.{fields, get_item}

-- `self._schemas`
abbrev pub ReceiptFrameRegistry : Type 0
ReceiptFrameRegistry = Dict (List Text)

unfoldable pub knows_frame : ReceiptFrameRegistry → Text → Bool
knows_frame registry fp = contains fp registry

unfoldable pub frame_fields : ReceiptFrameRegistry → Text → Result (List Text)
frame_fields registry fp = get_item (lookup fp registry)

-- `obj.get(key)`
unfoldable pub find_member : Text → Members → Option Json
find_member key no_members = none
find_member key (member k v rest) =
    let later = find_member key rest in if text_eq key k then some v else later

-- `_index`, and none where it raises
unfoldable pub index_of : Option Json → Option ℤ
index_of (some (json_int value)) = if ltb_ℤ value (pos 0) then none else some value
index_of _ = none

-- `_hex64`, and none where it raises
unfoldable pub hex64_of : Option Json → Option Text
hex64_of (some (json_text value)) = if is_sha256_hex value then some value else none
hex64_of _ = none

-- The version stamp: the default, an integer, or none for another value.
unfoldable pub version_of : Option Json → Option ℤ
version_of none = some receipt_record_version
version_of (some (json_int version)) = some version
version_of (some _) = none

module _ (hs : Hashes) where
  unfoldable pub receipt_fingerprint_for : List Text → Result Text
  receipt_fingerprint_for fields = do
    count ← pack_u64 (length (algorithm ∷ encoding ∷ fields))
    body ← lp_components (algorithm ∷ encoding ∷ fields)
    ok (hexdigest hs (receipt_descriptor_prefix ++ (count ++ body)))

  unfoldable pub receipt_fingerprint : Result Text
  unfolding receipt_fingerprint_for
  receipt_fingerprint = receipt_fingerprint_for receipt_frame_fields

  -- `ReceiptFrameRegistry()`
  unfoldable pub new_receipt_registry : Result ReceiptFrameRegistry
  new_receipt_registry = do fp ← receipt_fingerprint; ok ((fp, receipt_frame_fields) ∷ [])

  unfoldable pub register_frame :
      List Text → ReceiptFrameRegistry → Result (Text × ReceiptFrameRegistry)
  register_frame fields registry = do
    fp ← receipt_fingerprint_for fields
    ok (fp, setdefault fp fields registry)

  -- The declared fingerprint: this build's own where there is none, and none where it is malformed.
  unfoldable pub declared : Option Json → Result (Option Text)
  unfolding hex64_of
  declared none = receipt_fingerprint >>= λ fp. ok (some fp)
  declared (some json_null) = receipt_fingerprint >>= λ fp. ok (some fp)
  declared (some value) = ok (hex64_of (some value))

module _ (hs : Hashes) (str : Json → Text) where
  -- `str(obj.get(key, default))`
  unfoldable pub shown : Option Json → Text → Text
  shown none default = default
  shown (some value) default = str value

  -- The record, or a malformed line where one of its four fields is.
  unfoldable pub record_line :
      ℕ → Text → Members → Option ℤ → Option Text → Option ℤ → Option Text → ReceiptLine
  unfolding shown find_member
  record_line line_no fp obj (some seq) (some entry_hash) (some receipt_seq) (some head) =
      readable (record {
        line_no = line_no;
        seq = seq;
        entry_hash = entry_hash;
        receipt_seq = receipt_seq;
        receipt_head = head;
        source = shown (find_member (codes "source") obj) (codes "unknown");
        ts = shown (find_member (codes "ts") obj) [];
        receipt_frame_fingerprint = fp;
      })
  record_line line_no fp obj _ _ _ _ = malformed line_no

  unfoldable pub framed_line : ℕ → ReceiptFrameRegistry → Members → Option Text → ReceiptLine
  unfolding record_line index_of hex64_of knows_frame find_member
  framed_line line_no registry obj none = malformed line_no
  framed_line line_no registry obj (some fp) =
      if not (knows_frame registry fp)
      then unrecognized line_no fp
      else record_line line_no fp obj (index_of (find_member (codes "seq") obj))
          (hex64_of (find_member (codes "entry_hash") obj))
          (index_of (find_member (codes "receipt_seq") obj))
          (hex64_of (find_member (codes "receipt_head") obj))

  unfoldable pub versioned_line : ℕ → ReceiptFrameRegistry → Members → Option ℤ → Result ReceiptLine
  unfolding framed_line declared
  versioned_line line_no registry obj none = ok (malformed line_no)
  versioned_line line_no registry obj (some version) =
      if not (eq_ℤ version receipt_record_version)
      then ok (unreadable line_no (show_int version))
      else (declared hs (find_member (codes "receipt_frame_fingerprint") obj) >>= λ fp.
          ok (framed_line line_no registry obj fp))

  -- `parse_receipt_line`, on the value of the line; none is a line that is no JSON.
  unfoldable pub parse_receipt_line : ℕ → ReceiptFrameRegistry → Option Json → Result ReceiptLine
  unfolding versioned_line version_of
  parse_receipt_line line_no registry (some (json_object obj)) =
      versioned_line line_no registry obj (version_of (find_member (codes "v") obj))
  parse_receipt_line line_no registry _ = ok (malformed line_no)

-- `build_receipt_record`
unfoldable pub build_receipt_record : ReceiptRecord → Json
build_receipt_record r = json_object (
    member (codes "entry_hash") (json_text r.entry_hash) (
      member (codes "receipt_frame_fingerprint") (json_text r.receipt_frame_fingerprint) (
        member (codes "receipt_head") (json_text r.receipt_head) (
          member (codes "receipt_seq") (json_int r.receipt_seq) (
            member (codes "seq") (json_int r.seq) (
              member (codes "source") (json_text r.source) (
                member (codes "ts") (json_text r.ts)
                  (member (codes "v") (json_int receipt_record_version) no_members))))))))
