-- ===== src/Hashing.antt =====
-- src/waxseal/domain/hashing.py: the canonical encoding lp64 and the hashes of an entry.
pub mod Injective
use waxseal.Base.{
  Bytes, ◌>>=◌, lp_encoding_error, ok, ℕ, List, [], ◌∷◌, Result, Text, ◌++◌, unicode_encode_error,
  raise, codes,
}
use waxseal.Bytes.Decimal.{show_int}
use waxseal.Bytes.Utf8.{encode}
use waxseal.Bytes.Word.{pack_u64, length_prefixed}
use waxseal.Digest.{hexdigest, Hashes}
use waxseal.Header.{EntryHeader}

-- FRAME_PREFIX, ENCODING
abbrev pub frame_prefix : Bytes
frame_prefix = codes "waxseal-lp64\n"

abbrev pub encoding : Text
encoding = codes "lp64"

-- `str | _Null`
pub data Field : Type 0 where
  null : Field
  text : Text → Field

-- `raise LpEncodingError(...) from exc`
abbrev pub relabel : {A : Type 0} → Result A → Result A
relabel (ok a) = ok a
relabel (raise unicode_encode_error) = raise lp_encoding_error
relabel (raise e) = raise e

unfoldable pub tagged : Field → Result Bytes
tagged null = ok (0 ∷ [])
tagged (text s) = do enc ← relabel (encode s); ok (1 ∷ enc)

unfoldable pub lp : Field → Result Bytes
unfolding tagged
lp value = do enc ← tagged value; length_prefixed enc

unfoldable pub lp_all : List Field → Result Bytes
lp_all [] = ok []
lp_all (x ∷ xs) = do b ← lp x; bs ← lp_all xs; ok (b ++ bs)

-- A prefix, the number of fields and the fields: the form of every frame that is hashed.
unfoldable pub frame : Bytes → ℕ → List Field → Result Bytes
frame prefix count fields = do
  size ← pack_u64 count
  body ← lp_all fields
  ok (prefix ++ (size ++ body))

unfoldable pub header_frame : EntryHeader → Result Bytes
header_frame h = frame frame_prefix 6 (
    text (show_int h.seq)
    ∷ text h.ts
    ∷ text h.hash_version
    ∷ text h.payload_type
    ∷ text h.payload_hash
    ∷ text h.prev_hash
    ∷ [])

module _ (hs : Hashes) where
  unfoldable pub compute_entry_hash : (EntryHeader → Result Bytes) → EntryHeader → Result Text
  compute_entry_hash encoder header = do bytes ← encoder header; ok (hexdigest hs bytes)

  unfoldable pub compute_payload_hash : Bytes → Text
  compute_payload_hash payload = hexdigest hs payload
