-- ===== src/Fingerprint.antt =====
-- src/waxseal/domain/fingerprint.py: the version identity of a header schema, and the descriptor
-- frames of src/waxseal/domain/registry.py, which spell out the same bytes.
pub mod Descriptor
-- DESCRIPTOR_PREFIX, ALGORITHM
use waxseal.Base.{List, Text, ◌∷◌, ok, Bytes, Result, ◌++◌, ◌>>=◌, [], length, codes}
use waxseal.Bytes.Utf8.{encode}
use waxseal.Bytes.Word.{pack_u64, length_prefixed}
use waxseal.Digest.{Hashes, hexdigest}
use waxseal.Hashing.{encoding}
use waxseal.Header.{header_fields}

abbrev pub descriptor_prefix : Bytes
descriptor_prefix = codes "waxseal-descriptor-v1\n"

abbrev pub algorithm : Text
algorithm = codes "sha256"

-- `_lp`, which lets `UnicodeEncodeError` through
unfoldable pub lp_component : Text → Result Bytes
lp_component value = do enc ← encode value; length_prefixed enc

unfoldable pub lp_components : List Text → Result Bytes
unfolding lp_component
lp_components [] = ok []
lp_components (c ∷ cs) = do b ← lp_component c; bs ← lp_components cs; ok (b ++ bs)

abbrev pub components : List Text → List Text
components fields = algorithm ∷ encoding ∷ fields

-- `descriptor_frame`, and the frame that `fingerprint_for` hashes
unfoldable pub descriptor_frame : List Text → Result Bytes
unfolding lp_components
descriptor_frame fields = do
  count ← pack_u64 (length (components fields))
  body ← lp_components (components fields)
  ok (descriptor_prefix ++ (count ++ body))

module _ (hs : Hashes) where
  unfoldable pub fingerprint_for : List Text → Result Text
  fingerprint_for fields = do bytes ← descriptor_frame fields; ok (hexdigest hs bytes)

  -- The fingerprint of the schema that this build writes.
  unfoldable pub fingerprint : Result Text
  fingerprint = fingerprint_for header_fields
