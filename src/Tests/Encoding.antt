-- ===== src/Tests/Encoding.antt =====
-- The theorems on the encoding, the descriptors, the verdicts and the cross-check, at an input.
use waxseal.Base.{
  ◌≢◌, ◌≡◌, List, raise, some, none, ok, false, true, codes, refl, [], Result, Bytes, Text, ◌∷◌,
  ◌↔◌,
}
use waxseal.Base.Int.{pos}
use waxseal.Bytes.Hex.{hex}
use waxseal.Bytes.Utf8.{decode}
use waxseal.Bytes.Word.{unpack}
use waxseal.Fingerprint.{algorithm, fingerprint_for, descriptor_frame}
use waxseal.Fingerprint.Descriptor.{decode_descriptor-descriptor_frame, decode_descriptor}
use waxseal.Hashing.{lp, header_frame, null, compute_entry_hash, encoding}
use waxseal.Hashing.Injective.{header_frame_inj}
use waxseal.Header.{EntryHeader}
use waxseal.Registry.{VersionRegistry, knows, recomputable}
use waxseal.Registry.CrossCheck.{
  to_verdict, check_verdict, agrees, check, RegistryFinding, Published,
}
use waxseal.Tests.Toy.{running, toy}
use waxseal.Verdict.{broken, intact}

abbrev sample : EntryHeader
sample = record {
  seq = pos 12;
  ts = codes "2026-01-01";
  hash_version = codes "fp";
  payload_type = codes "é";
  payload_hash = [];
  prev_hash = codes "00";
}

or_empty : Result Bytes → Bytes
or_empty (ok b) = b
or_empty (raise _) = []

sample_frame : Bytes
unfolding running or_empty
sample_frame = or_empty (header_frame sample)

sample_frame_lem : header_frame sample ≡ ok sample_frame
unfolding running sample_frame
sample_frame_lem = refl

header_frame_inj_example : sample ≡ sample
header_frame_inj_example = header_frame_inj sample sample sample_frame_lem sample_frame_lem

null_bytes : lp null ≡ ok (0 ∷ 0 ∷ 0 ∷ 0 ∷ 0 ∷ 0 ∷ 0 ∷ 1 ∷ 0 ∷ [])
unfolding running
null_bytes = refl

sample_hash : Text
unfolding running or_empty
sample_hash = or_empty (compute_entry_hash toy header_frame sample)

sample_hash_lem : compute_entry_hash toy header_frame sample ≡ ok sample_hash
unfolding running sample_hash
sample_hash_lem = refl

abbrev schema : List Text
schema = codes "seq" ∷ codes "ts" ∷ []

schema_frame : Bytes
unfolding running or_empty
schema_frame = or_empty (descriptor_frame schema)

schema_frame_lem : descriptor_frame schema ≡ ok schema_frame
unfolding running schema_frame
schema_frame_lem = refl

decode_descriptor-descriptor_frame_example :
    decode_descriptor schema_frame ≡ some (algorithm ∷ encoding ∷ schema)
decode_descriptor-descriptor_frame_example =
    decode_descriptor-descriptor_frame schema schema_frame_lem

schema_fingerprint : Text
unfolding running or_empty
schema_fingerprint = or_empty (fingerprint_for toy schema)

schema_fingerprint_lem : fingerprint_for toy schema ≡ ok schema_fingerprint
unfolding running schema_fingerprint
schema_fingerprint_lem = refl

abbrev no_registry : VersionRegistry
no_registry = record { schemas = []; encodings = [] }

abbrev agreeing : RegistryFinding
agreeing = record {
  fingerprint = schema_fingerprint;
  status = agrees;
  reason = none;
  locally_known = false;
  locally_recomputable = false;
  onchain_descriptor = some (algorithm ∷ encoding ∷ schema);
  onchain_descriptor_hex = some (hex schema_frame);
}

agreeing_lem : check toy no_registry schema_fingerprint (some schema_frame) true ≡ ok agreeing
unfolding running check recomputable knows decode_descriptor unpack decode schema_fingerprint
    schema_frame
agreeing_lem = refl

check_verdict_example :
    (to_verdict agreeing ≢ broken)
    × ((to_verdict agreeing ≡ intact) ↔ Published toy schema_fingerprint true (some schema_frame))
check_verdict_example =
    check_verdict toy no_registry schema_fingerprint (some schema_frame) true agreeing_lem
