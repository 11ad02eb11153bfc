-- ===== src/Tests/Toy.antt =====
-- A stand-in for SHA-256: 32 bytes of a polynomial in the message.
use mathlib.Core.List.{foldl}
use waxseal.Base.{◌*◌, IsBytes, ◌+◌, ◌^◌, ℕ, length, ◌≡◌, text_eq, Bytes, ◌%◌}
use waxseal.Backend.{build_entry, append}
use waxseal.Base.Dict.{setdefault, lookup}
use waxseal.Base.Int.{◌+ℤ◌}
use waxseal.Bytes.Decimal.{show_int}
use waxseal.Bytes.Hex.{hex}
use waxseal.Bytes.Utf8.{encode}
use waxseal.Bytes.Word.{
  length_prefixed, length-big_endian, pack_u64, big_endian-IsBytes, big_endian,
}
use waxseal.Digest.{hexdigest, Hashes}
use waxseal.Fingerprint.{fingerprint_for, descriptor_frame, fingerprint, lp_components}
use waxseal.Hashing.{frame, header_frame, compute_payload_hash, lp_all, compute_entry_hash, lp}
use waxseal.Registry.{fields_eq, encoder_for, new_registry, register}
use waxseal.Verify.{verify_chain, walk, check_row}

abbrev mix : ℕ → ℕ → ℕ
mix acc b = (acc * 257 + b + 1) % 2 ^ 200

unfoldable pub toy_digest : Bytes → Bytes
toy_digest m = big_endian 32 (foldl mix 7 m)

unfoldable pub toy_mac : Bytes → Bytes → Bytes
toy_mac key m = big_endian 32 (foldl mix (foldl mix 11 key) m)

pub toy_digest-IsBytes : (m : Bytes) → IsBytes (toy_digest m)
unfolding toy_digest
toy_digest-IsBytes m = big_endian-IsBytes 32 _

pub length-toy_digest : (m : Bytes) → length (toy_digest m) ≡ 32
unfolding toy_digest
length-toy_digest m = length-big_endian 32 _

pub toy_mac-IsBytes : (k m : Bytes) → IsBytes (toy_mac k m)
unfolding toy_mac
toy_mac-IsBytes k m = big_endian-IsBytes 32 _

pub length-toy_mac : (k m : Bytes) → length (toy_mac k m) ≡ 32
unfolding toy_mac
length-toy_mac k m = length-big_endian 32 _

abbrev pub toy : Hashes
toy = record {
  sha256 = toy_digest;
  hmac_sha256 = toy_mac;
  sha256-IsBytes = toy_digest-IsBytes;
  length-sha256 = length-toy_digest;
  hmac-IsBytes = toy_mac-IsBytes;
  length-hmac = length-toy_mac;
}

-- Opens what a run of the program computes with.
unfoldable pub running : ℕ
unfolding toy_digest toy_mac big_endian text_eq encode show_int length_prefixed pack_u64 hex
    hexdigest lp lp_all frame header_frame compute_entry_hash compute_payload_hash lp_components
    descriptor_frame fingerprint fingerprint_for new_registry encoder_for fields_eq lookup check_row
    walk verify_chain append build_entry register setdefault ◌+ℤ◌
running = 0
