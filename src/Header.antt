-- ===== src/Header.antt =====
-- src/waxseal/domain/header.py: the entry envelope.
use waxseal.Base.{Text, ◌∷◌, Option, codes, Bytes, List, ℕ, [], zero, suc}
use waxseal.Base.Int.{ℤ}

abbrev zeros : ℕ → Text
zeros zero = []
zeros (suc n) = b'0' ∷ zeros n

-- GENESIS_PREV_HASH
abbrev pub genesis_prev_hash : Text
genesis_prev_hash = zeros 64

-- HEADER_FIELDS
abbrev pub header_fields : List Text
header_fields =
    codes "seq"
    ∷ codes "ts"
    ∷ codes "hash_version"
    ∷ codes "payload_type"
    ∷ codes "payload_hash"
    ∷ codes "prev_hash"
    ∷ []

pub record EntryHeader : Type 0 where
  pub seq : ℤ
  pub ts : Text
  pub hash_version : Text
  pub payload_type : Text
  pub payload_hash : Text
  pub prev_hash : Text

-- `payload = none` is a header-only source, which differs from an empty payload.
pub record Entry : Type 0 where
  pub header : EntryHeader
  pub entry_hash : Text
  pub payload : Option Bytes
