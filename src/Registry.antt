-- ===== src/Registry.antt =====
-- src/waxseal/domain/registry.py: the append-only version registry and the cross-check of a
-- fingerprint against a descriptor published on a ledger.
pub mod Append
pub mod CrossCheck
use waxseal.Base.{
  if◌then◌else◌, text_eq, [], false, Bytes, ◌≡◌, Option, raise, Bool, Text, List, key_error, Result,
  is_some, ◌&&◌, none, ◌∷◌, ◌>>=◌, some, true, ok,
}
use waxseal.Base.Dict.{contains, Dict, lookup, setdefault}
use waxseal.Digest.{Hashes}
use waxseal.Fingerprint.{fingerprint_for, fingerprint}
use waxseal.Hashing.{encoding, header_frame}
use waxseal.Header.{header_fields, EntryHeader}

unfoldable pub fields_eq : List Text → List Text → Bool
fields_eq [] [] = true
fields_eq [] (y ∷ ys) = false
fields_eq (x ∷ xs) [] = false
fields_eq (x ∷ xs) (y ∷ ys) = text_eq x y && fields_eq xs ys

abbrev pub Encoder : Type 0
Encoder = EntryHeader → Result Bytes

-- _ENCODERS
abbrev pub encoders : Dict Encoder
encoders = (encoding, header_frame) ∷ []

pub record VersionRegistry : Type 0 where
  pub schemas : Dict (List Text)
  pub encodings : Dict Text

-- `d[k]`
abbrev pub get_item {ℓ} : {V : Type ℓ} → Option V → Result V
get_item none = raise key_error
get_item (some v) = ok v

unfoldable pub knows : VersionRegistry → Text → Bool
knows r fp = contains fp r.schemas

unfoldable pub fields : VersionRegistry → Text → Result (List Text)
fields r fp = get_item (lookup fp r.schemas)

-- `self._schemas.get(fp) != HEADER_FIELDS`
unfoldable pub has_header_fields : Option (List Text) → Bool
has_header_fields none = false
has_header_fields (some fs) = fields_eq fs header_fields

unfoldable pub encoder_for : VersionRegistry → Text → Result (Option Encoder)
unfolding has_header_fields
encoder_for r fp =
    if has_header_fields (lookup fp r.schemas)
    then (do
      name ← get_item (lookup fp r.encodings)
      encoder ← get_item (lookup name encoders)
      ok (some encoder))
    else ok none

unfoldable pub recomputable : VersionRegistry → Text → Result Bool
recomputable r fp = do found ← encoder_for r fp; ok (is_some found)

module _ (hs : Hashes) where
  -- `VersionRegistry()`
  unfoldable pub new_registry : Result VersionRegistry
  new_registry = do
    fp ← fingerprint hs
    ok (record { schemas = (fp, header_fields) ∷ []; encodings = (fp, encoding) ∷ [] })

  unfoldable pub register : List Text → VersionRegistry → Result (VersionRegistry × Text)
  register fs r = do
    fp ← fingerprint_for hs fs
    ok (record r { schemas = setdefault fp fs r.schemas }, fp)

  -- The registries that a program can hold: there is no other operation that changes one.
  pub data Reachable : VersionRegistry → Type 0 where
    created : {r : VersionRegistry} → new_registry ≡ ok r → Reachable r
    registered :
        {r s : VersionRegistry} (fs : List Text) (fp : Text)
        → Reachable r
        → register fs r ≡ ok (s, fp)
        → Reachable s
