-- ===== src/Handoff/Reading.antt =====
-- How the payloads of src/waxseal/domain/ are read off a trail: optional members of an object, and
-- rows that cannot be read.
use waxseal.Base.{
  ok, value_error, lp_encoding_error, Result, raise, unicode_encode_error, some, Option, none, Text,
  type_error,
}
use waxseal.Handoff.{Json, Members, json_null}
use waxseal.Receipts.Line.{find_member}

-- `payload.get(key)`, where a missing key is `None`
unfoldable pub get_or_null : Text → Members → Json
unfolding find_member
get_or_null key obj = or_null (find_member key obj)
  where
    or_null : Option Json → Json
    or_null none = json_null
    or_null (some v) = v

-- `except (ValueError, TypeError, UnicodeDecodeError)`; none is a row that could not be read
unfoldable pub readable_or_none {ℓ} : {A : Type ℓ} → Result A → Result (Option A)
readable_or_none (raise value_error) = ok none
readable_or_none (raise lp_encoding_error) = ok none
readable_or_none (raise unicode_encode_error) = ok none
readable_or_none (raise type_error) = ok none
readable_or_none (raise e) = raise e
readable_or_none (ok a) = ok (some a)
