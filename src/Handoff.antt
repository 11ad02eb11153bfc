-- ===== src/Handoff.antt =====
-- src/waxseal/domain/handoff.py: the payload that binds a chain to the head of another one. A
-- payload is a value that `json.loads` can return, with each key of an object once.
pub mod Binding
pub mod Reading
use waxseal.Base.{
  if◌then◌else◌, ◌∷◌, none, Text, get_elem?, ◌&&◌, raise_if, List, raise, text_eq, ◌>>◌, codes,
  length, ◌||◌, ok, Result, value_error, [], Bool, ◌>>=◌, leb, some, ℕ, ◌==◌, Option, true, not,
  false,
}
use waxseal.Base.Int.{ℤ, pos, leb_ℤ, ltb_ℤ, pos_part}

mutual
  pub data Json : Type 0 where
    json_null : Json
    json_bool : Bool → Json
    json_int : ℤ → Json
    json_float : Text → Json
    json_text : Text → Json
    json_list : Items → Json
    json_object : Members → Json

  pub data Items : Type 0 where
    no_items : Items
    item : Json → Items → Items

  pub data Members : Type 0 where
    no_members : Members
    member : Text → Json → Members → Members

-- `payload[key]`, and its `KeyError` as a `ValueError`
unfoldable pub get_member : Text → Members → Result Json
get_member key no_members = raise value_error
get_member key (member k v rest) =
    let later = get_member key rest in if text_eq key k then ok v else later

pub record HandoffBinding : Type 0 where
  pub chain_id : Text
  pub seq : ℤ
  pub head_hash : Text

-- `[0-9a-f]`
unfoldable pub is_lower_hex : ℕ → Bool
is_lower_hex c = (leb b'0' c && leb c b'9') || (leb b'a' c && leb c b'f')

unfoldable pub all_lower_hex : Text → Bool
unfolding is_lower_hex
all_lower_hex [] = true
all_lower_hex (c ∷ s) = is_lower_hex c && all_lower_hex s

-- _SHA256_HEX
unfoldable pub is_sha256_hex : Text → Bool
is_sha256_hex s = all_lower_hex s && length s == 64

unfoldable pub check_head : Text → ℤ → Json → Result HandoffBinding
check_head chain_id seq (json_text head_hash) =
    raise_if (not (is_sha256_hex head_hash)) value_error
    >> ok (record { chain_id = chain_id; seq = seq; head_hash = head_hash })
check_head chain_id seq _ = raise value_error

unfoldable pub check_seq : Text → Json → Json → Result HandoffBinding
unfolding check_head
check_seq chain_id (json_int seq) head_hash =
    raise_if (ltb_ℤ seq (pos 0)) value_error >> check_head chain_id seq head_hash
check_seq chain_id _ head_hash = raise value_error

-- `HandoffBinding(...)` with its `__post_init__`, whose checks run in this order
unfoldable pub new_binding : Json → Json → Json → Result HandoffBinding
unfolding check_seq
new_binding (json_text []) seq head_hash = raise value_error
new_binding (json_text (c ∷ s)) seq head_hash = check_seq (c ∷ s) seq head_hash
new_binding _ seq head_hash = raise value_error

unfoldable pub to_payload : HandoffBinding → Json
to_payload b = json_object (
    member (codes "chain_id") (json_text b.chain_id) (
      member (codes "seq") (json_int b.seq)
        (member (codes "head_hash") (json_text b.head_hash) no_members)))

unfoldable pub from_payload : Json → Result HandoffBinding
unfolding new_binding
from_payload (json_object members) = do
  chain_id ← get_member (codes "chain_id") members
  seq ← get_member (codes "seq") members
  head_hash ← get_member (codes "head_hash") members
  new_binding chain_id seq head_hash
from_payload _ = raise value_error

unfoldable pub head_matches : Option Text → Text → Bool
head_matches none head_hash = false
head_matches (some found) head_hash = text_eq found head_hash

-- `0 <= binding.seq < len(...)` and the comparison
unfoldable pub binding_holds : HandoffBinding → List Text → Bool
unfolding head_matches
binding_holds b origin =
    (leb_ℤ (pos 0) b.seq && ltb_ℤ b.seq (pos (length origin)))
    && head_matches (get_elem? origin (pos_part b.seq)) b.head_hash
