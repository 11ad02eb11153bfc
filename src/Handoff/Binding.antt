-- ===== src/Handoff/Binding.antt =====
-- Bindings of src/waxseal/domain/handoff.py, their payloads, and what reading a payload raises.
use waxseal.Base.{
  ok_inj, ok, false, true, >>=-eq-ok, OnlyValueError, >>=-OnlyValueError, ◌∙◌, value_error,
  Exception, [], ◌≢◌, Bool-cases, sym, text_eq, codes, inr, ◌≡◌, raise_if, ok-OnlyValueError, raise,
  Text, ◌∷◌, ap, raise-OnlyValueError, inl, refl, not, raise_if-OnlyValueError,
}
use waxseal.Base.Int.{ℤ, ltb_ℤ, pos}
use waxseal.Handoff.{
  from_payload, HandoffBinding, member, no_members, json_int, get_member, check_seq, is_sha256_hex,
  json_object, check_head, json_text, new_binding, Members, Json, to_payload,
}

-- What the constructor accepts.
unfoldable pub IsBinding : HandoffBinding → Type 0
IsBinding b = (b.chain_id ≢ []) × (ltb_ℤ b.seq (pos 0) ≡ false) × (is_sha256_hex b.head_hash ≡ true)

-- Reading the payload of a binding gives the binding back.
pub from_payload-to_payload :
    (b : HandoffBinding) → IsBinding b → from_payload (to_payload b) ≡ ok b
unfolding from_payload to_payload get_member text_eq IsBinding
from_payload-to_payload b (named, up, digest) = go b.chain_id named
  where
    go :
        (chain_id : Text)
        → chain_id ≢ []
        → new_binding (json_text chain_id) (json_int b.seq) (json_text b.head_hash)
          ≡ ok (record b { chain_id = chain_id })
    go [] n = absurd (n refl)
    go (c ∷ s) n = unfold new_binding in unfold check_seq in unfold check_head in rw (up, digest)

accepted-head :
    (chain_id : Text) (seq : ℤ) (head : Json) {b : HandoffBinding}
    → check_head chain_id seq head ≡ ok b
    → (b.chain_id ≡ chain_id) × (b.seq ≡ seq) × (is_sha256_hex b.head_hash ≡ true)
unfolding check_head
accepted-head chain_id seq (json_text h) e = elim (Bool-cases (is_sha256_hex h)) [
  | inl digest ↦
      let made = ok_inj (rw digest at e) in
      (
        sym (ap (λ t. t.chain_id) made),
        sym (ap (λ t. t.seq) made),
        ap (λ t. is_sha256_hex t.head_hash) (sym made) ∙ digest,
      )
  | inr other ↦ cc (rw other at e)
]
accepted-head chain_id seq _ e = cc

accepted-seq :
    (chain_id : Text) (seq head : Json) {b : HandoffBinding}
    → check_seq chain_id seq head ≡ ok b
    → (b.chain_id ≡ chain_id) × (ltb_ℤ b.seq (pos 0) ≡ false) × (is_sha256_hex b.head_hash ≡ true)
unfolding check_seq
accepted-seq chain_id (json_int n) head e = elim (Bool-cases (ltb_ℤ n (pos 0))) [
  | inl below ↦ cc (rw below at e)
  | inr up ↦
      let (named, numbered, digest) = accepted-head chain_id n head (rw up at e) in
      (named, ap (λ z. ltb_ℤ z (pos 0)) numbered ∙ up, digest)
]
accepted-seq chain_id _ head e = cc

accepted :
    (chain seq head : Json) {b : HandoffBinding} → new_binding chain seq head ≡ ok b → IsBinding b
unfolding new_binding IsBinding
accepted (json_text []) seq head e = cc
accepted (json_text (c ∷ s)) seq head e =
    let (named, up, digest) = accepted-seq (c ∷ s) seq head e in
    ((λ none_given. cc (sym named ∙ none_given)), up, digest)
accepted _ seq head e = cc

-- Whatever value is read, a binding comes out of it only with a name, a position that is not
-- negative and a head hash of 64 lower-case hexadecimal digits.
pub from_payload-IsBinding :
    (payload : Json) {b : HandoffBinding} → from_payload payload ≡ ok b → IsBinding b
unfolding from_payload
from_payload-IsBinding (json_object members) e =
    let (chain, _, e1) = >>=-eq-ok (get_member (codes "chain_id") members) _ e in
    let (seq, _, e2) = >>=-eq-ok (get_member (codes "seq") members) _ e1 in
    let (head, _, e3) = >>=-eq-ok (get_member (codes "head_hash") members) _ e2 in
    accepted chain seq head e3
from_payload-IsBinding _ e = cc

get_member-OnlyValueError :
    (key : Text) (members : Members) → OnlyValueError (get_member key members)
unfolding get_member
get_member-OnlyValueError key no_members = raise-OnlyValueError _
get_member-OnlyValueError key (member k v rest) = elim (Bool-cases (text_eq key k)) [
  | inl here ↦ rw here (ok-OnlyValueError v)
  | inr further ↦ rw further (get_member-OnlyValueError key rest)
]

check_head-OnlyValueError :
    (chain_id : Text) (seq : ℤ) (head : Json) → OnlyValueError (check_head chain_id seq head)
unfolding check_head
check_head-OnlyValueError chain_id seq (json_text h) =
    >>=-OnlyValueError (raise_if (not (is_sha256_hex h)) value_error) _ (raise_if-OnlyValueError _)
      (λ _. ok-OnlyValueError _)
check_head-OnlyValueError chain_id seq _ = raise-OnlyValueError _

check_seq-OnlyValueError :
    (chain_id : Text) (seq head : Json) → OnlyValueError (check_seq chain_id seq head)
unfolding check_seq
check_seq-OnlyValueError chain_id (json_int n) head =
    >>=-OnlyValueError (raise_if (ltb_ℤ n (pos 0)) value_error) _ (raise_if-OnlyValueError _)
      (λ _. check_head-OnlyValueError chain_id n head)
check_seq-OnlyValueError chain_id _ head = raise-OnlyValueError _

new_binding-OnlyValueError : (chain seq head : Json) → OnlyValueError (new_binding chain seq head)
unfolding new_binding
new_binding-OnlyValueError (json_text []) seq head = raise-OnlyValueError _
new_binding-OnlyValueError (json_text (c ∷ s)) seq head = check_seq-OnlyValueError (c ∷ s) seq head
new_binding-OnlyValueError _ seq head = raise-OnlyValueError _

payload-OnlyValueError : (payload : Json) → OnlyValueError (from_payload payload)
unfolding from_payload
payload-OnlyValueError (json_object members) =
    >>=-OnlyValueError _ _ (get_member-OnlyValueError (codes "chain_id") members) (λ chain.
      >>=-OnlyValueError _ _ (get_member-OnlyValueError (codes "seq") members) (λ seq.
        >>=-OnlyValueError _ _ (get_member-OnlyValueError (codes "head_hash") members)
          (λ head. new_binding-OnlyValueError chain seq head)))
payload-OnlyValueError _ = raise-OnlyValueError _

-- A payload that is no binding is a `ValueError`, whatever it is.
pub from_payload-raise :
    (payload : Json) (e : Exception) → from_payload payload ≡ raise e → e ≡ value_error
from_payload-raise payload e h = payload-OnlyValueError payload e h
