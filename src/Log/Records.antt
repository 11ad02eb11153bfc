-- ===== src/Log/Records.antt =====
-- The log that a caller of `try_append` in src/waxseal/log/facade.py sees: what was written, and how
-- many calls were lost.
use waxseal.Base.{
  ◌∷◌, arith, [], some, not, Bytes, Result, refl, ◌∙◌, is_some, ◌≡◌, sym, ◌++◌, ap, none, Bool,
  length, ok, Option, value_error, List, map, ok_inj, length-append, true, false, Text, ℕ, raise_if,
  >>=-eq-ok, ◌+◌,
}
use waxseal.Backend.{build_entry, MemoryBackend, append, build_next, last_entry}
use waxseal.Base.Int.{ℤ}
use waxseal.Digest.{Hashes}
use waxseal.Fingerprint.{fingerprint}
use waxseal.Hashing.{header_frame, compute_entry_hash}
use waxseal.Header.{Entry}

-- What a caller has written: the time, the payload type and the payload, with no hash.
abbrev pub Record : Type 0
Record = Text × Text × Option Bytes

abbrev pub record_of : Entry → Record
record_of e = (e.header.ts, e.header.payload_type, e.payload)

unfoldable pub records : MemoryBackend → List Record
records entries = map record_of entries

records-append :
    (es : List Entry) (e : Entry) → records (es ++ e ∷ []) ≡ records es ++ record_of e ∷ []
unfolding records
records-append [] e = refl
records-append (x ∷ es) e = ap (λ l. record_of x ∷ l) (records-append es e)

-- The abstract log: a list of records and a count of the lost ones. A payload that serializes is
-- put after the others, or else the loss is counted; the answer says which.
pub data Offer (ts payload_type : Text) (offered : Result Bytes) (written : List Record) (lost : ℕ)
    : Bool → List Record → ℕ → Type 0 where
  kept :
      (bytes : Bytes)
      → offered ≡ ok bytes
      → Offer ts payload_type offered written lost true
          (written ++ (ts, payload_type, some bytes) ∷ [])
          lost
  dropped : Offer ts payload_type offered written lost false written (lost + 1)

module _ (hs : Hashes) where
  built_record :
      (ts payload_type : Text) (payload : Bytes) (seq : ℤ) (prev : Text) {e : Entry}
      → build_entry hs ts payload_type payload seq prev ≡ ok e
      → record_of e ≡ (ts, payload_type, some payload)
  unfolding build_entry
  built_record ts payload_type payload seq prev h =
      let (own, _, r) = >>=-eq-ok (fingerprint hs) _ h in
      let (d, _, built) = >>=-eq-ok (compute_entry_hash hs header_frame _) _ r in
      ap record_of (sym (ok_inj built))

  next_record :
      (ts payload_type : Text) (payload : Bytes) (last : Option Entry) {e : Entry}
      → build_next (build_entry hs ts payload_type payload) last ≡ ok e
      → record_of e ≡ (ts, payload_type, some payload)
  unfolding build_next
  next_record ts payload_type payload none h = built_record ts payload_type payload _ _ h
  next_record ts payload_type payload (some last) h = built_record ts payload_type payload _ _ h

  pub append-records :
      (ts payload_type : Text) (payload : Bytes) (es : MemoryBackend) {e : Entry}
      {fs : MemoryBackend}
      → append (build_entry hs ts payload_type payload) es ≡ ok (e, fs)
      → (records fs ≡ records es ++ (ts, payload_type, some payload) ∷ [])
        × (length fs ≡ length es + 1)
  unfolding append
  append-records ts payload_type payload es {fs = fs} h =
      let (f, built, r) =
        >>=-eq-ok (build_next (build_entry hs ts payload_type payload) (last_entry es)) _ h in
      let (_, _, put) = >>=-eq-ok (raise_if (not (is_some f.payload)) value_error) _ r in
      let grown : fs ≡ es ++ f ∷ [] = sym (ap (λ (t : Entry × MemoryBackend). t.1) (ok_inj put)) in
      (
        ap records grown
            ∙ records-append es f
            ∙ ap (λ t. records es ++ t ∷ [])
                (next_record ts payload_type payload (last_entry es) built),
        omega (arith, ap length grown, length-append es (f ∷ [])),
      )
