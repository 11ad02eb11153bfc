-- ===== src/Backend.antt =====
-- src/waxseal/adapters/memory.py, and the closure `build` of `AuditLog.append` in
-- src/waxseal/log/facade.py that a backend calls under its lock. The lock makes an append one step.
pub mod Verified
use waxseal.Base.{
  not, ◌∷◌, value_error, ◌>>=◌, ◌>>◌, is_some, ok, ◌++◌, List, Option, raise_if, none, Result,
  Bytes, [], ◌≡◌, Text, some,
}
use waxseal.Base.Int.{pos, ℤ, ◌+ℤ◌}
use waxseal.Digest.{Hashes}
use waxseal.Fingerprint.{fingerprint}
use waxseal.Hashing.{header_frame, compute_payload_hash, compute_entry_hash}
use waxseal.Header.{EntryHeader, genesis_prev_hash, Entry}

-- `self._entries`
abbrev pub MemoryBackend : Type 0
MemoryBackend = List Entry

-- `self._entries[-1]`, if there is one
unfoldable pub last_entry : List Entry → Option Entry
last_entry [] = none
last_entry (e ∷ []) = some e
last_entry (e ∷ f ∷ es) = last_entry (f ∷ es)

abbrev pub Builder : Type 0
Builder = ℤ → Text → Result Entry

-- The call of `build`, by whether there is a last entry.
unfoldable pub build_next : Builder → Option Entry → Result Entry
build_next build none = build (pos 0) genesis_prev_hash
build_next build (some last) = build (last.header.seq +ℤ pos 1) last.entry_hash

unfoldable pub append : Builder → MemoryBackend → Result (Entry × MemoryBackend)
unfolding build_next last_entry
append build entries = do
  entry ← build_next build (last_entry entries)
  raise_if (not (is_some entry.payload)) value_error
  ok (entry, entries ++ entry ∷ [])

module _ (hs : Hashes) where
  -- `build` in `AuditLog.append`, over the values that it captures.
  unfoldable pub build_entry : Text → Text → Bytes → Builder
  build_entry ts payload_type payload seq prev_hash = do
    hash_version ← fingerprint hs
    let header : EntryHeader = record {
      seq = seq;
      ts = ts;
      hash_version = hash_version;
      payload_type = payload_type;
      payload_hash = compute_payload_hash hs payload;
      prev_hash = prev_hash;
    }
    entry_hash ← compute_entry_hash hs header_frame header
    ok (record { header = header; entry_hash = entry_hash; payload = some payload })

  -- What a sequence of appends has stored, starting from an empty backend.
  pub data Appended : MemoryBackend → Type 0 where
    empty : Appended []
    appended :
        {es fs : MemoryBackend} (ts payload_type : Text) (payload : Bytes) (e : Entry)
        → Appended es
        → append (build_entry ts payload_type payload) es ≡ ok (e, fs)
        → Appended fs
