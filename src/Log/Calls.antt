-- ===== src/Log/Calls.antt =====
-- `append`, `try_append` and `verify` of `AuditLog` in src/waxseal/log/facade.py. The append lock
-- makes the backend's append, the tree and the attestation one step.
use waxseal.Base.{
  value_error, Text, ◌+◌, ℕ, ◌>>◌, raise_if, Exception, is_some, ◌>>=◌, if◌then◌else◌, some, ok,
  Option, codes, Bytes, true, false, Result, ◌&&◌, none, Bool, raise,
}
use waxseal.Backend.{append, build_entry, MemoryBackend}
use waxseal.Base.Int.{ℤ}
use waxseal.Digest.{Hashes}
use waxseal.Header.{Entry}
use waxseal.Log.{
  is_due, AuditLog, is_rejected_type, attestation_failed, done, note_appended, Payload,
  sealed_or_failed, anchor, AppendResult, count_anchor_failure, Wiring, canonical_payload, failed,
}
use waxseal.Verify.{VerifyResult, verify_chain}

module _ {W : Type 0} where
  -- `self._attestor.attest(...)`, if there is an attestor
  unfoldable pub attest :
      Option (ℤ → Text → W → Result (Unit {0}) × W) → Entry → AuditLog W → AppendResult × AuditLog W
  unfolding sealed_or_failed
  attest none e log = (done e, log)
  attest (some attestor) e log =
      let (answer, world) = attestor e.header.seq e.entry_hash log.world in
      (sealed_or_failed answer e, record log { world = world })

  -- The count of drops of the recorder, or else of this process.
  unfoldable pub measured : Option (W → ℕ) → AuditLog W → VerifyResult → VerifyResult
  measured none log result = record result {
    dropped_writes = some log.dropped;
    drops_source = some (codes "process");
  }
  measured (some count) log result = record result {
    dropped_writes = some (count log.world);
    drops_source = some (codes "sidecar");
  }

module _ {W D : Type 0} (hs : Hashes) (wiring : Wiring W D) where
  -- What `append` checks and computes before the lock.
  unfoldable pub payload_bytes : Payload D → Text → Result Bytes
  unfolding is_rejected_type canonical_payload
  payload_bytes payload payload_type = do
    raise_if (is_rejected_type payload_type) value_error
    canonical_payload hs wiring payload

  unfoldable pub attest_noted : Entry → Result (Unit {0}) × AuditLog W → AppendResult × AuditLog W
  unfolding attest
  attest_noted e (raise x, log) = (failed x, log)
  attest_noted e (ok _, log) = attest wiring.attestor e log

  -- The block under the append lock, after the backend's append.
  unfoldable pub after_store :
      Result (Entry × MemoryBackend) → AuditLog W → AppendResult × AuditLog W
  unfolding attest_noted note_appended
  after_store (raise x) log = (failed x, log)
  after_store (ok (e, entries)) log =
      attest_noted e (note_appended hs e (record log { backend = entries }))

  -- The anchor that the cadence asks for.
  unfoldable pub anchor_if_due : AppendResult × AuditLog W → AppendResult × AuditLog W
  unfolding count_anchor_failure is_due anchor
  anchor_if_due (failed x, log) = (failed x, log)
  anchor_if_due (attestation_failed, log) = (attestation_failed, log)
  anchor_if_due (done e, log) =
      if is_some wiring.anchor_sink && is_due wiring.anchor_every e.header.seq
      then (done e, count_anchor_failure (anchor hs wiring log))
      else (done e, log)

  unfoldable pub append_bytes : Text → Text → Result Bytes → AuditLog W → AppendResult × AuditLog W
  unfolding after_store anchor_if_due
  append_bytes ts payload_type (raise x) log = (failed x, log)
  append_bytes ts payload_type (ok bytes) log =
      anchor_if_due (after_store (append (build_entry hs ts payload_type bytes) log.backend) log)

  -- `AuditLog.append`, where the clock says `ts`
  unfoldable pub append_entry : Text → Payload D → Text → AuditLog W → AppendResult × AuditLog W
  unfolding append_bytes payload_bytes
  append_entry ts payload payload_type log =
      append_bytes ts payload_type (payload_bytes payload payload_type) log

  -- The `except` clauses of `try_append`.
  unfoldable pub account : Text → AppendResult × AuditLog W → Bool × AuditLog W
  account payload_type (done e, log) = (true, log)
  account payload_type (attestation_failed, log) =
      (true, record log { attest_failures = log.attest_failures + 1 })
  account payload_type (failed x, log) = (
    false,
    record log {
      dropped = log.dropped + 1;
      world = recorded wiring.drop_recorder x payload_type log.world;
    },
  )
    where
      recorded : Option (Exception → Text → W → W) → Exception → Text → W → W
      recorded none x t world = world
      recorded (some drops) x t world = drops x t world

  unfoldable pub try_append : Text → Payload D → Text → AuditLog W → Bool × AuditLog W
  unfolding account append_entry
  try_append ts payload payload_type log =
      account payload_type (append_entry ts payload payload_type log)

  unfoldable pub verify : Bool → AuditLog W → Result VerifyResult
  unfolding measured
  verify measure_drops log = do
    result ← verify_chain hs wiring.registry log.backend
    ok (if measure_drops then measured wiring.count_drops log result else result)
