-- ===== src/Log/Ended.antt =====
-- How `AuditLog.append` of src/waxseal/log/facade.py ends, with the log after it.
use waxseal.Base.{
  ◌∙◌, ap, refl, Option, ◌≡◌, Result, ◌⊎◌, ◌&&◌, is_some, raise, ok, inr, inl, Bool-cases, none,
  sym, Exception, some, Text, Bytes, subst,
}
use waxseal.Anchoring.{IncrementalMerkle}
use waxseal.Backend.{build_entry, append, Appended, MemoryBackend}
use waxseal.Base.Int.{ℤ}
use waxseal.Checkpoint.{Checkpoint}
use waxseal.Digest.{Hashes}
use waxseal.Header.{Entry}
use waxseal.Log.{
  attestation_failed, count_anchor_failure, Payload, sealed_or_failed, anchor, AppendResult, done,
  Wiring, failed, is_due, AuditLog, entry_hashes,
}
use waxseal.Log.Anchored.{Kept, anchor-Kept}
use waxseal.Log.Calls.{
  attest_noted, append_bytes, append_entry, anchor_if_due, attest, payload_bytes, after_store,
}
use waxseal.Log.Stored.{note_appended-Synced}
use waxseal.Log.Sync.{Synced}
use waxseal.Registry.{Reachable}

module _ {W D : Type 0} (hs : Hashes) (wiring : Wiring W D) where
  -- Why nothing was stored: the payload has no bytes, or the backend has refused the entry.
  unfoldable pub Refusal : Text → Text → Result Bytes → AuditLog W → Exception → Type 0
  Refusal ts payload_type offered log x =
      (offered ≡ raise x)
      ⊎ ((bytes : Bytes) × (offered ≡ ok bytes)
          × (append (build_entry hs ts payload_type bytes) log.backend ≡ raise x))

  -- How `append` ends, with the log after it, where the log before it has an intact trail.
  pub data Ended (ts payload_type : Text) (offered : Result Bytes) (log : AuditLog W)
      : AppendResult → AuditLog W → Type 0 where
    stored :
        {r : AppendResult} {after : AuditLog W} (bytes : Bytes) (e : Entry)
        → offered ≡ ok bytes
        → append (build_entry hs ts payload_type bytes) log.backend ≡ ok (e, after.backend)
        → after.dropped ≡ log.dropped
        → after.attest_failures ≡ log.attest_failures
        → Synced hs after.merkle (entry_hashes after.backend)
        → (r ≡ done e) ⊎ (r ≡ attestation_failed)
        → Ended ts payload_type offered log r after
    refused :
        (x : Exception)
        → Refusal ts payload_type offered log x
        → Ended ts payload_type offered log (failed x) log

  attest_noted-Ended :
      (ts payload_type : Text) (offered : Result Bytes) (bytes : Bytes) (e : Entry)
      (log : AuditLog W) (entries : MemoryBackend) (tree : IncrementalMerkle)
      → offered ≡ ok bytes
      → append (build_entry hs ts payload_type bytes) log.backend ≡ ok (e, entries)
      → Synced hs tree (entry_hashes entries)
      → let after =
          attest_noted hs wiring e (ok tt, record log { backend = entries; merkle = tree }) in
        Ended ts payload_type offered log after.0 after.1
  unfolding attest_noted
  attest_noted-Ended ts payload_type offered bytes e log entries tree same h s = go wiring.attestor
    where
      go :
          (attestor : Option (ℤ → Text → W → Result (Unit {0}) × W))
          → let after = attest attestor e (record log { backend = entries; merkle = tree }) in
            Ended ts payload_type offered log after.0 after.1
      go none = stored bytes e same h refl refl s (inl refl)
      go (some attestor) =
          stored bytes e same h refl refl s
            (answered (attestor e.header.seq e.entry_hash log.world).0)
        where
          answered :
              (r : Result (Unit {0}))
              → (sealed_or_failed r e ≡ done e) ⊎ (sealed_or_failed r e ≡ attestation_failed)
          answered (ok _) = inl refl
          answered (raise _) = inr refl

  -- Counting a failure leaves what the anchor has kept.
  count_anchor_failure-Kept :
      (log : AuditLog W) (r : Result Checkpoint) (after : AuditLog W)
      → Kept hs log after
      → Kept hs log (count_anchor_failure (r, after))
  unfolding count_anchor_failure Kept
  count_anchor_failure-Kept log (ok _) after h = h
  count_anchor_failure-Kept log (raise _) after h = h

  -- A log that keeps what was stored.
  Kept-Ended :
      (ts payload_type : Text) (offered : Result Bytes) (log : AuditLog W) (e : Entry)
      (after last : AuditLog W)
      → Ended ts payload_type offered log (done e) after
      → Kept hs after last
      → Ended ts payload_type offered log (done e) last
  unfolding Kept
  Kept-Ended ts payload_type offered log e after last (stored bytes f given h drops fails s r)
        (same, dropped, failures, synced) =
      stored bytes f given (h ∙ ap (λ b. ok (f, b)) (sym same)) (dropped ∙ drops) (failures ∙ fails)
        (subst (λ b. Synced hs last.merkle (entry_hashes b)) (sym same) synced) r

  -- The anchor of the cadence keeps what was stored.
  anchor_if_due-Ended :
      (ts payload_type : Text) (offered : Result Bytes) (log : AuditLog W) (r : AppendResult)
      (after : AuditLog W)
      → Ended ts payload_type offered log r after
      → let last = anchor_if_due hs wiring (r, after) in
        Ended ts payload_type offered log last.0 last.1
  unfolding anchor_if_due
  anchor_if_due-Ended ts payload_type offered log (failed x) after h = h
  anchor_if_due-Ended ts payload_type offered log attestation_failed after h = h
  anchor_if_due-Ended ts payload_type offered log (done e) after h =
      elim (Bool-cases (is_some wiring.anchor_sink && is_due wiring.anchor_every e.header.seq)) [
        | inr quiet ↦ rw quiet h
        | inl due ↦ rw due (
            Kept-Ended ts payload_type offered log e after
              (count_anchor_failure (anchor hs wiring after)) h
              (count_anchor_failure-Kept after (anchor hs wiring after).0 (anchor hs wiring after).1
                (anchor-Kept hs wiring after (Ended-Synced h))))
      ]
    where
      Ended-Synced :
          {e : Entry}
          → Ended ts payload_type offered log (done e) after
          → Synced hs after.merkle (entry_hashes after.backend)
      Ended-Synced (stored _ _ _ _ _ _ s _) = s

  pub append_entry-Ended :
      (ts payload_type : Text) (payload : Payload D) (log : AuditLog W)
      → Reachable hs wiring.registry
      → Appended hs log.backend
      → Synced hs log.merkle (entry_hashes log.backend)
      → let after = append_entry hs wiring ts payload payload_type log in
        Ended ts payload_type (payload_bytes hs wiring payload payload_type) log after.0 after.1
  unfolding append_entry append_bytes after_store
  append_entry-Ended ts payload_type payload log reach earlier s =
      go (payload_bytes hs wiring payload payload_type)
    where
      written :
          (bytes : Bytes) (r : Result (Entry × MemoryBackend))
          → append (build_entry hs ts payload_type bytes) log.backend ≡ r
          → let after = after_store hs wiring r log in
            Ended ts payload_type (ok bytes) log after.0 after.1
      written bytes (raise x) h = refused x (unfold Refusal in inr (bytes, refl, h))
      written bytes (ok (e, entries)) h =
          let (tree, noted, synced) =
            note_appended-Synced hs wiring.registry ts payload_type bytes log reach earlier s h in
          rw noted
            (attest_noted-Ended ts payload_type (ok bytes) bytes e log entries tree refl h synced)

      go :
          (offered : Result Bytes)
          → let after = append_bytes hs wiring ts payload_type offered log in
            Ended ts payload_type offered log after.0 after.1
      go (raise x) = refused x (unfold Refusal in inl refl)
      go (ok bytes) =
          let stage =
            after_store hs wiring (append (build_entry hs ts payload_type bytes) log.backend) log in
          anchor_if_due-Ended ts payload_type (ok bytes) log stage.0 stage.1 (written bytes _ refl)
