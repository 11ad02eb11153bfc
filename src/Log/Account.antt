-- ===== src/Log/Account.antt =====
-- The trail and the counts of an `AuditLog` over its calls: `try_append`, `anchor` and `verify` of
-- src/waxseal/log/facade.py, with writers that share the backend in between.
use waxseal.Base.{
  [], arith, some, ap, raise, Option-cases, ◌∷◌, ◌++◌, sym, ok_inj, value_error, ok, ℕ, codes,
  false, inr, Exception, ◌≡◌, true, Text, raise_if, Bytes, inl, ◌⊎◌, ◌+◌, >>=-eq-ok, none, subst,
  Result, length, Option, ◌∙◌, List, refl,
}
use waxseal.Backend.{append, MemoryBackend, build_entry, appended, Appended}
use waxseal.Backend.Verified.{verify_chain-Appended}
use waxseal.Base.Int.{ℤ}
use waxseal.Checkpoint.{verify_checkpoint, checkpoint_for, Checkpoint}
use waxseal.Digest.{Hashes}
use waxseal.Header.{Entry}
use waxseal.Log.{
  attestation_failed, Payload, AppendResult, Wiring, done, AuditLog, failed, anchor,
  aggregate_binding, entry_hashes, bad_cadence, new_audit_log,
}
use waxseal.Log.Anchored.{Kept, anchor-Kept, anchor-verify_checkpoint}
use waxseal.Log.Calls.{verify, measured, payload_bytes, append_entry, account, try_append}
use waxseal.Log.Ended.{refused, append_entry-Ended, Ended, stored, Refusal}
use waxseal.Log.Records.{append-records, dropped, Offer, records, kept}
use waxseal.Log.Stored.{append-Appended, entry_hashes-append}
use waxseal.Log.Sync.{empty_tree-Synced, Synced, Synced-extended}
use waxseal.Registry.{Reachable}
use waxseal.Verify.{passed}

module _ {W D : Type 0} (hs : Hashes) (wiring : Wiring W D) where
  -- A log after `calls` calls of `try_append`, with `foreign` entries that it did not write itself.
  pub data Running : AuditLog W → ℕ → ℕ → Type 0 where
    opened :
        {log : AuditLog W} (entries : MemoryBackend) (world : W)
        → Appended hs entries
        → new_audit_log hs wiring entries world ≡ ok log
        → Running log 0 (length entries)
    called :
        {log : AuditLog W} {calls foreign : ℕ} (ts payload_type : Text) (payload : Payload D)
        → Running log calls foreign
        → Running (try_append hs wiring ts payload payload_type log).1 (calls + 1) foreign
    shared :
        {log : AuditLog W} {calls foreign : ℕ} (ts payload_type : Text) (bytes : Bytes) (e : Entry)
        (entries : MemoryBackend)
        → Running log calls foreign
        → append (build_entry hs ts payload_type bytes) log.backend ≡ ok (e, entries)
        → Running (record log { backend = entries }) calls (foreign + 1)
    anchored :
        {log : AuditLog W} {calls foreign : ℕ}
        → Running log calls foreign
        → Running (anchor hs wiring log).1 calls foreign

  -- What holds of a log at any time.
  Sound : AuditLog W → ℕ → ℕ → Type 0
  Sound log calls foreign =
      Appended hs log.backend
      × Synced hs log.merkle (entry_hashes log.backend)
      × (length log.backend + log.dropped ≡ calls + foreign)

  -- What is stored, on a log that is sound.
  stored-Sound :
      (ts payload_type : Text) (offered : Result Bytes) (log after : AuditLog W) (calls foreign : ℕ)
      (bytes : Bytes) (e : Entry)
      → Sound log calls foreign
      → offered ≡ ok bytes
      → append (build_entry hs ts payload_type bytes) log.backend ≡ ok (e, after.backend)
      → after.dropped ≡ log.dropped
      → Synced hs after.merkle (entry_hashes after.backend)
      → Offer ts payload_type offered
          (records log.backend)
          log.dropped
          true
          (records after.backend)
          after.dropped
        × Sound after (calls + 1) foreign
  unfolding Sound
  stored-Sound ts payload_type offered log after calls foreign bytes e (earlier, _, count) given h
        drops s =
      let (written, sizes) = append-records hs ts payload_type bytes log.backend h in
      let grown = records log.backend ++ (ts, payload_type, some bytes) ∷ [] in
      (
        subst
            (λ w.
              Offer ts payload_type offered (records log.backend) log.dropped true w after.dropped)
            (sym written)
            (subst (Offer ts payload_type offered (records log.backend) log.dropped true grown)
              (sym drops) (kept bytes given)),
        (appended ts payload_type bytes e earlier h, s, omega (arith, sizes, drops, count)),
      )

  -- What a call does, on a log that is sound.
  try_append-Sound :
      (ts payload_type : Text) (payload : Payload D) (log : AuditLog W) (calls foreign : ℕ)
      → Reachable hs wiring.registry
      → Sound log calls foreign
      → let after = try_append hs wiring ts payload payload_type log in
        Offer ts payload_type
          (payload_bytes hs wiring payload payload_type)
          (records log.backend)
          log.dropped
          after.0
          (records after.1.backend)
          after.1.dropped
        × Sound after.1 (calls + 1) foreign
  unfolding try_append Sound account
  try_append-Sound ts payload_type payload log calls foreign reach (earlier, s, count) =
      let end = append_entry hs wiring ts payload payload_type log in
      go end.0 end.1 (append_entry-Ended hs wiring ts payload_type payload log reach earlier s)
    where
      go :
          (r : AppendResult) (after : AuditLog W)
          → Ended hs wiring ts payload_type
              (payload_bytes hs wiring payload payload_type)
              log
              r
              after
          → let last = account hs wiring payload_type (r, after) in
            Offer ts payload_type
              (payload_bytes hs wiring payload payload_type)
              (records log.backend)
              log.dropped
              last.0
              (records last.1.backend)
              last.1.dropped
            × Sound last.1 (calls + 1) foreign
      go (failed x) after (refused _ _) = (dropped, (earlier, s, omega (arith, count)))
      go (done f) after (stored bytes e given h drops fails synced _) =
          stored-Sound ts payload_type _ log after calls foreign bytes e (earlier, s, count) given h
            drops synced
      go attestation_failed after (stored bytes e given h drops fails synced _) =
          stored-Sound ts payload_type _ log after calls foreign bytes e (earlier, s, count) given h
            drops synced
      go (failed x) after (stored bytes e given h drops fails synced (inl shape)) = cc
      go (failed x) after (stored bytes e given h drops fails synced (inr shape)) = cc

  Running-Sound :
      {log : AuditLog W} {calls foreign : ℕ}
      → Reachable hs wiring.registry
      → Running log calls foreign
      → Sound log calls foreign
  unfolding Sound new_audit_log Kept
  Running-Sound reach (opened entries world log made) =
      let (_, _, built) =
        >>=-eq-ok (raise_if (bad_cadence wiring.anchor_every) value_error) _ made in
      subst (λ l. Sound l 0 (length entries)) (ok_inj built)
        (log, empty_tree-Synced hs (entry_hashes entries), omega arith)
  Running-Sound reach
        (called {log = log} {calls = calls} {foreign = foreign} ts payload_type payload run) =
      (try_append-Sound ts payload_type payload log calls foreign reach (Running-Sound reach run)).1
  Running-Sound reach (shared {log = log} ts payload_type bytes e entries run h) =
      let (earlier, s, count) = Running-Sound reach run in
      let (grown, _, _) =
        append-Appended hs wiring.registry ts payload_type bytes reach earlier h in
      (
        appended ts payload_type bytes e earlier h,
        subst (Synced hs log.merkle)
            (sym (ap entry_hashes grown ∙ entry_hashes-append log.backend e))
            (Synced-extended hs log.merkle (entry_hashes log.backend) (e.entry_hash ∷ []) s),
        omega (arith, count, (append-records hs ts payload_type bytes log.backend h).1),
      )
  Running-Sound reach (anchored {log = log} {calls = calls} {foreign = foreign} run) =
      let (earlier, s, count) = Running-Sound reach run in
      let (same, drops, _, synced) = anchor-Kept hs wiring log s in
      (
        subst (Appended hs) (sym same) earlier,
        subst (λ b. Synced hs (anchor hs wiring log).1.merkle (entry_hashes b)) (sym same) synced,
        omega (arith, ap length same, drops, count),
      )

  -- A call that answers false was refused.
  try_append-Refusal :
      (ts payload_type : Text) (payload : Payload D) (log : AuditLog W)
      → Reachable hs wiring.registry
      → Appended hs log.backend
      → Synced hs log.merkle (entry_hashes log.backend)
      → (try_append hs wiring ts payload payload_type log).0 ≡ false
      → (x : Exception) × Refusal hs wiring ts payload_type
          (payload_bytes hs wiring payload payload_type)
          log
          x
  unfolding try_append account
  try_append-Refusal ts payload_type payload log reach earlier s lost =
      let end = append_entry hs wiring ts payload payload_type log in
      go end.0 end.1 (append_entry-Ended hs wiring ts payload_type payload log reach earlier s) lost
    where
      go :
          (r : AppendResult) (after : AuditLog W)
          → Ended hs wiring ts payload_type
              (payload_bytes hs wiring payload payload_type)
              log
              r
              after
          → (account hs wiring payload_type (r, after)).0 ≡ false
          → (x : Exception) × Refusal hs wiring ts payload_type
              (payload_bytes hs wiring payload payload_type)
              log
              x
      go (failed x) after (refused _ why) e = (x, why)
      go (done f) after ended e = cc
      go attestation_failed after ended e = cc
      go (failed x) after (stored bytes f given h drops fails synced (inl shape)) e = cc
      go (failed x) after (stored bytes f given h drops fails synced (inr shape)) e = cc

  -- A call of `try_append` on a log that has run does what the abstract log does: the payload's
  -- bytes are put after what was written, with the time and the payload type of the call, and the
  -- answer is true; or nothing is written, the answer is false, and one more loss is counted. It
  -- is false only where the payload has no bytes or the backend refuses the entry, with the
  -- exception that was raised.
  pub try_append-Offer :
      (ts payload_type : Text) (payload : Payload D) {log : AuditLog W} {calls foreign : ℕ}
      → Reachable hs wiring.registry
      → Running log calls foreign
      → let after = try_append hs wiring ts payload payload_type log in
        Offer ts payload_type
          (payload_bytes hs wiring payload payload_type)
          (records log.backend)
          log.dropped
          after.0
          (records after.1.backend)
          after.1.dropped
        × (after.0 ≡ false
            → (x : Exception) × ((payload_bytes hs wiring payload payload_type ≡ raise x)
                ⊎ ((bytes : Bytes) × (payload_bytes hs wiring payload payload_type ≡ ok bytes)
                    × (append (build_entry hs ts payload_type bytes) log.backend ≡ raise x))))
  unfolding Sound Refusal
  try_append-Offer ts payload_type payload {log} {calls} {foreign} reach run =
      let sound = Running-Sound reach run in
      (
        (try_append-Sound ts payload_type payload log calls foreign reach sound).0,
        try_append-Refusal ts payload_type payload log reach sound.0 sound.1,
      )

  -- A log that has run verifies: each entry is checked, none is unverifiable, and the reported
  -- losses are the recorder's count, named as that of the sidecar, or without a recorder this log's
  -- own, named as that of the process. Stored entries and own losses are together
  -- the calls of `try_append` and the entries that the log did not write.
  pub verify-Running :
      {log : AuditLog W} {calls foreign : ℕ}
      → Reachable hs wiring.registry
      → Running log calls foreign
      → ((losses : ℕ) × (source : Text) × (verify hs wiring true log
            ≡ ok (record (passed (length log.backend) []) {
              dropped_writes = some losses;
              drops_source = some source;
            }))
          × (((wiring.count_drops ≡ none) × (losses ≡ log.dropped) × (source ≡ codes "process"))
              ⊎ ((count : W → ℕ) × (wiring.count_drops ≡ some count)
                  × (losses ≡ count log.world)
                  × (source ≡ codes "sidecar"))))
        × (length log.backend + log.dropped ≡ calls + foreign)
  unfolding verify Sound measured
  verify-Running {log} reach run =
      let (earlier, _, count) = Running-Sound reach run in
      let whole = verify_chain-Appended hs wiring.registry reach earlier in
      (
        elim (Option-cases wiring.count_drops) [
          | inl own ↦ (log.dropped, codes "process", rw (whole, own) refl, inl (own, refl, refl))
          | inr (recorder, at) ↦ (
            recorder log.world,
            codes "sidecar",
            rw (whole, at) refl,
            inr (recorder, at, refl, refl),
          )
        ],
        count,
      )

  -- A checkpoint that `anchor` publishes for a log that has run is the one that `checkpoint_for`
  -- computes from all the entry hashes of its trail and the binding to the accumulator, although
  -- the log keeps a tree of its own and others write to the trail: it passes `verify_checkpoint`
  -- on the trail and on every trail that extends it.
  pub verify_checkpoint-anchor :
      (later : List Text) {log : AuditLog W} {calls foreign : ℕ} {cp : Checkpoint}
      → Reachable hs wiring.registry
      → Running log calls foreign
      → (anchor hs wiring log).0 ≡ ok cp
      → ((agg : Option Text) × (epoch : Option ℤ) × (aggregate_binding hs wiring log.world
            ≡ ok (agg, epoch))
          × (checkpoint_for hs (entry_hashes log.backend) agg epoch none ≡ ok cp))
        × (verify_checkpoint hs (entry_hashes log.backend ++ later) cp ≡ ok none)
  unfolding Sound
  verify_checkpoint-anchor later {log} reach run h =
      let (_, s, _) = Running-Sound reach run in anchor-verify_checkpoint hs wiring log later s h
