-- ===== src/Log.antt =====
-- src/waxseal/log/facade.py: `AuditLog`, and `aggregate_binding` of src/waxseal/log/_anchoring.py.
-- What the facade is given is a `Wiring`: the redactor, the serialization of a dict, the attestor,
-- the reader of the accumulator, the anchor sink and the drop recorder. Their state is `W`. A call
-- returns a result and the log after it, also where it raises.
pub mod Calls
pub mod AnchoredAggregates
pub mod Sidecar
pub mod Sync
pub mod Anchored
pub mod Stored
pub mod Records
pub mod Ended
pub mod Account
use waxseal.Base.{
  ◌∷◌, ok, key_error, type_error, false, ◌||◌, Bytes, ◌+◌, [], codes, ◌>>◌, List, map, raise,
  text_eq, Exception, true, raise_if, length, none, not, runtime_error, lp_encoding_error,
  value_error, ◌==◌, Option, ◌%◌, Result, ◌>>=◌, is_some, some, Bool, Text, if◌then◌else◌,
  unicode_encode_error, ℕ,
}
use waxseal.Anchoring.{from_hashes, root, empty_tree, IncrementalMerkle, push}
use waxseal.Backend.{MemoryBackend}
use waxseal.Base.Int.{pos, neg_part, ℤ, ltb_ℤ, eq_ℤ, ◌+ℤ◌, pos_part}
use waxseal.Checkpoint.{Checkpoint, checkpoint_for}
use waxseal.Digest.{Hashes}
use waxseal.Header.{Entry}
use waxseal.Registry.{VersionRegistry}
use waxseal.Sealing.{aggregate_commit}

-- The payload of a call: bytes, a dict, or a value of another type.
pub data Payload (D : Type 0) : Type 0 where
  raw : Bytes → Payload D
  fields : D → Payload D
  other : Payload D

pub record Wiring (W D : Type 0) : Type 0 where
  pub registry : VersionRegistry
  pub redactor : Option (D → Result D)
  pub canonical_json : D → Result Bytes
  pub attestor : Option (ℤ → Text → W → Result (Unit {0}) × W)
  pub read_aggregate : Option (W → Result (Option (ℤ × ℤ × Text)))
  pub anchor_sink : Option (Checkpoint → W → Result (Unit {0}) × W)
  pub anchor_every : Option ℤ
  pub drop_recorder : Option (Exception → Text → W → W)
  pub count_drops : Option (W → ℕ)

pub record AuditLog (W : Type 0) : Type 0 where
  pub backend : MemoryBackend
  pub merkle : IncrementalMerkle
  pub dropped : ℕ
  pub attest_failures : ℕ
  pub anchor_failures : ℕ
  pub world : W

-- `_REJECTED_PAYLOAD_TYPES`
unfoldable pub is_rejected_type : Text → Bool
is_rejected_type t = text_eq t (codes "application/json") || text_eq t (codes "text/json")

-- `anchor_every is not None and anchor_every < 1`
unfoldable pub bad_cadence : Option ℤ → Bool
bad_cadence none = false
bad_cadence (some every) = ltb_ℤ every (pos 1)

-- `(seq + 1) % anchor_every == 0`
unfoldable pub is_due : Option ℤ → ℤ → Bool
is_due none seq = false
is_due (some every) seq =
    let next = seq +ℤ pos 1 in (pos_part next + neg_part next) % pos_part every == 0

-- `hashes and self._merkle.last_leaf != hashes[-1]`
unfoldable pub tip_differs : Option Text → List Text → Bool
tip_differs leaf [] = false
tip_differs none (x ∷ []) = true
tip_differs (some leaf) (x ∷ []) = not (text_eq leaf x)
tip_differs leaf (x ∷ y ∷ xs) = tip_differs leaf (y ∷ xs)

-- `[entry.entry_hash for entry in self.entries()]`
unfoldable pub entry_hashes : MemoryBackend → List Text
entry_hashes entries = map (λ (e : Entry). e.entry_hash) entries

-- `except (ValueError, KeyError, TypeError) as e: raise RuntimeError`
unfoldable pub labelled {ℓ} : {A : Type ℓ} → Result A → Result A
labelled (raise value_error) = raise runtime_error
labelled (raise lp_encoding_error) = raise runtime_error
labelled (raise unicode_encode_error) = raise runtime_error
labelled (raise key_error) = raise runtime_error
labelled (raise type_error) = raise runtime_error
labelled (raise e) = raise e
labelled (ok a) = ok a

-- How `append` ends: with an entry, with an `AttestationFailure`, or with another exception.
-- Nothing but the facade raises an `AttestationFailure`.
pub data AppendResult : Type 0 where
  done : Entry → AppendResult
  attestation_failed : AppendResult
  failed : Exception → AppendResult

-- `except Exception as e: raise AttestationFailure`
unfoldable pub sealed_or_failed : Result (Unit {0}) → Entry → AppendResult
sealed_or_failed (ok _) e = done e
sealed_or_failed (raise _) e = attestation_failed

module _ {W : Type 0} where
  -- `self._merkle = ...`, if there is a new tree
  unfoldable pub keep_tree : Result IncrementalMerkle → AuditLog W → Result (Unit {0}) × AuditLog W
  keep_tree (raise e) log = (raise e, log)
  keep_tree (ok tree) log = (ok tt, record log { merkle = tree })

  -- `except Exception: self._anchor_failures += 1`
  unfoldable pub count_anchor_failure : Result Checkpoint × AuditLog W → AuditLog W
  count_anchor_failure (ok _, log) = log
  count_anchor_failure (raise _, log) = record log { anchor_failures = log.anchor_failures + 1 }

module _ (hs : Hashes) where
  -- A rebuilt tree: its root, and the tree that the log has from now on.
  unfoldable pub rebuilt :
      Bool → IncrementalMerkle → Result IncrementalMerkle → Result Text × IncrementalMerkle
  rebuilt keep old (raise e) = (raise e, old)
  rebuilt keep old (ok tree) = (root hs tree, if keep then tree else old)

  unfoldable pub merkle_root_for : List Text → IncrementalMerkle → Result Text × IncrementalMerkle
  unfolding rebuilt tip_differs
  merkle_root_for hashes tree =
      if tree.size == length hashes
      then (if tip_differs tree.last_leaf hashes
          then rebuilt true tree (from_hashes hs hashes)
          else (root hs tree, tree))
      else rebuilt (tree.size == 0) tree (from_hashes hs hashes)

  -- The commitment to the accumulator that was read.
  unfoldable pub commit_to : Option (ℤ × ℤ × Text) → Result (Option Text × Option ℤ)
  commit_to none = ok (none, none)
  commit_to (some (_, epoch, agg)) = do
    commit ← aggregate_commit hs epoch agg
    ok (some commit, some epoch)

module _ {W : Type 0} (hs : Hashes) where
  unfoldable pub note_appended : Entry → AuditLog W → Result (Unit {0}) × AuditLog W
  unfolding keep_tree entry_hashes
  note_appended e log =
      keep_tree
        (if eq_ℤ (pos log.merkle.size) e.header.seq
          then push hs e.entry_hash log.merkle
          else from_hashes hs (entry_hashes log.backend))
        log

  -- `self._anchor_sink.anchor(cp)`, if there is a checkpoint
  unfoldable pub publish :
      (Checkpoint → W → Result (Unit {0}) × W)
      → Result Checkpoint
      → AuditLog W
      → Result Checkpoint × AuditLog W
  publish sink (raise e) log = (raise e, log)
  publish sink (ok cp) log =
      let (taken, world) = sink cp log.world in
      ((taken >>= λ _. ok cp), record log { world = world })

  -- The root, the checkpoint and the sink, if there is a binding.
  unfoldable pub anchor_bound :
      (Checkpoint → W → Result (Unit {0}) × W)
      → List Text
      → Result (Option Text × Option ℤ)
      → AuditLog W
      → Result Checkpoint × AuditLog W
  unfolding merkle_root_for publish
  anchor_bound sink hashes (raise e) log = (raise e, log)
  anchor_bound sink hashes (ok (agg_commit, agg_epoch)) log =
      let (top, tree) = merkle_root_for hs hashes log.merkle in
      publish sink (top >>= λ r. checkpoint_for hs hashes agg_commit agg_epoch (some r))
        (record log { merkle = tree })

module _ {W D : Type 0} (hs : Hashes) (wiring : Wiring W D) where
  -- `AuditLog(...)`, over a backend that may hold entries.
  unfoldable pub new_audit_log : MemoryBackend → W → Result (AuditLog W)
  unfolding bad_cadence
  new_audit_log backend world = do
    raise_if (bad_cadence wiring.anchor_every) value_error
    ok (record {
      backend = backend;
      merkle = empty_tree;
      dropped = 0;
      attest_failures = 0;
      anchor_failures = 0;
      world = world;
    })

  unfoldable pub canonical_payload : Payload D → Result Bytes
  canonical_payload (raw bytes) = raise_if (is_some wiring.redactor) value_error >> ok bytes
  canonical_payload (fields dict) = do
    seen ← redacted wiring.redactor dict
    wiring.canonical_json seen
    where
      redacted : Option (D → Result D) → D → Result D
      redacted none dict = ok dict
      redacted (some redact) dict = redact dict
  canonical_payload other = raise type_error

  unfoldable pub aggregate_binding : W → Result (Option Text × Option ℤ)
  unfolding labelled commit_to
  aggregate_binding world = binding wiring.read_aggregate
    where
      binding : Option (W → Result (Option (ℤ × ℤ × Text))) → Result (Option Text × Option ℤ)
      binding none = ok (none, none)
      binding (some read) = labelled (read world) >>= commit_to hs

  unfoldable pub anchor_to :
      Option (Checkpoint → W → Result (Unit {0}) × W)
      → List Text
      → AuditLog W
      → Result Checkpoint × AuditLog W
  unfolding anchor_bound aggregate_binding
  anchor_to none hashes log = (raise value_error, log)
  anchor_to (some sink) [] log = (raise value_error, log)
  anchor_to (some sink) (x ∷ xs) log =
      anchor_bound hs sink (x ∷ xs) (aggregate_binding log.world) log

  unfoldable pub anchor : AuditLog W → Result Checkpoint × AuditLog W
  unfolding anchor_to entry_hashes
  anchor log = anchor_to wiring.anchor_sink (entry_hashes log.backend) log
