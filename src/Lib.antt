-- ===== src/Lib.antt =====
-- Verification of waxseal's core: the tamper-evident hash chain of src/waxseal and the checks that
-- stand on it.
--
-- The program appends entries to a trail, each of which holds the hash of the one before, and
-- verifies a trail later without trusting whoever stored it. Around the chain stand seals by keys
-- that are thrown away, Merkle roots and checkpoints that are anchored elsewhere, bonds that pay
-- for a proof that a writer signed two histories, and segments that bind one file to the next.
--
-- Base holds what every part uses: tests, lists, exceptions as values (`Result`), Python's `int`,
-- `str` as a list of code points, `bytes` as a list of numbers, and `dict` as an association
-- list. Bytes holds what the program uses of Python's library: `struct.pack(">Q", n)`, UTF-8,
-- ASCII, `str(int)`, `bytes.hex` and `bytes.fromhex`. The rest follows the
-- source, a file or a folder for each of its modules:
--
--   Digest: `hashlib.sha256` and HMAC-SHA-256, an argument of every definition that hashes. All
--   that is asked of them is that a digest is 32 bytes. No statement assumes that there are no
--   collisions, which no function to 32 bytes satisfies: where one needs it, it returns as a value
--   (`CollisionIn`) two different byte strings with one digest, both among those that the runs it
--   is about have hashed. Predicates beside the theorems say which those are (`HashedInChain`,
--   `HashedInBatch`, `HashedInProof`, `HashedUpTo`, `HashedToExtend`, `HashedForLeaf`,
--   `HashedInBundle`, `HashedToSign`, `CommitFrame`).
--   Header and Hashing: src/waxseal/domain/header.py and hashing.py, the entry and the encoding
--   lp64 (`lp`, `header_frame`, `compute_entry_hash`). Field lists are framed by `frame`, which
--   every frame of the program shares.
--   Fingerprint and Registry: domain/fingerprint.py and registry.py, the identity of a schema, the
--   registry that only grows, and the cross-check with a published descriptor.
--   Verify: domain/verify.py. `check_row` is the body of the loop up to its breaks, `after_row` the
--   rest of it, `walk` the loop. Rows says what a row turns out to be, the other children what
--   follows for a chain.
--   Backend: adapters/memory.py and the closure that `AuditLog.append` of log/facade.py hands to
--   it. A backend is its list of entries; the lock is not modelled, so an append is one step.
--   Log: `AuditLog` of log/facade.py and `aggregate_binding` of log/_anchoring.py. `Wiring` is what
--   a log is given; Calls has `append_entry`, which is `AuditLog.append`, `try_append` and
--   `verify`. Sync and Stored are about the tree that a log keeps, Anchored about its checkpoints,
--   Ended about how an append ends, Records and Account about the calls over time. Other writers
--   of the trail act between the calls. Sidecar is `verify_sidecar` of log/_attestation.py, and
--   AnchoredAggregates is `verify_anchored_aggregates` of log/_anchoring.py, each over what the
--   adapters read, with what reading raises.
--   Receipts: domain/receipts.py, domain/receipt_fingerprint.py and the registry of receipt frames.
--   Line has the parser of a line, Totals what is counted over all lines, Reference the answer by
--   the whole file.
--   Verdict: domain/verdict.py.
--   Sealing: domain/sealing.py. `seal_walk` and `run_aggregate` are the loops; Aggregate holds the
--   two checks of the aggregate.
--   Anchoring: domain/anchoring.py. Split, Tree and Peaks are about the tree and the accumulator,
--   PowerTest the test for a power of two, Proofs has membership and consistency proofs with their
--   verifiers. Of its children, Climb, Full and Whole are about the loop of `verify_membership`,
--   Complete, Nodes, Rounds and Sound about the proofs that it accepts; Both, Below and Edge are
--   about the loop of `verify_consistency`, Paths, Consistent, Turns, Runs, Extends and AppendOnly
--   about its proofs.
--   Checkpoint: domain/checkpoint.py.
--   Bond: domain/bond.py.
--   Separation, Tickets, Handoff and Segments: the files of these names in domain/. In Tickets,
--   Scan finds the tickets of a trail, and Trail is about the scan with the reconciliation.
--   Handoff/Reading is how optional members and unreadable rows are read.
--   Export: domain/export.py, the bundles that prove one entry.
--   Witnessing and Interventions: domain/witnessing.py and domain/intervention.py.
--   Abi: domain/abi.py. `encode_args` is the loop of `encode_call`.
--   Pinning: domain/_pinning_checks.py, and the state and target of domain/pinning.py.
--   Liveness: domain/liveness.py, over `anchor_staleness` of Pinning/Staleness. Python's `datetime`
--   is an argument of both (`Datetimes`).
--
-- Every loop over a list is a structural recursion. Fuel is used in a few places and given by the
-- caller: `show_nat n` has the fuel of `n + 1` digits; `split_loop`, `tree_at` and the two proof
-- generators have the size of the batch, where each step at least halves what is left or takes a
-- leaf away; the loops on bits have the index, which each step halves. `pack_u64` raises
-- `struct.error` from 2 ^ 64 on, as the source does, so a field or a count is never cut off.
-- An assertion that only narrows a type has no counterpart.
--
-- Not modelled: files, databases, HTTP, threads and locks; JSON text (a payload that was read is a
-- value of `Json`); the command line and the rendering of reports; signatures, which are checked
-- by the ledger or by an external signer; random keys; floating-point numbers;
-- the stored form of pins; and the domain modules for incidents, decisions, cadence, reports and
-- time stamps.
pub mod Base
pub mod Bytes
pub mod Digest
pub mod Header
pub mod Hashing
pub mod Verdict
pub mod Fingerprint
pub mod Registry
pub mod Verify
pub mod Backend
pub mod Sealing
pub mod Anchoring
pub mod Checkpoint
pub mod Bond
pub mod Separation
pub mod Tickets
pub mod Handoff
pub mod Segments
pub mod Pinning
pub mod Log
pub mod Receipts
pub mod Export
pub mod Witnessing
pub mod Interventions
pub mod Liveness
pub mod Abi
pub mod Tests
