-- ===== src/Segments.antt =====
-- src/waxseal/domain/segments.py: a project's trail as a chain of segment files, each of which
-- binds the head of the one before it. The names of files and the readable part of a project's
-- slug are not modelled.
pub mod Clean
pub mod Together
use waxseal.Base.{
  Text, ◌==◌, Bool, not, ℕ, [], codes, List, Option, suc, raise, Result, or_else, none, value_error,
  text_eq, ok, some, ◌||◌, ◌>>=◌, ◌∷◌, false, if◌then◌else◌,
}
use waxseal.Base.Int.{pos, ℤ}
use waxseal.Handoff.{binding_holds, Json, HandoffBinding, from_payload}
use waxseal.Verdict.{Verdict, intact, join, broken, unverifiable}
use waxseal.Verify.{VerifyResult, Reason}

-- ROTATION_PAYLOAD_TYPE
abbrev pub rotation_payload_type : Text
rotation_payload_type = codes "application/vnd.waxseal.rotation-binding+json"

-- SEGMENT_OK, SEGMENT_BROKEN, SEGMENT_UNVERIFIABLE, SEGMENT_MISSING
pub data Standing : Type 0 where
  segment_ok segment_broken segment_unverifiable segment_missing : Standing

-- _STATE_VERDICT
unfoldable pub standing_verdict : Standing → Verdict
standing_verdict segment_ok = intact
standing_verdict segment_unverifiable = unverifiable
standing_verdict segment_broken = broken
standing_verdict segment_missing = broken

pub data SegmentReason : Type 0 where
  chain_reason : Option Reason → SegmentReason
  segment_unreadable unknown_fingerprint no_segment : SegmentReason
  rotation_binding_missing rotation_binding_unreadable : SegmentReason
  rotation_binding_unchecked rotation_binding_mismatch : SegmentReason

pub record SegmentRead : Type 0 where
  pub identity : Text
  pub chain : Option VerifyResult
  pub entry_hashes : List Text
  pub genesis_payload_type : Option Text
  pub genesis_payload : Json

pub record SegmentState : Type 0 where
  pub identity : Text
  pub state : Standing
  pub reason : Option SegmentReason
  pub broken_seq : Option ℤ

pub record SegmentsResult : Type 0 where
  pub segments : List SegmentState
  pub verdict : Verdict

abbrev pub state_of : Text → Standing → Option SegmentReason → Option ℤ → SegmentState
state_of identity state reason broken_seq = record {
  identity = identity;
  state = state;
  reason = reason;
  broken_seq = broken_seq;
}

-- `{seg.identity: seg for seg in segments}.get(name)`: the last segment of that name
unfoldable pub present : Text → List SegmentRead → Option SegmentRead
present name [] = none
present name (seg ∷ segs) =
    or_else (present name segs) (if text_eq name seg.identity then some seg else none)

unfoldable pub has_slash : Text → Bool
has_slash [] = false
has_slash (c ∷ s) = c == b'/' || has_slash s

-- `text.rpartition("/")[2]`
unfoldable pub after_last_slash : Text → Text
after_last_slash [] = []
after_last_slash (c ∷ s) =
    let later = after_last_slash s in if has_slash s then later else if c == b'/' then s else c ∷ s

unfoldable pub is_rotation : Option Text → Bool
is_rotation none = false
is_rotation (some t) = text_eq t rotation_payload_type

-- What `_binding_finding` returns: nothing to report, a state, or the name of a missing segment.
pub data BindingFinding : Type 0 where
  nothing_found : BindingFinding
  found_state : SegmentState → BindingFinding
  names_missing : Text → BindingFinding

unfoldable pub check_predecessor :
    Text → HandoffBinding → Option SegmentRead → Option VerifyResult → BindingFinding
check_predecessor identity binding none chain = names_missing (after_last_slash binding.chain_id)
check_predecessor identity binding (some predecessor) none =
    found_state
      (state_of identity segment_unverifiable (some rotation_binding_unchecked) (some (pos 0)))
check_predecessor identity binding (some predecessor) (some _) =
    if not (binding_holds binding predecessor.entry_hashes)
    then found_state
        (state_of identity segment_broken (some rotation_binding_mismatch) (some (pos 0)))
    else nothing_found

abbrev pub chain_of : Option SegmentRead → Option VerifyResult
chain_of none = none
chain_of (some seg) = seg.chain

-- `except ValueError`, and the look-up of the segment that is named
unfoldable pub check_binding :
    Text → List SegmentRead → Result HandoffBinding → Result BindingFinding
unfolding check_predecessor
check_binding identity segments (raise value_error) = ok (
    found_state
      (state_of identity segment_unverifiable (some rotation_binding_unreadable) (some (pos 0))))
check_binding identity segments (raise e) = raise e
check_binding identity segments (ok binding) =
    let predecessor = present (after_last_slash binding.chain_id) segments in
    ok (check_predecessor identity binding predecessor (chain_of predecessor))

unfoldable pub binding_finding : List SegmentRead → SegmentRead → ℕ → Result BindingFinding
unfolding check_binding is_rotation
binding_finding segments seg index =
    if not (is_rotation seg.genesis_payload_type)
    then ok (
        if index == 0
        then nothing_found
        else found_state
            (state_of seg.identity segment_broken (some rotation_binding_missing) (some (pos 0))))
    else check_binding seg.identity segments (from_payload seg.genesis_payload)

-- `finding is None and seg.chain.unverifiable`
unfoldable pub own_state : Text → List ℤ → SegmentState
own_state identity [] = state_of identity segment_ok none none
own_state identity (seq ∷ _) =
    state_of identity segment_unverifiable (some unknown_fingerprint) (some seq)

unfoldable pub mem_text : Text → List Text → Bool
mem_text name [] = false
mem_text name (x ∷ xs) = text_eq name x || mem_text name xs

-- The end of the loop's body; `rest` is the loop from the next segment on, on the names that were
-- reported as missing so far.
unfoldable pub after_finding :
    BindingFinding
    → Text
    → List ℤ
    → List Text
    → (List Text → Result (List SegmentState))
    → Result (List SegmentState)
unfolding own_state
after_finding nothing_found identity unlisted emitted rest =
    rest emitted >>= λ states. ok (own_state identity unlisted ∷ states)
after_finding (found_state state) identity unlisted emitted rest =
    rest emitted >>= λ states. ok (state ∷ states)
after_finding (names_missing name) identity unlisted emitted rest =
    if mem_text name emitted
    then (rest emitted >>= λ states. ok (own_state identity unlisted ∷ states))
    else (rest (name ∷ emitted) >>= λ states. ok (
        state_of name segment_missing (some no_segment) none
        ∷ own_state identity unlisted
        ∷ states))

-- The loop's body by what was read of the segment's own chain.
unfoldable pub after_chain :
    List SegmentRead
    → SegmentRead
    → ℕ
    → Option VerifyResult
    → List Text
    → (List Text → Result (List SegmentState))
    → Result (List SegmentState)
unfolding after_finding binding_finding
after_chain segments seg index none emitted rest = rest emitted >>= λ states.
    ok (state_of seg.identity segment_unverifiable (some segment_unreadable) none ∷ states)
after_chain segments seg index (some chain) emitted rest =
    if not chain.is_ok
    then (rest emitted >>= λ states. ok (
        state_of seg.identity segment_broken (some (chain_reason chain.reason)) chain.broken_seq
        ∷ states))
    else (binding_finding segments seg index >>= λ finding.
        after_finding finding seg.identity chain.unverifiable emitted rest)

unfoldable pub segment_states :
    List SegmentRead → ℕ → List Text → List SegmentRead → Result (List SegmentState)
unfolding after_chain
segment_states segments index emitted [] = ok []
segment_states segments index emitted (seg ∷ segs) =
    after_chain segments seg index seg.chain emitted
      (λ emitted'. segment_states segments (suc index) emitted' segs)

-- The loop of `verdict.join`.
unfoldable pub join_states : Verdict → List SegmentState → Verdict
join_states verdict [] = verdict
join_states verdict (s ∷ states) = join_states (join verdict (standing_verdict s.state)) states

unfoldable pub verify_segments : List SegmentRead → Result SegmentsResult
unfolding segment_states
verify_segments segments = do
  states ← segment_states segments 0 [] segments
  ok (record { segments = states; verdict = join_states intact states })
