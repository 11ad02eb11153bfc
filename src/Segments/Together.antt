-- ===== src/Segments/Together.antt =====
-- The verdict of `verify_segments` of src/waxseal/domain/segments.py against the segments that
-- are clean.
use waxseal.Base.{
  suc, ok, ◌≢◌, Bool-cases, ◌>>=◌, ◌≡◌, subst, some, ◌↔◌, [], ap, Text, List, Result, some_inj,
  none, true, ℕ, sym, inr, Option, ◌∷◌, inl, Option-cases, refl, ◌++◌, ◌∙◌,
}
use waxseal.Base.Int.{ℤ}
use waxseal.Segments.{
  segment_broken, verify_segments, after_chain, segment_ok, no_segment, chain_reason, SegmentState,
  join_states, SegmentsResult, segment_states, mem_text, segment_missing, binding_finding, state_of,
  SegmentRead, BindingFinding, own_state, after_finding,
}
use waxseal.Segments.Clean.{
  no_predecessor, AllOk, binding_finding-Finding, IsClean, AllClean, not_bound, bound,
  join_states_iff, Bound,
}
use waxseal.Verdict.{intact}
use waxseal.Verify.{VerifyResult}

own_state_iff :
    (identity : Text) (unlisted : List ℤ)
    → ((own_state identity unlisted).state ≡ segment_ok) ↔ (unlisted ≡ [])
unfolding own_state
own_state_iff identity [] = ((λ _. refl), λ _. refl)
own_state_iff identity (seq ∷ rest) = ((λ h. cc h), λ h. cc h)

module _ (segments : List SegmentRead) where
  -- An answer of the loop: it returned, and if no missing segment was reported before, then all
  -- its states are ok exactly if the segments are clean.
  abbrev Answer : ℕ → List Text → List SegmentRead → Result (List SegmentState) → Type 0
  Answer index emitted segs answer =
      (states : List SegmentState) × (answer ≡ ok states)
      × (emitted ≡ [] → (AllOk states ↔ AllClean segments index segs))

  -- A state that is not ok, for a segment that is not clean.
  refused :
      (index : ℕ) (emitted emitted' : List Text) (seg : SegmentRead) (segs : List SegmentRead)
      (s : SegmentState) (more : List SegmentState) {rest : Result (List SegmentState)}
      → s.state ≢ segment_ok
      → ¬ IsClean segments seg index
      → Answer (suc index) emitted' segs rest
      → Answer index emitted (seg ∷ segs) (rest >>= λ states. ok (s ∷ (more ++ states)))
  unfolding AllClean
  refused index emitted emitted' seg segs s more bad unclean (states, e, _) = (
    s ∷ (more ++ states),
    ap (λ r. r >>= λ t. ok (s ∷ (more ++ t))) e,
    λ _. ((λ (here, _). absurd (bad here)), λ (clean, _). absurd (unclean clean)),
  )

  accepted :
      (index : ℕ) (emitted : List Text) (seg : SegmentRead) (segs : List SegmentRead)
      (chain : VerifyResult) {rest : Result (List SegmentState)}
      → seg.chain ≡ some chain
      → chain.is_ok ≡ true
      → Bound segments seg index
      → Answer (suc index) emitted segs rest
      → Answer index emitted
          (seg ∷ segs)
          (rest >>= λ states. ok (own_state seg.identity chain.unverifiable ∷ states))
  unfolding AllClean IsClean
  accepted index emitted seg segs chain read passes linked (states, e, iff) = (
    own_state seg.identity chain.unverifiable ∷ states,
    ap (λ r. r >>= λ t. ok (own_state seg.identity chain.unverifiable ∷ t)) e,
    λ none_yet.
        let own = own_state_iff seg.identity chain.unverifiable in
        (
          (λ (here, others). ((chain, read, passes, own.0 here, linked), (iff none_yet).0 others)),
          λ ((chain', read', _, complete, _), others).
              let same : chain' ≡ chain = some_inj (sym read' ∙ read) in
              (own.1 (ap (λ c. c.unverifiable) (sym same) ∙ complete), (iff none_yet).1 others),
        ),
  )

  repeated :
      (index : ℕ) (emitted : List Text) (seg : SegmentRead) (segs : List SegmentRead) (name : Text)
      (s : SegmentState) {rest : Result (List SegmentState)}
      → mem_text name emitted ≡ true
      → Answer (suc index) emitted segs rest
      → Answer index emitted (seg ∷ segs) (rest >>= λ states. ok (s ∷ states))
  unfolding mem_text
  repeated index emitted seg segs name s there (states, e, _) = (
    s ∷ states,
    ap (λ r. r >>= λ t. ok (s ∷ t)) e,
    λ none_yet. cc (sym there ∙ ap (mem_text name) none_yet),
  )

  same-Answer :
      (index : ℕ) (emitted : List Text) (segs : List SegmentRead)
      {answer answer' : Result (List SegmentState)}
      → answer ≡ answer'
      → Answer index emitted segs answer'
      → Answer index emitted segs answer
  same-Answer index emitted segs e = subst (Answer index emitted segs) (sym e)

  -- A segment that was read, and whose chain verifies.
  passing-Answer :
      (index : ℕ) (emitted : List Text) (seg : SegmentRead) (segs : List SegmentRead)
      (chain : VerifyResult) (rest : List Text → Result (List SegmentState))
      → seg.chain ≡ some chain
      → chain.is_ok ≡ true
      → ((emitted' : List Text) → Answer (suc index) emitted' segs (rest emitted'))
      → Answer index emitted (seg ∷ segs) (
          binding_finding segments seg index >>= λ finding.
          after_finding finding seg.identity chain.unverifiable emitted rest)
  unfolding after_finding IsClean
  passing-Answer index emitted seg segs chain rest read passes later =
      let step = λ (f : BindingFinding) (e : binding_finding segments seg index ≡ ok f).
        ap
          (λ r. r >>= λ finding. after_finding finding seg.identity chain.unverifiable emitted rest)
          e in
      elim (binding_finding-Finding segments seg index) [
        | bound e linked ↦
            same-Answer index emitted (seg ∷ segs) (step _ e)
              (accepted index emitted seg segs chain read passes linked (later emitted))
        | not_bound state e bad fails ↦ same-Answer index emitted (seg ∷ segs) (step _ e) (
            refused index emitted emitted seg segs state [] bad
              (λ (_, _, _, _, linked). fails linked) (later emitted))
        | no_predecessor name e fails ↦ elim (Bool-cases (mem_text name emitted)) [
          | inl there ↦ same-Answer index emitted (seg ∷ segs) (step _ e) (
              rw there (
                repeated index emitted seg segs name (own_state seg.identity chain.unverifiable)
                  there (later emitted)))
          | inr fresh ↦ same-Answer index emitted (seg ∷ segs) (step _ e) (
              rw fresh (
                refused index emitted (name ∷ emitted) seg segs
                  (state_of name segment_missing (some no_segment) none)
                  (own_state seg.identity chain.unverifiable ∷ []) (λ h. cc h)
                  (λ (_, _, _, _, linked). fails linked) (later (name ∷ emitted))))
        ]
      ]

  after_chain-Answer :
      (index : ℕ) (emitted : List Text) (seg : SegmentRead) (segs : List SegmentRead)
      (rest : List Text → Result (List SegmentState))
      → ((emitted' : List Text) → Answer (suc index) emitted' segs (rest emitted'))
      → Answer index emitted (seg ∷ segs) (after_chain segments seg index seg.chain emitted rest)
  unfolding after_chain IsClean
  after_chain-Answer index emitted seg segs rest later =
      let at_chain = λ (c : Option VerifyResult) (e : seg.chain ≡ c).
        ap (λ c. after_chain segments seg index c emitted rest) e in
      elim (Option-cases seg.chain) [
        | inl unread ↦ same-Answer index emitted (seg ∷ segs) (at_chain _ unread) (
            refused index emitted emitted seg segs _ [] (λ h. cc h)
              (λ (_, read, _, _, _). cc (sym unread ∙ read)) (later emitted))
        | inr (chain, read) ↦ elim (Bool-cases chain.is_ok) [
          | inl passes ↦
              same-Answer index emitted (seg ∷ segs) (at_chain _ read)
                (rw passes (passing-Answer index emitted seg segs chain rest read passes later))
          | inr fails ↦ same-Answer index emitted (seg ∷ segs) (at_chain _ read) (
              rw fails (
                refused index emitted emitted seg segs
                  (state_of seg.identity segment_broken (some (chain_reason chain.reason))
                    chain.broken_seq)
                  [] (λ h. cc h)
                  (λ (other, read', passes, _, _).
                    cc (sym fails ∙ ap (λ c. c.is_ok) (some_inj (sym read ∙ read')) ∙ passes))
                  (later emitted)))
        ]
      ]

  segment_states-Answer :
      (index : ℕ) (emitted : List Text) (segs : List SegmentRead)
      → Answer index emitted segs (segment_states segments index emitted segs)
  unfolding segment_states
  segment_states-Answer index emitted [] = ([], refl, λ _. unfold AllClean in ((λ _. tt), λ _. tt))
  segment_states-Answer index emitted (seg ∷ segs) =
      after_chain-Answer index emitted seg segs
        (λ emitted'. segment_states segments (suc index) emitted' segs)
        (λ emitted'. segment_states-Answer (suc index) emitted' segs)

-- `verify_segments` always returns, and its verdict is intact exactly if every segment is clean:
-- its own chain verifies with no row left out, and it is the first one or binds the hash of an
-- entry of a segment that is there.
pub verify_segments-AllClean :
    (segments : List SegmentRead)
    → (r : SegmentsResult) × (verify_segments segments ≡ ok r)
      × ((r.verdict ≡ intact) ↔ AllClean segments 0 segments)
unfolding verify_segments
verify_segments-AllClean segments =
    let (states, e, iff) = segment_states-Answer segments 0 [] segments in
    let verdicts = join_states_iff intact states in
    (
      record { segments = states; verdict = join_states intact states },
      rw e,
      ((λ h. (iff refl).0 (verdicts.0 h).1), λ clean. verdicts.1 (refl, (iff refl).1 clean)),
    )
