-- ===== src/Segments/Clean.antt =====
-- The segments of src/waxseal/domain/segments.py that are bound and clean, and the findings about
-- one of them.
use waxseal.Base.{
  false, some, suc, All, Bool-cases, inl, arith, sym, ◌⊎◌, Text, ap, List, inr, ok_inj, ok, ◌≢◌,
  ◌==◌, ◌≡◌, ℕ, some_inj, ◌∷◌, ==_iff, Result-cases, [], Option, ◌↔◌, ◌∙◌, refl, true, none,
}
use waxseal.Base.Int.{pos}
use waxseal.Handoff.{binding_holds, HandoffBinding, from_payload}
use waxseal.Handoff.Binding.{from_payload-raise}
use waxseal.Segments.{
  rotation_binding_mismatch, state_of, join_states, segment_missing, chain_of,
  rotation_binding_unreadable, segment_ok, rotation_binding_missing, check_predecessor,
  segment_broken, SegmentState, nothing_found, binding_finding, SegmentRead, after_last_slash,
  segment_unverifiable, present, check_binding, found_state, names_missing, standing_verdict,
  Standing, is_rotation,
}
use waxseal.Verdict.{intact, join, unverifiable, Verdict, broken}
use waxseal.Verify.{VerifyResult}

-- The binding of a segment: the first one may have none, and each other binding names a segment
-- that is there and readable, and whose entry at the position named has the hash named.
unfoldable pub Bound : List SegmentRead → SegmentRead → ℕ → Type 0
Bound segments seg index =
    ((is_rotation seg.genesis_payload_type ≡ false) × (index ≡ 0))
    ⊎ ((is_rotation seg.genesis_payload_type ≡ true)
        × (binding : HandoffBinding) × (from_payload seg.genesis_payload ≡ ok binding)
        × (predecessor : SegmentRead) × (present (after_last_slash binding.chain_id) segments
            ≡ some predecessor)
        × (predecessor.chain ≢ none)
        × (binding_holds binding predecessor.entry_hashes ≡ true))

-- A segment whose own chain verifies with no row left out, and which is bound.
unfoldable pub IsClean : List SegmentRead → SegmentRead → ℕ → Type 0
unfolding Bound
IsClean segments seg index =
    (chain : VerifyResult) × (seg.chain ≡ some chain)
    × (chain.is_ok ≡ true)
    × (chain.unverifiable ≡ [])
    × Bound segments seg index

unfoldable pub AllClean : List SegmentRead → ℕ → List SegmentRead → Type 0
unfolding IsClean
AllClean segments index [] = Unit
AllClean segments index (seg ∷ segs) =
    IsClean segments seg index × AllClean segments (suc index) segs

abbrev pub AllOk : List SegmentState → Type 0
AllOk = All (λ s. s.state ≡ segment_ok)

standing_verdict_iff : (s : Standing) → (standing_verdict s ≡ intact) ↔ (s ≡ segment_ok)
unfolding standing_verdict
standing_verdict_iff segment_ok = ((λ _. refl), λ _. refl)
standing_verdict_iff segment_broken = ((λ h. cc h), λ h. cc h)
standing_verdict_iff segment_unverifiable = ((λ h. cc h), λ h. cc h)
standing_verdict_iff segment_missing = ((λ h. cc h), λ h. cc h)

join_intact : (a b : Verdict) → (join a b ≡ intact) ↔ ((a ≡ intact) × (b ≡ intact))
unfolding join
join_intact intact b = ((λ h. (refl, ground (arith, h))), λ (_, h). ground (arith, h))
join_intact unverifiable intact = ((λ h. cc h), λ (h, _). cc h)
join_intact unverifiable unverifiable = ((λ h. cc h), λ (h, _). cc h)
join_intact unverifiable broken = ((λ h. cc h), λ (h, _). cc h)
join_intact broken intact = ((λ h. cc h), λ (h, _). cc h)
join_intact broken unverifiable = ((λ h. cc h), λ (h, _). cc h)
join_intact broken broken = ((λ h. cc h), λ (h, _). cc h)

-- The verdict of the whole is intact exactly if every state is ok.
pub join_states_iff :
    (v : Verdict) (states : List SegmentState)
    → (join_states v states ≡ intact) ↔ ((v ≡ intact) × AllOk states)
unfolding join_states
join_states_iff v [] = ((λ h. (h, tt)), λ (h, _). h)
join_states_iff v (s ∷ states) =
    let next = join_states_iff (join v (standing_verdict s.state)) states in
    let joined = join_intact v (standing_verdict s.state) in
    let standing = standing_verdict_iff s.state in
    (
      (λ h.
          let (j, rest) = next.0 h in
          let (first, here) = joined.0 j in (first, (standing.0 here, rest))),
      λ (first, (here, rest)). next.1 (joined.1 (first, standing.1 here), rest),
    )

-- What the look at a binding ends with.
pub data Finding (segments : List SegmentRead) (seg : SegmentRead) (index : ℕ) : Type 0 where
  bound :
      binding_finding segments seg index ≡ ok nothing_found
      → Bound segments seg index
      → Finding segments seg index
  not_bound :
      (state : SegmentState)
      → binding_finding segments seg index ≡ ok (found_state state)
      → state.state ≢ segment_ok
      → ¬ Bound segments seg index
      → Finding segments seg index
  no_predecessor :
      (name : Text)
      → binding_finding segments seg index ≡ ok (names_missing name)
      → ¬ Bound segments seg index
      → Finding segments seg index

names_predecessor :
    (identity : Text) (binding : HandoffBinding) (chain : Option VerifyResult)
    (found : Option SegmentRead)
    → chain_of found ≡ chain
    → ((check_predecessor identity binding found chain ≡ nothing_found)
        × (p : SegmentRead) × (found ≡ some p)
        × (p.chain ≢ none)
        × (binding_holds binding p.entry_hashes ≡ true))
      ⊎ (((check_predecessor identity binding found chain
              ≡ names_missing (after_last_slash binding.chain_id))
            ⊎ ((s : SegmentState) × (check_predecessor identity binding found chain ≡ found_state s)
                × (s.state ≢ segment_ok)))
          × ¬ (
              (p : SegmentRead) × (found ≡ some p)
              × (p.chain ≢ none)
              × (binding_holds binding p.entry_hashes ≡ true)))
unfolding check_predecessor
names_predecessor identity binding chain none e = inr (inl refl, λ (p, absent, _, _). cc absent)
names_predecessor identity binding none (some p) e = inr (
  inr (_, refl, λ h. cc h),
  λ (q, same, read, _). read (ap (λ s. s.chain) (sym (some_inj same)) ∙ e),
)
names_predecessor identity binding (some r) (some p) e =
    elim (Bool-cases (binding_holds binding p.entry_hashes)) [
      | inl holds ↦ inl (rw holds, p, refl, (λ h. cc (sym h ∙ e)), holds)
      | inr fails ↦ inr (
        inr (
          state_of identity segment_broken (some rotation_binding_mismatch) (some (pos 0)),
          rw fails,
          λ h. cc h,
        ),
        λ (q, same, _, holds).
            cc (sym fails ∙ ap (λ s. binding_holds binding s.entry_hashes) (some_inj same) ∙ holds),
      )
    ]

pub binding_finding-Finding :
    (segments : List SegmentRead) (seg : SegmentRead) (index : ℕ) → Finding segments seg index
unfolding binding_finding Bound
binding_finding-Finding segments seg index =
    elim (Bool-cases (is_rotation seg.genesis_payload_type)) [
      | inr ordinary ↦ elim (Bool-cases (index == 0)) [
        | inl first ↦ bound (rw (ordinary, first)) (inl (ordinary, (==_iff index 0).0 first))
        | inr later ↦
            not_bound
              (state_of seg.identity segment_broken (some rotation_binding_missing) (some (pos 0)))
              (rw (ordinary, later)) (λ h. cc h)
              (λ b. elim b [
                | inl (_, first) ↦ cc (sym later ∙ (==_iff index 0).1 first)
                | inr (rotation, _, _, _, _, _, _) ↦ cc (sym ordinary ∙ rotation)
              ])
      ]
      | inl rotation ↦ elim (Result-cases (from_payload seg.genesis_payload)) [
        | inr (x, raised) ↦
            let only = from_payload-raise seg.genesis_payload x raised in
            not_bound
              (state_of seg.identity segment_unverifiable (some rotation_binding_unreadable)
                (some (pos 0)))
              (unfold check_binding in rw (rotation, raised, only)) (λ h. cc h)
              (λ b. elim b [
                | inl (ordinary, _) ↦ cc (sym ordinary ∙ rotation)
                | inr (_, binding, read, _, _, _, _) ↦ cc (sym raised ∙ read)
              ])
        | inl (binding, read) ↦
            let found = present (after_last_slash binding.chain_id) segments in
            elim (names_predecessor seg.identity binding (chain_of found) found refl) [
              | inl (e, p, there, readable, holds) ↦
                  bound (unfold check_binding in rw (rotation, read) (ap ok e))
                    (inr (rotation, binding, read, p, there, readable, holds))
              | inr (what, unfit) ↦
                  let fails : ¬ Bound segments seg index = λ b. elim b [
                    | inl (ordinary, _) ↦ cc (sym ordinary ∙ rotation)
                    | inr (_, other, read', p, there, readable, holds) ↦
                        let same : other ≡ binding = ok_inj (sym read' ∙ read) in
                        unfit (
                          p,
                          ap (λ b. present (after_last_slash b.chain_id) segments) (sym same)
                              ∙ there,
                          readable,
                          ap (λ b. binding_holds b p.entry_hashes) (sym same) ∙ holds,
                        )
                  ] in
                  elim what [
                    | inl missing ↦
                        no_predecessor (after_last_slash binding.chain_id)
                          (unfold check_binding in rw (rotation, read) (ap ok missing)) fails
                    | inr (s, e, bad) ↦
                        not_bound s (unfold check_binding in rw (rotation, read) (ap ok e)) bad
                          fails
                  ]
            ]
      ]
    ]
