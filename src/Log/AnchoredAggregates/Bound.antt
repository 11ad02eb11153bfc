-- ===== src/Log/AnchoredAggregates/Bound.antt =====
-- What a pass of `verify_anchored_aggregates` in src/waxseal/log/_anchoring.py says of the anchor
-- records.
use mathlib.Core.List.{append-nil, append_assoc}
use waxseal.Base.{
  ok_inj, sym, ap, some_inj, ◌++◌, ◌+◌, length, refl, ◌⊎◌, arith, ◌∷◌, ◌≡◌, ℕ, none, >>=-eq-ok,
  List, subst, [], inr, ok, false, Option, Bytes, ◌∙◌, Text, Result, All, inl, length-append, true,
  Option-cases, some,
}
use waxseal.Base.Int.{ℤ}
use waxseal.Checkpoint.{Checkpoint}
use waxseal.Digest.{Hashes}
use waxseal.Log.AnchoredAggregates.{
  AnchorSidecar, record_walk, check_records, after_check, start_of, check_anchored, binding_of,
  verify_anchored_aggregates, AnchoredResult, AnchoredReason,
}
use waxseal.Log.Sidecar.{caught}
use waxseal.Log.Sidecar.Covered.{caught-some}
use waxseal.Sealing.{Attestation}
use waxseal.Sealing.Aggregate.{AggReason, verify_anchored_aggregate}

-- The sequence numbers of the records that lack the commitment or the epoch, in order.
unfoldable pub unbound_seqs : List Checkpoint → List ℤ
unbound_seqs [] = []
unbound_seqs (cp ∷ cps) = with_unbound cp.agg_commit cp.agg_epoch (unbound_seqs cps)
  where
    with_unbound : Option Text → Option ℤ → List ℤ → List ℤ
    with_unbound (some _) (some _) later = later
    with_unbound none (some _) later = cp.seq ∷ later
    with_unbound (some _) none later = cp.seq ∷ later
    with_unbound none none later = cp.seq ∷ later

unbound_seqs_free :
    (cp : Checkpoint) (cps : List Checkpoint)
    → binding_of cp ≡ none
    → unbound_seqs (cp ∷ cps) ≡ cp.seq ∷ unbound_seqs cps
unfolding unbound_seqs binding_of
unbound_seqs_free cp cps free = elim (Option-cases cp.agg_commit) [
  | inl a ↦ elim (Option-cases cp.agg_epoch) [
    | inl b ↦ rw (a, b) refl
    | inr (y, b) ↦ rw (a, b) refl
  ]
  | inr (x, a) ↦ elim (Option-cases cp.agg_epoch) [
    | inl b ↦ rw (a, b) refl
    | inr (y, b) ↦ cc (rw (a, b) at free)
  ]
]

unbound_seqs_bound :
    (cp : Checkpoint) (cps : List Checkpoint) {b : ℤ × Text}
    → binding_of cp ≡ some b
    → unbound_seqs (cp ∷ cps) ≡ unbound_seqs cps
unfolding unbound_seqs binding_of
unbound_seqs_bound cp cps bound = elim (Option-cases cp.agg_commit) [
  | inl a ↦ elim (Option-cases cp.agg_epoch) [
    | inl b ↦ cc (rw (a, b) at bound)
    | inr (y, b) ↦ cc (rw (a, b) at bound)
  ]
  | inr (x, a) ↦ elim (Option-cases cp.agg_epoch) [
    | inl b ↦ cc (rw (a, b) at bound)
    | inr (y, b) ↦ rw (a, b) refl
  ]
]

module _ (hs : Hashes) where
  -- Each record that is bound commits to what the attestations give up to its epoch.
  unfoldable pub AllAnchored : List Attestation → Bytes → ℤ → List Checkpoint → Type 0
  AllAnchored atts key agg_start = All (λ cp.
      (epoch : ℤ) (commit : Text)
      → binding_of cp ≡ some (epoch, commit)
      → verify_anchored_aggregate hs atts key agg_start epoch commit ≡ ok none)

  record_walk-AllAnchored :
      (atts : List Attestation) (key : Bytes) (agg_start : ℤ) (last : Option AnchoredReason)
      (checked : ℕ) (unverifiable : List ℤ) (cps : List Checkpoint) {r : AnchoredResult}
      → record_walk hs atts key agg_start last checked unverifiable cps ≡ ok r
      → r.passes ≡ true
      → AllAnchored atts key agg_start cps
        × (r.checked + length r.unverifiable ≡ checked + length unverifiable + length cps)
        × (r.unverifiable ≡ unverifiable ++ unbound_seqs cps)
  unfolding record_walk AllAnchored after_check unbound_seqs
  record_walk-AllAnchored atts key agg_start last checked unverifiable [] h good =
      let same = ok_inj h in
      (
        tt,
        ap (λ (r : AnchoredResult). r.checked + length r.unverifiable) (sym same) ∙ omega arith,
        ap (λ (r : AnchoredResult). r.unverifiable) (sym same) ∙ sym (append-nil unverifiable),
      )
  record_walk-AllAnchored atts key agg_start last checked unverifiable (cp ∷ cps) {r} h good =
      elim (Option-cases (binding_of cp)) [
        | inl free ↦
            let (later, count, listed) =
              record_walk-AllAnchored atts key agg_start last checked (unverifiable ++ cp.seq ∷ [])
                cps (rw free at h) good in
            (
              ((λ epoch commit e. cc (free, e)), later),
              count ∙ omega (arith, length-append unverifiable (cp.seq ∷ [])),
              listed
                  ∙ append_assoc unverifiable (cp.seq ∷ []) (unbound_seqs cps)
                  ∙ ap (λ t. unverifiable ++ t) (sym (unbound_seqs_free cp cps free)),
            )
        | inr ((epoch, commit), tied) ↦
            let (found, looked, h1) =
              >>=-eq-ok (verify_anchored_aggregate hs atts key agg_start epoch commit) _
                (rw tied at h) in
            let (quiet, h2) = no_reason found _ h1 in
            let (later, count, listed) =
              record_walk-AllAnchored atts key agg_start last (checked + 1) unverifiable cps h2
                good in
            (
              (
                (λ epoch' commit' e.
                    let one : (epoch, commit) ≡ (epoch', commit') = some_inj (sym tied ∙ e) in
                    subst
                      (λ (b : ℤ × Text).
                        verify_anchored_aggregate hs atts key agg_start b.0 b.1 ≡ ok none)
                      one (looked ∙ ap ok quiet)),
                later,
              ),
              count ∙ omega arith,
              listed ∙ ap (λ t. unverifiable ++ t) (sym (unbound_seqs_bound cp cps tied)),
            )
      ]
    where
      no_reason :
          (o : Option AggReason) (rest : Result AnchoredResult)
          → after_check o cp.seq checked unverifiable rest ≡ ok r
          → (o ≡ none) × (rest ≡ ok r)
      no_reason none rest h = (refl, h)
      no_reason (some reason) rest h =
          let differ : false ≡ true = ap (λ (r : AnchoredResult). r.passes) (ok_inj h) ∙ good in cc

  check_records-AllAnchored :
      (cps : List Checkpoint) (versions : List Text) (attestations : Result (List Attestation))
      (key : Bytes) (agg_start : ℤ) {r : AnchoredResult}
      → check_records hs cps versions attestations key agg_start ≡ ok r
      → r.passes ≡ true
      → ((cps ≡ [])
          ⊎ ((atts : List Attestation) × (attestations ≡ ok atts)
              × AllAnchored atts key agg_start cps))
        × (r.unverifiable ≡ unbound_seqs cps)
        × (r.checked + length r.unverifiable ≡ length cps)
  unfolding check_records unbound_seqs
  check_records-AllAnchored [] [] attestations key agg_start h good = (
    inl refl,
    ap (λ (r : AnchoredResult). r.unverifiable) (sym (ok_inj h)),
    ap (λ (r : AnchoredResult). r.checked + length r.unverifiable) (sym (ok_inj h)),
  )
  check_records-AllAnchored [] (v ∷ vs) attestations key agg_start h good =
      let (atts, _, h1) = >>=-eq-ok attestations _ h in
      let (_, count, listed) = record_walk-AllAnchored atts key agg_start _ 0 [] [] h1 good in
      (inl refl, listed, count)
  check_records-AllAnchored (cp ∷ cps) versions attestations key agg_start h good =
      let (atts, read, h1) = >>=-eq-ok attestations _ h in
      let (all, count, listed) =
        record_walk-AllAnchored atts key agg_start _ 0 [] (cp ∷ cps) h1 good in
      (inr (atts, read, all), listed, count ∙ omega arith)

  -- Where `verify_anchored_aggregates` passes, the anchor records were read, and each one that is
  -- bound to an accumulator commits to what the attestations give up to its epoch, from the start
  -- that was read; the records listed as unverifiable are exactly those that lack the commitment
  -- or the epoch, in order, and `checked` counts all the others.
  pub verify_anchored_aggregates-AllAnchored :
      (read_aggregate : Option (Result (Option (ℤ × ℤ × Text)))) (records : Result AnchorSidecar)
      (attestations : Result (List Attestation)) (key : Bytes) {r : AnchoredResult}
      → verify_anchored_aggregates hs read_aggregate records attestations key ≡ ok r
      → r.passes ≡ true
      → (agg_start : ℤ) × (sidecar : AnchorSidecar) × (start_of read_aggregate ≡ ok agg_start)
        × (records ≡ ok sidecar)
        × ((sidecar.records ≡ [])
            ⊎ ((atts : List Attestation) × (attestations ≡ ok atts)
                × AllAnchored atts key agg_start sidecar.records))
        × (r.unverifiable ≡ unbound_seqs sidecar.records)
        × (r.checked + length r.unverifiable ≡ length sidecar.records)
  unfolding verify_anchored_aggregates check_anchored
  verify_anchored_aggregates-AllAnchored read_aggregate records attestations key {r} h good =
      let (agg_start, started, h1) = >>=-eq-ok (start_of read_aggregate) _ h in
      let (found, caught_lem, h2) = >>=-eq-ok (caught records) _ h1 in
      let (sidecar, read, all, listed, count) = go agg_start found caught_lem h2 in
      (agg_start, sidecar, started, read, all, listed, count)
    where
      go :
          (agg_start : ℤ) (found : Option AnchorSidecar)
          → caught records ≡ ok found
          → check_anchored hs found attestations key agg_start ≡ ok r
          → (sidecar : AnchorSidecar) × (records ≡ ok sidecar)
            × ((sidecar.records ≡ [])
                ⊎ ((atts : List Attestation) × (attestations ≡ ok atts)
                    × AllAnchored atts key agg_start sidecar.records))
            × (r.unverifiable ≡ unbound_seqs sidecar.records)
            × (r.checked + length r.unverifiable ≡ length sidecar.records)
      go agg_start none e h =
          let differ : false ≡ true = ap (λ (r : AnchoredResult). r.passes) (ok_inj h) ∙ good in cc
      go agg_start (some sidecar) e h =
          let (all, listed, count) =
            check_records-AllAnchored sidecar.records sidecar.unreadable_versions attestations key
              agg_start h good in
          (sidecar, caught-some records e, all, listed, count)
