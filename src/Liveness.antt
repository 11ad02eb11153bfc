-- ===== src/Liveness.antt =====
-- src/waxseal/domain/liveness.py: is the trail of a writer still anchored on time? The contract's
-- answer is an argument, and so is Python's `datetime`.
use mathlib.Core.Option
use waxseal.Base.{
  sym, raise, Option, text_eq, some, ◌≡◌, false, true, Result, refl, none, Text, [], subst, ◌⊎◌,
  inr, if◌then◌else◌, inl, codes, ◌∷◌, ok, value_error, Bool,
}
use waxseal.Base.Int.{pos, ℤ}
use waxseal.Pinning.Staleness.{
  anchor_staleness, newest, Datetimes, anchor_stale, age_verdict, anchor_timestamp_unparseable,
  age_of,
}
use waxseal.Verdict.{unverifiable, Verdict, intact, broken}

abbrev pub live : Text
live = codes "live"

abbrev pub delinquent : Text
delinquent = codes "delinquent"

abbrev pub unreachable : Text
unreachable = codes "unreachable"

abbrev pub ledger_delinquent : Text
ledger_delinquent = codes "ledger_delinquent"

abbrev pub no_checkpoint_on_ledger : Text
no_checkpoint_on_ledger = codes "no_checkpoint_on_ledger"

abbrev pub deadline_unavailable : Text
deadline_unavailable = codes "deadline_unavailable"

abbrev pub block_timestamp_unusable : Text
block_timestamp_unusable = codes "block_timestamp_unusable"

pub record LivenessVerdict : Type 0 where
  pub status : Text
  pub reason : Option Text
  pub age_s : Option ℤ
  pub deadline_s : Option ℤ

-- `_lookup(status, _LEDGER_STATUS)`
unfoldable pub to_verdict : LivenessVerdict → Result Verdict
to_verdict v =
    if text_eq v.status live
    then ok intact
    else if text_eq v.status delinquent
    then ok broken
    else if text_eq v.status unreachable
    then ok unverifiable
    else raise value_error

-- `_lookup(status, _VERIFY_STATUS)`
unfoldable pub to_verify_verdict : LivenessVerdict → Result Verdict
to_verify_verdict v =
    if text_eq v.status live
    then ok intact
    else if text_eq v.status delinquent
    then ok unverifiable
    else if text_eq v.status unreachable
    then ok unverifiable
    else raise value_error

unfoldable pub unreachable_ledger : Text → LivenessVerdict
unreachable_ledger reason = record {
  status = unreachable;
  reason = some reason;
  age_s = none;
  deadline_s = none;
}

module _ (dt : Datetimes) (now : dt.Moment) where
  -- `_age_s`, where `None` stays `None`
  unfoldable pub age : Option dt.Moment → Option ℤ
  age none = none
  age (some m) = Option.map dt.whole (dt.elapsed now m)

  -- `LEDGER_DELINQUENT if moment is not None else NO_CHECKPOINT_ON_LEDGER`
  unfoldable pub late_reason : Option dt.Moment → Text
  late_reason none = no_checkpoint_on_ledger
  late_reason (some _) = ledger_delinquent

  -- What follows the call of `anchor_staleness`.
  unfoldable pub liveness_of : ℤ → Option dt.Moment → Option Text → LivenessVerdict
  unfolding age late_reason
  liveness_of deadline_s moment none = record {
    status = live;
    reason = none;
    age_s = age moment;
    deadline_s = some deadline_s;
  }
  liveness_of deadline_s moment (some stale) =
      if text_eq stale anchor_timestamp_unparseable
      then record {
        status = unreachable;
        reason = some stale;
        age_s = none;
        deadline_s = some deadline_s;
      }
      else record {
        status = delinquent;
        reason = some (late_reason moment);
        age_s = age moment;
        deadline_s = some deadline_s;
      }

  -- The rest of `delinquency` on a moment that the block's timestamp gave.
  unfoldable pub with_moment : ℤ → Option dt.Moment → LivenessVerdict
  unfolding liveness_of anchor_staleness
  with_moment deadline_s none = record {
    status = unreachable;
    reason = some block_timestamp_unusable;
    age_s = none;
    deadline_s = some deadline_s;
  }
  with_moment deadline_s (some m) =
      liveness_of deadline_s (some m)
        (anchor_staleness dt now deadline_s ((pos 0, dt.isoformat m) ∷ []))

  unfoldable pub delinquency : Option ℤ → Option ℤ → LivenessVerdict
  unfolding with_moment
  delinquency _ none = record {
    status = unreachable;
    reason = some deadline_unavailable;
    age_s = none;
    deadline_s = none;
  }
  delinquency none (some deadline_s) =
      liveness_of deadline_s none (anchor_staleness dt now deadline_s [])
  delinquency (some block_ts) (some deadline_s) = with_moment deadline_s (dt.fromtimestamp block_ts)

  -- The newest checkpoint of the ledger is within the deadline.
  pub OnTime : Option ℤ → Option ℤ → Type 0
  OnTime latest deadline =
      (d : ℤ) × (t : ℤ) × (m : dt.Moment) × (a : dt.Seconds) × (deadline ≡ some d)
      × (latest ≡ some t)
      × (dt.fromtimestamp t ≡ some m)
      × (dt.elapsed now m ≡ some a)
      × (dt.exceeds a d ≡ false)

  -- There is a deadline, and the ledger holds no checkpoint or an older one.
  pub Late : Option ℤ → Option ℤ → Type 0
  Late latest deadline =
      (d : ℤ) × (deadline ≡ some d)
      × ((latest ≡ none)
          ⊎ ((t : ℤ) × (m : dt.Moment) × (a : dt.Seconds) × (latest ≡ some t)
              × (dt.fromtimestamp t ≡ some m)
              × (dt.elapsed now m ≡ some a)
              × (dt.exceeds a d ≡ true)))

  -- There is no deadline, or the time of the checkpoint cannot be compared with now.
  pub Unmeasured : Option ℤ → Option ℤ → Type 0
  Unmeasured latest deadline =
      (deadline ≡ none)
      ⊎ ((t : ℤ) × (latest ≡ some t)
          × ((dt.fromtimestamp t ≡ none)
              ⊎ ((m : dt.Moment) × (dt.fromtimestamp t ≡ some m) × (dt.elapsed now m ≡ none))))

  -- The verdicts of `ledger-status` and of `verify` on a reading.
  pub Reads : LivenessVerdict → Verdict → Verdict → Type 0
  Reads v status verify = (to_verdict v ≡ ok status) × (to_verify_verdict v ≡ ok verify)

  pub Outcome : Option ℤ → Option ℤ → LivenessVerdict → Type 0
  Outcome latest deadline v =
      (OnTime latest deadline × Reads v intact intact)
      ⊎ ((Late latest deadline × Reads v broken unverifiable)
          ⊎ (Unmeasured latest deadline × Reads v unverifiable unverifiable))

  aged-Outcome :
      (t d : ℤ) (m : dt.Moment) (o : Option dt.Seconds)
      → dt.fromtimestamp t ≡ some m
      → dt.elapsed now m ≡ o
      → Outcome (some t) (some d) (liveness_of d (some m) (age_verdict dt now d o))
  unfolding Outcome Reads OnTime Late Unmeasured to_verdict to_verify_verdict age_verdict
      liveness_of text_eq
  aged-Outcome t d m none placed e = inr (inr (inr (t, refl, inr (m, placed, e)), (refl, refl)))
  aged-Outcome t d m (some a) placed e = by_deadline (dt.exceeds a d) refl
    where
      by_deadline :
          (over : Bool)
          → dt.exceeds a d ≡ over
          → Outcome
              (some t)
              (some d)
              (liveness_of d (some m) (if over then some anchor_stale else none))
      by_deadline true late =
          inr (inl ((d, refl, inr (t, m, a, refl, placed, e, late)), (refl, refl)))
      by_deadline false soon = inl ((d, t, m, a, refl, refl, placed, e, soon), (refl, refl))

  placed-Outcome :
      ((m : dt.Moment) → dt.fromisoformat (dt.isoformat m) ≡ some m)
      → (t d : ℤ) (o : Option dt.Moment) → dt.fromtimestamp t ≡ o
      → Outcome (some t) (some d) (with_moment d o)
  unfolding Outcome Reads Unmeasured to_verdict to_verify_verdict with_moment anchor_staleness
      newest age_of text_eq
  placed-Outcome reads t d none e = inr (inr (inr (t, refl, inl e), (refl, refl)))
  placed-Outcome reads t d (some m) e =
      subst
        (λ o.
          Outcome (some t) (some d)
            (liveness_of d (some m) (age_verdict dt now d (age_of dt now o))))
        (sym (reads m)) (aged-Outcome t d m (dt.elapsed now m) e refl)

  -- Where `datetime.fromisoformat` reads what `isoformat` writes, a reading of the contract is one
  -- of three. The newest checkpoint is within the deadline, and both commands answer intact. Or
  -- there is a deadline and no checkpoint, or an older one: `ledger-status` answers broken, and
  -- `verify` unverifiable, never broken. Or there is no deadline, or no time of the checkpoint that
  -- can be compared with now, and both answer unverifiable.
  pub delinquency-Outcome :
      ((m : dt.Moment) → dt.fromisoformat (dt.isoformat m) ≡ some m)
      → (latest deadline : Option ℤ) → Outcome latest deadline (delinquency latest deadline)
  unfolding Outcome Reads Late Unmeasured to_verdict to_verify_verdict liveness_of delinquency
      anchor_staleness text_eq
  delinquency-Outcome reads latest none = inr (inr (inl refl, (refl, refl)))
  delinquency-Outcome reads none (some d) = inr (inl ((d, refl, inl refl), (refl, refl)))
  delinquency-Outcome reads (some t) (some d) = placed-Outcome reads t d (dt.fromtimestamp t) refl
