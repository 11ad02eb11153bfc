-- ===== src/Tests/Clock.antt =====
-- Liveness readings on a clock of whole seconds.
use waxseal.Base.{refl, text_eq, none, ℕ, [], ◌∷◌, Text, ◌≡◌, Option, some}
use waxseal.Base.Int.{negsuc, ℤ, ltb_ℤ, sub_ℕ, pos}
use waxseal.Liveness.{
  Outcome, delinquency-Outcome, liveness_of, delinquency, with_moment, delinquent,
}
use waxseal.Pinning.Staleness.{age_of, age_verdict, anchor_staleness, Datetimes, newest}

instant : ℤ → Option ℕ
instant (pos n) = some n
instant (negsuc _) = none

read_instant : Text → Option ℕ
read_instant (n ∷ []) = some n
read_instant _ = none

abbrev seconds : Datetimes
seconds = record {
  Moment = ℕ;
  Seconds = ℤ;
  fromtimestamp = instant;
  isoformat = λ n. n ∷ [];
  fromisoformat = read_instant;
  elapsed = λ now m. some (sub_ℕ now m);
  exceeds = λ s limit. ltb_ℤ limit s;
  whole = λ s. s;
}

late_status : (delinquency seconds 1000 (some (pos 100)) (some (pos 600))).status ≡ delinquent
unfolding delinquency with_moment liveness_of anchor_staleness newest age_of age_verdict instant
    read_instant text_eq
late_status = refl

delinquency-Outcome_example :
    Outcome seconds 1000
      (some (pos 100))
      (some (pos 600))
      (delinquency seconds 1000 (some (pos 100)) (some (pos 600)))
unfolding read_instant
delinquency-Outcome_example =
    delinquency-Outcome seconds 1000 (λ m. refl) (some (pos 100)) (some (pos 600))
