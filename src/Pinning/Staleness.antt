-- ===== src/Pinning/Staleness.antt =====
-- `anchor_staleness` of src/waxseal/domain/_pinning_checks.py: is the newest external anchor within
-- its deadline? Python's `datetime` is an argument.
use waxseal.Base.{Option, List, none, if◌then◌else◌, [], codes, Text, Bool, ◌∷◌, some}
use waxseal.Base.Int.{ltb_ℤ, ℤ}

-- What the program uses of `datetime`. `elapsed now m` is `(now - m).total_seconds()`, `none` for a
-- `TypeError`; `exceeds` is `>` on a number of seconds and an integer, `whole` is `int`.
-- `fromtimestamp` is `none` for an `OverflowError`, an `OSError` or a `ValueError`, `fromisoformat`
-- for a `ValueError`.
pub record Datetimes : Type 1 where
  pub Moment : Type 0
  pub Seconds : Type 0
  pub fromtimestamp : ℤ → Option Moment
  pub isoformat : Moment → Text
  pub fromisoformat : Text → Option Moment
  pub elapsed : Moment → Moment → Option Seconds
  pub exceeds : Seconds → ℤ → Bool
  pub whole : Seconds → ℤ

abbrev pub anchor_stale : Text
anchor_stale = codes "anchor_stale"

abbrev pub anchor_timestamp_unparseable : Text
anchor_timestamp_unparseable = codes "anchor_timestamp_unparseable"

-- `max(records, key=lambda r: r[0])`: the first of those with the greatest number
unfoldable pub newest : ℤ × Text → List (ℤ × Text) → ℤ × Text
newest best [] = best
newest best (r ∷ rs) = newest (if ltb_ℤ (best.0) (r.0) then r else best) rs

module _ (dt : Datetimes) (now : dt.Moment) where
  -- What the age of the newest record says.
  unfoldable pub age_verdict : ℤ → Option dt.Seconds → Option Text
  age_verdict max_age_s none = some anchor_timestamp_unparseable
  age_verdict max_age_s (some age_s) =
      if dt.exceeds age_s max_age_s then some anchor_stale else none

  -- The age of a record, where its text is a time and can be compared.
  unfoldable pub age_of : Option dt.Moment → Option dt.Seconds
  age_of none = none
  age_of (some moment) = dt.elapsed now moment

  unfoldable pub anchor_staleness : ℤ → List (ℤ × Text) → Option Text
  unfolding newest age_verdict age_of
  anchor_staleness max_age_s [] = some anchor_stale
  anchor_staleness max_age_s (r ∷ rs) =
      age_verdict max_age_s (age_of (dt.fromisoformat (newest r rs).1))
