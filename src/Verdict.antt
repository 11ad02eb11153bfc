-- ===== src/Verdict.antt =====
-- src/waxseal/domain/verdict.py: the join-semilattice of findings and its exit codes.
use Prim.Native.Nat.{max}
use waxseal.Base.{◌↔◌, ok, arith, ℕ, value_error, refl, Result, leb, if◌then◌else◌, ◌≤◌, raise, ◌≡◌}
use waxseal.Base.Int.{eq_ℤ, ℤ, pos}

pub data Verdict : Type 0 where
  intact unverifiable broken : Verdict

-- _SEVERITY
abbrev pub severity : Verdict → ℕ
severity intact = 0
severity unverifiable = 1
severity broken = 2

-- `self if _SEVERITY[self] >= _SEVERITY[other] else other`
unfoldable pub join : Verdict → Verdict → Verdict
join self other = if leb (severity other) (severity self) then self else other

-- _EXIT_CODE
unfoldable pub to_exit_code : Verdict → ℕ
to_exit_code intact = 0
to_exit_code broken = 1
to_exit_code unverifiable = 2

-- _FROM_EXIT_CODE, and `ValueError` for any other code
unfoldable pub from_exit_code : ℤ → Result Verdict
from_exit_code code =
    if eq_ℤ code (pos 0)
    then ok intact
    else if eq_ℤ code (pos 1)
    then ok broken
    else if eq_ℤ code (pos 2)
    then ok unverifiable
    else raise value_error

-- `join` is the least upper bound in the order of severity: commutative, associative, idempotent,
-- with `intact` as its unit and `broken` absorbing.
pub join_semilattice :
    (a b c : Verdict)
    → (join a b ≡ join b a)
      × (join (join a b) c ≡ join a (join b c))
      × (join a a ≡ a)
      × (join intact a ≡ a)
      × (join broken a ≡ broken)
      × (severity a ≤ severity (join a b))
      × ((severity a ≤ severity c) → (severity b ≤ severity c) → severity (join a b) ≤ severity c)
unfolding join
join_semilattice intact b c = ground arith
join_semilattice unverifiable b c = ground arith
join_semilattice broken b c = ground arith

-- The exit codes 0, 1 and 2 are those of the verdicts, each of one verdict; every other is refused.
pub from_exit_code_iff :
    (code : ℤ) (v : Verdict) → (from_exit_code code ≡ ok v) ↔ (code ≡ pos (to_exit_code v))
unfolding from_exit_code to_exit_code
from_exit_code_iff code intact = ground arith
from_exit_code_iff code unverifiable = ground arith
from_exit_code_iff code broken = ground arith

-- Combining by the larger exit code is not `join`: it would report a break as unverifiable.
pub max_exit_code_hides_break :
    (to_exit_code (join broken unverifiable) ≡ 1)
    × (max (to_exit_code broken) (to_exit_code unverifiable) ≡ 2)
unfolding join to_exit_code
max_exit_code_hides_break = (refl, refl)
