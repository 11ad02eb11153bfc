-- ===== src/Bond/Status.antt =====
-- The status of a bond and its verdict, of src/waxseal/domain/bond.py.
use waxseal.Base.{
  raise, none, Option, Result, if◌then◌else◌, true, Bool, inr, inl, codes, Bool-cases, ok, ◌∷◌, ◌≡◌,
  ◌&&◌, not, some, [], refl, text_eq, false, arith, Text, value_error,
}
use waxseal.Base.Dict.{Dict, lookup}
use waxseal.Base.Int.{pos, ltb_ℤ, leb_ℤ, ℤ}
use waxseal.Verdict.{unverifiable, intact, Verdict, broken}

abbrev pub bonded : Text
bonded = codes "bonded"

abbrev pub slashed_status : Text
slashed_status = codes "slashed"

abbrev pub unbonded : Text
unbonded = codes "unbonded"

abbrev pub bond_unreachable : Text
bond_unreachable = codes "unreachable"

abbrev pub bond_slashed : Text
bond_slashed = codes "bond_slashed"

abbrev pub no_bond_posted : Text
no_bond_posted = codes "no_bond_posted"

pub record BondStatus : Type 0 where
  pub writer_id : Text
  pub status : Text
  pub amount_wei : Option ℤ
  pub reason : Option Text

-- _BOND_STATUS
abbrev pub bond_verdicts : Dict Verdict
bond_verdicts =
    (bonded, intact)
    ∷ (slashed_status, broken)
    ∷ (unbonded, broken)
    ∷ (bond_unreachable, unverifiable)
    ∷ []

-- `except KeyError: raise ValueError(...)`
unfoldable pub verdict_or_error : Option Verdict → Result Verdict
verdict_or_error none = raise value_error
verdict_or_error (some v) = ok v

-- `BondStatus.to_verdict`
unfoldable pub bond_verdict : BondStatus → Result Verdict
unfolding verdict_or_error
bond_verdict s = verdict_or_error (lookup s.status bond_verdicts)

unfoldable pub bond_status_for : Text → ℤ → Bool → BondStatus
bond_status_for writer_id amount_wei slashed =
    if slashed
    then record {
      writer_id = writer_id;
      status = slashed_status;
      amount_wei = some amount_wei;
      reason = some bond_slashed;
    }
    else if leb_ℤ amount_wei (pos 0)
    then record {
      writer_id = writer_id;
      status = unbonded;
      amount_wei = some amount_wei;
      reason = some no_bond_posted;
    }
    else record {
      writer_id = writer_id;
      status = bonded;
      amount_wei = some amount_wei;
      reason = none;
    }

unfoldable pub unreachable_bond : Text → Text → BondStatus
unreachable_bond writer_id reason = record {
  writer_id = writer_id;
  status = bond_unreachable;
  amount_wei = none;
  reason = some reason;
}

-- The verdict of a bond that was read is never unverifiable, and it is intact exactly if the bond
-- was not slashed and holds a positive amount; a ledger that could not be read is unverifiable,
-- whatever the reason given.
pub bond_verdict-bond_status_for :
    (writer_id reason : Text) (amount_wei : ℤ) (slashed : Bool)
    → (bond_verdict (bond_status_for writer_id amount_wei slashed)
        ≡ ok (if not slashed && ltb_ℤ (pos 0) amount_wei then intact else broken))
      × (bond_verdict (unreachable_bond writer_id reason) ≡ ok unverifiable)
unfolding bond_verdict verdict_or_error bond_status_for unreachable_bond lookup text_eq
bond_verdict-bond_status_for writer_id reason amount_wei true = (refl, refl)
bond_verdict-bond_status_for writer_id reason amount_wei false =
    elim (Bool-cases (leb_ℤ amount_wei (pos 0))) [
      | inl none_posted ↦
          let e : ltb_ℤ (pos 0) amount_wei ≡ false = ground (arith, none_posted) in
          (rw (none_posted, e), refl)
      | inr posted ↦
          let e : ltb_ℤ (pos 0) amount_wei ≡ true = ground (arith, posted) in (rw (posted, e), refl)
    ]
