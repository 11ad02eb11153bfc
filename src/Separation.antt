-- ===== src/Separation.antt =====
-- src/waxseal/domain/separation.py: how many authorities a deployment declares, and whether an
-- observation falls short of that.
use mathlib.Core.Option
use waxseal.Base.{
  ◌∷◌, Option, Bool, codes, inl, inr, [], ◌∙◌, List, Bool-cases, none, Text, ◌||◌, not, refl, ◌++◌,
  some, true, ◌&&◌, false, sym, ap, ◌≡◌,
}
use waxseal.Base.Int.{eq_ℤ_iff, ltb_ℤ, ℤ, ◌+ℤ◌, +ℤ-zero, eq_ℤ, pos}
use waxseal.Bytes.Decimal.{show_int}

pub record SeparationTopology : Type 0 where
  pub seal_escrow : Bool
  pub anchor_sinks : ℤ
  pub witness : Bool
  pub pin_separate : Bool
  pub ledger : Option Bool

-- `int(b)`
abbrev pub int_of_bool : Bool → ℤ
int_of_bool true = pos 1
int_of_bool false = pos 0

-- `bool(topology.ledger)`
abbrev pub truthy : Option Bool → Bool
truthy none = false
truthy (some b) = b

unfoldable pub separation_degree : Option SeparationTopology → Option ℤ
separation_degree none = none
separation_degree (some t) = some (
    pos 1
    +ℤ int_of_bool t.seal_escrow
    +ℤ t.anchor_sinks
    +ℤ int_of_bool t.witness
    +ℤ int_of_bool t.pin_separate
    +ℤ int_of_bool (truthy t.ledger))

unfoldable pub separation_shortfall : SeparationTopology → ℤ → Bool → Bool
separation_shortfall declared observed_anchor_sinks observed_witness_consistent =
    ltb_ℤ observed_anchor_sinks declared.anchor_sinks
    || (declared.witness && not observed_witness_consistent)

unfoldable pub ledger_shortfall : SeparationTopology → Bool → Bool
ledger_shortfall declared observed_ledger_ok = truthy declared.ledger && not observed_ledger_ok

unfoldable pub render_separation_degree : Option ℤ → Text
render_separation_degree none = codes "not declared"
render_separation_degree (some degree) = show_int degree

-- `if c: counted.append((name, n))`, in front of what is appended after it
abbrev pub counted_if : Bool → Text → ℤ → List (Text × ℤ) → List (Text × ℤ)
counted_if true name n rest = (name, n) ∷ rest
counted_if false name n rest = rest

unfoldable pub counted_authorities : Option SeparationTopology → Option (List (Text × ℤ))
counted_authorities none = none
counted_authorities (some t) = some (
    (codes "writer", pos 1)
    ∷ counted_if t.seal_escrow (codes "seal_escrow") (pos 1) (
        counted_if (not (eq_ℤ t.anchor_sinks (pos 0))) (codes "anchor_sinks") t.anchor_sinks (
          counted_if t.witness (codes "witness") (pos 1) (
            counted_if t.pin_separate (codes "pin_separate") (pos 1)
              (counted_if (truthy t.ledger) (codes "ledger") (pos 1) [])))))

-- `sum(n for _, n in counted)`, which adds from the left
unfoldable pub sum_counted : ℤ → List (Text × ℤ) → ℤ
sum_counted total [] = total
sum_counted total ((_, n) ∷ rest) = sum_counted (total +ℤ n) rest

-- `" + ".join(f"{name}({n})" for name, n in counted)`
unfoldable pub joined : List (Text × ℤ) → Text
joined [] = []
joined ((name, n) ∷ []) = name ++ codes "(" ++ show_int n ++ codes ")"
joined ((name, n) ∷ next ∷ rest) =
    name ++ codes "(" ++ show_int n ++ codes ")" ++ codes " + " ++ joined (next ∷ rest)

unfoldable pub render_counted_authorities : Option (List (Text × ℤ)) → Text
render_counted_authorities none = codes "not declared"
render_counted_authorities (some counted) =
    joined counted ++ codes " = " ++ show_int (sum_counted (pos 0) counted)

sum_counted_writer :
    (name : Text) (rest : List (Text × ℤ))
    → sum_counted (pos 0) ((name, pos 1) ∷ rest) ≡ sum_counted (pos 1) rest
unfolding sum_counted ◌+ℤ◌
sum_counted_writer name rest = refl

sum_counted_nil : (total : ℤ) → sum_counted total [] ≡ total
unfolding sum_counted
sum_counted_nil total = refl

sum_counted_if :
    (c : Bool) (name : Text) (total : ℤ) (rest : List (Text × ℤ))
    → sum_counted total (counted_if c name (pos 1) rest) ≡ sum_counted (total +ℤ int_of_bool c) rest
unfolding sum_counted
sum_counted_if true name total rest = refl
sum_counted_if false name total rest = ap (λ t. sum_counted t rest) (sym (+ℤ-zero total))

sum_counted_sinks :
    (sinks total : ℤ) (name : Text) (rest : List (Text × ℤ))
    → sum_counted total (counted_if (not (eq_ℤ sinks (pos 0))) name sinks rest)
      ≡ sum_counted (total +ℤ sinks) rest
unfolding sum_counted
sum_counted_sinks sinks total name rest = elim (Bool-cases (eq_ℤ sinks (pos 0))) [
  | inl no_sinks ↦ rw no_sinks (
      ap (λ t. sum_counted t rest)
        (sym (ap (λ n. total +ℤ n) ((eq_ℤ_iff sinks (pos 0)).0 no_sinks) ∙ +ℤ-zero total)))
  | inr sinks_there ↦ rw sinks_there
]

-- The authorities that are listed add up to the degree, for every topology, and neither is given
-- where no topology is declared.
pub separation_degree-counted_authorities :
    (t : Option SeparationTopology)
    → Option.map (sum_counted (pos 0)) (counted_authorities t) ≡ separation_degree t
unfolding counted_authorities separation_degree
separation_degree-counted_authorities none = refl
separation_degree-counted_authorities (some t) = ap some (
    sum_counted_writer _ _
    ∙ sum_counted_if t.seal_escrow _ (pos 1) _
    ∙ sum_counted_sinks t.anchor_sinks _ _ _
    ∙ sum_counted_if t.witness _ _ _
    ∙ sum_counted_if t.pin_separate _ _ _
    ∙ sum_counted_if (truthy t.ledger) _ _ _
    ∙ sum_counted_nil _)
