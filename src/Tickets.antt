-- ===== src/Tickets.antt =====
-- src/waxseal/domain/tickets.py: which issued admission tickets never reached a trail. A Python
-- set is a list without order here, and `sorted` of a set is a sorted list without repetitions.
pub mod Reconcile
pub mod Scan
pub mod Trail
use Prim.Native.Nat.{max}
use waxseal.Base.{
  Option, raise_if, ◌*◌, ◌&&◌, ◌-◌, ℕ, if◌then◌else◌, false, Text, not, Bool, value_error, ◌||◌,
  ◌/◌, ◌+◌, ok, true, [], ◌∷◌, Result, raise, List, none, some, ◌>>◌,
}
use waxseal.Base.Int.{pos_part, ℤ, eq_ℤ, pos, leb_ℤ, ltb_ℤ}
use waxseal.Verdict.{intact, broken, unverifiable, Verdict}

pub record Ticket : Type 0 where
  pub issuer : Text
  pub ticket_id : ℤ

-- `Ticket(...)` with its `__post_init__`, on arguments of the declared types
unfoldable pub new_ticket : Text → ℤ → Result Ticket
new_ticket [] ticket_id = raise value_error
new_ticket (c ∷ issuer) ticket_id =
    raise_if (ltb_ℤ ticket_id (pos 0)) value_error
    >> ok (record { issuer = c ∷ issuer; ticket_id = ticket_id })

pub record TicketReconciliation : Type 0 where
  pub measured : Bool
  pub lease_size : ℤ
  pub verdict : Verdict
  pub missing : Option (List ℤ)
  pub blind_spot_window : Option (ℤ × ℤ)
  pub blind_spot_missing : Option (List ℤ)
  pub blind_spot_bound : ℤ

-- `t in ts`
unfoldable pub mem : ℤ → List ℤ → Bool
mem t [] = false
mem t (x ∷ xs) = eq_ℤ t x || mem t xs

-- `[t for t in ts if p(t)]`
unfoldable pub keep : (ℤ → Bool) → List ℤ → List ℤ
keep p [] = []
keep p (x ∷ xs) = let rest = keep p xs in if p x then x ∷ rest else rest

unfoldable pub insert : ℤ → List ℤ → List ℤ
insert t [] = t ∷ []
insert t (x ∷ xs) =
    let rest = insert t xs in
    if eq_ℤ t x then x ∷ xs else if ltb_ℤ t x then t ∷ x ∷ xs else x ∷ rest

-- `sorted(set(ts))`
unfoldable pub sorted_set : List ℤ → List ℤ
sorted_set [] = []
sorted_set (x ∷ xs) = insert x (sorted_set xs)

-- `max(ts)` of a list of numbers that are not negative
unfoldable pub max_of : List ℤ → ℕ
max_of [] = 0
max_of (x ∷ xs) = max (pos_part x) (max_of xs)

unfoldable pub any_negative : List ℤ → Bool
any_negative [] = false
any_negative (x ∷ xs) = ltb_ℤ x (pos 0) || any_negative xs

-- `(max_issued // lease_size) * lease_size`; the divisor is not 0
unfoldable pub window_lo : List ℤ → ℕ → ℕ
window_lo issued lease_size = (max_of issued / lease_size) * lease_size

abbrev pub broken_if_any : List ℤ → Verdict
broken_if_any [] = intact
broken_if_any (_ ∷ _) = broken

-- What is left to compute once the arguments are checked.
unfoldable pub measured_tickets : List ℤ → List ℤ → ℕ → TicketReconciliation
measured_tickets present [] lease_size = record {
  measured = true;
  lease_size = pos lease_size;
  verdict = intact;
  missing = some [];
  blind_spot_window = none;
  blind_spot_missing = some [];
  blind_spot_bound = pos (lease_size - 1);
}
measured_tickets present (x ∷ xs) lease_size =
    let lo = window_lo (x ∷ xs) lease_size in
    let hi = lo + lease_size - 1 in
    let issued_set = sorted_set (x ∷ xs) in
    let missing = keep (λ t. ltb_ℤ t (pos lo) && not (mem t present)) issued_set in
    record {
      measured = true;
      lease_size = pos lease_size;
      verdict = broken_if_any missing;
      missing = some missing;
      blind_spot_window = some (pos lo, pos hi);
      blind_spot_missing =
          some
            (keep (λ t. leb_ℤ (pos lo) t && (leb_ℤ t (pos hi) && not (mem t present))) issued_set);
      blind_spot_bound = pos (lease_size - 1);
    }

unfoldable pub reconcile_set : List ℤ → Option (List ℤ) → ℕ → Result TicketReconciliation
reconcile_set present none lease_size = ok (record {
  measured = false;
  lease_size = pos lease_size;
  verdict = unverifiable;
  missing = none;
  blind_spot_window = none;
  blind_spot_missing = none;
  blind_spot_bound = pos (lease_size - 1);
})
reconcile_set present (some issued) lease_size =
    raise_if (any_negative issued) value_error >> ok (measured_tickets present issued lease_size)

unfoldable pub reconcile_tickets : List ℤ → Option (List ℤ) → ℤ → Result TicketReconciliation
unfolding reconcile_set measured_tickets
reconcile_tickets present issued lease_size =
    raise_if (ltb_ℤ lease_size (pos 1)) value_error
    >> reconcile_set present issued (pos_part lease_size)
