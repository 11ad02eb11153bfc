-- ===== src/Tickets/Reconcile.antt =====
-- `reconcile_tickets` of src/waxseal/domain/tickets.py against the tickets that are issued and
-- those that are present.

use native.Mathlib.Nat.{div-add-mod', mod-lt}
use waxseal.Base.{
  true, ◌≢◌, ok, ap₂, ap, inl, Bool-cases, ◌↔◌, List, some, ◌||◌, ◌≡◌, Bool, ltb, refl, ◌&&◌, ◌≤◌,
  ◌+◌, arith, [], ◌∷◌, inr, ◌∙◌, false, not, ℕ, sym, ◌-◌,
}
use waxseal.Base.Int.{eq_ℤ, eq_ℤ_iff, pos, leb_ℤ, ltb_ℤ, ℤ}
use waxseal.Tickets.{
  reconcile_set, mem, reconcile_tickets, window_lo, measured_tickets, keep, sorted_set, insert,
  TicketReconciliation, max_of, any_negative, broken_if_any,
}
use waxseal.Verdict.{broken}

&&-assoc : (a b c : Bool) → ((a && b) && c) ≡ (a && (b && c))
&&-assoc a b c = ground arith

&&-false : (a : Bool) → (a && false) ≡ false
&&-false a = ground arith

||-swap : (a b c : Bool) → (a || (b || c)) ≡ (b || (a || c))
||-swap a b c = ground arith

||-idem : (a b : Bool) → (a || (a || b)) ≡ (a || b)
||-idem a b = ground arith

mem-keep : (p : ℤ → Bool) (t : ℤ) (xs : List ℤ) → mem t (keep p xs) ≡ (mem t xs && p t)
unfolding mem keep
mem-keep p t [] = refl
mem-keep p t (x ∷ xs) = elim (Bool-cases (eq_ℤ t x)) [
  | inl same ↦
      let e : t ≡ x = (eq_ℤ_iff t x).0 same in
      elim (Bool-cases (p x)) [
        | inl kept ↦ rw (kept, same, e, kept)
        | inr left_out ↦
            rw (left_out, same, e, left_out) (mem-keep p x xs ∙ rw left_out (&&-false (mem x xs)))
      ]
  | inr apart ↦ elim (Bool-cases (p x)) [
    | inl kept ↦ rw (kept, apart) (mem-keep p t xs)
    | inr left_out ↦ rw (left_out, apart) (mem-keep p t xs)
  ]
]

mem-insert : (t x : ℤ) (xs : List ℤ) → mem t (insert x xs) ≡ (eq_ℤ t x || mem t xs)
unfolding mem insert
mem-insert t x [] = refl
mem-insert t x (y ∷ ys) = elim (Bool-cases (eq_ℤ x y)) [
  | inl same ↦
      let e : x ≡ y = (eq_ℤ_iff x y).0 same in
      rw same (sym (ap (λ z. eq_ℤ t z || (eq_ℤ t y || mem t ys)) e ∙ ||-idem (eq_ℤ t y) (mem t ys)))
  | inr apart ↦ elim (Bool-cases (ltb_ℤ x y)) [
    | inl below ↦ rw (apart, below)
    | inr above ↦
        rw (apart, above)
          (ap (λ b. eq_ℤ t y || b) (mem-insert t x ys) ∙ ||-swap (eq_ℤ t y) (eq_ℤ t x) (mem t ys))
  ]
]

mem-sorted_set : (t : ℤ) (xs : List ℤ) → mem t (sorted_set xs) ≡ mem t xs
unfolding mem sorted_set
mem-sorted_set t [] = refl
mem-sorted_set t (x ∷ xs) = mem-insert t x (sorted_set xs) ∙ rw (mem-sorted_set t xs)

-- No issued ticket is beyond the largest, and none is negative.
mem-max_of :
    (t : ℤ) (xs : List ℤ)
    → any_negative xs ≡ false
    → mem t xs ≡ true
    → leb_ℤ t (pos (max_of xs)) ≡ true
unfolding mem max_of any_negative
mem-max_of t [] n h = cc
mem-max_of t (x ∷ xs) n h = elim (Bool-cases (eq_ℤ t x)) [
  | inl same ↦ ground (arith, same, n)
  | inr apart ↦
      let later : mem t xs ≡ true = rw apart at h in
      let others : any_negative xs ≡ false = ground (arith, n) in
      let deep = mem-max_of t xs others later in ground (arith, deep)
]

-- What the reconciliation of a list of issued tickets reports.
unfoldable pub Accounts : List ℤ → List ℤ → TicketReconciliation → Type 0
Accounts present issued r =
    (missing : List ℤ) × (blind : List ℤ) × (r.missing ≡ some missing)
    × (r.blind_spot_missing ≡ some blind)
    × ((t : ℤ) → (mem t missing || mem t blind) ≡ (mem t issued && not (mem t present)))
    × ((t : ℤ) → (mem t missing && mem t blind) ≡ false)
    × ((r.verdict ≡ broken) ↔ (missing ≢ []))

parted :
    (issued below inside absent : Bool)
    → (issued ≡ true → (below || inside) ≡ true)
    → (below && inside) ≡ false
    → (((issued && (below && absent)) || (issued && (inside && absent))) ≡ (issued && absent))
      × (((issued && (below && absent)) && (issued && (inside && absent))) ≡ false)
parted true below inside absent h d = ground (arith, h refl, d)
parted false below inside absent h d = (refl, refl)

broken_if_any_iff : (missing : List ℤ) → (broken_if_any missing ≡ broken) ↔ (missing ≢ [])
broken_if_any_iff [] = ((λ h. cc h), λ h. absurd (h refl))
broken_if_any_iff (x ∷ xs) = ((λ _ e. cc e), λ _. refl)

window_reaches :
    (issued : List ℤ) (lease_size : ℕ)
    → 1 ≤ lease_size
    → max_of issued ≤ window_lo issued lease_size + lease_size - 1
unfolding window_lo
window_reaches issued lease_size h = omega (
  arith,
  div-add-mod' (max_of issued) lease_size,
  mod-lt (max_of issued) {m = lease_size} (omega arith),
)

in_window :
    (t : ℤ) (top lo hi : ℕ)
    → top ≤ hi
    → leb_ℤ t (pos top) ≡ true
    → (ltb_ℤ t (pos lo) || (leb_ℤ (pos lo) t && leb_ℤ t (pos hi))) ≡ true
in_window t top lo hi h below = ground (arith, below)

apart : (t : ℤ) (lo hi : ℕ) → (ltb_ℤ t (pos lo) && (leb_ℤ (pos lo) t && leb_ℤ t (pos hi))) ≡ false
apart t lo hi = ground arith

-- The two tests that part the issued tickets, on the lists that they are kept from.
measured-Accounts :
    (present issued : List ℤ) (lease_size : ℕ)
    → 1 ≤ lease_size
    → any_negative issued ≡ false
    → Accounts present issued (measured_tickets present issued lease_size)
unfolding measured_tickets Accounts
measured-Accounts present [] lease_size h n =
    ([], [], refl, refl, (λ t. unfold mem in refl), (λ t. unfold mem in refl), broken_if_any_iff [])
measured-Accounts present (x ∷ xs) lease_size h n =
    let issued = x ∷ xs in
    let lo = window_lo issued lease_size in
    let hi = lo + lease_size - 1 in
    let below = λ (t : ℤ). ltb_ℤ t (pos lo) in
    let inside = λ (t : ℤ). leb_ℤ (pos lo) t && leb_ℤ t (pos hi) in
    let absent = λ (t : ℤ). not (mem t present) in
    let kept = λ (p : ℤ → Bool) (t : ℤ).
      mem-keep p t (sorted_set issued) ∙ ap (λ b. b && p t) (mem-sorted_set t issued) in
    let in_missing = kept (λ t. below t && absent t) in
    let in_blind = λ (t : ℤ).
      kept (λ t. leb_ℤ (pos lo) t && (leb_ℤ t (pos hi) && absent t)) t
      ∙ ap (λ b. mem t issued && b)
          (sym (&&-assoc (leb_ℤ (pos lo) t) (leb_ℤ t (pos hi)) (absent t))) in
    let both = λ (t : ℤ).
      parted (mem t issued) (below t) (inside t) (absent t)
        (λ there.
          in_window t (max_of issued) lo hi (window_reaches issued lease_size h)
            (mem-max_of t issued n there))
        (apart t lo hi) in
    (
      _,
      _,
      refl,
      refl,
      (λ t. ap₂ (λ a b. a || b) (in_missing t) (in_blind t) ∙ (both t).0),
      (λ t. ap₂ (λ a b. a && b) (in_missing t) (in_blind t) ∙ (both t).1),
      broken_if_any_iff _,
    )

-- A reconciliation against a list of issued tickets accounts for each of them: an issued ticket
-- that is not on the trail is reported as missing or in the blind spot, and never as both, no
-- other ticket is reported, and the verdict is broken exactly if a ticket is missing.
pub reconcile_tickets-Accounts :
    (present issued : List ℤ) (lease_size : ℕ)
    → 1 ≤ lease_size
    → any_negative issued ≡ false
    → (r : TicketReconciliation) × (reconcile_tickets present (some issued) (pos lease_size) ≡ ok r)
      × Accounts present issued r
unfolding reconcile_tickets reconcile_set
reconcile_tickets-Accounts present issued lease_size h n =
    let enough : ltb (lease_size + 0) (1 + 0) ≡ false = ground (arith, h) in
    (
      measured_tickets present issued lease_size,
      rw (enough, n),
      measured-Accounts present issued lease_size h n,
    )
