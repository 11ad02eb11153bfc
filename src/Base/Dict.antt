-- ===== src/Base/Dict.antt =====
-- A Python `dict` with text keys, in insertion order.
use mathlib.Core.Bool.{false≢true}
use waxseal.Base.{
  Option-cases, some, Text, none, arith, Bool, text_eq_iff, ◌∷◌, inl, ◌∙◌, if◌then◌else◌, text_eq,
  ap, is_some, true, or_else, Option, inr, List, Bool-cases, [], ◌≡◌, ◌++◌, sym, text_eq_cases,
  refl,
}

abbrev pub Dict {ℓ} : Type ℓ → Type ℓ
Dict V = List (Text × V)

module _ {ℓ} {V : Type ℓ} where
  -- `d.get(k)`
  unfoldable pub lookup : Text → Dict V → Option V
  lookup k [] = none
  lookup k ((j, v) ∷ d) = if text_eq j k then some v else lookup k d

  -- `k in d`
  unfoldable pub contains : Text → Dict V → Bool
  unfolding lookup
  contains k d = is_some (lookup k d)

  -- `d.setdefault(k, v)`
  unfoldable pub setdefault : Text → V → Dict V → Dict V
  unfolding contains
  setdefault k v d = if contains k d then d else d ++ (k, v) ∷ []

  lookup-snoc :
      (j k : Text) (v : V) (d : Dict V)
      → lookup j (d ++ (k, v) ∷ []) ≡ or_else (lookup j d) (if text_eq k j then some v else none)
  unfolding lookup
  lookup-snoc j k v [] = refl
  lookup-snoc j k v ((i, w) ∷ d) = elim (Bool-cases (text_eq i j)) [
    | inl here ↦ rw here
    | inr there ↦ rw (there, lookup-snoc j k v d)
  ]

  kept :
      (j k : Text) (v w : V) (d : Dict V)
      → lookup k d ≡ some w
      → lookup j d ≡ or_else (lookup j d) (if text_eq k j then some v else none)
  kept j k v w d present = elim (text_eq_cases k j) [
    | inl same ↦ rw (ap (λ t. lookup t d) (sym same) ∙ present)
    | inr differ ↦ ground (arith, text_eq_iff k j)
  ]

  -- A key that is there keeps its value; a new key gets the default.
  pub lookup-setdefault :
      (j k : Text) (v : V) (d : Dict V)
      → lookup j (setdefault k v d) ≡ or_else (lookup j d) (if text_eq k j then some v else none)
  unfolding setdefault
  lookup-setdefault j k v d = elim (Option-cases (lookup k d)) [
    | inl absent ↦ rw (absent, lookup-snoc j k v d)
    | inr (w, present) ↦ rw present (kept j k v w d present)
  ]

  pub contains-eq-true :
      (k : Text) (d : Dict V) → contains k d ≡ true → (v : V) × (lookup k d ≡ some v)
  unfolding contains
  contains-eq-true k d h = elim (Option-cases (lookup k d)) [
    | inl absent ↦ absurd (false≢true (rw absent at h))
    | inr found ↦ found
  ]
