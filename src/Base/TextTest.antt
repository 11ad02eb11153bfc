-- ===== src/Base/TextTest.antt =====
-- Texts and byte strings, both as lists of numbers: a `str` is the list of its code points, a
-- `bytes` the list of its bytes. `text_eq` is Python's `==` on either.
use Prim.Native.Nat.{ℕ, ◌<◌}
use Prim.Native.Char.{code}
use Prim.Native.String.{String}
use mathlib.Core.Path.{◌≡◌, refl, ap₂}
use mathlib.Core.Logic.{◌↔◌, ◌⊎◌, inl, inr, ◌≢◌}
use mathlib.Core.Bool.{Bool, true, false, ◌&&◌}
use mathlib.Core.List.{List, [], ◌∷◌}
use native.Mathlib.Omega.{arith}
use waxseal.Base.Tests.{◌==◌, ==_iff, Bool-cases}
use waxseal.Base.Lists.{All}

abbrev pub Text : Type 0
Text = List ℕ

abbrev pub Bytes : Type 0
Bytes = List ℕ

abbrev pub IsBytes : Bytes → Type 0
IsBytes = All (λ b. b < 256)

abbrev pub codes : String → Text
codes String.[] = []
codes (String.◌∷◌ c s) = code c ∷ codes s

unfoldable pub text_eq : Text → Text → Bool
text_eq [] [] = true
text_eq [] (y ∷ ys) = false
text_eq (x ∷ xs) [] = false
text_eq (x ∷ xs) (y ∷ ys) = (x == y) && text_eq xs ys

pub text_eq_refl : (s : Text) → text_eq s s ≡ true
unfolding text_eq
text_eq_refl [] = refl
text_eq_refl (x ∷ xs) = ground (arith, text_eq_refl xs)

text_eq_sound : (s t : Text) → text_eq s t ≡ true → s ≡ t
unfolding text_eq
text_eq_sound [] [] h = refl
text_eq_sound [] (y ∷ ys) h = cc
text_eq_sound (x ∷ xs) [] h = cc
text_eq_sound (x ∷ xs) (y ∷ ys) h =
    ap₂ ◌∷◌ ((==_iff x y).0 (ground arith)) (text_eq_sound xs ys (ground arith))

pub text_eq_iff : (s t : Text) → (text_eq s t ≡ true) ↔ (s ≡ t)
text_eq_iff s t = (text_eq_sound s t, λ e. rw e (text_eq_refl t))

pub text_eq_cases : (s t : Text) → (s ≡ t) ⊎ (s ≢ t)
text_eq_cases s t = elim (Bool-cases (text_eq s t)) [
  | inl same ↦ inl (text_eq_sound s t same)
  | inr differ ↦ inr (λ e. cc (differ, (text_eq_iff s t).1 e))
]

pub text_eq-eq-false : (s t : Text) → s ≢ t → text_eq s t ≡ false
text_eq-eq-false s t differ = elim (Bool-cases (text_eq s t)) [
  | inl same ↦ absurd (differ (text_eq_sound s t same))
  | inr e ↦ e
]
