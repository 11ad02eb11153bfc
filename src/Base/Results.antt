-- ===== src/Base/Results.antt =====
-- Python's exceptions as values: a fallible function returns a `Result`, by the class raised.
use mathlib.Core.Path.{◌≡◌, refl}
use mathlib.Core.Bool.{Bool, true, false}
use mathlib.Core.Logic.{◌⊎◌, inl, inr}

pub data Exception : Type 0 where
  lp_encoding_error unicode_encode_error struct_error value_error : Exception
  type_error key_error index_error runtime_error : Exception

pub data Result {ℓ} (A : Type ℓ) : Type ℓ where
  ok : A → Result A
  raise : Exception → Result A

-- `if c: raise e`
abbrev pub raise_if : Bool → Exception → Result (Unit {0})
raise_if true e = raise e
raise_if false e = ok tt

module _ {ℓ} {A : Type ℓ} where
  -- The value of a call that returned.
  pub ok_inj : {a b : A} → ok a ≡ ok b → a ≡ b
  ok_inj h = cc

  pub ok-ne-raise : {a : A} {e : Exception} → raise e ≡ ok a → ⊥
  ok-ne-raise h = cc

  pub Result-cases : (r : Result A) → ((a : A) × (r ≡ ok a)) ⊎ ((e : Exception) × (r ≡ raise e))
  Result-cases (raise e) = inr (e, refl)
  Result-cases (ok a) = inl (a, refl)

module _ {ℓ κ} {A : Type ℓ} {B : Type κ} where
  infixl 5 ◌>>=◌
  abbrev pub ◌>>=◌ : Result A → (A → Result B) → Result B
  raise e >>= next = raise e
  ok value >>= next = next value

  -- A block that returned got a value from its first step.
  pub >>=-eq-ok :
      (m : Result A) (next : A → Result B) {b : B}
      → (m >>= next) ≡ ok b
      → (a : A) × (m ≡ ok a) × (next a ≡ ok b)
  >>=-eq-ok (raise e) next h = cc
  >>=-eq-ok (ok value) next h = (value, refl, h)

infixl 5 ◌>>◌
abbrev pub ◌>>◌ {ℓ} : {B : Type ℓ} → Result (Unit {0}) → Result B → Result B
first >> second = first >>= λ _. second

-- A call that raises nothing but `ValueError`.
abbrev pub OnlyValueError {ℓ} : {A : Type ℓ} → Result A → Type ℓ
OnlyValueError r = (e : Exception) → r ≡ raise e → e ≡ value_error

pub >>=-OnlyValueError {ℓ κ} :
    {A : Type ℓ} {B : Type κ} (m : Result A) (next : A → Result B)
    → OnlyValueError m
    → ((a : A) → OnlyValueError (next a))
    → OnlyValueError (m >>= next)
>>=-OnlyValueError (raise x) next hm hn e h = hm e (cc h)
>>=-OnlyValueError (ok a) next hm hn e h = hn a e h

pub ok-OnlyValueError {ℓ} : {A : Type ℓ} (a : A) → OnlyValueError (ok a)
ok-OnlyValueError a e h = cc

pub raise-OnlyValueError {ℓ} : (A : Type ℓ) → OnlyValueError {A = A} (raise value_error)
raise-OnlyValueError A e h = cc

pub raise_if-OnlyValueError : (c : Bool) → OnlyValueError (raise_if c value_error)
raise_if-OnlyValueError true = raise-OnlyValueError _
raise_if-OnlyValueError false = ok-OnlyValueError tt
