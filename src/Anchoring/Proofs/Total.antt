-- ===== src/Anchoring/Proofs/Total.antt =====
-- What the verifiers of src/waxseal/domain/anchoring.py do on texts that are no proofs.
use waxseal.Base.{
  ok, ◌||◌, ap, raise, [], OnlyValueError, Text, ok-OnlyValueError, List, ◌∷◌, refl, ◌≡◌, false,
  true, Result, Bool, >>=-OnlyValueError, if◌then◌else◌,
}
use waxseal.Anchoring.{map_result}
use waxseal.Anchoring.Proofs.{verify_consistency, false_on_value_error, verify_membership}
use waxseal.Base.Int.{ltb_ℤ, ℤ, pos, leb_ℤ}
use waxseal.Bytes.Hex.{from_hex-OnlyValueError, from_hex}
use waxseal.Digest.{Hashes}

map_result-OnlyValueError :
    {A B : Type 0} (f : A → Result B) (xs : List A)
    → ((x : A) → OnlyValueError (f x))
    → OnlyValueError (map_result f xs)
unfolding map_result
map_result-OnlyValueError f [] h = ok-OnlyValueError _
map_result-OnlyValueError f (x ∷ xs) h = >>=-OnlyValueError (f x) _ (h x) (λ y.
    >>=-OnlyValueError (map_result f xs) _ (map_result-OnlyValueError f xs h)
      (λ ys. ok-OnlyValueError _))

answers : (r : Result Bool) → OnlyValueError r → (b : Bool) × (false_on_value_error r ≡ ok b)
unfolding false_on_value_error
answers (ok b) h = (b, refl)
answers (raise e) h = (false, ap (λ e. false_on_value_error (raise e)) (h e refl))

module _ (hs : Hashes) where
  -- Both verifiers answer true or false on every input, whatever its texts, indices and sizes:
  -- they never raise.
  pub verifiers_answer :
      (leaf old_root new_root : Text) (index size old_size new_size : ℤ) (proof : List Text)
      → ((b : Bool) × (verify_membership hs leaf index size proof new_root ≡ ok b))
        × ((b : Bool) × (verify_consistency hs old_root old_size new_root new_size proof ≡ ok b))
  unfolding verify_membership verify_consistency
  verifiers_answer leaf old_root new_root index size old_size new_size proof = (
    guarded (ltb_ℤ index (pos 0) || (ltb_ℤ size (pos 1) || leb_ℤ size index)) _ (
        answers _ (
          >>=-OnlyValueError (from_hex leaf) _ (from_hex-OnlyValueError leaf) (λ _.
            >>=-OnlyValueError (map_result from_hex proof) _
              (map_result-OnlyValueError from_hex proof from_hex-OnlyValueError)
              (λ _. ok-OnlyValueError _)))),
    guarded (ltb_ℤ old_size (pos 1) || ltb_ℤ new_size old_size) _ (
        answers _ (
          >>=-OnlyValueError (from_hex old_root) _ (from_hex-OnlyValueError old_root) (λ _.
            >>=-OnlyValueError (from_hex new_root) _ (from_hex-OnlyValueError new_root) (λ _.
              >>=-OnlyValueError (map_result from_hex proof) _
                (map_result-OnlyValueError from_hex proof from_hex-OnlyValueError)
                (λ _. ok-OnlyValueError _))))),
  )
    where
      guarded :
          (c : Bool) (rest : Result Bool)
          → (b : Bool) × (rest ≡ ok b)
          → (b : Bool) × ((if c then ok false else rest) ≡ ok b)
      guarded true rest h = (false, refl)
      guarded false rest h = h
