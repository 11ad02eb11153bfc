-- ===== src/Registry/Append.antt =====
-- The operations of src/waxseal/domain/registry.py that change a registry, and what they leave as
-- it was.
use mathlib.Core.Bool.{false≢true}
use waxseal.Base.{
  Option-cases, text_eq-eq-false, false, true, Bool, ◌∙◌, List, none, subst, ◌∷◌, ok_inj, some,
  if◌then◌else◌, inr, Text, some_inj, text_eq_iff, text_eq, ap₂, or_else, inl, >>=-eq-ok, ok,
  text_eq_refl, [], sym, Bool-cases, ap, refl, arith, text_eq_cases, ◌≡◌,
}
use waxseal.Base.Dict.{contains-eq-true, setdefault, lookup-setdefault, lookup}
use waxseal.Digest.{Hashes}
use waxseal.Fingerprint.{fingerprint_for, fingerprint}
use waxseal.Hashing.{header_frame, encoding}
use waxseal.Header.{header_fields}
use waxseal.Registry.{
  Reachable, encoder_for, has_header_fields, register, created, knows, encoders, fields_eq, fields,
  new_registry, VersionRegistry, Encoder, registered,
}

fields_eq_sound : (xs ys : List Text) → fields_eq xs ys ≡ true → xs ≡ ys
unfolding fields_eq
fields_eq_sound [] [] h = refl
fields_eq_sound [] (y ∷ ys) h = cc
fields_eq_sound (x ∷ xs) [] h = cc
fields_eq_sound (x ∷ xs) (y ∷ ys) h =
    ap₂ ◌∷◌ ((text_eq_iff x y).0 (ground arith)) (fields_eq_sound xs ys (ground arith))

-- What every registry satisfies: this build's own fingerprint has the fields and the encoding that
-- it writes, and no other fingerprint has those fields.
record IsOwn (own : Text) (r : VersionRegistry) : Type 0 where
  schema : lookup own r.schemas ≡ some header_fields
  name : lookup own r.encodings ≡ some encoding
  only : (fp : Text) → has_header_fields (lookup fp r.schemas) ≡ true → fp ≡ own

new_registry-IsOwn :
    (hs : Hashes) {r : VersionRegistry} (own : Text)
    → fingerprint hs ≡ ok own
    → new_registry hs ≡ ok r
    → IsOwn own r
unfolding new_registry lookup has_header_fields
new_registry-IsOwn hs own e h = subst (IsOwn own) (ok_inj (rw e at h)) (record {
  schema = rw (text_eq_refl own);
  name = rw (text_eq_refl own);
  only = λ k p. ground (arith, text_eq_iff own k);
})

only_own :
    (hs : Hashes) (fs : List Text) (r : VersionRegistry) (own f : Text)
    → fingerprint hs ≡ ok own
    → IsOwn own r
    → fingerprint_for hs fs ≡ ok f
    → (k : Text)
    → has_header_fields (or_else (lookup k r.schemas) (if text_eq f k then some fs else none))
      ≡ true
    → k ≡ own
unfolding has_header_fields fingerprint
only_own hs fs r own f e inv hf k p = elim (Option-cases (lookup k r.schemas)) [
  | inr (w, found) ↦ inv.only k (rw found (rw found at p))
  | inl absent ↦ elim (Bool-cases (text_eq f k)) [
    | inl same ↦
        let q : fields_eq fs header_fields ≡ true = rw (absent, same) at p in
        let this : fingerprint_for hs header_fields ≡ ok f =
          rw (← fields_eq_sound fs header_fields q) hf in
        sym ((text_eq_iff f k).0 same) ∙ ok_inj (sym this ∙ e)
    | inr differ ↦ absurd (false≢true (rw (absent, differ) at p))
  ]
]

register-IsOwn :
    (hs : Hashes) (fs : List Text) (r : VersionRegistry) {s : VersionRegistry} {fp : Text}
    (own : Text)
    → fingerprint hs ≡ ok own
    → IsOwn own r
    → register hs fs r ≡ ok (s, fp)
    → IsOwn own s
unfolding register has_header_fields
register-IsOwn hs fs r own e inv h =
    let (f, hf, built) = >>=-eq-ok (fingerprint_for hs fs) _ h in
    subst (IsOwn own) (ap (λ t. t.0) (ok_inj built)) (record {
      schema = rw (lookup-setdefault own f fs r.schemas, inv.schema);
      name = inv.name;
      only = λ k p. only_own hs fs r own f e inv hf k (rw lookup-setdefault at p);
    })

own_fields : fields_eq header_fields header_fields ≡ true
unfolding fields_eq text_eq
own_fields = refl

own_encoder : lookup encoding encoders ≡ some header_frame
unfolding lookup text_eq
own_encoder = refl

module _ (hs : Hashes) where
  -- Registering a schema keeps the meaning of every fingerprint that the registry knew.
  pub register_keeps :
      (fs : List Text) (r : VersionRegistry) {s : VersionRegistry} {fp : Text} (k : Text)
      → register hs fs r ≡ ok (s, fp)
      → knows r k ≡ true
      → (fields s k ≡ fields r k) × (encoder_for s k ≡ encoder_for r k)
  unfolding register knows fields encoder_for
  register_keeps fs r k h known =
      let (f, hf, built) = >>=-eq-ok (fingerprint_for hs fs) _ h in
      let (v, found) = contains-eq-true k r.schemas known in
      let grown : lookup k (setdefault f fs r.schemas) ≡ lookup k r.schemas =
        lookup-setdefault k f fs r.schemas ∙ rw found in
      subst (λ t. (fields t k ≡ fields r k) × (encoder_for t k ≡ encoder_for r k))
        (ap (λ t. t.0) (ok_inj built)) (rw grown, rw grown)

  Reachable-IsOwn :
      {r : VersionRegistry} (own : Text) → fingerprint hs ≡ ok own → Reachable hs r → IsOwn own r
  Reachable-IsOwn own e (created h) = new_registry-IsOwn hs own e h
  Reachable-IsOwn own e (registered {r = r} fs fp reach h) =
      register-IsOwn hs fs r own e (Reachable-IsOwn own e reach) h

  encoder_for-IsOwn :
      (r : VersionRegistry) (own fp : Text)
      → IsOwn own r
      → encoder_for r fp ≡ ok (if text_eq fp own then some header_frame else none)
  unfolding encoder_for
  encoder_for-IsOwn r own fp inv = elim (text_eq_cases fp own) [
    | inl same ↦ rw same (rw (inv.schema, inv.name, text_eq_refl own, own_fields, own_encoder))
    | inr differ ↦ elim (Bool-cases (has_header_fields (lookup fp r.schemas))) [
      | inl claims ↦ absurd (differ (inv.only fp claims))
      | inr other ↦ rw (other, text_eq-eq-false fp own differ)
    ]
  ]

  -- In every registry that can arise, a fingerprint is recomputed exactly if it is this build's own,
  -- with this build's frame, and the look-up never raises.
  pub encoder_for_exact :
      {r : VersionRegistry} (own fp : Text)
      → fingerprint hs ≡ ok own
      → Reachable hs r
      → encoder_for r fp ≡ ok (if text_eq fp own then some header_frame else none)
  encoder_for_exact {r} own fp e reach = encoder_for-IsOwn r own fp (Reachable-IsOwn own e reach)

  -- The fingerprint of the schema that this build writes, which making a registry computes.
  pub own_fingerprint :
      {r : VersionRegistry} → Reachable hs r → (own : Text) × (fingerprint hs ≡ ok own)
  unfolding new_registry
  own_fingerprint (created h) = let (own, e, _) = >>=-eq-ok (fingerprint hs) _ h in (own, e)
  own_fingerprint (registered fs fp reach h) = own_fingerprint reach

  -- No registry resolves a fingerprint to another frame than this build's.
  pub encoder_for-header_frame :
      {r : VersionRegistry} {encoder : Encoder} (fp : Text)
      → Reachable hs r
      → encoder_for r fp ≡ ok (some encoder)
      → encoder ≡ header_frame
  encoder_for-header_frame fp reach h =
      let (own, e) = own_fingerprint reach in
      only_frame (text_eq fp own) (sym h ∙ encoder_for_exact own fp e reach)
    where
      only_frame :
          (b : Bool) {f : Encoder}
          → ok (some f) ≡ ok (if b then some header_frame else none)
          → f ≡ header_frame
      only_frame true k = some_inj (ok_inj k)
      only_frame false k = cc
