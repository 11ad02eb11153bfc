-- ===== src/Registry/CrossCheck.antt =====
-- `RegistryFinding` and `RegistryCrossCheck` of src/waxseal/domain/registry.py.
use mathlib.Core.Bool.{false≢true}
use waxseal.Base.{
  sym, true, List, ◌∷◌, Text, ◌↔◌, ◌≡◌, ◌>>=◌, ◌≢◌, some_inj, inr, false, text_eq_iff, ap, none,
  Option, Bytes, ok_inj, refl, some, >>=-eq-ok, if◌then◌else◌, text_eq, Result, Bool-cases, ok, inl,
  Bool, ◌⊎◌, subst, ◌∙◌,
}
use waxseal.Bytes.Hex.{hex}
use waxseal.Digest.{hexdigest, Hashes, CollisionIn, hexdigest_agree}
use waxseal.Fingerprint.{algorithm, fingerprint_for, descriptor_frame}
use waxseal.Fingerprint.Descriptor.{decode_descriptor-descriptor_frame, decode_descriptor}
use waxseal.Hashing.{encoding}
use waxseal.Registry.{knows, recomputable, VersionRegistry}
use waxseal.Verdict.{Verdict, intact, unverifiable, broken}

-- REGISTRY_AGREES, REGISTRY_DISAGREES, REGISTRY_ABSENT, REGISTRY_UNREACHABLE; the constructor
-- fields of `to_verdict`'s table `_REGISTRY_STATUS`
pub data RegistryStatus : Type 0 where
  agrees disagrees absent unreachable : RegistryStatus

-- REGISTRY_DISAGREEMENT, REGISTRY_NOT_REGISTERED, REGISTRY_COULD_NOT_BE_READ
pub data RegistryReason : Type 0 where
  disagreement not_registered could_not_be_read : RegistryReason

pub record RegistryFinding : Type 0 where
  pub fingerprint : Text
  pub status : RegistryStatus
  pub reason : Option RegistryReason
  pub locally_known : Bool
  pub locally_recomputable : Bool
  pub onchain_descriptor : Option (List Text)
  pub onchain_descriptor_hex : Option Text

-- `to_verdict`
unfoldable pub to_verdict : RegistryFinding → Verdict
to_verdict f = elim f.status [
  | agrees ↦ intact
  | disagrees ↦ unverifiable
  | absent ↦ unverifiable
  | unreachable ↦ unverifiable
]

module _ (hs : Hashes) where
  -- The three cases of `check` behind the two local flags.
  finding : Text → Bool → Bool → Bool → Option Bytes → RegistryFinding
  finding fp known recomputable false descriptor = record {
    fingerprint = fp;
    status = unreachable;
    reason = some could_not_be_read;
    locally_known = known;
    locally_recomputable = recomputable;
    onchain_descriptor = none;
    onchain_descriptor_hex = none;
  }
  finding fp known recomputable true none = record {
    fingerprint = fp;
    status = absent;
    reason = some not_registered;
    locally_known = known;
    locally_recomputable = recomputable;
    onchain_descriptor = none;
    onchain_descriptor_hex = none;
  }
  finding fp known recomputable true (some raw) =
      let same = text_eq (hexdigest hs raw) fp in
      record {
        fingerprint = fp;
        status = if same then agrees else disagrees;
        reason = if same then none else some disagreement;
        locally_known = known;
        locally_recomputable = recomputable;
        onchain_descriptor = decode_descriptor raw;
        onchain_descriptor_hex = some (hex raw);
      }

  unfoldable pub check : VersionRegistry → Text → Option Bytes → Bool → Result RegistryFinding
  unfolding finding
  check r fp descriptor reachable = do
    again ← recomputable r fp
    ok (finding fp (knows r fp) again reachable descriptor)

  -- The ledger was read, and the published descriptor hashes to the fingerprint.
  abbrev pub Published : Text → Bool → Option Bytes → Type 0
  Published fp reachable descriptor =
      (raw : Bytes) × (reachable ≡ true) × (descriptor ≡ some raw) × (hexdigest hs raw ≡ fp)

  finding_verdict :
      (fp : Text) (known recomputable reachable : Bool) (descriptor : Option Bytes)
      → let f = finding fp known recomputable reachable descriptor in
        (to_verdict f ≢ broken) × ((to_verdict f ≡ intact) ↔ Published fp reachable descriptor)
  unfolding finding to_verdict
  finding_verdict fp known recomputable false descriptor = (λ e. cc, (λ e. cc, λ e. cc (e.1)))
  finding_verdict fp known recomputable true none = (λ e. cc, (λ e. cc, λ e. cc (e.2)))
  finding_verdict fp known recomputable true (some raw) =
      elim (Bool-cases (text_eq (hexdigest hs raw) fp)) [
        | inl same ↦
            rw same (λ e. cc, (λ e. (raw, refl, refl, (text_eq_iff _ fp).0 same), λ e. refl))
        | inr differ ↦ rw differ (
          λ e. cc,
          (
            λ e. cc,
            λ e. absurd (
                false≢true
                  (sym differ ∙ (text_eq_iff _ fp).1 (ap (hexdigest hs) (some_inj e.2) ∙ e.3))),
          ),
        )
      ]

  -- A cross-check never reports a break, and it reports agreement only where the ledger was read and
  -- the published descriptor hashes to the fingerprint.
  pub check_verdict :
      (r : VersionRegistry) (fp : Text) (descriptor : Option Bytes) (reachable : Bool)
      {f : RegistryFinding}
      → check r fp descriptor reachable ≡ ok f
      → (to_verdict f ≢ broken) × ((to_verdict f ≡ intact) ↔ Published fp reachable descriptor)
  unfolding check
  check_verdict r fp descriptor reachable h =
      let (again, _, built) = >>=-eq-ok (recomputable r fp) _ h in
      subst Verdicts (ok_inj built) (finding_verdict fp (knows r fp) again reachable descriptor)
    where
      Verdicts : RegistryFinding → Type 0
      Verdicts f =
          (to_verdict f ≢ broken) × ((to_verdict f ≡ intact) ↔ Published fp reachable descriptor)

  -- Where the check of a schema's fingerprint agrees, the published descriptor names exactly that
  -- schema's algorithm, encoding and fields, or it differs from that schema's descriptor and has the same
  -- SHA-256 digest.
  pub check_agrees_names_schema :
      (r : VersionRegistry) (fs : List Text) {fp : Text} (descriptor : Option Bytes)
      (reachable : Bool) {f : RegistryFinding}
      → fingerprint_for hs fs ≡ ok fp
      → check r fp descriptor reachable ≡ ok f
      → to_verdict f ≡ intact
      → (f.onchain_descriptor ≡ some (algorithm ∷ encoding ∷ fs))
        ⊎ CollisionIn hs (λ m. (descriptor ≡ some m) ⊎ (descriptor_frame fs ≡ ok m))
  unfolding check fingerprint_for
  check_agrees_names_schema r fs {fp} descriptor reachable hf h v =
      let (again, _, built) = >>=-eq-ok (recomputable r fp) _ h in
      let (bytes, hb, digest) = >>=-eq-ok (descriptor_frame fs) _ hf in
      let v' = ap to_verdict (ok_inj built) ∙ v in
      let (raw, read, named, same) =
        (finding_verdict fp (knows r fp) again reachable descriptor).1.0 v' in
      elim (hexdigest_agree hs _ raw bytes (inl named) (inr hb) (same ∙ sym (ok_inj digest))) [
        | inr c ↦ inr c
        | inl equal ↦ inl (
            sym (ap (λ t. t.onchain_descriptor) (ok_inj built))
            ∙ ap (λ t. (finding fp (knows r fp) again t descriptor).onchain_descriptor) read
            ∙ ap (λ t. (finding fp (knows r fp) again true t).onchain_descriptor) named
            ∙ ap decode_descriptor equal
            ∙ decode_descriptor-descriptor_frame fs hb)
      ]
