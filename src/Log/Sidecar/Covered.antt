-- ===== src/Log/Sidecar/Covered.antt =====
-- What a pass of `verify_sidecar` in src/waxseal/log/_attestation.py says of the trail, with the
-- initial key and on a trail that `verify_chain` has passed.
use waxseal.Base.{
  some, arith, type_error, ap, ◌∷◌, length, if◌then◌else◌, map, false, raise, ◌⊎◌, Option, Result,
  Bool-cases, ◌+◌, not, text_eq_iff, inr, none, unicode_encode_error, refl, Text, [], ltb, text_eq,
  ok, ok_inj, Bytes, Bool, ◌≡◌, sym, ◌≤◌, ◌∙◌, inl, ℕ, suc, >>=-eq-ok, key_error, length-map, List,
  lp_encoding_error, ap₂, value_error, true,
}
use waxseal.Base.Int.{ℤ}
use waxseal.Digest.{Hashes}
use waxseal.Header.{genesis_prev_hash, Entry}
use waxseal.Log.{entry_hashes}
use waxseal.Log.Sidecar.{
  gate_of, SidecarReason, Attestor, aggregate_found, aggregate_gate, trail_mismatch, check_values,
  expected_hash, verify_sidecar, check_sidecar, SidecarResult, caught, refusal, after_mismatch,
  after_continuity, of_seals, continuity_of,
}
use waxseal.Registry.{VersionRegistry}
use waxseal.Sealing.{AttestResult, verify_seals, Attestation}
use waxseal.Sealing.Aggregate.{any_agg, verify_aggregate, AggReason}
use waxseal.Sealing.Walk.{verify_seals-AllGenuine, AllGenuine}
use waxseal.Verify.{verify_chain, VerifyResult}
use waxseal.Verify.Intact.{verify_chain_ok_iff, RowPasses, Intact, reproduced, unrecognised}

pub caught-some : {A : Type 0} (r : Result A) {a : A} → caught r ≡ ok (some a) → r ≡ ok a
unfolding caught
caught-some (raise value_error) h = cc
caught-some (raise lp_encoding_error) h = cc
caught-some (raise unicode_encode_error) h = cc
caught-some (raise key_error) h = cc
caught-some (raise type_error) h = cc
caught-some (raise _) h = cc
caught-some (ok a) h = cc

-- A check of continuity that has found nothing was asked, if there is one, and answered so.
continuity_none :
    {key : Bytes} {n : ℕ} (present : Option (Bytes → ℕ → Result (Option Text)))
    → continuity_of (some key) present n ≡ ok (some none)
    → (check : Bytes → ℕ → Result (Option Text)) → present ≡ some check
    → check key n ≡ ok none
unfolding continuity_of
continuity_none {key} {n} present found check at = caught-some (check key n) (rw at at found)

-- A refusal does not pass.
refusal-passes :
    (reason : SidecarReason) (seq : Option ℤ) (n : ℕ) (zs : List ℤ) {r : SidecarResult}
    → ok (refusal reason seq n zs) ≡ ok r
    → r.passes ≡ true
    → ⊥
refusal-passes reason seq n zs h good =
    let differ : false ≡ true = ap (λ (r : SidecarResult). r.passes) (ok_inj h) ∙ good in cc

hashes_of : List Attestation → List Text
hashes_of atts = map (λ (att : Attestation). att.entry_hash) atts

after_mismatch-ok :
    (m : Option ℤ) (atts : List Attestation) (entries : List Entry) (rest : Result SidecarResult)
    {r : SidecarResult}
    → after_mismatch m atts entries rest ≡ ok r
    → r.passes ≡ true
    → (m ≡ none) × (length entries ≤ length atts) × (rest ≡ ok r)
unfolding after_mismatch
after_mismatch-ok (some seq) atts entries rest h good = absurd (refusal-passes _ _ _ _ h good)
after_mismatch-ok none atts entries rest h good =
    elim (Bool-cases (ltb (length atts) (length entries))) [
      | inl gap ↦ absurd (refusal-passes _ _ _ _ (rw gap at h) good)
      | inr whole ↦ (refl, ground (arith, whole), rw whole at h)
    ]

after_continuity-ok :
    (o : Option (Option Text)) (rest : Result SidecarResult) {r : SidecarResult}
    → after_continuity o rest ≡ ok r
    → r.passes ≡ true
    → (o ≡ some none) × (rest ≡ ok r)
unfolding after_continuity
after_continuity-ok none rest h good = absurd (refusal-passes _ _ _ _ h good)
after_continuity-ok (some (some reason)) rest h good = absurd (refusal-passes _ _ _ _ h good)
after_continuity-ok (some none) rest h good = (refl, h)

module _ (hs : Hashes) (registry : VersionRegistry) where
  -- A row that passes is expected to have the hash that it stores.
  expected_hash-RowPasses :
      (n : ℕ) (prev : Text) (e : Entry)
      → RowPasses hs registry n prev e
      → expected_hash hs registry e ≡ ok e.entry_hash
  unfolding expected_hash
  expected_hash-RowPasses n prev e (unrecognised at linked found) = rw found refl
  expected_hash-RowPasses n prev e (reproduced encoder at linked found hash payload) =
      rw (found, hash) refl

  trail_mismatch-none :
      (n : ℕ) (prev : Text) (atts : List Attestation) (es : List Entry)
      → Intact hs registry n prev es
      → length es ≤ length atts
      → trail_mismatch hs registry atts es ≡ ok none
      → hashes_of atts ≡ entry_hashes es
  unfolding trail_mismatch entry_hashes hashes_of
  trail_mismatch-none n prev [] [] whole l h = refl
  trail_mismatch-none n prev [] (e ∷ es) whole l h = absurd (omega (arith, l))
  trail_mismatch-none n prev (att ∷ atts) [] whole l h = cc
  trail_mismatch-none n prev (att ∷ atts) (e ∷ es) (row, whole) l h =
      let expected = expected_hash-RowPasses n prev e row in
      elim (Bool-cases (text_eq att.entry_hash e.entry_hash)) [
        | inr differ ↦ cc (rw (expected, differ) at h)
        | inl same ↦
            ap₂ (λ x xs. x ∷ xs) ((text_eq_iff att.entry_hash e.entry_hash).0 same)
              (trail_mismatch-none (suc n) e.entry_hash atts es whole (omega (arith, l))
                (rw (expected, same) at h))
      ]

  aggregate_gate-ok :
      (atts : List Attestation) (key : Bytes) (s : AttestResult)
      (read : Option (Result (Option (ℤ × ℤ × Text)))) {r : SidecarResult}
      → aggregate_gate hs atts key s read ≡ ok r
      → r.passes ≡ true
      → of_seals s ≡ r
  unfolding aggregate_gate gate_of aggregate_found
  aggregate_gate-ok atts key s none h good = ok_inj h
  aggregate_gate-ok atts key s (some read) {r} h good =
      let (found, _, h1) = >>=-eq-ok (caught read) _ h in go found h1
    where
      judged : (o : Option AggReason) → ok (aggregate_found s o) ≡ ok r → of_seals s ≡ r
      judged none e = ok_inj e
      judged (some reason) e = absurd (refusal-passes _ _ _ _ e good)

      go : (o : Option (Option (ℤ × ℤ × Text))) → gate_of hs atts key s o ≡ ok r → of_seals s ≡ r
      go none e = absurd (refusal-passes _ _ _ _ e good)
      go (some none) e = elim (Bool-cases (any_agg atts)) [
        | inl needed ↦ absurd (refusal-passes _ _ _ _ (rw needed at e) good)
        | inr free ↦ ok_inj (rw free at e)
      ]
      go (some (some (agg_start, epoch, agg))) e =
          let (o, _, e1) = >>=-eq-ok (verify_aggregate hs atts key agg_start epoch agg) _ e in
          judged o e1

  check_values-ok :
      (atts : List Attestation) (attestor : Attestor) (key : Bytes) {r : SidecarResult}
      → check_values hs atts attestor (some key) none ≡ ok r
      → r.passes ≡ true
      → (s : AttestResult) × (verify_seals hs atts key ≡ ok s) × (of_seals s ≡ r)
  unfolding check_values
  check_values-ok atts attestor key {r} h good =
      let (s, seals, h1) = >>=-eq-ok (verify_seals hs atts key) _ h in
      elim (either s.is_ok _ _ h1) [
        | inl early ↦ (s, seals, ok_inj early)
        | inr late ↦ (s, seals, aggregate_gate-ok atts key s attestor.read_aggregate late good)
      ]
    where
      either :
          (b : Bool) (x y : Result SidecarResult)
          → (if not b then x else y) ≡ ok r
          → (x ≡ ok r) ⊎ (y ≡ ok r)
      either true x y e = inr e
      either false x y e = inl e

  -- Where `verify_chain` and, with the initial key, `verify_sidecar` both pass: the attestations are
  -- one for each entry, in order and with the hash that the entry stores; each one of the
  -- program's schemes is the code of its hash under the key of its epoch; the check of continuity,
  -- where there is one, has found nothing; and each entry is counted as checked or listed as
  -- unverifiable.
  pub verify_sidecar-verify_chain :
      (entries : List Entry) (attestor : Attestor) (key : Bytes) {c : VerifyResult}
      {r : SidecarResult}
      → verify_chain hs registry entries ≡ ok c
      → c.is_ok ≡ true
      → verify_sidecar hs attestor entries registry (some key) none ≡ ok r
      → r.passes ≡ true
      → (atts : List Attestation) × (attestor.attestations ≡ ok atts)
        × (map (λ (att : Attestation). att.entry_hash) atts ≡ entry_hashes entries)
        × AllGenuine hs 0 key atts
        × ((check : Bytes → ℕ → Result (Option Text))
            → attestor.check_continuity ≡ some check
            → check key (length atts) ≡ ok none)
        × (r.checked + length r.unverifiable ≡ length entries)
  unfolding verify_sidecar check_sidecar hashes_of of_seals entry_hashes
  verify_sidecar-verify_chain entries attestor key {r = r} chain whole h good =
      let (read, found, h1) = >>=-eq-ok (caught attestor.attestations) _ h in go read found h1
    where
      go :
          (read : Option (List Attestation))
          → caught attestor.attestations ≡ ok read
          → check_sidecar hs read attestor entries registry (some key) none ≡ ok r
          → (atts : List Attestation) × (attestor.attestations ≡ ok atts)
            × (map (λ (att : Attestation). att.entry_hash) atts ≡ entry_hashes entries)
            × AllGenuine hs 0 key atts
            × ((check : Bytes → ℕ → Result (Option Text))
                → attestor.check_continuity ≡ some check
                → check key (length atts) ≡ ok none)
            × (r.checked + length r.unverifiable ≡ length entries)
      go none found h = absurd (refusal-passes _ _ _ _ h good)
      go (some atts) found h =
          let (m, looked, h1) = >>=-eq-ok (trail_mismatch hs registry atts entries) _ h in
          let (nothing, sizes, h2) = after_mismatch-ok m atts entries _ h1 good in
          let (o, asked, h3) =
            >>=-eq-ok (continuity_of (some key) attestor.check_continuity (length atts)) _ h2 in
          let (quiet, h4) = after_continuity-ok o _ h3 good in
          let (s, seals, same) = check_values-ok atts attestor key h4 good in
          let (t, sealed_t, genuine, counts) = verify_seals-AllGenuine hs atts key in
          let one : t ≡ s = ok_inj (sym sealed_t ∙ seals) in
          let fine : t.is_ok ≡ true =
            ap (λ (a : AttestResult). a.is_ok) one
            ∙ ap (λ (b : SidecarResult). b.passes) same
            ∙ good in
          let total : r.checked + length r.unverifiable ≡ t.checked + length t.unverifiable =
            ap (λ (b : SidecarResult). b.checked + length b.unverifiable) (sym same)
            ∙ ap (λ (a : AttestResult). a.checked + length a.unverifiable) (sym one) in
          let hashes =
            trail_mismatch-none 0 genesis_prev_hash atts entries
              ((verify_chain_ok_iff hs registry entries).0 _ chain whole) sizes
              (looked ∙ ap ok nothing) in
          let sizes_eq : length atts ≡ length entries =
            sym (length-map (λ (att : Attestation). att.entry_hash) atts)
            ∙ ap length hashes
            ∙ length-map (λ (e : Entry). e.entry_hash) entries in
          (
            atts,
            caught-some attestor.attestations found,
            hashes,
            genuine.0 fine,
            (λ check at. continuity_none attestor.check_continuity (asked ∙ ap ok quiet) check at),
            total ∙ counts fine ∙ sizes_eq,
          )
