-- ===== src/Verify/Monotone.antt =====
-- `verify_chain` of src/waxseal/domain/verify.py under two registries, one of which has forgotten
-- fingerprints of the other, as a rollback of the program does.
use waxseal.Base.{
  inl, ◌∙◌, ok, ℕ, length-append, inr, arith, refl, none, length, ok_inj, ap, ◌≡◌, sym, suc, ◌≤◌,
  ◌+◌, List, Text, [], true, ◌∷◌, ◌⊎◌,
}
use waxseal.Digest.{Hashes}
use waxseal.Header.{genesis_prev_hash, Entry}
use waxseal.Registry.{encoder_for, VersionRegistry}
use waxseal.Verify.{verify_chain, passed, VerifyResult}
use waxseal.Verify.Intact.{
  known_count, verify_chain_ok_iff, known_rows, Intact, reproduced, unknown_seqs, unrecognised,
  RowPasses, unknown_seq,
}

-- Each fingerprint is either forgotten or resolved as before.
abbrev pub Forgets : VersionRegistry → VersionRegistry → Type 0
Forgets more fewer =
    (fp : Text) → (encoder_for fewer fp ≡ ok none) ⊎ (encoder_for fewer fp ≡ encoder_for more fp)

module _ (hs : Hashes) (more fewer : VersionRegistry) (forgets : Forgets more fewer) where
  RowPasses-forgets :
      (n : ℕ) (prev : Text) (e : Entry) → RowPasses hs more n prev e → RowPasses hs fewer n prev e
  RowPasses-forgets n prev e (unrecognised at linked found) = elim (forgets e.header.hash_version) [
    | inl gone ↦ unrecognised at linked gone
    | inr same ↦ unrecognised at linked (same ∙ found)
  ]
  RowPasses-forgets n prev e (reproduced encoder at linked found hash payload) =
      elim (forgets e.header.hash_version) [
        | inl gone ↦ unrecognised at linked gone
        | inr same ↦ reproduced encoder at linked (same ∙ found) hash payload
      ]

  Intact-forgets :
      (n : ℕ) (prev : Text) (es : List Entry) → Intact hs more n prev es → Intact hs fewer n prev es
  Intact-forgets n prev [] h = tt
  Intact-forgets n prev (e ∷ es) h =
      (RowPasses-forgets n prev e h.0, Intact-forgets (suc n) e.entry_hash es h.1)

  known_count-forgets :
      (fp : Text) → known_count hs (encoder_for fewer fp) ≤ known_count hs (encoder_for more fp)
  known_count-forgets fp = elim (forgets fp) [
    | inl gone ↦ rw gone (omega arith)
    | inr same ↦ rw same (omega arith)
  ]

  known_rows-forgets : (es : List Entry) → known_rows hs fewer es ≤ known_rows hs more es
  known_rows-forgets [] = omega arith
  known_rows-forgets (e ∷ es) =
      omega (arith, known_count-forgets e.header.hash_version, known_rows-forgets es)

module _ (hs : Hashes) (registry : VersionRegistry) where
  count_row :
      (n : ℕ) (prev : Text) (e : Entry)
      → RowPasses hs registry n prev e
      → known_count hs (encoder_for registry e.header.hash_version)
          + length (unknown_seq hs (encoder_for registry e.header.hash_version) e.header.seq)
        ≡ 1
  count_row n prev e (unrecognised at linked found) = rw found (omega arith)
  count_row n prev e (reproduced encoder at linked found hash payload) = rw found (omega arith)

  -- Every row that passes is either checked or reported as unverifiable.
  pub count_rows :
      (n : ℕ) (prev : Text) (es : List Entry)
      → Intact hs registry n prev es
      → known_rows hs registry es + length (unknown_seqs hs registry es) ≡ length es
  count_rows n prev [] h = omega arith
  count_rows n prev (e ∷ es) h = omega (
    arith,
    count_row n prev e h.0,
    count_rows (suc n) e.entry_hash es h.1,
    length-append (unknown_seq hs (encoder_for registry e.header.hash_version) e.header.seq)
        (unknown_seqs hs registry es),
  )

-- A chain that verifies under a registry also verifies under one that has forgotten some of its
-- fingerprints: no break appears, no more rows are checked, and each row is still accounted for, as
-- checked or as unverifiable.
pub verify_chain_monotone :
    (hs : Hashes) (more fewer : VersionRegistry) (es : List Entry) {r : VerifyResult}
    → Forgets more fewer
    → verify_chain hs more es ≡ ok r
    → r.is_ok ≡ true
    → (s : VerifyResult) × (verify_chain hs fewer es ≡ ok s)
      × (s.is_ok ≡ true)
      × (s.checked ≤ r.checked)
      × (s.checked + length s.unverifiable ≡ length es)
      × (r.checked + length r.unverifiable ≡ length es)
verify_chain_monotone hs more fewer es {r} forgets h good =
    let whole = (verify_chain_ok_iff hs more es).0 r h good in
    let kept = Intact-forgets hs more fewer forgets 0 genesis_prev_hash es whole in
    let result : passed (known_rows hs more es) (unknown_seqs hs more es) ≡ r =
      ok_inj (sym ((verify_chain_ok_iff hs more es).1 whole) ∙ h) in
    let checked = ap (λ (t : VerifyResult). t.checked) result in
    let unverified = ap (λ (t : VerifyResult). length t.unverifiable) result in
    (
      passed (known_rows hs fewer es) (unknown_seqs hs fewer es),
      (verify_chain_ok_iff hs fewer es).1 kept,
      refl,
      omega (arith, known_rows-forgets hs more fewer forgets es),
      count_rows hs fewer 0 genesis_prev_hash es kept,
      omega (arith, count_rows hs more 0 genesis_prev_hash es whole),
    )
