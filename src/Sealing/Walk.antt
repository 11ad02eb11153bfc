-- ===== src/Sealing/Walk.antt =====
-- `verify_seals` of src/waxseal/domain/sealing.py against the seals that the keys of the epochs
-- give.
use waxseal.Base.{
  [], ◌++◌, ◌≡◌, text_eq, inl, Result-cases, inr, true, ◌∙◌, ◌⊎◌, sym, suc, ℕ, List, Bytes, ok_inj,
  ◌+◌, subst, Text, refl, Result, arith, ◌>>=◌, length, ◌∷◌, ◌↔◌, Bool-cases, ok, length-append,
  text_eq_iff,
}
use waxseal.Base.Int.{pos, eq_ℤ_iff, ℤ, eq_ℤ}
use waxseal.Bytes.Ascii.{is_ascii, encode_ascii-raise, encode_ascii, compare_digest, is_ascii-hex}
use waxseal.Bytes.Hex.{hex}
use waxseal.Digest.{Hashes}
use waxseal.Sealing.{
  seal_walk, seal_frame_prefix, verify_seals, malformed_attestation, seal_entry, AttestResult,
  check_seal, seal_outcome, evolve_key, foreign, Attestation, seal_sequence_mismatch, after_seal,
  Seal, has_fs_scheme, SealReason, rejected, sealed, seal_mismatch,
}

module _ (hs : Hashes) where
  -- A seal that its epoch's key gives: both texts are ASCII, and the value is the code of the
  -- entry hash under the key.
  unfoldable pub Genuine : Bytes → Attestation → Type 0
  Genuine key att =
      (expected : Text) × (seal_entry hs key att.entry_hash ≡ ok expected)
      × (is_ascii att.value ≡ true)
      × (expected ≡ att.value)

  -- From `position` on, with the key of that position: each attestation stands at its own
  -- sequence number, and is genuine if it has a scheme of this program.
  unfoldable pub AllGenuine : ℕ → Bytes → List Attestation → Type 0
  unfolding Genuine
  AllGenuine position key [] = Unit
  AllGenuine position key (att ∷ atts) =
      (att.seq ≡ pos position)
      × ((has_fs_scheme att ≡ true) → Genuine key att)
      × AllGenuine (suc position) (evolve_key hs key) atts

  -- What the comparison of a seal ends with.
  seal_attempt :
      (key : Bytes) (att : Attestation)
      → ((Genuine key att)
          × (seal_outcome
                (seal_entry hs key att.entry_hash >>= λ expected. compare_digest expected att.value)
              ≡ ok sealed))
        ⊎ ((reason : SealReason) × (¬ Genuine key att)
            × (seal_outcome (
                  seal_entry hs key att.entry_hash >>= λ expected.
                  compare_digest expected att.value)
                ≡ ok (rejected reason)))
  unfolding Genuine seal_entry
  seal_attempt key att = elim (Result-cases (encode_ascii att.entry_hash)) [
    | inr (e, he) ↦
        let only = encode_ascii-raise att.entry_hash he in
        inr (
          malformed_attestation,
          (λ (expected, computed, _, _). cc (rw he at computed)),
          (unfold seal_outcome in rw (he, only)),
        )
    | inl (message, hm) ↦
        let mac = hs.hmac_sha256 key (seal_frame_prefix ++ message) in
        let ascii = is_ascii-hex mac (hs.hmac-IsBytes key _) in
        elim (Bool-cases (is_ascii att.value)) [
          | inr odd ↦ inr (
            malformed_attestation,
            (λ (expected, _, fine, _). cc (odd, fine)),
            (unfold seal_outcome in unfold compare_digest in rw (hm, ascii, odd)),
          )
          | inl fine ↦ elim (Bool-cases (text_eq (hex mac) att.value)) [
            | inl same ↦ inl (
              (hex mac, rw hm, fine, (text_eq_iff (hex mac) att.value).0 same),
              (unfold seal_outcome in unfold compare_digest in rw (hm, ascii, fine, same)),
            )
            | inr other ↦ inr (
              seal_mismatch,
              (λ (expected, computed, _, same).
                  let e : hex mac ≡ expected = ok_inj (rw hm at computed) in
                  cc (other, (text_eq_iff (hex mac) att.value).1 (e ∙ same))),
              (unfold seal_outcome in unfold compare_digest in rw (hm, ascii, fine, other)),
            )
          ]
        ]
  ]

  -- A pass from the start of the rest of the list, with what it reports on top of its arguments.
  abbrev WalkSpec : ℕ → Bytes → ℕ → List ℤ → List Attestation → Result AttestResult → Type 0
  WalkSpec n key checked unverifiable atts answer =
      (r : AttestResult) × (answer ≡ ok r)
      × ((r.is_ok ≡ true) ↔ AllGenuine n key atts)
      × ((r.is_ok ≡ true)
          → r.checked + length r.unverifiable ≡ checked + length unverifiable + length atts)

  -- What the body of the loop finds at position `n`.
  data Finding (n : ℕ) (key : Bytes) (att : Attestation) : Type 0 where
    bad :
        (reason : SealReason)
        → check_seal hs n key att ≡ ok (rejected reason)
        → ¬ ((att.seq ≡ pos n) × ((has_fs_scheme att ≡ true) → Genuine key att))
        → Finding n key att
    other_scheme :
        check_seal hs n key att ≡ ok foreign
        → att.seq ≡ pos n
        → ((has_fs_scheme att ≡ true) → Genuine key att)
        → Finding n key att
    good :
        check_seal hs n key att ≡ ok sealed
        → att.seq ≡ pos n
        → ((has_fs_scheme att ≡ true) → Genuine key att)
        → Finding n key att

  check_seal-Finding : (n : ℕ) (key : Bytes) (att : Attestation) → Finding n key att
  unfolding check_seal
  check_seal-Finding n key att = elim (Bool-cases (eq_ℤ att.seq (pos n))) [
    | inr gap ↦
        bad seal_sequence_mismatch (rw gap)
          (λ (place, _). cc (gap, (eq_ℤ_iff att.seq (pos n)).1 place))
    | inl here ↦
        let place = (eq_ℤ_iff att.seq (pos n)).0 here in
        elim (Bool-cases (has_fs_scheme att)) [
          | inr other ↦ other_scheme (rw (here, other)) place (λ h. cc (h, other))
          | inl own ↦ elim (seal_attempt key att) [
            | inl (genuine, e) ↦ good (rw (here, own, e)) place (λ h. genuine)
            | inr (reason, forged, e) ↦
                bad reason (rw (here, own, e)) (λ (_, genuine). forged (genuine own))
          ]
        ]
  ]

  stopped :
      (n : ℕ) (key : Bytes) (checked : ℕ) (unverifiable : List ℤ) (att : Attestation)
      (atts : List Attestation) (reason : SealReason) (rest : ℕ → List ℤ → Result AttestResult)
      → ¬ ((att.seq ≡ pos n) × ((has_fs_scheme att ≡ true) → Genuine key att))
      → WalkSpec n key checked unverifiable
          (att ∷ atts)
          (after_seal (rejected reason) att.seq checked unverifiable rest)
  unfolding after_seal AllGenuine
  stopped n key checked unverifiable att atts reason rest forged =
      (_, refl, ((λ h. cc h), λ (place, genuine, _). absurd (forged (place, genuine))), λ h. cc h)

  continued :
      (n : ℕ) (key : Bytes) (checked checked' : ℕ) (unverifiable unverifiable' : List ℤ)
      (att : Attestation) (atts : List Attestation) {answer : Result AttestResult}
      → att.seq ≡ pos n
      → ((has_fs_scheme att ≡ true) → Genuine key att)
      → checked' + length unverifiable' ≡ suc (checked + length unverifiable)
      → WalkSpec (suc n) (evolve_key hs key) checked' unverifiable' atts answer
      → WalkSpec n key checked unverifiable (att ∷ atts) answer
  unfolding AllGenuine
  continued n key checked checked' unverifiable unverifiable' att atts place genuine counts
        (r, he, hall, hcount) =
      (
        r,
        he,
        ((λ h. (place, genuine, hall.0 h)), λ (_, _, others). hall.1 others),
        λ h. omega (arith, hcount h, counts),
      )

  seal_walk-AllGenuine :
      (n : ℕ) (key : Bytes) (checked : ℕ) (unverifiable : List ℤ) (atts : List Attestation)
      → WalkSpec n key checked unverifiable atts (seal_walk hs n key checked unverifiable atts)
  unfolding after_seal
  seal_walk-AllGenuine n key checked unverifiable [] =
      unfold seal_walk in unfold AllGenuine in (_, refl, ((λ h. tt), λ h. refl), λ h. omega arith)
  seal_walk-AllGenuine n key checked unverifiable (att ∷ atts) =
      let others = λ (c : ℕ) (u : List ℤ). seal_walk hs (suc n) (evolve_key hs key) c u atts in
      let Spec = WalkSpec n key checked unverifiable (att ∷ atts) in
      let body : (seal : Seal)
          → check_seal hs n key att ≡ ok seal
          → seal_walk hs n key checked unverifiable (att ∷ atts)
            ≡ after_seal seal att.seq checked unverifiable others =
        λ seal e. unfold seal_walk in rw e in
      elim (check_seal-Finding n key att) [
        | bad reason e forged ↦
            subst Spec (sym (body _ e))
              (stopped n key checked unverifiable att atts reason others forged)
        | other_scheme e place genuine ↦ subst Spec (sym (body _ e)) (
            continued n key checked checked unverifiable _ att atts place genuine
              (omega (arith, length-append unverifiable (att.seq ∷ [])))
              (seal_walk-AllGenuine (suc n) (evolve_key hs key) checked
                (unverifiable ++ att.seq ∷ []) atts))
        | good e place genuine ↦ subst Spec (sym (body _ e)) (
            continued n key checked (checked + 1) unverifiable _ att atts place genuine
              (omega arith)
              (seal_walk-AllGenuine (suc n) (evolve_key hs key) (checked + 1) unverifiable atts))
      ]

  -- `verify_seals` always returns, and it answers ok exactly where each attestation stands at its
  -- own position and each one of this program's schemes is the code of its entry hash under the
  -- key of its epoch; each attestation is then counted as checked or listed as unverifiable.
  pub verify_seals-AllGenuine :
      (atts : List Attestation) (initial_key : Bytes)
      → (r : AttestResult) × (verify_seals hs atts initial_key ≡ ok r)
        × ((r.is_ok ≡ true) ↔ AllGenuine 0 initial_key atts)
        × ((r.is_ok ≡ true) → r.checked + length r.unverifiable ≡ length atts)
  unfolding verify_seals
  verify_seals-AllGenuine atts initial_key =
      let (r, he, hall, hcount) = seal_walk-AllGenuine 0 initial_key 0 [] atts in
      (r, he, hall, λ h. omega (arith, hcount h))
