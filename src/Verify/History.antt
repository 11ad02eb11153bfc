-- ===== src/Verify/History.antt =====
-- The entry hash of the last row of src/waxseal/domain/verify.py as a commitment to the rows
-- before it.
use waxseal.Base.{
  some, Option, some_inj, length, arith, inr, suc, ok, ap, ℕ, Text, ◌∙◌, inl, ◌+◌, subst, Bytes,
  List, true, ◌⊎◌, ok_inj, refl, [], none, ◌∷◌, ◌≡◌, sym,
}
use waxseal.Base.Int.{pos, ℤ}
use waxseal.Digest.{Hashes, CollisionIn, hexdigest_agree}
use waxseal.Hashing.{compute_entry_hash, header_frame, compute_payload_hash}
use waxseal.Hashing.Injective.{compute_entry_hash_inj}
use waxseal.Header.{Entry, genesis_prev_hash, EntryHeader}
use waxseal.Registry.{VersionRegistry, Reachable}
use waxseal.Registry.Append.{encoder_for-header_frame}
use waxseal.Verify.{VerifyResult, verify_chain}
use waxseal.Verify.Intact.{unknown_seqs, verify_chain_ok_iff, reproduced, Intact, unrecognised}
use waxseal.Verify.Rows.{PayloadMatches}

-- The hash of the last entry, or of the genesis.
abbrev pub last_hash : List Entry → Option Text
last_hash [] = none
last_hash (e ∷ []) = some e.entry_hash
last_hash (e ∷ f ∷ es) = last_hash (f ∷ es)

-- Two payloads that are both at hand are equal.
abbrev pub SamePayload : Option Bytes → Option Bytes → Type 0
SamePayload (some p) (some q) = p ≡ q
SamePayload _ _ = Unit

abbrev pub SameRow : Entry → Entry → Type 0
SameRow a b =
    (a.header ≡ b.header) × (a.entry_hash ≡ b.entry_hash) × SamePayload a.payload b.payload

abbrev pub SameHistory : List Entry → List Entry → Type 0
SameHistory [] [] = Unit
SameHistory [] (b ∷ ys) = ⊥
SameHistory (a ∷ xs) [] = ⊥
SameHistory (a ∷ xs) (b ∷ ys) = SameRow a b × SameHistory xs ys

-- The byte strings that the check of a row hashes: the header's frame, and a payload at hand.
unfoldable pub HashedInRow : Entry → Bytes → Type 0
HashedInRow e m = (header_frame e.header ≡ ok m) ⊎ (e.payload ≡ some m)

-- The byte strings that the check of a chain hashes, row by row.
unfoldable pub HashedInChain : List Entry → Bytes → Type 0
HashedInChain [] m = ⊥
HashedInChain (e ∷ es) m = HashedInRow e m ⊎ HashedInChain es m

module _ (hs : Hashes) where
  -- A row that was recomputed under this build's frame.
  pub record Recomputed (n : ℕ) (prev : Text) (e : Entry) : Type 0 where
    pub at : e.header.seq ≡ pos n
    pub linked : e.header.prev_hash ≡ prev
    pub hash : compute_entry_hash hs header_frame e.header ≡ ok e.entry_hash
    pub payload : PayloadMatches hs e.payload e.header.payload_hash

  abbrev pub AllRecomputed : ℕ → Text → List Entry → Type 0
  AllRecomputed n prev [] = Unit
  AllRecomputed n prev (e ∷ es) = Recomputed n prev e × AllRecomputed (suc n) e.entry_hash es

  -- The last row of a chain, and its position.
  last_row :
      (a : Entry) (xs : List Entry) (n : ℕ) {prev : Text}
      → AllRecomputed n prev (a ∷ xs)
      → (e : Entry) × (k : ℕ) × (p : Text) × Recomputed k p e
        × (last_hash (a ∷ xs) ≡ some e.entry_hash)
        × (k ≡ n + length xs)
        × ((m : Bytes) → HashedInRow e m → HashedInChain (a ∷ xs) m)
  unfolding HashedInChain
  last_row a [] n {prev} h = (a, n, prev, h.0, refl, omega arith, λ m i. inl i)
  last_row a (x ∷ xs) n h =
      let (e, k, p, r, last, position, within) = last_row x xs (suc n) h.1 in
      (e, k, p, r, last, omega arith, λ m i. inr (within m i))

module _ (hs : Hashes) (M : Bytes → Type 0) where
  same_payload :
      (p q : Option Bytes) (expected : Text)
      → ((m : Bytes) → p ≡ some m → M m)
      → ((m : Bytes) → q ≡ some m → M m)
      → PayloadMatches hs p expected
      → PayloadMatches hs q expected
      → SamePayload p q ⊎ CollisionIn hs M
  unfolding compute_payload_hash
  same_payload none q expected cp cq hp hq = inl tt
  same_payload (some p) none expected cp cq hp hq = inl tt
  same_payload (some p) (some q) expected cp cq hp hq =
      hexdigest_agree hs M p q (cp p refl) (cq q refl) (hp ∙ sym hq)

  -- Rows with one entry hash are the same row.
  pub same_row :
      (a b : Entry) {n m : ℕ} {prev prev' : Text}
      → ((m : Bytes) → HashedInRow a m → M m)
      → ((m : Bytes) → HashedInRow b m → M m)
      → Recomputed hs n prev a
      → Recomputed hs m prev' b
      → a.entry_hash ≡ b.entry_hash
      → (SameRow a b × (n ≡ m) × (prev ≡ prev')) ⊎ CollisionIn hs M
  unfolding HashedInRow
  same_row a b {n} {m} ca cb ra rb e =
      elim (compute_entry_hash_inj hs M a.header b.header (λ m h. ca m (inl h))
        (λ m h. cb m (inl h)) (ra.hash ∙ ap ok e) rb.hash) [
          | inr c ↦ inr c
          | inl same ↦
              let seqs : pos n ≡ pos m = sym ra.at ∙ ap (λ (h : EntryHeader). h.seq) same ∙ rb.at in
              let payloads : PayloadMatches hs b.payload a.header.payload_hash =
                subst (PayloadMatches hs b.payload)
                  (sym (ap (λ (h : EntryHeader). h.payload_hash) same)) rb.payload in
              elim (same_payload a.payload b.payload _ (λ m h. ca m (inr h)) (λ m h. cb m (inr h))
                ra.payload payloads) [
                  | inr c ↦ inr c
                  | inl equal ↦ inl (
                    (same, e, equal),
                    cc seqs,
                    sym ra.linked ∙ ap (λ (h : EntryHeader). h.prev_hash) same ∙ rb.linked,
                  )
                ]
        ]

  -- Chains of one length that end in one hash.
  aligned :
      (a : Entry) (xs : List Entry) (b : Entry) (ys : List Entry) (n m : ℕ) {prev prev' : Text}
      → ((m : Bytes) → HashedInChain (a ∷ xs) m → M m)
      → ((m : Bytes) → HashedInChain (b ∷ ys) m → M m)
      → length xs ≡ length ys
      → AllRecomputed hs n prev (a ∷ xs)
      → AllRecomputed hs m prev' (b ∷ ys)
      → last_hash (a ∷ xs) ≡ last_hash (b ∷ ys)
      → (SameHistory (a ∷ xs) (b ∷ ys) × (prev ≡ prev')) ⊎ CollisionIn hs M
  unfolding HashedInChain
  aligned a [] b [] n m cx cy l ra rb e =
      elim (same_row a b (λ m h. cx m (inl h)) (λ m h. cy m (inl h)) ra.0 rb.0 (some_inj e)) [
        | inr c ↦ inr c
        | inl (row, _, linked) ↦ inl ((row, tt), linked)
      ]
  aligned a [] b (y ∷ ys) n m cx cy l ra rb e = absurd (omega arith)
  aligned a (x ∷ xs) b [] n m cx cy l ra rb e = absurd (omega arith)
  aligned a (x ∷ xs) b (y ∷ ys) n m cx cy l ra rb e =
      elim (aligned x xs y ys (suc n) (suc m) (λ m h. cx m (inr h)) (λ m h. cy m (inr h))
        (omega arith) ra.1 rb.1 e) [
          | inr c ↦ inr c
          | inl (rest, hashes) ↦
              elim (same_row a b (λ m h. cx m (inl h)) (λ m h. cy m (inl h)) ra.0 rb.0 hashes) [
                | inr c ↦ inr c
                | inl (row, _, linked) ↦ inl ((row, rest), linked)
              ]
        ]

  AllRecomputed-SameHistory :
      (xs ys : List Entry) (prev : Text)
      → ((m : Bytes) → HashedInChain xs m → M m)
      → ((m : Bytes) → HashedInChain ys m → M m)
      → AllRecomputed hs 0 prev xs
      → AllRecomputed hs 0 prev ys
      → last_hash xs ≡ last_hash ys
      → SameHistory xs ys ⊎ CollisionIn hs M
  AllRecomputed-SameHistory [] [] prev cx cy ha hb e = inl tt
  AllRecomputed-SameHistory [] (b ∷ ys) prev cx cy ha hb e =
      let (f, k, p, r, last, _, _) = last_row hs b ys 0 hb in cc (e, last)
  AllRecomputed-SameHistory (a ∷ xs) [] prev cx cy ha hb e =
      let (f, k, p, r, last, _, _) = last_row hs a xs 0 ha in cc (e, last)
  AllRecomputed-SameHistory (a ∷ xs) (b ∷ ys) prev cx cy ha hb e =
      let (f, k, p, r, last, position, in_x) = last_row hs a xs 0 ha in
      let (g, j, q, s, last', position', in_y) = last_row hs b ys 0 hb in
      elim (same_row f g (λ m h. cx m (in_x m h)) (λ m h. cy m (in_y m h)) r s
        (some_inj (sym last ∙ e ∙ last'))) [
          | inr c ↦ inr c
          | inl (_, positions, _) ↦ elim (aligned a xs b ys 0 0 cx cy (omega arith) ha hb e) [
            | inr c ↦ inr c
            | inl (same, _) ↦ inl same
          ]
        ]

module _ (hs : Hashes) where
  pub cons-ne-nil : {s : ℤ} {u : List ℤ} → (s ∷ u) ≡ [] → ⊥
  cons-ne-nil h = cc

  Intact-AllRecomputed :
      (registry : VersionRegistry) (n : ℕ) (prev : Text) (es : List Entry)
      → Reachable hs registry
      → Intact hs registry n prev es
      → unknown_seqs hs registry es ≡ []
      → AllRecomputed hs n prev es
  Intact-AllRecomputed registry n prev [] reach h none_unknown = tt
  Intact-AllRecomputed registry n prev (e ∷ es) reach (unrecognised at linked found, h)
        none_unknown =
      absurd (cons-ne-nil (rw found at none_unknown))
  Intact-AllRecomputed registry n prev (e ∷ es) reach
        (reproduced encoder at linked found hash payload, h) none_unknown =
      (
        record {
          at = at;
          linked = linked;
          hash = rw (encoder_for-header_frame hs e.header.hash_version reach found) at hash;
          payload = payload;
        },
        Intact-AllRecomputed registry (suc n) e.entry_hash es reach h (rw found at none_unknown),
      )

  -- A chain that verifies with nothing unverifiable has every row recomputed.
  verified-AllRecomputed :
      (registry : VersionRegistry) (es : List Entry) {r : VerifyResult}
      → Reachable hs registry
      → verify_chain hs registry es ≡ ok r
      → r.is_ok ≡ true
      → r.unverifiable ≡ []
      → AllRecomputed hs 0 genesis_prev_hash es
  verified-AllRecomputed registry es {r} reach h good full =
      let whole = (verify_chain_ok_iff hs registry es).0 r h good in
      Intact-AllRecomputed registry 0 genesis_prev_hash es reach whole (
        ap (λ (t : VerifyResult). t.unverifiable)
          (ok_inj (sym ((verify_chain_ok_iff hs registry es).1 whole) ∙ h))
        ∙ full)

  -- Two chains that verify with nothing unverifiable and end in the same entry hash have the same
  -- headers, the same entry hashes and, where both have them, the same payloads, row by row, or two
  -- different byte strings among those that are hashed for the rows of the two chains, which are
  -- header frames and payloads, have one SHA-256 digest.
  pub last_hash_commits :
      (registry : VersionRegistry) (xs ys : List Entry) {r s : VerifyResult}
      → Reachable hs registry
      → verify_chain hs registry xs ≡ ok r
      → r.is_ok ≡ true
      → r.unverifiable ≡ []
      → verify_chain hs registry ys ≡ ok s
      → s.is_ok ≡ true
      → s.unverifiable ≡ []
      → last_hash xs ≡ last_hash ys
      → SameHistory xs ys ⊎ CollisionIn hs (λ m. HashedInChain xs m ⊎ HashedInChain ys m)
  last_hash_commits registry xs ys reach hx gx fx hy gy fy e =
      AllRecomputed-SameHistory hs _ xs ys genesis_prev_hash (λ m h. inl h) (λ m h. inr h)
        (verified-AllRecomputed registry xs reach hx gx fx)
        (verified-AllRecomputed registry ys reach hy gy fy) e
