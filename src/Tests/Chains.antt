-- ===== src/Tests/Chains.antt =====
-- A log of two entries, what its verification computes to, and the theorems about registries,
-- chains and logs at it.
use waxseal.Base.{
  ◌∷◌, [], ◌≡◌, ◌+◌, refl, ◌≤◌, Text, true, ok, Result, raise, none, text_eq, inl, ◌⊎◌, length,
  if◌then◌else◌, List, some, codes,
}
use waxseal.Backend.{build_entry, Appended, Builder, empty, appended}
use waxseal.Backend.Verified.{verify_chain-Appended}
use waxseal.Base.Int.{pos}
use waxseal.Digest.{CollisionIn}
use waxseal.Fingerprint.{fingerprint}
use waxseal.Hashing.{header_frame}
use waxseal.Header.{EntryHeader, genesis_prev_hash, Entry}
use waxseal.Registry.{register, new_registry, VersionRegistry, created, encoder_for, Reachable}
use waxseal.Registry.Append.{encoder_for_exact}
use waxseal.Tests.Toy.{toy, running}
use waxseal.Verify.{VerifyResult, payload_hash_mismatch, passed, verify_chain, broken_at}
use waxseal.Verify.History.{SameHistory, HashedInChain, last_hash_commits}
use waxseal.Verify.Intact.{unknown_seqs, known_rows, verify_chain_ok_iff, Intact}
use waxseal.Verify.Monotone.{Forgets, verify_chain_monotone}
use waxseal.Verify.Report.{verify_chain-FirstBreak, FirstBreak}

abbrev pub returned {ℓ} : {A : Type ℓ} → A → Result A → A
returned other (ok a) = a
returned other (raise _) = other

abbrev blank : EntryHeader
blank = record {
  seq = pos 0;
  ts = [];
  hash_version = [];
  payload_type = [];
  payload_hash = [];
  prev_hash = [];
}

abbrev pub blank_entry : Entry
blank_entry = record { header = blank; entry_hash = []; payload = none }

own : Text
unfolding running
own = returned [] (fingerprint toy)

own_lem : fingerprint toy ≡ ok own
unfolding own running
own_lem = refl

unfoldable pub registry : VersionRegistry
unfolding running
registry = returned (record { schemas = []; encodings = [] }) (new_registry toy)

pub registry-Reachable : Reachable toy registry
unfolding registry running
registry-Reachable = created refl

abbrev wider : List Text
wider = codes "seq" ∷ codes "extra" ∷ []

abbrev build_one : Builder
build_one = build_entry toy (codes "2026-01-01") (codes "application/vnd.demo") (codes "one")

abbrev build_two : Builder
build_two = build_entry toy (codes "2026-01-02") (codes "application/vnd.demo") (codes "two")

unfoldable pub entry_one : Entry
unfolding running
entry_one = returned blank_entry (build_one (pos 0) genesis_prev_hash)

unfoldable pub entry_two : Entry
unfolding running entry_one
entry_two = returned blank_entry (build_two (pos 1) entry_one.entry_hash)

abbrev pub log : List Entry
log = entry_one ∷ entry_two ∷ []

log-Appended : Appended toy log
unfolding running entry_one entry_two
log-Appended =
    appended (codes "2026-01-02") (codes "application/vnd.demo") (codes "two") entry_two
      (appended (codes "2026-01-01") (codes "application/vnd.demo") (codes "one") entry_one empty
        refl)
      refl

verify_chain-Appended_example : verify_chain toy registry log ≡ ok (passed 2 [])
verify_chain-Appended_example = verify_chain-Appended toy registry registry-Reachable log-Appended

-- The payload of the second row is changed in the storage.
abbrev tampered : List Entry
tampered = entry_one ∷ record entry_two { payload = some (codes "TWO") } ∷ []

abbrev tampered_result : VerifyResult
tampered_result = broken_at (pos 1) payload_hash_mismatch 1 []

tampered_lem : verify_chain toy registry tampered ≡ ok tampered_result
unfolding running entry_one entry_two registry
tampered_lem = refl

verify_chain-FirstBreak_example :
    FirstBreak toy registry 0 genesis_prev_hash 0 [] tampered tampered_result
verify_chain-FirstBreak_example = verify_chain-FirstBreak toy registry tampered tampered_lem refl

-- A registry that knows no fingerprint.
abbrev empty_registry : VersionRegistry
empty_registry = record { schemas = []; encodings = [] }

empty-Forgets : Forgets registry empty_registry
unfolding running
empty-Forgets fp = inl refl

verify_chain_monotone_example :
    (s : VerifyResult) × (verify_chain toy empty_registry log ≡ ok s)
    × (s.is_ok ≡ true)
    × (s.checked ≤ 2)
    × (s.checked + length s.unverifiable ≡ 2)
    × (2 + 0 ≡ 2)
verify_chain_monotone_example =
    verify_chain_monotone toy registry empty_registry log {r = passed 2 []} empty-Forgets
      verify_chain-Appended_example refl

last_hash_commits_example :
    SameHistory log log ⊎ CollisionIn toy (λ m. HashedInChain log m ⊎ HashedInChain log m)
last_hash_commits_example =
    last_hash_commits toy registry log log {r = passed 2 []} {s = passed 2 []} registry-Reachable
      verify_chain-Appended_example refl refl verify_chain-Appended_example refl refl refl

verify_chain_ok_iff_example :
    ((r : VerifyResult)
      → verify_chain toy registry log ≡ ok r
      → r.is_ok ≡ true
      → Intact toy registry 0 genesis_prev_hash log)
    × (Intact toy registry 0 genesis_prev_hash log
        → verify_chain toy registry log
          ≡ ok (passed (known_rows toy registry log) (unknown_seqs toy registry log)))
verify_chain_ok_iff_example = verify_chain_ok_iff toy registry log

encoder_for_exact_example :
    encoder_for registry own ≡ ok (if text_eq own own then some header_frame else none)
encoder_for_exact_example = encoder_for_exact toy own own own_lem registry-Reachable

grown : VersionRegistry × Text
unfolding running registry
grown = returned (registry, []) (register toy wider registry)
