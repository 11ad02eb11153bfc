-- ===== src/Digest.antt =====
-- SHA-256 and HMAC-SHA-256, which the program takes from `hashlib` and `hmac`. The development
-- holds for any two functions that return 32 bytes. Where a statement needs that digests do not
-- collide, it returns the collision instead: two different byte strings that the runs it is about
-- have hashed.
use waxseal.Base.{inr, Bytes, length, ◌≢◌, ◌≡◌, ◌⊎◌, text_eq_cases, inl, Text, IsBytes}
use waxseal.Bytes.Hex.{hex_inj, hex}

pub record Hashes : Type 0 where
  pub sha256 : Bytes → Bytes
  pub hmac_sha256 : Bytes → Bytes → Bytes
  pub sha256-IsBytes : (m : Bytes) → IsBytes (sha256 m)
  pub length-sha256 : (m : Bytes) → length (sha256 m) ≡ 32
  pub hmac-IsBytes : (k m : Bytes) → IsBytes (hmac_sha256 k m)
  pub length-hmac : (k m : Bytes) → length (hmac_sha256 k m) ≡ 32

-- `hashlib.sha256(m).hexdigest()`
unfoldable pub hexdigest : Hashes → Bytes → Text
hexdigest hs m = hex (hs.sha256 m)

-- Two different byte strings with one digest, both among those of which `M` holds. A statement that
-- gives one names in `M` the byte strings that its runs hash.
pub record CollisionIn (hs : Hashes) (M : Bytes → Type 0) : Type 0 where
  pub left : Bytes
  pub right : Bytes
  pub left_hashed : M left
  pub right_hashed : M right
  pub differ : left ≢ right
  pub same_digest : hs.sha256 left ≡ hs.sha256 right

-- A collision among some byte strings is one among more.
pub widen :
    {hs : Hashes} {M N : Bytes → Type 0}
    → ((m : Bytes) → M m → N m)
    → CollisionIn hs M
    → CollisionIn hs N
widen f c = record {
  left = c.left;
  right = c.right;
  left_hashed = f c.left c.left_hashed;
  right_hashed = f c.right c.right_hashed;
  differ = c.differ;
  same_digest = c.same_digest;
}

-- Byte strings that were hashed, with one digest, are equal or collide.
pub digest_agree :
    (hs : Hashes) (M : Bytes → Type 0) (a b : Bytes)
    → M a
    → M b
    → hs.sha256 a ≡ hs.sha256 b
    → (a ≡ b) ⊎ CollisionIn hs M
digest_agree hs M a b ma mb e = elim (text_eq_cases a b) [
  | inl same ↦ inl same
  | inr differ ↦ inr (record {
    left = a;
    right = b;
    left_hashed = ma;
    right_hashed = mb;
    differ = differ;
    same_digest = e;
  })
]

pub hexdigest_agree :
    (hs : Hashes) (M : Bytes → Type 0) (a b : Bytes)
    → M a
    → M b
    → hexdigest hs a ≡ hexdigest hs b
    → (a ≡ b) ⊎ CollisionIn hs M
unfolding hexdigest
hexdigest_agree hs M a b ma mb e =
    digest_agree hs M a b ma mb
      (hex_inj (hs.sha256 a) (hs.sha256 b) (hs.sha256-IsBytes a) (hs.sha256-IsBytes b) e)
