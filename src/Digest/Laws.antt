-- ===== src/Digest/Laws.antt =====
-- What `_raw` and `_digest` of scripts/contracts/status_merkle.py keep of a digest.
use bytedesk_agent_delivery.Prelude.{
  ℕ, ◌+◌, ◌≤◌, ◌≡◌, refl, Bytes, Text, ok, [], ◌∷◌, Option, none, some, length, arith, ap,
}
use bytedesk_agent_delivery.Digest.{prefix, stripped, strip_prefix, raw, digest}
use bytedesk_agent_delivery.Digest.Hex.{
  IsBytes, fromhex-hexdigest, length-hexdigest, length-fromhex,
}

-- What is documented of SHA-256: a digest is 32 bytes.
pub record IsSha256 (sha256 : Bytes → Bytes) : Type 0 where
  pub size : (x : Bytes) → length (sha256 x) ≡ 32
  pub bytes : (x : Bytes) → IsBytes (sha256 x)

-- A text that `_raw` accepts, with the 32 bytes that it names.
abbrev pub Names : Text → Bytes → Type 0
Names d b = (raw d ≡ ok b) × (length b ≡ 32)

-- `_raw` reads back what `_digest` writes.
pub raw-digest :
    (sha256 : Bytes → Bytes) (x : Bytes) → IsSha256 sha256 → raw (digest sha256 x) ≡ ok (sha256 x)
unfolding raw digest
raw-digest sha256 x law =
    rw (fromhex-hexdigest (sha256 x) (law.bytes x), length-hexdigest (sha256 x), law.size x) refl

pub digest-Names :
    (sha256 : Bytes → Bytes) (x : Bytes) → IsSha256 sha256 → Names (digest sha256 x) (sha256 x)
digest-Names sha256 x law = (raw-digest sha256 x law, law.size x)

-- Two equal digest texts name equal bytes.
pub digest-injective :
    (sha256 : Bytes → Bytes) (x y : Bytes)
    → IsSha256 sha256
    → digest sha256 x ≡ digest sha256 y
    → sha256 x ≡ sha256 y
digest-injective sha256 x y law e = cc (raw-digest sha256 x law, raw-digest sha256 y law, ap raw e)

pub strip_prefix-length :
    (p t rest : Text) → strip_prefix p t ≡ some rest → length t ≡ length p + length rest
unfolding strip_prefix
strip_prefix-length [] t rest h = ground arith
strip_prefix-length (p ∷ ps) [] rest h = cc
strip_prefix-length (p ∷ ps) (c ∷ cs) rest h = ground (arith, strip_prefix-length ps cs rest)

stripped-length :
    (size : ℕ) (o : Option Text) (b : Bytes)
    → ((rest : Text) → o ≡ some rest → size ≡ 7 + length rest)
    → stripped size o ≡ ok b
    → length b ≤ 32
stripped-length size none b fits h = cc
stripped-length size (some hex) b fits h = ground (arith, fits hex refl, length-fromhex hex b)

-- `_raw` never yields more than 32 bytes; it yields fewer where the text has spaces.
pub length-raw : (d : Text) (b : Bytes) → raw d ≡ ok b → length b ≤ 32
unfolding raw
length-raw d b h =
    stripped-length (length d) (strip_prefix prefix d) b (strip_prefix-length prefix d) h
