-- ===== src/Digest.antt =====
-- scripts/contracts/status_merkle.py: `_raw` and `_digest`, the textual form of a SHA-256 digest.
-- SHA-256 itself is the parameter `sha256`. A text is its list of code points.
pub mod Hex
pub mod Laws
pub mod Checksum
use bytedesk_agent_delivery.Prelude.{
  ℕ, ◌+◌, ◌-◌, ◌*◌, Bytes, Text, codes, Result, ok, err, Bool, true, false, not, ◌||◌, ◌&&◌, List,
  [], ◌∷◌, ◌++◌, Option, none, some, length, ◌==◌, leb, if◌then◌else◌, ◌>>=◌, ◌>>◌, require,
}
use Hex.{fromhex, hexdigest}

-- What the functions of status_merkle.py raise: `ValueError`, one constructor for each message.
pub data MerkleError : Type 0 where
  invalid_sha256_digest : MerkleError
  non_hexadecimal : MerkleError
  split_requires_two_leaves : MerkleError
  leaf_index_outside : MerkleError
  trailing_nodes : MerkleError
  incomplete_path : MerkleError
  invalid_consistency_sizes : MerkleError
  -- no exception of the program: the fuel of the model ran out, which the theorems exclude
  out_of_fuel : MerkleError

abbrev pub prefix : Text
prefix = codes "sha256:"

-- `value.startswith(prefix)` and `value.removeprefix(prefix)`: what is behind the prefix.
unfoldable pub strip_prefix : Text → Text → Option Text
strip_prefix [] value = some value
strip_prefix (p ∷ ps) [] = none
strip_prefix (p ∷ ps) (c ∷ cs) = if p == c then strip_prefix ps cs else none

abbrev hex_bytes : Option Bytes → Result MerkleError Bytes
hex_bytes none = err non_hexadecimal
hex_bytes (some b) = ok b

abbrev stripped : ℕ → Option Text → Result MerkleError Bytes
stripped size none = err invalid_sha256_digest
stripped size (some hex) =
    if not (size == 71) then err invalid_sha256_digest else hex_bytes (fromhex hex)

-- `_raw`
unfoldable pub raw : Text → Result MerkleError Bytes
unfolding strip_prefix
raw digest = stripped (length digest) (strip_prefix prefix digest)

module _ (sha256 : Bytes → Bytes) where
  -- `_digest`
  unfoldable pub digest : Bytes → Text
  digest value = prefix ++ hexdigest (sha256 value)
