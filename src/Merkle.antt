-- ===== src/Merkle.antt =====
-- scripts/contracts/status_merkle.py: the RFC 6962 style Merkle tree of the release-status log.
-- The functions that cut a list of leaves in two take fuel; the length of the list is enough.
pub mod Split
pub mod Root
pub mod Inclusion
pub mod Parts
pub mod Preimages
pub mod Soundness
pub mod Consistency
mod Tests
use mathlib.Core.List.{reverse}
use bytedesk_agent_delivery.Prelude.{
  ℕ, zero, suc, ◌+◌, ◌-◌, ◌/◌, ◌%◌, ◌^◌, Bytes, Text, Result, ok, err, Bool, true, false, not, ◌&&◌,
  ◌||◌, List, [], ◌∷◌, ◌++◌, length, take, drop, ◌==◌, ltb, leb, ◌=ₜ◌, if◌then◌else◌, ◌>>=◌, ◌>>◌,
  require,
}
use bytedesk_agent_delivery.Digest.{
  MerkleError, leaf_index_outside, trailing_nodes, incomplete_path, invalid_consistency_sizes,
  out_of_fuel, raw, digest,
}
use Split.{split, shift_ones, shift_zeros}

-- `except (ValueError, IndexError): return False`
abbrev caught : Result MerkleError Text → Text → Bool
caught (ok root) expected = root =ₜ expected
caught (err e) expected = false

abbrev is_empty : List Text → Bool
is_empty [] = true
is_empty (x ∷ xs) = false

module _ (sha256 : Bytes → Bytes) where
  unfoldable pub empty_root : Text
  empty_root = digest sha256 []

  unfoldable pub node_digest : Text → Text → Result MerkleError Text
  node_digest left right = do l ← raw left; r ← raw right; ok (digest sha256 (1 ∷ (l ++ r)))

  unfoldable pub merkle_root_from : ℕ → List Text → Result MerkleError Text
  merkle_root_from zero leaves = err out_of_fuel
  merkle_root_from (suc fuel) [] = ok empty_root
  merkle_root_from (suc fuel) (leaf ∷ []) = do b ← raw leaf; ok leaf
  merkle_root_from (suc fuel) (leaf ∷ next ∷ rest) = do
    k ← split (length (leaf ∷ next ∷ rest))
    left ← merkle_root_from fuel (take k (leaf ∷ next ∷ rest))
    right ← merkle_root_from fuel (drop k (leaf ∷ next ∷ rest))
    node_digest left right

  unfoldable pub merkle_root : List Text → Result MerkleError Text
  merkle_root leaves = merkle_root_from (suc (length leaves)) leaves

  unfoldable pub inclusion_from : ℕ → List Text → ℕ → Result MerkleError (List Text)
  inclusion_from zero leaves leaf_index = err out_of_fuel
  inclusion_from (suc fuel) leaves leaf_index =
      if not (ltb leaf_index (length leaves))
      then err leaf_index_outside
      else if length leaves == 1
      then ok []
      else do
        k ← split (length leaves)
        elim (ltb leaf_index k) [
          | true ↦ do
            inner ← inclusion_from fuel (take k leaves) leaf_index
            sibling ← merkle_root (drop k leaves)
            ok (inner ++ sibling ∷ [])
          | false ↦ do
            inner ← inclusion_from fuel (drop k leaves) (leaf_index - k)
            sibling ← merkle_root (take k leaves)
            ok (inner ++ sibling ∷ [])
        ]

  unfoldable pub inclusion_proof : List Text → ℕ → Result MerkleError (List Text)
  inclusion_proof leaves leaf_index = inclusion_from (suc (length leaves)) leaves leaf_index

  -- `rebuild` of `verify_inclusion`. It takes the nodes of the path from the end, so here the path
  -- is given in reverse.
  unfoldable pub rebuild : Text → ℕ → ℕ → List Text → Result MerkleError Text
  rebuild leaf_digest index size [] = if size == 1 then ok leaf_digest else err incomplete_path
  rebuild leaf_digest index size (sibling ∷ path) = if size == 1 then err trailing_nodes else do
    k ← split size
    elim (ltb index k) [
      | true ↦ do left ← rebuild leaf_digest index k path; node_digest left sibling
      | false ↦ do
        right ← rebuild leaf_digest (index - k) (size - k) path
        node_digest sibling right
    ]

  unfoldable pub verify_inclusion : Text → ℕ → ℕ → List Text → Text → Bool
  verify_inclusion leaf_digest leaf_index tree_size audit_path expected_root =
      if tree_size == 0 || not (ltb leaf_index tree_size)
      then false
      else caught (rebuild leaf_digest leaf_index tree_size (reverse audit_path)) expected_root

  -- `subproof` of `consistency_proof`
  unfoldable pub subproof : ℕ → ℕ → List Text → Bool → Result MerkleError (List Text)
  subproof zero prefix_size nodes complete = err out_of_fuel
  subproof (suc fuel) prefix_size nodes complete =
      if prefix_size == length nodes
      then (if complete then ok [] else (do root ← merkle_root nodes; ok (root ∷ [])))
      else do
        k ← split (length nodes)
        elim (leb prefix_size k) [
          | true ↦ do
            inner ← subproof fuel prefix_size (take k nodes) complete
            sibling ← merkle_root (drop k nodes)
            ok (inner ++ sibling ∷ [])
          | false ↦ do
            inner ← subproof fuel (prefix_size - k) (drop k nodes) false
            sibling ← merkle_root (take k nodes)
            ok (inner ++ sibling ∷ [])
        ]

  unfoldable pub consistency_proof : List Text → ℕ → Result MerkleError (List Text)
  consistency_proof leaves old_size =
      if ltb 0 old_size && leb old_size (length leaves)
      then subproof (suc (length leaves)) old_size leaves true
      else err invalid_consistency_sizes

  -- The loop over the audit path of `verify_consistency`, over the variables of the function.
  unfoldable pub consistency_loop :
      (fn sn : ℕ) (first_root second_root old_root new_root : Text)
      → List Text
      → Result MerkleError Bool
  consistency_loop fn sn first_root second_root old_root new_root [] =
      ok (fn == 0 && (first_root =ₜ old_root && second_root =ₜ new_root))
  consistency_loop fn sn first_root second_root old_root new_root (node ∷ path) =
      elim (fn % 2 == 1 || fn == sn) [
        | true ↦ do
          first ← node_digest node first_root
          second ← node_digest node second_root
          let (fn', sn') = shift_zeros fn fn sn
          consistency_loop (fn' / 2) (sn' / 2) first second old_root new_root path
        | false ↦ do
          second ← node_digest second_root node
          consistency_loop (fn / 2) (sn / 2) first_root second old_root new_root path
      ]

  -- What follows the shift of the trailing ones.
  abbrev consistency_start : ℕ × ℕ → Text → Text → List Text → Result MerkleError Bool
  consistency_start (fn, sn) old_root new_root audit_path =
      if fn == 0
      then consistency_loop fn sn old_root old_root old_root new_root audit_path
      else elim audit_path [
        | [] ↦ ok false
        | node ∷ path ↦ consistency_loop fn sn node node old_root new_root path
      ]

  -- A `ValueError` of `node_digest` is not caught here.
  unfoldable pub verify_consistency :
      (old_size new_size : ℕ) (old_root new_root : Text) → List Text → Result MerkleError Bool
  verify_consistency old_size new_size old_root new_root audit_path =
      if not (ltb 0 old_size && leb old_size new_size)
      then ok false
      else if old_size == new_size
      then ok (is_empty audit_path && old_root =ₜ new_root)
      else consistency_start (shift_ones (old_size - 1) (old_size - 1) (new_size - 1)) old_root
          new_root audit_path
