-- ===== src/Merkle/Tests.antt =====
-- Runs of the Merkle functions, with a checksum in the place of SHA-256, and the theorems at inputs.

use bytedesk_agent_delivery.Prelude.{
  ℕ, ◌^◌, ◌≡◌, refl, Text, Bytes, In, Result, ok, err, Bool, true, false, some, List, [], ◌∷◌, ◌++◌,
  length, get_elem?, arith, inl, inr, ◌=ₜ◌, ◌∙◌, sym,
}
use bytedesk_agent_delivery.Digest.{MerkleError, leaf_index_outside, raw, digest}
use bytedesk_agent_delivery.Digest.Hex.{fromhex, hexdigest}
use bytedesk_agent_delivery.Digest.Laws.{raw-digest}
use bytedesk_agent_delivery.Digest.Checksum.{checksum, checksum-IsSha256}
use bytedesk_agent_delivery.Merkle.{
  merkle_root, inclusion_proof, verify_inclusion, consistency_proof, verify_consistency,
  node_digest, merkle_root_from, inclusion_from, rebuild, subproof, consistency_loop,
}
use bytedesk_agent_delivery.Merkle.Split.{split, bit_length, shift_ones, shift_zeros}
use bytedesk_agent_delivery.Merkle.Root.{Accepted}
use bytedesk_agent_delivery.Merkle.Inclusion.{verify_inclusion-inclusion_proof}
use bytedesk_agent_delivery.Merkle.Parts.{Full}
use bytedesk_agent_delivery.Merkle.Preimages.{CollisionFree, tree_preimages, path_preimages}
use bytedesk_agent_delivery.Merkle.Soundness.{verify_inclusion_sound}
use bytedesk_agent_delivery.Merkle.Consistency.{verify_consistency-same_root}

abbrev leaf : ℕ → Text
leaf n = digest checksum (0 ∷ n ∷ [])

leaf-Full : (n : ℕ) → Full (leaf n)
leaf-Full n = (
  checksum (0 ∷ n ∷ []),
  raw-digest checksum (0 ∷ n ∷ []) checksum-IsSha256,
  checksum-IsSha256.size (0 ∷ n ∷ []),
)

accepted : (n : ℕ) → Accepted (leaf n)
accepted n = (checksum (0 ∷ n ∷ []), raw-digest checksum (0 ∷ n ∷ []) checksum-IsSha256)

abbrev five : List Text
five = leaf 1 ∷ leaf 2 ∷ leaf 3 ∷ leaf 4 ∷ leaf 5 ∷ []

-- The proof of a leaf against a root, by the functions themselves.
checked : List Text → ℕ → Text → Result MerkleError Bool
unfolding inclusion_proof merkle_root verify_inclusion merkle_root_from inclusion_from rebuild split
    bit_length node_digest raw digest checksum fromhex hexdigest ◌=ₜ◌
checked leaves i d = elim (inclusion_proof checksum leaves i) [
  | err e ↦ err e
  | ok path ↦ elim (merkle_root checksum leaves) [
    | err e ↦ err e
    | ok root ↦ ok (verify_inclusion checksum d i (length leaves) path root)
  ]
]

checked_fourth : checked five 3 (leaf 4) ≡ ok true
unfolding checked
checked_fourth = refl

checked_outside : checked five 5 (leaf 4) ≡ err leaf_index_outside
unfolding checked
checked_outside = refl

-- A consistency proof of the first sizes of one log.
consistent : List Text → List Text → Result MerkleError Bool
unfolding consistency_proof subproof merkle_root verify_consistency merkle_root_from
    consistency_loop shift_ones shift_zeros split bit_length node_digest raw digest checksum fromhex
    hexdigest ◌=ₜ◌
consistent old new = elim (consistency_proof checksum new (length old)) [
  | err e ↦ err e
  | ok path ↦ elim (merkle_root checksum old) [
    | err e ↦ err e
    | ok old_root ↦ elim (merkle_root checksum new) [
      | err e ↦ err e
      | ok new_root ↦ verify_consistency checksum (length old) (length new) old_root new_root path
    ]
  ]
]

consistent_three : consistent (leaf 1 ∷ leaf 2 ∷ leaf 3 ∷ []) five ≡ ok true
unfolding consistent
consistent_three = refl

consistent_four : consistent (leaf 1 ∷ leaf 2 ∷ leaf 3 ∷ leaf 4 ∷ []) five ≡ ok true
unfolding consistent
consistent_four = refl

forked : consistent (leaf 1 ∷ leaf 2 ∷ leaf 7 ∷ []) five ≡ ok false
unfolding consistent
forked = refl

verify_inclusion-inclusion_proof_example :
    (root : Text) × (path : List Text) × (merkle_root checksum five ≡ ok root)
    × (inclusion_proof checksum five 3 ≡ ok path)
    × (verify_inclusion checksum (leaf 4) 3 5 path root ≡ true)
verify_inclusion-inclusion_proof_example =
    verify_inclusion-inclusion_proof checksum five 3 (leaf 4) checksum-IsSha256
      (accepted 1, (accepted 2, (accepted 3, (accepted 4, (accepted 5, tt))))) refl

two : List Text
two = leaf 1 ∷ leaf 2 ∷ []

two_root : Text
two_root = digest checksum (1 ∷ (checksum (0 ∷ 1 ∷ []) ++ checksum (0 ∷ 2 ∷ [])))

two_root-root : merkle_root checksum two ≡ ok two_root
unfolding merkle_root merkle_root_from split bit_length node_digest raw digest checksum fromhex
    hexdigest two two_root
two_root-root = refl

two_root-verifies : verify_inclusion checksum (leaf 2) 1 2 (leaf 1 ∷ []) two_root ≡ true
unfolding verify_inclusion rebuild split bit_length node_digest raw digest checksum fromhex
    hexdigest two two_root ◌=ₜ◌
two_root-verifies = refl

two_node : Bytes
two_node = 1 ∷ (checksum (0 ∷ 1 ∷ []) ++ checksum (0 ∷ 2 ∷ []))

two-tree_preimages : tree_preimages checksum 3 two ≡ two_node ∷ []
unfolding tree_preimages path_preimages rebuild merkle_root merkle_root_from split bit_length
    node_digest raw digest checksum fromhex hexdigest two two_node
two-tree_preimages = refl

two-path_preimages : path_preimages checksum (leaf 2) 1 2 (leaf 1 ∷ []) ≡ two_node ∷ []
unfolding tree_preimages path_preimages rebuild merkle_root merkle_root_from split bit_length
    node_digest raw digest checksum fromhex hexdigest two two_node
two-path_preimages = refl

In-one : (x y : Bytes) → In x (y ∷ []) → x ≡ y
In-one x y (inl e) = e
In-one x y (inr h) = absurd h

two-CollisionFree :
    CollisionFree checksum
      (tree_preimages checksum 3 two)
      (path_preimages checksum (leaf 2) 1 2 (leaf 1 ∷ []))
two-CollisionFree x y hx hy e =
    In-one x two_node (rw two-tree_preimages at hx)
    ∙ sym (In-one y two_node (rw two-path_preimages at hy))

verify_inclusion_sound_example : (x : Text) × (get_elem? two 1 ≡ some x) × (raw (leaf 2) ≡ raw x)
unfolding two
verify_inclusion_sound_example =
    verify_inclusion_sound checksum two 1 (leaf 2) two_root (leaf 1 ∷ []) checksum-IsSha256
      (leaf-Full 1, (leaf-Full 2, tt)) two_root-root two-CollisionFree two_root-verifies

-- A log of one leaf and a log of four with the same root pass as consistent.
verify_consistency-same_root_example :
    verify_consistency checksum (2 ^ 0) 4 (leaf 1) (leaf 1) [] ≡ ok true
verify_consistency-same_root_example =
    verify_consistency-same_root checksum 0 4 (leaf 1) (omega arith)
