-- ===== src/Merkle/Preimages.antt =====
-- The byte strings that scripts/contracts/status_merkle.py hashes for the inner nodes of a tree and on
-- an inclusion path.

use bytedesk_agent_delivery.Prelude.{
  ℕ, zero, suc, ◌-◌, ◌≤◌, ◌<◌, ◌≡◌, Bytes, Text, Result, ok, err, true, false, List, [], ◌∷◌, ◌++◌,
  length, take, drop, In, ltb, arith,
}
use bytedesk_agent_delivery.Digest.{MerkleError, raw}
use bytedesk_agent_delivery.Merkle.{merkle_root, rebuild}
use bytedesk_agent_delivery.Merkle.Split.{split}
use bytedesk_agent_delivery.Merkle.Root.{IsCut}

-- What `node_digest` hashes for two children.
abbrev pub node_preimage : Result MerkleError Bytes → Result MerkleError Bytes → List Bytes
node_preimage (ok a) (ok b) = (1 ∷ (a ++ b)) ∷ []
node_preimage _ _ = []

abbrev pub node_preimages : Result MerkleError Text → Result MerkleError Text → List Bytes
node_preimages (ok left) (ok right) = node_preimage (raw left) (raw right)
node_preimages _ _ = []

module _ (sha256 : Bytes → Bytes) where
  -- The byte strings that `merkle_root` hashes for the inner nodes of the tree over `leaves`.
  unfoldable pub tree_preimages : ℕ → List Text → List Bytes
  tree_preimages zero leaves = []
  tree_preimages (suc fuel) leaves = elim (split (length leaves)) [
    | err e ↦ []
    | ok k ↦
        node_preimages (merkle_root sha256 (take k leaves)) (merkle_root sha256 (drop k leaves))
        ++ (tree_preimages fuel (take k leaves) ++ tree_preimages fuel (drop k leaves))
  ]

  -- The byte strings that `rebuild` hashes on a path, which is given in reverse.
  unfoldable pub path_preimages : Text → ℕ → ℕ → List Text → List Bytes
  path_preimages leaf i size [] = []
  path_preimages leaf i size (s ∷ path) = elim (split size) [
    | err e ↦ []
    | ok k ↦ elim (ltb i k) [
      | true ↦ node_preimages (rebuild sha256 leaf i k path) (ok s) ++ path_preimages leaf i k path
      | false ↦
          node_preimages (ok s) (rebuild sha256 leaf (i - k) (size - k) path)
          ++ path_preimages leaf (i - k) (size - k) path
    ]
  ]

  -- SHA-256 does not collide between two lists of byte strings.
  abbrev pub CollisionFree : List Bytes → List Bytes → Type 0
  CollisionFree xs ys = (x y : Bytes) → In x xs → In y ys → sha256 x ≡ sha256 y → x ≡ y

  pub tree_preimages-cut :
      (fuel k : ℕ) (leaves : List Text)
      → IsCut leaves k
      → tree_preimages (suc fuel) leaves
        ≡ node_preimages (merkle_root sha256 (take k leaves)) (merkle_root sha256 (drop k leaves))
          ++ (tree_preimages fuel (take k leaves) ++ tree_preimages fuel (drop k leaves))
  unfolding tree_preimages
  tree_preimages-cut fuel k leaves c = rw (c.at, tree_preimages)

  pub path_preimages-left :
      (leaf : Text) (i size k : ℕ) (s : Text) (path : List Text)
      → split size ≡ ok k
      → i < k
      → path_preimages leaf i size (s ∷ path)
        ≡ node_preimages (rebuild sha256 leaf i k path) (ok s) ++ path_preimages leaf i k path
  unfolding path_preimages
  path_preimages-left leaf i size k s path at lt = ground (arith, at)

  pub path_preimages-right :
      (leaf : Text) (i size k : ℕ) (s : Text) (path : List Text)
      → split size ≡ ok k
      → k ≤ i
      → path_preimages leaf i size (s ∷ path)
        ≡ node_preimages (ok s) (rebuild sha256 leaf (i - k) (size - k) path)
          ++ path_preimages leaf (i - k) (size - k) path
  unfolding path_preimages
  path_preimages-right leaf i size k s path at ge = ground (arith, at)
