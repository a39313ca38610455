-- ===== src/Merkle/Root.antt =====
-- `merkle_root` of scripts/contracts/status_merkle.py: the fuel is enough, and the root of a list of
-- two or more leaves is the node over the roots of its two parts.
use native.Mathlib.Nat.{one-le-pow}
use bytedesk_agent_delivery.Prelude.{
  ℕ, zero, suc, ◌-◌, ◌^◌, ◌≤◌, ◌<◌, ◌≡◌, refl, Bytes, Text, ok, List, [], ◌∷◌, ◌++◌, length, take,
  drop, All, length-take, length-drop, All-take, All-drop, ◌>>=◌, arith,
}
use bytedesk_agent_delivery.Digest.{raw, digest}
use bytedesk_agent_delivery.Digest.Laws.{IsSha256, raw-digest}
use bytedesk_agent_delivery.Merkle.{empty_root, node_digest, merkle_root_from, merkle_root}
use bytedesk_agent_delivery.Merkle.Split.{split, split_bounds}

-- A digest text that `_raw` takes.
abbrev pub Accepted : Text → Type 0
Accepted d = (b : Bytes) × (raw d ≡ ok b)

-- Where `split` cuts a list of two leaves or more: both parts are shorter, and neither is empty.
pub record IsCut (leaves : List Text) (k : ℕ) : Type 0 where
  pub at : split (length leaves) ≡ ok k
  pub pos : 0 < k
  pub below : k < length leaves
  pub left_length : length (take k leaves) ≡ k
  pub right_length : length (drop k leaves) ≡ length leaves - k

pub pow_pos : (h : ℕ) → 0 < 2 ^ h
pow_pos h = one-le-pow h 2 (omega arith)

pub cut : (leaves : List Text) → 2 ≤ length leaves → (k : ℕ) × IsCut leaves k
cut leaves two =
    let (h, at, below, above) = split_bounds (length leaves) two in
    (
      2 ^ h,
      record {
        at = at;
        pos = pow_pos h;
        below = below;
        left_length = omega (arith, length-take {0} (2 ^ h) leaves);
        right_length = length-drop (2 ^ h) leaves;
      },
    )

module _ (sha256 : Bytes → Bytes) where
  -- One round of `merkle_root` on two leaves or more.
  merkle_root_from-cut :
      (fuel k : ℕ) (leaves : List Text)
      → IsCut leaves k
      → merkle_root_from sha256 (suc fuel) leaves ≡ (do
        left ← merkle_root_from sha256 fuel (take k leaves)
        right ← merkle_root_from sha256 fuel (drop k leaves)
        node_digest sha256 left right)
  unfolding merkle_root_from
  merkle_root_from-cut fuel k [] c = absurd (omega (arith, c.below))
  merkle_root_from-cut fuel k (leaf ∷ []) c = absurd (omega (arith, c.below, c.pos))
  merkle_root_from-cut fuel k (leaf ∷ next ∷ rest) c = rw c.at

  merkle_root_from-enough :
      (f g : ℕ) (leaves : List Text)
      → length leaves < f
      → length leaves < g
      → merkle_root_from sha256 f leaves ≡ merkle_root_from sha256 g leaves
  unfolding merkle_root_from
  merkle_root_from-enough zero g leaves hf hg = absurd (omega arith)
  merkle_root_from-enough (suc f) zero leaves hf hg = absurd (omega arith)
  merkle_root_from-enough (suc f) (suc g) [] hf hg = refl
  merkle_root_from-enough (suc f) (suc g) (leaf ∷ []) hf hg = refl
  merkle_root_from-enough (suc f) (suc g) (leaf ∷ next ∷ rest) hf hg =
      let (k, c) = cut (leaf ∷ next ∷ rest) (omega arith) in
      rw (
        c.at,
        merkle_root_from-enough f g (take k (leaf ∷ next ∷ rest))
            (omega (arith, c.left_length, c.below)) (omega (arith, c.left_length, c.below)),
        merkle_root_from-enough f g (drop k (leaf ∷ next ∷ rest))
            (omega (arith, c.right_length, c.pos)) (omega (arith, c.right_length, c.pos)),
      )

  -- The root of two leaves or more is the node over the roots of the two parts of the cut.
  pub merkle_root-cut :
      (k : ℕ) (leaves : List Text)
      → IsCut leaves k
      → merkle_root sha256 leaves ≡ (do
        left ← merkle_root sha256 (take k leaves)
        right ← merkle_root sha256 (drop k leaves)
        node_digest sha256 left right)
  unfolding merkle_root
  merkle_root-cut k leaves c = rw (
    merkle_root_from-cut (length leaves) k leaves c,
    merkle_root_from-enough (length leaves) (suc (length (take k leaves))) (take k leaves)
        (omega (arith, c.left_length, c.below)) (omega arith),
    merkle_root_from-enough (length leaves) (suc (length (drop k leaves))) (drop k leaves)
        (omega (arith, c.right_length, c.pos, c.below)) (omega arith),
  )

  pub node_digest-ok :
      (left right : Text) (a b : Bytes)
      → raw left ≡ ok a
      → raw right ≡ ok b
      → node_digest sha256 left right ≡ ok (digest sha256 (1 ∷ (a ++ b)))
  unfolding node_digest
  node_digest-ok left right a b p q = rw (p, q)

  -- Over leaves that `_raw` takes, the root exists and `_raw` takes it.
  merkle_root_from-Accepted :
      (fuel : ℕ) (leaves : List Text)
      → IsSha256 sha256
      → length leaves < fuel
      → All Accepted leaves
      → (root : Text) × (merkle_root_from sha256 fuel leaves ≡ ok root) × Accepted root
  unfolding merkle_root_from empty_root
  merkle_root_from-Accepted zero leaves law h v = absurd (omega arith)
  merkle_root_from-Accepted (suc fuel) [] law h v =
      (digest sha256 [], refl, (sha256 [], raw-digest sha256 [] law))
  merkle_root_from-Accepted (suc fuel) (leaf ∷ []) law h v = (leaf, rw v.0.1, v.0)
  merkle_root_from-Accepted (suc fuel) (leaf ∷ next ∷ rest) law h v =
      let leaves : List Text = leaf ∷ next ∷ rest in
      let (k, c) = cut leaves (omega arith) in
      let (l, pl, (a, ra)) =
        merkle_root_from-Accepted fuel (take k leaves) law (omega (arith, c.left_length, c.below))
          (All-take Accepted k leaves v) in
      let (r, pr, (b, rb)) =
        merkle_root_from-Accepted fuel (drop k leaves) law (omega (arith, c.right_length, c.pos))
          (All-drop Accepted k leaves v) in
      (
        digest sha256 (1 ∷ (a ++ b)),
        rw (c.at, pl, pr) (node_digest-ok l r a b ra rb),
        (sha256 (1 ∷ (a ++ b)), raw-digest sha256 (1 ∷ (a ++ b)) law),
      )

  pub merkle_root-Accepted :
      (leaves : List Text)
      → IsSha256 sha256
      → All Accepted leaves
      → (root : Text) × (merkle_root sha256 leaves ≡ ok root) × Accepted root
  unfolding merkle_root
  merkle_root-Accepted leaves law v =
      merkle_root_from-Accepted (suc (length leaves)) leaves law (omega arith) v
