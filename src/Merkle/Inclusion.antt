-- ===== src/Merkle/Inclusion.antt =====
-- `inclusion_proof` and `verify_inclusion` of scripts/contracts/status_merkle.py: every leaf has a
-- proof, and the proof verifies.
use mathlib.Core.List.{reverse, reverse-append}
use native.Mathlib.Decide.{dec_lt}
use bytedesk_agent_delivery.Prelude.{
  ℕ, zero, suc, ◌-◌, ◌≤◌, ◌<◌, ◌≡◌, sym, ◌∙◌, refl, Bytes, Text, ok, true, some, List, [], ◌∷◌,
  ◌++◌, length, take, drop, All, All-take, All-drop, get_elem?, get_elem?-take, get_elem?-drop,
  get_elem?-lt, =ₜ-refl, ◌>>=◌, arith,
}
use bytedesk_agent_delivery.Digest.{digest}
use bytedesk_agent_delivery.Digest.Laws.{IsSha256, raw-digest}
use bytedesk_agent_delivery.Merkle.{
  node_digest, merkle_root_from, merkle_root, inclusion_from, inclusion_proof, rebuild,
  verify_inclusion,
}
use bytedesk_agent_delivery.Merkle.Split.{split}
use bytedesk_agent_delivery.Merkle.Root.{
  Accepted, IsCut, cut, merkle_root-cut, node_digest-ok, merkle_root-Accepted,
}

module _ (sha256 : Bytes → Bytes) where
  -- What `inclusion_proof` gives for one leaf: the root, the path, and the rebuilt root.
  record Proves (fuel : ℕ) (leaves : List Text) (i : ℕ) (leaf : Text) : Type 0 where
    root : Text
    path : List Text
    root_at : merkle_root sha256 leaves ≡ ok root
    path_at : inclusion_from sha256 fuel leaves i ≡ ok path
    rebuilt :
        (size : ℕ) → size ≡ length leaves → rebuild sha256 leaf i size (reverse path) ≡ ok root
    accepted : Accepted root

  reverse-snoc : (path : List Text) (s : Text) → reverse (path ++ s ∷ []) ≡ s ∷ reverse path
  reverse-snoc path s = reverse-append path (s ∷ [])

  inclusion-left :
      (fuel k i : ℕ) (leaves : List Text)
      → IsCut leaves k
      → i < k
      → inclusion_from sha256 (suc fuel) leaves i ≡ (do
        inner ← inclusion_from sha256 fuel (take k leaves) i
        sibling ← merkle_root sha256 (drop k leaves)
        ok (inner ++ sibling ∷ []))
  unfolding inclusion_from
  inclusion-left fuel k i leaves c lt = ground (arith, c.at, c.below, c.pos)

  inclusion-right :
      (fuel k i : ℕ) (leaves : List Text)
      → IsCut leaves k
      → k ≤ i
      → i < length leaves
      → inclusion_from sha256 (suc fuel) leaves i ≡ (do
        inner ← inclusion_from sha256 fuel (drop k leaves) (i - k)
        sibling ← merkle_root sha256 (take k leaves)
        ok (inner ++ sibling ∷ []))
  unfolding inclusion_from
  inclusion-right fuel k i leaves c ge lt = ground (arith, c.at, c.below, c.pos)

  pub rebuild-left :
      (leaf : Text) (i size k : ℕ) (s : Text) (path : List Text)
      → split size ≡ ok k
      → 2 ≤ size
      → i < k
      → rebuild sha256 leaf i size (s ∷ path)
        ≡ (do left ← rebuild sha256 leaf i k path; node_digest sha256 left s)
  unfolding rebuild
  rebuild-left leaf i size k s path at two lt = ground (arith, at)

  pub rebuild-right :
      (leaf : Text) (i size k : ℕ) (s : Text) (path : List Text)
      → split size ≡ ok k
      → 2 ≤ size
      → k ≤ i
      → rebuild sha256 leaf i size (s ∷ path)
        ≡ (do right ← rebuild sha256 leaf (i - k) (size - k) path; node_digest sha256 s right)
  unfolding rebuild
  rebuild-right leaf i size k s path at two ge = ground (arith, at)

  -- One round: from the part of the cut that holds the leaf to the whole.
  Proves-left :
      (fuel k i : ℕ) (leaves : List Text) (leaf : Text)
      → IsSha256 sha256
      → IsCut leaves k
      → All Accepted leaves
      → i < k
      → Proves fuel (take k leaves) i leaf
      → Proves (suc fuel) leaves i leaf
  Proves-left fuel k i leaves leaf law c v lt p =
      let (s, ps, (b, rb)) =
        merkle_root-Accepted sha256 (drop k leaves) law (All-drop Accepted k leaves v) in
      let (a, ra) = p.accepted in
      record {
        root = digest sha256 (1 ∷ (a ++ b));
        path = p.path ++ s ∷ [];
        root_at =
            rw (merkle_root-cut sha256 k leaves c, p.root_at, ps)
              (node_digest-ok sha256 p.root s a b ra rb);
        path_at = rw (inclusion-left fuel k i leaves c lt, p.path_at, ps);
        rebuilt = λ size e.
            rw
              (
                e,
                reverse-snoc,
                rebuild-left leaf i (length leaves) k s (reverse p.path) c.at
                    (omega (arith, c.pos, c.below)) lt,
                p.rebuilt k (sym c.left_length),
              )
              (node_digest-ok sha256 p.root s a b ra rb);
        accepted = (sha256 (1 ∷ (a ++ b)), raw-digest sha256 (1 ∷ (a ++ b)) law);
      }

  Proves-right :
      (fuel k i : ℕ) (leaves : List Text) (leaf : Text)
      → IsSha256 sha256
      → IsCut leaves k
      → All Accepted leaves
      → k ≤ i
      → i < length leaves
      → Proves fuel (drop k leaves) (i - k) leaf
      → Proves (suc fuel) leaves i leaf
  Proves-right fuel k i leaves leaf law c v ge lt p =
      let (s, ps, (b, rb)) =
        merkle_root-Accepted sha256 (take k leaves) law (All-take Accepted k leaves v) in
      let (a, ra) = p.accepted in
      record {
        root = digest sha256 (1 ∷ (b ++ a));
        path = p.path ++ s ∷ [];
        root_at =
            rw (merkle_root-cut sha256 k leaves c, ps, p.root_at)
              (node_digest-ok sha256 s p.root b a rb ra);
        path_at = rw (inclusion-right fuel k i leaves c ge lt, p.path_at, ps);
        rebuilt = λ size e.
            rw
              (
                e,
                reverse-snoc,
                rebuild-right leaf i (length leaves) k s (reverse p.path) c.at
                    (omega (arith, c.pos, c.below)) ge,
                p.rebuilt (length leaves - k) (sym c.right_length),
              )
              (node_digest-ok sha256 s p.root b a rb ra);
        accepted = (sha256 (1 ∷ (b ++ a)), raw-digest sha256 (1 ∷ (b ++ a)) law);
      }

  Proves-one :
      (fuel i : ℕ) (leaf x : Text)
      → Accepted x
      → get_elem? (x ∷ []) i ≡ some leaf
      → Proves (suc fuel) (x ∷ []) i leaf
  unfolding inclusion_from rebuild merkle_root merkle_root_from
  Proves-one fuel zero leaf x a h = record {
    root = x;
    path = [];
    root_at = rw a.1;
    path_at = refl;
    rebuilt = λ size e. ground arith;
    accepted = a;
  }
  Proves-one fuel (suc i) leaf x a h = cc

  inclusion_from-Proves :
      (fuel : ℕ) (leaves : List Text) (i : ℕ) (leaf : Text)
      → IsSha256 sha256
      → length leaves < fuel
      → All Accepted leaves
      → get_elem? leaves i ≡ some leaf
      → Proves fuel leaves i leaf
  inclusion_from-Proves zero leaves i leaf law h v at = absurd (omega arith)
  inclusion_from-Proves (suc fuel) [] i leaf law h v at = cc
  inclusion_from-Proves (suc fuel) (x ∷ []) i leaf law h v at = Proves-one fuel i leaf x v.0 at
  inclusion_from-Proves (suc fuel) (x ∷ y ∷ rest) i leaf law h v at =
      let leaves : List Text = x ∷ y ∷ rest in
      let (k, c) = cut leaves (omega arith) in
      elim (dec_lt i k) [
        | yes lt ↦ Proves-left fuel k i leaves leaf law c v lt (
            inclusion_from-Proves fuel (take k leaves) i leaf law
              (omega (arith, c.left_length, c.below)) (All-take Accepted k leaves v)
              (get_elem?-take k leaves i lt ∙ at))
        | no ge ↦
            Proves-right fuel k i leaves leaf law c v (omega arith) (get_elem?-lt leaves i at) (
              inclusion_from-Proves fuel (drop k leaves) (i - k) leaf law
                (omega (arith, c.right_length, c.pos)) (All-drop Accepted k leaves v)
                (get_elem?-drop k leaves i (omega arith) ∙ at))
      ]

  -- For every position in a list of leaves that `_raw` takes, the root and the inclusion proof
  -- exist, and `verify_inclusion` accepts the leaf at that position with that proof and that root.
  pub verify_inclusion-inclusion_proof :
      (leaves : List Text) (i : ℕ) (leaf : Text)
      → IsSha256 sha256
      → All Accepted leaves
      → get_elem? leaves i ≡ some leaf
      → (root : Text) × (path : List Text) × (merkle_root sha256 leaves ≡ ok root)
        × (inclusion_proof sha256 leaves i ≡ ok path)
        × (verify_inclusion sha256 leaf i (length leaves) path root ≡ true)
  unfolding inclusion_proof verify_inclusion
  verify_inclusion-inclusion_proof leaves i leaf law v at =
      let p = inclusion_from-Proves (suc (length leaves)) leaves i leaf law (omega arith) v at in
      (
        p.root,
        p.path,
        p.root_at,
        p.path_at,
        rw (p.rebuilt (length leaves) refl)
            (ground (arith, get_elem?-lt leaves i at, =ₜ-refl p.root)),
      )
