-- ===== src/Merkle/Parts.antt =====
-- The two parts of a tree of scripts/contracts/status_merkle.py that has a root, and the bytes that the
-- root names.

use bytedesk_agent_delivery.Prelude.{
  ℕ, ◌≡◌, sym, ◌∙◌, ap, Bytes, Text, ok, List, [], ◌∷◌, ◌++◌, length, take, drop, All, >>=-eq-ok,
  ok-injective, arith,
}
use bytedesk_agent_delivery.Digest.{raw, digest}
use bytedesk_agent_delivery.Digest.Laws.{IsSha256, raw-digest}
use bytedesk_agent_delivery.Merkle.{empty_root, node_digest, merkle_root_from, merkle_root}
use bytedesk_agent_delivery.Merkle.Root.{IsCut, cut, merkle_root-cut}

-- A digest text that names 32 bytes.
abbrev pub Full : Text → Type 0
Full d = (b : Bytes) × (raw d ≡ ok b) × (length b ≡ 32)

module _ (sha256 : Bytes → Bytes) where
  pub node_digest-inv :
      (left right d : Text)
      → node_digest sha256 left right ≡ ok d
      → (a : Bytes) × (b : Bytes) × (raw left ≡ ok a)
        × (raw right ≡ ok b)
        × (d ≡ digest sha256 (1 ∷ (a ++ b)))
  unfolding node_digest
  node_digest-inv left right d h =
      let (a, pa, ha) = >>=-eq-ok (raw left) _ h in
      let (b, pb, hb) = >>=-eq-ok (raw right) _ ha in (a, b, pa, pb, sym (ok-injective hb))

  digest-Full : (x : Bytes) (d : Text) → IsSha256 sha256 → d ≡ digest sha256 x → Full d
  digest-Full x d law e = (sha256 x, ap raw e ∙ raw-digest sha256 x law, law.size x)

  -- The two parts of a tree that has a root.
  pub record Parts (leaves : List Text) (k : ℕ) (root : Text) : Type 0 where
    pub left : Text
    pub right : Text
    pub left_at : merkle_root sha256 (take k leaves) ≡ ok left
    pub right_at : merkle_root sha256 (drop k leaves) ≡ ok right
    pub node_at : node_digest sha256 left right ≡ ok root

  pub parts :
      (leaves : List Text) (k : ℕ) (root : Text)
      → IsCut leaves k
      → merkle_root sha256 leaves ≡ ok root
      → Parts leaves k root
  parts leaves k root c h =
      let (l, pl, hl) =
        >>=-eq-ok (merkle_root sha256 (take k leaves)) _
          (sym (merkle_root-cut sha256 k leaves c) ∙ h) in
      let (r, pr, hr) = >>=-eq-ok (merkle_root sha256 (drop k leaves)) _ hl in
      record { left = l; right = r; left_at = pl; right_at = pr; node_at = hr }

  -- The root of leaves that name 32 bytes each names 32 bytes.
  pub merkle_root-Full :
      (leaves : List Text) (root : Text)
      → IsSha256 sha256
      → All Full leaves
      → merkle_root sha256 leaves ≡ ok root
      → Full root
  unfolding merkle_root merkle_root_from empty_root
  merkle_root-Full [] root law v h = digest-Full [] root law (sym (ok-injective h))
  merkle_root-Full (leaf ∷ []) root law v h =
      let (a, pa, ha) = >>=-eq-ok (raw leaf) (λ _. ok leaf) h in rw (← ok-injective ha) v.0
  merkle_root-Full (leaf ∷ next ∷ rest) root law v h =
      let (k, c) = cut (leaf ∷ next ∷ rest) (omega arith) in
      let p = parts (leaf ∷ next ∷ rest) k root c h in
      let (a, b, _, _, e) = node_digest-inv p.left p.right root p.node_at in
      digest-Full (1 ∷ (a ++ b)) root law e
