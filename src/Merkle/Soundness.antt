-- ===== src/Merkle/Soundness.antt =====
-- `verify_inclusion` of scripts/contracts/status_merkle.py accepts no other leaf than the one at the
-- position, unless SHA-256 collides on the byte strings that are hashed on the way.
use native.Mathlib.Decide.{dec_lt}
use mathlib.Core.List.{reverse}
use bytedesk_agent_delivery.Prelude.{
  ℕ, zero, suc, ◌-◌, ◌≤◌, ◌<◌, ◌≡◌, sym, ◌∙◌, ap, refl, Bytes, Text, Result, ok, err, true, some,
  List, [], ◌∷◌, ◌++◌, length, take, drop, All, In-append_left, In-append_right, append-injective,
  length-append, All-take, All-drop, get_elem?, get_elem?-take, get_elem?-drop, get_elem?-some,
  =ₜ→eq, >>=-eq-ok, ok-injective, arith, inl,
}
use bytedesk_agent_delivery.Digest.{MerkleError, raw, digest}
use bytedesk_agent_delivery.Digest.Laws.{IsSha256, raw-digest, length-raw}
use bytedesk_agent_delivery.Merkle.{
  caught, node_digest, merkle_root_from, merkle_root, rebuild, verify_inclusion,
}
use bytedesk_agent_delivery.Merkle.Split.{split}
use bytedesk_agent_delivery.Merkle.Root.{IsCut, cut, node_digest-ok}
use bytedesk_agent_delivery.Merkle.Inclusion.{rebuild-left, rebuild-right}
use bytedesk_agent_delivery.Merkle.Parts.{Full, node_digest-inv, parts, merkle_root-Full}
use bytedesk_agent_delivery.Merkle.Preimages.{
  node_preimages, tree_preimages, path_preimages, CollisionFree, tree_preimages-cut,
  path_preimages-left, path_preimages-right,
}

caught-true :
    (r : Result MerkleError Text) (expected : Text) → caught r expected ≡ true → r ≡ ok expected
caught-true (ok root) expected h = ap ok (=ₜ→eq root expected h)
caught-true (err e) expected h = cc

module _ (sha256 : Bytes → Bytes) where
  -- Two nodes with one digest, of which one is over 32-byte children, have the same children.
  node_digest-injective :
      (l r l' r' d d' : Text)
      → IsSha256 sha256
      → Full l
      → Full r
      → node_digest sha256 l r ≡ ok d
      → node_digest sha256 l' r' ≡ ok d'
      → raw d ≡ raw d'
      → CollisionFree sha256 (node_preimages (ok l) (ok r)) (node_preimages (ok l') (ok r'))
      → (raw l ≡ raw l') × (raw r ≡ raw r')
  node_digest-injective l r l' r' d d' law (a, pa, na) (b, pb, nb) h h' e free =
      let (a', b', pa', pb', ed') = node_digest-inv sha256 l' r' d' h' in
      let ed : d ≡ digest sha256 (1 ∷ (a ++ b)) =
        ok-injective (sym h ∙ node_digest-ok sha256 l r a b pa pb) in
      let same : sha256 (1 ∷ (a ++ b)) ≡ sha256 (1 ∷ (a' ++ b')) = ok-injective {E = MerkleError} (
        sym (raw-digest sha256 (1 ∷ (a ++ b)) law)
        ∙ sym (ap raw ed)
        ∙ e
        ∙ ap raw ed'
        ∙ raw-digest sha256 (1 ∷ (a' ++ b')) law) in
      let joined : a ++ b ≡ a' ++ b' =
        tail_eq (free _ _ (rw (pa, pb) (inl refl)) (rw (pa', pb') (inl refl)) same) in
      let (p, q) =
        append-injective a b a' b'
          (omega (
            arith,
            na,
            nb,
            length-raw l' a' pa',
            length-raw r' b' pb',
            ap length joined,
            length-append a b,
            length-append a' b',
          ))
          joined in
      (pa ∙ ap ok p ∙ sym pa', pb ∙ ap ok q ∙ sym pb')
    where
      tail_eq : {x y : Bytes} → ◌≡◌ {A = Bytes} (1 ∷ x) (1 ∷ y) → x ≡ y
      tail_eq h = cc

  -- A rebuilt root that names what the root names was rebuilt from what the leaf names.
  Sound : ℕ → List Text → ℕ → Text → List Text → Type 0
  Sound fuel leaves i leaf path =
      (size : ℕ) (x root root' : Text)
      → size ≡ length leaves
      → All Full leaves
      → get_elem? leaves i ≡ some x
      → merkle_root sha256 leaves ≡ ok root
      → rebuild sha256 leaf i size path ≡ ok root'
      → raw root ≡ raw root'
      → CollisionFree sha256 (tree_preimages sha256 fuel leaves)
          (path_preimages sha256 leaf i size path)
      → raw x ≡ raw leaf

  Sound-one :
      (fuel : ℕ) (y : Text) (i : ℕ) (leaf : Text) (path : List Text)
      → Sound fuel (y ∷ []) i leaf path
  unfolding Sound rebuild merkle_root merkle_root_from
  Sound-one fuel y zero leaf [] size x root root' es v at hr hb e free =
      let (a, pa, ha) = >>=-eq-ok (raw y) (λ _. ok y) hr in
      let eb : leaf ≡ root' = ground arith in cc (ok-injective ha, eb)
  Sound-one fuel y zero leaf (s ∷ path) size x root root' es v at hr hb e free = ground arith
  Sound-one fuel y (suc i) leaf path size x root root' es v at hr hb e free = cc

  Sound-nil :
      (fuel : ℕ) (leaves : List Text) (i : ℕ) (leaf : Text)
      → 2 ≤ length leaves
      → Sound fuel leaves i leaf []
  unfolding Sound rebuild
  Sound-nil fuel leaves i leaf two size x root root' es v at hr hb e free = ground arith

  module _ (fuel k : ℕ) (leaves : List Text) (i : ℕ) (leaf s : Text) (path : List Text) where
    Sound-left :
        IsSha256 sha256
        → IsCut leaves k
        → i < k
        → Sound fuel (take k leaves) i leaf path
        → Sound (suc fuel) leaves i leaf (s ∷ path)
    unfolding Sound
    Sound-left law c lt ih size x root root' es v at hr hb e free =
        let at_size : split size ≡ ok k = rw es c.at in
        let two : 2 ≤ size = omega (arith, c.pos, c.below) in
        let p = parts sha256 leaves k root c hr in
        let (l', hl', hn) =
          >>=-eq-ok (rebuild sha256 leaf i k path) _
            (sym (rebuild-left sha256 leaf i size k s path at_size two lt) ∙ hb) in
        let node_free : CollisionFree sha256 (node_preimages (ok p.left) (ok p.right))
            (node_preimages (ok l') (ok s)) =
          λ y z hy hz.
            free y z
              (rw (tree_preimages-cut sha256 fuel k leaves c, p.left_at, p.right_at)
                (In-append_left y _ _ hy))
              (rw (path_preimages-left sha256 leaf i size k s path at_size lt, hl')
                (In-append_left z _ _ hz)) in
        let same =
          node_digest-injective p.left p.right l' s root root' law
            (merkle_root-Full sha256 (take k leaves) p.left law (All-take Full k leaves v)
              p.left_at)
            (merkle_root-Full sha256 (drop k leaves) p.right law (All-drop Full k leaves v)
              p.right_at)
            p.node_at hn e node_free in
        ih k x p.left l' (sym c.left_length) (All-take Full k leaves v)
          (get_elem?-take k leaves i lt ∙ at) p.left_at hl' same.0
          (λ y z hy hz.
            free y z
              (rw (tree_preimages-cut sha256 fuel k leaves c) (
                In-append_right y
                  (node_preimages (merkle_root sha256 (take k leaves))
                    (merkle_root sha256 (drop k leaves)))
                  _ (In-append_left y _ _ hy)))
              (rw (path_preimages-left sha256 leaf i size k s path at_size lt)
                (In-append_right z (node_preimages (rebuild sha256 leaf i k path) (ok s)) _ hz)))

    Sound-right :
        IsSha256 sha256
        → IsCut leaves k
        → k ≤ i
        → i < length leaves
        → Sound fuel (drop k leaves) (i - k) leaf path
        → Sound (suc fuel) leaves i leaf (s ∷ path)
    unfolding Sound
    Sound-right law c ge lt ih size x root root' es v at hr hb e free =
        let at_size : split size ≡ ok k = rw es c.at in
        let two : 2 ≤ size = omega (arith, c.pos, c.below) in
        let p = parts sha256 leaves k root c hr in
        let (r', hr', hn) =
          >>=-eq-ok (rebuild sha256 leaf (i - k) (size - k) path) _
            (sym (rebuild-right sha256 leaf i size k s path at_size two ge) ∙ hb) in
        let node_free : CollisionFree sha256 (node_preimages (ok p.left) (ok p.right))
            (node_preimages (ok s) (ok r')) =
          λ y z hy hz.
            free y z
              (rw (tree_preimages-cut sha256 fuel k leaves c, p.left_at, p.right_at)
                (In-append_left y _ _ hy))
              (rw (path_preimages-right sha256 leaf i size k s path at_size ge, hr')
                (In-append_left z _ _ hz)) in
        let same =
          node_digest-injective p.left p.right s r' root root' law
            (merkle_root-Full sha256 (take k leaves) p.left law (All-take Full k leaves v)
              p.left_at)
            (merkle_root-Full sha256 (drop k leaves) p.right law (All-drop Full k leaves v)
              p.right_at)
            p.node_at hn e node_free in
        let es' : size - k ≡ length (drop k leaves) = omega (arith, c.right_length) in
        ih (size - k) x p.right r' es' (All-drop Full k leaves v)
          (get_elem?-drop k leaves i ge ∙ at) p.right_at hr' same.1
          (λ y z hy hz.
            free y z
              (rw (tree_preimages-cut sha256 fuel k leaves c) (
                In-append_right y
                  (node_preimages (merkle_root sha256 (take k leaves))
                    (merkle_root sha256 (drop k leaves)))
                  _ (In-append_right y (tree_preimages sha256 fuel (take k leaves)) _ hy)))
              (rw (path_preimages-right sha256 leaf i size k s path at_size ge) (
                In-append_right z
                  (node_preimages (ok s) (rebuild sha256 leaf (i - k) (size - k) path)) _ hz)))

  rebuild-Sound :
      (fuel : ℕ) (leaves : List Text) (i : ℕ) (leaf : Text) (path : List Text)
      → IsSha256 sha256
      → length leaves < fuel
      → i < length leaves
      → Sound fuel leaves i leaf path
  rebuild-Sound zero leaves i leaf path law h lt = absurd (omega arith)
  rebuild-Sound (suc fuel) [] i leaf path law h lt = absurd (omega arith)
  rebuild-Sound (suc fuel) (x ∷ []) i leaf path law h lt = Sound-one (suc fuel) x i leaf path
  rebuild-Sound (suc fuel) (x ∷ y ∷ rest) i leaf [] law h lt =
      Sound-nil (suc fuel) (x ∷ y ∷ rest) i leaf (omega arith)
  rebuild-Sound (suc fuel) (x ∷ y ∷ rest) i leaf (s ∷ path) law h lt =
      let leaves : List Text = x ∷ y ∷ rest in
      let (k, c) = cut leaves (omega arith) in
      elim (dec_lt i k) [
        | yes below ↦ Sound-left fuel k leaves i leaf s path law c below (
            rebuild-Sound fuel (take k leaves) i leaf path law
              (omega (arith, c.left_length, c.below)) (omega (arith, c.left_length)))
        | no above ↦ Sound-right fuel k leaves i leaf s path law c (omega arith) lt (
            rebuild-Sound fuel (drop k leaves) (i - k) leaf path law
              (omega (arith, c.right_length, c.pos)) (omega (arith, c.right_length)))
      ]

  -- If `verify_inclusion` accepts a leaf at a position against the root of a list of leaves that
  -- name 32 bytes each, and SHA-256 does not collide between the byte strings hashed for the tree and
  -- those hashed on the path, then the leaf names the bytes that the leaf at that position names.
  pub verify_inclusion_sound :
      (leaves : List Text) (i : ℕ) (leaf root : Text) (path : List Text)
      → IsSha256 sha256
      → All Full leaves
      → merkle_root sha256 leaves ≡ ok root
      → CollisionFree sha256
          (tree_preimages sha256 (suc (length leaves)) leaves)
          (path_preimages sha256 leaf i (length leaves) (reverse path))
      → verify_inclusion sha256 leaf i (length leaves) path root ≡ true
      → (x : Text) × (get_elem? leaves i ≡ some x) × (raw leaf ≡ raw x)
  unfolding verify_inclusion Sound
  verify_inclusion_sound leaves i leaf root path law v hr free h =
      let lt : i < length leaves = ground arith in
      let (x, at) = get_elem?-some leaves i lt in
      let hb : rebuild sha256 leaf i (length leaves) (reverse path) ≡ ok root =
        caught-true _ root (ground arith) in
      (
        x,
        at,
        sym (
            rebuild-Sound (suc (length leaves)) leaves i leaf (reverse path) law (omega arith) lt
              (length leaves) x root root refl v at hr hb refl free),
      )
