-- ===== src/StatusHead/Refresh/Laws.antt =====
-- What a status head that scripts/contracts/status_head_authority.py builds proves.
use bytedesk_agent_delivery.Prelude.{
  ℕ, suc, ◌-◌, ◌<◌, ◌≡◌, refl, sym, Option, none, ◌=ₜ◌, ◌∙◌, ap, Text, codes, Bool, true, not, ◌&&◌,
  List, [], ◌∷◌, some, Result, ok, err, All, length, get_elem?, ◌==◌, =ₜ→eq, arith, >>=-eq-ok,
  ok-injective, require-eq-ok,
}
use bytedesk_agent_delivery.Digest.{digest, MerkleError}
use bytedesk_agent_delivery.Digest.Laws.{IsSha256}
use bytedesk_agent_delivery.Merkle.{merkle_root, inclusion_proof, verify_inclusion}
use bytedesk_agent_delivery.Merkle.Root.{Accepted}
use bytedesk_agent_delivery.Merkle.Inclusion.{verify_inclusion-inclusion_proof}
use bytedesk_agent_delivery.Json.{Value, string}
use bytedesk_agent_delivery.Json.Document.{
  number, get, equal, text, document, find, member, keys, field_names,
}
use bytedesk_agent_delivery.Json.Document.Laws.{member-get}
use bytedesk_agent_delivery.StatusHead.{
  tree_sequence_mismatch, tail_leaf_mismatch, Adapters, Registry, lift_merkle, present, item,
  last_is, status_leaf_digest, Head, Inclusion, build_inclusion_proof,
}

last_is-get_elem? :
    (d : Text) (leaves : List Text)
    → last_is d leaves ≡ true
    → get_elem? leaves (length leaves - 1) ≡ some d
unfolding last_is
last_is-get_elem? d [] h = cc
last_is-get_elem? d (x ∷ []) h = ap some (=ₜ→eq x d h)
last_is-get_elem? d (x ∷ y ∷ rest) h =
    let e : suc (suc (length rest)) - 1 ≡ suc (suc (length rest) - 1) = omega arith in
    rw e (last_is-get_elem? d (y ∷ rest) h)

not-zero : (n : ℕ) (b : Bool) → not (n == 0) && b ≡ true → (0 < n) × (b ≡ true)
not-zero n b h = (ground arith, ground arith)

lift_merkle-ok : {A : Type 0} (r : Result MerkleError A) {x : A} → lift_merkle r ≡ ok x → r ≡ ok x
lift_merkle-ok (ok x) h = cc
lift_merkle-ok (err e) h = cc

lifted-ok :
    {A : Type 0} (r : Result MerkleError A) {x y : A} → lift_merkle r ≡ ok x → r ≡ ok y → y ≡ x
lifted-ok r h k = ok-injective (sym k ∙ lift_merkle-ok r h)

present-get : (o : Option Value) {v : Value} → present o ≡ ok v → o ≡ some v
present-get none h = cc
present-get (some v) h = cc

-- A leaf of the log is the digest of a zero byte and the canonical form of a document that states the
-- subject, the sequence, the epoch and the descriptor of a status.
pub record StatusLeaf (a : Adapters) (h : Head) (leaf : Text) : Type 0 where
  pub preimage : Value
  pub digest_is : leaf ≡ digest a.sha256 (0 ∷ a.jcs preimage)
  pub profile_is : get (codes "profile") preimage ≡ text "bytedesk.release-status-merkle-leaf/1"
  pub kind_is : get (codes "subjectKind") preimage ≡ string h.subject_kind
  pub subject_is : get (codes "subject") preimage ≡ h.subject
  pub sequence_is : get (codes "sequence") preimage ≡ get (codes "sequence") h.status
  pub epoch_is : get (codes "epoch") preimage ≡ number h.epoch
  pub head_is : get (codes "head") preimage ≡ h.status_descriptor
  pub members_are :
      keys preimage
      ≡ codes "profile"
        ∷ codes "subjectKind"
        ∷ codes "subject"
        ∷ codes "sequence"
        ∷ codes "epoch"
        ∷ codes "head"
        ∷ []

status_leaf_digest-StatusLeaf :
    (a : Adapters) (h : Head) (sequence : Value)
    → get (codes "sequence") h.status ≡ sequence
    → StatusLeaf a h (
        status_leaf_digest a.sha256 a.jcs h.subject_kind h.subject sequence h.epoch
          h.status_descriptor)
unfolding status_leaf_digest get find keys field_names ◌=ₜ◌
status_leaf_digest-StatusLeaf a h sequence e = record {
  preimage = document (
      ("profile", text "bytedesk.release-status-merkle-leaf/1")
      ∷ ("subjectKind", string h.subject_kind)
      ∷ ("subject", h.subject)
      ∷ ("sequence", sequence)
      ∷ ("epoch", number h.epoch)
      ∷ ("head", h.status_descriptor)
      ∷ []);
  digest_is = refl;
  profile_is = refl;
  kind_is = refl;
  subject_is = refl;
  sequence_is = sym e;
  epoch_is = refl;
  head_is = refl;
  members_are = refl;
}

-- Where `_inclusion_proof` returns, over a log whose entries `_raw` takes: the log is not empty, its
-- size is the sequence of the status, the last entry is the leaf of the result, which is the digest
-- of the document with the subject, the sequence, the epoch and the descriptor of the status, the
-- root is the Merkle root of the log, and `verify_inclusion` accepts the leaf at the last position with the
-- audit path, the size and the root of the result.
pub build_inclusion_proof-verifies :
    (a : Adapters) (checkpoint_id : Text) (h : Head) (registry : Registry) {i : Inclusion}
    {registered : Registry}
    → IsSha256 a.sha256
    → All Accepted h.log_leaves
    → build_inclusion_proof a checkpoint_id h registry ≡ ok (i, registered)
    → (0 < length h.log_leaves)
      × (equal (number (length h.log_leaves)) (get (codes "sequence") h.status) ≡ true)
      × (get_elem? h.log_leaves (length h.log_leaves - 1) ≡ some i.leaf_digest)
      × StatusLeaf a h i.leaf_digest
      × (merkle_root a.sha256 h.log_leaves ≡ ok i.root_digest)
      × (verify_inclusion a.sha256 i.leaf_digest
            (length h.log_leaves - 1)
            (length h.log_leaves)
            i.audit_path
            i.root_digest
          ≡ true)
unfolding build_inclusion_proof
build_inclusion_proof-verifies a checkpoint_id h registry law leaves built =
    let n = length h.log_leaves in
    let (guard, h1) =
      require-eq-ok (not (n == 0) && equal (number n) (get (codes "sequence") h.status))
        tree_sequence_mismatch _ built in
    let (pos, same) = not-zero n (equal (number n) (get (codes "sequence") h.status)) guard in
    let (sequence, sequence_at, h2) = >>=-eq-ok (item (codes "sequence") h.status) _ h1 in
    let leaf =
      status_leaf_digest a.sha256 a.jcs h.subject_kind h.subject sequence h.epoch
        h.status_descriptor in
    let leaf_is = status_leaf_digest-StatusLeaf a h sequence (
      member-get (codes "sequence") h.status
        (present-get (member (codes "sequence") h.status) sequence_at)) in
    let (tail, h3) = require-eq-ok (last_is leaf h.log_leaves) tail_leaf_mismatch _ h2 in
    let last = last_is-get_elem? leaf h.log_leaves tail in
    let (root, root_at, h4) = >>=-eq-ok (lift_merkle (merkle_root a.sha256 h.log_leaves)) _ h3 in
    let (path, path_at, h5) =
      >>=-eq-ok (lift_merkle (inclusion_proof a.sha256 h.log_leaves (n - 1))) _ h4 in
    let (root', path', root_at', path_at', verified) =
      verify_inclusion-inclusion_proof a.sha256 h.log_leaves (n - 1) leaf law leaves last in
    let e = lifted-ok (merkle_root a.sha256 h.log_leaves) root_at root_at' in
    let f = lifted-ok (inclusion_proof a.sha256 h.log_leaves (n - 1)) path_at path_at' in
    let shape = ap (λ p. p.0) (ok-injective h5) in
    rw (sym shape) (pos, same, last, leaf_is, root_at' ∙ ap ok e, rw (e, f) at verified)
