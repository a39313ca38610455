-- ===== src/StatusHead.antt =====
-- scripts/contracts/status_head_authority.py: the builder of an authenticated release-status head.
-- What the caller provides (descriptors, signing, canonicalization, the clock's text format) is the
-- record `Adapters`; the registered documents are a list that the operations extend.
mod Tests
pub mod Prior
pub mod Refresh
use bytedesk_agent_delivery.Prelude.{
  ℕ, suc, ◌+◌, ◌-◌, Bytes, Text, codes, Bool, true, false, not, ◌&&◌, ◌||◌, List, [], ◌∷◌, ◌++◌,
  Option, none, some, Result, ok, err, ◌>>=◌, ◌>>◌, require, length, ◌==◌, ◌=ₜ◌,
}
use bytedesk_agent_delivery.Digest.{MerkleError, digest}
use bytedesk_agent_delivery.Merkle.{merkle_root, inclusion_proof, consistency_proof}
use bytedesk_agent_delivery.Json.{Value, string, array, integer, Items, nil, cons}
use bytedesk_agent_delivery.Prelude.{pos}
use bytedesk_agent_delivery.Json.Document.{text, number, texts, document, get, member, equal}
use bytedesk_agent_delivery.Signing.{SigningError, signer_authority_binding_digest}
use bytedesk_agent_delivery.Authority.{AuthorityError}

-- The codes of `StatusHeadAuthorityError`, and the exceptions of what the builder calls.
pub data HeadError : Type 0 where
  timestamp_invalid prior_state_incomplete expiry_invalid status_binding_mismatch : HeadError
  status_not_effective tree_sequence_mismatch tail_leaf_mismatch prior_subject_mismatch : HeadError
  rollback_or_equivocation : HeadError
  key_error type_error : HeadError
  merkle_error : MerkleError → HeadError
  signing_error : SigningError → HeadError
  authority_error : AuthorityError → HeadError

-- What the builder is given and does not implement.
pub record Adapters : Type 0 where
  pub sha256 : Bytes → Bytes
  pub jcs : Value → Bytes
  -- `datetime.fromisoformat` in UTC, as a number; `none` where the text is no time with an offset
  pub timestamp : Value → Option ℕ
  pub schema_descriptor : Text → Value
  pub artifact_descriptor : Text → Text → Value → Value → Value
  -- the proof with its signature; role, purpose, media type, id, trust policy, repository
  pub sign_inline_authority : Value → Text → Text → Text → Text → Value → Text → Value
  pub signing_result : Text → Value → Text → Text → Value → Text → Value
  pub signer : Text → Value
  pub canonical_digest : Value → Text
  pub status_head_auth_schema : Value
  pub status_head_trust : Value
  pub repository : Text
  pub purpose : Text

-- `register_document`: the documents registered so far, the newest first.
abbrev pub Registry : Type 0
Registry = List (Text × Value)

abbrev pub lift_merkle {ℓ} : {A : Type ℓ} → Result MerkleError A → Result HeadError A
lift_merkle (ok a) = ok a
lift_merkle (err e) = err (merkle_error e)

abbrev pub lift_signing {ℓ} : {A : Type ℓ} → Result SigningError A → Result HeadError A
lift_signing (ok a) = ok a
lift_signing (err e) = err (signing_error e)

abbrev pub lift_authority {ℓ} : {A : Type ℓ} → Result AuthorityError A → Result HeadError A
lift_authority (ok a) = ok a
lift_authority (err e) = err (authority_error e)

abbrev pub present : Option Value → Result HeadError Value
present none = err key_error
present (some v) = ok v

-- `document[key]`
abbrev pub item : Text → Value → Result HeadError Value
item k v = present (member k v)

-- `status_leaf_digest` of scripts/contracts/status_merkle.py
unfoldable pub status_leaf_digest :
    (Bytes → Bytes) → (Value → Bytes) → Text → Value → Value → ℕ → Value → Text
status_leaf_digest sha256 jcs subject_kind subject sequence epoch head = digest sha256 (
    0
    ∷ jcs (
        document (
          ("profile", text "bytedesk.release-status-merkle-leaf/1")
          ∷ ("subjectKind", string subject_kind)
          ∷ ("subject", subject)
          ∷ ("sequence", sequence)
          ∷ ("epoch", number epoch)
          ∷ ("head", head)
          ∷ [])))

-- `log_leaves[-1]`
unfoldable pub last_is : Text → List Text → Bool
unfolding ◌=ₜ◌
last_is d [] = false
last_is d (x ∷ []) = x =ₜ d
last_is d (x ∷ y ∷ rest) = last_is d (y ∷ rest)

-- A tree size as `consistency_proof` reads it: it rejects a negative one like zero. `refresh` has
-- compared the value with an integer before.
abbrev pub old_size : Value → ℕ
old_size (integer (pos n)) = n
old_size _ = 0

-- The arguments of `refresh` that its helpers share.
pub record Head : Type 0 where
  pub subject_kind : Text
  pub subject : Value
  pub status : Value
  pub status_descriptor : Value
  pub epoch : ℕ
  pub log_leaves : List Text

-- What `_inclusion_proof` returns.
pub record Inclusion : Type 0 where
  pub leaf_digest : Text
  pub root_digest : Text
  pub audit_path : List Text
  pub proof : Value
  pub descriptor : Value

module _ (a : Adapters) where
  -- `_descriptor`
  abbrev pub descriptor_of : Text → Value → Value
  descriptor_of media_type doc =
      a.artifact_descriptor a.repository media_type doc a.status_head_trust

  -- `_inclusion_proof`
  unfoldable pub build_inclusion_proof :
      Text → Head → Registry → Result HeadError (Inclusion × Registry)
  unfolding last_is equal get
  build_inclusion_proof checkpoint_id h registry = do
    let tree_size = length h.log_leaves
    require (not (tree_size == 0) && equal (number tree_size) (get (codes "sequence") h.status))
        tree_sequence_mismatch
    sequence ← item (codes "sequence") h.status
    let leaf_digest =
        status_leaf_digest a.sha256 a.jcs h.subject_kind h.subject sequence h.epoch
          h.status_descriptor
    require (last_is leaf_digest h.log_leaves) tail_leaf_mismatch
    root ← lift_merkle (merkle_root a.sha256 h.log_leaves)
    path ← lift_merkle (inclusion_proof a.sha256 h.log_leaves (tree_size - 1))
    let proof_id = checkpoint_id ++ codes "-head-inclusion"
    let proof = document (
        ("contract", text "bytedesk.release-status-log-inclusion-proof/1")
        ∷ ("schema", a.schema_descriptor (codes "release-status-log-inclusion-proof"))
        ∷ ("proofId", string proof_id)
        ∷ ("subjectKind", string h.subject_kind)
        ∷ ("subject", h.subject)
        ∷ ("treeSize", number tree_size)
        ∷ ("leafIndex", number (tree_size - 1))
        ∷ ("leafDigest", string leaf_digest)
        ∷ ("rootDigest", string root)
        ∷ ("algorithm", text "bytedesk-rfc6962-head-inclusion-v1")
        ∷ ("auditPath", array (texts path))
        ∷ ("trustPolicy", a.status_head_trust)
        ∷ [])
    ok (
      record {
        leaf_digest = leaf_digest;
        root_digest = root;
        audit_path = path;
        proof = proof;
        descriptor =
            descriptor_of
              (codes "application/vnd.bytedesk.agent.release-status-log-inclusion-proof.v1+json")
              proof;
      },
      (proof_id, proof) ∷ registry,
    )

  -- `_consistency_proof`: the proof, its descriptor and the registry.
  unfoldable pub build_consistency_proof :
      Text → Value → Head → Registry → Result HeadError (Value × Value × Registry)
  build_consistency_proof proof_id prior_checkpoint h registry = do
    prior_tree_size ← item (codes "treeSize") prior_checkpoint
    prior_sequence ← item (codes "sequence") prior_checkpoint
    prior_epoch ← item (codes "epoch") prior_checkpoint
    prior_head_digest ← item (codes "headDigest") prior_checkpoint
    prior_root ← item (codes "logRootDigest") prior_checkpoint
    let from_endpoint = document (
        ("treeSize", prior_tree_size)
        ∷ ("sequence", prior_sequence)
        ∷ ("epoch", prior_epoch)
        ∷ ("headDigest", prior_head_digest)
        ∷ ("logRootDigest", prior_root)
        ∷ [])
    sequence ← item (codes "sequence") h.status
    head_digest ← item (codes "digest") h.status_descriptor
    root ← lift_merkle (merkle_root a.sha256 h.log_leaves)
    let to_endpoint = document (
        ("treeSize", number (length h.log_leaves))
        ∷ ("sequence", sequence)
        ∷ ("epoch", number h.epoch)
        ∷ ("headDigest", head_digest)
        ∷ ("logRootDigest", string root)
        ∷ [])
    path ← lift_merkle (consistency_proof a.sha256 h.log_leaves (old_size prior_tree_size))
    let audit_path = array (texts path)
    let algorithm = text "bytedesk-rfc6962-prefix-consistency-v1"
    let data_digest = a.canonical_digest (
        document (
          ("profile", text "bytedesk.release-status-log-consistency-proof-data/1")
          ∷ ("subjectKind", string h.subject_kind)
          ∷ ("subject", h.subject)
          ∷ ("from", from_endpoint)
          ∷ ("to", to_endpoint)
          ∷ ("algorithm", algorithm)
          ∷ ("auditPath", audit_path)
          ∷ []))
    binding ← lift_signing (
        signer_authority_binding_digest a.sha256 a.jcs (a.signer a.purpose) a.status_head_trust
          a.repository)
    let proof = document (
        ("contract", text "bytedesk.release-status-log-consistency-proof/1")
        ∷ ("schema", a.schema_descriptor (codes "release-status-log-consistency-proof"))
        ∷ ("proofId", string proof_id)
        ∷ ("subjectKind", string h.subject_kind)
        ∷ ("subject", h.subject)
        ∷ ("from", from_endpoint)
        ∷ ("to", to_endpoint)
        ∷ ("algorithm", algorithm)
        ∷ ("auditPath", audit_path)
        ∷ ("proofDataDigest", string data_digest)
        ∷ ("authorityBindingDigest", string binding)
        ∷ ("trustPolicy", a.status_head_trust)
        ∷ [])
    let media_type =
        codes "application/vnd.bytedesk.agent.release-status-log-consistency-proof.v1+json"
    let signed =
        a.sign_inline_authority proof (codes "release-status-log-consistency-proof") a.purpose
          media_type proof_id a.status_head_trust a.repository
    ok (signed, descriptor_of media_type signed, (proof_id, signed) ∷ registry)
