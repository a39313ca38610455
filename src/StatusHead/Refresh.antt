-- ===== src/StatusHead/Refresh.antt =====
-- `refresh` of scripts/contracts/status_head_authority.py.
pub mod Laws
use bytedesk_agent_delivery.Prelude.{
  ℕ, Text, codes, Bool, List, [], ◌∷◌, ◌++◌, Option, Result, ok, err, ◌>>=◌, ◌>>◌, length,
}
use bytedesk_agent_delivery.Merkle.{merkle_root}
use bytedesk_agent_delivery.Json.{Value, string}
use bytedesk_agent_delivery.Json.Document.{text, number, document}
use bytedesk_agent_delivery.Signing.{signer_authority_binding_digest}
use bytedesk_agent_delivery.Authority.{schema_field_authority_preimage}
use bytedesk_agent_delivery.StatusHead.{
  HeadError, Adapters, Registry, lift_merkle, lift_signing, lift_authority, item, Inclusion,
  descriptor_of, build_inclusion_proof,
}
use bytedesk_agent_delivery.StatusHead.Prior.{Request, PriorState, check_request, prior_state}

-- The dict that `refresh` returns; a proof that it did not build is `null`.
pub record Refreshed : Type 0 where
  pub checkpoint : Value
  pub checkpoint_descriptor : Value
  pub authentication : Value
  pub authentication_descriptor : Value
  pub inclusion : Inclusion
  pub consistency_proof : Value
  pub consistency_proof_descriptor : Value

abbrev pub checkpoint_media_type : Text
checkpoint_media_type =
    codes "application/vnd.bytedesk.agent.release-status-head-checkpoint.v1+json"

module _ (a : Adapters) where
  -- `checkpoint`
  abbrev pub checkpoint_document : Request → Inclusion → Text → Value → Value → PriorState → Value
  checkpoint_document r inclusion root sequence head_digest prior = document (
      ("contract", text "bytedesk.release-status-head-checkpoint/1")
      ∷ ("schema", a.schema_descriptor (codes "release-status-head-checkpoint"))
      ∷ ("checkpointId", string r.checkpoint_id)
      ∷ ("requestNonce", string r.request_nonce)
      ∷ ("subjectKind", string r.head.subject_kind)
      ∷ ("subject", r.head.subject)
      ∷ ("sequence", sequence)
      ∷ ("treeSize", number (length r.head.log_leaves))
      ∷ ("head", r.head.status_descriptor)
      ∷ ("headDigest", head_digest)
      ∷ ("headLeafDigest", string inclusion.leaf_digest)
      ∷ ("headInclusionProof", inclusion.descriptor)
      ∷ ("epoch", number r.head.epoch)
      ∷ ("logRootDigest", string root)
      ∷ ("clientPriorState", prior.client_prior_state)
      ∷ ("consistencyProof", prior.consistency_descriptor)
      ∷ ("verifiedAt", string r.operation_time)
      ∷ ("expiresAt", string r.expires_at)
      ∷ ("trustPolicy", a.status_head_trust)
      ∷ [])

  -- `authentication` with the given evidence digest.
  abbrev pub authentication_document : Request → Value → Text → Value → Text → Value
  authentication_document r checkpoint_digest binding signing_result evidence_digest = document (
      ("contract", text "bytedesk.release-status-head-authentication-evidence/1")
      ∷ ("schema", a.schema_descriptor (codes "release-status-head-authentication-evidence"))
      ∷ ("purpose", string a.purpose)
      ∷ ("checkpointDigest", checkpoint_digest)
      ∷ ("requestNonce", string r.request_nonce)
      ∷ ("authorityBindingDigest", string binding)
      ∷ ("signingResult", signing_result)
      ∷ ("evidenceDigest", string evidence_digest)
      ∷ [])

  -- The authentication evidence of a checkpoint.
  unfoldable pub authenticate : Request → Value → Result HeadError Value
  authenticate r checkpoint_descriptor = do
    checkpoint_digest ← item (codes "digest") checkpoint_descriptor
    binding ← lift_signing (
        signer_authority_binding_digest a.sha256 a.jcs (a.signer a.purpose) a.status_head_trust
          a.repository)
    let signed =
        a.signing_result a.purpose checkpoint_digest checkpoint_media_type r.checkpoint_id
          a.status_head_trust a.repository
    let draft =
        authentication_document r checkpoint_digest binding signed
          (codes "sha256:0000000000000000000000000000000000000000000000000000000000000000")
    preimage ←
        lift_authority
          (schema_field_authority_preimage draft a.status_head_auth_schema (codes "evidenceDigest"))
    ok (authentication_document r checkpoint_digest binding signed (a.canonical_digest preimage))

  unfoldable pub refresh : Request → Registry → Result HeadError (Refreshed × Registry)
  unfolding check_request build_inclusion_proof prior_state authenticate
  refresh r registry = do
    check_request a r
    included ← build_inclusion_proof a r.checkpoint_id r.head registry
    let (inclusion, with_inclusion) = included
    root ← lift_merkle (merkle_root a.sha256 r.head.log_leaves)
    prior ← prior_state a r r.prior_checkpoint root inclusion.leaf_digest with_inclusion
    sequence ← item (codes "sequence") r.head.status
    head_digest ← item (codes "digest") r.head.status_descriptor
    let checkpoint = checkpoint_document r inclusion root sequence head_digest prior
    let checkpoint_descriptor = descriptor_of a checkpoint_media_type checkpoint
    authentication ← authenticate r checkpoint_descriptor
    let descriptor =
        descriptor_of a
          (codes
            "application/vnd.bytedesk.agent.release-status-head-authentication-evidence.v1+json")
          authentication
    ok (
      record {
        checkpoint = checkpoint;
        checkpoint_descriptor = checkpoint_descriptor;
        authentication = authentication;
        authentication_descriptor = descriptor;
        inclusion = inclusion;
        consistency_proof = prior.consistency;
        consistency_proof_descriptor = prior.consistency_descriptor;
      },
      (r.checkpoint_id ++ codes "-authentication-evidence", authentication)
          ∷ (r.checkpoint_id, checkpoint)
          ∷ prior.registry,
    )
