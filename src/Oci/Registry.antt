-- ===== src/Oci/Registry.antt =====
-- The media types and the role registries of scripts/contracts/oci_graph.py.
use bytedesk_agent_delivery.Prelude.{Text, codes, List, [], ◌∷◌, ℕ}

abbrev pub oci_manifest_media_type : Text
oci_manifest_media_type = codes "application/vnd.oci.image.manifest.v1+json"

abbrev pub oci_empty_config_media_type : Text
oci_empty_config_media_type = codes "application/vnd.oci.empty.v1+json"

abbrev pub oci_layer_media_type : Text
oci_layer_media_type = codes "application/vnd.oci.image.layer.v1.tar+gzip"

abbrev pub public_render_publication_payload_profile : Text
public_render_publication_payload_profile = codes "bytedesk.public-render-publication-payload/1"

abbrev pub empty_config_bytes : List ℕ
empty_config_bytes = codes "{}"

abbrev pub empty_config_digest : Text
empty_config_digest =
    codes "sha256:44136fa355b3678a1146ad16f7e8649e94fb4fc21fe77e8310c060f61caaff8a"

abbrev pub layer_role_annotation : Text
layer_role_annotation = codes "ai.bytedesk.agent-delivery.layer-role"

abbrev pub layer_role_order : List Text
layer_role_order =
    codes "portable-definition"
    ∷ codes "public-skills"
    ∷ codes "public-render"
    ∷ codes "private-customization"
    ∷ codes "approved-private-skills"
    ∷ codes "effective-private-render"
    ∷ codes "evidence"
    ∷ []

-- `ARTIFACT_TYPE_ROLES`: the semantic role of each artifact type.
abbrev pub artifact_type_roles : List (Text × Text)
artifact_type_roles =
    (codes "application/vnd.bytedesk.agent.contract-bundle.v1+json", codes "contract_bundle")
    ∷ (
      codes "application/vnd.bytedesk.agent.product-distribution.v1+json",
      codes "product_distribution",
    )
    ∷ (
      codes "application/vnd.bytedesk.agent.product-release-manifest.v1+json",
      codes "product_release",
    )
    ∷ (
      codes "application/vnd.bytedesk.agent.renderer-allowlist.v1+json",
      codes "renderer_allowlist",
    )
    ∷ (codes "application/vnd.bytedesk.agent.renderer-release.v1+json", codes "renderer_release")
    ∷ (
      codes "application/vnd.bytedesk.agent.release-qualification-policy.v1+json",
      codes "qualification_policy",
    )
    ∷ (
      codes "application/vnd.bytedesk.agent.renderer-qualification-suite.v1+json",
      codes "qualification_suite",
    )
    ∷ (
      codes "application/vnd.bytedesk.agent.renderer-qualification-selection.v1+json",
      codes "qualification_selection",
    )
    ∷ (
      codes "application/vnd.bytedesk.agent.renderer-qualification-attempt.v1+json",
      codes "qualification_attempt",
    )
    ∷ (
      codes
          "application/vnd.bytedesk.agent.renderer-qualification-attempt-authentication-evidence.v1+json",
      codes "qualification_attempt_authentication",
    )
    ∷ (
      codes "application/vnd.bytedesk.agent.renderer-qualification-evidence-tree.v1+json",
      codes "qualification_evidence_tree",
    )
    ∷ (
      codes "application/vnd.bytedesk.agent.renderer-qualification-receipt.v1+json",
      codes "qualification_receipt",
    )
    ∷ (
      codes
          "application/vnd.bytedesk.agent.renderer-qualification-receipt-authentication-evidence.v1+json",
      codes "qualification_receipt_authentication",
    )
    ∷ (
      codes "application/vnd.bytedesk.agent.release-qualification-evidence.v1+json",
      codes "qualification_evidence",
    )
    ∷ (
      codes "application/vnd.bytedesk.agent.release-qualification-finalization-matrix.v1+json",
      codes "qualification_finalization_matrix",
    )
    ∷ (
      codes "application/vnd.bytedesk.agent.release-qualification-predicate.v1+json",
      codes "qualification_predicate",
    )
    ∷ (
      codes "application/vnd.bytedesk.agent.release-qualification.v1+json",
      codes "qualification_decision",
    )
    ∷ (codes "application/vnd.bytedesk.agent.release-status.v1+json", codes "release_status")
    ∷ (
      codes "application/vnd.bytedesk.agent.release-status-log-inclusion-proof.v1+json",
      codes "status_inclusion_proof",
    )
    ∷ (
      codes "application/vnd.bytedesk.agent.release-status-log-consistency-proof.v1+json",
      codes "status_consistency_proof",
    )
    ∷ (
      codes "application/vnd.bytedesk.agent.release-status-head-checkpoint.v1+json",
      codes "status_head_checkpoint",
    )
    ∷ (
      codes "application/vnd.bytedesk.agent.release-status-head-authentication-evidence.v1+json",
      codes "status_head_authentication",
    )
    ∷ (
      codes "application/vnd.bytedesk.agent.release-status-eligibility-evidence.v1+json",
      codes "release_status_eligibility",
    )
    ∷ (
      codes "application/vnd.bytedesk.agent.release-status-append-resolution.v1+json",
      codes "release_status_append_resolution",
    )
    ∷ (codes "application/vnd.bytedesk.agent.catalog.v1+json", codes "catalog_index")
    ∷ (codes "application/vnd.bytedesk.agent.source.v1+json", codes "agent_source")
    ∷ (codes "application/vnd.bytedesk.agent.skill.v1+json", codes "skill_package")
    ∷ (
      codes "application/vnd.bytedesk.agent.renderer-selection.v1+json",
      codes "renderer_selection",
    )
    ∷ (
      codes "application/vnd.bytedesk.agent.renderer-attempt-authority.v1+json",
      codes "renderer_attempt_authority",
    )
    ∷ (
      codes "application/vnd.bytedesk.agent.renderer-attempt-authentication-evidence.v1+json",
      codes "renderer_attempt_authentication",
    )
    ∷ (
      codes "application/vnd.bytedesk.agent.renderer-execution-receipt.v1+json",
      codes "renderer_execution_receipt",
    )
    ∷ (
      codes "application/vnd.bytedesk.agent.renderer-execution-authentication-evidence.v1+json",
      codes "renderer_execution_authentication",
    )
    ∷ (codes "application/vnd.bytedesk.agent.render-manifest.v1+json", codes "render_manifest")
    ∷ (codes "application/vnd.bytedesk.agent.render.v1+json", codes "harness_render")
    ∷ (
      codes "application/vnd.bytedesk.agent.publication-evidence.v1+json",
      codes "publication_evidence",
    )
    ∷ (
      codes "application/vnd.bytedesk.agent.consumer-authority.v1+json",
      codes "consumer_authority",
    )
    ∷ (codes "application/vnd.bytedesk.agent.skill-approval.v1+json", codes "skill_approval")
    ∷ (
      codes "application/vnd.bytedesk.agent.private-compilation-input.v1+json",
      codes "private_compilation_input",
    )
    ∷ (
      codes "application/vnd.bytedesk.agent.private-input-authentication.v1+json",
      codes "private_input_authentication",
    )
    ∷ (
      codes "application/vnd.bytedesk.agent.consumer-deployment.v1+json",
      codes "consumer_deployment",
    )
    ∷ (
      codes "application/vnd.bytedesk.agent.private-compilation-evidence.v1+json",
      codes "private_compilation_evidence",
    )
    ∷ (codes "application/vnd.bytedesk.agent.runtime-release.v1+json", codes "runtime_release")
    ∷ (
      codes "application/vnd.bytedesk.agent.activation-authorization.v1+json",
      codes "activation_authorization",
    )
    ∷ (
      codes "application/vnd.bytedesk.agent.target-delivery-state.v1+json",
      codes "target_delivery_state",
    )
    ∷ (codes "application/vnd.bytedesk.agent.canary-plan.v1+json", codes "canary_plan")
    ∷ (codes "application/vnd.bytedesk.agent.canary-evidence.v1+json", codes "canary_evidence")
    ∷ (
      codes "application/vnd.bytedesk.agent.authorization-decision-proof.v1+json",
      codes "authorization_decision_proof",
    )
    ∷ (codes "application/vnd.bytedesk.agent.recovery-plan.v1+json", codes "recovery_plan")
    ∷ (
      codes "application/vnd.bytedesk.agent.compatibility.v1+json",
      codes "compatibility_attestation",
    )
    ∷ (codes "application/vnd.bytedesk.agent.evaluation.v1+json", codes "evaluation_attestation")
    ∷ (codes "application/vnd.bytedesk.agent.policy.v1+json", codes "policy_attestation")
    ∷ (codes "application/vnd.bytedesk.agent.receipt.v1+json", codes "deployment_receipt")
    ∷ (codes "application/vnd.bytedesk.agent.readiness.v1+json", codes "readiness_report")
    ∷ []

abbrev evidence_only : List (Text × Text) → List (Text × List Text)
evidence_only [] = []
evidence_only ((media_type, role) ∷ rest) = (media_type, codes "evidence" ∷ []) ∷ evidence_only rest

-- `ARTIFACT_LAYER_ROLES`: the entries of the update stand before those that they replace.
abbrev pub artifact_layer_roles : List (Text × List Text)
artifact_layer_roles =
    (
      codes "application/vnd.bytedesk.agent.contract-bundle.v1+json",
      codes "portable-definition" ∷ codes "evidence" ∷ [],
    )
    ∷ (
      codes "application/vnd.bytedesk.agent.source.v1+json",
      codes "portable-definition" ∷ codes "public-skills" ∷ codes "evidence" ∷ [],
    )
    ∷ (
      codes "application/vnd.bytedesk.agent.skill.v1+json",
      codes "public-skills" ∷ codes "approved-private-skills" ∷ codes "evidence" ∷ [],
    )
    ∷ (
      codes "application/vnd.bytedesk.agent.render.v1+json",
      codes "portable-definition"
          ∷ codes "public-skills"
          ∷ codes "public-render"
          ∷ codes "evidence"
          ∷ [],
    )
    ∷ (codes "application/vnd.bytedesk.agent.consumer-deployment.v1+json", layer_role_order)
    ∷ evidence_only artifact_type_roles
