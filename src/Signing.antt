-- ===== src/Signing.antt =====
-- scripts/contracts/signing_authority.py: signer identities and provider evidence. RFC 8785
-- canonicalization is the parameter `jcs`, SHA-256 the parameter `sha256`.
pub mod Laws
mod Tests
use bytedesk_agent_delivery.Prelude.{
  ℕ, Bytes, Text, codes, Bool, true, false, not, ◌&&◌, ◌||◌, List, [], ◌∷◌, ◌++◌, Option, none,
  some, Result, ok, err, ◌>>=◌, ◌>>◌, require, ◌=ₜ◌, if◌then◌else◌,
}
use bytedesk_agent_delivery.Digest.{digest}
use bytedesk_agent_delivery.Json.{Value, string, array, object, Items, nil, cons}
use bytedesk_agent_delivery.Json.Document.{text, document, get, equal, contains, same_set, keys}

-- The messages of `ValueError`.
pub data SigningError : Type 0 where
  open_signer kms_contract_bundle inexact_trust_policy no_single_signer : SigningError
  not_a_kms_key purpose_differs : SigningError

abbrev pub contract_bundle_release_purpose : Text
contract_bundle_release_purpose = codes "contract-bundle-release-v1"

abbrev pub contract_bundle_media_types : List Text
contract_bundle_media_types =
    codes "application/vnd.bytedesk.agent.contract-bundle.v1+json"
    ∷ codes "application/vnd.bytedesk.agent.contract-bundle.v1+tar"
    ∷ []

-- `required` of contracts/schemas/v1/signer-identity.schema.json
abbrev pub signer_identity_common_fields : List Text
signer_identity_common_fields =
    codes "purpose"
    ∷ codes "credentialKind"
    ∷ codes "algorithm"
    ∷ codes "workloadIdentity"
    ∷ codes "claims"
    ∷ []

-- `SIGNER_IDENTITY_FIELDS_BY_CREDENTIAL.get(kind)`
unfoldable pub signer_identity_fields : Value → Option (List Text)
unfolding equal
signer_identity_fields kind =
    if equal kind (text "kms_key")
    then some (signer_identity_common_fields ++ codes "keyVersion" ∷ codes "publicKeyDigest" ∷ [])
    else if equal kind (text "sigstore_keyless")
    then some (signer_identity_common_fields ++ codes "trustedRootDigest" ∷ [])
    else none

abbrev pub exact_fields : Option (List Text) → Value → Bool
exact_fields none signer = false
exact_fields (some expected) signer = same_set (keys signer) expected

-- `_require_exact_signer`
unfoldable pub require_exact_signer : Value → Result SigningError (Unit {0})
unfolding signer_identity_fields get same_set keys
require_exact_signer signer =
    require (exact_fields (signer_identity_fields (get (codes "credentialKind") signer)) signer)
      open_signer

-- `_reject_contract_bundle_kms_authority`
unfoldable pub reject_contract_bundle_kms_authority : Text → Text → Result SigningError (Unit {0})
unfolding contains ◌=ₜ◌
reject_contract_bundle_kms_authority purpose subject_media_type =
    require
      (not (
        purpose =ₜ contract_bundle_release_purpose
        || contains subject_media_type contract_bundle_media_types))
      kms_contract_bundle

unfoldable pub signer_identity_preimage : Value → Result SigningError Value
signer_identity_preimage signer = do
  require_exact_signer signer
  ok (
      document
        (("profile", text "bytedesk.authenticated-signer-identity/1") ∷ ("signer", signer) ∷ []))

unfoldable pub signer_authority_binding_preimage : Value → Value → Text → Result SigningError Value
signer_authority_binding_preimage signer trust_policy repository = do
  require_exact_signer signer
  require (same_set (keys trust_policy) (codes "id" ∷ codes "digest" ∷ [])) inexact_trust_policy
  ok (
      document (
        ("profile", text "bytedesk.signer-authority-binding/1")
        ∷ ("trustPolicy", trust_policy)
        ∷ ("repository", string repository)
        ∷ ("signer", signer)
        ∷ []))

-- What `exact_policy_signer` asks of a signer.
pub record SignerQuery : Type 0 where
  pub purpose : Text
  pub subject_media_type : Text
  pub key_version : Text
  pub algorithm : Text
  pub public_key_digest : Text

unfoldable pub matches_query : SignerQuery → Value → Bool
unfolding equal get
matches_query q signer =
    equal (get (codes "purpose") signer) (string q.purpose)
    && (equal (get (codes "credentialKind") signer) (text "kms_key")
        && (equal (get (codes "keyVersion") signer) (string q.key_version)
            && (equal (get (codes "algorithm") signer) (string q.algorithm)
                && equal (get (codes "publicKeyDigest") signer) (string q.public_key_digest))))

-- `policy.get("signers", [])`, where the policy's signers are a list.
unfoldable pub signers_of : Value → Items
signers_of (array items) = items
signers_of _ = nil

unfoldable pub matching : SignerQuery → Items → List Value
matching q nil = []
matching q (cons signer rest) =
    if matches_query q signer then signer ∷ matching q rest else matching q rest

abbrev pub only_match : List Value → Result SigningError Value
only_match (signer ∷ []) = ok signer
only_match _ = err no_single_signer

unfoldable pub exact_policy_signer : Value → SignerQuery → Result SigningError Value
exact_policy_signer policy q = do
  reject_contract_bundle_kms_authority q.purpose q.subject_media_type
  signer ← only_match (matching q (signers_of (get (codes "signers") policy)))
  require_exact_signer signer
  ok signer

-- The arguments of `build_signer_authentication_evidence` besides the signer.
pub record EvidenceRequest : Type 0 where
  pub schema_descriptor : Value
  pub purpose : Text
  pub subject_media_type : Text
  pub request_id : Text
  pub request_digest : Text
  pub provider_request_id : Text
  pub provider_audit_id : Text
  pub issued_at : Text
  pub trust_policy : Value

unfoldable pub build_signer_authentication_evidence :
    EvidenceRequest → Value → Result SigningError Value
build_signer_authentication_evidence r signer = do
  reject_contract_bundle_kms_authority r.purpose r.subject_media_type
  require_exact_signer signer
  require (equal (get (codes "credentialKind") signer) (text "kms_key")) not_a_kms_key
  require (equal (get (codes "purpose") signer) (string r.purpose)) purpose_differs
  ok (
      document (
        ("contract", text "bytedesk.signer-authentication-evidence/1")
        ∷ ("schema", r.schema_descriptor)
        ∷ ("purpose", string r.purpose)
        ∷ ("requestId", string r.request_id)
        ∷ ("requestDigest", string r.request_digest)
        ∷ ("providerRequestId", string r.provider_request_id)
        ∷ ("providerAuditId", string r.provider_audit_id)
        ∷ ("keyVersion", get (codes "keyVersion") signer)
        ∷ ("algorithm", get (codes "algorithm") signer)
        ∷ ("publicKeyDigest", get (codes "publicKeyDigest") signer)
        ∷ ("authenticatedSigner", signer)
        ∷ ("issuedAt", string r.issued_at)
        ∷ ("trustPolicy", r.trust_policy)
        ∷ []))

module _ (sha256 : Bytes → Bytes) (jcs : Value → Bytes) where
  unfoldable pub signer_identity_digest : Value → Result SigningError Text
  signer_identity_digest signer = do
    preimage ← signer_identity_preimage signer
    ok (digest sha256 (jcs preimage))

  unfoldable pub signer_authority_binding_digest : Value → Value → Text → Result SigningError Text
  signer_authority_binding_digest signer trust_policy repository = do
    preimage ← signer_authority_binding_preimage signer trust_policy repository
    ok (digest sha256 (jcs preimage))
