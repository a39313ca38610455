-- ===== src/Pins/Provider.antt =====
-- scripts/contracts/trust_policy_pins.py: the evidence of a provider, and
-- `TrustedTrustPolicyProviderAdapter`, which verifies it.
pub mod Laws
pub mod Live
mod Tests
use bytedesk_agent_delivery.Prelude.{
  ℕ, Text, codes, String, Bool, true, false, not, ◌&&◌, ◌||◌, List, [], ◌∷◌, ◌++◌, Option, none,
  some, map, Result, ok, err, ◌>>=◌, ◌>>◌, require, leb, if◌then◌else◌,
}
use bytedesk_agent_delivery.Json.{Value, null, string, array, object}
use bytedesk_agent_delivery.Json.Document.{text, document, get, equal, keys, same_set, hashable}
use bytedesk_agent_delivery.Json.Access.{same, all_of, and_then}
use bytedesk_agent_delivery.Pins.{
  PinError, provider_vector_invalid, provider_descriptor_mismatch, provider_evidence_mismatch,
  provider_authentication_failed, python_error, Platform, no_digest, item, path, got,
  parse_timestamp, digest_of, pin_set_document_descriptor, ProviderRequest,
  pin_set_provider_request_digest, provider_evidence_digest,
}

abbrev pub vector_fields : List Text
vector_fields = map codes (
    "vectorId" ∷ "providerId" ∷ "providerAuthorityDigest" ∷ "providerRequestId" ∷ "providerAuditId"
    ∷ "requestDigest" ∷ "pinSetDigest" ∷ "decision" ∷ [])

-- `TrustedTrustPolicyProviderAdapter`; the vectors are in the order in which they were added.
pub record Adapter : Type 0 where
  pub provider_id : Text
  pub provider_authority_digest : Text
  pub vectors : List Value

-- Whether a vector with the identifier has been added.
unfoldable pub has_vector : Value → List Value → Bool
unfolding equal get
has_vector id [] = false
has_vector id (v ∷ vs) = equal (get (codes "vectorId") v) id || has_vector id vs

abbrev pub is_new : List Value → Value → Result PinError Bool
is_new vectors vector = do
  id ← path vector ("vectorId" ∷ [])
  require (hashable id) python_error
  ok (not (has_vector id vectors))

-- The conditions on one authentication vector.
abbrev pub vector_conditions : Text → Text → List Value → Value → List (Result PinError Bool)
vector_conditions provider_id authority vectors vector =
    ok (same_set (keys vector) vector_fields)
    ∷ same (path vector ("decision" ∷ [])) (ok (text "authenticated"))
    ∷ same (path vector ("providerId" ∷ [])) (ok (string provider_id))
    ∷ same (path vector ("providerAuthorityDigest" ∷ [])) (ok (string authority))
    ∷ is_new vectors vector
    ∷ []

-- The loop of `__init__`.
unfoldable pub add_vectors : Text → Text → List Value → List Value → Result PinError (List Value)
unfolding equal same_set keys hashable has_vector
add_vectors provider_id authority vectors [] = ok vectors
add_vectors provider_id authority vectors (vector ∷ rest) = do
  valid ← all_of (vector_conditions provider_id authority vectors vector)
  require valid provider_vector_invalid
  add_vectors provider_id authority (vectors ++ (vector ∷ [])) rest

unfoldable pub new_adapter : Text → Text → List Value → Result PinError Adapter
unfolding add_vectors
new_adapter provider_id authority authentication_vectors = do
  added ← add_vectors provider_id authority [] authentication_vectors
  ok (record { provider_id = provider_id; provider_authority_digest = authority; vectors = added })

-- The arguments of `build_pin_set_provider_evidence` that are texts or times.
pub record EvidenceRequest : Type 0 where
  pub schema : Value
  pub evidence_id : Value
  pub request_id : Value
  pub idempotency_key : Value
  pub provider_request_id : Value
  pub provider_audit_id : Value
  pub activated_at : Value
  pub observed_at : Value

-- The members of a pin set that its evidence repeats.
pub record Pinned : Type 0 where
  pub id : Value
  pub scope : Value
  pub consumer_id : Value
  pub revision : Value
  pub own_digest : Value
  pub precondition : Value

unfoldable pub pinned : Value → Result PinError Pinned
pinned pin_set = do
  id ← path pin_set ("pinSetId" ∷ [])
  scope ← path pin_set ("scope" ∷ [])
  consumer_id ← path pin_set ("consumerId" ∷ [])
  revision ← path pin_set ("revision" ∷ [])
  own_digest ← path pin_set ("pinSetDigest" ∷ [])
  precondition ← path pin_set ("precondition" ∷ [])
  ok (record {
    id = id;
    scope = scope;
    consumer_id = consumer_id;
    revision = revision;
    own_digest = own_digest;
    precondition = precondition;
  })

unfoldable pub evidence_document :
    EvidenceRequest → Pinned → Value → Value → Value → Value → Text → Text → Value
evidence_document r s descriptor provider_id authority raw request_digest own_digest = document (
    ("contract", text "bytedesk.trust-policy-pin-set-provider-evidence/1")
    ∷ ("schema", r.schema)
    ∷ ("evidenceId", r.evidence_id)
    ∷ ("requestId", r.request_id)
    ∷ ("idempotencyKey", r.idempotency_key)
    ∷ ("requestDigest", string request_digest)
    ∷ ("pinSet", descriptor)
    ∷ ("pinSetId", s.id)
    ∷ ("scope", s.scope)
    ∷ ("consumerId", s.consumer_id)
    ∷ ("revision", s.revision)
    ∷ ("pinSetDigest", s.own_digest)
    ∷ ("precondition", s.precondition)
    ∷ ("providerId", provider_id)
    ∷ ("providerAuthorityDigest", authority)
    ∷ ("providerRequestId", r.provider_request_id)
    ∷ ("providerAuditId", r.provider_audit_id)
    ∷ ("result", text "active")
    ∷ ("activatedAt", r.activated_at)
    ∷ (
      "readback",
      document (("pinSet", descriptor) ∷ ("rawDigest", raw) ∷ ("observedAt", r.observed_at) ∷ []),
    )
    ∷ ("evidenceDigest", string own_digest)
    ∷ [])

-- The conditions on the vector of an activation.
abbrev pub match_conditions : Value → Value → Text → Value → List (Result PinError Bool)
match_conditions pin_set evidence request_digest vector =
    same (path vector ("providerRequestId" ∷ [])) (path evidence ("providerRequestId" ∷ []))
    ∷ same (path vector ("providerAuditId" ∷ [])) (path evidence ("providerAuditId" ∷ []))
    ∷ same (path vector ("requestDigest" ∷ [])) (ok (string request_digest))
    ∷ same (path vector ("pinSetDigest" ∷ [])) (path pin_set ("pinSetDigest" ∷ []))
    ∷ []

unfoldable pub matches : Value → Value → Text → List Value → Result PinError (List Value)
unfolding equal
matches pin_set evidence request_digest [] = ok []
matches pin_set evidence request_digest (vector ∷ vectors) = do
  matching ← all_of (match_conditions pin_set evidence request_digest vector)
  rest ← matches pin_set evidence request_digest vectors
  ok (if matching then vector ∷ rest else rest)

-- The only one of the vectors.
abbrev pub only : List Value → Result PinError Value
only (vector ∷ []) = ok vector
only _ = err provider_authentication_failed

unfoldable pub expected_request : Adapter → Value → Value → Value → Result PinError ProviderRequest
expected_request a pin_set descriptor evidence = do
  request_id ← path evidence ("requestId" ∷ [])
  idempotency_key ← path evidence ("idempotencyKey" ∷ [])
  own_digest ← path pin_set ("pinSetDigest" ∷ [])
  precondition ← path pin_set ("precondition" ∷ [])
  activated_at ← path evidence ("activatedAt" ∷ [])
  ok (record {
    request_id = request_id;
    idempotency_key = idempotency_key;
    pin_set_descriptor = descriptor;
    pin_set_digest_value = own_digest;
    precondition = precondition;
    provider_id = string a.provider_id;
    provider_authority_digest = string a.provider_authority_digest;
    operation_time = activated_at;
  })

unfoldable pub activation : Adapter → Value → Value → Value → Value → Result PinError Value
activation a vector pin_set descriptor evidence = do
  vector_id ← path vector ("vectorId" ∷ [])
  own_digest ← path pin_set ("pinSetDigest" ∷ [])
  evidence_digest ← path evidence ("evidenceDigest" ∷ [])
  readback_at ← path evidence ("readback" ∷ "observedAt" ∷ [])
  ok (
      document (
        ("decision", text "active")
        ∷ ("vectorId", vector_id)
        ∷ ("pinSet", descriptor)
        ∷ ("pinSetDigest", own_digest)
        ∷ ("providerAuthorityDigest", string a.provider_authority_digest)
        ∷ ("providerEvidenceDigest", evidence_digest)
        ∷ ("readbackAt", readback_at)
        ∷ []))

module _ (p : Platform) where
  unfoldable pub build_pin_set_provider_evidence :
      EvidenceRequest → Value → Value → Result PinError Value
  unfolding pinned evidence_document pin_set_provider_request_digest provider_evidence_digest
  build_pin_set_provider_evidence r pin_set descriptor = do
    provider_id ← path descriptor ("providerId" ∷ [])
    authority ← path descriptor ("providerAuthorityDigest" ∷ [])
    s ← pinned pin_set
    let request_digest = pin_set_provider_request_digest p (record {
      request_id = r.request_id;
      idempotency_key = r.idempotency_key;
      pin_set_descriptor = descriptor;
      pin_set_digest_value = s.own_digest;
      precondition = s.precondition;
      provider_id = provider_id;
      provider_authority_digest = authority;
      operation_time = r.activated_at;
    })
    raw ← path descriptor ("digest" ∷ [])
    let draft = evidence_document r s descriptor provider_id authority raw request_digest no_digest
    own_digest ← provider_evidence_digest p draft
    ok (evidence_document r s descriptor provider_id authority raw request_digest own_digest)

  -- `_timestamp(a) <= _timestamp(b) <= _timestamp(c)`
  unfoldable pub in_order :
      Result PinError Value → Result PinError Value → Value → Result PinError Bool
  in_order m n last = do
    first ← m
    s ← parse_timestamp p first
    second ← n
    t ← parse_timestamp p second
    and_then (leb s t) (parse_timestamp p last >>= λ u. ok (leb t u))

  -- The conditions on the evidence of an activation.
  abbrev pub evidence_conditions :
      Adapter → Value → Value → Value → Text → Text → Value → List (Result PinError Bool)
  evidence_conditions a pin_set descriptor evidence request_digest own_digest verification_time =
      same (path evidence ("pinSet" ∷ [])) (ok descriptor)
      ∷ same (path evidence ("pinSetId" ∷ [])) (path pin_set ("pinSetId" ∷ []))
      ∷ same (path evidence ("scope" ∷ [])) (path pin_set ("scope" ∷ []))
      ∷ same (path evidence ("consumerId" ∷ [])) (path pin_set ("consumerId" ∷ []))
      ∷ same (path evidence ("revision" ∷ [])) (path pin_set ("revision" ∷ []))
      ∷ same (path evidence ("pinSetDigest" ∷ [])) (path pin_set ("pinSetDigest" ∷ []))
      ∷ same (path evidence ("precondition" ∷ [])) (path pin_set ("precondition" ∷ []))
      ∷ same (path evidence ("providerId" ∷ [])) (ok (string a.provider_id))
      ∷ same (path evidence ("providerAuthorityDigest" ∷ []))
          (ok (string a.provider_authority_digest))
      ∷ same (path evidence ("requestDigest" ∷ [])) (ok (string request_digest))
      ∷ same (path evidence ("result" ∷ [])) (ok (text "active"))
      ∷ same (path evidence ("readback" ∷ [])) (do
        observed_at ← path evidence ("readback" ∷ "observedAt" ∷ [])
        ok (
            document (
              ("pinSet", descriptor)
              ∷ ("rawDigest", get (codes "digest") descriptor)
              ∷ ("observedAt", observed_at)
              ∷ [])))
      ∷ same (path evidence ("evidenceDigest" ∷ [])) (ok (string own_digest))
      ∷ in_order (path evidence ("activatedAt" ∷ []))
          (path evidence ("readback" ∷ "observedAt" ∷ [])) verification_time
      ∷ []

  unfoldable pub verify_activation : Adapter → Value → Value → Value → Value → Result PinError Value
  unfolding equal pin_set_document_descriptor expected_request pin_set_provider_request_digest
      provider_evidence_digest in_order matches activation
  verify_activation a pin_set descriptor evidence verification_time = do
    repository ← path descriptor ("repository" ∷ [])
    let expected =
        pin_set_document_descriptor p repository pin_set a.provider_id a.provider_authority_digest
    require (equal descriptor expected) provider_descriptor_mismatch
    request ← expected_request a pin_set expected evidence
    let request_digest = pin_set_provider_request_digest p request
    own_digest ← provider_evidence_digest p evidence
    valid ← all_of (
        evidence_conditions a pin_set expected evidence request_digest own_digest verification_time)
    require valid provider_evidence_mismatch
    found ← matches pin_set evidence request_digest a.vectors
    vector ← only found
    activation a vector pin_set expected evidence
