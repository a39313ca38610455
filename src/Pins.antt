-- ===== src/Pins.antt =====
-- scripts/contracts/trust_policy_pins.py: the preimages and digests of pin sets, the evidence of
-- their provider, and the first revision of a pin set.
pub mod Provider
pub mod PinSet
use bytedesk_agent_delivery.Prelude.{
  ℕ, Bytes, Text, codes, String, Bool, true, false, List, [], ◌∷◌, Option, none, some, map, Result,
  ok, err, ◌>>=◌, ◌>>◌, require, length, pos,
}
use bytedesk_agent_delivery.Digest.{digest}
use bytedesk_agent_delivery.Json.{Value, null, string, array, object, Items, nil, cons, Fields}
use bytedesk_agent_delivery.Json.Document.{text, number, texts, document, get, keys, all_contained}
use bytedesk_agent_delivery.Json.Access
use bytedesk_agent_delivery.Json.Access.{selected}
use bytedesk_agent_delivery.Authority.{with_profile}

-- The codes of `TrustPolicyPinError`, and the exceptions that the code does not catch.
pub data PinError : Type 0 where
  timestamp_invalid fields_invalid provider_vector_invalid provider_descriptor_mismatch : PinError
  provider_evidence_mismatch provider_authentication_failed digest_mismatch : PinError
  scope_mismatch precondition_mismatch incomplete entry_invalid history_invalid : PinError
  history_order_invalid revocations_invalid effective_invalid not_effective : PinError
  policy_revoked retired_for_new_use use_invalid policy_mismatch : PinError
  not_pinned_at_signing_time : PinError
  -- a `KeyError`, `TypeError` or `AttributeError`
  python_error : PinError

-- What the code takes from its libraries.
pub record Platform : Type 0 where
  pub sha256 : Bytes → Bytes
  -- `rfc8785.dumps`
  pub jcs : Value → Bytes
  -- `datetime.fromisoformat` in UTC, as a number; `none` where the value is no time with an offset
  pub timestamp : Value → Option ℕ

abbrev pub pin_set_fields : List String
pin_set_fields =
    "pinSetId" ∷ "scope" ∷ "consumerId" ∷ "revision" ∷ "precondition" ∷ "currentForNewUse"
    ∷ "historicalVerification" ∷ "revocations" ∷ "effective" ∷ []

abbrev pub pin_set_media_type : Text
pin_set_media_type = codes "application/vnd.bytedesk.agent.trust-policy-pin-set.v1+json"

abbrev pub provider_evidence_fields : List String
provider_evidence_fields =
    "evidenceId" ∷ "requestId" ∷ "idempotencyKey" ∷ "requestDigest" ∷ "pinSet" ∷ "pinSetId"
    ∷ "scope" ∷ "consumerId" ∷ "revision" ∷ "pinSetDigest" ∷ "precondition" ∷ "providerId"
    ∷ "providerAuthorityDigest" ∷ "providerRequestId" ∷ "providerAuditId" ∷ "result" ∷ "activatedAt"
    ∷ "readback" ∷ []

abbrev pub item : Text → Value → Result PinError Value
item = Access.item python_error

-- `document[k][l]…`
abbrev pub path : Value → List String → Result PinError Value
path = Access.path python_error

-- `document.get(key)`, which a value that is no `dict` does not have.
abbrev pub got : String → Value → Result PinError Value
got k (object fields) = ok (get (codes k) (object fields))
got k _ = err python_error

abbrev pub text_or_null : Option Text → Value
text_or_null none = null
text_or_null (some t) = string t

abbrev pub timestamp_or : Option ℕ → Result PinError ℕ
timestamp_or none = err timestamp_invalid
timestamp_or (some t) = ok t

-- `pin_set_provider_authentication_vector`
abbrev pub pin_set_provider_authentication_vector :
    Text → Text → Text → Text → Text → Text → Text → Value
pin_set_provider_authentication_vector vector_id provider_id authority request audit request_digest
      pin_set_digest =
    document (
      ("vectorId", string vector_id)
      ∷ ("providerId", string provider_id)
      ∷ ("providerAuthorityDigest", string authority)
      ∷ ("providerRequestId", string request)
      ∷ ("providerAuditId", string audit)
      ∷ ("requestDigest", string request_digest)
      ∷ ("pinSetDigest", string pin_set_digest)
      ∷ ("decision", text "authenticated")
      ∷ [])

-- What a request to a provider is about.
pub record ProviderRequest : Type 0 where
  pub request_id : Value
  pub idempotency_key : Value
  pub pin_set_descriptor : Value
  pub pin_set_digest_value : Value
  pub precondition : Value
  pub provider_id : Value
  pub provider_authority_digest : Value
  pub operation_time : Value

abbrev pub no_digest : Text
no_digest = codes "sha256:0000000000000000000000000000000000000000000000000000000000000000"

-- `currentForNewUse`: a purpose without a reference is a `KeyError`.
unfoldable pub current_entries : List Text → (Text → Option Value) → Result PinError Items
current_entries [] references = ok nil
current_entries (purpose ∷ purposes) references = do
  reference ← Access.present python_error (references purpose)
  rest ← current_entries purposes references
  ok (cons (document (("purpose", string purpose) ∷ ("trustPolicy", reference) ∷ [])) rest)

unfoldable pub initial_document :
    Value → Text → Text → Option Text → Items → Value → Value → Text → Value
initial_document schema pin_set_id scope consumer_id entries not_before not_after own_digest =
    document (
      ("contract", text "bytedesk.trust-policy-pin-set/1")
      ∷ ("schema", schema)
      ∷ ("pinSetId", string pin_set_id)
      ∷ ("scope", string scope)
      ∷ ("consumerId", text_or_null consumer_id)
      ∷ ("revision", number 1)
      ∷ ("precondition", document (("kind", text "absent") ∷ []))
      ∷ ("currentForNewUse", array entries)
      ∷ ("historicalVerification", array nil)
      ∷ (
        "revocations",
        document (
            ("policyDigests", array nil)
            ∷ ("keyVersions", array nil)
            ∷ ("publicKeyDigests", array nil)
            ∷ []),
      )
      ∷ ("effective", document (("notBefore", not_before) ∷ ("notAfter", not_after) ∷ []))
      ∷ ("pinSetDigest", string own_digest)
      ∷ [])

module _ (p : Platform) where
  -- `_digest`
  abbrev pub digest_of : Value → Text
  digest_of value = digest p.sha256 (p.jcs value)

  -- `_timestamp`
  abbrev pub parse_timestamp : Value → Result PinError ℕ
  parse_timestamp value = timestamp_or (p.timestamp value)

  unfoldable pub pin_set_preimage : Value → Result PinError Value
  unfolding all_contained keys selected with_profile
  pin_set_preimage pin_set = do
    require (all_contained (map codes pin_set_fields) (keys pin_set)) fields_invalid
    fields ← selected python_error pin_set_fields pin_set
    ok (with_profile (text "bytedesk.trust-policy-pin-set-digest/1") fields)

  unfoldable pub pin_set_digest : Value → Result PinError Text
  unfolding pin_set_preimage
  pin_set_digest pin_set = do preimage ← pin_set_preimage pin_set; ok (digest_of preimage)

  unfoldable pub pin_set_document_descriptor : Value → Value → Text → Text → Value
  pin_set_document_descriptor repository pin_set provider_id provider_authority_digest = document (
      ("repository", repository)
      ∷ ("digest", string (digest_of pin_set))
      ∷ ("mediaType", string pin_set_media_type)
      ∷ ("size", number (length (p.jcs pin_set)))
      ∷ ("providerId", string provider_id)
      ∷ ("providerAuthorityDigest", string provider_authority_digest)
      ∷ [])

  unfoldable pub pin_set_provider_request_digest : ProviderRequest → Text
  pin_set_provider_request_digest r = digest_of (
      document (
        ("profile", text "bytedesk.trust-policy-pin-set-provider-request/1")
        ∷ ("requestId", r.request_id)
        ∷ ("idempotencyKey", r.idempotency_key)
        ∷ ("pinSet", r.pin_set_descriptor)
        ∷ ("pinSetDigest", r.pin_set_digest_value)
        ∷ ("precondition", r.precondition)
        ∷ ("providerId", r.provider_id)
        ∷ ("providerAuthorityDigest", r.provider_authority_digest)
        ∷ ("operationTime", r.operation_time)
        ∷ []))

  -- The digest of the evidence of a provider, over the members that it binds.
  unfoldable pub provider_evidence_digest : Value → Result PinError Text
  unfolding selected with_profile
  provider_evidence_digest evidence = do
    fields ← selected python_error provider_evidence_fields evidence
    ok (
        digest_of
          (with_profile (text "bytedesk.trust-policy-pin-set-provider-evidence-digest/1") fields))

  unfoldable pub build_initial_trust_policy_pin_set :
      Value
      → Text
      → Text
      → Option Text
      → List Text
      → (Text → Option Value)
      → Value
      → Value
      → Result PinError Value
  unfolding current_entries initial_document pin_set_digest
  build_initial_trust_policy_pin_set schema pin_set_id scope consumer_id purposes references
        not_before not_after =
      do
        entries ← current_entries purposes references
        let draft =
            initial_document schema pin_set_id scope consumer_id entries not_before not_after
              no_digest
        own_digest ← pin_set_digest draft
        ok (
            initial_document schema pin_set_id scope consumer_id entries not_before not_after
              own_digest)

  abbrev pub build_initial_product_pin_set :
      Value → Text → List Text → (Text → Option Value) → Value → Value → Result PinError Value
  build_initial_product_pin_set schema pin_set_id purposes references not_before not_after =
      build_initial_trust_policy_pin_set schema pin_set_id (codes "product") none purposes
        references not_before not_after
