-- ===== src/Pins/Provider/Tests.antt =====
-- Evidence of a provider, built and verified by scripts/contracts/trust_policy_pins.py.
use bytedesk_agent_delivery.Prelude.{arith}
use bytedesk_agent_delivery.Prelude.{
  ℕ, ◌≡◌, refl, codes, [], ◌∷◌, Option, none, some, Result, ok, err, length, ◌=ₜ◌,
}
use bytedesk_agent_delivery.Digest.{digest}
use bytedesk_agent_delivery.Digest.Hex.{hexdigest}
use bytedesk_agent_delivery.Json.{Value, null, string}
use bytedesk_agent_delivery.Json.Document.{
  text, number, document, find, get, member, equal, equal_int, contains, all_contained, same_set,
  keys, field_names, hashable, size,
}
use bytedesk_agent_delivery.Json.Access.{selected}
use bytedesk_agent_delivery.Authority.{kept, with_profile}
use bytedesk_agent_delivery.Pins.{
  PinError, Platform, pin_set_document_descriptor, pin_set_provider_request_digest,
  provider_evidence_digest, pin_set_provider_authentication_vector,
}
use bytedesk_agent_delivery.Pins.Provider.{
  Adapter, EvidenceRequest, Pinned, new_adapter, add_vectors, has_vector, pinned, evidence_document,
  build_pin_set_provider_evidence, in_order, matches, expected_request, activation,
  verify_activation,
}
use bytedesk_agent_delivery.Pins.Provider.Laws.{Active, verify_activation-Active}
use bytedesk_agent_delivery.Pins.Provider.Live.{Plain, verify_activation-build}

-- The time of a text is its length.
abbrev time_of : Value → Option ℕ
time_of (string t) = some (length t)
time_of _ = none

abbrev platform : Platform
platform = record { sha256 = λ b. b; jcs = λ v. 1 ∷ 2 ∷ []; timestamp = time_of }

abbrev pin_set : Value
pin_set = document (
    ("pinSetId", text "pins")
    ∷ ("scope", text "product")
    ∷ ("consumerId", null)
    ∷ ("revision", number 1)
    ∷ ("pinSetDigest", text "sha256:0102")
    ∷ ("precondition", document (("kind", text "absent") ∷ []))
    ∷ [])

abbrev descriptor : Value
descriptor =
    pin_set_document_descriptor platform (text "repository") pin_set (codes "provider")
      (codes "authority")

abbrev request : EvidenceRequest
request = record {
  schema = null;
  evidence_id = text "e";
  request_id = text "r";
  idempotency_key = text "k";
  provider_request_id = text "pr";
  provider_audit_id = text "pa";
  activated_at = text "1";
  observed_at = text "22";
}

abbrev vector : Value
vector =
    pin_set_provider_authentication_vector (codes "v") (codes "provider") (codes "authority")
      (codes "pr") (codes "pa") (codes "sha256:0102") (codes "sha256:0102")

abbrev value_of : Result PinError Value → Value
value_of (ok v) = v
value_of (err e) = null

abbrev evidence : Value
evidence = value_of (build_pin_set_provider_evidence platform request pin_set descriptor)

abbrev adapter : Adapter
adapter = record {
  provider_id = codes "provider";
  provider_authority_digest = codes "authority";
  vectors = vector ∷ [];
}

new_adapter_run : new_adapter (codes "provider") (codes "authority") (vector ∷ []) ≡ ok adapter
unfolding new_adapter add_vectors has_vector equal same_set keys field_names all_contained contains
    hashable find get member ◌=ₜ◌
new_adapter_run = refl

abbrev verified : Result PinError Value
verified = verify_activation platform adapter pin_set descriptor evidence (text "333")

verify_activation_run : verified ≡ ok (value_of verified)
unfolding verify_activation build_pin_set_provider_evidence pin_set_document_descriptor pinned
    evidence_document pin_set_provider_request_digest provider_evidence_digest selected with_profile
    kept expected_request matches activation in_order equal equal_int size contains find get member
    digest hexdigest ◌=ₜ◌
verify_activation_run = refl

verify_activation-Active_example : Active platform adapter pin_set descriptor evidence (text "333")
verify_activation-Active_example =
    verify_activation-Active platform (codes "provider") (codes "authority") (vector ∷ []) adapter
      pin_set descriptor evidence (text "333") new_adapter_run verify_activation_run

abbrev repeated : Pinned
repeated = record {
  id = text "pins";
  scope = text "product";
  consumer_id = null;
  revision = number 1;
  own_digest = text "sha256:0102";
  precondition = document (("kind", text "absent") ∷ []);
}

repeated_is : pinned pin_set ≡ ok repeated
unfolding pinned find member ◌=ₜ◌
repeated_is = refl

repeated-Plain : Plain repeated
unfolding equal equal_int size find ◌=ₜ◌
repeated-Plain = record {
  plain_id = refl;
  plain_scope = refl;
  plain_consumer = refl;
  plain_revision = refl;
  plain_digest = refl;
  plain_precondition = refl;
}

verify_activation-build_example :
    (built : Value) × (out : Value) × (build_pin_set_provider_evidence platform request pin_set
        descriptor
      ≡ ok built)
    × (verify_activation platform adapter pin_set descriptor built (text "333") ≡ ok out)
    × (get (codes "vectorId") out ≡ text "v")
unfolding equal pinned evidence_document pin_set_document_descriptor pin_set_provider_request_digest
    provider_evidence_digest selected with_profile kept matches contains find get member digest
    hexdigest ◌=ₜ◌
verify_activation-build_example =
    verify_activation-build platform adapter request (text "repository") pin_set repeated
      (text "333") vector (text "v") 1 2 3 repeated_is repeated-Plain refl refl refl refl refl
      (omega arith) (omega arith) refl refl
