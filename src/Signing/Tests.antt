-- ===== src/Signing/Tests.antt =====
-- A run of `exact_policy_signer` of scripts/contracts/signing_authority.py.
use bytedesk_agent_delivery.Prelude.{◌≡◌, refl, Text, codes, [], ◌∷◌, ok, ◌=ₜ◌}
use bytedesk_agent_delivery.Json.{Value, array, nil, cons}
use bytedesk_agent_delivery.Json.Document.{
  document, text, get, find, equal, contains, all_contained, same_set, field_names, keys,
}
use bytedesk_agent_delivery.Signing.{
  SignerQuery, signer_identity_fields, require_exact_signer, reject_contract_bundle_kms_authority,
  matches_query, signers_of, matching, exact_policy_signer,
}
use bytedesk_agent_delivery.Signing.Laws.{Selected, exact_policy_signer-only}

abbrev signer_of : Text → Value
signer_of purpose = document (
    ("purpose", Value.string purpose)
    ∷ ("credentialKind", text "kms_key")
    ∷ ("algorithm", text "ed25519")
    ∷ ("workloadIdentity", text "w")
    ∷ ("claims", document [])
    ∷ ("keyVersion", text "1")
    ∷ ("publicKeyDigest", text "sha256:00")
    ∷ [])

abbrev release_signer : Value
release_signer = signer_of (codes "release-v1")

abbrev policy : Value
policy =
    document
      (("signers", array (cons (signer_of (codes "audit-v1")) (cons release_signer nil))) ∷ [])

abbrev query : SignerQuery
query = record {
  purpose = codes "release-v1";
  subject_media_type = codes "application/json";
  key_version = codes "1";
  algorithm = codes "ed25519";
  public_key_digest = codes "sha256:00";
}

selected : exact_policy_signer policy query ≡ ok release_signer
unfolding exact_policy_signer reject_contract_bundle_kms_authority matching matches_query signers_of
    require_exact_signer signer_identity_fields get find equal contains all_contained same_set
    field_names keys ◌=ₜ◌
selected = refl

exact_policy_signer-only_example : Selected policy query release_signer
exact_policy_signer-only_example = exact_policy_signer-only policy query selected
