-- ===== src/Eligibility/Tests.antt =====
-- A run of the builder of scripts/contracts/release_status_eligibility.py.
use bytedesk_agent_delivery.Prelude.{
  ℕ, ◌≡◌, refl, Text, codes, true, false, List, [], ◌∷◌, Option, none, some, Result, ok, err, All,
  length, String, sort, text_less, texts_less, texts_equal, ◌=ₜ◌,
}
use bytedesk_agent_delivery.Digest.{strip_prefix}
use bytedesk_agent_delivery.Json.{Value, null, string, array}
use bytedesk_agent_delivery.Json.Document.{
  text, texts, document, find, get, member, equal, contains, same_set, keys,
}
use bytedesk_agent_delivery.Authority.{is_object, kept, with_profile}
use bytedesk_agent_delivery.Eligibility.{EligibilityError, Builder}
use bytedesk_agent_delivery.Eligibility.Entry.{
  entry, check_subject, check_status, check_head, check_freshness, check_authentication,
  check_inclusion, check_consistency, check_verification, is_digest_text, not_after, within,
}
use bytedesk_agent_delivery.Json.Access.{selected}
use bytedesk_agent_delivery.Eligibility.Build.{
  Built, excluded_fields, product_purpose, build, stage_purpose, check_pin_set, entries, keyed,
  ordering, has_key, unique_keys, items_of, check_renderers, seal, check_authority,
  eligibility_document, eligibility_preimage, is_empty,
}
use bytedesk_agent_delivery.Eligibility.Laws.{Current}
use bytedesk_agent_delivery.Eligibility.Eligible.{build-Current, build-Scope, Scope}

-- The time of a text is its length.
abbrev time_of : Value → Option ℕ
time_of (string t) = some (length t)
time_of _ = none

abbrev evidence : Value
evidence = document (
    ("pinSet", null)
    ∷ ("pinSetDigest", text "sha256:01")
    ∷ ("consumerId", null)
    ∷ ("readback", document (("observedAt", text "1") ∷ []))
    ∷ [])

abbrev schema : Value
schema = document (
    (
      "x-bytedesk-digestAuthority",
      document (
          ("profile", text "bytedesk.release-status-eligibility-evidence-digest/1")
          ∷ ("exclude", array (texts excluded_fields))
          ∷ []),
    )
    ∷ [])

abbrev builder : Builder
builder = record {
  schema_descriptor = λ n. null;
  artifact_descriptor = λ r m d p. null;
  signing_result = λ p d m i t r. null;
  canonical_digest = λ v. codes "sha256:00";
  timestamp = time_of;
  eligibility_schema = schema;
  trust_policy = document (("id", string product_purpose) ∷ []);
  repository = codes "r";
  consumer_id = none;
  pin_set_descriptor = null;
  pin_set_digest = codes "sha256:01";
  pin_set_provider_evidence = evidence;
  registers = true;
}

abbrev described : Value
described = document (("digest", text "sha256:00") ∷ [])

-- The documents of an entry of the kind, with the consistency proof and its evidence digest.
abbrev raw_members : String → Value → Value → List (String × Value)
raw_members kind proof proof_evidence =
    ("subjectKind", text kind)
    ∷ ("subject", described)
    ∷ ("status", described)
    ∷ ("checkpoint", described)
    ∷ ("checkpointAuthenticationEvidence", described)
    ∷ ("requestNonce", text "n")
    ∷ ("clientPriorState", null)
    ∷ ("headInclusionProof", described)
    ∷ ("consistencyProof", proof)
    ∷ (
      "verificationEvidenceDigests",
      document (
          ("status", text "sha256:02")
          ∷ ("checkpointAuthentication", text "sha256:03")
          ∷ ("headInclusionProof", text "sha256:04")
          ∷ ("consistencyProof", proof_evidence)
          ∷ []),
    )
    ∷ (
      "statusDocument",
      document (
          ("subjectKind", text kind)
          ∷ ("subject", described)
          ∷ ("status", text "current")
          ∷ ("effectiveAt", text "1")
          ∷ []),
    )
    ∷ (
      "checkpointDocument",
      document (
          ("subjectKind", text kind)
          ∷ ("subject", described)
          ∷ ("head", described)
          ∷ ("headDigest", text "sha256:00")
          ∷ ("requestNonce", text "n")
          ∷ ("clientPriorState", null)
          ∷ ("verifiedAt", text "22")
          ∷ ("expiresAt", text "333")
          ∷ ("headInclusionProof", described)
          ∷ ("logRootDigest", text "sha256:05")
          ∷ ("headLeafDigest", text "sha256:06")
          ∷ ("treeSize", text "1")
          ∷ ("consistencyProof", proof)
          ∷ []),
    )
    ∷ (
      "checkpointAuthenticationEvidenceDocument",
      document (("checkpointDigest", text "sha256:00") ∷ ("requestNonce", text "n") ∷ []),
    )
    ∷ (
      "headInclusionProofDocument",
      document (
          ("subjectKind", text kind)
          ∷ ("subject", described)
          ∷ ("rootDigest", text "sha256:05")
          ∷ ("leafDigest", text "sha256:06")
          ∷ ("treeSize", text "1")
          ∷ []),
    )
    ∷ []

abbrev product : Value
product = document (raw_members "product_release" null null)

abbrev consistency : Value
consistency = document (
    ("subject", described)
    ∷ (
      "to",
      document (
          ("headDigest", text "sha256:00")
          ∷ ("logRootDigest", text "sha256:05")
          ∷ ("treeSize", text "1")
          ∷ []),
    )
    ∷ [])

abbrev renderer : Value
renderer = document (
    ("harnessId", text "h")
    ∷ ("rendererId", text "r")
    ∷ ("rendererVersion", text "1")
    ∷ ("targetPlatform", text "p")
    ∷ ("consistencyProofDocument", consistency)
    ∷ raw_members "renderer_release" described (text "sha256:07"))

-- What the run returns.
abbrev eligible : Result EligibilityError Built
eligible =
    build builder (codes "e") (codes "qualification_finalization") (text "22") product
      (renderer ∷ [])

abbrev built_of : Result EligibilityError Built → Built
built_of (ok x) = x
built_of (err e) = record { eligibility = null; eligibility_descriptor = null; registered = [] }

build-eligible : eligible ≡ ok (built_of eligible)
unfolding build stage_purpose check_pin_set entries keyed ordering texts_less texts_equal has_key
    unique_keys items_of check_renderers seal check_authority entry selected check_subject
    check_status check_head check_freshness check_authentication check_inclusion check_consistency
    check_verification is_digest_text not_after within strip_prefix find get member equal contains
    same_set keys is_object sort text_less ◌=ₜ◌ eligibility_document eligibility_preimage kept
    with_profile
build-eligible = refl

build-Current_example :
    Current builder (text "22") product
    × All (Current builder (text "22")) (renderer ∷ [])
    × (is_empty (renderer ∷ []) ≡ false)
build-Current_example =
    build-Current builder (codes "e") (codes "qualification_finalization") (text "22") product
      (renderer ∷ []) build-eligible

build-Scope_example :
    (purpose : Text) × Scope builder (codes "qualification_finalization") purpose none
    × (member (codes "id") builder.trust_policy ≡ some (string purpose))
build-Scope_example =
    build-Scope builder (codes "e") (codes "qualification_finalization") (text "22") product
      (renderer ∷ []) build-eligible
