-- ===== src/Eligibility/Build.antt =====
-- `build` of scripts/contracts/release_status_eligibility.py.
use bytedesk_agent_delivery.Prelude.{
  Text, codes, String, Bool, true, false, not, ◌&&◌, ◌||◌, List, [], ◌∷◌, Option, none, some,
  Result, ok, err, ◌>>=◌, ◌>>◌, require, sort, texts_less, texts_equal, if◌then◌else◌,
}
use bytedesk_agent_delivery.Json.{Value, null, string, array, Items, nil, cons}
use bytedesk_agent_delivery.Json.Document.{text, texts, document, get, equal, contains}
use bytedesk_agent_delivery.Authority.{is_object, fields_of, kept, with_profile}
use bytedesk_agent_delivery.Eligibility.{
  EligibilityError, consumer_scope_mismatch, stage_invalid, purpose_mismatch, pin_provider_mismatch,
  renderer_set_empty, renderer_set_invalid, digest_authority_invalid, python_error, Builder, item,
  path, ensure, parse_timestamp,
}
use bytedesk_agent_delivery.Json.Access.{same, all_of}
use bytedesk_agent_delivery.Eligibility.Entry.{not_after, entry}

abbrev pub product_stages : List Text
product_stages =
    codes "qualification_finalization"
    ∷ codes "public_render_finalization"
    ∷ codes "public_render_publication"
    ∷ []

abbrev pub consumer_stages : List Text
consumer_stages = codes "private_compilation" ∷ codes "activation" ∷ []

abbrev pub product_purpose : Text
product_purpose = codes "release-status-eligibility-v1"

abbrev pub consumer_purpose : Text
consumer_purpose = codes "consumer-release-status-eligibility-v1"

abbrev pub status_eligibility_media_type : Text
status_eligibility_media_type =
    codes "application/vnd.bytedesk.agent.release-status-eligibility-evidence.v1+json"

abbrev pub status_eligibility_digest_media_type : Text
status_eligibility_digest_media_type =
    codes "application/vnd.bytedesk.agent.release-status-eligibility-evidence-digest.v1+json"

abbrev pub is_none {ℓ} : {A : Type ℓ} → Option A → Bool
is_none none = true
is_none (some a) = false

abbrev pub text_or_null : Option Text → Value
text_or_null none = null
text_or_null (some t) = string t

abbrev pub purpose_of_scope : Bool → Bool → Option Text → Result EligibilityError Text
purpose_of_scope in_product in_consumer consumer_id =
    if in_product
    then (require (is_none consumer_id) consumer_scope_mismatch >> ok product_purpose)
    else if in_consumer
    then (require (not (is_none consumer_id)) consumer_scope_mismatch >> ok consumer_purpose)
    else err stage_invalid

-- The purpose of a stage, and the scope that it asks for.
unfoldable pub stage_purpose : Text → Option Text → Result EligibilityError Text
unfolding contains
stage_purpose stage consumer_id =
    purpose_of_scope (contains stage product_stages) (contains stage consumer_stages) consumer_id

-- The text of a sort key; `encode` is missing of anything else.
abbrev pub as_text : Value → Result EligibilityError Text
as_text (string t) = ok t
as_text _ = err python_error

abbrev text_at : Value → List String → Result EligibilityError Text
text_at v ks = path v ks >>= λ w. as_text w

-- The key by which the renderers are ordered.
unfoldable pub ordering : Value → Result EligibilityError (List Text)
ordering v = do
  harness ← text_at v ("harnessId" ∷ [])
  renderer ← text_at v ("rendererId" ∷ [])
  version ← text_at v ("rendererVersion" ∷ [])
  platform ← text_at v ("targetPlatform" ∷ [])
  subject ← text_at v ("subject" ∷ "digest" ∷ [])
  ok (harness ∷ renderer ∷ version ∷ platform ∷ subject ∷ [])

-- A renderer's entry with its key.
abbrev pub Keyed : Type 0
Keyed = List Text × Value

abbrev pub by_key : Keyed → Keyed → Bool
by_key a b = texts_less a.0 b.0

unfoldable pub keyed : List Value → Result EligibilityError (List Keyed)
unfolding ordering
keyed [] = ok []
keyed (v ∷ vs) = do key ← ordering v; rest ← keyed vs; ok ((key, v) ∷ rest)

unfoldable pub has_key : List Text → List Keyed → Bool
unfolding texts_equal
has_key key [] = false
has_key key ((k, v) ∷ rest) = texts_equal k key || has_key key rest

-- Whether as many keys are left in a set as there are entries.
unfoldable pub unique_keys : List Keyed → Bool
unfolding has_key
unique_keys [] = true
unique_keys ((k, v) ∷ rest) = not (has_key k rest) && unique_keys rest

unfoldable pub items_of : List Keyed → Items
items_of [] = nil
items_of ((k, v) ∷ rest) = cons v (items_of rest)

-- The guard on the set of renderers.
unfoldable pub check_renderers : List Keyed → Bool
unfolding sort texts_less equal items_of unique_keys
check_renderers entries =
    equal (array (items_of entries)) (array (items_of (sort by_key entries))) && unique_keys entries

abbrev pub is_empty : List Value → Bool
is_empty [] = true
is_empty (v ∷ vs) = false

-- The documents that `build` returns and registers.
pub record Built : Type 0 where
  pub eligibility : Value
  pub eligibility_descriptor : Value
  pub registered : List (Text × Value)

abbrev pub excluded_fields : List Text
excluded_fields =
    codes "contract" ∷ codes "schema" ∷ codes "eligibilityDigest" ∷ codes "signingResult" ∷ []

-- The members that the eligibility digest is taken over.
unfoldable pub eligibility_preimage : Value → Value → Value
unfolding kept with_profile
eligibility_preimage authority eligibility =
    with_profile (get (codes "profile") authority) (kept excluded_fields (fields_of eligibility))

module _ (b : Builder) where
  unfoldable pub check_pin_set : Value → Result EligibilityError (Unit {0})
  unfolding equal not_after
  check_pin_set operation_time =
      ensure
        (all_of (
          same (path b.pin_set_provider_evidence ("pinSet" ∷ [])) (ok b.pin_set_descriptor)
          ∷ same (path b.pin_set_provider_evidence ("pinSetDigest" ∷ []))
              (ok (string b.pin_set_digest))
          ∷ same (path b.pin_set_provider_evidence ("consumerId" ∷ []))
              (ok (text_or_null b.consumer_id))
          ∷ not_after b (path b.pin_set_provider_evidence ("readback" ∷ "observedAt" ∷ []))
              operation_time
          ∷ []))
        pin_provider_mismatch (ok null)

  unfoldable pub entries : List Value → Value → Result EligibilityError (List Value)
  unfolding entry
  entries [] operation_time = ok []
  entries (raw ∷ rest) operation_time = do
    first ← entry b raw operation_time (codes "renderer_release")
    others ← entries rest operation_time
    ok (first ∷ others)

  -- `document`, with its digest and its signature.
  unfoldable pub eligibility_document : Text → Text → Value → Value → Items → Text → Value → Value
  eligibility_document evidence_id stage operation_time product renderers digest signature =
      document (
        ("contract", text "bytedesk.release-status-eligibility-evidence/1")
        ∷ ("schema", b.schema_descriptor (codes "release-status-eligibility-evidence"))
        ∷ ("evidenceId", string evidence_id)
        ∷ ("stage", string stage)
        ∷ ("operationTime", operation_time)
        ∷ ("consumerId", text_or_null b.consumer_id)
        ∷ ("pinSet", b.pin_set_descriptor)
        ∷ ("pinSetDigest", string b.pin_set_digest)
        ∷ ("pinSetProviderEvidence", b.pin_set_provider_evidence)
        ∷ ("product", product)
        ∷ ("renderers", array renderers)
        ∷ ("decision", text "eligible")
        ∷ ("eligibilityDigest", string digest)
        ∷ ("trustPolicy", b.trust_policy)
        ∷ ("signingResult", signature)
        ∷ [])

  -- The guard on the schema's digest authority.
  unfoldable pub check_authority : Value → Bool
  unfolding is_object equal get
  check_authority authority =
      is_object authority
      && (equal (get (codes "profile") authority)
            (text "bytedesk.release-status-eligibility-evidence-digest/1")
          && equal (get (codes "exclude") authority) (array (texts excluded_fields)))

  abbrev pub placeholder : Text
  placeholder = codes "sha256:0000000000000000000000000000000000000000000000000000000000000000"

  -- The digest and the signature of a document whose parts have been checked.
  unfoldable pub seal : Text → Text → Value → Value → Items → Text → Result EligibilityError Built
  unfolding eligibility_document check_authority eligibility_preimage get
  seal evidence_id stage operation_time product renderers purpose = do
    let draft =
        eligibility_document evidence_id stage operation_time product renderers placeholder
          (document [])
    let authority = get (codes "x-bytedesk-digestAuthority") b.eligibility_schema
    require (check_authority authority) digest_authority_invalid
    let digest = b.canonical_digest (eligibility_preimage authority draft)
    let signature =
        b.signing_result purpose (string digest) status_eligibility_digest_media_type evidence_id
          b.trust_policy b.repository
    let sealed =
        eligibility_document evidence_id stage operation_time product renderers digest signature
    ok (record {
      eligibility = sealed;
      eligibility_descriptor =
          b.artifact_descriptor b.repository status_eligibility_media_type sealed b.trust_policy;
      registered = if b.registers then (evidence_id, sealed) ∷ [] else [];
    })

  unfoldable pub build : Text → Text → Value → Value → List Value → Result EligibilityError Built
  unfolding stage_purpose check_pin_set entry entries keyed check_renderers items_of seal equal
  build evidence_id stage operation_time product renderers = do
    parse_timestamp b operation_time >>= λ t. ok tt
    purpose ← stage_purpose stage b.consumer_id
    policy_id ← item (codes "id") b.trust_policy
    require (equal policy_id (string purpose)) purpose_mismatch
    check_pin_set operation_time
    emitted_product ← entry b product operation_time (codes "product_release")
    require (not (is_empty renderers)) renderer_set_empty
    emitted_renderers ← entries renderers operation_time
    keyed_renderers ← keyed emitted_renderers
    require (check_renderers keyed_renderers) renderer_set_invalid
    seal evidence_id stage operation_time emitted_product (items_of keyed_renderers) purpose
