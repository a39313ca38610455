-- ===== src/Eligibility/Entry.antt =====
-- `_entry` of scripts/contracts/release_status_eligibility.py.
use bytedesk_agent_delivery.Prelude.{
  Text, codes, String, Bool, true, false, not, List, [], ◌∷◌, ◌++◌, Option, none, some, Result, ok,
  ◌>>=◌, ◌>>◌, ltb, leb, ◌=ₜ◌, if◌then◌else◌,
}
use bytedesk_agent_delivery.Digest.{strip_prefix}
use bytedesk_agent_delivery.Json.{Value, null, string, object}
use bytedesk_agent_delivery.Json.Document.{text, get, equal, keys, same_set}
use bytedesk_agent_delivery.Eligibility.{
  EligibilityError, python_error, verification_digests_invalid, subject_kind_mismatch,
  subject_mismatch, status_not_current, head_binding_mismatch, checkpoint_freshness_mismatch,
  checkpoint_authentication_mismatch, inclusion_binding_mismatch, consistency_binding_mismatch,
  Builder, path, ensure, parse_timestamp,
}
use bytedesk_agent_delivery.Json.Access.{same, all_of, and_then, selected}

abbrev pub is_null : Value → Bool
is_null null = true
is_null _ = false

abbrev has_prefix : Option Text → Bool
has_prefix none = false
has_prefix (some rest) = true

-- `isinstance(value, str) and value.startswith("sha256:")`
unfoldable pub is_digest_text : Value → Bool
unfolding strip_prefix
is_digest_text (string t) = has_prefix (strip_prefix (codes "sha256:") t)
is_digest_text _ = false

abbrev pub emitted_status_fields : List String
emitted_status_fields =
    "subjectKind" ∷ "subject" ∷ "status" ∷ "checkpoint" ∷ "checkpointAuthenticationEvidence"
    ∷ "requestNonce" ∷ "clientPriorState" ∷ "headInclusionProof" ∷ "consistencyProof"
    ∷ "verificationEvidenceDigests" ∷ []

abbrev pub renderer_fields : List String
renderer_fields = "harnessId" ∷ "rendererId" ∷ "rendererVersion" ∷ "targetPlatform" ∷ []

-- The fields that an entry of the kind emits.
abbrev pub fields_of_kind : Text → List String
fields_of_kind kind =
    if kind =ₜ codes "renderer_release"
    then emitted_status_fields ++ renderer_fields
    else emitted_status_fields

-- `_timestamp(a) <= _timestamp(b)`
unfoldable pub not_after :
    Builder → Result EligibilityError Value → Value → Result EligibilityError Bool
not_after b m n = do
  first ← m
  before ← parse_timestamp b first
  after ← parse_timestamp b n
  ok (leb before after)

-- `_timestamp(a) <= _timestamp(b) < _timestamp(c)`
unfoldable pub within :
    Builder
    → Result EligibilityError Value
    → Value
    → Result EligibilityError Value
    → Result EligibilityError Bool
within b m n upper = do
  first ← m
  before ← parse_timestamp b first
  time ← parse_timestamp b n
  and_then (leb before time) (do last ← upper; after ← parse_timestamp b last; ok (ltb time after))

module _ (b : Builder) where
  -- `self.canonical_digest(document)`
  abbrev pub digest_of : Result EligibilityError Value → Result EligibilityError Value
  digest_of m = m >>= λ v. ok (string (b.canonical_digest v))

  abbrev status : List String → List String
  status ks = "statusDocument" ∷ ks

  abbrev checkpoint : List String → List String
  checkpoint ks = "checkpointDocument" ∷ ks

  abbrev inclusion : List String → List String
  inclusion ks = "headInclusionProofDocument" ∷ ks

  unfoldable pub check_subject : Value → Text → Result EligibilityError (Unit {0})
  unfolding equal get
  check_subject raw kind = do
    ensure
        (all_of (
          same (path raw ("subjectKind" ∷ [])) (ok (string kind))
          ∷ same (path raw (status ("subjectKind" ∷ []))) (ok (string kind))
          ∷ same (path raw (checkpoint ("subjectKind" ∷ []))) (ok (string kind))
          ∷ same (path raw (inclusion ("subjectKind" ∷ []))) (ok (string kind))
          ∷ []))
        subject_kind_mismatch (ok (get (codes "subjectKind") raw))
    ensure
        (all_of (
          same (path raw (status ("subject" ∷ []))) (path raw ("subject" ∷ []))
          ∷ same (path raw (checkpoint ("subject" ∷ []))) (path raw ("subject" ∷ []))
          ∷ same (path raw (inclusion ("subject" ∷ []))) (path raw ("subject" ∷ []))
          ∷ []))
        subject_mismatch (path raw ("subject" ∷ "digest" ∷ []))

  abbrev pub status_conditions : Value → Value → List (Result EligibilityError Bool)
  status_conditions raw operation_time =
      same (path raw (status ("status" ∷ []))) (ok (text "current"))
      ∷ not_after b (path raw (status ("effectiveAt" ∷ []))) operation_time
      ∷ []

  unfoldable pub check_status : Value → Value → Result EligibilityError (Unit {0})
  unfolding equal not_after
  check_status raw operation_time =
      ensure (all_of (status_conditions raw operation_time)) status_not_current
        (path raw ("status" ∷ "digest" ∷ []))

  abbrev pub head_conditions : Value → List (Result EligibilityError Bool)
  head_conditions raw =
      same (path raw ("status" ∷ "digest" ∷ [])) (digest_of (path raw (status [])))
      ∷ same (path raw (checkpoint ("head" ∷ []))) (path raw ("status" ∷ []))
      ∷ same (path raw (checkpoint ("headDigest" ∷ []))) (path raw ("status" ∷ "digest" ∷ []))
      ∷ same (path raw ("checkpoint" ∷ "digest" ∷ [])) (digest_of (path raw (checkpoint [])))
      ∷ []

  unfoldable pub check_head : Value → Result EligibilityError (Unit {0})
  unfolding equal
  check_head raw =
      ensure (all_of (head_conditions raw)) head_binding_mismatch
        (path raw ("checkpoint" ∷ "digest" ∷ []))

  abbrev pub freshness_conditions : Value → Value → List (Result EligibilityError Bool)
  freshness_conditions raw operation_time =
      same (path raw (checkpoint ("requestNonce" ∷ []))) (path raw ("requestNonce" ∷ []))
      ∷ same (path raw (checkpoint ("clientPriorState" ∷ []))) (path raw ("clientPriorState" ∷ []))
      ∷ same (path raw (checkpoint ("verifiedAt" ∷ []))) (ok operation_time)
      ∷ within b (path raw (checkpoint ("verifiedAt" ∷ []))) operation_time
          (path raw (checkpoint ("expiresAt" ∷ [])))
      ∷ []

  unfoldable pub check_freshness : Value → Value → Result EligibilityError (Unit {0})
  unfolding equal within
  check_freshness raw operation_time =
      ensure (all_of (freshness_conditions raw operation_time)) checkpoint_freshness_mismatch
        (path raw ("checkpoint" ∷ "digest" ∷ []))

  abbrev pub authentication_conditions : Value → List (Result EligibilityError Bool)
  authentication_conditions raw =
      same (path raw ("checkpointAuthenticationEvidence" ∷ "digest" ∷ []))
        (digest_of (path raw ("checkpointAuthenticationEvidenceDocument" ∷ [])))
      ∷ same (path raw ("checkpointAuthenticationEvidenceDocument" ∷ "checkpointDigest" ∷ []))
          (path raw ("checkpoint" ∷ "digest" ∷ []))
      ∷ same (path raw ("checkpointAuthenticationEvidenceDocument" ∷ "requestNonce" ∷ []))
          (path raw ("requestNonce" ∷ []))
      ∷ []

  unfoldable pub check_authentication : Value → Result EligibilityError (Unit {0})
  unfolding equal
  check_authentication raw =
      ensure (all_of (authentication_conditions raw)) checkpoint_authentication_mismatch
        (path raw ("checkpoint" ∷ "digest" ∷ []))

  abbrev pub inclusion_conditions : Value → List (Result EligibilityError Bool)
  inclusion_conditions raw =
      same (path raw (checkpoint ("headInclusionProof" ∷ [])))
        (path raw ("headInclusionProof" ∷ []))
      ∷ same (path raw ("headInclusionProof" ∷ "digest" ∷ [])) (digest_of (path raw (inclusion [])))
      ∷ same (path raw (inclusion ("rootDigest" ∷ [])))
          (path raw (checkpoint ("logRootDigest" ∷ [])))
      ∷ same (path raw (inclusion ("leafDigest" ∷ [])))
          (path raw (checkpoint ("headLeafDigest" ∷ [])))
      ∷ same (path raw (inclusion ("treeSize" ∷ []))) (path raw (checkpoint ("treeSize" ∷ [])))
      ∷ []

  unfoldable pub check_inclusion : Value → Result EligibilityError (Unit {0})
  unfolding equal
  check_inclusion raw =
      ensure (all_of (inclusion_conditions raw)) inclusion_binding_mismatch
        (path raw ("headInclusionProof" ∷ "digest" ∷ []))

  abbrev pub no_consistency_conditions : Value → List (Result EligibilityError Bool)
  no_consistency_conditions raw =
      same (path raw (checkpoint ("consistencyProof" ∷ []))) (ok null)
      ∷ ok (is_null (get (codes "consistencyProofDocument") raw))
      ∷ []

  abbrev pub consistency_conditions : Value → List (Result EligibilityError Bool)
  consistency_conditions raw =
      let proof = get (codes "consistencyProofDocument") raw in
      ok (not (is_null proof))
      ∷ same (path raw (checkpoint ("consistencyProof" ∷ []))) (path raw ("consistencyProof" ∷ []))
      ∷ same (path raw ("consistencyProof" ∷ "digest" ∷ [])) (digest_of (ok proof))
      ∷ same (path proof ("subject" ∷ [])) (path raw ("subject" ∷ []))
      ∷ same (path proof ("to" ∷ "headDigest" ∷ [])) (path raw ("status" ∷ "digest" ∷ []))
      ∷ same (path proof ("to" ∷ "logRootDigest" ∷ []))
          (path raw (checkpoint ("logRootDigest" ∷ [])))
      ∷ same (path proof ("to" ∷ "treeSize" ∷ [])) (path raw (checkpoint ("treeSize" ∷ [])))
      ∷ []

  -- The branch on `raw["consistencyProof"] is None`.
  unfoldable pub check_consistency : Bool → Value → Result EligibilityError (Unit {0})
  unfolding equal get
  check_consistency true raw =
      ensure (all_of (no_consistency_conditions raw)) consistency_binding_mismatch
        (path raw ("checkpoint" ∷ "digest" ∷ []))
  check_consistency false raw =
      ensure (all_of (consistency_conditions raw)) consistency_binding_mismatch
        (path raw ("consistencyProof" ∷ "digest" ∷ []))

  abbrev digest_at : Value → String → Result EligibilityError Bool
  digest_at verification k = path verification (k ∷ []) >>= λ v. ok (is_digest_text v)

  abbrev consistency_digest : Value → Value → Bool
  consistency_digest proof d = if is_null proof then is_null d else is_digest_text d

  unfoldable pub check_verification : Value → Result EligibilityError (Unit {0})
  unfolding same_set keys is_digest_text
  check_verification raw = do
    verification ← path raw ("verificationEvidenceDigests" ∷ [])
    ensure
        (all_of (
          ok (
            same_set (keys verification) (
              codes "status"
              ∷ codes "checkpointAuthentication"
              ∷ codes "headInclusionProof"
              ∷ codes "consistencyProof"
              ∷ []))
          ∷ digest_at verification "status"
          ∷ digest_at verification "checkpointAuthentication"
          ∷ digest_at verification "headInclusionProof"
          ∷ (do
            proof ← path raw ("consistencyProof" ∷ [])
            d ← path verification ("consistencyProof" ∷ [])
            ok (consistency_digest proof d))
          ∷ []))
        verification_digests_invalid (path raw ("subject" ∷ "digest" ∷ []))

  -- `_entry`: its first lines read the documents of the entry.
  unfoldable pub entry : Value → Value → Text → Result EligibilityError Value
  unfolding check_subject check_status check_head check_freshness check_authentication
      check_inclusion check_consistency check_verification selected ◌=ₜ◌
  entry raw operation_time kind = do
    path raw ("statusDocument" ∷ []) >>= λ d. ok tt
    path raw ("checkpointDocument" ∷ []) >>= λ d. ok tt
    path raw ("checkpointAuthenticationEvidenceDocument" ∷ []) >>= λ d. ok tt
    path raw ("headInclusionProofDocument" ∷ []) >>= λ d. ok tt
    check_subject raw kind
    check_status raw operation_time
    check_head raw
    check_freshness raw operation_time
    check_authentication raw
    check_inclusion raw
    proof ← path raw ("consistencyProof" ∷ [])
    check_consistency (is_null proof) raw
    check_verification raw
    fields ← selected python_error (fields_of_kind kind) raw
    ok (object fields)
