-- ===== src/Eligibility.antt =====
-- scripts/contracts/release_status_eligibility.py: what the builder is given, what it raises, and
-- `permitted_verification_result`.
pub mod Entry
pub mod Guards
pub mod Build
pub mod Laws
pub mod Eligible
mod Tests
use bytedesk_agent_delivery.Prelude.{
  ℕ, Text, codes, String, Bool, true, false, not, ◌&&◌, List, [], ◌∷◌, Option, none, some, Result,
  ok, err, ◌>>=◌, ◌>>◌, require, length, ltb, leb, ◌==◌, ◌=ₜ◌, sort, text_less, if◌then◌else◌,
}
use bytedesk_agent_delivery.Json.{Value, null, string, array, Items, nil, cons}
use bytedesk_agent_delivery.Json.Access
use bytedesk_agent_delivery.Json.Document.{distinct, text, texts, document, member, equal, contains}

-- The codes of `ReleaseStatusEligibilityError`, and the exceptions that the code does not catch.
pub data EligibilityError : Type 0 where
  timestamp_invalid verification_evidence_invalid : EligibilityError
  verification_digests_invalid subject_kind_mismatch subject_mismatch : EligibilityError
  status_not_current head_binding_mismatch checkpoint_freshness_mismatch : EligibilityError
  checkpoint_authentication_mismatch inclusion_binding_mismatch : EligibilityError
  consistency_binding_mismatch consumer_scope_mismatch stage_invalid : EligibilityError
  purpose_mismatch pin_provider_mismatch renderer_set_empty renderer_set_invalid : EligibilityError
  digest_authority_invalid : EligibilityError
  -- a `KeyError`, `TypeError` or `AttributeError`
  python_error : EligibilityError

-- What `ReleaseStatusEligibilityBuilder` is given.
pub record Builder : Type 0 where
  pub schema_descriptor : Text → Value
  pub artifact_descriptor : Text → Text → Value → Value → Value
  pub signing_result : Text → Value → Text → Text → Value → Text → Value
  pub canonical_digest : Value → Text
  -- `datetime.fromisoformat` in UTC, as a number; `none` where the text is no time with an offset
  pub timestamp : Value → Option ℕ
  pub eligibility_schema : Value
  pub trust_policy : Value
  pub repository : Text
  pub consumer_id : Option Text
  pub pin_set_descriptor : Value
  pub pin_set_digest : Text
  pub pin_set_provider_evidence : Value
  -- whether there is a `register_document`
  pub registers : Bool

abbrev pub item : Text → Value → Result EligibilityError Value
item = Access.item python_error

-- `document[k][l]…`
abbrev pub path : Value → List String → Result EligibilityError Value
path = Access.path python_error

-- `_require(condition, code, detail)`: the detail is evaluated whatever the condition is.
abbrev pub ensure :
    Result EligibilityError Bool
    → EligibilityError
    → Result EligibilityError Value
    → Result EligibilityError (Unit {0})
ensure condition e detail = condition >>= λ b. detail >>= λ _. require b e

abbrev pub timestamp_or : Option ℕ → Result EligibilityError ℕ
timestamp_or none = err timestamp_invalid
timestamp_or (some t) = ok t

-- `_timestamp`
abbrev pub parse_timestamp : Builder → Value → Result EligibilityError ℕ
parse_timestamp b v = timestamp_or (b.timestamp v)

unfoldable pub permitted_verification_result :
    Builder → Value → Text → Value → Value → Value → List Text → Result EligibilityError Value
unfolding distinct sort text_less
permitted_verification_result b schema_descriptor verification_id subject policy evaluated_at
      evidence_digests =
    do
      let ordered = sort text_less (distinct evidence_digests)
      require (length ordered == length evidence_digests && ltb 0 (length ordered))
          verification_evidence_invalid
      parse_timestamp b evaluated_at >>= λ t. ok tt
      ok (
          document (
            ("contract", text "bytedesk.verification-result/1")
            ∷ ("schema", schema_descriptor)
            ∷ ("verificationId", string verification_id)
            ∷ ("subject", subject)
            ∷ ("policy", policy)
            ∷ ("evaluatedAt", evaluated_at)
            ∷ ("outcome", text "permitted")
            ∷ ("reasonCodes", array nil)
            ∷ ("evidenceDigests", array (texts ordered))
            ∷ []))
