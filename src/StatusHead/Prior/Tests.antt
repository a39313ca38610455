-- ===== src/StatusHead/Prior/Tests.antt =====
-- The branch of `refresh` on a prior checkpoint, at a log that has not changed.
use bytedesk_agent_delivery.Prelude.{◌≡◌, refl, codes, [], ◌∷◌, some, ok, ◌=ₜ◌, ◌⊎◌}
use bytedesk_agent_delivery.Digest.Checksum.{checksum}
use bytedesk_agent_delivery.Json.{Value, null}
use bytedesk_agent_delivery.Json.Document.{
  document, text, number, find, get, member, equal, equal_int,
}
use bytedesk_agent_delivery.StatusHead.{Adapters}
use bytedesk_agent_delivery.StatusHead.Prior.{
  Request, PriorState, equals_item, same_subject, is_unchanged, advance, prior_state,
}
use bytedesk_agent_delivery.StatusHead.Prior.Laws.{Unchanged, Advanced, prior_state_no_rollback}

abbrev adapters : Adapters
adapters = record {
  sha256 = checksum;
  jcs = λ v. [];
  timestamp = λ v. some 0;
  schema_descriptor = λ n. null;
  artifact_descriptor = λ r m d t. null;
  sign_inline_authority = λ d o p m i t r. d;
  signing_result = λ p d m i t r. null;
  signer = λ p. null;
  canonical_digest = λ v. codes "sha256:00";
  status_head_auth_schema = null;
  status_head_trust = null;
  repository = codes "r";
  purpose = codes "p";
}

abbrev prior : Value
prior = document (
    ("subjectKind", text "release")
    ∷ ("subject", text "s")
    ∷ ("sequence", number 1)
    ∷ ("treeSize", number 1)
    ∷ ("head", text "h")
    ∷ ("headLeafDigest", text "leaf")
    ∷ ("epoch", number 1)
    ∷ ("logRootDigest", text "root")
    ∷ [])

abbrev request : Request
request = record {
  checkpoint_id = codes "c";
  request_nonce = codes "n";
  head = record {
    subject_kind = codes "release";
    subject = text "s";
    status = document (("sequence", number 1) ∷ []);
    status_descriptor = text "h";
    epoch = 1;
    log_leaves = codes "leaf" ∷ [];
  };
  operation_time = codes "t";
  expires_at = codes "u";
  prior_checkpoint = some prior;
  prior_checkpoint_descriptor = some null;
  consistency_proof_id = some (codes "i");
}

abbrev kept_state : PriorState
kept_state = record {
  client_prior_state = document (
      ("kind", text "match")
      ∷ ("checkpoint", null)
      ∷ ("sequence", number 1)
      ∷ ("epoch", number 1)
      ∷ ("treeSize", number 1)
      ∷ ("logRootDigest", text "root")
      ∷ ("headLeafDigest", text "leaf")
      ∷ []);
  consistency = null;
  consistency_descriptor = null;
  registry = [];
}

unchanged_run :
    prior_state adapters request (some prior) (codes "root") (codes "leaf") [] ≡ ok kept_state
unfolding prior_state same_subject is_unchanged advance equals_item equal equal_int member get find
    ◌=ₜ◌
unchanged_run = refl

prior_state_no_rollback_example :
    Unchanged request.head prior (codes "root") (codes "leaf") ⊎ Advanced request.head prior
prior_state_no_rollback_example =
    prior_state_no_rollback adapters request prior (codes "root") (codes "leaf") [] unchanged_run
