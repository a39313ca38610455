-- ===== src/StatusHead/Prior.antt =====
-- scripts/contracts/status_head_authority.py: the guards of `refresh` and its branch on the prior
-- checkpoint.
pub mod Laws
mod Tests
use bytedesk_agent_delivery.Prelude.{
  ℕ, Text, codes, Bool, true, false, not, ◌&&◌, [], ◌∷◌, ◌++◌, Option, none, some, Result, ok, err,
  ◌>>=◌, ◌>>◌, require, length, leb, lessℤ, if◌then◌else◌,
}
use bytedesk_agent_delivery.Json.{Value, null, string, integer}
use bytedesk_agent_delivery.Json.Document.{text, number, document, get, equal}
use bytedesk_agent_delivery.StatusHead.{
  HeadError, timestamp_invalid, prior_state_incomplete, expiry_invalid, status_binding_mismatch,
  status_not_effective, prior_subject_mismatch, rollback_or_equivocation, type_error, Adapters,
  Registry, item, Head, build_consistency_proof,
}

-- The arguments of `refresh`; `head` holds those that its helpers share.
pub record Request : Type 0 where
  pub checkpoint_id : Text
  pub request_nonce : Text
  pub head : Head
  pub operation_time : Text
  pub expires_at : Text
  pub prior_checkpoint : Option Value
  pub prior_checkpoint_descriptor : Option Value
  pub consistency_proof_id : Option Text

-- What the branch on `prior_checkpoint` leaves behind.
pub record PriorState : Type 0 where
  pub client_prior_state : Value
  pub consistency : Value
  pub consistency_descriptor : Value
  pub registry : Registry

abbrev pub is_none {ℓ} : {A : Type ℓ} → Option A → Bool
is_none none = true
is_none (some a) = false

abbrev same : Bool → Bool → Bool
same true b = b
same false b = not b

-- `value or default`, where the empty text is false.
abbrev pub or_default : Option Text → Text → Text
or_default none d = d
or_default (some []) d = d
or_default (some (c ∷ cs)) d = c ∷ cs

-- `_timestamp`
abbrev pub timestamp_or : Option ℕ → Result HeadError ℕ
timestamp_or none = err timestamp_invalid
timestamp_or (some t) = ok t

-- `a < b` on the counters of a document, which are integers.
unfoldable pub less : Value → Value → Result HeadError Bool
less (integer a) (integer b) = ok (lessℤ a b)
less _ _ = err type_error

-- `a and b` where evaluating either may raise.
abbrev pub both : Result HeadError Bool → Result HeadError Bool → Result HeadError Bool
both m n = m >>= λ b. if b then n else ok false

unfoldable pub equals_item : Value → Text → Value → Result HeadError Bool
unfolding equal
equals_item v k d = do w ← item k d; ok (equal v w)

module _ (a : Adapters) where
  abbrev pub parse_timestamp : Value → Result HeadError ℕ
  parse_timestamp v = timestamp_or (a.timestamp v)

  -- The guards of `refresh` before it builds anything.
  unfoldable pub check_request : Request → Result HeadError (Unit {0})
  unfolding equal get
  check_request r = do
    require (same (is_none r.prior_checkpoint) (is_none r.prior_checkpoint_descriptor))
        prior_state_incomplete
    operation ← parse_timestamp (string r.operation_time)
    expires ← parse_timestamp (string r.expires_at)
    require (leb operation expires) expiry_invalid
    require
        (equal (get (codes "subjectKind") r.head.status) (string r.head.subject_kind)
          && (equal (get (codes "subject") r.head.status) r.head.subject
              && equal (get (codes "digest") r.head.status_descriptor)
                  (string (a.canonical_digest r.head.status))))
        status_binding_mismatch
    effective_at ← item (codes "effectiveAt") r.head.status
    effective ← parse_timestamp effective_at
    again ← parse_timestamp (string r.operation_time)
    require (leb effective again) status_not_effective

  -- `prior_checkpoint["subjectKind"] == subject_kind and prior_checkpoint["subject"] == subject`
  unfoldable pub same_subject : Head → Value → Result HeadError Bool
  unfolding equals_item
  same_subject h prior =
      both (equals_item (string h.subject_kind) (codes "subjectKind") prior)
        (equals_item h.subject (codes "subject") prior)

  -- `unchanged`
  unfoldable pub is_unchanged : Head → Value → Text → Text → Result HeadError Bool
  unfolding equals_item
  is_unchanged h prior root leaf_digest =
      both (equals_item (number (length h.log_leaves)) (codes "treeSize") prior) (
        both
          (do
            sequence ← item (codes "sequence") h.status
            equals_item sequence (codes "sequence") prior)
          (both (equals_item h.status_descriptor (codes "head") prior) (
            both (equals_item (number h.epoch) (codes "epoch") prior) (
              both (equals_item (string root) (codes "logRootDigest") prior)
                (equals_item (string leaf_digest) (codes "headLeafDigest") prior)))))

  -- The guard against a rollback.
  unfoldable pub is_advanced : Head → Value → Result HeadError Bool
  unfolding less
  is_advanced h prior =
      both
        (do
          tree_size ← item (codes "treeSize") prior
          less tree_size (number (length h.log_leaves)))
        (both
          (do
            sequence ← item (codes "sequence") h.status
            prior_sequence ← item (codes "sequence") prior
            less prior_sequence sequence)
          (do
            epoch ← item (codes "epoch") prior
            older ← less (number h.epoch) epoch
            ok (not older)))

  -- `if not unchanged:` and its body.
  unfoldable pub advance : Request → Value → Value → Bool → Registry → Result HeadError PriorState
  unfolding is_advanced build_consistency_proof
  advance r prior state unchanged registry =
      if unchanged
      then ok (record {
        client_prior_state = state;
        consistency = null;
        consistency_descriptor = null;
        registry = registry;
      })
      else (do
        advanced ← is_advanced r.head prior
        require advanced rollback_or_equivocation
        built ←
            build_consistency_proof a
              (or_default r.consistency_proof_id (r.checkpoint_id ++ codes "-consistency")) prior
              r.head registry
        let (proof, descriptor, registered) = built
        ok (record {
          client_prior_state = state;
          consistency = proof;
          consistency_descriptor = descriptor;
          registry = registered;
        }))

  abbrev or_null : Option Value → Value
  or_null none = null
  or_null (some v) = v

  -- The branch on `prior_checkpoint is None`.
  unfoldable pub prior_state :
      Request → Option Value → Text → Text → Registry → Result HeadError PriorState
  unfolding same_subject is_unchanged advance
  prior_state r none root leaf_digest registry = ok (record {
    client_prior_state = document (("kind", text "none") ∷ []);
    consistency = null;
    consistency_descriptor = null;
    registry = registry;
  })
  prior_state r (some prior) root leaf_digest registry = do
    subject_matches ← same_subject r.head prior
    require subject_matches prior_subject_mismatch
    sequence ← item (codes "sequence") prior
    epoch ← item (codes "epoch") prior
    tree_size ← item (codes "treeSize") prior
    prior_root ← item (codes "logRootDigest") prior
    prior_leaf ← item (codes "headLeafDigest") prior
    let state = document (
        ("kind", text "match")
        ∷ ("checkpoint", or_null r.prior_checkpoint_descriptor)
        ∷ ("sequence", sequence)
        ∷ ("epoch", epoch)
        ∷ ("treeSize", tree_size)
        ∷ ("logRootDigest", prior_root)
        ∷ ("headLeafDigest", prior_leaf)
        ∷ [])
    unchanged ← is_unchanged r.head prior root leaf_digest
    advance r prior state unchanged registry
