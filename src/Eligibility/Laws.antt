-- ===== src/Eligibility/Laws.antt =====
-- What `build` of scripts/contracts/release_status_eligibility.py has established when it returns.
use bytedesk_agent_delivery.Prelude.{
  ℕ, ◌≤◌, ◌<◌, ◌≡◌, refl, sym, ◌∙◌, subst, Text, codes, Bool, true, false, List, [], ◌∷◌, ok, ◌>>=◌,
  All, >>=-eq-ok, ok-injective,
}
use bytedesk_agent_delivery.Json.{
  Value, null, boolean, integer, floating, string, array, object, other,
}
use bytedesk_agent_delivery.Json.Document.{text, get}
use bytedesk_agent_delivery.Eligibility.{
  consistency_binding_mismatch, Builder, path, parse_timestamp,
}
use bytedesk_agent_delivery.Json.Access.{all_of}
use bytedesk_agent_delivery.Json.Access.Laws.{all_of-nth, same-text, same-null}
use bytedesk_agent_delivery.Eligibility.Entry.{
  check_subject, check_status, check_head, check_freshness, check_authentication, check_inclusion,
  entry, status_conditions, head_conditions, freshness_conditions, inclusion_conditions,
  authentication_conditions, no_consistency_conditions, consistency_conditions, check_consistency,
  is_null,
}
use bytedesk_agent_delivery.Eligibility.Build.{entries}
use bytedesk_agent_delivery.Eligibility.Guards.{
  ensure-ok, DigestOf, same-DigestOf, not_after-ok, within-ok, check_status-ok, check_head-ok,
  check_freshness-ok, check_inclusion-ok, check_authentication-ok,
}

module _ (b : Builder) where
  -- The consistency proof of an entry, and whether the entry has one.
  pub data Consistent (raw : Value) : Value → Type 0 where
    no_proof :
        {proof : Value}
        → proof ≡ null
        → path raw ("checkpointDocument" ∷ "consistencyProof" ∷ []) ≡ ok null
        → get (codes "consistencyProofDocument") raw ≡ null
        → Consistent raw proof
    with_proof :
        {proof : Value}
        → is_null proof ≡ false
        → DigestOf b
            (path raw ("consistencyProof" ∷ "digest" ∷ []))
            (ok (get (codes "consistencyProofDocument") raw))
        → Consistent raw proof

  -- An entry at an operation time: the status is current and in effect, the checkpoint has not
  -- expired, and the digests that the entry states are those of its documents.
  pub record Current (operation_time raw : Value) : Type 0 where
    pub current : path raw ("statusDocument" ∷ "status" ∷ []) ≡ ok (text "current")
    pub time : ℕ
    pub time_is : parse_timestamp b operation_time ≡ ok time
    pub effective_at : Value
    pub effective_is : path raw ("statusDocument" ∷ "effectiveAt" ∷ []) ≡ ok effective_at
    pub effective : ℕ
    pub effective_time : parse_timestamp b effective_at ≡ ok effective
    pub in_effect : effective ≤ time
    pub expires_at : Value
    pub expires_is : path raw ("checkpointDocument" ∷ "expiresAt" ∷ []) ≡ ok expires_at
    pub expires : ℕ
    pub expires_time : parse_timestamp b expires_at ≡ ok expires
    pub not_expired : time < expires
    pub status_digest :
        DigestOf b (path raw ("status" ∷ "digest" ∷ [])) (path raw ("statusDocument" ∷ []))
    pub checkpoint_digest :
        DigestOf b (path raw ("checkpoint" ∷ "digest" ∷ [])) (path raw ("checkpointDocument" ∷ []))
    pub authentication_digest :
        DigestOf b
          (path raw ("checkpointAuthenticationEvidence" ∷ "digest" ∷ []))
          (path raw ("checkpointAuthenticationEvidenceDocument" ∷ []))
    pub inclusion_digest :
        DigestOf b
          (path raw ("headInclusionProof" ∷ "digest" ∷ []))
          (path raw ("headInclusionProofDocument" ∷ []))
    pub consistency_proof : Value
    pub consistency_proof_at : path raw ("consistencyProof" ∷ []) ≡ ok consistency_proof
    pub consistency_digest : Consistent raw consistency_proof

  is_null-eq : (v : Value) → is_null v ≡ true → v ≡ null
  is_null-eq null h = refl
  is_null-eq (boolean x) h = cc
  is_null-eq (integer n) h = cc
  is_null-eq (floating f) h = cc
  is_null-eq (string t) h = cc
  is_null-eq (array items) h = cc
  is_null-eq (object fields) h = cc
  is_null-eq other h = cc

  check_consistency-Consistent :
      (raw proof : Value) (missing : Bool) {u : Unit {0}}
      → is_null proof ≡ missing
      → check_consistency b missing raw ≡ ok u
      → Consistent raw proof
  unfolding check_consistency
  check_consistency-Consistent raw proof true e h =
      let conditions =
        ensure-ok (all_of (no_consistency_conditions b raw)) consistency_binding_mismatch
          (path raw ("checkpoint" ∷ "digest" ∷ [])) h in
      no_proof (is_null-eq proof e)
        (same-null (path raw ("checkpointDocument" ∷ "consistencyProof" ∷ []))
          (all_of-nth (no_consistency_conditions b raw) 0 conditions))
        (is_null-eq (get (codes "consistencyProofDocument") raw)
          (ok-injective (all_of-nth (no_consistency_conditions b raw) 1 conditions)))
  check_consistency-Consistent raw proof false e h =
      let conditions =
        ensure-ok (all_of (consistency_conditions b raw)) consistency_binding_mismatch
          (path raw ("consistencyProof" ∷ "digest" ∷ [])) h in
      with_proof e (
        same-DigestOf b (path raw ("consistencyProof" ∷ "digest" ∷ []))
          (ok (get (codes "consistencyProofDocument") raw))
          (all_of-nth (consistency_conditions b raw) 2 conditions))

  checks-Current :
      (raw operation_time proof : Value) {u v w x y z : Unit {0}}
      → check_status b raw operation_time ≡ ok u
      → check_head b raw ≡ ok v
      → check_freshness b raw operation_time ≡ ok w
      → check_authentication b raw ≡ ok x
      → check_inclusion b raw ≡ ok y
      → path raw ("consistencyProof" ∷ []) ≡ ok proof
      → check_consistency b (is_null proof) raw ≡ ok z
      → Current operation_time raw
  checks-Current raw operation_time proof status head freshness authentication inclusion proof_at
        consistency =
      let status' = check_status-ok b raw operation_time status in
      let head' = check_head-ok b raw head in
      let fresh =
        all_of-nth (freshness_conditions b raw operation_time) 3
          (check_freshness-ok b raw operation_time freshness) in
      let included =
        all_of-nth (inclusion_conditions b raw) 1 (check_inclusion-ok b raw inclusion) in
      let (at, s, t, at_is, s_is, t_is, s≤t) =
        not_after-ok b (path raw ("statusDocument" ∷ "effectiveAt" ∷ [])) operation_time
          (all_of-nth (status_conditions b raw operation_time) 1 status') in
      let (t', u, last, t'_is, last_is, u_is, t'<u) =
        within-ok b (path raw ("checkpointDocument" ∷ "verifiedAt" ∷ [])) operation_time
          (path raw ("checkpointDocument" ∷ "expiresAt" ∷ [])) fresh in
      record {
        current =
            same-text (path raw ("statusDocument" ∷ "status" ∷ [])) (ok (text "current"))
              (codes "current") refl
              (all_of-nth (status_conditions b raw operation_time) 0 status');
        time = t;
        time_is = t_is;
        effective_at = at;
        effective_is = at_is;
        effective = s;
        effective_time = s_is;
        in_effect = s≤t;
        expires_at = last;
        expires_is = last_is;
        expires = u;
        expires_time = u_is;
        not_expired = subst (λ n. n < u) (ok-injective (sym t'_is ∙ t_is)) t'<u;
        status_digest =
            same-DigestOf b (path raw ("status" ∷ "digest" ∷ [])) (path raw ("statusDocument" ∷ []))
              (all_of-nth (head_conditions b raw) 0 head');
        checkpoint_digest =
            same-DigestOf b (path raw ("checkpoint" ∷ "digest" ∷ []))
              (path raw ("checkpointDocument" ∷ [])) (all_of-nth (head_conditions b raw) 3 head');
        inclusion_digest =
            same-DigestOf b (path raw ("headInclusionProof" ∷ "digest" ∷ []))
              (path raw ("headInclusionProofDocument" ∷ [])) included;
        authentication_digest =
            same-DigestOf b (path raw ("checkpointAuthenticationEvidence" ∷ "digest" ∷ []))
              (path raw ("checkpointAuthenticationEvidenceDocument" ∷ []))
              (all_of-nth (authentication_conditions b raw) 0
                (check_authentication-ok b raw authentication));
        consistency_proof = proof;
        consistency_proof_at = proof_at;
        consistency_digest =
            check_consistency-Consistent raw proof (is_null proof) refl consistency;
      }

  pub entry-Current :
      (raw operation_time : Value) (kind : Text) {out : Value}
      → entry b raw operation_time kind ≡ ok out
      → Current operation_time raw
  unfolding entry
  entry-Current raw operation_time kind h =
      let (_, _, h1) = >>=-eq-ok (path raw ("statusDocument" ∷ []) >>= λ d. ok tt) _ h in
      let (_, _, h2) = >>=-eq-ok (path raw ("checkpointDocument" ∷ []) >>= λ d. ok tt) _ h1 in
      let (_, _, h3) =
        >>=-eq-ok (path raw ("checkpointAuthenticationEvidenceDocument" ∷ []) >>= λ d. ok tt) _
          h2 in
      let (_, _, h4) =
        >>=-eq-ok (path raw ("headInclusionProofDocument" ∷ []) >>= λ d. ok tt) _ h3 in
      let (_, _, h5) = >>=-eq-ok (check_subject b raw kind) _ h4 in
      let (_, status, h6) = >>=-eq-ok (check_status b raw operation_time) _ h5 in
      let (_, head, h7) = >>=-eq-ok (check_head b raw) _ h6 in
      let (_, freshness, h8) = >>=-eq-ok (check_freshness b raw operation_time) _ h7 in
      let (_, authentication, h9) = >>=-eq-ok (check_authentication b raw) _ h8 in
      let (_, inclusion, h10) = >>=-eq-ok (check_inclusion b raw) _ h9 in
      let (proof, proof_at, h11) = >>=-eq-ok (path raw ("consistencyProof" ∷ [])) _ h10 in
      let (_, consistency, _) = >>=-eq-ok (check_consistency b (is_null proof) raw) _ h11 in
      checks-Current raw operation_time proof status head freshness authentication inclusion
        proof_at consistency

  pub entries-Current :
      (raws : List Value) (operation_time : Value) {outs : List Value}
      → entries b raws operation_time ≡ ok outs
      → All (Current operation_time) raws
  unfolding entries
  entries-Current [] operation_time h = tt
  entries-Current (raw ∷ rest) operation_time h =
      let (_, first, h1) = >>=-eq-ok (entry b raw operation_time (codes "renderer_release")) _ h in
      let (_, others, _) = >>=-eq-ok (entries b rest operation_time) _ h1 in
      (
        entry-Current raw operation_time (codes "renderer_release") first,
        entries-Current rest operation_time others,
      )
