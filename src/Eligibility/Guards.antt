-- ===== src/Eligibility/Guards.antt =====
-- The guards of `_entry` of scripts/contracts/release_status_eligibility.py, where they let an entry
-- pass.
use bytedesk_agent_delivery.Prelude.{
  ℕ, ◌≤◌, ◌<◌, ◌≡◌, sym, ◌∙◌, ap, Bool, true, [], ◌∷◌, Result, ok, leb, leb→le, ltb→lt, >>=-eq-ok,
  ok-injective, require-true,
}
use bytedesk_agent_delivery.Json.{Value, string}
use bytedesk_agent_delivery.Eligibility.{
  EligibilityError, status_not_current, head_binding_mismatch, checkpoint_freshness_mismatch,
  inclusion_binding_mismatch, checkpoint_authentication_mismatch, Builder, path, ensure,
  parse_timestamp,
}
use bytedesk_agent_delivery.Json.Access.{same, all_of}
use bytedesk_agent_delivery.Json.Access.Laws.{and_then-ok, same-ok, same-text}
use bytedesk_agent_delivery.Eligibility.Entry.{
  not_after, within, digest_of, check_status, check_head, check_freshness, check_authentication,
  check_inclusion, status_conditions, head_conditions, freshness_conditions, inclusion_conditions,
  authentication_conditions,
}

-- Inversions of the guards.
pub ensure-ok :
    (condition : Result EligibilityError Bool) (e : EligibilityError)
    (detail : Result EligibilityError Value) {u : Unit {0}}
    → ensure condition e detail ≡ ok u
    → condition ≡ ok true
ensure-ok condition e detail h =
    let (b, at, h1) = >>=-eq-ok condition _ h in
    let (_, _, h2) = >>=-eq-ok detail _ h1 in at ∙ ap ok (require-true b e h2)

module _ (b : Builder) where
  -- The digest that a path leads to is that of the document that another one leads to.
  pub record DigestOf (m n : Result EligibilityError Value) : Type 0 where
    pub named : Value
    pub named_at : n ≡ ok named
    pub digest_is : m ≡ ok (string (b.canonical_digest named))

  pub same-DigestOf :
      (m n : Result EligibilityError Value) → same m (digest_of b n) ≡ ok true → DigestOf m n
  same-DigestOf m n h =
      let (x, y, at_x, at_y, e) = same-ok m (digest_of b n) h in
      let (named, named_at, d) = >>=-eq-ok n _ at_y in
      record {
        named = named;
        named_at = named_at;
        digest_is = same-text m (digest_of b n) (b.canonical_digest named) (at_y ∙ sym d) h;
      }

  pub not_after-ok :
      (m : Result EligibilityError Value) (n : Value)
      → not_after b m n ≡ ok true
      → (x : Value) × (s : ℕ) × (t : ℕ) × (m ≡ ok x)
        × (parse_timestamp b x ≡ ok s)
        × (parse_timestamp b n ≡ ok t)
        × (s ≤ t)
  unfolding not_after
  not_after-ok m n h =
      let (x, at_x, h1) = >>=-eq-ok m _ h in
      let (s, at_s, h2) = >>=-eq-ok (parse_timestamp b x) _ h1 in
      let (t, at_t, h3) = >>=-eq-ok (parse_timestamp b n) _ h2 in
      (x, s, t, at_x, at_s, at_t, leb→le s t (ok-injective h3))

  pub within-ok :
      (m : Result EligibilityError Value) (n : Value) (upper : Result EligibilityError Value)
      → within b m n upper ≡ ok true
      → (t : ℕ) × (u : ℕ) × (last : Value) × (parse_timestamp b n ≡ ok t)
        × (upper ≡ ok last)
        × (parse_timestamp b last ≡ ok u)
        × (t < u)
  unfolding within
  within-ok m n upper h =
      let (x, _, h1) = >>=-eq-ok m _ h in
      let (s, _, h2) = >>=-eq-ok (parse_timestamp b x) _ h1 in
      let (t, at_t, h3) = >>=-eq-ok (parse_timestamp b n) _ h2 in
      let (last, at_last, h4) = >>=-eq-ok upper _ (and_then-ok (leb s t) _ h3).1 in
      let (u, at_u, h5) = >>=-eq-ok (parse_timestamp b last) _ h4 in
      (t, u, last, at_t, at_last, at_u, ltb→lt t u (ok-injective h5))

  pub check_status-ok :
      (raw operation_time : Value) {u : Unit {0}}
      → check_status b raw operation_time ≡ ok u
      → all_of (status_conditions b raw operation_time) ≡ ok true
  unfolding check_status
  check_status-ok raw operation_time h =
      ensure-ok (all_of (status_conditions b raw operation_time)) status_not_current
        (path raw ("status" ∷ "digest" ∷ [])) h

  pub check_head-ok :
      (raw : Value) {u : Unit {0}}
      → check_head b raw ≡ ok u
      → all_of (head_conditions b raw) ≡ ok true
  unfolding check_head
  check_head-ok raw h =
      ensure-ok (all_of (head_conditions b raw)) head_binding_mismatch
        (path raw ("checkpoint" ∷ "digest" ∷ [])) h

  pub check_freshness-ok :
      (raw operation_time : Value) {u : Unit {0}}
      → check_freshness b raw operation_time ≡ ok u
      → all_of (freshness_conditions b raw operation_time) ≡ ok true
  unfolding check_freshness
  check_freshness-ok raw operation_time h =
      ensure-ok (all_of (freshness_conditions b raw operation_time)) checkpoint_freshness_mismatch
        (path raw ("checkpoint" ∷ "digest" ∷ [])) h

  pub check_inclusion-ok :
      (raw : Value) {u : Unit {0}}
      → check_inclusion b raw ≡ ok u
      → all_of (inclusion_conditions b raw) ≡ ok true
  unfolding check_inclusion
  check_inclusion-ok raw h =
      ensure-ok (all_of (inclusion_conditions b raw)) inclusion_binding_mismatch
        (path raw ("headInclusionProof" ∷ "digest" ∷ [])) h

  pub check_authentication-ok :
      (raw : Value) {u : Unit {0}}
      → check_authentication b raw ≡ ok u
      → all_of (authentication_conditions b raw) ≡ ok true
  unfolding check_authentication
  check_authentication-ok raw h =
      ensure-ok (all_of (authentication_conditions b raw)) checkpoint_authentication_mismatch
        (path raw ("checkpoint" ∷ "digest" ∷ [])) h
