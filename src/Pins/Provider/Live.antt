-- ===== src/Pins/Provider/Live.antt =====
-- What `build_pin_set_provider_evidence` of scripts/contracts/trust_policy_pins.py makes is accepted
-- by `verify_activation`.
use bytedesk_agent_delivery.Prelude.{
  ℕ, ◌≤◌, ◌≡◌, refl, ◌∙◌, ap, subst, Text, codes, Bool, true, ◌&&◌, List, [], ◌∷◌, Result, ok, err,
  ◌>>=◌, ◌>>◌, require, All, leb, le→leb, ==-refl, =ₜ-refl, >>=-eq-ok, ok-injective, length, ◌=ₜ◌,
}
use bytedesk_agent_delivery.Json.{Value, string}
use bytedesk_agent_delivery.Json.Document.{
  text, document, find, get, member, equal, equal_int, size,
}
use bytedesk_agent_delivery.Json.Document.Laws.{equal-string_refl}
use bytedesk_agent_delivery.Json.Access.{same, all_of, and_then, selected}
use bytedesk_agent_delivery.Pins.{
  PinError, provider_descriptor_mismatch, provider_evidence_mismatch, Platform, path,
  parse_timestamp, digest_of, pin_set_document_descriptor, ProviderRequest,
  pin_set_provider_request_digest, provider_evidence_digest, no_digest,
}
use bytedesk_agent_delivery.Pins.Provider.{
  Adapter, EvidenceRequest, Pinned, pinned, evidence_document, build_pin_set_provider_evidence,
  in_order, evidence_conditions, matches, only, expected_request, activation, verify_activation,
}

-- A value that equals itself; an object with a name twice does not.
abbrev pub Reflexive : Value → Type 0
Reflexive v = equal v v ≡ true

step :
    {A B : Type 0} (m : Result PinError A) (f : A → Result PinError B) {a : A} {b : B}
    → m ≡ ok a
    → f a ≡ ok b
    → (m >>= f) ≡ ok b
step m f p q = ap (λ x. x >>= f) p ∙ q

guard :
    {B : Type 0} (c : Bool) (e : PinError) (m : Result PinError B) {b : B}
    → c ≡ true
    → m ≡ ok b
    → (require c e >> m) ≡ ok b
guard c e m p q = ap (λ x. require x e >> m) p ∙ q

same-intro :
    (m n : Result PinError Value) (v : Value)
    → m ≡ ok v
    → n ≡ ok v
    → Reflexive v
    → same m n ≡ ok true
same-intro m n v p q r = step m _ p (step n _ q (ap ok r))

all_of-All : (ms : List (Result PinError Bool)) → All (λ m. m ≡ ok true) ms → all_of ms ≡ ok true
all_of-All [] h = refl
all_of-All (m ∷ ms) h = step m _ h.0 (all_of-All ms h.1)

-- The members of a pin set that its evidence repeats.
pub record Repeated (pin_set : Value) (s : Pinned) : Type 0 where
  pub id_at : path pin_set ("pinSetId" ∷ []) ≡ ok s.id
  pub scope_at : path pin_set ("scope" ∷ []) ≡ ok s.scope
  pub consumer_at : path pin_set ("consumerId" ∷ []) ≡ ok s.consumer_id
  pub revision_at : path pin_set ("revision" ∷ []) ≡ ok s.revision
  pub digest_at : path pin_set ("pinSetDigest" ∷ []) ≡ ok s.own_digest
  pub precondition_at : path pin_set ("precondition" ∷ []) ≡ ok s.precondition

pub record Plain (s : Pinned) : Type 0 where
  pub plain_id : Reflexive s.id
  pub plain_scope : Reflexive s.scope
  pub plain_consumer : Reflexive s.consumer_id
  pub plain_revision : Reflexive s.revision
  pub plain_digest : Reflexive s.own_digest
  pub plain_precondition : Reflexive s.precondition

pinned-Repeated : (pin_set : Value) (s : Pinned) → pinned pin_set ≡ ok s → Repeated pin_set s
unfolding pinned
pinned-Repeated pin_set s h =
    let (id, id_at, h1) = >>=-eq-ok (path pin_set ("pinSetId" ∷ [])) _ h in
    let (scope, scope_at, h2) = >>=-eq-ok (path pin_set ("scope" ∷ [])) _ h1 in
    let (consumer, consumer_at, h3) = >>=-eq-ok (path pin_set ("consumerId" ∷ [])) _ h2 in
    let (revision, revision_at, h4) = >>=-eq-ok (path pin_set ("revision" ∷ [])) _ h3 in
    let (own_digest, digest_at, h5) = >>=-eq-ok (path pin_set ("pinSetDigest" ∷ [])) _ h4 in
    let (precondition, precondition_at, h6) = >>=-eq-ok (path pin_set ("precondition" ∷ [])) _ h5 in
    subst (λ (x : Pinned). Repeated pin_set x) (ok-injective h6)
      (record {
        id_at = id_at;
        scope_at = scope_at;
        consumer_at = consumer_at;
        revision_at = revision_at;
        digest_at = digest_at;
        precondition_at = precondition_at;
      })

both : {a b : Bool} → a ≡ true → b ≡ true → (a && b) ≡ true
both {b = b} p q = ap (λ x. x && b) p ∙ q

abbrev pub returned : Result PinError Text → Text
returned (ok t) = t
returned (err e) = []

module _ (p : Platform) where
  descriptor-Reflexive :
      (repository pin_set : Value) (provider_id authority : Text)
      → Reflexive repository
      → Reflexive (pin_set_document_descriptor p repository pin_set provider_id authority)
  unfolding pin_set_document_descriptor equal equal_int size find ◌=ₜ◌
  descriptor-Reflexive repository pin_set provider_id authority r = both r (
      both (=ₜ-refl (digest_of p pin_set)) (
        both (==-refl (length (p.jcs pin_set)))
          (both (=ₜ-refl provider_id) (both (=ₜ-refl authority) refl))))

  module _ (a : Adapter) (r : EvidenceRequest) (repository pin_set : Value) (s : Pinned) where
    abbrev pub descriptor : Value
    descriptor =
        pin_set_document_descriptor p repository pin_set a.provider_id a.provider_authority_digest

    abbrev pub request : ProviderRequest
    request = record {
      request_id = r.request_id;
      idempotency_key = r.idempotency_key;
      pin_set_descriptor = descriptor;
      pin_set_digest_value = s.own_digest;
      precondition = s.precondition;
      provider_id = string a.provider_id;
      provider_authority_digest = string a.provider_authority_digest;
      operation_time = r.activated_at;
    }

    abbrev pub request_digest : Text
    request_digest = pin_set_provider_request_digest p request

    abbrev pub evidence_with : Text → Value
    evidence_with own_digest =
        evidence_document r s descriptor (string a.provider_id) (string a.provider_authority_digest)
          (string (digest_of p pin_set)) request_digest own_digest

    abbrev pub own_digest : Text
    own_digest = returned (provider_evidence_digest p (evidence_with no_digest))

    abbrev pub evidence : Value
    evidence = evidence_with own_digest

    -- The members that the evidence digest binds are there, and its own digest is none of them.
    draft_digest : provider_evidence_digest p (evidence_with no_digest) ≡ ok own_digest
    unfolding provider_evidence_digest selected evidence_document find get member ◌=ₜ◌
    draft_digest = refl

    evidence_digest : provider_evidence_digest p evidence ≡ ok own_digest
    unfolding provider_evidence_digest selected evidence_document find get member ◌=ₜ◌
    evidence_digest = refl

    build-runs :
        pinned pin_set ≡ ok s → build_pin_set_provider_evidence p r pin_set descriptor ≡ ok evidence
    unfolding build_pin_set_provider_evidence pin_set_document_descriptor find member ◌=ₜ◌
    build-runs h = step (pinned pin_set) _ h (
        step (provider_evidence_digest p (evidence_with no_digest)) (λ d. ok (evidence_with d))
          draft_digest refl)

    expected-runs : Repeated pin_set s → expected_request a pin_set descriptor evidence ≡ ok request
    unfolding expected_request evidence_document find member ◌=ₜ◌
    expected-runs h =
        step (path pin_set ("pinSetDigest" ∷ [])) _ h.digest_at
          (step (path pin_set ("precondition" ∷ [])) _ h.precondition_at refl)

    times-hold :
        (verification_time : Value) (t u v : ℕ)
        → parse_timestamp p r.activated_at ≡ ok t
        → parse_timestamp p r.observed_at ≡ ok u
        → parse_timestamp p verification_time ≡ ok v
        → t ≤ u
        → u ≤ v
        → in_order p (ok r.activated_at) (ok r.observed_at) verification_time ≡ ok true
    unfolding in_order
    times-hold verification_time t u v t_is u_is v_is t≤u u≤v =
        step (parse_timestamp p r.activated_at) _ t_is (
          step (parse_timestamp p r.observed_at) _ u_is (
            ap (λ b. and_then b (parse_timestamp p verification_time >>= λ w. ok (leb u w)))
              (le→leb t u t≤u)
            ∙ step (parse_timestamp p verification_time) _ v_is (ap ok (le→leb u v u≤v))))

    conditions-hold :
        (verification_time : Value) (t u v : ℕ)
        → Repeated pin_set s
        → Plain s
        → Reflexive repository
        → Reflexive r.observed_at
        → parse_timestamp p r.activated_at ≡ ok t
        → parse_timestamp p r.observed_at ≡ ok u
        → parse_timestamp p verification_time ≡ ok v
        → t ≤ u
        → u ≤ v
        → all_of (
            evidence_conditions p a pin_set descriptor evidence request_digest own_digest
              verification_time)
          ≡ ok true
    unfolding evidence_document pin_set_document_descriptor equal size find get member ◌=ₜ◌ in_order
    conditions-hold verification_time t u v h plain repository_plain observed_plain t_is u_is v_is
          t≤u u≤v =
        let described =
          descriptor-Reflexive repository pin_set a.provider_id a.provider_authority_digest
            repository_plain in
        all_of-All
          (evidence_conditions p a pin_set descriptor evidence request_digest own_digest
            verification_time)
          (
            ap ok described,
            (
              same-intro (ok s.id) (path pin_set ("pinSetId" ∷ [])) s.id refl h.id_at
                  plain.plain_id,
              (
                same-intro (ok s.scope) (path pin_set ("scope" ∷ [])) s.scope refl h.scope_at
                    plain.plain_scope,
                (
                  same-intro (ok s.consumer_id) (path pin_set ("consumerId" ∷ [])) s.consumer_id
                      refl h.consumer_at plain.plain_consumer,
                  (
                    same-intro (ok s.revision) (path pin_set ("revision" ∷ [])) s.revision refl
                        h.revision_at plain.plain_revision,
                    (
                      same-intro (ok s.own_digest) (path pin_set ("pinSetDigest" ∷ [])) s.own_digest
                          refl h.digest_at plain.plain_digest,
                      (
                        same-intro (ok s.precondition) (path pin_set ("precondition" ∷ []))
                            s.precondition refl h.precondition_at plain.plain_precondition,
                        (
                          ap ok (equal-string_refl a.provider_id),
                          (
                            ap ok (equal-string_refl a.provider_authority_digest),
                            (
                              ap ok (equal-string_refl request_digest),
                              (
                                refl,
                                (
                                  ap ok (
                                      both described (
                                        both (equal-string_refl (digest_of p pin_set))
                                          (both observed_plain refl))),
                                  (
                                    ap ok (equal-string_refl own_digest),
                                    (times-hold verification_time t u v t_is u_is v_is t≤u u≤v, tt),
                                  ),
                                ),
                              ),
                            ),
                          ),
                        ),
                      ),
                    ),
                  ),
                ),
              ),
            ),
          )

    -- What `verify_activation` does once the conditions are known.
    abbrev finish : Bool → Result PinError Value
    finish valid =
        require valid provider_evidence_mismatch
        >> (matches pin_set evidence request_digest a.vectors >>= λ found.
            only found >>= λ vector. activation a vector pin_set descriptor evidence)

    abbrev outcome : Value → Value → Value
    outcome id pinned_digest = document (
        ("decision", text "active")
        ∷ ("vectorId", id)
        ∷ ("pinSet", descriptor)
        ∷ ("pinSetDigest", pinned_digest)
        ∷ ("providerAuthorityDigest", string a.provider_authority_digest)
        ∷ ("providerEvidenceDigest", string own_digest)
        ∷ ("readbackAt", r.observed_at)
        ∷ [])

    finish-runs :
        (vector id : Value)
        → Repeated pin_set s
        → matches pin_set evidence request_digest a.vectors ≡ ok (vector ∷ [])
        → path vector ("vectorId" ∷ []) ≡ ok id
        → finish true ≡ ok (outcome id s.own_digest)
    unfolding activation evidence_document find member ◌=ₜ◌
    finish-runs vector id h matched id_at =
        step (matches pin_set evidence request_digest a.vectors)
          (λ found. only found >>= λ v. activation a v pin_set descriptor evidence) matched
          (step (path vector ("vectorId" ∷ []))
            (λ x. path pin_set ("pinSetDigest" ∷ []) >>= λ d. ok (outcome x d)) id_at
            (step (path pin_set ("pinSetDigest" ∷ [])) (λ d. ok (outcome id d)) h.digest_at refl))

    -- Evidence that is built for the descriptor of a pin set is accepted, where the provider has
    -- exactly one vector for the request, the activation was read back and verified in order, and
    -- the members that the evidence repeats equal themselves.
    pub verify_activation-build :
        (verification_time vector id : Value) (t u v : ℕ)
        → pinned pin_set ≡ ok s
        → Plain s
        → Reflexive repository
        → Reflexive r.observed_at
        → parse_timestamp p r.activated_at ≡ ok t
        → parse_timestamp p r.observed_at ≡ ok u
        → parse_timestamp p verification_time ≡ ok v
        → t ≤ u
        → u ≤ v
        → matches pin_set evidence request_digest a.vectors ≡ ok (vector ∷ [])
        → path vector ("vectorId" ∷ []) ≡ ok id
        → (built : Value) × (out : Value) × (build_pin_set_provider_evidence p r pin_set descriptor
            ≡ ok built)
          × (verify_activation p a pin_set descriptor built verification_time ≡ ok out)
          × (get (codes "vectorId") out ≡ id)
    unfolding verify_activation evidence_document pin_set_document_descriptor find get member ◌=ₜ◌
    verify_activation-build verification_time vector id t u v is plain repository_plain
          observed_plain t_is u_is v_is t≤u u≤v matched id_at =
        let h = pinned-Repeated pin_set s is in
        (
          evidence,
          outcome id s.own_digest,
          build-runs is,
          guard (equal descriptor descriptor) provider_descriptor_mismatch _
              (descriptor-Reflexive repository pin_set a.provider_id a.provider_authority_digest
                repository_plain)
              (step (expected_request a pin_set descriptor evidence) _ (expected-runs h) (
                step (provider_evidence_digest p evidence)
                  (λ d.
                    all_of (
                      evidence_conditions p a pin_set descriptor evidence request_digest d
                        verification_time)
                    >>= finish)
                  evidence_digest
                  (step
                    (all_of (
                      evidence_conditions p a pin_set descriptor evidence request_digest own_digest
                        verification_time))
                    finish
                    (conditions-hold verification_time t u v h plain repository_plain observed_plain
                      t_is u_is v_is t≤u u≤v)
                    (finish-runs vector id h matched id_at)))),
          refl,
        )
