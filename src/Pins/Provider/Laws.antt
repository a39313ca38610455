-- ===== src/Pins/Provider/Laws.antt =====
-- What `verify_activation` of scripts/contracts/trust_policy_pins.py has established when it
-- returns.
use bytedesk_agent_delivery.Prelude.{
  ℕ, ◌≤◌, ◌≡◌, refl, ◌∙◌, ap, subst, Text, codes, Bool, true, false, List, [], ◌∷◌, ◌++◌, Result,
  ok, All, leb, leb→le, >>=-eq-ok, ok-injective, require-eq-ok, if◌then◌else◌,
}
use bytedesk_agent_delivery.Json.{Value, string}
use bytedesk_agent_delivery.Json.Document.{text, equal}
use bytedesk_agent_delivery.Json.Access.{same, all_of}
use bytedesk_agent_delivery.Json.Access.Laws.{all_of-nth, same-text, and_then-ok}
use bytedesk_agent_delivery.Pins.{
  PinError, provider_vector_invalid, provider_descriptor_mismatch, provider_evidence_mismatch,
  Platform, path, parse_timestamp, pin_set_document_descriptor, ProviderRequest,
  pin_set_provider_request_digest, provider_evidence_digest,
}
use bytedesk_agent_delivery.Pins.Provider.{
  Adapter, vector_conditions, add_vectors, new_adapter, in_order, evidence_conditions,
  match_conditions, matches, only, expected_request, verify_activation,
}

-- A vector by which the provider authenticated a request.
pub record Authentic (provider_id authority : Text) (vector : Value) : Type 0 where
  pub decision : path vector ("decision" ∷ []) ≡ ok (text "authenticated")
  pub of_provider : path vector ("providerId" ∷ []) ≡ ok (string provider_id)
  pub of_authority : path vector ("providerAuthorityDigest" ∷ []) ≡ ok (string authority)

All-snoc :
    (P : Value → Type 0) (xs : List Value) (x : Value) → All P xs → P x → All P (xs ++ (x ∷ []))
All-snoc P [] x h px = (px, tt)
All-snoc P (y ∷ ys) x h px = (h.0, All-snoc P ys x h.1 px)

add_vectors-Authentic :
    (provider_id authority : Text) (vectors rest : List Value) {out : List Value}
    → add_vectors provider_id authority vectors rest ≡ ok out
    → All (Authentic provider_id authority) vectors
    → All (Authentic provider_id authority) out
unfolding add_vectors
add_vectors-Authentic provider_id authority vectors [] h before =
    subst (λ (vs : List Value). All (Authentic provider_id authority) vs) (ok-injective h) before
add_vectors-Authentic provider_id authority vectors (vector ∷ rest) h before =
    let conditions = vector_conditions provider_id authority vectors vector in
    let (valid, valid_is, h1) = >>=-eq-ok (all_of conditions) _ h in
    let (holds, h2) = require-eq-ok valid provider_vector_invalid _ h1 in
    let passed = valid_is ∙ ap ok holds in
    add_vectors-Authentic provider_id authority (vectors ++ (vector ∷ [])) rest h2 (
      All-snoc (Authentic provider_id authority) vectors vector before (record {
        decision =
            same-text (path vector ("decision" ∷ [])) (ok (text "authenticated"))
              (codes "authenticated") refl (all_of-nth conditions 1 passed);
        of_provider =
            same-text (path vector ("providerId" ∷ [])) (ok (string provider_id)) provider_id refl
              (all_of-nth conditions 2 passed);
        of_authority =
            same-text (path vector ("providerAuthorityDigest" ∷ [])) (ok (string authority))
              authority refl (all_of-nth conditions 3 passed);
      }))

module _ (p : Platform) where
  -- A vector that the adapter has, for the request that was recomputed.
  pub record Matching (a : Adapter) (pin_set evidence : Value) (request_digest : Text)
      (vector : Value) : Type 0 where
    pub authentic : Authentic a.provider_id a.provider_authority_digest vector
    pub of_request : path vector ("requestDigest" ∷ []) ≡ ok (string request_digest)
    pub same_request :
        same (path vector ("providerRequestId" ∷ [])) (path evidence ("providerRequestId" ∷ []))
        ≡ ok true
    pub same_pin_set :
        same (path vector ("pinSetDigest" ∷ [])) (path pin_set ("pinSetDigest" ∷ [])) ≡ ok true

  matches-Matching :
      (a : Adapter) (pin_set evidence : Value) (request_digest : Text) (vectors : List Value)
      {out : List Value}
      → matches pin_set evidence request_digest vectors ≡ ok out
      → All (Authentic a.provider_id a.provider_authority_digest) vectors
      → All (Matching a pin_set evidence request_digest) out
  unfolding matches
  matches-Matching a pin_set evidence request_digest [] h all =
      subst (λ (vs : List Value). All (Matching a pin_set evidence request_digest) vs)
        (ok-injective h) tt
  matches-Matching a pin_set evidence request_digest (vector ∷ vectors) h all =
      let conditions = match_conditions pin_set evidence request_digest vector in
      let (matching, matching_is, h1) = >>=-eq-ok (all_of conditions) _ h in
      let (rest, rest_is, h2) = >>=-eq-ok (matches pin_set evidence request_digest vectors) _ h1 in
      let later = matches-Matching a pin_set evidence request_digest vectors rest_is all.1 in
      subst (λ (vs : List Value). All (Matching a pin_set evidence request_digest) vs)
        (ok-injective h2) (chosen-Matching matching matching_is rest later)
    where
      chosen-Matching :
          (b : Bool)
          → all_of (match_conditions pin_set evidence request_digest vector) ≡ ok b
          → (rest : List Value) → All (Matching a pin_set evidence request_digest) rest
          → All (Matching a pin_set evidence request_digest) (if b then vector ∷ rest else rest)
      chosen-Matching false is rest later = later
      chosen-Matching true is rest later =
          let conditions = match_conditions pin_set evidence request_digest vector in
          (
            record {
              authentic = all.0;
              of_request =
                  same-text (path vector ("requestDigest" ∷ [])) (ok (string request_digest))
                    request_digest refl (all_of-nth conditions 2 is);
              same_request = all_of-nth conditions 0 is;
              same_pin_set = all_of-nth conditions 3 is;
            },
            later,
          )

  -- Two times in order, and both before the last one.
  pub record InOrder (first second last : Value) : Type 0 where
    pub activated : ℕ
    pub activated_is : parse_timestamp p first ≡ ok activated
    pub observed : ℕ
    pub observed_is : parse_timestamp p second ≡ ok observed
    pub verified : ℕ
    pub verified_is : parse_timestamp p last ≡ ok verified
    pub read_back : activated ≤ observed
    pub in_time : observed ≤ verified

  -- An activation that was verified.
  pub record Active (a : Adapter) (pin_set descriptor evidence verification_time : Value)
      : Type 0 where
    pub repository : Value
    pub described :
        equal descriptor (
          pin_set_document_descriptor p repository pin_set a.provider_id
            a.provider_authority_digest)
        ≡ true
    pub own_digest : Text
    pub own_digest_is : provider_evidence_digest p evidence ≡ ok own_digest
    pub own_digest_stated : path evidence ("evidenceDigest" ∷ []) ≡ ok (string own_digest)
    pub request : ProviderRequest
    pub request_is :
        expected_request a pin_set
          (pin_set_document_descriptor p repository pin_set a.provider_id
            a.provider_authority_digest)
          evidence
        ≡ ok request
    pub request_stated :
        path evidence ("requestDigest" ∷ [])
        ≡ ok (string (pin_set_provider_request_digest p request))
    pub activated_at : Value
    pub activated_at_is : path evidence ("activatedAt" ∷ []) ≡ ok activated_at
    pub observed_at : Value
    pub observed_at_is : path evidence ("readback" ∷ "observedAt" ∷ []) ≡ ok observed_at
    pub in_order : InOrder activated_at observed_at verification_time
    pub vector : Value
    pub matching : Matching a pin_set evidence (pin_set_provider_request_digest p request) vector
    pub only_match :
        matches pin_set evidence (pin_set_provider_request_digest p request) a.vectors
        ≡ ok (vector ∷ [])

  in_order-InOrder :
      (m n : Result PinError Value) (last : Value)
      → in_order p m n last ≡ ok true
      → (first : Value) × (second : Value) × (m ≡ ok first)
        × (n ≡ ok second)
        × InOrder first second last
  unfolding in_order
  in_order-InOrder m n last h =
      let (first, first_is, h1) = >>=-eq-ok m _ h in
      let (s, s_is, h2) = >>=-eq-ok (parse_timestamp p first) _ h1 in
      let (second, second_is, h3) = >>=-eq-ok n _ h2 in
      let (t, t_is, h4) = >>=-eq-ok (parse_timestamp p second) _ h3 in
      let (s≤t, h5) = and_then-ok (leb s t) _ h4 in
      let (u, u_is, h6) = >>=-eq-ok (parse_timestamp p last) _ h5 in
      (
        first,
        second,
        first_is,
        second_is,
        record {
          activated = s;
          activated_is = s_is;
          observed = t;
          observed_is = t_is;
          verified = u;
          verified_is = u_is;
          read_back = leb→le s t s≤t;
          in_time = leb→le t u (ok-injective h6);
        },
      )

  only-eq : (found : List Value) {vector : Value} → only found ≡ ok vector → found ≡ vector ∷ []
  only-eq [] h = cc
  only-eq (v ∷ []) h = ap (λ x. x ∷ []) (ok-injective h)
  only-eq (v ∷ w ∷ rest) h = cc

  -- An adapter made of authentication vectors verifies an activation only where the descriptor is
  -- that of the pin set, the evidence states its own digest and that of the request, the activation
  -- was read back in time, and exactly one vector matches, which is an authenticated one of the
  -- adapter's provider for that request and pin set.
  pub verify_activation-Active :
      (provider_id authority : Text) (authentication_vectors : List Value) (a : Adapter)
      (pin_set descriptor evidence verification_time : Value) {out : Value}
      → new_adapter provider_id authority authentication_vectors ≡ ok a
      → verify_activation p a pin_set descriptor evidence verification_time ≡ ok out
      → Active a pin_set descriptor evidence verification_time
  unfolding new_adapter verify_activation
  verify_activation-Active provider_id authority authentication_vectors a pin_set descriptor
        evidence verification_time made h =
      let (repository, _, h1) = >>=-eq-ok (path descriptor ("repository" ∷ [])) _ h in
      let expected =
        pin_set_document_descriptor p repository pin_set a.provider_id
          a.provider_authority_digest in
      let (described, h2) =
        require-eq-ok (equal descriptor expected) provider_descriptor_mismatch _ h1 in
      let (request, request_is, h3) =
        >>=-eq-ok (expected_request a pin_set expected evidence) _ h2 in
      let request_digest = pin_set_provider_request_digest p request in
      let (own_digest, digest_is, h4) = >>=-eq-ok (provider_evidence_digest p evidence) _ h3 in
      let conditions =
        evidence_conditions p a pin_set expected evidence request_digest own_digest
          verification_time in
      let (valid, valid_is, h5) = >>=-eq-ok (all_of conditions) _ h4 in
      let (holds, h6) = require-eq-ok valid provider_evidence_mismatch _ h5 in
      let passed = valid_is ∙ ap ok holds in
      let (found, found_is, h7) =
        >>=-eq-ok (matches pin_set evidence request_digest a.vectors) _ h6 in
      let (vector, vector_is, _) = >>=-eq-ok (only found) _ h7 in
      let (activated_at, observed_at, activated_is, observed_is, times) =
        in_order-InOrder (path evidence ("activatedAt" ∷ []))
          (path evidence ("readback" ∷ "observedAt" ∷ [])) verification_time
          (all_of-nth conditions 13 passed) in
      let alone = found_is ∙ ap ok (only-eq found vector_is) in
      let (vectors, added, adapter_is) =
        >>=-eq-ok (add_vectors provider_id authority [] authentication_vectors) _ made in
      let authentic : All (Authentic a.provider_id a.provider_authority_digest) a.vectors =
        subst (λ (x : Adapter). All (Authentic x.provider_id x.provider_authority_digest) x.vectors)
          (ok-injective adapter_is)
          (add_vectors-Authentic provider_id authority [] authentication_vectors added tt) in
      record {
        repository = repository;
        described = described;
        own_digest = own_digest;
        own_digest_is = digest_is;
        own_digest_stated =
            same-text (path evidence ("evidenceDigest" ∷ [])) (ok (string own_digest)) own_digest
              refl (all_of-nth conditions 12 passed);
        request = request;
        request_is = request_is;
        request_stated =
            same-text (path evidence ("requestDigest" ∷ [])) (ok (string request_digest))
              request_digest refl (all_of-nth conditions 9 passed);
        activated_at = activated_at;
        activated_at_is = activated_is;
        observed_at = observed_at;
        observed_at_is = observed_is;
        in_order = times;
        vector = vector;
        matching = (matches-Matching a pin_set evidence request_digest a.vectors alone authentic).0;
        only_match = alone;
      }
