-- ===== src/Eligibility/Eligible.antt =====
-- What `build` of scripts/contracts/release_status_eligibility.py has established when it returns.
use bytedesk_agent_delivery.Prelude.{
  ◌≡◌, refl, sym, ◌∙◌, ap, Text, codes, Bool, true, false, not, List, [], ◌∷◌, Option, none, some,
  ok, ◌>>=◌, All, >>=-eq-ok, ok-injective, require-eq-ok, if◌then◌else◌,
}
use bytedesk_agent_delivery.Json.{Value, string, Items}
use bytedesk_agent_delivery.Json.Document.{text, get, member, equal, contains}
use bytedesk_agent_delivery.Json.Document.Laws.{equal-to_string}
use bytedesk_agent_delivery.Eligibility.{
  purpose_mismatch, renderer_set_empty, renderer_set_invalid, Builder, item, parse_timestamp,
  python_error,
}
use bytedesk_agent_delivery.Json.Access.Laws.{present-eq}
use bytedesk_agent_delivery.Eligibility.Entry.{entry}
use bytedesk_agent_delivery.Eligibility.Build.{
  product_stages, consumer_stages, product_purpose, consumer_purpose, stage_purpose,
  purpose_of_scope, check_pin_set, entries, keyed, check_renderers, is_empty, items_of, Built,
  eligibility_preimage, seal, build,
}
use bytedesk_agent_delivery.Eligibility.Laws.{Current, entry-Current, entries-Current}

module _ (b : Builder) where
  -- The two scopes of a stage.
  pub data Scope (stage purpose : Text) : Option Text → Type 0 where
    of_product :
        contains stage product_stages ≡ true → purpose ≡ product_purpose → Scope stage purpose none
    of_consumer :
        {consumer : Text}
        → contains stage product_stages ≡ false
        → contains stage consumer_stages ≡ true
        → purpose ≡ consumer_purpose
        → Scope stage purpose (some consumer)

  choice-Scope :
      (stage : Text) (in_product in_consumer : Bool) (consumer : Option Text) {purpose : Text}
      → contains stage product_stages ≡ in_product
      → contains stage consumer_stages ≡ in_consumer
      → purpose_of_scope in_product in_consumer consumer ≡ ok purpose
      → Scope stage purpose consumer
  choice-Scope stage true c none p q h = of_product p (sym (ok-injective h))
  choice-Scope stage true c (some consumer) p q h = cc
  choice-Scope stage false true none p q h = cc
  choice-Scope stage false true (some consumer) p q h = of_consumer p q (sym (ok-injective h))
  choice-Scope stage false false consumer p q h = cc

  stage_purpose-Scope :
      (stage : Text) (consumer : Option Text) {purpose : Text}
      → stage_purpose stage consumer ≡ ok purpose
      → Scope stage purpose consumer
  unfolding stage_purpose
  stage_purpose-Scope stage consumer h =
      choice-Scope stage (contains stage product_stages) (contains stage consumer_stages) consumer
        refl refl h

  pub record IsBuilt (evidence_id stage : Text) (operation_time product : Value)
      (renderers : List Value) (built : Built) : Type 0 where
    pub purpose : Text
    pub scope : Scope stage purpose b.consumer_id
    pub policy : member (codes "id") b.trust_policy ≡ some (string purpose)
    pub product_current : Current b operation_time product
    pub renderers_current : All (Current b operation_time) renderers
    pub some_renderer : is_empty renderers ≡ false
    pub emitted_product : Value
    pub emitted_renderers : Items
    pub sealed :
        seal b evidence_id stage operation_time emitted_product emitted_renderers purpose ≡ ok built

  not-true : (c : Bool) → not c ≡ true → c ≡ false
  not-true true h = cc
  not-true false h = refl

  build-IsBuilt :
      (evidence_id stage : Text) (operation_time product : Value) (renderers : List Value)
      {built : Built}
      → build b evidence_id stage operation_time product renderers ≡ ok built
      → IsBuilt evidence_id stage operation_time product renderers built
  unfolding build
  build-IsBuilt evidence_id stage operation_time product renderers h =
      let (_, _, h1) = >>=-eq-ok (parse_timestamp b operation_time >>= λ t. ok tt) _ h in
      let (purpose, scope, h2) = >>=-eq-ok (stage_purpose stage b.consumer_id) _ h1 in
      let (policy_id, policy_at, h3) = >>=-eq-ok (item (codes "id") b.trust_policy) _ h2 in
      let (policy_is, h4) =
        require-eq-ok (equal policy_id (string purpose)) purpose_mismatch _ h3 in
      let (_, _, h5) = >>=-eq-ok (check_pin_set b operation_time) _ h4 in
      let (emitted_product, product_is, h6) =
        >>=-eq-ok (entry b product operation_time (codes "product_release")) _ h5 in
      let (nonempty, h7) = require-eq-ok (not (is_empty renderers)) renderer_set_empty _ h6 in
      let (outs, outs_are, h8) = >>=-eq-ok (entries b renderers operation_time) _ h7 in
      let (pairs, _, h9) = >>=-eq-ok (keyed outs) _ h8 in
      let (_, sealed) = require-eq-ok (check_renderers pairs) renderer_set_invalid _ h9 in
      record {
        purpose = purpose;
        scope = stage_purpose-Scope stage b.consumer_id scope;
        policy =
            present-eq python_error (member (codes "id") b.trust_policy) policy_at
            ∙ ap some (equal-to_string policy_id purpose policy_is);
        product_current =
            entry-Current b product operation_time (codes "product_release") product_is;
        renderers_current = entries-Current b renderers operation_time outs_are;
        some_renderer = not-true (is_empty renderers) nonempty;
        emitted_product = emitted_product;
        emitted_renderers = items_of pairs;
        sealed = sealed;
      }

  -- `build` returns only where the status of the product's entry and that of every renderer's
  -- entry is current and in effect at the operation time, no checkpoint has expired by then, there
  -- is a renderer, the digests that an entry states of its status, its checkpoint, its
  -- authentication evidence and its inclusion proof are those of the documents, and so is that of
  -- its consistency proof where it states one; where it states none, its checkpoint states none and
  -- there is no document of one.
  pub build-Current :
      (evidence_id stage : Text) (operation_time product : Value) (renderers : List Value)
      {built : Built}
      → build b evidence_id stage operation_time product renderers ≡ ok built
      → Current b operation_time product
        × All (Current b operation_time) renderers
        × (is_empty renderers ≡ false)
  build-Current evidence_id stage operation_time product renderers h =
      let is = build-IsBuilt evidence_id stage operation_time product renderers h in
      (is.product_current, is.renderers_current, is.some_renderer)

  -- `build` returns only for a product stage without a consumer or for a consumer stage with one,
  -- and only where the identifier of the trust policy is the purpose of that kind of stage.
  pub build-Scope :
      (evidence_id stage : Text) (operation_time product : Value) (renderers : List Value)
      {built : Built}
      → build b evidence_id stage operation_time product renderers ≡ ok built
      → (purpose : Text) × Scope stage purpose b.consumer_id
        × (member (codes "id") b.trust_policy ≡ some (string purpose))
  build-Scope evidence_id stage operation_time product renderers h =
      let is = build-IsBuilt evidence_id stage operation_time product renderers h in
      (is.purpose, is.scope, is.policy)

  -- The digest that a document states is that of its own members.
  pub record Sealed (evidence_id stage : Text) (built : Built) : Type 0 where
    pub digest : Text
    pub stated : get (codes "eligibilityDigest") built.eligibility ≡ string digest
    pub of_members :
        digest
        ≡ b.canonical_digest (
            eligibility_preimage
              (get (codes "x-bytedesk-digestAuthority") b.eligibility_schema)
              built.eligibility)
    pub stage_stated : get (codes "stage") built.eligibility ≡ string stage
    pub decision : get (codes "decision") built.eligibility ≡ text "eligible"
    pub registered :
        built.registered ≡ (if b.registers then (evidence_id, built.eligibility) ∷ [] else [])
