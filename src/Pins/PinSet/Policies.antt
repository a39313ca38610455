-- ===== src/Pins/PinSet/Policies.antt =====
-- What `TrustPolicyPinSet` of scripts/contracts/trust_policy_pins.py has established when it is
-- constructed, and what follows for `authorize_policy`.
use bytedesk_agent_delivery.Prelude.{
  ◌≡◌, refl, sym, subst, Text, codes, true, ◌&&◌, List, [], Option, none, some, ok, >>=-eq-ok,
  ok-injective, require-eq-ok, sort,
}
use bytedesk_agent_delivery.Json.{
  Value, null, boolean, integer, floating, string, array, object, other,
}
use bytedesk_agent_delivery.Json.Document.{number, texts, get, equal, contains}
use bytedesk_agent_delivery.Json.Document.Laws.{equal-to_string}
use bytedesk_agent_delivery.Eligibility.Build.{by_key, items_of}
use bytedesk_agent_delivery.Pins.{
  digest_mismatch, scope_mismatch, incomplete, history_invalid, history_order_invalid, Platform,
  got, text_or_null, pin_set_digest,
}
use bytedesk_agent_delivery.Pins.PinSet.{
  PinSet, current_of, is_some, or_null, check_precondition, purposes_of, add_current, history_keys,
  add_historical, check_revocations, check_effective, listed, new_pin_set, authorize_policy,
}
use bytedesk_agent_delivery.Pins.PinSet.Laws.{
  Allowed, for_new, for_current, for_past, authorize_policy-Authorized,
}
use bytedesk_agent_delivery.Pins.PinSet.Follows.{Follows, check_precondition-Follows}
use bytedesk_agent_delivery.Pins.PinSet.Purposes.{
  Expected, CurrentExpected, PastExpected, equal_items-Expected, add_current-Expected,
  found-Expected, add_historical-Expected, historical_of-Expected,
}

module _ (expected : List Text) (p : Platform) where
  -- What `__init__` has established.
  pub record Validated (pin_set : Value) (prior : Option Value) (s : PinSet) : Type 0 where
    pub kept : s.pins ≡ pin_set
    pub own_digest : Text
    pub own_digest_is : pin_set_digest p pin_set ≡ ok own_digest
    pub own_digest_stated : get (codes "pinSetDigest") pin_set ≡ string own_digest
    pub follows : Follows pin_set prior
    pub current_expected : CurrentExpected expected s.current
    pub past_expected : PastExpected expected s.historical

  pub new_pin_set-Validated :
      (pin_set : Value) (scope : Text) (consumer_id : Option Text) (prior : Option Value)
      {s : PinSet}
      → new_pin_set p pin_set expected scope consumer_id prior ≡ ok s
      → Validated pin_set prior s
  unfolding new_pin_set check_precondition
  new_pin_set-Validated pin_set scope consumer_id prior h =
      let (own_digest, digest_is, h1) = >>=-eq-ok (pin_set_digest p pin_set) _ h in
      let (stated, h2) =
        require-eq-ok (equal (get (codes "pinSetDigest") pin_set) (string own_digest))
          digest_mismatch _ h1 in
      let (_, h3) =
        require-eq-ok
          (equal (get (codes "scope") pin_set) (string scope)
            && equal (get (codes "consumerId") pin_set) (text_or_null consumer_id))
          scope_mismatch _ h2 in
      let (_, preconditioned, h4) =
        >>=-eq-ok
          (check_precondition (get (codes "revision") pin_set) (get (codes "precondition") pin_set)
            prior)
          _ h3 in
      let (items, _, h5) =
        >>=-eq-ok (listed p incomplete (get (codes "currentForNewUse") pin_set)) _ h4 in
      let (purposes, purposes_are, h6) = >>=-eq-ok (purposes_of items) _ h5 in
      let (complete, h7) =
        require-eq-ok (equal (array purposes) (array (texts expected))) incomplete _ h6 in
      let (current, current_is, h8) = >>=-eq-ok (add_current [] [] items) _ h7 in
      let (past, _, h9) =
        >>=-eq-ok (listed p history_invalid (get (codes "historicalVerification") pin_set)) _ h8 in
      let (past_keys, _, h10) = >>=-eq-ok (history_keys past) _ h9 in
      let (_, h11) =
        require-eq-ok (equal (array past) (array (items_of (sort by_key past_keys))))
          history_order_invalid _ h10 in
      let (historical, historical_is, h12) = >>=-eq-ok (add_historical p current [] past) _ h11 in
      let (_, _, h13) = >>=-eq-ok (check_revocations p (get (codes "revocations") pin_set)) _ h12 in
      let (_, _, h14) = >>=-eq-ok (check_effective p (get (codes "effective") pin_set)) _ h13 in
      let now =
        add_current-Expected expected [] [] items current_is purposes_are
          (equal_items-Expected purposes expected complete) tt in
      subst (λ (s : PinSet). Validated pin_set prior s) (ok-injective h14)
        (record {
          kept = refl;
          own_digest = own_digest;
          own_digest_is = digest_is;
          own_digest_stated = equal-to_string _ own_digest stated;
          follows =
              check_precondition-Follows pin_set prior
                (equal (get (codes "revision") pin_set) (number 1)) refl preconditioned;
          current_expected = now;
          past_expected = add_historical-Expected expected p current [] past historical_is now tt;
        })

  -- A pin set that is accepted states its own digest, and is either the first revision, without a
  -- prior one, or the revision after that of the prior pin set, whose revision and digest its
  -- precondition names.
  pub new_pin_set-Follows :
      (pin_set : Value) (scope : Text) (consumer_id : Option Text) (prior : Option Value)
      {s : PinSet}
      → new_pin_set p pin_set expected scope consumer_id prior ≡ ok s
      → (own_digest : Text) × (pin_set_digest p pin_set ≡ ok own_digest)
        × (get (codes "pinSetDigest") pin_set ≡ string own_digest)
        × Follows pin_set prior
  new_pin_set-Follows pin_set scope consumer_id prior h =
      let is = new_pin_set-Validated pin_set scope consumer_id prior h in
      (is.own_digest, is.own_digest_is, is.own_digest_stated, is.follows)

  reference-is_some :
      (o : Option Value) (reference : Value) {d : Value}
      → got "digest" reference ≡ ok d
      → equal (or_null o) reference ≡ true
      → is_some o ≡ true
  unfolding equal
  reference-is_some (some v) reference at h = refl
  reference-is_some none (object fields) at h = cc
  reference-is_some none null at h = cc
  reference-is_some none (boolean b) at h = cc
  reference-is_some none (integer z) at h = cc
  reference-is_some none (floating n) at h = cc
  reference-is_some none (string t) at h = cc
  reference-is_some none (array i) at h = cc
  reference-is_some none other at h = cc

  Allowed-Expected :
      (s : PinSet) (v reference d : Value) (kind : Text) (signing_time : Option Value)
      → CurrentExpected expected s.current
      → PastExpected expected s.historical
      → got "digest" reference ≡ ok d
      → Allowed p s v reference d kind signing_time
      → Expected expected v
  Allowed-Expected s v reference d _ signing_time now past at (for_new h) =
      found-Expected expected v s.current now
        (reference-is_some (current_of v s.current) reference at h)
  Allowed-Expected s v reference d _ _ now past at (for_current h) =
      found-Expected expected v s.current now
        (reference-is_some (current_of v s.current) reference at h)
  Allowed-Expected s v reference d _ _ now past at (for_past found window signed within) =
      historical_of-Expected expected p v d s.historical past found

  string-injective : {s t : Text} → string s ≡ string t → s ≡ t
  string-injective h = cc

  -- A pin set that was accepted for a list of purposes authorizes a policy, for whatever use, only
  -- for a purpose of that list.
  pub authorize_policy-Expected :
      (pin_set : Value) (scope : Text) (consumer_id : Option Text) (prior : Option Value)
      (s : PinSet) (purpose : Text) (reference : Value) (kind : Text) (verification_time : Value)
      (signing_time : Option Value) {u : Unit {0}}
      → new_pin_set p pin_set expected scope consumer_id prior ≡ ok s
      → authorize_policy p s purpose reference kind verification_time signing_time ≡ ok u
      → contains purpose expected ≡ true
  authorize_policy-Expected pin_set scope consumer_id prior s purpose reference kind
        verification_time signing_time made h =
      let is = new_pin_set-Validated pin_set scope consumer_id prior made in
      let a =
        authorize_policy-Authorized p s purpose reference kind verification_time signing_time h in
      let e =
        Allowed-Expected s (string purpose) reference a.own_digest kind signing_time
          is.current_expected is.past_expected a.own_digest_is a.allowed in
      subst (λ (t : Text). contains t expected ≡ true) (sym (string-injective e.is_name))
        e.expected_name
