-- ===== src/Pins/PinSet/Tests.antt =====
-- A pin set of scripts/contracts/trust_policy_pins.py, and the policies that it authorizes.
use bytedesk_agent_delivery.Prelude.{
  ℕ, ◌≡◌, refl, Text, codes, true, List, [], ◌∷◌, Option, none, some, Result, ok, err, length, sort,
  text_less, texts_less, texts_equal, ◌=ₜ◌,
}
use bytedesk_agent_delivery.Digest.{digest}
use bytedesk_agent_delivery.Digest.Hex.{hexdigest}
use bytedesk_agent_delivery.Json.{Value, null, string, array, nil, cons}
use bytedesk_agent_delivery.Json.Document.{
  text, document, find, get, member, equal, equal_int, contains, all_contained, same_set, keys,
  field_names, hashable, distinct, size,
}
use bytedesk_agent_delivery.Json.Access.{selected}
use bytedesk_agent_delivery.Authority.{is_object, kept, with_profile}
use bytedesk_agent_delivery.Eligibility.Build.{items_of}
use bytedesk_agent_delivery.Pins.{
  PinError, Platform, pin_set_preimage, pin_set_digest, current_entries, initial_document,
  build_initial_trust_policy_pin_set,
}
use bytedesk_agent_delivery.Pins.PinSet.{
  PinSet, new_pin_set, authorize_policy, check_precondition, purposes_of, add_current, current_of,
  is_among, history_keys, add_historical, check_revocations, check_all_revoked, check_revoked,
  texts_in, check_effective, is_window, holds_at, among_items, authorize_use,
}
use bytedesk_agent_delivery.Pins.PinSet.Laws.{Authorized, authorize_policy-Authorized}
use bytedesk_agent_delivery.Pins.PinSet.Follows.{Follows}
use bytedesk_agent_delivery.Pins.PinSet.Policies.{new_pin_set-Follows, authorize_policy-Expected}

-- The time of a text is its length.
abbrev time_of : Value → Option ℕ
time_of (string t) = some (length t)
time_of _ = none

abbrev platform : Platform
platform = record { sha256 = λ b. b; jcs = λ v. 1 ∷ 2 ∷ []; timestamp = time_of }

abbrev purposes : List Text
purposes = codes "release-v1" ∷ codes "status-v1" ∷ []

abbrev reference : Text → Value
reference t = document (("id", string t) ∷ ("digest", string t) ∷ [])

abbrev made : Result PinError Value
made =
    build_initial_trust_policy_pin_set platform null (codes "pins") (codes "product") none purposes
      (λ t. some (reference t)) (text "1") (text "55555")

abbrev value_of : Result PinError Value → Value
value_of (ok v) = v
value_of (err e) = null

abbrev pins : Value
pins = value_of made

abbrev accepted : Result PinError PinSet
accepted = new_pin_set platform pins purposes (codes "product") none none

abbrev state_of : Result PinError PinSet → PinSet
state_of (ok s) = s
state_of (err e) = record { pins = null; current = []; historical = []; revocations = null }

abbrev state : PinSet
state = state_of accepted

new_pin_set_run : accepted ≡ ok state
unfolding new_pin_set build_initial_trust_policy_pin_set current_entries initial_document
    pin_set_digest pin_set_preimage selected all_contained contains keys field_names find get member
    equal equal_int same_set size with_profile kept digest hexdigest check_precondition purposes_of
    add_current current_of is_among history_keys add_historical check_revocations check_all_revoked
    check_revoked texts_in check_effective is_window is_object hashable distinct sort text_less
    texts_less texts_equal items_of ◌=ₜ◌
new_pin_set_run = refl

authorize_policy_run :
    authorize_policy platform state
      (codes "status-v1")
      (reference (codes "status-v1"))
      (codes "new")
      (text "333")
      none
    ≡ ok tt
unfolding new_pin_set build_initial_trust_policy_pin_set current_entries initial_document
    pin_set_digest pin_set_preimage selected all_contained contains keys field_names find get member
    equal equal_int same_set size with_profile kept digest hexdigest check_precondition purposes_of
    add_current current_of is_among history_keys add_historical check_revocations check_all_revoked
    check_revoked texts_in check_effective is_window is_object hashable distinct sort text_less
    texts_less texts_equal items_of ◌=ₜ◌ authorize_policy holds_at among_items authorize_use
authorize_policy_run = refl

new_pin_set-Follows_example :
    (own_digest : Text) × (pin_set_digest platform pins ≡ ok own_digest)
    × (get (codes "pinSetDigest") pins ≡ string own_digest)
    × Follows pins none
new_pin_set-Follows_example =
    new_pin_set-Follows purposes platform pins (codes "product") none none new_pin_set_run

-- The pin set with a policy digest revoked.
abbrev revoking : PinSet
revoking = record state {
  revocations = document (("policyDigests", array (cons (text "status-v0") nil)) ∷ []);
}

revoking_run :
    authorize_policy platform revoking
      (codes "status-v1")
      (reference (codes "status-v1"))
      (codes "new")
      (text "333")
      none
    ≡ ok tt
unfolding new_pin_set build_initial_trust_policy_pin_set current_entries initial_document
    pin_set_digest pin_set_preimage selected all_contained contains keys field_names find get member
    equal equal_int same_set size with_profile kept digest hexdigest check_precondition purposes_of
    add_current current_of is_among history_keys add_historical check_revocations check_all_revoked
    check_revoked texts_in check_effective is_window is_object hashable distinct sort text_less
    texts_less texts_equal items_of ◌=ₜ◌ authorize_policy holds_at among_items authorize_use
revoking_run = refl

authorize_policy-Authorized_example :
    Authorized platform revoking
      (codes "status-v1")
      (reference (codes "status-v1"))
      (codes "new")
      (text "333")
      none
authorize_policy-Authorized_example =
    authorize_policy-Authorized platform revoking (codes "status-v1")
      (reference (codes "status-v1")) (codes "new") (text "333") none revoking_run

authorize_policy-Expected_example : contains (codes "status-v1") purposes ≡ true
authorize_policy-Expected_example =
    authorize_policy-Expected purposes platform pins (codes "product") none none state
      (codes "status-v1") (reference (codes "status-v1")) (codes "new") (text "333") none
      new_pin_set_run authorize_policy_run
