-- ===== src/Pins/PinSet.antt =====
-- `TrustPolicyPinSet` of scripts/contracts/trust_policy_pins.py.
mod Tables
pub mod Laws
pub mod Follows
pub mod Purposes
pub mod Policies
mod Tests
use bytedesk_agent_delivery.Prelude.{
  ℕ, ◌+◌, ◌-◌, zero, suc, Text, codes, String, Bool, true, false, not, ◌&&◌, ◌||◌, List, [], ◌∷◌,
  ◌++◌, Option, none, some, map, Result, ok, err, ◌>>=◌, ◌>>◌, require, leb, ltb, ◌=ₜ◌, pos, negsuc,
  sort, text_less, texts_less, texts_equal, if◌then◌else◌,
}
use bytedesk_agent_delivery.Json.{
  Value, null, boolean, integer, floating, string, array, object, Items, nil, cons, Fields, end,
  field,
}
use bytedesk_agent_delivery.Json.Document.{
  text, number, texts, document, find, get, equal, keys, field_names, same_set, hashable, distinct,
}
use bytedesk_agent_delivery.Json.Access.{same, all_of, and_then}
use bytedesk_agent_delivery.Authority.{is_object}
use bytedesk_agent_delivery.Eligibility.Build.{Keyed, by_key, items_of}
use bytedesk_agent_delivery.Pins.{
  PinError, digest_mismatch, scope_mismatch, precondition_mismatch, incomplete, entry_invalid,
  history_invalid, history_order_invalid, revocations_invalid, effective_invalid, not_effective,
  policy_revoked, retired_for_new_use, use_invalid, policy_mismatch, not_pinned_at_signing_time,
  python_error, Platform, item, path, got, text_or_null, parse_timestamp, pin_set_digest,
}
unfoldable pub use Tables.*

module _ (p : Platform) where
  -- `_timestamp(window["notBefore"]) < _timestamp(window["notAfter"])`
  unfoldable pub is_window : Value → Result PinError Bool
  is_window window = do
    not_before ← path window ("notBefore" ∷ [])
    s ← parse_timestamp p not_before
    not_after ← path window ("notAfter" ∷ [])
    t ← parse_timestamp p not_after
    ok (ltb s t)

  -- `_timestamp(window["notBefore"]) <= time < _timestamp(window["notAfter"])`
  unfoldable pub holds_at : ℕ → Value → Result PinError Bool
  holds_at time window = do
    not_before ← path window ("notBefore" ∷ [])
    s ← parse_timestamp p not_before
    and_then (leb s time) (do
      not_after ← path window ("notAfter" ∷ [])
      t ← parse_timestamp p not_after
      ok (ltb time t))

  abbrev pub window_fields : List Text
  window_fields = codes "notBefore" ∷ codes "notAfter" ∷ []

  abbrev pub history_conditions :
      Current → Historical → Value → Value → Value → Value → List (Result PinError Bool)
  history_conditions current historical purpose reference d window =
      ok (is_some (current_of purpose current))
      ∷ ok (same_set (keys reference) reference_fields)
      ∷ same (path reference ("id" ∷ [])) (ok purpose)
      ∷ ok (not (is_some (historical_of purpose d historical)))
      ∷ ok (not (equal reference (or_null (current_of purpose current))))
      ∷ set_is window_fields window
      ∷ is_window window
      ∷ []

  -- The loop over the historical entries.
  unfoldable pub add_historical : Current → Historical → Items → Result PinError Historical
  unfolding equal same_set keys get current_of historical_of set_is is_window
  add_historical current historical nil = ok historical
  add_historical current historical (cons entry rest) = do
    require
        (same_set (keys entry)
          (codes "purpose" ∷ codes "trustPolicy" ∷ codes "validForSigning" ∷ []))
        history_invalid
    purpose ← path entry ("purpose" ∷ [])
    reference ← path entry ("trustPolicy" ∷ [])
    window ← path entry ("validForSigning" ∷ [])
    d ← got "digest" reference
    valid ← all_of (history_conditions current historical purpose reference d window)
    require valid history_invalid
    add_historical current (((purpose, d), entry) ∷ historical) rest

  -- `values != sorted(set(values), …)`
  unfoldable pub check_revoked : Value → Result PinError (Unit {0})
  unfolding texts_in texts_equal sort text_less distinct
  check_revoked (array items) = texts_in items >>= λ o. elim o [
    | some ts ↦ require (texts_equal ts (sort text_less (distinct ts))) revocations_invalid
    | none ↦ err python_error
  ]
  check_revoked (string t) = err revocations_invalid
  check_revoked (object fields) = err revocations_invalid
  check_revoked _ = err python_error

  unfoldable pub check_all_revoked : Fields → Result PinError (Unit {0})
  unfolding check_revoked
  check_all_revoked end = ok tt
  check_all_revoked (field k v rest) = check_revoked v >> check_all_revoked rest

  abbrev pub fields_of : Value → Result PinError Fields
  fields_of (object fields) = ok fields
  fields_of _ = err revocations_invalid

  unfoldable pub check_revocations : Value → Result PinError (Unit {0})
  unfolding check_all_revoked same_set keys
  check_revocations revocations = do
    fields ← fields_of revocations
    require
        (same_set (keys revocations)
          (codes "policyDigests" ∷ codes "keyVersions" ∷ codes "publicKeyDigests" ∷ []))
        revocations_invalid
    check_all_revoked fields

  unfoldable pub check_effective : Value → Result PinError (Unit {0})
  unfolding is_window same_set keys is_object
  check_effective effective = do
    valid ← all_of (
        ok (is_object effective)
        ∷ ok (same_set (keys effective) window_fields)
        ∷ is_window effective
        ∷ [])
    require valid effective_invalid

  abbrev pub listed : PinError → Value → Result PinError Items
  listed e (array items) = ok items
  listed e _ = err e

  -- `__init__`
  unfoldable pub new_pin_set :
      Value → List Text → Text → Option Text → Option Value → Result PinError PinSet
  unfolding pin_set_digest get equal check_precondition purposes_of add_current history_keys sort
      texts_less items_of add_historical check_revocations check_effective
  new_pin_set pin_set expected scope consumer_id prior = do
    own_digest ← pin_set_digest p pin_set
    require (equal (get (codes "pinSetDigest") pin_set) (string own_digest)) digest_mismatch
    require
        (equal (get (codes "scope") pin_set) (string scope)
          && equal (get (codes "consumerId") pin_set) (text_or_null consumer_id))
        scope_mismatch
    check_precondition (get (codes "revision") pin_set) (get (codes "precondition") pin_set) prior
    entries ← listed incomplete (get (codes "currentForNewUse") pin_set)
    purposes ← purposes_of entries
    require (equal (array purposes) (array (texts expected))) incomplete
    current ← add_current [] [] entries
    past ← listed history_invalid (get (codes "historicalVerification") pin_set)
    past_keys ← history_keys past
    require (equal (array past) (array (items_of (sort by_key past_keys)))) history_order_invalid
    historical ← add_historical current [] past
    let revocations = get (codes "revocations") pin_set
    check_revocations revocations
    check_effective (get (codes "effective") pin_set)
    ok (record {
      pins = pin_set;
      current = current;
      historical = historical;
      revocations = revocations;
    })

  unfoldable pub among_items : Value → Items → Bool
  unfolding equal
  among_items v nil = false
  among_items v (cons w rest) = equal w v || among_items v rest

  -- `digest in self.revocations["policyDigests"]`
  abbrev pub is_revoked : PinSet → Value → Result PinError Bool
  is_revoked s d = do
    revoked ← path s.revocations ("policyDigests" ∷ [])
    items ← listed python_error revoked
    ok (among_items d items)

  -- The last part of `authorize_policy`: the window of the historical entry.
  unfoldable pub authorize_past : Option Value → Value → Result PinError (Unit {0})
  unfolding holds_at
  authorize_past none signing_time = err policy_mismatch
  authorize_past (some entry) signing_time = do
    signed_at ← parse_timestamp p signing_time
    window ← path entry ("validForSigning" ∷ [])
    pinned ← holds_at signed_at window
    require pinned not_pinned_at_signing_time

  -- The use of a policy for a signature that was made before.
  unfoldable pub authorize_historical :
      PinSet → Value → Value → Value → Option Value → Result PinError (Unit {0})
  unfolding current_of historical_of equal authorize_past hashable
  authorize_historical s purpose reference d none = err use_invalid
  authorize_historical s purpose reference d (some signing_time) =
      if equal (or_null (current_of purpose s.current)) reference
      then ok tt
      else require (hashable d) python_error
        >> authorize_past (historical_of purpose d s.historical) signing_time

  -- The branches on `use`.
  unfoldable pub authorize_use :
      PinSet → Value → Value → Value → Text → Option Value → Result PinError (Unit {0})
  unfolding current_of equal authorize_historical ◌=ₜ◌
  authorize_use s purpose reference d kind signing_time =
      if kind =ₜ codes "new"
      then require (equal (or_null (current_of purpose s.current)) reference) retired_for_new_use
      else if kind =ₜ codes "historical"
      then authorize_historical s purpose reference d signing_time
      else err use_invalid

  unfoldable pub authorize_policy :
      PinSet → Text → Value → Text → Value → Option Value → Result PinError (Unit {0})
  unfolding get holds_at among_items authorize_use
  authorize_policy s purpose reference kind verification_time signing_time = do
    evaluated_at ← parse_timestamp p verification_time
    effective ← path s.pins ("effective" ∷ [])
    is_effective ← holds_at evaluated_at effective
    require is_effective not_effective
    d ← got "digest" reference
    revoked ← is_revoked s d
    require (not revoked) policy_revoked
    authorize_use s (string purpose) reference d kind signing_time
