-- ===== src/Pins/PinSet/Tables.antt =====
-- The tables of `TrustPolicyPinSet` in scripts/contracts/trust_policy_pins.py, and the guards on its
-- entries that need no time.
use bytedesk_agent_delivery.Prelude.{
  ◌+◌, zero, suc, Text, codes, String, Bool, true, false, not, ◌&&◌, ◌||◌, List, [], ◌∷◌, Option,
  none, some, map, Result, ok, err, ◌>>=◌, ◌>>◌, require, pos, negsuc, if◌then◌else◌,
}
use bytedesk_agent_delivery.Json.{
  Value, null, boolean, integer, string, array, object, Items, nil, cons, end,
}
use bytedesk_agent_delivery.Json.Document.{
  text, number, document, find, get, equal, keys, field_names, same_set, hashable,
}
use bytedesk_agent_delivery.Json.Access.{same, all_of}
use bytedesk_agent_delivery.Authority.{is_object}
use bytedesk_agent_delivery.Eligibility.Build.{Keyed}
use bytedesk_agent_delivery.Pins.{
  PinError, precondition_mismatch, entry_invalid, python_error, path, got,
}

-- The references by purpose, and the historical entries by purpose and digest.
abbrev pub Current : Type 0
Current = List (Value × Value)

abbrev pub Historical : Type 0
Historical = List ((Value × Value) × Value)

pub record PinSet : Type 0 where
  pub pins : Value
  pub current : Current
  pub historical : Historical
  pub revocations : Value

unfoldable pub current_of : Value → Current → Option Value
unfolding equal
current_of purpose [] = none
current_of purpose ((k, reference) ∷ rest) =
    if equal k purpose then some reference else current_of purpose rest

unfoldable pub historical_of : Value → Value → Historical → Option Value
unfolding equal
historical_of purpose d [] = none
historical_of purpose d (((k, e), entry) ∷ rest) =
    if equal k purpose && equal e d then some entry else historical_of purpose d rest

abbrev pub is_some : Option Value → Bool
is_some none = false
is_some (some v) = true

abbrev pub or_null : Option Value → Value
or_null none = null
or_null (some v) = v

-- The texts that a `list` holds, where it holds nothing else; a `set` refuses what has no hash.
unfoldable pub texts_in : Items → Result PinError (Option (List Text))
unfolding hashable
texts_in nil = ok (some [])
texts_in (cons v rest) = do
  require (hashable v) python_error
  others ← texts_in rest
  ok (with_first v others)
  where
    with_first : Value → Option (List Text) → Option (List Text)
    with_first (string t) (some ts) = some (t ∷ ts)
    with_first _ _ = none

abbrev pub are_names : List Text → Option (List Text) → Bool
are_names names none = false
are_names names (some ts) = same_set ts names

-- `set(value) == names`
unfoldable pub set_is : List Text → Value → Result PinError Bool
unfolding texts_in same_set field_names
set_is names (object fields) = ok (same_set (field_names fields) names)
set_is names (array items) = texts_in items >>= λ o. ok (are_names names o)
set_is names (string t) = ok (same_set (map (λ c. c ∷ []) t) names)
set_is names _ = err python_error

-- `value + 1` on an integer; a `bool` is one, and a float is outside the model.
unfoldable pub plus_one : Value → Result PinError Value
plus_one (integer (pos n)) = ok (integer (pos (n + 1)))
plus_one (integer (negsuc zero)) = ok (integer (pos 0))
plus_one (integer (negsuc (suc n))) = ok (integer (negsuc n))
plus_one (boolean b) = ok (if b then number 2 else number 1)
plus_one _ = err python_error

abbrev pub is_absent : Option Value → Bool
is_absent none = true
is_absent (some v) = false

-- A later revision follows the prior one.
unfoldable pub succeeds : Value → Value → Option Value → Result PinError (Unit {0})
unfolding equal plus_one
succeeds revision precondition none = err precondition_mismatch
succeeds revision precondition (some prior) = do
  prior_revision ← path prior ("revision" ∷ [])
  prior_digest ← path prior ("pinSetDigest" ∷ [])
  let expected =
      document
        (("kind", text "match") ∷ ("revision", prior_revision) ∷ ("digest", prior_digest) ∷ [])
  require (equal precondition expected) precondition_mismatch
  next ← plus_one prior_revision
  require (equal revision next) precondition_mismatch

unfoldable pub check_precondition : Value → Value → Option Value → Result PinError (Unit {0})
unfolding succeeds equal
check_precondition revision precondition prior =
    if equal revision (number 1)
    then require (is_absent prior && equal precondition (document (("kind", text "absent") ∷ [])))
        precondition_mismatch
    else succeeds revision precondition prior

-- `[entry.get("purpose") for entry in current_entries]`
unfoldable pub purposes_of : Items → Result PinError Items
unfolding get
purposes_of nil = ok nil
purposes_of (cons entry rest) = do
  purpose ← got "purpose" entry
  others ← purposes_of rest
  ok (cons purpose others)

unfoldable pub is_among : Value → List Value → Bool
unfolding equal
is_among v [] = false
is_among v (w ∷ ws) = equal w v || is_among v ws

abbrev pub hashed : Bool → Value → Result PinError Bool
hashed b v = require (hashable v) python_error >> ok b

abbrev pub reference_fields : List Text
reference_fields = codes "id" ∷ codes "digest" ∷ []

abbrev pub current_conditions : Value → Value → Current → List Value → List (Result PinError Bool)
current_conditions purpose reference current seen =
    ok (is_object reference)
    ∷ ok (same_set (keys reference) reference_fields)
    ∷ same (path reference ("id" ∷ [])) (ok purpose)
    ∷ hashed (not (is_some (current_of purpose current))) purpose
    ∷ (do d ← path reference ("digest" ∷ []); hashed (not (is_among d seen)) d)
    ∷ []

-- The loop over the current entries.
unfoldable pub add_current : Current → List Value → Items → Result PinError Current
unfolding equal same_set keys is_object current_of is_among hashable
add_current current seen nil = ok current
add_current current seen (cons entry rest) = do
  require (same_set (keys entry) (codes "purpose" ∷ codes "trustPolicy" ∷ [])) entry_invalid
  purpose ← path entry ("purpose" ∷ [])
  reference ← path entry ("trustPolicy" ∷ [])
  valid ← all_of (current_conditions purpose reference current seen)
  require valid entry_invalid
  d ← path reference ("digest" ∷ [])
  add_current ((purpose, reference) ∷ current) (d ∷ seen) rest

-- `document.get(key, default)`
abbrev pub got_or : String → Value → Value → Result PinError Value
got_or k default (object fields) = ok (elim (find (codes k) fields) [ some v ↦ v | none ↦ default ])
got_or k default _ = err python_error

abbrev pub encoded : Value → Result PinError Text
encoded (string t) = ok t
encoded _ = err python_error

-- The key by which the historical entries are ordered.
unfoldable pub history_key : Value → Result PinError (List Text)
unfolding find
history_key entry = do
  purpose ← got_or "purpose" (string []) entry >>= encoded
  reference ← got_or "trustPolicy" (object end) entry
  d ← got_or "digest" (string []) reference >>= encoded
  ok (purpose ∷ d ∷ [])

unfoldable pub history_keys : Items → Result PinError (List Keyed)
unfolding history_key
history_keys nil = ok []
history_keys (cons entry rest) = do
  key ← history_key entry
  others ← history_keys rest
  ok ((key, entry) ∷ others)
