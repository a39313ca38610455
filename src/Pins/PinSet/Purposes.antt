-- ===== src/Pins/PinSet/Purposes.antt =====
-- The purposes that the loops of `TrustPolicyPinSet` in scripts/contracts/trust_policy_pins.py let
-- into its tables.
use bytedesk_agent_delivery.Prelude.{
  ◌≡◌, refl, sym, ◌∙◌, ap, subst, Text, codes, String, Bool, true, false, ◌&&◌, ◌||◌, List, [], ◌∷◌,
  Option, none, some, Result, ok, err, ◌>>=◌, All, ◌=ₜ◌, =ₜ-refl, Bool-cases, inl, inr, >>=-eq-ok,
  ok-injective, require-eq-ok, arith, if◌then◌else◌,
}
use bytedesk_agent_delivery.Json.{
  Value, null, boolean, integer, floating, string, array, object, other, Items, nil, cons,
}
use bytedesk_agent_delivery.Json.Document.{
  texts, find, get, member, equal, keys, same_set, contains,
}
use bytedesk_agent_delivery.Json.Document.Laws.{equal-string, equal-to_string}
use bytedesk_agent_delivery.Json.Access
use bytedesk_agent_delivery.Json.Access.{all_of}
use bytedesk_agent_delivery.Json.Access.Laws.{all_of-nth}
use bytedesk_agent_delivery.Pins.{
  PinError, entry_invalid, history_invalid, python_error, Platform, path, got,
}
use bytedesk_agent_delivery.Pins.PinSet.{
  Current, Historical, current_of, historical_of, is_some, or_null, purposes_of, current_conditions,
  add_current, history_conditions, add_historical,
}

-- A purpose that is expected.
pub record Expected (expected : List Text) (v : Value) : Type 0 where
  pub name : Text
  pub is_name : v ≡ string name
  pub expected_name : contains name expected ≡ true

unfoldable pub AllItems : (Value → Type 0) → Items → Type 0
AllItems P nil = Unit {0}
AllItems P (cons v rest) = P v × AllItems P rest

or_left : {a : Bool} (b : Bool) → a ≡ true → (a || b) ≡ true
or_left b h = ground arith

and-true : (a : Bool) {b : Bool} → (a && b) ≡ true → (a ≡ true) × (b ≡ true)
and-true true h = (refl, h)
and-true false h = cc

or_right : (a : Bool) {b : Bool} → b ≡ true → (a || b) ≡ true
or_right a h = ground arith

weaken :
    (t : Text) (expected : List Text) (items : Items)
    → AllItems (Expected expected) items
    → AllItems (Expected (t ∷ expected)) items
unfolding contains AllItems
weaken t expected nil h = tt
weaken t expected (cons v rest) h = (
  record {
    name = h.0.name;
    is_name = h.0.is_name;
    expected_name = or_right (t =ₜ h.0.name) h.0.expected_name;
  },
  weaken t expected rest h.1,
)

-- Purposes that equal the expected ones are expected.
pub equal_items-Expected :
    (items : Items) (expected : List Text)
    → equal (array items) (array (texts expected)) ≡ true
    → AllItems (Expected expected) items
unfolding equal contains AllItems
equal_items-Expected nil [] h = tt
equal_items-Expected nil (t ∷ ts) h = tt
equal_items-Expected (cons v rest) [] h = cc
equal_items-Expected (cons v rest) (t ∷ ts) h =
    let (here, there) = and-true (equal v (string t)) h in
    (
      record {
        name = t;
        is_name = equal-to_string v t here;
        expected_name = or_left _ (=ₜ-refl t);
      },
      weaken t ts rest (equal_items-Expected rest ts there),
    )

path_one : (m : Result PinError Value) {v : Value} → (m >>= λ w. ok w) ≡ ok v → m ≡ ok v
path_one (ok w) h = h
path_one (err e) h = cc

-- Where `document[key]` is there, `document.get(key)` is it.
found-got : (o : Option Value) {v : Value} → Access.present python_error o ≡ ok v → or_null o ≡ v
found-got none h = cc
found-got (some w) h = ok-injective h

path-got :
    (k : String) (entry : Value) {v : Value} → path entry (k ∷ []) ≡ ok v → got k entry ≡ ok v
unfolding get member
path-got k (object fields) h = ap ok (found-got (find (codes k) fields) (path_one _ h))
path-got k null h = cc
path-got k (boolean b) h = cc
path-got k (integer z) h = cc
path-got k (floating n) h = cc
path-got k (string t) h = cc
path-got k (array i) h = cc
path-got k other h = cc

module _ (expected : List Text) where
  abbrev pub CurrentExpected : Current → Type 0
  CurrentExpected current = All (λ e. Expected expected e.0) current

  pub add_current-Expected :
      (current : Current) (seen : List Value) (items : Items) {out : Current} {purposes : Items}
      → add_current current seen items ≡ ok out
      → purposes_of items ≡ ok purposes
      → AllItems (Expected expected) purposes
      → CurrentExpected current
      → CurrentExpected out
  unfolding add_current purposes_of AllItems
  add_current-Expected current seen nil h at expects before =
      subst (λ (c : Current). CurrentExpected c) (ok-injective h) before
  add_current-Expected current seen (cons entry rest) h at expects before =
      let (_, h1) =
        require-eq-ok (same_set (keys entry) (codes "purpose" ∷ codes "trustPolicy" ∷ []))
          entry_invalid _ h in
      let (purpose, purpose_at, h2) = >>=-eq-ok (path entry ("purpose" ∷ [])) _ h1 in
      let (reference, _, h3) = >>=-eq-ok (path entry ("trustPolicy" ∷ [])) _ h2 in
      let (valid, _, h4) =
        >>=-eq-ok (all_of (current_conditions purpose reference current seen)) _ h3 in
      let (_, h5) = require-eq-ok valid entry_invalid _ h4 in
      let (d, _, h6) = >>=-eq-ok (path reference ("digest" ∷ [])) _ h5 in
      let (first, first_at, at1) = >>=-eq-ok (got "purpose" entry) _ at in
      let (others, others_are, at2) = >>=-eq-ok (purposes_of rest) _ at1 in
      let split =
        subst (λ (i : Items). AllItems (Expected expected) i) (sym (ok-injective at2)) expects in
      add_current-Expected ((purpose, reference) ∷ current) (d ∷ seen) rest h6 others_are split.1 (
        subst (λ (v : Value). Expected expected v)
            (ok-injective (sym first_at ∙ path-got "purpose" entry purpose_at)) split.0,
        before,
      )

  -- A key that is found is an expected purpose.
  key-Expected : (k v : Value) → equal k v ≡ true → Expected expected k → Expected expected v
  key-Expected k v h e = record {
    name = e.name;
    is_name = equal-string e.name v (subst (λ x. equal x v ≡ true) e.is_name h);
    expected_name = e.expected_name;
  }

  skipped :
      (b : Bool) (x y : Option Value)
      → b ≡ false
      → is_some (if b then x else y) ≡ true
      → is_some y ≡ true
  skipped true x y differs h = cc
  skipped false x y differs h = h

  pub found-Expected :
      (v : Value) (current : Current)
      → CurrentExpected current
      → is_some (current_of v current) ≡ true
      → Expected expected v
  unfolding current_of
  found-Expected v [] all h = cc
  found-Expected v ((k, reference) ∷ rest) all h = elim (Bool-cases (equal k v)) [
    | inl same ↦ key-Expected k v same all.0
    | inr differs ↦
        found-Expected v rest all.1
          (skipped (equal k v) (some reference) (current_of v rest) differs h)
  ]

  passed :
      (b : Bool) (x y : Option Value) {entry : Value}
      → b ≡ false
      → (if b then x else y) ≡ some entry
      → y ≡ some entry
  passed true x y differs h = cc
  passed false x y differs h = h

  abbrev pub PastExpected : Historical → Type 0
  PastExpected historical = All (λ e. Expected expected e.0.0) historical

  module _ (p : Platform) where
    pub add_historical-Expected :
        (current : Current) (historical : Historical) (items : Items) {out : Historical}
        → add_historical p current historical items ≡ ok out
        → CurrentExpected current
        → PastExpected historical
        → PastExpected out
    unfolding add_historical
    add_historical-Expected current historical nil h now before =
        subst (λ (c : Historical). PastExpected c) (ok-injective h) before
    add_historical-Expected current historical (cons entry rest) h now before =
        let (_, h1) =
          require-eq-ok
            (same_set (keys entry)
              (codes "purpose" ∷ codes "trustPolicy" ∷ codes "validForSigning" ∷ []))
            history_invalid _ h in
        let (purpose, _, h2) = >>=-eq-ok (path entry ("purpose" ∷ [])) _ h1 in
        let (reference, _, h3) = >>=-eq-ok (path entry ("trustPolicy" ∷ [])) _ h2 in
        let (window, _, h4) = >>=-eq-ok (path entry ("validForSigning" ∷ [])) _ h3 in
        let (d, _, h5) = >>=-eq-ok (got "digest" reference) _ h4 in
        let conditions = history_conditions p current historical purpose reference d window in
        let (valid, valid_is, h6) = >>=-eq-ok (all_of conditions) _ h5 in
        let (holds, h7) = require-eq-ok valid history_invalid _ h6 in
        let known = all_of-nth conditions 0 (valid_is ∙ ap ok holds) in
        add_historical-Expected current (((purpose, d), entry) ∷ historical) rest h7 now
          (found-Expected purpose current now (ok-injective known), before)

    pub historical_of-Expected :
        (v d : Value) (historical : Historical) {entry : Value}
        → PastExpected historical
        → historical_of v d historical ≡ some entry
        → Expected expected v
    unfolding historical_of
    historical_of-Expected v d [] all h = cc
    historical_of-Expected v d (((k, e), past) ∷ rest) all h =
        elim (Bool-cases (equal k v && equal e d)) [
          | inl same ↦ key-Expected k v (and-true (equal k v) same).0 all.0
          | inr differs ↦
              historical_of-Expected v d rest all.1
                (passed (equal k v && equal e d) (some past) (historical_of v d rest) differs h)
        ]
