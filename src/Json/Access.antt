-- ===== src/Json/Access.antt =====
-- Reading the members of JSON documents where Python may raise: `document[key]`, `document.get(key)`,
-- and chains of `and` whose parts may raise. The exception is the parameter `missing`.
pub mod Laws
use bytedesk_agent_delivery.Prelude.{
  Text, codes, String, Bool, true, false, not, List, [], ◌∷◌, Option, none, some, Result, ok, err,
  ◌>>=◌, if◌then◌else◌,
}
use bytedesk_agent_delivery.Json.{Value, object, Fields, end, field, name}
use bytedesk_agent_delivery.Json.Document.{member, equal, find}

module _ {E : Type 0} (missing : E) where
  abbrev pub present : Option Value → Result E Value
  present none = err missing
  present (some v) = ok v

  abbrev pub item : Text → Value → Result E Value
  item k v = present (member k v)

  -- `document[k][l]…`
  abbrev pub path : Value → List String → Result E Value
  path v [] = ok v
  path v (k ∷ ks) = item (codes k) v >>= λ w. path w ks

  -- `{field: document[field] for field in fields}`
  unfoldable pub selected : List String → Value → Result E Fields
  selected [] v = ok end
  selected (k ∷ ks) v = do
    value ← item (codes k) v
    rest ← selected ks v
    ok (field (name (codes k)) value rest)

module _ {E : Type 0} where
  -- `a == b` and `a != b`, where evaluating either may raise.
  abbrev pub same : Result E Value → Result E Value → Result E Bool
  same m n = m >>= λ a. n >>= λ b. ok (equal a b)

  abbrev pub negated : Result E Bool → Result E Bool
  negated m = m >>= λ b. ok (not b)

  -- A chain of `and`.
  abbrev pub all_of : List (Result E Bool) → Result E Bool
  all_of [] = ok true
  all_of (m ∷ ms) = m >>= λ b. if b then all_of ms else ok false

  abbrev pub and_then : Bool → Result E Bool → Result E Bool
  and_then true m = m
  and_then false m = ok false
