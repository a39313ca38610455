-- ===== src/Json/Document.antt =====
-- JSON documents as the contract scripts use them: a `dict` is an `object` with text keys.
pub mod Laws
use bytedesk_agent_delivery.Prelude.{
  ℕ, ◌+◌, Text, codes, String, Bool, true, false, not, ◌&&◌, ◌||◌, List, [], ◌∷◌, Option, none,
  some, ℤ, pos, negsuc, ◌==◌, ◌=ₜ◌, if◌then◌else◌,
}
use bytedesk_agent_delivery.Json.{
  Value, null, boolean, integer, floating, string, array, object, Items, nil, cons, Fields, end,
  field, Key, name, non_string,
}

-- Notation for the documents that the code writes out.
abbrev pub text : String → Value
text s = string (codes s)

abbrev pub number : ℕ → Value
number n = integer (pos n)

abbrev pub texts : List Text → Items
texts [] = nil
texts (t ∷ ts) = cons (string t) (texts ts)

abbrev pub members : List (String × Value) → Fields
members [] = end
members ((k, v) ∷ rest) = field (name (codes k)) v (members rest)

-- A document that the code writes out, member by member.
abbrev pub document : List (String × Value) → Value
document pairs = object (members pairs)

abbrev pub is_key : Text → Key → Bool
is_key k (name n) = n =ₜ k
is_key k non_string = false

-- The value of a key; keys of a `dict` are distinct.
unfoldable pub find : Text → Fields → Option Value
unfolding ◌=ₜ◌
find k end = none
find k (field key value rest) = if is_key k key then some value else find k rest

-- `document.get(key)`: `None` where the key is missing, and here where there is no `dict`.
unfoldable pub get : Text → Value → Value
unfolding find
get k (object fields) = elim (find k fields) [ some value ↦ value | none ↦ null ]
get k _ = null

-- `document[key]`; `none` is a `KeyError`.
unfoldable pub member : Text → Value → Option Value
unfolding find
member k (object fields) = find k fields
member k _ = none

unfoldable pub size : Fields → ℕ
size end = 0
size (field key value rest) = size rest + 1

unfoldable pub equal_int : ℤ → ℤ → Bool
equal_int (pos a) (pos b) = a == b
equal_int (negsuc a) (negsuc b) = a == b
equal_int _ _ = false

equal_bool : Bool → Bool → Bool
equal_bool true b = b
equal_bool false b = not b

find_key : Key → Fields → Option Value
find_key (name k) fields = find k fields
find_key non_string fields = none

-- Python's `==` on two JSON values. The order of the members of a `dict` does not count.
unfoldable mutual
  unfolding equal_int equal_bool find_key find size ◌=ₜ◌

  pub equal : Value → Value → Bool
  equal null null = true
  equal (boolean a) (boolean b) = equal_bool a b
  equal (integer a) (integer b) = equal_int a b
  equal (floating a) (floating b) = a == b
  equal (string a) (string b) = a =ₜ b
  equal (array a) (array b) = equal_items a b
  equal (object a) (object b) = size a == size b && equal_fields a b
  equal _ _ = false

  pub equal_items : Items → Items → Bool
  equal_items nil nil = true
  equal_items (cons a as') (cons b bs) = equal a b && equal_items as' bs
  equal_items _ _ = false

  pub equal_fields : Fields → Fields → Bool
  equal_fields end bs = true
  equal_fields (field k a rest) bs = elim (find_key k bs) [
    | some b ↦ equal a b && equal_fields rest bs
    | none ↦ false
  ]

-- Whether Python can look a value up in a `dict` or a `set`.
unfoldable pub hashable : Value → Bool
hashable (array items) = false
hashable (object fields) = false
hashable _ = true

-- `key in fields` for a list of texts.
unfoldable pub contains : Text → List Text → Bool
unfolding ◌=ₜ◌
contains k [] = false
contains k (n ∷ names) = n =ₜ k || contains k names

-- `set(texts)`: equal texts once.
unfoldable pub distinct : List Text → List Text
unfolding contains
distinct [] = []
distinct (d ∷ ds) = if contains d ds then distinct ds else d ∷ distinct ds

unfoldable pub all_contained : List Text → List Text → Bool
unfolding contains
all_contained [] names = true
all_contained (k ∷ ks) names = contains k names && all_contained ks names

-- `set(a) == set(b)`
unfoldable pub same_set : List Text → List Text → Bool
unfolding all_contained
same_set a b = all_contained a b && all_contained b a

-- The keys of a `dict`.
unfoldable pub field_names : Fields → List Text
field_names end = []
field_names (field (name k) value rest) = k ∷ field_names rest
field_names (field non_string value rest) = field_names rest

unfoldable pub keys : Value → List Text
unfolding field_names
keys (object fields) = field_names fields
keys _ = []
