-- ===== src/Authority.antt =====
-- scripts/contracts/renderer_authority.py: the preimages of authority digests that a schema declares.
pub mod Laws
mod Tests
use bytedesk_agent_delivery.Prelude.{
  ℕ, Text, codes, Bool, true, false, not, ◌&&◌, ◌||◌, List, [], ◌∷◌, ◌++◌, Option, none, some,
  Result, ok, err, ◌>>=◌, ◌>>◌, require, if◌then◌else◌,
}
use bytedesk_agent_delivery.Json.{
  Value, string, array, object, boolean, Items, nil, cons, Fields, end, field, name, non_string,
}
use bytedesk_agent_delivery.Json.Document.{
  find, get, member, keys, equal, contains, all_contained, texts,
}

-- The messages of `ValueError` and `KeyError`.
pub data AuthorityError : Type 0 where
  lacks_authority invalid_metadata fields_not_unique unbound_field undeclared_property :
      AuthorityError
  missing_fields not_closed exclusion_not_required admits_more : AuthorityError

unfoldable pub is_object : Value → Bool
is_object (object fields) = true
is_object _ = false

unfoldable pub is_string : Value → Bool
is_string (string t) = true
is_string _ = false

unfoldable pub is_array : Value → Bool
is_array (array items) = true
is_array _ = false

-- The items of an array of texts; `none` where one is no text.
unfoldable pub text_items : Items → Option (List Text)
text_items nil = some []
text_items (cons (string t) rest) = elim (text_items rest) [ some ts ↦ some (t ∷ ts) | none ↦ none ]
text_items (cons _ rest) = none

abbrev pub text_list : Value → Option (List Text)
text_list (array items) = text_items items
text_list _ = none

-- `list(required)` where it is an array of texts, and nothing where it is missing.
abbrev pub names_of : Value → List Text
names_of value = elim (text_list value) [ some ts ↦ ts | none ↦ [] ]

-- `len(fields) == len(set(fields))`
unfoldable pub unique : List Text → Bool
unfolding contains
unique [] = true
unique (t ∷ ts) = not (contains t ts) && unique ts

unfoldable pub without : List Text → List Text → List Text
unfolding contains
without excluded [] = []
without excluded (t ∷ ts) =
    if contains t excluded then without excluded ts else t ∷ without excluded ts

-- The chosen members of a document, in the order of the list.
unfoldable pub chosen : List Text → Value → Option Fields
chosen [] document = some end
chosen (f ∷ fs) document = elim (member f document) [
  | none ↦ none
  | some value ↦ elim (chosen fs document) [
    | none ↦ none
    | some rest ↦ some (field (name f) value rest)
  ]
]

-- The members of a document whose names are not excluded.
unfoldable pub kept : List Text → Fields → Fields
unfolding contains
kept excluded end = end
kept excluded (field (name k) value rest) =
    if contains k excluded then kept excluded rest else field (name k) value (kept excluded rest)
kept excluded (field non_string value rest) = field non_string value (kept excluded rest)

-- `{"profile": profile, **members}`: a member of that name takes the place of the profile.
unfoldable pub with_profile : Value → Fields → Value
unfolding kept find
with_profile profile members =
    let value : Value = elim (find (codes "profile") members) [ some own ↦ own | none ↦ profile ] in
    object (field (name (codes "profile")) value (kept (codes "profile" ∷ []) members))

abbrev pub found : Option Fields → Result AuthorityError Fields
found none = err missing_fields
found (some fields) = ok fields

abbrev pub listed : Option (List Text) → Result AuthorityError (List Text)
listed none = err fields_not_unique
listed (some fields) = ok fields

unfoldable pub is_empty : List Text → Bool
is_empty [] = true
is_empty (t ∷ ts) = false

-- The list of fields that the digest authority of a schema names, as both functions check it.
unfoldable pub authority_fields : Value → Value → List Text → Result AuthorityError (List Text)
unfolding is_object is_string is_array is_empty
authority_fields schema authority excluded = do
  require (is_object authority) lacks_authority
  require (is_string (get (codes "profile") authority) && is_array (get (codes "fields") authority))
      invalid_metadata
  fields ← listed (text_list (get (codes "fields") authority))
  require (not (is_empty fields) && unique fields) fields_not_unique
  let semantic = without excluded (names_of (get (codes "required") schema))
  require (all_contained fields semantic && all_contained semantic fields) unbound_field
  ok fields

unfoldable pub schema_field_authority_preimage : Value → Value → Text → Result AuthorityError Value
schema_field_authority_preimage document schema digest_field = do
  let authority = get (codes "x-bytedesk-digestAuthority") schema
  let properties = keys (get (codes "properties") schema)
  fields ← authority_fields schema authority (codes "contract" ∷ codes "schema" ∷ digest_field ∷ [])
  require (all_contained fields properties && contains digest_field properties) undeclared_property
  members ← found (chosen fields document)
  ok (with_profile (get (codes "profile") authority) members)

abbrev pub fields_of : Value → Fields
fields_of (object fields) = fields
fields_of _ = end

abbrev pub inline_exclusions : List Text
inline_exclusions =
    codes "contract" ∷ codes "schema" ∷ codes "authorityDigest" ∷ codes "signingResult" ∷ []

unfoldable pub inline_authority_preimage : Value → Value → Result AuthorityError Value
unfolding is_object is_string is_array
inline_authority_preimage document schema = do
  let authority = get (codes "x-bytedesk-digestAuthority") schema
  require (is_object authority) lacks_authority
  require
      (is_string (get (codes "profile") authority)
        && equal (get (codes "exclude") authority) (array (texts inline_exclusions)))
      invalid_metadata
  require (is_object (get (codes "properties") schema) && is_array (get (codes "required") schema))
      not_closed
  let properties = keys (get (codes "properties") schema)
  let required = names_of (get (codes "required") schema)
  require (all_contained inline_exclusions properties && all_contained inline_exclusions required)
      exclusion_not_required
  require (equal (get (codes "additionalProperties") schema) (boolean false)) admits_more
  require (all_contained required (keys document)) missing_fields
  require (all_contained (keys document) properties) missing_fields
  ok (with_profile (get (codes "profile") authority) (kept inline_exclusions (fields_of document)))
