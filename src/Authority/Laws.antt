-- ===== src/Authority/Laws.antt =====
-- The preimages of scripts/contracts/renderer_authority.py: which members of a document they bind.
use bytedesk_agent_delivery.Prelude.{
  ◌≡◌, refl, sym, ◌∙◌, ap, Text, codes, Bool, true, false, not, ◌&&◌, List, [], ◌∷◌, Option, none,
  some, ok, ◌>>=◌, ◌>>◌, require, if◌then◌else◌, ◌=ₜ◌, =ₜ→eq, =ₜ-refl, Bool-cases, Option-cases,
  inl, inr, >>=-eq-ok, ok-injective, require-eq-ok, >>=-cong, arith,
}
use bytedesk_agent_delivery.Json.{
  null, integer, floating, other, Value, string, array, object, boolean, Fields, end, field, name,
  non_string,
}
use bytedesk_agent_delivery.Json.Document.{
  find, get, member, keys, equal, contains, all_contained, texts,
}
use bytedesk_agent_delivery.Json.Document.Laws.{same-name, contains-same}
use bytedesk_agent_delivery.Authority.{
  without, chosen, kept, with_profile, authority_fields, inline_exclusions, is_object, is_string,
  is_array, is_empty, unique, listed, found, fields_of, not_closed, exclusion_not_required,
  admits_more, missing_fields, undeclared_property, text_list, lacks_authority, invalid_metadata,
  fields_not_unique, unbound_field, schema_field_authority_preimage, inline_authority_preimage,
  names_of,
}

contains-without :
    (x : Text) (excluded ts : List Text)
    → contains x (without excluded ts) ≡ contains x ts && not (contains x excluded)
unfolding contains without
contains-without x excluded [] = refl
contains-without x excluded (t ∷ ts) = elim (Bool-cases (t =ₜ x)) [
  | inl e ↦ ground (arith, same-name t x e excluded, contains-without x excluded ts)
  | inr e ↦ ground (arith, contains-without x excluded ts)
]

find-kept :
    (x : Text) (excluded : List Text) (fields : Fields)
    → find x (kept excluded fields) ≡ (if contains x excluded then none else find x fields)
unfolding find kept
find-kept x excluded end = ground arith
find-kept x excluded (field (name k) value rest) = elim (Bool-cases (k =ₜ x)) [
  | inl e ↦ ground (arith, same-name k x e excluded, find-kept x excluded rest)
  | inr e ↦ ground (arith, find-kept x excluded rest)
]
find-kept x excluded (field non_string value rest) = find-kept x excluded rest

chosen-cons :
    (f : Text) (fs : List Text) (document : Value) {out : Fields}
    → chosen (f ∷ fs) document ≡ some out
    → (v : Value) × (rest : Fields) × (member f document ≡ some v)
      × (chosen fs document ≡ some rest)
      × (field (name f) v rest ≡ out)
unfolding chosen member
chosen-cons f fs document h = elim (Option-cases (member f document)) [
  | inl e ↦ ground arith
  | inr (v, e) ↦ elim (Option-cases (chosen fs document)) [
    | inl n ↦ ground arith
    | inr (rest, at) ↦ (v, rest, e, at, ground arith)
  ]
]

find-chosen :
    (x : Text) (fields : List Text) (document : Value) {out : Fields}
    → chosen fields document ≡ some out
    → find x out ≡ (if contains x fields then member x document else none)
unfolding find chosen contains
find-chosen x [] document h = ground arith
find-chosen x (f ∷ fs) document h =
    let (v, rest, here, there, shape) = chosen-cons f fs document h in
    elim (Bool-cases (f =ₜ x)) [
      | inl same ↦
          let there' = find-chosen x fs document there in
          let here' : member x document ≡ some v = rw (sym (=ₜ→eq f x same)) here in
          rw (sym shape) (ground arith)
      | inr distinct ↦ let there' = find-chosen x fs document there in rw (sym shape) (ground arith)
    ]

-- The members of `{"profile": profile, **members}`.
find-with_profile :
    (x : Text) (profile : Value) (members : Fields)
    → (codes "profile" =ₜ x) ≡ false
    → member x (with_profile profile members) ≡ find x members
unfolding with_profile member find contains
find-with_profile x profile members h = ground (arith, find-kept x (codes "profile" ∷ []) members)

found-some : (o : Option Fields) {fields : Fields} → found o ≡ ok fields → o ≡ some fields
found-some none h = cc
found-some (some f) h = cc

-- A list of fields that `authority_fields` returns holds the required members that are not excluded.
authority_fields-contains :
    (x : Text) (schema authority : Value) (excluded : List Text) {fields : List Text}
    → authority_fields schema authority excluded ≡ ok fields
    → contains x fields
      ≡ contains x (names_of (get (codes "required") schema)) && not (contains x excluded)
unfolding authority_fields
authority_fields-contains x schema authority excluded h =
    let semantic = without excluded (names_of (get (codes "required") schema)) in
    let (_, h1) = require-eq-ok (is_object authority) lacks_authority _ h in
    let (_, h2) =
      require-eq-ok
        (is_string (get (codes "profile") authority) && is_array (get (codes "fields") authority))
        invalid_metadata _ h1 in
    let (fs, _, h3) = >>=-eq-ok (listed (text_list (get (codes "fields") authority))) _ h2 in
    let (_, h4) = require-eq-ok (not (is_empty fs) && unique fs) fields_not_unique _ h3 in
    let (same, h5) =
      require-eq-ok (all_contained fs semantic && all_contained semantic fs) unbound_field _ h4 in
    rw
      (
        sym (ok-injective h5),
        sym (contains-without x excluded (names_of (get (codes "required") schema))),
      )
      (contains-same x fs semantic same)

-- The names that the preimage of `schema_field_authority_preimage` leaves out.
abbrev pub field_exclusions : Text → List Text
field_exclusions digest_field = codes "contract" ∷ codes "schema" ∷ digest_field ∷ []

-- A preimage that `schema_field_authority_preimage` returns binds exactly the semantic fields: a
-- member other than the profile is the document's own member where the schema requires it and it is
-- not the contract, the schema or the digest itself, and is missing otherwise.
pub schema_field_authority_preimage-binds :
    (document schema : Value) (digest_field x : Text) {preimage : Value}
    → schema_field_authority_preimage document schema digest_field ≡ ok preimage
    → (codes "profile" =ₜ x) ≡ false
    → member x preimage ≡ (
        if contains x (names_of (get (codes "required") schema))
          && not (contains x (field_exclusions digest_field))
        then member x document
        else none)
unfolding schema_field_authority_preimage
schema_field_authority_preimage-binds document schema digest_field x h distinct =
    let authority = get (codes "x-bytedesk-digestAuthority") schema in
    let (fs, at, h1) =
      >>=-eq-ok (authority_fields schema authority (field_exclusions digest_field)) _ h in
    let (_, h2) =
      require-eq-ok
        (all_contained fs (keys (get (codes "properties") schema))
          && contains digest_field (keys (get (codes "properties") schema)))
        undeclared_property _ h1 in
    let (fields, here, h3) = >>=-eq-ok (found (chosen fs document)) _ h2 in
    rw (sym (ok-injective h3)) (
      find-with_profile x (get (codes "profile") authority) fields distinct
      ∙ find-chosen x fs document (found-some (chosen fs document) here)
      ∙ ap (λ b. if b then member x document else none)
          (authority_fields-contains x schema authority (field_exclusions digest_field) at))

chosen-agree :
    (fs : List Text) (d d' : Value) (digest_field : Text)
    → contains digest_field fs ≡ false
    → ((x : Text) → (x =ₜ digest_field) ≡ false → member x d ≡ member x d')
    → chosen fs d ≡ chosen fs d'
unfolding chosen contains
chosen-agree [] d d' digest_field out agree = refl
chosen-agree (f ∷ fs) d d' digest_field out agree =
    let here : (f =ₜ digest_field) ≡ false = ground arith in
    let there : contains digest_field fs ≡ false = ground arith in
    let first = agree f here in
    let rest = chosen-agree fs d d' digest_field there agree in ground arith

contains-last : (x a b : Text) → contains x (a ∷ b ∷ x ∷ []) ≡ true
unfolding contains
contains-last x a b = ground (arith, =ₜ-refl x)

excluded-none : (b : Bool) {c : Bool} → c ≡ true → b && not c ≡ false
excluded-none b h = ground arith

digest_field-left_out :
    (schema : Value) (digest_field : Text) {fs : List Text}
    → authority_fields schema
        (get (codes "x-bytedesk-digestAuthority") schema)
        (field_exclusions digest_field)
      ≡ ok fs
    → contains digest_field fs ≡ false
unfolding contains
digest_field-left_out schema digest_field at =
    authority_fields-contains digest_field schema (get (codes "x-bytedesk-digestAuthority") schema)
      (field_exclusions digest_field) at
    ∙ excluded-none (contains digest_field (names_of (get (codes "required") schema)))
        (contains-last digest_field (codes "contract") (codes "schema"))

find-fields_of : (x : Text) (document : Value) → find x (fields_of document) ≡ member x document
unfolding find member
find-fields_of x null = refl
find-fields_of x (boolean b) = refl
find-fields_of x (integer i) = refl
find-fields_of x (floating f) = refl
find-fields_of x (string t) = refl
find-fields_of x (array items) = refl
find-fields_of x (object fields) = refl
find-fields_of x other = refl

-- Two documents that differ in the digest field alone have the same preimage of
-- `schema_field_authority_preimage`, so the digest that is written into the document afterwards is
-- the digest of the final document's preimage.
pub schema_field_authority_preimage-agree :
    (d d' schema : Value) (digest_field : Text)
    → ((x : Text) → (x =ₜ digest_field) ≡ false → member x d ≡ member x d')
    → schema_field_authority_preimage d schema digest_field
      ≡ schema_field_authority_preimage d' schema digest_field
unfolding schema_field_authority_preimage
schema_field_authority_preimage-agree d d' schema digest_field agree =
    >>=-cong
      (authority_fields schema (get (codes "x-bytedesk-digestAuthority") schema)
        (field_exclusions digest_field))
      _ _
      (λ fs at.
        ap
          (λ c.
            require
              (all_contained fs (keys (get (codes "properties") schema))
                && contains digest_field (keys (get (codes "properties") schema)))
              undeclared_property
            >> (found c >>= λ members. ok (
                with_profile
                  (get (codes "profile") (get (codes "x-bytedesk-digestAuthority") schema))
                  members)))
          (chosen-agree fs d d' digest_field (digest_field-left_out schema digest_field at) agree))

-- A preimage that `inline_authority_preimage` returns binds every member of the document but the
-- contract, the schema, the authority digest and the signing result, and nothing else but the profile.
pub inline_authority_preimage-binds :
    (document schema : Value) (x : Text) {preimage : Value}
    → inline_authority_preimage document schema ≡ ok preimage
    → (codes "profile" =ₜ x) ≡ false
    → member x preimage ≡ (if contains x inline_exclusions then none else member x document)
unfolding inline_authority_preimage
inline_authority_preimage-binds document schema x h distinct =
    let authority = get (codes "x-bytedesk-digestAuthority") schema in
    let properties = keys (get (codes "properties") schema) in
    let required = names_of (get (codes "required") schema) in
    let (_, h1) = require-eq-ok (is_object authority) lacks_authority _ h in
    let (_, h2) =
      require-eq-ok
        (is_string (get (codes "profile") authority)
          && equal (get (codes "exclude") authority) (array (texts inline_exclusions)))
        invalid_metadata _ h1 in
    let (_, h3) =
      require-eq-ok
        (is_object (get (codes "properties") schema) && is_array (get (codes "required") schema))
        not_closed _ h2 in
    let (_, h4) =
      require-eq-ok
        (all_contained inline_exclusions properties && all_contained inline_exclusions required)
        exclusion_not_required _ h3 in
    let (_, h5) =
      require-eq-ok (equal (get (codes "additionalProperties") schema) (boolean false)) admits_more
        _ h4 in
    let (_, h6) = require-eq-ok (all_contained required (keys document)) missing_fields _ h5 in
    let (_, h7) = require-eq-ok (all_contained (keys document) properties) missing_fields _ h6 in
    let fields = fields_of document in
    rw (sym (ok-injective h7)) (
      find-with_profile x (get (codes "profile") authority) (kept inline_exclusions fields) distinct
      ∙ find-kept x inline_exclusions fields
      ∙ ap (λ m. if contains x inline_exclusions then none else m) (find-fields_of x document))
