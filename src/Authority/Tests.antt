-- ===== src/Authority/Tests.antt =====
-- Runs of the preimages of scripts/contracts/renderer_authority.py.
use bytedesk_agent_delivery.Prelude.{
  ◌≡◌, refl, ◌∙◌, Text, codes, false, not, List, [], ◌∷◌, ◌++◌, none, ok, ◌=ₜ◌, if◌then◌else◌, ◌&&◌,
  arith,
}
use bytedesk_agent_delivery.Json.{Value, array, boolean, string}
use bytedesk_agent_delivery.Json.Document.{
  document, text, texts, get, find, member, equal, contains, all_contained, field_names, keys,
}
use bytedesk_agent_delivery.Authority.{
  without, chosen, kept, with_profile, authority_fields, inline_exclusions, is_object, is_string,
  is_array, is_empty, unique, names_of, text_items, schema_field_authority_preimage,
  inline_authority_preimage,
}
use bytedesk_agent_delivery.Authority.Laws.{
  field_exclusions, schema_field_authority_preimage-binds, schema_field_authority_preimage-agree,
  inline_authority_preimage-binds,
}

abbrev required : List Text
required = inline_exclusions ++ codes "subject" ∷ []

abbrev properties : Value
properties = document (
    ("contract", document [])
    ∷ ("schema", document [])
    ∷ ("authorityDigest", document [])
    ∷ ("signingResult", document [])
    ∷ ("subject", document [])
    ∷ [])

-- A schema that closes its objects and names its excluded fields.
abbrev inline_schema : Value
inline_schema = document (
    (
      "x-bytedesk-digestAuthority",
      document (("profile", text "inline/1") ∷ ("exclude", array (texts inline_exclusions)) ∷ []),
    )
    ∷ ("properties", properties)
    ∷ ("required", array (texts required))
    ∷ ("additionalProperties", boolean false)
    ∷ [])

-- A schema that names the fields its digest binds.
abbrev fields_schema : Value
fields_schema = document (
    (
      "x-bytedesk-digestAuthority",
      document (
          ("profile", text "fields/1")
          ∷ ("fields", array (texts (codes "signingResult" ∷ codes "subject" ∷ [])))
          ∷ []),
    )
    ∷ ("properties", properties)
    ∷ ("required", array (texts required))
    ∷ [])

abbrev signed_document : Text → Value
signed_document digest = document (
    ("contract", text "c")
    ∷ ("schema", text "s")
    ∷ ("authorityDigest", string digest)
    ∷ ("signingResult", text "r")
    ∷ ("subject", text "x")
    ∷ [])

abbrev fields_preimage : Value
fields_preimage =
    document
      (("profile", text "fields/1") ∷ ("signingResult", text "r") ∷ ("subject", text "x") ∷ [])

fields_run :
    schema_field_authority_preimage
      (signed_document (codes "d"))
      fields_schema
      (codes "authorityDigest")
    ≡ ok fields_preimage
unfolding schema_field_authority_preimage authority_fields is_object is_string is_array is_empty
    unique without text_items chosen kept with_profile get find member equal contains all_contained
    field_names keys ◌=ₜ◌
fields_run = refl

inline_run :
    inline_authority_preimage (signed_document (codes "d")) inline_schema
    ≡ ok (document (("profile", text "inline/1") ∷ ("subject", text "x") ∷ []))
unfolding inline_authority_preimage is_object is_string is_array text_items kept with_profile get
    find member equal contains all_contained field_names keys ◌=ₜ◌
inline_run = refl

schema_field_authority_preimage-binds_example : member (codes "subject") fields_preimage ≡ (
    if contains (codes "subject") (names_of (get (codes "required") fields_schema))
      && not (contains (codes "subject") (field_exclusions (codes "authorityDigest")))
    then member (codes "subject") (signed_document (codes "d"))
    else none)
unfolding ◌=ₜ◌
schema_field_authority_preimage-binds_example =
    schema_field_authority_preimage-binds (signed_document (codes "d")) fields_schema
      (codes "authorityDigest") (codes "subject") fields_run refl

inline_authority_preimage-binds_example :
    member (codes "contract") (document (("profile", text "inline/1") ∷ ("subject", text "x") ∷ []))
    ≡ (if contains (codes "contract") inline_exclusions
        then none
        else member (codes "contract") (signed_document (codes "d")))
unfolding ◌=ₜ◌
inline_authority_preimage-binds_example =
    inline_authority_preimage-binds (signed_document (codes "d")) inline_schema (codes "contract")
      inline_run refl

=ₜ-sym : (xs ys : Text) → (xs =ₜ ys) ≡ (ys =ₜ xs)
unfolding ◌=ₜ◌
=ₜ-sym [] [] = refl
=ₜ-sym [] (y ∷ ys) = refl
=ₜ-sym (x ∷ xs) [] = refl
=ₜ-sym (x ∷ xs) (y ∷ ys) = ground (arith, =ₜ-sym xs ys)

same_but_digest :
    (x : Text)
    → (x =ₜ codes "authorityDigest") ≡ false
    → member x (signed_document (codes "d")) ≡ member x (signed_document (codes "e"))
unfolding member find
same_but_digest x h = rw (=ₜ-sym (codes "authorityDigest") x ∙ h) refl

schema_field_authority_preimage-agree_example :
    schema_field_authority_preimage
      (signed_document (codes "d"))
      fields_schema
      (codes "authorityDigest")
    ≡ schema_field_authority_preimage
        (signed_document (codes "e"))
        fields_schema
        (codes "authorityDigest")
schema_field_authority_preimage-agree_example =
    schema_field_authority_preimage-agree (signed_document (codes "d"))
      (signed_document (codes "e")) fields_schema (codes "authorityDigest") same_but_digest
