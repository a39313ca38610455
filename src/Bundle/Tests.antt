-- ===== src/Bundle/Tests.antt =====
-- A run of `validate_portable_path_set` of scripts/contracts/bundle_profile.py.
use bytedesk_agent_delivery.Prelude.{
  ◌≡◌, refl, Text, codes, false, List, [], ◌∷◌, some, ok, ◌=ₜ◌, arith,
}
use bytedesk_agent_delivery.Json.Document.{contains}
use bytedesk_agent_delivery.Bundle.{
  Unicode, split_at, starts_with, ends_with, has, has_any, any_control, utf8_length, check_segment,
  check_segments, portable_path_collision_key, previous, validate_paths, validate_portable_path_set,
}
use bytedesk_agent_delivery.Bundle.Laws.{validate_portable_path_set_distinct}
use bytedesk_agent_delivery.Digest.{strip_prefix}

-- Unicode on ASCII texts without capitals.
abbrev ascii : Unicode
ascii = record { nfc = λ t. t; casefold = λ t. t; utf8 = λ t. some t; is_control = λ c. false }

abbrev paths : List Text
paths = codes "docs/a.md" ∷ codes "docs/b.md" ∷ []

accepted : validate_portable_path_set ascii paths ≡ ok tt
unfolding validate_portable_path_set validate_paths previous portable_path_collision_key
    check_segments check_segment utf8_length any_control has_any has ends_with starts_with split_at
    strip_prefix contains ◌=ₜ◌
accepted = refl

validate_portable_path_set_distinct_example :
    ((codes "docs/a.md" =ₜ codes "docs/b.md") ≡ false)
    × (k : Text) × (l : Text) × (portable_path_collision_key ascii (codes "docs/a.md") ≡ ok k)
    × (portable_path_collision_key ascii (codes "docs/b.md") ≡ ok l)
    × ((k =ₜ l) ≡ false)
validate_portable_path_set_distinct_example =
    validate_portable_path_set_distinct ascii paths 0 1 (codes "docs/a.md") (codes "docs/b.md")
      accepted (omega arith) refl refl
