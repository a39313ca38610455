-- ===== src/Json/Strict/Laws.antt =====
-- What `strict_json_bytes` of scripts/contracts/contractlib.py has established when it returns.
use bytedesk_agent_delivery.Prelude.{
  ℕ, ◌≤◌, ◌<◌, ◌≡◌, refl, ◌∙◌, ap, subst, Bytes, Text, Bool, true, false, not, ◌&&◌, ◌||◌, List, [],
  ◌∷◌, Option, none, some, ok, err, ◌>>=◌, ◌>>◌, require, length, ltb, ◌==◌, ==→eq, lessℤ,
  >>=-eq-ok, ok-injective, require-eq-ok, arith,
}
use bytedesk_agent_delivery.Json.{
  Value, floating, array, object, Items, nil, cons, Fields, end, field, name, non_string,
  integer_range, invalid_number, non_finite_number, accounting_differs, output_byte_limit,
  max_structured_json_bytes, max_json_model_nodes, max_json_model_depth, min_safe_integer,
  max_safe_integer,
}
use bytedesk_agent_delivery.Json.Document.{contains}
use bytedesk_agent_delivery.Json.Raw.{
  Raw, raw_null, raw_boolean, raw_integer, raw_float, raw_constant, raw_string, raw_array,
  raw_object, RawItems, raw_nil, raw_cons, RawFields, raw_end, raw_field, Hooks, int_of, digits,
  reject_duplicate, build, build_items, build_fields,
}
use bytedesk_agent_delivery.Json.Model.{is_finite, validate_json_model}
use bytedesk_agent_delivery.Json.Model.Spec.{count, levels, in_model}
use bytedesk_agent_delivery.Json.Model.Laws.{validate_json_model_sound}
use bytedesk_agent_delivery.Json.Preflight.{preflight_json_bytes}
use bytedesk_agent_delivery.Json.Preflight.Laws.{preflight_json_bytes-bounds}
use bytedesk_agent_delivery.Json.Strict.{
  parse_integer, parse_float, Codec, strict_hooks, parsed, dumped, strict_json_bytes,
  canonical_json,
}

-- Whether the names of an object differ from each other and from those already seen.
unfoldable pub distinct_from : List Text → Fields → Bool
unfolding contains
distinct_from seen end = true
distinct_from seen (field (name k) value rest) =
    not (contains k seen) && distinct_from (k ∷ seen) rest
distinct_from seen (field non_string value rest) = false

-- Whether no object of a value has a name twice.
unfoldable mutual
  unfolding distinct_from

  pub unambiguous : Value → Bool
  unambiguous (array items) = unambiguous_items items
  unambiguous (object fields) = distinct_from [] fields && unambiguous_fields fields
  unambiguous _ = true

  pub unambiguous_items : Items → Bool
  unambiguous_items nil = true
  unambiguous_items (cons value rest) = unambiguous value && unambiguous_items rest

  pub unambiguous_fields : Fields → Bool
  unambiguous_fields end = true
  unambiguous_fields (field key value rest) = unambiguous value && unambiguous_fields rest

first_of : {a : Bool} (b : Bool) → (a && b) ≡ true → a ≡ true
first_of b p = ground arith

both : {a b : Bool} → a ≡ true → b ≡ true → (a && b) ≡ true
both p q = ground arith

module _ {E : Type 0} (hooks : Hooks E) where
  -- Names that `reject_duplicate` lets pass are distinct in the object that is built.
  reject_duplicate-distinct :
      (e : E) (seen : List Text) (raws : RawFields) {u : Unit {0}} {fields : Fields}
      → reject_duplicate e seen raws ≡ ok u
      → build_fields hooks raws ≡ ok fields
      → distinct_from seen fields ≡ true
  unfolding build distinct_from reject_duplicate
  reject_duplicate-distinct e seen raw_end r h =
      subst (λ (f : Fields). distinct_from seen f ≡ true) (ok-injective h) refl
  reject_duplicate-distinct e seen (raw_field key value rest) r h =
      let (fresh, r1) = require-eq-ok (not (contains key seen)) e _ r in
      let (first, _, h1) = >>=-eq-ok (build hooks value) _ h in
      let (others, others_are, h2) = >>=-eq-ok (build_fields hooks rest) _ h1 in
      subst (λ (f : Fields). distinct_from seen f ≡ true) (ok-injective h2)
        (both fresh (reject_duplicate-distinct e (key ∷ seen) rest r1 others_are))

  module _
      (int_unambiguous : (t : Text) (v : Value) → hooks.parse_int t ≡ ok v → unambiguous v ≡ true)
      (float_unambiguous : (t : Text) (v : Value)
        → hooks.parse_float t ≡ ok v
        → unambiguous v ≡ true) where
    mutual
      unfolding build unambiguous

      pub build-unambiguous :
          (raw : Raw) (v : Value) → build hooks raw ≡ ok v → unambiguous v ≡ true
      build-unambiguous raw_null v h =
          subst (λ (x : Value). unambiguous x ≡ true) (ok-injective h) refl
      build-unambiguous (raw_boolean b) v h =
          subst (λ (x : Value). unambiguous x ≡ true) (ok-injective h) refl
      build-unambiguous (raw_integer t) v h = int_unambiguous t v h
      build-unambiguous (raw_float t) v h = float_unambiguous t v h
      build-unambiguous raw_constant v h = cc
      build-unambiguous (raw_string t) v h =
          subst (λ (x : Value). unambiguous x ≡ true) (ok-injective h) refl
      build-unambiguous (raw_array items) v h =
          let (built, built_is, h1) = >>=-eq-ok (build_items hooks items) _ h in
          subst (λ (x : Value). unambiguous x ≡ true) (ok-injective h1)
            (build_items-unambiguous items built built_is)
      build-unambiguous (raw_object fields) v h =
          let (built, built_is, h1) = >>=-eq-ok (build_fields hooks fields) _ h in
          let (_, r, h2) = >>=-eq-ok (reject_duplicate hooks.duplicate_error [] fields) _ h1 in
          subst (λ (x : Value). unambiguous x ≡ true) (ok-injective h2)
            (both (reject_duplicate-distinct hooks.duplicate_error [] fields r built_is)
              (build_fields-unambiguous fields built built_is))

      build_items-unambiguous :
          (raws : RawItems) (items : Items)
          → build_items hooks raws ≡ ok items
          → unambiguous_items items ≡ true
      build_items-unambiguous raw_nil items h =
          subst (λ (x : Items). unambiguous_items x ≡ true) (ok-injective h) refl
      build_items-unambiguous (raw_cons value rest) items h =
          let (first, first_is, h1) = >>=-eq-ok (build hooks value) _ h in
          let (others, others_are, h2) = >>=-eq-ok (build_items hooks rest) _ h1 in
          subst (λ (x : Items). unambiguous_items x ≡ true) (ok-injective h2)
            (both (build-unambiguous value first first_is)
              (build_items-unambiguous rest others others_are))

      build_fields-unambiguous :
          (raws : RawFields) (fields : Fields)
          → build_fields hooks raws ≡ ok fields
          → unambiguous_fields fields ≡ true
      build_fields-unambiguous raw_end fields h =
          subst (λ (x : Fields). unambiguous_fields x ≡ true) (ok-injective h) refl
      build_fields-unambiguous (raw_field key value rest) fields h =
          let (first, first_is, h1) = >>=-eq-ok (build hooks value) _ h in
          let (others, others_are, h2) = >>=-eq-ok (build_fields hooks rest) _ h1 in
          subst (λ (x : Fields). unambiguous_fields x ≡ true) (ok-injective h2)
            (both (build-unambiguous value first first_is)
              (build_fields-unambiguous rest others others_are))

parse_integer-unambiguous : (t : Text) (v : Value) → parse_integer t ≡ ok v → unambiguous v ≡ true
unfolding parse_integer unambiguous
parse_integer-unambiguous t v h =
    let (_, h1) = require-eq-ok (not (ltb 16 (length (digits t)))) integer_range _ h in
    let (_, h2) =
      require-eq-ok (not (lessℤ (int_of t) min_safe_integer || lessℤ max_safe_integer (int_of t)))
        integer_range _ h1 in
    subst (λ (x : Value). unambiguous x ≡ true) (ok-injective h2) refl

parsed-unambiguous :
    (bits : Option ℕ) (v : Value)
    → (elim bits [
      | none ↦ err invalid_number
      | some n ↦ do require (is_finite n) non_finite_number; ok (floating n)
    ])
      ≡ ok v
    → unambiguous v ≡ true
unfolding unambiguous
parsed-unambiguous none v h = cc
parsed-unambiguous (some n) v h =
    let (_, h1) = require-eq-ok (is_finite n) non_finite_number _ h in
    subst (λ (x : Value). unambiguous x ≡ true) (ok-injective h1) refl

parse_float-unambiguous :
    (to_float : Text → Option ℕ) (t : Text) (v : Value)
    → parse_float to_float t ≡ ok v
    → unambiguous v ≡ true
unfolding parse_float unambiguous
parse_float-unambiguous to_float t v h = parsed-unambiguous (to_float t) v h

-- What is established of a payload and its value.
pub record Strict (payload : Bytes) (value : Value) : Type 0 where
  pub modelled : in_model value ≡ true
  pub unambiguous_names : unambiguous value ≡ true
  pub byte_bound : length payload ≤ max_structured_json_bytes
  pub node_bound : count value ≤ length payload
  pub node_limit_kept : count value ≤ max_json_model_nodes
  pub depth_limit_kept : levels value < max_json_model_depth

counts-Strict :
    (payload : Bytes) (value : Value) (nodes depth observed_nodes observed_depth : ℕ)
    → preflight_json_bytes payload ≡ ok (nodes, depth)
    → validate_json_model value ≡ ok (observed_nodes, observed_depth)
    → (nodes == observed_nodes && depth == observed_depth) ≡ true
    → unambiguous value ≡ true
    → Strict payload value
counts-Strict payload value nodes depth observed_nodes observed_depth scanned walked same names =
    let (bytes, nodes_bound, _, _, _) = preflight_json_bytes-bounds payload nodes depth scanned in
    let (nodes_are, depth_is, model, nodes_limit, depth_bound) =
      validate_json_model_sound value observed_nodes observed_depth walked in
    let equal_nodes = ==→eq nodes observed_nodes (first_of _ same) in
    record {
      modelled = model;
      unambiguous_names = names;
      byte_bound = bytes;
      node_bound = subst (λ n. n ≤ length payload) (equal_nodes ∙ nodes_are) nodes_bound;
      node_limit_kept = subst (λ n. n ≤ max_json_model_nodes) nodes_are nodes_limit;
      depth_limit_kept = subst (λ n. n ≤ max_json_model_depth) depth_is depth_bound;
    }

-- A value that `strict_json_bytes` returns is in the data model, no object of it has a name twice,
-- and the payload, the nodes and the depth are within the limits; there are no more nodes than
-- bytes.
pub strict_json_bytes_sound :
    (codec : Codec) (payload : Bytes) (value : Value)
    → strict_json_bytes codec payload ≡ ok value
    → Strict payload value
unfolding strict_json_bytes
strict_json_bytes_sound codec payload value h =
    let ((nodes, depth), scanned, h1) = >>=-eq-ok (preflight_json_bytes payload) _ h in
    let (raw, _, h2) = >>=-eq-ok (parsed (codec.loads payload)) _ h1 in
    let (built, built_is, h3) = >>=-eq-ok (build (strict_hooks codec) raw) _ h2 in
    let ((nodes', depth'), walked, h4) = >>=-eq-ok (validate_json_model built) _ h3 in
    let (same, h5) = require-eq-ok (nodes == nodes' && depth == depth') accounting_differs _ h4 in
    subst (λ (v : Value). Strict payload v) (ok-injective h5)
      (counts-Strict payload built nodes depth nodes' depth' scanned walked same (
        build-unambiguous (strict_hooks codec) parse_integer-unambiguous
          (parse_float-unambiguous codec.to_float) raw built built_is))

not_longer : (n : ℕ) → not (ltb max_structured_json_bytes n) ≡ true → n ≤ max_structured_json_bytes
not_longer n h = ground arith

dumped-eq : (o : Option Bytes) {payload : Bytes} → dumped o ≡ ok payload → o ≡ some payload
dumped-eq none h = cc
dumped-eq (some p) h = ap some (ok-injective h)

-- `canonical_json` writes only values of the data model within the limits on nodes, depth and
-- bytes, and what it writes is what the canonicalizer made of the value.
pub canonical_json_sound :
    (codec : Codec) (value : Value) (payload : Bytes)
    → canonical_json codec value ≡ ok payload
    → (in_model value ≡ true)
      × (count value ≤ max_json_model_nodes)
      × (levels value < max_json_model_depth)
      × (length payload ≤ max_structured_json_bytes)
      × (codec.dumps value ≡ some payload)
unfolding canonical_json
canonical_json_sound codec value payload h =
    let (_, walked, h1) = >>=-eq-ok (validate_json_model value >>= λ counts. ok tt) _ h in
    let ((nodes, depth), counted, _) = >>=-eq-ok (validate_json_model value) _ walked in
    let (written, written_is, h2) = >>=-eq-ok (dumped (codec.dumps value)) _ h1 in
    let (small, h3) =
      require-eq-ok (not (ltb max_structured_json_bytes (length written))) output_byte_limit _ h2 in
    let (nodes_are, depth_is, model, nodes_limit, depth_bound) =
      validate_json_model_sound value nodes depth counted in
    (
      model,
      subst (λ n. n ≤ max_json_model_nodes) nodes_are nodes_limit,
      subst (λ n. n ≤ max_json_model_depth) depth_is depth_bound,
      subst (λ (p : Bytes). length p ≤ max_structured_json_bytes) (ok-injective h3)
          (not_longer (length written) small),
      dumped-eq (codec.dumps value) (written_is ∙ h3),
    )
