-- ===== src/Json/Strict/Tests.antt =====
-- Runs of the strict JSON of contractlib.py, and the theorems at inputs.
use bytedesk_agent_delivery.Prelude.{
  ◌≤◌, ◌<◌, ◌≡◌, refl, Bytes, codes, true, none, some, ok, negsuc, length,
}
use bytedesk_agent_delivery.Digest.{strip_prefix}
use bytedesk_agent_delivery.Json.{
  Value, boolean, integer, array, object, nil, cons, end, field, name, max_json_model_nodes,
  max_json_model_depth, max_structured_json_bytes,
}
use bytedesk_agent_delivery.Json.Document.{contains}
use bytedesk_agent_delivery.Json.Model.{
  validate_json_model, validate_loop, visit, push_fields, push_items, check_key,
  register_preflight_node, contains_surrogate, outside_safe_range,
}
use bytedesk_agent_delivery.Json.Model.Spec.{count, levels, in_model}
use bytedesk_agent_delivery.Json.Preflight.{
  preflight_json_bytes, scan_loop, round, token, scan_string, scan_scalar, scan_further, literal,
  open_container, enter_value, count_node, skip_string, skip_whitespace, skip_number, colon_next,
  is_whitespace,
}
use bytedesk_agent_delivery.Json.Raw.{
  Raw, raw_boolean, raw_integer, raw_array, raw_object, raw_nil, raw_cons, raw_end, raw_field,
  reject_duplicate, build, int_of, digits, decimal, negative,
}
use bytedesk_agent_delivery.Json.Strict.{Codec, parse_integer, strict_json_bytes, canonical_json}
use bytedesk_agent_delivery.Json.Strict.Laws.{Strict, strict_json_bytes_sound, canonical_json_sound}

-- {"a": [true, -7]}
abbrev payload : Bytes
payload = codes "{\"a\": [true, -7]}"

abbrev raw : Raw
raw = raw_object (
    raw_field (codes "a")
      (raw_array (raw_cons (raw_boolean true) (raw_cons (raw_integer (codes "-7")) raw_nil)))
      raw_end)

abbrev parsed_value : Value
parsed_value =
    object
      (field (name (codes "a")) (array (cons (boolean true) (cons (integer (negsuc 6)) nil))) end)

-- A codec that knows one text.
abbrev codec : Codec
codec = record {
  loads = λ p. some raw;
  to_float = λ t. none;
  dumps = λ v. some (codes "{\"a\":[true,-7]}");
}

payload_runs : strict_json_bytes codec payload ≡ ok parsed_value
unfolding strict_json_bytes preflight_json_bytes scan_loop round token scan_string scan_scalar
    scan_further literal strip_prefix open_container enter_value count_node register_preflight_node
    skip_string skip_whitespace skip_number colon_next is_whitespace build reject_duplicate contains
    parse_integer int_of digits decimal negative validate_json_model validate_loop visit push_fields
    push_items check_key contains_surrogate outside_safe_range
payload_runs = refl

canonical_runs : canonical_json codec parsed_value ≡ ok (codes "{\"a\":[true,-7]}")
unfolding canonical_json validate_json_model validate_loop visit push_fields push_items check_key
    contains_surrogate outside_safe_range register_preflight_node
canonical_runs = refl

strict_json_bytes_sound_example : Strict payload parsed_value
strict_json_bytes_sound_example = strict_json_bytes_sound codec payload parsed_value payload_runs

canonical_json_sound_example :
    (in_model parsed_value ≡ true)
    × (count parsed_value ≤ max_json_model_nodes)
    × (levels parsed_value < max_json_model_depth)
    × (length (codes "{\"a\":[true,-7]}") ≤ max_structured_json_bytes)
    × (codec.dumps parsed_value ≡ some (codes "{\"a\":[true,-7]}"))
canonical_json_sound_example =
    canonical_json_sound codec parsed_value (codes "{\"a\":[true,-7]}") canonical_runs
