-- ===== src/Json/Tests.antt =====
-- Runs of the JSON limits of contractlib.py, and the theorems at inputs.
use bytedesk_agent_delivery.Prelude.{
  ℕ, suc, ◌≤◌, ◌≡◌, ◌≢◌, refl, Bytes, codes, true, ok, err, pos, negsuc, length, arith,
}
use bytedesk_agent_delivery.Digest.{strip_prefix}
use bytedesk_agent_delivery.Json.{
  Value, boolean, integer, array, object, nil, cons, end, field, name, out_of_fuel, integer_range,
  max_json_model_nodes, max_json_model_depth, max_structured_json_bytes,
}
use bytedesk_agent_delivery.Json.Model.{
  validate_json_model, validate_loop, visit, push_fields, push_items, check_key,
  register_preflight_node, contains_surrogate, outside_safe_range,
}
use bytedesk_agent_delivery.Json.Model.Spec.{count, levels, in_model, is_name}
use bytedesk_agent_delivery.Json.Model.Laws.{
  validate_json_model_sound, validate_json_model_complete,
}
use bytedesk_agent_delivery.Json.Model.Halts.{validate_json_model-halts}
use bytedesk_agent_delivery.Json.Preflight.{
  preflight_json_bytes, scan_loop, round, token, scan_string, scan_scalar, scan_further, literal,
  open_container, enter_value, count_node, skip_string, skip_whitespace, skip_number, colon_next,
  is_whitespace,
}
use bytedesk_agent_delivery.Json.Preflight.Laws.{
  preflight_json_bytes-halts, preflight_json_bytes-bounds,
}

-- {"a": [true, -7]}
abbrev sample : Value
sample =
    object
      (field (name (codes "a")) (array (cons (boolean true) (cons (integer (negsuc 6)) nil))) end)

sample_runs : validate_json_model sample ≡ ok (5, 3)
unfolding validate_json_model validate_loop visit push_fields push_items check_key
    register_preflight_node contains_surrogate outside_safe_range
sample_runs = refl

too_large : validate_json_model (integer (pos 9_007_199_254_740_992)) ≡ err integer_range
unfolding validate_json_model validate_loop visit register_preflight_node outside_safe_range
too_large = refl

abbrev sample_bytes : Bytes
sample_bytes = codes "{\"a\": [true, -7]}"

sample_bytes_run : preflight_json_bytes sample_bytes ≡ ok (5, 3)
unfolding preflight_json_bytes scan_loop round token scan_string scan_scalar scan_further literal
    strip_prefix open_container enter_value count_node register_preflight_node skip_string
    skip_whitespace skip_number colon_next is_whitespace
sample_bytes_run = refl

validate_json_model_sound_example :
    (◌≡◌ {A = ℕ} 5 (count sample))
    × (◌≡◌ {A = ℕ} 3 (suc (levels sample)))
    × (in_model sample ≡ true)
    × (5 ≤ max_json_model_nodes)
    × (3 ≤ max_json_model_depth)
validate_json_model_sound_example = validate_json_model_sound sample 5 3 sample_runs

validate_json_model_complete_example :
    validate_json_model sample ≡ ok (count sample, suc (levels sample))
unfolding count levels in_model is_name contains_surrogate outside_safe_range
validate_json_model_complete_example =
    validate_json_model_complete sample refl (omega arith) (omega arith)

preflight_json_bytes-bounds_example :
    (length sample_bytes ≤ max_structured_json_bytes)
    × (5 ≤ length sample_bytes)
    × (3 ≤ 5)
    × (5 ≤ max_json_model_nodes)
    × (3 ≤ max_json_model_depth)
preflight_json_bytes-bounds_example = preflight_json_bytes-bounds sample_bytes 5 3 sample_bytes_run

validate_json_model-halts_example : validate_json_model sample ≢ err out_of_fuel
validate_json_model-halts_example = validate_json_model-halts sample

preflight_json_bytes-halts_example : preflight_json_bytes sample_bytes ≢ err out_of_fuel
preflight_json_bytes-halts_example = preflight_json_bytes-halts sample_bytes
