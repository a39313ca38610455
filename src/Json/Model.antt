-- ===== src/Json/Model.antt =====
-- `_validate_json_model` of scripts/contracts/contractlib.py: the walk over a value with a stack.
pub mod Spec
pub mod Laws
pub mod Halts
use Prim.Native.Nat.{max}
use bytedesk_agent_delivery.Prelude.{
  ℕ, zero, suc, ◌+◌, ◌/◌, ◌%◌, ◌^◌, Text, Bool, true, false, not, ◌&&◌, ◌||◌, List, [], ◌∷◌, ◌++◌,
  Result, ok, err, ◌>>=◌, ◌>>◌, require, leb, ltb, ◌==◌, ℤ, lessℤ, if◌then◌else◌,
}
use bytedesk_agent_delivery.Json.{
  Value, null, boolean, integer, floating, string, array, object, other, Items, nil, cons, Fields,
  end, field, Key, name, non_string, JsonError, non_finite_number, integer_range, node_limit,
  depth_limit, invalid_unicode, non_string_name, outside_model, out_of_fuel, max_json_model_depth,
  max_json_model_nodes, min_safe_integer, max_safe_integer,
}

-- `_contains_surrogate`
unfoldable pub contains_surrogate : Text → Bool
contains_surrogate [] = false
contains_surrogate (c ∷ cs) = (leb 0xD800 c && leb c 0xDFFF) || contains_surrogate cs

-- `value < MIN_SAFE_INTEGER or value > MAX_SAFE_INTEGER`
unfoldable pub outside_safe_range : ℤ → Bool
outside_safe_range value = lessℤ value min_safe_integer || lessℤ max_safe_integer value

-- `math.isfinite` on a bit pattern: the exponent is not all ones.
unfoldable pub is_finite : ℕ → Bool
is_finite bits = not (bits / 2 ^ 52 % 2 ^ 11 == 2047)

-- `_register_preflight_node`
unfoldable pub register_preflight_node : ℕ → Result JsonError ℕ
register_preflight_node nodes =
    if ltb max_json_model_nodes (nodes + 1) then err node_limit else ok (nodes + 1)

abbrev pub Stack : Type 0
Stack = List (Value × ℕ)

-- The children of an array, the first one on top.
unfoldable pub push_items : ℕ → Items → Stack
push_items depth nil = []
push_items depth (cons value rest) = (value, depth) ∷ push_items depth rest

unfoldable pub check_key : Key → Result JsonError (Unit {0})
check_key (name key) = require (not (contains_surrogate key)) invalid_unicode
check_key non_string = err non_string_name

-- The members of a dict, from the last to the first: the first one ends on top.
unfoldable pub push_fields : ℕ → ℕ → Fields → Result JsonError (ℕ × Stack)
push_fields nodes depth end = ok (nodes, [])
push_fields nodes depth (field key value rest) = do
  (later, pushed) ← push_fields nodes depth rest
  check_key key
  registered ← register_preflight_node later
  ok (registered, (value, depth) ∷ pushed)

-- The tests on the type of `current`, after its own node is registered.
unfoldable pub visit : ℕ → ℕ → Value → Result JsonError (ℕ × Stack)
visit nodes depth null = ok (nodes, [])
visit nodes depth (boolean b) = ok (nodes, [])
visit nodes depth (integer z) = do
  require (not (outside_safe_range z)) integer_range
  ok (nodes, [])
visit nodes depth (floating bits) = do require (is_finite bits) non_finite_number; ok (nodes, [])
visit nodes depth (string text) = do
  require (not (contains_surrogate text)) invalid_unicode
  ok (nodes, [])
visit nodes depth (array items) = ok (nodes, push_items (depth + 1) items)
visit nodes depth (object fields) = push_fields nodes (depth + 1) fields
visit nodes depth other = err outside_model

-- `while stack`, with fuel: every round registers a node.
unfoldable pub validate_loop : ℕ → ℕ → ℕ → Stack → Result JsonError (ℕ × ℕ)
validate_loop fuel nodes maximum_depth [] = ok (nodes, maximum_depth)
validate_loop zero nodes maximum_depth (top ∷ stack) = err out_of_fuel
validate_loop (suc fuel) nodes maximum_depth ((current, depth) ∷ stack) = do
  require (not (ltb max_json_model_depth depth)) depth_limit
  registered ← register_preflight_node nodes
  (visited, children) ← visit registered depth current
  validate_loop fuel visited (max maximum_depth depth) (children ++ stack)

-- `_validate_json_model`
unfoldable pub validate_json_model : Value → Result JsonError (ℕ × ℕ)
validate_json_model value = validate_loop (suc max_json_model_nodes) 0 0 ((value, 1) ∷ [])
