-- ===== src/Json.antt =====
-- scripts/contracts/contractlib.py: the JSON data model of the contract tooling and its limits.
pub mod Model
pub mod Preflight
pub mod Document
pub mod Raw
pub mod Strict
pub mod Access
mod Tests
use bytedesk_agent_delivery.Prelude.{ℕ, ◌-◌, ◌*◌, ◌^◌, Text, Bool, ℤ, pos, negsuc}

-- The key of a `dict` member.
pub data Key : Type 0 where
  name : Text → Key
  non_string : Key

-- A value that `_validate_json_model` may meet. A float is its IEEE 754 binary64 bit pattern;
-- `other` is a Python object of any further type.
mutual
  pub data Value : Type 0 where
    null : Value
    boolean : Bool → Value
    integer : ℤ → Value
    floating : ℕ → Value
    string : Text → Value
    array : Items → Value
    object : Fields → Value
    other : Value

  pub data Items : Type 0 where
    nil : Items
    cons : Value → Items → Items

  -- The members of a `dict`, in its order.
  pub data Fields : Type 0 where
    end : Fields
    field : Key → Value → Fields → Fields

-- The messages of `ContractToolError`.
pub data JsonError : Type 0 where
  duplicate_member : JsonError
  non_finite_number : JsonError
  integer_range : JsonError
  node_limit : JsonError
  depth_limit : JsonError
  invalid_unicode : JsonError
  non_string_name : JsonError
  outside_model : JsonError
  input_byte_limit : JsonError
  invalid_number cannot_parse accounting_differs not_canonicalizable output_byte_limit : JsonError
  -- no exception of the program: the fuel of the model ran out, which the theorems exclude
  out_of_fuel : JsonError

abbrev pub max_structured_json_bytes : ℕ
max_structured_json_bytes = 4 * 1024 * 1024

abbrev pub max_json_model_depth : ℕ
max_json_model_depth = 64

abbrev pub max_json_model_nodes : ℕ
max_json_model_nodes = 100_000

abbrev pub min_safe_integer : ℤ
min_safe_integer = negsuc 9_007_199_254_740_990

abbrev pub max_safe_integer : ℤ
max_safe_integer = pos 9_007_199_254_740_991
