-- ===== src/Json/Strict.antt =====
-- `strict_json_bytes` and `canonical_json` of scripts/contracts/contractlib.py. The decoder of
-- `json.loads`, `float` and RFC 8785 canonicalization are parameters.
pub mod Laws
pub mod Integers
mod Tests
use bytedesk_agent_delivery.Prelude.{
  ℕ, Bytes, Text, Bool, true, false, not, ◌&&◌, ◌||◌, List, [], ◌∷◌, Option, none, some, Result, ok,
  err, ◌>>=◌, ◌>>◌, require, length, ltb, leb, ◌==◌, ℤ, lessℤ, if◌then◌else◌,
}
use bytedesk_agent_delivery.Digest.{digest}
use bytedesk_agent_delivery.Json.{
  Value, integer, floating, JsonError, invalid_number, duplicate_member, non_finite_number,
  integer_range, cannot_parse, accounting_differs, not_canonicalizable, output_byte_limit,
  max_structured_json_bytes, min_safe_integer, max_safe_integer,
}
use bytedesk_agent_delivery.Json.Raw.{Raw, Hooks, int_of, digits, build}
use bytedesk_agent_delivery.Json.Model.{is_finite, validate_json_model}
use bytedesk_agent_delivery.Json.Preflight.{preflight_json_bytes}

-- `_parse_integer`
unfoldable pub parse_integer : Text → Result JsonError Value
unfolding digits int_of
parse_integer raw = do
  require (not (ltb 16 (length (digits raw)))) integer_range
  let value = int_of raw
  require (not (lessℤ value min_safe_integer || lessℤ max_safe_integer value)) integer_range
  ok (integer value)

-- `_parse_float`, with the binary64 bits that `float` gives.
unfoldable pub parse_float : (Text → Option ℕ) → Text → Result JsonError Value
unfolding is_finite
parse_float to_float raw = elim (to_float raw) [
  | none ↦ err invalid_number
  | some bits ↦ do require (is_finite bits) non_finite_number; ok (floating bits)
]

-- What the code takes from its libraries.
pub record Codec : Type 0 where
  -- `payload.decode("utf-8")` and the grammar of `json.loads`; `none` where either refuses
  pub loads : Bytes → Option Raw
  -- the bits of `float(raw)`; `none` where it raises
  pub to_float : Text → Option ℕ
  -- `rfc8785.dumps`; `none` where it raises
  pub dumps : Value → Option Bytes

abbrev pub strict_hooks : Codec → Hooks JsonError
strict_hooks codec = record {
  parse_int = parse_integer;
  parse_float = parse_float codec.to_float;
  constant_error = non_finite_number;
  duplicate_error = duplicate_member;
}

abbrev pub parsed : Option Raw → Result JsonError Raw
parsed none = err cannot_parse
parsed (some raw) = ok raw

abbrev pub dumped : Option Bytes → Result JsonError Bytes
dumped none = err not_canonicalizable
dumped (some payload) = ok payload

module _ (codec : Codec) where
  unfoldable pub strict_json_bytes : Bytes → Result JsonError Value
  unfolding preflight_json_bytes build validate_json_model
  strict_json_bytes payload = do
    (preflight_nodes, preflight_depth) ← preflight_json_bytes payload
    raw ← parsed (codec.loads payload)
    value ← build (strict_hooks codec) raw
    (observed_nodes, observed_depth) ← validate_json_model value
    require (preflight_nodes == observed_nodes && preflight_depth == observed_depth)
        accounting_differs
    ok value

  unfoldable pub canonical_json : Value → Result JsonError Bytes
  unfolding validate_json_model
  canonical_json value = do
    validate_json_model value >>= λ counts. ok tt
    payload ← dumped (codec.dumps value)
    require (not (ltb max_structured_json_bytes (length payload))) output_byte_limit
    ok payload

  unfoldable pub canonical_digest : (Bytes → Bytes) → Value → Result JsonError Text
  unfolding canonical_json
  canonical_digest sha256 value = do payload ← canonical_json value; ok (digest sha256 payload)
