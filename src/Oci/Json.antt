-- ===== src/Oci/Json.antt =====
-- `_strict_object` and `_jcs_object` of scripts/contracts/oci_graph.py, and the use of documents.
use bytedesk_agent_delivery.Prelude.{
  ℕ, Bytes, Text, Bool, true, false, Option, none, some, Result, ok, err, ◌>>=◌, ◌>>◌, require,
  length, ltb, ◌=ₜ◌, if◌then◌else◌,
}
use bytedesk_agent_delivery.Json.{Value, integer, floating, object}
use bytedesk_agent_delivery.Json.Document.{member}
use bytedesk_agent_delivery.Json.Raw.{Raw, Hooks, int_of, digits, build}
use bytedesk_agent_delivery.Oci.{
  OciError, oci_duplicate_json_member, oci_non_finite_number, oci_manifest_json_invalid,
  oci_manifest_not_jcs, python_error,
}

-- What the graph code takes from its libraries: the grammar of `json.loads` with `float`, RFC 8785
-- and SHA-256.
pub record Libraries : Type 0 where
  pub loads : Bytes → Option Raw
  pub to_float : Text → ℕ
  pub jcs : Value → Bytes
  pub sha256 : Bytes → Bytes

-- `document[key]`
abbrev pub present : Option Value → Result OciError Value
present none = err python_error
present (some value) = ok value

abbrev pub item : Text → Value → Result OciError Value
item key value = present (member key value)

unfoldable pub is_dict : Value → Bool
is_dict (object fields) = true
is_dict _ = false

-- `int` refuses a text of more than 4300 digits.
unfoldable pub python_int : Text → Result OciError Value
unfolding digits int_of
python_int raw =
    if ltb 4300 (length (digits raw)) then err python_error else ok (integer (int_of raw))

abbrev pub oci_hooks : (Text → ℕ) → Hooks OciError
oci_hooks to_float = record {
  parse_int = python_int;
  parse_float = λ raw. ok (floating (to_float raw));
  constant_error = oci_non_finite_number;
  duplicate_error = oci_duplicate_json_member;
}

abbrev pub parsed : Option Raw → Result OciError Raw
parsed none = err oci_manifest_json_invalid
parsed (some raw) = ok raw

-- `_jcs_object`
unfoldable pub jcs_object : Libraries → Bytes → Result OciError Value
unfolding build is_dict ◌=ₜ◌
jcs_object lib payload = do
  raw ← parsed (lib.loads payload)
  value ← build (oci_hooks lib.to_float) raw
  require (is_dict value) oci_manifest_json_invalid
  require (lib.jcs value =ₜ payload) oci_manifest_not_jcs
  ok value
