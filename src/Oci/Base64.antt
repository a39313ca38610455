-- ===== src/Oci/Base64.antt =====
-- `encode_bounded_bytes` and `decode_bounded_bytes` of scripts/contracts/oci_graph.py, over the base64
-- of the Python library.
pub mod Laws
use bytedesk_agent_delivery.Prelude.{
  ℕ, ◌+◌, ◌-◌, ◌*◌, ◌/◌, ◌%◌, Bytes, Text, Bool, true, false, not, ◌&&◌, ◌||◌, List, [], ◌∷◌,
  Option, none, some, Result, ok, err, length, ◌>>=◌, ◌>>◌, require, leb, ltb, ◌==◌, ◌=ₜ◌,
  if◌then◌else◌,
}
use bytedesk_agent_delivery.Oci.{
  OciError, oci_wire_bytes_invalid, oci_wire_bytes_noncanonical, oci_graph_limit_exceeded,
}

-- The character of six bits, in the alphabet that is safe in a URL.
unfoldable pub base64_char : ℕ → ℕ
base64_char n =
    if ltb n 26
    then b'A' + n
    else if ltb n 52
    then b'a' + (n - 26)
    else if ltb n 62
    then b'0' + (n - 52)
    else if n == 62
    then b'-'
    else b'_'

-- The six bits of a character. `altchars` is translated first, so `+` and `/` pass too.
unfoldable pub base64_value : ℕ → Option ℕ
base64_value c =
    if leb b'A' c && leb c b'Z'
    then some (c - b'A')
    else if leb b'a' c && leb c b'z'
    then some (c - b'a' + 26)
    else if leb b'0' c && leb c b'9'
    then some (c - b'0' + 52)
    else if c == b'-' || c == b'+'
    then some 62
    else if c == b'_' || c == b'/'
    then some 63
    else none

-- `encode_bounded_bytes`: `urlsafe_b64encode` without its padding.
unfoldable pub encode_bounded_bytes : Bytes → Text
encode_bounded_bytes [] = []
encode_bounded_bytes (a ∷ []) = base64_char (a / 4) ∷ base64_char (a % 4 * 16) ∷ []
encode_bounded_bytes (a ∷ b ∷ []) =
    base64_char (a / 4) ∷ base64_char (a % 4 * 16 + b / 16) ∷ base64_char (b % 16 * 4) ∷ []
encode_bounded_bytes (a ∷ b ∷ c ∷ rest) =
    base64_char (a / 4)
    ∷ base64_char (a % 4 * 16 + b / 16)
    ∷ base64_char (b % 16 * 4 + c / 64)
    ∷ base64_char (c % 64)
    ∷ encode_bounded_bytes rest

abbrev pub one_byte : Option ℕ → Option ℕ → Option Bytes
one_byte (some w) (some x) = some ((w * 4 + x / 16) ∷ [])
one_byte _ _ = none

abbrev pub two_bytes : Option ℕ → Option ℕ → Option ℕ → Option Bytes
two_bytes (some w) (some x) (some y) = some ((w * 4 + x / 16) ∷ (x % 16 * 16 + y / 4) ∷ [])
two_bytes _ _ _ = none

abbrev pub three_bytes : Option ℕ → Option ℕ → Option ℕ → Option ℕ → Option Bytes → Option Bytes
three_bytes (some w) (some x) (some y) (some z) (some rest) =
    some ((w * 4 + x / 16) ∷ (x % 16 * 16 + y / 4) ∷ (y % 4 * 64 + z) ∷ rest)
three_bytes _ _ _ _ _ = none

-- `b64decode` of the text and its padding, with `validate`; `none` is `binascii.Error`.
unfoldable pub b64decode : Text → Option Bytes
b64decode [] = some []
b64decode (w ∷ []) = none
b64decode (w ∷ x ∷ []) = one_byte (base64_value w) (base64_value x)
b64decode (w ∷ x ∷ y ∷ []) = two_bytes (base64_value w) (base64_value x) (base64_value y)
b64decode (w ∷ x ∷ y ∷ z ∷ rest) =
    three_bytes (base64_value w) (base64_value x) (base64_value y) (base64_value z) (b64decode rest)

unfoldable pub contains_padding : Text → Bool
contains_padding [] = false
contains_padding (c ∷ cs) = c == b'=' || contains_padding cs

abbrev decoded : Option Bytes → Result OciError Bytes
decoded none = err oci_wire_bytes_invalid
decoded (some payload) = ok payload

-- `decode_bounded_bytes`
unfoldable pub decode_bounded_bytes : Text → ℕ → Result OciError Bytes
decode_bounded_bytes value maximum_bytes = do
  require (not (contains_padding value)) oci_wire_bytes_noncanonical
  payload ← decoded (b64decode value)
  require (leb (length payload) maximum_bytes) oci_graph_limit_exceeded
  require (encode_bounded_bytes payload =ₜ value) oci_wire_bytes_noncanonical
  ok payload
