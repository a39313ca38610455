-- ===== src/Oci/Base64/Laws.antt =====
-- The wire text of oci_graph.py is canonical: each byte string has exactly one text that decodes to it.
use bytedesk_agent_delivery.Prelude.{
  ℕ, ◌+◌, ◌*◌, ◌/◌, ◌%◌, ◌≤◌, ◌<◌, ◌≡◌, refl, sym, Bytes, Text, false, not, [], ◌∷◌, some, ok,
  length, require, leb, ◌==◌, ◌=ₜ◌, =ₜ→eq, =ₜ-refl, arith, leb→le, require-true, >>=-eq-ok,
  ok-injective,
}
use bytedesk_agent_delivery.Digest.Hex.{IsBytes}
use bytedesk_agent_delivery.Oci.{oci_wire_bytes_noncanonical, oci_graph_limit_exceeded}
use bytedesk_agent_delivery.Oci.Base64.{
  base64_char, base64_value, encode_bounded_bytes, b64decode, contains_padding, decoded,
  decode_bounded_bytes,
}

base64_value-base64_char : (n : ℕ) → n < 64 → base64_value (base64_char n) ≡ some n
unfolding base64_value base64_char
base64_value-base64_char n h = ground arith

base64_char-padding : (n : ℕ) → n < 64 → (base64_char n == b'=') ≡ false
unfolding base64_char
base64_char-padding n h = ground arith

-- What is encoded decodes to the same bytes.
pub b64decode-encode :
    (payload : Bytes) → IsBytes payload → b64decode (encode_bounded_bytes payload) ≡ some payload
unfolding b64decode encode_bounded_bytes
b64decode-encode [] h = refl
b64decode-encode (a ∷ []) h =
    rw
      (
        base64_value-base64_char (a / 4) (omega arith),
        base64_value-base64_char (a % 4 * 16) (omega arith),
      )
      (ground arith)
b64decode-encode (a ∷ b ∷ []) h =
    rw
      (
        base64_value-base64_char (a / 4) (omega arith),
        base64_value-base64_char (a % 4 * 16 + b / 16) (omega arith),
        base64_value-base64_char (b % 16 * 4) (omega arith),
      )
      (ground arith)
b64decode-encode (a ∷ b ∷ c ∷ rest) h =
    rw
      (
        base64_value-base64_char (a / 4) (omega arith),
        base64_value-base64_char (a % 4 * 16 + b / 16) (omega arith),
        base64_value-base64_char (b % 16 * 4 + c / 64) (omega arith),
        base64_value-base64_char (c % 64) (omega arith),
        b64decode-encode rest h.1.1.1,
      )
      (ground arith)

contains_padding-encode :
    (payload : Bytes) → IsBytes payload → contains_padding (encode_bounded_bytes payload) ≡ false
unfolding contains_padding encode_bounded_bytes
contains_padding-encode [] h = refl
contains_padding-encode (a ∷ []) h =
    rw (base64_char-padding (a / 4) (omega arith), base64_char-padding (a % 4 * 16) (omega arith))
contains_padding-encode (a ∷ b ∷ []) h = rw (
  base64_char-padding (a / 4) (omega arith),
  base64_char-padding (a % 4 * 16 + b / 16) (omega arith),
  base64_char-padding (b % 16 * 4) (omega arith),
)
contains_padding-encode (a ∷ b ∷ c ∷ rest) h = rw (
  base64_char-padding (a / 4) (omega arith),
  base64_char-padding (a % 4 * 16 + b / 16) (omega arith),
  base64_char-padding (b % 16 * 4 + c / 64) (omega arith),
  base64_char-padding (c % 64) (omega arith),
  contains_padding-encode rest h.1.1.1,
)

-- Bytes within the limit come back from their wire text.
pub decode_bounded_bytes-encode :
    (payload : Bytes) (maximum_bytes : ℕ)
    → IsBytes payload
    → length payload ≤ maximum_bytes
    → decode_bounded_bytes (encode_bounded_bytes payload) maximum_bytes ≡ ok payload
unfolding decode_bounded_bytes
decode_bounded_bytes-encode payload maximum_bytes h le =
    rw
      (
        contains_padding-encode payload h,
        b64decode-encode payload h,
        =ₜ-refl (encode_bounded_bytes payload),
      )
      (ground arith)

-- The wire text has no aliases: a text that decodes is the text of the bytes that it decodes to, and
-- these are within the limit.
pub decode_bounded_bytes-canonical :
    (value : Text) (maximum_bytes : ℕ) (payload : Bytes)
    → decode_bounded_bytes value maximum_bytes ≡ ok payload
    → (value ≡ encode_bounded_bytes payload) × (length payload ≤ maximum_bytes)
unfolding decode_bounded_bytes
decode_bounded_bytes-canonical value maximum_bytes payload h =
    let (_, _, h1) =
      >>=-eq-ok (require (not (contains_padding value)) oci_wire_bytes_noncanonical) _ h in
    let (p, _, h2) = >>=-eq-ok (decoded (b64decode value)) _ h1 in
    let (_, e3, h3) =
      >>=-eq-ok (require (leb (length p) maximum_bytes) oci_graph_limit_exceeded) _ h2 in
    let (_, e4, h4) =
      >>=-eq-ok (require (encode_bounded_bytes p =ₜ value) oci_wire_bytes_noncanonical) _ h3 in
    rw (← ok-injective h4) (
      sym (=ₜ→eq (encode_bounded_bytes p) value (require-true _ _ e4)),
      leb→le _ _ (require-true _ _ e3),
    )
