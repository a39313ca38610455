-- ===== src/Json/Preflight.antt =====
-- `_preflight_json_bytes` of scripts/contracts/contractlib.py. The index into the payload is the list
-- of the bytes from that index on.
pub mod Laws
use Prim.Native.Nat.{max}
use bytedesk_agent_delivery.Prelude.{
  ℕ, zero, suc, ◌+◌, ◌-◌, Bytes, codes, Bool, true, false, not, ◌&&◌, ◌||◌, List, [], ◌∷◌, Result,
  ok, err, Option, none, some, length, ◌>>=◌, ◌>>◌, require, leb, ltb, ◌==◌, if◌then◌else◌,
}
use bytedesk_agent_delivery.Digest.{strip_prefix}
use bytedesk_agent_delivery.Json.{
  JsonError, depth_limit, input_byte_limit, out_of_fuel, max_json_model_depth,
  max_structured_json_bytes,
}
use bytedesk_agent_delivery.Json.Model.{register_preflight_node}

abbrev pub quote : ℕ
quote = 34

abbrev pub backslash : ℕ
backslash = 92

unfoldable pub is_whitespace : ℕ → Bool
is_whitespace c = c == 32 || (c == 9 || (c == 13 || c == 10))

-- The bytes behind the quote that ends a string; nothing, where the string is not ended.
unfoldable pub skip_string : Bytes → Bytes
skip_string [] = []
skip_string (c ∷ []) = []
skip_string (c ∷ d ∷ rest) = elim (c == quote) [
  | true ↦ d ∷ rest
  | false ↦ elim (c == backslash) [ true ↦ skip_string rest | false ↦ skip_string (d ∷ rest) ]
]

unfoldable pub skip_whitespace : Bytes → Bytes
skip_whitespace [] = []
skip_whitespace (c ∷ rest) = if is_whitespace c then skip_whitespace rest else c ∷ rest

unfoldable pub skip_number : Bytes → Bytes
skip_number [] = []
skip_number (c ∷ rest) =
    if is_whitespace c || (c == b',' || (c == b']' || c == b'}'))
    then c ∷ rest
    else skip_number rest

-- Is a colon next, behind whitespace?
unfoldable pub colon_next : Bytes → Bool
colon_next [] = false
colon_next (c ∷ rest) = c == b':'

-- What the scan keeps between two rounds.
pub record Scan : Type 0 where
  pub nodes : ℕ
  pub depth : ℕ
  pub maximum_depth : ℕ

-- The depth of a value that starts here, within the limit.
unfoldable pub enter_value : Scan → Result JsonError Scan
enter_value s = do
  require (not (ltb max_json_model_depth (s.depth + 1))) depth_limit
  ok (record s { maximum_depth = max s.maximum_depth (s.depth + 1) })

unfoldable pub count_node : Scan → Result JsonError Scan
count_node s = do n ← register_preflight_node s.nodes; ok (record s { nodes = n })

unfoldable pub open_container : Scan → Result JsonError Scan
open_container s = do
  entered ← enter_value s
  counted ← count_node entered
  ok (record counted { depth = counted.depth + 1 })

-- A string is a value unless a colon follows it.
unfoldable pub scan_string : Bytes → Scan → Result JsonError Scan
scan_string rest s = do
  counted ← count_node s
  if colon_next (skip_whitespace rest) then ok counted else enter_value counted

unfoldable pub scan_scalar : Scan → Result JsonError Scan
scan_scalar s = do counted ← count_node s; enter_value counted

-- The literal at the start of the bytes: what is behind `true`, `null` or `false`.
unfoldable pub literal : Bytes → Option Bytes
literal payload = elim (strip_prefix (codes "true") payload) [
  | some rest ↦ some rest
  | none ↦ elim (strip_prefix (codes "null") payload) [
    | some rest ↦ some rest
    | none ↦ strip_prefix (codes "false") payload
  ]
]

-- What the byte at the index starts.
pub data Token : Type 0 where
  separator opening closing quoted digit further : Token

unfoldable pub token : ℕ → Token
token c =
    if is_whitespace c || (c == b',' || c == b':')
    then separator
    else if c == b'{' || c == b'['
    then opening
    else if c == b'}' || c == b']'
    then closing
    else if c == quote
    then quoted
    else if c == b'-' || (leb b'0' c && leb c b'9')
    then digit
    else further

-- A literal, or a byte that the decoder will refuse.
unfoldable pub scan_further : Option Bytes → Bytes → Scan → Result JsonError (Bytes × Scan)
scan_further (some behind) rest s = do scanned ← scan_scalar s; ok (behind, scanned)
scan_further none rest s = ok (rest, s)

-- One round of the loop: what is behind the token, and the new counts.
unfoldable pub round : Token → ℕ → Bytes → Scan → Result JsonError (Bytes × Scan)
round separator c rest s = ok (rest, s)
round opening c rest s = do opened ← open_container s; ok (rest, opened)
round closing c rest s = ok (rest, record s { depth = s.depth - 1 })
round quoted c rest s = do
  scanned ← scan_string (skip_string rest) s
  ok (skip_string rest, scanned)
round digit c rest s = do scanned ← scan_scalar s; ok (skip_number rest, scanned)
round further c rest s = scan_further (literal (c ∷ rest)) rest s

-- `while index < length`, with fuel; each round consumes a byte at least.
unfoldable pub scan_loop : ℕ → Bytes → Scan → Result JsonError (ℕ × ℕ)
scan_loop fuel [] s = ok (s.nodes, s.maximum_depth)
scan_loop zero (c ∷ rest) s = err out_of_fuel
scan_loop (suc fuel) (c ∷ rest) s = do
  (behind, scanned) ← round (token c) c rest s
  scan_loop fuel behind scanned

-- `_preflight_json_bytes`
unfoldable pub preflight_json_bytes : Bytes → Result JsonError (ℕ × ℕ)
preflight_json_bytes payload =
    if ltb max_structured_json_bytes (length payload)
    then err input_byte_limit
    else scan_loop (length payload) payload (record { nodes = 0; depth = 0; maximum_depth = 0 })
