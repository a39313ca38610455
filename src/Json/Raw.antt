-- ===== src/Json/Raw.antt =====
-- What a JSON decoder reads, before the hooks of scripts/contracts/contractlib.py and
-- scripts/contracts/oci_graph.py turn it into a value: numbers are still their texts, and objects
-- are lists of pairs.
use bytedesk_agent_delivery.Prelude.{
  ℕ, ◌+◌, ◌-◌, ◌*◌, Text, Bool, List, [], ◌∷◌, Result, ok, err, ◌>>=◌, ◌>>◌, require, not, ℤ, pos,
  negsuc, ◌==◌, if◌then◌else◌,
}
use bytedesk_agent_delivery.Json.{
  Value, null, boolean, string, array, object, Items, nil, cons, Fields, end, field, name,
}
use bytedesk_agent_delivery.Json.Document.{contains}

mutual
  pub data Raw : Type 0 where
    raw_null : Raw
    raw_boolean : Bool → Raw
    raw_integer : Text → Raw
    raw_float : Text → Raw
    -- `NaN`, `Infinity` or `-Infinity`
    raw_constant : Raw
    raw_string : Text → Raw
    raw_array : RawItems → Raw
    raw_object : RawFields → Raw

  pub data RawItems : Type 0 where
    raw_nil : RawItems
    raw_cons : Raw → RawItems → RawItems

  pub data RawFields : Type 0 where
    raw_end : RawFields
    raw_field : Text → Raw → RawFields → RawFields

-- `int(raw)` on the text of a JSON integer.
unfoldable pub decimal : ℕ → Text → ℕ
decimal n [] = n
decimal n (c ∷ cs) = decimal (10 * n + (c - b'0')) cs

unfoldable pub negative : ℕ → ℤ
negative n = if n == 0 then pos 0 else negsuc (n - 1)

unfoldable pub int_of : Text → ℤ
unfolding decimal negative
int_of [] = pos 0
int_of (c ∷ cs) = if c == b'-' then negative (decimal 0 cs) else pos (decimal 0 (c ∷ cs))

-- The digits of a JSON integer: its text without the sign.
unfoldable pub digits : Text → Text
digits [] = []
digits (c ∷ cs) = if c == b'-' then cs else c ∷ cs

-- The arguments of `json.loads`.
pub record Hooks (E : Type 0) : Type 0 where
  pub parse_int : Text → Result E Value
  pub parse_float : Text → Result E Value
  pub constant_error : E
  pub duplicate_error : E

-- The loop of the `object_pairs_hook` over the names of the pairs.
unfoldable pub reject_duplicate : {E : Type 0} → E → List Text → RawFields → Result E (Unit {0})
unfolding contains
reject_duplicate e seen raw_end = ok tt
reject_duplicate e seen (raw_field key value rest) = do
  require (not (contains key seen)) e
  reject_duplicate e (key ∷ seen) rest

module _ {E : Type 0} (hooks : Hooks E) where
  -- `json.loads` calls the hooks in the order of the text, those of an object at its end.
  unfoldable mutual
    unfolding reject_duplicate

    pub build : Raw → Result E Value
    build raw_null = ok null
    build (raw_boolean b) = ok (boolean b)
    build (raw_integer t) = hooks.parse_int t
    build (raw_float t) = hooks.parse_float t
    build raw_constant = err hooks.constant_error
    build (raw_string t) = ok (string t)
    build (raw_array items) = do built ← build_items items; ok (array built)
    build (raw_object fields) = do
      built ← build_fields fields
      reject_duplicate hooks.duplicate_error [] fields
      ok (object built)

    pub build_items : RawItems → Result E Items
    build_items raw_nil = ok nil
    build_items (raw_cons value rest) = do
      first ← build value
      others ← build_items rest
      ok (cons first others)

    pub build_fields : RawFields → Result E Fields
    build_fields raw_end = ok end
    build_fields (raw_field key value rest) = do
      first ← build value
      others ← build_fields rest
      ok (field (name key) first others)
