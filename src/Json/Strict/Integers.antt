-- ===== src/Json/Strict/Integers.antt =====
-- `_parse_integer` of scripts/contracts/contractlib.py: its guard on the number of digits.
use bytedesk_agent_delivery.Prelude.{
  ℕ, ◌≤◌, Text, Bool, not, ◌||◌, [], ◌∷◌, Result, ok, err, ℤ, lessℤ, if◌then◌else◌,
}
use bytedesk_agent_delivery.Json.{
  Value, integer, JsonError, integer_range, min_safe_integer, max_safe_integer,
}
use bytedesk_agent_delivery.Json.Raw.{int_of}

-- The digits of a JSON integer: one, or several of which the first is not 0.
pub data Digits : Text → Type 0 where
  one_digit : {d : ℕ} → Digits (d ∷ [])
  leading : {d : ℕ} {ds : Text} → b'1' ≤ d → Digits (d ∷ ds)

abbrev pub in_range : ℤ → Bool
in_range z = not (lessℤ z min_safe_integer || lessℤ max_safe_integer z)

-- Without the guard on the number of digits.
unfoldable pub parse_in_range : Text → Result JsonError Value
unfolding int_of
parse_in_range t = if in_range (int_of t) then ok (integer (int_of t)) else err integer_range
