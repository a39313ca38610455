-- ===== src/Digest/Hex.antt =====
-- `bytes.fromhex` and `hexdigest` of the Python runtime, which status_merkle.py uses on digests.
use bytedesk_agent_delivery.Prelude.{
  ℕ, ◌+◌, ◌-◌, ◌*◌, ◌/◌, ◌%◌, ◌≤◌, ◌<◌, ◌≡◌, refl, Bytes, Text, Bool, false, ◌||◌, ◌&&◌, [], ◌∷◌,
  Option, none, some, length, All, Bool-cases, inl, inr, ◌==◌, leb, ltb, if◌then◌else◌, arith,
}

-- The value of one hexadecimal digit, in either case.
unfoldable pub hex_value : ℕ → Option ℕ
hex_value c =
    if leb b'0' c && leb c b'9'
    then some (c - b'0')
    else if leb b'a' c && leb c b'f'
    then some (c - b'a' + 10)
    else if leb b'A' c && leb c b'F'
    then some (c - b'A' + 10)
    else none

-- ASCII whitespace, which `bytes.fromhex` skips in front of a byte.
unfoldable pub is_space : ℕ → Bool
is_space c = c == 32 || (leb 9 c && leb c 13)

abbrev pub pair_byte : Option ℕ → Option ℕ → Option Bytes → Option Bytes
pair_byte (some hi) (some lo) (some rest) = some ((hi * 16 + lo) ∷ rest)
pair_byte _ _ _ = none

-- `bytes.fromhex`
unfoldable pub fromhex : Text → Option Bytes
unfolding hex_value is_space
fromhex [] = some []
fromhex (c ∷ []) = if is_space c then some [] else none
fromhex (c ∷ d ∷ rest) =
    if is_space c then fromhex (d ∷ rest) else pair_byte (hex_value c) (hex_value d) (fromhex rest)

-- One lower-case hexadecimal digit.
unfoldable pub hex_digit : ℕ → ℕ
hex_digit n = if ltb n 10 then b'0' + n else b'a' + (n - 10)

-- `hexdigest`
unfoldable pub hexdigest : Bytes → Text
unfolding hex_digit
hexdigest [] = []
hexdigest (b ∷ bs) = hex_digit (b / 16) ∷ hex_digit (b % 16) ∷ hexdigest bs

abbrev pub IsBytes : Bytes → Type 0
IsBytes = All (λ b. b < 256)

hex_value-hex_digit : (n : ℕ) → n < 16 → hex_value (hex_digit n) ≡ some n
unfolding hex_value hex_digit
hex_value-hex_digit n h = ground arith

is_space-hex_digit : (n : ℕ) → is_space (hex_digit n) ≡ false
unfolding is_space hex_digit
is_space-hex_digit n = ground arith

byte_nibbles : (b : ℕ) → b / 16 * 16 + b % 16 ≡ b
byte_nibbles b = omega arith

-- What `hexdigest` prints, `bytes.fromhex` reads back.
pub fromhex-hexdigest : (bs : Bytes) → IsBytes bs → fromhex (hexdigest bs) ≡ some bs
unfolding fromhex hexdigest
fromhex-hexdigest [] h = refl
fromhex-hexdigest (b ∷ bs) h =
    rw
      (
        is_space-hex_digit (b / 16),
        hex_value-hex_digit (b / 16) (omega arith),
        hex_value-hex_digit (b % 16) (omega arith),
        fromhex-hexdigest bs h.1,
        byte_nibbles b,
      )
      refl

pub length-hexdigest : (bs : Bytes) → length (hexdigest bs) ≡ length bs + length bs
unfolding hexdigest
length-hexdigest [] = omega arith
length-hexdigest (b ∷ bs) = omega (arith, length-hexdigest bs)

pair_byte-length :
    (c d : ℕ) (rest : Text) (bs : Bytes) (tail : Option Bytes)
    → ((bs : Bytes) → tail ≡ some bs → length bs + length bs ≤ length rest)
    → pair_byte (hex_value c) (hex_value d) tail ≡ some bs
    → length bs + length bs ≤ length (c ∷ d ∷ rest)
pair_byte-length c d rest bs none ih h = ground arith
pair_byte-length c d rest bs (some tail) ih h = ground (arith, ih tail refl)

-- Two digits make one byte, and whitespace none.
pub length-fromhex :
    (t : Text) (bs : Bytes) → fromhex t ≡ some bs → length bs + length bs ≤ length t
unfolding fromhex
length-fromhex [] bs h = ground arith
length-fromhex (c ∷ []) bs h = ground arith
length-fromhex (c ∷ d ∷ rest) bs h = elim (Bool-cases (is_space c)) [
  | inl space ↦ omega (arith, length-fromhex (d ∷ rest) bs (rw space at h))
  | inr digit ↦ pair_byte-length c d rest bs (fromhex rest) (length-fromhex rest) (rw digit at h)
]
