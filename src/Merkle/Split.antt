-- ===== src/Merkle/Split.antt =====
-- `_split` of scripts/contracts/status_merkle.py, and the bit arithmetic of `verify_consistency`.
use native.Mathlib.Nat.{pow-suc}
use bytedesk_agent_delivery.Prelude.{
  ℕ, zero, suc, ◌-◌, ◌/◌, ◌%◌, ◌^◌, ◌≤◌, ◌<◌, ◌≡◌, refl, Result, ok, err, not, ◌&&◌, ◌==◌, leb,
  if◌then◌else◌, arith, Bool-cases, inl, inr,
}
use bytedesk_agent_delivery.Digest.{MerkleError, split_requires_two_leaves}

-- `int.bit_length`, with fuel; the number itself is enough.
unfoldable pub bit_length_from : ℕ → ℕ → ℕ
bit_length_from zero n = 0
bit_length_from (suc fuel) n =
    let rest = suc (bit_length_from fuel (n / 2)) in if n == 0 then 0 else rest

unfoldable pub bit_length : ℕ → ℕ
unfolding bit_length_from
bit_length n = bit_length_from n n

-- `_split`
unfoldable pub split : ℕ → Result MerkleError ℕ
split size =
    if leb size 1 then err split_requires_two_leaves else ok (2 ^ (bit_length (size - 1) - 1))

-- `while fn & 1: fn >>= 1; sn >>= 1`, with fuel.
unfoldable pub shift_ones : ℕ → ℕ → ℕ → ℕ × ℕ
shift_ones zero fn sn = (fn, sn)
shift_ones (suc fuel) fn sn =
    let rest = shift_ones fuel (fn / 2) (sn / 2) in if fn % 2 == 1 then rest else (fn, sn)

-- `while fn and not (fn & 1): fn >>= 1; sn >>= 1`, with fuel.
unfoldable pub shift_zeros : ℕ → ℕ → ℕ → ℕ × ℕ
shift_zeros zero fn sn = (fn, sn)
shift_zeros (suc fuel) fn sn =
    let rest = shift_zeros fuel (fn / 2) (sn / 2) in
    if not (fn == 0) && fn % 2 == 0 then rest else (fn, sn)

bit_length_from-zero : (fuel : ℕ) → bit_length_from fuel 0 ≡ 0
unfolding bit_length_from
bit_length_from-zero zero = refl
bit_length_from-zero (suc fuel) = refl

-- The exponent of the highest bit of a positive number.
bit_length_from-bounds :
    (fuel n : ℕ)
    → n ≤ fuel
    → 0 < n
    → (h : ℕ) × (bit_length_from fuel n ≡ suc h) × (2 ^ h ≤ n) × (n < 2 ^ suc h)
unfolding bit_length_from
bit_length_from-bounds zero n le pos = absurd (omega arith)
bit_length_from-bounds (suc fuel) zero le pos = absurd (omega arith)
bit_length_from-bounds (suc fuel) (suc n) le pos = elim (Bool-cases (suc n / 2 == 0)) [
  | inl one ↦
      let e : suc n / 2 ≡ 0 = ground arith in
      (0, rw (e, bit_length_from-zero fuel) (ground arith), omega arith, omega arith)
  | inr more ↦
      let (h, e, low, high) =
        bit_length_from-bounds fuel (suc n / 2) (omega arith) (ground arith) in
      (
        suc h,
        ground (arith, e),
        omega (arith, pow-suc 2 h),
        omega (arith, pow-suc 2 h, pow-suc 2 (suc h)),
      )
]

-- `_split` of two leaves or more is the largest power of two below their number.
pub split_bounds :
    (size : ℕ)
    → 2 ≤ size
    → (h : ℕ) × (split size ≡ ok (2 ^ h)) × (2 ^ h < size) × (size ≤ 2 ^ suc h)
unfolding split bit_length
split_bounds size two =
    let (h, e, low, high) =
      bit_length_from-bounds (size - 1) (size - 1) (omega arith) (omega arith) in
    (h, ground (arith, e), omega arith, omega arith)
