-- ===== src/Merkle/Consistency.antt =====
-- `verify_consistency` of scripts/contracts/status_merkle.py.
use native.Mathlib.Nat.{pow-suc}
use bytedesk_agent_delivery.Prelude.{
  ℕ, zero, suc, ◌-◌, ◌/◌, ◌%◌, ◌^◌, ◌≤◌, ◌<◌, ◌≡◌, refl, Bytes, Text, ok, true, [], =ₜ-refl, arith,
}
use bytedesk_agent_delivery.Merkle.{consistency_loop, verify_consistency}
use bytedesk_agent_delivery.Merkle.Split.{shift_ones}
use bytedesk_agent_delivery.Merkle.Root.{pow_pos}

-- Shifting the trailing ones out of 2 ^ h - 1 leaves 0.
shift_ones-pow : (fuel h sn : ℕ) → h ≤ fuel → (shift_ones fuel (2 ^ h - 1) sn).0 ≡ 0
unfolding shift_ones
shift_ones-pow zero zero sn le = refl
shift_ones-pow zero (suc h) sn le = absurd (omega arith)
shift_ones-pow (suc fuel) zero sn le = refl
shift_ones-pow (suc fuel) (suc h) sn le =
    let half : (2 ^ suc h - 1) / 2 ≡ 2 ^ h - 1 = omega (arith, pow-suc 2 h, pow_pos h) in
    let ih = shift_ones-pow fuel h (sn / 2) (omega arith) in
    let odd : (2 ^ suc h - 1) % 2 ≡ 1 = omega (arith, pow-suc 2 h, pow_pos h) in rw (odd, half) ih

pow-gt : (h : ℕ) → h < 2 ^ h
pow-gt zero = omega arith
pow-gt (suc h) = omega (arith, pow-suc 2 h, pow-gt h)

module _ (sha256 : Bytes → Bytes) where
  -- `verify_consistency` does not tie the new root to the new size: for every old size that is a
  -- power of two and every larger new size it accepts one root for both, with an empty path.
  pub verify_consistency-same_root :
      (h new_size : ℕ) (root : Text)
      → 2 ^ h < new_size
      → verify_consistency sha256 (2 ^ h) new_size root root [] ≡ ok true
  unfolding verify_consistency consistency_loop
  verify_consistency-same_root h new_size root lt =
      ground (arith, shift_ones-pow (2 ^ h - 1) h (new_size - 1), pow-gt h, pow_pos h, =ₜ-refl root)
