-- ===== src/Digest/Checksum.antt =====
-- A concrete function in the place of SHA-256, for tests: a checksum, written 32 times.
use bytedesk_agent_delivery.Prelude.{
  ℕ, zero, suc, ◌+◌, ◌*◌, ◌/◌, ◌%◌, ◌<◌, ◌≡◌, refl, Bytes, [], ◌∷◌, length, arith,
}
use bytedesk_agent_delivery.Digest.Hex.{IsBytes}
use bytedesk_agent_delivery.Digest.Laws.{IsSha256}

sum : Bytes → ℕ
sum [] = 7
sum (b ∷ bs) = let rest = sum bs in (b + 31 * rest + rest * rest / 7) % 251

repeat : ℕ → ℕ → Bytes
repeat zero b = []
repeat (suc n) b = b ∷ repeat n b

unfoldable pub checksum : Bytes → Bytes
unfolding sum repeat
checksum bs = repeat 32 (sum bs)

sum-lt : (bs : Bytes) → sum bs < 256
unfolding sum
sum-lt [] = omega arith
sum-lt (b ∷ bs) = omega arith

length-repeat : (n b : ℕ) → length (repeat n b) ≡ n
unfolding repeat
length-repeat zero b = refl
length-repeat (suc n) b = omega (arith, length-repeat n b)

repeat-IsBytes : (n b : ℕ) → b < 256 → IsBytes (repeat n b)
unfolding repeat
repeat-IsBytes zero b h = tt
repeat-IsBytes (suc n) b h = (h, repeat-IsBytes n b h)

pub checksum-IsSha256 : IsSha256 checksum
unfolding checksum
checksum-IsSha256 = record {
  size = λ x. length-repeat 32 (sum x);
  bytes = λ x. repeat-IsBytes 32 (sum x) (sum-lt x);
}
