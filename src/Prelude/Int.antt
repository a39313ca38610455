-- ===== src/Prelude/Int.antt =====
-- Python's integers. `negsuc n` is -(n + 1).
use Prim.Native.Nat.{ℕ}
use mathlib.Core.Bool.{Bool, true, false}
use bytedesk_agent_delivery.Prelude.Tests.{ltb}

pub data ℤ : Type 0 where
  pos : ℕ → ℤ
  negsuc : ℕ → ℤ

-- `a < b`
abbrev pub lessℤ : ℤ → ℤ → Bool
lessℤ (pos a) (pos b) = ltb a b
lessℤ (pos a) (negsuc b) = false
lessℤ (negsuc a) (pos b) = true
lessℤ (negsuc a) (negsuc b) = ltb b a
