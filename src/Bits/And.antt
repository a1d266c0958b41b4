-- ===== src/Bits/And.antt =====
-- `a & b` is at most `b`.
use Prim.Native.Nat.{bit_and, digits, bit_and-bitwise}
use nextufs.Base.{ℕ, zero, suc, ◌/◌, ◌≤◌, min, arith}

masked-le : (n a b : ℕ) → digits (λ b. zero) min n a b ≤ b
masked-le (suc n) (suc a) b = omega (arith, masked-le n (suc a / 2) (b / 2))
masked-le (suc n) zero b = omega arith
masked-le zero (suc a) b = omega arith
masked-le zero zero b = omega arith

pub bit_and-le : (a b : ℕ) → bit_and a b ≤ b
bit_and-le a b = omega (arith, bit_and-bitwise a b, masked-le a a b)
