-- ===== src/Base/Ranges.antt =====
-- A statement of every number below a small bound, as a product that `omega` proves part by part.
use Prim.Native.Nat.{ℕ, zero, suc, ◌<◌}
use mathlib.Core.Path.{◌≡◌, subst}
use native.Mathlib.Omega.{arith}
use native.Mathlib.Decide.{dec_lt}

abbrev pub Upto : ℕ → (ℕ → Type 0) → Type 0
Upto zero P = Unit {0}
Upto (suc n) P = P n × Upto n P

pub Upto-all : (n : ℕ) (P : ℕ → Type 0) → Upto n P → (i : ℕ) → i < n → P i
Upto-all zero P h i lt = absurd (omega arith)
Upto-all (suc n) P h i lt = elim (dec_lt i n) [
  | yes below ↦ Upto-all n P h.1 i below
  | no at ↦ let e : n ≡ i = omega arith in subst P e h.0
]
