-- ===== src/Bits/Table.antt =====
-- `b & (1 << k)`, `b | (1 << k)` and `b & ~(1 << k)` on one byte. Their laws are checked at every
-- byte and every bit.
use Prim.Native.Nat.{bit_and, bit_or}
use native.Mathlib.Decide.{dec_lt}
use nextufs.Base.{
  subst, ℕ, zero, suc, ◌-◌, ◌^◌, ◌<◌, ◌≡◌, refl, Bool, true, false, not, ◌&&◌, arith, ltb, ◌==◌,
  if◌then◌else◌,
}

unfoldable pub test_bit : ℕ → ℕ → Bool
test_bit b k = not (bit_and b (2 ^ k) == 0)

unfoldable pub set_bit : ℕ → ℕ → ℕ
set_bit b k = bit_or b (2 ^ k)

unfoldable pub clear_bit : ℕ → ℕ → ℕ
clear_bit b k = bit_and b (255 - 2 ^ k)

-- the test holds of every number under `top`
unfoldable pub every : (ℕ → Bool) → ℕ → Bool
every test zero = true
every test (suc top) = if test top then every test top else false

pub every_holds : (test : ℕ → Bool) (top k : ℕ) → k < top → every test top ≡ true → test k ≡ true
unfolding every
every_holds test zero k below h = absurd (omega arith)
every_holds test (suc top) k below h = elim (dec_lt k top) [
  | yes lower ↦ every_holds test top k lower (ground arith)
  | no at ↦ let e : top ≡ k = omega arith in subst (λ t. test t ≡ true) e (ground arith)
]

abbrev pub same : Bool → Bool → Bool
same true true = true
same false false = true
same true false = false
same false true = false

pub same_sound : (a b : Bool) → same a b ≡ true → a ≡ b
same_sound true true h = refl
same_sound false false h = refl
same_sound true false h = cc
same_sound false true h = cc

-- One row of the table: what the operations do to byte `b` at bit `k`, seen at bit `j`.
row : ℕ → ℕ → ℕ → Bool
row b k j =
    same (test_bit (set_bit b k) j) (if k == j then true else test_bit b j)
    && same (test_bit (clear_bit b k) j) (if k == j then false else test_bit b j)
    && ltb (set_bit b k) 256
    && ltb (clear_bit b k) 256

table : every (λ b. every (λ k. every (row b k) 8) 8) 256 ≡ true
unfolding every row test_bit set_bit clear_bit
table = refl

row_holds : (b k j : ℕ) → b < 256 → k < 8 → j < 8 → row b k j ≡ true
row_holds b k j hb hk hj =
    let one_byte = every_holds (λ b'. every (λ k'. every (row b' k') 8) 8) 256 b hb table in
    every_holds (row b k) 8 j hj (every_holds (λ k'. every (row b k') 8) 8 k hk one_byte)

module _ (b k : ℕ) (hb : b < 256) (hk : k < 8) where
  pub set_bit-lt : set_bit b k < 256
  unfolding row
  set_bit-lt = ground (arith, row_holds b k 0 hb hk)

  pub clear_bit-lt : clear_bit b k < 256
  unfolding row
  clear_bit-lt = ground (arith, row_holds b k 0 hb hk)

  module _ (j : ℕ) (hj : j < 8) where
    pub test-set : test_bit (set_bit b k) j ≡ (if k == j then true else test_bit b j)
    unfolding row
    test-set = ground (
      arith,
      row_holds b k j hb hk hj,
      same_sound (test_bit (set_bit b k) j) (if k == j then true else test_bit b j),
    )

    pub test-clear : test_bit (clear_bit b k) j ≡ (if k == j then false else test_bit b j)
    unfolding row
    test-clear = ground (
      arith,
      row_holds b k j hb hk hj,
      same_sound (test_bit (clear_bit b k) j) (if k == j then false else test_bit b j),
    )
