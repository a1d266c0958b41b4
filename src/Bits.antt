-- ===== src/Bits.antt =====
-- The bitmaps of a cylinder group, bit by bit: the expressions `map[n / 8] & (1U << (n % 8))`,
-- `map[n / 8] |= ...` and `map[n / 8] &= ~...` of src/core/alloc.c.
pub mod Table
pub mod And
use nextufs.Base.{
  ℕ, ◌+◌, ◌/◌, ◌%◌, ◌≡◌, ◌≢◌, Bool, true, false, arith, Bytes, IsBytes, put, ◌==◌, if◌then◌else◌,
}
use Table.{test_bit, set_bit, clear_bit, set_bit-lt, clear_bit-lt, test-set, test-clear}

-- Bit `n` of the map that begins at `map`.
unfoldable pub bit : Bytes → ℕ → ℕ → Bool
bit m map n = test_bit (m (map + n / 8)) (n % 8)

unfoldable pub raise : Bytes → ℕ → ℕ → Bytes
raise m map n = put m (map + n / 8) (set_bit (m (map + n / 8)) (n % 8))

unfoldable pub lower : Bytes → ℕ → ℕ → Bytes
lower m map n = put m (map + n / 8) (clear_bit (m (map + n / 8)) (n % 8))

module _ (m : Bytes) (map n : ℕ) (bytes : IsBytes m) where
  pub raise-IsBytes : IsBytes (raise m map n)
  unfolding raise
  raise-IsBytes i =
      ground
        (arith, set_bit-lt (m (map + n / 8)) (n % 8) (bytes (map + n / 8)) (omega arith), bytes i)

  pub lower-IsBytes : IsBytes (lower m map n)
  unfolding lower
  lower-IsBytes i =
      ground
        (arith, clear_bit-lt (m (map + n / 8)) (n % 8) (bytes (map + n / 8)) (omega arith), bytes i)

  -- Raising a bit sets that bit and no other.
  pub bit-raise : (k : ℕ) → bit (raise m map n) map k ≡ (if n == k then true else bit m map k)
  unfolding raise bit
  bit-raise k = ground (
    arith,
    test-set (m (map + n / 8)) (n % 8) (bytes (map + n / 8)) (omega arith) (k % 8) (omega arith),
  )

  pub bit-lower : (k : ℕ) → bit (lower m map n) map k ≡ (if n == k then false else bit m map k)
  unfolding lower bit
  bit-lower k = ground (
    arith,
    test-clear (m (map + n / 8)) (n % 8) (bytes (map + n / 8)) (omega arith) (k % 8) (omega arith),
  )

pub raise-outside : (m : Bytes) (map n i : ℕ) → i ≢ map + n / 8 → raise m map n i ≡ m i
unfolding raise
raise-outside m map n i h = ground arith

pub lower-outside : (m : Bytes) (map n i : ℕ) → i ≢ map + n / 8 → lower m map n i ≡ m i
unfolding lower
lower-outside m map n i h = ground arith
