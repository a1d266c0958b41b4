-- ===== src/Codec.antt =====
-- The byte order helpers: src/core/layout.c (nextufs__read_be16 to nextufs__write_be64) and
-- src/core/image.c (read_be64, read_le32, read_le64). `a << k` is `a * 2 ^ k`, `a >> k` is
-- `a / 2 ^ k`, a cast to uint8_t is `% 256`; the `|` of fields that do not overlap is their sum.
pub mod Laws
use nextufs.Base.{ℕ, ◌+◌, ◌*◌, ◌/◌, ◌%◌, ◌^◌, ◌≤◌, ◌<◌, ◌≡◌, ◌⊎◌, refl, arith, Bytes, IsBytes, put}

unfoldable pub read_be16 : Bytes → ℕ → ℕ
read_be16 m p = m p * 2 ^ 8 + m (p + 1)

unfoldable pub read_be32 : Bytes → ℕ → ℕ
read_be32 m p = m p * 2 ^ 24 + m (p + 1) * 2 ^ 16 + m (p + 2) * 2 ^ 8 + m (p + 3)

unfoldable pub write_be16 : Bytes → ℕ → ℕ → Bytes
write_be16 m p v = put (put m p (v / 2 ^ 8 % 256)) (p + 1) (v % 256)

unfoldable pub write_be32 : Bytes → ℕ → ℕ → Bytes
write_be32 m p v =
    put
      (put (put (put m p (v / 2 ^ 24 % 256)) (p + 1) (v / 2 ^ 16 % 256)) (p + 2) (v / 2 ^ 8 % 256))
      (p + 3) (v % 256)

unfoldable pub write_be64 : Bytes → ℕ → ℕ → Bytes
write_be64 m p v = write_be32 (write_be32 m p (v / 2 ^ 32 % 2 ^ 32)) (p + 4) (v % 2 ^ 32)

unfoldable pub read_be64 : Bytes → ℕ → ℕ
read_be64 m p = read_be32 m p * 2 ^ 32 + read_be32 m (p + 4)

unfoldable pub read_le32 : Bytes → ℕ → ℕ
read_le32 m p = m p + m (p + 1) * 2 ^ 8 + m (p + 2) * 2 ^ 16 + m (p + 3) * 2 ^ 24

unfoldable pub read_le64 : Bytes → ℕ → ℕ
read_le64 m p = read_le32 m p + read_le32 m (p + 4) * 2 ^ 32

-- A value of 32 bits that is written reads back.
pub read_be32-write_be32 : (m : Bytes) (p v : ℕ) → read_be32 (write_be32 m p v) p ≡ v % 2 ^ 32
unfolding read_be32 write_be32
read_be32-write_be32 m p v = ground arith

pub read_be16-write_be16 : (m : Bytes) (p v : ℕ) → read_be16 (write_be16 m p v) p ≡ v % 2 ^ 16
unfolding read_be16 write_be16
read_be16-write_be16 m p v = ground arith

pub write_be32-outside : (m : Bytes) (p v i : ℕ) → (i < p) ⊎ (p + 4 ≤ i) → write_be32 m p v i ≡ m i
unfolding write_be32
write_be32-outside m p v i h = ground arith

pub write_be16-outside : (m : Bytes) (p v i : ℕ) → (i < p) ⊎ (p + 2 ≤ i) → write_be16 m p v i ≡ m i
unfolding write_be16
write_be16-outside m p v i h = ground arith
