-- ===== src/Codec/Laws.antt =====
-- What the byte order helpers leave alone, and that they keep a buffer one of bytes.
use nextufs.Base.{ℕ, ◌+◌, ◌/◌, ◌%◌, ◌^◌, ◌≤◌, ◌<◌, ◌≡◌, ◌⊎◌, arith, Bytes, IsBytes}
use nextufs.Codec.{
  read_be16, read_be32, read_be64, write_be16, write_be32, write_be64, write_be32-outside,
  write_be16-outside, read_be32-write_be32,
}

pub write_be16-IsBytes : (m : Bytes) (p v : ℕ) → IsBytes m → IsBytes (write_be16 m p v)
unfolding write_be16
write_be16-IsBytes m p v h i = ground (arith, h i)

pub write_be32-IsBytes : (m : Bytes) (p v : ℕ) → IsBytes m → IsBytes (write_be32 m p v)
unfolding write_be32
write_be32-IsBytes m p v h i = ground (arith, h i)

pub read_be32-lt : (m : Bytes) (p : ℕ) → IsBytes m → read_be32 m p < 2 ^ 32
unfolding read_be32
read_be32-lt m p h = omega (arith, h p, h (p + 1), h (p + 2), h (p + 3))

-- A read looks at its own bytes only.
pub read_be32_cong :
    (m n : Bytes) (p : ℕ)
    → ((i : ℕ) → p ≤ i → i < p + 4 → m i ≡ n i)
    → read_be32 m p ≡ read_be32 n p
unfolding read_be32
read_be32_cong m n p same = omega (
  arith,
  same p (omega arith) (omega arith),
  same (p + 1) (omega arith) (omega arith),
  same (p + 2) (omega arith) (omega arith),
  same (p + 3) (omega arith) (omega arith),
)

pub read_be16_cong :
    (m n : Bytes) (p : ℕ)
    → ((i : ℕ) → p ≤ i → i < p + 2 → m i ≡ n i)
    → read_be16 m p ≡ read_be16 n p
unfolding read_be16
read_be16_cong m n p same =
    omega (arith, same p (omega arith) (omega arith), same (p + 1) (omega arith) (omega arith))

-- A write elsewhere does not change what is read.
pub read_be32-write_be32_apart :
    (m : Bytes) (p q v : ℕ)
    → (p + 4 ≤ q) ⊎ (q + 4 ≤ p)
    → read_be32 (write_be32 m q v) p ≡ read_be32 m p
read_be32-write_be32_apart m p q v apart =
    read_be32_cong (write_be32 m q v) m p λ i lo hi. write_be32-outside m q v i (omega arith)

pub read_be32-write_be16_apart :
    (m : Bytes) (p q v : ℕ)
    → (p + 4 ≤ q) ⊎ (q + 2 ≤ p)
    → read_be32 (write_be16 m q v) p ≡ read_be32 m p
read_be32-write_be16_apart m p q v apart =
    read_be32_cong (write_be16 m q v) m p λ i lo hi. write_be16-outside m q v i (omega arith)

-- A value of 64 bits that is written reads back.
pub read_be64-write_be64 : (m : Bytes) (p v : ℕ) → v < 2 ^ 64 → read_be64 (write_be64 m p v) p ≡ v
unfolding read_be64 write_be64
read_be64-write_be64 m p v h = omega (
  arith,
  read_be32-write_be32_apart (write_be32 m p (v / 2 ^ 32 % 2 ^ 32)) p (p + 4) (v % 2 ^ 32)
      (omega arith),
  read_be32-write_be32 m p (v / 2 ^ 32 % 2 ^ 32),
  read_be32-write_be32 (write_be32 m p (v / 2 ^ 32 % 2 ^ 32)) (p + 4) (v % 2 ^ 32),
)

pub read_be64_cong :
    (m n : Bytes) (p : ℕ)
    → ((i : ℕ) → p ≤ i → i < p + 8 → m i ≡ n i)
    → read_be64 m p ≡ read_be64 n p
unfolding read_be64
read_be64_cong m n p same = omega (
  arith,
  read_be32_cong m n p (λ i lo hi. same i lo (omega arith)),
  read_be32_cong m n (p + 4) (λ i lo hi. same i (omega arith) (omega arith)),
)
