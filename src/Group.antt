-- ===== src/Group.antt =====
-- A cylinder group's header block in a buffer: the field offsets of include/nextufs_internal.h, and
-- the static helpers of src/core/alloc.c that work on its fragment bitmap and its counters.
pub mod Bitmap
pub mod Found
pub mod Partial
pub mod Counters
pub mod Effects
pub mod Free
pub mod Inodes
pub mod Search
pub mod Take
use nextufs.Base.{
  ℕ, zero, suc, ◌+◌, ◌-◌, ◌*◌, ◌/◌, ◌%◌, ◌^◌, Bool, true, false, not, ◌&&◌, Bytes, zeros, put, ltb,
  leb, ◌==◌, if◌then◌else◌, u16, u32,
}
use nextufs.Codec.{read_be16, read_be32, write_be16, write_be32}
use nextufs.Bits.{bit, lower, raise}

abbrev pub cg_magic : ℕ
cg_magic = 0x00090255

abbrev pub nrpos : ℕ
nrpos = 8

abbrev pub cg_time_off : ℕ
cg_time_off = 8

abbrev pub cg_ndblk_off : ℕ
cg_ndblk_off = 20

abbrev pub cg_cs_ndir_off : ℕ
cg_cs_ndir_off = 24

abbrev pub cg_cs_nbfree_off : ℕ
cg_cs_nbfree_off = 28

abbrev pub cg_cs_nifree_off : ℕ
cg_cs_nifree_off = 32

abbrev pub cg_cs_nffree_off : ℕ
cg_cs_nffree_off = 36

abbrev pub cg_rotor_off : ℕ
cg_rotor_off = 40

abbrev pub cg_irotor_off : ℕ
cg_irotor_off = 48

abbrev pub cg_frsum_off : ℕ
cg_frsum_off = 52

abbrev pub cg_btot_off : ℕ
cg_btot_off = 84

abbrev pub cg_bpos_off : ℕ
cg_bpos_off = 212

abbrev pub cg_iused_off : ℕ
cg_iused_off = 724

abbrev pub cg_magic_off : ℕ
cg_magic_off = 980

abbrev pub cg_free_off : ℕ
cg_free_off = 984

-- `nextufs__write_be32(buf + off, nextufs__read_be32(buf + off) + d)`, d a 32-bit pattern
unfoldable pub bump : Bytes → ℕ → ℕ → Bytes
bump buf off d = write_be32 buf off (u32 (read_be32 buf off + d))

-- Whether `frags` bits from `frag_base` are all set; the source has this loop twice.
unfoldable pub block_is_free : Bytes → ℕ → ℕ → Bool
block_is_free buf frag_base zero = true
block_is_free buf frag_base (suc n) =
    if bit buf cg_free_off frag_base then block_is_free buf (suc frag_base) n else false

unfoldable pub set_run_bits : Bytes → ℕ → ℕ → Bool
set_run_bits buf frag_base zero = true
set_run_bits buf frag_base (suc n) =
    if bit buf cg_free_off frag_base then set_run_bits buf (suc frag_base) n else false

unfoldable pub clear_block_bits : Bytes → ℕ → ℕ → Bytes
clear_block_bits buf frag_base zero = buf
clear_block_bits buf frag_base (suc n) =
    clear_block_bits (lower buf cg_free_off frag_base) (suc frag_base) n

-- the inner loop: how many bits are set in a row from `at`, `room` at most
unfoldable pub run_length : Bytes → ℕ → ℕ → ℕ
run_length buf at zero = 0
run_length buf at (suc room) =
    if bit buf cg_free_off at then suc (run_length buf (suc at) room) else 0

-- The outer loop from index `i` of the block; one more round per fragment is enough.
unfoldable pub count_runs_from : ℕ → Bytes → ℕ → ℕ → ℕ → (ℕ → ℕ) → ℕ → ℕ
unfolding run_length
count_runs_from zero buf base fpb i counts = counts
count_runs_from (suc fuel) buf base fpb i counts =
    let run = run_length buf (base + i) (fpb - i) in
    let counts' =
      if ltb 0 run && ltb run fpb then put counts run (u32 (counts run + 1)) else counts in
    let rest = count_runs_from fuel buf base fpb (i + (if ltb 0 run then run else 1)) counts' in
    if ltb i fpb then rest else counts

unfoldable pub count_free_runs_in_block : Bytes → ℕ → ℕ → ℕ → ℕ
unfolding count_runs_from
count_free_runs_in_block buf base fpb = count_runs_from (suc fpb) buf base fpb 0 zeros

-- `for (i = 1; i < n + 1; i++)`: the summary of runs of length i moves from `before` to `after`.
unfoldable pub frsum_upto : Bytes → (ℕ → ℕ) → (ℕ → ℕ) → ℕ → Bytes
unfolding bump
frsum_upto buf before after zero = buf
frsum_upto buf before after (suc n) =
    let buf' = frsum_upto buf before after n in
    if after (suc n) == before (suc n)
    then buf'
    else bump buf' (cg_frsum_off + suc n * 4) (u32 (after (suc n) + 2 ^ 32 - before (suc n)))

unfoldable pub apply_cg_frsum_delta : Bytes → (ℕ → ℕ) → (ℕ → ℕ) → ℕ → Bytes
unfolding frsum_upto
apply_cg_frsum_delta buf before after fpb = frsum_upto buf before after (fpb - 1)
