-- ===== src/Layout.antt =====
-- Where things lie on the disk, from src/core/layout.c: nextufs__cgstart, nextufs__cg_block_offset
-- and nextufs__inode_offset. The result is an off_t as a 64-bit pattern, so -1 is 2 ^ 64 - 1.

use Prim.Native.Nat.{bit_and}
use nextufs.Base.{ℕ, ◌+◌, ◌-◌, ◌*◌, ◌/◌, ◌%◌, ◌^◌, ◌||◌, ◌==◌, if◌then◌else◌, u64, not32}
use nextufs.Superblock.{Superblock}
use nextufs.Disk.{Image}

abbrev pub ufs_inode_size : ℕ
ufs_inode_size = 128

unfoldable pub cgstart : Superblock → ℕ → ℕ
cgstart sb cg = u64 (sb.frags_per_group * cg + sb.cg_delta * bit_and cg (not32 sb.cg_cyc_mask))

unfoldable pub cg_block_offset : Image → ℕ → ℕ
unfolding cgstart
cg_block_offset img cg =
    u64 (img.slice_base + u64 ((cgstart img.sb cg + img.sb.cg_off) * img.sb.frag_size))

unfoldable pub inode_offset : Image → ℕ → ℕ
inode_offset img inode_no =
    let sb = img.sb in
    let cg = inode_no / sb.inodes_per_group in
    let inum_in_group = inode_no % sb.inodes_per_group in
    let cgbase = sb.frags_per_group * cg in
    let cgstart' = u64 (cgbase + sb.cg_delta * bit_and cg (not32 sb.cg_cyc_mask)) in
    let cgimin = cgstart' + sb.ino_off in
    let frag_addr = u64 (cgimin + inum_in_group / sb.inodes_per_block * 2 ^ sb.frag_shift) in
    let inode_slot = inum_in_group % sb.inodes_per_block in
    if sb.inodes_per_group == 0 || sb.frags_per_group == 0 || sb.inodes_per_block == 0
    then 2 ^ 64 - 1
    else u64 (img.slice_base + u64 (frag_addr * sb.frag_size) + inode_slot * ufs_inode_size)
