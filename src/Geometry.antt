-- ===== src/Geometry.antt =====
-- nextufs_image_validate of src/core/image.c: the checks that a superblock passes before anything
-- on disk is indexed. The first condition of the source is cut into five pieces at its line ends.
-- `1U << k` is only reached with k < 32, or wraps where the source leaves it undefined.
pub mod Facts
pub mod Bounds
pub mod Inodes
use Prim.Native.Nat.{bit_and}
use nextufs.Base.{
  ℕ, ◌+◌, ◌-◌, ◌*◌, ◌/◌, ◌%◌, ◌^◌, Bool, not, ◌&&◌, ◌||◌, ltb, leb, ◌==◌, if◌then◌else◌, u32, u64,
  not32, int32_max, Result, ok, err, einval,
}
use nextufs.Superblock.{Superblock}
use nextufs.Disk.{Image}
use nextufs.Layout.{cgstart, ufs_inode_size}

abbrev pub ufs_fs_magic : ℕ
ufs_fs_magic = 0x00011954

abbrev pub cg_free_off : ℕ
cg_free_off = 984

-- `x - 1U`
abbrev pred32 : ℕ → ℕ
pred32 x = u32 (x + 2 ^ 32 - 1)

module _ (s : Superblock) where
  open s use {
    sb_off, cg_off, ino_off, data_off, cg_delta, cg_cyc_mask, frag_count, data_frag_count, cg_count,
    block_size, frag_size, frags_per_block, block_mask, frag_mask, block_shift, frag_shift_calc,
    frag_shift, fsbtodb, super_size, csum_mask, csum_shift, nindir, sectors_per_frag,
    inodes_per_block, cyl_summary_addr, csum_size, cg_size, sectors_per_track, sectors_per_cyl,
    ncyl, cpg, inodes_per_group, frags_per_group, fs_magic,
  }

  unfoldable pub bad_masks : Bool
  bad_masks =
      not (fs_magic == ufs_fs_magic)
      || leb 32 block_shift
      || leb 32 frag_shift_calc
      || leb 32 csum_shift
      || not (u32 (2 ^ block_shift) == block_size)
      || not (u32 (2 ^ frag_shift_calc) == frag_size)
      || not (block_mask == not32 (pred32 block_size))
      || not (frag_mask == not32 (pred32 frag_size))
      || not (u32 (2 ^ csum_shift) == block_size / 16)
      || not (csum_mask == not32 (pred32 (block_size / 16)))

  unfoldable pub bad_cylinders : Bool
  bad_cylinders =
      not (sectors_per_frag == frag_size / 1024) && not (sectors_per_frag == frag_size / 2048)
      || not (cpg * sectors_per_cyl == frags_per_group * sectors_per_frag)
      || ncyl == 0
      || ltb (cg_count * cpg) ncyl
      || leb ncyl (pred32 cg_count * cpg)
      || ltb frag_count data_frag_count
      || (inodes_per_block == 0 || not (inodes_per_group % inodes_per_block == 0))
      || ltb int32_max (ncyl * sectors_per_cyl)
      || ltb frags_per_group (u64 (cg_delta * not32 cg_cyc_mask + data_off))
      || ltb int32_max (cg_count * inodes_per_group)
      || ltb int32_max (frag_count * (frag_size / 1024))

  unfoldable pub bad_sizes : Bool
  bad_sizes =
      ltb block_size 4096
      || ltb 8192 block_size
      || not (bit_and block_size (pred32 block_size) == 0)
      || ltb frag_size 1024
      || ltb block_size frag_size
      || not (bit_and frag_size (pred32 frag_size) == 0)
      || not (frags_per_block == block_size / frag_size)
      || ltb 8 frags_per_block
      || ltb 3 frag_shift
      || not (u32 (2 ^ frag_shift) == frags_per_block)
      || not (inodes_per_block == block_size / ufs_inode_size)
      || not (nindir == block_size / 4)

  unfoldable pub bad_groups : Bool
  bad_groups =
      inodes_per_group == 0
      || ltb 2048 inodes_per_group
      || frags_per_group == 0
      || frag_count == 0
      || cg_count == 0
      || not (cg_count == (frag_count + frags_per_group - 1) / frags_per_group)
      || ltb cg_size cg_free_off
      || ltb block_size cg_size
      || ltb cg_size (cg_free_off + (frags_per_group + 7) / 8)
      || ltb super_size 0x560
      || ltb 8192 super_size

  unfoldable pub bad_tables : Bool
  bad_tables =
      cpg == 0
      || ltb 32 cpg
      || sectors_per_cyl == 0
      || sectors_per_track == 0
      || sectors_per_frag == 0
      || ltb 16 sectors_per_frag
      || ltb 4 fsbtodb
      || not (u32 (2 ^ fsbtodb) == sectors_per_frag)
      || ltb csum_size (cg_count * 16)
      || ltb (u32 (32 * block_size)) csum_size
      || ltb cg_off sb_off
      || leb ino_off cg_off
      || leb data_off ino_off
      || ltb data_off (ino_off + (inodes_per_group * ufs_inode_size + frag_size - 1) / frag_size)

  unfoldable pub bad_superblock : Bool
  bad_superblock = bad_masks || bad_cylinders || bad_sizes || bad_groups || bad_tables

-- The second condition: the groups and the summary area lie inside the slice.
unfoldable pub bad_extent : Image → Bool
bad_extent img =
    let s = img.sb in
    let bytes = s.frag_count * s.frag_size in
    leb (2 ^ 63) img.slice_base
    || leb (2 ^ 63) img.slice_size
    || ltb img.slice_size bytes
    || ltb s.frag_count (u64 (cgstart s (pred32 s.cg_count) + s.data_off))
    || ltb bytes (s.cyl_summary_addr * s.frag_size + s.csum_size)

unfoldable pub image_validate : Image → Result (Unit {0})
image_validate img =
    if bad_superblock img.sb then err einval else if bad_extent img then err einval else ok tt
