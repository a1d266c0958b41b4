-- ===== src/Summary.antt =====
-- nextufs__update_summary_counts of src/core/layout.c: the free counts of the whole file system, in
-- the superblock on disk, and of one group, in the summary area. A change is a 32-bit pattern, so
-- that -1 is 2 ^ 32 - 1.
use nextufs.Base.{ℕ, ◌+◌, ◌*◌, Bytes, u32, u64}
use nextufs.Codec.{write_be32}
use nextufs.Disk.{Image, Env, M, ◌>>=◌, ◌>>◌, read_exact, write_exact}
use nextufs.Group.{bump}

-- How the four counts move: directories, free blocks, free inodes, free fragments.
pub record Change : Type 0 where
  pub d_ndir : ℕ
  pub d_nbfree : ℕ
  pub d_nifree : ℕ
  pub d_nffree : ℕ

abbrev pub sb_time_off : ℕ
sb_time_off = 0x20

abbrev pub sb_ndir_off : ℕ
sb_ndir_off = 0x0c0

-- four adjacent counts in the order of struct csum
unfoldable pub add_change : Bytes → ℕ → Change → Bytes
unfolding bump
add_change buf at c =
    bump (bump (bump (bump buf at c.d_ndir) (at + 4) c.d_nbfree) (at + 8) c.d_nifree) (at + 12)
      c.d_nffree

module _ {S : Type 0} (env : Env S) (img : Image) where
  abbrev pub sb_offset : ℕ
  sb_offset = img.slice_base + 0x2000

  abbrev pub cs_offset : ℕ → ℕ
  cs_offset cg = u64 (img.slice_base + img.sb.cyl_summary_addr * img.sb.frag_size + cg * 16)

  unfoldable pub update_summary_counts : ℕ → Change → M S (Unit {0})
  update_summary_counts cg c = do
    sbuf ← read_exact env img 2048 sb_offset
    write_exact env img (write_be32 (add_change sbuf sb_ndir_off c) sb_time_off (u32 env.now)) 2048
        sb_offset
    csum_buf ← read_exact env img 16 (cs_offset cg)
    write_exact env img (add_change csum_buf 0 c) 16 (cs_offset cg)
