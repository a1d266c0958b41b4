-- ===== src/Superblock.antt =====
-- The superblock in memory (struct nextufs_superblock of include/nextufs_image.h), and its decoding
-- from the bytes at UFS_SBLOCK_OFFSET: decode_superblock of src/core/image.c.
use nextufs.Base.{ℕ, Bytes}
use nextufs.Codec.{read_be32}

pub record Superblock : Type 0 where
  pub sb_off : ℕ
  pub cg_off : ℕ
  pub ino_off : ℕ
  pub data_off : ℕ
  pub cg_delta : ℕ
  pub cg_cyc_mask : ℕ
  pub write_time : ℕ
  pub frag_count : ℕ
  pub data_frag_count : ℕ
  pub cg_count : ℕ
  pub block_size : ℕ
  pub frag_size : ℕ
  pub frags_per_block : ℕ
  pub minfree : ℕ
  pub rotdelay : ℕ
  pub rps : ℕ
  pub block_mask : ℕ
  pub frag_mask : ℕ
  pub block_shift : ℕ
  pub frag_shift_calc : ℕ
  pub maxcontig : ℕ
  pub maxbpg : ℕ
  pub frag_shift : ℕ
  pub fsbtodb : ℕ
  pub super_size : ℕ
  pub csum_mask : ℕ
  pub csum_shift : ℕ
  pub nindir : ℕ
  pub sectors_per_frag : ℕ
  pub optim : ℕ
  pub inodes_per_block : ℕ
  pub cyl_summary_addr : ℕ
  pub csum_size : ℕ
  pub cg_size : ℕ
  pub tracks_per_cyl : ℕ
  pub sectors_per_track : ℕ
  pub sectors_per_cyl : ℕ
  pub ncyl : ℕ
  pub cpg : ℕ
  pub inodes_per_group : ℕ
  pub frags_per_group : ℕ
  pub dir_count : ℕ
  pub free_block_count : ℕ
  pub free_inode_count : ℕ
  pub free_frag_count : ℕ
  pub state : ℕ
  pub fs_magic : ℕ

unfoldable pub decode_superblock : Bytes → Superblock
decode_superblock buf = record {
  sb_off = read_be32 buf 0x08;
  cg_off = read_be32 buf 0x0c;
  ino_off = read_be32 buf 0x10;
  data_off = read_be32 buf 0x14;
  cg_delta = read_be32 buf 0x18;
  cg_cyc_mask = read_be32 buf 0x1c;
  write_time = read_be32 buf 0x20;
  frag_count = read_be32 buf 0x24;
  data_frag_count = read_be32 buf 0x28;
  cg_count = read_be32 buf 0x2c;
  block_size = read_be32 buf 0x30;
  frag_size = read_be32 buf 0x34;
  frags_per_block = read_be32 buf 0x38;
  minfree = read_be32 buf 0x3c;
  rotdelay = read_be32 buf 0x40;
  rps = read_be32 buf 0x44;
  block_mask = read_be32 buf 0x48;
  frag_mask = read_be32 buf 0x4c;
  block_shift = read_be32 buf 0x50;
  frag_shift_calc = read_be32 buf 0x54;
  maxcontig = read_be32 buf 0x58;
  maxbpg = read_be32 buf 0x5c;
  frag_shift = read_be32 buf 0x60;
  fsbtodb = read_be32 buf 0x64;
  super_size = read_be32 buf 0x68;
  csum_mask = read_be32 buf 0x6c;
  csum_shift = read_be32 buf 0x70;
  nindir = read_be32 buf 0x74;
  sectors_per_frag = read_be32 buf 0x7c;
  optim = read_be32 buf 0x80;
  inodes_per_block = read_be32 buf 0x78;
  cyl_summary_addr = read_be32 buf 0x98;
  csum_size = read_be32 buf 0x9c;
  cg_size = read_be32 buf 0x0a0;
  tracks_per_cyl = read_be32 buf 0x0a4;
  sectors_per_track = read_be32 buf 0x0a8;
  sectors_per_cyl = read_be32 buf 0x0ac;
  ncyl = read_be32 buf 0x0b0;
  cpg = read_be32 buf 0x0b4;
  inodes_per_group = read_be32 buf 0x0b8;
  frags_per_group = read_be32 buf 0x0bc;
  dir_count = read_be32 buf 0x0c0;
  free_block_count = read_be32 buf 0x0c4;
  free_inode_count = read_be32 buf 0x0c8;
  free_frag_count = read_be32 buf 0x0cc;
  state = buf 0x0d1;
  fs_magic = read_be32 buf 0x55c;
}
