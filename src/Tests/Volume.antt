-- ===== src/Tests/Volume.antt =====
-- A volume of two groups that the checks accept.
use nextufs.Base.{
  ◌-◌, ◌≡◌, refl, true, false, arith, Bytes, IsBytes, zeros, ok, leb, ltb, ◌&&◌, ◌==◌,
  if◌then◌else◌, not32,
}
use nextufs.Superblock.{Superblock}
use nextufs.Disk.{Image}
use nextufs.Inode.{Inode}
use nextufs.Geometry.{
  image_validate, bad_superblock, bad_masks, bad_cylinders, bad_sizes, bad_groups, bad_tables,
  bad_extent,
}
use nextufs.Layout.{cgstart}
use nextufs.Geometry.Facts.{Words}

abbrev pub volume_superblock : Superblock
volume_superblock = record {
  sb_off = 8;
  cg_off = 16;
  ino_off = 20;
  data_off = 24;
  cg_delta = 4;
  cg_cyc_mask = not32 1;
  write_time = 0;
  frag_count = 128;
  data_frag_count = 80;
  cg_count = 2;
  block_size = 4096;
  frag_size = 1024;
  frags_per_block = 4;
  minfree = 10;
  rotdelay = 0;
  rps = 60;
  block_mask = not32 4095;
  frag_mask = not32 1023;
  block_shift = 12;
  frag_shift_calc = 10;
  maxcontig = 1;
  maxbpg = 16;
  frag_shift = 2;
  fsbtodb = 0;
  super_size = 2048;
  csum_mask = not32 255;
  csum_shift = 8;
  nindir = 1024;
  sectors_per_frag = 1;
  optim = 0;
  inodes_per_block = 32;
  cyl_summary_addr = 24;
  csum_size = 1024;
  cg_size = 1024;
  tracks_per_cyl = 1;
  sectors_per_track = 64;
  sectors_per_cyl = 64;
  ncyl = 2;
  cpg = 1;
  inodes_per_group = 32;
  frags_per_group = 64;
  dir_count = 1;
  free_block_count = 9;
  free_inode_count = 29;
  free_frag_count = 2;
  state = 0;
  fs_magic = 0x00011954;
}

abbrev pub volume : Image
volume = record {
  is_open = true;
  writable = true;
  unprivileged = false;
  restore_clean = false;
  fs_write_active = false;
  image_size = 131072;
  slice_base = 0;
  slice_size = 131072;
  sb = volume_superblock;
}

pub volume-valid : image_validate volume ≡ ok tt
unfolding image_validate bad_superblock bad_masks bad_cylinders bad_sizes bad_groups bad_tables
    bad_extent cgstart
volume-valid = refl

pub volume-Words : Words volume_superblock
volume-Words = record {
  delta_word = omega arith;
  data_word = omega arith;
  frags_word = omega arith;
  group_word = omega arith;
  groups_word = omega arith;
}

-- The header of group 0: inodes 0 to 2 are used; fragments 26 and 27 are loose, 28 to 63 free.
abbrev pub header : Bytes
header i =
    if i == 23
    then 64
    else if i == 31
    then 9
    else if i == 35
    then 29
    else if i == 39
    then 2
    else if i == 63
    then 1
    else if i == 724
    then 7
    else if i == 981
    then 9
    else if i == 982
    then 2
    else if i == 983
    then 85
    else if i == 987
    then 252
    else if leb 988 i && ltb i 992
    then 255
    else 0

pub header-IsBytes : IsBytes header
header-IsBytes i = ground arith

-- The whole volume: that header in its place, and zeros.
abbrev pub disk : Bytes
disk i = if leb 16384 i && ltb i 17408 then header (i - 16384) else 0

-- A file of 1500 bytes in fragments 24 and 25, and an empty one.
abbrev pub empty_file : Inode
empty_file = record {
  mode = 0o100644;
  nlink = 1;
  uid = 0;
  gid = 0;
  size = 0;
  atime = 7;
  mtime = 8;
  ctime = 9;
  db = zeros;
  ib = zeros;
  flags = 0;
  blocks = 0;
  gen = 1;
}

abbrev pub file : Inode
file = record empty_file { size = 1500; blocks = 2; db = λ i. if i == 0 then 24 else 0 }

abbrev pub text : Bytes
text i = 120
