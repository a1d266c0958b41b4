-- ===== src/Geometry/Facts.antt =====
-- What the checks of nextufs_image_validate say, as equations and orders.
use nextufs.Base.{
  Upto-all, subst, ◌⊎◌, ℕ, ◌+◌, ◌-◌, ◌*◌, ◌/◌, ◌^◌, ◌≤◌, ◌<◌, ◌≡◌, arith, false, ok, u32, u64,
  not32,
}
use nextufs.Superblock.{Superblock}
use nextufs.Disk.{Image}
use nextufs.Layout.{cgstart}
use nextufs.Geometry.{
  bad_masks, bad_cylinders, bad_sizes, bad_groups, bad_tables, bad_superblock, bad_extent,
  image_validate,
}

-- The fields that the facts need in their C type, uint32_t.
pub record Words (s : Superblock) : Type 0 where
  pub delta_word : s.cg_delta < 2 ^ 32
  pub data_word : s.data_off < 2 ^ 32
  pub frags_word : s.frag_count < 2 ^ 32
  pub group_word : s.frags_per_group < 2 ^ 32
  pub groups_word : s.cg_count < 2 ^ 32

-- Both sizes are powers of two in their ranges.
abbrev pub BlockSize : ℕ → Type 0
BlockSize b = (b ≡ 4096) ⊎ (b ≡ 8192)

abbrev pub FragSize : ℕ → Type 0
FragSize f = (f ≡ 1024) ⊎ (f ≡ 2048) ⊎ (f ≡ 4096) ⊎ (f ≡ 8192)

pub record Sound (img : Image) : Type 0 where
  pub block_power : BlockSize img.sb.block_size
  pub frag_power : FragSize img.sb.frag_size
  pub ipg_pos : 0 < img.sb.inodes_per_group
  pub ipg_le : img.sb.inodes_per_group ≤ 2048
  pub fpg_pos : 0 < img.sb.frags_per_group
  pub frags_pos : 0 < img.sb.frag_count
  pub groups_pos : 0 < img.sb.cg_count
  pub groups :
      img.sb.cg_count ≡ (img.sb.frag_count + img.sb.frags_per_group - 1) / img.sb.frags_per_group
  pub per_block : img.sb.inodes_per_block ≡ img.sb.block_size / 128
  pub block_ge : 4096 ≤ img.sb.block_size
  pub block_le : img.sb.block_size ≤ 8192
  pub frag_ge : 1024 ≤ img.sb.frag_size
  pub frag_le : img.sb.frag_size ≤ img.sb.block_size
  pub per_frag : img.sb.frags_per_block ≡ img.sb.block_size / img.sb.frag_size
  pub shift_le : img.sb.frag_shift ≤ 3
  pub shifted : u32 (2 ^ img.sb.frag_shift) ≡ img.sb.frags_per_block
  pub delta_fits :
      u64 (img.sb.cg_delta * not32 img.sb.cg_cyc_mask + img.sb.data_off) ≤ img.sb.frags_per_group
  pub table_fits :
      img.sb.ino_off + (img.sb.inodes_per_group * 128 + img.sb.frag_size - 1) / img.sb.frag_size
      ≤ img.sb.data_off
  pub header_first : img.sb.cg_off < img.sb.ino_off
  pub map_fits : 984 + (img.sb.frags_per_group + 7) / 8 ≤ img.sb.cg_size
  pub header_le : img.sb.cg_size ≤ img.sb.block_size
  pub slice_in_file : img.slice_base < 2 ^ 63
  pub slice_le : img.slice_size < 2 ^ 63
  pub frags_fit : img.sb.frag_count * img.sb.frag_size ≤ img.slice_size
  pub last_fits :
      u64 (cgstart img.sb (u32 (img.sb.cg_count + 2 ^ 32 - 1)) + img.sb.data_off)
      ≤ img.sb.frag_count

module _ (img : Image) where
  passed : image_validate img ≡ ok tt → (bad_superblock img.sb ≡ false) × (bad_extent img ≡ false)
  unfolding image_validate
  passed h = ground arith

block_power_of :
    (k : ℕ) → k < 32 → 4096 ≤ u32 (2 ^ k) → u32 (2 ^ k) ≤ 8192 → BlockSize (u32 (2 ^ k))
block_power_of k =
    Upto-all 32 (λ k. 4096 ≤ u32 (2 ^ k) → u32 (2 ^ k) ≤ 8192 → BlockSize (u32 (2 ^ k)))
      (omega arith) k

frag_power_of : (k : ℕ) → k < 32 → 1024 ≤ u32 (2 ^ k) → u32 (2 ^ k) ≤ 8192 → FragSize (u32 (2 ^ k))
frag_power_of k =
    Upto-all 32 (λ k. 1024 ≤ u32 (2 ^ k) → u32 (2 ^ k) ≤ 8192 → FragSize (u32 (2 ^ k)))
      (omega arith) k

module _ (s : Superblock) where
  mask_facts :
      bad_masks s ≡ false
      → (s.block_shift < 32)
        × (s.frag_shift_calc < 32)
        × (u32 (2 ^ s.block_shift) ≡ s.block_size)
        × (u32 (2 ^ s.frag_shift_calc) ≡ s.frag_size)
  unfolding bad_masks
  mask_facts h = ground arith

  parts :
      bad_superblock s ≡ false
      → (bad_masks s ≡ false)
        × (bad_cylinders s ≡ false)
        × (bad_sizes s ≡ false)
        × (bad_groups s ≡ false)
        × (bad_tables s ≡ false)
  unfolding bad_superblock
  parts h = ground arith

  cylinder_facts :
      bad_cylinders s ≡ false
      → u64 (s.cg_delta * not32 s.cg_cyc_mask + s.data_off) ≤ s.frags_per_group
  unfolding bad_cylinders
  cylinder_facts h = ground arith

  size_facts :
      bad_sizes s ≡ false
      → (4096 ≤ s.block_size)
        × (s.block_size ≤ 8192)
        × (1024 ≤ s.frag_size)
        × (s.frag_size ≤ s.block_size)
        × (s.frags_per_block ≡ s.block_size / s.frag_size)
        × (s.frag_shift ≤ 3)
        × (u32 (2 ^ s.frag_shift) ≡ s.frags_per_block)
        × (s.inodes_per_block ≡ s.block_size / 128)
  unfolding bad_sizes
  size_facts h = ground arith

  group_facts :
      bad_groups s ≡ false
      → (0 < s.inodes_per_group)
        × (s.inodes_per_group ≤ 2048)
        × (0 < s.frags_per_group)
        × (0 < s.frag_count)
        × (0 < s.cg_count)
        × (s.cg_count ≡ (s.frag_count + s.frags_per_group - 1) / s.frags_per_group)
        × (984 + (s.frags_per_group + 7) / 8 ≤ s.cg_size)
        × (s.cg_size ≤ s.block_size)
  unfolding bad_groups
  group_facts h = ground arith

  table_facts :
      bad_tables s ≡ false
      → (s.ino_off + (s.inodes_per_group * 128 + s.frag_size - 1) / s.frag_size ≤ s.data_off)
        × (s.cg_off < s.ino_off)
  unfolding bad_tables
  table_facts h = ground arith

extent_facts :
    (img : Image)
    → bad_extent img ≡ false
    → (img.slice_base < 2 ^ 63)
      × (img.slice_size < 2 ^ 63)
      × (img.sb.frag_count * img.sb.frag_size ≤ img.slice_size)
      × (u64 (cgstart img.sb (u32 (img.sb.cg_count + 2 ^ 32 - 1)) + img.sb.data_off)
          ≤ img.sb.frag_count)
unfolding bad_extent
extent_facts img h = ground arith

pub validate-Sound : (img : Image) → image_validate img ≡ ok tt → Sound img
validate-Sound img h =
    let p = passed img h in
    let q = parts img.sb p.0 in
    let z = size_facts img.sb q.2 in
    let g = group_facts img.sb q.3 in
    let t = table_facts img.sb q.4 in
    let x = extent_facts img p.1 in
    let m = mask_facts img.sb q.0 in
    record {
      block_power =
          subst BlockSize m.2 (block_power_of img.sb.block_shift m.0 (omega arith) (omega arith));
      frag_power =
          subst FragSize m.3 (frag_power_of img.sb.frag_shift_calc m.1 (omega arith) (omega arith));
      ipg_pos = g.0;
      ipg_le = g.1;
      fpg_pos = g.2;
      frags_pos = g.3;
      groups_pos = g.4;
      groups = g.5;
      per_block = z.7;
      block_ge = z.0;
      block_le = z.1;
      frag_ge = z.2;
      frag_le = z.3;
      per_frag = z.4;
      shift_le = z.5;
      shifted = z.6;
      delta_fits = cylinder_facts img.sb q.1;
      table_fits = t.0;
      header_first = t.1;
      map_fits = g.6;
      header_le = g.7;
      slice_in_file = x.0;
      slice_le = x.1;
      frags_fit = x.2;
      last_fits = x.3;
    }
