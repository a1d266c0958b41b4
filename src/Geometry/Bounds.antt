-- ===== src/Geometry/Bounds.antt =====
-- In a validated image every group header and every inode lies inside the slice.
use native.Mathlib.Nat.{mul-le-mul, mul-le-mul_left, le-div_iff_mul-le}
use native.Mathlib.Decide.{dec_lt}
use Prim.Native.Nat.{bit_and}
use nextufs.Base.{
  Upto-all, inl, inr, ℕ, ◌+◌, ◌-◌, ◌*◌, ◌/◌, ◌%◌, ◌^◌, ◌≤◌, ◌<◌, ◌≡◌, arith, ap, sym, ◌∙◌, u32, u64,
  not32,
}
use nextufs.Bits.And.{bit_and-le}
use nextufs.Disk.{Image}
use nextufs.Layout.{cgstart}
use nextufs.Geometry.Facts.{Sound, Words, BlockSize, FragSize}

-- A sum of 32-bit factors and a 32-bit term does not wrap at 64 bits.
unwrapped :
    (a b c g : ℕ) → a < 2 ^ 32 → b < 2 ^ 32 → c < 2 ^ 32 → u64 (a * b + c) ≤ g → a * b + c ≤ g
unwrapped a b c g ha hb hc h = omega (
  arith,
  mul-le-mul {n₁ = a} {m₁ = b} {n₂ = 2 ^ 32 - 1} {m₂ = 2 ^ 32 - 1} (omega arith) (omega arith),
)

below_count :
    (total per n cg : ℕ) → 0 < per → n ≡ (total + per - 1) / per → cg < n → per * cg < total
below_count total per n cg pos count lt =
    let whole =
      (le-div_iff_mul-le {k = per} {x = cg + 1} {y = total + per - 1} pos).0 (omega arith) in
    omega arith

module _ (img : Image) (v : Sound img) (w : Words img.sb) where
  open img.sb use {
    frags_per_group, cg_count, cg_delta, cg_cyc_mask, data_off, frag_count, frag_size,
  }

  mask_room : cg_delta * not32 cg_cyc_mask + data_off ≤ frags_per_group
  mask_room =
      unwrapped cg_delta (not32 cg_cyc_mask) data_off frags_per_group w.delta_word (omega arith)
        w.data_word v.delta_fits

  -- all but the last group are full
  pub groups_below : (cg : ℕ) → cg < cg_count → frags_per_group * cg < frag_count
  groups_below cg h = below_count frag_count frags_per_group cg_count cg v.fpg_pos v.groups h

  pub delta-le : (cg : ℕ) → cg_delta * bit_and cg (not32 cg_cyc_mask) + data_off ≤ frags_per_group
  delta-le cg =
      omega (arith, mask_room, mul-le-mul_left cg_delta (bit_and-le cg (not32 cg_cyc_mask)))

  pub cgstart_lem :
      (cg : ℕ)
      → cg < cg_count
      → cgstart img.sb cg ≡ frags_per_group * cg + cg_delta * bit_and cg (not32 cg_cyc_mask)
  unfolding cgstart
  cgstart_lem cg h = omega (arith, delta-le cg, groups_below cg h, w.frags_word, w.group_word)

  -- a group's blocks begin inside the group and its data area inside the file system
  pub group-le : (cg : ℕ) → cg < cg_count → cgstart img.sb cg + data_off ≤ frag_count
  group-le cg h = elim (dec_lt (cg + 1) cg_count) [
    | yes more ↦ omega (arith, cgstart_lem cg h, delta-le cg, groups_below (cg + 1) more)
    | no last ↦
        let same : u32 (cg_count + 2 ^ 32 - 1) ≡ cg = omega (arith, w.groups_word) in
        omega (
          arith,
          rw same at v.last_fits,
          cgstart_lem cg h,
          delta-le cg,
          groups_below cg h,
          w.frags_word,
          w.group_word,
        )
  ]

block_of_slots :
    (inum bs ipb : ℕ)
    → BlockSize bs
    → ipb ≡ bs / 128
    → inum / ipb * bs + inum % ipb * 128 ≡ inum * 128
block_of_slots inum bs ipb (inl e) per = let p : ipb ≡ 32 = omega arith in rw (p, e) (omega arith)
block_of_slots inum bs ipb (inr e) per = let p : ipb ≡ 64 = omega arith in rw (p, e) (omega arith)

block_of_frags : (bs fs : ℕ) → BlockSize bs → FragSize fs → fs ≤ bs → bs / fs * fs ≡ bs
block_of_frags bs fs hb hf le = ground arith

small_power : (k : ℕ) → k ≤ 3 → u32 (2 ^ k) ≡ 2 ^ k
small_power k h = Upto-all 4 (λ k. u32 (2 ^ k) ≡ 2 ^ k) (omega arith) k (omega arith)

-- Inode tables are arrays of 128-byte slots that pack the blocks without a gap.
pub slot_address :
    (start ino_off inum bs fs ipb shift : ℕ)
    → BlockSize bs
    → FragSize fs
    → fs ≤ bs
    → shift ≤ 3
    → u32 (2 ^ shift) ≡ bs / fs
    → ipb ≡ bs / 128
    → (start + ino_off + inum / ipb * 2 ^ shift) * fs + inum % ipb * 128
      ≡ (start + ino_off) * fs + inum * 128
slot_address start ino_off inum bs fs ipb shift hb hf le hs pow per =
    let whole : 2 ^ shift * fs ≡ bs =
      ap (λ t. t * fs) (sym (small_power shift hs) ∙ pow) ∙ block_of_frags bs fs hb hf le in
    omega (arith, ap (λ (t : ℕ). inum / ipb * t) whole, block_of_slots inum bs ipb hb per)
