-- ===== src/Geometry/Inodes.antt =====
-- Where nextufs__inode_offset of src/core/layout.c puts the inodes of a validated image.
use native.Mathlib.Nat.{
  mul-le-mul_right, lt-div-mul-add, mul-le-mul_left, le-mul_of_pos_right, div-lt_iff_lt-mul,
}
use native.Mathlib.Decide.{dec_lt}
use nextufs.Base.{
  ℕ, ◌+◌, ◌-◌, ◌*◌, ◌/◌, ◌%◌, ◌^◌, ◌≤◌, ◌<◌, ◌≡◌, arith, ap, ◌∙◌, u64, false, ◌||◌, ◌==◌, ok,
}
use nextufs.Disk.{Image}
use nextufs.Layout.{cgstart, inode_offset, ufs_inode_size}
use nextufs.Geometry.Facts.{Sound, Words, validate-Sound}
use nextufs.Geometry.{image_validate}
use nextufs.Geometry.Bounds.{cgstart_lem, group-le, slot_address, delta-le}

-- `x` bytes fit the fragments that are set aside for them.
table_room : (x fs a b : ℕ) → 0 < fs → a + (x + fs - 1) / fs ≤ b → a * fs + x ≤ b * fs
table_room x fs a b pos h =
    omega (arith, lt-div-mul-add {a = x + fs - 1} {b = fs} pos, mul-le-mul_right fs h)

-- Numbers in one group are in the order of their places there.
same_group :
    (d n n' : ℕ) → 0 < d → n < n' → ¬ (n / d < n' / d) → (n / d ≡ n' / d) × (n % d < n' % d)
same_group d n n' pos lt no_later = elim (dec_lt (n' / d) (n / d)) [
  | yes before ↦
      absurd (omega (arith, mul-le-mul_right {m = n' / d + 1} {n = n / d} d (omega arith)))
  | no no_before ↦ let e : n / d ≡ n' / d = omega arith in (e, omega (arith, ap (λ t. t * d) e))
]

-- No step of the address computation wraps when the exact result is small.
unwrapped :
    (base x fs r t : ℕ)
    → x * fs + r ≤ t
    → 1024 ≤ fs
    → base + t < 2 ^ 63
    → u64 (base + u64 (u64 x * fs) + r) ≡ base + (x * fs + r)
unwrapped base x fs r t fits big small =
    let le : x ≤ x * fs = le-mul_of_pos_right x (omega arith) in
    let whole : u64 x ≡ x = omega arith in rw whole (omega arith)

module _ (img : Image) (v : Sound img) (w : Words img.sb)
    (ends : img.slice_base + img.slice_size < 2 ^ 63) where
  open img.sb use {
    frags_per_group, cg_count, cg_delta, cg_cyc_mask, data_off, ino_off, frag_count, frag_size,
    inodes_per_group, inodes_per_block, frag_shift,
  }

  -- the address without wrap-around
  abbrev address : ℕ → ℕ
  address n =
      (cgstart img.sb (n / inodes_per_group) + ino_off) * frag_size + n % inodes_per_group * 128

  group_lt : (n : ℕ) → n < cg_count * inodes_per_group → n / inodes_per_group < cg_count
  group_lt n h = (div-lt_iff_lt-mul {k = inodes_per_group} {x = n} {y = cg_count} v.ipg_pos).1 h

  -- the table of a group ends where its data area begins, inside the file system
  address-end : (n : ℕ) → n < cg_count * inodes_per_group → address n + 128 ≤ img.slice_size
  address-end n h = omega (
    arith,
    table_room (inodes_per_group * 128) frag_size ino_off data_off (omega (arith, v.frag_ge))
        v.table_fits,
    mul-le-mul_right frag_size (group-le img v w (n / inodes_per_group) (group_lt n h)),
    v.frags_fit,
    v.ipg_pos,
  )

  tests : (inodes_per_group == 0 || frags_per_group == 0 || inodes_per_block == 0) ≡ false
  tests = ground (arith, v.ipg_pos, v.fpg_pos, v.per_block, v.block_ge)

  inode_offset_lem :
      (n : ℕ) → n < cg_count * inodes_per_group → inode_offset img n ≡ img.slice_base + address n
  unfolding inode_offset cgstart
  inode_offset_lem n h =
      let inum = n % inodes_per_group in
      let exact =
        slot_address (cgstart img.sb (n / inodes_per_group)) ino_off inum img.sb.block_size
          frag_size inodes_per_block frag_shift v.block_power v.frag_power v.frag_le v.shift_le
          (v.shifted ∙ v.per_frag) v.per_block in
      let no_wrap =
        unwrapped img.slice_base
          (cgstart img.sb (n / inodes_per_group)
            + ino_off
            + inum / inodes_per_block * 2 ^ frag_shift)
          frag_size (inum % inodes_per_block * 128) img.slice_size
          (omega (arith, exact, address-end n h)) v.frag_ge ends in
      rw (tests) (no_wrap ∙ ap (λ t. img.slice_base + t) exact)

  table_end :
      (n : ℕ) → address n + 128 ≤ (cgstart img.sb (n / inodes_per_group) + data_off) * frag_size
  table_end n = omega (
    arith,
    table_room (inodes_per_group * 128) frag_size ino_off data_off (omega (arith, v.frag_ge))
        v.table_fits,
    v.ipg_pos,
  )

  later_group :
      (cg cg' : ℕ) → cg < cg' → cg' < cg_count → cgstart img.sb cg + data_off ≤ cgstart img.sb cg'
  later_group cg cg' lt h = omega (
    arith,
    cgstart_lem img v w cg (omega arith),
    cgstart_lem img v w cg' h,
    delta-le img v w cg,
    mul-le-mul_left {m = cg + 1} {n = cg'} frags_per_group (omega arith),
  )

  address-apart :
      (n n' : ℕ) → n < n' → n' < cg_count * inodes_per_group → address n + 128 ≤ address n'
  address-apart n n' lt h = elim (dec_lt (n / inodes_per_group) (n' / inodes_per_group)) [
    | yes later ↦ omega (
      arith,
      table_end n,
      mul-le-mul_right frag_size
          (later_group (n / inodes_per_group) (n' / inodes_per_group) later (group_lt n' h)),
    )
    | no later ↦
        let same = same_group inodes_per_group n n' v.ipg_pos lt later in
        omega (arith, ap (λ q. (cgstart img.sb q + ino_off) * frag_size) same.0, same.1)
  ]

module _ (img : Image) (valid : image_validate img ≡ ok tt) (w : Words img.sb)
    (ends : img.slice_base + img.slice_size < 2 ^ 63) where
  -- In an image that nextufs_image_validate accepts, whose slice ends below 2 ^ 63, the 128 bytes
  -- of every inode lie inside the slice.
  pub inode_offset-in_slice :
      (n : ℕ)
      → n < img.sb.cg_count * img.sb.inodes_per_group
      → (img.slice_base ≤ inode_offset img n)
        × (inode_offset img n + ufs_inode_size ≤ img.slice_base + img.slice_size)
  inode_offset-in_slice n h =
      let v = validate-Sound img valid in
      let e = inode_offset_lem img v w ends n h in
      let room = address-end img v w ends n h in (omega arith, omega arith)

  -- There the slots of two inodes do not overlap, and they come in the order of the numbers.
  pub inode_offset-apart :
      (n n' : ℕ)
      → n < n'
      → n' < img.sb.cg_count * img.sb.inodes_per_group
      → inode_offset img n + ufs_inode_size ≤ inode_offset img n'
  inode_offset-apart n n' lt h =
      let v = validate-Sound img valid in
      let e = inode_offset_lem img v w ends n (omega arith) in
      let e' = inode_offset_lem img v w ends n' h in
      omega (arith, address-apart img v w ends n n' lt h)
