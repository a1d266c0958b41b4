-- ===== src/Group/Take.antt =====
-- What nextufs__allocate_frags_in_group, nextufs__extend_fragment_run, nextufs__free_fragment_run
-- and the two inode functions of src/core/alloc.c do to a group's buffer between reading it and
-- writing it back.
use nextufs.Base.{
  ℕ, zero, suc, ◌+◌, ◌-◌, ◌*◌, ◌/◌, ◌%◌, ◌^◌, Bool, not, ◌&&◌, ◌||◌, Option, none, some, Bytes, ltb,
  leb, ◌==◌, if◌then◌else◌, u16, u32, neg32,
}
use nextufs.Codec.{read_be16, write_be16, write_be32}
use nextufs.Bits.{bit, raise, lower}
use nextufs.Superblock.{Superblock}
use nextufs.Group.{
  nrpos, cg_time_off, cg_cs_ndir_off, cg_cs_nbfree_off, cg_cs_nifree_off, cg_cs_nffree_off,
  cg_rotor_off, cg_irotor_off, cg_frsum_off, cg_btot_off, cg_bpos_off, cg_iused_off, cg_free_off,
  bump, block_is_free, clear_block_bits, count_free_runs_in_block, apply_cg_frsum_delta,
}

-- Fragments leave a partly used block: the run counts, the free count and the time are updated.
unfoldable pub take_partial : ℕ → Bytes → ℕ → ℕ → ℕ → ℕ → Bytes
take_partial fpb buf block start need now =
    let before = count_free_runs_in_block buf block fpb in
    let buf1 = clear_block_bits buf start need in
    let after = count_free_runs_in_block buf1 block fpb in
    let buf2 = apply_cg_frsum_delta buf1 before after fpb in
    write_be32 (bump buf2 cg_cs_nffree_off (neg32 need)) cg_time_off (u32 now)

-- The count of free blocks by cylinder and rotational position moves by `d` (1 or -1).
unfoldable pub rotational : Superblock → Bytes → ℕ → ℕ → ℕ → Bytes
rotational sb buf local_frag d32 d16 =
    let sector = u32 (local_frag * sb.sectors_per_frag) in
    let cylno = sector / sb.sectors_per_cyl in
    let rotpos =
      u32 (sector % sb.sectors_per_cyl % sb.sectors_per_track * nrpos) / sb.sectors_per_track in
    let bposp = cg_bpos_off + (cylno * nrpos + rotpos) * 2 in
    let buf1 = bump buf (cg_btot_off + cylno * 4) d32 in
    if ltb cylno 32 && ltb rotpos nrpos
    then write_be16 buf1 bposp (u16 (read_be16 buf1 bposp + d16))
    else buf

-- The first fragments of a free block are taken, the rest become loose.
unfoldable pub take_whole : Superblock → Bytes → ℕ → ℕ → ℕ → Bytes
take_whole sb buf local_frag need now =
    let free_frags = sb.frags_per_block - need in
    let buf1 = clear_block_bits buf local_frag need in
    let buf2 = write_be32 buf1 cg_rotor_off local_frag in
    let buf3 = bump buf2 cg_cs_nbfree_off (neg32 1) in
    let buf4 = bump buf3 cg_cs_nffree_off free_frags in
    let buf5 = (if ltb 0 free_frags then bump buf4 (cg_frsum_off + free_frags * 4) 1 else buf4) in
    let buf6 = write_be32 buf5 cg_time_off (u32 now) in
    rotational sb buf6 local_frag (neg32 1) (2 ^ 16 - 1)

-- The loop that sets the bits of a freed run; a bit that is already set stops it.
unfoldable pub raise_run : Bytes → ℕ → ℕ → Option Bytes
raise_run buf at zero = some buf
raise_run buf at (suc n) =
    if bit buf cg_free_off at then none else raise_run (raise buf cg_free_off at) (suc at) n

-- The counters after a run was freed, with the changes of free blocks and of free fragments.
unfoldable pub settle_freed : Superblock → Bytes → Bytes → ℕ → ℕ → ℕ → Bytes × ℕ × ℕ
settle_freed sb buf buf1 block frags now =
    let fpb = sb.frags_per_block in
    let before = count_free_runs_in_block buf block fpb in
    let after = count_free_runs_in_block buf1 block fpb in
    let buf2 = apply_cg_frsum_delta buf1 before after fpb in
    let whole =
      rotational sb
        (bump (bump buf2 cg_cs_nffree_off (u32 (frags + 2 ^ 32 - fpb))) cg_cs_nbfree_off 1) block 1
        1 in
    if block_is_free buf2 block fpb
    then (write_be32 whole cg_time_off (u32 now), 1, u32 (frags + 2 ^ 32 - fpb))
    else (write_be32 (bump buf2 cg_cs_nffree_off frags) cg_time_off (u32 now), 0, frags)

-- The search of a free inode: `for (i = 0; i < inodes_per_group; i++)`, from the rotor around.
unfoldable pub find_inode : ℕ → Bytes → ℕ → ℕ → ℕ → ℕ → Option ℕ
find_inode zero buf cg ipg start i = none
find_inode (suc fuel) buf cg ipg start i =
    let idx = (start + i) % ipg in
    if (not (cg == 0) || leb 2 idx) && not (bit buf cg_iused_off idx)
    then some idx
    else find_inode fuel buf cg ipg start (suc i)

unfoldable pub take_inode : Bytes → ℕ → Bool → ℕ → Bytes
take_inode buf ipref is_dir now =
    let buf1 = raise buf cg_iused_off ipref in
    let buf2 = write_be32 buf1 cg_irotor_off ipref in
    let buf3 = write_be32 (bump buf2 cg_cs_nifree_off (neg32 1)) cg_time_off (u32 now) in
    if is_dir then bump buf3 cg_cs_ndir_off 1 else buf3

unfoldable pub release_inode : Bytes → ℕ → Bool → ℕ → Bytes
release_inode buf local_ino is_dir now =
    let buf1 = lower buf cg_iused_off local_ino in
    let buf2 = write_be32 (bump buf1 cg_cs_nifree_off 1) cg_time_off (u32 now) in
    if is_dir then bump buf2 cg_cs_ndir_off (neg32 1) else buf2
