-- ===== src/Group/Free.antt =====
-- The free counts of a group's header follow its bitmap (src/core/alloc.c).
use nextufs.Base.{
  ℕ, zero, suc, ◌+◌, ◌-◌, ◌*◌, ◌/◌, ◌%◌, ◌^◌, ◌≤◌, ◌<◌, ◌≡◌, refl, ap, ◌∙◌, inl, inr, ◌&&◌, arith,
  Bytes, IsBytes, ltb, if◌then◌else◌, Bool-cases, u16, u32, neg32,
}
use nextufs.Codec.{read_be16, read_be32, write_be32}
use nextufs.Codec.Laws.{
  read_be32-lt, read_be32_cong, read_be32-write_be32_apart, read_be32-write_be16_apart,
}
use nextufs.Bits.{lower, lower-outside}
use nextufs.Superblock.{Superblock}
use nextufs.Group.{
  nrpos, cg_bpos_off, cg_time_off, cg_cs_nbfree_off, cg_cs_nffree_off, cg_rotor_off, cg_frsum_off,
  cg_free_off, cg_btot_off, bump, clear_block_bits, count_free_runs_in_block, apply_cg_frsum_delta,
}
use nextufs.Group.Take.{take_partial, take_whole, rotational}
use nextufs.Group.Counters.{apply_cg_frsum_delta-header, read_be32-bump, read_be32-bump_apart}

clear_block_bits-outside :
    (m : Bytes) (base n i : ℕ) → i < cg_free_off → clear_block_bits m base n i ≡ m i
unfolding clear_block_bits
clear_block_bits-outside m base zero i lt = refl
clear_block_bits-outside m base (suc n) i lt =
    clear_block_bits-outside (lower m cg_free_off base) (suc base) n i lt
    ∙ lower-outside m cg_free_off base i (omega arith)

clear_block_bits-header :
    (m : Bytes) (base n p : ℕ)
    → p + 4 ≤ cg_free_off
    → read_be32 (clear_block_bits m base n) p ≡ read_be32 m p
clear_block_bits-header m base n p le =
    read_be32_cong (clear_block_bits m base n) m p
      (λ i lo hi. clear_block_bits-outside m base n i (omega arith))

lowered : (x need y : ℕ) → x < 2 ^ 32 → need ≤ x → y ≡ u32 (x + neg32 need) → y ≡ x - need
lowered x need y small le e = omega arith

-- When at least `need` loose fragments are counted, the count goes down by `need` when that many
-- are taken out of a partly used block.
pub nffree-take_partial :
    (m : Bytes) (fpb block start need now : ℕ)
    → IsBytes m
    → need ≤ read_be32 m cg_cs_nffree_off
    → read_be32 (take_partial fpb m block start need now) cg_cs_nffree_off
      ≡ read_be32 m cg_cs_nffree_off - need
unfolding take_partial
nffree-take_partial m fpb block start need now h le =
    let cleared = clear_block_bits m start need in
    let before = count_free_runs_in_block m block fpb in
    let after = count_free_runs_in_block cleared block fpb in
    let buf2 = apply_cg_frsum_delta cleared before after fpb in
    let same =
      apply_cg_frsum_delta-header cleared before after fpb cg_cs_nffree_off (omega arith)
      ∙ clear_block_bits-header m start need cg_cs_nffree_off (omega arith) in
    lowered (read_be32 m cg_cs_nffree_off) need _ (read_be32-lt m cg_cs_nffree_off h) le (
      read_be32-write_be32_apart (bump buf2 cg_cs_nffree_off (neg32 need)) cg_cs_nffree_off
        cg_time_off (u32 now) (omega arith)
      ∙ read_be32-bump buf2 cg_cs_nffree_off (neg32 need)
      ∙ ap (λ x. u32 (x + neg32 need)) same)

rotational-header :
    (sb : Superblock) (m : Bytes) (block d32 d16 p : ℕ)
    → p + 4 ≤ cg_btot_off
    → read_be32 (rotational sb m block d32 d16) p ≡ read_be32 m p
unfolding rotational
rotational-header sb m block d32 d16 p le =
    let sector = u32 (block * sb.sectors_per_frag) in
    let cylno = sector / sb.sectors_per_cyl in
    let rotpos =
      u32 (sector % sb.sectors_per_cyl % sb.sectors_per_track * nrpos) / sb.sectors_per_track in
    let bposp = cg_bpos_off + (cylno * nrpos + rotpos) * 2 in
    let buf1 = bump m (cg_btot_off + cylno * 4) d32 in
    elim (Bool-cases (ltb cylno 32 && ltb rotpos nrpos)) [
      | inl inside ↦ rw inside (
          read_be32-write_be16_apart buf1 p bposp (u16 (read_be16 buf1 bposp + d16)) (omega arith)
          ∙ read_be32-bump_apart m p (cg_btot_off + cylno * 4) d32 (omega arith))
      | inr outside ↦ rw outside refl
    ]

-- the three writes after the counts: the run summary, the time, the rotational tables
after_counts :
    (sb : Superblock) (m : Bytes) (left now block p : ℕ)
    → p + 4 ≤ cg_frsum_off
    → cg_time_off + 4 ≤ p
    → read_be32
        (rotational sb
          (write_be32
            (if ltb 0 left then bump m (cg_frsum_off + left * 4) 1 else m)
            cg_time_off
            (u32 now))
          block
          (neg32 1)
          (2 ^ 16 - 1))
        p
      ≡ read_be32 m p
after_counts sb m left now block p le ge =
    rotational-header sb _ block (neg32 1) (2 ^ 16 - 1) p (omega arith)
    ∙ read_be32-write_be32_apart (if ltb 0 left then bump m (cg_frsum_off + left * 4) 1 else m) p
        cg_time_off (u32 now) (omega arith)
    ∙ elim (Bool-cases (ltb 0 left)) [
      | inl some_left ↦
          rw some_left (read_be32-bump_apart m p (cg_frsum_off + left * 4) 1 (omega arith))
      | inr none_left ↦ rw none_left refl
    ]

raised : (x a need y : ℕ) → x + a < 2 ^ 32 → need ≤ a → y ≡ u32 (x + (a - need)) → y + need ≡ x + a
raised x a need y small le e = omega arith

-- When a free block is counted and the count of loose fragments does not overflow, taking a whole
-- block for `need` of its fragments lowers the count of free blocks by one and raises the count
-- of loose fragments by those that are left of the block.
pub counts-take_whole :
    (sb : Superblock) (m : Bytes) (block need now : ℕ)
    → IsBytes m
    → need ≤ sb.frags_per_block
    → 0 < read_be32 m cg_cs_nbfree_off
    → read_be32 m cg_cs_nffree_off + sb.frags_per_block < 2 ^ 32
    → (read_be32 (take_whole sb m block need now) cg_cs_nbfree_off
        ≡ read_be32 m cg_cs_nbfree_off - 1)
      × (read_be32 (take_whole sb m block need now) cg_cs_nffree_off + need
          ≡ read_be32 m cg_cs_nffree_off + sb.frags_per_block)
unfolding take_whole
counts-take_whole sb m block need now h le pos room =
    let left = sb.frags_per_block - need in
    let buf2 = write_be32 (clear_block_bits m block need) cg_rotor_off block in
    let buf3 = bump buf2 cg_cs_nbfree_off (neg32 1) in
    let buf4 = bump buf3 cg_cs_nffree_off left in
    let start : (p : ℕ)
        → cg_time_off + 4 ≤ p
        → p + 4 ≤ cg_rotor_off
        → read_be32 buf2 p ≡ read_be32 m p =
      λ p lo hi.
        read_be32-write_be32_apart (clear_block_bits m block need) p cg_rotor_off block
          (omega arith)
        ∙ clear_block_bits-header m block need p (omega arith) in
    (
      lowered (read_be32 m cg_cs_nbfree_off) 1 _ (read_be32-lt m cg_cs_nbfree_off h) pos (
          after_counts sb buf4 left now block cg_cs_nbfree_off (omega arith) (omega arith)
          ∙ read_be32-bump_apart buf3 cg_cs_nbfree_off cg_cs_nffree_off left (omega arith)
          ∙ read_be32-bump buf2 cg_cs_nbfree_off (neg32 1)
          ∙ ap (λ x. u32 (x + neg32 1)) (start cg_cs_nbfree_off (omega arith) (omega arith))),
      raised (read_be32 m cg_cs_nffree_off) sb.frags_per_block need _ room le (
          after_counts sb buf4 left now block cg_cs_nffree_off (omega arith) (omega arith)
          ∙ read_be32-bump buf3 cg_cs_nffree_off left
          ∙ ap (λ x. u32 (x + left))
              (read_be32-bump_apart buf2 cg_cs_nffree_off cg_cs_nbfree_off (neg32 1) (omega arith)
                ∙ start cg_cs_nffree_off (omega arith) (omega arith))),
    )
