-- ===== src/Group/Effects.antt =====
-- What taking fragments and giving them back does to the fragment bitmap and to the free counts of
-- a group (src/core/alloc.c).
use nextufs.Base.{
  ℕ, ◌+◌, ◌-◌, ◌*◌, ◌/◌, ◌^◌, ◌≤◌, ◌≡◌, refl, sym, ◌∙◌, inl, inr, true, false, some, arith, Bytes,
  IsBytes, ltb, if◌then◌else◌, Bool-cases, u32, neg32, within,
}
use nextufs.Codec.{write_be32}
use nextufs.Bits.{bit}
use nextufs.Superblock.{Superblock}
use nextufs.Group.{
  cg_time_off, cg_cs_nbfree_off, cg_cs_nffree_off, cg_rotor_off, cg_frsum_off, cg_free_off, bump,
  block_is_free, clear_block_bits, count_free_runs_in_block, apply_cg_frsum_delta,
}
use nextufs.Group.Take.{take_partial, take_whole, raise_run, settle_freed}
use nextufs.Group.Bitmap.{
  free, AllAre, clear_block_bits-IsBytes, free-clear_block_bits, free-raise_run, raise_run-some,
}
use nextufs.Group.Counters.{
  Counted, Counted-refl, write_be32-Counted, bump-Counted, apply_cg_frsum_delta-Counted,
  rotational-Counted,
}

-- A change of counters shows in no bit of the fragment bitmap.
free-Counted : (m m' : Bytes) → Counted m m' → (k : ℕ) → free m' k ≡ free m k
unfolding bit
free-Counted m m' h k = rw (h.maps (cg_free_off + k / 8) (omega arith)) refl

module _ (m : Bytes) (is_bytes : IsBytes m) where
  take_partial-Counted :
      (fpb block start need now : ℕ)
      → fpb ≤ 8
      → Counted (clear_block_bits m start need) (take_partial fpb m block start need now)
  unfolding take_partial
  take_partial-Counted fpb block start need now le =
      let cleared = clear_block_bits m start need in
      let h = Counted-refl cleared (clear_block_bits-IsBytes m start need is_bytes) in
      write_be32-Counted cleared _ cg_time_off (u32 now) (omega arith) (
        bump-Counted cleared _ cg_cs_nffree_off (neg32 need) (omega arith)
          (apply_cg_frsum_delta-Counted cleared cleared _ _ fpb le h))

  -- With at most 8 fragments in a block, taking a run out of a partly used block puts exactly the
  -- fragments of the run in use.
  pub free-take_partial :
      (fpb block start need now : ℕ)
      → fpb ≤ 8
      → (k : ℕ)
      → free (take_partial fpb m block start need now) k
        ≡ (if within start need k then false else free m k)
  free-take_partial fpb block start need now le k =
      free-Counted _ _ (take_partial-Counted fpb block start need now le) k
      ∙ free-clear_block_bits m start need is_bytes k

  take_whole-Counted :
      (sb : Superblock) (block need now : ℕ)
      → sb.frags_per_block ≤ 8
      → Counted (clear_block_bits m block need) (take_whole sb m block need now)
  unfolding take_whole
  take_whole-Counted sb block need now le =
      let cleared = clear_block_bits m block need in
      let h = Counted-refl cleared (clear_block_bits-IsBytes m block need is_bytes) in
      let left = sb.frags_per_block - need in
      let buf4 =
        bump (bump (write_be32 cleared cg_rotor_off block) cg_cs_nbfree_off (neg32 1))
          cg_cs_nffree_off left in
      let h4 : Counted cleared buf4 = bump-Counted cleared _ cg_cs_nffree_off left (omega arith) (
        bump-Counted cleared _ cg_cs_nbfree_off (neg32 1) (omega arith)
          (write_be32-Counted cleared cleared cg_rotor_off block (omega arith) h)) in
      let h5 : Counted cleared
          (if ltb 0 left then bump buf4 (cg_frsum_off + left * 4) 1 else buf4) =
        elim (Bool-cases (ltb 0 left)) [
          | inl some_left ↦
              rw some_left (bump-Counted cleared buf4 (cg_frsum_off + left * 4) 1 (omega arith) h4)
          | inr none_left ↦ rw none_left h4
        ] in
      rotational-Counted sb cleared _ block (neg32 1) (2 ^ 16 - 1)
        (write_be32-Counted cleared _ cg_time_off (u32 now) (omega arith) h5)

  -- With at most 8 fragments in a block, taking the first fragments of a whole block puts exactly
  -- those in use.
  pub free-take_whole :
      (sb : Superblock) (block need now : ℕ)
      → sb.frags_per_block ≤ 8
      → (k : ℕ)
      → free (take_whole sb m block need now) k ≡ (if within block need k then false else free m k)
  free-take_whole sb block need now le k =
      free-Counted _ _ (take_whole-Counted sb block need now le) k
      ∙ free-clear_block_bits m block need is_bytes k

  take_partial-IsBytes :
      (fpb block start need now : ℕ) → fpb ≤ 8 → IsBytes (take_partial fpb m block start need now)
  take_partial-IsBytes fpb block start need now le =
      (take_partial-Counted fpb block start need now le).is_bytes

pub settle_freed-Counted :
    (sb : Superblock) (m m1 : Bytes) (block frags now : ℕ)
    → sb.frags_per_block ≤ 8
    → IsBytes m1
    → Counted m1 (settle_freed sb m m1 block frags now).0
unfolding settle_freed
settle_freed-Counted sb m m1 block frags now le h =
    let fpb = sb.frags_per_block in
    let before = count_free_runs_in_block m block fpb in
    let after = count_free_runs_in_block m1 block fpb in
    let buf2 = apply_cg_frsum_delta m1 before after fpb in
    let h2 = apply_cg_frsum_delta-Counted m1 m1 before after fpb le (Counted-refl m1 h) in
    elim (Bool-cases (block_is_free buf2 block fpb)) [
      | inl whole ↦ rw whole (
          write_be32-Counted m1 _ cg_time_off (u32 now) (omega arith) (
            rotational-Counted sb m1 _ block 1 1 (
              bump-Counted m1 _ cg_cs_nbfree_off 1 (omega arith) (
                bump-Counted m1 buf2 cg_cs_nffree_off (u32 (frags + 2 ^ 32 - fpb)) (omega arith)
                  h2))))
      | inr part ↦ rw part (
          write_be32-Counted m1 _ cg_time_off (u32 now) (omega arith)
            (bump-Counted m1 buf2 cg_cs_nffree_off frags (omega arith) h2))
    ]

-- Settling the counters after a run was given back changes no bit of the bitmap.
pub free-settle_freed :
    (sb : Superblock) (m m1 : Bytes) (block frags now : ℕ)
    → sb.frags_per_block ≤ 8
    → IsBytes m1
    → (k : ℕ) → free (settle_freed sb m m1 block frags now).0 k ≡ free m1 k
free-settle_freed sb m m1 block frags now le h k =
    free-Counted _ _ (settle_freed-Counted sb m m1 block frags now le h) k

-- With at most 8 fragments in a block, a free run that is taken out of a partly used block can be
-- given back, and then every fragment of the group is free or in use as before.
pub take_partial-raise_run :
    (m : Bytes) (fpb block start need now : ℕ)
    → IsBytes m
    → fpb ≤ 8
    → AllAre true m start need
    → (m' : Bytes) × (raise_run (take_partial fpb m block start need now) start need ≡ some m')
      × ((k : ℕ) → free m' k ≡ free m k)
take_partial-raise_run m fpb block start need now h le all =
    let taken = take_partial fpb m block start need now in
    let taken_bytes = take_partial-IsBytes m h fpb block start need now le in
    let bits = free-take_partial m h fpb block start need now le in
    let back =
      raise_run-some taken start need taken_bytes (λ k ge lt. let b = bits k in ground arith) in
    let after = free-raise_run taken back.0 start need taken_bytes back.1 in
    (
      back.0,
      back.1,
      λ k. elim (Bool-cases (within start need k)) [
        | inl inside ↦
            let a = after.1 k in
            let f = all k (ground arith) (ground arith) in (rw inside at a) ∙ sym f
        | inr outside ↦ let a = after.1 k in let b = bits k in (rw outside at a) ∙ (rw outside at b)
      ],
    )
