-- ===== src/Tests/Maps.antt =====
-- The header of group 0 of the volume: searches, and what is taken and given back.
use nextufs.Base.{
  subst, ℕ, ◌+◌, ◌-◌, ◌*◌, ◌≤◌, ◌<◌, ◌≡◌, refl, true, false, none, some, arith, Bytes, within,
  if◌then◌else◌, u32, ◌==◌,
}
use native.Mathlib.Decide.{dec_lt}
use nextufs.Codec.{read_be32}
use nextufs.Bits.{bit, raise}
use nextufs.Bits.Table.{test_bit, set_bit}
use nextufs.Group.{
  cg_frsum_off, cg_cs_nffree_off, cg_cs_nbfree_off, block_is_free, set_run_bits,
  apply_cg_frsum_delta,
}
use nextufs.Group.Search.{find_start, find_partial, find_whole}
use nextufs.Group.Take.{take_partial, take_whole, raise_run, find_inode, take_inode, release_inode}
use nextufs.Group.Bitmap.{free, AllAre, free-raise_run}
use nextufs.Group.Found.{IsUsed, find_whole-some}
use nextufs.Group.Partial.{IsFound, find_partial-some, find_partial-none}
use nextufs.Group.Effects.{free-take_partial, free-take_whole, take_partial-raise_run}
use nextufs.Group.Free.{counts-take_whole}
use nextufs.Group.Counters.{apply_cg_frsum_delta-moves}
use nextufs.Group.Inodes.{used, may_take, find_inode-some, used-release_inode-take_inode}
use nextufs.Tests.Volume.{volume_superblock, header, header-IsBytes}

partial_found : find_partial 65 header 0 64 4 2 ≡ some (24, 26)
unfolding find_partial find_start set_run_bits block_is_free bit test_bit
partial_found = refl

find_partial-some_example : IsFound header 0 64 4 2 24 26
find_partial-some_example = find_partial-some 65 header 0 64 4 2 24 26 partial_found

partial_missing : find_partial 65 header 0 64 4 3 ≡ none
unfolding find_partial find_start set_run_bits block_is_free bit test_bit
partial_missing = refl

bit_24 : free header 24 ≡ false
unfolding bit test_bit
bit_24 = refl

block_24-IsUsed : IsUsed header 64 4 24
block_24-IsUsed (le, all) = let set = all 24 (omega arith) (omega arith) in let clear = bit_24 in cc

find_partial-none_example : ¬ AllAre true header 25 3
find_partial-none_example =
    find_partial-none 65 header 0 64 4 3 (omega arith) (omega arith) (omega arith) partial_missing 6
      25 (omega arith) (omega arith) block_24-IsUsed

whole_found : find_whole 65 header 0 64 4 ≡ some 28
unfolding find_whole block_is_free bit test_bit
whole_found = refl

find_whole-some_example : ((j : ℕ) × (28 ≡ 0 + j * 4)) × (28 + 4 ≤ 64) × AllAre true header 28 4
find_whole-some_example = find_whole-some 65 header 0 64 4 28 whole_found

whole_missing : find_whole 25 header 0 24 4 ≡ none
unfolding find_whole block_is_free bit test_bit
whole_missing = refl

free-take_partial_example : free (take_partial 4 header 24 26 2 1000) 27 ≡ false
free-take_partial_example = free-take_partial header header-IsBytes 4 24 26 2 1000 (omega arith) 27

free-take_whole_example : free (take_whole volume_superblock header 28 3 1000) 31 ≡ free header 31
free-take_whole_example =
    free-take_whole header header-IsBytes volume_superblock 28 3 1000 (omega arith) 31

run_26-AllAre : AllAre true header 26 2
unfolding bit test_bit
run_26-AllAre k ge lt = elim (dec_lt k 27) [
  | yes first ↦ let e : 26 ≡ k = omega arith in subst (λ t. free header t ≡ true) e refl
  | no second ↦ let e : 27 ≡ k = omega arith in subst (λ t. free header t ≡ true) e refl
]

take_partial-raise_run_example :
    (m' : Bytes) × (raise_run (take_partial 4 header 24 26 2 1000) 26 2 ≡ some m')
    × ((k : ℕ) → free m' k ≡ free header k)
take_partial-raise_run_example =
    take_partial-raise_run header 4 24 26 2 1000 header-IsBytes (omega arith) run_26-AllAre

nffree_header : read_be32 header cg_cs_nffree_off ≡ 2
unfolding read_be32
nffree_header = refl

nbfree_header : read_be32 header cg_cs_nbfree_off ≡ 9
unfolding read_be32
nbfree_header = refl

counts-take_whole_example :
    (read_be32 (take_whole volume_superblock header 28 3 1000) cg_cs_nbfree_off
      ≡ read_be32 header cg_cs_nbfree_off - 1)
    × (read_be32 (take_whole volume_superblock header 28 3 1000) cg_cs_nffree_off + 3
        ≡ read_be32 header cg_cs_nffree_off + 4)
counts-take_whole_example =
    counts-take_whole volume_superblock header 28 3 1000 header-IsBytes (omega arith)
      (omega (arith, nbfree_header)) (omega (arith, nffree_header))

-- one run of two fragments becomes one run of one
abbrev runs_before : ℕ → ℕ
runs_before i = if i == 2 then 1 else 0

abbrev runs_after : ℕ → ℕ
runs_after i = if i == 1 then 1 else 0

runs_header : read_be32 header (cg_frsum_off + 2 * 4) ≡ u32 (0 + runs_before 2)
unfolding read_be32
runs_header = refl

apply_cg_frsum_delta-moves_example :
    read_be32 (apply_cg_frsum_delta header runs_before runs_after 4) (cg_frsum_off + 2 * 4)
    ≡ u32 (0 + runs_after 2)
apply_cg_frsum_delta-moves_example =
    apply_cg_frsum_delta-moves header runs_before runs_after 4 2 0 (omega arith) (omega arith)
      (omega arith) runs_header

inode_found : find_inode 32 header 0 32 0 0 ≡ some 3
unfolding find_inode bit test_bit
inode_found = refl

find_inode-some_example : (3 < 32) × (may_take header 0 3 ≡ true)
find_inode-some_example = find_inode-some 32 header 0 32 0 0 3 (omega arith) inode_found

-- a group of three inodes, all in use
inode_missing : find_inode 3 header 0 3 1 0 ≡ none
unfolding find_inode bit test_bit
inode_missing = refl

used-release_inode-take_inode_example :
    used (release_inode (take_inode header 3 true 1000) 3 true 1001) 3 ≡ used header 3
used-release_inode-take_inode_example =
    used-release_inode-take_inode header 0 32 0 3 true 1000 1001 3 header-IsBytes (omega arith)
      inode_found

abbrev freed : Bytes
freed = raise (raise header 984 24) 984 25

run_freed : raise_run header 24 2 ≡ some freed
unfolding raise_run bit test_bit raise set_bit
run_freed = refl

free-raise_run_example :
    AllAre false header 24 2
    × ((k : ℕ) → free freed k ≡ (if within 24 2 k then true else free header k))
free-raise_run_example = free-raise_run header freed 24 2 header-IsBytes run_freed
