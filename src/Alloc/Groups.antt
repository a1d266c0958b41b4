-- ===== src/Alloc/Groups.antt =====
-- Inodes and fragments taken from a group: allocate_inode_in_group,
-- nextufs__allocate_inode_in_group, nextufs__free_inode_in_group, nextufs__allocate_frags_in_group,
-- reserve_available and nextufs__allocate_frags_anycg. Numbers of fragments inside a group do not
-- wrap: nextufs_image_validate holds a group below 2 ^ 16 fragments.
use Prim.Native.Nat.{bit_and}
use nextufs.Base.{
  ℕ, zero, suc, ◌+◌, ◌-◌, ◌*◌, ◌/◌, ◌%◌, Bool, true, false, not, ◌||◌, Option, none, some, Bytes,
  Result, ok, err, ltb, leb, ◌==◌, if◌then◌else◌, u32, u64, neg32, einval, enospc,
}
use nextufs.Codec.{read_be32}
use nextufs.Bits.{bit}
use nextufs.Disk.{Dev, Image, Env, M, pure, fail, ◌>>=◌, ◌>>◌, read_exact, write_exact}
use nextufs.Layout.{cg_block_offset}
use nextufs.Group.{cg_magic, cg_magic_off, cg_cs_nifree_off, cg_irotor_off, cg_iused_off}
use nextufs.Group.Take.{find_inode, take_inode, release_inode}
use nextufs.Summary.{Change, update_summary_counts}

abbrev pub ifmt : ℕ
ifmt = 0o170000

abbrev pub ifdir : ℕ
ifdir = 0o040000

-- `(mode & NEXTUFS_IFMT) == NEXTUFS_IFDIR`
abbrev pub is_directory : ℕ → Bool
is_directory mode = bit_and mode ifmt == ifdir

abbrev pub guard : {S : Type 0} → Bool → ℕ → M S (Unit {0})
guard true e = pure tt
guard false e = fail e

module _ {S : Type 0} (env : Env S) (img : Image) where
  open img use {sb}

  -- the header block of a group, its magic number checked
  unfoldable pub read_group : ℕ → M S Bytes
  read_group cg = do
    buf ← read_exact env img sb.cg_size (cg_block_offset img cg)
    guard (read_be32 buf cg_magic_off == cg_magic) einval
    pure buf

  -- the buffer goes back to the disk and the summaries follow
  unfoldable pub write_group : ℕ → Bytes → Change → M S (Unit {0})
  write_group cg buf c = do
    write_exact env img buf sb.cg_size (cg_block_offset img cg)
    update_summary_counts env img cg c

  unfoldable pub take_found_inode : ℕ → ℕ → Bytes → Option ℕ → M S ℕ
  take_found_inode cg mode buf none = fail enospc
  take_found_inode cg mode buf (some ipref) = do
    write_group cg (take_inode buf ipref (is_directory mode) env.now) (record {
      d_ndir = if is_directory mode then 1 else 0;
      d_nbfree = 0;
      d_nifree = neg32 1;
      d_nffree = 0;
    })
    pure (u32 (cg * sb.inodes_per_group + ipref))

  unfoldable pub allocate_inode_one_group : ℕ → ℕ → M S ℕ
  unfolding read_group write_group take_found_inode
  allocate_inode_one_group cg mode = do
    buf ← read_group cg
    guard (not (read_be32 buf cg_cs_nifree_off == 0)) enospc
    let rotor = read_be32 buf cg_irotor_off
    let start = if leb sb.inodes_per_group rotor then 0 else rotor
    take_found_inode cg mode buf (find_inode sb.inodes_per_group buf cg sb.inodes_per_group start 0)

  -- a group that is full hands over to the next
  abbrev pub unless_full : {A : Type 0} → Result A × Dev S → M S A → Result A × Dev S
  unless_full (ok a, d) rest = (ok a, d)
  unless_full (err e, d) rest = if e == enospc then rest d else (err e, d)

  -- `for (i = 0; i < cg_count; i++)` over the groups from `cg` around
  unfoldable pub groups_from : {A : Type 0} → (ℕ → M S A) → ℕ → ℕ → ℕ → M S A
  groups_from one cg i zero d = (err enospc, d)
  groups_from one cg i (suc n) d =
      unless_full (one (u32 (cg + i) % sb.cg_count) d) (groups_from one cg (suc i) n)

  unfoldable pub allocate_inode_in_group : ℕ → ℕ → M S ℕ
  allocate_inode_in_group cg mode =
      groups_from (λ g. allocate_inode_one_group g mode) cg 0 sb.cg_count

  unfoldable pub free_inode_in_group : ℕ → ℕ → M S (Unit {0})
  free_inode_in_group inode_no mode = do
    let cg = inode_no / sb.inodes_per_group
    let local_ino = inode_no % sb.inodes_per_group
    buf ← read_group cg
    guard (bit buf cg_iused_off local_ino) einval
    write_group cg (release_inode buf local_ino (is_directory mode) env.now) (record {
      d_ndir = if is_directory mode then neg32 1 else 0;
      d_nbfree = 0;
      d_nifree = 1;
      d_nffree = 0;
    })

  -- the live totals, read from the superblock on disk
  unfoldable pub reserve_available : ℕ → M S (Unit {0})
  reserve_available needed =
      let check = read_exact env img 12 (img.slice_base + 8192 + 0xc4) >>= λ totals.
      let available = u64 (read_be32 totals 0 * sb.frags_per_block + read_be32 totals 8) in
      let reserve = sb.data_frag_count * sb.minfree / 100 in
      guard (not (ltb available reserve || ltb (available - reserve) needed)) enospc in
      if not img.unprivileged then pure tt else if ltb 99 sb.minfree then fail einval else check
