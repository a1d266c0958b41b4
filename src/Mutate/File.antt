-- ===== src/Mutate/File.antt =====
-- Changing the size and the data of a file, from src/mutate/file_mutate.c. A struct nextufs_node is
-- its number `inode_no` and the inode in memory that an Op holds.
use Prim.Native.Nat.{bit_and}
use nextufs.Base.{
  ℕ, zero, suc, ◌+◌, ◌-◌, ◌*◌, ◌/◌, ◌%◌, ◌^◌, Bool, not, ◌&&◌, ◌||◌, Bytes, zeros, put, shift, ltb,
  leb, ◌==◌, if◌then◌else◌, u32, u64, efbig, einval,
}
use nextufs.Disk.{Image, Env, pure, write_exact}
use nextufs.Inode.Io.{write_inode_raw}
use nextufs.Alloc.Groups.{ifmt}
use nextufs.Alloc.Runs.{frag_offset, free_fragment_run}
use nextufs.Alloc.OnInode.{Op, done, stop, ◌>>=◌, ◌>>◌, on_disk, inode, store_inode}
use nextufs.Alloc.Storage.{set_inode_data_block, resolve_inode_data_block}
use nextufs.Mutate.Blocks.{size_valid, file_frags, room_for, kept_bytes, prune_tree}

abbrev pub ifreg : ℕ
ifreg = 0o100000

abbrev pub is_regular : ℕ → Bool
is_regular mode = bit_and mode ifmt == ifreg

module _ {S : Type 0} (env : Env S) (img : Image) where
  open img.sb use {block_size, frag_size, sectors_per_frag, inodes_per_group}

  unfoldable pub grow_block : ℕ → ℕ → ℕ → ℕ → Op S (Unit {0})
  grow_block inode_no logical old_size new_size = do
    let after = file_frags env img new_size logical
    let cg = inode_no / inodes_per_group
    ino ← inode
    old ← on_disk (resolve_inode_data_block env img ino logical)
    let before = if old == 0 then 0 else file_frags env img old_size logical
    buf ← on_disk (kept_bytes env img old before logical old_size)
    allocated ← on_disk (room_for env img old before after cg)
    on_disk (write_exact env img buf (after * frag_size) (frag_offset env img allocated))
    metadata ← set_inode_data_block env img cg logical allocated
    on_disk (
        if not (old == 0) && not (allocated == old)
        then free_fragment_run env img old before
        else pure tt)
    ino' ← inode
    store_inode (record ino' {
      blocks = u32 (ino'.blocks + u32 (after + 2 ^ 32 - before + metadata) * sectors_per_frag);
    })

  -- set-user-id and set-group-id go when a user changes a file
  abbrev pub mode_kept : ℕ → ℕ
  mode_kept mode =
      if img.unprivileged && is_regular mode then bit_and mode (2 ^ 16 - 1 - 0o6000) else mode

  unfoldable pub finish_inode : ℕ → Op S (Unit {0})
  finish_inode inode_no = do
    ino ← inode
    store_inode (record ino { mode = mode_kept ino.mode; mtime = u32 env.now; ctime = u32 env.now })
    ino' ← inode
    on_disk (write_inode_raw env img inode_no ino')

  unfoldable pub free_tail : ℕ → ℕ → ℕ → Op S (Unit {0})
  free_tail slot before after = do
    ino ← inode
    on_disk (free_fragment_run env img (u32 (ino.db slot + after)) (before - after))
    store_inode (record ino { db = if after == 0 then put ino.db slot 0 else ino.db })

  -- The direct blocks that lose fragments, from slot `i` on, and the fragments released so far.
  unfoldable pub free_directs : ℕ → ℕ → ℕ → ℕ → ℕ → Op S ℕ
  unfolding free_tail
  free_directs old_size size i zero released = done released
  free_directs old_size size i (suc n) released =
      let before = file_frags env img old_size i in
      let after = file_frags env img size i in
      inode >>= λ ino.
      if ino.db i == 0 || leb before after
      then free_directs old_size size (suc i) n released
      else (free_tail i before after
          >> free_directs old_size size (suc i) n (u32 (released + (before - after))))

  -- ib[slot] of the inode
  unfoldable pub prune_slot : ℕ → ℕ → ℕ → ℕ → Op S ℕ
  prune_slot slot base keep released = do
    ino ← inode
    r ← on_disk (prune_tree env img slot base keep released (ino.ib slot))
    store_inode (record ino { ib = put ino.ib slot (r.0) })
    done (r.1)

  unfoldable pub prune_slots : ℕ → ℕ → ℕ → ℕ → ℕ → ℕ → Op S ℕ
  unfolding prune_slot
  prune_slots slot base span keep zero released = done released
  prune_slots slot base span keep (suc n) released =
      prune_slot slot base keep released
      >>= prune_slots (suc slot) (u64 (base + span)) (u64 (span * (block_size / 4))) keep n

  unfoldable pub zero_tail : ℕ → Op S (Unit {0})
  zero_tail size = do
    let logical = u32 (size / block_size)
    let within = size % block_size
    ino ← inode
    frag ← on_disk (resolve_inode_data_block env img ino logical)
    if frag == 0
        then done tt
        else on_disk (
            write_exact env img zeros (file_frags env img size logical * frag_size - within)
              (frag_offset env img frag + within))

  unfoldable pub shrink : ℕ → Op S (Unit {0})
  unfolding free_directs prune_slots zero_tail
  shrink size = do
    old ← inode
    released ← free_directs old.size size 0 12 0
    released' ←
        prune_slots 0 12 (block_size / 4) (u64 (size + block_size - 1) / block_size) 3 released
    ino ← inode
    if ltb ino.blocks (released' * sectors_per_frag) then stop einval else done tt
    store_inode (record ino { blocks = u32 (ino.blocks - released' * sectors_per_frag) })
    if size % block_size == 0 then done tt else zero_tail size

  -- the old last block becomes a full block before it is an inner one
  unfoldable pub grow_old_tail : ℕ → ℕ → Op S (Unit {0})
  unfolding grow_block
  grow_old_tail inode_no size = do
    ino ← inode
    let tail = u32 (ino.size / block_size)
    frag ← on_disk (resolve_inode_data_block env img ino tail)
    if frag == 0 then done tt else grow_block inode_no tail ino.size size

  unfoldable pub grow : ℕ → ℕ → Op S (Unit {0})
  unfolding grow_block grow_old_tail
  grow inode_no size = do
    ino ← inode
    let last = u32 ((size - 1) / block_size)
    if ino.size % block_size == 0 || ino.size / block_size == last
        then done tt
        else grow_old_tail inode_no size
    grow_block inode_no last ino.size size

  unfoldable pub resized : ℕ → ℕ → Op S (Unit {0})
  unfolding grow shrink finish_inode
  resized inode_no size = do
    old ← inode
    if ltb old.size size then grow inode_no size else shrink size
    ino ← inode
    store_inode (record ino { size = size })
    finish_inode inode_no

  unfoldable pub file_resize : ℕ → ℕ → Op S (Unit {0})
  unfolding resized
  file_resize inode_no size = do
    on_disk (size_valid size)
    old ← inode
    if size == old.size then done tt else resized inode_no size

  -- The fragment that a write goes to: a hole is filled first.
  unfoldable pub written_frag : ℕ → ℕ → Op S ℕ
  unfolding grow_block
  written_frag inode_no logical = do
    ino ← inode
    frag ← on_disk (resolve_inode_data_block env img ino logical)
    if not (frag == 0) then done frag else do
      grow_block inode_no logical (u64 (logical * block_size)) ino.size
      ino' ← inode
      on_disk (resolve_inode_data_block env img ino' logical)

  unfoldable pub write_part : ℕ → Bytes → ℕ → ℕ → Op S (Unit {0})
  unfolding written_frag
  write_part inode_no data' bytes offset = do
    frag ← written_frag inode_no (u32 (offset / block_size))
    on_disk (write_exact env img data' bytes (frag_offset env img frag + offset % block_size))

  -- The loop of file_write. `fuel` is above the size, and each turn takes a byte at least.
  unfoldable pub write_blocks : ℕ → ℕ → Bytes → ℕ → ℕ → Op S (Unit {0})
  unfolding write_part
  write_blocks zero inode_no data' size offset = done tt
  write_blocks (suc fuel) inode_no data' size offset =
      let left = block_size - offset % block_size in
      let bytes = (if ltb size left then size else left) in
      if size == 0
      then done tt
      else (write_part inode_no data' bytes offset
          >> write_blocks fuel inode_no (shift data' bytes) (size - bytes) (u64 (offset + bytes)))

  unfoldable pub file_write : ℕ → Bytes → ℕ → ℕ → Op S (Unit {0})
  unfolding file_resize write_blocks finish_inode
  file_write inode_no data' size offset =
      if size == 0
      then done tt
      else if ltb (2 ^ 64 - 1 - size) offset
      then stop efbig
      else (on_disk (size_valid (offset + size)) >> inode >>= λ ino.
          (if ltb ino.size (offset + size) then file_resize inode_no (offset + size) else done tt)
          >> write_blocks (suc size) inode_no data' size offset
          >> finish_inode inode_no)
