-- ===== src/Alloc/Storage.antt =====
-- The storage of a file, from src/core/alloc.c: nextufs__set_inode_data_block,
-- nextufs__resolve_inode_data_block, nextufs__free_file_storage and
-- nextufs__allocate_data_for_inode.
use Prim.Native.Nat.{bit_and}
use nextufs.Base.{
  ℕ, zero, suc, ◌+◌, ◌-◌, ◌*◌, ◌/◌, Bool, not, ◌&&◌, Bytes, zeros, put, shift, splice, ltb, leb,
  ◌==◌, if◌then◌else◌, u32, u64, not32, int32_max, efbig,
}
use nextufs.Disk.{Image, Env, M, pure, fail, write_exact}
use nextufs.Inode.{Inode}
use nextufs.Alloc.Groups.{ifmt}
use nextufs.Alloc.Runs.{frag_offset, allocate_frags_anycg, free_fragment_run}
use nextufs.Alloc.Indirect.{
  attempt, entries_per_block, allocate_zeroed_full_block, set_indirect_data_block,
  resolve_indirect_data_block, free_indirect_metadata_tree,
}
use nextufs.Alloc.OnInode.{Op, done, stop, ◌>>=◌, ◌>>◌, on_disk, inode, store_inode, on_error}

abbrev pub iflnk : ℕ
iflnk = 0o120000

abbrev pub ic_fastlink : ℕ
ic_fastlink = 1

module _ {S : Type 0} (env : Env S) (img : Image) where
  open img.sb use {block_size, frag_size, frags_per_block, sectors_per_frag}

  -- the root of an indirect tree, made if there is none, with the fragments that this took
  unfoldable pub indirect_root : ℕ → ℕ → ℕ → Op S (ℕ × ℕ)
  indirect_root preferred_cg slot root_frag =
      let made = on_disk (allocate_zeroed_full_block env img preferred_cg) >>= λ frag.
      inode >>= λ ino.
      store_inode (record ino { ib = put ino.ib slot frag }) >> done (frag, frags_per_block) in
      if root_frag == 0 then made else done (root_frag, 0)

  unfoldable pub set_in_tree : ℕ → ℕ → ℕ → ℕ → Op S ℕ
  unfolding indirect_root
  set_in_tree preferred_cg slot local_index data_frag = do
    ino ← inode
    root ← indirect_root preferred_cg slot (ino.ib slot)
    grown ←
        on_disk
          (set_indirect_data_block env img preferred_cg (suc slot) root.0 local_index data_frag)
    done (root.1 + grown)

  -- the loop over the three indirect slots, with their spans
  unfoldable pub set_from_slot : ℕ → ℕ → ℕ → ℕ → ℕ → ℕ → Op S ℕ
  set_from_slot preferred_cg slot local_index span data_frag zero = stop efbig
  set_from_slot preferred_cg slot local_index span data_frag (suc n) =
      if ltb local_index span
      then set_in_tree preferred_cg slot local_index data_frag
      else set_from_slot preferred_cg (suc slot) (local_index - span)
          (u64 (span * entries_per_block env img)) data_frag n

  -- The result is the growth of *metadata_frags_out.
  unfoldable pub set_inode_data_block : ℕ → ℕ → ℕ → Op S ℕ
  unfolding set_from_slot
  set_inode_data_block preferred_cg logical_block data_frag =
      let direct = inode >>= λ ino.
      store_inode (record ino { db = put ino.db logical_block data_frag }) >> done 0 in
      if ltb logical_block 12
      then direct
      else set_from_slot preferred_cg 0 (logical_block - 12) (entries_per_block env img) data_frag 3

  unfoldable pub resolve_from_slot : Inode → ℕ → ℕ → ℕ → ℕ → M S ℕ
  resolve_from_slot ino slot local_index span zero = fail efbig
  resolve_from_slot ino slot local_index span (suc n) =
      if ltb local_index span
      then resolve_indirect_data_block env img slot (ino.ib slot) local_index
      else resolve_from_slot ino (suc slot) (local_index - span)
          (u64 (span * entries_per_block env img)) n

  unfoldable pub resolve_inode_data_block : Inode → ℕ → M S ℕ
  unfolding resolve_from_slot
  resolve_inode_data_block ino logical_block =
      if ltb logical_block 12
      then pure (ino.db logical_block)
      else resolve_from_slot ino 0 (logical_block - 12) (entries_per_block env img) 3

  -- bytes and fragments of the block at `logical_block` with `remaining` bytes to go
  abbrev pub chunk_bytes : ℕ → ℕ
  chunk_bytes remaining = if ltb block_size remaining then block_size else remaining

  abbrev pub chunk_frags : ℕ → ℕ → ℕ
  chunk_frags logical_block remaining =
      if leb 12 logical_block
      then frags_per_block
      else u32 ((chunk_bytes remaining + frag_size - 1) / frag_size)

  unfoldable pub free_block : ℕ → ℕ → Op S (Unit {0})
  free_block logical_block frags = do
    ino ← inode
    data_frag ← on_disk (resolve_inode_data_block ino logical_block)
    on_disk (if data_frag == 0 then pure tt else free_fragment_run env img data_frag frags)

  -- the loop over the data blocks; fuel above the byte count is enough
  unfoldable pub free_blocks : ℕ → ℕ → ℕ → Op S (Unit {0})
  unfolding free_block
  free_blocks zero logical_block remaining = done tt
  free_blocks (suc fuel) logical_block remaining =
      let rest = free_blocks fuel (suc logical_block) (remaining - chunk_bytes remaining) in
      if ltb 0 remaining
      then (free_block logical_block (chunk_frags logical_block remaining) >> rest)
      else done tt

  unfoldable pub free_tree : ℕ → Op S (Unit {0})
  free_tree slot = do
    ino ← inode
    on_disk (free_indirect_metadata_tree env img slot (ino.ib slot))
    store_inode (record ino { ib = put ino.ib slot 0 })

  abbrev pub is_fastlink : Inode → Bool
  is_fastlink ino = (bit_and ino.mode ifmt == iflnk) && not (bit_and ino.flags ic_fastlink == 0)

  unfoldable pub free_mapped : Inode → Op S (Unit {0})
  unfolding free_blocks free_tree
  free_mapped ino = do
    free_blocks (suc ino.size) 0 ino.size
    ino1 ← inode
    store_inode (record ino1 { db = zeros })
    free_tree 0
    free_tree 1
    free_tree 2
    ino2 ← inode
    store_inode (record ino2 { size = 0; blocks = 0 })

  -- a symbolic link whose target is in the inode has no storage
  unfoldable pub cleared_link : Inode → Inode
  cleared_link ino = record ino {
    db = zeros;
    ib = zeros;
    flags = bit_and ino.flags (not32 ic_fastlink);
    size = 0;
    blocks = 0;
  }

  unfoldable pub free_file_storage : Op S (Unit {0})
  unfolding free_mapped cleared_link
  free_file_storage = do
    ino ← inode
    (if is_fastlink ino then store_inode (cleared_link ino) else free_mapped ino)

  -- One block of new data: a run for it, its entry in the inode, and the bytes, zeros behind them.
  -- The result is the fragments allocated so far.
  unfoldable pub add_block : ℕ → Bytes → ℕ → ℕ → ℕ → Op S ℕ
  add_block preferred_cg data' total logical_block remaining = do
    let chunk = chunk_bytes remaining
    let frags = chunk_frags logical_block remaining
    alloc_frag ← on_disk (allocate_frags_anycg env img preferred_cg frags)
    grown ←
        on_error (set_inode_data_block preferred_cg logical_block alloc_frag)
          (on_disk (attempt (free_fragment_run env img alloc_frag frags)) >>= λ _. done tt)
    let total' = u32 (total + grown + frags)
    ino ← inode
    store_inode (record ino {
      size = logical_block * block_size + chunk;
      blocks = u32 (total' * sectors_per_frag);
    })
    on_disk (
        write_exact env img (splice zeros (shift data' (logical_block * block_size)) chunk 0)
          (frags * frag_size) (frag_offset env img alloc_frag))
    done total'

  unfoldable pub add_blocks : ℕ → ℕ → Bytes → ℕ → ℕ → ℕ → Op S ℕ
  add_blocks zero preferred_cg data' total logical_block remaining = done total
  add_blocks (suc fuel) preferred_cg data' total logical_block remaining =
      let rest = λ (total' : ℕ).
        add_blocks fuel preferred_cg data' total' (suc logical_block)
          (remaining - chunk_bytes remaining) in
      if ltb 0 remaining
      then (add_block preferred_cg data' total logical_block remaining >>= rest)
      else done total

  unfoldable pub allocate_data_for_inode : ℕ → Bytes → ℕ → Op S (Unit {0})
  allocate_data_for_inode preferred_cg data' data_len =
      let filled = add_blocks (suc data_len) preferred_cg data' 0 0 data_len >>= λ total.
      inode >>= λ ino.
      store_inode (record ino { size = data_len; blocks = u32 (total * sectors_per_frag) }) in
      if ltb int32_max data_len then stop efbig else on_error filled free_file_storage
