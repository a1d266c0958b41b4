-- ===== src/File.antt =====
-- Reading a file's data, from src/core/image.c: resolve_indirect_block_frag,
-- resolve_file_block_frag and nextufs_inode_read_data.
pub mod Data
pub mod Steady
pub mod Resolve
pub mod Symlink
use nextufs.Base.{
  ℕ, zero, suc, ◌+◌, ◌-◌, ◌*◌, ◌/◌, ◌%◌, ◌^◌, Bool, Bytes, zeros, splice, Result, ok, err, ltb, leb,
  ◌==◌, if◌then◌else◌, u64, eio, einval,
}
use nextufs.Disk.{Image, Env, M, is_err, pure, fail, ◌>>=◌, ◌>>◌, read_exact}
use nextufs.Geometry.{image_validate}
use nextufs.Inode.{Inode}
use nextufs.Alloc.Runs.{frag_offset}
use nextufs.Alloc.Indirect.{attempt, entries_per_block, read_indirect_entry}

module _ {S : Type 0} (env : Env S) (img : Image) where
  open img.sb use {block_size, frag_size, frag_count}

  -- any failure to read an entry becomes EIO
  unfoldable pub or_eio : Result ℕ → M S ℕ
  or_eio (ok next) = pure next
  or_eio (err _) = fail eio

  unfoldable pub read_entry : ℕ → ℕ → M S ℕ
  unfolding or_eio
  read_entry block_frag entry = attempt (read_indirect_entry env img block_frag entry) >>= or_eio

  -- the first argument is the level less one, as in the resolver of the allocator
  unfoldable pub resolve_indirect_block_frag : ℕ → ℕ → ℕ → M S ℕ
  resolve_indirect_block_frag zero block_frag logical_index =
      if entries_per_block env img == 0
      then fail einval
      else if block_frag == 0
      then pure 0
      else read_entry block_frag logical_index
  resolve_indirect_block_frag (suc above) block_frag logical_index =
      let span = u64 (entries_per_block env img ^ suc above) in
      if entries_per_block env img == 0
      then fail einval
      else if block_frag == 0
      then pure 0
      else (read_entry block_frag (logical_index / span) >>= λ next_frag.
          (if next_frag == 0
            then pure 0
            else resolve_indirect_block_frag above next_frag (logical_index % span)))

  unfoldable pub resolve_frag_from : Inode → ℕ → ℕ → ℕ → ℕ → M S ℕ
  resolve_frag_from ino slot index span zero = fail einval
  resolve_frag_from ino slot index span (suc n) =
      if ltb index span
      then resolve_indirect_block_frag slot (ino.ib slot) index
      else resolve_frag_from ino (suc slot) (index - span) (u64 (span * entries_per_block env img))
          n

  unfoldable pub resolve_file_block_frag : Inode → ℕ → M S ℕ
  unfolding resolve_frag_from
  resolve_file_block_frag ino logical_block_index =
      if ltb logical_block_index 12
      then pure (ino.db logical_block_index)
      else resolve_frag_from ino 0 (logical_block_index - 12) (entries_per_block env img) 3

  -- part of one block: a hole reads as zeros
  unfoldable pub read_chunk : ℕ → ℕ → ℕ → M S Bytes
  read_chunk data_frag block_offset chunk_size =
      if data_frag == 0
      then pure zeros
      else if ltb (frag_count * frag_size) (data_frag * frag_size + block_offset + chunk_size)
      then fail eio
      else read_exact env img chunk_size (u64 (frag_offset env img data_frag + block_offset))

  -- The loop over the blocks. Each turn reads a byte at least, so that one turn more than the
  -- bytes that remain is enough.
  unfoldable pub read_blocks : ℕ → Inode → ℕ → ℕ → ℕ → ℕ → Bytes → M S (Bytes × ℕ)
  unfolding read_chunk
  read_blocks zero ino index block_offset file_remaining finished buf = pure (buf, finished)
  read_blocks (suc fuel) ino index block_offset file_remaining finished buf =
      let room = block_size - block_offset in
      let chunk_size = (if ltb file_remaining room then file_remaining else room) in
      if file_remaining == 0
      then pure (buf, finished)
      else (resolve_file_block_frag ino index >>= λ data_frag.
          read_chunk data_frag block_offset chunk_size >>= λ chunk.
          read_blocks fuel ino (suc index) 0 (file_remaining - chunk_size) (finished + chunk_size)
            (splice buf chunk chunk_size finished))

  -- The bytes read, in a buffer that holds `buf` before, and their number.
  unfoldable pub inode_read_data : Inode → ℕ → Bytes → ℕ → M S (Bytes × ℕ)
  unfolding read_blocks
  inode_read_data ino start buf buf_size =
      let left = ino.size - start in
      let file_remaining = (if ltb buf_size left then buf_size else left) in
      if is_err (image_validate img)
      then fail einval
      else if leb ino.size start
      then pure (buf, 0)
      else read_blocks (suc file_remaining) ino (start / block_size) (start % block_size)
          file_remaining 0 buf
