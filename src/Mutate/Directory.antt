-- ===== src/Mutate/Directory.antt =====
-- Changing the entries of a directory, from src/mutate/dir_mutate.c. A node is its number `inode_no` and
-- the inode in memory that an Op holds.
use nextufs.Base.{
  ℕ, zero, suc, ◌+◌, ◌-◌, ◌/◌, ◌%◌, Bool, true, false, Option, none, some, Bytes, zeros, Result, ok,
  err, ltb, ◌==◌, if◌then◌else◌, u32, u64, einval, eio, enospc,
}
use nextufs.Disk.{Image, Env, write_exact}
use nextufs.Inode.Io.{inode_read, write_inode_raw}
use nextufs.Alloc.Runs.{frag_offset}
use nextufs.Alloc.OnInode.{Op, done, stop, ◌>>=◌, ◌>>◌, on_disk, inode, store_inode, fails_as}
use nextufs.Alloc.Storage.{resolve_inode_data_block}
use nextufs.Directory.Entry.{Name, dirblksiz, dirent_size, write_dirent_raw}
use nextufs.Directory.Iterate.{directory_block}
use nextufs.Mutate.File.{file_resize}
use nextufs.Mutate.Dirent.{place_dirent}

-- a result that is there already
unfoldable pub given : {S A : Type 0} → Result A → Op S A
given (ok a) = done a
given (err e) = stop e

module _ {S : Type 0} (env : Env S) (img : Image) where
  open img.sb use {block_size}

  -- nextufs_node_get_by_inode: the inode in memory is read again
  unfoldable pub node_get_by_inode : ℕ → Op S (Unit {0})
  node_get_by_inode inode_no = on_disk (inode_read env img inode_no) >>= λ r. store_inode (r.0)

  unfoldable pub update_node_times : ℕ → Op S (Unit {0})
  unfolding node_get_by_inode
  update_node_times inode_no = do
    let now = u32 env.now
    ino ← inode
    store_inode (record ino { mtime = now; ctime = now; atime = now })
    ino' ← inode
    on_disk (write_inode_raw env img inode_no ino')
    node_get_by_inode inode_no

  -- where the new block of 1024 bytes lies
  unfoldable pub grow_directory_by_dirblk : ℕ → Op S ℕ
  grow_directory_by_dirblk inode_no = do
    old ← inode
    if old.size % dirblksiz == 0 then done tt else stop einval
    file_resize env img inode_no (u64 (old.size + dirblksiz))
    ino ← inode
    frag ← on_disk (resolve_inode_data_block env img ino (u32 (old.size / block_size)))
    if frag == 0 then stop eio else done (frag_offset env img frag + old.size % block_size)

  -- the fragment of a block of a directory; without one the caller fails
  unfoldable pub mapped_block : ℕ → ℕ → Op S ℕ
  mapped_block e index = do
    ino ← inode
    frag ← fails_as e (on_disk (resolve_inode_data_block env img ino (u32 index)))
    if frag == 0 then stop e else done frag

  -- the block with its new entry goes to the disk
  unfoldable pub store_placed : ℕ → ℕ → ℕ → Option Bytes → Op S Bool
  unfolding mapped_block update_node_times
  store_placed inode_no index chunk_size none = done false
  store_placed inode_no index chunk_size (some block) = do
    frag ← mapped_block eio index
    fails_as eio (on_disk (write_exact env img block chunk_size (frag_offset env img frag)))
    update_node_times inode_no
    done true

  -- The loop over the blocks: whether one of them took the entry.
  unfoldable pub insert_in_blocks : ℕ → Name → ℕ → ℕ → ℕ → ℕ → Op S Bool
  unfolding store_placed
  insert_in_blocks inode_no name new_inode zero index remaining = done false
  insert_in_blocks inode_no name new_inode (suc fuel) index remaining =
      let chunk_size = (if ltb remaining block_size then remaining else block_size) in
      if remaining == 0
      then done false
      else (inode >>= λ ino. on_disk (directory_block env img ino index chunk_size) >>= λ block.
          given (place_dirent name new_inode block chunk_size (suc chunk_size) 0) >>= λ r.
          store_placed inode_no index chunk_size r >>= λ placed.
          (if placed
            then done true
            else insert_in_blocks inode_no name new_inode fuel (suc index)
                (remaining - chunk_size)))

  unfoldable pub insert_in_new_block : ℕ → Name → ℕ → Op S (Unit {0})
  unfolding grow_directory_by_dirblk given
  insert_in_new_block inode_no name new_inode = do
    if ltb dirblksiz (dirent_size name.len) then stop enospc else done tt
    off ← fails_as enospc (grow_directory_by_dirblk inode_no)
    dirblk ← fails_as einval (given (write_dirent_raw zeros 0 new_inode dirblksiz name))
    fails_as eio (on_disk (write_exact env img dirblk dirblksiz off))

  unfoldable pub insert_dirent : ℕ → Name → ℕ → Op S (Unit {0})
  unfolding insert_in_blocks insert_in_new_block
  insert_dirent inode_no name new_inode = do
    ino ← inode
    placed ← insert_in_blocks inode_no name new_inode (suc ino.size) 0 ino.size
    if placed then done tt else insert_in_new_block inode_no name new_inode
