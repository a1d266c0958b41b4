-- ===== src/Mutate/Removal.antt =====
-- Removing a name from a directory, its first block, and its links to itself and its parent, from
-- src/mutate/dir_mutate.c.
use nextufs.Base.{
  ℕ, zero, suc, ◌-◌, not, ◌||◌, Option, none, some, Bytes, zeros, ltb, ◌==◌, if◌then◌else◌, einval,
  eio, enoent, enotdir,
}
use nextufs.Codec.{write_be32}
use nextufs.Disk.{Image, Env, write_exact}
use nextufs.File.{inode_read_data}
use nextufs.Alloc.Groups.{is_directory}
use nextufs.Alloc.Runs.{frag_offset}
use nextufs.Alloc.OnInode.{Op, done, stop, ◌>>=◌, ◌>>◌, on_disk, inode, fails_as}
use nextufs.Directory.Entry.{
  DirentView, Name, dirblksiz, dirent_size, read_dirent, write_dirent_raw,
}
use nextufs.Directory.Iterate.{directory_block}
use nextufs.Mutate.Drop.{is_dot, is_dotdot, drop_in_chunk}
use nextufs.Mutate.Directory.{given, update_node_times, mapped_block}

abbrev pub dot_name : Name
dot_name = record { chars = λ _. 46; len = 1 }

abbrev pub dotdot_name : Name
dotdot_name = record { chars = λ _. 46; len = 2 }

unfoldable pub or_invalid : {S : Type 0} → Option DirentView → Op S DirentView
or_invalid none = stop einval
or_invalid (some ent) = done ent

module _ {S : Type 0} (env : Env S) (img : Image) where
  open img.sb use {block_size}

  -- the changed block goes to the disk; none goes on
  unfoldable pub store_dropped : ℕ → ℕ → ℕ → Option (Bytes × ℕ) → Op S (Option ℕ)
  store_dropped inode_no frag chunk_size none = done none
  store_dropped inode_no frag chunk_size (some (block, removed)) = do
    fails_as eio (on_disk (write_exact env img block chunk_size (frag_offset env img frag)))
    update_node_times env img inode_no
    done (some removed)

  unfoldable pub or_further : Option ℕ → Op S ℕ → Op S ℕ
  or_further none later = later
  or_further (some removed) later = done removed

  unfoldable pub remove_from_blocks : ℕ → Name → ℕ → ℕ → ℕ → Op S ℕ
  unfolding store_dropped or_further
  remove_from_blocks inode_no name zero index remaining = stop enoent
  remove_from_blocks inode_no name (suc fuel) index remaining =
      let chunk_size = (if ltb remaining block_size then remaining else block_size) in
      if remaining == 0
      then stop enoent
      else (inode >>= λ ino. on_disk (directory_block env img ino index chunk_size) >>= λ block.
          mapped_block env img einval index >>= λ frag.
          given (drop_in_chunk name block chunk_size (suc chunk_size) 0) >>= λ r.
          store_dropped inode_no frag chunk_size r >>= λ removed.
          or_further removed
            (remove_from_blocks inode_no name fuel (suc index) (remaining - chunk_size)))

  -- the inode number removed
  unfoldable pub remove_dirent : ℕ → Name → Op S ℕ
  unfolding remove_from_blocks
  remove_dirent inode_no name =
      inode >>= λ ino. remove_from_blocks inode_no name (suc ino.size) 0 ino.size

  unfoldable pub write_new_directory_block : ℕ → ℕ → ℕ → Op S (Unit {0})
  write_new_directory_block frag_addr self_ino parent_ino = do
    let first = dirent_size 1
    self_entry ← fails_as einval (given (write_dirent_raw zeros 0 self_ino first dot_name))
    dirblk ←
        fails_as einval
          (given (write_dirent_raw self_entry first parent_ino (dirblksiz - first) dotdot_name))
    on_disk (write_exact env img dirblk dirblksiz (frag_offset env img frag_addr))

  unfoldable pub read_directory_parent_inode : ℕ → Op S ℕ
  unfolding or_invalid
  read_directory_parent_inode inode_no = do
    ino ← inode
    if not (is_directory ino.mode) || ltb ino.size dirblksiz then stop enotdir else done tt
    r ← fails_as eio (on_disk (inode_read_data env img ino 0 zeros dirblksiz))
    first ← or_invalid (read_dirent (r.0) dirblksiz 0)
    if not (first.ino == inode_no) || not (is_dot first) then stop einval else done tt
    second ← or_invalid (read_dirent (r.0) dirblksiz first.reclen)
    if not (is_dotdot second) then stop einval else done second.ino

  unfoldable pub update_directory_parent_inode : ℕ → ℕ → Op S (Unit {0})
  unfolding or_invalid
  update_directory_parent_inode inode_no parent_inode = do
    ino ← inode
    if not (is_directory ino.mode) || ltb ino.size dirblksiz || ino.db 0 == 0
        then stop enotdir
        else done tt
    r ← fails_as eio (on_disk (inode_read_data env img ino 0 zeros dirblksiz))
    first ← or_invalid (read_dirent (r.0) dirblksiz 0)
    second ← or_invalid (read_dirent (r.0) dirblksiz first.reclen)
    if not (is_dotdot second) then stop einval else done tt
    on_disk (
        write_exact env img (write_be32 (r.0) first.reclen parent_inode) dirblksiz
          (frag_offset env img (ino.db 0)))
    update_node_times env img inode_no
