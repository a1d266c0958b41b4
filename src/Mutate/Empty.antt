-- ===== src/Mutate/Empty.antt =====
-- Whether a directory is empty: nextufs__directory_is_empty of src/mutate/dir_mutate.c.
use nextufs.Base.{
  ℕ, zero, suc, ◌+◌, ◌-◌, Bool, true, false, not, ◌&&◌, Option, none, some, Bytes, Result, ok, err,
  ltb, leb, ◌==◌, if◌then◌else◌,
}
use nextufs.Disk.{Image, Env, M, pure, ◌>>=◌}
use nextufs.Inode.{Inode}
use nextufs.Alloc.Groups.{is_directory}
use nextufs.Alloc.Indirect.{attempt}
use nextufs.Directory.Entry.{DirentView, read_dirent}
use nextufs.Directory.Iterate.{directory_block}
use nextufs.Mutate.Drop.{is_dot, is_dotdot}

-- What the loop of directory_is_empty has seen; none when the directory is not empty.
abbrev pub Seen : Type 0
Seen = Option (Bool × Bool)

unfoldable pub seen_entry : ℕ → ℕ → Bool × Bool → DirentView → Seen
seen_entry inode_no parent_ino (dot, dotdot) ent =
    if ent.ino == 0
    then some (dot, dotdot)
    else if is_dot ent
    then (if ent.ino == inode_no then some (true, dotdot) else none)
    else if is_dotdot ent
    then (if ent.ino == parent_ino then some (dot, true) else none)
    else none

unfoldable pub seen_next : ℕ → ℕ → Bool × Bool → Option DirentView → (ℕ → Bool × Bool → Seen) → Seen
unfolding seen_entry
seen_next inode_no parent_ino seen none rest = none
seen_next inode_no parent_ino seen (some ent) rest =
    elim (seen_entry inode_no parent_ino seen ent) [
      | none ↦ none
      | some seen' ↦ rest ent.reclen seen'
    ]

unfoldable pub seen_in_block : ℕ → ℕ → Bytes → ℕ → ℕ → ℕ → Bool × Bool → Seen
unfolding seen_next
seen_in_block inode_no parent_ino block size zero off seen = some seen
seen_in_block inode_no parent_ino block size (suc fuel) off seen =
    let rest : ℕ → Bool × Bool → Seen =
      λ reclen seen'. seen_in_block inode_no parent_ino block size fuel (off + reclen) seen' in
    if leb size off
    then some seen
    else seen_next inode_no parent_ino seen (read_dirent block size off) rest

unfoldable pub seen_in_result : ℕ → ℕ → Result Bytes → ℕ → Bool × Bool → Seen
unfolding seen_in_block
seen_in_result inode_no parent_ino (ok block) size seen =
    seen_in_block inode_no parent_ino block size (suc size) 0 seen
seen_in_result inode_no parent_ino (err _) size seen = none

unfoldable pub or_not_empty : {S : Type 0} → Seen → (Bool × Bool → M S Bool) → M S Bool
or_not_empty none rest = pure false
or_not_empty (some seen) rest = rest seen

module _ {S : Type 0} (env : Env S) (img : Image) where
  open img.sb use {block_size}

  unfoldable pub seen_in_blocks : ℕ → ℕ → Inode → ℕ → ℕ → ℕ → Bool × Bool → M S Bool
  unfolding seen_in_result or_not_empty
  seen_in_blocks inode_no parent_ino ino zero index remaining seen = pure (seen.0 && seen.1)
  seen_in_blocks inode_no parent_ino ino (suc fuel) index remaining seen =
      let chunk_size = (if ltb remaining block_size then remaining else block_size) in
      if remaining == 0
      then pure (seen.0 && seen.1)
      else (attempt (directory_block env img ino index chunk_size) >>= λ block.
          or_not_empty (seen_in_result inode_no parent_ino block chunk_size seen)
            (seen_in_blocks inode_no parent_ino ino fuel (suc index) (remaining - chunk_size)))

  unfoldable pub directory_is_empty : ℕ → Inode → ℕ → M S Bool
  unfolding seen_in_blocks
  directory_is_empty inode_no ino parent_ino =
      if not (is_directory ino.mode)
      then pure false
      else seen_in_blocks inode_no parent_ino ino (suc ino.size) 0 ino.size (false, false)
