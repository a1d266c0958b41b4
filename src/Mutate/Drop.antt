-- ===== src/Mutate/Drop.antt =====
-- An entry leaves a block of 1024 bytes of a directory: the inner loop of nextufs__remove_dirent
-- (src/mutate/dir_mutate.c).
use nextufs.Base.{
  ℕ, zero, suc, ◌+◌, ◌-◌, Bool, not, ◌&&◌, ◌||◌, Option, none, some, Bytes, shift, Result, ok, err,
  ltb, leb, ◌==◌, if◌then◌else◌, u16, eio, einval,
}
use nextufs.Codec.{write_be16, write_be32}
use nextufs.Directory.Entry.{DirentView, Name, dirblksiz, same_bytes, read_dirent}

-- what the loop leaves: the block and the inode number removed, or none when it goes on
abbrev pub Dropped : Type 0
Dropped = Result (Option (Bytes × ℕ))

-- `.` and `..`
abbrev pub dot : ℕ
dot = 46

unfoldable pub is_dot : DirentView → Bool
is_dot ent = ent.namlen == 1 && ent.name 0 == dot

unfoldable pub is_dotdot : DirentView → Bool
is_dotdot ent = ent.namlen == 2 && ent.name 0 == dot && ent.name 1 == dot

unfoldable pub has_name : Name → DirentView → Bool
has_name name ent =
    not (ent.ino == 0) && ent.namlen == name.len && same_bytes ent.name name.chars name.len

-- the entry before takes the room of the removed one
unfoldable pub merge_into : Bytes → ℕ → DirentView → Option DirentView → Dropped
merge_into block at ent none = err einval
merge_into block at ent (some prev) =
    ok (some (write_be16 block (at + 4) (u16 (prev.reclen + ent.reclen)), ent.ino))

module _ (name : Name) (block : Bytes) (base size : ℕ) where
  -- `prev` is the last entry in use before this one
  unfoldable pub unlink_entry : ℕ → DirentView → Option ℕ → Dropped
  unfolding merge_into
  unlink_entry off ent none = ok (some (write_be32 block (base + off) 0, ent.ino))
  unlink_entry off ent (some prev) =
      merge_into block (base + prev) ent (read_dirent (shift block base) size prev)

  unfoldable pub drop_here : ℕ → DirentView → Option ℕ → Dropped → Dropped
  unfolding is_dot is_dotdot has_name unlink_entry
  drop_here off ent prev later =
      if not (has_name name ent)
      then later
      else if is_dot ent || is_dotdot ent
      then err einval
      else unlink_entry off ent prev

  unfoldable pub try_drop : ℕ → Option DirentView → Option ℕ → (ℕ → Option ℕ → Dropped) → Dropped
  unfolding drop_here
  try_drop off none prev later = err eio
  try_drop off (some ent) prev later =
      drop_here off ent prev (later ent.reclen (if ent.ino == 0 then prev else some off))

  -- The loop over the entries of the block of `size` bytes at `base`, from `off` on.
  unfoldable pub drop_dirent : ℕ → ℕ → Option ℕ → Dropped
  unfolding try_drop
  drop_dirent zero off prev = ok none
  drop_dirent (suc fuel) off prev =
      let rest : ℕ → Option ℕ → Dropped = λ reclen prev'. drop_dirent fuel (off + reclen) prev' in
      if leb size off
      then ok none
      else try_drop off (read_dirent (shift block base) size off) prev rest

-- The loop over the blocks of 1024 bytes of a chunk.
unfoldable pub drop_in_chunk : Name → Bytes → ℕ → ℕ → ℕ → Dropped
unfolding drop_dirent
drop_in_chunk name block chunk_size zero base = ok none
drop_in_chunk name block chunk_size (suc fuel) base =
    let left = chunk_size - base in
    let size = (if ltb dirblksiz left then dirblksiz else left) in
    let rest = drop_in_chunk name block chunk_size fuel (base + dirblksiz) in
    if leb chunk_size base
    then ok none
    else elim (drop_dirent name block base size (suc size) 0 none) [
      | err e ↦ err e
      | ok (some r) ↦ ok (some r)
      | ok none ↦ rest
    ]
