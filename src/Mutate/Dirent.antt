-- ===== src/Mutate/Dirent.antt =====
-- A new entry in a block of a directory: the inner loop of nextufs__insert_dirent
-- (src/mutate/dir_mutate.c).
use nextufs.Base.{
  ℕ, zero, suc, ◌+◌, ◌-◌, not, ◌&&◌, Option, none, some, Bytes, Result, ok, err, leb, ◌==◌,
  if◌then◌else◌, u16, eio, einval,
}
use nextufs.Codec.{write_be16}
use nextufs.Directory.Entry.{DirentView, Name, dirent_size, read_dirent, write_dirent_raw}

-- any failure becomes EINVAL
unfoldable pub or_einval : Result Bytes → Result (Option Bytes)
or_einval (ok b) = ok (some b)
or_einval (err _) = err einval

abbrev pub used_part : DirentView → ℕ
used_part ent = if ent.ino == 0 then 0 else dirent_size ent.namlen

module _ (name : Name) (new_inode : ℕ) where
  -- an unused entry is taken whole; the slack of one in use becomes an entry of its own
  unfoldable pub place_here : Bytes → ℕ → DirentView → Result (Option Bytes) → Result (Option Bytes)
  unfolding or_einval
  place_here block off ent later =
      let need = dirent_size name.len in
      let used = used_part ent in
      let slack = ent.reclen - used in
      if ent.ino == 0 && leb need ent.reclen
      then or_einval (write_dirent_raw block off new_inode ent.reclen name)
      else if not (ent.ino == 0) && leb need slack
      then or_einval (
          write_dirent_raw (write_be16 block (off + 4) (u16 used)) (off + used) new_inode
            (u16 slack) name)
      else later

  unfoldable pub try_place :
      Bytes → ℕ → Option DirentView → (ℕ → Result (Option Bytes)) → Result (Option Bytes)
  unfolding place_here
  try_place block off none later = err eio
  try_place block off (some ent) later = place_here block off ent (later ent.reclen)

  -- The loop over the entries of a block from `off` on: the block with the new entry, or none when no
  -- entry has room.
  unfoldable pub place_dirent : Bytes → ℕ → ℕ → ℕ → Result (Option Bytes)
  unfolding try_place
  place_dirent block chunk_size zero off = ok none
  place_dirent block chunk_size (suc fuel) off =
      let rest : ℕ → Result (Option Bytes) =
        λ reclen. place_dirent block chunk_size fuel (off + reclen) in
      if leb chunk_size off
      then ok none
      else try_place block off (read_dirent block chunk_size off) rest
