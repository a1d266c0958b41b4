-- ===== src/Directory/Iterate.antt =====
-- Going through a directory: src/core/directory.c.
use nextufs.Base.{
  ℕ, zero, suc, ◌+◌, ◌-◌, ◌*◌, not, ◌&&◌, Option, none, some, Bytes, zeros, Result, ok, err, ltb,
  leb, ◌==◌, if◌then◌else◌, u64, eio,
}
use nextufs.Disk.{Image, Env, M, pure, fail, ◌>>=◌}
use nextufs.Inode.{Inode}
use nextufs.Alloc.Indirect.{attempt}
use nextufs.File.{inode_read_data}
use nextufs.Directory.Entry.{DirentView, Name, same_bytes, read_dirent}

-- any failure becomes EIO
abbrev pub or_fail_eio : {S A : Type 0} → Result A → M S A
or_fail_eio (ok a) = pure a
or_fail_eio (err _) = fail eio

-- A callback with its context `C`: the context after it, and 0 to go on. Another result that is not
-- an error ends the iteration.
abbrev pub Callback : Type 0 → Type 0 → Type 0
Callback S C = C → DirentView → M S (ℕ × C)

module _ {S : Type 0} (env : Env S) (img : Image) where
  -- the block with number `index` of the directory, of which `chunk_size` bytes are read
  unfoldable pub directory_block : Inode → ℕ → ℕ → M S Bytes
  directory_block dirino index chunk_size =
      attempt (inode_read_data env img dirino (u64 (index * img.sb.block_size)) zeros chunk_size)
      >>= or_fail_eio
      >>= λ r. pure (r.0)

module _ {S C : Type 0} where
  abbrev pub unless_stopped : ℕ × C → (C → M S (ℕ × C)) → M S (ℕ × C)
  unless_stopped (rc, c) rest = if rc == 0 then rest c else pure (rc, c)

  -- one entry, and the rest of the block after it
  unfoldable pub visit : Callback S C → Option DirentView → (ℕ → C → M S (ℕ × C)) → C → M S (ℕ × C)
  visit cb none rest c = fail eio
  visit cb (some ent) rest c =
      if not (ent.ino == 0) && not (ent.namlen == 0)
      then (cb c ent >>= λ r. unless_stopped r (rest ent.reclen))
      else rest ent.reclen c

  -- The loop over the entries of a block from `off` on. Each turn moves by eight bytes at least.
  unfoldable pub walk_entries : Callback S C → Bytes → ℕ → ℕ → ℕ → C → M S (ℕ × C)
  unfolding visit
  walk_entries cb buf size zero off c = pure (0, c)
  walk_entries cb buf size (suc fuel) off c =
      if leb size off
      then pure (0, c)
      else visit cb (read_dirent buf size off)
          (λ reclen. walk_entries cb buf size fuel (off + reclen)) c

  module _ (env : Env S) (img : Image) where
    open img.sb use {block_size}

    unfoldable pub iterate_blocks : Callback S C → Inode → ℕ → ℕ → ℕ → C → M S (ℕ × C)
    unfolding walk_entries
    iterate_blocks cb dirino zero index remaining c = pure (0, c)
    iterate_blocks cb dirino (suc fuel) index remaining c =
        let chunk_size = (if ltb remaining block_size then remaining else block_size) in
        if remaining == 0
        then pure (0, c)
        else (directory_block env img dirino index chunk_size >>= λ buf.
            walk_entries cb buf chunk_size (suc chunk_size) 0 c >>= λ r.
            unless_stopped r (iterate_blocks cb dirino fuel (suc index) (remaining - chunk_size)))

    unfoldable pub directory_iterate : Callback S C → Inode → C → M S (ℕ × C)
    unfolding iterate_blocks
    directory_iterate cb dirino = iterate_blocks cb dirino (suc dirino.size) 0 dirino.size

-- The context is the inode number found.
unfoldable pub find_name_cb : {S : Type 0} → Name → Callback S ℕ
find_name_cb target found ent = pure (
    if target.len == ent.namlen && same_bytes ent.name target.chars ent.namlen
    then (1, ent.ino)
    else (0, found))

-- 0 when no entry has the name
unfoldable pub find_name_in_directory : {S : Type 0} → Env S → Image → Inode → Name → M S ℕ
unfolding directory_iterate find_name_cb
find_name_in_directory env img dirino target =
    directory_iterate env img (find_name_cb target) dirino 0 >>= λ r. pure (r.1)
