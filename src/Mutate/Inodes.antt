-- ===== src/Mutate/Inodes.antt =====
-- Inodes that gain and lose links: the static functions of src/mutate/mutate.c below its operations on
-- paths. The node that loses a link is the number `inode_no` and the inode of the Op.
use Prim.Native.Nat.{bit_and}
use nextufs.Base.{
  ℕ, zero, suc, ◌+◌, ◌-◌, ◌^◌, Bool, true, false, not, ◌&&◌, [], ◌∷◌, zeros, Result, ok, err, ◌==◌,
  if◌then◌else◌, u16, u32, einval, enotempty,
}
use nextufs.Disk.{Image, Env}
use nextufs.Inode.{Inode}
use nextufs.Inode.Io.{write_inode_raw}
use nextufs.Alloc.Groups.{ifmt, free_inode_in_group}
use nextufs.Alloc.OnInode.{Op, done, stop, ◌>>=◌, ◌>>◌, on_disk, inode, store_inode}
use nextufs.Alloc.Storage.{free_file_storage}
use nextufs.Path.{Text, root_inode}
use nextufs.Mutate.Directory.{node_get_by_inode}
use nextufs.Mutate.Removal.{read_directory_parent_inode}

-- an inode of zeros with the next generation
abbrev pub cleared : Inode → Inode
cleared ino = record {
  mode = 0;
  nlink = 0;
  uid = 0;
  gid = 0;
  size = 0;
  atime = 0;
  mtime = 0;
  ctime = 0;
  db = zeros;
  ib = zeros;
  flags = 0;
  blocks = 0;
  gen = u32 (ino.gen + 1);
}

-- FIFOs, devices and sockets have no blocks
abbrev pub has_storage : ℕ → Bool
has_storage mode =
    let kind = bit_and mode ifmt in
    not (kind == 0o010000)
    && not (kind == 0o020000)
    && not (kind == 0o060000)
    && not (kind == 0o140000)

module _ {S : Type 0} (env : Env S) (img : Image) where
  -- the inode goes back to its group
  unfoldable pub release_node : ℕ → Op S (Unit {0})
  release_node inode_no = do
    ino ← inode
    on_disk (write_inode_raw env img inode_no (cleared ino))
    on_disk (free_inode_in_group env img inode_no ino.mode)

  unfoldable pub last_link : ℕ → Op S (Unit {0})
  unfolding release_node
  last_link inode_no = do
    ino ← inode
    if has_storage ino.mode then free_file_storage env img else done tt
    release_node inode_no

  unfoldable pub remove_linked_inode : ℕ → Op S (Unit {0})
  unfolding last_link
  remove_linked_inode inode_no = do
    old ← inode
    if old.nlink == 0 then stop einval else done tt
    store_inode (record old { nlink = old.nlink - 1 })
    ino ← inode
    if ino.nlink == 0 then last_link inode_no else do
      store_inode (record ino { ctime = u32 env.now })
      ino' ← inode
      on_disk (write_inode_raw env img inode_no ino')

  -- The inode of the directory is the state; that of its parent is a result.
  unfoldable pub remove_dir_inode : ℕ → ℕ → Inode → Op S Inode
  unfolding release_node
  remove_dir_inode inode_no parent_no parent = do
    let now = u32 env.now
    let parent' : Inode = record parent {
      nlink = u16 (parent.nlink + 2 ^ 16 - 1);
      ctime = now;
      mtime = now;
    }
    free_file_storage env img
    release_node inode_no
    on_disk (write_inode_raw env img parent_no parent')
    done parent'

  unfoldable pub discard_new_inode : ℕ → Op S (Unit {0})
  unfolding release_node
  discard_new_inode inode_no = do
    free_file_storage env img
    release_node inode_no
    ino ← inode
    store_inode (record ino { db = zeros; ib = zeros; size = 0; blocks = 0 })

  -- The climb from a directory to the root: whether `ancestor` is on the way, or the way is not sound.
  unfoldable pub climb : ℕ → ℕ → ℕ → Op S Bool
  climb ancestor zero inode_no = done true
  climb ancestor (suc depth) inode_no =
      if inode_no == ancestor
      then done true
      else if inode_no == root_inode
      then done false
      else (read_directory_parent_inode env img inode_no >>= λ parent.
          (if parent == inode_no
            then done true
            else (node_get_by_inode env img parent >> climb ancestor depth parent)))

abbrev pub climbed : Result Bool → Bool
climbed (ok b) = b
climbed (err _) = true

module _ {S : Type 0} (env : Env S) (img : Image) where
  -- 1024 levels at most; an error counts as an ancestor
  unfoldable pub directory_has_ancestor : ℕ → ℕ → Op S Bool
  unfolding climb
  directory_has_ancestor inode_no ancestor ino d =
      let r = climb env img ancestor 1024 inode_no ino d in (ok (climbed r.0), ino, r.2)

-- `.` and `..`
abbrev pub is_dot_or_dotdot : Text → Bool
is_dot_or_dotdot (a ∷ []) = a == 46
is_dot_or_dotdot (a ∷ b ∷ []) = a == 46 && b == 46
is_dot_or_dotdot _ = false

unfoldable pub disallow_dot_names : Text → Result (Unit {0})
disallow_dot_names name = if is_dot_or_dotdot name then err einval else ok tt

unfoldable pub disallow_target_dot_names : Text → Result (Unit {0})
disallow_target_dot_names name = if is_dot_or_dotdot name then err enotempty else ok tt
