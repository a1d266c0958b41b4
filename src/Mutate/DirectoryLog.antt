-- ===== src/Mutate/DirectoryLog.antt =====
-- The undo log through the changes of a directory (src/mutate/dir_mutate.c). Only what makes it longer
-- takes NoStray.
use nextufs.Base.{ℕ, zero, suc, Bytes, true, false, Option, none, some, Result, ok, err}
use nextufs.Disk.{Image, Env}
use nextufs.Disk.Laws.{Stores}
use nextufs.Disk.Rollback.{NoStray}
use nextufs.Disk.Logged.{Logged, still-Logged, logged_rules}
use nextufs.Inode.{Inode}
use nextufs.Alloc.StorageLog.{resolve_inode_data_block-Logged}
use nextufs.Alloc.OpLogged.{
  LoggedOp, op_rules, if-LoggedOp, bind-LoggedOp, done-LoggedOp, stop-LoggedOp, inode-LoggedOp,
  on_disk-LoggedOp,
}
use nextufs.Path.Still.{inode_read-Steady, directory_block-Steady}
use nextufs.Inode.Io.{inode_read}
use nextufs.Directory.Entry.{Name}
use nextufs.Directory.Iterate.{directory_block}
use nextufs.Mutate.FileLog.{write_inode_raw-Logged, file_resize-LoggedOp}
use nextufs.Mutate.Directory.{
  given, node_get_by_inode, update_node_times, grow_directory_by_dirblk, mapped_block, store_placed,
  insert_in_blocks, insert_in_new_block, insert_dirent,
}
use nextufs.Mutate.Removal.{store_dropped, or_further, remove_from_blocks, remove_dirent}

module _ {S : Type 0} {env : Env S} {laws : Stores S env} {original : Bytes} where
  given-LoggedOp : {A : Type 0} (r : Result A) → LoggedOp env laws original (given r)
  unfolding given
  given-LoggedOp (ok a) = search op_rules
  given-LoggedOp (err e) = search op_rules

  module _ (img : Image) where
    directory_block-Logged :
        (ino : Inode) (index size : ℕ)
        → Logged env laws original (directory_block env img ino index size)
    directory_block-Logged ino index size =
        still-Logged _ (directory_block-Steady env laws img ino index size).stays

    inode_read-Logged : (inode_no : ℕ) → Logged env laws original (inode_read env img inode_no)
    inode_read-Logged inode_no = still-Logged _ (inode_read-Steady env laws img inode_no).stays

    node_get_by_inode-LoggedOp :
        (inode_no : ℕ) → LoggedOp env laws original (node_get_by_inode env img inode_no)
    unfolding node_get_by_inode
    node_get_by_inode-LoggedOp inode_no = search (op_rules, inode_read-Logged)

    update_node_times-LoggedOp :
        (inode_no : ℕ) → LoggedOp env laws original (update_node_times env img inode_no)
    unfolding update_node_times
    update_node_times-LoggedOp inode_no =
        search (op_rules, write_inode_raw-Logged, node_get_by_inode-LoggedOp) depth 12

    grow_directory-LoggedOp :
        (calm : NoStray env) (inode_no : ℕ)
        → LoggedOp env laws original (grow_directory_by_dirblk env img inode_no)
    unfolding grow_directory_by_dirblk
    grow_directory-LoggedOp calm inode_no =
        search (op_rules, file_resize-LoggedOp, resolve_inode_data_block-Logged) depth 16

    mapped_block-LoggedOp :
        (e index : ℕ) → LoggedOp env laws original (mapped_block env img e index)
    unfolding mapped_block
    mapped_block-LoggedOp e index = search (op_rules, resolve_inode_data_block-Logged) depth 12

    store_placed-LoggedOp :
        (inode_no index chunk_size : ℕ) (r : Option Bytes)
        → LoggedOp env laws original (store_placed env img inode_no index chunk_size r)
    unfolding store_placed
    store_placed-LoggedOp inode_no index chunk_size none = search op_rules
    store_placed-LoggedOp inode_no index chunk_size (some block) =
        search (op_rules, logged_rules, mapped_block-LoggedOp, update_node_times-LoggedOp) depth 12

    insert_in_blocks-LoggedOp :
        (inode_no : ℕ) (name : Name) (new_inode fuel index remaining : ℕ)
        → LoggedOp env laws original
            (insert_in_blocks env img inode_no name new_inode fuel index remaining)
    unfolding insert_in_blocks
    insert_in_blocks-LoggedOp inode_no name new_inode zero index remaining = search op_rules
    insert_in_blocks-LoggedOp inode_no name new_inode (suc fuel) index remaining =
        if-LoggedOp _ _ _ (done-LoggedOp false) (
          bind-LoggedOp _ _ inode-LoggedOp λ ino.
            bind-LoggedOp _ _ (on_disk-LoggedOp _ (directory_block-Logged ino index _)) λ block.
              bind-LoggedOp _ _ (given-LoggedOp _) λ r.
                bind-LoggedOp _ _ (store_placed-LoggedOp inode_no index _ r) λ placed.
                  if-LoggedOp _ _ _ (done-LoggedOp true)
                    (insert_in_blocks-LoggedOp inode_no name new_inode fuel (suc index) _))

    insert_in_new_block-LoggedOp :
        (calm : NoStray env) (inode_no : ℕ) (name : Name) (new_inode : ℕ)
        → LoggedOp env laws original (insert_in_new_block env img inode_no name new_inode)
    unfolding insert_in_new_block
    insert_in_new_block-LoggedOp calm inode_no name new_inode =
        search (op_rules, logged_rules, grow_directory-LoggedOp, given-LoggedOp) depth 16

    pub insert_dirent-LoggedOp :
        (calm : NoStray env) (inode_no : ℕ) (name : Name) (new_inode : ℕ)
        → LoggedOp env laws original (insert_dirent env img inode_no name new_inode)
    unfolding insert_dirent
    insert_dirent-LoggedOp calm inode_no name new_inode =
        search (op_rules, insert_in_blocks-LoggedOp, insert_in_new_block-LoggedOp) depth 12

    store_dropped-LoggedOp :
        (inode_no frag chunk_size : ℕ) (r : Option (Bytes × ℕ))
        → LoggedOp env laws original (store_dropped env img inode_no frag chunk_size r)
    unfolding store_dropped
    store_dropped-LoggedOp inode_no frag chunk_size none = search op_rules
    store_dropped-LoggedOp inode_no frag chunk_size (some (block, removed)) =
        search (op_rules, logged_rules, update_node_times-LoggedOp) depth 12

    or_further-LoggedOp :
        (r : Option ℕ) (later : _)
        → LoggedOp env laws original later
        → LoggedOp env laws original (or_further env img r later)
    unfolding or_further
    or_further-LoggedOp none later h = h
    or_further-LoggedOp (some removed) later h = search op_rules

    remove_from_blocks-LoggedOp :
        (inode_no : ℕ) (name : Name) (fuel index remaining : ℕ)
        → LoggedOp env laws original (remove_from_blocks env img inode_no name fuel index remaining)
    unfolding remove_from_blocks
    remove_from_blocks-LoggedOp inode_no name zero index remaining = search op_rules
    remove_from_blocks-LoggedOp inode_no name (suc fuel) index remaining =
        if-LoggedOp _ _ _ (stop-LoggedOp _) (
          bind-LoggedOp _ _ inode-LoggedOp λ ino.
            bind-LoggedOp _ _ (on_disk-LoggedOp _ (directory_block-Logged ino index _)) λ block.
              bind-LoggedOp _ _ (mapped_block-LoggedOp _ index) λ frag.
                bind-LoggedOp _ _ (given-LoggedOp _) λ r.
                  bind-LoggedOp _ _ (store_dropped-LoggedOp inode_no frag _ r) λ removed.
                    or_further-LoggedOp removed _
                      (remove_from_blocks-LoggedOp inode_no name fuel (suc index) _))

    pub remove_dirent-LoggedOp :
        (inode_no : ℕ) (name : Name)
        → LoggedOp env laws original (remove_dirent env img inode_no name)
    unfolding remove_dirent
    remove_dirent-LoggedOp inode_no name = search (op_rules, remove_from_blocks-LoggedOp)
