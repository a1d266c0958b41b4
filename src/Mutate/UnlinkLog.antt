-- ===== src/Mutate/UnlinkLog.antt =====
-- nextufs_path_unlink (src/mutate/mutate.c) is all or nothing.
use nextufs.Base.{ℕ, ◌≡◌, ◌≢◌, Bool, Bytes, Option, Result, ok, err, euclean}
use nextufs.Disk.{Dev, Image, Env, image_fsync}
use nextufs.Disk.Laws.{Stores}
use nextufs.Disk.Rollback.{Safe-Keeps}
use nextufs.Disk.Writes.{image_fsync-Safe}
use nextufs.Disk.Recovery.{in_transaction, in_transaction-restores}
use nextufs.Disk.Logged.{Logged, still-Logged, logged_rules}
use nextufs.Inode.{Inode}
use nextufs.Alloc.OnInode.{Op}
use nextufs.Alloc.Rollback.{free_inode_in_group-Logged}
use nextufs.Alloc.StorageLog.{free_file_storage-LoggedOp}
use nextufs.Alloc.OpLogged.{LoggedOp, op_rules}
use nextufs.Access.{WriteCtx}
use nextufs.Path.{Text, Node, given_m, node_lookup}
use nextufs.Path.Still.{node_lookup-still}
use nextufs.Mutate.FileLog.{write_inode_raw-Logged}
use nextufs.Mutate.DirectoryLog.{remove_dirent-LoggedOp}
use nextufs.Mutate.Inodes.{release_node, last_link, remove_linked_inode}
use nextufs.Mutate.Unlink.{on_node, unlink_found, unlink_body}

module _ {S : Type 0} {env : Env S} {laws : Stores S env} {original : Bytes} where
  given_m-Logged : (r : Result (Unit {0})) → Logged env laws original (given_m r)
  unfolding given_m
  given_m-Logged (ok _) = search logged_rules
  given_m-Logged (err e) = search logged_rules

  on_node-Logged :
      {A : Type 0} (ino : Inode) (op : Op S A)
      → LoggedOp env laws original op
      → Logged env laws original (on_node ino op)
  unfolding on_node
  on_node-Logged ino op h = record { keeps = λ d c. h.keeps ino d c }

  module _ (img : Image) where
    image_fsync-Logged : Logged env laws original (image_fsync env img)
    image_fsync-Logged = record { keeps = image_fsync-Safe env laws original img }

    node_lookup-Logged :
        (follow : Bool) (ctx : Option WriteCtx) (path : Text)
        → Logged env laws original (node_lookup env img follow ctx path)
    node_lookup-Logged follow ctx path =
        still-Logged _ (node_lookup-still env laws img follow ctx path)

    release_node-LoggedOp :
        (inode_no : ℕ) → LoggedOp env laws original (release_node env img inode_no)
    unfolding release_node
    release_node-LoggedOp inode_no =
        search (op_rules, write_inode_raw-Logged, free_inode_in_group-Logged) depth 12

    last_link-LoggedOp : (inode_no : ℕ) → LoggedOp env laws original (last_link env img inode_no)
    unfolding last_link
    last_link-LoggedOp inode_no =
        search (op_rules, free_file_storage-LoggedOp, release_node-LoggedOp) depth 12

    remove_linked-LoggedOp :
        (inode_no : ℕ) → LoggedOp env laws original (remove_linked_inode env img inode_no)
    unfolding remove_linked_inode
    remove_linked-LoggedOp inode_no =
        search (op_rules, last_link-LoggedOp, write_inode_raw-Logged) depth 16

    unlink_found-Logged :
        (ctx : WriteCtx) (name : Text) (parent target : Node)
        → Logged env laws original (unlink_found env img ctx name parent target)
    unfolding unlink_found
    unlink_found-Logged ctx name parent target =
        search
          (
            logged_rules, given_m-Logged, on_node-Logged, remove_dirent-LoggedOp,
            remove_linked-LoggedOp, image_fsync-Logged,
          )
          depth 16

    unlink_body-Logged :
        (ctx : WriteCtx) (path : Text) (parts : Text × Text)
        → Logged env laws original (unlink_body env img ctx path parts)
    unfolding unlink_body
    unlink_body-Logged ctx path (parent_path, name) =
        search (logged_rules, given_m-Logged, node_lookup-Logged, unlink_found-Logged) depth 16

module _ {S : Type 0} (env : Env S) (laws : Stores S env) (d : Dev S) (e i : ℕ) where
  -- When the removal of a file by its path, with its lookups and checks, the removal of the name and of
  -- the inode, and the sync, fails in its transaction with its own error, not EUCLEAN, every byte of the
  -- image is as it was.
  pub unlink_body-restores :
      (img : Image) (ctx : WriteCtx) (path parent_path name : Text)
      → e ≢ euclean
      → (in_transaction env (unlink_body env img ctx path (parent_path, name)) d).0 ≡ err e
      → laws.contents
          (in_transaction env (unlink_body env img ctx path (parent_path, name)) d).1.store
          i
        ≡ laws.contents d.store i
  unlink_body-restores img ctx path parent_path name ne h =
      in_transaction-restores env laws (unlink_body env img ctx path (parent_path, name)) d e i
        (λ original.
          Safe-Keeps env laws original (unlink_body env img ctx path (parent_path, name))
            (unlink_body-Logged {laws = laws} {original = original} img ctx path
              (parent_path, name)).keeps)
        ne h
