-- ===== src/Mutate/Unlink.antt =====
-- Removing a file by its path: nextufs_path_unlink of src/mutate/mutate.c. The session around it,
-- nextufs__open_image_rw and finish_mutation, is that the transaction begins and ends.
use nextufs.Base.{ℕ, true, false, some, Result, ok, err, ◌==◌, if◌then◌else◌, einval, enotdir}
use nextufs.Disk.{Image, Env, M, pure, fail, ◌>>=◌, ◌>>◌, image_fsync}
use nextufs.Disk.Recovery.{in_transaction}
use nextufs.Inode.{Inode}
use nextufs.Alloc.Groups.{is_directory}
use nextufs.Alloc.OnInode.{Op}
use nextufs.Access.{
  WriteCtx, require_ctx_ids_fit, require_parent_mutation, check_sticky_parent, require_user_access,
}
use nextufs.Path.{Text, Node, given_m, name_of, node_lookup, path_split}
use nextufs.Mutate.Removal.{remove_dirent}
use nextufs.Mutate.Inodes.{remove_linked_inode, disallow_dot_names}

abbrev pub eisdir : ℕ
eisdir = 21

-- an operation on a node that was looked up
unfoldable pub on_node : {S A : Type 0} → Inode → Op S A → M S A
on_node ino op d = let r = op ino d in (r.0, r.2)

unfoldable pub given_parts : {S : Type 0} → Result (Text × Text) → M S (Text × Text)
given_parts (ok parts) = pure parts
given_parts (err e) = fail e

module _ {S : Type 0} (env : Env S) (img : Image) (ctx : WriteCtx) where
  -- the part between the two lookups and the end
  unfoldable pub unlink_found : Text → Node → Node → M S (Unit {0})
  unfolding on_node
  unlink_found name parent target =
      (if is_directory target.1.mode then fail eisdir else pure tt)
      >> given_m (check_sticky_parent ctx parent.1 target.1)
      >> given_m (require_user_access ctx target.1 2)
      >> on_node parent.1 (remove_dirent env img parent.0 (name_of name))
      >>= λ removed.
          (if removed == target.0 then pure tt else fail einval)
          >> on_node target.1 (remove_linked_inode env img target.0)
          >> image_fsync env img

  -- what runs inside the transaction
  unfoldable pub unlink_body : Text → Text × Text → M S (Unit {0})
  unfolding unlink_found
  unlink_body path (parent_path, name) =
      node_lookup env img true (some ctx) parent_path >>= λ parent.
      (if is_directory parent.1.mode then pure tt else fail enotdir)
      >> given_m (require_parent_mutation ctx parent.1)
      >> node_lookup env img false (some ctx) path
      >>= λ target. unlink_found name parent target

  unfoldable pub path_unlink : Text → M S (Unit {0})
  unfolding given_parts unlink_body
  path_unlink path =
      given_m (require_ctx_ids_fit ctx) >> given_parts (path_split 4096 256 path) >>= λ parts.
      given_m (disallow_dot_names (parts.1)) >> in_transaction env (unlink_body path parts)
