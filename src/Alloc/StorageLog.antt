-- ===== src/Alloc/StorageLog.antt =====
-- The same for the storage of a file (src/core/alloc.c), whose operations change the inode in memory
-- too.
use nextufs.Base.{ℕ, zero, suc, Bytes}
use nextufs.Disk.{Image, Env}
use nextufs.Disk.Laws.{Stores}
use nextufs.Disk.Rollback.{NoStray}
use nextufs.Disk.Logged.{Logged, logged_rules, if-Logged}
use nextufs.Inode.{Inode}
use nextufs.Alloc.Rollback.{allocate_frags_anycg-Logged, free_fragment_run-Logged}
use nextufs.Alloc.Storage.{
  indirect_root, set_in_tree, set_from_slot, set_inode_data_block, resolve_from_slot,
  resolve_inode_data_block, free_block, free_blocks, free_tree, free_mapped, free_file_storage,
  add_block, add_blocks, allocate_data_for_inode,
}
use nextufs.Alloc.IndirectLog.{
  attempt-Logged, allocate_zeroed-Logged, set_indirect-Logged, resolve_indirect-Logged,
  free_metadata-Logged,
}
use nextufs.Alloc.OpLogged.{LoggedOp, op_rules, bind-LoggedOp, if-LoggedOp, done-LoggedOp}

module _ {S : Type 0} {env : Env S} {laws : Stores S env} {original : Bytes} (img : Image) where
  indirect_root-LoggedOp :
      (calm : NoStray env) (preferred slot root : ℕ)
      → LoggedOp env laws original (indirect_root env img preferred slot root)
  unfolding indirect_root
  indirect_root-LoggedOp calm preferred slot root =
      search (op_rules, allocate_zeroed-Logged) depth 9

  set_in_tree-LoggedOp :
      (calm : NoStray env) (preferred slot index frag : ℕ)
      → LoggedOp env laws original (set_in_tree env img preferred slot index frag)
  unfolding set_in_tree
  set_in_tree-LoggedOp calm preferred slot index frag =
      search (op_rules, indirect_root-LoggedOp, set_indirect-Logged) depth 9

  set_from_slot-LoggedOp :
      (calm : NoStray env) (preferred slot index span frag n : ℕ)
      → LoggedOp env laws original (set_from_slot env img preferred slot index span frag n)
  unfolding set_from_slot
  set_from_slot-LoggedOp calm preferred slot index span frag zero = search op_rules
  set_from_slot-LoggedOp calm preferred slot index span frag (suc n) =
      if-LoggedOp _ _ _ (set_in_tree-LoggedOp calm preferred slot index frag)
        (set_from_slot-LoggedOp calm preferred (suc slot) _ _ frag n)

  pub set_inode_data_block-LoggedOp :
      (calm : NoStray env) (preferred block frag : ℕ)
      → LoggedOp env laws original (set_inode_data_block env img preferred block frag)
  unfolding set_inode_data_block
  set_inode_data_block-LoggedOp calm preferred block frag =
      search (op_rules, set_from_slot-LoggedOp) depth 9

  resolve_from_slot-Logged :
      (ino : Inode) (slot index span n : ℕ)
      → Logged env laws original (resolve_from_slot env img ino slot index span n)
  unfolding resolve_from_slot
  resolve_from_slot-Logged ino slot index span zero = search logged_rules
  resolve_from_slot-Logged ino slot index span (suc n) =
      if-Logged _ _ _ (resolve_indirect-Logged img slot _ index)
        (resolve_from_slot-Logged ino (suc slot) _ _ n)

  pub resolve_inode_data_block-Logged :
      (ino : Inode) (block : ℕ)
      → Logged env laws original (resolve_inode_data_block env img ino block)
  unfolding resolve_inode_data_block
  resolve_inode_data_block-Logged ino block = search (logged_rules, resolve_from_slot-Logged)

  free_block-LoggedOp :
      (block frags : ℕ) → LoggedOp env laws original (free_block env img block frags)
  unfolding free_block
  free_block-LoggedOp block frags =
      search (op_rules, logged_rules, resolve_inode_data_block-Logged, free_fragment_run-Logged)
        depth 9

  free_blocks-LoggedOp :
      (fuel block remaining : ℕ)
      → LoggedOp env laws original (free_blocks env img fuel block remaining)
  unfolding free_blocks
  free_blocks-LoggedOp zero block remaining = search op_rules
  free_blocks-LoggedOp (suc fuel) block remaining =
      if-LoggedOp _ _ _
        (bind-LoggedOp _ _ (free_block-LoggedOp block _)
          (λ _. free_blocks-LoggedOp fuel (suc block) _))
        (done-LoggedOp tt)

  free_tree-LoggedOp : (slot : ℕ) → LoggedOp env laws original (free_tree env img slot)
  unfolding free_tree
  free_tree-LoggedOp slot = search (op_rules, free_metadata-Logged) depth 9

  free_mapped-LoggedOp : (ino : Inode) → LoggedOp env laws original (free_mapped env img ino)
  unfolding free_mapped
  free_mapped-LoggedOp ino = search (op_rules, free_blocks-LoggedOp, free_tree-LoggedOp) depth 16

  pub free_file_storage-LoggedOp : LoggedOp env laws original (free_file_storage env img)
  unfolding free_file_storage
  free_file_storage-LoggedOp = search (op_rules, free_mapped-LoggedOp)

  add_block-LoggedOp :
      (calm : NoStray env) (preferred : ℕ) (data' : Bytes) (total block remaining : ℕ)
      → LoggedOp env laws original (add_block env img preferred data' total block remaining)
  unfolding add_block
  add_block-LoggedOp calm preferred data' total block remaining =
      search
        (
          op_rules, logged_rules, allocate_frags_anycg-Logged, set_inode_data_block-LoggedOp,
          attempt-Logged, free_fragment_run-Logged,
        )
        depth 16

  add_blocks-LoggedOp :
      (calm : NoStray env) (fuel preferred : ℕ) (data' : Bytes) (total block remaining : ℕ)
      → LoggedOp env laws original (add_blocks env img fuel preferred data' total block remaining)
  unfolding add_blocks
  add_blocks-LoggedOp calm zero preferred data' total block remaining = search op_rules
  add_blocks-LoggedOp calm (suc fuel) preferred data' total block remaining =
      if-LoggedOp _ _ _
        (bind-LoggedOp _ _ (add_block-LoggedOp calm preferred data' total block remaining)
          (λ total'. add_blocks-LoggedOp calm fuel preferred data' total' (suc block) _))
        (done-LoggedOp total)

  pub allocate_data_for_inode-LoggedOp :
      (calm : NoStray env) (preferred : ℕ) (data' : Bytes) (data_len : ℕ)
      → LoggedOp env laws original (allocate_data_for_inode env img preferred data' data_len)
  unfolding allocate_data_for_inode
  allocate_data_for_inode-LoggedOp calm preferred data' data_len =
      search (op_rules, add_blocks-LoggedOp, free_file_storage-LoggedOp) depth 12
