-- ===== src/Alloc/Atomic.antt =====
-- The operations of src/core/alloc.c between the begin and the end of a transaction
-- (src/core/transaction.c): all or nothing.
use nextufs.Base.{ℕ, ◌≡◌, ◌≢◌, Bytes, Result, ok, err, euclean}
use nextufs.Disk.{Dev, Image, Env, M}
use nextufs.Disk.Laws.{Stores}
use nextufs.Disk.Rollback.{NoStray, After-Covered}
use nextufs.Disk.Logged.{Logged}
use nextufs.Disk.Recovery.{in_transaction, in_transaction-restores}
use nextufs.Inode.{Inode}
use nextufs.Alloc.Groups.{allocate_inode_in_group, free_inode_in_group}
use nextufs.Alloc.Runs.{reallocate_fragment_run}
use nextufs.Alloc.OnInode.{Op}
use nextufs.Alloc.Storage.{free_file_storage, allocate_data_for_inode}
use nextufs.Alloc.Rollback.{
  allocate_inode_in_group-Logged, free_inode_in_group-Logged, reallocate_fragment_run-Logged,
}
use nextufs.Alloc.OpLogged.{LoggedOp}
use nextufs.Alloc.StorageLog.{free_file_storage-LoggedOp, allocate_data_for_inode-LoggedOp}

-- only whether it went well
abbrev pub status : {A : Type 0} → Result A → Result (Unit {0})
status (ok _) = ok tt
status (err e) = err e

abbrev pub outcome : {S A : Type 0} → M S A → M S (Unit {0})
outcome m d = let r = m d in (status r.0, r.1)

-- on an inode that the caller holds
abbrev pub outcome_on : {S A : Type 0} → Op S A → Inode → M S (Unit {0})
outcome_on op ino d = let r = op ino d in (status r.0, r.2)

module _ {S : Type 0} (env : Env S) (laws : Stores S env) (d : Dev S) (e i : ℕ) where
  pub outcome-restores :
      {A : Type 0} (m : M S A)
      → ((original : Bytes) → Logged env laws original m)
      → e ≢ euclean
      → (in_transaction env (outcome m) d).0 ≡ err e
      → laws.contents (in_transaction env (outcome m) d).1.store i ≡ laws.contents d.store i
  outcome-restores m logged ne h =
      in_transaction-restores env laws (outcome m) d e i
        (λ original d' c.
          After-Covered env laws original (m d').0 (m d').1 ((logged original).keeps d' c))
        ne h

  pub outcome_on-restores :
      {A : Type 0} (op : Op S A) (ino : Inode)
      → ((original : Bytes) → LoggedOp env laws original op)
      → e ≢ euclean
      → (in_transaction env (outcome_on op ino) d).0 ≡ err e
      → laws.contents (in_transaction env (outcome_on op ino) d).1.store i ≡ laws.contents d.store i
  outcome_on-restores op ino logged ne h =
      in_transaction-restores env laws (outcome_on op ino) d e i
        (λ original d' c.
          After-Covered env laws original (op ino d').0 (op ino d').2
            ((logged original).keeps ino d' c))
        ne h

  -- Where a record that the file of the log refuses leaves no bytes in it, in a transaction an
  -- allocation of an inode that fails with its own error, not EUCLEAN,
  -- leaves every byte of the image as it was.
  pub allocate_inode_in_group-restores :
      (img : Image) (cg mode : ℕ)
      → NoStray env
      → e ≢ euclean
      → (in_transaction env (outcome (allocate_inode_in_group env img cg mode)) d).0 ≡ err e
      → laws.contents
          (in_transaction env (outcome (allocate_inode_in_group env img cg mode)) d).1.store
          i
        ≡ laws.contents d.store i
  allocate_inode_in_group-restores img cg mode calm ne h =
      outcome-restores _ (λ original. allocate_inode_in_group-Logged img calm cg mode) ne h

  -- In a transaction a release of an inode that fails with its own error, not EUCLEAN,
  -- leaves every byte of the image as it was.
  pub free_inode_in_group-restores :
      (img : Image) (inode_no mode : ℕ)
      → e ≢ euclean
      → (in_transaction env (outcome (free_inode_in_group env img inode_no mode)) d).0 ≡ err e
      → laws.contents
          (in_transaction env (outcome (free_inode_in_group env img inode_no mode)) d).1.store
          i
        ≡ laws.contents d.store i
  free_inode_in_group-restores img inode_no mode ne h =
      outcome-restores _ (λ original. free_inode_in_group-Logged img inode_no mode) ne h

  -- Where a record that the file of the log refuses leaves no bytes in it, in a transaction a move of a run of fragments to a longer run that fails with its own error, not EUCLEAN,
  -- leaves every byte of the image as it was.
  pub reallocate_fragment_run-restores :
      (img : Image) (old_frag old_frags new_frags preferred : ℕ)
      → NoStray env
      → e ≢ euclean
      → (in_transaction env
          (outcome (reallocate_fragment_run env img old_frag old_frags new_frags preferred))
          d).0
        ≡ err e
      → laws.contents
          (in_transaction env
            (outcome (reallocate_fragment_run env img old_frag old_frags new_frags preferred))
            d).1.store
          i
        ≡ laws.contents d.store i
  reallocate_fragment_run-restores img old_frag old_frags new_frags preferred calm ne h =
      outcome-restores _
        (λ original. reallocate_fragment_run-Logged img calm old_frag old_frags new_frags preferred)
        ne h

  -- In a transaction a release of all the blocks of a file that fails with its own error, not EUCLEAN,
  -- leaves every byte of the image as it was.
  pub free_file_storage-restores :
      (img : Image) (ino : Inode)
      → e ≢ euclean
      → (in_transaction env (outcome_on (free_file_storage env img) ino) d).0 ≡ err e
      → laws.contents (in_transaction env (outcome_on (free_file_storage env img) ino) d).1.store i
        ≡ laws.contents d.store i
  free_file_storage-restores img ino ne h =
      outcome_on-restores _ ino (λ original. free_file_storage-LoggedOp img) ne h

  -- Where a record that the file of the log refuses leaves no bytes in it, in a transaction an
  -- allocation of a file's data, with its indirect blocks, that fails with
  -- its own error, not EUCLEAN, leaves every byte of the image as it was.
  pub allocate_data_for_inode-restores :
      (img : Image) (ino : Inode) (preferred : ℕ) (data' : Bytes) (data_len : ℕ)
      → NoStray env
      → e ≢ euclean
      → (in_transaction env
          (outcome_on (allocate_data_for_inode env img preferred data' data_len) ino)
          d).0
        ≡ err e
      → laws.contents
          (in_transaction env
            (outcome_on (allocate_data_for_inode env img preferred data' data_len) ino)
            d).1.store
          i
        ≡ laws.contents d.store i
  allocate_data_for_inode-restores img ino preferred data' data_len calm ne h =
      outcome_on-restores _ ino
        (λ original. allocate_data_for_inode-LoggedOp img calm preferred data' data_len) ne h
