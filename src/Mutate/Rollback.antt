-- ===== src/Mutate/Rollback.antt =====
-- src/mutate/file_mutate.c and src/mutate/dir_mutate.c in a transaction: all or nothing.
use nextufs.Base.{ℕ, ◌≡◌, ◌≢◌, Bytes, err, euclean}
use nextufs.Disk.{Dev, Image, Env}
use nextufs.Disk.Laws.{Stores}
use nextufs.Disk.Rollback.{NoStray}
use nextufs.Disk.Recovery.{in_transaction}
use nextufs.Inode.{Inode}
use nextufs.Alloc.Atomic.{outcome_on, outcome_on-restores}
use nextufs.Mutate.File.{file_resize, file_write}
use nextufs.Directory.Entry.{Name}
use nextufs.Mutate.Directory.{insert_dirent}
use nextufs.Mutate.Removal.{remove_dirent}
use nextufs.Mutate.DirectoryLog.{insert_dirent-LoggedOp, remove_dirent-LoggedOp}
use nextufs.Mutate.FileLog.{file_resize-LoggedOp, file_write-LoggedOp}

module _ {S : Type 0} (env : Env S) (laws : Stores S env) (d : Dev S) (e i : ℕ) where
  -- Where a record that the file of the log refuses leaves no bytes in it, in a transaction
  -- a change of the size of a file, longer or shorter, that fails with its own error,
  -- not EUCLEAN, leaves every byte of the image as it was.
  pub file_resize-restores :
      (img : Image) (ino : Inode) (inode_no size : ℕ)
      → NoStray env
      → e ≢ euclean
      → (in_transaction env (outcome_on (file_resize env img inode_no size) ino) d).0 ≡ err e
      → laws.contents
          (in_transaction env (outcome_on (file_resize env img inode_no size) ino) d).1.store
          i
        ≡ laws.contents d.store i
  file_resize-restores img ino inode_no size calm ne h =
      outcome_on-restores env laws d e i _ ino
        (λ original. file_resize-LoggedOp img calm inode_no size) ne h

  -- Where a record that the file of the log refuses leaves no bytes in it, in a transaction
  -- a write into a file, past its end or over holes too, that fails with its own error,
  -- not EUCLEAN, leaves every byte of the image as it was.
  pub file_write-restores :
      (img : Image) (ino : Inode) (inode_no : ℕ) (data' : Bytes) (size offset : ℕ)
      → NoStray env
      → e ≢ euclean
      → (in_transaction env (outcome_on (file_write env img inode_no data' size offset) ino) d).0
        ≡ err e
      → laws.contents
          (in_transaction env
            (outcome_on (file_write env img inode_no data' size offset) ino)
            d).1.store
          i
        ≡ laws.contents d.store i
  file_write-restores img ino inode_no data' size offset calm ne h =
      outcome_on-restores env laws d e i _ ino
        (λ original. file_write-LoggedOp img calm inode_no data' size offset) ne h

  -- Where a record that the file of the log refuses leaves no bytes in it, in a transaction
  -- an insertion of a name into a directory, into a new block too, that fails with its own error,
  -- not EUCLEAN, leaves every byte of the image as it was.
  pub insert_dirent-restores :
      (img : Image) (ino : Inode) (inode_no : ℕ) (name : Name) (new_inode : ℕ)
      → NoStray env
      → e ≢ euclean
      → (in_transaction env (outcome_on (insert_dirent env img inode_no name new_inode) ino) d).0
        ≡ err e
      → laws.contents
          (in_transaction env
            (outcome_on (insert_dirent env img inode_no name new_inode) ino)
            d).1.store
          i
        ≡ laws.contents d.store i
  insert_dirent-restores img ino inode_no name new_inode calm ne h =
      outcome_on-restores env laws d e i _ ino
        (λ original. insert_dirent-LoggedOp img calm inode_no name new_inode) ne h

  -- In a transaction a removal of a name from a directory that fails with its own error,
  -- not EUCLEAN, leaves every byte of the image as it was.
  pub remove_dirent-restores :
      (img : Image) (ino : Inode) (inode_no : ℕ) (name : Name)
      → e ≢ euclean
      → (in_transaction env (outcome_on (remove_dirent env img inode_no name) ino) d).0 ≡ err e
      → laws.contents
          (in_transaction env (outcome_on (remove_dirent env img inode_no name) ino) d).1.store
          i
        ≡ laws.contents d.store i
  remove_dirent-restores img ino inode_no name ne h =
      outcome_on-restores env laws d e i _ ino
        (λ original. remove_dirent-LoggedOp img inode_no name) ne h
