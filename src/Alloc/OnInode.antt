-- ===== src/Alloc/OnInode.antt =====
-- Operations of src/core/alloc.c that change an inode in memory while they work on the disk. The
-- inode is part of the state, so what they changed before an error is there after it.
use nextufs.Base.{ℕ, Result, ok, err}
use nextufs.Disk.{Dev, M}
use nextufs.Inode.{Inode}

abbrev pub Op : Type 0 → Type 0 → Type 0
Op S A = Inode → Dev S → Result A × Inode × Dev S

unfoldable pub done : {S A : Type 0} → A → Op S A
done a ino d = (ok a, ino, d)

unfoldable pub stop : {S A : Type 0} → ℕ → Op S A
stop e ino d = (err e, ino, d)

abbrev pub continue :
    {S A B : Type 0} → Result A × Inode × Dev S → (A → Op S B) → Result B × Inode × Dev S
continue (ok a, ino, d) f = f a ino d
continue (err e, ino, d) f = (err e, ino, d)

infixl 5 ◌>>=◌ ◌>>◌
unfoldable pub ◌>>=◌ : {S A B : Type 0} → Op S A → (A → Op S B) → Op S B
unfolding done stop
◌>>=◌ m f ino d = continue (m ino d) f

abbrev pub ◌>>◌ : {S B : Type 0} → Op S (Unit {0}) → Op S B → Op S B
m >> k = m >>= λ _. k

-- the disk alone
unfoldable pub on_disk : {S A : Type 0} → M S A → Op S A
on_disk m ino d = let r = m d in (r.0, ino, r.1)

unfoldable pub inode : {S : Type 0} → Op S Inode
inode ino d = (ok ino, ino, d)

unfoldable pub store_inode : {S : Type 0} → Inode → Op S (Unit {0})
store_inode new ino d = (ok tt, new, d)

-- the `goto fail` of a caller: on an error the handler runs and the error is returned
abbrev pub failing :
    {S A : Type 0} → Result A × Inode × Dev S → Op S (Unit {0}) → Result A × Inode × Dev S
failing (ok a, ino, d) handler = (ok a, ino, d)
failing (err e, ino, d) handler = let r = handler ino d in (err e, r.1, r.2)

unfoldable pub on_error : {S A : Type 0} → Op S A → Op S (Unit {0}) → Op S A
on_error m handler ino d = failing (m ino d) handler

-- a caller that returns its own error for any
abbrev pub renamed : {S A : Type 0} → ℕ → Result A × Inode × Dev S → Result A × Inode × Dev S
renamed e (ok a, ino, d) = (ok a, ino, d)
renamed e (err _, ino, d) = (err e, ino, d)

unfoldable pub fails_as : {S A : Type 0} → ℕ → Op S A → Op S A
fails_as e m ino d = renamed e (m ino d)
