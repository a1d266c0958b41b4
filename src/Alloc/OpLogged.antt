-- ===== src/Alloc/OpLogged.antt =====
-- The operations that hold an inode in memory (src/core/alloc.c, src/mutate) and keep the undo log
-- complete, as a record that is closed under sequence.
use nextufs.Base.{ℕ, Bool, true, false, Bytes, ok, err, Result, if◌then◌else◌}
use nextufs.Disk.{Dev, Env, M}
use nextufs.Disk.Laws.{Stores}
use nextufs.Disk.Rollback.{IsClean, Covered, Intact, After, After-Intact, NoStray}
use nextufs.Disk.Logged.{Logged}
use nextufs.Inode.{Inode}
use nextufs.Alloc.OnInode.{
  Op, done, stop, continue, ◌>>=◌, on_disk, inode, store_inode, failing, on_error, renamed,
  fails_as,
}

pub record LoggedOp {S A : Type 0} (env : Env S) (laws : Stores S env) (original : Bytes)
    (m : Op S A) : Type 0 where
  pub keeps :
      (ino : Inode) (d : Dev S)
      → Intact env laws original d
      → After env laws original (m ino d).0 (m ino d).2

module _ {S : Type 0} {env : Env S} {laws : Stores S env} {original : Bytes} where
  pub done-LoggedOp : {A : Type 0} (a : A) → LoggedOp env laws original (done a)
  unfolding done
  done-LoggedOp a = record { keeps = λ ino d h. h }

  pub stop-LoggedOp : {A : Type 0} (e : ℕ) → LoggedOp {A = A} env laws original (stop e)
  unfolding stop
  stop-LoggedOp e = record { keeps = λ ino d h. (h.0, λ _. h.1) }

  pub inode-LoggedOp : LoggedOp env laws original inode
  unfolding inode
  inode-LoggedOp = record { keeps = λ ino d h. h }

  pub store_inode-LoggedOp : (new : Inode) → LoggedOp env laws original (store_inode new)
  unfolding store_inode
  store_inode-LoggedOp new = record { keeps = λ ino d h. h }

  pub on_disk-LoggedOp :
      {A : Type 0} (m : M S A) → Logged env laws original m → LoggedOp env laws original (on_disk m)
  unfolding on_disk
  on_disk-LoggedOp m h = record { keeps = λ ino d c. h.keeps d c }

  pub if-LoggedOp :
      {A : Type 0} (b : Bool) (m n : Op S A)
      → LoggedOp env laws original m
      → LoggedOp env laws original n
      → LoggedOp env laws original (if b then m else n)
  if-LoggedOp true m n hm hn = hm
  if-LoggedOp false m n hm hn = hn

  pub bind-LoggedOp :
      {A B : Type 0} (m : Op S A) (f : A → Op S B)
      → LoggedOp env laws original m
      → ((a : A) → LoggedOp env laws original (f a))
      → LoggedOp env laws original (m >>= f)
  unfolding ◌>>=◌
  bind-LoggedOp {A} m f hm hf = record { keeps = λ ino d h. after (m ino d) (hm.keeps ino d h) }
    where
      after :
          (r : Result A × Inode × Dev S)
          → After env laws original r.0 r.2
          → After env laws original (continue r f).0 (continue r f).2
      after (ok a, ino, d) h = (hf a).keeps ino d h
      after (err e, ino, d) h = h

  pub on_error-LoggedOp :
      {A : Type 0} (m : Op S A) (handler : Op S (Unit {0}))
      → NoStray env
      → LoggedOp env laws original m
      → LoggedOp env laws original handler
      → LoggedOp env laws original (on_error m handler)
  unfolding on_error
  on_error-LoggedOp {A} m handler calm hm hh = record {
    keeps = λ ino d h. after (m ino d) (hm.keeps ino d h);
  }
    where
      after :
          (r : Result A × Inode × Dev S)
          → After env laws original r.0 r.2
          → After env laws original (failing r handler).0 (failing r handler).2
      after (ok a, ino, d) h = h
      after (err e, ino, d) h = handled (handler ino d) (hh.keeps ino d (h.0, h.1 calm))
        where
          handled :
              (q : Result (Unit {0}) × Inode × Dev S)
              → After env laws original q.0 q.2
              → Covered env laws original q.2
                × (NoStray env → IsClean env laws original q.2.transaction)
          handled (r', ino', d') h' =
              let whole = After-Intact env laws original r' d' calm h' in (whole.0, λ _. whole.1)

  pub fails_as-LoggedOp :
      {A : Type 0} (e : ℕ) (m : Op S A)
      → LoggedOp env laws original m
      → LoggedOp env laws original (fails_as e m)
  unfolding fails_as
  fails_as-LoggedOp {A} e m hm = record { keeps = λ ino d h. after (m ino d) (hm.keeps ino d h) }
    where
      after :
          (r : Result A × Inode × Dev S)
          → After env laws original r.0 r.2
          → After env laws original (renamed e r).0 (renamed e r).2
      after (ok a, ino, d) h = h
      after (err _, ino, d) h = h

pub ruleset op_rules = (
  done-LoggedOp, stop-LoggedOp, inode-LoggedOp, store_inode-LoggedOp, on_disk-LoggedOp, if-LoggedOp,
  bind-LoggedOp, on_error-LoggedOp, fails_as-LoggedOp,
)
