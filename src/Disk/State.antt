-- ===== src/Disk/State.antt =====
-- What an operation on an image works on. The store behind the backend and the undo log are the
-- state; the other fields of struct nextufs_image (include/nextufs_image.h) stay fixed during an
-- operation and are the record `Image`. An operation is a function of the state that returns its
-- result and the new state, on errors too.
use nextufs.Base.{ℕ, ◌≡◌, refl, Bool, List, Option, Bytes, Result, ok, err}
use nextufs.Superblock.{Superblock}

-- struct undo_record with the bytes saved before it in the log. `after_stray` counts the bytes that
-- stand in the file between this record and the one before it.
pub record Undo : Type 0 where
  pub offset : ℕ
  pub size : ℕ
  pub before : Bytes
  pub after_stray : ℕ

-- struct nextufs_transaction with the contents of its file: the records up to tx->end, newest first,
-- and the number of bytes behind tx->end, which a record leaves that is not written in full.
pub record Log : Type 0 where
  pub records : List Undo
  pub stray : ℕ

-- `transaction` is img->transaction: the log, or none.
pub record Dev (S : Type 0) : Type 0 where
  pub store : S
  pub transaction : Option Log

pub record Image : Type 0 where
  pub is_open : Bool
  pub writable : Bool
  pub unprivileged : Bool
  pub restore_clean : Bool
  pub fs_write_active : Bool
  pub image_size : ℕ
  pub slice_base : ℕ
  pub slice_size : ℕ
  pub sb : Superblock

-- struct nextufs_image_backend_ops, and what the operating system supplies: the clock, and
-- whether the temporary file of the undo log can be made, takes a record whole (`log_room`) and
-- gives it back. `log_partial` is the number of bytes that a record leaves in the file which fwrite
-- does not write in full or after which ftello fails, and `log_misread` what is read as records
-- from the bytes so left when transaction_end takes their end for the end of a record.
pub record Env (S : Type 0) : Type 0 where
  pub read : S → ℕ → ℕ → Result Bytes
  pub write : S → Bytes → ℕ → ℕ → Result (Unit {0}) × S
  pub fsync : S → Result (Unit {0}) × S
  pub now : ℕ
  pub log_opens : Result (Unit {0})
  pub log_room : Log → Undo → Bool
  pub log_partial : Log → Undo → ℕ
  pub log_misread : List Undo → List Undo
  pub log_readable : Undo → Bool

abbrev pub M : Type 0 → Type 0 → Type 0
M S A = Dev S → Result A × Dev S

unfoldable pub pure : {S A : Type 0} → A → M S A
pure a d = (ok a, d)

unfoldable pub fail : {S A : Type 0} → ℕ → M S A
fail e d = (err e, d)

abbrev pub and_then : {S A B : Type 0} → Result A × Dev S → (A → M S B) → Result B × Dev S
and_then (ok a, d) f = f a d
and_then (err e, d) f = (err e, d)

infixl 5 ◌>>=◌ ◌>>◌
unfoldable pub ◌>>=◌ : {S A B : Type 0} → M S A → (A → M S B) → M S B
unfolding pure fail
◌>>=◌ m f d = and_then (m d) f

abbrev pub ◌>>◌ : {S B : Type 0} → M S (Unit {0}) → M S B → M S B
m >> k = m >>= λ _. k

-- To prove something of a sequence: on each way out of its first part.
pub and_then-cases {κ} :
    {S A B : Type 0} (P : Result B × Dev S → Type κ) (r : Result A × Dev S) (f : A → M S B)
    → ((a : A) → r.0 ≡ ok a → P (f a r.1))
    → ((e : ℕ) → r.0 ≡ err e → P (err e, r.1))
    → P (and_then r f)
and_then-cases P (ok a, d) f hok herr = hok a refl
and_then-cases P (err e, d) f hok herr = herr e refl
