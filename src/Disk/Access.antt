-- ===== src/Disk/Access.antt =====
-- Bounded access to the image, from src/core/layout.c, and the undo log of
-- src/core/transaction.c that every write goes through. Memory for buffers is taken to be there.
-- An off_t is its bit pattern: 2 ^ 63 and above are the negative ones.
use nextufs.Base.{
  ℕ, ◌+◌, ◌-◌, ◌^◌, Bool, true, false, not, ◌||◌, List, [], ◌∷◌, Option, none, some, Bytes, Result,
  ok, err, ltb, leb, ◌==◌, if◌then◌else◌, einval, eio, erofs, euclean,
}
use nextufs.Disk.State.{Undo, Log, Dev, Image, Env, M, pure, fail, ◌>>=◌, ◌>>◌}

-- `offset < 0 || offset > total || size > total - offset`
abbrev pub out_of_range : ℕ → ℕ → ℕ → Bool
out_of_range total size offset =
    leb (2 ^ 63) offset || ltb total offset || ltb (total - offset) size

module _ {S : Type 0} (env : Env S) (img : Image) where
  unfoldable pub read_exact : ℕ → ℕ → M S Bytes
  read_exact size offset d =
      if not img.is_open || out_of_range img.image_size size offset
      then (err einval, d)
      else (env.read d.store size offset, d)

  -- The record that saves the bytes about to be overwritten is written where the file ends. When
  -- that fails, tx->end stays, and what has been written stays behind it.
  unfoldable pub saved : ℕ → ℕ → Log → Bytes → M S (Unit {0})
  saved size offset log before d =
      let u : Undo = record {
        offset = offset;
        size = size;
        before = before;
        after_stray = log.stray;
      } in
      if env.log_room log u
      then (
        ok tt,
        record d { transaction = some (record { records = u ∷ log.records; stray = 0 }) },
      )
      else (
        err eio,
        record d { transaction = some (record log { stray = log.stray + env.log_partial log u }) },
      )

  unfoldable pub record_in : Option Log → ℕ → ℕ → M S (Unit {0})
  record_in none size offset = pure tt
  record_in (some log) size offset =
      if size == 0 then pure tt else (read_exact size offset >>= saved size offset log)

  unfoldable pub transaction_record : ℕ → ℕ → M S (Unit {0})
  unfolding record_in saved read_exact ◌>>=◌
  transaction_record size offset d = record_in d.transaction size offset d

  -- the backend's write, on the store of the state
  unfoldable pub backend_write : Bytes → ℕ → ℕ → M S (Unit {0})
  backend_write b size offset d =
      let w = env.write d.store b size offset in (w.0, record d { store = w.1 })

  unfoldable pub write_exact : Bytes → ℕ → ℕ → M S (Unit {0})
  unfolding transaction_record backend_write ◌>>=◌
  write_exact b size offset =
      if not img.is_open
      then fail einval
      else if not img.writable
      then fail erofs
      else if out_of_range img.image_size size offset
      then fail einval
      else (transaction_record size offset >> backend_write b size offset)

  unfoldable pub image_fsync : M S (Unit {0})
  image_fsync d =
      if not img.is_open
      then (err einval, d)
      else if not img.writable
      then (ok tt, d)
      else let f = env.fsync d.store in (f.0, record d { store = f.1 })

  -- nextufs_image_pread and nextufs_image_pwrite: the same, within the slice.
  unfoldable pub image_pread : ℕ → ℕ → M S Bytes
  image_pread size offset =
      if out_of_range img.slice_size size offset
      then fail einval
      else read_exact size (img.slice_base + offset)

  unfoldable pub image_pwrite : Bytes → ℕ → ℕ → M S (Unit {0})
  image_pwrite b size offset =
      if out_of_range img.slice_size size offset
      then fail einval
      else write_exact b size (img.slice_base + offset)

-- one turn of the loop of transaction_end: the rest runs when this record is written back
abbrev pub unless_failed : {S : Type 0} → Result (Unit {0}) × S → (S → Bool × S) → Bool × S
unless_failed (ok _, s) rest = rest s
unless_failed (err _, s) rest = (true, s)

abbrev pub is_err {ℓ} : {A : Type ℓ} → Result A → Bool
is_err (ok _) = false
is_err (err _) = true

abbrev pub started : {S : Type 0} → Result (Unit {0}) → M S (Unit {0})
started (ok _) d = (ok tt, record d { transaction = some (record { records = []; stray = 0 }) })
started (err e) d = (err e, d)

module _ {S : Type 0} (env : Env S) where
  unfoldable pub transaction_begin : M S (Unit {0})
  transaction_begin = started env.log_opens

  -- The records that transaction_end finds from tx->end backwards: each one lies right before the
  -- one after it, unless there are stray bytes between them, from which it reads on.
  unfoldable pub seen : List Undo → List Undo
  seen [] = []
  seen (u ∷ us) = u ∷ (if u.after_stray == 0 then seen us else env.log_misread us)

  -- The records are written back, newest first. The result says whether that failed.
  unfoldable pub replay : List Undo → S → Bool × S
  replay [] s = (false, s)
  replay (u ∷ us) s =
      if env.log_readable u
      then unless_failed (env.write s u.before u.size u.offset) (replay us)
      else (true, s)

  abbrev pub synced : Bool × S → Bool × S
  synced (failed, s) = let f = env.fsync s in (failed || is_err f.0, f.1)

  abbrev pub closed : Result (Unit {0}) → Bool × S → Result (Unit {0}) × Dev S
  closed status (failed, s) =
      ((if failed then err euclean else status), record { store = s; transaction = none })

  abbrev pub end_with : Result (Unit {0}) → Option Log → M S (Unit {0})
  end_with status none d = (status, d)
  end_with (ok _) (some log) d = (ok tt, record d { transaction = none })
  end_with (err e) (some log) d = closed (err e) (synced (replay (seen log.records) d.store))

  unfoldable pub transaction_end : Result (Unit {0}) → M S (Unit {0})
  transaction_end status d = end_with status d.transaction d
