-- ===== src/Disk/Writes.antt =====
-- What each access to the image (src/core/layout.c, src/core/transaction.c) does to the undo log.
use nextufs.Base.{
  ℕ, ◌+◌, ◌-◌, ◌<◌, ◌≡◌, inl, inr, refl, ap, ◌∙◌, false, not, Option, none, some, arith, Bytes, ok,
  err, Bool-cases, ◌==◌, within,
}
use nextufs.Disk.{
  Undo, Log, Dev, Image, Env, and_then-cases, out_of_range, pure, fail, ◌>>=◌, ◌>>◌, read_exact,
  saved, record_in, transaction_record, backend_write, write_exact, image_fsync, seen,
}
use nextufs.Disk.Laws.{Stores}
use nextufs.Disk.Rollback.{
  unwind, unwind_cong, held, LeadsBack, IsClean, NoStray, Covered, After, Safe, Intact-After,
  still-Safe, if-Safe, if-After, LeadsBack-cong,
}

module _ {S : Type 0} (env : Env S) (laws : Stores S env) (original : Bytes) (img : Image) where
  read_exact-store : (size offset : ℕ) (d : Dev S) → (read_exact env img size offset d).1 ≡ d
  unfolding read_exact
  read_exact-store size offset d = ground arith

  pub read_exact-Safe : (size offset : ℕ) → Safe env laws original (read_exact env img size offset)
  read_exact-Safe size offset =
      still-Safe env laws original (read_exact env img size offset) (read_exact-store size offset)

  read_exact-held :
      (size offset : ℕ) (d : Dev S) (b : Bytes) (i : ℕ)
      → (read_exact env img size offset d).0 ≡ ok b
      → i < size
      → b i ≡ held env laws original d (offset + i)
  unfolding read_exact
  read_exact-held size offset d b i e lt = ground (arith, laws.read_back d.store size offset b i)

  saved-Intact :
      (size offset : ℕ) (log : Log) (before : Bytes) (d : Dev S) (n : Bytes)
      → LeadsBack env laws original (some log) (held env laws original d)
      → log.stray ≡ 0
      → ((i : ℕ) → i < size → before i ≡ held env laws original d (offset + i))
      → ((i : ℕ) → within offset size i ≡ false → n i ≡ held env laws original d i)
      → (saved env img size offset log before d).0 ≡ ok tt
      → LeadsBack env laws original (saved env img size offset log before d).1.transaction n
        × IsClean env laws original (saved env img size offset log before d).1.transaction
  unfolding saved unwind seen
  saved-Intact size offset log before d n h clean read same e =
      elim (Bool-cases (env.log_room log u)) [
        | inl room ↦
            rw (room, saved)
              (
                rw clean λ i.
                    unwind_cong (seen env log.records) _ _
                      (λ j. ground (arith, same j, read (j - offset))) i
                    ∙ h i,
                refl,
              )
        | inr full ↦ cc (rw (full, saved) at e)
      ]
    where
      u : Undo
      u = record { offset = offset; size = size; before = before; after_stray = log.stray }

  -- With a record in the log, the bytes of its range may change and the log still leads back.
  record_in-Intact :
      (t : Option Log) (size offset : ℕ) (d : Dev S) (n : Bytes)
      → d.transaction ≡ t
      → LeadsBack env laws original t (held env laws original d)
      → IsClean env laws original t
      → ((i : ℕ) → within offset size i ≡ false → n i ≡ held env laws original d i)
      → (record_in env img t size offset d).0 ≡ ok tt
      → LeadsBack env laws original (record_in env img t size offset d).1.transaction n
        × IsClean env laws original (record_in env img t size offset d).1.transaction
  unfolding record_in ◌>>=◌
  record_in-Intact none size offset d n t h clean same e = absurd h
  record_in-Intact (some log) size offset d n t h clean same e = elim (Bool-cases (size == 0)) [
    | inl empty ↦ rw empty (
      rw t λ i. unwind_cong (seen env log.records) _ _ (λ j. same j (ground arith)) i ∙ h i,
      rw t clean,
    )
    | inr some_bytes ↦ rw some_bytes (
        and_then-cases
          (λ r.
            r.0 ≡ ok tt
            → LeadsBack env laws original r.1.transaction n
              × IsClean env laws original r.1.transaction)
          (read_exact env img size offset d) (saved env img size offset log)
          (λ before got. rw (read_exact-store size offset d) (
            saved-Intact size offset log before d n h clean
              (λ i. read_exact-held size offset d before i got) same))
          (λ _ _ failed. cc) (rw (some_bytes, record_in) at e))
  ]

  pub record-store :
      (size offset : ℕ) (d : Dev S) → (transaction_record env img size offset d).1.store ≡ d.store
  unfolding transaction_record record_in saved ◌>>=◌
  record-store size offset d = ground arith

  saved-err :
      (size offset : ℕ) (log : Log) (before : Bytes) (d : Dev S) (e : ℕ)
      → LeadsBack env laws original (some log) (held env laws original d)
      → log.stray ≡ 0
      → (saved env img size offset log before d).0 ≡ err e
      → Covered env laws original (saved env img size offset log before d).1
        × (NoStray env
            → IsClean env laws original (saved env img size offset log before d).1.transaction)
  unfolding saved
  saved-err size offset log before d e h clean failed = elim (Bool-cases (env.log_room log u)) [
    | inl room ↦ cc (rw (room, saved) at failed)
    | inr full ↦
        rw (full, saved)
          (h, λ calm. let nothing = calm.nothing_left log u full in omega (arith, clean, nothing))
  ]
    where
      u : Undo
      u = record { offset = offset; size = size; before = before; after_stray = log.stray }

  -- A record that is not taken leaves the records before it and the image as they were.
  record_in-err :
      (t : Option Log) (size offset : ℕ) (d : Dev S) (e : ℕ)
      → d.transaction ≡ t
      → LeadsBack env laws original t (held env laws original d)
      → IsClean env laws original t
      → (record_in env img t size offset d).0 ≡ err e
      → Covered env laws original (record_in env img t size offset d).1
        × (NoStray env
            → IsClean env laws original (record_in env img t size offset d).1.transaction)
  unfolding record_in ◌>>=◌ pure
  record_in-err none size offset d e t h clean failed = absurd h
  record_in-err (some log) size offset d e t h clean failed = elim (Bool-cases (size == 0)) [
    | inl empty ↦ cc (rw (empty, record_in) at failed)
    | inr some_bytes ↦ rw some_bytes (
        and_then-cases
          (λ r.
            r.0 ≡ err e
            → Covered env laws original r.1
              × (NoStray env → IsClean env laws original r.1.transaction))
          (read_exact env img size offset d) (saved env img size offset log)
          (λ before got.
            rw (read_exact-store size offset d) (saved-err size offset log before d e h clean))
          (λ _ _ _. rw (read_exact-store size offset d) (rw t h, λ _. rw t clean))
          (rw (some_bytes, record_in) at failed))
  ]

  pub write_exact-Safe :
      (b : Bytes) (size offset : ℕ) → Safe env laws original (write_exact env img b size offset)
  unfolding write_exact backend_write transaction_record ◌>>=◌ fail
  write_exact-Safe b size offset =
      if-Safe env laws original (not img.is_open) _ _ (λ _ h. (h.0, λ _. h.1))
        (if-Safe env laws original (not img.writable) _ _ (λ _ h. (h.0, λ _. h.1))
          (if-Safe env laws original (out_of_range img.image_size size offset) _ _
            (λ _ h. (h.0, λ _. h.1)) recorded))
    where
      recorded :
          Safe env laws original
            (transaction_record env img size offset >> backend_write env img b size offset)
      recorded d h =
          and_then-cases (λ r. After env laws original r.0 r.1)
            (transaction_record env img size offset d) _
            (λ _ done. Intact-After env laws original _ _ (
              record_in-Intact d.transaction size offset d _ refl h.0 h.1
                (λ i out.
                  laws.untouched _ b size offset i out
                  ∙ ap (λ t. laws.contents t i) (record-store size offset d))
                done))
            (λ e failed. record_in-err d.transaction size offset d e refl h.0 h.1 failed)

  pub image_fsync-Safe : Safe env laws original (image_fsync env img)
  unfolding image_fsync
  image_fsync-Safe d h =
      if-After env laws original (not img.is_open) _ _ (h.0, λ _. h.1)
        (if-After env laws original (not img.writable) _ _ h (
          Intact-After env laws original _ _ (
            LeadsBack-cong env laws original d.transaction (held env laws original d) _
                (laws.sync_keeps d.store) h.0,
            h.1,
          )))
