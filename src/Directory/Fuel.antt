-- ===== src/Directory/Fuel.antt =====
-- The loop of src/core/directory.c over the entries of a block ends: each entry moves it on by eight
-- bytes at least.
use nextufs.Base.{
  ℕ, zero, suc, ◌+◌, ◌≤◌, ◌<◌, ◌≡◌, ◌≢◌, ◌⊎◌, inl, inr, refl, arith, false, not, ◌&&◌, Option, none,
  some, Bytes, Result, ok, err, leb, ◌==◌, eio, Bool-cases,
}
use nextufs.Disk.{Dev, M, pure, fail, and_then, ◌>>=◌}
use nextufs.Directory.Entry.{DirentView, read_dirent}
use nextufs.Directory.Bounds.{read_dirent-within}
use nextufs.Directory.Iterate.{Callback, unless_stopped, visit, walk_entries}

-- The loop, started at `off` with the context `c` in the state `d`, ends with a result and a state.
-- There is no fuel, and a loop that does not end has no derivation.
pub data Runs {S C : Type 0} (cb : Callback S C) (buf : Bytes) (size : ℕ)
    : ℕ → C → Dev S → Result (ℕ × C) × Dev S → Type 0 where
  at_end : {off : ℕ} {c : C} {d : Dev S} → size ≤ off → Runs cb buf size off c d (ok (0, c), d)
  broken :
      {off : ℕ} {c : C} {d : Dev S}
      → off < size
      → read_dirent buf size off ≡ none
      → Runs cb buf size off c d (err eio, d)
  unused :
      {off : ℕ} {c : C} {d : Dev S} {r : Result (ℕ × C) × Dev S} (ent : DirentView)
      → off < size
      → read_dirent buf size off ≡ some ent
      → (ent.ino ≡ 0) ⊎ (ent.namlen ≡ 0)
      → Runs cb buf size (off + ent.reclen) c d r
      → Runs cb buf size off c d r
  failed :
      {off e : ℕ} {c : C} {d d' : Dev S} (ent : DirentView)
      → off < size
      → read_dirent buf size off ≡ some ent
      → (ent.ino ≢ 0) × (ent.namlen ≢ 0)
      → cb c ent d ≡ (err e, d')
      → Runs cb buf size off c d (err e, d')
  stopped :
      {off rc : ℕ} {c c' : C} {d d' : Dev S} (ent : DirentView)
      → off < size
      → read_dirent buf size off ≡ some ent
      → (ent.ino ≢ 0) × (ent.namlen ≢ 0)
      → cb c ent d ≡ (ok (rc, c'), d')
      → rc ≢ 0
      → Runs cb buf size off c d (ok (rc, c'), d')
  went_on :
      {off : ℕ} {c c' : C} {d d' : Dev S} {r : Result (ℕ × C) × Dev S} (ent : DirentView)
      → off < size
      → read_dirent buf size off ≡ some ent
      → (ent.ino ≢ 0) × (ent.namlen ≢ 0)
      → cb c ent d ≡ (ok (0, c'), d')
      → Runs cb buf size (off + ent.reclen) c' d' r
      → Runs cb buf size off c d r

module _ {S C : Type 0} (cb : Callback S C) (buf : Bytes) (size : ℕ) where
  called-Runs :
      (off : ℕ) (c : C) (d : Dev S) (ent : DirentView) (rest : C → M S (ℕ × C))
      (q : Result (ℕ × C) × Dev S)
      → off < size
      → read_dirent buf size off ≡ some ent
      → (ent.ino ≢ 0) × (ent.namlen ≢ 0)
      → ((c' : C) (d' : Dev S) → Runs cb buf size (off + ent.reclen) c' d' (rest c' d'))
      → cb c ent d ≡ q
      → Runs cb buf size off c d (and_then q (λ r. unless_stopped r rest))
  unfolding pure
  called-Runs off c d ent rest (err e, d') inside h used later got = failed ent inside h used got
  called-Runs off c d ent rest (ok (zero, c'), d') inside h used later got =
      went_on ent inside h used got (later c' d')
  called-Runs off c d ent rest (ok (suc n, c'), d') inside h used later got =
      rw nonzero (stopped ent inside h used got (omega arith))
    where
      nonzero : (suc n == 0) ≡ false
      nonzero = ground arith

  visit-Runs :
      (off : ℕ) (c : C) (d : Dev S) (r : Option DirentView) (rest : ℕ → C → M S (ℕ × C))
      → off < size
      → read_dirent buf size off ≡ r
      → ((reclen : ℕ) (c' : C) (d' : Dev S)
          → 8 ≤ reclen
          → Runs cb buf size (off + reclen) c' d' (rest reclen c' d'))
      → Runs cb buf size off c d (visit cb r rest c d)
  unfolding visit fail ◌>>=◌
  visit-Runs off c d none rest inside h later = broken inside h
  visit-Runs off c d (some ent) rest inside h later =
      elim (Bool-cases (not (ent.ino == 0) && not (ent.namlen == 0))) [
        | inl used ↦ rw used (
            called-Runs off c d ent (rest ent.reclen) (cb c ent d) inside h
              (ground arith, ground arith) next refl)
        | inr not_used ↦ rw not_used (unused ent inside h (free not_used) (next c d))
      ]
    where
      next :
          (c' : C) (d' : Dev S) → Runs cb buf size (off + ent.reclen) c' d' (rest ent.reclen c' d')
      next c' d' = later ent.reclen c' d' (read_dirent-within buf size off ent h).0

      free :
          (not (ent.ino == 0) && not (ent.namlen == 0)) ≡ false → (ent.ino ≡ 0) ⊎ (ent.namlen ≡ 0)
      free e = elim (Bool-cases (ent.ino == 0)) [
        | inl z ↦ inl (ground arith)
        | inr nz ↦ inr (ground arith)
      ]

  -- With fuel above the bytes that are left, the loop over the entries of a block ends as the loop
  -- without fuel does, with the same result and state, whatever the block holds and the callback does.
  pub walk_entries-Runs :
      (fuel off : ℕ) (c : C) (d : Dev S)
      → size < off + fuel
      → Runs cb buf size off c d (walk_entries cb buf size fuel off c d)
  unfolding walk_entries pure
  walk_entries-Runs zero off c d enough = at_end (omega arith)
  walk_entries-Runs (suc fuel) off c d enough = elim (Bool-cases (leb size off)) [
    | inl past ↦ rw past (at_end (ground arith))
    | inr inside ↦ rw inside (
        visit-Runs off c d (read_dirent buf size off)
          (λ reclen. walk_entries cb buf size fuel (off + reclen)) (ground arith) refl
          (λ reclen c' d' least. walk_entries-Runs fuel (off + reclen) c' d' (omega arith)))
  ]
