-- ===== src/Disk/Rollback.antt =====
-- The undo log of src/core/transaction.c restores the image: whatever an operation writes through
-- nextufs__write_exact, the records of the log lead back to the bytes before it.
use nextufs.Base.{
  ℕ, ◌≡◌, inl, inr, refl, subst, sym, ◌∙◌, Bool, true, false, List, [], ◌∷◌, Option, none, some,
  arith, Bytes, Result, ok, err, Bool-cases, if◌then◌else◌, splice,
}
use nextufs.Disk.{Undo, Log, Dev, Env, M, and_then, ◌>>=◌, unless_failed, seen, replay}
use nextufs.Disk.Laws.{Stores}

-- The bytes that the log leads back to from `m`.
unfoldable pub unwind : List Undo → Bytes → Bytes
unwind [] m = m
unwind (u ∷ us) m = unwind us (splice m u.before u.size u.offset)

pub unwind_cong :
    (us : List Undo) (m n : Bytes) → ((i : ℕ) → m i ≡ n i) → (i : ℕ) → unwind us m i ≡ unwind us n i
unfolding unwind
unwind_cong [] m n same i = same i
unwind_cong (u ∷ us) m n same i = unwind_cong us _ _ (λ j. ground (arith, same j)) i

unless_failed-ok :
    {S : Type 0} (r : Result (Unit {0}) × S) (rest : S → Bool × S)
    → (unless_failed r rest).0 ≡ false
    → (r.0 ≡ ok tt) × (unless_failed r rest ≡ rest r.1)
unless_failed-ok (ok _, s) rest e = (refl, refl)
unless_failed-ok (err _, s) rest e = cc

-- A record that the file of the log does not take leaves no bytes in it.
pub record NoStray {S : Type 0} (env : Env S) : Type 0 where
  pub nothing_left : (log : Log) (u : Undo) → env.log_room log u ≡ false → env.log_partial log u ≡ 0

module _ {S : Type 0} (env : Env S) (laws : Stores S env) (original : Bytes) where
  abbrev pub held : Dev S → Bytes
  held d = laws.contents d.store

  -- A log is kept, and it leads back to `original`.
  abbrev pub LeadsBack : Option Log → Bytes → Type 0
  LeadsBack none m = ⊥
  LeadsBack (some log) m = (i : ℕ) → unwind (seen env log.records) m i ≡ original i

  -- No bytes of a refused record stand at the end of the log.
  abbrev pub IsClean : Option Log → Type 0
  IsClean none = Unit
  IsClean (some log) = log.stray ≡ 0

  abbrev pub Covered : Dev S → Type 0
  Covered d = LeadsBack d.transaction (held d)

  abbrev pub Intact : Dev S → Type 0
  Intact d = Covered d × IsClean d.transaction

  -- Started where nothing stands behind the last record, an operation keeps the log complete, whatever
  -- it returns.
  abbrev pub Keeps : {A : Type 0} → M S A → Type 0
  Keeps m = (d : Dev S) → Intact d → Covered (m d).1

  -- After an error the log is still complete, but the bytes of a refused record may follow it.
  abbrev pub After : {A : Type 0} → Result A → Dev S → Type 0
  After (ok _) d = Intact d
  After (err _) d = Covered d × (NoStray env → IsClean d.transaction)

  abbrev pub Safe : {A : Type 0} → M S A → Type 0
  Safe m = (d : Dev S) → Intact d → After (m d).0 (m d).1

  pub After-Covered : {A : Type 0} (r : Result A) (d : Dev S) → After r d → Covered d
  After-Covered (ok _) d h = h.0
  After-Covered (err _) d h = h.0

  pub After-Intact : {A : Type 0} (r : Result A) (d : Dev S) → NoStray env → After r d → Intact d
  After-Intact (ok _) d calm h = h
  After-Intact (err _) d calm h = (h.0, h.1 calm)

  pub Intact-After : {A : Type 0} (r : Result A) (d : Dev S) → Intact d → After r d
  Intact-After (ok _) d h = h
  Intact-After (err _) d h = (h.0, λ _. h.1)

  pub Safe-Keeps : {A : Type 0} (m : M S A) → Safe m → Keeps m
  Safe-Keeps m h d c = After-Covered (m d).0 (m d).1 (h d c)

  -- what an operation that changes nothing is
  pub still-Safe : {A : Type 0} (m : M S A) → ((d : Dev S) → (m d).1 ≡ d) → Safe m
  still-Safe m still d h = Intact-After (m d).0 (m d).1 (subst Intact (sym (still d)) h)

  pub >>=-Safe :
      {A B : Type 0} (m : M S A) (f : A → M S B) → Safe m → ((a : A) → Safe (f a)) → Safe (m >>= f)
  unfolding ◌>>=◌
  >>=-Safe {A} m f hm hf d h = after (m d) (hm d h)
    where
      after : (r : Result A × Dev S) → After r.0 r.1 → After (and_then r f).0 (and_then r f).1
      after (ok a, d') h' = hf a d' h'
      after (err e, d') h' = h'

  pub if-Safe : {A : Type 0} (b : Bool) (m n : M S A) → Safe m → Safe n → Safe (if b then m else n)
  if-Safe true m n hm hn = hm
  if-Safe false m n hm hn = hn

  pub if-After :
      {A : Type 0} (b : Bool) (r q : Result A × Dev S)
      → After r.0 r.1
      → After q.0 q.1
      → After (if b then r else q).0 (if b then r else q).1
  if-After true r q hr hq = hr
  if-After false r q hr hq = hq

  pub LeadsBack-cong :
      (t : Option Log) (m n : Bytes) → ((i : ℕ) → n i ≡ m i) → LeadsBack t m → LeadsBack t n
  LeadsBack-cong none m n same h = h
  LeadsBack-cong (some log) m n same h = λ i. unwind_cong (seen env log.records) n m same i ∙ h i

  -- Writing the records back gives the bytes that the log leads back to.
  pub replay-unwind :
      (us : List Undo) (s : S) (i : ℕ)
      → (replay env us s).0 ≡ false
      → laws.contents (replay env us s).1 i ≡ unwind us (laws.contents s) i
  unfolding replay unwind
  replay-unwind [] s i e = refl
  replay-unwind (u ∷ us) s i e = elim (Bool-cases (env.log_readable u)) [
    | inr lost ↦ cc (rw (lost, replay) at e)
    | inl kept ↦ rw kept (
        let w = env.write s u.before u.size u.offset in
        let next = unless_failed-ok w (replay env us) (rw (kept, replay) at e) in
        rw next.1 (
          replay-unwind us w.1 i (rw next.1 at (rw (kept, replay) at e))
          ∙ unwind_cong us (laws.contents w.1) (splice (laws.contents s) u.before u.size u.offset)
              (λ j. ground (
                arith,
                next.0,
                laws.written s u.before u.size u.offset j,
                laws.untouched s u.before u.size u.offset j,
              ))
              i))
  ]
