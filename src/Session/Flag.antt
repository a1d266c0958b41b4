-- ===== src/Session/Flag.antt =====
-- What the clean flag says on disk (src/core/image.c).
use nextufs.Base.{
  ℕ, ◌+◌, ◌≡◌, refl, ap, sym, ◌∙◌, Bool, true, false, not, ◌||◌, arith, Bytes, Result, ok, err,
  ◌==◌, if◌then◌else◌,
}
use nextufs.Disk.{Dev, Image, Env, and_then-cases, ◌>>=◌, write_exact, image_fsync}
use nextufs.Disk.Laws.{Stores}
use nextufs.Disk.Effects.{write_exact-splice}
use nextufs.Session.{
  state_offset, store_state, begun, write_begin, finished, after_sync, write_finish,
}

-- the byte at `at` was 1 and is 1 again
restored :
    (m : Bytes) (at' at i x y : ℕ)
    → m at ≡ 1
    → at' ≡ at
    → x ≡ (if i == at then y else m i)
    → (if i == at' then 1 else x) ≡ m i
restored m at' at i x y one e h = ground arith

when_clean : {A : Type 0} (b : Bool) (x y : A) → b ≡ true → (if not true || not b then x else y) ≡ y
when_clean true x y h = refl
when_clean false x y h = absurd (ground arith)

module _ {S : Type 0} (env : Env S) (laws : Stores S env) where
  image_fsync-contents :
      (img : Image) (d : Dev S) (i : ℕ)
      → laws.contents (image_fsync env img d).1.store i ≡ laws.contents d.store i
  unfolding image_fsync
  image_fsync-contents img d i = ground (arith, laws.sync_keeps d.store i)

  -- the flag goes to its byte, and no other byte changes
  store_state-contents :
      (img : Image) (state : ℕ) (d : Dev S)
      → (store_state env img state d).0 ≡ ok tt
      → (i : ℕ)
      → laws.contents (store_state env img state d).1.store i
        ≡ (if i == state_offset img then state else laws.contents d.store i)
  unfolding store_state ◌>>=◌
  store_state-contents img state d h i =
      and_then-cases
        (λ r.
          r.0 ≡ ok tt
          → laws.contents r.1.store i
            ≡ (if i == state_offset img then state else laws.contents d.store i))
        (write_exact env img (λ _. state) 1 (state_offset img) d) (λ _. image_fsync env img)
        (λ _ wrote _.
          image_fsync-contents img (write_exact env img (λ _. state) 1 (state_offset img) d).1 i
          ∙ write_exact-splice env laws img (λ _. state) 1 (state_offset img) d wrote i
          ∙ ground arith)
        (λ e _ failed. cc) h

  begun-ok :
      (original state : ℕ) (img : Image) (r : Result (Unit {0}) × Dev S)
      → (begun env original state img r).0 ≡ ok tt
      → (r.0 ≡ ok tt)
        × ((begun env original state img r).2 ≡ r.1)
        × ((begun env original state img r).1.restore_clean ≡ img.restore_clean)
        × ((begun env original state img r).1.slice_base ≡ img.slice_base)
  begun-ok original state img (ok _, d) h = (refl, refl, refl, refl)
  begun-ok original state img (err e, d) h = absurd (ground arith)

  finished-ok :
      (img : Image) (r : Result (Unit {0}) × Dev S)
      → (finished env img r).0 ≡ ok tt
      → (r.0 ≡ ok tt) × ((finished env img r).2 ≡ r.1)
  finished-ok img (ok _, d) h = (refl, refl)
  finished-ok img (err e, d) h = absurd (ground arith)

  after_sync-ok :
      (img : Image) (r : Result (Unit {0}) × Dev S)
      → (after_sync env img r).0 ≡ ok tt
      → after_sync env img r ≡ finished env img (store_state env img 1 r.1)
  after_sync-ok img (ok _, d) h = refl
  after_sync-ok img (err e, d) h = absurd (ground arith)

  -- When a session begins the volume is marked on disk as not clean, 2 if it was clean and 3 if not,
  -- and no other byte changes.
  pub write_begin-contents :
      (img : Image) (d : Dev S)
      → (write_begin env img d).0 ≡ ok tt
      → (i : ℕ)
      → laws.contents (write_begin env img d).2.store i ≡ (
          if i == state_offset img
          then (if img.sb.state == 1 then 2 else 3)
          else laws.contents d.store i)
  unfolding write_begin
  write_begin-contents img d h i =
      let state = (if img.sb.state == 1 then 2 else 3) in
      let img' : Image = record img { restore_clean = img.sb.state == 1 } in
      let went = begun-ok img.sb.state state img' (store_state env img' state d) h in
      ap (λ d'. laws.contents d'.store i) went.1 ∙ store_state-contents img' state d went.0 i

  write_begin-image :
      (img : Image) (d : Dev S)
      → (write_begin env img d).0 ≡ ok tt
      → ((write_begin env img d).1.restore_clean ≡ (img.sb.state == 1))
        × ((write_begin env img d).1.slice_base ≡ img.slice_base)
  unfolding write_begin
  write_begin-image img d h =
      let state = (if img.sb.state == 1 then 2 else 3) in
      let img' : Image = record img { restore_clean = img.sb.state == 1 } in
      let went = begun-ok img.sb.state state img' (store_state env img' state d) h in
      (went.2, went.3)

  -- A session that went well on a volume that was clean when it began marks the volume as clean, and
  -- no other byte changes.
  pub write_finish-contents :
      (img : Image) (d : Dev S)
      → img.restore_clean ≡ true
      → (write_finish env img true d).0 ≡ ok tt
      → (i : ℕ)
      → laws.contents (write_finish env img true d).2.store i
        ≡ (if i == state_offset img then 1 else laws.contents d.store i)
  unfolding write_finish
  write_finish-contents img d clean h i =
      let synced = image_fsync env img d in
      let whole = when_clean img.restore_clean (ok tt, img, d) (after_sync env img synced) clean in
      let h' : (after_sync env img synced).0 ≡ ok tt = ap (λ r. r.0) (sym whole) ∙ h in
      let e = after_sync-ok img synced h' in
      let went = finished-ok img (store_state env img 1 synced.1) (ap (λ r. r.0) (sym e) ∙ h') in
      ap (λ r. laws.contents r.2.store i) (whole ∙ e)
      ∙ ap (λ d'. laws.contents d'.store i) went.1
      ∙ store_state-contents img 1 synced.1 went.0 i
      ∙ ap (λ x. if i == state_offset img then 1 else x) (image_fsync-contents img d i)

  -- A session on a volume that is clean in memory and on disk, which begins and finishes well and
  -- writes nothing between, leaves every byte of the image as it was.
  pub write_finish-write_begin :
      (img : Image) (d : Dev S)
      → img.sb.state ≡ 1
      → laws.contents d.store (state_offset img) ≡ 1
      → (write_begin env img d).0 ≡ ok tt
      → (write_finish env (write_begin env img d).1 true (write_begin env img d).2).0 ≡ ok tt
      → (i : ℕ)
      → laws.contents
          (write_finish env (write_begin env img d).1 true (write_begin env img d).2).2.store
          i
        ≡ laws.contents d.store i
  write_finish-write_begin img d state byte begins finishes i =
      let b = write_begin env img d in
      let same = write_begin-image img d begins in
      let first = write_begin-contents img d begins i in
      let last = write_finish-contents b.1 b.2 (same.0 ∙ ap (λ x. x == 1) state) finishes i in
      last
      ∙ restored (laws.contents d.store) (state_offset b.1) (state_offset img) i _ _ byte
          (ap (λ x. x + 0x2000 + 0xd1) same.1) first
