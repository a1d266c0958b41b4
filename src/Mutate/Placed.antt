-- ===== src/Mutate/Placed.antt =====
-- What the new entry of nextufs__insert_dirent (src/mutate/dir_mutate.c) does to the entries of its
-- block.
use nextufs.Base.{
  subst, ℕ, suc, ◌+◌, ◌-◌, ◌≤◌, ◌<◌, ◌≡◌, ◌≢◌, refl, sym, ap, ◌∙◌, ◌⊎◌, inl, inr, arith, Bool, true,
  false, not, ◌&&◌, Option, none, some, Bytes, Result, ok, err, leb, ◌==◌, if◌then◌else◌, u16,
}
use nextufs.Codec.{write_be16}
use nextufs.Directory.Entry.{DirentView, Name, dirent_size, read_dirent, write_dirent_raw}
use nextufs.Directory.Bounds.{IsEntry}
use nextufs.Directory.RoundTrip.{IsEntry-read_dirent}
use nextufs.Mutate.Dirent.{or_einval, used_part, place_here, try_place, place_dirent}

or_einval-some : (r : Result Bytes) (b : Bytes) → or_einval r ≡ ok (some b) → r ≡ ok b
unfolding or_einval
or_einval-some (ok a) b h = cc
or_einval-some (err e) b h = absurd cc

module _ (name : Name) (new_inode : ℕ) where
  -- the two ways to take room from an entry
  abbrev pub TakesUnused : Bytes → ℕ → DirentView → Bytes → Type 0
  TakesUnused block off ent block' =
      (ent.ino ≡ 0) × (write_dirent_raw block off new_inode ent.reclen name ≡ ok block')

  abbrev pub TakesSlack : Bytes → ℕ → DirentView → Bytes → Type 0
  TakesSlack block off ent block' =
      let used = dirent_size ent.namlen in
      (ent.ino ≢ 0)
      × (dirent_size name.len ≤ ent.reclen - used)
      × (write_dirent_raw (write_be16 block (off + 4) (u16 used)) (off + used) new_inode
            (u16 (ent.reclen - used)) name
          ≡ ok block')

  three_ways :
      (b c : Bool) (x y z : Result (Option Bytes)) (t : Result (Option Bytes))
      → (if b then x else if c then y else z) ≡ t
      → ((b ≡ true) × (x ≡ t)) ⊎ (((c ≡ true) × (y ≡ t)) ⊎ (z ≡ t))
  three_ways true c x y z t h = inl (refl, h)
  three_ways false true x y z t h = inr (inl (refl, h))
  three_ways false false x y z t h = inr (inr h)

  unused_test : (n m : ℕ) (b : Bool) → (n == 0 && b) ≡ true → n ≡ 0
  unused_test n m true h = ground arith
  unused_test n m false h = absurd (ground arith)

  used_test : (n a b : ℕ) → (not (n == 0) && leb a b) ≡ true → (n ≢ 0) × (a ≤ b)
  used_test n a b h = ground arith

  used_part-used : (ent : DirentView) → ent.ino ≢ 0 → used_part ent ≡ dirent_size ent.namlen
  used_part-used ent used = ground arith

  pub place_here-cases :
      (block : Bytes) (off : ℕ) (ent : DirentView) (later : Result (Option Bytes)) (block' : Bytes)
      → place_here name new_inode block off ent later ≡ ok (some block')
      → TakesUnused block off ent block'
        ⊎ (TakesSlack block off ent block' ⊎ (later ≡ ok (some block')))
  unfolding place_here
  place_here-cases block off ent later block' h =
      elim (three_ways (ent.ino == 0 && leb (dirent_size name.len) ent.reclen)
        (not (ent.ino == 0) && leb (dirent_size name.len) (ent.reclen - used_part ent)) _ _ _ _ h) [
          | inl a ↦ inl (unused_test ent.ino 0 _ a.0, or_einval-some _ block' a.1)
          | inr (inl a) ↦
              let t = used_test ent.ino (dirent_size name.len) (ent.reclen - used_part ent) a.0 in
              let e = used_part-used ent t.0 in
              inr (
                inl (
                  t.0,
                  subst (λ u. dirent_size name.len ≤ ent.reclen - u) e t.1,
                  subst
                      (λ u.
                        write_dirent_raw (write_be16 block (off + 4) (u16 u)) (off + u) new_inode
                          (u16 (ent.reclen - u)) name
                        ≡ ok block')
                      e (or_einval-some _ block' a.1),
                ))
          | inr (inr a) ↦ inr (inr a)
        ]

  pub place_dirent-end :
      (block : Bytes) (size fuel off : ℕ)
      → size ≤ off
      → place_dirent name new_inode block size (suc fuel) off ≡ ok none
  unfolding place_dirent
  place_dirent-end block size fuel off past = ground arith

  pub place_dirent-step :
      (block : Bytes) (size fuel off : ℕ) (ent : DirentView)
      → off < size
      → IsEntry block size off ent
      → place_dirent name new_inode block size (suc fuel) off
        ≡ place_here name new_inode block off ent
            (place_dirent name new_inode block size fuel (off + ent.reclen))
  unfolding place_dirent try_place
  place_dirent-step block size fuel off ent inside is = rw (not_end, read_here) refl
    where
      not_end : leb size off ≡ false
      not_end = ground arith

      read_here : read_dirent block size off ≡ some ent
      read_here = IsEntry-read_dirent block size off ent is ∙ ap (λ x. some x) (sym is.is_here)

  pub place_dirent-no_fuel :
      (block block' : Bytes) (size off : ℕ)
      → place_dirent name new_inode block size 0 off ≡ ok (some block')
      → ⊥
  unfolding place_dirent
  place_dirent-no_fuel block block' size off p = absurd cc
