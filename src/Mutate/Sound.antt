-- ===== src/Mutate/Sound.antt =====
-- The insertion loop of nextufs__insert_dirent (src/mutate/dir_mutate.c) does not fail on a sound block.
use nextufs.Base.{
  ℕ, zero, suc, ◌+◌, ◌-◌, ◌%◌, ◌≤◌, ◌≡◌, ◌≢◌, refl, sym, ◌∙◌, arith, Bool, true, false, not, ◌&&◌,
  ◌||◌, List, Option, none, some, Bytes, Result, ok, err, leb, ltb, ◌==◌, if◌then◌else◌, u16,
}
use native.Mathlib.Decide.{dec_lt}
use nextufs.Directory.Entry.{
  DirentView, Name, slash, has_byte, dirent_size, refused_entry, write_dirent_raw,
}
use nextufs.Directory.Bounds.{IsEntry, IsEntry-name, bad_name-false}
use nextufs.Directory.Listing.{Link, listing, listing-Step}
use nextufs.Mutate.Dirent.{or_einval, used_part, place_here, place_dirent}
use nextufs.Mutate.Insertion.{dirent_size-aligned}
use nextufs.Mutate.Placed.{place_dirent-end, place_dirent-step}

no_error_if :
    {A : Type 0} (b : Bool) (x y : Result A) (e : ℕ)
    → (b ≡ true → x ≢ err e)
    → (b ≡ false → y ≢ err e)
    → (if b then x else y) ≢ err e
no_error_if true x y e hx hy = hx refl
no_error_if false x y e hx hy = hy refl

none_not_err : (e : ℕ) → ◌≢◌ {A = Result (Option Bytes)} (ok none) (err e)
none_not_err e h = absurd cc

module _ (name : Name) (new_inode : ℕ) (short : name.len ≤ 255)
    (no_slash : has_byte name.chars slash name.len ≡ false) where
  -- an aligned place that is long enough is taken
  write_dirent_raw-fits :
      (b : Bytes) (p reclen e : ℕ)
      → dirent_size name.len ≤ reclen
      → reclen ≤ 1024
      → reclen % 4 ≡ 0
      → or_einval (write_dirent_raw b p new_inode reclen name) ≢ err e
  unfolding write_dirent_raw refused_entry or_einval
  write_dirent_raw-fits b p reclen e room most aligned =
      rw (short_test, no_slash, reclen_test) (λ h. absurd cc)
    where
      short_test : ltb 255 name.len ≡ false
      short_test = ground arith

      reclen_test :
          (ltb 1024 reclen || not (reclen % 4 == 0) || ltb reclen (dirent_size name.len)) ≡ false
      reclen_test = ground arith

  no_fuel_no_error :
      (block : Bytes) (size off e : ℕ) → place_dirent name new_inode block size 0 off ≢ err e
  unfolding place_dirent
  no_fuel_no_error block size off e h = absurd cc

  slack_facts :
      (block : Bytes) (size off : ℕ) (ent : DirentView)
      → IsEntry block size off ent
      → (not (ent.ino == 0) && leb (dirent_size name.len) (ent.reclen - used_part ent)) ≡ true
      → let slack = u16 (ent.reclen - used_part ent) in
        (dirent_size name.len ≤ slack) × (slack ≤ 1024) × (slack % 4 ≡ 0)
  slack_facts block size off ent is h =
      let used = used_test ent.ino _ h in
      let n = IsEntry-name block size off ent is used in
      let g = bad_name-false ent n.0 in
      let e = used_size ent used in
      let room = room_test ent.ino _ _ h in
      let in_block = is.reclen_in_block in
      let aligned = dirent_size-aligned ent.namlen in
      let whole = is.reclen_aligned in (omega (arith, room), omega arith, omega (arith, e, g.2))
    where
      used_test : (k : ℕ) (b : Bool) → (not (k == 0) && b) ≡ true → k ≢ 0
      used_test k true h' = ground arith
      used_test k false h' = absurd (ground arith)

      used_size : (ent' : DirentView) → ent'.ino ≢ 0 → used_part ent' ≡ dirent_size ent'.namlen
      used_size ent' used = ground arith

      room_test : (k a b : ℕ) → (not (k == 0) && leb a b) ≡ true → a ≤ b
      room_test k a b h' = ground arith

  place_here-no_error :
      (block : Bytes) (size off : ℕ) (ent : DirentView) (later : Result (Option Bytes)) (e : ℕ)
      → IsEntry block size off ent
      → later ≢ err e
      → place_here name new_inode block off ent later ≢ err e
  unfolding place_here
  place_here-no_error block size off ent later e is fine =
      let in_block = is.reclen_in_block in
      no_error_if (ent.ino == 0 && leb (dirent_size name.len) ent.reclen) _ _ e
        (λ unused.
          write_dirent_raw-fits block off ent.reclen e (unused_room ent.ino _ _ unused)
            (omega arith) is.reclen_aligned)
        (λ _.
          no_error_if
            (not (ent.ino == 0) && leb (dirent_size name.len) (ent.reclen - used_part ent)) _ _ e
            (λ slack.
              let f = slack_facts block size off ent is slack in
              write_dirent_raw-fits _ _ _ e f.0 f.1 f.2)
            (λ _. fine))
    where
      unused_room : (n a b : ℕ) → (n == 0 && leb a b) ≡ true → a ≤ b
      unused_room n a b h = ground arith

  -- On a block whose chain of entries is sound, the loop that looks for room for a name that is not
  -- longer than 255 bytes and has no slash never fails: it places the name or finds no room.
  pub place_dirent-no_error :
      (block : Bytes) (size fuel off : ℕ) (links : List Link) (e : ℕ)
      → listing block size fuel off ≡ some links
      → place_dirent name new_inode block size fuel off ≢ err e
  place_dirent-no_error block size zero off links e h = no_fuel_no_error block size off e
  place_dirent-no_error block size (suc fuel) off links e h = elim (dec_lt off size) [
    | no past ↦ λ q.
        none_not_err e (sym (place_dirent-end name new_inode block size fuel off (omega arith)) ∙ q)
    | yes inside ↦
        let r = listing-Step block size fuel off links inside h in
        λ q.
          place_here-no_error block size off r.0 _ e r.2
            (place_dirent-no_error block size fuel (off + r.0.reclen) r.1 e r.3)
            (sym (place_dirent-step name new_inode block size fuel off r.0 inside r.2) ∙ q)
  ]
