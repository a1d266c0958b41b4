-- ===== src/Directory/Stored.antt =====
-- What nextufs__write_dirent_raw (src/mutate/dir_mutate.c) stores.
use nextufs.Base.{
  subst, ℕ, zero, suc, ◌+◌, ◌%◌, ◌^◌, ◌≤◌, ◌<◌, ◌≡◌, ◌≢◌, refl, sym, ◌∙◌, ◌⊎◌, inr, Bool, true,
  false, some, Bytes, arith, if◌then◌else◌, ltb, einval, enametoolong, ok, err, splice, zeros,
}
use nextufs.Codec.{
  read_be32, read_be16, write_be32, write_be16, read_be32-write_be32, read_be16-write_be16,
  write_be16-outside,
}
use nextufs.Codec.Laws.{read_be32_cong, read_be16_cong}
use nextufs.Directory.Entry.{
  DirentView, Name, slash, has_byte, dirent_size, bad_name, dirent_at, read_dirent, stored_dirent,
  write_dirent_raw, refused_entry,
}
use nextufs.Directory.Bounds.{IsEntry, dirent_size-le}
use nextufs.Directory.RoundTrip.{has_byte-cong, good_name, Same, Same-IsEntry, IsEntry-read_dirent}

-- the entry that is stored
abbrev pub entry_of : ℕ → ℕ → Name → DirentView
entry_of ino reclen name = record {
  ino = ino;
  reclen = reclen;
  namlen = name.len;
  name = λ i. if ltb i name.len then name.chars i else 0;
}

module _ (buf : Bytes) (p ino reclen : ℕ) (name : Name) where
  abbrev header1 : Bytes
  header1 = write_be32 (splice buf zeros reclen p) p ino

  abbrev header2 : Bytes
  header2 = write_be16 header1 (p + 4) reclen

  abbrev header3 : Bytes
  header3 = write_be16 header2 (p + 6) name.len

  stored-header : (i : ℕ) → i < p + 8 → stored_dirent buf p ino reclen name i ≡ header3 i
  unfolding stored_dirent
  stored-header i lt = ground arith

  stored-ino : read_be32 (stored_dirent buf p ino reclen name) p ≡ ino % 2 ^ 32
  stored-ino =
      read_be32_cong _ header1 p (λ i lo hi.
        stored-header i (omega arith)
        ∙ write_be16-outside header2 (p + 6) name.len i (omega arith)
        ∙ write_be16-outside header1 (p + 4) reclen i (omega arith))
      ∙ read_be32-write_be32 (splice buf zeros reclen p) p ino

  stored-reclen : read_be16 (stored_dirent buf p ino reclen name) (p + 4) ≡ reclen % 2 ^ 16
  stored-reclen =
      read_be16_cong _ header2 (p + 4) (λ i lo hi.
        stored-header i (omega arith) ∙ write_be16-outside header2 (p + 6) name.len i (omega arith))
      ∙ read_be16-write_be16 header1 (p + 4) reclen

  stored-namlen : read_be16 (stored_dirent buf p ino reclen name) (p + 6) ≡ name.len % 2 ^ 16
  stored-namlen =
      read_be16_cong _ header3 (p + 6) (λ i lo hi. stored-header i (omega arith))
      ∙ read_be16-write_be16 header2 (p + 6) name.len

  stored-name :
      (i : ℕ)
      → i ≤ name.len
      → name.len + 9 ≤ reclen
      → (if ltb i name.len then name.chars i else 0)
        ≡ stored_dirent buf p ino reclen name (p + 8 + i)
  unfolding stored_dirent write_be16 write_be32
  stored-name i le fits = ground arith

  pub stored-outside :
      (i : ℕ)
      → name.len + 9 ≤ reclen
      → (i < p) ⊎ (p + reclen ≤ i)
      → stored_dirent buf p ino reclen name i ≡ buf i
  unfolding stored_dirent write_be16 write_be32
  stored-outside i fits out = ground arith

  stored-Same :
      ino < 2 ^ 32
      → reclen < 2 ^ 16
      → name.len + 9 ≤ reclen
      → Same (entry_of ino reclen name) (dirent_at (stored_dirent buf p ino reclen name) p)
  unfolding dirent_at
  stored-Same ino_fits reclen_fits fits = record {
    ino = omega (arith, stored-ino);
    reclen = omega (arith, stored-reclen);
    namlen = omega (arith, stored-namlen);
    name = λ used i le. stored-name i le fits;
  }

-- What is known when a write of an entry succeeds.
pub record Written (buf : Bytes) (p ino reclen : ℕ) (name : Name) (buf' : Bytes) : Type 0 where
  pub stored : buf' ≡ stored_dirent buf p ino reclen name
  pub reclen_most : reclen ≤ 1024
  pub aligned : reclen % 4 ≡ 0
  pub short : name.len ≤ 255
  pub room : dirent_size name.len ≤ reclen
  pub no_slash : has_byte name.chars slash name.len ≡ false

not_refused :
    (reclen : ℕ) (name : Name)
    → refused_entry reclen name ≡ false
    → (reclen ≤ 1024)
      × (reclen % 4 ≡ 0)
      × (dirent_size name.len ≤ reclen)
      × (has_byte name.chars slash name.len ≡ false)
unfolding refused_entry
not_refused reclen name h = (ground arith, ground arith, ground arith, ground arith)

pub write_dirent_raw-ok :
    (buf : Bytes) (p ino reclen : ℕ) (name : Name) (buf' : Bytes)
    → write_dirent_raw buf p ino reclen name ≡ ok buf'
    → Written buf p ino reclen name buf'
unfolding write_dirent_raw
write_dirent_raw-ok buf p ino reclen name buf' h =
    let r = passed (ltb 255 name.len) (refused_entry reclen name) enametoolong einval _ _ h in
    let f = not_refused reclen name r.1 in
    record {
      stored = r.2;
      reclen_most = f.0;
      aligned = f.1;
      short = ground (arith, r.0);
      room = f.2;
      no_slash = f.3;
    }
  where
    passed :
        (b c : Bool) (e e' : ℕ) (x y : Bytes)
        → (if b then err e else if c then err e' else ok x) ≡ ok y
        → (b ≡ false) × (c ≡ false) × (y ≡ x)
    passed true c e e' x y h' = absurd cc
    passed false true e e' x y h' = absurd cc
    passed false false e e' x y h' = (refl, refl, cc)

-- a name without its NUL has no NUL
has_byte-none : (q : Bytes) (v n : ℕ) → ((i : ℕ) → i < n → q i ≢ v) → has_byte q v n ≡ false
unfolding has_byte
has_byte-none q v zero ne = refl
has_byte-none q v (suc n) ne =
    rw (has_byte-none q v n (λ i lt. ne i (omega arith))) (ground (arith, ne n (omega arith)))

module _ (buf : Bytes) (size p ino reclen : ℕ) (name : Name) (buf' : Bytes) where
  name_as_stored :
      (v : ℕ) → has_byte (entry_of ino reclen name).name v name.len ≡ has_byte name.chars v name.len
  name_as_stored v = has_byte-cong _ _ v name.len λ i lt. ground arith

  pub Written-IsEntry :
      Written buf p ino reclen name buf'
      → 0 < name.len
      → ((i : ℕ) → i < name.len → name.chars i ≢ 0)
      → ino < 2 ^ 32
      → p + reclen ≤ size
      → p % 1024 + reclen ≤ 1024
      → IsEntry buf' size p (dirent_at buf' p) × Same (entry_of ino reclen name) (dirent_at buf' p)
  Written-IsEntry w some_name no_nul ino_fits fits block =
      let least = dirent_size-le name.len w.short in
      let room = w.room in
      let same : Same (entry_of ino reclen name) (dirent_at buf' p) =
        subst (λ b. Same (entry_of ino reclen name) (dirent_at b p)) (sym w.stored)
          (stored-Same buf p ino reclen name ino_fits (omega (arith, w.reclen_most))
            (omega arith)) in
      let good : bad_name (entry_of ino reclen name) ≡ false =
        good_name (entry_of ino reclen name) some_name w.short w.room
          (name_as_stored 0 ∙ has_byte-none _ 0 name.len no_nul) (name_as_stored slash ∙ w.no_slash)
          (ground arith) in
      (
        Same-IsEntry buf' size p (entry_of ino reclen name) (omega arith) (omega arith) w.aligned
            fits block (inr good) same,
        same,
      )

-- An entry that is written into a place of its size reads back: its inode number, its length and its
-- name. The name is a C string that is not empty, and the place lies in the buffer and in one block of
-- 1024 bytes.
pub read_dirent-write_dirent_raw :
    (buf : Bytes) (size p ino reclen : ℕ) (name : Name) (buf' : Bytes)
    → write_dirent_raw buf p ino reclen name ≡ ok buf'
    → 0 < name.len
    → ((i : ℕ) → i < name.len → name.chars i ≢ 0)
    → 0 < ino
    → ino < 2 ^ 32
    → p + reclen ≤ size
    → p % 1024 + reclen ≤ 1024
    → (ent : DirentView) × (read_dirent buf' size p ≡ some ent)
      × (ent.ino ≡ ino)
      × (ent.reclen ≡ reclen)
      × (ent.namlen ≡ name.len)
      × ((i : ℕ) → i < name.len → ent.name i ≡ name.chars i)
read_dirent-write_dirent_raw buf size p ino reclen name buf' h some_name no_nul used ino_fits fits
      block =
    let w = write_dirent_raw-ok buf p ino reclen name buf' h in
    let r =
      Written-IsEntry buf size p ino reclen name buf' w some_name no_nul ino_fits fits block in
    let same = r.1 in
    (
      dirent_at buf' p,
      IsEntry-read_dirent buf' size p _ r.0,
      sym same.ino,
      sym same.reclen,
      sym same.namlen,
      λ i lt. sym (same.name (omega arith) i (omega arith)) ∙ ground arith,
    )
