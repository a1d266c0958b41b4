-- ===== src/Directory/Entry.antt =====
-- Directory entries: nextufs__dirent_size and nextufs__read_dirent of src/core/layout.c, and
-- nextufs__write_dirent_raw of src/mutate/dir_mutate.c.
use nextufs.Base.{
  ℕ, zero, suc, ◌+◌, ◌-◌, ◌*◌, ◌/◌, ◌%◌, ◌^◌, Bool, true, false, not, ◌&&◌, ◌||◌, Option, none,
  some, Bytes, zeros, shift, splice, Result, ok, err, ltb, ◌==◌, if◌then◌else◌, einval,
  enametoolong,
}
use nextufs.Codec.{read_be16, read_be32, write_be16, write_be32}

-- struct nextufs_dirent_view: `name` is where the name starts
pub record DirentView : Type 0 where
  pub ino : ℕ
  pub reclen : ℕ
  pub namlen : ℕ
  pub name : Bytes

-- A C string: its bytes and its strlen.
pub record Name : Type 0 where
  pub chars : Bytes
  pub len : ℕ

abbrev pub dirblksiz : ℕ
dirblksiz = 1024

-- `memchr(p, v, n) != NULL`
unfoldable pub has_byte : Bytes → ℕ → ℕ → Bool
has_byte p v zero = false
has_byte p v (suc n) = has_byte p v n || p n == v

-- `memcmp(p, q, n) == 0`
unfoldable pub same_bytes : Bytes → Bytes → ℕ → Bool
same_bytes p q zero = true
same_bytes p q (suc n) = same_bytes p q n && p n == q n

-- `8U + ((name_len + 1U + 3U) & ~3U)`, where `~3U` has 32 bits
unfoldable pub dirent_size : ℕ → ℕ
dirent_size name_len = 8 + (name_len + 4) % 2 ^ 32 / 4 * 4

abbrev pub slash : ℕ
slash = 47

unfoldable pub bad_reclen : ℕ → ℕ → DirentView → Bool
bad_reclen size off ent =
    ltb ent.reclen 8
    || not (ent.reclen % 4 == 0)
    || ltb (size - off) ent.reclen
    || ltb (dirblksiz - off % dirblksiz) ent.reclen

unfoldable pub bad_name : DirentView → Bool
bad_name ent =
    ent.namlen == 0
    || ltb 255 ent.namlen
    || ltb ent.reclen (dirent_size ent.namlen)
    || has_byte ent.name 0 ent.namlen
    || has_byte ent.name slash ent.namlen
    || not (ent.name ent.namlen == 0)

unfoldable pub dirent_at : Bytes → ℕ → DirentView
dirent_at buf off = record {
  ino = read_be32 buf off;
  reclen = read_be16 buf (off + 4);
  namlen = read_be16 buf (off + 6);
  name = shift buf (off + 8);
}

-- none is the result -1
unfoldable pub read_dirent : Bytes → ℕ → ℕ → Option DirentView
unfolding bad_reclen bad_name dirent_at
read_dirent buf size off =
    let ent = dirent_at buf off in
    if ltb size off || ltb (size - off) 8
    then none
    else if bad_reclen size off ent || not (ent.ino == 0) && bad_name ent
    then none
    else some ent

-- The buffer with an entry stored at `p`.
unfoldable pub stored_dirent : Bytes → ℕ → ℕ → ℕ → Name → Bytes
stored_dirent buf p ino reclen name =
    let buf1 = splice buf zeros reclen p in
    let buf2 = write_be32 buf1 p ino in
    let buf3 = write_be16 buf2 (p + 4) reclen in
    let buf4 = write_be16 buf3 (p + 6) name.len in splice buf4 name.chars name.len (p + 8)

unfoldable pub refused_entry : ℕ → Name → Bool
unfolding dirent_size
refused_entry reclen name =
    ltb dirblksiz reclen
    || not (reclen % 4 == 0)
    || ltb reclen (dirent_size name.len)
    || has_byte name.chars slash name.len

unfoldable pub write_dirent_raw : Bytes → ℕ → ℕ → ℕ → Name → Result Bytes
unfolding refused_entry stored_dirent
write_dirent_raw buf p ino reclen name =
    if ltb 255 name.len
    then err enametoolong
    else if refused_entry reclen name
    then err einval
    else ok (stored_dirent buf p ino reclen name)
