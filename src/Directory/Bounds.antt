-- ===== src/Directory/Bounds.antt =====
-- What nextufs__read_dirent (src/core/layout.c) accepts.
use nextufs.Base.{
  ℕ, zero, suc, ◌+◌, ◌%◌, ◌≤◌, ◌<◌, ◌≡◌, ◌≢◌, refl, ◌⊎◌, inl, inr, Bool, true, false, not, ◌&&◌,
  ◌||◌, none, some, Bytes, arith, if◌then◌else◌, ◌==◌,
}
use native.Mathlib.Decide.{dec_lt}
use nextufs.Directory.Entry.{
  DirentView, slash, has_byte, dirent_size, bad_reclen, bad_name, dirent_at, read_dirent,
}

pub some-ent :
    {A : Type 0} (b c : Bool) (a a' : A)
    → (if b then none else if c then none else some a) ≡ some a'
    → (b ≡ false) × (c ≡ false) × (a' ≡ a)
some-ent true c a a' h = absurd cc
some-ent false true a a' h = absurd cc
some-ent false false a a' h = (refl, refl, cc)

-- What is known of an accepted entry.
pub record IsEntry (buf : Bytes) (size off : ℕ) (ent : DirentView) : Type 0 where
  pub is_here : ent ≡ dirent_at buf off
  pub header_fits : off + 8 ≤ size
  pub reclen_least : 8 ≤ ent.reclen
  pub reclen_aligned : ent.reclen % 4 ≡ 0
  pub reclen_fits : off + ent.reclen ≤ size
  pub reclen_in_block : off % 1024 + ent.reclen ≤ 1024
  pub name_good : (ent.ino ≡ 0) ⊎ (bad_name ent ≡ false)

bad_reclen-false :
    (size off : ℕ) (ent : DirentView)
    → bad_reclen size off ent ≡ false
    → off ≤ size
    → (8 ≤ ent.reclen)
      × (ent.reclen % 4 ≡ 0)
      × (off + ent.reclen ≤ size)
      × (off % 1024 + ent.reclen ≤ 1024)
unfolding bad_reclen
bad_reclen-false size off ent h le = ground arith

both_false :
    (n : ℕ) (b c : Bool) → (c || not (n == 0) && b) ≡ false → (c ≡ false) × ((n ≡ 0) ⊎ (b ≡ false))
both_false n b true h = absurd cc
both_false n true false h = (refl, inl (ground arith))
both_false n false false h = (refl, inr refl)

pub read_dirent-IsEntry :
    (buf : Bytes) (size off : ℕ) (ent : DirentView)
    → read_dirent buf size off ≡ some ent
    → IsEntry buf size off ent
unfolding read_dirent
read_dirent-IsEntry buf size off ent h =
    let at = dirent_at buf off in
    let r = some-ent _ _ at ent h in
    let b = both_false at.ino (bad_name at) (bad_reclen size off at) r.1 in
    let le : off + 8 ≤ size = ground arith in
    let f = bad_reclen-false size off at b.0 (omega arith) in
    rw r.2 (record {
      is_here = refl;
      header_fits = le;
      reclen_least = f.0;
      reclen_aligned = f.1;
      reclen_fits = f.2;
      reclen_in_block = f.3;
      name_good = b.1;
    })

pub bad_name-false :
    (ent : DirentView)
    → bad_name ent ≡ false
    → (0 < ent.namlen)
      × (ent.namlen ≤ 255)
      × (dirent_size ent.namlen ≤ ent.reclen)
      × (has_byte ent.name 0 ent.namlen ≡ false)
      × (has_byte ent.name slash ent.namlen ≡ false)
      × (ent.name ent.namlen ≡ 0)
unfolding bad_name
bad_name-false ent h =
    (ground arith, ground arith, ground arith, ground arith, ground arith, ground arith)

or-false : (b c : Bool) → (b || c) ≡ false → (b ≡ false) × (c ≡ false)
or-false true c h = absurd cc
or-false false c h = (refl, h)

==-false : (a b : ℕ) → (a == b) ≡ false → a ≢ b
==-false a b h = ground arith

has_byte-absent : (p : Bytes) (v n : ℕ) → has_byte p v n ≡ false → (i : ℕ) → i < n → p i ≢ v
unfolding has_byte
has_byte-absent p v zero h i lt = absurd (omega arith)
has_byte-absent p v (suc n) h i lt = elim (dec_lt i n) [
  | yes below ↦ has_byte-absent p v n (or-false (has_byte p v n) _ h).0 i below
  | no last ↦
      let e : i ≡ n = omega arith in rw e (==-false (p n) v ((or-false (has_byte p v n) _ h).1))
]

pub dirent_size-le : (n : ℕ) → n ≤ 255 → n + 9 ≤ dirent_size n
unfolding dirent_size
dirent_size-le n le = omega arith

pub IsEntry-name :
    (buf : Bytes) (size off : ℕ) (ent : DirentView)
    → IsEntry buf size off ent
    → ent.ino ≢ 0
    → (bad_name ent ≡ false) × (ent.namlen + 9 ≤ ent.reclen)
IsEntry-name buf size off ent h used = elim h.name_good [
  | inl unused ↦ absurd (used unused)
  | inr good ↦
      let g = bad_name-false ent good in (good, omega (arith, dirent_size-le ent.namlen g.1, g.2))
]

-- An entry that is read lies in the buffer and in one block of 1024 bytes, and it is at least eight
-- bytes long, so that the entry after it lies further on.
pub read_dirent-within :
    (buf : Bytes) (size off : ℕ) (ent : DirentView)
    → read_dirent buf size off ≡ some ent
    → (8 ≤ ent.reclen) × (off + ent.reclen ≤ size) × (off % 1024 + ent.reclen ≤ 1024)
read_dirent-within buf size off ent h =
    let r = read_dirent-IsEntry buf size off ent h in
    (r.reclen_least, r.reclen_fits, r.reclen_in_block)

-- The name of an entry in use that is read is not empty; it lies with its NUL in the entry, and so in
-- the buffer, and no byte of it is a NUL or a slash.
pub read_dirent-name :
    (buf : Bytes) (size off : ℕ) (ent : DirentView)
    → read_dirent buf size off ≡ some ent
    → ent.ino ≢ 0
    → (0 < ent.namlen)
      × (off + 8 + ent.namlen < off + ent.reclen)
      × (off + ent.reclen ≤ size)
      × (ent.name ent.namlen ≡ 0)
      × ((i : ℕ) → i < ent.namlen → (ent.name i ≢ 0) × (ent.name i ≢ slash))
read_dirent-name buf size off ent h used =
    let r = read_dirent-IsEntry buf size off ent h in
    let n = IsEntry-name buf size off ent r used in
    let g = bad_name-false ent n.0 in
    (
      g.0,
      omega (arith, n.1),
      r.reclen_fits,
      g.5,
      λ i lt. (
        has_byte-absent ent.name 0 ent.namlen g.3 i lt,
        has_byte-absent ent.name slash ent.namlen g.4 i lt,
      ),
    )
