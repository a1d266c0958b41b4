-- ===== src/File/Symlink.antt =====
-- Symbolic links whose target lies in the inode: nextufs__store_inline_symlink of
-- src/mutate/dir_mutate.c, decode_inline_symlink and nextufs_inode_readlink of src/core/image.c.
use Prim.Native.Nat.{bit_and}
use nextufs.Base.{
  ℕ, zero, suc, ◌+◌, ◌-◌, ◌*◌, ◌≤◌, ◌<◌, ◌≡◌, ◌≢◌, refl, ap, sym, ◌∙◌, arith, Bool, true, false,
  not, ◌||◌, Bytes, IsBytes, within, zeros, put, splice, Upto, Upto-all, Result, ok, err, ltb, leb,
  ◌==◌, if◌then◌else◌, einval, eio, inl,
}
use native.Mathlib.Decide.{dec_lt}
use nextufs.Codec.{read_be32, write_be32, write_be32-outside}
use nextufs.Disk.{Image, Env, M, pure, fail, ◌>>=◌}
use nextufs.Inode.{Inode, write_words}
use nextufs.File.{inode_read_data}
use nextufs.Alloc.Groups.{ifmt}
use nextufs.Alloc.Indirect.{attempt}
use nextufs.Alloc.Storage.{iflnk, ic_fastlink}

-- the 60 bytes of the target with zeros behind it, as the words of db and ib
unfoldable pub store_inline_symlink : Inode → Bytes → ℕ → Inode
unfolding read_be32
store_inline_symlink ino target len =
    let raw = splice zeros target len 0 in
    record ino { db = λ i. read_be32 raw (i * 4); ib = λ i. read_be32 raw (48 + i * 4) }

unfoldable pub inline_bytes : Inode → Bytes
unfolding write_words
inline_bytes ino = write_words (write_words zeros 0 ino.db 12) 48 ino.ib 3

abbrev pub not_inline : Inode → ℕ → Bool
not_inline ino out_size =
    not (bit_and ino.mode ifmt == iflnk)
    || bit_and ino.flags ic_fastlink == 0
    || ino.size == 0
    || ltb 60 ino.size
    || out_size == 0

-- `memcpy(out, raw, nbytes)` and the NUL
abbrev pub copied_out : Bytes → Bytes → ℕ → Bytes × ℕ
copied_out out raw nbytes = (put (splice out raw nbytes 0) nbytes 0, nbytes)

-- The target with its NUL in `out`, and its length, 0 when it is not in the inode.
unfoldable pub decode_inline_symlink : Inode → Bytes → ℕ → Bytes × ℕ
unfolding inline_bytes
decode_inline_symlink ino out out_size =
    let nbytes = (if leb out_size ino.size then out_size - 1 else ino.size) in
    if not_inline ino out_size then (out, 0) else copied_out out (inline_bytes ino) nbytes

module _ {S : Type 0} (env : Env S) (img : Image) where
  unfoldable pub link_from_data : Result (Bytes × ℕ) → M S Bytes
  link_from_data (ok (buf, got)) = pure (put buf got 0)
  link_from_data (err _) = fail eio

  unfoldable pub inode_readlink : Inode → Bytes → ℕ → M S Bytes
  unfolding decode_inline_symlink link_from_data
  inode_readlink ino out out_size =
      let inline = decode_inline_symlink ino out out_size in
      if not (bit_and ino.mode ifmt == iflnk) || out_size == 0
      then fail einval
      else if not (inline.1 == 0)
      then pure (inline.0)
      else (attempt (inode_read_data env img ino 0 out (out_size - 1)) >>= link_from_data)

-- the bytes of a word that was read from `r`
word_bytes :
    (m : Bytes) (p : ℕ) (r : Bytes) (q : ℕ)
    → IsBytes r
    → Upto 4 (λ j. write_be32 m p (read_be32 r q) (p + j) ≡ r (q + j))
unfolding write_be32 read_be32
word_bytes m p r q bytes = (
  ground (arith, bytes (q + 3), bytes (q + 2), bytes (q + 1), bytes q),
  (
    ground (arith, bytes (q + 3), bytes (q + 2), bytes (q + 1), bytes q),
    (
      ground (arith, bytes (q + 3), bytes (q + 2), bytes (q + 1), bytes q),
      (ground (arith, bytes (q + 3), bytes (q + 2), bytes (q + 1), bytes q), tt),
    ),
  ),
)

write_words-bytes :
    (m : Bytes) (at : ℕ) (words : ℕ → ℕ) (r : Bytes) (off n i : ℕ)
    → IsBytes r
    → ((k : ℕ) → words k ≡ read_be32 r (off + k * 4))
    → i < n * 4
    → write_words m at words n (at + i) ≡ r (off + i)
unfolding write_words
write_words-bytes m at words r off zero i bytes same lt = absurd (omega arith)
write_words-bytes m at words r off (suc n) i bytes same lt =
    let earlier = write_words m at words n in
    elim (dec_lt i (n * 4)) [
      | yes before ↦
          write_be32-outside earlier (at + n * 4) (words n) (at + i) (inl (omega arith))
          ∙ write_words-bytes m at words r off n i bytes same before
      | no last ↦
          let j = i - n * 4 in
          ap (write_be32 earlier (at + n * 4) (words n)) (omega (arith, lt))
          ∙ ap (λ w. write_be32 earlier (at + n * 4) w (at + n * 4 + j)) (same n)
          ∙ Upto-all 4
              (λ j'.
                write_be32 earlier (at + n * 4) (read_be32 r (off + n * 4)) (at + n * 4 + j')
                ≡ r (off + n * 4 + j'))
              (word_bytes earlier (at + n * 4) r (off + n * 4) bytes) j (omega (arith, lt))
          ∙ ap r (omega (arith, lt))
    ]

write_words-outside :
    (m : Bytes) (at : ℕ) (words : ℕ → ℕ) (n i : ℕ) → i < at → write_words m at words n i ≡ m i
unfolding write_words
write_words-outside m at words zero i lt = refl
write_words-outside m at words (suc n) i lt =
    write_be32-outside (write_words m at words n) (at + n * 4) (words n) i (inl (omega arith))
    ∙ write_words-outside m at words n i lt

-- what was put into the inode comes out of it
inline_bytes-store_inline_symlink :
    (ino : Inode) (target : Bytes) (len i : ℕ)
    → IsBytes target
    → i < 60
    → inline_bytes (store_inline_symlink ino target len) i ≡ splice zeros target len 0 i
unfolding inline_bytes store_inline_symlink
inline_bytes-store_inline_symlink ino target len i bytes lt =
    let raw = splice zeros target len 0 in
    let db : ℕ → ℕ = λ k. read_be32 raw (k * 4) in
    let ib : ℕ → ℕ = λ k. read_be32 raw (48 + k * 4) in
    let db_part = write_words zeros 0 db 12 in
    let raw_bytes : IsBytes raw = λ k. ground (arith, bytes (k - 0)) in
    let from_zero : i ≡ 0 + i = omega arith in
    elim (dec_lt i 48) [
      | yes in_db ↦
          write_words-outside db_part 48 ib 3 i in_db
          ∙ ap db_part from_zero
          ∙ write_words-bytes zeros 0 db raw 0 12 i raw_bytes
              (λ k. let e : k * 4 ≡ 0 + k * 4 = omega arith in ap (read_be32 raw) e) (omega arith)
          ∙ ap raw (sym from_zero)
      | no in_ib ↦
          let j = i - 48 in
          let e : i ≡ 48 + j = omega arith in
          ap (write_words db_part 48 ib 3) e
          ∙ write_words-bytes db_part 48 ib raw 48 3 j raw_bytes (λ k. refl) (omega arith)
          ∙ ap raw (sym e)
    ]

not_inline-false :
    (ino : Inode) (out_size : ℕ)
    → bit_and ino.mode ifmt ≡ iflnk
    → bit_and ino.flags ic_fastlink ≢ 0
    → 0 < ino.size
    → ino.size ≤ 60
    → 0 < out_size
    → not_inline ino out_size ≡ false
not_inline-false ino out_size link fast some_target short room = ground arith

read_out : (out raw : Bytes) (n i : ℕ) → i < n → put (splice out raw n 0) n 0 i ≡ raw i
read_out out raw n i lt = ground (arith, i_same i)
  where
    i_same : (k : ℕ) → k - 0 ≡ k
    i_same k = omega arith

read_end : (out raw : Bytes) (n : ℕ) → put (splice out raw n 0) n 0 n ≡ 0
read_end out raw n = ground arith

decode-inline :
    (ino : Inode) (out : Bytes) (out_size : ℕ)
    → not_inline ino out_size ≡ false
    → ino.size < out_size
    → decode_inline_symlink ino out out_size ≡ copied_out out (inline_bytes ino) ino.size
unfolding decode_inline_symlink
decode-inline ino out out_size inline fits = rw (inline, whole) refl
  where
    whole : leb out_size ino.size ≡ false
    whole = ground arith

-- A target of 1 to 60 bytes that is stored in the inode of a symbolic link, with its length and the
-- flag of a fast link, is read back into a larger buffer: its length, its bytes, and a NUL behind.
pub decode_inline_symlink-store_inline_symlink :
    (ino : Inode) (target out : Bytes) (len out_size : ℕ)
    → IsBytes target
    → 0 < len
    → len ≤ 60
    → len < out_size
    → bit_and ino.mode ifmt ≡ iflnk
    → bit_and ino.flags ic_fastlink ≢ 0
    → ino.size ≡ len
    → ((decode_inline_symlink (store_inline_symlink ino target len) out out_size).1 ≡ len)
      × ((i : ℕ)
          → i < len
          → (decode_inline_symlink (store_inline_symlink ino target len) out out_size).0 i
            ≡ target i)
      × ((decode_inline_symlink (store_inline_symlink ino target len) out out_size).0 len ≡ 0)
unfolding store_inline_symlink
decode_inline_symlink-store_inline_symlink ino target out len out_size bytes some_target short fits
      link fast sized =
    let stored = store_inline_symlink ino target len in
    let inline =
      not_inline-false stored out_size link fast (omega (arith, sized)) (omega (arith, sized))
        (omega arith) in
    let d : decode_inline_symlink stored out out_size ≡ copied_out out (inline_bytes stored) len =
      decode-inline stored out out_size inline (omega (arith, sized))
      ∙ ap (copied_out out (inline_bytes stored)) sized in
    (
      ap (λ x. x.1) d,
      (λ i lt.
          ap (λ x. x.0 i) d
          ∙ read_out out (inline_bytes stored) len i lt
          ∙ inline_bytes-store_inline_symlink ino target len i bytes (omega arith)
          ∙ copied target len i lt),
      ap (λ x. x.0 len) d ∙ read_end out (inline_bytes stored) len,
    )
  where
    copied : (b : Bytes) (n i : ℕ) → i < n → splice zeros b n 0 i ≡ b i
    copied b n i lt = let e : i - 0 ≡ i = omega arith in rw (e, inside i n lt) refl
      where
        inside : (k m : ℕ) → k < m → within 0 m k ≡ true
        inside k m h = ground arith
