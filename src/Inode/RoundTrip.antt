-- ===== src/Inode/RoundTrip.antt =====
-- What nextufs__write_inode_raw stores, nextufs_inode_read gives back; other inodes stay.
use nextufs.Base.{
  subst, ◌≤◌, ℕ, ◌+◌, ◌*◌, ◌^◌, ◌<◌, ◌≡◌, ◌≢◌, ◌⊎◌, inl, inr, sym, ◌∙◌, false, arith, ok, Bytes,
  within,
}
use native.Mathlib.Decide.{dec_lt}
use nextufs.Disk.{Dev, Image, Env, and_then-cases, ◌>>=◌, read_exact, write_exact}
use nextufs.Disk.Laws.{Stores}
use nextufs.Disk.Effects.{write_exact-splice, write_exact-outside, read_exact-contents}
use nextufs.Layout.{inode_offset, ufs_inode_size}
use nextufs.Geometry.{image_validate}
use nextufs.Geometry.Facts.{Words}
use nextufs.Geometry.Inodes.{inode_offset-apart}
use nextufs.Inode.{Inode, decode_inode, encode_inode}
use nextufs.Inode.Codec.{Fits, Same, Same-trans, decode-encode, decode_cong}
use nextufs.Inode.Io.{inode_read, accept_inode, write_inode_raw}

module _ {S : Type 0} (env : Env S) (laws : Stores S env) (img : Image) where
  -- the bytes of inode `n` in the store
  abbrev pub slot : Dev S → ℕ → Bytes
  slot d n i = laws.contents d.store (inode_offset img n + i)

  inode_read-exact :
      (n : ℕ) (d : Dev S) (r : Inode × ℕ)
      → (inode_read env img n d).0 ≡ ok r
      → inode_read env img n d
        ≡ (read_exact env img ufs_inode_size (inode_offset img n)
              >>= accept_inode env img (inode_offset img n))
            d
  unfolding inode_read ◌>>=◌
  inode_read-exact n d r h = ground arith

  accepted :
      (off : ℕ) (b : Bytes) (d : Dev S) (r : Inode × ℕ)
      → (accept_inode env img off b d).0 ≡ ok r
      → r.0 ≡ decode_inode b
  unfolding accept_inode ◌>>=◌
  accepted off b d r h = ground arith

  -- A successful read of an inode decodes the stored bytes.
  pub inode_read-Same :
      (n : ℕ) (d : Dev S) (r : Inode × ℕ)
      → (inode_read env img n d).0 ≡ ok r
      → Same r.0 (decode_inode (slot d n))
  unfolding ◌>>=◌
  inode_read-Same n d r h =
      and_then-cases (λ q. q.0 ≡ ok r → Same r.0 (decode_inode (slot d n)))
        (read_exact env img ufs_inode_size (inode_offset img n) d)
        (accept_inode env img (inode_offset img n))
        (λ b got done.
          subst (λ x. Same x (decode_inode (slot d n)))
            (sym (accepted (inode_offset img n) b _ r done))
            (decode_cong b (slot d n)
              (read_exact-contents env laws img ufs_inode_size (inode_offset img n) d b got)))
        (λ e _ failed. cc) (rw (inode_read-exact n d r h) at h)

  write_inode_raw-exact :
      (n : ℕ) (ino : Inode) (d : Dev S)
      → (write_inode_raw env img n ino d).0 ≡ ok tt
      → write_inode_raw env img n ino d
        ≡ write_exact env img (encode_inode ino) ufs_inode_size (inode_offset img n) d
  unfolding write_inode_raw ◌>>=◌
  write_inode_raw-exact n ino d h = ground arith

  -- the stored slot after a successful write
  slot-write :
      (n : ℕ) (ino : Inode) (d : Dev S)
      → (write_inode_raw env img n ino d).0 ≡ ok tt
      → (i : ℕ) → i < 128
      → slot (write_inode_raw env img n ino d).1 n i ≡ encode_inode ino i
  slot-write n ino d h i lt =
      let e = write_inode_raw-exact n ino d h in
      rw e (
        write_exact-splice env laws img (encode_inode ino) ufs_inode_size (inode_offset img n) d
          (rw e at h) (inode_offset img n + i)
        ∙ ground arith)

  -- An inode with its fields in their C types, once written, reads back with every field as it was.
  pub inode_read-write_inode_raw :
      (n : ℕ) (ino : Inode) (d : Dev S) (r : Inode × ℕ)
      → Fits ino
      → (write_inode_raw env img n ino d).0 ≡ ok tt
      → (inode_read env img n (write_inode_raw env img n ino d).1).0 ≡ ok r
      → Same r.0 ino
  inode_read-write_inode_raw n ino d r fits wrote got =
      Same-trans (inode_read-Same n (write_inode_raw env img n ino d).1 r got) (
        Same-trans (decode_cong _ (encode_inode ino) (slot-write n ino d wrote))
          (decode-encode ino fits))

  slots_apart :
      image_validate img ≡ ok tt
      → Words img.sb
      → img.slice_base + img.slice_size < 2 ^ 63
      → (n n' : ℕ) → n ≢ n'
      → n < img.sb.cg_count * img.sb.inodes_per_group
      → n' < img.sb.cg_count * img.sb.inodes_per_group
      → (inode_offset img n + 128 ≤ inode_offset img n')
        ⊎ (inode_offset img n' + 128 ≤ inode_offset img n)
  slots_apart valid words ends n n' ne hn hn' = elim (dec_lt n n') [
    | yes lt ↦ inl (inode_offset-apart img valid words ends n n' lt hn')
    | no ge ↦ inr (inode_offset-apart img valid words ends n' n (omega arith) hn)
  ]

  -- In a validated image the slots of the other inodes keep their bytes, also when the write fails.
  pub write_inode_raw-others :
      image_validate img ≡ ok tt
      → Words img.sb
      → img.slice_base + img.slice_size < 2 ^ 63
      → (n n' : ℕ) (ino : Inode) (d : Dev S) (i : ℕ) → n ≢ n'
      → n < img.sb.cg_count * img.sb.inodes_per_group
      → n' < img.sb.cg_count * img.sb.inodes_per_group
      → i < ufs_inode_size
      → slot (write_inode_raw env img n ino d).1 n' i ≡ slot d n' i
  unfolding write_inode_raw ◌>>=◌
  write_inode_raw-others valid words ends n n' ino d i ne hn hn' lt =
      let apart = slots_apart valid words ends n n' ne hn hn' in
      let out : within (inode_offset img n) ufs_inode_size (inode_offset img n' + i) ≡ false =
        ground arith in
      ground (
        arith,
        write_exact-outside env laws img (encode_inode ino) ufs_inode_size (inode_offset img n) d
            (inode_offset img n' + i) out,
      )
