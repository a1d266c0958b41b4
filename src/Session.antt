-- ===== src/Session.antt =====
-- The clean flag around a writing session, from src/core/image.c: nextufs__image_refresh,
-- nextufs__write_begin and nextufs__write_finish. They change fields of struct nextufs_image, which
-- is an argument and a result here.
pub mod Flag
use nextufs.Base.{ℕ, ◌+◌, Bool, true, false, not, ◌||◌, Bytes, Result, ok, err, ◌==◌, if◌then◌else◌}
use nextufs.Superblock.{Superblock, decode_superblock}
use nextufs.Disk.{Dev, Image, Env, M, pure, ◌>>=◌, ◌>>◌, read_exact, write_exact, image_fsync}
use nextufs.Geometry.{image_validate}
use nextufs.Alloc.Indirect.{attempt}

-- fs_state in the superblock on disk
abbrev pub state_offset : Image → ℕ
state_offset img = img.slice_base + 0x2000 + 0xd1

module _ {S : Type 0} (env : Env S) where
  -- one byte, and then a sync
  unfoldable pub store_state : Image → ℕ → M S (Unit {0})
  store_state img state =
      write_exact env img (λ _. state) 1 (state_offset img) >> image_fsync env img

  -- a write and a sync whose failures are both ignored
  unfoldable pub put_back : Image → ℕ → M S (Unit {0})
  put_back img state = attempt (write_exact env img (λ _. state) 1 (state_offset img)) >>= λ _.
      attempt (image_fsync env img) >>= λ _. pure tt

  abbrev pub begun : ℕ → ℕ → Image → Result (Unit {0}) × Dev S → Result (Unit {0}) × Image × Dev S
  begun original state img (ok _, d) =
      (ok tt, record img { sb = record img.sb { state = state }; fs_write_active = true }, d)
  begun original state img (err e, d) = (err e, img, (put_back img original d).1)

  -- the volume is marked as not clean, 2 when it was clean and 3 when not
  unfoldable pub write_begin : Image → Dev S → Result (Unit {0}) × Image × Dev S
  write_begin img d =
      let original = img.sb.state in
      let state = (if original == 1 then 2 else 3) in
      let img' : Image = record img { restore_clean = original == 1 } in
      begun original state img' (store_state img' state d)

  abbrev pub finished : Image → Result (Unit {0}) × Dev S → Result (Unit {0}) × Image × Dev S
  finished img (ok _, d) =
      (ok tt, record img { sb = record img.sb { state = 1 }; restore_clean = false }, d)
  finished img (err e, d) = (err e, img, (put_back img 2 d).1)

  abbrev pub after_sync : Image → Result (Unit {0}) × Dev S → Result (Unit {0}) × Image × Dev S
  after_sync img (ok _, d) = finished img (store_state img 1 d)
  after_sync img (err e, d) = (err e, img, d)

  -- A session that went well marks the volume clean again, if it was clean when it began.
  unfoldable pub write_finish : Image → Bool → Dev S → Result (Unit {0}) × Image × Dev S
  write_finish img safe d =
      if not safe || not img.restore_clean
      then (ok tt, img, d)
      else after_sync img (image_fsync env img d)

  abbrev pub refreshed : Image → Result Bytes × Dev S → Result (Unit {0}) × Image × Dev S
  refreshed img (ok buf, d) =
      let img' : Image = record img { sb = decode_superblock buf } in (image_validate img', img', d)
  refreshed img (err e, d) = (err e, img, d)

  unfoldable pub image_refresh : Image → Dev S → Result (Unit {0}) × Image × Dev S
  image_refresh img d = refreshed img (read_exact env img 2048 (img.slice_base + 0x2000) d)
