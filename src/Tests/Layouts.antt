-- ===== src/Tests/Layouts.antt =====
-- The places of inodes on the volume, and an inode that is written and read back.
use nextufs.Base.{◌^◌, leb, shift, ℕ, ◌+◌, ◌≤◌, ◌≡◌, refl, false, arith, Bytes, ok}
use nextufs.Layout.{inode_offset, ufs_inode_size}
use nextufs.Disk.{Dev, pure, ◌>>=◌, read_exact, write_exact}
use nextufs.Geometry.Inodes.{inode_offset-in_slice, inode_offset-apart}
use nextufs.Inode.{Inode, decode_inode, encode_inode}
use nextufs.Inode.Codec.{Fits, Same, decode-encode}
use nextufs.Inode.Io.{inode_read, write_inode_raw, accept_inode}
use nextufs.Inode.RoundTrip.{slot, inode_read-write_inode_raw, write_inode_raw-others}
use nextufs.Tests.Device.{Store, device, device-Stores, idle}
use nextufs.Tests.Volume.{volume, volume-valid, volume-Words, disk, file}

inode_offset-in_slice_example :
    (0 ≤ inode_offset volume 63) × (inode_offset volume 63 + ufs_inode_size ≤ 131072)
inode_offset-in_slice_example =
    inode_offset-in_slice volume volume-valid volume-Words (omega arith) 63 (omega arith)

inode_offset-apart_example : inode_offset volume 31 + ufs_inode_size ≤ inode_offset volume 32
inode_offset-apart_example =
    inode_offset-apart volume volume-valid volume-Words (omega arith) 31 32 (omega arith)
      (omega arith)

file-Fits : Fits file
file-Fits = record {
  mode_fits = omega arith;
  nlink_fits = omega arith;
  uid_fits = omega arith;
  gid_fits = omega arith;
  size_fits = omega arith;
  atime_fits = omega arith;
  mtime_fits = omega arith;
  ctime_fits = omega arith;
  db_fits = λ i lt. ground arith;
  ib_fits = λ i lt. omega arith;
  flags_fits = omega arith;
  blocks_fits = omega arith;
  gen_fits = omega arith;
}

decode-encode_example : Same (decode_inode (encode_inode file)) file
decode-encode_example = decode-encode file file-Fits

abbrev written : Dev Store
written = (write_inode_raw device volume 5 file (idle disk 0)).1

file_written : (write_inode_raw device volume 5 file (idle disk 0)).0 ≡ ok tt
unfolding write_inode_raw inode_offset write_exact
file_written = refl

abbrev slot_bytes : Bytes
slot_bytes = shift written.store.0 (inode_offset volume 5)

abbrev read_back : Inode × ℕ
read_back = (decode_inode slot_bytes, inode_offset volume 5)

size_read : read_back.0.size ≡ 1500
unfolding decode_inode encode_inode inode_offset write_inode_raw write_exact
size_read = refl

place : leb (2 ^ 63) (inode_offset volume 5) ≡ false
unfolding inode_offset
place = refl

slot_read :
    read_exact device volume ufs_inode_size (inode_offset volume 5) written
    ≡ (ok slot_bytes, written)
unfolding read_exact inode_offset
slot_read = refl

file_read : (inode_read device volume 5 written).0 ≡ ok read_back
unfolding inode_read accept_inode ◌>>=◌ pure
file_read = rw (volume-valid, place, slot_read, size_read) refl

inode_read-write_inode_raw_example : Same read_back.0 file
inode_read-write_inode_raw_example =
    inode_read-write_inode_raw device device-Stores volume 5 file (idle disk 0) read_back file-Fits
      file_written file_read

write_inode_raw-others_example :
    slot device device-Stores volume written 6 0
    ≡ slot device device-Stores volume (idle disk 0) 6 0
write_inode_raw-others_example =
    write_inode_raw-others device device-Stores volume volume-valid volume-Words (omega arith) 5 6
      file (idle disk 0) 0 (omega arith) (omega arith) (omega arith) (omega arith)
