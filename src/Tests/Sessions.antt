-- ===== src/Tests/Sessions.antt =====
-- A session on the volume when it is clean, and the two ways to find a block.
use nextufs.Base.{
  ℕ, zeros, splice, shift, ltb, ◌-◌, ◌+◌, ◌<◌, ◌≡◌, refl, ◌↔◌, true, arith, Bytes, ok, ◌==◌,
  if◌then◌else◌,
}
use nextufs.Disk.{Dev, Image, ◌>>=◌, write_exact, image_fsync, read_exact}
use nextufs.Geometry.{
  image_validate, bad_superblock, bad_masks, bad_cylinders, bad_sizes, bad_groups, bad_tables,
  bad_extent,
}
use nextufs.Layout.{cgstart}
use nextufs.Session.{state_offset, store_state, write_begin, write_finish}
use nextufs.Session.Flag.{write_begin-contents, write_finish-write_begin}
use nextufs.File.{resolve_file_block_frag, inode_read_data}
use nextufs.File.Data.{IsByte, inode_read_data-IsByte}
use nextufs.File.Resolve.{resolve_file_block_frag-resolve_inode_data_block}
use nextufs.Alloc.Storage.{resolve_inode_data_block}
use nextufs.Tests.Device.{Store, device, device-Stores, idle}
use nextufs.Tests.Volume.{volume, volume-valid, volume_superblock, disk, file}

abbrev clean_volume : Image
clean_volume = record volume { sb = record volume_superblock { state = 1 } }

-- with the flag in its byte
abbrev clean_disk : Bytes
clean_disk i = if i == 8401 then 1 else disk i

abbrev opened : Image × Dev Store
opened = (
  (write_begin device clean_volume (idle clean_disk 0)).1,
  (write_begin device clean_volume (idle clean_disk 0)).2,
)

begins : (write_begin device clean_volume (idle clean_disk 0)).0 ≡ ok tt
unfolding write_begin store_state ◌>>=◌ write_exact image_fsync
begins = refl

finishes : (write_finish device opened.0 true opened.1).0 ≡ ok tt
unfolding write_begin write_finish store_state ◌>>=◌ write_exact image_fsync
finishes = refl

write_begin-contents_example :
    (write_begin device clean_volume (idle clean_disk 0)).2.store.0 8401
    ≡ (if 8401 == state_offset clean_volume then 2 else clean_disk 8401)
write_begin-contents_example =
    write_begin-contents device device-Stores clean_volume (idle clean_disk 0) begins 8401

kept_clean : opened.0.restore_clean ≡ true
unfolding write_begin store_state ◌>>=◌ write_exact image_fsync
kept_clean = refl

write_finish-write_begin_example :
    (write_finish device opened.0 true opened.1).2.store.0 8401 ≡ clean_disk 8401
write_finish-write_begin_example =
    write_finish-write_begin device device-Stores clean_volume (idle clean_disk 0) refl refl begins
      finishes 8401

resolve_file_block_frag-resolve_inode_data_block_example :
    ((resolve_file_block_frag device volume file 0 (idle disk 0)).0 ≡ ok 24)
    ↔ ((resolve_inode_data_block device volume file 0 (idle disk 0)).0 ≡ ok 24)
resolve_file_block_frag-resolve_inode_data_block_example =
    resolve_file_block_frag-resolve_inode_data_block device volume (omega arith) file 0
      (idle disk 0) 24

-- four bytes of the file from its 1000th on
abbrev four : Bytes
four = splice zeros (shift disk 25576) 4 0

four_read : (inode_read_data device volume file 1000 zeros 4 (idle disk 0)).0 ≡ ok (four, 4)
unfolding inode_read_data image_validate bad_superblock bad_masks bad_cylinders bad_sizes bad_groups
    bad_tables bad_extent cgstart ◌>>=◌ resolve_file_block_frag read_exact
four_read = refl

inode_read_data-IsByte_example :
    (4 ≡ (if ltb 4 (1500 - 1000) then 4 else 1500 - 1000))
    × ((i : ℕ) → i < 4 → IsByte device device-Stores volume (idle disk 0) file (1000 + i) (four i))
inode_read_data-IsByte_example =
    inode_read_data-IsByte device device-Stores volume volume-valid (omega arith) file 1000 4 zeros
      (idle disk 0) four 4 four_read
