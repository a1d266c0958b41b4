-- ===== src/Tests/Names.antt =====
-- Names in a directory, on the volume.
use nextufs.Base.{
  ℕ, ◌+◌, ◌-◌, ◌≡◌, refl, arith, ◌||◌, List, [], ◌∷◌, Option, none, some, Bytes, ok, err, eio, ◌==◌,
  if◌then◌else◌, within, ◌≤◌, ◌<◌, ◌≢◌, ◌++◌, Result,
}
use nextufs.Disk.{Dev, transaction_begin}
use nextufs.Disk.Recovery.{in_transaction}
use nextufs.Inode.{Inode}
use nextufs.Alloc.Atomic.{outcome_on}
use nextufs.Directory.Entry.{Name, DirentView, dirent_at, read_dirent, write_dirent_raw}
use nextufs.Directory.Stored.{read_dirent-write_dirent_raw}
use nextufs.Directory.Bounds.{read_dirent-name}
use nextufs.Directory.Listing.{Link, listing, name_list}
use nextufs.Mutate.Dirent.{place_dirent}
use nextufs.Mutate.Names.{place_dirent-listing}
use nextufs.Mutate.Drop.{Dropped, drop_in_chunk}
use nextufs.Mutate.Directory.{insert_dirent}
use nextufs.Mutate.Removal.{remove_dirent}
use nextufs.Mutate.Rollback.{insert_dirent-restores, remove_dirent-restores}
use nextufs.Tests.Device.{device, device-Stores, device-NoStray, idle}
use nextufs.Tests.Volume.{volume, disk, empty_file}

-- `.` and `..` of inode 2, and `a` with inode 5, which has the rest of the block
abbrev pub dirblk : Bytes
dirblk i =
    if i == 3 || i == 15 || i == 19
    then 2
    else if i == 5 || i == 17
    then 12
    else if i == 7 || i == 31
    then 1
    else if i == 8 || i == 20 || i == 21
    then 46
    else if i == 27
    then 5
    else if i == 28
    then 3
    else if i == 29
    then 232
    else if i == 32
    then 97
    else 0

abbrev pub directory_disk : Bytes
directory_disk i = if within 24576 1024 i then dirblk (i - 24576) else disk i

abbrev pub directory : Inode
directory = record empty_file {
  mode = 0o040755;
  size = 1024;
  blocks = 2;
  db = λ i. if i == 0 then 24 else 0;
}

abbrev pub name_a : Name
name_a = record { chars = λ _. 97; len = 1 }

abbrev pub name_b : Name
name_b = record { chars = λ _. 98; len = 1 }

abbrev pub the_links : List Link
the_links = (2, 46 ∷ []) ∷ (2, 46 ∷ 46 ∷ []) ∷ (5, 97 ∷ []) ∷ []

pub dirblk-listing : listing dirblk 1024 9 0 ≡ some the_links
unfolding nextufs.Disk.Recovery.in_transaction nextufs.Disk.transaction_begin
    nextufs.Disk.transaction_end nextufs.Disk.replay nextufs.Disk.seen nextufs.Disk.read_exact
    nextufs.Disk.write_exact nextufs.Disk.record_in nextufs.Disk.saved
    nextufs.Disk.transaction_record nextufs.Disk.backend_write nextufs.Disk.pure nextufs.Disk.fail
    nextufs.Alloc.OnInode.inode nextufs.Alloc.OnInode.on_disk nextufs.Alloc.OnInode.done
    nextufs.Alloc.OnInode.stop nextufs.Alloc.OnInode.store_inode
    nextufs.Alloc.Storage.resolve_inode_data_block nextufs.Alloc.Storage.resolve_from_slot
    nextufs.Alloc.Indirect.resolve_indirect_data_block nextufs.Alloc.Indirect.read_indirect_entry
    nextufs.Alloc.Storage.set_inode_data_block nextufs.Geometry.image_validate
    nextufs.Geometry.bad_superblock nextufs.Geometry.bad_masks nextufs.Geometry.bad_cylinders
    nextufs.Geometry.bad_sizes nextufs.Geometry.bad_groups nextufs.Geometry.bad_tables
    nextufs.Geometry.bad_extent nextufs.File.resolve_file_block_frag nextufs.File.resolve_frag_from
    nextufs.File.resolve_indirect_block_frag nextufs.File.read_entry nextufs.File.read_chunk
    nextufs.File.read_blocks nextufs.File.inode_read_data nextufs.File.or_eio
    nextufs.Directory.Iterate.directory_block nextufs.Directory.Entry.has_byte
    nextufs.Directory.Entry.same_bytes nextufs.Directory.Entry.dirent_size
    nextufs.Directory.Entry.bad_reclen nextufs.Directory.Entry.bad_name
    nextufs.Directory.Entry.dirent_at nextufs.Directory.Entry.read_dirent
    nextufs.Directory.Entry.stored_dirent nextufs.Directory.Entry.refused_entry
    nextufs.Directory.Entry.write_dirent_raw nextufs.Directory.Iterate.walk_entries
    nextufs.Directory.Iterate.visit nextufs.Directory.Iterate.iterate_blocks
    nextufs.Directory.Iterate.directory_iterate nextufs.Directory.Iterate.find_name_cb
    nextufs.Directory.Iterate.find_name_in_directory nextufs.Mutate.Dirent.or_einval
    nextufs.Mutate.Dirent.place_here nextufs.Mutate.Dirent.try_place
    nextufs.Mutate.Dirent.place_dirent nextufs.Mutate.Directory.given
    nextufs.Mutate.Directory.node_get_by_inode nextufs.Mutate.Directory.update_node_times
    nextufs.Mutate.Directory.grow_directory_by_dirblk nextufs.Mutate.Directory.mapped_block
    nextufs.Mutate.Directory.store_placed nextufs.Mutate.Directory.insert_in_blocks
    nextufs.Mutate.Directory.insert_in_new_block nextufs.Mutate.Directory.insert_dirent
    nextufs.Mutate.Drop.is_dot nextufs.Mutate.Drop.is_dotdot nextufs.Mutate.Drop.has_name
    nextufs.Mutate.Drop.merge_into nextufs.Mutate.Drop.unlink_entry nextufs.Mutate.Drop.drop_here
    nextufs.Mutate.Drop.try_drop nextufs.Mutate.Drop.drop_dirent nextufs.Mutate.Drop.drop_in_chunk
    nextufs.Mutate.Removal.or_invalid nextufs.Mutate.Removal.store_dropped
    nextufs.Mutate.Removal.or_further nextufs.Mutate.Removal.remove_from_blocks
    nextufs.Mutate.Removal.remove_dirent nextufs.Inode.Io.accept_inode nextufs.Inode.Io.inode_read
    nextufs.Inode.decode_inode nextufs.Directory.Listing.listing nextufs.Directory.Listing.listed
    nextufs.Directory.Listing.name_list nextufs.Mutate.Blocks.size_valid
    nextufs.Mutate.File.file_resize nextufs.Inode.Io.write_inode_raw nextufs.Layout.inode_offset
    nextufs.Inode.encode_inode nextufs.Codec.read_be32 nextufs.Codec.read_be16
    nextufs.Codec.write_be16 nextufs.Codec.write_be32 nextufs.Codec.read_be64
    nextufs.Codec.write_be64 nextufs.Layout.cgstart nextufs.Disk.◌>>=◌ nextufs.Alloc.OnInode.◌>>=◌
    nextufs.Alloc.OnInode.fails_as
dirblk-listing = refl

name_inserted :
    (in_transaction device
      (outcome_on (insert_dirent device volume 2 name_b 6) directory)
      (idle directory_disk 2)).0
    ≡ err eio
unfolding nextufs.Disk.Recovery.in_transaction nextufs.Disk.transaction_begin
    nextufs.Disk.transaction_end nextufs.Disk.replay nextufs.Disk.seen nextufs.Disk.read_exact
    nextufs.Disk.write_exact nextufs.Disk.record_in nextufs.Disk.saved
    nextufs.Disk.transaction_record nextufs.Disk.backend_write nextufs.Disk.pure nextufs.Disk.fail
    nextufs.Alloc.OnInode.inode nextufs.Alloc.OnInode.on_disk nextufs.Alloc.OnInode.done
    nextufs.Alloc.OnInode.stop nextufs.Alloc.OnInode.store_inode
    nextufs.Alloc.Storage.resolve_inode_data_block nextufs.Alloc.Storage.resolve_from_slot
    nextufs.Alloc.Indirect.resolve_indirect_data_block nextufs.Alloc.Indirect.read_indirect_entry
    nextufs.Alloc.Storage.set_inode_data_block nextufs.Geometry.image_validate
    nextufs.Geometry.bad_superblock nextufs.Geometry.bad_masks nextufs.Geometry.bad_cylinders
    nextufs.Geometry.bad_sizes nextufs.Geometry.bad_groups nextufs.Geometry.bad_tables
    nextufs.Geometry.bad_extent nextufs.File.resolve_file_block_frag nextufs.File.resolve_frag_from
    nextufs.File.resolve_indirect_block_frag nextufs.File.read_entry nextufs.File.read_chunk
    nextufs.File.read_blocks nextufs.File.inode_read_data nextufs.File.or_eio
    nextufs.Directory.Iterate.directory_block nextufs.Directory.Entry.has_byte
    nextufs.Directory.Entry.same_bytes nextufs.Directory.Entry.dirent_size
    nextufs.Directory.Entry.bad_reclen nextufs.Directory.Entry.bad_name
    nextufs.Directory.Entry.dirent_at nextufs.Directory.Entry.read_dirent
    nextufs.Directory.Entry.stored_dirent nextufs.Directory.Entry.refused_entry
    nextufs.Directory.Entry.write_dirent_raw nextufs.Directory.Iterate.walk_entries
    nextufs.Directory.Iterate.visit nextufs.Directory.Iterate.iterate_blocks
    nextufs.Directory.Iterate.directory_iterate nextufs.Directory.Iterate.find_name_cb
    nextufs.Directory.Iterate.find_name_in_directory nextufs.Mutate.Dirent.or_einval
    nextufs.Mutate.Dirent.place_here nextufs.Mutate.Dirent.try_place
    nextufs.Mutate.Dirent.place_dirent nextufs.Mutate.Directory.given
    nextufs.Mutate.Directory.node_get_by_inode nextufs.Mutate.Directory.update_node_times
    nextufs.Mutate.Directory.grow_directory_by_dirblk nextufs.Mutate.Directory.mapped_block
    nextufs.Mutate.Directory.store_placed nextufs.Mutate.Directory.insert_in_blocks
    nextufs.Mutate.Directory.insert_in_new_block nextufs.Mutate.Directory.insert_dirent
    nextufs.Mutate.Drop.is_dot nextufs.Mutate.Drop.is_dotdot nextufs.Mutate.Drop.has_name
    nextufs.Mutate.Drop.merge_into nextufs.Mutate.Drop.unlink_entry nextufs.Mutate.Drop.drop_here
    nextufs.Mutate.Drop.try_drop nextufs.Mutate.Drop.drop_dirent nextufs.Mutate.Drop.drop_in_chunk
    nextufs.Mutate.Removal.or_invalid nextufs.Mutate.Removal.store_dropped
    nextufs.Mutate.Removal.or_further nextufs.Mutate.Removal.remove_from_blocks
    nextufs.Mutate.Removal.remove_dirent nextufs.Inode.Io.accept_inode nextufs.Inode.Io.inode_read
    nextufs.Inode.decode_inode nextufs.Directory.Listing.listing nextufs.Directory.Listing.listed
    nextufs.Directory.Listing.name_list nextufs.Mutate.Blocks.size_valid
    nextufs.Mutate.File.file_resize nextufs.Inode.Io.write_inode_raw nextufs.Layout.inode_offset
    nextufs.Inode.encode_inode nextufs.Codec.read_be32 nextufs.Codec.read_be16
    nextufs.Codec.write_be16 nextufs.Codec.write_be32 nextufs.Codec.read_be64
    nextufs.Codec.write_be64 nextufs.Layout.cgstart nextufs.Disk.◌>>=◌ nextufs.Alloc.OnInode.◌>>=◌
    nextufs.Alloc.OnInode.fails_as
name_inserted = refl

insert_dirent-restores_example :
    (in_transaction device
        (outcome_on (insert_dirent device volume 2 name_b 6) directory)
        (idle directory_disk 2)).1.store.0
      24605
    ≡ 232
insert_dirent-restores_example =
    insert_dirent-restores device device-Stores (idle directory_disk 2) eio 24605 volume directory 2
      name_b 6 device-NoStray (omega arith) name_inserted

name_removed :
    (in_transaction device
      (outcome_on (remove_dirent device volume 2 name_a) directory)
      (idle directory_disk 2)).0
    ≡ err eio
unfolding nextufs.Disk.Recovery.in_transaction nextufs.Disk.transaction_begin
    nextufs.Disk.transaction_end nextufs.Disk.replay nextufs.Disk.seen nextufs.Disk.read_exact
    nextufs.Disk.write_exact nextufs.Disk.record_in nextufs.Disk.saved
    nextufs.Disk.transaction_record nextufs.Disk.backend_write nextufs.Disk.pure nextufs.Disk.fail
    nextufs.Alloc.OnInode.inode nextufs.Alloc.OnInode.on_disk nextufs.Alloc.OnInode.done
    nextufs.Alloc.OnInode.stop nextufs.Alloc.OnInode.store_inode
    nextufs.Alloc.Storage.resolve_inode_data_block nextufs.Alloc.Storage.resolve_from_slot
    nextufs.Alloc.Indirect.resolve_indirect_data_block nextufs.Alloc.Indirect.read_indirect_entry
    nextufs.Alloc.Storage.set_inode_data_block nextufs.Geometry.image_validate
    nextufs.Geometry.bad_superblock nextufs.Geometry.bad_masks nextufs.Geometry.bad_cylinders
    nextufs.Geometry.bad_sizes nextufs.Geometry.bad_groups nextufs.Geometry.bad_tables
    nextufs.Geometry.bad_extent nextufs.File.resolve_file_block_frag nextufs.File.resolve_frag_from
    nextufs.File.resolve_indirect_block_frag nextufs.File.read_entry nextufs.File.read_chunk
    nextufs.File.read_blocks nextufs.File.inode_read_data nextufs.File.or_eio
    nextufs.Directory.Iterate.directory_block nextufs.Directory.Entry.has_byte
    nextufs.Directory.Entry.same_bytes nextufs.Directory.Entry.dirent_size
    nextufs.Directory.Entry.bad_reclen nextufs.Directory.Entry.bad_name
    nextufs.Directory.Entry.dirent_at nextufs.Directory.Entry.read_dirent
    nextufs.Directory.Entry.stored_dirent nextufs.Directory.Entry.refused_entry
    nextufs.Directory.Entry.write_dirent_raw nextufs.Directory.Iterate.walk_entries
    nextufs.Directory.Iterate.visit nextufs.Directory.Iterate.iterate_blocks
    nextufs.Directory.Iterate.directory_iterate nextufs.Directory.Iterate.find_name_cb
    nextufs.Directory.Iterate.find_name_in_directory nextufs.Mutate.Dirent.or_einval
    nextufs.Mutate.Dirent.place_here nextufs.Mutate.Dirent.try_place
    nextufs.Mutate.Dirent.place_dirent nextufs.Mutate.Directory.given
    nextufs.Mutate.Directory.node_get_by_inode nextufs.Mutate.Directory.update_node_times
    nextufs.Mutate.Directory.grow_directory_by_dirblk nextufs.Mutate.Directory.mapped_block
    nextufs.Mutate.Directory.store_placed nextufs.Mutate.Directory.insert_in_blocks
    nextufs.Mutate.Directory.insert_in_new_block nextufs.Mutate.Directory.insert_dirent
    nextufs.Mutate.Drop.is_dot nextufs.Mutate.Drop.is_dotdot nextufs.Mutate.Drop.has_name
    nextufs.Mutate.Drop.merge_into nextufs.Mutate.Drop.unlink_entry nextufs.Mutate.Drop.drop_here
    nextufs.Mutate.Drop.try_drop nextufs.Mutate.Drop.drop_dirent nextufs.Mutate.Drop.drop_in_chunk
    nextufs.Mutate.Removal.or_invalid nextufs.Mutate.Removal.store_dropped
    nextufs.Mutate.Removal.or_further nextufs.Mutate.Removal.remove_from_blocks
    nextufs.Mutate.Removal.remove_dirent nextufs.Inode.Io.accept_inode nextufs.Inode.Io.inode_read
    nextufs.Inode.decode_inode nextufs.Directory.Listing.listing nextufs.Directory.Listing.listed
    nextufs.Directory.Listing.name_list nextufs.Mutate.Blocks.size_valid
    nextufs.Mutate.File.file_resize nextufs.Inode.Io.write_inode_raw nextufs.Layout.inode_offset
    nextufs.Inode.encode_inode nextufs.Codec.read_be32 nextufs.Codec.read_be16
    nextufs.Codec.write_be16 nextufs.Codec.write_be32 nextufs.Codec.read_be64
    nextufs.Codec.write_be64 nextufs.Layout.cgstart nextufs.Disk.◌>>=◌ nextufs.Alloc.OnInode.◌>>=◌
    nextufs.Alloc.OnInode.fails_as
name_removed = refl

remove_dirent-restores_example :
    (in_transaction device
        (outcome_on (remove_dirent device volume 2 name_a) directory)
        (idle directory_disk 2)).1.store.0
      24593
    ≡ 12
remove_dirent-restores_example =
    remove_dirent-restores device device-Stores (idle directory_disk 2) eio 24593 volume directory 2
      name_a (omega arith) name_removed

-- what the first two operations on a block leave, or the block itself
abbrev pub or_block : Bytes → Result Bytes → Bytes
or_block b (ok b') = b'
or_block b (err e) = b

abbrev pub or_old : Bytes → Result (Option Bytes) → Bytes
or_old b (ok (some b')) = b'
or_old b _ = b

abbrev b_written : Bytes
b_written = or_block dirblk (write_dirent_raw dirblk 36 6 988 name_b)

b_written_well : write_dirent_raw dirblk 36 6 988 name_b ≡ ok b_written
unfolding nextufs.Directory.Entry.has_byte nextufs.Directory.Entry.same_bytes
    nextufs.Directory.Entry.dirent_size nextufs.Directory.Entry.bad_reclen
    nextufs.Directory.Entry.bad_name nextufs.Directory.Entry.dirent_at
    nextufs.Directory.Entry.read_dirent nextufs.Directory.Entry.stored_dirent
    nextufs.Directory.Entry.refused_entry nextufs.Directory.Entry.write_dirent_raw
    nextufs.Mutate.Dirent.or_einval nextufs.Mutate.Dirent.place_here nextufs.Mutate.Dirent.try_place
    nextufs.Mutate.Dirent.place_dirent nextufs.Mutate.Drop.is_dot nextufs.Mutate.Drop.is_dotdot
    nextufs.Mutate.Drop.has_name nextufs.Mutate.Drop.merge_into nextufs.Mutate.Drop.unlink_entry
    nextufs.Mutate.Drop.drop_here nextufs.Mutate.Drop.try_drop nextufs.Mutate.Drop.drop_dirent
    nextufs.Mutate.Drop.drop_in_chunk nextufs.Directory.Listing.listing
    nextufs.Directory.Listing.listed nextufs.Directory.Listing.name_list nextufs.Codec.read_be32
    nextufs.Codec.read_be16 nextufs.Codec.write_be16 nextufs.Codec.write_be32
b_written_well = refl

read_dirent-write_dirent_raw_example :
    (ent : DirentView) × (read_dirent b_written 1024 36 ≡ some ent)
    × (ent.ino ≡ 6)
    × (ent.reclen ≡ 988)
    × (ent.namlen ≡ 1)
    × ((i : ℕ) → i < 1 → ent.name i ≡ 98)
read_dirent-write_dirent_raw_example =
    read_dirent-write_dirent_raw dirblk 1024 36 6 988 name_b b_written b_written_well (omega arith)
      (λ i lt. omega arith) (omega arith) (omega arith) (omega arith) (omega arith)

a_read : read_dirent dirblk 1024 24 ≡ some (dirent_at dirblk 24)
unfolding nextufs.Directory.Entry.has_byte nextufs.Directory.Entry.same_bytes
    nextufs.Directory.Entry.dirent_size nextufs.Directory.Entry.bad_reclen
    nextufs.Directory.Entry.bad_name nextufs.Directory.Entry.dirent_at
    nextufs.Directory.Entry.read_dirent nextufs.Directory.Entry.stored_dirent
    nextufs.Directory.Entry.refused_entry nextufs.Directory.Entry.write_dirent_raw
    nextufs.Mutate.Dirent.or_einval nextufs.Mutate.Dirent.place_here nextufs.Mutate.Dirent.try_place
    nextufs.Mutate.Dirent.place_dirent nextufs.Mutate.Drop.is_dot nextufs.Mutate.Drop.is_dotdot
    nextufs.Mutate.Drop.has_name nextufs.Mutate.Drop.merge_into nextufs.Mutate.Drop.unlink_entry
    nextufs.Mutate.Drop.drop_here nextufs.Mutate.Drop.try_drop nextufs.Mutate.Drop.drop_dirent
    nextufs.Mutate.Drop.drop_in_chunk nextufs.Directory.Listing.listing
    nextufs.Directory.Listing.listed nextufs.Directory.Listing.name_list nextufs.Codec.read_be32
    nextufs.Codec.read_be16 nextufs.Codec.write_be16 nextufs.Codec.write_be32
a_read = refl

read_dirent-name_example :
    (0 < 1)
    × (24 + 8 + 1 < 24 + 1000)
    × (24 + 1000 ≤ 1024)
    × (dirblk 33 ≡ 0)
    × ((i : ℕ) → i < 1 → (dirblk (32 + i) ≢ 0) × (dirblk (32 + i) ≢ 47))
unfolding nextufs.Directory.Entry.has_byte nextufs.Directory.Entry.same_bytes
    nextufs.Directory.Entry.dirent_size nextufs.Directory.Entry.bad_reclen
    nextufs.Directory.Entry.bad_name nextufs.Directory.Entry.dirent_at
    nextufs.Directory.Entry.read_dirent nextufs.Directory.Entry.stored_dirent
    nextufs.Directory.Entry.refused_entry nextufs.Directory.Entry.write_dirent_raw
    nextufs.Mutate.Dirent.or_einval nextufs.Mutate.Dirent.place_here nextufs.Mutate.Dirent.try_place
    nextufs.Mutate.Dirent.place_dirent nextufs.Mutate.Drop.is_dot nextufs.Mutate.Drop.is_dotdot
    nextufs.Mutate.Drop.has_name nextufs.Mutate.Drop.merge_into nextufs.Mutate.Drop.unlink_entry
    nextufs.Mutate.Drop.drop_here nextufs.Mutate.Drop.try_drop nextufs.Mutate.Drop.drop_dirent
    nextufs.Mutate.Drop.drop_in_chunk nextufs.Directory.Listing.listing
    nextufs.Directory.Listing.listed nextufs.Directory.Listing.name_list nextufs.Codec.read_be32
    nextufs.Codec.read_be16 nextufs.Codec.write_be16 nextufs.Codec.write_be32
read_dirent-name_example =
    read_dirent-name dirblk 1024 24 (dirent_at dirblk 24) a_read (omega arith)

abbrev pub with_b : Bytes
with_b = or_old dirblk (place_dirent name_b 6 dirblk 1024 9 0)

pub b_placed : place_dirent name_b 6 dirblk 1024 9 0 ≡ ok (some with_b)
unfolding nextufs.Directory.Entry.has_byte nextufs.Directory.Entry.same_bytes
    nextufs.Directory.Entry.dirent_size nextufs.Directory.Entry.bad_reclen
    nextufs.Directory.Entry.bad_name nextufs.Directory.Entry.dirent_at
    nextufs.Directory.Entry.read_dirent nextufs.Directory.Entry.stored_dirent
    nextufs.Directory.Entry.refused_entry nextufs.Directory.Entry.write_dirent_raw
    nextufs.Mutate.Dirent.or_einval nextufs.Mutate.Dirent.place_here nextufs.Mutate.Dirent.try_place
    nextufs.Mutate.Dirent.place_dirent nextufs.Mutate.Drop.is_dot nextufs.Mutate.Drop.is_dotdot
    nextufs.Mutate.Drop.has_name nextufs.Mutate.Drop.merge_into nextufs.Mutate.Drop.unlink_entry
    nextufs.Mutate.Drop.drop_here nextufs.Mutate.Drop.try_drop nextufs.Mutate.Drop.drop_dirent
    nextufs.Mutate.Drop.drop_in_chunk nextufs.Directory.Listing.listing
    nextufs.Directory.Listing.listed nextufs.Directory.Listing.name_list nextufs.Codec.read_be32
    nextufs.Codec.read_be16 nextufs.Codec.write_be16 nextufs.Codec.write_be32
b_placed = refl

place_dirent-listing_example :
    (before : List Link) × (after : List Link) × (the_links ≡ before ++ after)
    × (listing with_b 1024 10 0 ≡ some (before ++ (6, name_list name_b.chars 1) ∷ after))
place_dirent-listing_example =
    place_dirent-listing name_b 6 (omega arith) (λ i lt. omega arith) (omega arith) (omega arith)
      dirblk with_b 1024 9 0 the_links dirblk-listing b_placed

-- A block whose entries `x` and `b` are in use and the one between them, of 16 bytes, is not: what
-- removals of the first two of three names and a new name in the first place leave.
abbrev gap_block : Bytes
gap_block i =
    if i == 3
    then 7
    else if i == 5
    then 12
    else if i == 7 || i == 35
    then 1
    else if i == 8
    then 120
    else if i == 17
    then 16
    else if i == 31
    then 8
    else if i == 32
    then 3
    else if i == 33
    then 228
    else if i == 36
    then 98
    else 0

gap_listing : listing gap_block 1024 9 0 ≡ some ((7, 120 ∷ []) ∷ (8, 98 ∷ []) ∷ [])
unfolding nextufs.Directory.Entry.has_byte nextufs.Directory.Entry.same_bytes
    nextufs.Directory.Entry.dirent_size nextufs.Directory.Entry.bad_reclen
    nextufs.Directory.Entry.bad_name nextufs.Directory.Entry.dirent_at
    nextufs.Directory.Entry.read_dirent nextufs.Directory.Entry.stored_dirent
    nextufs.Directory.Entry.refused_entry nextufs.Directory.Entry.write_dirent_raw
    nextufs.Mutate.Dirent.or_einval nextufs.Mutate.Dirent.place_here nextufs.Mutate.Dirent.try_place
    nextufs.Mutate.Dirent.place_dirent nextufs.Mutate.Drop.is_dot nextufs.Mutate.Drop.is_dotdot
    nextufs.Mutate.Drop.has_name nextufs.Mutate.Drop.merge_into nextufs.Mutate.Drop.unlink_entry
    nextufs.Mutate.Drop.drop_here nextufs.Mutate.Drop.try_drop nextufs.Mutate.Drop.drop_dirent
    nextufs.Mutate.Drop.drop_in_chunk nextufs.Directory.Listing.listing
    nextufs.Directory.Listing.listed nextufs.Directory.Listing.name_list nextufs.Codec.read_be32
    nextufs.Codec.read_be16 nextufs.Codec.write_be16 nextufs.Codec.write_be32
gap_listing = refl

abbrev or_undropped : Bytes → Dropped → Bytes
or_undropped b (ok (some (b', removed))) = b'
or_undropped b _ = b

-- The removal of `b` makes `x` longer by the length of `b`: the next entry is looked for at 1008, short
-- of the end of the block, and the block cannot be read any more.
gap_removal :
    listing (or_undropped gap_block (drop_in_chunk name_b gap_block 1024 9 0)) 1024 9 0 ≡ none
unfolding nextufs.Directory.Entry.has_byte nextufs.Directory.Entry.same_bytes
    nextufs.Directory.Entry.dirent_size nextufs.Directory.Entry.bad_reclen
    nextufs.Directory.Entry.bad_name nextufs.Directory.Entry.dirent_at
    nextufs.Directory.Entry.read_dirent nextufs.Directory.Entry.stored_dirent
    nextufs.Directory.Entry.refused_entry nextufs.Directory.Entry.write_dirent_raw
    nextufs.Mutate.Dirent.or_einval nextufs.Mutate.Dirent.place_here nextufs.Mutate.Dirent.try_place
    nextufs.Mutate.Dirent.place_dirent nextufs.Mutate.Drop.is_dot nextufs.Mutate.Drop.is_dotdot
    nextufs.Mutate.Drop.has_name nextufs.Mutate.Drop.merge_into nextufs.Mutate.Drop.unlink_entry
    nextufs.Mutate.Drop.drop_here nextufs.Mutate.Drop.try_drop nextufs.Mutate.Drop.drop_dirent
    nextufs.Mutate.Drop.drop_in_chunk nextufs.Directory.Listing.listing
    nextufs.Directory.Listing.listed nextufs.Directory.Listing.name_list nextufs.Codec.read_be32
    nextufs.Codec.read_be16 nextufs.Codec.write_be16 nextufs.Codec.write_be32
gap_removal = refl
