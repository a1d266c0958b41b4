-- ===== src/Tests/Paths.antt =====
-- Paths, permissions and symbolic links.
use mathlib.Core.List.{mem-cons_self, mem-cons_of_mem}
use nextufs.Base.{
  ℕ, ◌+◌, ◌^◌, inr, ◌-◌, ◌/◌, ◌%◌, ◌≤◌, ◌<◌, ◌≡◌, refl, arith, ◌↔◌, true, [], ◌∷◌, none, Bytes,
  zeros, ok, err, eio, eacces, enotdir, within, if◌then◌else◌,
}
use nextufs.Disk.{Dev}
use nextufs.Inode.{Inode, encode_inode}
use nextufs.File.Symlink.{
  store_inline_symlink, decode_inline_symlink, decode_inline_symlink-store_inline_symlink,
}
use nextufs.Disk.Recovery.{in_transaction}
use nextufs.Mutate.Unlink.{unlink_body}
use nextufs.Mutate.UnlinkLog.{unlink_body-restores}
use nextufs.Access.{WriteCtx, write_su, node_check_access}
use nextufs.Access.Classes.{Class, group, node_check_access-Class}
use nextufs.Path.{Text, node_lookup, path_split}
use nextufs.Path.Still.{node_lookup-still}
use nextufs.Tests.Device.{device, device-Stores, idle}
use nextufs.Tests.Volume.{volume, file, empty_file, text}
use nextufs.Tests.Names.{directory, directory_disk}

-- the directory is inode 2, whose slot starts at 20736, and the file is inode 5
abbrev tree_disk : Bytes
tree_disk i =
    if within 20736 128 i
    then encode_inode directory (i - 20736)
    else if within 21120 128 i
    then encode_inode file (i - 21120)
    else directory_disk i

-- `/a` and `/a/a`
abbrev path_a : Text
path_a = 47 ∷ 97 ∷ []

abbrev path_a_a : Text
path_a_a = 47 ∷ 97 ∷ 47 ∷ 97 ∷ []

a_parts : path_split 4096 256 path_a_a ≡ ok (path_a, 97 ∷ [])
unfolding nextufs.Path.node_lookup nextufs.Path.lookup_path nextufs.Path.walk_pieces
    nextufs.Path.step_to nextufs.Path.link_target nextufs.Path.link_path
    nextufs.Path.append_path_component nextufs.Path.may_search nextufs.Path.given_m
    nextufs.Path.node_at nextufs.Path.skip_slashes nextufs.Path.pieces nextufs.Path.fitting
    nextufs.Path.text_length nextufs.Path.text_bytes nextufs.Path.c_string nextufs.Path.split_last
    nextufs.Path.fitted_parts nextufs.Path.path_split nextufs.Geometry.image_validate
    nextufs.Geometry.bad_superblock nextufs.Geometry.bad_masks nextufs.Geometry.bad_cylinders
    nextufs.Geometry.bad_sizes nextufs.Geometry.bad_groups nextufs.Geometry.bad_tables
    nextufs.Geometry.bad_extent nextufs.File.resolve_file_block_frag nextufs.File.resolve_frag_from
    nextufs.File.read_chunk nextufs.File.read_blocks nextufs.File.inode_read_data
    nextufs.Directory.Iterate.directory_block nextufs.Directory.Entry.has_byte
    nextufs.Directory.Entry.same_bytes nextufs.Directory.Entry.dirent_size
    nextufs.Directory.Entry.bad_reclen nextufs.Directory.Entry.bad_name
    nextufs.Directory.Entry.dirent_at nextufs.Directory.Entry.read_dirent
    nextufs.Directory.Iterate.walk_entries nextufs.Directory.Iterate.visit
    nextufs.Directory.Iterate.iterate_blocks nextufs.Directory.Iterate.directory_iterate
    nextufs.Directory.Iterate.find_name_cb nextufs.Directory.Iterate.find_name_in_directory
    nextufs.Inode.Io.accept_inode nextufs.Inode.Io.inode_read nextufs.Inode.decode_inode
    nextufs.Disk.read_exact nextufs.Disk.pure nextufs.Disk.fail nextufs.Codec.read_be32
    nextufs.Codec.read_be16 nextufs.Codec.read_be64 nextufs.Layout.cgstart
    nextufs.Layout.inode_offset nextufs.Access.node_check_access nextufs.Access.class_bits
    nextufs.Access.member nextufs.Disk.◌>>=◌
a_parts = refl

file_no_directory :
    (node_lookup device volume true none path_a_a (idle tree_disk 0)).0 ≡ err enotdir
unfolding nextufs.Path.node_lookup nextufs.Path.lookup_path nextufs.Path.walk_pieces
    nextufs.Path.step_to nextufs.Path.link_target nextufs.Path.link_path
    nextufs.Path.append_path_component nextufs.Path.may_search nextufs.Path.given_m
    nextufs.Path.node_at nextufs.Path.skip_slashes nextufs.Path.pieces nextufs.Path.fitting
    nextufs.Path.text_length nextufs.Path.text_bytes nextufs.Path.c_string nextufs.Path.split_last
    nextufs.Path.fitted_parts nextufs.Path.path_split nextufs.Geometry.image_validate
    nextufs.Geometry.bad_superblock nextufs.Geometry.bad_masks nextufs.Geometry.bad_cylinders
    nextufs.Geometry.bad_sizes nextufs.Geometry.bad_groups nextufs.Geometry.bad_tables
    nextufs.Geometry.bad_extent nextufs.File.resolve_file_block_frag nextufs.File.resolve_frag_from
    nextufs.File.read_chunk nextufs.File.read_blocks nextufs.File.inode_read_data
    nextufs.Directory.Iterate.directory_block nextufs.Directory.Entry.has_byte
    nextufs.Directory.Entry.same_bytes nextufs.Directory.Entry.dirent_size
    nextufs.Directory.Entry.bad_reclen nextufs.Directory.Entry.bad_name
    nextufs.Directory.Entry.dirent_at nextufs.Directory.Entry.read_dirent
    nextufs.Directory.Iterate.walk_entries nextufs.Directory.Iterate.visit
    nextufs.Directory.Iterate.iterate_blocks nextufs.Directory.Iterate.directory_iterate
    nextufs.Directory.Iterate.find_name_cb nextufs.Directory.Iterate.find_name_in_directory
    nextufs.Inode.Io.accept_inode nextufs.Inode.Io.inode_read nextufs.Inode.decode_inode
    nextufs.Disk.read_exact nextufs.Disk.pure nextufs.Disk.fail nextufs.Codec.read_be32
    nextufs.Codec.read_be16 nextufs.Codec.read_be64 nextufs.Layout.cgstart
    nextufs.Layout.inode_offset nextufs.Access.node_check_access nextufs.Access.class_bits
    nextufs.Access.member nextufs.Disk.◌>>=◌ nextufs.Inode.encode_inode nextufs.Codec.write_be16
    nextufs.Codec.write_be32 nextufs.Codec.write_be64
file_no_directory = refl

node_lookup-still_example :
    (node_lookup device volume true none path_a_a (idle tree_disk 0)).1 ≡ idle tree_disk 0
node_lookup-still_example =
    node_lookup-still device device-Stores volume true none path_a_a (idle tree_disk 0)

-- A file with mode 0464, which its owner may only read, and its group may write.
abbrev owned : Inode
owned = record empty_file { uid = 7; gid = 8; mode = 33076 }

-- user 9 has its group as a further group
further_group : Class owned 9 20 (21 ∷ 8 ∷ []) 3
further_group = group (omega arith) (inr (mem-cons_of_mem 21 mem-cons_self))

node_check_access-Class_example : (node_check_access owned 9 20 (21 ∷ 8 ∷ []) 2 true ≡ ok tt) ↔ (
    (2 / 4 % 2 ≤ 33076 / 2 ^ (3 + 2) % 2)
    × (2 / 2 % 2 ≤ 33076 / 2 ^ (3 + 1) % 2)
    × (2 % 2 ≤ 33076 / 2 ^ 3 % 2))
node_check_access-Class_example =
    node_check_access-Class owned 9 20 (21 ∷ 8 ∷ []) 2 further_group (omega arith) (omega arith)

owner_does_not : node_check_access owned 7 8 [] 2 true ≡ err eacces
unfolding nextufs.Path.node_lookup nextufs.Path.lookup_path nextufs.Path.walk_pieces
    nextufs.Path.step_to nextufs.Path.link_target nextufs.Path.link_path
    nextufs.Path.append_path_component nextufs.Path.may_search nextufs.Path.given_m
    nextufs.Path.node_at nextufs.Path.skip_slashes nextufs.Path.pieces nextufs.Path.fitting
    nextufs.Path.text_length nextufs.Path.text_bytes nextufs.Path.c_string nextufs.Path.split_last
    nextufs.Path.fitted_parts nextufs.Path.path_split nextufs.Geometry.image_validate
    nextufs.Geometry.bad_superblock nextufs.Geometry.bad_masks nextufs.Geometry.bad_cylinders
    nextufs.Geometry.bad_sizes nextufs.Geometry.bad_groups nextufs.Geometry.bad_tables
    nextufs.Geometry.bad_extent nextufs.File.resolve_file_block_frag nextufs.File.resolve_frag_from
    nextufs.File.read_chunk nextufs.File.read_blocks nextufs.File.inode_read_data
    nextufs.Directory.Iterate.directory_block nextufs.Directory.Entry.has_byte
    nextufs.Directory.Entry.same_bytes nextufs.Directory.Entry.dirent_size
    nextufs.Directory.Entry.bad_reclen nextufs.Directory.Entry.bad_name
    nextufs.Directory.Entry.dirent_at nextufs.Directory.Entry.read_dirent
    nextufs.Directory.Iterate.walk_entries nextufs.Directory.Iterate.visit
    nextufs.Directory.Iterate.iterate_blocks nextufs.Directory.Iterate.directory_iterate
    nextufs.Directory.Iterate.find_name_cb nextufs.Directory.Iterate.find_name_in_directory
    nextufs.Inode.Io.accept_inode nextufs.Inode.Io.inode_read nextufs.Inode.decode_inode
    nextufs.Disk.read_exact nextufs.Disk.pure nextufs.Disk.fail nextufs.Codec.read_be32
    nextufs.Codec.read_be16 nextufs.Codec.read_be64 nextufs.Layout.cgstart
    nextufs.Layout.inode_offset nextufs.Access.node_check_access nextufs.Access.class_bits
    nextufs.Access.member nextufs.Disk.◌>>=◌
owner_does_not = refl

group_writes : node_check_access owned 9 20 (21 ∷ 8 ∷ []) 2 true ≡ ok tt
unfolding nextufs.Path.node_lookup nextufs.Path.lookup_path nextufs.Path.walk_pieces
    nextufs.Path.step_to nextufs.Path.link_target nextufs.Path.link_path
    nextufs.Path.append_path_component nextufs.Path.may_search nextufs.Path.given_m
    nextufs.Path.node_at nextufs.Path.skip_slashes nextufs.Path.pieces nextufs.Path.fitting
    nextufs.Path.text_length nextufs.Path.text_bytes nextufs.Path.c_string nextufs.Path.split_last
    nextufs.Path.fitted_parts nextufs.Path.path_split nextufs.Geometry.image_validate
    nextufs.Geometry.bad_superblock nextufs.Geometry.bad_masks nextufs.Geometry.bad_cylinders
    nextufs.Geometry.bad_sizes nextufs.Geometry.bad_groups nextufs.Geometry.bad_tables
    nextufs.Geometry.bad_extent nextufs.File.resolve_file_block_frag nextufs.File.resolve_frag_from
    nextufs.File.read_chunk nextufs.File.read_blocks nextufs.File.inode_read_data
    nextufs.Directory.Iterate.directory_block nextufs.Directory.Entry.has_byte
    nextufs.Directory.Entry.same_bytes nextufs.Directory.Entry.dirent_size
    nextufs.Directory.Entry.bad_reclen nextufs.Directory.Entry.bad_name
    nextufs.Directory.Entry.dirent_at nextufs.Directory.Entry.read_dirent
    nextufs.Directory.Iterate.walk_entries nextufs.Directory.Iterate.visit
    nextufs.Directory.Iterate.iterate_blocks nextufs.Directory.Iterate.directory_iterate
    nextufs.Directory.Iterate.find_name_cb nextufs.Directory.Iterate.find_name_in_directory
    nextufs.Inode.Io.accept_inode nextufs.Inode.Io.inode_read nextufs.Inode.decode_inode
    nextufs.Disk.read_exact nextufs.Disk.pure nextufs.Disk.fail nextufs.Codec.read_be32
    nextufs.Codec.read_be16 nextufs.Codec.read_be64 nextufs.Layout.cgstart
    nextufs.Layout.inode_offset nextufs.Access.node_check_access nextufs.Access.class_bits
    nextufs.Access.member nextufs.Disk.◌>>=◌
group_writes = refl

abbrev short_link : Inode
short_link = record empty_file { mode = 0o120777; flags = 1; size = 5 }

decode_inline_symlink-store_inline_symlink_example :
    ((decode_inline_symlink (store_inline_symlink short_link text 5) zeros 100).1 ≡ 5)
    × ((i : ℕ)
        → i < 5
        → (decode_inline_symlink (store_inline_symlink short_link text 5) zeros 100).0 i ≡ text i)
    × ((decode_inline_symlink (store_inline_symlink short_link text 5) zeros 100).0 5 ≡ 0)
decode_inline_symlink-store_inline_symlink_example =
    decode_inline_symlink-store_inline_symlink short_link text zeros 5 100 (λ i. omega arith)
      (omega arith) (omega arith) (omega arith) refl (omega arith) refl

abbrev anyone : WriteCtx
anyone = record { policy = write_su; uid = 0; gid = 0; groups = [] }

-- the fourth write fails, after the name is gone from the directory
unlink_fails :
    (in_transaction device
      (unlink_body device volume anyone path_a (47 ∷ [], 97 ∷ []))
      (idle tree_disk 4)).0
    ≡ err eio
unfolding nextufs.Path.node_lookup nextufs.Path.lookup_path nextufs.Path.walk_pieces
    nextufs.Path.step_to nextufs.Path.link_target nextufs.Path.link_path
    nextufs.Path.append_path_component nextufs.Path.may_search nextufs.Path.given_m
    nextufs.Path.node_at nextufs.Path.skip_slashes nextufs.Path.pieces nextufs.Path.fitting
    nextufs.Path.text_length nextufs.Path.text_bytes nextufs.Mutate.Unlink.on_node
    nextufs.Mutate.Unlink.unlink_found nextufs.Mutate.Unlink.unlink_body
    nextufs.Access.require_user_access nextufs.Access.require_parent_mutation
    nextufs.Access.check_sticky_parent nextufs.Access.node_check_access nextufs.Access.class_bits
    nextufs.Access.member nextufs.Mutate.Inodes.remove_linked_inode nextufs.Mutate.Inodes.last_link
    nextufs.Mutate.Inodes.release_node nextufs.Alloc.Storage.free_file_storage
    nextufs.Alloc.Storage.free_mapped nextufs.Alloc.Storage.free_blocks
    nextufs.Alloc.Storage.free_block nextufs.Alloc.Storage.free_tree
    nextufs.Alloc.Indirect.free_indirect_metadata_tree nextufs.Alloc.Indirect.free_children
    nextufs.Alloc.Groups.free_inode_in_group nextufs.Disk.image_fsync
    nextufs.Mutate.Removal.remove_dirent nextufs.Disk.Recovery.in_transaction
    nextufs.Disk.transaction_begin nextufs.Disk.transaction_end nextufs.Disk.replay
    nextufs.Disk.seen nextufs.Disk.read_exact nextufs.Disk.write_exact nextufs.Disk.record_in
    nextufs.Disk.saved nextufs.Disk.transaction_record nextufs.Disk.backend_write nextufs.Disk.pure
    nextufs.Disk.fail nextufs.Alloc.Runs.allocate_frags_anycg nextufs.Alloc.Groups.reserve_available
    nextufs.Alloc.Groups.groups_from nextufs.Alloc.Runs.allocate_frags_in_group
    nextufs.Alloc.Groups.read_group nextufs.Layout.cg_block_offset nextufs.Codec.read_be32
    nextufs.Alloc.Runs.bad_limit nextufs.Group.Search.find_partial nextufs.Group.block_is_free
    nextufs.Bits.bit nextufs.Bits.Table.test_bit nextufs.Alloc.Groups.write_group
    nextufs.Alloc.Runs.finish_free nextufs.Alloc.Runs.finish_partial nextufs.Alloc.Runs.finish_whole
    nextufs.Alloc.Runs.free_fragment_run nextufs.Group.clear_block_bits nextufs.Bits.Table.clear_bit
    nextufs.Bits.Table.set_bit nextufs.Bits.lower nextufs.Bits.raise nextufs.Codec.read_be16
    nextufs.Codec.write_be16 nextufs.Codec.write_be32 nextufs.Group.Search.find_start
    nextufs.Group.Search.find_whole nextufs.Group.Take.raise_run nextufs.Group.Take.rotational
    nextufs.Group.Take.settle_freed nextufs.Group.Take.take_partial nextufs.Group.Take.take_whole
    nextufs.Group.apply_cg_frsum_delta nextufs.Group.bump nextufs.Group.count_free_runs_in_block
    nextufs.Group.count_runs_from nextufs.Group.frsum_upto nextufs.Group.run_length
    nextufs.Group.set_run_bits nextufs.Layout.cgstart nextufs.Summary.add_change
    nextufs.Summary.update_summary_counts nextufs.Alloc.Runs.extend_fragment_run
    nextufs.Alloc.OnInode.inode nextufs.Alloc.OnInode.on_disk nextufs.Alloc.OnInode.done
    nextufs.Alloc.OnInode.stop nextufs.Alloc.OnInode.store_inode
    nextufs.Alloc.Storage.resolve_inode_data_block nextufs.Alloc.Storage.resolve_from_slot
    nextufs.Alloc.Indirect.resolve_indirect_data_block nextufs.Alloc.Indirect.read_indirect_entry
    nextufs.Alloc.Storage.set_inode_data_block nextufs.Geometry.image_validate
    nextufs.Geometry.bad_superblock nextufs.Geometry.bad_masks nextufs.Geometry.bad_cylinders
    nextufs.Geometry.bad_sizes nextufs.Geometry.bad_groups nextufs.Geometry.bad_tables
    nextufs.Geometry.bad_extent nextufs.File.resolve_file_block_frag nextufs.File.resolve_frag_from
    nextufs.File.resolve_indirect_block_frag nextufs.File.read_entry nextufs.File.read_chunk
    nextufs.File.read_blocks nextufs.File.inode_read_data nextufs.File.or_eio
    nextufs.Directory.Iterate.directory_block nextufs.Directory.Entry.has_byte
    nextufs.Directory.Entry.same_bytes nextufs.Directory.Entry.dirent_size
    nextufs.Directory.Entry.bad_reclen nextufs.Directory.Entry.bad_name
    nextufs.Directory.Entry.dirent_at nextufs.Directory.Entry.read_dirent
    nextufs.Directory.Entry.stored_dirent nextufs.Directory.Entry.refused_entry
    nextufs.Directory.Entry.write_dirent_raw nextufs.Directory.Iterate.walk_entries
    nextufs.Directory.Iterate.visit nextufs.Directory.Iterate.iterate_blocks
    nextufs.Directory.Iterate.directory_iterate nextufs.Directory.Iterate.find_name_cb
    nextufs.Directory.Iterate.find_name_in_directory nextufs.Mutate.Dirent.or_einval
    nextufs.Mutate.Dirent.place_here nextufs.Mutate.Dirent.try_place
    nextufs.Mutate.Dirent.place_dirent nextufs.Mutate.Directory.given
    nextufs.Mutate.Directory.node_get_by_inode nextufs.Mutate.Directory.update_node_times
    nextufs.Mutate.Directory.grow_directory_by_dirblk nextufs.Mutate.Directory.mapped_block
    nextufs.Mutate.Directory.store_placed nextufs.Mutate.Directory.insert_in_blocks
    nextufs.Mutate.Directory.insert_in_new_block nextufs.Mutate.Directory.insert_dirent
    nextufs.Mutate.Drop.is_dot nextufs.Mutate.Drop.is_dotdot nextufs.Mutate.Drop.has_name
    nextufs.Mutate.Drop.merge_into nextufs.Mutate.Drop.unlink_entry nextufs.Mutate.Drop.drop_here
    nextufs.Mutate.Drop.try_drop nextufs.Mutate.Drop.drop_dirent nextufs.Mutate.Drop.drop_in_chunk
    nextufs.Mutate.Removal.or_invalid nextufs.Mutate.Removal.store_dropped
    nextufs.Mutate.Removal.or_further nextufs.Mutate.Removal.remove_from_blocks
    nextufs.Inode.Io.accept_inode nextufs.Inode.Io.inode_read nextufs.Inode.decode_inode
    nextufs.Directory.Listing.listing nextufs.Directory.Listing.listed
    nextufs.Directory.Listing.name_list nextufs.Inode.Io.write_inode_raw nextufs.Layout.inode_offset
    nextufs.Inode.encode_inode nextufs.Codec.read_be64 nextufs.Codec.write_be64 nextufs.Disk.◌>>=◌
    nextufs.Alloc.OnInode.◌>>=◌ nextufs.Alloc.OnInode.fails_as
unlink_fails = refl

unlink_body-restores_example :
    (in_transaction device
        (unlink_body device volume anyone path_a (47 ∷ [], 97 ∷ []))
        (idle tree_disk 4)).1.store.0
      24593
    ≡ 12
unlink_body-restores_example =
    unlink_body-restores device device-Stores (idle tree_disk 4) eio 24593 volume anyone path_a
      (47 ∷ []) (97 ∷ []) (omega arith) unlink_fails
