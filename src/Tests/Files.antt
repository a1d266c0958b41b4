-- ===== src/Tests/Files.antt =====
-- Changes of the size and the data of a file, on the volume.
use nextufs.Base.{◌≡◌, refl, arith, err, eio}
use nextufs.Disk.{Dev, transaction_begin, transaction_end}
use nextufs.Disk.Recovery.{in_transaction}
use nextufs.Inode.{Inode}
use nextufs.Alloc.Atomic.{outcome_on}
use nextufs.Mutate.File.{file_resize, file_write}
use nextufs.Mutate.Rollback.{file_resize-restores, file_write-restores}
use nextufs.Tests.Device.{device, device-Stores, device-NoStray, idle}
use nextufs.Tests.Volume.{volume, disk, file, text}
use nextufs.Tests.Rollbacks.{header_time}

file_shortened :
    (in_transaction device (outcome_on (file_resize device volume 5 500) file) (idle disk 3)).0
    ≡ err eio
unfolding nextufs.Disk.Recovery.in_transaction nextufs.Disk.transaction_begin
    nextufs.Disk.transaction_end nextufs.Disk.replay nextufs.Disk.seen nextufs.Disk.read_exact
    nextufs.Disk.write_exact nextufs.Disk.record_in nextufs.Disk.saved
    nextufs.Disk.transaction_record nextufs.Disk.backend_write nextufs.Disk.pure nextufs.Disk.fail
    nextufs.Alloc.Runs.allocate_frags_anycg nextufs.Alloc.Groups.reserve_available
    nextufs.Alloc.Groups.groups_from nextufs.Alloc.Runs.allocate_frags_in_group
    nextufs.Alloc.Groups.read_group nextufs.Layout.cg_block_offset nextufs.Codec.read_be32
    nextufs.Alloc.Runs.bad_limit nextufs.Group.Search.find_partial nextufs.Group.block_is_free
    nextufs.Bits.bit nextufs.Bits.Table.test_bit nextufs.Alloc.Groups.write_group
    nextufs.Alloc.Runs.finish_free nextufs.Alloc.Runs.finish_partial nextufs.Alloc.Runs.finish_whole
    nextufs.Alloc.Runs.free_fragment_run nextufs.Group.clear_block_bits nextufs.Bits.Table.clear_bit
    nextufs.Bits.Table.set_bit nextufs.Bits.lower nextufs.Bits.raise nextufs.Codec.read_be16
    nextufs.Codec.write_be16 nextufs.Codec.write_be32 nextufs.Group.Search.find_start
    nextufs.Group.Search.find_whole nextufs.Group.Take.raise_run nextufs.Group.Take.rotational
    nextufs.Group.Take.settle_freed nextufs.Group.Take.take_partial nextufs.Group.Take.take_whole
    nextufs.Group.apply_cg_frsum_delta nextufs.Group.bump nextufs.Group.count_free_runs_in_block
    nextufs.Group.count_runs_from nextufs.Group.frsum_upto nextufs.Group.run_length
    nextufs.Group.set_run_bits nextufs.Layout.cgstart nextufs.Summary.add_change
    nextufs.Summary.update_summary_counts nextufs.Alloc.Runs.extend_fragment_run
    nextufs.Alloc.OnInode.inode nextufs.Alloc.OnInode.on_disk nextufs.Alloc.OnInode.done
    nextufs.Alloc.OnInode.stop nextufs.Alloc.OnInode.store_inode
    nextufs.Alloc.Storage.resolve_inode_data_block nextufs.Alloc.Storage.resolve_from_slot
    nextufs.Alloc.Indirect.resolve_indirect_data_block nextufs.Alloc.Indirect.read_indirect_entry
    nextufs.Alloc.Storage.set_inode_data_block nextufs.Mutate.Blocks.size_valid
    nextufs.Mutate.Blocks.file_frags nextufs.Mutate.Blocks.room_for nextufs.Mutate.Blocks.kept_bytes
    nextufs.Mutate.Blocks.or_elsewhere nextufs.Mutate.File.grow_block
    nextufs.Mutate.Blocks.prune_entry nextufs.Mutate.Blocks.prune_entries
    nextufs.Mutate.Blocks.prune_root nextufs.Mutate.Blocks.prune_tree nextufs.Mutate.File.free_tail
    nextufs.Mutate.File.free_directs nextufs.Mutate.File.prune_slot nextufs.Mutate.File.prune_slots
    nextufs.Mutate.File.zero_tail nextufs.Mutate.File.shrink nextufs.Mutate.File.grow_old_tail
    nextufs.Mutate.File.grow nextufs.Mutate.File.resized nextufs.Mutate.File.file_resize
    nextufs.Mutate.File.written_frag nextufs.Mutate.File.write_part nextufs.Mutate.File.write_blocks
    nextufs.Mutate.File.file_write nextufs.Mutate.File.finish_inode nextufs.Inode.Io.write_inode_raw
    nextufs.Layout.inode_offset nextufs.Inode.encode_inode nextufs.Disk.◌>>=◌
    nextufs.Alloc.OnInode.◌>>=◌
file_shortened = refl

file_resize-restores_example :
    (in_transaction device
        (outcome_on (file_resize device volume 5 500) file)
        (idle disk 3)).1.store.0
      header_time
    ≡ 0
file_resize-restores_example =
    file_resize-restores device device-Stores (idle disk 3) eio header_time volume file 5 500
      device-NoStray (omega arith) file_shortened

file_appended :
    (in_transaction device
      (outcome_on (file_write device volume 5 text 900 1400) file)
      (idle disk 4)).0
    ≡ err eio
unfolding nextufs.Disk.Recovery.in_transaction nextufs.Disk.transaction_begin
    nextufs.Disk.transaction_end nextufs.Disk.replay nextufs.Disk.seen nextufs.Disk.read_exact
    nextufs.Disk.write_exact nextufs.Disk.record_in nextufs.Disk.saved
    nextufs.Disk.transaction_record nextufs.Disk.backend_write nextufs.Disk.pure nextufs.Disk.fail
    nextufs.Alloc.Runs.allocate_frags_anycg nextufs.Alloc.Groups.reserve_available
    nextufs.Alloc.Groups.groups_from nextufs.Alloc.Runs.allocate_frags_in_group
    nextufs.Alloc.Groups.read_group nextufs.Layout.cg_block_offset nextufs.Codec.read_be32
    nextufs.Alloc.Runs.bad_limit nextufs.Group.Search.find_partial nextufs.Group.block_is_free
    nextufs.Bits.bit nextufs.Bits.Table.test_bit nextufs.Alloc.Groups.write_group
    nextufs.Alloc.Runs.finish_free nextufs.Alloc.Runs.finish_partial nextufs.Alloc.Runs.finish_whole
    nextufs.Alloc.Runs.free_fragment_run nextufs.Group.clear_block_bits nextufs.Bits.Table.clear_bit
    nextufs.Bits.Table.set_bit nextufs.Bits.lower nextufs.Bits.raise nextufs.Codec.read_be16
    nextufs.Codec.write_be16 nextufs.Codec.write_be32 nextufs.Group.Search.find_start
    nextufs.Group.Search.find_whole nextufs.Group.Take.raise_run nextufs.Group.Take.rotational
    nextufs.Group.Take.settle_freed nextufs.Group.Take.take_partial nextufs.Group.Take.take_whole
    nextufs.Group.apply_cg_frsum_delta nextufs.Group.bump nextufs.Group.count_free_runs_in_block
    nextufs.Group.count_runs_from nextufs.Group.frsum_upto nextufs.Group.run_length
    nextufs.Group.set_run_bits nextufs.Layout.cgstart nextufs.Summary.add_change
    nextufs.Summary.update_summary_counts nextufs.Alloc.Runs.extend_fragment_run
    nextufs.Alloc.OnInode.inode nextufs.Alloc.OnInode.on_disk nextufs.Alloc.OnInode.done
    nextufs.Alloc.OnInode.stop nextufs.Alloc.OnInode.store_inode
    nextufs.Alloc.Storage.resolve_inode_data_block nextufs.Alloc.Storage.resolve_from_slot
    nextufs.Alloc.Indirect.resolve_indirect_data_block nextufs.Alloc.Indirect.read_indirect_entry
    nextufs.Alloc.Storage.set_inode_data_block nextufs.Mutate.Blocks.size_valid
    nextufs.Mutate.Blocks.file_frags nextufs.Mutate.Blocks.room_for nextufs.Mutate.Blocks.kept_bytes
    nextufs.Mutate.Blocks.or_elsewhere nextufs.Mutate.File.grow_block
    nextufs.Mutate.Blocks.prune_entry nextufs.Mutate.Blocks.prune_entries
    nextufs.Mutate.Blocks.prune_root nextufs.Mutate.Blocks.prune_tree nextufs.Mutate.File.free_tail
    nextufs.Mutate.File.free_directs nextufs.Mutate.File.prune_slot nextufs.Mutate.File.prune_slots
    nextufs.Mutate.File.zero_tail nextufs.Mutate.File.shrink nextufs.Mutate.File.grow_old_tail
    nextufs.Mutate.File.grow nextufs.Mutate.File.resized nextufs.Mutate.File.file_resize
    nextufs.Mutate.File.written_frag nextufs.Mutate.File.write_part nextufs.Mutate.File.write_blocks
    nextufs.Mutate.File.file_write nextufs.Mutate.File.finish_inode nextufs.Inode.Io.write_inode_raw
    nextufs.Layout.inode_offset nextufs.Inode.encode_inode nextufs.Disk.◌>>=◌
    nextufs.Alloc.OnInode.◌>>=◌
file_appended = refl

file_write-restores_example :
    (in_transaction device
        (outcome_on (file_write device volume 5 text 900 1400) file)
        (idle disk 4)).1.store.0
      header_time
    ≡ 0
file_write-restores_example =
    file_write-restores device device-Stores (idle disk 4) eio header_time volume file 5 text 900
      1400 device-NoStray (omega arith) file_appended
