-- ===== src/Tests/Rollbacks.antt =====
-- Transactions that fail half way, on the volume: a write fails after some have gone through.
use nextufs.Alloc.Indirect.{attempt}
use nextufs.Base.{ℕ, ◌+◌, ◌==◌, not, [], some, Option, Result, ◌≡◌, refl, arith, err, eio}
use nextufs.Bits.{bit}
use nextufs.Bits.Table.{test_bit}
use nextufs.Codec.{read_be32}
use nextufs.Layout.{cg_block_offset}
use nextufs.Disk.{
  Dev, Env, Log, M, ◌>>=◌, ◌>>◌, fail, read_exact, write_exact, transaction_begin, transaction_end,
  replay,
}
use nextufs.Disk.Recovery.{in_transaction, in_transaction-restores}
use nextufs.Disk.Rollback.{Safe-Keeps, >>=-Safe}
use nextufs.Disk.Writes.{write_exact-Safe}
use nextufs.Group.Take.{find_inode}
use nextufs.Summary.{update_summary_counts}
use nextufs.Alloc.Atomic.{
  outcome, outcome_on, free_file_storage-restores, allocate_data_for_inode-restores,
}
use nextufs.Alloc.Groups.{
  groups_from, allocate_inode_one_group, allocate_inode_in_group, free_inode_in_group,
}
use nextufs.Alloc.Runs.{reallocate_fragment_run}
use nextufs.Alloc.Storage.{free_file_storage, allocate_data_for_inode}
use nextufs.Tests.Device.{Store, device, device-Stores, device-NoStray, idle}
use nextufs.Tests.Volume.{volume, disk, file, empty_file, text}

-- the low bytes of the time of change in the header of group 0, which each operation overwrites
abbrev pub header_time : ℕ
header_time = 16394

-- seven bytes are written, the second write fails
abbrev spoil : M Store (Unit {0})
spoil =
    write_exact device volume (λ i. 9) 7 header_time
    >> write_exact device volume (λ i. 8) 7 header_time

spoiled : (in_transaction device spoil (idle disk 2)).0 ≡ err eio
unfolding in_transaction transaction_begin transaction_end ◌>>=◌ write_exact replay
    nextufs.Disk.seen
spoiled = refl

in_transaction-restores_example :
    (in_transaction device spoil (idle disk 2)).1.store.0 header_time ≡ 0
in_transaction-restores_example =
    in_transaction-restores device device-Stores spoil (idle disk 2) eio header_time
      (λ original. Safe-Keeps device device-Stores original spoil (
        >>=-Safe device device-Stores original _ _
          (write_exact-Safe device device-Stores original volume (λ i. 9) 7 header_time)
          (λ _. write_exact-Safe device device-Stores original volume (λ i. 8) 7 header_time)))
      (omega arith) spoiled

inode_taken :
    (in_transaction device
      (outcome (allocate_inode_in_group device volume 0 33188))
      (idle disk 3)).0
    ≡ err eio
unfolding in_transaction transaction_begin transaction_end allocate_inode_in_group groups_from
    allocate_inode_one_group ◌>>=◌ read_exact cg_block_offset read_be32 find_inode bit test_bit
    write_exact update_summary_counts replay nextufs.Disk.seen
inode_taken = refl

inode_freed :
    (in_transaction device (outcome (free_inode_in_group device volume 2 33188)) (idle disk 3)).0
    ≡ err eio
unfolding in_transaction transaction_begin transaction_end free_inode_in_group ◌>>=◌
    nextufs.Alloc.Groups.read_group read_exact cg_block_offset read_be32 bit test_bit
    nextufs.Alloc.Groups.write_group write_exact update_summary_counts replay nextufs.Disk.seen
inode_freed = refl

storage_freed :
    (in_transaction device (outcome_on (free_file_storage device volume) file) (idle disk 3)).0
    ≡ err eio
unfolding in_transaction transaction_begin transaction_end free_file_storage
    nextufs.Alloc.OnInode.◌>>=◌ nextufs.Alloc.OnInode.inode nextufs.Alloc.OnInode.on_disk
    nextufs.Alloc.Storage.resolve_inode_data_block nextufs.Disk.pure
    nextufs.Alloc.Runs.free_fragment_run ◌>>=◌ nextufs.Alloc.Groups.read_group read_exact
    cg_block_offset read_be32 nextufs.Group.Take.raise_run bit test_bit
    nextufs.Alloc.Groups.write_group nextufs.Alloc.Indirect.free_children
    nextufs.Alloc.Indirect.free_indirect_metadata_tree nextufs.Alloc.Indirect.read_indirect_entry
    nextufs.Alloc.Indirect.resolve_indirect_data_block nextufs.Alloc.OnInode.done
    nextufs.Alloc.OnInode.store_inode nextufs.Alloc.Runs.finish_free
    nextufs.Alloc.Storage.cleared_link nextufs.Alloc.Storage.free_block
    nextufs.Alloc.Storage.free_blocks nextufs.Alloc.Storage.free_mapped
    nextufs.Alloc.Storage.free_tree nextufs.Alloc.Storage.resolve_from_slot
    nextufs.Bits.Table.set_bit nextufs.Bits.raise nextufs.Codec.read_be16 nextufs.Codec.write_be16
    nextufs.Codec.write_be32 nextufs.Disk.backend_write nextufs.Disk.record_in replay
    nextufs.Disk.seen nextufs.Disk.saved nextufs.Disk.transaction_record write_exact fail
    nextufs.Group.Take.rotational nextufs.Group.Take.settle_freed nextufs.Group.apply_cg_frsum_delta
    nextufs.Group.block_is_free nextufs.Group.bump nextufs.Group.count_free_runs_in_block
    nextufs.Group.count_runs_from nextufs.Group.frsum_upto nextufs.Group.run_length
    nextufs.Layout.cgstart nextufs.Summary.add_change update_summary_counts
storage_freed = refl

free_file_storage-restores_example :
    (in_transaction device
        (outcome_on (free_file_storage device volume) file)
        (idle disk 3)).1.store.0
      header_time
    ≡ 0
free_file_storage-restores_example =
    free_file_storage-restores device device-Stores (idle disk 3) eio header_time volume file
      (omega arith) storage_freed

data_allocated :
    (in_transaction device
      (outcome_on (allocate_data_for_inode device volume 0 text 1500) empty_file)
      (idle disk 4)).0
    ≡ err eio
unfolding in_transaction transaction_begin transaction_end allocate_data_for_inode
    nextufs.Alloc.OnInode.on_error nextufs.Alloc.OnInode.◌>>=◌ nextufs.Alloc.Storage.add_blocks
    nextufs.Alloc.Storage.add_block nextufs.Alloc.OnInode.on_disk
    nextufs.Alloc.Runs.allocate_frags_anycg ◌>>=◌ nextufs.Alloc.Groups.reserve_available groups_from
    nextufs.Alloc.Runs.allocate_frags_in_group nextufs.Alloc.Groups.read_group read_exact
    cg_block_offset read_be32 nextufs.Alloc.Runs.bad_limit nextufs.Group.Search.find_partial
    nextufs.Group.block_is_free bit test_bit nextufs.Group.set_run_bits
    nextufs.Alloc.Groups.write_group write_exact update_summary_counts
    nextufs.Alloc.Storage.set_inode_data_block nextufs.Alloc.OnInode.inode
    nextufs.Alloc.OnInode.store_inode free_file_storage
    nextufs.Alloc.Storage.resolve_inode_data_block nextufs.Alloc.Runs.free_fragment_run
    nextufs.Group.Take.take_partial nextufs.Alloc.Indirect.allocate_zeroed_full_block
    nextufs.Alloc.Indirect.child_block nextufs.Alloc.Indirect.free_children
    nextufs.Alloc.Indirect.free_indirect_metadata_tree nextufs.Alloc.Indirect.or_give_back
    nextufs.Alloc.Indirect.read_indirect_entry nextufs.Alloc.Indirect.resolve_indirect_data_block
    nextufs.Alloc.Indirect.set_indirect_data_block nextufs.Alloc.Indirect.write_indirect_entry
    nextufs.Alloc.OnInode.done nextufs.Alloc.OnInode.stop
    nextufs.Alloc.Runs.allocate_full_block_anycg nextufs.Alloc.Runs.finish_free
    nextufs.Alloc.Runs.finish_partial nextufs.Alloc.Runs.finish_whole
    nextufs.Alloc.Storage.cleared_link nextufs.Alloc.Storage.free_block
    nextufs.Alloc.Storage.free_blocks nextufs.Alloc.Storage.free_mapped
    nextufs.Alloc.Storage.free_tree nextufs.Alloc.Storage.indirect_root
    nextufs.Alloc.Storage.resolve_from_slot nextufs.Alloc.Storage.set_from_slot
    nextufs.Alloc.Storage.set_in_tree nextufs.Bits.Table.clear_bit nextufs.Bits.Table.set_bit
    nextufs.Bits.lower nextufs.Bits.raise nextufs.Codec.read_be16 nextufs.Codec.write_be16
    nextufs.Codec.write_be32 nextufs.Disk.backend_write nextufs.Disk.record_in replay
    nextufs.Disk.seen nextufs.Disk.saved nextufs.Disk.transaction_record fail nextufs.Disk.pure
    nextufs.Group.Search.find_start nextufs.Group.Search.find_whole nextufs.Group.Take.raise_run
    nextufs.Group.Take.rotational nextufs.Group.Take.settle_freed nextufs.Group.Take.take_whole
    nextufs.Group.apply_cg_frsum_delta nextufs.Group.bump nextufs.Group.clear_block_bits
    nextufs.Group.count_free_runs_in_block nextufs.Group.count_runs_from nextufs.Group.frsum_upto
    nextufs.Group.run_length nextufs.Layout.cgstart nextufs.Summary.add_change
data_allocated = refl

allocate_data_for_inode-restores_example :
    (in_transaction device
        (outcome_on (allocate_data_for_inode device volume 0 text 1500) empty_file)
        (idle disk 4)).1.store.0
      header_time
    ≡ 0
allocate_data_for_inode-restores_example =
    allocate_data_for_inode-restores device device-Stores (idle disk 4) eio header_time volume
      empty_file 0 text 1500 device-NoStray (omega arith) data_allocated

-- A log that refuses the records of seven bytes, of which three bytes stay, and reads nothing from them.
abbrev short_log : Env Store
short_log = record device { log_room = λ log u. not (u.size == 7); log_partial = λ log u. 3 }

abbrev begun : Dev Store
begun = record { store = (disk, 0); transaction = some (record { records = []; stray = 0 }) }

-- The write is not made, and the log keeps the three bytes behind its end.
refused :
    ◌≡◌ {A = Result (Unit {0}) × Option Log}
      (
        (write_exact short_log volume (λ i. 9) 7 header_time begun).0,
        (write_exact short_log volume (λ i. 9) 7 header_time begun).1.transaction,
      )
      (err eio, some (record { records = []; stray = 3 }))
unfolding write_exact nextufs.Disk.transaction_record nextufs.Disk.record_in nextufs.Disk.saved
    read_exact ◌>>=◌
refused = refl

-- a caller that goes on after a refused record, and fails
abbrev careless : M Store (Unit {0})
careless =
    write_exact short_log volume (λ i. 9) 5 header_time
    >> (attempt (write_exact short_log volume (λ i. 9) 7 header_time) >>= λ _.
        write_exact short_log volume (λ i. 9) 5 (header_time + 100) >> fail eio)

-- The record before the stray bytes is lost, and what was overwritten is not restored.
older_lost : (in_transaction short_log careless (idle disk 0)).1.store.0 header_time ≡ 9
unfolding in_transaction transaction_begin transaction_end ◌>>=◌ write_exact replay
    nextufs.Disk.seen nextufs.Disk.transaction_record nextufs.Disk.record_in nextufs.Disk.saved
    nextufs.Disk.backend_write read_exact fail
older_lost = refl
