-- ===== src/Lib.antt =====
-- nextufs reads and writes NeXT UFS file systems in image files. This library models the core of it
-- in C, src/core, src/mutate and the headers in include, and proves what makes it correct.
--
-- The parts and their files:
--   Base                 numbers, tests, errno values and byte buffers
--   Codec, Bits          big- and little-endian words (src/core/layout.c, src/core/image.c) and the
--                        bits of a bitmap (src/core/alloc.c)
--   Superblock           struct nextufs_superblock and decode_superblock (src/core/image.c)
--   Disk                 Disk/State: the backend's store and the undo log are the state of every
--                        operation, struct nextufs_image is the record Image, and the monad M returns
--                        a result or an errno and the new state. Disk/Access: nextufs__read_exact,
--                        nextufs__write_exact, nextufs__image_fsync, nextufs_image_pread and
--                        nextufs_image_pwrite (src/core/layout.c), and src/core/transaction.c.
--                        Disk/Laws: what is relied on in a backend. Disk/Rollback, Disk/Writes, Disk/Recovery:
--                        the undo log. Disk/Effects: what a read and a write do.
--   Layout, Geometry     nextufs__cgstart, nextufs__cg_block_offset and nextufs__inode_offset
--                        (src/core/layout.c), nextufs_image_validate (src/core/image.c)
--   Inode                decode_inode and nextufs_inode_read (src/core/image.c),
--                        nextufs__write_inode_raw (src/core/layout.c)
--   Summary              nextufs__update_summary_counts (src/core/layout.c)
--   Group                the header block of a cylinder group in memory: the static helpers of
--                        src/core/alloc.c, its searches (Group/Search), and what its functions change
--                        between reading the block and writing it back (Group/Take)
--   Alloc                the functions of src/core/alloc.c, in its order: Alloc/Groups, Alloc/Runs,
--                        Alloc/Indirect, Alloc/Storage; Alloc/OnInode is the monad of those that
--                        also change an inode in memory
--   File                 resolve_file_block_frag and nextufs_inode_read_data (src/core/image.c);
--                        File/Symlink: decode_inline_symlink, nextufs_inode_readlink (the same file)
--                        and nextufs__store_inline_symlink (src/mutate/dir_mutate.c)
--   Access               nextufs__node_check_access (src/core/node.c) and the checks of rights, modes
--                        and owners in src/mutate/mutate.c
--   Path                 src/core/path.c and nextufs__path_split (src/core/layout.c)
--   Session              nextufs__write_begin, nextufs__write_finish and nextufs__image_refresh
--                        (src/core/image.c)
--   Directory            Directory/Entry: nextufs__dirent_size, nextufs__read_dirent
--                        (src/core/layout.c) and nextufs__write_dirent_raw (src/mutate/dir_mutate.c).
--                        Directory/Iterate: src/core/directory.c. Directory/Listing: the names of a
--                        block in order, as a list, which the other files compare the code with
--   Mutate               Mutate/Blocks and Mutate/File: src/mutate/file_mutate.c. Mutate/Dirent,
--                        Mutate/Directory: nextufs__insert_dirent (src/mutate/dir_mutate.c).
--                        Mutate/Drop, Mutate/Removal, Mutate/Empty: the rest of that file. Mutate/Inodes:
--                        the functions of src/mutate/mutate.c that remove an inode.
--                        Mutate/Unlink: nextufs_path_unlink. Mutate/FileLog
--                        and Mutate/DirectoryLog follow the undo log through the changes
--   Tests                a device in memory and a volume of two groups, with runs on them
--
-- The allocator reads a group's header block, changes it in memory, writes it back and then updates
-- the summaries. Every write goes through nextufs__write_exact, which saves the old bytes in the undo
-- log while a transaction is open; the functions that change a file system run between
-- nextufs__transaction_begin and nextufs__transaction_end.
--
-- Numbers: a C word is a natural number with `% 2 ^ w` where the source can wrap; a negative number
-- is its pattern, and an off_t from 2 ^ 63 on is negative. The numbers of fragments inside a group,
-- which stay below the limit that is checked first, are added without wrap-around. A buffer is the
-- function from an offset to its byte; its length is passed along with it.
--
-- The undo log is a list of records (Log), each with the number of bytes that stand in the file between
-- it and the one before. A record that is not written in full leaves such bytes behind tx->end. What
-- nextufs__transaction_end then takes for records is a parameter (log_misread). Where an operation
-- writes on after the refusal of a record, a theorem on it says that the refusal leaves no bytes
-- (NoStray, Disk/Rollback).
--
-- Parameters: the backend's functions, the clock, whether the temporary file of the undo log can be
-- made, takes a record and gives it back, how much of a refused record it keeps, and what is read from
-- such a rest, are the record Env. The laws of a backend are Stores: a
-- read gives the bytes stored, a write that succeeds stores its bytes, no write changes bytes outside
-- its range, a sync changes none. A device in memory has them (Tests/Device).
--
-- Fuel: the loop over the runs of a block has one turn more than the block has fragments, the
-- searches of a group one turn more than the group, each of which moves forward by one fragment at
-- least, the loops over the blocks of a file or a directory one turn more than the bytes to go,
-- those over the entries of a directory block one turn more than its bytes, since an entry has eight
-- bytes at least (Directory/Fuel). The loops over groups, levels and entries count down. A lookup follows
-- links 16 deep, the climb to the root 1024 levels, as the source limits them.
--
-- A struct nextufs_node is its inode number, an argument, and the inode in memory, the state of an Op;
-- its other fields are not used by what is modelled. A C string is its bytes and its length
-- (Name), or the list of its bytes (Text). Where reading an inode again fails, the inode in memory
-- is left as it was, and the caller fails.
--
-- Not modelled: failures of malloc; the loops on file descriptors, opening images, the VDI and QCOW2
-- backends, labels, the operations on paths of src/mutate/mutate.c but
-- nextufs_path_unlink, the session around each of them, and the commands, the checker and
-- the maker of images.
pub mod Base
pub mod Codec
pub mod Bits
pub mod Superblock
pub mod Disk
pub mod Layout
pub mod Geometry
pub mod Group
pub mod Summary
pub mod Alloc
pub mod Inode
pub mod Tests
pub mod File
pub mod Session
pub mod Directory
pub mod Access
pub mod Path
pub mod Mutate
