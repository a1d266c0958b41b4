-- ===== src/Inode.antt =====
-- struct nextufs_inode (include/nextufs_node.h) and its 128 bytes on disk: decode_inode of
-- src/core/image.c, the encoding in nextufs__write_inode_raw of src/core/layout.c, and the reads
-- and writes of a whole inode. The arrays db[12] and ib[3] are functions of the index.
pub mod Codec
pub mod Io
pub mod RoundTrip
use nextufs.Base.{ℕ, zero, suc, ◌+◌, ◌*◌, Bytes, zeros}
use nextufs.Codec.{read_be16, read_be32, read_be64, write_be16, write_be32, write_be64}

pub record Inode : Type 0 where
  pub mode : ℕ
  pub nlink : ℕ
  pub uid : ℕ
  pub gid : ℕ
  pub size : ℕ
  pub atime : ℕ
  pub mtime : ℕ
  pub ctime : ℕ
  pub db : ℕ → ℕ
  pub ib : ℕ → ℕ
  pub flags : ℕ
  pub blocks : ℕ
  pub gen : ℕ

unfoldable pub decode_inode : Bytes → Inode
unfolding read_be16 read_be32 read_be64
decode_inode buf = record {
  mode = read_be16 buf 0x00;
  nlink = read_be16 buf 0x02;
  uid = read_be16 buf 0x04;
  gid = read_be16 buf 0x06;
  size = read_be64 buf 0x08;
  atime = read_be32 buf 0x10;
  mtime = read_be32 buf 0x18;
  ctime = read_be32 buf 0x20;
  db = λ i. read_be32 buf (0x28 + i * 4);
  ib = λ i. read_be32 buf (0x58 + i * 4);
  flags = read_be32 buf 0x64;
  blocks = read_be32 buf 0x68;
  gen = read_be32 buf 0x6c;
}

-- `for (i = 0; i < n; i++) nextufs__write_be32(raw + at + i * 4, words[i])`
unfoldable pub write_words : Bytes → ℕ → (ℕ → ℕ) → ℕ → Bytes
unfolding write_be32
write_words raw at words zero = raw
write_words raw at words (suc n) = write_be32 (write_words raw at words n) (at + n * 4) (words n)

unfoldable pub encode_inode : Inode → Bytes
unfolding write_be16 write_be32 write_be64 write_words
encode_inode ino =
    let raw1 = write_be16 zeros 0x00 ino.mode in
    let raw2 = write_be16 raw1 0x02 ino.nlink in
    let raw3 = write_be16 raw2 0x04 ino.uid in
    let raw4 = write_be16 raw3 0x06 ino.gid in
    let raw5 = write_be64 raw4 0x08 ino.size in
    let raw6 = write_be32 raw5 0x10 ino.atime in
    let raw7 = write_be32 raw6 0x18 ino.mtime in
    let raw8 = write_be32 raw7 0x20 ino.ctime in
    let raw9 = write_words raw8 0x28 ino.db 12 in
    let raw10 = write_words raw9 0x58 ino.ib 3 in
    let raw11 = write_be32 raw10 0x64 ino.flags in
    let raw12 = write_be32 raw11 0x68 ino.blocks in write_be32 raw12 0x6c ino.gen
