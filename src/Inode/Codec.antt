-- ===== src/Inode/Codec.antt =====
-- The 128 bytes of an inode hold all of it.
use nextufs.Base.{Upto, Upto-all, Bytes, ◌∙◌, ℕ, ◌+◌, ◌*◌, ◌^◌, ◌≤◌, ◌<◌, ◌≡◌, arith, u32}
use nextufs.Codec.{read_be16, read_be32, read_be64}
use nextufs.Codec.Laws.{read_be16_cong, read_be32_cong, read_be64_cong}
use nextufs.Inode.{Inode, decode_inode, encode_inode}

-- Each field is in its C type.
pub record Fits (ino : Inode) : Type 0 where
  pub mode_fits : ino.mode < 2 ^ 16
  pub nlink_fits : ino.nlink < 2 ^ 16
  pub uid_fits : ino.uid < 2 ^ 16
  pub gid_fits : ino.gid < 2 ^ 16
  pub size_fits : ino.size < 2 ^ 64
  pub atime_fits : ino.atime < 2 ^ 32
  pub mtime_fits : ino.mtime < 2 ^ 32
  pub ctime_fits : ino.ctime < 2 ^ 32
  pub db_fits : (i : ℕ) → i < 12 → ino.db i < 2 ^ 32
  pub ib_fits : (i : ℕ) → i < 3 → ino.ib i < 2 ^ 32
  pub flags_fits : ino.flags < 2 ^ 32
  pub blocks_fits : ino.blocks < 2 ^ 32
  pub gen_fits : ino.gen < 2 ^ 32

-- Two inodes with the same fields, the arrays compared within their bounds.
pub record Same (a b : Inode) : Type 0 where
  pub same_mode : a.mode ≡ b.mode
  pub same_nlink : a.nlink ≡ b.nlink
  pub same_uid : a.uid ≡ b.uid
  pub same_gid : a.gid ≡ b.gid
  pub same_size : a.size ≡ b.size
  pub same_atime : a.atime ≡ b.atime
  pub same_mtime : a.mtime ≡ b.mtime
  pub same_ctime : a.ctime ≡ b.ctime
  pub same_db : (i : ℕ) → i < 12 → a.db i ≡ b.db i
  pub same_ib : (i : ℕ) → i < 3 → a.ib i ≡ b.ib i
  pub same_flags : a.flags ≡ b.flags
  pub same_blocks : a.blocks ≡ b.blocks
  pub same_gen : a.gen ≡ b.gen

module _ (ino : Inode) (h : Fits ino) where
  decode-encode_scalars :
      let d = decode_inode (encode_inode ino) in
      (d.mode ≡ ino.mode)
      × (d.nlink ≡ ino.nlink)
      × (d.uid ≡ ino.uid)
      × (d.gid ≡ ino.gid)
      × (d.size ≡ ino.size)
      × (d.atime ≡ ino.atime)
      × (d.mtime ≡ ino.mtime)
      × (d.ctime ≡ ino.ctime)
      × (d.flags ≡ ino.flags)
      × (d.blocks ≡ ino.blocks)
      × (d.gen ≡ ino.gen)
  unfolding decode_inode encode_inode
  decode-encode_scalars = omega arith

  decode-encode_db : Upto 12 (λ i. (decode_inode (encode_inode ino)).db i ≡ u32 (ino.db i))
  unfolding decode_inode encode_inode
  decode-encode_db = omega arith

  decode-encode_ib : Upto 3 (λ i. (decode_inode (encode_inode ino)).ib i ≡ u32 (ino.ib i))
  unfolding decode_inode encode_inode
  decode-encode_ib = omega arith

  decode-encode_array_db : (i : ℕ) → i < 12 → (decode_inode (encode_inode ino)).db i ≡ ino.db i
  decode-encode_array_db i lt = omega (
    arith,
    h.db_fits i lt,
    Upto-all 12 (λ i. (decode_inode (encode_inode ino)).db i ≡ u32 (ino.db i)) decode-encode_db i
        lt,
  )

  decode-encode_array_ib : (i : ℕ) → i < 3 → (decode_inode (encode_inode ino)).ib i ≡ ino.ib i
  decode-encode_array_ib i lt = omega (
    arith,
    h.ib_fits i lt,
    Upto-all 3 (λ i. (decode_inode (encode_inode ino)).ib i ≡ u32 (ino.ib i)) decode-encode_ib i lt,
  )

  -- An inode whose fields are in their C types, written to its 128 bytes, is read back with every
  -- field as it was.
  pub decode-encode : Same (decode_inode (encode_inode ino)) ino
  decode-encode =
      let s = decode-encode_scalars in
      record {
        same_mode = s.0;
        same_nlink = s.1;
        same_uid = s.2;
        same_gid = s.3;
        same_size = s.4;
        same_atime = s.5;
        same_mtime = s.6;
        same_ctime = s.7;
        same_db = decode-encode_array_db;
        same_ib = decode-encode_array_ib;
        same_flags = s.8;
        same_blocks = s.9;
        same_gen = s.10;
      }

-- Decoding looks at the 128 bytes only.
module _ (a b : Bytes) (same : (i : ℕ) → i < 128 → a i ≡ b i) where
  at16 : (p : ℕ) → p + 2 ≤ 128 → read_be16 a p ≡ read_be16 b p
  at16 p h = read_be16_cong a b p (λ i lo hi. same i (omega arith))

  at32 : (p : ℕ) → p + 4 ≤ 128 → read_be32 a p ≡ read_be32 b p
  at32 p h = read_be32_cong a b p (λ i lo hi. same i (omega arith))

  at64 : (p : ℕ) → p + 8 ≤ 128 → read_be64 a p ≡ read_be64 b p
  at64 p h = read_be64_cong a b p (λ i lo hi. same i (omega arith))

  pub decode_cong : Same (decode_inode a) (decode_inode b)
  unfolding decode_inode
  decode_cong = record {
    same_mode = at16 0x00 (omega arith);
    same_nlink = at16 0x02 (omega arith);
    same_uid = at16 0x04 (omega arith);
    same_gid = at16 0x06 (omega arith);
    same_size = at64 0x08 (omega arith);
    same_atime = at32 0x10 (omega arith);
    same_mtime = at32 0x18 (omega arith);
    same_ctime = at32 0x20 (omega arith);
    same_db = λ i lt. at32 (0x28 + i * 4) (omega arith);
    same_ib = λ i lt. at32 (0x58 + i * 4) (omega arith);
    same_flags = at32 0x64 (omega arith);
    same_blocks = at32 0x68 (omega arith);
    same_gen = at32 0x6c (omega arith);
  }

pub Same-trans : {a b c : Inode} → Same a b → Same b c → Same a c
Same-trans p q = record {
  same_mode = p.same_mode ∙ q.same_mode;
  same_nlink = p.same_nlink ∙ q.same_nlink;
  same_uid = p.same_uid ∙ q.same_uid;
  same_gid = p.same_gid ∙ q.same_gid;
  same_size = p.same_size ∙ q.same_size;
  same_atime = p.same_atime ∙ q.same_atime;
  same_mtime = p.same_mtime ∙ q.same_mtime;
  same_ctime = p.same_ctime ∙ q.same_ctime;
  same_db = λ i lt. p.same_db i lt ∙ q.same_db i lt;
  same_ib = λ i lt. p.same_ib i lt ∙ q.same_ib i lt;
  same_flags = p.same_flags ∙ q.same_flags;
  same_blocks = p.same_blocks ∙ q.same_blocks;
  same_gen = p.same_gen ∙ q.same_gen;
}
