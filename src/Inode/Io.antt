-- ===== src/Inode/Io.antt =====
-- Reading and writing one inode: nextufs_inode_read of src/core/image.c and
-- nextufs__write_inode_raw of src/core/layout.c.
use nextufs.Base.{ℕ, ◌*◌, ◌^◌, ◌||◌, ltb, leb, if◌then◌else◌, int32_max, einval, efbig, Bytes}
use nextufs.Disk.{Image, Env, M, is_err, pure, fail, ◌>>=◌, read_exact, write_exact}
use nextufs.Layout.{inode_offset, ufs_inode_size}
use nextufs.Geometry.{image_validate}
use nextufs.Inode.{Inode, decode_inode, encode_inode}

module _ {S : Type 0} (env : Env S) (img : Image) where
  -- a decoded inode with its place, unless it is larger than a file may be
  unfoldable pub accept_inode : ℕ → Bytes → M S (Inode × ℕ)
  accept_inode off ibuf =
      let ino = decode_inode ibuf in if ltb int32_max ino.size then fail efbig else pure (ino, off)

  unfoldable pub inode_read : ℕ → M S (Inode × ℕ)
  unfolding accept_inode
  inode_read inode_no =
      let off = inode_offset img inode_no in
      if is_err (image_validate img) || leb (img.sb.cg_count * img.sb.inodes_per_group) inode_no
      then fail einval
      else if leb (2 ^ 63) off
      then fail einval
      else (read_exact env img ufs_inode_size off >>= accept_inode off)

  unfoldable pub write_inode_raw : ℕ → Inode → M S (Unit {0})
  write_inode_raw inode_no ino =
      let off = inode_offset img inode_no in
      if leb (2 ^ 63) off
      then fail einval
      else write_exact env img (encode_inode ino) ufs_inode_size off
