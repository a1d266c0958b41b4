-- ===== src/Alloc/Runs.antt =====
-- Runs of fragments, from src/core/alloc.c: nextufs__allocate_frags_in_group, _anycg and
-- _full_block_anycg, nextufs__extend_fragment_run, nextufs__free_fragment_run and
-- nextufs__reallocate_fragment_run.
use nextufs.Base.{
  ℕ, suc, ◌+◌, ◌-◌, ◌*◌, ◌/◌, ◌%◌, Bool, not, ◌&&◌, ◌||◌, Option, none, some, Bytes, zeros, splice,
  ltb, leb, ◌==◌, if◌then◌else◌, u32, u64, neg32, einval, enospc,
}
use nextufs.Codec.{read_be32}
use nextufs.Disk.{Image, Env, M, pure, fail, ◌>>=◌, ◌>>◌, read_exact, write_exact}
use nextufs.Group.{cg_ndblk_off, cg_cs_nbfree_off, cg_cs_nffree_off, cg_free_off, set_run_bits}
use nextufs.Group.Search.{find_partial, find_whole}
use nextufs.Group.Take.{take_partial, take_whole, raise_run, settle_freed}
use nextufs.Alloc.Groups.{guard, read_group, write_group, groups_from, reserve_available}

module _ {S : Type 0} (env : Env S) (img : Image) where
  open img use {sb}
  open img.sb use {frags_per_block, frags_per_group, frag_size, frag_count, cg_size, cg_count}

  abbrev pub frag_offset : ℕ → ℕ
  frag_offset frag = img.slice_base + frag * frag_size

  -- cg_ndblk, the fragments of this group, against the geometry
  unfoldable pub bad_limit : ℕ → ℕ → Bool
  bad_limit cg limit =
      ltb frags_per_group limit
      || ltb frag_count (u64 (cg * frags_per_group + limit))
      || ltb cg_size (cg_free_off + u32 (limit + 7) / 8)

  unfoldable pub finish_whole : ℕ → Bytes → ℕ → Option ℕ → M S ℕ
  finish_whole cg buf need none = fail enospc
  finish_whole cg buf need (some local_frag) = do
    write_group env img cg (take_whole sb buf local_frag need env.now)
        (record { d_ndir = 0; d_nbfree = neg32 1; d_nifree = 0; d_nffree = frags_per_block - need })
    pure (u32 (cg * frags_per_group + local_frag))

  -- a partial block is reused; failing that, a whole block is split
  unfoldable pub finish_partial : ℕ → Bytes → ℕ → ℕ → Option (ℕ × ℕ) → M S ℕ
  unfolding finish_whole
  finish_partial cg buf limit need (some (block, start)) = do
    write_group env img cg (take_partial frags_per_block buf block start need env.now)
        (record { d_ndir = 0; d_nbfree = 0; d_nifree = 0; d_nffree = neg32 need })
    pure (u32 (cg * frags_per_group + start))
  finish_partial cg buf limit need none = do
    guard (not (read_be32 buf cg_cs_nbfree_off == 0)) enospc
    finish_whole cg buf need (find_whole (suc limit) buf 0 limit frags_per_block)

  unfoldable pub allocate_frags_in_group : ℕ → ℕ → M S ℕ
  unfolding finish_partial
  allocate_frags_in_group need cg = do
    guard (not (need == 0 || ltb frags_per_block need)) einval
    buf ← read_group env img cg
    let limit = read_be32 buf cg_ndblk_off
    guard (not (bad_limit cg limit)) einval
    finish_partial cg buf limit need (
        if ltb need frags_per_block && leb need (read_be32 buf cg_cs_nffree_off)
        then find_partial (suc limit) buf 0 limit frags_per_block need
        else none)

  unfoldable pub allocate_frags_anycg : ℕ → ℕ → M S ℕ
  allocate_frags_anycg preferred_cg need = do
    reserve_available env img need
    groups_from env img (allocate_frags_in_group need) preferred_cg 0 cg_count

  unfoldable pub allocate_full_block_anycg : ℕ → M S ℕ
  allocate_full_block_anycg preferred_cg = allocate_frags_anycg preferred_cg frags_per_block

  unfoldable pub extend_fragment_run : ℕ → ℕ → ℕ → M S (Unit {0})
  extend_fragment_run frag_base old_frags new_frags = do
    guard (not (leb new_frags old_frags || ltb frags_per_block new_frags)) einval
    reserve_available env img (new_frags - old_frags)
    let cg = frag_base / frags_per_group
    let local_frag = frag_base % frags_per_group
    guard (not (ltb frags_per_block (local_frag % frags_per_block + new_frags))) enospc
    buf ← read_group env img cg
    let added = new_frags - old_frags
    let block = local_frag - local_frag % frags_per_block
    guard (set_run_bits buf (local_frag + old_frags) added) enospc
    write_group env img cg
        (take_partial frags_per_block buf block (local_frag + old_frags) added env.now)
        (record { d_ndir = 0; d_nbfree = 0; d_nifree = 0; d_nffree = neg32 added })

  unfoldable pub finish_free : ℕ → Bytes → ℕ → ℕ → Option Bytes → M S (Unit {0})
  finish_free cg buf block frags none = fail einval
  finish_free cg buf block frags (some buf1) =
      let (buf2, d_nbfree, d_nffree) = settle_freed sb buf buf1 block frags env.now in
      write_group env img cg buf2
        (record { d_ndir = 0; d_nbfree = d_nbfree; d_nifree = 0; d_nffree = d_nffree })

  unfoldable pub free_fragment_run : ℕ → ℕ → M S (Unit {0})
  unfolding finish_free
  free_fragment_run frag_base frags = do
    guard (not (frags == 0 || ltb frags_per_block frags)) einval
    let cg = frag_base / frags_per_group
    let local_frag = frag_base % frags_per_group
    let block = local_frag - local_frag % frags_per_block
    buf ← read_group env img cg
    finish_free cg buf block frags (raise_run buf local_frag frags)

  -- the data is copied to a new run, zeros behind it, before the old run is freed
  unfoldable pub reallocate_fragment_run : ℕ → ℕ → ℕ → ℕ → M S ℕ
  reallocate_fragment_run old_frag old_frags new_frags preferred_cg = do
    let old_bytes = old_frags * frag_size
    let new_bytes = new_frags * frag_size
    data' ← read_exact env img old_bytes (frag_offset old_frag)
    new_frag ← allocate_frags_anycg preferred_cg new_frags
    write_exact env img (splice zeros data' old_bytes 0) new_bytes (frag_offset new_frag)
    free_fragment_run old_frag old_frags
    pure new_frag
