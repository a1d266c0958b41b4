-- ===== src/Mutate/Blocks.antt =====
-- The fragments of the blocks of a file and the pruning of its indirect blocks, from
-- src/mutate/file_mutate.c.
use nextufs.Base.{
  ℕ, zero, suc, ◌+◌, ◌-◌, ◌*◌, ◌/◌, ◌^◌, Bool, false, not, ◌||◌, Bytes, zeros, splice, Result, ok,
  err, ltb, leb, ◌==◌, if◌then◌else◌, u32, u64, int32_max, efbig, enospc,
}
use nextufs.Codec.{read_be32, write_be32}
use nextufs.Disk.{Image, Env, M, pure, fail, ◌>>=◌, read_exact, write_exact}
use nextufs.Alloc.Runs.{frag_offset, allocate_frags_anycg, extend_fragment_run, free_fragment_run}
use nextufs.Alloc.Indirect.{attempt}

-- size_valid
unfoldable pub size_valid : {S : Type 0} → ℕ → M S (Unit {0})
size_valid size = if leb size int32_max then pure tt else fail efbig

module _ {S : Type 0} (env : Env S) (img : Image) where
  open img.sb use {block_size, frag_size, frags_per_block}

  -- the fragments of a block of a file of `size` bytes
  unfoldable pub file_frags : ℕ → ℕ → ℕ
  file_frags size block =
      let base = block * block_size in
      let bytes = size - base in
      if leb size base
      then 0
      else if leb 12 block || leb block_size bytes
      then frags_per_block
      else u32 ((bytes + frag_size - 1) / frag_size)

  -- an error of ENOSPC leads to a new run
  unfoldable pub or_elsewhere : ℕ → ℕ → ℕ → Result (Unit {0}) → M S ℕ
  or_elsewhere old cg after (ok _) = pure old
  or_elsewhere old cg after (err e) =
      if e == enospc then allocate_frags_anycg env img cg after else fail e

  -- where the block with `after` fragments will lie: longer in place if that can be
  unfoldable pub room_for : ℕ → ℕ → ℕ → ℕ → M S ℕ
  unfolding or_elsewhere
  room_for old before after cg =
      let longer =
        attempt (if old == 0 then fail enospc else extend_fragment_run env img old before after)
        >>= or_elsewhere old cg after in
      if ltb before after then longer else pure old

  -- the bytes of the block that are kept
  unfoldable pub kept_bytes : ℕ → ℕ → ℕ → ℕ → M S Bytes
  kept_bytes old before logical old_size =
      let past = u64 (old_size + 2 ^ 64 - logical * block_size) in
      let keep = (if ltb (before * frag_size) past then before * frag_size else past) in
      if old == 0
      then pure zeros
      else (read_exact env img keep (frag_offset env img old) >>= λ data'.
          pure (splice zeros data' keep 0))

  -- One entry of an indirect block: 0 when it is freed, and the fragments released so far.
  unfoldable pub prune_entry : ℕ → ℕ → ℕ → ℕ → M S (ℕ × ℕ)
  prune_entry index keep released child =
      if leb keep index
      then (free_fragment_run env img child frags_per_block >>= λ _.
          pure (0, u32 (released + frags_per_block)))
      else pure (child, released)

  abbrev pub pruned :
      Bytes
      → ℕ
      → Bool
      → ℕ × ℕ
      → (Bytes → ℕ → Bool → M S (Bytes × ℕ × Bool))
      → M S (Bytes × ℕ × Bool)
  pruned buf i any (child, released) rest =
      rest (write_be32 buf (i * 4) child) released (any || not (child == 0))

  -- The loop over the entries: the block, the fragments released, whether an entry is left.
  unfoldable pub prune_entries :
      (ℕ → ℕ → ℕ → M S (ℕ × ℕ)) → ℕ → ℕ → Bytes → ℕ → Bool → M S (Bytes × ℕ × Bool)
  prune_entries prune_child i zero buf released any = pure (buf, released, any)
  prune_entries prune_child i (suc n) buf released any =
      let child = read_be32 buf (i * 4) in
      if child == 0
      then prune_entries prune_child (suc i) n buf released any
      else (prune_child i released child >>= λ r.
          pruned buf i any r (prune_entries prune_child (suc i) n))

  -- the block is written back if an entry is left, and freed otherwise
  unfoldable pub prune_root : ℕ → Bytes × ℕ × Bool → M S (ℕ × ℕ)
  prune_root root (buf, released, any) =
      if any
      then (write_exact env img buf block_size (frag_offset env img root) >>= λ _.
          pure (root, released))
      else (free_fragment_run env img root frags_per_block >>= λ _.
          pure (0, u32 (released + frags_per_block)))

  -- The new root and the fragments released. The first argument is the level less one.
  unfoldable pub prune_tree : ℕ → ℕ → ℕ → ℕ → ℕ → M S (ℕ × ℕ)
  unfolding prune_entries prune_root prune_entry
  prune_tree zero base keep released root =
      if root == 0
      then pure (root, released)
      else (read_exact env img block_size (frag_offset env img root) >>= λ buf.
          prune_entries (λ i released' child. prune_entry (u64 (base + i)) keep released' child) 0
            (block_size / 4) buf released false
          >>= prune_root root)
  prune_tree (suc above) base keep released root =
      let span = u64 ((block_size / 4) ^ suc above) in
      if root == 0
      then pure (root, released)
      else (read_exact env img block_size (frag_offset env img root) >>= λ buf.
          prune_entries
            (λ i released' child.
              prune_tree above (u64 (base + u64 (i * span))) keep released' child)
            0 (block_size / 4) buf released false
          >>= prune_root root)
