-- ===== src/Alloc/Indirect.antt =====
-- Indirect blocks, from src/core/alloc.c: nextufs__read_indirect_entry,
-- nextufs__write_indirect_entry, nextufs__allocate_zeroed_full_block,
-- nextufs__set_indirect_data_block, nextufs__resolve_indirect_data_block and
-- nextufs__free_indirect_metadata_tree. The level counts the blocks down to the data.
use nextufs.Base.{
  ℕ, zero, suc, ◌+◌, ◌*◌, ◌/◌, ◌%◌, ◌^◌, Bool, not, ◌||◌, zeros, Result, ok, err, ltb, leb, ◌==◌,
  if◌then◌else◌, u64, einval,
}
use nextufs.Codec.{read_be32, write_be32}
use nextufs.Disk.{Image, Env, M, pure, fail, ◌>>=◌, ◌>>◌, read_exact, write_exact}
use nextufs.Alloc.Groups.{guard}
use nextufs.Alloc.Runs.{frag_offset, allocate_full_block_anycg, free_fragment_run}

-- The result of a call whose failure the caller handles.
abbrev pub attempt : {S A : Type 0} → M S A → M S (Result A)
attempt m d = let r = m d in (ok r.0, r.1)

module _ {S : Type 0} (env : Env S) (img : Image) where
  open img.sb use {block_size, frags_per_block, frag_count}

  abbrev pub entries_per_block : ℕ
  entries_per_block = block_size / 4

  abbrev bad_entry : ℕ → ℕ → Bool
  bad_entry block_frag entry_index =
      leb entries_per_block entry_index
      || block_frag == 0
      || ltb frag_count (block_frag + frags_per_block)

  unfoldable pub read_indirect_entry : ℕ → ℕ → M S ℕ
  read_indirect_entry block_frag entry_index = do
    guard (not (bad_entry block_frag entry_index)) einval
    raw ← read_exact env img 4 (frag_offset env img block_frag + entry_index * 4)
    pure (read_be32 raw 0)

  unfoldable pub write_indirect_entry : ℕ → ℕ → ℕ → M S (Unit {0})
  write_indirect_entry block_frag entry_index entry_value = do
    guard (not (bad_entry block_frag entry_index)) einval
    write_exact env img (write_be32 zeros 0 entry_value) 4
        (frag_offset env img block_frag + entry_index * 4)

  -- a block that could not be recorded is given back, and the first error is returned
  unfoldable pub or_give_back : ℕ → Result (Unit {0}) → M S (Unit {0})
  or_give_back frag (ok _) = pure tt
  or_give_back frag (err e) =
      attempt (free_fragment_run env img frag frags_per_block) >>= λ _. fail e

  unfoldable pub allocate_zeroed_full_block : ℕ → M S ℕ
  unfolding or_give_back
  allocate_zeroed_full_block preferred_cg = do
    frag ← allocate_full_block_anycg env img preferred_cg
    written ← attempt (write_exact env img zeros block_size (frag_offset env img frag))
    or_give_back frag written
    pure frag

  -- the block behind an entry, made if there is none, with the fragments that this took
  unfoldable pub child_block : ℕ → ℕ → ℕ → ℕ → M S (ℕ × ℕ)
  child_block preferred_cg block_frag entry_index next_frag =
      if next_frag == 0
      then (do
        made ← allocate_zeroed_full_block preferred_cg
        written ← attempt (write_indirect_entry block_frag entry_index made)
        or_give_back made written
        pure (made, frags_per_block))
      else pure (next_frag, 0)

  -- The result is the growth of *metadata_frags_out.
  unfoldable pub set_indirect_data_block : ℕ → ℕ → ℕ → ℕ → ℕ → M S ℕ
  unfolding child_block
  set_indirect_data_block preferred_cg zero block_frag logical_index data_frag = fail einval
  set_indirect_data_block preferred_cg (suc zero) block_frag logical_index data_frag =
      write_indirect_entry block_frag logical_index data_frag >>= λ _. pure 0
  set_indirect_data_block preferred_cg (suc (suc level)) block_frag logical_index data_frag = do
    let span = u64 (entries_per_block ^ suc level)
    next_frag ← read_indirect_entry block_frag (logical_index / span)
    child ← child_block preferred_cg block_frag (logical_index / span) next_frag
    deeper ←
        set_indirect_data_block preferred_cg (suc level) child.0 (logical_index % span) data_frag
    pure (child.1 + deeper)

  -- 0 stands for a hole. The first argument is the level less one: both this function and the next
  -- are called from level 1 on.
  unfoldable pub resolve_indirect_data_block : ℕ → ℕ → ℕ → M S ℕ
  resolve_indirect_data_block zero block_frag logical_index =
      if block_frag == 0 then pure 0 else read_indirect_entry block_frag logical_index
  resolve_indirect_data_block (suc above) block_frag logical_index =
      let span = u64 (entries_per_block ^ suc above) in
      if block_frag == 0
      then pure 0
      else (read_indirect_entry block_frag (logical_index / span) >>= λ next_frag.
          resolve_indirect_data_block above next_frag (logical_index % span))

  -- the loop over the entries of a block: those that are set are freed by `free_child`
  unfoldable pub free_children : (ℕ → M S (Unit {0})) → ℕ → ℕ → ℕ → M S (Unit {0})
  free_children free_child block_frag i zero = pure tt
  free_children free_child block_frag i (suc n) = read_indirect_entry block_frag i >>= λ child_frag.
      (if child_frag == 0 then pure tt else free_child child_frag)
      >> free_children free_child block_frag (suc i) n

  unfoldable pub free_indirect_metadata_tree : ℕ → ℕ → M S (Unit {0})
  unfolding free_children
  free_indirect_metadata_tree zero block_frag =
      if block_frag == 0 then pure tt else free_fragment_run env img block_frag frags_per_block
  free_indirect_metadata_tree (suc above) block_frag =
      if block_frag == 0
      then pure tt
      else (free_children (free_indirect_metadata_tree above) block_frag 0 entries_per_block
          >> free_fragment_run env img block_frag frags_per_block)
