-- ===== src/Mutate/FileLog.antt =====
-- The undo log through the changes of a file (src/mutate/file_mutate.c). Where these write on after an
-- error, to give back what they have allocated, they take NoStray.
use nextufs.Base.{ℕ, zero, suc, ◌+◌, ◌*◌, ◌/◌, ◌^◌, Bool, false, Bytes, Result, ok, err, u64}
use nextufs.Disk.{Image, Env, M}
use nextufs.Disk.Laws.{Stores}
use nextufs.Disk.Rollback.{NoStray}
use nextufs.Disk.Logged.{
  Logged, logged_rules, if-Logged, bind-Logged, pure-Logged, read_exact-Logged,
}
use nextufs.Inode.Io.{write_inode_raw}
use nextufs.Alloc.Rollback.{
  allocate_frags_anycg-Logged, extend_fragment_run-Logged, free_fragment_run-Logged,
}
use nextufs.Alloc.IndirectLog.{attempt-Logged}
use nextufs.Alloc.StorageLog.{set_inode_data_block-LoggedOp, resolve_inode_data_block-Logged}
use nextufs.Alloc.OpLogged.{
  LoggedOp, op_rules, if-LoggedOp, bind-LoggedOp, done-LoggedOp, inode-LoggedOp,
}
use nextufs.Mutate.Blocks.{
  size_valid, or_elsewhere, room_for, kept_bytes, prune_entry, prune_entries, prune_root,
  prune_tree,
}
use nextufs.Mutate.File.{
  grow_block, finish_inode, free_tail, free_directs, prune_slot, prune_slots, zero_tail, shrink,
  grow_old_tail, grow, resized, file_resize, written_frag, write_part, write_blocks, file_write,
}

module _ {S : Type 0} {env : Env S} {laws : Stores S env} {original : Bytes} where
  pub size_valid-Logged : (size : ℕ) → Logged env laws original (size_valid size)
  unfolding size_valid
  size_valid-Logged size = search logged_rules

  module _ (img : Image) where
    pub write_inode_raw-Logged :
        (inode_no : ℕ) (ino : _) → Logged env laws original (write_inode_raw env img inode_no ino)
    unfolding write_inode_raw
    write_inode_raw-Logged inode_no ino = search logged_rules

    or_elsewhere-Logged :
        (calm : NoStray env) (old cg after : ℕ) (r : Result (Unit {0}))
        → Logged env laws original (or_elsewhere env img old cg after r)
    unfolding or_elsewhere
    or_elsewhere-Logged calm old cg after (ok _) = search logged_rules
    or_elsewhere-Logged calm old cg after (err e) =
        search (logged_rules, allocate_frags_anycg-Logged)

    room_for-Logged :
        (calm : NoStray env) (old before after cg : ℕ)
        → Logged env laws original (room_for env img old before after cg)
    unfolding room_for
    room_for-Logged calm old before after cg =
        search (logged_rules, attempt-Logged, or_elsewhere-Logged, extend_fragment_run-Logged) depth
          9

    kept_bytes-Logged :
        (old before logical old_size : ℕ)
        → Logged env laws original (kept_bytes env img old before logical old_size)
    unfolding kept_bytes
    kept_bytes-Logged old before logical old_size = search logged_rules depth 9

    prune_entry-Logged :
        (index keep released child : ℕ)
        → Logged env laws original (prune_entry env img index keep released child)
    unfolding prune_entry
    prune_entry-Logged index keep released child = search (logged_rules, free_fragment_run-Logged)

    prune_entries-Logged :
        (prune_child : ℕ → ℕ → ℕ → M S (ℕ × ℕ))
        → ((i released child : ℕ) → Logged env laws original (prune_child i released child))
        → (i n : ℕ) (buf : Bytes) (released : ℕ) (any : Bool)
        → Logged env laws original (prune_entries env img prune_child i n buf released any)
    unfolding prune_entries
    prune_entries-Logged prune_child each i zero buf released any = search logged_rules
    prune_entries-Logged prune_child each i (suc n) buf released any =
        if-Logged _ _ _ (prune_entries-Logged prune_child each (suc i) n _ _ _) (
          bind-Logged _ _ (each i released _)
            (λ r. prune_entries-Logged prune_child each (suc i) n _ _ _))

    prune_root-Logged :
        (root : ℕ) (r : Bytes × ℕ × Bool) → Logged env laws original (prune_root env img root r)
    unfolding prune_root
    prune_root-Logged root (buf, released, any) = search (logged_rules, free_fragment_run-Logged)

    prune_tree-Logged :
        (above base keep released root : ℕ)
        → Logged env laws original (prune_tree env img above base keep released root)
    unfolding prune_tree
    prune_tree-Logged zero base keep released root =
        search (logged_rules, prune_entries-Logged, prune_entry-Logged, prune_root-Logged) depth 9
    prune_tree-Logged (suc above) base keep released root = if-Logged _ _ _ (pure-Logged _) (
        bind-Logged _ _ (read_exact-Logged img _ _) λ buf.
          bind-Logged _ _
            (prune_entries-Logged _
              (λ i released' child.
                prune_tree-Logged above
                  (u64 (base + u64 (i * u64 ((img.sb.block_size / 4) ^ suc above)))) keep released'
                  child)
              0 _ buf released false)
            (prune_root-Logged root))

    pub grow_block-LoggedOp :
        (calm : NoStray env) (inode_no logical old_size new_size : ℕ)
        → LoggedOp env laws original (grow_block env img inode_no logical old_size new_size)
    unfolding grow_block
    grow_block-LoggedOp calm inode_no logical old_size new_size =
        search
          (
            op_rules, logged_rules, resolve_inode_data_block-Logged, kept_bytes-Logged,
            room_for-Logged, set_inode_data_block-LoggedOp, free_fragment_run-Logged,
          )
          depth 24

    pub finish_inode-LoggedOp :
        (inode_no : ℕ) → LoggedOp env laws original (finish_inode env img inode_no)
    unfolding finish_inode
    finish_inode-LoggedOp inode_no = search (op_rules, write_inode_raw-Logged) depth 12

    free_tail-LoggedOp :
        (slot before after : ℕ) → LoggedOp env laws original (free_tail env img slot before after)
    unfolding free_tail
    free_tail-LoggedOp slot before after = search (op_rules, free_fragment_run-Logged) depth 12

    free_directs-LoggedOp :
        (old_size size i n released : ℕ)
        → LoggedOp env laws original (free_directs env img old_size size i n released)
    unfolding free_directs
    free_directs-LoggedOp old_size size i zero released = search op_rules
    free_directs-LoggedOp old_size size i (suc n) released = bind-LoggedOp _ _ inode-LoggedOp λ ino.
        if-LoggedOp _ _ _ (free_directs-LoggedOp old_size size (suc i) n released) (
          bind-LoggedOp _ _ (free_tail-LoggedOp i _ _)
            (λ _. free_directs-LoggedOp old_size size (suc i) n _))

    prune_slot-LoggedOp :
        (slot base keep released : ℕ)
        → LoggedOp env laws original (prune_slot env img slot base keep released)
    unfolding prune_slot
    prune_slot-LoggedOp slot base keep released = search (op_rules, prune_tree-Logged) depth 12

    prune_slots-LoggedOp :
        (slot base span keep n released : ℕ)
        → LoggedOp env laws original (prune_slots env img slot base span keep n released)
    unfolding prune_slots
    prune_slots-LoggedOp slot base span keep zero released = search op_rules
    prune_slots-LoggedOp slot base span keep (suc n) released =
        bind-LoggedOp _ _ (prune_slot-LoggedOp slot base keep released)
          (λ released'. prune_slots-LoggedOp (suc slot) _ _ keep n released')

    zero_tail-LoggedOp : (size : ℕ) → LoggedOp env laws original (zero_tail env img size)
    unfolding zero_tail
    zero_tail-LoggedOp size =
        search (op_rules, logged_rules, resolve_inode_data_block-Logged) depth 12

    shrink-LoggedOp : (size : ℕ) → LoggedOp env laws original (shrink env img size)
    unfolding shrink
    shrink-LoggedOp size =
        search (op_rules, free_directs-LoggedOp, prune_slots-LoggedOp, zero_tail-LoggedOp) depth 24

    grow_old_tail-LoggedOp :
        (calm : NoStray env) (inode_no size : ℕ)
        → LoggedOp env laws original (grow_old_tail env img inode_no size)
    unfolding grow_old_tail
    grow_old_tail-LoggedOp calm inode_no size =
        search (op_rules, resolve_inode_data_block-Logged, grow_block-LoggedOp) depth 12

    grow-LoggedOp :
        (calm : NoStray env) (inode_no size : ℕ)
        → LoggedOp env laws original (grow env img inode_no size)
    unfolding grow
    grow-LoggedOp calm inode_no size =
        search (op_rules, grow_old_tail-LoggedOp, grow_block-LoggedOp) depth 12

    resized-LoggedOp :
        (calm : NoStray env) (inode_no size : ℕ)
        → LoggedOp env laws original (resized env img inode_no size)
    unfolding resized
    resized-LoggedOp calm inode_no size =
        search (op_rules, grow-LoggedOp, shrink-LoggedOp, finish_inode-LoggedOp) depth 16

    pub file_resize-LoggedOp :
        (calm : NoStray env) (inode_no size : ℕ)
        → LoggedOp env laws original (file_resize env img inode_no size)
    unfolding file_resize
    file_resize-LoggedOp calm inode_no size =
        search (op_rules, size_valid-Logged, resized-LoggedOp) depth 12

    written_frag-LoggedOp :
        (calm : NoStray env) (inode_no logical : ℕ)
        → LoggedOp env laws original (written_frag env img inode_no logical)
    unfolding written_frag
    written_frag-LoggedOp calm inode_no logical =
        search (op_rules, resolve_inode_data_block-Logged, grow_block-LoggedOp) depth 16

    write_part-LoggedOp :
        (calm : NoStray env) (inode_no : ℕ) (data' : Bytes) (bytes offset : ℕ)
        → LoggedOp env laws original (write_part env img inode_no data' bytes offset)
    unfolding write_part
    write_part-LoggedOp calm inode_no data' bytes offset =
        search (op_rules, logged_rules, written_frag-LoggedOp) depth 12

    write_blocks-LoggedOp :
        (calm : NoStray env) (fuel inode_no : ℕ) (data' : Bytes) (size offset : ℕ)
        → LoggedOp env laws original (write_blocks env img fuel inode_no data' size offset)
    unfolding write_blocks
    write_blocks-LoggedOp calm zero inode_no data' size offset = search op_rules
    write_blocks-LoggedOp calm (suc fuel) inode_no data' size offset =
        if-LoggedOp _ _ _ (done-LoggedOp tt) (
          bind-LoggedOp _ _ (write_part-LoggedOp calm inode_no data' _ offset)
            (λ _. write_blocks-LoggedOp calm fuel inode_no _ _ _))

    pub file_write-LoggedOp :
        (calm : NoStray env) (inode_no : ℕ) (data' : Bytes) (size offset : ℕ)
        → LoggedOp env laws original (file_write env img inode_no data' size offset)
    unfolding file_write
    file_write-LoggedOp calm inode_no data' size offset =
        search
          (
            op_rules, size_valid-Logged, file_resize-LoggedOp, write_blocks-LoggedOp,
            finish_inode-LoggedOp,
          )
          depth 16
