-- ===== src/Alloc/IndirectLog.antt =====
-- Every operation on indirect blocks (src/core/alloc.c) and the undo log.
use nextufs.Base.{ℕ, zero, suc, Bytes, Result, ok, err, ◌==◌}
use nextufs.Disk.{Image, Env, M}
use nextufs.Disk.Laws.{Stores}
use nextufs.Disk.Rollback.{After-Intact, NoStray}
use nextufs.Disk.Logged.{Logged, logged_rules, bind-Logged, if-Logged, pure-Logged}
use nextufs.Alloc.Rollback.{guard-Logged, allocate_frags_anycg-Logged, free_fragment_run-Logged}
use nextufs.Alloc.Runs.{allocate_full_block_anycg}
use nextufs.Alloc.Indirect.{
  attempt, read_indirect_entry, write_indirect_entry, or_give_back, allocate_zeroed_full_block,
  child_block, set_indirect_data_block, resolve_indirect_data_block, free_children,
  free_indirect_metadata_tree,
}

module _ {S : Type 0} {env : Env S} {laws : Stores S env} {original : Bytes} where
  pub attempt-Logged :
      {A : Type 0} (calm : NoStray env) (m : M S A)
      → Logged env laws original m
      → Logged env laws original (attempt m)
  attempt-Logged calm m h = record {
    keeps = λ d c. After-Intact env laws original (m d).0 (m d).1 calm (h.keeps d c);
  }

  module _ (img : Image) where
    allocate_full_block-Logged :
        (calm : NoStray env) (preferred : ℕ)
        → Logged env laws original (allocate_full_block_anycg env img preferred)
    unfolding allocate_full_block_anycg
    allocate_full_block-Logged calm preferred = allocate_frags_anycg-Logged img calm preferred _

    pub read_indirect_entry-Logged :
        (block entry : ℕ) → Logged env laws original (read_indirect_entry env img block entry)
    unfolding read_indirect_entry
    read_indirect_entry-Logged block entry = search (logged_rules, guard-Logged)

    write_indirect_entry-Logged :
        (block entry value : ℕ)
        → Logged env laws original (write_indirect_entry env img block entry value)
    unfolding write_indirect_entry
    write_indirect_entry-Logged block entry value = search (logged_rules, guard-Logged)

    or_give_back-Logged :
        (calm : NoStray env) (frag : ℕ) (r : Result (Unit {0}))
        → Logged env laws original (or_give_back env img frag r)
    unfolding or_give_back
    or_give_back-Logged calm frag (ok _) = search logged_rules
    or_give_back-Logged calm frag (err e) =
        search (logged_rules, attempt-Logged, free_fragment_run-Logged)

    pub allocate_zeroed-Logged :
        (calm : NoStray env) (preferred : ℕ)
        → Logged env laws original (allocate_zeroed_full_block env img preferred)
    unfolding allocate_zeroed_full_block
    allocate_zeroed-Logged calm preferred =
        search (logged_rules, attempt-Logged, or_give_back-Logged, allocate_full_block-Logged) depth
          8

    child_block-Logged :
        (calm : NoStray env) (preferred block entry next : ℕ)
        → Logged env laws original (child_block env img preferred block entry next)
    unfolding child_block
    child_block-Logged calm preferred block entry next =
        search
          (
            logged_rules, attempt-Logged, or_give_back-Logged, allocate_zeroed-Logged,
            write_indirect_entry-Logged,
          )
          depth 9

    pub set_indirect-Logged :
        (calm : NoStray env) (preferred level block index frag : ℕ)
        → Logged env laws original
            (set_indirect_data_block env img preferred level block index frag)
    unfolding set_indirect_data_block
    set_indirect-Logged calm preferred zero block index frag = search logged_rules
    set_indirect-Logged calm preferred (suc zero) block index frag =
        search (logged_rules, write_indirect_entry-Logged)
    set_indirect-Logged calm preferred (suc (suc level)) block index frag =
        bind-Logged _ _ (read_indirect_entry-Logged _ _) λ next.
          bind-Logged _ _ (child_block-Logged calm _ _ _ next) λ child.
            bind-Logged _ _ (set_indirect-Logged calm preferred (suc level) child.0 _ frag)
              λ deeper. search logged_rules

    pub resolve_indirect-Logged :
        (above block index : ℕ)
        → Logged env laws original (resolve_indirect_data_block env img above block index)
    unfolding resolve_indirect_data_block
    resolve_indirect-Logged zero block index = search (logged_rules, read_indirect_entry-Logged)
    resolve_indirect-Logged (suc above) block index =
        search (logged_rules, read_indirect_entry-Logged, resolve_indirect-Logged above)

    free_children-Logged :
        (free_child : ℕ → M S (Unit {0})) (block i n : ℕ)
        → ((child : ℕ) → Logged env laws original (free_child child))
        → Logged env laws original (free_children env img free_child block i n)
    unfolding free_children
    free_children-Logged free_child block i zero h = search logged_rules
    free_children-Logged free_child block i (suc n) h =
        bind-Logged _ _ (read_indirect_entry-Logged block i) λ child.
          bind-Logged _ _ (if-Logged (child == 0) _ _ (pure-Logged tt) (h child))
            λ _. free_children-Logged free_child block (suc i) n h

    pub free_metadata-Logged :
        (above block : ℕ)
        → Logged env laws original (free_indirect_metadata_tree env img above block)
    unfolding free_indirect_metadata_tree
    free_metadata-Logged zero block = search (logged_rules, free_fragment_run-Logged)
    free_metadata-Logged (suc above) block =
        search
          (logged_rules, free_fragment_run-Logged, free_children-Logged, free_metadata-Logged above)
