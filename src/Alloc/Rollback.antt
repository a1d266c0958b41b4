-- ===== src/Alloc/Rollback.antt =====
-- Every operation of the allocator (src/core/alloc.c) writes through nextufs__write_exact only, so
-- the undo log is followed through all of them, on every path and every error. Those that write on
-- after an error, such as a search that goes to the next group, take NoStray.
use nextufs.Base.{
  ℕ, ◌+◌, ◌%◌, u32, zero, suc, Bool, true, false, Option, none, some, Bytes, Result, ok, err, ◌==◌,
  if◌then◌else◌, enospc,
}
use nextufs.Disk.{Dev, Image, Env, M}
use nextufs.Disk.Laws.{Stores}
use nextufs.Disk.Rollback.{After, NoStray}
use nextufs.Disk.Logged.{Logged, logged_rules, bind-Logged, fail-Logged, pure-Logged}
use nextufs.Summary.{Change, update_summary_counts}
use nextufs.Alloc.Groups.{
  guard, read_group, write_group, take_found_inode, allocate_inode_one_group, unless_full,
  groups_from, allocate_inode_in_group, free_inode_in_group, reserve_available,
}
use nextufs.Alloc.Runs.{
  finish_whole, finish_partial, allocate_frags_in_group, allocate_frags_anycg, extend_fragment_run,
  finish_free, free_fragment_run, reallocate_fragment_run,
}

module _ {S : Type 0} {env : Env S} {laws : Stores S env} {original : Bytes} where
  pub guard-Logged : (b : Bool) (e : ℕ) → Logged env laws original (guard b e)
  guard-Logged true e = pure-Logged tt
  guard-Logged false e = fail-Logged e

  module _ (img : Image) where
    update_summary_counts-Logged :
        (cg : ℕ) (c : Change) → Logged env laws original (update_summary_counts env img cg c)
    unfolding update_summary_counts
    update_summary_counts-Logged cg c = search logged_rules

    read_group-Logged : (cg : ℕ) → Logged env laws original (read_group env img cg)
    unfolding read_group
    read_group-Logged cg = search (logged_rules, guard-Logged)

    write_group-Logged :
        (cg : ℕ) (buf : Bytes) (c : Change)
        → Logged env laws original (write_group env img cg buf c)
    unfolding write_group
    write_group-Logged cg buf c = search (logged_rules, update_summary_counts-Logged)

    take_found_inode-Logged :
        (cg mode : ℕ) (buf : Bytes) (found : Option ℕ)
        → Logged env laws original (take_found_inode env img cg mode buf found)
    unfolding take_found_inode
    take_found_inode-Logged cg mode buf none = search logged_rules
    take_found_inode-Logged cg mode buf (some i) = search (logged_rules, write_group-Logged)

    allocate_inode_one_group-Logged :
        (cg mode : ℕ) → Logged env laws original (allocate_inode_one_group env img cg mode)
    unfolding allocate_inode_one_group
    allocate_inode_one_group-Logged cg mode =
        search (logged_rules, guard-Logged, read_group-Logged, take_found_inode-Logged)

    unless_full-Logged :
        {A : Type 0} (calm : NoStray env) (m rest : M S A)
        → Logged env laws original m
        → Logged env laws original rest
        → Logged env laws original (λ d. unless_full env img (m d) rest)
    unless_full-Logged {A} calm m rest hm hr = record { keeps = λ d h. after (m d) (hm.keeps d h) }
      where
        after :
            (r : Result A × Dev S)
            → After env laws original r.0 r.1
            → After env laws original (unless_full env img r rest).0 (unless_full env img r rest).1
        after (ok a, d) h = h
        after (err e, d) h = split (e == enospc) h
          where
            split :
                (b : Bool)
                → After env laws original {A = A} (err e) d
                → After env laws original
                    (if b then rest d else (err e, d)).0
                    (if b then rest d else (err e, d)).1
            split true h = hr.keeps d (h.0, h.1 calm)
            split false h = h

    groups_from-Logged :
        {A : Type 0} (calm : NoStray env) (one : ℕ → M S A) (cg i n : ℕ)
        → ((g : ℕ) → Logged env laws original (one g))
        → Logged env laws original (groups_from env img one cg i n)
    unfolding groups_from nextufs.Disk.fail
    groups_from-Logged calm one cg i zero h = fail-Logged enospc
    groups_from-Logged calm one cg i (suc n) h =
        unless_full-Logged calm _ _ (h (u32 (cg + i) % img.sb.cg_count))
          (groups_from-Logged calm one cg (suc i) n h)

    pub allocate_inode_in_group-Logged :
        (calm : NoStray env) (cg mode : ℕ)
        → Logged env laws original (allocate_inode_in_group env img cg mode)
    unfolding allocate_inode_in_group
    allocate_inode_in_group-Logged calm cg mode =
        groups_from-Logged calm _ cg 0 img.sb.cg_count (λ g. allocate_inode_one_group-Logged g mode)

    pub free_inode_in_group-Logged :
        (inode_no mode : ℕ) → Logged env laws original (free_inode_in_group env img inode_no mode)
    unfolding free_inode_in_group
    free_inode_in_group-Logged inode_no mode =
        search (logged_rules, guard-Logged, read_group-Logged, write_group-Logged)

    reserve_available-Logged :
        (needed : ℕ) → Logged env laws original (reserve_available env img needed)
    unfolding reserve_available
    reserve_available-Logged needed = search (logged_rules, guard-Logged)

    finish_whole-Logged :
        (cg : ℕ) (buf : Bytes) (need : ℕ) (found : Option ℕ)
        → Logged env laws original (finish_whole env img cg buf need found)
    unfolding finish_whole
    finish_whole-Logged cg buf need none = search logged_rules
    finish_whole-Logged cg buf need (some i) = search (logged_rules, write_group-Logged)

    finish_partial-Logged :
        (cg : ℕ) (buf : Bytes) (limit need : ℕ) (found : Option (ℕ × ℕ))
        → Logged env laws original (finish_partial env img cg buf limit need found)
    unfolding finish_partial
    finish_partial-Logged cg buf limit need none =
        search (logged_rules, guard-Logged, finish_whole-Logged)
    finish_partial-Logged cg buf limit need (some (block, start)) =
        search (logged_rules, write_group-Logged)

    allocate_frags_in_group-Logged :
        (need cg : ℕ) → Logged env laws original (allocate_frags_in_group env img need cg)
    unfolding allocate_frags_in_group
    allocate_frags_in_group-Logged need cg =
        search (logged_rules, guard-Logged, read_group-Logged, finish_partial-Logged)

    pub allocate_frags_anycg-Logged :
        (calm : NoStray env) (preferred need : ℕ)
        → Logged env laws original (allocate_frags_anycg env img preferred need)
    unfolding allocate_frags_anycg
    allocate_frags_anycg-Logged calm preferred need =
        bind-Logged _ _ (reserve_available-Logged need) (λ _.
          groups_from-Logged calm _ preferred 0 img.sb.cg_count
            (allocate_frags_in_group-Logged need))

    pub extend_fragment_run-Logged :
        (frag_base old_frags new_frags : ℕ)
        → Logged env laws original (extend_fragment_run env img frag_base old_frags new_frags)
    unfolding extend_fragment_run
    extend_fragment_run-Logged frag_base old_frags new_frags =
        search
          (
            logged_rules, guard-Logged, read_group-Logged, write_group-Logged,
            reserve_available-Logged,
          )
          depth 12

    finish_free-Logged :
        (cg : ℕ) (buf : Bytes) (block frags : ℕ) (freed : Option Bytes)
        → Logged env laws original (finish_free env img cg buf block frags freed)
    unfolding finish_free
    finish_free-Logged cg buf block frags none = search logged_rules
    finish_free-Logged cg buf block frags (some buf1) = search (logged_rules, write_group-Logged)

    pub free_fragment_run-Logged :
        (frag_base frags : ℕ) → Logged env laws original (free_fragment_run env img frag_base frags)
    unfolding free_fragment_run
    free_fragment_run-Logged frag_base frags =
        search (logged_rules, guard-Logged, read_group-Logged, finish_free-Logged)

    pub reallocate_fragment_run-Logged :
        (calm : NoStray env) (old_frag old_frags new_frags preferred : ℕ)
        → Logged env laws original
            (reallocate_fragment_run env img old_frag old_frags new_frags preferred)
    unfolding reallocate_fragment_run
    reallocate_fragment_run-Logged calm old_frag old_frags new_frags preferred =
        search (logged_rules, allocate_frags_anycg-Logged, free_fragment_run-Logged) depth 8
