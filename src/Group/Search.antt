-- ===== src/Group/Search.antt =====
-- The two searches of nextufs__allocate_frags_in_group (src/core/alloc.c) in a group's bitmap.
use nextufs.Base.{
  ℕ, zero, suc, ◌+◌, ◌-◌, ◌&&◌, Option, none, some, Bytes, ltb, leb, ◌==◌, if◌then◌else◌,
}
use nextufs.Group.{block_is_free, set_run_bits}

-- `for (; start + frags_needed <= end; start++)`
unfoldable pub find_start : ℕ → Bytes → ℕ → ℕ → ℕ → Option ℕ
find_start zero buf start end_ need = none
find_start (suc fuel) buf start end_ need =
    let rest = find_start fuel buf (suc start) end_ need in
    if leb (start + need) end_
    then (if set_run_bits buf start need then some start else rest)
    else none

abbrev pub in_block : ℕ → Option ℕ → Option (ℕ × ℕ) → Option (ℕ × ℕ)
in_block local_frag (some start) rest = some (local_frag, start)
in_block local_frag none rest = rest

-- The first run of `need` free fragments in a block that is not wholly free, with its block.
unfoldable pub find_partial : ℕ → Bytes → ℕ → ℕ → ℕ → ℕ → Option (ℕ × ℕ)
unfolding find_start
find_partial zero buf local_frag limit fpb need = none
find_partial (suc fuel) buf local_frag limit fpb need =
    let end_ = (if ltb limit (local_frag + fpb) then limit else local_frag + fpb) in
    let rest = find_partial fuel buf (local_frag + fpb) limit fpb need in
    let here = in_block local_frag (find_start (suc fpb) buf local_frag end_ need) rest in
    if ltb local_frag limit
    then (if end_ - local_frag == fpb && block_is_free buf local_frag fpb then rest else here)
    else none

-- The first wholly free block.
unfoldable pub find_whole : ℕ → Bytes → ℕ → ℕ → ℕ → Option ℕ
find_whole zero buf local_frag limit fpb = none
find_whole (suc fuel) buf local_frag limit fpb =
    let rest = find_whole fuel buf (local_frag + fpb) limit fpb in
    if leb (local_frag + fpb) limit
    then (if block_is_free buf local_frag fpb then some local_frag else rest)
    else none
