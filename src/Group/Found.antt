-- ===== src/Group/Found.antt =====
-- What the searches of nextufs__allocate_frags_in_group (src/core/alloc.c) find, and that they
-- overlook nothing with the fuel they are given.
use native.Mathlib.Decide.{dec_lt}
use nextufs.Base.{
  ℕ, zero, suc, ◌+◌, ◌*◌, ◌≤◌, ◌<◌, ◌≡◌, subst, ◌↔◌, inl, inr, true, none, some, arith, Bytes, ltb,
  if◌then◌else◌, Bool-cases,
}
use nextufs.Group.{block_is_free, set_run_bits}
use nextufs.Group.Bitmap.{AllAre, set_run_bits-true, block_is_free-set_run_bits}
use nextufs.Group.Search.{find_start, find_whole}

pub block_is_free-true :
    (m : Bytes) (base n : ℕ) → (block_is_free m base n ≡ true) ↔ AllAre true m base n
block_is_free-true m base n = rw (block_is_free-set_run_bits m base n) (set_run_bits-true m base n)

-- A start that is found is in the range, its run is free, and no earlier start would do.
pub find_start-some :
    (fuel : ℕ) (m : Bytes) (start end_ need r : ℕ)
    → find_start fuel m start end_ need ≡ some r
    → (start ≤ r)
      × (r + need ≤ end_)
      × AllAre true m r need
      × ((k : ℕ) → start ≤ k → k < r → ¬ AllAre true m k need)
unfolding find_start
find_start-some zero m start end_ need r h = absurd (ground arith)
find_start-some (suc fuel) m start end_ need r h = elim (Bool-cases (set_run_bits m start need)) [
  | inl set ↦
      let e : start ≡ r = ground arith in
      let room : start + need ≤ end_ = ground arith in
      (
        omega arith,
        omega arith,
        subst (λ t. AllAre true m t need) e ((set_run_bits-true m start need).0 set),
        λ k ge lt. absurd (omega arith),
      )
  | inr clear ↦
      let deeper : find_start fuel m (suc start) end_ need ≡ some r = ground arith in
      let ih = find_start-some fuel m (suc start) end_ need r deeper in
      (
        omega (arith, ih.0),
        ih.1,
        ih.2,
        λ k ge lt all. elim (dec_lt start k) [
          | yes later ↦ ih.3 k later lt all
          | no at ↦
              let e : k ≡ start = omega arith in
              let set =
                (set_run_bits-true m start need).1 (subst (λ t. AllAre true m t need) e all) in
              cc
        ],
      )
]

-- When no start is found, and the fuel covers the range, no run of the range is free.
pub find_start-none :
    (fuel : ℕ) (m : Bytes) (start end_ need : ℕ)
    → end_ < start + fuel + need
    → find_start fuel m start end_ need ≡ none
    → (k : ℕ) → start ≤ k
    → k + need ≤ end_
    → ¬ AllAre true m k need
unfolding find_start
find_start-none zero m start end_ need enough h k ge le all = absurd (omega arith)
find_start-none (suc fuel) m start end_ need enough h k ge le all = elim (dec_lt start k) [
  | yes later ↦
      let deeper : find_start fuel m (suc start) end_ need ≡ none = ground arith in
      find_start-none fuel m (suc start) end_ need (omega arith) deeper k later le all
  | no at ↦
      let e : k ≡ start = omega arith in
      let set = (set_run_bits-true m start need).1 (subst (λ t. AllAre true m t need) e all) in
      absurd (ground arith)
]

-- A whole block that is found is aligned like the first one, inside the group, and free.
pub find_whole-some :
    (fuel : ℕ) (m : Bytes) (first limit fpb r : ℕ)
    → find_whole fuel m first limit fpb ≡ some r
    → ((j : ℕ) × (r ≡ first + j * fpb)) × (r + fpb ≤ limit) × AllAre true m r fpb
unfolding find_whole
find_whole-some zero m first limit fpb r h = absurd (ground arith)
find_whole-some (suc fuel) m first limit fpb r h = elim (Bool-cases (block_is_free m first fpb)) [
  | inl set ↦
      let e : first ≡ r = ground arith in
      let room : first + fpb ≤ limit = ground arith in
      (
        (0, omega arith),
        omega arith,
        subst (λ t. AllAre true m t fpb) e ((block_is_free-true m first fpb).0 set),
      )
  | inr clear ↦
      let deeper : find_whole fuel m (first + fpb) limit fpb ≡ some r = ground arith in
      let ih = find_whole-some fuel m (first + fpb) limit fpb r deeper in
      ((suc ih.0.0, omega (arith, ih.0.1)), ih.1, ih.2)
]

-- When the search finds nothing, with more turns than fragments up to the limit, no aligned block
-- of the group is free.
pub find_whole-none :
    (fuel : ℕ) (m : Bytes) (first limit fpb : ℕ)
    → 0 < fpb
    → limit < first + fuel
    → find_whole fuel m first limit fpb ≡ none
    → (j : ℕ) → first + j * fpb + fpb ≤ limit
    → ¬ AllAre true m (first + j * fpb) fpb
unfolding find_whole
find_whole-none zero m first limit fpb pos enough h j le all = absurd (omega arith)
find_whole-none (suc fuel) m first limit fpb pos enough h zero le all =
    let e : first + 0 * fpb ≡ first = omega arith in
    let set = (block_is_free-true m first fpb).1 (subst (λ t. AllAre true m t fpb) e all) in
    absurd (ground arith)
find_whole-none (suc fuel) m first limit fpb pos enough h (suc j) le all =
    let deeper : find_whole fuel m (first + fpb) limit fpb ≡ none = ground arith in
    let e : first + suc j * fpb ≡ first + fpb + j * fpb = omega arith in
    find_whole-none fuel m (first + fpb) limit fpb pos (omega arith) deeper j (omega arith)
      (subst (λ t. AllAre true m t fpb) e all)

-- the end of the block at `at`, cut off at the end of the group
abbrev pub block_end : ℕ → ℕ → ℕ → ℕ
block_end limit fpb at = if ltb limit (at + fpb) then limit else at + fpb

-- a block that is not wholly free
abbrev pub IsUsed : Bytes → ℕ → ℕ → ℕ → Type 0
IsUsed m limit fpb at = ¬ ((at + fpb ≤ limit) × AllAre true m at fpb)
