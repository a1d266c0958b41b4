-- ===== src/Group/Inodes.antt =====
-- The inode bitmap of a group: the search of nextufs__allocate_inode_one_group and what taking and
-- giving back an inode do (src/core/alloc.c).
use native.Mathlib.Decide.{dec_lt}
use native.Mathlib.Nat.{mod-eq_of_lt, mod-lt, add-mod_left}
use nextufs.Base.{
  subst, ℕ, zero, suc, ◌+◌, ◌-◌, ◌/◌, ◌%◌, ◌≤◌, ◌<◌, ◌≡◌, refl, ap, sym, ◌∙◌, inl, inr, Bool, true,
  false, ◌&&◌, ◌||◌, not, none, some, arith, Bytes, IsBytes, leb, ◌==◌, if◌then◌else◌, Bool-cases,
  u32, neg32,
}
use nextufs.Codec.{write_be32}
use nextufs.Bits.{bit, raise, lower, bit-raise, bit-lower, raise-IsBytes, lower-IsBytes}
use nextufs.Group.{cg_time_off, cg_cs_ndir_off, cg_cs_nifree_off, cg_irotor_off, cg_iused_off, bump}
use nextufs.Group.Counters.{Counted, Counted-refl, write_be32-Counted, bump-Counted}
use nextufs.Group.Take.{find_inode, take_inode, release_inode}

-- whether inode `k` of the group is in use
abbrev pub used : Bytes → ℕ → Bool
used m k = bit m cg_iused_off k

-- An inode may be handed out: inodes 0 and 1 of the first group may not.
abbrev pub may_take : Bytes → ℕ → ℕ → Bool
may_take m cg k = (not (cg == 0) || leb 2 k) && not (used m k)

-- An inode that is found in a group that has inodes may be handed out, and it lies in the group.
pub find_inode-some :
    (fuel : ℕ) (m : Bytes) (cg ipg start i k : ℕ)
    → 0 < ipg
    → find_inode fuel m cg ipg start i ≡ some k
    → (k < ipg) × (may_take m cg k ≡ true)
unfolding find_inode
find_inode-some zero m cg ipg start i k pos h = absurd (ground arith)
find_inode-some (suc fuel) m cg ipg start i k pos h =
    elim (Bool-cases (may_take m cg ((start + i) % ipg))) [
      | inl here ↦
          let e : (start + i) % ipg ≡ k = ground arith in
          (
            subst (λ t. t < ipg) e (mod-lt (start + i) pos),
            subst (λ t. may_take m cg t ≡ true) e here,
          )
      | inr not_here ↦ find_inode-some fuel m cg ipg start (suc i) k pos (ground arith)
    ]

-- While nothing is found, each inode that was looked at may not be handed out.
find_inode-none_seen :
    (fuel : ℕ) (m : Bytes) (cg ipg start i : ℕ)
    → find_inode fuel m cg ipg start i ≡ none
    → (j : ℕ) → i ≤ j
    → j < i + fuel
    → may_take m cg ((start + j) % ipg) ≡ false
unfolding find_inode
find_inode-none_seen zero m cg ipg start i h j ge lt = absurd (omega arith)
find_inode-none_seen (suc fuel) m cg ipg start i h j ge lt = elim (dec_lt i j) [
  | yes later ↦
      find_inode-none_seen fuel m cg ipg start (suc i) (ground arith) j later (omega arith)
  | no at ↦
      let e : j ≡ i = omega arith in
      subst (λ t. may_take m cg ((start + t) % ipg) ≡ false) (sym e) (ground arith)
]

-- When nothing is found with one turn for each inode of the group, from a start in the group, no
-- inode of the group may be handed out.
pub find_inode-none :
    (m : Bytes) (cg ipg start : ℕ)
    → start < ipg
    → find_inode ipg m cg ipg start 0 ≡ none
    → (k : ℕ) → k < ipg
    → may_take m cg k ≡ false
find_inode-none m cg ipg start lo h k lt = elim (dec_lt k start) [
  | yes before ↦
      let e : start + (ipg + k - start) ≡ ipg + k = omega arith in
      subst (λ t. may_take m cg t ≡ false)
        (ap (λ t. t % ipg) e ∙ add-mod_left ipg k ∙ mod-eq_of_lt lt)
        (find_inode-none_seen ipg m cg ipg start 0 h (ipg + k - start) (omega arith) (omega arith))
  | no after ↦
      let e : start + (k - start) ≡ k = omega arith in
      subst (λ t. may_take m cg t ≡ false) (ap (λ t. t % ipg) e ∙ mod-eq_of_lt lt)
        (find_inode-none_seen ipg m cg ipg start 0 h (k - start) (omega arith) (omega arith))
]

used-Counted : (m m' : Bytes) → Counted m m' → (k : ℕ) → used m' k ≡ used m k
unfolding bit
used-Counted m m' h k = rw (h.maps (cg_iused_off + k / 8) (omega arith)) refl

module _ (m : Bytes) (is_bytes : IsBytes m) where
  take_inode-Counted :
      (k : ℕ) (is_dir : Bool) (now : ℕ)
      → Counted (raise m cg_iused_off k) (take_inode m k is_dir now)
  unfolding take_inode
  take_inode-Counted k is_dir now =
      let buf1 = raise m cg_iused_off k in
      let h1 = Counted-refl buf1 (raise-IsBytes m cg_iused_off k is_bytes) in
      let h3 : Counted buf1 (
          write_be32 (bump (write_be32 buf1 cg_irotor_off k) cg_cs_nifree_off (neg32 1)) cg_time_off
            (u32 now)) =
        write_be32-Counted buf1 _ cg_time_off (u32 now) (omega arith) (
          bump-Counted buf1 _ cg_cs_nifree_off (neg32 1) (omega arith)
            (write_be32-Counted buf1 buf1 cg_irotor_off k (omega arith) h1)) in
      elim (Bool-cases is_dir) [
        | inl dir ↦ rw dir (bump-Counted buf1 _ cg_cs_ndir_off 1 (omega arith) h3)
        | inr not_dir ↦ rw not_dir h3
      ]

  release_inode-Counted :
      (k : ℕ) (is_dir : Bool) (now : ℕ)
      → Counted (lower m cg_iused_off k) (release_inode m k is_dir now)
  unfolding release_inode
  release_inode-Counted k is_dir now =
      let buf1 = lower m cg_iused_off k in
      let h1 = Counted-refl buf1 (lower-IsBytes m cg_iused_off k is_bytes) in
      let h2 : Counted buf1 (write_be32 (bump buf1 cg_cs_nifree_off 1) cg_time_off (u32 now)) =
        write_be32-Counted buf1 _ cg_time_off (u32 now) (omega arith)
          (bump-Counted buf1 _ cg_cs_nifree_off 1 (omega arith) h1) in
      elim (Bool-cases is_dir) [
        | inl dir ↦ rw dir (bump-Counted buf1 _ cg_cs_ndir_off (neg32 1) (omega arith) h2)
        | inr not_dir ↦ rw not_dir h2
      ]

  -- Taking an inode puts that inode in use and no other.
  pub used-take_inode :
      (k : ℕ) (is_dir : Bool) (now j : ℕ)
      → used (take_inode m k is_dir now) j ≡ (if k == j then true else used m j)
  used-take_inode k is_dir now j =
      used-Counted _ _ (take_inode-Counted k is_dir now) j ∙ bit-raise m cg_iused_off k is_bytes j

  -- Giving an inode back frees that inode and no other.
  pub used-release_inode :
      (k : ℕ) (is_dir : Bool) (now j : ℕ)
      → used (release_inode m k is_dir now) j ≡ (if k == j then false else used m j)
  used-release_inode k is_dir now j =
      used-Counted _ _ (release_inode-Counted k is_dir now) j
      ∙ bit-lower m cg_iused_off k is_bytes j

  take_inode-IsBytes : (k : ℕ) (is_dir : Bool) (now : ℕ) → IsBytes (take_inode m k is_dir now)
  take_inode-IsBytes k is_dir now = (take_inode-Counted k is_dir now).is_bytes

-- In a group that has inodes, giving back an inode that was found by the search and taken leaves
-- the inode bitmap as it was.
pub used-release_inode-take_inode :
    (m : Bytes) (cg ipg start k : ℕ) (is_dir : Bool) (now later j : ℕ)
    → IsBytes m
    → 0 < ipg
    → find_inode ipg m cg ipg start 0 ≡ some k
    → used (release_inode (take_inode m k is_dir now) k is_dir later) j ≡ used m j
used-release_inode-take_inode m cg ipg start k is_dir now later j h pos found =
    let taken = take_inode m k is_dir now in
    let may = (find_inode-some ipg m cg ipg start 0 k pos found).1 in
    let free : used m k ≡ false = ground arith in
    let e1 = used-release_inode taken (take_inode-IsBytes m h k is_dir now) k is_dir later j in
    let e2 = used-take_inode m h k is_dir now j in
    elim (Bool-cases (k == j)) [
      | inl same ↦
          let e : k ≡ j = ground arith in
          (rw same at e1) ∙ sym (subst (λ t. used m t ≡ false) e free)
      | inr other ↦ (rw other at e1) ∙ (rw other at e2)
    ]
