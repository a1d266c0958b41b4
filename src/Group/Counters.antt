-- ===== src/Group/Counters.antt =====
-- The counters of a group's header lie before its bitmaps: what writes them leaves the inode bitmap,
-- the magic number and the fragment bitmap alone (offsets of include/nextufs_internal.h).
use native.Mathlib.Decide.{dec_lt}
use nextufs.Base.{
  subst, ℕ, zero, suc, ◌+◌, ◌-◌, ◌*◌, ◌/◌, ◌%◌, ◌^◌, ◌≤◌, ◌<◌, ◌≡◌, refl, sym, ◌∙◌, ◌⊎◌, inl, inr,
  ◌&&◌, arith, Bytes, IsBytes, ltb, ◌==◌, Bool-cases, u16, u32,
}
use nextufs.Codec.{
  read_be16, read_be32, write_be16, write_be32, write_be32-outside, write_be16-outside,
  read_be32-write_be32,
}
use nextufs.Codec.Laws.{write_be16-IsBytes, write_be32-IsBytes, read_be32-write_be32_apart}
use nextufs.Superblock.{Superblock}
use nextufs.Group.{
  nrpos, cg_frsum_off, cg_btot_off, cg_bpos_off, cg_iused_off, bump, frsum_upto,
  apply_cg_frsum_delta,
}
use nextufs.Group.Take.{rotational}

-- `m'` is a byte memory that differs from `m` in the counters at most.
pub record Counted (m m' : Bytes) : Type 0 where
  pub is_bytes : IsBytes m'
  pub maps : (i : ℕ) → cg_iused_off ≤ i → m' i ≡ m i

pub Counted-refl : (m : Bytes) → IsBytes m → Counted m m
Counted-refl m h = record { is_bytes = h; maps = λ i _. refl }

pub Counted-trans : (m n k : Bytes) → Counted m n → Counted n k → Counted m k
Counted-trans m n k p q = record { is_bytes = q.is_bytes; maps = λ i ge. q.maps i ge ∙ p.maps i ge }

pub write_be32-Counted :
    (m n : Bytes) (p v : ℕ) → p + 4 ≤ cg_iused_off → Counted m n → Counted m (write_be32 n p v)
write_be32-Counted m n p v le h = record {
  is_bytes = write_be32-IsBytes n p v h.is_bytes;
  maps = λ i ge. write_be32-outside n p v i (inr (omega arith)) ∙ h.maps i ge;
}

pub write_be16-Counted :
    (m n : Bytes) (p v : ℕ) → p + 2 ≤ cg_iused_off → Counted m n → Counted m (write_be16 n p v)
write_be16-Counted m n p v le h = record {
  is_bytes = write_be16-IsBytes n p v h.is_bytes;
  maps = λ i ge. write_be16-outside n p v i (inr (omega arith)) ∙ h.maps i ge;
}

pub bump-Counted :
    (m n : Bytes) (p d : ℕ) → p + 4 ≤ cg_iused_off → Counted m n → Counted m (bump n p d)
unfolding bump
bump-Counted m n p d le h = write_be32-Counted m n p (u32 (read_be32 n p + d)) le h

-- A counter that is bumped moves by the amount, modulo 2 ^ 32.
pub read_be32-bump : (m : Bytes) (p d : ℕ) → read_be32 (bump m p d) p ≡ u32 (read_be32 m p + d)
unfolding bump
read_be32-bump m p d = omega (arith, read_be32-write_be32 m p (u32 (read_be32 m p + d)))

pub read_be32-bump_apart :
    (m : Bytes) (p q d : ℕ) → (p + 4 ≤ q) ⊎ (q + 4 ≤ p) → read_be32 (bump m q d) p ≡ read_be32 m p
unfolding bump
read_be32-bump_apart m p q d apart =
    read_be32-write_be32_apart m p q (u32 (read_be32 m q + d)) apart

pub frsum_upto-Counted :
    (m n : Bytes) (before after : ℕ → ℕ) (k : ℕ)
    → k < 8
    → Counted m n
    → Counted m (frsum_upto n before after k)
unfolding frsum_upto
frsum_upto-Counted m n before after zero lt h = h
frsum_upto-Counted m n before after (suc k) lt h =
    let ih = frsum_upto-Counted m n before after k (omega arith) h in
    elim (Bool-cases (after (suc k) == before (suc k))) [
      | inl same ↦ rw same ih
      | inr moved ↦ rw moved (
          bump-Counted m (frsum_upto n before after k) (cg_frsum_off + suc k * 4)
            (u32 (after (suc k) + 2 ^ 32 - before (suc k))) (omega arith) ih)
    ]

pub apply_cg_frsum_delta-Counted :
    (m n : Bytes) (before after : ℕ → ℕ) (fpb : ℕ)
    → fpb ≤ 8
    → Counted m n
    → Counted m (apply_cg_frsum_delta n before after fpb)
unfolding apply_cg_frsum_delta
apply_cg_frsum_delta-Counted m n before after fpb le h =
    frsum_upto-Counted m n before after (fpb - 1) (omega arith) h

-- What lies outside the run summary is not touched by it.
frsum_upto-outside :
    (m : Bytes) (before after : ℕ → ℕ) (k p : ℕ)
    → (p + 4 ≤ cg_frsum_off) ⊎ (cg_frsum_off + suc k * 4 ≤ p)
    → read_be32 (frsum_upto m before after k) p ≡ read_be32 m p
unfolding frsum_upto
frsum_upto-outside m before after zero p out = refl
frsum_upto-outside m before after (suc k) p out =
    let ih = frsum_upto-outside m before after k p (omega arith) in
    let b =
      read_be32-bump_apart (frsum_upto m before after k) p (cg_frsum_off + suc k * 4)
        (u32 (after (suc k) + 2 ^ 32 - before (suc k))) (omega arith) in
    ground (arith, ih, b)

pub apply_cg_frsum_delta-header :
    (m : Bytes) (before after : ℕ → ℕ) (fpb p : ℕ)
    → p + 4 ≤ cg_frsum_off
    → read_be32 (apply_cg_frsum_delta m before after fpb) p ≡ read_be32 m p
unfolding apply_cg_frsum_delta
apply_cg_frsum_delta-header m before after fpb p le =
    frsum_upto-outside m before after (fpb - 1) p (inl le)

rebased :
    (x others b a : ℕ)
    → b < 2 ^ 32
    → x ≡ u32 (others + b)
    → u32 (x + u32 (a + 2 ^ 32 - b)) ≡ u32 (others + a)
rebased x others b a small e = omega arith

unmoved : (x others b a : ℕ) → a ≡ b → x ≡ u32 (others + b) → x ≡ u32 (others + a)
unmoved x others b a same e = omega arith

frsum_upto-moves :
    (m : Bytes) (before after : ℕ → ℕ) (k i others : ℕ)
    → 0 < i
    → i ≤ k
    → before i < 2 ^ 32
    → read_be32 m (cg_frsum_off + i * 4) ≡ u32 (others + before i)
    → read_be32 (frsum_upto m before after k) (cg_frsum_off + i * 4) ≡ u32 (others + after i)
unfolding frsum_upto
frsum_upto-moves m before after zero i others pos le small e = absurd (omega arith)
frsum_upto-moves m before after (suc k) i others pos le small e = elim (dec_lt i (suc k)) [
  | yes lower ↦
      let ih = frsum_upto-moves m before after k i others pos (omega arith) small e in
      let b =
        read_be32-bump_apart (frsum_upto m before after k) (cg_frsum_off + i * 4)
          (cg_frsum_off + suc k * 4) (u32 (after (suc k) + 2 ^ 32 - before (suc k)))
          (omega arith) in
      ground (arith, ih, b)
  | no top ↦
      let same : i ≡ suc k = omega arith in
      let small' = subst (λ t. before t < 2 ^ 32) same small in
      let old =
        frsum_upto-outside m before after k (cg_frsum_off + suc k * 4) (inr (omega arith))
        ∙ subst (λ t. read_be32 m (cg_frsum_off + t * 4) ≡ u32 (others + before t)) same e in
      subst
        (λ t.
          read_be32 (frsum_upto m before after (suc k)) (cg_frsum_off + t * 4)
          ≡ u32 (others + after t))
        (sym same)
        (elim (Bool-cases (after (suc k) == before (suc k))) [
          | inl eq ↦
              let eq' : after (suc k) ≡ before (suc k) = ground arith in
              rw eq (unmoved _ others (before (suc k)) (after (suc k)) eq' old)
          | inr moved ↦ rw moved (
              read_be32-bump (frsum_upto m before after k) (cg_frsum_off + suc k * 4)
                (u32 (after (suc k) + 2 ^ 32 - before (suc k)))
              ∙ rebased _ others (before (suc k)) (after (suc k)) small' old)
        ])
]

-- When the summary of runs of length `i`, shorter than a block, counts the runs of this block and
-- of the others modulo 2 ^ 32, it still does after the update, with the block's new runs.
pub apply_cg_frsum_delta-moves :
    (m : Bytes) (before after : ℕ → ℕ) (fpb i others : ℕ)
    → 0 < i
    → i < fpb
    → before i < 2 ^ 32
    → read_be32 m (cg_frsum_off + i * 4) ≡ u32 (others + before i)
    → read_be32 (apply_cg_frsum_delta m before after fpb) (cg_frsum_off + i * 4)
      ≡ u32 (others + after i)
unfolding apply_cg_frsum_delta
apply_cg_frsum_delta-moves m before after fpb i others pos lt small e =
    frsum_upto-moves m before after (fpb - 1) i others pos (omega arith) small e

pub rotational-Counted :
    (sb : Superblock) (m n : Bytes) (local_frag d32 d16 : ℕ)
    → Counted m n
    → Counted m (rotational sb n local_frag d32 d16)
unfolding rotational
rotational-Counted sb m n local_frag d32 d16 h =
    let sector = u32 (local_frag * sb.sectors_per_frag) in
    let cylno = sector / sb.sectors_per_cyl in
    let rotpos =
      u32 (sector % sb.sectors_per_cyl % sb.sectors_per_track * nrpos) / sb.sectors_per_track in
    let bposp = cg_bpos_off + (cylno * nrpos + rotpos) * 2 in
    let buf1 = bump n (cg_btot_off + cylno * 4) d32 in
    elim (Bool-cases (ltb cylno 32 && ltb rotpos nrpos)) [
      | inl inside ↦ rw inside (
          write_be16-Counted m buf1 bposp (u16 (read_be16 buf1 bposp + d16)) (ground arith)
            (bump-Counted m n (cg_btot_off + cylno * 4) d32 (ground arith) h))
      | inr outside ↦ rw outside h
    ]
