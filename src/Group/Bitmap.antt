-- ===== src/Group/Bitmap.antt =====
-- The loops over a run of bits of the free-fragment bitmap (src/core/alloc.c), run by run.
use native.Mathlib.Decide.{dec_lt}
use nextufs.Base.{
  ℕ, zero, suc, ◌+◌, ◌≤◌, ◌<◌, ◌≡◌, refl, ap, ◌∙◌, ◌↔◌, inl, inr, Bool, true, false, some, arith,
  Bytes, IsBytes, if◌then◌else◌, Bool-cases, within,
}
use nextufs.Bits.{bit, raise, lower, raise-IsBytes, lower-IsBytes, bit-raise, bit-lower}
use nextufs.Group.{cg_free_off, block_is_free, set_run_bits, clear_block_bits}
use nextufs.Group.Take.{raise_run}

-- fragment `k` of the group is free
abbrev pub free : Bytes → ℕ → Bool
free m k = bit m cg_free_off k

-- all of the `n` fragments from `base` are free, or all are in use
abbrev pub AllAre : Bool → Bytes → ℕ → ℕ → Type 0
AllAre b m base n = (k : ℕ) → base ≤ k → k < base + n → free m k ≡ b

AllAre-suc :
    (b : Bool) (m : Bytes) (base n : ℕ)
    → free m base ≡ b
    → AllAre b m (suc base) n
    → AllAre b m base (suc n)
AllAre-suc b m base n here rest k ge lt = elim (dec_lt base k) [
  | yes later ↦ rest k later (omega arith)
  | no at ↦ let e : k ≡ base = omega arith in ap (free m) e ∙ here
]

-- The two loops that test a run say whether every fragment of it is free.
pub set_run_bits-true :
    (m : Bytes) (base n : ℕ) → (set_run_bits m base n ≡ true) ↔ AllAre true m base n
unfolding set_run_bits
set_run_bits-true m base zero = ((λ _ k ge lt. absurd (omega arith)), (λ _. refl))
set_run_bits-true m base (suc n) =
    let ih = set_run_bits-true m (suc base) n in
    elim (Bool-cases (free m base)) [
      | inl set ↦ (
        (λ h. AllAre-suc true m base n set (ih.0 (ground arith))),
        (λ all. rw set (ih.1 (λ k ge lt. all k (omega arith) (omega arith)))),
      )
      | inr clear ↦ (
        (λ h. absurd (ground arith)),
        (λ all. absurd (let f = all base (omega arith) (omega arith) in cc)),
      )
    ]

pub block_is_free-set_run_bits :
    (m : Bytes) (base n : ℕ) → block_is_free m base n ≡ set_run_bits m base n
unfolding block_is_free set_run_bits
block_is_free-set_run_bits m base zero = refl
block_is_free-set_run_bits m base (suc n) = rw (block_is_free-set_run_bits m (suc base) n) refl

pub clear_block_bits-IsBytes :
    (m : Bytes) (base n : ℕ) → IsBytes m → IsBytes (clear_block_bits m base n)
unfolding clear_block_bits
clear_block_bits-IsBytes m base zero h = h
clear_block_bits-IsBytes m base (suc n) h =
    clear_block_bits-IsBytes (lower m cg_free_off base) (suc base) n
      (lower-IsBytes m cg_free_off base h)

-- Clearing a run puts its fragments in use and leaves every other one.
pub free-clear_block_bits :
    (m : Bytes) (base n : ℕ)
    → IsBytes m
    → (k : ℕ) → free (clear_block_bits m base n) k ≡ (if within base n k then false else free m k)
unfolding clear_block_bits
free-clear_block_bits m base zero h k = ground arith
free-clear_block_bits m base (suc n) h k = ground (
  arith,
  free-clear_block_bits (lower m cg_free_off base) (suc base) n (lower-IsBytes m cg_free_off base h)
      k,
  bit-lower m cg_free_off base h k,
)

-- A run that can be set was in use, is free afterwards, and nothing else changes.
pub free-raise_run :
    (m m' : Bytes) (at n : ℕ)
    → IsBytes m
    → raise_run m at n ≡ some m'
    → AllAre false m at n × ((k : ℕ) → free m' k ≡ (if within at n k then true else free m k))
unfolding raise_run
free-raise_run m m' at zero h e = ((λ k ge lt. absurd (omega arith)), (λ k. ground arith))
free-raise_run m m' at (suc n) h e = elim (Bool-cases (free m at)) [
  | inl set ↦ absurd (ground arith)
  | inr clear ↦
      let ih =
        free-raise_run (raise m cg_free_off at) m' (suc at) n (raise-IsBytes m cg_free_off at h)
          (rw clear at e) in
      (
        AllAre-suc false m at n clear (λ k ge lt.
            let r = ih.0 k ge lt in let b = bit-raise m cg_free_off at h k in ground arith),
        (λ k. ground (arith, ih.1 k, bit-raise m cg_free_off at h k)),
      )
]

-- A run that is in use can always be set.
pub raise_run-some :
    (m : Bytes) (at n : ℕ)
    → IsBytes m
    → AllAre false m at n
    → (m' : Bytes) × (raise_run m at n ≡ some m')
unfolding raise_run
raise_run-some m at zero h all = (m, refl)
raise_run-some m at (suc n) h all = rw (all at (omega arith) (omega arith)) (
    raise_run-some (raise m cg_free_off at) (suc at) n (raise-IsBytes m cg_free_off at h)
      (λ k ge lt.
        let r = all k (omega arith) (omega arith) in
        let b = bit-raise m cg_free_off at h k in ground arith))
