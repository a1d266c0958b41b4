-- ===== src/Group/Partial.antt =====
-- The search of a partly used block in nextufs__allocate_frags_in_group (src/core/alloc.c).
use nextufs.Base.{
  ℕ, zero, suc, ◌+◌, ◌-◌, ◌*◌, ◌≤◌, ◌<◌, ◌≡◌, refl, subst, sym, ◌∙◌, inl, inr, Bool, true, false,
  ◌&&◌, Option, none, some, arith, Bytes, ◌==◌, if◌then◌else◌, Bool-cases,
}
use nextufs.Group.{block_is_free}
use nextufs.Group.Bitmap.{AllAre}
use nextufs.Group.Search.{find_start, find_partial, in_block}
use nextufs.Group.Found.{find_start-some, find_start-none, block_is_free-true, block_end, IsUsed}

is_some : (p : ℕ × ℕ) → ¬ (◌≡◌ {A = Option (ℕ × ℕ)} (some p) none)
is_some p e = cc

-- whether the block at `at` is skipped: it is whole and free
abbrev skipped : Bytes → ℕ → ℕ → ℕ → Bool
skipped m limit fpb at = block_end limit fpb at - at == fpb && block_is_free m at fpb

skipped-false :
    (m : Bytes) (limit fpb at : ℕ) → skipped m limit fpb at ≡ false → IsUsed m limit fpb at
skipped-false m limit fpb at h (le, all) =
    let set = (block_is_free-true m at fpb).1 all in absurd (ground arith)

skipped-true :
    (m : Bytes) (limit fpb at : ℕ)
    → at < limit
    → skipped m limit fpb at ≡ true
    → (at + fpb ≤ limit) × AllAre true m at fpb
skipped-true m limit fpb at lt h =
    let set : block_is_free m at fpb ≡ true = ground arith in
    (ground arith, (block_is_free-true m at fpb).0 set)

find_partial-step :
    (fuel : ℕ) (m : Bytes) (at limit fpb need : ℕ)
    → at < limit
    → find_partial (suc fuel) m at limit fpb need ≡ (
        if skipped m limit fpb at
        then find_partial fuel m (at + fpb) limit fpb need
        else in_block at
            (find_start (suc fpb) m at (block_end limit fpb at) need)
            (find_partial fuel m (at + fpb) limit fpb need))
unfolding find_partial
find_partial-step fuel m at limit fpb need lt = ground arith

in_block-cases {κ} :
    (P : Type κ) (at : ℕ) (o : Option ℕ) (rest out : Option (ℕ × ℕ))
    → in_block at o rest ≡ out
    → ((s : ℕ) → o ≡ some s → some (at, s) ≡ out → P)
    → (o ≡ none → rest ≡ out → P)
    → P
in_block-cases P at (some s) rest out e found other = found s refl e
in_block-cases P at none rest out e found other = other refl e

-- where a found run lies
abbrev pub IsFound : Bytes → ℕ → ℕ → ℕ → ℕ → ℕ → ℕ → Type 0
IsFound m first limit fpb need b r =
    ((j : ℕ) × (b ≡ first + j * fpb))
    × (b ≤ r)
    × (r + need ≤ block_end limit fpb b)
    × AllAre true m r need
    × IsUsed m limit fpb b

unfold_zero :
    (m : Bytes) (first limit fpb need b r : ℕ)
    → ¬ (find_partial 0 m first limit fpb need ≡ some (b, r))
unfolding find_partial
unfold_zero m first limit fpb need b r h = ground arith

in_group :
    (fuel : ℕ) (m : Bytes) (first limit fpb need b r : ℕ)
    → find_partial (suc fuel) m first limit fpb need ≡ some (b, r)
    → first < limit
unfolding find_partial
in_group fuel m first limit fpb need b r h = ground arith

moved :
    (m : Bytes) (first limit fpb need b r : ℕ)
    → IsFound m (first + fpb) limit fpb need b r
    → IsFound m first limit fpb need b r
moved m first limit fpb need b r (aligned, ge, le, all, used) =
    ((suc aligned.0, omega (arith, aligned.1)), ge, le, all, used)

IsFound-here :
    (m : Bytes) (first limit fpb need b r s : ℕ)
    → IsUsed m limit fpb first
    → ◌≡◌ {A = Option (ℕ × ℕ)} (some (first, s)) (some (b, r))
    → (first ≤ s)
      × (s + need ≤ block_end limit fpb first)
      × AllAre true m s need
      × ((k : ℕ) → first ≤ k → k < s → ¬ AllAre true m k need)
    → IsFound m first limit fpb need b r
IsFound-here m first limit fpb need b r s used e (ge, le, all, _) =
    let eb : first ≡ b = cc in
    let er : s ≡ r = cc in
    (
      (0, omega (arith, eb)),
      omega (arith, eb, er),
      subst (λ t. t + need ≤ block_end limit fpb b) er
          (subst (λ t. s + need ≤ block_end limit fpb t) eb le),
      subst (λ t. AllAre true m t need) er all,
      subst (IsUsed m limit fpb) eb used,
    )

-- A run that is found lies in one block of the group and before the limit, its fragments are all
-- free, and its block is not wholly free.
pub find_partial-some :
    (fuel : ℕ) (m : Bytes) (first limit fpb need b r : ℕ)
    → find_partial fuel m first limit fpb need ≡ some (b, r)
    → IsFound m first limit fpb need b r
find_partial-some zero m first limit fpb need b r h =
    absurd (unfold_zero m first limit fpb need b r h)
find_partial-some (suc fuel) m first limit fpb need b r h =
    let lt = in_group fuel m first limit fpb need b r h in
    let step = sym (find_partial-step fuel m first limit fpb need lt) ∙ h in
    let later : find_partial fuel m (first + fpb) limit fpb need ≡ some (b, r)
        → IsFound m first limit fpb need b r =
      λ deeper.
        moved m first limit fpb need b r
          (find_partial-some fuel m (first + fpb) limit fpb need b r deeper) in
    elim (Bool-cases (skipped m limit fpb first)) [
      | inl skip ↦ later (rw skip at step)
      | inr here ↦
          in_block-cases (IsFound m first limit fpb need b r) first
            (find_start (suc fpb) m first (block_end limit fpb first) need) _ _ (rw here at step)
            (λ s found e.
              IsFound-here m first limit fpb need b r s (skipped-false m limit fpb first here) e
                (find_start-some (suc fpb) m first (block_end limit fpb first) need s found))
            (λ _ deeper. later deeper)
    ]

-- When the search finds nothing, with more turns than fragments up to the limit, no block of the
-- group that is not wholly free has a free run of `need` fragments, for `need` not 0.
pub find_partial-none :
    (fuel : ℕ) (m : Bytes) (first limit fpb need : ℕ)
    → 0 < fpb
    → 0 < need
    → limit < first + fuel
    → find_partial fuel m first limit fpb need ≡ none
    → (j k : ℕ) → first + j * fpb ≤ k
    → k + need ≤ block_end limit fpb (first + j * fpb)
    → IsUsed m limit fpb (first + j * fpb)
    → ¬ AllAre true m k need
find_partial-none zero m first limit fpb need pos some_need enough h j k ge le used all =
    ground arith
find_partial-none (suc fuel) m first limit fpb need pos some_need enough h zero k ge le used all =
    let e : first + 0 * fpb ≡ first = omega arith in
    let le' = subst (λ t. k + need ≤ block_end limit fpb t) e le in
    let used' = subst (IsUsed m limit fpb) e used in
    let lt : first < limit = ground arith in
    let step = sym (find_partial-step fuel m first limit fpb need lt) ∙ h in
    elim (Bool-cases (skipped m limit fpb first)) [
      | inl skip ↦ used' (skipped-true m limit fpb first lt skip)
      | inr here ↦
          in_block-cases ⊥ first (find_start (suc fpb) m first (block_end limit fpb first) need) _ _
            (rw here at step) (λ s _ e. absurd (is_some (first, s) e))
            (λ nothing _.
              find_start-none (suc fpb) m first (block_end limit fpb first) need (ground arith)
                nothing k (omega arith) le' all)
    ]
find_partial-none (suc fuel) m first limit fpb need pos some_need enough h (suc j) k ge le used
      all =
    let e : first + suc j * fpb ≡ first + fpb + j * fpb = omega arith in
    let le' = subst (λ t. k + need ≤ block_end limit fpb t) e le in
    let used' = subst (IsUsed m limit fpb) e used in
    let lt : first < limit = ground arith in
    let step = sym (find_partial-step fuel m first limit fpb need lt) ∙ h in
    let later : find_partial fuel m (first + fpb) limit fpb need ≡ none → ⊥ = λ deeper.
      find_partial-none fuel m (first + fpb) limit fpb need pos some_need (omega arith) deeper j k
        (omega arith) le' used' all in
    elim (Bool-cases (skipped m limit fpb first)) [
      | inl skip ↦ later (rw skip at step)
      | inr here ↦
          in_block-cases ⊥ first (find_start (suc fpb) m first (block_end limit fpb first) need) _ _
            (rw here at step) (λ s _ e. absurd (is_some (first, s) e)) (λ _ deeper. later deeper)
    ]
