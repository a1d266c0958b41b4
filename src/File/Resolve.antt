-- ===== src/File/Resolve.antt =====
-- The two ways to find the fragment of a block of a file: resolve_file_block_frag of
-- src/core/image.c and nextufs__resolve_inode_data_block of src/core/alloc.c.
use nextufs.Base.{
  subst, ℕ, zero, suc, ◌-◌, ◌%◌, ◌^◌, ◌<◌, ◌≡◌, refl, ◌↔◌, inl, inr, true, false, Result, ok, err,
  ltb, ◌==◌, if◌then◌else◌, u64, arith, Bool-cases,
}
use nextufs.Disk.{Dev, Image, Env, M, and_then, pure, fail, ◌>>=◌}
use nextufs.Inode.{Inode}
use nextufs.Alloc.Indirect.{entries_per_block, read_indirect_entry, resolve_indirect_data_block}
use nextufs.Alloc.Storage.{resolve_from_slot, resolve_inode_data_block}
use nextufs.File.{
  or_eio, read_entry, resolve_indirect_block_frag, resolve_frag_from, resolve_file_block_frag,
}

-- Both give the same result and state, or both fail.
Agree : {S : Type 0} → Result ℕ × Dev S → Result ℕ × Dev S → Type 0
Agree (ok f, d) (ok g, d') = (f ≡ g) × (d ≡ d')
Agree (ok f, d) (err e, d') = ⊥
Agree (err e, d) (ok g, d') = ⊥
Agree (err e, d) (err e', d') = d ≡ d'

module _ {S : Type 0} where
  Agree-refl : (r : Result ℕ × Dev S) → Agree r r
  unfolding Agree
  Agree-refl (ok f, d) = (refl, refl)
  Agree-refl (err e, d) = refl

  fail-Agree : (e e' : ℕ) (d : Dev S) → Agree (fail e d) (fail e' d)
  unfolding Agree fail
  fail-Agree e e' d = refl

  Agree-ok : (r q : Result ℕ × Dev S) → Agree r q → (f : ℕ) → (r.0 ≡ ok f) ↔ (q.0 ≡ ok f)
  unfolding Agree
  Agree-ok (ok g, d) (ok g', d') h f = ((λ e. cc), (λ e. cc))
  Agree-ok (ok g, d) (err e, d') h f = absurd h
  Agree-ok (err e, d) (ok g, d') h f = absurd h
  Agree-ok (err e, d) (err e', d') h f = ((λ x. cc), (λ x. cc))

  both_equal : {g g' : ℕ} {d d' : Dev S} → g ≡ g' → d ≡ d' → ◌≡◌ {A = ℕ × Dev S} (g, d) (g', d')
  both_equal e h = cc

  Agree-bind :
      (r q : Result ℕ × Dev S) (k l : ℕ → M S ℕ)
      → Agree r q
      → ((f : ℕ) (d : Dev S) → Agree (k f d) (l f d))
      → Agree (and_then r k) (and_then q l)
  unfolding Agree
  Agree-bind (ok g, d) (ok g', d') k l h next =
      subst (λ p. Agree (k g d) (l p.0 p.1)) (both_equal h.0 h.1) (next g d)
  Agree-bind (ok g, d) (err e, d') k l h next = absurd h
  Agree-bind (err e, d) (ok g, d') k l h next = absurd h
  Agree-bind (err e, d) (err e', d') k l h next = h

  child_step :
      (next : ℕ) (k l : M S ℕ) (d : Dev S)
      → ((next == 0) ≡ true → l d ≡ pure 0 d)
      → Agree (k d) (l d)
      → Agree ((if next == 0 then pure 0 else k) d) (l d)
  child_step next k l d hole child = elim (Bool-cases (next == 0)) [
    | inl none ↦ rw (none, hole none) (Agree-refl (pure 0 d))
    | inr some_child ↦ rw some_child child
  ]

  module _ (env : Env S) (img : Image) (entries : 0 < entries_per_block env img) where
    some_entries : (entries_per_block env img == 0) ≡ false
    some_entries = ground arith

    eio_only : (r : Result ℕ × Dev S) → Agree (or_eio env img r.0 r.1) r
    unfolding Agree or_eio pure fail
    eio_only (ok f, d) = (refl, refl)
    eio_only (err e, d) = refl

    read_entry-Agree :
        (block entry : ℕ) (d : Dev S)
        → Agree (read_entry env img block entry d) (read_indirect_entry env img block entry d)
    unfolding read_entry ◌>>=◌
    read_entry-Agree block entry d = eio_only (read_indirect_entry env img block entry d)

    hole_below :
        (above next index : ℕ) (d : Dev S)
        → (next == 0) ≡ true
        → resolve_indirect_data_block env img above next index d ≡ pure 0 d
    unfolding resolve_indirect_data_block
    hole_below zero next index d hole = rw hole refl
    hole_below (suc above) next index d hole = rw hole refl

    resolve_indirect-Agree :
        (above block index : ℕ) (d : Dev S)
        → Agree
            (resolve_indirect_block_frag env img above block index d)
            (resolve_indirect_data_block env img above block index d)
    unfolding resolve_indirect_block_frag resolve_indirect_data_block ◌>>=◌
    resolve_indirect-Agree zero block index d = rw some_entries (elim (Bool-cases (block == 0)) [
      | inl hole ↦ rw hole (Agree-refl _)
      | inr there ↦ rw there (read_entry-Agree block index d)
    ])
    resolve_indirect-Agree (suc above) block index d =
        rw some_entries (elim (Bool-cases (block == 0)) [
          | inl hole ↦ rw hole (Agree-refl _)
          | inr there ↦ rw there (
              Agree-bind _ _ _ _ (read_entry-Agree block _ d) λ next d'.
                let rest = index % u64 (entries_per_block env img ^ suc above) in
                child_step next (resolve_indirect_block_frag env img above next rest)
                  (resolve_indirect_data_block env img above next rest) d'
                  (hole_below above next rest d') (resolve_indirect-Agree above next rest d'))
        ])

    resolve_from-Agree :
        (ino : Inode) (slot index span n : ℕ) (d : Dev S)
        → Agree
            (resolve_frag_from env img ino slot index span n d)
            (resolve_from_slot env img ino slot index span n d)
    unfolding resolve_frag_from resolve_from_slot
    resolve_from-Agree ino slot index span zero d = fail-Agree _ _ d
    resolve_from-Agree ino slot index span (suc n) d = elim (Bool-cases (ltb index span)) [
      | inl here ↦ rw here (resolve_indirect-Agree slot (ino.ib slot) index d)
      | inr later ↦ rw later (resolve_from-Agree ino (suc slot) (index - span) _ n d)
    ]

    resolve_file-Agree :
        (ino : Inode) (block : ℕ) (d : Dev S)
        → Agree
            (resolve_file_block_frag env img ino block d)
            (resolve_inode_data_block env img ino block d)
    unfolding resolve_file_block_frag resolve_inode_data_block
    resolve_file-Agree ino block d = elim (Bool-cases (ltb block 12)) [
      | inl direct ↦ rw direct (Agree-refl _)
      | inr indirect ↦ rw indirect (resolve_from-Agree ino 0 (block - 12) _ 3 d)
    ]

    -- Where blocks have entries, the reader and the allocator find the same fragment for every block
    -- of a file, and fail on the same blocks.
    pub resolve_file_block_frag-resolve_inode_data_block :
        (ino : Inode) (block : ℕ) (d : Dev S) (f : ℕ)
        → ((resolve_file_block_frag env img ino block d).0 ≡ ok f)
          ↔ ((resolve_inode_data_block env img ino block d).0 ≡ ok f)
    resolve_file_block_frag-resolve_inode_data_block ino block d f =
        Agree-ok _ _ (resolve_file-Agree ino block d) f
