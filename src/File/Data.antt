-- ===== src/File/Data.antt =====
-- What nextufs_inode_read_data of src/core/image.c reads.
use native.Mathlib.Decide.{dec_lt}
use native.Mathlib.Nat.{mod-lt, mul-add-div_right, div-eq_of_lt, div-add-mod}
use nextufs.Base.{
  subst, ℕ, zero, suc, ◌+◌, ◌-◌, ◌*◌, ◌/◌, ◌%◌, ◌^◌, ◌≤◌, ◌<◌, ◌≡◌, ap, sym, ◌∙◌, inl, inr, true,
  arith, Bytes, zeros, splice, within, Result, ok, err, ltb, leb, ◌==◌, if◌then◌else◌, u64, eio,
  Bool-cases,
}
use nextufs.Disk.{Dev, Image, Env, pure, fail}
use nextufs.Disk.Laws.{Stores}
use nextufs.Disk.Effects.{read_exact-contents}
use nextufs.Geometry.{image_validate}
use nextufs.Geometry.Facts.{validate-Sound}
use nextufs.Inode.{Inode}
use nextufs.Alloc.Runs.{frag_offset}
use nextufs.File.{resolve_file_block_frag, read_chunk, read_blocks, inode_read_data}
use nextufs.File.Steady.{resolve_file-Steady, read_chunk-Steady, bind-ok}

module _ {S : Type 0} (env : Env S) (laws : Stores S env) (img : Image) where
  open img.sb use {block_size, frag_size, frag_count}

  -- `b` is the byte of the file at `pos`: 0 in a hole, else the byte of its fragment on the disk.
  abbrev pub IsByte : Dev S → Inode → ℕ → ℕ → Type 0
  IsByte d ino pos b =
      (f : ℕ) × ((resolve_file_block_frag env img ino (pos / block_size) d).0 ≡ ok f)
      × (b ≡ (
          if f == 0
          then 0
          else laws.contents d.store (img.slice_base + f * frag_size + pos % block_size)))

  module _ (fits : frag_count * frag_size ≤ img.slice_size)
      (ends : img.slice_base + img.slice_size < 2 ^ 63) where
    read_chunk-contents :
        (f at n i : ℕ) (d : Dev S) (c : Bytes)
        → (read_chunk env img f at n d).0 ≡ ok c
        → i < n
        → c i ≡ (
            if f == 0 then 0 else laws.contents d.store (img.slice_base + f * frag_size + (at + i)))
    unfolding read_chunk pure fail
    read_chunk-contents f at n i d c h lt = elim (Bool-cases (f == 0)) [
      | inl hole ↦ rw hole (sym (ap (λ b. b i) (same_bytes zeros c (rw hole at h))))
      | inr there ↦ elim (Bool-cases (ltb (frag_count * frag_size) (f * frag_size + at + n))) [
        | inl past ↦ absurd (no_error eio c (rw past at (rw there at h)))
        | inr inside ↦
            let e : u64 (frag_offset env img f + at) + i
                ≡ img.slice_base + f * frag_size + (at + i) =
              ground arith in
            rw there (
              read_exact-contents env laws img n (u64 (frag_offset env img f + at)) d c
                (rw inside at (rw there at h)) i lt
              ∙ ap (laws.contents d.store) e)
      ]
    ]
      where
        same_bytes : (a b : Bytes) → ok a ≡ ok b → a ≡ b
        same_bytes a b e = cc

        no_error : (e : ℕ) (b : Bytes) → ¬ (err e ≡ ok b)
        no_error e b x = cc

    stopped :
        (buf out : Bytes) (n count : ℕ)
        → ◌≡◌ {A = Result (Bytes × ℕ)} (ok (buf, n)) (ok (out, count))
        → (buf ≡ out) × (n ≡ count)
    stopped buf out n count h = (cc, cc)

    in_block :
        (index bs k : ℕ) → k < bs → ((index * bs + k) / bs ≡ index) × ((index * bs + k) % bs ≡ k)
    in_block index bs k lt =
        let q =
          mul-add-div_right {m = bs} (omega arith) index k
          ∙ ap (λ t. index + t) (div-eq_of_lt lt) in
        let q' : (index * bs + k) / bs ≡ index = omega (arith, q) in
        (q', omega (arith, div-add-mod (index * bs + k) bs, ap (λ t. bs * t) q'))

    here-IsByte :
        (ino : Inode) (index at n i f : ℕ) (d : Dev S) (c : Bytes)
        → at + n ≤ block_size
        → (resolve_file_block_frag env img ino index d).0 ≡ ok f
        → (read_chunk env img f at n d).0 ≡ ok c
        → i < n
        → IsByte d ino (index * block_size + at + i) (c i)
    here-IsByte ino index at n i f d c le found got lt =
        let e : index * block_size + at + i ≡ index * block_size + (at + i) = omega arith in
        let place = in_block index block_size (at + i) (omega arith) in
        subst (λ p. IsByte d ino p (c i)) (sym e)
          (
            f,
            subst (λ b. (resolve_file_block_frag env img ino b d).0 ≡ ok f) (sym place.0) found,
            subst
                (λ o. c i ≡ (
                  if f == 0 then 0 else laws.contents d.store (img.slice_base + f * frag_size + o)))
                (sym place.1) (read_chunk-contents f at n i d c got lt),
          )

    spliced :
        (buf c : Bytes) (n finished i : ℕ) → i < n → splice buf c n finished (finished + i) ≡ c i
    spliced buf c n finished i lt =
        let e : finished + i - finished ≡ i = omega arith in
        let inside : within finished n (finished + i) ≡ true = ground arith in rw inside (ap c e)

    -- what a run of the loop gives
    abbrev Filled : Dev S → Inode → ℕ → ℕ → ℕ → Bytes → Bytes → ℕ → Type 0
    Filled d ino pos left finished buf out count =
        (count ≡ finished + left)
        × ((i : ℕ) → i < finished → out i ≡ buf i)
        × ((i : ℕ) → i < left → IsByte d ino (pos + i) (out (finished + i)))

    read_blocks-Filled :
        (fuel : ℕ) (ino : Inode) (index at left finished : ℕ) (buf : Bytes) (d : Dev S)
        (out : Bytes) (count : ℕ)
        → left < fuel
        → at < block_size
        → (read_blocks env img fuel ino index at left finished buf d).0 ≡ ok (out, count)
        → Filled d ino (index * block_size + at) left finished buf out count
    unfolding read_blocks pure
    read_blocks-Filled zero ino index at left finished buf d out count enough small h =
        absurd (omega arith)
    read_blocks-Filled (suc fuel) ino index at left finished buf d out count enough small h =
        elim (Bool-cases (left == 0)) [
          | inl none ↦
              let e = stopped buf out finished count (rw none at h) in
              let z : left ≡ 0 = ground arith in
              (omega (arith, e.1), λ i lt. ap (λ b. b i) (sym e.0), λ i lt. absurd (omega arith))
          | inr more ↦
              let n = (if ltb left (block_size - at) then left else block_size - at) in
              let first =
                bind-ok _ _ d (out, count) (resolve_file-Steady env laws img ino index)
                  (rw more at h) in
              let second =
                bind-ok _ _ d (out, count) (read_chunk-Steady env laws img first.0 at n) first.2 in
              let c = second.0 in
              let some_left : ¬ (left ≡ 0) = ground arith in
              let ih =
                read_blocks-Filled fuel ino (suc index) 0 (left - n) (finished + n)
                  (splice buf c n finished) d out count (ground arith) (omega arith) second.2 in
              (
                ground (arith, ih.0),
                (λ i lt. ih.1 i (omega arith) ∙ ground arith),
                (λ i lt. elim (dec_lt i n) [
                  | yes now ↦
                      subst (IsByte d ino (index * block_size + at + i))
                        (sym (ih.1 (finished + i) (omega arith) ∙ spliced buf c n finished i now))
                        (here-IsByte ino index at n i first.0 d c (ground arith) first.1 second.1
                          now)
                  | no later ↦
                      let to_end : n ≡ block_size - at = ground arith in
                      let pos : suc index * block_size + 0 + (i - n) ≡ index * block_size + at + i =
                        omega (arith, to_end) in
                      let place : finished + n + (i - n) ≡ finished + i = omega arith in
                      subst (IsByte d ino (index * block_size + at + i)) (ap out place) (
                        subst (λ q. IsByte d ino q (out (finished + n + (i - n)))) pos
                          (ih.2 (i - n) (omega arith)))
                ]),
              )
        ]

  -- In an image that passes the checks, whose slice ends below 2 ^ 63, a read that succeeds gives as
  -- many bytes as the file has from `start` on, as far as the buffer has room, and each of them is
  -- the byte of the file at its place: 0 in a hole, else the byte on the disk.
  pub inode_read_data-IsByte :
      image_validate img ≡ ok tt
      → img.slice_base + img.slice_size < 2 ^ 63
      → (ino : Inode) (start size : ℕ) (buf : Bytes) (d : Dev S) (out : Bytes) (count : ℕ)
      → (inode_read_data env img ino start buf size d).0 ≡ ok (out, count)
      → (count ≡ (if ltb size (ino.size - start) then size else ino.size - start))
        × ((i : ℕ) → i < count → IsByte d ino (start + i) (out i))
  unfolding inode_read_data pure
  inode_read_data-IsByte valid ends ino start size buf d out count h =
      let v = validate-Sound img valid in
      let left = (if ltb size (ino.size - start) then size else ino.size - start) in
      elim (Bool-cases (leb ino.size start)) [
        | inl past ↦
            let e = stopped v.frags_fit ends buf out 0 count (rw past at (rw valid at h)) in
            (ground (arith, e.1), λ i lt. absurd (omega (arith, e.1)))
        | inr inside ↦
            let whole : start / block_size * block_size + start % block_size ≡ start =
              omega (arith, div-add-mod start block_size) in
            let all =
              read_blocks-Filled v.frags_fit ends (suc left) ino (start / block_size)
                (start % block_size) left 0 buf d out count (omega arith)
                (mod-lt start (omega (arith, v.block_ge))) (rw inside at (rw valid at h)) in
            (
              omega (arith, all.0),
              (λ i lt.
                  let first : 0 + i ≡ i = omega arith in
                  subst (λ j. IsByte d ino (start + i) (out j)) first
                    (subst (λ p. IsByte d ino (p + i) (out (0 + i))) whole
                      (all.2 i (omega (arith, all.0))))),
            )
      ]
