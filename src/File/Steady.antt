-- ===== src/File/Steady.antt =====
-- Finding and reading a block of a file changes nothing (src/core/image.c).
use nextufs.Base.{
  subst, ℕ, zero, suc, ◌≡◌, refl, ◌∙◌, Bool, true, false, Result, ok, err, if◌then◌else◌, eio,
  einval,
}
use nextufs.Disk.{Dev, Image, Env, M, and_then-cases, pure, fail, ◌>>=◌, read_exact}
use nextufs.Disk.Laws.{Stores}
use nextufs.Disk.Effects.{read_exact-state}
use nextufs.Inode.{Inode}
use nextufs.Alloc.Groups.{guard}
use nextufs.Alloc.Indirect.{attempt, read_indirect_entry}
use nextufs.File.{
  or_eio, read_entry, resolve_indirect_block_frag, resolve_frag_from, resolve_file_block_frag,
  read_chunk,
}

-- An operation that changes nothing.
pub record Steady {S A : Type 0} (m : M S A) : Type 0 where
  pub stays : (d : Dev S) → (m d).1 ≡ d

module _ {S : Type 0} where
  pub pure-Steady : {A : Type 0} (a : A) → Steady {S = S} (pure a)
  unfolding pure
  pure-Steady a = record { stays = λ d. refl }

  pub fail-Steady : {A : Type 0} (e : ℕ) → Steady {S = S} {A = A} (fail e)
  unfolding fail
  fail-Steady e = record { stays = λ d. refl }

  pub if-Steady :
      {A : Type 0} (b : Bool) (m n : M S A) → Steady m → Steady n → Steady (if b then m else n)
  if-Steady true m n hm hn = hm
  if-Steady false m n hm hn = hn

  pub bind-Steady :
      {A B : Type 0} (m : M S A) (f : A → M S B)
      → Steady m
      → ((a : A) → Steady (f a))
      → Steady (m >>= f)
  unfolding ◌>>=◌
  bind-Steady m f hm hf = record {
    stays = λ d.
        and_then-cases (λ r. r.1 ≡ d) (m d) f (λ a _. (hf a).stays (m d).1 ∙ hm.stays d)
          (λ e _. hm.stays d);
  }

  -- A sequence after a steady part gives a result when both parts do, from the same state.
  pub bind-ok :
      {A B : Type 0} (m : M S A) (f : A → M S B) (d : Dev S) (b : B)
      → Steady m
      → ((m >>= f) d).0 ≡ ok b
      → (a : A) × ((m d).0 ≡ ok a) × ((f a d).0 ≡ ok b)
  unfolding ◌>>=◌
  bind-ok {A} m f d b h =
      and_then-cases (λ r. r.0 ≡ ok b → (a : A) × ((m d).0 ≡ ok a) × ((f a d).0 ≡ ok b)) (m d) f
        (λ a got done. (a, got, subst (λ d'. (f a d').0 ≡ ok b) (h.stays d) done))
        (λ e _ failed. cc)

  pub attempt-Steady : {A : Type 0} (m : M S A) → Steady m → Steady (attempt m)
  attempt-Steady m h = record { stays = h.stays }

  pub guard-Steady : (b : Bool) (e : ℕ) → Steady {S = S} (guard b e)
  guard-Steady true e = pure-Steady tt
  guard-Steady false e = fail-Steady e

pub ruleset steady_rules =
    (pure-Steady, fail-Steady, if-Steady, bind-Steady, attempt-Steady, guard-Steady)

module _ {S : Type 0} (env : Env S) (laws : Stores S env) (img : Image) where
  open img.sb use {block_size, frag_size, frag_count}

  pub read_exact-Steady : (size offset : ℕ) → Steady (read_exact env img size offset)
  read_exact-Steady size offset = record { stays = read_exact-state env laws img size offset }

  read_indirect_entry-Steady : (block entry : ℕ) → Steady (read_indirect_entry env img block entry)
  unfolding read_indirect_entry
  read_indirect_entry-Steady block entry = search (steady_rules, read_exact-Steady)

  or_eio-Steady : (r : Result ℕ) → Steady (or_eio env img r)
  unfolding or_eio
  or_eio-Steady (ok f) = pure-Steady f
  or_eio-Steady (err e) = fail-Steady eio

  read_entry-Steady : (block entry : ℕ) → Steady (read_entry env img block entry)
  unfolding read_entry
  read_entry-Steady block entry = search (steady_rules, read_indirect_entry-Steady, or_eio-Steady)

  resolve_indirect-Steady :
      (above block index : ℕ) → Steady (resolve_indirect_block_frag env img above block index)
  unfolding resolve_indirect_block_frag
  resolve_indirect-Steady zero block index = search (steady_rules, read_entry-Steady)
  resolve_indirect-Steady (suc above) block index = if-Steady _ _ _ (fail-Steady einval) (
      if-Steady _ _ _ (pure-Steady 0) (
        bind-Steady _ _ (read_entry-Steady block _)
          λ next. if-Steady _ _ _ (pure-Steady 0) (resolve_indirect-Steady above next _)))

  resolve_from-Steady :
      (ino : Inode) (slot index span n : ℕ)
      → Steady (resolve_frag_from env img ino slot index span n)
  unfolding resolve_frag_from
  resolve_from-Steady ino slot index span zero = fail-Steady einval
  resolve_from-Steady ino slot index span (suc n) =
      if-Steady _ _ _ (resolve_indirect-Steady slot _ index)
        (resolve_from-Steady ino (suc slot) _ _ n)

  pub resolve_file-Steady :
      (ino : Inode) (block : ℕ) → Steady (resolve_file_block_frag env img ino block)
  unfolding resolve_file_block_frag
  resolve_file-Steady ino block = search (steady_rules, resolve_from-Steady)

  pub read_chunk-Steady : (frag at size : ℕ) → Steady (read_chunk env img frag at size)
  unfolding read_chunk
  read_chunk-Steady frag at size = search (steady_rules, read_exact-Steady)
