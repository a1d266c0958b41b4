-- ===== src/Disk/Effects.antt =====
-- What nextufs__read_exact and nextufs__write_exact of src/core/layout.c do to the stored bytes.
use nextufs.Base.{
  ℕ, ◌+◌, ◌<◌, ◌≡◌, refl, ap, ◌∙◌, Bool, true, false, not, arith, Bytes, Result, ok, err, inl, inr,
  Bool-cases, if◌then◌else◌, within, splice, einval, erofs,
}
use nextufs.Disk.{
  Dev, Image, Env, M, and_then-cases, ◌>>=◌, out_of_range, read_exact, transaction_record,
  backend_write, write_exact,
}
use nextufs.Disk.Laws.{Stores}
use nextufs.Disk.Writes.{record-store}

if-cases {κ} :
    {A : Type 0} (P : A → Type κ) (b : Bool) (x y : A) → P x → P y → P (if b then x else y)
if-cases P true x y hx hy = hx
if-cases P false x y hx hy = hy

module _ {S : Type 0} (env : Env S) (laws : Stores S env) (img : Image) where
  -- Either nothing is stored and an error is returned, or the backend is asked once.
  pub write_exact-cases :
      (P : Result (Unit {0}) × Dev S → Type 0) (b : Bytes) (size offset : ℕ) (d : Dev S)
      → ((e : ℕ) (d' : Dev S) → d'.store ≡ d.store → P (err e, d'))
      → ((d' : Dev S) → d'.store ≡ d.store → P (backend_write env img b size offset d'))
      → P (write_exact env img b size offset d)
  unfolding write_exact ◌>>=◌
  write_exact-cases P b size offset d failed asked =
      if-cases (λ (m : M S (Unit {0})). P (m d)) (not img.is_open) _ _ (failed einval d refl)
        (if-cases (λ (m : M S (Unit {0})). P (m d)) (not img.writable) _ _ (failed erofs d refl)
          (if-cases (λ (m : M S (Unit {0})). P (m d)) (out_of_range img.image_size size offset) _ _
            (failed einval d refl)
            (and_then-cases P (transaction_record env img size offset d)
              (λ _. backend_write env img b size offset)
              (λ _ _. asked (transaction_record env img size offset d).1 kept)
              (λ e _. failed e (transaction_record env img size offset d).1 kept))))
    where
      kept : (transaction_record env img size offset d).1.store ≡ d.store
      kept = record-store env laws (laws.contents d.store) img size offset d

  -- Bytes outside the range stay, whatever is returned.
  pub write_exact-outside :
      (b : Bytes) (size offset : ℕ) (d : Dev S) (i : ℕ)
      → within offset size i ≡ false
      → laws.contents (write_exact env img b size offset d).1.store i ≡ laws.contents d.store i
  unfolding backend_write
  write_exact-outside b size offset d i out =
      write_exact-cases (λ r. laws.contents r.1.store i ≡ laws.contents d.store i) b size offset d
        (λ e d' same. ap (λ s. laws.contents s i) same)
        (λ d' same. laws.untouched d'.store b size offset i out ∙ ap (λ s. laws.contents s i) same)

  -- A write that succeeds stores its bytes.
  pub write_exact-splice :
      (b : Bytes) (size offset : ℕ) (d : Dev S)
      → (write_exact env img b size offset d).0 ≡ ok tt
      → (i : ℕ)
      → laws.contents (write_exact env img b size offset d).1.store i
        ≡ splice (laws.contents d.store) b size offset i
  unfolding backend_write
  write_exact-splice b size offset d =
      write_exact-cases
        (λ r.
          r.0 ≡ ok tt
          → (i : ℕ) → laws.contents r.1.store i ≡ splice (laws.contents d.store) b size offset i)
        b size offset d (λ e d' same h. cc)
        (λ d' same h i. elim (Bool-cases (within offset size i)) [
          | inl in_range ↦ rw in_range (laws.written d'.store b size offset i h in_range)
          | inr out ↦
              rw out
                (laws.untouched d'.store b size offset i out ∙ ap (λ s. laws.contents s i) same)
        ])

  pub read_exact-state : (size offset : ℕ) (d : Dev S) → (read_exact env img size offset d).1 ≡ d
  unfolding read_exact
  read_exact-state size offset d = ground arith

  pub read_exact-contents :
      (size offset : ℕ) (d : Dev S) (b : Bytes)
      → (read_exact env img size offset d).0 ≡ ok b
      → (i : ℕ) → i < size
      → b i ≡ laws.contents d.store (offset + i)
  unfolding read_exact
  read_exact-contents size offset d b h i lt =
      ground (arith, laws.read_back d.store size offset b i)
