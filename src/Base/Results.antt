-- ===== src/Base/Results.antt =====
-- A C function that returns 0 or a negative errno: `ok` with what it hands out, or `err` with the
-- positive errno. The numbers are those of Linux.
use Prim.Native.Nat.{ℕ}
use mathlib.Core.Path.{◌≡◌, refl}
use mathlib.Core.Logic.{◌⊎◌, inl, inr}

pub data Result {ℓ} (A : Type ℓ) : Type ℓ where
  ok : A → Result A
  err : ℕ → Result A

abbrev pub eio : ℕ
eio = 5

abbrev pub enxio : ℕ
enxio = 6

abbrev pub eacces : ℕ
eacces = 13

abbrev pub einval : ℕ
einval = 22

abbrev pub efbig : ℕ
efbig = 27

abbrev pub enospc : ℕ
enospc = 28

abbrev pub erofs : ℕ
erofs = 30

abbrev pub enametoolong : ℕ
enametoolong = 36

abbrev pub eperm : ℕ
eperm = 1

abbrev pub enoent : ℕ
enoent = 2

abbrev pub enotdir : ℕ
enotdir = 20

abbrev pub enotempty : ℕ
enotempty = 39

abbrev pub eloop : ℕ
eloop = 40

abbrev pub eoverflow : ℕ
eoverflow = 75

abbrev pub euclean : ℕ
euclean = 117

pub Result-cases {ℓ} :
    {A : Type ℓ} (r : Result A) → ((a : A) × (r ≡ ok a)) ⊎ ((e : ℕ) × (r ≡ err e))
Result-cases (ok a) = inl (a, refl)
Result-cases (err e) = inr (e, refl)
