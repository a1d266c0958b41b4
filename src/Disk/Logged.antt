-- ===== src/Disk/Logged.antt =====
-- The operations through which the undo log stays complete, as a record that is closed under
-- sequence, so that `search` follows a `do` block. While there is no error, nothing stands behind the
-- last record.
use nextufs.Base.{ℕ, ◌≡◌, Bool, true, false, Bytes, if◌then◌else◌}
use nextufs.Disk.{Dev, Image, Env, M, pure, fail, ◌>>=◌, read_exact, write_exact}
use nextufs.Disk.Laws.{Stores}
use nextufs.Disk.Rollback.{Safe, still-Safe, >>=-Safe}
use nextufs.Disk.Writes.{read_exact-Safe, write_exact-Safe}

-- `original` are the bytes that the log leads back to.
pub record Logged {S A : Type 0} (env : Env S) (laws : Stores S env) (original : Bytes) (m : M S A)
    : Type 0 where
  pub keeps : Safe env laws original m

module _ {S : Type 0} {env : Env S} {laws : Stores S env} {original : Bytes} where
  pub pure-Logged : {A : Type 0} (a : A) → Logged env laws original (pure a)
  unfolding pure
  pure-Logged a = record { keeps = λ d h. h }

  pub fail-Logged : {A : Type 0} (e : ℕ) → Logged {A = A} env laws original (fail e)
  unfolding fail
  fail-Logged e = record { keeps = λ d h. (h.0, λ _. h.1) }

  pub if-Logged :
      {A : Type 0} (b : Bool) (m n : M S A)
      → Logged env laws original m
      → Logged env laws original n
      → Logged env laws original (if b then m else n)
  if-Logged true m n hm hn = hm
  if-Logged false m n hm hn = hn

  pub bind-Logged :
      {A B : Type 0} (m : M S A) (f : A → M S B)
      → Logged env laws original m
      → ((a : A) → Logged env laws original (f a))
      → Logged env laws original (m >>= f)
  bind-Logged m f hm hf = record {
    keeps = >>=-Safe env laws original m f hm.keeps (λ a. (hf a).keeps);
  }

  pub still-Logged :
      {A : Type 0} (m : M S A) → ((d : Dev S) → (m d).1 ≡ d) → Logged env laws original m
  still-Logged m still = record { keeps = still-Safe env laws original m still }

  pub read_exact-Logged :
      (img : Image) (size offset : ℕ) → Logged env laws original (read_exact env img size offset)
  read_exact-Logged img size offset = record {
    keeps = read_exact-Safe env laws original img size offset;
  }

  pub write_exact-Logged :
      (img : Image) (b : Bytes) (size offset : ℕ)
      → Logged env laws original (write_exact env img b size offset)
  write_exact-Logged img b size offset = record {
    keeps = write_exact-Safe env laws original img b size offset;
  }

pub ruleset logged_rules =
    (pure-Logged, fail-Logged, if-Logged, bind-Logged, read_exact-Logged, write_exact-Logged)
