-- ===== src/Disk/Laws.antt =====
-- What the operations rely on in a backend: it stores bytes. A write that fails may have changed
-- some of the bytes it was given, and no others; a sync changes none.
use nextufs.Base.{ℕ, ◌+◌, ◌-◌, ◌<◌, ◌≡◌, true, false, Bytes, ok, within}
use nextufs.Disk.{Env}

pub record Stores (S : Type 0) (env : Env S) : Type 0 where
  pub contents : S → Bytes
  pub read_back :
      (s : S) (size offset : ℕ) (b : Bytes) (i : ℕ)
      → env.read s size offset ≡ ok b
      → i < size
      → b i ≡ contents s (offset + i)
  pub written :
      (s : S) (b : Bytes) (size offset i : ℕ)
      → (env.write s b size offset).0 ≡ ok tt
      → within offset size i ≡ true
      → contents (env.write s b size offset).1 i ≡ b (i - offset)
  pub untouched :
      (s : S) (b : Bytes) (size offset i : ℕ)
      → within offset size i ≡ false
      → contents (env.write s b size offset).1 i ≡ contents s i
  pub sync_keeps : (s : S) (i : ℕ) → contents (env.fsync s).1 i ≡ contents s i
