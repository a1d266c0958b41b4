-- ===== src/Tests/Device.antt =====
-- A device in memory, one of whose writes fails: the state counts the writes down to that one.
use nextufs.Base.{
  ℕ, zero, suc, ◌+◌, ◌-◌, ◌≡◌, refl, subst, true, false, none, [], arith, Bytes, Result, ok, err,
  eio, within, shift, splice,
}
use nextufs.Disk.{Env, Dev}
use nextufs.Disk.Laws.{Stores}
use nextufs.Disk.Rollback.{NoStray}

-- The bytes, and the number of the write that fails; 0 when none will.
abbrev pub Store : Type 0
Store = Bytes × ℕ

abbrev pub write_to : Store → Bytes → ℕ → ℕ → Result (Unit {0}) × Store
write_to (s, zero) b size offset = (ok tt, (splice s b size offset, 0))
write_to (s, suc zero) b size offset = (err eio, (s, 0))
write_to (s, suc (suc n)) b size offset = (ok tt, (splice s b size offset, suc n))

abbrev pub device : Env Store
device = record {
  read = λ s size offset. ok (shift s.0 offset);
  write = write_to;
  fsync = λ s. (ok tt, s);
  now = 1000;
  log_opens = ok tt;
  log_room = λ log u. true;
  log_partial = λ log u. 0;
  log_misread = λ us. [];
  log_readable = λ u. true;
}

abbrev pub device-NoStray : NoStray device
device-NoStray = record { nothing_left = λ log u full. refl }

pub shift_read : (a b : Bytes) → ok a ≡ ok b → a ≡ b
shift_read a b h = cc

pub write_to-written :
    (s : Store) (b : Bytes) (size offset i : ℕ)
    → (write_to s b size offset).0 ≡ ok tt
    → within offset size i ≡ true
    → (write_to s b size offset).1.0 i ≡ b (i - offset)
write_to-written (s, zero) b size offset i h inside = ground arith
write_to-written (s, suc zero) b size offset i h inside = cc
write_to-written (s, suc (suc n)) b size offset i h inside = ground arith

pub write_to-untouched :
    (s : Store) (b : Bytes) (size offset i : ℕ)
    → within offset size i ≡ false
    → (write_to s b size offset).1.0 i ≡ s.0 i
write_to-untouched (s, zero) b size offset i out = ground arith
write_to-untouched (s, suc zero) b size offset i out = refl
write_to-untouched (s, suc (suc n)) b size offset i out = ground arith

abbrev pub device-Stores : Stores Store device
device-Stores = record {
  contents = λ s. s.0;
  read_back = λ s size offset b i h lt.
      subst (λ f. f i ≡ s.0 (offset + i)) (shift_read (shift s.0 offset) b h) refl;
  written = write_to-written;
  untouched = write_to-untouched;
  sync_keeps = λ s i. refl;
}

-- no transaction is open, and the `n`-th write will fail
abbrev pub idle : Bytes → ℕ → Dev Store
idle b n = record { store = (b, n); transaction = none }
