-- ===== src/Disk/Ending.antt =====
-- nextufs__transaction_end (src/core/transaction.c) when the log can be read and the backend works.
use nextufs.Base.{
  ℕ, ◌≡◌, refl, Bool, true, false, List, [], ◌∷◌, Option, none, some, Bytes, Result, ok, err,
}
use nextufs.Disk.{
  Undo, Log, Dev, Env, unless_failed, synced, closed, seen, replay, end_with, transaction_end,
}

module _ {S : Type 0} (env : Env S) (readable : (u : Undo) → env.log_readable u ≡ true)
    (writes : (s : S) (b : Bytes) (size offset : ℕ) → (env.write s b size offset).0 ≡ ok tt)
    (syncs : (s : S) → (env.fsync s).0 ≡ ok tt) where
  unless_failed-fine :
      (r : Result (Unit {0}) × S) (rest : S → Bool × S)
      → r.0 ≡ ok tt
      → ((s : S) → (rest s).0 ≡ false)
      → (unless_failed r rest).0 ≡ false
  unless_failed-fine (ok _, s) rest h fine = fine s
  unless_failed-fine (err e, s) rest h fine = absurd cc

  replay-fine : (log : List Undo) (s : S) → (replay env log s).0 ≡ false
  unfolding replay
  replay-fine [] s = refl
  replay-fine (u ∷ us) s =
      rw (readable u) (unless_failed-fine _ _ (writes s u.before u.size u.offset) (replay-fine us))

  synced-fine : (r : Bool × S) → r.0 ≡ false → (synced env r).0 ≡ false
  synced-fine (true, s) h = absurd cc
  synced-fine (false, s) h = rw (syncs s) refl

  closed-fine :
      (status : Result (Unit {0})) (r : Bool × S) (d : Dev S)
      → r.0 ≡ false
      → ((closed env status r).0 ≡ status) × ((closed env status r).1.transaction ≡ none)
  closed-fine status (true, s) d h = absurd cc
  closed-fine status (false, s) d h = (refl, refl)

  end_with-own_status :
      (status : Result (Unit {0})) (t : Option Log) (d : Dev S)
      → d.transaction ≡ t
      → ((end_with env status t d).0 ≡ status) × ((end_with env status t d).1.transaction ≡ none)
  end_with-own_status status none d h = (refl, h)
  end_with-own_status (ok _) (some log) d h = (refl, refl)
  end_with-own_status (err e) (some log) d h =
      closed-fine (err e) (synced env (replay env (seen env log.records) d.store)) d (
        synced-fine (replay env (seen env log.records) d.store)
          (replay-fine (seen env log.records) d.store))

  -- Where every record of the log can be read and the backend's writes and its sync succeed, the end of
  -- a transaction always returns the status of the operation itself, and the log is closed after it.
  pub transaction_end-own_status :
      (status : Result (Unit {0})) (d : Dev S)
      → ((transaction_end env status d).0 ≡ status)
        × ((transaction_end env status d).1.transaction ≡ none)
  unfolding transaction_end
  transaction_end-own_status status d = end_with-own_status status d.transaction d refl
