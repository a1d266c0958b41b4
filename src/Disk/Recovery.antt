-- ===== src/Disk/Recovery.antt =====
-- An operation between nextufs__transaction_begin and nextufs__transaction_end.
use nextufs.Base.{
  ℕ, ◌≡◌, ◌≢◌, refl, ap, ◌∙◌, Bool, true, false, Option, none, some, arith, Bytes, Result, ok, err,
  euclean,
}
use nextufs.Disk.{
  Log, Dev, Env, M, and_then, and_then-cases, started, synced, closed, seen, replay, end_with,
  transaction_begin, transaction_end,
}
use nextufs.Disk.Laws.{Stores}
use nextufs.Disk.Rollback.{unwind, LeadsBack, Covered, Intact, Keeps, replay-unwind}

module _ {S : Type 0} (env : Env S) where
  -- rc = nextufs__transaction_begin(img); if (!rc) rc = nextufs__transaction_end(img, op(img));
  unfoldable pub in_transaction : M S (Unit {0}) → M S (Unit {0})
  in_transaction op d =
      and_then (transaction_begin env d) (λ _ d'. (transaction_end env (op d').0 (op d').1))

module _ {S : Type 0} (env : Env S) (laws : Stores S env) where
  synced-contents :
      (r : Bool × S) (i : ℕ)
      → (synced env r).0 ≡ false
      → (r.0 ≡ false) × (laws.contents (synced env r).1 i ≡ laws.contents r.1 i)
  synced-contents (failed, s) i e = (ground arith, laws.sync_keeps s i)

  closed-status :
      (f e : ℕ) (r : Bool × S) → e ≢ euclean → (closed env (err f) r).0 ≡ err e → r.0 ≡ false
  closed-status f e (true, s) ne h = absurd (ne (cc))
  closed-status f e (false, s) ne h = refl

  end-restores :
      (original : Bytes) (status : Result (Unit {0})) (t : Option Log) (d : Dev S) (e i : ℕ)
      → LeadsBack env laws original t (laws.contents d.store)
      → e ≢ euclean
      → (end_with env status t d).0 ≡ err e
      → laws.contents (end_with env status t d).1.store i ≡ original i
  end-restores original status none d e i h ne ended = absurd h
  end-restores original (ok _) (some log) d e i h ne ended = cc
  end-restores original (err f) (some log) d e i h ne ended =
      let fine =
        closed-status f e (synced env (replay env (seen env log.records) d.store)) ne ended in
      let done = synced-contents (replay env (seen env log.records) d.store) i fine in
      done.1 ∙ replay-unwind env laws original (seen env log.records) d.store i done.0 ∙ h i

  -- Before the first write the empty log leads back to the bytes as they are.
  started-LeadsBack :
      (o : Result (Unit {0})) (d : Dev S)
      → (started o d).0 ≡ ok tt
      → Intact env laws (laws.contents d.store) (started o d).1
  unfolding unwind seen
  started-LeadsBack (ok _) d e = (λ i. refl, refl)
  started-LeadsBack (err f) d e = cc

  started-err :
      (o : Result (Unit {0})) (d : Dev S) (f : ℕ) → (started o d).0 ≡ err f → (started o d).1 ≡ d
  started-err (ok _) d f e = cc
  started-err (err _) d f e = refl

  end-of-failed :
      (original : Bytes) (r : Result (Unit {0}) × Dev S) (e i : ℕ)
      → e ≢ euclean
      → (transaction_end env r.0 r.1).0 ≡ err e
      → Covered env laws original r.1
      → laws.contents (transaction_end env r.0 r.1).1.store i ≡ original i
  unfolding transaction_end
  end-of-failed original (status, d) e i ne ended h =
      end-restores original status d.transaction d e i h ne ended

  -- An operation that keeps its log and fails leaves every byte of the image as it found it, when
  -- the end of the transaction reports the operation's own error and not EUCLEAN.
  pub in_transaction-restores :
      (op : M S (Unit {0})) (d : Dev S) (e i : ℕ)
      → ((original : Bytes) → Keeps env laws original op)
      → e ≢ euclean
      → (in_transaction env op d).0 ≡ err e
      → laws.contents (in_transaction env op d).1.store i ≡ laws.contents d.store i
  unfolding in_transaction transaction_begin transaction_end
  in_transaction-restores op d e i keeps ne ended =
      and_then-cases (λ r. r.0 ≡ err e → laws.contents r.1.store i ≡ laws.contents d.store i)
        (transaction_begin env d) (λ _ d'. transaction_end env (op d').0 (op d').1)
        (λ _ begun failed.
          let log = started-LeadsBack env.log_opens d begun in
          end-of-failed (laws.contents d.store) (op (transaction_begin env d).1) e i ne failed
            (keeps (laws.contents d.store) (transaction_begin env d).1 log))
        (λ f shut _. ap (λ d'. laws.contents d'.store i) (started-err env.log_opens d f shut)) ended
