-- ===== src/Directory/Find.antt =====
-- The search of a name in a block (find_name_cb of src/core/directory.c) against the list of the names
-- that the block holds.
use nextufs.Base.{
  ℕ, zero, suc, ◌+◌, ◌≤◌, ◌<◌, ◌≡◌, refl, sym, ap, ◌∙◌, arith, Bool, true, false, not, ◌&&◌, List,
  [], ◌∷◌, some, Bytes, shift, leb, ◌==◌, if◌then◌else◌, inl, inr, Bool-cases, ok,
}
use native.Mathlib.Decide.{dec_lt}
use nextufs.Disk.{Dev, M, pure, ◌>>=◌}
use nextufs.Directory.Entry.{DirentView, Name, same_bytes, read_dirent}
use nextufs.Directory.Bounds.{IsEntry, IsEntry-name, bad_name-false}
use nextufs.Directory.RoundTrip.{IsEntry-read_dirent}
use nextufs.Directory.Iterate.{visit, walk_entries, find_name_cb}
use nextufs.Directory.Listing.{
  Link, with_link, name_list, listing, listing-Step, listing-end, no_fuel,
}

-- two names are the same bytes
unfoldable pub same_name : List ℕ → List ℕ → Bool
same_name [] [] = true
same_name [] (b ∷ bs) = false
same_name (a ∷ as') [] = false
same_name (a ∷ as') (b ∷ bs) = a == b && same_name as' bs

-- the same from the front
same_front : Bytes → Bytes → ℕ → Bool
same_front p q zero = true
same_front p q (suc n) = p 0 == q 0 && same_front (shift p 1) (shift q 1) n

and_assoc : (a b c : Bool) → (a && (b && c)) ≡ ((a && b) && c)
and_assoc true b c = refl
and_assoc false b c = refl

same_front-last : (p q : Bytes) (n : ℕ) → same_front p q (suc n) ≡ (same_front p q n && p n == q n)
unfolding same_front
same_front-last p q zero = and_true (p 0 == q 0)
  where
    and_true : (b : Bool) → (b && true) ≡ b
    and_true true = refl
    and_true false = refl
same_front-last p q (suc n) =
    ap (λ b. p 0 == q 0 && b) (same_front-last (shift p 1) (shift q 1) n)
    ∙ and_assoc (p 0 == q 0) (same_front (shift p 1) (shift q 1) n) (p (1 + n) == q (1 + n))
    ∙ ap (λ k. (p 0 == q 0 && same_front (shift p 1) (shift q 1) n) && p k == q k) (next n)
  where
    next : (k : ℕ) → 1 + k ≡ suc k
    next k = omega arith

same_bytes-front : (p q : Bytes) (n : ℕ) → same_bytes p q n ≡ same_front p q n
unfolding same_bytes same_front
same_bytes-front p q zero = refl
same_bytes-front p q (suc n) =
    ap (λ b. b && p n == q n) (same_bytes-front p q n) ∙ sym (same_front-last p q n)

==-sym : (m n : ℕ) → (m == n) ≡ (n == m)
==-sym m n = ground arith

and_swap : (a b c : Bool) → (a && (b && c)) ≡ (b && (a && c))
and_swap true b c = refl
and_swap false true c = refl
and_swap false false c = refl

same_name-name_list :
    (p q : Bytes) (m n : ℕ)
    → same_name (name_list p m) (name_list q n) ≡ (m == n && same_front p q m)
unfolding same_name name_list same_front
same_name-name_list p q zero zero = refl
same_name-name_list p q zero (suc n) = ground arith
same_name-name_list p q (suc m) zero = ground arith
same_name-name_list p q (suc m) (suc n) =
    ap (λ b. p 0 == q 0 && b) (same_name-name_list (shift p 1) (shift q 1) m n)
    ∙ and_swap (p 0 == q 0) (m == n) (same_front (shift p 1) (shift q 1) m)
    ∙ ap (λ b. b && (p 0 == q 0 && same_front (shift p 1) (shift q 1) m)) (succ m n)
  where
    succ : (k l : ℕ) → (k == l) ≡ (suc k == suc l)
    succ k l = ground arith

-- The abstract search: 1 and the inode number of the first link with the name, or 0 and 0.
unfoldable pub find_link : List ℕ → List Link → ℕ × ℕ
find_link target [] = (0, 0)
find_link target ((ino, u) ∷ links) =
    if same_name u target then (1, ino) else find_link target links

-- the test of the callback
abbrev matches : Name → DirentView → Bool
matches target ent = target.len == ent.namlen && same_bytes ent.name target.chars ent.namlen

matches-same_name :
    (target : Name) (ent : DirentView)
    → matches target ent
      ≡ same_name (name_list ent.name ent.namlen) (name_list target.chars target.len)
matches-same_name target ent =
    ap (λ b. target.len == ent.namlen && b) (same_bytes-front ent.name target.chars ent.namlen)
    ∙ ap (λ b. b && same_front ent.name target.chars ent.namlen) (==-sym target.len ent.namlen)
    ∙ sym (same_name-name_list ent.name target.chars ent.namlen target.len)

module _ {S : Type 0} (target : Name) (buf : Bytes) (size : ℕ) (d : Dev S) where
  abbrev wanted : List ℕ
  wanted = name_list target.chars target.len

  -- one entry in use, by the outcome of the test
  visit-used :
      (ent : DirentView) (rest : ℕ → ℕ → M S (ℕ × ℕ)) (b : Bool)
      → (not (ent.ino == 0) && not (ent.namlen == 0)) ≡ true
      → matches target ent ≡ b
      → visit (find_name_cb target) (some ent) rest 0 d
        ≡ (if b then (ok (1, ent.ino), d) else rest ent.reclen 0 d)
  unfolding visit find_name_cb ◌>>=◌ pure
  visit-used ent rest true used m = rw (used, m) refl
  visit-used ent rest false used m = rw (used, m) refl

  visit-unused :
      (ent : DirentView) (rest : ℕ → ℕ → M S (ℕ × ℕ))
      → (ent.ino == 0) ≡ true
      → visit (find_name_cb target) (some ent) rest 0 d ≡ rest ent.reclen 0 d
  unfolding visit
  visit-unused ent rest unused = rw unused refl

  -- an entry, and what the rest of the chain gives
  walk-link :
      (fuel off : ℕ) (ent : DirentView) (after : List Link)
      → IsEntry buf size off ent
      → walk_entries (find_name_cb target) buf size fuel (off + ent.reclen) 0 d
        ≡ (ok (find_link wanted after), d)
      → visit
          (find_name_cb target)
          (some ent)
          (λ reclen. walk_entries (find_name_cb target) buf size fuel (off + reclen))
          0
          d
        ≡ (ok (find_link wanted (with_link ent after)), d)
  unfolding find_link
  walk-link fuel off ent after is rest = elim (dec_lt 0 ent.ino) [
    | no unused ↦
        let e = unused_test ent.ino (omega arith) in visit-unused ent _ e ∙ rest ∙ (rw e refl)
    | yes used ↦
        let n = IsEntry-name buf size off ent is (omega arith) in
        let e = used_tests ent.ino ent.namlen used (bad_name-false ent n.0).0 in
        elim (Bool-cases (matches target ent)) [
          | inl found ↦
              visit-used ent _ true e.1 found
              ∙ (rw (e.0, sym (matches-same_name target ent) ∙ found) refl)
          | inr other ↦
              visit-used ent _ false e.1 other
              ∙ rest
              ∙ (rw (e.0, sym (matches-same_name target ent) ∙ other) refl)
        ]
  ]
    where
      unused_test : (n : ℕ) → n ≡ 0 → (n == 0) ≡ true
      unused_test n h = ground arith

      used_tests :
          (n m : ℕ) → 0 < n → 0 < m → ((n == 0) ≡ false) × ((not (n == 0) && not (m == 0)) ≡ true)
      used_tests n m h k = (ground arith, ground arith)

  walk-end :
      (fuel off : ℕ)
      → size ≤ off
      → walk_entries (find_name_cb target) buf size (suc fuel) off 0 d ≡ (ok (0, 0), d)
  unfolding walk_entries pure
  walk-end fuel off past = rw (at_end) refl
    where
      at_end : leb size off ≡ true
      at_end = ground arith

  walk-step :
      (fuel off : ℕ) (ent : DirentView)
      → off < size
      → IsEntry buf size off ent
      → walk_entries (find_name_cb target) buf size (suc fuel) off 0 d
        ≡ visit
            (find_name_cb target)
            (some ent)
            (λ reclen. walk_entries (find_name_cb target) buf size fuel (off + reclen))
            0
            d
  unfolding walk_entries
  walk-step fuel off ent inside is = rw (not_end, read_here) refl
    where
      not_end : leb size off ≡ false
      not_end = ground arith

      read_here : read_dirent buf size off ≡ some ent
      read_here = IsEntry-read_dirent buf size off ent is ∙ ap (λ x. some x) (sym is.is_here)

  none_found :
      (l : List Link)
      → some [] ≡ some l
      → walk_entries (find_name_cb target) buf size 1 size 0 d ≡ (ok (find_link wanted l), d)
  unfolding find_link
  none_found [] e = walk-end 0 size (omega arith)
  none_found (x ∷ l) e = absurd cc

  -- On a block whose chain of entries is sound the search of a name gives what the search in the list
  -- of its names gives, and the image stays as it is.
  pub walk_entries-find_link :
      (fuel off : ℕ) (links : List Link)
      → listing buf size fuel off ≡ some links
      → walk_entries (find_name_cb target) buf size fuel off 0 d
        ≡ (ok (find_link (name_list target.chars target.len) links), d)
  walk_entries-find_link zero off links h = absurd (no_fuel buf size off links h)
  walk_entries-find_link (suc fuel) off links h = elim (dec_lt off size) [
    | no past ↦
        walk-end fuel off (omega arith)
        ∙ sym (walk-end 0 size (omega arith))
        ∙ none_found links (sym (listing-end buf size fuel off (omega arith)) ∙ h)
    | yes inside ↦
        let r = listing-Step buf size fuel off links inside h in
        walk-step fuel off r.0 inside r.2
        ∙ walk-link fuel off r.0 r.1 r.2 (walk_entries-find_link fuel (off + r.0.reclen) r.1 r.3)
        ∙ ap (λ l. (ok (find_link wanted l), d)) (sym r.4)
  ]
