-- ===== src/Directory/Listing.antt =====
-- The entries in use of a block of a directory, in order: the abstract view of its bytes.
use nextufs.Base.{
  ℕ, zero, suc, ◌+◌, ◌≤◌, ◌<◌, ◌≡◌, refl, subst, sym, ap, ◌∙◌, arith, Bool, true, false, List, [],
  ◌∷◌, Option, none, some, Bytes, shift, leb, ◌==◌, if◌then◌else◌,
}
use native.Mathlib.Decide.{dec_lt}
use nextufs.Directory.Entry.{DirentView, read_dirent}
use nextufs.Directory.Bounds.{IsEntry, read_dirent-IsEntry}
use nextufs.Directory.RoundTrip.{Same, IsEntry-local, IsEntry-read_dirent}

-- the `n` bytes at the start
unfoldable pub name_list : Bytes → ℕ → List ℕ
name_list q zero = []
name_list q (suc n) = q 0 ∷ name_list (shift q 1) n

pub name_list-cong :
    (p q : Bytes) (n : ℕ) → ((i : ℕ) → i < n → p i ≡ q i) → name_list p n ≡ name_list q n
unfolding name_list
name_list-cong p q zero same = refl
name_list-cong p q (suc n) same =
    rw
      (
        same 0 (omega arith),
        name_list-cong (shift p 1) (shift q 1) n (λ i lt. same (1 + i) (omega arith)),
      )
      refl

-- A name with its inode number.
abbrev pub Link : Type 0
Link = ℕ × List ℕ

abbrev pub link : DirentView → Link
link ent = (ent.ino, name_list ent.name ent.namlen)

abbrev pub with_link : DirentView → List Link → List Link
with_link ent links = if ent.ino == 0 then links else link ent ∷ links

unfoldable pub listed : Option DirentView → (ℕ → Option (List Link)) → Option (List Link)
listed none rest = none
listed (some ent) rest = elim (rest ent.reclen) [
  | none ↦ none
  | some links ↦ some (with_link ent links)
]

-- The chain of entries from `off` to the end of the block, or none when it is broken.
unfoldable pub listing : Bytes → ℕ → ℕ → ℕ → Option (List Link)
unfolding listed
listing buf size zero off = none
listing buf size (suc fuel) off =
    let rest : ℕ → Option (List Link) = λ reclen. listing buf size fuel (off + reclen) in
    if leb size off then some [] else listed (read_dirent buf size off) rest

pub no_fuel :
    (buf : Bytes) (size off : ℕ) (links : List Link) → listing buf size 0 off ≡ some links → ⊥
unfolding listing
no_fuel buf size off links h = absurd cc

pub listing-end :
    (buf : Bytes) (size fuel off : ℕ) → size ≤ off → listing buf size (suc fuel) off ≡ some []
unfolding listing
listing-end buf size fuel off le = ground arith

-- One entry, and the rest of the chain.
abbrev pub Step : Bytes → ℕ → ℕ → ℕ → List Link → Type 0
Step buf size fuel off links =
    (ent : DirentView) × (after : List Link) × IsEntry buf size off ent
    × (listing buf size fuel (off + ent.reclen) ≡ some after)
    × (links ≡ with_link ent after)

pub listing-Step :
    (buf : Bytes) (size fuel off : ℕ) (links : List Link)
    → off < size
    → listing buf size (suc fuel) off ≡ some links
    → Step buf size fuel off links
unfolding listing
listing-Step buf size fuel off links lt h =
    from_entry (read_dirent buf size off) refl (not_at_end (leb size off) _ (ground arith) h)
  where
    not_at_end :
        (b : Bool) (r : Option (List Link))
        → b ≡ false
        → (if b then some [] else r) ≡ some links
        → r ≡ some links
    not_at_end true r e h' = absurd cc
    not_at_end false r e h' = h'

    from_rest :
        (ent : DirentView) (r : Option (List Link))
        → IsEntry buf size off ent
        → listing buf size fuel (off + ent.reclen) ≡ r
        → elim r [ none ↦ none | some links ↦ some (with_link ent links) ] ≡ some links
        → Step buf size fuel off links
    from_rest ent none is e h' = absurd cc
    from_rest ent (some after) is e h' = (ent, after, is, e, cc)

    from_entry :
        (r : Option DirentView)
        → read_dirent buf size off ≡ r
        → listed r (λ reclen. listing buf size fuel (off + reclen)) ≡ some links
        → Step buf size fuel off links
    from_entry none e h' = absurd cc
    from_entry (some ent) e h' = from_rest ent _ (read_dirent-IsEntry buf size off ent e) refl h'

pub Step-listing :
    (buf : Bytes) (size fuel off : ℕ) (ent : DirentView) (after : List Link)
    → off < size
    → IsEntry buf size off ent
    → listing buf size fuel (off + ent.reclen) ≡ some after
    → listing buf size (suc fuel) off ≡ some (with_link ent after)
unfolding listing listed
Step-listing buf size fuel off ent after lt is rest = rw (not_end, read_here, rest) refl
  where
    read_here : read_dirent buf size off ≡ some ent
    read_here = IsEntry-read_dirent buf size off ent is ∙ ap (λ x. some x) (sym is.is_here)

    not_end : leb size off ≡ false
    not_end = ground arith

link-Same :
    (a b : DirentView) (after : List Link) → Same a b → with_link a after ≡ with_link b after
link-Same a b after h = elim (dec_lt 0 a.ino) [
  | no unused ↦ rw (unused_test a.ino (omega arith), unused_test b.ino (omega (arith, h.ino))) refl
  | yes used ↦
      rw (used_test a.ino used, used_test b.ino (omega (arith, h.ino, used)))
        (ap (λ x. x ∷ after) (links_equal used))
]
  where
    unused_test : (n : ℕ) → n ≡ 0 → (n == 0) ≡ true
    unused_test n e = ground arith

    used_test : (n : ℕ) → 0 < n → (n == 0) ≡ false
    used_test n e = ground arith

    pair_equal : {i j : ℕ} {u v : List ℕ} → i ≡ j → u ≡ v → ◌≡◌ {A = Link} (i, u) (j, v)
    pair_equal p q = cc

    links_equal : 0 < a.ino → link a ≡ link b
    links_equal used = pair_equal h.ino (
        name_list-cong a.name b.name a.namlen (λ i lt. h.name (omega arith) i (omega arith))
        ∙ ap (name_list b.name) h.namlen)

-- An entry that says the same in another buffer, before the same rest.
pub Same-listing :
    (buf : Bytes) (size fuel off : ℕ) (ent ent' : DirentView) (after : List Link)
    → off < size
    → IsEntry buf size off ent'
    → Same ent ent'
    → listing buf size fuel (off + ent.reclen) ≡ some after
    → listing buf size (suc fuel) off ≡ some (with_link ent after)
Same-listing buf size fuel off ent ent' after inside is same rest =
    Step-listing buf size fuel off ent' after inside is
      (subst (λ n. listing buf size fuel (off + n) ≡ some after) same.reclen rest)
    ∙ ap (λ x. some x) (sym (link-Same ent ent' after same))

-- The rest of a chain hangs on the bytes from there on only.
pub listing-local :
    (buf buf' : Bytes) (size fuel off : ℕ) (links : List Link)
    → ((i : ℕ) → off ≤ i → i < size → buf i ≡ buf' i)
    → listing buf size fuel off ≡ some links
    → listing buf' size fuel off ≡ some links
listing-local buf buf' size zero off links same h = absurd (no_fuel buf size off links h)
listing-local buf buf' size (suc fuel) off links same h = elim (dec_lt off size) [
  | no past ↦
      listing-end buf' size fuel off (omega arith)
      ∙ sym (listing-end buf size fuel off (omega arith))
      ∙ h
  | yes inside ↦
      let r = listing-Step buf size fuel off links inside h in
      let ent = r.0 in
      let is = r.2 in
      let l =
        IsEntry-local buf buf' size off ent is
          (λ i lo hi. same i lo (omega (arith, is.reclen_fits))) in
      Same-listing buf' size fuel off ent _ r.1 inside l.0 l.1 (
        listing-local buf buf' size fuel (off + ent.reclen) r.1 (λ i lo hi. same i (omega arith) hi)
          r.3)
      ∙ ap (λ x. some x) (sym r.4)
]

-- More fuel changes nothing.
pub listing-more :
    (buf : Bytes) (size fuel off : ℕ) (links : List Link)
    → listing buf size fuel off ≡ some links
    → listing buf size (suc fuel) off ≡ some links
listing-more buf size zero off links h = absurd (no_fuel buf size off links h)
listing-more buf size (suc fuel) off links h = elim (dec_lt off size) [
  | no past ↦
      listing-end buf size (suc fuel) off (omega arith)
      ∙ sym (listing-end buf size fuel off (omega arith))
      ∙ h
  | yes inside ↦
      let r = listing-Step buf size fuel off links inside h in
      Step-listing buf size (suc fuel) off r.0 r.1 inside r.2 (listing-more buf size fuel _ r.1 r.3)
      ∙ ap (λ x. some x) (sym r.4)
]
