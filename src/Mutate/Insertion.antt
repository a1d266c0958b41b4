-- ===== src/Mutate/Insertion.antt =====
-- A new entry in a block of a directory leaves the other entries as they are: the inner loop of
-- nextufs__insert_dirent (src/mutate/dir_mutate.c).
use nextufs.Base.{
  subst, ℕ, suc, ◌+◌, ◌-◌, ◌%◌, ◌^◌, ◌≤◌, ◌<◌, ◌≡◌, ◌≢◌, refl, sym, ap, ◌∙◌, ◌⊎◌, inl, inr, arith,
  Bool, true, false, List, [], ◌∷◌, ◌++◌, some, Bytes, ok, ◌==◌, if◌then◌else◌, u16,
}
use nextufs.Codec.{write_be16, read_be16-write_be16, write_be16-outside}
use nextufs.Codec.Laws.{read_be32_cong, read_be16_cong}
use nextufs.Directory.Entry.{DirentView, Name, dirent_size, bad_name, dirent_at, write_dirent_raw}
use nextufs.Directory.Bounds.{IsEntry, IsEntry-name, bad_name-false, dirent_size-le}
use nextufs.Directory.RoundTrip.{Same, Same-IsEntry, IsEntry-local, good_name}
use nextufs.Directory.Stored.{
  entry_of, Written, write_dirent_raw-ok, Written-IsEntry, stored-outside,
}
use nextufs.Directory.Listing.{
  Link, link, with_link, name_list, name_list-cong, listing, Same-listing, listing-local,
  listing-more,
}
use nextufs.Mutate.Placed.{TakesUnused, TakesSlack}

-- The new block: the entries before the new one and those after it are the old ones.
pub record Placed (block block' : Bytes) (size fuel off : ℕ) (new : Link) (links : List Link)
    : Type 0 where
  pub before : List Link
  pub after : List Link
  pub split : links ≡ before ++ after
  pub now : listing block' size (suc fuel) off ≡ some (before ++ new ∷ after)
  pub kept : (i : ℕ) → i < off → block i ≡ block' i

with_link-used :
    (ent : DirentView) (links : List Link) → ent.ino ≢ 0 → with_link ent links ≡ link ent ∷ links
with_link-used ent links used = rw (test ent.ino used) refl
  where
    test : (n : ℕ) → n ≢ 0 → (n == 0) ≡ false
    test n h = ground arith

with_link-unused :
    (ent : DirentView) (links : List Link) → ent.ino ≡ 0 → with_link ent links ≡ links
with_link-unused ent links unused = rw (test ent.ino unused) refl
  where
    test : (n : ℕ) → n ≡ 0 → (n == 0) ≡ true
    test n h = ground arith

named :
    {u v : List ℕ} (n : ℕ) (links : List Link)
    → u ≡ v
    → ◌≡◌ {A = List Link} ((n, u) ∷ links) ((n, v) ∷ links)
named n links h = cc

if-++ :
    (b : Bool) (x : Link) (u v : List Link)
    → (if b then u ++ v else x ∷ u ++ v) ≡ (if b then u else x ∷ u) ++ v
if-++ true x u v = refl
if-++ false x u v = refl

pub dirent_size-aligned : (n : ℕ) → dirent_size n % 4 ≡ 0
unfolding dirent_size
dirent_size-aligned n = omega arith

module _ (name : Name) (new_inode : ℕ) (some_name : 0 < name.len)
    (no_nul : (i : ℕ) → i < name.len → name.chars i ≢ 0) (used : 0 < new_inode)
    (word : new_inode < 2 ^ 32) where
  abbrev pub new_link : Link
  new_link = (new_inode, name_list name.chars name.len)

  entry_of-link :
      (reclen : ℕ) (links : List Link)
      → with_link (entry_of new_inode reclen name) links ≡ new_link ∷ links
  entry_of-link reclen links =
      with_link-used (entry_of new_inode reclen name) links (omega arith)
      ∙ named new_inode links (name_list-cong _ name.chars name.len λ i lt. ground arith)

  -- a new entry before a rest that is there
  new-listing :
      (b block' : Bytes) (size fuel p reclen : ℕ) (after : List Link)
      → Written b p new_inode reclen name block'
      → p + reclen ≤ size
      → p % 1024 + reclen ≤ 1024
      → listing b size fuel (p + reclen) ≡ some after
      → listing block' size (suc fuel) p ≡ some (new_link ∷ after)
  new-listing b block' size fuel p reclen after w fits in_block rest =
      let r =
        Written-IsEntry b size p new_inode reclen name block' w some_name no_nul word fits
          in_block in
      let least = dirent_size-le name.len w.short in
      let room = w.room in
      let outside : (i : ℕ) → p + reclen ≤ i → i < size → b i ≡ block' i = λ i lo hi. sym (
        ap (λ m. m i) w.stored
        ∙ stored-outside b p new_inode reclen name i (omega arith) (inr lo)) in
      Same-listing block' size fuel p (entry_of new_inode reclen name) _ after (omega arith) r.0 r.1
        (listing-local b block' size fuel (p + reclen) after outside rest)
      ∙ ap (λ x. some x) (entry_of-link reclen after)

  pub unused-Placed :
      (block block' : Bytes) (size fuel off : ℕ) (ent : DirentView) (after : List Link)
      → IsEntry block size off ent
      → listing block size fuel (off + ent.reclen) ≡ some after
      → TakesUnused name new_inode block off ent block'
      → Placed block block' size (suc fuel) off new_link (with_link ent after)
  unused-Placed block block' size fuel off ent after is rest t =
      let w = write_dirent_raw-ok block off new_inode ent.reclen name block' t.1 in
      let least = dirent_size-le name.len w.short in
      let room = w.room in
      record {
        before = [];
        after = after;
        split = with_link-unused ent after t.0;
        now =
            new-listing block block' size (suc fuel) off ent.reclen after w is.reclen_fits
              is.reclen_in_block (listing-more block size fuel (off + ent.reclen) after rest);
        kept = λ i lt. sym (
            ap (λ m. m i) w.stored
            ∙ stored-outside block off new_inode ent.reclen name i (omega arith) (inl lt));
      }

  -- the entry in use, cut to the part it uses
  abbrev cut : DirentView → DirentView
  cut ent = record ent { reclen = dirent_size ent.namlen }

  cut-Same :
      (block block' : Bytes) (size off : ℕ) (ent : DirentView)
      → IsEntry block size off ent
      → ent.ino ≢ 0
      → ((i : ℕ)
          → i < off + dirent_size ent.namlen
          → write_be16 block (off + 4) (dirent_size ent.namlen) i ≡ block' i)
      → Same (cut ent) (dirent_at block' off)
  unfolding dirent_at
  cut-Same block block' size off ent is used same =
      let n = IsEntry-name block size off ent is used in
      let g = bad_name-false ent n.0 in
      let least = dirent_size-le ent.namlen g.1 in
      let here = is.is_here in
      let unchanged : (i : ℕ)
          → (i < off + 4) ⊎ (off + 6 ≤ i)
          → i < off + dirent_size ent.namlen
          → block i ≡ block' i =
        λ i out lt.
          sym (write_be16-outside block (off + 4) (dirent_size ent.namlen) i (omega (arith, out)))
          ∙ same i lt in
      record {
        ino =
            ap (λ x. x.ino) here
            ∙ read_be32_cong block block' off
                (λ i lo hi. unchanged i (inl (omega arith)) (omega arith));
        reclen = omega (
          arith,
          read_be16-write_be16 block (off + 4) (dirent_size ent.namlen),
          g.2,
          is.reclen_in_block,
          read_be16_cong _ block' (off + 4) (λ i lo hi. same i (omega arith)),
        );
        namlen =
            ap (λ x. x.namlen) here
            ∙ read_be16_cong block block' (off + 6)
                (λ i lo hi. unchanged i (inr (omega arith)) (omega arith));
        name = λ _ i le.
            ap (λ x. x.name i) here ∙ unchanged (off + 8 + i) (inr (omega arith)) (omega arith);
      }

  cut-good : (ent : DirentView) → bad_name ent ≡ false → bad_name (cut ent) ≡ false
  cut-good ent good =
      let g = bad_name-false ent good in good_name (cut ent) g.0 g.1 (omega arith) g.3 g.4 g.5

  pub slack-Placed :
      (block block' : Bytes) (size fuel off : ℕ) (ent : DirentView) (after : List Link)
      → off < size
      → IsEntry block size off ent
      → listing block size fuel (off + ent.reclen) ≡ some after
      → TakesSlack name new_inode block off ent block'
      → Placed block block' size (suc fuel) off new_link (with_link ent after)
  slack-Placed block block' size fuel off ent after inside is rest t =
      let used = dirent_size ent.namlen in
      let slack = ent.reclen - used in
      let n = IsEntry-name block size off ent is t.0 in
      let g = bad_name-false ent n.0 in
      let least = dirent_size-le ent.namlen g.1 in
      let in_block = is.reclen_in_block in
      let u : u16 used ≡ used = omega (arith, g.2, in_block) in
      let v : u16 slack ≡ slack = omega (arith, g.2, in_block) in
      let b1 = write_be16 block (off + 4) used in
      let w : Written b1 (off + used) new_inode slack name block' =
        write_dirent_raw-ok b1 (off + used) new_inode slack name block' (
          subst
            (λ x.
              write_dirent_raw (write_be16 block (off + 4) x) (off + used) new_inode slack name
              ≡ ok block')
            u
            (subst
              (λ y.
                write_dirent_raw (write_be16 block (off + 4) (u16 used)) (off + used) new_inode y
                  name
                ≡ ok block')
              v t.2)) in
      let need_least = dirent_size-le name.len w.short in
      let need_fits = t.1 in
      let whole : off + used + slack ≡ off + ent.reclen = omega (arith, g.2) in
      let kept1 : (i : ℕ) → i < off + used → b1 i ≡ block' i = λ i lt. sym (
        ap (λ m. m i) w.stored
        ∙ stored-outside b1 (off + used) new_inode slack name i (omega arith) (inl lt)) in
      let same = cut-Same block block' size off ent is t.0 kept1 in
      let fits = is.reclen_fits in
      let cut_there =
        Same-IsEntry block' size off (cut ent) is.header_fits (omega arith)
          (dirent_size-aligned ent.namlen) (omega (arith, g.2)) (omega (arith, g.2))
          (inr (cut-good ent n.0)) same in
      let rest1 : listing b1 size fuel (off + used + slack) ≡ some after =
        subst (λ p. listing b1 size fuel p ≡ some after) (sym whole)
          (listing-local block b1 size fuel (off + ent.reclen) after
            (λ i lo hi. sym (write_be16-outside block (off + 4) used i (inr (omega (arith, g.2)))))
            rest) in
      let second =
        new-listing b1 block' size fuel (off + used) slack after w (omega (arith, whole))
          (omega (arith, g.2)) rest1 in
      record {
        before = link ent ∷ [];
        after = after;
        split = with_link-used ent after t.0;
        now =
            Same-listing block' size (suc fuel) off (cut ent) _ (new_link ∷ after) inside cut_there
              same second
            ∙ ap (λ x. some x) (with_link-used (cut ent) (new_link ∷ after) t.0);
        kept = λ i lt.
            sym (write_be16-outside block (off + 4) used i (inl (omega arith)))
            ∙ kept1 i (omega arith);
      }

  -- an entry without room stays, and the new one goes further on
  pub later-Placed :
      (block block' : Bytes) (size fuel off : ℕ) (ent : DirentView) (after : List Link)
      → off < size
      → IsEntry block size off ent
      → Placed block block' size fuel (off + ent.reclen) new_link after
      → Placed block block' size (suc fuel) off new_link (with_link ent after)
  later-Placed block block' size fuel off ent after inside is p =
      let l = IsEntry-local block block' size off ent is (λ i lo hi. p.kept i hi) in
      record {
        before = with_link ent p.before;
        after = p.after;
        split = ap (with_link ent) p.split ∙ if-++ (ent.ino == 0) (link ent) p.before p.after;
        now =
            Same-listing block' size (suc fuel) off ent _ (p.before ++ new_link ∷ p.after) inside
              l.0 l.1 p.now
            ∙ ap (λ x. some x) (if-++ (ent.ino == 0) (link ent) p.before (new_link ∷ p.after));
        kept = λ i lt. p.kept i (omega arith);
      }
