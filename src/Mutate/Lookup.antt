-- ===== src/Mutate/Lookup.antt =====
-- A name that was inserted into a block (src/mutate/dir_mutate.c) is found (src/core/directory.c).
use nextufs.Base.{
  ℕ, suc, ◌^◌, ◌<◌, ◌≡◌, ◌≢◌, refl, sym, ap, ◌∙◌, arith, true, false, List, [], ◌∷◌, ◌++◌, some,
  Bytes, ok, ◌==◌, if◌then◌else◌, inl, inr, Bool-cases,
}
use nextufs.Disk.{Dev}
use nextufs.Directory.Entry.{Name}
use nextufs.Directory.Iterate.{walk_entries, find_name_cb}
use nextufs.Directory.Listing.{Link, name_list, listing}
use nextufs.Directory.Find.{same_name, find_link, walk_entries-find_link}
use nextufs.Mutate.Dirent.{place_dirent}
use nextufs.Mutate.Names.{place_dirent-listing}

same_name_refl : (u : List ℕ) → same_name u u ≡ true
unfolding same_name
same_name_refl [] = refl
same_name_refl (a ∷ u) = rw (equal a, same_name_refl u) refl
  where
    equal : (n : ℕ) → (n == n) ≡ true
    equal n = ground arith

find_link-new :
    (ino : ℕ) (u : List ℕ) (l r : List Link)
    → find_link u (l ++ r) ≡ (0, 0)
    → find_link u (l ++ (ino, u) ∷ r) ≡ (1, ino)
unfolding find_link
find_link-new ino u [] r absent = rw (same_name_refl u) refl
find_link-new ino u ((i, v) ∷ l) r absent = elim (Bool-cases (same_name v u)) [
  | inl same ↦ absurd (one_or_none (sym (rw same refl) ∙ absent))
  | inr other ↦ rw other (find_link-new ino u l r (sym (rw other refl) ∙ absent))
]
  where
    one_or_none : ◌≡◌ {A = ℕ × ℕ} (1, i) (0, 0) → ⊥
    one_or_none h = absurd (omega (arith, ap (λ p. p.0) h))

find_link-others :
    (t : List ℕ) (ino : ℕ) (u : List ℕ) (l r : List Link)
    → same_name u t ≡ false
    → find_link t (l ++ (ino, u) ∷ r) ≡ find_link t (l ++ r)
unfolding find_link
find_link-others t ino u [] r other = rw other refl
find_link-others t ino u ((i, v) ∷ l) r other =
    ap (λ x. if same_name v t then (1, i) else x) (find_link-others t ino u l r other)

module _ {S : Type 0} (name : Name) (new_inode : ℕ) (some_name : 0 < name.len)
    (no_nul : (i : ℕ) → i < name.len → name.chars i ≢ 0) (used : 0 < new_inode)
    (word : new_inode < 2 ^ 32) (block block' : Bytes) (size fuel : ℕ) (links : List Link)
    (d : Dev S) where
  -- When a name that the search does not find in a sound block is placed there, the search finds it in
  -- the new block, with its inode number.
  pub place_dirent-find :
      listing block size fuel 0 ≡ some links
      → place_dirent name new_inode block size fuel 0 ≡ ok (some block')
      → (walk_entries (find_name_cb name) block size fuel 0 0 d).0 ≡ ok (0, 0)
      → (walk_entries (find_name_cb name) block' size (suc fuel) 0 0 d).0 ≡ ok (1, new_inode)
  place_dirent-find h p absent =
      let r =
        place_dirent-listing name new_inode some_name no_nul used word block block' size fuel 0
          links h p in
      let u = name_list name.chars name.len in
      let none_before : find_link u (r.0 ++ r.1) ≡ (0, 0) =
        ap (find_link u) (sym r.2)
        ∙ ok_same _ _ (
            sym (ap (λ x. x.0) (walk_entries-find_link name block size d fuel 0 links h))
            ∙ absent) in
      ap (λ x. x.0) (walk_entries-find_link name block' size d (suc fuel) 0 _ r.3)
      ∙ ap (λ x. ok x) (find_link-new new_inode u r.0 r.1 none_before)
    where
      ok_same : (a b : ℕ × ℕ) → ok a ≡ ok b → a ≡ b
      ok_same a b h' = cc

  -- Every other name is found in the new block where it was found before, with the same inode number,
  -- and not found if it was not.
  pub place_dirent-find_others :
      (other : Name)
      → listing block size fuel 0 ≡ some links
      → place_dirent name new_inode block size fuel 0 ≡ ok (some block')
      → same_name (name_list name.chars name.len) (name_list other.chars other.len) ≡ false
      → (walk_entries (find_name_cb other) block' size (suc fuel) 0 0 d).0
        ≡ (walk_entries (find_name_cb other) block size fuel 0 0 d).0
  place_dirent-find_others other h p differs =
      let r =
        place_dirent-listing name new_inode some_name no_nul used word block block' size fuel 0
          links h p in
      let t = name_list other.chars other.len in
      ap (λ x. x.0) (walk_entries-find_link other block' size d (suc fuel) 0 _ r.3)
      ∙ ap (λ x. ok x)
          (find_link-others t new_inode (name_list name.chars name.len) r.0 r.1 differs
            ∙ ap (find_link t) (sym r.2))
      ∙ sym (ap (λ x. x.0) (walk_entries-find_link other block size d fuel 0 links h))
