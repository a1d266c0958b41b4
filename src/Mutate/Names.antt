-- ===== src/Mutate/Names.antt =====
-- The loop of nextufs__insert_dirent (src/mutate/dir_mutate.c) on a block refines the insertion of a name
-- into a list of names.
use nextufs.Base.{
  subst, ℕ, zero, suc, ◌+◌, ◌^◌, ◌<◌, ◌≡◌, ◌≢◌, sym, ◌∙◌, inl, inr, arith, List, ◌∷◌, ◌++◌, none,
  some, Bytes, ok,
}
use native.Mathlib.Decide.{dec_lt}
use nextufs.Directory.Entry.{Name}
use nextufs.Directory.Listing.{Link, name_list, listing, listing-Step}
use nextufs.Mutate.Dirent.{place_dirent}
use nextufs.Mutate.Placed.{
  place_here-cases, place_dirent-end, place_dirent-no_fuel, place_dirent-step,
}
use nextufs.Mutate.Insertion.{Placed, new_link, unused-Placed, slack-Placed, later-Placed}

module _ (name : Name) (new_inode : ℕ) (some_name : 0 < name.len)
    (no_nul : (i : ℕ) → i < name.len → name.chars i ≢ 0) (used : 0 < new_inode)
    (word : new_inode < 2 ^ 32) where
  place_dirent-Placed :
      (block block' : Bytes) (size fuel off : ℕ) (links : List Link)
      → listing block size fuel off ≡ some links
      → place_dirent name new_inode block size fuel off ≡ ok (some block')
      → Placed block block' size fuel off (new_link name new_inode some_name no_nul used word) links
  place_dirent-Placed block block' size zero off links h p =
      absurd (place_dirent-no_fuel name new_inode block block' size off p)
  place_dirent-Placed block block' size (suc fuel) off links h p = elim (dec_lt off size) [
    | no past ↦
        absurd
          (at_end (sym (place_dirent-end name new_inode block size fuel off (omega arith)) ∙ p))
    | yes inside ↦
        let r = listing-Step block size fuel off links inside h in
        let ent = r.0 in
        subst
          (Placed block block' size (suc fuel) off
            (new_link name new_inode some_name no_nul used word))
          (sym r.4)
          (elim (place_here-cases name new_inode block off ent _ block'
            (sym (place_dirent-step name new_inode block size fuel off ent inside r.2) ∙ p)) [
              | inl t ↦
                  unused-Placed name new_inode some_name no_nul used word block block' size fuel off
                    ent r.1 r.2 r.3 t
              | inr (inl t) ↦
                  slack-Placed name new_inode some_name no_nul used word block block' size fuel off
                    ent r.1 inside r.2 r.3 t
              | inr (inr q) ↦
                  later-Placed name new_inode some_name no_nul used word block block' size fuel off
                    ent r.1 inside r.2
                    (place_dirent-Placed block block' size fuel (off + ent.reclen) r.1 r.3 q)
            ])
  ]
    where
      at_end : ok none ≡ ok (some block') → ⊥
      at_end q = absurd cc

  -- Where the entries of a block are sound, and the new name is a C string that is not empty and its
  -- inode number a word that is not 0: when the loop over them places the new entry, the chain is sound
  -- again, and it lists the old names in their order and the new one once, somewhere among them.
  pub place_dirent-listing :
      (block block' : Bytes) (size fuel off : ℕ) (links : List Link)
      → listing block size fuel off ≡ some links
      → place_dirent name new_inode block size fuel off ≡ ok (some block')
      → (before : List Link) × (after : List Link) × (links ≡ before ++ after)
        × (listing block' size (suc fuel) off
            ≡ some (before ++ (new_inode, name_list name.chars name.len) ∷ after))
  place_dirent-listing block block' size fuel off links h p =
      let r = place_dirent-Placed block block' size fuel off links h p in
      (r.before, r.after, r.split, r.now)
