-- ===== src/Directory/RoundTrip.antt =====
-- An entry that nextufs__write_dirent_raw stores is the one that nextufs__read_dirent reads, and an
-- entry is read from its own bytes only.
use nextufs.Base.{
  ℕ, zero, suc, ◌+◌, ◌-◌, ◌%◌, ◌≤◌, ◌<◌, ◌≡◌, ◌≢◌, refl, subst, sym, ap, ◌∙◌, ◌⊎◌, inl, inr, Bool,
  true, false, not, ◌&&◌, ◌||◌, some, none, Bytes, arith, if◌then◌else◌, ltb, ◌==◌,
}
use native.Mathlib.Decide.{dec_lt}
use nextufs.Codec.Laws.{read_be32_cong, read_be16_cong}
use nextufs.Directory.Entry.{
  DirentView, slash, has_byte, dirent_size, bad_reclen, bad_name, dirent_at, read_dirent,
}
use nextufs.Directory.Bounds.{IsEntry, IsEntry-name, bad_name-false}

pub has_byte-cong :
    (p q : Bytes) (v n : ℕ) → ((i : ℕ) → i < n → p i ≡ q i) → has_byte p v n ≡ has_byte q v n
unfolding has_byte
has_byte-cong p q v zero same = refl
has_byte-cong p q v (suc n) same =
    rw (has_byte-cong p q v n (λ i lt. same i (omega arith)), same n (omega arith)) refl

accept :
    {A : Type 0} (b c d e : Bool) (a : A)
    → b ≡ false
    → c ≡ false
    → (d ≡ false) ⊎ (e ≡ false)
    → (if b then none else if c || d && e then none else some a) ≡ some a
accept true c d e a hb hc h = absurd cc
accept false true d e a hb hc h = absurd cc
accept false false false e a hb hc h = refl
accept false false true false a hb hc h = refl
accept false false true true a hb hc (inl h) = absurd cc
accept false false true true a hb hc (inr h) = absurd cc

good_reclen :
    (size off : ℕ) (ent : DirentView)
    → 8 ≤ ent.reclen
    → ent.reclen % 4 ≡ 0
    → off + ent.reclen ≤ size
    → off % 1024 + ent.reclen ≤ 1024
    → bad_reclen size off ent ≡ false
unfolding bad_reclen
good_reclen size off ent least aligned fits block = ground arith

good_place : (size off : ℕ) → off + 8 ≤ size → (ltb size off || ltb (size - off) 8) ≡ false
good_place size off fits = ground arith

unused_test : (n : ℕ) → n ≡ 0 → not (n == 0) ≡ false
unused_test n h = ground arith

-- To be read, an entry needs its header to be sound and its name, if it is in use.
pub IsEntry-read_dirent :
    (buf : Bytes) (size off : ℕ) (ent : DirentView)
    → IsEntry buf size off ent
    → read_dirent buf size off ≡ some (dirent_at buf off)
unfolding read_dirent
IsEntry-read_dirent buf size off ent h =
    let here = dirent_at buf off in
    let reclen_ok : bad_reclen size off here ≡ false =
      subst (λ x. bad_reclen size off x ≡ false) h.is_here
        (good_reclen size off ent h.reclen_least h.reclen_aligned h.reclen_fits
          h.reclen_in_block) in
    let name_ok : (not (here.ino == 0) ≡ false) ⊎ (bad_name here ≡ false) =
      subst (λ x. (not (x.ino == 0) ≡ false) ⊎ (bad_name x ≡ false)) h.is_here
        (elim h.name_good [
          | inl unused ↦ inl (unused_test ent.ino unused)
          | inr good ↦ inr good
        ]) in
    accept _ _ _ _ _ (good_place size off h.header_fits) reclen_ok name_ok

pub good_name :
    (ent : DirentView)
    → 0 < ent.namlen
    → ent.namlen ≤ 255
    → dirent_size ent.namlen ≤ ent.reclen
    → has_byte ent.name 0 ent.namlen ≡ false
    → has_byte ent.name slash ent.namlen ≡ false
    → ent.name ent.namlen ≡ 0
    → bad_name ent ≡ false
unfolding bad_name
good_name ent some_name short fits nul sl end_ = rw (nul, sl) (ground arith)

-- Two entries that say the same; the name of an unused entry says nothing.
pub record Same (a b : DirentView) : Type 0 where
  pub ino : a.ino ≡ b.ino
  pub reclen : a.reclen ≡ b.reclen
  pub namlen : a.namlen ≡ b.namlen
  pub name : a.ino ≢ 0 → (i : ℕ) → i ≤ a.namlen → a.name i ≡ b.name i

Same-bad_name : (a b : DirentView) → Same a b → a.ino ≢ 0 → bad_name a ≡ false → bad_name b ≡ false
Same-bad_name a b h used good =
    let g = bad_name-false a good in
    let n = h.namlen in
    let sized : (v : ℕ) → has_byte a.name v a.namlen ≡ has_byte b.name v b.namlen = λ v.
      has_byte-cong a.name b.name v a.namlen (λ i lt. h.name used i (omega arith))
      ∙ ap (has_byte b.name v) n in
    good_name b (omega (arith, g.0, n)) (omega (arith, g.1, n))
      (subst (λ x. dirent_size x ≤ b.reclen) n (subst (λ x. dirent_size a.namlen ≤ x) h.reclen g.2))
      (sym (sized 0) ∙ g.3) (sym (sized slash) ∙ g.4)
      (ap b.name (sym n) ∙ sym (h.name used a.namlen (omega arith)) ∙ g.5)

pub Same-IsEntry :
    (buf' : Bytes) (size off : ℕ) (ent : DirentView)
    → off + 8 ≤ size
    → 8 ≤ ent.reclen
    → ent.reclen % 4 ≡ 0
    → off + ent.reclen ≤ size
    → off % 1024 + ent.reclen ≤ 1024
    → (ent.ino ≡ 0) ⊎ (bad_name ent ≡ false)
    → Same ent (dirent_at buf' off)
    → IsEntry buf' size off (dirent_at buf' off)
Same-IsEntry buf' size off ent header least aligned fits block good h = record {
  is_here = refl;
  header_fits = header;
  reclen_least = subst (λ x. 8 ≤ x) h.reclen least;
  reclen_aligned = subst (λ x. x % 4 ≡ 0) h.reclen aligned;
  reclen_fits = subst (λ x. off + x ≤ size) h.reclen fits;
  reclen_in_block = subst (λ x. off % 1024 + x ≤ 1024) h.reclen block;
  name_good = elim (dec_lt 0 ent.ino) [
    | no unused ↦ inl (omega (arith, h.ino))
    | yes used ↦ elim good [
      | inl unused ↦ inl (omega (arith, h.ino))
      | inr name_ok ↦ inr (Same-bad_name ent _ h (omega arith) name_ok)
    ]
  ];
}

module _ (buf buf' : Bytes) (size off : ℕ) (ent : DirentView) where
  local-Same :
      IsEntry buf size off ent
      → ((i : ℕ) → off ≤ i → i < off + ent.reclen → buf i ≡ buf' i)
      → Same ent (dirent_at buf' off)
  unfolding dirent_at
  local-Same h same =
      let least = h.reclen_least in
      let here = h.is_here in
      record {
        ino =
            ap (λ x. x.ino) here ∙ read_be32_cong buf buf' off (λ i lo hi. same i lo (omega arith));
        reclen =
            ap (λ x. x.reclen) here
            ∙ read_be16_cong buf buf' (off + 4) (λ i lo hi. same i (omega arith) (omega arith));
        namlen =
            ap (λ x. x.namlen) here
            ∙ read_be16_cong buf buf' (off + 6) (λ i lo hi. same i (omega arith) (omega arith));
        name = λ used i le.
            ap (λ x. x.name i) here ∙ same (off + 8 + i) (omega arith) (name_inside used i le);
      }
    where
      name_inside : ent.ino ≢ 0 → (i : ℕ) → i ≤ ent.namlen → off + 8 + i < off + ent.reclen
      name_inside used i le = omega (arith, (IsEntry-name buf size off ent h used).1)

  -- An entry is read from its own bytes only: another buffer with those has the same entry there.
  pub IsEntry-local :
      IsEntry buf size off ent
      → ((i : ℕ) → off ≤ i → i < off + ent.reclen → buf i ≡ buf' i)
      → IsEntry buf' size off (dirent_at buf' off) × Same ent (dirent_at buf' off)
  IsEntry-local h same =
      let s = local-Same h same in
      (
        Same-IsEntry buf' size off ent h.header_fits h.reclen_least h.reclen_aligned h.reclen_fits
            h.reclen_in_block h.name_good s,
        s,
      )
