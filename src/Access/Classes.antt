-- ===== src/Access/Classes.antt =====
-- The permission check of src/core/node.c against the three permissions of one class.
use Prim.Native.Nat.{bit_and}
use mathlib.Core.Logic.Or
use mathlib.Core.List.{Mem, mem-cons, mem-cons_self, mem-cons_of_mem, not-mem-nil}
use nextufs.Base.{
  ℕ, ◌+◌, ◌^◌, ◌||◌, [], ◌∷◌, ◌⊎◌, subst, ◌/◌, ◌%◌, ◌≤◌, ◌<◌, ◌≡◌, ◌≢◌, refl, ◌↔◌, arith, Bool,
  true, false, ◌&&◌, List, Result, ok, err, leb, ◌==◌, if◌then◌else◌, eacces, inl, inr, Bool-cases,
}
use nextufs.Bits.Table.{every, every_holds, same, same_sound}
use nextufs.Inode.{Inode}
use nextufs.Access.{member, class_bits, asked_bits, node_check_access}

-- each permission that is asked for is given
abbrev all_given : ℕ → ℕ → Bool
all_given bits mask =
    leb (mask / 4 % 2) (bits / 4 % 2)
    && leb (mask / 2 % 2) (bits / 2 % 2)
    && leb (mask % 2) (bits % 2)

row : ℕ → ℕ → Bool
row bits mask = same (bit_and bits (asked_bits mask) == asked_bits mask) (all_given bits mask)

table : every (λ bits. every (row bits) 8) 8 ≡ true
unfolding every row
table = refl

asked-all_given :
    (bits mask : ℕ)
    → bits < 8
    → mask < 8
    → (bit_and bits (asked_bits mask) == asked_bits mask) ≡ all_given bits mask
unfolding row
asked-all_given bits mask hb hm =
    same_sound _ _
      (every_holds (row bits) 8 mask hm (every_holds (λ b. every (row b) 8) 8 bits hb table))

class_bits-lt : (ino : Inode) (uid gid : ℕ) (groups : List ℕ) → class_bits ino uid gid groups < 8
unfolding class_bits
class_bits-lt ino uid gid groups = ground arith

abbrev verdict : Bool → Result (Unit {0})
verdict b = if b then ok tt else err eacces

decided :
    (b : Bool) (bits mask : ℕ)
    → b ≡ all_given bits mask
    → (verdict b ≡ ok tt)
      ↔ ((mask / 4 % 2 ≤ bits / 4 % 2) × (mask / 2 % 2 ≤ bits / 2 % 2) × (mask % 2 ≤ bits % 2))
decided true bits mask h = ((λ _. (ground arith, ground arith, ground arith)), (λ _. refl))
decided false bits mask h = ((λ e. absurd cc), (λ g. absurd (ground arith)))

node_check_access-class_bits :
    (ino : Inode) (uid gid : ℕ) (groups : List ℕ) (mask : ℕ)
    → uid ≢ 0
    → mask < 8
    → (node_check_access ino uid gid groups mask true ≡ ok tt) ↔ (
        (mask / 4 % 2 ≤ class_bits ino uid gid groups / 4 % 2)
        × (mask / 2 % 2 ≤ class_bits ino uid gid groups / 2 % 2)
        × (mask % 2 ≤ class_bits ino uid gid groups % 2))
unfolding node_check_access
node_check_access-class_bits ino uid gid groups mask user small = elim (Bool-cases (mask == 0)) [
  | inl none ↦ rw none ((λ _. (ground arith, ground arith, ground arith)), (λ _. refl))
  | inr some_asked ↦
      rw (some_asked, user_test)
        (decided _ (class_bits ino uid gid groups) mask (
          asked-all_given (class_bits ino uid gid groups) mask (class_bits-lt ino uid gid groups)
            small))
]
  where
    user_test : (uid == 0) ≡ false
    user_test = ground arith

member-Mem : (g : ℕ) (groups : List ℕ) → member g groups ≡ true → Mem g groups
unfolding member
member-Mem g [] e = absurd cc
member-Mem g (h ∷ hs) e = elim (Bool-cases (h == g)) [
  | inl found ↦ subst (λ x. Mem x (h ∷ hs)) (hit found) mem-cons_self
  | inr further ↦ mem-cons_of_mem h (member-Mem g hs (rw (further, member) at e))
]
  where
    hit : (h == g) ≡ true → h ≡ g
    hit found = ground arith

not-Mem : (g : ℕ) (groups : List ℕ) → member g groups ≡ false → ¬ Mem g groups
unfolding member
not-Mem g [] e m = not-mem-nil m
not-Mem g (h ∷ hs) e m =
    Or.elim (λ x y. absurd x) (mem-cons.0 m) first (not-Mem g hs (ground arith))
  where
    first : g ≡ h → ⊥
    first same_group = ground arith

-- The user has the group `g`, as their own or as one of the further ones.
abbrev pub InGroup : ℕ → ℕ → List ℕ → Type 0
InGroup g gid groups = (gid ≡ g) ⊎ Mem g groups

-- The class of a user, with the place of its three bits in the mode: the owner is in no other class,
-- and who has the group of the inode is not one of the others.
pub data Class (ino : Inode) (uid gid : ℕ) (groups : List ℕ) : ℕ → Type 0 where
  owner : uid ≡ ino.uid → Class ino uid gid groups 6
  group : uid ≢ ino.uid → InGroup ino.gid gid groups → Class ino uid gid groups 3
  other : uid ≢ ino.uid → ¬ InGroup ino.gid gid groups → Class ino uid gid groups 0

inside_group :
    (g gid : ℕ) (groups : List ℕ) → InGroup g gid groups → (gid == g || member g groups) ≡ true
inside_group g gid groups (inl own) = ground arith
inside_group g gid groups (inr further) = elim (Bool-cases (member g groups)) [
  | inl found ↦ ground arith
  | inr missing ↦ absurd (not-Mem g groups missing further)
]

outside_group :
    (g gid : ℕ) (groups : List ℕ) → ¬ InGroup g gid groups → (gid == g || member g groups) ≡ false
outside_group g gid groups out = elim (Bool-cases (member g groups)) [
  | inl found ↦ absurd (out (inr (member-Mem g groups found)))
  | inr missing ↦ elim (Bool-cases (gid == g)) [
    | inl own ↦ absurd (out (inl (ground arith)))
    | inr different ↦ ground arith
  ]
]

class_bits-Class :
    (ino : Inode) (uid gid : ℕ) (groups : List ℕ) {k : ℕ}
    → Class ino uid gid groups k
    → class_bits ino uid gid groups ≡ ino.mode / 2 ^ k % 8
unfolding class_bits
class_bits-Class ino uid gid groups (owner is) = ground arith
class_bits-Class ino uid gid groups (group isnt has) =
    let found = inside_group ino.gid gid groups has in ground arith
class_bits-Class ino uid gid groups (other isnt out) =
    let missing = outside_group ino.gid gid groups out in ground arith

permissions :
    (ino : Inode) (uid gid : ℕ) (groups : List ℕ) {k : ℕ}
    → Class ino uid gid groups k
    → (ino.mode / 2 ^ k % 8 / 4 % 2 ≡ ino.mode / 2 ^ (k + 2) % 2)
      × (ino.mode / 2 ^ k % 8 / 2 % 2 ≡ ino.mode / 2 ^ (k + 1) % 2)
      × (ino.mode / 2 ^ k % 8 % 2 ≡ ino.mode / 2 ^ k % 2)
permissions ino uid gid groups (owner is) = (omega arith, omega arith, omega arith)
permissions ino uid gid groups (group isnt has) = (omega arith, omega arith, omega arith)
permissions ino uid gid groups (other isnt out) = (omega arith, omega arith, omega arith)

-- With a mask of the three permissions, a user other than 0 gets access, for writing too, exactly if the mode gives every permission that is
-- asked for in the one class the user is in: the owner, else who has the inode's group as their own or
-- as a further group, else the others.
pub node_check_access-Class :
    (ino : Inode) (uid gid : ℕ) (groups : List ℕ) (mask : ℕ) {k : ℕ}
    → Class ino uid gid groups k
    → uid ≢ 0
    → mask < 8
    → (node_check_access ino uid gid groups mask true ≡ ok tt) ↔ (
        (mask / 4 % 2 ≤ ino.mode / 2 ^ (k + 2) % 2)
        × (mask / 2 % 2 ≤ ino.mode / 2 ^ (k + 1) % 2)
        × (mask % 2 ≤ ino.mode / 2 ^ k % 2))
node_check_access-Class ino uid gid groups mask {k} class user small =
    let bits = class_bits-Class ino uid gid groups class in
    let given = permissions ino uid gid groups class in
    let decides = node_check_access-class_bits ino uid gid groups mask user small in
    (
      λ e. let g = decides.0 e in (ground arith, ground arith, ground arith),
      λ g. decides.1 (ground arith, ground arith, ground arith),
    )
