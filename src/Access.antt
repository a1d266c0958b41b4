-- ===== src/Access.antt =====
-- Who may do what: nextufs__node_check_access of src/core/node.c and the checks of src/mutate/mutate.c.
-- A set of users or of groups is a list of numbers; R_OK, W_OK and X_OK are 4, 2 and 1.
pub mod Classes
use Prim.Native.Nat.{bit_and, bit_or}
use nextufs.Base.{
  ℕ, ◌+◌, ◌-◌, ◌*◌, ◌/◌, ◌%◌, ◌^◌, Bool, true, false, not, ◌&&◌, ◌||◌, List, [], ◌∷◌, Result, ok,
  err, ltb, leb, ◌==◌, if◌then◌else◌, u16, eacces, eperm, eoverflow, einval, erofs, enotempty,
}
use nextufs.Inode.{Inode}
use nextufs.Alloc.Groups.{ifmt, ifdir}

-- enum nextufs_write_policy
pub data WritePolicy : Type 0 where
  write_su : WritePolicy
  write_user : WritePolicy

-- struct nextufs_write_ctx, less its session
pub record WriteCtx : Type 0 where
  pub policy : WritePolicy
  pub uid : ℕ
  pub gid : ℕ
  pub groups : List ℕ

-- whether a number is in the list
unfoldable pub member : ℕ → List ℕ → Bool
member g [] = false
member g (h ∷ hs) = h == g || member g hs

-- the three permission bits that count for this user
unfoldable pub class_bits : Inode → ℕ → ℕ → List ℕ → ℕ
unfolding member
class_bits ino uid gid groups =
    if uid == ino.uid
    then ino.mode / 2 ^ 6 % 8
    else if gid == ino.gid || member ino.gid groups
    then ino.mode / 2 ^ 3 % 8
    else ino.mode % 8

-- the bits asked for: R_OK, W_OK and X_OK are the bits themselves
abbrev pub asked_bits : ℕ → ℕ
asked_bits mask = bit_and mask 4 + bit_and mask 2 + bit_and mask 1

unfoldable pub node_check_access : Inode → ℕ → ℕ → List ℕ → ℕ → Bool → Result (Unit {0})
unfolding class_bits
node_check_access ino uid gid groups mask allow_write =
    if not allow_write && not (bit_and mask 2 == 0)
    then err erofs
    else if mask == 0
    then ok tt
    else if uid == 0
    then (if not (bit_and mask 1 == 0) && bit_and ino.mode 0o111 == 0 then err eacces else ok tt)
    else if bit_and (class_bits ino uid gid groups) (asked_bits mask) == asked_bits mask
    then ok tt
    else err eacces

module _ (ctx : WriteCtx) where
  abbrev pub is_user : Bool
  is_user = elim ctx.policy [ write_user ↦ true | write_su ↦ false ]

  abbrev pub is_root : Bool
  is_root = ctx.uid == 0

  -- INT16_MAX
  abbrev pub id_fits_nextstep : ℕ → Bool
  id_fits_nextstep id = leb id 32767

  unfoldable pub require_ctx_ids_fit : Result (Unit {0})
  require_ctx_ids_fit =
      if not is_user
      then ok tt
      else if not (id_fits_nextstep ctx.uid) || not (id_fits_nextstep ctx.gid)
      then err eoverflow
      else ok tt

  unfoldable pub ctx_in_group : ℕ → Bool
  unfolding member
  ctx_in_group gid = ctx.gid == gid || member gid ctx.groups

  unfoldable pub require_user_access : Inode → ℕ → Result (Unit {0})
  unfolding node_check_access
  require_user_access ino mask =
      if not is_user then ok tt else node_check_access ino ctx.uid ctx.gid ctx.groups mask true

  -- W_OK | X_OK
  unfoldable pub require_parent_mutation : Inode → Result (Unit {0})
  unfolding require_user_access
  require_parent_mutation parent = require_user_access parent 3

  unfoldable pub check_sticky_parent : Inode → Inode → Result (Unit {0})
  check_sticky_parent parent target =
      if not is_user
        || bit_and parent.mode 0o1000 == 0
        || is_root
        || ctx.uid == parent.uid
        || ctx.uid == target.uid
      then ok tt
      else err eperm

  unfoldable pub set_new_inode_owner : Inode → Inode → Inode
  set_new_inode_owner parent ino = record ino {
    uid = if is_user then u16 ctx.uid else 0;
    gid = parent.gid;
  }

  unfoldable pub require_chmod_allowed : Inode → Result (Unit {0})
  require_chmod_allowed ino =
      if not is_user || is_root || ctx.uid == ino.uid then ok tt else err eperm

  unfoldable pub require_chown_allowed : Inode → ℕ → ℕ → Result (Unit {0})
  unfolding ctx_in_group
  require_chown_allowed ino uid gid =
      if not is_user || is_root
      then ok tt
      else if not (ctx.uid == ino.uid) || not (uid == ino.uid)
      then err eperm
      else if ctx_in_group gid
      then ok tt
      else err eperm

  abbrev pub without : ℕ → ℕ → ℕ
  without bits mode = bit_and mode (2 ^ 16 - 1 - bits)

  -- no sticky bit but on directories, no set-group-id for another's group
  unfoldable pub sanitized : ℕ → ℕ → ℕ
  unfolding ctx_in_group
  sanitized gid mode =
      let mode1 = (if bit_and mode ifmt == ifdir then mode else without 0o1000 mode) in
      if not (bit_and mode1 0o2000 == 0) && not (ctx_in_group gid)
      then without 0o2000 mode1
      else mode1

  unfoldable pub sanitize_new_inode_mode : Inode → Inode
  unfolding sanitized
  sanitize_new_inode_mode ino =
      if not is_user || is_root then ino else record ino { mode = sanitized ino.gid ino.mode }

  unfoldable pub sanitize_chmod_mode : Inode → ℕ → ℕ
  unfolding sanitized
  sanitize_chmod_mode ino mode =
      let new_mode = bit_or (bit_and ino.mode ifmt) (bit_and mode 0o7777) in
      if not is_user || is_root then new_mode else sanitized ino.gid new_mode

-- `(uid_t)-1` leaves the owner
unfoldable pub require_owner_ids_fit : ℕ → ℕ → Result (Unit {0})
require_owner_ids_fit uid gid =
    if not (uid == 2 ^ 32 - 1) && not (leb uid 32767)
    then err eoverflow
    else if not (gid == 2 ^ 32 - 1) && not (leb gid 32767)
    then err eoverflow
    else ok tt
