-- ===== src/Path.antt =====
-- Finding a file by its path: src/core/path.c, and nextufs__path_split of src/core/layout.c. A path is
-- the list of its bytes, less the NUL.
pub mod Still
use Prim.Native.Nat.{bit_and}
use nextufs.Base.{
  ℕ, zero, suc, ◌+◌, ◌-◌, ◌*◌, Bool, true, false, not, ◌&&◌, ◌||◌, List, [], ◌∷◌, ◌++◌, Option,
  none, some, Bytes, zeros, shift, Result, ok, err, ltb, leb, ◌==◌, if◌then◌else◌, eio, einval,
  eloop, enoent, enotdir, enametoolong,
}
use nextufs.Disk.{Image, Env, M, pure, fail, ◌>>=◌, ◌>>◌}
use nextufs.Inode.{Inode}
use nextufs.Inode.Io.{inode_read}
use nextufs.File.Symlink.{inode_readlink}
use nextufs.Alloc.Groups.{ifmt, is_directory}
use nextufs.Alloc.Indirect.{attempt}
use nextufs.Alloc.Storage.{iflnk}
use nextufs.Access.{WriteCtx, require_user_access}
use nextufs.Directory.Entry.{Name, slash}
use nextufs.Directory.Iterate.{or_fail_eio, find_name_in_directory}

abbrev pub Text : Type 0
Text = List ℕ

abbrev pub max_path_len : ℕ
max_path_len = 4096

abbrev pub max_lookup_depth : ℕ
max_lookup_depth = 16

abbrev pub root_inode : ℕ
root_inode = 2

-- strlen
unfoldable pub text_length : Text → ℕ
text_length [] = 0
text_length (c ∷ cs) = suc (text_length cs)

-- the byte at an index, the NUL behind the end
unfoldable pub text_bytes : Text → Bytes
text_bytes [] i = 0
text_bytes (c ∷ cs) i = if i == 0 then c else text_bytes cs (i - 1)

abbrev pub name_of : Text → Name
name_of s = record { chars = text_bytes s; len = text_length s }

-- The C string in a buffer of `n` bytes.
unfoldable pub c_string : Bytes → ℕ → Text
c_string b zero = []
c_string b (suc n) = let rest = c_string (shift b 1) n in if b 0 == 0 then [] else b 0 ∷ rest

abbrev pub is_empty : Text → Bool
is_empty [] = true
is_empty (c ∷ cs) = false

unfoldable pub skip_slashes : Text → Text
skip_slashes [] = []
skip_slashes (c ∷ cs) = let rest = skip_slashes cs in if c == slash then rest else c ∷ cs

-- The segments that strsep gives, each with what is left of the path behind it.
abbrev pub Pieces : Type 0
Pieces = List (Text × Text)

abbrev pub longer_first : ℕ → Pieces → Pieces
longer_first c [] = (c ∷ [], []) ∷ []
longer_first c ((segment, rest) ∷ pieces) = (c ∷ segment, rest) ∷ pieces

unfoldable pub pieces : Text → Pieces
pieces [] = ([], []) ∷ []
pieces (c ∷ cs) =
    let later = pieces cs in if c == slash then ([], cs) ∷ later else longer_first c later

-- snprintf into a buffer of max_path_len bytes that the text must fit
unfoldable pub fitting : {S : Type 0} → Text → M S Text
unfolding text_length
fitting s = if leb max_path_len (text_length s) then fail enametoolong else pure s

abbrev pub joined : Text → Text → Text
joined a b = a ++ slash ∷ b

abbrev pub is_root_path : Text → Bool
is_root_path [] = true
is_root_path (c ∷ []) = c == slash
is_root_path (c ∷ d ∷ cs) = false

unfoldable pub append_path_component : {S : Type 0} → Text → Text → M S Text
unfolding fitting
append_path_component path component =
    fitting (if is_root_path path then slash ∷ component else joined path component)

abbrev pub is_absolute : Text → Bool
is_absolute [] = false
is_absolute (c ∷ cs) = c == slash

-- the path that a symbolic link stands for
unfoldable pub link_path : {S : Type 0} → Text → Text → Text → M S Text
unfolding fitting
link_path prefix target rest =
    let path = (if is_absolute target then target else joined prefix target) in
    fitting (if is_empty rest then path else joined path rest)

-- A node: its number, its inode and the place of that.
abbrev pub Node : Type 0
Node = ℕ × Inode × ℕ

unfoldable pub given_m : {S : Type 0} → Result (Unit {0}) → M S (Unit {0})
given_m (ok _) = pure tt
given_m (err e) = fail e

-- X_OK on a directory, for a caller with credentials
unfoldable pub may_search : {S : Type 0} → Option WriteCtx → Inode → M S (Unit {0})
unfolding given_m
may_search none ino = pure tt
may_search (some ctx) ino = given_m (require_user_access ctx ino 1)

module _ {S : Type 0} (env : Env S) (img : Image) (follow : Bool) (ctx : Option WriteCtx) where
  -- any failure to read an inode becomes EIO
  unfoldable pub node_at : ℕ → M S Node
  node_at inode_no =
      attempt (inode_read env img inode_no) >>= or_fail_eio >>= λ r. pure (inode_no, r.0, r.1)

  -- the entry of a directory with the name of the segment
  unfoldable pub step_to : Inode → Text → M S Node
  unfolding may_search node_at
  step_to ino segment =
      (if is_directory ino.mode then pure tt else fail enotdir)
      >> may_search ctx ino
      >> (attempt (find_name_in_directory env img ino (name_of segment)) >>= or_fail_eio)
      >>= λ next. if next == 0 then fail enoent else node_at next

  -- what is left of the path behind a segment, which must fit a buffer
  unfoldable pub link_target : Inode → M S Text
  unfolding c_string
  link_target ino =
      attempt (inode_readlink env img ino zeros max_path_len) >>= or_fail_eio >>= λ out.
      pure (c_string out max_path_len)

  -- The loop over the segments. `again` looks up the path that a symbolic link stands for.
  unfoldable pub walk_pieces : (Text → M S Node) → Pieces → Text → Node → M S Node
  unfolding step_to link_target link_path append_path_component
  walk_pieces again [] prefix node = pure node
  walk_pieces again ((segment, rest) ∷ more) prefix (ino_no, ino, off) =
      if is_empty segment
      then walk_pieces again more prefix (ino_no, ino, off)
      else (step_to ino segment >>= λ next. fitting rest >>= λ rest'.
          (if bit_and next.1.mode ifmt == iflnk && (not (is_empty rest') || follow)
            then (link_target next.1 >>= λ target. link_path prefix target rest' >>= again)
            else (append_path_component prefix segment >>= λ prefix'.
                walk_pieces again more prefix' next)))

  -- `depth` counts the links that may still be followed, and this path.
  unfoldable pub lookup_path : ℕ → Text → M S Node
  unfolding node_at walk_pieces skip_slashes pieces
  lookup_path zero path = fail eloop
  lookup_path (suc depth) path = node_at root_inode >>= λ root.
      let path' = skip_slashes path in
      (if is_empty path'
        then pure root
        else walk_pieces (lookup_path depth) (pieces path') (slash ∷ []) root)

-- nextufs_path_lookup, nextufs_path_lookup_nofollow and nextufs_node_lookup_as
unfoldable pub node_lookup : {S : Type 0} → Env S → Image → Bool → Option WriteCtx → Text → M S Node
unfolding lookup_path
node_lookup env img follow ctx path = lookup_path env img follow ctx (suc max_lookup_depth) path

-- what stands before the last slash and behind it
unfoldable pub split_last : Text → Option (Text × Text)
split_last [] = none
split_last (c ∷ cs) = elim (split_last cs) [
  | some (before, behind) ↦ some (c ∷ before, behind)
  | none ↦ if c == slash then some ([], cs) else none
]

-- the parent and the name, when they fit their buffers
unfoldable pub fitted_parts : ℕ → ℕ → Option (Text × Text) → Result (Text × Text)
unfolding text_length
fitted_parts parent_size name_size none = err einval
fitted_parts parent_size name_size (some (before, name)) =
    if is_empty name
    then err einval
    else if leb name_size (text_length name)
    then err enametoolong
    else if is_empty before
    then (if ltb parent_size 2 then err enametoolong else ok (slash ∷ [], name))
    else if ltb parent_size (text_length before + 1)
    then err enametoolong
    else ok (before, name)

unfoldable pub path_split : ℕ → ℕ → Text → Result (Text × Text)
unfolding split_last fitted_parts
path_split parent_size name_size path =
    if not (is_absolute path)
    then err einval
    else fitted_parts parent_size name_size (split_last path)
