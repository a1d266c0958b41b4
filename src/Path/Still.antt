-- ===== src/Path/Still.antt =====
-- Finding a file by its path (src/core/path.c) and going through a directory (src/core/directory.c)
-- change nothing.
use nextufs.Base.{
  ℕ, zero, suc, ◌+◌, ◌-◌, leb, ltb, ◌==◌, if◌then◌else◌, ◌≡◌, Bool, Bytes, [], ◌∷◌, Option, none,
  some, Result, ok, err,
}
use nextufs.Disk.{Dev, Image, Env, M, pure}
use nextufs.Disk.Laws.{Stores}
use nextufs.Inode.{Inode}
use nextufs.Inode.Io.{accept_inode, inode_read}
use nextufs.File.{read_blocks, inode_read_data}
use nextufs.File.Steady.{
  Steady, steady_rules, pure-Steady, fail-Steady, if-Steady, bind-Steady, read_exact-Steady,
  resolve_file-Steady, read_chunk-Steady,
}
use nextufs.File.Symlink.{link_from_data, inode_readlink}
use nextufs.Access.{WriteCtx}
use nextufs.Directory.Entry.{DirentView, Name, slash, read_dirent}
use nextufs.Directory.Iterate.{
  Callback, or_fail_eio, unless_stopped, visit, walk_entries, directory_block, iterate_blocks,
  directory_iterate, find_name_cb, find_name_in_directory,
}
use nextufs.Path.{
  Text, Pieces, Node, fitting, append_path_component, link_path, given_m, may_search, node_at,
  step_to, link_target, walk_pieces, lookup_path, node_lookup, is_empty, skip_slashes, pieces,
  max_lookup_depth,
}

module _ {S : Type 0} where
  or_fail_eio-Steady : {A : Type 0} (r : Result A) → Steady {S = S} (or_fail_eio r)
  or_fail_eio-Steady (ok a) = search steady_rules
  or_fail_eio-Steady (err e) = search steady_rules

  fitting-Steady : (s : Text) → Steady {S = S} (fitting s)
  unfolding fitting
  fitting-Steady s = search steady_rules

  append-Steady : (path component : Text) → Steady {S = S} (append_path_component path component)
  unfolding append_path_component
  append-Steady path component = fitting-Steady _

  link_path-Steady : (prefix target rest : Text) → Steady {S = S} (link_path prefix target rest)
  unfolding link_path
  link_path-Steady prefix target rest = fitting-Steady _

  given_m-Steady : (r : Result (Unit {0})) → Steady {S = S} (given_m r)
  unfolding given_m
  given_m-Steady (ok a) = search steady_rules
  given_m-Steady (err e) = search steady_rules

  may_search-Steady : (ctx : Option WriteCtx) (ino : Inode) → Steady {S = S} (may_search ctx ino)
  unfolding may_search
  may_search-Steady none ino = search steady_rules
  may_search-Steady (some ctx) ino = given_m-Steady _

  find_name_cb-Steady :
      (target : Name) (found : ℕ) (ent : DirentView)
      → Steady {S = S} (find_name_cb target found ent)
  unfolding find_name_cb
  find_name_cb-Steady target found ent = search steady_rules

  -- a callback that changes nothing goes through a block without a change
  module _ {C : Type 0} (cb : Callback S C)
      (still : (c : C) (ent : DirentView) → Steady (cb c ent)) where
    unless_stopped-Steady :
        (r : ℕ × C) (rest : C → M S (ℕ × C))
        → ((c : C) → Steady (rest c))
        → Steady (unless_stopped r rest)
    unless_stopped-Steady (rc, c) rest h = if-Steady _ _ _ (h c) (pure-Steady (rc, c))

    visit-Steady :
        (r : Option DirentView) (rest : ℕ → C → M S (ℕ × C)) (c : C)
        → ((reclen : ℕ) (c' : C) → Steady (rest reclen c'))
        → Steady (visit cb r rest c)
    unfolding visit
    visit-Steady none rest c h = fail-Steady _
    visit-Steady (some ent) rest c h =
        if-Steady _ _ _
          (bind-Steady _ _ (still c ent) (λ r. unless_stopped-Steady r _ (h ent.reclen)))
          (h ent.reclen c)

    walk_entries-Steady :
        (buf : Bytes) (size fuel off : ℕ) (c : C) → Steady (walk_entries cb buf size fuel off c)
    unfolding walk_entries
    walk_entries-Steady buf size zero off c = pure-Steady _
    walk_entries-Steady buf size (suc fuel) off c =
        if-Steady (leb size off) (pure (0, c)) _ (pure-Steady (0, c)) (
          visit-Steady (read_dirent buf size off) _ c
            (λ reclen c'. walk_entries-Steady buf size fuel (off + reclen) c'))

module _ {S : Type 0} (env : Env S) (laws : Stores S env) (img : Image) where
  read_blocks-Steady :
      (fuel : ℕ) (ino : Inode) (index offset remaining finished : ℕ) (buf : Bytes)
      → Steady (read_blocks env img fuel ino index offset remaining finished buf)
  unfolding read_blocks
  read_blocks-Steady zero ino index offset remaining finished buf = pure-Steady _
  read_blocks-Steady (suc fuel) ino index offset remaining finished buf =
      if-Steady _ _ _ (pure-Steady _) (
        bind-Steady _ _ (resolve_file-Steady env laws img ino index) λ frag.
          bind-Steady _ _ (read_chunk-Steady env laws img frag offset _)
            λ chunk. read_blocks-Steady fuel ino (suc index) 0 _ _ _)

  inode_read_data-Steady :
      (ino : Inode) (start : ℕ) (buf : Bytes) (size : ℕ)
      → Steady (inode_read_data env img ino start buf size)
  unfolding inode_read_data
  inode_read_data-Steady ino start buf size = search (steady_rules, read_blocks-Steady)

  accept_inode-Steady : (off : ℕ) (b : Bytes) → Steady (accept_inode env img off b)
  unfolding accept_inode
  accept_inode-Steady off b = search steady_rules

  pub inode_read-Steady : (inode_no : ℕ) → Steady (inode_read env img inode_no)
  unfolding inode_read
  inode_read-Steady inode_no =
      search (steady_rules, read_exact-Steady env laws, accept_inode-Steady)

  pub directory_block-Steady :
      (ino : Inode) (index size : ℕ) → Steady (directory_block env img ino index size)
  unfolding directory_block
  directory_block-Steady ino index size =
      search (steady_rules, inode_read_data-Steady, or_fail_eio-Steady) depth 9

  iterate_blocks-Steady :
      {C : Type 0} (cb : Callback S C)
      → ((c : C) (ent : DirentView) → Steady (cb c ent))
      → (ino : Inode) (fuel index remaining : ℕ) (c : C)
      → Steady (iterate_blocks env img cb ino fuel index remaining c)
  unfolding iterate_blocks
  iterate_blocks-Steady cb still ino zero index remaining c = pure-Steady _
  iterate_blocks-Steady cb still ino (suc fuel) index remaining c =
      let chunk_size = (if ltb remaining img.sb.block_size then remaining else img.sb.block_size) in
      if-Steady (remaining == 0) (pure (0, c)) _ (pure-Steady (0, c)) (
        bind-Steady _ _ (directory_block-Steady ino index chunk_size) λ buf.
          bind-Steady _ _ (walk_entries-Steady cb still buf chunk_size (suc chunk_size) 0 c) λ r.
            unless_stopped-Steady cb still r _ (λ c'.
              iterate_blocks-Steady cb still ino fuel (suc index) (remaining - chunk_size) c'))

  find_name-Steady :
      (ino : Inode) (target : Name) → Steady (find_name_in_directory env img ino target)
  unfolding find_name_in_directory directory_iterate
  find_name-Steady ino target =
      bind-Steady _ _
        (iterate_blocks-Steady (find_name_cb target) (find_name_cb-Steady target) ino (suc ino.size)
          0 ino.size 0)
        (λ r. pure-Steady _)

  link_from_data-Steady : (r : Result (Bytes × ℕ)) → Steady (link_from_data env img r)
  unfolding link_from_data
  link_from_data-Steady (ok (buf, got)) = search steady_rules
  link_from_data-Steady (err e) = search steady_rules

  inode_readlink-Steady :
      (ino : Inode) (out : Bytes) (size : ℕ) → Steady (inode_readlink env img ino out size)
  unfolding inode_readlink
  inode_readlink-Steady ino out size =
      search (steady_rules, inode_read_data-Steady, link_from_data-Steady) depth 9

  module _ (follow : Bool) (ctx : Option WriteCtx) where
    node_at-Steady : (inode_no : ℕ) → Steady (node_at env img follow ctx inode_no)
    unfolding node_at
    node_at-Steady inode_no = search (steady_rules, inode_read-Steady, or_fail_eio-Steady) depth 9

    step_to-Steady :
        (ino : Inode) (segment : Text) → Steady (step_to env img follow ctx ino segment)
    unfolding step_to
    step_to-Steady ino segment =
        search
          (steady_rules, may_search-Steady, find_name-Steady, or_fail_eio-Steady, node_at-Steady)
          depth 16

    link_target-Steady : (ino : Inode) → Steady (link_target env img follow ctx ino)
    unfolding link_target
    link_target-Steady ino =
        search (steady_rules, inode_readlink-Steady, or_fail_eio-Steady) depth 9

    walk_pieces-Steady :
        (again : Text → M S Node)
        → ((s : Text) → Steady (again s))
        → (more : Pieces) (prefix : Text) (node : Node)
        → Steady (walk_pieces env img follow ctx again more prefix node)
    unfolding walk_pieces
    walk_pieces-Steady again still [] prefix node = pure-Steady _
    walk_pieces-Steady again still ((segment, rest) ∷ more) prefix (ino_no, ino, off) =
        if-Steady _ _ _ (walk_pieces-Steady again still more prefix (ino_no, ino, off)) (
          bind-Steady _ _ (step_to-Steady ino segment) λ next.
            bind-Steady _ _ (fitting-Steady rest) λ rest'.
              if-Steady _ _ _
                (bind-Steady _ _ (link_target-Steady _)
                  (λ target. bind-Steady _ _ (link_path-Steady prefix target rest') still))
                (bind-Steady _ _ (append-Steady prefix segment)
                  (λ prefix'. walk_pieces-Steady again still more prefix' next)))

    lookup_path-Steady :
        (depth : ℕ) (path : Text) → Steady (lookup_path env img follow ctx depth path)
    unfolding lookup_path
    lookup_path-Steady zero path = fail-Steady _
    lookup_path-Steady (suc depth) path = bind-Steady _ _ (node_at-Steady _) λ root.
        if-Steady (is_empty (skip_slashes path)) (pure root) _ (pure-Steady root) (
          walk_pieces-Steady (lookup_path env img follow ctx depth) (lookup_path-Steady depth)
            (pieces (skip_slashes path)) (slash ∷ []) root)

    -- The lookup of a path leaves the image and the undo log as they are, on every error, too, whatever
    -- links and directories it goes through.
    pub node_lookup-still :
        (path : Text) (d : Dev S) → (node_lookup env img follow ctx path d).1 ≡ d
    unfolding node_lookup
    node_lookup-still path d = (lookup_path-Steady (suc max_lookup_depth) path).stays d
