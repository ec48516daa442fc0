-- ===== src/Fs/Dirs.antt =====
-- Directories and paths in fs/fs.c. A path is the list of its characters before its NUL.
pub mod Paths
use buaa_os.Prelude.{
  ℕ, zero, suc, ◌+◌, ◌-◌, ◌/◌, ◌%◌, ◌^◌, Bool, true, false, not, ◌&&◌, ◌||◌, Option, none, some,
  List, [], ◌∷◌, length, ltb, leb, ◌==◌, if◌then◌else◌,
}
use buaa_os.Prelude.Outcome.{
  Outcome, Cmd, Errno, e_not_found, e_bad_path, e_file_exists, done, fail, panic, pure, throw, halt,
  skip, ◌>>=◌, ◌>>◌, reads, modify,
}
use buaa_os.Memory.{u32}
use buaa_os.Fs.{Fs, Answer}
use buaa_os.Fs.Data.{File, FileRef, root, node, by2blk, file2blk, maxnamelen, ftype_dir}
use buaa_os.Fs.Files.{
  get_file, set_file, node_at, file_get_block, file_truncate, file_flush, flush_dir,
}

-- `strcmp(a, b) == 0`
pub same_name : List ℕ → List ℕ → Bool
same_name [] [] = true
same_name [] (d ∷ b) = false
same_name (c ∷ a) [] = false
same_name (c ∷ a) (d ∷ b) = c == d && same_name a b

-- The node of the block, from the `j`-th on, with the name.
find_node : ℕ → ℕ → (ℕ → File) → List ℕ → Option ℕ
unfolding same_name
find_node zero j nodes name = none
find_node (suc rounds) j nodes name =
    let rest = find_node rounds (j + 1) nodes name in
    if same_name name (nodes j).f_name then some j else rest

found_node : FileRef → ℕ → Cmd Fs FileRef → Option ℕ → Cmd Fs FileRef
found_node dir b rest none = rest
found_node dir b rest (some j) = do
  set_file (node b j) λ f. record f { f_dir = some dir }
  pure (node b j)

-- The nodes without a name.
free_node : FileRef → ℕ → Cmd Fs FileRef → Option ℕ → Cmd Fs FileRef
free_node dir b rest none = rest
free_node dir b rest (some j) = pure (node b j)

module _ (mem_alloc : Answer) where
  lookup_blocks : ℕ → ℕ → FileRef → List ℕ → Cmd Fs FileRef
  unfolding find_node found_node
  lookup_blocks zero i dir name = throw e_not_found
  lookup_blocks (suc rounds) i dir name =
      let rest = lookup_blocks rounds (i + 1) dir name in
      do
        b ← file_get_block mem_alloc dir i
        j ← reads λ s. find_node file2blk 0 (s.cache b).nodes name
        found_node dir b rest j

  pub dir_lookup : FileRef → List ℕ → Cmd Fs FileRef
  unfolding lookup_blocks
  dir_lookup dir name = do v ← get_file dir; lookup_blocks (v.f_size / by2blk) 0 dir name

  alloc_blocks : ℕ → ℕ → FileRef → Cmd Fs FileRef
  unfolding find_node free_node
  alloc_blocks zero i dir = do
    set_file dir λ d. record d { f_size = u32 (d.f_size + by2blk) }
    b ← file_get_block mem_alloc dir i
    pure (node b 0)
  alloc_blocks (suc rounds) i dir =
      let rest = alloc_blocks rounds (i + 1) dir in
      do
        b ← file_get_block mem_alloc dir i
        j ← reads λ s. find_node file2blk 0 (s.cache b).nodes []
        free_node dir b rest j

  pub dir_alloc_file : FileRef → Cmd Fs FileRef
  unfolding alloc_blocks
  dir_alloc_file dir = do v ← get_file dir; alloc_blocks (v.f_size / by2blk) 0 dir

abbrev pub is_slash : ℕ → Bool
is_slash c = c == b'/'

pub skip_slash : List ℕ → List ℕ
skip_slash [] = []
skip_slash (c ∷ p) = let rest = skip_slash p in if is_slash c then rest else c ∷ p

-- The characters before the next slash, and the path from there on.
pub first_elem : List ℕ → List ℕ
first_elem [] = []
first_elem (c ∷ p) = let rest = first_elem p in if is_slash c then [] else c ∷ rest

pub after_elem : List ℕ → List ℕ
after_elem [] = []
after_elem (c ∷ p) = let rest = after_elem p in if is_slash c then c ∷ p else rest

-- How `walk_path` ends: with 0, `*pdir` and `*pfile`; with -E_NOT_FOUND, `*pdir` and `lastelem`; or
-- with an error and `*pdir` NULL.
pub data Walk : Type 0 where
  found : Option FileRef → FileRef → Walk
  missing : FileRef → List ℕ → Walk
  failed : Errno → Walk

-- After an error of `dir_lookup`, with the rest of the path.
missed : FileRef → List ℕ → List ℕ → Errno → Walk
missed dir name [] e_not_found = missing dir name
missed dir name [] e = failed e
missed dir name (c ∷ p) e = failed e

looked_up :
    FileRef → List ℕ → List ℕ → (FileRef → Cmd Fs Walk) → Outcome Fs FileRef → Outcome Fs Walk
unfolding missed
looked_up dir name path rest (done file s) = rest file s
looked_up dir name path rest (fail e s) = done (missed dir name path e) s
looked_up dir name path rest panic = panic

module _ (mem_alloc : Answer) where
  -- The loop of `walk_path` at `file`, in the directory `dir`. Every round but the last takes a character
  -- of the path.
  walk_rounds : ℕ → List ℕ → Option FileRef → FileRef → Cmd Fs Walk
  unfolding looked_up skip_slash first_elem after_elem
  walk_rounds zero path dir file = halt
  walk_rounds (suc rounds) [] dir file = pure (found dir file)
  walk_rounds (suc rounds) (c ∷ p) dir file =
      let name = first_elem (c ∷ p) in
      let path = skip_slash (after_elem (c ∷ p)) in
      let rest = walk_rounds rounds path (some file) in
      if leb maxnamelen (length name) then pure (failed e_bad_path) else (do
        v ← get_file file
        if not (v.f_type == ftype_dir)
            then pure (failed e_not_found)
            else (λ s. looked_up file name path rest (dir_lookup mem_alloc file name s)))

  pub walk_path : List ℕ → Cmd Fs Walk
  unfolding walk_rounds
  walk_path path = walk_rounds (length (skip_slash path) + 1) (skip_slash path) none root

  opened : Walk → Cmd Fs FileRef
  opened (found dir file) = pure file
  opened (missing dir name) = throw e_not_found
  opened (failed e) = throw e

  pub file_open : List ℕ → Cmd Fs FileRef
  unfolding opened
  file_open path = do w ← walk_path path; opened w

  -- An error of `dir_alloc_file` is dropped: `file_create` returns that of `walk_path`.
  created : List ℕ → Outcome Fs FileRef → Outcome Fs FileRef
  created name (done f s) = (set_file f (λ v. record v { f_name = name }) >> pure f) s
  created name (fail e s) = fail e_not_found s
  created name panic = panic

  create_in : Walk → Cmd Fs FileRef
  unfolding created
  create_in (found dir file) = throw e_file_exists
  create_in (missing dir name) = λ s. created name (dir_alloc_file mem_alloc dir s)
  create_in (failed e) = throw e

  pub file_create : List ℕ → Cmd Fs FileRef
  unfolding create_in
  file_create path = do w ← walk_path path; create_in w

  pub file_remove : List ℕ → Cmd Fs (Unit {0})
  unfolding opened
  file_remove path = do
    w ← walk_path path
    f ← opened w
    file_truncate mem_alloc f 0
    set_file f λ v. record v { f_name = [] }
    file_flush mem_alloc f
    v ← get_file f
    flush_dir mem_alloc v.f_dir
