-- ===== src/Format/Bounds.antt =====
-- What the writing of files in tools/fsformat.c leaves alone: the bitmap, and the blocks before those of the data.
use buaa_os.Prelude.{
  ℕ, ◌+◌, ◌-◌, ◌*◌, ◌/◌, ◌≤◌, ◌≡◌, ◌⊎◌, refl, sym, ap, ◌∙◌, inl, inr, false, Option, none, some,
  List, [], ◌∷◌, take, length, Bool, true, ◌<◌, ltb, ◌==◌, ==_eq, ==_ne, update, arith, Bool-cases,
}
use buaa_os.Prelude.Outcome.{Cmd, pure, ◌>>=◌, ◌>>◌, modify, assert, IfReturns, IfReturns-bind}
use buaa_os.Memory.{u32}
use buaa_os.Fs.Data.{
  FileRef, root, node, File, Block, by2blk, ndirect, nindirect, maxnamelen, ftype_dir,
}
use buaa_os.Format.{
  Image, Kind, nblock, full_words, node_of, set_node, set_word, change, next_block, indirect_of,
  save_block_link, make_link_block, made_file, create_file, unused_in, write_chunks, write_file,
  by2node, word_after, copy_name, start_directory, Tree, Trees, file, directory, nil, cons,
  write_tree, write_trees, block_index, block_file, block_data,
}

-- A node without an indirect block, or with one behind the bitmap.
abbrev pub Safe : File → Type 0
Safe v = (v.f_indirect ≡ 0) ⊎ (3 ≤ v.f_indirect)

-- The next block is in the array, behind the bitmap, which is as `init_disk` made it.
pub record Bounded (s : Image) : Type 0 where
  pub behind : 3 ≤ s.nextbno
  pub inside : s.nextbno ≤ nblock
  pub bits : (i : ℕ) → (s.disk 2).words i ≡ full_words i
  pub safe : (f : FileRef) → Safe (node_of f s)

-- A run that returns keeps the bounds, and its result is as `P` says.
abbrev Keeps {ℓ} : {A : Type ℓ} → (A → Type 0) → Cmd Image A → Type 0
Keeps P m = (s : Image) → Bounded s → IfReturns (λ a t. P a × Bounded t) (m s)

abbrev pub Any {ℓ} : {A : Type ℓ} → A → Type 0
Any a = Unit {0}

words_kept :
    (s : Image) (f : FileRef) (v : File) (i : ℕ)
    → ((set_node f v s).disk 2).words i ≡ (s.disk 2).words i
words_kept s root v i = refl
words_kept s (node b j) v i = elim (Bool-cases (2 == b)) [
  | inl same ↦ rw same (ap (λ k. (s.disk k).words i) (sym (==_eq 2 b same)))
  | inr apart ↦ rw apart refl
]

update-all :
    {A : Type 0} (P : A → Type 0) (f : ℕ → A) (i : ℕ) (v : A)
    → P v
    → ((k : ℕ) → P (f k))
    → (k : ℕ) → P (update f i v k)
update-all P f i v p h k = elim (Bool-cases (k == i)) [
  | inl same ↦ rw same p
  | inr apart ↦ rw apart (h k)
]

-- All nodes of a block.
abbrev AllSafe : Block → Type 0
AllSafe b = (k : ℕ) → Safe (b.nodes k)

node_kept :
    (s : Image) (f g : FileRef) (v : File)
    → Safe v
    → ((h : FileRef) → Safe (node_of h s))
    → Safe (node_of g (set_node f v s))
node_kept s root root v fine h = fine
node_kept s root (node b j) v fine h = h (node b j)
node_kept s (node b j) root v fine h = h root
node_kept s (node b j) (node c k) v fine h =
    update-all AllSafe s.disk b (record (s.disk b) { nodes = update (s.disk b).nodes j v })
      (update-all Safe (s.disk b).nodes j v fine (λ n. h (node b n))) (λ n m. h (node n m)) c k

change-Keeps :
    (f : FileRef) (g : File → File) → ((v : File) → Safe v → Safe (g v)) → Keeps Any (change f g)
change-Keeps f g fine s h = (
  tt,
  record {
    behind = at_next f h.behind;
    inside = below_next f h.inside;
    bits = λ i. words_kept s f (g (node_of f s)) i ∙ h.bits i;
    safe = λ k. node_kept s f k (g (node_of f s)) (fine (node_of f s) (h.safe f)) h.safe;
  },
)
  where
    at_next : (f : FileRef) → 3 ≤ s.nextbno → 3 ≤ (set_node f (g (node_of f s)) s).nextbno
    at_next root h = h
    at_next (node b j) h = h

    below_next :
        (f : FileRef) → s.nextbno ≤ nblock → (set_node f (g (node_of f s)) s).nextbno ≤ nblock
    below_next root h = h
    below_next (node b j) h = h

-- The words of a block behind the bitmap may be anything.
words-Bounded :
    (b : ℕ) (w : ℕ → ℕ) (s : Image)
    → 3 ≤ b
    → Bounded s
    → Bounded (record s { disk = update s.disk b (record (s.disk b) { words = w }) })
words-Bounded b w s low h = record {
  behind = h.behind;
  inside = h.inside;
  bits = λ j. rw (==_ne 2 b (λ e. omega arith)) (h.bits j);
  safe = λ k. same_nodes k;
}
  where
    same_nodes :
        (k : FileRef)
        → Safe (node_of k (record s { disk = update s.disk b (record (s.disk b) { words = w }) }))
    same_nodes root = h.safe root
    same_nodes (node c k) =
        update-all AllSafe s.disk b (record (s.disk b) { words = w }) (λ n. h.safe (node b n))
          (λ n m. h.safe (node n m)) c k

set_word-Keeps : (b i v : ℕ) → 3 ≤ b → Keeps Any (modify (set_word b i v))
set_word-Keeps b i v low s h = (tt, words-Bounded b (update (s.disk b).words i v) s low h)

next_block-Keeps : (t : Kind) → Keeps (λ bno. 3 ≤ bno) (next_block t)
unfolding next_block
next_block-Keeps t s h = elim (Bool-cases (ltb s.nextbno nblock)) [
  | inl room ↦ simp room (
    h.behind,
    record {
      behind = omega (arith, h.behind);
      inside = ground arith;
      bits = h.bits;
      safe = λ k. same_nodes k;
    },
  )
  | inr full ↦ simp full tt
]
  where
    same_nodes :
        (k : FileRef)
        → Safe
            (node_of k (record s { kinds = update s.kinds s.nextbno t; nextbno = s.nextbno + 1 }))
    same_nodes root = h.safe root
    same_nodes (node c k) = h.safe (node c k)

Keeps-bind {ℓ κ} :
    {A : Type ℓ} {B : Type κ} (P : A → Type 0) (Q : B → Type 0) (m : Cmd Image A)
    (f : A → Cmd Image B)
    → Keeps P m
    → ((a : A) → P a → Keeps Q (f a))
    → Keeps Q (m >>= f)
Keeps-bind P Q m f h g s ok =
    IfReturns-bind (λ a t. P a × Bounded t) (λ b t. Q b × Bounded t) (m s) f (h s ok)
      (λ a t (p, k). g a p t k)

pure-Keeps {ℓ} : {A : Type ℓ} (P : A → Type 0) (a : A) → P a → Keeps P (pure a)
pure-Keeps P a p s h = (p, h)

indirect_of-Keeps : (f : FileRef) → Keeps (λ b. 3 ≤ b) (indirect_of f)
unfolding indirect_of
indirect_of-Keeps f s h = elim (Bool-cases ((node_of f s).f_indirect == 0)) [
  | inr there ↦ simp there (old (h.safe f) there, h)
  | inl absent ↦ simp absent (
      Keeps-bind (λ b. 3 ≤ b) (λ b. 3 ≤ b) (next_block block_index)
        (λ b. change f (λ v. record v { f_indirect = b }) >> pure b) (next_block-Keeps block_index)
        (λ b low.
          Keeps-bind Any (λ b. 3 ≤ b) (change f λ v. record v { f_indirect = b }) (λ _. pure b)
            (change-Keeps f (λ v. record v { f_indirect = b }) (λ v fine. inr low))
            (λ _ _. pure-Keeps (λ b. 3 ≤ b) b low))
        s h)
]
  where
    old :
        Safe (node_of f s) → ((node_of f s).f_indirect == 0) ≡ false → 3 ≤ (node_of f s).f_indirect
    old (inl zeroed) there = absurd (ground arith)
    old (inr low) there = low

save_block_link-Keeps : (f : FileRef) (nblk bno : ℕ) → Keeps Any (save_block_link f nblk bno)
unfolding save_block_link
save_block_link-Keeps f nblk bno s h = elim (Bool-cases (ltb nblk nindirect)) [
  | inr full ↦ simp full tt
  | inl room ↦ elim (Bool-cases (ltb nblk ndirect)) [
    | inl few ↦
        simp (room, few)
          (change-Keeps f (λ v. record v { f_direct = update v.f_direct nblk bno }) (λ v fine. fine)
            s h)
    | inr many ↦
        simp (room, many)
          (Keeps-bind (λ b. 3 ≤ b) Any (indirect_of f) (λ b. modify (set_word b nblk bno))
            (indirect_of-Keeps f) (λ b low. set_word-Keeps b nblk bno low) s h)
  ]
]

make_link_block-Keeps : (f : FileRef) (nblk : ℕ) → Keeps Any (make_link_block f nblk)
unfolding make_link_block
make_link_block-Keeps f nblk =
    Keeps-bind (λ b. 3 ≤ b) Any (next_block block_file) _ (next_block-Keeps block_file)
      (λ b low.
        Keeps-bind Any Any (save_block_link f nblk b) _ (save_block_link-Keeps f nblk b) (λ _ _.
          Keeps-bind Any Any (change f λ v. record v { f_size = u32 (v.f_size + by2blk) })
            (λ _. pure b)
            (change-Keeps f (λ v. record v { f_size = u32 (v.f_size + by2blk) }) (λ v fine. fine))
            (λ _ _. pure-Keeps Any b tt)))

made_file-Keeps : (f : FileRef) (nblk : ℕ) (o : Option FileRef) → Keeps Any (made_file f nblk o)
unfolding made_file
made_file-Keeps f nblk (some g) = pure-Keeps Any g tt
made_file-Keeps f nblk none =
    Keeps-bind Any Any (make_link_block f nblk) (λ b. pure (node b 0))
      (make_link_block-Keeps f nblk) (λ b _. pure-Keeps Any (node b 0) tt)

create_file-Keeps : (f : FileRef) → Keeps Any (create_file f)
unfolding create_file
create_file-Keeps f s h =
    let nblk = (node_of f s).f_size / by2blk in
    made_file-Keeps f nblk (unused_in s (node_of f s) nblk 0) s h

write_chunks-Keeps :
    (f : FileRef) (iblk : ℕ) (chunks : List (ℕ → ℕ)) → Keeps Any (write_chunks f iblk chunks)
unfolding write_chunks
write_chunks-Keeps f iblk [] s h = (tt, h)
write_chunks-Keeps f iblk (chunk ∷ chunks) s h =
    let rest = write_chunks-Keeps f (iblk + 1) chunks in
    Keeps-bind (λ b. 3 ≤ b) Any (next_block block_data) _ (next_block-Keeps block_data)
      (λ b low.
        Keeps-bind Any Any (save_block_link f iblk b) _ (save_block_link-Keeps f iblk b)
          (λ _ _. rest))
      (record s { disk = update s.disk s.nextbno (record (s.disk s.nextbno) { words = chunk }) })
      (words-Bounded s.nextbno chunk s h.behind h)

-- A name that fits leaves the fields behind `f_name` as they are.
copy_name-Safe :
    (name : List ℕ) (v : File) → length name < maxnamelen → Safe v → Safe (copy_name name v)
unfolding copy_name word_after
copy_name-Safe name v short fine =
    let inside : ltb (length name) (maxnamelen + 8 + 4 * ndirect) ≡ true = ground arith in
    simp inside fine

assert-Keeps : (b : Bool) → Keeps Any (assert b)
assert-Keeps true s h = (tt, h)
assert-Keeps false s h = tt

write_file-Keeps :
    (f : FileRef) (name : List ℕ) (size : ℕ) (chunks : List (ℕ → ℕ))
    → length name < maxnamelen
    → Keeps Any (write_file f name size chunks)
unfolding write_file
write_file-Keeps f name size chunks short =
    Keeps-bind Any Any (create_file f) _ (create_file-Keeps f) (λ g _.
      Keeps-bind Any Any (assert (ltb (length name) by2node)) _
        (assert-Keeps (ltb (length name) by2node))
        (λ _ _.
          Keeps-bind Any Any (change g (copy_name name)) _
            (change-Keeps g (copy_name name) (λ v. copy_name-Safe name v short))
            (λ _ _.
              Keeps-bind Any Any (change g λ v. record v { f_size = u32 size; f_type = 0 }) _
                (change-Keeps g (λ v. record v { f_size = u32 size; f_type = 0 }) (λ v fine. fine))
                (λ _ _. write_chunks-Keeps g 0 chunks))))

start_directory-Keeps : (f : FileRef) (name : List ℕ) → Keeps Any (start_directory f name)
unfolding start_directory
start_directory-Keeps f name = Keeps-bind Any Any (create_file f) _ (create_file-Keeps f) (λ g _.
    Keeps-bind Any Any (change g λ v. record v { f_name = take (maxnamelen - 1) name })
      (λ _. change g (λ v. record v { f_type = ftype_dir }) >> pure g)
      (change-Keeps g (λ v. record v { f_name = take (maxnamelen - 1) name }) (λ v fine. fine))
      (λ _ _.
        Keeps-bind Any Any (change g λ v. record v { f_type = ftype_dir }) (λ _. pure g)
          (change-Keeps g (λ v. record v { f_type = ftype_dir }) (λ v fine. fine))
          (λ _ _. pure-Keeps Any g tt)))

unfoldable mutual
  -- The names of files, but not those of directories, are short enough for `f_name` with the NUL.
  pub ShortName : Tree → Type 0
  ShortName (file name size chunks) = length name < maxnamelen
  ShortName (directory name entries) = ShortNames entries

  pub ShortNames : Trees → Type 0
  ShortNames nil = Unit {0}
  ShortNames (cons t ts) = ShortName t × ShortNames ts

mutual
  unfolding write_tree write_trees ShortName ShortNames

  pub write_tree-Keeps : (f : FileRef) (t : Tree) → ShortName t → Keeps Any (write_tree f t)
  write_tree-Keeps f (file name size chunks) short = write_file-Keeps f name size chunks short
  write_tree-Keeps f (directory name entries) short =
      Keeps-bind Any Any (start_directory f name) (λ g. write_trees g entries)
        (start_directory-Keeps f name) (λ g _. write_trees-Keeps g entries short)

  pub write_trees-Keeps : (f : FileRef) (ts : Trees) → ShortNames ts → Keeps Any (write_trees f ts)
  write_trees-Keeps f nil short = λ s h. (tt, h)
  write_trees-Keeps f (cons t ts) (short, others) =
      Keeps-bind Any Any (write_tree f t) (λ _. write_trees f ts) (write_tree-Keeps f t short)
        (λ _ _. write_trees-Keeps f ts others)
