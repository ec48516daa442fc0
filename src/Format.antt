-- ===== src/Format.antt =====
-- The tool that writes the image of a disk: tools/fsformat.c. The blocks of `disk` are words or file nodes, as for the
-- file server, and `super.s_root` is the node `root`. What `readdir` gives of the host's files is a `Tree`, and what
-- `read` gives of a file are chunks of up to a block. The array has 1024 blocks; what the source does with a block
-- behind them is undefined, and the model stops there.
pub mod Bounds
pub mod Starts
mod Tests
use buaa_os.Prelude.{
  ℕ, zero, suc, ◌+◌, ◌-◌, ◌*◌, ◌/◌, ◌%◌, ◌^◌, bit_and, bit_or, Bool, true, false, not, ◌&&◌, Option,
  none, some, List, [], ◌∷◌, take, length, ltb, leb, ◌==◌, if◌then◌else◌, update,
}
use buaa_os.Prelude.Outcome.{
  Outcome, Cmd, done, pure, halt, skip, ◌>>=◌, ◌>>◌, reads, modify, assert,
}
use buaa_os.Bitmap.{Bitmap, unmark}
use buaa_os.Memory.{u32}
use buaa_os.Fs.{bit2blk}
use buaa_os.Fs.Data.{
  FileRef, root, node, File, Block, blank_file, blank_block, by2blk, ndirect, nindirect, file2blk,
  maxnamelen, ftype_dir,
}
use buaa_os.Fs.Start.{fs_magic}

-- NBLOCK
abbrev pub nblock : ℕ
nblock = 1024

-- `enum` of the types of blocks.
pub data Kind : Type 0 where
  block_free block_boot block_bmap block_super block_data block_file block_index : Kind

pub record Image : Type 0 where
  pub nextbno : ℕ
  pub kinds : ℕ → Kind
  pub disk : ℕ → Block
  pub root_node : File

-- A file with its name and its size, and the chunks that `read` gives; or a directory.
mutual
  pub data Tree : Type 0 where
    file : List ℕ → ℕ → List (ℕ → ℕ) → Tree
    directory : List ℕ → Trees → Tree

  pub data Trees : Type 0 where
    nil : Trees
    cons : Tree → Trees → Trees

-- The bytes of a word in the other order.
pub reverse : ℕ → ℕ
reverse y =
    y % 2 ^ 8 * 2 ^ 24
    + y / 2 ^ 8 % 2 ^ 8 * 2 ^ 16
    + y / 2 ^ 16 % 2 ^ 8 * 2 ^ 8
    + y / 2 ^ 24 % 2 ^ 8

abbrev pub reverse_node : File → File
reverse_node v = record v {
  f_size = reverse v.f_size;
  f_type = reverse v.f_type;
  f_direct = λ i. if ltb i ndirect then reverse (v.f_direct i) else v.f_direct i;
  f_indirect = reverse v.f_indirect;
}

-- The nodes from `i` on, up to the first that is not used.
pub reverse_nodes : ℕ → ℕ → (ℕ → File) → ℕ → File
reverse_nodes zero i nodes = nodes
reverse_nodes (suc rounds) i nodes =
    let rest = reverse_nodes rounds (i + 1) (update nodes i (reverse_node (nodes i))) in
    elim (nodes i).f_name [ [] ↦ nodes | c ∷ cs ↦ rest ]

pub reverse_block : Kind → Block → Block
unfolding reverse_nodes
reverse_block block_super b = record b {
  words = update (update b.words 0 (reverse (b.words 0))) 1 (reverse (b.words 1));
  nodes = update b.nodes 0 (reverse_node (b.nodes 0));
}
reverse_block block_file b = record b { nodes = reverse_nodes file2blk 0 b.nodes }
reverse_block block_index b = record b {
  words = λ i. if ltb i (by2blk / 4) then reverse (b.words i) else b.words i;
}
reverse_block block_bmap b = record b {
  words = λ i. if ltb i (by2blk / 4) then reverse (b.words i) else b.words i;
}
reverse_block block_free b = b
reverse_block block_boot b = b
reverse_block block_data b = b

-- The number of bitmap blocks.
abbrev pub nbitblock : ℕ
nbitblock = (nblock + bit2blk - 1) / bit2blk

-- The bitmap: ones for the blocks of the disk, zeros behind them.
abbrev pub full_words : ℕ → ℕ
full_words i = if ltb i (nblock % bit2blk / 8 / 4) then 2 ^ 32 - 1 else 0

abbrev pub init_disk : Image
init_disk = record {
  nextbno = 2 + nbitblock;
  kinds = λ i.
      if i == 0
      then block_boot
      else if i == 1
      then block_super
      else if i == 2
      then block_bmap
      else block_free;
  disk = λ i. if i == 2 then record blank_block { words = full_words } else blank_block;
  root_node = record blank_file { f_type = ftype_dir; f_name = b'/' ∷ [] };
}

pub next_block : Kind → Cmd Image ℕ
next_block t = do
  bno ← reads λ s. s.nextbno
  assert (ltb bno nblock)
  modify λ s. record s { kinds = update s.kinds bno t; nextbno = bno + 1 }
  pure bno

abbrev pub node_of : FileRef → Image → File
node_of root s = s.root_node
node_of (node b j) s = (s.disk b).nodes j

abbrev pub set_node : FileRef → File → Image → Image
set_node root v s = record s { root_node = v }
set_node (node b j) v s = record s {
  disk = update s.disk b (record (s.disk b) { nodes = update (s.disk b).nodes j v });
}

abbrev pub change : FileRef → (File → File) → Cmd Image (Unit {0})
change f g = modify λ s. set_node f (g (node_of f s)) s

abbrev pub set_word : ℕ → ℕ → ℕ → Image → Image
set_word b i v s = record s {
  disk = update s.disk b (record (s.disk b) { words = update (s.disk b).words i v });
}

-- The indirect block, which is made if there is none.
pub indirect_of : FileRef → Cmd Image ℕ
unfolding next_block
indirect_of f = do
  v ← reads λ s. node_of f s
  if not (v.f_indirect == 0)
      then pure v.f_indirect
      else do b ← next_block block_index; change f λ v. record v { f_indirect = b }; pure b

pub save_block_link : FileRef → ℕ → ℕ → Cmd Image (Unit {0})
unfolding indirect_of
save_block_link f nblk bno = do
  assert (ltb nblk nindirect)
  if ltb nblk ndirect
      then (change f λ v. record v { f_direct = update v.f_direct nblk bno })
      else (do b ← indirect_of f; modify (set_word b nblk bno))

pub make_link_block : FileRef → ℕ → Cmd Image ℕ
unfolding next_block save_block_link
make_link_block dirf nblk = do
  bno ← next_block block_file
  save_block_link dirf nblk bno
  change dirf λ v. record v { f_size = u32 (v.f_size + by2blk) }
  pure bno

-- The block `i` of a directory.
abbrev pub block_of : Image → File → ℕ → ℕ
block_of s v i = if ltb i ndirect then v.f_direct i else (s.disk v.f_indirect).words i

-- The first unused node from `j` on.
pub unused_node : (ℕ → File) → ℕ → ℕ → Option ℕ
unused_node nodes zero j = none
unused_node nodes (suc rounds) j =
    let rest = unused_node nodes rounds (j + 1) in
    elim (nodes j).f_name [ [] ↦ some j | c ∷ cs ↦ rest ]

abbrev pub or_else : Option ℕ → ℕ → Option FileRef → Option FileRef
or_else none b rest = rest
or_else (some j) b rest = some (node b j)

-- The loop of `create_file` over the blocks of the directory.
pub unused_in : Image → File → ℕ → ℕ → Option FileRef
unfolding unused_node
unused_in s v zero i = none
unused_in s v (suc rounds) i =
    let rest = unused_in s v rounds (i + 1) in
    let b = block_of s v i in or_else (unused_node (s.disk b).nodes file2blk 0) b rest

pub made_file : FileRef → ℕ → Option FileRef → Cmd Image FileRef
unfolding make_link_block
made_file dirf nblk (some f) = pure f
made_file dirf nblk none = do bno ← make_link_block dirf nblk; pure (node bno 0)

pub create_file : FileRef → Cmd Image FileRef
unfolding unused_in made_file
create_file dirf = do
  v ← reads λ s. node_of dirf s
  f ← reads λ s. unused_in s v (v.f_size / by2blk) 0
  made_file dirf (v.f_size / by2blk) f

-- `sizeof(struct File)`; a host's name, at most 255 bytes long, ends within its node.
abbrev pub by2node : ℕ
by2node = 256

-- The loop of `write_file`: each chunk is read into the next block.
pub write_chunks : FileRef → ℕ → List (ℕ → ℕ) → Cmd Image (Unit {0})
unfolding next_block save_block_link
write_chunks f iblk [] = skip
write_chunks f iblk (chunk ∷ chunks) =
    let rest = write_chunks f (iblk + 1) chunks in
    do
      modify λ s. record s {
        disk = update s.disk s.nextbno (record (s.disk s.nextbno) { words = chunk });
      }
      bno ← next_block block_data
      save_block_link f iblk bno
      rest

-- The bytes of a name, and NUL behind them.
pub char_at : List ℕ → ℕ → ℕ
char_at [] k = 0
char_at (c ∷ cs) zero = c
char_at (c ∷ cs) (suc k) = char_at cs k

-- A byte of the node before, or of the name with its NUL where `strcpy` has come so far.
abbrev pub byte_after : List ℕ → ℕ → ℕ → ℕ
byte_after name k old = if leb k (length name) then char_at name k else old

-- The word at the offset `k` of a node, after a name has been copied to the node's start.
pub word_after : List ℕ → ℕ → ℕ → ℕ
unfolding char_at
word_after name k old =
    if ltb (length name) k
    then old
    else byte_after name k (old % 2 ^ 8)
      + byte_after name (k + 1) (old / 2 ^ 8 % 2 ^ 8) * 2 ^ 8
      + byte_after name (k + 2) (old / 2 ^ 16 % 2 ^ 8) * 2 ^ 16
      + byte_after name (k + 3) (old / 2 ^ 24 % 2 ^ 8) * 2 ^ 24

-- `strcpy` of a name into a node: what does not fit in `f_name` runs over the fields behind it.
pub copy_name : List ℕ → File → File
unfolding word_after
copy_name name v = record v {
  f_name = take maxnamelen name;
  f_size = word_after name maxnamelen v.f_size;
  f_type = word_after name (maxnamelen + 4) v.f_type;
  f_direct = λ i.
      if ltb i ndirect
      then word_after name (maxnamelen + 8 + 4 * i) (v.f_direct i)
      else v.f_direct i;
  f_indirect = word_after name (maxnamelen + 8 + 4 * ndirect) v.f_indirect;
}

pub write_file : FileRef → List ℕ → ℕ → List (ℕ → ℕ) → Cmd Image (Unit {0})
unfolding create_file copy_name write_chunks
write_file dirf name size chunks = do
  f ← create_file dirf
  assert (ltb (length name) by2node)
  change f (copy_name name)
  change f λ v. record v { f_size = u32 size; f_type = 0 }
  write_chunks f 0 chunks

-- `strncpy` of a name into a node, which is zeros before; the last character stays NUL, so the test of the source for a
-- name that is too long never holds.
pub start_directory : FileRef → List ℕ → Cmd Image FileRef
unfolding create_file
start_directory dirf name = do
  f ← create_file dirf
  change f λ v. record v { f_name = take (maxnamelen - 1) name }
  change f λ v. record v { f_type = ftype_dir }
  pure f

mutual
  -- `write_directory`, or `write_file`, under a directory
  pub write_tree : FileRef → Tree → Cmd Image (Unit {0})
  write_tree dirf (file name size chunks) = write_file dirf name size chunks
  write_tree dirf (directory name entries) = do f ← start_directory dirf name; write_trees f entries

  pub write_trees : FileRef → Trees → Cmd Image (Unit {0})
  write_trees dirf nil = skip
  write_trees dirf (cons t ts) = do write_tree dirf t; write_trees dirf ts

-- The bit of block `i` is cleared in the bitmap.
abbrev pub clear_bit : ℕ → Image → Image
clear_bit i s =
    let b = 2 + i / bit2blk in
    record s {
      disk = update s.disk b (record (s.disk b) { words = unmark (s.disk b).words (i % bit2blk) });
    }

pub clear_bits : ℕ → Image → Image
clear_bits zero s = s
clear_bits (suc i) s = clear_bit i (clear_bits i s)

pub flush_bitmap : Cmd Image (Unit {0})
unfolding clear_bits
flush_bitmap s = done tt (clear_bits s.nextbno s)

-- The super block is written; the dump of the blocks to a file is not modelled.
pub finish_fs : Cmd Image (Unit {0})
finish_fs = modify λ s. record s {
  disk = update s.disk 1 (record (s.disk 1) {
    words = update (update (s.disk 1).words 0 fs_magic) 1 nblock;
    nodes = update (s.disk 1).nodes 0 s.root_node;
  });
}

-- `main`, after its arguments have been looked up.
pub format : Trees → Outcome Image (Unit {0})
unfolding flush_bitmap finish_fs
format trees = (do write_trees root trees; flush_bitmap; finish_fs) init_disk
