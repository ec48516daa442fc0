-- ===== src/Fs.antt =====
-- The file server's block bitmap and block cache: fs/fs.c. The blocks that are mapped at DISKMAP are
-- in `cache`; `disk` is what the IDE disk holds, and `ide` collects the blocks that `ide_write` wrote,
-- the latest first. The bitmap and the root's node are fields of their own, and are written with their blocks.
-- What `syscall_mem_alloc`
-- and `syscall_mem_map` answer for the page of a block is a parameter.
pub mod Blocks
pub mod Data
pub mod Dirs
pub mod Files
pub mod Start
pub mod Tests
use buaa_os.Prelude.{
  ℕ, zero, suc, ◌+◌, ◌-◌, ◌*◌, ◌/◌, ◌^◌, Bool, true, false, not, ◌&&◌, ◌||◌, Option, none, some,
  List, ◌∷◌, ltb, leb, ◌==◌, if◌then◌else◌, update,
}
use buaa_os.Prelude.Outcome.{
  Outcome, Cmd, Errno, e_no_disk, e_not_found, done, fail, panic, pure, throw, halt, skip, ◌>>=◌,
  ◌>>◌, reads, modify, assert,
}
use buaa_os.Bitmap.{Bitmap, test, mark, unmark}
use buaa_os.Fs.Data.{File, Block, blank_block, by2blk}

-- `loaded` says that `bitmap` is not NULL, and `nblocks` is `super->s_nblocks`, `none` while `super` is NULL.
pub record Fs : Type 0 where
  pub nblocks : Option ℕ
  pub loaded : Bool
  pub bitmap : Bitmap
  pub root_node : File
  pub mapped : ℕ → Bool
  pub dirty : ℕ → Bool
  pub cache : ℕ → Block
  pub disk : ℕ → Block
  pub ide : List ℕ

-- BIT2BLK
abbrev pub bit2blk : ℕ
bit2blk = 4096 * 8

unfoldable pub is_free_of : Option ℕ → Bitmap → ℕ → Bool
is_free_of none b i = false
is_free_of (some n) b i = if leb n i then false else test b i

pub block_is_free : Fs → ℕ → Bool
unfolding is_free_of
block_is_free s i = is_free_of s.nblocks s.bitmap i

-- `super->s_nblocks`, a fault through NULL.
abbrev pub nblocks_of : Option ℕ → Cmd Fs ℕ
nblocks_of none = halt
nblocks_of (some n) = pure n

pub free_block : ℕ → Cmd Fs (Unit {0})
free_block i = if i == 0 then skip else do
  limit ← reads λ s. s.nblocks
  n ← nblocks_of limit
  if leb n i then skip else modify λ s. record s { bitmap = mark s.bitmap i }

abbrev pub bitmap_blocks : Option ℕ → ℕ
bitmap_blocks none = 0
bitmap_blocks (some n) = n / bit2blk + 1

-- Block 1 in memory: while `super` is set, the root's node lies in it.
abbrev pub super_block : Option ℕ → Fs → Block
super_block none s = s.cache 1
super_block (some n) s = record (s.cache 1) { nodes = update (s.cache 1).nodes 0 s.root_node }

-- Block `i` in memory: `bitmap` lies in the blocks from 2 on, once it is set.
abbrev pub in_memory : Fs → ℕ → Block
in_memory s i =
    if leb 2 i && (s.loaded && ltb (i - 2) (bitmap_blocks s.nblocks))
    then record (s.cache i) { words = λ j. s.bitmap ((i - 2) * (by2blk / 4) + j) }
    else if i == 1
    then super_block s.nblocks s
    else s.cache i

pub write_block : ℕ → Cmd Fs (Unit {0})
write_block i = do
  there ← reads λ s. s.mapped i
  assert there
  modify λ s. record s { ide = i ∷ s.ide; disk = update s.disk i (in_memory s i) }

-- The loop of `alloc_block_num`: the blocks from `i` on, as many as the fuel.
find_block : ℕ → ℕ → Bitmap → Option ℕ
find_block zero i b = none
find_block (suc fuel) i b =
    let rest = find_block fuel (i + 1) b in if test b i then some i else rest

take_block : Option ℕ → Cmd Fs ℕ
unfolding write_block
take_block none = throw e_no_disk
take_block (some i) = do
  modify λ s. record s { bitmap = unmark s.bitmap i }
  write_block (i / bit2blk + 2)
  pure i

pub alloc_block_num : Cmd Fs ℕ
unfolding take_block
alloc_block_num = do
  limit ← reads λ s. s.nblocks
  n ← nblocks_of limit
  b ← reads λ s. s.bitmap
  take_block (find_block (n - 3) 3 b)

-- `none` if the system call succeeds.
abbrev pub Answer : Type 0
Answer = Fs → ℕ → Option Errno

answered : ℕ → Option Errno → Cmd Fs (Unit {0})
answered i (some e) = throw e
answered i none = modify λ s. record s {
  mapped = update s.mapped i true;
  dirty = update s.dirty i false;
  cache = update s.cache i blank_block;
}

-- `alloc_block` after `map_block`: the block is given back if it has no page.
undo : ℕ → Outcome Fs (Unit {0}) → Outcome Fs ℕ
unfolding free_block
undo i (done _ s) = done i s
undo i (fail e s) = (free_block i >> throw e) s
undo i panic = panic

module _ (mem_alloc : Answer) where
  pub map_block : ℕ → Cmd Fs (Unit {0})
  unfolding answered
  map_block i s = if s.mapped i then done tt s else answered i (mem_alloc s i) s

  pub alloc_block : Cmd Fs ℕ
  unfolding undo
  alloc_block = do i ← alloc_block_num; λ s. undo i (map_block i s)

module _ (mem_map : Answer) where
  soiled : ℕ → Option Errno → Cmd Fs (Unit {0})
  soiled i (some e) = throw e
  soiled i none = modify λ s. record s { dirty = update s.dirty i true }

  pub dirty_block : ℕ → Cmd Fs (Unit {0})
  unfolding soiled
  dirty_block i s =
      if not (s.mapped i)
      then fail e_not_found s
      else (if s.dirty i then done tt s else soiled i (mem_map s i) s)

-- `syscall_mem_unmap` of NULL is an error that is dropped, so the assertion holds in both cases.
pub unmap_block : ℕ → Cmd Fs (Unit {0})
unfolding block_is_free
unmap_block i = do
  save ← reads λ s. not (block_is_free s i) && s.mapped i && s.dirty i
  if save then write_block i else skip
  modify λ s. record s { mapped = update s.mapped i false }

abbrev pub beyond : Option ℕ → ℕ → Bool
beyond none i = false
beyond (some n) i = leb n i

-- `ide_read` faults on a page that there is no memory for.
read_disk : ℕ → Option Errno → Cmd Fs (Unit {0})
read_disk i (some e) = halt
read_disk i none = modify λ s. record s {
  mapped = update s.mapped i true;
  dirty = update s.dirty i false;
  cache = update s.cache i (s.disk i);
}

-- The block is in the cache afterwards; its address is `diskaddr` of its number.
module _ (mem_alloc : Answer) where
  pub read_block : ℕ → Cmd Fs (Unit {0})
  unfolding read_disk block_is_free
  read_block i s =
      if beyond s.nblocks i || (s.loaded && block_is_free s i)
      then panic
      else (if s.mapped i then done tt s else read_disk i (mem_alloc s i) s)
