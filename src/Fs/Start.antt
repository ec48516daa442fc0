-- ===== src/Fs/Start.antt =====
-- The start of the file server, in fs/fs.c. Block 1 is the super block: its first words are `s_magic` and `s_nblocks`,
-- and its node 0 stands for `s_root`. The server is compiled for a little-endian machine (include.mk).
pub mod Boot
pub mod Reading
use buaa_os.Prelude.{
  ℕ, zero, suc, ◌+◌, ◌*◌, ◌/◌, ◌%◌, ◌^◌, Bool, true, false, not, ◌&&◌, Option, none, some, List,
  leb, ◌==◌, if◌then◌else◌, update,
}
use buaa_os.Prelude.Outcome.{
  Outcome, Cmd, done, pure, halt, skip, ◌>>=◌, ◌>>◌, reads, modify, assert,
}
use buaa_os.Bitmap.{Bitmap}
use buaa_os.Fs.Data.{Block, by2blk}
use buaa_os.Fs.{Fs, Answer, bit2blk, nblocks_of, block_is_free, write_block, read_block}

abbrev pub fs_magic : ℕ
fs_magic = 0x68286097

abbrev pub diskmax : ℕ
diskmax = 0x40000000

-- `super` is set, so that its fields and the root's node are those of block 1.
abbrev pub set_super : Fs → Fs
set_super s = record s { nblocks = some ((s.cache 1).words 1); root_node = (s.cache 1).nodes 0 }

-- `bitmap` is set: its words are those of the blocks from 2 on.
abbrev pub bitmap_of : (ℕ → Block) → Bitmap
bitmap_of b i = (b (i / (by2blk / 4) + 2)).words (i % (by2blk / 4))

-- The words of a block after `strcpy` of "OOPS!\n", with its NUL, to its start.
abbrev pub smashed : (ℕ → ℕ) → ℕ → ℕ
smashed w i = if i == 0 then 0x53504f4f else if i == 1 then w 1 / 2 ^ 24 * 2 ^ 24 + 0x0a21 else w i

-- `strcmp` with "OOPS!\n" is 0.
abbrev pub is_smashed : (ℕ → ℕ) → Bool
is_smashed w = (w 0 == 0x53504f4f) && (w 1 % 2 ^ 24 == 0x0a21)

-- The last loop of `read_bitmap`.
pub check_in_use : ℕ → ℕ → Cmd Fs (Unit {0})
unfolding block_is_free
check_in_use zero i = skip
check_in_use (suc rounds) i =
    let rest = check_in_use rounds (i + 1) in
    do free ← reads λ s. block_is_free s (i + 2); assert (not free); rest

module _ (mem_alloc : Answer) where
  pub read_super : Cmd Fs (Unit {0})
  read_super = do
    read_block mem_alloc 1
    modify set_super
    magic ← reads λ s. (s.cache 1).words 0
    assert (magic == fs_magic)
    n ← reads λ s. (s.cache 1).words 1
    assert (leb n (diskmax / by2blk))

  -- The first loop of `read_bitmap`.
  pub read_bitmap_blocks : ℕ → ℕ → Cmd Fs (Unit {0})
  read_bitmap_blocks zero i = skip
  read_bitmap_blocks (suc rounds) i =
      let rest = read_bitmap_blocks rounds (i + 1) in do read_block mem_alloc (i + 2); rest

  pub read_bitmap : Cmd Fs (Unit {0})
  unfolding read_bitmap_blocks check_in_use
  read_bitmap = do
    limit ← reads λ s. s.nblocks
    n ← nblocks_of limit
    read_bitmap_blocks (n / bit2blk + 1) 0
    modify λ s. record s { loaded = true; bitmap = bitmap_of s.cache }
    free ← reads λ s. block_is_free s 0
    assert (not free)
    free ← reads λ s. block_is_free s 1
    assert (not free)
    check_in_use (n / bit2blk + 1) 0

  -- Block 1 is in the cache, as `read_super` leaves it.
  pub check_write_block : Cmd Fs (Unit {0})
  check_write_block = do
    modify λ s. record s { nblocks = none }
    read_block mem_alloc 0
    modify λ s. record s { cache = update s.cache 0 (s.cache 1) }
    modify λ s. record s {
      cache = update s.cache 1 (record (s.cache 1) { words = smashed (s.cache 1).words });
    }
    write_block 1
    there ← reads λ s. s.mapped 1
    assert there
    modify λ s. record s { mapped = update s.mapped 1 false }
    there ← reads λ s. s.mapped 1
    assert (not there)
    read_block mem_alloc 1
    back ← reads λ s. is_smashed (s.cache 1).words
    assert back
    modify λ s. record s { cache = update s.cache 1 (s.cache 0) }
    write_block 1
    modify set_super

  pub fs_init : Cmd Fs (Unit {0})
  unfolding read_super check_write_block read_bitmap
  fs_init = do read_super; check_write_block; read_bitmap
