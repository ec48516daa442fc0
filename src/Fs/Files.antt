-- ===== src/Fs/Files.antt =====
-- The blocks of a file: `file_block_walk` and what stands on it in fs/fs.c.
pub mod Clear
pub mod Flush
pub mod Map
pub mod Read
pub mod Shrink
pub mod Truncate
use buaa_os.Prelude.{
  ℕ, zero, suc, ◌+◌, ◌-◌, ◌/◌, ◌^◌, Bool, true, false, not, ◌&&◌, ◌||◌, Option, none, some, List,
  [], ltb, leb, ◌==◌, if◌then◌else◌, update,
}
use buaa_os.Prelude.Outcome.{
  Outcome, Cmd, Errno, e_not_found, e_inval, done, fail, panic, pure, throw, halt, skip, ◌>>=◌,
  ◌>>◌, reads, modify, ignore,
}
use buaa_os.Fs.{
  Fs, Answer, alloc_block, free_block, read_block, write_block, dirty_block, nblocks_of,
}
use buaa_os.Fs.Data.{File, FileRef, root, node, Block, by2blk, ndirect, nindirect}

abbrev pub node_at : Fs → FileRef → File
node_at s root = s.root_node
node_at s (node b j) = (s.cache b).nodes j

abbrev pub with_node : FileRef → File → Fs → Fs
with_node root f s = record s { root_node = f }
with_node (node b j) f s = record s {
  cache = update s.cache b (record (s.cache b) { nodes = update (s.cache b).nodes j f });
}

abbrev pub get_file : FileRef → Cmd Fs File
get_file f = reads λ s. node_at s f

abbrev pub set_file : FileRef → (File → File) → Cmd Fs (Unit {0})
set_file f g = modify λ s. with_node f (g (node_at s f)) s

-- What `*ppdiskbno` points to: an entry of `f_direct`, or a word of a block.
pub data Slot : Type 0 where
  direct : FileRef → ℕ → Slot
  indirect : ℕ → ℕ → Slot

abbrev pub word_at : Fs → Slot → ℕ
word_at s (direct f i) = (node_at s f).f_direct i
word_at s (indirect b i) = (s.cache b).words i

abbrev pub with_word : Slot → ℕ → Fs → Fs
with_word (direct f i) v s =
    with_node f (record (node_at s f) { f_direct = update (node_at s f).f_direct i v }) s
with_word (indirect b i) v s = record s {
  cache = update s.cache b (record (s.cache b) { words = update (s.cache b).words i v });
}

abbrev pub load_slot : Slot → Cmd Fs ℕ
load_slot p = reads λ s. word_at s p

abbrev pub store_slot : Slot → ℕ → Cmd Fs (Unit {0})
store_slot p v = modify (with_word p v)

module _ (mem_alloc : Answer) where
  -- Step 2 of `file_block_walk`.
  need_indirect : FileRef → Bool → Cmd Fs (Unit {0})
  need_indirect f alloc = do
    v ← get_file f
    if not (v.f_indirect == 0)
        then skip
        else if not alloc
        then throw e_not_found
        else do r ← alloc_block mem_alloc; set_file f λ w. record w { f_indirect = r }

  pub file_block_walk : FileRef → ℕ → Bool → Cmd Fs Slot
  unfolding need_indirect
  file_block_walk f filebno alloc =
      if ltb filebno ndirect
      then pure (direct f filebno)
      else if ltb filebno nindirect
      then (do
        need_indirect f alloc
        v ← get_file f
        read_block mem_alloc v.f_indirect
        pure (indirect v.f_indirect filebno))
      else throw e_inval

  -- Step 2 of `file_map_block`.
  fill_slot : Slot → Bool → Cmd Fs (Unit {0})
  fill_slot p alloc = do
    v ← load_slot p
    if not (v == 0)
        then skip
        else if not alloc
        then throw e_not_found
        else do r ← alloc_block mem_alloc; store_slot p r

  pub file_map_block : FileRef → ℕ → Bool → Cmd Fs ℕ
  unfolding fill_slot
  file_map_block f filebno alloc = do
    p ← file_block_walk f filebno alloc
    fill_slot p alloc
    load_slot p

  pub file_clear_block : FileRef → ℕ → Cmd Fs (Unit {0})
  file_clear_block f filebno = do
    p ← file_block_walk f filebno false
    v ← load_slot p
    if v == 0 then skip else do free_block v; store_slot p 0

  -- The block whose address is stored in `*blk`.
  pub file_get_block : FileRef → ℕ → Cmd Fs ℕ
  file_get_block f filebno = do d ← file_map_block f filebno true; read_block mem_alloc d; pure d

  pub file_dirty : Answer → FileRef → ℕ → Cmd Fs (Unit {0})
  file_dirty mem_map f offset = do
    d ← file_map_block f (offset / by2blk) false
    dirty_block mem_map d

  -- The loops of `file_truncate`; the results of the calls are dropped.
  pub clear_blocks : ℕ → ℕ → FileRef → Cmd Fs (Unit {0})
  clear_blocks zero bno f = skip
  clear_blocks (suc rounds) bno f =
      let rest = clear_blocks rounds (bno + 1) f in do ignore (file_clear_block f bno); rest

  pub clear_indirect : FileRef → Cmd Fs (Unit {0})
  clear_indirect f = do
    v ← get_file f
    if v.f_indirect == 0
        then skip
        else do free_block v.f_indirect; set_file f λ w. record w { f_indirect = 0 }

  pub file_truncate : FileRef → ℕ → Cmd Fs (Unit {0})
  unfolding clear_blocks clear_indirect
  file_truncate f newsize = do
    v ← get_file f
    let old_nblocks = v.f_size / by2blk + 1
    let new_nblocks = if newsize == 0 then 0 else newsize / by2blk + 1
    clear_blocks (old_nblocks - new_nblocks) new_nblocks f
    if leb new_nblocks ndirect then clear_indirect f else skip
    set_file f λ w. record w { f_size = newsize }

  -- The block is written if it is there and dirty.
  flush_block : Outcome Fs ℕ → Outcome Fs (Unit {0})
  flush_block (done d s) = if s.mapped d && s.dirty d then write_block d s else done tt s
  flush_block (fail e s) = done tt s
  flush_block panic = panic

  flush_blocks : ℕ → ℕ → FileRef → Cmd Fs (Unit {0})
  unfolding flush_block
  flush_blocks zero bno f = skip
  flush_blocks (suc rounds) bno f =
      let rest = flush_blocks rounds (bno + 1) f in
      do λ s. flush_block (file_map_block f bno false s); rest

  pub file_flush : FileRef → Cmd Fs (Unit {0})
  unfolding flush_blocks
  file_flush f = do v ← get_file f; flush_blocks (v.f_size / by2blk + 1) 0 f

  pub flush_dir : Option FileRef → Cmd Fs (Unit {0})
  flush_dir none = skip
  flush_dir (some d) = file_flush d

  pub file_set_size : FileRef → ℕ → Cmd Fs (Unit {0})
  unfolding flush_dir
  file_set_size f newsize = do
    v ← get_file f
    if ltb newsize v.f_size then file_truncate f newsize else skip
    set_file f λ w. record w { f_size = newsize }
    w ← get_file f
    flush_dir w.f_dir

  pub file_close : FileRef → Cmd Fs (Unit {0})
  file_close f = do file_flush f; v ← get_file f; flush_dir v.f_dir

pub sync_blocks : ℕ → ℕ → Cmd Fs (Unit {0})
sync_blocks zero i = skip
sync_blocks (suc rounds) i =
    let rest = sync_blocks rounds (i + 1) in
    do dirty ← reads λ s. s.mapped i && s.dirty i; if dirty then write_block i else skip; rest

pub fs_sync : Cmd Fs (Unit {0})
unfolding sync_blocks
fs_sync = do limit ← reads λ s. s.nblocks; n ← nblocks_of limit; sync_blocks n 0
