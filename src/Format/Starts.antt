-- ===== src/Format/Starts.antt =====
-- The image that tools/fsformat.c writes is one that the file server starts on.
use buaa_os.Prelude.{
  ℕ, zero, suc, ◌+◌, ◌/◌, ◌%◌, ◌<◌, ◌≤◌, ◌≡◌, refl, sym, ap, ◌∙◌, inl, true, false, ◌&&◌, none,
  some, [], leb, ltb, ◌==◌, if◌then◌else◌, update, arith,
}
use buaa_os.Prelude.Outcome.{IfReturns, IfReturns-bind, IfReturns-mono, Returns, ◌>>◌}
use buaa_os.Bitmap.{Bitmap, test, test-unmark, test-same, ones_lem}
use buaa_os.Fs.{Fs, Answer, bit2blk, is_free_of}
use buaa_os.Fs.Data.{FileRef, root, node, Block, blank_file, blank_block, by2blk}
use buaa_os.Fs.Start.{fs_init, bitmap_of, fs_magic}
use buaa_os.Fs.Start.Reading.{Bootable}
use buaa_os.Fs.Start.Boot.{Ready, fs_init-Ready}
use buaa_os.Format.{
  Image, node_of, Trees, nblock, full_words, init_disk, write_trees, clear_bits, flush_bitmap,
  finish_fs, format,
}
use buaa_os.Format.Bounds.{Safe, Bounded, ShortNames, write_trees-Keeps}

init_disk-Bounded : Bounded init_disk
init_disk-Bounded = record {
  behind = omega arith;
  inside = omega arith;
  bits = λ i. refl;
  safe = blank;
}
  where
    blank : (f : FileRef) → Safe (node_of f init_disk)
    blank root = inl refl
    blank (node b j) =
        elim (b == 2)
          as (λ c.
            Safe ((if c then record blank_block { words = full_words } else blank_block).nodes j)) [
              | true ↦ inl refl
              | false ↦ inl refl
            ]

-- The bits before `n` are cleared in the bitmap, and no other changes.
clear_bits_lem :
    (n : ℕ) (s : Image) (j : ℕ)
    → n ≤ nblock
    → test ((clear_bits n s).disk 2).words j ≡ (leb n j && test (s.disk 2).words j)
unfolding clear_bits
clear_bits_lem zero s j low = ground arith
clear_bits_lem (suc n) s j low =
    let before = clear_bits_lem n s j (omega arith) in
    let block : 2 + n / bit2blk ≡ 2 = omega arith in
    let place : n % bit2blk ≡ n = omega arith in
    simp (block, place, test-unmark) (ground (arith, before))

-- The blocks can be started from, exactly those from `nextbno` on are free, and the root's node is stored.
pub record Formatted (t : Image) : Type 0 where
  pub bootable : Bootable t.disk nblock
  pub free : (i : ℕ) → i < nblock → is_free_of (some nblock) (bitmap_of t.disk) i ≡ leb t.nextbno i
  pub root_stored : (t.disk 1).nodes 0 ≡ t.root_node

-- Where a block is less than a block of the bitmap from the start, its bit stands in the first one.
first_block : (b : ℕ → Block) (i : ℕ) → i < nblock → test (bitmap_of b) i ≡ test (b 2).words i
first_block b i low =
    let block : i / 32 / (by2blk / 4) + 2 ≡ 2 = omega arith in
    let place : i / 32 % (by2blk / 4) ≡ i / 32 = omega arith in
    test-same (bitmap_of b) (b 2).words i
      (ap (λ k. (b k).words (i / 32 % (by2blk / 4))) block ∙ ap (b 2).words place)

full_lem : (b : Bitmap) (i : ℕ) → ((k : ℕ) → b k ≡ full_words k) → i < nblock → test b i ≡ true
full_lem b i h low =
    let inside : ltb (i / 32) 32 ≡ true = ground arith in
    ones_lem b i (h (i / 32) ∙ simp inside refl)

clear_bits-nextbno : (n : ℕ) (s : Image) → (clear_bits n s).nextbno ≡ s.nextbno
unfolding clear_bits
clear_bits-nextbno zero s = refl
clear_bits-nextbno (suc n) s = clear_bits-nextbno n s

-- The blocks that `finish_fs` leaves.
abbrev finish_block : Image → ℕ → Block
finish_block s = update s.disk 1 (record (s.disk 1) {
  words = update (update (s.disk 1).words 0 fs_magic) 1 nblock;
  nodes = update (s.disk 1).nodes 0 s.root_node;
})

free_bit :
    (b : ℕ → Block) (n i : ℕ)
    → i < nblock
    → test (b 2).words i ≡ leb n i
    → is_free_of (some nblock) (bitmap_of b) i ≡ leb n i
unfolding is_free_of
free_bit b n i low h =
    let inside : leb nblock i ≡ false = ground arith in simp inside (first_block b i low ∙ h)

finished : (s : Image) → Bounded s → IfReturns (λ _ t. Formatted t) ((flush_bitmap >> finish_fs) s)
unfolding flush_bitmap finish_fs
finished s h = record {
  bootable = record {
    magic = refl;
    size = refl;
    bounded = omega arith;
    room = omega arith;
    in_use = λ i low. bits i (omega arith) ∙ ground (arith, later, h.behind);
  };
  free = λ i low. bits i low ∙ ap (λ n. leb n i) (sym later);
  root_stored = refl;
}
  where
    later : (clear_bits s.nextbno s).nextbno ≡ s.nextbno
    later = clear_bits-nextbno s.nextbno s

    bits :
        (i : ℕ)
        → i < nblock
        → is_free_of (some nblock) (bitmap_of (finish_block (clear_bits s.nextbno s))) i
          ≡ leb s.nextbno i
    bits i low = free_bit (finish_block (clear_bits s.nextbno s)) s.nextbno i low (
        clear_bits_lem s.nextbno s i h.inside
        ∙ simp (full_lem (s.disk 2).words i h.bits low) (ground arith))

-- The file server before its start, on the blocks of an image.
abbrev pub server_on : Image → Fs
server_on t = record {
  nblocks = none;
  loaded = false;
  bitmap = λ i. 0;
  root_node = blank_file;
  mapped = λ i. false;
  dirty = λ i. false;
  cache = λ i. blank_block;
  disk = t.disk;
  ide = [];
}

-- For any directories and files, the files' names shorter than the 128 characters of `f_name`, unless a block behind the array or a file that is too large stops `format`: on what it
-- writes exactly the blocks from `nextbno` on are free, of the 1024, and the root's node is in the super block, with the
-- magic number and the size; and the file server, with a page for each block that it reads, starts on it: `fs_init`
-- returns, with the super block, the root's node and the bitmap of the image.
pub format-fs_init :
    (mem_alloc : Answer)
    → ((s : Fs) (i : ℕ) → mem_alloc s i ≡ none)
    → (trees : Trees) → ShortNames trees
    → IfReturns
        (λ _ t.
          Formatted t
          × Returns (λ _ u. Ready (server_on t) nblock u) (fs_init mem_alloc (server_on t)))
        (format trees)
unfolding format
format-fs_init mem_alloc grants trees short =
    IfReturns-bind (λ _ t. Unit {0} × Bounded t) _ (write_trees root trees init_disk)
      (λ _. flush_bitmap >> finish_fs)
      (write_trees-Keeps root trees short init_disk init_disk-Bounded)
      (λ _ s (_, h).
        IfReturns-mono (λ _ t. Formatted t)
          (λ _ t.
            Formatted t
            × Returns (λ _ u. Ready (server_on t) nblock u) (fs_init mem_alloc (server_on t)))
          ((flush_bitmap >> finish_fs) s) (finished s h) (λ _ t k. (k, starts t k)))
  where
    starts :
        (t : Image)
        → Formatted t
        → Returns (λ _ u. Ready (server_on t) nblock u) (fs_init mem_alloc (server_on t))
    starts t h =
        fs_init-Ready mem_alloc grants (server_on t) nblock
          (record { no_super = refl; no_bitmap = refl; no_block = λ i. refl }) h.bootable
