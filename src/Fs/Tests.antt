-- ===== src/Fs/Tests.antt =====
-- Examples for fs/fs.c: a disk of 40 blocks of which block 5 is free, and on it a directory with one file.
use buaa_os.Prelude.{
  ℕ, zero, suc, ◌^◌, ◌+◌, ◌/◌, ◌≤◌, ◌≡◌, ◌&&◌, ◌||◌, ltb, refl, true, false, none, some, [], ◌∷◌,
  arith, ◌==◌, if◌then◌else◌,
}
use buaa_os.Prelude.Outcome.{Returns, IfReturns}
use buaa_os.Fs.Start.{fs_magic, bitmap_of, fs_init}
use buaa_os.Fs.Start.Reading.{Cold, Bootable}
use buaa_os.Fs.Start.Boot.{Ready, fs_init-Ready}
use buaa_os.Bitmap.{test}
use buaa_os.Fs.Data.{Block, blank_file, blank_block, by2blk, ftype_dir, FileRef, root, node}
use buaa_os.Fs.{Fs, Answer, alloc_block, bit2blk, is_free_of}
use buaa_os.Fs.Files.{file_map_block, file_truncate}
use buaa_os.Fs.Files.Map.{Again, file_map_block-Again}
use buaa_os.Fs.Files.Truncate.{Truncated, file_truncate-returns}
use buaa_os.Fs.Dirs.{walk_path}
use buaa_os.Fs.Dirs.Paths.{elements, resolve, walk_path-resolve}
use buaa_os.Fs.Blocks.{BitmapMapped, Gets, alloc_block-Gets}

abbrev disk : Fs
disk = record {
  nblocks = some 40;
  loaded = true;
  root_node = blank_file;
  cache = λ i. blank_block;
  disk = λ i. blank_block;
  bitmap = λ i. if i == 0 then 2 ^ 5 else 0;
  mapped = λ i. i == 2;
  dirty = λ i. false;
  ide = [];
}

disk-BitmapMapped : BitmapMapped disk 40
disk-BitmapMapped i l = ground arith

abbrev grants : Answer
grants s i = none

alloc_block-Gets_example : Gets grants disk 40 refl disk-BitmapMapped (alloc_block grants disk)
alloc_block-Gets_example = alloc_block-Gets grants disk 40 refl disk-BitmapMapped

-- Block 7 holds the root's only node, the file `a` of two blocks, 8 and 9.
abbrev tree : Fs
tree = record disk {
  root_node = record blank_file {
    f_type = ftype_dir;
    f_size = by2blk;
    f_direct = λ i. if i == 0 then 7 else 0;
  };
  mapped = λ i. i == 2 || i == 7;
  cache = λ i.
      if i == 7
      then record blank_block {
        nodes = λ j.
            if j == 3
            then record blank_file {
              f_name = b'a' ∷ [];
              f_size = by2blk + 5;
              f_direct = λ k. if ltb k 2 then k + 8 else 0;
            }
            else blank_file;
      }
      else blank_block;
}

abbrev a_file : FileRef
a_file = node 7 3

file_map_block-Again_example :
    IfReturns (Again grants a_file 2) (file_map_block grants a_file 2 true tree)
file_map_block-Again_example = file_map_block-Again grants tree a_file 2 refl

file_truncate-returns_example :
    Returns (λ _ t. Truncated grants a_file 40 5 tree t) (file_truncate grants a_file 5 tree)
file_truncate-returns_example = file_truncate-returns grants a_file 40 5 tree refl refl refl

walk_path-resolve_example :
    walk_path grants (b'/' ∷ b'/' ∷ b'a' ∷ []) tree
    ≡ resolve grants (elements [] (b'/' ∷ b'/' ∷ b'a' ∷ [])) none root tree
walk_path-resolve_example = walk_path-resolve grants (b'/' ∷ b'/' ∷ b'a' ∷ []) tree

-- The disk of 40 blocks before the server starts: the super block is block 1 and the bitmap block 2.
abbrev stored : ℕ → Block
stored i = record blank_block {
  words = λ j.
      if i == 1 && j == 0
      then fs_magic
      else if i == 1 && j == 1
      then 40
      else if i == 2 && j == 0
      then 2 ^ 5
      else 0;
}

abbrev off : Fs
off = record disk { nblocks = none; loaded = false; mapped = λ i. false; disk = stored }

off-Bootable : Bootable off.disk 40
unfolding is_free_of test
off-Bootable = record {
  magic = refl;
  size = refl;
  bounded = omega arith;
  room = omega arith;
  in_use = used;
}
  where
    used : (i : ℕ) → i ≤ 40 / bit2blk + 2 → is_free_of (some 40) (bitmap_of stored) i ≡ false
    used zero l = refl
    used (suc zero) l = refl
    used (suc (suc zero)) l = refl
    used (suc (suc (suc i))) l = absurd (omega arith)

off-Cold : Cold off
off-Cold = record { no_super = refl; no_bitmap = refl; no_block = λ i. refl }

fs_init-Ready_example : Returns (λ _ t. Ready off 40 t) (fs_init grants off)
fs_init-Ready_example = fs_init-Ready grants (λ s i. refl) off 40 off-Cold off-Bootable
