-- ===== src/Fs/Data.antt =====
-- What the blocks of the disk hold: user/include/fs.h. A block is read as 1024 words or as 16 file nodes;
-- the two views are apart, as no block is used in both ways. A name is the list of its characters
-- before its NUL.
use buaa_os.Prelude.{ℕ, ◌/◌, Option, none, List, []}

-- Where a `struct File` lies: the root's in the super block, another in a block.
pub data FileRef : Type 0 where
  root : FileRef
  node : ℕ → ℕ → FileRef

pub record File : Type 0 where
  pub f_name : List ℕ
  pub f_size : ℕ
  pub f_type : ℕ
  pub f_direct : ℕ → ℕ
  pub f_indirect : ℕ
  pub f_dir : Option FileRef

abbrev pub blank_file : File
blank_file = record {
  f_name = [];
  f_size = 0;
  f_type = 0;
  f_direct = λ i. 0;
  f_indirect = 0;
  f_dir = none;
}

pub record Block : Type 0 where
  pub words : ℕ → ℕ
  pub nodes : ℕ → File

-- A page of zeros.
abbrev pub blank_block : Block
blank_block = record { words = λ i. 0; nodes = λ i. blank_file }

-- BY2BLK, NDIRECT, NINDIRECT, FILE2BLK, MAXNAMELEN and FTYPE_DIR
abbrev pub by2blk : ℕ
by2blk = 4096

abbrev pub ndirect : ℕ
ndirect = 10

abbrev pub nindirect : ℕ
nindirect = by2blk / 4

abbrev pub file2blk : ℕ
file2blk = by2blk / 256

abbrev pub maxnamelen : ℕ
maxnamelen = 128

abbrev pub ftype_dir : ℕ
ftype_dir = 1
