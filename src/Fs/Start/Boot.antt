-- ===== src/Fs/Start/Boot.antt =====
-- `fs_init` (fs/fs.c) on a disk with a file system.
use buaa_os.Prelude.{
  ℕ, zero, suc, ◌+◌, ◌/◌, ◌%◌, ◌<◌, ◌≤◌, ◌≡◌, refl, ap, ◌∙◌, true, false, not, none, some, arith,
  subst,
}
use buaa_os.Prelude.Outcome.{Cmd, done, Returns, Returns-bind, ◌>>=◌, ◌>>◌, reads, assert}
use buaa_os.Bitmap.{Bitmap, test, test-same}
use buaa_os.Fs.Data.{Block, by2blk}
use buaa_os.Fs.{Fs, Answer, bit2blk, is_free_of, block_is_free}
use buaa_os.Fs.Blocks.{BitmapMapped}
use buaa_os.Fs.Start.{
  set_super, bitmap_of, check_in_use, read_bitmap_blocks, read_bitmap, check_write_block, fs_init,
}
use buaa_os.Fs.Start.Reading.{
  Cold, Bootable, Warm, with_block, read_super_lem, check-Warm, blocks-Warm,
}

-- The server can work: super block, root and bitmap are those of the disk, the bitmap is in the cache, and the disk
-- holds what it held.
pub record Ready (s : Fs) (n : ℕ) (t : Fs) : Type 0 where
  pub super : t.nblocks ≡ some n
  pub loaded : t.loaded ≡ true
  pub root_node : t.root_node ≡ (s.disk 1).nodes 0
  pub bitmap : (i : ℕ) → i < n → test t.bitmap i ≡ test (bitmap_of s.disk) i
  pub cached : BitmapMapped t n
  pub same_disk : (j : ℕ) → t.disk j ≡ s.disk j

-- What the blocks of the bitmap in the cache say is what those on the disk say.
same_bits :
    (s : Fs) (n : ℕ) (t : Fs)
    → Warm s n (n / bit2blk + 1) t
    → (j : ℕ) → j < n
    → test (bitmap_of t.cache) j ≡ test (bitmap_of s.disk) j
same_bits s n t w j low =
    let block = j / 32 / (by2blk / 4) in
    let here = w.copied block (w.there block (omega arith)) in
    test-same (bitmap_of t.cache) (bitmap_of s.disk) j
      (ap (λ (b : Block). b.words (j / 32 % (by2blk / 4))) here)

is_free_of-same :
    (n : ℕ) (b c : Bitmap) (i : ℕ)
    → (i < n → test b i ≡ test c i)
    → is_free_of (some n) b i ≡ is_free_of (some n) c i
unfolding is_free_of
is_free_of-same n b c i h = ground (arith, h)

-- So no block of the bitmap, nor before it, is free.
not_free :
    (s : Fs) (n : ℕ) (t : Fs)
    → Bootable s.disk n
    → Warm s n (n / bit2blk + 1) t
    → (i : ℕ) → i ≤ n / bit2blk + 2
    → is_free_of (some n) (bitmap_of t.cache) i ≡ false
not_free s n t image w i low =
    is_free_of-same n (bitmap_of t.cache) (bitmap_of s.disk) i (same_bits s n t w i)
    ∙ image.in_use i low

super_free :
    (v : Fs) (n k : ℕ)
    → v.nblocks ≡ some n
    → is_free_of (some n) v.bitmap k ≡ false
    → block_is_free v k ≡ false
unfolding block_is_free
super_free v n k super h = ap (λ m. is_free_of m v.bitmap k) super ∙ h

-- `read_bitmap` from where it has set `bitmap`.
abbrev checked : ℕ → Cmd Fs (Unit {0})
checked n = do
  free ← reads λ s. block_is_free s 0
  assert (not free)
  free ← reads λ s. block_is_free s 1
  assert (not free)
  check_in_use (n / bit2blk + 1) 0

check_in_use-passes :
    (rounds i : ℕ) (t : Fs)
    → ((k : ℕ) → k < i + rounds + 2 → block_is_free t k ≡ false)
    → check_in_use rounds i t ≡ done tt t
unfolding check_in_use
check_in_use-passes zero i t used = refl
check_in_use-passes (suc rounds) i t used =
    simp
      (
        used (i + 2) (omega arith),
        check_in_use-passes rounds (i + 1) t (λ k l. used k (omega arith)),
      )
      refl

module _ (mem_alloc : Answer) (grants : (s : Fs) (i : ℕ) → mem_alloc s i ≡ none) where
  read_bitmap-Ready :
      (s : Fs) (n : ℕ) (t : Fs)
      → Bootable s.disk n
      → Warm s n 0 t
      → Returns (λ _ u. Ready s n u) (read_bitmap mem_alloc t)
  unfolding read_bitmap
  read_bitmap-Ready s n t image w = simp w.super (
      Returns-bind (λ _ u. Warm s n (0 + (n / bit2blk + 1)) u) (λ _ u. Ready s n u)
        (read_bitmap_blocks mem_alloc (n / bit2blk + 1) 0 t)
        (λ _ u. checked n (record u { loaded = true; bitmap = bitmap_of u.cache }))
        (blocks-Warm mem_alloc grants s n (n / bit2blk + 1) 0 t (omega (arith, image.room)) w)
        (λ _ u h. finished u (subst (λ k. Warm s n k u) (omega arith) h)))
    where
      finished :
          (u : Fs)
          → Warm s n (n / bit2blk + 1) u
          → Returns
              (λ _ v. Ready s n v)
              (checked n (record u { loaded = true; bitmap = bitmap_of u.cache }))
      finished u h =
          let v = record u { loaded = true; bitmap = bitmap_of u.cache } in
          let used = λ (k : ℕ) (l : k ≤ n / bit2blk + 2).
            super_free v n k h.super (not_free s n u image h k l) in
          simp
            (
              used 0 (omega arith),
              used 1 (omega arith),
              check_in_use-passes (n / bit2blk + 1) 0 v (λ k l. used k (omega arith)),
            )
            (record {
              super = h.super;
              loaded = refl;
              root_node = h.root_node;
              bitmap = λ i l. same_bits s n u h i l;
              cached = λ i l. h.there (i / bit2blk) (omega arith);
              same_disk = h.same_disk;
            })

  -- A server that has just been started, on a disk with a file system whose blocks before those of the data are in use,
  -- and with a page for each block it reads: `fs_init` returns. Then the super block, the root's node and the bitmap
  -- are those of the disk, the blocks of the bitmap are in the cache, and the disk holds what it held, so that the test
  -- of `check_write_block` has been undone.
  pub fs_init-Ready :
      (s : Fs) (n : ℕ)
      → Cold s
      → Bootable s.disk n
      → Returns (λ _ t. Ready s n t) (fs_init mem_alloc s)
  unfolding fs_init
  fs_init-Ready s n cold image = simp (read_super_lem mem_alloc grants s n cold image) (
      Returns-bind (λ _ t. Warm s n 0 t) (λ _ t. Ready s n t)
        (check_write_block mem_alloc (set_super (with_block 1 s))) (λ _. read_bitmap mem_alloc)
        (check-Warm mem_alloc grants s n cold image) (λ _ t w. read_bitmap-Ready s n t image w))
