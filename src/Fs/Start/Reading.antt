-- ===== src/Fs/Start/Reading.antt =====
-- The super block and the bitmap are read, and the disk is tested (fs/fs.c).
use buaa_os.Prelude.{
  ℕ, zero, suc, ◌+◌, ◌*◌, ◌/◌, ◌%◌, ◌^◌, ◌<◌, ◌≤◌, ◌≡◌, refl, sym, ap, true, false, ◌&&◌, ◌||◌,
  none, some, ◌∷◌, leb, ◌==◌, update, arith, ==_eq, ==_ne, ==_refl, subst, inl, inr, Bool-cases,
}
use buaa_os.Prelude.Outcome.{done, Returns, Returns-bind}
use native.Mathlib.Decide.{ℕ_discrete}
use buaa_os.Fs.Data.{Block, by2blk}
use buaa_os.Fs.{
  Fs, Answer, bit2blk, is_free_of, block_is_free, beyond, write_block, read_block, read_disk,
}
use buaa_os.Fs.Start.{
  fs_magic, diskmax, set_super, bitmap_of, smashed, read_super, read_bitmap_blocks,
  check_write_block,
}

-- The server has just been started.
pub record Cold (s : Fs) : Type 0 where
  pub no_super : s.nblocks ≡ none
  pub no_bitmap : s.loaded ≡ false
  pub no_block : (i : ℕ) → s.mapped i ≡ false

-- The blocks hold a file system of `n` blocks: a super block, and a bitmap of blocks that are in it and in use, as are
-- the two blocks before it.
pub record Bootable (b : ℕ → Block) (n : ℕ) : Type 0 where
  pub magic : (b 1).words 0 ≡ fs_magic
  pub size : (b 1).words 1 ≡ n
  pub bounded : n ≤ diskmax / by2blk
  pub room : n / bit2blk + 2 < n
  pub in_use : (i : ℕ) → i ≤ n / bit2blk + 2 → is_free_of (some n) (bitmap_of b) i ≡ false

-- The super block is read, and the first `i` blocks of the bitmap.
pub record Warm (s : Fs) (n i : ℕ) (t : Fs) : Type 0 where
  pub super : t.nblocks ≡ some n
  pub unloaded : t.loaded ≡ false
  pub root_node : t.root_node ≡ (s.disk 1).nodes 0
  pub there : (j : ℕ) → j < i → t.mapped (j + 2) ≡ true
  pub copied : (j : ℕ) → t.mapped (j + 2) ≡ true → t.cache (j + 2) ≡ s.disk (j + 2)
  pub same_disk : (j : ℕ) → t.disk j ≡ s.disk j

-- The state in which block `i` is read from the disk.
abbrev pub with_block : ℕ → Fs → Fs
with_block i s = record s {
  mapped = update s.mapped i true;
  dirty = update s.dirty i false;
  cache = update s.cache i (s.disk i);
}

-- The state in which the smashed super block is on the disk and not in the cache.
abbrev after_smash : Fs → Fs
after_smash s =
    let s1 = with_block 0 (record (set_super (with_block 1 s)) { nblocks = none }) in
    let oops : Block = record (s.disk 1) { words = smashed (s.disk 1).words } in
    record s1 {
      mapped = update s1.mapped 1 false;
      cache = update (update s1.cache 0 (s.disk 1)) 1 oops;
      disk = update s1.disk 1 oops;
      ide = 1 ∷ s1.ide;
    }

restored :
    (s : Fs) (j : ℕ)
    → update
        (update s.disk 1 (record (s.disk 1) { words = smashed (s.disk 1).words }))
        1
        (s.disk 1)
        j
      ≡ s.disk j
restored s j = elim (Bool-cases (j == 1)) [
  | inl same ↦ rw same (ap s.disk (sym (==_eq j 1 same)))
  | inr apart ↦ rw apart refl
]

module _ (mem_alloc : Answer) (grants : (s : Fs) (i : ℕ) → mem_alloc s i ≡ none) where
  reads_new :
      (i : ℕ) (s : Fs)
      → (beyond s.nblocks i || (s.loaded && block_is_free s i)) ≡ false
      → s.mapped i ≡ false
      → read_block mem_alloc i s ≡ done tt (with_block i s)
  unfolding read_block read_disk
  reads_new i s fine out = simp (fine, out, grants) refl

  pub read_super_lem :
      (s : Fs) (n : ℕ)
      → Cold s
      → Bootable s.disk n
      → read_super mem_alloc s ≡ done tt (set_super (with_block 1 s))
  unfolding read_super
  read_super_lem s n cold image =
      let small : leb n (diskmax / by2blk) ≡ true = ground (arith, image.bounded) in
      let fine : (beyond s.nblocks 1 || (s.loaded && block_is_free s 1)) ≡ false =
        ground (arith, cold.no_super, cold.no_bitmap) in
      simp (reads_new 1 s fine (cold.no_block 1), image.magic, image.size, small) refl

  pub check-Warm :
      (s : Fs) (n : ℕ)
      → Cold s
      → Bootable s.disk n
      → Returns (λ _ t. Warm s n 0 t) (check_write_block mem_alloc (set_super (with_block 1 s)))
  unfolding check_write_block write_block
  check-Warm s n cold image =
      let s1 = record (set_super (with_block 1 s)) { nblocks = none } in
      let s2 = after_smash s in
      let fine : (beyond none 0 || (s.loaded && block_is_free s1 0)) ≡ false =
        ground (arith, cold.no_bitmap) in
      let fine' : (beyond none 1 || (s.loaded && block_is_free s2 1)) ≡ false =
        ground (arith, cold.no_bitmap) in
      let out : s1.mapped 0 ≡ false = ground (arith, cold.no_block 0) in
      let back : ((((s.disk 1).words 1 / 2 ^ 24 * 2 ^ 24 + 0x0a21) % 2 ^ 24) == 0x0a21) ≡ true =
        ground arith in
      simp (reads_new 0 s1 fine out, reads_new 1 s2 fine' refl, back)
        (record {
          super = ap some image.size;
          unloaded = cold.no_bitmap;
          root_node = refl;
          there = λ j low. absurd (omega arith);
          copied = λ j on. absurd (ground (arith, cold.no_block (j + 2)));
          same_disk = λ j. restored s j;
        })

  reads-Warm :
      (s : Fs) (n i : ℕ) (t : Fs)
      → i + 2 < n
      → Warm s n i t
      → Returns (λ _ u. Warm s n (i + 1) u) (read_block mem_alloc (i + 2) t)
  unfolding read_block
  reads-Warm s n i t low w = elim (Bool-cases (t.mapped (i + 2))) [
    | inl on ↦
        simp (passes, on)
          (record {
            super = w.super;
            unloaded = w.unloaded;
            root_node = w.root_node;
            there = λ j l. elim (ℕ_discrete i j) [
              | yes same ↦ subst (λ k. t.mapped (k + 2) ≡ true) same on
              | no apart ↦ w.there j (omega arith)
            ];
            copied = w.copied;
            same_disk = w.same_disk;
          })
    | inr off ↦ simp (reads_new (i + 2) t passes off) (record {
      super = w.super;
      unloaded = w.unloaded;
      root_node = w.root_node;
      there = λ j l. elim (ℕ_discrete i j) [
        | yes same ↦ subst (λ k. update t.mapped (i + 2) true (k + 2) ≡ true) same (ground arith)
        | no apart ↦ rw (==_ne (j + 2) (i + 2) (λ e. apart (omega arith))) (w.there j (omega arith))
      ];
      copied = λ j on. elim (ℕ_discrete i j) [
        | yes same ↦
            subst (λ k. update t.cache (i + 2) (t.disk (i + 2)) (k + 2) ≡ s.disk (k + 2)) same
              (rw (==_refl (i + 2)) (w.same_disk (i + 2)))
        | no apart ↦
            let other = ==_ne (j + 2) (i + 2) (λ e. apart (omega arith)) in
            rw other (w.copied j (rw other at on))
      ];
      same_disk = w.same_disk;
    })
  ]
    where
      passes : (beyond t.nblocks (i + 2) || (t.loaded && block_is_free t (i + 2))) ≡ false
      passes = rw (w.super, w.unloaded) (ground arith)

  pub blocks-Warm :
      (s : Fs) (n rounds i : ℕ) (t : Fs)
      → i + rounds + 1 < n
      → Warm s n i t
      → Returns (λ _ u. Warm s n (i + rounds) u) (read_bitmap_blocks mem_alloc rounds i t)
  unfolding read_bitmap_blocks
  blocks-Warm s n zero i t low w = subst (λ k. Warm s n k t) (omega arith) w
  blocks-Warm s n (suc rounds) i t low w =
      let go = blocks-Warm s n rounds (i + 1) in
      Returns-bind (λ _ u. Warm s n (i + 1) u) (λ _ u. Warm s n (i + suc rounds) u)
        (read_block mem_alloc (i + 2) t) (λ _. read_bitmap_blocks mem_alloc rounds (i + 1))
        (reads-Warm s n i t (omega arith) w)
        (λ _ u h.
          subst (λ k. Returns (λ _ u. Warm s n k u) (read_bitmap_blocks mem_alloc rounds (i + 1) u))
            (omega arith) (go u (omega arith) h))
