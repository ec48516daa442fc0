-- ===== src/Fs/Blocks/Keep.antt =====
-- What `alloc_block` of fs/fs.c leaves as it is.
use buaa_os.Prelude.{
  ℕ, ◌-◌, ◌/◌, ◌+◌, ◌≤◌, ◌≡◌, inl, inr, refl, true, false, some, ◌∷◌, arith, leb, ◌==◌, update,
  Bool-cases, Option-cases,
}
use buaa_os.Prelude.Outcome.{Errno, fail, IfReturns}
use buaa_os.Bitmap.{unmark, test-unmark}
use buaa_os.Fs.{
  Fs, Answer, bit2blk, find_block, block_is_free, is_free_of, alloc_block_num, alloc_block,
  take_block, in_memory, map_block, free_block, undo,
}
use buaa_os.Fs.Blocks.{find_block-first}

-- The blocks in the cache, what they hold, and which other blocks are used.
pub record Frame (s s' : Fs) : Type 0 where
  pub same_size : s'.nblocks ≡ s.nblocks
  pub same_loaded : s'.loaded ≡ s.loaded
  pub same_root : s'.root_node ≡ s.root_node
  pub still_mapped : (j : ℕ) → s.mapped j ≡ true → s'.mapped j ≡ true
  pub same_block : (j : ℕ) → s.mapped j ≡ true → s'.cache j ≡ s.cache j
  pub still_used : (j : ℕ) → block_is_free s j ≡ false → block_is_free s' j ≡ false

-- Besides, the block is none of the reserved ones.
abbrev pub Keeps : Fs → ℕ → Fs → Type 0
Keeps s i s' = Frame s s' × (3 ≤ i)

module _ (mem_alloc : Answer) (s : Fs) where
  abbrev taken : ℕ → Fs
  taken i = record s {
    bitmap = unmark s.bitmap i;
    ide = (i / bit2blk + 2) ∷ s.ide;
    disk =
        update s.disk (i / bit2blk + 2)
          (in_memory (record s { bitmap = unmark s.bitmap i }) (i / bit2blk + 2));
  }

  free_after :
      (i j : ℕ) → block_is_free s j ≡ false → is_free_of s.nblocks (unmark s.bitmap i) j ≡ false
  unfolding block_is_free
  free_after i j h = elim (Option-cases s.nblocks) [
    | inl e ↦ rw e
    | inr (n, e) ↦ ground (arith, test-unmark s.bitmap i j)
  ]

  after_fail : (i : ℕ) (e : Errno) (t : Fs) → IfReturns (Keeps s) (undo i (fail e t))
  unfolding undo free_block
  after_fail i e t = elim (Bool-cases (i == 0)) [
    | inl z ↦ rw z tt
    | inr nz ↦ elim (Option-cases t.nblocks) [
      | inl at ↦ rw (nz, at) tt
      | inr (n, at) ↦ elim (Bool-cases (leb n i)) [
        | inl out ↦ rw (nz, at, out) tt
        | inr inside ↦ rw (nz, at, inside) tt
      ]
    ]
  ]

  maps : (i : ℕ) → 3 ≤ i → IfReturns (Keeps s) (undo i (map_block mem_alloc i (taken i)))
  unfolding undo map_block block_is_free
  maps i low = elim (Bool-cases (s.mapped i)) [
    | inl there ↦ rw there (
      record {
        same_size = refl;
        same_loaded = refl;
        same_root = refl;
        still_mapped = λ j h. h;
        same_block = λ j h. refl;
        still_used = λ j h. free_after i j h;
      },
      low,
    )
    | inr away ↦ elim (Option-cases (mem_alloc (taken i) i)) [
      | inl e ↦
          rw (away, e)
            (
              record {
                same_size = refl;
                same_loaded = refl;
                same_root = refl;
                still_mapped = λ j h. ground arith;
                same_block = λ j h. ground arith;
                still_used = λ j h. free_after i j h;
              },
              low,
            )
      | inr (e, at) ↦ rw (away, at) (after_fail i e (taken i))
    ]
  ]

pub alloc_block-Keeps :
    (mem_alloc : Answer) (s : Fs) → IfReturns (Keeps s) (alloc_block mem_alloc s)
unfolding alloc_block alloc_block_num take_block
alloc_block-Keeps mem_alloc s = elim (Option-cases s.nblocks) [
  | inl e ↦ rw e tt
  | inr (n, size) ↦ elim (Option-cases (find_block (n - 3) 3 s.bitmap)) [
    | inl e ↦ rw (size, e) tt
    | inr (i, e) ↦ elim (Bool-cases (s.mapped (i / bit2blk + 2))) [
      | inr away ↦ rw (size, e, away) tt
      | inl there ↦
          rw (size, e, there)
            (maps mem_alloc (record s { nblocks = some n }) i
              (find_block-first (n - 3) 3 i s.bitmap e).0)
    ]
  ]
]
