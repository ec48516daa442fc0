-- ===== src/Fs/Blocks.antt =====
-- The allocation of blocks in fs/fs.c.
pub mod Keep
use buaa_os.Prelude.{
  ℕ, zero, suc, ◌+◌, ◌-◌, ◌/◌, ◌≤◌, ◌<◌, ◌≡◌, inl, inr, refl, true, false, not, ◌&&◌, Option, none,
  some, arith, leb, ◌==◌, Bool-cases, Option-cases,
}
use buaa_os.Prelude.Outcome.{Outcome, Errno, e_no_disk, done, fail, panic, Ends, and_then}
use buaa_os.Bitmap.{Bitmap, test, test-mark, test-unmark}
use buaa_os.Fs.{
  Fs, Answer, bit2blk, find_block, block_is_free, alloc_block_num, alloc_block, take_block,
  map_block, free_block, undo,
}

find_block-first :
    (fuel i j : ℕ) (b : Bitmap)
    → find_block fuel i b ≡ some j
    → (i ≤ j) × (j < i + fuel) × (test b j ≡ true) × ((m : ℕ) → i ≤ m → m < j → test b m ≡ false)
unfolding find_block
find_block-first zero i j b e = absurd cc
find_block-first (suc fuel) i j b e = elim (Bool-cases (test b i)) [
  | inl on ↦
      let here : i ≡ j = ground arith in
      (omega arith, omega arith, ground arith, λ m l g. absurd (omega arith))
  | inr off ↦
      let (le, lt, on, before) = find_block-first fuel (i + 1) j b (ground arith) in
      (omega arith, omega arith, on, λ m l g. nearer m l off (before m) g)
]
  where
    nearer :
        (m : ℕ)
        → i ≤ m
        → test b i ≡ false
        → (i + 1 ≤ m → m < j → test b m ≡ false)
        → m < j
        → test b m ≡ false
    nearer m l off later g = ground arith

find_block-none :
    (fuel i : ℕ) (b : Bitmap)
    → find_block fuel i b ≡ none
    → (m : ℕ) → i ≤ m
    → m < i + fuel
    → test b m ≡ false
unfolding find_block
find_block-none zero i b e m l g = absurd (omega arith)
find_block-none (suc fuel) i b e m l g =
    ground (arith, λ (p : find_block fuel (i + 1) b ≡ none). find_block-none fuel (i + 1) b p m)

-- The blocks of the bitmap of a disk of `n` blocks are in the cache.
abbrev pub BitmapMapped : Fs → ℕ → Type 0
BitmapMapped s n = (i : ℕ) → i < n → s.mapped (i / bit2blk + 2) ≡ true

-- The first free block behind the reserved ones, and in `s'` it alone is no longer free.
abbrev pub Takes : Fs → ℕ → ℕ → Fs → Type 0
Takes s n i s' =
    (s'.nblocks ≡ s.nblocks)
    × (3 ≤ i)
    × (i < n)
    × (block_is_free s i ≡ true)
    × ((j : ℕ) → 3 ≤ j → j < i → block_is_free s j ≡ false)
    × ((j : ℕ) → block_is_free s' j ≡ (not (j == i) && block_is_free s j))

abbrev pub NoDisk : Fs → ℕ → Errno → Fs → Type 0
NoDisk s n r s' = (r ≡ e_no_disk) × ((j : ℕ) → 3 ≤ j → j < n → block_is_free s j ≡ false) × (s' ≡ s)

module _ (s : Fs) (n : ℕ) (size : s.nblocks ≡ some n) (cached : BitmapMapped s n) where
  -- On a disk of `n` blocks whose bitmap is in the cache, `alloc_block_num` takes the first free
  -- block behind the reserved ones and changes no other; it fails only if there is none, and then
  -- changes nothing.
  pub alloc_block_num-Takes : Ends (Takes s n) (NoDisk s n) (alloc_block_num s)
  unfolding alloc_block_num take_block block_is_free
  alloc_block_num-Takes = elim (Option-cases (find_block (n - 3) 3 s.bitmap)) [
    | inl e ↦
        rw (size, e) (refl, λ j l m. ground (arith, find_block-none (n - 3) 3 s.bitmap e j l), refl)
    | inr (i, e) ↦
        let (le, lt, on, before) = find_block-first (n - 3) 3 i s.bitmap e in
        rw (size, e, cached i (omega arith))
          (
            refl,
            le,
            omega arith,
            ground arith,
            λ j l m. ground (arith, before j l m),
            λ j. ground (arith, test-unmark s.bitmap i j),
          )
  ]

-- Which blocks are free is as before.
abbrev pub SameFree : Fs → Fs → Type 0
SameFree s s' = (j : ℕ) → block_is_free s' j ≡ block_is_free s j

module _ (mem_alloc : Answer) (s : Fs) (n : ℕ) (size : s.nblocks ≡ some n)
    (cached : BitmapMapped s n) where
  abbrev pub Gets : Outcome Fs ℕ → Type 0
  Gets = Ends (λ i s'. Takes s n i s' × (s'.mapped i ≡ true)) (λ r s'. SameFree s s')

  gives_back : (i : ℕ) (e : Errno) (s' : Fs) → Takes s n i s' → Gets (undo i (fail e s'))
  unfolding undo free_block block_is_free
  gives_back i e s' (same, low, top, was, before, now) =
      let nonzero : (i == 0) ≡ false = ground arith in
      let inside : leb n i ≡ false = ground arith in
      rw (nonzero, same, size, inside) (λ j. ground (arith, now j, test-mark s'.bitmap i j))

  maps :
      (i : ℕ) (s' : Fs) (answer : Option Errno)
      → Takes s n i s'
      → mem_alloc s' i ≡ answer
      → Gets (undo i (map_block mem_alloc i s'))
  unfolding undo map_block block_is_free
  maps i s' none t at = elim (Bool-cases (s'.mapped i)) [
    | inl there ↦ rw there (t, there)
    | inr away ↦ rw (away, at) (t, ground arith)
  ]
  maps i s' (some e) t at = elim (Bool-cases (s'.mapped i)) [
    | inl there ↦ rw there (t, there)
    | inr away ↦ rw (away, at) (gives_back i e s' t)
  ]

  goes_on :
      (r : Outcome Fs ℕ)
      → Ends (Takes s n) (NoDisk s n) r
      → Gets (and_then r (λ i s'. undo i (map_block mem_alloc i s')))
  goes_on (done i s') t = maps i s' (mem_alloc s' i) t refl
  goes_on (fail e s') (_, _, same) = λ j. rw same refl
  goes_on panic h = h

  -- On a disk of `n` blocks whose bitmap is in the cache, `alloc_block` gives the first free block
  -- behind the reserved ones, in the cache, and no other block stops being free; if it fails, also
  -- because the cache gets no page, the same blocks are free as before. It does not panic.
  pub alloc_block-Gets : Gets (alloc_block mem_alloc s)
  unfolding alloc_block
  alloc_block-Gets = goes_on (alloc_block_num s) (alloc_block_num-Takes s n size cached)
