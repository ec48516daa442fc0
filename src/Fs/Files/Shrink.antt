-- ===== src/Fs/Files/Shrink.antt =====
-- What clearing one block of a file does to its node and to the bitmap (fs/fs.c).
use buaa_os.Prelude.{
  ℕ, ◌<◌, ◌≡◌, ◌≢◌, inl, inr, refl, true, some, arith, leb, ◌==◌, update, if◌then◌else◌, Bool-cases,
  ap, ◌∙◌,
}
use buaa_os.Prelude.Outcome.{
  Cmd, Returns, Returns-bind, Returns-IfEnds, IfEnds, IfEnds-bind, IfEnds-mono, skip, ◌>>◌,
}
use buaa_os.Bitmap.{test-mark}
use buaa_os.Fs.{Fs, Answer, block_is_free, free_block, read_block}
use buaa_os.Fs.Blocks.Keep.{Frame}
use buaa_os.Fs.Data.{File, FileRef, root, node, Block, ndirect}
use buaa_os.Fs.Files.Read.{
  words_apart, Lives, Readable, Frame-Lives, Frame-node_at, read_block-Readable,
}
use buaa_os.Fs.Files.{node_at, with_node, Slot, direct, indirect, word_at, with_word, store_slot}

-- A block that can be given back is free: it is not block 0 and lies on the disk of `n` blocks.
abbrev pub Released : Fs → ℕ → ℕ → Type 0
Released s n b = b ≢ 0 → b < n → block_is_free s b ≡ true

-- What clearing blocks of the file keeps: what is free stays free, and the file's other fields.
pub record Shrinks (f : FileRef) (s s' : Fs) : Type 0 where
  pub same_size : s'.nblocks ≡ s.nblocks
  pub alive : Lives s f → Lives s' f
  pub still_free : (j : ℕ) → block_is_free s j ≡ true → block_is_free s' j ≡ true
  pub cleared : (i : ℕ) → (node_at s f).f_direct i ≡ 0 → (node_at s' f).f_direct i ≡ 0
  pub same_indirect : (node_at s' f).f_indirect ≡ (node_at s f).f_indirect

pub Shrinks-refl : (f : FileRef) (s : Fs) → Shrinks f s s
Shrinks-refl f s = record {
  same_size = refl;
  alive = λ l. l;
  still_free = λ j h. h;
  cleared = λ i h. h;
  same_indirect = refl;
}

pub Shrinks-trans : (f : FileRef) (s t u : Fs) → Shrinks f s t → Shrinks f t u → Shrinks f s u
Shrinks-trans f s t u h k = record {
  same_size = k.same_size ∙ h.same_size;
  alive = λ l. k.alive (h.alive l);
  still_free = λ j e. k.still_free j (h.still_free j e);
  cleared = λ i e. k.cleared i (h.cleared i e);
  same_indirect = k.same_indirect ∙ h.same_indirect;
}

-- `free_block` releases the block, and changes nothing but the bitmap.
abbrev pub Frees : Fs → ℕ → ℕ → Fs → Type 0
Frees s n b s' =
    (s'.nblocks ≡ s.nblocks)
    × (s'.mapped ≡ s.mapped)
    × (s'.cache ≡ s.cache)
    × (s'.root_node ≡ s.root_node)
    × ((j : ℕ) → block_is_free s j ≡ true → block_is_free s' j ≡ true)
    × Released s' n b

pub free_block-Frees :
    (s : Fs) (n b : ℕ) → s.nblocks ≡ some n → Returns (λ _ s'. Frees s n b s') (free_block b s)
unfolding free_block block_is_free
free_block-Frees s n b size = elim (Bool-cases (b == 0)) [
  | inl z ↦ rw z (refl, refl, refl, refl, λ j h. h, λ ne l. absurd (ground arith))
  | inr nz ↦ elim (Bool-cases (leb n b)) [
    | inl out ↦ rw (nz, size, out) (refl, refl, refl, refl, λ j h. h, λ ne l. absurd (ground arith))
    | inr inside ↦
        rw (nz, size, inside)
          (
            refl,
            refl,
            refl,
            refl,
            λ j h. ground (arith, test-mark s.bitmap b j),
            λ ne l. ground (arith, test-mark s.bitmap b b),
          )
  ]
]

pub Frees-node_at :
    (s s' : Fs) (f : FileRef)
    → s'.cache ≡ s.cache
    → s'.root_node ≡ s.root_node
    → node_at s' f ≡ node_at s f
Frees-node_at s s' root c r = r
Frees-node_at s s' (node b j) c r = ap (λ (h : ℕ → Block). (h b).nodes j) c

pub Frees-Shrinks : (f : FileRef) (s s' : Fs) (n b : ℕ) → Frees s n b s' → Shrinks f s s'
Frees-Shrinks f s s' n b (size, mapped, cache, top, free, _) = record {
  same_size = size;
  alive = alive f;
  still_free = free;
  cleared = λ i h. rw (Frees-node_at s s' f cache top) h;
  same_indirect = ap (λ (v : File). v.f_indirect) (Frees-node_at s s' f cache top);
}
  where
    alive : (f : FileRef) → Lives s f → Lives s' f
    alive root l = tt
    alive (node c j) l = rw mapped l

-- The file's node, written.
module _ (g : File) (s : Fs) where
  pub node_at-with_node : (f : FileRef) → node_at (with_node f g s) f ≡ g
  node_at-with_node root = refl
  node_at-with_node (node b j) = ground arith

  pub block_is_free-with_node :
      (f : FileRef) (j : ℕ) → block_is_free (with_node f g s) j ≡ block_is_free s j
  unfolding block_is_free
  block_is_free-with_node root j = refl
  block_is_free-with_node (node b i) j = refl

  pub with_node-Shrinks :
      (f : FileRef)
      → ((i : ℕ) → (node_at s f).f_direct i ≡ 0 → g.f_direct i ≡ 0)
      → g.f_indirect ≡ (node_at s f).f_indirect
      → Shrinks f s (with_node f g s)
  with_node-Shrinks f zeros same = record {
    same_size = size f;
    alive = alive f;
    still_free = λ j h. block_is_free-with_node f j ∙ h;
    cleared = λ i h. rw (node_at-with_node f) (zeros i h);
    same_indirect = rw (node_at-with_node f) same;
  }
    where
      size : (f : FileRef) → (with_node f g s).nblocks ≡ s.nblocks
      size root = refl
      size (node b j) = refl

      alive : (f : FileRef) → Lives s f → Lives (with_node f g s) f
      alive root l = tt
      alive (node b j) l = l

module _ (f : FileRef) where
  -- A word of an indirect block is no part of the node.
  word-Shrinks : (s : Fs) (b i : ℕ) → Shrinks f s (with_word (indirect b i) 0 s)
  unfolding block_is_free
  word-Shrinks s b i = record {
    same_size = refl;
    alive = alive f;
    still_free = λ j h. h;
    cleared = λ j h. rw (words_apart s f b i 0) h;
    same_indirect = ap (λ (v : File). v.f_indirect) (words_apart s f b i 0);
  }
    where
      alive : (f : FileRef) → Lives s f → Lives (with_word (indirect b i) 0 s) f
      alive root l = tt
      alive (node c j) l = l

  -- What clearing a block behind the direct ones does to the node.
  abbrev pub Spared : Fs → Fs → Type 0
  Spared s t = Shrinks f s t × ((i : ℕ) → (node_at t f).f_direct i ≡ (node_at s f).f_direct i)

module _ (f : FileRef) (n : ℕ) where
  -- The block `bno` of the file is cleared, and no other.
  abbrev pub Cleared : ℕ → Fs → Fs → Type 0
  Cleared bno s t =
      Shrinks f s t
      × ((i : ℕ) → i ≢ bno → (node_at t f).f_direct i ≡ (node_at s f).f_direct i)
      × (bno < ndirect
          → ((node_at t f).f_direct bno ≡ 0) × Released t n ((node_at s f).f_direct bno))

  abbrev pub drop_slot : Slot → Cmd Fs (Unit {0})
  drop_slot p s =
      (if word_at s p == 0 then skip else (free_block (word_at s p) >> store_slot p 0)) s

  wiped :
      (s t : Fs) (bno : ℕ)
      → Frees s n ((node_at s f).f_direct bno) t
      → Cleared bno s (with_word (direct f bno) 0 t)
  wiped s t bno h =
      let g : File = record (node_at t f) { f_direct = update (node_at t f).f_direct bno 0 } in
      let same = Frees-node_at s t f h.2 h.3 in
      (
        Shrinks-trans f s t (with_node f g t) (Frees-Shrinks f s t n _ h)
            (with_node-Shrinks g t f (λ i e. ground arith) refl),
        λ i ne. rw (node_at-with_node g t f, ← same) (ground arith),
        λ l. (
          rw (node_at-with_node g t f) (ground arith),
          λ ne in_range.
              block_is_free-with_node g t f ((node_at s f).f_direct bno) ∙ h.5 ne in_range,
        ),
      )

  pub drop_direct :
      (s : Fs) (bno : ℕ)
      → s.nblocks ≡ some n
      → Returns (λ _ t. Cleared bno s t) (drop_slot (direct f bno) s)
  drop_direct s bno size = elim (Bool-cases ((node_at s f).f_direct bno == 0)) [
    | inl z ↦
        rw z (Shrinks-refl f s, (λ i ne. refl), λ l. (ground arith, λ ne. absurd (ground arith)))
    | inr nz ↦ rw nz (
        Returns-bind (λ _ t. Frees s n ((node_at s f).f_direct bno) t) (λ _ t. Cleared bno s t)
          (free_block ((node_at s f).f_direct bno) s) _
          (free_block-Frees s n ((node_at s f).f_direct bno) size) (λ u t h. wiped s t bno h))
  ]

  pub drop_indirect :
      (s : Fs) (b i : ℕ)
      → s.nblocks ≡ some n
      → IfEnds (λ _ t. Spared f s t) (λ e t. ⊥) (drop_slot (indirect b i) s)
  drop_indirect s b i size = elim (Bool-cases ((s.cache b).words i == 0)) [
    | inl z ↦ rw z (Shrinks-refl f s, λ i. refl)
    | inr nz ↦ rw nz (
        IfEnds-bind (λ _ t. Frees s n ((s.cache b).words i) t) (λ _ t. Spared f s t) _
          (free_block ((s.cache b).words i) s) _
          (Returns-IfEnds _ _ (free_block ((s.cache b).words i) s)
            (free_block-Frees s n ((s.cache b).words i) size))
          (λ u t h. (
            Shrinks-trans f s t (with_word (indirect b i) 0 t) (Frees-Shrinks f s t n _ h)
                (word-Shrinks f t b i),
            λ j.
                ap (λ (v : File). v.f_direct j)
                  (words_apart t f b i 0 ∙ Frees-node_at s t f h.2 h.3),
          )))
  ]

pub read_block-Spared :
    (mem_alloc : Answer) (f : FileRef) (s : Fs) (b : ℕ)
    → Lives s f
    → IfEnds (λ _ t. Spared f s t) (λ e t. ⊥) (read_block mem_alloc b s)
unfolding block_is_free
read_block-Spared mem_alloc f s b l =
    IfEnds-mono (λ _ t. Frame s t × Readable t b × (t.bitmap ≡ s.bitmap)) _
      (read_block mem_alloc b s) (read_block-Readable mem_alloc b s)
      (λ u t (h, _, bits).
        let same = Frame-node_at s t f h l in
        (
          record {
            same_size = h.same_size;
            alive = λ _. Frame-Lives s t f h l;
            still_free = λ j free. rw (bits, h.same_size) free;
            cleared = λ i z. rw same z;
            same_indirect = rw same refl;
          },
          λ i. rw same refl,
        ))
