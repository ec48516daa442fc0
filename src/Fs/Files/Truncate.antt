-- ===== src/Fs/Files/Truncate.antt =====
-- `file_truncate` of fs/fs.c gives the blocks of the file back.
use buaa_os.Prelude.{
  ℕ, ◌+◌, ◌-◌, ◌/◌, ◌<◌, ◌≤◌, ◌≡◌, inl, inr, refl, Bool, true, false, not, some, arith, leb, ◌==◌,
  if◌then◌else◌, Bool-cases, subst, ◌∙◌,
}
use buaa_os.Prelude.Outcome.{
  done, IfReturns, IfReturns-bind, Returns, Returns-IfEnds, Returns-and, Returns-bind,
  IfEnds-IfReturns, and_then, skip,
}
use buaa_os.Fs.{Fs, Answer, block_is_free, free_block}
use buaa_os.Fs.Data.{File, FileRef, by2blk, ndirect}
use buaa_os.Fs.Files.Read.{Lives}
use buaa_os.Fs.Files.{node_at, with_node, clear_blocks, clear_indirect, file_truncate}
use buaa_os.Fs.Files.Shrink.{
  Released, Frees, free_block-Frees, Frees-node_at, node_at-with_node, block_is_free-with_node,
}
use buaa_os.Fs.Files.Clear.{Emptied, clear_blocks-Emptied, Calm, clear_blocks-Calm}

module _ (mem_alloc : Answer) (f : FileRef) (n : ℕ) where
  -- The block of indirect addresses is given back, if it is not `needed`.
  record Unlinked (needed : Bool) (s t : Fs) : Type 0 where
    pub unlinked :
        needed ≡ false → ((node_at t f).f_indirect ≡ 0) × Released t n (node_at s f).f_indirect
    pub as_free : (j : ℕ) → block_is_free s j ≡ true → block_is_free t j ≡ true
    pub same_direct : (i : ℕ) → (node_at t f).f_direct i ≡ (node_at s f).f_direct i

  unlink :
      (s t : Fs)
      → Frees s n (node_at s f).f_indirect t
      → Unlinked false s (with_node f (record (node_at t f) { f_indirect = 0 }) t)
  unlink s t h =
      let g : File = record (node_at t f) { f_indirect = 0 } in
      record {
        unlinked = λ _. (
          rw (node_at-with_node g t f) refl,
          λ ne in_range. block_is_free-with_node g t f (node_at s f).f_indirect ∙ h.5 ne in_range,
        );
        as_free = λ j free. block_is_free-with_node g t f j ∙ h.4 j free;
        same_direct = λ i. rw (node_at-with_node g t f, Frees-node_at s t f h.2 h.3) refl;
      }

  clear_indirect-Unlinked :
      (s : Fs)
      → s.nblocks ≡ some n
      → IfReturns (λ _ t. Unlinked false s t) (clear_indirect mem_alloc f s)
  unfolding clear_indirect
  clear_indirect-Unlinked s size = elim (Bool-cases ((node_at s f).f_indirect == 0)) [
    | inl z ↦ rw z (record {
      unlinked = λ _. (ground arith, λ ne. absurd (ground arith));
      as_free = λ j h. h;
      same_direct = λ i. refl;
    })
    | inr nz ↦ rw nz (
        IfReturns-bind (λ _ t. Frees s n (node_at s f).f_indirect t) (λ _ t. Unlinked false s t)
          (free_block (node_at s f).f_indirect s) _
          (IfEnds-IfReturns (λ _ t. Frees s n (node_at s f).f_indirect t) (λ e t. ⊥)
            (free_block (node_at s f).f_indirect s)
            (Returns-IfEnds _ _ (free_block (node_at s f).f_indirect s)
              (free_block-Frees s n (node_at s f).f_indirect size)))
          (λ u t h. unlink s t h))
  ]

  -- The number of blocks that are left.
  abbrev pub new_blocks : ℕ → ℕ
  new_blocks newsize = if newsize == 0 then 0 else newsize / by2blk + 1

  abbrev pub old_blocks : Fs → ℕ
  old_blocks s = (node_at s f).f_size / by2blk + 1

  -- The file is cut to `newsize` bytes: it is of that size, the direct blocks that are left are as they were, the
  -- others are out of the node and free, and so is the block of indirect addresses when no block needs it.
  pub record Truncated (newsize : ℕ) (s t : Fs) : Type 0 where
    pub cut : (node_at t f).f_size ≡ newsize
    pub left :
        (i : ℕ) → i < new_blocks newsize → (node_at t f).f_direct i ≡ (node_at s f).f_direct i
    pub out :
        (i : ℕ)
        → new_blocks newsize ≤ i
        → i < old_blocks s
        → i < ndirect
        → ((node_at t f).f_direct i ≡ 0) × Released t n ((node_at s f).f_direct i)
    pub no_indirect :
        new_blocks newsize ≤ ndirect
        → ((node_at t f).f_indirect ≡ 0) × Released t n (node_at s f).f_indirect

  sized :
      (newsize : ℕ) (s t u : Fs)
      → Emptied mem_alloc f n
          (new_blocks newsize)
          (new_blocks newsize + (old_blocks s - new_blocks newsize))
          s
          t
      → Unlinked (not (leb (new_blocks newsize) ndirect)) t u
      → Truncated newsize s (with_node f (record (node_at u f) { f_size = newsize }) u)
  sized newsize s t u h k =
      let g : File = record (node_at u f) { f_size = newsize } in
      let at = node_at-with_node g u f in
      let released : (b : ℕ) → Released t n b → Released (with_node f g u) n b =
        λ b r ne in_range. block_is_free-with_node g u f b ∙ k.as_free b (r ne in_range) in
      record {
        cut = rw at refl;
        left = λ i low. rw at (k.same_direct i ∙ h.kept i low);
        out = λ i low high few. (
          rw at (k.same_direct i ∙ h.zeroed i low (omega arith) few),
          released _ (h.released i low (omega arith) few),
        );
        no_indirect = λ few.
            let gone = k.unlinked (ground arith) in
            (
              rw at gone.0,
              λ ne in_range.
                  block_is_free-with_node g u f _
                  ∙ subst (Released u n) h.shrinks.same_indirect gone.1 ne in_range,
            );
      }

  last_step :
      (newsize : ℕ) (t : Fs)
      → t.nblocks ≡ some n
      → IfReturns
          (λ _ u. Unlinked (not (leb (new_blocks newsize) ndirect)) t u)
          ((if leb (new_blocks newsize) ndirect then clear_indirect mem_alloc f else skip) t)
  last_step newsize t size = elim (Bool-cases (leb (new_blocks newsize) ndirect)) [
    | inl few ↦ rw few (clear_indirect-Unlinked t size)
    | inr many ↦ rw many (record {
      unlinked = λ e. absurd (ground arith);
      as_free = λ j h. h;
      same_direct = λ i. refl;
    })
  ]

  -- If `file_truncate` returns, in a state with a superblock and the block of the file's node in the cache, then
  -- the file has its new size, the direct blocks that are left are as they were, and every direct block behind them
  -- is taken out of the node and is free in the bitmap. The block of indirect addresses is given back as well when
  -- ten blocks are enough.
  pub file_truncate-Truncated :
      (newsize : ℕ) (s : Fs)
      → s.nblocks ≡ some n
      → Lives s f
      → IfReturns (λ _ t. Truncated newsize s t) (file_truncate mem_alloc f newsize s)
  unfolding file_truncate
  file_truncate-Truncated newsize s size l =
      let old = old_blocks s in
      let new = new_blocks newsize in
      IfReturns-bind (λ _ t. Emptied mem_alloc f n new (new + (old - new)) s t)
        (λ _ t. Truncated newsize s t) (clear_blocks mem_alloc (old - new) new f s) _
        (clear_blocks-Emptied mem_alloc f n (old - new) new s size l)
        (λ x t h.
          IfReturns-bind (λ _ u. Unlinked (not (leb new ndirect)) t u)
            (λ _ u. Truncated newsize s u)
            ((if leb new ndirect then clear_indirect mem_alloc f else skip) t) _
            (last_step newsize t (h.shrinks.same_size ∙ size)) (λ y u k. sized newsize s t u h k))

  last_step-returns :
      (newsize : ℕ) (t : Fs)
      → Calm mem_alloc f n t
      → Returns
          (λ (x : Unit {0}) (u : Fs). Unit {0})
          (and_then
            ((if leb (new_blocks newsize) ndirect then clear_indirect mem_alloc f else skip) t)
            (λ _ u. done tt (with_node f (record (node_at u f) { f_size = newsize }) u)))
  unfolding clear_indirect
  last_step-returns newsize t (size, flat) = elim (Bool-cases (leb (new_blocks newsize) ndirect)) [
    | inr many ↦ rw many tt
    | inl few ↦
        let none_yet : ((node_at t f).f_indirect == 0) ≡ true = ground arith in
        rw (few, none_yet) tt
  ]

  -- A file without a block of indirect addresses, in a state with a superblock and the block of the file's node in
  -- the cache: `file_truncate` returns, to any size. The file has then its new size, the direct blocks that are left
  -- are as they were; those behind them, up to the last one of the old size, are out of the node, and each of them that
  -- lies on the disk and is not block 0 is free in the bitmap.
  pub file_truncate-returns :
      (newsize : ℕ) (s : Fs)
      → s.nblocks ≡ some n
      → Lives s f
      → (node_at s f).f_indirect ≡ 0
      → Returns (λ _ t. Truncated newsize s t) (file_truncate mem_alloc f newsize s)
  unfolding file_truncate
  file_truncate-returns newsize s size l flat =
      Returns-and (λ _ t. Truncated newsize s t) (λ _ t. Unit {0})
        (file_truncate mem_alloc f newsize s) (file_truncate-Truncated newsize s size l)
        (Returns-bind (λ _ t. Calm mem_alloc f n t) _
          (clear_blocks mem_alloc (old_blocks s - new_blocks newsize) (new_blocks newsize) f s) _
          (clear_blocks-Calm mem_alloc f n (old_blocks s - new_blocks newsize) (new_blocks newsize)
            s (size, flat))
          (λ x t h. last_step-returns newsize t h))
