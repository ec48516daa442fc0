-- ===== src/Fs/Files/Clear.antt =====
-- `file_clear_block` and the loop of it in `file_truncate` (fs/fs.c).
use buaa_os.Prelude.{
  ℕ, zero, suc, ◌+◌, ◌<◌, ◌≤◌, ◌≡◌, ◌⊎◌, inl, inr, refl, true, false, some, arith, ltb, ◌==◌,
  Bool-cases, subst, ◌∙◌, ==_eq,
}
use buaa_os.Prelude.Outcome.{
  IfReturns, IfReturns-bind, Returns, Returns-IfEnds, Returns-ignoring, Returns-bind, Returns-mono,
  IfReturns-mono, IfEnds, IfEnds-bind, IfEnds-mono, IfEnds-weaken, IfEnds-both, IfEnds-ignoring,
  ignore,
}
use buaa_os.Fs.{Fs, Answer, read_block}
use buaa_os.Fs.Data.{FileRef, ndirect, nindirect}
use buaa_os.Fs.Files.Read.{Lives}
use buaa_os.Fs.Files.{
  node_at, Slot, direct, indirect, need_indirect, file_block_walk, file_clear_block, clear_blocks,
}
use buaa_os.Fs.Files.Shrink.{
  Released, Shrinks, Shrinks-refl, Shrinks-trans, Cleared, Spared, drop_slot, drop_direct,
  drop_indirect, read_block-Spared,
}

-- Which word `file_block_walk` finds: nothing is done for a direct one.
module _ (f : FileRef) (bno : ℕ) (s : Fs) where
  abbrev Found : Slot → Fs → Type 0
  Found p t =
      ((p ≡ direct f bno) × (bno < ndirect) × (t ≡ s))
      ⊎ ((b : ℕ) × (p ≡ indirect b bno) × (ndirect ≤ bno))

  spared : Spared f s s
  spared = (Shrinks-refl f s, λ i. refl)

module _ (mem_alloc : Answer) (f : FileRef) (s : Fs) (bno : ℕ) where
  file_block_walk-Found :
      Lives s f
      → IfEnds
          (λ p t. Spared f s t × Found f bno s p t)
          (λ e t. Spared f s t × (ndirect ≤ bno))
          (file_block_walk mem_alloc f bno false s)
  unfolding file_block_walk need_indirect
  file_block_walk-Found l = elim (Bool-cases (ltb bno ndirect)) [
    | inl low ↦ rw low (spared f bno s, inl (refl, ground arith, refl))
    | inr high ↦ elim (Bool-cases (ltb bno nindirect)) [
      | inr out ↦ rw (high, out) (spared f bno s, ground arith)
      | inl inside ↦ elim (Bool-cases ((node_at s f).f_indirect == 0)) [
        | inl none_yet ↦ rw (high, inside, none_yet) (spared f bno s, ground arith)
        | inr used ↦
            rw (high, inside, used)
              (IfEnds-bind (λ _ t. Spared f s t) _ _
                (read_block mem_alloc (node_at s f).f_indirect s) _
                (IfEnds-weaken (λ _ t. Spared f s t) _
                  (read_block mem_alloc (node_at s f).f_indirect s)
                  (read_block-Spared mem_alloc f s (node_at s f).f_indirect l))
                (λ u t h. (h, inr ((node_at s f).f_indirect, refl, ground arith))))
      ]
    ]
  ]

module _ (mem_alloc : Answer) (f : FileRef) (n : ℕ) where
  Spared-Cleared : (s t : Fs) (bno : ℕ) → ndirect ≤ bno → Spared f s t → Cleared f n bno s t
  Spared-Cleared s t bno high (h, same) = (h, (λ i ne. same i), λ low. absurd (omega arith))

  drop-Found :
      (s t : Fs) (bno : ℕ) (p : Slot)
      → s.nblocks ≡ some n
      → Spared f s t
      → Found f bno s p t
      → IfEnds (λ _ u. Cleared f n bno s u) (λ e u. ⊥) (drop_slot f n p t)
  drop-Found s t bno p size sp (inl (e, low, same)) =
      rw (e, same)
        (Returns-IfEnds _ _ (drop_slot f n (direct f bno) s) (drop_direct f n s bno size))
  drop-Found s t bno p size (h, same) (inr (b, e, high)) = rw e (
      IfEnds-mono (λ _ v. Spared f t v) _ (drop_slot f n (indirect b bno) t)
        (drop_indirect f n t b bno (h.same_size ∙ size))
        (λ w v (k, same').
          Spared-Cleared s v bno high (Shrinks-trans f s t v h k, λ i. same' i ∙ same i)))

  clear_block :
      (s : Fs) (bno : ℕ)
      → s.nblocks ≡ some n
      → Lives s f
      → IfReturns (λ _ t. Cleared f n bno s t) (ignore (file_clear_block mem_alloc f bno) s)
  unfolding file_clear_block
  clear_block s bno size l =
      IfEnds-ignoring (λ t. Cleared f n bno s t) (file_clear_block mem_alloc f bno s)
        (IfEnds-bind (λ p t. Spared f s t × Found f bno s p t) _ _
          (file_block_walk mem_alloc f bno false s) _
          (IfEnds-both _ _ _ _ (file_block_walk mem_alloc f bno false s)
            (file_block_walk-Found mem_alloc f s bno l) (λ p t h. h)
            (λ e t h. Spared-Cleared s t bno h.1 h.0))
          (λ p t h. IfEnds-weaken _ _ (drop_slot f n p t) (drop-Found s t bno p size h.0 h.1)))

  -- The blocks of the file from `bno` to `limit` are cleared, and those before are as they were.
  pub record Emptied (bno limit : ℕ) (s t : Fs) : Type 0 where
    pub shrinks : Shrinks f s t
    pub zeroed : (i : ℕ) → bno ≤ i → i < limit → i < ndirect → (node_at t f).f_direct i ≡ 0
    pub released :
        (i : ℕ) → bno ≤ i → i < limit → i < ndirect → Released t n ((node_at s f).f_direct i)
    pub kept : (i : ℕ) → i < bno → (node_at t f).f_direct i ≡ (node_at s f).f_direct i

  Emptied-more :
      (s t u : Fs) (bno limit : ℕ)
      → Cleared f n bno s t
      → Emptied (bno + 1) limit t u
      → Emptied bno limit s u
  Emptied-more s t u bno limit (h, apart, this) k = record {
    shrinks = Shrinks-trans f s t u h k.shrinks;
    zeroed = λ i low high few. elim (Bool-cases (i == bno)) [
      | inl here ↦ k.shrinks.cleared i (rw (==_eq i bno here) (this (ground arith)).0)
      | inr later ↦ k.zeroed i (ground arith) high few
    ];
    released = λ i low high few. elim (Bool-cases (i == bno)) [
      | inl here ↦
          rw (==_eq i bno here)
            (λ ne in_range. k.shrinks.still_free _ ((this (ground arith)).1 ne in_range))
      | inr later ↦ rw (← apart i (ground arith)) (k.released i (ground arith) high few)
    ];
    kept = λ i low. k.kept i (omega arith) ∙ apart i (omega arith);
  }

  pub clear_blocks-Emptied :
      (rounds bno : ℕ) (s : Fs)
      → s.nblocks ≡ some n
      → Lives s f
      → IfReturns (λ _ t. Emptied bno (bno + rounds) s t) (clear_blocks mem_alloc rounds bno f s)
  unfolding clear_blocks
  clear_blocks-Emptied zero bno s size l = record {
    shrinks = Shrinks-refl f s;
    zeroed = λ i low high few. absurd (omega arith);
    released = λ i low high few. absurd (omega arith);
    kept = λ i low. refl;
  }
  clear_blocks-Emptied (suc rounds) bno s size l =
      IfReturns-bind (λ _ t. Cleared f n bno s t) (λ _ t. Emptied bno (bno + suc rounds) s t)
        (ignore (file_clear_block mem_alloc f bno) s) _ (clear_block s bno size l)
        (λ x t h.
          IfReturns-mono (λ _ u. Emptied (bno + 1) (bno + 1 + rounds) t u) _
            (clear_blocks mem_alloc rounds (bno + 1) f t)
            (clear_blocks-Emptied rounds (bno + 1) t (h.0.same_size ∙ size) (h.0.alive l))
            (λ y u k.
              Emptied-more s t u bno (bno + suc rounds) h
                (subst (λ m. Emptied (bno + 1) m t u) (omega arith) k)))

  -- Without a block of indirect addresses nothing is read, and no step halts.
  abbrev pub Calm : Fs → Type 0
  Calm t = (t.nblocks ≡ some n) × ((node_at t f).f_indirect ≡ 0)

  clear_block-Calm :
      (s : Fs) (bno : ℕ)
      → Calm s
      → Returns (λ _ t. Calm t) (ignore (file_clear_block mem_alloc f bno) s)
  unfolding file_clear_block file_block_walk need_indirect
  clear_block-Calm s bno (size, flat) = elim (Bool-cases (ltb bno ndirect)) [
    | inl low ↦ rw low (
        Returns-ignoring Calm (drop_slot f n (direct f bno) s) (
          Returns-mono (λ _ t. Cleared f n bno s t) _ (drop_slot f n (direct f bno) s)
            (drop_direct f n s bno size)
            (λ x t h. (h.0.same_size ∙ size, h.0.same_indirect ∙ flat))))
    | inr high ↦ elim (Bool-cases (ltb bno nindirect)) [
      | inr out ↦ rw (high, out) (size, flat)
      | inl inside ↦
          let none_yet : ((node_at s f).f_indirect == 0) ≡ true = ground arith in
          rw (high, inside, none_yet) (size, flat)
    ]
  ]

  pub clear_blocks-Calm :
      (rounds bno : ℕ) (s : Fs)
      → Calm s
      → Returns (λ _ t. Calm t) (clear_blocks mem_alloc rounds bno f s)
  unfolding clear_blocks
  clear_blocks-Calm zero bno s calm = calm
  clear_blocks-Calm (suc rounds) bno s calm =
      Returns-bind (λ _ t. Calm t) _ (ignore (file_clear_block mem_alloc f bno) s) _
        (clear_block-Calm s bno calm) (λ x t h. clear_blocks-Calm rounds (bno + 1) t h)
