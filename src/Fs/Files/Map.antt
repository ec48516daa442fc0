-- ===== src/Fs/Files/Map.antt =====
-- `file_map_block` of fs/fs.c maps each block of a file once.
use buaa_os.Prelude.{
  ℕ, ◌<◌, ◌≤◌, ◌≡◌, ◌≢◌, ◌⊎◌, inl, inr, refl, Bool, true, false, arith, ltb, ◌==◌, Bool-cases, ap,
  ◌∙◌,
}
use buaa_os.Prelude.Outcome.{done, IfReturns, IfReturns-bind, IfEnds-IfReturns, ◌>>◌}
use buaa_os.Fs.{Fs, Answer, block_is_free, alloc_block, read_block}
use buaa_os.Fs.Blocks.Keep.{Frame, Keeps, alloc_block-Keeps}
use buaa_os.Fs.Data.{File, FileRef, root, node, ndirect, nindirect}
use buaa_os.Fs.Files.Read.{
  words_apart, Lives, Readable, Frame-Lives, Frame-node_at, Frame-Readable, read_block-Readable,
}
use buaa_os.Fs.Files.{
  node_at, with_node, Slot, direct, indirect, word_at, with_word, need_indirect, file_block_walk,
  fill_slot, file_map_block,
}

module _ (mem_alloc : Answer) where
  -- The slot is that of the file's block, and `file_block_walk` needs no allocation to find it.
  abbrev At : Fs → FileRef → ℕ → Slot → Type 0
  At s f n p =
      ((n < ndirect) × (p ≡ direct f n))
      ⊎ ((ndirect ≤ n)
          × (n < nindirect)
          × (p ≡ indirect (node_at s f).f_indirect n)
          × (((node_at s f).f_indirect == 0) ≡ false)
          × Readable s (node_at s f).f_indirect)

  walk_again :
      (s : Fs) (f : FileRef) (n : ℕ) (p : Slot) (alloc : Bool)
      → At s f n p
      → file_block_walk mem_alloc f n alloc s ≡ done p s
  unfolding file_block_walk read_block
  walk_again s f n p alloc (inl (low, e)) =
      let is_low : ltb n ndirect ≡ true = ground arith in rw (is_low, e)
  walk_again s f n p alloc (inr (high, low, e, used, (inside, there))) =
      let is_high : ltb n ndirect ≡ false = ground arith in
      let fits : ltb n nindirect ≡ true = ground arith in rw (is_high, fits, used, inside, there, e)

  -- The file's node lives on, with an indirect block.
  abbrev Linked : FileRef → Unit {0} → Fs → Type 0
  Linked f _ s' = Lives s' f × (((node_at s' f).f_indirect == 0) ≡ false)

  links :
      (t : Fs) (f : FileRef) (r : ℕ)
      → Lives t f
      → 3 ≤ r
      → Linked f tt (with_node f (record (node_at t f) { f_indirect = r }) t)
  links t root r l low = (tt, ground arith)
  links t (node b j) r l low = (l, ground arith)

  need_indirect-Linked :
      (s : Fs) (f : FileRef) → Lives s f → IfReturns (Linked f) (need_indirect mem_alloc f true s)
  unfolding need_indirect
  need_indirect-Linked s f l = elim (Bool-cases ((node_at s f).f_indirect == 0)) [
    | inr used ↦ rw used (l, used)
    | inl none_yet ↦ rw none_yet (
        IfReturns-bind (Keeps s) (Linked f) (alloc_block mem_alloc s) _
          (alloc_block-Keeps mem_alloc s) (λ r t (h, low). links t f r (Frame-Lives s t f h l) low))
  ]

  file_block_walk-At :
      (s : Fs) (f : FileRef) (n : ℕ)
      → Lives s f
      → IfReturns (λ p s'. Lives s' f × At s' f n p) (file_block_walk mem_alloc f n true s)
  unfolding file_block_walk
  file_block_walk-At s f n l = elim (Bool-cases (ltb n ndirect)) [
    | inl low ↦ let below : n < ndirect = ground arith in rw low (l, inl (below, refl))
    | inr high ↦ elim (Bool-cases (ltb n nindirect)) [
      | inr out ↦ rw (high, out) tt
      | inl inside ↦
          rw (high, inside)
            (IfReturns-bind (Linked f) _ (need_indirect mem_alloc f true s) _
              (need_indirect-Linked s f l)
              (λ u t (alive, linked).
                reads_on t (node_at t f).f_indirect refl alive linked (ground arith)
                  (ground arith)))
    ]
  ]
    where
      reads_on :
          (t : Fs) (b : ℕ)
          → (node_at t f).f_indirect ≡ b
          → Lives t f
          → ((node_at t f).f_indirect == 0) ≡ false
          → ndirect ≤ n
          → n < nindirect
          → IfReturns
              (λ p s'. Lives s' f × At s' f n p)
              ((read_block mem_alloc b >> λ s'. done (indirect b n) s') t)
      reads_on t b at alive linked high inside =
          IfReturns-bind (λ _ s'. Frame t s' × Readable s' b × (s'.bitmap ≡ t.bitmap))
            (λ p s'. Lives s' f × At s' f n p) (read_block mem_alloc b t) _
            (IfEnds-IfReturns _ _ (read_block mem_alloc b t) (read_block-Readable mem_alloc b t))
            (λ u t' (h, readable, _).
              let same : (node_at t' f).f_indirect ≡ b =
                ap (λ (v : File). v.f_indirect) (Frame-node_at t t' f h alive) ∙ at in
              (
                Frame-Lives t t' f h alive,
                inr (high, inside, rw same, rw (same, ← at) linked, rw same readable),
              ))

  Frame-At :
      (s s' : Fs) (f : FileRef) (n : ℕ) (p : Slot)
      → Frame s s'
      → Lives s f
      → At s f n p
      → At s' f n p
  Frame-At s s' f n p h l (inl low) = inl low
  Frame-At s s' f n p h l (inr (high, inside, e, used, readable)) =
      rw (Frame-node_at s s' f h l) (inr (high, inside, e, used, Frame-Readable s s' _ h readable))

  stored :
      (t : Fs) (f : FileRef) (n r : ℕ) (p : Slot)
      → At t f n p
      → r ≢ 0
      → At (with_word p r t) f n p × (word_at (with_word p r t) p ≢ 0)
  unfolding block_is_free
  stored t root n r p (inl (low, e)) ne = rw e (inl (low, refl), ground arith)
  stored t (node b j) n r p (inl (low, e)) ne = rw e (inl (low, refl), ground arith)
  stored t f n r p (inr (high, inside, e, used, readable)) ne =
      rw (e, words_apart t f (node_at t f).f_indirect n r)
        (inr (high, inside, refl, used, readable), ground arith)

  fill_slot-At :
      (s : Fs) (f : FileRef) (n : ℕ) (p : Slot)
      → Lives s f
      → At s f n p
      → IfReturns (λ _ s'. At s' f n p × (word_at s' p ≢ 0)) (fill_slot mem_alloc p true s)
  unfolding fill_slot
  fill_slot-At s f n p l at = elim (Bool-cases (word_at s p == 0)) [
    | inr there ↦ rw there (at, ground arith)
    | inl hole ↦ rw hole (
        IfReturns-bind (Keeps s) (λ _ s'. At s' f n p × (word_at s' p ≢ 0))
          (alloc_block mem_alloc s) _ (alloc_block-Keeps mem_alloc s)
          (λ r t (h, low). stored t f n r p (Frame-At s t f n p h l at) (ground arith)))
  ]

  -- The block is not block 0, and the next calls give it again and change nothing.
  abbrev pub Again : FileRef → ℕ → ℕ → Fs → Type 0
  Again f n d s' =
      (d ≢ 0)
      × (file_map_block mem_alloc f n false s' ≡ done d s')
      × (file_map_block mem_alloc f n true s' ≡ done d s')

  -- A file whose node is in the cache: if `file_map_block` with `alloc` gives a block, it is not block 0,
  -- and a second call, with or without `alloc`, gives the same block and changes nothing.
  pub file_map_block-Again :
      (s : Fs) (f : FileRef) (n : ℕ)
      → Lives s f
      → IfReturns (Again f n) (file_map_block mem_alloc f n true s)
  unfolding file_map_block fill_slot
  file_map_block-Again s f n l =
      IfReturns-bind (λ p s'. Lives s' f × At s' f n p) (Again f n)
        (file_block_walk mem_alloc f n true s) _ (file_block_walk-At s f n l)
        (λ p t (alive, at).
          IfReturns-bind (λ _ s'. At s' f n p × (word_at s' p ≢ 0)) (Again f n)
            (fill_slot mem_alloc p true t) _ (fill_slot-At t f n p alive at)
            (λ u t' (at', ne).
              let there : (word_at t' p == 0) ≡ false = ground arith in
              (
                ne,
                rw (walk_again t' f n p false at', there),
                rw (walk_again t' f n p true at', there),
              )))
