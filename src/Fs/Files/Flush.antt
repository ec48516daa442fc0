-- ===== src/Fs/Files/Flush.antt =====
-- Writing a file, or all of the disk, back (fs/fs.c): what is not there is passed over.
use buaa_os.Prelude.{
  ℕ, zero, suc, ◌+◌, ◌/◌, inl, inr, false, ◌&&◌, Option, none, some, Bool-cases, Option-cases,
}
use buaa_os.Prelude.Outcome.{Outcome, done, fail, panic, IfEnds, IfEnds-bind}
use buaa_os.Fs.{Fs, Answer, write_block}
use buaa_os.Fs.Data.{FileRef, by2blk}
use buaa_os.Fs.Files.{
  node_at, file_map_block, flush_block, flush_blocks, file_flush, flush_dir, file_close,
  sync_blocks, fs_sync,
}

-- It returns or halts.
abbrev pub NoError {ℓ} : {A : Type ℓ} → Outcome Fs A → Type 0
NoError r = IfEnds (λ _ _. Unit {0}) (λ _ _. ⊥) r

write_block-NoError : (i : ℕ) (s : Fs) → NoError (write_block i s)
unfolding write_block
write_block-NoError i s = elim (Bool-cases (s.mapped i)) [
  | inl there ↦ rw there tt
  | inr away ↦ rw away tt
]

flush_block-NoError : (mem_alloc : Answer) (r : Outcome Fs ℕ) → NoError (flush_block mem_alloc r)
unfolding flush_block
flush_block-NoError mem_alloc (fail e s) = tt
flush_block-NoError mem_alloc panic = tt
flush_block-NoError mem_alloc (done d s) = elim (Bool-cases (s.mapped d && s.dirty d)) [
  | inl dirty ↦ rw dirty (write_block-NoError d s)
  | inr clean ↦ rw clean tt
]

sync_blocks-NoError : (rounds i : ℕ) (s : Fs) → NoError (sync_blocks rounds i s)
unfolding sync_blocks
sync_blocks-NoError zero i s = tt
sync_blocks-NoError (suc rounds) i s = elim (Bool-cases (s.mapped i && s.dirty i)) [
  | inl dirty ↦ rw dirty (
      IfEnds-bind (λ _ _. Unit {0}) _ _ (write_block i s) _ (write_block-NoError i s)
        (λ u t _. sync_blocks-NoError rounds (i + 1) t))
  | inr clean ↦ rw clean (sync_blocks-NoError rounds (i + 1) s)
]

pub fs_sync-NoError : (s : Fs) → NoError (fs_sync s)
unfolding fs_sync
fs_sync-NoError s = elim (Option-cases s.nblocks) [
  | inl e ↦ rw e tt
  | inr (n, e) ↦ rw e (sync_blocks-NoError n 0 (record s { nblocks = some n }))
]

module _ (mem_alloc : Answer) where
  flush_blocks-NoError :
      (rounds i : ℕ) (f : FileRef) (s : Fs) → NoError (flush_blocks mem_alloc rounds i f s)
  unfolding flush_blocks
  flush_blocks-NoError zero i f s = tt
  flush_blocks-NoError (suc rounds) i f s =
      IfEnds-bind (λ _ _. Unit {0}) _ _
        (flush_block mem_alloc (file_map_block mem_alloc f i false s)) _
        (flush_block-NoError mem_alloc (file_map_block mem_alloc f i false s))
        (λ u t _. flush_blocks-NoError rounds (i + 1) f t)

  file_flush-NoError : (f : FileRef) (s : Fs) → NoError (file_flush mem_alloc f s)
  unfolding file_flush
  file_flush-NoError f s = flush_blocks-NoError ((node_at s f).f_size / by2blk + 1) 0 f s

  flush_dir-NoError : (d : Option FileRef) (s : Fs) → NoError (flush_dir mem_alloc d s)
  unfolding flush_dir
  flush_dir-NoError none s = tt
  flush_dir-NoError (some d) s = file_flush-NoError d s

  pub file_close-NoError : (f : FileRef) (s : Fs) → NoError (file_close mem_alloc f s)
  unfolding file_close
  file_close-NoError f s =
      IfEnds-bind (λ _ _. Unit {0}) _ _ (file_flush mem_alloc f s) _ (file_flush-NoError f s)
        (λ u t _. flush_dir-NoError (node_at t f).f_dir t)
