-- ===== src/Fs/Files/Read.antt =====
-- `read_block` of fs/fs.c leaves the block in the cache, and the others as they are.
use buaa_os.Prelude.{
  ℕ, ◌≡◌, inl, inr, refl, true, false, ◌&&◌, ◌||◌, arith, update, Bool-cases, Option-cases, ap,
}
use buaa_os.Prelude.Outcome.{IfEnds}
use buaa_os.Fs.{Fs, Answer, beyond, block_is_free, read_block, read_disk}
use buaa_os.Fs.Blocks.Keep.{Frame}
use buaa_os.Fs.Data.{FileRef, root, node, Block}
use buaa_os.Fs.Files.{node_at, indirect, with_word}

-- The block of the file's node is in the cache.
abbrev pub Lives : Fs → FileRef → Type 0
Lives s root = Unit {0}
Lives s (node b j) = s.mapped b ≡ true

-- `read_block` of the block has nothing to do.
abbrev pub Readable : Fs → ℕ → Type 0
Readable s b =
    ((beyond s.nblocks b || (s.loaded && block_is_free s b)) ≡ false) × (s.mapped b ≡ true)

pub Frame-Lives : (s s' : Fs) (f : FileRef) → Frame s s' → Lives s f → Lives s' f
Frame-Lives s s' root h l = tt
Frame-Lives s s' (node b j) h l = h.still_mapped b l

pub Frame-node_at : (s s' : Fs) (f : FileRef) → Frame s s' → Lives s f → node_at s' f ≡ node_at s f
Frame-node_at s s' root h l = h.same_root
Frame-node_at s s' (node b j) h l = ap (λ (c : Block). c.nodes j) (h.same_block b l)

pub Frame-Readable : (s s' : Fs) (b : ℕ) → Frame s s' → Readable s b → Readable s' b
Frame-Readable s s' b h (inside, there) =
    (ground (arith, h.same_size, h.same_loaded, h.still_used b), h.still_mapped b there)

pub read_block-Readable :
    (mem_alloc : Answer) (b : ℕ) (s : Fs)
    → IfEnds
        (λ _ s'. Frame s s' × Readable s' b × (s'.bitmap ≡ s.bitmap))
        (λ e s'. ⊥)
        (read_block mem_alloc b s)
unfolding read_block block_is_free
read_block-Readable mem_alloc b s =
    elim (Bool-cases (beyond s.nblocks b || (s.loaded && block_is_free s b))) [
      | inl out ↦ rw out tt
      | inr inside ↦ elim (Bool-cases (s.mapped b)) [
        | inl there ↦ rw (inside, there) (same, (inside, there), refl)
        | inr away ↦ elim (Option-cases (mem_alloc s b)) [
          | inr (e, at) ↦ rw (inside, away, at, read_disk) tt
          | inl at ↦
              rw (inside, away, at, read_disk) (loaded_frame away, (inside, ground arith), refl)
        ]
      ]
    ]
  where
    same : Frame s s
    same = record {
      same_size = refl;
      same_loaded = refl;
      same_root = refl;
      still_mapped = λ j h. h;
      same_block = λ j h. refl;
      still_used = λ j h. h;
    }

    loaded_frame :
        s.mapped b ≡ false
        → Frame s (record s {
          mapped = update s.mapped b true;
          dirty = update s.dirty b false;
          cache = update s.cache b (s.disk b);
        })
    loaded_frame away = record {
      same_size = refl;
      same_loaded = refl;
      same_root = refl;
      still_mapped = λ j h. ground arith;
      same_block = λ j h. ground arith;
      still_used = λ j h. h;
    }

-- A write of a word of an indirect block changes no node.
pub words_apart :
    (t : Fs) (f : FileRef) (c n r : ℕ) → node_at (with_word (indirect c n) r t) f ≡ node_at t f
words_apart t root c n r = refl
words_apart t (node b j) c n r = ground arith
