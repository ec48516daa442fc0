-- ===== src/Memory/Entry.antt =====
-- The words that `page_insert` and `pgdir_walk` write into page tables (kern/pmap.c).
use buaa_os.Prelude.{ℕ, ◌^◌, ◌<◌, bit_or, ◌≡◌, refl, true, false, arith}
use buaa_os.Prelude.Bits.{bit, bit_or-div, bit-bit_or, bit_or-zero}
use buaa_os.Memory.{ppn_of, pte_addr, page2pa, valid, entry, pte_v}
use native.Mathlib.Nat.{le_refl}

pub entry-valid : (pp perm : ℕ) → valid (entry pp perm) ≡ true
unfolding entry
entry-valid pp perm = ground (arith, bit-bit_or 9 (bit_or (page2pa pp) perm) pte_v)

-- The page comes back out of an entry whose permission fits the low twelve bits.
pub ppn_of-entry : (pp perm : ℕ) → pp < 2 ^ 20 → perm < 2 ^ 12 → ppn_of (entry pp perm) ≡ pp
unfolding entry
ppn_of-entry pp perm h k = ground (
  arith,
  bit_or-div 12 (bit_or (page2pa pp) perm) pte_v,
  bit_or-div 12 (page2pa pp) perm,
  bit_or-zero pp pp (le_refl pp),
)

-- An entry is writable, global or shared exactly when its permission says so.
pub entry-perm :
    (pp perm : ℕ)
    → (bit 10 (entry pp perm) ≡ bit 10 perm)
      × (bit 8 (entry pp perm) ≡ bit 8 perm)
      × (bit 2 (entry pp perm) ≡ bit 2 perm)
      × (bit 0 (entry pp perm) ≡ bit 0 perm)
unfolding entry
entry-perm pp perm = (
  at 10 (ground arith) refl,
  at 8 (ground arith) refl,
  at 2 (ground arith) refl,
  at 0 (ground arith) refl,
)
  where
    at :
        (k : ℕ)
        → bit k (page2pa pp) ≡ false
        → bit k pte_v ≡ false
        → bit k (entry pp perm) ≡ bit k perm
    at k low flag =
        ground
          (arith, bit-bit_or k (bit_or (page2pa pp) perm) pte_v, bit-bit_or k (page2pa pp) perm)

pub ppn_of-pte_addr : (pte : ℕ) → ppn_of (pte_addr pte) ≡ ppn_of pte
ppn_of-pte_addr pte = omega arith

-- Two entries for one page, the second in use.
abbrev pub SamePage : ℕ → ℕ → Type 0
SamePage x y = (valid y ≡ true) × (ppn_of y ≡ ppn_of x)

pub entry-SamePage :
    (pte perm : ℕ) → pte < 2 ^ 32 → perm < 2 ^ 12 → SamePage pte (entry (ppn_of pte) perm)
entry-SamePage pte perm word small =
    (entry-valid (ppn_of pte) perm, ppn_of-entry (ppn_of pte) perm (omega arith) small)
