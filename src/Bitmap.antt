-- ===== src/Bitmap.antt =====
-- Bitmaps of 32-bit words, as the kernel keeps them for ASIDs (kern/env.c) and the file server for
-- blocks (fs/fs.c): bit `i % 32` of word `i / 32` stands for `i`.
use buaa_os.Prelude.{
  ℕ, zero, suc, ◌-◌, ◌/◌, ◌%◌, ◌^◌, ◌<◌, bit_or, bit_and, ◌≡◌, refl, ap, ◌∙◌, inl, inr, Bool, true,
  not, ◌&&◌, ◌||◌, arith, ◌==◌, if◌then◌else◌, update, Bool-cases,
}
use buaa_os.Prelude.Bits.{bit, bit-bit_or, bit-bit_and}

abbrev pub Bitmap : Type 0
Bitmap = ℕ → ℕ

-- `bitmap[i / 32] & (1 << (i % 32))`
unfoldable pub test : Bitmap → ℕ → Bool
test b i = bit (i % 32) (b (i / 32))

-- `bitmap[i / 32] |= 1 << (i % 32)`
pub mark : Bitmap → ℕ → Bitmap
mark b i = update b (i / 32) (bit_or (b (i / 32)) (2 ^ (i % 32)))

-- `bitmap[i / 32] &= ~(1 << (i % 32))`, with the complement of 32 bits.
pub unmark : Bitmap → ℕ → Bitmap
unmark b i = update b (i / 32) (bit_and (b (i / 32)) (2 ^ 32 - 1 - 2 ^ (i % 32)))

-- The masks of all positions in a word, by evaluation.
unfoldable pub every : (ℕ → Bool) → ℕ → Bool
every p zero = true
every p (suc n) = every p n && p n

pub every-at : (p : ℕ → Bool) (x n : ℕ) → x < n → every p n ≡ true → p x ≡ true
unfolding every
every-at p x zero small all = absurd (omega arith)
every-at p x (suc n) small all = ground (arith, every-at p x n)

abbrev iff : Bool → Bool → Bool
iff a b = if a then b else not b

iff_eq : (a b : Bool) → iff a b ≡ true → a ≡ b
iff_eq a b h = ground arith

masks :
    every
      (λ i.
        every
          (λ j. iff (bit j (2 ^ i)) (j == i) && iff (bit j (2 ^ 32 - 1 - 2 ^ i)) (not (j == i)))
          32)
      32
    ≡ true
unfolding every
masks = refl

module _ (i j : ℕ) (hi : i < 32) (hj : j < 32) where
  mask_at : (iff (bit j (2 ^ i)) (j == i) && iff (bit j (2 ^ 32 - 1 - 2 ^ i)) (not (j == i))) ≡ true
  mask_at = every-at _ j 32 hj (every-at _ i 32 hi masks)

  set_mask : bit j (2 ^ i) ≡ (j == i)
  set_mask = iff_eq _ _ (ground (arith, mask_at))

  clear_mask : bit j (2 ^ 32 - 1 - 2 ^ i) ≡ not (j == i)
  clear_mask = iff_eq _ _ (ground (arith, mask_at))

-- Setting a bit sets that bit, and clearing it clears it; no other bit changes.
pub test-mark : (b : Bitmap) (i j : ℕ) → test (mark b i) j ≡ ((j == i) || test b j)
unfolding test mark
test-mark b i j = elim (Bool-cases (j / 32 == i / 32)) [
  | inl same ↦
      rw (same, bit-bit_or, set_mask (i % 32) (j % 32) (omega arith) (omega arith)) (ground arith)
  | inr other ↦ rw other (ground arith)
]

pub test-unmark : (b : Bitmap) (i j : ℕ) → test (unmark b i) j ≡ (not (j == i) && test b j)
unfolding test unmark
test-unmark b i j = elim (Bool-cases (j / 32 == i / 32)) [
  | inl same ↦
      rw (same, bit-bit_and, clear_mask (i % 32) (j % 32) (omega arith) (omega arith))
        (ground arith)
  | inr other ↦ rw other (ground arith)
]

-- A bit is tested in its word alone.
pub test-same : (b c : Bitmap) (i : ℕ) → b (i / 32) ≡ c (i / 32) → test b i ≡ test c i
unfolding test
test-same b c i e = ap (bit (i % 32)) e

all_ones : every (λ k. bit k (2 ^ 32 - 1)) 32 ≡ true
unfolding every
all_ones = refl

-- The bits of a word of ones.
pub ones_lem : (b : Bitmap) (i : ℕ) → b (i / 32) ≡ 2 ^ 32 - 1 → test b i ≡ true
unfolding test
ones_lem b i e =
    ap (bit (i % 32)) e ∙ every-at (λ k. bit k (2 ^ 32 - 1)) (i % 32) 32 (omega arith) all_ones
