-- ===== src/Bytes/Fill.antt =====
-- `memset` of lib/string.c fills.
use buaa_os.Prelude.{
  ℕ, zero, suc, ◌+◌, ◌/◌, ◌%◌, ◌^◌, ◌≤◌, ◌<◌, ◌≡◌, refl, Bool, true, not, ◌&&◌, arith, ltb, leb,
  ◌==◌, if◌then◌else◌, Bool-cases, inl, inr, subst, sym,
}
use buaa_os.Bitmap.{every, every-at}
use buaa_os.Memory.{u32}
use buaa_os.Bytes.{
  Bytes, Filler, word_of, fill_byte, fill_word, fill_aligned, fill_words, fill_bytes, fill_upto,
  memset,
}

-- The four bytes of the word, by evaluation.
abbrev all_bytes : ℕ → Bool
all_bytes b =
    (word_of b % 2 ^ 8 == b)
    && (word_of b / 2 ^ 8 % 2 ^ 8 == b)
    && (word_of b / 2 ^ 16 % 2 ^ 8 == b)
    && (word_of b / 2 ^ 24 % 2 ^ 8 == b)

all_words : every all_bytes 256 ≡ true
unfolding every
all_words = refl

module _ (m : Bytes) (dst byte n : ℕ) (small : byte < 256) (fits : dst + n + 4 < 2 ^ 32) where
  -- `k` bytes are filled.
  record After (k : ℕ) (c : Filler) : Type 0 where
    pub le : k ≤ n
    pub at_dst : c.0 ≡ dst + k
    pub holds : (j : ℕ) → c.1 j ≡ (if leb dst j && ltb j (dst + k) then byte else m j)

  abbrev Reaches : ℕ → Filler → Type 0
  Reaches k c = (l : ℕ) × (k ≤ l) × After l c

  fill_byte-After : (k : ℕ) (c : Filler) → After k c → k < n → After (k + 1) (fill_byte byte c)
  fill_byte-After k (d, b) a l = record {
    le = omega arith;
    at_dst = omega (arith, a.at_dst);
    holds = λ j. ground (arith, a.at_dst, a.holds j);
  }

  fill_word-After :
      (k : ℕ) (c : Filler) → After k c → k + 4 ≤ n → After (k + 4) (fill_word (word_of byte) c)
  fill_word-After k (d, b) a l = record {
    le = l;
    at_dst = omega (arith, a.at_dst);
    holds = λ j. next j;
  }
    where
      bytes : all_bytes byte ≡ true
      bytes = every-at all_bytes byte 256 small all_words

      first : word_of byte % 2 ^ 8 ≡ byte
      first = ground (arith, bytes)

      second : word_of byte / 2 ^ 8 % 2 ^ 8 ≡ byte
      second = ground (arith, bytes)

      third : word_of byte / 2 ^ 16 % 2 ^ 8 ≡ byte
      third = ground (arith, bytes)

      fourth : word_of byte / 2 ^ 24 % 2 ^ 8 ≡ byte
      fourth = ground (arith, bytes)

      next :
          (j : ℕ)
          → (fill_word (word_of byte) (d, b)).1 j
            ≡ (if leb dst j && ltb j (dst + (k + 4)) then byte else m j)
      next j = rw (first, second, third, fourth) (ground (arith, a.at_dst, a.holds j))

  fill_aligned-Reaches :
      (fuel k : ℕ) (c : Filler) → After k c → Reaches k (fill_aligned fuel (dst + n) byte c)
  unfolding fill_aligned
  fill_aligned-Reaches zero k c a = (k, omega arith, a)
  fill_aligned-Reaches (suc fuel) k c a =
      elim (Bool-cases (not (c.0 % 4 == 0) && ltb c.0 (dst + n))) [
        | inr stop ↦ rw stop (k, omega arith, a)
        | inl on ↦
            let (l, le, done) =
              fill_aligned-Reaches fuel (k + 1) (fill_byte byte c)
                (fill_byte-After k c a (ground (arith, on, a.at_dst))) in
            rw on (l, omega arith, done)
      ]

  below : (k : ℕ) (c : Filler) → After k c → leb (u32 (c.0 + 4)) (dst + n) ≡ true → k + 4 ≤ n
  below k c a on =
      let near : u32 (c.0 + 4) ≡ c.0 + 4 = omega (arith, a.at_dst, a.le) in
      ground (arith, a.at_dst, near, on)

  fill_words-Reaches :
      (fuel k : ℕ) (c : Filler) → After k c → Reaches k (fill_words fuel (dst + n) (word_of byte) c)
  unfolding fill_words
  fill_words-Reaches zero k c a = (k, omega arith, a)
  fill_words-Reaches (suc fuel) k c a = elim (Bool-cases (leb (u32 (c.0 + 4)) (dst + n))) [
    | inr stop ↦ rw stop (k, omega arith, a)
    | inl on ↦
        let (l, le, done) =
          fill_words-Reaches fuel (k + 4) (fill_word (word_of byte) c)
            (fill_word-After k c a (below k c a on)) in
        rw on (l, omega arith, done)
  ]

  fill_bytes-After :
      (fuel k : ℕ) (c : Filler)
      → After k c
      → n ≤ k + fuel
      → After n (fill_bytes fuel (dst + n) byte c)
  unfolding fill_bytes
  fill_bytes-After zero k c a enough =
      let same : k ≡ n = omega (arith, a.le) in subst (λ l. After l c) same a
  fill_bytes-After (suc fuel) k c a enough = elim (Bool-cases (ltb c.0 (dst + n))) [
    | inr stop ↦
        let same : k ≡ n = ground (arith, stop, a.le, a.at_dst) in
        rw stop (subst (λ l. After l c) same a)
    | inl on ↦ rw on (
        fill_bytes-After fuel (k + 1) (fill_byte byte c)
          (fill_byte-After k c a (ground (arith, on, a.at_dst))) (omega arith))
  ]

  start : After 0 (dst, m)
  start = record { le = omega arith; at_dst = omega arith; holds = λ j. ground arith }

-- Where the range ends more than four bytes before the end of the address space, `memset` writes the low byte of `c` to
-- each byte of it, whatever its alignment and its length, and leaves every other byte as it was; the rounds of its loops
-- are enough.
pub memset-filled :
    (dst c n : ℕ) (m : Bytes) (j : ℕ)
    → dst + n + 4 < 2 ^ 32
    → memset dst c n m j ≡ (if leb dst j && ltb j (dst + n) then c % 2 ^ 8 else m j)
unfolding memset fill_upto
memset-filled dst c n m j fits =
    let byte = c % 2 ^ 8 in
    let small : byte < 256 = omega arith in
    let whole : u32 (dst + n) ≡ dst + n = omega arith in
    let (k, _, a) =
      fill_aligned-Reaches m dst byte n small fits n 0 (dst, m) (start m dst byte n small fits) in
    let (l, _, b) =
      fill_words-Reaches m dst byte n small fits n k (fill_aligned n (dst + n) byte (dst, m)) a in
    subst
      (λ max. fill_upto max dst byte n m j ≡ (if leb dst j && ltb j (dst + n) then byte else m j))
      (sym whole)
      ((fill_bytes-After m dst byte n small fits n l
          (fill_words n (dst + n) (word_of byte) (fill_aligned n (dst + n) byte (dst, m))) b
          (omega arith)).holds
        j)
