-- ===== src/Bytes/Copy.antt =====
-- `memcpy` of lib/string.c copies.
use buaa_os.Prelude.{
  ℕ, zero, suc, ◌+◌, ◌-◌, ◌%◌, ◌^◌, ◌≤◌, ◌<◌, ◌≡◌, ◌⊎◌, inl, inr, not, ◌&&◌, arith, ltb, leb, ◌==◌,
  if◌then◌else◌, update, Bool-cases, ap, ◌∙◌, sym, subst,
}
use buaa_os.Memory.{u32}
use buaa_os.Bytes.{
  Bytes, Cursor, copy_byte, copy_word, align_loop, word_loop, byte_loop, copy_upto, memcpy,
}

module _ (m : Bytes) (dst src n : ℕ) (apart : (dst + n ≤ src) ⊎ (src + n ≤ dst))
    (fits : dst + n + 4 < 2 ^ 32) (fits' : src + n + 4 < 2 ^ 32) where
  -- What the memory holds when `k` bytes are copied.
  abbrev pub copied : ℕ → Bytes
  copied k j = if leb dst j && ltb j (dst + k) then m (src + (j - dst)) else m j

  -- `k` bytes are copied.
  record After (k : ℕ) (c : Cursor) : Type 0 where
    pub le : k ≤ n
    pub at_dst : c.0 ≡ dst + k
    pub at_src : c.1 ≡ src + k
    pub holds : (j : ℕ) → c.2 j ≡ copied k j

  abbrev Reaches : ℕ → Cursor → Type 0
  Reaches k c = (l : ℕ) × (k ≤ l) × After l c

  -- The bytes to copy are not yet overwritten.
  source :
      (k s : ℕ) (b : Bytes)
      → ((j : ℕ) → b j ≡ copied k j)
      → k ≤ n
      → (i : ℕ) → s ≡ src + i
      → i < n
      → b s ≡ m (src + i)
  source k s b holds le i at l = holds s ∙ ground arith

  copy_byte-After : (k : ℕ) (c : Cursor) → After k c → k < n → After (k + 1) (copy_byte c)
  copy_byte-After k (d, s, b) a l = record {
    le = omega arith;
    at_dst = omega (arith, a.at_dst);
    at_src = omega (arith, a.at_src);
    holds = λ j. next j;
  }
    where
      read : b s ≡ m (src + k)
      read = source k s b a.holds a.le k a.at_src l

      next : (j : ℕ) → update b d (b s) j ≡ copied (k + 1) j
      next j = elim (Bool-cases (j == d)) [
        | inl here ↦
            let index : j - dst ≡ k = ground (arith, a.at_dst) in
            ground (arith, a.at_dst, read, ap (λ (i : ℕ). m (src + i)) index)
        | inr there ↦ ground (arith, a.at_dst, a.holds j)
      ]

  copy_word-After : (k : ℕ) (c : Cursor) → After k c → k + 4 ≤ n → After (k + 4) (copy_word c)
  copy_word-After k (d, s, b) a l = record {
    le = l;
    at_dst = omega (arith, a.at_dst);
    at_src = omega (arith, a.at_src);
    holds = λ j. next j;
  }
    where
      read : (i : ℕ) → i < 4 → b (s + i) ≡ m (src + (k + i))
      read i small = source k (s + i) b a.holds a.le (k + i) (omega (arith, a.at_src)) (omega arith)

      value : (i j : ℕ) → i < 4 → j ≡ d + i → m (src + (k + i)) ≡ copied (k + 4) j
      value i j small at =
          let index : j - dst ≡ k + i = omega (arith, a.at_dst) in
          ground (arith, a.at_dst, ap (λ (t : ℕ). m (src + t)) index)

      first : (j : ℕ) → j ≡ d → b s ≡ copied (k + 4) j
      first j at = ap b (omega arith) ∙ read 0 (omega arith) ∙ value 0 j (omega arith) (omega arith)

      next : (j : ℕ) → (copy_word (d, s, b)).2 j ≡ copied (k + 4) j
      next j = ground (
        arith,
        a.at_dst,
        a.holds j,
        first j,
        read 1,
        value 1 j,
        read 2,
        value 2 j,
        read 3,
        value 3 j,
      )

  align_loop-Reaches :
      (fuel k : ℕ) (c : Cursor) → After k c → Reaches k (align_loop fuel (dst + n) c)
  unfolding align_loop
  align_loop-Reaches zero k c a = (k, omega arith, a)
  align_loop-Reaches (suc fuel) k c a =
      elim (Bool-cases (not (c.0 % 4 == 0) && ltb c.0 (dst + n))) [
        | inl go ↦
            let below : k < n = ground (arith, a.at_dst) in
            let (l, le, b) =
              align_loop-Reaches fuel (k + 1) (copy_byte c) (copy_byte-After k c a below) in
            rw go (l, omega arith, b)
        | inr stop ↦ rw stop (k, omega arith, a)
      ]

  word_loop-Reaches : (fuel k : ℕ) (c : Cursor) → After k c → Reaches k (word_loop fuel (dst + n) c)
  unfolding word_loop
  word_loop-Reaches zero k c a = (k, omega arith, a)
  word_loop-Reaches (suc fuel) k c a = elim (Bool-cases (leb (u32 (c.0 + 4)) (dst + n))) [
    | inl go ↦
        let near : u32 (c.0 + 4) ≡ c.0 + 4 = omega (arith, a.at_dst, a.le) in
        let below : k + 4 ≤ n = ground (arith, a.at_dst, near, go) in
        let (l, le, b) =
          word_loop-Reaches fuel (k + 4) (copy_word c) (copy_word-After k c a below) in
        rw go (l, omega arith, b)
    | inr stop ↦ rw stop (k, omega arith, a)
  ]

  byte_loop-After :
      (fuel k : ℕ) (c : Cursor) → After k c → n ≤ fuel + k → After n (byte_loop fuel (dst + n) c)
  unfolding byte_loop
  byte_loop-After zero k c a enough =
      let all : k ≡ n = omega (arith, a.le) in subst (λ t. After t c) all a
  byte_loop-After (suc fuel) k c a enough = elim (Bool-cases (ltb c.0 (dst + n))) [
    | inl go ↦
        let below : k < n = ground (arith, a.at_dst) in
        rw go
          (byte_loop-After fuel (k + 1) (copy_byte c) (copy_byte-After k c a below) (omega arith))
    | inr stop ↦
        let all : k ≡ n = ground (arith, a.at_dst, a.le) in rw stop (subst (λ t. After t c) all a)
  ]

  start-After : After 0 (dst, src, m)
  start-After = record {
    le = omega arith;
    at_dst = omega arith;
    at_src = omega arith;
    holds = λ j. ground arith;
  }

  upto-copied : (j : ℕ) → copy_upto (dst + n) dst src n m j ≡ copied n j
  unfolding copy_upto
  upto-copied j = elim (Bool-cases (src % 4 == dst % 4)) [
    | inl same ↦
        let (k, _, a) = align_loop-Reaches n 0 (dst, src, m) start-After in
        let (l, _, b) = word_loop-Reaches n k _ a in
        rw (same, copy_upto) ((byte_loop-After n l _ b (omega arith)).holds j)
    | inr other ↦
        rw (other, copy_upto)
          ((byte_loop-After n 0 (dst, src, m) start-After (omega arith)).holds j)
  ]

  -- Where the two ranges do not overlap, and each ends more than four bytes before the end of the address space, `memcpy`
  -- leaves the `n` bytes from `src` on also from `dst` on and changes no other byte, whatever the alignment of the two
  -- addresses.
  pub memcpy-copied : (j : ℕ) → memcpy dst src n m j ≡ copied n j
  unfolding memcpy
  memcpy-copied j =
      let whole : u32 (dst + n) ≡ dst + n = omega arith in
      subst (λ max. copy_upto max dst src n m j ≡ copied n j) (sym whole) (upto-copied j)
