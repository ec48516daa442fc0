-- ===== src/Bytes.antt =====
-- Copying and filling memory: `memcpy` and `memset` of lib/string.c. Memory is a function from
-- addresses to bytes, and pointers wrap at 2 ^ 32. A loop's fuel counts its rounds.
-- A call's value is the pointer behind the last byte, its start and the memory.
pub mod Copy
pub mod Fill
pub mod Tests
use buaa_os.Prelude.{
  ℕ, zero, suc, ◌+◌, ◌-◌, ◌*◌, ◌/◌, ◌%◌, ◌^◌, bit_or, Bool, true, false, not, ◌&&◌, ltb, leb, ◌==◌,
  if◌then◌else◌, update,
}
use buaa_os.Memory.{u32}

abbrev pub Bytes : Type 0
Bytes = ℕ → ℕ

-- `dst`, `src` and the memory between two rounds.
abbrev pub Cursor : Type 0
Cursor = ℕ × ℕ × Bytes

-- `*(char *)dst++ = *(char *)src++`
abbrev pub copy_byte : Cursor → Cursor
copy_byte (d, s, m) = (u32 (d + 1), u32 (s + 1), update m d (m s))

-- `*(uint32_t *)dst = *(uint32_t *)src` and both pointers 4 bytes on.
abbrev pub copy_word : Cursor → Cursor
copy_word (d, s, m) = (
  u32 (d + 4),
  u32 (s + 4),
  update (update (update (update m d (m s)) (d + 1) (m (s + 1))) (d + 2) (m (s + 2))) (d + 3)
      (m (s + 3)),
)

-- The loop up to an address that is a multiple of 4.
align_loop : ℕ → ℕ → Cursor → Cursor
align_loop zero max c = c
align_loop (suc fuel) max c =
    let rest = align_loop fuel max (copy_byte c) in
    if not (c.0 % 4 == 0) && ltb c.0 max then rest else c

word_loop : ℕ → ℕ → Cursor → Cursor
word_loop zero max c = c
word_loop (suc fuel) max c =
    let rest = word_loop fuel max (copy_word c) in if leb (u32 (c.0 + 4)) max then rest else c

byte_loop : ℕ → ℕ → Cursor → Cursor
byte_loop zero max c = c
byte_loop (suc fuel) max c =
    let rest = byte_loop fuel max (copy_byte c) in if ltb c.0 max then rest else c

-- The loops of `memcpy` up to `max`.
pub copy_upto : ℕ → ℕ → ℕ → ℕ → Bytes → Bytes
unfolding align_loop word_loop byte_loop
copy_upto max dst src n m =
    let start : Cursor = (dst, src, m) in
    let aligned = word_loop n max (align_loop n max start) in
    (if src % 4 == dst % 4 then byte_loop n max aligned else byte_loop n max start).2

-- The memory after `memcpy(dst, src, n)`, which returns `dst`.
pub memcpy : ℕ → ℕ → ℕ → Bytes → Bytes
unfolding copy_upto
memcpy dst src n m = copy_upto (u32 (dst + n)) dst src n m

-- `dst` and the memory between two rounds of `memset`.
abbrev pub Filler : Type 0
Filler = ℕ × Bytes

-- The word whose bytes are all `byte`.
abbrev pub word_of : ℕ → ℕ
word_of byte = bit_or (bit_or (bit_or byte (byte * 2 ^ 8)) (byte * 2 ^ 16)) (byte * 2 ^ 24)

abbrev pub fill_byte : ℕ → Filler → Filler
fill_byte byte (d, m) = (u32 (d + 1), update m d byte)

-- The bytes of a word lie in memory from the lowest on.
abbrev pub fill_word : ℕ → Filler → Filler
fill_word word (d, m) = (
  u32 (d + 4),
  update
      (update (update (update m d (word % 2 ^ 8)) (d + 1) (word / 2 ^ 8 % 2 ^ 8)) (d + 2)
        (word / 2 ^ 16 % 2 ^ 8))
      (d + 3) (word / 2 ^ 24 % 2 ^ 8),
)

fill_aligned : ℕ → ℕ → ℕ → Filler → Filler
fill_aligned zero max byte c = c
fill_aligned (suc fuel) max byte c =
    let rest = fill_aligned fuel max byte (fill_byte byte c) in
    if not (c.0 % 4 == 0) && ltb c.0 max then rest else c

fill_words : ℕ → ℕ → ℕ → Filler → Filler
fill_words zero max word c = c
fill_words (suc fuel) max word c =
    let rest = fill_words fuel max word (fill_word word c) in
    if leb (u32 (c.0 + 4)) max then rest else c

fill_bytes : ℕ → ℕ → ℕ → Filler → Filler
fill_bytes zero max byte c = c
fill_bytes (suc fuel) max byte c =
    let rest = fill_bytes fuel max byte (fill_byte byte c) in if ltb c.0 max then rest else c

-- The loops of `memset` up to `max`.
pub fill_upto : ℕ → ℕ → ℕ → ℕ → Bytes → Bytes
unfolding fill_aligned fill_words fill_bytes
fill_upto max dst byte n m =
    let aligned = fill_words n max (word_of byte) (fill_aligned n max byte (dst, m)) in
    (fill_bytes n max byte aligned).1

-- The memory after `memset(dst, c, n)`, which returns `dst`.
pub memset : ℕ → ℕ → ℕ → Bytes → Bytes
unfolding fill_upto
memset dst c n m = fill_upto (u32 (dst + n)) dst (c % 2 ^ 8) n m
