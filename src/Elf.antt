-- ===== src/Elf.antt =====
-- ELF images: lib/elfloader.c and what it uses of include/elf.h. An image is the sequence of its bytes, a function of
-- their places; a pointer into it is a place. The callback `map_page` is a parameter.
pub mod Calls
pub mod Plan
pub mod Tests
use buaa_os.Prelude.{
  ℕ, zero, suc, ◌+◌, ◌-◌, ◌*◌, ◌/◌, ◌%◌, ◌^◌, bit_or, Bool, true, false, not, ◌&&◌, Option, none,
  some, ltb, leb, ◌==◌, if◌then◌else◌,
}
use buaa_os.Prelude.Bits.{bit}
use buaa_os.Prelude.Outcome.{Outcome, Cmd, done, fail, panic, pure, halt, skip, ◌>>=◌, ◌>>◌}
use buaa_os.Memory.{u32, pte_d, pte_v}

-- The fields of `Elf32_Ehdr` and `Elf32_Phdr` that are used.
pub record Ehdr : Type 0 where
  pub e_ident : ℕ → ℕ
  pub e_type : ℕ
  pub e_entry : ℕ
  pub e_phoff : ℕ
  pub e_phentsize : ℕ
  pub e_phnum : ℕ

pub record Phdr : Type 0 where
  pub p_type : ℕ
  pub p_offset : ℕ
  pub p_vaddr : ℕ
  pub p_filesz : ℕ
  pub p_memsz : ℕ
  pub p_flags : ℕ

-- Little-endian words and half words of the image.
abbrev pub half_at : (ℕ → ℕ) → ℕ → ℕ
half_at b i = b i + b (i + 1) * 2 ^ 8

abbrev pub word_at : (ℕ → ℕ) → ℕ → ℕ
word_at b i = half_at b i + half_at b (i + 2) * 2 ^ 16

abbrev pub ehdr_at : (ℕ → ℕ) → Ehdr
ehdr_at b = record {
  e_ident = b;
  e_type = half_at b 16;
  e_entry = word_at b 24;
  e_phoff = word_at b 28;
  e_phentsize = half_at b 42;
  e_phnum = half_at b 44;
}

abbrev pub phdr_at : (ℕ → ℕ) → ℕ → Phdr
phdr_at b i = record {
  p_type = word_at b i;
  p_offset = word_at b (i + 4);
  p_vaddr = word_at b (i + 8);
  p_filesz = word_at b (i + 16);
  p_memsz = word_at b (i + 20);
  p_flags = word_at b (i + 24);
}

-- `sizeof(Elf32_Ehdr)`, PT_LOAD, the bit of PF_W, BY2PG
abbrev pub ehdr_size : ℕ
ehdr_size = 52

abbrev pub pt_load : ℕ
pt_load = 1

abbrev pub by2pg : ℕ
by2pg = 4096

pub elf_from : (ℕ → ℕ) → ℕ → Option Ehdr
elf_from b size =
    let h = ehdr_at b in
    if leb ehdr_size size
      && h.e_ident 0 == 0x7f
      && h.e_ident 1 == b'E'
      && h.e_ident 2 == b'L'
      && h.e_ident 3 == b'F'
      && h.e_type == 2
    then some h
    else none

-- `map_page(data, va, offset, perm, src, len)`; `src` may be NULL.
abbrev pub Mapper {ℓ} : Type ℓ → Type ℓ
Mapper S = ℕ → ℕ → ℕ → Option ℕ → ℕ → Cmd S (Unit {0})

-- MIN
abbrev pub least : ℕ → ℕ → ℕ
least a b = if ltb b a then b else a

abbrev pub seg_perm : Phdr → ℕ
seg_perm ph = if bit 1 ph.p_flags then bit_or pte_v pte_d else pte_v

module _ {ℓ} {S : Type ℓ} (map_page : Mapper S) (ph : Phdr) (bin : ℕ) where
  -- The two loops, from the byte `i` on; they leave `i`.
  pub load_pages : ℕ → ℕ → Cmd S ℕ
  load_pages zero i = halt
  load_pages (suc rounds) i =
      let rest = load_pages rounds (u32 (i + by2pg)) in
      if not (ltb i ph.p_filesz) then pure i else do
        map_page (u32 (ph.p_vaddr + i)) 0 (seg_perm ph) (some (bin + i))
            (least (ph.p_filesz - i) by2pg)
        rest

  -- `bin_size - i` may wrap.
  pub zero_pages : ℕ → ℕ → Cmd S (Unit {0})
  zero_pages zero i = halt
  zero_pages (suc rounds) i =
      let rest = zero_pages rounds (u32 (i + by2pg)) in
      if not (ltb i ph.p_memsz) then skip else do
        map_page (u32 (ph.p_vaddr + i)) 0 (seg_perm ph) none
            (least (u32 (ph.p_filesz + 2 ^ 32 - i)) by2pg)
        rest

  -- The part of the first page, if the segment does not start with a page.
  pub first_page : Cmd S ℕ
  first_page =
      let offset = ph.p_vaddr % by2pg in
      let len = least ph.p_filesz (by2pg - offset) in
      if offset == 0
      then pure 0
      else do map_page ph.p_vaddr offset (seg_perm ph) (some bin) len; pure len

  pub elf_load_seg : Cmd S (Unit {0})
  unfolding first_page load_pages zero_pages
  elf_load_seg = do
    i ← first_page
    j ← load_pages (ph.p_filesz + 1) i
    zero_pages (ph.p_memsz + 1) j
