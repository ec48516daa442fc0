-- ===== src/Elf/Tests.antt =====
-- Examples for lib/elfloader.c: a segment of 10 bytes that are in the file and of a page and a half in memory, and a
-- callback with the memory for a number of pages, which fails when these are used up.
use buaa_os.Prelude.{
  ℕ, zero, suc, ◌+◌, ◌-◌, ◌*◌, ◌/◌, ◌%◌, ◌≡◌, refl, inl, inr, none, some, List, [], ◌∷◌, arith,
}
use buaa_os.Prelude.Outcome.{Cmd, e_no_mem, done, fail}
use buaa_os.Elf.{Phdr, Mapper, by2pg, elf_load_seg}
use buaa_os.Elf.Calls.{PageCall, page_call, end_page, byte_of, holds}
use buaa_os.Elf.Plan.{each_page, elf_load_seg-each_page}

-- How many pages are left, and the calls so far, the last one first.
abbrev State : Type 0
State = ℕ × List PageCall

abbrev file : ℕ → ℕ
file i = i * 3 + 1

logs : ℕ → PageCall → Cmd State (Unit {0})
logs zero c s = fail e_no_mem s
logs (suc left) c s = done tt (left, c ∷ s.1)

abbrev log_page : Mapper State
log_page va offset perm src len s =
    logs s.0 (record { va = va; offset = offset; src = src; len = len }) s

abbrev segment : Phdr
segment = record {
  p_type = 1;
  p_offset = 52;
  p_vaddr = 0x400010;
  p_filesz = 5000;
  p_memsz = 9000;
  p_flags = 2;
}

three_pages :
    elf_load_seg log_page segment 52 (3, [])
    ≡ done tt (
      0,
      record { va = 0x402000; offset = 0; src = none; len = 4096 }
          ∷ record { va = 0x401000; offset = 0; src = some (52 + 4080); len = 920 }
          ∷ record { va = 0x400010; offset = 16; src = some 52; len = 4080 }
          ∷ [],
    )
unfolding elf_load_seg logs
three_pages = refl

elf_load_seg-each_page_example :
    (elf_load_seg log_page segment 52 (2, [])
      ≡ each_page log_page segment 52 (end_page segment 52 - 0x400) 0x400 (2, []))
    × ((k : ℕ)
        → holds segment 52 file
            (page_call segment 52 ((0x400010 + k) / by2pg))
            ((0x400010 + k) % by2pg)
          ≡ byte_of segment 52 file k)
elf_load_seg-each_page_example =
    elf_load_seg-each_page log_page segment 52 (omega arith) (omega arith) file (2, [])
      (inr (inl (omega arith)))
