-- ===== src/Memory.antt =====
-- Physical pages, page tables and their reference counts: kern/pmap.c, include/pmap.h and the
-- address macros of include/mmu.h and include/types.h.
-- A page is named by its number (`struct Page *pp` is `pages + ppn`), and a kernel pointer into a
-- page by the page's number and the index of the word. `page_free_list` is the sequence of its
-- pages, first to last. `tlb` collects the arguments of `tlb_out`, the latest first.
pub mod Alloc
pub mod Boot
pub mod Insert
pub mod Mapping
pub mod Maps
pub mod Remove
pub mod Tests
pub mod Unmap
pub mod Entry
pub mod Valid
pub mod Walk
use buaa_os.Prelude.{
  ℕ, zero, suc, ◌+◌, ◌-◌, ◌*◌, ◌/◌, ◌%◌, ◌^◌, bit_or, Bool, true, false, not, ◌&&◌, ◌||◌, Option,
  none, some, List, [], ◌∷◌, ltb, leb, ◌==◌, if◌then◌else◌, update,
}
use buaa_os.Prelude.Bits.{bit}
use buaa_os.Prelude.Outcome.{
  Outcome, done, fail, panic, Cmd, Errno, e_no_mem, pure, throw, halt, ◌>>=◌, ◌>>◌, reads, modify,
  assert,
}

-- A pointer to a word: the page, and the word in it.
abbrev pub Ptr : Type 0
Ptr = ℕ × ℕ

pub record Mem : Type 0 where
  pub npage : ℕ
  pub frame : ℕ → ℕ → ℕ
  pub pp_ref : ℕ → ℕ
  pub page_free_list : List ℕ
  pub tlb : List ℕ

abbrev pub u32 : ℕ → ℕ
u32 x = x % 2 ^ 32

abbrev pub u16 : ℕ → ℕ
u16 x = x % 2 ^ 16

-- PDX, PTX, PPN and PTE_ADDR
abbrev pub pdx : ℕ → ℕ
pdx va = va / 2 ^ 22 % 2 ^ 10

abbrev pub ptx : ℕ → ℕ
ptx va = va / 2 ^ 12 % 2 ^ 10

abbrev pub ppn_of : ℕ → ℕ
ppn_of pa = pa / 2 ^ 12

abbrev pub pte_addr : ℕ → ℕ
pte_addr pte = pte - pte % 2 ^ 12

-- PTE_V and PTE_D
abbrev pub pte_v : ℕ
pte_v = 0x200

abbrev pub pte_d : ℕ
pte_d = 0x400

abbrev pub pte_g : ℕ
pte_g = 0x100

-- `pte & PTE_V`
abbrev pub valid : ℕ → Bool
valid pte = bit 9 pte

abbrev pub page2pa : ℕ → ℕ
page2pa pp = u32 (pp * 2 ^ 12)

unfoldable pub pa2page : ℕ → Cmd Mem ℕ
pa2page pa s = if leb s.npage (ppn_of pa) then panic else done (ppn_of pa) s

-- KADDR of the start of a page: the page, as a pointer to words.
pub kaddr : ℕ → Cmd Mem ℕ
kaddr pa s = if leb s.npage (ppn_of pa) then panic else done (ppn_of pa) s

abbrev pub load : Ptr → Cmd Mem ℕ
load (p, i) = reads λ s. s.frame p i

abbrev pub store : Ptr → ℕ → Cmd Mem (Unit {0})
store (p, i) v = modify λ s. record s { frame = update s.frame p (update (s.frame p) i v) }

-- `memset((void *)page2kva(pp), 0, BY2PG)`
pub clear_page : ℕ → Cmd Mem (Unit {0})
unfolding kaddr
clear_page pp = do
  p ← kaddr (page2pa pp)
  modify λ s. record s { frame = update s.frame p (λ i. 0) }

abbrev pub set_ref : ℕ → ℕ → Cmd Mem (Unit {0})
set_ref pp r = modify λ s. record s { pp_ref = update s.pp_ref pp r }

-- `pp->pp_ref++` on a `u_short`
abbrev pub incref : ℕ → Cmd Mem (Unit {0})
incref pp = modify λ s. record s { pp_ref = update s.pp_ref pp (u16 (s.pp_ref pp + 1)) }

take_page : List ℕ → Cmd Mem ℕ
unfolding clear_page
take_page [] = throw e_no_mem
take_page (pp ∷ rest) = do modify λ s. record s { page_free_list = rest }; clear_page pp; pure pp

unfoldable pub page_alloc : Cmd Mem ℕ
unfolding take_page
page_alloc s = take_page s.page_free_list s

pub page_free : ℕ → Cmd Mem (Unit {0})
page_free pp = do
  r ← reads λ s. s.pp_ref pp
  assert (r == 0)
  modify λ s. record s { page_free_list = pp ∷ s.page_free_list }

pub page_decref : ℕ → Cmd Mem (Unit {0})
unfolding page_free
page_decref pp = do
  r ← reads λ s. s.pp_ref pp
  assert (ltb 0 r)
  set_ref pp (r - 1)
  if r - 1 == 0 then page_free pp else pure tt

-- Step 3 of `pgdir_walk`: the entry in the page table that the directory entry names.
walk_table : ℕ → ℕ → Cmd Mem (Option Ptr)
unfolding kaddr
walk_table pgdir va = do
  pde ← load (pgdir, pdx va)
  table ← kaddr (pte_addr pde)
  pure (some (table, ptx va))

create_table : ℕ → ℕ → Cmd Mem (Unit {0})
unfolding page_alloc
create_table pgdir va = do
  pp ← page_alloc
  store (pgdir, pdx va) (page2pa pp)
  pde ← load (pgdir, pdx va)
  store (pgdir, pdx va) (bit_or (bit_or pde pte_d) pte_v)
  incref pp

unfoldable pub pgdir_walk : ℕ → ℕ → Bool → Cmd Mem (Option Ptr)
unfolding walk_table create_table
pgdir_walk pgdir va create = do
  pde ← load (pgdir, pdx va)
  if valid pde
      then walk_table pgdir va
      else (if create then create_table pgdir va >> walk_table pgdir va else pure none)

-- EntryHi is the page of `va` with the ASID above its six low bits.
pub tlb_invalidate : ℕ → ℕ → Cmd Mem (Unit {0})
tlb_invalidate asid va =
    modify λ s. record s { tlb = bit_or (pte_addr va) (u32 (asid * 2 ^ 6)) ∷ s.tlb }

-- The entry that a pointer names, when the pointer is not null and the entry is valid.
present : Option Ptr → Cmd Mem (Option (ℕ × Ptr))
present none = pure none
present (some ptr) = do pte ← load ptr; pure (if valid pte then some (pte, ptr) else none)

lookup_entry : Option (ℕ × Ptr) → Cmd Mem (Option (ℕ × Ptr))
unfolding pa2page
lookup_entry none = pure none
lookup_entry (some (pte, ptr)) = do pp ← pa2page pte; pure (some (pp, ptr))

-- The page and the pointer to its entry, `none` for `NULL`.
pub page_lookup : ℕ → ℕ → Cmd Mem (Option (ℕ × Ptr))
page_lookup pgdir va = do ptr ← pgdir_walk pgdir va false; e ← present ptr; lookup_entry e

remove_entry : ℕ → ℕ → Option (ℕ × Ptr) → Cmd Mem (Unit {0})
remove_entry asid va none = pure tt
remove_entry asid va (some (pp, ptr)) = do page_decref pp; store ptr 0; tlb_invalidate asid va

pub page_remove : ℕ → ℕ → ℕ → Cmd Mem (Unit {0})
page_remove pgdir asid va = do e ← page_lookup pgdir va; remove_entry asid va e

-- `page2pa(pp) | perm | PTE_V`
pub entry : ℕ → ℕ → ℕ
entry pp perm = bit_or (bit_or (page2pa pp) perm) pte_v

-- Steps 3 and 4 of `page_insert`, after `pgdir_walk` with `create` set gave `ptr`.
fill_entry : ℕ → ℕ → Option Ptr → Cmd Mem (Unit {0})
fill_entry pp perm none = halt
fill_entry pp perm (some ptr) = do store ptr (entry pp perm); incref pp

unfoldable pub map_page : ℕ → ℕ → ℕ → ℕ → ℕ → Cmd Mem (Unit {0})
unfolding fill_entry pgdir_walk tlb_invalidate
map_page pgdir asid pp va perm = do
  tlb_invalidate asid va
  ptr ← pgdir_walk pgdir va true
  fill_entry pp perm ptr

replace_entry : ℕ → ℕ → ℕ → ℕ → ℕ → Option (ℕ × Ptr) → Cmd Mem (Unit {0})
replace_entry pgdir asid pp va perm none = map_page pgdir asid pp va perm
replace_entry pgdir asid pp va perm (some (pte, ptr)) = do
  old ← pa2page pte
  if old == pp
      then tlb_invalidate asid va >> store ptr (entry pp perm)
      else page_remove pgdir asid va >> map_page pgdir asid pp va perm

unfoldable pub page_insert : ℕ → ℕ → ℕ → ℕ → ℕ → Cmd Mem (Unit {0})
unfolding present replace_entry pgdir_walk pa2page
page_insert pgdir asid pp va perm = do
  ptr ← pgdir_walk pgdir va false
  e ← present ptr
  replace_entry pgdir asid pp va perm e

-- `none` for `~0`.
pub va2pa : ℕ → ℕ → Cmd Mem (Option ℕ)
unfolding kaddr
va2pa pgdir va = do
  pde ← load (pgdir, pdx va)
  if not (valid pde) then pure none else do
    table ← kaddr (pte_addr pde)
    pte ← load (table, ptx va)
    pure (if valid pte then some (pte_addr pte) else none)
