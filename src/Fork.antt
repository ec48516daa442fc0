-- ===== src/Fork.antt =====
-- Copy-on-write: `duppage` and `cow_entry` of user/lib/fork.c. The address spaces of the parent and of the child are
-- their page tables by page number, and the pages that these name. Which page the kernel gives to
-- `syscall_mem_alloc`, and what it answers when it is asked to map one at a legal address, are parameters. What a
-- routine stores in its own frame on the stack while it runs is left out; the stack is the page below USTACKTOP.
pub mod Cow
pub mod Duppage
pub mod Pages
mod Tests
use buaa_os.Prelude.{
  ℕ, zero, suc, ◌+◌, ◌-◌, ◌*◌, ◌/◌, ◌%◌, ◌^◌, bit_and, bit_or, Bool, true, false, not, ◌&&◌, ◌||◌,
  Option, none, some, ltb, leb, ◌==◌, if◌then◌else◌, update,
}
use buaa_os.Prelude.Bits.{bit}
use buaa_os.Prelude.Outcome.{
  Outcome, Cmd, Errno, e_inval, done, fail, panic, pure, throw, halt, skip, ◌>>=◌, ◌>>◌, reads,
  modify, ignore,
}
use buaa_os.Memory.{u32, pte_d, pte_v, valid, ppn_of, entry}
use buaa_os.Kernel.Syscall.{is_illegal_va}

pub data Side : Type 0 where
  parent child : Side

pub record Spaces : Type 0 where
  pub ptes : Side → ℕ → ℕ
  pub pages : ℕ → ℕ → ℕ

abbrev pub on_side {ℓ} : {A : Type ℓ} → (Side → A) → Side → A → Side → A
on_side f parent v parent = v
on_side f parent v child = f child
on_side f child v child = v
on_side f child v parent = f parent

-- Bits of PTE_COW, PTE_LIBRARY and PTE_D.
abbrev pub is_cow : ℕ → Bool
is_cow pte = bit 0 pte

abbrev pub is_library : ℕ → Bool
is_library pte = bit 2 pte

abbrev pub is_writable : ℕ → Bool
is_writable pte = bit 10 pte

abbrev pub pte_cow : ℕ
pte_cow = 1

abbrev pub set_pte : Side → ℕ → ℕ → Spaces → Spaces
set_pte side i v s = record s { ptes = on_side s.ptes side (update (s.ptes side) i v) }

abbrev pub Answers : Type 0
Answers = Spaces → Side → ℕ → Option Errno

-- The page `i` of one side is mapped at `j` of the other, or the same, side.
pub mapped : Option Errno → Side → ℕ → Side → ℕ → ℕ → Cmd Spaces (Unit {0})
mapped (some e) from i to j perm = throw e
mapped none from i to j perm = modify λ s. set_pte to j (entry (ppn_of (s.ptes from i)) perm) s

-- The address of a page.
abbrev pub page_va : ℕ → ℕ
page_va i = u32 (i * 2 ^ 12)

-- The last page below USTACKTOP.
abbrev pub stack_page : ℕ
stack_page = 0x7f3fd

-- VPN(UCOW)
abbrev pub ucow_page : ℕ
ucow_page = 0x3ff

-- The new page is zeros.
pub alloc_at : Option ℕ → Side → ℕ → ℕ → Cmd Spaces (Unit {0})
alloc_at none side i perm = halt
alloc_at (some p) side i perm =
    modify λ s. set_pte side i (entry p perm) (record s { pages = update s.pages p (λ j. 0) })

pub copy_page : Side → ℕ → ℕ → Cmd Spaces (Unit {0})
copy_page side to from = modify λ s. record s {
  pages = update s.pages (ppn_of (s.ptes side to)) (s.pages (ppn_of (s.ptes side from)));
}

module _ (answers : Answers) where
  -- `syscall_mem_map`: `sys_mem_map` looks at both addresses first.
  pub mem_map : Side → ℕ → Side → ℕ → ℕ → Cmd Spaces (Unit {0})
  unfolding mapped
  mem_map from i to j perm s =
      if is_illegal_va (page_va i) || is_illegal_va (page_va j)
      then fail e_inval s
      else if valid (s.ptes from i)
      then mapped (answers s to j) from i to j perm s
      else fail e_inval s

  -- The results of the calls are dropped.
  pub duppage : ℕ → Cmd Spaces (Unit {0})
  unfolding mem_map
  duppage vpn = do
    pte ← reads λ s. s.ptes parent vpn
    let perm = pte % 2 ^ 12
    if not (is_writable perm) || is_library perm
        then ignore (mem_map parent vpn child vpn perm)
        else (do
          ignore (mem_map parent vpn child vpn (bit_or (bit_and perm (2 ^ 32 - 1 - pte_d)) pte_cow))
          ignore
              (mem_map parent vpn parent vpn (bit_or (bit_and perm (2 ^ 32 - 1 - pte_d)) pte_cow)))

  -- `cow_entry` at the address `va`, up to the return to the faulting routine. The source has `perm & !PTE_COW`,
  -- which is 0.
  pub cow_entry : (Spaces → Option ℕ) → Side → ℕ → Cmd Spaces (Unit {0})
  unfolding mem_map alloc_at copy_page
  cow_entry new side va = do
    let i = va / 2 ^ 12
    pte ← reads λ s. s.ptes side i
    if not (is_cow (pte % 2 ^ 12)) then halt else skip
    λ s. alloc_at (new s) side ucow_page (bit_or pte_d pte_v) s
    copy_page side ucow_page i
    ignore (mem_map side ucow_page side i pte_d)
    modify λ s. set_pte side ucow_page 0 s
