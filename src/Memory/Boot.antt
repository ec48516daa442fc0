-- ===== src/Memory/Boot.antt =====
-- The memory at boot: `alloc`, `mips_vm_init` and `page_init` of kern/pmap.c, with ROUND of
-- include/types.h. The kernel's end, `end`, comes from the linker and is a parameter.
pub mod Init
use buaa_os.Prelude.{
  ℕ, zero, suc, ◌+◌, ◌-◌, ◌*◌, ◌/◌, ◌%◌, ◌^◌, ◌≤◌, ◌<◌, ◌≡◌, ◌≢◌, refl, Bool, true, false, List, [],
  ◌∷◌, arith, ltb, leb, ◌==◌, if◌then◌else◌, update, length, has, subst, sym, ◌∙◌, inl, inr,
  Bool-cases, ltb→lt, lt→ltb, Distinct, ◌&&◌,
}
use buaa_os.Prelude.Outcome.{
  Outcome, Cmd, and_then, done, fail, panic, pure, halt, ◌>>=◌, ◌>>◌, modify, reads, Returns,
  Returns-bind, Returns-mono,
}
use native.Mathlib.Nat.{le_refl}
use buaa_os.Memory.{Mem, u32, page2pa}
use buaa_os.Memory.Valid.{Role, free, held, IsValid}

-- ROUND(a, n) for a power of two `n`: `(a + n - 1) & ~(n - 1)`.
unfoldable pub round : ℕ → ℕ → ℕ
round a n = u32 (a + n - 1) - u32 (a + n - 1) % n

abbrev pub ulim : ℕ
ulim = 2 ^ 31

-- The kernel addresses handed out so far end at `freemem`; the allocation's start and the new end.
-- `none` for a panic: PADDR of an address below ULIM, or no memory left.
pub alloc : (memsize freemem n align : ℕ) → Outcome ℕ ℕ
unfolding round
alloc memsize freemem n align =
    let start = round freemem align in
    let end' = u32 (start + n) in
    if ltb end' ulim then panic else if leb memsize (end' - ulim) then panic else done start end'

-- The pages below `freemem`, from `pp` on: used. `page2kva` panics past the last page.
-- The fuel counts the pages that are left.
mark_used : ℕ → ℕ → ℕ → Cmd Mem ℕ
mark_used zero freemem pp s = panic
mark_used (suc fuel) freemem pp s = elim (leb s.npage pp) [
  | true ↦ panic
  | false ↦ elim (ltb (u32 (page2pa pp + ulim)) freemem) [
    | true ↦ mark_used fuel freemem (pp + 1) (record s { pp_ref = update s.pp_ref pp 1 })
    | false ↦ done pp s
  ]
]

free_page : Mem → ℕ → Mem
free_page s pp = record s { pp_ref = update s.pp_ref pp 0; page_free_list = pp ∷ s.page_free_list }

-- The other pages: free, each at the head of the list.
mark_free : ℕ → ℕ → Mem → Mem
unfolding free_page
mark_free zero pp s = s
mark_free (suc fuel) pp s = elim (ltb pp s.npage) [
  | true ↦ mark_free fuel (pp + 1) (free_page s pp)
  | false ↦ s
]

pub page_init : ℕ → Cmd Mem (Unit {0})
page_init freemem = do
  modify λ s. record s { page_free_list = [] }
  rounds ← reads λ s. s.npage + 1
  pp ← mark_used rounds (round freemem (2 ^ 12)) 0
  modify (mark_free rounds pp)
