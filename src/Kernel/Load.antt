-- ===== src/Kernel/Load.antt =====
-- The first environments: `env_init`, `map_segment`, `load_icode` and `env_create` of kern/env.c. A binary is a
-- function from its places to bytes, with its size. Where `pages` and `envs` lie, and how large they are, are
-- parameters that the linker and the compiler settle.
pub mod Start
mod Tests
use buaa_os.Prelude.{
  ℕ, zero, suc, ◌+◌, ◌-◌, ◌*◌, ◌/◌, ◌%◌, ◌^◌, ◌&&◌, Option, none, some, [], ◌∷◌, ltb, leb, ◌==◌,
  if◌then◌else◌, update,
}
use buaa_os.Prelude.Outcome.{
  Outcome, Cmd, done, fail, panic, pure, halt, skip, ◌>>=◌, ◌>>◌, reads, modify, assert, ignore,
}
use buaa_os.Memory.{Mem, u32, pte_g, page_alloc, page_insert, incref, pa2page}
use buaa_os.Queue.{init, insert_head}
use buaa_os.Kernel.{Kernel, free, runnable, on_mem, set_env, get_env}
use buaa_os.Kernel.Envs.{nenv, env_alloc}
use buaa_os.Kernel.Traps.{upages}
use buaa_os.Elf.{Ehdr, phdr_at, pt_load, by2pg, elf_from, elf_load_seg}

-- `panic_on` of a command of the kernel.
pub must {ℓ} : {A : Type ℓ} → Outcome Kernel A → Outcome Kernel A
must (done a s) = done a s
must (fail e s) = panic
must panic = panic

-- UENVS
abbrev pub uenvs : ℕ
uenvs = 0x7f400000

-- The loop of `map_segment`, whose calls of `page_insert` are not looked at.
pub map_pages : ℕ → ℕ → ℕ → ℕ → ℕ → ℕ → Cmd Mem (Unit {0})
map_pages zero pgdir asid pa va perm = skip
map_pages (suc rounds) pgdir asid pa va perm =
    let rest = map_pages rounds pgdir asid (u32 (pa + by2pg)) (u32 (va + by2pg)) perm in
    do pp ← pa2page pa; ignore (page_insert pgdir asid pp va perm); rest

pub map_segment : ℕ → ℕ → ℕ → ℕ → ℕ → ℕ → Cmd Mem (Unit {0})
unfolding map_pages
map_segment pgdir asid pa va size perm = do
  assert (pa % by2pg == 0)
  assert (va % by2pg == 0)
  assert (size % by2pg == 0)
  map_pages (size / by2pg) pgdir asid pa va perm

-- The loop of `env_init`, over the environments before `i` from the last to the first.
pub free_envs : ℕ → Cmd Kernel (Unit {0})
free_envs zero = skip
free_envs (suc i) =
    let rest = free_envs i in
    do
      set_env i λ v. record v { status = free }
      modify λ k. record k { env_free_list = i ∷ k.env_free_list }
      rest

-- ROUND(n, BY2PG)
abbrev pub round_page : ℕ → ℕ
round_page n = (n + (by2pg - 1)) / by2pg * by2pg

-- `sizeof(struct Page)`
abbrev pub page_size : ℕ
page_size = 12

-- `env_init` before its pages: Steps 1 and 2.
pub init_lists : Cmd Kernel (Unit {0})
init_lists = do
  modify λ k. record k { env_free_list = [] }
  modify λ k. record k { sched = init k.sched }
  free_envs nenv

module _ (pages_pa envs_pa env_size : ℕ) where
  pub env_init : Cmd Kernel (Unit {0})
  env_init = do
    init_lists
    p ← λ k. must (on_mem page_alloc k)
    on_mem (incref p)
    modify λ k. record k { base_pgdir = p }
    n ← reads λ k. k.mem.npage
    on_mem (map_segment p 0 pages_pa upages (round_page (n * page_size)) pte_g)
    on_mem (map_segment p 0 envs_pa uenvs (round_page (nenv * env_size)) pte_g)

-- The bytes of a page of words, and back.
abbrev pub page_byte : (ℕ → ℕ) → ℕ → ℕ
page_byte f j = f (j / 4) / 2 ^ (8 * (j % 4)) % 2 ^ 8

abbrev pub page_word : (ℕ → ℕ) → ℕ → ℕ
page_word b i = b (i * 4) + b (i * 4 + 1) * 2 ^ 8 + b (i * 4 + 2) * 2 ^ 16 + b (i * 4 + 3) * 2 ^ 24

-- `memcpy((void *)(page2kva(p) + offset), src, len)` within the page.
pub copy_in : (ℕ → ℕ) → ℕ → ℕ → (ℕ → ℕ) → (ℕ → ℕ)
copy_in binary offset len f =
    page_word
      λ j. if leb offset j && ltb j (offset + len) then binary (j - offset) else page_byte f j

-- A failed `page_alloc` leaves `p` without a value.
pub alloc_unchecked : Outcome Mem ℕ → Outcome Mem ℕ
alloc_unchecked (done p s) = done p s
alloc_unchecked (fail e s) = panic
alloc_unchecked panic = panic

pub fill_page : (ℕ → ℕ) → Option ℕ → ℕ → ℕ → ℕ → Cmd Mem (Unit {0})
unfolding copy_in
fill_page binary none offset len p = skip
fill_page binary (some src) offset len p = modify λ s. record s {
  frame = update s.frame p (copy_in (λ j. binary (src + j)) offset len (s.frame p));
}

pub load_icode_mapper : (ℕ → ℕ) → ℕ → ℕ → ℕ → ℕ → Option ℕ → ℕ → Cmd Kernel (Unit {0})
unfolding fill_page alloc_unchecked
load_icode_mapper binary e va offset perm src len = do
  p ← on_mem λ s. alloc_unchecked (page_alloc s)
  on_mem (fill_page binary src offset len p)
  v ← get_env e
  on_mem (page_insert v.pgdir v.asid p va perm)

-- ELF_FOREACH_PHDR_OFF, over the program headers from `off` on.
pub load_segments : ℕ → (ℕ → ℕ) → ℕ → ℕ → ℕ → Cmd Kernel (Unit {0})
unfolding load_icode_mapper
load_segments zero binary e size off = skip
load_segments (suc headers) binary e size off =
    let rest = load_segments headers binary e size (u32 (off + size)) in
    let ph = phdr_at binary off in
    do
      if ph.p_type == pt_load
          then (λ k. must (elf_load_seg (load_icode_mapper binary e) ph ph.p_offset k))
          else skip
      rest

pub load_elf : Option Ehdr → (ℕ → ℕ) → ℕ → Cmd Kernel (Unit {0})
unfolding load_segments
load_elf none binary e = halt
load_elf (some h) binary e = do
  load_segments h.e_phnum binary e h.e_phentsize h.e_phoff
  set_env e λ v. record v { tf = record v.tf { cp0_epc = h.e_entry } }

pub load_icode : ℕ → (ℕ → ℕ) → ℕ → Cmd Kernel (Unit {0})
unfolding load_elf
load_icode e binary size = load_elf (elf_from binary size) binary e

-- A failed `env_alloc` leaves `e` without a value.
pub created_env : Outcome Kernel ℕ → Outcome Kernel ℕ
created_env (done e k) = done e k
created_env (fail x k) = panic
created_env panic = panic

pub env_create : (ℕ → ℕ) → ℕ → ℕ → Cmd Kernel ℕ
unfolding created_env
env_create binary size priority = do
  e ← λ k. created_env (env_alloc 0 k)
  set_env e λ v. record v { pri = priority }
  set_env e λ v. record v { status = runnable }
  load_icode e binary size
  modify λ k. record k { sched = insert_head e k.sched }
  pure e
