-- ===== src/Kernel/Destroy.antt =====
-- The end of an environment: `env_free` and `env_destroy` of kern/env.c.
use buaa_os.Prelude.{
  ℕ, zero, suc, ◌+◌, ◌*◌, ◌^◌, bit_or, Bool, true, false, Option, none, some, ◌∷◌, ◌==◌,
  if◌then◌else◌,
}
use buaa_os.Prelude.Outcome.{Cmd, pure, ◌>>=◌, ◌>>◌, reads, modify}
use buaa_os.Memory.{
  Mem, pdx, valid, pte_addr, kaddr, pa2page, page2pa, page_decref, page_remove, load, store,
  tlb_invalidate,
}
use buaa_os.Queue.{remove}
use buaa_os.Kernel.{Env, Kernel, free, on_mem, on_sched, set_env, get_env}
use buaa_os.Kernel.Envs.{asid_free, utop, uvpt}
use buaa_os.Kernel.Sched.{schedule}

-- The loop over the entries of the table `pt` for the directory entry `d`, from `i` on.
unmap_table : ℕ → ℕ → ℕ → ℕ → ℕ → ℕ → Cmd Mem (Unit {0})
unmap_table zero i pgdir asid d pt = pure tt
unmap_table (suc rounds) i pgdir asid d pt =
    let rest = unmap_table rounds (i + 1) pgdir asid d pt in
    do
      pte ← load (pt, i)
      if valid pte then page_remove pgdir asid (bit_or (d * 2 ^ 22) (i * 2 ^ 12)) else pure tt
      rest

free_table : ℕ → ℕ → ℕ → ℕ → Cmd Mem (Unit {0})
unfolding unmap_table
free_table pgdir asid d pde = do
  pt ← kaddr (pte_addr pde)
  unmap_table (2 ^ 10) 0 pgdir asid d pt
  store (pgdir, d) 0
  pp ← pa2page (pte_addr pde)
  page_decref pp
  tlb_invalidate asid (uvpt + d * 2 ^ 12)

-- The loop over the directory's entries below UTOP, from `d` on.
free_tables : ℕ → ℕ → ℕ → ℕ → Cmd Mem (Unit {0})
unfolding free_table
free_tables zero d pgdir asid = pure tt
free_tables (suc rounds) d pgdir asid =
    let rest = free_tables rounds (d + 1) pgdir asid in
    do pde ← load (pgdir, d); if valid pde then free_table pgdir asid d pde else pure tt; rest

free_memory : Env → Cmd Mem (Unit {0})
unfolding free_tables
free_memory v = do
  free_tables (pdx utop) 0 v.pgdir v.asid
  pp ← pa2page (page2pa v.pgdir)
  page_decref pp

pub env_free : ℕ → Cmd Kernel (Unit {0})
unfolding free_memory
env_free e = do
  v ← get_env e
  on_mem (free_memory v)
  asid_free v.asid
  on_mem (tlb_invalidate v.asid (uvpt + pdx uvpt * 2 ^ 12))
  set_env e λ w. record w { status = free }
  modify λ k. record k { env_free_list = e ∷ k.env_free_list }
  on_sched (remove e)

abbrev is_current : ℕ → Option ℕ → Bool
is_current e none = false
is_current e (some c) = c == e

-- `false` if the call returns, `true` if another environment runs instead.
pub env_destroy : ℕ → Cmd Kernel Bool
unfolding env_free
env_destroy e = do
  env_free e
  cur ← reads λ k. k.curenv
  if is_current e cur
      then (do modify λ k. record k { curenv = none }; schedule true; pure true)
      else pure false
