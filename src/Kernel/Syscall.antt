-- ===== src/Kernel/Syscall.antt =====
-- The system calls of kern/syscall_all.c. `mmio` and user memory, which `sys_write_dev`,
-- `sys_read_dev` and `sys_set_trapframe` copy, are outside the model; their checks are in it.
pub mod Ipc
pub mod Range
pub mod Recv
pub mod Space
pub mod SetStatus
use buaa_os.Prelude.{
  ℕ, zero, suc, ◌+◌, ◌-◌, ◌%◌, ◌^◌, bit_or, Bool, true, false, not, ◌&&◌, ◌||◌, Option, none, some,
  ltb, leb, ◌==◌, if◌then◌else◌, update,
}
use buaa_os.Prelude.Outcome.{
  Outcome, Cmd, Errno, e_bad_env, e_inval, e_ipc_not_recv, done, fail, panic, pure, throw, halt,
  skip, ◌>>=◌, ◌>>◌, reads, modify, or_error, ignore,
}
use buaa_os.Memory.{Ptr, u32, pte_v, page_alloc, page_lookup, page_insert, page_remove}
use buaa_os.Queue.{insert_tail, remove}
use buaa_os.Kernel.{
  Trapframe, Env, Kernel, Status, free, runnable, not_runnable, on_mem, on_sched, set_env, get_env,
  current, is_runnable,
}
use buaa_os.Kernel.Envs.{envid2env, env_alloc, utop}
use buaa_os.Kernel.Sched.{schedule}
use buaa_os.Kernel.Destroy.{env_destroy}

-- UTEMP
abbrev pub utemp : ℕ
utemp = 0x3fe000

unfoldable pub is_illegal_va : ℕ → Bool
is_illegal_va va = ltb va utemp || leb utop va

-- Sums of `u_long` wrap.
pub is_illegal_va_range : ℕ → ℕ → Bool
is_illegal_va_range va len =
    not (len == 0) && (ltb (u32 (va + len)) va || ltb va utemp || ltb utop (u32 (va + len)))

-- The devices' addresses that `sys_write_dev` and `sys_read_dev` let through.
pub in_devices : ℕ → ℕ → Bool
in_devices pa len =
    (leb 0x10000000 pa && leb (u32 (pa + len)) 0x10000020)
    || (leb 0x13000000 pa && leb (u32 (pa + len)) 0x13004200)
    || (leb 0x15000000 pa && leb (u32 (pa + len)) 0x15000200)

-- Whether `sys_write_dev` and `sys_read_dev` copy, or return -E_INVAL.
pub dev_checked : ℕ → ℕ → ℕ → Bool
unfolding is_illegal_va_range in_devices
dev_checked va pa len = not (is_illegal_va_range va len) && in_devices pa len

pub sys_getenvid : Cmd Kernel ℕ
sys_getenvid = do cur ← current; v ← get_env cur; pure v.id

pub sys_yield : Cmd Kernel (Unit {0})
sys_yield = schedule true

-- `true` if the caller itself is gone.
pub sys_env_destroy : ℕ → Cmd Kernel Bool
sys_env_destroy envid = do e ← envid2env envid true; env_destroy e

pub sys_set_tlb_mod_entry : ℕ → ℕ → Cmd Kernel (Unit {0})
sys_set_tlb_mod_entry envid func = do
  e ← envid2env envid false
  set_env e λ v. record v { user_tlb_mod_entry = func }

pub sys_mem_alloc : ℕ → ℕ → ℕ → Cmd Kernel (Unit {0})
sys_mem_alloc envid va perm = if is_illegal_va va then throw e_inval else do
  e ← or_error (envid2env envid true) e_bad_env
  v ← get_env e
  pp ← on_mem page_alloc
  on_mem (page_insert v.pgdir v.asid pp va perm)

map_found : Env → ℕ → ℕ → Option (ℕ × Ptr) → Cmd Kernel (Unit {0})
map_found v va perm none = throw e_inval
map_found v va perm (some (pp, ptr)) = on_mem (page_insert v.pgdir v.asid pp va perm)

pub sys_mem_map : ℕ → ℕ → ℕ → ℕ → ℕ → Cmd Kernel (Unit {0})
unfolding map_found
sys_mem_map srcid srcva dstid dstva perm =
    if is_illegal_va srcva || is_illegal_va dstva then throw e_inval else do
      src ← or_error (envid2env srcid true) e_bad_env
      dst ← or_error (envid2env dstid true) e_bad_env
      v ← get_env src
      w ← get_env dst
      found ← on_mem (page_lookup v.pgdir srcva)
      map_found w dstva perm found

pub sys_mem_unmap : ℕ → ℕ → Cmd Kernel (Unit {0})
sys_mem_unmap envid va = if is_illegal_va va then throw e_inval else do
  e ← or_error (envid2env envid true) e_bad_env
  v ← get_env e
  on_mem (page_remove v.pgdir v.asid va)

-- `strcpy(e->env_path, curenv->env_path)` copies up to the first 0; the bytes behind stay. The fuel
-- is the size of `env_path`.
copy_path : ℕ → ℕ → (ℕ → ℕ) → (ℕ → ℕ) → (ℕ → ℕ)
copy_path zero i from to = to
copy_path (suc rounds) i from to =
    let rest = copy_path rounds (i + 1) from (update to i (from i)) in
    if from i == 0 then update to i 0 else rest

-- The child's identifier; the child itself starts with 0 in `$v0`.
pub sys_exofork : Cmd Kernel ℕ
unfolding copy_path
sys_exofork = do
  cur ← current
  parent ← get_env cur
  e ← env_alloc parent.id
  tf ← reads λ k. k.trap
  set_env e λ v. record v { tf = record tf { regs = update tf.regs 2 0 } }
  from ← get_env cur
  set_env e λ v. record v {
    status = not_runnable;
    pri = from.pri;
    path = copy_path (2 ^ 10) 0 from.path v.path;
  }
  v ← get_env e
  pure v.id

wake : Status → ℕ → Cmd Kernel (Unit {0})
wake not_runnable e = on_sched (insert_tail e)
wake runnable e = skip
wake free e = skip

-- `free` stands for every value but ENV_RUNNABLE and ENV_NOT_RUNNABLE.
pub sys_set_env_status : ℕ → Status → Cmd Kernel (Unit {0})
unfolding wake
sys_set_env_status envid free = throw e_inval
sys_set_env_status envid runnable = do
  e ← envid2env envid false
  v ← get_env e
  wake v.status e
  set_env e λ w. record w { status = runnable }
sys_set_env_status envid not_runnable = do
  e ← envid2env envid false
  v ← get_env e
  if is_runnable v.status then on_sched (remove e) else skip
  set_env e λ w. record w { status = not_runnable }

block : ℕ → ℕ → Cmd Kernel (Unit {0})
block dstva cur = do
  set_env cur λ v. record v { ipc_recving = 1 }
  set_env cur λ v. record v { ipc_dstva = dstva }
  set_env cur λ v. record v { status = not_runnable }
  on_sched (remove cur)
  modify λ k. record k { trap = record k.trap { regs = update k.trap.regs 2 0 } }

-- It does not return to the caller, except on an error: another environment runs.
pub sys_ipc_recv : ℕ → Cmd Kernel (Unit {0})
unfolding block
sys_ipc_recv dstva =
    if not (dstva == 0) && is_illegal_va dstva
    then throw e_inval
    else do cur ← current; block dstva cur; schedule true

send_page : ℕ → ℕ → Option (ℕ × Ptr) → Cmd Kernel (Unit {0})
send_page e perm none = throw e_inval
send_page e perm (some (pp, ptr)) = do
  v ← get_env e
  ignore (on_mem (page_insert v.pgdir v.asid pp v.ipc_dstva perm))

deliver : ℕ → ℕ → ℕ → ℕ → Cmd Kernel (Unit {0})
unfolding send_page
deliver e value srcva perm = do
  cur ← current
  from ← get_env cur
  set_env e λ v. record v {
    ipc_value = value;
    ipc_from = from.id;
    ipc_perm = bit_or pte_v perm;
    ipc_recving = 0;
  }
  set_env e λ v. record v { status = runnable }
  on_sched (insert_tail e)
  if srcva == 0 then skip else (do
    sender ← get_env cur
    found ← on_mem (page_lookup sender.pgdir srcva)
    send_page e perm found)

pub sys_ipc_try_send : ℕ → ℕ → ℕ → ℕ → Cmd Kernel (Unit {0})
unfolding deliver
sys_ipc_try_send envid value srcva perm =
    if not (srcva == 0) && is_illegal_va srcva then throw e_inval else do
      e ← envid2env envid false
      v ← get_env e
      if v.ipc_recving == 0 then throw e_ipc_not_recv else deliver e value srcva perm
