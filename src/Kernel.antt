-- ===== src/Kernel.antt =====
-- The kernel's state: kern/env.c, kern/sched.c and include/env.h over the memory of kern/pmap.c.
-- An environment `struct Env *e` is its index in `envs`. `env_free_list` is the sequence of its
-- members; `env_sched_list` is the tail queue of include/queue.h with its pointers. A page
-- directory is named by its page.
pub mod Destroy
pub mod Envs
pub mod Load
pub mod Ready
pub mod Sched
pub mod Syscall
pub mod Tests
pub mod Traps
use buaa_os.Prelude.{ℕ, Bool, true, false, Option, none, some, List, update, ◌==◌, if◌then◌else◌}
use buaa_os.Prelude.Outcome.{Cmd, done, panic, reads, modify, within}
use buaa_os.Bitmap.{Bitmap}
use buaa_os.Memory.{Mem}
use buaa_os.Queue.{Tailq}

-- The saved registers: the general ones, and those of coprocessor 0 that the code touches.
pub record Trapframe : Type 0 where
  pub regs : ℕ → ℕ
  pub cp0_status : ℕ
  pub cp0_epc : ℕ

-- ENV_FREE, ENV_RUNNABLE and ENV_NOT_RUNNABLE
pub data Status : Type 0 where
  free runnable not_runnable : Status

-- `status == ENV_RUNNABLE`
abbrev pub is_runnable : Status → Bool
is_runnable runnable = true
is_runnable free = false
is_runnable not_runnable = false

abbrev pub is_free : Status → Bool
is_free free = true
is_free runnable = false
is_free not_runnable = false

pub record Env : Type 0 where
  pub tf : Trapframe
  pub id : ℕ
  pub asid : ℕ
  pub parent_id : ℕ
  pub status : Status
  pub pgdir : ℕ
  pub pri : ℕ
  pub ipc_value : ℕ
  pub ipc_from : ℕ
  pub ipc_recving : ℕ
  pub ipc_dstva : ℕ
  pub ipc_perm : ℕ
  pub user_tlb_mod_entry : ℕ
  pub runs : ℕ
  pub path : ℕ → ℕ

-- `id_count` is the counter of `mkenvid`, `slices` that of `schedule`, a 32-bit pattern. `trap` is
-- the trap frame below KSTACKTOP.
pub record Kernel : Type 0 where
  pub mem : Mem
  pub envs : ℕ → Env
  pub curenv : Option ℕ
  pub env_free_list : List ℕ
  pub sched : Tailq
  pub asid_bitmap : Bitmap
  pub id_count : ℕ
  pub slices : ℕ
  pub base_pgdir : ℕ
  pub cur_pgdir : ℕ
  pub trap : Trapframe

-- A command of the memory, and one of the scheduling queue.
abbrev pub on_mem {ℓ} : {A : Type ℓ} → Cmd Mem A → Cmd Kernel A
on_mem m = within (λ k. k.mem) (λ k s. record k { mem = s }) m

abbrev pub on_sched {ℓ} : {A : Type ℓ} → Cmd Tailq A → Cmd Kernel A
on_sched m = within (λ k. k.sched) (λ k q. record k { sched = q }) m

abbrev pub set_env : ℕ → (Env → Env) → Cmd Kernel (Unit {0})
set_env e f = modify λ k. record k { envs = update k.envs e (f (k.envs e)) }

abbrev pub get_env : ℕ → Cmd Kernel Env
get_env e = reads λ k. k.envs e

-- `curenv`, where the code dereferences it at once.
abbrev pub current : Cmd Kernel ℕ
current k = elim k.curenv [ none ↦ panic | some e ↦ done e k ]
