-- ===== src/Kernel/Envs.antt =====
-- Environments: kern/env.c.
pub mod Alloc
pub mod Lookup
use buaa_os.Prelude.{
  ℕ, zero, suc, ◌+◌, ◌-◌, ◌*◌, ◌/◌, ◌%◌, ◌^◌, bit_or, Bool, true, false, not, ◌&&◌, ◌||◌, Option,
  none, some, List, [], ◌∷◌, ltb, leb, ◌==◌, if◌then◌else◌, update,
}
use buaa_os.Prelude.Outcome.{
  Outcome, Cmd, Errno, e_bad_env, e_no_free_env, done, fail, panic, pure, throw, halt, ◌>>=◌, ◌>>◌,
  reads, modify, or_error,
}
use buaa_os.Bitmap.{Bitmap, test, mark, unmark}
use buaa_os.Memory.{
  Mem, u32, pdx, pte_v, valid, page2pa, pte_addr, ppn_of, page_alloc, page_decref, page_remove,
  incref, pa2page, load, store, tlb_invalidate,
}
use buaa_os.Queue
use buaa_os.Kernel.{
  Trapframe, Status, Env, Kernel, on_mem, on_sched, set_env, get_env, current, is_free,
}

-- NASID and NENV
abbrev pub nasid : ℕ
nasid = 64

abbrev pub nenv : ℕ
nenv = 2 ^ 10

-- The loop of `asid_alloc`: the ASIDs from `i` on, as many as the fuel.
pub find_asid : ℕ → ℕ → Bitmap → Option ℕ
find_asid zero i b = none
find_asid (suc fuel) i b = let rest = find_asid fuel (i + 1) b in if test b i then rest else some i

take_asid : Option ℕ → Cmd Kernel ℕ
take_asid none = throw e_no_free_env
take_asid (some i) = do modify λ k. record k { asid_bitmap = mark k.asid_bitmap i }; pure i

pub asid_alloc : Cmd Kernel ℕ
asid_alloc k = take_asid (find_asid nasid 0 k.asid_bitmap) k

pub asid_free : ℕ → Cmd Kernel (Unit {0})
asid_free i = modify λ k. record k { asid_bitmap = unmark k.asid_bitmap i }

-- `((++i) << (1 + LOG2NENV)) | (e - envs)`
pub mkenvid : ℕ → Cmd Kernel ℕ
mkenvid e = do
  modify λ k. record k { id_count = u32 (k.id_count + 1) }
  i ← reads λ k. k.id_count
  pure (bit_or (u32 (i * 2 ^ 11)) e)

-- ENVX
abbrev pub envx : ℕ → ℕ
envx envid = envid % nenv

-- With `checkperm` the environment is the current one or its child.
permitted : ℕ → ℕ → Cmd Kernel ℕ
permitted e cur k =
    if (k.envs e).id == (k.envs cur).id || (k.envs e).parent_id == (k.envs cur).id
    then done e k
    else fail e_bad_env k

find_env : ℕ → Bool → ℕ → Cmd Kernel ℕ
unfolding permitted
find_env envid checkperm e k =
    if is_free (k.envs e).status || not ((k.envs e).id == envid)
    then fail e_bad_env k
    else (if checkperm then (current >>= permitted e) k else done e k)

-- The callers use the environment at once, so `curenv` being NULL is a fault already here.
unfoldable pub envid2env : ℕ → Bool → Cmd Kernel ℕ
unfolding find_env
envid2env envid checkperm k =
    if envid == 0 then current k else find_env envid checkperm (envx envid) k

-- PDX(UTOP) and PDX(UVPT), and the addresses that they come from.
abbrev pub utop : ℕ
utop = 0x7f400000

abbrev pub uvpt : ℕ
uvpt = 0x7fc00000

abbrev pub ustacktop : ℕ
ustacktop = utop - 2 * 2 ^ 12

-- The directory `p` with the entries of the template in [UTOP, UVPT) and itself at UVPT.
template : ℕ → Kernel → Mem → Mem
template p k s = record s {
  frame = update s.frame p (λ i.
      if i == pdx uvpt
      then bit_or (page2pa p) pte_v
      else (if leb (pdx utop) i && ltb i (pdx uvpt) then s.frame k.base_pgdir i else s.frame p i));
}

pub env_setup_vm : ℕ → Cmd Kernel (Unit {0})
unfolding template
env_setup_vm e = do
  p ← on_mem page_alloc
  on_mem (incref p)
  set_env e λ v. record v { pgdir = p }
  modify λ k. record k { mem = template p k k.mem }

-- STATUS_IM4 | STATUS_KUp | STATUS_IEp
abbrev pub user_status : ℕ
user_status = 0x100c

user_frame : Trapframe → Trapframe
user_frame tf = record tf { cp0_status = user_status; regs = update tf.regs 29 (ustacktop - 8) }

fill_env : ℕ → ℕ → Cmd Kernel ℕ
unfolding user_frame
fill_env parent_id e = do
  env_setup_vm e
  set_env e λ v. record v { user_tlb_mod_entry = 0; runs = 0 }
  envid ← mkenvid e
  set_env e λ v. record v { id = envid }
  asid ← or_error asid_alloc e_no_free_env
  set_env e λ v. record v { asid = asid }
  set_env e
      λ v. record v { parent_id = parent_id; path = update v.path 0 b'/'; tf = user_frame v.tf }
  pure e

from_free : ℕ → List ℕ → Cmd Kernel ℕ
unfolding fill_env
from_free parent_id [] = throw e_no_free_env
from_free parent_id (e ∷ rest) = do
  fill_env parent_id e
  modify λ k. record k { env_free_list = rest }
  pure e

-- The new environment.
pub env_alloc : ℕ → Cmd Kernel ℕ
unfolding from_free
env_alloc parent_id k = from_free parent_id k.env_free_list k
