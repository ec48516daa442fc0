-- ===== src/Kernel/Tests.antt =====
-- Examples for the kernel: environments 5, which runs, and 3 are in the queue, 9 waits for a message.
use buaa_os.Prelude.{
  ℕ, ◌+◌, ◌^◌, ◌≡◌, ◌≢◌, ◌↔◌, refl, inl, inr, true, false, some, [], ◌∷◌, arith, ◌==◌,
  if◌then◌else◌,
}
use buaa_os.Prelude.Outcome.{e_bad_env, done, Returns, Ends}
use buaa_os.Memory.Tests.{one_space, one_role, one_space-IsValid}
use buaa_os.Memory.{pte_d}
use buaa_os.Queue.Tests.{pair, pair-Holds}
use buaa_os.Kernel.{Env, Kernel, runnable, not_runnable, free}
use buaa_os.Kernel.Envs.{envid2env}
use buaa_os.Kernel.Envs.Lookup.{Found, Granted, envid2env-Found}
use buaa_os.Kernel.Ready.{Scheduled}
use buaa_os.Kernel.Sched.{schedule}
use buaa_os.Kernel.Sched.Robin.{Rotates, schedule-Rotates}
use buaa_os.Kernel.Syscall.{
  is_illegal_va, sys_mem_map, sys_ipc_try_send, sys_ipc_recv, sys_set_env_status,
  is_illegal_va_range, dev_checked,
}
use buaa_os.Kernel.Syscall.Ipc.{Sends, sys_ipc_try_send-Sends}
use buaa_os.Kernel.Syscall.Range.{InUser, InDevice, is_illegal_va_range_iff, dev_checked_wraps}
use buaa_os.Kernel.Syscall.Recv.{Blocks, sys_ipc_recv-Blocks}
use buaa_os.Kernel.Syscall.SetStatus.{Running, SetsStatus, sys_set_env_status-Scheduled}
use buaa_os.Kernel.Syscall.Space.{Space, Mapped, NotMapped, sys_mem_map-Maps}
use buaa_os.Kernel.Traps.{is_refused, passive_alloc}
use buaa_os.Kernel.Traps.Refill.{Fills, passive_alloc-Fills}

abbrev envs_of_three : ℕ → Env
envs_of_three e = record {
  tf = record { regs = λ r. r; cp0_status = 0x100c; cp0_epc = 0x400000 };
  id = 2 ^ 11 + e;
  asid = 1;
  parent_id = 0;
  status =
      if e == 5
      then runnable
      else (if e == 3 then runnable else (if e == 9 then not_runnable else free));
  pgdir = 0;
  pri = 2;
  ipc_value = 0;
  ipc_from = 0;
  ipc_recving = if e == 9 then 1 else 0;
  ipc_dstva = 0;
  ipc_perm = 0;
  user_tlb_mod_entry = 0;
  runs = 1;
  path = λ i. if i == 0 then 47 else 0;
}

abbrev pub three : Kernel
three = record {
  mem = one_space;
  envs = envs_of_three;
  curenv = some 5;
  env_free_list = 2 ∷ [];
  sched = pair;
  asid_bitmap = λ i. if i == 0 then 7 else 0;
  id_count = 1;
  slices = 1;
  base_pgdir = 4;
  cur_pgdir = 0;
  trap = record { regs = λ r. 0; cp0_status = 0x100c; cp0_epc = 0x400010 };
}

three-Scheduled : Scheduled three (5 ∷ 3 ∷ [])
three-Scheduled = record {
  holds = pair-Holds;
  low = λ e m. ground arith;
  exact = λ e l. ground arith;
}

five-Running : Running three 5
five-Running = record { is = refl; low = omega arith; on = refl }

five-Space : Space three one_role 5
five-Space = record { ok = one_space-IsValid; is_root = refl }

itself : envid2env 0 true three ≡ done 5 three
unfolding envid2env
itself = refl

nine : envid2env 2057 false three ≡ done 9 three
unfolding envid2env
nine = refl

utemp_legal : is_illegal_va 0x3fe000 ≡ false
unfolding is_illegal_va
utemp_legal = refl

above_legal : is_illegal_va 0x800000 ≡ false
unfolding is_illegal_va
above_legal = refl

schedule-Rotates_example : Returns (λ _ k'. Rotates three (5 ∷ 3 ∷ []) 5 k') (schedule true three)
schedule-Rotates_example =
    schedule-Rotates three (5 ∷ 3 ∷ []) 5 true three-Scheduled refl (omega arith) refl (inl refl)

sys_set_env_status-Scheduled_example :
    SetsStatus three 2057 runnable (sys_set_env_status 2057 runnable three)
sys_set_env_status-Scheduled_example =
    sys_set_env_status-Scheduled three (5 ∷ 3 ∷ []) three-Scheduled 5 2057 five-Running runnable

sys_mem_map-Maps_example :
    Ends
      (Mapped three one_role 5 5 0 0 0x3fe000 0x800000 pte_d five-Space five-Space itself itself
        utemp_legal above_legal)
      (NotMapped three one_role 5 5 0 0 0x3fe000 0x800000 pte_d five-Space five-Space itself itself
        utemp_legal above_legal)
      (sys_mem_map 0 0x3fe000 0 0x800000 pte_d three)
sys_mem_map-Maps_example =
    sys_mem_map-Maps three one_role 5 5 0 0 0x3fe000 0x800000 pte_d five-Space five-Space itself
      itself utemp_legal above_legal

sys_ipc_try_send-Sends_example :
    Sends three
      (5 ∷ 3 ∷ [])
      three-Scheduled
      5
      9
      2057
      11
      0
      refl
      nine
      (omega arith)
      (sys_ipc_try_send 2057 11 0 0 three)
sys_ipc_try_send-Sends_example =
    sys_ipc_try_send-Sends three (5 ∷ 3 ∷ []) three-Scheduled 5 9 2057 11 0 refl nine (omega arith)
      (inr refl)

apart : ◌≢◌ {A = ℕ} 3 5
apart e = ground arith

sys_ipc_recv-Blocks_example :
    Returns
      (λ _ k'. Blocks three (5 ∷ 3 ∷ []) three-Scheduled 5 0 five-Running refl 3 apart refl k')
      (sys_ipc_recv 0 three)
sys_ipc_recv-Blocks_example =
    sys_ipc_recv-Blocks three (5 ∷ 3 ∷ []) three-Scheduled 5 0 five-Running refl 3 apart refl

envid2env-Found_example :
    Ends
      (λ e k'. Found three 5 2057 true e × (k' ≡ three))
      (λ r k'.
        (r ≡ e_bad_env) × (◌≢◌ {A = ℕ} 2057 0) × (¬ Granted three 5 2057 true) × (k' ≡ three))
      (envid2env 2057 true three)
envid2env-Found_example = envid2env-Found three 5 2057 true refl

is_illegal_va_range_iff_example : (is_illegal_va_range 0x400000 0x20 ≡ false) ↔ InUser 0x400000 0x20
is_illegal_va_range_iff_example = is_illegal_va_range_iff 0x400000 0x20 (omega arith) (omega arith)

dev_checked_wraps_example :
    (dev_checked 0x400000 0xfffffff0 0x20 ≡ true) × (¬ InDevice 0xfffffff0 0x20)
dev_checked_wraps_example =
    dev_checked_wraps 0x400000 0xfffffff0 0x20 (omega arith) (omega arith) (omega arith)
      (omega arith) (omega arith)

accepts : is_refused 0x801234 ≡ false
unfolding is_refused
accepts = refl

passive_alloc-Fills_example :
    Returns
      (Fills one_space one_role one_space-IsValid 0 1 0x801234 refl
        (omega arith)
        3
        4
        []
        refl
        accepts)
      (passive_alloc 0x801234 0 1 one_space)
passive_alloc-Fills_example =
    passive_alloc-Fills one_space one_role one_space-IsValid 0 1 0x801234 refl (omega arith) 3 4 []
      refl accepts
