-- ===== src/Kernel/Syscall/Recv.antt =====
-- `sys_ipc_recv` of kern/syscall_all.c.
use buaa_os.Prelude.{
  ℕ, ◌≡◌, ◌≢◌, refl, true, false, not, ◌&&◌, some, List, [], ◌∷◌, ◌++◌, arith, ◌==◌, sym, ap, ◌∙◌,
  update, has,
}
use mathlib.Core.List.{head?}
use buaa_os.Prelude.Outcome.{Returns, Returns-mono}
use buaa_os.Queue.{Tailq}
use buaa_os.Queue.Chain.{has-append}
use buaa_os.Kernel.{Env, Kernel, not_runnable}
use buaa_os.Kernel.Ready.{Scheduled, Scheduled-remove}
use buaa_os.Kernel.Sched.Block.{Leaves, schedule-Leaves}
use buaa_os.Kernel.Syscall.{is_illegal_va, sys_ipc_recv, block}
use buaa_os.Kernel.Syscall.SetStatus.{Running}

module _ (k : Kernel) (xs : List ℕ) (h : Scheduled k xs) (cur dstva : ℕ) (r : Running k cur)
    (legal : (not (dstva == 0) && is_illegal_va dstva) ≡ false) (other : ℕ) (apart : other ≢ cur)
    (waits : has other xs ≡ true) where
  -- The caller waits for a message, out of the queue, and will start again with 0 in `$v0`; the
  -- first of the others runs.
  abbrev pub Blocks : Kernel → Type 0
  Blocks k' =
      (ys zs : List ℕ) × (xs ≡ ys ++ cur ∷ zs)
      × Scheduled k' (ys ++ zs)
      × ((e : ℕ) × (head? (ys ++ zs) ≡ some e) × (k'.curenv ≡ some e))
      × ((k'.envs cur).ipc_recving ≡ 1)
      × ((k'.envs cur).ipc_dstva ≡ dstva)
      × ((k'.envs cur).status ≡ not_runnable)
      × ((k'.envs cur).tf.regs 2 ≡ 0)

  abbrev listens : ℕ → Env
  listens = update k.envs cur (record (k.envs cur) { ipc_recving = 1 })

  abbrev aims : ℕ → Env
  aims = update listens cur (record (listens cur) { ipc_dstva = dstva })

  abbrev blocked : Tailq → Kernel
  blocked q = record k {
    sched = q;
    curenv = some cur;
    envs = update aims cur (record (aims cur) { status = not_runnable });
    trap = record k.trap { regs = update k.trap.regs 2 0 };
  }

  -- The queue holds exactly the runnable environments, the current one is runnable, and so is
  -- another. `sys_ipc_recv` with 0 or a legal address: the caller waits for a message, is no
  -- longer runnable and out of the queue, and will start again with 0 as the result; the first of
  -- the queue runs.
  pub sys_ipc_recv-Blocks : Returns (λ _ k'. Blocks k') (sys_ipc_recv dstva k)
  unfolding sys_ipc_recv block
  sys_ipc_recv-Blocks =
      let (ys, zs, q, at, out, ran, removed, after) = Scheduled-remove k xs cur h r.low r.on in
      let left = after (blocked q) refl (ground arith) (λ d ne. ground arith) in
      let there : (ys ++ zs) ≢ [] = λ e. ground (
        arith,
        sym (ap (has other) at) ∙ waits,
        ap (has other) e,
        has-append other ys zs,
        has-append other ys (cur ∷ zs),
      ) in
      rw (legal, r.is, ran)
        (Returns-mono (λ _ k'. Leaves (blocked q) (ys ++ zs) cur k') (λ _ k'. Blocks k') _
          (schedule-Leaves (blocked q) cur (ground arith) refl ys zs left removed.1 out there)
          (λ u k' (s, runs, same). (
            ys,
            zs,
            at,
            s,
            runs,
            rw same (ground arith),
            rw same (ground arith),
            rw same (ground arith),
            rw same refl,
          )))
