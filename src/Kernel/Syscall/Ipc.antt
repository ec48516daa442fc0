-- ===== src/Kernel/Syscall/Ipc.antt =====
-- The system calls of kern/syscall_all.c that pass messages.
use buaa_os.Prelude.{
  ℕ, ◌<◌, ◌≡◌, ◌≢◌, ◌⊎◌, inl, inr, refl, false, some, List, [], ◌∷◌, ◌++◌, arith, ◌==◌, Bool-cases,
  update, ==_eq, bit_or,
}
use buaa_os.Prelude.Outcome.{Outcome, e_ipc_not_recv, done, fail, panic, Ends, Returns}
use buaa_os.Memory.{pte_v}
use buaa_os.Kernel.{Env, Kernel, runnable, not_runnable}
use buaa_os.Kernel.Envs.{nenv, envid2env}
use buaa_os.Kernel.Ready.{Scheduled, Scheduled-insert}
use buaa_os.Kernel.Syscall.{sys_ipc_try_send, deliver}

module _ (k : Kernel) (xs : List ℕ) (h : Scheduled k xs) (cur e envid value perm : ℕ)
    (is : k.curenv ≡ some cur) (found : envid2env envid false k ≡ done e k) (low : e < nenv) where
  -- The receiver has the message and waits no more; it is runnable, at the end of the queue.
  abbrev pub Received : Unit {0} → Kernel → Type 0
  Received _ k' =
      ((k'.envs e).ipc_value ≡ value)
      × ((k'.envs e).ipc_from ≡ (k.envs cur).id)
      × ((k'.envs e).ipc_perm ≡ bit_or pte_v perm)
      × ((k'.envs e).ipc_recving ≡ 0)
      × Scheduled k' (xs ++ e ∷ [])
      × ((d : ℕ) → d ≢ e → k'.envs d ≡ k.envs d)

  abbrev told : ℕ → Env
  told = update k.envs e (record (k.envs e) {
    ipc_value = value;
    ipc_from = (k.envs cur).id;
    ipc_perm = bit_or pte_v perm;
    ipc_recving = 0;
  })

  delivers : (k.envs e).status ≡ not_runnable → Returns Received (deliver e value 0 perm k)
  unfolding deliver
  delivers off =
      let (q, ran, after) = Scheduled-insert k xs e h low (rw off refl) in
      rw (is, ran)
        (
          ground arith,
          ground arith,
          ground arith,
          ground arith,
          after
              (record k {
                curenv = some cur;
                sched = q;
                envs = update told e (record (told e) { status = runnable });
              })
              refl (ground arith) (λ d ne. ground arith),
          λ d ne. ground arith,
        )

  abbrev pub Sends : Outcome Kernel (Unit {0}) → Type 0
  Sends =
      Ends (λ u k'. ((k.envs e).ipc_recving ≢ 0) × Received u k')
        (λ r k'. (r ≡ e_ipc_not_recv) × ((k.envs e).ipc_recving ≡ 0) × (k' ≡ k))

  sent : (k.envs e).ipc_recving ≢ 0 → (o : Outcome Kernel (Unit {0})) → Returns Received o → Sends o
  sent n (done u k') h = (n, h)
  sent n (fail r k') h = absurd h
  sent n panic h = absurd h

  -- A message without a page, sent to an environment that does not wait, or that waits and is
  -- blocked: it is refused, and nothing changes, exactly if the receiver does not wait. Otherwise
  -- the receiver has it, is at the end of the queue, and no other environment changes.
  pub sys_ipc_try_send-Sends :
      (((k.envs e).ipc_recving ≡ 0) ⊎ ((k.envs e).status ≡ not_runnable))
      → Sends (sys_ipc_try_send envid value 0 perm k)
  unfolding sys_ipc_try_send
  sys_ipc_try_send-Sends waits = elim (Bool-cases ((k.envs e).ipc_recving == 0)) [
    | inl z ↦ rw (found, z) (refl, ==_eq _ _ z, refl)
    | inr n ↦
        rw (found, n) (sent (ground arith) (deliver e value 0 perm k) (delivers (ground arith)))
  ]
