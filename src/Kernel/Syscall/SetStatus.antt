-- ===== src/Kernel/Syscall/SetStatus.antt =====
-- `sys_set_env_status` of kern/syscall_all.c keeps the scheduler's invariant.
use buaa_os.Prelude.{
  ℕ, ◌<◌, ◌≡◌, ◌≢◌, ◌⊎◌, inl, inr, refl, true, false, some, List, [], ◌∷◌, ◌++◌, arith, ap, update,
}
use buaa_os.Prelude.Outcome.{Outcome, e_bad_env, e_inval, done, fail, Ends}
use buaa_os.Queue.{Tailq}
use buaa_os.Kernel.{Kernel, Status, free, runnable, not_runnable, is_runnable, is_free}
use buaa_os.Kernel.Envs.{nenv, envid2env}
use buaa_os.Kernel.Envs.Lookup.{envid2env-cases}
use buaa_os.Kernel.Ready.{Scheduled, Scheduled-insert, Scheduled-remove, Scheduled-keep}
use buaa_os.Kernel.Syscall.{sys_set_env_status}

-- A current environment that runs.
pub record Running (k : Kernel) (cur : ℕ) : Type 0 where
  pub is : k.curenv ≡ some cur
  pub low : cur < nenv
  pub on : is_runnable (k.envs cur).status ≡ true

pub running_used : (k : Kernel) (cur : ℕ) → Running k cur → is_free (k.envs cur).status ≡ false
running_used k cur r = ground (arith, r.on)

Status-cases : (t : Status) → (t ≡ free) ⊎ (t ≡ runnable) ⊎ (t ≡ not_runnable)
Status-cases free = inl refl
Status-cases runnable = inr (inl refl)
Status-cases not_runnable = inr (inr refl)

-- The environment of the identifier has the status, and the queue is exact again.
abbrev pub SetsStatus : Kernel → ℕ → Status → Outcome Kernel (Unit {0}) → Type 0
SetsStatus k envid status =
    Ends
      (λ _ k'.
        (e : ℕ) × (envid2env envid false k ≡ done e k)
        × ((k'.envs e).status ≡ status)
        × (ys : List ℕ) × Scheduled k' ys)
      (λ r k'. ((r ≡ e_bad_env) ⊎ ((r ≡ e_inval) × (status ≡ free))) × (k' ≡ k))

module _ (k : Kernel) (xs : List ℕ) (h : Scheduled k xs) (envid e : ℕ)
    (found : envid2env envid false k ≡ done e k) (l : e < nenv) where
  abbrev with_status : Status → Tailq → Kernel
  with_status t q = record k {
    sched = q;
    envs = update k.envs e (record (k.envs e) { status = t });
  }

  wakes :
      (k.envs e).status ≡ not_runnable
      → SetsStatus k envid runnable (sys_set_env_status envid runnable k)
  unfolding sys_set_env_status
  wakes off =
      let (q, ran, after) = Scheduled-insert k xs e h l (rw off refl) in
      rw (found, off, ran)
        (
          e,
          refl,
          ground arith,
          xs ++ e ∷ [],
          after (with_status runnable q) refl (ground arith) (λ d ne. ground arith),
        )

  stays_awake :
      (k.envs e).status ≡ runnable
      → SetsStatus k envid runnable (sys_set_env_status envid runnable k)
  unfolding sys_set_env_status
  stays_awake on =
      rw (found, on)
        (
          e,
          refl,
          ground arith,
          xs,
          Scheduled-keep k (with_status runnable k.sched) xs h refl (λ d. ground arith),
        )

  sleeps :
      (k.envs e).status ≡ runnable
      → SetsStatus k envid not_runnable (sys_set_env_status envid not_runnable k)
  unfolding sys_set_env_status
  sleeps on =
      let (as', bs, q, at, out, ran, removed, after) = Scheduled-remove k xs e h l (rw on refl) in
      rw (found, on, ran)
        (
          e,
          refl,
          ground arith,
          as' ++ bs,
          after (with_status not_runnable q) refl (ground arith) (λ d ne. ground arith),
        )

  stays_asleep :
      (k.envs e).status ≡ not_runnable
      → SetsStatus k envid not_runnable (sys_set_env_status envid not_runnable k)
  unfolding sys_set_env_status
  stays_asleep off =
      rw (found, off)
        (
          e,
          refl,
          ground arith,
          xs,
          Scheduled-keep k (with_status not_runnable k.sched) xs h refl (λ d. ground arith),
        )

module _ (k : Kernel) (xs : List ℕ) (h : Scheduled k xs) (cur envid : ℕ) (run : Running k cur) where
  at_env :
      (status : Status)
      → status ≢ free
      → (e : ℕ) → envid2env envid false k ≡ done e k
      → e < nenv
      → is_free (k.envs e).status ≡ false
      → SetsStatus k envid status (sys_set_env_status envid status k)
  at_env free ne e found l used = absurd (ne refl)
  at_env runnable ne e found l used = elim (Status-cases (k.envs e).status) [
    | inl t ↦ absurd (cc (ap is_free t))
    | inr (inl t) ↦ stays_awake k xs h envid e found l t
    | inr (inr t) ↦ wakes k xs h envid e found l t
  ]
  at_env not_runnable ne e found l used = elim (Status-cases (k.envs e).status) [
    | inl t ↦ absurd (cc (ap is_free t))
    | inr (inl t) ↦ sleeps k xs h envid e found l t
    | inr (inr t) ↦ stays_asleep k xs h envid e found l t
  ]

  refused :
      (status : Status)
      → status ≢ free
      → envid2env envid false k ≡ fail e_bad_env k
      → SetsStatus k envid status (sys_set_env_status envid status k)
  unfolding sys_set_env_status
  refused free ne bad = absurd (ne refl)
  refused runnable ne bad = rw bad (inl refl, refl)
  refused not_runnable ne bad = rw bad (inl refl, refl)

  settles :
      (status : Status)
      → status ≢ free
      → SetsStatus k envid status (sys_set_env_status envid status k)
  settles status ne =
      elim (envid2env-cases k cur envid false run.is run.low (running_used k cur run)) [
        | inl (e, found, l, used) ↦ at_env status ne e found l used
        | inr bad ↦ refused status ne bad
      ]

  -- The queue holds exactly the runnable environments, and the current one is runnable.
  -- `sys_set_env_status` gives the environment the status, and the queue again holds exactly the
  -- runnable ones; or it returns an error, and then nothing has changed.
  pub sys_set_env_status-Scheduled :
      (status : Status) → SetsStatus k envid status (sys_set_env_status envid status k)
  unfolding sys_set_env_status
  sys_set_env_status-Scheduled free = (inr (refl, refl), refl)
  sys_set_env_status-Scheduled runnable = settles runnable (λ p. cc)
  sys_set_env_status-Scheduled not_runnable = settles not_runnable (λ p. cc)
