-- ===== src/Kernel/Load/Start.antt =====
-- The environments after `env_init` (kern/env.c).
use buaa_os.Prelude.{
  ℕ, zero, suc, ◌+◌, ◌-◌, ◌*◌, ◌<◌, ◌≤◌, ◌≡◌, refl, sym, ap, ◌∙◌, subst, some, List, [], ◌∷◌,
  length, get_elem?, update, arith,
}
use native.Mathlib.Decide.{ℕ_discrete}
use buaa_os.Prelude.Outcome.{
  Outcome, Cmd, done, fail, panic, IfReturns, IfReturns-bind, Returns, Returns-mono, ◌>>=◌, modify,
  reads, lifting,
}
use buaa_os.Memory.{Mem, page_alloc, incref, pte_g}
use buaa_os.Queue.{init}
use buaa_os.Queue.Chain.{Holds, init-Holds}
use buaa_os.Kernel.{Kernel, free, on_mem, is_runnable}
use buaa_os.Kernel.Envs.{nenv}
use buaa_os.Kernel.Ready.{Scheduled}
use buaa_os.Kernel.Traps.{upages}
use buaa_os.Kernel.Load.{
  init_lists, must, uenvs, map_segment, free_envs, round_page, page_size, env_init,
}

-- All environments before `n` are free, and the free list names them in their order before `l`.
record Freed (n : ℕ) (k k' : Kernel) : Type 0 where
  pub sched : k'.sched ≡ k.sched
  pub named : (i : ℕ) → i < n → get_elem? k'.env_free_list i ≡ some i
  pub after : (i : ℕ) → n ≤ i → get_elem? k'.env_free_list i ≡ get_elem? k.env_free_list (i - n)
  pub counted : length k'.env_free_list ≡ n + length k.env_free_list
  pub statuses : (i : ℕ) → i < n → (k'.envs i).status ≡ free
  pub others : (i : ℕ) → n ≤ i → (k'.envs i).status ≡ (k.envs i).status

-- The environment `i`, freed.
abbrev with_free : ℕ → Kernel → Kernel
with_free i k = record k {
  envs = update k.envs i (record (k.envs i) { status = free });
  env_free_list = i ∷ k.env_free_list;
}

at_front : (i : ℕ) (xs : List ℕ) (d : ℕ) → d ≡ 0 → get_elem? (i ∷ xs) d ≡ some i
at_front i xs d e = subst (λ d. get_elem? (i ∷ xs) d ≡ some i) (sym e) refl

behind_front :
    (i : ℕ) (xs : List ℕ) (d d' : ℕ) → d ≡ suc d' → get_elem? (i ∷ xs) d ≡ get_elem? xs d'
behind_front i xs d d' e = subst (λ d. get_elem? (i ∷ xs) d ≡ get_elem? xs d') (sym e) refl

free_envs-Freed : (n : ℕ) (k : Kernel) → Returns (λ _ k'. Freed n k k') (free_envs n k)
unfolding free_envs
free_envs-Freed zero k = record {
  sched = refl;
  named = λ i l. absurd (omega arith);
  after = λ i l. ap (get_elem? k.env_free_list) (omega arith);
  counted = omega arith;
  statuses = λ i l. absurd (omega arith);
  others = λ i l. refl;
}
free_envs-Freed (suc n) k =
    Returns-mono (λ _ k'. Freed n (with_free n k) k') (λ _ k'. Freed (suc n) k k')
      (free_envs n (with_free n k)) (free_envs-Freed n (with_free n k))
      (λ _ k' h. record {
        sched = h.sched;
        named = λ i l. elim (ℕ_discrete n i) [
          | yes same ↦
              h.after i (omega arith)
              ∙ (at_front n k.env_free_list (i - n) (omega arith) ∙ ap some same)
          | no apart ↦ h.named i (omega arith)
        ];
        after = λ i l.
            h.after i (omega arith)
            ∙ behind_front n k.env_free_list (i - n) (i - suc n) (omega arith);
        counted = h.counted ∙ omega arith;
        statuses = λ i l. elim (ℕ_discrete n i) [
          | yes same ↦
              h.others i (omega arith)
              ∙ subst (λ i. (update k.envs n (record (k.envs n) { status = free }) i).status ≡ free)
                  same (ground arith)
          | no apart ↦ h.statuses i (omega arith)
        ];
        others = λ i l. h.others i (omega arith) ∙ ground arith;
      })

-- What `env_init` promises of the environments.
pub record Started (k : Kernel) : Type 0 where
  pub none_ready : Scheduled k []
  pub listed : (i : ℕ) → i < nenv → get_elem? k.env_free_list i ≡ some i
  pub all_listed : length k.env_free_list ≡ nenv

-- The memory does not matter.
lifted-Started {ℓ} :
    {A : Type ℓ} (k : Kernel) (r : Outcome Mem A)
    → Started k
    → IfReturns (λ _ k'. Started k') (lifting (λ s. record k { mem = s }) r)
lifted-Started k (done a s) h = record {
  none_ready = record {
    holds = h.none_ready.holds;
    low = h.none_ready.low;
    exact = h.none_ready.exact;
  };
  listed = h.listed;
  all_listed = h.all_listed;
}
lifted-Started k (fail e s) h = tt
lifted-Started k panic h = tt

must-IfReturns {ℓ} :
    {A : Type ℓ} (P : A → Kernel → Type 0) (r : Outcome Kernel A)
    → IfReturns P r
    → IfReturns P (must r)
unfolding must
must-IfReturns P (done a k) h = h
must-IfReturns P (fail e k) h = tt
must-IfReturns P panic h = tt

-- A command that keeps this.
abbrev Stays {ℓ} : {A : Type ℓ} → Cmd Kernel A → Type 0
Stays m = (k : Kernel) → Started k → IfReturns (λ _ k'. Started k') (m k)

Stays-bind {ℓ κ} :
    {A : Type ℓ} {B : Type κ} (m : Cmd Kernel A) (f : A → Cmd Kernel B)
    → Stays m
    → ((a : A) → Stays (f a))
    → Stays (m >>= f)
Stays-bind m f h g k ok =
    IfReturns-bind (λ _ k'. Started k') (λ _ k'. Started k') (m k) f (h k ok)
      (λ a k' ok'. g a k' ok')

on_mem-Stays {ℓ} : {A : Type ℓ} (m : Cmd Mem A) → Stays (on_mem m)
on_mem-Stays m k h = lifted-Started k (m k.mem) h

based : (p : ℕ) → Stays (modify λ k. record k { base_pgdir = p })
based p k h = record {
  none_ready = record {
    holds = h.none_ready.holds;
    low = h.none_ready.low;
    exact = h.none_ready.exact;
  };
  listed = h.listed;
  all_listed = h.all_listed;
}

begun : (k k' : Kernel) → Holds k.sched [] → k.env_free_list ≡ [] → Freed nenv k k' → Started k'
begun k k' empty bare h = record {
  none_ready = record {
    holds = subst (λ q. Holds q []) (sym h.sched) empty;
    low = λ e m. absurd cc;
    exact = λ e l. ap is_runnable (sym (h.statuses e l));
  };
  listed = h.named;
  all_listed = h.counted ∙ rw bare (omega arith);
}

Returns-IfReturns :
    {A : Type 0} (P : A → Kernel → Type 0) (r : Outcome Kernel A) → Returns P r → IfReturns P r
Returns-IfReturns P (done a k) h = h
Returns-IfReturns P (fail e k) h = tt
Returns-IfReturns P panic h = tt

init_lists-Started : (k : Kernel) → Returns (λ _ k'. Started k') (init_lists k)
unfolding init_lists
init_lists-Started k =
    let k1 = record k { env_free_list = []; sched = init k.sched } in
    Returns-mono (λ _ k'. Freed nenv k1 k') (λ _ k'. Started k') (free_envs nenv k1)
      (free_envs-Freed nenv k1) (λ _ k' h. begun k1 k' (init-Holds k.sched) refl h)

-- From any state, Steps 1 and 2 of `env_init` return, and then no environment is runnable and the scheduler's queue is
-- empty, so that the invariant of the queue holds, and the free list names the environments from the first to the last,
-- each once. All of `env_init`, where it gets its page and the addresses that it maps are aligned and in the memory, so
-- that it returns, leaves this as it is.
pub env_init-Started :
    (pages_pa envs_pa env_size : ℕ) (k : Kernel)
    → Returns (λ _ k'. Started k') (init_lists k)
      × IfReturns (λ _ k'. Started k') (env_init pages_pa envs_pa env_size k)
unfolding env_init
env_init-Started pages_pa envs_pa env_size k = (
  init_lists-Started k,
  IfReturns-bind (λ _ k'. Started k') (λ _ k'. Started k') (init_lists k) _
      (Returns-IfReturns (λ _ k'. Started k') (init_lists k) (init_lists-Started k))
      (λ _.
        Stays-bind (λ k. must (on_mem page_alloc k)) _
          (λ k h.
            must-IfReturns (λ _ k'. Started k') (on_mem page_alloc k) (on_mem-Stays page_alloc k h))
          (λ p. Stays-bind (on_mem (incref p)) _ (on_mem-Stays (incref p)) (λ _.
            Stays-bind (modify λ k. record k { base_pgdir = p }) _ (based p) (λ _.
              Stays-bind (reads λ k. k.mem.npage) _ (λ k h. h)
                (λ n.
                  Stays-bind
                    (on_mem (map_segment p 0 pages_pa upages (round_page (n * page_size)) pte_g)) _
                    (on_mem-Stays
                      (map_segment p 0 pages_pa upages (round_page (n * page_size)) pte_g))
                    (λ _.
                      on_mem-Stays
                        (map_segment p 0 envs_pa uenvs (round_page (nenv * env_size)) pte_g))))))),
)
