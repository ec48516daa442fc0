-- ===== src/Kernel/Sched/Block.antt =====
-- `schedule` of kern/sched.c for an environment that has left the queue: TAILQ_REMOVE runs again on
-- its stale links.
use buaa_os.Prelude.{
  ℕ, ◌+◌, ◌-◌, ◌%◌, ◌^◌, ◌≡◌, ◌≢◌, refl, true, false, some, List, [], ◌∷◌, ◌++◌, arith, has, subst,
}
use mathlib.Core.List.{head?}
use buaa_os.Prelude.Outcome.{Returns, Returns-value}
use buaa_os.Queue.{Tailq, first, remove}
use buaa_os.Queue.Chain.{Holds}
use buaa_os.Queue.Head.{first_lem}
use buaa_os.Queue.Refine.{Removed, Between, remove-Between}
use buaa_os.Kernel.{Kernel, is_runnable}
use buaa_os.Kernel.Ready.{Scheduled, Scheduled-keep}
use buaa_os.Kernel.Sched.{pick, schedule}
use buaa_os.Kernel.Sched.Robin.{first_on}

-- The first of the queue runs, and `cur` keeps what it has, its registers those of the trap.
abbrev pub Leaves : Kernel → List ℕ → ℕ → Kernel → Type 0
Leaves k xs cur k' =
    Scheduled k' xs
    × ((e : ℕ) × (head? xs ≡ some e) × (k'.curenv ≡ some e))
    × (k'.envs cur ≡ record (k.envs cur) { tf = k.trap })

module _ (k : Kernel) (cur : ℕ) (off : is_runnable (k.envs cur).status ≡ false)
    (is : k.curenv ≡ some cur) where
  pick-Leaves :
      (e : ℕ) (rest : List ℕ)
      → Scheduled k (e ∷ rest)
      → Returns (λ _ k'. Leaves k (e ∷ rest) cur k') (pick k)
  unfolding pick
  pick-Leaves e rest h =
      let on = first_on k e rest h in
      rw (first_lem k.sched (e ∷ rest) h.holds, on, is)
        (Scheduled-keep k _ (e ∷ rest) h refl (λ d. ground arith), (e, refl, refl), ground arith)

module _ (k : Kernel) (cur : ℕ) (off : is_runnable (k.envs cur).status ≡ false)
    (is : k.curenv ≡ some cur) (as' bs : List ℕ) (h : Scheduled k (as' ++ bs))
    (between : Between k.sched cur as' bs) (out : has cur (as' ++ bs) ≡ false)
    (other : (as' ++ bs) ≢ []) where
  abbrev ticked : Kernel
  ticked = record k { slices = (k.slices + 2 ^ 32 - 1) % 2 ^ 32; curenv = some cur }

  moved : (q : Tailq) → Holds q (as' ++ bs) → Scheduled (record ticked { sched = q }) (as' ++ bs)
  moved q holds = record { holds = holds; low = h.low; exact = h.exact }

  picks :
      (q : Tailq) (l : List ℕ)
      → as' ++ bs ≡ l
      → Holds q (as' ++ bs)
      → Returns (λ _ k'. Leaves k (as' ++ bs) cur k') (pick (record ticked { sched = q }))
  picks q [] at holds = absurd (other at)
  picks q (e ∷ rest) at holds = rw at (
      pick-Leaves (record ticked { sched = q }) cur off refl e rest
        (subst (Scheduled _) at (moved q holds)))

  nonempty_first : (l : List ℕ) → as' ++ bs ≡ l → (e : ℕ) × (first k.sched ≡ some e)
  nonempty_first [] at = absurd (other at)
  nonempty_first (e ∷ rest) at =
      (e, first_lem k.sched (e ∷ rest) (subst (Holds k.sched) at h.holds))

  -- An environment that has blocked leaves the processor to the first of the queue.
  pub schedule-Leaves : Returns (λ _ k'. Leaves k (as' ++ bs) cur k') (schedule true k)
  unfolding schedule
  schedule-Leaves =
      let (e, at) = nonempty_first (as' ++ bs) refl in
      let (u, q, ran, removed) =
        Returns-value (λ _ q'. Removed q' cur as' bs) (remove cur k.sched)
          (remove-Between k.sched cur as' bs between out) in
      rw (is, at, ran, off) (picks q (as' ++ bs) refl removed.0)
