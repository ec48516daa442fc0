-- ===== src/Kernel/Sched/Robin.antt =====
-- `schedule` of kern/sched.c takes turns.
use buaa_os.Prelude.{
  ℕ, ◌+◌, ◌-◌, ◌%◌, ◌^◌, ◌<◌, ◌≡◌, ◌⊎◌, refl, Bool, true, false, ◌||◌, Option, none, some, List, [],
  ◌∷◌, ◌++◌, arith, ◌==◌, has, sym, subst, ap, ◌∙◌,
}
use mathlib.Core.List.{head?}
use buaa_os.Prelude.Outcome.{Returns, Returns-mono, Returns-value}
use buaa_os.Queue.{Tailq, first, insert_tail}
use buaa_os.Queue.Chain.{Holds, has-append}
use buaa_os.Queue.Head.{first_lem}
use buaa_os.Queue.Refine.{insert_tail-append}
use buaa_os.Kernel.{Kernel, is_runnable}
use buaa_os.Kernel.Envs.{nenv}
use buaa_os.Kernel.Ready.{Scheduled, Scheduled-keep, Scheduled-remove}
use buaa_os.Kernel.Sched.{env_run, run_first, pick, switch, schedule}

-- `e` runs, for as many slices as its priority.
abbrev pub Runs : Kernel → ℕ → Kernel → Type 0
Runs k e k' =
    (k'.curenv ≡ some e) × (k'.cur_pgdir ≡ (k.envs e).pgdir) × (k'.slices ≡ (k.envs e).pri)

module _ (k : Kernel) (e : ℕ) (rest : List ℕ) (h : Scheduled k (e ∷ rest)) where
  pub first_on : is_runnable (k.envs e).status ≡ true
  first_on = sym (h.exact e (h.low e (ground arith))) ∙ ground arith

  first-Runs :
      (c : Option ℕ)
      → k.curenv ≡ c
      → Returns (λ _ k'. Scheduled k' (e ∷ rest) × Runs k e k') (run_first (some e) k)
  unfolding run_first
  first-Runs none is =
      rw (first_on, is)
        (Scheduled-keep k _ (e ∷ rest) h refl (λ d. ground arith), (refl, ground arith, refl))
  first-Runs (some c) is =
      rw (first_on, is)
        (Scheduled-keep k _ (e ∷ rest) h refl (λ d. ground arith), (refl, ground arith, refl))

  -- The first environment of the queue is chosen.
  pick-Runs : Returns (λ _ k'. Scheduled k' (e ∷ rest) × Runs k e k') (pick k)
  unfolding pick
  pick-Runs = rw (first_lem k.sched (e ∷ rest) h.holds) (first-Runs k.curenv refl)

-- The queue with one member moved to the end.
rotated-Scheduled :
    (k : Kernel) (xs ys zs : List ℕ) (cur : ℕ) (q : Tailq)
    → Scheduled k xs
    → xs ≡ ys ++ cur ∷ zs
    → Holds q ((ys ++ zs) ++ cur ∷ [])
    → Scheduled (record k { sched = q }) ((ys ++ zs) ++ cur ∷ [])
rotated-Scheduled k xs ys zs cur q h at holds = record {
  holds = holds;
  low = λ d m. h.low d (same d ∙ m);
  exact = λ d l. sym (same d) ∙ h.exact d l;
}
  where
    same : (d : ℕ) → has d xs ≡ has d ((ys ++ zs) ++ cur ∷ [])
    same d = rw at (
        ground (
          arith,
          has-append d ys (cur ∷ zs),
          has-append d (ys ++ zs) (cur ∷ []),
          has-append d ys zs,
        ))

-- `e` runs, and the queue is what it was with `cur` moved to the end.
abbrev pub Rotates : Kernel → List ℕ → ℕ → Kernel → Type 0
Rotates k xs cur k' =
    (ys zs : List ℕ) × (xs ≡ ys ++ cur ∷ zs)
    × Scheduled k' ((ys ++ zs) ++ cur ∷ [])
    × (e : ℕ) × (head? ((ys ++ zs) ++ cur ∷ []) ≡ some e)
    × Runs k e k'

module _ (k : Kernel) (xs : List ℕ) (h : Scheduled k xs) (cur : ℕ) (low : cur < nenv)
    (on : is_runnable (k.envs cur).status ≡ true) where
  pick_rotated :
      (ys zs : List ℕ) (q : Tailq)
      → xs ≡ ys ++ cur ∷ zs
      → Scheduled (record k { sched = q }) ((ys ++ zs) ++ cur ∷ [])
      → (l : List ℕ) → (ys ++ zs) ++ cur ∷ [] ≡ l
      → Returns (λ _ k'. Rotates k xs cur k') (pick (record k { sched = q }))
  pick_rotated ys zs q at s [] e =
      absurd (ground (arith, has-append cur (ys ++ zs) (cur ∷ []), ap (has cur) e))
  pick_rotated ys zs q at s (e ∷ rest) is =
      Returns-mono (λ _ k'. Scheduled k' (e ∷ rest) × Runs k e k') (λ _ k'. Rotates k xs cur k') _
        (pick-Runs (record k { sched = q }) e rest
          (subst (Scheduled (record k { sched = q })) is s))
        λ u k' (after, runs).
          (ys, zs, at, subst (Scheduled k') (sym is) after, e, ap head? is, runs)

  switch-Rotates : Returns (λ _ k'. Rotates k xs cur k') (switch (some cur) k)
  unfolding switch
  switch-Rotates =
      let (ys, zs, q, at, out, ran, removed, _) = Scheduled-remove k xs cur h low on in
      let (u, q', put, holds) =
        Returns-value (λ _ t. Holds t ((ys ++ zs) ++ cur ∷ [])) (insert_tail cur q)
          (insert_tail-append q (ys ++ zs) cur removed.0 out) in
      rw (ran, on, put)
        (pick_rotated ys zs q' at (rotated-Scheduled k xs ys zs cur q' h at holds)
          ((ys ++ zs) ++ cur ∷ []) refl)

  some-first :
      (l : List ℕ) → has cur l ≡ true → Holds k.sched l → (e : ℕ) × (first k.sched ≡ some e)
  some-first [] m holds = absurd (ground arith)
  some-first (e ∷ l) m holds = (e, first_lem k.sched (e ∷ l) holds)

  abbrev counted : ℕ
  counted = (k.slices + 2 ^ 32 - 1) % 2 ^ 32

  abbrev ticked : Kernel
  ticked = record k { slices = counted; curenv = some cur }

  ticked-Scheduled : Scheduled ticked xs
  ticked-Scheduled = record { holds = h.holds; low = h.low; exact = h.exact }

-- The queue holds exactly the runnable environments, and the current one is runnable. At the end
-- of its turn, because it yields or its slices are used up, it goes to the end of the queue, and
-- the first one of the queue runs, for as many slices as its priority. `schedule` does not panic.
pub schedule-Rotates :
    (k : Kernel) (xs : List ℕ) (cur : ℕ) (yield : Bool)
    → Scheduled k xs
    → k.curenv ≡ some cur
    → cur < nenv
    → is_runnable (k.envs cur).status ≡ true
    → ((yield ≡ true) ⊎ (k.slices ≡ 1))
    → Returns (λ _ k'. Rotates k xs cur k') (schedule yield k)
unfolding schedule
schedule-Rotates k xs cur yield h is low on ends =
    let (e, at) = some-first k xs h cur low on xs (h.exact cur low ∙ on) h.holds in
    let over : (yield || counted k xs h cur low on == 0) ≡ true = ground arith in
    rw (is, on, over, at)
      (switch-Rotates (ticked k xs h cur low on) xs (ticked-Scheduled k xs h cur low on) cur low on)

-- The queue holds exactly the runnable environments, and the current one is runnable. With more
-- than one slice left and no yield it goes on, with one slice less, and the queue is as before.
pub schedule_again :
    (k : Kernel) (xs : List ℕ) (cur : ℕ)
    → Scheduled k xs
    → k.curenv ≡ some cur
    → cur < nenv
    → is_runnable (k.envs cur).status ≡ true
    → 1 < k.slices
    → k.slices < 2 ^ 32
    → Returns
        (λ _ k'. Scheduled k' xs × (k'.curenv ≡ some cur) × (k'.slices + 1 ≡ k.slices))
        (schedule false k)
unfolding schedule env_run
schedule_again k xs cur h is low on more small =
    let goes : ((k.slices + 2 ^ 32 - 1) % 2 ^ 32 == 0) ≡ false = ground arith in
    rw (is, on, goes) (Scheduled-keep k _ xs h refl (λ d. ground arith), refl, omega arith)
