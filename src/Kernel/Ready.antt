-- ===== src/Kernel/Ready.antt =====
-- The queue of the runnable environments: the invariant that kern/env.c states at `env_sched_list`.
use buaa_os.Prelude.{
  ℕ, ◌<◌, ◌≡◌, ◌≢◌, Bool, true, false, List, [], ◌∷◌, ◌++◌, arith, ◌==◌, if◌then◌else◌, has, sym,
  subst, ap, ◌∙◌,
}
use buaa_os.Prelude.Outcome.{done, Returns-value}
use buaa_os.Queue.{Tailq, insert_tail, remove}
use buaa_os.Queue.Chain.{Holds, has-append, has-split}
use buaa_os.Queue.Refine.{Removed, insert_tail-append, remove-Between, member-Between}
use buaa_os.Kernel.{Kernel, is_runnable}
use buaa_os.Kernel.Envs.{nenv}

-- The queue holds `xs`, and an environment is in it exactly if it is runnable.
pub record Scheduled (k : Kernel) (xs : List ℕ) : Type 0 where
  pub holds : Holds k.sched xs
  pub low : (e : ℕ) → has e xs ≡ true → e < nenv
  pub exact : (e : ℕ) → e < nenv → has e xs ≡ is_runnable (k.envs e).status

-- A change of the environments that spares their statuses keeps the invariant.
pub Scheduled-keep :
    (k k' : Kernel) (xs : List ℕ)
    → Scheduled k xs
    → k'.sched ≡ k.sched
    → ((e : ℕ) → (k'.envs e).status ≡ (k.envs e).status)
    → Scheduled k' xs
Scheduled-keep k k' xs h q s = record {
  holds = subst (λ t. Holds t xs) (sym q) h.holds;
  low = h.low;
  exact = λ e l. h.exact e l ∙ ap is_runnable (sym (s e));
}

-- An environment that was not runnable is put at the end, and now is.
pub Scheduled-insert :
    (k : Kernel) (xs : List ℕ) (e : ℕ)
    → Scheduled k xs
    → e < nenv
    → is_runnable (k.envs e).status ≡ false
    → (q : Tailq) × (insert_tail e k.sched ≡ done tt q)
      × ((k' : Kernel)
          → k'.sched ≡ q
          → is_runnable (k'.envs e).status ≡ true
          → ((d : ℕ) → d ≢ e → (k'.envs d).status ≡ (k.envs d).status)
          → Scheduled k' (xs ++ e ∷ []))
Scheduled-insert k xs e h l off =
    let (u, q, ran, holds) =
      Returns-value (λ _ q'. Holds q' (xs ++ e ∷ [])) (insert_tail e k.sched)
        (insert_tail-append k.sched xs e h.holds (h.exact e l ∙ off)) in
    (
      q,
      ran,
      λ k' at on same. record {
        holds = subst (λ t. Holds t (xs ++ e ∷ [])) (sym at) holds;
        low = λ d m. ground (arith, has-append d xs (e ∷ []), h.low d);
        exact = λ d ld. ground (arith, has-append d xs (e ∷ []), h.exact d ld, same d);
      },
    )

-- The members of a list without one of them.
has-without :
    (d e : ℕ) (xs ys : List ℕ) (b : Bool)
    → has e (xs ++ ys) ≡ false
    → has d (xs ++ e ∷ ys) ≡ b
    → has d (xs ++ ys) ≡ (if d == e then false else b)
has-without d e xs ys b out m =
    ground (arith, has-append d xs ys, has-append d xs (e ∷ ys), has-append e xs ys)

-- A runnable environment is taken out, and no longer is runnable.
pub Scheduled-remove :
    (k : Kernel) (xs : List ℕ) (e : ℕ)
    → Scheduled k xs
    → e < nenv
    → is_runnable (k.envs e).status ≡ true
    → (as' bs : List ℕ) × (q : Tailq) × (xs ≡ as' ++ e ∷ bs)
      × (has e (as' ++ bs) ≡ false)
      × (remove e k.sched ≡ done tt q)
      × Removed q e as' bs
      × ((k' : Kernel)
          → k'.sched ≡ q
          → is_runnable (k'.envs e).status ≡ false
          → ((d : ℕ) → d ≢ e → (k'.envs d).status ≡ (k.envs d).status)
          → Scheduled k' (as' ++ bs))
Scheduled-remove k xs e h l on =
    let (as', bs, at) = has-split e xs (h.exact e l ∙ on) in
    let (between, out) = member-Between k.sched e as' bs (subst (Holds k.sched) at h.holds) in
    let (u, q, ran, removed) =
      Returns-value (λ _ q'. Removed q' e as' bs) (remove e k.sched)
        (remove-Between k.sched e as' bs between out) in
    (
      as',
      bs,
      q,
      at,
      out,
      ran,
      removed,
      λ k' is off same. record {
        holds = subst (λ t. Holds t (as' ++ bs)) (sym is) removed.0;
        low = λ d m. h.low d (
            subst (λ t. has d t ≡ true) (sym at)
              (ground (arith, has-append d as' bs, has-append d as' (e ∷ bs))));
        exact = λ d ld.
            has-without d e as' bs (is_runnable (k.envs d).status) out
              (subst (λ t. has d t ≡ is_runnable (k.envs d).status) at (h.exact d ld))
            ∙ ground (arith, same d);
      },
    )
