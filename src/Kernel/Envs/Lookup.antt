-- ===== src/Kernel/Envs/Lookup.antt =====
-- `envid2env` and `mkenvid` of kern/env.c.
use buaa_os.Prelude.{
  ℕ, ◌+◌, ◌*◌, ◌%◌, ◌^◌, ◌<◌, ◌≡◌, ◌≢◌, ◌⊎◌, inl, inr, refl, Bool, true, false, some, arith, bit_or,
}
use buaa_os.Prelude.Bits.{bit_or-shifted}
use buaa_os.Prelude.Outcome.{Outcome, e_bad_env, done, fail, panic, Ends, Returns}
use buaa_os.Memory.{u32}
use buaa_os.Kernel.{Kernel, is_free}
use buaa_os.Kernel.Envs.{nenv, envx, envid2env, mkenvid}

-- The environment in the slot of the identifier has this identifier and is in use, and with
-- `checkperm` it is the current one or a child of it.
abbrev pub Granted : Kernel → ℕ → ℕ → Bool → Type 0
Granted k cur envid checkperm =
    (is_free (k.envs (envx envid)).status ≡ false)
    × ((k.envs (envx envid)).id ≡ envid)
    × ((checkperm ≡ false)
        ⊎ ((k.envs (envx envid)).id ≡ (k.envs cur).id)
        ⊎ ((k.envs (envx envid)).parent_id ≡ (k.envs cur).id))

abbrev pub Found : Kernel → ℕ → ℕ → Bool → ℕ → Type 0
Found k cur envid checkperm e =
    ((envid ≡ 0) × (e ≡ cur)) ⊎ ((envid ≢ 0) × (e ≡ envx envid) × Granted k cur envid checkperm)

-- `envid2env` gives the current environment for 0. For another identifier it gives the environment
-- that has it and is in use, and with `checkperm` only the current one or a child of it; in all
-- other cases it returns -E_BAD_ENV. It writes nothing.
pub envid2env-Found :
    (k : Kernel) (cur envid : ℕ) (checkperm : Bool)
    → k.curenv ≡ some cur
    → Ends
        (λ e k'. Found k cur envid checkperm e × (k' ≡ k))
        (λ r k'. (r ≡ e_bad_env) × (envid ≢ 0) × (¬ Granted k cur envid checkperm) × (k' ≡ k))
        (envid2env envid checkperm k)
unfolding envid2env
envid2env-Found k cur envid true is = ground arith
envid2env-Found k cur envid false is = ground arith

-- What a caller of `envid2env` goes on with.
pub envid2env-cases :
    (k : Kernel) (cur envid : ℕ) (checkperm : Bool)
    → k.curenv ≡ some cur
    → cur < nenv
    → is_free (k.envs cur).status ≡ false
    → ((e : ℕ) × (envid2env envid checkperm k ≡ done e k)
        × (e < nenv)
        × (is_free (k.envs e).status ≡ false))
      ⊎ (envid2env envid checkperm k ≡ fail e_bad_env k)
unfolding envid2env
envid2env-cases k cur envid checkperm is l used = go (envid2env envid checkperm k) refl
  where
    go :
        (r : Outcome Kernel ℕ)
        → envid2env envid checkperm k ≡ r
        → ((e : ℕ) × (envid2env envid checkperm k ≡ done e k)
            × (e < nenv)
            × (is_free (k.envs e).status ≡ false))
          ⊎ (envid2env envid checkperm k ≡ fail e_bad_env k)
    go (done e k') at = inl (e, ground arith, ground arith, ground arith)
    go (fail r k') at = inr (ground arith)
    go panic at = absurd (ground arith)

-- The identifier that `mkenvid` makes has the count of the calls so far, modulo 2 ^ 21, above bit 11,
-- and the slot of its environment in its low bits, where ENVX finds it again.
envx-mkenvid :
    (k : Kernel) (e : ℕ)
    → e < nenv
    → Returns
        (λ envid k'.
          (envx envid ≡ e)
          × (envid ≡ (k.id_count + 1) % 2 ^ 21 * 2 ^ 11 + e)
          × (k'.id_count ≡ u32 (k.id_count + 1)))
        (mkenvid e k)
unfolding mkenvid
envx-mkenvid k e l =
    let whole : bit_or (u32 (u32 (k.id_count + 1) * 2 ^ 11)) e
        ≡ (k.id_count + 1) % 2 ^ 21 * 2 ^ 11 + e =
      rw (fits (k.id_count + 1)) (bit_or-shifted 11 ((k.id_count + 1) % 2 ^ 21) e (omega arith)) in
    rw whole (omega arith, refl, refl)
  where
    fits : (n : ℕ) → u32 (u32 n * 2 ^ 11) ≡ n % 2 ^ 21 * 2 ^ 11
    fits n = omega arith
