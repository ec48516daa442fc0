-- ===== src/Kernel/Sched.antt =====
-- The scheduler: `env_run` of kern/env.c and `schedule` of kern/sched.c. Both do not return to
-- their caller: the state at their end is the one in which the chosen environment runs.
pub mod Block
pub mod Robin
use buaa_os.Prelude.{
  ℕ, ◌+◌, ◌-◌, ◌%◌, ◌^◌, Bool, true, false, not, ◌||◌, Option, none, some, ◌==◌, if◌then◌else◌,
  update,
}
use buaa_os.Prelude.Outcome.{Cmd, done, panic, pure, halt, ◌>>=◌, ◌>>◌, reads, modify, assert}
use buaa_os.Queue.{first, insert_tail, remove}
use buaa_os.Kernel.{Env, Kernel, on_sched, set_env, get_env, is_runnable}

save_current : Option ℕ → Cmd Kernel (Unit {0})
save_current none = pure tt
save_current (some c) = do tf ← reads λ k. k.trap; set_env c λ v. record v { tf = tf }

-- `env_pop_tf` leaves for user mode with the registers of `e`.
pub env_run : ℕ → Cmd Kernel (Unit {0})
unfolding save_current
env_run e = do
  v ← get_env e
  assert (is_runnable v.status)
  cur ← reads λ k. k.curenv
  save_current cur
  modify λ k. record k { curenv = some e }
  set_env e λ v. record v { runs = (v.runs + 1) % 2 ^ 32 }
  modify λ k. record k { cur_pgdir = (k.envs e).pgdir }

-- The first environment of the queue runs, for as many slices as its priority. An empty queue
-- here is a read through NULL.
run_first : Option ℕ → Cmd Kernel (Unit {0})
unfolding env_run
run_first none = halt
run_first (some e) = do modify λ k. record k { slices = (k.envs e).pri }; env_run e

pick : Cmd Kernel (Unit {0})
unfolding run_first
pick k = run_first (first k.sched) k

-- The branches of `schedule` that choose another environment.
switch : Option ℕ → Cmd Kernel (Unit {0})
unfolding pick
switch none = pick
switch (some e) = do
  v ← get_env e
  on_sched (remove e)
  if is_runnable v.status then on_sched (insert_tail e) else pure tt
  pick

nonempty : Option ℕ → Cmd Kernel (Unit {0})
nonempty none = halt
nonempty (some e) = pure tt

-- The test that ends the turn of the current environment.
abbrev ends_turn : Bool → ℕ → Option ℕ → Kernel → Bool
ends_turn yield count none k = true
ends_turn yield count (some e) k = yield || count == 0 || not (is_runnable (k.envs e).status)

go_on : Option ℕ → Cmd Kernel (Unit {0})
unfolding env_run
go_on none = halt
go_on (some e) = env_run e

turn : Bool → Cmd Kernel (Unit {0})
unfolding nonempty switch go_on
turn yield k =
    if ends_turn yield k.slices k.curenv k
    then (nonempty (first k.sched) >> switch k.curenv) k
    else go_on k.curenv k

pub schedule : Bool → Cmd Kernel (Unit {0})
unfolding turn
schedule yield = do modify λ k. record k { slices = (k.slices + 2 ^ 32 - 1) % 2 ^ 32 }; turn yield
