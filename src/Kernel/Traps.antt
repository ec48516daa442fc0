-- ===== src/Kernel/Traps.antt =====
-- The handlers of kern/tlbex.c. `do_tlb_mod` writes a trap frame to the user's stack, which is a page
-- of user memory outside the model; its change of the registers is in it.
pub mod Refill
use buaa_os.Prelude.{
  ℕ, zero, suc, ◌+◌, ◌-◌, ◌*◌, ◌^◌, Bool, true, false, ◌&&◌, ◌||◌, Option, none, some, ltb, leb,
  ◌==◌, if◌then◌else◌, update,
}
use buaa_os.Prelude.Outcome.{Outcome, Cmd, done, fail, panic, pure, halt, ◌>>=◌, ◌>>◌}
use buaa_os.Memory.{Mem, Ptr, u32, pte_addr, pte_d, load, page_alloc, page_insert, page_lookup}
use buaa_os.Kernel.{Trapframe, Env}
use buaa_os.Kernel.Envs.{utop, uvpt, ustacktop}
use buaa_os.Kernel.Syscall.{utemp}

-- `panic_on`
abbrev pub panic_on {ℓ} : {A : Type ℓ} → Outcome Mem A → Outcome Mem A
panic_on (done a s) = done a s
panic_on (fail e s) = panic
panic_on panic = panic

-- UPAGES
abbrev pub upages : ℕ
upages = 0x7f800000

-- The addresses for which `passive_alloc` panics.
unfoldable pub is_refused : ℕ → Bool
is_refused va =
    ltb va utemp
    || (leb ustacktop va && ltb va (ustacktop + 2 ^ 12))
    || (leb utop va && ltb va upages)
    || (leb upages va && ltb va uvpt)
    || leb (2 ^ 31) va

pub passive_alloc : ℕ → ℕ → ℕ → Cmd Mem (Unit {0})
unfolding is_refused
passive_alloc va pgdir asid = if is_refused va then halt else do
  p ← λ s. panic_on (page_alloc s)
  λ s. panic_on (page_insert pgdir asid p (pte_addr va) pte_d s)

-- The round of `_do_tlb_refill` after the lookup; `rest` is the next round.
refill_round : ℕ → ℕ → ℕ → Cmd Mem (Option ℕ) → Option (ℕ × Ptr) → Cmd Mem (Option ℕ)
refill_round va pgdir asid rest none = passive_alloc va pgdir asid >> rest
refill_round va pgdir asid rest (some (pp, ptr)) = do pte ← load ptr; pure (some pte)

-- The entry of `va`, or `none` if the rounds have run out.
pub do_tlb_refill : ℕ → ℕ → ℕ → ℕ → Cmd Mem (Option ℕ)
unfolding refill_round
do_tlb_refill zero va pgdir asid = pure none
do_tlb_refill (suc rounds) va pgdir asid =
    let rest = do_tlb_refill rounds va pgdir asid in
    do found ← page_lookup pgdir va; refill_round va pgdir asid rest found

-- `sizeof(struct Trapframe)`
abbrev pub tf_size : ℕ
tf_size = 38 * 4

-- The registers at the end of `do_tlb_mod` when `entry` is the environment's handler.
pub mod_frame : ℕ → Trapframe → Option Trapframe
mod_frame entry tf =
    let top = if ltb (tf.regs 29) ustacktop || leb utop (tf.regs 29) then utop else tf.regs 29 in
    let at = u32 (top + 2 ^ 32 - tf_size) in
    if entry == 0
    then none
    else some (record tf {
      regs = update (update tf.regs 4 at) 29 (u32 (at + 2 ^ 32 - 4));
      cp0_epc = entry;
    })
