-- ===== src/Kernel/Syscall/Range.antt =====
-- The address checks of kern/syscall_all.c.
use buaa_os.Prelude.{ℕ, ◌+◌, ◌≤◌, ◌<◌, ◌^◌, ◌≡◌, ◌⊎◌, ◌↔◌, true, false, arith}
use buaa_os.Kernel.Envs.{utop}
use buaa_os.Kernel.Syscall.{is_illegal_va_range, dev_checked, utemp}

-- The bytes from `pa` on lie in the registers of the console, of the IDE disk or of the clock.
abbrev pub InDevice : ℕ → ℕ → Type 0
InDevice pa len =
    ((0x10000000 ≤ pa) × (pa + len ≤ 0x10000020))
    ⊎ ((0x13000000 ≤ pa) × (pa + len ≤ 0x13004200))
    ⊎ ((0x15000000 ≤ pa) × (pa + len ≤ 0x15000200))

-- The bytes from `va` on lie in the user's memory, if there are any.
abbrev pub InUser : ℕ → ℕ → Type 0
InUser va len = (len ≡ 0) ⊎ ((utemp ≤ va) × (va + len ≤ utop))

-- `is_illegal_va_range` rejects exactly what is not in the user's memory, also where the end of the
-- range wraps around.
pub is_illegal_va_range_iff :
    (va len : ℕ) → va < 2 ^ 32 → len < 2 ^ 32 → (is_illegal_va_range va len ≡ false) ↔ InUser va len
unfolding is_illegal_va_range
is_illegal_va_range_iff va len h l = (λ e. ground arith, λ e. ground arith)

-- Where the end of the device's range does not wrap, `sys_write_dev` and `sys_read_dev` copy
-- exactly if both ranges are legal.
dev_checked_iff :
    (va pa len : ℕ)
    → va < 2 ^ 32
    → len < 2 ^ 32
    → pa + len < 2 ^ 32
    → (dev_checked va pa len ≡ true) ↔ (InUser va len × InDevice pa len)
unfolding dev_checked
dev_checked_iff va pa len h l fits = (λ e. (ground arith, ground arith), λ e. ground arith)

-- Where the end of the device's range wraps, by at most the first device's end, the check of
-- `sys_write_dev` and `sys_read_dev` passes although the range lies in no device.
pub dev_checked_wraps :
    (va pa len : ℕ)
    → utemp ≤ va
    → va + len ≤ utop
    → pa < 2 ^ 32
    → 2 ^ 32 ≤ pa + len
    → pa + len ≤ 2 ^ 32 + 0x10000020
    → (dev_checked va pa len ≡ true) × (¬ InDevice pa len)
unfolding dev_checked
dev_checked_wraps va pa len low top small over near = (ground arith, λ d. ground arith)
