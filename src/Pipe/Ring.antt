-- ===== src/Pipe/Ring.antt =====
-- The buffer of user/lib/pipe.c as a sequence of bytes.
use buaa_os.Prelude.{ℕ, ◌+◌, ◌%◌, ◌^◌, ◌≤◌, ◌<◌, ◌≡◌, refl, arith, ◌==◌, if◌then◌else◌}
use buaa_os.Memory.{u32}
use buaa_os.Pipe.{Pipe, by2pipe, used, advance, put}

-- The positions are words, and no more than the buffer is used.
pub record IsRing (p : Pipe) : Type 0 where
  pub rpos_low : p.p_rpos < 2 ^ 32
  pub wpos_low : p.p_wpos < 2 ^ 32
  pub fits : used p ≤ by2pipe

-- The `k`-th byte that is to be read.
abbrev pub byte_at : Pipe → ℕ → ℕ
byte_at p k = p.p_buf ((p.p_rpos + k) % by2pipe)

pub advance-IsRing :
    (p : Pipe) → IsRing p → 0 < used p → IsRing (advance p) × (used (advance p) + 1 ≡ used p)
advance-IsRing p r some' = (
  record {
    rpos_low = omega arith;
    wpos_low = omega (arith, r.wpos_low);
    fits = omega (arith, r.fits, r.rpos_low, r.wpos_low);
  },
  omega (arith, r.fits, r.rpos_low, r.wpos_low),
)

pub byte_at-advance : (p : Pipe) (k : ℕ) → byte_at (advance p) k ≡ byte_at p (k + 1)
byte_at-advance p k = rw wraps refl
  where
    wraps : (u32 (p.p_rpos + 1) + k) % by2pipe ≡ (p.p_rpos + (k + 1)) % by2pipe
    wraps = omega arith

pub put-IsRing :
    (b : ℕ) (p : Pipe)
    → IsRing p
    → used p < by2pipe
    → IsRing (put b p) × (used (put b p) ≡ used p + 1)
put-IsRing b p r room = (
  record {
    rpos_low = omega (arith, r.rpos_low);
    wpos_low = omega arith;
    fits = omega (arith, r.rpos_low, r.wpos_low);
  },
  omega (arith, r.rpos_low, r.wpos_low),
)

-- A byte that is put is the last, and those before it stay.
pub byte_at-put :
    (b : ℕ) (p : Pipe) (k : ℕ)
    → IsRing p
    → used p < by2pipe
    → k ≤ used p
    → byte_at (put b p) k ≡ (if k == used p then b else byte_at p k)
byte_at-put b p k r room le = ground (arith, r.rpos_low, r.wpos_low)
