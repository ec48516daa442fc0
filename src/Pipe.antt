-- ===== src/Pipe.antt =====
-- Pipes: user/lib/pipe.c. Other environments change the pipe, and the counts of references of its
-- pages, only in `syscall_yield`, which is a parameter; so the counts that `_pipe_is_closed` reads
-- belong together in its first round.
pub mod Ends
pub mod Ring
pub mod Transfer
pub mod Tests
use buaa_os.Prelude.{
  ℕ, zero, suc, ◌+◌, ◌-◌, ◌%◌, ◌^◌, Bool, true, false, ◌||◌, Option, none, some, ltb, leb, ◌==◌,
  if◌then◌else◌, update,
}
use buaa_os.Memory.{u32}

-- `struct Pipe` with the counts of references of the descriptor's page and of the pipe's page.
pub record Pipe : Type 0 where
  pub p_rpos : ℕ
  pub p_wpos : ℕ
  pub p_buf : ℕ → ℕ
  pub fd_ref : ℕ
  pub pipe_ref : ℕ

-- BY2PIPE
abbrev pub by2pipe : ℕ
by2pipe = 32

abbrev pub is_closed : Pipe → Bool
is_closed p = p.fd_ref == p.pipe_ref

-- `p->p_wpos - p->p_rpos`
abbrev pub used : Pipe → ℕ
used p = u32 (p.p_wpos + 2 ^ 32 - p.p_rpos)

-- `p->p_buf[p->p_rpos % BY2PIPE]` and `p->p_rpos++`
abbrev pub next_byte : Pipe → ℕ
next_byte p = p.p_buf (p.p_rpos % by2pipe)

abbrev pub advance : Pipe → Pipe
advance p = record p { p_rpos = u32 (p.p_rpos + 1) }

-- `p->p_buf[p->p_wpos % BY2PIPE] = b` and `p->p_wpos++`
abbrev pub put : ℕ → Pipe → Pipe
put b p = record p { p_buf = update p.p_buf (p.p_wpos % by2pipe) b; p_wpos = u32 (p.p_wpos + 1) }

-- A call returns the number of bytes, with the reader's buffer and the pipe; `none` if the fuel,
-- which counts bytes and yields, has run out.
abbrev pub Call : Type 0
Call = Option (ℕ × (ℕ → ℕ) × Pipe)

module _ (yield : Pipe → Pipe) where
  -- The loop of `pipe_read` from byte `i` on.
  read_from : ℕ → ℕ → ℕ → (ℕ → ℕ) → Pipe → Call
  read_from zero n i rbuf p = none
  read_from (suc fuel) n i rbuf p =
      let more = read_from fuel n (i + 1) (update rbuf i (next_byte p)) (advance p) in
      let again = read_from fuel n i rbuf (yield p) in
      if leb n i
      then some (n, rbuf, p)
      else (if p.p_rpos == p.p_wpos
          then (if ltb 0 i || is_closed p then some (i, rbuf, p) else again)
          else more)

  pub pipe_read : ℕ → ℕ → (ℕ → ℕ) → Pipe → Call
  unfolding read_from
  pipe_read fuel n rbuf p = read_from fuel n 0 rbuf p

  -- The loop of `pipe_write` from byte `i` on.
  write_from : ℕ → ℕ → ℕ → (ℕ → ℕ) → Pipe → Option (ℕ × Pipe)
  write_from zero n i wbuf p = none
  write_from (suc fuel) n i wbuf p =
      let more = write_from fuel n (i + 1) wbuf (put (wbuf i) p) in
      let again = write_from fuel n i wbuf (yield p) in
      if leb n i
      then some (n, p)
      else (if used p == by2pipe then (if is_closed p then some (i, p) else again) else more)

  pub pipe_write : ℕ → ℕ → (ℕ → ℕ) → Pipe → Option (ℕ × Pipe)
  unfolding write_from
  pipe_write fuel n wbuf p = write_from fuel n 0 wbuf p
