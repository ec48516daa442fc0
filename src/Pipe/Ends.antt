-- ===== src/Pipe/Ends.antt =====
-- The ends of a pipe under preemption: `pipe_close` of user/lib/pipe.c and `dup` of user/lib/fd.c, one system call
-- at a time, and the loop of `_pipe_is_closed` with steps of other environments between its own. A slot is a
-- descriptor of some environment: its page of `struct Fd` and its page of `struct Pipe` are mapped or not, and the
-- kernel's counts of references are the numbers of slots with the page.
pub mod Closed
use buaa_os.Prelude.{
  ℕ, zero, suc, ◌+◌, ◌%◌, ◌^◌, ◌<◌, ◌≡◌, ◌≢◌, Bool, true, false, not, ◌&&◌, ◌==◌, if◌then◌else◌,
  update,
}
use buaa_os.Memory.{u32}

-- `writer` says which end a slot is.
pub record Ends : Type 0 where
  pub writer : ℕ → Bool
  pub fd : ℕ → Bool
  pub page : ℕ → Bool

-- `count n f` of the slots below `n` pass the test.
unfoldable pub count : ℕ → (ℕ → Bool) → ℕ
count zero f = 0
count (suc n) f = let rest = count n f in if f n then rest + 1 else rest

abbrev pub is_end : Bool → Bool → Bool
is_end true w = w
is_end false w = not w

-- `pageref(fd)` of the end `w`, and `pageref(p)`.
abbrev pub fd_refs : ℕ → Bool → Ends → ℕ
fd_refs n w e = count n (λ i. is_end w (e.writer i) && e.fd i)

abbrev pub pipe_refs : ℕ → Ends → ℕ
pipe_refs n e = count n e.page

abbrev pub set_fd : ℕ → Bool → Ends → Ends
set_fd i b e = record e { fd = update e.fd i b }

abbrev pub set_data : ℕ → Bool → Ends → Ends
set_data i b e = record e { page = update e.page i b }

abbrev pub set_writer : ℕ → Bool → Ends → Ends
set_writer i b e = record e { writer = update e.writer i b }

-- The system calls of `pipe_close` in the slot `i`, and of `dup` from the slot `i` to the unused slot `j`, in their
-- order: a slot is closed from its `struct Fd` on, and filled from its data on.
pub data Call (n : ℕ) (e : Ends) : Ends → Type 0 where
  close_fd : (i : ℕ) → i < n → e.fd i ≡ true → Call n e (set_fd i false e)
  close_data : (i : ℕ) → i < n → e.fd i ≡ false → Call n e (set_data i false e)
  dup_data :
      (i j : ℕ)
      → i < n
      → j < n
      → e.fd i ≡ true
      → e.fd j ≡ false
      → e.page j ≡ false
      → Call n e (set_data j (e.page i) (set_writer j (e.writer i) e))
  dup_fd : (j : ℕ) → j < n → e.fd j ≡ false → e.page j ≡ true → Call n e (set_fd j true e)

-- Where `_pipe_is_closed` is: it has read `runs`, `fd_ref` and `pipe_ref`, or returned.
pub data At : Type 0 where
  start : At
  with_runs : ℕ → At
  with_fd : ℕ → ℕ → At
  with_both : ℕ → ℕ → ℕ → At
  returned : Bool → At

-- `switches` counts how often the environment that asks has run; `env_runs` is the word of it.
pub record World : Type 0 where
  pub ends : Ends
  pub switches : ℕ
  pub at : At

abbrev pub env_runs : World → ℕ
env_runs s = u32 s.switches

-- A statement of `_pipe_is_closed` for the end `w`, or a call of another environment; then the one that asks runs
-- again, before its next statement.
pub data Step (n : ℕ) (w : Bool) (s : World) : World → Type 0 where
  read_runs : s.at ≡ start → Step n w s (record s { at = with_runs (env_runs s) })
  read_fd :
      (r : ℕ) → s.at ≡ with_runs r → Step n w s (record s { at = with_fd r (fd_refs n w s.ends) })
  read_pipe :
      (r f : ℕ)
      → s.at ≡ with_fd r f
      → Step n w s (record s { at = with_both r f (pipe_refs n s.ends) })
  again :
      (r f p : ℕ) → s.at ≡ with_both r f p → r ≢ env_runs s → Step n w s (record s { at = start })
  answer :
      (r f p : ℕ)
      → s.at ≡ with_both r f p
      → r ≡ env_runs s
      → Step n w s (record s { at = returned (f == p) })
  call :
      {e : Ends} → Call n s.ends e → Step n w s (record s { ends = e; switches = s.switches + 1 })

pub data Reach (n : ℕ) (w : Bool) (s : World) : World → Type 0 where
  here : Reach n w s s
  next : {t u : World} → Reach n w s t → Step n w t u → Reach n w s u
