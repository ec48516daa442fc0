-- ===== src/Pipe/Tests.antt =====
-- Examples for user/lib/pipe.c: an empty pipe whose positions are about to wrap around.
use buaa_os.Prelude.{ℕ, true, false, ltb, ◌==◌, ◌&&◌, ◌+◌, ◌-◌, ◌<◌, ◌^◌, ◌≡◌, refl, some, arith}
use buaa_os.Pipe.Ends.{
  Ends, count, fd_refs, pipe_refs, set_fd, set_data, close_fd, close_data, start, returned, World,
  read_runs, read_fd, read_pipe, answer, call, Reach, here, next,
}
use buaa_os.Pipe.Ends.Closed.{closed_for_good}
use buaa_os.Pipe.{Pipe, used, put, pipe_read, pipe_write}
use buaa_os.Pipe.Ring.{IsRing}
use buaa_os.Pipe.Transfer.{pipe_read-pipe_write}

abbrev empty : Pipe
empty = record {
  p_rpos = 2 ^ 32 - 1;
  p_wpos = 2 ^ 32 - 1;
  p_buf = λ i. 0;
  fd_ref = 1;
  pipe_ref = 2;
}

empty-IsRing : IsRing empty
empty-IsRing = record { rpos_low = omega arith; wpos_low = omega arith; fits = omega arith }

abbrev two_bytes : Pipe
two_bytes = put 8 (put 9 empty)

two_bytes-IsRing : IsRing two_bytes
two_bytes-IsRing = record { rpos_low = omega arith; wpos_low = omega arith; fits = omega arith }

pipe_read-pipe_write_example :
    (p' : Pipe) × (pipe_write (λ p. p) (3 + 1) 3 (λ i. i + 7) empty ≡ some (3, p'))
    × (rbuf' : ℕ → ℕ) × (p'' : Pipe) × (pipe_read (λ p. p) (3 + 1) 3 (λ i. 0) p'
        ≡ some (3, rbuf', p''))
    × (used p'' ≡ 0)
    × ((j : ℕ) → j < 3 → rbuf' j ≡ j + 7)
pipe_read-pipe_write_example =
    pipe_read-pipe_write (λ p. p) 3 (λ i. i + 7) (λ i. 0) empty empty-IsRing refl (omega arith)
      (omega arith)

-- Slot 0 reads, slot 1 writes.
abbrev both_open : Ends
both_open = record { writer = λ i. i == 1; fd = λ i. ltb i 2; page = λ i. ltb i 2 }

abbrev asking : World
asking = record { ends = both_open; switches = 6; at = start }

-- The writer closes, and then the reader asks.
abbrev told : World
told = record {
  ends = set_data 1 false (set_fd 1 false both_open);
  switches = 8;
  at = returned true;
}

told-Reach : Reach 2 false asking told
unfolding count
told-Reach =
    next
      (next
        (next
          (next
            (next (next here (call (close_fd 1 (omega arith) refl)))
              (call (close_data 1 (omega arith) refl)))
            (read_runs refl))
          (read_fd 8 refl))
        (read_pipe 8 1 refl))
      (answer 8 1 1 refl refl)

closed_for_good_example : (told.ends.page 1 ≡ false) × (told.ends.fd 1 ≡ false)
closed_for_good_example =
    closed_for_good 2 false asking told (λ i l h. ground arith) refl told-Reach (omega arith) refl 1
      (omega arith) refl

-- Slot 1 reads, and the slots 2 and 3 are the ends of an environment that forks: its child has, in slot 0, the
-- reader's `struct Fd` and not yet the data. The counts of the reader agree, and the writer is open.
abbrev forking : Ends
forking = record { writer = λ i. ltb 2 i; fd = λ i. ltb i 4; page = λ i. ltb 0 i && ltb i 4 }

fork_race :
    (fd_refs 4 false forking ≡ pipe_refs 4 forking)
    × (forking.writer 3 ≡ true)
    × (forking.fd 3 ≡ true)
unfolding count
fork_race = (refl, refl, refl)
