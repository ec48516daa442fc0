-- ===== src/Pipe/Transfer.antt =====
-- `pipe_read` and `pipe_write` of user/lib/pipe.c on a pipe that has bytes, or room.
use buaa_os.Prelude.{
  ℕ, zero, suc, ◌+◌, ◌-◌, ◌≤◌, ◌<◌, ◌≡◌, ◌⊎◌, inl, inr, refl, true, false, Option, some, arith, ltb,
  leb, ◌==◌, if◌then◌else◌, update, Bool-cases, ◌∙◌, ap, subst,
}
use buaa_os.Pipe.{
  Pipe, Call, by2pipe, used, next_byte, advance, put, read_from, pipe_read, write_from, pipe_write,
}
use buaa_os.Pipe.Ring.{IsRing, byte_at, advance-IsRing, byte_at-advance, put-IsRing, byte_at-put}

abbrev pub least : ℕ → ℕ → ℕ
least m n = if leb m n then m else n

-- The call has moved `d` bytes from the front of the pipe into the buffer, from `i` on.
abbrev pub Moved : ℕ → ℕ → (ℕ → ℕ) → Pipe → Call → Type 0
Moved d i rbuf p r =
    (rbuf' : ℕ → ℕ) × (p' : Pipe) × (r ≡ some (i + d, rbuf', p'))
    × IsRing p'
    × (used p' + d ≡ used p)
    × ((j : ℕ) → j < d → rbuf' (i + j) ≡ byte_at p j)
    × ((j : ℕ) → j < i → rbuf' j ≡ rbuf j)
    × ((j : ℕ) → byte_at p' j ≡ byte_at p (d + j))

shift : (i d : ℕ) → i + 1 + d ≡ i + (d + 1)
shift i d = omega arith

least_suc : (a b a' b' : ℕ) → a' + 1 ≡ a → b' + 1 ≡ b → least a b ≡ least a' b' + 1
least_suc a b a' b' p q = ground arith

module _ (yield : Pipe → Pipe) where
  empty_used : (p : Pipe) → IsRing p → (p.p_rpos == p.p_wpos) ≡ true → used p ≡ 0
  empty_used p r e = ground (arith, r.rpos_low)

  some_used : (p : Pipe) → IsRing p → (p.p_rpos == p.p_wpos) ≡ false → 0 < used p
  some_used p r e = ground (arith, r.rpos_low, r.wpos_low)

  stays : (n i : ℕ) (rbuf : ℕ → ℕ) (p : Pipe) → IsRing p → Moved 0 i rbuf p (some (i, rbuf, p))
  stays n i rbuf p r = (
    rbuf,
    p,
    rw plus refl,
    r,
    omega arith,
    λ j l. absurd (omega arith),
    λ j l. refl,
    λ j. ap (byte_at p) (omega arith),
  )
    where
      plus : i + 0 ≡ i
      plus = omega arith

  moves :
      (d i : ℕ) (rbuf : ℕ → ℕ) (p : Pipe) (r : Call)
      → IsRing p
      → 0 < used p
      → Moved d (i + 1) (update rbuf i (next_byte p)) (advance p) r
      → Moved (d + 1) i rbuf p r
  moves d i rbuf p r ring pos (rbuf', p', at, ring', total, new, old, rest) = (
    rbuf',
    p',
    at ∙ rw count refl,
    ring',
    omega (arith, (advance-IsRing p ring pos).1),
    first_or_later,
    before,
    behind,
  )
    where
      count : i + 1 + d ≡ i + (d + 1)
      count = omega arith

      first_or_later : (j : ℕ) → j < d + 1 → rbuf' (i + j) ≡ byte_at p j
      first_or_later zero l = ap rbuf' (omega arith) ∙ old i (omega arith) ∙ ground arith
      first_or_later (suc j) l =
          ap rbuf' (omega arith)
          ∙ new j (omega arith)
          ∙ byte_at-advance p j
          ∙ ap (byte_at p) (omega arith)

      before : (j : ℕ) → j < i → rbuf' j ≡ rbuf j
      before j l = old j (omega arith) ∙ ground arith

      behind : (j : ℕ) → byte_at p' j ≡ byte_at p (d + 1 + j)
      behind j = rest j ∙ byte_at-advance p (d + j) ∙ ap (byte_at p) (omega arith)

  read_from-Moved :
      (fuel n i : ℕ) (rbuf : ℕ → ℕ) (p : Pipe)
      → IsRing p
      → ((0 < i) ⊎ (0 < used p))
      → i ≤ n
      → n < fuel + i
      → Moved (least (n - i) (used p)) i rbuf p (read_from yield fuel n i rbuf p)
  unfolding read_from
  read_from-Moved zero n i rbuf p r go le enough = absurd (omega arith)
  read_from-Moved (suc fuel) n i rbuf p r go le enough = elim (Bool-cases (leb n i)) [
    | inl end ↦
        let all : n ≡ i = ground arith in
        let none_left : least (n - i) (used p) ≡ 0 = ground arith in
        rw (end, none_left, all) (stays n i rbuf p r)
    | inr more ↦ elim (Bool-cases (p.p_rpos == p.p_wpos)) [
      | inl empty ↦
          let none_used : used p ≡ 0 = empty_used p r empty in
          let begun : ltb 0 i ≡ true = ground arith in
          let none_left : least (n - i) (used p) ≡ 0 = ground arith in
          rw (more, empty, begun, none_left) (stays n i rbuf p r)
      | inr full ↦
          let pos = some_used p r full in
          let (ring', fewer) = advance-IsRing p r pos in
          let one_more : least (n - i) (used p) ≡ least (n - (i + 1)) (used (advance p)) + 1 =
            least_suc (n - i) (used p) (n - (i + 1)) (used (advance p)) (ground arith) fewer in
          rw (more, full, one_more)
            (moves (least (n - (i + 1)) (used (advance p))) i rbuf p _ r pos (
              read_from-Moved fuel n (i + 1) (update rbuf i (next_byte p)) (advance p) ring'
                (inl (omega arith)) (ground arith) (omega arith)))
    ]
  ]

  -- With bytes in the pipe `pipe_read` reads as many as there are, up to `n`, the oldest first,
  -- and leaves the others; it returns how many. More than `n` rounds are enough.
  pipe_read-Moved :
      (fuel n : ℕ) (rbuf : ℕ → ℕ) (p : Pipe)
      → IsRing p
      → 0 < used p
      → n < fuel
      → Moved (least n (used p)) 0 rbuf p (pipe_read yield fuel n rbuf p)
  unfolding pipe_read
  pipe_read-Moved fuel n rbuf p r pos enough =
      let all : n - 0 ≡ n = omega arith in
      subst (λ m. Moved (least m (used p)) 0 rbuf p (read_from yield fuel n 0 rbuf p)) all
        (read_from-Moved fuel n 0 rbuf p r (inr pos) (omega arith) (omega arith))

  -- The bytes from `i` on are behind those that were in the pipe.
  abbrev pub Appended : ℕ → ℕ → (ℕ → ℕ) → Pipe → Option (ℕ × Pipe) → Type 0
  Appended d i wbuf p r =
      (p' : Pipe) × (r ≡ some (i + d, p'))
      × IsRing p'
      × (used p' ≡ used p + d)
      × ((j : ℕ) → j < used p → byte_at p' j ≡ byte_at p j)
      × ((j : ℕ) → j < d → byte_at p' (used p + j) ≡ wbuf (i + j))

  appends :
      (d i : ℕ) (wbuf : ℕ → ℕ) (p : Pipe) (r : Option (ℕ × Pipe))
      → IsRing p
      → used p < by2pipe
      → Appended d (i + 1) wbuf (put (wbuf i) p) r
      → Appended (d + 1) i wbuf p r
  appends d i wbuf p r ring room (p', at, ring', total, old, new) =
      (p', at ∙ rw count refl, ring', total ∙ omega (arith, more), kept, first_or_later)
    where
      more : used (put (wbuf i) p) ≡ used p + 1
      more = (put-IsRing (wbuf i) p ring room).1

      count : i + 1 + d ≡ i + (d + 1)
      count = omega arith

      kept : (j : ℕ) → j < used p → byte_at p' j ≡ byte_at p j
      kept j l =
          old j (omega (arith, more))
          ∙ byte_at-put (wbuf i) p j ring room (omega arith)
          ∙ ground arith

      first_or_later : (j : ℕ) → j < d + 1 → byte_at p' (used p + j) ≡ wbuf (i + j)
      first_or_later zero l =
          ap (byte_at p') (omega arith)
          ∙ old (used p) (omega (arith, more))
          ∙ byte_at-put (wbuf i) p (used p) ring room (omega arith)
          ∙ ground arith
      first_or_later (suc j) l =
          ap (byte_at p') (omega (arith, more)) ∙ new j (omega arith) ∙ ap wbuf (omega arith)

  write_from-Appended :
      (fuel d i : ℕ) (wbuf : ℕ → ℕ) (p : Pipe)
      → IsRing p
      → used p + d ≤ by2pipe
      → d < fuel
      → Appended d i wbuf p (write_from yield fuel (i + d) i wbuf p)
  unfolding write_from
  write_from-Appended zero d i wbuf p r room enough = absurd (omega arith)
  write_from-Appended (suc fuel) zero i wbuf p r room enough =
      let end : leb (i + 0) i ≡ true = ground arith in
      rw end (p, refl, r, omega arith, λ j l. refl, λ j l. absurd (omega arith))
  write_from-Appended (suc fuel) (suc d) i wbuf p r room enough =
      let more : leb (i + suc d) i ≡ false = ground arith in
      let open' : (used p == by2pipe) ≡ false = ground arith in
      let (ring', total) = put-IsRing (wbuf i) p r (omega arith) in
      let step : suc d ≡ d + 1 = omega arith in
      rw (more, open', step)
        (subst
          (λ m. Appended (d + 1) i wbuf p (write_from yield fuel m (i + 1) wbuf (put (wbuf i) p)))
          (shift i d)
          (appends d i wbuf p (write_from yield fuel (i + 1 + d) (i + 1) wbuf (put (wbuf i) p)) r
            (omega arith)
            (write_from-Appended fuel d (i + 1) wbuf (put (wbuf i) p) ring' (omega arith)
              (omega arith))))

  -- With room for them, `pipe_write` puts all `n` bytes behind those in the pipe, in order. More
  -- than `n` rounds are enough.
  pipe_write-Appended :
      (fuel n : ℕ) (wbuf : ℕ → ℕ) (p : Pipe)
      → IsRing p
      → used p + n ≤ by2pipe
      → n < fuel
      → Appended n 0 wbuf p (pipe_write yield fuel n wbuf p)
  unfolding pipe_write
  pipe_write-Appended fuel n wbuf p r room enough =
      let all : 0 + n ≡ n = omega arith in
      subst (λ m. Appended n 0 wbuf p (write_from yield fuel m 0 wbuf p)) all
        (write_from-Appended fuel n 0 wbuf p r room enough)

  -- What `pipe_write` puts into an empty pipe, from 1 to 32 bytes, `pipe_read` of as many gives
  -- back, byte for byte, and the pipe is empty again. Neither call yields, so one round more than
  -- there are bytes is enough.
  pub pipe_read-pipe_write :
      (n : ℕ) (wbuf rbuf : ℕ → ℕ) (p : Pipe)
      → IsRing p
      → used p ≡ 0
      → 0 < n
      → n ≤ by2pipe
      → (p' : Pipe) × (pipe_write yield (n + 1) n wbuf p ≡ some (n, p'))
        × (rbuf' : ℕ → ℕ) × (p'' : Pipe) × (pipe_read yield (n + 1) n rbuf p'
            ≡ some (n, rbuf', p''))
        × (used p'' ≡ 0)
        × ((j : ℕ) → j < n → rbuf' j ≡ wbuf j)
  pipe_read-pipe_write n wbuf rbuf p r empty pos small =
      let (p', put', ring, total, _, new) =
        pipe_write-Appended (n + 1) n wbuf p r (omega arith) (omega arith) in
      let all : least n (used p') ≡ n = ground arith in
      let (rbuf', p'', got, ring', fewer, bytes, _, _) =
        pipe_read-Moved (n + 1) n rbuf p' ring (omega arith) (omega arith) in
      (
        p',
        put' ∙ ap (λ m. some (m, p')) (omega arith),
        rbuf',
        p'',
        got ∙ ap (λ m. some (m, rbuf', p'')) (omega arith),
        omega arith,
        λ j l.
            ap rbuf' (omega arith)
            ∙ bytes j (omega arith)
            ∙ ap (byte_at p') (omega (arith, empty))
            ∙ new j l
            ∙ ap wbuf (omega arith),
      )
