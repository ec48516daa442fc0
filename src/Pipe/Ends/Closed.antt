-- ===== src/Pipe/Ends/Closed.antt =====
-- What `_pipe_is_closed` says is true.
use buaa_os.Prelude.{
  ℕ, zero, suc, ◌+◌, ◌^◌, ◌<◌, ◌≤◌, ◌≡◌, refl, sym, subst, inl, inr, Bool, true, false, ◌&&◌, arith,
  ◌==◌, ==_eq, if◌then◌else◌, Bool-cases,
}
use buaa_os.Pipe.Ends.{
  Ends, count, is_end, fd_refs, pipe_refs, Call, close_fd, close_data, dup_data, dup_fd, At, start,
  with_runs, with_fd, with_both, returned, World, Step, read_runs, read_fd, read_pipe, again,
  answer, call, Reach, here, next,
}

-- A slot with the `struct Fd` has the data.
abbrev pub Backed : ℕ → Ends → Type 0
Backed n e = (i : ℕ) → i < n → e.fd i ≡ true → e.page i ≡ true

-- No slot has the data of the other end.
abbrev pub NoOther : ℕ → Bool → Ends → Type 0
NoOther n w e = (i : ℕ) → i < n → is_end w (e.writer i) ≡ false → e.page i ≡ false

count_le :
    (f g : ℕ → Bool) (n : ℕ) → ((i : ℕ) → i < n → f i ≡ true → g i ≡ true) → count n f ≤ count n g
unfolding count
count_le f g zero h = omega arith
count_le f g (suc n) h =
    ground (arith, count_le f g n (λ i l. h i (omega arith)), h n (omega arith))

clash : (b : Bool) → b ≡ false → b ≡ true → ⊥
clash b no_bit bit = ground arith

-- Of two tests with as many slots, where the first implies the second, the second implies the first.
count_same :
    (f g : ℕ → Bool) (n : ℕ)
    → ((i : ℕ) → i < n → f i ≡ true → g i ≡ true)
    → count n f ≡ count n g
    → (i : ℕ) → i < n
    → g i ≡ true
    → f i ≡ true
unfolding count
count_same f g zero h e i l p = absurd (omega arith)
count_same f g (suc n) h e i l p =
    let below = count_le f g n (λ j m. h j (omega arith)) in
    elim (Bool-cases (f n)) [
      | inl counted ↦
          let both : g n ≡ true = h n (omega arith) counted in
          elim (Bool-cases (i == n)) [
            | inl z ↦ rw (==_eq i n z) counted
            | inr nz ↦ count_same f g n (λ j m. h j (omega arith)) (ground arith) i (ground arith) p
          ]
      | inr none ↦
          let neither : g n ≡ false = ground arith in
          elim (Bool-cases (i == n)) [
            | inl z ↦ absurd (clash (g n) neither (subst (λ j. g j ≡ true) (==_eq i n z) p))
            | inr nz ↦ count_same f g n (λ j m. h j (omega arith)) (ground arith) i (ground arith) p
          ]
    ]

-- The same number of references means that the other end is gone.
closed-NoOther :
    (n : ℕ) (w : Bool) (e : Ends) → Backed n e → fd_refs n w e ≡ pipe_refs n e → NoOther n w e
closed-NoOther n w e backed same i low other = elim (Bool-cases (e.page i)) [
  | inr gone ↦ gone
  | inl there ↦
      let mine : (is_end w (e.writer i) && e.fd i) ≡ true =
        count_same (λ j. is_end w (e.writer j) && e.fd j) e.page n
          (λ j l h. backed j l (ground arith)) same i low there in
      absurd (ground arith)
]

Call-Backed : {n : ℕ} {e e' : Ends} → Call n e e' → Backed n e → Backed n e'
Call-Backed (close_fd i low h) backed j l open_fd = ground (arith, backed j l)
Call-Backed {e} (close_data i low h) backed j l open_fd = elim (Bool-cases (j == i)) [
  | inl z ↦ absurd (clash (e.fd i) h (subst (λ k. e.fd k ≡ true) (==_eq j i z) open_fd))
  | inr nz ↦ rw nz (backed j l open_fd)
]
Call-Backed {e} (dup_data i j low low' h free empty) backed k l open_fd =
    elim (Bool-cases (k == j)) [
      | inl z ↦ absurd (clash (e.fd j) free (subst (λ m. e.fd m ≡ true) (==_eq k j z) open_fd))
      | inr nz ↦ rw nz (backed k l open_fd)
    ]
Call-Backed {e} (dup_fd i low h there) backed j l open_fd = elim (Bool-cases (j == i)) [
  | inl z ↦ subst (λ k. e.page k ≡ true) (sym (==_eq j i z)) there
  | inr nz ↦ backed j l (ground arith)
]

Call-NoOther : (n : ℕ) (w : Bool) (e e' : Ends) → Call n e e' → NoOther n w e → NoOther n w e'
Call-NoOther n w e _ (close_fd i low h) gone j l apart = gone j l apart
Call-NoOther n w e _ (close_data i low h) gone j l apart = ground (arith, gone j l)
Call-NoOther n w e _ (dup_data i j low low' h free empty) gone k l apart =
    elim (Bool-cases (k == j)) [
      | inl z ↦ rw z (
          gone i low (subst (λ b. is_end w (if b then e.writer i else e.writer k) ≡ false) z apart))
      | inr nz ↦
          rw nz (
            gone k l
              (subst (λ b. is_end w (if b then e.writer i else e.writer k) ≡ false) nz apart))
    ]
Call-NoOther n w e _ (dup_fd i low h there) gone j l apart = gone j l apart

-- What the values that `_pipe_is_closed` has read say of the world: they are the counts, if the environment has not
-- been switched since it read `env_runs`.
abbrev Reads : ℕ → Bool → ℕ → Ends → At → Type 0
Reads n w now e start = Unit {0}
Reads n w now e (with_runs r) = r ≤ now
Reads n w now e (with_fd r f) = (r ≤ now) × (r ≡ now → f ≡ fd_refs n w e)
Reads n w now e (with_both r f p) =
    (r ≤ now) × (r ≡ now → (f ≡ fd_refs n w e) × (p ≡ pipe_refs n e))
Reads n w now e (returned true) = NoOther n w e
Reads n w now e (returned false) = Unit {0}

abbrev Inv : ℕ → Bool → World → Type 0
Inv n w s = Backed n s.ends × (s.switches < 2 ^ 32 → Reads n w s.switches s.ends s.at)

module _ (n : ℕ) (w : Bool) where
  -- A call of another environment makes what was read old.
  Reads-call :
      (now : ℕ) (e e' : Ends) (a : At) → Call n e e' → Reads n w now e a → Reads n w (now + 1) e' a
  Reads-call now e e' start c h = tt
  Reads-call now e e' (with_runs r) c h = omega arith
  Reads-call now e e' (with_fd r f) c (h, _) = (omega arith, λ same. absurd (omega arith))
  Reads-call now e e' (with_both r f p) c (h, _) = (omega arith, λ same. absurd (omega arith))
  Reads-call now e e' (returned true) c h = Call-NoOther n w e e' c h
  Reads-call now e e' (returned false) c h = tt

  Step-Inv : (s t : World) → Step n w s t → Inv n w s → Inv n w t
  Step-Inv s _ (read_runs at) (backed, h) = (backed, λ small. omega arith)
  Step-Inv s _ (read_fd r at) (backed, h) =
      (backed, λ small. (subst (Reads n w s.switches s.ends) at (h small), λ same. refl))
  Step-Inv s _ (read_pipe r f at) (backed, h) = (
    backed,
    λ small.
        let got = subst (Reads n w s.switches s.ends) at (h small) in
        (got.0, λ same. (got.1 same, refl)),
  )
  Step-Inv s _ (again r f p at moved) (backed, h) = (backed, λ small. tt)
  Step-Inv s _ (answer r f p at same) (backed, h) =
      (backed, λ small. answered small (subst (Reads n w s.switches s.ends) at (h small)))
    where
      answered :
          s.switches < 2 ^ 32
          → Reads n w s.switches s.ends (with_both r f p)
          → Reads n w s.switches s.ends (returned (f == p))
      answered small (_, now) = elim (Bool-cases (f == p)) [
        | inl e ↦
            let (fd, page) = now (omega arith) in
            rw e (closed-NoOther n w s.ends backed (ground arith))
        | inr e ↦ rw e tt
      ]
  Step-Inv s _ (call {e} c) (backed, h) =
      (Call-Backed c backed, λ small. Reads-call s.switches s.ends e s.at c (h (omega arith)))

  Reach-Inv : (s t : World) → Reach n w s t → Inv n w s → Inv n w t
  Reach-Inv s _ here h = h
  Reach-Inv s _ (next {t} {u} r step) h = Step-Inv t u step (Reach-Inv s t r h)

  -- From a world in which every slot with the `struct Fd` has the data, and `_pipe_is_closed` starts: through any
  -- steps of `pipe_close` and `dup` in other environments, and before the environment has been run 2 ^ 32 times, when
  -- `_pipe_is_closed` has returned that the pipe is closed, no slot of the other end has the data, and none has the
  -- `struct Fd`.
  pub closed_for_good :
      (s t : World)
      → Backed n s.ends
      → s.at ≡ start
      → Reach n w s t
      → t.switches < 2 ^ 32
      → t.at ≡ returned true
      → (i : ℕ) → i < n
      → is_end w (t.ends.writer i) ≡ false
      → (t.ends.page i ≡ false) × (t.ends.fd i ≡ false)
  closed_for_good s t backed begin r small done i low apart =
      let inv = Reach-Inv s t r (backed, λ l. subst (Reads n w s.switches s.ends) (sym begin) tt) in
      let gone = subst (Reads n w t.switches t.ends) done (inv.1 small) i low apart in
      (gone, ground (arith, inv.0 i low))
