-- ===== src/Fd/Transfer.antt =====
-- `read` and `readn` of user/lib/fd.c.
use buaa_os.Prelude.{
  ℕ, zero, suc, ◌+◌, ◌-◌, ◌%◌, ◌<◌, ◌≤◌, inl, inr, arith, List, [], ◌∷◌, ltb, ◌==◌, Bool-cases,
}
use buaa_os.Prelude.Outcome.{Outcome, Ends, Ends-bind}
use buaa_os.Memory.{u32, valid}
use buaa_os.Fd.{
  Space, Dev, fd_at, index2fd, pte_at, too_high, fd_lookup, dev_lookup, advanced, read,
  readn_rounds, readn,
}

-- The device reads no more than it is asked for, and does not halt.
abbrev pub Honest : Dev → Type 0
Honest d =
    (fd buf n off : ℕ) (s : Space)
    → Ends (λ r _. r ≤ n) (λ _ _. Unit {0}) (d.dev_read fd buf n off s)

abbrev pub AllHonest : List Dev → Type 0
AllHonest [] = Unit {0}
AllHonest (d ∷ ds) = Honest d × AllHonest ds

dev_lookup-Honest :
    (devtab : List Dev) (i : ℕ) (s : Space)
    → AllHonest devtab
    → Ends (λ d _. Honest d) (λ _ _. Unit {0}) (dev_lookup devtab i s)
unfolding dev_lookup
dev_lookup-Honest [] i s h = tt
dev_lookup-Honest (d ∷ ds) i s (h, hs) = elim (Bool-cases (d.dev_id == i)) [
  | inl e ↦ rw e h
  | inr e ↦ rw e (dev_lookup-Honest ds i s hs)
]

advanced_lem :
    (fd r n : ℕ) (s : Space) → r ≤ n → Ends (λ q _. q ≤ n) (λ _ _. Unit {0}) (advanced fd r s)
unfolding advanced
advanced_lem fd r n s l = elim (Bool-cases (r == 0)) [ inl z ↦ rw z l | inr nz ↦ rw nz l ]

fd_lookup-Ends :
    (fdnum : ℕ) (s : Space) → Ends (λ _ _. Unit {0}) (λ _ _. Unit {0}) (fd_lookup fdnum s)
unfolding fd_lookup
fd_lookup-Ends fdnum s = elim (Bool-cases (too_high fdnum)) [
  | inl high ↦ rw high tt
  | inr ok ↦ elim (Bool-cases (valid (pte_at s (index2fd fdnum)))) [
    | inl used ↦ rw (ok, used) tt
    | inr unused ↦ rw (ok, unused) tt
  ]
]

-- At most `n`, or an error.
abbrev pub AtMost : ℕ → Outcome Space ℕ → Type 0
AtMost n = Ends (λ r _. r ≤ n) (λ _ _. Unit {0})

module _ (devtab : List Dev) (honest : AllHonest devtab) (fdnum : ℕ) where
  read-AtMost : (buf n : ℕ) (s : Space) → AtMost n (read devtab fdnum buf n s)
  unfolding read
  read-AtMost buf n s =
      Ends-bind (λ _ _. Unit {0}) _ _ (fd_lookup fdnum s) _ (fd_lookup-Ends fdnum s)
        (λ fd t _.
          Ends-bind (λ d _. Honest d) _ _ (dev_lookup devtab (fd_at t fd).fd_dev_id t) _
            (dev_lookup-Honest devtab (fd_at t fd).fd_dev_id t honest)
            (λ d u h. elim (Bool-cases ((fd_at t fd).fd_omode % 4 == 1)) [
              | inl refused ↦ rw refused tt
              | inr readable ↦ rw readable (
                  Ends-bind (λ r _. r ≤ n) _ _ (d.dev_read fd buf n (fd_at t fd).fd_offset u) _
                    (h fd buf n (fd_at t fd).fd_offset u) (λ r v l. advanced_lem fd r n v l))
            ]))

  readn_rounds-AtMost :
      (rounds buf n tot : ℕ) (s : Space)
      → n < tot + rounds
      → tot ≤ n
      → AtMost n (readn_rounds devtab rounds fdnum buf n tot s)
  unfolding readn_rounds
  readn_rounds-AtMost zero buf n tot s enough inside = absurd (omega arith)
  readn_rounds-AtMost (suc rounds) buf n tot s enough inside = elim (Bool-cases (ltb tot n)) [
    | inr all ↦ rw all inside
    | inl more ↦ rw more (
        Ends-bind (λ r _. r ≤ n - tot) _ _ (read devtab fdnum (u32 (buf + tot)) (n - tot) s) _
          (read-AtMost (u32 (buf + tot)) (n - tot) s)
          (λ m t l. elim (Bool-cases (m == 0)) [
            | inl z ↦ rw z inside
            | inr nz ↦
                rw nz (readn_rounds-AtMost rounds buf n (tot + m) t (ground arith) (omega arith))
          ]))
  ]

  -- With devices that read no more than they are asked for and do not halt, `readn` ends: it returns at most `n`
  -- bytes, or an error of `read`. Its loop never needs more rounds than there are bytes, and one.
  pub readn-AtMost : (buf n : ℕ) (s : Space) → AtMost n (readn devtab fdnum buf n s)
  unfolding readn
  readn-AtMost buf n s = readn_rounds-AtMost (n + 1) buf n 0 s (omega arith) (omega arith)
