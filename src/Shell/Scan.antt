-- ===== src/Shell/Scan.antt =====
-- The loops of `_gettoken` (user/sh.c).
use buaa_os.Prelude.{
  ℕ, zero, suc, ◌+◌, ◌<◌, ◌≤◌, ◌≡◌, ◌⊎◌, inl, inr, refl, sym, ap, ◌∙◌, Bool, true, false, not,
  arith, ◌==◌, ==_eq, update, Bool-cases, subst,
}
use buaa_os.Prelude.Outcome.{Returns, Returns-mono}
use buaa_os.Bytes.{Bytes}
use buaa_os.Shell.{strchr, is_some, has, whitespace, skip_white, scan}

pub others : (m : Bytes) (s j v : ℕ) → (j < s) ⊎ (s + 1 ≤ j) → update m s v j ≡ m j
others m s j v (inl l) = ground arith
others m s j v (inr l) = ground arith

wider : {s t j : ℕ} → (j < s) ⊎ (t ≤ j) → (j < s + 1) ⊎ (t ≤ j)
wider (inl l) = inl (omega arith)
wider (inr l) = inr l

apart : {s t j : ℕ} → s + 1 ≤ t → (j < s) ⊎ (t ≤ j) → (j < s) ⊎ (s + 1 ≤ j)
apart from (inl l) = inl l
apart from (inr l) = inr (omega arith)

-- From `s` on the line ends at `e`, within `rounds` bytes.
abbrev pub EndsAt : ℕ → ℕ → ℕ → Bytes → Type 0
EndsAt e rounds s m = (s ≤ e) × (e < s + rounds) × (m e ≡ 0)

-- The white space before `t` is cleared, and nothing else.
pub record Skipped (e s : ℕ) (m : Bytes) (t : ℕ) (m' : Bytes) : Type 0 where
  pub from : s ≤ t
  pub upto : t ≤ e
  pub no_white : has whitespace (m t) ≡ false
  pub same : (j : ℕ) → (j < s) ⊎ (t ≤ j) → m' j ≡ m j
  pub cleared : (j : ℕ) → s ≤ j → j < t → m' j ≡ 0
  pub white : (j : ℕ) → s ≤ j → j < t → has whitespace (m j) ≡ true

-- A byte that passes a test which NUL does not pass is not the last one.
before_end :
    (test : ℕ → Bool) (e s : ℕ) (m : Bytes)
    → test 0 ≡ false
    → s ≤ e
    → m e ≡ 0
    → test (m s) ≡ true
    → s < e
before_end test e s m fails low nul passes = elim (Bool-cases (s == e)) [
  | inl z ↦
      let at : m s ≡ 0 = subst (λ j. m j ≡ 0) (sym (==_eq s e z)) nul in
      let clash : test 0 ≡ true = subst (λ c. test c ≡ true) at passes in absurd (ground arith)
  | inr nz ↦ ground arith
]

pub skip_white-Skipped :
    (rounds e s : ℕ) (m : Bytes)
    → EndsAt e rounds s m
    → Returns (λ t m'. Skipped e s m t m') (skip_white rounds s m)
unfolding skip_white is_some strchr
skip_white-Skipped zero e s m (low, high, nul) = absurd (omega arith)
skip_white-Skipped (suc rounds) e s m (low, high, nul) = elim (Bool-cases (has whitespace (m s))) [
  | inr other ↦ rw other (record {
    from = omega arith;
    upto = low;
    no_white = other;
    same = λ j h. refl;
    cleared = λ j h k. absurd (omega arith);
    white = λ j h k. absurd (omega arith);
  })
  | inl white ↦
      let more : s < e = before_end (has whitespace) e s m refl low nul white in
      let m1 : Bytes = update m s 0 in
      rw white (
        Returns-mono (λ t m'. Skipped e (s + 1) m1 t m') _ (skip_white rounds (s + 1) m1)
          (skip_white-Skipped rounds e (s + 1) m1 (omega arith, omega arith, ground arith))
          (λ t m' h. record {
            from = omega (arith, h.from);
            upto = h.upto;
            no_white =
                subst (λ c. has whitespace c ≡ false) (others m s t 0 (inr h.from)) h.no_white;
            same = λ j out. h.same j (wider out) ∙ others m s j 0 (apart h.from out);
            cleared = λ j low high. elim (Bool-cases (j == s)) [
              | inl z ↦ rw (==_eq j s z) (h.same s (inl (omega arith)) ∙ ground arith)
              | inr nz ↦ h.cleared j (ground arith) high
            ];
            white = λ j low high. elim (Bool-cases (j == s)) [
              | inl z ↦ subst (λ j. has whitespace (m j) ≡ true) (sym (==_eq j s z)) white
              | inr nz ↦
                  let on : s + 1 ≤ j = ground arith in
                  subst (λ c. has whitespace c ≡ true) (others m s j 0 (inr on)) (h.white j on high)
            ];
          }))
]

-- The place where a loop stops.
pub record Stops (stop : ℕ → Bool) (e s : ℕ) (m : Bytes) (t : ℕ) (m' : Bytes) : Type 0 where
  pub starts : s ≤ t
  pub within_line : t ≤ e
  pub unchanged : m' ≡ m
  pub stopped : stop (m t) ≡ true
  pub passed : (j : ℕ) → s ≤ j → j < t → stop (m j) ≡ false

pub scan-Stops :
    (stop : ℕ → Bool) (rounds e s : ℕ) (m : Bytes)
    → stop 0 ≡ true
    → EndsAt e rounds s m
    → Returns (λ t m'. Stops stop e s m t m') (scan stop rounds s m)
unfolding scan
scan-Stops stop zero e s m nul (low, high, end) = absurd (omega arith)
scan-Stops stop (suc rounds) e s m nul (low, high, end) = elim (Bool-cases (stop (m s))) [
  | inl here ↦ rw here (record {
    starts = omega arith;
    within_line = low;
    unchanged = refl;
    stopped = here;
    passed = λ j h k. absurd (omega arith);
  })
  | inr later ↦
      let more : s < e = before_end (λ c. not (stop c)) e s m (ap not nul) low end (ap not later) in
      rw later (
        Returns-mono (λ t m'. Stops stop e (s + 1) m t m') _ (scan stop rounds (s + 1) m)
          (scan-Stops stop rounds e (s + 1) m nul (omega arith, omega arith, end))
          (λ t m' h. record {
            starts = omega arith;
            within_line = h.within_line;
            unchanged = h.unchanged;
            stopped = h.stopped;
            passed = λ j low high. elim (Bool-cases (j == s)) [
              | inl z ↦ rw (==_eq j s z) later
              | inr nz ↦ h.passed j (ground arith) high
            ];
          }))
]
