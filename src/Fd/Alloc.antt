-- ===== src/Fd/Alloc.antt =====
-- `fd_alloc` of user/lib/fd.c gives the first descriptor that `fd_lookup` refuses.
use buaa_os.Prelude.{
  ℕ, zero, suc, ◌+◌, ◌-◌, ◌<◌, ◌≡◌, refl, inl, inr, true, false, arith, ◌==◌, ==_eq, Bool-cases,
}
use buaa_os.Prelude.Outcome.{Errno, e_inval, e_max_open, done, fail, Ends}
use buaa_os.Memory.{valid}
use buaa_os.Fd.{
  Space, maxfd, index2fd, fd2num, table_at, pte_at, too_high, fd_lookup, fd_alloc_from, fd_alloc,
}

-- Where the page directory has no table, no page is mapped.
abbrev pub Tidy : Space → Type 0
Tidy s = (va : ℕ) → table_at s va ≡ false → valid (pte_at s va) ≡ false

module _ (s : Space) where
  -- The descriptors before `i` are in use.
  abbrev pub Busy : ℕ → Type 0
  Busy i = (j : ℕ) → j < i → fd_lookup j s ≡ done (index2fd j) s

  -- The first descriptor that is not in use, of those below 31; the state stays.
  abbrev pub Smallest : ℕ → Space → Type 0
  Smallest va t =
      (t ≡ s)
      × (i : ℕ) × (i < maxfd - 1)
      × (va ≡ index2fd i)
      × (fd2num va ≡ i)
      × (fd_lookup i s ≡ fail e_inval s)
      × Busy i

  abbrev pub AllBusy : Errno → Space → Type 0
  AllBusy e t = (e ≡ e_max_open) × (t ≡ s) × Busy (maxfd - 1)

  pub fd_lookup-used :
      (i : ℕ)
      → i < maxfd
      → valid (pte_at s (index2fd i)) ≡ true
      → fd_lookup i s ≡ done (index2fd i) s
  unfolding fd_lookup
  fd_lookup-used i low used = let ok : too_high i ≡ false = ground arith in rw (ok, used) refl

  pub fd_lookup-unused :
      (i : ℕ) → valid (pte_at s (index2fd i)) ≡ false → fd_lookup i s ≡ fail e_inval s
  unfolding fd_lookup
  fd_lookup-unused i unused = elim (Bool-cases (too_high i)) [
    | inl high ↦ rw high refl
    | inr ok ↦ rw (ok, unused) refl
  ]

  pub fd2num-index2fd : (i : ℕ) → i < maxfd → fd2num (index2fd i) ≡ i
  fd2num-index2fd i low = omega arith

  found :
      (i : ℕ)
      → i < maxfd - 1
      → valid (pte_at s (index2fd i)) ≡ false
      → Busy i
      → Smallest (index2fd i) s
  found i low unused busy =
      (refl, i, low, refl, fd2num-index2fd i (omega arith), fd_lookup-unused i unused, busy)

  fd_alloc_from-Smallest :
      Tidy s
      → (rounds i : ℕ) → i + rounds ≡ maxfd - 1
      → Busy i
      → Ends Smallest AllBusy (fd_alloc_from rounds i s)
  unfolding fd_alloc_from
  fd_alloc_from-Smallest tidy zero i sum busy = (refl, refl, λ j low. busy j (omega arith))
  fd_alloc_from-Smallest tidy (suc rounds) i sum busy =
      elim (Bool-cases (table_at s (index2fd i))) [
        | inr away ↦ rw away (found i (omega arith) (tidy (index2fd i) away) busy)
        | inl table ↦ elim (Bool-cases (valid (pte_at s (index2fd i)))) [
          | inr unused ↦ rw (table, unused) (found i (omega arith) unused busy)
          | inl used ↦
              rw (table, used)
                (fd_alloc_from-Smallest tidy rounds (i + 1) (omega arith) (more used))
        ]
      ]
    where
      more : valid (pte_at s (index2fd i)) ≡ true → Busy (i + 1)
      more used j low = elim (Bool-cases (j == i)) [
        | inl same ↦ rw (==_eq j i same) (fd_lookup-used i (omega arith) used)
        | inr before ↦ busy j (ground arith)
      ]

  -- In an address space that has no page where the page directory has no table: `fd_alloc` gives the address of
  -- the first descriptor that `fd_lookup` refuses, and its number is below 31, or it fails with E_MAX_OPEN when
  -- `fd_lookup` finds all 31. It changes nothing.
  pub fd_alloc-Smallest : Tidy s → Ends Smallest AllBusy (fd_alloc s)
  unfolding fd_alloc
  fd_alloc-Smallest tidy = fd_alloc_from-Smallest tidy 31 0 refl (λ j low. absurd (omega arith))
