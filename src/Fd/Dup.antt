-- ===== src/Fd/Dup.antt =====
-- `dup` of user/lib/fd.c: two descriptors with one page.
use buaa_os.Prelude.{
  ℕ, ◌+◌, ◌*◌, ◌/◌, ◌^◌, ◌<◌, ◌≤◌, ◌≡◌, ◌≢◌, ◌⊎◌, refl, sym, ap, ◌∙◌, subst, inl, inr, true, false,
  arith, bit_and, bit_or, List, ltb, if◌then◌else◌, update, Bool-cases,
}
use buaa_os.Prelude.Outcome.{
  Outcome, done, fail, panic, Ends, Ends-bind, Ends-both, Returns, Returns-Ends, ignoring, e_inval,
  Cmd, and_then, skip,
}
use buaa_os.Memory.{valid, ppn_of, pte_d, entry}
use buaa_os.Fd.{
  Space, Dev, Fd, Answers, maxfd, pte_library, index2fd, vpn, fd2data, table_at, pte_at, fd_at,
  fd_lookup, set_offset, mem_unmap, mem_map, dup_pages, unmap_pages, undone, share, close, dup,
  seek,
}
use buaa_os.Kernel.Syscall.{is_illegal_va}
use buaa_os.Fd.Alloc.{Tidy, fd_lookup-used, fd_lookup-unused}
use buaa_os.Memory.Entry.{SamePage}
use buaa_os.Fd.Pages.{
  shared_entry, Apart, Apart-none, mem_map-Apart, Copies, dup_pages-Copies, Cleaned, unmap-Apart,
  unmap_pages-Cleaned, vpn-page,
}

-- The page of a descriptor, and the first page of its data.
abbrev pub fd_page : ℕ → ℕ
fd_page i = 0x5fc00 + i

abbrev pub data_page : ℕ → ℕ
data_page i = 0x60000 + i * 1024

index2fd-page : (i : ℕ) → i < maxfd → index2fd i ≡ fd_page i * 2 ^ 12
index2fd-page i low = omega arith

fd2data-page : (i : ℕ) → i < maxfd → fd2data (fd_page i * 2 ^ 12) ≡ data_page i * 2 ^ 12
fd2data-page i low = omega arith

-- Only the entries of the descriptor `n` and of its data differ.
pub record Around (n : ℕ) (s t : Space) : Type 0 where
  pub kept_fds : t.fds ≡ s.fds
  pub kept_bytes : t.bytes ≡ s.bytes
  pub kept_others :
      (p : ℕ) → p ≢ fd_page n → (p < data_page n) ⊎ (data_page n + 1024 ≤ p) → t.ptes p ≡ s.ptes p

-- The descriptor `n` and its data are on the pages of `o`.
abbrev pub Shared : ℕ → ℕ → Space → Space → Type 0
Shared o n s t =
    Around n s t
    × SamePage (s.ptes (fd_page o)) (t.ptes (fd_page n))
    × Copies 1024 (data_page o) (data_page n) s t

-- The descriptor `n` and its data are unmapped.
abbrev pub Withdrawn : ℕ → Space → Space → Type 0
Withdrawn n s t = Around n s t × (t.ptes (fd_page n) ≡ 0) × Cleaned 1024 (data_page n) t

Around-step :
    (n : ℕ) (s t u : Space)
    → n < maxfd
    → Apart (data_page n) 1024 s t
    → Apart (fd_page n) 1 t u
    → Around n s u
Around-step n s t u low h k = record {
  kept_fds = k.same_fds ∙ h.same_fds;
  kept_bytes = k.same_bytes ∙ h.same_bytes;
  kept_others = λ p ne out. k.others p (apart p ne) ∙ h.others p out;
}
  where
    apart : (p : ℕ) → p ≢ fd_page n → (p < fd_page n) ⊎ (fd_page n + 1 ≤ p)
    apart p ne = elim (Bool-cases (ltb p (fd_page n))) [
      | inl l ↦ inl (ground arith)
      | inr l ↦ inr (ground arith)
    ]

Around-then : (n : ℕ) (s t u : Space) → Around n s t → Apart (data_page n) 1024 t u → Around n s u
Around-then n s t u h k = record {
  kept_fds = k.same_fds ∙ h.kept_fds;
  kept_bytes = k.same_bytes ∙ h.kept_bytes;
  kept_others = λ p ne out. k.others p out ∙ h.kept_others p ne out;
}

updated : (f : ℕ → Fd) (k j : ℕ) (v : Fd) → j ≡ k → update f k v j ≡ v
updated f k j v e = ground arith

close-unused :
    (devtab : List Dev) (i : ℕ) (s : Space)
    → fd_lookup i s ≡ fail e_inval s
    → close devtab i s ≡ fail e_inval s
unfolding close
close-unused devtab i s unused = rw unused refl

module _ (answers : Answers) (o n : ℕ) (o_low : o < maxfd) (n_low : n < maxfd) (ne : o ≢ n)
    (s : Space) (words : (p : ℕ) → s.ptes p < 2 ^ 32) (tidy : Tidy s) where
  abbrev share_data : Cmd Space (Unit {0})
  share_data u =
      (if table_at s (data_page o * 2 ^ 12)
          then dup_pages answers 1024 (data_page o * 2 ^ 12) (data_page n * 2 ^ 12)
          else skip)
        u

  no_data : table_at s (data_page o * 2 ^ 12) ≡ false → Copies 1024 (data_page o) (data_page n) s s
  no_data away p q low high place there =
      let table : s.tables (p * 2 ^ 12 / 2 ^ 22) ≡ false =
        subst (λ v. s.tables v ≡ false) (omega arith) away in
      let unused : valid (s.ptes p) ≡ false =
        subst (λ v. valid (s.ptes v) ≡ false) (vpn-page p) (tidy (p * 2 ^ 12) table) in
      absurd (ground arith)

  share_data-Copies :
      Ends
        (λ _ t. Apart (data_page n) 1024 s t × Copies 1024 (data_page o) (data_page n) s t)
        (λ e t. Apart (data_page n) 1024 s t)
        (share_data s)
  share_data-Copies = elim (Bool-cases (table_at s (data_page o * 2 ^ 12))) [
    | inl table ↦ rw table (
        dup_pages-Copies answers 1024 (data_page o) (data_page n) s (omega arith) (omega arith)
          apart (λ p low high. words p))
    | inr away ↦ rw away (Apart-none (data_page n) 1024 s, no_data away)
  ]
    where
      apart : (data_page o + 1024 ≤ data_page n) ⊎ (data_page n + 1024 ≤ data_page o)
      apart = elim (Bool-cases (ltb o n)) [
        | inl l ↦ inl (ground arith)
        | inr l ↦ inr (ground arith)
      ]

  map_fd :
      (t : Space)
      → Apart (data_page n) 1024 s t
      → Copies 1024 (data_page o) (data_page n) s t
      → Ends
          (λ _ u. Shared o n s u)
          (λ e u. Apart (data_page n) 1024 s u)
          (mem_map answers
            (fd_page o * 2 ^ 12)
            (fd_page n * 2 ^ 12)
            (bit_and (pte_at t (fd_page o * 2 ^ 12)) (bit_or pte_d pte_library))
            t)
  map_fd t h k =
      let perm = bit_and (pte_at t (fd_page o * 2 ^ 12)) (bit_or pte_d pte_library) in
      Ends-both _ _ (λ e u. u ≡ t) _
        (mem_map answers (fd_page o * 2 ^ 12) (fd_page n * 2 ^ 12) perm t)
        (mem_map-Apart answers (fd_page o * 2 ^ 12) (fd_page n * 2 ^ 12) perm t)
        (λ x u (j, at).
          let k' : Apart (fd_page n) 1 t u = subst (λ v. Apart v 1 t u) (vpn-page (fd_page n)) j in
          let old : pte_at t (fd_page o * 2 ^ 12) ≡ s.ptes (fd_page o) =
            ap t.ptes (vpn-page (fd_page o)) ∙ h.others (fd_page o) (inl (omega arith)) in
          let new : u.ptes (fd_page n) ≡ entry (ppn_of (pte_at t (fd_page o * 2 ^ 12))) perm =
            ap u.ptes (sym (vpn-page (fd_page n))) ∙ at in
          (
            Around-step n s t u n_low h k',
            rw new (rw old (shared_entry (s.ptes (fd_page o)) (words (fd_page o)))),
            λ p q low high place there.
                subst (SamePage (s.ptes p)) (sym (k'.others q (inr (omega arith))))
                  (k p q low high place there),
          ))
        (λ e u same. rw same h)

  share-Shared :
      Ends
        (λ _ t. Shared o n s t)
        (λ e t. Apart (data_page n) 1024 s t)
        (share answers (fd_page o * 2 ^ 12) (fd_page n * 2 ^ 12) s)
  unfolding share
  share-Shared =
      subst (λ d. Done (body d (fd2data (fd_page n * 2 ^ 12)))) (sym (fd2data-page o o_low))
        (subst (λ d. Done (body (data_page o * 2 ^ 12) d)) (sym (fd2data-page n n_low))
          (Ends-bind _ _ _ (share_data s) _ share_data-Copies (λ x t h. map_fd t h.0 h.1)))
    where
      Done : Outcome Space (Unit {0}) → Type 0
      Done r = Ends (λ _ t. Shared o n s t) (λ e t. Apart (data_page n) 1024 s t) r

      body : ℕ → ℕ → Outcome Space (Unit {0})
      body d e = and_then ((if table_at s d then dup_pages answers 1024 d e else skip) s) (λ _ t.
          mem_map answers (fd_page o * 2 ^ 12) (fd_page n * 2 ^ 12)
            (bit_and (pte_at t (fd_page o * 2 ^ 12)) (bit_or pte_d pte_library)) t)

  undone-Withdrawn :
      (r : Outcome Space (Unit {0}))
      → Ends (λ _ t. Shared o n s t) (λ e t. Apart (data_page n) 1024 s t) r
      → Ends
          (λ _ t. Shared o n s t)
          (λ e t. Withdrawn n s t)
          (undone (fd_page n * 2 ^ 12) (data_page n * 2 ^ 12) r)
  unfolding undone is_illegal_va
  undone-Withdrawn (done u t) h = h
  undone-Withdrawn panic h = h
  undone-Withdrawn (fail e t) h =
      Returns-Ends _ _ _ (mem_unmap (fd_page n * 2 ^ 12) t) _
        (unmap-Apart (fd_page n) t (ground arith))
        (λ x u (j, gone).
          Returns-Ends _ _ _ (unmap_pages 1024 (data_page n * 2 ^ 12) u) _
            (unmap_pages-Cleaned 1024 (data_page n) u (omega arith) (omega arith))
            (λ y v (k, clean). (
              Around-then n s u v (Around-step n s t u n_low h j) k,
              k.others (fd_page n) (inl (omega arith)) ∙ gone,
              clean,
            )))

  abbrev Dups : ℕ → ℕ → ℕ → Type 0
  Dups x y d =
      Ends (λ r t. (r ≡ n) × Shared o n s t) (λ e t. Withdrawn n s t)
        (and_then (undone y d (share answers x y s)) (λ _ t. done n t))

  mapped-Dups : Dups (index2fd o) (index2fd n) (fd2data (index2fd n))
  mapped-Dups =
      subst (λ x. Dups x (index2fd n) (fd2data (index2fd n))) (sym (index2fd-page o o_low))
        (subst (λ y. Dups (fd_page o * 2 ^ 12) y (fd2data y)) (sym (index2fd-page n n_low))
          (subst (λ d. Dups (fd_page o * 2 ^ 12) (fd_page n * 2 ^ 12) d)
            (sym (fd2data-page n n_low))
            (Ends-bind (λ _ t. Shared o n s t) _ _
              (undone (fd_page n * 2 ^ 12) (data_page n * 2 ^ 12)
                (share answers (fd_page o * 2 ^ 12) (fd_page n * 2 ^ 12) s))
              _
              (undone-Withdrawn (share answers (fd_page o * 2 ^ 12) (fd_page n * 2 ^ 12) s)
                share-Shared)
              (λ x t h. (refl, h)))))

  -- A descriptor in use and another one that is not, both below 32: if `dup` returns, it returns the new number;
  -- the new descriptor and each page of its data are then on the page that the old one has there, and nothing else
  -- has changed. If it fails, the new descriptor and all pages of its data are unmapped, and nothing else has changed.
  -- The entries of the page tables are words, and where the page directory has no table no page is mapped.
  pub dup-Shared :
      (devtab : List Dev)
      → valid (pte_at s (index2fd o)) ≡ true
      → valid (pte_at s (index2fd n)) ≡ false
      → Ends (λ r t. (r ≡ n) × Shared o n s t) (λ e t. Withdrawn n s t) (dup answers devtab o n s)
  unfolding dup
  dup-Shared devtab used unused =
      subst (λ r. Dup (and_then r (λ x t. from x (close devtab n t))))
        (sym (fd_lookup-used s o o_low used))
        (subst (λ r. Dup (from (index2fd o) r))
          (sym (close-unused devtab n s (fd_lookup-unused s n unused))) mapped-Dups)
    where
      Dup : Outcome Space ℕ → Type 0
      Dup r = Ends (λ r t. (r ≡ n) × Shared o n s t) (λ e t. Withdrawn n s t) r

      from : ℕ → Outcome Space ℕ → Outcome Space ℕ
      from x r = and_then (ignoring r) (λ _ u.
          and_then (undone (index2fd n) (fd2data (index2fd n)) (share answers x (index2fd n) u))
            (λ _ v. done n v))

  seek-Shared :
      (t : Space) (offset : ℕ)
      → Shared o n s t
      → Returns (λ _ u. (fd_at u (index2fd o)).fd_offset ≡ offset) (seek n offset t)
  unfolding seek
  seek-Shared t offset (around, (here, page), _) =
      subst
        (λ r.
          Returns (λ _ u. (fd_at u (index2fd o)).fd_offset ≡ offset)
            (and_then r (λ fd. set_offset fd offset)))
        (sym (fd_lookup-used t n n_low (subst (λ v. valid (t.ptes v) ≡ true) (sym place_n) here)))
        (ap (λ (v : Fd). v.fd_offset)
          (updated t.fds (ppn_of (pte_at t (index2fd n))) (ppn_of (pte_at t (index2fd o))) _ same))
    where
      place_n : vpn (index2fd n) ≡ fd_page n
      place_n = omega arith

      place_o : vpn (index2fd o) ≡ fd_page o
      place_o = omega arith

      same : ppn_of (pte_at t (index2fd o)) ≡ ppn_of (pte_at t (index2fd n))
      same =
          ap (λ v. ppn_of (t.ptes v)) place_o
          ∙ ap ppn_of (around.kept_others (fd_page o) (ground arith) (inl (omega arith)))
          ∙ sym page
          ∙ ap (λ v. ppn_of (t.ptes v)) (sym place_n)

  -- In the same case, if `dup` returns, `seek` on the new descriptor sets the offset of the old one too.
  pub dup-seek :
      (devtab : List Dev) (offset : ℕ)
      → valid (pte_at s (index2fd o)) ≡ true
      → valid (pte_at s (index2fd n)) ≡ false
      → Ends
          (λ r t. Returns (λ _ u. (fd_at u (index2fd o)).fd_offset ≡ offset) (seek r offset t))
          (λ e t. Unit {0})
          (dup answers devtab o n s)
  dup-seek devtab offset used unused =
      Ends-both _ _ _ _ (dup answers devtab o n s) (dup-Shared devtab used unused)
        (λ r t (same, h).
          subst (λ i. Returns (λ _ u. (fd_at u (index2fd o)).fd_offset ≡ offset) (seek i offset t))
            (sym same) (seek-Shared t offset h))
        (λ e t h. tt)
