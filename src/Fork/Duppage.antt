-- ===== src/Fork/Duppage.antt =====
-- `duppage` (user/lib/fork.c) gives the child one of the parent's pages.
use buaa_os.Prelude.{
  ℕ, ◌%◌, ◌^◌, ◌<◌, ◌≡◌, ◌≢◌, refl, sym, ◌∙◌, subst, inl, inr, true, false, not, ◌||◌, none,
  if◌then◌else◌, arith, update, Bool-cases,
}
use buaa_os.Prelude.Outcome.{done, Returns}
use buaa_os.Memory.{valid, ppn_of, entry}
use buaa_os.Kernel.Syscall.{is_illegal_va}
use buaa_os.Fork.{
  Side, parent, child, Spaces, Answers, is_library, is_writable, set_pte, page_va, stack_page,
  mapped, mem_map, duppage,
}
use buaa_os.Fork.Pages.{is_private, Forked, cow_perm, new_parent, new_child, new_Forked}

-- Only the entries of the page `i` change.
pub record Stepped (i : ℕ) (s t : Spaces) : Type 0 where
  pub same_pages : t.pages ≡ s.pages
  pub here : Forked (s.ptes parent i) (s.ptes child i) (t.ptes parent i) (t.ptes child i)
  pub others : (side : Side) (j : ℕ) → j ≢ i → t.ptes side j ≡ s.ptes side j

module _ (answers : Answers) where
  granted :
      (from : Side) (i : ℕ) (to : Side) (j perm : ℕ) (s : Spaces)
      → is_illegal_va (page_va i) ≡ false
      → is_illegal_va (page_va j) ≡ false
      → answers s to j ≡ none
      → valid (s.ptes from i) ≡ true
      → mem_map answers from i to j perm s
        ≡ done tt (set_pte to j (entry (ppn_of (s.ptes from i)) perm) s)
  unfolding mem_map mapped
  granted from i to j perm s legal legal' grants there = rw (legal, legal', there, grants) refl

  -- The two entries at `i`, written.
  written :
      (i : ℕ) (s t : Spaces)
      → s.ptes parent i < 2 ^ 32
      → valid (s.ptes parent i) ≡ true
      → t.pages ≡ s.pages
      → t.ptes parent i ≡ new_parent (s.ptes parent i)
      → t.ptes child i ≡ new_child (s.ptes parent i)
      → ((side : Side) (j : ℕ) → j ≢ i → t.ptes side j ≡ s.ptes side j)
      → Stepped i s t
  written i s t word there same e e' other =
      let p = s.ptes parent i in
      let c = s.ptes child i in
      record {
        same_pages = same;
        here =
            subst (λ v. Forked p c v (t.ptes child i)) (sym e)
              (subst (λ v. Forked p c (new_parent p) v) (sym e') (new_Forked p c word there));
        others = other;
      }

  updated : (f : ℕ → ℕ) (i v : ℕ) → update f i v i ≡ v
  updated f i v = ground arith

  pub duppage-Stepped :
      (i : ℕ) (s : Spaces)
      → is_illegal_va (page_va i) ≡ false
      → ((t : Spaces) (side : Side) → answers t side i ≡ none)
      → s.ptes parent i < 2 ^ 32
      → valid (s.ptes parent i) ≡ true
      → Returns (λ _ t. Stepped i s t) (duppage answers i s)
  unfolding duppage
  duppage-Stepped i s legal grants word there =
      let p = s.ptes parent i in
      elim (Bool-cases (is_private p)) [
        | inl private ↦
            let test : (not (is_writable (p % 2 ^ 12)) || is_library (p % 2 ^ 12)) ≡ false =
              ground arith in
            let e = entry (ppn_of p) (cow_perm p) in
            let s1 = set_pte child i (entry (ppn_of p) (cow_perm p)) s in
            rw
              (
                test,
                granted parent i child i (cow_perm p) s legal legal (grants s child) there,
                granted parent i parent i (cow_perm p) s1 legal legal (grants s1 parent) there,
              )
              (written i s (set_pte parent i (entry (ppn_of p) (cow_perm p)) s1) word there refl
                (updated (s1.ptes parent) i e ∙ rw private refl)
                (updated (s.ptes child) i e ∙ rw private refl) other)
        | inr shared ↦
            let test : (not (is_writable (p % 2 ^ 12)) || is_library (p % 2 ^ 12)) ≡ true =
              ground arith in
            rw (test, granted parent i child i (p % 2 ^ 12) s legal legal (grants s child) there)
              (written i s (set_pte child i (entry (ppn_of p) (p % 2 ^ 12)) s) word there refl
                (rw shared refl)
                (updated (s.ptes child) i (entry (ppn_of p) (p % 2 ^ 12)) ∙ rw shared refl) other')
      ]
    where
      other :
          (side : Side) (j : ℕ)
          → j ≢ i
          → (set_pte parent i (entry (ppn_of (s.ptes parent i)) (cow_perm (s.ptes parent i))) (
                set_pte child i
                  (entry (ppn_of (s.ptes parent i)) (cow_perm (s.ptes parent i)))
                  s)).ptes
              side j
            ≡ s.ptes side j
      other parent j ne = ground arith
      other child j ne = ground arith

      other' :
          (side : Side) (j : ℕ)
          → j ≢ i
          → (set_pte child i (entry (ppn_of (s.ptes parent i)) (s.ptes parent i % 2 ^ 12)) s).ptes
              side j
            ≡ s.ptes side j
      other' parent j ne = refl
      other' child j ne = ground arith

  -- `duppage` of a page below the one of the stack, that the parent has and whose entry is a word, on a kernel that grants its mapping, returns. Where
  -- the page's address is not one that the kernel maps, nothing changes. Else both sides name that page afterwards,
  -- which is copy-on-write and not writable for both if it was writable and not shared, while any other keeps the
  -- parent's entry and is as writable, as shared and as much copy-on-write for the child; the contents of all pages and
  -- all entries of other pages are as they were.
  pub duppage-Forked :
      (i : ℕ) (s : Spaces)
      → ((t : Spaces) (side : Side) → answers t side i ≡ none)
      → i < stack_page
      → s.ptes parent i < 2 ^ 32
      → valid (s.ptes parent i) ≡ true
      → Returns
          (λ _ t. if is_illegal_va (page_va i) then t ≡ s else Stepped i s t)
          (duppage answers i s)
  unfolding duppage mem_map
  duppage-Forked i s grants low word there = elim (Bool-cases (is_illegal_va (page_va i))) [
    | inr legal ↦ rw legal (duppage-Stepped i s legal grants word there)
    | inl illegal ↦
        elim (Bool-cases
          (not (is_writable (s.ptes parent i % 2 ^ 12)) || is_library (s.ptes parent i % 2 ^ 12))) [
            | inl shared ↦ rw (shared, illegal) refl
            | inr private ↦ rw (private, illegal, illegal) refl
          ]
  ]
