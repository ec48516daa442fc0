-- ===== src/Memory/Alloc.antt =====
-- `page_alloc` and `page_free` of kern/pmap.c.
use buaa_os.Prelude.{
  ℕ, ◌≤◌, ◌<◌, ◌^◌, ◌≡◌, ◌≢◌, inl, inr, refl, true, false, List, [], ◌∷◌, arith, update, has, subst,
  List-cases, Bool-cases, Distinct,
}
use buaa_os.Prelude.Outcome.{Outcome, e_no_mem, done, fail, panic, Ends, ◌>>=◌}
use buaa_os.Memory.{Mem, page_alloc, page_free}
use buaa_os.Memory.Valid.{Role, free, held, IsValid}

-- The memory after `p` was taken from the free list and cleared.
abbrev pub taken : Mem → ℕ → List ℕ → Mem
taken s p rest = record s { page_free_list = rest; frame = update s.frame p (λ i. 0) }

pub page_alloc_empty : (s : Mem) → s.page_free_list ≡ [] → page_alloc s ≡ fail e_no_mem s
unfolding page_alloc
page_alloc_empty s e = ground arith

pub page_alloc_first :
    (s : Mem) (p : ℕ) (rest : List ℕ)
    → s.page_free_list ≡ p ∷ rest
    → p < s.npage
    → s.npage ≤ 2 ^ 20
    → page_alloc s ≡ done p (taken s p rest)
unfolding page_alloc
page_alloc_first s p rest e b small = ground arith

pub page_free_unused :
    (s : Mem) (p : ℕ)
    → s.pp_ref p ≡ 0
    → page_free p s ≡ done tt (record s { page_free_list = p ∷ s.page_free_list })
unfolding page_free
page_free_unused s p unused = ground arith

-- `page_free` of a page that is still mapped halts.
pub page_free_used : (s : Mem) (p : ℕ) → 0 < s.pp_ref p → page_free p s ≡ panic
unfolding page_free
page_free_used s p used = ground arith

module _ (s : Mem) (role : ℕ → Role) (ok : IsValid s role) where
  module _ (p : ℕ) (rest : List ℕ) (e : s.page_free_list ≡ p ∷ rest) where
    first : has p s.page_free_list ≡ true
    first = rw e (ground arith)

    later : (q : ℕ) → has q rest ≡ true → has q s.page_free_list ≡ true
    later q h = rw e (ground arith)

    distinct : Distinct (p ∷ rest)
    distinct = subst Distinct e ok.free_distinct

    pub taken-IsValid : IsValid (taken s p rest) (update role p held)
    taken-IsValid = record {
      small = ok.small;
      free_distinct = distinct.1;
      free_role = λ q h. ground (arith, later q h, ok.free_role q, distinct.0);
      free_bound = λ q h. ok.free_bound q (later q h);
      free_unused = λ q h. ok.free_unused q (later q h);
      table_role = λ r d h l w. ground (arith, ok.table_role r d, ok.free_role p first);
      table_bound = λ r d h l w. ground (arith, ok.table_bound r d);
      page_role = λ t r d i h l w. ground (arith, ok.page_role t r d i, ok.free_role p first);
      page_bound = λ t r d i h l w. ground (arith, ok.page_bound t r d i);
      page_used = λ t r d i h l w. ground (arith, ok.page_used t r d i);
    }

  -- What `page_alloc` promises of the page and of the memory after it.
  abbrev pub Allocates : Outcome Mem ℕ → Type 0
  Allocates =
      Ends
        (λ p s'.
          (role p ≡ free)
          × (s'.pp_ref p ≡ 0)
          × ((i : ℕ) → s'.frame p i ≡ 0)
          × ((q i : ℕ) → q ≢ p → s'.frame q i ≡ s.frame q i)
          × IsValid s' (update role p held))
        (λ e s'. (e ≡ e_no_mem) × (s.page_free_list ≡ []) × (s' ≡ s))

  -- In a well-formed memory `page_alloc` gives a free page without references, cleared, and
  -- changes no other page; the memory stays well formed, with the page held by the caller. It
  -- fails only without a free page, and then changes nothing.
  pub page_alloc-IsValid : Allocates (page_alloc s)
  page_alloc-IsValid = elim (List-cases s.page_free_list) [
    | inl e ↦ rw (page_alloc_empty s e) (refl, e, refl)
    | inr (p, rest, e) ↦
        rw (page_alloc_first s p rest e (ok.free_bound p (first p rest e)) ok.small) (
          ok.free_role p (first p rest e),
          ok.free_unused p (first p rest e),
          λ i. ground arith,
          λ q i ne. ground arith,
          taken-IsValid p rest e,
        )
  ]

  module _ (p : ℕ) (h : role p ≡ held) (b : p < s.npage) (unused : s.pp_ref p ≡ 0) where
    absent : has p s.page_free_list ≡ false
    absent = elim (Bool-cases (has p s.page_free_list)) [
      | inl there ↦ cc (ok.free_role p there)
      | inr away ↦ away
    ]

    freed-IsValid :
        IsValid (record s { page_free_list = p ∷ s.page_free_list }) (update role p free)
    freed-IsValid = record {
      small = ok.small;
      free_distinct = (absent, ok.free_distinct);
      free_role = λ q m. ground (arith, ok.free_role q);
      free_bound = λ q m. ground (arith, ok.free_bound q);
      free_unused = λ q m. ground (arith, ok.free_unused q);
      table_role = λ r d m l w. ground (arith, ok.table_role r d);
      table_bound = λ r d m l w. ground (arith, ok.table_bound r d);
      page_role = λ t r d i m l w. ground (arith, ok.page_role t r d i);
      page_bound = λ t r d i m l w. ground (arith, ok.page_bound t r d i);
      page_used = λ t r d i m l w. ground (arith, ok.page_used t r d i);
    }

    -- `page_free` of a held page without references gives it back: the memory stays well formed
    -- with the page free, and the page is the first of the free list.
    pub page_free-IsValid :
        Ends
          (λ _ s'. IsValid s' (update role p free) × (s'.page_free_list ≡ p ∷ s.page_free_list))
          (λ e s'. ⊥)
          (page_free p s)
    page_free-IsValid = rw (page_free_unused s p unused) (freed-IsValid, refl)

-- A page that was freed is the next one that is allocated, cleared.
page_alloc-page_free :
    (s : Mem) (p : ℕ)
    → s.pp_ref p ≡ 0
    → p < s.npage
    → s.npage ≤ 2 ^ 20
    → (page_free p >>= λ _. page_alloc) s ≡ done p (record s { frame = update s.frame p (λ i. 0) })
unfolding page_free page_alloc
page_alloc-page_free s p unused b small = ground arith
